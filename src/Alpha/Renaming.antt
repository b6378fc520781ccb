-- ===== src/Alpha/Renaming.antt =====
-- A function and the function that renaming one of its arguments gives.
use depc.Qty.{Qty}
