-- ===== src/Impossible/Unsound.antt =====
-- A body that `is_impossible` (is_impossible.cpp) accepts and that returns.
use depc.Prelude.{Bool, true, false}
use depc.Stmts.Run.{Evaluation, Outcome, returns_void, returns}

abbrev pub has_returned : {E : Evaluation} → Outcome E → Bool
has_returned (returns_void _) = true
has_returned (returns _ _) = true
has_returned _ = false
