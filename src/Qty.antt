-- ===== src/Qty.antt =====
-- dep0/lib/01_ast/include/dep0/ast/qty.hpp: the quantity of a function argument.
pub mod Laws
use depc.Prelude.{ℕ, ◌+◌, ◌*◌, min}

pub data Qty : Type 0 where
  zero one many : Qty

-- `static_cast<int>`
abbrev pub to_int : Qty → ℕ
to_int Qty.zero = 0
to_int Qty.one = 1
to_int Qty.many = 2

-- `static_cast<qty_t>`, at the values 0, 1 and 2 that `std::min(2, _)` leaves.
abbrev pub of_int : ℕ → Qty
of_int ℕ.zero = Qty.zero
of_int (ℕ.suc ℕ.zero) = Qty.one
of_int (ℕ.suc (ℕ.suc _)) = Qty.many

infixl 65 ◌+Q◌
unfoldable pub ◌+Q◌ : Qty → Qty → Qty
a +Q b = of_int (min 2 (to_int a + to_int b))

infixl 70 ◌*Q◌
unfoldable pub ◌*Q◌ : Qty → Qty → Qty
a *Q b = of_int (min 2 (to_int a * to_int b))
