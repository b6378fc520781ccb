-- ===== src/Qty/Laws.antt =====
-- The algebra of the quantities of qty.hpp.
use depc.Prelude.{◌+◌, ◌*◌, ◌≡◌, min, arith}
use depc.Qty.{Qty, zero, one, to_int, ◌+Q◌, ◌*Q◌}

pub record IsSaturatingSemiring : Type 0 where
  pub add_comm : (a b : Qty) → a +Q b ≡ b +Q a
  pub add_assoc : (a b c : Qty) → a +Q b +Q c ≡ a +Q (b +Q c)
  pub add-zero : (a : Qty) → a +Q zero ≡ a
  pub mul_comm : (a b : Qty) → a *Q b ≡ b *Q a
  pub mul_assoc : (a b c : Qty) → a *Q b *Q c ≡ a *Q (b *Q c)
  pub mul-one : (a : Qty) → a *Q one ≡ a
  pub mul-zero : (a : Qty) → a *Q zero ≡ zero
  pub distrib : (a b c : Qty) → a *Q (b +Q c) ≡ a *Q b +Q a *Q c
  pub to_int-add : (a b : Qty) → to_int (a +Q b) ≡ min 2 (to_int a + to_int b)
  pub to_int-mul : (a b : Qty) → to_int (a *Q b) ≡ min 2 (to_int a * to_int b)

-- Addition and multiplication of quantities are commutative and associative with units `zero` and
-- `one`, `zero` absorbs, multiplication distributes over addition, and both are those of the
-- natural numbers, cut off at two.
pub Qty-IsSaturatingSemiring : IsSaturatingSemiring
unfolding ◌+Q◌ ◌*Q◌
Qty-IsSaturatingSemiring = record {
  add_comm = λ a b. ground arith;
  add_assoc = λ a b c. ground arith;
  add-zero = λ a. ground arith;
  mul_comm = λ a b. ground arith;
  mul_assoc = λ a b c. ground arith;
  mul-one = λ a. ground arith;
  mul-zero = λ a. ground arith;
  distrib = λ a b c. ground arith;
  to_int-add = λ a b. ground arith;
  to_int-mul = λ a b. ground arith;
}
