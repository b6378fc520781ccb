-- ===== src/CppInt/Inverse.antt =====
-- cpp_int_add.cpp after cpp_int_sub.cpp.
use depc.Prelude.{◌+◌, ◌%◌, ◌≡◌, arith}
use depc.Prelude.Int.{ℤ, pos_part, neg_part, ◌+ℤ◌, ◌-ℤ◌, +ℤ_parts, -ℤ_parts, eq_of_parts}
use depc.CppInt.{
  Sign, signed_v, unsigned_v, Width, _8, _16, _32, _64, modulus, cpp_int_min, cpp_int_max, InRange,
  Conversion, cpp_int_add, cpp_int_sub,
}
use depc.CppInt.Wrap.{IsWrapped, cpp_int_add-IsWrapped, cpp_int_sub-IsWrapped}

-- Congruence is transitive through the difference.
congruent_trans :
    (w : Width) (a b d r : ℤ)
    → (pos_part d + neg_part (a -ℤ b)) % modulus w ≡ (pos_part (a -ℤ b) + neg_part d) % modulus w
    → (pos_part r + neg_part (d +ℤ b)) % modulus w ≡ (pos_part (d +ℤ b) + neg_part r) % modulus w
    → (pos_part r + neg_part a) % modulus w ≡ (pos_part a + neg_part r) % modulus w
congruent_trans _8 a b d r h k = omega (arith, -ℤ_parts a b, +ℤ_parts d b)
congruent_trans _16 a b d r h k = omega (arith, -ℤ_parts a b, +ℤ_parts d b)
congruent_trans _32 a b d r h k = omega (arith, -ℤ_parts a b, +ℤ_parts d b)
congruent_trans _64 a b d r h k = omega (arith, -ℤ_parts a b, +ℤ_parts d b)

-- At most one value that fits is congruent to a given integer.
wrapped_unique : (s : Sign) (w : Width) (a r : ℤ) → InRange s w a → IsWrapped s w a r → r ≡ a
unfolding cpp_int_min cpp_int_max
wrapped_unique s w a r h k = eq_of_parts r a (unique_parts s w h k.in_range k.congruent)
  where
    unique_parts :
        (s : Sign) (w : Width)
        → InRange s w a
        → InRange s w r
        → (pos_part r + neg_part a) % modulus w ≡ (pos_part a + neg_part r) % modulus w
        → pos_part r + neg_part a ≡ pos_part a + neg_part r
    unique_parts signed_v _8 h k e = omega arith
    unique_parts signed_v _16 h k e = omega arith
    unique_parts signed_v _32 h k e = omega arith
    unique_parts signed_v _64 h k e = omega arith
    unique_parts unsigned_v _8 h k e = omega arith
    unique_parts unsigned_v _16 h k e = omega arith
    unique_parts unsigned_v _32 h k e = omega arith
    unique_parts unsigned_v _64 h k e = omega arith

-- Addition undoes subtraction: for values that fit, of either sign and any width, adding `b` to the
-- difference of `a` and `b` gives `a` back, whether or not the difference wrapped around.
pub add-cpp_int_sub :
    (c : Conversion) (s : Sign) (w : Width) (a b : ℤ)
    → InRange s w a
    → InRange s w b
    → cpp_int_add c s w (cpp_int_sub c s w a b) b ≡ a
add-cpp_int_sub c s w a b h k =
    let d = cpp_int_sub-IsWrapped c s w a b h k in
    let e = cpp_int_add-IsWrapped c s w (cpp_int_sub c s w a b) b d.in_range k in
    wrapped_unique s w a _ h (record {
      in_range = e.in_range;
      congruent = congruent_trans w a b _ _ d.congruent e.congruent;
    })
