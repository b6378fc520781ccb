-- ===== src/CppInt/Div.antt =====
-- cpp_int_div.cpp against the quotient of the natural numbers.
use depc.Prelude.{
  Bool, true, false, ℕ, ◌-◌, ◌*◌, ◌/◌, ◌%◌, ◌≤◌, ◌<◌, ◌≡◌, refl, ◌∙◌, ap, none, some, ◌==◌,
  if◌then◌else◌, arith,
}
use depc.Prelude.Int.{ℤ, pos, negsuc}
use depc.CppInt.{
  Sign, signed_v, unsigned_v, Width, _8, _16, _32, _64, half, modulus, cpp_int_min, cpp_int_max,
  InRange, Conversion, bit_cast_unsigned, bit_cast_signed, div_word, map_option, cpp_int_div,
}
use native.Mathlib.Nat.{div-le_self, div-lt_iff_lt-mul}
use depc.CppInt.Wrap.{unsigned_value, signed_word-fits, unsigned_word-fits}

-- The cast of a quotient `q` that is below half the modulus.
small_quotient : (w : Width) (q : ℕ) → q < half w → bit_cast_signed w (q % modulus w) ≡ pos q
unfolding bit_cast_signed
small_quotient _8 q h = ground arith
small_quotient _16 q h = ground arith
small_quotient _32 q h = ground arith
small_quotient _64 q h = ground arith

below_half : (w : Width) (n : ℕ) → InRange signed_v w (pos n) → n < half w
unfolding cpp_int_min cpp_int_max
below_half _8 n h = omega arith
below_half _16 n h = omega arith
below_half _32 n h = omega arith
below_half _64 n h = omega arith

-- The word of a negative number, divided by at least two.
negative_quotient : (w : Width) (n k : ℕ) → 2 ≤ k → (modulus w - 1 - n) / k < half w
negative_quotient w n k h = (div-lt_iff_lt-mul (omega arith)).1 (below w)
  where
    below : (w : Width) → modulus w - 1 - n < half w * k
    below _8 = omega arith
    below _16 = omega arith
    below _32 = omega arith
    below _64 = omega arith

wrap_quotient : (w : Width) (q : ℕ) → q < modulus w → q % modulus w ≡ q
wrap_quotient _8 q h = omega arith
wrap_quotient _16 q h = omega arith
wrap_quotient _32 q h = omega arith
wrap_quotient _64 q h = omega arith

map_option-if :
    (f : ℕ → ℤ) (b : Bool) (q : ℕ) (z : ℤ)
    → f q ≡ z
    → map_option f (if b then none else some q) ≡ (if b then none else some z)
map_option-if f true q z e = refl
map_option-if f false q z e = ap some e

-- On two non-negative values that fit, of either sign and any width, division returns their quotient,
-- and has no value where the divisor is zero.
pub cpp_int_div_nonnegative :
    (c : Conversion) (s : Sign) (w : Width) (n k : ℕ)
    → InRange s w (pos n)
    → InRange s w (pos k)
    → cpp_int_div c s w (pos n) (pos k) ≡ (if k == 0 then none else some (pos (n / k)))
unfolding cpp_int_div bit_cast_unsigned div_word
cpp_int_div_nonnegative c signed_v w n k h l =
    rw (signed_word-fits c w (pos n) h, signed_word-fits c w (pos k) l)
      (map_option-if (bit_cast_signed w) (k == 0) _ _
        (small_quotient w (n / k) (omega (arith, below_half w n h, div-le_self n k))))
cpp_int_div_nonnegative c unsigned_v w n k h l =
    rw (unsigned_word-fits c w (pos n) h, unsigned_word-fits c w (pos k) l)
      (map_option-if pos (k == 0) _ _ (
        ap pos (
          wrap_quotient w (n / k)
            (omega (arith, (unsigned_value w (pos n) h).1, div-le_self n k)))))

-- The signed quotient of a negative value that fits by a divisor of at least two that fits is not
-- negative: it is the quotient of the dividend's bit pattern, read as unsigned, by the divisor.
pub cpp_int_div_negative :
    (c : Conversion) (w : Width) (n k : ℕ)
    → InRange signed_v w (negsuc n)
    → InRange signed_v w (pos k)
    → 2 ≤ k
    → cpp_int_div c signed_v w (negsuc n) (pos k) ≡ some (pos ((modulus w - 1 - n) / k))
unfolding cpp_int_div bit_cast_unsigned div_word
cpp_int_div_negative c w n k h l t =
    rw (signed_word-fits c w (negsuc n) h, signed_word-fits c w (pos k) l)
      (map_option-if (bit_cast_signed w) (k == 0) _ _
          (small_quotient w _ (negative_quotient w n k t))
        ∙ ground arith)
