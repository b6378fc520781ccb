-- ===== src/Tests/Numbers.antt =====
-- Arithmetic on numeric constants.
use depc.Prelude.{ℕ, ◌-◌, ◌/◌, ◌<◌, ◌≡◌, refl, none, some, ltb, ◌==◌, if◌then◌else◌, arith}
use depc.Prelude.Int.{ℤ, pos, negsuc, ◌+ℤ◌, ◌-ℤ◌, ◌*ℤ◌}
use depc.CppInt.{
  signed_v, unsigned_v, Width, _8, _16, _32, _64, half, modulus, cpp_int_min, cpp_int_max, InRange,
  Conversion, bit_cast_unsigned, cpp_int_add, cpp_int_sub, cpp_int_mult, cpp_int_div,
}
use depc.CppInt.Wrap.{IsWrapped, cpp_int_add-IsWrapped, cpp_int_sub-IsWrapped}
use depc.CppInt.Inverse.{add-cpp_int_sub}
use depc.CppInt.Mult.{cpp_int_mult-IsWrapped}
use depc.CppInt.Div.{cpp_int_div_nonnegative, cpp_int_div_negative}

-- A conversion that gives zero for what does not fit.
unfoldable fit_signed : Width → ℤ → ℤ
fit_signed w (pos n) = if ltb n (half w) then pos n else pos 0
fit_signed w (negsuc n) = if ltb n (half w) then negsuc n else pos 0

unfoldable fit_unsigned : Width → ℤ → ℕ
fit_unsigned w (pos n) = if ltb n (modulus w) then n else 0
fit_unsigned w (negsuc n) = 0

fit_signed-InRange : (w : Width) (a : ℤ) → InRange signed_v w (fit_signed w a)
unfolding fit_signed cpp_int_min cpp_int_max
fit_signed-InRange _8 a = ground arith
fit_signed-InRange _16 a = ground arith
fit_signed-InRange _32 a = ground arith
fit_signed-InRange _64 a = ground arith

fit_unsigned-lt : (w : Width) (a : ℤ) → fit_unsigned w a < modulus w
unfolding fit_unsigned
fit_unsigned-lt _8 a = ground arith
fit_unsigned-lt _16 a = ground arith
fit_unsigned-lt _32 a = ground arith
fit_unsigned-lt _64 a = ground arith

fit_signed-fits : (w : Width) (a : ℤ) → InRange signed_v w a → fit_signed w a ≡ a
unfolding fit_signed cpp_int_min cpp_int_max
fit_signed-fits _8 a h = ground arith
fit_signed-fits _16 a h = ground arith
fit_signed-fits _32 a h = ground arith
fit_signed-fits _64 a h = ground arith

abbrev conversion : Conversion
unfolding fit_unsigned
conversion = record {
  to_signed = fit_signed;
  to_unsigned = fit_unsigned;
  to_signed-InRange = fit_signed-InRange;
  to_unsigned-lt = fit_unsigned-lt;
  to_signed-fits = fit_signed-fits;
  to_unsigned-fits = λ w n h. ground arith;
}

fits_100 : InRange signed_v _8 (pos 100)
unfolding cpp_int_min cpp_int_max
fits_100 = omega arith

fits_minus_100 : InRange signed_v _8 (negsuc 99)
unfolding cpp_int_min cpp_int_max
fits_minus_100 = omega arith

fits_3 : InRange signed_v _16 (pos 3)
unfolding cpp_int_min cpp_int_max
fits_3 = omega arith

fits_200 : InRange unsigned_v _8 (pos 200)
unfolding cpp_int_min cpp_int_max
fits_200 = omega arith

-- 100 + 100 is -56 in eight bits.
add_wraps : cpp_int_add conversion signed_v _8 (pos 100) (pos 100) ≡ negsuc 55
unfolding cpp_int_add fit_signed conversion
add_wraps = refl

-- -4 / 2 is 126 in eight bits.
div_of_negative : cpp_int_div conversion signed_v _8 (negsuc 3) (pos 2) ≡ some (pos 126)
unfolding cpp_int_div fit_signed conversion
div_of_negative = refl

-- 65535 * 65535 does not fit in `int`.
mult_overflows : cpp_int_mult conversion unsigned_v _16 (pos 65535) (pos 65535) ≡ none
unfolding cpp_int_mult fit_unsigned conversion
mult_overflows = refl

cpp_int_add-IsWrapped_example :
    IsWrapped signed_v _8
      (pos 100 +ℤ pos 100)
      (cpp_int_add conversion signed_v _8 (pos 100) (pos 100))
cpp_int_add-IsWrapped_example =
    cpp_int_add-IsWrapped conversion signed_v _8 (pos 100) (pos 100) fits_100 fits_100

cpp_int_sub-IsWrapped_example :
    IsWrapped signed_v _8
      (negsuc 99 -ℤ pos 100)
      (cpp_int_sub conversion signed_v _8 (negsuc 99) (pos 100))
cpp_int_sub-IsWrapped_example =
    cpp_int_sub-IsWrapped conversion signed_v _8 (negsuc 99) (pos 100) fits_minus_100 fits_100

add-cpp_int_sub_example :
    cpp_int_add conversion signed_v _8
      (cpp_int_sub conversion signed_v _8 (negsuc 99) (pos 100))
      (pos 100)
    ≡ negsuc 99
add-cpp_int_sub_example =
    add-cpp_int_sub conversion signed_v _8 (negsuc 99) (pos 100) fits_minus_100 fits_100

cpp_int_mult-IsWrapped_example :
    (r : ℤ) × ((cpp_int_mult conversion signed_v _16 (pos 3) (pos 3) ≡ some r)
      × IsWrapped signed_v _16 (pos 3 *ℤ pos 3) r)
unfolding bit_cast_unsigned
cpp_int_mult-IsWrapped_example =
    cpp_int_mult-IsWrapped conversion signed_v _16 (pos 3) (pos 3) fits_3 fits_3 (omega arith)

cpp_int_div_nonnegative_example :
    cpp_int_div conversion unsigned_v _8 (pos 200) (pos 200)
    ≡ (if 200 == 0 then none else some (pos (200 / 200)))
cpp_int_div_nonnegative_example =
    cpp_int_div_nonnegative conversion unsigned_v _8 200 200 fits_200 fits_200

cpp_int_div_negative_example :
    cpp_int_div conversion signed_v _8 (negsuc 99) (pos 100)
    ≡ some (pos ((modulus _8 - 1 - 99) / 100))
cpp_int_div_negative_example =
    cpp_int_div_negative conversion _8 99 100 fits_minus_100 fits_100 (omega arith)
