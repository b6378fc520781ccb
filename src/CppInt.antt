-- ===== src/CppInt.antt =====
-- Wrap-around arithmetic on the type-checker's numeric constants: cpp_int_limits.cpp, cpp_int_add.cpp,
-- cpp_int_sub.cpp, cpp_int_mult.cpp and cpp_int_div.cpp of dep0/lib/03_typecheck/src. The four
-- specialisations of each template differ in their width alone. `cpp_int` is a library's integer of
-- any size; its conversion to a machine integer is a parameter. `none` is undefined behaviour.
pub mod Div
pub mod Inverse
pub mod Mult
pub mod Wrap
use depc.Prelude.{
  ℕ, ◌+◌, ◌-◌, ◌*◌, ◌/◌, ◌%◌, ◌^◌, ◌<◌, ◌≡◌, Option, none, some, ltb, ◌==◌, if◌then◌else◌,
}
use depc.Prelude.Int.{ℤ, pos, negsuc, ◌≤ℤ◌}

-- `sign_t` and `width_t` of dep0/lib/01_ast.
pub data Sign : Type 0 where
  signed_v unsigned_v : Sign

pub data Width : Type 0 where
  _8 _16 _32 _64 : Width

-- 2 ^ (w - 1) and 2 ^ w.
abbrev pub half : Width → ℕ
half _8 = 2 ^ 7
half _16 = 2 ^ 15
half _32 = 2 ^ 31
half _64 = 2 ^ 63

abbrev pub modulus : Width → ℕ
modulus _8 = 2 ^ 8
modulus _16 = 2 ^ 16
modulus _32 = 2 ^ 32
modulus _64 = 2 ^ 64

unfoldable pub cpp_int_min_signed : Width → ℤ
cpp_int_min_signed w = negsuc (half w - 1)

unfoldable pub cpp_int_max_signed : Width → ℤ
cpp_int_max_signed w = pos (half w - 1)

unfoldable pub cpp_int_max_unsigned : Width → ℤ
cpp_int_max_unsigned w = pos (modulus w - 1)

unfoldable pub cpp_int_min : Sign → Width → ℤ
unfolding cpp_int_min_signed
cpp_int_min signed_v w = cpp_int_min_signed w
cpp_int_min unsigned_v w = pos 0

unfoldable pub cpp_int_max : Sign → Width → ℤ
unfolding cpp_int_max_signed cpp_int_max_unsigned
cpp_int_max signed_v w = cpp_int_max_signed w
cpp_int_max unsigned_v w = cpp_int_max_unsigned w

abbrev pub InRange : Sign → Width → ℤ → Type 0
InRange s w a = (cpp_int_min s w ≤ℤ a) × (a ≤ℤ cpp_int_max s w)

-- `cpp_int::convert_to<T>()`, at `std::int8_t` to `std::int64_t` and at `std::uint8_t` to
-- `std::uint64_t`: a value of the type, which is the old value if that fits.
pub record Conversion : Type 0 where
  pub to_signed : Width → ℤ → ℤ
  pub to_unsigned : Width → ℤ → ℕ
  pub to_signed-InRange : (w : Width) (a : ℤ) → InRange signed_v w (to_signed w a)
  pub to_unsigned-lt : (w : Width) (a : ℤ) → to_unsigned w a < modulus w
  pub to_signed-fits : (w : Width) (a : ℤ) → InRange signed_v w a → to_signed w a ≡ a
  pub to_unsigned-fits : (w : Width) (n : ℕ) → n < modulus w → to_unsigned w (pos n) ≡ n

-- `std::bit_cast` between the signed and the unsigned type of a width, in two's complement.
unfoldable pub bit_cast_unsigned : Width → ℤ → ℕ
bit_cast_unsigned w (pos n) = n
bit_cast_unsigned w (negsuc n) = modulus w - 1 - n

unfoldable pub bit_cast_signed : Width → ℕ → ℤ
bit_cast_signed w n = if ltb n (half w) then pos n else negsuc (modulus w - 1 - n)

-- `z = x + y`, `z = x - y` and `z = x * y` on the unsigned type. The operands of 8 and 16 bits are
-- promoted to `int`, of 32 bits: a product that it does not hold is undefined.
unfoldable pub add_word : Width → ℕ → ℕ → ℕ
add_word w x y = (x + y) % modulus w

unfoldable pub sub_word : Width → ℕ → ℕ → ℕ
sub_word w x y = (x + modulus w - y) % modulus w

unfoldable pub mult_word : Width → ℕ → ℕ → Option ℕ
mult_word _16 x y = if ltb (x * y) (2 ^ 31) then some ((x * y) % 2 ^ 16) else none
mult_word w x y = some ((x * y) % modulus w)

-- `z = x / y`; division by zero is undefined.
unfoldable pub div_word : Width → ℕ → ℕ → Option ℕ
div_word w x y = if y == 0 then none else some ((x / y) % modulus w)

abbrev pub map_option : {A B : Type 0} → (A → B) → Option A → Option B
map_option f none = none
map_option f (some a) = some (f a)

module _ (c : Conversion) where
  open c use {to_signed, to_unsigned}

  abbrev pub signed_word : Width → ℤ → ℕ
  signed_word w a = bit_cast_unsigned w (to_signed w a)

  unfoldable pub cpp_int_add_signed : Width → ℤ → ℤ → ℤ
  unfolding bit_cast_unsigned bit_cast_signed add_word
  cpp_int_add_signed w a b = bit_cast_signed w (add_word w (signed_word w a) (signed_word w b))

  unfoldable pub cpp_int_add_unsigned : Width → ℤ → ℤ → ℤ
  unfolding add_word
  cpp_int_add_unsigned w a b = pos (add_word w (to_unsigned w a) (to_unsigned w b))

  unfoldable pub cpp_int_add : Sign → Width → ℤ → ℤ → ℤ
  unfolding cpp_int_add_signed cpp_int_add_unsigned
  cpp_int_add signed_v w a b = cpp_int_add_signed w a b
  cpp_int_add unsigned_v w a b = cpp_int_add_unsigned w a b

  unfoldable pub cpp_int_sub_signed : Width → ℤ → ℤ → ℤ
  unfolding bit_cast_unsigned bit_cast_signed sub_word
  cpp_int_sub_signed w a b = bit_cast_signed w (sub_word w (signed_word w a) (signed_word w b))

  unfoldable pub cpp_int_sub_unsigned : Width → ℤ → ℤ → ℤ
  unfolding sub_word
  cpp_int_sub_unsigned w a b = pos (sub_word w (to_unsigned w a) (to_unsigned w b))

  unfoldable pub cpp_int_sub : Sign → Width → ℤ → ℤ → ℤ
  unfolding cpp_int_sub_signed cpp_int_sub_unsigned
  cpp_int_sub signed_v w a b = cpp_int_sub_signed w a b
  cpp_int_sub unsigned_v w a b = cpp_int_sub_unsigned w a b

  unfoldable pub cpp_int_mult_signed : Width → ℤ → ℤ → Option ℤ
  unfolding bit_cast_unsigned bit_cast_signed mult_word
  cpp_int_mult_signed w a b =
      map_option (bit_cast_signed w) (mult_word w (signed_word w a) (signed_word w b))

  unfoldable pub cpp_int_mult_unsigned : Width → ℤ → ℤ → Option ℤ
  unfolding mult_word
  cpp_int_mult_unsigned w a b = map_option pos (mult_word w (to_unsigned w a) (to_unsigned w b))

  unfoldable pub cpp_int_mult : Sign → Width → ℤ → ℤ → Option ℤ
  unfolding cpp_int_mult_signed cpp_int_mult_unsigned
  cpp_int_mult signed_v w a b = cpp_int_mult_signed w a b
  cpp_int_mult unsigned_v w a b = cpp_int_mult_unsigned w a b

  unfoldable pub cpp_int_div_signed : Width → ℤ → ℤ → Option ℤ
  unfolding bit_cast_unsigned bit_cast_signed div_word
  cpp_int_div_signed w a b =
      map_option (bit_cast_signed w) (div_word w (signed_word w a) (signed_word w b))

  unfoldable pub cpp_int_div_unsigned : Width → ℤ → ℤ → Option ℤ
  unfolding div_word
  cpp_int_div_unsigned w a b = map_option pos (div_word w (to_unsigned w a) (to_unsigned w b))

  unfoldable pub cpp_int_div : Sign → Width → ℤ → ℤ → Option ℤ
  unfolding cpp_int_div_signed cpp_int_div_unsigned
  cpp_int_div signed_v w a b = cpp_int_div_signed w a b
  cpp_int_div unsigned_v w a b = cpp_int_div_unsigned w a b
