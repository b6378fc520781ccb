-- ===== src/CppInt/Wrap.antt =====
-- cpp_int_add.cpp and cpp_int_sub.cpp against the arithmetic of the integers.
use depc.Prelude.{ℕ, ◌+◌, ◌-◌, ◌%◌, ◌<◌, ◌≡◌, refl, ◌∙◌, sym, ap, arith}
use depc.Prelude.Int.{ℤ, pos, negsuc, pos_part, neg_part, ◌+ℤ◌, ◌-ℤ◌, +ℤ_parts, -ℤ_parts}
use mathlib.Core.Path.{subst₂}
use depc.CppInt.{
  Sign, signed_v, unsigned_v, Width, _8, _16, _32, _64, modulus, cpp_int_min, cpp_int_max, InRange,
  Conversion, bit_cast_unsigned, bit_cast_signed, add_word, sub_word, signed_word, cpp_int_add,
  cpp_int_sub,
}

-- `r` is the value of the type that is congruent to `a` modulo 2 ^ w.
pub record IsWrapped (s : Sign) (w : Width) (a r : ℤ) : Type 0 where
  pub in_range : InRange s w r
  pub congruent : (pos_part r + neg_part a) % modulus w ≡ (pos_part a + neg_part r) % modulus w

-- The bit pattern of a signed value.
pub signed_pattern :
    (w : Width) (a : ℤ)
    → InRange signed_v w a
    → (bit_cast_unsigned w a < modulus w)
      × ((bit_cast_unsigned w a + neg_part a) % modulus w ≡ pos_part a % modulus w)
unfolding bit_cast_unsigned cpp_int_min cpp_int_max
signed_pattern _8 (pos n) h = omega arith
signed_pattern _16 (pos n) h = omega arith
signed_pattern _32 (pos n) h = omega arith
signed_pattern _64 (pos n) h = omega arith
signed_pattern _8 (negsuc n) h = omega arith
signed_pattern _16 (negsuc n) h = omega arith
signed_pattern _32 (negsuc n) h = omega arith
signed_pattern _64 (negsuc n) h = omega arith

pub signed_value :
    (w : Width) (n : ℕ)
    → n < modulus w
    → InRange signed_v w (bit_cast_signed w n)
      × ((n + neg_part (bit_cast_signed w n)) % modulus w
          ≡ pos_part (bit_cast_signed w n) % modulus w)
unfolding bit_cast_signed cpp_int_min cpp_int_max
signed_value _8 n h = ground arith
signed_value _16 n h = ground arith
signed_value _32 n h = ground arith
signed_value _64 n h = ground arith

-- Congruence is kept by addition and subtraction, and shown by patterns.
add_congruent :
    (w : Width) (x y : ℕ) (a b r : ℤ)
    → (x + neg_part a) % modulus w ≡ pos_part a % modulus w
    → (y + neg_part b) % modulus w ≡ pos_part b % modulus w
    → (add_word w x y + neg_part r) % modulus w ≡ pos_part r % modulus w
    → (pos_part r + neg_part (a +ℤ b)) % modulus w ≡ (pos_part (a +ℤ b) + neg_part r) % modulus w
unfolding add_word
add_congruent _8 x y a b r h k l = omega (arith, +ℤ_parts a b)
add_congruent _16 x y a b r h k l = omega (arith, +ℤ_parts a b)
add_congruent _32 x y a b r h k l = omega (arith, +ℤ_parts a b)
add_congruent _64 x y a b r h k l = omega (arith, +ℤ_parts a b)

sub_congruent :
    (w : Width) (x y : ℕ) (a b r : ℤ)
    → y < modulus w
    → (x + neg_part a) % modulus w ≡ pos_part a % modulus w
    → (y + neg_part b) % modulus w ≡ pos_part b % modulus w
    → (sub_word w x y + neg_part r) % modulus w ≡ pos_part r % modulus w
    → (pos_part r + neg_part (a -ℤ b)) % modulus w ≡ (pos_part (a -ℤ b) + neg_part r) % modulus w
unfolding sub_word
sub_congruent _8 x y a b r d h k l = omega (arith, -ℤ_parts a b)
sub_congruent _16 x y a b r d h k l = omega (arith, -ℤ_parts a b)
sub_congruent _32 x y a b r d h k l = omega (arith, -ℤ_parts a b)
sub_congruent _64 x y a b r d h k l = omega (arith, -ℤ_parts a b)

-- An unsigned value is a natural number below 2 ^ w.
pub unsigned_value :
    (w : Width) (a : ℤ) → InRange unsigned_v w a → (a ≡ pos (pos_part a)) × (pos_part a < modulus w)
unfolding cpp_int_min cpp_int_max
unsigned_value _8 (pos n) h = (refl, omega arith)
unsigned_value _16 (pos n) h = (refl, omega arith)
unsigned_value _32 (pos n) h = (refl, omega arith)
unsigned_value _64 (pos n) h = (refl, omega arith)
unsigned_value w (negsuc n) h = absurd (omega arith)

pub mod-InRange : (w : Width) (n : ℕ) → InRange unsigned_v w (pos (n % modulus w))
unfolding cpp_int_min cpp_int_max
mod-InRange _8 n = omega arith
mod-InRange _16 n = omega arith
mod-InRange _32 n = omega arith
mod-InRange _64 n = omega arith

add_unsigned :
    (w : Width) (n k : ℕ) → IsWrapped unsigned_v w (pos n +ℤ pos k) (pos ((n + k) % modulus w))
add_unsigned _8 n k = record {
  in_range = mod-InRange _8 (n + k);
  congruent = omega (arith, +ℤ_parts (pos n) (pos k));
}
add_unsigned _16 n k = record {
  in_range = mod-InRange _16 (n + k);
  congruent = omega (arith, +ℤ_parts (pos n) (pos k));
}
add_unsigned _32 n k = record {
  in_range = mod-InRange _32 (n + k);
  congruent = omega (arith, +ℤ_parts (pos n) (pos k));
}
add_unsigned _64 n k = record {
  in_range = mod-InRange _64 (n + k);
  congruent = omega (arith, +ℤ_parts (pos n) (pos k));
}

sub_unsigned :
    (w : Width) (n k : ℕ)
    → k < modulus w
    → IsWrapped unsigned_v w (pos n -ℤ pos k) (pos ((n + modulus w - k) % modulus w))
sub_unsigned _8 n k h = record {
  in_range = mod-InRange _8 (n + modulus _8 - k);
  congruent = omega (arith, -ℤ_parts (pos n) (pos k));
}
sub_unsigned _16 n k h = record {
  in_range = mod-InRange _16 (n + modulus _16 - k);
  congruent = omega (arith, -ℤ_parts (pos n) (pos k));
}
sub_unsigned _32 n k h = record {
  in_range = mod-InRange _32 (n + modulus _32 - k);
  congruent = omega (arith, -ℤ_parts (pos n) (pos k));
}
sub_unsigned _64 n k h = record {
  in_range = mod-InRange _64 (n + modulus _64 - k);
  congruent = omega (arith, -ℤ_parts (pos n) (pos k));
}

-- The conversion of a value that fits.
module _ (c : Conversion) (w : Width) (a : ℤ) where
  pub signed_word-fits : InRange signed_v w a → signed_word c w a ≡ bit_cast_unsigned w a
  signed_word-fits h = rw (c.to_signed-fits w a h)

  pub unsigned_word-fits : InRange unsigned_v w a → c.to_unsigned w a ≡ pos_part a
  unsigned_word-fits h =
      let e = unsigned_value w a h in
      ap (c.to_unsigned w) e.0 ∙ c.to_unsigned-fits w (pos_part a) e.1

pub word_lt : (w : Width) (n : ℕ) → n % modulus w < modulus w
word_lt _8 n = omega arith
word_lt _16 n = omega arith
word_lt _32 n = omega arith
word_lt _64 n = omega arith

-- On values that fit, addition returns the value that fits and is congruent to the sum modulo 2 ^ w,
-- for both signs and all widths.
pub cpp_int_add-IsWrapped :
    (c : Conversion) (s : Sign) (w : Width) (a b : ℤ)
    → InRange s w a
    → InRange s w b
    → IsWrapped s w (a +ℤ b) (cpp_int_add c s w a b)
unfolding cpp_int_add add_word
cpp_int_add-IsWrapped c signed_v w a b h k =
    let x = bit_cast_unsigned w a in
    let y = bit_cast_unsigned w b in
    let v = signed_value w ((x + y) % modulus w) (word_lt w (x + y)) in
    rw (signed_word-fits c w a h, signed_word-fits c w b k)
      (record {
        in_range = v.0;
        congruent =
            add_congruent w x y a b (bit_cast_signed w ((x + y) % modulus w))
              (signed_pattern w a h).1 (signed_pattern w b k).1 v.1;
      })
cpp_int_add-IsWrapped c unsigned_v w a b h k =
    rw (unsigned_word-fits c w a h, unsigned_word-fits c w b k)
      (subst₂ (λ p q. IsWrapped unsigned_v w (p +ℤ q) (pos ((pos_part a + pos_part b) % modulus w)))
        (sym (unsigned_value w a h).0) (sym (unsigned_value w b k).0)
        (add_unsigned w (pos_part a) (pos_part b)))

-- On values that fit, subtraction returns the value that fits and is congruent to the difference
-- modulo 2 ^ w, for both signs and all widths.
pub cpp_int_sub-IsWrapped :
    (c : Conversion) (s : Sign) (w : Width) (a b : ℤ)
    → InRange s w a
    → InRange s w b
    → IsWrapped s w (a -ℤ b) (cpp_int_sub c s w a b)
unfolding cpp_int_sub sub_word
cpp_int_sub-IsWrapped c signed_v w a b h k =
    let x = bit_cast_unsigned w a in
    let y = bit_cast_unsigned w b in
    let n = (x + modulus w - y) in
    let v = signed_value w (n % modulus w) (word_lt w n) in
    rw (signed_word-fits c w a h, signed_word-fits c w b k)
      (record {
        in_range = v.0;
        congruent =
            sub_congruent w x y a b (bit_cast_signed w (n % modulus w)) (signed_pattern w b k).0
              (signed_pattern w a h).1 (signed_pattern w b k).1 v.1;
      })
cpp_int_sub-IsWrapped c unsigned_v w a b h k =
    rw (unsigned_word-fits c w a h, unsigned_word-fits c w b k)
      (subst₂
        (λ p q.
          IsWrapped unsigned_v w (p -ℤ q) (pos ((pos_part a + modulus w - pos_part b) % modulus w)))
        (sym (unsigned_value w a h).0) (sym (unsigned_value w b k).0)
        (sub_unsigned w (pos_part a) (pos_part b) (unsigned_value w b k).1))
