-- ===== src/CppInt/Mult.antt =====
-- cpp_int_mult.cpp against the product of the integers, with the promotion of 16-bit operands to `int`.
use mathlib.Core.Path.{subst₂}
use depc.Prelude.{ℕ, ◌+◌, ◌*◌, ◌%◌, ◌^◌, ◌<◌, ◌≡◌, refl, sym, ap, some, arith}
use depc.Prelude.Int.{ℤ, pos, negsuc, pos_part, neg_part, ◌*ℤ◌}
use depc.CppInt.{
  Sign, signed_v, unsigned_v, Width, _8, _16, _32, _64, modulus, cpp_int_min, cpp_int_max, InRange,
  Conversion, bit_cast_unsigned, bit_cast_signed, mult_word, map_option, cpp_int_mult,
}
use depc.CppInt.Wrap.{
  IsWrapped, signed_value, unsigned_value, mod-InRange, word_lt, signed_word-fits,
  unsigned_word-fits,
}

*ℤ_parts :
    (a b : ℤ)
    → pos_part (a *ℤ b) + (pos_part a * neg_part b + neg_part a * pos_part b)
      ≡ neg_part (a *ℤ b) + (pos_part a * pos_part b + neg_part a * neg_part b)
unfolding ◌*ℤ◌
*ℤ_parts a b = ground arith

-- How many times 2 ^ w was added to make the pattern.
wraps : ℤ → ℕ
wraps (pos _) = 0
wraps (negsuc _) = 1

pattern_wraps :
    (w : Width) (a : ℤ)
    → InRange signed_v w a
    → bit_cast_unsigned w a + neg_part a ≡ pos_part a + wraps a * modulus w
unfolding bit_cast_unsigned cpp_int_min cpp_int_max wraps
pattern_wraps _8 (pos n) h = omega arith
pattern_wraps _16 (pos n) h = omega arith
pattern_wraps _32 (pos n) h = omega arith
pattern_wraps _64 (pos n) h = omega arith
pattern_wraps _8 (negsuc n) h = omega arith
pattern_wraps _16 (negsuc n) h = omega arith
pattern_wraps _32 (negsuc n) h = omega arith
pattern_wraps _64 (negsuc n) h = omega arith

-- The product of two patterns, with the multiples of the modulus `m` set apart.
product_of_patterns :
    (m x y p q u v i j : ℕ)
    → x + u ≡ p + i * m
    → y + v ≡ q + j * m
    → x * y + (p * v + u * q) + m * (i * v) ≡ p * q + u * v + m * (i * q + x * j)
product_of_patterns m x y p q u v i j e f =
    omega (arith, ap (λ t. x * t) f, ap (λ t. t * q) e, ap (λ t. t * v) e)

module _ (a b r : ℤ) (x y u v : ℕ) where
  mult_congruent :
      (w : Width)
      → x * y + (pos_part a * neg_part b + neg_part a * pos_part b) + modulus w * u
        ≡ pos_part a * pos_part b + neg_part a * neg_part b + modulus w * v
      → ((x * y) % modulus w + neg_part r) % modulus w ≡ pos_part r % modulus w
      → (pos_part r + neg_part (a *ℤ b)) % modulus w ≡ (pos_part (a *ℤ b) + neg_part r) % modulus w
  mult_congruent _8 e f = omega (arith, *ℤ_parts a b)
  mult_congruent _16 e f = omega (arith, *ℤ_parts a b)
  mult_congruent _32 e f = omega (arith, *ℤ_parts a b)
  mult_congruent _64 e f = omega (arith, *ℤ_parts a b)

-- The operands' words, and the products of them that the promoted type holds.
abbrev pub word : Sign → Width → ℤ → ℕ
word signed_v w a = bit_cast_unsigned w a
word unsigned_v w a = pos_part a

abbrev pub IsHeld : Width → ℕ → Type 0
IsHeld _16 n = n < 2 ^ 31
IsHeld w n = n ≡ n

mult_word-IsHeld :
    (w : Width) (x y : ℕ) → IsHeld w (x * y) → mult_word w x y ≡ some ((x * y) % modulus w)
unfolding mult_word
mult_word-IsHeld _8 x y h = refl
mult_word-IsHeld _16 x y h = ground arith
mult_word-IsHeld _32 x y h = refl
mult_word-IsHeld _64 x y h = refl

signed_product :
    (w : Width) (a b : ℤ)
    → InRange signed_v w a
    → InRange signed_v w b
    → IsWrapped signed_v w
        (a *ℤ b)
        (bit_cast_signed w ((bit_cast_unsigned w a * bit_cast_unsigned w b) % modulus w))
signed_product w a b h k =
    let x = bit_cast_unsigned w a in
    let y = bit_cast_unsigned w b in
    let v = signed_value w ((x * y) % modulus w) (word_lt w (x * y)) in
    let e =
      product_of_patterns (modulus w) x y _ _ _ _ _ _ (pattern_wraps w a h) (pattern_wraps w b k) in
    record {
      in_range = v.0;
      congruent = mult_congruent a b (bit_cast_signed w ((x * y) % modulus w)) x y _ _ w e v.1;
    }

unsigned_product :
    (w : Width) (n k : ℕ) → IsWrapped unsigned_v w (pos n *ℤ pos k) (pos ((n * k) % modulus w))
unsigned_product w n k = record {
  in_range = mod-InRange w (n * k);
  congruent =
      mult_congruent (pos n) (pos k) (pos ((n * k) % modulus w)) n k 0 0 w (omega arith) (twice w);
}
  where
    twice : (w : Width) → ((n * k) % modulus w + 0) % modulus w ≡ (n * k) % modulus w % modulus w
    twice _8 = omega arith
    twice _16 = omega arith
    twice _32 = omega arith
    twice _64 = omega arith

-- On values that fit, multiplication is defined at 8, 32 and 64 bits, and at 16 bits where the product
-- of the two words is below 2 ^ 31, and returns the value that fits and is congruent to the product
-- modulo 2 ^ w, for both signs.
pub cpp_int_mult-IsWrapped :
    (c : Conversion) (s : Sign) (w : Width) (a b : ℤ)
    → InRange s w a
    → InRange s w b
    → IsHeld w (word s w a * word s w b)
    → (r : ℤ) × ((cpp_int_mult c s w a b ≡ some r) × IsWrapped s w (a *ℤ b) r)
unfolding cpp_int_mult
cpp_int_mult-IsWrapped c signed_v w a b h k l =
    rw (signed_word-fits c w a h, signed_word-fits c w b k)
      (
        _,
        (ap (map_option (bit_cast_signed w)) (mult_word-IsHeld w _ _ l), signed_product w a b h k),
      )
cpp_int_mult-IsWrapped c unsigned_v w a b h k l =
    rw (unsigned_word-fits c w a h, unsigned_word-fits c w b k)
      (
        _,
        (
          ap (map_option pos) (mult_word-IsHeld w _ _ l),
          subst₂
              (λ p q. IsWrapped unsigned_v w (p *ℤ q) (pos ((pos_part a * pos_part b) % modulus w)))
              (sym (unsigned_value w a h).0) (sym (unsigned_value w b k).0)
              (unsigned_product w (pos_part a) (pos_part b)),
        ),
      )
