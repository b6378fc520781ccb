-- ===== src/VectorSplice.antt =====
-- dep0/lib/00_core/include/dep0/vector_splice.hpp: put elements in the place of one element of a vector.
-- An iterator is a position; the end iterator is the length.
use depc.Prelude.{
  ℕ, zero, suc, ◌≡◌, refl, sym, ap, true, false, List, [], ◌∷◌, ◌++◌, length, ◌==◌, if◌then◌else◌,
  arith,
}

end_eq : (n : ℕ) → (n == n) ≡ true
end_eq n = ground arith

module _ {A : Type 0} where
  -- `v.erase(pos)`
  unfoldable pub erase : List A → ℕ → List A
  erase [] i = []
  erase (x ∷ xs) zero = xs
  erase (x ∷ xs) (suc i) = x ∷ erase xs i

  -- `v.insert(pos, first, last)`
  unfoldable pub insert : List A → ℕ → List A → List A
  insert xs zero ys = ys ++ xs
  insert [] (suc i) ys = []
  insert (x ∷ xs) (suc i) ys = x ∷ insert xs i ys

  -- `*pos = x`
  unfoldable pub put : List A → ℕ → A → List A
  put [] i y = []
  put (x ∷ xs) zero y = y ∷ xs
  put (x ∷ xs) (suc i) y = x ∷ put xs i y

  -- The iterator that is returned, and the vector afterwards.
  unfoldable pub vector_splice : List A → ℕ → List A → ℕ × List A
  unfolding erase insert put
  vector_splice v pos [] = if pos == length v then (pos, v) else (pos, erase v pos)
  vector_splice v pos (x ∷ xs) =
      if pos == length v
      then (pos, insert v pos (x ∷ xs))
      else (pos, insert (put v pos x) (suc pos) xs)

  append_nil : (xs : List A) → xs ++ [] ≡ xs
  append_nil [] = refl
  append_nil (x ∷ xs) = ap (λ t. x ∷ t) (append_nil xs)

  erase-middle : (xs : List A) (y : A) (zs : List A) → erase (xs ++ (y ∷ zs)) (length xs) ≡ xs ++ zs
  unfolding erase
  erase-middle [] y zs = refl
  erase-middle (x ∷ xs) y zs = ap (λ t. x ∷ t) (erase-middle xs y zs)

  insert-end : (xs ys : List A) → insert xs (length xs) ys ≡ xs ++ ys
  unfolding insert
  insert-end [] ys = append_nil ys
  insert-end (x ∷ xs) ys = ap (λ t. x ∷ t) (insert-end xs ys)

  insert-middle :
      (xs : List A) (y a : A) (zs ys : List A)
      → insert (put (xs ++ (y ∷ zs)) (length xs) a) (suc (length xs)) ys ≡ xs ++ (a ∷ (ys ++ zs))
  unfolding insert put
  insert-middle [] y a zs ys = refl
  insert-middle (x ∷ xs) y a zs ys = ap (λ t. x ∷ t) (insert-middle xs y a zs ys)

  middle_eq : (xs : List A) (y : A) (zs : List A) → (length xs == length (xs ++ (y ∷ zs))) ≡ false
  middle_eq [] y zs = ground arith
  middle_eq (x ∷ xs) y zs = ground (arith, middle_eq xs y zs)

  -- At the end the elements are appended; elsewhere they take the place of the element at the position,
  -- which goes, also when there are none. The iterator that is returned is at the same position, where the
  -- new elements begin.
  pub vector_splice-replaces :
      (xs : List A) (y : A) (zs es : List A)
      → (vector_splice xs (length xs) es ≡ (length xs, xs ++ es))
        × (vector_splice (xs ++ (y ∷ zs)) (length xs) es ≡ (length xs, xs ++ (es ++ zs)))
  unfolding vector_splice
  vector_splice-replaces xs y zs [] = (
    rw (end_eq (length xs)) (ap (λ t. (length xs, t)) (sym (append_nil xs))),
    rw (middle_eq xs y zs) (ap (λ t. (length xs, t)) (erase-middle xs y zs)),
  )
  vector_splice-replaces xs y zs (e ∷ es) = (
    rw (end_eq (length xs)) (ap (λ t. (length xs, t)) (insert-end xs (e ∷ es))),
    rw (middle_eq xs y zs) (ap (λ t. (length xs, t)) (insert-middle xs y e zs es)),
  )
