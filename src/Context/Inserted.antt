-- ===== src/Context/Inserted.antt =====
-- Keys that `try_emplace` of scope_map.hpp finds, and keys that it does not.
use depc.Prelude.{ℕ, ◌≡◌, refl, ◌∙◌, true, false, Option, none, some, inl, inr, arith}
use depc.Ast.{Var}
use depc.ScopeMap.{Heap, find, emplace, try_emplace}
use depc.ScopeMap.Stable.{IsHeap, b_state, after_states, state_cases}
use depc.Context.Valid.{is_some, next-try_emplace}

pub none_of_is_some : {A : Type 0} (o : Option A) → is_some o ≡ false → o ≡ none
unfolding is_some
none_of_is_some none e = refl
none_of_is_some (some x) e = absurd (ground (arith, e))

pub some_of_is_some : {A : Type 0} (o : Option A) → is_some o ≡ true → (x : A) × (o ≡ some x)
unfolding is_some
some_of_is_some none e = absurd (ground (arith, e))
some_of_is_some (some x) e = (x, refl)

module _ {V : Type 0} (h : Heap V) (H : IsHeap h) (a : ℕ) (k : Var) (v : V) where
  pub inserted-absent : find k (h.states a).index ≡ none → (try_emplace a k v h).0.1 ≡ true
  unfolding try_emplace emplace
  inserted-absent e = rw e refl

  pub inserted-present :
      (i : ℕ) → find k (h.states a).index ≡ some i → (try_emplace a k v h).0.1 ≡ false
  unfolding try_emplace emplace
  inserted-present i e = rw e refl

  emplace_same :
      (i : ℕ)
      → find k (h.states a).index ≡ some i
      → (emplace (find k (h.states a).index) k v (h.states a)).1 ≡ h.states a
  unfolding emplace
  emplace_same i e = rw e refl

  -- Inserting a key that is there changes nothing.
  pub try_emplace-present :
      (i : ℕ) → find k (h.states a).index ≡ some i → (try_emplace a k v h).1 ≡ h
  try_emplace-present i e =
      λ j. record { states = λ b. same_state b j; next = next-try_emplace h a k v j }
    where
      same_state : (b : ℕ) → (try_emplace a k v h).1.states b ≡ h.states b
      same_state b = elim (state_cases h H a k v b) [
        | inl d ↦ rw d (b_state h H a k v ∙ emplace_same i e)
        | inr d ↦ after_states h H a k v b d
      ]
