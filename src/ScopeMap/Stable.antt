-- ===== src/ScopeMap/Stable.antt =====
-- Lookups in a scope while other scopes of scope_map.hpp grow.
use depc.Prelude.{
  ℕ, zero, suc, ◌≤◌, ◌<◌, ◌≡◌, ◌≢◌, ◌⊎◌, refl, ap, ◌∙◌, Option, none, some, ◌==◌, length,
  Bool-cases, inl, inr, arith,
}
use mathlib.Core.Path.{subst}
use depc.Ast.{Var}
use depc.Ast.Vars.{var_eq→eq}
use depc.ScopeMap.{
  max_size, State, Heap, find, emplace, try_emplace, within, in_parent, search_from, lookup,
}

-- Every state is younger than its parent and looks at no more of it than there is, and every position
-- in an index is one of an entry.
pub record IsHeap {V : Type 0} (h : Heap V) : Type 0 where
  pub parent_older : (a p : ℕ) → a < h.next → (h.states a).parent ≡ some p → p < a
  pub limit_le :
      (a p : ℕ)
      → a < h.next
      → (h.states a).parent ≡ some p
      → (h.states a).max_parent_index ≤ length (h.states p).entries
  pub position_lt :
      (a : ℕ) (k : Var) (i : ℕ)
      → a < h.next
      → find k (h.states a).index ≡ some i
      → i < length (h.states a).entries

pub in_parent_same :
    (o : Option ℕ) (f g : ℕ → Option (ℕ × ℕ))
    → ((p : ℕ) → o ≡ some p → f p ≡ g p)
    → in_parent o f ≡ in_parent o g
unfolding in_parent
in_parent_same none f g e = refl
in_parent_same (some p) f g e = e p refl

module _ {V : Type 0} (h : Heap V) (H : IsHeap h) (b : ℕ) (k : Var) (v : V) where
  pub after_states : (a : ℕ) → a ≢ b → (try_emplace b k v h).1.states a ≡ h.states a
  unfolding try_emplace
  after_states a n = ground arith

  -- The state that grows keeps its parent and limit, and only gets a position at its end.
  within-emplace :
      (o : Option ℕ) (u : Var) (limit : ℕ) (above : Option (ℕ × ℕ))
      → find k (h.states b).index ≡ o
      → limit ≤ length (h.states b).entries
      → within (find u (emplace o k v (h.states b)).1.index) b limit above
        ≡ within (find u (h.states b).index) b limit above
  unfolding emplace find within
  within-emplace (some i) u limit above e l = refl
  within-emplace none u limit above e l = ground (arith, var_eq→eq u k)

  pub state_cases : (a : ℕ) → (a ≡ b) ⊎ (a ≢ b)
  state_cases a = elim (Bool-cases (a == b)) [
    | inl e ↦ inl (ground arith)
    | inr e ↦ inr (λ d. ground arith)
  ]

  pub b_state :
      (try_emplace b k v h).1.states b ≡ (emplace (find k (h.states b).index) k v (h.states b)).1
  unfolding try_emplace
  b_state = ground arith

  pub emplace-links :
      (o : Option ℕ)
      → ((emplace o k v (h.states b)).1.parent ≡ (h.states b).parent)
        × ((emplace o k v (h.states b)).1.max_parent_index ≡ (h.states b).max_parent_index)
  unfolding emplace
  emplace-links none = (refl, refl)
  emplace-links (some i) = (refl, refl)

  pub links : (a : ℕ) → ((try_emplace b k v h).1.states a).parent ≡ (h.states a).parent
  links a = elim (state_cases a) [
    | inl e ↦ rw e (rw b_state (emplace-links _).0)
    | inr n ↦ ap (λ (s : State V). s.parent) (after_states a n)
  ]

  pub limits :
      (a : ℕ) → ((try_emplace b k v h).1.states a).max_parent_index ≡ (h.states a).max_parent_index
  limits a = elim (state_cases a) [
    | inl e ↦ rw e (rw b_state (emplace-links _).1)
    | inr n ↦ ap (λ (s : State V). s.max_parent_index) (after_states a n)
  ]

  within_same :
      (u : Var) (a limit : ℕ) (above : Option (ℕ × ℕ))
      → (a ≡ b → limit ≤ length (h.states b).entries)
      → within (find u ((try_emplace b k v h).1.states a).index) a limit above
        ≡ within (find u (h.states a).index) a limit above
  within_same u a limit above l = elim (state_cases a) [
    | inl e ↦ rw e (rw b_state (within-emplace _ u limit above refl (l e)))
    | inr n ↦ ap (λ (s : State V). within (find u s.index) a limit above) (after_states a n)
  ]

  pub search_same :
      (n : ℕ) (u : Var) (a limit : ℕ)
      → a < h.next
      → (a ≡ b → limit ≤ length (h.states b).entries)
      → search_from n (try_emplace b k v h).1 u a limit ≡ search_from n h u a limit
  unfolding search_from
  search_same zero u a limit m l = refl
  search_same (suc n) u a limit m l =
      within_same u a limit _ l
      ∙ ap (within (find u (h.states a).index) a limit) (
          rw (links a, limits a)
            (in_parent_same (h.states a).parent _ _ (λ p e.
              search_same n u p (h.states a).max_parent_index
                (omega (arith, H.parent_older a p m e))
                (λ d.
                  subst (λ x. (h.states a).max_parent_index ≤ length (h.states x).entries) d
                    (H.limit_le a p m e)))))

-- On a heap that is well formed, inserting into one scope changes no lookup from another that exists: a
-- scope sees its parents as they were when it was made.
pub lookup-try_emplace_other :
    {V : Type 0} (h : Heap V)
    → IsHeap h
    → (a b : ℕ) → a < h.next
    → a ≢ b
    → (k u : Var) (v : V) → lookup (try_emplace b k v h).1 a u ≡ lookup h a u
unfolding lookup
lookup-try_emplace_other h H a b m n k u v =
    search_same h H b k v (suc a) u a max_size m (λ e. absurd (n e))
