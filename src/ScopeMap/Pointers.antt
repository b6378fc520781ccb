-- ===== src/ScopeMap/Pointers.antt =====
-- What an insertion into a scope of scope_map.hpp leaves at each position of each scope.
use depc.Prelude.{ℕ, zero, suc, ◌≡◌, Option, none, some, List, [], ◌∷◌, ◌++◌, get_elem?, inl, inr}
use depc.Ast.{Var}
use depc.ScopeMap.{Heap, emplace, try_emplace, element}
use depc.ScopeMap.Stable.{IsHeap, state_cases, b_state, after_states}

get_elem?-append :
    {A : Type 0} (xs ys : List A) (i : ℕ) (x : A)
    → get_elem? xs i ≡ some x
    → get_elem? (xs ++ ys) i ≡ some x
get_elem?-append [] ys i x e = cc
get_elem?-append (y ∷ xs) ys zero x e = e
get_elem?-append (y ∷ xs) ys (suc i) x e = get_elem?-append xs ys i x e

module _ {V : Type 0} (h : Heap V) (H : IsHeap h) where
  element-emplace :
      (b i : ℕ) (k : Var) (v : V) (o : Option ℕ) (x : Var × V)
      → get_elem? (h.states b).entries i ≡ some x
      → get_elem? (emplace o k v (h.states b)).1.entries i ≡ some x
  unfolding emplace
  element-emplace b i k v (some n) x e = e
  element-emplace b i k v none x e = get_elem?-append (h.states b).entries _ i x e

  element_kept :
      (b a i : ℕ) (k : Var) (v : V) (x : Var × V)
      → get_elem? (h.states a).entries i ≡ some x
      → get_elem? ((try_emplace b k v h).1.states a).entries i ≡ some x
  element_kept b a i k v x e = elim (state_cases h H b k v a) [
    | inl d ↦ rw d (rw (b_state h H b k v) (element-emplace b i k v _ x (rw d at e)))
    | inr n ↦ rw (after_states h H b k v a n) e
  ]

-- Inserting into any scope leaves every element at its position, with its key and its value.
pub element-try_emplace :
    {V : Type 0} (h : Heap V)
    → IsHeap h
    → (b : ℕ) (k : Var) (v : V) (p : ℕ × ℕ) (x : Var × V) → element h p ≡ some x
    → element (try_emplace b k v h).1 p ≡ some x
unfolding element
element-try_emplace h H b k v p x e = element_kept h H b p.0 p.1 k v x e
