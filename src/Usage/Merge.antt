-- ===== src/Usage/Merge.antt =====
-- `usage_t::merge` and `usage_t::extend` of dep0/lib/03_typecheck/src/usage.cpp.
use depc.Prelude.{ℕ, zero, suc, ◌<◌, ◌≡◌, refl, ap, ◌∙◌, List, [], ◌∷◌, arith}
use depc.Qty.{Qty}
use depc.Ast.{Var}
use depc.ScopeMap.{
  Heap, State, new, extend, try_emplace, element, find, within, in_parent, search_from, lookup,
  max_size,
}
use depc.ScopeMap.Stable.{IsHeap}
use depc.Usage.{quantity_at, usage_of, value_or_zero, assign_unless}
use depc.Usage.Frame.{IsFrame, IsFrame-refl, IsFrame-trans, IsFrame-emplace, IsFrame-assign}
use depc.Usage.Rollback.{quantity-within, quantity-in_parent}

-- How the quantities of a variable that both have are put together.
abbrev pub Merge : Type 0
Merge = Var → Qty → Qty → Qty

-- The loop over the entries of the first object.
unfoldable pub merge_first : List (Var × Qty) → ℕ → Heap Qty → Heap Qty
unfolding try_emplace
merge_first [] u h = h
merge_first (x ∷ xs) u h = merge_first xs u (try_emplace u x.0 x.1 h).1

-- `if (... not inserted) it->second = f(it->first, it->second, qty)`
unfoldable pub merge_entry : Merge → Var × Qty → ℕ → Heap Qty → Heap Qty
unfolding try_emplace element value_or_zero assign_unless
merge_entry f x u h =
    let r = try_emplace u x.0 x.1 h in
    assign_unless r.0.1 u r.0.0 (f x.0 (value_or_zero (element r.1 (u, r.0.0))) x.1) r.1

-- The loop over the entries of the second object.
unfoldable pub merge_second : Merge → List (Var × Qty) → ℕ → Heap Qty → Heap Qty
unfolding merge_entry
merge_second f [] u h = h
merge_second f (x ∷ xs) u h = merge_second f xs u (merge_entry f x u h)

-- The new object, and the heap with it.
unfoldable pub merge : ℕ → ℕ → Merge → Heap Qty → ℕ × Heap Qty
unfolding new merge_first merge_second
merge a b f h =
    let r = new h in
    let g = merge_first (r.1.states a).entries r.0 r.1 in
    (r.0, merge_second f (g.states b).entries r.0 g)

unfoldable pub extend_usage : ℕ → Heap Qty → ℕ × Heap Qty
unfolding extend
extend_usage u h = extend u h

module _ (u : ℕ) where
  merge_first-IsFrame : (xs : List (Var × Qty)) (h : Heap Qty) → IsFrame u h (merge_first xs u h)
  unfolding merge_first
  merge_first-IsFrame [] h = IsFrame-refl u h
  merge_first-IsFrame (x ∷ xs) h =
      IsFrame-trans u h _ _ (IsFrame-emplace u h x.0 x.1) (merge_first-IsFrame xs _)

  merge_entry-IsFrame :
      (f : Merge) (x : Var × Qty) (h : Heap Qty) → IsFrame u h (merge_entry f x u h)
  unfolding merge_entry
  merge_entry-IsFrame f x h =
      IsFrame-trans u h _ _ (IsFrame-emplace u h x.0 x.1) (IsFrame-assign u _ _ _ _)

  merge_second-IsFrame :
      (f : Merge) (xs : List (Var × Qty)) (h : Heap Qty) → IsFrame u h (merge_second f xs u h)
  unfolding merge_second
  merge_second-IsFrame f [] h = IsFrame-refl u h
  merge_second-IsFrame f (x ∷ xs) h =
      IsFrame-trans u h _ _ (merge_entry-IsFrame f x h) (merge_second-IsFrame f xs _)

  new-IsFrame : (h : Heap Qty) → IsFrame u h (new h).1
  unfolding new
  new-IsFrame h = record { grows = omega arith; same = λ a l n. ground arith }

-- Two heaps that agree on the states of the older one.
module _ (h g : Heap Qty) (H : IsHeap h)
    (same : (a : ℕ) → a < h.next → g.states a ≡ h.states a) where
  quantity_same :
      (n : ℕ) (v : Var) (a limit : ℕ)
      → a < h.next
      → quantity_at g (search_from n g v a limit) ≡ quantity_at h (search_from n h v a limit)
  unfolding search_from quantity_at
  quantity_same zero v a limit k = refl
  quantity_same (suc n) v a limit k =
      let s = h.states a in
      let above =
        quantity-in_parent h g s.parent (λ p. search_from n g v p s.max_parent_index)
          (λ p. search_from n h v p s.max_parent_index)
          (λ p e. quantity_same n v p s.max_parent_index (omega (arith, H.parent_older a p k e))) in
      ap
        (λ (t : State Qty). quantity_at g (
          within (find v t.index) a limit
            (in_parent t.parent (λ p. search_from n g v p t.max_parent_index))))
        (same a k)
      ∙ quantity-within h g (find v s.index) a a limit _ _ (same a k) above

-- On a heap of scopes that is well formed, merging two usage objects makes a new object. What any object that existed before says of any variable,
-- the two merged ones included, is as it was.
pub merge-keeps :
    (h : Heap Qty)
    → IsHeap h
    → (a b : ℕ) (f : Merge) (u : ℕ) → u < h.next
    → (v : Var) → ((merge a b f h).0 ≡ h.next) × (usage_of (merge a b f h).1 u v ≡ usage_of h u v)
unfolding merge usage_of lookup
merge-keeps h H a b f u l v =
    let r = new h in
    let g = merge_first (r.1.states a).entries r.0 r.1 in
    let F : IsFrame h.next h (merge a b f h).1 =
      IsFrame-trans h.next h r.1 _ (new-IsFrame h.next h) (
        IsFrame-trans h.next r.1 g _ (merge_first-IsFrame h.next (r.1.states a).entries r.1)
          (merge_second-IsFrame h.next f (g.states b).entries g)) in
    (
      refl,
      quantity_same h (merge a b f h).1 H (λ c k. F.same c k (λ e. omega (arith, e))) (suc u) v u
          max_size l,
    )
