-- ===== src/ScopeMap/Invariant.antt =====
-- The shape of a heap of scopes, through the operations of scope_map.hpp.
use depc.Prelude.{
  ℕ, suc, ◌≤◌, ◌<◌, ◌≡◌, ◌⊎◌, sym, ap, ◌∙◌, Option, none, some, ◌==◌, [], ◌∷◌, length,
  length-append, Bool-cases, inl, inr, arith,
}
use depc.Ast.{Var, var_eq}
use depc.ScopeMap.{
  State, Heap, find, root_state, allocate, new, extend, innermost_copy, emplace, try_emplace,
}
use depc.ScopeMap.Stable.{IsHeap, state_cases, b_state, links, limits, after_states}

module _ {V : Type 0} (h : Heap V) (H : IsHeap h) where
  -- A state that may be added to the heap.
  record IsNew (s : State V) : Type 0 where
    older : (p : ℕ) → s.parent ≡ some p → p < h.next
    limit : (p : ℕ) → s.parent ≡ some p → s.max_parent_index ≤ length (h.states p).entries
    position : (k : Var) (i : ℕ) → find k s.index ≡ some i → i < length s.entries

  allocated : (s : State V) (a : ℕ) → a < h.next → (allocate s h).1.states a ≡ h.states a
  unfolding allocate
  allocated s a l = ground arith

  allocated_new : (s : State V) → (allocate s h).1.states h.next ≡ s
  unfolding allocate
  allocated_new s = ground arith

  address_cases : (a : ℕ) → a < suc h.next → (a < h.next) ⊎ (a ≡ h.next)
  address_cases a l = elim (Bool-cases (a == h.next)) [
    | inl e ↦ inr (ground arith)
    | inr e ↦ inl (ground arith)
  ]

  parent_of_allocated :
      (s : State V)
      → IsNew s
      → (a p : ℕ) → a < suc h.next
      → ((allocate s h).1.states a).parent ≡ some p
      → (p < a)
        × (((allocate s h).1.states a).max_parent_index
            ≤ length ((allocate s h).1.states p).entries)
  parent_of_allocated s N a p l e = elim (address_cases a l) [
    | inl m ↦
        let q = sym (ap (λ (x : State V). x.parent) (allocated s a m)) ∙ e in
        let o = H.parent_older a p m q in
        (o, rw (allocated s a m, allocated s p (omega (arith, o))) (H.limit_le a p m q))
    | inr d ↦
        let t = ap (allocate s h).1.states d ∙ allocated_new s in
        let q = sym (ap (λ (x : State V). x.parent) t) ∙ e in
        let o = N.older p q in (omega (arith, o), rw (t, allocated s p o) (N.limit p q))
  ]

  position_of_allocated :
      (s : State V)
      → IsNew s
      → (a : ℕ) (k : Var) (i : ℕ) → a < suc h.next
      → find k ((allocate s h).1.states a).index ≡ some i
      → i < length ((allocate s h).1.states a).entries
  position_of_allocated s N a k i l e = elim (address_cases a l) [
    | inl m ↦
        let q = sym (ap (λ (x : State V). find k x.index) (allocated s a m)) ∙ e in
        rw (allocated s a m) (H.position_lt a k i m q)
    | inr d ↦
        let t = ap (allocate s h).1.states d ∙ allocated_new s in
        let q = sym (ap (λ (x : State V). find k x.index) t) ∙ e in rw t (N.position k i q)
  ]

  IsHeap-allocate : (s : State V) → IsNew s → IsHeap (allocate s h).1
  unfolding allocate
  IsHeap-allocate s N = record {
    parent_older = λ a p l e. (parent_of_allocated s N a p l e).0;
    limit_le = λ a p l e. (parent_of_allocated s N a p l e).1;
    position_lt = λ a k i l e. position_of_allocated s N a k i l e;
  }

  root_state-IsNew : IsNew root_state
  unfolding find
  root_state-IsNew = record { older = λ p e. cc; limit = λ p e. cc; position = λ k i e. cc }

  extended-limit :
      (a p : ℕ) → some a ≡ some p → length (h.states a).entries ≤ length (h.states p).entries
  extended-limit a p e = ground arith

  extended-IsNew :
      (a : ℕ)
      → a < h.next
      → IsNew (record {
        parent = some a;
        max_parent_index = length (h.states a).entries;
        entries = [];
        index = [];
      })
  unfolding find
  extended-IsNew a l = record {
    older = λ p e. ground arith;
    limit = λ p e. extended-limit a p e;
    position = λ k i e. cc;
  }

  copied-IsNew : (a : ℕ) → a < h.next → IsNew (h.states a)
  copied-IsNew a l = record {
    older = λ p e. omega (arith, H.parent_older a p l e);
    limit = λ p e. H.limit_le a p l e;
    position = λ k i e. H.position_lt a k i l e;
  }

  length-emplace :
      (b : ℕ) (k : Var) (v : V) (o : Option ℕ)
      → length (h.states b).entries ≤ length (emplace o k v (h.states b)).1.entries
  unfolding emplace
  length-emplace b k v (some i) = omega arith
  length-emplace b k v none = omega (arith, length-append (h.states b).entries ((k, v) ∷ []))

  emplaced_position :
      (b : ℕ) (k : Var) (v : V) (o : Option ℕ) (u : Var) (i : ℕ)
      → b < h.next
      → find u (emplace o k v (h.states b)).1.index ≡ some i
      → i < length (emplace o k v (h.states b)).1.entries
  unfolding emplace find
  emplaced_position b k v (some n) u i l e = H.position_lt b u i l e
  emplaced_position b k v none u i l e = elim (Bool-cases (var_eq u k)) [
    | inl d ↦ ground (arith, length-append (h.states b).entries ((k, v) ∷ []))
    | inr d ↦
        ground (arith, length-append (h.states b).entries ((k, v) ∷ []), H.position_lt b u i l)
  ]

  -- Insertion makes no state shorter, and the position it adds is the last one.
  entries_grow :
      (b : ℕ) (k : Var) (v : V) (a : ℕ)
      → length (h.states a).entries ≤ length ((try_emplace b k v h).1.states a).entries
  entries_grow b k v a = elim (state_cases h H b k v a) [
    | inl e ↦ rw e (rw (b_state h H b k v) (length-emplace b k v (find k (h.states b).index)))
    | inr n ↦ rw (after_states h H b k v a n) (omega arith)
  ]

  position_of_emplaced :
      (b : ℕ) (k : Var) (v : V) (a : ℕ) (u : Var) (i : ℕ)
      → a < h.next
      → find u ((try_emplace b k v h).1.states a).index ≡ some i
      → i < length ((try_emplace b k v h).1.states a).entries
  position_of_emplaced b k v a u i l e = elim (state_cases h H b k v a) [
    | inl d ↦
        let t = ap (try_emplace b k v h).1.states d ∙ b_state h H b k v in
        rw t (emplaced_position b k v _ u i (rw d at l) (rw t at e))
    | inr n ↦
        rw (after_states h H b k v a n)
          (H.position_lt a u i l (rw (after_states h H b k v a n) at e))
  ]

  IsHeap-try_emplace : (b : ℕ) (k : Var) (v : V) → b < h.next → IsHeap (try_emplace b k v h).1
  unfolding try_emplace
  IsHeap-try_emplace b k v l = record {
    parent_older = λ a p m e. H.parent_older a p m (rw (links h H b k v a) at e);
    limit_le = λ a p m e.
        rw (limits h H b k v a)
          (omega (arith, H.limit_le a p m (rw (links h H b k v a) at e), entries_grow b k v p));
    position_lt = λ a u i m e. position_of_emplaced b k v a u i m e;
  }

-- A new scope.
pub IsHeap-new : {V : Type 0} (h : Heap V) → IsHeap h → IsHeap (new h).1
unfolding new
IsHeap-new h H = IsHeap-allocate h H root_state (root_state-IsNew h H)

-- A scope that inherits from another.
pub IsHeap-extend :
    {V : Type 0} (h : Heap V) → IsHeap h → (a : ℕ) → a < h.next → IsHeap (extend a h).1
unfolding extend
IsHeap-extend h H a l = IsHeap-allocate h H _ (extended-IsNew h H a l)

-- A new scope, and extending, copying and inserting into a scope that exists, keep a heap well formed.
-- So the parents of a scope are older than it, it
-- looks at no more of its parent than there is, and every indexed position is one of an entry.
pub IsHeap-operations :
    {V : Type 0} (h : Heap V)
    → IsHeap h
    → (a : ℕ) → a < h.next
    → (k : Var) (v : V)
    → IsHeap (new h).1
      × IsHeap (extend a h).1
      × IsHeap (innermost_copy a h).1
      × IsHeap (try_emplace a k v h).1
unfolding extend innermost_copy
IsHeap-operations h H a l k v = (
  IsHeap-new h H,
  IsHeap-allocate h H _ (extended-IsNew h H a l),
  IsHeap-allocate h H _ (copied-IsNew h H a l),
  IsHeap-try_emplace h H a k v l,
)
