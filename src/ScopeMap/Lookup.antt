-- ===== src/ScopeMap/Lookup.antt =====
-- `operator[]` of scope_map.hpp after insertion and in a nested scope.
use depc.Prelude.{
  ℕ, zero, suc, ◌+◌, ◌-◌, ◌≤◌, ◌<◌, ◌≡◌, refl, sym, ap, ◌∙◌, Bool, Option, none, some,
  if◌then◌else◌, [], length, Bool-cases, inl, inr, arith,
}
use native.Mathlib.Nat.{zero-add, suc-add}
use depc.Ast.{Var, var_eq}
use depc.Ast.Vars.{var_eq→eq}
use depc.ScopeMap.{
  max_size, State, Heap, find, extend, emplace, try_emplace, within, in_parent, search_from, lookup,
}
use depc.ScopeMap.Stable.{IsHeap, b_state, links, limits, in_parent_same, search_same}

within_limits :
    (o : Option ℕ) (a l m : ℕ) (above : Option (ℕ × ℕ))
    → ((i : ℕ) → o ≡ some i → i < l)
    → ((i : ℕ) → o ≡ some i → i < m)
    → within o a l above ≡ within o a m above
unfolding within
within_limits none a l m above h k = refl
within_limits (some i) a l m above h k = ground (arith, h i refl, k i refl)

module _ {V : Type 0} (h : Heap V) (H : IsHeap h) where
  -- The loop has gone through all parents when it has gone through as many states as there are before.
  one_more :
      (n : ℕ) (u : Var) (a limit : ℕ)
      → a < n
      → a < h.next
      → search_from (suc n) h u a limit ≡ search_from n h u a limit
  unfolding search_from
  one_more zero u a limit l m = absurd (omega arith)
  one_more (suc n) u a limit l m = ap (within (find u (h.states a).index) a limit) (
      in_parent_same (h.states a).parent _ _ (λ p e.
        let o = H.parent_older a p m e in
        one_more n u p (h.states a).max_parent_index (omega (arith, o)) (omega (arith, o))))

  pub any_more :
      (j n : ℕ) (u : Var) (a limit : ℕ)
      → a < n
      → a < h.next
      → search_from (j + n) h u a limit ≡ search_from n h u a limit
  any_more zero n u a limit l m = rw zero-add refl
  any_more (suc j) n u a limit l m =
      rw suc-add (one_more (j + n) u a limit (omega arith) m ∙ any_more j n u a limit l m)

  -- A limit of at least the number of entries excludes none.
  any_limit :
      (n : ℕ) (u : Var) (a limit : ℕ)
      → a < h.next
      → length (h.states a).entries ≤ limit
      → search_from (suc n) h u a limit ≡ search_from (suc n) h u a (length (h.states a).entries)
  unfolding search_from
  any_limit n u a limit m l =
      within_limits (find u (h.states a).index) a limit (length (h.states a).entries) _
        (λ i e. omega (arith, H.position_lt a u i m e)) (λ i e. H.position_lt a u i m e)

  -- The states that were there before `extend`.
  kept_state : (a b : ℕ) → b < h.next → (extend a h).1.states b ≡ h.states b
  unfolding extend
  kept_state a b l = ground arith

  child_state :
      (a : ℕ)
      → (extend a h).1.states h.next ≡ record {
        parent = some a;
        max_parent_index = length (h.states a).entries;
        entries = [];
        index = [];
      }
  unfolding extend
  child_state a = ground arith

  search_below :
      (a n : ℕ) (u : Var) (b limit : ℕ)
      → b < h.next
      → search_from n (extend a h).1 u b limit ≡ search_from n h u b limit
  unfolding search_from
  search_below a zero u b limit l = refl
  search_below a (suc n) u b limit l = rw (kept_state a b l) (
      ap (within (find u (h.states b).index) b limit) (
        in_parent_same (h.states b).parent _ _ (λ p e.
          search_below a n u p (h.states b).max_parent_index
            (omega (arith, H.parent_older b p l e)))))

  -- The element that `try_emplace` returns, and the others.
  within-emplaced :
      (a : ℕ) (k u : Var) (v : V) (above : Option (ℕ × ℕ)) (o : Option ℕ)
      → a < h.next
      → length (h.states a).entries < max_size
      → find k (h.states a).index ≡ o
      → within (find u (emplace o k v (h.states a)).1.index) a max_size above ≡ (
          if var_eq u k
          then some (a, (emplace o k v (h.states a)).0.0)
          else within (find u (h.states a).index) a max_size above)
  unfolding emplace find within
  within-emplaced a k u v above (some i) m l e = elim (Bool-cases (var_eq u k)) [
    | inl d ↦ rw d (ground (arith, var_eq→eq u k, H.position_lt a k i m e))
    | inr d ↦ rw d refl
  ]
  within-emplaced a k u v above none m l e = elim (Bool-cases (var_eq u k)) [
    | inl d ↦ rw d (ground arith)
    | inr d ↦ rw d refl
  ]

  parents_same :
      (a : ℕ) (k u : Var) (v : V)
      → a < h.next
      → in_parent ((try_emplace a k v h).1.states a).parent (λ p.
        search_from a
          (try_emplace a k v h).1
          u
          p
          ((try_emplace a k v h).1.states a).max_parent_index)
        ≡ in_parent (h.states a).parent (λ p. search_from a h u p (h.states a).max_parent_index)
  parents_same a k u v m =
      rw (links h H a k v a, limits h H a k v a)
        (in_parent_same (h.states a).parent _ _ (λ p e.
          let o = H.parent_older a p m e in
          search_same h H a k v a u p (h.states a).max_parent_index (omega (arith, o))
            (λ d. absurd (omega (arith, o, d)))))

  step_at :
      (g : Heap V) (n : ℕ) (u : Var) (a limit : ℕ) (s : State V)
      → g.states a ≡ s
      → search_from (suc n) g u a limit
        ≡ within
            (find u s.index)
            a
            limit
            (in_parent s.parent (λ p. search_from n g u p s.max_parent_index))
  unfolding search_from
  step_at g n u a limit s e =
      ap
        (λ (t : State V).
          within (find u t.index) a limit
            (in_parent t.parent (λ p. search_from n g u p t.max_parent_index)))
        e

  child_search :
      (a : ℕ) (u : Var)
      → search_from (suc (extend a h).0) (extend a h).1 u (extend a h).0 max_size
        ≡ search_from h.next (extend a h).1 u a (length (h.states a).entries)
  unfolding search_from find within in_parent extend
  child_search a u = step_at (extend a h).1 h.next u h.next max_size _ (child_state a)

  position-try_emplace :
      (a : ℕ) (k : Var) (v : V)
      → (try_emplace a k v h).0 ≡ (emplace (find k (h.states a).index) k v (h.states a)).0
  unfolding try_emplace
  position-try_emplace a k v = refl

  search-emplaced :
      (a : ℕ) (k u : Var) (v : V)
      → a < h.next
      → length (h.states a).entries < max_size
      → search_from (suc a) (try_emplace a k v h).1 u a max_size ≡ (
          if var_eq u k
          then some (a, (try_emplace a k v h).0.0)
          else search_from (suc a) h u a max_size)
  unfolding search_from
  search-emplaced a k u v m l =
      let above =
        in_parent (h.states a).parent (λ p. search_from a h u p (h.states a).max_parent_index) in
      ap (within (find u ((try_emplace a k v h).1.states a).index) a max_size)
        (parents_same a k u v m)
      ∙ ap (λ (s : State V). within (find u s.index) a max_size above) (b_state h H a k v)
      ∙ within-emplaced a k u v above _ m l refl
      ∙ ap
          (λ (x : ℕ × Bool).
            if var_eq u k then some (a, x.0) else search_from (suc a) h u a max_size)
          (sym (position-try_emplace a k v))

-- In a heap that is well formed, a scope that was just made from another finds at every key what the
-- other finds, as long as that has no more entries than `std::size_t` counts.
pub lookup-extend :
    {V : Type 0} (h : Heap V)
    → IsHeap h
    → (a : ℕ) → a < h.next
    → length (h.states a).entries ≤ max_size
    → (u : Var) → lookup (extend a h).1 (extend a h).0 u ≡ lookup h a u
unfolding lookup
lookup-extend h H a m l u =
    child_search h H a u
    ∙ search_below h H a h.next u a (length (h.states a).entries) m
    ∙ ap (λ n. search_from n h u a (length (h.states a).entries)) (omega arith)
    ∙ any_more h H (h.next - suc a) (suc a) u a (length (h.states a).entries) (omega arith) m
    ∙ sym (any_limit h H a u a max_size m l)

-- Making a scope from another changes no lookup from a scope that exists.
pub lookup-extend_other :
    {V : Type 0} (h : Heap V)
    → IsHeap h
    → (a b : ℕ) → b < h.next
    → (u : Var) → lookup (extend a h).1 b u ≡ lookup h b u
unfolding lookup
lookup-extend_other h H a b m u = search_below h H a (suc b) u b max_size m

-- In a heap that is well formed, after `try_emplace` of a key into a scope, a lookup of that key from the
-- scope finds the position that was returned, in the scope itself, and a lookup of any other key finds
-- what it found before, as long as the scope has fewer entries than `std::size_t` counts.
pub lookup-try_emplace :
    {V : Type 0} (h : Heap V)
    → IsHeap h
    → (a : ℕ) → a < h.next
    → length (h.states a).entries < max_size
    → (k u : Var) (v : V)
    → lookup (try_emplace a k v h).1 a u
      ≡ (if var_eq u k then some (a, (try_emplace a k v h).0.0) else lookup h a u)
unfolding lookup
lookup-try_emplace h H a m l k u v = search-emplaced h H a k u v m l

-- A lookup runs to its end: on a heap that is well formed the loop finds the same with any more steps
-- than the address of the scope, from which `lookup` takes its bound.
pub lookup-enough_fuel :
    {V : Type 0} (h : Heap V)
    → IsHeap h
    → (a j : ℕ) → a < h.next
    → (u : Var) → search_from (j + suc a) h u a max_size ≡ lookup h a u
unfolding lookup
lookup-enough_fuel h H a j m u = any_more h H j (suc a) u a max_size (omega arith) m
