-- ===== src/ScopeMap/Values.antt =====
-- The values that the lookups of scope_map.hpp reach.
use depc.Prelude.{
  ℕ, zero, suc, ◌≤◌, ◌<◌, ◌≡◌, ◌≢◌, refl, ap, sym, ◌∙◌, false, Option, none, some, List, [], ◌∷◌,
  ◌++◌, length, get_elem?, Bool-cases, inl, inr, ltb, ◌==◌, if◌then◌else◌, arith,
}
use mathlib.Core.Path.{subst}
use depc.Ast.{Var, var_eq}
use depc.Ast.Index.{==-refl}
use depc.ScopeMap.{
  max_size, Heap, find, within, in_parent, emplace, write, extend, try_emplace, search_from, lookup,
  element,
}
use depc.ScopeMap.Stable.{IsHeap, lookup-try_emplace_other}
use depc.ScopeMap.Lookup.{lookup-extend, lookup-extend_other, lookup-try_emplace}
use depc.ScopeMap.Pointers.{element-try_emplace}

get_elem?-lt :
    {A : Type 0} (xs : List A) (i : ℕ) → i < length xs → (x : A) × (get_elem? xs i ≡ some x)
get_elem?-lt [] i l = absurd (omega arith)
get_elem?-lt (x ∷ xs) zero l = (x, refl)
get_elem?-lt (x ∷ xs) (suc i) l = get_elem?-lt xs i (omega arith)

get_elem?-last :
    {A : Type 0} (xs : List A) (x : A) → get_elem? (xs ++ (x ∷ [])) (length xs) ≡ some x
get_elem?-last [] x = refl
get_elem?-last (y ∷ xs) x = get_elem?-last xs x

module _ {V : Type 0} where
  -- What a pointer that `operator[]` returned points to.
  unfoldable pub value_of : Option (Var × V) → Option V
  value_of none = none
  value_of (some x) = some x.1

  unfoldable pub pointed : Heap V → Option (ℕ × ℕ) → Option V
  pointed h none = none
  pointed h (some p) = value_of (element h p)

  -- `*m[k]`
  unfoldable pub value_at : Heap V → ℕ → Var → Option V
  value_at h a k = pointed h (lookup h a k)

  module _ (h : Heap V) (H : IsHeap h) (k : Var) where
    abbrev IsElement : ℕ × ℕ → Type 0
    IsElement p = (x : Var × V) × (element h p ≡ some x) × (p.0 < h.next)

    found_here :
        (a i : ℕ) (p : ℕ × ℕ)
        → a < h.next
        → find k (h.states a).index ≡ some i
        → some (a, i) ≡ some p
        → IsElement p
    unfolding element
    found_here a i p m e d =
        let r = get_elem?-lt (h.states a).entries i (H.position_lt a k i m e) in
        (
          r.0,
          ap (λ q. element h (otherwise q p)) (sym d) ∙ r.1,
          subst (λ q. (otherwise q p).0 < h.next) d m,
        )
      where
        otherwise : Option (ℕ × ℕ) → ℕ × ℕ → ℕ × ℕ
        otherwise none q = q
        otherwise (some x) q = x

    found_above :
        (a : ℕ) (p : ℕ × ℕ) (q : Option ℕ) (f : ℕ → Option (ℕ × ℕ))
        → a < h.next
        → (h.states a).parent ≡ q
        → ((b : ℕ) → b < h.next → f b ≡ some p → IsElement p)
        → in_parent q f ≡ some p
        → IsElement p
    unfolding in_parent
    found_above a p none f m e r d = absurd (ground (arith, d))
    found_above a p (some b) f m e r d = r b (omega (arith, H.parent_older a b m e)) d

    found_step :
        (a limit : ℕ) (p : ℕ × ℕ) (o : Option ℕ) (above : Option (ℕ × ℕ))
        → a < h.next
        → find k (h.states a).index ≡ o
        → (above ≡ some p → IsElement p)
        → within o a limit above ≡ some p
        → IsElement p
    unfolding within
    found_step a limit p none above m e r d = r d
    found_step a limit p (some i) above m e r d = elim (Bool-cases (ltb i limit)) [
      | inl l ↦ found_here a i p m e (rw l at d)
      | inr l ↦ r (rw l at d)
    ]

    -- A search that finds something finds an element.
    found_in :
        (n a limit : ℕ) (p : ℕ × ℕ) → a < h.next → search_from n h k a limit ≡ some p → IsElement p
    unfolding search_from
    found_in zero a limit p m e = absurd (ground (arith, e))
    found_in (suc n) a limit p m e =
        found_step a limit p (find k (h.states a).index) _ m refl
          (found_above a p (h.states a).parent _ m refl
            (λ b l d. found_in n b (h.states a).max_parent_index p l d))
          e

    pub lookup-found : (a : ℕ) (p : ℕ × ℕ) → a < h.next → lookup h a k ≡ some p → IsElement p
    unfolding lookup
    lookup-found a p m e = found_in (suc a) a max_size p m e

  -- A lookup that finds the same position finds the same value, after an insertion.
  pointed-try_emplace :
      (h : Heap V) (H : IsHeap h) (b : ℕ) (k u : Var) (v : V) (o : Option (ℕ × ℕ))
      → ((p : ℕ × ℕ) → o ≡ some p → IsElement h H u p)
      → pointed (try_emplace b k v h).1 o ≡ pointed h o
  unfolding pointed
  pointed-try_emplace h H b k u v none f = refl
  pointed-try_emplace h H b k u v (some p) f =
      let r = f p refl in ap value_of (element-try_emplace h H b k v p r.0 r.1 ∙ sym r.1)

  pointed-extend :
      (h : Heap V) (H : IsHeap h) (a : ℕ) (u : Var) (o : Option (ℕ × ℕ))
      → ((p : ℕ × ℕ) → o ≡ some p → IsElement h H u p)
      → pointed (extend a h).1 o ≡ pointed h o
  unfolding pointed extend element
  pointed-extend h H a u none f = refl
  pointed-extend h H a u (some p) f =
      let l = (f p refl).2 in let e : (p.0 == h.next) ≡ false = ground (arith, l) in rw e refl

  element-new :
      (h : Heap V) (a : ℕ) (k : Var) (v : V) (o : Option ℕ)
      → find k (h.states a).index ≡ o
      → o ≡ none
      → element (try_emplace a k v h).1 (a, (try_emplace a k v h).0.0) ≡ some (k, v)
  unfolding try_emplace write emplace element
  element-new h a k v none e d = rw (e, ==-refl a) (get_elem?-last (h.states a).entries (k, v))
  element-new h a k v (some i) e d = absurd (ground (arith, d))

  module _ (h : Heap V) (H : IsHeap h) where
    -- Inserting into one scope changes no value that another one sees.
    pub value_at-try_emplace_other :
        (a b : ℕ)
        → a < h.next
        → a ≢ b
        → (k u : Var) (v : V) → value_at (try_emplace b k v h).1 a u ≡ value_at h a u
    unfolding value_at
    value_at-try_emplace_other a b m n k u v =
        ap (pointed (try_emplace b k v h).1) (lookup-try_emplace_other h H a b m n k u v)
        ∙ pointed-try_emplace h H b k u v (lookup h a u) (λ p e. lookup-found h H u a p m e)

    -- A scope that was just made sees the values of the scope that it was made from.
    pub value_at-extend :
        (a : ℕ)
        → a < h.next
        → length (h.states a).entries ≤ max_size
        → (u : Var) → value_at (extend a h).1 (extend a h).0 u ≡ value_at h a u
    unfolding value_at
    value_at-extend a m l u =
        ap (pointed (extend a h).1) (lookup-extend h H a m l u)
        ∙ pointed-extend h H a u (lookup h a u) (λ p e. lookup-found h H u a p m e)

    pub value_at-extend_other :
        (a b : ℕ) → b < h.next → (u : Var) → value_at (extend a h).1 b u ≡ value_at h b u
    unfolding value_at
    value_at-extend_other a b m u =
        ap (pointed (extend a h).1) (lookup-extend_other h H a b m u)
        ∙ pointed-extend h H a u (lookup h b u) (λ p e. lookup-found h H u b p m e)

    -- A new key.
    pub value_at-try_emplace :
        (a : ℕ)
        → a < h.next
        → length (h.states a).entries < max_size
        → (k u : Var) (v : V) → find k (h.states a).index ≡ none
        → value_at (try_emplace a k v h).1 a u ≡ (if var_eq u k then some v else value_at h a u)
    unfolding value_at pointed value_of
    value_at-try_emplace a m l k u v e =
        ap (pointed (try_emplace a k v h).1) (lookup-try_emplace h H a m l k u v)
        ∙ elim (Bool-cases (var_eq u k)) [
          | inl d ↦ rw d (ap value_of (element-new h a k v none e refl))
          | inr d ↦
              rw d
                (pointed-try_emplace h H a k u v (lookup h a u) (λ p r. lookup-found h H u a p m r))
        ]
