-- ===== src/Usage/Counted.antt =====
-- The counts of usage.cpp after an accepted addition.
use depc.Prelude.{
  ℕ, zero, suc, ◌≤◌, ◌<◌, ◌≡◌, ◌⊎◌, refl, sym, ap, ◌∙◌, Bool, true, false, Option, none, some, ltb,
  ◌==◌, if◌then◌else◌, List, [], ◌∷◌, ◌++◌, get_elem?, length, Bool-cases, inl, inr, arith,
}
use depc.Qty.{Qty, to_int, ◌+Q◌, ◌*Q◌}
use depc.Ast.{Var}
use depc.Ast.Vars.{var_eq_refl}
use depc.ScopeMap.{
  Heap, State, write, emplace, try_emplace, lookup, element, find, within, search_from, max_size,
}
use depc.ScopeMap.Stable.{IsHeap, in_parent_same}
use depc.ScopeMap.Lookup.{lookup-try_emplace}
use depc.Usage.Rollback.{failed, usage_after}
use depc.Usage.{
  Decl, Error, ok, error, usage_of, quantity_at, value_or_zero, assign, assign_unless, is_zero,
  record_usage, try_add_decl,
}

get_elem?-last :
    (xs : List (Var × Qty)) (x : Var × Qty) → get_elem? (xs ++ (x ∷ [])) (length xs) ≡ some x
get_elem?-last [] x = refl
get_elem?-last (y ∷ xs) x = get_elem?-last xs x

get_elem?-assign :
    (q : Qty) (xs : List (Var × Qty)) (i : ℕ)
    → i < length xs
    → value_or_zero (get_elem? (assign q xs i) i) ≡ q
unfolding assign value_or_zero
get_elem?-assign q [] i l = absurd (omega arith)
get_elem?-assign q (x ∷ xs) zero l = refl
get_elem?-assign q (x ∷ xs) (suc i) l = get_elem?-assign q xs i (omega arith)

module _ (g : Heap Qty) (u i : ℕ) (q : Qty) where
  same_address : (a : ℕ) → (a == u) ≡ true → u ≡ a
  same_address a e = ground arith

  -- Assigning to an element changes no search.
  assigned :
      (b : Bool) (a : ℕ)
      → (((assign_unless b u i q g).states a).index ≡ (g.states a).index)
        × (((assign_unless b u i q g).states a).parent ≡ (g.states a).parent)
        × (((assign_unless b u i q g).states a).max_parent_index ≡ (g.states a).max_parent_index)
  unfolding assign_unless write
  assigned true a = (refl, refl, refl)
  assigned false a = elim (Bool-cases (a == u)) [
    | inl e ↦
        let d = ap g.states (same_address a e) in
        rw e (
          ap (λ (s : State Qty). s.index) d,
          ap (λ (s : State Qty). s.parent) d,
          ap (λ (s : State Qty). s.max_parent_index) d,
        )
    | inr e ↦ rw e (refl, refl, refl)
  ]

  search_assigned :
      (b : Bool) (n : ℕ) (v : Var) (a limit : ℕ)
      → search_from n (assign_unless b u i q g) v a limit ≡ search_from n g v a limit
  unfolding search_from
  search_assigned b zero v a limit = refl
  search_assigned b (suc n) v a limit =
      rw ((assigned b a).0, (assigned b a).1, (assigned b a).2)
        (ap (within (find v (g.states a).index) a limit) (
          in_parent_same (g.states a).parent _ _
            (λ p e. search_assigned b n v p (g.states a).max_parent_index)))

add_zero_times : (x m : Qty) → is_zero m ≡ true → x +Q (Qty.one *Q m) ≡ x
unfolding is_zero ◌+Q◌ ◌*Q◌
add_zero_times x m e = ground arith

-- The element that was inserted or assigned to.
module _ (h : Heap Qty) (H : IsHeap h) (u : ℕ) (l : u < h.next) (v : Var) (q : Qty) where
  self_eq : (u == u) ≡ true
  self_eq = ground arith

  value_recorded :
      (o : Option ℕ)
      → find v (h.states u).index ≡ o
      → (let r = emplace o v q (h.states u) in
          value_or_zero
            (get_elem? ((assign_unless r.0.1 u r.0.0 q (write u r.1 h)).states u).entries r.0.0))
        ≡ q
  unfolding emplace assign_unless write value_or_zero
  value_recorded none e = rw self_eq (ap value_or_zero (get_elem?-last (h.states u).entries (v, q)))
  value_recorded (some i) e =
      rw self_eq (get_elem?-assign q (h.states u).entries i (H.position_lt u v i l e))

  usage-record_usage :
      length (h.states u).entries < max_size → usage_of (record_usage v q u h) u v ≡ q
  unfolding usage_of record_usage try_emplace lookup quantity_at element
  usage-record_usage k =
      let g = (try_emplace u v q h).1 in
      let i = (try_emplace u v q h).0.0 in
      let b = (try_emplace u v q h).0.1 in
      ap (quantity_at (assign_unless b u i q g)) (
        search_assigned g u i q b (suc u) v u max_size
        ∙ lookup-try_emplace h H u l k v v q
        ∙ ap (λ (t : Bool). if t then some (u, i) else lookup h u v) (var_eq_refl v))
      ∙ value_recorded (find v (h.states u).index) refl

  step_usage :
      (z b : Bool) (m allowed : Qty) (e : Error)
      → length (h.states u).entries < max_size
      → z ≡ is_zero m
      → b ≡ ltb (to_int allowed) (to_int q)
      → q ≡ usage_of h u v +Q (Qty.one *Q m)
      → failed (if z then ok u h else if b then error e u h else ok u (record_usage v q u h))
        ≡ false
      → (usage_after
            (if z then ok u h else if b then error e u h else ok u (record_usage v q u h))
            v
          ≡ q)
        × ((z ≡ true)
            ⊎ (to_int (
                  usage_after
                    (if z then ok u h else if b then error e u h else ok u (record_usage v q u h))
                    v)
                ≤ to_int allowed))
  unfolding is_zero ◌+Q◌ ◌*Q◌
  step_usage true b m allowed e k f g d n =
      (sym (d ∙ add_zero_times (usage_of h u v) m (sym f)), inl refl)
  step_usage false true m allowed e k f g d n = cc
  step_usage false false m allowed e k f g d n =
      (usage-record_usage k, inr (rw (usage-record_usage k) (ground arith)))

-- If a scope has fewer entries than `std::size_t` counts, and adding `1 * m` to the usage of a declaration
-- is accepted, then the total usage of its variable is afterwards what it was plus `1 * m`; and unless
-- `m` is zero that is at most the quantity of the declaration.
pub try_add_decl-counts :
    (h : Heap Qty)
    → IsHeap h
    → (u : ℕ) → u < h.next
    → length (h.states u).entries < max_size
    → (d : Decl) (m : Qty) → failed (try_add_decl d m u h) ≡ false
    → (usage_after (try_add_decl d m u h) d.declared ≡ usage_of h u d.declared +Q (Qty.one *Q m))
      × ((is_zero m ≡ true)
          ⊎ (to_int (usage_after (try_add_decl d m u h) d.declared) ≤ to_int d.qty))
unfolding try_add_decl
try_add_decl-counts h H u l k d m n =
    step_usage h H u l d.declared (usage_of h u d.declared +Q (Qty.one *Q m)) (is_zero m) _ m d.qty
      _ k refl refl refl n
