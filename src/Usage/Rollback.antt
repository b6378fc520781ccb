-- ===== src/Usage/Rollback.antt =====
-- The counts of usage.cpp after a rejected addition.
use depc.Prelude.{
  ℕ, zero, suc, ◌+◌, ◌-◌, ◌<◌, ◌≡◌, refl, sym, ap, ◌∙◌, Bool, true, false, Option, none, some, ltb,
  Bool-cases, inl, inr, arith,
}
use depc.Qty.{Qty}
use depc.Ast.{Var, Expr, expr}
use depc.ScopeMap.{
  Heap, State, innermost_copy, lookup, element, find, within, in_parent, search_from, max_size,
}
use depc.ScopeMap.Stable.{IsHeap}
use depc.ScopeMap.Lookup.{any_more}
use depc.Usage.{
  Context, Outcome, ok, error, usage_of, quantity_at, is_zero, roll_back, with_rollback, try_add,
  try_add_value, try_add_entries, try_add_usage,
}
use depc.Usage.Frame.{IsStep, IsStep-value, IsStep-entries}

-- What a pointer found in corresponding states says.
pub quantity-within :
    (h g : Heap Qty) (o : Option ℕ) (a b limit : ℕ) (above above' : Option (ℕ × ℕ))
    → g.states b ≡ h.states a
    → quantity_at g above ≡ quantity_at h above'
    → quantity_at g (within o b limit above) ≡ quantity_at h (within o a limit above')
unfolding within quantity_at element
quantity-within h g none a b limit above above' e f = f
quantity-within h g (some i) a b limit above above' e f = elim (Bool-cases (ltb i limit)) [
  | inl d ↦ rw (d, e) refl
  | inr d ↦ rw d f
]

pub quantity-in_parent :
    (h g : Heap Qty) (o : Option ℕ) (f f' : ℕ → Option (ℕ × ℕ))
    → ((p : ℕ) → o ≡ some p → quantity_at g (f p) ≡ quantity_at h (f' p))
    → quantity_at g (in_parent o f) ≡ quantity_at h (in_parent o f')
unfolding in_parent quantity_at
quantity-in_parent h g none f f' e = refl
quantity-in_parent h g (some p) f f' e = e p refl

-- `g` is a later heap, where the state at `c` is a copy of the one that was at `u`.
module _ (h g : Heap Qty) (H : IsHeap h) (u c : ℕ) (l : u < h.next) (younger : u < c)
    (below : (a : ℕ) → a < u → g.states a ≡ h.states a) (copied : g.states c ≡ h.states u) where
  quantity_older :
      (n : ℕ) (v : Var) (a limit : ℕ)
      → a < u
      → quantity_at g (search_from n g v a limit) ≡ quantity_at h (search_from n h v a limit)
  unfolding search_from quantity_at
  quantity_older zero v a limit k = refl
  quantity_older (suc n) v a limit k =
      let s = h.states a in
      let above =
        quantity-in_parent h g s.parent (λ p. search_from n g v p s.max_parent_index)
          (λ p. search_from n h v p s.max_parent_index)
          (λ p e.
            quantity_older n v p s.max_parent_index
              (omega (arith, H.parent_older a p (omega arith) e))) in
      ap
        (λ (t : State Qty). quantity_at g (
          within (find v t.index) a limit
            (in_parent t.parent (λ p. search_from n g v p t.max_parent_index))))
        (below a k)
      ∙ quantity-within h g (find v s.index) a a limit _ _ (below a k) above

  quantity_copied :
      (n : ℕ) (v : Var) (limit : ℕ)
      → quantity_at g (search_from (suc n) g v c limit)
        ≡ quantity_at h (search_from (suc n) h v u limit)
  unfolding search_from
  quantity_copied n v limit =
      let s = h.states u in
      let above =
        quantity-in_parent h g s.parent (λ p. search_from n g v p s.max_parent_index)
          (λ p. search_from n h v p s.max_parent_index)
          (λ p e. quantity_older n v p s.max_parent_index (H.parent_older u p l e)) in
      ap
        (λ (t : State Qty). quantity_at g (
          within (find v t.index) c limit
            (in_parent t.parent (λ p. search_from n g v p t.max_parent_index))))
        copied
      ∙ quantity-within h g (find v s.index) u c limit _ _ copied above

  usage_copied : (v : Var) → usage_of g c v ≡ usage_of h u v
  unfolding usage_of lookup
  usage_copied v =
      let enough : suc c ≡ c - u + suc u = omega arith in
      quantity_copied c v max_size
      ∙ ap (λ n. quantity_at h (search_from n h v u max_size)) enough
      ∙ ap (quantity_at h) (any_more h H (c - u) (suc u) v u max_size (omega arith) l)

abbrev pub failed : Outcome → Bool
failed (ok u h) = false
failed (error e u h) = true

-- The total usage that the object shows afterwards.
abbrev pub usage_after : Outcome → Var → Qty
usage_after (ok u h) v = usage_of h u v
usage_after (error e u h) v = usage_of h u v

module _ (h : Heap Qty) (H : IsHeap h) (u : ℕ) (l : u < h.next) where
  copy_kept : (a : ℕ) → a < h.next → (innermost_copy u h).1.states a ≡ h.states a
  unfolding innermost_copy
  copy_kept a k = ground arith

  copy_new :
      ((innermost_copy u h).1.states (innermost_copy u h).0 ≡ h.states u)
      × ((innermost_copy u h).0 ≡ h.next)
      × ((innermost_copy u h).1.next ≡ suc h.next)
  unfolding innermost_copy
  copy_new = (ground arith, refl, refl)

  usage_rolled_back :
      (r : Outcome)
      → IsStep u (innermost_copy u h).1 r
      → failed r ≡ true
      → (v : Var) → usage_after (roll_back (innermost_copy u h).0 r) v ≡ usage_of h u v
  unfolding roll_back
  usage_rolled_back (ok w f) S d v = cc
  usage_rolled_back (error e w f) S d v =
      let c = (innermost_copy u h).0 in
      usage_copied h f H u c l (omega (arith, copy_new.1))
        (λ a k.
          S.same a (omega (arith, copy_new.2)) (λ q. absurd (omega (arith, q)))
          ∙ copy_kept a (omega arith))
        (S.same c (omega (arith, copy_new.1, copy_new.2))
            (λ q. absurd (omega (arith, copy_new.1, q)))
          ∙ copy_new.0)
        v

  failed-roll_back : (c : ℕ) (r : Outcome) → failed (roll_back c r) ≡ failed r
  unfolding roll_back
  failed-roll_back c (ok w f) = refl
  failed-roll_back c (error e w f) = refl

  usage-with_rollback :
      (f : ℕ → Heap Qty → Outcome)
      → ((g : Heap Qty) → IsStep u g (f u g))
      → failed (with_rollback f u h) ≡ true
      → (v : Var) → usage_after (with_rollback f u h) v ≡ usage_of h u v
  unfolding with_rollback
  usage-with_rollback f F d v =
      let g = (innermost_copy u h).1 in
      usage_rolled_back (f u g) (F g) (sym (failed-roll_back _ (f u g)) ∙ d) v

  usage-try_add :
      (ctx : Context) (m : Qty) (x : Expr)
      → failed (try_add ctx m x u h) ≡ true
      → (v : Var) → usage_after (try_add ctx m x u h) v ≡ usage_of h u v
  unfolding try_add
  usage-try_add ctx m (expr s x) d v = elim (Bool-cases (is_zero m)) [
    | inl e ↦ rw e refl
    | inr e ↦ rw e (
        usage-with_rollback (λ w g. try_add_value ctx m x w g) (IsStep-value u ctx m x) (rw e at d)
          v)
  ]

-- If adding the usages of an expression is rejected, every variable's total usage is afterwards what it
-- was before, for any context and multiplier, on a heap of scopes that is well formed.
pub try_add-rollback :
    (h : Heap Qty)
    → IsHeap h
    → (u : ℕ) → u < h.next
    → (ctx : Context) (m : Qty) (x : Expr) → failed (try_add ctx m x u h) ≡ true
    → (v : Var) → usage_after (try_add ctx m x u h) v ≡ usage_of h u v
try_add-rollback h H u l ctx m x d v = usage-try_add h H u l ctx m x d v

-- If adding the direct usages of another usage object is rejected, every variable's total usage is
-- afterwards what it was before, for any context, on a heap of scopes that is well formed.
pub try_add_usage-rollback :
    (h : Heap Qty)
    → IsHeap h
    → (u : ℕ) → u < h.next
    → (ctx : Context) (that : ℕ) → failed (try_add_usage ctx that u h) ≡ true
    → (v : Var) → usage_after (try_add_usage ctx that u h) v ≡ usage_of h u v
unfolding try_add_usage
try_add_usage-rollback h H u l ctx that d v =
    usage-with_rollback h H u l (λ w g. try_add_entries ctx (h.states that).entries w g)
      (IsStep-entries u ctx (h.states that).entries) d v
