-- ===== src/Usage/Frame.antt =====
-- Which states of the heap the operations of usage.cpp touch.
use depc.Prelude.{
  ℕ, ◌≤◌, ◌<◌, ◌≡◌, ◌≢◌, refl, ◌∙◌, Bool, true, false, Option, none, some, ltb, if◌then◌else◌, List,
  [], ◌∷◌, arith,
}
use depc.Qty.{Qty, to_int, ◌+Q◌, ◌*Q◌}
use depc.Ast.{
  Var, Expr, expr, Value, atom, boolean_constant, numeric_constant, string_literal, boolean_not,
  boolean_expr, relation_expr, arith_expr, var, global, app, abs, pi, sigma, addressof, deref,
  scopeof, init_list, member, subscript, because, Exprs, no_exprs, more,
}
use depc.ScopeMap.{Heap, State, write, try_emplace, innermost_copy}
use depc.Usage.{
  Decl, Context, Outcome, ok, error, and_then, usage_of, assign_unless, is_zero, message,
  record_usage, try_add_decl, roll_back, with_rollback, try_add_known, try_add, try_add_value,
  try_add_exprs, try_add_entries,
}

-- Nothing but the state at `u` is different, and there may be new states.
pub record IsFrame (u : ℕ) (h g : Heap Qty) : Type 0 where
  pub grows : h.next ≤ g.next
  pub same : (a : ℕ) → a < h.next → a ≢ u → g.states a ≡ h.states a

pub IsFrame-refl : (u : ℕ) (h : Heap Qty) → IsFrame u h h
IsFrame-refl u h = record { grows = omega arith; same = λ a l n. refl }

pub IsFrame-trans : (u : ℕ) (h g f : Heap Qty) → IsFrame u h g → IsFrame u g f → IsFrame u h f
IsFrame-trans u h g f H G = record {
  grows = omega (arith, H.grows, G.grows);
  same = λ a l n. G.same a (omega (arith, H.grows)) n ∙ H.same a l n;
}

-- The heap after an outcome, and `count` is where it was unless there is an error.
abbrev pub IsStep : ℕ → Heap Qty → Outcome → Type 0
IsStep u h (ok v g) = (v ≡ u) × IsFrame u h g
IsStep u h (error e v g) = IsFrame u h g

module _ (u : ℕ) where
  pub IsStep-ok : (h : Heap Qty) → IsStep u h (ok u h)
  IsStep-ok h = (refl, IsFrame-refl u h)

  IsStep-weaken : (h g : Heap Qty) (r : Outcome) → IsFrame u h g → IsStep u g r → IsStep u h r
  IsStep-weaken h g (ok v f) H S = (S.0, IsFrame-trans u h g f H S.1)
  IsStep-weaken h g (error e v f) H S = IsFrame-trans u h g f H S

  IsStep-and_then :
      (h : Heap Qty) (r : Outcome) (f : ℕ → Heap Qty → Outcome)
      → IsStep u h r
      → ((g : Heap Qty) → IsStep u g (f u g))
      → IsStep u h (and_then r f)
  unfolding and_then
  IsStep-and_then h (ok v g) f S F = IsStep-weaken h g (f v g) S.1 (rw (S.0) (F g))
  IsStep-and_then h (error e v g) f S F = S

  pub IsFrame-copy : (h : Heap Qty) → IsFrame u h (innermost_copy u h).1
  unfolding innermost_copy
  IsFrame-copy h = record { grows = omega arith; same = λ a l n. ground arith }

  IsStep-roll_back :
      (h : Heap Qty) (c : ℕ) (r : Outcome) → IsStep u h r → IsStep u h (roll_back c r)
  unfolding roll_back
  IsStep-roll_back h c (ok v g) S = S
  IsStep-roll_back h c (error e v g) S = S

  IsStep-with_rollback :
      (h : Heap Qty) (f : ℕ → Heap Qty → Outcome)
      → ((g : Heap Qty) → IsStep u g (f u g))
      → IsStep u h (with_rollback f u h)
  unfolding with_rollback
  IsStep-with_rollback h f F =
      let g = (innermost_copy u h).1 in
      IsStep-weaken h g _ (IsFrame-copy h) (IsStep-roll_back g _ (f u g) (F g))

  IsFrame-write : (h : Heap Qty) (s : State Qty) → IsFrame u h (write u s h)
  unfolding write
  IsFrame-write h s = record { grows = omega arith; same = λ a l n. ground arith }

  pub IsFrame-emplace : (h : Heap Qty) (v : Var) (q : Qty) → IsFrame u h (try_emplace u v q h).1
  unfolding try_emplace
  IsFrame-emplace h v q = IsFrame-write h _

  pub IsFrame-assign :
      (h : Heap Qty) (b : Bool) (i : ℕ) (q : Qty) → IsFrame u h (assign_unless b u i q h)
  unfolding assign_unless
  IsFrame-assign h true i q = IsFrame-refl u h
  IsFrame-assign h false i q = IsFrame-write h _

  IsFrame-record : (h : Heap Qty) (v : Var) (q : Qty) → IsFrame u h (record_usage v q u h)
  unfolding record_usage
  IsFrame-record h v q =
      IsFrame-trans u h (try_emplace u v q h).1 _ (IsFrame-emplace h v q) (IsFrame-assign _ _ _ q)

  IsStep-if :
      (h : Heap Qty) (b : Bool) (r t : Outcome)
      → IsStep u h r
      → IsStep u h t
      → IsStep u h (if b then r else t)
  IsStep-if h true r t R T = R
  IsStep-if h false r t R T = T

  IsStep-try_add_decl : (d : Decl) (m : Qty) (h : Heap Qty) → IsStep u h (try_add_decl d m u h)
  unfolding try_add_decl
  IsStep-try_add_decl d m h =
      let now = usage_of h u d.declared +Q (Qty.one *Q m) in
      let counted : IsStep u h (ok u (record_usage d.declared now u h)) =
        (refl, IsFrame-record h d.declared now) in
      IsStep-if h (is_zero m) _ _ (IsStep-ok h) (
        IsStep-if h (ltb (to_int d.qty) (to_int now))
          (error (message d.qty (usage_of h u d.declared)) u h)
          (ok u (record_usage d.declared now u h)) (IsFrame-refl u h) counted)

  IsStep-known :
      (d : Option Decl) (v : Var) (m : Qty) (h : Heap Qty) → IsStep u h (try_add_known d v m u h)
  unfolding try_add_known
  IsStep-known none v m h = IsFrame-refl u h
  IsStep-known (some d) v m h = IsStep-try_add_decl d m h

  module _ (ctx : Context) (m : Qty) where
    mutual
      unfolding try_add

      pub IsStep-try_add : (x : Expr) (h : Heap Qty) → IsStep u h (try_add ctx m x u h)
      IsStep-try_add (expr s x) h =
          IsStep-if h (is_zero m) _ _ (IsStep-ok h)
            (IsStep-with_rollback h (λ v g. try_add_value ctx m x v g) (λ g. IsStep-value x g))

      pub IsStep-value : (x : Value) (h : Heap Qty) → IsStep u h (try_add_value ctx m x u h)
      IsStep-value (atom x) h = IsStep-ok h
      IsStep-value (boolean_constant x) h = IsStep-ok h
      IsStep-value (numeric_constant x) h = IsStep-ok h
      IsStep-value (string_literal x) h = IsStep-ok h
      IsStep-value (global l x) h = IsStep-ok h
      IsStep-value (pi l gs r) h = IsStep-ok h
      IsStep-value (sigma gs) h = IsStep-ok h
      IsStep-value (boolean_not x) h = IsStep-try_add x h
      IsStep-value (addressof x) h = IsStep-try_add x h
      IsStep-value (deref x) h = IsStep-try_add x h
      IsStep-value (scopeof x i) h = IsStep-try_add x h
      IsStep-value (member x f) h = IsStep-try_add x h
      IsStep-value (because x r) h = IsStep-try_add x h
      IsStep-value (boolean_expr o x y) h =
          IsStep-and_then h _ (λ v g. try_add ctx m y v g) (IsStep-try_add x h)
            (λ g. IsStep-try_add y g)
      IsStep-value (relation_expr o x y) h =
          IsStep-and_then h _ (λ v g. try_add ctx m y v g) (IsStep-try_add x h)
            (λ g. IsStep-try_add y g)
      IsStep-value (arith_expr o x y) h =
          IsStep-and_then h _ (λ v g. try_add ctx m y v g) (IsStep-try_add x h)
            (λ g. IsStep-try_add y g)
      IsStep-value (subscript x y) h =
          IsStep-and_then h _ (λ v g. try_add ctx m y v g) (IsStep-try_add x h)
            (λ g. IsStep-try_add y g)
      IsStep-value (var x) h = IsStep-known (ctx x) x m h
      IsStep-value (abs l gs r b) h = IsFrame-refl u h
      IsStep-value (init_list xs) h = IsStep-exprs xs h
      IsStep-value (app f xs) h =
          IsStep-and_then h _ (λ v g. try_add_exprs ctx m xs v g) (IsStep-try_add f h)
            (λ g. IsStep-exprs xs g)

      IsStep-exprs : (xs : Exprs) (h : Heap Qty) → IsStep u h (try_add_exprs ctx m xs u h)
      IsStep-exprs no_exprs h = IsStep-ok h
      IsStep-exprs (more x xs) h =
          IsStep-and_then h _ (λ v g. try_add_exprs ctx m xs v g) (IsStep-try_add x h)
            (λ g. IsStep-exprs xs g)

  pub IsStep-entries :
      (ctx : Context) (xs : List (Var × Qty)) (h : Heap Qty)
      → IsStep u h (try_add_entries ctx xs u h)
  unfolding try_add_entries
  IsStep-entries ctx [] h = IsStep-ok h
  IsStep-entries ctx (x ∷ xs) h =
      IsStep-and_then h _ (λ v g. try_add_entries ctx xs v g) (IsStep-known (ctx x.0) x.0 Qty.one h)
        (λ g. IsStep-entries ctx xs g)

-- Adding the usages of an expression leaves every scope that exists as it was, except the one of the usage
-- object, and an accepted addition leaves the object at its scope.
pub try_add-IsStep :
    (ctx : Context) (m : Qty) (x : Expr) (u : ℕ) (h : Heap Qty) → IsStep u h (try_add ctx m x u h)
try_add-IsStep ctx m x u h = IsStep-try_add u ctx m x h
