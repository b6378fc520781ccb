-- ===== src/Rewrite/Free.antt =====
-- Free variables before and after rewriting, in the model of rewrite.cpp.
use depc.Prelude.{
  ◌≡◌, refl, Bool, Bool-cases, inl, inr, true, false, ◌&&◌, ◌||◌, Option, some, if◌then◌else◌,
  arith,
}
use mathlib.Core.Path.{subst}
use depc.Ast.{
  Var, is_var, Expr, expr, Sort, Value, atom, boolean_constant, numeric_constant, string_literal,
  boolean_not, boolean_expr, relation_expr, arith_expr, var, global, app, abs, pi, sigma, addressof,
  deref, scopeof, init_list, member, subscript, because, Exprs, no_exprs, more, Args, no_args, arg,
  Body, done, stmt, Stmt, call, if_then, if_else, return_void, return_value, impossible,
  impossible_because,
}
use depc.Ast.OccursIn.{
  free, occurs_in, occurs_in_exprs, occurs_in_args, occurs_in_body, occurs_in_stmt,
}
use depc.Alpha.{is_alpha_equivalent}
use depc.Rewrite.{
  has_value, choose, is_equivalent, stops, rewrite, rewrite_value, rewrite_exprs, rewrite_args,
  rewrite_body, rewrite_stmt,
}
use depc.Rewrite.Steps.{
  carries, carries-changed, unchanged, in_either, in_either_swapped, in_emplaced, in_stopped,
  in_hidden, in_shown, in_none, has_value-stopped, stops-var,
}

module _ (from to : Expr) where
  -- After `stop`, nothing changes any more.
  stopped : (gs : Args) → (let r = rewrite_args from to true gs in (r.0 ≡ false) × (r.2 ≡ true))
  unfolding rewrite_args has_value
  stopped no_args = (refl, refl)
  stopped (arg q t x gs) = (ground (arith, (stopped gs).0), (stopped gs).1)

  stopped_by :
      (b : Bool) (gs : Args)
      → b ≡ true
      → (let r = rewrite_args from to b gs in (r.0 ≡ false) × (r.2 ≡ true))
  stopped_by true gs e = stopped gs
  stopped_by false gs e = absurd (ground (arith, e))

  nothing : (c r z : Bool) → (c && z) ≡ false → r ≡ false → z ≡ true → (c || r) ≡ false
  nothing c r z h k e = ground (arith, h, k, e)

  module _ (w : Var) where
    abbrev put_in : Bool
    put_in = occurs_in w free to

    abbrev IsCarried : Option Expr → Expr → Type 0
    IsCarried r x =
        carries put_in (has_value r) (occurs_in w free (choose r x)) (occurs_in w free x) ≡ true

    whole :
        (v : Bool) (r : Option Expr) (x : Expr)
        → IsCarried r x
        → IsCarried (if v then some to else r) x
    unfolding has_value choose carries
    whole true r x h = ground arith
    whole false r x h = h

    mutual
      unfolding rewrite occurs_in

      Carried-expr : (x : Expr) → IsCarried (rewrite from to x) x
      Carried-expr (expr s x) =
          whole (is_equivalent (is_alpha_equivalent (expr s x) from)) (rewrite_value from to s x)
            (expr s x) (Carried-value s x)

      Carried-value : (s : Sort) (x : Value) → IsCarried (rewrite_value from to s x) (expr s x)
      Carried-value s (boolean_not x) = in_emplaced put_in (occurs_in w free) _ _ _ (Carried-expr x)
      Carried-value s (addressof x) = in_emplaced put_in (occurs_in w free) _ _ _ (Carried-expr x)
      Carried-value s (deref x) = in_emplaced put_in (occurs_in w free) _ _ _ (Carried-expr x)
      Carried-value s (scopeof x i) = in_emplaced put_in (occurs_in w free) _ _ _ (Carried-expr x)
      Carried-value s (boolean_expr p x y) =
          in_emplaced put_in (occurs_in w free) _ _ _
            (in_either put_in _ _ _ _ _ _ (Carried-expr x) (Carried-expr y))
      Carried-value s (relation_expr p x y) =
          in_emplaced put_in (occurs_in w free) _ _ _
            (in_either put_in _ _ _ _ _ _ (Carried-expr x) (Carried-expr y))
      Carried-value s (arith_expr p x y) =
          in_emplaced put_in (occurs_in w free) _ _ _
            (in_either put_in _ _ _ _ _ _ (Carried-expr x) (Carried-expr y))
      Carried-value s (app f xs) =
          in_emplaced put_in (occurs_in w free) _ _ _
            (in_either_swapped put_in _ _ _ _ _ _ (Carried-expr f) (rewrite_exprs-IsCarried xs))
      Carried-value s (abs m gs x b) =
          let r = rewrite_args from to false gs in
          in_emplaced put_in (occurs_in w free) _ _ _ (
            rewrite_args-IsCarried false gs _ _ _
              (in_either put_in _ _ _ _ _ _
                (in_stopped put_in (occurs_in w free) r.2 (rewrite from to x) x (Carried-expr x))
                (in_stopped put_in (occurs_in_body w free) r.2 (rewrite_body from to b) b
                  (rewrite_body-IsCarried b)))
              (ground (
                arith,
                has_value-stopped r.2 (rewrite from to x),
                has_value-stopped r.2 (rewrite_body from to b),
              )))
      Carried-value s (pi m gs x) =
          let r = rewrite_args from to false gs in
          in_emplaced put_in (occurs_in w free) _ _ _ (
            rewrite_args-IsCarried false gs _ _ _
              (in_stopped put_in (occurs_in w free) r.2 (rewrite from to x) x (Carried-expr x))
              (has_value-stopped r.2 (rewrite from to x)))
      Carried-value s (sigma gs) =
          in_emplaced put_in (occurs_in w free) _ _ _
            (rewrite_args-IsCarried false gs false false false (unchanged put_in false) refl)
      Carried-value s (atom a) = in_none put_in (occurs_in w free) _
      Carried-value s (boolean_constant a) = in_none put_in (occurs_in w free) _
      Carried-value s (numeric_constant a) = in_none put_in (occurs_in w free) _
      Carried-value s (string_literal a) = in_none put_in (occurs_in w free) _
      Carried-value s (var x) = in_none put_in (occurs_in w free) _
      Carried-value s (global m x) = in_none put_in (occurs_in w free) _
      Carried-value s (init_list xs) = in_none put_in (occurs_in w free) _
      Carried-value s (member x f) = in_none put_in (occurs_in w free) _
      Carried-value s (subscript x i) = in_none put_in (occurs_in w free) _
      Carried-value s (because x r) = in_none put_in (occurs_in w free) _

      rewrite_exprs-IsCarried :
          (xs : Exprs)
          → (let r = rewrite_exprs from to xs in
              carries put_in r.0 (occurs_in_exprs w free r.1) (occurs_in_exprs w free xs) ≡ true)
      rewrite_exprs-IsCarried no_exprs = unchanged put_in false
      rewrite_exprs-IsCarried (more x xs) =
          in_either put_in _ _ _ _ _ _ (Carried-expr x) (rewrite_exprs-IsCarried xs)

      -- `c`, `n` and `o` are those of what follows the arguments.
      rewrite_args-IsCarried :
          (stop : Bool) (gs : Args) (c n o : Bool)
          → carries put_in c n o ≡ true
          → (let r = rewrite_args from to stop gs in
              (c && r.2) ≡ false
              → carries put_in (c || r.0) (occurs_in_args w free r.1 n) (occurs_in_args w free gs o)
                ≡ true)
      rewrite_args-IsCarried stop no_args c n o h k = ground (arith, h)
      rewrite_args-IsCarried stop (arg q t x gs) c n o h k =
          let first =
            in_stopped put_in (occurs_in w free) stop (rewrite from to t) t (Carried-expr t) in
          let others = rewrite_args-IsCarried (stop || stops from to x) gs c n o h k in
          elim (Bool-cases (is_var x w)) [
            | inl e ↦ rw e (
                in_hidden put_in _ _ _ _ _ first (λ p.
                  let d = stops-var from to w x e p in
                  let z = stopped_by (stop || stops from to x) gs (ground (arith, d)) in
                  nothing _ _ _ k z.0 z.1))
            | inr e ↦ rw e (in_shown put_in _ _ _ _ _ _ _ first others)
          ]

      rewrite_body-IsCarried :
          (b : Body)
          → (let r = rewrite_body from to b in
              carries put_in
                (has_value r)
                (occurs_in_body w free (choose r b))
                (occurs_in_body w free b)
              ≡ true)
      rewrite_body-IsCarried done = in_none put_in (occurs_in_body w free) _
      rewrite_body-IsCarried (stmt x b) =
          in_emplaced put_in (occurs_in_body w free) _ _ _
            (in_either put_in _ _ _ _ _ _ (rewrite_stmt-IsCarried x) (rewrite_body-IsCarried b))

      rewrite_stmt-IsCarried :
          (x : Stmt)
          → (let r = rewrite_stmt from to x in
              carries put_in
                (has_value r)
                (occurs_in_stmt w free (choose r x))
                (occurs_in_stmt w free x)
              ≡ true)
      rewrite_stmt-IsCarried (call f xs) =
          in_emplaced put_in (occurs_in_stmt w free) _ _ _
            (in_either_swapped put_in _ _ _ _ _ _ (Carried-expr f) (rewrite_exprs-IsCarried xs))
      rewrite_stmt-IsCarried (if_then c t) =
          in_emplaced put_in (occurs_in_stmt w free) _ _ _
            (in_either put_in _ _ _ _ _ _ (Carried-expr c) (rewrite_body-IsCarried t))
      rewrite_stmt-IsCarried (if_else c t f) = in_emplaced put_in (occurs_in_stmt w free) _ _ _ (
          in_either put_in _ _ _ _ _ _ (Carried-expr c)
            (in_either put_in _ _ _ _ _ _ (rewrite_body-IsCarried t) (rewrite_body-IsCarried f)))
      rewrite_stmt-IsCarried (return_value x) =
          in_emplaced put_in (occurs_in_stmt w free) _ _ _ (Carried-expr x)
      rewrite_stmt-IsCarried (impossible_because x) =
          in_emplaced put_in (occurs_in_stmt w free) _ _ _ (Carried-expr x)
      rewrite_stmt-IsCarried return_void = in_none put_in (occurs_in_stmt w free) _
      rewrite_stmt-IsCarried impossible = in_none put_in (occurs_in_stmt w free) _

-- When rewriting with `from = to` changes an expression, a variable that is free in `to` is free in the
-- result: it is never captured, and what is put in is there. A variable that is free in the result was free
-- in the expression or is free in `to`.
pub rewrite-frees :
    (from to x y : Expr) (w : Var)
    → rewrite from to x ≡ some y
    → (occurs_in w free to ≡ true → occurs_in w free y ≡ true)
      × (occurs_in w free y ≡ true → (occurs_in w free to || occurs_in w free x) ≡ true)
unfolding has_value choose
rewrite-frees from to x y w h =
    let c : IsCarried from to w (some y) x =
      subst (λ r. IsCarried from to w r x) h (Carried-expr from to w x) in
    carries-changed (occurs_in w free to) (occurs_in w free y) (occurs_in w free x) c
