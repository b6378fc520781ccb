-- ===== src/Substitute/Fuel.antt =====
-- The fuel of the model of substitute.cpp.
use depc.Prelude.{ℕ, zero, suc, ◌+◌, ◌≤◌, ◌≡◌, refl, ap, ◌∙◌, Option, none, some, arith}
use depc.Ast.{
  Var, Expr, expr, Sort, type, kind, Value, atom, boolean_constant, numeric_constant,
  string_literal, boolean_not, boolean_expr, relation_expr, arith_expr, var, global, app, abs, pi,
  sigma, addressof, deref, scopeof, init_list, member, subscript, because, Exprs, no_exprs, more,
  Args, no_args, arg, Body, done, stmt, Stmt, call, if_then, if_else, return_void, return_value,
  impossible, impossible_because, Signature,
}
use depc.Ast.Weight.{
  weight, weight_sort, weight_value, weight_exprs, weight_args, weight_body, weight_stmt,
  weight_optional, weight_signature, weight_pos, weight_sort_pos, weight_value_pos,
  weight_exprs_pos, weight_args_pos, weight_body_pos, weight_stmt_pos,
}
use depc.Substitute.{
  avoid_capture, avoid_capture_args, function, substitute, substitute_sort, substitute_value,
  substitute_exprs, substitute_args, substitute_signature, substitute_optional, substitute_body,
  substitute_stmt, substitute_expr, substitute_in,
}
use Prim.Native.Nat.add
use native.Mathlib.Nat.{zero-add}
use depc.Substitute.Avoid.{weight_avoid, weight_avoid_args}

module _ (v : Var) (y : Expr) where
  mutual
    unfolding substitute weight weight_optional weight_signature

    more_fuel : (n : ℕ) (x : Expr) → weight x ≤ n → substitute (suc n) v y x ≡ substitute n v y x
    more_fuel zero x h = absurd (omega (arith, weight_pos x))
    more_fuel (suc n) (expr s x) h =
        ap (λ s. substitute_value (suc n) v y s x) (more_fuel_sort n s (omega arith))
        ∙ more_fuel_value n (substitute_sort n v y s) x (omega arith)

    more_fuel_sort :
        (n : ℕ) (s : Sort)
        → weight_sort s ≤ n
        → substitute_sort (suc n) v y s ≡ substitute_sort n v y s
    more_fuel_sort zero s h = absurd (omega (arith, weight_sort_pos s))
    more_fuel_sort (suc n) (type t) h = ap type (more_fuel n t (omega arith))
    more_fuel_sort (suc n) kind h = refl

    more_fuel_value :
        (n : ℕ) (s : Sort) (x : Value)
        → weight_value x ≤ n
        → substitute_value (suc n) v y s x ≡ substitute_value n v y s x
    more_fuel_value zero s x h = absurd (omega (arith, weight_value_pos x))
    more_fuel_value (suc n) s (boolean_not x) h = ground (arith, more_fuel n x)
    more_fuel_value (suc n) s (boolean_expr o x y) h = ground (arith, more_fuel n x, more_fuel n y)
    more_fuel_value (suc n) s (relation_expr o x y) h = ground (arith, more_fuel n x, more_fuel n y)
    more_fuel_value (suc n) s (arith_expr o x y) h = ground (arith, more_fuel n x, more_fuel n y)
    more_fuel_value (suc n) s (app x xs) h = ground (arith, more_fuel n x, more_fuel_exprs n xs)
    more_fuel_value (suc n) s (addressof x) h = ground (arith, more_fuel n x)
    more_fuel_value (suc n) s (deref x) h = ground (arith, more_fuel n x)
    more_fuel_value (suc n) s (scopeof x i) h = ground (arith, more_fuel n x)
    more_fuel_value (suc n) s (init_list xs) h = ground (arith, more_fuel_exprs n xs)
    more_fuel_value (suc n) s (member x f) h = ground (arith, more_fuel n x)
    more_fuel_value (suc n) s (subscript x i) h = ground (arith, more_fuel n x, more_fuel n i)
    more_fuel_value (suc n) s (because x r) h = ground (arith, more_fuel n x, more_fuel n r)
    more_fuel_value (suc n) s (atom a) h = ground arith
    more_fuel_value (suc n) s (boolean_constant a) h = ground arith
    more_fuel_value (suc n) s (numeric_constant a) h = ground arith
    more_fuel_value (suc n) s (string_literal a) h = ground arith
    more_fuel_value (suc n) s (global m a) h = ground arith
    more_fuel_value (suc n) s (var x) h = refl
    more_fuel_value (suc n) s (abs m gs x d) h =
        ap (λ g. expr s (function m g)) (more_fuel_signature n gs x (some d) (omega arith))
    more_fuel_value (suc n) s (pi m gs x) h =
        ap (λ g. expr s (function m g)) (more_fuel_signature n gs x none (omega arith))
    more_fuel_value (suc n) s (sigma gs) h =
        ap (λ g. expr s (sigma g)) (more_fuel_args n gs (omega arith))

    more_fuel_exprs :
        (n : ℕ) (xs : Exprs)
        → weight_exprs xs ≤ n
        → substitute_exprs (suc n) v y xs ≡ substitute_exprs n v y xs
    more_fuel_exprs zero xs h = absurd (omega (arith, weight_exprs_pos xs))
    more_fuel_exprs (suc n) no_exprs h = ground arith
    more_fuel_exprs (suc n) (more x xs) h = ground (arith, more_fuel n x, more_fuel_exprs n xs)

    pub more_fuel_args :
        (n : ℕ) (gs : Args)
        → weight_args gs ≤ n
        → substitute_args (suc n) v y gs ≡ substitute_args n v y gs
    more_fuel_args zero gs h = absurd (omega (arith, weight_args_pos gs))
    more_fuel_args (suc n) no_args h = ground arith
    more_fuel_args (suc n) (arg q t x gs) h =
        let g = (avoid_capture_args y x gs).1 in
        ground (arith, more_fuel n t, more_fuel_args n g, weight_avoid_args y x gs)

    more_fuel_signature :
        (n : ℕ) (gs : Args) (ret : Expr) (d : Option Body)
        → 1 + weight_args gs + weight ret + weight_optional d ≤ n
        → substitute_signature (suc n) v y gs ret d ≡ substitute_signature n v y gs ret d
    more_fuel_signature zero gs ret d h = absurd (omega (arith, weight_args_pos gs))
    more_fuel_signature (suc n) no_args ret d h =
        ground (arith, more_fuel n ret, more_fuel_optional n d)
    more_fuel_signature (suc n) (arg q t x gs) ret d h =
        let old : Signature = record { args = gs; ret_type = ret; body = d } in
        let g = (avoid_capture y x old).1 in
        ground (
          arith,
          more_fuel n t,
          more_fuel_signature n g.args g.ret_type g.body,
          weight_avoid y x old,
        )

    more_fuel_optional :
        (n : ℕ) (d : Option Body)
        → weight_optional d ≤ n
        → substitute_optional (suc n) v y d ≡ substitute_optional n v y d
    more_fuel_optional zero none h = absurd (omega arith)
    more_fuel_optional zero (some d) h = absurd (omega arith)
    more_fuel_optional (suc n) none h = ground arith
    more_fuel_optional (suc n) (some d) h = ap some (more_fuel_body n d (omega arith))

    more_fuel_body :
        (n : ℕ) (d : Body)
        → weight_body d ≤ n
        → substitute_body (suc n) v y d ≡ substitute_body n v y d
    more_fuel_body zero d h = absurd (omega (arith, weight_body_pos d))
    more_fuel_body (suc n) done h = ground arith
    more_fuel_body (suc n) (stmt x d) h = ground (arith, more_fuel_stmt n x, more_fuel_body n d)

    more_fuel_stmt :
        (n : ℕ) (x : Stmt)
        → weight_stmt x ≤ n
        → substitute_stmt (suc n) v y x ≡ substitute_stmt n v y x
    more_fuel_stmt zero x h = absurd (omega (arith, weight_stmt_pos x))
    more_fuel_stmt (suc n) (call x xs) h = ground (arith, more_fuel n x, more_fuel_exprs n xs)
    more_fuel_stmt (suc n) (if_then x t) h = ground (arith, more_fuel n x, more_fuel_body n t)
    more_fuel_stmt (suc n) (if_else x t f) h =
        ground (arith, more_fuel n x, more_fuel_body n t, more_fuel_body n f)
    more_fuel_stmt (suc n) (return_value x) h = ground (arith, more_fuel n x)
    more_fuel_stmt (suc n) (impossible_because x) h = ground (arith, more_fuel n x)
    more_fuel_stmt (suc n) return_void h = ground arith
    more_fuel_stmt (suc n) impossible h = ground arith

  any_fuel_signature :
      (k : ℕ) (g : Signature)
      → substitute_signature (k + weight_signature g) v y g.args g.ret_type g.body
        ≡ substitute_signature (weight_signature g) v y g.args g.ret_type g.body
  unfolding weight_signature
  any_fuel_signature zero g = rw zero-add
  any_fuel_signature (suc k) g = rw (add.suc) (
      more_fuel_signature (k + weight_signature g) g.args g.ret_type g.body (omega arith)
      ∙ any_fuel_signature k g)

  any_fuel : (k : ℕ) (x : Expr) → substitute (k + weight x) v y x ≡ substitute (weight x) v y x
  any_fuel zero x = rw zero-add
  any_fuel (suc k) x = rw (add.suc) (more_fuel (k + weight x) x (omega arith) ∙ any_fuel k x)

-- Substitution runs to its end: with any more fuel than the weight that `substitute_expr` and
-- `substitute_in` start with, the result is the same.
pub substitute-enough_fuel :
    (v : Var) (y : Expr) (k : ℕ) (x : Expr) (g : Signature)
    → (substitute (k + weight x) v y x ≡ substitute_expr v y x)
      × (substitute_signature (k + weight_signature g) v y g.args g.ret_type g.body
          ≡ substitute_in v y g)
unfolding substitute_expr substitute_in
substitute-enough_fuel v y k x g = (any_fuel v y k x, any_fuel_signature v y k g)
