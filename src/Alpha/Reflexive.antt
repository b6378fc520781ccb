-- ===== src/Alpha/Reflexive.antt =====
-- An expression compared with itself.
use depc.Prelude.{ℕ, zero, suc, ◌+◌, ◌≤◌, ◌≡◌, refl, Option, none, some, arith}
use depc.Ast.{
  Expr, expr, Value, atom, boolean_constant, numeric_constant, string_literal, boolean_not,
  boolean_expr, relation_expr, arith_expr, var, global, app, abs, pi, sigma, addressof, deref,
  scopeof, init_list, member, subscript, because, Exprs, no_exprs, more, Args, no_args, arg, Body,
  done, stmt, Stmt, call, if_then, if_else, return_void, return_value, impossible,
  impossible_because,
}
use depc.Ast.Index.{
  str_eq_refl, is_mutable_eq_refl, bool_eq_refl, int_eq_refl, optional_eq_refl, ==-refl,
}
use depc.Ast.Vars.{var_eq_refl}
use depc.Ast.Weight.{
  weight, weight_value, weight_exprs, weight_args, weight_body, weight_stmt, weight_optional,
  weight_pos, weight_value_pos, weight_exprs_pos, weight_args_pos, weight_body_pos, weight_stmt_pos,
}
use depc.Alpha.{
  equivalent, alpha, alpha_value, alpha_app, alpha_exprs, alpha_args, alpha_signature,
  alpha_optional, alpha_body, alpha_stmts, alpha_stmt, is_alpha_equivalent,
}
use depc.Alpha.Verdicts.{
  if_equivalent-both, require-true, explain-equivalent, match_names_same, match_arg_names_same,
}

mutual
  unfolding alpha weight weight_optional

  pub same : (n : ℕ) (x : Expr) → weight x + weight x ≤ n → alpha n x x ≡ equivalent
  same zero x h = absurd (omega (arith, weight_pos x))
  same (suc n) (expr s (because x r)) h = same n x (omega arith)
  same (suc n) (expr s x) h = same_value n x (omega arith)

  same_value :
      (n : ℕ) (x : Value) → weight_value x + weight_value x ≤ n → alpha_value n x x ≡ equivalent
  same_value zero x h = absurd (omega (arith, weight_value_pos x))
  same_value (suc n) (atom a) h = require-true _ _ (==-refl _)
  same_value (suc n) (boolean_constant a) h = require-true _ _ (bool_eq_refl a)
  same_value (suc n) (numeric_constant a) h = require-true _ _ (int_eq_refl a)
  same_value (suc n) (string_literal a) h = require-true _ _ (str_eq_refl a)
  same_value (suc n) (boolean_not x) h = same n x (omega arith)
  same_value (suc n) (boolean_expr o x y) h =
      if_equivalent-both _ _ (require-true _ _ (==-refl _))
        (if_equivalent-both _ _ (same n x (omega arith)) (same n y (omega arith)))
  same_value (suc n) (relation_expr o x y) h =
      if_equivalent-both _ _ (require-true _ _ (==-refl _))
        (if_equivalent-both _ _ (same n x (omega arith)) (same n y (omega arith)))
  same_value (suc n) (arith_expr o x y) h =
      if_equivalent-both _ _ (require-true _ _ (==-refl _))
        (if_equivalent-both _ _ (same n x (omega arith)) (same n y (omega arith)))
  same_value (suc n) (var x) h = require-true _ _ (var_eq_refl x)
  same_value (suc n) (global m x) h =
      if_equivalent-both _ _ (require-true _ _ (optional_eq_refl m))
        (require-true _ _ (str_eq_refl x))
  same_value (suc n) (app f xs) h = same_app n f xs (omega arith)
  same_value (suc n) (abs m gs x b) h =
      if_equivalent-both _ _ (require-true _ _ (is_mutable_eq_refl m)) (
        if_equivalent-both _ _ (require-true _ _ (==-refl _))
          (same_signature n 1 gs x (some b) (omega arith)))
  same_value (suc n) (pi m gs x) h =
      if_equivalent-both _ _ (require-true _ _ (is_mutable_eq_refl m)) (
        if_equivalent-both _ _ (require-true _ _ (==-refl _))
          (same_signature n 1 gs x none (omega arith)))
  same_value (suc n) (sigma gs) h =
      if_equivalent-both _ _ (require-true _ _ (==-refl _)) (same_args n 1 gs (omega arith))
  same_value (suc n) (addressof x) h = same n x (omega arith)
  same_value (suc n) (deref x) h = same n x (omega arith)
  same_value (suc n) (scopeof x i) h = same n x (omega arith)
  same_value (suc n) (init_list xs) h =
      if_equivalent-both _ _ (require-true _ _ (==-refl _)) (same_exprs n xs (omega arith))
  same_value (suc n) (member x f) h =
      if_equivalent-both _ _ (same n x (omega arith)) (require-true _ _ (str_eq_refl f))
  same_value (suc n) (subscript x i) h =
      if_equivalent-both _ _ (same n x (omega arith)) (same n i (omega arith))
  same_value (suc n) (because x r) h = same n x (omega arith)

  same_app :
      (n : ℕ) (f : Expr) (xs : Exprs)
      → weight f + weight_exprs xs + (weight f + weight_exprs xs) ≤ n
      → alpha_app n f xs f xs ≡ equivalent
  same_app zero f xs h = absurd (omega (arith, weight_pos f))
  same_app (suc n) f xs h = if_equivalent-both _ _ (require-true _ _ (==-refl _)) (
      if_equivalent-both _ _ (same n f (omega (arith, weight_exprs_pos xs)))
        (same_exprs n xs (omega (arith, weight_pos f))))

  same_exprs :
      (n : ℕ) (xs : Exprs)
      → weight_exprs xs + weight_exprs xs ≤ n
      → alpha_exprs n xs xs ≡ equivalent
  same_exprs zero xs h = absurd (omega (arith, weight_exprs_pos xs))
  same_exprs (suc n) no_exprs h = refl
  same_exprs (suc n) (more x xs) h =
      if_equivalent-both _ _ (same n x (omega arith)) (same_exprs n xs (omega arith))

  same_args :
      (n i : ℕ) (gs : Args)
      → weight_args gs + weight_args gs ≤ n
      → alpha_args n i gs gs ≡ equivalent
  same_args zero i gs h = absurd (omega (arith, weight_args_pos gs))
  same_args (suc n) i no_args h = refl
  same_args (suc n) i (arg q t x gs) h = rw (match_arg_names_same x gs) (
      if_equivalent-both _ _ (explain-equivalent _ _ (same n t (omega arith)))
        (if_equivalent-both _ _ refl (same_args n (suc i) gs (omega arith))))

  pub same_signature :
      (n i : ℕ) (gs : Args) (a : Expr) (b : Option Body)
      → 1
          + weight_args gs
          + weight a
          + weight_optional b
          + (1 + weight_args gs + weight a + weight_optional b)
        ≤ n
      → alpha_signature n i gs a b gs a b ≡ equivalent
  same_signature zero i gs a b h = absurd (omega (arith, weight_args_pos gs))
  same_signature (suc n) i no_args a b h =
      if_equivalent-both _ _ (explain-equivalent _ _ (same n a (omega arith)))
        (same_optional n b (omega arith))
  same_signature (suc n) i (arg q t x gs) a b h =
      rw (match_names_same x (record { args = gs; ret_type = a; body = b })) (
        if_equivalent-both _ _ (explain-equivalent _ _ (same n t (omega arith)))
          (if_equivalent-both _ _ refl (same_signature n (suc i) gs a b (omega arith))))

  same_optional :
      (n : ℕ) (b : Option Body)
      → weight_optional b + weight_optional b ≤ n
      → alpha_optional n b b ≡ equivalent
  same_optional zero none h = absurd (omega arith)
  same_optional zero (some b) h = absurd (omega arith)
  same_optional (suc n) none h = refl
  same_optional (suc n) (some b) h = same_body n b (omega arith)

  same_body : (n : ℕ) (b : Body) → weight_body b + weight_body b ≤ n → alpha_body n b b ≡ equivalent
  same_body zero b h = absurd (omega (arith, weight_body_pos b))
  same_body (suc n) b h =
      if_equivalent-both _ _ (require-true _ _ (==-refl _)) (same_stmts n b (omega arith))

  same_stmts :
      (n : ℕ) (b : Body) → weight_body b + weight_body b ≤ suc n → alpha_stmts n b b ≡ equivalent
  same_stmts zero b h = absurd (omega (arith, weight_body_pos b))
  same_stmts (suc n) done h = refl
  same_stmts (suc n) (stmt x b) h =
      if_equivalent-both _ _ (same_stmt n x (omega (arith, weight_body_pos b)))
        (same_stmts n b (omega (arith, weight_stmt_pos x)))

  same_stmt : (n : ℕ) (x : Stmt) → weight_stmt x + weight_stmt x ≤ n → alpha_stmt n x x ≡ equivalent
  same_stmt zero x h = absurd (omega (arith, weight_stmt_pos x))
  same_stmt (suc n) (call f xs) h = same_app n f xs (omega arith)
  same_stmt (suc n) (if_then x t) h =
      if_equivalent-both _ _ (same n x (omega arith)) (same_body n t (omega arith))
  same_stmt (suc n) (if_else x t f) h =
      if_equivalent-both _ _ (same n x (omega arith))
        (if_equivalent-both _ _ (same_body n t (omega arith)) (same_body n f (omega arith)))
  same_stmt (suc n) return_void h = refl
  same_stmt (suc n) (return_value x) h = same n x (omega arith)
  same_stmt (suc n) impossible h = refl
  same_stmt (suc n) (impossible_because x) h = refl

-- Every expression is alpha-equivalent to itself.
pub is_alpha_equivalent_refl : (x : Expr) → is_alpha_equivalent x x ≡ equivalent
unfolding is_alpha_equivalent
is_alpha_equivalent_refl x = same (weight x + weight x) x (omega arith)
