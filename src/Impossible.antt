-- ===== src/Impossible.antt =====
-- dep0/lib/03_typecheck/src/is_impossible.cpp: does every path through a body meet `impossible`?
pub mod Complete
pub mod Leaves
pub mod Paths
pub mod Returns
pub mod Sound
pub mod Unsound
use depc.Prelude.{Bool, true, false, not, ◌&&◌, ◌||◌, if◌then◌else◌}
use depc.Ast.{
  Expr, expr, Value, atom, boolean_constant, numeric_constant, string_literal, boolean_not,
  boolean_expr, relation_expr, arith_expr, var, global, app, abs, pi, sigma, addressof, deref,
  scopeof, init_list, member, subscript, because, Exprs, no_exprs, more, Args, no_args, arg, Body,
  done, stmt, Stmt, call, if_then, if_else, return_void, return_value, impossible,
  impossible_because,
}

unfoldable mutual
  pub is_impossible_expr : Expr → Bool
  is_impossible_expr (expr _ x) = is_impossible_value x

  pub is_impossible_value : Value → Bool
  is_impossible_value (atom _) = false
  is_impossible_value (boolean_constant _) = false
  is_impossible_value (numeric_constant _) = false
  is_impossible_value (string_literal _) = false
  is_impossible_value (boolean_not x) = is_impossible_expr x
  is_impossible_value (boolean_expr _ x y) = is_impossible_expr x || is_impossible_expr y
  is_impossible_value (relation_expr _ x y) = is_impossible_expr x || is_impossible_expr y
  is_impossible_value (arith_expr _ x y) = is_impossible_expr x || is_impossible_expr y
  is_impossible_value (var _) = false
  is_impossible_value (global _ _) = false
  is_impossible_value (app f xs) =
      is_impossible_expr f || (is_impossible_lambda f || is_impossible_exprs xs)
  is_impossible_value (abs _ gs ret _) = is_impossible_args gs || is_impossible_expr ret
  is_impossible_value (pi _ gs ret) = is_impossible_args gs || is_impossible_expr ret
  is_impossible_value (sigma gs) = is_impossible_args gs
  is_impossible_value (addressof x) = is_impossible_expr x
  is_impossible_value (deref x) = is_impossible_expr x
  is_impossible_value (scopeof _ _) = false
  is_impossible_value (init_list xs) = is_impossible_exprs xs
  is_impossible_value (member x _) = is_impossible_expr x
  is_impossible_value (subscript x i) = is_impossible_expr x || is_impossible_expr i
  is_impossible_value (because x _) = is_impossible_expr x

  -- `std::get_if<expr_t::abs_t>(&x.func.get().value)` with an impossible body.
  pub is_impossible_lambda : Expr → Bool
  is_impossible_lambda (expr _ x) = is_impossible_lambda_value x

  pub is_impossible_lambda_value : Value → Bool
  is_impossible_lambda_value (abs _ _ _ b) = is_impossible b
  is_impossible_lambda_value _ = false

  pub is_impossible_exprs : Exprs → Bool
  is_impossible_exprs no_exprs = false
  is_impossible_exprs (more x xs) = is_impossible_expr x || is_impossible_exprs xs

  pub is_impossible_args : Args → Bool
  is_impossible_args no_args = false
  is_impossible_args (arg _ t _ gs) = is_impossible_expr t || is_impossible_args gs

  pub is_impossible_stmt : Stmt → Bool
  is_impossible_stmt (call f xs) =
      is_impossible_expr f || (is_impossible_lambda f || is_impossible_exprs xs)
  is_impossible_stmt (if_then c _) = is_impossible_expr c
  is_impossible_stmt (if_else c t f) = is_impossible_expr c || (is_impossible t && is_impossible f)
  is_impossible_stmt return_void = false
  is_impossible_stmt (return_value x) = is_impossible_expr x
  is_impossible_stmt impossible = true
  is_impossible_stmt (impossible_because _) = true

  -- An `if` without else whose condition and branch are possible.
  pub is_possible_if : Stmt → Bool
  is_possible_if (if_then c t) = not (is_impossible_expr c) && not (is_impossible t)
  is_possible_if _ = false

  -- The loop over the statements.
  pub is_impossible : Body → Bool
  is_impossible done = false
  is_impossible (stmt x b) =
      let rest = is_impossible b in
      if is_impossible_stmt x then true else if is_possible_if x then false else rest
