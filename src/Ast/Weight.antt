-- ===== src/Ast/Weight.antt =====
-- The number of nodes of a tree, sorts included: the fuel that substitution starts with.
pub mod Replace
use depc.Prelude.{ℕ, ◌+◌, ◌<◌, Option, none, some, arith}
use depc.Ast.{
  Expr, expr, Sort, type, kind, Value, atom, boolean_constant, numeric_constant, string_literal,
  boolean_not, boolean_expr, relation_expr, arith_expr, var, global, app, abs, pi, sigma, addressof,
  deref, scopeof, init_list, member, subscript, because, Exprs, no_exprs, more, Args, no_args, arg,
  Body, done, stmt, Stmt, call, if_then, if_else, return_void, return_value, impossible,
  impossible_because, Signature,
}

unfoldable mutual
  pub weight : Expr → ℕ
  weight (expr s x) = 1 + weight_sort s + weight_value x

  pub weight_sort : Sort → ℕ
  weight_sort (type t) = 1 + weight t
  weight_sort kind = 1

  pub weight_value : Value → ℕ
  weight_value (atom _) = 1
  weight_value (boolean_constant _) = 1
  weight_value (numeric_constant _) = 1
  weight_value (string_literal _) = 1
  weight_value (boolean_not x) = 1 + weight x
  weight_value (boolean_expr _ x y) = 1 + weight x + weight y
  weight_value (relation_expr _ x y) = 1 + weight x + weight y
  weight_value (arith_expr _ x y) = 1 + weight x + weight y
  weight_value (var _) = 1
  weight_value (global _ _) = 1
  weight_value (app f xs) = 1 + weight f + weight_exprs xs
  weight_value (abs _ gs ret b) = 2 + weight_args gs + weight ret + (1 + weight_body b)
  weight_value (pi _ gs ret) = 2 + weight_args gs + weight ret + 1
  weight_value (sigma gs) = 1 + weight_args gs
  weight_value (addressof x) = 1 + weight x
  weight_value (deref x) = 1 + weight x
  weight_value (scopeof x _) = 1 + weight x
  weight_value (init_list xs) = 1 + weight_exprs xs
  weight_value (member x _) = 1 + weight x
  weight_value (subscript x i) = 1 + weight x + weight i
  weight_value (because x r) = 1 + weight x + weight r

  pub weight_exprs : Exprs → ℕ
  weight_exprs no_exprs = 1
  weight_exprs (more x xs) = 1 + weight x + weight_exprs xs

  pub weight_args : Args → ℕ
  weight_args no_args = 1
  weight_args (arg _ t _ gs) = 1 + weight t + weight_args gs

  pub weight_body : Body → ℕ
  weight_body done = 1
  weight_body (stmt x b) = 1 + weight_stmt x + weight_body b

  pub weight_stmt : Stmt → ℕ
  weight_stmt (call f xs) = 1 + weight f + weight_exprs xs
  weight_stmt (if_then c t) = 1 + weight c + weight_body t
  weight_stmt (if_else c t f) = 1 + weight c + weight_body t + weight_body f
  weight_stmt return_void = 1
  weight_stmt (return_value x) = 1 + weight x
  weight_stmt impossible = 1
  weight_stmt (impossible_because x) = 1 + weight x

unfoldable pub weight_optional : Option Body → ℕ
unfolding weight
weight_optional none = 1
weight_optional (some b) = 1 + weight_body b

unfoldable pub weight_signature : Signature → ℕ
unfolding weight weight_optional
weight_signature g = 1 + weight_args g.args + weight g.ret_type + weight_optional g.body

mutual
  unfolding weight

  pub weight_pos : (x : Expr) → 0 < weight x
  weight_pos (expr s x) = omega arith

  pub weight_sort_pos : (s : Sort) → 0 < weight_sort s
  weight_sort_pos (type t) = omega arith
  weight_sort_pos kind = omega arith

  pub weight_value_pos : (x : Value) → 0 < weight_value x
  weight_value_pos (atom _) = omega arith
  weight_value_pos _ = omega arith

  pub weight_exprs_pos : (xs : Exprs) → 0 < weight_exprs xs
  weight_exprs_pos no_exprs = omega arith
  weight_exprs_pos (more x xs) = omega arith

  pub weight_args_pos : (gs : Args) → 0 < weight_args gs
  weight_args_pos no_args = omega arith
  weight_args_pos (arg q t x gs) = omega arith

  pub weight_body_pos : (b : Body) → 0 < weight_body b
  weight_body_pos done = omega arith
  weight_body_pos (stmt x b) = omega arith

  pub weight_stmt_pos : (x : Stmt) → 0 < weight_stmt x
  weight_stmt_pos return_void = omega arith
  weight_stmt_pos _ = omega arith
