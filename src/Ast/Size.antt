-- ===== src/Ast/Size.antt =====
-- dep0/lib/01_ast/include/dep0/ast/size_impl.hpp: the size of an expression, its longest branch.
use depc.Prelude.{ℕ, ◌+◌, max}
use depc.Ast.{
  Expr, expr, Value, atom, boolean_constant, numeric_constant, string_literal, boolean_not,
  boolean_expr, relation_expr, arith_expr, var, global, app, abs, pi, sigma, addressof, deref,
  scopeof, init_list, member, subscript, because, Exprs, no_exprs, more, Args, no_args, arg, Body,
  done, stmt, Stmt, call, if_then, if_else, return_void, return_value, impossible,
  impossible_because,
}

unfoldable mutual
  pub size : Expr → ℕ
  size (expr _ x) = size_value x

  pub size_value : Value → ℕ
  size_value (atom _) = 0
  size_value (boolean_constant _) = 0
  size_value (numeric_constant _) = 0
  size_value (string_literal _) = 0
  size_value (boolean_not x) = 1 + size x
  size_value (boolean_expr _ x y) = 1 + max (size x) (size y)
  size_value (relation_expr _ x y) = 1 + max (size x) (size y)
  size_value (arith_expr _ x y) = 1 + max (size x) (size y)
  size_value (var _) = 0
  size_value (global _ _) = 0
  size_value (app f xs) = 1 + size_exprs (size f) xs
  size_value (abs _ gs ret b) = 1 + size_args (max (size ret) (size_body 0 b)) gs
  size_value (pi _ gs ret) = 1 + size_args (max (size ret) 0) gs
  size_value (sigma gs) = 1 + size_args 0 gs
  size_value (addressof x) = 1 + size x
  size_value (deref x) = 1 + size x
  size_value (scopeof x _) = 1 + size x
  size_value (init_list xs) = 1 + size_exprs 0 xs
  size_value (member x _) = 1 + size x
  size_value (subscript x i) = 1 + max (size x) (size i)
  size_value (because x r) = 1 + max (size x) (size r)

  -- `std::accumulate`, from `acc`
  pub size_exprs : ℕ → Exprs → ℕ
  size_exprs acc no_exprs = acc
  size_exprs acc (more x xs) = size_exprs (max acc (size x)) xs

  pub size_args : ℕ → Args → ℕ
  size_args acc no_args = acc
  size_args acc (arg _ t _ gs) = size_args (max acc (size t)) gs

  pub size_body : ℕ → Body → ℕ
  size_body acc done = acc
  size_body acc (stmt x b) = size_body (max acc (size_stmt x)) b

  pub size_stmt : Stmt → ℕ
  size_stmt (call f xs) = 1 + size_exprs (size f) xs
  size_stmt (if_then c t) = 1 + max (size c) (max (size_body 0 t) 0)
  size_stmt (if_else c t f) = 1 + max (size c) (max (size_body 0 t) (size_body 0 f))
  size_stmt return_void = 1
  size_stmt (return_value x) = 1 + size x
  size_stmt impossible = 1
  size_stmt (impossible_because x) = 1 + size x
