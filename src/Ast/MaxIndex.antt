-- ===== src/Ast/MaxIndex.antt =====
-- dep0/lib/01_ast/include/dep0/ast/max_index_impl.hpp: the highest rename index in an expression.
pub mod Bounds
use depc.Prelude.{ℕ, max, Option, none, some}
use depc.Ast.{
  Var, Expr, expr, Value, atom, boolean_constant, numeric_constant, string_literal, boolean_not,
  boolean_expr, relation_expr, arith_expr, var, global, app, abs, pi, sigma, addressof, deref,
  scopeof, init_list, member, subscript, because, Exprs, no_exprs, more, Args, no_args, arg, Body,
  done, stmt, Stmt, call, if_then, if_else, return_void, return_value, impossible,
  impossible_because, Signature,
}

-- `x.var ? x.var->idx : 0ul`
abbrev pub optional_idx : Option Var → ℕ
optional_idx none = 0
optional_idx (some x) = x.idx

unfoldable mutual
  pub max_index : Expr → ℕ
  max_index (expr _ x) = max_index_value x

  pub max_index_value : Value → ℕ
  max_index_value (atom _) = 0
  max_index_value (boolean_constant _) = 0
  max_index_value (numeric_constant _) = 0
  max_index_value (string_literal _) = 0
  max_index_value (boolean_not x) = max_index x
  max_index_value (boolean_expr _ x y) = max (max_index x) (max_index y)
  max_index_value (relation_expr _ x y) = max (max_index x) (max_index y)
  max_index_value (arith_expr _ x y) = max (max_index x) (max_index y)
  max_index_value (var x) = x.idx
  max_index_value (global _ _) = 0
  max_index_value (app f xs) = max_index_exprs (max_index f) xs
  max_index_value (abs _ gs ret b) = max_index_args (max (max_index ret) (max_index_body 0 b)) gs
  max_index_value (pi _ gs ret) = max_index_args (max (max_index ret) 0) gs
  max_index_value (sigma gs) = max_index_args 0 gs
  max_index_value (addressof x) = max_index x
  max_index_value (deref x) = max_index x
  max_index_value (scopeof x _) = max_index x
  max_index_value (init_list xs) = max_index_exprs 0 xs
  max_index_value (member x _) = max_index x
  max_index_value (subscript x i) = max (max_index x) (max_index i)
  max_index_value (because x r) = max (max_index x) (max_index r)

  -- `std::accumulate`, from `acc`
  pub max_index_exprs : ℕ → Exprs → ℕ
  max_index_exprs acc no_exprs = acc
  max_index_exprs acc (more x xs) = max_index_exprs (max acc (max_index x)) xs

  pub max_index_args : ℕ → Args → ℕ
  max_index_args acc no_args = acc
  max_index_args acc (arg _ t x gs) =
      max_index_args (max acc (max (max_index t) (optional_idx x))) gs

  pub max_index_body : ℕ → Body → ℕ
  max_index_body acc done = acc
  max_index_body acc (stmt x b) = max_index_body (max acc (max_index_stmt x)) b

  pub max_index_stmt : Stmt → ℕ
  max_index_stmt (call f xs) = max_index_exprs (max_index f) xs
  max_index_stmt (if_then c t) = max (max_index c) (max (max_index_body 0 t) 0)
  max_index_stmt (if_else c t f) = max (max_index c) (max (max_index_body 0 t) (max_index_body 0 f))
  max_index_stmt return_void = 0
  max_index_stmt (return_value x) = max_index x
  max_index_stmt impossible = 0
  max_index_stmt (impossible_because x) = max_index x

-- `body ? impl::max_index(*body) : 0ul`
unfoldable pub max_index_optional : Option Body → ℕ
unfolding max_index
max_index_optional none = 0
max_index_optional (some b) = max_index_body 0 b

-- The overload on arguments, return type and body.
unfoldable pub max_index_signature : Signature → ℕ
unfolding max_index max_index_optional
max_index_signature g =
    max_index_args (max (max_index g.ret_type) (max_index_optional g.body)) g.args
