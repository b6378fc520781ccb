-- ===== src/Ast/Replace.antt =====
-- dep0/lib/01_ast/include/dep0/ast/replace_impl.hpp: replace a variable name by another one, wherever
-- it occurs. Sorts are not looked into.
pub mod Absent
pub mod Chain
pub mod ChainWhole
pub mod Gone
pub mod Kept
pub mod Size
pub mod Undo
pub mod Whole
use depc.Prelude.{Option, none, some, if◌then◌else◌}
use depc.Ast.{
  Var, var_eq, is_var, Expr, expr, Value, atom, boolean_constant, numeric_constant, string_literal,
  boolean_not, boolean_expr, relation_expr, arith_expr, var, global, app, abs, pi, sigma, addressof,
  deref, scopeof, init_list, member, subscript, because, Exprs, no_exprs, more, Args, no_args, arg,
  Body, done, stmt, Stmt, call, if_then, if_else, return_void, return_value, impossible,
  impossible_because, Signature,
}

-- `if (v == from) v = to`
unfoldable pub replace_var : Var → Var → Var → Var
replace_var from to v = if var_eq v from then to else v

-- `if (arg.var == from) arg.var = to`
unfoldable pub replace_name : Var → Var → Option Var → Option Var
replace_name from to x = if is_var x from then some to else x

unfoldable mutual
  pub replace : Var → Var → Expr → Expr
  replace a b (expr s x) = expr s (replace_value a b x)

  pub replace_value : Var → Var → Value → Value
  replace_value a b (atom x) = atom x
  replace_value a b (boolean_constant x) = boolean_constant x
  replace_value a b (numeric_constant x) = numeric_constant x
  replace_value a b (string_literal x) = string_literal x
  replace_value a b (boolean_not x) = boolean_not (replace a b x)
  replace_value a b (boolean_expr o x y) = boolean_expr o (replace a b x) (replace a b y)
  replace_value a b (relation_expr o x y) = relation_expr o (replace a b x) (replace a b y)
  replace_value a b (arith_expr o x y) = arith_expr o (replace a b x) (replace a b y)
  replace_value a b (var x) = var (replace_var a b x)
  replace_value a b (global m x) = global m x
  replace_value a b (app f xs) = app (replace a b f) (replace_exprs a b xs)
  replace_value a b (abs m gs ret body) =
      abs m (replace_args a b gs) (replace a b ret) (replace_body a b body)
  replace_value a b (pi m gs ret) = pi m (replace_args a b gs) (replace a b ret)
  replace_value a b (sigma gs) = sigma (replace_args a b gs)
  replace_value a b (addressof x) = addressof (replace a b x)
  replace_value a b (deref x) = deref (replace a b x)
  replace_value a b (scopeof x i) = scopeof (replace a b x) i
  replace_value a b (init_list xs) = init_list (replace_exprs a b xs)
  replace_value a b (member x f) = member (replace a b x) f
  replace_value a b (subscript x i) = subscript (replace a b x) (replace a b i)
  replace_value a b (because x r) = because (replace a b x) (replace a b r)

  pub replace_exprs : Var → Var → Exprs → Exprs
  replace_exprs a b no_exprs = no_exprs
  replace_exprs a b (more x xs) = more (replace a b x) (replace_exprs a b xs)

  pub replace_args : Var → Var → Args → Args
  replace_args a b no_args = no_args
  replace_args a b (arg q t x gs) = arg q (replace a b t) (replace_name a b x) (replace_args a b gs)

  pub replace_body : Var → Var → Body → Body
  replace_body a b done = done
  replace_body a b (stmt x r) = stmt (replace_stmt a b x) (replace_body a b r)

  pub replace_stmt : Var → Var → Stmt → Stmt
  replace_stmt a b (call f xs) = call (replace a b f) (replace_exprs a b xs)
  replace_stmt a b (if_then c t) = if_then (replace a b c) (replace_body a b t)
  replace_stmt a b (if_else c t f) =
      if_else (replace a b c) (replace_body a b t) (replace_body a b f)
  replace_stmt a b return_void = return_void
  replace_stmt a b (return_value x) = return_value (replace a b x)
  replace_stmt a b impossible = impossible
  replace_stmt a b (impossible_because x) = impossible_because (replace a b x)

-- `if (body) impl::replace(from, to, *body)`
unfoldable pub replace_optional : Var → Var → Option Body → Option Body
unfolding replace
replace_optional a b none = none
replace_optional a b (some body) = some (replace_body a b body)

-- The overload on arguments, return type and body.
unfoldable pub replace_signature : Var → Var → Signature → Signature
unfolding replace replace_optional
replace_signature a b g = record {
  args = replace_args a b g.args;
  ret_type = replace a b g.ret_type;
  body = replace_optional a b g.body;
}
