-- ===== src/Ast/Replace/Gone.antt =====
-- After a variable is replaced by another one it does not occur.
use depc.Prelude.{◌≡◌, refl, ◌≢◌, Bool, false, Option, none, some, arith}
use depc.Ast.{
  Var, var_eq, is_var, Expr, expr, Value, atom, boolean_constant, numeric_constant, string_literal,
  boolean_not, boolean_expr, relation_expr, arith_expr, var, global, app, abs, pi, sigma, addressof,
  deref, scopeof, init_list, member, subscript, because, Exprs, no_exprs, more, Args, no_args, arg,
  Body, done, stmt, Stmt, call, if_then, if_else, return_void, return_value, impossible,
  impossible_because,
}
use depc.Ast.Vars.{var_eq→eq, var_eq_ne}
use depc.Ast.OccursIn.{
  OccurrenceStyle, occurs_in, occurs_in_value, occurs_in_exprs, occurs_in_args, occurs_in_body,
  occurs_in_stmt,
}
use depc.Ast.Replace.{
  replace_var, replace_name, replace, replace_value, replace_exprs, replace_args, replace_body,
  replace_stmt,
}

module _ (a b : Var) (differ : a ≢ b) where
  gone_var : (x : Var) → var_eq (replace_var a b x) a ≡ false
  unfolding replace_var
  gone_var x = ground (arith, var_eq_ne b a, var_eq→eq b a)

  gone_name : (x : Option Var) → is_var (replace_name a b x) a ≡ false
  unfolding replace_name is_var
  gone_name none = refl
  gone_name (some x) = ground (arith, var_eq_ne b a, var_eq→eq b a)

module _ (a b : Var) (s : OccurrenceStyle) (differ : a ≢ b) where
  mutual
    unfolding occurs_in replace

    pub gone : (x : Expr) → occurs_in a s (replace a b x) ≡ false
    gone (expr p x) = ground (arith, gone_value x)

    gone_value : (x : Value) → occurs_in_value a s (replace_value a b x) ≡ false
    gone_value (boolean_not x) = ground (arith, gone x)
    gone_value (boolean_expr o x y) = ground (arith, gone x, gone y)
    gone_value (relation_expr o x y) = ground (arith, gone x, gone y)
    gone_value (arith_expr o x y) = ground (arith, gone x, gone y)
    gone_value (app x xs) = ground (arith, gone x, gone_exprs xs)
    gone_value (addressof x) = ground (arith, gone x)
    gone_value (deref x) = ground (arith, gone x)
    gone_value (scopeof x i) = ground (arith, gone x)
    gone_value (init_list xs) = ground (arith, gone_exprs xs)
    gone_value (member x f) = ground (arith, gone x)
    gone_value (subscript x i) = ground (arith, gone x, gone i)
    gone_value (because x r) = ground (arith, gone x, gone r)
    gone_value (atom a) = ground arith
    gone_value (boolean_constant a) = ground arith
    gone_value (numeric_constant a) = ground arith
    gone_value (string_literal a) = ground arith
    gone_value (global m a) = ground arith
    gone_value (var x) = gone_var a b differ x
    gone_value (abs m gs x d) = gone_args gs _ (ground (arith, gone x, gone_body d))
    gone_value (pi m gs x) = gone_args gs _ (gone x)
    gone_value (sigma gs) = gone_args gs false refl

    gone_exprs : (x : Exprs) → occurs_in_exprs a s (replace_exprs a b x) ≡ false
    gone_exprs no_exprs = ground arith
    gone_exprs (more x xs) = ground (arith, gone x, gone_exprs xs)

    pub gone_args :
        (gs : Args) (rest : Bool)
        → rest ≡ false
        → occurs_in_args a s (replace_args a b gs) rest ≡ false
    gone_args no_args rest h = h
    gone_args (arg q x n gs) rest h =
        ground (arith, gone x, gone_name a b differ n, gone_args gs rest)

    pub gone_body : (x : Body) → occurs_in_body a s (replace_body a b x) ≡ false
    gone_body done = ground arith
    gone_body (stmt x d) = ground (arith, gone_stmt x, gone_body d)

    gone_stmt : (x : Stmt) → occurs_in_stmt a s (replace_stmt a b x) ≡ false
    gone_stmt (call x xs) = ground (arith, gone x, gone_exprs xs)
    gone_stmt (if_then x t) = ground (arith, gone x, gone_body t)
    gone_stmt (if_else x t f) = ground (arith, gone x, gone_body t, gone_body f)
    gone_stmt (return_value x) = ground (arith, gone x)
    gone_stmt (impossible_because x) = ground (arith, gone x)
    gone_stmt return_void = ground arith
    gone_stmt impossible = ground arith
