-- ===== src/Ast/Replace/Chain.antt =====
-- Replacing a variable by another, and that one by a third.
use depc.Prelude.{◌≡◌, refl, ap, Bool, false, ◌||◌, ◌&&◌, Option, none, some, arith}
use depc.Ast.{
  Var, var_eq, is_var, Expr, expr, Value, atom, boolean_constant, numeric_constant, string_literal,
  boolean_not, boolean_expr, relation_expr, arith_expr, var, global, app, abs, pi, sigma, addressof,
  deref, scopeof, init_list, member, subscript, because, Exprs, no_exprs, more, Args, no_args, arg,
  Body, done, stmt, Stmt, call, if_then, if_else, return_void, return_value, impossible,
  impossible_because,
}
use depc.Ast.Vars.{var_eq_refl, var_eq→eq}
use depc.Ast.OccursIn.{
  anywhere, occurs_in, occurs_in_value, occurs_in_exprs, occurs_in_args, occurs_in_body,
  occurs_in_stmt,
}
use depc.Ast.Replace.Undo.{rest_false}
use depc.Ast.Replace.{
  replace_var, replace_name, replace, replace_value, replace_exprs, replace_args, replace_body,
  replace_stmt,
}

module _ (a b c : Var) (d : Bool) (k : d ≡ false → a ≡ b) where
  chain_var :
      (x : Var)
      → (var_eq x b && d) ≡ false
      → replace_var b c (replace_var a b x) ≡ replace_var a c x
  unfolding replace_var
  chain_var x h = ground (arith, var_eq→eq x a, var_eq→eq x b, var_eq_refl a, var_eq_refl b, k)

  chain_name :
      (x : Option Var)
      → (is_var x b && d) ≡ false
      → replace_name b c (replace_name a b x) ≡ replace_name a c x
  unfolding replace_name is_var
  chain_name none h = refl
  chain_name (some x) h =
      ground (arith, var_eq→eq x a, var_eq→eq x b, var_eq_refl a, var_eq_refl b, k)

module _ (a b c : Var) (d : Bool) (k : d ≡ false → a ≡ b) where
  mutual
    unfolding occurs_in replace

    pub chain :
        (x : Expr)
        → (occurs_in b anywhere x && d) ≡ false
        → replace b c (replace a b x) ≡ replace a c x
    chain (expr p x) h = ground (arith, chain_value x)

    chain_value :
        (x : Value)
        → (occurs_in_value b anywhere x && d) ≡ false
        → replace_value b c (replace_value a b x) ≡ replace_value a c x
    chain_value (boolean_not x) h = ground (arith, chain x)
    chain_value (boolean_expr o x y) h = ground (arith, chain x, chain y)
    chain_value (relation_expr o x y) h = ground (arith, chain x, chain y)
    chain_value (arith_expr o x y) h = ground (arith, chain x, chain y)
    chain_value (app x xs) h = ground (arith, chain x, chain_exprs xs)
    chain_value (addressof x) h = ground (arith, chain x)
    chain_value (deref x) h = ground (arith, chain x)
    chain_value (scopeof x i) h = ground (arith, chain x)
    chain_value (init_list xs) h = ground (arith, chain_exprs xs)
    chain_value (member x f) h = ground (arith, chain x)
    chain_value (subscript x i) h = ground (arith, chain x, chain i)
    chain_value (because x r) h = ground (arith, chain x, chain r)
    chain_value (atom a) h = ground arith
    chain_value (boolean_constant a) h = ground arith
    chain_value (numeric_constant a) h = ground arith
    chain_value (string_literal a) h = ground arith
    chain_value (global m a) h = ground arith
    chain_value (var x) h = ap var (chain_var a b c d k x h)
    chain_value (abs m gs x d) h = ground (
      arith,
      chain_args gs (occurs_in b anywhere x || occurs_in_body b anywhere d),
      rest_false b gs (occurs_in b anywhere x || occurs_in_body b anywhere d),
      chain x,
      chain_body d,
    )
    chain_value (pi m gs x) h = ground (
      arith,
      chain_args gs (occurs_in b anywhere x),
      rest_false b gs (occurs_in b anywhere x),
      chain x,
    )
    chain_value (sigma gs) h = ap sigma (chain_args gs false h)

    chain_exprs :
        (x : Exprs)
        → (occurs_in_exprs b anywhere x && d) ≡ false
        → replace_exprs b c (replace_exprs a b x) ≡ replace_exprs a c x
    chain_exprs no_exprs h = ground arith
    chain_exprs (more x xs) h = ground (arith, chain x, chain_exprs xs)

    pub chain_args :
        (gs : Args) (rest : Bool)
        → (occurs_in_args b anywhere gs rest && d) ≡ false
        → replace_args b c (replace_args a b gs) ≡ replace_args a c gs
    chain_args no_args rest h = refl
    chain_args (arg q x n gs) rest h =
        ground (arith, chain x, chain_name a b c d k n, chain_args gs rest)

    pub chain_body :
        (x : Body)
        → (occurs_in_body b anywhere x && d) ≡ false
        → replace_body b c (replace_body a b x) ≡ replace_body a c x
    chain_body done h = ground arith
    chain_body (stmt x d) h = ground (arith, chain_stmt x, chain_body d)

    chain_stmt :
        (x : Stmt)
        → (occurs_in_stmt b anywhere x && d) ≡ false
        → replace_stmt b c (replace_stmt a b x) ≡ replace_stmt a c x
    chain_stmt (call x xs) h = ground (arith, chain x, chain_exprs xs)
    chain_stmt (if_then x t) h = ground (arith, chain x, chain_body t)
    chain_stmt (if_else x t f) h = ground (arith, chain x, chain_body t, chain_body f)
    chain_stmt (return_value x) h = ground (arith, chain x)
    chain_stmt (impossible_because x) h = ground (arith, chain x)
    chain_stmt return_void h = ground arith
    chain_stmt impossible h = ground arith
