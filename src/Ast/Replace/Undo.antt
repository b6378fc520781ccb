-- ===== src/Ast/Replace/Undo.antt =====
-- Replacing a variable by a fresh one can be undone.
use depc.Prelude.{◌≡◌, refl, ap, Bool, false, ◌||◌, Option, none, some, arith}
use depc.Ast.{
  Var, var_eq, is_var, Expr, expr, Value, atom, boolean_constant, numeric_constant, string_literal,
  boolean_not, boolean_expr, relation_expr, arith_expr, var, global, app, abs, pi, sigma, addressof,
  deref, scopeof, init_list, member, subscript, because, Exprs, no_exprs, more, Args, no_args, arg,
  Body, done, stmt, Stmt, call, if_then, if_else, return_void, return_value, impossible,
  impossible_because,
}
use depc.Ast.Vars.{var_eq_refl, var_eq→eq}
use depc.Ast.OccursIn.{
  anywhere, occurs_in, occurs_in_value, occurs_in_exprs, occurs_in_args, occurs_in_body,
  occurs_in_stmt,
}
use depc.Ast.Replace.{
  replace_var, replace_name, replace, replace_value, replace_exprs, replace_args, replace_body,
  replace_stmt,
}

module _ (a b : Var) where
  back_var : (x : Var) → var_eq x b ≡ false → replace_var b a (replace_var a b x) ≡ x
  unfolding replace_var
  back_var x h = ground (arith, var_eq→eq x a, var_eq_refl b)

  back_name : (x : Option Var) → is_var x b ≡ false → replace_name b a (replace_name a b x) ≡ x
  unfolding replace_name is_var
  back_name none h = refl
  back_name (some x) h = ground (arith, var_eq→eq x a, var_eq_refl b)

-- Where nothing occurs in the arguments, nothing occurs in what follows them.
pub rest_false :
    (b : Var) (gs : Args) (rest : Bool) → occurs_in_args b anywhere gs rest ≡ false → rest ≡ false
unfolding occurs_in
rest_false b no_args rest h = h
rest_false b (arg q x n gs) rest h = ground (arith, rest_false b gs rest)

module _ (a b : Var) where
  mutual
    unfolding occurs_in replace

    pub back : (x : Expr) → occurs_in b anywhere x ≡ false → replace b a (replace a b x) ≡ x
    back (expr p x) h = ground (arith, back_value x)

    back_value :
        (x : Value)
        → occurs_in_value b anywhere x ≡ false
        → replace_value b a (replace_value a b x) ≡ x
    back_value (boolean_not x) h = ground (arith, back x)
    back_value (boolean_expr o x y) h = ground (arith, back x, back y)
    back_value (relation_expr o x y) h = ground (arith, back x, back y)
    back_value (arith_expr o x y) h = ground (arith, back x, back y)
    back_value (app x xs) h = ground (arith, back x, back_exprs xs)
    back_value (addressof x) h = ground (arith, back x)
    back_value (deref x) h = ground (arith, back x)
    back_value (scopeof x i) h = ground (arith, back x)
    back_value (init_list xs) h = ground (arith, back_exprs xs)
    back_value (member x f) h = ground (arith, back x)
    back_value (subscript x i) h = ground (arith, back x, back i)
    back_value (because x r) h = ground (arith, back x, back r)
    back_value (atom a) h = ground arith
    back_value (boolean_constant a) h = ground arith
    back_value (numeric_constant a) h = ground arith
    back_value (string_literal a) h = ground arith
    back_value (global m a) h = ground arith
    back_value (var x) h = ap var (back_var a b x h)
    back_value (abs m gs x d) h = ground (
      arith,
      back_args gs (occurs_in b anywhere x || occurs_in_body b anywhere d),
      rest_false b gs (occurs_in b anywhere x || occurs_in_body b anywhere d),
      back x,
      back_body d,
    )
    back_value (pi m gs x) h = ground (
      arith,
      back_args gs (occurs_in b anywhere x),
      rest_false b gs (occurs_in b anywhere x),
      back x,
    )
    back_value (sigma gs) h = ap sigma (back_args gs false h)

    back_exprs :
        (x : Exprs)
        → occurs_in_exprs b anywhere x ≡ false
        → replace_exprs b a (replace_exprs a b x) ≡ x
    back_exprs no_exprs h = ground arith
    back_exprs (more x xs) h = ground (arith, back x, back_exprs xs)

    pub back_args :
        (gs : Args) (rest : Bool)
        → occurs_in_args b anywhere gs rest ≡ false
        → replace_args b a (replace_args a b gs) ≡ gs
    back_args no_args rest h = refl
    back_args (arg q x n gs) rest h = ground (arith, back x, back_name a b n, back_args gs rest)

    pub back_body :
        (x : Body) → occurs_in_body b anywhere x ≡ false → replace_body b a (replace_body a b x) ≡ x
    back_body done h = ground arith
    back_body (stmt x d) h = ground (arith, back_stmt x, back_body d)

    back_stmt :
        (x : Stmt) → occurs_in_stmt b anywhere x ≡ false → replace_stmt b a (replace_stmt a b x) ≡ x
    back_stmt (call x xs) h = ground (arith, back x, back_exprs xs)
    back_stmt (if_then x t) h = ground (arith, back x, back_body t)
    back_stmt (if_else x t f) h = ground (arith, back x, back_body t, back_body f)
    back_stmt (return_value x) h = ground (arith, back x)
    back_stmt (impossible_because x) h = ground (arith, back x)
    back_stmt return_void h = ground arith
    back_stmt impossible h = ground arith
