-- ===== src/Ast/Replace/Absent.antt =====
-- Replacing a variable that does not occur.
use depc.Prelude.{◌≡◌, refl, ap, Bool, false, ◌||◌, Option, none, some, arith}
use depc.Ast.{
  Var, var_eq, is_var, Expr, expr, Value, atom, boolean_constant, numeric_constant, string_literal,
  boolean_not, boolean_expr, relation_expr, arith_expr, var, global, app, abs, pi, sigma, addressof,
  deref, scopeof, init_list, member, subscript, because, Exprs, no_exprs, more, Args, no_args, arg,
  Body, done, stmt, Stmt, call, if_then, if_else, return_void, return_value, impossible,
  impossible_because,
}
use depc.Ast.OccursIn.{
  anywhere, occurs_in, occurs_in_value, occurs_in_exprs, occurs_in_args, occurs_in_body,
  occurs_in_stmt,
}
use depc.Ast.Replace.Undo.{rest_false}
use depc.Ast.Replace.{
  replace_var, replace_name, replace, replace_value, replace_exprs, replace_args, replace_body,
  replace_stmt,
}

module _ (a b : Var) where
  absent_var : (x : Var) → var_eq x a ≡ false → replace_var a b x ≡ x
  unfolding replace_var
  absent_var x h = ground arith

  absent_name : (x : Option Var) → is_var x a ≡ false → replace_name a b x ≡ x
  unfolding replace_name is_var
  absent_name none h = refl
  absent_name (some x) h = ground arith

module _ (a b : Var) where
  mutual
    unfolding occurs_in replace

    pub absent : (x : Expr) → occurs_in a anywhere x ≡ false → replace a b x ≡ x
    absent (expr p x) h = ground (arith, absent_value x)

    absent_value : (x : Value) → occurs_in_value a anywhere x ≡ false → replace_value a b x ≡ x
    absent_value (boolean_not x) h = ground (arith, absent x)
    absent_value (boolean_expr o x y) h = ground (arith, absent x, absent y)
    absent_value (relation_expr o x y) h = ground (arith, absent x, absent y)
    absent_value (arith_expr o x y) h = ground (arith, absent x, absent y)
    absent_value (app x xs) h = ground (arith, absent x, absent_exprs xs)
    absent_value (addressof x) h = ground (arith, absent x)
    absent_value (deref x) h = ground (arith, absent x)
    absent_value (scopeof x i) h = ground (arith, absent x)
    absent_value (init_list xs) h = ground (arith, absent_exprs xs)
    absent_value (member x f) h = ground (arith, absent x)
    absent_value (subscript x i) h = ground (arith, absent x, absent i)
    absent_value (because x r) h = ground (arith, absent x, absent r)
    absent_value (atom a) h = ground arith
    absent_value (boolean_constant a) h = ground arith
    absent_value (numeric_constant a) h = ground arith
    absent_value (string_literal a) h = ground arith
    absent_value (global m a) h = ground arith
    absent_value (var x) h = ap var (absent_var a b x h)
    absent_value (abs m gs x d) h = ground (
      arith,
      absent_args gs (occurs_in a anywhere x || occurs_in_body a anywhere d),
      rest_false a gs (occurs_in a anywhere x || occurs_in_body a anywhere d),
      absent x,
      absent_body d,
    )
    absent_value (pi m gs x) h = ground (
      arith,
      absent_args gs (occurs_in a anywhere x),
      rest_false a gs (occurs_in a anywhere x),
      absent x,
    )
    absent_value (sigma gs) h = ap sigma (absent_args gs false h)

    absent_exprs : (x : Exprs) → occurs_in_exprs a anywhere x ≡ false → replace_exprs a b x ≡ x
    absent_exprs no_exprs h = ground arith
    absent_exprs (more x xs) h = ground (arith, absent x, absent_exprs xs)

    pub absent_args :
        (gs : Args) (rest : Bool)
        → occurs_in_args a anywhere gs rest ≡ false
        → replace_args a b gs ≡ gs
    absent_args no_args rest h = refl
    absent_args (arg q x n gs) rest h =
        ground (arith, absent x, absent_name a b n, absent_args gs rest)

    pub absent_body : (x : Body) → occurs_in_body a anywhere x ≡ false → replace_body a b x ≡ x
    absent_body done h = ground arith
    absent_body (stmt x d) h = ground (arith, absent_stmt x, absent_body d)

    absent_stmt : (x : Stmt) → occurs_in_stmt a anywhere x ≡ false → replace_stmt a b x ≡ x
    absent_stmt (call x xs) h = ground (arith, absent x, absent_exprs xs)
    absent_stmt (if_then x t) h = ground (arith, absent x, absent_body t)
    absent_stmt (if_else x t f) h = ground (arith, absent x, absent_body t, absent_body f)
    absent_stmt (return_value x) h = ground (arith, absent x)
    absent_stmt (impossible_because x) h = ground (arith, absent x)
    absent_stmt return_void h = ground arith
    absent_stmt impossible h = ground arith
