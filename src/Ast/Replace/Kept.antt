-- ===== src/Ast/Replace/Kept.antt =====
-- Replacing a variable by a fresh one moves its occurrences and keeps those of all others.
use depc.Prelude.{◌≡◌, refl, ◌≢◌, Bool, false, ◌||◌, Option, none, some, arith}
use depc.Ast.{
  Var, var_eq, is_var, Expr, expr, Value, atom, boolean_constant, numeric_constant, string_literal,
  boolean_not, boolean_expr, relation_expr, arith_expr, var, global, app, abs, pi, sigma, addressof,
  deref, scopeof, init_list, member, subscript, because, Exprs, no_exprs, more, Args, no_args, arg,
  Body, done, stmt, Stmt, call, if_then, if_else, return_void, return_value, impossible,
  impossible_because,
}
use depc.Ast.Vars.{var_eq_refl, var_eq→eq, var_eq_ne, var_eq_sym}
use depc.Ast.OccursIn.{
  OccurrenceStyle, anywhere, occurs_in, occurs_in_value, occurs_in_exprs, occurs_in_args,
  occurs_in_body, occurs_in_stmt,
}
use depc.Ast.Replace.{
  replace_var, replace_name, replace, replace_value, replace_exprs, replace_args, replace_body,
  replace_stmt,
}
use depc.Ast.Replace.Undo.{rest_false}

module _ (a b w : Var) (fresh : w ≢ b) where
  kept_var :
      (x : Var) → var_eq x b ≡ false → var_eq (replace_var a b x) (replace_var a b w) ≡ var_eq x w
  unfolding replace_var
  kept_var x h = ground (
    arith,
    var_eq→eq x a,
    var_eq→eq w a,
    var_eq_refl a,
    var_eq_refl b,
    var_eq_ne w b,
    var_eq_ne w a,
    var_eq_sym b w,
    var_eq_sym a w,
    var_eq_sym x w,
  )

  kept_name :
      (x : Option Var)
      → is_var x b ≡ false
      → is_var (replace_name a b x) (replace_var a b w) ≡ is_var x w
  unfolding replace_name is_var replace_var
  kept_name none h = refl
  kept_name (some x) h = ground (arith, kept_var x h)

module _ (a b w : Var) (s : OccurrenceStyle) (fresh : w ≢ b) where
  mutual
    unfolding occurs_in replace

    pub kept :
        (x : Expr)
        → occurs_in b anywhere x ≡ false
        → occurs_in (replace_var a b w) s (replace a b x) ≡ occurs_in w s x
    kept (expr p x) h = ground (arith, kept_value x)

    kept_value :
        (x : Value)
        → occurs_in_value b anywhere x ≡ false
        → occurs_in_value (replace_var a b w) s (replace_value a b x) ≡ occurs_in_value w s x
    kept_value (boolean_not x) h = ground (arith, kept x)
    kept_value (boolean_expr o x y) h = ground (arith, kept x, kept y)
    kept_value (relation_expr o x y) h = ground (arith, kept x, kept y)
    kept_value (arith_expr o x y) h = ground (arith, kept x, kept y)
    kept_value (app x xs) h = ground (arith, kept x, kept_exprs xs)
    kept_value (addressof x) h = ground (arith, kept x)
    kept_value (deref x) h = ground (arith, kept x)
    kept_value (scopeof x i) h = ground (arith, kept x)
    kept_value (init_list xs) h = ground (arith, kept_exprs xs)
    kept_value (member x f) h = ground (arith, kept x)
    kept_value (subscript x i) h = ground (arith, kept x, kept i)
    kept_value (because x r) h = ground (arith, kept x, kept r)
    kept_value (atom a) h = ground arith
    kept_value (boolean_constant a) h = ground arith
    kept_value (numeric_constant a) h = ground arith
    kept_value (string_literal a) h = ground arith
    kept_value (global m a) h = ground arith
    kept_value (var x) h = kept_var a b w fresh x h
    kept_value (abs m gs x d) h =
        let e : (occurs_in b anywhere x || occurs_in_body b anywhere d) ≡ false =
          rest_false b gs _ h in
        kept_args gs _ _ _ h (ground (arith, kept x, kept_body d))
    kept_value (pi m gs x) h = kept_args gs _ _ _ h (kept x (rest_false b gs _ h))
    kept_value (sigma gs) h = kept_args gs _ _ _ h refl

    kept_exprs :
        (x : Exprs)
        → occurs_in_exprs b anywhere x ≡ false
        → occurs_in_exprs (replace_var a b w) s (replace_exprs a b x) ≡ occurs_in_exprs w s x
    kept_exprs no_exprs h = ground arith
    kept_exprs (more x xs) h = ground (arith, kept x, kept_exprs xs)

    pub kept_args :
        (gs : Args) (rest r r' : Bool)
        → occurs_in_args b anywhere gs rest ≡ false
        → r' ≡ r
        → occurs_in_args (replace_var a b w) s (replace_args a b gs) r' ≡ occurs_in_args w s gs r
    kept_args no_args rest r r' h e = e
    kept_args (arg q x n gs) rest r r' h e =
        ground (arith, kept x, kept_name a b w fresh n, kept_args gs rest r r')

    pub kept_body :
        (x : Body)
        → occurs_in_body b anywhere x ≡ false
        → occurs_in_body (replace_var a b w) s (replace_body a b x) ≡ occurs_in_body w s x
    kept_body done h = ground arith
    kept_body (stmt x d) h = ground (arith, kept_stmt x, kept_body d)

    kept_stmt :
        (x : Stmt)
        → occurs_in_stmt b anywhere x ≡ false
        → occurs_in_stmt (replace_var a b w) s (replace_stmt a b x) ≡ occurs_in_stmt w s x
    kept_stmt (call x xs) h = ground (arith, kept x, kept_exprs xs)
    kept_stmt (if_then x t) h = ground (arith, kept x, kept_body t)
    kept_stmt (if_else x t f) h = ground (arith, kept x, kept_body t, kept_body f)
    kept_stmt (return_value x) h = ground (arith, kept x)
    kept_stmt (impossible_because x) h = ground (arith, kept x)
    kept_stmt return_void h = ground arith
    kept_stmt impossible h = ground arith
