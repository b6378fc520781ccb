-- ===== src/Ast/OccursIn/Free.antt =====
-- A free occurrence is an occurrence.
use depc.Prelude.{◌≡◌, Bool, true, false, arith}
use depc.Ast.{
  Var, Expr, expr, Value, atom, boolean_constant, numeric_constant, string_literal, boolean_not,
  boolean_expr, relation_expr, arith_expr, var, global, app, abs, pi, sigma, addressof, deref,
  scopeof, init_list, member, subscript, because, Exprs, no_exprs, more, Args, no_args, arg, Body,
  done, stmt, Stmt, call, if_then, if_else, return_void, return_value, impossible,
  impossible_because,
}
use depc.Ast.OccursIn.{
  free, anywhere, occurs_in, occurs_in_value, occurs_in_exprs, occurs_in_args, occurs_in_body,
  occurs_in_stmt,
}

module _ (v : Var) where
  mutual
    unfolding occurs_in

    pub anywhere_of_free : (x : Expr) → occurs_in v free x ≡ true → occurs_in v anywhere x ≡ true
    anywhere_of_free (expr s x) h = ground (arith, anywhere_of_free_value x)

    anywhere_of_free_value :
        (x : Value) → occurs_in_value v free x ≡ true → occurs_in_value v anywhere x ≡ true
    anywhere_of_free_value (boolean_not x) h = ground (arith, anywhere_of_free x)
    anywhere_of_free_value (boolean_expr o x y) h =
        ground (arith, anywhere_of_free x, anywhere_of_free y)
    anywhere_of_free_value (relation_expr o x y) h =
        ground (arith, anywhere_of_free x, anywhere_of_free y)
    anywhere_of_free_value (arith_expr o x y) h =
        ground (arith, anywhere_of_free x, anywhere_of_free y)
    anywhere_of_free_value (app x xs) h =
        ground (arith, anywhere_of_free x, anywhere_of_free_exprs xs)
    anywhere_of_free_value (addressof x) h = ground (arith, anywhere_of_free x)
    anywhere_of_free_value (deref x) h = ground (arith, anywhere_of_free x)
    anywhere_of_free_value (scopeof x i) h = ground (arith, anywhere_of_free x)
    anywhere_of_free_value (init_list xs) h = ground (arith, anywhere_of_free_exprs xs)
    anywhere_of_free_value (member x f) h = ground (arith, anywhere_of_free x)
    anywhere_of_free_value (subscript x i) h =
        ground (arith, anywhere_of_free x, anywhere_of_free i)
    anywhere_of_free_value (because x r) h = ground (arith, anywhere_of_free x, anywhere_of_free r)
    anywhere_of_free_value (atom a) h = ground arith
    anywhere_of_free_value (boolean_constant a) h = ground arith
    anywhere_of_free_value (numeric_constant a) h = ground arith
    anywhere_of_free_value (string_literal a) h = ground arith
    anywhere_of_free_value (global m a) h = ground arith
    anywhere_of_free_value (var x) h = h
    anywhere_of_free_value (abs m gs x b) h =
        anywhere_of_free_args gs _ _
          (λ k. ground (arith, anywhere_of_free x, anywhere_of_free_body b)) h
    anywhere_of_free_value (pi m gs x) h = anywhere_of_free_args gs _ _ (anywhere_of_free x) h
    anywhere_of_free_value (sigma gs) h = anywhere_of_free_args gs false false (λ k. k) h

    anywhere_of_free_exprs :
        (x : Exprs) → occurs_in_exprs v free x ≡ true → occurs_in_exprs v anywhere x ≡ true
    anywhere_of_free_exprs no_exprs h = ground arith
    anywhere_of_free_exprs (more x xs) h =
        ground (arith, anywhere_of_free x, anywhere_of_free_exprs xs)

    anywhere_of_free_args :
        (gs : Args) (r r' : Bool)
        → (r ≡ true → r' ≡ true)
        → occurs_in_args v free gs r ≡ true
        → occurs_in_args v anywhere gs r' ≡ true
    anywhere_of_free_args no_args r r' k h = k h
    anywhere_of_free_args (arg q x n gs) r r' k h =
        ground (arith, anywhere_of_free x, anywhere_of_free_args gs r r' k)

    anywhere_of_free_body :
        (x : Body) → occurs_in_body v free x ≡ true → occurs_in_body v anywhere x ≡ true
    anywhere_of_free_body done h = ground arith
    anywhere_of_free_body (stmt x b) h =
        ground (arith, anywhere_of_free_stmt x, anywhere_of_free_body b)

    anywhere_of_free_stmt :
        (x : Stmt) → occurs_in_stmt v free x ≡ true → occurs_in_stmt v anywhere x ≡ true
    anywhere_of_free_stmt (call x xs) h =
        ground (arith, anywhere_of_free x, anywhere_of_free_exprs xs)
    anywhere_of_free_stmt (if_then x t) h =
        ground (arith, anywhere_of_free x, anywhere_of_free_body t)
    anywhere_of_free_stmt (if_else x t f) h =
        ground (arith, anywhere_of_free x, anywhere_of_free_body t, anywhere_of_free_body f)
    anywhere_of_free_stmt (return_value x) h = ground (arith, anywhere_of_free x)
    anywhere_of_free_stmt (impossible_because x) h = ground (arith, anywhere_of_free x)
    anywhere_of_free_stmt return_void h = ground arith
    anywhere_of_free_stmt impossible h = ground arith
