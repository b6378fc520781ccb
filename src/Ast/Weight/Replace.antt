-- ===== src/Ast/Weight/Replace.antt =====
-- Replacing a variable keeps the weight.
use depc.Prelude.{◌≡◌, refl, Option, none, some, arith}
use depc.Ast.{
  Var, Expr, expr, Value, atom, boolean_constant, numeric_constant, string_literal, boolean_not,
  boolean_expr, relation_expr, arith_expr, var, global, app, abs, pi, sigma, addressof, deref,
  scopeof, init_list, member, subscript, because, Exprs, no_exprs, more, Args, no_args, arg, Body,
  done, stmt, Stmt, call, if_then, if_else, return_void, return_value, impossible,
  impossible_because, Signature,
}
use depc.Ast.Replace.{
  replace, replace_value, replace_exprs, replace_args, replace_body, replace_stmt,
  replace_signature,
}
use depc.Ast.Weight.{
  weight, weight_value, weight_exprs, weight_args, weight_body, weight_stmt, weight_signature,
}

module _ (a b : Var) where
  mutual
    unfolding replace weight

    weight-replace : (x : Expr) → weight (replace a b x) ≡ weight x
    weight-replace (expr p x) = omega (arith, weight-replace_value x)

    weight-replace_value : (x : Value) → weight_value (replace_value a b x) ≡ weight_value x
    weight-replace_value (boolean_not x) = omega (arith, weight-replace x)
    weight-replace_value (boolean_expr o x y) = omega (arith, weight-replace x, weight-replace y)
    weight-replace_value (relation_expr o x y) = omega (arith, weight-replace x, weight-replace y)
    weight-replace_value (arith_expr o x y) = omega (arith, weight-replace x, weight-replace y)
    weight-replace_value (app x xs) = omega (arith, weight-replace x, weight-replace_exprs xs)
    weight-replace_value (addressof x) = omega (arith, weight-replace x)
    weight-replace_value (deref x) = omega (arith, weight-replace x)
    weight-replace_value (scopeof x i) = omega (arith, weight-replace x)
    weight-replace_value (init_list xs) = omega (arith, weight-replace_exprs xs)
    weight-replace_value (member x f) = omega (arith, weight-replace x)
    weight-replace_value (subscript x i) = omega (arith, weight-replace x, weight-replace i)
    weight-replace_value (because x r) = omega (arith, weight-replace x, weight-replace r)
    weight-replace_value (atom a) = refl
    weight-replace_value (boolean_constant a) = refl
    weight-replace_value (numeric_constant a) = refl
    weight-replace_value (string_literal a) = refl
    weight-replace_value (global m a) = refl
    weight-replace_value (var x) = refl
    weight-replace_value (abs m gs x d) =
        omega (arith, weight-replace_args gs, weight-replace x, weight-replace_body d)
    weight-replace_value (pi m gs x) = omega (arith, weight-replace_args gs, weight-replace x)
    weight-replace_value (sigma gs) = omega (arith, weight-replace_args gs)

    weight-replace_exprs : (x : Exprs) → weight_exprs (replace_exprs a b x) ≡ weight_exprs x
    weight-replace_exprs no_exprs = refl
    weight-replace_exprs (more x xs) = omega (arith, weight-replace x, weight-replace_exprs xs)

    pub weight-replace_args : (x : Args) → weight_args (replace_args a b x) ≡ weight_args x
    weight-replace_args no_args = refl
    weight-replace_args (arg q x n gs) = omega (arith, weight-replace x, weight-replace_args gs)

    weight-replace_body : (x : Body) → weight_body (replace_body a b x) ≡ weight_body x
    weight-replace_body done = refl
    weight-replace_body (stmt x d) = omega (arith, weight-replace_stmt x, weight-replace_body d)

    weight-replace_stmt : (x : Stmt) → weight_stmt (replace_stmt a b x) ≡ weight_stmt x
    weight-replace_stmt (call x xs) = omega (arith, weight-replace x, weight-replace_exprs xs)
    weight-replace_stmt (if_then x t) = omega (arith, weight-replace x, weight-replace_body t)
    weight-replace_stmt (if_else x t f) =
        omega (arith, weight-replace x, weight-replace_body t, weight-replace_body f)
    weight-replace_stmt (return_value x) = omega (arith, weight-replace x)
    weight-replace_stmt (impossible_because x) = omega (arith, weight-replace x)
    weight-replace_stmt return_void = refl
    weight-replace_stmt impossible = refl

  pub weight-replace_signature :
      (g : Signature) → weight_signature (replace_signature a b g) ≡ weight_signature g
  unfolding replace_signature weight_signature
  weight-replace_signature g = weight_parts g.args g.ret_type g.body
    where
      weight_parts :
          (gs : Args) (x : Expr) (d : Option Body)
          → weight_signature (replace_signature a b (record { args = gs; ret_type = x; body = d }))
            ≡ weight_signature (record { args = gs; ret_type = x; body = d })
      weight_parts gs x none = omega (arith, weight-replace_args gs, weight-replace x)
      weight_parts gs x (some d) =
          omega (arith, weight-replace_args gs, weight-replace x, weight-replace_body d)
