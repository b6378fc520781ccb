-- ===== src/Ast/Replace/Size.antt =====
-- The size (size_impl.hpp) after a replacement (replace_impl.hpp).
use depc.Prelude.{ℕ, ◌+◌, ◌≡◌, refl, ap, ap₂, max, arith}
use depc.Ast.{
  Var, Expr, expr, Value, atom, boolean_constant, numeric_constant, string_literal, boolean_not,
  boolean_expr, relation_expr, arith_expr, var, global, app, abs, pi, sigma, addressof, deref,
  scopeof, init_list, member, subscript, because, Exprs, no_exprs, more, Args, no_args, arg, Body,
  done, stmt, Stmt, call, if_then, if_else, return_void, return_value, impossible,
  impossible_because,
}
use depc.Ast.Replace.{
  replace, replace_value, replace_exprs, replace_args, replace_body, replace_stmt,
}
use depc.Ast.Size.{size, size_value, size_exprs, size_args, size_body, size_stmt}

module _ (a b : Var) where
  mutual
    unfolding replace size

    pub same_size : (x : Expr) → size (replace a b x) ≡ size x
    same_size (expr p x) = omega (arith, same_size_value x)

    same_size_value : (x : Value) → size_value (replace_value a b x) ≡ size_value x
    same_size_value (boolean_not x) = omega (arith, same_size x)
    same_size_value (boolean_expr o x y) = omega (arith, same_size x, same_size y)
    same_size_value (relation_expr o x y) = omega (arith, same_size x, same_size y)
    same_size_value (arith_expr o x y) = omega (arith, same_size x, same_size y)
    same_size_value (app x xs) = ap (λ n. 1 + n) (same_size_exprs xs _ _ (same_size x))
    same_size_value (addressof x) = omega (arith, same_size x)
    same_size_value (deref x) = omega (arith, same_size x)
    same_size_value (scopeof x i) = omega (arith, same_size x)
    same_size_value (init_list xs) = ap (λ n. 1 + n) (same_size_exprs xs 0 0 refl)
    same_size_value (member x f) = omega (arith, same_size x)
    same_size_value (subscript x i) = omega (arith, same_size x, same_size i)
    same_size_value (because x r) = omega (arith, same_size x, same_size r)
    same_size_value (atom a) = refl
    same_size_value (boolean_constant a) = refl
    same_size_value (numeric_constant a) = refl
    same_size_value (string_literal a) = refl
    same_size_value (global m a) = refl
    same_size_value (var x) = refl
    same_size_value (abs m gs x d) =
        ap (λ n. 1 + n) (same_size_args gs _ _ (ap₂ max (same_size x) (same_size_body d 0 0 refl)))
    same_size_value (pi m gs x) =
        ap (λ n. 1 + n) (same_size_args gs _ _ (ap (λ k. max k 0) (same_size x)))
    same_size_value (sigma gs) = ap (λ n. 1 + n) (same_size_args gs 0 0 refl)

    same_size_exprs :
        (xs : Exprs) (n m : ℕ) → n ≡ m → size_exprs n (replace_exprs a b xs) ≡ size_exprs m xs
    same_size_exprs no_exprs n m e = e
    same_size_exprs (more x xs) n m e = same_size_exprs xs _ _ (ap₂ max e (same_size x))

    same_size_args :
        (gs : Args) (n m : ℕ) → n ≡ m → size_args n (replace_args a b gs) ≡ size_args m gs
    same_size_args no_args n m e = e
    same_size_args (arg q x v gs) n m e = same_size_args gs _ _ (ap₂ max e (same_size x))

    same_size_body : (d : Body) (n m : ℕ) → n ≡ m → size_body n (replace_body a b d) ≡ size_body m d
    same_size_body done n m e = e
    same_size_body (stmt x d) n m e = same_size_body d _ _ (ap₂ max e (same_size_stmt x))

    same_size_stmt : (x : Stmt) → size_stmt (replace_stmt a b x) ≡ size_stmt x
    same_size_stmt (call x xs) = ap (λ n. 1 + n) (same_size_exprs xs _ _ (same_size x))
    same_size_stmt (if_then x t) = omega (arith, same_size x, same_size_body t 0 0)
    same_size_stmt (if_else x t f) =
        omega (arith, same_size x, same_size_body t 0 0, same_size_body f 0 0)
    same_size_stmt (return_value x) = omega (arith, same_size x)
    same_size_stmt (impossible_because x) = omega (arith, same_size x)
    same_size_stmt return_void = refl
    same_size_stmt impossible = refl

-- Replacing one variable by another, as renaming does, keeps the size (the depth) of an expression.
pub size-replace : (a b : Var) (x : Expr) → size (replace a b x) ≡ size x
size-replace = same_size
