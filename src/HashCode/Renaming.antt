-- ===== src/HashCode/Renaming.antt =====
-- The hash code of a function and of the function that renaming one of its arguments gives.
use depc.Prelude.{ℕ, ◌≡◌, refl, Bool, false, ◌||◌, arith}
use depc.Ast.{
  Var, Expr, expr, Value, atom, boolean_constant, numeric_constant, string_literal, boolean_not,
  boolean_expr, relation_expr, arith_expr, var, global, app, abs, pi, sigma, addressof, deref,
  scopeof, init_list, member, subscript, because, Exprs, no_exprs, more, Args, no_args, arg, Body,
  done, stmt, Stmt, call, if_then, if_else, return_void, return_value, impossible,
  impossible_because,
}
use depc.Ast.Index.{value_index, stmt_index}
use depc.Ast.OccursIn.{
  anywhere, occurs_in, occurs_in_value, occurs_in_exprs, occurs_in_args, occurs_in_body,
  occurs_in_stmt,
}
use depc.Ast.Replace.{
  replace, replace_value, replace_exprs, replace_args, replace_body, replace_stmt,
}
use depc.Ast.Replace.Undo.{rest_false}
use depc.HashCode.{
  HashFunctions, hash_expr, hash_value, hash_exprs, hash_args, hash_body, hash_stmt,
}
use depc.HashCode.Relabelled.{IsSame, IsSame-return, IsSame-bind, IsSame-after_storing, IsSame-var}

value_index-replace : (v w : Var) (x : Value) → value_index (replace_value v w x) ≡ value_index x
unfolding value_index replace
value_index-replace v w (atom a) = refl
value_index-replace v w (boolean_constant a) = refl
value_index-replace v w (numeric_constant a) = refl
value_index-replace v w (string_literal a) = refl
value_index-replace v w (boolean_not x) = refl
value_index-replace v w (boolean_expr o x y) = refl
value_index-replace v w (relation_expr o x y) = refl
value_index-replace v w (arith_expr o x y) = refl
value_index-replace v w (var x) = refl
value_index-replace v w (global m x) = refl
value_index-replace v w (app f xs) = refl
value_index-replace v w (abs m gs x d) = refl
value_index-replace v w (pi m gs x) = refl
value_index-replace v w (sigma gs) = refl
value_index-replace v w (addressof x) = refl
value_index-replace v w (deref x) = refl
value_index-replace v w (scopeof x i) = refl
value_index-replace v w (init_list xs) = refl
value_index-replace v w (member x f) = refl
value_index-replace v w (subscript x i) = refl
value_index-replace v w (because x r) = refl

module _ (b : HashFunctions) (from to : Var) where
  mutual
    unfolding hash_expr replace occurs_in stmt_index

    pub IsSame-expr :
        (x : Expr)
        → occurs_in to anywhere x ≡ false
        → IsSame from to (hash_expr b x) (hash_expr b (replace from to x))
    IsSame-expr (expr s x) h =
        rw (value_index-replace from to x)
          (IsSame-bind from to _ _ _ _ (IsSame-value x h) (λ n. IsSame-return from to _))

    IsSame-value :
        (x : Value)
        → occurs_in_value to anywhere x ≡ false
        → IsSame from to (hash_value b x) (hash_value b (replace_value from to x))
    IsSame-value (atom a) h = IsSame-return from to _
    IsSame-value (boolean_constant a) h = IsSame-return from to _
    IsSame-value (numeric_constant a) h = IsSame-return from to _
    IsSame-value (string_literal a) h = IsSame-return from to _
    IsSame-value (global m a) h = IsSame-return from to _
    IsSame-value (var x) h = IsSame-var from to b x h
    IsSame-value (sigma gs) h = IsSame-args 0 gs false h
    IsSame-value (init_list xs) h = IsSame-exprs 0 xs h
    IsSame-value (because x r) h = IsSame-expr x (ground (arith, h))
    IsSame-value (boolean_not x) h =
        IsSame-bind from to _ _ _ _ (IsSame-expr x h) (λ n. IsSame-return from to _)
    IsSame-value (addressof x) h =
        IsSame-bind from to _ _ _ _ (IsSame-expr x h) (λ n. IsSame-return from to _)
    IsSame-value (deref x) h =
        IsSame-bind from to _ _ _ _ (IsSame-expr x h) (λ n. IsSame-return from to _)
    IsSame-value (scopeof x i) h =
        IsSame-bind from to _ _ _ _ (IsSame-expr x h) (λ n. IsSame-return from to _)
    IsSame-value (member x f) h =
        IsSame-bind from to _ _ _ _ (IsSame-expr x h) (λ n. IsSame-return from to _)
    IsSame-value (boolean_expr o x y) h =
        IsSame-bind from to _ _ _ _ (IsSame-expr x (ground (arith, h))) (λ n.
          IsSame-bind from to _ _ _ _ (IsSame-expr y (ground (arith, h)))
            (λ n. IsSame-return from to _))
    IsSame-value (relation_expr o x y) h =
        IsSame-bind from to _ _ _ _ (IsSame-expr x (ground (arith, h))) (λ n.
          IsSame-bind from to _ _ _ _ (IsSame-expr y (ground (arith, h)))
            (λ n. IsSame-return from to _))
    IsSame-value (arith_expr o x y) h =
        IsSame-bind from to _ _ _ _ (IsSame-expr x (ground (arith, h))) (λ n.
          IsSame-bind from to _ _ _ _ (IsSame-expr y (ground (arith, h)))
            (λ n. IsSame-return from to _))
    IsSame-value (subscript x y) h =
        IsSame-bind from to _ _ _ _ (IsSame-expr x (ground (arith, h))) (λ n.
          IsSame-bind from to _ _ _ _ (IsSame-expr y (ground (arith, h)))
            (λ n. IsSame-return from to _))
    IsSame-value (app f xs) h =
        IsSame-bind from to _ _ _ _ (IsSame-expr f (ground (arith, h)))
          (λ n. IsSame-exprs n xs (ground (arith, h)))
    IsSame-value (abs m gs x d) h =
        let r = occurs_in to anywhere x || occurs_in_body to anywhere d in
        let e = rest_false to gs r h in
        IsSame-bind from to _ _ _ _ (IsSame-args 0 gs r h) (λ n.
          IsSame-bind from to _ _ _ _ (IsSame-expr x (ground (arith, e))) (λ n.
            IsSame-bind from to _ _ _ _ (IsSame-body 0 d (ground (arith, e)))
              (λ n. IsSame-return from to _)))
    IsSame-value (pi m gs x) h =
        let r = occurs_in to anywhere x in
        IsSame-bind from to _ _ _ _ (IsSame-args 0 gs r h) (λ n.
          IsSame-bind from to _ _ _ _ (IsSame-expr x (rest_false to gs r h))
            (λ n. IsSame-return from to _))

    IsSame-exprs :
        (acc : ℕ) (xs : Exprs)
        → occurs_in_exprs to anywhere xs ≡ false
        → IsSame from to (hash_exprs b acc xs) (hash_exprs b acc (replace_exprs from to xs))
    IsSame-exprs acc no_exprs h = IsSame-return from to _
    IsSame-exprs acc (more x xs) h =
        IsSame-bind from to _ _ _ _ (IsSame-expr x (ground (arith, h)))
          (λ n. IsSame-exprs _ xs (ground (arith, h)))

    pub IsSame-args :
        (acc : ℕ) (gs : Args) (rest : Bool)
        → occurs_in_args to anywhere gs rest ≡ false
        → IsSame from to (hash_args b acc gs) (hash_args b acc (replace_args from to gs))
    IsSame-args acc no_args rest h = IsSame-return from to _
    IsSame-args acc (arg q t x gs) rest h =
        IsSame-bind from to _ _ _ _
          (IsSame-after_storing from to x _ _ (ground (arith, h))
            (IsSame-expr t (ground (arith, h))))
          (λ n. IsSame-args _ gs rest (ground (arith, h)))

    pub IsSame-body :
        (acc : ℕ) (d : Body)
        → occurs_in_body to anywhere d ≡ false
        → IsSame from to (hash_body b acc d) (hash_body b acc (replace_body from to d))
    IsSame-body acc done h = IsSame-return from to _
    IsSame-body acc (stmt x d) h =
        IsSame-bind from to _ _ _ _ (IsSame-stmt x (ground (arith, h)))
          (λ n. IsSame-body _ d (ground (arith, h)))

    IsSame-stmt :
        (x : Stmt)
        → occurs_in_stmt to anywhere x ≡ false
        → IsSame from to (hash_stmt b x) (hash_stmt b (replace_stmt from to x))
    IsSame-stmt (call f xs) h =
        IsSame-bind from to _ _ _ _ (IsSame-expr f (ground (arith, h))) (λ n.
          IsSame-bind from to _ _ _ _ (IsSame-exprs n xs (ground (arith, h)))
            (λ n. IsSame-return from to _))
    IsSame-stmt (if_then c t) h =
        IsSame-bind from to _ _ _ _ (IsSame-expr c (ground (arith, h))) (λ n.
          IsSame-bind from to _ _ _ _ (IsSame-body 0 t (ground (arith, h)))
            (λ n. IsSame-return from to _))
    IsSame-stmt (if_else c t f) h =
        IsSame-bind from to _ _ _ _ (IsSame-expr c (ground (arith, h))) (λ n.
          IsSame-bind from to _ _ _ _ (IsSame-body 0 t (ground (arith, h))) (λ n.
            IsSame-bind from to _ _ _ _ (IsSame-body 0 f (ground (arith, h)))
              (λ n. IsSame-return from to _)))
    IsSame-stmt (return_value x) h =
        IsSame-bind from to _ _ _ _ (IsSame-expr x h) (λ n. IsSame-return from to _)
    IsSame-stmt return_void h = IsSame-return from to _
    IsSame-stmt impossible h = IsSame-return from to _
    IsSame-stmt (impossible_because x) h = IsSame-return from to _
