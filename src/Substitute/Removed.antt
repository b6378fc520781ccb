-- ===== src/Substitute/Removed.antt =====
-- The variable that is substituted, in the result of substitute.cpp.
use depc.Prelude.{ℕ, zero, suc, ◌+◌, ◌≤◌, ◌≡◌, false, Option, none, some, arith}
use depc.Ast.{
  Var, Expr, expr, Sort, Value, atom, boolean_constant, numeric_constant, string_literal,
  boolean_not, boolean_expr, relation_expr, arith_expr, var, global, app, abs, pi, sigma, addressof,
  deref, scopeof, init_list, member, subscript, because, Exprs, no_exprs, more, Args, no_args, arg,
  Body, done, stmt, Stmt, call, if_then, if_else, return_void, return_value, impossible,
  impossible_because, Signature,
}
use depc.Ast.OccursIn.{
  free, occurs_in, occurs_in_exprs, occurs_in_args, occurs_in_body, occurs_in_stmt,
  occurs_in_optional, occurs_in_signature,
}
use depc.Ast.Weight.{
  weight, weight_value, weight_exprs, weight_args, weight_body, weight_stmt, weight_optional,
  weight_signature, weight_pos, weight_value_pos, weight_exprs_pos, weight_args_pos,
  weight_body_pos, weight_stmt_pos,
}
use depc.Substitute.{
  avoid_capture, avoid_capture_args, substitute, substitute_sort, substitute_value,
  substitute_exprs, substitute_args, substitute_signature, substitute_optional, substitute_body,
  substitute_stmt,
}
use depc.Substitute.Avoid.{weight_avoid, weight_avoid_args, function_occurs}

module _ (v : Var) (y : Expr) (absent : occurs_in v free y ≡ false) where
  mutual
    unfolding substitute occurs_in weight occurs_in_signature weight_optional weight_signature

    pub removed : (n : ℕ) (x : Expr) → weight x ≤ n → occurs_in v free (substitute n v y x) ≡ false
    removed zero x h = absurd (omega (arith, weight_pos x))
    removed (suc n) (expr s x) h = removed_value n (substitute_sort n v y s) x (omega arith)

    removed_value :
        (n : ℕ) (s : Sort) (x : Value)
        → weight_value x ≤ n
        → occurs_in v free (substitute_value n v y s x) ≡ false
    removed_value zero s x h = absurd (omega (arith, weight_value_pos x))
    removed_value (suc n) s (boolean_not x) h = ground (arith, removed n x)
    removed_value (suc n) s (boolean_expr o x y) h = ground (arith, removed n x, removed n y)
    removed_value (suc n) s (relation_expr o x y) h = ground (arith, removed n x, removed n y)
    removed_value (suc n) s (arith_expr o x y) h = ground (arith, removed n x, removed n y)
    removed_value (suc n) s (app x xs) h = ground (arith, removed n x, removed_exprs n xs)
    removed_value (suc n) s (addressof x) h = ground (arith, removed n x)
    removed_value (suc n) s (deref x) h = ground (arith, removed n x)
    removed_value (suc n) s (scopeof x i) h = ground (arith, removed n x)
    removed_value (suc n) s (init_list xs) h = ground (arith, removed_exprs n xs)
    removed_value (suc n) s (member x f) h = ground (arith, removed n x)
    removed_value (suc n) s (subscript x i) h = ground (arith, removed n x, removed n i)
    removed_value (suc n) s (because x r) h = ground (arith, removed n x, removed n r)
    removed_value (suc n) s (atom a) h = ground arith
    removed_value (suc n) s (boolean_constant a) h = ground arith
    removed_value (suc n) s (numeric_constant a) h = ground arith
    removed_value (suc n) s (string_literal a) h = ground arith
    removed_value (suc n) s (global m a) h = ground arith
    removed_value (suc n) s (var x) h = ground (arith, absent)
    removed_value (suc n) s (abs m gs x d) h = ground (
      arith,
      function_occurs v m (substitute_signature n v y gs x (some d)),
      removed_signature n gs x (some d),
    )
    removed_value (suc n) s (pi m gs x) h = ground (
      arith,
      function_occurs v m (substitute_signature n v y gs x none),
      removed_signature n gs x none,
    )
    removed_value (suc n) s (sigma gs) h = removed_args n gs (omega arith)

    removed_exprs :
        (n : ℕ) (xs : Exprs)
        → weight_exprs xs ≤ n
        → occurs_in_exprs v free (substitute_exprs n v y xs) ≡ false
    removed_exprs zero xs h = absurd (omega (arith, weight_exprs_pos xs))
    removed_exprs (suc n) no_exprs h = ground arith
    removed_exprs (suc n) (more x xs) h = ground (arith, removed n x, removed_exprs n xs)

    pub removed_args :
        (n : ℕ) (gs : Args)
        → weight_args gs ≤ n
        → occurs_in_args v free (substitute_args n v y gs) false ≡ false
    removed_args zero gs h = absurd (omega (arith, weight_args_pos gs))
    removed_args (suc n) no_args h = ground arith
    removed_args (suc n) (arg q t x gs) h =
        let g = (avoid_capture_args y x gs).1 in
        ground (arith, removed n t, removed_args n g, weight_avoid_args y x gs)

    pub removed_signature :
        (n : ℕ) (gs : Args) (ret : Expr) (d : Option Body)
        → 1 + weight_args gs + weight ret + weight_optional d ≤ n
        → occurs_in_signature v free (substitute_signature n v y gs ret d) ≡ false
    removed_signature zero gs ret d h = absurd (omega (arith, weight_args_pos gs))
    removed_signature (suc n) no_args ret d h = ground (arith, removed n ret, removed_optional n d)
    removed_signature (suc n) (arg q t x gs) ret d h =
        let old : Signature = record { args = gs; ret_type = ret; body = d } in
        let g = (avoid_capture y x old).1 in
        ground
          (arith, removed n t, removed_signature n g.args g.ret_type g.body, weight_avoid y x old)

    removed_optional :
        (n : ℕ) (d : Option Body)
        → weight_optional d ≤ n
        → occurs_in_optional v free (substitute_optional n v y d) ≡ false
    removed_optional zero none h = absurd (omega arith)
    removed_optional zero (some d) h = absurd (omega arith)
    removed_optional (suc n) none h = ground arith
    removed_optional (suc n) (some d) h = removed_body n d (omega arith)

    removed_body :
        (n : ℕ) (d : Body)
        → weight_body d ≤ n
        → occurs_in_body v free (substitute_body n v y d) ≡ false
    removed_body zero d h = absurd (omega (arith, weight_body_pos d))
    removed_body (suc n) done h = ground arith
    removed_body (suc n) (stmt x d) h = ground (arith, removed_stmt n x, removed_body n d)

    removed_stmt :
        (n : ℕ) (x : Stmt)
        → weight_stmt x ≤ n
        → occurs_in_stmt v free (substitute_stmt n v y x) ≡ false
    removed_stmt zero x h = absurd (omega (arith, weight_stmt_pos x))
    removed_stmt (suc n) (call x xs) h = ground (arith, removed n x, removed_exprs n xs)
    removed_stmt (suc n) (if_then x t) h = ground (arith, removed n x, removed_body n t)
    removed_stmt (suc n) (if_else x t f) h =
        ground (arith, removed n x, removed_body n t, removed_body n f)
    removed_stmt (suc n) (return_value x) h = ground (arith, removed n x)
    removed_stmt (suc n) (impossible_because x) h = ground (arith, removed n x)
    removed_stmt (suc n) return_void h = ground arith
    removed_stmt (suc n) impossible h = ground arith
