-- ===== src/Substitute/FreeVariables.antt =====
-- The free variables of the result of a substitution.
use depc.Prelude.{
  ℕ, zero, suc, ◌+◌, ◌&&◌, not, ◌≤◌, ◌≡◌, Bool, true, false, ◌||◌, Option, none, some, arith,
  Bool-cases, inl, inr,
}
use depc.Ast.{
  Var, var_eq, is_var, Expr, expr, Sort, Value, atom, boolean_constant, numeric_constant,
  string_literal, boolean_not, boolean_expr, relation_expr, arith_expr, var, global, app, abs, pi,
  sigma, addressof, deref, scopeof, init_list, member, subscript, because, Exprs, no_exprs, more,
  Args, no_args, arg, Body, done, stmt, Stmt, call, if_then, if_else, return_void, return_value,
  impossible, impossible_because, Signature,
}
use depc.Ast.Vars.{var_eq→eq, var_eq_sym}
use depc.Ast.OccursIn.{
  free, occurs_in, occurs_in_value, occurs_in_exprs, occurs_in_args, occurs_in_body, occurs_in_stmt,
  occurs_in_optional, occurs_in_signature,
}
use depc.Ast.Weight.{
  weight, weight_value, weight_exprs, weight_args, weight_body, weight_stmt, weight_optional,
  weight_signature, weight_pos, weight_value_pos, weight_exprs_pos, weight_args_pos,
  weight_body_pos, weight_stmt_pos,
}
use depc.Ast.MaxIndex.{max_index}
use depc.Substitute.{
  avoid_capture, avoid_capture_args, substitute, substitute_sort, substitute_value,
  substitute_exprs, substitute_args, substitute_signature, substitute_optional, substitute_body,
  substitute_stmt,
}
use depc.Substitute.Avoid.{weight_avoid, weight_avoid_args, function_occurs}
use depc.Substitute.Capture.{under, under-avoid, avoid-misses, avoid-keeps}
use depc.Substitute.CaptureSigma.{under-avoid_args, avoid_args-misses, avoid_args-keeps}

-- Whether `w` is free in `x[v := y]`, if `in_x` says so of `w` in `x` and `v_in_x` of `v` in `x`.
abbrev pub after : Var → Var → Expr → Bool → Bool → Bool
after w v y in_x v_in_x = (in_x && not (var_eq w v)) || (v_in_x && occurs_in w free y)

-- At an argument called `v` substitution stops behind its type.
stop_step :
    (w v : Var) (y : Expr) (x : Option Var) (t_after t_w t_v rest : Bool)
    → is_var x v ≡ true
    → t_after ≡ after w v y t_w t_v
    → (t_after || under x w rest) ≡ after w v y (t_w || under x w rest) (t_v || false)
unfolding is_var
stop_step w v y none t_after t_w t_v rest e h = cc
stop_step w v y (some x) t_after t_w t_v rest e h =
    ground (arith, var_eq→eq x v, var_eq→eq w v, var_eq_sym w v)

-- At any other argument it goes on under a binder `x'` in place of `x`.
go_step :
    (w v : Var) (y : Expr) (x x' : Option Var)
    (t_after t_w t_v rest_after rest'_w rest'_v rest_w rest_v : Bool)
    → is_var x v ≡ false
    → is_var x' v ≡ false
    → (is_var x' w ≡ true → occurs_in w free y ≡ false)
    → under x' w rest'_w ≡ under x w rest_w
    → under x' v rest'_v ≡ under x v rest_v
    → t_after ≡ after w v y t_w t_v
    → rest_after ≡ after w v y rest'_w rest'_v
    → (t_after || under x' w rest_after) ≡ after w v y (t_w || under x w rest_w) (t_v || rest_v)
go_step w v y x x' t_after t_w t_v rest_after rest'_w rest'_v rest_w rest_v e e' miss u_w u_v h_t
      h_rest =
    ground (arith, miss)

module _ (v w : Var) (y : Expr) (v_original : v.idx ≡ 0) (y_original : max_index y ≡ 0) where
  mutual
    unfolding substitute occurs_in weight occurs_in_signature weight_optional weight_signature

    pub free_in :
        (n : ℕ) (x : Expr)
        → weight x ≤ n
        → occurs_in w free (substitute n v y x)
          ≡ after w v y (occurs_in w free x) (occurs_in v free x)
    free_in zero x h = absurd (omega (arith, weight_pos x))
    free_in (suc n) (expr s x) h = free_in_value n (substitute_sort n v y s) x (omega arith)

    free_in_value :
        (n : ℕ) (s : Sort) (x : Value)
        → weight_value x ≤ n
        → occurs_in w free (substitute_value n v y s x)
          ≡ after w v y (occurs_in_value w free x) (occurs_in_value v free x)
    free_in_value zero s x h = absurd (omega (arith, weight_value_pos x))
    free_in_value (suc n) s (boolean_not x) h = ground (arith, free_in n x)
    free_in_value (suc n) s (boolean_expr o x y) h = ground (arith, free_in n x, free_in n y)
    free_in_value (suc n) s (relation_expr o x y) h = ground (arith, free_in n x, free_in n y)
    free_in_value (suc n) s (arith_expr o x y) h = ground (arith, free_in n x, free_in n y)
    free_in_value (suc n) s (app x xs) h = ground (arith, free_in n x, free_in_exprs n xs)
    free_in_value (suc n) s (addressof x) h = ground (arith, free_in n x)
    free_in_value (suc n) s (deref x) h = ground (arith, free_in n x)
    free_in_value (suc n) s (scopeof x i) h = ground (arith, free_in n x)
    free_in_value (suc n) s (init_list xs) h = ground (arith, free_in_exprs n xs)
    free_in_value (suc n) s (member x f) h = ground (arith, free_in n x)
    free_in_value (suc n) s (subscript x i) h = ground (arith, free_in n x, free_in n i)
    free_in_value (suc n) s (because x r) h = ground (arith, free_in n x, free_in n r)
    free_in_value (suc n) s (atom a) h = ground arith
    free_in_value (suc n) s (boolean_constant a) h = ground arith
    free_in_value (suc n) s (numeric_constant a) h = ground arith
    free_in_value (suc n) s (string_literal a) h = ground arith
    free_in_value (suc n) s (global m a) h = ground arith
    free_in_value (suc n) s (var x) h =
        ground (arith, var_eq→eq x v, var_eq→eq w v, var_eq_sym w v, var_eq_sym v w)
    free_in_value (suc n) s (abs m gs x d) h = ground (
      arith,
      function_occurs w m (substitute_signature n v y gs x (some d)),
      free_in_signature n gs x (some d),
    )
    free_in_value (suc n) s (pi m gs x) h = ground (
      arith,
      function_occurs w m (substitute_signature n v y gs x none),
      free_in_signature n gs x none,
    )
    free_in_value (suc n) s (sigma gs) h = free_in_args n gs (omega arith)

    free_in_exprs :
        (n : ℕ) (xs : Exprs)
        → weight_exprs xs ≤ n
        → occurs_in_exprs w free (substitute_exprs n v y xs)
          ≡ after w v y (occurs_in_exprs w free xs) (occurs_in_exprs v free xs)
    free_in_exprs zero xs h = absurd (omega (arith, weight_exprs_pos xs))
    free_in_exprs (suc n) no_exprs h = ground arith
    free_in_exprs (suc n) (more x xs) h = ground (arith, free_in n x, free_in_exprs n xs)

    free_in_args :
        (n : ℕ) (gs : Args)
        → weight_args gs ≤ n
        → occurs_in_args w free (substitute_args n v y gs) false
          ≡ after w v y (occurs_in_args w free gs false) (occurs_in_args v free gs false)
    free_in_args zero gs h = absurd (omega (arith, weight_args_pos gs))
    free_in_args (suc n) no_args h = ground arith
    free_in_args (suc n) (arg q t x gs) h =
        let g = (avoid_capture_args y x gs).1 in
        elim (Bool-cases (is_var x v)) [
          | inl e ↦ rw e (stop_step w v y x _ _ _ _ e (free_in n t (omega arith)))
          | inr e ↦ rw e (
              go_step w v y x _ _ _ _ _ _ _ _ _ e
                (avoid_args-keeps v y v_original y_original x gs e)
                (avoid_args-misses v y v_original y_original x w gs) (under-avoid_args y x w gs)
                (under-avoid_args y x v gs) (free_in n t (omega arith))
                (free_in_args n g (omega (arith, weight_avoid_args y x gs))))
        ]

    pub free_in_signature :
        (n : ℕ) (gs : Args) (ret : Expr) (d : Option Body)
        → 1 + weight_args gs + weight ret + weight_optional d ≤ n
        → occurs_in_signature w free (substitute_signature n v y gs ret d)
          ≡ after w v y
              (occurs_in_signature w free (record { args = gs; ret_type = ret; body = d }))
              (occurs_in_signature v free (record { args = gs; ret_type = ret; body = d }))
    free_in_signature zero gs ret d h = absurd (omega (arith, weight_args_pos gs))
    free_in_signature (suc n) no_args ret d h = ground (arith, free_in n ret, free_in_optional n d)
    free_in_signature (suc n) (arg q t x gs) ret d h =
        let old : Signature = record { args = gs; ret_type = ret; body = d } in
        let g = (avoid_capture y x old).1 in
        elim (Bool-cases (is_var x v)) [
          | inl e ↦ rw e (stop_step w v y x _ _ _ _ e (free_in n t (omega arith)))
          | inr e ↦ rw e (
              go_step w v y x _ _ _ _ _ _ _ _ _ e (avoid-keeps v y v_original y_original x old e)
                (avoid-misses v y v_original y_original x w old) (under-avoid y x w old)
                (under-avoid y x v old) (free_in n t (omega arith))
                (free_in_signature n g.args g.ret_type g.body
                  (omega (arith, weight_avoid y x old))))
        ]

    free_in_optional :
        (n : ℕ) (d : Option Body)
        → weight_optional d ≤ n
        → occurs_in_optional w free (substitute_optional n v y d)
          ≡ after w v y (occurs_in_optional w free d) (occurs_in_optional v free d)
    free_in_optional zero none h = absurd (omega arith)
    free_in_optional zero (some d) h = absurd (omega arith)
    free_in_optional (suc n) none h = ground arith
    free_in_optional (suc n) (some d) h = free_in_body n d (omega arith)

    free_in_body :
        (n : ℕ) (d : Body)
        → weight_body d ≤ n
        → occurs_in_body w free (substitute_body n v y d)
          ≡ after w v y (occurs_in_body w free d) (occurs_in_body v free d)
    free_in_body zero d h = absurd (omega (arith, weight_body_pos d))
    free_in_body (suc n) done h = ground arith
    free_in_body (suc n) (stmt x d) h = ground (arith, free_in_stmt n x, free_in_body n d)

    free_in_stmt :
        (n : ℕ) (x : Stmt)
        → weight_stmt x ≤ n
        → occurs_in_stmt w free (substitute_stmt n v y x)
          ≡ after w v y (occurs_in_stmt w free x) (occurs_in_stmt v free x)
    free_in_stmt zero x h = absurd (omega (arith, weight_stmt_pos x))
    free_in_stmt (suc n) (call x xs) h = ground (arith, free_in n x, free_in_exprs n xs)
    free_in_stmt (suc n) (if_then x t) h = ground (arith, free_in n x, free_in_body n t)
    free_in_stmt (suc n) (if_else x t f) h =
        ground (arith, free_in n x, free_in_body n t, free_in_body n f)
    free_in_stmt (suc n) (return_value x) h = ground (arith, free_in n x)
    free_in_stmt (suc n) (impossible_because x) h = ground (arith, free_in n x)
    free_in_stmt (suc n) return_void h = ground arith
    free_in_stmt (suc n) impossible h = ground arith
