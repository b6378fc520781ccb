-- ===== src/Impossible/Complete.antt =====
-- What `is_impossible` (is_impossible.cpp) does not accept has a path.
use depc.Prelude.{
  ◌≡◌, refl, Bool, true, false, not, ◌&&◌, ◌||◌, arith, Bool-cases, &&-left, &&-right, inl, inr,
  if◌then◌else◌,
}
use depc.Ast.{
  Expr, expr, Value, atom, boolean_constant, numeric_constant, string_literal, boolean_not,
  boolean_expr, relation_expr, arith_expr, var, global, app, abs, pi, sigma, addressof, deref,
  scopeof, init_list, member, subscript, because, Exprs, no_exprs, more, Args, no_args, arg, Body,
  done, stmt, Stmt, call, if_then, if_else, return_void, return_value, impossible,
  impossible_because,
}
use depc.Impossible.{
  is_impossible_expr, is_impossible_value, is_impossible_lambda, is_impossible_exprs,
  is_impossible_args, is_impossible_stmt, is_possible_if, is_impossible,
}
use depc.Impossible.Paths.{
  Exit, at_end, returned, Evaluates, evaluates, EvaluatesValue, of_atom, of_boolean, of_numeric,
  of_string, of_var, of_global, of_scopeof, of_not, of_boolean_expr, of_relation_expr,
  of_arith_expr, of_app, of_abs, of_pi, of_sigma, of_addressof, of_deref, of_init_list, of_member,
  of_subscript, of_because, Applies, of_lambda, of_other, EvaluatesAll, all_none, all_more,
  EvaluatesTypes, types_none, types_more, ExecutesStmt, calls, if_taken, if_skipped, true_branch,
  false_branch, returns_nothing, returns_value, Executes, ends, leaves, goes_on, everywhere,
  everywhere_value, everywhere_exprs, everywhere_args, everywhere_body, everywhere_stmt,
}
use depc.Impossible.Leaves.{always_leaves, if_leaves, is_returned, body-returned}

-- A path of a statement, or of a body.
abbrev pub HasPath : Body → Type 0
HasPath b = (e : Exit) × Executes b e

abbrev StmtHasPath : Stmt → Type 0
StmtHasPath x = (e : Exit) × ExecutesStmt x e

return_path : (b : Body) (e : Exit) → is_returned e ≡ true → Executes b e → Executes b returned
return_path b returned h p = p
return_path b at_end h p = absurd (ground (arith, h))

neither-left : (a b : Bool) → (a || b) ≡ false → a ≡ false
neither-left a b h = ground (arith, h)

neither-right : (a b : Bool) → (a || b) ≡ false → b ≡ false
neither-right a b h = ground (arith, h)

possible_both : (a b : Bool) → (not a && not b) ≡ true → (a ≡ false) × (b ≡ false)
possible_both a b h = (ground (arith, h), ground (arith, h))

other_possible : (c t f : Bool) → (c || (t && f)) ≡ false → t ≡ true → f ≡ false
other_possible c t f h e = ground (arith, h, e)

extend_path : (x : Stmt) (b : Body) (e : Exit) → ExecutesStmt x e → HasPath b → HasPath (stmt x b)
extend_path x b returned p q = (returned, leaves x b p)
extend_path x b at_end p q = (q.0, goes_on x b p q.1)

rest_possible :
    (first open_if rest : Bool)
    → (if first then true else if open_if then false else rest) ≡ false
    → open_if ≡ false
    → rest ≡ false
rest_possible first open_if rest h e = ground (arith, h, e)

first_possible :
    (first open_if rest : Bool)
    → (if first then true else if open_if then false else rest) ≡ false
    → first ≡ false
first_possible first open_if rest h = ground (arith, h)

left_by : (c : Expr) (t b : Body) → if_leaves (if_then c t) b ≡ true → always_leaves t ≡ true
unfolding if_leaves
left_by c t b l = l

mutual
  unfolding is_impossible everywhere

  expr-path :
      (x : Expr) → everywhere if_leaves x ≡ true → is_impossible_expr x ≡ false → Evaluates x
  expr-path (expr s x) h e = evaluates (value-path x h e)

  value-path :
      (x : Value)
      → everywhere_value if_leaves x ≡ true
      → is_impossible_value x ≡ false
      → EvaluatesValue x
  value-path (atom a) h e = of_atom
  value-path (boolean_constant b) h e = of_boolean
  value-path (numeric_constant n) h e = of_numeric
  value-path (string_literal t) h e = of_string
  value-path (var v) h e = of_var
  value-path (global m t) h e = of_global
  value-path (scopeof x n) h e = of_scopeof
  value-path (boolean_not x) h e = of_not (expr-path x h e)
  value-path (addressof x) h e = of_addressof (expr-path x h e)
  value-path (deref x) h e = of_deref (expr-path x h e)
  value-path (member x t) h e = of_member (expr-path x h e)
  value-path (because x r) h e = of_because (expr-path x h e)
  value-path (boolean_expr o x y) h e =
      of_boolean_expr (expr-path x (&&-left _ _ h) (neither-left _ _ e))
        (expr-path y (&&-right _ _ h) (neither-right _ _ e))
  value-path (relation_expr o x y) h e =
      of_relation_expr (expr-path x (&&-left _ _ h) (neither-left _ _ e))
        (expr-path y (&&-right _ _ h) (neither-right _ _ e))
  value-path (arith_expr o x y) h e =
      of_arith_expr (expr-path x (&&-left _ _ h) (neither-left _ _ e))
        (expr-path y (&&-right _ _ h) (neither-right _ _ e))
  value-path (subscript x y) h e =
      of_subscript (expr-path x (&&-left _ _ h) (neither-left _ _ e))
        (expr-path y (&&-right _ _ h) (neither-right _ _ e))
  value-path (app f xs) h e =
      of_app (expr-path f (&&-left _ _ h) (neither-left _ _ e))
        (lambda-path f (&&-left _ _ h) (neither-left _ _ (neither-right _ _ e)))
        (exprs-path xs (&&-right _ _ h) (neither-right _ _ (neither-right _ _ e)))
  value-path (abs m gs r b) h e =
      of_abs (args-path gs (&&-left _ _ h) (neither-left _ _ e))
        (expr-path r (&&-left _ _ (&&-right _ _ h)) (neither-right _ _ e))
  value-path (pi m gs r) h e =
      of_pi (args-path gs (&&-left _ _ h) (neither-left _ _ e))
        (expr-path r (&&-right _ _ h) (neither-right _ _ e))
  value-path (sigma gs) h e = of_sigma (args-path gs h e)
  value-path (init_list xs) h e = of_init_list (exprs-path xs h e)

  lambda-path :
      (f : Expr) → everywhere if_leaves f ≡ true → is_impossible_lambda f ≡ false → Applies f
  lambda-path (expr s (abs m gs r b)) h e =
      of_lambda (body-path b (&&-right _ _ (&&-right _ _ h)) e).1
  lambda-path (expr s x) h e = of_other refl

  exprs-path :
      (xs : Exprs)
      → everywhere_exprs if_leaves xs ≡ true
      → is_impossible_exprs xs ≡ false
      → EvaluatesAll xs
  exprs-path no_exprs h e = all_none
  exprs-path (more x xs) h e =
      all_more (expr-path x (&&-left _ _ h) (neither-left _ _ e))
        (exprs-path xs (&&-right _ _ h) (neither-right _ _ e))

  args-path :
      (gs : Args)
      → everywhere_args if_leaves gs ≡ true
      → is_impossible_args gs ≡ false
      → EvaluatesTypes gs
  args-path no_args h e = types_none
  args-path (arg q t v gs) h e =
      types_more (expr-path t (&&-left _ _ h) (neither-left _ _ e))
        (args-path gs (&&-right _ _ h) (neither-right _ _ e))

  -- Of an `if` without else, the path that skips the branch.
  stmt-path :
      (x : Stmt) → everywhere_stmt if_leaves x ≡ true → is_impossible_stmt x ≡ false → StmtHasPath x
  stmt-path (call f xs) h e = (
    at_end,
    calls (expr-path f (&&-left _ _ h) (neither-left _ _ e))
        (lambda-path f (&&-left _ _ h) (neither-left _ _ (neither-right _ _ e)))
        (exprs-path xs (&&-right _ _ h) (neither-right _ _ (neither-right _ _ e))),
  )
  stmt-path (if_then c t) h e = (at_end, if_skipped (expr-path c (&&-left _ _ h) e))
  stmt-path (if_else c t f) h e = elim (Bool-cases (is_impossible t)) [
    | inl i ↦
        let q =
          body-path f (&&-right _ _ (&&-right _ _ h))
            (other_possible (is_impossible_expr c) (is_impossible t) (is_impossible f) e i) in
        (q.0, false_branch (expr-path c (&&-left _ _ h) (neither-left _ _ e)) q.1)
    | inr i ↦
        let q = body-path t (&&-left _ _ (&&-right _ _ h)) i in
        (q.0, true_branch (expr-path c (&&-left _ _ h) (neither-left _ _ e)) q.1)
  ]
  stmt-path return_void h e = (returned, returns_nothing)
  stmt-path (return_value x) h e = (returned, returns_value (expr-path x h e))
  stmt-path impossible h e = absurd (ground (arith, e))
  stmt-path (impossible_because x) h e = absurd (ground (arith, e))

  -- Of one that ends the loop, the path through the branch.
  if-path :
      (x : Stmt) (b : Body)
      → if_leaves x b ≡ true
      → everywhere_stmt if_leaves x ≡ true
      → is_possible_if x ≡ true
      → ExecutesStmt x returned
  if-path (if_then c t) b l h i =
      let d = possible_both (is_impossible_expr c) (is_impossible t) i in
      let q = body-path t (&&-right _ _ h) d.1 in
      if_taken (expr-path c (&&-left _ _ h) d.0)
        (return_path t q.0 (body-returned q.1 (left_by c t b l)) q.1)
  if-path (call f xs) b l h i = absurd (ground (arith, i))
  if-path (if_else c t f) b l h i = absurd (ground (arith, i))
  if-path return_void b l h i = absurd (ground (arith, i))
  if-path (return_value x) b l h i = absurd (ground (arith, i))
  if-path impossible b l h i = absurd (ground (arith, i))
  if-path (impossible_because x) b l h i = absurd (ground (arith, i))

  body-path : (b : Body) → everywhere_body if_leaves b ≡ true → is_impossible b ≡ false → HasPath b
  body-path done h e = (at_end, ends)
  body-path (stmt x b) h e = elim (Bool-cases (is_possible_if x)) [
    | inl i ↦ (returned, leaves x b (if-path x b (&&-left _ _ h) (&&-left _ _ (&&-right _ _ h)) i))
    | inr i ↦
        let first =
          stmt-path x (&&-left _ _ (&&-right _ _ h))
            (first_possible (is_impossible_stmt x) (is_possible_if x) (is_impossible b) e) in
        extend_path x b first.0 first.1 (
          body-path b (&&-right _ _ (&&-right _ _ h))
            (rest_possible (is_impossible_stmt x) (is_possible_if x) (is_impossible b) e i))
  ]

-- In a body where, at any depth and in the bodies of its functions too, the branch of every `if` without else
-- has among its statements a return, an `impossible`, or an if-else of both of whose branches the same is
-- true: if `is_impossible` does not accept the body, there is a path through it that meets no `impossible`.
pub is_impossible_complete :
    (b : Body) → everywhere_body if_leaves b ≡ true → is_impossible b ≡ false → HasPath b
is_impossible_complete b h e = body-path b h e
