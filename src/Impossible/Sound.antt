-- ===== src/Impossible/Sound.antt =====
-- `is_impossible` (is_impossible.cpp) against the paths through a body.
use depc.Prelude.{
  ◌≡◌, refl, Bool, true, false, not, ◌&&◌, ◌||◌, arith, Bool-cases, &&-left, &&-right, inl, inr,
  if◌then◌else◌,
}
use depc.Ast.{Expr, expr, Value, abs, Exprs, Args, Body, done, stmt, Stmt}
use depc.Impossible.{
  is_impossible_expr, is_impossible_value, is_impossible_lambda, is_impossible_exprs,
  is_impossible_args, is_impossible_stmt, is_possible_if, is_impossible,
}
use depc.Impossible.Paths.{
  Exit, returned, is_lambda, Evaluates, evaluates, EvaluatesValue, of_atom, of_boolean, of_numeric,
  of_string, of_var, of_global, of_scopeof, of_not, of_boolean_expr, of_relation_expr,
  of_arith_expr, of_app, of_abs, of_pi, of_sigma, of_addressof, of_deref, of_init_list, of_member,
  of_subscript, of_because, Applies, of_lambda, of_other, EvaluatesAll, all_none, all_more,
  EvaluatesTypes, types_none, types_more, ExecutesStmt, calls, if_taken, if_skipped, true_branch,
  false_branch, returns_nothing, returns_value, Executes, ends, leaves, goes_on, everywhere,
  everywhere_value, everywhere_exprs, everywhere_args, everywhere_body, everywhere_stmt,
}
use depc.Impossible.Returns.{never_returns_stmt, is_if_then, is_done, returns_last, stmt-at_end}

is_impossible-done : (b : Body) → is_done b ≡ true → is_impossible b ≡ false
unfolding is_done is_impossible
is_impossible-done done h = refl
is_impossible-done (stmt x b) h = absurd (ground (arith, h))

-- The loop goes past what can be executed, and what decides it is possible.
loop_possible :
    (first open_if rest : Bool)
    → first ≡ false
    → (open_if ≡ false → rest ≡ false)
    → (if first then true else if open_if then false else rest) ≡ false
loop_possible first true rest e h = rw e
loop_possible first false rest e h = rw (e, h refl)

-- A statement through which a path returns is an `if` that ends the loop, or the last statement.
loop_left :
    (x : Stmt) (b : Body)
    → ExecutesStmt x returned
    → returns_last x b ≡ true
    → is_impossible_stmt x ≡ false
    → (is_if_then x ≡ true → is_possible_if x ≡ true)
    → is_impossible (stmt x b) ≡ false
unfolding returns_last is_impossible
loop_left x b p l e h = elim (Bool-cases (is_if_then x)) [
  | inl i ↦
      loop_possible (is_impossible_stmt x) (is_possible_if x) (is_impossible b) e
        (λ n. absurd (ground (arith, h i, n)))
  | inr i ↦ elim (Bool-cases (never_returns_stmt x)) [
    | inl n ↦ absurd (ground (arith, stmt-at_end p n))
    | inr n ↦
        loop_possible (is_impossible_stmt x) (is_possible_if x) (is_impossible b) e
          (λ k. is_impossible-done b (ground (arith, l, i, n)))
  ]
]

no_lambda : (f : Expr) → is_lambda f ≡ false → is_impossible_lambda f ≡ false
unfolding is_impossible
no_lambda (expr s (abs m gs r b)) e = absurd (ground (arith, e))
no_lambda (expr s x) e = refl

neither : {a b : Bool} → a ≡ false → b ≡ false → (a || b) ≡ false
neither e d = rw (e, d)

neither_then : (c t f : Bool) → c ≡ false → t ≡ false → (c || (t && f)) ≡ false
neither_then c t f e d = rw (e, d)

neither_else : (c t f : Bool) → c ≡ false → f ≡ false → (c || (t && f)) ≡ false
neither_else c t f e d = ground arith

both_possible : {a b : Bool} → a ≡ false → b ≡ false → (not a && not b) ≡ true
both_possible e d = rw (e, d)

mutual
  unfolding is_impossible everywhere is_if_then

  expr-possible :
      {x : Expr} → Evaluates x → everywhere returns_last x ≡ true → is_impossible_expr x ≡ false
  expr-possible (evaluates p) h = value-possible p h

  value-possible :
      {x : Value}
      → EvaluatesValue x
      → everywhere_value returns_last x ≡ true
      → is_impossible_value x ≡ false
  value-possible of_atom h = refl
  value-possible of_boolean h = refl
  value-possible of_numeric h = refl
  value-possible of_string h = refl
  value-possible of_var h = refl
  value-possible of_global h = refl
  value-possible of_scopeof h = refl
  value-possible (of_not p) h = expr-possible p h
  value-possible (of_addressof p) h = expr-possible p h
  value-possible (of_deref p) h = expr-possible p h
  value-possible (of_member p) h = expr-possible p h
  value-possible (of_because p) h = expr-possible p h
  value-possible (of_boolean_expr p q) h =
      neither (expr-possible p (&&-left _ _ h)) (expr-possible q (&&-right _ _ h))
  value-possible (of_relation_expr p q) h =
      neither (expr-possible p (&&-left _ _ h)) (expr-possible q (&&-right _ _ h))
  value-possible (of_arith_expr p q) h =
      neither (expr-possible p (&&-left _ _ h)) (expr-possible q (&&-right _ _ h))
  value-possible (of_subscript p q) h =
      neither (expr-possible p (&&-left _ _ h)) (expr-possible q (&&-right _ _ h))
  value-possible (of_app p q r) h =
      neither (expr-possible p (&&-left _ _ h))
        (neither (lambda-possible q (&&-left _ _ h)) (exprs-possible r (&&-right _ _ h)))
  value-possible (of_abs p q) h =
      neither (args-possible p (&&-left _ _ h)) (expr-possible q (&&-left _ _ (&&-right _ _ h)))
  value-possible (of_pi p q) h =
      neither (args-possible p (&&-left _ _ h)) (expr-possible q (&&-right _ _ h))
  value-possible (of_sigma p) h = args-possible p h
  value-possible (of_init_list p) h = exprs-possible p h

  lambda-possible :
      {f : Expr} → Applies f → everywhere returns_last f ≡ true → is_impossible_lambda f ≡ false
  lambda-possible (of_lambda p) h = body-possible p (&&-right _ _ (&&-right _ _ h))
  lambda-possible (of_other {f = f} e) h = no_lambda f e

  exprs-possible :
      {xs : Exprs}
      → EvaluatesAll xs
      → everywhere_exprs returns_last xs ≡ true
      → is_impossible_exprs xs ≡ false
  exprs-possible all_none h = refl
  exprs-possible (all_more p q) h =
      neither (expr-possible p (&&-left _ _ h)) (exprs-possible q (&&-right _ _ h))

  args-possible :
      {gs : Args}
      → EvaluatesTypes gs
      → everywhere_args returns_last gs ≡ true
      → is_impossible_args gs ≡ false
  args-possible types_none h = refl
  args-possible (types_more p q) h =
      neither (expr-possible p (&&-left _ _ h)) (args-possible q (&&-right _ _ h))

  stmt-possible :
      {x : Stmt} {e : Exit}
      → ExecutesStmt x e
      → everywhere_stmt returns_last x ≡ true
      → is_impossible_stmt x ≡ false
  stmt-possible (calls p q r) h =
      neither (expr-possible p (&&-left _ _ h))
        (neither (lambda-possible q (&&-left _ _ h)) (exprs-possible r (&&-right _ _ h)))
  stmt-possible (if_taken p q) h = expr-possible p (&&-left _ _ h)
  stmt-possible (if_skipped p) h = expr-possible p (&&-left _ _ h)
  stmt-possible (true_branch p q) h =
      neither_then _ _ _ (expr-possible p (&&-left _ _ h))
        (body-possible q (&&-left _ _ (&&-right _ _ h)))
  stmt-possible (false_branch p q) h =
      neither_else _ _ _ (expr-possible p (&&-left _ _ h))
        (body-possible q (&&-right _ _ (&&-right _ _ h)))
  stmt-possible returns_nothing h = refl
  stmt-possible (returns_value p) h = expr-possible p h

  if-possible :
      {x : Stmt} {e : Exit}
      → ExecutesStmt x e
      → e ≡ returned
      → everywhere_stmt returns_last x ≡ true
      → is_if_then x ≡ true
      → is_possible_if x ≡ true
  if-possible (if_taken p q) d h i =
      both_possible (expr-possible p (&&-left _ _ h)) (body-possible q (&&-right _ _ h))
  if-possible (if_skipped p) d h i = absurd (ground (arith, d))
  if-possible (calls p q r) d h i = absurd (ground (arith, i))
  if-possible (true_branch p q) d h i = absurd (ground (arith, i))
  if-possible (false_branch p q) d h i = absurd (ground (arith, i))
  if-possible returns_nothing d h i = absurd (ground (arith, i))
  if-possible (returns_value p) d h i = absurd (ground (arith, i))

  body-possible :
      {b : Body} {e : Exit}
      → Executes b e
      → everywhere_body returns_last b ≡ true
      → is_impossible b ≡ false
  body-possible ends h = refl
  body-possible (leaves x b p) h =
      loop_left x b p (&&-left _ _ h) (stmt-possible p (&&-left _ _ (&&-right _ _ h)))
        (if-possible p refl (&&-left _ _ (&&-right _ _ h)))
  body-possible (goes_on x b p q) h =
      loop_possible (is_impossible_stmt x) (is_possible_if x) (is_impossible b)
        (stmt-possible p (&&-left _ _ (&&-right _ _ h)))
        (λ k. body-possible q (&&-right _ _ (&&-right _ _ h)))

-- Where a return statement is, or a statement with one in it, nothing follows in the same block, unless the
-- statement is an `if` without else. In such a body, the bodies of its functions included, a path that meets no
-- `impossible`, however it is left, means that `is_impossible` does not accept the body.
pub is_impossible_sound :
    (b : Body)
    → everywhere_body returns_last b ≡ true
    → (e : Exit) → Executes b e
    → is_impossible b ≡ false
is_impossible_sound b h e p = body-possible p h
