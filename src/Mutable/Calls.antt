-- ===== src/Mutable/Calls.antt =====
-- `is_mutable` (is_mutable.cpp) against the calls that evaluating an expression makes.
use depc.Prelude.{
  ◌≡◌, ◌⊎◌, refl, Bool, true, false, Option, none, some, inl, inr, arith, &&-left, &&-right,
}
use depc.Ast.{
  immutable, mutable, Expr, expr, Sort, type, kind, Value, atom, boolean_constant, numeric_constant,
  string_literal, boolean_not, boolean_expr, relation_expr, arith_expr, var, global, app, abs, pi,
  sigma, addressof, deref, scopeof, init_list, member, subscript, because, Exprs, no_exprs, more,
}
use depc.Mutable.Parts.{
  IsPart, whole, in_value, IsPartOf, in_not, left_of_boolean_expr, right_of_boolean_expr,
  left_of_relation_expr, right_of_relation_expr, left_of_arith_expr, right_of_arith_expr,
  in_addressof, in_deref, in_argument, in_element, in_member, in_object, in_index, in_because,
  IsPartOfAny, in_first, in_others, calls_mutable, HasMutableCall, has_pi_type, is_typed,
  is_typed_value, is_typed_exprs,
}
use depc.Mutable.{or_else, func_mutable, is_mutable, is_mutable_value, is_mutable_exprs}

abbrev HasResult : Option Bool → Type 0
HasResult o = (b : Bool) × (o ≡ some b)

or_else-result : (a b : Option Bool) → HasResult a → HasResult b → HasResult (or_else a b)
or_else-result none b h k = absurd (ground (arith, h.1))
or_else-result (some true) b h k = (true, refl)
or_else-result (some false) b h k = k

or_else-cases : (a b : Option Bool) → or_else a b ≡ some true → (a ≡ some true) ⊎ (b ≡ some true)
or_else-cases none b h = absurd (ground (arith, h))
or_else-cases (some true) b h = inl refl
or_else-cases (some false) b h = inr h

or_else-first : (a b : Option Bool) → a ≡ some true → or_else a b ≡ some true
or_else-first a b h = rw h refl

or_else-second : (a b : Option Bool) → HasResult a → b ≡ some true → or_else a b ≡ some true
or_else-second none b r h = absurd (ground (arith, r.1))
or_else-second (some true) b r h = refl
or_else-second (some false) b r h = h

func_mutable-result : (f : Expr) → has_pi_type f ≡ true → HasResult (func_mutable f)
func_mutable-result (expr kind x) h = absurd (ground (arith, h))
func_mutable-result (expr (type (expr s (pi immutable gs r))) x) h = (false, refl)
func_mutable-result (expr (type (expr s (pi mutable gs r))) x) h = (true, refl)
func_mutable-result (expr (type (expr s v)) x) h = absurd (ground (arith, h))

func_mutable-calls :
    (s : Sort) (f : Expr) (xs : Exprs)
    → func_mutable f ≡ some true
    → calls_mutable (expr s (app f xs)) ≡ true
func_mutable-calls s (expr kind x) xs h = absurd (ground (arith, h))
func_mutable-calls s (expr (type (expr r (pi immutable gs t))) x) xs h = absurd (ground (arith, h))
func_mutable-calls s (expr (type (expr r (pi mutable gs t))) x) xs h = refl
func_mutable-calls s (expr (type (expr r v)) x) xs h = absurd (ground (arith, h))

called_mutable : (z : Expr) → calls_mutable z ≡ true → is_mutable z ≡ some true
unfolding is_mutable
called_mutable (expr s (app (expr (type (expr r (pi mutable gs t))) x) xs)) h = refl
called_mutable (expr s (app (expr (type (expr r v)) x) xs)) h = absurd (ground (arith, h))
called_mutable (expr s (app (expr kind x) xs)) h = absurd (ground (arith, h))
called_mutable (expr s v) h = absurd (ground (arith, h))

mutual
  unfolding is_mutable is_typed

  expr-result : (x : Expr) → is_typed x ≡ true → HasResult (is_mutable x)
  expr-result (expr s x) h = value-result x h

  value-result : (x : Value) → is_typed_value x ≡ true → HasResult (is_mutable_value x)
  value-result (atom x) h = (false, refl)
  value-result (boolean_constant x) h = (false, refl)
  value-result (numeric_constant x) h = (false, refl)
  value-result (string_literal x) h = (false, refl)
  value-result (var x) h = (false, refl)
  value-result (global m x) h = (false, refl)
  value-result (abs m gs r b) h = (false, refl)
  value-result (pi m gs r) h = (false, refl)
  value-result (sigma gs) h = (false, refl)
  value-result (scopeof x n) h = (false, refl)
  value-result (boolean_not x) h = expr-result x h
  value-result (addressof x) h = expr-result x h
  value-result (deref x) h = expr-result x h
  value-result (member x f) h = expr-result x h
  value-result (because x r) h = expr-result x h
  value-result (boolean_expr o x y) h =
      or_else-result _ _ (expr-result x (&&-left _ _ h)) (expr-result y (&&-right _ _ h))
  value-result (relation_expr o x y) h =
      or_else-result _ _ (expr-result x (&&-left _ _ h)) (expr-result y (&&-right _ _ h))
  value-result (arith_expr o x y) h =
      or_else-result _ _ (expr-result x (&&-left _ _ h)) (expr-result y (&&-right _ _ h))
  value-result (subscript x y) h =
      or_else-result _ _ (expr-result x (&&-left _ _ h)) (expr-result y (&&-right _ _ h))
  value-result (init_list xs) h = exprs-result xs h
  value-result (app f xs) h =
      or_else-result _ _ (func_mutable-result f (&&-left _ _ h)) (exprs-result xs (&&-right _ _ h))

  exprs-result : (xs : Exprs) → is_typed_exprs xs ≡ true → HasResult (is_mutable_exprs xs)
  exprs-result no_exprs h = (false, refl)
  exprs-result (more x xs) h =
      or_else-result _ _ (expr-result x (&&-left _ _ h)) (exprs-result xs (&&-right _ _ h))

abbrev AnyMutableCall : Exprs → Type 0
AnyMutableCall xs = (z : Expr) × IsPartOfAny z xs × (calls_mutable z ≡ true)

mutual
  unfolding is_mutable

  expr-call : (x : Expr) → is_mutable x ≡ some true → HasMutableCall x
  expr-call (expr s x) h = value-call s x h

  value-call : (s : Sort) (x : Value) → is_mutable_value x ≡ some true → HasMutableCall (expr s x)
  value-call s (atom x) h = absurd (ground (arith, h))
  value-call s (boolean_constant x) h = absurd (ground (arith, h))
  value-call s (numeric_constant x) h = absurd (ground (arith, h))
  value-call s (string_literal x) h = absurd (ground (arith, h))
  value-call s (var x) h = absurd (ground (arith, h))
  value-call s (global m x) h = absurd (ground (arith, h))
  value-call s (abs m gs r b) h = absurd (ground (arith, h))
  value-call s (pi m gs r) h = absurd (ground (arith, h))
  value-call s (sigma gs) h = absurd (ground (arith, h))
  value-call s (scopeof x n) h = absurd (ground (arith, h))
  value-call s (boolean_not x) h = let r = expr-call x h in (r.0, in_value (in_not r.1), r.2)
  value-call s (addressof x) h = let r = expr-call x h in (r.0, in_value (in_addressof r.1), r.2)
  value-call s (deref x) h = let r = expr-call x h in (r.0, in_value (in_deref r.1), r.2)
  value-call s (member x f) h = let r = expr-call x h in (r.0, in_value (in_member r.1), r.2)
  value-call s (because x t) h = let r = expr-call x h in (r.0, in_value (in_because r.1), r.2)
  value-call s (boolean_expr o x y) h = elim (or_else-cases (is_mutable x) (is_mutable y) h) [
    | inl e ↦ let r = expr-call x e in (r.0, in_value (left_of_boolean_expr x y r.1), r.2)
    | inr e ↦ let r = expr-call y e in (r.0, in_value (right_of_boolean_expr x y r.1), r.2)
  ]
  value-call s (relation_expr o x y) h = elim (or_else-cases (is_mutable x) (is_mutable y) h) [
    | inl e ↦ let r = expr-call x e in (r.0, in_value (left_of_relation_expr x y r.1), r.2)
    | inr e ↦ let r = expr-call y e in (r.0, in_value (right_of_relation_expr x y r.1), r.2)
  ]
  value-call s (arith_expr o x y) h = elim (or_else-cases (is_mutable x) (is_mutable y) h) [
    | inl e ↦ let r = expr-call x e in (r.0, in_value (left_of_arith_expr x y r.1), r.2)
    | inr e ↦ let r = expr-call y e in (r.0, in_value (right_of_arith_expr x y r.1), r.2)
  ]
  value-call s (subscript x y) h = elim (or_else-cases (is_mutable x) (is_mutable y) h) [
    | inl e ↦ let r = expr-call x e in (r.0, in_value (in_object x y r.1), r.2)
    | inr e ↦ let r = expr-call y e in (r.0, in_value (in_index x y r.1), r.2)
  ]
  value-call s (init_list xs) h = let r = exprs-call xs h in (r.0, in_value (in_element r.1), r.2)
  value-call s (app f xs) h = elim (or_else-cases (func_mutable f) (is_mutable_exprs xs) h) [
    | inl e ↦ (expr s (app f xs), whole, func_mutable-calls s f xs e)
    | inr e ↦ let r = exprs-call xs e in (r.0, in_value (in_argument f xs r.1), r.2)
  ]

  exprs-call : (xs : Exprs) → is_mutable_exprs xs ≡ some true → AnyMutableCall xs
  exprs-call no_exprs h = absurd (ground (arith, h))
  exprs-call (more x xs) h = elim (or_else-cases (is_mutable x) (is_mutable_exprs xs) h) [
    | inl e ↦ let r = expr-call x e in (r.0, in_first x xs r.1, r.2)
    | inr e ↦ let r = exprs-call xs e in (r.0, in_others x xs r.1, r.2)
  ]

module _ (z : Expr) (calls : is_mutable z ≡ some true) where
  mutual
    unfolding is_mutable is_typed

    part-mutable : {x : Expr} → IsPart z x → is_typed x ≡ true → is_mutable x ≡ some true
    part-mutable whole h = calls
    part-mutable (in_value p) h = part_of-mutable p h

    part_of-mutable :
        {x : Value} → IsPartOf z x → is_typed_value x ≡ true → is_mutable_value x ≡ some true
    part_of-mutable (in_not p) h = part-mutable p h
    part_of-mutable (in_addressof p) h = part-mutable p h
    part_of-mutable (in_deref p) h = part-mutable p h
    part_of-mutable (in_member p) h = part-mutable p h
    part_of-mutable (in_because p) h = part-mutable p h
    part_of-mutable (left_of_boolean_expr x y p) h =
        or_else-first _ _ (part-mutable p (&&-left _ _ h))
    part_of-mutable (right_of_boolean_expr x y p) h =
        or_else-second _ _ (expr-result x (&&-left _ _ h)) (part-mutable p (&&-right _ _ h))
    part_of-mutable (left_of_relation_expr x y p) h =
        or_else-first _ _ (part-mutable p (&&-left _ _ h))
    part_of-mutable (right_of_relation_expr x y p) h =
        or_else-second _ _ (expr-result x (&&-left _ _ h)) (part-mutable p (&&-right _ _ h))
    part_of-mutable (left_of_arith_expr x y p) h =
        or_else-first _ _ (part-mutable p (&&-left _ _ h))
    part_of-mutable (right_of_arith_expr x y p) h =
        or_else-second _ _ (expr-result x (&&-left _ _ h)) (part-mutable p (&&-right _ _ h))
    part_of-mutable (in_object x y p) h = or_else-first _ _ (part-mutable p (&&-left _ _ h))
    part_of-mutable (in_index x y p) h =
        or_else-second _ _ (expr-result x (&&-left _ _ h)) (part-mutable p (&&-right _ _ h))
    part_of-mutable (in_argument f xs p) h =
        or_else-second _ _ (func_mutable-result f (&&-left _ _ h)) (any-mutable p (&&-right _ _ h))
    part_of-mutable (in_element p) h = any-mutable p h

    any-mutable :
        {xs : Exprs} → IsPartOfAny z xs → is_typed_exprs xs ≡ true → is_mutable_exprs xs ≡ some true
    any-mutable (in_first x xs p) h = or_else-first _ _ (part-mutable p (&&-left _ _ h))
    any-mutable (in_others x xs p) h =
        or_else-second _ _ (expr-result x (&&-left _ _ h)) (any-mutable p (&&-right _ _ h))

-- In an expression where the functions of the evaluated calls have Pi-types, `is_mutable` does not throw, and
-- it is true exactly when a part that is evaluated is a call of a function of a mutable type. The function of a
-- call is no such part.
pub is_mutable-calls :
    (x : Expr)
    → is_typed x ≡ true
    → ((b : Bool) × (is_mutable x ≡ some b))
      × (is_mutable x ≡ some true → HasMutableCall x)
      × (HasMutableCall x → is_mutable x ≡ some true)
is_mutable-calls x h =
    (expr-result x h, expr-call x, λ r. part-mutable r.0 (called_mutable r.0 r.2) r.1 h)
