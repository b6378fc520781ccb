-- ===== src/Mutable/Parts.antt =====
-- What evaluating an expression evaluates, and which of it is a call of a mutable function: an independent
-- description that is_mutable.cpp is compared with.
use depc.Prelude.{◌≡◌, Bool, true, false, ◌&&◌, String}
use depc.Ast.{
  mutable, BooleanOp, RelationOp, ArithOp, Expr, expr, Sort, type, Value, boolean_not, boolean_expr,
  relation_expr, arith_expr, app, pi, addressof, deref, init_list, member, subscript, because,
  Exprs, no_exprs, more,
}

-- `z` is evaluated when the expression is: it is the expression or in an operand, an argument or an element, but
-- not in the function of a call, a type, a body, a scope or a reason.
mutual
  pub data IsPart (z : Expr) : Expr → Type 0 where
    whole : IsPart z z
    in_value : {s : Sort} {x : Value} → IsPartOf z x → IsPart z (expr s x)

  pub data IsPartOf (z : Expr) : Value → Type 0 where
    in_not : {x : Expr} → IsPart z x → IsPartOf z (boolean_not x)
    left_of_boolean_expr :
        {o : BooleanOp} (x y : Expr) → IsPart z x → IsPartOf z (boolean_expr o x y)
    right_of_boolean_expr :
        {o : BooleanOp} (x y : Expr) → IsPart z y → IsPartOf z (boolean_expr o x y)
    left_of_relation_expr :
        {o : RelationOp} (x y : Expr) → IsPart z x → IsPartOf z (relation_expr o x y)
    right_of_relation_expr :
        {o : RelationOp} (x y : Expr) → IsPart z y → IsPartOf z (relation_expr o x y)
    left_of_arith_expr : {o : ArithOp} (x y : Expr) → IsPart z x → IsPartOf z (arith_expr o x y)
    right_of_arith_expr : {o : ArithOp} (x y : Expr) → IsPart z y → IsPartOf z (arith_expr o x y)
    in_addressof : {x : Expr} → IsPart z x → IsPartOf z (addressof x)
    in_deref : {x : Expr} → IsPart z x → IsPartOf z (deref x)
    in_argument : (f : Expr) (xs : Exprs) → IsPartOfAny z xs → IsPartOf z (app f xs)
    in_element : {xs : Exprs} → IsPartOfAny z xs → IsPartOf z (init_list xs)
    in_member : {x : Expr} {t : String} → IsPart z x → IsPartOf z (member x t)
    in_object : (x i : Expr) → IsPart z x → IsPartOf z (subscript x i)
    in_index : (x i : Expr) → IsPart z i → IsPartOf z (subscript x i)
    in_because : {x r : Expr} → IsPart z x → IsPartOf z (because x r)

  pub data IsPartOfAny (z : Expr) : Exprs → Type 0 where
    in_first : (x : Expr) (xs : Exprs) → IsPart z x → IsPartOfAny z (more x xs)
    in_others : (x : Expr) (xs : Exprs) → IsPartOfAny z xs → IsPartOfAny z (more x xs)

-- A call of a function whose type is a mutable Pi-type.
abbrev pub calls_mutable : Expr → Bool
calls_mutable (expr _ (app (expr (type (expr _ (pi mutable _ _))) _) _)) = true
calls_mutable _ = false

abbrev pub HasMutableCall : Expr → Type 0
HasMutableCall x = (z : Expr) × IsPart z x × (calls_mutable z ≡ true)

abbrev pub has_pi_type : Expr → Bool
has_pi_type (expr (type (expr _ (pi _ _ _))) _) = true
has_pi_type _ = false

-- The functions of the calls in it have Pi-types, as type checking ensures.
unfoldable mutual
  pub is_typed : Expr → Bool
  is_typed (expr _ x) = is_typed_value x

  pub is_typed_value : Value → Bool
  is_typed_value (boolean_not x) = is_typed x
  is_typed_value (boolean_expr _ x y) = is_typed x && is_typed y
  is_typed_value (relation_expr _ x y) = is_typed x && is_typed y
  is_typed_value (arith_expr _ x y) = is_typed x && is_typed y
  is_typed_value (app f xs) = has_pi_type f && is_typed_exprs xs
  is_typed_value (addressof x) = is_typed x
  is_typed_value (deref x) = is_typed x
  is_typed_value (init_list xs) = is_typed_exprs xs
  is_typed_value (member x _) = is_typed x
  is_typed_value (subscript x i) = is_typed x && is_typed i
  is_typed_value (because x _) = is_typed x
  is_typed_value _ = true

  pub is_typed_exprs : Exprs → Bool
  is_typed_exprs no_exprs = true
  is_typed_exprs (more x xs) = is_typed x && is_typed_exprs xs
