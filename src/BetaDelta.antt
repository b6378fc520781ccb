-- ===== src/BetaDelta.antt =====
-- dep0/lib/03_typecheck/src/beta_delta_equivalence.cpp: are two expressions or sorts equal up to reduction and the
-- names of bound variables? Reduction, `beta_delta_normalize`, is an argument: whether the expression
-- changed, and what it became.
use depc.Prelude.{Bool, ◌||◌, if◌then◌else◌}
use depc.Ast.{Expr, Sort, type, kind}
use depc.Alpha.{Verdict, equivalent, differ, not_beta_delta_equivalent, is_alpha_equivalent}

module _ (normalize : Expr → Bool × Expr) where
  -- `x2 = x; y2 = y; if (normalize(x2) | normalize(y2)) eq = is_alpha_equivalent(x2, y2);`
  unfoldable pub after_normalizing : Expr → Expr → Verdict → Verdict
  after_normalizing x y eq =
      let x2 = normalize x in
      let y2 = normalize y in if x2.0 || y2.0 then is_alpha_equivalent x2.1 y2.1 else eq

  -- `if (not eq) ...`
  unfoldable pub or_after_normalizing : Expr → Expr → Verdict → Verdict
  or_after_normalizing x y equivalent = equivalent
  or_after_normalizing x y (differ e) = after_normalizing x y (differ e)

  unfoldable pub is_beta_delta_equivalent : Expr → Expr → Verdict
  is_beta_delta_equivalent x y = or_after_normalizing x y (is_alpha_equivalent x y)

  -- The overload on two sorts.
  unfoldable pub are_sorts_equivalent : Sort → Sort → Verdict
  are_sorts_equivalent (type x) (type y) = is_beta_delta_equivalent x y
  are_sorts_equivalent kind kind = equivalent
  are_sorts_equivalent kind (type y) = differ not_beta_delta_equivalent
  are_sorts_equivalent (type x) kind = differ not_beta_delta_equivalent

  -- The overloads on an expression and a sort.
  unfoldable pub is_sort_of_expr : Expr → Sort → Verdict
  is_sort_of_expr x (type y) = is_beta_delta_equivalent x y
  is_sort_of_expr x kind = differ not_beta_delta_equivalent

  unfoldable pub is_expr_of_sort : Sort → Expr → Verdict
  is_expr_of_sort (type x) y = is_beta_delta_equivalent x y
  is_expr_of_sort kind y = differ not_beta_delta_equivalent
