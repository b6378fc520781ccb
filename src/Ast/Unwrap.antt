-- ===== src/Ast/Unwrap.antt =====
-- dep0/lib/01_ast/include/dep0/ast/unwrap_because.hpp and place_expression.hpp.
use depc.Prelude.{String}
use depc.Ast.{Var, Expr, expr, because, var, deref, member, subscript}

-- The expression under all the reasons that are given for it.
unfoldable pub unwrap_because : Expr → Expr
unwrap_because (expr s (because x r)) = unwrap_because x
unwrap_because (expr s x) = expr s x

-- `is_place_expression_result_t`
pub data PlaceExpression : Type 0 where
  place_var : Var → PlaceExpression
  place_deref : Expr → PlaceExpression
  place_member : Expr → String → PlaceExpression
  place_subscript : Expr → Expr → PlaceExpression
  value_expression : PlaceExpression

-- The `match` of `is_place_expression`.
unfoldable pub place_of : Expr → PlaceExpression
place_of (expr s (var x)) = place_var x
place_of (expr s (deref x)) = place_deref x
place_of (expr s (member x f)) = place_member x f
place_of (expr s (subscript x i)) = place_subscript x i
place_of (expr s x) = value_expression

unfoldable pub is_place_expression : Expr → PlaceExpression
is_place_expression x = place_of (unwrap_because x)
