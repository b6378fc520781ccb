-- ===== src/Mutable.antt =====
-- dep0/lib/03_typecheck/src/is_mutable.cpp: may evaluating an expression change the state? `none` is
-- the exception that `std::get` throws at a function whose sort is no Pi-type.
pub mod Calls
pub mod Parts
use depc.Prelude.{Bool, true, false, Option, none, some}
use depc.Ast.{
  IsMutable, immutable, mutable, Expr, expr, Sort, type, kind, Value, atom, boolean_constant,
  numeric_constant, string_literal, boolean_not, boolean_expr, relation_expr, arith_expr, var,
  global, app, abs, pi, sigma, addressof, deref, scopeof, init_list, member, subscript, because,
  Exprs, no_exprs, more,
}

-- `a or b`, where `b` is evaluated only if `a` is false.
abbrev pub or_else : Option Bool → Option Bool → Option Bool
or_else none b = none
or_else (some true) b = some true
or_else (some false) b = b

-- `x.is_mutable == ast::is_mutable_t::yes`
abbrev pub is_yes : IsMutable → Bool
is_yes immutable = false
is_yes mutable = true

-- `std::get<expr_t::pi_t>(func_type.value).is_mutable == ast::is_mutable_t::yes`
abbrev pub pi_mutable : Expr → Option Bool
pi_mutable (expr _ (pi m _ _)) = some (is_yes m)
pi_mutable _ = none

-- The same at the type of `x`, `std::get<expr_t>(x.properties.sort.get())`.
abbrev pub func_mutable : Expr → Option Bool
func_mutable (expr (type t) _) = pi_mutable t
func_mutable (expr kind _) = none

unfoldable mutual
  pub is_mutable : Expr → Option Bool
  is_mutable (expr _ x) = is_mutable_value x

  pub is_mutable_value : Value → Option Bool
  is_mutable_value (atom _) = some false
  is_mutable_value (boolean_constant _) = some false
  is_mutable_value (numeric_constant _) = some false
  is_mutable_value (string_literal _) = some false
  is_mutable_value (boolean_not x) = is_mutable x
  is_mutable_value (boolean_expr _ x y) = or_else (is_mutable x) (is_mutable y)
  is_mutable_value (relation_expr _ x y) = or_else (is_mutable x) (is_mutable y)
  is_mutable_value (arith_expr _ x y) = or_else (is_mutable x) (is_mutable y)
  is_mutable_value (var _) = some false
  is_mutable_value (global _ _) = some false
  is_mutable_value (app f xs) = or_else (func_mutable f) (is_mutable_exprs xs)
  is_mutable_value (abs _ _ _ _) = some false
  is_mutable_value (pi _ _ _) = some false
  is_mutable_value (sigma _) = some false
  is_mutable_value (addressof x) = is_mutable x
  is_mutable_value (deref x) = is_mutable x
  is_mutable_value (scopeof _ _) = some false
  is_mutable_value (init_list xs) = is_mutable_exprs xs
  is_mutable_value (member x _) = is_mutable x
  is_mutable_value (subscript x i) = or_else (is_mutable x) (is_mutable i)
  is_mutable_value (because x _) = is_mutable x

  -- `std::ranges::any_of`
  pub is_mutable_exprs : Exprs → Option Bool
  is_mutable_exprs no_exprs = some false
  is_mutable_exprs (more x xs) = or_else (is_mutable x) (is_mutable_exprs xs)

-- The overload on `app_t`, which is also a statement.
unfoldable pub is_mutable_app : Expr → Exprs → Option Bool
unfolding is_mutable
is_mutable_app f xs = or_else (func_mutable f) (is_mutable_exprs xs)
