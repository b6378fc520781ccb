-- ===== src/Alpha/Because.antt =====
-- Reasons in the comparison of two expressions.
use depc.Prelude.{ℕ, zero, suc, ◌+◌, ◌≤◌, ◌≡◌, sym, ◌∙◌, arith}
use depc.Ast.{Expr, expr, because}
use depc.Ast.Unwrap.{unwrap_because}
use depc.Ast.Weight.{weight, weight_pos}
use depc.Alpha.{alpha, is_alpha_equivalent}
use depc.Alpha.Fuel.{at_fuel}

alpha-unwrap_because :
    (n : ℕ) (x y : Expr)
    → weight x + weight y ≤ n
    → alpha n x y ≡ is_alpha_equivalent (unwrap_because x) (unwrap_because y)
unfolding alpha unwrap_because weight
alpha-unwrap_because zero x y h = absurd (omega (arith, weight_pos x))
alpha-unwrap_because (suc n) (expr s (because x r)) (expr t (because y q)) h =
    alpha-unwrap_because n x y (omega arith)
alpha-unwrap_because (suc n) (expr s (because x r)) (expr t y) h =
    alpha-unwrap_because n x (expr t y) (omega arith)
alpha-unwrap_because (suc n) (expr s x) (expr t (because y q)) h =
    alpha-unwrap_because n (expr s x) y (omega arith)
alpha-unwrap_because (suc n) (expr s x) (expr t y) h = at_fuel (suc n) (expr s x) (expr t y) h

-- Reasons never matter: two expressions compare as what is left of them when they are unwrapped. The
-- verdict is the same, the failure included.
pub is_alpha_equivalent-unwrap_because :
    (x y : Expr)
    → is_alpha_equivalent x y ≡ is_alpha_equivalent (unwrap_because x) (unwrap_because y)
is_alpha_equivalent-unwrap_because x y =
    let n = weight x + weight y in
    sym (at_fuel n x y (omega arith)) ∙ alpha-unwrap_because n x y (omega arith)
