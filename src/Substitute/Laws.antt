-- ===== src/Substitute/Laws.antt =====
-- The free variables of the results of substitute.cpp.
use depc.Prelude.{◌≡◌, false, arith}
use depc.Ast.{Var, Expr, Signature}
use depc.Ast.OccursIn.{free, occurs_in, occurs_in_signature}
use depc.Ast.MaxIndex.{max_index}
use depc.Ast.Weight.{weight, weight_signature}
use depc.Substitute.{substitute_expr, substitute_in}
use depc.Substitute.FreeVariables.{after, free_in_signature}
use depc.Substitute.Removed.{removed, removed_signature}

-- If a variable `v` is not free in `y`, it is not free in the result of substituting `y` for `v`, in an
-- expression and in arguments, return type and body.
pub substitute-removes :
    (v : Var) (y : Expr)
    → occurs_in v free y ≡ false
    → (x : Expr) (g : Signature)
    → (occurs_in v free (substitute_expr v y x) ≡ false)
      × (occurs_in_signature v free (substitute_in v y g) ≡ false)
unfolding substitute_expr substitute_in weight_signature
substitute-removes v y h x g = (
  removed v y h (weight x) x (omega arith),
  removed_signature v y h (weight_signature g) g.args g.ret_type g.body (omega arith),
)

-- If `v` and all variables of `y` have rename index 0, a variable `w` is free in the result of
-- substituting `y` for `v` exactly when it was free before and is not `v`, or `v` was free and `w` is
-- free in `y`: nothing is captured and nothing else becomes free.
pub substitute-captures_nothing :
    (v w : Var) (y : Expr)
    → v.idx ≡ 0
    → max_index y ≡ 0
    → (g : Signature)
    → occurs_in_signature w free (substitute_in v y g)
      ≡ after w v y (occurs_in_signature w free g) (occurs_in_signature v free g)
unfolding substitute_in weight_signature
substitute-captures_nothing v w y hv hy g =
    free_in_signature v w y hv hy (weight_signature g) g.args g.ret_type g.body (omega arith)
