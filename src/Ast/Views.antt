-- ===== src/Ast/Views.antt =====
-- dep0/lib/01_ast/include/dep0/ast/views.hpp: the parts of array types and of reference types.
use depc.Prelude.{◌≡◌, refl, Option, none, some, arith}
use depc.Ast.{Expr, expr, array_t, ref_t, atom, app, Exprs, no_exprs, more}
use depc.Ast.Unwrap.{unwrap_because}

pub record ArrayView : Type 0 where
  pub element_type : Expr
  pub size : Expr

pub record RefView : Type 0 where
  pub referenced_type : Expr
  pub scope : Expr

abbrev pub array_of_args : Exprs → Option ArrayView
array_of_args (more x (more y no_exprs)) = some (record { element_type = x; size = y })
array_of_args xs = none

abbrev pub ref_of_args : Exprs → Option RefView
ref_of_args (more x (more y no_exprs)) = some (record { referenced_type = x; scope = y })
ref_of_args xs = none

-- Is the expression under the reasons an application of the array type to two arguments?
unfoldable pub array_of : Expr → Option ArrayView
array_of (expr s (app (expr r (atom array_t)) xs)) = array_of_args xs
array_of x = none

unfoldable pub get_if_array : Expr → Option ArrayView
unfolding array_of unwrap_because
get_if_array x = array_of (unwrap_because x)

-- The same of the reference type.
unfoldable pub ref_of : Expr → Option RefView
ref_of (expr s (app (expr r (atom ref_t)) xs)) = ref_of_args xs
ref_of x = none

unfoldable pub get_if_ref : Expr → Option RefView
unfolding ref_of unwrap_because
get_if_ref x = ref_of (unwrap_because x)

of_both : (x : Expr) (v : ArrayView) → array_of x ≡ some v → ref_of x ≡ none
unfolding array_of ref_of
of_both (expr s (app (expr r (atom array_t)) xs)) v e = refl
of_both (expr s (app (expr r (atom ref_t)) xs)) v e = absurd (ground (arith, e))
of_both x v e = refl

-- No expression is both an array type and a reference type.
pub get_if_ref-array : (x : Expr) (v : ArrayView) → get_if_array x ≡ some v → get_if_ref x ≡ none
unfolding get_if_array get_if_ref
get_if_ref-array x v e = of_both (unwrap_because x) v e
