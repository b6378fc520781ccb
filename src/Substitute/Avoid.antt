-- ===== src/Substitute/Avoid.antt =====
-- Renaming a binding variable keeps the weight of what follows it.
use depc.Prelude.{◌≡◌, refl, Option, none, some, arith}
use depc.Ast.{Var, Expr, IsMutable, Args, Body, Signature}
use depc.Ast.OccursIn.{free, occurs_in, occurs_in_value, occurs_in_optional, occurs_in_signature}
use depc.Ast.Rename.{rename, rename_args}
use depc.Ast.Weight.{weight_args, weight_signature}
use depc.Ast.Weight.Replace.{weight-replace_args, weight-replace_signature}
use depc.Substitute.{avoid_capture, avoid_capture_args, function}

pub weight_avoid :
    (y : Expr) (x : Option Var) (g : Signature)
    → weight_signature (avoid_capture y x g).1 ≡ weight_signature g
unfolding avoid_capture rename
weight_avoid y none g = refl
weight_avoid y (some x) g = ground (arith, weight-replace_signature x (rename x g).0 g)

pub weight_avoid_args :
    (y : Expr) (x : Option Var) (gs : Args)
    → weight_args (avoid_capture_args y x gs).1 ≡ weight_args gs
unfolding avoid_capture_args rename_args
weight_avoid_args y none gs = refl
weight_avoid_args y (some x) gs = ground (arith, weight-replace_args x (rename_args x gs).0 gs)

-- An abstraction or a Pi-type has the occurrences of its signature.
pub function_occurs :
    (v : Var) (m : IsMutable) (g : Signature)
    → occurs_in_value v free (function m g) ≡ occurs_in_signature v free g
unfolding function occurs_in occurs_in_signature occurs_in_optional
function_occurs v m g = function_parts g.args g.ret_type g.body
  where
    function_parts :
        (gs : Args) (x : Expr) (d : Option Body)
        → occurs_in_value v free (function m (record { args = gs; ret_type = x; body = d }))
          ≡ occurs_in_signature v free (record { args = gs; ret_type = x; body = d })
    function_parts gs x none = ground arith
    function_parts gs x (some d) = refl
