-- ===== src/Tests/Usages.antt =====
-- A linear variable is used once, and not twice.
use depc.Prelude.{◌≤◌, ◌≡◌, ◌⊎◌, refl, true, none, some, if◌then◌else◌, arith}
use depc.Qty.{Qty, to_int, ◌+Q◌, ◌*Q◌}
use depc.Ast.{Var, var_eq, Expr, expr, kind, var, relation_expr, eq_t}
use depc.ScopeMap.{Heap, root_state, new, try_emplace, element, lookup, search_from}
use depc.ScopeMap.Stable.{IsHeap}
use depc.ScopeMap.Invariant.{IsHeap-new, IsHeap-operations}
use depc.Usage.{
  Decl, Context, usage_of, quantity_at, value_or_zero, assign_unless, assign, is_zero, try_add_decl,
  try_add, try_add_usage,
}
use depc.Usage.Merge.{merge, merge-keeps}
use depc.Usage.Frame.{IsStep, try_add-IsStep}
use depc.Usage.Rollback.{usage_after, try_add-rollback, try_add_usage-rollback}
use depc.Usage.Counted.{try_add_decl-counts}

abbrev x_var : Var
x_var = record { name = "x"; idx = 0; shadow_id = 0 }

abbrev x_decl : Decl
x_decl = record { qty = Qty.one; declared = x_var }

abbrev linear : Context
linear v = if var_eq v x_var then some x_decl else none

-- `x == x`
abbrev twice : Expr
twice = expr kind (relation_expr eq_t (expr kind (var x_var)) (expr kind (var x_var)))

abbrev no_scopes : Heap Qty
no_scopes = record { states = λ a. root_state; next = 0 }

no_scopes-IsHeap : IsHeap no_scopes
no_scopes-IsHeap = record {
  parent_older = λ a p l e. absurd (omega arith);
  limit_le = λ a p l e. absurd (omega arith);
  position_lt = λ a k i l e. absurd (omega arith);
}

-- An object that has counted nothing, and after it one that has counted `x` once.
unfoldable unused : Heap Qty
unfolding new
unused = (new no_scopes).1

unfoldable used_once : Heap Qty
unfolding unused new try_emplace
used_once = (try_emplace 1 x_var Qty.one (new unused).1).1

unused-IsHeap : IsHeap unused
unfolding unused
unused-IsHeap = IsHeap-new no_scopes no_scopes-IsHeap

used_once-IsHeap : IsHeap used_once
unfolding used_once unused
used_once-IsHeap =
    (IsHeap-operations (new unused).1 (IsHeap-new unused unused-IsHeap) 1 (omega arith) x_var
      Qty.one).3

try_add-IsStep_example : IsStep 0 unused (try_add linear Qty.one twice 0 unused)
try_add-IsStep_example = try_add-IsStep linear Qty.one twice 0 unused

try_add-rollback_example :
    usage_after (try_add linear Qty.one twice 0 unused) x_var ≡ usage_of unused 0 x_var
unfolding try_add var_eq unused
try_add-rollback_example =
    try_add-rollback unused unused-IsHeap 0 (omega arith) linear Qty.one twice refl x_var

try_add_usage-rollback_example :
    usage_after (try_add_usage linear 1 1 used_once) x_var ≡ usage_of used_once 1 x_var
unfolding try_add_usage var_eq used_once
try_add_usage-rollback_example =
    try_add_usage-rollback used_once used_once-IsHeap 1 (omega arith) linear 1 refl x_var

try_add_decl-counts_example :
    (usage_after (try_add_decl x_decl Qty.one 0 unused) x_var
      ≡ usage_of unused 0 x_var +Q (Qty.one *Q Qty.one))
    × ((is_zero Qty.one ≡ true)
        ⊎ (to_int (usage_after (try_add_decl x_decl Qty.one 0 unused) x_var) ≤ to_int Qty.one))
unfolding try_add_decl unused
try_add_decl-counts_example =
    try_add_decl-counts unused unused-IsHeap 0 (omega arith) (omega arith) x_decl Qty.one refl

merge-keeps_example :
    ((merge 0 1 (λ v q r. q +Q r) used_once).0 ≡ used_once.next)
    × (usage_of (merge 0 1 (λ v q r. q +Q r) used_once).1 1 x_var ≡ usage_of used_once 1 x_var)
unfolding used_once unused
merge-keeps_example =
    merge-keeps used_once used_once-IsHeap 0 1 (λ v q r. q +Q r) 1 (omega arith) x_var

-- Two objects that have each used `x` once have used it many times.
merged : (let r = merge 1 1 (λ v q r. q +Q r) used_once in usage_of r.1 r.0 x_var) ≡ Qty.many
unfolding merge usage_of quantity_at value_or_zero assign_unless assign element lookup search_from
    used_once unused new try_emplace ◌+Q◌ var_eq
merged = refl
