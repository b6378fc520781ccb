-- ===== src/Tests/Contexts.antt =====
-- Declarations in nested contexts.
use depc.Prelude.{◌≡◌, ◌≢◌, refl, ap, false, String, Option, none, arith}
use text.Mathlib.Text.{◌==◌ as str_eq}
use depc.Qty.{Qty, one}
use depc.Ast.{Expr, expr, kind, atom, bool_t, var_eq}
use depc.ScopeMap.{Heap, find, root_state, emplace, try_emplace, search_from, element, lookup}
use depc.ScopeMap.Values.{value_at, pointed, value_of}
use depc.ScopeMap.Stable.{IsHeap}
use depc.Context.{
  Context, Store, Location, scoped, unscoped, Emplaced, emplaced, new_context, extend_as,
  try_emplace_name, emplace_value, next_shadow_id,
}
use depc.Context.Valid.{IsContext, HasRoom, IsContext-new_context}
use depc.Context.Scoping.{scoping, declare, declared_as}
use depc.Context.Refines.{try_emplace_name-declare}
use depc.Context.Nested.{extend_as-scoping}

abbrev no_states : {V : Type 0} → Heap V
no_states = record { states = λ a. root_state; next = 0 }

no_states-IsHeap : {V : Type 0} → IsHeap {V = V} no_states
no_states-IsHeap = record {
  parent_older = λ a p l e. absurd (omega arith);
  limit_le = λ a p l e. absurd (omega arith);
  position_lt = λ a k i l e. absurd (omega arith);
}

abbrev no_contexts : Store
no_contexts = record { names = no_states; decls = no_states; unnamed_idx = 0 }

unfoldable start : Context × Store
unfolding new_context
start = new_context unscoped no_contexts

abbrev boolean : Expr
boolean = expr kind (atom bool_t)

start-IsContext : IsContext start.1 start.0
unfolding start
start-IsContext = IsContext-new_context unscoped no_contexts no_states-IsHeap no_states-IsHeap

start-HasRoom : HasRoom start.1 start.0
unfolding start
start-HasRoom = record { names_room = omega arith; decls_room = omega arith }

abbrev x_name : String
x_name = "x"

x_ne_auto : x_name ≢ "auto"
x_ne_auto e = absurd (ground (arith, ap (λ s. str_eq s "auto") e))

try_emplace_name-declare_example :
    (let r = try_emplace_name x_name none one boolean start.0 start.1 in
      let s = declare x_name (declared_as none one boolean start.0) (scoping start.1 start.0) in
      (r.0 ≡ s.0) × (scoping r.1 start.0 ≡ s.1) × IsContext r.1 start.0)
try_emplace_name-declare_example =
    try_emplace_name-declare start.1 start.0 start-IsContext start-HasRoom x_name x_ne_auto none one
      boolean

extend_as-scoping_example :
    (let r = extend_as scoped start.0 start.1 in
      (scoping r.1 r.0 ≡ record (scoping start.1 start.0) { own = λ n. false })
      × (scoping r.1 start.0 ≡ scoping start.1 start.0)
      × IsContext r.1 r.0
      × IsContext r.1 start.0
      × ((n : String) (loc : Option Location) (q : Qty) (t : Expr)
          → scoping (try_emplace_name n loc q t r.0 r.1).1 start.0 ≡ scoping start.1 start.0))
extend_as-scoping_example = extend_as-scoping start.1 start.0 start-IsContext start-HasRoom scoped

-- Declaring `x` again in a nested scope shadows it.
abbrev nested : Emplaced
nested =
    let st = (try_emplace_name x_name none one boolean start.0 start.1).1 in
    let r = extend_as scoped start.0 st in (try_emplace_name x_name none one boolean r.0 r.1).0

redeclared : nested ≡ emplaced (record { name = "x"; idx = 0; shadow_id = 1 })
unfolding start new_context try_emplace_name extend_as emplace_value try_emplace emplace find lookup
    search_from value_at pointed value_of element next_shadow_id var_eq
redeclared = refl
