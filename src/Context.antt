-- ===== src/Context.antt =====
-- dep0/lib/03_typecheck/src/context.cpp and include/dep0/typecheck/context.hpp: typing contexts. A context is two
-- scope maps, `m_index` from names to variables and `m_values` from variables to declarations; the states
-- of all contexts live on the two heaps of `Store`, next to the static counter of `add_unnamed`. A key
-- of `m_index` is a name, here the variable of that name whose other members are zero.
pub mod Inserted
pub mod Nested
pub mod Refines
pub mod Scoping
pub mod Valid
use depc.Prelude.{ℕ, suc, ◌+◌, String, Bool, true, false, Option, none, some}
use depc.Qty.{Qty}
use depc.Ast.{Var, Expr}
use depc.ScopeMap.{Heap, new, extend, try_emplace}
use depc.ScopeMap.Values.{value_at}

-- `source_loc_t`, without the text.
pub record Location : Type 0 where
  pub line : ℕ
  pub col : ℕ

-- `ctx_t::decl_t`
pub record Declaration : Type 0 where
  pub origin : Option Location
  pub scope_id : Option ℕ
  pub var : Var
  pub qty : Qty
  pub type : Expr

-- `ctx_t::scope_flavour_t`
pub data ScopeFlavour : Type 0 where
  scoped unscoped : ScopeFlavour

-- `ctx_t`
pub record Context : Type 0 where
  pub flavour : ScopeFlavour
  pub scope_id : ℕ
  pub index : ℕ
  pub values : ℕ

pub record Store : Type 0 where
  pub names : Heap Var
  pub decls : Heap Declaration
  pub unnamed_idx : ℕ

-- `dep0::expected<expr_t::var_t>`: the variable, or the name that is taken and its declaration.
pub data Emplaced : Type 0 where
  emplaced : Var → Emplaced
  cannot_redefine : String → Option Declaration → Emplaced

abbrev pub key : String → Var
key n = record { name = n; idx = 0; shadow_id = 0 }

-- The constructors: the default one is unscoped.
unfoldable pub new_context : ScopeFlavour → Store → Context × Store
unfolding new
new_context f st =
    let i = new st.names in
    let v = new st.decls in
    (
      record { flavour = f; scope_id = 0; index = i.0; values = v.0 },
      record st { names = i.1; decls = v.1 },
    )

-- `scope`
unfoldable pub scope : Context → Option ℕ
scope c = elim c.flavour [ scoped ↦ some c.scope_id | unscoped ↦ none ]

-- `ctx_t(flavour, m_scope_id + 1ul, m_index.extend(), m_values.extend())`
unfoldable pub extend_as : ScopeFlavour → Context → Store → Context × Store
unfolding extend
extend_as f c st =
    let i = extend c.index st.names in
    let v = extend c.values st.decls in
    (
      record { flavour = f; scope_id = suc c.scope_id; index = i.0; values = v.0 },
      record st { names = i.1; decls = v.1 },
    )

-- `extend`
unfoldable pub extend_context : Context → Store → Context × Store
unfolding extend_as
extend_context c st = extend_as c.flavour c st

unfoldable pub extend_scoped : Context → Store → Context × Store
unfolding extend_as
extend_scoped c st = extend_as scoped c st

unfoldable pub extend_unscoped : Context → Store → Context × Store
unfolding extend_as
extend_unscoped c st = extend_as unscoped c st

-- `operator[](var)`
unfoldable pub find_var : Store → Context → Var → Option Declaration
find_var st c x = value_at st.decls c.values x

-- `m_index[name]`
unfoldable pub var_of_name : Store → Context → String → Option Var
var_of_name st c n = value_at st.names c.index (key n)

-- `var ? m_values[*var] : nullptr`
unfoldable pub find_optional : Store → Context → Option Var → Option Declaration
unfolding find_var
find_optional st c none = none
find_optional st c (some x) = find_var st c x

-- `operator[](name)`
unfoldable pub find_name : Store → Context → String → Option Declaration
unfolding find_optional var_of_name
find_name st c n = find_optional st c (var_of_name st c n)

-- `add_unnamed`
unfoldable pub add_unnamed : Qty → Expr → Context → Store → Store
unfolding scope
add_unnamed q t c st =
    let x : Var = record { name = "auto"; idx = 0; shadow_id = st.unnamed_idx } in
    let d : Declaration = record {
      origin = none;
      scope_id = scope c;
      var = x;
      qty = q;
      type = t;
    } in
    record st { unnamed_idx = suc st.unnamed_idx; decls = (try_emplace c.values x d st.decls).1 }

-- `prev_var ? prev_var->shadow_id + 1ul : 0ul`
unfoldable pub next_shadow_id : Option Var → ℕ
next_shadow_id none = 0
next_shadow_id (some x) = x.shadow_id + 1

-- `if (inserted)`
unfoldable pub emplace_value :
    Bool → String → Var → Declaration → Option Var → Context → Store → Emplaced × Store
unfolding find_optional
emplace_value true n x d prev c st =
    (emplaced x, record st { decls = (try_emplace c.values x d st.decls).1 })
emplace_value false n x d prev c st = (cannot_redefine n (find_optional st c prev), st)

-- `try_emplace`
unfoldable pub try_emplace_name :
    String → Option Location → Qty → Expr → Context → Store → Emplaced × Store
unfolding scope var_of_name next_shadow_id emplace_value
try_emplace_name n loc q t c st =
    let prev_var = var_of_name st c n in
    let x : Var = record { name = n; idx = 0; shadow_id = next_shadow_id prev_var } in
    let d : Declaration = record { origin = loc; scope_id = scope c; var = x; qty = q; type = t } in
    let r = try_emplace c.index (key n) x st.names in
    emplace_value r.0.1 n x d prev_var c (record st { names = r.1 })
