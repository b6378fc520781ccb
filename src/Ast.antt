-- ===== src/Ast.antt =====
-- The abstract syntax tree of dep0/lib/01_ast/include/dep0/ast/ast.hpp, at the properties of the
-- type-checker (dep0/lib/03_typecheck/include/dep0/typecheck/ast.hpp): every expression carries its
-- sort, which is another expression or Kind. Derivations, locations and attributes have no content
-- here. The alternatives of `expr_t::value_t` that are empty structs are the constants of `Atom`;
-- those of `boolean_expr_t`, `relation_expr_t` and `arith_expr_t` that hold `lhs` and `rhs` are told
-- apart by an enumeration. A `std::optional` that holds a tree is two constructors.
pub mod Index
pub mod MaxIndex
pub mod Member
pub mod OccursIn
pub mod Rename
pub mod Replace
pub mod Size
pub mod Unwrap
pub mod Views
pub mod Vars
pub mod Weight
use text.Mathlib.Text.{◌==◌ as str_eq}
use text.Mathlib.TextEquality.{eq_iff}
use depc.Prelude.{
  ℕ, String, ◌≡◌, refl, ◌↔◌, Bool, true, false, ◌&&◌, Option, none, some, arith, ◌==◌,
}
use depc.Prelude.Int.{ℤ}
use depc.Qty.{Qty}

pub data IsMutable : Type 0 where
  immutable mutable : IsMutable

-- `expr_t::var_t`: a name, the index set by renaming, and the id of the shadowing declaration.
pub record Var : Type 0 where
  pub name : String
  pub idx : ℕ
  pub shadow_id : ℕ

-- `var_t::operator==`, which compares member by member.
unfoldable pub var_eq : Var → Var → Bool
var_eq a b = str_eq a.name b.name && (a.idx == b.idx && a.shadow_id == b.shadow_id)

-- `std::optional<var_t> == var_t`.
unfoldable pub is_var : Option Var → Var → Bool
is_var none v = false
is_var (some x) v = var_eq x v

pub data Atom : Type 0 where
  typename true_t auto_t bool_t cstr_t unit_t : Atom
  i8_t i16_t i32_t i64_t u8_t u16_t u32_t u64_t : Atom
  ref_t scope_t array_t : Atom

pub data BooleanOp : Type 0 where
  and_t or_t : BooleanOp

pub data RelationOp : Type 0 where
  eq_t neq_t gt_t gte_t lt_t lte_t : RelationOp

pub data ArithOp : Type 0 where
  plus_t minus_t mult_t div_t : ArithOp

mutual
  -- `expr_t`: its sort, then its value.
  pub data Expr : Type 0 where
    expr : Sort → Value → Expr

  pub data Sort : Type 0 where
    type : Expr → Sort
    kind : Sort

  pub data Value : Type 0 where
    atom : Atom → Value
    boolean_constant : Bool → Value
    numeric_constant : ℤ → Value
    string_literal : String → Value
    boolean_not : Expr → Value
    boolean_expr : BooleanOp → Expr → Expr → Value
    relation_expr : RelationOp → Expr → Expr → Value
    arith_expr : ArithOp → Expr → Expr → Value
    var : Var → Value
    global : Option String → String → Value
    app : Expr → Exprs → Value
    abs : IsMutable → Args → Expr → Body → Value
    pi : IsMutable → Args → Expr → Value
    sigma : Args → Value
    addressof deref : Expr → Value
    scopeof : Expr → ℕ → Value
    init_list : Exprs → Value
    member : Expr → String → Value
    subscript because : Expr → Expr → Value

  -- `std::vector<expr_t>`
  pub data Exprs : Type 0 where
    no_exprs : Exprs
    more : Expr → Exprs → Exprs

  -- `std::vector<func_arg_t>`: quantity, type and optional name of each argument.
  pub data Args : Type 0 where
    no_args : Args
    arg : Qty → Expr → Option Var → Args → Args

  -- `body_t::stmts`
  pub data Body : Type 0 where
    done : Body
    stmt : Stmt → Body → Body

  -- `stmt_t::value_t`
  pub data Stmt : Type 0 where
    call : Expr → Exprs → Stmt
    if_then : Expr → Body → Stmt
    if_else : Expr → Body → Body → Stmt
    return_void : Stmt
    return_value : Expr → Stmt
    impossible : Stmt
    impossible_because : Expr → Stmt

-- What `abs_t` and `pi_t` share: arguments, return type, and a body unless it is a Pi-type.
pub record Signature : Type 0 where
  pub args : Args
  pub ret_type : Expr
  pub body : Option Body

-- The equality test decides equality.
pub var_eq_iff : (a b : Var) → (var_eq a b ≡ true) ↔ (a ≡ b)
unfolding var_eq
var_eq_iff a b = ground (arith, eq_iff a.name b.name)
