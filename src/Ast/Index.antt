-- ===== src/Ast/Index.antt =====
-- dep0/lib/01_ast/include/dep0/ast/ast.hpp: `value.index()`, the position of the alternative that a
-- `std::variant` holds, and the comparison of the values that the alternatives hold.
use text.Mathlib.Text.{◌==◌ as str_eq}
use text.Mathlib.TextEquality.{eq_iff}
use depc.Prelude.{ℕ, String, ◌≡◌, refl, sym, Bool, true, false, Option, none, some, ◌==◌, arith}
use depc.Prelude.Int.{ℤ, pos, negsuc}
use depc.Ast.{
  IsMutable, immutable, mutable, Atom, typename, true_t, auto_t, bool_t, cstr_t, unit_t, i8_t,
  i16_t, i32_t, i64_t, u8_t, u16_t, u32_t, u64_t, ref_t, scope_t, array_t, BooleanOp, and_t, or_t,
  RelationOp, eq_t, neq_t, gt_t, gte_t, lt_t, lte_t, ArithOp, plus_t, minus_t, mult_t, div_t, Value,
  atom, boolean_constant, numeric_constant, string_literal, boolean_not, boolean_expr,
  relation_expr, arith_expr, var, global, app, abs, pi, sigma, addressof, deref, scopeof, init_list,
  member, subscript, because, Stmt, call, if_then, if_else, return_void, return_value, impossible,
  impossible_because,
}

unfoldable pub atom_index : Atom → ℕ
atom_index typename = 0
atom_index true_t = 1
atom_index auto_t = 2
atom_index bool_t = 3
atom_index cstr_t = 4
atom_index unit_t = 5
atom_index i8_t = 6
atom_index i16_t = 7
atom_index i32_t = 8
atom_index i64_t = 9
atom_index u8_t = 10
atom_index u16_t = 11
atom_index u32_t = 12
atom_index u64_t = 13
atom_index ref_t = 26
atom_index scope_t = 27
atom_index array_t = 31

-- `not_t` has index 0.
unfoldable pub boolean_index : BooleanOp → ℕ
boolean_index and_t = 1
boolean_index or_t = 2

unfoldable pub relation_index : RelationOp → ℕ
relation_index eq_t = 0
relation_index neq_t = 1
relation_index gt_t = 2
relation_index gte_t = 3
relation_index lt_t = 4
relation_index lte_t = 5

unfoldable pub arith_index : ArithOp → ℕ
arith_index plus_t = 0
arith_index minus_t = 1
arith_index mult_t = 2
arith_index div_t = 3

-- `expr_t::value.index()`
unfoldable pub value_index : Value → ℕ
unfolding atom_index
value_index (atom a) = atom_index a
value_index (boolean_constant _) = 14
value_index (numeric_constant _) = 15
value_index (string_literal _) = 16
value_index (boolean_not _) = 17
value_index (boolean_expr _ _ _) = 17
value_index (relation_expr _ _ _) = 18
value_index (arith_expr _ _ _) = 19
value_index (var _) = 20
value_index (global _ _) = 21
value_index (app _ _) = 22
value_index (abs _ _ _ _) = 23
value_index (pi _ _ _) = 24
value_index (sigma _) = 25
value_index (addressof _) = 28
value_index (deref _) = 29
value_index (scopeof _ _) = 30
value_index (init_list _) = 32
value_index (member _ _) = 33
value_index (subscript _ _) = 34
value_index (because _ _) = 35

-- `stmt_t::value.index()`
unfoldable pub stmt_index : Stmt → ℕ
stmt_index (call _ _) = 0
stmt_index (if_then _ _) = 1
stmt_index (if_else _ _ _) = 1
stmt_index return_void = 2
stmt_index (return_value _) = 2
stmt_index impossible = 3
stmt_index (impossible_because _) = 3

unfoldable pub is_mutable_eq : IsMutable → IsMutable → Bool
is_mutable_eq immutable immutable = true
is_mutable_eq mutable mutable = true
is_mutable_eq _ _ = false

unfoldable pub bool_eq : Bool → Bool → Bool
bool_eq true b = b
bool_eq false true = false
bool_eq false false = true

unfoldable pub int_eq : ℤ → ℤ → Bool
int_eq (pos a) (pos b) = a == b
int_eq (negsuc a) (negsuc b) = a == b
int_eq _ _ = false

-- `std::optional<source_text>`
unfoldable pub optional_eq : Option String → Option String → Bool
optional_eq none none = true
optional_eq (some a) (some b) = str_eq a b
optional_eq _ _ = false

pub str_eq_refl : (a : String) → str_eq a a ≡ true
str_eq_refl a = (eq_iff a a).1 refl

pub is_mutable_eq_refl : (m : IsMutable) → is_mutable_eq m m ≡ true
unfolding is_mutable_eq
is_mutable_eq_refl immutable = refl
is_mutable_eq_refl mutable = refl

pub bool_eq_refl : (b : Bool) → bool_eq b b ≡ true
unfolding bool_eq
bool_eq_refl true = refl
bool_eq_refl false = refl

pub int_eq_refl : (a : ℤ) → int_eq a a ≡ true
unfolding int_eq
int_eq_refl (pos a) = ground arith
int_eq_refl (negsuc a) = ground arith

pub optional_eq_refl : (a : Option String) → optional_eq a a ≡ true
unfolding optional_eq
optional_eq_refl none = refl
optional_eq_refl (some a) = str_eq_refl a

pub ==-refl : (a : ℕ) → (a == a) ≡ true
==-refl a = ground arith

pub str_eq_sym : (a b : String) → str_eq a b ≡ true → str_eq b a ≡ true
str_eq_sym a b h = (eq_iff b a).1 (sym ((eq_iff a b).0 h))

pub bool_eq_sym : (a b : Bool) → bool_eq a b ≡ true → bool_eq b a ≡ true
unfolding bool_eq
bool_eq_sym true b h = ground arith
bool_eq_sym false b h = ground arith

pub int_eq_sym : (a b : ℤ) → int_eq a b ≡ true → int_eq b a ≡ true
unfolding int_eq
int_eq_sym a b h = ground arith

pub optional_eq_sym : (a b : Option String) → optional_eq a b ≡ true → optional_eq b a ≡ true
unfolding optional_eq
optional_eq_sym none none h = refl
optional_eq_sym none (some b) h = h
optional_eq_sym (some a) none h = h
optional_eq_sym (some a) (some b) h = str_eq_sym a b h
