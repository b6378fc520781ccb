-- ===== src/Ast/Vars.antt =====
-- Facts about the equality of variables.
use depc.Prelude.{◌≡◌, refl, ◌≢◌, true, false, arith}
use depc.Ast.{Var, var_eq, var_eq_iff}

pub var_eq_refl : (v : Var) → var_eq v v ≡ true
var_eq_refl v = (var_eq_iff v v).1 refl

pub var_eq→eq : (a b : Var) → var_eq a b ≡ true → a ≡ b
var_eq→eq a b = (var_eq_iff a b).0

pub var_eq_ne : (a b : Var) → a ≢ b → var_eq a b ≡ false
var_eq_ne a b h = ground (arith, var_eq→eq a b)

pub var_eq_sym : (a b : Var) → var_eq a b ≡ var_eq b a
var_eq_sym a b = ground (arith, var_eq→eq a b, var_eq→eq b a, var_eq_refl a)

-- A variable whose index is above another's is not that one.
pub var_eq_idx : (a b : Var) → var_eq a b ≡ true → a.idx ≡ b.idx
unfolding var_eq
var_eq_idx a b h = ground arith
