-- ===== src/Unification/Extends.antt =====
-- What a search of unification.cpp does to the substitutions that it is given.
use depc.Prelude.{◌≡◌, refl, ap, Bool, true, Option, none, some, ◌∷◌, Bool-cases, inl, inr, arith}
use depc.Ast.{Var, var_eq, Expr}
use depc.Ast.Vars.{var_eq→eq, var_eq_refl}
use depc.Unification.{Substitutions, lookup_var, when, ◌>>=◌}

-- Every variable that has a substitution in `m` has the same one in `k`.
abbrev pub IsExtended : Substitutions → Substitutions → Type 0
IsExtended m k = (x : Var) (e : Expr) → lookup_var m x ≡ some e → lookup_var k x ≡ some e

pub lookup-inserted : (m : Substitutions) (x : Var) (e : Expr) → lookup_var ((x, e) ∷ m) x ≡ some e
unfolding lookup_var
lookup-inserted m x e = rw (var_eq_refl x)

pub inserted-IsExtended :
    (m : Substitutions) (x : Var) (e : Expr) → lookup_var m x ≡ none → IsExtended m ((x, e) ∷ m)
unfolding lookup_var
inserted-IsExtended m x e h y d k = elim (Bool-cases (var_eq x y)) [
  | inl p ↦ absurd (ground (arith, h, k, ap (lookup_var m) (var_eq→eq x y p)))
  | inr p ↦ rw p k
]

-- What a step that succeeds went through.
pub when-some :
    (b : Bool) (r : Option Substitutions) (m : Substitutions)
    → when b r ≡ some m
    → (b ≡ true) × (r ≡ some m)
unfolding when
when-some b r m h = ground arith

pub >>=-some :
    (r : Option Substitutions) (f : Substitutions → Option Substitutions) (k : Substitutions)
    → (r >>= f) ≡ some k
    → (m : Substitutions) × (r ≡ some m) × (f m ≡ some k)
unfolding ◌>>=◌
>>=-some none f k h = absurd (ground arith)
>>=-some (some m) f k h = (m, refl, h)
