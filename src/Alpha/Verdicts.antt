-- ===== src/Alpha/Verdicts.antt =====
-- When the parts of a comparison in alpha_equivalence_impl.hpp succeed.
use depc.Prelude.{◌≡◌, refl, Bool, true, Option, none, some}
use depc.Ast.{Var, Args, Signature}
use depc.Ast.Vars.{var_eq_refl}
use depc.Alpha.{
  Failure, Verdict, equivalent, if_equivalent, explain, require, align, align_args, match_names,
  match_arg_names,
}

pub if_equivalent-both :
    (v w : Verdict) → v ≡ equivalent → w ≡ equivalent → if_equivalent v w ≡ equivalent
unfolding if_equivalent
if_equivalent-both v w p q = rw p q

pub require-true : (b : Bool) (e : Failure) → b ≡ true → require b e ≡ equivalent
unfolding require
require-true b e p = rw p

pub explain-equivalent :
    (f : Failure → Failure) (v : Verdict) → v ≡ equivalent → explain f v ≡ equivalent
unfolding explain
explain-equivalent f v p = rw p

align_same : (x : Var) (g : Signature) → align x g x g ≡ (g, g)
unfolding align
align_same x g = rw (var_eq_refl x)

align_args_same : (x : Var) (g : Args) → align_args x g x g ≡ (g, g)
unfolding align_args
align_args_same x g = rw (var_eq_refl x)

-- Two arguments of one name leave what follows as it is.
pub match_names_same : (x : Option Var) (g : Signature) → match_names x g x g ≡ (equivalent, g, g)
unfolding match_names
match_names_same none g = refl
match_names_same (some x) g = rw (align_same x g)

pub match_arg_names_same :
    (x : Option Var) (g : Args) → match_arg_names x g x g ≡ (equivalent, g, g)
unfolding match_arg_names
match_arg_names_same none g = refl
match_arg_names_same (some x) g = rw (align_args_same x g)

pub if_equivalent-first : (v w : Verdict) → v ≡ equivalent → if_equivalent v w ≡ w
unfolding if_equivalent
if_equivalent-first v w p = rw p
