-- ===== src/Context/Scoping.antt =====
-- An abstract description of scoping, for the contexts of context.cpp.
use depc.Prelude.{ℕ, suc, Bool, true, String, Option, none, some, if◌then◌else◌}
use text.Mathlib.Text.{◌==◌ as str_eq}
use depc.Qty.{Qty}
use depc.Ast.{Var, var_eq, Expr}
use depc.Context.{
  Context, Store, Declaration, Location, Emplaced, emplaced, cannot_redefine, scope, find_var,
  var_of_name,
}
use depc.Context.Valid.{is_own}

-- What a context amounts to: the innermost variable of a name, the declaration of a variable, and the
-- names declared in the innermost scope.
pub record Scoping : Type 0 where
  pub innermost : String → Option Var
  pub declaration : Var → Option Declaration
  pub own : String → Bool

unfoldable pub scoping : Store → Context → Scoping
scoping st c = record {
  innermost = var_of_name st c;
  declaration = find_var st c;
  own = is_own st c;
}

unfoldable pub declaration_of : Scoping → Option Var → Option Declaration
declaration_of a none = none
declaration_of a (some x) = a.declaration x

-- How many declarations of the name a new one shadows.
unfoldable pub shadows : Option Var → ℕ
shadows none = 0
shadows (some x) = suc x.shadow_id

-- The variable that a new declaration of the name gets: it shadows the innermost one.
unfoldable pub shadowing_var : String → Scoping → Var
unfolding shadows
shadowing_var n a = record { name = n; idx = 0; shadow_id = shadows (a.innermost n) }

-- Declaring a name: an error if the innermost scope has it, else the new variable hides the old one.
unfoldable pub declare : String → (Var → Declaration) → Scoping → Emplaced × Scoping
declare n d a =
    let x = shadowing_var n a in
    if a.own n then (cannot_redefine n (declaration_of a (a.innermost n)), a) else (
      emplaced x,
      record {
        innermost = λ m. if str_eq m n then some x else a.innermost m;
        declaration = λ v. if var_eq v x then some (d x) else a.declaration v;
        own = λ m. if str_eq m n then true else a.own m;
      },
    )

abbrev pub declared_as : Option Location → Qty → Expr → Context → Var → Declaration
declared_as loc q t c x = record { origin = loc; scope_id = scope c; var = x; qty = q; type = t }
