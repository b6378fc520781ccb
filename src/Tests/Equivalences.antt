-- ===== src/Tests/Equivalences.antt =====
-- Alpha-equivalence, unification and hash codes on small expressions.
use depc.Prelude.{◌+◌, ◌*◌, ◌≡◌, refl, Bool, true, false, ◌||◌, [], ◌∷◌, some}
use text.Mathlib.Text.{◌==◌ as str_eq}
use depc.Qty.{one}
use depc.Ast.{
  Var, var_eq, is_var, Expr, expr, type, kind, immutable, var, atom, bool_t, boolean_not,
  boolean_expr, and_t, because,
}
use depc.Ast.Replace.{replace_signature}
use depc.Ast.OccursIn.{free, occurs_in, occurs_in_optional, occurs_in_signature}
use depc.Ast.Weight.{weight}
use depc.Substitute.{function, add_arg}
use depc.Substitute.Captures.{variable, applied, returns_variable}
use depc.Alpha.{equivalent, alpha, require, if_equivalent, is_alpha_equivalent}
use depc.Alpha.Because.{is_alpha_equivalent-unwrap_because}
use depc.Ast.Unwrap.{unwrap_because}
use depc.Alpha.Ends.{ran_out, is_alpha_equivalent-enough_fuel}
use depc.Alpha.Reflexive.{is_alpha_equivalent_refl}
use depc.HashCode.{HashFunctions, hash_code}
use depc.HashCode.Functions.{hash_code-renamed}
use depc.Rewrite.{rewrite, has_value, choose, emplace_if, stops, is_equivalent}
use depc.Rewrite.Free.{rewrite-frees}
use depc.Unification.{
  Substitutions, unify, unify_from, unify_var, lookup_var, when, ◌>>=◌, insert_or_compare,
}
use depc.BetaDelta.{are_sorts_equivalent, is_beta_delta_equivalent, or_after_normalizing}
use depc.Ast.Index.{boolean_index, atom_index}
use depc.Unification.Sound.{unify-instantiate}
use depc.Unification.Steps.{instantiate}

abbrev x_var : Var
x_var = record { name = "x"; idx = 0; shadow_id = 0 }

abbrev y_var : Var
y_var = record { name = "y"; idx = 0; shadow_id = 0 }

abbrev z_var : Var
z_var = record { name = "z"; idx = 0; shadow_id = 0 }

abbrev boolean : Expr
boolean = expr kind (atom bool_t)

-- `not x`, and `x and x`.
abbrev not_x : Expr
not_x = expr (type boolean) (boolean_not (variable x_var))

abbrev both : Expr → Expr
both e = expr (type boolean) (boolean_expr and_t e e)

is_alpha_equivalent-enough_fuel_example :
    (ran_out (is_alpha_equivalent (applied x_var y_var) (applied x_var z_var)) ≡ false)
    × (alpha
          (3 + (weight (applied x_var y_var) + weight (applied x_var z_var)))
          (applied x_var y_var)
          (applied x_var z_var)
        ≡ is_alpha_equivalent (applied x_var y_var) (applied x_var z_var))
is_alpha_equivalent-enough_fuel_example =
    is_alpha_equivalent-enough_fuel (applied x_var y_var) (applied x_var z_var) 3

is_alpha_equivalent_refl_example :
    is_alpha_equivalent (applied x_var y_var) (applied x_var y_var) ≡ equivalent
is_alpha_equivalent_refl_example = is_alpha_equivalent_refl (applied x_var y_var)

is_alpha_equivalent-unwrap_because_example :
    is_alpha_equivalent (expr kind (because not_x boolean)) (both not_x)
    ≡ is_alpha_equivalent
        (unwrap_because (expr kind (because not_x boolean)))
        (unwrap_because (both not_x))
is_alpha_equivalent-unwrap_because_example =
    is_alpha_equivalent-unwrap_because (expr kind (because not_x boolean)) (both not_x)

-- Nothing is reduced.
abbrev as_it_is : Expr → Bool × Expr
as_it_is x = (false, x)

abbrev found : Substitutions
found = (x_var, not_x) ∷ []

abbrev typed_x : Expr
typed_x = expr (type boolean) (var x_var)

-- `x and x` against `not x and not x`: the second occurrence compares with the first.
unified : unify as_it_is (both typed_x) (both not_x) ≡ some found
unfolding unify unify_from unify_var lookup_var when ◌>>=◌ insert_or_compare boolean_index
    atom_index is_alpha_equivalent alpha weight are_sorts_equivalent is_beta_delta_equivalent
    or_after_normalizing require if_equivalent var_eq
unified = refl

unify-instantiate_example :
    is_alpha_equivalent (both not_x) (instantiate found (both typed_x)) ≡ equivalent
unify-instantiate_example = unify-instantiate as_it_is (both typed_x) (both not_x) found unified

abbrev sums : HashFunctions
sums = record {
  hash_combine = λ a b. 31 * a + b;
  hash_name = λ x. 7;
  hash_qty = λ q. 3;
  hash_mutable = λ m. 2;
  hash_number = λ n. 5;
  hash_literal = λ x. 11;
}

hash_code-renamed_example :
    hash_code sums (
      expr kind
        (function immutable (add_arg one boolean (some x_var) (returns_variable one z_var x_var))))
    ≡ hash_code sums (
        expr kind (
          function immutable (
            add_arg one boolean
              (some y_var)
              (replace_signature x_var y_var (returns_variable one z_var x_var)))))
unfolding occurs_in_signature occurs_in var_eq occurs_in_optional is_var
hash_code-renamed_example =
    hash_code-renamed sums kind kind immutable one boolean x_var y_var
      (returns_variable one z_var x_var) refl refl refl

-- `(bool_t z) -> x` with `y` in the place of `x`.
rewritten :
    rewrite
      (variable x_var)
      (variable y_var)
      (expr kind (function immutable (returns_variable one z_var x_var)))
    ≡ some (expr kind (function immutable (returns_variable one z_var y_var)))
unfolding rewrite has_value choose emplace_if stops is_equivalent is_alpha_equivalent alpha weight
    require if_equivalent var_eq occurs_in function
rewritten = refl

rewrite-frees_example :
    (occurs_in y_var free (variable y_var) ≡ true
      → occurs_in y_var free (expr kind (function immutable (returns_variable one z_var y_var)))
        ≡ true)
    × (occurs_in y_var free (expr kind (function immutable (returns_variable one z_var y_var)))
          ≡ true
        → (occurs_in y_var free (variable y_var)
            || occurs_in y_var free
                (expr kind (function immutable (returns_variable one z_var x_var))))
          ≡ true)
rewrite-frees_example =
    rewrite-frees (variable x_var) (variable y_var)
      (expr kind (function immutable (returns_variable one z_var x_var)))
      (expr kind (function immutable (returns_variable one z_var y_var))) y_var rewritten
