-- ===== src/Tests/Trees.antt =====
-- Renaming and substitution on small trees.
use depc.Prelude.{
  ℕ, ◌<◌, ◌⊎◌, some, List, [], ◌∷◌, get_elem?, length, ◌+◌, ◌≤◌, ◌≡◌, ◌≢◌, refl, ap, true, false,
  arith,
}
use depc.Qty.{one}
use depc.Ast.{Var, var_eq, is_var, Signature}
use depc.Ast.OccursIn.{free, occurs_in, occurs_in_signature}
use depc.Ast.Member.{
  Field, is_named, next_index, named_at, find_member_index, find_member_field,
  find_member_field-first,
}
use depc.Ast.MaxIndex.{max_index, max_index_signature}
use depc.Ast.MaxIndex.Bounds.{idx_le-max_index}
use depc.Ast.Rename.{rename}
use depc.Ast.Rename.Fresh.{IsRenaming, rename-IsRenaming}
use depc.Ast.Replace.{replace_var, replace_signature}
use depc.Ast.Size.{size}
use depc.Ast.Weight.{weight, weight_signature}
use depc.Fields.{
  rename_fields, substitute_in_fields, weight_fields, as_args, substitute_in_fields-sigma,
}
use depc.Ast.Rename.{rename_args}
use depc.Substitute.{
  substitute_args, substitute, substitute_signature, substitute_expr, substitute_in, avoid_capture,
}
use depc.Substitute.FreeVariables.{after}
use depc.Substitute.Laws.{substitute-removes, substitute-captures_nothing}
use depc.Substitute.Fuel.{substitute-enough_fuel}
use depc.Substitute.Captures.{variable, applied, returns_variable, next, substitute_in-captures}

abbrev x_var : Var
x_var = record { name = "x"; idx = 0; shadow_id = 0 }

abbrev y_var : Var
y_var = record { name = "y"; idx = 0; shadow_id = 0 }

abbrev z_var : Var
z_var = record { name = "z"; idx = 0; shadow_id = 0 }

-- `(1 bool_t x) -> y`, and what substituting `x` for `y` makes of it.
abbrev g : Signature
g = returns_variable one x_var y_var

capture_avoided : substitute_in y_var (variable x_var) g ≡ returns_variable one (next x_var) x_var
unfolding substitute_in weight_signature is_var var_eq avoid_capture occurs_in rename
    max_index_signature replace_signature replace_var
capture_avoided = refl

size_of_applied : size (applied x_var y_var) ≡ 1
unfolding size
size_of_applied = refl

idx_le-max_index_example : 1 ≤ max_index_signature (returns_variable one x_var (next y_var))
unfolding occurs_in_signature is_var var_eq
idx_le-max_index_example =
    idx_le-max_index (next y_var) free (returns_variable one x_var (next y_var)) refl

rename-IsRenaming_example :
    IsRenaming x_var
      (rename x_var (returns_variable one y_var x_var)).0
      (returns_variable one y_var x_var)
      (rename x_var (returns_variable one y_var x_var)).1
rename-IsRenaming_example = rename-IsRenaming x_var (returns_variable one y_var x_var)

substitute-removes_example :
    (occurs_in y_var free (substitute_expr y_var (variable x_var) (applied y_var z_var)) ≡ false)
    × (occurs_in_signature y_var free (substitute_in y_var (variable x_var) g) ≡ false)
unfolding occurs_in var_eq
substitute-removes_example = substitute-removes y_var (variable x_var) refl (applied y_var z_var) g

substitute-captures_nothing_example :
    occurs_in_signature x_var free (substitute_in y_var (variable x_var) g)
    ≡ after x_var y_var
        (variable x_var)
        (occurs_in_signature x_var free g)
        (occurs_in_signature y_var free g)
unfolding max_index
substitute-captures_nothing_example =
    substitute-captures_nothing y_var x_var (variable x_var) refl refl g

substitute-enough_fuel_example :
    (substitute (7 + weight (applied y_var z_var)) y_var (variable x_var) (applied y_var z_var)
      ≡ substitute_expr y_var (variable x_var) (applied y_var z_var))
    × (substitute_signature (7 + weight_signature g) y_var (variable x_var) g.args g.ret_type g.body
        ≡ substitute_in y_var (variable x_var) g)
substitute-enough_fuel_example =
    substitute-enough_fuel y_var (variable x_var) 7 (applied y_var z_var) g

y_differs : y_var ≢ x_var
unfolding var_eq
y_differs e = ground (arith, ap (var_eq x_var) e)

substitute_in-captures_example :
    (occurs_in_signature y_var free (returns_variable one x_var y_var) ≡ true)
    × (occurs_in (next x_var) free (applied x_var (next x_var)) ≡ true)
    × (occurs_in_signature
          (next x_var)
          free
          (substitute_in y_var (applied x_var (next x_var)) (returns_variable one x_var y_var))
        ≡ false)
substitute_in-captures_example = substitute_in-captures one y_var x_var y_differs (omega arith)

-- A struct with a renamed field `y`, then a field `y`.
abbrev fields : List Field
fields =
    record { field_type = variable x_var; var = next y_var }
    ∷ record { field_type = variable x_var; var = y_var }
    ∷ []

find_member_field-first_example :
    ((named_at "y" (get_elem? fields (find_member_field "y" fields)) ≡ true)
      ⊎ (find_member_field "y" fields ≡ length fields))
    × ((j : ℕ) → j < find_member_field "y" fields → named_at "y" (get_elem? fields j) ≡ false)
find_member_field-first_example = find_member_field-first "y" fields

found_second : find_member_index "y" fields ≡ some 1
unfolding find_member_index is_named next_index
found_second = refl

-- The first field is renamed apart from the variable put in, which is called the same.
substitute_in_fields-sigma_example :
    (rename_args x_var (as_args one fields)
      ≡ ((rename_fields x_var fields).0, as_args one (rename_fields x_var fields).1))
    × (as_args one (substitute_in_fields x_var (variable (next y_var)) fields)
        ≡ substitute_args
            (2 + weight_fields fields)
            x_var
            (variable (next y_var))
            (as_args one fields))
substitute_in_fields-sigma_example =
    substitute_in_fields-sigma one 2 x_var (variable (next y_var)) fields
