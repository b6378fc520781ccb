-- ===== src/Fields.antt =====
-- The overloads for the fields of a struct: `max_index`, `replace` and `rename` of dep0/lib/01_ast, the files
-- of include/dep0/ast called <name>_impl.hpp, and `substitute`, dep0/lib/03_typecheck/src/substitute.cpp.
use depc.Prelude.{
  ℕ, zero, suc, ◌+◌, ◌≡◌, refl, sym, ap, false, some, List, [], ◌∷◌, max, if◌then◌else◌, Bool-cases,
  inl, inr, ◌∙◌, arith,
}
use depc.Qty.{Qty}
use depc.Ast.{Var, var_eq, is_var, Expr, Args, no_args, arg}
use depc.Ast.OccursIn.{free, anywhere, occurs_in, occurs_in_args}
use depc.Ast.MaxIndex.{max_index, max_index_args}
use depc.Ast.Member.{Field}
use depc.Ast.Rename.{rename_args}
use depc.Ast.Replace.{replace, replace_args, replace_name}
use depc.Ast.Weight.{weight, weight_args}
use depc.Substitute.{substitute, substitute_args, avoid_capture_args}
use depc.Substitute.Fuel.{more_fuel_args}
use depc.Substitute.Removed.{removed_args}
use Prim.Native.Nat.add
use native.Mathlib.Nat.{zero-add}

unfoldable pub max_index_fields : ℕ → List Field → ℕ
unfolding max_index
max_index_fields acc [] = acc
max_index_fields acc (f ∷ fs) =
    max_index_fields (max acc (max (max_index f.field_type) f.var.idx)) fs

-- `if (field.var == from) field.var = to`
unfoldable pub replace_var_of : Var → Var → Var → Var
replace_var_of from to x = if var_eq x from then to else x

unfoldable pub replace_fields : Var → Var → List Field → List Field
unfolding replace replace_var_of
replace_fields a b [] = []
replace_fields a b (f ∷ fs) =
    record { field_type = replace a b f.field_type; var = replace_var_of a b f.var }
    ∷ replace_fields a b fs

unfoldable pub rename_fields : Var → List Field → Var × List Field
unfolding max_index_fields replace_fields
rename_fields v fs =
    let new_idx = 1 + max v.idx (max_index_fields 0 fs) in
    let new_var = record v { idx = new_idx } in (new_var, replace_fields v new_var fs)

unfoldable pub avoid_capture_fields : Expr → Var → List Field → Var × List Field
unfolding rename_fields occurs_in
avoid_capture_fields y x fs = if occurs_in x anywhere y then rename_fields x fs else (x, fs)

-- The loop over the fields; it stops at a field that is called `v`.
unfoldable pub substitute_fields : ℕ → Var → Expr → List Field → List Field
unfolding substitute avoid_capture_fields
substitute_fields zero v y fs = fs
substitute_fields (suc n) v y [] = []
substitute_fields (suc n) v y (f ∷ fs) =
    let t = substitute n v y f.field_type in
    let fresh = avoid_capture_fields y f.var fs in
    let rest = record { field_type = t; var = fresh.0 } ∷ substitute_fields n v y fresh.1 in
    if var_eq f.var v then record { field_type = t; var = f.var } ∷ fs else rest

unfoldable pub weight_fields : List Field → ℕ
unfolding weight
weight_fields [] = 1
weight_fields (f ∷ fs) = 1 + weight f.field_type + weight_fields fs

-- Substitution with enough fuel.
unfoldable pub substitute_in_fields : Var → Expr → List Field → List Field
unfolding weight_fields substitute_fields
substitute_in_fields v y fs = substitute_fields (weight_fields fs) v y fs

module _ (q : Qty) where
  -- The fields as the arguments of a Sigma-type.
  abbrev pub as_args : List Field → Args
  as_args [] = no_args
  as_args (f ∷ fs) = arg q f.field_type (some f.var) (as_args fs)

  max_index-as_args :
      (acc : ℕ) (fs : List Field) → max_index_args acc (as_args fs) ≡ max_index_fields acc fs
  unfolding max_index max_index_fields
  max_index-as_args acc [] = refl
  max_index-as_args acc (f ∷ fs) =
      max_index-as_args (max acc (max (max_index f.field_type) f.var.idx)) fs

  replace-name : (a b x : Var) → replace_name a b (some x) ≡ some (replace_var_of a b x)
  unfolding replace_name replace_var_of is_var
  replace-name a b x = elim (Bool-cases (var_eq x a)) [ inl e ↦ rw e refl | inr e ↦ rw e refl ]

  replace-as_args :
      (a b : Var) (fs : List Field)
      → replace_args a b (as_args fs) ≡ as_args (replace_fields a b fs)
  unfolding replace replace_fields
  replace-as_args a b [] = refl
  replace-as_args a b (f ∷ fs) = rw (replace-name a b f.var, replace-as_args a b fs) refl

  rename-as_args :
      (v : Var) (fs : List Field)
      → rename_args v (as_args fs) ≡ ((rename_fields v fs).0, as_args (rename_fields v fs).1)
  unfolding rename_args rename_fields
  rename-as_args v fs = rw (max_index-as_args 0 fs) (
      let new_var = (rename_fields v fs).0 in ap (λ t. (new_var, t)) (replace-as_args v new_var fs))

  avoid-as_args :
      (y : Expr) (x : Var) (fs : List Field)
      → (let r = avoid_capture_fields y x fs in
          avoid_capture_args y (some x) (as_args fs) ≡ (some r.0, as_args r.1))
  unfolding avoid_capture_args avoid_capture_fields
  avoid-as_args y x fs = elim (Bool-cases (occurs_in x anywhere y)) [
    | inl e ↦ rw e (ap (λ r. (some r.0, r.1)) (rename-as_args x fs))
    | inr e ↦ rw e refl
  ]

  substitute-as_args :
      (n : ℕ) (v : Var) (y : Expr) (fs : List Field)
      → as_args (substitute_fields n v y fs) ≡ substitute_args n v y (as_args fs)
  unfolding substitute substitute_fields is_var
  substitute-as_args zero v y fs = refl
  substitute-as_args (suc n) v y [] = refl
  substitute-as_args (suc n) v y (f ∷ fs) = elim (Bool-cases (var_eq f.var v)) [
    | inl e ↦ rw e refl
    | inr e ↦ rw e (
        rw (avoid-as_args y f.var fs) (
          ap (arg q (substitute n v y f.field_type) (some (avoid_capture_fields y f.var fs).0))
            (substitute-as_args n v y (avoid_capture_fields y f.var fs).1)))
  ]

  weight-as_args : (fs : List Field) → weight_args (as_args fs) ≡ weight_fields fs
  unfolding weight weight_fields
  weight-as_args [] = refl
  weight-as_args (f ∷ fs) = ap (λ n. 1 + weight f.field_type + n) (weight-as_args fs)

  any_fuel_fields :
      (k : ℕ) (v : Var) (y : Expr) (fs : List Field)
      → substitute_args (k + weight_fields fs) v y (as_args fs)
        ≡ substitute_args (weight_fields fs) v y (as_args fs)
  any_fuel_fields zero v y fs = rw zero-add refl
  any_fuel_fields (suc k) v y fs = rw (add.suc) (
      more_fuel_args v y (k + weight_fields fs) (as_args fs) (omega (arith, weight-as_args fs))
      ∙ any_fuel_fields k v y fs)

-- Renaming the fields of a struct, and substituting in them, is what renaming and substitution do to the
-- arguments of the Sigma-type that has the fields' types and names, all of one quantity, with any amount of
-- fuel above the weight of the fields.
pub substitute_in_fields-sigma :
    (q : Qty) (k : ℕ) (v : Var) (y : Expr) (fs : List Field)
    → (rename_args v (as_args q fs) ≡ ((rename_fields v fs).0, as_args q (rename_fields v fs).1))
      × (as_args q (substitute_in_fields v y fs)
          ≡ substitute_args (k + weight_fields fs) v y (as_args q fs))
unfolding substitute_in_fields
substitute_in_fields-sigma q k v y fs = (
  rename-as_args q v fs,
  substitute-as_args q (weight_fields fs) v y fs ∙ sym (any_fuel_fields q k v y fs),
)

-- After substituting an expression in which the variable is not free, the variable is not free in the fields.
pub substitute_in_fields-removes :
    (q : Qty) (v : Var) (y : Expr)
    → occurs_in v free y ≡ false
    → (fs : List Field)
    → occurs_in_args v free (as_args q (substitute_in_fields v y fs)) false ≡ false
unfolding substitute_in_fields
substitute_in_fields-removes q v y h fs =
    rw (substitute-as_args q (weight_fields fs) v y fs)
      (removed_args v y h (weight_fields fs) (as_args q fs) (omega (arith, weight-as_args q fs)))
