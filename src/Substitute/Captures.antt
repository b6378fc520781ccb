-- ===== src/Substitute/Captures.antt =====
-- The renaming of binding variables in substitute.cpp, where the names in play have indexes already.
use depc.Prelude.{◌+◌, ◌≤◌, ◌≡◌, sym, ◌≢◌, true, false, none, some, arith}
use depc.Ast.{
  Var, is_var, Expr, expr, kind, bool_t, atom, var, app, no_exprs, more, no_args, arg, Signature,
}
use depc.Ast.Vars.{var_eq_refl, var_eq_ne}
use depc.Ast.OccursIn.{free, occurs_in, occurs_in_optional, occurs_in_signature}
use depc.Ast.MaxIndex.{max_index, max_index_signature}
use depc.Ast.Rename.{rename}
use depc.Ast.Replace.{replace_var, replace, replace_signature}
use depc.Ast.Weight.{weight, weight_signature, weight_optional}
use depc.Qty.{Qty}
use depc.Substitute.{avoid_capture, substitute, substitute_in}

-- The variable that renaming gives where no higher index is in sight.
abbrev pub next : Var → Var
next x = record x { idx = 1 + x.idx }

abbrev pub variable : Var → Expr
variable x = expr kind (var x)

-- `a(b)`
abbrev pub applied : Var → Var → Expr
applied a b = expr kind (app (variable a) (more (variable b) no_exprs))

-- `(q bool_t x) -> v`
abbrev pub returns_variable : Qty → Var → Var → Signature
returns_variable q x v = record {
  args = arg q (expr kind (atom bool_t)) (some x) no_args;
  ret_type = variable v;
  body = none;
}

-- After the renaming the binder is the next variable, and the return type is as before.
avoid-captures :
    (v x : Var)
    → v ≢ x
    → v.idx ≤ x.idx
    → avoid_capture
        (applied x (next x))
        (some x)
        (record { args = no_args; ret_type = variable v; body = none })
      ≡ (some (next x), record { args = no_args; ret_type = variable v; body = none })
unfolding avoid_capture rename occurs_in max_index max_index_signature replace_signature replace
    replace_var
avoid-captures v x n h = ground (arith, var_eq_refl x, var_eq_ne v x)

-- Let `v` and `x` be different variables, the index of `v` at most that of `x`, and `x'` be `x` with
-- the next index. Substituting `x(x')` for `v` in `(bool_t x) -> v` captures: `v` is free in the type
-- and `x'` in the expression, but `x'` is not free in the result.
pub substitute_in-captures :
    (q : Qty) (v x : Var)
    → v ≢ x
    → v.idx ≤ x.idx
    → (occurs_in_signature v free (returns_variable q x v) ≡ true)
      × (occurs_in (next x) free (applied x (next x)) ≡ true)
      × (occurs_in_signature
            (next x)
            free
            (substitute_in v (applied x (next x)) (returns_variable q x v))
          ≡ false)
unfolding substitute_in substitute weight_signature weight weight_optional occurs_in
    occurs_in_signature occurs_in_optional is_var
substitute_in-captures q v x n h =
    let n' : x ≢ v = λ e. n (sym e) in
    (
      ground (arith, var_eq_refl v, var_eq_ne x v n'),
      ground (arith, var_eq_refl (next x)),
      rw (var_eq_ne x v n', avoid-captures v x n h)
          (ground (arith, var_eq_refl v, var_eq_refl (next x))),
    )
