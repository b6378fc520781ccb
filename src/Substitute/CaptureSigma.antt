-- ===== src/Substitute/CaptureSigma.antt =====
-- For Sigma-types, what `avoid_capture_args` guarantees: the binding variable it leaves is not free in the expression to
-- put in, and binds what the old one bound.
use depc.Prelude.{◌<◌, ◌≡◌, refl, true, false, Option, none, some, arith, Bool-cases, inl, inr}
use depc.Ast.{Var, var_eq, is_var, Expr, Args}
use depc.Ast.Vars.{var_eq_refl, var_eq→eq, var_eq_idx}
use depc.Ast.OccursIn.{OccurrenceStyle, free, anywhere, occurs_in, occurs_in_args}
use depc.Ast.MaxIndex.{max_index}
use depc.Ast.MaxIndex.Bounds.{idx_le, idx_le_args}
use depc.Ast.OccursIn.Free.{anywhere_of_free}
use depc.Ast.Rename.{rename_args}
use depc.Ast.Rename.Fresh.{differ_of_idx}
use depc.Ast.Replace.Gone.{gone_args}
use depc.Ast.Replace.Kept.{kept_args}
use depc.Substitute.{avoid_capture_args}
use depc.Substitute.Capture.{under, replace_var_other}

rename_args-idx : (v : Var) (gs : Args) → v.idx < (rename_args v gs).0.idx
unfolding rename_args
rename_args-idx v gs = omega arith

rename_args-fresh :
    (v : Var) (s : OccurrenceStyle) (gs : Args)
    → occurs_in_args (rename_args v gs).0 s gs false ≡ false
unfolding rename_args
rename_args-fresh v s gs = ground (
  arith,
  λ (h : occurs_in_args (rename_args v gs).0 s gs false ≡ true).
      idx_le_args (rename_args v gs).0 s gs 0 h (λ k. cc),
)

-- Renaming the binder keeps what is free under it.
under-rename_args :
    (x w : Var) (g : Args)
    → under (some (rename_args x g).0) w (occurs_in_args w free (rename_args x g).1 false)
      ≡ under (some x) w (occurs_in_args w free g false)
unfolding is_var rename_args
under-rename_args x w g =
    let x' = (rename_args x g).0 in
    let differ = differ_of_idx x x' (rename_args-idx x g) in
    elim (Bool-cases (var_eq x' w)) [
      | inl e ↦ rw e (ground (arith, var_eq→eq x' w e, rename_args-fresh x free g))
      | inr e ↦ elim (Bool-cases (var_eq x w)) [
        | inl e' ↦ ground (arith, var_eq→eq x w e', gone_args x x' free differ g false refl)
        | inr e' ↦ ground (
          arith,
          replace_var_other x x' w e',
          kept_args x x' w free (λ p. cc (e, p, var_eq_refl w)) g false false false
              (rename_args-fresh x anywhere g) refl,
        )
      ]
    ]

pub under-avoid_args :
    (y : Expr) (x : Option Var) (w : Var) (g : Args)
    → under
        (avoid_capture_args y x g).0
        w
        (occurs_in_args w free (avoid_capture_args y x g).1 false)
      ≡ under x w (occurs_in_args w free g false)
unfolding avoid_capture_args
under-avoid_args y none w g = refl
under-avoid_args y (some x) w g = elim (Bool-cases (occurs_in x anywhere y)) [
  | inl e ↦ rw e (under-rename_args x w g)
  | inr e ↦ rw e refl
]

-- A variable with a positive index is not in an expression where all indices are 0.
module _ (v : Var) (y : Expr) (v_original : v.idx ≡ 0) (y_original : max_index y ≡ 0) where
  pub avoid_args-misses :
      (x : Option Var) (w : Var) (g : Args)
      → is_var (avoid_capture_args y x g).0 w ≡ true
      → occurs_in w free y ≡ false
  unfolding avoid_capture_args rename_args is_var
  avoid_args-misses none w g h = cc
  avoid_args-misses (some x) w g h = ground (
    arith,
    anywhere_of_free w y,
    idx_le w free y,
    var_eq_idx (rename_args x g).0 w,
    var_eq→eq x w,
  )

  pub avoid_args-keeps :
      (x : Option Var) (g : Args)
      → is_var x v ≡ false
      → is_var (avoid_capture_args y x g).0 v ≡ false
  unfolding avoid_capture_args rename_args is_var
  avoid_args-keeps none g h = refl
  avoid_args-keeps (some x) g h = ground (arith, var_eq_idx (rename_args x g).0 v)
