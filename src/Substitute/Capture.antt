-- ===== src/Substitute/Capture.antt =====
-- What `avoid_capture` guarantees: the binding variable it leaves is not free in the expression to
-- put in, and binds what the old one bound.
use depc.Prelude.{
  ◌≡◌, refl, Bool, true, false, Option, none, some, arith, Bool-cases, inl, inr, if◌then◌else◌,
}
use depc.Ast.{Var, var_eq, is_var, Expr, Signature}
use depc.Ast.Vars.{var_eq_refl, var_eq→eq, var_eq_sym, var_eq_idx}
use depc.Ast.OccursIn.{free, anywhere, occurs_in, occurs_in_signature}
use depc.Ast.Replace.{replace_var}
use depc.Ast.MaxIndex.{max_index}
use depc.Ast.MaxIndex.Bounds.{idx_le}
use depc.Ast.OccursIn.Free.{anywhere_of_free}
use depc.Ast.Rename.{rename}
use depc.Ast.Rename.Fresh.{differ_of_idx, rename-idx, rename-fresh}
use depc.Ast.Replace.Whole.{gone_signature, kept_signature}
use depc.Substitute.{avoid_capture}

-- What is free under the binder `x`.
abbrev pub under : Option Var → Var → Bool → Bool
under x w b = if is_var x w then false else b

pub replace_var_other : (a b w : Var) → var_eq a w ≡ false → replace_var a b w ≡ w
unfolding replace_var
replace_var_other a b w h = ground (arith, var_eq_sym a w)

-- Renaming the binder keeps what is free under it.
under-rename :
    (x w : Var) (g : Signature)
    → under (some (rename x g).0) w (occurs_in_signature w free (rename x g).1)
      ≡ under (some x) w (occurs_in_signature w free g)
unfolding is_var rename
under-rename x w g =
    let x' = (rename x g).0 in
    let differ = differ_of_idx x x' (rename-idx x g) in
    elim (Bool-cases (var_eq x' w)) [
      | inl e ↦ rw e (ground (arith, var_eq→eq x' w e, rename-fresh x free g))
      | inr e ↦ elim (Bool-cases (var_eq x w)) [
        | inl e' ↦ ground (arith, var_eq→eq x w e', gone_signature x x' free g differ)
        | inr e' ↦ ground (
          arith,
          replace_var_other x x' w e',
          kept_signature x x' w free g (λ p. cc (e, p, var_eq_refl w)) (rename-fresh x anywhere g),
        )
      ]
    ]

pub under-avoid :
    (y : Expr) (x : Option Var) (w : Var) (g : Signature)
    → under (avoid_capture y x g).0 w (occurs_in_signature w free (avoid_capture y x g).1)
      ≡ under x w (occurs_in_signature w free g)
unfolding avoid_capture
under-avoid y none w g = refl
under-avoid y (some x) w g = elim (Bool-cases (occurs_in x anywhere y)) [
  | inl e ↦ rw e (under-rename x w g)
  | inr e ↦ rw e refl
]

-- A variable with a positive index is not in an expression where all indices are 0.
module _ (v : Var) (y : Expr) (v_original : v.idx ≡ 0) (y_original : max_index y ≡ 0) where
  pub avoid-misses :
      (x : Option Var) (w : Var) (g : Signature)
      → is_var (avoid_capture y x g).0 w ≡ true
      → occurs_in w free y ≡ false
  unfolding avoid_capture rename is_var
  avoid-misses none w g h = cc
  avoid-misses (some x) w g h =
      ground
        (arith, anywhere_of_free w y, idx_le w free y, var_eq_idx (rename x g).0 w, var_eq→eq x w)

  pub avoid-keeps :
      (x : Option Var) (g : Signature)
      → is_var x v ≡ false
      → is_var (avoid_capture y x g).0 v ≡ false
  unfolding avoid_capture rename is_var
  avoid-keeps none g h = refl
  avoid-keeps (some x) g h = ground (arith, var_eq_idx (rename x g).0 v)
