-- ===== src/Ast/Rename/Fresh.antt =====
-- What renaming a binding variable (rename_impl.hpp) does to occurrences: one step of alpha-conversion.
use depc.Prelude.{
  ◌<◌, ◌≡◌, refl, ap, ◌≢◌, false, not, ◌&&◌, arith, Bool-cases, inl, inr, if◌then◌else◌,
}
use depc.Ast.{Var, var_eq, Signature}
use depc.Ast.Vars.{var_eq_refl, var_eq→eq}
use depc.Ast.OccursIn.{OccurrenceStyle, anywhere, occurs_in_signature}
use depc.Ast.Replace.{replace_var, replace_signature}
use depc.Ast.MaxIndex.Bounds.{idx_le-max_index}
use depc.Ast.Rename.{rename}
use depc.Ast.Replace.Whole.{gone_signature, back_signature, kept_signature}

-- `w` is fresh for `g`, and `g'` is `g` with `w` for `v` wherever `v` occurred.
pub record IsRenaming (v w : Var) (g g' : Signature) : Type 0 where
  pub same_name : w.name ≡ v.name
  pub same_shadow_id : w.shadow_id ≡ v.shadow_id
  pub idx_grows : v.idx < w.idx
  pub fresh : (s : OccurrenceStyle) → occurs_in_signature w s g ≡ false
  pub occurrences :
      (u : Var) (s : OccurrenceStyle)
      → occurs_in_signature u s g' ≡ (
          if var_eq u w
          then occurs_in_signature v s g
          else (not (var_eq u v) && occurs_in_signature u s g))
  pub undo : replace_signature w v g' ≡ g

pub differ_of_idx : (v w : Var) → v.idx < w.idx → v ≢ w
differ_of_idx v w h e = absurd (omega (arith, ap (λ (x : Var). x.idx) e))

pub rename-idx : (v : Var) (g : Signature) → v.idx < (rename v g).0.idx
unfolding rename
rename-idx v g = omega arith

pub rename-fresh :
    (v : Var) (s : OccurrenceStyle) (g : Signature) → occurs_in_signature (rename v g).0 s g ≡ false
unfolding rename
rename-fresh v s g = ground (arith, idx_le-max_index (rename v g).0 s g)

differ_of_var_eq : (a b : Var) → var_eq a b ≡ false → a ≢ b
differ_of_var_eq a b e p = cc (e, var_eq_refl a, ap (var_eq a) p)

-- What occurs after a replacement by a fresh variable.
occurrences_signature :
    (v w u : Var) (s : OccurrenceStyle) (g : Signature)
    → v ≢ w
    → occurs_in_signature w anywhere g ≡ false
    → occurs_in_signature u s (replace_signature v w g) ≡ (
        if var_eq u w
        then occurs_in_signature v s g
        else (not (var_eq u v) && occurs_in_signature u s g))
unfolding replace_var
occurrences_signature v w u s g n h = elim (Bool-cases (var_eq u w)) [
  | inl e ↦ ground (arith, kept_signature v w v s g n h, var_eq→eq u w, var_eq_refl v)
  | inr e ↦ elim (Bool-cases (var_eq u v)) [
    | inl d ↦ ground (arith, gone_signature v w s g n, var_eq→eq u v)
    | inr d ↦ ground (arith, kept_signature v w u s g (differ_of_var_eq u w e) h)
  ]
]

-- `rename` returns a variable with the old name and shadow id and a higher index, which occurs
-- nowhere in the signature; in the renamed signature the new variable occurs where the old one did, the
-- old one nowhere and every other variable as before, free and anywhere; and replacing the new
-- variable by the old one gives the signature back.
pub rename-IsRenaming : (v : Var) (g : Signature) → IsRenaming v (rename v g).0 g (rename v g).1
unfolding rename
rename-IsRenaming v g =
    let w = (rename v g).0 in
    let differ = differ_of_idx v w (rename-idx v g) in
    record {
      same_name = refl;
      same_shadow_id = refl;
      idx_grows = rename-idx v g;
      fresh = λ s. rename-fresh v s g;
      occurrences = λ u s. occurrences_signature v w u s g differ (rename-fresh v anywhere g);
      undo = back_signature v w g (rename-fresh v anywhere g);
    }
