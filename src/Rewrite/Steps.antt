-- ===== src/Rewrite/Steps.antt =====
-- Truth values that say how one step of rewrite.cpp treats the free occurrences of a variable.
use depc.Prelude.{
  ◌≡◌, refl, ap, Bool, true, false, not, ◌&&◌, ◌||◌, Option, none, some, if◌then◌else◌, arith,
  Bool-cases, inl, inr,
}
use depc.Ast.{Var, is_var, Expr}
use depc.Ast.Vars.{var_eq→eq}
use depc.Ast.OccursIn.{free, occurs_in}
use depc.Rewrite.{has_value, choose, emplace_if, stops}

-- `t`: the variable is in what is put in; `c`: something changed; `n` and `o`: it is in the new tree, and in
-- the old one. A change shows the variable, and no other change does.
unfoldable pub carries : Bool → Bool → Bool → Bool → Bool
carries t c n o = (not (c && t) || n) && (not n || (t || o))

module _ (t : Bool) where
  pub unchanged : (o : Bool) → carries t false o o ≡ true
  unfolding carries
  unchanged o = ground arith

  pub in_either :
      (c d n m o p : Bool)
      → carries t c n o ≡ true
      → carries t d m p ≡ true
      → carries t (c || d) (n || m) (o || p) ≡ true
  unfolding carries
  in_either c d n m o p h k = ground arith

  pub in_either_swapped :
      (c d n m o p : Bool)
      → carries t c n o ≡ true
      → carries t d m p ≡ true
      → carries t (c || d) (m || n) (p || o) ≡ true
  unfolding carries
  in_either_swapped c d n m o p h k = ground arith

  -- An argument before what is changed by `c` and by `d`, when its name hides the variable there.
  pub in_hidden :
      (h c d n o : Bool)
      → carries t h n o ≡ true
      → (t ≡ true → (c || d) ≡ false)
      → carries t (c || (h || d)) (n || false) (o || false) ≡ true
  unfolding carries
  in_hidden h c d n o e k = elim (Bool-cases t) [
    | inl p ↦ ground (arith, e, p, k p)
    | inr p ↦ ground (arith, e, p)
  ]

  pub in_shown :
      (h c d n o m p : Bool)
      → carries t h n o ≡ true
      → carries t (c || d) m p ≡ true
      → carries t (c || (h || d)) (n || m) (o || p) ≡ true
  unfolding carries
  in_shown h c d n o m p e k = ground (arith, e, k)

  pub in_emplaced :
      {A : Type 0} (occurs : A → Bool) (c : Bool) (new old : A)
      → carries t c (occurs new) (occurs old) ≡ true
      → carries t
          (has_value (emplace_if c new))
          (occurs (choose (emplace_if c new) old))
          (occurs old)
        ≡ true
  unfolding has_value choose emplace_if
  in_emplaced occurs true new old h = h
  in_emplaced occurs false new old h = unchanged (occurs old)

  pub in_stopped :
      {A : Type 0} (occurs : A → Bool) (stop : Bool) (r : Option A) (old : A)
      → carries t (has_value r) (occurs (choose r old)) (occurs old) ≡ true
      → (let s = if stop then none else r in
          carries t (has_value s) (occurs (choose s old)) (occurs old) ≡ true)
  unfolding has_value choose
  in_stopped occurs true r old h = unchanged (occurs old)
  in_stopped occurs false r old h = h

  pub in_none :
      {A : Type 0} (occurs : A → Bool) (old : A)
      → carries t (has_value {A = A} none) (occurs (choose none old)) (occurs old) ≡ true
  unfolding has_value choose
  in_none occurs old = unchanged (occurs old)

-- Nothing changes after `stop`.
pub has_value-stopped :
    {A : Type 0} (stop : Bool) (r : Option A)
    → (has_value (if stop then none else r) && stop) ≡ false
unfolding has_value
has_value-stopped true r = refl
has_value-stopped false r = ground arith

-- What `carries` gives when something changed.
pub carries-changed :
    (t n o : Bool)
    → carries t true n o ≡ true
    → (t ≡ true → n ≡ true) × (n ≡ true → (t || o) ≡ true)
unfolding carries
carries-changed t n o h = (λ e. ground (arith, h, e), λ e. ground (arith, h, e))

-- A binder of a variable that is free in what is put in stops rewriting.
pub stops-var :
    (from to : Expr) (w : Var) (x : Option Var)
    → is_var x w ≡ true
    → occurs_in w free to ≡ true
    → stops from to x ≡ true
unfolding stops is_var
stops-var from to w none h k = absurd (ground (arith, h))
stops-var from to w (some v) h k = ground (arith, ap (λ z. occurs_in z free to) (var_eq→eq v w h))
