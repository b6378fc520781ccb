-- ===== src/Unification/Sound.antt =====
-- The substitutions that unification.cpp finds.
use depc.Prelude.{◌≡◌, refl, sym, ap, ◌∙◌, true, Bool, some, [], ◌==◌, arith}
use depc.Ast.{
  Var, Expr, expr, Sort, Value, atom, boolean_constant, numeric_constant, string_literal,
  boolean_not, boolean_expr, relation_expr, arith_expr, var, global, app, addressof, deref, scopeof,
  init_list, member, subscript, because, Exprs, no_exprs, more,
}
use depc.Ast.Index.{bool_eq_sym, int_eq_sym, optional_eq_sym, str_eq_sym}
use depc.Alpha.{equivalent, exprs_size, alpha, is_alpha_equivalent}
use depc.Alpha.Congruence.{
  alike_no_exprs, alike_more, by_test, IsAlike-boolean_not, IsAlike-boolean_expr,
  IsAlike-relation_expr, IsAlike-arith_expr, IsAlike-app, IsAlike-addressof, IsAlike-deref,
  IsAlike-scopeof, IsAlike-init_list, IsAlike-member, IsAlike-subscript, IsAlike-because,
}
use depc.Alpha.Verdicts.{if_equivalent-both, require-true}
use depc.BetaDelta.{are_sorts_equivalent}
use depc.Unification.{
  Substitutions, lookup_var, unify_var, unify_from, unify_value, unify_exprs, unify,
}
use depc.Unification.Extends.{when-some, >>=-some}
use depc.Unification.Steps.{
  instantiate, instantiate_exprs, exprs_size-instantiate, Unifies, UnifiesExprs, IsExtended-refl,
  IsExtended-trans, tested, through, in_turn, from_some, succeeded, sound_insert,
}

module _ (normalize : Expr → Bool × Expr) where
  sound_var :
      (s : Sort) (x : Var) (y : Expr) (m k : Substitutions)
      → unify_var normalize s x y m ≡ some k
      → Unifies (expr s (var x)) y m k
  unfolding unify_var
  sound_var s x (expr t y) m k h =
      sound_insert s x (expr t y) m k (lookup_var m x) refl
        (succeeded (are_sorts_equivalent normalize s t) _ k h).1

  mutual
    unfolding unify_from instantiate alpha exprs_size

    sound :
        (x y : Expr) (m k : Substitutions) → unify_from normalize x y m ≡ some k → Unifies x y m k
    sound (expr s x) y m k h = sound_value s x y m k h

    sound_value :
        (s : Sort) (x : Value) (y : Expr) (m k : Substitutions)
        → unify_value normalize s x y m ≡ some k
        → Unifies (expr s x) y m k
    sound_value s (var x) y m k h = sound_var s x y m k h
    sound_value s (atom a) (expr t (atom b)) m k h =
        let w = when-some _ _ k h in
        tested (expr s (atom a)) (expr t (atom b)) m k w.1 (λ j.
          by_test (expr t (atom b)) (expr s (atom a)) (λ n. require-true _ _ (ground (arith, w.0))))
    sound_value s (boolean_constant a) (expr t (boolean_constant b)) m k h =
        let w = when-some _ _ k h in
        tested (expr s (boolean_constant a)) (expr t (boolean_constant b)) m k w.1 (λ j.
          by_test (expr t (boolean_constant b)) (expr s (boolean_constant a))
            (λ n. require-true _ _ (bool_eq_sym a b w.0)))
    sound_value s (numeric_constant a) (expr t (numeric_constant b)) m k h =
        let w = when-some _ _ k h in
        tested (expr s (numeric_constant a)) (expr t (numeric_constant b)) m k w.1 (λ j.
          by_test (expr t (numeric_constant b)) (expr s (numeric_constant a))
            (λ n. require-true _ _ (int_eq_sym a b w.0)))
    sound_value s (string_literal a) (expr t (string_literal b)) m k h =
        let w = when-some _ _ k h in
        tested (expr s (string_literal a)) (expr t (string_literal b)) m k w.1 (λ j.
          by_test (expr t (string_literal b)) (expr s (string_literal a))
            (λ n. require-true _ _ (str_eq_sym a b w.0)))
    sound_value s (global a x) (expr t (global b y)) m k h =
        let w = when-some _ _ k h in
        let v = when-some _ _ k w.1 in
        tested (expr s (global a x)) (expr t (global b y)) m k v.1 (λ j.
          by_test (expr t (global b y)) (expr s (global a x)) (λ n.
            if_equivalent-both _ _ (require-true _ _ (optional_eq_sym a b w.0))
              (require-true _ _ (str_eq_sym x y v.0))))
    sound_value s (boolean_not x) (expr t (boolean_not y)) m k h =
        through x y (expr s (boolean_not x)) (expr t (boolean_not y)) m k (sound x y m k h)
          (λ j e. IsAlike-boolean_not t s y (instantiate j x) e)
    sound_value s (addressof x) (expr t (addressof y)) m k h =
        through x y (expr s (addressof x)) (expr t (addressof y)) m k (sound x y m k h)
          (λ j e. IsAlike-addressof t s y (instantiate j x) e)
    sound_value s (deref x) (expr t (deref y)) m k h =
        through x y (expr s (deref x)) (expr t (deref y)) m k (sound x y m k h)
          (λ j e. IsAlike-deref t s y (instantiate j x) e)
    sound_value s (scopeof x i) (expr t (scopeof y l)) m k h =
        through x y (expr s (scopeof x i)) (expr t (scopeof y l)) m k (sound x y m k h)
          (λ j e. IsAlike-scopeof t s y (instantiate j x) e l i)
    sound_value s (because x r) (expr t (because y q)) m k h =
        through x y (expr s (because x r)) (expr t (because y q)) m k (sound x y m k h)
          (λ j e. IsAlike-because t s y (instantiate j x) e q r)
    sound_value s (member x f) (expr t (member y g)) m k h =
        let w = when-some _ _ k h in
        through x y (expr s (member x f)) (expr t (member y g)) m k (sound x y m k w.1)
          (λ j e. IsAlike-member t s y (instantiate j x) e g f (str_eq_sym f g w.0))
    sound_value s (subscript x z) (expr t (subscript y w)) m k h =
        let u = >>=-some _ _ k h in
        in_turn x y z w (expr s (subscript x z)) (expr t (subscript y w)) m u.0 k
          (sound x y m u.0 u.1) (sound z w u.0 k u.2)
          (λ j d e. IsAlike-subscript t s y (instantiate j x) d w (instantiate j z) e)
    sound_value s (boolean_expr o x z) (expr t (boolean_expr p y w)) m k h =
        let g = when-some _ _ k h in
        let u = >>=-some _ _ k g.1 in
        in_turn x y z w (expr s (boolean_expr o x z)) (expr t (boolean_expr p y w)) m u.0 k
          (sound x y m u.0 u.1) (sound z w u.0 k u.2)
          (λ j d e.
            IsAlike-boolean_expr t s y (instantiate j x) d w (instantiate j z) e p o
              (ground (arith, g.0)))
    sound_value s (relation_expr o x z) (expr t (relation_expr p y w)) m k h =
        let g = when-some _ _ k h in
        let u = >>=-some _ _ k g.1 in
        in_turn x y z w (expr s (relation_expr o x z)) (expr t (relation_expr p y w)) m u.0 k
          (sound x y m u.0 u.1) (sound z w u.0 k u.2)
          (λ j d e.
            IsAlike-relation_expr t s y (instantiate j x) d w (instantiate j z) e p o
              (ground (arith, g.0)))
    sound_value s (arith_expr o x z) (expr t (arith_expr p y w)) m k h =
        let g = when-some _ _ k h in
        let u = >>=-some _ _ k g.1 in
        in_turn x y z w (expr s (arith_expr o x z)) (expr t (arith_expr p y w)) m u.0 k
          (sound x y m u.0 u.1) (sound z w u.0 k u.2)
          (λ j d e.
            IsAlike-arith_expr t s y (instantiate j x) d w (instantiate j z) e p o
              (ground (arith, g.0)))
    sound_value s (app x xs) (expr t (app y ys)) m k h =
        let g = when-some _ _ k h in
        let u = >>=-some _ _ k g.1 in
        let a = sound x y m u.0 u.1 in
        let b = sound_exprs xs ys u.0 k g.0 u.2 in
        record {
          grows = IsExtended-trans m u.0 k a.grows b.grows;
          meets = λ j e.
              IsAlike-app t s y (instantiate j x) (a.meets j (IsExtended-trans u.0 k j b.grows e))
                ys (instantiate_exprs j xs) (ground (arith, g.0, exprs_size-instantiate j xs))
                (b.meets j e);
        }
    sound_value s (init_list xs) (expr t (init_list ys)) m k h =
        let g = when-some _ _ k h in
        let b = sound_exprs xs ys m k g.0 g.1 in
        record {
          grows = b.grows;
          meets = λ j e.
              IsAlike-init_list t s ys (instantiate_exprs j xs)
                (ground (arith, g.0, exprs_size-instantiate j xs)) (b.meets j e);
        }
    sound_value s _ (expr t _) m k h = absurd (ground (arith, h))

    sound_exprs :
        (xs ys : Exprs) (m k : Substitutions)
        → (exprs_size xs == exprs_size ys) ≡ true
        → unify_exprs normalize xs ys m ≡ some k
        → UnifiesExprs xs ys m k
    sound_exprs no_exprs no_exprs m k e h = record {
      grows = λ z d p. ap (λ r. lookup_var r z) (sym (ap from_some h)) ∙ p;
      meets = λ j _. alike_no_exprs;
    }
    sound_exprs no_exprs (more y ys) m k e h = absurd (ground (arith, e))
    sound_exprs (more x xs) no_exprs m k e h = absurd (ground (arith, e))
    sound_exprs (more x xs) (more y ys) m k e h =
        let u = >>=-some _ _ k h in
        let a = sound x y m u.0 u.1 in
        let b = sound_exprs xs ys u.0 k (ground (arith, e)) u.2 in
        record {
          grows = IsExtended-trans m u.0 k a.grows b.grows;
          meets = λ j l.
              alike_more y (instantiate j x) ys (instantiate_exprs j xs)
                (a.meets j (IsExtended-trans u.0 k j b.grows l)) (b.meets j l);
        }

-- What `unify` finds does what its documentation promises: putting the substitutions in the place of the
-- variables of the first expression gives an expression that the second one is alpha-equivalent to,
-- however reduction, which the comparison of sorts uses, behaves.
pub unify-instantiate :
    (normalize : Expr → Bool × Expr) (x y : Expr) (m : Substitutions)
    → unify normalize x y ≡ some m
    → is_alpha_equivalent y (instantiate m x) ≡ equivalent
unfolding unify
unify-instantiate normalize x y m h = (sound normalize x y [] m h).meets m (IsExtended-refl m)
