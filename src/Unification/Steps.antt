-- ===== src/Unification/Steps.antt =====
-- Putting substitutions in place, and what one step of a search in unification.cpp does.
use depc.Prelude.{◌≡◌, refl, sym, ap, ◌∙◌, Option, none, some, [], ◌∷◌, arith}
use depc.Ast.{
  Var, Expr, expr, Sort, Value, boolean_not, boolean_expr, relation_expr, arith_expr, var, app,
  addressof, deref, scopeof, init_list, member, subscript, because, Exprs, no_exprs, more,
}
use depc.Alpha.{Verdict, equivalent, differ, exprs_size, is_alpha_equivalent}
use depc.Alpha.Congruence.{IsAlike, IsAlikeExprs}
use depc.Alpha.Reflexive.{is_alpha_equivalent_refl}
use depc.Unification.{Substitutions, lookup_var, insert_or_compare}
use depc.Unification.Extends.{IsExtended, lookup-inserted, inserted-IsExtended}

abbrev otherwise : Option Expr → Expr → Expr
otherwise none x = x
otherwise (some e) x = e

unfoldable mutual
  -- The expression with the substitution of every variable in its place. What binds variables is left
  -- as it is.
  pub instantiate : Substitutions → Expr → Expr
  instantiate m (expr s x) = instantiate_value m s x

  pub instantiate_value : Substitutions → Sort → Value → Expr
  instantiate_value m s (var x) = otherwise (lookup_var m x) (expr s (var x))
  instantiate_value m s (boolean_not x) = expr s (boolean_not (instantiate m x))
  instantiate_value m s (boolean_expr o x y) =
      expr s (boolean_expr o (instantiate m x) (instantiate m y))
  instantiate_value m s (relation_expr o x y) =
      expr s (relation_expr o (instantiate m x) (instantiate m y))
  instantiate_value m s (arith_expr o x y) =
      expr s (arith_expr o (instantiate m x) (instantiate m y))
  instantiate_value m s (app f xs) = expr s (app (instantiate m f) (instantiate_exprs m xs))
  instantiate_value m s (addressof x) = expr s (addressof (instantiate m x))
  instantiate_value m s (deref x) = expr s (deref (instantiate m x))
  instantiate_value m s (scopeof x i) = expr s (scopeof (instantiate m x) i)
  instantiate_value m s (init_list xs) = expr s (init_list (instantiate_exprs m xs))
  instantiate_value m s (member x f) = expr s (member (instantiate m x) f)
  instantiate_value m s (subscript x i) = expr s (subscript (instantiate m x) (instantiate m i))
  instantiate_value m s (because x r) = expr s (because (instantiate m x) r)
  instantiate_value m s x = expr s x

  pub instantiate_exprs : Substitutions → Exprs → Exprs
  instantiate_exprs m no_exprs = no_exprs
  instantiate_exprs m (more x xs) = more (instantiate m x) (instantiate_exprs m xs)

pub exprs_size-instantiate :
    (m : Substitutions) (xs : Exprs) → exprs_size (instantiate_exprs m xs) ≡ exprs_size xs
unfolding exprs_size instantiate
exprs_size-instantiate m no_exprs = refl
exprs_size-instantiate m (more x xs) = omega (arith, exprs_size-instantiate m xs)

-- A step from `m` to `k` that makes `x` into `y`.
pub record Unifies (x y : Expr) (m k : Substitutions) : Type 0 where
  pub grows : IsExtended m k
  pub meets : (j : Substitutions) → IsExtended k j → IsAlike y (instantiate j x)

pub record UnifiesExprs (xs ys : Exprs) (m k : Substitutions) : Type 0 where
  pub grows : IsExtended m k
  pub meets : (j : Substitutions) → IsExtended k j → IsAlikeExprs ys (instantiate_exprs j xs)

pub IsExtended-refl : (m : Substitutions) → IsExtended m m
IsExtended-refl m x e h = h

pub IsExtended-trans : (m k j : Substitutions) → IsExtended m k → IsExtended k j → IsExtended m j
IsExtended-trans m k j h l x e p = l x e (h x e p)

-- A test that changes no substitution.
pub tested :
    (x y : Expr) (m k : Substitutions)
    → some m ≡ some k
    → ((j : Substitutions) → IsAlike y (instantiate j x))
    → Unifies x y m k
tested x y m k e h = record {
  grows = λ z d p. cc (p, ap (λ r. otherwise_map r z) e);
  meets = λ j _. h j;
}
  where
    otherwise_map : Option Substitutions → Var → Option Expr
    otherwise_map none z = none
    otherwise_map (some m) z = lookup_var m z

-- A step that comes down to one step, or to two.
pub through :
    (x y a b : Expr) (m k : Substitutions)
    → Unifies x y m k
    → ((j : Substitutions) → IsAlike y (instantiate j x) → IsAlike b (instantiate j a))
    → Unifies a b m k
through x y a b m k u f = record { grows = u.grows; meets = λ j h. f j (u.meets j h) }

pub in_turn :
    (x y z w a b : Expr) (m l k : Substitutions)
    → Unifies x y m l
    → Unifies z w l k
    → ((j : Substitutions)
        → IsAlike y (instantiate j x)
        → IsAlike w (instantiate j z)
        → IsAlike b (instantiate j a))
    → Unifies a b m k
in_turn x y z w a b m l k u v f = record {
  grows = IsExtended-trans m l k u.grows v.grows;
  meets = λ j h. f j (u.meets j (IsExtended-trans l k j v.grows h)) (v.meets j h);
}

abbrev pub from_some : Option Substitutions → Substitutions
from_some none = []
from_some (some m) = m

-- What a test that succeeds went through.
pub succeeded :
    (v : Verdict) (r : Option Substitutions) (k : Substitutions)
    → elim v [ equivalent ↦ r | differ _ ↦ none ] ≡ some k
    → (v ≡ equivalent) × (r ≡ some k)
succeeded equivalent r k h = (refl, h)
succeeded (differ e) r k h = absurd (ground (arith, h))

pub sound_insert :
    (s : Sort) (x : Var) (y : Expr) (m k : Substitutions) (r : Option Expr)
    → lookup_var m x ≡ r
    → insert_or_compare x y m r ≡ some k
    → Unifies (expr s (var x)) y m k
unfolding insert_or_compare instantiate
sound_insert s x y m k none e h =
    let p : (x, y) ∷ m ≡ k = ap from_some h in
    record {
      grows = λ z d q. ap (λ r. lookup_var r z) (sym p) ∙ inserted-IsExtended m x y e z d q;
      meets = λ j q.
          rw (q x y (ap (λ r. lookup_var r x) (sym p) ∙ lookup-inserted m x y))
            (is_alpha_equivalent_refl y);
    }
sound_insert s x y m k (some d) e h =
    let v = succeeded (is_alpha_equivalent y d) (some m) k h in
    let p : m ≡ k = ap from_some v.1 in
    record {
      grows = λ z c q. ap (λ r. lookup_var r z) (sym p) ∙ q;
      meets = λ j q. rw (q x d (ap (λ r. lookup_var r x) (sym p) ∙ e)) v.0;
    }
