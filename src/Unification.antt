-- ===== src/Unification.antt =====
-- dep0/lib/03_typecheck/src/unification.cpp: what to substitute for the variables of one expression to get
-- another. The `std::map` is an association list; a search that fails drops it, so `none` is `false`. The
-- reduction that the comparison of sorts rests on is an argument, as in `BetaDelta`.
pub mod Extends
pub mod Sound
pub mod Steps
use text.Mathlib.Text.{◌==◌ as str_eq}
use depc.Prelude.{Bool, List, [], ◌∷◌, Option, none, some, ◌==◌, if◌then◌else◌}
use depc.Ast.{
  Var, var_eq, Expr, expr, Sort, Value, atom, boolean_constant, numeric_constant, string_literal,
  boolean_not, boolean_expr, relation_expr, arith_expr, var, global, app, addressof, deref, scopeof,
  init_list, member, subscript, because, Exprs, more,
}
use depc.Ast.Index.{
  atom_index, boolean_index, relation_index, arith_index, bool_eq, int_eq, optional_eq,
}
use depc.Alpha.{equivalent, differ, exprs_size, is_alpha_equivalent}
use depc.BetaDelta.{are_sorts_equivalent}

-- `std::map<expr_t::var_t, expr_t>`
abbrev pub Substitutions : Type 0
Substitutions = List (Var × Expr)

unfoldable pub lookup_var : Substitutions → Var → Option Expr
lookup_var [] x = none
lookup_var ((y, e) ∷ m) x = (let rest = lookup_var m x in if var_eq y x then some e else rest)

-- `if (test) ...; else return false;`
unfoldable pub when : Bool → Option Substitutions → Option Substitutions
when b r = if b then r else none

-- `and`, and the early return of `false` from a loop.
infixl 10 ◌>>=◌
unfoldable pub ◌>>=◌ :
    Option Substitutions → (Substitutions → Option Substitutions) → Option Substitutions
none >>= f = none
some m >>= f = f m

-- `auto const [it, inserted] = result.try_emplace(x, to)`, and the test that follows it.
unfoldable pub insert_or_compare : Var → Expr → Substitutions → Option Expr → Option Substitutions
insert_or_compare x to m none = some ((x, to) ∷ m)
insert_or_compare x to m (some e) = elim (is_alpha_equivalent to e) [
  | equivalent ↦ some m
  | differ _ ↦ none
]

module _ (normalize : Expr → Bool × Expr) where
  -- A variable of the first expression.
  unfoldable pub unify_var : Sort → Var → Expr → Substitutions → Option Substitutions
  unify_var s x (expr t y) m = elim (are_sorts_equivalent normalize s t) [
    | equivalent ↦ insert_or_compare x (expr t y) m (lookup_var m x)
    | differ _ ↦ none
  ]

  unfoldable mutual
    -- `impl::unify`
    pub unify_from : Expr → Expr → Substitutions → Option Substitutions
    unify_from (expr s x) y m = unify_value s x y m

    pub unify_value : Sort → Value → Expr → Substitutions → Option Substitutions
    unify_value s (var x) y m = unify_var s x y m
    unify_value s (atom a) (expr _ (atom b)) m = when (atom_index a == atom_index b) (some m)
    unify_value s (boolean_constant a) (expr _ (boolean_constant b)) m = when (bool_eq a b) (some m)
    unify_value s (numeric_constant a) (expr _ (numeric_constant b)) m = when (int_eq a b) (some m)
    unify_value s (string_literal a) (expr _ (string_literal b)) m = when (str_eq a b) (some m)
    unify_value s (boolean_not x) (expr _ (boolean_not y)) m = unify_from x y m
    unify_value s (boolean_expr o x1 x2) (expr _ (boolean_expr p y1 y2)) m =
        when (boolean_index o == boolean_index p) (do k ← unify_from x1 y1 m; unify_from x2 y2 k)
    unify_value s (relation_expr o x1 x2) (expr _ (relation_expr p y1 y2)) m =
        when (relation_index o == relation_index p) (do k ← unify_from x1 y1 m; unify_from x2 y2 k)
    unify_value s (arith_expr o x1 x2) (expr _ (arith_expr p y1 y2)) m =
        when (arith_index o == arith_index p) (do k ← unify_from x1 y1 m; unify_from x2 y2 k)
    unify_value s (global a x) (expr _ (global b y)) m =
        when (optional_eq a b) (when (str_eq x y) (some m))
    unify_value s (app f xs) (expr _ (app g ys)) m =
        when (exprs_size xs == exprs_size ys) (do k ← unify_from f g m; unify_exprs xs ys k)
    unify_value s (addressof x) (expr _ (addressof y)) m = unify_from x y m
    unify_value s (deref x) (expr _ (deref y)) m = unify_from x y m
    unify_value s (scopeof x _) (expr _ (scopeof y _)) m = unify_from x y m
    unify_value s (init_list xs) (expr _ (init_list ys)) m =
        when (exprs_size xs == exprs_size ys) (unify_exprs xs ys m)
    unify_value s (member x f) (expr _ (member y g)) m = when (str_eq f g) (unify_from x y m)
    unify_value s (subscript x i) (expr _ (subscript y j)) m = do
      k ← unify_from x y m
      unify_from i j k
    unify_value s (because x _) (expr _ (because y _)) m = unify_from x y m
    unify_value s _ _ m = none

    -- The loop over two vectors of one size.
    pub unify_exprs : Exprs → Exprs → Substitutions → Option Substitutions
    unify_exprs (more x xs) (more y ys) m = do k ← unify_from x y m; unify_exprs xs ys k
    unify_exprs _ _ m = some m

  -- `unify`
  unfoldable pub unify : Expr → Expr → Option Substitutions
  unify x y = unify_from x y []
