-- ===== src/Alpha/Congruence.antt =====
-- Expressions whose parts are alpha-equivalent.
use depc.Prelude.{ℕ, zero, suc, ◌+◌, ◌≤◌, String, ◌≡◌, refl, sym, ◌∙◌, true, ◌==◌, arith}
use text.Mathlib.Text.{◌==◌ as str_eq}
use depc.Ast.{
  Expr, expr, Sort, boolean_not, BooleanOp, boolean_expr, RelationOp, relation_expr, ArithOp,
  arith_expr, app, addressof, deref, scopeof, init_list, member, subscript, because, Exprs,
  no_exprs, more,
}
use depc.Ast.Index.{boolean_index, relation_index, arith_index}
use depc.Ast.Weight.{weight, weight_exprs}
use depc.Alpha.{equivalent, if_equivalent, exprs_size, alpha, alpha_exprs, is_alpha_equivalent}
use depc.Alpha.Fuel.{at_fuel}
use depc.Alpha.Verdicts.{if_equivalent-both, if_equivalent-first, require-true}

-- Two expressions are equivalent.
abbrev pub IsAlike : Expr → Expr → Type 0
IsAlike x y = is_alpha_equivalent x y ≡ equivalent

-- The loop over two vectors of expressions succeeds.
abbrev pub IsAlikeExprs : Exprs → Exprs → Type 0
IsAlikeExprs xs ys =
    (n : ℕ) → weight_exprs xs + weight_exprs ys ≤ n → alpha_exprs n xs ys ≡ equivalent

with_fuel : (n : ℕ) (x y : Expr) → weight x + weight y ≤ n → IsAlike x y → alpha n x y ≡ equivalent
with_fuel n x y h e = at_fuel n x y h ∙ e

pub alike_no_exprs : IsAlikeExprs no_exprs no_exprs
unfolding alpha weight
alike_no_exprs zero h = absurd (omega arith)
alike_no_exprs (suc n) h = refl

pub alike_more :
    (x y : Expr) (xs ys : Exprs)
    → IsAlike x y
    → IsAlikeExprs xs ys
    → IsAlikeExprs (more x xs) (more y ys)
unfolding alpha weight
alike_more x y xs ys e f zero h = absurd (omega arith)
alike_more x y xs ys e f (suc n) h =
    if_equivalent-both _ _ (with_fuel n x y (omega arith) e) (f n (omega arith))

-- Where the comparison comes down to that of a part, or of two parts.
by_part :
    (a b x y : Expr)
    → ((n : ℕ) → alpha (suc (suc n)) a b ≡ alpha n x y)
    → weight x + weight y ≤ weight a + weight b
    → IsAlike x y
    → IsAlike a b
by_part a b x y e le h =
    let n = weight a + weight b in
    sym (at_fuel (suc (suc n)) a b (omega arith)) ∙ e n ∙ with_fuel n x y le h

by_parts :
    (a b x y z w : Expr)
    → ((n : ℕ) → alpha (suc (suc n)) a b ≡ if_equivalent (alpha n x y) (alpha n z w))
    → weight x + weight y ≤ weight a + weight b
    → weight z + weight w ≤ weight a + weight b
    → IsAlike x y
    → IsAlike z w
    → IsAlike a b
by_parts a b x y z w e le le' h k =
    let n = weight a + weight b in
    sym (at_fuel (suc (suc n)) a b (omega arith))
    ∙ e n
    ∙ if_equivalent-both _ _ (with_fuel n x y le h) (with_fuel n z w le' k)

-- Two values that do not look into expressions.
pub by_test : (a b : Expr) → ((n : ℕ) → alpha (suc (suc n)) a b ≡ equivalent) → IsAlike a b
by_test a b e = let n = weight a + weight b in sym (at_fuel (suc (suc n)) a b (omega arith)) ∙ e n

module _ (s t : Sort) where
  module _ (x y : Expr) (h : IsAlike x y) where
    pub IsAlike-boolean_not : IsAlike (expr s (boolean_not x)) (expr t (boolean_not y))
    unfolding alpha weight
    IsAlike-boolean_not =
        by_part (expr s (boolean_not x)) (expr t (boolean_not y)) x y (λ n. refl) (omega arith) h

    pub IsAlike-addressof : IsAlike (expr s (addressof x)) (expr t (addressof y))
    unfolding alpha weight
    IsAlike-addressof =
        by_part (expr s (addressof x)) (expr t (addressof y)) x y (λ n. refl) (omega arith) h

    pub IsAlike-deref : IsAlike (expr s (deref x)) (expr t (deref y))
    unfolding alpha weight
    IsAlike-deref = by_part (expr s (deref x)) (expr t (deref y)) x y (λ n. refl) (omega arith) h

    pub IsAlike-scopeof : (i j : ℕ) → IsAlike (expr s (scopeof x i)) (expr t (scopeof y j))
    unfolding alpha weight
    IsAlike-scopeof i j =
        by_part (expr s (scopeof x i)) (expr t (scopeof y j)) x y (λ n. refl) (omega arith) h

    pub IsAlike-because : (r q : Expr) → IsAlike (expr s (because x r)) (expr t (because y q))
    unfolding alpha weight
    IsAlike-because r q =
        let n = weight (expr s (because x r)) + weight (expr t (because y q)) in
        sym (at_fuel (suc n) (expr s (because x r)) (expr t (because y q)) (omega arith))
        ∙ with_fuel n x y (omega arith) h

    pub IsAlike-member :
        (f g : String) → str_eq f g ≡ true → IsAlike (expr s (member x f)) (expr t (member y g))
    unfolding alpha weight
    IsAlike-member f g e =
        let n = weight (expr s (member x f)) + weight (expr t (member y g)) in
        sym (at_fuel (suc (suc n)) (expr s (member x f)) (expr t (member y g)) (omega arith))
        ∙ if_equivalent-both _ _ (with_fuel n x y (omega arith) h) (require-true _ _ e)

    module _ (z w : Expr) (k : IsAlike z w) where
      pub IsAlike-subscript : IsAlike (expr s (subscript x z)) (expr t (subscript y w))
      unfolding alpha weight
      IsAlike-subscript =
          by_parts (expr s (subscript x z)) (expr t (subscript y w)) x y z w (λ n. refl)
            (omega arith) (omega arith) h k

      pub IsAlike-boolean_expr :
          (o p : BooleanOp)
          → (boolean_index o == boolean_index p) ≡ true
          → IsAlike (expr s (boolean_expr o x z)) (expr t (boolean_expr p y w))
      unfolding alpha weight
      IsAlike-boolean_expr o p e =
          by_parts (expr s (boolean_expr o x z)) (expr t (boolean_expr p y w)) x y z w
            (λ n. if_equivalent-first _ _ (require-true _ _ e)) (omega arith) (omega arith) h k

      pub IsAlike-relation_expr :
          (o p : RelationOp)
          → (relation_index o == relation_index p) ≡ true
          → IsAlike (expr s (relation_expr o x z)) (expr t (relation_expr p y w))
      unfolding alpha weight
      IsAlike-relation_expr o p e =
          by_parts (expr s (relation_expr o x z)) (expr t (relation_expr p y w)) x y z w
            (λ n. if_equivalent-first _ _ (require-true _ _ e)) (omega arith) (omega arith) h k

      pub IsAlike-arith_expr :
          (o p : ArithOp)
          → (arith_index o == arith_index p) ≡ true
          → IsAlike (expr s (arith_expr o x z)) (expr t (arith_expr p y w))
      unfolding alpha weight
      IsAlike-arith_expr o p e =
          by_parts (expr s (arith_expr o x z)) (expr t (arith_expr p y w)) x y z w
            (λ n. if_equivalent-first _ _ (require-true _ _ e)) (omega arith) (omega arith) h k

    pub IsAlike-app :
        (xs ys : Exprs)
        → (exprs_size xs == exprs_size ys) ≡ true
        → IsAlikeExprs xs ys
        → IsAlike (expr s (app x xs)) (expr t (app y ys))
    unfolding alpha weight
    IsAlike-app xs ys e k =
        let n = weight (expr s (app x xs)) + weight (expr t (app y ys)) in
        sym (at_fuel (suc (suc (suc n))) (expr s (app x xs)) (expr t (app y ys)) (omega arith))
        ∙ if_equivalent-both _ _ (require-true _ _ e)
            (if_equivalent-both _ _ (with_fuel n x y (omega arith) h) (k n (omega arith)))

  pub IsAlike-init_list :
      (xs ys : Exprs)
      → (exprs_size xs == exprs_size ys) ≡ true
      → IsAlikeExprs xs ys
      → IsAlike (expr s (init_list xs)) (expr t (init_list ys))
  unfolding alpha weight
  IsAlike-init_list xs ys e k =
      let n = weight (expr s (init_list xs)) + weight (expr t (init_list ys)) in
      sym (at_fuel (suc (suc n)) (expr s (init_list xs)) (expr t (init_list ys)) (omega arith))
      ∙ if_equivalent-both _ _ (require-true _ _ e) (k n (omega arith))
