-- ===== src/Alpha/Fuel.antt =====
-- The fuel of the model of alpha_equivalence_impl.hpp.
use depc.Prelude.{ℕ, zero, suc, ◌+◌, ◌-◌, ◌≤◌, ◌≡◌, refl, ap, ap₂, ◌∙◌, Option, none, some, arith}
use depc.Ast.{
  Var, Expr, expr, Value, boolean_not, boolean_expr, relation_expr, arith_expr, app, abs, pi, sigma,
  addressof, deref, scopeof, init_list, member, subscript, because, Exprs, no_exprs, more, Args,
  no_args, arg, Body, done, stmt, Stmt, call, if_then, if_else, return_value, Signature,
}
use depc.Ast.Rename.{rename, rename_args}
use depc.Ast.Weight.{
  weight, weight_value, weight_exprs, weight_args, weight_body, weight_stmt, weight_optional,
  weight_signature, weight_pos, weight_value_pos, weight_exprs_pos, weight_args_pos,
  weight_body_pos, weight_stmt_pos,
}
use depc.Ast.Weight.Replace.{weight-replace_args, weight-replace_signature}
use Prim.Native.Nat.add
use native.Mathlib.Nat.{zero-add}
use depc.Alpha.{
  if_equivalent, explain, argument, return_type, align, align_args, match_names, match_arg_names,
  alpha, alpha_value, alpha_app, alpha_exprs, alpha_args, alpha_signature, alpha_optional,
  alpha_body, alpha_stmts, alpha_stmt, is_alpha_equivalent,
}

pub weight-match_names :
    (x : Option Var) (g : Signature) (y : Option Var) (h : Signature)
    → (weight_signature (match_names x g y h).1 ≡ weight_signature g)
      × (weight_signature (match_names x g y h).2 ≡ weight_signature h)
unfolding match_names align rename
weight-match_names none g none h = (refl, refl)
weight-match_names none g (some y) h = (refl, refl)
weight-match_names (some x) g none h = (refl, refl)
weight-match_names (some x) g (some y) h = grind (arith, weight-replace_signature)

pub weight-match_arg_names :
    (x : Option Var) (g : Args) (y : Option Var) (h : Args)
    → (weight_args (match_arg_names x g y h).1 ≡ weight_args g)
      × (weight_args (match_arg_names x g y h).2 ≡ weight_args h)
unfolding match_arg_names align_args rename_args
weight-match_arg_names none g none h = (refl, refl)
weight-match_arg_names none g (some y) h = (refl, refl)
weight-match_arg_names (some x) g none h = (refl, refl)
weight-match_arg_names (some x) g (some y) h = grind (arith, weight-replace_args)

mutual
  unfolding alpha weight weight_optional weight_signature

  more_fuel : (n : ℕ) (x y : Expr) → weight x + weight y ≤ n → alpha (suc n) x y ≡ alpha n x y
  more_fuel zero x y h = absurd (omega (arith, weight_pos x))
  more_fuel (suc n) (expr s (because x r)) (expr t (because y q)) h = more_fuel n x y (omega arith)
  more_fuel (suc n) (expr s (because x r)) (expr t y) h = more_fuel n x (expr t y) (omega arith)
  more_fuel (suc n) (expr s x) (expr t (because y q)) h = more_fuel n (expr s x) y (omega arith)
  more_fuel (suc n) (expr s x) (expr t y) h = more_fuel_value n x y (omega arith)

  more_fuel_value :
      (n : ℕ) (x y : Value)
      → weight_value x + weight_value y ≤ n
      → alpha_value (suc n) x y ≡ alpha_value n x y
  more_fuel_value zero x y h = absurd (omega (arith, weight_value_pos x))
  more_fuel_value (suc n) (boolean_not x) (boolean_not y) h = more_fuel n x y (omega arith)
  more_fuel_value (suc n) (boolean_expr o x1 x2) (boolean_expr p y1 y2) h =
      ground (arith, more_fuel n x1 y1, more_fuel n x2 y2)
  more_fuel_value (suc n) (relation_expr o x1 x2) (relation_expr p y1 y2) h =
      ground (arith, more_fuel n x1 y1, more_fuel n x2 y2)
  more_fuel_value (suc n) (arith_expr o x1 x2) (arith_expr p y1 y2) h =
      ground (arith, more_fuel n x1 y1, more_fuel n x2 y2)
  more_fuel_value (suc n) (app f xs) (app g ys) h = more_fuel_app n f xs g ys (omega arith)
  more_fuel_value (suc n) (abs m gs x b) (abs k hs y d) h =
      ap₂ if_equivalent refl
        (ap₂ if_equivalent refl (more_fuel_signature n 1 gs x (some b) hs y (some d) (omega arith)))
  more_fuel_value (suc n) (pi m gs x) (pi k hs y) h =
      ap₂ if_equivalent refl
        (ap₂ if_equivalent refl (more_fuel_signature n 1 gs x none hs y none (omega arith)))
  more_fuel_value (suc n) (sigma gs) (sigma hs) h =
      ap₂ if_equivalent refl (more_fuel_args n 1 gs hs (omega arith))
  more_fuel_value (suc n) (addressof x) (addressof y) h = more_fuel n x y (omega arith)
  more_fuel_value (suc n) (deref x) (deref y) h = more_fuel n x y (omega arith)
  more_fuel_value (suc n) (scopeof x _) (scopeof y _) h = more_fuel n x y (omega arith)
  more_fuel_value (suc n) (init_list xs) (init_list ys) h =
      ap₂ if_equivalent refl (more_fuel_exprs n xs ys (omega arith))
  more_fuel_value (suc n) (member x f) (member y g) h =
      ap₂ if_equivalent (more_fuel n x y (omega arith)) refl
  more_fuel_value (suc n) (subscript x i) (subscript y j) h =
      ground (arith, more_fuel n x y, more_fuel n i j)
  more_fuel_value (suc n) (because x _) (because y _) h = more_fuel n x y (omega arith)
  more_fuel_value (suc n) _ _ h = refl

  more_fuel_app :
      (n : ℕ) (f : Expr) (xs : Exprs) (g : Expr) (ys : Exprs)
      → weight f + weight_exprs xs + (weight g + weight_exprs ys) ≤ n
      → alpha_app (suc n) f xs g ys ≡ alpha_app n f xs g ys
  more_fuel_app zero f xs g ys h = absurd (omega (arith, weight_pos f))
  more_fuel_app (suc n) f xs g ys h = ap₂ if_equivalent refl (
      ap₂ if_equivalent (more_fuel n f g (omega (arith, weight_exprs_pos xs, weight_exprs_pos ys)))
        (more_fuel_exprs n xs ys (omega (arith, weight_pos f, weight_pos g))))

  more_fuel_exprs :
      (n : ℕ) (xs ys : Exprs)
      → weight_exprs xs + weight_exprs ys ≤ n
      → alpha_exprs (suc n) xs ys ≡ alpha_exprs n xs ys
  more_fuel_exprs zero xs ys h = absurd (omega (arith, weight_exprs_pos xs))
  more_fuel_exprs (suc n) (more x xs) (more y ys) h =
      ap₂ if_equivalent (more_fuel n x y (omega arith)) (more_fuel_exprs n xs ys (omega arith))
  more_fuel_exprs (suc n) no_exprs _ h = refl
  more_fuel_exprs (suc n) (more x xs) no_exprs h = refl

  more_fuel_args :
      (n i : ℕ) (gs hs : Args)
      → weight_args gs + weight_args hs ≤ n
      → alpha_args (suc n) i gs hs ≡ alpha_args n i gs hs
  more_fuel_args zero i gs hs h = absurd (omega (arith, weight_args_pos gs))
  more_fuel_args (suc n) i (arg q t x gs) (arg r u y hs) h =
      let k = match_arg_names x gs y hs in
      ap₂ (λ v w. if_equivalent (explain (argument i) v) (if_equivalent k.0 w))
        (more_fuel n t u (omega arith))
        (more_fuel_args n (suc i) k.1 k.2 (omega (arith, weight-match_arg_names x gs y hs)))
  more_fuel_args (suc n) i no_args _ h = refl
  more_fuel_args (suc n) i (arg q t x gs) no_args h = refl

  more_fuel_signature :
      (n i : ℕ) (gs : Args) (a : Expr) (b : Option Body) (hs : Args) (c : Expr) (d : Option Body)
      → 1
          + weight_args gs
          + weight a
          + weight_optional b
          + (1 + weight_args hs + weight c + weight_optional d)
        ≤ n
      → alpha_signature (suc n) i gs a b hs c d ≡ alpha_signature n i gs a b hs c d
  more_fuel_signature zero i gs a b hs c d h = absurd (omega (arith, weight_args_pos gs))
  more_fuel_signature (suc n) i (arg q t x gs) a b (arg r u y hs) c d h =
      let k =
        match_names x (record { args = gs; ret_type = a; body = b }) y
          (record { args = hs; ret_type = c; body = d }) in
      ap₂ (λ v w. if_equivalent (explain (argument i) v) (if_equivalent k.0 w))
        (more_fuel n t u (omega arith))
        (more_fuel_signature n (suc i) k.1.args k.1.ret_type k.1.body k.2.args k.2.ret_type k.2.body
          (omega (
            arith,
            weight-match_names x (record { args = gs; ret_type = a; body = b }) y
                (record { args = hs; ret_type = c; body = d }),
          )))
  more_fuel_signature (suc n) i no_args a b _ c d h =
      ap₂ (λ v w. if_equivalent (explain return_type v) w) (more_fuel n a c (omega arith))
        (more_fuel_optional n b d (omega arith))
  more_fuel_signature (suc n) i (arg q t x gs) a b no_args c d h =
      ap₂ (λ v w. if_equivalent (explain return_type v) w) (more_fuel n a c (omega arith))
        (more_fuel_optional n b d (omega arith))

  more_fuel_optional :
      (n : ℕ) (b d : Option Body)
      → weight_optional b + weight_optional d ≤ n
      → alpha_optional (suc n) b d ≡ alpha_optional n b d
  more_fuel_optional zero none d h = absurd (omega arith)
  more_fuel_optional zero (some b) d h = absurd (omega arith)
  more_fuel_optional (suc n) (some b) (some d) h = more_fuel_body n b d (omega arith)
  more_fuel_optional (suc n) none _ h = refl
  more_fuel_optional (suc n) (some b) none h = refl

  more_fuel_body :
      (n : ℕ) (b d : Body)
      → weight_body b + weight_body d ≤ n
      → alpha_body (suc n) b d ≡ alpha_body n b d
  more_fuel_body zero b d h = absurd (omega (arith, weight_body_pos b))
  more_fuel_body (suc n) b d h = ap₂ if_equivalent refl (more_fuel_stmts n b d (omega arith))

  more_fuel_stmts :
      (n : ℕ) (b d : Body)
      → weight_body b + weight_body d ≤ suc n
      → alpha_stmts (suc n) b d ≡ alpha_stmts n b d
  more_fuel_stmts zero b d h = absurd (omega (arith, weight_body_pos b, weight_body_pos d))
  more_fuel_stmts (suc n) (stmt x b) (stmt y d) h =
      ap₂ if_equivalent (more_fuel_stmt n x y (omega (arith, weight_body_pos b)))
        (more_fuel_stmts n b d (omega (arith, weight_stmt_pos x)))
  more_fuel_stmts (suc n) done _ h = refl
  more_fuel_stmts (suc n) (stmt x b) done h = refl

  more_fuel_stmt :
      (n : ℕ) (x y : Stmt)
      → weight_stmt x + weight_stmt y ≤ n
      → alpha_stmt (suc n) x y ≡ alpha_stmt n x y
  more_fuel_stmt zero x y h = absurd (omega (arith, weight_stmt_pos x))
  more_fuel_stmt (suc n) (call f xs) (call g ys) h = more_fuel_app n f xs g ys (omega arith)
  more_fuel_stmt (suc n) (if_then x t) (if_then y u) h =
      ground (arith, more_fuel n x y, more_fuel_body n t u)
  more_fuel_stmt (suc n) (if_then x t) (if_else y u g) h =
      ground (arith, more_fuel n x y, more_fuel_body n t u)
  more_fuel_stmt (suc n) (if_else x t f) (if_then y u) h =
      ground (arith, more_fuel n x y, more_fuel_body n t u)
  more_fuel_stmt (suc n) (if_else x t f) (if_else y u g) h =
      ground (arith, more_fuel n x y, more_fuel_body n t u, more_fuel_body n f g)
  more_fuel_stmt (suc n) (return_value x) (return_value y) h = more_fuel n x y (omega arith)
  more_fuel_stmt (suc n) _ _ h = refl

pub any_fuel :
    (k : ℕ) (x y : Expr) → alpha (k + (weight x + weight y)) x y ≡ is_alpha_equivalent x y
unfolding is_alpha_equivalent
any_fuel zero x y = rw zero-add
any_fuel (suc k) x y =
    rw (add.suc) (more_fuel (k + (weight x + weight y)) x y (omega arith) ∙ any_fuel k x y)

-- Any fuel that is enough gives the verdict of `is_alpha_equivalent`.
pub at_fuel : (n : ℕ) (x y : Expr) → weight x + weight y ≤ n → alpha n x y ≡ is_alpha_equivalent x y
at_fuel n x y h =
    let w = weight x + weight y in
    let e : n ≡ n - w + w = omega arith in ap (λ k. alpha k x y) e ∙ any_fuel (n - w) x y
