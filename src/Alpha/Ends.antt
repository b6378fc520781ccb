-- ===== src/Alpha/Ends.antt =====
-- The model of alpha_equivalence_impl.hpp with enough fuel.
use depc.Prelude.{Bool, true, false, ℕ, zero, suc, ◌+◌, ◌≤◌, ◌≡◌, refl, Option, none, some, arith}
use depc.Ast.{
  Var, Expr, expr, Value, boolean_not, boolean_expr, relation_expr, arith_expr, app, abs, pi, sigma,
  addressof, deref, scopeof, init_list, member, subscript, because, Exprs, atom, boolean_constant,
  numeric_constant, string_literal, var, global, no_exprs, more, Args, no_args, arg, Body, done,
  stmt, Stmt, call, if_then, if_else, return_value, return_void, impossible, impossible_because,
  Signature,
}
use depc.Ast.Weight.{
  weight, weight_value, weight_exprs, weight_args, weight_body, weight_stmt, weight_optional,
  weight_signature, weight_pos, weight_value_pos, weight_exprs_pos, weight_args_pos,
  weight_body_pos, weight_stmt_pos,
}
use depc.Alpha.Fuel.{weight-match_names, weight-match_arg_names, any_fuel}
use depc.Alpha.{
  Failure, Verdict, equivalent, differ, out_of_fuel, argument, return_type, require, if_equivalent,
  explain, match_names, match_arg_names, alpha, alpha_value, alpha_app, alpha_exprs, alpha_args,
  alpha_signature, alpha_optional, alpha_body, alpha_stmts, alpha_stmt, is_alpha_equivalent,
}

-- Is lack of fuel what an error reports, or what its reason reports?
unfoldable is_out_of_fuel : Failure → Bool
is_out_of_fuel out_of_fuel = true
is_out_of_fuel (argument i e) = is_out_of_fuel e
is_out_of_fuel (return_type e) = is_out_of_fuel e
is_out_of_fuel _ = false

unfoldable pub ran_out : Verdict → Bool
unfolding is_out_of_fuel
ran_out equivalent = false
ran_out (differ e) = is_out_of_fuel e

if_ends :
    (v w : Verdict) → ran_out v ≡ false → ran_out w ≡ false → ran_out (if_equivalent v w) ≡ false
unfolding if_equivalent
if_ends equivalent w h k = k
if_ends (differ e) w h k = h

require_ends : (b : Bool) (e : Failure) → ran_out (differ e) ≡ false → ran_out (require b e) ≡ false
unfolding require ran_out
require_ends true e h = refl
require_ends false e h = h

argument_ends : (i : ℕ) (v : Verdict) → ran_out v ≡ false → ran_out (explain (argument i) v) ≡ false
unfolding explain ran_out is_out_of_fuel
argument_ends i equivalent h = refl
argument_ends i (differ e) h = h

return_type_ends : (v : Verdict) → ran_out v ≡ false → ran_out (explain return_type v) ≡ false
unfolding explain ran_out is_out_of_fuel
return_type_ends equivalent h = refl
return_type_ends (differ e) h = h

match_names_ends :
    (x : Option Var) (g : Signature) (y : Option Var) (h : Signature)
    → ran_out (match_names x g y h).0 ≡ false
unfolding match_names ran_out is_out_of_fuel
match_names_ends none g none h = refl
match_names_ends (some x) g (some y) h = refl
match_names_ends (some x) g none h = ground arith
match_names_ends none g (some y) h = ground arith

match_arg_names_ends :
    (x : Option Var) (g : Args) (y : Option Var) (h : Args)
    → ran_out (match_arg_names x g y h).0 ≡ false
unfolding match_arg_names ran_out is_out_of_fuel
match_arg_names_ends none g none h = refl
match_arg_names_ends (some x) g (some y) h = refl
match_arg_names_ends (some x) g none h = ground arith
match_arg_names_ends none g (some y) h = ground arith

mutual
  unfolding alpha weight weight_optional weight_signature ran_out is_out_of_fuel

  ends : (n : ℕ) (x y : Expr) → weight x + weight y ≤ n → ran_out (alpha n x y) ≡ false
  ends zero x y h = absurd (omega (arith, weight_pos x))
  ends (suc n) (expr s (because x r)) (expr t (because y q)) h = ends n x y (omega arith)
  ends (suc n) (expr s (because x r)) (expr t y) h = ends n x (expr t y) (omega arith)
  ends (suc n) (expr s x) (expr t (because y q)) h = ends n (expr s x) y (omega arith)
  ends (suc n) (expr s x) (expr t y) h = ends_value n x y (omega arith)

  ends_value :
      (n : ℕ) (x y : Value)
      → weight_value x + weight_value y ≤ n
      → ran_out (alpha_value n x y) ≡ false
  ends_value zero x y h = absurd (omega (arith, weight_value_pos x))
  ends_value (suc n) (boolean_not x) (boolean_not y) h = ends n x y (omega arith)
  ends_value (suc n) (boolean_expr o x1 x2) (boolean_expr p y1 y2) h =
      if_ends _ _ (require_ends _ _ refl)
        (if_ends _ _ (ends n x1 y1 (omega arith)) (ends n x2 y2 (omega arith)))
  ends_value (suc n) (relation_expr o x1 x2) (relation_expr p y1 y2) h =
      if_ends _ _ (require_ends _ _ refl)
        (if_ends _ _ (ends n x1 y1 (omega arith)) (ends n x2 y2 (omega arith)))
  ends_value (suc n) (arith_expr o x1 x2) (arith_expr p y1 y2) h =
      if_ends _ _ (require_ends _ _ refl)
        (if_ends _ _ (ends n x1 y1 (omega arith)) (ends n x2 y2 (omega arith)))
  ends_value (suc n) (app f xs) (app g ys) h = ends_app n f xs g ys (omega arith)
  ends_value (suc n) (abs m gs x b) (abs k hs y d) h = if_ends _ _ (require_ends _ _ refl) (
      if_ends _ _ (require_ends _ _ refl)
        (ends_signature n 1 gs x (some b) hs y (some d) (omega arith)))
  ends_value (suc n) (pi m gs x) (pi k hs y) h =
      if_ends _ _ (require_ends _ _ refl)
        (if_ends _ _ (require_ends _ _ refl) (ends_signature n 1 gs x none hs y none (omega arith)))
  ends_value (suc n) (sigma gs) (sigma hs) h =
      if_ends _ _ (require_ends _ _ refl) (ends_args n 1 gs hs (omega arith))
  ends_value (suc n) (addressof x) (addressof y) h = ends n x y (omega arith)
  ends_value (suc n) (deref x) (deref y) h = ends n x y (omega arith)
  ends_value (suc n) (scopeof x _) (scopeof y _) h = ends n x y (omega arith)
  ends_value (suc n) (init_list xs) (init_list ys) h =
      if_ends _ _ (require_ends _ _ refl) (ends_exprs n xs ys (omega arith))
  ends_value (suc n) (member x f) (member y g) h =
      if_ends _ _ (ends n x y (omega arith)) (require_ends _ _ refl)
  ends_value (suc n) (subscript x i) (subscript y j) h =
      if_ends _ _ (ends n x y (omega arith)) (ends n i j (omega arith))
  ends_value (suc n) (because x _) (because y _) h = ends n x y (omega arith)
  ends_value (suc n) (atom a) (atom b) h = require_ends _ _ refl
  ends_value (suc n) (boolean_constant a) (boolean_constant b) h = require_ends _ _ refl
  ends_value (suc n) (numeric_constant a) (numeric_constant b) h = require_ends _ _ refl
  ends_value (suc n) (string_literal a) (string_literal b) h = require_ends _ _ refl
  ends_value (suc n) (var a) (var b) h = require_ends _ _ refl
  ends_value (suc n) (global m a) (global k b) h =
      if_ends _ _ (require_ends _ _ refl) (require_ends _ _ refl)
  ends_value (suc n) _ _ h = refl

  ends_app :
      (n : ℕ) (f : Expr) (xs : Exprs) (g : Expr) (ys : Exprs)
      → weight f + weight_exprs xs + (weight g + weight_exprs ys) ≤ n
      → ran_out (alpha_app n f xs g ys) ≡ false
  ends_app zero f xs g ys h = absurd (omega (arith, weight_pos f))
  ends_app (suc n) f xs g ys h = if_ends _ _ (require_ends _ _ refl) (
      if_ends _ _ (ends n f g (omega (arith, weight_exprs_pos xs, weight_exprs_pos ys)))
        (ends_exprs n xs ys (omega (arith, weight_pos f, weight_pos g))))

  ends_exprs :
      (n : ℕ) (xs ys : Exprs)
      → weight_exprs xs + weight_exprs ys ≤ n
      → ran_out (alpha_exprs n xs ys) ≡ false
  ends_exprs zero xs ys h = absurd (omega (arith, weight_exprs_pos xs))
  ends_exprs (suc n) (more x xs) (more y ys) h =
      if_ends _ _ (ends n x y (omega arith)) (ends_exprs n xs ys (omega arith))
  ends_exprs (suc n) no_exprs _ h = refl
  ends_exprs (suc n) (more x xs) no_exprs h = refl

  ends_args :
      (n i : ℕ) (gs hs : Args)
      → weight_args gs + weight_args hs ≤ n
      → ran_out (alpha_args n i gs hs) ≡ false
  ends_args zero i gs hs h = absurd (omega (arith, weight_args_pos gs))
  ends_args (suc n) i (arg q t x gs) (arg r u y hs) h =
      let k = match_arg_names x gs y hs in
      if_ends _ _ (argument_ends i _ (ends n t u (omega arith))) (
        if_ends _ _ (match_arg_names_ends x gs y hs)
          (ends_args n (suc i) k.1 k.2 (omega (arith, weight-match_arg_names x gs y hs))))
  ends_args (suc n) i no_args _ h = refl
  ends_args (suc n) i (arg q t x gs) no_args h = refl

  ends_signature :
      (n i : ℕ) (gs : Args) (a : Expr) (b : Option Body) (hs : Args) (c : Expr) (d : Option Body)
      → 1
          + weight_args gs
          + weight a
          + weight_optional b
          + (1 + weight_args hs + weight c + weight_optional d)
        ≤ n
      → ran_out (alpha_signature n i gs a b hs c d) ≡ false
  ends_signature zero i gs a b hs c d h = absurd (omega (arith, weight_args_pos gs))
  ends_signature (suc n) i (arg q t x gs) a b (arg r u y hs) c d h =
      let k =
        match_names x (record { args = gs; ret_type = a; body = b }) y
          (record { args = hs; ret_type = c; body = d }) in
      if_ends _ _ (argument_ends i _ (ends n t u (omega arith))) (
        if_ends _ _ (match_names_ends x _ y _) (
          ends_signature n (suc i) k.1.args k.1.ret_type k.1.body k.2.args k.2.ret_type k.2.body (
            omega (
              arith,
              weight-match_names x (record { args = gs; ret_type = a; body = b }) y
                  (record { args = hs; ret_type = c; body = d }),
            ))))
  ends_signature (suc n) i no_args a b _ c d h =
      if_ends _ _ (return_type_ends _ (ends n a c (omega arith)))
        (ends_optional n b d (omega arith))
  ends_signature (suc n) i (arg q t x gs) a b no_args c d h =
      if_ends _ _ (return_type_ends _ (ends n a c (omega arith)))
        (ends_optional n b d (omega arith))

  ends_optional :
      (n : ℕ) (b d : Option Body)
      → weight_optional b + weight_optional d ≤ n
      → ran_out (alpha_optional n b d) ≡ false
  ends_optional zero none d h = absurd (omega arith)
  ends_optional zero (some b) d h = absurd (omega arith)
  ends_optional (suc n) (some b) (some d) h = ends_body n b d (omega arith)
  ends_optional (suc n) none _ h = refl
  ends_optional (suc n) (some b) none h = refl

  ends_body :
      (n : ℕ) (b d : Body) → weight_body b + weight_body d ≤ n → ran_out (alpha_body n b d) ≡ false
  ends_body zero b d h = absurd (omega (arith, weight_body_pos b))
  ends_body (suc n) b d h = if_ends _ _ (require_ends _ _ refl) (ends_stmts n b d (omega arith))

  ends_stmts :
      (n : ℕ) (b d : Body)
      → weight_body b + weight_body d ≤ suc n
      → ran_out (alpha_stmts n b d) ≡ false
  ends_stmts zero b d h = absurd (omega (arith, weight_body_pos b, weight_body_pos d))
  ends_stmts (suc n) (stmt x b) (stmt y d) h =
      if_ends _ _ (ends_stmt n x y (omega (arith, weight_body_pos b)))
        (ends_stmts n b d (omega (arith, weight_stmt_pos x)))
  ends_stmts (suc n) done _ h = refl
  ends_stmts (suc n) (stmt x b) done h = refl

  ends_stmt :
      (n : ℕ) (x y : Stmt) → weight_stmt x + weight_stmt y ≤ n → ran_out (alpha_stmt n x y) ≡ false
  ends_stmt zero x y h = absurd (omega (arith, weight_stmt_pos x))
  ends_stmt (suc n) (call f xs) (call g ys) h = ends_app n f xs g ys (omega arith)
  ends_stmt (suc n) (if_then x t) (if_then y u) h =
      if_ends _ _ (ends n x y (omega arith)) (ends_body n t u (omega arith))
  ends_stmt (suc n) (if_then x t) (if_else y u g) h =
      if_ends _ _ (ends n x y (omega arith)) (if_ends _ _ (ends_body n t u (omega arith)) refl)
  ends_stmt (suc n) (if_else x t f) (if_then y u) h =
      if_ends _ _ (ends n x y (omega arith)) (if_ends _ _ (ends_body n t u (omega arith)) refl)
  ends_stmt (suc n) (if_else x t f) (if_else y u g) h =
      if_ends _ _ (ends n x y (omega arith))
        (if_ends _ _ (ends_body n t u (omega arith)) (ends_body n f g (omega arith)))
  ends_stmt (suc n) (return_value x) (return_value y) h = ends n x y (omega arith)
  ends_stmt (suc n) return_void return_void h = refl
  ends_stmt (suc n) return_void (return_value y) h = refl
  ends_stmt (suc n) (return_value x) return_void h = refl
  ends_stmt (suc n) impossible impossible h = refl
  ends_stmt (suc n) impossible (impossible_because y) h = refl
  ends_stmt (suc n) (impossible_because x) impossible h = refl
  ends_stmt (suc n) (impossible_because x) (impossible_because y) h = refl
  ends_stmt (suc n) _ _ h = refl

-- With the fuel it starts with, the comparison runs to its end: it never reports lack of fuel, as an
-- error or as the reason of one, and any more fuel gives the same verdict.
pub is_alpha_equivalent-enough_fuel :
    (x y : Expr) (k : ℕ)
    → (ran_out (is_alpha_equivalent x y) ≡ false)
      × (alpha (k + (weight x + weight y)) x y ≡ is_alpha_equivalent x y)
unfolding is_alpha_equivalent
is_alpha_equivalent-enough_fuel x y k =
    (ends (weight x + weight y) x y (omega arith), any_fuel k x y)
