-- ===== src/Alpha.antt =====
-- dep0/lib/01_ast/include/dep0/ast/alpha_equivalence_impl.hpp: are two expressions equal up to the names of
-- bound variables? The code renames the binding variables of copies of the two trees, so what it goes on
-- with is not a part of the tree and the functions run on fuel: `is_alpha_equivalent` starts with the weight
-- of both trees. The text of an error is printed from the trees and is left out; what it reports is `Failure`.
pub mod Because
pub mod Congruence
pub mod Ends
pub mod Fuel
pub mod Reflexive
pub mod Renaming
pub mod Verdicts
use text.Mathlib.Text.{◌==◌ as str_eq}
use depc.Prelude.{
  ℕ, zero, suc, ◌+◌, String, Bool, true, false, Option, none, some, ◌==◌, ltb, if◌then◌else◌,
}
use depc.Ast.{
  Var, var_eq, Expr, expr, IsMutable, Value, atom, boolean_constant, numeric_constant,
  string_literal, boolean_not, boolean_expr, relation_expr, arith_expr, var, global, app, abs, pi,
  sigma, addressof, deref, scopeof, init_list, member, subscript, because, Exprs, no_exprs, more,
  Args, no_args, arg, Body, done, stmt, Stmt, call, if_then, if_else, return_void, return_value,
  impossible, impossible_because, Signature,
}
use depc.Ast.Index.{
  atom_index, boolean_index, relation_index, arith_index, is_mutable_eq, bool_eq, int_eq,
  optional_eq,
}
use depc.Ast.OccursIn.{free, occurs_in_args, occurs_in_signature}
use depc.Ast.Rename.{rename, rename_args}
use depc.Ast.Replace.{replace_args, replace_signature}
use depc.Ast.Weight.{weight}

-- What an error reports: the place where the code makes it, with the errors that are its reasons.
pub data Failure : Type 0 where
  out_of_fuel : Failure
  not_alpha_equivalent not_beta_delta_equivalent : Failure
  list_sizes : ℕ → ℕ → Failure
  argument_counts : ℕ → ℕ → Failure
  fields : String → String → Failure
  mutability : IsMutable → Failure
  parameter_counts : ℕ → ℕ → Failure
  argument : ℕ → Failure → Failure
  occurs_somewhere : Var → Failure
  return_type : Failure → Failure
  statement_counts : ℕ → ℕ → Failure
  else_branch : Failure
  return_expression : Failure

-- `dep0::expected<std::true_type>`
pub data Verdict : Type 0 where
  equivalent : Verdict
  differ : Failure → Verdict

-- `if (eq) eq = ...`, and the early return of an error from a loop.
unfoldable pub if_equivalent : Verdict → Verdict → Verdict
if_equivalent equivalent v = v
if_equivalent (differ e) v = differ e

-- The error that wraps another as its reason.
unfoldable pub explain : (Failure → Failure) → Verdict → Verdict
explain f equivalent = equivalent
explain f (differ e) = differ (f e)

-- `if (x == y) return {}; else return ...`
unfoldable pub require : Bool → Failure → Verdict
require true e = equivalent
require false e = differ e

unfoldable pub exprs_size : Exprs → ℕ
exprs_size no_exprs = 0
exprs_size (more x xs) = suc (exprs_size xs)

unfoldable pub args_size : Args → ℕ
args_size no_args = 0
args_size (arg q t x gs) = suc (args_size gs)

unfoldable pub body_size : Body → ℕ
body_size done = 0
body_size (stmt x b) = suc (body_size b)

-- What two arguments that both have a name make of what follows them: both names are renamed, and if the new
-- names are not the same, the one with the lower index is replaced by the other.
unfoldable pub align : Var → Signature → Var → Signature → Signature × Signature
align x g y h =
    let r = rename x g in
    let s = rename y h in
    if var_eq x y
    then (g, h)
    else if var_eq r.0 s.0
    then (r.1, s.1)
    else if ltb s.0.idx r.0.idx
    then (r.1, replace_signature s.0 r.0 s.1)
    else (replace_signature r.0 s.0 r.1, s.1)

-- The same for Sigma-types.
unfoldable pub align_args : Var → Args → Var → Args → Args × Args
align_args x g y h =
    let r = rename_args x g in
    let s = rename_args y h in
    if var_eq x y
    then (g, h)
    else if var_eq r.0 s.0
    then (r.1, s.1)
    else if ltb s.0.idx r.0.idx
    then (r.1, replace_args s.0 r.0 s.1)
    else (replace_args r.0 s.0 r.1, s.1)

-- What follows two arguments, with the names matched.
unfoldable pub match_names :
    Option Var → Signature → Option Var → Signature → Verdict × Signature × Signature
match_names none g none h = (equivalent, g, h)
match_names (some x) g (some y) h = (let a = align x g y h in (equivalent, a.0, a.1))
match_names (some x) g none h =
    ((if occurs_in_signature x free g then differ (occurs_somewhere x) else equivalent), g, h)
match_names none g (some y) h =
    ((if occurs_in_signature y free h then differ (occurs_somewhere y) else equivalent), g, h)

unfoldable pub match_arg_names : Option Var → Args → Option Var → Args → Verdict × Args × Args
match_arg_names none g none h = (equivalent, g, h)
match_arg_names (some x) g (some y) h = (let a = align_args x g y h in (equivalent, a.0, a.1))
match_arg_names (some x) g none h =
    ((if occurs_in_args x free g false then differ (occurs_somewhere x) else equivalent), g, h)
match_arg_names none g (some y) h =
    ((if occurs_in_args y free h false then differ (occurs_somewhere y) else equivalent), g, h)

unfoldable mutual
  pub alpha : ℕ → Expr → Expr → Verdict
  alpha zero _ _ = differ out_of_fuel
  alpha (suc n) (expr s (because x r)) (expr t (because y q)) = alpha n x y
  alpha (suc n) (expr s (because x r)) (expr t y) = alpha n x (expr t y)
  alpha (suc n) (expr s x) (expr t (because y q)) = alpha n (expr s x) y
  alpha (suc n) (expr s x) (expr t y) = alpha_value n x y

  -- `alpha_equivalence_visitor` on two values.
  pub alpha_value : ℕ → Value → Value → Verdict
  alpha_value zero _ _ = differ out_of_fuel
  alpha_value (suc n) (atom a) (atom b) =
      require (atom_index a == atom_index b) not_alpha_equivalent
  alpha_value (suc n) (boolean_constant a) (boolean_constant b) =
      require (bool_eq a b) not_alpha_equivalent
  alpha_value (suc n) (numeric_constant a) (numeric_constant b) =
      require (int_eq a b) not_alpha_equivalent
  alpha_value (suc n) (string_literal a) (string_literal b) =
      require (str_eq a b) not_alpha_equivalent
  alpha_value (suc n) (boolean_not x) (boolean_not y) = alpha n x y
  alpha_value (suc n) (boolean_expr o x1 x2) (boolean_expr p y1 y2) =
      if_equivalent (require (boolean_index o == boolean_index p) not_alpha_equivalent)
        (if_equivalent (alpha n x1 y1) (alpha n x2 y2))
  alpha_value (suc n) (relation_expr o x1 x2) (relation_expr p y1 y2) =
      if_equivalent (require (relation_index o == relation_index p) not_alpha_equivalent)
        (if_equivalent (alpha n x1 y1) (alpha n x2 y2))
  alpha_value (suc n) (arith_expr o x1 x2) (arith_expr p y1 y2) =
      if_equivalent (require (arith_index o == arith_index p) not_alpha_equivalent)
        (if_equivalent (alpha n x1 y1) (alpha n x2 y2))
  alpha_value (suc n) (var x) (var y) = require (var_eq x y) not_alpha_equivalent
  alpha_value (suc n) (global m x) (global k y) =
      if_equivalent (require (optional_eq m k) not_alpha_equivalent)
        (require (str_eq x y) not_alpha_equivalent)
  alpha_value (suc n) (app f xs) (app g ys) = alpha_app n f xs g ys
  alpha_value (suc n) (abs m gs x b) (abs k hs y d) =
      if_equivalent (require (is_mutable_eq m k) (mutability m)) (
        if_equivalent
          (require (args_size gs == args_size hs) (parameter_counts (args_size gs) (args_size hs)))
          (alpha_signature n 1 gs x (some b) hs y (some d)))
  alpha_value (suc n) (pi m gs x) (pi k hs y) =
      if_equivalent (require (is_mutable_eq m k) (mutability m)) (
        if_equivalent
          (require (args_size gs == args_size hs) (parameter_counts (args_size gs) (args_size hs)))
          (alpha_signature n 1 gs x none hs y none))
  alpha_value (suc n) (sigma gs) (sigma hs) =
      if_equivalent
        (require (args_size gs == args_size hs) (parameter_counts (args_size gs) (args_size hs)))
        (alpha_args n 1 gs hs)
  alpha_value (suc n) (addressof x) (addressof y) = alpha n x y
  alpha_value (suc n) (deref x) (deref y) = alpha n x y
  alpha_value (suc n) (scopeof x _) (scopeof y _) = alpha n x y
  alpha_value (suc n) (init_list xs) (init_list ys) =
      if_equivalent
        (require (exprs_size xs == exprs_size ys) (list_sizes (exprs_size xs) (exprs_size ys)))
        (alpha_exprs n xs ys)
  alpha_value (suc n) (member x f) (member y g) =
      if_equivalent (alpha n x y) (require (str_eq f g) (fields f g))
  alpha_value (suc n) (subscript x i) (subscript y j) = if_equivalent (alpha n x y) (alpha n i j)
  alpha_value (suc n) (because x _) (because y _) = alpha n x y
  alpha_value (suc n) _ _ = differ not_alpha_equivalent

  -- The overload for applications.
  pub alpha_app : ℕ → Expr → Exprs → Expr → Exprs → Verdict
  alpha_app zero _ _ _ _ = differ out_of_fuel
  alpha_app (suc n) f xs g ys =
      if_equivalent
        (require (exprs_size xs == exprs_size ys) (argument_counts (exprs_size xs) (exprs_size ys)))
        (if_equivalent (alpha n f g) (alpha_exprs n xs ys))

  -- The loop over two vectors of one size.
  pub alpha_exprs : ℕ → Exprs → Exprs → Verdict
  alpha_exprs zero _ _ = differ out_of_fuel
  alpha_exprs (suc n) (more x xs) (more y ys) = if_equivalent (alpha n x y) (alpha_exprs n xs ys)
  alpha_exprs (suc n) _ _ = equivalent

  -- The loop over the arguments of two Sigma-types, from the `i`-th.
  pub alpha_args : ℕ → ℕ → Args → Args → Verdict
  alpha_args zero i _ _ = differ out_of_fuel
  alpha_args (suc n) i (arg q t x gs) (arg r u y hs) =
      let k = match_arg_names x gs y hs in
      if_equivalent (explain (argument i) (alpha n t u))
        (if_equivalent k.0 (alpha_args n (suc i) k.1 k.2))
  alpha_args (suc n) i _ _ = equivalent

  -- The loop over the arguments of two functions, from the `i`-th, and what follows the loop.
  pub alpha_signature : ℕ → ℕ → Args → Expr → Option Body → Args → Expr → Option Body → Verdict
  alpha_signature zero i _ _ _ _ _ _ = differ out_of_fuel
  alpha_signature (suc n) i (arg q t x gs) a b (arg r u y hs) c d =
      let g : Signature = record { args = gs; ret_type = a; body = b } in
      let h : Signature = record { args = hs; ret_type = c; body = d } in
      let k = match_names x g y h in
      let g' = k.1 in
      let h' = k.2 in
      if_equivalent (explain (argument i) (alpha n t u)) (
        if_equivalent k.0
          (alpha_signature n (suc i) g'.args g'.ret_type g'.body h'.args h'.ret_type h'.body))
  alpha_signature (suc n) i _ a b _ c d =
      if_equivalent (explain return_type (alpha n a c)) (alpha_optional n b d)

  -- `x_body and y_body ? ... : ...`
  pub alpha_optional : ℕ → Option Body → Option Body → Verdict
  alpha_optional zero _ _ = differ out_of_fuel
  alpha_optional (suc n) (some b) (some d) = alpha_body n b d
  alpha_optional (suc n) _ _ = equivalent

  pub alpha_body : ℕ → Body → Body → Verdict
  alpha_body zero _ _ = differ out_of_fuel
  alpha_body (suc n) b d =
      if_equivalent
        (require (body_size b == body_size d) (statement_counts (body_size b) (body_size d)))
        (alpha_stmts n b d)

  -- The loop over the statements of two bodies of one size.
  pub alpha_stmts : ℕ → Body → Body → Verdict
  alpha_stmts zero _ _ = differ out_of_fuel
  alpha_stmts (suc n) (stmt x b) (stmt y d) = if_equivalent (alpha_stmt n x y) (alpha_stmts n b d)
  alpha_stmts (suc n) _ _ = equivalent

  -- `alpha_equivalence_visitor` on two statements.
  pub alpha_stmt : ℕ → Stmt → Stmt → Verdict
  alpha_stmt zero _ _ = differ out_of_fuel
  alpha_stmt (suc n) (call f xs) (call g ys) = alpha_app n f xs g ys
  alpha_stmt (suc n) (if_then x t) (if_then y u) = if_equivalent (alpha n x y) (alpha_body n t u)
  alpha_stmt (suc n) (if_else x t f) (if_else y u g) =
      if_equivalent (alpha n x y) (if_equivalent (alpha_body n t u) (alpha_body n f g))
  alpha_stmt (suc n) (if_then x t) (if_else y u g) =
      if_equivalent (alpha n x y) (if_equivalent (alpha_body n t u) (differ else_branch))
  alpha_stmt (suc n) (if_else x t f) (if_then y u) =
      if_equivalent (alpha n x y) (if_equivalent (alpha_body n t u) (differ else_branch))
  alpha_stmt (suc n) return_void return_void = equivalent
  alpha_stmt (suc n) (return_value x) (return_value y) = alpha n x y
  alpha_stmt (suc n) return_void (return_value y) = differ return_expression
  alpha_stmt (suc n) (return_value x) return_void = differ return_expression
  alpha_stmt (suc n) impossible impossible = equivalent
  alpha_stmt (suc n) impossible (impossible_because _) = equivalent
  alpha_stmt (suc n) (impossible_because _) impossible = equivalent
  alpha_stmt (suc n) (impossible_because _) (impossible_because _) = equivalent
  alpha_stmt (suc n) _ _ = differ not_alpha_equivalent

-- `is_alpha_equivalent`
unfoldable pub is_alpha_equivalent : Expr → Expr → Verdict
unfolding alpha
is_alpha_equivalent x y = alpha (weight x + weight y) x y
