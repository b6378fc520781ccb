-- ===== src/Substitute.antt =====
-- dep0/lib/03_typecheck/src/substitute.cpp: substitution of an expression for a variable, which renames
-- binding variables. Renaming a binding variable changes what the loop over the arguments goes on with, so the
-- functions run on fuel: `substitute_expr` and `substitute_in` start with the weight of the tree.
pub mod Avoid
pub mod Capture
pub mod CaptureSigma
pub mod Captures
pub mod FreeVariables
pub mod Fuel
pub mod Laws
pub mod Removed
use depc.Prelude.{ℕ, zero, suc, Option, none, some, if◌then◌else◌}
use depc.Qty.{Qty}
use depc.Ast.{
  Var, var_eq, is_var, Expr, expr, Sort, type, kind, IsMutable, Value, atom, boolean_constant,
  numeric_constant, string_literal, boolean_not, boolean_expr, relation_expr, arith_expr, var,
  global, app, abs, pi, sigma, addressof, deref, scopeof, init_list, member, subscript, because,
  Exprs, no_exprs, more, Args, no_args, arg, Body, done, stmt, Stmt, call, if_then, if_else,
  return_void, return_value, impossible, impossible_because, Signature,
}
use depc.Ast.OccursIn.{anywhere, occurs_in}
use depc.Ast.Rename.{rename, rename_args}
use depc.Ast.Weight.{weight, weight_signature}

-- Rename a binding variable in what follows it, if it occurs in the expression to put in.
unfoldable pub avoid_capture : Expr → Option Var → Signature → Option Var × Signature
avoid_capture y none g = (none, g)
avoid_capture y (some x) g =
    if occurs_in x anywhere y
    then (let (new_var, renamed) = rename x g in (some new_var, renamed))
    else (some x, g)

-- The same for Sigma-types.
unfoldable pub avoid_capture_args : Expr → Option Var → Args → Option Var × Args
avoid_capture_args y none gs = (none, gs)
avoid_capture_args y (some x) gs =
    if occurs_in x anywhere y
    then (let (new_var, renamed) = rename_args x gs in (some new_var, renamed))
    else (some x, gs)

abbrev pub add_arg : Qty → Expr → Option Var → Signature → Signature
add_arg q t x g = record g { args = arg q t x g.args }

-- An abstraction if there is a body, else a Pi-type.
unfoldable pub function : IsMutable → Signature → Value
function m g = elim g.body [ none ↦ pi m g.args g.ret_type | some b ↦ abs m g.args g.ret_type b ]

unfoldable mutual
  pub substitute : ℕ → Var → Expr → Expr → Expr
  substitute zero v y x = x
  substitute (suc n) v y (expr s x) = substitute_value n v y (substitute_sort n v y s) x

  pub substitute_sort : ℕ → Var → Expr → Sort → Sort
  substitute_sort zero v y s = s
  substitute_sort (suc n) v y (type t) = type (substitute n v y t)
  substitute_sort (suc n) v y kind = kind

  -- `s` is the sort of the expression, where substitution has been done already.
  pub substitute_value : ℕ → Var → Expr → Sort → Value → Expr
  substitute_value zero v y s x = expr s x
  substitute_value (suc n) v y s (atom x) = expr s (atom x)
  substitute_value (suc n) v y s (boolean_constant x) = expr s (boolean_constant x)
  substitute_value (suc n) v y s (numeric_constant x) = expr s (numeric_constant x)
  substitute_value (suc n) v y s (string_literal x) = expr s (string_literal x)
  substitute_value (suc n) v y s (boolean_not x) = expr s (boolean_not (substitute n v y x))
  substitute_value (suc n) v y s (boolean_expr o l r) =
      expr s (boolean_expr o (substitute n v y l) (substitute n v y r))
  substitute_value (suc n) v y s (relation_expr o l r) =
      expr s (relation_expr o (substitute n v y l) (substitute n v y r))
  substitute_value (suc n) v y s (arith_expr o l r) =
      expr s (arith_expr o (substitute n v y l) (substitute n v y r))
  substitute_value (suc n) v y s (var x) = if var_eq x v then y else expr s (var x)
  substitute_value (suc n) v y s (global m x) = expr s (global m x)
  substitute_value (suc n) v y s (app f xs) =
      expr s (app (substitute n v y f) (substitute_exprs n v y xs))
  substitute_value (suc n) v y s (abs m gs ret b) =
      expr s (function m (substitute_signature n v y gs ret (some b)))
  substitute_value (suc n) v y s (pi m gs ret) =
      expr s (function m (substitute_signature n v y gs ret none))
  substitute_value (suc n) v y s (sigma gs) = expr s (sigma (substitute_args n v y gs))
  substitute_value (suc n) v y s (addressof x) = expr s (addressof (substitute n v y x))
  substitute_value (suc n) v y s (deref x) = expr s (deref (substitute n v y x))
  substitute_value (suc n) v y s (scopeof x i) = expr s (scopeof (substitute n v y x) i)
  substitute_value (suc n) v y s (init_list xs) = expr s (init_list (substitute_exprs n v y xs))
  substitute_value (suc n) v y s (member x f) = expr s (member (substitute n v y x) f)
  substitute_value (suc n) v y s (subscript x i) =
      expr s (subscript (substitute n v y x) (substitute n v y i))
  substitute_value (suc n) v y s (because x r) =
      expr s (because (substitute n v y x) (substitute n v y r))

  pub substitute_exprs : ℕ → Var → Expr → Exprs → Exprs
  substitute_exprs zero v y xs = xs
  substitute_exprs (suc n) v y no_exprs = no_exprs
  substitute_exprs (suc n) v y (more x xs) = more (substitute n v y x) (substitute_exprs n v y xs)

  -- The overload for Sigma-types: substitution stops at an argument that is called `v`.
  pub substitute_args : ℕ → Var → Expr → Args → Args
  substitute_args zero v y gs = gs
  substitute_args (suc n) v y no_args = no_args
  substitute_args (suc n) v y (arg q t x gs) =
      let t' = substitute n v y t in
      let fresh = avoid_capture_args y x gs in
      let rest = arg q t' fresh.0 (substitute_args n v y fresh.1) in
      if is_var x v then arg q t' x gs else rest

  -- The overload for Pi-types and abstractions.
  pub substitute_signature : ℕ → Var → Expr → Args → Expr → Option Body → Signature
  substitute_signature zero v y gs ret b = record { args = gs; ret_type = ret; body = b }
  substitute_signature (suc n) v y no_args ret b = record {
    args = no_args;
    ret_type = substitute n v y ret;
    body = substitute_optional n v y b;
  }
  substitute_signature (suc n) v y (arg q t x gs) ret b =
      let t' = substitute n v y t in
      let old : Signature = record { args = gs; ret_type = ret; body = b } in
      let fresh = avoid_capture y x old in
      let g = fresh.1 in
      let rest = add_arg q t' fresh.0 (substitute_signature n v y g.args g.ret_type g.body) in
      if is_var x v then add_arg q t' x old else rest

  pub substitute_optional : ℕ → Var → Expr → Option Body → Option Body
  substitute_optional zero v y b = b
  substitute_optional (suc n) v y none = none
  substitute_optional (suc n) v y (some b) = some (substitute_body n v y b)

  pub substitute_body : ℕ → Var → Expr → Body → Body
  substitute_body zero v y b = b
  substitute_body (suc n) v y done = done
  substitute_body (suc n) v y (stmt x b) = stmt (substitute_stmt n v y x) (substitute_body n v y b)

  pub substitute_stmt : ℕ → Var → Expr → Stmt → Stmt
  substitute_stmt zero v y x = x
  substitute_stmt (suc n) v y (call f xs) = call (substitute n v y f) (substitute_exprs n v y xs)
  substitute_stmt (suc n) v y (if_then c t) = if_then (substitute n v y c) (substitute_body n v y t)
  substitute_stmt (suc n) v y (if_else c t f) =
      if_else (substitute n v y c) (substitute_body n v y t) (substitute_body n v y f)
  substitute_stmt (suc n) v y return_void = return_void
  substitute_stmt (suc n) v y (return_value x) = return_value (substitute n v y x)
  substitute_stmt (suc n) v y impossible = impossible
  substitute_stmt (suc n) v y (impossible_because x) = impossible_because (substitute n v y x)

-- `impl::substitute(var, expr, x)`
unfoldable pub substitute_expr : Var → Expr → Expr → Expr
unfolding substitute
substitute_expr v y x = substitute (weight x) v y x

-- `substitute(var, y, begin, end, ret_type, body)`
unfoldable pub substitute_in : Var → Expr → Signature → Signature
unfolding substitute
substitute_in v y g = substitute_signature (weight_signature g) v y g.args g.ret_type g.body
