-- ===== src/Ast/OccursIn.antt =====
-- dep0/lib/01_ast/include/dep0/ast/occurs_in_impl.hpp: does a variable occur in an expression?
pub mod Free
use depc.Prelude.{Bool, true, false, ◌||◌, Option, none, some, if◌then◌else◌}
use depc.Ast.{
  Var, var_eq, is_var, Expr, expr, Value, atom, boolean_constant, numeric_constant, string_literal,
  boolean_not, boolean_expr, relation_expr, arith_expr, var, global, app, abs, pi, sigma, addressof,
  deref, scopeof, init_list, member, subscript, because, Exprs, no_exprs, more, Args, no_args, arg,
  Body, done, stmt, Stmt, call, if_then, if_else, return_void, return_value, impossible,
  impossible_because, Signature,
}

pub data OccurrenceStyle : Type 0 where
  free anywhere : OccurrenceStyle

abbrev pub is_anywhere : OccurrenceStyle → Bool
is_anywhere free = false
is_anywhere anywhere = true

unfoldable mutual
  pub occurs_in : Var → OccurrenceStyle → Expr → Bool
  occurs_in v s (expr _ x) = occurs_in_value v s x

  pub occurs_in_value : Var → OccurrenceStyle → Value → Bool
  occurs_in_value v s (atom _) = false
  occurs_in_value v s (boolean_constant _) = false
  occurs_in_value v s (numeric_constant _) = false
  occurs_in_value v s (string_literal _) = false
  occurs_in_value v s (boolean_not x) = occurs_in v s x
  occurs_in_value v s (boolean_expr _ x y) = occurs_in v s x || occurs_in v s y
  occurs_in_value v s (relation_expr _ x y) = occurs_in v s x || occurs_in v s y
  occurs_in_value v s (arith_expr _ x y) = occurs_in v s x || occurs_in v s y
  occurs_in_value v s (var x) = var_eq x v
  occurs_in_value v s (global _ _) = false
  occurs_in_value v s (app f xs) = occurs_in_exprs v s xs || occurs_in v s f
  occurs_in_value v s (abs _ gs ret b) =
      occurs_in_args v s gs (occurs_in v s ret || occurs_in_body v s b)
  occurs_in_value v s (pi _ gs ret) = occurs_in_args v s gs (occurs_in v s ret)
  occurs_in_value v s (sigma gs) = occurs_in_args v s gs false
  occurs_in_value v s (addressof x) = occurs_in v s x
  occurs_in_value v s (deref x) = occurs_in v s x
  occurs_in_value v s (scopeof x _) = occurs_in v s x
  occurs_in_value v s (init_list xs) = occurs_in_exprs v s xs
  occurs_in_value v s (member x _) = occurs_in v s x
  occurs_in_value v s (subscript x i) = occurs_in v s x || occurs_in v s i
  occurs_in_value v s (because x r) = occurs_in v s x || occurs_in v s r

  -- `std::ranges::any_of`
  pub occurs_in_exprs : Var → OccurrenceStyle → Exprs → Bool
  occurs_in_exprs v s no_exprs = false
  occurs_in_exprs v s (more x xs) = occurs_in v s x || occurs_in_exprs v s xs

  -- The loop over the arguments; `rest` is the answer for what follows the loop.
  pub occurs_in_args : Var → OccurrenceStyle → Args → Bool → Bool
  occurs_in_args v s no_args rest = rest
  occurs_in_args v s (arg _ t x gs) rest =
      occurs_in v s t || (if is_var x v then is_anywhere s else occurs_in_args v s gs rest)

  pub occurs_in_body : Var → OccurrenceStyle → Body → Bool
  occurs_in_body v s done = false
  occurs_in_body v s (stmt x b) = occurs_in_stmt v s x || occurs_in_body v s b

  pub occurs_in_stmt : Var → OccurrenceStyle → Stmt → Bool
  occurs_in_stmt v s (call f xs) = occurs_in_exprs v s xs || occurs_in v s f
  occurs_in_stmt v s (if_then c t) = occurs_in v s c || occurs_in_body v s t
  occurs_in_stmt v s (if_else c t f) =
      occurs_in v s c || (occurs_in_body v s t || occurs_in_body v s f)
  occurs_in_stmt v s return_void = false
  occurs_in_stmt v s (return_value x) = occurs_in v s x
  occurs_in_stmt v s impossible = false
  occurs_in_stmt v s (impossible_because x) = occurs_in v s x

-- `body and occurs_in(var, *body)`
unfoldable pub occurs_in_optional : Var → OccurrenceStyle → Option Body → Bool
unfolding occurs_in
occurs_in_optional v s none = false
occurs_in_optional v s (some b) = occurs_in_body v s b

-- The overload on arguments, return type and body.
unfoldable pub occurs_in_signature : Var → OccurrenceStyle → Signature → Bool
unfolding occurs_in occurs_in_optional
occurs_in_signature v s g =
    occurs_in_args v s g.args (occurs_in v s g.ret_type || occurs_in_optional v s g.body)
