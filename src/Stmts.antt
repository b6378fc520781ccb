-- ===== src/Stmts.antt =====
-- Statements of dep0/lib/03_typecheck/src: is_terminator.cpp, returns_from_all_branches.cpp and
-- drop_unreachable_stmts.cpp.
pub mod Flag
pub mod Run
pub mod Unreachable
use depc.Prelude.{Bool, true, false, not, ◌&&◌, ◌||◌, Option, none, some, if◌then◌else◌}
use depc.Ast.{
  Expr, expr, boolean_constant, Body, done, stmt, Stmt, call, if_then, if_else, return_void,
  return_value, impossible, impossible_because,
}

unfoldable mutual
  pub is_terminator : Stmt → Bool
  is_terminator (call _ _) = false
  is_terminator (if_then _ _) = false
  is_terminator (if_else _ t f) = returns_from_all_branches t && returns_from_all_branches f
  is_terminator return_void = true
  is_terminator (return_value _) = true
  is_terminator impossible = true
  is_terminator (impossible_because _) = true

  -- `std::ranges::any_of`
  pub returns_from_all_branches : Body → Bool
  returns_from_all_branches done = false
  returns_from_all_branches (stmt x b) = is_terminator x || returns_from_all_branches b

-- `std::get_if<expr_t::boolean_constant_t>`
unfoldable pub constant : Expr → Option Bool
constant (expr _ (boolean_constant b)) = some b
constant _ = none

unfoldable pub is_empty : Body → Bool
is_empty done = true
is_empty (stmt _ _) = false

-- Steps 2 and 3 at an `if` without else, from its condition if that is a constant, its branch, and the
-- branch after step 3: a false condition clears the branch.
unfoldable pub drop_if_then : Option Bool → Expr → Body → Bool × Body → Bool × Stmt
unfolding is_empty
drop_if_then none c t kept = (kept.0, if_then c kept.1)
drop_if_then (some true) c t kept = (kept.0, if_then c kept.1)
drop_if_then (some false) c t kept = (not (is_empty t), if_then c done)

-- The same with an else-branch, which a true condition drops.
unfoldable pub drop_if_else : Option Bool → Expr → Body → Bool × Body → Bool × Body → Bool × Stmt
unfolding is_empty
drop_if_else none c t kept_t kept_f = (kept_t.0 || kept_f.0, if_else c kept_t.1 kept_f.1)
drop_if_else (some true) c t kept_t kept_f = (true, if_then c kept_t.1)
drop_if_else (some false) c t kept_t kept_f =
    (not (is_empty t) || kept_f.0, if_else c done kept_f.1)

unfoldable mutual
  -- Steps 2 and 3 at one statement: drop the branch that a constant condition excludes, then go on in
  -- the branches that are left. The flag says whether anything was dropped.
  pub drop_branches : Stmt → Bool × Stmt
  drop_branches (call f xs) = (false, call f xs)
  drop_branches (if_then c t) = drop_if_then (constant c) c t (drop_unreachable_stmts t)
  drop_branches (if_else c t f) =
      drop_if_else (constant c) c t (drop_unreachable_stmts t) (drop_unreachable_stmts f)
  drop_branches return_void = (false, return_void)
  drop_branches (return_value x) = (false, return_value x)
  drop_branches impossible = (false, impossible)
  drop_branches (impossible_because x) = (false, impossible_because x)

  -- Step 1 drops all that follows the first terminator.
  pub drop_unreachable_stmts : Body → Bool × Body
  drop_unreachable_stmts done = (false, done)
  drop_unreachable_stmts (stmt x b) =
      let first = drop_branches x in
      let rest = drop_unreachable_stmts b in
      if is_terminator x
      then (not (is_empty b) || first.0, stmt first.1 done)
      else (first.0 || rest.0, stmt first.1 rest.1)
