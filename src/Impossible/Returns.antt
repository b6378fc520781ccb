-- ===== src/Impossible/Returns.antt =====
-- Return statements, and the paths through bodies without one, for is_impossible.cpp.
use depc.Prelude.{◌≡◌, refl, Bool, true, false, ◌&&◌, ◌||◌, arith, &&-left, &&-right}
use depc.Ast.{Body, done, stmt, Stmt, if_then, if_else, return_void, return_value}
use depc.Impossible.Paths.{
  Exit, at_end, returned, ExecutesStmt, calls, if_taken, if_skipped, true_branch, false_branch,
  returns_nothing, returns_value, Executes, ends, leaves, goes_on,
}

-- No return statement, at any depth.
unfoldable mutual
  pub never_returns : Body → Bool
  never_returns done = true
  never_returns (stmt x b) = never_returns_stmt x && never_returns b

  pub never_returns_stmt : Stmt → Bool
  never_returns_stmt (if_then _ t) = never_returns t
  never_returns_stmt (if_else _ t f) = never_returns t && never_returns f
  never_returns_stmt return_void = false
  never_returns_stmt (return_value _) = false
  never_returns_stmt _ = true

unfoldable pub is_if_then : Stmt → Bool
is_if_then (if_then _ _) = true
is_if_then _ = false

unfoldable pub is_done : Body → Bool
is_done done = true
is_done (stmt _ _) = false

-- A statement that has a return statement in it is the last one, or it is an `if` without else.
unfoldable pub returns_last : Stmt → Body → Bool
unfolding is_if_then is_done never_returns
returns_last x b = is_if_then x || (never_returns_stmt x || is_done b)

abbrev pub is_at_end : Exit → Bool
is_at_end at_end = true
is_at_end returned = false

mutual
  unfolding never_returns

  pub stmt-at_end :
      {x : Stmt} {e : Exit} → ExecutesStmt x e → never_returns_stmt x ≡ true → is_at_end e ≡ true
  stmt-at_end (calls p q r) h = refl
  stmt-at_end (if_taken p q) h = body-at_end q h
  stmt-at_end (if_skipped p) h = refl
  stmt-at_end (true_branch p q) h = body-at_end q (&&-left _ _ h)
  stmt-at_end (false_branch p q) h = body-at_end q (&&-right _ _ h)
  stmt-at_end returns_nothing h = absurd (ground (arith, h))
  stmt-at_end (returns_value p) h = absurd (ground (arith, h))

  body-at_end : {b : Body} {e : Exit} → Executes b e → never_returns b ≡ true → is_at_end e ≡ true
  body-at_end ends h = refl
  body-at_end (leaves x b p) h = stmt-at_end p (&&-left _ _ h)
  body-at_end (goes_on x b p q) h = body-at_end q (&&-right _ _ h)
