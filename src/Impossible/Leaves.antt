-- ===== src/Impossible/Leaves.antt =====
-- Bodies that no path falls off, for is_impossible.cpp.
use depc.Prelude.{
  ◌≡◌, refl, Bool, true, false, ◌&&◌, ◌||◌, arith, Bool-cases, &&-left, &&-right, inl, inr,
}
use depc.Ast.{
  Body, done, stmt, Stmt, call, if_then, if_else, return_void, return_value, impossible,
  impossible_because,
}
use depc.Impossible.Paths.{
  Exit, at_end, returned, ExecutesStmt, calls, if_taken, if_skipped, true_branch, false_branch,
  returns_nothing, returns_value, Executes, ends, leaves, goes_on,
}

-- No path falls off the end, as the last statements show.
unfoldable mutual
  pub always_leaves : Body → Bool
  always_leaves done = false
  always_leaves (stmt x b) = always_leaves_stmt x || always_leaves b

  pub always_leaves_stmt : Stmt → Bool
  always_leaves_stmt (call _ _) = false
  always_leaves_stmt (if_then _ _) = false
  always_leaves_stmt (if_else _ t f) = always_leaves t && always_leaves f
  always_leaves_stmt return_void = true
  always_leaves_stmt (return_value _) = true
  always_leaves_stmt impossible = true
  always_leaves_stmt (impossible_because _) = true

-- The branch of an `if` without else does not fall off its end.
unfoldable pub if_leaves : Stmt → Body → Bool
unfolding always_leaves
if_leaves (if_then _ t) b = always_leaves t
if_leaves _ b = true

abbrev pub is_returned : Exit → Bool
is_returned at_end = false
is_returned returned = true

mutual
  unfolding always_leaves

  stmt-returned :
      {x : Stmt} {e : Exit} → ExecutesStmt x e → always_leaves_stmt x ≡ true → is_returned e ≡ true
  stmt-returned (calls p q r) h = absurd (ground (arith, h))
  stmt-returned (if_taken p q) h = absurd (ground (arith, h))
  stmt-returned (if_skipped p) h = absurd (ground (arith, h))
  stmt-returned (true_branch p q) h = body-returned q (&&-left _ _ h)
  stmt-returned (false_branch p q) h = body-returned q (&&-right _ _ h)
  stmt-returned returns_nothing h = refl
  stmt-returned (returns_value p) h = refl

  pub body-returned :
      {b : Body} {e : Exit} → Executes b e → always_leaves b ≡ true → is_returned e ≡ true
  body-returned ends h = absurd (ground (arith, h))
  body-returned (leaves x b p) h = refl
  body-returned (goes_on x b p q) h = elim (Bool-cases (always_leaves_stmt x)) [
    | inl l ↦ absurd (ground (arith, stmt-returned p l))
    | inr l ↦ body-returned q (ground (arith, h, l))
  ]
