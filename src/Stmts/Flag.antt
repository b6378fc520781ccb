-- ===== src/Stmts/Flag.antt =====
-- The flag that `drop_unreachable_stmts` returns, and a second pass.
use depc.Prelude.{
  ◌<◌, ◌≤◌, ◌≡◌, ◌⊎◌, refl, ap, Bool, true, false, not, ◌||◌, Option, none, some, arith, Bool-cases,
  inl, inr, if◌then◌else◌,
}
use depc.Ast.{
  Expr, Body, done, stmt, Stmt, call, if_then, if_else, return_void, return_value, impossible,
  impossible_because,
}
use depc.Ast.Weight.{weight, weight_body, weight_stmt, weight_body_pos}
use depc.Stmts.{
  is_terminator, returns_from_all_branches, constant, is_empty, drop_if_then, drop_if_else,
  drop_branches, drop_unreachable_stmts,
}

is_empty→eq : (b : Body) → is_empty b ≡ true → b ≡ done
unfolding is_empty
is_empty→eq done h = refl
is_empty→eq (stmt x b) h = cc

weight-not_empty : (b : Body) → is_empty b ≡ false → 1 < weight_body b
unfolding is_empty weight
weight-not_empty done h = cc
weight-not_empty (stmt x b) h = omega (arith, weight_body_pos b)

-- The flag is set exactly when the tree got smaller, and otherwise the tree is the old one.
abbrev pub IsExactStmt : Bool × Stmt → Stmt → Type 0
IsExactStmt r x = (r.0 ≡ false → r.1 ≡ x) × (r.0 ≡ true → weight_stmt r.1 < weight_stmt x)

abbrev pub IsExact : Bool × Body → Body → Type 0
IsExact r b = (r.0 ≡ false → r.1 ≡ b) × (r.0 ≡ true → weight_body r.1 < weight_body b)

IsExact-le : (r : Bool × Body) (b : Body) → IsExact r b → weight_body r.1 ≤ weight_body b
IsExact-le r b h = elim (Bool-cases r.0) [
  | inl e ↦ omega (arith, h.1 e)
  | inr e ↦ omega (arith, ap weight_body (h.0 e))
]

exact_if_then :
    (o : Option Bool) (c : Expr) (t : Body) (kept : Bool × Body)
    → IsExact kept t
    → IsExactStmt (drop_if_then o c t kept) (if_then c t)
unfolding drop_if_then weight
exact_if_then none c t kept h = (λ e. ap (if_then c) (h.0 e), λ e. omega (arith, h.1 e))
exact_if_then (some true) c t kept h = (λ e. ap (if_then c) (h.0 e), λ e. omega (arith, h.1 e))
exact_if_then (some false) c t kept h =
    (λ e. ground (arith, is_empty→eq t), λ e. ground (arith, weight-not_empty t))

exact_if_else :
    (o : Option Bool) (c : Expr) (t f : Body) (kept_t kept_f : Bool × Body)
    → IsExact kept_t t
    → IsExact kept_f f
    → IsExactStmt (drop_if_else o c t kept_t kept_f) (if_else c t f)
unfolding drop_if_else weight
exact_if_else none c t f kept_t kept_f h k =
    (λ e. ground (arith, h.0, k.0), λ e. ground (arith, h.0, h.1, k.0, k.1))
exact_if_else (some true) c t f kept_t kept_f h k =
    (λ e. cc, λ e. omega (arith, IsExact-le kept_t t h, weight_body_pos f))
exact_if_else (some false) c t f kept_t kept_f h k = (
  λ e. ground (arith, is_empty→eq t, k.0),
  λ e. ground (arith, weight-not_empty t, weight_body_pos t, k.1, IsExact-le kept_f f k),
)

-- One round of the loop.
IsExact-step :
    (x : Stmt) (b : Body) (first : Bool × Stmt) (rest : Bool × Body)
    → IsExactStmt first x
    → IsExact rest b
    → IsExact
        (if is_terminator x
          then (not (is_empty b) || first.0, stmt first.1 done)
          else (first.0 || rest.0, stmt first.1 rest.1))
        (stmt x b)
unfolding weight
IsExact-step x b first rest h k = elim (Bool-cases (is_terminator x)) [
  | inl e ↦ rw e (
    λ e. ground (arith, is_empty→eq b, h.0),
    λ e. ground (arith, weight-not_empty b, weight_body_pos b, h.1, ap weight_stmt, h.0),
  )
  | inr e ↦ rw e (λ e. ground (arith, h.0, k.0), λ e. ground (arith, h.0, h.1, k.0, k.1))
]

mutual
  unfolding drop_branches weight

  exact_stmt : (x : Stmt) → IsExactStmt (drop_branches x) x
  exact_stmt (call f xs) = (λ e. refl, λ e. cc)
  exact_stmt (if_then c t) = exact_if_then (constant c) c t (drop_unreachable_stmts t) (exact t)
  exact_stmt (if_else c t f) =
      exact_if_else (constant c) c t f (drop_unreachable_stmts t) (drop_unreachable_stmts f)
        (exact t) (exact f)
  exact_stmt return_void = (λ e. refl, λ e. cc)
  exact_stmt (return_value x) = (λ e. refl, λ e. cc)
  exact_stmt impossible = (λ e. refl, λ e. cc)
  exact_stmt (impossible_because x) = (λ e. refl, λ e. cc)

  exact : (b : Body) → IsExact (drop_unreachable_stmts b) b
  exact done = (λ e. refl, λ e. cc)
  exact (stmt x b) =
      IsExact-step x b (drop_branches x) (drop_unreachable_stmts b) (exact_stmt x) (exact b)

-- Either `drop_unreachable_stmts` returns false and the body as it was, or it returns true and a body
-- of smaller weight, that is with fewer nodes.
pub drop_unreachable_stmts-flag :
    (b : Body)
    → (drop_unreachable_stmts b ≡ (false, b))
      ⊎ (((drop_unreachable_stmts b).0 ≡ true)
          × (weight_body (drop_unreachable_stmts b).1 < weight_body b))
drop_unreachable_stmts-flag b = elim (Bool-cases (drop_unreachable_stmts b).0) [
  | inl e ↦ inr (e, (exact b).1 e)
  | inr e ↦ inl (λ i. (e i, (exact b).0 e i))
]

terminator_if_then :
    (o : Option Bool) (c : Expr) (t : Body) (kept : Bool × Body)
    → is_terminator (drop_if_then o c t kept).1 ≡ true
    → is_terminator (if_then c t) ≡ true
unfolding drop_if_then is_terminator
terminator_if_then none c t kept h = h
terminator_if_then (some true) c t kept h = h
terminator_if_then (some false) c t kept h = h

terminator_if_else :
    (o : Option Bool) (c : Expr) (t f : Body) (kept_t kept_f : Bool × Body)
    → (returns_from_all_branches kept_t.1 ≡ true → returns_from_all_branches t ≡ true)
    → (returns_from_all_branches kept_f.1 ≡ true → returns_from_all_branches f ≡ true)
    → is_terminator (drop_if_else o c t kept_t kept_f).1 ≡ true
    → is_terminator (if_else c t f) ≡ true
unfolding drop_if_else is_terminator
terminator_if_else none c t f kept_t kept_f h k e = ground (arith, h, k)
terminator_if_else (some true) c t f kept_t kept_f h k e = cc
terminator_if_else (some false) c t f kept_t kept_f h k e = cc

mutual
  unfolding drop_branches is_terminator

  terminator_kept : (x : Stmt) → is_terminator (drop_branches x).1 ≡ true → is_terminator x ≡ true
  terminator_kept (if_then c t) h = terminator_if_then (constant c) c t (drop_unreachable_stmts t) h
  terminator_kept (if_else c t f) h =
      terminator_if_else (constant c) c t f (drop_unreachable_stmts t) (drop_unreachable_stmts f)
        (returns_kept t) (returns_kept f) h
  terminator_kept (call f xs) h = h
  terminator_kept return_void h = refl
  terminator_kept (return_value x) h = refl
  terminator_kept impossible h = refl
  terminator_kept (impossible_because x) h = refl

  returns_kept :
      (b : Body)
      → returns_from_all_branches (drop_unreachable_stmts b).1 ≡ true
      → returns_from_all_branches b ≡ true
  returns_kept done h = h
  returns_kept (stmt x b) h = ground (arith, terminator_kept x, returns_kept b)

again_if_then :
    (o : Option Bool) (c : Expr) (t : Body) (kept : Bool × Body)
    → constant c ≡ o
    → drop_unreachable_stmts kept.1 ≡ (false, kept.1)
    → drop_branches (drop_if_then o c t kept).1 ≡ (false, (drop_if_then o c t kept).1)
unfolding drop_if_then drop_branches is_empty
again_if_then none c t kept e h = rw (e, h)
again_if_then (some true) c t kept e h = rw (e, h)
again_if_then (some false) c t kept e h = rw e

again_if_else :
    (o : Option Bool) (c : Expr) (t : Body) (kept_t kept_f : Bool × Body)
    → constant c ≡ o
    → drop_unreachable_stmts kept_t.1 ≡ (false, kept_t.1)
    → drop_unreachable_stmts kept_f.1 ≡ (false, kept_f.1)
    → drop_branches (drop_if_else o c t kept_t kept_f).1
      ≡ (false, (drop_if_else o c t kept_t kept_f).1)
unfolding drop_if_else drop_if_then drop_branches is_empty
again_if_else none c t kept_t kept_f e h k = rw (e, h, k)
again_if_else (some true) c t kept_t kept_f e h k = rw (e, h)
again_if_else (some false) c t kept_t kept_f e h k = rw (e, k)

mutual
  unfolding drop_branches is_empty

  again_stmt : (x : Stmt) → drop_branches (drop_branches x).1 ≡ (false, (drop_branches x).1)
  again_stmt (call f xs) = refl
  again_stmt (if_then c t) =
      again_if_then (constant c) c t (drop_unreachable_stmts t) refl (again t)
  again_stmt (if_else c t f) =
      again_if_else (constant c) c t (drop_unreachable_stmts t) (drop_unreachable_stmts f) refl
        (again t) (again f)
  again_stmt return_void = refl
  again_stmt (return_value x) = refl
  again_stmt impossible = refl
  again_stmt (impossible_because x) = refl

  again :
      (b : Body)
      → drop_unreachable_stmts (drop_unreachable_stmts b).1 ≡ (false, (drop_unreachable_stmts b).1)
  again done = refl
  again (stmt x b) = ground (arith, again_stmt x, again b, terminator_kept x)

-- A second pass finds nothing left to drop: it returns false and the same body.
pub drop_unreachable_stmts_idem :
    (b : Body)
    → drop_unreachable_stmts (drop_unreachable_stmts b).1 ≡ (false, (drop_unreachable_stmts b).1)
drop_unreachable_stmts_idem = again
