-- ===== src/Stmts/Unreachable.antt =====
-- `drop_unreachable_stmts` and `returns_from_all_branches` against what a body does.
use depc.Prelude.{
  ◌≡◌, refl, ◌∙◌, ap, Bool, true, false, Option, none, some, arith, Bool-cases, inl, inr, sym,
}
use depc.Ast.{
  Expr, expr, boolean_constant, Body, done, stmt, Stmt, call, if_then, if_else, return_void,
  return_value, impossible, impossible_because,
}
use depc.Stmts.{
  is_terminator, returns_from_all_branches, constant, drop_if_then, drop_if_else, drop_branches,
  drop_unreachable_stmts,
}
use depc.Stmts.Run.{
  Evaluation, Outcome, falls_through, returns_void, returns, stuck, and_then, branch, yields, run,
  run_stmt, falls,
}

and_then-falls :
    {E : Evaluation} (o : Outcome E) (k : E.State → Outcome E) → falls o ≡ false → and_then o k ≡ o
and_then-falls (falls_through σ) k h = cc
and_then-falls (returns_void σ) k h = refl
and_then-falls (returns v σ) k h = refl
and_then-falls stuck k h = refl

falls-and_then :
    {E : Evaluation} (o : Outcome E) (k : E.State → Outcome E)
    → ((σ : E.State) → falls (k σ) ≡ false)
    → falls (and_then o k) ≡ false
falls-and_then (falls_through σ) k h = h σ
falls-and_then (returns_void σ) k h = refl
falls-and_then (returns v σ) k h = refl
falls-and_then stuck k h = refl

falls-branch :
    {E : Evaluation} (o : Option (Bool × E.State)) (k : Bool → E.State → Outcome E)
    → ((b : Bool) (σ : E.State) → falls (k b σ) ≡ false)
    → falls (branch o k) ≡ false
falls-branch none k h = refl
falls-branch (some (b, σ)) k h = h b σ

falls-yields : (E : Evaluation) (o : Option (E.Result × E.State)) → falls (yields {E = E} o) ≡ false
falls-yields E none = refl
falls-yields E (some (v, σ)) = refl

-- Branches that do the same make the same of a condition.
branch-ext :
    {E : Evaluation} (o : Option (Bool × E.State)) (k l : Bool → E.State → Outcome E)
    → ((b : Bool) (σ : E.State) → k b σ ≡ l b σ)
    → branch o k ≡ branch o l
branch-ext none k l h = refl
branch-ext (some (b, σ)) k l h = h b σ

and_then-ext :
    {E : Evaluation} (o : Outcome E) (k l : E.State → Outcome E)
    → ((σ : E.State) → k σ ≡ l σ)
    → and_then o k ≡ and_then o l
and_then-ext (falls_through σ) k l h = h σ
and_then-ext (returns_void σ) k l h = refl
and_then-ext (returns v σ) k l h = refl
and_then-ext stuck k l h = refl

module _ (E : Evaluation) where
  mutual
    unfolding run is_terminator

    terminator-falls :
        (x : Stmt) → is_terminator x ≡ true → (σ : E.State) → falls (run_stmt E x σ) ≡ false
    terminator-falls (call f xs) h σ = cc
    terminator-falls (if_then c t) h σ = cc
    terminator-falls (if_else c t f) h σ =
        falls-branch (E.condition c σ) _
          (elim [ true ↦ returns-falls t (ground arith) | false ↦ returns-falls f (ground arith) ])
    terminator-falls return_void h σ = refl
    terminator-falls (return_value x) h σ = falls-yields E (E.returned x σ)
    terminator-falls impossible h σ = refl
    terminator-falls (impossible_because x) h σ = refl

    returns-falls :
        (b : Body) → returns_from_all_branches b ≡ true → (σ : E.State) → falls (run E b σ) ≡ false
    returns-falls done h σ = cc
    returns-falls (stmt x b) h σ = elim (Bool-cases (is_terminator x)) [
      | inl e ↦
          rw (and_then-falls (run_stmt E x σ) (λ σ'. run E b σ') (terminator-falls x e σ))
            (terminator-falls x e σ)
      | inr e ↦ falls-and_then (run_stmt E x σ) (λ σ'. run E b σ') (returns-falls b (rw e at h))
    ]

-- A body that returns from all branches never falls off its end, however expressions evaluate.
pub run-returns_from_all_branches :
    (E : Evaluation) (b : Body)
    → returns_from_all_branches b ≡ true
    → (σ : E.State) → falls (run E b σ) ≡ false
run-returns_from_all_branches E b h σ = returns-falls E b h σ

module _ (E : Evaluation) where
  condition-of_constant :
      (c : Expr) (b : Bool) (σ : E.State) → constant c ≡ some b → E.condition c σ ≡ some (b, σ)
  unfolding constant
  condition-of_constant (expr s (boolean_constant a)) b σ h =
      let e : a ≡ b = ground arith in E.condition-constant s a σ ∙ ap (λ z. some (z, σ)) e
  condition-of_constant (expr s _) b σ h = cc

  run-drop_if_then :
      (o : Option Bool) (c : Expr) (t : Body) (kept : Bool × Body)
      → constant c ≡ o
      → ((σ : E.State) → run E kept.1 σ ≡ run E t σ)
      → (σ : E.State) → run_stmt E (drop_if_then o c t kept).1 σ ≡ run_stmt E (if_then c t) σ
  unfolding run drop_if_then
  run-drop_if_then none c t kept e h σ =
      branch-ext (E.condition c σ) _ _ (elim [ true ↦ h | false ↦ λ σ'. refl ])
  run-drop_if_then (some true) c t kept e h σ =
      branch-ext (E.condition c σ) _ _ (elim [ true ↦ h | false ↦ λ σ'. refl ])
  run-drop_if_then (some false) c t kept e h σ = rw (condition-of_constant c false σ e)

  run-drop_if_else :
      (o : Option Bool) (c : Expr) (t f : Body) (kept_t kept_f : Bool × Body)
      → constant c ≡ o
      → ((σ : E.State) → run E kept_t.1 σ ≡ run E t σ)
      → ((σ : E.State) → run E kept_f.1 σ ≡ run E f σ)
      → (σ : E.State)
      → run_stmt E (drop_if_else o c t kept_t kept_f).1 σ ≡ run_stmt E (if_else c t f) σ
  unfolding run drop_if_else
  run-drop_if_else none c t f kept_t kept_f e h k σ =
      branch-ext (E.condition c σ) _ _ (elim [ true ↦ h | false ↦ k ])
  run-drop_if_else (some true) c t f kept_t kept_f e h k σ =
      rw (condition-of_constant c true σ e) (h σ)
  run-drop_if_else (some false) c t f kept_t kept_f e h k σ =
      rw (condition-of_constant c false σ e) (k σ)

  mutual
    unfolding run drop_branches

    run-drop_branches : (x : Stmt) (σ : E.State) → run_stmt E (drop_branches x).1 σ ≡ run_stmt E x σ
    run-drop_branches (call f xs) σ = refl
    run-drop_branches (if_then c t) σ =
        run-drop_if_then (constant c) c t (drop_unreachable_stmts t) refl (run-drop t) σ
    run-drop_branches (if_else c t f) σ =
        run-drop_if_else (constant c) c t f (drop_unreachable_stmts t) (drop_unreachable_stmts f)
          refl (run-drop t) (run-drop f) σ
    run-drop_branches return_void σ = refl
    run-drop_branches (return_value x) σ = refl
    run-drop_branches impossible σ = refl
    run-drop_branches (impossible_because x) σ = refl

    run-drop : (b : Body) (σ : E.State) → run E (drop_unreachable_stmts b).1 σ ≡ run E b σ
    run-drop done σ = refl
    run-drop (stmt x b) σ = elim (Bool-cases (is_terminator x)) [
      | inl e ↦
          rw (e, run-drop_branches x σ)
            (and_then-falls (run_stmt E x σ) falls_through (terminator-falls E x e σ)
              ∙ sym (and_then-falls (run_stmt E x σ) _ (terminator-falls E x e σ)))
      | inr e ↦ rw (e, run-drop_branches x σ) (and_then-ext (run_stmt E x σ) _ _ (run-drop b))
    ]

-- Dropping unreachable statements changes nothing that the body does, from any state and however
-- expressions evaluate, as long as boolean constants evaluate to themselves.
pub run-drop_unreachable_stmts :
    (E : Evaluation) (b : Body) (σ : E.State) → run E (drop_unreachable_stmts b).1 σ ≡ run E b σ
run-drop_unreachable_stmts = run-drop
