-- ===== src/Stmts/Run.antt =====
-- What a body does: an independent description, over what the program leaves open (how expressions
-- evaluate).
use depc.Prelude.{◌≡◌, Bool, true, false, Option, none, some}
use depc.Ast.{
  Expr, expr, Sort, boolean_constant, Exprs, Body, done, stmt, Stmt, call, if_then, if_else,
  return_void, return_value, impossible, impossible_because,
}

-- How conditions, returned expressions and calls evaluate; `none` where evaluation has no result.
pub record Evaluation : Type 1 where
  pub State : Type 0
  pub Result : Type 0
  pub condition : Expr → State → Option (Bool × State)
  pub returned : Expr → State → Option (Result × State)
  pub called : Expr → Exprs → State → Option State
  -- A boolean constant is its value, and evaluating it has no effect.
  pub condition-constant :
      (s : Sort) (b : Bool) (σ : State) → condition (expr s (boolean_constant b)) σ ≡ some (b, σ)

-- A body falls off its end, returns, or has no behaviour.
pub data Outcome (E : Evaluation) : Type 0 where
  falls_through : E.State → Outcome E
  returns_void : E.State → Outcome E
  returns : E.Result → E.State → Outcome E
  stuck : Outcome E

abbrev pub and_then : {E : Evaluation} → Outcome E → (E.State → Outcome E) → Outcome E
and_then (falls_through σ) k = k σ
and_then (returns_void σ) k = returns_void σ
and_then (returns v σ) k = returns v σ
and_then stuck k = stuck

abbrev pub branch :
    {E : Evaluation} → Option (Bool × E.State) → (Bool → E.State → Outcome E) → Outcome E
branch none k = stuck
branch (some (b, σ)) k = k b σ

abbrev pub yields : {E : Evaluation} → Option (E.Result × E.State) → Outcome E
yields none = stuck
yields (some (v, σ)) = returns v σ

abbrev pub called_outcome : {E : Evaluation} → Option E.State → Outcome E
called_outcome none = stuck
called_outcome (some σ) = falls_through σ

module _ (E : Evaluation) where
  unfoldable mutual
    pub run : Body → E.State → Outcome E
    run done σ = falls_through σ
    run (stmt x b) σ = and_then (run_stmt x σ) (λ σ'. run b σ')

    pub run_stmt : Stmt → E.State → Outcome E
    run_stmt (call f xs) σ = called_outcome (E.called f xs σ)
    run_stmt (if_then c t) σ =
        branch (E.condition c σ) (λ b σ'. elim b [ true ↦ run t σ' | false ↦ falls_through σ' ])
    run_stmt (if_else c t f) σ =
        branch (E.condition c σ) (λ b σ'. elim b [ true ↦ run t σ' | false ↦ run f σ' ])
    run_stmt return_void σ = returns_void σ
    run_stmt (return_value x) σ = yields (E.returned x σ)
    run_stmt impossible σ = stuck
    run_stmt (impossible_because x) σ = stuck

abbrev pub falls : {E : Evaluation} → Outcome E → Bool
falls (falls_through _) = true
falls _ = false
