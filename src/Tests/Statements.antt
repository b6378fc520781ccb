-- ===== src/Tests/Statements.antt =====
-- Bodies that return, bodies with unreachable statements, and impossible ones.
use depc.Prelude.{ℕ, ◌+◌, ◌<◌, ◌≡◌, ◌⊎◌, refl, Bool, true, false, Option, none, some}
use depc.Ast.{
  mutable, Var, Expr, expr, type, kind, boolean_constant, var, global, app, pi, Exprs, no_exprs,
  more, no_args, Body, done, stmt, call, if_then, if_else, return_void, impossible,
}
use depc.Ast.Weight.{weight_body}
use depc.Stmts.{
  is_terminator, is_empty, drop_if_else, constant, returns_from_all_branches,
  drop_unreachable_stmts,
}
use depc.Stmts.Run.{Evaluation, returns_void, run, falls}
use depc.Stmts.Unreachable.{run-returns_from_all_branches, run-drop_unreachable_stmts}
use depc.Stmts.Flag.{drop_unreachable_stmts-flag}
use depc.Impossible.{is_impossible}
use depc.Impossible.Paths.{
  leaves, returned, if_taken, returns_nothing, Evaluates, evaluates, of_var, everywhere,
}
use depc.Impossible.Returns.{returns_last, is_if_then, is_done, never_returns}
use depc.Impossible.Sound.{is_impossible_sound}
use depc.Impossible.Leaves.{if_leaves, always_leaves}
use depc.Impossible.Complete.{HasPath, is_impossible_complete}
use depc.Mutable.{is_mutable}
use depc.Mutable.Parts.{HasMutableCall, is_typed}
use depc.Mutable.Calls.{is_mutable-calls}

-- Constants are themselves, variables are true, and a call counts.
abbrev condition : Expr → ℕ → Option (Bool × ℕ)
condition (expr _ (boolean_constant b)) σ = some (b, σ)
condition (expr _ (var _)) σ = some (true, σ)
condition _ σ = none

abbrev called : Expr → Exprs → ℕ → Option ℕ
called (expr _ (global _ _)) no_exprs σ = some (1 + σ)
called _ _ σ = none

abbrev counting : Evaluation
counting = record {
  State = ℕ;
  Result = ℕ;
  condition = condition;
  returned = λ x σ. none;
  called = called;
  condition-constant = λ s b σ. refl;
}

abbrev x_var : Var
x_var = record { name = "x"; idx = 0; shadow_id = 0 }

abbrev y_var : Var
y_var = record { name = "y"; idx = 0; shadow_id = 0 }

abbrev truth : Bool → Expr
truth b = expr kind (boolean_constant b)

abbrev x_expr : Expr
x_expr = expr kind (var x_var)

abbrev f_expr : Expr
f_expr = expr kind (global none "f")

-- `if (true) { f(); return; } else { f(); } f();`
abbrev decided : Body
decided =
    stmt
      (if_else (truth true) (stmt (call f_expr no_exprs) (stmt return_void done))
        (stmt (call f_expr no_exprs) done))
      (stmt (call f_expr no_exprs) done)

-- `if (x) return; else { return; f(); } f();`
abbrev both_return : Body
both_return =
    stmt
      (if_else x_expr (stmt return_void done) (stmt return_void (stmt (call f_expr no_exprs) done)))
      (stmt (call f_expr no_exprs) done)

-- `if (x) impossible; else impossible;`
abbrev never : Body
never = stmt (if_else x_expr (stmt impossible done) (stmt impossible done)) done

both_return_dropped :
    drop_unreachable_stmts both_return
    ≡ (true, stmt (if_else x_expr (stmt return_void done) (stmt return_void done)) done)
unfolding drop_unreachable_stmts is_terminator is_empty drop_if_else constant
both_return_dropped = refl

decided_runs : run counting decided 5 ≡ returns_void 6
unfolding run
decided_runs = refl

run-returns_from_all_branches_example : falls (run counting both_return 0) ≡ false
unfolding returns_from_all_branches
run-returns_from_all_branches_example = run-returns_from_all_branches counting both_return refl 0

run-drop_unreachable_stmts_example :
    run counting (drop_unreachable_stmts decided).1 3 ≡ run counting decided 3
run-drop_unreachable_stmts_example = run-drop_unreachable_stmts counting decided 3

drop_unreachable_stmts-flag_example :
    (drop_unreachable_stmts both_return ≡ (false, both_return))
    ⊎ (((drop_unreachable_stmts both_return).0 ≡ true)
        × (weight_body (drop_unreachable_stmts both_return).1 < weight_body both_return))
drop_unreachable_stmts-flag_example = drop_unreachable_stmts-flag both_return

-- `if (x) return; impossible;`
abbrev guard : Body
guard = stmt (if_then x_expr (stmt return_void done)) (stmt impossible done)

x-Evaluates : Evaluates x_expr
x-Evaluates = evaluates of_var

is_impossible-sound_example : is_impossible guard ≡ false
unfolding everywhere returns_last is_if_then is_done never_returns
is_impossible-sound_example = is_impossible_sound guard refl returned (
    leaves (if_then x_expr (stmt return_void done)) (stmt impossible done)
      (if_taken x-Evaluates (leaves return_void done returns_nothing)))

is_impossible-complete_example : HasPath guard
unfolding everywhere if_leaves always_leaves is_impossible
is_impossible-complete_example = is_impossible_complete guard refl refl

-- `f(); return;`
abbrev returning : Body
returning = stmt (call f_expr no_exprs) (stmt return_void done)

-- `if (x) { f(); } impossible;` has no path, and is not accepted.
not_accepted :
    is_impossible (stmt (if_then x_expr (stmt (call f_expr no_exprs) done)) (stmt impossible done))
    ≡ false
unfolding is_impossible
not_accepted = refl

-- `f(x)`, where `f` is a mutable function.
abbrev call_mutable : Expr
call_mutable = expr kind (
    app (expr (type (expr kind (pi mutable no_args x_expr))) (global none "f"))
      (more x_expr no_exprs))

is_mutable-calls_example :
    ((b : Bool) × (is_mutable call_mutable ≡ some b))
    × (is_mutable call_mutable ≡ some true → HasMutableCall call_mutable)
    × (HasMutableCall call_mutable → is_mutable call_mutable ≡ some true)
unfolding is_typed
is_mutable-calls_example = is_mutable-calls call_mutable refl
