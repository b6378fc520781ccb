-- ===== src/Tests/Scopes.antt =====
-- Nested scopes with shadowing.
use depc.Prelude.{ℕ, ◌≡◌, refl, none, some, if◌then◌else◌, arith}
use depc.Ast.{Var, var_eq}
use depc.ScopeMap.{Heap, root_state, new, extend, innermost_copy, emplace, try_emplace, lookup}
use depc.ScopeMap.Stable.{IsHeap, lookup-try_emplace_other}
use depc.ScopeMap.Invariant.{IsHeap-new, IsHeap-operations}
use depc.ScopeMap.Lookup.{lookup-extend, lookup-try_emplace}

abbrev x_var : Var
x_var = record { name = "x"; idx = 0; shadow_id = 0 }

abbrev y_var : Var
y_var = record { name = "y"; idx = 0; shadow_id = 0 }

abbrev no_scopes : Heap ℕ
no_scopes = record { states = λ a. root_state; next = 0 }

no_scopes-IsHeap : IsHeap no_scopes
no_scopes-IsHeap = record {
  parent_older = λ a p l e. absurd (omega arith);
  limit_le = λ a p l e. absurd (omega arith);
  position_lt = λ a k i l e. absurd (omega arith);
}

-- One scope.
unfoldable outer : Heap ℕ
unfolding new
outer = (new no_scopes).1

-- One scope with an entry.
unfoldable with_x : Heap ℕ
unfolding outer try_emplace
with_x = (try_emplace 0 x_var 5 outer).1

-- A nested scope as well.
unfoldable nested : Heap ℕ
unfolding with_x extend
nested = (extend 0 with_x).1

outer-IsHeap : IsHeap outer
unfolding outer
outer-IsHeap = IsHeap-new no_scopes no_scopes-IsHeap

with_x-IsHeap : IsHeap with_x
unfolding with_x
with_x-IsHeap = (IsHeap-operations outer outer-IsHeap 0 (omega arith) x_var 5).3

nested-IsHeap : IsHeap nested
unfolding nested with_x
nested-IsHeap = (IsHeap-operations with_x with_x-IsHeap 0 (omega arith) x_var 5).1

-- The nested scope sees `x`, and not the `y` that the outer one gets later.
shadowing :
    (lookup nested 1 x_var ≡ some (0, 0))
    × (lookup (try_emplace 1 x_var 7 nested).1 1 x_var ≡ some (1, 0))
    × (lookup (try_emplace 0 y_var 7 nested).1 1 y_var ≡ none)
unfolding lookup nested var_eq
shadowing = (refl, refl, refl)

IsHeap-operations_example :
    IsHeap (new with_x).1
    × IsHeap (extend 0 with_x).1
    × IsHeap (innermost_copy 0 with_x).1
    × IsHeap (try_emplace 0 y_var 6 with_x).1
unfolding with_x
IsHeap-operations_example = IsHeap-operations with_x with_x-IsHeap 0 (omega arith) y_var 6

lookup-try_emplace_other_example :
    lookup (try_emplace 0 y_var 7 nested).1 1 y_var ≡ lookup nested 1 y_var
unfolding nested
lookup-try_emplace_other_example =
    lookup-try_emplace_other nested nested-IsHeap 1 0 (omega arith) (λ e. absurd (omega (arith, e)))
      y_var y_var 7

lookup-extend_example : lookup (extend 0 with_x).1 (extend 0 with_x).0 x_var ≡ lookup with_x 0 x_var
unfolding with_x emplace
lookup-extend_example = lookup-extend with_x with_x-IsHeap 0 (omega arith) (omega arith) x_var

lookup-try_emplace_example : lookup (try_emplace 1 x_var 7 nested).1 1 y_var ≡ (
    if var_eq y_var x_var
    then some (1, (try_emplace 1 x_var 7 nested).0.0)
    else lookup nested 1 y_var)
unfolding nested
lookup-try_emplace_example =
    lookup-try_emplace nested nested-IsHeap 1 (omega arith) (omega arith) x_var y_var 7
