-- ===== src/Usage.antt =====
-- dep0/lib/03_typecheck/src/usage.cpp: how often variables have been used. A `usage_t` holds a
-- `scope_map`, here the address of its state on a heap. A typing context is the function that its
-- `operator[]` is.
pub mod Counted
pub mod Frame
pub mod Merge
pub mod Rollback
use depc.Prelude.{ℕ, Bool, true, false, Option, none, some, ltb, ◌==◌, if◌then◌else◌, List, [], ◌∷◌}
use depc.Qty.{Qty, zero, one, to_int, ◌+Q◌, ◌*Q◌}
use depc.Ast.{
  Var, Expr, expr, Value, atom, boolean_constant, numeric_constant, string_literal, boolean_not,
  boolean_expr, relation_expr, arith_expr, var, global, app, abs, pi, sigma, addressof, deref,
  scopeof, init_list, member, subscript, because, Exprs, no_exprs, more,
}
use depc.ScopeMap.{Heap, State, write, try_emplace, innermost_copy, lookup, element}

-- What `ctx_t::decl_t` says of quantities.
pub record Decl : Type 0 where
  pub qty : Qty
  pub declared : Var

abbrev pub Context : Type 0
Context = Var → Option Decl

-- The error messages.
pub data Error : Type 0 where
  not_at_runtime non_linear_context already_used abs_not_implemented : Error
  unknown_variable : Var → Error

-- `expected<std::true_type>`, with the address of `count` and the heap afterwards.
pub data Outcome : Type 0 where
  ok : ℕ → Heap Qty → Outcome
  error : Error → ℕ → Heap Qty → Outcome

-- `if (result) result = ...`
unfoldable pub and_then : Outcome → (ℕ → Heap Qty → Outcome) → Outcome
and_then (ok u h) f = f u h
and_then (error e u h) f = error e u h

unfoldable pub value_or_zero : Option (Var × Qty) → Qty
value_or_zero none = zero
value_or_zero (some x) = x.1

unfoldable pub quantity_at : Heap Qty → Option (ℕ × ℕ) → Qty
unfolding value_or_zero element
quantity_at h none = zero
quantity_at h (some p) = value_or_zero (element h p)

-- `usage_t::operator[]`
unfoldable pub usage_of : Heap Qty → ℕ → Var → Qty
unfolding quantity_at lookup
usage_of h u v = quantity_at h (lookup h u v)

-- `it->second = new_qty`
unfoldable pub assign : Qty → List (Var × Qty) → ℕ → List (Var × Qty)
assign q [] i = []
assign q (x ∷ xs) ℕ.zero = (x.0, q) ∷ xs
assign q (x ∷ xs) (ℕ.suc i) = x ∷ assign q xs i

unfoldable pub assign_unless : Bool → ℕ → ℕ → Qty → Heap Qty → Heap Qty
unfolding assign write
assign_unless true u i q h = h
assign_unless false u i q h =
    write u (record (h.states u) { entries = assign q (h.states u).entries i }) h

unfoldable pub is_zero : Qty → Bool
is_zero q = to_int q == 0

unfoldable pub message : Qty → Qty → Error
unfolding is_zero
message allowed old =
    if is_zero allowed
    then not_at_runtime
    else if is_zero old
    then non_linear_context
    else already_used

-- Count the new quantity.
unfoldable pub record_usage : Var → Qty → ℕ → Heap Qty → Heap Qty
unfolding try_emplace assign_unless
record_usage v q u h = let r = try_emplace u v q h in assign_unless r.0.1 u r.0.0 q r.1

-- `try_add(decl, usage_multiplier, loc)`
unfoldable pub try_add_decl : Decl → Qty → ℕ → Heap Qty → Outcome
unfolding usage_of message record_usage is_zero ◌+Q◌ ◌*Q◌
try_add_decl d m u h =
    let old = usage_of h u d.declared in
    let now = old +Q (one *Q m) in
    if is_zero m
    then ok u h
    else if ltb (to_int d.qty) (to_int now)
    then error (message d.qty old) u h
    else ok u (record_usage d.declared now u h)

-- The scope exit: after an error `count` is the copy.
unfoldable pub roll_back : ℕ → Outcome → Outcome
roll_back copy (ok u h) = ok u h
roll_back copy (error e u h) = error e copy h

unfoldable pub with_rollback : (ℕ → Heap Qty → Outcome) → ℕ → Heap Qty → Outcome
unfolding roll_back innermost_copy
with_rollback f u h = let c = innermost_copy u h in roll_back c.0 (f u c.1)

unfoldable pub try_add_known : Option Decl → Var → Qty → ℕ → Heap Qty → Outcome
unfolding try_add_decl
try_add_known none v m u h = error (unknown_variable v) u h
try_add_known (some d) v m u h = try_add_decl d m u h

module _ (ctx : Context) (m : Qty) where
  unfoldable mutual
    unfolding with_rollback and_then try_add_known is_zero

    -- `try_add(ctx, expr, usage_multiplier)`
    pub try_add : Expr → ℕ → Heap Qty → Outcome
    try_add (expr _ x) u h =
        let result = with_rollback (λ v g. try_add_value x v g) u h in
        if is_zero m then ok u h else result

    pub try_add_value : Value → ℕ → Heap Qty → Outcome
    try_add_value (atom _) u h = ok u h
    try_add_value (boolean_constant _) u h = ok u h
    try_add_value (numeric_constant _) u h = ok u h
    try_add_value (string_literal _) u h = ok u h
    try_add_value (boolean_not x) u h = try_add x u h
    try_add_value (boolean_expr _ x y) u h = and_then (try_add x u h) (λ v g. try_add y v g)
    try_add_value (relation_expr _ x y) u h = and_then (try_add x u h) (λ v g. try_add y v g)
    try_add_value (arith_expr _ x y) u h = and_then (try_add x u h) (λ v g. try_add y v g)
    try_add_value (var x) u h = try_add_known (ctx x) x m u h
    try_add_value (global _ _) u h = ok u h
    try_add_value (app f xs) u h = and_then (try_add f u h) (λ v g. try_add_exprs xs v g)
    try_add_value (abs _ _ _ _) u h = error abs_not_implemented u h
    try_add_value (pi _ _ _) u h = ok u h
    try_add_value (sigma _) u h = ok u h
    try_add_value (addressof x) u h = try_add x u h
    try_add_value (deref x) u h = try_add x u h
    try_add_value (scopeof x _) u h = try_add x u h
    try_add_value (init_list xs) u h = try_add_exprs xs u h
    try_add_value (member x _) u h = try_add x u h
    try_add_value (subscript x i) u h = and_then (try_add x u h) (λ v g. try_add i v g)
    try_add_value (because x _) u h = try_add x u h

    pub try_add_exprs : Exprs → ℕ → Heap Qty → Outcome
    try_add_exprs no_exprs u h = ok u h
    try_add_exprs (more x xs) u h = and_then (try_add x u h) (λ v g. try_add_exprs xs v g)

-- The loop over the direct usages of another usage object.
unfoldable pub try_add_entries : Context → List (Var × Qty) → ℕ → Heap Qty → Outcome
unfolding and_then try_add_known
try_add_entries ctx [] u h = ok u h
try_add_entries ctx (x ∷ xs) u h =
    and_then (try_add_known (ctx x.0) x.0 one u h) (λ v g. try_add_entries ctx xs v g)

-- `try_add(ctx, that)`
unfoldable pub try_add_usage : Context → ℕ → ℕ → Heap Qty → Outcome
unfolding with_rollback try_add_entries
try_add_usage ctx that u h =
    with_rollback (λ v g. try_add_entries ctx (h.states that).entries v g) u h
