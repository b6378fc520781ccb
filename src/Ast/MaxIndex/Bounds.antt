-- ===== src/Ast/MaxIndex/Bounds.antt =====
-- `max_index` (max_index_impl.hpp) against `occurs_in` (occurs_in_impl.hpp).
use depc.Prelude.{ℕ, ◌≤◌, ◌≡◌, Bool, true, ◌||◌, Option, none, some, max, arith}
use depc.Ast.{
  Var, is_var, Expr, expr, Value, atom, boolean_constant, numeric_constant, string_literal,
  boolean_not, boolean_expr, relation_expr, arith_expr, var, global, app, abs, pi, sigma, addressof,
  deref, scopeof, init_list, member, subscript, because, Exprs, no_exprs, more, Args, no_args, arg,
  Body, done, stmt, Stmt, call, if_then, if_else, return_void, return_value, impossible,
  impossible_because, Signature,
}
use depc.Ast.Vars.{var_eq_idx}
use depc.Ast.OccursIn.{
  OccurrenceStyle, occurs_in, occurs_in_value, occurs_in_exprs, occurs_in_args, occurs_in_body,
  occurs_in_stmt, occurs_in_optional, occurs_in_signature,
}
use depc.Ast.MaxIndex.{
  optional_idx, max_index, max_index_value, max_index_exprs, max_index_args, max_index_body,
  max_index_stmt, max_index_optional, max_index_signature,
}

le-max_index_exprs : (acc : ℕ) (xs : Exprs) → acc ≤ max_index_exprs acc xs
unfolding max_index
le-max_index_exprs acc no_exprs = omega arith
le-max_index_exprs acc (more x xs) = omega (arith, le-max_index_exprs (max acc (max_index x)) xs)

le-max_index_args : (acc : ℕ) (gs : Args) → acc ≤ max_index_args acc gs
unfolding max_index
le-max_index_args acc no_args = omega arith
le-max_index_args acc (arg q t x gs) =
    omega (arith, le-max_index_args (max acc (max (max_index t) (optional_idx x))) gs)

le-max_index_body : (acc : ℕ) (b : Body) → acc ≤ max_index_body acc b
unfolding max_index
le-max_index_body acc done = omega arith
le-max_index_body acc (stmt x b) = omega (arith, le-max_index_body (max acc (max_index_stmt x)) b)

is_var-idx : (x : Option Var) (v : Var) → is_var x v ≡ true → v.idx ≤ optional_idx x
unfolding is_var
is_var-idx none v h = ground arith
is_var-idx (some x) v h = omega (arith, var_eq_idx x v h)

module _ (v : Var) (s : OccurrenceStyle) where
  mutual
    unfolding occurs_in max_index

    pub idx_le : (x : Expr) → occurs_in v s x ≡ true → v.idx ≤ max_index x
    idx_le (expr _ x) h = idx_le_value x h

    pub idx_le_value : (x : Value) → occurs_in_value v s x ≡ true → v.idx ≤ max_index_value x
    idx_le_value (boolean_not x) h = idx_le x h
    idx_le_value (boolean_expr _ x y) h = ground (arith, idx_le x, idx_le y)
    idx_le_value (relation_expr _ x y) h = ground (arith, idx_le x, idx_le y)
    idx_le_value (arith_expr _ x y) h = ground (arith, idx_le x, idx_le y)
    idx_le_value (var x) h = omega (arith, var_eq_idx x v h)
    idx_le_value (app f xs) h =
        ground (arith, idx_le f, idx_le_exprs xs (max_index f), le-max_index_exprs (max_index f) xs)
    idx_le_value (abs _ gs ret b) h =
        idx_le_args gs (max (max_index ret) (max_index_body 0 b)) h
          (λ r. ground (arith, idx_le ret, idx_le_body b 0))
    idx_le_value (pi _ gs ret) h =
        idx_le_args gs (max (max_index ret) 0) h (λ r. ground (arith, idx_le ret))
    idx_le_value (sigma gs) h = idx_le_args gs 0 h (λ r. ground arith)
    idx_le_value (addressof x) h = idx_le x h
    idx_le_value (deref x) h = idx_le x h
    idx_le_value (scopeof x _) h = idx_le x h
    idx_le_value (init_list xs) h = idx_le_exprs xs 0 h
    idx_le_value (member x _) h = idx_le x h
    idx_le_value (subscript x i) h = ground (arith, idx_le x, idx_le i)
    idx_le_value (because x r) h = ground (arith, idx_le x, idx_le r)
    idx_le_value (atom _) h = ground arith
    idx_le_value (boolean_constant _) h = ground arith
    idx_le_value (numeric_constant _) h = ground arith
    idx_le_value (string_literal _) h = ground arith
    idx_le_value (global _ _) h = ground arith

    idx_le_exprs :
        (xs : Exprs) (acc : ℕ) → occurs_in_exprs v s xs ≡ true → v.idx ≤ max_index_exprs acc xs
    idx_le_exprs no_exprs acc h = ground arith
    idx_le_exprs (more x xs) acc h = ground (
      arith,
      idx_le x,
      idx_le_exprs xs (max acc (max_index x)),
      le-max_index_exprs (max acc (max_index x)) xs,
    )

    pub idx_le_args :
        (gs : Args) (acc : ℕ) {rest : Bool}
        → occurs_in_args v s gs rest ≡ true
        → (rest ≡ true → v.idx ≤ acc)
        → v.idx ≤ max_index_args acc gs
    idx_le_args no_args acc h k = k h
    idx_le_args (arg _ t x gs) acc {rest} h k = ground (
      arith,
      idx_le t,
      is_var-idx x v,
      idx_le_args gs (max acc (max (max_index t) (optional_idx x))) {rest = rest},
      le-max_index_args (max acc (max (max_index t) (optional_idx x))) gs,
      k,
    )

    pub idx_le_body :
        (b : Body) (acc : ℕ) → occurs_in_body v s b ≡ true → v.idx ≤ max_index_body acc b
    idx_le_body done acc h = ground arith
    idx_le_body (stmt x b) acc h = ground (
      arith,
      idx_le_stmt x,
      idx_le_body b (max acc (max_index_stmt x)),
      le-max_index_body (max acc (max_index_stmt x)) b,
    )

    idx_le_stmt : (x : Stmt) → occurs_in_stmt v s x ≡ true → v.idx ≤ max_index_stmt x
    idx_le_stmt (call f xs) h =
        ground (arith, idx_le f, idx_le_exprs xs (max_index f), le-max_index_exprs (max_index f) xs)
    idx_le_stmt (if_then c t) h = ground (arith, idx_le c, idx_le_body t 0)
    idx_le_stmt (if_else c t f) h = ground (arith, idx_le c, idx_le_body t 0, idx_le_body f 0)
    idx_le_stmt (return_value x) h = idx_le x h
    idx_le_stmt (impossible_because x) h = idx_le x h
    idx_le_stmt return_void h = ground arith
    idx_le_stmt impossible h = ground arith

-- A variable that occurs in a signature, free or not, has an index of at most the highest index that
-- `max_index` computes for it.
pub idx_le-max_index :
    (v : Var) (s : OccurrenceStyle) (g : Signature)
    → occurs_in_signature v s g ≡ true
    → v.idx ≤ max_index_signature g
unfolding occurs_in_signature max_index_signature
idx_le-max_index v s g h = idx_le_args v s g.args _ h (tail_idx_le g.ret_type g.body)
  where
    tail_idx_le :
        (x : Expr) (b : Option Body)
        → (occurs_in v s x || occurs_in_optional v s b) ≡ true
        → v.idx ≤ max (max_index x) (max_index_optional b)
    tail_idx_le x none r = ground (arith, idx_le v s x)
    tail_idx_le x (some b) r = ground (arith, idx_le v s x, idx_le_body v s b 0)
