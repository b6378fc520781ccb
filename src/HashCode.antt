-- ===== src/HashCode.antt =====
-- dep0/lib/01_ast/include/dep0/ast/hash_code_impl.hpp: the hash code of an expression, in which a bound variable
-- counts as the number of its binder. The hash functions of boost and of the standard library are the fields
-- of `HashFunctions`. The code passes two results of recursive calls to one call of `combine`, in an order
-- that C++ leaves open; here the first argument comes first.
pub mod Functions
pub mod Relabelled
pub mod Renaming
use depc.Prelude.{
  ℕ, suc, ◌+◌, ◌-◌, ◌%◌, String, Bool, true, false, List, [], ◌∷◌, Option, none, some, ◌==◌,
  if◌then◌else◌,
}
use depc.Prelude.Int.{ℤ}
use depc.Qty.{Qty}
use depc.Ast.{
  Var, var_eq, Expr, expr, IsMutable, Value, atom, boolean_constant, numeric_constant,
  string_literal, boolean_not, boolean_expr, relation_expr, arith_expr, var, global, app, abs, pi,
  sigma, addressof, deref, scopeof, init_list, member, subscript, because, Exprs, no_exprs, more,
  Args, no_args, arg, Body, done, stmt, Stmt, call, if_then, if_else, return_void, return_value,
  impossible, impossible_because,
}
use depc.Ast.Index.{boolean_index, relation_index, arith_index, value_index, stmt_index}

-- `boost::hash_combine` (the new value of its first argument), `boost::hash_value` of a name, of a quantity and of
-- mutability, `hash_value` of an integer, and `std::hash` of a string literal.
pub record HashFunctions : Type 0 where
  pub hash_combine : ℕ → ℕ → ℕ
  pub hash_name : String → ℕ
  pub hash_qty : Qty → ℕ
  pub hash_mutable : IsMutable → ℕ
  pub hash_number : ℤ → ℕ
  pub hash_literal : String → ℕ

-- `hash_code_state_t`
pub record HashState : Type 0 where
  pub next_id : ℕ
  pub unique_var_id : List (Var × ℕ)

unfoldable pub find_id : List (Var × ℕ) → Var → Option ℕ
find_id [] x = none
find_id ((y, i) ∷ ids) x = (let rest = find_id ids x in if var_eq y x then some i else rest)

-- `find`
unfoldable pub find : HashState → Var → Option ℕ
unfolding find_id
find s x = find_id s.unique_var_id x

-- `unique_var_id[x] = next_id++`
unfoldable pub store : Var → HashState → HashState
store x s = record { next_id = suc s.next_id; unique_var_id = (x, s.next_id) ∷ s.unique_var_id }

-- `if (arg.var) state.store(*arg.var)`
unfoldable pub store_name : Option Var → HashState → HashState
store_name none s = s
store_name (some x) s = store x s

-- A computation that reads and changes the state.
abbrev pub Hashing : Type 0
Hashing = HashState → ℕ × HashState

infixl 10 ◌>>=◌
unfoldable pub ◌>>=◌ : Hashing → (ℕ → Hashing) → Hashing
(m >>= f) s = (let r = m s in f r.0 r.1)

unfoldable pub return : ℕ → Hashing
return n s = (n, s)

unfoldable pub after_storing : Option Var → Hashing → Hashing
after_storing x m s = m (store_name x s)

-- `static_cast<std::size_t>(b)`
unfoldable pub bool_to_size : Bool → ℕ
bool_to_size true = 1
bool_to_size false = 0

-- `1ul ^ n`
unfoldable pub xor_one : ℕ → ℕ
xor_one n = if n % 2 == 0 then n + 1 else n - 1

module _ (b : HashFunctions) where
  -- `combine`, on two and on three numbers.
  unfoldable pub combine : ℕ → ℕ → ℕ
  combine x y = b.hash_combine x y

  unfoldable pub combine3 : ℕ → ℕ → ℕ → ℕ
  combine3 x y z = b.hash_combine (b.hash_combine x y) z

  -- The overload on variables.
  unfoldable pub number_of : Var → Option ℕ → ℕ
  number_of x (some id) = id
  number_of x none = combine x.idx (b.hash_name x.name)

  unfoldable pub hash_var : Var → Hashing
  hash_var x s = (number_of x (find s x), s)

  unfoldable mutual
    pub hash_expr : Expr → Hashing
    hash_expr (expr _ x) = do h ← hash_value x; return (combine (value_index x) h)

    pub hash_value : Value → Hashing
    hash_value (atom _) = return 0
    hash_value (boolean_constant x) = return (bool_to_size x)
    hash_value (numeric_constant x) = return (b.hash_number x)
    hash_value (string_literal x) = return (b.hash_literal x)
    hash_value (boolean_not x) = do h ← hash_expr x; return (combine 0 (xor_one h))
    hash_value (boolean_expr o x y) = do
      h ← hash_expr x
      k ← hash_expr y
      return (combine (boolean_index o) (combine h k))
    hash_value (relation_expr o x y) = do
      h ← hash_expr x
      k ← hash_expr y
      return (combine (relation_index o) (combine h k))
    hash_value (arith_expr o x y) = do
      h ← hash_expr x
      k ← hash_expr y
      return (combine (arith_index o) (combine h k))
    hash_value (var x) = hash_var x
    hash_value (global _ x) = return (b.hash_name x)
    hash_value (app f xs) = do h ← hash_expr f; hash_exprs h xs
    hash_value (abs m gs x d) = do
      h ← hash_args 0 gs
      k ← hash_expr x
      l ← hash_body 0 d
      return (combine (b.hash_mutable m) (combine (combine h k) l))
    hash_value (pi m gs x) = do
      h ← hash_args 0 gs
      k ← hash_expr x
      return (combine (b.hash_mutable m) (combine h k))
    hash_value (sigma gs) = hash_args 0 gs
    hash_value (addressof x) = do h ← hash_expr x; return (xor_one h)
    hash_value (deref x) = do h ← hash_expr x; return (xor_one h)
    hash_value (scopeof x _) = do h ← hash_expr x; return (xor_one h)
    hash_value (init_list xs) = hash_exprs 0 xs
    hash_value (member x f) = do h ← hash_expr x; return (combine h (b.hash_name f))
    hash_value (subscript x i) = do h ← hash_expr x; k ← hash_expr i; return (combine h k)
    hash_value (because x _) = hash_expr x

    -- The loop over a vector, from the result so far.
    pub hash_exprs : ℕ → Exprs → Hashing
    hash_exprs result no_exprs = return result
    hash_exprs result (more x xs) = do h ← hash_expr x; hash_exprs (combine result h) xs

    -- The loop over the arguments of a function.
    pub hash_args : ℕ → Args → Hashing
    hash_args result no_args = return result
    hash_args result (arg q t x gs) = do
      h ← after_storing x (hash_expr t)
      hash_args (combine (combine result (b.hash_qty q)) h) gs

    -- The overload on bodies.
    pub hash_body : ℕ → Body → Hashing
    hash_body result done = return result
    hash_body result (stmt x d) = do h ← hash_stmt x; hash_body (combine result h) d

    pub hash_stmt : Stmt → Hashing
    hash_stmt (call f xs) = do
      h ← hash_expr f
      k ← hash_exprs h xs
      return (combine (stmt_index (call f xs)) k)
    hash_stmt (if_then c t) = do
      h ← hash_expr c
      k ← hash_body 0 t
      return (combine (stmt_index (if_then c t)) (combine3 h k 0))
    hash_stmt (if_else c t f) = do
      h ← hash_expr c
      k ← hash_body 0 t
      l ← hash_body 0 f
      return (combine (stmt_index (if_else c t f)) (combine3 h k l))
    hash_stmt return_void = return (combine (stmt_index return_void) 0)
    hash_stmt (return_value x) = do
      h ← hash_expr x
      return (combine (stmt_index (return_value x)) h)
    hash_stmt impossible = return (combine (stmt_index impossible) 1)
    hash_stmt (impossible_because x) = return (combine (stmt_index (impossible_because x)) 1)

  -- `hash_code`
  unfoldable pub hash_code : Expr → ℕ
  hash_code x = (hash_expr x (record { next_id = 0; unique_var_id = [] })).0
