-- ===== src/Rewrite.antt =====
-- dep0/lib/03_typecheck/src/rewrite.cpp: put one side of an equation in the place of the other. A function that
-- returns an optional tree returns an `Option`; mapping one over a vector gives whether any element changed,
-- and the elements after `choose`.
pub mod Free
pub mod Steps
use depc.Prelude.{Bool, true, false, ◌||◌, Option, none, some, if◌then◌else◌}
use depc.Ast.{
  Var, Expr, expr, Sort, IsMutable, Value, atom, boolean_constant, numeric_constant, string_literal,
  boolean_not, boolean_expr, relation_expr, arith_expr, var, global, app, abs, pi, sigma, addressof,
  deref, scopeof, init_list, member, subscript, because, Exprs, no_exprs, more, Args, no_args, arg,
  Body, done, stmt, Stmt, call, if_then, if_else, return_void, return_value, impossible,
  impossible_because,
}
use depc.Ast.OccursIn.{free, occurs_in}
use depc.Alpha.{Verdict, equivalent, differ, is_alpha_equivalent}

-- `std::optional::has_value`
unfoldable pub has_value : {A : Type 0} → Option A → Bool
has_value none = false
has_value (some x) = true

-- `choose(new_value, old_value)`
unfoldable pub choose : {A : Type 0} → Option A → A → A
choose none old = old
choose (some x) old = x

-- `if (changed) result.emplace(value)`
unfoldable pub emplace_if : {A : Type 0} → Bool → A → Option A
emplace_if true x = some x
emplace_if false x = none

unfoldable pub is_equivalent : Verdict → Bool
is_equivalent equivalent = true
is_equivalent (differ e) = false

module _ (from to : Expr) where
  -- `stop |= ...`: does the binding variable occur free in the equation?
  unfoldable pub stops : Option Var → Bool
  stops none = false
  stops (some x) = occurs_in x free from || occurs_in x free to

  unfoldable mutual
    pub rewrite : Expr → Option Expr
    rewrite (expr s x) =
        let inside = rewrite_value s x in
        if is_equivalent (is_alpha_equivalent (expr s x) from) then some to else inside

    -- The `match` on a value; `s` is the sort in `old.properties`. What is rewritten in an initializer list,
    -- a member, a subscript or a because-expression is dropped, as in the code.
    pub rewrite_value : Sort → Value → Option Expr
    rewrite_value s (boolean_not x) =
        let o = rewrite x in emplace_if (has_value o) (expr s (boolean_not (choose o x)))
    rewrite_value s (boolean_expr p x y) =
        let o = rewrite x in
        let r = rewrite y in
        emplace_if (has_value o || has_value r) (expr s (boolean_expr p (choose o x) (choose r y)))
    rewrite_value s (relation_expr p x y) =
        let o = rewrite x in
        let r = rewrite y in
        emplace_if (has_value o || has_value r) (expr s (relation_expr p (choose o x) (choose r y)))
    rewrite_value s (arith_expr p x y) =
        let o = rewrite x in
        let r = rewrite y in
        emplace_if (has_value o || has_value r) (expr s (arith_expr p (choose o x) (choose r y)))
    rewrite_value s (app f xs) =
        let o = rewrite f in
        let r = rewrite_exprs xs in emplace_if (has_value o || r.0) (expr s (app (choose o f) r.1))
    rewrite_value s (abs m gs x b) =
        let r = rewrite_args false gs in
        let inside = rewrite x in
        let o = if r.2 then none else inside in
        let inner = rewrite_body b in
        let d = if r.2 then none else inner in
        emplace_if ((has_value o || has_value d) || r.0)
          (expr s (abs m r.1 (choose o x) (choose d b)))
    rewrite_value s (pi m gs x) =
        let r = rewrite_args false gs in
        let inside = rewrite x in
        let o = if r.2 then none else inside in
        emplace_if (has_value o || r.0) (expr s (pi m r.1 (choose o x)))
    rewrite_value s (sigma gs) =
        let r = rewrite_args false gs in emplace_if r.0 (expr s (sigma r.1))
    rewrite_value s (addressof x) =
        let o = rewrite x in emplace_if (has_value o) (expr s (addressof (choose o x)))
    rewrite_value s (deref x) =
        let o = rewrite x in emplace_if (has_value o) (expr s (deref (choose o x)))
    rewrite_value s (scopeof x i) =
        let o = rewrite x in emplace_if (has_value o) (expr s (scopeof (choose o x) i))
    rewrite_value s _ = none

    pub rewrite_exprs : Exprs → Bool × Exprs
    rewrite_exprs no_exprs = (false, no_exprs)
    rewrite_exprs (more x xs) =
        let o = rewrite x in let r = rewrite_exprs xs in (has_value o || r.0, more (choose o x) r.1)

    -- The `fmap` over the arguments, from `stop`: whether any changed, the arguments, and `stop` afterwards.
    pub rewrite_args : Bool → Args → Bool × Args × Bool
    rewrite_args stop no_args = (false, no_args, stop)
    rewrite_args stop (arg q t x gs) =
        let inside = rewrite t in
        let o = if stop then none else inside in
        let r = rewrite_args (stop || stops x) gs in
        (has_value o || r.0, arg q (choose o t) x r.1, r.2)

    pub rewrite_body : Body → Option Body
    rewrite_body done = none
    rewrite_body (stmt x b) =
        let o = rewrite_stmt x in
        let r = rewrite_body b in
        emplace_if (has_value o || has_value r) (stmt (choose o x) (choose r b))

    pub rewrite_stmt : Stmt → Option Stmt
    rewrite_stmt (call f xs) =
        let o = rewrite f in
        let r = rewrite_exprs xs in emplace_if (has_value o || r.0) (call (choose o f) r.1)
    rewrite_stmt (if_then c t) =
        let o = rewrite c in
        let r = rewrite_body t in
        emplace_if (has_value o || has_value r) (if_then (choose o c) (choose r t))
    rewrite_stmt (if_else c t f) =
        let o = rewrite c in
        let r = rewrite_body t in
        let k = rewrite_body f in
        emplace_if (has_value o || (has_value r || has_value k))
          (if_else (choose o c) (choose r t) (choose k f))
    rewrite_stmt return_void = none
    rewrite_stmt (return_value x) =
        let o = rewrite x in emplace_if (has_value o) (return_value (choose o x))
    rewrite_stmt impossible = none
    rewrite_stmt (impossible_because x) =
        let o = rewrite x in emplace_if (has_value o) (impossible_because (choose o x))
