-- ===== src/Impossible/Paths.antt =====
-- The paths through a body, an independent description that is_impossible.cpp is compared with: a path chooses
-- how each condition comes out, and it has no step for `impossible`. Both operands of an operator are
-- evaluated, as in the generated code. So are the types that a function or a type is built from.
use depc.Prelude.{Bool, true, false, ◌≡◌, ◌&&◌, String, ℕ, Option}
use depc.Prelude.Int.{ℤ}
use depc.Qty.{Qty}
use depc.Ast.{
  Var, IsMutable, BooleanOp, RelationOp, ArithOp, Atom, Expr, expr, Sort, Value, atom,
  boolean_constant, numeric_constant, string_literal, boolean_not, boolean_expr, relation_expr,
  arith_expr, var, global, app, abs, pi, sigma, addressof, deref, scopeof, init_list, member,
  subscript, because, Exprs, no_exprs, more, Args, no_args, arg, Body, done, stmt, Stmt, call,
  if_then, if_else, return_void, return_value,
}

-- How a body is left.
pub data Exit : Type 0 where
  at_end returned : Exit

abbrev pub is_lambda : Expr → Bool
is_lambda (expr _ (abs _ _ _ _)) = true
is_lambda _ = false

mutual
  pub data Evaluates : Expr → Type 0 where
    evaluates : {s : Sort} {x : Value} → EvaluatesValue x → Evaluates (expr s x)

  pub data EvaluatesValue : Value → Type 0 where
    of_atom : {a : Atom} → EvaluatesValue (atom a)
    of_boolean : {b : Bool} → EvaluatesValue (boolean_constant b)
    of_numeric : {n : ℤ} → EvaluatesValue (numeric_constant n)
    of_string : {t : String} → EvaluatesValue (string_literal t)
    of_var : {v : Var} → EvaluatesValue (var v)
    of_global : {m : Option String} {t : String} → EvaluatesValue (global m t)
    of_scopeof : {x : Expr} {n : ℕ} → EvaluatesValue (scopeof x n)
    of_not : {x : Expr} → Evaluates x → EvaluatesValue (boolean_not x)
    of_boolean_expr :
        {o : BooleanOp} {x y : Expr}
        → Evaluates x
        → Evaluates y
        → EvaluatesValue (boolean_expr o x y)
    of_relation_expr :
        {o : RelationOp} {x y : Expr}
        → Evaluates x
        → Evaluates y
        → EvaluatesValue (relation_expr o x y)
    of_arith_expr :
        {o : ArithOp} {x y : Expr} → Evaluates x → Evaluates y → EvaluatesValue (arith_expr o x y)
    of_app :
        {f : Expr} {xs : Exprs}
        → Evaluates f
        → Applies f
        → EvaluatesAll xs
        → EvaluatesValue (app f xs)
    of_abs :
        {m : IsMutable} {gs : Args} {r : Expr} {b : Body}
        → EvaluatesTypes gs
        → Evaluates r
        → EvaluatesValue (abs m gs r b)
    of_pi :
        {m : IsMutable} {gs : Args} {r : Expr}
        → EvaluatesTypes gs
        → Evaluates r
        → EvaluatesValue (pi m gs r)
    of_sigma : {gs : Args} → EvaluatesTypes gs → EvaluatesValue (sigma gs)
    of_addressof : {x : Expr} → Evaluates x → EvaluatesValue (addressof x)
    of_deref : {x : Expr} → Evaluates x → EvaluatesValue (deref x)
    of_init_list : {xs : Exprs} → EvaluatesAll xs → EvaluatesValue (init_list xs)
    of_member : {x : Expr} {t : String} → Evaluates x → EvaluatesValue (member x t)
    of_subscript : {x i : Expr} → Evaluates x → Evaluates i → EvaluatesValue (subscript x i)
    of_because : {x r : Expr} → Evaluates x → EvaluatesValue (because x r)

  -- The call of a function: of a lambda expression, a path through its body.
  pub data Applies : Expr → Type 0 where
    of_lambda :
        {s : Sort} {m : IsMutable} {gs : Args} {r : Expr} {b : Body} {e : Exit}
        → Executes b e
        → Applies (expr s (abs m gs r b))
    of_other : {f : Expr} → is_lambda f ≡ false → Applies f

  pub data EvaluatesAll : Exprs → Type 0 where
    all_none : EvaluatesAll no_exprs
    all_more : {x : Expr} {xs : Exprs} → Evaluates x → EvaluatesAll xs → EvaluatesAll (more x xs)

  pub data EvaluatesTypes : Args → Type 0 where
    types_none : EvaluatesTypes no_args
    types_more :
        {q : Qty} {t : Expr} {v : Option Var} {gs : Args}
        → Evaluates t
        → EvaluatesTypes gs
        → EvaluatesTypes (arg q t v gs)

  pub data ExecutesStmt : Stmt → Exit → Type 0 where
    calls :
        {f : Expr} {xs : Exprs}
        → Evaluates f
        → Applies f
        → EvaluatesAll xs
        → ExecutesStmt (call f xs) at_end
    if_taken :
        {c : Expr} {t : Body} {e : Exit} → Evaluates c → Executes t e → ExecutesStmt (if_then c t) e
    if_skipped : {c : Expr} {t : Body} → Evaluates c → ExecutesStmt (if_then c t) at_end
    true_branch :
        {c : Expr} {t f : Body} {e : Exit}
        → Evaluates c
        → Executes t e
        → ExecutesStmt (if_else c t f) e
    false_branch :
        {c : Expr} {t f : Body} {e : Exit}
        → Evaluates c
        → Executes f e
        → ExecutesStmt (if_else c t f) e
    returns_nothing : ExecutesStmt return_void returned
    returns_value : {x : Expr} → Evaluates x → ExecutesStmt (return_value x) returned

  pub data Executes : Body → Exit → Type 0 where
    ends : Executes done at_end
    leaves : (x : Stmt) (b : Body) → ExecutesStmt x returned → Executes (stmt x b) returned
    goes_on :
        (x : Stmt) (b : Body) {e : Exit}
        → ExecutesStmt x at_end
        → Executes b e
        → Executes (stmt x b) e

-- A test of each statement and of what follows it, at any depth, in the bodies of functions too.
module _ (p : Stmt → Body → Bool) where
  unfoldable mutual
    pub everywhere : Expr → Bool
    everywhere (expr _ x) = everywhere_value x

    pub everywhere_value : Value → Bool
    everywhere_value (boolean_not x) = everywhere x
    everywhere_value (boolean_expr _ x y) = everywhere x && everywhere y
    everywhere_value (relation_expr _ x y) = everywhere x && everywhere y
    everywhere_value (arith_expr _ x y) = everywhere x && everywhere y
    everywhere_value (app f xs) = everywhere f && everywhere_exprs xs
    everywhere_value (abs _ gs r b) = everywhere_args gs && (everywhere r && everywhere_body b)
    everywhere_value (pi _ gs r) = everywhere_args gs && everywhere r
    everywhere_value (sigma gs) = everywhere_args gs
    everywhere_value (addressof x) = everywhere x
    everywhere_value (deref x) = everywhere x
    everywhere_value (init_list xs) = everywhere_exprs xs
    everywhere_value (member x _) = everywhere x
    everywhere_value (subscript x i) = everywhere x && everywhere i
    everywhere_value (because x _) = everywhere x
    everywhere_value _ = true

    pub everywhere_exprs : Exprs → Bool
    everywhere_exprs no_exprs = true
    everywhere_exprs (more x xs) = everywhere x && everywhere_exprs xs

    pub everywhere_args : Args → Bool
    everywhere_args no_args = true
    everywhere_args (arg _ t _ gs) = everywhere t && everywhere_args gs

    pub everywhere_body : Body → Bool
    everywhere_body done = true
    everywhere_body (stmt x b) = p x b && (everywhere_stmt x && everywhere_body b)

    pub everywhere_stmt : Stmt → Bool
    everywhere_stmt (call f xs) = everywhere f && everywhere_exprs xs
    everywhere_stmt (if_then c t) = everywhere c && everywhere_body t
    everywhere_stmt (if_else c t f) = everywhere c && (everywhere_body t && everywhere_body f)
    everywhere_stmt (return_value x) = everywhere x
    everywhere_stmt _ = true
