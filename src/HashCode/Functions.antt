-- ===== src/HashCode/Functions.antt =====
-- The hash code of a function when one of its arguments is renamed.
use depc.Prelude.{ℕ, ◌≡◌, refl, ap, ap₂, ◌∙◌, sym, false, ◌||◌, [], Option, none, some, arith}
use depc.Qty.{Qty}
use depc.Ast.{Var, Expr, expr, Sort, IsMutable, Args, Body, Signature}
use depc.Ast.Vars.{var_eq_refl, var_eq→eq, var_eq_sym}
use depc.Ast.OccursIn.{anywhere, occurs_in, occurs_in_args, occurs_in_signature, occurs_in_optional}
use depc.Ast.Replace.{replace_var, replace, replace_args, replace_signature, replace_optional}
use depc.Ast.Replace.Absent.{absent}
use depc.Ast.Replace.Undo.{rest_false}
use depc.Ast.Index.{value_index}
use depc.Substitute.{function, add_arg}
use depc.HashCode.{
  HashFunctions, HashState, find, find_id, store, store_name, after_storing, ◌>>=◌, return, Hashing,
  hash_expr, hash_args, hash_body, hash_code, combine,
}
use depc.HashCode.Relabelled.{IsRelabelled, IsSame, IsSame-return, IsSame-bind}
use depc.HashCode.Renaming.{IsSame-expr, IsSame-args, IsSame-body}

abbrev empty : HashState
empty = record { next_id = 0; unique_var_id = [] }

first_stored : (x y : Var) → IsRelabelled x y (store x empty) (store y empty)
unfolding store find find_id replace_var
first_stored x y = record {
  same_next = refl;
  number = 0;
  is_bound = ground (arith, var_eq_refl x);
  same_number = λ z h. ground (
    arith,
    var_eq→eq z x,
    var_eq→eq x z,
    var_eq_refl x,
    var_eq_refl y,
    var_eq_sym z y,
    var_eq_sym x z,
  );
}

module _ (b : HashFunctions) (m : IsMutable) (q : Qty) where
  -- What follows the type of the first argument, in a Pi-type and in an abstraction.
  after_type : Args → Expr → Option Body → ℕ → Hashing
  after_type gs a none n = do
    h ← hash_args b (combine b (combine b 0 (b.hash_qty q)) n) gs
    k ← hash_expr b a
    return (combine b (b.hash_mutable m) (combine b h k))
  after_type gs a (some d) n = do
    h ← hash_args b (combine b (combine b 0 (b.hash_qty q)) n) gs
    k ← hash_expr b a
    l ← hash_body b 0 d
    return (combine b (b.hash_mutable m) (combine b (combine b h k) l))

  hash_function :
      (s : Sort) (t : Expr) (x : Var) (gs : Args) (a : Expr) (d : Option Body)
      → (let g : Signature = record { args = gs; ret_type = a; body = d } in
          hash_code b (expr s (function m (add_arg q t (some x) g)))
          ≡ combine b
              (value_index (function m (add_arg q t (some x) g)))
              ((hash_expr b t >>= after_type gs a d) (store x empty)).0)
  unfolding hash_code hash_expr function after_type ◌>>=◌ after_storing store_name return
  hash_function s t x gs a none = refl
  hash_function s t x gs a (some d) = refl

  function_index :
      (t u : Expr) (x y : Var) (gs hs : Args) (a c : Expr) (d : Option Body)
      → value_index
          (function m (add_arg q t (some x) (record { args = gs; ret_type = a; body = d })))
        ≡ value_index (
            function m (
              add_arg q u
                (some y)
                (record { args = hs; ret_type = c; body = replace_optional x y d })))
  unfolding function value_index replace_optional
  function_index t u x y gs hs a c none = refl
  function_index t u x y gs hs a c (some d) = refl

  module _ (x y : Var) where
    IsSame-after_type :
        (gs : Args) (a : Expr) (d : Option Body) (n : ℕ)
        → occurs_in_args y anywhere gs (occurs_in y anywhere a || occurs_in_optional y anywhere d)
          ≡ false
        → IsSame x y
            (after_type gs a d n)
            (after_type (replace_args x y gs) (replace x y a) (replace_optional x y d) n)
    unfolding after_type replace_optional occurs_in_optional
    IsSame-after_type gs a none n h = IsSame-bind x y _ _ _ _ (IsSame-args b x y _ gs _ h) (λ h'.
        IsSame-bind x y _ _ _ _ (IsSame-expr b x y a (ground (arith, rest_false y gs _ h)))
          (λ k. IsSame-return x y _))
    IsSame-after_type gs a (some d) n h =
        IsSame-bind x y _ _ _ _ (IsSame-args b x y _ gs _ h) (λ h'.
          IsSame-bind x y _ _ _ _ (IsSame-expr b x y a (ground (arith, rest_false y gs _ h))) (λ k.
            IsSame-bind x y _ _ _ _ (IsSame-body b x y 0 d (ground (arith, rest_false y gs _ h)))
              (λ l. IsSame-return x y _)))

-- The hash code of a Pi-type or an abstraction stays the same when one of its arguments, here the first,
-- is renamed in all that follows it to a name that occurs nowhere in the function, provided that the old
-- name does not occur in the type of the argument. This holds for any hash functions.
pub hash_code-renamed :
    (b : HashFunctions) (s p : Sort) (m : IsMutable) (q : Qty) (t : Expr) (x y : Var)
    (g : Signature)
    → occurs_in x anywhere t ≡ false
    → occurs_in y anywhere t ≡ false
    → occurs_in_signature y anywhere g ≡ false
    → hash_code b (expr s (function m (add_arg q t (some x) g)))
      ≡ hash_code b (expr p (function m (add_arg q t (some y) (replace_signature x y g))))
unfolding replace_signature occurs_in_signature
hash_code-renamed b s p m q t x y g hx hy h =
    let f = replace_signature x y g in
    let u =
      IsSame-bind x y _ _ _ _ (IsSame-expr b x y t hy)
        (λ n. IsSame-after_type b m q x y g.args g.ret_type g.body n h) in
    hash_function b m q s t x g.args g.ret_type g.body
    ∙ ap₂ (combine b) (function_index b m q t t x y g.args f.args g.ret_type f.ret_type g.body) (
        sym (u.value (store x empty) (store y empty) (first_stored x y))
        ∙ ap
            (λ e. ((hash_expr b e >>= after_type b m q f.args f.ret_type f.body) (store y empty)).0)
            (absent x y t hx))
    ∙ sym (hash_function b m q p t y f.args f.ret_type f.body)
