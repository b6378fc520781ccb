-- ===== src/HashCode/Relabelled.antt =====
-- Hash codes before and after one variable is replaced by another, in the model of hash_code_impl.hpp.
use depc.Prelude.{
  ℕ, suc, ◌≡◌, refl, ap, ◌∙◌, Bool-cases, inl, inr, false, Option, none, some, if◌then◌else◌, arith,
}
use depc.Ast.{Var, var_eq, is_var}
use depc.Ast.Vars.{var_eq_refl, var_eq→eq, var_eq_sym}
use depc.Ast.Replace.{replace_var, replace_name}
use depc.HashCode.{
  HashFunctions, HashState, find, find_id, store, store_name, Hashing, ◌>>=◌, return, after_storing,
  hash_var, number_of,
}

module _ (from to : Var) where
  -- `t` knows `to` by the number that `s` knows `from` by, and every other variable but `to` as `s` does.
  pub record IsRelabelled (s t : HashState) : Type 0 where
    pub same_next : t.next_id ≡ s.next_id
    pub number : ℕ
    pub is_bound : find s from ≡ some number
    pub same_number : (x : Var) → var_eq x to ≡ false → find t (replace_var from to x) ≡ find s x

  -- Two computations that give the same number from states that correspond, and leave such states.
  pub record IsSame (m k : Hashing) : Type 0 where
    pub value : (s t : HashState) → IsRelabelled s t → (k t).0 ≡ (m s).0
    pub state : (s t : HashState) → IsRelabelled s t → IsRelabelled (m s).1 (k t).1

  pub IsSame-return : (n : ℕ) → IsSame (return n) (return n)
  unfolding return
  IsSame-return n = record { value = λ s t r. refl; state = λ s t r. r }

  pub IsSame-bind :
      (m k : Hashing) (f : ℕ → Hashing) (g : ℕ → Hashing)
      → IsSame m k
      → ((n : ℕ) → IsSame (f n) (g n))
      → IsSame (m >>= f) (k >>= g)
  unfolding ◌>>=◌
  IsSame-bind m k f g u v = record {
    value = λ s t r. rw (u.value s t r, ◌>>=◌) ((v (m s).0).value (m s).1 (k t).1 (u.state s t r));
    state = λ s t r. rw (u.value s t r, ◌>>=◌) ((v (m s).0).state (m s).1 (k t).1 (u.state s t r));
  }

  -- Replacing keeps different variables different.
  same_test :
      (x y : Var)
      → var_eq x to ≡ false
      → var_eq y to ≡ false
      → var_eq (replace_var from to x) (replace_var from to y) ≡ var_eq x y
  unfolding replace_var
  same_test x y h k = ground (
    arith,
    var_eq→eq x from,
    var_eq→eq y from,
    var_eq→eq to y,
    var_eq_refl y,
    var_eq_refl to,
    var_eq_refl from,
    var_eq_sym from y,
  )

  same_store :
      (x : Var) (s t : HashState)
      → var_eq x to ≡ false
      → IsRelabelled s t
      → IsRelabelled (store x s) (store (replace_var from to x) t)
  unfolding store find find_id
  same_store x s t h r = record {
    same_next = ap suc r.same_next;
    number = if var_eq x from then s.next_id else r.number;
    is_bound = ground (arith, r.is_bound);
    same_number = λ y k. ground (arith, same_test x y h k, r.same_number y k, r.same_next);
  }

  renamed_name : (x : Var) → replace_name from to (some x) ≡ some (replace_var from to x)
  unfolding replace_name replace_var is_var
  renamed_name x = ground arith

  no_name : replace_name from to none ≡ none
  unfolding replace_name is_var
  no_name = refl

  pub IsSame-after_storing :
      (x : Option Var) (m k : Hashing)
      → is_var x to ≡ false
      → IsSame m k
      → IsSame (after_storing x m) (after_storing (replace_name from to x) k)
  unfolding after_storing store_name is_var
  IsSame-after_storing none m k h u =
      rw no_name (record { value = λ s t r. u.value s t r; state = λ s t r. u.state s t r })
  IsSame-after_storing (some x) m k h u = rw (renamed_name x) (record {
    value = λ s t r. u.value _ _ (same_store x s t h r);
    state = λ s t r. u.state _ _ (same_store x s t h r);
  })

  found :
      (b : HashFunctions) (y x : Var) (o : Option ℕ) (n : ℕ)
      → o ≡ some n
      → number_of b y o ≡ number_of b x o
  unfolding number_of
  found b y x o n h = rw h refl

  kept_var : (x : Var) → var_eq x from ≡ false → replace_var from to x ≡ x
  unfolding replace_var
  kept_var x h = rw h

  pub IsSame-var :
      (b : HashFunctions) (x : Var)
      → var_eq x to ≡ false
      → IsSame (hash_var b x) (hash_var b (replace_var from to x))
  unfolding hash_var
  IsSame-var b x h = record { value = λ s t r. IsSame-value s t r; state = λ s t r. r }
    where
      IsSame-value :
          (s t : HashState)
          → IsRelabelled s t
          → number_of b (replace_var from to x) (find t (replace_var from to x))
            ≡ number_of b x (find s x)
      IsSame-value s t r = rw (r.same_number x h) (elim (Bool-cases (var_eq x from)) [
        | inl p ↦
            found b (replace_var from to x) x (find s x) (r.number)
              (ap (find s) (var_eq→eq x from p) ∙ r.is_bound)
        | inr p ↦ ap (λ y. number_of b y (find s x)) (kept_var x p)
      ])
