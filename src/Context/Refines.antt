-- ===== src/Context/Refines.antt =====
-- Contexts of context.cpp against an abstract description of scoping.
use depc.Prelude.{
  ℕ, ◌≡◌, ◌≢◌, refl, ap, ap₂, sym, ◌∙◌, true, false, String, Option, none, some, length, Bool-cases,
  inl, inr, if◌then◌else◌, arith,
}
use text.Mathlib.Text.{◌==◌ as str_eq}
use mathlib.Core.Path.{subst}
use depc.Qty.{Qty}
use depc.Ast.{Var, var_eq, Expr}
use depc.Ast.Index.{str_eq_refl}
use depc.Ast.Vars.{var_eq→eq}
use depc.ScopeMap.{find, try_emplace}
use depc.ScopeMap.Invariant.{IsHeap-operations}
use depc.ScopeMap.Values.{value_at, value_at-try_emplace}
use depc.Context.{
  Context, Store, Declaration, Location, emplaced, cannot_redefine, key, find_var, var_of_name,
  find_optional, next_shadow_id, emplace_value, try_emplace_name,
}
use depc.Context.Valid.{
  is_some, is_own, IsContext, HasRoom, var_eq-key, find-try_emplace, next-try_emplace,
}
use depc.Context.Scoping.{scoping, declaration_of, shadows, shadowing_var, declare, declared_as}
use depc.Context.Inserted.{
  none_of_is_some, some_of_is_some, inserted-absent, inserted-present, try_emplace-present,
}

next_shadow_id-shadows : (o : Option Var) → next_shadow_id o ≡ shadows o
unfolding next_shadow_id shadows
next_shadow_id-shadows none = refl
next_shadow_id-shadows (some x) = omega arith

module _ (st : Store) (c : Context) (C : IsContext st c) (n : String) (loc : Option Location)
    (q : Qty) (t : Expr) where
  -- What `try_emplace_name` and `declare` should agree on.
  abbrev IsRefined : Type 0
  IsRefined =
      let r = try_emplace_name n loc q t c st in
      let s = declare n (declared_as loc q t c) (scoping st c) in
      (r.0 ≡ s.0) × (scoping r.1 c ≡ s.1) × IsContext r.1 c

  declaration_of-scoping : (o : Option Var) → find_optional st c o ≡ declaration_of (scoping st c) o
  unfolding find_optional declaration_of scoping
  declaration_of-scoping none = refl
  declaration_of-scoping (some x) = refl

  redefined_code :
      is_own st c n ≡ true
      → try_emplace_name n loc q t c st
        ≡ (cannot_redefine n (find_optional st c (var_of_name st c n)), st)
  unfolding try_emplace_name emplace_value is_own
  redefined_code e =
      let prev = var_of_name st c n in
      let x : Var = record { name = n; idx = 0; shadow_id = next_shadow_id prev } in
      let i = some_of_is_some _ e in
      ap₂ (λ b h. emplace_value b n x (declared_as loc q t c x) prev c (record st { names = h }))
        (inserted-present st.names C.names_ok c.index (key n) x i.0 i.1)
        (try_emplace-present st.names C.names_ok c.index (key n) x i.0 i.1)

  redefined_description :
      is_own st c n ≡ true
      → declare n (declared_as loc q t c) (scoping st c)
        ≡ (cannot_redefine n (declaration_of (scoping st c) (var_of_name st c n)), scoping st c)
  unfolding declare scoping
  redefined_description e = rw e refl

  redefined : is_own st c n ≡ true → IsRefined
  redefined e =
      let r = redefined_code e in
      let s = redefined_description e in
      (
        ap (λ p. p.0) r
            ∙ ap (cannot_redefine n) (declaration_of-scoping (var_of_name st c n))
            ∙ sym (ap (λ p. p.0) s),
        ap (λ p. scoping p.1 c) r ∙ sym (ap (λ p. p.1) s),
        subst (λ p. IsContext p.1 c) (sym r) C,
      )

  module _ (e : is_own st c n ≡ false) (m : n ≢ "auto") (room : HasRoom st c) where
    abbrev new_var : Var
    new_var = shadowing_var n (scoping st c)

    abbrev new_declaration : Declaration
    new_declaration = declared_as loc q t c new_var

    abbrev after : Store
    after = record st {
      names = (try_emplace c.index (key n) new_var st.names).1;
      decls = (try_emplace c.values new_var new_declaration st.decls).1;
    }

    absent_name : find (key n) (st.names.states c.index).index ≡ none
    unfolding is_own
    absent_name = none_of_is_some _ e

    absent_var : find new_var (st.decls.states c.values).index ≡ none
    unfolding shadowing_var
    absent_var = none_unless (find new_var (st.decls.states c.values).index) refl
      where
        none_unless : (o : Option ℕ) → find new_var (st.decls.states c.values).index ≡ o → o ≡ none
        none_unless none d = refl
        none_unless (some i) d = absurd (m (C.is_synced new_var i d e))

    first_code : try_emplace_name n loc q t c st ≡ (emplaced new_var, after)
    unfolding try_emplace_name emplace_value shadowing_var scoping
    first_code =
        let prev = var_of_name st c n in
        ap
          (λ k.
            let x : Var = record { name = n; idx = 0; shadow_id = k } in
            let r = try_emplace c.index (key n) x st.names in
            emplace_value r.0.1 n x (declared_as loc q t c x) prev c (record st { names = r.1 }))
          (next_shadow_id-shadows prev)
        ∙ ap
            (λ b.
              emplace_value b n new_var new_declaration prev c
                (record st { names = (try_emplace c.index (key n) new_var st.names).1 }))
            (inserted-absent st.names C.names_ok c.index (key n) new_var absent_name)

    first_description : declare n (declared_as loc q t c) (scoping st c) ≡ (
      emplaced new_var,
      record {
        innermost = λ l. if str_eq l n then some new_var else var_of_name st c l;
        declaration = λ v. if var_eq v new_var then some new_declaration else find_var st c v;
        own = λ l. if str_eq l n then true else is_own st c l;
      },
    )
    unfolding declare scoping
    first_description = rw e refl

    own_after : (l : String) → is_own after c l ≡ (if str_eq l n then true else is_own st c l)
    unfolding is_own is_some
    own_after l =
        ap is_some
          (find-try_emplace st.names C.names_ok c.index (key n) (key l) new_var absent_name)
        ∙ ap
            (λ b. is_some (
              if b
              then some (length (st.names.states c.index).entries)
              else find (key l) (st.names.states c.index).index))
            (var_eq-key l n)
        ∙ ground arith

    innermost_after :
        (l : String)
        → var_of_name after c l ≡ (if str_eq l n then some new_var else var_of_name st c l)
    unfolding var_of_name
    innermost_after l =
        value_at-try_emplace st.names C.names_ok c.index C.index_lt room.names_room (key n) (key l)
          new_var absent_name
        ∙ ap (λ b. if b then some new_var else value_at st.names c.index (key l)) (var_eq-key l n)

    declaration_after :
        (v : Var)
        → find_var after c v ≡ (if var_eq v new_var then some new_declaration else find_var st c v)
    unfolding find_var
    declaration_after v =
        value_at-try_emplace st.decls C.decls_ok c.values C.values_lt room.decls_room new_var v
          new_declaration absent_var

    synced_after :
        (v : Var) (i : ℕ)
        → find v (after.decls.states c.values).index ≡ some i
        → is_own after c v.name ≡ false
        → v.name ≡ "auto"
    unfolding shadowing_var
    synced_after v i d o =
        let f =
          find-try_emplace st.decls C.decls_ok c.values new_var v new_declaration absent_var in
        elim (Bool-cases (var_eq v new_var)) [
          | inl p ↦
              let w : v.name ≡ n = ap (λ (x : Var). x.name) (var_eq→eq v new_var p) in
              absurd (ground (arith, o, own_after v.name, ap (λ l. str_eq l n) w, str_eq_refl n))
          | inr p ↦ C.is_synced v i (ground (arith, f, d, p)) (ground (arith, o, own_after v.name))
        ]

    IsContext-after : IsContext after c
    IsContext-after = record {
      names_ok = (IsHeap-operations st.names C.names_ok c.index C.index_lt (key n) new_var).3;
      decls_ok =
          (IsHeap-operations st.decls C.decls_ok c.values C.values_lt new_var new_declaration).3;
      index_lt = omega (arith, C.index_lt, next-try_emplace st.names c.index (key n) new_var);
      values_lt =
          omega (arith, C.values_lt, next-try_emplace st.decls c.values new_var new_declaration);
      is_synced = synced_after;
    }

    first : IsRefined
    unfolding scoping
    first = (
      ap (λ p. p.0) first_code ∙ sym (ap (λ p. p.0) first_description),
      ap (λ p. scoping p.1 c) first_code
          ∙ (λ j. record {
            innermost = λ l. innermost_after l j;
            declaration = λ v. declaration_after v j;
            own = λ l. own_after l j;
          })
          ∙ sym (ap (λ p. p.1) first_description),
      subst (λ p. IsContext p.1 c) (sym first_code) IsContext-after,
    )

-- `try_emplace` does what scoping means. In a well-formed context with room, declaring a name other than
-- "auto", which is what unnamed variables are called, gives the result that `declare` gives on what the
-- context amounts to: if the innermost scope has the name, an error that carries its declaration, and
-- nothing changes; else a variable that shadows the innermost one of the name, which from then on is the
-- innermost one and has the declaration, while every other name and variable keeps its own. The
-- context stays well formed.
pub try_emplace_name-declare :
    (st : Store) (c : Context)
    → IsContext st c
    → HasRoom st c
    → (n : String) → n ≢ "auto"
    → (loc : Option Location) (q : Qty) (t : Expr)
    → (let r = try_emplace_name n loc q t c st in
        let s = declare n (declared_as loc q t c) (scoping st c) in
        (r.0 ≡ s.0) × (scoping r.1 c ≡ s.1) × IsContext r.1 c)
try_emplace_name-declare st c C room n m loc q t = elim (Bool-cases (is_own st c n)) [
  | inl e ↦ redefined st c C n loc q t e
  | inr e ↦ first st c C n loc q t e m room
]
