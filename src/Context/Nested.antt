-- ===== src/Context/Nested.antt =====
-- Contexts that are made from other contexts, in the model of context.cpp.
use depc.Prelude.{
  ℕ, suc, ◌<◌, ◌≡◌, ◌≢◌, refl, ap, ◌∙◌, Bool, true, false, String, Option, none, arith, ◌==◌,
}
use depc.Qty.{Qty}
use depc.Ast.{Var, Expr}
use depc.Ast.Index.{==-refl}
use depc.ScopeMap.{State, Heap, find, extend, try_emplace}
use depc.ScopeMap.Invariant.{IsHeap-extend}
use depc.ScopeMap.Stable.{after_states}
use depc.ScopeMap.Values.{
  value_at, value_at-try_emplace_other, value_at-extend, value_at-extend_other,
}
use depc.Context.{
  ScopeFlavour, Context, Store, Declaration, Location, key, find_var, var_of_name, extend_as,
  emplace_value, try_emplace_name,
}
use depc.Context.Valid.{is_some, is_own, IsContext, HasRoom}
use depc.Context.Scoping.{scoping}

module _ {V : Type 0} (h : Heap V) (a : ℕ) where
  find-extend : (u : Var) → find u ((extend a h).1.states (extend a h).0).index ≡ none
  unfolding extend find
  find-extend u = rw (==-refl h.next) refl

  states-extend : (b : ℕ) → b < h.next → (extend a h).1.states b ≡ h.states b
  unfolding extend
  states-extend b l = let e : (b == h.next) ≡ false = ground arith in rw e refl

  next-extend : (extend a h).1.next ≡ suc h.next
  unfolding extend
  next-extend = refl

  address-extend : (extend a h).0 ≡ h.next
  unfolding extend
  address-extend = refl

module _ (st : Store) (c : Context) (C : IsContext st c) (f : ScopeFlavour) where
  abbrev child : Context
  child = (extend_as f c st).0

  abbrev with_child : Store
  with_child = (extend_as f c st).1

  scoping-child :
      HasRoom st c → scoping with_child child ≡ record (scoping st c) { own = λ m. false }
  unfolding scoping extend_as find_var var_of_name is_own
  scoping-child r = λ j. record {
    innermost = λ n.
        value_at-extend st.names C.names_ok c.index C.index_lt (omega (arith, r.names_room)) (key n)
          j;
    declaration = λ v.
        value_at-extend st.decls C.decls_ok c.values C.values_lt (omega (arith, r.decls_room)) v j;
    own = λ n. ap is_some (find-extend st.names c.index (key n)) j;
  }

  IsContext-child : IsContext with_child child
  unfolding extend_as is_own
  IsContext-child = record {
    names_ok = IsHeap-extend st.names C.names_ok c.index C.index_lt;
    decls_ok = IsHeap-extend st.decls C.decls_ok c.values C.values_lt;
    index_lt = omega (arith, next-extend st.names c.index, address-extend st.names c.index);
    values_lt = omega (arith, next-extend st.decls c.values, address-extend st.decls c.values);
    is_synced = λ v i e o. absurd (ground (arith, e, find-extend st.decls c.values v));
  }

  scoping-parent : scoping with_child c ≡ scoping st c
  unfolding scoping extend_as find_var var_of_name is_own
  scoping-parent = λ j. record {
    innermost = λ n. value_at-extend_other st.names C.names_ok c.index c.index C.index_lt (key n) j;
    declaration = λ v. value_at-extend_other st.decls C.decls_ok c.values c.values C.values_lt v j;
    own = λ n.
        ap (λ s. is_some (find (key n) s.index)) (states-extend st.names c.index c.index C.index_lt)
          j;
  }

  IsContext-parent : IsContext with_child c
  unfolding extend_as is_own
  IsContext-parent =
      let e = states-extend st.names c.index c.index C.index_lt in
      let d = states-extend st.decls c.values c.values C.values_lt in
      record {
        names_ok = IsHeap-extend st.names C.names_ok c.index C.index_lt;
        decls_ok = IsHeap-extend st.decls C.decls_ok c.values C.values_lt;
        index_lt = omega (arith, C.index_lt, next-extend st.names c.index);
        values_lt = omega (arith, C.values_lt, next-extend st.decls c.values);
        is_synced = λ v i p o. C.is_synced v i (rw d at p) (rw e at o);
      }

  other_index : c.index ≢ child.index
  unfolding extend_as
  other_index e = absurd (omega (arith, e, C.index_lt, address-extend st.names c.index))

  other_address : c.values ≢ child.values
  unfolding extend_as
  other_address e = absurd (omega (arith, e, C.values_lt, address-extend st.decls c.values))

-- What another context sees of a declaration.
module _ (st : Store) (c d : Context) (C : IsContext st c) (i : c.index ≢ d.index)
    (j : c.values ≢ d.values) where
  other_values :
      (b : Bool) (n : String) (x : Var) (new : Declaration) (prev : Option Var) (names : Heap Var)
      → (v : Var)
      → find_var (emplace_value b n x new prev d (record st { names = names })).1 c v
        ≡ find_var st c v
  unfolding emplace_value find_var
  other_values true n x new prev names v =
      value_at-try_emplace_other st.decls C.decls_ok c.values d.values C.values_lt j x v new
  other_values false n x new prev names v = refl

  other_names :
      (b : Bool) (n : String) (x : Var) (new : Declaration) (prev : Option Var) (names : Heap Var)
      → (emplace_value b n x new prev d (record st { names = names })).1.names ≡ names
  unfolding emplace_value
  other_names true n x new prev names = refl
  other_names false n x new prev names = refl

  other_emplaced :
      (b : Bool) (n : String) (x y : Var) (new : Declaration) (prev : Option Var)
      → (let names = (try_emplace d.index (key n) y st.names).1 in
          scoping (emplace_value b n x new prev d (record st { names = names })).1 c ≡ scoping st c)
  unfolding scoping var_of_name is_own
  other_emplaced b n x y new prev =
      let names = (try_emplace d.index (key n) y st.names).1 in
      let same = other_names b n x new prev names in
      λ k. record {
        innermost = λ m.
            (ap (λ h. value_at h c.index (key m)) same
                ∙ value_at-try_emplace_other st.names C.names_ok c.index d.index C.index_lt i
                    (key n) (key m) y)
              k;
        declaration = λ v. other_values b n x new prev names v k;
        own = λ m.
            (ap (λ (h : Heap Var). is_some (find (key m) (h.states c.index).index)) same
                ∙ ap (λ (s : State Var). is_some (find (key m) s.index))
                    (after_states st.names C.names_ok d.index (key n) y c.index i))
              k;
      }

  scoping-other :
      (n : String) (loc : Option Location) (q : Qty) (t : Expr)
      → scoping (try_emplace_name n loc q t d st).1 c ≡ scoping st c
  unfolding try_emplace_name
  scoping-other n loc q t = other_emplaced _ n _ _ _ _

-- Where both maps of a context have fewer entries than `std::size_t` counts, a context made from a
-- well-formed one with `extend`, `extend_scoped` or `extend_unscoped` amounts to the same, except that
-- every name can be declared again, and the one that it was made from amounts to what it did; both are well
-- formed. Declaring any name in the new context, shadowing included, leaves the one it was made from as it
-- was.
pub extend_as-scoping :
    (st : Store) (c : Context)
    → IsContext st c
    → HasRoom st c
    → (f : ScopeFlavour)
    → (let r = extend_as f c st in
        (scoping r.1 r.0 ≡ record (scoping st c) { own = λ n. false })
        × (scoping r.1 c ≡ scoping st c)
        × IsContext r.1 r.0
        × IsContext r.1 c
        × ((n : String) (loc : Option Location) (q : Qty) (t : Expr)
            → scoping (try_emplace_name n loc q t r.0 r.1).1 c ≡ scoping st c))
extend_as-scoping st c C r f = (
  scoping-child st c C f r,
  scoping-parent st c C f,
  IsContext-child st c C f,
  IsContext-parent st c C f,
  λ n loc q t.
      scoping-other (with_child st c C f) c (child st c C f) (IsContext-parent st c C f)
        (other_index st c C f) (other_address st c C f) n loc q t
      ∙ scoping-parent st c C f,
)
