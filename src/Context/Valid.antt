-- ===== src/Context/Valid.antt =====
-- Well-formed contexts of context.cpp, and what is declared in the innermost scope.
use depc.Prelude.{
  ◌==◌, ℕ, ◌<◌, ◌≡◌, refl, Bool, true, false, String, Option, none, some, length, if◌then◌else◌,
  arith,
}
use text.Mathlib.Text.{◌==◌ as str_eq}
use depc.Ast.{Var, var_eq}
use depc.ScopeMap.{Heap, find, emplace, try_emplace, max_size}
use depc.ScopeMap.Stable.{IsHeap, b_state}
use depc.Ast.Index.{==-refl}
use depc.ScopeMap.Invariant.{IsHeap-new}
use depc.Context.{ScopeFlavour, Context, Store, key, new_context}

unfoldable pub is_some : {A : Type 0} → Option A → Bool
is_some none = false
is_some (some x) = true

-- Is the name declared in the innermost scope?
unfoldable pub is_own : Store → Context → String → Bool
unfolding is_some
is_own st c n = is_some (find (key n) (st.names.states c.index).index)

-- The heaps are well formed, the context exists, its innermost scope has room, and whatever is declared
-- there has a name that is known there, or is unnamed.
pub record IsContext (st : Store) (c : Context) : Type 0 where
  pub names_ok : IsHeap st.names
  pub decls_ok : IsHeap st.decls
  pub index_lt : c.index < st.names.next
  pub values_lt : c.values < st.decls.next
  pub is_synced :
      (v : Var) (i : ℕ)
      → find v (st.decls.states c.values).index ≡ some i
      → is_own st c v.name ≡ false
      → v.name ≡ "auto"

-- There is room for one more declaration.
pub record HasRoom (st : Store) (c : Context) : Type 0 where
  pub names_room : length (st.names.states c.index).entries < max_size
  pub decls_room : length (st.decls.states c.values).entries < max_size

pub var_eq-key : (m n : String) → var_eq (key m) (key n) ≡ str_eq m n
unfolding var_eq
var_eq-key m n = ground arith

-- What the index of the innermost scope has after an insertion of a new key.
pub find-try_emplace :
    {V : Type 0} (h : Heap V) (H : IsHeap h) (a : ℕ) (k u : Var) (v : V)
    → find k (h.states a).index ≡ none
    → find u ((try_emplace a k v h).1.states a).index
      ≡ (if var_eq u k then some (length (h.states a).entries) else find u (h.states a).index)
unfolding emplace find
find-try_emplace h H a k u v e = rw (b_state h H a k v, e) refl

pub next-try_emplace :
    {V : Type 0} (h : Heap V) (a : ℕ) (k : Var) (v : V) → (try_emplace a k v h).1.next ≡ h.next
unfolding try_emplace
next-try_emplace h a k v = refl

-- A new context on well-formed heaps.
pub IsContext-new_context :
    (f : ScopeFlavour) (st : Store)
    → IsHeap st.names
    → IsHeap st.decls
    → IsContext (new_context f st).1 (new_context f st).0
unfolding new_context find
IsContext-new_context f st H K =
    let e : (st.decls.next == st.decls.next) ≡ true = ==-refl st.decls.next in
    record {
      names_ok = IsHeap-new st.names H;
      decls_ok = IsHeap-new st.decls K;
      index_lt = omega arith;
      values_lt = omega arith;
      is_synced = λ v i d o. absurd (ground (arith, rw e at d));
    }
