-- ===== src/ScopeMap.antt =====
-- dep0/lib/00_core/include/dep0/scope_map.hpp: a dictionary that a nested scope inherits, with
-- shadowing. The keys are variables, as wherever the type checker uses it. Scopes share their parents
-- by pointer, so the states live on a heap and a `scope_map` is the address of its state. A pointer
-- to an element is the address of its state and its position in `data`, here `entries`.
pub mod Invariant
pub mod Lookup
pub mod Pointers
pub mod Stable
pub mod Values
use depc.Prelude.{
  ℕ, zero, suc, ◌+◌, ◌-◌, ◌^◌, Bool, true, false, Option, none, some, ltb, ◌==◌, if◌then◌else◌,
  List, [], ◌∷◌, ◌++◌, length, get_elem?,
}
use depc.Ast.{Var, var_eq}

-- `std::numeric_limits<std::size_t>::max()`
abbrev pub max_size : ℕ
max_size = 2 ^ 64 - 1

module _ (V : Type 0) where
  -- `state_t`: the entries in insertion order, and where each key's entry is.
  pub record State : Type 0 where
    pub parent : Option ℕ
    pub max_parent_index : ℕ
    pub entries : List (Var × V)
    pub index : List (Var × ℕ)

  -- The states that exist are those below `next`; each is younger than its parent.
  pub record Heap : Type 0 where
    pub states : ℕ → State
    pub next : ℕ

-- `std::map::find`
unfoldable pub find : Var → List (Var × ℕ) → Option ℕ
find k [] = none
find k (x ∷ xs) = if var_eq k x.0 then some x.1 else find k xs

-- Where the element is, if its position is below the limit, else what the parent has.
unfoldable pub within : Option ℕ → ℕ → ℕ → Option (ℕ × ℕ) → Option (ℕ × ℕ)
within none a limit above = above
within (some i) a limit above = if ltb i limit then some (a, i) else above

-- `s = s->parent.get()`, `while (s)`
unfoldable pub in_parent : Option ℕ → (ℕ → Option (ℕ × ℕ)) → Option (ℕ × ℕ)
in_parent none f = none
in_parent (some p) f = f p

module _ {V : Type 0} where
  -- `state_t()`
  abbrev pub root_state : State V
  root_state = record { parent = none; max_parent_index = max_size; entries = []; index = [] }

  -- `std::make_shared<state_t>`
  unfoldable pub allocate : State V → Heap V → ℕ × Heap V
  allocate s h =
      (h.next, record { states = λ a. if a == h.next then s else h.states a; next = suc h.next })

  unfoldable pub write : ℕ → State V → Heap V → Heap V
  write a s h = record h { states = λ b. if b == a then s else h.states b }

  -- `scope_map()`
  unfoldable pub new : Heap V → ℕ × Heap V
  unfolding allocate
  new h = allocate root_state h

  -- `extend() const`
  unfoldable pub extend : ℕ → Heap V → ℕ × Heap V
  unfolding allocate
  extend a h =
      allocate
        (record {
          parent = some a;
          max_parent_index = length (h.states a).entries;
          entries = [];
          index = [];
        })
        h

  -- `innermost_copy() const`
  unfoldable pub innermost_copy : ℕ → Heap V → ℕ × Heap V
  unfolding allocate
  innermost_copy a h = allocate (h.states a) h

  -- What `try_emplace` does to the state, from what the index has at the key.
  unfoldable pub emplace : Option ℕ → Var → V → State V → (ℕ × Bool) × State V
  emplace (some i) k v s = ((i, false), s)
  emplace none k v s =
      let i = length s.entries in
      ((i, true), record s { entries = s.entries ++ ((k, v) ∷ []); index = (k, i) ∷ s.index })

  -- `try_emplace`: the position of the element with the key, whether it is new, and the heap after.
  unfoldable pub try_emplace : ℕ → Var → V → Heap V → (ℕ × Bool) × Heap V
  unfolding emplace write find
  try_emplace a k v h =
      let r = emplace (find k (h.states a).index) k v (h.states a) in (r.0, write a r.1 h)

  -- The loop of `operator[]`; it visits older and older states.
  unfoldable pub search_from : ℕ → Heap V → Var → ℕ → ℕ → Option (ℕ × ℕ)
  unfolding within in_parent find
  search_from zero h k a limit = none
  search_from (suc n) h k a limit =
      let s = h.states a in
      within (find k s.index) a limit
        (in_parent s.parent (λ p. search_from n h k p s.max_parent_index))

  -- `operator[]`: a pointer to the element, or none.
  unfoldable pub lookup : Heap V → ℕ → Var → Option (ℕ × ℕ)
  unfolding search_from
  lookup h a k = search_from (suc a) h k a max_size

  -- What a pointer points to.
  unfoldable pub element : Heap V → ℕ × ℕ → Option (Var × V)
  element h p = get_elem? (h.states p.0).entries p.1
