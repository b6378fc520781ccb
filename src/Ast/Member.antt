-- ===== src/Ast/Member.antt =====
-- dep0/lib/01_ast/include/dep0/ast/find_member_field.hpp: the field that a member access names. The end
-- iterator is the number of fields.
use depc.Prelude.{
  ℕ, zero, suc, ◌<◌, ◌≡◌, ◌⊎◌, refl, ap, Bool, true, false, ◌&&◌, Option, none, some, List, [], ◌∷◌,
  get_elem?, length, ◌==◌, if◌then◌else◌, String, Bool-cases, inl, inr, arith,
}
use text.Mathlib.Text.{◌==◌ as str_eq}
use depc.Ast.{Var, Expr}

-- `type_def_t::struct_t::field_t`
pub record Field : Type 0 where
  pub field_type : Expr
  pub var : Var

-- `s.fields[i].var.idx == 0ul and s.fields[i].var.name == field_name`
unfoldable pub is_named : String → Field → Bool
is_named x f = (f.var.idx == 0) && str_eq f.var.name x

unfoldable pub next_index : Option ℕ → Option ℕ
next_index none = none
next_index (some i) = some (suc i)

unfoldable pub find_member_index : String → List Field → Option ℕ
unfolding is_named next_index
find_member_index x [] = none
find_member_index x (f ∷ fs) =
    let others = find_member_index x fs in if is_named x f then some zero else next_index others

unfoldable pub index_or_end : Option ℕ → ℕ → ℕ
index_or_end none n = n
index_or_end (some i) n = i

unfoldable pub find_member_field : String → List Field → ℕ
unfolding find_member_index index_or_end
find_member_field x fs = index_or_end (find_member_index x fs) (length fs)

-- Is there a field, and has it the name, and was it not renamed?
abbrev pub named_at : String → Option Field → Bool
named_at x none = false
named_at x (some f) = (f.var.idx == 0) && str_eq f.var.name x

index_or_end-next :
    (o : Option ℕ) (n : ℕ) → index_or_end (next_index o) (suc n) ≡ suc (index_or_end o n)
unfolding index_or_end next_index
index_or_end-next none n = refl
index_or_end-next (some i) n = refl

module _ (x : String) where
  find_more :
      (b : Bool) (o : Option ℕ) (n : ℕ)
      → index_or_end (if b then some zero else next_index o) (suc n)
        ≡ (if b then zero else suc (index_or_end o n))
  unfolding index_or_end
  find_more true o n = refl
  find_more false o n = index_or_end-next o n

  find_member_field-more :
      (f : Field) (fs : List Field)
      → find_member_field x (f ∷ fs) ≡ (if is_named x f then zero else suc (find_member_field x fs))
  unfolding find_member_field
  find_member_field-more f fs = find_more (is_named x f) (find_member_index x fs) (length fs)

  no_field : find_member_field x [] ≡ 0
  unfolding find_member_field index_or_end
  no_field = refl

  named_before_more :
      (f : Field) (fs : List Field)
      → is_named x f ≡ false
      → ((j : ℕ) → j < find_member_field x fs → named_at x (get_elem? fs j) ≡ false)
      → (j : ℕ) → j < suc (find_member_field x fs)
      → named_at x (get_elem? (f ∷ fs) j) ≡ false
  unfolding is_named
  named_before_more f fs e h zero l = e
  named_before_more f fs e h (suc j) l = h j (omega (arith, l))

  named_before :
      (fs : List Field) (j : ℕ) → j < find_member_field x fs → named_at x (get_elem? fs j) ≡ false
  named_before [] j l = absurd (omega (arith, no_field, l))
  named_before (f ∷ fs) j l = elim (Bool-cases (is_named x f)) [
    | inl e ↦ absurd (ground (arith, find_member_field-more f fs, e, l))
    | inr e ↦
        named_before_more f fs e (named_before fs) j
          (ground (arith, find_member_field-more f fs, e, l))
  ]

  named_there :
      (fs : List Field)
      → (named_at x (get_elem? fs (find_member_field x fs)) ≡ true)
        ⊎ (find_member_field x fs ≡ length fs)
  unfolding is_named
  named_there [] = inr no_field
  named_there (f ∷ fs) = rw (find_member_field-more f fs) (elim (Bool-cases (is_named x f)) [
    | inl e ↦ rw e (inl e)
    | inr e ↦ rw e (elim (named_there fs) [ inl d ↦ inl d | inr d ↦ inr (ap suc d) ])
  ])

-- The field that is found has the name and was not renamed, unless the end is returned; and no field before
-- it, at the end no field at all, is so.
pub find_member_field-first :
    (x : String) (fs : List Field)
    → ((named_at x (get_elem? fs (find_member_field x fs)) ≡ true)
        ⊎ (find_member_field x fs ≡ length fs))
      × ((j : ℕ) → j < find_member_field x fs → named_at x (get_elem? fs j) ≡ false)
find_member_field-first x fs = (named_there x fs, named_before x fs)
