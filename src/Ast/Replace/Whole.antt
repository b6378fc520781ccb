-- ===== src/Ast/Replace/Whole.antt =====
-- The replacement lemmas at arguments, return type and body together.
use depc.Prelude.{◌≡◌, refl, ◌≢◌, Bool, false, ◌||◌, Option, none, some, arith}
use depc.Ast.{Var, Expr, Body, Signature}
use depc.Ast.OccursIn.{
  OccurrenceStyle, anywhere, occurs_in, occurs_in_optional, occurs_in_signature,
}
use depc.Ast.Replace.{replace_var, replace, replace_optional, replace_signature}
use depc.Ast.Replace.Gone.{gone, gone_args, gone_body}
use depc.Ast.Replace.Undo.{rest_false, back, back_args, back_body}
use depc.Ast.Replace.Kept.{kept, kept_args, kept_body}

abbrev tail_occurs : Var → OccurrenceStyle → Expr → Option Body → Bool
tail_occurs v s x d = occurs_in v s x || occurs_in_optional v s d

module _ (a b : Var) where
  gone_tail :
      (s : OccurrenceStyle) (x : Expr) (d : Option Body)
      → a ≢ b
      → tail_occurs a s (replace a b x) (replace_optional a b d) ≡ false
  unfolding occurs_in_optional replace_optional
  gone_tail s x none h = ground (arith, gone a b s h x)
  gone_tail s x (some d) h = ground (arith, gone a b s h x, gone_body a b s h d)

  pub gone_signature :
      (s : OccurrenceStyle) (g : Signature)
      → a ≢ b
      → occurs_in_signature a s (replace_signature a b g) ≡ false
  unfolding occurs_in_signature replace_signature
  gone_signature s g h = gone_args a b s h g.args _ (gone_tail s g.ret_type g.body h)

  back_tail :
      (x : Expr) (d : Option Body)
      → tail_occurs b anywhere x d ≡ false
      → (replace b a (replace a b x) ≡ x) × (replace_optional b a (replace_optional a b d) ≡ d)
  unfolding occurs_in_optional replace_optional
  back_tail x none h = (ground (arith, back a b x), refl)
  back_tail x (some d) h = (ground (arith, back a b x), ground (arith, back_body a b d))

  pub back_signature :
      (g : Signature)
      → occurs_in_signature b anywhere g ≡ false
      → replace_signature b a (replace_signature a b g) ≡ g
  unfolding occurs_in_signature replace_signature
  back_signature g h =
      let e = back_tail g.ret_type g.body (rest_false b g.args _ h) in
      λ i. record { args = back_args a b g.args _ h i; ret_type = e.0 i; body = e.1 i }

  kept_tail :
      (w : Var) (s : OccurrenceStyle) (x : Expr) (d : Option Body)
      → w ≢ b
      → tail_occurs b anywhere x d ≡ false
      → tail_occurs (replace_var a b w) s (replace a b x) (replace_optional a b d)
        ≡ tail_occurs w s x d
  unfolding occurs_in_optional replace_optional
  kept_tail w s x none n h = ground (arith, kept a b w s n x)
  kept_tail w s x (some d) n h = ground (arith, kept a b w s n x, kept_body a b w s n d)

  pub kept_signature :
      (w : Var) (s : OccurrenceStyle) (g : Signature)
      → w ≢ b
      → occurs_in_signature b anywhere g ≡ false
      → occurs_in_signature (replace_var a b w) s (replace_signature a b g)
        ≡ occurs_in_signature w s g
  unfolding occurs_in_signature replace_signature
  kept_signature w s g n h =
      kept_args a b w s n g.args _ _ _ h
        (kept_tail w s g.ret_type g.body n (rest_false b g.args _ h))
