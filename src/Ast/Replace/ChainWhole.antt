-- ===== src/Ast/Replace/ChainWhole.antt =====
-- Two replacements in a row, at arguments, return type and body together.
use depc.Prelude.{◌≡◌, refl, Bool, false, ◌||◌, ◌&&◌, Option, none, some, arith}
use depc.Ast.{Var, Expr, Body, Signature}
use depc.Ast.OccursIn.{anywhere, occurs_in, occurs_in_args, occurs_in_optional, occurs_in_signature}
use depc.Ast.Replace.{replace, replace_optional, replace_signature}
use depc.Ast.Replace.Undo.{rest_false}
use depc.Ast.Replace.Chain.{chain, chain_args, chain_body}

module _ (a b c : Var) (d : Bool) (k : d ≡ false → a ≡ b) where
  chain_tail :
      (x : Expr) (r : Option Body)
      → ((occurs_in b anywhere x || occurs_in_optional b anywhere r) && d) ≡ false
      → (replace b c (replace a b x) ≡ replace a c x)
        × (replace_optional b c (replace_optional a b r) ≡ replace_optional a c r)
  unfolding occurs_in_optional replace_optional
  chain_tail x none h = (ground (arith, chain a b c d k x), refl)
  chain_tail x (some r) h =
      (ground (arith, chain a b c d k x), ground (arith, chain_body a b c d k r))

  rest_tail :
      (b : Var) (r : Bool) (g : Signature)
      → (occurs_in_args b anywhere g.args r && d) ≡ false
      → (r && d) ≡ false
  rest_tail b r g h = ground (arith, rest_false b g.args r)

  pub chain_signature :
      (g : Signature)
      → (occurs_in_signature b anywhere g && d) ≡ false
      → replace_signature b c (replace_signature a b g) ≡ replace_signature a c g
  unfolding occurs_in_signature replace_signature
  chain_signature g h =
      let e = chain_tail g.ret_type g.body (rest_tail b _ g h) in
      λ i. record { args = chain_args a b c d k g.args _ h i; ret_type = e.0 i; body = e.1 i }
