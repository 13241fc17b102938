-- ===== src/Expr/Roundtrip/Reading.antt =====
-- About the functions of wq_workflow/core/parser/expression_parser.py on the tokens of the grammar's
-- layers.
use worldquant_workflow_v2_r.Expr.Ast.{binary, comparison, Nodes, Node, Params, empty, append}
use worldquant_workflow_v2_r.Expr.Roundtrip.Scanning.{next, Then}
use worldquant_workflow_v2_r.Expr.Floats.{Floats}
use worldquant_workflow_v2_r.Common.{
  ℕ, Text, ◌≡◌, true, false, ◌≤◌, suc, zero, ◌+◌, le_trans, arith,
}
use worldquant_workflow_v2_r.Expr.Parser.{
  Stream, expression, is_binary, advance, type_now, precedence, is_comparison, arguments,
  binary_rest, binary_level, separated, unary_level, two,
}
use worldquant_workflow_v2_r.Expr.Roundtrip.Parsing.{
  NoCall, extended, Reads, binary_level-step, expression-alone, binary_rest-step, binary_rest-stop,
  expression-compared,
}
use worldquant_workflow_v2_r.Expr.Token.{rparen, sign, comma, TokenType}
use worldquant_workflow_v2_r.Expr.Roundtrip.Opening.{Opens, binary_token, comparison_token}
use worldquant_workflow_v2_r.Expr.Result.{Gives, starved, Gives-bind, gives}
use worldquant_workflow_v2_r.Expr.Lexer.{token}
use native.Mathlib.Nat.{le_refl}

module _ (fl : Floats) where
  open fl use {Float}

  -- The loop over the arguments, in front of the first
  abbrev pub ArgumentsRead : Nodes Float → (Stream → Type 0) → Stream → Type 0
  ArgumentsRead args P s =
      (s₁ : Stream) × Then rparen (sign rparen) P s₁
      × ((name : Text) (cs : Nodes Float) (f : ℕ)
          → Gives ((extended fl cs args, empty), s₁) (arguments fl f name cs empty s))

  -- What `_binary` gives, from what its loop gives behind the tree.
  abbrev pub SumReads : ℕ → Node Float → (Stream → Type 0) → Stream → Type 0
  SumReads k t P s =
      (s' : Stream) × P s'
      × (NoCall fl s'
          → (is_binary (type_now s') ≡ true → precedence (type_now s') ≤ k)
          → (y : Node Float × Stream) (least : ℕ) → least ≤ k
          → ((g : ℕ) → Gives y (binary_rest fl g least t s'))
          → (f : ℕ) → Gives y (binary_level fl f least s))

  abbrev pub EndsExpression : Stream → Type 0
  EndsExpression s =
      NoCall fl s × (is_binary (type_now s) ≡ false) × (is_comparison (type_now s) ≡ false)

  pub separated-last :
      (p : ℕ) (s : Stream) (name : Text) (cs : Nodes Float) (f : ℕ)
      → let s₁ = next (token rparen (sign rparen) p) s in
        Gives ((cs, empty), s₁) (separated fl f name cs empty s₁)
  unfolding expression
  separated-last p s name cs zero = starved
  separated-last p s name cs (suc zero) = starved
  separated-last p s name cs (suc (suc f)) = gives

  pub separated-more :
      {y : (Nodes Float × Params Float) × Stream} (p : ℕ) (s : Stream) (name : Text)
      (cs : Nodes Float)
      → ((f : ℕ) → Gives y (arguments fl f name cs empty s))
      → (f : ℕ) → Gives y (separated fl f name cs empty (next (token comma (sign comma) p) s))
  unfolding expression advance
  separated-more p s name cs h zero = starved
  separated-more p s name cs h (suc f) = h f

  -- One round of the loop of `_call`, at an argument that is no keyword
  pub arguments-step :
      {y : (Nodes Float × Params Float) × Stream} (t : Node Float) (s s₁ : Stream) (name : Text)
      (cs : Nodes Float)
      → Opens s
      → ((f : ℕ) → Gives (t, s₁) (expression fl f s))
      → ((f : ℕ) → Gives y (separated fl f name (append cs t) empty s₁))
      → (f : ℕ) → Gives y (arguments fl f name cs empty s)
  unfolding expression
  arguments-step t s s₁ name cs o h k zero = starved
  arguments-step t s s₁ name cs o h k (suc f) =
      rw (o.closing, o.ending, o.keyword)
        (Gives-bind (λ (r : Node Float × Stream). separated fl f name (append cs r.0) empty r.1)
          (h f) (k f))

  pub arguments-end :
      (p : ℕ) (s : Stream) (name : Text) (cs : Nodes Float) (f : ℕ)
      → let s₁ = next (token rparen (sign rparen) p) s in
        Gives ((cs, empty), s₁) (arguments fl f name cs empty s₁)
  unfolding expression
  arguments-end p s name cs zero = starved
  arguments-end p s name cs (suc f) = gives

  pub operand-SumReads :
      {t : Node Float} {P : Stream → Type 0} (k : ℕ) (s : Stream)
      → Reads fl P (NoCall fl) t (λ f. unary_level fl f s)
      → SumReads k t P s
  operand-SumReads {t} k s (s', q, u) =
      (s', q, λ c b y least m h f. binary_level-step fl f least t s s' (u c) h)

  pub joined-SumReads :
      {P : Stream → Type 0} (k : ℕ) (op : TokenType) (l r : Node Float) (s : Stream)
      → is_binary op ≡ true
      → k ≤ precedence op
      → SumReads (precedence op) l (Then op (sign op) (λ s₁. SumReads (precedence op + 1) r P s₁)) s
      → SumReads k (two fl binary op l r) P s
  joined-SumReads k op l r s e m (s₁, (p, s₂, e₁, (s', q, right)), left) = (
    s',
    q,
    λ c b y least n h f.
        left (rw e₁ (binary_token op e).0) (λ _. rw e₁ (le_refl _)) y least (le_trans n m)
          (λ g. rw e₁ (
            binary_rest-step fl g least op l r p s₂ s' e (le_trans n m)
              (right c (λ d. omega (arith, b d)) (r, s') (precedence op + 1) (le_refl _)
                (λ i. binary_rest-stop fl i (precedence op + 1) r s' (λ d. omega (arith, b d))))
              h))
          f,
  )

  abbrev pub ExpressionReads : Node Float → (Stream → Type 0) → Stream → Type 0
  ExpressionReads t P s = Reads fl P EndsExpression t (λ f. expression fl f s)

  pub alone-ExpressionReads :
      {t : Node Float} {P : Stream → Type 0} (s : Stream) → SumReads 0 t P s → ExpressionReads t P s
  alone-ExpressionReads {t} s (s', q, read) = (
    s',
    q,
    λ (c, b, d) f. expression-alone fl f t s s' d (
        read c (λ e. absurd (cc)) (t, s') 0 (le_refl _)
          (λ g. binary_rest-stop fl g 0 t s' (λ e. absurd (cc)))),
  )

  pub compared-ExpressionReads :
      {P : Stream → Type 0} (op : TokenType) (l r : Node Float) (s : Stream)
      → is_comparison op ≡ true
      → SumReads 0 l (Then op (sign op) (λ s₁. SumReads 0 r P s₁)) s
      → ExpressionReads (two fl comparison op l r) P s
  compared-ExpressionReads op l r s e (s₁, (p, s₂, e₁, (s', q, right)), left) =
      let (no_call, no_assign, no_binary) = comparison_token op e in
      (
        s',
        q,
        λ (c, b, d) f.
            expression-compared fl f op l r p s s₂ s' e
              (rw e₁ at (
                left (rw e₁ no_call) (λ k. absurd (cc)) (l, s₁) 0 (le_refl _)
                  (λ g. binary_rest-stop fl g 0 l s₁ (λ k. absurd (cc)))))
              (right c (λ k. absurd (cc)) (r, s') 0 (le_refl _)
                (λ g. binary_rest-stop fl g 0 r s' (λ k. absurd (cc)))),
      )
