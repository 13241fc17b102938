-- ===== src/Expr/Roundtrip/Parsing.antt =====
-- About the trees that wq_workflow/core/parser/expression_parser.py makes of the tokens of what
-- wq_workflow/core/ast/ast_serializer.py prints, layer by layer of the grammar.
use worldquant_workflow_v2_r.Expr.Token
use worldquant_workflow_v2_r.Expr.Ast.{
  number, string, binary, comparison, Nodes, cons, Node, nil, append, int, empty, str,
}
use worldquant_workflow_v2_r.Common.{
  ℕ, ◌≤◌, ltb, ◌≡◌, false, ap, Text, arith, lower, true, refl, [], ◌||◌, ◌<◌, ◌+◌, suc, Bool-cases,
  inl, zero, lt→ltb, inr,
}
use worldquant_workflow_v2_r.Expr.Parser.{
  number_value, Stream, expression, matches, advance, expect, is_binary, is_comparison, name_node,
  leaf, type_now, unary_level, primary, precedence, binary_rest, binary_level, two, one, arguments,
  call_node,
}
use worldquant_workflow_v2_r.Expr.Floats.{Floats}
use worldquant_workflow_v2_r.Expr.Printer.{decimal}
use worldquant_workflow_v2_r.Expr.Result.{Result, ok, Gives, starved, Gives-bind, gives}
use worldquant_workflow_v2_r.Expr.Token.{lparen, TokenType, ◌is◌, plus, minus, ident, rparen, sign}
use worldquant_workflow_v2_r.Expr.Roundtrip.Tokens.{no_dot, decimal_digits, int_of-decimal}
use worldquant_workflow_v2_r.Expr.Roundtrip.Scanning.{next}
use worldquant_workflow_v2_r.Expr.Lexer.{token}

not_ltb : (m n : ℕ) → n ≤ m → ltb m n ≡ false
not_ltb m n h = ground arith

number_value-decimal : (fl : Floats) (n : ℕ) → number_value fl (decimal n) ≡ ok (int n)
unfolding number_value
number_value-decimal fl n = rw (no_dot (decimal n) (decimal_digits n), int_of-decimal n) refl

module _ (fl : Floats) where
  open fl use {Float}

  -- Every run of the parser with enough fuel has the value `a` and goes on with a stream that
  -- satisfies `P`, if that stream is as `Q` says.
  abbrev pub Reads {ℓ} :
      {A : Type ℓ} → (Stream → Type 0) → (Stream → Type 0) → A → (ℕ → Result (A × Stream)) → Type ℓ
  Reads P Q a run = (s : Stream) × P s × (Q s → (f : ℕ) → Gives (a, s) (run f))

  abbrev pub NoCall : Stream → Type 0
  NoCall s = matches s lparen ≡ false

  -- The children and those in `more`
  abbrev pub extended : Nodes Float → Nodes Float → Nodes Float
  extended nil more = more
  extended (cons c cs) more = cons c (extended cs more)

  pub extended-append :
      (cs : Nodes Float) (t : Node Float) (more : Nodes Float)
      → extended (append cs t) more ≡ extended cs (cons t more)
  extended-append nil t more = refl
  extended-append (cons c cs) t more = ap (cons c) (extended-append cs t more)

  pub extended-nil : (cs : Nodes Float) → extended cs nil ≡ cs
  extended-nil nil = refl
  extended-nil (cons c cs) = ap (cons c) (extended-nil cs)

  pub primary-word :
      (f : ℕ) (name : Text) (p : ℕ) (s : Stream)
      → NoCall s
      → Gives (name_node fl name, s) (primary fl f (next (token ident name p) s))
  unfolding expression advance
  primary-word zero name p s h = starved
  primary-word (suc f) name p s h = rw h gives

  pub primary-whole :
      (f n p : ℕ) (s : Stream)
      → Gives
          (leaf fl number [] (int n), s)
          (primary fl f (next (token Token.number (decimal n) p) s))
  unfolding expression advance
  primary-whole zero n p s = starved
  primary-whole (suc f) n p s = rw (number_value-decimal fl n) gives

  pub primary-quoted :
      (f : ℕ) (x : Text) (p : ℕ) (s : Stream)
      → Gives (leaf fl string [] (str x), s) (primary fl f (next (token Token.string x p) s))
  unfolding expression advance
  primary-quoted zero x p s = starved
  primary-quoted (suc f) x p s = gives

  -- A call, from what the loop over its arguments gives
  pub primary-call :
      (f : ℕ) (name : Text) (args : Nodes Float) (p p₁ p₂ : ℕ) (s s' : Stream)
      → lower name ≡ name
      → ((g : ℕ)
          → Gives
              ((args, empty), next (token rparen (sign rparen) p₂) s')
              (arguments fl g name nil empty s))
      → Gives
          (call_node fl name args empty, s')
          (primary fl f (next (token ident name p) (next (token lparen (sign lparen) p₁) s)))
  unfolding expression advance expect
  primary-call zero name args p p₁ p₂ s s' l h = starved
  primary-call (suc zero) name args p p₁ p₂ s s' l h = starved
  primary-call (suc (suc f)) name args p p₁ p₂ s s' l h = Gives-bind _ (h f) (rw l gives)

  pub unary-signed :
      (f : ℕ) (op : TokenType) (t : Node Float) (p : ℕ) (s s' : Stream)
      → (op is plus || op is minus) ≡ true
      → ((g : ℕ) → Gives (t, s') (unary_level fl g s))
      → Gives (one fl op t, s') (unary_level fl f (next (token op (sign op) p) s))
  unfolding expression advance
  unary-signed zero op t p s s' e h = starved
  unary-signed (suc f) op t p s s' e h = rw e (Gives-bind _ (h f) gives)

  pub unary-bare :
      (f : ℕ) (t : Node Float) (s s' : Stream)
      → (matches s plus || matches s minus) ≡ false
      → ((g : ℕ) → Gives (t, s') (primary fl g s))
      → Gives (t, s') (unary_level fl f s)
  unfolding expression
  unary-bare zero t s s' e h = starved
  unary-bare (suc f) t s s' e h = rw e (h f)

  -- The loop of `_binary` ends in front of no operator, and in front of a weaker one.
  pub binary_rest-stop :
      (f least : ℕ) (t : Node Float) (s : Stream)
      → (is_binary (type_now s) ≡ true → precedence (type_now s) < least)
      → Gives (t, s) (binary_rest fl f least t s)
  unfolding expression
  binary_rest-stop zero least t s h = starved
  binary_rest-stop (suc f) least t s h = elim (Bool-cases (is_binary (type_now s))) [
    | inl e ↦ rw (e, lt→ltb _ _ (h e)) gives
    | inr e ↦ rw e gives
  ]

  pub binary_rest-step :
      {y : Node Float × Stream} (f least : ℕ) (op : TokenType) (l r : Node Float) (p : ℕ)
      (s s' : Stream)
      → is_binary op ≡ true
      → least ≤ precedence op
      → ((g : ℕ) → Gives (r, s') (binary_level fl g (precedence op + 1) s))
      → ((g : ℕ) → Gives y (binary_rest fl g least (two fl binary op l r) s'))
      → Gives y (binary_rest fl f least l (next (token op (sign op) p) s))
  unfolding expression advance
  binary_rest-step zero least op l r p s s' e m h k = starved
  binary_rest-step (suc f) least op l r p s s' e m h k =
      rw (e, not_ltb (precedence op) least m) (Gives-bind _ (h f) (k f))

  pub binary_level-step :
      {y : Node Float × Stream} (f least : ℕ) (t : Node Float) (s s' : Stream)
      → ((g : ℕ) → Gives (t, s') (unary_level fl g s))
      → ((g : ℕ) → Gives y (binary_rest fl g least t s'))
      → Gives y (binary_level fl f least s)
  unfolding expression
  binary_level-step zero least t s s' h k = starved
  binary_level-step (suc f) least t s s' h k = Gives-bind _ (h f) (k f)

  pub expression-alone :
      (f : ℕ) (t : Node Float) (s s' : Stream)
      → is_comparison (type_now s') ≡ false
      → ((g : ℕ) → Gives (t, s') (binary_level fl g 0 s))
      → Gives (t, s') (expression fl f s)
  unfolding expression
  expression-alone zero t s s' e h = starved
  expression-alone (suc f) t s s' e h = Gives-bind _ (h f) (rw e gives)

  pub expression-compared :
      (f : ℕ) (op : TokenType) (l r : Node Float) (p : ℕ) (s s₁ s' : Stream)
      → is_comparison op ≡ true
      → ((g : ℕ) → Gives (l, next (token op (sign op) p) s₁) (binary_level fl g 0 s))
      → ((g : ℕ) → Gives (r, s') (binary_level fl g 0 s₁))
      → Gives (two fl comparison op l r, s') (expression fl f s)
  unfolding expression advance
  expression-compared zero op l r p s s₁ s' e h k = starved
  expression-compared (suc f) op l r p s s₁ s' e h k =
      Gives-bind _ (h f) (rw e (Gives-bind _ (k f) gives))
