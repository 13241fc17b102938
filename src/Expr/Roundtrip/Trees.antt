-- ===== src/Expr/Roundtrip/Trees.antt =====
-- About the trees that wq_workflow/core/parser/expression_parser.py reads from the tokens of a tree.
use worldquant_workflow_v2_r.Expr.Roundtrip.{
  alone, compared, operand, joined, bare, signed, word, whole, quoted, called, none_left, one_more,
  IsPrimary, IsUnary, IsSum, IsExpression, AllExpressions,
}
use worldquant_workflow_v2_r.Expr.Ast.{Node, nil, Nodes, append, cons}
use worldquant_workflow_v2_r.Expr.Roundtrip.Scanning.{Then}
use worldquant_workflow_v2_r.Expr.Floats.{Floats}
use worldquant_workflow_v2_r.Expr.Parser.{Stream, primary, unary_level}
use worldquant_workflow_v2_r.Expr.Roundtrip.Lexing.{
  PrimarySpells, UnarySpells, SumSpells, ExpressionSpells, ArgumentsSpell,
}
use worldquant_workflow_v2_r.Expr.Roundtrip.Parsing.{
  Reads, NoCall, primary-word, primary-whole, primary-quoted, primary-call, unary-bare,
  unary-signed, extended-nil, extended-append,
}
use worldquant_workflow_v2_r.Expr.Roundtrip.Opening.{primary-Plain, expression-Opens, Then-NoAssign}
use worldquant_workflow_v2_r.Common.{ℕ, refl}
use worldquant_workflow_v2_r.Expr.Roundtrip.Reading.{
  SumReads, operand-SumReads, joined-SumReads, ExpressionReads, alone-ExpressionReads,
  compared-ExpressionReads, ArgumentsRead, arguments-end, arguments-step, separated-last,
  separated-more,
}
use worldquant_workflow_v2_r.Expr.Token.{rparen, sign, comma}

module _ (fl : Floats) where
  open fl use {Float}

  mutual
    primary-Reads :
        {t : Node Float} {P : Stream → Type 0} (d : IsPrimary fl t) (s : Stream)
        → PrimarySpells fl d P s
        → Reads fl P (NoCall fl) t (λ f. primary fl f s)
    primary-Reads (word name w) s (p, s', e, q) =
        (s', q, λ c f. rw e (primary-word fl f name p s' c))
    primary-Reads (whole n) s (p, s', e, q) = (s', q, λ c f. rw e (primary-whole fl f n p s'))
    primary-Reads (quoted x) s (p, s', e, q) = (s', q, λ c f. rw e (primary-quoted fl f x p s'))
    primary-Reads (called name args w l a) s (p, s₁, e, (p₁, s₂, e₁, h)) =
        let (s₃, (p₂, s', e₂, q), read) = arguments-Read a s₂ h in
        (
          s',
          q,
          λ c f.
              rw (e, e₁)
                (primary-call fl f name args p p₁ p₂ s₂ s' l (λ g. rw e₂ at (read name nil g))),
        )

    unary-Reads :
        {t : Node Float} {P : Stream → Type 0} (d : IsUnary fl t) (s : Stream)
        → UnarySpells fl d P s
        → Reads fl P (NoCall fl) t (λ f. unary_level fl f s)
    unary-Reads {P} (bare d) s h =
        let (s', q, read) = primary-Reads d s h in
        (s', q, λ c f. unary-bare fl f _ s s' (primary-Plain fl P d s h) (read c))
    unary-Reads (signed {t} op e d) s (p, s₁, e₁, h) =
        let (s', q, read) = unary-Reads d s₁ h in
        (s', q, λ c f. rw e₁ (unary-signed fl f op t p s₁ s' e (read c)))

    sum-Reads :
        {k : ℕ} {t : Node Float} {P : Stream → Type 0} (d : IsSum fl k t) (s : Stream)
        → SumSpells fl d P s
        → SumReads fl k t P s
    sum-Reads {k} (operand d) s h = operand-SumReads fl k s (unary-Reads d s h)
    sum-Reads {k} (joined {l = l} {r = r} op e m x y) s h =
        let (s₁, (p, s₂, e₁, g), left) = sum-Reads x s h in
        joined-SumReads fl k op l r s e m (s₁, (p, s₂, e₁, sum-Reads y s₂ g), left)

    pub expression-Reads :
        {t : Node Float} {P : Stream → Type 0} (d : IsExpression fl t) (s : Stream)
        → ExpressionSpells fl d P s
        → ExpressionReads fl t P s
    expression-Reads (alone d) s h = alone-ExpressionReads fl s (sum-Reads d s h)
    expression-Reads (compared {l} {r} op e x y) s h =
        let (s₁, (p, s₂, e₁, g), left) = sum-Reads x s h in
        compared-ExpressionReads fl op l r s e (s₁, (p, s₂, e₁, sum-Reads y s₂ g), left)

    arguments-Read :
        {ts : Nodes Float} {P : Stream → Type 0} (d : AllExpressions fl ts) (s : Stream)
        → ArgumentsSpell fl d (Then rparen (sign rparen) P) s
        → ArgumentsRead fl ts P s
    arguments-Read none_left s (p, s', e, q) = (
      s,
      (p, s', e, q),
      λ name cs f. rw (e, extended-nil fl cs) (arguments-end fl p s' name cs f),
    )
    arguments-Read (one_more {t} d none_left) s h =
        let (s₁, (p, s', e, q), read) = expression-Reads d s h in
        let o = expression-Opens fl d s (Then-NoAssign rparen (sign rparen) _ refl) h in
        (
          s₁,
          (p, s', e, q),
          λ name cs f.
              arguments-step fl t s s₁ name cs o (read (rw e (refl, refl, refl)))
                (λ g.
                  rw (e, ← extended-append fl cs t nil, extended-nil fl (append cs t))
                    (separated-last fl p s' name (append cs t) g))
                f,
        )
    arguments-Read (one_more {t} d (one_more {t = u} {ts} d' ds)) s h =
        let (s₁, (p, s₂, e, g), read) = expression-Reads d s h in
        let o = expression-Opens fl d s (Then-NoAssign comma (sign comma) _ refl) h in
        let (s₃, q, more) = arguments-Read (one_more d' ds) s₂ g in
        (
          s₃,
          q,
          λ name cs f.
              arguments-step fl t s s₁ name cs o (read (rw e (refl, refl, refl)))
                (λ i.
                  rw (e, ← extended-append fl cs t (cons u ts))
                    (separated-more fl p s₂ name (append cs t) (more name (append cs t)) i))
                f,
        )
