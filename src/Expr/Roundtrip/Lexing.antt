-- ===== src/Expr/Roundtrip/Lexing.antt =====
-- About the tokens that wq_workflow/core/parser/expression_parser.py makes of what
-- wq_workflow/core/ast/ast_serializer.py prints, layer by layer of the grammar.
use worldquant_workflow_v2_r.Expr.Roundtrip.{
  alone, compared, operand, joined, bare, signed, word, whole, quoted, called, none_left, one_more,
  IsPrimary, AllExpressions, IsUnary, IsSum, IsExpression,
}
use worldquant_workflow_v2_r.Expr.Ast.{Node, Nodes, nil, cons}
use worldquant_workflow_v2_r.Expr.Token.{
  plus, minus, TokenType, ◌is◌, ident, sign, lparen, rparen, star, gt, slash, comma, ge, le, eq, ne,
}
use worldquant_workflow_v2_r.Expr.Token
use worldquant_workflow_v2_r.Expr.Floats.{Floats}
use worldquant_workflow_v2_r.Expr.Printer.{join, serialize_all, decimal, serialize}
use worldquant_workflow_v2_r.Common.{
  Text, codes, ◌||◌, ◌≡◌, true, ◌++◌, ◌≢◌, [], ℕ, append_assoc, ◌∷◌, refl,
}
use worldquant_workflow_v2_r.Expr.Parser.{is_binary, is_comparison, Stream}
use worldquant_workflow_v2_r.Expr.Roundtrip.Scanning.{
  Then, Breaks, Apart, Lexes, space-Lexes, Breaks-Apart, printed_Breaks,
}
use worldquant_workflow_v2_r.Expr.Roundtrip.Texts.{
  serialize_all-nil, serialize-name_node, serialize_all-cons, serialize-call_node,
}
use worldquant_workflow_v2_r.Expr.Roundtrip.Words.{word-Lexes, decimal-Lexes, quote-Lexes}
use worldquant_workflow_v2_r.Expr.Roundtrip.Solid.{
  serialize-whole, expression-IsSolid, serialize-quoted, serialize-one, unary-Begins,
  serialize_joined, serialize_compared,
}
use worldquant_workflow_v2_r.Expr.Roundtrip.Edges.{Begins-Apart, Begins-append}
use worldquant_workflow_v2_r.Expr.Roundtrip.Signs.{sign-Lexes}

module _ (fl : Floats) where
  open fl use {Float}

  -- A stream that starts with the tokens of a tree and goes on with what satisfies `P`
  abbrev mutual
    pub PrimarySpells : {t : Node Float} → IsPrimary fl t → (Stream → Type 0) → Stream → Type 0
    PrimarySpells (word name w) P = Then ident name P
    PrimarySpells (whole n) P = Then Token.number (decimal n) P
    PrimarySpells (quoted s) P = Then Token.string s P
    PrimarySpells (called name args w l a) P =
        Then ident name (Then lparen (sign lparen) (ArgumentsSpell a (Then rparen (sign rparen) P)))

    pub UnarySpells : {t : Node Float} → IsUnary fl t → (Stream → Type 0) → Stream → Type 0
    UnarySpells (bare d) P = PrimarySpells d P
    UnarySpells (signed op e d) P = Then op (sign op) (UnarySpells d P)

    pub SumSpells : {k : ℕ} {t : Node Float} → IsSum fl k t → (Stream → Type 0) → Stream → Type 0
    SumSpells (operand d) P = UnarySpells d P
    SumSpells (joined op e h l r) P = SumSpells l (Then op (sign op) (SumSpells r P))

    pub ExpressionSpells :
        {t : Node Float} → IsExpression fl t → (Stream → Type 0) → Stream → Type 0
    ExpressionSpells (alone d) P = SumSpells d P
    ExpressionSpells (compared op e l r) P = SumSpells l (Then op (sign op) (SumSpells r P))

    pub ArgumentsSpell :
        {ts : Nodes Float} → AllExpressions fl ts → (Stream → Type 0) → Stream → Type 0
    ArgumentsSpell none_left P = P
    ArgumentsSpell (one_more d none_left) P = ExpressionSpells d P
    ArgumentsSpell (one_more d (one_more d' ds)) P =
        ExpressionSpells d (Then comma (sign comma) (ArgumentsSpell (one_more d' ds) P))

  abbrev arguments_text : Nodes Float → Text
  arguments_text args = join (codes ", ") (serialize_all fl args)

  signed_sign : (op : TokenType) → (op is plus || op is minus) ≡ true → sign op ≢ []
  signed_sign plus h = cc
  signed_sign minus h = cc
  signed_sign _ h = absurd (cc)

  binary_sign : (op : TokenType) → is_binary op ≡ true → sign op ≢ []
  binary_sign plus h = cc
  binary_sign minus h = cc
  binary_sign star h = cc
  binary_sign slash h = cc
  binary_sign _ h = absurd (cc)

  comparison_sign : (op : TokenType) → is_comparison op ≡ true → sign op ≢ []
  comparison_sign gt h = cc
  comparison_sign Token.lt h = cc
  comparison_sign ge h = cc
  comparison_sign le h = cc
  comparison_sign eq h = cc
  comparison_sign ne h = cc
  comparison_sign _ h = absurd (cc)

  arguments_text-cons :
      (t u : Node Float) (ts : Nodes Float)
      → arguments_text (cons t (cons u ts))
        ≡ serialize fl t ++ (b',' ∷ b' ' ∷ arguments_text (cons u ts))
  unfolding join
  arguments_text-cons t u ts =
      rw (serialize_all-cons fl t (cons u ts), serialize_all-cons fl u ts) refl

  arguments_text-nil : arguments_text nil ≡ []
  unfolding join
  arguments_text-nil = rw (serialize_all-nil fl) refl

  arguments_text-one : (t : Node Float) → arguments_text (cons t nil) ≡ serialize fl t
  unfolding join
  arguments_text-one t = rw (serialize_all-cons fl t nil, serialize_all-nil fl) refl

  arguments_Apart :
      {ts : Nodes Float} (rest : Text)
      → AllExpressions fl ts
      → Apart rest
      → Apart (arguments_text ts ++ rest)
  arguments_Apart rest none_left h = rw arguments_text-nil h
  arguments_Apart rest (one_more {t} d none_left) h =
      rw (arguments_text-one t) (Begins-Apart (serialize fl t) rest (expression-IsSolid fl d).0)
  arguments_Apart rest (one_more {t} d (one_more {t = u} {ts} d' ds)) h =
      rw (arguments_text-cons t u ts)
        (Begins-Apart _ rest (Begins-append (serialize fl t) _ (expression-IsSolid fl d).0))

  infix_append :
      (l op r rest : Text)
      → (l ++ (b' ' ∷ (op ++ (b' ' ∷ r)))) ++ rest ≡ l ++ (b' ' ∷ (op ++ (b' ' ∷ (r ++ rest))))
  infix_append l op r rest = simp (append_assoc)

  pub operator-Lexes :
      {P : Stream → Type 0} (op : TokenType) (text : Text)
      → sign op ≢ []
      → Lexes P text
      → Lexes (Then op (sign op) P) (b' ' ∷ (sign op ++ (b' ' ∷ text)))
  operator-Lexes op text n h =
      space-Lexes _ (sign-Lexes op (b' ' ∷ text) n refl (space-Lexes text h))

  mutual
    primary-Lexes :
        {t : Node Float} {P : Stream → Type 0} (rest : Text) (d : IsPrimary fl t)
        → Breaks rest
        → Lexes P rest
        → Lexes (PrimarySpells d P) (serialize fl t ++ rest)
    primary-Lexes rest (word name w) b h =
        rw (serialize-name_node fl name) (word-Lexes name rest w b h)
    primary-Lexes rest (whole n) b h = rw (serialize-whole fl n) (decimal-Lexes n rest b h)
    primary-Lexes rest (quoted s) b h = rw (serialize-quoted fl s) (quote-Lexes s rest h)
    primary-Lexes rest (called name args w l a) b h =
        rw
          (
            serialize-call_node fl name args a,
            append_assoc name (b'(' ∷ (arguments_text args ++ b')' ∷ [])) rest,
            append_assoc (arguments_text args) (b')' ∷ []) rest,
          )
          (word-Lexes name (b'(' ∷ (arguments_text args ++ (b')' ∷ rest))) w (printed_Breaks rest).0
            (sign-Lexes lparen (arguments_text args ++ (b')' ∷ rest)) (λ e. cc)
              (arguments_Apart (b')' ∷ rest) a refl)
              (arguments-Lexes (b')' ∷ rest) a (printed_Breaks rest).1
                (sign-Lexes rparen rest (λ e. cc) (Breaks-Apart rest b) h))))

    unary-Lexes :
        {t : Node Float} {P : Stream → Type 0} (rest : Text) (d : IsUnary fl t)
        → Breaks rest
        → Lexes P rest
        → Lexes (UnarySpells d P) (serialize fl t ++ rest)
    unary-Lexes rest (bare d) b h = primary-Lexes rest d b h
    unary-Lexes rest (signed {t} op e d) b h =
        rw (serialize-one fl op t, append_assoc (sign op) (serialize fl t) rest)
          (sign-Lexes op (serialize fl t ++ rest) (signed_sign op e)
            (Begins-Apart (serialize fl t) rest (unary-Begins fl d)) (unary-Lexes rest d b h))

    sum-Lexes :
        {k : ℕ} {t : Node Float} {P : Stream → Type 0} (rest : Text) (d : IsSum fl k t)
        → Breaks rest
        → Lexes P rest
        → Lexes (SumSpells d P) (serialize fl t ++ rest)
    sum-Lexes rest (operand d) b h = unary-Lexes rest d b h
    sum-Lexes rest (joined {l = l} {r = r} op e m x y) b h =
        rw
          (
            serialize_joined fl op x y,
            infix_append (serialize fl l) (sign op) (serialize fl r) rest,
          )
          (sum-Lexes _ x (printed_Breaks rest).3
            (operator-Lexes op _ (binary_sign op e) (sum-Lexes rest y b h)))

    pub expression-Lexes :
        {t : Node Float} {P : Stream → Type 0} (rest : Text) (d : IsExpression fl t)
        → Breaks rest
        → Lexes P rest
        → Lexes (ExpressionSpells d P) (serialize fl t ++ rest)
    expression-Lexes rest (alone d) b h = sum-Lexes rest d b h
    expression-Lexes rest (compared {l} {r} op e x y) b h =
        rw
          (
            serialize_compared fl op x y,
            infix_append (serialize fl l) (sign op) (serialize fl r) rest,
          )
          (sum-Lexes _ x (printed_Breaks rest).3
            (operator-Lexes op _ (comparison_sign op e) (sum-Lexes rest y b h)))

    arguments-Lexes :
        {ts : Nodes Float} {P : Stream → Type 0} (rest : Text) (d : AllExpressions fl ts)
        → Breaks rest
        → Lexes P rest
        → Lexes (ArgumentsSpell d P) (arguments_text ts ++ rest)
    arguments-Lexes rest none_left b h = rw arguments_text-nil h
    arguments-Lexes rest (one_more {t} d none_left) b h =
        rw (arguments_text-one t) (expression-Lexes rest d b h)
    arguments-Lexes rest (one_more {t} d (one_more {t = u} {ts} d' ds)) b h =
        rw
          (
            arguments_text-cons t u ts,
            append_assoc (serialize fl t) (b',' ∷ b' ' ∷ arguments_text (cons u ts)) rest,
          )
          (expression-Lexes _ d (printed_Breaks rest).2 (
            sign-Lexes comma (b' ' ∷ (arguments_text (cons u ts) ++ rest)) (λ e. cc) refl
              (space-Lexes _ (arguments-Lexes rest (one_more d' ds) b h))))
