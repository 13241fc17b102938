-- ===== src/Expr/Roundtrip/Solid.antt =====
-- About the ends of what wq_workflow/core/ast/ast_serializer.py prints of the layers of the grammar.
use worldquant_workflow_v2_r.Expr.Roundtrip.{
  alone, compared, operand, joined, bare, signed, word, whole, quoted, called, IsPrimary, IsUnary,
  IsSum, IsExpression,
}
use worldquant_workflow_v2_r.Expr.Ast.{number, string, binary, comparison, Node, int, str}
use worldquant_workflow_v2_r.Expr.Token.{plus, minus, TokenType, ◌is◌, sign}
use worldquant_workflow_v2_r.Expr.Floats.{Floats}
use worldquant_workflow_v2_r.Common.{Text, ℕ, ◌||◌, ◌≡◌, [], true, ◌++◌, ◌∷◌, refl, ◌∙◌, codes}
use worldquant_workflow_v2_r.Expr.Printer.{
  serialize, format_number, infix_text, decimal, quote, join, serialize_all,
}
use worldquant_workflow_v2_r.Expr.Parser.{one, two, leaf}
use worldquant_workflow_v2_r.Expr.Roundtrip.Edges.{
  IsSolid, Begins, Closes-append, infix-IsSolid, word-IsSolid, numeral-IsSolid, infix_text_lem,
  quote-IsSolid, Begins-append,
}
use worldquant_workflow_v2_r.Expr.Roundtrip.Texts.{serialize-name_node, serialize-call_node}
use worldquant_workflow_v2_r.Expr.Roundtrip.Tokens.{decimal-IsNumeral}

sign-Begins :
    (op : TokenType) (s : Text) → (op is plus || op is minus) ≡ true → Begins (sign op ++ s)
sign-Begins plus s h = (refl, refl)
sign-Begins minus s h = (refl, refl)
sign-Begins _ s h = absurd (cc)

module _ (fl : Floats) where
  open fl use {Float}

  pub serialize-one :
      (op : TokenType) (t : Node Float) → serialize fl (one fl op t) ≡ sign op ++ serialize fl t
  unfolding serialize
  serialize-one op t = refl

  serialize-binary :
      (op : TokenType) (l r : Node Float)
      → serialize fl (two fl binary op l r) ≡ infix_text (serialize fl l) (sign op) (serialize fl r)
  unfolding serialize
  serialize-binary op l r = refl

  serialize-comparison :
      (op : TokenType) (l r : Node Float)
      → serialize fl (two fl comparison op l r)
        ≡ infix_text (serialize fl l) (sign op) (serialize fl r)
  unfolding serialize
  serialize-comparison op l r = refl

  pub serialize-whole : (n : ℕ) → serialize fl (leaf fl number [] (int n)) ≡ decimal n
  unfolding serialize format_number
  serialize-whole n = refl

  pub serialize-quoted : (s : Text) → serialize fl (leaf fl string [] (str s)) ≡ quote s
  unfolding serialize
  serialize-quoted s = refl

  primary-IsSolid : {t : Node Float} → IsPrimary fl t → IsSolid (serialize fl t)
  primary-IsSolid (word name w) = rw (serialize-name_node fl name) (word-IsSolid name w)
  primary-IsSolid (whole n) =
      rw (serialize-whole n) (numeral-IsSolid (decimal n) (decimal-IsNumeral n))
  primary-IsSolid (quoted s) = rw (serialize-quoted s) (quote-IsSolid s)
  primary-IsSolid (called name args w l a) = rw (serialize-call_node fl name args a) (
    Begins-append name _ (word-IsSolid name w).0,
    Closes-append name _ (b'(' ∷ join (codes ", ") (serialize_all fl args), b')', refl, refl),
  )

  unary-IsSolid : {t : Node Float} → IsUnary fl t → IsSolid (serialize fl t)
  unary-IsSolid (bare d) = primary-IsSolid d
  unary-IsSolid (signed {t} op e d) =
      rw (serialize-one op t)
        (sign-Begins op (serialize fl t) e, Closes-append (sign op) _ (unary-IsSolid d).1)

  sum-IsSolid : {k : ℕ} {t : Node Float} → IsSum fl k t → IsSolid (serialize fl t)
  sum-IsSolid (operand d) = unary-IsSolid d
  sum-IsSolid (joined {l = l} {r = r} op e h x y) =
      rw (serialize-binary op l r)
        (infix-IsSolid (serialize fl l) (sign op) (serialize fl r) (sum-IsSolid x) (sum-IsSolid y))

  pub expression-IsSolid : {t : Node Float} → IsExpression fl t → IsSolid (serialize fl t)
  expression-IsSolid (alone d) = sum-IsSolid d
  expression-IsSolid (compared {l} {r} op e x y) =
      rw (serialize-comparison op l r)
        (infix-IsSolid (serialize fl l) (sign op) (serialize fl r) (sum-IsSolid x) (sum-IsSolid y))

  -- What is printed of two operands has one blank on each side of the operator.
  pub serialize_joined :
      {k m : ℕ} {l r : Node Float} (op : TokenType)
      → IsSum fl k l
      → IsSum fl m r
      → serialize fl (two fl binary op l r)
        ≡ serialize fl l ++ (b' ' ∷ (sign op ++ (b' ' ∷ serialize fl r)))
  serialize_joined {l} {r} op x y =
      serialize-binary op l r
      ∙ infix_text_lem (serialize fl l) (sign op) (serialize fl r) (sum-IsSolid x) (sum-IsSolid y)

  pub serialize_compared :
      {k m : ℕ} {l r : Node Float} (op : TokenType)
      → IsSum fl k l
      → IsSum fl m r
      → serialize fl (two fl comparison op l r)
        ≡ serialize fl l ++ (b' ' ∷ (sign op ++ (b' ' ∷ serialize fl r)))
  serialize_compared {l} {r} op x y =
      serialize-comparison op l r
      ∙ infix_text_lem (serialize fl l) (sign op) (serialize fl r) (sum-IsSolid x) (sum-IsSolid y)

  pub unary-Begins : {t : Node Float} → IsUnary fl t → Begins (serialize fl t)
  unary-Begins d = (unary-IsSolid d).0
