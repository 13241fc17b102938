-- ===== src/Expr/Roundtrip/Opening.antt =====
-- About the first token of an argument or a statement in
-- wq_workflow/core/parser/expression_parser.py, and the one behind it.
use worldquant_workflow_v2_r.Expr.Roundtrip.{
  alone, compared, operand, joined, bare, signed, word, whole, quoted, called, IsPrimary, IsUnary,
  IsSum, IsExpression,
}
use worldquant_workflow_v2_r.Expr.Token.{
  plus, minus, star, slash, gt, ge, le, eq, ne, TokenType, rparen, assign, ◌is◌, eof, lparen, sign,
  separator, ident,
}
use worldquant_workflow_v2_r.Expr.Token
use worldquant_workflow_v2_r.Expr.Parser.{Stream, matches, is_binary, is_comparison, peek_type}
use worldquant_workflow_v2_r.Expr.Floats.{Floats}
use worldquant_workflow_v2_r.Common.{Text, ℕ, ◌≡◌, false, ◌||◌, true, refl, ◌&&◌}
use worldquant_workflow_v2_r.Expr.Ast.{Node}
use worldquant_workflow_v2_r.Expr.Roundtrip.Lexing.{
  PrimarySpells, UnarySpells, SumSpells, ExpressionSpells,
}
use worldquant_workflow_v2_r.Expr.Roundtrip.Scanning.{Then, next}
use worldquant_workflow_v2_r.Expr.Lexer.{token}

-- Neither the end of the arguments or the text nor a separator, and no keyword or assignment
pub record Opens (s : Stream) : Type 0 where
  pub closing : matches s rparen ≡ false
  pub ending : matches s eof ≡ false
  pub separating : matches s separator ≡ false
  pub keyword : (matches s ident && peek_type s is assign) ≡ false

abbrev pub NoAssign : (Stream → Type 0) → Type 0
NoAssign P = (s : Stream) → P s → matches s assign ≡ false

signed-Opens :
    (op : TokenType) (value : Text) (p : ℕ) (s : Stream)
    → (op is plus || op is minus) ≡ true
    → Opens (next (token op value p) s)
signed-Opens plus value p s h = record {
  closing = refl;
  ending = refl;
  separating = refl;
  keyword = refl;
}
signed-Opens minus value p s h = record {
  closing = refl;
  ending = refl;
  separating = refl;
  keyword = refl;
}
signed-Opens _ value p s h = absurd (cc)

-- An operator is neither `(` nor `=`, and a comparison is no arithmetic.
pub binary_token :
    (op : TokenType) → is_binary op ≡ true → ((op is lparen) ≡ false) × ((op is assign) ≡ false)
binary_token plus h = (refl, refl)
binary_token minus h = (refl, refl)
binary_token star h = (refl, refl)
binary_token slash h = (refl, refl)
binary_token _ h = absurd (cc)

pub comparison_token :
    (op : TokenType)
    → is_comparison op ≡ true
    → ((op is lparen) ≡ false) × ((op is assign) ≡ false) × (is_binary op ≡ false)
comparison_token gt h = (refl, refl, refl)
comparison_token Token.lt h = (refl, refl, refl)
comparison_token ge h = (refl, refl, refl)
comparison_token le h = (refl, refl, refl)
comparison_token eq h = (refl, refl, refl)
comparison_token ne h = (refl, refl, refl)
comparison_token _ h = absurd (cc)

pub Then-NoAssign :
    (op : TokenType) (value : Text) (P : Stream → Type 0)
    → (op is assign) ≡ false
    → NoAssign (Then op value P)
Then-NoAssign op value P h s (p, s', e, q) = rw e h

module _ (fl : Floats) where
  open fl use {Float}

  primary-Opens :
      {t : Node Float} {P : Stream → Type 0} (d : IsPrimary fl t) (s : Stream)
      → NoAssign P
      → PrimarySpells fl d P s
      → Opens s
  primary-Opens (word name w) s n (p, s', e, q) =
      rw e (record { closing = refl; ending = refl; separating = refl; keyword = n s' q })
  primary-Opens (whole m) s n (p, s', e, q) =
      rw e (record { closing = refl; ending = refl; separating = refl; keyword = refl })
  primary-Opens (quoted x) s n (p, s', e, q) =
      rw e (record { closing = refl; ending = refl; separating = refl; keyword = refl })
  primary-Opens (called name args w l a) s n (p, s₁, e, (p₁, s₂, e₁, q)) =
      rw (e, e₁) (record { closing = refl; ending = refl; separating = refl; keyword = refl })

  unary-Opens :
      {t : Node Float} {P : Stream → Type 0} (d : IsUnary fl t) (s : Stream)
      → NoAssign P
      → UnarySpells fl d P s
      → Opens s
  unary-Opens (bare d) s n q = primary-Opens d s n q
  unary-Opens (signed op h d) s n (p, s', e, q) = rw e (signed-Opens op (sign op) p s' h)

  sum-Opens :
      {k : ℕ} {t : Node Float} {P : Stream → Type 0} (d : IsSum fl k t) (s : Stream)
      → NoAssign P
      → SumSpells fl d P s
      → Opens s
  sum-Opens (operand d) s n q = unary-Opens d s n q
  sum-Opens (joined op h m l r) s n q =
      sum-Opens l s (Then-NoAssign op (sign op) _ (binary_token op h).1) q

  pub expression-Opens :
      {t : Node Float} {P : Stream → Type 0} (d : IsExpression fl t) (s : Stream)
      → NoAssign P
      → ExpressionSpells fl d P s
      → Opens s
  expression-Opens (alone d) s n q = sum-Opens d s n q
  expression-Opens (compared op h l r) s n q =
      sum-Opens l s (Then-NoAssign op (sign op) _ (comparison_token op h).1) q

  -- A primary expression starts with no sign.
  pub primary-Plain :
      {t : Node Float} (P : Stream → Type 0) (d : IsPrimary fl t) (s : Stream)
      → PrimarySpells fl d P s
      → (matches s plus || matches s minus) ≡ false
  primary-Plain P (word name w) s (p, s', e, q) = rw e refl
  primary-Plain P (whole m) s (p, s', e, q) = rw e refl
  primary-Plain P (quoted x) s (p, s', e, q) = rw e refl
  primary-Plain P (called name args w l a) s (p, s₁, e, q) = rw e refl
