-- ===== src/Expr/Roundtrip.antt =====
-- The expressions that are printed without a loss by wq_workflow/core/ast/ast_serializer.py: a
-- grammar in layers, after the functions of wq_workflow/core/parser/expression_parser.py.
pub mod Scanning
pub mod Signs
pub mod Tokens
pub mod Words
pub mod Edges
pub mod Texts
pub mod Solid
pub mod Lexing
pub mod Opening
pub mod Parsing
pub mod Reading
pub mod Trees
pub mod Whole
pub mod Regrouped
use worldquant_workflow_v2_r.Common.{Text, ◌∷◌, ◌≡◌, ℕ, true, All, [], lower, ◌||◌, ◌≤◌, ◌+◌}
use worldquant_workflow_v2_r.Expr.Floats.{Floats}
use worldquant_workflow_v2_r.Expr.Ast.{
  Node, Nodes, nil, cons, number, int, string, str, empty, binary, comparison,
}
use worldquant_workflow_v2_r.Expr.Lexer.{is_word_start, is_word_char}
use worldquant_workflow_v2_r.Expr.Parser.{
  name_node, name_of_assignment, leaf, call_node, one, is_binary, precedence, two, is_comparison,
}
use worldquant_workflow_v2_r.Expr.Token.{TokenType, ◌is◌, plus, minus}

-- A name: a word character that is no digit, then word characters.
abbrev pub IsWord : Text → Type 0
IsWord [] = ⊥
IsWord (c ∷ s) = (is_word_start c ≡ true) × All (λ d. is_word_char d ≡ true) s

module _ (fl : Floats) where
  open fl use {Float}

  mutual
    -- A name, a whole number, a string, or a call of a name in lower case.
    pub data IsPrimary : Node Float → Type 0 where
      word : (name : Text) → IsWord name → IsPrimary (name_node fl name)
      whole : (n : ℕ) → IsPrimary (leaf fl number [] (int n))
      quoted : (s : Text) → IsPrimary (leaf fl string [] (str s))
      called :
          (name : Text) (args : Nodes Float)
          → IsWord name
          → lower name ≡ name
          → AllExpressions args
          → IsPrimary (call_node fl name args empty)

    -- Signs in front of a primary expression.
    pub data IsUnary : Node Float → Type 0 where
      bare : {t : Node Float} → IsPrimary t → IsUnary t
      signed :
          {t : Node Float} (op : TokenType)
          → (op is plus || op is minus) ≡ true
          → IsUnary t
          → IsUnary (one fl op t)

    -- Operators of precedence `k` at least, the left operand of one of the same precedence or a
    -- higher one, and the right operand of a higher one.
    pub data IsSum : ℕ → Node Float → Type 0 where
      operand : {k : ℕ} {t : Node Float} → IsUnary t → IsSum k t
      joined :
          {k : ℕ} {l r : Node Float} (op : TokenType)
          → is_binary op ≡ true
          → k ≤ precedence op
          → IsSum (precedence op) l
          → IsSum (precedence op + 1) r
          → IsSum k (two fl binary op l r)

    -- One comparison at most.
    pub data IsExpression : Node Float → Type 0 where
      alone : {t : Node Float} → IsSum 0 t → IsExpression t
      compared :
          {l r : Node Float} (op : TokenType)
          → is_comparison op ≡ true
          → IsSum 0 l
          → IsSum 0 r
          → IsExpression (two fl comparison op l r)

    pub data AllExpressions : Nodes Float → Type 0 where
      none_left : AllExpressions nil
      one_more :
          {t : Node Float} {ts : Nodes Float}
          → IsExpression t
          → AllExpressions ts
          → AllExpressions (cons t ts)

  -- An expression, or a name that one is assigned to.
  pub data IsStatement : Node Float → Type 0 where
    result : {t : Node Float} → IsExpression t → IsStatement t
    assigned :
        {t : Node Float} (name : Text)
        → IsWord name
        → IsExpression t
        → IsStatement (name_of_assignment fl name t)

  pub data AllStatements : Nodes Float → Type 0 where
    no_more : AllStatements nil
    then_more :
        {t : Node Float} {ts : Nodes Float}
        → IsStatement t
        → AllStatements ts
        → AllStatements (cons t ts)
