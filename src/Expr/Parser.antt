-- ===== src/Expr/Parser.antt =====
-- `ExpressionParser.build_ast` and `_TokenStream` of wq_workflow/core/parser/expression_parser.py:
-- recursive descent. A stream is the current token and those behind it; the last token stays.
pub mod Took
pub mod Fuel
pub mod Total
pub mod NumberNodes
pub mod Numbers
use worldquant_workflow_v2_r.Common.{
  ℕ, zero, suc, ◌+◌, ◌-◌, ◌*◌, Bool, ◌&&◌, ◌||◌, not, Option, none, some, List, [], ◌∷◌, Text,
  codes, lower, mem_text, find_text, any, is_digit, ltb, String, ◌==◌, if◌then◌else◌, length,
}
use worldquant_workflow_v2_r.Expr.Operators.{operator_arity, safe_fields}
use worldquant_workflow_v2_r.Expr.Token.{
  TokenType, Token, separator, ident, eof, lparen, rparen, comma, assign, plus, minus, star, slash,
  gt, lt, ge, le, eq, ne, ◌is◌, sign,
}
use worldquant_workflow_v2_r.Expr.Token
use worldquant_workflow_v2_r.Expr.Ast.{
  NodeType, program, assignment, operator, field, variable, number, string, unary, binary,
  comparison, Value, absent, int, float, str, Node, Nodes, node, nil, cons, Params, empty, append,
  has_param, put_literal, put_tree, Metadata, no_metadata,
}
use worldquant_workflow_v2_r.Expr.Floats.{Floats}
use worldquant_workflow_v2_r.Expr.Result.{
  Result, ok, raised, out_of_fuel, bind, expected, unexpected_token, unclosed_call, expected_comma,
  bad_number, no_tokens,
}
use worldquant_workflow_v2_r.Expr.Lexer.{tokenize}

-- WINDOW_OPERATORS
abbrev pub window_operators : List String
window_operators =
    "ts_backfill" ∷ "ts_corr" ∷ "ts_count_nans" ∷ "ts_decay_exp_window" ∷ "ts_delta" ∷ "ts_mean"
    ∷ "ts_product" ∷ "ts_rank" ∷ "ts_scale" ∷ "ts_std_dev" ∷ "ts_sum" ∷ "ts_zscore" ∷ []

pub record Stream : Type 0 where
  pub current : Token
  pub rest : List Token

abbrev pub type_now : Stream → TokenType
type_now s = s.current.type

-- `match(type)`
abbrev pub matches : Stream → TokenType → Bool
matches s type = type_now s is type

-- `peek(1).type`
abbrev peek_in : Token → List Token → TokenType
peek_in t [] = t.type
peek_in t (u ∷ us) = u.type

abbrev pub peek_type : Stream → TokenType
peek_type s = peek_in s.current s.rest

abbrev step_over : Token → List Token → Stream
step_over t [] = record { current = t; rest = [] }
step_over t (u ∷ us) = record { current = u; rest = us }

-- `advance()`, without its result, which is the current token
unfoldable pub advance : Stream → Stream
advance s = step_over s.current s.rest

abbrev pub Parser {ℓ} : Type ℓ → Type ℓ
Parser A = Stream → Result (A × Stream)

unfoldable pub expect : TokenType → Parser (Unit {0})
unfolding advance
expect type s =
    if matches s type
    then ok (tt, advance s)
    else raised (expected type (type_now s) s.current.position)

-- `int(text)`, for the digits of a number token
unfoldable pub digits_value : ℕ → Text → Option ℕ
digits_value acc [] = some acc
digits_value acc (c ∷ rest) =
    let more = digits_value (acc * 10 + (c - b'0')) rest in if is_digit c then more else none

unfoldable pub int_of : Text → Option ℕ
unfolding digits_value
int_of [] = none
int_of (c ∷ rest) = digits_value 0 (c ∷ rest)

abbrev pub is_comparison : TokenType → Bool
is_comparison t = t is gt || (t is lt || (t is ge || (t is le || (t is eq || t is ne))))

abbrev pub is_binary : TokenType → Bool
is_binary t = t is plus || (t is minus || (t is star || t is slash))

abbrev pub precedence : TokenType → ℕ
precedence t = if t is plus || t is minus then 1 else 2

abbrev pub arity_metadata : Text → Metadata
arity_metadata name = record { arity = find_text name operator_arity; replaced_from = none }

abbrev pub or_bad_number : {F : Type 0} → Text → Option (Value F) → Result (Value F)
or_bad_number text none = raised (bad_number text)
or_bad_number text (some v) = ok v

module _ (fl : Floats) where
  open fl use {Float, of_text}

  abbrev Ast : Type 0
  Ast = Node Float

  abbrev pub to_int : Option ℕ → Option (Value Float)
  to_int none = none
  to_int (some i) = some (int i)

  abbrev pub to_float : Option Float → Option (Value Float)
  to_float none = none
  to_float (some x) = some (float x)

  -- `float(token.value) if "." in token.value else int(token.value)`
  unfoldable pub number_value : Text → Result (Value Float)
  unfolding int_of
  number_value text =
      or_bad_number text
        (if any (λ c. c == b'.') text then to_float (of_text text) else to_int (int_of text))

  abbrev pub leaf : NodeType → Text → Value Float → Ast
  leaf type name v = node type name [] nil empty no_metadata v

  unfoldable pub name_node : Text → Ast
  name_node name = leaf (if mem_text (lower name) safe_fields then field else variable) name absent

  -- `parameters[key] = _literal_or_node(value)`
  unfoldable pub put_param : Text → Ast → Params Float → Params Float
  put_param key (node number n o cs ps m v) params = put_literal key v params
  put_param key (node string n o cs ps m v) params = put_literal key v params
  put_param key ast params = put_tree key ast params

  -- `children[-1]` when it is a number: the other children and its value
  unfoldable pub split_window : Nodes Float → Option (Nodes Float × Value Float)
  split_window nil = none
  split_window (cons (node number n o cs ps m v) nil) = some (nil, v)
  split_window (cons c nil) = none
  split_window (cons c (cons d cs)) = elim (split_window (cons d cs)) [
    | none ↦ none
    | some (front, v) ↦ some (cons c front, v)
  ]

  -- The end of `_call`: the last argument of a window operator becomes its window.
  unfoldable pub call_node : Text → Nodes Float → Params Float → Ast
  unfolding split_window
  call_node name children params =
      let plain = node operator name [] children params (arity_metadata name) absent in
      if mem_text name window_operators && not (has_param (codes "window") params)
      then elim (split_window children) [
        | none ↦ plain
        | some (front, v) ↦
            node operator name [] front (put_literal (codes "window") v params)
              (arity_metadata name) absent
      ]
      else plain

  abbrev pub two : NodeType → TokenType → Ast → Ast → Ast
  two type op left right =
      node type [] (sign op) (cons left (cons right nil)) empty no_metadata absent

  abbrev pub one : TokenType → Ast → Ast
  one op child = node unary [] (sign op) (cons child nil) empty no_metadata absent

  abbrev pub name_of_assignment : Text → Ast → Ast
  name_of_assignment name e = node assignment name [] (cons e nil) empty no_metadata absent

  -- `_expression` is `_comparison`. A call costs a unit of fuel, and so does a round of a loop.
  unfoldable mutual
    pub expression : ℕ → Parser Ast
    expression zero s = out_of_fuel
    expression (suc f) s = bind (binary_level f 0 s) λ (left, s₁).
        let compared =
          bind (binary_level f 0 (advance s₁))
            λ (right, s₂). ok (two comparison (type_now s₁) left right, s₂) in
        if is_comparison (type_now s₁) then compared else ok (left, s₁)

    -- `_binary(min_precedence)`
    pub binary_level : ℕ → ℕ → Parser Ast
    binary_level zero least s = out_of_fuel
    binary_level (suc f) least s = bind (unary_level f s) λ (left, s₁). binary_rest f least left s₁

    -- The loop of `_binary`.
    pub binary_rest : ℕ → ℕ → Ast → Parser Ast
    binary_rest zero least left s = out_of_fuel
    binary_rest (suc f) least left s =
        let op = type_now s in
        let more =
          bind (binary_level f (precedence op + 1) (advance s))
            λ (right, s₁). binary_rest f least (two binary op left right) s₁ in
        if is_binary op && not (ltb (precedence op) least) then more else ok (left, s)

    -- `_unary`
    pub unary_level : ℕ → Parser Ast
    unary_level zero s = out_of_fuel
    unary_level (suc f) s =
        let op = type_now s in
        let signed = bind (unary_level f (advance s)) λ (child, s₁). ok (one op child, s₁) in
        let plain = primary f s in if op is plus || op is minus then signed else plain

    -- `_primary`
    pub primary : ℕ → Parser Ast
    primary zero s = out_of_fuel
    primary (suc f) s =
        let t = s.current in
        let called = call f t.value (advance s) in
        let bracketed =
          bind (expression f (advance s))
            λ (e, s₁). bind (expect rparen s₁) λ (_, s₂). ok (e, s₂) in
        let numbered = bind (number_value t.value) λ v. ok (leaf number [] v, advance s) in
        if t.type is Token.number
        then numbered
        else if t.type is Token.string
        then ok (leaf string [] (str t.value), advance s)
        else if t.type is ident
        then (if matches (advance s) lparen then called else ok (name_node t.value, advance s))
        else if t.type is lparen
        then bracketed
        else raised (unexpected_token t.type t.position)

    -- `_call`
    pub call : ℕ → Text → Parser Ast
    call zero name s = out_of_fuel
    call (suc f) name s = bind (expect lparen s) λ (_, s₁).
        bind (arguments f name nil empty s₁) λ ((children, params), s₂).
          bind (expect rparen s₂) λ (_, s₃). ok (call_node (lower name) children params, s₃)

    -- The loop of `_call`.
    pub arguments : ℕ → Text → Nodes Float → Params Float → Parser (Nodes Float × Params Float)
    arguments zero name children params s = out_of_fuel
    arguments (suc f) name children params s =
        let keyword = bind (expect assign (advance s)) λ (_, s₁).
          bind (expression f s₁)
            λ (value, s₂). separated f name children (put_param s.current.value value params) s₂ in
        let positional =
          bind (expression f s) λ (value, s₁). separated f name (append children value) params s₁ in
        if matches s rparen
        then ok ((children, params), s)
        else if matches s eof
        then raised (unclosed_call name)
        else if matches s ident && peek_type s is assign
        then keyword
        else positional

    -- The end of a round of that loop.
    pub separated : ℕ → Text → Nodes Float → Params Float → Parser (Nodes Float × Params Float)
    separated zero name children params s = out_of_fuel
    separated (suc f) name children params s =
        let after_comma = arguments f name children params (advance s) in
        let closing = arguments f name children params s in
        if matches s comma
        then after_comma
        else if not (matches s rparen)
        then raised (expected_comma s.current.position)
        else closing

  -- `_statement`
  unfoldable pub statement : ℕ → Parser Ast
  unfolding expression expect
  statement f s =
      let assigned = bind (expect assign (advance s)) λ (_, s₁).
        bind (expression f s₁) λ (e, s₂). ok (name_of_assignment s.current.value e, s₂) in
      if matches s ident && peek_type s is assign then assigned else expression f s

  -- The outer loop of `build_ast`; a run of separators is skipped by its rounds.
  unfoldable pub statements : ℕ → Parser (Nodes Float)
  unfolding statement
  statements zero s = out_of_fuel
  statements (suc f) s =
      let skipped = statements f (advance s) in
      let parsed =
        bind (statement f s) λ (n, s₁). bind (statements f s₁) λ (ns, s₂). ok (cons n ns, s₂) in
      if matches s eof then ok (nil, s) else if matches s separator then skipped else parsed

  abbrev pub as_program : Nodes Float → Ast
  as_program (cons n nil) = n
  as_program ns = node program [] [] ns empty no_metadata absent

  -- `build_ast(tokens)`. The fuel is enough for tokens that end in EOF: see Parser/Fuel.
  unfoldable pub build_ast : List Token → Result Ast
  unfolding statements
  build_ast [] = raised no_tokens
  build_ast (t ∷ ts) =
      bind (statements (8 * length ts + 6) (record { current = t; rest = ts }))
        λ (ns, _). ok (as_program ns)

  -- `parse(expression)`
  unfoldable pub parse : Text → Result Ast
  unfolding build_ast
  parse text = bind (tokenize text) build_ast
