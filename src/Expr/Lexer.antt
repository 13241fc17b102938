-- ===== src/Expr/Lexer.antt =====
-- `tokenize` of wq_workflow/core/parser/expression_parser.py. `Scan` is the outcome of one round of
-- its loop; the index of the program is `index`, and `rest` is the text from there on.
pub mod Shape
use worldquant_workflow_v2_r.Common.{
  ℕ, zero, suc, ◌+◌, ◌≡◌, refl, Bool, true, false, ◌&&◌, ◌||◌, Option, none, some, List, [], ◌∷◌,
  Text, length, codes, is_alpha, is_alnum, is_digit, ◌==◌, if◌then◌else◌,
}
use worldquant_workflow_v2_r.Expr.Token.{
  TokenType, Token, separator, ident, number, string, eof, lparen, rparen, comma, assign, plus,
  minus, star, slash, gt, lt, ge, le, eq, ne,
}
use worldquant_workflow_v2_r.Expr.Result.{
  Error, Result, ok, raised, out_of_fuel, bind, unclosed_string, unexpected_character,
}

abbrev pub is_space : ℕ → Bool
is_space c = c == b' ' || (c == 9 || c == 13)

abbrev pub is_separator : ℕ → Bool
is_separator c = c == 10 || c == b';'

abbrev pub is_word_start : ℕ → Bool
is_word_start c = is_alpha c || c == b'_'

abbrev pub is_word_char : ℕ → Bool
is_word_char c = is_alnum c || c == b'_'

abbrev pub is_number_char : ℕ → Bool
is_number_char c = is_digit c || c == b'.'

-- `index + 1 < len(text) and text[index + 1].isdigit()`
abbrev pub digit_next : Text → Bool
digit_next [] = false
digit_next (c ∷ rest) = is_digit c

-- The inner `while` loops: the longest run of characters that pass, and what is left.
unfoldable pub span : (ℕ → Bool) → Text → Text × Text
span p [] = ([], [])
span p (c ∷ rest) =
    let more = span p rest in elim (p c) [ true ↦ (c ∷ more.0, more.1) | false ↦ ([], c ∷ rest) ]

-- The loop inside a string: its value, the number of characters up to the closing quote and with
-- it, and the text behind. `none` is an unclosed string.
abbrev pub keep_char : ℕ → ℕ → Option (Text × ℕ × Text) → Option (Text × ℕ × Text)
keep_char c used none = none
keep_char c used (some (value, n, rest)) = some (c ∷ value, used + n, rest)

unfoldable pub scan_string : ℕ → Text → Option (Text × ℕ × Text)
scan_string quote [] = none
scan_string quote (c ∷ []) = if c == quote then some ([], 1, []) else none
scan_string quote (c ∷ d ∷ rest) =
    let escaped = keep_char d 2 (scan_string quote rest) in
    let plain = keep_char c 1 (scan_string quote (d ∷ rest)) in
    if c == b'\\' then escaped else if c == quote then some ([], 1, d ∷ rest) else plain

-- The signs of two characters.
unfoldable pub sign_of_two : ℕ → Text → Option TokenType
sign_of_two c [] = none
sign_of_two c (d ∷ rest) =
    if d == b'='
    then (if c == b'>'
        then some ge
        else if c == b'<'
        then some le
        else if c == b'='
        then some eq
        else if c == b'!'
        then some ne
        else none)
    else none

-- The signs of one character.
unfoldable pub sign_of_one : ℕ → Option TokenType
sign_of_one c =
    if c == b'('
    then some lparen
    else if c == b')'
    then some rparen
    else if c == b','
    then some comma
    else if c == b'='
    then some assign
    else if c == b'+'
    then some plus
    else if c == b'-'
    then some minus
    else if c == b'*'
    then some star
    else if c == b'/'
    then some slash
    else if c == b'<'
    then some lt
    else if c == b'>'
    then some gt
    else none

pub data Scan : Type 0 where
  skip : ℕ → Text → Scan
  emit : Token → ℕ → Text → Scan
  fail : Error → Scan

abbrev pub token : TokenType → Text → ℕ → Token
token type value position = record { type = type; value = value; position = position }

abbrev pub scan_span : TokenType → (ℕ → Bool) → ℕ → ℕ → Text → Scan
scan_span type p c index rest =
    let (taken, left) = span p rest in
    emit (token type (c ∷ taken) index) (index + 1 + length taken) left

abbrev close_string : ℕ → Option (Text × ℕ × Text) → Scan
close_string index none = fail (unclosed_string index)
close_string index (some (value, n, left)) = emit (token string value index) (index + 1 + n) left

abbrev pub second : Text → Text
second [] = []
second (d ∷ rest) = rest

abbrev pub one_sign : ℕ → ℕ → Text → Option TokenType → Scan
one_sign c index rest none = fail (unexpected_character c index)
one_sign c index rest (some type) = emit (token type (c ∷ []) index) (index + 1) rest

abbrev pub two_signs : ℕ → ℕ → Text → Option TokenType → Scan
two_signs c index rest none = one_sign c index rest (sign_of_one c)
two_signs c index rest (some type) =
    emit (token type (c ∷ b'=' ∷ []) index) (index + 2) (second rest)

-- One round of the outer loop, at the character `c`.
unfoldable pub scan : ℕ → ℕ → Text → Scan
unfolding span scan_string sign_of_two sign_of_one
scan index c rest =
    if is_space c
    then skip (index + 1) rest
    else if is_separator c
    then emit (token separator (c ∷ []) index) (index + 1) rest
    else if is_word_start c
    then scan_span ident is_word_char c index rest
    else if is_digit c || (c == b'.' && digit_next rest)
    then scan_span number is_number_char c index rest
    else if c == b'"' || c == b'\''
    then close_string index (scan_string c rest)
    else two_signs c index rest (sign_of_two c rest)

abbrev pub push_token : Token → Result (List Token) → Result (List Token)
push_token t r = bind r λ ts. ok (t ∷ ts)

-- The rest of the loop behind one round.
abbrev pub continue : (ℕ → Text → Result (List Token)) → Scan → Result (List Token)
continue loop (skip index left) = loop index left
continue loop (emit t index left) = push_token t (loop index left)
continue loop (fail e) = raised e

unfoldable pub lex : ℕ → ℕ → Text → Result (List Token)
unfolding scan
lex zero index text = out_of_fuel
lex (suc f) index [] = ok (token eof [] index ∷ [])
lex (suc f) index (c ∷ rest) = continue (lex f) (scan index c rest)

-- Each round takes a character, so one round more than there are characters is enough.
unfoldable pub tokenize : Text → Result (List Token)
unfolding lex
tokenize text = lex (suc (length text)) 0 text

lex_call :
    tokenize (codes "rank(a1, 5)")
    ≡ ok (
        token ident (codes "rank") 0
        ∷ token lparen (codes "(") 4
        ∷ token ident (codes "a1") 5
        ∷ token comma (codes ",") 7
        ∷ token number (codes "5") 9
        ∷ token rparen (codes ")") 10
        ∷ token eof [] 11
        ∷ [])
unfolding tokenize is_alpha is_alnum is_digit
lex_call = refl
