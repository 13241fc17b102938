-- ===== src/Expr/Lexer/Shape.antt =====
-- About what `tokenize` of wq_workflow/core/parser/expression_parser.py returns.
use worldquant_workflow_v2_r.Common.{
  ℕ, zero, suc, ◌+◌, ◌≤◌, ◌<◌, ◌≡◌, refl, ◌≢◌, Bool, true, false, Option, none, some, List, [], ◌∷◌,
  Text, length, arith, if◌then◌else◌, is_digit, ◌==◌, ◌||◌, ◌&&◌,
}
use worldquant_workflow_v2_r.Expr.Token.{TokenType, Token, eof}
use worldquant_workflow_v2_r.Expr.Result.{Result, Within, returns, raises, Within-bind, Within-map}
use worldquant_workflow_v2_r.Expr.Lexer.{
  Scan, skip, emit, fail, scan, span, scan_string, sign_of_two, sign_of_one, lex, tokenize,
  push_token, keep_char, close_string, scan_span, is_space, is_separator, is_word_start, ident,
  is_word_char, Error, one_sign, two_signs, continue, digit_next, number, is_number_char,
}

-- The tokens start at `from` or later, each behind the one before; the last, and only the last, is
-- EOF, at the end of the text.
pub data Tokens (size : ℕ) : ℕ → List Token → Type 0 where
  at_end :
      {from : ℕ} (t : Token)
      → t.type ≡ eof
      → t.position ≡ size
      → from ≤ size
      → Tokens size from (t ∷ [])
  before :
      {from : ℕ} (t : Token) (next : ℕ) {ts : List Token}
      → t.type ≢ eof
      → from ≤ t.position
      → t.position < next
      → Tokens size next ts
      → Tokens size from (t ∷ ts)

-- A round at `index` goes forward by the characters that it takes.
data Advances (index : ℕ) (rest : Text) : Scan → Type 0 where
  skips :
      (index' : ℕ) (left : Text)
      → index < index'
      → index' + length left ≡ index + suc (length rest)
      → Advances index rest (skip index' left)
  emits :
      (t : Token) (index' : ℕ) (left : Text)
      → t.type ≢ eof
      → t.position ≡ index
      → index < index'
      → index' + length left ≡ index + suc (length rest)
      → Advances index rest (emit t index' left)
  fails : (e : Error) → Advances index rest (fail e)

length-span :
    (p : ℕ → Bool) (text : Text) → length (span p text).0 + length (span p text).1 ≡ length text
unfolding span
length-span p [] = omega arith
length-span p (c ∷ text) = ground (arith, length-span p text)

-- A string takes one character at least of the `n` that there are.
data Consumes (n : ℕ) : Option (Text × ℕ × Text) → Type 0 where
  unclosed : Consumes n none
  closed :
      (value left : Text) (used : ℕ)
      → 0 < used
      → used + length left ≡ n
      → Consumes n (some (value, used, left))

keep_char-Consumes :
    {n : ℕ} {o : Option (Text × ℕ × Text)} (c k m : ℕ)
    → 0 < k
    → n + k ≡ m
    → Consumes n o
    → Consumes m (keep_char c k o)
keep_char-Consumes c k m pos e unclosed = unclosed
keep_char-Consumes c k m pos e (closed value left used h g) =
    closed (c ∷ value) left (k + used) (omega arith) (omega arith)

Consumes-if :
    {n : ℕ} (b : Bool) {x y : Option (Text × ℕ × Text)}
    → Consumes n x
    → Consumes n y
    → Consumes n (if b then x else y)
Consumes-if true hx hy = hx
Consumes-if false hx hy = hy

scan_string-Consumes : (quote : ℕ) (text : Text) → Consumes (length text) (scan_string quote text)
unfolding scan_string
scan_string-Consumes quote [] = unclosed
scan_string-Consumes quote (c ∷ []) =
    Consumes-if (c == quote) (closed [] [] 1 (omega arith) (omega arith)) unclosed
scan_string-Consumes quote (c ∷ d ∷ text) =
    let n = length (c ∷ d ∷ text) in
    Consumes-if (c == b'\\')
      (keep_char-Consumes d 2 n (omega arith) (omega arith) (scan_string-Consumes quote text))
      (Consumes-if (c == quote) (closed [] (d ∷ text) 1 (omega arith) (omega arith)) (
        keep_char-Consumes c 1 n (omega arith) (omega arith)
          (scan_string-Consumes quote (d ∷ text))))

Advances-if :
    {index : ℕ} {rest : Text} (b : Bool) {x y : Scan}
    → Advances index rest x
    → Advances index rest y
    → Advances index rest (if b then x else y)
Advances-if true hx hy = hx
Advances-if false hx hy = hy

close_string-Advances :
    {index : ℕ} {rest : Text} {o : Option (Text × ℕ × Text)}
    → Consumes (length rest) o
    → Advances index rest (close_string index o)
close_string-Advances unclosed = fails _
close_string-Advances (closed value left used h g) =
    emits _ _ left (λ e. cc) refl (omega arith) (omega arith)

sign_of_two-ne-eof : (c : ℕ) (rest : Text) → sign_of_two c rest ≢ some eof
unfolding sign_of_two
sign_of_two-ne-eof c [] = cc
sign_of_two-ne-eof c (d ∷ rest) = ground arith

sign_of_two-nil : (c : ℕ) → sign_of_two c [] ≡ none
unfolding sign_of_two
sign_of_two-nil c = refl

sign_of_one-ne-eof : (c : ℕ) → sign_of_one c ≢ some eof
unfolding sign_of_one
sign_of_one-ne-eof c = ground arith

one_sign-Advances :
    (c index : ℕ) (rest : Text) (o : Option TokenType)
    → o ≢ some eof
    → Advances index rest (one_sign c index rest o)
one_sign-Advances c index rest none h = fails _
one_sign-Advances c index rest (some t) h =
    emits _ _ rest (λ e. h (cc)) refl (omega arith) (omega arith)

two_signs-Advances :
    (c index : ℕ) (rest : Text) (o : Option TokenType)
    → sign_of_two c rest ≡ o
    → Advances index rest (two_signs c index rest o)
two_signs-Advances c index rest none h =
    one_sign-Advances c index rest (sign_of_one c) (sign_of_one-ne-eof c)
two_signs-Advances c index [] (some t) h = absurd (cc (sign_of_two-nil c))
two_signs-Advances c index (d ∷ rest) (some t) h =
    emits _ _ rest (λ e. sign_of_two-ne-eof c (d ∷ rest) (cc)) refl (omega arith) (omega arith)

scan_span-Advances :
    (type : TokenType) (p : ℕ → Bool) (c index : ℕ) (rest : Text)
    → type ≢ eof
    → Advances index rest (scan_span type p c index rest)
scan_span-Advances type p c index rest h =
    emits _ _ (span p rest).1 h refl (omega arith) (omega (arith, length-span p rest))

scan-Advances : (index c : ℕ) (rest : Text) → Advances index rest (scan index c rest)
unfolding scan
scan-Advances index c rest = Advances-if (is_space c) (skips _ rest (omega arith) (omega arith)) (
    Advances-if (is_separator c) (emits _ _ rest (λ e. cc) refl (omega arith) (omega arith)) (
      Advances-if (is_word_start c) (scan_span-Advances ident is_word_char c index rest (λ e. cc)) (
        Advances-if (is_digit c || (c == b'.' && digit_next rest))
          (scan_span-Advances number is_number_char c index rest (λ e. cc))
          (Advances-if (c == b'"' || c == b'\'')
            (close_string-Advances (scan_string-Consumes c rest))
            (two_signs-Advances c index rest (sign_of_two c rest) refl)))))

-- The token of a round that is followed by the others.
push_token-Within :
    (size index index' : ℕ) (t : Token) {r : Result (List Token)}
    → t.type ≢ eof
    → t.position ≡ index
    → index < index'
    → Within (Tokens size index') r
    → Within (Tokens size index) (push_token t r)
push_token-Within size index index' t n p h w =
    Within-bind w λ ts k. returns (before t index' n (omega arith) (omega arith) k)

Tokens-from :
    {size from from' : ℕ} {ts : List Token}
    → from ≤ from'
    → Tokens size from' ts
    → Tokens size from ts
Tokens-from h (at_end t e p k) = at_end t e p (omega arith)
Tokens-from h (before t next n p q k) = before t next n (omega arith) q k

-- The rounds behind the first, for a loop that keeps the claim on any shorter text.
continue-Within :
    (size index : ℕ) (rest : Text) (loop : ℕ → Text → Result (List Token)) (s : Scan)
    → ((index' : ℕ) (left : Text)
        → length left ≤ length rest
        → index' + length left ≡ size
        → Within (Tokens size index') (loop index' left))
    → index + suc (length rest) ≡ size
    → Advances index rest s
    → Within (Tokens size index) (continue loop s)
continue-Within size index rest loop s next e (skips index' left h g) =
    Within-map (λ _ k. Tokens-from (omega arith) k) (next index' left (omega arith) (omega arith))
continue-Within size index rest loop s next e (emits t index' left n p h g) =
    push_token-Within size index index' t n p h (next index' left (omega arith) (omega arith))
continue-Within size index rest loop s next e (fails _) = raises

lex-Within :
    (size f index : ℕ) (text : Text)
    → length text < f
    → index + length text ≡ size
    → Within (Tokens size index) (lex f index text)
unfolding lex
lex-Within size zero index text h e = absurd (omega arith)
lex-Within size (suc f) index [] h e = returns (at_end _ refl (omega arith) (omega arith))
lex-Within size (suc f) index (c ∷ rest) h e =
    continue-Within size index rest (lex f) (scan index c rest)
      (λ index' left short g. lex-Within size f index' left (omega arith) g) e
      (scan-Advances index c rest)

-- For every text the lexer raises, or it returns tokens that end in the only EOF, at the end of
-- the text, each token starting behind the start of the one before and inside the text.
pub tokenize-Within : (text : Text) → Within (Tokens (length text) 0) (tokenize text)
unfolding tokenize
tokenize-Within text =
    lex-Within (length text) (suc (length text)) 0 text (omega arith) (omega arith)
