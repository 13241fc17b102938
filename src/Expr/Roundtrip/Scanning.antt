-- ===== src/Expr/Roundtrip/Scanning.antt =====
-- About the rounds of the lexer of wq_workflow/core/parser/expression_parser.py on the texts of
-- single tokens.
use worldquant_workflow_v2_r.Expr.Parser.{Stream}
use worldquant_workflow_v2_r.Expr.Token.{Token, TokenType, eof, separator}
use worldquant_workflow_v2_r.Common.{
  Text, [], List, ℕ, ◌∷◌, ◌≡◌, ◌==◌, ◌+◌, false, refl, suc, zero, is_alnum,
}
use worldquant_workflow_v2_r.Expr.Lexer.{lex, token, scan, emit, skip, is_word_char, is_number_char}
use worldquant_workflow_v2_r.Expr.Result.{Gives, starved, Gives-bind, gives}

-- All the tokens of a stream, and a token in front of one.
abbrev pub flat : Stream → List Token
flat s = s.current ∷ s.rest

abbrev pub next : Token → Stream → Stream
next t s = record { current = t; rest = flat s }

-- The lexer makes a stream with the property `P` of the text, wherever the text stands.
abbrev pub Lexes : (Stream → Type 0) → Text → Type 0
Lexes P text = (i : ℕ) → (s : Stream) × ((f : ℕ) → Gives (flat s) (lex f i text)) × P s

-- A token, and then what satisfies `P`
abbrev pub Then : TokenType → Text → (Stream → Type 0) → Stream → Type 0
Then type value P s = (p : ℕ) × (s' : Stream) × (s ≡ next (token type value p) s') × P s'

-- No `=` comes next.
abbrev pub Apart : Text → Type 0
Apart [] = Unit
Apart (c ∷ s) = (c == b'=') ≡ false

-- A name or a number ends in front of such a text.
abbrev pub Breaks : Text → Type 0
Breaks [] = Unit
Breaks (c ∷ s) = ((c == b'=') ≡ false) × (is_word_char c ≡ false) × (is_number_char c ≡ false)

-- The characters that come behind a name or a number in what is printed
pub printed_Breaks :
    (rest : Text)
    → Breaks (b'(' ∷ rest)
      × Breaks (b')' ∷ rest)
      × Breaks (b',' ∷ rest)
      × Breaks (b' ' ∷ rest)
      × Breaks (10 ∷ rest)
unfolding is_alnum
printed_Breaks rest = (
  (refl, refl, refl),
  (refl, refl, refl),
  (refl, refl, refl),
  (refl, refl, refl),
  (refl, refl, refl),
)

pub Breaks-Apart : (s : Text) → Breaks s → Apart s
Breaks-Apart [] h = tt
Breaks-Apart (c ∷ s) h = h.0

lex-Gives_emit :
    {j : ℕ} {left : Text} {t : Token} {ts : List Token} (f c i : ℕ) (rest : Text)
    → scan i c rest ≡ emit t j left
    → ((g : ℕ) → Gives ts (lex g j left))
    → Gives (t ∷ ts) (lex f i (c ∷ rest))
unfolding lex
lex-Gives_emit zero c i rest e h = starved
lex-Gives_emit (suc f) c i rest e h = rw e (Gives-bind _ (h f) gives)

lex-Gives_skip :
    {j : ℕ} {left : Text} {ts : List Token} (f c i : ℕ) (rest : Text)
    → scan i c rest ≡ skip j left
    → ((g : ℕ) → Gives ts (lex g j left))
    → Gives ts (lex f i (c ∷ rest))
unfolding lex
lex-Gives_skip zero c i rest e h = starved
lex-Gives_skip (suc f) c i rest e h = rw e (h f)

lex-Gives_end : (i f : ℕ) → Gives (token eof [] i ∷ []) (lex f i [])
unfolding lex
lex-Gives_end i zero = starved
lex-Gives_end i (suc f) = gives

abbrev pub AtEnd : Stream → Type 0
AtEnd s = (i : ℕ) × (s ≡ record { current = token eof [] i; rest = [] })

pub end-Lexes : Lexes AtEnd []
end-Lexes i = (record { current = token eof [] i; rest = [] }, lex-Gives_end i, (i, refl))

module _ {P : Stream → Type 0} where
  pub emit-Lexes :
      (type : TokenType) (value : Text) (c : ℕ) (rest left : Text) (j : ℕ → ℕ)
      → ((i : ℕ) → scan i c rest ≡ emit (token type value i) (j i) left)
      → Lexes P left
      → Lexes (Then type value P) (c ∷ rest)
  emit-Lexes type value c rest left j e h i =
      let (s, g, p) = h (j i) in
      (next (token type value i) s, (λ f. lex-Gives_emit f c i rest (e i) g), (i, s, refl, p))

  pub space-Lexes : (rest : Text) → Lexes P rest → Lexes P (b' ' ∷ rest)
  unfolding scan
  space-Lexes rest h i =
      let (s, g, p) = h (i + 1) in (s, (λ f. lex-Gives_skip f b' ' i rest refl g), p)

  pub newline-Lexes : (rest : Text) → Lexes P rest → Lexes (Then separator (10 ∷ []) P) (10 ∷ rest)
  unfolding scan
  newline-Lexes rest h = emit-Lexes separator (10 ∷ []) 10 rest rest (λ i. i + 1) (λ i. refl) h
