-- ===== src/Expr/Roundtrip/Edges.antt =====
-- About the first and the last character of what wq_workflow/core/ast/ast_serializer.py prints, and
-- about its `strip()`.
use worldquant_workflow_v2_r.Common.{
  Text, is_alnum, ℕ, ◌∷◌, ◌≡◌, ◌++◌, reverse, All, is_digit, ◌==◌, [], sym, true, All-map, false,
  append_assoc, arith, refl,
}
use worldquant_workflow_v2_r.Expr.Printer.{strip_left, strip, quote, infix_text, is_white, escape}
use worldquant_workflow_v2_r.Expr.Lexer.{is_word_char, is_word_start}
use worldquant_workflow_v2_r.Expr.Roundtrip.{IsWord}
use worldquant_workflow_v2_r.Expr.Roundtrip.Tokens.{IsNumeral}
use mathlib.Core.List.{reverse-append, reverse-reverse}
use worldquant_workflow_v2_r.Expr.Roundtrip.Scanning.{Apart}

-- Neither blank nor `=` comes first.
abbrev pub Begins : Text → Type 0
Begins [] = ⊥
Begins (c ∷ s) = ((c == b'=') ≡ false) × (is_white c ≡ false)

-- No blank comes last.
abbrev pub Closes : Text → Type 0
Closes s = (front : Text) × (c : ℕ) × (s ≡ front ++ (c ∷ [])) × (is_white c ≡ false)

abbrev pub IsSolid : Text → Type 0
IsSolid s = Begins s × Closes s

pub Begins-append : (s r : Text) → Begins s → Begins (s ++ r)
Begins-append [] r h = absurd h
Begins-append (c ∷ s) r h = h

pub Begins-Apart : (s rest : Text) → Begins s → Apart (s ++ rest)
Begins-Apart [] rest h = absurd h
Begins-Apart (c ∷ s) rest h = h.0

pub Closes-append : (s r : Text) → Closes r → Closes (s ++ r)
Closes-append s r (front, c, e, h) = (s ++ front, c, rw e (sym (append_assoc s front (c ∷ []))), h)

strip_left_begun : (s : Text) → Begins s → strip_left s ≡ s
unfolding strip_left
strip_left_begun [] h = absurd h
strip_left_begun (c ∷ s) h = rw (h.1, strip_left) refl

strip_left_dark : (c : ℕ) (s : Text) → is_white c ≡ false → strip_left (c ∷ s) ≡ c ∷ s
unfolding strip_left
strip_left_dark c s h = rw (h, strip_left) refl

reverse-closed : (front : Text) (c : ℕ) → reverse (front ++ (c ∷ [])) ≡ c ∷ reverse front
reverse-closed front c = reverse-append front (c ∷ [])

-- A text with no blank at either end is left as it is.
strip_solid : (s : Text) → IsSolid s → strip s ≡ s
unfolding strip
strip_solid s (b, (front, c, e, h)) = rw (strip_left_begun s b) (
    rw e (
      rw (reverse-closed front c, strip_left_dark c (reverse front) h)
        (rw (← reverse-closed front c) (reverse-reverse (front ++ (c ∷ []))))))

word_char_dark : (c : ℕ) → is_word_char c ≡ true → ((c == b'=') ≡ false) × (is_white c ≡ false)
unfolding is_alnum
word_char_dark c h = ground arith

word_start_char : (c : ℕ) → is_word_start c ≡ true → is_word_char c ≡ true
unfolding is_alnum
word_start_char c h = ground arith

-- A text whose characters are all visible closes.
Closes-of : (c : ℕ) (s : Text) → All (λ d. is_white d ≡ false) (c ∷ s) → Closes (c ∷ s)
Closes-of c [] h = ([], c, refl, h.0)
Closes-of c (d ∷ s) h = Closes-append (c ∷ []) (d ∷ s) (Closes-of d s h.1)

pub word-IsSolid : (s : Text) → IsWord s → IsSolid s
word-IsSolid [] h = absurd h
word-IsSolid (c ∷ s) h =
    let e = word_char_dark c (word_start_char c h.0) in
    (e, Closes-of c s (e.1, All-map s (λ d k. (word_char_dark d k).1) h.1))

digit_word_char : (c : ℕ) → is_digit c ≡ true → is_word_char c ≡ true
unfolding is_alnum
digit_word_char c h = ground arith

pub numeral-IsSolid : (s : Text) → IsNumeral s → IsSolid s
numeral-IsSolid [] h = absurd h
numeral-IsSolid (c ∷ s) h =
    let dark = λ (d : ℕ) (k : is_digit d ≡ true). word_char_dark d (digit_word_char d k) in
    (dark c h.0, Closes-of c s (All-map (c ∷ s) (λ d k. (dark d k).1) h))

pub quote-IsSolid : (s : Text) → IsSolid (quote s)
unfolding quote
quote-IsSolid s = ((refl, refl), (b'"' ∷ escape s, b'"', refl, refl))

-- What is printed of an operator between two texts that are solid
pub infix_text_lem :
    (l op r : Text) → IsSolid l → IsSolid r → infix_text l op r ≡ l ++ (b' ' ∷ (op ++ (b' ' ∷ r)))
infix_text_lem l op r a b = strip_solid _ (
  Begins-append l _ a.0,
  Closes-append l _ (Closes-append (b' ' ∷ op) _ (Closes-append (b' ' ∷ []) r b.1)),
)

pub infix-IsSolid : (l op r : Text) → IsSolid l → IsSolid r → IsSolid (infix_text l op r)
infix-IsSolid l op r a b = rw (infix_text_lem l op r a b) (
  Begins-append l _ a.0,
  Closes-append l _ (Closes-append (b' ' ∷ op) _ (Closes-append (b' ' ∷ []) r b.1)),
)
