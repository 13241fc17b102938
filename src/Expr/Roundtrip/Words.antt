-- ===== src/Expr/Roundtrip/Words.antt =====
-- About names, numbers and strings in the lexer of wq_workflow/core/parser/expression_parser.py:
-- the token that it makes of each.
use worldquant_workflow_v2_r.Expr.Token.{number, string, ident}
use worldquant_workflow_v2_r.Common.{
  Text, ℕ, ◌++◌, ◌==◌, ◌≡◌, ◌∷◌, is_alpha, false, some, is_alnum, [], ◌+◌, Bool-cases, is_digit,
  refl, inl, append_assoc, ==→eq, inr, length,
}
use worldquant_workflow_v2_r.Expr.Lexer.{scan_string, scan, is_word_char, is_number_char}
use worldquant_workflow_v2_r.Expr.Printer.{escape, quote, decimal}
use worldquant_workflow_v2_r.Expr.Parser.{Stream}
use worldquant_workflow_v2_r.Expr.Roundtrip.{IsWord}
use worldquant_workflow_v2_r.Expr.Roundtrip.Tokens.{
  IsNumeral, digit_only, word_start_only, decimal-IsNumeral, span-append, Breaks-word, number_chars,
  Breaks-number,
}
use worldquant_workflow_v2_r.Expr.Roundtrip.Scanning.{Breaks, Lexes, Then, emit-Lexes}

-- A text with a quote behind it is not empty.
quote_behind : (s rest : Text) → (d : ℕ) × (r : Text) × ((s ++ (b'"' ∷ rest)) ≡ d ∷ r)
quote_behind [] rest = (b'"', rest, refl)
quote_behind (c ∷ s) rest = (c, s ++ (b'"' ∷ rest), refl)

scan_string_plain :
    (c d n : ℕ) (s rest left : Text)
    → (c == b'\\') ≡ false
    → (c == b'"') ≡ false
    → scan_string b'"' (d ∷ rest) ≡ some (s, n, left)
    → scan_string b'"' (c ∷ d ∷ rest) ≡ some (c ∷ s, 1 + n, left)
unfolding scan_string
scan_string_plain c d n s rest left h k e = rw (h, k, e) refl

scan_string_escaped :
    (d n : ℕ) (s rest left : Text)
    → scan_string b'"' rest ≡ some (s, n, left)
    → scan_string b'"' (b'\\' ∷ d ∷ rest) ≡ some (d ∷ s, 2 + n, left)
unfolding scan_string
scan_string_escaped d n s rest left e = rw e refl

scan_string_closed : (rest : Text) → (n : ℕ) × (scan_string b'"' (b'"' ∷ rest) ≡ some ([], n, rest))
unfolding scan_string
scan_string_closed [] = (1, refl)
scan_string_closed (c ∷ rest) = (1, refl)

-- The string that was printed is read back, whatever stands behind its closing quote.
scan_string-escape :
    (s rest : Text) → (n : ℕ) × (scan_string b'"' (escape s ++ (b'"' ∷ rest)) ≡ some (s, n, rest))
unfolding escape
scan_string-escape [] rest = scan_string_closed rest
scan_string-escape (c ∷ s) rest =
    let (n, e) = scan_string-escape s rest in
    elim (Bool-cases (c == b'\\')) [
      | inl h ↦ (2 + n, rw h (rw (==→eq c b'\\' h) (scan_string_escaped b'\\' n s _ rest e)))
      | inr h ↦ elim (Bool-cases (c == b'"')) [
        | inl k ↦ (2 + n, rw (h, k) (rw (==→eq c b'"' k) (scan_string_escaped b'"' n s _ rest e)))
        | inr k ↦
            let (d, r, q) = quote_behind (escape s) rest in
            (1 + n, rw (h, k) (rw q (scan_string_plain c d n s r rest h k (rw (← q) e))))
      ]
    ]

module _ {P : Stream → Type 0} where
  pub word-Lexes :
      (name rest : Text)
      → IsWord name
      → Breaks rest
      → Lexes P rest
      → Lexes (Then ident name P) (name ++ rest)
  unfolding scan
  word-Lexes [] rest w b h = absurd w
  word-Lexes (c ∷ s) rest w b h =
      let (x, y) = word_start_only c w.0 in
      emit-Lexes ident (c ∷ s) c (s ++ rest) rest (λ i. i + 1 + length s)
        (λ i. rw (x, y, w.0, span-append is_word_char s rest w.1 (Breaks-word rest b)) refl) h

  digits-Lexes :
      (s rest : Text)
      → IsNumeral s
      → Breaks rest
      → Lexes P rest
      → Lexes (Then number s P) (s ++ rest)
  unfolding scan
  digits-Lexes [] rest w b h = absurd w
  digits-Lexes (c ∷ s) rest w b h =
      let (x, y, z) = digit_only c w.0 in
      emit-Lexes number (c ∷ s) c (s ++ rest) rest (λ i. i + 1 + length s)
        (λ i.
          rw
            (
              x,
              y,
              z,
              w.0,
              span-append is_number_char s rest (number_chars s w.1) (Breaks-number rest b),
            )
            refl)
        h

  pub decimal-Lexes :
      (n : ℕ) (rest : Text)
      → Breaks rest
      → Lexes P rest
      → Lexes (Then number (decimal n) P) (decimal n ++ rest)
  decimal-Lexes n rest b h = digits-Lexes (decimal n) rest (decimal-IsNumeral n) b h

  pub quote-Lexes : (s rest : Text) → Lexes P rest → Lexes (Then string s P) (quote s ++ rest)
  unfolding quote scan is_alpha is_alnum is_digit
  quote-Lexes s rest h =
      let (n, e) = scan_string-escape s rest in
      rw (append_assoc (escape s) (b'"' ∷ []) rest) (
        emit-Lexes string s b'"' (escape s ++ (b'"' ∷ rest)) rest (λ i. i + 1 + n) (λ i. rw e refl)
          h)
