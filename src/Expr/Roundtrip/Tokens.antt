-- ===== src/Expr/Roundtrip/Tokens.antt =====
-- About names, numbers and strings in the lexer of wq_workflow/core/parser/expression_parser.py.
use worldquant_workflow_v2_r.Common.{
  ℕ, Text, is_alpha, is_digit, Bool, ◌≡◌, All, ◌<◌, ◌∷◌, true, ◌+◌, false, ◌++◌, arith, [], refl,
  ◌==◌, any, suc, Bool-cases, ltb, inl, ltb→lt, inr, ◌/◌, ◌%◌, zero, ap, some, ◌∙◌, All-map,
}
use worldquant_workflow_v2_r.Expr.Lexer.{
  span, is_word_start, is_word_char, is_number_char, is_space, is_separator,
}
use worldquant_workflow_v2_r.Expr.Roundtrip.Scanning.{Breaks}
use worldquant_workflow_v2_r.Expr.Printer.{digits, decimal}
use worldquant_workflow_v2_r.Expr.Parser.{int_of, digits_value}

-- The run ends in front of such a text.
abbrev pub StopsAt : (ℕ → Bool) → Text → Type 0
StopsAt p [] = Unit
StopsAt p (c ∷ s) = p c ≡ false

pub span-append :
    (p : ℕ → Bool) (s rest : Text)
    → All (λ c. p c ≡ true) s
    → StopsAt p rest
    → span p (s ++ rest) ≡ (s, rest)
unfolding span
span-append p [] [] h k = refl
span-append p [] (c ∷ rest) h k = rw k refl
span-append p (c ∷ s) rest h k = rw (h.0, span-append p s rest h.1 k) refl

pub Breaks-word : (s : Text) → Breaks s → StopsAt is_word_char s
Breaks-word [] h = tt
Breaks-word (c ∷ s) h = h.1

pub Breaks-number : (s : Text) → Breaks s → StopsAt is_number_char s
Breaks-number [] h = tt
Breaks-number (c ∷ s) h = h.2

-- The tests in front of the one for a word fail at its first character.
pub word_start_only :
    (c : ℕ) → is_word_start c ≡ true → (is_space c ≡ false) × (is_separator c ≡ false)
unfolding is_alpha
word_start_only c h = ground arith

pub digit_only :
    (c : ℕ)
    → is_digit c ≡ true
    → (is_space c ≡ false) × (is_separator c ≡ false) × (is_word_start c ≡ false)
unfolding is_alpha is_digit
digit_only c h = ground arith

abbrev pub AllDigits : Text → Type 0
AllDigits s = All (λ c. is_digit c ≡ true) s

digit_no_dot : (c : ℕ) → is_digit c ≡ true → (c == b'.') ≡ false
unfolding is_digit
digit_no_dot c h = ground arith

digit_is_digit : (n : ℕ) → n < 10 → is_digit (b'0' + n) ≡ true
unfolding is_digit
digit_is_digit n h = ground arith

-- A text that begins with a digit and goes on with digits
abbrev pub IsNumeral : Text → Type 0
IsNumeral [] = ⊥
IsNumeral (c ∷ s) = AllDigits (c ∷ s)

digits-IsNumeral : (f n : ℕ) (acc : Text) → n < f → AllDigits acc → IsNumeral (digits f n acc)
unfolding digits
digits-IsNumeral zero n acc h k = absurd (omega arith)
digits-IsNumeral (suc f) n acc h k = elim (Bool-cases (ltb n 10)) [
  | inl e ↦ rw e (digit_is_digit n (ltb→lt n 10 e), k)
  | inr e ↦ rw e (
      digits-IsNumeral f (n / 10) ((b'0' + n % 10) ∷ acc) (ground arith)
        (digit_is_digit (n % 10) (omega arith), k))
]

pub decimal-IsNumeral : (n : ℕ) → IsNumeral (decimal n)
unfolding decimal
decimal-IsNumeral n = digits-IsNumeral (suc n) n [] (omega arith) tt

-- The digits in front of `acc` are worth `n`.
digits_value-digits :
    (f n : ℕ) (acc : Text) → n < f → digits_value 0 (digits f n acc) ≡ digits_value n acc
unfolding digits digits_value
digits_value-digits zero n acc h = absurd (omega arith)
digits_value-digits (suc f) n acc h = elim (Bool-cases (ltb n 10)) [
  | inl e ↦ rw (e, digit_is_digit n (ltb→lt n 10 e)) (ap (λ m. digits_value m acc) (omega arith))
  | inr e ↦
      rw
        (
          e,
          digits_value-digits f (n / 10) ((b'0' + n % 10) ∷ acc) (ground arith),
          digit_is_digit (n % 10) (omega arith),
        )
        (ap (λ m. digits_value m acc) (omega arith))
]

int_of_numeral : (s : Text) → IsNumeral s → int_of s ≡ digits_value 0 s
unfolding int_of
int_of_numeral [] h = absurd h
int_of_numeral (c ∷ s) h = refl

-- Reading the printed digits gives the number back.
pub int_of-decimal : (n : ℕ) → int_of (decimal n) ≡ some n
unfolding decimal digits_value
int_of-decimal n =
    int_of_numeral (decimal n) (decimal-IsNumeral n)
    ∙ digits_value-digits (suc n) n [] (omega arith)

pub no_dot : (s : Text) → AllDigits s → any (λ c. c == b'.') s ≡ false
no_dot [] h = refl
no_dot (c ∷ s) h = ground (arith, no_dot s h.1, digit_no_dot c h.0)

pub number_chars : (s : Text) → AllDigits s → All (λ c. is_number_char c ≡ true) s
number_chars s h = All-map s (λ c e. rw e refl) h

numeral_digits : (s : Text) → IsNumeral s → AllDigits s
numeral_digits [] h = absurd h
numeral_digits (c ∷ s) h = h

pub decimal_digits : (n : ℕ) → AllDigits (decimal n)
decimal_digits n = numeral_digits (decimal n) (decimal-IsNumeral n)
