-- ===== src/Expr/Roundtrip/Signs.antt =====
-- About the signs in the lexer of wq_workflow/core/parser/expression_parser.py.
use worldquant_workflow_v2_r.Expr.Token.{
  lparen, rparen, comma, assign, plus, minus, star, slash, gt, lt, ge, le, eq, ne, separator, ident,
  number, string, eof, TokenType, sign,
}
use worldquant_workflow_v2_r.Expr.Lexer.{scan, sign_of_two}
use worldquant_workflow_v2_r.Common.{
  is_alpha, is_alnum, is_digit, ℕ, Text, ◌≡◌, ◌∷◌, [], ◌+◌, none, ◌≢◌, refl, ◌++◌, codes,
}
use worldquant_workflow_v2_r.Expr.Roundtrip.Scanning.{Apart, Lexes, Then, emit-Lexes}
use worldquant_workflow_v2_r.Expr.Parser.{Stream}

-- A sign of one character, with no `=` behind it
no_sign_of_two : (c : ℕ) (rest : Text) → Apart rest → sign_of_two c rest ≡ none
unfolding sign_of_two
no_sign_of_two c [] h = refl
no_sign_of_two c (d ∷ rest) h = rw h refl

module _ {P : Stream → Type 0} where
  -- The text of a sign is lexed to it, where no `=` comes next.
  pub sign-Lexes :
      (t : TokenType) (rest : Text)
      → sign t ≢ []
      → Apart rest
      → Lexes P rest
      → Lexes (Then t (sign t) P) (sign t ++ rest)
  unfolding scan is_alpha is_alnum is_digit
  sign-Lexes lparen rest n a h =
      emit-Lexes lparen (codes "(") b'(' rest rest (λ i. i + 1)
        (λ i. rw (no_sign_of_two b'(' rest a) refl) h
  sign-Lexes rparen rest n a h =
      emit-Lexes rparen (codes ")") b')' rest rest (λ i. i + 1)
        (λ i. rw (no_sign_of_two b')' rest a) refl) h
  sign-Lexes comma rest n a h =
      emit-Lexes comma (codes ",") b',' rest rest (λ i. i + 1)
        (λ i. rw (no_sign_of_two b',' rest a) refl) h
  sign-Lexes assign rest n a h =
      emit-Lexes assign (codes "=") b'=' rest rest (λ i. i + 1)
        (λ i. rw (no_sign_of_two b'=' rest a) refl) h
  sign-Lexes plus rest n a h =
      emit-Lexes plus (codes "+") b'+' rest rest (λ i. i + 1)
        (λ i. rw (no_sign_of_two b'+' rest a) refl) h
  sign-Lexes minus rest n a h =
      emit-Lexes minus (codes "-") b'-' rest rest (λ i. i + 1)
        (λ i. rw (no_sign_of_two b'-' rest a) refl) h
  sign-Lexes star rest n a h =
      emit-Lexes star (codes "*") b'*' rest rest (λ i. i + 1)
        (λ i. rw (no_sign_of_two b'*' rest a) refl) h
  sign-Lexes slash rest n a h =
      emit-Lexes slash (codes "/") b'/' rest rest (λ i. i + 1)
        (λ i. rw (no_sign_of_two b'/' rest a) refl) h
  sign-Lexes gt rest n a h =
      emit-Lexes gt (codes ">") b'>' rest rest (λ i. i + 1)
        (λ i. rw (no_sign_of_two b'>' rest a) refl) h
  sign-Lexes lt rest n a h =
      emit-Lexes lt (codes "<") b'<' rest rest (λ i. i + 1)
        (λ i. rw (no_sign_of_two b'<' rest a) refl) h
  sign-Lexes ge rest n a h =
      emit-Lexes ge (codes ">=") b'>' (b'=' ∷ rest) rest (λ i. i + 2) (λ i. refl) h
  sign-Lexes le rest n a h =
      emit-Lexes le (codes "<=") b'<' (b'=' ∷ rest) rest (λ i. i + 2) (λ i. refl) h
  sign-Lexes eq rest n a h =
      emit-Lexes eq (codes "==") b'=' (b'=' ∷ rest) rest (λ i. i + 2) (λ i. refl) h
  sign-Lexes ne rest n a h =
      emit-Lexes ne (codes "!=") b'!' (b'=' ∷ rest) rest (λ i. i + 2) (λ i. refl) h
  sign-Lexes separator rest n a h = absurd (n refl)
  sign-Lexes ident rest n a h = absurd (n refl)
  sign-Lexes number rest n a h = absurd (n refl)
  sign-Lexes string rest n a h = absurd (n refl)
  sign-Lexes eof rest n a h = absurd (n refl)
