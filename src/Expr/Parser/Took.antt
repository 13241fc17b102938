-- ===== src/Expr/Parser/Took.antt =====
-- The tokens that a function of wq_workflow/core/parser/expression_parser.py takes.
use worldquant_workflow_v2_r.Expr.Token.{TokenType, Token, eof, ◌is◌, is→eq, is_refl, plus, minus}
use worldquant_workflow_v2_r.Expr.Parser.{
  Stream, advance, expect, type_now, is_comparison, is_binary, matches,
}
use worldquant_workflow_v2_r.Common.{
  [], ◌∷◌, List, ℕ, ◌≡◌, arith, length, false, true, ◌||◌, ◌+◌, ◌≤◌, refl,
}
use worldquant_workflow_v2_r.Expr.Result.{Within, Within-if, returns, raises}

-- The last token is the end of the input.
abbrev pub EndsInEof : Token → List Token → Type 0
EndsInEof t [] = t.type ≡ eof
EndsInEof t (u ∷ us) = EndsInEof u us

-- `k` tokens at least were taken off `s`, and what is left ends in EOF too.
pub record Took (k : ℕ) (s : Stream) {A : Type 0} (r : A × Stream) : Type 0 where
  pub ends : EndsInEof r.1.current r.1.rest
  pub fewer : length r.1.rest + k ≤ length s.rest

not_eof : (t : TokenType) → t ≡ eof → (t is eof) ≡ false → ⊥
not_eof t e h = cc (is_refl eof)

abbrev pub Ends : Stream → Type 0
Ends s = EndsInEof s.current s.rest

step_Took :
    (t : Token) (ts : List Token)
    → EndsInEof t ts
    → (t.type is eof) ≡ false
    → Took 1
        (record { current = t; rest = ts })
        (tt {0}, advance (record { current = t; rest = ts }))
unfolding advance
step_Took t [] e h = absurd (not_eof t.type e h)
step_Took t (u ∷ us) e h = record { ends = e; fewer = omega arith }

pub advance-Took :
    (s : Stream) → Ends s → (type_now s is eof) ≡ false → Took 1 s (tt {0}, advance s)
advance-Took s e h = step_Took s.current s.rest e h

-- A token of a type other than EOF is taken off.
pub take-Took :
    (s : Stream) (type : TokenType)
    → Ends s
    → (type_now s is type) ≡ true
    → (type is eof) ≡ false
    → Took 1 s (tt {0}, advance s)
take-Took s type e h k = advance-Took s e (rw (is→eq _ _ h) k)

pub expect-Within :
    (type : TokenType) (s : Stream)
    → Ends s
    → (type is eof) ≡ false
    → Within (Took 1 s) (expect type s)
unfolding expect
expect-Within type s e k =
    Within-if (matches s type) (λ h. returns (take-Took s type e h k)) (λ _. raises)

pub not_eof_comparison : (t : TokenType) → is_comparison t ≡ true → (t is eof) ≡ false
not_eof_comparison eof h = cc
not_eof_comparison _ h = refl

pub not_eof_binary : (t : TokenType) → is_binary t ≡ true → (t is eof) ≡ false
not_eof_binary eof h = cc
not_eof_binary _ h = refl

pub not_eof_sign : (t : TokenType) → (t is plus || t is minus) ≡ true → (t is eof) ≡ false
not_eof_sign eof h = cc
not_eof_sign _ h = refl

-- What a call took off before another counts too.
pub then_Took :
    {A B : Type 0} {j k : ℕ} {s : Stream} {a : A × Stream} {b : B × Stream}
    → Took j s a
    → Took k a.1 b
    → Took (j + k) s b
then_Took p q = record { ends = q.ends; fewer = omega (arith, p.fewer, q.fewer) }

-- Less was taken off than the claim says.
pub weaken :
    {A B : Type 0} {j k : ℕ} {s s' : Stream} {a : A} {b : B}
    → k ≤ j
    → Took j s (a, s')
    → Took k s (b, s')
weaken h p = record { ends = p.ends; fewer = omega (arith, p.fewer) }

pub relabel :
    {A B : Type 0} {k : ℕ} {s s' : Stream} {a : A} {b : B} → Took k s (a, s') → Took k s (b, s')
relabel p = record { ends = p.ends; fewer = p.fewer }

pub here : {A : Type 0} (s : Stream) {a : A} → Ends s → Took 0 s (a, s)
here s e = record { ends = e; fewer = omega arith }

abbrev pub left : Stream → ℕ
left s = length s.rest
