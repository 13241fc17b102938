-- ===== src/Expr/Result.antt =====
-- The outcome of the lexer and of the parser: a value, a raised ParseError (or the ValueError of a
-- malformed number), or the end of the model's fuel, which has no counterpart in the program.
use worldquant_workflow_v2_r.Common.{
  ℕ, ◌≡◌, refl, ◌≢◌, Bool, true, false, Text, subst, if◌then◌else◌,
}
use worldquant_workflow_v2_r.Expr.Token.{TokenType}

pub data Error : Type 0 where
  unclosed_string : ℕ → Error
  unexpected_character : ℕ → ℕ → Error
  expected : TokenType → TokenType → ℕ → Error
  unexpected_token : TokenType → ℕ → Error
  unclosed_call : Text → Error
  expected_comma : ℕ → Error
  bad_number : Text → Error
  -- the IndexError of an empty list of tokens
  no_tokens : Error

pub data Result {ℓ} (A : Type ℓ) : Type ℓ where
  ok : A → Result A
  raised : Error → Result A
  out_of_fuel : Result A

abbrev pub bind {ℓ κ} : {A : Type ℓ} {B : Type κ} → Result A → (A → Result B) → Result B
bind (ok a) f = f a
bind (raised e) f = raised e
bind out_of_fuel f = out_of_fuel

-- The run kept within its fuel, and `P` holds of its value if it has one.
pub data Within {ℓ κ} {A : Type ℓ} (P : A → Type κ) : Result A → Type (ℓ ⊔ κ) where
  returns : {a : A} → P a → Within P (ok a)
  raises : {e : Error} → Within P (raised e)

module _ {ℓ κ} {A : Type ℓ} {P : A → Type κ} where
  pub Within-ok : {r : Result A} {a : A} → Within P r → r ≡ ok a → P a
  Within-ok (returns h) e = subst P (cc) h
  Within-ok raises e = cc

  pub Within-out_of_fuel : {r : Result A} → Within P r → r ≢ out_of_fuel
  Within-out_of_fuel (returns h) = cc
  Within-out_of_fuel raises = cc

  pub Within-if :
      (b : Bool) {x y : Result A}
      → (b ≡ true → Within P x)
      → (b ≡ false → Within P y)
      → Within P (if b then x else y)
  Within-if true hx hy = hx refl
  Within-if false hx hy = hy refl

  pub Within-bind {ℓ' κ'} :
      {B : Type ℓ'} {Q : B → Type κ'} {r : Result A} {f : A → Result B}
      → Within P r
      → ((a : A) → P a → Within Q (f a))
      → Within Q (bind r f)
  Within-bind (returns {a} h) k = k a h
  Within-bind raises k = raises

  pub Within-map {κ'} :
      {Q : A → Type κ'} {r : Result A} → ((a : A) → P a → Q a) → Within P r → Within Q r
  Within-map f (returns h) = returns (f _ h)
  Within-map f raises = raises

-- Whatever value the run has satisfies `P`.
pub data Yields {ℓ κ} {A : Type ℓ} (P : A → Type κ) : Result A → Type (ℓ ⊔ κ) where
  yields : {a : A} → P a → Yields P (ok a)
  fails : {e : Error} → Yields P (raised e)
  stops : Yields P out_of_fuel

module _ {ℓ κ} {A : Type ℓ} {P : A → Type κ} where
  pub Yields-if :
      (b : Bool) {x y : Result A} → Yields P x → Yields P y → Yields P (if b then x else y)
  Yields-if true hx hy = hx
  Yields-if false hx hy = hy

  pub Yields-bind {ℓ' κ'} :
      {B : Type ℓ'} {Q : B → Type κ'} {r : Result A} {f : A → Result B}
      → Yields P r
      → ((a : A) → P a → Yields Q (f a))
      → Yields Q (bind r f)
  Yields-bind (yields {a} h) k = k a h
  Yields-bind fails k = fails
  Yields-bind stops k = stops

  -- A run that keeps within its fuel, and whose value satisfies `P`
  pub Within-Yields {κ'} : {Q : A → Type κ'} {r : Result A} → Within Q r → Yields P r → Within P r
  Within-Yields (returns h) (yields k) = returns k
  Within-Yields raises fails = raises

-- The run has the value `a`, or its fuel ended before it had any.
pub data Gives {ℓ} {A : Type ℓ} (a : A) : Result A → Type ℓ where
  gives : Gives a (ok a)
  starved : Gives a out_of_fuel

module _ {ℓ} {A : Type ℓ} {a : A} where
  pub Gives-ok : {r : Result A} → Gives a r → r ≢ out_of_fuel → r ≡ ok a
  Gives-ok gives h = refl
  Gives-ok starved h = absurd (h refl)

  pub Gives-bind {κ} :
      {B : Type κ} {b : B} {r : Result A} (f : A → Result B)
      → Gives a r
      → Gives b (f a)
      → Gives b (bind r f)
  Gives-bind f gives k = k
  Gives-bind f starved k = starved
