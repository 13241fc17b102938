-- ===== src/Common/Texts.antt =====
-- Python's `str` where the program walks it character by character: the list of its code points.
-- The models of the expression language range over ASCII text, so `isalpha`, `isdigit`, `isalnum`
-- and `lower` are their ASCII parts.
use Prim.Native.Nat.{ℕ, ◌+◌}
use Prim.Native.Char.{code}
use Prim.Native.String.{String}
use mathlib.Core.Path.{◌≡◌, refl, ap₂}
use mathlib.Core.Bool.{Bool, true, false, ◌&&◌, ◌||◌}
use mathlib.Core.Option.{Option, none, some}
use mathlib.Core.List.{List, [], ◌∷◌, map}
use native.Mathlib.Omega.{arith}
use worldquant_workflow_v2_r.Common.Tests.{leb, ◌==◌, if◌then◌else◌, ==→eq, ==-refl, &&-eq-true}

abbrev pub Text : Type 0
Text = List ℕ

-- The code points of a literal. `String` has its own `[]` and `∷`.
abbrev pub codes : String → Text
codes String.[] = []
codes (String.◌∷◌ c s) = code c ∷ codes s

unfoldable pub is_digit : ℕ → Bool
is_digit c = leb b'0' c && leb c b'9'

unfoldable pub is_alpha : ℕ → Bool
is_alpha c = (leb b'a' c && leb c b'z') || (leb b'A' c && leb c b'Z')

unfoldable pub is_alnum : ℕ → Bool
unfolding is_alpha is_digit
is_alnum c = is_alpha c || is_digit c

unfoldable pub lower_char : ℕ → ℕ
lower_char c = if leb b'A' c && leb c b'Z' then c + 32 else c

-- `s.lower()`
abbrev pub lower : Text → Text
lower s = map lower_char s

-- `s == t`
unfoldable pub text_eq : Text → Text → Bool
text_eq [] [] = true
text_eq (c ∷ s) (d ∷ t) = (c == d) && text_eq s t
text_eq _ _ = false

pub text_eq→eq : (s t : Text) → text_eq s t ≡ true → s ≡ t
unfolding text_eq
text_eq→eq [] [] h = refl
text_eq→eq [] (d ∷ t) h = ground arith
text_eq→eq (c ∷ s) [] h = ground arith
text_eq→eq (c ∷ s) (d ∷ t) h =
    let (p, q) = &&-eq-true (c == d) (text_eq s t) h in ap₂ ◌∷◌ (==→eq c d p) (text_eq→eq s t q)

pub text_eq_refl : (s : Text) → text_eq s s ≡ true
unfolding text_eq
text_eq_refl [] = refl
text_eq_refl (c ∷ s) = ground (arith, text_eq_refl s, ==-refl c)

-- `s in {…}`, for a set of literals
unfoldable pub mem_text : Text → List String → Bool
unfolding text_eq
mem_text s [] = false
mem_text s (k ∷ ks) = text_eq s (codes k) || mem_text s ks

-- `table.get(s)`, for a dictionary with literal keys
unfoldable pub find_text {ℓ} : {A : Type ℓ} → Text → List (String × A) → Option A
unfolding text_eq
find_text s [] = none
find_text s ((k, v) ∷ rest) =
    let later = find_text s rest in if text_eq s (codes k) then some v else later

-- `s.startswith(p)`
unfoldable pub starts_with : Text → Text → Bool
starts_with [] s = true
starts_with (c ∷ p) [] = false
starts_with (c ∷ p) (d ∷ s) = (c == d) && starts_with p s

-- `"part" in text`
unfoldable pub contains : Text → Text → Bool
contains part [] = starts_with part []
contains part (c ∷ s) = starts_with part (c ∷ s) || contains part s
