-- ===== src/Expr/Token.antt =====
-- `Token` of wq_workflow/core/parser/expression_parser.py. The strings that `type` takes are a data
-- type: the five words, and the operator and punctuation signs, which are their own value.
use Prim.Native.Nat.{compare, Ordering}
use worldquant_workflow_v2_r.Common.{
  ℕ, Bool, true, false, [], Text, codes, List, get_elem?, ◌≡◌, ◌==◌, ◌∷◌, some, ap, arith, refl,
}

pub data TokenType : Type 0 where
  separator ident number string eof : TokenType
  lparen rparen comma assign plus minus star slash : TokenType
  gt lt ge le eq ne : TokenType

pub record Token : Type 0 where
  pub type : TokenType
  pub value : Text
  pub position : ℕ

-- The places of the constructors, by which two types are compared.
abbrev tag : TokenType → ℕ
tag separator = 0
tag ident = 1
tag number = 2
tag string = 3
tag eof = 4
tag lparen = 5
tag rparen = 6
tag comma = 7
tag assign = 8
tag plus = 9
tag minus = 10
tag star = 11
tag slash = 12
tag gt = 13
tag lt = 14
tag ge = 15
tag le = 16
tag eq = 17
tag ne = 18

-- `type == other`
infix 50 ◌is◌
abbrev pub ◌is◌ : TokenType → TokenType → Bool
a is b = elim (compare (tag a) (tag b)) [ Ordering.eq ↦ true | _ ↦ false ]

-- The text of a sign, which is the token's type in the program.
abbrev pub sign : TokenType → Text
sign lparen = codes "("
sign rparen = codes ")"
sign comma = codes ","
sign assign = codes "="
sign plus = codes "+"
sign minus = codes "-"
sign star = codes "*"
sign slash = codes "/"
sign gt = codes ">"
sign lt = codes "<"
sign ge = codes ">="
sign le = codes "<="
sign eq = codes "=="
sign ne = codes "!="
sign _ = []

all_types : List TokenType
all_types =
    separator ∷ ident ∷ number ∷ string ∷ eof ∷ lparen ∷ rparen ∷ comma ∷ assign ∷ plus ∷ minus
    ∷ star ∷ slash ∷ gt ∷ lt ∷ ge ∷ le ∷ eq ∷ ne ∷ []

get_elem?-tag : (t : TokenType) → get_elem? all_types (tag t) ≡ some t
unfolding all_types
get_elem?-tag separator = refl
get_elem?-tag _ = refl

tag-injective : (a b : TokenType) → tag a ≡ tag b → a ≡ b
tag-injective a b h = cc (get_elem?-tag a, get_elem?-tag b, ap (get_elem? all_types) h)

same_tag : (m n : ℕ) → (m == n) ≡ true → m ≡ n
same_tag m n h = ground arith

-- Two types that compare equal are equal, and a type compares equal to itself.
pub is→eq : (a b : TokenType) → (a is b) ≡ true → a ≡ b
is→eq a b h = tag-injective a b (same_tag (tag a) (tag b) h)

pub is_refl : (a : TokenType) → (a is a) ≡ true
is_refl separator = refl
is_refl _ = refl
