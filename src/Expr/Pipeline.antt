-- ===== src/Expr/Pipeline.antt =====
-- From a text to its candidates: the parser of wq_workflow/core/parser/expression_parser.py, then
-- `generate` of wq_workflow/core/structural_mutator.py on the tree.
use worldquant_workflow_v2_r.Expr.Floats.{Floats}
use worldquant_workflow_v2_r.Expr.Constraints.{MutationConstraints, validate}
use worldquant_workflow_v2_r.Common.{
  Text, List, ◌≡◌, some, All, true, [], Bool, ◌⊎◌, any, Bool-cases, inl, ◌∷◌, inr, ◌&&◌, arith,
  refl,
}
use worldquant_workflow_v2_r.Expr.Ast.{Node, same_type, type_of, walk, number, value_of}
use worldquant_workflow_v2_r.Expr.Result.{Within, Within-map, Within-Yields}
use worldquant_workflow_v2_r.Expr.Parser.{parse}
use worldquant_workflow_v2_r.Expr.Mutator.Generate.{Candidate, generate}
use worldquant_workflow_v2_r.Expr.Mutator.Returned.{generate-Returns}
use worldquant_workflow_v2_r.Expr.Parser.Total.{parse-Within}
use worldquant_workflow_v2_r.Expr.Parser.Numbers.{parse-Yields}
use worldquant_workflow_v2_r.Expr.Mutator.Chosen.{DistinctKeys}
use worldquant_workflow_v2_r.Expr.Parser.NumberNodes.{IsLiteral, overflows}
use worldquant_workflow_v2_r.Expr.Mutator.Rows.{IsNumeric}

-- `generate` returns; each candidate satisfies the constraints, and no two of them have the same
-- expression up to letter case and white space.
abbrev pub Generates : (fl : Floats) → MutationConstraints → Text → Node fl.Float → Type 0
Generates fl limits strategy tree =
    (found : List (Candidate fl.Float)) × (generate fl limits strategy tree ≡ some found)
    × All (λ c. (validate limits c.ast).passed ≡ true) found
    × DistinctKeys fl [] found

module _ (fl : Floats) where
  open fl use {Float}

  -- A number node with a float that `int` does not take
  unfoldable pub is_infinite : Node Float → Bool
  is_infinite n = same_type (type_of n) number && overflows fl (value_of n)

  literal_split : (n : Node Float) → IsLiteral fl n → IsNumeric fl n ⊎ (is_infinite n ≡ true)
  unfolding is_infinite
  literal_split n h = elim (Bool-cases (same_type (type_of n) number)) [
    | inl e ↦ elim (h e) [ inl r ↦ inl (λ _. r) | inr o ↦ inr (rw (e, o) refl) ]
    | inr e ↦ inl (λ k. absurd (cc (k, e)))
  ]

  literals_split :
      (ns : List (Node Float))
      → All (IsLiteral fl) ns
      → All (IsNumeric fl) ns ⊎ (any is_infinite ns ≡ true)
  literals_split [] h = inl tt
  literals_split (n ∷ ns) (h, hs) = elim (literal_split n h) [
    | inr o ↦ inr (rw o refl)
    | inl r ↦ elim (literals_split ns hs) [ inl rs ↦ inl (r, rs) | inr o ↦ inr (ground (arith, o)) ]
  ]

  -- For every text, strategy and constraints: `parse` raises; or it returns a tree with a number node
  -- whose float is too long a literal for `int`; or it returns a tree on which `generate` returns,
  -- each candidate then satisfies the constraints, and no two of them have the same expression up
  -- to letter case and white space.
  pub parse-Generates :
      (text : Text) (limits : MutationConstraints) (strategy : Text)
      → Within
          (λ tree. Generates fl limits strategy tree ⊎ (any is_infinite (walk tree) ≡ true))
          (parse fl text)
  parse-Generates text limits strategy =
      Within-map
        (λ tree h. elim (literals_split (walk tree) h) [
          | inl numbers ↦ inl (generate-Returns fl limits strategy tree numbers)
          | inr o ↦ inr o
        ])
        (Within-Yields (parse-Within fl text) (parse-Yields fl text))
