-- ===== src/Expr/Mutator/Chosen.antt =====
-- What `generate` of wq_workflow/core/structural_mutator.py keeps of the candidates.
use worldquant_workflow_v2_r.Common.{
  Text, List, any, text_eq, [], All, ◌∷◌, ◌≡◌, false, true, Bool-cases, some, inl, Option-cases,
  inr, keep, subst, of_some, keep-All,
}
use worldquant_workflow_v2_r.Expr.Floats.{Floats}
use worldquant_workflow_v2_r.Expr.Constraints.{MutationConstraints, validate}
use worldquant_workflow_v2_r.Expr.Mutator.Generate.{dedupe, generate, Candidate, dedupe_key, mutate}
use worldquant_workflow_v2_r.Expr.Ast.{Node}
use worldquant_workflow_v2_r.Expr.Mutator.{collect, strategy_mutations}

-- The key is not among those seen.
abbrev pub Fresh : Text → List Text → Type 0
Fresh key seen = any (text_eq key) seen ≡ false

module _ (fl : Floats) where
  -- No two candidates of the list have the same key, and none has a key that was seen before.
  pub data DistinctKeys : List Text → List (Candidate fl.Float) → Type 0 where
    no_candidates : (seen : List Text) → DistinctKeys seen []
    fresh_candidate :
        (seen : List Text) (c : Candidate fl.Float) (cs : List (Candidate fl.Float))
        → Fresh (dedupe_key c.expression) seen
        → DistinctKeys (dedupe_key c.expression ∷ seen) cs
        → DistinctKeys seen (c ∷ cs)

  abbrev Accepted : MutationConstraints → Candidate fl.Float → Type 0
  Accepted limits c = (validate limits c.ast).passed ≡ true

  dedupe-All :
      (P : Candidate fl.Float → Type 0) (seen : List Text) (cs : List (Candidate fl.Float))
      → All P cs
      → All P (dedupe fl seen cs)
  unfolding dedupe
  dedupe-All P seen [] h = tt
  dedupe-All P seen (c ∷ cs) h = elim (Bool-cases (any (text_eq (dedupe_key c.expression)) seen)) [
    | inl old ↦ rw old (dedupe-All P seen cs h.1)
    | inr new ↦ rw new (h.0, dedupe-All P (dedupe_key c.expression ∷ seen) cs h.1)
  ]

  dedupe-DistinctKeys :
      (seen : List Text) (cs : List (Candidate fl.Float)) → DistinctKeys seen (dedupe fl seen cs)
  unfolding dedupe
  dedupe-DistinctKeys seen [] = no_candidates seen
  dedupe-DistinctKeys seen (c ∷ cs) =
      elim (Bool-cases (any (text_eq (dedupe_key c.expression)) seen)) [
        | inl old ↦ rw old (dedupe-DistinctKeys seen cs)
        | inr new ↦
            rw new (
              fresh_candidate seen c _ new
                (dedupe-DistinctKeys (dedupe_key c.expression ∷ seen) cs))
      ]

  -- What `generate` returns, if it does
  pub generate_sound :
      (limits : MutationConstraints) (strategy : Text) (ast : Node fl.Float)
      {found : List (Candidate fl.Float)}
      → generate fl limits strategy ast ≡ some found
      → All (λ c. (validate limits c.ast).passed ≡ true) found × DistinctKeys [] found
  unfolding generate
  generate_sound limits strategy ast h =
      elim (Option-cases (collect (mutate fl strategy ast) (strategy_mutations strategy))) [
        | inl e ↦ absurd (cc (rw e at h))
        | inr (all_found, e) ↦
            let passing =
              keep (λ (c : Candidate fl.Float). (validate limits c.ast).passed) all_found in
            subst (λ cs. All (λ c. (validate limits c.ast).passed ≡ true) cs × DistinctKeys [] cs)
              (of_some (rw e at h))
              (
                dedupe-All (Accepted limits) [] passing (
                    keep-All (λ (c : Candidate fl.Float). (validate limits c.ast).passed)
                      all_found),
                dedupe-DistinctKeys [] passing,
              )
      ]
