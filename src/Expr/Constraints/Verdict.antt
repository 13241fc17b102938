-- ===== src/Expr/Constraints/Verdict.antt =====
-- About `validate` of wq_workflow/core/mutation_constraints.py.
use worldquant_workflow_v2_r.Expr.Ast.{Node, Nodes, cons, nil, name_of, walk, children_of}
use worldquant_workflow_v2_r.Common.{
  Bool, Text, Option, List, ◌≡◌, true, String, none, All, ◌≤◌, some, ◌∷◌, arith, ◌↔◌, false, refl,
  [],
}
use worldquant_workflow_v2_r.Expr.Constraints.{
  illegal_child, first_illegal, MutationConstraints, validate, first_illegal_nesting, is_operator,
  ast_depth, operator_count, neutralization_layers, stop_at,
}
use worldquant_workflow_v2_r.Expr.Operators.{nesting_reason, illegal_nesting}

-- Each child in the list satisfies `P`.
abbrev pub AllChildren : {F : Type 0} → (Node F → Type 0) → Nodes F → Type 0
AllChildren P nil = Unit
AllChildren P (cons c cs) = P c × AllChildren P cs

-- An operator has no child of an operator that the table forbids under it.
abbrev pub NestsLegally : {F : Type 0} → Node F → Type 0
NestsLegally n =
    is_operator n ≡ true
    → AllChildren
        (λ c. is_operator c ≡ true → nesting_reason illegal_nesting (name_of n) (name_of c) ≡ none)
        (children_of n)

stop_at-none :
    (b : Bool) (o later : Option String)
    → stop_at b o later ≡ none
    → (b ≡ true → o ≡ none) × (later ≡ none)
stop_at-none true none later h = ((λ _. refl), h)
stop_at-none true (some r) later h = cc
stop_at-none false o later h = ((λ e. cc), h)

none-stop_at :
    (b : Bool) (o later : Option String)
    → (b ≡ true → o ≡ none)
    → later ≡ none
    → stop_at b o later ≡ none
none-stop_at true o later h k = rw (h refl) k
none-stop_at false o later h k = k

module _ {F : Type 0} where
  abbrev LegalUnder : Text → Nodes F → Type 0
  LegalUnder name cs =
      AllChildren
        (λ c. is_operator c ≡ true → nesting_reason illegal_nesting name (name_of c) ≡ none) cs

  illegal_child-none :
      (name : Text) (cs : Nodes F) → illegal_child name cs ≡ none → LegalUnder name cs
  unfolding illegal_child
  illegal_child-none name nil h = tt
  illegal_child-none name (cons c cs) h =
      let (p, q) = stop_at-none (is_operator c) _ (illegal_child name cs) h in
      (p, illegal_child-none name cs q)

  none-illegal_child :
      (name : Text) (cs : Nodes F) → LegalUnder name cs → illegal_child name cs ≡ none
  unfolding illegal_child
  none-illegal_child name nil h = refl
  none-illegal_child name (cons c cs) h =
      none-stop_at (is_operator c) _ (illegal_child name cs) h.0 (none-illegal_child name cs h.1)

  first_illegal-none : (ns : List (Node F)) → first_illegal ns ≡ none → All NestsLegally ns
  unfolding first_illegal
  first_illegal-none [] h = tt
  first_illegal-none (n ∷ ns) h =
      let (p, q) = stop_at-none (is_operator n) _ (first_illegal ns) h in
      ((λ e. illegal_child-none (name_of n) (children_of n) (p e)), first_illegal-none ns q)

  none-first_illegal : (ns : List (Node F)) → All NestsLegally ns → first_illegal ns ≡ none
  unfolding first_illegal
  none-first_illegal [] h = refl
  none-first_illegal (n ∷ ns) h =
      none-stop_at (is_operator n) _ (first_illegal ns)
        (λ e. none-illegal_child (name_of n) (children_of n) (h.0 e)) (none-first_illegal ns h.1)

  -- The bounds on a tree that `validate` tests before it looks at the nesting.
  pub record IsWithin (limits : MutationConstraints) (ast : Node F) : Type 0 where
    pub depth : ast_depth ast ≤ limits.max_depth
    pub operators : operator_count ast ≤ limits.max_operator_count
    pub neutralizations : neutralization_layers ast ≤ limits.max_neutralization_layers

  passed_parts :
      (limits : MutationConstraints) (ast : Node F)
      → (validate limits ast).passed ≡ true
      → IsWithin limits ast × (first_illegal_nesting ast ≡ none)
  unfolding validate
  passed_parts limits ast h = ground arith

  parts_passed :
      (limits : MutationConstraints) (ast : Node F)
      → IsWithin limits ast
      → first_illegal_nesting ast ≡ none
      → (validate limits ast).passed ≡ true
  unfolding validate
  parts_passed limits ast h k = ground arith

  -- `validate` passes a tree exactly when its depth, its operators and its neutralizations are
  -- within the limits and no operator stands under one that the table forbids.
  pub validate_iff :
      (limits : MutationConstraints) (ast : Node F)
      → ((validate limits ast).passed ≡ true) ↔ (IsWithin limits ast × All NestsLegally (walk ast))
  unfolding first_illegal_nesting
  validate_iff limits ast = (
    (λ h. let (p, q) = passed_parts limits ast h in (p, first_illegal-none (walk ast) q)),
    (λ (p, q). parts_passed limits ast p (none-first_illegal (walk ast) q)),
  )
