-- ===== src/Expr/Constraints.antt =====
-- wq_workflow/core/mutation_constraints.py: what a mutated tree has to satisfy.
pub mod Counting
pub mod Verdict
use worldquant_workflow_v2_r.Common.{
  ℕ, suc, ◌+◌, String, Bool, true, false, ◌&&◌, Option, none, some, List, [], ◌∷◌, Text, mem_text,
  starts_with, codes, ltb, max, if◌then◌else◌, tally,
}
use worldquant_workflow_v2_r.Expr.Operators.{
  neutralization_operators, illegal_nesting, nesting_reason,
}
use worldquant_workflow_v2_r.Expr.Ast.{
  NodeType, operator, field, variable, number, string, Node, Nodes, node, nil, cons, type_of,
  name_of, params_of, children_of, int_param, walk, same_type,
}

-- The fields of `ConstraintResult`: the reason with the numbers that its text shows, and the details.
pub data Reason : Type 0 where
  no_reason : Reason
  depth_exceeds : ℕ → ℕ → Reason
  operators_exceed : ℕ → ℕ → Reason
  too_many_neutralizations : Reason
  illegal : String → Reason

pub record ConstraintResult : Type 0 where
  pub passed : Bool
  pub reason : Reason
  pub details : List (String × ℕ)

pub record MutationConstraints : Type 0 where
  pub max_depth : ℕ
  pub max_operator_count : ℕ
  pub max_neutralization_layers : ℕ
  pub duplicate_rank_allowed : Bool

abbrev pub default_constraints : MutationConstraints
default_constraints = record {
  max_depth = 8;
  max_operator_count = 24;
  max_neutralization_layers = 2;
  duplicate_rank_allowed = false;
}

abbrev pub is_leaf_type : NodeType → Bool
is_leaf_type field = true
is_leaf_type variable = true
is_leaf_type number = true
is_leaf_type string = true
is_leaf_type _ = false

unfoldable mutual
  pub ast_depth : {F : Type 0} → Node F → ℕ
  ast_depth (node t n o nil ps m v) = if is_leaf_type t then 0 else 1
  ast_depth (node t n o (cons c cs) ps m v) = 1 + max (ast_depth c) (depth_of_all cs)

  -- `max` of the depths of the children
  pub depth_of_all : {F : Type 0} → Nodes F → ℕ
  depth_of_all nil = 0
  depth_of_all (cons c cs) = max (ast_depth c) (depth_of_all cs)

abbrev pub refuse : Reason → List (String × ℕ) → ConstraintResult
refuse why details = record { passed = false; reason = why; details = details }

-- A round of a loop that returns the first reason: whether it looks, what it finds, and the rounds
-- behind it.
abbrev pub stop_at : Bool → Option String → Option String → Option String
stop_at true none later = later
stop_at true (some reason) later = some reason
stop_at false found later = later

module _ {F : Type 0} where
  -- `sum(1 for node in rows if test(node))`
  abbrev pub count_where : (Node F → Bool) → List (Node F) → ℕ
  count_where test [] = 0
  count_where test (n ∷ ns) = tally (test n) (count_where test ns)

  abbrev pub is_operator : Node F → Bool
  is_operator n = same_type (type_of n) operator

  abbrev pub is_neutralization : Node F → Bool
  is_neutralization n = is_operator n && mem_text (name_of n) neutralization_operators

  unfoldable pub operator_count : Node F → ℕ
  operator_count ast = count_where is_operator (walk ast)

  unfoldable pub neutralization_layers : Node F → ℕ
  neutralization_layers ast = count_where is_neutralization (walk ast)

  unfoldable pub ts_operator_count : Node F → ℕ
  ts_operator_count ast =
      count_where (λ n. is_operator n && starts_with (codes "ts_") (name_of n)) (walk ast)

  windows_of : List (Node F) → List ℕ
  windows_of [] = []
  windows_of (n ∷ ns) =
      let rest = windows_of ns in
      elim (int_param (codes "window") (params_of n)) [
        | none ↦ rest
        | some w ↦ if is_operator n then w ∷ rest else rest
      ]

  unfoldable pub parameter_windows : Node F → List ℕ
  unfolding windows_of
  parameter_windows ast = windows_of (walk ast)

  -- The inner loop: the first child that may not stand under an operator of this name.
  unfoldable pub illegal_child : Text → Nodes F → Option String
  illegal_child name nil = none
  illegal_child name (cons c cs) =
      stop_at (is_operator c) (nesting_reason illegal_nesting name (name_of c))
        (illegal_child name cs)

  -- The outer loop.
  unfoldable pub first_illegal : List (Node F) → Option String
  unfolding illegal_child
  first_illegal [] = none
  first_illegal (n ∷ ns) =
      stop_at (is_operator n) (illegal_child (name_of n) (children_of n)) (first_illegal ns)

  -- `""` is `none`: the reasons of the table are not empty.
  unfoldable pub first_illegal_nesting : Node F → Option String
  first_illegal_nesting ast = first_illegal (walk ast)

  unfoldable pub validate : MutationConstraints → Node F → ConstraintResult
  validate limits ast =
      let depth = ast_depth ast in
      let operators = operator_count ast in
      let neutralizations = neutralization_layers ast in
      if ltb limits.max_depth depth
      then refuse (depth_exceeds depth limits.max_depth) (("depth", depth) ∷ [])
      else if ltb limits.max_operator_count operators
      then refuse (operators_exceed operators limits.max_operator_count)
          (("operator_count", operators) ∷ [])
      else if ltb limits.max_neutralization_layers neutralizations
      then refuse too_many_neutralizations (("neutralization_layers", neutralizations) ∷ [])
      else elim (first_illegal_nesting ast) [
        | some why ↦ refuse (illegal why) []
        | none ↦ record {
          passed = true;
          reason = no_reason;
          details = ("depth", depth) ∷ ("operator_count", operators) ∷ [];
        }
      ]
