-- ===== src/Expr/Mutator.antt =====
-- wq_workflow/core/structural_mutator.py: the candidates that a tree is changed into.
pub mod Generate
pub mod Windows
pub mod Chosen
pub mod Rows
pub mod Returned
use worldquant_workflow_v2_r.Expr.Operators.{operator_arity, semantic_safe_field_swap}
use worldquant_workflow_v2_r.Expr.Ast.{
  operator, field, variable, number, Value, absent, int, float, str, Node, Nodes, node, nil, cons,
  Params, empty, Metadata, NodeType, set_params, type_of, operator_node, put_literal, params_of,
  count, literal, children_of, count_params,
}
use worldquant_workflow_v2_r.Common.{
  List, ℕ, ◌∷◌, Option, [], none, if◌then◌else◌, max, ◌==◌, ◌/◌, some, ◌+◌, ◌++◌, ◌*◌, keep, not,
  Text, String, Bool, codes, starts_with, ◌||◌, true, find_text, text_eq, false, leb, ◌&&◌,
  contains,
}
use worldquant_workflow_v2_r.Expr.Paths.{and_then, TreePath, paths}
use worldquant_workflow_v2_r.Expr.Constraints.{is_operator}

-- `_nearby_windows`
abbrev pub canonical : List ℕ
canonical = 3 ∷ 5 ∷ 8 ∷ 10 ∷ 20 ∷ 21 ∷ 40 ∷ 60 ∷ 63 ∷ 120 ∷ 126 ∷ 252 ∷ []

abbrev head_of : List ℕ → List ℕ
head_of [] = []
head_of (x ∷ xs) = x ∷ []

-- The window of the list around the first place of `value`: what stands before, itself, and what
-- stands behind. `none` where it is not in the list.
unfoldable pub around : ℕ → List ℕ → List ℕ → Option (List ℕ)
around value before [] = none
around value before (w ∷ ws) =
    let later = around value (w ∷ []) ws in
    if w == value then some (before ++ w ∷ head_of ws) else later

unfoldable pub nearby_windows : ℕ → List ℕ
unfolding around
nearby_windows value =
    let values : List ℕ = elim (around value [] canonical) [
      | none ↦ max 2 (value / 2) ∷ (value + 5) ∷ (value * 2) ∷ []
      | some ws ↦ ws
    ] in
    keep (λ w. not (w == value)) values

-- An IndexError, or a number node without a number, is `none`. A loop that extends a list:
unfoldable pub collect {ℓ κ} :
    {A : Type ℓ} {B : Type κ} → (A → Option (List B)) → List A → Option (List B)
collect body [] = some []
collect body (x ∷ xs) =
    and_then (body x) λ first. and_then (collect body xs) λ more. some (first ++ more)

-- A loop that appends one candidate a round.
abbrev pub one_each {ℓ κ} : {A : Type ℓ} {B : Type κ} → (A → Option B) → List A → Option (List B)
one_each body xs = collect (λ x. and_then (body x) λ b. some (b ∷ [])) xs

-- `_strategy_mutations`: the methods that `generate` calls, in order.
pub data Mutation : Type 0 where
  replace_window wrap_node replace_operator insert_node remove_node simplify_branch : Mutation

unfoldable pub strategy_mutations : Text → List Mutation
strategy_mutations name =
    if contains (codes "turnover") name
    then wrap_node ∷ replace_window ∷ simplify_branch ∷ []
    else if contains (codes "simplification") name || contains (codes "repair") name
    then simplify_branch ∷ remove_node ∷ replace_operator ∷ replace_window ∷ []
    else if contains (codes "diversity") name
    then replace_operator ∷ wrap_node ∷ replace_window ∷ insert_node ∷ []
    else replace_window ∷ wrap_node ∷ replace_operator ∷ simplify_branch ∷ []

-- `_recommended_wrappers`
abbrev pub recommended_wrappers : Text → List String
recommended_wrappers name =
    if contains (codes "turnover") name
    then "hump" ∷ "ts_decay_exp_window" ∷ "ts_mean" ∷ []
    else "ts_decay_exp_window" ∷ "ts_mean" ∷ "rank" ∷ []

-- The table of `replace_operator`
abbrev pub replacements : List (String × List String)
replacements =
    ("ts_mean", "ts_rank" ∷ "ts_zscore" ∷ [])
    ∷ ("ts_rank", "ts_mean" ∷ "ts_zscore" ∷ [])
    ∷ ("ts_zscore", "ts_rank" ∷ "ts_scale" ∷ [])
    ∷ ("group_neutralize", "group_zscore" ∷ "group_rank" ∷ [])
    ∷ ("group_zscore", "group_neutralize" ∷ "group_rank" ∷ [])
    ∷ ("rank", "scale" ∷ [])
    ∷ ("scale", "rank" ∷ [])
    ∷ []

-- `table.get(name, default)`
abbrev pub get_text_or {ℓ} : {A : Type ℓ} → A → Option A → A
get_text_or default none = default
get_text_or default (some a) = a

abbrev pub is_signal_type : NodeType → Bool
is_signal_type field = true
is_signal_type variable = true
is_signal_type operator = true
is_signal_type _ = false

module _ {F : Type 0} where
  -- `_arity_compatible`
  unfoldable pub arity_compatible : Text → Node F → Bool
  arity_compatible name n =
      let (least, most) = get_text_or (0, 99) (find_text name operator_arity) in
      let args = count (children_of n) + count_params (params_of n) in
      leb least args && leb args most

  -- `_operator_paths`, `_signal_paths`
  unfoldable pub operator_paths : Node F → List (TreePath × Node F)
  operator_paths ast = keep (λ row. is_operator row.1) (paths ast [])

  unfoldable pub signal_paths : Node F → List (TreePath × Node F)
  signal_paths ast = keep (λ row. is_signal_type (type_of row.1)) (paths ast [])

  -- `_wrapper_node`
  unfoldable pub wrapper_node : Text → Node F → ℕ → Option (Node F)
  wrapper_node wrapper n window =
      let named = λ (name : String) (params : Params F).
        some (operator_node (codes name) (cons n nil) params) in
      if text_eq wrapper (codes "ts_decay_exp_window")
      then named "ts_decay_exp_window" (literal (codes "window") (int window) empty)
      else if text_eq wrapper (codes "ts_mean")
      then named "ts_mean" (literal (codes "window") (int (max 5 window)) empty)
      else if text_eq wrapper (codes "hump")
      then named "hump" empty
      else if text_eq wrapper (codes "rank")
      then named "rank" empty
      else if text_eq wrapper (codes "winsorize")
      then named "winsorize" empty
      else none

  -- `target.name = replacement; target.metadata["replaced_from"] = name`
  abbrev pub rename_operator : Text → Node F → Node F
  rename_operator name (node t n o cs ps m v) =
      node t name o cs ps (record m { replaced_from = some n }) v

  abbrev pub set_window : ℕ → Node F → Node F
  set_window value n = set_params n (put_literal (codes "window") (int value) (params_of n))
