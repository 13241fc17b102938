-- ===== src/Expr/Mutator/Generate.antt =====
-- The methods of `StructuralMutator` in wq_workflow/core/structural_mutator.py.
use worldquant_workflow_v2_r.Expr.Mutator.{
  Mutation, replace_window, wrap_node, replace_operator, insert_node, remove_node, simplify_branch,
  collect, one_each, wrapper_node, recommended_wrappers, strategy_mutations, rename_operator,
  operator_paths, arity_compatible, get_text_or, set_window, signal_paths, nearby_windows,
  replacements,
}
use worldquant_workflow_v2_r.Expr.Ast.{
  Node, Value, int, Nodes, int_param, children_of, node, name_of, float, cons, set_value, params_of,
  operator_node, nil, empty, NodeType, type_of, type_text, str, number, absent, value_of,
  set_children, same_type,
}
use worldquant_workflow_v2_r.Expr.Floats.{Floats}
use worldquant_workflow_v2_r.Common.{
  Text, String, Option, ℕ, List, ◌++◌, some, ◌∷◌, keep, codes, [], not, none, suc, lower, find_text,
  zero, if◌then◌else◌, mem_text, any, ◌&&◌, text_eq,
}
use worldquant_workflow_v2_r.Expr.Paths.{TreePath, and_then, update_path, replace_path}
use worldquant_workflow_v2_r.Expr.Constraints.{MutationConstraints, validate, is_operator}
use worldquant_workflow_v2_r.Expr.Printer.{serialize, decimal, format_number, is_white}

pub record Candidate (F : Type 0) : Type 0 where
  pub ast : Node F
  pub expression : Text
  pub mutation : Text
  pub description : Text

-- `"".join(expression.lower().split())`
unfoldable pub dedupe_key : Text → Text
dedupe_key expression = keep (λ c. not (is_white c)) (lower expression)

module _ (fl : Floats) where
  open fl use {Float, truncate, is_zero, repr}

  -- `_candidate`
  unfoldable pub candidate : Node Float → String → Text → Candidate Float
  candidate ast mutation description = record {
    ast = ast;
    expression = serialize fl ast;
    mutation = codes mutation;
    description = description;
  }

  abbrev arrow : Text → Text → Text
  arrow old new = old ++ (codes "->" ++ new)

  -- A loop that appends one candidate: the tree that a change at a path leaves.
  abbrev pub changed :
      Node Float → TreePath → (Node Float → Node Float) → String → Text → Option (Candidate Float)
  changed ast path change mutation description =
      and_then (update_path ast path change) λ tree. some (candidate tree mutation description)

  abbrev pub Candidates : Type 0
  Candidates = Option (List (Candidate Float))

  unfoldable pub replace_operators : Node Float → Candidates
  unfolding candidate
  replace_operators ast =
      collect
        (λ row.
          one_each
            (λ name.
              changed ast row.0 (rename_operator (codes name)) "replace_operator"
                (arrow (name_of row.1) (codes name)))
            (keep (λ name. arity_compatible (codes name) row.1)
              (get_text_or [] (find_text (name_of row.1) replacements))))
        (operator_paths ast)

  -- `int(child.value)`; of what is no number, and of an infinite float, Python raises.
  abbrev pub as_int : Value Float → Option ℕ
  as_int (int n) = some n
  as_int (float x) = truncate x
  as_int _ = none

  abbrev window_text : Text → Text → ℕ → Text
  window_text name old value = name ++ (codes " window " ++ arrow old (decimal value))

  -- The children with their indices, from `enumerate(node.children)`.
  abbrev pub numbered : ℕ → Nodes Float → List (ℕ × Node Float)
  numbered i nil = []
  numbered i (cons c cs) = (i, c) ∷ numbered (suc i) cs

  -- `target.children[index].value = value`
  abbrev pub set_child_value : ℕ → ℕ → Nodes Float → Nodes Float
  set_child_value i value nil = nil
  set_child_value zero value (cons c cs) = cons (set_value c (int value)) cs
  set_child_value (suc i) value (cons c cs) = cons c (set_child_value i value cs)

  unfoldable pub window_param_candidates : Node Float → TreePath × Node Float → Candidates
  unfolding candidate
  window_param_candidates ast row = elim (int_param (codes "window") (params_of row.1)) [
    | none ↦ some []
    | some old ↦
        one_each
          (λ value.
            changed ast row.0 (set_window value) "replace_window"
              (window_text (name_of row.1) (decimal old) value))
          (nearby_windows old)
  ]

  unfoldable pub window_child_candidates :
      Node Float → TreePath × Node Float → ℕ × Node Float → Candidates
  unfolding candidate
  window_child_candidates ast row child =
      if same_type (type_of child.1) number
      then (and_then (as_int (value_of child.1)) λ old.
          one_each
            (λ value.
              changed ast row.0
                (λ n. set_children n (set_child_value child.0 value (children_of n)))
                "replace_window"
                (window_text (name_of row.1) (format_number fl (value_of child.1)) value))
            (nearby_windows old))
      else some []

  unfoldable pub replace_windows : Node Float → Candidates
  unfolding window_param_candidates window_child_candidates
  replace_windows ast =
      collect
        (λ row. and_then (window_param_candidates ast row) λ first.
          and_then (collect (window_child_candidates ast row) (numbered 0 (children_of row.1)))
            λ more. some (first ++ more))
        (operator_paths ast)

  -- `str(value or type)`
  value_or_type : NodeType → Value Float → Text
  value_or_type t absent = type_text t
  value_or_type t (int zero) = type_text t
  value_or_type t (int (suc n)) = decimal (suc n)
  value_or_type t (float x) = if is_zero x then type_text t else repr x
  value_or_type t (str []) = type_text t
  value_or_type t (str (c ∷ s)) = c ∷ s

  -- `node.display_name`
  display_name : Node Float → Text
  unfolding value_or_type
  display_name (node t (c ∷ name) op cs ps m v) = c ∷ name
  display_name (node t [] (c ∷ op) cs ps m v) = c ∷ op
  display_name (node t [] [] cs ps m v) = value_or_type t v

  unfoldable pub wrap_nodes : String → Node Float → Candidates
  unfolding candidate display_name
  wrap_nodes wrapper ast =
      collect
        (λ row. elim (wrapper_node (codes wrapper) row.1 8) [
          | none ↦ some []
          | some wrapped ↦ and_then (replace_path ast row.0 wrapped) λ tree. some (
              candidate tree "wrap_node"
                (codes "wrap " ++ (display_name row.1 ++ (codes " with " ++ codes wrapper)))
              ∷ [])
        ])
        (signal_paths ast)

  unfoldable pub insert_nodes : Node Float → Candidates
  unfolding wrap_nodes
  insert_nodes ast =
      and_then (wrap_nodes "rank" ast)
        λ first. and_then (wrap_nodes "winsorize" ast) λ more. some (first ++ more)

  abbrev removable : List String
  removable = "rank" ∷ "scale" ∷ "winsorize" ∷ "hump" ∷ []

  abbrev pub removals : Node Float → TreePath → Text → Nodes Float → Candidates
  removals ast path name (cons child nil) =
      if mem_text name removable
      then (and_then (replace_path ast path child)
          λ tree. some (candidate tree "remove_node" (codes "remove " ++ name) ∷ []))
      else some []
  removals ast path name _ = some []

  unfoldable pub remove_nodes : Node Float → Candidates
  unfolding candidate
  remove_nodes ast =
      collect (λ row. removals ast row.0 (name_of row.1) (children_of row.1)) (operator_paths ast)

  -- `name(name(x))` becomes `name(x)`, for an operator with one child.
  abbrev pub collapse_one : Node Float → TreePath → Text → Nodes Float → Candidates
  collapse_one ast path name (cons child nil) =
      if is_operator child && text_eq (name_of child) name
      then (and_then (replace_path ast path child) λ tree. some (
          candidate tree "simplify_branch"
            (codes "collapse " ++ (name ++ (b'(' ∷ (name ++ codes "())"))))
          ∷ []))
      else some []
  collapse_one ast path name _ = some []

  -- `group(group(x, g), h)` becomes `group(x, h)`: its parameters and metadata are dropped.
  abbrev pub collapsed : Node Float → TreePath → Text → Nodes Float → Nodes Float → Candidates
  collapsed ast path name others nil = some []
  collapsed ast path name others (cons inner _) =
      and_then (replace_path ast path (operator_node name (cons inner others) empty))
        λ tree. some (candidate tree "simplify_branch" (codes "collapse repeated " ++ name) ∷ [])

  abbrev pub collapse_group : Node Float → TreePath → Text → Nodes Float → Candidates
  collapse_group ast path name nil = some []
  collapse_group ast path name (cons child others) =
      if mem_text name ("group_neutralize" ∷ "group_zscore" ∷ [])
        && (is_operator child && text_eq (name_of child) name)
      then collapsed ast path name others (children_of child)
      else some []

  unfoldable pub simplify_branches : Node Float → Candidates
  unfolding candidate
  simplify_branches ast =
      collect
        (λ row. and_then (collapse_one ast row.0 (name_of row.1) (children_of row.1)) λ first.
          and_then (collapse_group ast row.0 (name_of row.1) (children_of row.1))
            λ more. some (first ++ more))
        (operator_paths ast)

  -- One branch of the loop of `generate`.
  unfoldable pub mutate : Text → Node Float → Mutation → Candidates
  unfolding replace_windows wrap_nodes replace_operators insert_nodes remove_nodes simplify_branches
  mutate strategy ast replace_window = replace_windows ast
  mutate strategy ast wrap_node =
      collect (λ wrapper. wrap_nodes wrapper ast) (recommended_wrappers strategy)
  mutate strategy ast replace_operator = replace_operators ast
  mutate strategy ast insert_node = insert_nodes ast
  mutate strategy ast remove_node = remove_nodes ast
  mutate strategy ast simplify_branch = simplify_branches ast

  -- `_dedupe_candidates`, with the keys seen so far
  unfoldable pub dedupe : List Text → List (Candidate Float) → List (Candidate Float)
  dedupe seen [] = []
  dedupe seen (c ∷ cs) =
      let repeated = dedupe seen cs in
      let fresh = c ∷ dedupe (dedupe_key c.expression ∷ seen) cs in
      if any (text_eq (dedupe_key c.expression)) seen then repeated else fresh

  -- `generate`, with the lower-cased name of the strategy
  unfoldable pub generate : MutationConstraints → Text → Node Float → Candidates
  unfolding mutate dedupe
  generate limits strategy ast =
      and_then (collect (mutate strategy ast) (strategy_mutations strategy))
        λ found. some (dedupe [] (keep (λ c. (validate limits c.ast).passed) found))
