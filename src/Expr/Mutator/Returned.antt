-- ===== src/Expr/Mutator/Returned.antt =====
-- About the runs of `generate` and its mutations, wq_workflow/core/structural_mutator.py.
use worldquant_workflow_v2_r.Expr.Mutator.{
  replace_window, wrap_node, replace_operator, insert_node, remove_node, simplify_branch, Mutation,
  operator_paths, signal_paths, recommended_wrappers, collect, strategy_mutations, wrapper_node,
  rename_operator, nearby_windows, set_window,
}
use worldquant_workflow_v2_r.Expr.Ast.{
  nil, cons, Node, Nodes, int_param, same_type, params_of, type_of, name_of, number, children_of,
  operator_node, value_of, empty, set_children,
}
use worldquant_workflow_v2_r.Expr.Floats.{Floats}
use worldquant_workflow_v2_r.Expr.Mutator.Generate.{
  replace_operators, window_param_candidates, window_child_candidates, replace_windows, wrap_nodes,
  insert_nodes, remove_nodes, simplify_branches, mutate, generate, Candidate, numbered, removals,
  collapse_one, collapsed, collapse_group, as_int, set_child_value,
}
use worldquant_workflow_v2_r.Common.{
  Bool, Option, String, Text, ℕ, List, Option-cases, if◌then◌else◌, Bool-cases, ◌≡◌, ◌++◌, true,
  All-map, codes, some, All-of, false, All, inl, [], inr, refl,
}
use worldquant_workflow_v2_r.Expr.Constraints.{MutationConstraints, validate}
use worldquant_workflow_v2_r.Expr.Mutator.Rows.{
  HasNumbers, Returns, Good, collect-Returns, IsNumeric, and_then-Returns, one_each-Returns,
  changed-Returns, children-IsNumeric, replaced-Returns, operator_paths-Good, signal_paths-Good,
}
use worldquant_workflow_v2_r.Expr.Paths.{TreePath, get_path, and_then, replace_path}
use worldquant_workflow_v2_r.Expr.Mutator.Chosen.{DistinctKeys, generate_sound}
use worldquant_workflow_v2_r.Expr.Printer.{decimal, format_number}

module _ (fl : Floats) where
  open fl use {Float}

  replace_operators-Returns :
      (ast : Node Float) → HasNumbers fl ast → Returns (replace_operators fl ast)
  unfolding replace_operators
  replace_operators-Returns ast h = collect-Returns _ (operator_paths ast) (
      All-map (operator_paths ast)
        (λ row good. one_each-Returns _ _ (λ name.
          changed-Returns fl ast row.0 row.1 (rename_operator (codes name)) "replace_operator"
            (name_of row.1 ++ (codes "->" ++ codes name)) good.0))
        (operator_paths-Good fl ast h))

  window_param-Returns :
      (ast : Node Float) (row : TreePath × Node Float)
      → Good fl ast row
      → Returns (window_param_candidates fl ast row)
  unfolding window_param_candidates
  window_param-Returns ast row good =
      elim (Option-cases (int_param (codes "window") (params_of row.1))) [
        | inl e ↦ rw (e, window_param_candidates) ([], refl)
        | inr (old, e) ↦
            rw (e, window_param_candidates)
              (one_each-Returns _ (nearby_windows old) (λ value.
                changed-Returns fl ast row.0 row.1 (set_window value) "replace_window"
                  (name_of row.1
                    ++ (codes " window " ++ (decimal old ++ (codes "->" ++ decimal value))))
                  good.0))
      ]

  window_child-Returns :
      (ast : Node Float) (row : TreePath × Node Float) (child : ℕ × Node Float)
      → Good fl ast row
      → IsNumeric fl child.1
      → Returns (window_child_candidates fl ast row child)
  unfolding window_child_candidates
  window_child-Returns ast row child good numeric =
      elim (Bool-cases (same_type (type_of child.1) number)) [
        | inl e ↦ rw e (
            and_then-Returns (as_int fl (value_of child.1)) _ (numeric e) (λ old.
              one_each-Returns _ (nearby_windows old) (λ value.
                changed-Returns fl ast row.0 row.1
                  (λ n. set_children n (set_child_value fl child.0 value (children_of n)))
                  "replace_window"
                  (name_of row.1
                    ++ (codes " window "
                        ++ (format_number fl (value_of child.1) ++ (codes "->" ++ decimal value))))
                  good.0)))
        | inr e ↦ rw e ([], refl)
      ]

  replace_windows-Returns :
      (ast : Node Float) → HasNumbers fl ast → Returns (replace_windows fl ast)
  unfolding replace_windows
  replace_windows-Returns ast h = collect-Returns _ (operator_paths ast) (
      All-map (operator_paths ast)
        (λ row good.
          and_then-Returns (window_param_candidates fl ast row) _
            (window_param-Returns ast row good)
            (λ first.
              and_then-Returns
                (collect (window_child_candidates fl ast row) (numbered fl 0 (children_of row.1))) _
                (collect-Returns _ (numbered fl 0 (children_of row.1)) (
                  All-map (numbered fl 0 (children_of row.1))
                    (λ child numeric. window_child-Returns ast row child good numeric)
                    (children-IsNumeric fl row.1 good.1)))
                (λ more. (first ++ more, refl))))
        (operator_paths-Good fl ast h))

  -- A candidate that replaces the node at a path
  one_replaced :
      (ast : Node Float) (path : TreePath) (n replacement : Node Float)
      (make : Node Float → List (Candidate Float))
      → get_path ast path ≡ some n
      → Returns (and_then (replace_path ast path replacement) λ tree. some (make tree))
  one_replaced ast path n replacement make h =
      and_then-Returns (replace_path ast path replacement) _
        (replaced-Returns fl ast path n replacement h) (λ tree. (make tree, refl))

  if-Returns {ℓ} :
      {A : Type ℓ} (b : Bool) (o p : Option A)
      → Returns o
      → Returns p
      → Returns (if b then o else p)
  if-Returns true o p h k = h
  if-Returns false o p h k = k

  wrap_nodes-Returns :
      (wrapper : String) (ast : Node Float)
      → HasNumbers fl ast
      → Returns (wrap_nodes fl wrapper ast)
  unfolding wrap_nodes
  wrap_nodes-Returns wrapper ast h = collect-Returns _ (signal_paths ast) (
      All-map (signal_paths ast)
        (λ row good. elim (Option-cases (wrapper_node (codes wrapper) row.1 8)) [
          | inl e ↦ rw e ([], refl)
          | inr (wrapped, e) ↦ rw e (one_replaced ast row.0 row.1 wrapped _ good.0)
        ])
        (signal_paths-Good fl ast h))

  insert_nodes-Returns : (ast : Node Float) → HasNumbers fl ast → Returns (insert_nodes fl ast)
  unfolding insert_nodes
  insert_nodes-Returns ast h =
      and_then-Returns (wrap_nodes fl "rank" ast) _ (wrap_nodes-Returns "rank" ast h) (λ first.
        and_then-Returns (wrap_nodes fl "winsorize" ast) _ (wrap_nodes-Returns "winsorize" ast h)
          (λ more. (first ++ more, refl)))

  removals-Returns :
      (ast : Node Float) (path : TreePath) (name : Text) (n : Node Float) (cs : Nodes Float)
      → get_path ast path ≡ some n
      → Returns (removals fl ast path name cs)
  removals-Returns ast path name n nil h = ([], refl)
  removals-Returns ast path name n (cons c (cons d ds)) h = ([], refl)
  removals-Returns ast path name n (cons c nil) h =
      if-Returns _ _ _ (one_replaced ast path n c _ h) ([], refl)

  remove_nodes-Returns : (ast : Node Float) → HasNumbers fl ast → Returns (remove_nodes fl ast)
  unfolding remove_nodes
  remove_nodes-Returns ast h = collect-Returns _ (operator_paths ast) (
      All-map (operator_paths ast)
        (λ row good. removals-Returns ast row.0 (name_of row.1) row.1 (children_of row.1) good.0)
        (operator_paths-Good fl ast h))

  collapse_one-Returns :
      (ast : Node Float) (path : TreePath) (name : Text) (n : Node Float) (cs : Nodes Float)
      → get_path ast path ≡ some n
      → Returns (collapse_one fl ast path name cs)
  collapse_one-Returns ast path name n nil h = ([], refl)
  collapse_one-Returns ast path name n (cons c (cons d ds)) h = ([], refl)
  collapse_one-Returns ast path name n (cons c nil) h =
      if-Returns _ _ _ (one_replaced ast path n c _ h) ([], refl)

  collapsed-Returns :
      (ast : Node Float) (path : TreePath) (name : Text) (n : Node Float) (others cs : Nodes Float)
      → get_path ast path ≡ some n
      → Returns (collapsed fl ast path name others cs)
  collapsed-Returns ast path name n others nil h = ([], refl)
  collapsed-Returns ast path name n others (cons inner cs) h =
      one_replaced ast path n (operator_node name (cons inner others) empty) _ h

  collapse_group-Returns :
      (ast : Node Float) (path : TreePath) (name : Text) (n : Node Float) (cs : Nodes Float)
      → get_path ast path ≡ some n
      → Returns (collapse_group fl ast path name cs)
  collapse_group-Returns ast path name n nil h = ([], refl)
  collapse_group-Returns ast path name n (cons c others) h =
      if-Returns _ _ _ (collapsed-Returns ast path name n others (children_of c) h) ([], refl)

  simplify_branches-Returns :
      (ast : Node Float) → HasNumbers fl ast → Returns (simplify_branches fl ast)
  unfolding simplify_branches
  simplify_branches-Returns ast h = collect-Returns _ (operator_paths ast) (
      All-map (operator_paths ast)
        (λ row good.
          let name = name_of row.1 in
          let cs = children_of row.1 in
          and_then-Returns (collapse_one fl ast row.0 name cs) _
            (collapse_one-Returns ast row.0 name row.1 cs good.0)
            (λ first.
              and_then-Returns (collapse_group fl ast row.0 name cs) _
                (collapse_group-Returns ast row.0 name row.1 cs good.0)
                (λ more. (first ++ more, refl))))
        (operator_paths-Good fl ast h))

  mutate-Returns :
      (strategy : Text) (ast : Node Float) (m : Mutation)
      → HasNumbers fl ast
      → Returns (mutate fl strategy ast m)
  unfolding mutate
  mutate-Returns strategy ast replace_window h = replace_windows-Returns ast h
  mutate-Returns strategy ast wrap_node h =
      collect-Returns _ (recommended_wrappers strategy)
        (All-of (recommended_wrappers strategy) (λ wrapper. wrap_nodes-Returns wrapper ast h))
  mutate-Returns strategy ast replace_operator h = replace_operators-Returns ast h
  mutate-Returns strategy ast insert_node h = insert_nodes-Returns ast h
  mutate-Returns strategy ast remove_node h = remove_nodes-Returns ast h
  mutate-Returns strategy ast simplify_branch h = simplify_branches-Returns ast h

  generate-some :
      (limits : MutationConstraints) (strategy : Text) (ast : Node Float)
      → HasNumbers fl ast
      → Returns (generate fl limits strategy ast)
  unfolding generate
  generate-some limits strategy ast h =
      and_then-Returns (collect (mutate fl strategy ast) (strategy_mutations strategy)) _
        (collect-Returns _ (strategy_mutations strategy)
          (All-of (strategy_mutations strategy) (λ m. mutate-Returns strategy ast m h)))
        (λ found. (_, refl))

  -- On a tree whose number nodes all have values that `int` takes, which an infinite float is not,
  -- `generate` returns, whatever the strategy and the constraints; each candidate satisfies the
  -- constraints, and no two of them have the same expression up to letter case and white space.
  pub generate-Returns :
      (limits : MutationConstraints) (strategy : Text) (ast : Node Float)
      → HasNumbers fl ast
      → (found : List (Candidate Float)) × (generate fl limits strategy ast ≡ some found)
        × All (λ c. (validate limits c.ast).passed ≡ true) found
        × DistinctKeys fl [] found
  generate-Returns limits strategy ast h =
      let (found, e) = generate-some limits strategy ast h in
      let (valid, distinct) = generate_sound fl limits strategy ast e in (found, e, valid, distinct)
