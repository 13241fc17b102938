-- ===== src/Expr/Paths.antt =====
-- The paths of wq_workflow/core/structural_mutator.py: child indices from the root. `none` is the
-- IndexError of a path that leaves the tree.
pub mod Sound
use worldquant_workflow_v2_r.Common.{ℕ, zero, suc, Option, none, some, List, [], ◌∷◌, ◌++◌}
use worldquant_workflow_v2_r.Expr.Ast.{
  Node, Nodes, node, nil, cons, children_of, set_children, child?,
}

abbrev pub TreePath : Type 0
TreePath = List ℕ

abbrev pub and_then {ℓ κ} : {A : Type ℓ} {B : Type κ} → Option A → (A → Option B) → Option B
and_then none f = none
and_then (some a) f = f a

-- `_paths`: every node with its path, in the order of `walk`.
unfoldable mutual
  pub paths : {F : Type 0} → Node F → TreePath → List (TreePath × Node F)
  paths (node t n o cs ps m v) path = (path, node t n o cs ps m v) ∷ paths_from cs path 0

  pub paths_from : {F : Type 0} → Nodes F → TreePath → ℕ → List (TreePath × Node F)
  paths_from nil path index = []
  paths_from (cons c cs) path index = paths c (path ++ index ∷ []) ++ paths_from cs path (suc index)

module _ {F : Type 0} where
  -- `_get_path`
  unfoldable pub get_path : Node F → TreePath → Option (Node F)
  get_path n [] = some n
  get_path n (i ∷ path) = and_then (child? (children_of n) i) λ c. get_path c path

  -- `children[i] = n`
  unfoldable pub set_child : Nodes F → ℕ → Node F → Option (Nodes F)
  set_child nil i n = none
  set_child (cons c cs) zero n = some (cons n cs)
  set_child (cons c cs) (suc i) n = and_then (set_child cs i n) λ rest. some (cons c rest)

  -- `_get_path` to a node, a change of that node in place, and the tree that it leaves.
  unfoldable pub update_path : Node F → TreePath → (Node F → Node F) → Option (Node F)
  unfolding set_child
  update_path n [] change = some (change n)
  update_path n (i ∷ path) change = and_then (child? (children_of n) i) λ c.
      and_then (update_path c path change)
        λ c'. and_then (set_child (children_of n) i c') λ cs. some (set_children n cs)

  -- `_replace_path`
  unfoldable pub replace_path : Node F → TreePath → Node F → Option (Node F)
  unfolding update_path
  replace_path ast path replacement = update_path ast path (λ _. replacement)
