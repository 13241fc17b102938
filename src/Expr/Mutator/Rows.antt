-- ===== src/Expr/Mutator/Rows.antt =====
-- About the loops and the changes at listed paths in wq_workflow/core/structural_mutator.py.
use worldquant_workflow_v2_r.Common.{
  Option, ◌≡◌, List, some, subst, All, ℕ, String, sym, ◌∷◌, All-of, [], All-keep, Text, ◌++◌, refl,
  true, All-split, All-append, suc,
}
use worldquant_workflow_v2_r.Expr.Mutator.{collect, operator_paths, signal_paths, one_each}
use worldquant_workflow_v2_r.Expr.Floats.{Floats}
use worldquant_workflow_v2_r.Expr.Paths.{
  and_then, paths, TreePath, replace_path, get_path, paths_from, update_path,
}
use worldquant_workflow_v2_r.Expr.Ast.{
  Node, walk, walk_all, same_type, type_of, node, Nodes, number, cons, children_of, value_of, nil,
}
use worldquant_workflow_v2_r.Expr.Mutator.Generate.{numbered, changed, as_int}
use worldquant_workflow_v2_r.Expr.Paths.Sound.{update_path-get_path, paths_sound}

-- The computation returns.
abbrev pub Returns {ℓ} : {A : Type ℓ} → Option A → Type ℓ
Returns {A = A} o = (a : A) × (o ≡ some a)

pub and_then-Returns {ℓ κ} :
    {A : Type ℓ} {B : Type κ} (o : Option A) (f : A → Option B)
    → Returns o
    → ((a : A) → Returns (f a))
    → Returns (and_then o f)
and_then-Returns o f (a, e) h = subst (λ z. Returns (and_then z f)) (sym e) (h a)

pub collect-Returns {ℓ κ} :
    {A : Type ℓ} {B : Type κ} (body : A → Option (List B)) (xs : List A)
    → All (λ x. Returns (body x)) xs
    → Returns (collect body xs)
unfolding collect
collect-Returns body [] h = ([], refl)
collect-Returns body (x ∷ xs) h = and_then-Returns (body x) _ h.0 (λ first.
    and_then-Returns (collect body xs) _ (collect-Returns body xs h.1)
      (λ more. (first ++ more, refl)))

pub one_each-Returns {ℓ κ} :
    {A : Type ℓ} {B : Type κ} (body : A → Option B) (xs : List A)
    → ((x : A) → Returns (body x))
    → Returns (one_each body xs)
one_each-Returns body xs h =
    collect-Returns _ xs (All-of xs (λ x. and_then-Returns (body x) _ (h x) (λ b. (b ∷ [], refl))))

module _ (fl : Floats) where
  open fl use {Float}

  -- A number node has a value that `int` takes.
  abbrev pub IsNumeric : Node Float → Type 0
  IsNumeric n = same_type (type_of n) number ≡ true → Returns (as_int fl (value_of n))

  abbrev pub HasNumbers : Node Float → Type 0
  HasNumbers n = All IsNumeric (walk n)

  -- What `_paths` lists, with the node that each path leads to.
  abbrev pub Good : Node Float → TreePath × Node Float → Type 0
  Good ast row = (get_path ast row.0 ≡ some row.1) × HasNumbers row.1

  mutual
    unfolding paths walk

    paths-HasNumbers :
        (n : Node Float) (path : TreePath)
        → All IsNumeric (walk n)
        → All (λ row. HasNumbers row.1) (paths n path)
    paths-HasNumbers (node t name op cs ps m v) path h = (h, paths_from-HasNumbers cs path 0 h.1)

    paths_from-HasNumbers :
        (cs : Nodes Float) (path : TreePath) (index : ℕ)
        → All IsNumeric (walk_all cs)
        → All (λ row. HasNumbers row.1) (paths_from cs path index)
    paths_from-HasNumbers nil path index h = tt
    paths_from-HasNumbers (cons c cs) path index h =
        let (k, l) = All-split IsNumeric (walk c) (walk_all cs) h in
        All-append (λ row. HasNumbers row.1) (paths c (path ++ index ∷ []))
          (paths_from cs path (suc index)) (paths-HasNumbers c (path ++ index ∷ []) k)
          (paths_from-HasNumbers cs path (suc index) l)

  All-both :
      (P Q : TreePath × Node Float → Type 0) (rows : List (TreePath × Node Float))
      → All P rows
      → All Q rows
      → All (λ row. P row × Q row) rows
  All-both P Q [] h k = tt
  All-both P Q (row ∷ rows) h k = ((h.0, k.0), All-both P Q rows h.1 k.1)

  paths-Good : (ast : Node Float) → HasNumbers ast → All (Good ast) (paths ast [])
  paths-Good ast h = All-both _ _ (paths ast []) (paths_sound ast) (paths-HasNumbers ast [] h)

  pub operator_paths-Good :
      (ast : Node Float) → HasNumbers ast → All (Good ast) (operator_paths ast)
  unfolding operator_paths
  operator_paths-Good ast h = All-keep (Good ast) _ (paths ast []) (paths-Good ast h)

  pub signal_paths-Good : (ast : Node Float) → HasNumbers ast → All (Good ast) (signal_paths ast)
  unfolding signal_paths
  signal_paths-Good ast h = All-keep (Good ast) _ (paths ast []) (paths-Good ast h)

  head_of-walk : (n : Node Float) (P : Node Float → Type 0) → All P (walk n) → P n
  unfolding walk
  head_of-walk (node t name op cs ps m v) P h = h.0

  numbered-IsNumeric :
      (i : ℕ) (cs : Nodes Float)
      → All IsNumeric (walk_all cs)
      → All (λ child. IsNumeric child.1) (numbered fl i cs)
  unfolding walk_all
  numbered-IsNumeric i nil h = tt
  numbered-IsNumeric i (cons c cs) h =
      let (k, l) = All-split IsNumeric (walk c) (walk_all cs) h in
      (head_of-walk c IsNumeric k, numbered-IsNumeric (suc i) cs l)

  pub children-IsNumeric :
      (n : Node Float)
      → HasNumbers n
      → All (λ child. IsNumeric child.1) (numbered fl 0 (children_of n))
  unfolding walk
  children-IsNumeric (node t name op cs ps m v) h = numbered-IsNumeric 0 cs h.1

  -- A candidate is made at each path that leads to a node.
  pub changed-Returns :
      (ast : Node Float) (path : TreePath) (n : Node Float) (change : Node Float → Node Float)
      (mutation : String) (description : Text)
      → get_path ast path ≡ some n
      → Returns (changed fl ast path change mutation description)
  changed-Returns ast path n change mutation description h =
      let (tree, e, _) = update_path-get_path path ast n change h in
      and_then-Returns (update_path ast path change) _ (tree, e) (λ t. (_, refl))

  pub replaced-Returns :
      (ast : Node Float) (path : TreePath) (n replacement : Node Float)
      → get_path ast path ≡ some n
      → Returns (replace_path ast path replacement)
  unfolding replace_path
  replaced-Returns ast path n replacement h =
      let (tree, e, _) = update_path-get_path path ast n (λ _. replacement) h in (tree, e)
