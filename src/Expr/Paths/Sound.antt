-- ===== src/Expr/Paths/Sound.antt =====
-- About `_paths`, `_get_path` and `_replace_path` of wq_workflow/core/structural_mutator.py.
use worldquant_workflow_v2_r.Expr.Ast.{
  Node, Nodes, NodeType, children_of, node, child?, set_children, Params, cons, Metadata, nil,
  Value,
}
use worldquant_workflow_v2_r.Expr.Paths.{
  get_path, paths, set_child, update_path, TreePath, paths_from,
}
use worldquant_workflow_v2_r.Common.{
  All, ℕ, ◌≡◌, Text, ◌++◌, suc, some, ◌+◌, ◌∷◌, [], refl, append_assoc, ◌∙◌, sym, All-map, ap,
  arith, append-nil, zero, All-append, zero-add, add-zero, Option-cases, inl, inr,
}

-- `row` is reached from `n`, whose own path is `path`.
abbrev Reached : {F : Type 0} → Node F → TreePath → TreePath × Node F → Type 0
Reached n path row = (q : TreePath) × (row.0 ≡ path ++ q) × (get_path n q ≡ some row.1)

-- `row` is reached from one of the children `cs`, the first of which has the index `index`.
abbrev ReachedFrom : {F : Type 0} → Nodes F → TreePath → ℕ → TreePath × Node F → Type 0
ReachedFrom {F} cs path index row =
    (j : ℕ) × (q : TreePath) × (c : Node F) × (row.0 ≡ path ++ (index + j) ∷ q)
    × (child? cs j ≡ some c)
    × (get_path c q ≡ some row.1)

module _ {F : Type 0} where
  down :
      (t : NodeType) (name op : Text) (cs : Nodes F) (ps : Params F) (m : Metadata) (v : Value F)
      (path : TreePath) (row : TreePath × Node F)
      → ReachedFrom cs path 0 row
      → Reached (node t name op cs ps m v) path row
  unfolding get_path
  down t name op cs ps m v path row (j, q, c, e, h, g) = (j ∷ q, rw (e, zero-add), rw h g)

  first :
      (c : Node F) (cs : Nodes F) (path : TreePath) (index : ℕ) (row : TreePath × Node F)
      → Reached c (path ++ index ∷ []) row
      → ReachedFrom (cons c cs) path index row
  first c cs path index row (q, e, g) = (0, q, c, rw (e, append_assoc, add-zero) refl, refl, g)

  later :
      (c : Node F) (cs : Nodes F) (path : TreePath) (index : ℕ) (row : TreePath × Node F)
      → ReachedFrom cs path (suc index) row
      → ReachedFrom (cons c cs) path index row
  later c cs path index row (j, q, d, e, h, g) =
      (suc j, q, d, e ∙ ap (λ i. path ++ i ∷ q) (omega arith), h, g)

mutual
  unfolding paths get_path

  paths-Reached : {F : Type 0} (n : Node F) (path : TreePath) → All (Reached n path) (paths n path)
  paths-Reached (node t name op cs ps m v) path = (
    ([], sym (append-nil path), refl),
    All-map (paths_from cs path 0) (down t name op cs ps m v path) (paths_from-Reached cs path 0),
  )

  paths_from-Reached :
      {F : Type 0} (cs : Nodes F) (path : TreePath) (index : ℕ)
      → All (ReachedFrom cs path index) (paths_from cs path index)
  paths_from-Reached nil path index = tt
  paths_from-Reached (cons c cs) path index =
      All-append (ReachedFrom (cons c cs) path index) (paths c (path ++ index ∷ []))
        (paths_from cs path (suc index))
        (All-map (paths c (path ++ index ∷ [])) (first c cs path index)
          (paths-Reached c (path ++ index ∷ [])))
        (All-map (paths_from cs path (suc index)) (later c cs path index)
          (paths_from-Reached cs path (suc index)))

-- Every path that `_paths` lists leads, by `_get_path`, to the node that is listed with it.
pub paths_sound :
    {F : Type 0} (ast : Node F) → All (λ row. get_path ast row.0 ≡ some row.1) (paths ast [])
paths_sound ast = All-map (paths ast []) (λ row (q, e, g). rw e g) (paths-Reached ast [])

module _ {F : Type 0} where
  -- Writing a child that is there succeeds, and reading it back gives what was written.
  set_child-Read :
      (cs : Nodes F) (i : ℕ) {c : Node F} (n : Node F)
      → child? cs i ≡ some c
      → (ds : Nodes F) × (set_child cs i n ≡ some ds) × (child? ds i ≡ some n)
  unfolding set_child
  set_child-Read nil i n h = cc
  set_child-Read (cons d cs) zero n h = (cons n cs, refl, refl)
  set_child-Read (cons d cs) (suc i) n h =
      let (ds, e, g) = set_child-Read cs i n h in (cons d ds, rw e, g)

  children_of-set_children : (n : Node F) (cs : Nodes F) → children_of (set_children n cs) ≡ cs
  children_of-set_children (node t name op _ ps m v) cs = refl

  -- A change at a path that leads to the node `n` succeeds, and what the path leads to afterwards
  -- is the changed node.
  pub update_path-get_path :
      (path : TreePath) (ast n : Node F) (change : Node F → Node F)
      → get_path ast path ≡ some n
      → (tree : Node F) × (update_path ast path change ≡ some tree)
        × (get_path tree path ≡ some (change n))
  unfolding update_path get_path
  update_path-get_path [] ast n change h = (change ast, refl, cc)
  update_path-get_path (i ∷ path) ast n change h =
      elim (Option-cases (child? (children_of ast) i)) [
        | inl e ↦ absurd (cc (rw e at h))
        | inr (c, e) ↦
            let (c', p, q) = update_path-get_path path c n change (rw e at h) in
            let (ds, r, s) = set_child-Read (children_of ast) i c' e in
            (set_children ast ds, rw (e, p, r), rw (children_of-set_children ast ds, s) q)
      ]
