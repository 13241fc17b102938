-- ===== src/Expr/Constraints/Counting.antt =====
-- The nodes of a tree that pass a test, under the changes of wq_workflow/core/structural_mutator.py.
use worldquant_workflow_v2_r.Expr.Ast.{
  Node, Nodes, walk, cons, child?, walk_all, children_of, set_children, node, nil,
}
use worldquant_workflow_v2_r.Common.{
  Bool, ℕ, List, ◌≡◌, ◌+◌, ◌++◌, some, arith, ◌∷◌, ap, refl, true, suc, false, [], Option-cases,
  inl, inr, sym, of_some, zero, tally,
}
use worldquant_workflow_v2_r.Expr.Paths.{set_child, update_path, get_path, TreePath}
use worldquant_workflow_v2_r.Expr.Constraints.{count_where}

module _ {F : Type 0} (test : Node F → Bool) where
  tally-append : (b : Bool) (m n : ℕ) → tally b (m + n) ≡ tally b m + n
  tally-append true m n = omega arith
  tally-append false m n = refl

  count_where-append :
      (xs ys : List (Node F))
      → count_where test (xs ++ ys) ≡ count_where test xs + count_where test ys
  count_where-append [] ys = omega arith
  count_where-append (x ∷ xs) ys =
      rw (count_where-append xs ys)
        (tally-append (test x) (count_where test xs) (count_where test ys))

  -- The nodes of a tree, and of a list of children, that pass the test.
  pub total : Node F → ℕ
  total n = count_where test (walk n)

  total_all : Nodes F → ℕ
  total_all cs = count_where test (walk_all cs)

  total_all-cons : (c : Node F) (cs : Nodes F) → total_all (cons c cs) ≡ total c + total_all cs
  unfolding total total_all walk
  total_all-cons c cs = count_where-append (walk c) (walk_all cs)

  total-node : (n : Node F) → total n ≡ tally (test n) (total_all (children_of n))
  unfolding total total_all walk
  total-node (node t name op cs ps m v) = refl

  set_child-total :
      (cs ds : Nodes F) (i : ℕ) (c c' : Node F)
      → child? cs i ≡ some c
      → set_child cs i c' ≡ some ds
      → total_all ds + total c ≡ total_all cs + total c'
  unfolding set_child
  set_child-total nil ds i c c' h e = cc
  set_child-total (cons b bs) ds zero c c' h e =
      let p : b ≡ c = cc in
      let q : ds ≡ cons c' bs = cc in
      rw q (omega (arith, total_all-cons b bs, total_all-cons c' bs, ap total p))
  set_child-total (cons b bs) ds (suc i) c c' h e = elim (Option-cases (set_child bs i c')) [
    | inl n ↦ cc
    | inr (es, p) ↦
        let q : ds ≡ cons b es = sym (of_some (rw p at e)) in
        rw q (
          omega (arith, total_all-cons b bs, total_all-cons b es, set_child-total bs es i c c' h p))
  ]

  tally-total :
      (b b' : Bool) (m n k l : ℕ) → b ≡ b' → m + k ≡ n + l → tally b m + k ≡ tally b' n + l
  tally-total b b' m n k l e h = ground arith

  rebuilt :
      ((n : Node F) (cs : Nodes F) → test (set_children n cs) ≡ test n)
      → (ast : Node F) (ds : Nodes F) (k l : ℕ) → total_all ds + k ≡ total_all (children_of ast) + l
      → total (set_children ast ds) + k ≡ total ast + l
  unfolding total total_all walk
  rebuilt blind (node t name op cs ps m v) ds k l h =
      tally-total _ _ (total_all ds) (total_all cs) k l (blind (node t name op cs ps m v) ds) h

  -- For a test that does not look at a node's children: a change at a path changes the number of
  -- nodes of the tree that pass by what it changes below the node that the path leads to.
  pub update_path-total :
      ((n : Node F) (cs : Nodes F) → test (set_children n cs) ≡ test n)
      → (path : TreePath) (ast n tree : Node F) (change : Node F → Node F)
      → get_path ast path ≡ some n
      → update_path ast path change ≡ some tree
      → total tree + total n ≡ total ast + total (change n)
  unfolding update_path get_path
  update_path-total blind [] ast n tree change h e =
      let p : ast ≡ n = of_some h in
      let q : change ast ≡ tree = of_some e in
      omega (arith, ap total p, ap total (sym q), ap (λ x. total (change x)) p)
  update_path-total blind (i ∷ path) ast n tree change h e =
      elim (Option-cases (child? (children_of ast) i)) [
        | inl none_there ↦ absurd (cc (rw none_there at h))
        | inr (c, ec) ↦ elim (Option-cases (update_path c path change)) [
          | inl none_there ↦ absurd (cc (rw (ec, none_there) at e))
          | inr (c', eu) ↦ elim (Option-cases (set_child (children_of ast) i c')) [
            | inl none_there ↦ absurd (cc (rw (ec, eu, none_there) at e))
            | inr (ds, es) ↦
                let made : set_children ast ds ≡ tree = of_some (rw (ec, eu, es) at e) in
                let below = update_path-total blind path c n c' change (rw ec at h) eu in
                let beside = set_child-total (children_of ast) ds i c c' ec es in
                rw (← made)
                  (rebuilt blind ast ds (total n) (total (change n)) (omega (arith, below, beside)))
          ]
        ]
      ]
