-- ===== src/Expr/Parser/NumberNodes.antt =====
-- The nodes that wq_workflow/core/parser/expression_parser.py makes, and their number nodes.
use worldquant_workflow_v2_r.Expr.Ast.{
  number, operator, field, variable, nil, cons, node, Value, Nodes, walk, walk_all, append, Node,
  NodeType, Params, Metadata, same_type, has_param, type_of, float, value_of,
}
use worldquant_workflow_v2_r.Expr.Token.{TokenType}
use worldquant_workflow_v2_r.Expr.Result.{Yields, yields, fails}
use worldquant_workflow_v2_r.Expr.Floats.{Floats}
use worldquant_workflow_v2_r.Common.{
  Text, Option, ℕ, Bool-cases, All, some, All-split, any, All-append, mem_text, none, ◌==◌, ◌≡◌, [],
  lower, inl, false, ◌&&◌, refl, inr, not, codes, Option-cases, subst, Bool, ◌⊎◌, true,
}
use worldquant_workflow_v2_r.Expr.Parser.{
  number_value, name_node, split_window, call_node, or_bad_number, to_float, to_int, leaf,
  as_program, window_operators, two, int_of,
}
use worldquant_workflow_v2_r.Expr.Mutator.Rows.{Returns}
use worldquant_workflow_v2_r.Expr.Mutator.Generate.{as_int}
use worldquant_workflow_v2_r.Expr.Operators.{safe_fields}

module _ (fl : Floats) where
  open fl use {Float, of_text, truncate}

  -- A float that `int` does not take
  abbrev pub overflows : Value Float → Bool
  overflows (float x) = elim (truncate x) [ none ↦ true | some n ↦ false ]
  overflows _ = false

  abbrev pub IsNumber : Value Float → Type 0
  IsNumber v = Returns (as_int fl v) ⊎ (overflows v ≡ true)

  -- A number node has an integer or a float.
  abbrev pub IsLiteral : Node Float → Type 0
  IsLiteral n = same_type (type_of n) number ≡ true → IsNumber (value_of n)

  abbrev pub HasLiterals : Node Float → Type 0
  HasLiterals n = All IsLiteral (walk n)

  float-Yields :
      (text : Text) (o : Option Float) → Yields IsNumber (or_bad_number text (to_float fl o))
  float-Yields text none = fails
  float-Yields text (some x) = yields (elim (Option-cases (truncate x)) [
    | inl e ↦ inr (rw (e, overflows) refl)
    | inr (n, e) ↦ inl (n, e)
  ])

  int-Yields : (text : Text) (o : Option ℕ) → Yields IsNumber (or_bad_number text (to_int fl o))
  int-Yields text none = fails
  int-Yields text (some i) = yields (inl (_, refl))

  pub number_value-Yields : (text : Text) → Yields IsNumber (number_value fl text)
  unfolding number_value
  number_value-Yields text = elim (Bool-cases (any (λ c. c == b'.') text)) [
    | inl e ↦ rw e (float-Yields text (of_text text))
    | inr e ↦ rw e (int-Yields text (int_of text))
  ]

  abbrev pub AllLiterals : Nodes Float → Type 0
  AllLiterals cs = All IsLiteral (walk_all cs)

  -- A node that is no number node, above children that have numbers
  pub node-HasLiterals :
      (t : NodeType) (name op : Text) (cs : Nodes Float) (ps : Params Float) (m : Metadata)
      (v : Value Float)
      → same_type t number ≡ false
      → AllLiterals cs
      → HasLiterals (node t name op cs ps m v)
  unfolding walk
  node-HasLiterals t name op cs ps m v n h = ((λ e. absurd (cc (rw n at e))), h)

  pub number-HasLiterals : (v : Value Float) → IsNumber v → HasLiterals (leaf fl number [] v)
  unfolding walk
  number-HasLiterals v h = ((λ _. h), tt)

  pub no_children : AllLiterals nil
  unfolding walk_all
  no_children = tt

  pub child_numbers :
      (c : Node Float) (cs : Nodes Float) → HasLiterals c → AllLiterals cs → AllLiterals (cons c cs)
  unfolding walk_all
  child_numbers c cs h k = All-append IsLiteral (walk c) (walk_all cs) h k

  pub name_node-HasLiterals : (name : Text) → HasLiterals (name_node fl name)
  unfolding name_node
  name_node-HasLiterals name = elim (Bool-cases (mem_text (lower name) safe_fields)) [
    | inl e ↦ rw e (node-HasLiterals field _ _ nil _ _ _ refl no_children)
    | inr e ↦ rw e (node-HasLiterals variable _ _ nil _ _ _ refl no_children)
  ]

  pub append-AllLiterals :
      (cs : Nodes Float) (c : Node Float)
      → AllLiterals cs
      → HasLiterals c
      → AllLiterals (append cs c)
  unfolding walk_all
  append-AllLiterals nil c h k = child_numbers c nil k no_children
  append-AllLiterals (cons d ds) c h k =
      let (p, q) = All-split IsLiteral (walk d) (walk_all ds) h in
      child_numbers d (append ds c) p (append-AllLiterals ds c q k)

  -- The children that `split_window` leaves
  abbrev FrontLiterals : Option (Nodes Float × Value Float) → Type 0
  FrontLiterals none = Unit
  FrontLiterals (some (front, v)) = AllLiterals front

  with_front :
      (c : Node Float) (o : Option (Nodes Float × Value Float))
      → HasLiterals c
      → FrontLiterals o
      → FrontLiterals (elim o [ none ↦ none | some (front, v) ↦ some (cons c front, v) ])
  with_front c none h k = tt
  with_front c (some (front, v)) h k = child_numbers c front h k

  split_window-FrontLiterals :
      (cs : Nodes Float) → AllLiterals cs → FrontLiterals (split_window fl cs)
  unfolding split_window walk_all
  split_window-FrontLiterals nil h = tt
  split_window-FrontLiterals (cons (node number n o cs ps m v) nil) h = tt
  split_window-FrontLiterals (cons (node _ n o cs ps m v) nil) h = tt
  split_window-FrontLiterals (cons c (cons d cs)) h =
      let (p, q) = All-split IsLiteral (walk c) (walk_all (cons d cs)) h in
      with_front c (split_window fl (cons d cs)) p (split_window-FrontLiterals (cons d cs) q)

  pub call_node-HasLiterals :
      (name : Text) (cs : Nodes Float) (ps : Params Float)
      → AllLiterals cs
      → HasLiterals (call_node fl name cs ps)
  unfolding call_node
  call_node-HasLiterals name cs ps h =
      elim (Bool-cases (mem_text name window_operators && not (has_param (codes "window") ps))) [
        | inr e ↦ rw e (node-HasLiterals operator _ _ cs _ _ _ refl h)
        | inl e ↦ elim (Option-cases (split_window fl cs)) [
          | inl n ↦ rw (e, n) (node-HasLiterals operator _ _ cs _ _ _ refl h)
          | inr ((front, v), p) ↦
              let k : AllLiterals front = subst FrontLiterals p (split_window-FrontLiterals cs h) in
              rw (e, p) (node-HasLiterals operator _ _ front _ _ _ refl k)
        ]
      ]

  pub two-HasLiterals :
      (t : NodeType) (op : TokenType) (l r : Node Float)
      → same_type t number ≡ false
      → HasLiterals l
      → HasLiterals r
      → HasLiterals (two fl t op l r)
  two-HasLiterals t op l r n h k =
      node-HasLiterals t _ _ _ _ _ _ n
        (child_numbers l (cons r nil) h (child_numbers r nil k no_children))

  pub as_program-HasLiterals : (ns : Nodes Float) → AllLiterals ns → HasLiterals (as_program fl ns)
  unfolding walk_all
  as_program-HasLiterals nil h = ((λ e. absurd (cc e)), h)
  as_program-HasLiterals (cons n nil) h = (All-split IsLiteral (walk n) [] h).0
  as_program-HasLiterals (cons n (cons m ns)) h = ((λ e. absurd (cc e)), h)
