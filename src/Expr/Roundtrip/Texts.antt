-- ===== src/Expr/Roundtrip/Texts.antt =====
-- About what wq_workflow/core/ast/ast_serializer.py prints of the layers of the grammar.
use worldquant_workflow_v2_r.Expr.Ast.{
  has_param, operator, literal, Node, Nodes, Value, cons, nil, put_literal, empty, Params, node,
  Metadata, absent,
}
use worldquant_workflow_v2_r.Expr.Roundtrip.{
  alone, compared, operand, joined, bare, signed, word, whole, quoted, called, none_left, one_more,
  IsUnary, IsExpression, IsSum, IsPrimary, AllExpressions,
}
use worldquant_workflow_v2_r.Expr.Floats.{Floats}
use worldquant_workflow_v2_r.Common.{
  Text, Option, ℕ, ◌++◌, ◌≡◌, ◌∷◌, Bool-cases, some, mem_text, none, codes, lower, [], inl, inr,
  refl, Option-cases, text_eq, true, append-nil,
}
use worldquant_workflow_v2_r.Expr.Parser.{
  name_node, split_window, call_node, window_operators, arity_metadata,
}
use worldquant_workflow_v2_r.Expr.Printer.{
  serialize, format_value, join, serialize_all, serialize_params,
}
use worldquant_workflow_v2_r.Expr.Operators.{safe_fields}

module _ (fl : Floats) where
  open fl use {Float}

  abbrev pub call_text : Text → Nodes Float → Text
  call_text name args = name ++ (b'(' ∷ (join (codes ", ") (serialize_all fl args) ++ b')' ∷ []))

  pub serialize-name_node : (name : Text) → serialize fl (name_node fl name) ≡ name
  unfolding name_node serialize
  serialize-name_node name = elim (Bool-cases (mem_text (lower name) safe_fields)) [
    | inl e ↦ rw e refl
    | inr e ↦ rw e refl
  ]

  abbrev IsWindow : Node Float → Option (Nodes Float × Value Float) → Type 0
  IsWindow t none = Unit
  IsWindow t (some (front, v)) = (front ≡ nil) × (format_value fl v ≡ serialize fl t)

  -- What `_call` makes a window of is printed as it was.
  primary-IsWindow : {t : Node Float} → IsPrimary fl t → IsWindow t (split_window fl (cons t nil))
  unfolding name_node call_node split_window format_value serialize has_param
  primary-IsWindow (word name w) = elim (Bool-cases (mem_text (lower name) safe_fields)) [
    | inl e ↦ rw e tt
    | inr e ↦ rw e tt
  ]
  primary-IsWindow (whole n) = (refl, refl)
  primary-IsWindow (quoted s) = tt
  primary-IsWindow (called name args w l a) = elim (Bool-cases (mem_text name window_operators)) [
    | inl e ↦ elim (Option-cases (split_window fl args)) [
      | inl k ↦ rw (e, k) tt
      | inr ((front, v), k) ↦ rw (e, k) tt
    ]
    | inr e ↦ rw e tt
  ]

  unary-IsWindow : {t : Node Float} → IsUnary fl t → IsWindow t (split_window fl (cons t nil))
  unfolding split_window
  unary-IsWindow (bare d) = primary-IsWindow d
  unary-IsWindow (signed op e d) = tt

  sum-IsWindow : {k : ℕ} {t : Node Float} → IsSum fl k t → IsWindow t (split_window fl (cons t nil))
  unfolding split_window
  sum-IsWindow (operand d) = unary-IsWindow d
  sum-IsWindow (joined op e h l r) = tt

  expression-IsWindow :
      {t : Node Float} → IsExpression fl t → IsWindow t (split_window fl (cons t nil))
  unfolding split_window
  expression-IsWindow (alone d) = sum-IsWindow d
  expression-IsWindow (compared op e l r) = tt

  pub serialize_all-cons :
      (t : Node Float) (ts : Nodes Float)
      → serialize_all fl (cons t ts) ≡ serialize fl t ∷ serialize_all fl ts
  unfolding serialize
  serialize_all-cons t ts = refl

  pub serialize_all-nil : serialize_all fl nil ≡ []
  unfolding serialize
  serialize_all-nil = refl

  abbrev in_front :
      Node Float → Option (Nodes Float × Value Float) → Option (Nodes Float × Value Float)
  in_front t none = none
  in_front t (some (front, v)) = some (cons t front, v)

  split_window-cons :
      (t u : Node Float) (ts : Nodes Float)
      → split_window fl (cons t (cons u ts)) ≡ in_front t (split_window fl (cons u ts))
  unfolding split_window
  split_window-cons t u ts = elim (Option-cases (split_window fl (cons u ts))) [
    | inl e ↦ rw e refl
    | inr ((front, v), e) ↦ rw e refl
  ]

  -- The window is printed behind the other arguments.
  split_window_text :
      {args front : Nodes Float} {v : Value Float}
      → AllExpressions fl args
      → split_window fl args ≡ some (front, v)
      → serialize_all fl args ≡ serialize_all fl front ++ (format_value fl v ∷ [])
  unfolding split_window
  split_window_text none_left e = cc
  split_window_text (one_more {t} d none_left) e =
      let (p, q) = rw e at (expression-IsWindow d) in
      rw (p, q, serialize_all-cons t nil, serialize_all-nil) refl
  split_window_text {front} {v} (one_more {t} d (one_more {t = u} {ts} d' ds)) e =
      elim (Option-cases (split_window fl (cons u ts))) [
        | inl k ↦ cc (rw (split_window-cons t u ts, k) at e)
        | inr ((front', v'), k) ↦
            let q : some (cons t front', v') ≡ some (front, v) =
              rw (split_window-cons t u ts, k) at e in
            let p : (cons t front' ≡ front) × (v' ≡ v) = (cc q, cc q) in
            rw
              (
                ← p.0,
                ← p.1,
                serialize_all-cons t front',
                serialize_all-cons t (cons u ts),
                split_window_text (one_more d' ds) k,
              )
              refl
      ]

  serialize-operator :
      (name : Text) (cs : Nodes Float) (ps : Params Float) (m : Metadata) (v : Value Float)
      → serialize fl (node operator name [] cs ps m v)
        ≡ name
          ++ (b'('
              ∷ (join (codes ", ") (serialize_all fl cs ++ serialize_params fl name ps)
                  ++ b')' ∷ []))
  unfolding serialize
  serialize-operator name cs ps m v = refl

  serialize_params-empty : (name : Text) → serialize_params fl name empty ≡ []
  unfolding serialize
  serialize_params-empty name = refl

  serialize_params-window :
      (name : Text) (v : Value Float)
      → mem_text name window_operators ≡ true
      → serialize_params fl name (literal (codes "window") v empty) ≡ format_value fl v ∷ []
  unfolding serialize text_eq
  serialize_params-window name v e = rw e refl

  serialize_plain :
      (name : Text) (args : Nodes Float)
      → serialize fl (node operator name [] args empty (arity_metadata name) absent)
        ≡ call_text name args
  serialize_plain name args =
      rw
        (
          serialize-operator name args empty (arity_metadata name) absent,
          serialize_params-empty name,
          append-nil (serialize_all fl args),
        )
        refl

  -- A call is printed as its name and its arguments, the window among them.
  pub serialize-call_node :
      (name : Text) (args : Nodes Float)
      → AllExpressions fl args
      → serialize fl (call_node fl name args empty) ≡ call_text name args
  unfolding call_node has_param put_literal
  serialize-call_node name args a = elim (Bool-cases (mem_text name window_operators)) [
    | inl e ↦ elim (Option-cases (split_window fl args)) [
      | inl k ↦ rw (e, k) (serialize_plain name args)
      | inr ((front, v), k) ↦
          rw (e, k)
            (rw
              (
                serialize-operator name front (literal (codes "window") v empty)
                    (arity_metadata name) absent,
                serialize_params-window name v e,
                split_window_text a k,
              )
              refl)
    ]
    | inr e ↦ rw e (serialize_plain name args)
  ]
