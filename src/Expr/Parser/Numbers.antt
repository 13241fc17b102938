-- ===== src/Expr/Parser/Numbers.antt =====
-- About the number nodes that wq_workflow/core/parser/expression_parser.py makes.
use worldquant_workflow_v2_r.Expr.Token
use worldquant_workflow_v2_r.Expr.Ast.{
  string, unary, binary, comparison, assignment, nil, empty, Nodes, append, Node, Params,
}
use worldquant_workflow_v2_r.Expr.Token.{
  plus, minus, ident, eof, lparen, rparen, comma, assign, separator, TokenType, Token, ◌is◌,
}
use worldquant_workflow_v2_r.Expr.Result.{
  Result, Yields, yields, stops, Yields-if, Yields-bind, fails, out_of_fuel,
}
use worldquant_workflow_v2_r.Expr.Floats.{Floats}
use worldquant_workflow_v2_r.Common.{
  Text, ℕ, List, [], lower, suc, ◌&&◌, ◌∷◌, refl, not, ◌*◌, zero, length, ◌+◌, ltb, ◌||◌,
}
use worldquant_workflow_v2_r.Expr.Parser.{
  statement, statements, build_ast, parse, ok, Stream, expression, raised, matches, is_comparison,
  advance, two, type_now, peek_type, binary_level, binary_rest, expect, is_binary, precedence,
  unary_level, primary, call, arguments, put_param, separated,
}
use worldquant_workflow_v2_r.Expr.Lexer.{tokenize}
use worldquant_workflow_v2_r.Expr.Parser.NumberNodes.{
  AllLiterals, two-HasLiterals, node-HasLiterals, as_program-HasLiterals, child_numbers,
  no_children, number_value-Yields, number-HasLiterals, name_node-HasLiterals,
  call_node-HasLiterals, append-AllLiterals, HasLiterals,
}

-- What a run without a value in it satisfies
any_value : {A : Type 0} (r : Result A) → Yields (λ _. Unit {0}) r
any_value (ok a) = yields tt
any_value (raised e) = fails
any_value out_of_fuel = stops

module _ (fl : Floats) where
  open fl use {Float}

  -- A parser whose trees have numbers
  abbrev TreeLiterals : Node Float × Stream → Type 0
  TreeLiterals r = HasLiterals fl r.0

  abbrev ArgumentLiterals : (Nodes Float × Params Float) × Stream → Type 0
  ArgumentLiterals r = AllLiterals fl r.0.0

  mutual
    unfolding expression

    expression-Yields : (f : ℕ) (s : Stream) → Yields TreeLiterals (expression fl f s)
    expression-Yields zero s = stops
    expression-Yields (suc f) s = Yields-bind (binary_level-Yields f 0 s) λ (l, s₁) h.
        Yields-if (is_comparison (type_now s₁))
          (Yields-bind (binary_level-Yields f 0 (advance s₁))
            λ (r, s₂) k. yields (two-HasLiterals fl comparison _ l r refl h k))
          (yields h)

    binary_level-Yields :
        (f least : ℕ) (s : Stream) → Yields TreeLiterals (binary_level fl f least s)
    binary_level-Yields zero least s = stops
    binary_level-Yields (suc f) least s =
        Yields-bind (unary_level-Yields f s) λ (l, s₁) h. binary_rest-Yields f least l s₁ h

    binary_rest-Yields :
        (f least : ℕ) (l : Node Float) (s : Stream)
        → HasLiterals fl l
        → Yields TreeLiterals (binary_rest fl f least l s)
    binary_rest-Yields zero least l s h = stops
    binary_rest-Yields (suc f) least l s h =
        Yields-if (is_binary (type_now s) && not (ltb (precedence (type_now s)) least))
          (Yields-bind (binary_level-Yields f (precedence (type_now s) + 1) (advance s))
            λ (r, s₁) k.
              binary_rest-Yields f least (two fl binary (type_now s) l r) s₁
                (two-HasLiterals fl binary _ l r refl h k))
          (yields h)

    unary_level-Yields : (f : ℕ) (s : Stream) → Yields TreeLiterals (unary_level fl f s)
    unary_level-Yields zero s = stops
    unary_level-Yields (suc f) s =
        Yields-if (type_now s is plus || type_now s is minus)
          (Yields-bind (unary_level-Yields f (advance s)) λ (n, s₁) h. yields (
            node-HasLiterals fl unary _ _ _ _ _ _ refl (child_numbers fl n nil h (no_children fl))))
          (primary-Yields f s)

    primary-Yields : (f : ℕ) (s : Stream) → Yields TreeLiterals (primary fl f s)
    primary-Yields zero s = stops
    primary-Yields (suc f) s =
        Yields-if (type_now s is Token.number)
          (Yields-bind (number_value-Yields fl s.current.value)
            λ v h. yields (number-HasLiterals fl v h))
          (Yields-if (type_now s is Token.string)
            (yields (node-HasLiterals fl string _ _ nil _ _ _ refl (no_children fl)))
            (Yields-if (type_now s is ident)
              (Yields-if (matches (advance s) lparen) (call-Yields f s.current.value (advance s))
                (yields (name_node-HasLiterals fl s.current.value)))
              (Yields-if (type_now s is lparen)
                (Yields-bind (expression-Yields f (advance s))
                  λ (e, s₁) h. Yields-bind (any_value (expect rparen s₁)) λ _ _. yields h)
                fails)))

    call-Yields : (f : ℕ) (name : Text) (s : Stream) → Yields TreeLiterals (call fl f name s)
    call-Yields zero name s = stops
    call-Yields (suc f) name s = Yields-bind (any_value (expect lparen s)) λ (_, s₁) _.
        Yields-bind (arguments-Yields f name nil empty s₁ (no_children fl))
          λ ((children, params), s₂) h.
            Yields-bind (any_value (expect rparen s₂))
              λ _ _. yields (call_node-HasLiterals fl (lower name) children params h)

    arguments-Yields :
        (f : ℕ) (name : Text) (cs : Nodes Float) (ps : Params Float) (s : Stream)
        → AllLiterals fl cs
        → Yields ArgumentLiterals (arguments fl f name cs ps s)
    arguments-Yields zero name cs ps s h = stops
    arguments-Yields (suc f) name cs ps s h = Yields-if (matches s rparen) (yields h) (
        Yields-if (matches s eof) fails (
          Yields-if (matches s ident && peek_type s is assign)
            (Yields-bind (any_value (expect assign (advance s))) λ (_, s₁) _.
              Yields-bind (expression-Yields f s₁) λ (value, s₂) _.
                separated-Yields f name cs (put_param fl s.current.value value ps) s₂ h)
            (Yields-bind (expression-Yields f s) λ (value, s₁) k.
              separated-Yields f name (append cs value) ps s₁
                (append-AllLiterals fl cs value h k))))

    separated-Yields :
        (f : ℕ) (name : Text) (cs : Nodes Float) (ps : Params Float) (s : Stream)
        → AllLiterals fl cs
        → Yields ArgumentLiterals (separated fl f name cs ps s)
    separated-Yields zero name cs ps s h = stops
    separated-Yields (suc f) name cs ps s h =
        Yields-if (matches s comma) (arguments-Yields f name cs ps (advance s) h)
          (Yields-if (not (matches s rparen)) fails (arguments-Yields f name cs ps s h))

  statement-Yields : (f : ℕ) (s : Stream) → Yields TreeLiterals (statement fl f s)
  unfolding statement
  statement-Yields f s =
      Yields-if (matches s ident && peek_type s is assign)
        (Yields-bind (any_value (expect assign (advance s))) λ (_, s₁) _.
          Yields-bind (expression-Yields f s₁) λ (e, s₂) h. yields (
            node-HasLiterals fl assignment _ _ _ _ _ _ refl
              (child_numbers fl e nil h (no_children fl))))
        (expression-Yields f s)

  statements-Yields : (f : ℕ) (s : Stream) → Yields (λ r. AllLiterals fl r.0) (statements fl f s)
  unfolding statements
  statements-Yields zero s = stops
  statements-Yields (suc f) s = Yields-if (matches s eof) (yields (no_children fl)) (
      Yields-if (matches s separator) (statements-Yields f (advance s)) (
        Yields-bind (statement-Yields f s) λ (n, s₁) h.
          Yields-bind (statements-Yields f s₁) λ (ns, s₂) k. yields (child_numbers fl n ns h k)))

  build_ast-Yields : (ts : List Token) → Yields (HasLiterals fl) (build_ast fl ts)
  unfolding build_ast
  build_ast-Yields [] = fails
  build_ast-Yields (t ∷ ts) =
      Yields-bind (statements-Yields (8 * length ts + 6) (record { current = t; rest = ts }))
        λ (ns, s) h. yields (as_program-HasLiterals fl ns h)

  pub parse-Yields : (text : Text) → Yields (HasLiterals fl) (parse fl text)
  unfolding parse
  parse-Yields text = Yields-bind (any_value (tokenize text)) λ ts _. build_ast-Yields ts
