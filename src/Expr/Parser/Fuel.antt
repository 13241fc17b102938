-- ===== src/Expr/Parser/Fuel.antt =====
-- About the fuel of the model of wq_workflow/core/parser/expression_parser.py.
use worldquant_workflow_v2_r.Common.{
  ℕ, zero, suc, ◌+◌, ◌*◌, ◌<◌, refl, ◌&&◌, ◌||◌, not, Option, none, some, List, ◌∷◌, Text, length,
  arith, &&-eq-true, ltb,
}
use worldquant_workflow_v2_r.Expr.Token
use worldquant_workflow_v2_r.Expr.Token.{
  TokenType, Token, eof, ident, rparen, lparen, comma, assign, ◌is◌, is→eq, is_refl,
}
use worldquant_workflow_v2_r.Expr.Ast.{Node, Nodes, Params, Value, binary, nil, empty, append}
use worldquant_workflow_v2_r.Expr.Floats.{Floats}
use worldquant_workflow_v2_r.Expr.Result.{
  Within, returns, raises, Within-if, Within-bind, Within-map,
}
use worldquant_workflow_v2_r.Expr.Parser.{
  Stream, advance, type_now, matches, peek_type, is_binary, is_comparison, plus, minus,
  number_value, expression, or_bad_number, binary_level, binary_rest, precedence, two, unary_level,
  primary, call, arguments, put_param, separated, statement, statements, build_ast, separator,
}
use worldquant_workflow_v2_r.Expr.Parser.Took.{
  EndsInEof, Ends, left, Took, advance-Took, take-Took, here, not_eof_comparison, expect-Within,
  weaken, then_Took, not_eof_binary, not_eof_sign, relabel,
}

or_bad_number-Within :
    {F : Type 0} (text : Text) (o : Option (Value F))
    → Within (λ _. Unit {0}) (or_bad_number text o)
or_bad_number-Within text none = raises
or_bad_number-Within text (some v) = returns tt

module _ (fl : Floats) where
  number_value-Within : (text : Text) → Within (λ _. Unit {0}) (number_value fl text)
  unfolding number_value
  number_value-Within text = or_bad_number-Within text _

  -- One induction on the fuel, a lemma for each function of the parser.
  mutual
    unfolding expression

    expression-Within :
        (f : ℕ) (s : Stream) → Ends s → 8 * left s + 4 < f → Within (Took 1 s) (expression fl f s)
    expression-Within zero s e h = absurd (omega arith)
    expression-Within (suc f) s e h =
        Within-bind (binary_level-Within f 0 s e (omega arith)) λ (l, s₁) p.
          Within-if (is_comparison (type_now s₁))
            (λ c.
              let q = advance-Took s₁ p.ends (not_eof_comparison _ c) in
              Within-bind
                (binary_level-Within f 0 (advance s₁) q.ends (omega (arith, p.fewer, q.fewer)))
                λ (r, s₂) u. returns (weaken (omega arith) (then_Took p (then_Took q u))))
            (λ _. returns (weaken (omega arith) p))

    binary_level-Within :
        (f least : ℕ) (s : Stream)
        → Ends s
        → 8 * left s + 3 < f
        → Within (Took 1 s) (binary_level fl f least s)
    binary_level-Within zero least s e h = absurd (omega arith)
    binary_level-Within (suc f) least s e h =
        Within-bind (unary_level-Within f s e (omega arith)) λ (l, s₁) p.
          Within-map (λ _ u. weaken (omega arith) (then_Took p u))
            (binary_rest-Within f least l s₁ p.ends (omega (arith, p.fewer)))

    binary_rest-Within :
        (f least : ℕ) (l : Node fl.Float) (s : Stream)
        → Ends s
        → 8 * left s + 4 < f
        → Within (Took 0 s) (binary_rest fl f least l s)
    binary_rest-Within zero least l s e h = absurd (omega arith)
    binary_rest-Within (suc f) least l s e h =
        Within-if (is_binary (type_now s) && not (ltb (precedence (type_now s)) least))
          (λ c.
            let q = advance-Took s e (not_eof_binary _ (&&-eq-true _ _ c).0) in
            Within-bind
              (binary_level-Within f (precedence (type_now s) + 1) (advance s) q.ends
                (omega (arith, q.fewer)))
              λ (r, s₁) p.
                Within-map (λ _ u. weaken (omega arith) (then_Took q (then_Took p u)))
                  (binary_rest-Within f least (two fl binary (type_now s) l r) s₁ p.ends
                    (omega (arith, p.fewer, q.fewer))))
          (λ _. returns (here s e))

    unary_level-Within :
        (f : ℕ) (s : Stream) → Ends s → 8 * left s + 2 < f → Within (Took 1 s) (unary_level fl f s)
    unary_level-Within zero s e h = absurd (omega arith)
    unary_level-Within (suc f) s e h =
        Within-if (type_now s is plus || type_now s is minus)
          (λ c.
            let q = advance-Took s e (not_eof_sign _ c) in
            Within-bind (unary_level-Within f (advance s) q.ends (omega (arith, q.fewer)))
              λ (n, s₁) p. returns (weaken (omega arith) (then_Took q p)))
          (λ _. primary-Within f s e (omega arith))

    primary-Within :
        (f : ℕ) (s : Stream) → Ends s → 8 * left s + 1 < f → Within (Took 1 s) (primary fl f s)
    primary-Within zero s e h = absurd (omega arith)
    primary-Within (suc f) s e h =
        Within-if (type_now s is Token.number)
          (λ c.
            Within-bind (number_value-Within _)
              λ v _. returns (relabel (take-Took s Token.number e c refl)))
          λ _.
            Within-if (type_now s is Token.string)
              (λ c. returns (relabel (take-Took s Token.string e c refl)))
              λ _.
                Within-if (type_now s is ident)
                  (λ c.
                    let q = take-Took s ident e c refl in
                    Within-if (matches (advance s) lparen)
                      (λ _.
                        Within-map (λ _ u. weaken (omega arith) (then_Took q u))
                          (call-Within f s.current.value (advance s) q.ends
                            (omega (arith, q.fewer))))
                      (λ _. returns (relabel q)))
                  λ _.
                    Within-if (type_now s is lparen)
                      (λ c.
                        let q = take-Took s lparen e c refl in
                        Within-bind
                          (expression-Within f (advance s) q.ends (omega (arith, q.fewer)))
                          λ (n, s₁) p.
                            Within-bind (expect-Within rparen s₁ p.ends refl) λ (_, s₂) u.
                              returns (weaken (omega arith) (then_Took q (then_Took p u))))
                      (λ _. raises)

    call-Within :
        (f : ℕ) (name : Text) (s : Stream)
        → Ends s
        → 8 * left s < f
        → Within (Took 1 s) (call fl f name s)
    call-Within zero name s e h = absurd (omega arith)
    call-Within (suc f) name s e h = Within-bind (expect-Within lparen s e refl) λ (_, s₁) p.
        Within-bind (arguments-Within f name nil empty s₁ p.ends (omega (arith, p.fewer)))
          λ (_, s₂) q.
            Within-bind (expect-Within rparen s₂ q.ends refl)
              λ (_, s₃) u. returns (weaken (omega arith) (then_Took p (then_Took q u)))

    arguments-Within :
        (f : ℕ) (name : Text) (cs : Nodes fl.Float) (ps : Params fl.Float) (s : Stream)
        → Ends s
        → 8 * left s + 5 < f
        → Within (Took 0 s) (arguments fl f name cs ps s)
    arguments-Within zero name cs ps s e h = absurd (omega arith)
    arguments-Within (suc f) name cs ps s e h =
        Within-if (matches s rparen) (λ _. returns (here s e))
          λ _.
            Within-if (matches s eof) (λ _. raises)
              λ _.
                Within-if (matches s ident && peek_type s is assign)
                  (λ c.
                    let q = take-Took s ident e (&&-eq-true _ _ c).0 refl in
                    Within-bind (expect-Within assign (advance s) q.ends refl) λ (_, s₁) a.
                      Within-bind (expression-Within f s₁ a.ends (omega (arith, q.fewer, a.fewer)))
                        λ (v, s₂) p.
                          Within-map
                            (λ _ u.
                              weaken (omega arith) (then_Took q (then_Took a (then_Took p u))))
                            (separated-Within f name cs (put_param fl s.current.value v ps) s₂
                              p.ends (omega (arith, q.fewer, a.fewer, p.fewer))))
                  (λ _. Within-bind (expression-Within f s e (omega arith)) λ (v, s₁) p.
                    Within-map (λ _ u. weaken (omega arith) (then_Took p u))
                      (separated-Within f name (append cs v) ps s₁ p.ends (omega (arith, p.fewer))))

    separated-Within :
        (f : ℕ) (name : Text) (cs : Nodes fl.Float) (ps : Params fl.Float) (s : Stream)
        → Ends s
        → 8 * left s + 6 < f
        → Within (Took 0 s) (separated fl f name cs ps s)
    separated-Within zero name cs ps s e h = absurd (omega arith)
    separated-Within (suc f) name cs ps s e h =
        Within-if (matches s comma)
          (λ c.
            let q = take-Took s comma e c refl in
            Within-map (λ _ u. weaken (omega arith) (then_Took q u))
              (arguments-Within f name cs ps (advance s) q.ends (omega (arith, q.fewer))))
          λ _.
            Within-if (not (matches s rparen)) (λ _. raises)
              (λ _. arguments-Within f name cs ps s e (omega arith))

  statement-Within :
      (f : ℕ) (s : Stream) → Ends s → 8 * left s + 4 < f → Within (Took 1 s) (statement fl f s)
  unfolding statement
  statement-Within f s e h =
      Within-if (matches s ident && peek_type s is assign)
        (λ c.
          let q = take-Took s ident e (&&-eq-true _ _ c).0 refl in
          Within-bind (expect-Within assign (advance s) q.ends refl) λ (_, s₁) a.
            Within-bind (expression-Within f s₁ a.ends (omega (arith, q.fewer, a.fewer)))
              λ (v, s₂) p. returns (weaken (omega arith) (then_Took q (then_Took a p))))
        (λ _. expression-Within f s e h)

  statements-Within :
      (f : ℕ) (s : Stream) → Ends s → 8 * left s + 5 < f → Within (Took 0 s) (statements fl f s)
  unfolding statements
  statements-Within zero s e h = absurd (omega arith)
  statements-Within (suc f) s e h =
      Within-if (matches s eof) (λ _. returns (here s e))
        λ _.
          Within-if (matches s separator)
            (λ c.
              let q = take-Took s separator e c refl in
              Within-map (λ _ u. weaken (omega arith) (then_Took q u))
                (statements-Within f (advance s) q.ends (omega (arith, q.fewer))))
            (λ _. Within-bind (statement-Within f s e (omega arith)) λ (n, s₁) p.
              Within-bind (statements-Within f s₁ p.ends (omega (arith, p.fewer)))
                λ (ns, s₂) q. returns (weaken (omega arith) (then_Took p q)))

  pub build_ast-Within :
      (t : Token) (ts : List Token)
      → EndsInEof t ts
      → Within (λ _. Unit {0}) (build_ast fl (t ∷ ts))
  unfolding build_ast
  build_ast-Within t ts e =
      Within-bind
        (statements-Within (8 * length ts + 6) (record { current = t; rest = ts }) e (omega arith))
        λ _ _. returns tt
