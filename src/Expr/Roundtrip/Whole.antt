-- ===== src/Expr/Roundtrip/Whole.antt =====
-- About the round trip of a program through wq_workflow/core/ast/ast_serializer.py and
-- wq_workflow/core/parser/expression_parser.py.
use worldquant_workflow_v2_r.Expr.Roundtrip.{
  result, assigned, no_more, then_more, IsStatement, AllStatements,
}
use worldquant_workflow_v2_r.Expr.Token.{assign, separator, ident, eof, sign}
use worldquant_workflow_v2_r.Expr.Roundtrip.Scanning.{
  next, Then, Breaks, Lexes, printed_Breaks, newline-Lexes, AtEnd, flat, end-Lexes,
}
use worldquant_workflow_v2_r.Expr.Floats.{Floats}
use worldquant_workflow_v2_r.Expr.Ast.{Node, Nodes, cons, nil}
use worldquant_workflow_v2_r.Expr.Printer.{serialize, join, serialize_all}
use worldquant_workflow_v2_r.Expr.Parser.{
  statement, statements, Stream, as_program, expect, advance, name_of_assignment, matches, parse,
  build_ast,
}
use worldquant_workflow_v2_r.Common.{
  Text, ℕ, ◌∷◌, ◌≡◌, [], ◌++◌, sym, codes, append_assoc, false, refl, suc, zero, append-nil, length,
}
use worldquant_workflow_v2_r.Expr.Roundtrip.Lexing.{
  ExpressionSpells, expression-Lexes, operator-Lexes,
}
use worldquant_workflow_v2_r.Expr.Roundtrip.Opening.{NoAssign, expression-Opens, Then-NoAssign}
use worldquant_workflow_v2_r.Expr.Lexer.{token, tokenize}
use worldquant_workflow_v2_r.Expr.Result.{Gives, starved, Gives-bind, gives, ok, Gives-ok}
use worldquant_workflow_v2_r.Expr.Roundtrip.Texts.{serialize_all-cons, serialize_all-nil}
use worldquant_workflow_v2_r.Expr.Roundtrip.Parsing.{Reads}
use worldquant_workflow_v2_r.Expr.Roundtrip.Reading.{EndsExpression}
use worldquant_workflow_v2_r.Expr.Roundtrip.Words.{word-Lexes}
use worldquant_workflow_v2_r.Expr.Roundtrip.Trees.{expression-Reads}
use worldquant_workflow_v2_r.Expr.Parser.Total.{parse-ne-out_of_fuel}

module _ (fl : Floats) where
  open fl use {Float}

  abbrev StatementSpells : {t : Node Float} → IsStatement fl t → (Stream → Type 0) → Stream → Type 0
  StatementSpells (result d) P = ExpressionSpells fl d P
  StatementSpells (assigned name w d) P =
      Then ident name (Then assign (sign assign) (ExpressionSpells fl d P))

  abbrev StatementsSpell :
      {ts : Nodes Float} → AllStatements fl ts → (Stream → Type 0) → Stream → Type 0
  StatementsSpell no_more P = P
  StatementsSpell (then_more d no_more) P = StatementSpells d P
  StatementsSpell (then_more d (then_more d' ds)) P =
      StatementSpells d (Then separator (10 ∷ []) (StatementsSpell (then_more d' ds) P))

  serialize-assignment :
      (name : Text) (t : Node Float)
      → serialize fl (name_of_assignment fl name t) ≡ name ++ (codes " = " ++ serialize fl t)
  unfolding serialize
  serialize-assignment name t = refl

  statement-Lexes :
      {t : Node Float} {P : Stream → Type 0} (rest : Text) (d : IsStatement fl t)
      → Breaks rest
      → Lexes P rest
      → Lexes (StatementSpells d P) (serialize fl t ++ rest)
  statement-Lexes rest (result d) b h = expression-Lexes fl rest d b h
  statement-Lexes rest (assigned {t} name w d) b h =
      rw (serialize-assignment name t, append_assoc name (codes " = " ++ serialize fl t) rest)
        (word-Lexes name _ w (printed_Breaks rest).3
          (operator-Lexes fl assign _ (λ e. cc) (expression-Lexes fl rest d b h)))

  abbrev statements_text : Nodes Float → Text
  statements_text ts = join (10 ∷ []) (serialize_all fl ts)

  statements_text-cons :
      (t u : Node Float) (ts : Nodes Float)
      → statements_text (cons t (cons u ts)) ≡ serialize fl t ++ (10 ∷ statements_text (cons u ts))
  unfolding join
  statements_text-cons t u ts =
      rw (serialize_all-cons fl t (cons u ts), serialize_all-cons fl u ts) refl

  statements_text-one : (t : Node Float) → statements_text (cons t nil) ≡ serialize fl t
  unfolding join
  statements_text-one t = rw (serialize_all-cons fl t nil, serialize_all-nil fl) refl

  statements_text-nil : statements_text nil ≡ []
  unfolding join
  statements_text-nil = rw (serialize_all-nil fl) refl

  -- What is printed of a program, also of one statement
  serialize-as_program : (ts : Nodes Float) → serialize fl (as_program fl ts) ≡ statements_text ts
  unfolding serialize
  serialize-as_program nil = refl
  serialize-as_program (cons t nil) = sym (statements_text-one t)
  serialize-as_program (cons t (cons u ts)) = refl

  statements-Lexes :
      {ts : Nodes Float} {P : Stream → Type 0} (rest : Text) (d : AllStatements fl ts)
      → Breaks rest
      → Lexes P rest
      → Lexes (StatementsSpell d P) (statements_text ts ++ rest)
  statements-Lexes rest no_more b h = rw statements_text-nil h
  statements-Lexes rest (then_more {t} d no_more) b h =
      rw (statements_text-one t) (statement-Lexes rest d b h)
  statements-Lexes rest (then_more {t} d (then_more {t = u} {ts} d' ds)) b h =
      rw
        (
          statements_text-cons t u ts,
          append_assoc (serialize fl t) (10 ∷ statements_text (cons u ts)) rest,
        )
        (statement-Lexes _ d (printed_Breaks rest).4
          (newline-Lexes _ (statements-Lexes rest (then_more d' ds) b h)))

  statement-Reads :
      {t : Node Float} {P : Stream → Type 0} (d : IsStatement fl t) (s : Stream)
      → NoAssign P
      → StatementSpells d P s
      → Reads fl P (EndsExpression fl) t (λ f. statement fl f s)
  unfolding statement expect advance
  statement-Reads (result d) s n h =
      let (s', q, read) = expression-Reads fl d s h in
      (s', q, λ c f. rw (expression-Opens fl d s n h).keyword (read c f))
  statement-Reads (assigned name w d) s n (p, s₁, e, (p₁, s₂, e₁, h)) =
      let (s', q, read) = expression-Reads fl d s₂ h in
      (s', q, λ c f. rw (e, e₁) (Gives-bind _ (read c f) gives))

  -- A statement starts with neither the end of the text nor a separator.
  statement-Starts :
      {t : Node Float} {P : Stream → Type 0} (d : IsStatement fl t) (s : Stream)
      → NoAssign P
      → StatementSpells d P s
      → (matches s eof ≡ false) × (matches s separator ≡ false)
  statement-Starts (result d) s n h =
      let o = expression-Opens fl d s n h in (o.ending, o.separating)
  statement-Starts (assigned name w d) s n (p, s₁, e, h) = rw e (refl, refl)

  statements-step :
      {ts : Nodes Float} (f : ℕ) (t : Node Float) (s s₁ s' : Stream)
      → (matches s eof ≡ false) × (matches s separator ≡ false)
      → ((g : ℕ) → Gives (t, s₁) (statement fl g s))
      → ((g : ℕ) → Gives (ts, s') (statements fl g s₁))
      → Gives (cons t ts, s') (statements fl f s)
  unfolding statements
  statements-step zero t s s₁ s' o h k = starved
  statements-step (suc f) t s s₁ s' o h k =
      rw (o.0, o.1) (Gives-bind _ (h f) (Gives-bind _ (k f) gives))

  statements-end :
      (f i : ℕ)
      → let s : Stream = record { current = token eof [] i; rest = [] } in
        Gives (nil, s) (statements fl f s)
  unfolding statements
  statements-end zero i = starved
  statements-end (suc f) i = gives

  statements-separator :
      {y : Nodes Float × Stream} (f p : ℕ) (s : Stream)
      → ((g : ℕ) → Gives y (statements fl g s))
      → Gives y (statements fl f (next (token separator (10 ∷ []) p) s))
  unfolding statements advance
  statements-separator zero p s h = starved
  statements-separator (suc f) p s h = h f

  end-NoAssign : NoAssign AtEnd
  end-NoAssign s (i, e) = rw e refl

  statements-Read :
      {ts : Nodes Float} (d : AllStatements fl ts) (s : Stream)
      → StatementsSpell d AtEnd s
      → (s' : Stream) × ((f : ℕ) → Gives (ts, s') (statements fl f s))
  statements-Read no_more s (i, e) = (s, λ f. rw e (statements-end f i))
  statements-Read (then_more {t} d no_more) s h =
      let (s₁, (i, e), read) = statement-Reads d s end-NoAssign h in
      (
        s₁,
        λ f.
            statements-step f t s s₁ s₁ (statement-Starts d s end-NoAssign h)
              (read (rw e (refl, refl, refl))) (λ g. rw e (statements-end g i)),
      )
  statements-Read (then_more {t} d (then_more d' ds)) s h =
      let n = Then-NoAssign separator (10 ∷ []) _ refl in
      let (s₁, (p, s₂, e, g), read) = statement-Reads d s n h in
      let (s', more) = statements-Read (then_more d' ds) s₂ g in
      (
        s',
        λ f.
            statements-step f t s s₁ s' (statement-Starts d s n h) (read (rw e (refl, refl, refl)))
              (λ i. rw e (statements-separator i p s₂ more)),
      )

  tokens-Gives :
      {ts : Nodes Float} (d : AllStatements fl ts)
      → (s : Stream) × Gives (flat s) (tokenize (statements_text ts)) × StatementsSpell d AtEnd s
  unfolding tokenize
  tokens-Gives {ts} d =
      let (s, g, h) = statements-Lexes [] d tt end-Lexes 0 in
      (s, rw append-nil at (g (suc (length (statements_text ts)))), h)

  parse-Gives :
      {ts : Nodes Float}
      → AllStatements fl ts
      → Gives (as_program fl ts) (parse fl (statements_text ts))
  unfolding parse build_ast
  parse-Gives d =
      let (s, g, h) = tokens-Gives d in
      let (s', read) = statements-Read d s h in Gives-bind _ g (Gives-bind _ (read _) gives)

  -- A program of statements of the grammar, whose calls are in lower case and whose operands need no
  -- parentheses, is parsed back from its printed text as the same tree.
  pub parse-serialize :
      (ts : Nodes Float)
      → AllStatements fl ts
      → parse fl (serialize fl (as_program fl ts)) ≡ ok (as_program fl ts)
  parse-serialize ts d =
      rw (serialize-as_program ts)
        (Gives-ok (parse-Gives d) (parse-ne-out_of_fuel fl (statements_text ts)))
