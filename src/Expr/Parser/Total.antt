-- ===== src/Expr/Parser/Total.antt =====
-- About `parse` of wq_workflow/core/parser/expression_parser.py as a whole.
use worldquant_workflow_v2_r.Expr.Lexer.Shape.{Tokens, at_end, before, tokenize-Within}
use worldquant_workflow_v2_r.Expr.Parser.Took.{EndsInEof}
use worldquant_workflow_v2_r.Expr.Parser.Fuel.{build_ast-Within}
use worldquant_workflow_v2_r.Common.{ℕ, List, Text, ◌∷◌, ◌≢◌, []}
use worldquant_workflow_v2_r.Expr.Floats.{Floats}
use worldquant_workflow_v2_r.Expr.Parser.{parse, build_ast}
use worldquant_workflow_v2_r.Expr.Token.{Token}
use worldquant_workflow_v2_r.Expr.Result.{Within, out_of_fuel, Within-out_of_fuel, Within-bind}

Tokens-EndsInEof :
    {size from : ℕ} {t : Token} {ts : List Token} → Tokens size from (t ∷ ts) → EndsInEof t ts
Tokens-EndsInEof (at_end t e p h) = e
Tokens-EndsInEof (before t next n p h (at_end u e q k)) = e
Tokens-EndsInEof (before t next n p h (before u next' m q k rest)) =
    Tokens-EndsInEof (before u next' m q k rest)

build-Within :
    (fl : Floats) {size from : ℕ} (ts : List Token)
    → Tokens size from ts
    → Within (λ _. Unit {0}) (build_ast fl ts)
build-Within fl [] h = elim h [ ]
build-Within fl (t ∷ ts) h = build_ast-Within fl t ts (Tokens-EndsInEof h)

pub parse-Within : (fl : Floats) (text : Text) → Within (λ _. Unit {0}) (parse fl text)
unfolding parse
parse-Within fl text = Within-bind (tokenize-Within text) λ ts h. build-Within fl ts h

-- For every text `parse` returns a tree or raises: neither the lexer's rounds nor the parser's
-- recursion go on for ever.
pub parse-ne-out_of_fuel : (fl : Floats) (text : Text) → parse fl text ≢ out_of_fuel
parse-ne-out_of_fuel fl text = Within-out_of_fuel (parse-Within fl text)
