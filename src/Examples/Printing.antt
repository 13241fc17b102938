-- ===== src/Examples/Printing.antt =====
-- The round trip of wq_workflow/core/ast and wq_workflow/core/parser on a small program.
use worldquant_workflow_v2_r.Expr.Roundtrip.{
  result, assigned, no_more, then_more, alone, compared, joined, operand, signed, bare, word, whole,
  quoted, called, none_left, one_more, IsStatement, IsPrimary, IsWord,
}
use worldquant_workflow_v2_r.Expr.Ast.{
  number, string, int, str, empty, nil, cons, binary, comparison, Nodes, has_param, put_literal,
}
use worldquant_workflow_v2_r.Expr.Token.{plus, star, minus, gt}
use worldquant_workflow_v2_r.Examples.Expressions.{tenths, Tree}
use worldquant_workflow_v2_r.Common.{
  Text, ℕ, is_alnum, codes, lower_char, arith, ◌≡◌, [], refl, mem_text,
}
use worldquant_workflow_v2_r.Expr.Parser.{
  call_node, name_of_assignment, two, parse, name_node, leaf, one, as_program,
}
use worldquant_workflow_v2_r.Expr.Printer.{serialize, join, strip}
use worldquant_workflow_v2_r.Expr.Result.{ok}
use worldquant_workflow_v2_r.Expr.Roundtrip.Whole.{parse-serialize}
use worldquant_workflow_v2_r.Expr.Roundtrip.Regrouped.{parse-serialize_regroups}

abbrev variable_named : Text → Tree
variable_named s = name_node tenths s

abbrev whole_number : ℕ → Tree
whole_number n = leaf tenths number [] (int n)

-- ts_mean(close, 5), with the 5 as its window
abbrev smoothed : Tree
smoothed =
    call_node tenths (codes "ts_mean")
      (cons (variable_named (codes "close")) (cons (whole_number 5) nil)) empty

-- x = rank(ts_mean(close, 5) - 2)
abbrev ranked : Tree
ranked = name_of_assignment tenths (codes "x") (
    call_node tenths (codes "rank") (cons (two tenths binary minus smoothed (whole_number 2)) nil)
      empty)

-- -x * "a" > close
abbrev compared_product : Tree
compared_product =
    two tenths comparison gt
      (two tenths binary star (one tenths minus (variable_named (codes "x")))
        (leaf tenths string [] (str (codes "a"))))
      (variable_named (codes "close"))

abbrev both_statements : Nodes ℕ
both_statements = cons ranked (cons compared_product nil)

close-IsPrimary : IsPrimary tenths (variable_named (codes "close"))
unfolding is_alnum
close-IsPrimary = word (codes "close") (ground arith)

x-IsWord : IsWord (codes "x")
unfolding is_alnum
x-IsWord = ground arith

smoothed-IsPrimary : IsPrimary tenths smoothed
unfolding is_alnum lower_char
smoothed-IsPrimary = called (codes "ts_mean") _ (ground arith) refl (
    one_more (alone (operand (bare close-IsPrimary)))
      (one_more (alone (operand (bare (whole 5)))) none_left))

ranked-IsStatement : IsStatement tenths ranked
unfolding is_alnum lower_char
ranked-IsStatement = assigned (codes "x") x-IsWord (
    alone (
      operand (
        bare (
          called (codes "rank") _ (ground arith) refl (
            one_more
              (alone (
                joined minus refl (omega arith) (operand (bare smoothed-IsPrimary))
                  (operand (bare (whole 2)))))
              none_left)))))

compared_product-IsStatement : IsStatement tenths compared_product
compared_product-IsStatement = result (
    compared gt refl
      (joined star refl (omega arith)
        (operand (signed minus refl (bare (word (codes "x") x-IsWord))))
        (operand (bare (quoted (codes "a")))))
      (operand (bare close-IsPrimary)))

ranked-text : serialize tenths ranked ≡ codes "x = rank(ts_mean(close, 5) - 2)"
unfolding serialize call_node mem_text join strip has_param put_literal name_node lower_char
ranked-text = refl

parse-serialize_example :
    parse tenths (serialize tenths (as_program tenths both_statements))
    ≡ ok (as_program tenths both_statements)
parse-serialize_example =
    parse-serialize tenths both_statements
      (then_more ranked-IsStatement (then_more compared_product-IsStatement no_more))

parse-serialize_regroups_example :
    parse tenths (
      serialize tenths (
        two tenths binary star
          (two tenths binary plus (variable_named (codes "x")) (whole_number 1))
          (whole_number 2)))
    ≡ ok (
        two tenths binary plus
          (variable_named (codes "x"))
          (two tenths binary star (whole_number 1) (whole_number 2)))
parse-serialize_regroups_example =
    parse-serialize_regroups tenths (operand (bare (word (codes "x") x-IsWord)))
      (operand (bare (whole 1))) (operand (bare (whole 2)))
