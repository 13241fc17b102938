-- ===== src/Expr/Roundtrip/Regrouped.antt =====
-- About a product of a sum in wq_workflow/core/ast/ast_serializer.py, which prints no parentheses.
use worldquant_workflow_v2_r.Expr.Roundtrip.{result, no_more, then_more, alone, joined, IsSum}
use worldquant_workflow_v2_r.Expr.Ast.{binary, Node, cons, nil}
use worldquant_workflow_v2_r.Expr.Token.{plus, star}
use worldquant_workflow_v2_r.Expr.Floats.{Floats}
use worldquant_workflow_v2_r.Expr.Printer.{serialize}
use worldquant_workflow_v2_r.Expr.Parser.{parse, two}
use worldquant_workflow_v2_r.Common.{◌≡◌, arith, append_assoc, refl}
use worldquant_workflow_v2_r.Expr.Result.{ok}
use worldquant_workflow_v2_r.Expr.Roundtrip.Solid.{serialize_joined}
use worldquant_workflow_v2_r.Expr.Roundtrip.Whole.{parse-serialize}

module _ (fl : Floats) where
  open fl use {Float}

  module _ {a b c : Node Float} (x : IsSum fl 1 a) (y : IsSum fl 2 b) (z : IsSum fl 3 c) where
    -- The product of a sum is printed like the sum with a product.
    serialize_regrouped :
        serialize fl (two fl binary star (two fl binary plus a b) c)
        ≡ serialize fl (two fl binary plus a (two fl binary star b c))
    serialize_regrouped =
        let left : IsSum fl 1 (two fl binary plus a b) = joined plus refl (omega arith) x y in
        let right : IsSum fl 2 (two fl binary star b c) = joined star refl (omega arith) y z in
        rw
          (
            serialize_joined fl star left z,
            serialize_joined fl plus x y,
            serialize_joined fl plus x right,
            serialize_joined fl star y z,
          )
          (simp (append_assoc))

    -- For trees `a` of the grammar's sums, `b` of its products and `c` of its signed expressions,
    -- what is printed of the tree of (a + b) * c is parsed as the tree of a + b * c.
    pub parse-serialize_regroups :
        parse fl (serialize fl (two fl binary star (two fl binary plus a b) c))
        ≡ ok (two fl binary plus a (two fl binary star b c))
    parse-serialize_regroups = rw serialize_regrouped (
        parse-serialize fl (cons (two fl binary plus a (two fl binary star b c)) nil) (
          then_more
            (result (alone (joined plus refl (omega arith) x (joined star refl (omega arith) y z))))
            no_more))
