-- ===== src/Expr/Floats.antt =====
-- What the expression engine uses of Python's `float`. There are no floats here: the type and its
-- operations are a parameter. The literals of the language have no sign, and a long one is infinite.
use worldquant_workflow_v2_r.Common.{ℕ, Bool, Option, Text}

pub record Floats : Type 1 where
  pub Float : Type 0
  -- `float(text)`; `none` is its ValueError.
  pub of_text : Text → Option Float
  -- `int(value)` where `value.is_integer()`
  pub whole_part : Float → Option ℕ
  -- `int(value)`; `none` is its OverflowError or ValueError.
  pub truncate : Float → Option ℕ
  -- `str(value)`
  pub repr : Float → Text
  -- `value == 0.0`, which is `not value`
  pub is_zero : Float → Bool
