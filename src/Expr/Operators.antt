-- ===== src/Expr/Operators.antt =====
-- wq_workflow/core/operators/operator_registry.py: the tables of operators and fields.
use worldquant_workflow_v2_r.Common.{
  ℕ, String, Bool, true, false, ◌&&◌, not, Option, none, some, List, [], ◌∷◌, Text, codes, lower,
  text_eq, find_text, if◌then◌else◌,
}

-- OPERATOR_ARITY: the least and the greatest number of arguments.
abbrev pub operator_arity : List (String × (ℕ × ℕ))
operator_arity =
    ("abs", (1, 1))
    ∷ ("bucket", (2, 2))
    ∷ ("densify", (1, 1))
    ∷ ("group_mean", (3, 3))
    ∷ ("group_neutralize", (2, 2))
    ∷ ("group_rank", (2, 2))
    ∷ ("group_zscore", (2, 2))
    ∷ ("hump", (1, 2))
    ∷ ("inverse", (1, 1))
    ∷ ("log", (1, 1))
    ∷ ("rank", (1, 1))
    ∷ ("scale", (1, 1))
    ∷ ("signed_power", (2, 2))
    ∷ ("sign", (1, 1))
    ∷ ("trade_when", (3, 3))
    ∷ ("ts_backfill", (2, 2))
    ∷ ("ts_corr", (3, 3))
    ∷ ("ts_count_nans", (2, 2))
    ∷ ("ts_decay_exp_window", (2, 3))
    ∷ ("ts_delta", (2, 2))
    ∷ ("ts_mean", (2, 2))
    ∷ ("ts_product", (2, 2))
    ∷ ("ts_rank", (2, 2))
    ∷ ("ts_scale", (2, 2))
    ∷ ("ts_std_dev", (2, 2))
    ∷ ("ts_sum", (2, 2))
    ∷ ("ts_zscore", (2, 2))
    ∷ ("vec_avg", (1, 1))
    ∷ ("vec_count", (1, 1))
    ∷ ("winsorize", (1, 2))
    ∷ []

abbrev pub safe_fields : List String
safe_fields =
    "cap" ∷ "close" ∷ "high" ∷ "industry" ∷ "low" ∷ "market" ∷ "open" ∷ "returns" ∷ "sector"
    ∷ "subindustry" ∷ "volume" ∷ "vwap" ∷ "adv20" ∷ "exchange" ∷ []

-- FIELD_CATEGORIES, with the sets of fields that it is built from written out.
pub data Category : Type 0 where
  price traded return fundamental group unknown : Category

abbrev pub field_categories : List (String × Category)
field_categories =
    ("close", price)
    ∷ ("open", price)
    ∷ ("high", price)
    ∷ ("low", price)
    ∷ ("vwap", price)
    ∷ ("volume", traded)
    ∷ ("adv20", traded)
    ∷ ("returns", return)
    ∷ ("cap", fundamental)
    ∷ ("industry", group)
    ∷ ("sector", group)
    ∷ ("subindustry", group)
    ∷ ("market", group)
    ∷ ("exchange", group)
    ∷ []

abbrev pub neutralization_operators : List String
neutralization_operators = "group_neutralize" ∷ "group_zscore" ∷ "group_rank" ∷ []

-- ILLEGAL_NESTING: an operator, the operator of a child, and why the two do not nest.
abbrev pub illegal_nesting : List (String × (String × String))
illegal_nesting =
    ("rank", ("rank", "redundant rank nesting"))
    ∷ ("group_neutralize", ("group_neutralize", "over-neutralized"))
    ∷ ("group_zscore", ("group_zscore", "over-standardized"))
    ∷ []

abbrev pub known_category : Option Category → Category
known_category none = unknown
known_category (some c) = c

pub field_category : Text → Category
field_category field = known_category (find_text (lower field) field_categories)

abbrev pub same_category : Category → Category → Bool
same_category price price = true
same_category traded traded = true
same_category return return = true
same_category fundamental fundamental = true
same_category group group = true
same_category unknown unknown = true
same_category _ _ = false

unfoldable pub semantic_safe_field_swap : Text → Text → Bool
semantic_safe_field_swap left right =
    not (same_category (field_category left) unknown)
    && same_category (field_category left) (field_category right)

-- `ILLEGAL_NESTING.get((outer, inner))`
unfoldable pub nesting_reason : List (String × (String × String)) → Text → Text → Option String
nesting_reason [] outer inner = none
nesting_reason ((o, (i, reason)) ∷ rest) outer inner =
    let later = nesting_reason rest outer inner in
    if text_eq outer (codes o) && text_eq inner (codes i) then some reason else later
