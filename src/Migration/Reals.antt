-- ===== src/Migration/Reals.antt =====
-- What the reward migration uses of Python's floats. There are no floats here: the type and its
-- operations are a parameter, and so are the few laws that the bounds rest on.
use worldquant_workflow_v2_r.Common.{ℕ, if◌then◌else◌, ◌≡◌, Bool, false, true}

pub record Reals : Type 1 where
  pub R : Type 0
  -- the literal `m / 10 ** d`
  pub lit : ℕ → ℕ → R
  pub add : R → R → R
  pub sub : R → R → R
  pub mul : R → R → R
  pub div : R → R → R
  -- `x < y`
  pub lt : R → R → Bool
  -- `round(x, 6)`
  pub round_six : R → R

module _ (rs : Reals) where
  open rs use {R, lt}

  -- `max(x, y)` and `min(x, y)`: the first of two that are equal
  abbrev pub max_of : R → R → R
  max_of x y = if lt x y then y else x

  abbrev pub min_of : R → R → R
  min_of x y = if lt y x then y else x

-- The order of the floats is strict, rounding keeps it, and the bounds of the clamp are in order and
-- are their own rounding.
pub record OrderLaws (rs : Reals) : Type 0 where
  pub irreflexive : (x : rs.R) → rs.lt x x ≡ false
  pub asymmetric : (x y : rs.R) → rs.lt x y ≡ true → rs.lt y x ≡ false
  pub round_monotone :
      (x y : rs.R) → rs.lt x y ≡ false → rs.lt (rs.round_six x) (rs.round_six y) ≡ false
  pub round_low : rs.round_six (rs.lit 15 2) ≡ rs.lit 15 2
  pub round_high : rs.round_six (rs.lit 85 2) ≡ rs.lit 85 2
  pub low_high : rs.lt (rs.lit 85 2) (rs.lit 15 2) ≡ false
