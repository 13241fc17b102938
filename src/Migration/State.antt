-- ===== src/Migration/State.antt =====
-- wq_workflow/reward_migration/migration_state.py: the states, the snapshot, the weights of a state.
-- Times are given from outside. A reason is a data type in place of its text.
use worldquant_workflow_v2_r.Common.{
  List, String, ℕ, Option, Bool, if◌then◌else◌, none, some, not, ◌+◌, true, false,
}
use worldquant_workflow_v2_r.Migration.Reals.{Reals, max_of, min_of}

pub data MigrationState : Type 0 where
  shadow early_hybrid mid_hybrid late_hybrid full_v2 rollback : MigrationState

pub data Reason : Type 0 where
  initial : Reason
  shadow_observation : Reason
  advanced : MigrationState → Reason
  rolled_back : List String → Reason
  retained : Reason
  manual : String → Reason

module _ (rs : Reals) where
  open rs use {R, lit, add, sub, div, lt, round_six}

  pub record Snapshot : Type 0 where
    pub state : MigrationState
    pub legacy_weight : R
    pub v2_weight : R
    pub rollback_count : ℕ
    pub takeover_progress : R
    pub last_transition_at : String
    pub reason : Reason
    pub healthy_streak : ℕ
    pub unstable_streak : ℕ
    pub sample_count : ℕ
    pub last_rollback_at : String

  abbrev zero_weight : R
  zero_weight = lit 0 0

  abbrev one_weight : R
  one_weight = lit 1 0

  -- The defaults of the dataclass
  abbrev pub new_snapshot : Snapshot
  new_snapshot = record {
    state = shadow;
    legacy_weight = lit 1 0;
    v2_weight = lit 0 0;
    rollback_count = 0;
    takeover_progress = lit 0 0;
    last_transition_at = "";
    reason = initial;
    healthy_streak = 0;
    unstable_streak = 0;
    sample_count = 0;
    last_rollback_at = "";
  }

  abbrev pub Weights : Type 0
  Weights = R × R

  abbrev pub clamp : R → R
  clamp x = max_of rs (lit 15 2) (min_of rs (lit 85 2) x)

  -- The division by the total, the clamp of the hybrid states and the rounding.
  abbrev pub share : MigrationState → R → R → Weights
  share rollback legacy v2 =
      (round_six (div legacy (add legacy v2)), round_six (div v2 (add legacy v2)))
  share _ legacy v2 =
      let clamped = clamp (div legacy (add legacy v2)) in
      (round_six clamped, round_six (sub (lit 1 0) clamped))

  -- The state that FULL_V2 is read as
  abbrev pub without_full : MigrationState → MigrationState
  without_full full_v2 = late_hybrid
  without_full s = s

  -- `default_weights_for_state`, up to its call of `normalize_weights`: the state and the weights of
  -- that call. `none` is SHADOW, whose weights are fixed.
  abbrev pub raw_defaults : MigrationState → R → R → Option (MigrationState × R × R)
  raw_defaults shadow legacy v2 = none
  raw_defaults early_hybrid legacy v2 =
      some (early_hybrid, max_of rs legacy (lit 9 1), max_of rs v2 (lit 1 1))
  raw_defaults mid_hybrid legacy v2 =
      some (mid_hybrid, min_of rs (max_of rs legacy (lit 45 2)) (lit 75 2), max_of rs v2 (lit 25 2))
  raw_defaults late_hybrid legacy v2 =
      some
        (late_hybrid, min_of rs (max_of rs legacy (lit 15 2)) (lit 45 2), max_of rs v2 (lit 55 2))
  raw_defaults full_v2 legacy v2 =
      some
        (late_hybrid, min_of rs (max_of rs legacy (lit 15 2)) (lit 45 2), max_of rs v2 (lit 55 2))
  raw_defaults rollback legacy v2 =
      some (rollback, max_of rs legacy (lit 9 1), min_of rs v2 (lit 1 1))

  abbrev pub positive_part : R → R
  positive_part x = max_of rs (lit 0 0) x

  -- `normalize_weights` of a state that is not SHADOW or FULL_V2, once its total is positive. The
  -- defaults that it takes for a total of zero are themselves normalized, with a positive total.
  abbrev pub of_total : MigrationState → R → R → Weights
  of_total s legacy v2 = share s (positive_part legacy) (positive_part v2)

  abbrev defaults_of : Option (MigrationState × R × R) → Weights
  defaults_of none = (lit 1 0, lit 0 0)
  defaults_of (some (s, legacy, v2)) = of_total s legacy v2

  -- `default_weights_for_state`
  unfoldable pub default_weights : MigrationState → R → R → Weights
  default_weights s legacy v2 = defaults_of (raw_defaults s legacy v2)

  -- `total <= 0`
  abbrev pub no_total : R → R → Bool
  no_total legacy v2 = not (lt (lit 0 0) (add (positive_part legacy) (positive_part v2)))

  abbrev pub or_defaults : MigrationState → R → R → Weights
  or_defaults s legacy v2 =
      if no_total legacy v2
      then (let (l, v) = default_weights s (lit 1 0) (lit 0 0) in share s l v)
      else of_total s legacy v2

  -- `normalize_weights`
  unfoldable pub normalize_weights : R → R → MigrationState → Weights
  unfolding default_weights
  normalize_weights legacy v2 shadow = (lit 1 0, lit 0 0)
  normalize_weights legacy v2 full_v2 = or_defaults late_hybrid legacy v2
  normalize_weights legacy v2 s = or_defaults s legacy v2

  -- `with_weights`
  unfoldable pub with_weights : R → R → Reason → Snapshot → Snapshot
  unfolding normalize_weights
  with_weights legacy v2 reason s =
      let (l, v) = normalize_weights legacy v2 s.state in
      record s { legacy_weight = l; v2_weight = v; takeover_progress = v; reason = reason }

  -- `transition`
  unfoldable pub transition : String → MigrationState → Reason → Snapshot → Snapshot
  unfolding default_weights
  transition now state reason s =
      let (l, v) = default_weights state s.legacy_weight s.v2_weight in
      record s {
        state = state;
        legacy_weight = l;
        v2_weight = v;
        takeover_progress = v;
        last_transition_at = now;
        reason = reason;
      }

  abbrev rolled_weight : Bool → R → R
  rolled_weight true v2 = lit 0 0
  rolled_weight false v2 = max_of rs (lit 0 0) (sub v2 (lit 25 2))

  -- `rollback_snapshot`
  unfoldable pub rollback_snapshot : String → Reason → Bool → Snapshot → Snapshot
  rollback_snapshot now reason severe s =
      let v = rolled_weight severe s.v2_weight in
      record s {
        state = rollback;
        legacy_weight = sub (lit 1 0) v;
        v2_weight = v;
        rollback_count = s.rollback_count + 1;
        takeover_progress = v;
        last_transition_at = now;
        reason = reason;
        healthy_streak = 0;
        unstable_streak = s.unstable_streak + 1;
        last_rollback_at = now;
      }

  -- `MigrationStateStore.load` of what `save` wrote: `from_dict` of `to_dict`. The counters are
  -- natural numbers, so their `max(0, …)` changes nothing.
  unfoldable pub reload : Snapshot → Snapshot
  unfolding normalize_weights
  reload s =
      let (l, v) = normalize_weights s.legacy_weight s.v2_weight (without_full s.state) in
      record s {
        state = without_full s.state;
        legacy_weight = l;
        v2_weight = v;
        takeover_progress = max_of rs (lit 0 0) (min_of rs (lit 1 0) s.takeover_progress);
      }
