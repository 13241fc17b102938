-- ===== src/Governance/Lifecycle.antt =====
-- wq_workflow/governance/lifecycle.py: the lifecycle of a model. A status is given as text, and the
-- empty text stands for `None`.
use worldquant_workflow_v2_r.Common.{
  List, Text, ℕ, Bool, Option, String, codes, find_text, ◌==◌, true, false, if◌then◌else◌, some, [],
  ◌∷◌, ◌&&◌, not, none,
}
use worldquant_workflow_v2_r.Migration.Reals.{Reals}

pub data ModelLifecycleStatus : Type 0 where
  candidate shadow challenger limited_active champion degraded : ModelLifecycleStatus
  disabled rolled_back expired : ModelLifecycleStatus

abbrev statuses : List (String × ModelLifecycleStatus)
statuses =
    ("candidate", candidate)
    ∷ ("shadow", shadow)
    ∷ ("challenger", challenger)
    ∷ ("limited_active", limited_active)
    ∷ ("champion", champion)
    ∷ ("degraded", degraded)
    ∷ ("disabled", disabled)
    ∷ ("rolled_back", rolled_back)
    ∷ ("expired", expired)
    ∷ []

-- `_status`
abbrev status_text : Text → Text
status_text [] = codes "shadow"
status_text (c ∷ s) = c ∷ s

unfoldable pub status_of : Text → Option ModelLifecycleStatus
status_of text = find_text (status_text text) statuses

abbrev tag : ModelLifecycleStatus → ℕ
tag candidate = 0
tag shadow = 1
tag challenger = 2
tag limited_active = 3
tag champion = 4
tag degraded = 5
tag disabled = 6
tag rolled_back = 7
tag expired = 8

abbrev same_status : ModelLifecycleStatus → ModelLifecycleStatus → Bool
same_status a b = tag a == tag b

abbrev pub is_terminal : ModelLifecycleStatus → Bool
is_terminal disabled = true
is_terminal rolled_back = true
is_terminal expired = true
is_terminal _ = false

abbrev pub is_terminal_option : Option ModelLifecycleStatus → Bool
is_terminal_option none = false
is_terminal_option (some s) = is_terminal s

-- `is_terminal_status`
unfoldable pub is_terminal_status : Text → Bool
is_terminal_status text = is_terminal_option (status_of text)

-- The tests of `can_transition` on statuses that exist
abbrev pub permits : ModelLifecycleStatus → ModelLifecycleStatus → Bool
permits a b =
    if same_status a b
    then true
    else if same_status a candidate && same_status b champion
    then false
    else not (is_terminal a && not (is_terminal b))

abbrev pub both_exist : Option ModelLifecycleStatus → Option ModelLifecycleStatus → Bool
both_exist (some a) (some b) = permits a b
both_exist _ _ = false

-- `can_transition`
unfoldable pub can_transition : Text → Text → Bool
can_transition current target = both_exist (status_of current) (status_of target)

-- `default_weight_for_status`, and the weight that `ModelLifecycleMetadata` ends up with: the given
-- one, or the default, and zero for a terminal status.
module _ (rs : Reals) where
  open rs use {R, lit}

  abbrev weight_of : Option ModelLifecycleStatus → R
  weight_of (some challenger) = lit 5 2
  weight_of (some limited_active) = lit 25 2
  weight_of (some champion) = lit 1 0
  weight_of (some degraded) = lit 5 2
  weight_of _ = lit 0 0

  unfoldable pub default_weight_for_status : Text → R
  default_weight_for_status text = weight_of (status_of text)

  abbrev weight_or_default : Text → Option R → R
  weight_or_default text none = default_weight_for_status text
  weight_or_default text (some w) = w

  -- `__post_init__`: the weight
  unfoldable pub model_weight : Text → Option R → R
  model_weight text given =
      if is_terminal_status text then lit 0 0 else weight_or_default text given

-- `is_hard_decision_allowed_status`
abbrev hard_decision : Option ModelLifecycleStatus → Bool
hard_decision (some limited_active) = true
hard_decision (some champion) = true
hard_decision _ = false

unfoldable pub is_hard_decision_allowed_status : Text → Bool
is_hard_decision_allowed_status text = hard_decision (status_of text)
