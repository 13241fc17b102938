-- ===== src/Strategy/Transition.antt =====
-- `StrategyTransitionRules` of wq_workflow/strategy/transition_rules.py. A score is what
-- `StrategyScore.from_dict` returns; the configuration's attributes are given, with the `or` that
-- replaces an empty one.
use worldquant_workflow_v2_r.Common.{
  Text, ℕ, List, Bool, Option, if◌then◌else◌, true, ◌∷◌, suc, some, lower, String, text_eq, ◌&&◌,
  leb, find_text, ◌||◌, false, length, codes, [], mem_text, any, max, not, ◌-◌, zero, none, ◌++◌,
  drop,
}
use worldquant_workflow_v2_r.Expr.Printer.{strip}

pub data StrategyState : Type 0 where
  disabled shadow challenger limited_active champion : StrategyState

pub data Recommendation : Type 0 where
  keep_baseline blocked_by_governance demote_to_shadow risk_limited : Recommendation
  keep_shadow insufficient_evidence future_candidate_for_champion : Recommendation
  recommend_limited_active promote_to_challenger observe_more : Recommendation

pub record Score : Type 0 where
  pub strategy_id : Text
  pub strategy_type : Text
  pub sample_count : ℕ
  pub confidence : Text
  pub risk_level : Text
  pub reason_codes : List Text
  pub risk_flags : List Text
  pub governance_status : Text
  pub governance_decision : Text

pub record RulesConfig : Type 0 where
  pub default_champion : Text
  pub allow_auto_champion_promotion : Bool
  pub challenger_min_samples : ℕ
  pub challenger_min_confidence : Text
  pub limited_active_min_samples : ℕ
  pub limited_active_min_confidence : Text
  pub block_high_sc_risk : Bool

pub record Transition : Type 0 where
  pub strategy_id : Text
  pub from_state : StrategyState
  pub to_state : StrategyState
  pub recommendation : Recommendation
  pub allowed : Bool
  pub auto_apply_allowed : Bool
  pub confidence : Text
  pub reason_codes : List Text
  pub risk_flags : List Text

-- `value or default`
abbrev text_or : Text → Text → Text
text_or default [] = default
text_or default (c ∷ s) = c ∷ s

abbrev pub count_or : ℕ → ℕ → ℕ
count_or default zero = default
count_or default (suc n) = suc n

abbrev or_else : ℕ → Option ℕ → ℕ
or_else default none = default
or_else default (some n) = n

-- `str(flag).strip().lower()`
abbrev clean_flag : Text → Text
clean_flag s = lower (strip s)

-- `_CONFIDENCE_ORDER`
abbrev confidence_order : List (String × ℕ)
confidence_order = ("insufficient", 0) ∷ ("low", 1) ∷ ("medium", 2) ∷ ("high", 3) ∷ []

-- `_BLOCKED_GOVERNANCE`, `_HIGH_SC_FLAGS`
abbrev blocked_governance : List String
blocked_governance = "blocked" ∷ "block" ∷ "veto" ∷ "vetoed" ∷ "disabled" ∷ "deny" ∷ "denied" ∷ []

abbrev high_sc_flags : List String
high_sc_flags = "high_sc_risk" ∷ "high_risk_estimate" ∷ []

abbrev pub is_default_champion : RulesConfig → Text → Bool
is_default_champion c id = text_eq id (text_or (codes "legacy_baseline") c.default_champion)

unfoldable pub is_blocked : Score → Bool
is_blocked s =
    text_eq s.risk_level (codes "blocked")
    || (mem_text (clean_flag (text_or s.governance_decision s.governance_status)) blocked_governance
        || (any (λ f. mem_text (clean_flag f) blocked_governance) s.risk_flags
            || any (λ f. mem_text (clean_flag f) blocked_governance) s.reason_codes))

unfoldable pub has_high_sc_risk : RulesConfig → Score → Bool
has_high_sc_risk c s =
    c.block_high_sc_risk && any (λ f. mem_text (clean_flag f) high_sc_flags) s.risk_flags

abbrev confidence_at_least : Text → ℕ → Text → Bool
confidence_at_least least default have =
    leb (or_else default (find_text least confidence_order))
      (or_else 0 (find_text have confidence_order))

unfoldable pub has_sufficient_evidence : RulesConfig → Score → Bool
has_sufficient_evidence c s =
    leb (max 1 (count_or 100 c.challenger_min_samples)) s.sample_count
    && not (mem_text s.confidence ("insufficient" ∷ "low" ∷ []))

unfoldable pub can_promote_to_challenger : RulesConfig → Score → Bool
can_promote_to_challenger c s =
    has_sufficient_evidence c s
    && (confidence_at_least (text_or (codes "medium") c.challenger_min_confidence) 2 s.confidence
        && (mem_text s.risk_level ("low" ∷ "medium" ∷ []) && not (is_blocked s)))

unfoldable pub can_recommend_limited_active : RulesConfig → Score → Bool
can_recommend_limited_active c s =
    leb (max 1 (count_or 500 c.limited_active_min_samples)) s.sample_count
    && (confidence_at_least (text_or (codes "high") c.limited_active_min_confidence) 3 s.confidence
        && (text_eq s.risk_level (codes "low")
            && (not (has_high_sc_risk c s) && not (is_blocked s))))

-- `normalize_state`
abbrev state_names : List (String × StrategyState)
state_names =
    ("disabled", disabled)
    ∷ ("shadow", shadow)
    ∷ ("challenger", challenger)
    ∷ ("limited_active", limited_active)
    ∷ ("champion", champion)
    ∷ []

abbrev or_shadow : Option StrategyState → StrategyState
or_shadow none = shadow
or_shadow (some state) = state

unfoldable pub normalize_state : Text → StrategyState
normalize_state text = or_shadow (find_text (clean_flag text) state_names)

-- `default_state_for_strategy`
unfoldable pub default_state_for_strategy : RulesConfig → Score → StrategyState
default_state_for_strategy c s =
    if is_default_champion c s.strategy_id || text_eq s.strategy_type (codes "legacy_baseline")
    then champion
    else shadow

abbrev pub state_from : RulesConfig → Score → Text → StrategyState
state_from c s [] = default_state_for_strategy c s
state_from c s (d ∷ current) = normalize_state (d ∷ current)

-- The branches of `recommend_state`
pub data Branch : Type 0 where
  baseline governed risky exploring unproven limited challenging observing : Branch

unfoldable pub branch_of : RulesConfig → Score → Branch
branch_of c s =
    if is_default_champion c s.strategy_id
    then baseline
    else if is_blocked s
    then governed
    else if text_eq s.risk_level (codes "high")
    then risky
    else if text_eq s.strategy_id (codes "random_exploration")
    then exploring
    else if not (has_sufficient_evidence c s)
    then unproven
    else if can_recommend_limited_active c s
    then limited
    else if can_promote_to_challenger c s
    then challenging
    else observing

abbrev is_active_state : StrategyState → Bool
is_active_state challenger = true
is_active_state limited_active = true
is_active_state _ = false

abbrev is_limited : StrategyState → Bool
is_limited limited_active = true
is_limited _ = false

-- `list(dict.fromkeys(texts))`
unfoldable pub unique : List Text → List Text → List Text
unique seen [] = []
unique seen (t ∷ ts) =
    let repeated = unique seen ts in
    let fresh = t ∷ unique (t ∷ seen) ts in if any (text_eq t) seen then repeated else fresh

-- `texts[-100:]`
abbrev last_hundred : List Text → List Text
last_hundred ts = drop (length ts - 100) ts

-- The transition that a branch sets, with the code it appends
abbrev propose : Score → StrategyState → StrategyState → Recommendation → Bool → Text → Transition
propose s from to recommendation allowed code = record {
  strategy_id = s.strategy_id;
  from_state = from;
  to_state = to;
  recommendation = recommendation;
  allowed = allowed;
  auto_apply_allowed = false;
  confidence = s.confidence;
  reason_codes = unique [] s.reason_codes ++ code ∷ [];
  risk_flags = last_hundred (unique [] s.risk_flags);
}

abbrev pub proposal : RulesConfig → Score → StrategyState → Branch → Transition
proposal c s from baseline =
    propose s champion champion keep_baseline true (codes "default_champion_legacy_baseline")
proposal c s from governed =
    propose s from disabled blocked_by_governance false (codes "blocked_by_governance")
proposal c s from risky =
    propose s from shadow (if is_active_state from then demote_to_shadow else risk_limited) true
      (codes "risk_level_high")
proposal c s from exploring =
    propose s from shadow keep_shadow true (codes "random_exploration_observe_only")
proposal c s from unproven =
    propose s from shadow insufficient_evidence true (codes "insufficient_evidence")
proposal c s from limited =
    let future = is_limited from && not c.allow_auto_champion_promotion in
    propose s from limited_active
      (if future then future_candidate_for_champion else recommend_limited_active) true
      (if future
        then codes "champion_promotion_requires_future_phase"
        else codes "limited_active_candidate")
proposal c s from challenging =
    propose s from challenger promote_to_challenger true (codes "challenger_candidate")
proposal c s from observing =
    propose s from shadow
      (if text_eq s.confidence (codes "low") then observe_more else insufficient_evidence) true
      (codes "observe_more")

-- The last guard: a champion that is not the default one becomes limited.
abbrev pub is_champion : StrategyState → Bool
is_champion champion = true
is_champion _ = false

abbrev pub guard : RulesConfig → Transition → Transition
guard c t =
    if is_champion t.to_state && not (is_default_champion c t.strategy_id)
    then record t {
      to_state = limited_active;
      recommendation = future_candidate_for_champion;
      reason_codes = t.reason_codes ++ codes "auto_champion_promotion_blocked" ∷ [];
    }
    else t

-- `recommend_state`
unfoldable pub recommend_state : RulesConfig → Score → Text → Transition
unfolding branch_of
recommend_state c s current =
    let t = guard c (proposal c s (state_from c s current) (branch_of c s)) in
    record t { reason_codes = last_hundred (unique [] t.reason_codes) }
