-- ===== src/Strategy/Table.antt =====
-- `StrategyRepository` of wq_workflow/data/repositories.py: the table of the strategies, a list of
-- its rows. Times are numbers, given from outside; of a row's payload nothing is read.
use worldquant_workflow_v2_r.Common.{
  Text, Bool, List, Option, ℕ, true, text_eq, some, none, ◌∷◌, ◌&&◌, keep, codes, false,
  if◌then◌else◌, [], leb,
}

pub data Role : Type 0 where
  champion previous_champion challenger baseline : Role
  other_role : Text → Role

-- `role == "…"`
abbrev pub same_role : Role → Role → Bool
same_role champion champion = true
same_role previous_champion previous_champion = true
same_role challenger challenger = true
same_role baseline baseline = true
same_role (other_role a) (other_role b) = text_eq a b
same_role _ _ = false

pub record Row : Type 0 where
  pub strategy_id : Text
  pub role : Role
  pub task_name : Text
  pub model_version : Text
  pub status : Text
  pub updated_at : ℕ

abbrev pub Table : Type 0
Table = List Row

abbrev pub is_active : Row → Bool
is_active r = text_eq r.status (codes "active")

-- `WHERE strategy_id=?`
abbrev pub has_id : Text → Row → Bool
has_id id r = text_eq r.strategy_id id

abbrev pub first_row : Option Row → Bool → Row → Option Row
first_row later true r = some r
first_row later false r = later

unfoldable pub get_strategy : Text → Table → Option Row
get_strategy id [] = none
get_strategy id (r ∷ rs) = first_row (get_strategy id rs) (has_id id r) r

-- `ORDER BY updated_at DESC`
unfoldable pub insert_recent : Row → List Row → List Row
insert_recent r [] = r ∷ []
insert_recent r (q ∷ qs) =
    let behind = q ∷ insert_recent r qs in
    if leb q.updated_at r.updated_at then r ∷ q ∷ qs else behind

unfoldable pub recent_first : List Row → List Row
unfolding insert_recent
recent_first [] = []
recent_first (r ∷ rs) = insert_recent r (recent_first rs)

-- `WHERE role=? AND status='active'`
abbrev pub plays : Role → Row → Bool
plays role r = same_role r.role role && is_active r

unfoldable pub list_by_role : Role → Table → List Row
unfolding recent_first
list_by_role role t = recent_first (keep (plays role) t)

-- The row that an `UPDATE … WHERE strategy_id=?` leaves
abbrev pub update_row : (Row → Row) → Bool → Row → Row
update_row change true r = change r
update_row change false r = r

unfoldable pub update : Text → (Row → Row) → Table → Table
update id change [] = []
update id change (r ∷ rs) = update_row change (has_id id r) r ∷ update id change rs

abbrev pub set_role : ℕ → Role → Row → Row
set_role now role r = record r { role = role; updated_at = now }

abbrev pub set_inactive : ℕ → Row → Row
set_inactive now r = record r { status = codes "inactive"; updated_at = now }

unfoldable pub update_role : ℕ → Text → Role → Table → Table
unfolding update
update_role now id role t = update id (set_role now role) t

unfoldable pub deactivate_strategy : ℕ → Text → Table → Table
unfolding update
deactivate_strategy now id t = update id (set_inactive now) t
