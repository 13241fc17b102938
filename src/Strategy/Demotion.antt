-- ===== src/Strategy/Demotion.antt =====
-- Changes of role in the table of strategies of wq_workflow/data/repositories.py.
use worldquant_workflow_v2_r.Common.{
  Text, List, Bool, ◌≡◌, All, any, ◌||◌, some, text_eq, true, arith, ◌∷◌, false, Bool-cases, ◌∙◌,
  ◌⊎◌, inl, leb, ap, inr, [], refl, keep_if, keep, ℕ, ◌&&◌, text_eq_refl, All-map, text_eq→eq,
  subst, not, of_some,
}
use worldquant_workflow_v2_r.Strategy.Table.{
  update, insert_recent, recent_first, Table, Row, get_strategy, has_id, plays, champion, is_active,
  list_by_role, update_role, deactivate_strategy, Role, set_inactive, same_role, set_role,
  previous_champion, challenger, update_row,
}
use worldquant_workflow_v2_r.Strategy.Rollback.{others, restore}
use worldquant_workflow_v2_r.Strategy.Promotion.{demote, crown}

-- Nobody but the strategy with this id is an active champion.
abbrev pub OnlyChampion : Text → Table → Type 0
OnlyChampion id t = All (λ r. plays champion r ≡ true → r.strategy_id ≡ id) t

-- The strategy that a read of this id returns is an active champion.
abbrev pub IsChampion : Text → Table → Type 0
IsChampion id t = (r : Row) × (get_strategy id t ≡ some r) × (plays champion r ≡ true)

-- The strategy that a read of this id returns is active.
abbrev pub IsActive : Text → Table → Type 0
IsActive id t = (r : Row) × (get_strategy id t ≡ some r) × (is_active r ≡ true)

abbrev listed : List Row → Row → Bool
listed rows r = any (λ q. text_eq r.strategy_id q.strategy_id) rows

-- Each active champion that is not the one with this id is among the rows.
abbrev Covered : Text → List Row → Table → Type 0
Covered id rows t =
    All (λ r. plays champion r ≡ true → (r.strategy_id ≡ id) ⊎ (listed rows r ≡ true)) t

update-All :
    (P Q : Row → Type 0) (id : Text) (change : Row → Row) (t : Table)
    → ((r : Row) → P r → has_id id r ≡ true → Q (change r))
    → ((r : Row) → P r → has_id id r ≡ false → Q r)
    → All P t
    → All Q (update id change t)
unfolding update
update-All P Q id change [] hit miss h = tt
update-All P Q id change (r ∷ rs) hit miss h = elim (Bool-cases (has_id id r)) [
  | inl e ↦ rw e (hit r h.0 e, update-All P Q id change rs hit miss h.1)
  | inr e ↦ rw e (miss r h.0 e, update-All P Q id change rs hit miss h.1)
]

or_swap : (a b c d : Bool) → d ≡ (b || c) → (a || d) ≡ (b || (a || c))
or_swap a b c d h = ground arith

any-insert_recent :
    (p : Row → Bool) (r : Row) (rs : List Row) → any p (insert_recent r rs) ≡ any p (r ∷ rs)
unfolding insert_recent
any-insert_recent p r [] = refl
any-insert_recent p r (q ∷ qs) = elim (Bool-cases (leb q.updated_at r.updated_at)) [
  | inl e ↦ rw e refl
  | inr e ↦ rw e (or_swap (p q) (p r) (any p qs) _ (any-insert_recent p r qs))
]

any-recent_first : (p : Row → Bool) (rs : List Row) → any p (recent_first rs) ≡ any p rs
unfolding recent_first
any-recent_first p [] = refl
any-recent_first p (r ∷ rs) =
    any-insert_recent p r (recent_first rs) ∙ ap (λ b. p r || b) (any-recent_first p rs)

listed-keep_if :
    (b : Bool) (x : Row) (rows : List Row) (r : Row)
    → listed rows r ≡ true
    → listed (keep_if b x rows) r ≡ true
listed-keep_if true x rows r h = ground (arith, h)
listed-keep_if false x rows r h = h

kept-listed : (b : Bool) (x : Row) (rows : List Row) → b ≡ true → listed (keep_if b x rows) x ≡ true
kept-listed true x rows h = rw (text_eq_refl x.strategy_id) refl
kept-listed false x rows h = cc

-- Who passes the test is among those that are kept.
keep-listed : (p : Row → Bool) (t : Table) → All (λ r. p r ≡ true → listed (keep p t) r ≡ true) t
keep-listed p [] = tt
keep-listed p (x ∷ xs) = (
  kept-listed (p x) x (keep p xs),
  All-map xs (λ r h e. listed-keep_if (p x) x (keep p xs) r (h e)) (keep-listed p xs),
)

list_by_role-Covered : (id : Text) (t : Table) → Covered id (list_by_role champion t) t
unfolding list_by_role
list_by_role-Covered id t =
    All-map t (λ r h e. inr (any-recent_first (λ q. text_eq r.strategy_id q.strategy_id) _ ∙ h e))
      (keep-listed (plays champion) t)

listed-others :
    (target : Text) (rows : List Row) (r : Row)
    → has_id target r ≡ false
    → listed rows r ≡ true
    → listed (others target rows) r ≡ true
listed-others target [] r n h = h
listed-others target (q ∷ qs) r n h = elim (Bool-cases (text_eq r.strategy_id q.strategy_id)) [
  | inl e ↦
      let same : r.strategy_id ≡ q.strategy_id = text_eq→eq r.strategy_id q.strategy_id e in
      let kept : has_id target q ≡ false = subst (λ i. text_eq i target ≡ false) same n in
      rw (kept, e) refl
  | inr e ↦
      listed-keep_if (not (has_id target q)) q (others target qs) r
        (listed-others target qs r n (rw e at h))
]

others-Covered :
    (target : Text) (t : Table) → Covered target (others target (list_by_role champion t)) t
others-Covered target t =
    All-map t
      (λ r h e. elim (h e) [
        | inl p ↦ inl p
        | inr l ↦ elim (Bool-cases (has_id target r)) [
          | inl q ↦ inl (text_eq→eq r.strategy_id target q)
          | inr q ↦ inr (listed-others target _ r q l)
        ]
      ])
      (list_by_role-Covered target t)

Covered-step :
    (id : Text) (now : ℕ) (role : Role) (q : Row) (rows : List Row) (t : Table)
    → same_role role champion ≡ false
    → Covered id (q ∷ rows) t
    → Covered id rows (update_role now q.strategy_id role t)
unfolding update_role
Covered-step id now role q rows t n =
    update-All _ _ q.strategy_id (set_role now role) t (λ r h e c. absurd (cc (rw n at c)))
      (λ r h e c. elim (h c) [ inl p ↦ inl p | inr l ↦ inr (rw e at l) ])

demote-OnlyChampion :
    (id : Text) (now : ℕ) (role : Role) (rows : List Row) (t : Table)
    → same_role role champion ≡ false
    → Covered id rows t
    → OnlyChampion id (demote now role rows t)
unfolding demote
demote-OnlyChampion id now role [] t n h =
    All-map t (λ r k c. elim (k c) [ inl p ↦ p | inr l ↦ absurd (cc l) ]) h
demote-OnlyChampion id now role (q ∷ rows) t n h =
    demote-OnlyChampion id now role rows _ n (Covered-step id now role q rows t n h)

update_role-OnlyChampion :
    (now : ℕ) (id : Text) (role : Role) (t : Table)
    → OnlyChampion id t
    → OnlyChampion id (update_role now id role t)
unfolding update_role
update_role-OnlyChampion now id role t =
    update-All _ _ id (set_role now role) t (λ r h e c. text_eq→eq r.strategy_id id e)
      (λ r h e c. h c)

pub crown-OnlyChampion : (now : ℕ) (id : Text) (t : Table) → OnlyChampion id (crown now id t)
crown-OnlyChampion now id t =
    update_role-OnlyChampion now id champion _
      (demote-OnlyChampion id now previous_champion _ t refl (list_by_role-Covered id t))

pub restore-OnlyChampion : (now : ℕ) (id : Text) (t : Table) → OnlyChampion id (restore now id t)
restore-OnlyChampion now id t =
    update_role-OnlyChampion now id champion _
      (demote-OnlyChampion id now challenger _ t refl (others-Covered id t))

and_false : (b : Bool) → (b && false) ≡ true → ⊥
and_false b h = ground arith

pub deactivate-OnlyChampion :
    (now : ℕ) (id other : Text) (t : Table)
    → OnlyChampion id t
    → OnlyChampion id (deactivate_strategy now other t)
unfolding deactivate_strategy text_eq
deactivate-OnlyChampion now id other t =
    update-All _ _ other (set_inactive now) t
      (λ r h e c. absurd (and_false (same_role r.role champion) c)) (λ r h e c. h c)

kept_id :
    (now : ℕ) (role : Role) (b : Bool) (r : Row)
    → (update_row (set_role now role) b r).strategy_id ≡ r.strategy_id
kept_id now role true r = refl
kept_id now role false r = refl

-- A read behind a change of role finds the same row, changed or not.
pub get_strategy-update_role :
    (now : ℕ) (id other : Text) (role : Role) (t : Table) {r : Row}
    → get_strategy id t ≡ some r
    → get_strategy id (update_role now other role t)
      ≡ some (update_row (set_role now role) (has_id other r) r)
unfolding get_strategy update_role update
get_strategy-update_role now id other role [] h = cc
get_strategy-update_role now id other role (x ∷ xs) {r} h = elim (Bool-cases (has_id id x)) [
  | inl e ↦
      let p : x ≡ r = of_some (rw e at h) in
      subst
        (λ y.
          get_strategy id (update_role now other role (x ∷ xs))
          ≡ some (update_row (set_role now role) (has_id other y) y))
        p (rw (kept_id now role (has_id other x) x, e) refl)
  | inr e ↦
      rw (kept_id now role (has_id other x) x, e)
        (get_strategy-update_role now id other role xs (rw e at h))
]

-- A row that a read returns has the id that was asked for.
pub get_strategy-has_id :
    (id : Text) (t : Table) {r : Row} → get_strategy id t ≡ some r → has_id id r ≡ true
unfolding get_strategy
get_strategy-has_id id [] h = cc
get_strategy-has_id id (x ∷ xs) h = elim (Bool-cases (has_id id x)) [
  | inl e ↦ subst (λ y. has_id id y ≡ true) (of_some (rw e at h)) e
  | inr e ↦ get_strategy-has_id id xs (rw e at h)
]

pub still_active :
    (now : ℕ) (role : Role) (b : Bool) (r : Row)
    → is_active r ≡ true
    → is_active (update_row (set_role now role) b r) ≡ true
still_active now role true r h = h
still_active now role false r h = h

pub crowned :
    (now : ℕ) (b : Bool) (r : Row)
    → b ≡ true
    → is_active r ≡ true
    → plays champion (update_row (set_role now champion) b r) ≡ true
crowned now true r e h = h
crowned now false r e h = cc
