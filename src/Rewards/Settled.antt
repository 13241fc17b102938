-- ===== src/Rewards/Settled.antt =====
-- About whole settlements of wq_workflow/core/evolution/pending_reward_manager.py, and sequences of
-- them with registrations.
use worldquant_workflow_v2_r.Common.{
  [], ◌∷◌, Dict, String, lookup, ◌≡◌, Option, some, none, IsDict, same_key_refl, Bool-cases, ◌+◌,
  same_key, ◌∙◌, inl, same_key→eq, refl, inr, Option-cases, insert-IsDict, ◌||◌,
}
use worldquant_workflow_v2_r.Migration.Reals.{Reals}
use worldquant_workflow_v2_r.Rewards.State.{
  ManagerConfig, PendingReward, change_at, release_reward, cancel_reward, as_released, as_canceled,
}
use worldquant_workflow_v2_r.Rewards.Settlement.{
  Round, visit_all, Progress, visit, is_young, has_survived,
}
use worldquant_workflow_v2_r.Rewards.Once.{
  outcome, pending_count, visit-pending_count, lookup-visit,
}

module _ (rs : Reals) (pow_half : rs.R → rs.R) (c : ManagerConfig rs) where
  open rs use {R}

  change_at-IsDict :
      (k : String) (f : PendingReward R → PendingReward R) (rows : Dict (PendingReward R))
      → IsDict rows
      → IsDict (change_at k f rows)
  change_at-IsDict k f rows d = elim (Option-cases (lookup k rows)) [
    | inl e ↦ rw (e, change_at) d
    | inr (r, e) ↦ rw (e, change_at) (insert-IsDict k (f r) rows d)
  ]

  -- Every record still to visit is as it was loaded.
  abbrev pub Untouched : Dict (PendingReward R) → Dict (PendingReward R) → Type 0
  Untouched todo rows =
      (j : String) (r : PendingReward R) → lookup j todo ≡ some r → lookup j rows ≡ some r

  abbrev pub settled_from :
      Round rs pow_half
      → String
      → Option (PendingReward R)
      → Option (PendingReward R)
      → Option (PendingReward R)
  settled_from round j none kept = kept
  settled_from round j (some r) kept = some (outcome rs pow_half c round j r)

  module _ (round : Round rs pow_half) where
    Untouched-visit :
        (k : String) (r : PendingReward R) (todo : Dict (PendingReward R))
        (p : Progress rs pow_half)
        → lookup k todo ≡ none
        → Untouched ((k, r) ∷ todo) p.rows
        → Untouched todo (visit rs pow_half c round k r p).rows
    unfolding lookup
    Untouched-visit k r todo p new u j q e = elim (Bool-cases (same_key k j)) [
      | inl t ↦ absurd (cc (same_key→eq k j t))
      | inr t ↦
          rw (lookup-visit rs pow_half c round k j r p (u k r (rw (same_key_refl k) refl)), t)
            (u j q (rw t e))
    ]

    pub lookup-visit_all :
        (todo : Dict (PendingReward R)) (j : String) (p : Progress rs pow_half)
        → IsDict todo
        → Untouched todo p.rows
        → lookup j (visit_all rs pow_half c round todo p).rows
          ≡ settled_from round j (lookup j todo) (lookup j p.rows)
    unfolding visit_all lookup
    lookup-visit_all [] j p d u = refl
    lookup-visit_all ((k, r) ∷ todo) j p (new, d) u =
        let here : lookup k p.rows ≡ some r = u k r (rw (same_key_refl k) refl) in
        let rest =
          lookup-visit_all todo j (visit rs pow_half c round k r p) d
            (Untouched-visit k r todo p new u) in
        elim (Bool-cases (same_key k j)) [
          | inl t ↦
              let same = same_key→eq k j t in
              rest
              ∙ rw (← same, new, lookup-visit rs pow_half c round k k r p here, same_key_refl k)
                  refl
          | inr t ↦ rest ∙ rw (lookup-visit rs pow_half c round k j r p here, t) refl
        ]

    pub visit_all-pending_count :
        (todo : Dict (PendingReward R)) (p : Progress rs pow_half)
        → IsDict todo
        → Untouched todo p.rows
        → let q = visit_all rs pow_half c round todo p in
          pending_count rs pow_half c q.rows + q.released_count + q.canceled_count
          ≡ pending_count rs pow_half c p.rows + p.released_count + p.canceled_count
    unfolding visit_all lookup
    visit_all-pending_count [] p d u = refl
    visit_all-pending_count ((k, r) ∷ todo) p (new, d) u =
        visit_all-pending_count todo (visit rs pow_half c round k r p) d
          (Untouched-visit k r todo p new u)
        ∙ visit-pending_count rs pow_half c round k r p (u k r (rw (same_key_refl k) refl))

    visit-IsDict :
        (k : String) (r : PendingReward R) (p : Progress rs pow_half)
        → IsDict p.rows
        → IsDict (visit rs pow_half c round k r p).rows
    unfolding visit release_reward cancel_reward
    visit-IsDict k r p d = elim (Bool-cases (r.released || r.canceled)) [
      | inl a ↦ rw a d
      | inr a ↦ elim (Bool-cases (is_young rs pow_half c round r)) [
        | inl b ↦ rw (a, b) d
        | inr b ↦ elim (Bool-cases (has_survived rs pow_half c round k)) [
          | inl e ↦
              rw (a, b, e) (change_at-IsDict k (as_released round.current_generation) p.rows d)
          | inr e ↦
              rw (a, b, e) (change_at-IsDict k (as_canceled round.current_generation) p.rows d)
        ]
      ]
    ]

    pub visit_all-IsDict :
        (todo : Dict (PendingReward R)) (p : Progress rs pow_half)
        → IsDict p.rows
        → IsDict (visit_all rs pow_half c round todo p).rows
    unfolding visit_all
    visit_all-IsDict [] p d = d
    visit_all-IsDict ((k, r) ∷ todo) p d =
        visit_all-IsDict todo (visit rs pow_half c round k r p) (visit-IsDict k r p d)
