-- ===== src/Expr/Mutator/Windows.antt =====
-- About `_nearby_windows` of wq_workflow/core/structural_mutator.py.
use worldquant_workflow_v2_r.Common.{
  List, ℕ, All, ◌≤◌, ◌≢◌, ◌≡◌, keep, Option-cases, ◌∷◌, some, not, [], Bool-cases, ◌==◌, inl, subst,
  inr, arith, of_some, All-map, All-append, max, ◌/◌, ◌+◌, ◌*◌,
}
use worldquant_workflow_v2_r.Expr.Mutator.{around, nearby_windows, head_of, canonical}

head_of-All : (ws : List ℕ) → All (λ w. 2 ≤ w) ws → All (λ w. 2 ≤ w) (head_of ws)
head_of-All [] h = tt
head_of-All (w ∷ ws) h = (h.0, tt)

around-All :
    (value : ℕ) (before ws : List ℕ) {found : List ℕ}
    → All (λ w. 2 ≤ w) before
    → All (λ w. 2 ≤ w) ws
    → around value before ws ≡ some found
    → All (λ w. 2 ≤ w) found
unfolding around
around-All value before [] h k e = cc
around-All value before (w ∷ ws) h k e = elim (Bool-cases (w == value)) [
  | inl t ↦
      subst (All (λ w. 2 ≤ w)) (of_some (rw t at e))
        (All-append _ before (w ∷ head_of ws) h (k.0, head_of-All ws k.1))
  | inr f ↦ around-All value (w ∷ []) ws (k.0, tt) k.1 (rw f at e)
]

-- Filtering out `value` leaves what differs from it.
keep-Other :
    (value : ℕ) (ws : List ℕ)
    → All (λ w. w ≢ value → 2 ≤ w) ws
    → All (λ w. (2 ≤ w) × (w ≢ value)) (keep (λ w. not (w == value)) ws)
keep-Other value [] h = tt
keep-Other value (w ∷ ws) h = elim (Bool-cases (w == value)) [
  | inl same ↦ rw same (keep-Other value ws h.1)
  | inr other ↦
      let differs : w ≢ value = ground arith in
      rw other ((h.0 differs, differs), keep-Other value ws h.1)
]

-- Whatever the window, the proposals differ from it, and none is below 2.
pub nearby_windows_bounds : (value : ℕ) → All (λ w. (2 ≤ w) × (w ≢ value)) (nearby_windows value)
unfolding nearby_windows
nearby_windows_bounds value = elim (Option-cases (around value [] canonical)) [
  | inl e ↦ rw e (
      keep-Other value (max 2 (value / 2) ∷ (value + 5) ∷ (value * 2) ∷ [])
        ((λ _. omega arith), ((λ _. omega arith), ((λ n. omega arith), tt))))
  | inr (ws, e) ↦ rw e (
      keep-Other value ws
        (All-map ws (λ w h _. h) (around-All value [] canonical tt (omega arith) e)))
]
