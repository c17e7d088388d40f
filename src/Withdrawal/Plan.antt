-- ===== src/Withdrawal/Plan.antt =====
-- The schedule that `Scheduler::plan` lays out.
use wyrtloom.Base.{
  ℕ, zero, suc, ◌+◌, ◌≤◌, ◌<◌, ◌≡◌, ◌⊎◌, inl, inr, refl, arith, List, [], ◌∷◌, ◌++◌, length, All,
  ap,
}
use wyrtloom.Kanban.{Timestamp}
use wyrtloom.Withdrawal.{
  ExpansionPolicy, Scheduler, SeedEvent, PlannedSession, Calendar, ok, saturating_add,
  interval_days, new, plan_seed, plan, add_days,
}
use wyrtloom.Withdrawal.Interval.{IsU32, interval_days_mono, interval_days-ge_base, new-IsAccepted}
use native.Mathlib.Nat.{mul-pos, le_refl}

module _ (c : Calendar) where
  -- Each session comes after the one before it, or at the latest instant that there is, and no
  -- interval is shorter than the one before it.
  abbrev pub Spaced : Timestamp → ℕ → List PlannedSession → Type 0
  Spaced t d [] = Unit
  Spaced t d (s ∷ ss) =
      ((t < s.scheduled_at) ⊎ (s.scheduled_at ≡ c.max_utc))
      × (s.scheduled_at ≤ c.max_utc)
      × (d ≤ s.interval_days)
      × Spaced s.scheduled_at s.interval_days ss

  add_days-le_max : (t d : ℕ) → add_days c t d ≤ c.max_utc
  add_days-le_max t d = rw (c.checked_add_lem t d, add_days) (ground arith)

  add_days-later :
      (t d : ℕ) → 0 < c.day → 0 < d → (t < add_days c t d) ⊎ (add_days c t d ≡ c.max_utc)
  add_days-later t d h k = rw (c.checked_add_lem t d, add_days) (ground (arith, mul-pos k h))

saturating_add_next :
    (a b : ℕ)
    → (saturating_add a (b + 1) ≡ saturating_add a b)
      ⊎ (saturating_add a (b + 1) ≡ suc (saturating_add a b))
unfolding saturating_add
saturating_add_next a b = ground arith

module _ (c : Calendar) (p : ExpansionPolicy) {s : Scheduler} (made : new p ≡ ok s)
    (r : IsU32 p) where
  interval_pos : (n : ℕ) → 0 < interval_days s.policy n
  interval_pos n =
      omega (arith, interval_days-ge_base p n made r, (new-IsAccepted p made).0.base_pos)

  -- The index saturates, so the next interval is this one or the one after it.
  interval_next :
      (prior step : ℕ)
      → interval_days s.policy (saturating_add prior step)
        ≤ interval_days s.policy (saturating_add prior (step + 1))
  interval_next prior step = elim (saturating_add_next prior step) [
    | inl same ↦ rw same (le_refl _)
    | inr more ↦ rw more (interval_days_mono p (saturating_add prior step) made r)
  ]

  plan_seed-Spaced :
      (seed : SeedEvent) (left step anchor d : ℕ)
      → 0 < c.day
      → d ≤ interval_days s.policy (saturating_add seed.prior_sessions step)
      → Spaced c anchor d (plan_seed c s seed step left anchor)
  unfolding plan_seed
  plan_seed-Spaced seed zero step anchor d day h = tt
  plan_seed-Spaced seed (suc left) step anchor d day h =
      let n = saturating_add seed.prior_sessions step in
      let days = interval_days s.policy n in
      (
        add_days-later c anchor days day (interval_pos n),
        add_days-le_max c anchor days,
        h,
        plan_seed-Spaced seed left (step + 1) (add_days c anchor days) days day
            (interval_next seed.prior_sessions step),
      )

plan_seed-length :
    (c : Calendar) (s : Scheduler) (seed : SeedEvent) (left step anchor : ℕ)
    → length (plan_seed c s seed step left anchor) ≡ left
unfolding plan_seed
plan_seed-length c s seed zero step anchor = refl
plan_seed-length c s seed (suc left) step anchor =
    ap suc (plan_seed-length c s seed left (step + 1) _)

-- The plan of several seeds, one block for each, in their order.
pub data Blocks (c : Calendar) (count : ℕ) : List SeedEvent → List PlannedSession → Type 0 where
  nil : Blocks c count [] []
  block :
      {seeds : List SeedEvent} {rest : List PlannedSession} (seed : SeedEvent)
      (ss : List PlannedSession)
      → length ss ≡ count
      → All (λ x. (x.actor ≡ seed.actor) × (x.task ≡ seed.task)) ss
      → Spaced c seed.last_practiced 0 ss
      → Blocks c count seeds rest
      → Blocks c count (seed ∷ seeds) (ss ++ rest)

plan_seed-owner :
    (c : Calendar) (s : Scheduler) (seed : SeedEvent) (left step anchor : ℕ)
    → All (λ x. (x.actor ≡ seed.actor) × (x.task ≡ seed.task)) (plan_seed c s seed step left anchor)
unfolding plan_seed
plan_seed-owner c s seed zero step anchor = tt
plan_seed-owner c s seed (suc left) step anchor =
    ((refl, refl), plan_seed-owner c s seed left (step + 1) _)

-- A scheduler that was built from a policy plans, for each seed in order, exactly `count` sessions
-- of its actor and task, each later than the one before it or at the latest instant, with
-- intervals that never shrink.
pub plan-Blocks :
    (c : Calendar) (p : ExpansionPolicy) {s : Scheduler} (seeds : List SeedEvent) (count : ℕ)
    → new p ≡ ok s
    → IsU32 p
    → 0 < c.day
    → Blocks c count seeds (plan c s seeds count)
unfolding plan
plan-Blocks c p [] count made r day = nil
plan-Blocks c p {s} (seed ∷ seeds) count made r day =
    block seed (plan_seed c s seed 0 count seed.last_practiced)
      (plan_seed-length c s seed count 0 seed.last_practiced)
      (plan_seed-owner c s seed count 0 seed.last_practiced)
      (plan_seed-Spaced c p made r seed count 0 seed.last_practiced 0 day (omega arith))
      (plan-Blocks c p seeds count made r day)
