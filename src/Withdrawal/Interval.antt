-- ===== src/Withdrawal/Interval.antt =====
-- The expanding-interval rule, under the policies that `WithdrawalScheduler::new` accepts.
use wyrtloom.Base.{ℕ, zero, suc, ◌+◌, ◌*◌, ◌/◌, ◌≤◌, ◌<◌, ◌≡◌, ◌⊎◌, arith, dec_lt, subst, inl, ◌-◌}
use native.Mathlib.Nat.{mul-le-mul, le_refl, le_of_lt}
use wyrtloom.Withdrawal.{
  ExpansionPolicy, Scheduler, ok, u32_max, u64_max, saturating_mul, interval_loop, interval_days,
  new,
}

-- What `Scheduler::new` accepts.
pub record IsAccepted (p : ExpansionPolicy) : Type 0 where
  pub base_pos : 0 < p.base_days
  pub factor_low : 100 < p.factor_percent
  pub cap_high : p.base_days ≤ p.cap_days
  pub grows : (p.base_days ≡ p.cap_days) ⊎ (p.base_days < p.base_days * p.factor_percent / 100)

-- The ranges that the source's `u32` fields give.
pub record IsU32 (p : ExpansionPolicy) : Type 0 where
  pub factor_fits : p.factor_percent ≤ u32_max
  pub cap_fits : p.cap_days ≤ u32_max

pub new-IsAccepted :
    (p : ExpansionPolicy) {s : Scheduler} → new p ≡ ok s → IsAccepted p × (s.policy ≡ p)
unfolding new
new-IsAccepted p h = (ground arith, ground arith)

mul_fits : (v f : ℕ) → v ≤ u32_max → f ≤ u32_max → v * f ≤ u64_max
mul_fits v f h k = omega (arith, mul-le-mul h k)

saturating_mul_exact : (v f : ℕ) → v ≤ u32_max → f ≤ u32_max → saturating_mul v f ≡ v * f
unfolding saturating_mul
saturating_mul_exact v f h k = ground (arith, mul_fits v f)

growth_shift : (b d g : ℕ) → 100 < g → b < b * g / 100 → b + d < (b + d) * g / 100
growth_shift b d g l h = omega (arith, mul-le-mul (le_refl d) (le_of_lt l))

growth : (b v g : ℕ) → b ≤ v → 100 < g → b < b * g / 100 → v < v * g / 100
growth b v g k l h =
    subst (λ t. t < t * g / 100) (let e : b + (v - b) ≡ v = omega arith in e)
      (growth_shift b (v - b) g l h)

module _ (p : ExpansionPolicy) (a : IsAccepted p) (r : IsU32 p) where
  abbrev next : ℕ → ℕ
  next v = saturating_mul v p.factor_percent / 100

  next_exact : (v : ℕ) → v ≤ p.cap_days → next v ≡ v * p.factor_percent / 100
  next_exact v h =
      rw (saturating_mul_exact v p.factor_percent (omega (arith, r.cap_fits)) r.factor_fits)

  base_grows : p.base_days < p.cap_days → p.base_days < p.base_days * p.factor_percent / 100
  base_grows h = omega (arith, a.grows)

  next_grows : (v : ℕ) → p.base_days ≤ v → v < p.cap_days → v < next v
  next_grows v h k =
      rw (next_exact v (omega arith))
        (growth p.base_days v p.factor_percent h a.factor_low (base_grows (omega arith)))

  loop-le_cap : (n v : ℕ) → interval_loop p n v ≤ p.cap_days
  unfolding interval_loop
  loop-le_cap zero v = ground (arith, r.cap_fits)
  loop-le_cap (suc n) v = ground (arith, loop-le_cap n (next v))

  -- Once the value is at the cap, the loop returns the cap.
  loop-cap : (n v : ℕ) → p.cap_days ≤ v → v ≤ p.cap_days → interval_loop p n v ≡ p.cap_days
  unfolding interval_loop
  loop-cap zero v h k = ground (arith, r.cap_fits)
  loop-cap (suc n) v h k =
      ground (arith, next_exact v k, mul-le-mul (le_refl v) (le_of_lt a.factor_low))

  loop_reaches :
      (n v : ℕ)
      → p.base_days ≤ v
      → v ≤ p.cap_days
      → p.cap_days ≤ v + n
      → interval_loop p n v ≡ p.cap_days
  unfolding interval_loop
  loop_reaches zero v h k m = loop-cap zero v (omega arith) k
  loop_reaches (suc n) v h k m = elim (dec_lt v p.cap_days) [
    | no full ↦ loop-cap (suc n) v (omega arith) k
    | yes below ↦ ground (arith, next_grows v h below, loop_reaches n (next v))
  ]

  loop-ge_base : (n v : ℕ) → p.base_days ≤ v → v ≤ p.cap_days → p.base_days ≤ interval_loop p n v
  unfolding interval_loop
  loop-ge_base zero v h k = ground (arith, r.cap_fits)
  loop-ge_base (suc n) v h k = elim (dec_lt v p.cap_days) [
    | no full ↦ rw (loop-cap (suc n) v (omega arith) k) a.cap_high
    | yes below ↦ ground (arith, next_grows v h below, loop-ge_base n (next v), a.cap_high)
  ]

  -- One more session: the cap, or a longer interval.
  loop_expands :
      (n v : ℕ)
      → p.base_days ≤ v
      → v ≤ p.cap_days
      → (interval_loop p (suc n) v ≡ p.cap_days) ⊎ (interval_loop p n v < interval_loop p (suc n) v)
  unfolding interval_loop
  loop_expands zero v h k = elim (dec_lt v p.cap_days) [
    | no full ↦ inl (loop-cap 1 v (omega arith) k)
    | yes below ↦ ground (arith, next_grows v h below, r.cap_fits)
  ]
  loop_expands (suc n) v h k = elim (dec_lt v p.cap_days) [
    | no full ↦ inl (loop-cap (suc (suc n)) v (omega arith) k)
    | yes below ↦ ground (arith, next_grows v h below, loop_expands n (next v))
  ]

-- An accepted policy's intervals never pass the cap; each is longer than the one before it, or is
-- the cap; and from session `cap_days - base_days` on they are the cap.
pub interval_days_expands :
    (p : ExpansionPolicy) {s : Scheduler} (n : ℕ)
    → new p ≡ ok s
    → IsU32 p
    → (interval_days s.policy n ≤ p.cap_days)
      × ((interval_days s.policy (suc n) ≡ p.cap_days)
          ⊎ (interval_days s.policy n < interval_days s.policy (suc n)))
      × (p.cap_days ≤ p.base_days + n → interval_days s.policy n ≡ p.cap_days)
unfolding interval_days
interval_days_expands p {s} n h r =
    let (a, e) = new-IsAccepted p h in
    rw e (
      loop-le_cap p a r n p.base_days,
      loop_expands p a r n p.base_days (le_refl p.base_days) a.cap_high,
      loop_reaches p a r n p.base_days (le_refl p.base_days) a.cap_high,
    )

-- No interval of an accepted policy is shorter than the one before it.
pub interval_days_mono :
    (p : ExpansionPolicy) {s : Scheduler} (n : ℕ)
    → new p ≡ ok s
    → IsU32 p
    → interval_days s.policy n ≤ interval_days s.policy (suc n)
interval_days_mono p {s} n h r = omega (arith, interval_days_expands p n h r)

pub interval_days-ge_base :
    (p : ExpansionPolicy) {s : Scheduler} (n : ℕ)
    → new p ≡ ok s
    → IsU32 p
    → p.base_days ≤ interval_days s.policy n
unfolding interval_days
interval_days-ge_base p {s} n h r =
    let (a, e) = new-IsAccepted p h in
    rw e (loop-ge_base p a r n p.base_days (le_refl p.base_days) a.cap_high)
