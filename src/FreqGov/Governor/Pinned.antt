-- ===== src/FreqGov/Governor/Pinned.antt =====
-- What `set_freq` does to the hardware: the write order is accepted, and a skipped write is one
-- that the policy already reflects.
use coresight_trace.Base.{
  ℕ, ◌≤◌, ◌<◌, ◌≡◌, ◌⊎◌, inl, inr, ◌++◌, ◌==◌, ◌∙◌, ==_iff, Bool-cases, arith,
}
use coresight_trace.FreqGov.Sysfs.{
  write_sysfs, scaling_min_freq, scaling_max_freq, scaling_setspeed, Cpufreq, replay, replay-append,
}
use coresight_trace.FreqGov.Governor.{Governor, pin_writes, set_freq}

module _ (c : Cpufreq) where
  open c use {
    Policy, min_of, max_of, speed_of, accept, min_accepted, max_accepted, speed_accepted,
    speed_keeps_bounds, governor_of, number_keeps_governor,
  }

  -- Both bounds and the speed are `f`.
  pub record Pinned (p : Policy) (f : ℕ) : Type 0 where
    pub low : min_of p ≡ f
    pub high : max_of p ≡ f
    pub speed : speed_of p ≡ f

  -- The hardware after all writes so far, from the policy `p₀`.
  abbrev pub hardware : Policy → Governor → Policy
  hardware p g = replay c p g.writes

  -- What the skip of a redundant write rests on: the last value, unless it is unknown, is where
  -- the policy is pinned; the policy's maximum is not below the system's minimum; and the governor
  -- is the one that takes a speed.
  pub record Coherent (p : Policy) (g : Governor) : Type 0 where
    pub reachable : g.system_min_cpufreq ≤ max_of (hardware p g)
    pub user : governor_of (hardware p g) ≡ "userspace"
    pub last : (g.last_set_freq ≡ 0) ⊎ Pinned (hardware p g) g.last_set_freq

  pin_writes-Pinned :
      (p : Policy) (lo target : ℕ)
      → lo ≤ max_of p
      → lo ≤ target
      → governor_of p ≡ "userspace"
      → Pinned (replay c p (pin_writes lo target)) target
  pin_writes-Pinned p lo target h k user =
      let p1 = accept p (write_sysfs scaling_min_freq lo) in
      let p2 = accept p1 (write_sysfs scaling_max_freq target) in
      let p3 = accept p2 (write_sysfs scaling_min_freq target) in
      let low = min_accepted p lo h in
      let high = max_accepted p1 target (omega arith) in
      let raised = min_accepted p2 target (omega arith) in
      let still : governor_of p3 ≡ governor_of p =
        number_keeps_governor p2 scaling_min_freq target
        ∙ number_keeps_governor p1 scaling_max_freq target
        ∙ number_keeps_governor p scaling_min_freq lo in
      let kept = speed_keeps_bounds p3 target in
      record {
        low = omega arith;
        high = omega arith;
        speed = speed_accepted p3 target (still ∙ user) (omega arith) (omega arith);
      }

  pin_writes_keep :
      (p : Policy) (lo target : ℕ) → governor_of (replay c p (pin_writes lo target)) ≡ governor_of p
  pin_writes_keep p lo target =
      let p1 = accept p (write_sysfs scaling_min_freq lo) in
      let p2 = accept p1 (write_sysfs scaling_max_freq target) in
      let p3 = accept p2 (write_sysfs scaling_min_freq target) in
      number_keeps_governor p3 scaling_setspeed target
      ∙ number_keeps_governor p2 scaling_min_freq target
      ∙ number_keeps_governor p1 scaling_max_freq target
      ∙ number_keeps_governor p scaling_min_freq lo

  after_pin :
      (p : Policy) (target : ℕ) (g : Governor)
      → Coherent p g
      → g.system_min_cpufreq ≤ target
      → Pinned (replay c p (g.writes ++ pin_writes g.system_min_cpufreq target)) target
        × (governor_of (replay c p (g.writes ++ pin_writes g.system_min_cpufreq target))
            ≡ "userspace")
  after_pin p target g co h =
      rw (replay-append c p g.writes (pin_writes g.system_min_cpufreq target)) (
        pin_writes-Pinned (hardware p g) g.system_min_cpufreq target co.reachable h co.user,
        pin_writes_keep (hardware p g) g.system_min_cpufreq target ∙ co.user,
      )

  -- `set_freq` leaves the policy pinned at the target, whether it writes or skips.
  pub set_freq-Pinned :
      (p : Policy) (target : ℕ) (g : Governor)
      → Coherent p g
      → g.system_min_cpufreq ≤ target
      → 0 < target
      → Pinned (hardware p (set_freq target g)) target × Coherent p (set_freq target g)
  unfolding set_freq
  set_freq-Pinned p target g co h k = elim (Bool-cases (target == g.last_set_freq)) [
    | inl same ↦ rw same (known ((==_iff target g.last_set_freq).0 same) co.last, co)
    | inr other ↦
        let (pinned, user) = after_pin p target g co h in
        rw other (
          pinned,
          record { reachable = omega (arith, pinned.high); user = user; last = inr pinned },
        )
  ]
    where
      known :
          target ≡ g.last_set_freq
          → (g.last_set_freq ≡ 0) ⊎ Pinned (hardware p g) g.last_set_freq
          → Pinned (hardware p g) target
      known e (inl unknown) = absurd (omega arith)
      known e (inr pinned) = rw e pinned
