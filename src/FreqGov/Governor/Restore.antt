-- ===== src/FreqGov/Governor/Restore.antt =====
-- The exit path: `freq_gov_restore_system` puts the policy back the way init found it.
use coresight_trace.Base.{
  ℕ, ◌≤◌, ◌<◌, ◌≡◌, refl, sym, ◌∙◌, Bool, true, false, not, List, [], ◌∷◌, ◌++◌, if◌then◌else◌,
  Bool-cases, inl, inr, arith,
}
use text.Mathlib.Text.{◌==◌ as str_eq}
use coresight_trace.FreqGov.Sysfs.{
  Write, write_sysfs, write_sysfs_str, scaling_min_freq, scaling_max_freq, scaling_setspeed,
  scaling_governor, Cpufreq, replay, replay-append,
}
use coresight_trace.FreqGov.Governor.{Governor, freq_gov_restore_system}
use native.Mathlib.Nat.{le_trans, le_of_eq}
use coresight_trace.FreqGov.Governor.Run.{Call, calls, calls_keep, calls-Good, init-Good}
use coresight_trace.FreqGov.Governor.Init.{
  Found, freq_gov_init, add_restore_op, is_set, saved_speed, restore_targets,
}
use coresight_trace.FreqGov.Governor.Pinned.{hardware}

-- The targets that do not move the bounds.
abbrev unbounded : Found → List Write
unbounded f =
    (if not (str_eq f.saved_governor "")
      then write_sysfs_str scaling_governor f.saved_governor ∷ []
      else [])
    ++ (if is_set (saved_speed f) then write_sysfs scaling_setspeed (saved_speed f) ∷ [] else [])

abbrev bounded : Found → List Write
bounded f =
    write_sysfs scaling_min_freq f.cpuinfo_min_freq
    ∷ write_sysfs scaling_max_freq f.saved_max
    ∷ write_sysfs scaling_min_freq f.saved_min
    ∷ []

is_set_pos : (n : ℕ) → 0 < n → is_set n ≡ true
is_set_pos n h = ground arith

-- The five slots hold every target.
restore_targets-eq :
    (f : Found)
    → 0 < f.cpuinfo_min_freq
    → 0 < f.saved_max
    → 0 < f.saved_min
    → restore_targets f ≡ bounded f ++ unbounded f
unfolding restore_targets add_restore_op
restore_targets-eq f lo hi mi =
    rw (is_set_pos f.cpuinfo_min_freq lo, is_set_pos f.saved_max hi, is_set_pos f.saved_min mi)
      (elim (Bool-cases (not (str_eq f.saved_governor ""))) [
        | inl named ↦ rw named (elim (Bool-cases (is_set (saved_speed f))) [
          | inl timed ↦ rw timed
          | inr untimed ↦ rw untimed
        ])
        | inr unnamed ↦ rw unnamed (elim (Bool-cases (is_set (saved_speed f))) [
          | inl timed ↦ rw timed
          | inr untimed ↦ rw untimed
        ])
      ])

module _ (c : Cpufreq) where
  open c use {
    Policy, min_of, max_of, accept, min_accepted, max_accepted, speed_keeps_bounds,
    governor_keeps_bounds,
  }

  unbounded_keeps :
      (p : Policy) (f : Found)
      → (min_of (replay c p (unbounded f)) ≡ min_of p)
        × (max_of (replay c p (unbounded f)) ≡ max_of p)
  unbounded_keeps p f =
      let g = write_sysfs_str scaling_governor f.saved_governor in
      let named = governor_keeps_bounds p f.saved_governor in
      let timed = speed_keeps_bounds p (saved_speed f) in
      let both = speed_keeps_bounds (accept p g) (saved_speed f) in
      elim (Bool-cases (not (str_eq f.saved_governor ""))) [
        | inl n ↦ rw n (elim (Bool-cases (is_set (saved_speed f))) [
          | inl t ↦ rw t (omega arith)
          | inr t ↦ rw t (omega arith)
        ])
        | inr n ↦ rw n (elim (Bool-cases (is_set (saved_speed f))) [
          | inl t ↦ rw t (omega arith)
          | inr t ↦ rw t (omega arith)
        ])
      ]

  bounded_restores :
      (p : Policy) (f : Found)
      → f.cpuinfo_min_freq ≤ max_of p
      → f.cpuinfo_min_freq ≤ f.saved_max
      → f.saved_min ≤ f.saved_max
      → (min_of (replay c p (bounded f)) ≡ f.saved_min)
        × (max_of (replay c p (bounded f)) ≡ f.saved_max)
  bounded_restores p f h k l =
      let p1 = accept p (write_sysfs scaling_min_freq f.cpuinfo_min_freq) in
      let p2 = accept p1 (write_sysfs scaling_max_freq f.saved_max) in
      let low = min_accepted p f.cpuinfo_min_freq h in
      let high = max_accepted p1 f.saved_max (omega arith) in
      let raised = min_accepted p2 f.saved_min (omega arith) in omega arith

  restored :
      (p : Policy) (f : Found) (g : Governor)
      → g.restore_ops ≡ restore_targets f
      → 0 < f.cpuinfo_min_freq
      → 0 < f.saved_min
      → f.cpuinfo_min_freq ≤ f.saved_max
      → f.saved_min ≤ f.saved_max
      → f.cpuinfo_min_freq ≤ max_of (hardware c p g)
      → (min_of (hardware c p (freq_gov_restore_system g)) ≡ f.saved_min)
        × (max_of (hardware c p (freq_gov_restore_system g)) ≡ f.saved_max)
  unfolding freq_gov_restore_system
  restored p f g ops lo mi h k room =
      let same = ops ∙ restore_targets-eq f lo (omega arith) mi in
      let moved = bounded_restores (hardware c p g) f room h k in
      let kept = unbounded_keeps (replay c (hardware c p g) (bounded f)) f in
      rw
        (
          replay-append c p g.writes g.restore_ops,
          same,
          replay-append c (hardware c p g) (bounded f) (unbounded f),
        )
        (kept.0 ∙ moved.0, kept.1 ∙ moved.1)

  -- After init and any calls, the exit path leaves the policy with the bounds that init found,
  -- whatever the governor has set since: if init could read the bounds, the hardware's are in
  -- order, and the saved ones are in order and not below the hardware minimum at their upper end.
  -- It also marks the hardware state as unknown, so that the next frequency is written.
  pub freq_gov_restore_system-bounds :
      (p : Policy) (f : Found) (addr_only : Bool) (ks : List Call)
      → 0 < f.cpuinfo_min_freq
      → f.cpuinfo_min_freq ≤ f.cpuinfo_max_freq
      → 0 < f.saved_min
      → f.cpuinfo_min_freq ≤ f.saved_max
      → f.saved_min ≤ f.saved_max
      → f.cpuinfo_min_freq ≤ max_of p
      → let g = freq_gov_restore_system (calls ks (freq_gov_init addr_only false f)) in
        (min_of (hardware c p g) ≡ f.saved_min)
        × (max_of (hardware c p g) ≡ f.saved_max)
        × (g.last_set_freq ≡ 0)
  unfolding freq_gov_init freq_gov_restore_system
  freq_gov_restore_system-bounds p f addr_only ks lo order mi h k room =
      let g = freq_gov_init addr_only false f in
      let kept = calls_keep ks g in
      let good = calls-Good c p ks (init-Good c p addr_only f lo order room) in
      let done =
        restored p f (calls ks g) kept.0 lo mi h k
          (le_trans (le_of_eq (sym kept.1)) good.coherent.reachable) in
      (done.0, done.1, refl)
