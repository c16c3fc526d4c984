-- ===== src/FreqGov/Governor/Run.antt =====
-- Any sequence of the governor's calls after `freq_gov_init`, and where it leaves the hardware.
use coresight_trace.Base.{
  ℕ, suc, ◌≤◌, ◌<◌, refl, ◌≡◌, ◌∙◌, inl, inr, Bool, false, List, [], ◌∷◌, All-get_or, get_or,
  Bool-cases, arith,
}
use native.Mathlib.Nat.{le_trans}
use coresight_trace.FreqGov.Sysfs.{Cpufreq}
use coresight_trace.FreqGov.Governor.{
  FreqMode, atom, addr, Governor, stats, freq_table_num, set_freq, freq_gov_apply,
  freq_gov_restore_max, freq_gov_force_min, adapt_interval, freq_gov_on_result, freq_gov_copy_start,
  adapt_interval,
}
use coresight_trace.FreqGov.Governor.Valid.{
  IsValid, set_freq-IsValid, freq_gov_on_result-IsValid, freq_gov_copy_start-IsValid,
}
use coresight_trace.FreqGov.Governor.Init.{Found, freq_gov_init, freq_gov_init-IsValid}
use coresight_trace.FreqGov.Governor.Pinned.{Pinned, hardware, Coherent, set_freq-Pinned}
use coresight_trace.FreqGov.Governor.Frames.{
  Fixed, Frame, set_freq-Fixed, on_result-Frame, copy_start-Frame, Frame-Fixed, init-Fixed, wanted,
  apply_forced, apply_live, restore_max_on, forget-Frame, force_min-Frame, forget-IsValid,
  force_min-IsValid, set_cur_idx-Frame, set_cur_idx-IsValid, freq_table_num-set_freq,
  freq_table_num-set_cur_idx, freq_table_num-restore_max,
}
use coresight_trace.FreqGov.Governor.Ramp.{Shot, script, scripted, set_cur_idx, freq_gov_calibrate}
use coresight_trace.FreqGov.Governor.Kept.{freq_gov_calibrate-preserves}

-- A call of the governor by the proxy.
pub data Call : Type 0 where
  apply : FreqMode → Call
  restore_max : Call
  force_min : Call
  on_result : FreqMode → Bool → Call
  copy_start : FreqMode → FreqMode → Call
  calibrate : FreqMode → List Shot → Call

unfoldable pub call : Call → Governor → Governor
call (apply mode) g = freq_gov_apply mode g
call restore_max g = freq_gov_restore_max g
call force_min g = freq_gov_force_min g
call (on_result mode overflowed) g = freq_gov_on_result mode overflowed g
call (copy_start dst src) g = freq_gov_copy_start dst src g
call (calibrate mode os) g = (freq_gov_calibrate scripted mode g (script os [])).1

unfoldable pub calls : List Call → Governor → Governor
calls [] g = g
calls (k ∷ ks) g = calls ks (call k g)

-- What no call touches.
record Keeps (g h : Governor) : Type 0 where
  ops : h.restore_ops ≡ g.restore_ops
  low : h.system_min_cpufreq ≡ g.system_min_cpufreq

set_freq-Keeps : (g h : Governor) (f : ℕ) → Keeps g h → Keeps g (set_freq f h)
unfolding set_freq
set_freq-Keeps g h f k = ground arith

set_cur_idx-Keeps :
    (mode : FreqMode) (i : ℕ) (g h : Governor) → Keeps g h → Keeps g (set_cur_idx mode i h)
set_cur_idx-Keeps atom i g h k = record { ops = k.ops; low = k.low }
set_cur_idx-Keeps addr i g h k = record { ops = k.ops; low = k.low }

restore_max-Keeps : (g h : Governor) → Keeps g h → Keeps g (freq_gov_restore_max h)
unfolding freq_gov_restore_max set_freq
restore_max-Keeps g h k = ground arith

call-Keeps : (k : Call) (g : Governor) → Keeps g (call k g)
unfolding call freq_gov_apply freq_gov_restore_max freq_gov_force_min freq_gov_on_result
    freq_gov_copy_start set_freq adapt_interval
call-Keeps (apply mode) g = ground arith
call-Keeps (on_result atom o) g = ground arith
call-Keeps (on_result addr o) g = ground arith
call-Keeps (copy_start atom src) g = ground arith
call-Keeps (copy_start addr src) g = ground arith
call-Keeps (calibrate mode os) g =
    freq_gov_calibrate-preserves mode (suc (freq_table_num g)) (Keeps g)
      (λ i h _ k. set_freq-Keeps g h (get_or h.freq_table i 0) k)
      (λ i h _ k. set_cur_idx-Keeps mode i g h k) (restore_max-Keeps g) g (script os [])
      (omega arith) (omega arith) (record { ops = refl; low = refl })
call-Keeps _ g = ground arith

pub calls_keep :
    (ks : List Call) (g : Governor)
    → ((calls ks g).restore_ops ≡ g.restore_ops)
      × ((calls ks g).system_min_cpufreq ≡ g.system_min_cpufreq)
unfolding calls
calls_keep [] g = (refl, refl)
calls_keep (k ∷ ks) g =
    let one = call-Keeps k g in
    let rest = calls_keep ks (call k g) in (rest.0 ∙ one.ops, rest.1 ∙ one.low)

module _ (c : Cpufreq) (p : c.Policy) where
  pub record Good (g : Governor) : Type 0 where
    pub valid : IsValid g
    pub fixed : Fixed g
    pub coherent : Coherent c p g

  -- The frequency of a rung that is in the table.
  rung :
      {g : Governor} (i : ℕ)
      → Fixed g
      → i < freq_table_num g
      → (g.system_min_cpufreq ≤ get_or g.freq_table i 0) × (0 < get_or g.freq_table i 0)
  rung {g} i v h =
      let high = All-get_or (λ f. g.system_min_cpufreq ≤ f) g.freq_table i 0 v.table h in
      let low = v.positive in omega arith

  cur_idx-lt :
      {g : Governor} (mode : FreqMode) → IsValid g → (stats mode g).cur_idx < freq_table_num g
  cur_idx-lt atom v = v.atom_in
  cur_idx-lt addr v = v.addr_in

  Frame-Coherent : {g h : Governor} → Frame g h → Coherent c p g → Coherent c p h
  Frame-Coherent {g} {h} f co = record {
    reachable = rw (f.low, f.writes) co.reachable;
    user = rw f.writes co.user;
    last = rw (f.last, f.writes) co.last;
  }

  set_freq-Good :
      {g : Governor} (target : ℕ)
      → g.system_min_cpufreq ≤ target
      → Good g
      → Pinned c (hardware c p (set_freq target g)) target × Good (set_freq target g)
  set_freq-Good {g} target h v =
      let (pinned, coherent) =
        set_freq-Pinned c p target g v.coherent h (le_trans v.fixed.positive h) in
      (
        pinned,
        record {
          valid = set_freq-IsValid target v.valid;
          fixed = set_freq-Fixed target v.fixed;
          coherent = coherent;
        },
      )

  Frame-Good : {g h : Governor} → Frame g h → IsValid h → Good g → Good h
  Frame-Good f valid v = record {
    valid = valid;
    fixed = Frame-Fixed f v.fixed;
    coherent = Frame-Coherent f v.coherent;
  }

  apply-Good :
      {g : Governor} (mode : FreqMode)
      → Good g
      → Pinned c (hardware c p (freq_gov_apply mode g)) (wanted mode g)
        × Good (freq_gov_apply mode g)
  apply-Good {g} mode v = elim (Bool-cases g.force_min_pending) [
    | inl forced ↦
        let (same, target) = apply_forced mode g v.fixed.enabled forced in
        rw (same, target)
          (set_freq-Good (get_or g.freq_table 0 0)
            (rung 0 v.fixed (le_trans (omega arith) v.valid.atom_in)).0
            (Frame-Good (forget-Frame g) (forget-IsValid v.valid) v))
    | inr live ↦
        let (same, target) = apply_live mode g v.fixed.enabled live in
        rw (same, target)
          (set_freq-Good (get_or g.freq_table (stats mode g).cur_idx 0)
            (rung (stats mode g).cur_idx v.fixed (cur_idx-lt mode v.valid)).0 v)
  ]

  -- What calibration keeps: the state is good, and the table has as many rungs.
  record GoodFor (num : ℕ) (g : Governor) : Type 0 where
    good : Good g
    rungs : freq_table_num g ≡ num

  calibrate-Good :
      {g : Governor} (mode : FreqMode) (os : List Shot)
      → Good g
      → Good (freq_gov_calibrate scripted mode g (script os [])).1
  calibrate-Good {g} mode os v =
      let kept =
        freq_gov_calibrate-preserves mode (freq_table_num g) (GoodFor (freq_table_num g))
          (λ i h lt k. record {
            good =
                (set_freq-Good (get_or h.freq_table i 0)
                  (rung i k.good.fixed (omega (arith, k.rungs))).0 k.good).1;
            rungs = freq_table_num-set_freq (get_or h.freq_table i 0) h ∙ k.rungs;
          })
          (λ i h lt k. record {
            good =
                Frame-Good (set_cur_idx-Frame mode i h)
                  (set_cur_idx-IsValid mode i (omega (arith, k.rungs)) k.good.valid) k.good;
            rungs = freq_table_num-set_cur_idx mode i h ∙ k.rungs;
          })
          (λ h k. record {
            good =
                rw (restore_max_on h k.good.fixed.enabled)
                  (set_freq-Good h.system_max_cpufreq k.good.fixed.bounds k.good).1;
            rungs = freq_table_num-restore_max h ∙ k.rungs;
          })
          g (script os []) (omega arith) (le_trans (omega arith) v.valid.atom_in)
          (record { good = v; rungs = refl }) in
      kept.good

  call-Good : {g : Governor} (k : Call) → Good g → Good (call k g)
  unfolding call
  call-Good (apply mode) v = (apply-Good mode v).1
  call-Good {g} restore_max v =
      rw (restore_max_on g v.fixed.enabled) (set_freq-Good g.system_max_cpufreq v.fixed.bounds v).1
  call-Good {g} force_min v = Frame-Good (force_min-Frame g) (force_min-IsValid v.valid) v
  call-Good {g} (on_result mode overflowed) v =
      Frame-Good (on_result-Frame mode overflowed g)
        (freq_gov_on_result-IsValid mode overflowed v.valid) v
  call-Good {g} (copy_start dst src) v =
      Frame-Good (copy_start-Frame dst src g) (freq_gov_copy_start-IsValid dst src v.valid) v
  call-Good {g} (calibrate mode os) v = calibrate-Good mode os v

  pub calls-Good : (ks : List Call) {g : Governor} → Good g → Good (calls ks g)
  unfolding calls
  calls-Good [] v = v
  calls-Good (k ∷ ks) v = calls-Good ks (call-Good k v)

  -- The governor after init, on a policy whose maximum is not below the hardware minimum.
  pub init-Good :
      (addr_only : Bool) (f : Found)
      → 0 < f.cpuinfo_min_freq
      → f.cpuinfo_min_freq ≤ f.cpuinfo_max_freq
      → f.cpuinfo_min_freq ≤ c.max_of p
      → Good (freq_gov_init addr_only false f)
  unfolding freq_gov_init
  init-Good addr_only f pos h room = record {
    valid = freq_gov_init-IsValid addr_only f h;
    fixed = init-Fixed addr_only f pos h;
    coherent = record {
      reachable = rw (c.governor_keeps_bounds p "userspace").1 room;
      user = c.userspace_accepted p;
      last = inl refl;
    };
  }

  -- After init and any calls, `freq_gov_apply` leaves both bounds and the speed of the policy at
  -- the frequency wanted: the lowest rung if a forced minimum is pending, else the mode's current
  -- rung. This holds for every policy that keeps the kernel's rules and lets the hardware minimum
  -- through at the start, also where the writes are skipped as redundant; the calls are those of
  -- freq_gov.h, calibration with any outcomes among them.
  pub freq_gov_apply-Pinned :
      (addr_only : Bool) (f : Found) (ks : List Call) (mode : FreqMode)
      → 0 < f.cpuinfo_min_freq
      → f.cpuinfo_min_freq ≤ f.cpuinfo_max_freq
      → f.cpuinfo_min_freq ≤ c.max_of p
      → Pinned c
          (hardware c p (freq_gov_apply mode (calls ks (freq_gov_init addr_only false f))))
          (wanted mode (calls ks (freq_gov_init addr_only false f)))
  freq_gov_apply-Pinned addr_only f ks mode pos h room =
      (apply-Good mode (calls-Good ks (init-Good addr_only f pos h room))).0
