-- ===== src/FreqGov/Governor/Always.antt =====
-- What holds of the governor after `freq_gov_init` and any sequence of calls, on and off.
use mathlib.Core.Path.{subst}
use coresight_trace.Base.{
  sym, ℕ, ◌≤◌, ◌≡◌, refl, Bool, true, false, List, [], ◌∷◌, ◌∙◌, get_or, arith,
}
use coresight_trace.FreqGov.Governor.{
  FreqMode, atom, addr, Governor, freq_table_num, freq_gov_apply, freq_gov_restore_max,
  freq_gov_force_min, freq_gov_on_result, freq_gov_copy_start, freq_gov_should_retry,
  freq_gov_at_floor,
}
use coresight_trace.FreqGov.Governor.Valid.{
  IsValid, set_freq-IsValid, freq_gov_apply-IsValid, freq_gov_restore_max-IsValid,
  freq_gov_on_result-IsValid, freq_gov_copy_start-IsValid,
}
use coresight_trace.FreqGov.Governor.Frames.{
  force_min-IsValid, set_cur_idx-IsValid, freq_table_num-set_freq, freq_table_num-set_cur_idx,
  freq_table_num-restore_max,
}
use coresight_trace.FreqGov.Governor.Ramp.{Shot, script, scripted, freq_gov_calibrate}
use coresight_trace.FreqGov.Governor.Kept.{freq_gov_calibrate-preserves, freq_gov_calibrate-off}
use native.Mathlib.Nat.{le_trans}
use coresight_trace.FreqGov.Governor.Init.{Found, freq_gov_init, freq_gov_init-IsValid}
use coresight_trace.FreqGov.Governor.Run.{
  Call, apply, restore_max, force_min, on_result, copy_start, calibrate, call, calls,
}

record ValidFor (num : ℕ) (g : Governor) : Type 0 where
  valid : IsValid g
  rungs : freq_table_num g ≡ num

calibrate-IsValid :
    (mode : FreqMode) (os : List Shot) (g : Governor)
    → IsValid g
    → IsValid (freq_gov_calibrate scripted mode g (script os [])).1
calibrate-IsValid mode os g v =
    let kept =
      freq_gov_calibrate-preserves mode (freq_table_num g) (ValidFor (freq_table_num g))
        (λ i h lt k. record {
          valid = set_freq-IsValid (get_or h.freq_table i 0) k.valid;
          rungs = freq_table_num-set_freq (get_or h.freq_table i 0) h ∙ k.rungs;
        })
        (λ i h lt k. record {
          valid = set_cur_idx-IsValid mode i (omega (arith, k.rungs)) k.valid;
          rungs = freq_table_num-set_cur_idx mode i h ∙ k.rungs;
        })
        (λ h k. record {
          valid = freq_gov_restore_max-IsValid k.valid;
          rungs = freq_table_num-restore_max h ∙ k.rungs;
        })
        g (script os []) (omega arith) (le_trans (omega arith) v.atom_in)
        (record { valid = v; rungs = refl }) in
    kept.valid

call-IsValid : {g : Governor} (k : Call) → IsValid g → IsValid (call k g)
unfolding call
call-IsValid {g} (apply mode) v = freq_gov_apply-IsValid mode v
call-IsValid {g} restore_max v = freq_gov_restore_max-IsValid v
call-IsValid {g} force_min v = force_min-IsValid v
call-IsValid {g} (on_result mode overflowed) v = freq_gov_on_result-IsValid mode overflowed v
call-IsValid {g} (copy_start dst src) v = freq_gov_copy_start-IsValid dst src v
call-IsValid {g} (calibrate mode os) v = calibrate-IsValid mode os g v

calls-keep-IsValid : (ks : List Call) {g : Governor} → IsValid g → IsValid (calls ks g)
unfolding calls
calls-keep-IsValid [] v = v
calls-keep-IsValid (k ∷ ks) v = calls-keep-IsValid ks (call-IsValid k v)

-- After init and any sequence of calls, calibration among them, if the hardware bounds are in order,
-- the live index of each mode is in the frequency table, and the window of clean runs lies between
-- 100 and 1000.
pub calls-IsValid :
    (addr_only : Bool) (f : Found) (ks : List Call)
    → f.cpuinfo_min_freq ≤ f.cpuinfo_max_freq
    → IsValid (calls ks (freq_gov_init addr_only false f))
calls-IsValid addr_only f ks h = calls-keep-IsValid ks (freq_gov_init-IsValid addr_only f h)

-- The governor is off and has written nothing.
record Silent (g : Governor) : Type 0 where
  off : g.g_enabled ≡ false
  writes : g.writes ≡ []
  ops : g.restore_ops ≡ []

call-Silent : (k : Call) (g : Governor) → Silent g → Silent (call k g)
unfolding call freq_gov_apply freq_gov_restore_max freq_gov_force_min freq_gov_on_result
    freq_gov_copy_start
call-Silent (copy_start atom src) g v = ground arith
call-Silent (copy_start addr src) g v = ground arith
call-Silent (calibrate mode os) g v =
    subst (λ r. Silent r.1) (sym (freq_gov_calibrate-off mode g (script os []) v.off)) v
call-Silent _ g v = ground arith

calls-Silent : (ks : List Call) (g : Governor) → Silent g → Silent (calls ks g)
unfolding calls
calls-Silent [] g v = v
calls-Silent (k ∷ ks) g v = calls-Silent ks (call k g) (call-Silent k g v)

-- With AFLCS_FREQ_GOV=0 the governor never touches the CPU frequency: after init and any sequence
-- of calls, calibration among them, nothing has been written and nothing is to be restored. No retry
-- is granted, and every mode counts as at the floor.
pub freq_gov_init-off :
    (addr_only : Bool) (f : Found) (ks : List Call) (mode : FreqMode) (overflowed : Bool) (n : ℕ)
    → let g = calls ks (freq_gov_init addr_only true f) in
      (g.writes ≡ [])
      × (g.restore_ops ≡ [])
      × (freq_gov_should_retry mode overflowed n g ≡ false)
      × (freq_gov_at_floor mode g ≡ true)
unfolding freq_gov_init freq_gov_should_retry freq_gov_at_floor
freq_gov_init-off addr_only f ks mode overflowed n =
    let start = freq_gov_init addr_only true f in
    let v = calls-Silent ks start (record { off = refl; writes = refl; ops = refl }) in
    (v.writes, v.ops, rw v.off refl, rw v.off refl)
