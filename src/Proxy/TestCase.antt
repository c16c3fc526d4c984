-- ===== src/Proxy/TestCase.antt =====
-- One test case, src/cs-proxy.c 502-585 and the loop of `main`. What init reads of the CPU is `found`
-- and AFLCS_FREQ_GOV is `gov_off`; the stats file and diagnostics are left out.
use coresight_trace.Base.{
  ℕ, zero, suc, ◌%◌, set, Bool, true, false, ◌&&◌, not, none, some, inc64, ltb, leb, ◌==◌,
  if◌then◌else◌,
}
use coresight_trace.FreqGov.Governor.{
  FreqMode, atom, addr, Governor, max_repetition_num, is_addr, freq_gov_apply, freq_gov_restore_max,
  freq_gov_force_min, freq_gov_on_result, freq_gov_should_retry, freq_gov_at_floor,
  freq_gov_copy_start,
}
use coresight_trace.FreqGov.Governor.Init.{Found, freq_gov_init}
use coresight_trace.Hybrid.State.{HybridVerdict, discarded, confirm, hybrid_init}
use coresight_trace.Hybrid.Passes.{hybrid_after_path}
use coresight_trace.Proxy.Input.{input_key}
use coresight_trace.Proxy.State.{
  CovType, edge_cov, hybrid_cov, is_signaled, status, Proxy, value, out_of_fuel, Cmd, pure, ◌>>=◌,
  ◌>>◌, gets, modify, govern, check, or_fatal, send,
}
use coresight_trace.Proxy.Child.{
  current_freq_mode, read_pid, fork_fresh_child, start_and_resume, wait_for_child_and_stop_trace,
  retry_child, trace_set_bb_mode, calibrate, count_exec, confirm_with_branch_broadcast,
  sample_with_branch_broadcast,
}

abbrev pub is_edge : CovType → Bool
is_edge edge_cov = true
is_edge _ = false

abbrev pub is_hybrid : CovType → Bool
is_hybrid hybrid_cov = true
is_hybrid _ = false

abbrev pub when : Bool → Cmd (Unit {0}) → Cmd (Unit {0})
when b m = if b then m else pure tt

abbrev pub set_bb_or_die : Bool → Cmd (Unit {0})
set_bb_or_die on s = or_fatal (trace_set_bb_mode on s)

-- The first calibration, on the child that the fork server handed over: whether there were runs.
unfoldable pub first_calibration : CovType → ℕ → Cmd Bool
first_calibration hybrid_cov child = do
  set_bb_or_die true
  runs ← calibrate addr (some child)
  govern (freq_gov_copy_start atom addr)
  set_bb_or_die false
  pure (ltb 0 runs)
first_calibration cov child = do
  runs ← calibrate (current_freq_mode cov) (some child)
  pure (ltb 0 runs)

unfoldable pub calibrate_once : ℕ → Cmd Bool
calibrate_once child = do
  needed ← gets (λ s. s.needs_calibration)
  cov ← gets (λ s. s.cov_type)
  modify (λ s. record s { needs_calibration = false })
  if needed then first_calibration cov child else pure false

-- Branch broadcast on for AFLCS_COV=edge, once, with another ramp if there was one.
unfoldable pub enable_bb : Bool → Cmd (Unit {0})
enable_bb did_calibrate = do
  modify (λ s. record s { needs_bb_enable = false })
  set_bb_or_die true
  when did_calibrate (calibrate addr none >> pure tt)

unfoldable pub enable_bb_once : Bool → Cmd (Unit {0})
enable_bb_once did_calibrate = do
  due ← gets (λ s. s.needs_bb_enable && is_edge s.cov_type)
  when due (enable_bb did_calibrate)

-- The test under which an overflow is given one final run at the floor.
abbrev pub forced_due : FreqMode → Bool → ℕ → Bool → Governor → Bool
forced_due mode overflowed reps forced g =
    overflowed
    && is_addr mode
    && not forced
    && not (freq_gov_at_floor mode g)
    && leb max_repetition_num reps

-- A retry at a lower frequency, one final run at the floor, or the end.
unfoldable pub next_attempt :
    FreqMode
    → (should_retry exhausted : Bool) → (again last : Cmd (ℕ × Bool)) → ℕ × Bool
    → Cmd (ℕ × Bool)
next_attempt mode true exhausted again last done = retry_child mode >> again
next_attempt mode false true again last done = govern freq_gov_force_min >> retry_child mode >> last
next_attempt mode false false again last done = pure done

-- One attempt, given what a retry and a final run go on with.
unfoldable pub attempt : FreqMode → ℕ → Bool → (again last : Cmd (ℕ × Bool)) → Cmd (ℕ × Bool)
attempt mode reps forced again last = do
  code ← wait_for_child_and_stop_trace
  govern freq_gov_restore_max
  overflowed ← gets (λ s. s.decoding_on && s.did_overflow)
  modify (count_exec overflowed)
  should_retry ← gets (λ s. freq_gov_should_retry mode overflowed reps s.gov)
  govern (freq_gov_on_result mode overflowed)
  exhausted ← gets (λ s. forced_due mode overflowed reps forced s.gov)
  next_attempt mode should_retry exhausted again last (code, overflowed)

-- The attempts at one test case: its status, and whether the last one overflowed.
unfoldable pub attempts : ℕ → FreqMode → ℕ → Bool → Cmd (ℕ × Bool)
attempts zero mode reps forced s = (out_of_fuel, s)
attempts (suc fuel) mode reps forced s =
    attempt mode reps forced (attempts fuel mode (suc reps) forced) (attempts fuel mode reps true) s

-- `hybrid_sample && ++hybrid_discards % hybrid_sample == 0`
abbrev pub sample_due : Proxy → Bool
sample_due s = not (s.hybrid_sample == 0) && (inc64 s.hybrid_discards % s.hybrid_sample == 0)

abbrev pub count_discard : Proxy → Proxy
count_discard s =
    if s.hybrid_sample == 0 then s else record s { hybrid_discards = inc64 s.hybrid_discards }

abbrev pub end_testcase : ℕ → Cmd (Unit {0})
end_testcase code = send (status code)

module _ (rescale : ℕ → ℕ → ℕ → ℕ) where
  unfoldable pub after_verdict : HybridVerdict → Cmd (Unit {0})
  after_verdict confirm = confirm_with_branch_broadcast rescale
  after_verdict discarded = do
    due ← gets sample_due
    modify count_discard
    when due (sample_with_branch_broadcast rescale)

  unfoldable pub path_verdict : Bool → Cmd HybridVerdict
  path_verdict overflowed s =
      let (verdict, map, h) =
        hybrid_after_path rescale s.trace_bitmap overflowed (input_key s.input) s.hybrid in
      (value verdict, record s { trace_bitmap = map; hybrid = h })

  unfoldable pub hybrid_step : ℕ → Bool → Cmd (Unit {0})
  hybrid_step code overflowed = do
    due ← gets (λ s. is_hybrid s.cov_type && s.decoding_on && not (is_signaled code))
    when due (path_verdict overflowed >>= after_verdict)

  -- The body of the loop of `main`: five attempts are never too few.
  unfoldable pub run_testcase : Cmd ℕ
  run_testcase = do
    mode ← gets (λ s. current_freq_mode s.cov_type)
    (code, overflowed) ← attempts 5 mode 0 false
    hybrid_step code overflowed
    modify (λ s. if s.decoding_on then s else record s { trace_bitmap = set s.trace_bitmap 0 1 })
    end_testcase code
    pure code

  module _ (found : Found) (gov_off : Bool) where
    unfoldable pub start_tracing : Cmd (Unit {0})
    start_tracing = do
      check
      modify (λ s. record s {
        first_run = false;
        gov = freq_gov_init (is_edge s.cov_type) gov_off found;
        hybrid = if is_hybrid s.cov_type then hybrid_init s.trace_bitmap_size else s.hybrid;
      })

    unfoldable pub initialize : Cmd (Unit {0})
    initialize = do first ← gets (λ s. s.first_run); when first start_tracing

    -- `__afl_next_testcase`: the pid that is reported to afl-fuzz.
    unfoldable pub next_testcase : Cmd ℕ
    next_testcase = do
      check
      check
      handed ← λ s. read_pid s.pids s
      initialize
      did_calibrate ← calibrate_once handed
      enable_bb_once did_calibrate
      child ← if did_calibrate then fork_fresh_child else pure handed
      mode ← gets (λ s. current_freq_mode s.cov_type)
      govern (freq_gov_apply mode)
      start_and_resume child true
      pure child
