-- ===== src/Proxy/Child.antt =====
-- One run of a child, and the passes that afl-fuzz does not see, src/cs-proxy.c 313-500.
use coresight_trace.Base.{
  ℕ, ◌+◌, Bool, true, false, ◌&&◌, Option, none, some, List, [], ◌∷◌, inc64, if◌then◌else◌,
}
use coresight_trace.FreqGov.Governor.{
  FreqMode, atom, addr, Governor, freq_gov_apply, freq_gov_restore_max, freq_gov_on_result,
}
use coresight_trace.FreqGov.Governor.Ramp.{freq_gov_calibrate}
use coresight_trace.Hybrid.Passes.{hybrid_after_confirm, hybrid_after_sample}
use coresight_trace.Proxy.State.{
  CovType, edge_cov, path_cov, hybrid_cov, Wait, is_suspended, pid, Proxy, Answer, value, negative,
  Cmd, pure, ◌>>=◌, ◌>>◌, gets, modify, govern, check, send,
}

abbrev pub current_freq_mode : CovType → FreqMode
current_freq_mode edge_cov = addr
current_freq_mode path_cov = atom
current_freq_mode hybrid_cov = atom

-- The read of a pid from the inner fork server.
abbrev pub read_pid : List ℕ → Cmd ℕ
read_pid [] s = (negative, s)
read_pid (p ∷ ps) s = (value p, record s { pids = ps })

-- A fresh child by the inner protocol only: a request, and the answer.
unfoldable pub fork_fresh_child : Cmd ℕ
fork_fresh_child = do check; modify (λ s. record s { forks = s.forks + 1 }); λ s. read_pid s.pids s

-- The resumption; the pid goes to afl-fuzz when it is to be reported. What `start_trace` does to the
-- trace session, its clearing of the shared map included, is over when the wait has an end.
unfoldable pub start_and_resume : ℕ → Bool → Cmd (Unit {0})
start_and_resume child_pid report_to_afl = do
  if report_to_afl then send (pid child_pid) else pure tt
  check

-- The loop over the statuses that are read, until one that is not a suspension.
unfoldable pub wait_until : List Wait → Cmd ℕ
wait_until [] s = (negative, record s { waits = [] })
wait_until (w ∷ ws) s =
    let drained = wait_until ws s in
    if is_suspended w.code then drained else (
      value w.code,
      record s { waits = ws; did_overflow = w.overflowed; trace_bitmap = w.bitmap },
    )

-- The status of the child; the last check is `stop_trace`.
unfoldable pub wait_for_child_and_stop_trace : Cmd ℕ
wait_for_child_and_stop_trace = do code ← λ s. wait_until s.waits s; check; pure code

unfoldable pub retry_child : FreqMode → Cmd ℕ
retry_child mode = do
  child ← fork_fresh_child
  govern (freq_gov_apply mode)
  start_and_resume child false
  pure child

unfoldable pub trace_set_bb_mode : Bool → Cmd (Unit {0})
trace_set_bb_mode on = do check; modify (λ s. record s { bb_mode = on })

-- `calib_ctx`: the child that is at hand, if any.
abbrev pub take_child : Option ℕ → Cmd ℕ
take_child (some child) = pure child
take_child none = fork_fresh_child

unfoldable pub calibration_run : Option ℕ → Cmd Bool
calibration_run ctx = do
  child ← take_child ctx
  start_and_resume child false
  wait_for_child_and_stop_trace
  govern freq_gov_restore_max
  gets (λ s. s.decoding_on && s.did_overflow)

-- Any failure counts as an overflow. The context has no child left afterwards.
abbrev pub overflow_or_failure : Answer Bool → Bool
overflow_or_failure (value overflowed) = overflowed
overflow_or_failure _ = true

unfoldable pub calibration_run_one_shot :
    Governor → Proxy × Option ℕ → Bool × Governor × (Proxy × Option ℕ)
calibration_run_one_shot g (s, ctx) =
    let (r, s') = calibration_run ctx (record s { gov = g }) in
    (overflow_or_failure r, s'.gov, (s', none))

-- `freq_gov_calibrate` with this callback: the number of runs.
unfoldable pub calibrate : FreqMode → Option ℕ → Cmd ℕ
calibrate mode ctx s =
    let (runs, g, (s', _)) = freq_gov_calibrate calibration_run_one_shot mode s.gov (s, ctx) in
    (value runs, record s' { gov = g })

abbrev pub count_exec : Bool → Proxy → Proxy
count_exec overflowed s = record s {
  total_exec_count = inc64 s.total_exec_count;
  overflow_exec_count = if overflowed then inc64 s.overflow_exec_count else s.overflow_exec_count;
}

-- One more run of the input with branch broadcast, and whether it overflowed.
unfoldable pub broadcast_run : Cmd Bool
broadcast_run = do
  trace_set_bb_mode true
  retry_child addr
  wait_for_child_and_stop_trace
  govern freq_gov_restore_max
  overflowed ← gets (λ s. s.did_overflow)
  modify (count_exec overflowed)
  govern (freq_gov_on_result addr overflowed)
  pure overflowed

module _ (rescale : ℕ → ℕ → ℕ → ℕ) where
  unfoldable pub confirm_with_branch_broadcast : Cmd (Unit {0})
  confirm_with_branch_broadcast = do
    overflowed ← broadcast_run
    modify
        (λ s. record s { hybrid = hybrid_after_confirm rescale s.trace_bitmap overflowed s.hybrid })
    trace_set_bb_mode false

  -- The map that `hybrid_after_path` chose is put back.
  unfoldable pub sample_with_branch_broadcast : Cmd (Unit {0})
  sample_with_branch_broadcast = do
    saved ← gets (λ s. s.trace_bitmap)
    overflowed ← broadcast_run
    modify (λ s. record s {
      hybrid = hybrid_after_sample rescale s.trace_bitmap overflowed s.hybrid;
      trace_bitmap = saved;
    })
    trace_set_bb_mode false
