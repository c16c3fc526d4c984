-- ===== src/Proxy/Tests.antt =====
-- The proxy at concrete supplies.
use coresight_trace.Base.{
  ℕ, ◌*◌, ◌/◌, ◌≤◌, ◌≡◌, ◌≢◌, refl, true, false, some, List, [], ◌∷◌, ◌++◌, replicate,
}
use coresight_trace.FreqGov.Table.{
  read_available_frequencies, sort, sort_from, insert_step, shift, parse, collect, or_bounds,
}
use coresight_trace.FreqGov.Governor.{
  addr, set_freq, freq_gov_apply, freq_gov_restore_max, freq_gov_should_retry, freq_gov_at_floor,
  freq_gov_on_result,
}
use coresight_trace.FreqGov.Governor.Init.{Found, boot, freq_gov_init}
use coresight_trace.Hybrid.Bitmap.{classify, has_new_bits}
use coresight_trace.Hybrid.Checksum.{checksum}
use coresight_trace.Hybrid.State.{hybrid_init}
use coresight_trace.Hybrid.Passes.{purge_check, hybrid_after_path}
use coresight_trace.Proxy.State.{
  hybrid_cov, Wait, pid, status, Proxy, value, out_of_fuel, ◌>>=◌, check,
}
use coresight_trace.Proxy.Child.{
  current_freq_mode, fork_fresh_child, start_and_resume, wait_until, wait_for_child_and_stop_trace,
  retry_child, trace_set_bb_mode, broadcast_run, confirm_with_branch_broadcast,
  sample_with_branch_broadcast,
}
use coresight_trace.Proxy.TestCase.{
  attempts, attempt, next_attempt, next_testcase, run_testcase, hybrid_step, path_verdict,
  after_verdict, initialize, start_tracing, calibrate_once, enable_bb_once,
}
use coresight_trace.Proxy.Attempts.{attempts-end}
use coresight_trace.Proxy.Waits.{IsLast}
use coresight_trace.Proxy.Protocol.{run_testcase-protocol}
use coresight_trace.Proxy.Main.{main_loop}
use coresight_trace.Proxy.Turns.{TakesTurns, main_loop-TakesTurns}
use coresight_trace.Forksrv.Server
use coresight_trace.Forksrv.Server.{write, wait, try_fork, relay, answer, serve}
use coresight_trace.Forksrv.Samples.{server, served, serving}
use coresight_trace.Forksrv.Relayed.{codes, last_code, serve-wait_until}
use coresight_trace.Proxy.Broadcast.{sample_with_branch_broadcast-restores}

abbrev rescaled : ℕ → ℕ → ℕ → ℕ
rescaled interval attempt real = interval * attempt / real

abbrev found : Found
found = record {
  cpuinfo_max_freq = 1200;
  cpuinfo_min_freq = 300;
  available = some (1200 ∷ 600 ∷ 300 ∷ []);
  saved_governor = "schedutil";
  saved_min = 600;
  saved_max = 1200;
  setspeed = 0;
}

abbrev clean_run : List ℕ → Wait
clean_run map = record { code = 0; overflowed = false; bitmap = map }

abbrev suspension : Wait
suspension = record { code = 4991; overflowed = false; bitmap = [] }

-- Before the first test case, with everything going well.
abbrev ready : Proxy
ready = record {
  cov_type = hybrid_cov;
  decoding_on = true;
  first_run = true;
  needs_calibration = false;
  needs_bb_enable = true;
  bb_mode = false;
  hybrid_sample = 0;
  hybrid_discards = 0;
  total_exec_count = 0;
  overflow_exec_count = 0;
  trace_bitmap = replicate 8 0;
  trace_bitmap_size = 8;
  did_overflow = false;
  gov = boot;
  hybrid = hybrid_init 8;
  input = some (65 ∷ 66 ∷ []);
  sent = [];
  forks = 0;
  pids = 71 ∷ 72 ∷ 73 ∷ [];
  waits =
      suspension
      ∷ clean_run (1 ∷ 0 ∷ 0 ∷ 4 ∷ 0 ∷ 0 ∷ 0 ∷ 0 ∷ [])
      ∷ clean_run (0 ∷ 9 ∷ 0 ∷ 0 ∷ 0 ∷ 0 ∷ 2 ∷ 0 ∷ [])
      ∷ [];
  answers = replicate 20 true;
}

attempts-end_example :
    ((attempts 5 addr 0 false ready).0 ≢ out_of_fuel)
    × ((attempts 5 addr 0 false ready).1.forks ≤ 4)
attempts-end_example = attempts-end addr ready

child_is_told : (next_testcase rescaled found false ready).0 ≡ value 71
unfolding next_testcase check ◌>>=◌ initialize start_tracing calibrate_once enable_bb_once
    start_and_resume
child_is_told = refl

runs_to_the_end : (run_testcase rescaled (next_testcase rescaled found false ready).1).0 ≡ value 0
unfolding next_testcase check ◌>>=◌ initialize start_tracing calibrate_once enable_bb_once
    start_and_resume run_testcase attempts attempt next_attempt wait_for_child_and_stop_trace
    wait_until hybrid_step path_verdict after_verdict confirm_with_branch_broadcast broadcast_run
    trace_set_bb_mode retry_child fork_fresh_child freq_gov_should_retry freq_gov_at_floor
    freq_gov_restore_max freq_gov_apply set_freq freq_gov_init freq_gov_on_result
    read_available_frequencies sort sort_from insert_step shift parse collect or_bounds
    hybrid_after_path hybrid_init purge_check checksum classify has_new_bits
runs_to_the_end = refl

run_testcase-protocol_example :
    let t = (next_testcase rescaled found false ready).1 in
    ((run_testcase rescaled t).1.sent ≡ status 0 ∷ pid 71 ∷ [])
    × IsLast 0 t.waits (attempts 5 (current_freq_mode t.cov_type) 0 false t).1.waits
run_testcase-protocol_example =
    run_testcase-protocol rescaled found false ready 71 0 child_is_told runs_to_the_end

sample_returns : (sample_with_branch_broadcast rescaled ready).0 ≡ value tt
unfolding check ◌>>=◌ start_and_resume wait_for_child_and_stop_trace wait_until
    sample_with_branch_broadcast broadcast_run trace_set_bb_mode retry_child fork_fresh_child
sample_returns = refl

sample_with_branch_broadcast-restores_example :
    ((sample_with_branch_broadcast rescaled ready).1.bb_mode ≡ false)
    × ((sample_with_branch_broadcast rescaled ready).1.trace_bitmap ≡ replicate 8 0)
sample_with_branch_broadcast-restores_example =
    sample_with_branch_broadcast-restores rescaled ready sample_returns

abbrev exited : Wait
exited = record { code = 256; overflowed = false; bitmap = [] }

serve-wait_until_example :
    (serve server ≡ (
      Server.value tt,
      record served { sent = server.sent ++ (77 ∷ codes (suspension ∷ exited ∷ [])) },
    ))
    × ((wait_until ((suspension ∷ exited ∷ []) ++ ready.waits) ready).0
        ≡ value (last_code suspension (exited ∷ [])))
    × ((wait_until ((suspension ∷ exited ∷ []) ++ ready.waits) ready).1.waits ≡ ready.waits)
serve-wait_until_example =
    serve-wait_until 77 server served suspension (exited ∷ []) ready.waits ready serving
      (refl, refl)

main_loop-TakesTurns_example : TakesTurns (main_loop rescaled found false 2 ready).1.sent
main_loop-TakesTurns_example = main_loop-TakesTurns rescaled found false 2 ready tt tt

-- A read from afl-fuzz that fails does not end the loop: a status is sent that nobody has asked for.
unasked_status :
    (main_loop rescaled found false 1 (record ready {
      decoding_on = false;
      answers = false ∷ replicate 5 true;
      waits = exited ∷ [];
    })).1.sent
    ≡ status 256 ∷ []
unfolding main_loop check ◌>>=◌ next_testcase run_testcase hybrid_step attempts attempt next_attempt
    wait_for_child_and_stop_trace wait_until freq_gov_should_retry freq_gov_restore_max set_freq
unasked_status = refl
