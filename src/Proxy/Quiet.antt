-- ===== src/Proxy/Quiet.antt =====
-- The commands behind a test case that send nothing to afl-fuzz.
use coresight_trace.Base.{
  ℕ, inc64, ◌==◌, set, ◌≡◌, refl, ◌∙◌, Bool, true, false, List, [], ◌∷◌, Option, none, some,
  if◌then◌else◌, Bool-cases, inl, inr, zero, suc,
}
use coresight_trace.FreqGov.Governor.{FreqMode}
use coresight_trace.FreqGov.Governor.Init.{Found}
use coresight_trace.FreqGov.Governor.Kept.{freq_gov_calibrate-keeps}
use coresight_trace.Hybrid.State.{HybridVerdict, discarded, confirm}
use coresight_trace.Proxy.State.{
  CovType, edge_cov, path_cov, hybrid_cov, Wait, is_suspended, Proxy, Answer, value, negative,
  fatal, out_of_fuel, Cmd, modify, check, check_with, or_fatal,
}
use coresight_trace.Proxy.Child.{
  read_pid, fork_fresh_child, start_and_resume, wait_until, wait_for_child_and_stop_trace,
  retry_child, trace_set_bb_mode, take_child, calibration_run, calibration_run_one_shot, calibrate,
  broadcast_run, confirm_with_branch_broadcast, sample_with_branch_broadcast,
}
use coresight_trace.Proxy.TestCase.{
  set_bb_or_die, first_calibration, calibrate_once, enable_bb, enable_bb_once, next_attempt,
  attempt, attempts, after_verdict, path_verdict, hybrid_step, start_tracing, initialize,
  count_discard,
}
use coresight_trace.Proxy.Keeps.{Keeps, Keeps-pure, Keeps-bind, keeps_rules}

-- Nothing is sent.
abbrev pub Quiet : {A : Type 0} → Cmd A → Type 0
Quiet m = Keeps (λ s. s.sent) m

pub Quiet-modify : (g : Proxy → Proxy) → ((s : Proxy) → (g s).sent ≡ s.sent) → Quiet (modify g)
Quiet-modify g h = record { at = h }

check_with-sent : (answers : List Bool) (s : Proxy) → (check_with answers s).1.sent ≡ s.sent
check_with-sent [] s = refl
check_with-sent (ok ∷ rest) s = refl

pub check-Quiet : Quiet check
unfolding check
check-Quiet = record { at = λ s. check_with-sent s.answers s }

read_pid-sent : (ps : List ℕ) (s : Proxy) → (read_pid ps s).1.sent ≡ s.sent
read_pid-sent [] s = refl
read_pid-sent (p ∷ ps) s = refl

pub read_pid-Quiet : Quiet (λ s. read_pid s.pids s)
read_pid-Quiet = record { at = λ s. read_pid-sent s.pids s }

pub fork_fresh_child-Quiet : Quiet fork_fresh_child
unfolding fork_fresh_child
fork_fresh_child-Quiet =
    Keeps-bind _ _ check-Quiet λ _. Keeps-bind _ _ (Quiet-modify _ (λ s. refl)) λ _. read_pid-Quiet

ruleset quiet_rules =
    (keeps_rules, check-Quiet, read_pid-Quiet, Quiet-modify, fork_fresh_child-Quiet)

start_and_resume-Quiet : (child : ℕ) → Quiet (start_and_resume child false)
unfolding start_and_resume
start_and_resume-Quiet child = search quiet_rules

retry_child-Quiet : (mode : FreqMode) → Quiet (retry_child mode)
unfolding retry_child
retry_child-Quiet mode = search (quiet_rules, start_and_resume-Quiet)

wait_until-sent : (ws : List Wait) (s : Proxy) → (wait_until ws s).1.sent ≡ s.sent
unfolding wait_until
wait_until-sent [] s = refl
wait_until-sent (w ∷ ws) s = elim (Bool-cases (is_suspended w.code)) [
  | inl more ↦ rw more (wait_until-sent ws s)
  | inr done ↦ rw done refl
]

wait-Quiet : Quiet (λ s. wait_until s.waits s)
wait-Quiet = record { at = λ s. wait_until-sent s.waits s }

wait_for_child_and_stop_trace-Quiet : Quiet wait_for_child_and_stop_trace
unfolding wait_for_child_and_stop_trace
wait_for_child_and_stop_trace-Quiet = search (quiet_rules, wait-Quiet)

trace_set_bb_mode-Quiet : (on : Bool) → Quiet (trace_set_bb_mode on)
unfolding trace_set_bb_mode
trace_set_bb_mode-Quiet on = search quiet_rules

ruleset run_rules = (
  quiet_rules, start_and_resume-Quiet, retry_child-Quiet, wait_for_child_and_stop_trace-Quiet,
  trace_set_bb_mode-Quiet,
)

broadcast_run-Quiet : Quiet broadcast_run
unfolding broadcast_run
broadcast_run-Quiet = search run_rules depth 12

take_child-Quiet : (ctx : Option ℕ) → Quiet (take_child ctx)
take_child-Quiet none = fork_fresh_child-Quiet
take_child-Quiet (some child) = Keeps-pure child

calibration_run-Quiet : (ctx : Option ℕ) → Quiet (calibration_run ctx)
unfolding calibration_run
calibration_run-Quiet ctx = search (run_rules, take_child-Quiet)

calibrate-Quiet : (mode : FreqMode) (ctx : Option ℕ) → Quiet (calibrate mode ctx)
unfolding calibrate calibration_run_one_shot
calibrate-Quiet mode ctx = record {
  at = λ s.
      freq_gov_calibrate-keeps calibration_run_one_shot mode (λ w. w.0.sent)
        (λ g w. (calibration_run-Quiet w.1).at (record w.0 { gov = g })) s.gov (s, ctx);
}

or_fatal-sent : (r : Answer (Unit {0})) (s : Proxy) → (or_fatal (r, s)).1.sent ≡ s.sent
or_fatal-sent (value _) s = refl
or_fatal-sent negative s = refl
or_fatal-sent fatal s = refl
or_fatal-sent out_of_fuel s = refl

set_bb_or_die-Quiet : (on : Bool) → Quiet (set_bb_or_die on)
set_bb_or_die-Quiet on = record {
  at = λ s.
      let (r, s') = trace_set_bb_mode on s in
      or_fatal-sent r s' ∙ (trace_set_bb_mode-Quiet on).at s;
}

ruleset calibration_rules = (run_rules, calibrate-Quiet, set_bb_or_die-Quiet)

first_calibration-Quiet : (cov : CovType) (child : ℕ) → Quiet (first_calibration cov child)
unfolding first_calibration
first_calibration-Quiet hybrid_cov child = search calibration_rules
first_calibration-Quiet edge_cov child = search calibration_rules
first_calibration-Quiet path_cov child = search calibration_rules

pub calibrate_once-Quiet : (child : ℕ) → Quiet (calibrate_once child)
unfolding calibrate_once
calibrate_once-Quiet child = search (calibration_rules, first_calibration-Quiet)

enable_bb-Quiet : (did_calibrate : Bool) → Quiet (enable_bb did_calibrate)
unfolding enable_bb
enable_bb-Quiet did_calibrate = search calibration_rules

pub enable_bb_once-Quiet : (did_calibrate : Bool) → Quiet (enable_bb_once did_calibrate)
unfolding enable_bb_once
enable_bb_once-Quiet did_calibrate = search (calibration_rules, enable_bb-Quiet)

next_attempt-Quiet :
    (mode : FreqMode) (should_retry exhausted : Bool) (again last : Cmd (ℕ × Bool))
    (done : ℕ × Bool)
    → Quiet again
    → Quiet last
    → Quiet (next_attempt mode should_retry exhausted again last done)
unfolding next_attempt
next_attempt-Quiet mode true exhausted again last done qa ql = search run_rules
next_attempt-Quiet mode false true again last done qa ql = search run_rules
next_attempt-Quiet mode false false again last done qa ql = Keeps-pure done

attempt-Quiet :
    (mode : FreqMode) (reps : ℕ) (forced : Bool) (again last : Cmd (ℕ × Bool))
    → Quiet again
    → Quiet last
    → Quiet (attempt mode reps forced again last)
unfolding attempt
attempt-Quiet mode reps forced again last qa ql = search (run_rules, next_attempt-Quiet) depth 14

pub attempts-Quiet :
    (fuel : ℕ) (mode : FreqMode) (reps : ℕ) (forced : Bool) → Quiet (attempts fuel mode reps forced)
unfolding attempts
attempts-Quiet zero mode reps forced = record { at = λ s. refl }
attempts-Quiet (suc fuel) mode reps forced =
    let again = attempts-Quiet fuel mode (suc reps) forced in
    let last = attempts-Quiet fuel mode reps true in
    record { at = (attempt-Quiet mode reps forced _ _ again last).at }

if-sent : (b : Bool) (s t : Proxy) → t.sent ≡ s.sent → (if b then s else t).sent ≡ s.sent
if-sent true s t same = refl
if-sent false s t same = same

count_discard-Quiet : Quiet (modify count_discard)
count_discard-Quiet = record {
  at = λ s.
      if-sent (s.hybrid_sample == 0) s (record s { hybrid_discards = inc64 s.hybrid_discards })
        refl;
}

pub mark-Quiet :
    Quiet (
      modify (λ s. if s.decoding_on then s else record s { trace_bitmap = set s.trace_bitmap 0 1 }))
mark-Quiet = record {
  at = λ s. if-sent s.decoding_on s (record s { trace_bitmap = set s.trace_bitmap 0 1 }) refl;
}

module _ (rescale : ℕ → ℕ → ℕ → ℕ) where
  confirm-Quiet : Quiet (confirm_with_branch_broadcast rescale)
  unfolding confirm_with_branch_broadcast
  confirm-Quiet = search (run_rules, broadcast_run-Quiet)

  sample-Quiet : Quiet (sample_with_branch_broadcast rescale)
  unfolding sample_with_branch_broadcast
  sample-Quiet = search (run_rules, broadcast_run-Quiet)

  after_verdict-Quiet : (v : HybridVerdict) → Quiet (after_verdict rescale v)
  unfolding after_verdict
  after_verdict-Quiet confirm = confirm-Quiet
  after_verdict-Quiet discarded = search (run_rules, sample-Quiet, count_discard-Quiet)

  path_verdict-Quiet : (overflowed : Bool) → Quiet (path_verdict rescale overflowed)
  unfolding path_verdict
  path_verdict-Quiet overflowed = record { at = λ s. refl }

  pub hybrid_step-Quiet :
      (code : ℕ) (overflowed : Bool) → Quiet (hybrid_step rescale code overflowed)
  unfolding hybrid_step
  hybrid_step-Quiet code overflowed = search (run_rules, path_verdict-Quiet, after_verdict-Quiet)

  module _ (found : Found) (gov_off : Bool) where
    start_tracing-Quiet : Quiet (start_tracing rescale found gov_off)
    unfolding start_tracing
    start_tracing-Quiet = search run_rules

    pub initialize-Quiet : Quiet (initialize rescale found gov_off)
    unfolding initialize
    initialize-Quiet = search (run_rules, start_tracing-Quiet)
