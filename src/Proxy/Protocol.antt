-- ===== src/Proxy/Protocol.antt =====
-- What afl-fuzz is sent: one pid and one status for each test case, whatever runs behind them.
use coresight_trace.Base.{ℕ, ◌≡◌, refl, ◌∙◌, ap, Bool, true, false, List, [], ◌∷◌}
use mathlib.Core.Path.{subst}
use mathlib.Core.List.{◌++◌}
use coresight_trace.FreqGov.Governor.Init.{Found}
use coresight_trace.Proxy.State.{
  pid, status, Sent, Proxy, Answer, value, negative, fatal, out_of_fuel, Cmd, pure, and_then, ◌>>=◌,
  ◌>>◌, check, send,
}
use coresight_trace.Proxy.Child.{start_and_resume, current_freq_mode}
use coresight_trace.Proxy.Waits.{IsLast}
use coresight_trace.Proxy.Last.{run_testcase-IsLast}
use coresight_trace.Proxy.TestCase.{attempts, run_testcase, next_testcase}
use coresight_trace.Proxy.Keeps.{Keeps-pure, Keeps-gets, Keeps-if}
use coresight_trace.Proxy.Quiet.{
  Quiet, Quiet-modify, check-Quiet, read_pid-Quiet, fork_fresh_child-Quiet, initialize-Quiet,
  calibrate_once-Quiet, enable_bb_once-Quiet, attempts-Quiet, mark-Quiet, hybrid_step-Quiet,
}

-- What a command has sent when it returns a value.
abbrev pub Reported : {A : Type 0} → (A → List Sent) → List Sent → Answer A × Proxy → Type 0
Reported extra old (value a, t) = t.sent ≡ extra a ++ old
Reported extra old (negative, t) = Unit
Reported extra old (fatal, t) = Unit
Reported extra old (out_of_fuel, t) = Unit

pub record Reports {A : Type 0} (extra : A → List Sent) (m : Cmd A) : Type 0 where
  pub at : (s : Proxy) → Reported extra s.sent (m s)

module _ {A B : Type 0} {extra : B → List Sent} where
  and_then-Reported :
      (r : Answer A) (s t : Proxy) (k : A → Cmd B)
      → t.sent ≡ s.sent
      → ((a : A) → Reports extra (k a))
      → Reported extra s.sent (and_then r t k)
  and_then-Reported (value a) s t k same kk =
      subst (λ old. Reported extra old (k a t)) same ((kk a).at t)
  and_then-Reported negative s t k same kk = tt
  and_then-Reported fatal s t k same kk = tt
  and_then-Reported out_of_fuel s t k same kk = tt

  Reports-bind :
      (m : Cmd A) (k : A → Cmd B)
      → Quiet m
      → ((a : A) → Reports extra (k a))
      → Reports extra (m >>= k)
  unfolding ◌>>=◌
  Reports-bind m k q kk = record { at = λ s. and_then-Reported (m s).0 s (m s).1 k (q.at s) kk }

sent_by :
    (extra : ℕ → List Sent) (old : List Sent) {a : ℕ} (r : Answer ℕ × Proxy)
    → r.0 ≡ value a
    → Reported extra old r
    → r.1.sent ≡ extra a ++ old
sent_by extra old r e h = subst (λ x. Reported extra old (x, r.1)) e h

module _ {A B : Type 0} (e : List Sent) where
  and_then-after :
      (r : Answer A) (t : Proxy) (old : List Sent) (k : A → Cmd B)
      → Reported (λ _. e) old (r, t)
      → ((a : A) → Quiet (k a))
      → Reported (λ _. e) old (and_then r t k)
  and_then-after (value a) t old k sent q = after (k a t).0 (k a t).1 ((q a).at t ∙ sent)
    where
      after : (r : Answer B) (u : Proxy) → u.sent ≡ e ++ old → Reported (λ _. e) old (r, u)
      after (value b) u h = h
      after negative u h = tt
      after fatal u h = tt
      after out_of_fuel u h = tt
  and_then-after negative t old k sent q = tt
  and_then-after fatal t old k sent q = tt
  and_then-after out_of_fuel t old k sent q = tt

  -- A command that sends and a quiet one after it.
  Reports-after :
      (m : Cmd A) (k : A → Cmd B)
      → Reports (λ _. e) m
      → ((a : A) → Quiet (k a))
      → Reports (λ _. e) (m >>= k)
  unfolding ◌>>=◌
  Reports-after m k sends q = record {
    at = λ s. and_then-after (m s).0 (m s).1 s.sent k (sends.at s) q;
  }

-- What is sent may name the value that is returned in the end.
Reports-pure :
    {A : Type 0} (extra : A → List Sent) (m : Cmd (Unit {0})) (a : A)
    → Reports (λ _. extra a) m
    → Reports extra (m >> pure a)
unfolding ◌>>=◌
Reports-pure extra m a sends = record { at = λ s. named (m s).0 (m s).1 s.sent (sends.at s) }
  where
    named :
        (r : Answer (Unit {0})) (t : Proxy) (old : List Sent)
        → Reported (λ _. extra a) old (r, t)
        → Reported extra old (and_then r t (λ _. pure a))
    named (value _) t old h = h
    named negative t old h = tt
    named fatal t old h = tt
    named out_of_fuel t old h = tt

send-Reports : (m : Sent) → Reports (λ _. m ∷ []) (send m)
send-Reports m = Reports-bind check _ check-Quiet λ _. record { at = λ s. refl }

start_and_resume-Reports : (child : ℕ) → Reports (λ _. pid child ∷ []) (start_and_resume child true)
unfolding start_and_resume
start_and_resume-Reports child =
    Reports-after (pid child ∷ []) (send (pid child)) _ (send-Reports (pid child))
      (λ _. check-Quiet)

module _ (rescale : ℕ → ℕ → ℕ → ℕ) where
  pub run_testcase-Reports : Reports (λ code. status code ∷ []) (run_testcase rescale)
  unfolding run_testcase
  run_testcase-Reports = Reports-bind _ _ (Keeps-gets _) λ mode.
      Reports-bind _ _ (attempts-Quiet 5 mode 0 false) λ r.
        Reports-bind _ _ (hybrid_step-Quiet rescale r.0 r.1) λ _. Reports-bind _ _ mark-Quiet λ _.
          Reports-pure (λ code. status code ∷ []) (send (status r.0)) r.0
            (send-Reports (status r.0))

  module _ (found : Found) (gov_off : Bool) where
    next_testcase-Reports : Reports (λ child. pid child ∷ []) (next_testcase rescale found gov_off)
    unfolding next_testcase
    next_testcase-Reports = Reports-bind _ _ check-Quiet λ _. Reports-bind _ _ check-Quiet λ _.
        Reports-bind _ _ read_pid-Quiet λ handed.
          Reports-bind _ _ (initialize-Quiet rescale found gov_off) λ _.
            Reports-bind _ _ (calibrate_once-Quiet handed) λ did_calibrate.
              Reports-bind _ _ (enable_bb_once-Quiet did_calibrate) λ _.
                Reports-bind _ _
                  (Keeps-if did_calibrate _ _ fork_fresh_child-Quiet (Keeps-pure handed))
                  λ child. Reports-bind _ _ (Keeps-gets _) λ mode.
                    Reports-bind _ _ (Quiet-modify _ (λ s. refl)) λ _.
                      Reports-pure (λ child. pid child ∷ []) (start_and_resume child true) child
                        (start_and_resume-Reports child)

    -- For a test case that is run to its end, afl-fuzz is sent one pid and then one status, and nothing
    -- else: calibration, retries and the passes with branch broadcast are hidden from it. The pid is
    -- the one that __afl_next_testcase returns; the status is that of the last attempt: of the
    -- statuses that the attempts read, the last one, which is not a suspension.
    pub run_testcase-protocol :
        (s : Proxy) (child code : ℕ)
        → (next_testcase rescale found gov_off s).0 ≡ value child
        → (run_testcase rescale (next_testcase rescale found gov_off s).1).0 ≡ value code
        → let t = (next_testcase rescale found gov_off s).1 in
          ((run_testcase rescale t).1.sent ≡ status code ∷ pid child ∷ s.sent)
          × IsLast code t.waits (attempts 5 (current_freq_mode t.cov_type) 0 false t).1.waits
    run_testcase-protocol s child code started ended =
        let first = next_testcase-Reports.at s in
        let (_, t) = next_testcase rescale found gov_off s in
        let second = run_testcase-Reports.at t in
        (
          sent_by (λ c. status c ∷ []) t.sent (run_testcase rescale t) ended second
              ∙ ap (λ l. status code ∷ l)
                  (sent_by (λ c. pid c ∷ []) s.sent (next_testcase rescale found gov_off s) started
                    first),
          run_testcase-IsLast rescale t code ended,
        )
