-- ===== src/Proxy/Turns.antt =====
-- Whose turn it is on the pipe to afl-fuzz, over the rounds of `main`, however the calls end.
use coresight_trace.Base.{
  ℕ, zero, suc, ◌≡◌, ◌⊎◌, inl, inr, refl, sym, Bool, true, false, List, [], ◌∷◌,
}
use mathlib.Core.Path.{subst}
use coresight_trace.FreqGov.Governor.Init.{Found}
use coresight_trace.Proxy.State.{
  pid, status, Sent, Proxy, Answer, value, negative, fatal, out_of_fuel, Cmd, and_then, ◌>>=◌, ◌>>◌,
  check, send,
}
use coresight_trace.Proxy.Child.{start_and_resume}
use coresight_trace.Proxy.TestCase.{run_testcase, next_testcase}
use coresight_trace.Proxy.Main.{if_positive, main_loop}
use coresight_trace.Proxy.Keeps.{Keeps-pure, Keeps-gets, Keeps-if}
use coresight_trace.Proxy.Protocol.{Reported, run_testcase-Reports}
use coresight_trace.Proxy.Quiet.{
  Quiet, Quiet-modify, check-Quiet, read_pid-Quiet, fork_fresh_child-Quiet, initialize-Quiet,
  calibrate_once-Quiet, enable_bb_once-Quiet, attempts-Quiet, mark-Quiet, hybrid_step-Quiet,
}

abbrev IsPid : Sent → Type 0
IsPid (pid c) = Unit
IsPid (status c) = ⊥

abbrev IsStatus : Sent → Type 0
IsStatus (pid c) = ⊥
IsStatus (status c) = Unit

-- A command that sends nothing, or one message of a kind, whatever it returns.
abbrev Adds : (Sent → Type 0) → (old new : List Sent) → Type 0
Adds K old new = (new ≡ old) ⊎ ((m : Sent) × K m × (new ≡ m ∷ old))

record SendsOne {A : Type 0} (K : Sent → Type 0) (m : Cmd A) : Type 0 where
  at : (s : Proxy) → Adds K s.sent (m s).1.sent

module _ {A B : Type 0} (K : Sent → Type 0) where
  and_then-before :
      (r : Answer A) (t : Proxy) (old : List Sent) (k : A → Cmd B)
      → t.sent ≡ old
      → ((a : A) → SendsOne K (k a))
      → Adds K old (and_then r t k).1.sent
  and_then-before (value a) t old k same kk =
      subst (λ l. Adds K l (k a t).1.sent) same ((kk a).at t)
  and_then-before negative t old k same kk = inl same
  and_then-before fatal t old k same kk = inl same
  and_then-before out_of_fuel t old k same kk = inl same

  SendsOne-bind :
      (m : Cmd A) (k : A → Cmd B) → Quiet m → ((a : A) → SendsOne K (k a)) → SendsOne K (m >>= k)
  unfolding ◌>>=◌
  SendsOne-bind m k q kk = record { at = λ s. and_then-before (m s).0 (m s).1 s.sent k (q.at s) kk }

  and_then-sent :
      (r : Answer A) (t : Proxy) (k : A → Cmd B)
      → ((a : A) → Quiet (k a))
      → (and_then r t k).1.sent ≡ t.sent
  and_then-sent (value a) t k q = (q a).at t
  and_then-sent negative t k q = refl
  and_then-sent fatal t k q = refl
  and_then-sent out_of_fuel t k q = refl

  SendsOne-after :
      (m : Cmd A) (k : A → Cmd B) → SendsOne K m → ((a : A) → Quiet (k a)) → SendsOne K (m >>= k)
  unfolding ◌>>=◌
  SendsOne-after m k one q = record {
    at = λ s. subst (Adds K s.sent) (sym (and_then-sent (m s).0 (m s).1 k q)) (one.at s);
  }

send-SendsOne : (K : Sent → Type 0) (m : Sent) → K m → SendsOne K (send m)
send-SendsOne K m kind =
    SendsOne-bind K check _ check-Quiet λ _. record { at = λ s. inr (m, kind, refl) }

start_and_resume-SendsOne : (child : ℕ) → SendsOne IsPid (start_and_resume child true)
unfolding start_and_resume
start_and_resume-SendsOne child =
    SendsOne-after IsPid (send (pid child)) _ (send-SendsOne IsPid (pid child) tt)
      (λ _. check-Quiet)

-- Two PIDs have a status between them; the newest message is the first.
abbrev pub IsAnswered : List Sent → Type 0
IsAnswered [] = Unit
IsAnswered (m ∷ ms) = IsStatus m

abbrev pub TakesTurns : List Sent → Type 0
TakesTurns [] = Unit
TakesTurns (pid c ∷ ms) = IsAnswered ms × TakesTurns ms
TakesTurns (status c ∷ ms) = TakesTurns ms

add_pid :
    (old new : List Sent) → IsAnswered old → TakesTurns old → Adds IsPid old new → TakesTurns new
add_pid old new answered turns (inl e) = subst TakesTurns (sym e) turns
add_pid old new answered turns (inr (pid c, kind, e)) = subst TakesTurns (sym e) (answered, turns)
add_pid old new answered turns (inr (status c, kind, e)) = absurd kind

add_status : (old new : List Sent) → TakesTurns old → Adds IsStatus old new → TakesTurns new
add_status old new turns (inl e) = subst TakesTurns (sym e) turns
add_status old new turns (inr (pid c, kind, e)) = absurd kind
add_status old new turns (inr (status c, kind, e)) = subst TakesTurns (sym e) turns

module _ (rescale : ℕ → ℕ → ℕ → ℕ) where
  run_testcase-SendsOne : SendsOne IsStatus (run_testcase rescale)
  unfolding run_testcase
  run_testcase-SendsOne = SendsOne-bind IsStatus _ _ (Keeps-gets _) λ mode.
      SendsOne-bind IsStatus _ _ (attempts-Quiet 5 mode 0 false) λ r.
        SendsOne-bind IsStatus _ _ (hybrid_step-Quiet rescale r.0 r.1) λ _.
          SendsOne-bind IsStatus _ _ mark-Quiet λ _.
            SendsOne-after IsStatus (send (status r.0)) _ (send-SendsOne IsStatus (status r.0) tt)
              (λ _. Keeps-pure r.0)

  module _ (found : Found) (gov_off : Bool) where
    next_testcase-SendsOne : SendsOne IsPid (next_testcase rescale found gov_off)
    unfolding next_testcase
    next_testcase-SendsOne = SendsOne-bind IsPid _ _ check-Quiet λ _.
        SendsOne-bind IsPid _ _ check-Quiet λ _. SendsOne-bind IsPid _ _ read_pid-Quiet λ handed.
          SendsOne-bind IsPid _ _ (initialize-Quiet rescale found gov_off) λ _.
            SendsOne-bind IsPid _ _ (calibrate_once-Quiet handed) λ did_calibrate.
              SendsOne-bind IsPid _ _ (enable_bb_once-Quiet did_calibrate) λ _.
                SendsOne-bind IsPid _ _
                  (Keeps-if did_calibrate _ _ fork_fresh_child-Quiet (Keeps-pure handed))
                  λ child. SendsOne-bind IsPid _ _ (Keeps-gets _) λ mode.
                    SendsOne-bind IsPid _ _ (Quiet-modify _ (λ s. refl)) λ _.
                      SendsOne-after IsPid (start_and_resume child true) _
                        (start_and_resume-SendsOne child) (λ _. Keeps-pure child)

after_run :
    (r : Answer ℕ) (u : Proxy) (old : List Sent) (next : Cmd (Unit {0}))
    → Reported (λ code. status code ∷ []) old (r, u)
    → TakesTurns u.sent
    → ((v : Proxy) → IsAnswered v.sent → TakesTurns v.sent → TakesTurns (next v).1.sent)
    → TakesTurns (and_then r u (λ _. next)).1.sent
after_run (value code) u old next h turns rest = rest u (subst IsAnswered (sym h) tt) turns
after_run negative u old next h turns rest = turns
after_run fatal u old next h turns rest = turns
after_run out_of_fuel u old next h turns rest = turns

after_next :
    (r : Answer ℕ) (t : Proxy) (body : Cmd (Unit {0}))
    → TakesTurns t.sent
    → TakesTurns (body t).1.sent
    → TakesTurns (if_positive r body t).1.sent
after_next (value zero) t body ended turns = ended
after_next (value (suc n)) t body ended turns = turns
after_next negative t body ended turns = turns
after_next fatal t body ended turns = ended
after_next out_of_fuel t body ended turns = ended

-- Over any number of rounds of the loop, and however the calls of the proxy end, also where a failure
-- of __afl_next_testcase does not end the loop: if afl-fuzz has been answered before, and has never
-- been sent two PIDs without a status between them, then it never is.
pub main_loop-TakesTurns :
    (rescale : ℕ → ℕ → ℕ → ℕ) (found : Found) (gov_off : Bool) (rounds : ℕ) (s : Proxy)
    → IsAnswered s.sent
    → TakesTurns s.sent
    → TakesTurns (main_loop rescale found gov_off rounds s).1.sent
unfolding main_loop ◌>>=◌
main_loop-TakesTurns rescale found gov_off zero s answered turns = turns
main_loop-TakesTurns rescale found gov_off (suc n) s answered turns =
    let (r, t) = next_testcase rescale found gov_off s in
    let told : TakesTurns t.sent =
      add_pid s.sent t.sent answered turns ((next_testcase-SendsOne rescale found gov_off).at s) in
    let (q, u) = run_testcase rescale t in
    let done : TakesTurns u.sent =
      add_status t.sent u.sent told ((run_testcase-SendsOne rescale).at t) in
    after_next r t (run_testcase rescale >> main_loop rescale found gov_off n) told (
      after_run q u t.sent (main_loop rescale found gov_off n) ((run_testcase-Reports rescale).at t)
        done
        (λ v answered' turns'. main_loop-TakesTurns rescale found gov_off n v answered' turns'))
