-- ===== src/Proxy/Last.antt =====
-- Which status a test case ends with: of the waits that the attempts use up, the last one's.
use mathlib.Core.Path.{subst}
use coresight_trace.Base.{
  ℕ, zero, suc, ◌≡◌, inl, inr, refl, sym, ap, ◌∙◌, Bool, true, false, ◌&&◌, set, List, [], ◌∷◌,
  Bool-cases, if◌then◌else◌,
}
use coresight_trace.FreqGov.Governor.{
  FreqMode, freq_gov_should_retry, freq_gov_restore_max, freq_gov_on_result,
}
use coresight_trace.Proxy.State.{
  Wait, is_suspended, Proxy, Answer, value, negative, fatal, out_of_fuel, Cmd, pure, and_then,
  ◌>>=◌, ◌>>◌, modify, check,
}
use coresight_trace.Proxy.Child.{
  wait_until, wait_for_child_and_stop_trace, count_exec, current_freq_mode,
}
use coresight_trace.Proxy.TestCase.{
  forced_due, attempt, attempts, hybrid_step, run_testcase, end_testcase,
}
use coresight_trace.Proxy.Keeps.{Keeps-gets}
use coresight_trace.Proxy.Waits.{
  KeepsWaits-govern, KeepsWaits-modify, check-KeepsWaits, IsLast, IsLast-after, Follows, ReadsLast,
  Following, Lasts, Following-bind, next_attempt-Following,
}

-- What the wait reads, with the status that it returns.
abbrev WaitedFor : List Wait → Answer ℕ × Proxy → Type 0
WaitedFor old (value code, t) = IsLast code old t.waits
WaitedFor old (negative, t) = Unit
WaitedFor old (fatal, t) = Unit
WaitedFor old (out_of_fuel, t) = Unit

WaitedFor-cons :
    (w : Wait) (ws : List Wait) (r : Answer ℕ × Proxy) → WaitedFor ws r → WaitedFor (w ∷ ws) r
WaitedFor-cons w ws (value code, t) h = IsLast-after code (w ∷ ws) ws t.waits [] w refl h
WaitedFor-cons w ws (negative, t) h = tt
WaitedFor-cons w ws (fatal, t) h = tt
WaitedFor-cons w ws (out_of_fuel, t) h = tt

wait_until-WaitedFor : (ws : List Wait) (s : Proxy) → WaitedFor ws (wait_until ws s)
unfolding wait_until
wait_until-WaitedFor [] s = tt
wait_until-WaitedFor (w ∷ ws) s = elim (Bool-cases (is_suspended w.code)) [
  | inl more ↦ rw more (WaitedFor-cons w ws (wait_until ws s) (wait_until-WaitedFor ws s))
  | inr done ↦ rw done ([], w, refl, refl, done)
]

and_then-ReadsLast :
    (r : Answer ℕ) (t : Proxy) (old : List Wait) (k : ℕ → Cmd (ℕ × Bool))
    → WaitedFor old (r, t)
    → ((code : ℕ) → Following code (k code))
    → ReadsLast old (and_then r t k)
and_then-ReadsLast (value code) t old k h kk = by_rest (k code t) ((kk code).at t)
  where
    by_rest : (r : Answer (ℕ × Bool) × Proxy) → Follows code t.waits r → ReadsLast old r
    by_rest (value r, u) (inl (c, same)) =
        subst (λ l. IsLast r.0 old l) (sym same) (subst (λ x. IsLast x old t.waits) (sym c) h)
    by_rest (value r, u) (inr later) =
        let (used, w, e, _, _) = h in IsLast-after r.0 old t.waits u.waits used w e later
    by_rest (negative, u) f = tt
    by_rest (fatal, u) f = tt
    by_rest (out_of_fuel, u) f = tt
and_then-ReadsLast negative t old k h kk = tt
and_then-ReadsLast fatal t old k h kk = tt
and_then-ReadsLast out_of_fuel t old k h kk = tt

-- `stop_trace` after the wait, and the rest of the attempt.
and_then-WaitedFor :
    (r : Answer ℕ) (t : Proxy) (old : List Wait)
    → WaitedFor old (r, t)
    → WaitedFor old (and_then r t (λ code. check >> pure code))
unfolding ◌>>=◌
and_then-WaitedFor (value code) t old h = checked (check t).0 (check t).1 (check-KeepsWaits.at t)
  where
    checked :
        (r : Answer (Unit {0})) (u : Proxy)
        → u.waits ≡ t.waits
        → WaitedFor old (and_then r u (λ _. pure code))
    checked (value _) u same = subst (λ l. IsLast code old l) (sym same) h
    checked negative u same = tt
    checked fatal u same = tt
    checked out_of_fuel u same = tt
and_then-WaitedFor negative t old h = tt
and_then-WaitedFor fatal t old h = tt
and_then-WaitedFor out_of_fuel t old h = tt

wait-WaitedFor : (s : Proxy) → WaitedFor s.waits (wait_for_child_and_stop_trace s)
unfolding wait_for_child_and_stop_trace ◌>>=◌
wait-WaitedFor s =
    and_then-WaitedFor (wait_until s.waits s).0 (wait_until s.waits s).1 s.waits
      (wait_until-WaitedFor s.waits s)

attempt-Lasts :
    (mode : FreqMode) (reps : ℕ) (forced : Bool) (again last : Cmd (ℕ × Bool))
    → Lasts again
    → Lasts last
    → Lasts (attempt mode reps forced again last)
unfolding attempt ◌>>=◌
attempt-Lasts mode reps forced again last la ll = record {
  at = λ s.
      and_then-ReadsLast (wait_for_child_and_stop_trace s).0 (wait_for_child_and_stop_trace s).1
        s.waits _ (wait-WaitedFor s)
        λ code. Following-bind code _ _ (KeepsWaits-govern freq_gov_restore_max) λ _.
          Following-bind code _ _ (Keeps-gets (λ s. s.decoding_on && s.did_overflow)) λ o.
            Following-bind code _ _ (KeepsWaits-modify (count_exec o) (λ s. refl)) λ _.
              Following-bind code _ _ (Keeps-gets (λ s. freq_gov_should_retry mode o reps s.gov))
                λ again'.
                  Following-bind code _ _ (KeepsWaits-govern (freq_gov_on_result mode o)) λ _.
                    Following-bind code _ _ (Keeps-gets (λ s. forced_due mode o reps forced s.gov))
                      λ due. next_attempt-Following mode again' due again last code o la ll;
}

attempts-Lasts :
    (fuel : ℕ) (mode : FreqMode) (reps : ℕ) (forced : Bool) → Lasts (attempts fuel mode reps forced)
unfolding attempts
attempts-Lasts zero mode reps forced = record { at = λ s. tt }
attempts-Lasts (suc fuel) mode reps forced =
    let l =
      attempt-Lasts mode reps forced (attempts fuel mode (suc reps) forced)
        (attempts fuel mode reps true) (attempts-Lasts fuel mode (suc reps) forced)
        (attempts-Lasts fuel mode reps true) in
    record { at = l.at }

-- A command that, if it returns a value, returns `code`.
abbrev IsReturned : ℕ → Answer ℕ × Proxy → Type 0
IsReturned code (value c, t) = c ≡ code
IsReturned code (negative, t) = Unit
IsReturned code (fatal, t) = Unit
IsReturned code (out_of_fuel, t) = Unit

record Returns (code : ℕ) (m : Cmd ℕ) : Type 0 where
  at : (s : Proxy) → IsReturned code (m s)

module _ {A : Type 0} (code : ℕ) where
  and_then-IsReturned :
      (r : Answer A) (t : Proxy) (k : A → Cmd ℕ)
      → ((a : A) → Returns code (k a))
      → IsReturned code (and_then r t k)
  and_then-IsReturned (value a) t k kk = (kk a).at t
  and_then-IsReturned negative t k kk = tt
  and_then-IsReturned fatal t k kk = tt
  and_then-IsReturned out_of_fuel t k kk = tt

  Returns-bind :
      (m : Cmd A) (k : A → Cmd ℕ) → ((a : A) → Returns code (k a)) → Returns code (m >>= k)
  unfolding ◌>>=◌
  Returns-bind m k kk = record { at = λ s. and_then-IsReturned (m s).0 (m s).1 k kk }

abbrev value_or : ℕ → Answer ℕ → ℕ
value_or d (value a) = a
value_or d _ = d

value_is : (code c : ℕ) (r : Answer ℕ × Proxy) → IsReturned c r → r.0 ≡ value code → c ≡ code
value_is code c (value d, t) h e = sym h ∙ ap (value_or 0) e
value_is code c (negative, t) h e = cc
value_is code c (fatal, t) h e = cc
value_is code c (out_of_fuel, t) h e = cc

-- What comes after the attempts returns their status.
after_attempts :
    (code : ℕ) (old : List Wait) (r : Answer (ℕ × Bool)) (u : Proxy) (k : ℕ × Bool → Cmd ℕ)
    → ReadsLast old (r, u)
    → ((p : ℕ × Bool) → Returns p.0 (k p))
    → (and_then r u k).0 ≡ value code
    → IsLast code old u.waits
after_attempts code old (value p) u k h kk e =
    subst (λ c. IsLast c old u.waits) (value_is code p.0 (k p u) ((kk p).at u) e) h
after_attempts code old negative u k h kk e = cc
after_attempts code old fatal u k h kk e = cc
after_attempts code old out_of_fuel u k h kk e = cc

-- The rest of `run_testcase`.
abbrev ending : (ℕ → ℕ → ℕ → ℕ) → ℕ × Bool → Cmd ℕ
ending rescale (code, overflowed) = do
  hybrid_step rescale code overflowed
  modify (λ s. if s.decoding_on then s else record s { trace_bitmap = set s.trace_bitmap 0 1 })
  end_testcase code
  pure code

ending-Returns : (rescale : ℕ → ℕ → ℕ → ℕ) (p : ℕ × Bool) → Returns p.0 (ending rescale p)
ending-Returns rescale p =
    Returns-bind p.0 _ _
      λ _. Returns-bind p.0 _ _ λ _. Returns-bind p.0 _ _ λ _. record { at = λ s. refl }

pub run_testcase-IsLast :
    (rescale : ℕ → ℕ → ℕ → ℕ) (s : Proxy) (code : ℕ)
    → (run_testcase rescale s).0 ≡ value code
    → IsLast code s.waits (attempts 5 (current_freq_mode s.cov_type) 0 false s).1.waits
unfolding run_testcase ◌>>=◌
run_testcase-IsLast rescale s code e =
    let mode = current_freq_mode s.cov_type in
    after_attempts code s.waits (attempts 5 mode 0 false s).0 (attempts 5 mode 0 false s).1
      (ending rescale) ((attempts-Lasts 5 mode 0 false).at s) (ending-Returns rescale) e
