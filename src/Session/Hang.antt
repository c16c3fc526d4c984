-- ===== src/Session/Hang.antt =====
-- What a start that fails late leaves behind: nobody will make the decoder ready again.
use coresight_trace.Base.{◌≡◌, refl, if◌then◌else◌, Bool, true, false, List, [], ◌∷◌, arith}
use coresight_trace.Session.Machine.{
  Shared, Caller, idle, resetting, enabling, unstarted, disabling, stopping, waiting, Decoder,
  awaiting, Outcome, caller_step, reads_suspension, reads_stop, fails_wait, fini, decoder_step,
  Machine, initialised, Action, caller_goes, caller_reads_suspension, caller_reads_stop,
  caller_fails_wait, caller_finishes, decoder_goes, child_dies, step, run,
}
use coresight_trace.Session.Fits.{failures, Fits, initialised-IsTogether}

-- The decoder has nothing to do and says that it is not ready.
abbrev Idle : Shared → Type 0
Idle s = (s.start_pending ≡ false) × (s.fini_pending ≡ false) × (s.decoder_ready ≡ false)

abbrev Stuck : Caller → Decoder → Shared → Type 0
Stuck unstarted awaiting s = Idle s
Stuck disabling awaiting s = Idle s
Stuck stopping awaiting s = Idle s
Stuck waiting awaiting s = Idle s
Stuck _ _ s = ⊥

-- As long as no stop has failed.
abbrev StuckUnless : Caller → Decoder → Shared → Type 0
StuckUnless c d s = s.failed_stops ≡ 0 → Stuck c d s

caller_step-Stuck :
    (c : Caller) (d : Decoder) (ok : Bool) (s : Shared)
    → StuckUnless c d s
    → StuckUnless (caller_step c ok s).0 d (caller_step c ok s).1
unfolding caller_step
caller_step-Stuck waiting awaiting ok s h e = ground arith
caller_step-Stuck c d ok s h e = ground arith

decoder_step-Stuck :
    (threshold : Bool) (c : Caller) (d : Decoder) (o : Outcome) (over : Bool) (s : Shared)
    → StuckUnless c d s
    → StuckUnless c (decoder_step threshold d o over s).0 (decoder_step threshold d o over s).1
unfolding decoder_step
decoder_step-Stuck threshold waiting awaiting o over s h e = ground arith
decoder_step-Stuck threshold c d o over s h e = ground arith

reads_suspension-Stuck :
    (c : Caller) (d : Decoder) (s : Shared)
    → StuckUnless c d s
    → StuckUnless c d (reads_suspension c s)
reads_suspension-Stuck waiting awaiting s h e = h e
reads_suspension-Stuck c d s h e = ground arith

reads_stop-Stuck :
    (c : Caller) (d : Decoder) (s : Shared)
    → StuckUnless c d s
    → StuckUnless (reads_stop c s).0 d (reads_stop c s).1
reads_stop-Stuck waiting awaiting s h e = h e
reads_stop-Stuck c d s h e = ground arith

fails_wait-Stuck :
    (c : Caller) (d : Decoder) (s : Shared)
    → StuckUnless c d s
    → StuckUnless (fails_wait c s).0 d (fails_wait c s).1
fails_wait-Stuck waiting awaiting s h e = h e
fails_wait-Stuck c d s h e = ground arith

fini-Stuck :
    (c : Caller) (d : Decoder) (s : Shared)
    → StuckUnless c d s
    → StuckUnless (fini c s).0 d (fini c s).1
fini-Stuck waiting awaiting s h e = h e
fini-Stuck c d s h e = ground arith

child_dies-Stuck :
    (c : Caller) (d : Decoder) (s : Shared)
    → StuckUnless c d s
    → StuckUnless c d (record s { alive = false })
child_dies-Stuck waiting awaiting s h e = h e
child_dies-Stuck c d s h e = ground arith

abbrev IsStuck : Machine → Type 0
IsStuck m = StuckUnless m.caller m.decoder m.shared

step-IsStuck :
    (threshold : Bool) (a : Action) (m : Machine) → IsStuck m → IsStuck (step threshold a m)
unfolding step
step-IsStuck threshold (caller_goes ok) m h = caller_step-Stuck m.caller m.decoder ok m.shared h
step-IsStuck threshold caller_reads_suspension m h =
    reads_suspension-Stuck m.caller m.decoder m.shared h
step-IsStuck threshold caller_reads_stop m h = reads_stop-Stuck m.caller m.decoder m.shared h
step-IsStuck threshold caller_fails_wait m h = fails_wait-Stuck m.caller m.decoder m.shared h
step-IsStuck threshold caller_finishes m h = fini-Stuck m.caller m.decoder m.shared h
step-IsStuck threshold (decoder_goes o over) m h =
    decoder_step-Stuck threshold m.caller m.decoder o over m.shared h
step-IsStuck threshold child_dies m h = child_dies-Stuck m.caller m.decoder m.shared h

run-IsStuck :
    (threshold : Bool) (actions : List Action) (m : Machine)
    → IsStuck m
    → IsStuck (run threshold actions m)
unfolding run
run-IsStuck threshold [] m h = h
run-IsStuck threshold (a ∷ actions) m h =
    run-IsStuck threshold actions (step threshold a m) (step-IsStuck threshold a m h)

-- A stop that waits, with nobody to wake it, goes on waiting.
record WaitsOn (m : Machine) : Type 0 where
  at : m.caller ≡ waiting
  with_decoder : m.decoder ≡ awaiting
  unheard : Idle m.shared

awaiting_step :
    (threshold : Bool) (d : Decoder) (o : Outcome) (over : Bool) (s : Shared)
    → d ≡ awaiting
    → Idle s
    → decoder_step threshold d o over s ≡ (awaiting, s)
unfolding decoder_step
awaiting_step threshold d o over s e h = rw (e, h.0, h.1) refl

waiting_step :
    (c : Caller) (ok : Bool) (s : Shared)
    → c ≡ waiting
    → s.decoder_ready ≡ false
    → caller_step c ok s ≡ (waiting, s)
unfolding caller_step
waiting_step c ok s e h = rw e (by_ready s.decoder_ready h)
  where
    by_ready :
        (b : Bool)
        → b ≡ false
        → ◌≡◌ {A = Caller × Shared} (if b then (idle, s) else (waiting, s)) (waiting, s)
    by_ready true off = cc
    by_ready false off = refl

step-WaitsOn :
    (threshold : Bool) (a : Action) (m : Machine) → WaitsOn m → WaitsOn (step threshold a m)
unfolding step
step-WaitsOn threshold (caller_goes ok) m h =
    rw (waiting_step m.caller ok m.shared h.at h.unheard.2)
      (record { at = refl; with_decoder = h.with_decoder; unheard = h.unheard })
step-WaitsOn threshold caller_reads_suspension m h =
    rw h.at (record { at = refl; with_decoder = h.with_decoder; unheard = h.unheard })
step-WaitsOn threshold caller_reads_stop m h =
    rw h.at (record { at = refl; with_decoder = h.with_decoder; unheard = h.unheard })
step-WaitsOn threshold caller_fails_wait m h =
    rw h.at (record { at = refl; with_decoder = h.with_decoder; unheard = h.unheard })
step-WaitsOn threshold caller_finishes m h =
    rw h.at (record { at = refl; with_decoder = h.with_decoder; unheard = h.unheard })
step-WaitsOn threshold (decoder_goes o over) m h =
    rw (awaiting_step threshold m.decoder o over m.shared h.with_decoder h.unheard)
      (record { at = h.at; with_decoder = refl; unheard = h.unheard })
step-WaitsOn threshold child_dies m h = record {
  at = h.at;
  with_decoder = h.with_decoder;
  unheard = h.unheard;
}

run-WaitsOn :
    (threshold : Bool) (actions : List Action) (m : Machine)
    → WaitsOn m
    → WaitsOn (run threshold actions m)
unfolding run
run-WaitsOn threshold [] m h = h
run-WaitsOn threshold (a ∷ actions) m h =
    run-WaitsOn threshold actions (step threshold a m) (step-WaitsOn threshold a m h)

Stuck-awaiting :
    (c : Caller) (d : Decoder) (s : Shared) → c ≡ waiting → Stuck c d s → (d ≡ awaiting) × Idle s
Stuck-awaiting waiting awaiting s e h = (refl, h)
Stuck-awaiting c d s e h = ground arith

-- Where a start can fail after it has said that the decoder is not ready.
abbrev pub is_late : Caller → Bool
is_late resetting = true
is_late enabling = true
is_late _ = false

failed-Stuck :
    (c : Caller) (d : Decoder) (s : Shared)
    → is_late c ≡ true
    → Fits c d s
    → Stuck (caller_step c false s).0 d (caller_step c false s).1
unfolding caller_step
failed-Stuck resetting awaiting s late h = ground arith
failed-Stuck c d s late h = ground arith

-- After a start that has failed at its next step.
abbrev pub after_failure : List Action → Machine
after_failure actions = step false (caller_goes false) (run false actions initialised)

-- In the build for the Stalker decoder, a first start that fails at `reset_decoder` or at
-- `enable_cs_trace` leaves the decoder not ready for good: if the stop that follows comes to wait for
-- it, no stop having failed on the way, it waits for ever, whatever the threads do from there.
pub failed_start-hangs :
    (actions later more : List Action)
    → failures (run false actions initialised).shared ≡ 0
    → is_late (run false actions initialised).caller ≡ true
    → (run false later (after_failure actions)).shared.failed_stops ≡ 0
    → (run false later (after_failure actions)).caller ≡ waiting
    → (run false more (run false later (after_failure actions))).caller ≡ waiting
unfolding step
failed_start-hangs actions later more none late unfailed waits =
    let there = run false later (after_failure actions) in
    let (idles, unheard) =
      Stuck-awaiting there.caller there.decoder there.shared waits (stuck unfailed) in
    (run-WaitsOn false more there
      (record { at = waits; with_decoder = idles; unheard = unheard })).at
  where
    stuck : IsStuck (run false later (after_failure actions))
    stuck = run-IsStuck false later (after_failure actions) (λ _.
        failed-Stuck (run false actions initialised).caller (run false actions initialised).decoder
          (run false actions initialised).shared late (initialised-IsTogether actions none))
