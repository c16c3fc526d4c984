-- ===== src/Decode/Unnoticed.antt =====
-- What follows when init_trace of src/common.c cannot create the thread of the decoder.
use mathlib.Core.Path.{subst}
use coresight_trace.Base.{ℕ, ◌≡◌, refl, ap, Bool, true, false, none, List, [], ◌∷◌, arith}
use coresight_trace.Session.Machine.{
  Shared, Caller, waiting, Decoder, ended, Outcome, caller_step, reads_suspension, reads_stop,
  fails_wait, fini, decoder_step, Machine, Action, caller_goes, caller_reads_suspension,
  caller_reads_stop, caller_fails_wait, caller_finishes, decoder_goes, child_dies, step, run,
}
use coresight_trace.Decode.Backend.{Build}
use coresight_trace.Decode.Start.{Ret, errno, is_negative, Calls, Tracer, init_trace}
use coresight_trace.Decode.Started.{loaded, thread_of, machine_of, Started, init_trace-Started}

-- A decoder that is not there and is not ready.
record IsLost (m : Machine) : Type 0 where
  no_thread : m.decoder ≡ ended
  not_ready : m.shared.decoder_ready ≡ false

caller_step-decoder_ready :
    (c : Caller) (ok : Bool) (s : Shared)
    → s.decoder_ready ≡ false
    → (caller_step c ok s).1.decoder_ready ≡ false
unfolding caller_step
caller_step-decoder_ready waiting ok s h = ground arith
caller_step-decoder_ready c ok s h = ground arith

reads_suspension-decoder_ready :
    (c : Caller) (s : Shared)
    → s.decoder_ready ≡ false
    → (reads_suspension c s).decoder_ready ≡ false
reads_suspension-decoder_ready waiting s h = h
reads_suspension-decoder_ready c s h = ground arith

fini-decoder_ready :
    (c : Caller) (s : Shared) → s.decoder_ready ≡ false → (fini c s).1.decoder_ready ≡ false
fini-decoder_ready waiting s h = h
fini-decoder_ready c s h = ground arith

reads_stop-decoder_ready :
    (c : Caller) (s : Shared) → s.decoder_ready ≡ false → (reads_stop c s).1.decoder_ready ≡ false
reads_stop-decoder_ready waiting s h = h
reads_stop-decoder_ready c s h = ground arith

fails_wait-decoder_ready :
    (c : Caller) (s : Shared) → s.decoder_ready ≡ false → (fails_wait c s).1.decoder_ready ≡ false
fails_wait-decoder_ready waiting s h = h
fails_wait-decoder_ready c s h = ground arith

ended_step :
    (threshold : Bool) (o : Outcome) (over : Bool) (d : Decoder) (s : Shared)
    → d ≡ ended
    → s.decoder_ready ≡ false
    → ((decoder_step threshold d o over s).0 ≡ ended)
      × ((decoder_step threshold d o over s).1.decoder_ready ≡ false)
unfolding decoder_step
ended_step threshold o over d s e h = rw e (refl, h)

step-IsLost : (threshold : Bool) (a : Action) (m : Machine) → IsLost m → IsLost (step threshold a m)
unfolding step
step-IsLost threshold (caller_goes ok) m h = record {
  no_thread = h.no_thread;
  not_ready = caller_step-decoder_ready m.caller ok m.shared h.not_ready;
}
step-IsLost threshold caller_reads_suspension m h = record {
  no_thread = h.no_thread;
  not_ready = reads_suspension-decoder_ready m.caller m.shared h.not_ready;
}
step-IsLost threshold caller_reads_stop m h = record {
  no_thread = h.no_thread;
  not_ready = reads_stop-decoder_ready m.caller m.shared h.not_ready;
}
step-IsLost threshold caller_fails_wait m h = record {
  no_thread = h.no_thread;
  not_ready = fails_wait-decoder_ready m.caller m.shared h.not_ready;
}
step-IsLost threshold caller_finishes m h = record {
  no_thread = h.no_thread;
  not_ready = fini-decoder_ready m.caller m.shared h.not_ready;
}
step-IsLost threshold (decoder_goes o over) m h =
    let (gone, unready) = ended_step threshold o over m.decoder m.shared h.no_thread h.not_ready in
    record { no_thread = gone; not_ready = unready }
step-IsLost threshold child_dies m h = record { no_thread = h.no_thread; not_ready = h.not_ready }

run-IsLost :
    (threshold : Bool) (actions : List Action) (m : Machine)
    → IsLost m
    → IsLost (run threshold actions m)
unfolding run
run-IsLost threshold [] m h = h
run-IsLost threshold (a ∷ actions) m h =
    run-IsLost threshold actions (step threshold a m) (step-IsLost threshold a m h)

still_waits :
    (threshold : Bool) (a : Action) (m : Machine)
    → m.caller ≡ waiting
    → IsLost m
    → (step threshold a m).caller ≡ waiting
unfolding step caller_step
still_waits threshold (caller_goes ok) m e h = rw (e, h.not_ready) refl
still_waits threshold caller_reads_suspension m e h = e
still_waits threshold caller_reads_stop m e h = rw e refl
still_waits threshold caller_fails_wait m e h = rw e refl
still_waits threshold caller_finishes m e h = rw e refl
still_waits threshold (decoder_goes o over) m e h = e
still_waits threshold child_dies m e h = e

run-waits :
    (threshold : Bool) (actions : List Action) (m : Machine)
    → m.caller ≡ waiting
    → IsLost m
    → (run threshold actions m).caller ≡ waiting
unfolding run
run-waits threshold [] m e h = e
run-waits threshold (a ∷ actions) m e h =
    run-waits threshold actions (step threshold a m) (still_waits threshold a m e h)
      (step-IsLost threshold a m h)

errno-IsLost :
    {D : Type 0} (n k : ℕ) (r : Ret × Tracer D) (u : Tracer D)
    → Started n r
    → r ≡ (errno k, u)
    → IsLost (machine_of u)
errno-IsLost n k r u h e =
    let (shared, unmade, shut) = subst (Started n) e h in
    record { no_thread = ap thread_of unmade; not_ready = ap (λ s. s.decoder_ready) shared }

-- What init_trace returns when pthread_create fails is not negative, so that the caller, which tests
-- for that, goes on; and then the first stop_trace that comes to wait for the decoder waits for ever,
-- whatever the threads do.
pub init_trace-unnoticed :
    {D : Type 0} (build : Build D) (w : Calls) (t u : Tracer D) (k : ℕ) (threshold : Bool)
    (actions later : List Action)
    → t.shared ≡ loaded
    → t.decoder_thread ≡ none
    → init_trace build w true t ≡ (errno k, u)
    → (run threshold actions (machine_of u)).caller ≡ waiting
    → (is_negative (init_trace build w true t).0 ≡ false)
      × ((run threshold later (run threshold actions (machine_of u))).caller ≡ waiting)
init_trace-unnoticed build w t u k threshold actions later fresh unmade failed waits =
    let lost : IsLost (machine_of u) =
      errno-IsLost t.shutdowns k (init_trace build w true t) u
        (init_trace-Started build w t fresh unmade) failed in
    (
      ap (λ r. is_negative r.0) failed,
      run-waits threshold later (run threshold actions (machine_of u)) waits
          (run-IsLost threshold actions (machine_of u) lost),
    )
