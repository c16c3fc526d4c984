-- ===== src/Session/Fits.antt =====
-- Where the threads can stand together in the build for the Stalker decoder, if no start and no stop has failed.
use coresight_trace.Base.{ℕ, ◌+◌, ◌≡◌, refl, ◌⊎◌, Bool, true, false, List, [], ◌∷◌, arith}
use coresight_trace.Session.Machine.{
  Shared, Caller, idle, binding, publishing, resetting, enabling, signalling, running, disabling,
  stopping, waiting, finished, Decoder, awaiting, entering, polling, killed, final, leaving,
  Outcome, caller_step, reads_suspension, reads_stop, fails_wait, fini, decoder_step, Machine,
  initialised, Action, caller_goes, caller_reads_suspension, caller_reads_stop, caller_fails_wait,
  caller_finishes, decoder_goes, child_dies, step, run,
}

-- The starts and the stops that have failed.
abbrev pub failures : Shared → ℕ
failures s = s.failed_starts + s.failed_stops

-- The events that are pending, whether the decoder says that it is ready, and the decodes that are due.
abbrev Pending : (start stop ready : Bool) → ℕ → Shared → Type 0
Pending start stop ready due s =
    (s.start_pending ≡ start)
    × (s.stop_pending ≡ stop)
    × (s.decoder_ready ≡ ready)
    × (s.fini_pending ≡ false)
    × (s.started ≡ s.decoded + s.undecoded + due)

-- Between two sessions, when the decoder may say anything.
abbrev Rested : Shared → Type 0
Rested s =
    (s.start_pending ≡ false)
    × (s.stop_pending ≡ false)
    × (s.fini_pending ≡ false)
    × (s.started ≡ s.decoded + s.undecoded)

-- A session in which the stop has not been signalled, by where the decoder stands.
abbrev Busy : Decoder → Shared → Type 0
Busy awaiting s = Pending true false false 1 s
Busy entering s = Pending false false false 1 s
Busy polling s = Pending false false false 1 s
Busy killed s = Pending false false false 1 s
Busy _ s = ⊥

-- The stop has been signalled.
abbrev Stopping : Decoder → Shared → Type 0
Stopping awaiting s = Pending true true false 1 s ⊎ Pending false false true 0 s
Stopping entering s = Pending false true false 1 s
Stopping polling s = Pending false true false 1 s
Stopping killed s = Pending false true false 1 s
Stopping final s = Pending false false false 1 s
Stopping leaving s = Pending false false false 0 s
Stopping _ s = ⊥

abbrev pub Fits : Caller → Decoder → Shared → Type 0
Fits idle awaiting s = Rested s
Fits binding awaiting s = Rested s
Fits publishing awaiting s = Rested s
Fits resetting awaiting s = Pending false false false 0 s
Fits enabling awaiting s = Pending false false false 0 s
Fits signalling awaiting s = Pending false false false 0 s
Fits running d s = Busy d s
Fits disabling d s = Busy d s
Fits stopping d s = Busy d s
Fits waiting d s = Stopping d s
Fits finished d s = Unit
Fits _ _ s = ⊥

pub caller_step-Fits :
    (c : Caller) (d : Decoder) (ok : Bool) (s : Shared)
    → (failures s ≡ 0 → Fits c d s)
    → failures (caller_step c ok s).1 ≡ 0
    → Fits (caller_step c ok s).0 d (caller_step c ok s).1
unfolding caller_step
caller_step-Fits idle awaiting ok s h e = ground arith
caller_step-Fits c d ok s h e = ground arith

pub decoder_step-Fits :
    (c : Caller) (d : Decoder) (outcome : Outcome) (over : Bool) (s : Shared)
    → (failures s ≡ 0 → Fits c d s)
    → failures (decoder_step false d outcome over s).1 ≡ 0
    → Fits c (decoder_step false d outcome over s).0 (decoder_step false d outcome over s).1
unfolding decoder_step
decoder_step-Fits idle awaiting outcome over s h e = ground arith
decoder_step-Fits c d outcome over s h e = ground arith

pub reads_suspension-Fits :
    (c : Caller) (d : Decoder) (s : Shared)
    → (failures s ≡ 0 → Fits c d s)
    → failures (reads_suspension c s) ≡ 0
    → Fits c d (reads_suspension c s)
reads_suspension-Fits idle awaiting s h e = h e
reads_suspension-Fits c d s h e = ground arith

pub fini-Fits :
    (c : Caller) (d : Decoder) (s : Shared)
    → (failures s ≡ 0 → Fits c d s)
    → failures (fini c s).1 ≡ 0
    → Fits (fini c s).0 d (fini c s).1
fini-Fits idle awaiting s h e = tt
fini-Fits c d s h e = ground arith

pub reads_stop-Fits :
    (c : Caller) (d : Decoder) (s : Shared)
    → (failures s ≡ 0 → Fits c d s)
    → failures (reads_stop c s).1 ≡ 0
    → Fits (reads_stop c s).0 d (reads_stop c s).1
reads_stop-Fits idle awaiting s h e = h e
reads_stop-Fits c d s h e = ground arith

pub fails_wait-Fits :
    (c : Caller) (d : Decoder) (s : Shared)
    → (failures s ≡ 0 → Fits c d s)
    → failures (fails_wait c s).1 ≡ 0
    → Fits (fails_wait c s).0 d (fails_wait c s).1
fails_wait-Fits idle awaiting s h e = h e
fails_wait-Fits c d s h e = ground arith

pub child_dies-Fits :
    (c : Caller) (d : Decoder) (s : Shared)
    → (failures s ≡ 0 → Fits c d s)
    → failures s ≡ 0
    → Fits c d (record s { alive = false })
child_dies-Fits idle awaiting s h e = h e
child_dies-Fits c d s h e = ground arith

-- The threads stand together as they can, as long as no start and no stop has failed.
abbrev pub IsTogether : Machine → Type 0
IsTogether m = failures m.shared ≡ 0 → Fits m.caller m.decoder m.shared

step-IsTogether : (a : Action) (m : Machine) → IsTogether m → IsTogether (step false a m)
unfolding step
step-IsTogether (caller_goes ok) m h = caller_step-Fits m.caller m.decoder ok m.shared h
step-IsTogether caller_reads_suspension m h = reads_suspension-Fits m.caller m.decoder m.shared h
step-IsTogether caller_reads_stop m h = reads_stop-Fits m.caller m.decoder m.shared h
step-IsTogether caller_fails_wait m h = fails_wait-Fits m.caller m.decoder m.shared h
step-IsTogether caller_finishes m h = fini-Fits m.caller m.decoder m.shared h
step-IsTogether (decoder_goes outcome over) m h =
    decoder_step-Fits m.caller m.decoder outcome over m.shared h
step-IsTogether child_dies m h = child_dies-Fits m.caller m.decoder m.shared h

run-IsTogether :
    (actions : List Action) (m : Machine) → IsTogether m → IsTogether (run false actions m)
unfolding run
run-IsTogether [] m h = h
run-IsTogether (a ∷ actions) m h = run-IsTogether actions (step false a m) (step-IsTogether a m h)

pub initialised-IsTogether : (actions : List Action) → IsTogether (run false actions initialised)
initialised-IsTogether actions = run-IsTogether actions initialised (λ e. (refl, refl, refl, refl))
