-- ===== src/Session/Machine.antt =====
-- start_trace, stop_trace and fini_trace on the thread of the proxy, decoder_worker and
-- trace_sink_polling on the decoder's, src/common.c, with decoding on. A step is what a thread does
-- between two points at which the other one can see it; the order of the steps is any.
use coresight_trace.Base.{ℕ, ◌+◌, Bool, true, false, ◌&&◌, List, [], ◌∷◌, if◌then◌else◌}

pub data TraceState : Type 0 where
  init_state fini_state ready_state running_state suspended_state : TraceState

-- What the threads share, and what the proxy sees. `alive` is whether the child is. The rest count the
-- starts that were signalled, the final decodes that succeed and that fail, the starts that returned
-- an error, and the sessions that end without a stop or with one that returned an error.
pub record Shared : Type 0 where
  pub trace_state : TraceState
  pub start_pending : Bool
  pub suspend_pending : Bool
  pub stop_pending : Bool
  pub fini_pending : Bool
  pub decoder_ready : Bool
  pub alive : Bool
  pub started : ℕ
  pub decoded : ℕ
  pub undecoded : ℕ
  pub failed_starts : ℕ
  pub failed_stops : ℕ

-- Where the proxy's thread stands: between two sessions; in start_trace, at `set_cpu_affinity`, the
-- store to decoder_ready, `reset_decoder`, `enable_cs_trace` and the signal; at the wait for the child,
-- after a start that has succeeded or failed; in stop_trace, at `disable_cs_trace`, the signal and the
-- wait; ended by fini_trace. After an error the proxy ends or, in calibration, goes on to the next
-- session: it is idle.
pub data Caller : Type 0 where
  idle : Caller
  binding publishing resetting enabling signalling : Caller
  running unstarted : Caller
  disabling stopping waiting : Caller
  finished : Caller

-- Where the decoder's thread stands: at the wait for a start; in trace_sink_polling, at the store to
-- decoder_ready, the poll, the wait for a suspension, the drain, the wait for the stop, the last
-- fetch and decode, and the store at its exit; ended.
pub data Decoder : Type 0 where
  awaiting : Decoder
  entering polling suspending draining killed final leaving : Decoder
  ended : Decoder

-- The child of the next session is stopped, and so alive.
abbrev next_session : Shared → Shared
next_session s = record s { alive = true }

abbrev fails : Shared → Caller × Shared
fails s = (unstarted, record s { failed_starts = s.failed_starts + 1 })

abbrev gives_up : Shared → Caller × Shared
gives_up s = (idle, record s { failed_stops = s.failed_stops + 1 })

-- `trace_child_exited_callback`, and on to stop_trace.
abbrev child_exited : Shared → Caller × Shared
child_exited s = (disabling, record s { suspend_pending = true })

-- A step of the proxy's thread; `ok` is whether a call on the way succeeds.
unfoldable pub caller_step : Caller → Bool → Shared → Caller × Shared
caller_step idle ok s = (binding, next_session s)
caller_step binding ok s = if ok then (publishing, s) else fails s
caller_step publishing ok s = (resetting, record s { decoder_ready = false })
caller_step resetting ok s = if ok then (enabling, s) else fails s
caller_step enabling ok s = if ok then (signalling, s) else fails s
caller_step signalling ok s = (
  running,
  record s { trace_state = running_state; start_pending = true; started = s.started + 1 },
)
caller_step running ok s = if s.alive then (running, s) else child_exited s
caller_step unstarted ok s = if s.alive then (unstarted, s) else child_exited s
caller_step disabling ok s =
    if ok then (stopping, record s { trace_state = ready_state }) else gives_up s
caller_step stopping ok s = (waiting, record s { stop_pending = true })
caller_step waiting ok s = if s.decoder_ready then (idle, s) else (waiting, s)
caller_step finished ok s = (finished, s)

-- The proxy reads that the child is suspended.
abbrev pub reads_suspension : Caller → Shared → Shared
reads_suspension running s = record s { trace_state = suspended_state; suspend_pending = true }
reads_suspension unstarted s = record s { trace_state = suspended_state; suspend_pending = true }
reads_suspension _ s = s

-- It reads a stop by another signal, which counts as an exit though the child is alive.
abbrev pub reads_stop : Caller → Shared → Caller × Shared
reads_stop running s = child_exited s
reads_stop unstarted s = child_exited s
reads_stop pc s = (pc, s)

-- The PID cannot be written, SIGCONT cannot be sent, or the status cannot be read.
abbrev pub fails_wait : Caller → Shared → Caller × Shared
fails_wait running s = gives_up s
fails_wait unstarted s = gives_up s
fails_wait pc s = (pc, s)

-- fini_trace, between two sessions.
abbrev pub fini : Caller → Shared → Caller × Shared
fini idle s = (finished, record s { trace_state = fini_state; fini_pending = true })
fini pc s = (pc, s)

-- How the calls of a drain end: well, at a child that is gone, or with an error.
pub data Outcome : Type 0 where
  good gone failed : Outcome

abbrev after_stop : Outcome → Decoder
after_stop good = suspending
after_stop gone = killed
after_stop failed = leaving

abbrev after_drain : Outcome → Decoder
after_drain good = polling
after_drain gone = killed
after_drain failed = leaving

abbrev after_decode : Outcome → Shared → Shared
after_decode good s = record s { decoded = s.decoded + 1 }
after_decode _ s = record s { undecoded = s.undecoded + 1 }

-- A step of the decoder's thread. `threshold` is false in the build for the Stalker decoder, whose
-- threshold is never exceeded; `over` is whether it is now.
unfoldable pub decoder_step : Bool → Decoder → Outcome → Bool → Shared → Decoder × Shared
decoder_step threshold awaiting outcome over s =
    if s.start_pending
    then (entering, record s { start_pending = false })
    else (if s.fini_pending then ended else awaiting, s)
decoder_step threshold entering outcome over s = (polling, record s { decoder_ready = false })
decoder_step threshold polling outcome over s =
    ((if s.alive then if threshold && over then after_stop outcome else polling else killed), s)
decoder_step threshold suspending outcome over s =
    if s.suspend_pending
    then (draining, record s { suspend_pending = false })
    else (if s.fini_pending then draining else suspending, s)
decoder_step threshold draining outcome over s = (after_drain outcome, s)
decoder_step threshold killed outcome over s =
    if s.stop_pending
    then (final, record s { stop_pending = false })
    else (if s.fini_pending then final else killed, s)
decoder_step threshold final outcome over s = (leaving, after_decode outcome s)
decoder_step threshold leaving outcome over s = (awaiting, record s { decoder_ready = true })
decoder_step threshold ended outcome over s = (ended, s)

pub record Machine : Type 0 where
  pub caller : Caller
  pub decoder : Decoder
  pub shared : Shared

-- After init_trace.
abbrev pub initialised : Machine
initialised = record {
  caller = idle;
  decoder = awaiting;
  shared = record {
    trace_state = ready_state;
    start_pending = false;
    suspend_pending = false;
    stop_pending = false;
    fini_pending = false;
    decoder_ready = false;
    alive = false;
    started = 0;
    decoded = 0;
    undecoded = 0;
    failed_starts = 0;
    failed_stops = 0;
  };
}

pub data Action : Type 0 where
  caller_goes : (ok : Bool) → Action
  caller_reads_suspension : Action
  caller_reads_stop : Action
  caller_fails_wait : Action
  caller_finishes : Action
  decoder_goes : Outcome → (over : Bool) → Action
  child_dies : Action

unfoldable pub step : Bool → Action → Machine → Machine
step threshold (caller_goes ok) m =
    let (pc, s) = caller_step m.caller ok m.shared in record m { caller = pc; shared = s }
step threshold caller_reads_suspension m = record m { shared = reads_suspension m.caller m.shared }
step threshold caller_reads_stop m =
    let (pc, s) = reads_stop m.caller m.shared in record m { caller = pc; shared = s }
step threshold caller_fails_wait m =
    let (pc, s) = fails_wait m.caller m.shared in record m { caller = pc; shared = s }
step threshold caller_finishes m =
    let (pc, s) = fini m.caller m.shared in record m { caller = pc; shared = s }
step threshold (decoder_goes outcome over) m =
    let (pc, s) = decoder_step threshold m.decoder outcome over m.shared in
    record m { decoder = pc; shared = s }
step threshold child_dies m = record m { shared = record (m.shared) { alive = false } }

unfoldable pub run : Bool → List Action → Machine → Machine
run threshold [] m = m
run threshold (a ∷ actions) m = run threshold actions (step threshold a m)
