-- ===== src/Session/Tests.antt =====
-- Two sessions one after the other, the second with a child that dies before the decoder looks.
use coresight_trace.Base.{◌≡◌, refl, true, false, List, [], ◌∷◌, ◌++◌, arith}
use coresight_trace.Session.Machine.{
  idle, waiting, good, gone, failed, caller_step, decoder_step, initialised, Action, caller_goes,
  caller_reads_stop, decoder_goes, child_dies, step, run,
}
use coresight_trace.Session.Progress.{decoder_alone, stop_trace-returns}
use coresight_trace.Session.Hang.{failed_start-hangs}

abbrev go : Action
go = caller_goes true

abbrev decode : Action
decode = decoder_goes good false

-- idle to running
abbrev start_trace : List Action
start_trace = go ∷ go ∷ go ∷ go ∷ go ∷ go ∷ []

-- running to waiting
abbrev stop_trace : List Action
stop_trace = go ∷ go ∷ go ∷ []

abbrev decode_all : List Action
decode_all = decode ∷ decode ∷ decode ∷ decode ∷ decode ∷ decode ∷ []

abbrev first_session : List Action
first_session = start_trace ++ (decode ∷ child_dies ∷ stop_trace ++ decode_all)

abbrev second_waits : List Action
second_waits = first_session ++ (go ∷ start_trace ++ (child_dies ∷ stop_trace))

stop_trace-returns_example :
    (step false (caller_goes true) (
      run false
        (decoder_alone (good ∷ good ∷ gone ∷ good ∷ failed ∷ good ∷ []))
        (run false second_waits initialised))).caller
    ≡ idle
unfolding run step caller_step decoder_step
stop_trace-returns_example =
    stop_trace-returns second_waits (good ∷ good ∷ gone ∷ good ∷ failed ∷ good ∷ []) refl refl refl
      (omega arith)

-- A stop that does not wait for long enough is still waiting.
too_early : (run false (go ∷ []) (run false second_waits initialised)).caller ≡ waiting
unfolding run step caller_step decoder_step
too_early = refl

abbrev at_enable : List Action
at_enable = go ∷ go ∷ go ∷ go ∷ []

abbrev stops : List Action
stops = child_dies ∷ stop_trace

failed_start-hangs_example :
    (run false decode_all
      (run false stops (step false (caller_goes false) (run false at_enable initialised)))).caller
    ≡ waiting
unfolding run step caller_step decoder_step
failed_start-hangs_example = failed_start-hangs at_enable stops decode_all refl refl refl refl

-- After a stop by another signal the child is alive: the stop waits, and the decoder polls.
stopped_child :
    (run false
      (start_trace ++ (decode ∷ caller_reads_stop ∷ go ∷ go ∷ decode_all ++ (go ∷ [])))
      initialised).caller
    ≡ waiting
unfolding run step caller_step decoder_step
stopped_child = refl
