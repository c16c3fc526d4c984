-- ===== src/Decode/Tests.antt =====
-- Sessions with and without an overflow, and both ends of init_trace.
use coresight_trace.Base.{ℕ, ◌≡◌, refl, true, false, some, List, [], ◌∷◌}
use coresight_trace.Session.Machine.{
  waiting, caller_goes, decoder_goes, caller_step, good, step, run,
}
use coresight_trace.Decode.Dispatch.{
  Decoding, reset_decoder, run_decoder, trace_did_overflow, runs, init_decoder, stalker_setup,
}
use coresight_trace.Decode.Start.{is_negative, init_trace}
use coresight_trace.Decode.Overflow.{trace_did_overflow-overflowed}
use coresight_trace.Decode.Runs.{overflowed, IsInStep}
use coresight_trace.Decode.Started.{machine_of, Started, init_trace-Started}
use coresight_trace.Decode.Unnoticed.{init_trace-unnoticed}
use coresight_trace.Decode.Samples.{
  build, counter-Counts, decoding, tracer, calls, no_thread, left, first_session,
}

abbrev reset : Decoding ℕ
reset = (reset_decoder build false decoding).1

-- Two traces, of which the first has packets.
abbrev traces : List (List ℕ)
traces = (2 ∷ []) ∷ (0 ∷ 9 ∷ []) ∷ []

trace_did_overflow-overflowed_example :
    (trace_did_overflow (runs build traces reset)
      ≡ overflowed build traces reset (runs build traces reset))
    × IsInStep build (runs build traces reset)
unfolding reset_decoder
trace_did_overflow-overflowed_example =
    trace_did_overflow-overflowed build false traces decoding counter-Counts refl refl tt

overflow_is_seen : trace_did_overflow (runs build traces reset) ≡ true
unfolding reset_decoder runs run_decoder
overflow_is_seen = refl

-- The packets of the session before do not count.
no_overflow : trace_did_overflow (runs build ((0 ∷ []) ∷ []) reset) ≡ false
unfolding reset_decoder runs run_decoder
no_overflow = refl

init_trace-Started_example : Started 0 (init_trace build calls true tracer)
init_trace-Started_example = init_trace-Started build calls tracer refl refl

-- CPU 5 is free, and CPU 0 is taken.
free_cpu_is_lost : (init_trace build calls true tracer).1.trace_cpu ≡ some 0
unfolding init_trace init_decoder stalker_setup
free_cpu_is_lost = refl

init_trace-unnoticed_example :
    (is_negative (init_trace build no_thread true tracer).0 ≡ false)
    × ((run true
          (caller_goes true ∷ decoder_goes good true ∷ [])
          (run true first_session (machine_of left))).caller
        ≡ waiting)
unfolding init_trace init_decoder stalker_setup run step caller_step
init_trace-unnoticed_example =
    init_trace-unnoticed build no_thread tracer left 11 true first_session
      (caller_goes true ∷ decoder_goes good true ∷ []) refl refl refl refl
