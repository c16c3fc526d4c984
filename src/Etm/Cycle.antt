-- ===== src/Etm/Cycle.antt =====
-- The sinks-only pair of src/config.c around a window.
use mathlib.Core.Path.{subst}
use coresight_trace.Base.{ℕ, ◌≡◌, refl, sym, Bool, true, false, ◌&&◌, List, ◌∷◌, ltb, arith}
use coresight_trace.Etm.Csal.{
  TraceUnit, Csal, Call, unit_after, collecting, disable_tpiu, checkpoint, trace_disable,
  flush_and_wait, sink_disable, hw_fifo_disable,
}
use coresight_trace.Etm.Commands.{
  Dev, return_0, ◌>>◌, when, each, just, Ensures, Ensures-bind, Ensures-each, Succeeds-bind,
  Succeeds-when, Succeeds-each, Ensures-calls, calls-no_errors,
}
use coresight_trace.Etm.Configure.{Settings}
use coresight_trace.Etm.Paths.{
  etm_cycled_per_window, enable_sinks, cycle_etm, enable_trace_sinks_only, disable_trace_sinks_only,
}
use coresight_trace.Etm.Units.{each-TouchesAll}
use coresight_trace.Etm.Effects.{Stopped, Cycled, stop-Touches, cycle_etm-Touches}
use coresight_trace.Etm.Windows.{
  Sink, Window, Quiet, Sink-quiet, Window-quiet, Window-end, Window-loop, Quiet-checkpoint,
  Quiet-hw_fifo_disable, enable_sinks-Sink,
}

-- A unit around a window: it is cycled if the units are, and else left alone.
abbrev pub CycledIf : Bool → Bool → ℕ → TraceUnit → TraceUnit → Type 0
CycledIf true named pid u v = Cycled named pid u v
CycledIf false named pid u v = v ≡ u

abbrev pub StoppedIf : Bool → TraceUnit → TraceUnit → Type 0
StoppedIf true u v = Stopped u v
StoppedIf false u v = v ≡ u

Quiet-flush_and_wait : Quiet flush_and_wait
unfolding unit_after collecting
Quiet-flush_and_wait = record { units = λ cs j. refl; sink = λ cs. refl }

Quiet-disable_tpiu : Quiet disable_tpiu
unfolding unit_after collecting
Quiet-disable_tpiu = record { units = λ cs j. refl; sink = λ cs. refl }

Window-disable :
    (R : ℕ → TraceUnit → TraceUnit → Type 0) (n : ℕ) (b : Bool) (cs ds : List Call)
    → Window R n b cs ds
    → Window R n false cs (sink_disable ∷ ds)
unfolding unit_after collecting
Window-disable R n b cs ds w = record { at = λ j lt. w.at j lt; sink = refl }

Sink-keep : (cs : List Call) → Sink (collecting cs) cs cs
Sink-keep cs = record { units = λ j. refl; sink = refl }

Sink-Window :
    (R : ℕ → TraceUnit → TraceUnit → Type 0) (n : ℕ) (b : Bool) (cs ds : List Call)
    → ((i : ℕ) (u : TraceUnit) → R i u u)
    → Sink b cs ds
    → Window R n b cs ds
Sink-Window R n b cs ds r s = record {
  at = λ j lt. subst (λ u. R j (unit_after cs j) u) (sym (s.units j)) (r j (unit_after cs j));
  sink = s.sink;
}

module _ (csal : Csal) (settings : Settings) where
  cycle-Window :
      (c : Bool) (n t : ℕ) (m : Dev) (cs : List Call)
      → Ensures (Sink true cs) (m cs)
      → Ensures
          (Window (λ i. CycledIf c (ltb 0 t && settings.pid_filter) t) n true cs)
          ((m >> when c (each n 0 (cycle_etm csal settings t))) cs)
  cycle-Window true n t m cs h =
      Window-loop (λ i. Cycled (ltb 0 t && settings.pid_filter) t) n true m
        (cycle_etm csal settings t) cs h
        (λ ds.
          each-TouchesAll (λ i. Cycled (ltb 0 t && settings.pid_filter) t) ds
            (cycle_etm csal settings t) (cycle_etm-Touches csal settings t) n)
  cycle-Window false n t m cs h =
      Ensures-bind (Sink true cs) (Window (λ i u v. v ≡ u) n true cs) m return_0 cs h
        (λ ds s. Sink-Window (λ i u v. v ≡ u) n true cs ds (λ i u. refl) s)

  pub enable_trace_sinks_only-Window :
      (n sinks t : ℕ) (cs : List Call)
      → Ensures
          (Window
            (λ i. CycledIf (etm_cycled_per_window csal settings) (ltb 0 t && settings.pid_filter) t)
            n
            true
            cs)
          (enable_trace_sinks_only csal settings n sinks t cs)
  unfolding enable_trace_sinks_only
  enable_trace_sinks_only-Window n sinks t cs =
      Window-end csal checkpoint Quiet-checkpoint
        (λ i. CycledIf (etm_cycled_per_window csal settings) (ltb 0 t && settings.pid_filter) t) n
        true
        (enable_sinks csal settings sinks
          >> when (etm_cycled_per_window csal settings) (each n 0 (cycle_etm csal settings t)))
        cs
        (cycle-Window (etm_cycled_per_window csal settings) n t (enable_sinks csal settings sinks)
          cs (enable_sinks-Sink csal settings sinks cs))

  stop-Window :
      (c : Bool) (n : ℕ) (cs : List Call)
      → Ensures
          (Window (λ i. StoppedIf c) n (collecting cs) cs)
          ((just flush_and_wait >> when c (each n 0 (λ i. just (trace_disable i)))) cs)
  unfolding just
  stop-Window true n cs =
      Window-loop (λ i. Stopped) n (collecting cs) (just flush_and_wait)
        (λ i. just (trace_disable i)) cs
        (Sink-quiet flush_and_wait cs Quiet-flush_and_wait (Sink-keep cs))
        (λ ds. each-TouchesAll (λ i. Stopped) ds (λ i. just (trace_disable i)) stop-Touches n)
  stop-Window false n cs =
      Ensures-bind (Sink (collecting cs) cs) (Window (λ i u v. v ≡ u) n (collecting cs) cs)
        (just flush_and_wait) return_0 cs
        (Sink-quiet flush_and_wait cs Quiet-flush_and_wait (Sink-keep cs))
        (λ ds s. Sink-Window (λ i u v. v ≡ u) n (collecting cs) cs ds (λ i u. refl) s)

  -- The commands of disable_trace_sinks_only, before its look at the errors.
  abbrev pub turn_off : (n_cpu num_trace_sinks : ℕ) → Dev
  turn_off n sinks =
      just flush_and_wait
      >> when (etm_cycled_per_window csal settings) (each n 0 (λ i. just (trace_disable i)))
      >> each sinks 0 (λ i. just (hw_fifo_disable i))
      >> just sink_disable

  turn_off-Ensures :
      (n sinks : ℕ) (cs : List Call)
      → Ensures
          (Window (λ i. StoppedIf (etm_cycled_per_window csal settings)) n false cs)
          (turn_off n sinks cs)
  unfolding just
  turn_off-Ensures n sinks cs =
      Ensures-bind P Q
        (just flush_and_wait
          >> when (etm_cycled_per_window csal settings) (each n 0 (λ i. just (trace_disable i)))
          >> each sinks 0 (λ i. just (hw_fifo_disable i)))
        (just sink_disable) cs
        (Ensures-bind P P
          (just flush_and_wait
            >> when (etm_cycled_per_window csal settings) (each n 0 (λ i. just (trace_disable i))))
          (each sinks 0 (λ i. just (hw_fifo_disable i))) cs
          (stop-Window (etm_cycled_per_window csal settings) n cs)
          (λ ds w.
            Ensures-each (λ i. P) (λ i. just (hw_fifo_disable i))
              (λ i es v.
                Window-quiet (hw_fifo_disable i) es (Quiet-hw_fifo_disable i)
                  (λ i. StoppedIf (etm_cycled_per_window csal settings)) n v)
              sinks 0 sinks ds (omega arith) w))
        (λ ds w.
          Window-disable (λ i. StoppedIf (etm_cycled_per_window csal settings)) n (collecting cs) cs
            ds w)
    where
      P : List Call → Type 0
      P = Window (λ i. StoppedIf (etm_cycled_per_window csal settings)) n (collecting cs) cs

      Q : List Call → Type 0
      Q = Window (λ i. StoppedIf (etm_cycled_per_window csal settings)) n false cs

  -- No call on the way is looked at, so all of them are made.
  turn_off_all : (n sinks : ℕ) (cs : List Call) → (turn_off n sinks cs).0 ≡ true
  unfolding just
  turn_off_all n sinks cs =
      Succeeds-bind
        (just flush_and_wait
          >> when (etm_cycled_per_window csal settings) (each n 0 (λ i. just (trace_disable i)))
          >> each sinks 0 (λ i. just (hw_fifo_disable i)))
        (just sink_disable) cs
        (Succeeds-bind
          (just flush_and_wait
            >> when (etm_cycled_per_window csal settings) (each n 0 (λ i. just (trace_disable i))))
          (each sinks 0 (λ i. just (hw_fifo_disable i))) cs
          (Succeeds-bind (just flush_and_wait)
            (when (etm_cycled_per_window csal settings) (each n 0 (λ i. just (trace_disable i)))) cs
            refl
            (λ ds.
              Succeeds-when (etm_cycled_per_window csal settings)
                (each n 0 (λ i. just (trace_disable i))) ds (Succeeds-each trace_disable n 0 ds)))
          (λ ds. Succeeds-each hw_fifo_disable sinks 0 ds))
        (λ ds. refl)

  -- Whatever is returned, the units are stopped if they are cycled, and the last sink is off.
  pub disable_trace_sinks_only-Window :
      (n sinks : ℕ) (cs : List Call)
      → Window
          (λ i. StoppedIf (etm_cycled_per_window csal settings))
          n
          false
          cs
          (disable_trace_sinks_only csal settings n sinks cs).1
  unfolding disable_trace_sinks_only
  disable_trace_sinks_only-Window n sinks cs =
      subst (λ ds. Window (λ i. StoppedIf (etm_cycled_per_window csal settings)) n false cs ds)
        (sym (calls-no_errors csal (turn_off n sinks) cs (turn_off_all n sinks cs)))
        (Ensures-calls (Window (λ i. StoppedIf (etm_cycled_per_window csal settings)) n false cs)
          (turn_off n sinks cs) (turn_off_all n sinks cs) (turn_off-Ensures n sinks cs))
