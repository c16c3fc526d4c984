-- ===== src/Etm/Windows.antt =====
-- What the functions that turn the trace on and off do to all the trace units and to the last sink.
use mathlib.Core.Path.{subst}
use coresight_trace.Base.{ℕ, ◌<◌, ◌≡◌, refl, sym, ◌∙◌, Bool, true, false, List, ◌∷◌, arith}
use coresight_trace.Etm.Csal.{
  TraceUnit, Csal, Call, unit_after, collecting, checkpoint, trace_enable, set_stop_on_flush,
  clear_formatter, sink_etr_setup, sink_enable, sink_etf_setup, hw_fifo_enable, hw_fifo_disable,
}
use coresight_trace.Etm.Commands.{
  Dev, ◌>>◌, when, each, must, no_errors, just, Ensures, Ensures-bind, Ensures-each,
}
use coresight_trace.Etm.Configure.{Settings}
use coresight_trace.Etm.Paths.{set_etr_formatter_bypass, enable_etf, enable_sinks, enable_trace}
use coresight_trace.Etm.Units.{TouchesAll, Ensures-weaken, each-TouchesAll}
use coresight_trace.Etm.Effects.{Started, Ensures-must, Ensures-no_errors, start-Touches}

-- The units are as before, and the last sink collects or not.
pub record Sink (b : Bool) (cs ds : List Call) : Type 0 where
  pub units : (j : ℕ) → unit_after ds j ≡ unit_after cs j
  pub sink : collecting ds ≡ b

-- The units below `n` are related by `R`, and the last sink collects or not.
pub record Window (R : ℕ → TraceUnit → TraceUnit → Type 0) (n : ℕ) (b : Bool) (cs ds : List Call)
    : Type 0 where
  pub at : (j : ℕ) → j < n → R j (unit_after cs j) (unit_after ds j)
  pub sink : collecting ds ≡ b

-- A call that no unit and not the last sink is told of.
pub record Quiet (c : Call) : Type 0 where
  pub units : (cs : List Call) (j : ℕ) → unit_after (c ∷ cs) j ≡ unit_after cs j
  pub sink : (cs : List Call) → collecting (c ∷ cs) ≡ collecting cs

module _ {b : Bool} {cs : List Call} (c : Call) (ds : List Call) (q : Quiet c) where
  pub Sink-quiet : Sink b cs ds → Sink b cs (c ∷ ds)
  Sink-quiet s = record { units = λ j. q.units ds j ∙ s.units j; sink = q.sink ds ∙ s.sink }

  pub Window-quiet :
      (R : ℕ → TraceUnit → TraceUnit → Type 0) (n : ℕ)
      → Window R n b cs ds
      → Window R n b cs (c ∷ ds)
  Window-quiet R n w = record {
    at = λ j lt. subst (λ u. R j (unit_after cs j) u) (sym (q.units ds j)) (w.at j lt);
    sink = q.sink ds ∙ w.sink;
  }

-- A loop over the units after the sinks are done.
pub Sink-TouchesAll :
    (R : ℕ → TraceUnit → TraceUnit → Type 0) (n : ℕ) (b : Bool) (cs ds es : List Call)
    → Sink b cs ds
    → TouchesAll R n ds es
    → Window R n b cs es
Sink-TouchesAll R n b cs ds es s t = record {
  at = λ j lt. subst (λ u. R j u (unit_after es j)) (s.units j) (t.at j lt);
  sink = t.sink ∙ s.sink;
}

-- What follows the loops over the units: a call, and the look at the errors.
pub Window-end :
    (csal : Csal) (c : Call) (q : Quiet c) (R : ℕ → TraceUnit → TraceUnit → Type 0) (n : ℕ)
    (b : Bool) (m : Dev) (cs : List Call)
    → Ensures (Window R n b cs) (m cs)
    → Ensures (Window R n b cs) ((m >> just c >> no_errors csal) cs)
unfolding just
Window-end csal c q R n b m cs h =
    Ensures-bind P P (m >> just c) (no_errors csal) cs
      (Ensures-bind P P m (just c) cs h (λ ds w. Window-quiet c ds q R n w))
      (λ ds w. Ensures-no_errors csal P ds w)
  where
    P : List Call → Type 0
    P = Window R n b cs

-- A loop over the units that follows a command about the sinks.
pub Window-loop :
    (R : ℕ → TraceUnit → TraceUnit → Type 0) (n : ℕ) (b : Bool) (m : Dev) (body : ℕ → Dev)
    (cs : List Call)
    → Ensures (Sink b cs) (m cs)
    → ((ds : List Call) → Ensures (TouchesAll R n ds) (each n 0 body ds))
    → Ensures (Window R n b cs) ((m >> each n 0 body) cs)
Window-loop R n b m body cs h loop =
    Ensures-bind (Sink b cs) (Window R n b cs) m (each n 0 body) cs h (λ ds s.
      Ensures-weaken (TouchesAll R n ds) (Window R n b cs) (each n 0 body ds)
        (λ es t. Sink-TouchesAll R n b cs ds es s t) (loop ds))

pub Quiet-checkpoint : Quiet checkpoint
unfolding unit_after collecting
Quiet-checkpoint = record { units = λ cs j. refl; sink = λ cs. refl }

pub Quiet-set_stop_on_flush : Quiet set_stop_on_flush
unfolding unit_after collecting
Quiet-set_stop_on_flush = record { units = λ cs j. refl; sink = λ cs. refl }

Quiet-sink_etr_setup : Quiet sink_etr_setup
unfolding unit_after collecting
Quiet-sink_etr_setup = record { units = λ cs j. refl; sink = λ cs. refl }

Quiet-clear_formatter : Quiet clear_formatter
unfolding unit_after collecting
Quiet-clear_formatter = record { units = λ cs j. refl; sink = λ cs. refl }

Quiet-sink_etf_setup : (i : ℕ) → Quiet (sink_etf_setup i)
unfolding unit_after collecting
Quiet-sink_etf_setup i = record { units = λ cs j. refl; sink = λ cs. refl }

Quiet-hw_fifo_enable : (i : ℕ) → Quiet (hw_fifo_enable i)
unfolding unit_after collecting
Quiet-hw_fifo_enable i = record { units = λ cs j. refl; sink = λ cs. refl }

pub Quiet-hw_fifo_disable : (i : ℕ) → Quiet (hw_fifo_disable i)
unfolding unit_after collecting
Quiet-hw_fifo_disable i = record { units = λ cs j. refl; sink = λ cs. refl }

module _ (csal : Csal) (settings : Settings) where
  enable_etf-Sink :
      (i : ℕ) (cs ds : List Call)
      → Sink true cs ds
      → Ensures (Sink true cs) (enable_etf csal settings i ds)
  unfolding enable_etf
  enable_etf-Sink i cs ds s =
      Ensures-bind (Sink true cs) (Sink true cs) (must csal (sink_etf_setup i))
        (must csal (hw_fifo_enable i)) ds
        (Ensures-must csal (Sink true cs) (sink_etf_setup i) ds
          (Sink-quiet (sink_etf_setup i) ds (Quiet-sink_etf_setup i) s))
        (λ es t.
          Ensures-must csal (Sink true cs) (hw_fifo_enable i) es
            (Sink-quiet (hw_fifo_enable i) es (Quiet-hw_fifo_enable i) t))

  Sink-on : (cs : List Call) → Sink true cs (sink_enable ∷ sink_etr_setup ∷ cs)
  unfolding unit_after collecting
  Sink-on cs = record { units = λ j. refl; sink = refl }

  bypass-Sink :
      (b : Bool) (cs ds : List Call)
      → Sink true cs ds
      → Ensures (Sink true cs) (when b (set_etr_formatter_bypass csal settings true) ds)
  unfolding set_etr_formatter_bypass
  bypass-Sink true cs ds s =
      Ensures-must csal (Sink true cs) clear_formatter ds
        (Sink-quiet clear_formatter ds Quiet-clear_formatter s)
  bypass-Sink false cs ds s = s

  pub enable_sinks-Sink :
      (n : ℕ) (cs : List Call) → Ensures (Sink true cs) (enable_sinks csal settings n cs)
  unfolding enable_sinks
  enable_sinks-Sink n cs =
      Ensures-bind P P
        (must csal sink_etr_setup
          >> must csal sink_enable
          >> when settings.stalker_decoder (set_etr_formatter_bypass csal settings true))
        (each n 0 (enable_etf csal settings)) cs
        (Ensures-bind P P (must csal sink_etr_setup >> must csal sink_enable)
          (when settings.stalker_decoder (set_etr_formatter_bypass csal settings true)) cs
          (Ensures-bind (λ ds. ds ≡ sink_etr_setup ∷ cs) P (must csal sink_etr_setup)
            (must csal sink_enable) cs
            (Ensures-must csal (λ ds. ds ≡ sink_etr_setup ∷ cs) sink_etr_setup cs refl)
            (λ ds e. Ensures-must csal P sink_enable ds (rw e (Sink-on cs))))
          (λ ds s. bypass-Sink settings.stalker_decoder cs ds s))
        (λ ds s.
          Ensures-each (λ i. P) (enable_etf csal settings) (λ i es t. enable_etf-Sink i cs es t) n 0
            n ds (omega arith) s)
    where
      P : List Call → Type 0
      P = Sink true cs

  pub enable_trace-Window :
      (n sinks : ℕ) (cs : List Call)
      → Ensures (Window (λ i. Started) n true cs) (enable_trace csal settings n sinks cs)
  unfolding enable_trace
  enable_trace-Window n sinks cs =
      Window-end csal checkpoint Quiet-checkpoint (λ i. Started) n true
        (enable_sinks csal settings sinks >> each n 0 (λ i. just (trace_enable i))) cs
        (Window-loop (λ i. Started) n true (enable_sinks csal settings sinks)
          (λ i. just (trace_enable i)) cs (enable_sinks-Sink sinks cs)
          (λ ds. each-TouchesAll (λ i. Started) ds (λ i. just (trace_enable i)) start-Touches n))
