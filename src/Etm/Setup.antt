-- ===== src/Etm/Setup.antt =====
-- set_etm_bb_mode and configure_trace of src/config.c, over all the trace units.
use coresight_trace.Base.{ℕ, ◌≡◌, refl, ◌∙◌, Bool, true, false, List, ◌∷◌, ltb}
use coresight_trace.Maps.Select.{MapInfo}
use coresight_trace.Etm.Csal.{
  TraceUnit, Csal, Call, unit_after, collecting, disable_tpiu, checkpoint, set_stop_on_flush,
  sink_disable,
}
use coresight_trace.Etm.Commands.{◌>>◌, each, no_errors, just, Ensures, Ensures-bind}
use coresight_trace.Etm.Range.{low_half}
use coresight_trace.Etm.Configure.{
  Settings, init_cpu, configure_cpu, configure_trace, set_etm_bb, set_etm_bb_mode,
}
use coresight_trace.Etm.Units.{TouchesAll, Ensures-weaken, each-TouchesAll}
use coresight_trace.Etm.Effects.{Broadcast, Ensures-no_errors, set_etm_bb-Touches}
use coresight_trace.Etm.Programming.{
  Initialised, Configured, init_cpu-Touches, configure_cpu-Touches,
}
use coresight_trace.Etm.Windows.{
  Sink, Window, Window-quiet, Window-end, Window-loop, Quiet-checkpoint, Quiet-set_stop_on_flush,
}

module _ (csal : Csal) (settings : Settings) where
  pub set_etm_bb_mode-Window :
      (n : ℕ) (b : Bool) (cs : List Call)
      → Ensures
          (Window (λ i. Broadcast b) n (collecting cs) cs)
          (set_etm_bb_mode csal settings n b cs)
  unfolding set_etm_bb_mode
  set_etm_bb_mode-Window n b cs =
      Ensures-bind P P (each n 0 (set_etm_bb csal settings b)) (no_errors csal) cs
        (Ensures-weaken (TouchesAll (λ i. Broadcast b) n cs) P
          (each n 0 (set_etm_bb csal settings b) cs) (λ ds t. record { at = t.at; sink = t.sink })
          (each-TouchesAll (λ i. Broadcast b) cs (set_etm_bb csal settings b)
            (set_etm_bb-Touches csal settings b) n))
        (λ ds w. Ensures-no_errors csal P ds w)
    where
      P : List Call → Type 0
      P = Window (λ i. Broadcast b) n (collecting cs) cs

  -- A unit that has been set up for a PID, if there is one to match.
  abbrev pub SetUp : ℕ → TraceUnit → TraceUnit → Type 0
  SetUp pid u v = (v.bb ≡ true → u.bb ≡ true) × (ltb 0 pid ≡ true → v.cid ≡ low_half pid)

  prepared : (cs : List Call) → Sink false cs (sink_disable ∷ disable_tpiu ∷ cs)
  unfolding unit_after collecting
  prepared cs = record { units = λ j. refl; sink = refl }

  Configured-SetUp :
      (range : List MapInfo) (n pid : ℕ) (cs ds es : List Call)
      → Window (Initialised csal settings) n false cs ds
      → TouchesAll (Configured csal settings pid) n ds es
      → Window (λ i. SetUp pid) n false cs es
  Configured-SetUp range n pid cs ds es w t = record {
    at = λ j lt. (
      λ h. (w.at j lt).0 ((t.at j lt).0 h),
      λ named. (t.at j lt).1 (csal.etmv4_or_later-is_etmv4 j (w.at j lt).1) named,
    );
    sink = t.sink ∙ w.sink;
  }

  pub configure_trace-Window :
      (range : List MapInfo) (n pid : ℕ) (cs : List Call)
      → Ensures (Window (λ i. SetUp pid) n false cs) (configure_trace csal settings n range pid cs)
  unfolding configure_trace just
  configure_trace-Window range n pid cs =
      Window-end csal set_stop_on_flush Quiet-set_stop_on_flush (λ i. SetUp pid) n false
        (just disable_tpiu
          >> just sink_disable
          >> each n 0 (init_cpu csal settings)
          >> just checkpoint
          >> each n 0 (configure_cpu csal settings range pid))
        cs
        (Ensures-bind P (Window (λ i. SetUp pid) n false cs)
          (just disable_tpiu
            >> just sink_disable
            >> each n 0 (init_cpu csal settings)
            >> just checkpoint)
          (each n 0 (configure_cpu csal settings range pid)) cs
          (Ensures-bind P P
            (just disable_tpiu >> just sink_disable >> each n 0 (init_cpu csal settings))
            (just checkpoint) cs
            (Window-loop (Initialised csal settings) n false
              (just disable_tpiu >> just sink_disable) (init_cpu csal settings) cs
              (Ensures-bind (λ ds. ds ≡ disable_tpiu ∷ cs) (Sink false cs) (just disable_tpiu)
                (just sink_disable) cs refl (λ ds e. rw e (prepared cs)))
              (λ ds.
                each-TouchesAll (Initialised csal settings) ds (init_cpu csal settings)
                  (init_cpu-Touches csal settings) n))
            (λ ds w. Window-quiet checkpoint ds Quiet-checkpoint (Initialised csal settings) n w))
          (λ ds w.
            Ensures-weaken (TouchesAll (Configured csal settings pid) n ds)
              (Window (λ i. SetUp pid) n false cs)
              (each n 0 (configure_cpu csal settings range pid) ds)
              (λ es t. Configured-SetUp range n pid cs ds es w t)
              (each-TouchesAll (Configured csal settings pid) ds
                (configure_cpu csal settings range pid)
                (configure_cpu-Touches csal settings range pid) n)))
    where
      P : List Call → Type 0
      P = Window (Initialised csal settings) n false cs
