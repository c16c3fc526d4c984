-- ===== src/Etm/Disabled.antt =====
-- disable_cs_trace of src/common.c between the windows of a session.
use coresight_trace.Base.{
  ℕ, zero, suc, ◌<◌, ◌≡◌, refl, sym, ap, ◌∙◌, Bool, true, false, List, Bool-cases, inl, inr,
}
use coresight_trace.Etm.Csal.{TraceUnit, Csal, Call, unit_after}
use coresight_trace.Etm.Commands.{Ensures}
use coresight_trace.Etm.Configure.{Settings}
use coresight_trace.Etm.Paths.{etm_cycled_per_window, disable_trace_sinks_only}
use coresight_trace.Etm.Gate.{Gate, Board, try_disable, disable_cs_trace, trace_disable_trial}
use coresight_trace.Etm.Windows.{Window}
use coresight_trace.Etm.Cycle.{StoppedIf, disable_trace_sinks_only-Window}
use coresight_trace.Etm.Armed.{IsSteady, Grants, after-Grants, bb_of, running_of}

module _ (csal : Csal) (settings : Settings) (board : Board) where
  StoppedIf-keeps_bb : (c : Bool) (u v : TraceUnit) → StoppedIf c u v → v.bb ≡ u.bb
  StoppedIf-keeps_bb true u v s = s.1
  StoppedIf-keeps_bb false u v s = ap bb_of s

  StoppedIf-left_on :
      (c : Bool) (u v : TraceUnit) → c ≡ false → StoppedIf c u v → v.running ≡ u.running
  StoppedIf-left_on true u v e s = cc
  StoppedIf-left_on false u v e s = ap running_of s

  -- What any number of rounds leave: the branch broadcast, and all of a unit that is not cycled.
  abbrev Since : TraceUnit → TraceUnit → Type 0
  Since u v = (v.bb ≡ u.bb) × (etm_cycled_per_window csal settings ≡ false → v.running ≡ u.running)

  try_disable-Since :
      (n : ℕ) (base cs : List Call)
      → ((j : ℕ) → j < board.n_cpu → Since (unit_after base j) (unit_after cs j))
      → Ensures
          (λ ds. (j : ℕ) → j < board.n_cpu → Since (unit_after base j) (unit_after ds j))
          (try_disable n
            (disable_trace_sinks_only csal settings board.n_cpu board.num_trace_sinks)
            cs)
  unfolding try_disable unit_after
  try_disable-Since zero base cs s = tt
  try_disable-Since (suc n) base cs s =
      elim (Bool-cases
        (disable_trace_sinks_only csal settings board.n_cpu board.num_trace_sinks cs).0) [
          | inl done ↦ rw done later
          | inr failed ↦ rw failed (try_disable-Since n base _ later)
        ]
    where
      w :
          Window
            (λ i. StoppedIf (etm_cycled_per_window csal settings))
            board.n_cpu
            false
            cs
            (disable_trace_sinks_only csal settings board.n_cpu board.num_trace_sinks cs).1
      w = disable_trace_sinks_only-Window csal settings board.n_cpu board.num_trace_sinks cs

      later :
          (j : ℕ)
          → j < board.n_cpu
          → Since (unit_after base j) (
              unit_after
                (disable_trace_sinks_only csal settings board.n_cpu board.num_trace_sinks cs).1
                j)
      later j lt = (
        StoppedIf-keeps_bb (etm_cycled_per_window csal settings) (unit_after cs j) _ (w.at j lt)
            ∙ (s j lt).0,
        λ e.
            StoppedIf-left_on (etm_cycled_per_window csal settings) (unit_after cs j) _ e
              (w.at j lt)
            ∙ (s j lt).1 e,
      )

  pub disable_cs_trace-IsSteady :
      (g : Gate)
      → IsSteady csal settings board g
      → Grants (IsSteady csal settings board) (disable_cs_trace csal settings board false g)
  unfolding disable_cs_trace
  disable_cs_trace-IsSteady g steady =
      after-Grants
        (λ ds. (j : ℕ) → j < board.n_cpu → Since (unit_after g.calls j) (unit_after ds j))
        (IsSteady csal settings board) g
        (try_disable trace_disable_trial
          (disable_trace_sinks_only csal settings board.n_cpu board.num_trace_sinks) g.calls)
        (λ ds s. record {
          asked = λ j lt h. steady.asked j lt (sym (s j lt).0 ∙ h);
          fresh = λ j lt e. (s j lt).0 ∙ steady.fresh j lt e;
          agreed = λ j lt e. (s j lt).0 ∙ steady.agreed j lt e;
          left_on = λ j lt e c. (s j lt).1 c ∙ steady.left_on j lt e c;
          synced = steady.synced;
          owned = steady.owned;
        })
        (try_disable-Since trace_disable_trial g.calls g.calls (λ j lt. (refl, λ e. refl)))
