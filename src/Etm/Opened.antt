-- ===== src/Etm/Opened.antt =====
-- How enable_cs_trace of src/common.c opens a window, the first and the next ones.
use coresight_trace.Base.{
  ℕ, ◌<◌, ◌≡◌, refl, sym, ap, ◌∙◌, Bool, true, false, ◌&&◌, List, ltb, Bool-cases, inl, inr,
  if◌then◌else◌, arith,
}
use coresight_trace.Etm.Csal.{Csal, Call, unit_after, collecting}
use coresight_trace.Etm.Commands.{◌>>◌, when, Ensures, Ensures-bind}
use coresight_trace.Etm.Units.{Ensures-weaken}
use coresight_trace.Etm.Range.{low_half}
use coresight_trace.Etm.Configure.{Settings, configure_trace, set_etm_bb_mode}
use coresight_trace.Etm.Paths.{etm_cycled_per_window, enable_trace}
use coresight_trace.Etm.Gate.{Gate, Board, after, restore_bb_mode, names_child}
use coresight_trace.Etm.Effects.{Started, Broadcast}
use coresight_trace.Etm.Windows.{Window, enable_trace-Window}
use coresight_trace.Etm.Cycle.{CycledIf}
use coresight_trace.Etm.Setup.{SetUp, set_etm_bb_mode-Window, configure_trace-Window}
use coresight_trace.Etm.Armed.{Grants, after-Grants, bb_of, running_of, not_set, IsSteady, IsOpen}

module _ (csal : Csal) (settings : Settings) (board : Board) where
  -- After configure_trace and enable_trace, before the mode of branch broadcast is restored.
  pub record IsSetUp (pid : ℕ) (cs ds : List Call) : Type 0 where
    pub running : (j : ℕ) → j < board.n_cpu → (unit_after ds j).running ≡ true
    pub bb : (j : ℕ) → j < board.n_cpu → (unit_after ds j).bb ≡ true → (unit_after cs j).bb ≡ true
    pub cid : (j : ℕ) → j < board.n_cpu → ltb 0 pid ≡ true → (unit_after ds j).cid ≡ low_half pid
    pub sink : collecting ds ≡ true

  pub first-IsSetUp :
      (pid : ℕ) (cs : List Call)
      → Ensures (IsSetUp pid cs) (
          (configure_trace csal settings board.n_cpu board.range pid
              >> enable_trace csal settings board.n_cpu board.num_trace_sinks)
            cs)
  first-IsSetUp pid cs =
      Ensures-bind (Window (λ i. SetUp csal settings pid) board.n_cpu false cs) (IsSetUp pid cs)
        (configure_trace csal settings board.n_cpu board.range pid)
        (enable_trace csal settings board.n_cpu board.num_trace_sinks) cs
        (configure_trace-Window csal settings board.range board.n_cpu pid cs)
        (λ ds w.
          Ensures-weaken (Window (λ i. Started) board.n_cpu true ds) (IsSetUp pid cs)
            (enable_trace csal settings board.n_cpu board.num_trace_sinks ds)
            (λ es v. record {
              running = λ j lt. (v.at j lt).0;
              bb = λ j lt h. (w.at j lt).0 (sym (v.at j lt).1 ∙ h);
              cid = λ j lt named. (v.at j lt).2 ∙ (w.at j lt).1 named;
              sink = v.sink;
            })
            (enable_trace-Window csal settings board.n_cpu board.num_trace_sinks ds))

  -- The statics after the first setup has succeeded.
  abbrev set_up : Gate → List Call → Gate
  set_up g cs = record g { is_first_trace = false; trace_ever_configured = true; calls = cs }

  opened :
      (child_pid : ℕ) (g : Gate) (cs : List Call)
      → ((j : ℕ) → j < board.n_cpu → (unit_after cs j).running ≡ true)
      → ((j : ℕ) → j < board.n_cpu → (unit_after cs j).bb ≡ g.current_bb_mode)
      → ((j : ℕ)
          → j < board.n_cpu
          → settings.pid_filter ≡ true
          → ltb 0 child_pid ≡ true
          → (unit_after cs j).cid ≡ low_half child_pid)
      → (settings.stalker_decoder ≡ true → g.decoder_bb_mode ≡ g.current_bb_mode)
      → collecting cs ≡ true
      → IsOpen csal settings board child_pid (set_up g cs)
  opened child_pid g cs running bb gated synced sink = record {
    steady = record {
      asked = λ j lt h. sym (bb j lt) ∙ h;
      fresh = λ j lt e. cc;
      agreed = λ j lt e. bb j lt;
      left_on = λ j lt e c. running j lt;
      synced = synced;
      owned = λ e. refl;
    };
    armed = record { running = running; bb = bb; gated = gated; decoder = synced; sink = sink };
  }

  -- The mode is put back if it was on; else the setup has left it off.
  restore-IsOpen :
      (pid child_pid : ℕ) (g : Gate) (cs ds : List Call)
      → IsSteady csal settings board (record g { calls = cs })
      → (settings.pid_filter ≡ true → pid ≡ child_pid)
      → IsSetUp pid cs ds
      → (b : Bool) → g.current_bb_mode ≡ b
      → Grants
          (IsOpen csal settings board child_pid)
          (after (set_up g ds) (when b (set_etm_bb_mode csal settings board.n_cpu true) ds))
  restore-IsOpen pid child_pid g cs ds steady names u true e =
      after-Grants (Window (λ i. Broadcast true) board.n_cpu (collecting ds) ds)
        (IsOpen csal settings board child_pid) (set_up g ds)
        (set_etm_bb_mode csal settings board.n_cpu true ds)
        (λ es w.
          opened child_pid g es (λ j lt. (w.at j lt).0) (λ j lt. (w.at j lt).1 ∙ sym e)
            (λ j lt filter named.
              (w.at j lt).2
              ∙ u.cid j lt (ap (ltb 0) (names filter) ∙ named)
              ∙ ap low_half (names filter))
            steady.synced (w.sink ∙ u.sink))
        (set_etm_bb_mode-Window csal settings board.n_cpu true ds)
  restore-IsOpen pid child_pid g cs ds steady names u false e =
      opened child_pid g ds u.running
        (λ j lt.
          not_set (unit_after ds j).bb (λ h. sym e ∙ steady.asked j lt (u.bb j lt h)) ∙ sym e)
        (λ j lt filter named.
          u.cid j lt (ap (ltb 0) (names filter) ∙ named) ∙ ap low_half (names filter))
        steady.synced u.sink

  pub restored :
      (pid child_pid : ℕ) (g : Gate) (cs : List Call)
      → IsSteady csal settings board (record g { calls = cs })
      → (settings.pid_filter ≡ true → pid ≡ child_pid)
      → (r : Bool × List Call) → Ensures (IsSetUp pid cs) r
      → Grants
          (IsOpen csal settings board child_pid)
          (restore_bb_mode csal settings board (after g r))
  restored pid child_pid g cs steady names (false, ds) u = tt
  restored pid child_pid g cs steady names (true, ds) u =
      restore-IsOpen pid child_pid g cs ds steady names u g.current_bb_mode refl

  pub first_pid :
      (pid child_pid : ℕ)
      → settings.pid_filter ≡ true
      → (if names_child csal settings board then child_pid else pid) ≡ child_pid
  first_pid pid child_pid e = elim (Bool-cases settings.stalker_decoder) [
    | inl s ↦ rw s refl
    | inr s ↦ rw (s, e) refl
  ]

  -- The units are ours and nothing else has stopped them.
  pub next-IsOpen :
      (c : Bool) (child_pid : ℕ) (g : Gate) (cs : List Call)
      → etm_cycled_per_window csal settings ≡ c
      → g.is_first_trace ≡ false
      → IsSteady csal settings board g
      → Window
          (λ i. CycledIf c (ltb 0 child_pid && settings.pid_filter) child_pid)
          board.n_cpu
          true
          g.calls
          cs
      → IsOpen csal settings board child_pid (record g { traced_pid = child_pid; calls = cs })
  next-IsOpen true child_pid g cs cycled first steady w = record {
    steady = record {
      asked = λ j lt h. steady.asked j lt (sym (w.at j lt).1 ∙ h);
      fresh = λ j lt e. cc (steady.owned first);
      agreed = λ j lt e. (w.at j lt).1 ∙ steady.agreed j lt first;
      left_on = λ j lt e c. cc;
      synced = steady.synced;
      owned = λ e. steady.owned first;
    };
    armed = record {
      running = λ j lt. (w.at j lt).0;
      bb = λ j lt. (w.at j lt).1 ∙ steady.agreed j lt first;
      gated = λ j lt filter named. (w.at j lt).2 (rw (named, filter) refl);
      decoder = steady.synced;
      sink = w.sink;
    };
  }
  next-IsOpen false child_pid g cs cycled first steady w = record {
    steady = record {
      asked = λ j lt h. steady.asked j lt (sym (ap bb_of (w.at j lt)) ∙ h);
      fresh = λ j lt e. cc (steady.owned first);
      agreed = λ j lt e. ap bb_of (w.at j lt) ∙ steady.agreed j lt first;
      left_on = λ j lt e c. ap running_of (w.at j lt) ∙ steady.left_on j lt first cycled;
      synced = steady.synced;
      owned = λ e. steady.owned first;
    };
    armed = record {
      running = λ j lt. ap running_of (w.at j lt) ∙ steady.left_on j lt first cycled;
      bb = λ j lt. ap bb_of (w.at j lt) ∙ steady.agreed j lt first;
      gated = λ j lt filter named. ground arith;
      decoder = steady.synced;
      sink = w.sink;
    };
  }
