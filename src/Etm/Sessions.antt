-- ===== src/Etm/Sessions.antt =====
-- Any sequence of the calls that the proxy makes of a trace session's hardware.
use mathlib.Core.Path.{subst}
use coresight_trace.Base.{
  ℕ, ◌≡◌, refl, sym, ap, ◌∙◌, Bool, true, false, ◌&&◌, List, [], ◌∷◌, ltb, if◌then◌else◌,
}
use coresight_trace.Etm.Csal.{Csal, collecting}
use coresight_trace.Etm.Commands.{when}
use coresight_trace.Etm.Configure.{Settings, set_etm_bb_mode}
use coresight_trace.Etm.Paths.{etm_cycled_per_window, enable_trace_sinks_only}
use coresight_trace.Etm.Gate.{
  Gate, Board, initial, after, names_child, enable_first, enable_next, or_shutdown, enable_cs_trace,
  trace_set_bb_mode, GateCall, enables, disables, sets_bb_mode, gate_call, go_on_calls, gate_calls,
}
use coresight_trace.Etm.Effects.{Broadcast}
use coresight_trace.Etm.Windows.{Window}
use coresight_trace.Etm.Cycle.{CycledIf, enable_trace_sinks_only-Window}
use coresight_trace.Etm.Setup.{set_etm_bb_mode-Window}
use coresight_trace.Etm.Armed.{IsSteady, IsArmed, IsOpen, Grants, after-Grants, initial-IsSteady}
use coresight_trace.Etm.Opened.{first-IsSetUp, restored, first_pid, next-IsOpen}
use coresight_trace.Etm.Disabled.{disable_cs_trace-IsSteady}

module _ (csal : Csal) (settings : Settings) (board : Board) where
  or_shutdown-Grants : (P : Gate → Type 0) (r : Bool × Gate) → Grants P r → Grants P (or_shutdown r)
  or_shutdown-Grants P (true, g) p = p
  or_shutdown-Grants P (false, g) p = tt

  enable_cs_trace-IsOpen :
      (pid child_pid : ℕ) (g : Gate)
      → IsSteady csal settings board g
      → Grants
          (IsOpen csal settings board child_pid)
          (enable_cs_trace csal settings board pid child_pid g)
  unfolding enable_cs_trace enable_first enable_next
  enable_cs_trace-IsOpen pid child_pid g steady =
      or_shutdown-Grants Q
        (if g.is_first_trace
          then enable_first csal settings board pid child_pid g
          else enable_next csal settings board child_pid g)
        (by_first g.is_first_trace refl)
    where
      Q : Gate → Type 0
      Q = IsOpen csal settings board child_pid

      by_first :
          (b : Bool)
          → g.is_first_trace ≡ b
          → Grants Q (
              if b
              then enable_first csal settings board pid child_pid g
              else enable_next csal settings board child_pid g)
      by_first true e =
          restored csal settings board (if names_child csal settings board then child_pid else pid)
            child_pid
            (record g {
              traced_pid = if names_child csal settings board then child_pid else g.traced_pid;
            })
            g.calls
            (record {
              asked = steady.asked;
              fresh = steady.fresh;
              agreed = steady.agreed;
              left_on = steady.left_on;
              synced = steady.synced;
              owned = steady.owned;
            })
            (first_pid csal settings board pid child_pid) _
            (first-IsSetUp csal settings board
              (if names_child csal settings board then child_pid else pid) g.calls)
      by_first false e =
          after-Grants
            (Window
              (λ i.
                CycledIf (etm_cycled_per_window csal settings)
                  (ltb 0 child_pid && settings.pid_filter) child_pid)
              board.n_cpu true g.calls)
            Q (record g { traced_pid = child_pid })
            (enable_trace_sinks_only csal settings board.n_cpu board.num_trace_sinks child_pid
              g.calls)
            (λ cs w.
              next-IsOpen csal settings board (etm_cycled_per_window csal settings) child_pid g cs
                refl e steady w)
            (enable_trace_sinks_only-Window csal settings board.n_cpu board.num_trace_sinks
              child_pid g.calls)

  trace_set_bb_mode-IsSteady :
      (b : Bool) (g : Gate)
      → IsSteady csal settings board g
      → Grants (IsSteady csal settings board) (trace_set_bb_mode csal settings board b g)
  unfolding trace_set_bb_mode
  trace_set_bb_mode-IsSteady b g steady = by_owner g.trace_ever_configured refl
    where
      g' : Gate
      g' = record g {
        current_bb_mode = b;
        is_first_trace = true;
        decoder_bb_mode = if settings.stalker_decoder then b else g.decoder_bb_mode;
      }

      synced :
          settings.stalker_decoder ≡ true
          → (if settings.stalker_decoder then b else g.decoder_bb_mode) ≡ b
      synced e = rw e refl

      by_owner :
          (o : Bool)
          → g.trace_ever_configured ≡ o
          → Grants
              (IsSteady csal settings board)
              (after g' (when o (set_etm_bb_mode csal settings board.n_cpu b) g.calls))
      by_owner true e =
          after-Grants (Window (λ i. Broadcast b) board.n_cpu (collecting g.calls) g.calls)
            (IsSteady csal settings board) g' (set_etm_bb_mode csal settings board.n_cpu b g.calls)
            (λ cs w. record {
              asked = λ j lt h. sym (w.at j lt).1 ∙ h;
              fresh = λ j lt f. cc;
              agreed = λ j lt f. cc;
              left_on = λ j lt f c. cc;
              synced = synced;
              owned = λ f. cc;
            })
            (set_etm_bb_mode-Window csal settings board.n_cpu b g.calls)
      by_owner false e = record {
        asked = λ j lt h. cc (steady.fresh j lt e);
        fresh = λ j lt f. steady.fresh j lt e;
        agreed = λ j lt f. cc;
        left_on = λ j lt f c. cc;
        synced = synced;
        owned = λ f. cc;
      }

  IsOpen-IsSteady :
      (child_pid : ℕ) (r : Bool × Gate)
      → Grants (IsOpen csal settings board child_pid) r
      → Grants (IsSteady csal settings board) r
  IsOpen-IsSteady child_pid (true, g) o = o.steady
  IsOpen-IsSteady child_pid (false, g) o = tt

  gate_call-IsSteady :
      (k : GateCall) (g : Gate)
      → IsSteady csal settings board g
      → Grants (IsSteady csal settings board) (gate_call csal settings board k g)
  gate_call-IsSteady (enables pid child_pid) g steady =
      IsOpen-IsSteady child_pid (enable_cs_trace csal settings board pid child_pid g)
        (enable_cs_trace-IsOpen pid child_pid g steady)
  gate_call-IsSteady disables g steady = disable_cs_trace-IsSteady csal settings board g steady
  gate_call-IsSteady (sets_bb_mode b) g steady = trace_set_bb_mode-IsSteady b g steady

  gate_calls-IsSteady :
      (ks : List GateCall) (g : Gate)
      → IsSteady csal settings board g
      → Grants (IsSteady csal settings board) (gate_calls csal settings board ks g)
  unfolding gate_calls
  gate_calls-IsSteady [] g steady = steady
  gate_calls-IsSteady (k ∷ ks) g steady =
      by_result (gate_call csal settings board k g) (gate_call-IsSteady k g steady)
        (gate_calls-IsSteady ks)
    where
      by_result :
          (r : Bool × Gate)
          → Grants (IsSteady csal settings board) r
          → ((h : Gate)
              → IsSteady csal settings board h
              → Grants (IsSteady csal settings board) (gate_calls csal settings board ks h))
          → Grants
              (IsSteady csal settings board)
              (go_on_calls csal settings board r (gate_calls csal settings board ks))
      by_result (true, h) s rest = rest h s
      by_result (false, h) s rest = tt

granted : (P : Gate → Type 0) (r : Bool × Gate) (g : Gate) → Grants P r → r ≡ (true, g) → P g
granted P (true, h) g p e = subst P (ap (λ (q : Bool × Gate). q.1) e) p
granted P (false, h) g p e = cc (ap (λ (q : Bool × Gate). q.0) e)

-- After any calls of the proxy that all return 0, an enable that returns 0 has the whole board
-- armed: every unit was last told to run, and broadcasts branches exactly if that was asked for last;
-- with the filter its comparator holds the PID of the child. The Stalker decoder is in that mode of
-- branch broadcast, and the last sink collects. This holds in
-- both builds, for every board and whatever the library answers.
pub enable_cs_trace-IsArmed :
    (csal : Csal) (settings : Settings) (board : Board) (ks : List GateCall) (pid child_pid : ℕ)
    (g h : Gate)
    → gate_calls csal settings board ks initial ≡ (true, g)
    → enable_cs_trace csal settings board pid child_pid g ≡ (true, h)
    → IsArmed csal settings board child_pid h
enable_cs_trace-IsArmed csal settings board ks pid child_pid g h before enabled =
    let steady =
      granted (IsSteady csal settings board) (gate_calls csal settings board ks initial) g
        (gate_calls-IsSteady csal settings board ks initial (initial-IsSteady csal settings board))
        before in
    let opened =
      granted (IsOpen csal settings board child_pid)
        (enable_cs_trace csal settings board pid child_pid g) h
        (enable_cs_trace-IsOpen csal settings board pid child_pid g steady) enabled in
    opened.armed
