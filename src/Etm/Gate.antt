-- ===== src/Etm/Gate.antt =====
-- enable_cs_trace, disable_cs_trace and trace_set_bb_mode of src/common.c over the programming of
-- the devices. The calls made so far are kept with the statics.
use coresight_trace.Base.{ℕ, zero, suc, Bool, true, false, ◌||◌, List, [], ◌∷◌, if◌then◌else◌}
use coresight_trace.Maps.Select.{MapInfo}
use coresight_trace.Etm.Csal.{Csal, Call, reset_error_count, shutdown}
use coresight_trace.Etm.Commands.{Dev, ◌>>◌, when}
use coresight_trace.Etm.Configure.{Settings, configure_trace, set_etm_bb_mode}
use coresight_trace.Etm.Paths.{
  enable_trace, enable_trace_sinks_only, disable_trace, disable_trace_sinks_only,
}

pub record Gate : Type 0 where
  pub is_first_trace : Bool
  pub trace_ever_configured : Bool
  pub current_bb_mode : Bool
  pub traced_pid : ℕ
  pub decoder_bb_mode : Bool  -- the Stalker decoder's own
  pub calls : List Call

abbrev pub initial : Gate
initial = record {
  is_first_trace = true;
  trace_ever_configured = false;
  current_bb_mode = false;
  traced_pid = 0;
  decoder_bb_mode = false;
  calls = [];
}

pub record Board : Type 0 where
  pub n_cpu : ℕ
  pub num_trace_sinks : ℕ
  pub range : List MapInfo

abbrev pub trace_disable_trial : ℕ
trace_disable_trial = 8

-- At most `n` rounds, until one returns 0.
unfoldable pub try_disable : ℕ → Dev → Dev
try_disable zero disable cs = (false, cs)
try_disable (suc n) disable cs =
    let again = try_disable n disable (reset_error_count ∷ (disable cs).1) in
    if (disable cs).0 then (true, (disable cs).1) else again

-- The result of a command goes into the statics.
abbrev pub after : Gate → Bool × List Call → Bool × Gate
after g (ok, cs) = (ok, record g { calls = cs })

abbrev pub or_shutdown : Bool × Gate → Bool × Gate
or_shutdown (true, g) = (true, g)
or_shutdown (false, g) = (false, record g { calls = shutdown ∷ g.calls })

module _ (csal : Csal) (settings : Settings) (board : Board) where
  open settings use {stalker_decoder, pid_filter}
  open board use {n_cpu, num_trace_sinks, range}

  abbrev pub restore_bb_mode : Bool × Gate → Bool × Gate
  restore_bb_mode (false, g) = (false, g)
  restore_bb_mode (true, g) =
      let g' = record g { is_first_trace = false; trace_ever_configured = true } in
      after g' (when g.current_bb_mode (set_etm_bb_mode csal settings n_cpu true) g.calls)

  -- The PID goes into the comparators only with the Stalker decoder or the filter.
  abbrev pub names_child : Bool
  names_child = stalker_decoder || pid_filter

  unfoldable pub enable_first : (pid child_pid : ℕ) → Gate → Bool × Gate
  enable_first pid child_pid g =
      let g' = record g { traced_pid = if names_child then child_pid else g.traced_pid } in
      restore_bb_mode (
        after g' (
          (configure_trace csal settings n_cpu range (if names_child then child_pid else pid)
              >> enable_trace csal settings n_cpu num_trace_sinks)
            g.calls))

  unfoldable pub enable_next : (child_pid : ℕ) → Gate → Bool × Gate
  enable_next child_pid g =
      after (record g { traced_pid = child_pid })
        (enable_trace_sinks_only csal settings n_cpu num_trace_sinks child_pid g.calls)

  unfoldable pub enable_cs_trace : (pid child_pid : ℕ) → Gate → Bool × Gate
  enable_cs_trace pid child_pid g =
      or_shutdown
        (if g.is_first_trace then enable_first pid child_pid g else enable_next child_pid g)

  unfoldable pub disable_cs_trace : Bool → Gate → Bool × Gate
  disable_cs_trace disable_all g = after g (
      try_disable trace_disable_trial
        (if disable_all
          then disable_trace csal settings n_cpu num_trace_sinks
          else disable_trace_sinks_only csal settings n_cpu num_trace_sinks)
        g.calls)

  unfoldable pub trace_set_bb_mode : Bool → Gate → Bool × Gate
  trace_set_bb_mode bb_mode g =
      after
        (record g {
          current_bb_mode = bb_mode;
          is_first_trace = true;
          decoder_bb_mode = if stalker_decoder then bb_mode else g.decoder_bb_mode;
        })
        (when g.trace_ever_configured (set_etm_bb_mode csal settings n_cpu bb_mode) g.calls)

-- One call of the interface: of start_trace, stop_trace(false) or the proxy.
pub data GateCall : Type 0 where
  enables : (pid child_pid : ℕ) → GateCall
  disables : GateCall
  sets_bb_mode : Bool → GateCall

module _ (csal : Csal) (settings : Settings) (board : Board) where
  abbrev pub gate_call : GateCall → Gate → Bool × Gate
  gate_call (enables pid child_pid) g = enable_cs_trace csal settings board pid child_pid g
  gate_call disables g = disable_cs_trace csal settings board false g
  gate_call (sets_bb_mode bb_mode) g = trace_set_bb_mode csal settings board bb_mode g

  abbrev pub go_on_calls : Bool × Gate → (Gate → Bool × Gate) → Bool × Gate
  go_on_calls (true, g) next = next g
  go_on_calls (false, g) next = (false, g)

  -- Calls one after the other, as long as each returns 0.
  unfoldable pub gate_calls : List GateCall → Gate → Bool × Gate
  gate_calls [] g = (true, g)
  gate_calls (k ∷ ks) g = go_on_calls (gate_call k g) (gate_calls ks)
