-- ===== src/Etm/Paths.antt =====
-- The ways to turn the trace on and off, src/config.c.
use coresight_trace.Base.{ℕ, ◌%◌, ◌^◌, Bool, true, ◌&&◌, ◌||◌, ltb}
use coresight_trace.Etm.Csal.{
  Csal, checkpoint, write_cidcvr_l, write_cidcvr_h, trace_enable, trace_disable, flush_and_wait,
  clear_formatter, sink_etr_setup, sink_enable, sink_disable, sink_etf_setup, hw_fifo_enable,
  hw_fifo_disable,
}
use coresight_trace.Etm.Commands.{Dev, ◌>>◌, when, each, must, no_errors, just}
use coresight_trace.Etm.Configure.{Settings}

module _ (csal : Csal) (settings : Settings) where
  open settings use {stalker_decoder, pid_filter}

  abbrev pub etm_cycled_per_window : Bool
  etm_cycled_per_window = stalker_decoder || pid_filter

  unfoldable pub set_etr_formatter_bypass : Bool → Dev
  set_etr_formatter_bypass disable_formatter = when disable_formatter (must csal clear_formatter)

  unfoldable pub enable_etf : ℕ → Dev
  enable_etf i = must csal (sink_etf_setup i) >> must csal (hw_fifo_enable i)

  -- What the two ways to enable begin with.
  unfoldable pub enable_sinks : ℕ → Dev
  enable_sinks num_trace_sinks =
      must csal sink_etr_setup
      >> must csal sink_enable
      >> when stalker_decoder (set_etr_formatter_bypass true)
      >> each num_trace_sinks 0 enable_etf

  unfoldable pub enable_trace : (n_cpu num_trace_sinks : ℕ) → Dev
  enable_trace n_cpu num_trace_sinks =
      enable_sinks num_trace_sinks
      >> each n_cpu 0 (λ i. just (trace_enable i))
      >> just checkpoint
      >> no_errors csal

  -- The PID of the child into the comparator, and the unit runs.
  unfoldable pub cycle_etm : ℕ → ℕ → Dev
  cycle_etm traced_pid i =
      when (ltb 0 traced_pid && pid_filter)
        (just (write_cidcvr_l i (traced_pid % 2 ^ 32)) >> just (write_cidcvr_h i 0))
      >> just (trace_enable i)

  unfoldable pub enable_trace_sinks_only : (n_cpu num_trace_sinks traced_pid : ℕ) → Dev
  enable_trace_sinks_only n_cpu num_trace_sinks traced_pid =
      enable_sinks num_trace_sinks
      >> when etm_cycled_per_window (each n_cpu 0 (cycle_etm traced_pid))
      >> just checkpoint
      >> no_errors csal

  unfoldable pub disable_trace : (n_cpu num_trace_sinks : ℕ) → Dev
  disable_trace n_cpu num_trace_sinks =
      just flush_and_wait
      >> each n_cpu 0 (λ i. just (trace_disable i))
      >> each num_trace_sinks 0 (λ i. just (hw_fifo_disable i))
      >> just sink_disable
      >> no_errors csal

  unfoldable pub disable_trace_sinks_only : (n_cpu num_trace_sinks : ℕ) → Dev
  disable_trace_sinks_only n_cpu num_trace_sinks =
      just flush_and_wait
      >> when etm_cycled_per_window (each n_cpu 0 (λ i. just (trace_disable i)))
      >> each num_trace_sinks 0 (λ i. just (hw_fifo_disable i))
      >> just sink_disable
      >> no_errors csal
