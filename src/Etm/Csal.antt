-- ===== src/Etm/Csal.antt =====
-- The calls of the CSAL library that src/config.c makes. The library is a parameter: what a call
-- answers may depend on all the calls before it, which are kept as a list, the newest first. A call
-- that fails returns a negative number.
use coresight_trace.Base.{ℕ, ◌≡◌, Bool, true, false, List, [], ◌∷◌, ◌==◌, if◌then◌else◌}

-- `struct _adrcmp`: a comparator of 64 bits in two halves, and its access type.
pub record AddrComp : Type 0 where
  pub acvr_l : ℕ
  pub acvr_h : ℕ
  pub acatr_l : ℕ

-- The bits of `flags` that src/config.c sets: what a put is to write.
pub record Flags : Type 0 where
  pub trace_enable : Bool
  pub config : Bool
  pub eventselect : Bool
  pub cxid_comp : Bool
  pub addr_comp : Bool

-- The fields of `cs_etmv4_config_t` that src/config.c and src/stalker.c assign.
pub record EtmConfig : Type 0 where
  pub flags : Flags
  pub configr_bb : Bool
  pub configr_cid : Bool
  pub configr_vmid : Bool
  pub configr_rs : Bool
  pub victlr : ℕ
  pub viiectlr : ℕ
  pub vissctlr : ℕ
  pub eventctlr0r : ℕ
  pub eventctlr1r : ℕ
  pub stallcrlr : ℕ
  pub syncpr : ℕ
  pub bbctlr : ℕ
  pub cidcvr_l : ℕ
  pub cidcvr_h : ℕ
  pub cidcctlr0 : ℕ
  pub cxid_comps_acc_mask : ℕ
  pub addr_comps : ℕ → AddrComp
  pub addr_comps_acc_mask : ℕ

-- The calls that act on a device. A trace unit goes by the number of its CPU, a sink on the way by
-- its place in `trace_sinks`; the other calls are about `etb`, the last sink.
pub data Call : Type 0 where
  disable_tpiu checkpoint reset_error_count shutdown : Call
  get_source : (cpu : ℕ) → Call
  set_trace_source_id : (cpu id : ℕ) → Call
  etm_clean : (cpu : ℕ) → Call
  etm_config_put : (cpu : ℕ) → EtmConfig → Call
  write_cidcvr_l : (cpu value : ℕ) → Call
  write_cidcvr_h : (cpu value : ℕ) → Call
  trace_enable : (cpu : ℕ) → Call
  trace_disable : (cpu : ℕ) → Call
  set_stop_on_flush : Call
  flush_and_wait : Call
  clear_formatter : Call
  sink_etr_setup sink_enable sink_disable : Call
  sink_etf_setup : (sink : ℕ) → Call
  hw_fifo_enable : (sink : ℕ) → Call
  hw_fifo_disable : (sink : ℕ) → Call

-- A trace unit as the calls have left it: whether it was last told to run, its branch broadcast bit
-- and the low half of its context ID comparator. A clean and a put stop it, for programming.
pub record TraceUnit : Type 0 where
  pub running : Bool
  pub bb : Bool
  pub cid : ℕ

abbrev put_unit : EtmConfig → TraceUnit → TraceUnit
put_unit c u = record {
  running = false;
  bb = if c.flags.config then c.configr_bb else u.bb;
  cid = if c.flags.cxid_comp then c.cidcvr_l else u.cid;
}

abbrev unit_step : Call → ℕ → TraceUnit → TraceUnit
unit_step (etm_clean j) i u = if i == j then record u { running = false } else u
unit_step (etm_config_put j c) i u = if i == j then put_unit c u else u
unit_step (write_cidcvr_l j v) i u = if i == j then record u { cid = v } else u
unit_step (trace_enable j) i u = if i == j then record u { running = true } else u
unit_step (trace_disable j) i u = if i == j then record u { running = false } else u
unit_step _ i u = u

unfoldable pub unit_after : List Call → ℕ → TraceUnit
unit_after [] i = record { running = false; bb = false; cid = 0 }
unit_after (c ∷ cs) i = unit_step c i (unit_after cs i)

-- Whether the last sink was last told to collect.
unfoldable pub collecting : List Call → Bool
collecting [] = false
collecting (sink_enable ∷ cs) = true
collecting (sink_disable ∷ cs) = false
collecting (c ∷ cs) = collecting cs

pub record Csal : Type 0 where
  -- The constants of its headers: what excludes every level but non-secure EL0, what gates an address
  -- on context ID comparator 0, and the two defaults of TRCVICTLR.
  pub acatr_el0 : ℕ
  pub acatr_ctxt : ℕ
  pub victlr_el0 : ℕ
  pub victlr_all : ℕ
  -- Whether a call succeeds, after those in the list.
  pub ok : List Call → Call → Bool
  pub cs_error_count : List Call → ℕ
  -- What `cs_etm_config_init_ex` and `cs_etm_config_get_ex` read.
  pub config_get : List Call → ℕ → Flags → EtmConfig
  pub is_etmv4 : ℕ → Bool
  pub etmv4_or_later : ℕ → Bool
  pub has_vmid : ℕ → Bool
  pub has_cid : ℕ → Bool
  -- A version 4 unit passes both tests of its version.
  pub etmv4_or_later-is_etmv4 : (i : ℕ) → is_etmv4 i ≡ true → etmv4_or_later i ≡ true
  -- A branch broadcast bit is read as set only if it was last put so; a unit starts without it.
  pub config_get-bb :
      (cs : List Call) (i : ℕ) (f : Flags)
      → (config_get cs i f).configr_bb ≡ true
      → (unit_after cs i).bb ≡ true
