-- ===== src/Etm/Configure.antt =====
-- init_etm, configure_etmv4_addr_range_cid, configure_trace and set_etm_bb_mode of src/config.c.
use coresight_trace.Base.{
  ℕ, ◌+◌, ◌*◌, ◌/◌, Bool, true, false, ◌&&◌, ◌||◌, Option, none, some, List, ltb, if◌then◌else◌,
}
use Prim.Native.Nat.{bit_or}
use coresight_trace.Maps.Select.{MapInfo}
use coresight_trace.Etm.Csal.{
  Flags, EtmConfig, Csal, disable_tpiu, checkpoint, get_source, set_trace_source_id, etm_clean,
  etm_config_put, trace_enable, set_stop_on_flush, sink_disable,
}
use coresight_trace.Etm.Commands.{Dev, return_0, fail, ◌>>◌, when, each, must, no_errors, just}
use coresight_trace.Etm.Range.{low_half, high_half, configure_ranges, stalker_configure_addr_range}

-- What the build and the environment set.
pub record Settings : Type 0 where
  pub stalker_decoder : Bool
  pub pid_filter : Bool
  pub el0_view : Bool
  pub return_stack : Bool
  pub victlr : Option ℕ
  pub stallcrlr : Option ℕ
  pub syncpr : ℕ

abbrev pub or_default : Option ℕ → ℕ → ℕ
or_default none d = d
or_default (some v) d = v

abbrev pub config_only : Flags
config_only = record {
  trace_enable = false;
  config = true;
  eventselect = false;
  cxid_comp = false;
  addr_comp = false;
}

abbrev pub basic_flags : Flags
basic_flags = record config_only { trace_enable = true; eventselect = true }

module _ (csal : Csal) (settings : Settings) where
  open csal use {
    config_get, is_etmv4, etmv4_or_later, has_vmid, has_cid, acatr_el0, acatr_ctxt, victlr_el0,
    victlr_all,
  }
  open settings use {stalker_decoder, pid_filter, el0_view, return_stack}

  abbrev pub basic_config : EtmConfig → EtmConfig
  basic_config c = record c {
    flags = basic_flags;
    victlr = or_default settings.victlr (if stalker_decoder then victlr_el0 else victlr_all);
    viiectlr = 0;
    vissctlr = 0;
    eventctlr0r = 0;
    eventctlr1r = 0;
    stallcrlr = or_default settings.stallcrlr (if stalker_decoder then 0 else 0x2100);
    syncpr = settings.syncpr;
  }

  unfoldable pub init_etm : ℕ → Dev
  init_etm dev =
      must csal (etm_clean dev)
      >> (if is_etmv4 dev then return_0 else fail)
      >> (λ cs. just (etm_config_put dev (basic_config (config_get cs dev config_only))) cs)

  -- The context ID: its trace is on, and comparator 0 is set, if there is one to match.
  abbrev pub cid_config : ℕ → ℕ → EtmConfig → EtmConfig
  cid_config etm cid c = record c {
    flags = record basic_flags { cxid_comp = ltb 0 cid };
    configr_vmid = if has_vmid etm then false else c.configr_vmid;
    configr_cid = has_cid etm && ltb 0 cid;
    configr_rs = return_stack || c.configr_rs;
    cidcvr_l = if ltb 0 cid then low_half cid else c.cidcvr_l;
    cidcvr_h = if ltb 0 cid then high_half cid else c.cidcvr_h;
    cidcctlr0 = if ltb 0 cid then c.cidcctlr0 / 2 * 2 else c.cidcctlr0;
    cxid_comps_acc_mask =
        if ltb 0 cid then bit_or c.cxid_comps_acc_mask 1 else c.cxid_comps_acc_mask;
  }

  abbrev pub acc_type_ex : ℕ → ℕ
  acc_type_ex cid = if ltb 0 cid && pid_filter then acatr_ctxt else 0

  abbrev pub range_config : List MapInfo → ℕ → EtmConfig → Option EtmConfig
  range_config range cid c =
      if stalker_decoder
      then stalker_configure_addr_range el0_view acatr_el0 (acc_type_ex cid) range c
      else some (configure_ranges acatr_el0 (acc_type_ex cid) range 0 c)

  -- `none` is an exit.
  abbrev pub put_ranges : ℕ → Option EtmConfig → Dev
  put_ranges etm none = fail
  put_ranges etm (some c) =
      just (etm_config_put etm (record c { flags = record (c.flags) { addr_comp = true } }))

  unfoldable pub configure_etmv4_addr_range_cid : ℕ → List MapInfo → ℕ → Dev
  configure_etmv4_addr_range_cid etm range cid =
      (λ cs.
        put_ranges etm (range_config range cid (cid_config etm cid (config_get cs etm basic_flags)))
          cs)
      >> no_errors csal

  unfoldable pub init_cpu : ℕ → Dev
  init_cpu i =
      must csal (get_source i) >> must csal (set_trace_source_id i (0x10 + i)) >> init_etm i

  unfoldable pub configure_cpu : List MapInfo → ℕ → ℕ → Dev
  configure_cpu range pid i = when (etmv4_or_later i) (configure_etmv4_addr_range_cid i range pid)

  unfoldable pub configure_trace : ℕ → List MapInfo → ℕ → Dev
  configure_trace n_cpu range pid =
      just disable_tpiu
      >> just sink_disable
      >> each n_cpu 0 init_cpu
      >> just checkpoint
      >> each n_cpu 0 (configure_cpu range pid)
      >> just set_stop_on_flush
      >> no_errors csal

  abbrev pub bb_config : Bool → EtmConfig → EtmConfig
  bb_config bb_mode c = record c { flags = config_only; configr_bb = bb_mode }

  unfoldable pub set_etm_bb : Bool → ℕ → Dev
  set_etm_bb bb_mode i =
      (λ cs. just (etm_config_put i (bb_config bb_mode (config_get cs i config_only))) cs)
      >> must csal (trace_enable i)

  unfoldable pub set_etm_bb_mode : ℕ → Bool → Dev
  set_etm_bb_mode n_cpu bb_mode = each n_cpu 0 (set_etm_bb bb_mode) >> no_errors csal
