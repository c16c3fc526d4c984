-- ===== src/Etm/Tests.antt =====
-- A library that always answers with success and reads back what was put, and a board of two CPUs.
use coresight_trace.Base.{
  ℕ, zero, suc, ◌+◌, ◌-◌, ◌<◌, ◌≡◌, refl, Bool, true, false, List, [], ◌∷◌, none, arith,
}
use Prim.Native.Nat.{bit_or}
use coresight_trace.Maps.Select.{MapInfo}
use coresight_trace.Etm.Csal.{EtmConfig, Csal, Call, reset_error_count, unit_after}
use coresight_trace.Etm.Commands.{◌>>◌, each, must, no_errors, just}
use coresight_trace.Etm.Range.{configure_ranges, stalker_configure_addr_range}
use coresight_trace.Etm.Configure.{
  Settings, config_only, init_etm, configure_etmv4_addr_range_cid, init_cpu, configure_cpu,
  configure_trace, set_etm_bb, set_etm_bb_mode,
}
use coresight_trace.Etm.Paths.{
  set_etr_formatter_bypass, enable_etf, enable_sinks, enable_trace, cycle_etm,
  enable_trace_sinks_only, disable_trace_sinks_only,
}
use coresight_trace.Etm.Gate.{
  Gate, Board, initial, try_disable, enable_first, enable_next, enable_cs_trace, disable_cs_trace,
  trace_set_bb_mode, enables, disables, sets_bb_mode, gate_calls,
}
use coresight_trace.Etm.Armed.{IsArmed}
use coresight_trace.Etm.Sessions.{enable_cs_trace-IsArmed}
use coresight_trace.Etm.Trials.{after_rounds, round, disabler, disable_cs_trace-rounds}
use coresight_trace.Etm.Reads.{Holds, configure_ranges-reads_back}

abbrev reset_config : Bool → EtmConfig
reset_config bb = record {
  flags = config_only;
  configr_bb = bb;
  configr_cid = false;
  configr_vmid = false;
  configr_rs = false;
  victlr = 0;
  viiectlr = 0;
  vissctlr = 0;
  eventctlr0r = 0;
  eventctlr1r = 0;
  stallcrlr = 0;
  syncpr = 0;
  bbctlr = 0;
  cidcvr_l = 0;
  cidcvr_h = 0;
  cidcctlr0 = 0;
  cxid_comps_acc_mask = 0;
  addr_comps = λ j. record { acvr_l = 0; acvr_h = 0; acatr_l = 0 };
  addr_comps_acc_mask = 0;
}

abbrev mock : Csal
mock = record {
  acatr_el0 = 2;
  acatr_ctxt = 4;
  victlr_el0 = 1;
  victlr_all = 3;
  ok = λ cs c. true;
  cs_error_count = λ cs. 0;
  config_get = λ cs i f. reset_config (unit_after cs i).bb;
  is_etmv4 = λ i. true;
  etmv4_or_later = λ i. true;
  has_vmid = λ i. true;
  has_cid = λ i. true;
  etmv4_or_later-is_etmv4 = λ i e. e;
  config_get-bb = λ cs i f e. e;
}

abbrev stalker : Settings
stalker = record {
  stalker_decoder = true;
  pid_filter = true;
  el0_view = false;
  return_stack = false;
  victlr = none;
  stallcrlr = none;
  syncpr = 0;
}

abbrev binary : MapInfo
binary = record { start = 0xaaaaaaaa0000; end = 0xaaaaaaab0000; offset = 0; path = 47 ∷ [] }

abbrev two_cpus : Board
two_cpus = record { n_cpu = 2; num_trace_sinks = 1; range = binary ∷ [] }

-- A window with branch broadcast asked for in between.
abbrev before : Gate
before =
    (gate_calls mock stalker two_cpus (enables 0 40 ∷ disables ∷ sets_bb_mode true ∷ []) initial).1

abbrev opened : Gate
opened = (enable_cs_trace mock stalker two_cpus 0 41 before).1

enable_cs_trace-IsArmed_example : IsArmed mock stalker two_cpus 41 opened
unfolding gate_calls enable_cs_trace enable_first enable_next disable_cs_trace trace_set_bb_mode
    try_disable init_etm configure_etmv4_addr_range_cid init_cpu configure_cpu configure_trace
    set_etm_bb set_etm_bb_mode set_etr_formatter_bypass enable_etf enable_sinks enable_trace
    cycle_etm enable_trace_sinks_only disable_trace_sinks_only ◌>>◌ each must no_errors just
    stalker_configure_addr_range
enable_cs_trace-IsArmed_example =
    enable_cs_trace-IsArmed mock stalker two_cpus (enables 0 40 ∷ disables ∷ sets_bb_mode true ∷ [])
      0 41 before opened refl refl

configure_ranges-reads_back_example :
    Holds
      ((configure_ranges 2 4 (binary ∷ binary ∷ []) 0 (reset_config false)).addr_comps 2)
      (bit_or 2 4)
      binary.start
    × Holds
        ((configure_ranges 2 4 (binary ∷ binary ∷ []) 0 (reset_config false)).addr_comps 3)
        (bit_or 2 4)
        binary.end
configure_ranges-reads_back_example =
    configure_ranges-reads_back 2 4 (binary ∷ binary ∷ []) 1 (reset_config false) binary refl
      (omega arith) (omega arith)

-- Errors are reported until they have been forgotten twice.
abbrev forgotten : List Call → ℕ
forgotten [] = 0
forgotten (reset_error_count ∷ cs) = forgotten cs + 1
forgotten (c ∷ cs) = forgotten cs

abbrev flaky : Csal
flaky = record mock { cs_error_count = λ cs. 2 - forgotten cs }

flaky_rounds : (j : ℕ) → j < 2 → round (disabler flaky stalker two_cpus false) j [] ≡ false
unfolding disable_trace_sinks_only ◌>>◌ each just no_errors
flaky_rounds zero h = refl
flaky_rounds (suc zero) h = refl
flaky_rounds (suc (suc j)) h = absurd (omega arith)

disable_cs_trace-rounds_example : disable_cs_trace flaky stalker two_cpus false initial ≡ (
  true,
  record initial {
    calls =
        (disabler flaky stalker two_cpus false
          (after_rounds (disabler flaky stalker two_cpus false) 2 [])).1;
  },
)
unfolding disable_trace_sinks_only ◌>>◌ each just no_errors
disable_cs_trace-rounds_example =
    (disable_cs_trace-rounds flaky stalker two_cpus false initial 2 flaky_rounds).0 (omega arith)
      refl
