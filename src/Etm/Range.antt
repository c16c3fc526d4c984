-- ===== src/Etm/Range.antt =====
-- Which addresses are traced: set_etmv4_addr_range and the loop over the ranges in src/config.c, and
-- stalker_configure_addr_range of src/stalker.c.
use coresight_trace.Base.{
  ℕ, ◌+◌, ◌*◌, ◌/◌, ◌%◌, ◌^◌, Bool, ◌&&◌, Option, none, some, List, [], ◌∷◌, ◌==◌, if◌then◌else◌,
}
use Prim.Native.Nat.{bit_or}
use coresight_trace.Maps.Select.{MapInfo}
use coresight_trace.Etm.Csal.{AddrComp, EtmConfig}

abbrev pub low_half : ℕ → ℕ
low_half v = v % 2 ^ 32

abbrev pub high_half : ℕ → ℕ
high_half v = v / 2 ^ 32 % 2 ^ 32

abbrev pub address_comp : ℕ → ℕ → AddrComp
address_comp acc_type v = record { acvr_l = low_half v; acvr_h = high_half v; acatr_l = acc_type }

-- The pair of comparators from `k` on; `acatr` is the constant part of the access type.
unfoldable pub set_etmv4_addr_range : ℕ → MapInfo → ℕ → ℕ → (ℕ → AddrComp) → ℕ → AddrComp
set_etmv4_addr_range acatr range acc_type_ex k comps j =
    if j == k
    then address_comp (bit_or acatr acc_type_ex) range.start
    else if j == k + 1
    then address_comp (bit_or acatr acc_type_ex) range.end
    else comps j

-- The loop over the ranges, with `i` done; a pair for each, which is included in the view.
unfoldable pub configure_ranges : ℕ → ℕ → List MapInfo → ℕ → EtmConfig → EtmConfig
configure_ranges acatr acc_type_ex [] i c = c
configure_ranges acatr acc_type_ex (r ∷ rs) i c =
    configure_ranges acatr acc_type_ex rs (i + 1) (record c {
      addr_comps = set_etmv4_addr_range acatr r acc_type_ex (i * 2) c.addr_comps;
      addr_comps_acc_mask = bit_or c.addr_comps_acc_mask (3 * 2 ^ (i * 2));
      viiectlr = bit_or c.viiectlr (2 ^ i);
    })

-- `map_info[0]`, of an array that starts as zeros.
abbrev pub first_range : List MapInfo → MapInfo
first_range [] = record { start = 0; end = 0; offset = 0; path = [] }
first_range (r ∷ rs) = r

-- All of EL0.
abbrev pub el0 : MapInfo
el0 = record { start = 0; end = 0x0000FFFFFFFFFFFF; offset = 0; path = [] }

abbrev pub configure_main : ℕ → ℕ → MapInfo → EtmConfig → EtmConfig
configure_main acatr acc_type_ex main c = record c {
  addr_comps = set_etmv4_addr_range acatr main acc_type_ex 0 c.addr_comps;
  addr_comps_acc_mask = bit_or c.addr_comps_acc_mask 3;
  viiectlr = bit_or c.viiectlr 1;
}

-- EL0 is viewed, and branch broadcast stays on the main binary, in the second pair.
abbrev pub configure_el0 : ℕ → ℕ → MapInfo → EtmConfig → EtmConfig
configure_el0 acatr acc_type_ex main c = record c {
  addr_comps =
      set_etmv4_addr_range acatr main 0 2
        (set_etmv4_addr_range acatr el0 acc_type_ex 0 c.addr_comps);
  addr_comps_acc_mask = bit_or c.addr_comps_acc_mask 15;
  viiectlr = bit_or c.viiectlr 1;
  bbctlr = 258;
}

-- `none` is an exit: `el0_view`, AFLCS_STALKER_EL0_VIEW=1, needs the gate on the PID.
unfoldable pub stalker_configure_addr_range :
    Bool → ℕ → ℕ → List MapInfo → EtmConfig → Option EtmConfig
stalker_configure_addr_range el0_view acatr acc_type_ex range c =
    if el0_view && (acc_type_ex == 0)
    then none
    else if el0_view
    then some (configure_el0 acatr acc_type_ex (first_range range) c)
    else some (configure_main acatr acc_type_ex (first_range range) c)
