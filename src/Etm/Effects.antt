-- ===== src/Etm/Effects.antt =====
-- What the commands of src/config.c that turn a unit on, off or to broadcast do to it.
use coresight_trace.Base.{
  ℕ, ◌+◌, ◌<◌, ◌≡◌, refl, Bool, true, false, ◌&&◌, some, List, [], ◌∷◌, ltb, ◌==◌, ==_iff,
  Bool-cases, inl, inr, arith,
}
use coresight_trace.Maps.Select.{MapInfo}
use coresight_trace.Etm.Csal.{
  EtmConfig, TraceUnit, Csal, Call, unit_after, collecting, trace_enable, trace_disable,
}
use coresight_trace.Etm.Commands.{◌>>◌, must, no_errors, just, Ensures}
use coresight_trace.Etm.Range.{low_half, configure_ranges, stalker_configure_addr_range}
use coresight_trace.Etm.Configure.{Settings, range_config, set_etm_bb, acc_type_ex}
use coresight_trace.Etm.Paths.{cycle_etm}
use coresight_trace.Etm.Units.{Touches}

abbrev pub NoNewBb : TraceUnit → TraceUnit → Type 0
NoNewBb u v = v.bb ≡ true → u.bb ≡ true

abbrev pub Named : ℕ → TraceUnit → TraceUnit → Type 0
Named pid u v = (v.bb ≡ true → u.bb ≡ true) × (0 < pid → v.cid ≡ low_half pid)

abbrev pub Started : TraceUnit → TraceUnit → Type 0
Started u v = (v.running ≡ true) × (v.bb ≡ u.bb) × (v.cid ≡ u.cid)

abbrev pub Stopped : TraceUnit → TraceUnit → Type 0
Stopped u v = (v.running ≡ false) × (v.bb ≡ u.bb) × (v.cid ≡ u.cid)

abbrev pub Broadcast : Bool → TraceUnit → TraceUnit → Type 0
Broadcast bb_mode u v = (v.running ≡ true) × (v.bb ≡ bb_mode) × (v.cid ≡ u.cid)

-- A unit that has been cycled for a child; `named` is whether its PID is written.
abbrev pub Cycled : Bool → ℕ → TraceUnit → TraceUnit → Type 0
Cycled named pid u v = (v.running ≡ true) × (v.bb ≡ u.bb) × (named ≡ true → v.cid ≡ low_half pid)

pub ==_refl : (i : ℕ) → (i == i) ≡ true
==_refl i = (==_iff i i).1 refl

Touches-refl : (i : ℕ) (cs : List Call) → Touches NoNewBb i cs cs
Touches-refl i cs = record { at = λ h. h; others = λ j ne. refl; sink = refl }

pub Ensures-must :
    (csal : Csal) (P : List Call → Type 0) (c : Call) (cs : List Call)
    → P (c ∷ cs)
    → Ensures P (must csal c cs)
unfolding must
Ensures-must csal P c cs p = elim (Bool-cases (csal.ok cs c)) [ inl e ↦ rw e p | inr e ↦ rw e tt ]

pub Ensures-no_errors :
    (csal : Csal) (P : List Call → Type 0) (cs : List Call) → P cs → Ensures P (no_errors csal cs)
unfolding no_errors
Ensures-no_errors csal P cs p = elim (Bool-cases (ltb 0 (csal.cs_error_count cs))) [
  | inl e ↦ rw e tt
  | inr e ↦ rw e p
]

pub start-Touches :
    (i : ℕ) (cs : List Call) → Ensures (Touches Started i cs) (just (trace_enable i) cs)
unfolding just unit_after collecting
start-Touches i cs = record {
  at = rw (==_refl i) (refl, refl, refl);
  others = λ j ne. rw ne refl;
  sink = refl;
}

pub stop-Touches :
    (i : ℕ) (cs : List Call) → Ensures (Touches Stopped i cs) (just (trace_disable i) cs)
unfolding just unit_after collecting
stop-Touches i cs = record {
  at = rw (==_refl i) (refl, refl, refl);
  others = λ j ne. rw ne refl;
  sink = refl;
}

configure_ranges-keeps :
    (acatr ex : ℕ) (rs : List MapInfo) (i : ℕ) (c : EtmConfig)
    → ((configure_ranges acatr ex rs i c).flags ≡ c.flags)
      × ((configure_ranges acatr ex rs i c).configr_bb ≡ c.configr_bb)
      × ((configure_ranges acatr ex rs i c).cidcvr_l ≡ c.cidcvr_l)
unfolding configure_ranges
configure_ranges-keeps acatr ex [] i c = (refl, refl, refl)
configure_ranges-keeps acatr ex (r ∷ rs) i c = configure_ranges-keeps acatr ex rs (i + 1) _

-- The ranges are no matter of branch broadcast or of the context ID.
pub range_config-keeps :
    (csal : Csal) (settings : Settings) (range : List MapInfo) (cid : ℕ) (c d : EtmConfig)
    → range_config csal settings range cid c ≡ some d
    → (d.flags ≡ c.flags) × (d.configr_bb ≡ c.configr_bb) × (d.cidcvr_l ≡ c.cidcvr_l)
unfolding stalker_configure_addr_range
range_config-keeps csal settings range cid c d e =
    ground (arith, configure_ranges-keeps csal.acatr_el0 (acc_type_ex csal settings cid) range 0 c)

module _ (csal : Csal) (settings : Settings) where
  pub set_etm_bb-Touches :
      (b : Bool) (i : ℕ) (cs : List Call)
      → Ensures (Touches (Broadcast b) i cs) (set_etm_bb csal settings b i cs)
  unfolding set_etm_bb ◌>>◌ just unit_after collecting
  set_etm_bb-Touches b i cs =
      Ensures-must csal (Touches (Broadcast b) i cs) (trace_enable i) (_ ∷ cs) (record {
        at = rw (==_refl i) (refl, refl, refl);
        others = λ j ne. rw ne refl;
        sink = refl;
      })

  pub cycle_etm-Touches :
      (traced_pid i : ℕ) (cs : List Call)
      → Ensures
          (Touches (Cycled (ltb 0 traced_pid && settings.pid_filter) traced_pid) i cs)
          (cycle_etm csal settings traced_pid i cs)
  unfolding cycle_etm ◌>>◌ just unit_after collecting
  cycle_etm-Touches t i cs = elim (Bool-cases (ltb 0 t && settings.pid_filter)) [
    | inl on ↦ rw on (record {
      at = rw (==_refl i) (refl, refl, λ e. refl);
      others = λ j ne. rw ne refl;
      sink = refl;
    })
    | inr off ↦ rw off (record {
      at = rw (==_refl i) (refl, refl, λ e. cc);
      others = λ j ne. rw ne refl;
      sink = refl;
    })
  ]
