-- ===== src/Etm/Reads.antt =====
-- The comparators hold the ranges that they were set from.
use mathlib.Core.Path.{subst}
use coresight_trace.Base.{
  ℕ, zero, suc, ◌+◌, ◌*◌, ◌^◌, ◌<◌, ◌≡◌, refl, ◌∙◌, List, [], ◌∷◌, get_elem?, some, arith,
}
use Prim.Native.Nat.{bit_or}
use coresight_trace.Maps.Select.{MapInfo}
use coresight_trace.Etm.Csal.{AddrComp, EtmConfig}
use coresight_trace.Etm.Range.{low_half, high_half, set_etmv4_addr_range, configure_ranges}

-- The address that a comparator holds.
abbrev pub address : AddrComp → ℕ
address a = a.acvr_h * 2 ^ 32 + a.acvr_l

halves : (v : ℕ) → v < 2 ^ 64 → high_half v * 2 ^ 32 + low_half v ≡ v
halves v h = omega arith

set_etmv4_addr_range-below :
    (acatr ex k j : ℕ) (r : MapInfo) (comps : ℕ → AddrComp)
    → j < k
    → set_etmv4_addr_range acatr r ex k comps j ≡ comps j
unfolding set_etmv4_addr_range
set_etmv4_addr_range-below acatr ex k j r comps h = ground arith

configure_ranges-below :
    (acatr ex : ℕ) (rs : List MapInfo) (i : ℕ) (c : EtmConfig) (j : ℕ)
    → j < i * 2
    → (configure_ranges acatr ex rs i c).addr_comps j ≡ c.addr_comps j
unfolding configure_ranges
configure_ranges-below acatr ex [] i c j h = refl
configure_ranges-below acatr ex (r ∷ rs) i c j h =
    configure_ranges-below acatr ex rs (i + 1) _ j (omega arith)
    ∙ set_etmv4_addr_range-below acatr ex (i * 2) j r c.addr_comps h

-- A comparator holds an address, and the access type that goes with all of them.
abbrev pub Holds : AddrComp → ℕ → ℕ → Type 0
Holds a acc_type v = (address a ≡ v) × (a.acatr_l ≡ acc_type)

set_etmv4_addr_range-Holds :
    (acatr ex k : ℕ) (r : MapInfo) (comps : ℕ → AddrComp)
    → r.start < 2 ^ 64
    → r.end < 2 ^ 64
    → Holds (set_etmv4_addr_range acatr r ex k comps k) (bit_or acatr ex) r.start
      × Holds (set_etmv4_addr_range acatr r ex k comps (k + 1)) (bit_or acatr ex) r.end
unfolding set_etmv4_addr_range
set_etmv4_addr_range-Holds acatr ex k r comps s e = ground (arith, halves r.start, halves r.end)

configure_ranges-Holds :
    (acatr ex : ℕ) (rs : List MapInfo) (i k : ℕ) (c : EtmConfig) (r : MapInfo)
    → get_elem? rs k ≡ some r
    → r.start < 2 ^ 64
    → r.end < 2 ^ 64
    → Holds ((configure_ranges acatr ex rs i c).addr_comps ((i + k) * 2)) (bit_or acatr ex) r.start
      × Holds
          ((configure_ranges acatr ex rs i c).addr_comps ((i + k) * 2 + 1))
          (bit_or acatr ex)
          r.end
unfolding configure_ranges
configure_ranges-Holds acatr ex [] i k c r e s n = cc
configure_ranges-Holds acatr ex (q ∷ rs) i zero c r e s n =
    let same : q ≡ r = cc in
    let first = configure_ranges-below acatr ex rs (i + 1) c' (i * 2) (omega arith) in
    let second = configure_ranges-below acatr ex rs (i + 1) c' (i * 2 + 1) (omega arith) in
    let at : (i + 0) * 2 ≡ i * 2 = omega arith in
    rw (at, first, second, same) (set_etmv4_addr_range-Holds acatr ex (i * 2) r c.addr_comps s n)
  where
    c' : EtmConfig
    c' = record c {
      addr_comps = set_etmv4_addr_range acatr q ex (i * 2) c.addr_comps;
      addr_comps_acc_mask = bit_or c.addr_comps_acc_mask (3 * 2 ^ (i * 2));
      viiectlr = bit_or c.viiectlr (2 ^ i);
    }
configure_ranges-Holds acatr ex (q ∷ rs) i (suc k) c r e s n =
    let at : (i + suc k) * 2 ≡ (i + 1 + k) * 2 = omega arith in
    rw at (configure_ranges-Holds acatr ex rs (i + 1) k _ r e s n)

-- Each range is read back from its pair of comparators, whose access types are the same; this holds
-- for ranges of 64 bits, and for any number of them.
pub configure_ranges-reads_back :
    (acatr ex : ℕ) (rs : List MapInfo) (k : ℕ) (c : EtmConfig) (r : MapInfo)
    → get_elem? rs k ≡ some r
    → r.start < 2 ^ 64
    → r.end < 2 ^ 64
    → Holds ((configure_ranges acatr ex rs 0 c).addr_comps (k * 2)) (bit_or acatr ex) r.start
      × Holds ((configure_ranges acatr ex rs 0 c).addr_comps (k * 2 + 1)) (bit_or acatr ex) r.end
configure_ranges-reads_back acatr ex rs k c r e s n =
    subst
      (λ j.
        Holds ((configure_ranges acatr ex rs 0 c).addr_comps (j * 2)) (bit_or acatr ex) r.start
        × Holds ((configure_ranges acatr ex rs 0 c).addr_comps (j * 2 + 1)) (bit_or acatr ex) r.end)
      (omega arith) (configure_ranges-Holds acatr ex rs 0 k c r e s n)
