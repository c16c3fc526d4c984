-- ===== src/Decode/Backend.antt =====
-- The two decoders, neither of which is part of this repository: libcsdec, and the one behind
-- stalker_adapter.h. D is what a decoder remembers.
use coresight_trace.Base.{ℕ, ◌≤◌, ◌≡◌, Bool, List}
use coresight_trace.Proxy.State.{CovType}

-- A decoder is handed a trace and the coverage map, and returns whether it succeeds and the new map.
pub record Libcsdec (D : Type 0) : Type 0 where
  pub init : CovType → D → Bool × D
  pub reset : CovType → D → Bool × D
  pub run : CovType → List ℕ → List ℕ → D → Bool × List ℕ × D
  pub finish : CovType → D → D
  pub overflow_packets : D → ℕ

pub record Stalker (D : Type 0) : Type 0 where
  pub decoder_init : D → Bool × D
  pub set_trace_id : ℕ → D → D
  pub set_bb_mode : Bool → D → D
  pub decode : List ℕ → List ℕ → D → Bool × List ℕ × D
  pub did_overflow : D → Bool

-- Which one the program is built with.
pub data Build (D : Type 0) : Type 0 where
  stalker_decoder : Stalker D → Build D
  coresight_decoder : Libcsdec D → Build D

-- The counter of libcsdec counts the overflow packets since the start: a run does not lower it, and a
-- reset decodes nothing.
pub record Counts {D : Type 0} (lib : Libcsdec D) : Type 0 where
  pub run_counts :
      (cov : CovType) (buf bitmap : List ℕ) (d : D)
      → lib.overflow_packets d ≤ lib.overflow_packets (lib.run cov buf bitmap d).2
  pub reset_counts :
      (cov : CovType) (d : D) → lib.overflow_packets (lib.reset cov d).1 ≡ lib.overflow_packets d
