-- ===== src/Decode/Overflow.antt =====
-- The flag that trace_did_overflow returns.
use coresight_trace.Base.{
  ℕ, ◌≡◌, refl, sym, ap, ◌∙◌, Bool, true, false, ◌||◌, List, or_false, if◌then◌else◌, arith,
}
use coresight_trace.Proxy.State.{CovType, edge_cov, path_cov, hybrid_cov}
use coresight_trace.Decode.Backend.{Libcsdec, Build, stalker_decoder, coresight_decoder, Counts}
use coresight_trace.Decode.Dispatch.{
  Decoding, switch, take_reset, reset_library, reset_of, reset_decoder, trace_did_overflow, runs,
}
use coresight_trace.Decode.Runs.{
  any_overflow, any_overflow-report, overflowed, Decodes, IsInStep, IsCounted, runs-IsFollowed,
  runs-StalkerReports, not_same,
}

module _ {D : Type 0} where
  -- A reset that succeeds clears the flag, and the packets seen stay those counted.
  record IsFresh (build : Build D) (s : Decoding D) : Type 0 where
    usable : s.decoder ≡ true
    cleared : s.trace_overflow_occurred ≡ false
    in_step : IsInStep build s

  reset_library-IsFresh :
      (lib : Libcsdec D) (d : Decoding D)
      → Counts lib
      → d.decoder ≡ true
      → IsInStep (coresight_decoder lib) d
      → (reset_library lib d).0 ≡ true
      → IsFresh (coresight_decoder lib) (reset_library lib d).1
  reset_library-IsFresh lib d counts on h = by_cov d.cov_type
    where
      cleared : Decoding D
      cleared = record d { mem_map = true; trace_overflow_occurred = false }

      taken :
          (cov : CovType)
          → IsFresh (coresight_decoder lib) (take_reset cleared (lib.reset cov d.lib)).1
      taken cov = record {
        usable = on;
        cleared = refl;
        in_step = h ∙ sym (counts.reset_counts cov d.lib);
      }

      by_cov :
          (cov : CovType)
          → (switch cov (take_reset cleared (lib.reset cov d.lib)) (false, cleared)).0 ≡ true
          → IsFresh
              (coresight_decoder lib)
              (switch cov (take_reset cleared (lib.reset cov d.lib)) (false, cleared)).1
      by_cov edge_cov done = taken edge_cov
      by_cov path_cov done = taken path_cov
      by_cov hybrid_cov done = cc

  reset_of-IsFresh :
      (build : Build D) (malloc : Bool) (d : Decoding D)
      → IsCounted build
      → d.decoder ≡ true
      → IsInStep build d
      → (reset_of build malloc d).0 ≡ true
      → IsFresh build (reset_of build malloc d).1
  reset_of-IsFresh (stalker_decoder st) malloc d counts on h done = record {
    usable = on;
    cleared = refl;
    in_step = tt;
  }
  reset_of-IsFresh (coresight_decoder lib) malloc d counts on h done =
      by_map (d.mem_map || malloc) done
    where
      by_map :
          (b : Bool)
          → (if b then reset_library lib d else (false, d)).0 ≡ true
          → IsFresh (coresight_decoder lib) (if b then reset_library lib d else (false, d)).1
      by_map true done = reset_library-IsFresh lib d counts on h done
      by_map false done = cc

  reset_decoder-IsFresh :
      (build : Build D) (malloc : Bool) (d : Decoding D)
      → IsCounted build
      → IsInStep build d
      → (reset_decoder build malloc d).0 ≡ true
      → IsFresh build (reset_decoder build malloc d).1
  unfolding reset_decoder
  reset_decoder-IsFresh build malloc d counts h = by_decoder d.decoder refl
    where
      by_decoder :
          (b : Bool)
          → d.decoder ≡ b
          → (if b then reset_of build malloc d else (false, d)).0 ≡ true
          → IsFresh build (if b then reset_of build malloc d else (false, d)).1
      by_decoder true on done = reset_of-IsFresh build malloc d counts on h done
      by_decoder false off done = cc

  runs-Reports :
      (build : Build D) (bufs : List (List ℕ)) (s : Decoding D)
      → IsCounted build
      → IsFresh build s
      → Decodes build bufs s
      → (trace_did_overflow (runs build bufs s) ≡ overflowed build bufs s (runs build bufs s))
        × IsInStep build (runs build bufs s)
  runs-Reports (stalker_decoder st) bufs s counts fresh decodes = (
    runs-StalkerReports st bufs s fresh.usable
        ∙ ap (λ b. any_overflow st bufs s.trace_bitmap s.lib || b) fresh.cleared
        ∙ or_false (any_overflow st bufs s.trace_bitmap s.lib)
        ∙ any_overflow-report st bufs s.trace_bitmap s.lib decodes,
    tt,
  )
  runs-Reports (coresight_decoder lib) bufs s counts fresh decodes =
      let followed = runs-IsFollowed lib (lib.overflow_packets s.lib) bufs s counts (record {
        seen = fresh.in_step;
        since = omega arith;
        flagged = fresh.cleared ∙ not_same (lib.overflow_packets s.lib);
      }) in
      (followed.flagged, followed.seen)

  -- After a reset that succeeds and any number of runs, trace_did_overflow says whether there has been
  -- an overflow since the reset: with the Stalker decoder, if it decodes every trace, whether it
  -- reports one after any of them; with libcsdec, by its counter, whether or not a run has failed, and
  -- however many packets the sessions before have left in it. The condition on the packets seen, under
  -- which this holds, holds again afterwards. The counter of libcsdec is not lowered by a run and not
  -- moved by a reset.
  pub trace_did_overflow-overflowed :
      (build : Build D) (malloc : Bool) (bufs : List (List ℕ)) (d : Decoding D)
      → IsCounted build
      → IsInStep build d
      → (reset_decoder build malloc d).0 ≡ true
      → Decodes build bufs (reset_decoder build malloc d).1
      → let s = (reset_decoder build malloc d).1 in
        (trace_did_overflow (runs build bufs s) ≡ overflowed build bufs s (runs build bufs s))
        × IsInStep build (runs build bufs s)
  trace_did_overflow-overflowed build malloc bufs d counts h done decodes =
      runs-Reports build bufs (reset_decoder build malloc d).1 counts
        (reset_decoder-IsFresh build malloc d counts h done) decodes
