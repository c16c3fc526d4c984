-- ===== src/Decode/Runs.antt =====
-- The flag over the runs of a decoder, src/common.c and src/stalker.c, in each build.
use mathlib.Core.Path.{subst}
use coresight_trace.Base.{
  ℕ, ◌≤◌, ◌≡◌, refl, sym, ap₂, ◌∙◌, Bool, true, false, ◌&&◌, ◌||◌, not, List, [], ◌∷◌, ◌==◌,
  or_swap, if◌then◌else◌, arith,
}
use coresight_trace.Proxy.State.{CovType, edge_cov, path_cov, hybrid_cov}
use coresight_trace.Decode.Backend.{
  Libcsdec, Stalker, Build, stalker_decoder, coresight_decoder, Counts,
}
use coresight_trace.Decode.Dispatch.{
  Decoding, switch, run_decoder, run_of, trace_did_overflow, runs, note_overflow, stalker_run,
  count_overflow,
}

pub not_same : (n : ℕ) → false ≡ not (n == n)
not_same n = ground arith

-- A step of the counter, and of the flag.
flag_moves :
    (now before start seen : ℕ) (flag : Bool)
    → seen ≡ before
    → before ≤ now
    → start ≤ before
    → flag ≡ not (before == start)
    → (not (now == seen) || flag) ≡ not (now == start)
flag_moves now before start seen flag e more since h = ground arith

module _ {D : Type 0} where
  -- Whether one of the traces is decoded and has an overflow, by the decoder alone.
  abbrev pub any_overflow : Stalker D → List (List ℕ) → List ℕ → D → Bool
  any_overflow st [] bitmap l = false
  any_overflow st (buf ∷ bufs) bitmap l =
      let (ok, map, l') = st.decode buf bitmap l in
      (ok && st.did_overflow l') || any_overflow st bufs map l'

  -- Whether the decoder reports an overflow after one of the traces.
  abbrev pub any_report : Stalker D → List (List ℕ) → List ℕ → D → Bool
  any_report st [] bitmap l = false
  any_report st (buf ∷ bufs) bitmap l =
      let (ok, map, l') = st.decode buf bitmap l in st.did_overflow l' || any_report st bufs map l'

  -- Every trace is decoded.
  abbrev pub AllDecode : Stalker D → List (List ℕ) → List ℕ → D → Type 0
  AllDecode st [] bitmap l = Unit
  AllDecode st (buf ∷ bufs) bitmap l =
      let (ok, map, l') = st.decode buf bitmap l in (ok ≡ true) × AllDecode st bufs map l'

  pub any_overflow-report :
      (st : Stalker D) (bufs : List (List ℕ)) (bitmap : List ℕ) (l : D)
      → AllDecode st bufs bitmap l
      → any_overflow st bufs bitmap l ≡ any_report st bufs bitmap l
  any_overflow-report st [] bitmap l h = refl
  any_overflow-report st (buf ∷ bufs) bitmap l h =
      let (ok, map, l') = st.decode buf bitmap l in
      ap₂ (λ b c. (b && st.did_overflow l') || c) h.0 (any_overflow-report st bufs map l' h.1)

  -- What the flag is to say: with the Stalker decoder, that it reports an overflow; with libcsdec,
  -- that its counter has moved.
  abbrev pub overflowed : Build D → List (List ℕ) → Decoding D → Decoding D → Bool
  overflowed (stalker_decoder st) bufs before after =
      any_report st bufs before.trace_bitmap before.lib
  overflowed (coresight_decoder lib) bufs before after =
      not (lib.overflow_packets after.lib == lib.overflow_packets before.lib)

  abbrev pub Decodes : Build D → List (List ℕ) → Decoding D → Type 0
  Decodes (stalker_decoder st) bufs s = AllDecode st bufs s.trace_bitmap s.lib
  Decodes (coresight_decoder lib) bufs s = Unit

  -- The packets seen are those counted.
  abbrev pub IsInStep : Build D → Decoding D → Type 0
  IsInStep (stalker_decoder st) d = Unit
  IsInStep (coresight_decoder lib) d = d.seen_overflow_packets ≡ lib.overflow_packets d.lib

  abbrev pub IsCounted : Build D → Type 0
  IsCounted (stalker_decoder st) = Unit
  IsCounted (coresight_decoder lib) = Counts lib

  abbrev pub StalkerReports : Stalker D → List (List ℕ) → Decoding D → Type 0
  StalkerReports st bufs d =
      trace_did_overflow (runs (stalker_decoder st) bufs d)
      ≡ (any_overflow st bufs d.trace_bitmap d.lib || trace_did_overflow d)

  stalker_run-StalkerReports :
      (st : Stalker D) (d : Decoding D) (bufs : List (List ℕ)) (r : Bool × List ℕ × D)
      → d.decoder ≡ true
      → ((d' : Decoding D) → d'.decoder ≡ true → StalkerReports st bufs d')
      → trace_did_overflow (runs (stalker_decoder st) bufs (note_overflow (stalker_run st d r)).1)
        ≡ (((r.0 && st.did_overflow r.2) || any_overflow st bufs r.1 r.2) || trace_did_overflow d)
  stalker_run-StalkerReports st d bufs (true, map, l) on rest =
      rest (note_overflow (stalker_run st d (true, map, l))).1 on
      ∙ or_swap (st.did_overflow l) (any_overflow st bufs map l) d.trace_overflow_occurred
  stalker_run-StalkerReports st d bufs (false, map, l) on rest =
      rest (note_overflow (stalker_run st d (false, map, l))).1 on

  pub runs-StalkerReports :
      (st : Stalker D) (bufs : List (List ℕ)) (d : Decoding D)
      → d.decoder ≡ true
      → StalkerReports st bufs d
  unfolding runs run_decoder
  runs-StalkerReports st [] d on = refl
  runs-StalkerReports st (buf ∷ bufs) d on =
      subst
        (λ b.
          trace_did_overflow (
            runs (stalker_decoder st) bufs
              (if b then run_of (stalker_decoder st) buf d else (false, d)).1)
          ≡ (any_overflow st (buf ∷ bufs) d.trace_bitmap d.lib || trace_did_overflow d))
        (sym on)
        (stalker_run-StalkerReports st d bufs (st.decode buf d.trace_bitmap d.lib) on
          (λ d' on'. runs-StalkerReports st bufs d' on'))

  -- With libcsdec: the packets seen are those counted, and the flag is whether there are more than at
  -- the start.
  pub record IsFollowed (lib : Libcsdec D) (start : ℕ) (d : Decoding D) : Type 0 where
    pub seen : d.seen_overflow_packets ≡ lib.overflow_packets d.lib
    pub since : start ≤ lib.overflow_packets d.lib
    pub flagged : d.trace_overflow_occurred ≡ not (lib.overflow_packets d.lib == start)

  count_overflow-IsFollowed :
      (lib : Libcsdec D) (start : ℕ) (d : Decoding D) (r : Bool × List ℕ × D)
      → lib.overflow_packets d.lib ≤ lib.overflow_packets r.2
      → IsFollowed lib start d
      → IsFollowed lib start (count_overflow lib d r).1
  count_overflow-IsFollowed lib start d (ok, map, l) more h = record {
    seen = refl;
    since = omega (arith, more, h.since);
    flagged =
        flag_moves (lib.overflow_packets l) (lib.overflow_packets d.lib) start
          d.seen_overflow_packets d.trace_overflow_occurred h.seen more h.since h.flagged;
  }

  run_of-IsFollowed :
      (lib : Libcsdec D) (start : ℕ) (buf : List ℕ) (d : Decoding D)
      → Counts lib
      → IsFollowed lib start d
      → IsFollowed lib start (run_of (coresight_decoder lib) buf d).1
  run_of-IsFollowed lib start buf d counts h = by_cov d.cov_type
    where
      counted :
          (cov : CovType)
          → IsFollowed lib start (count_overflow lib d (lib.run cov buf d.trace_bitmap d.lib)).1
      counted cov =
          count_overflow-IsFollowed lib start d (lib.run cov buf d.trace_bitmap d.lib)
            (counts.run_counts cov buf d.trace_bitmap d.lib) h

      by_cov :
          (cov : CovType)
          → IsFollowed lib start
              (switch cov
                (count_overflow lib d (lib.run cov buf d.trace_bitmap d.lib))
                (false, d)).1
      by_cov edge_cov = counted edge_cov
      by_cov path_cov = counted path_cov
      by_cov hybrid_cov = h

  pub runs-IsFollowed :
      (lib : Libcsdec D) (start : ℕ) (bufs : List (List ℕ)) (d : Decoding D)
      → Counts lib
      → IsFollowed lib start d
      → IsFollowed lib start (runs (coresight_decoder lib) bufs d)
  unfolding runs run_decoder
  runs-IsFollowed lib start [] d counts h = h
  runs-IsFollowed lib start (buf ∷ bufs) d counts h =
      runs-IsFollowed lib start bufs
        (if d.decoder then run_of (coresight_decoder lib) buf d else (false, d)).1 counts
        (by_decoder d.decoder)
    where
      by_decoder :
          (b : Bool)
          → IsFollowed lib start (if b then run_of (coresight_decoder lib) buf d else (false, d)).1
      by_decoder true = run_of-IsFollowed lib start buf d counts h
      by_decoder false = h
