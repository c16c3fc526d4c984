-- ===== src/Hybrid/Passes/Rerun.antt =====
-- Runs of one input: once AFL++ has been shown a map for it, it is shown that map again.
use coresight_trace.Base.{
  ℕ, ◌≡◌, ◌≢◌, ap, ◌∙◌, inl, inr, Bool, not, ◌&&◌, some, List, [], ◌∷◌, replicate, Bool-cases, ◌%◌,
  arith,
}
use coresight_trace.Hybrid.State.{cache_slots, discarded, Hybrid, update, known_input}
use coresight_trace.Hybrid.Passes.{
  next_interval, purge, purge_check, start_path, hybrid_after_path, judge_edges, keep_edges,
  hybrid_after_confirm, hybrid_after_sample,
}
use coresight_trace.Hybrid.Passes.Stale.{Pass, path_pass, edge_pass, sample_pass, run}
use coresight_trace.Hybrid.Passes.Cases.{found_cksum, as_filtered, as_old, after_path-cases}
use coresight_trace.Hybrid.Passes.Known.{
  Apart, Known, remember_input-keeps, remember_input-path_kept_input, discard-Known, discard-learns,
  discard-shows,
}

module _ (rescale : ℕ → ℕ → ℕ → ℕ) where
  -- Every pass keeps to other slots of `inputs`, the one that is at the edge pass too.
  abbrev pub AllApart : ℕ → List Pass → Type 0
  AllApart key [] = Unit
  AllApart key (path_pass map overflowed k ∷ ps) = Apart key k × AllApart key ps
  AllApart key (edge_pass map overflowed ∷ ps) = AllApart key ps
  AllApart key (sample_pass map overflowed ∷ ps) = AllApart key ps

  start_path-inputs :
      (s : Hybrid)
      → ((start_path rescale s).inputs ≡ s.inputs)
        × ((start_path rescale s).path_kept_input ≡ s.path_kept_input)
        × ((start_path rescale s).map_size ≡ s.map_size)
  unfolding purge_check purge next_interval
  start_path-inputs s = ground arith

  after_path-Known :
      (key : ℕ) (m map : List ℕ) (overflowed : Bool) (k : ℕ) (s : Hybrid)
      → Apart key k
      → Known key m s
      → Known key m (hybrid_after_path rescale map overflowed k s).2
  after_path-Known key m map overflowed k s apart v =
      let (inputs, kept, _) = start_path-inputs s in
      let begun : Known key m (start_path rescale s) = rw (inputs, kept) v in
      after_path-cases rescale (λ r. Known key m r.2) map overflowed k s
        (λ hit.
          discard-Known key k (found_cksum rescale map s) m (as_filtered rescale s) apart begun)
        (λ fresh seen.
          discard-Known key k (found_cksum rescale map s) m (as_old rescale map s) apart begun)
        (λ fresh new. (begun.0, apart))

  keep_edges-Known :
      (key : ℕ) (m map : List ℕ) (overflowed : Bool) (s : Hybrid)
      → Known key m s
      → Known key m (keep_edges rescale map overflowed s)
  unfolding keep_edges
  keep_edges-Known key m map overflowed s v =
      let cached = record s {
        cache = update s.cache (s.path_kept_cksum % cache_slots) (some (s.path_kept_cksum, map));
      } in
      elim (Bool-cases (not overflowed && not s.path_kept_overflow)) [
        | inl clean ↦ rw clean (
          remember_input-keeps key s.path_kept_input m map cached v.1 v.0,
          rw (remember_input-path_kept_input s.path_kept_input map cached) v.1,
        )
        | inr cut ↦ rw cut v
      ]

  purged-inputs :
      (map : List ℕ) (s : Hybrid)
      → ((judge_edges rescale map (purge_check rescale s)).inputs ≡ s.inputs)
        × ((judge_edges rescale map (purge_check rescale s)).path_kept_input ≡ s.path_kept_input)
  unfolding judge_edges purge_check purge next_interval
  purged-inputs map s = ground arith

  after_confirm-Known :
      (key : ℕ) (m map : List ℕ) (overflowed : Bool) (s : Hybrid)
      → Known key m s
      → Known key m (hybrid_after_confirm rescale map overflowed s)
  unfolding hybrid_after_confirm
  after_confirm-Known key m map overflowed s v =
      let (inputs, kept) = purged-inputs map s in
      keep_edges-Known key m map overflowed (judge_edges rescale map (purge_check rescale s))
        (rw (inputs, kept) v)

  after_sample-Known :
      (key : ℕ) (m map : List ℕ) (overflowed : Bool) (s : Hybrid)
      → Known key m s
      → Known key m (hybrid_after_sample rescale map overflowed s)
  unfolding hybrid_after_sample
  after_sample-Known key m map overflowed s v = elim (Bool-cases overflowed) [
    | inl cut ↦ rw cut v
    | inr whole ↦ rw whole v
  ]

  run-Known :
      (key : ℕ) (m : List ℕ) (ps : List Pass) (s : Hybrid)
      → AllApart key ps
      → Known key m s
      → Known key m (run rescale ps s)
  unfolding run
  run-Known key m [] s apart v = v
  run-Known key m (path_pass map overflowed k ∷ ps) s apart v =
      run-Known key m ps _ apart.1 (after_path-Known key m map overflowed k s apart.0 v)
  run-Known key m (edge_pass map overflowed ∷ ps) s apart v =
      run-Known key m ps _ apart (after_confirm-Known key m map overflowed s v)
  run-Known key m (sample_pass map overflowed ∷ ps) s apart v =
      run-Known key m ps _ apart (after_sample-Known key m map overflowed s v)

  after_path-learns :
      (map : List ℕ) (overflowed : Bool) (key : ℕ) (s : Hybrid)
      → key ≢ 0
      → Apart key s.path_kept_input
      → (hybrid_after_path rescale map overflowed key s).0 ≡ discarded
      → (hybrid_after_path rescale map overflowed key s).1 ≢ replicate s.map_size 0
      → let (_, map', s') = hybrid_after_path rescale map overflowed key s in Known key map' s'
  after_path-learns map overflowed key s nonzero apart =
      let (_, kept, size) = start_path-inputs s in
      let cksum = found_cksum rescale map s in
      after_path-cases rescale
        (λ (verdict, map', s').
          verdict ≡ discarded → map' ≢ replicate s.map_size 0 → Known key map' s')
        map overflowed key s
        (λ hit h shown.
          discard-learns cksum key (as_filtered rescale s) nonzero (rw kept apart)
            (λ e. shown (e ∙ ap (λ n. replicate n 0) size)))
        (λ fresh seen h shown.
          discard-learns cksum key (as_old rescale map s) nonzero (rw kept apart)
            (λ e. shown (e ∙ ap (λ n. replicate n 0) size)))
        (λ fresh new h. cc)

  after_path-shows :
      (map : List ℕ) (overflowed : Bool) (key : ℕ) (m : List ℕ) (s : Hybrid)
      → known_input key s ≡ some m
      → (hybrid_after_path rescale map overflowed key s).0 ≡ discarded
      → (hybrid_after_path rescale map overflowed key s).1 ≡ m
  after_path-shows map overflowed key m s h =
      let (inputs, _, _) = start_path-inputs s in
      let begun : known_input key (start_path rescale s) ≡ some m = rw inputs h in
      let cksum = found_cksum rescale map s in
      after_path-cases rescale (λ r. r.0 ≡ discarded → r.1 ≡ m) map overflowed key s
        (λ hit h. discard-shows cksum key m (as_filtered rescale s) begun)
        (λ fresh seen h. discard-shows cksum key m (as_old rescale map s) begun) (λ fresh new h. cc)

  -- Re-runs of an input with a key read the same map: when a discard has shown one that is not empty,
  -- a later discard of the same input shows it again, whatever path is taken, as long as the passes
  -- between and the pending edge pass belong to no other input of the same slot.
  pub hybrid_after_path-rerun :
      (map : List ℕ) (overflowed : Bool) (key : ℕ) (s : Hybrid) (ps : List Pass) (map' : List ℕ)
      (overflowed' : Bool)
      → key ≢ 0
      → Apart key s.path_kept_input
      → AllApart key ps
      → let first = hybrid_after_path rescale map overflowed key s in
        let second = hybrid_after_path rescale map' overflowed' key (run rescale ps first.2) in
        first.0 ≡ discarded
        → first.1 ≢ replicate s.map_size 0
        → second.0 ≡ discarded
        → second.1 ≡ first.1
  hybrid_after_path-rerun map overflowed key s ps map' overflowed' nonzero apart all first shown
        second =
      let (_, m, t) = hybrid_after_path rescale map overflowed key s in
      let known = after_path-learns map overflowed key s nonzero apart first shown in
      after_path-shows map' overflowed' key m (run rescale ps t) (run-Known key m ps t all known).0
        second
