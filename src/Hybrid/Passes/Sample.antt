-- ===== src/Hybrid/Passes/Sample.antt =====
-- `hybrid_after_sample` is a measurement: it changes nothing that a verdict or a shown map rests on.
use coresight_trace.Base.{
  ℕ, ◌≡◌, refl, sym, ◌∙◌, false, true, Bool, List, [], ◌∷◌, ◌==◌, Option, none, some, inc64,
  Bool-cases, inl, inr, arith, ap,
}
use coresight_trace.Hybrid.Bitmap.{classify, has_new_bits}
use coresight_trace.Hybrid.Checksum.{checksum}
use coresight_trace.Hybrid.State.{
  HybridVerdict, discarded, Hybrid, discard, discard_with, remember_input, known_input, known_path,
}
use coresight_trace.Hybrid.Passes.{
  purge_due, next_interval, purge, purge_check, hybrid_after_path, judge_edges, keep_edges,
  hybrid_after_confirm, hybrid_after_sample, start_path, filtered,
}
use coresight_trace.Hybrid.Passes.Stale.{Pass, path_pass, edge_pass, sample_pass, run}

module _ (rescale : ℕ → ℕ → ℕ → ℕ) where
  -- The state without what only the sampling statistics read.
  abbrev unsampled : Hybrid → Hybrid
  unsampled s = record s {
    virgin_missed = [];
    n_sampled = 0;
    n_sample_overflow = 0;
    n_sample_new = 0;
    n_sample_new_tuples = 0;
    n_sample_new_filtered = 0;
  }

  unsampled-after_sample :
      (map : List ℕ) (overflowed : Bool) (s : Hybrid)
      → unsampled (hybrid_after_sample rescale map overflowed s) ≡ unsampled s
  unfolding hybrid_after_sample
  unsampled-after_sample map overflowed s = ground arith

  unsampled-purge_check :
      (s : Hybrid) → unsampled (purge_check rescale s) ≡ purge_check rescale (unsampled s)
  unfolding purge_check purge next_interval purge_due
  unsampled-purge_check s = ground arith

  abbrev shown : List ℕ × Hybrid → List ℕ × Hybrid
  shown (m, s) = (m, unsampled s)

  unsampled-remember_input :
      (key : ℕ) (m : List ℕ) (s : Hybrid)
      → unsampled (remember_input key m s) ≡ remember_input key m (unsampled s)
  unfolding remember_input
  unsampled-remember_input key m s = ground arith

  shown-discard_with :
      (key : ℕ) (input path : Option (List ℕ)) (s : Hybrid)
      → shown (discard_with key input path s) ≡ discard_with key input path (unsampled s)
  unfolding discard_with
  shown-discard_with key (some m) path s = refl
  shown-discard_with key none (some m) s =
      ap (λ t. (m, record t { n_cache_hits = inc64 t.n_cache_hits }))
        (unsampled-remember_input key m s)
  shown-discard_with key none none s = refl

  shown-discard :
      (cksum key : ℕ) (s : Hybrid) → shown (discard cksum key s) ≡ discard cksum key (unsampled s)
  unfolding discard
  shown-discard cksum key s = shown-discard_with key (known_input key s) (known_path cksum s) s

  unsampled-start_path :
      (s : Hybrid) → start_path rescale (unsampled s) ≡ unsampled (start_path rescale s)
  unsampled-start_path s =
      sym (unsampled-purge_check (record s { path_execs = inc64 s.path_execs }))

  abbrev as_discarded : List ℕ × Hybrid → HybridVerdict × List ℕ × Hybrid
  as_discarded (m, s) = (discarded, m, s)

  shown-discard_again :
      (cksum key : ℕ) (s : Hybrid)
      → shown (discard cksum key s) ≡ shown (discard cksum key (unsampled s))
  shown-discard_again cksum key s =
      shown-discard cksum key s ∙ sym (shown-discard cksum key (unsampled s))

  abbrev outcome : HybridVerdict × List ℕ × Hybrid → HybridVerdict × List ℕ × Hybrid
  outcome (v, m, s) = (v, m, unsampled s)

  unsampled-after_path :
      (map : List ℕ) (overflowed : Bool) (key : ℕ) (s : Hybrid)
      → outcome (hybrid_after_path rescale map overflowed key s)
        ≡ outcome (hybrid_after_path rescale map overflowed key (unsampled s))
  unfolding hybrid_after_path
  unsampled-after_path map overflowed key s =
      let s' = start_path rescale s in
      let cksum = checksum s'.map_size map in
      let looked = has_new_bits s'.virgin_atom (classify map) in
      let filter = record s' { n_filtered = inc64 s'.n_filtered; last_filtered = true } in
      let old = record s' {
        virgin_atom = looked.1;
        n_old_path = inc64 s'.n_old_path;
        last_filtered = false;
      } in
      rw (unsampled-start_path s) (elim (Bool-cases (filtered rescale cksum s')) [
        | inl hit ↦ rw hit (ap as_discarded (shown-discard_again cksum key filter))
        | inr fresh ↦ rw fresh (elim (Bool-cases (looked.0 == 0)) [
          | inl seen ↦ rw seen (ap as_discarded (shown-discard_again cksum key old))
          | inr new ↦ rw new refl
        ])
      ])

  unsampled-judge_edges :
      (map : List ℕ) (s : Hybrid)
      → unsampled (judge_edges rescale map s) ≡ judge_edges rescale map (unsampled s)
  unfolding judge_edges
  unsampled-judge_edges map s = ground arith

  unsampled-keep_edges :
      (map : List ℕ) (overflowed : Bool) (s : Hybrid)
      → unsampled (keep_edges rescale map overflowed s)
        ≡ keep_edges rescale map overflowed (unsampled s)
  unfolding keep_edges remember_input
  unsampled-keep_edges map overflowed s = ground arith

  unsampled-after_confirm :
      (map : List ℕ) (overflowed : Bool) (s : Hybrid)
      → unsampled (hybrid_after_confirm rescale map overflowed s)
        ≡ hybrid_after_confirm rescale map overflowed (unsampled s)
  unfolding hybrid_after_confirm
  unsampled-after_confirm map overflowed s =
      let t = purge_check rescale s in
      unsampled-keep_edges map overflowed (judge_edges rescale map t)
      ∙ ap (keep_edges rescale map overflowed)
          (unsampled-judge_edges map t ∙ ap (judge_edges rescale map) (unsampled-purge_check s))

  -- A sequence of passes with its samples left out.
  abbrev pub without_samples : List Pass → List Pass
  without_samples [] = []
  without_samples (path_pass map overflowed key ∷ ps) =
      path_pass map overflowed key ∷ without_samples ps
  without_samples (edge_pass map overflowed ∷ ps) = edge_pass map overflowed ∷ without_samples ps
  without_samples (sample_pass map overflowed ∷ ps) = without_samples ps

  after_path-same :
      (map : List ℕ) (overflowed : Bool) (key : ℕ) (s t : Hybrid)
      → unsampled s ≡ unsampled t
      → outcome (hybrid_after_path rescale map overflowed key s)
        ≡ outcome (hybrid_after_path rescale map overflowed key t)
  after_path-same map overflowed key s t e =
      unsampled-after_path map overflowed key s
      ∙ ap (λ u. outcome (hybrid_after_path rescale map overflowed key u)) e
      ∙ sym (unsampled-after_path map overflowed key t)

  after_confirm-same :
      (map : List ℕ) (overflowed : Bool) (s t : Hybrid)
      → unsampled s ≡ unsampled t
      → unsampled (hybrid_after_confirm rescale map overflowed s)
        ≡ unsampled (hybrid_after_confirm rescale map overflowed t)
  after_confirm-same map overflowed s t e =
      unsampled-after_confirm map overflowed s
      ∙ ap (hybrid_after_confirm rescale map overflowed) e
      ∙ sym (unsampled-after_confirm map overflowed t)

  unsampled-run :
      (ps : List Pass) (s t : Hybrid)
      → unsampled s ≡ unsampled t
      → unsampled (run rescale ps s) ≡ unsampled (run rescale (without_samples ps) t)
  unfolding run
  unsampled-run [] s t e = e
  unsampled-run (path_pass map overflowed key ∷ ps) s t e =
      unsampled-run ps _ _ (ap (λ r. r.2) (after_path-same map overflowed key s t e))
  unsampled-run (edge_pass map overflowed ∷ ps) s t e =
      unsampled-run ps _ _ (after_confirm-same map overflowed s t e)
  unsampled-run (sample_pass map overflowed ∷ ps) s t e =
      unsampled-run ps _ _ (unsampled-after_sample map overflowed s ∙ e)

  -- Sampling is a measurement only: the verdict on an input and the map that AFL++ is shown for it
  -- are the ones it would get if no sample had been taken in the passes before.
  pub hybrid_after_sample-no_effect :
      (ps : List Pass) (s : Hybrid) (map : List ℕ) (overflowed : Bool) (key : ℕ)
      → let (verdict, map', _) = hybrid_after_path rescale map overflowed key (run rescale ps s) in
        let (verdict_without, map'_without, _) =
          hybrid_after_path rescale map overflowed key (run rescale (without_samples ps) s) in
        (verdict ≡ verdict_without) × (map' ≡ map'_without)
  hybrid_after_sample-no_effect ps s map overflowed key =
      let same =
        after_path-same map overflowed key (run rescale ps s) (run rescale (without_samples ps) s)
          (unsampled-run ps s s refl) in
      (ap (λ r. r.0) same, ap (λ r. r.1) same)
