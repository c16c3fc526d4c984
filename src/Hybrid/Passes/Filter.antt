-- ===== src/Hybrid/Passes/Filter.antt =====
-- The checksum filter: a path whose edge pass led to no new edge is discarded from then on.
use coresight_trace.Base.{
  ℕ, ◌≡◌, refl, sym, ap, ◌∙◌, Bool, true, Option, none, some, List, [], ◌∷◌, ◌/◌, ◌%◌, ◌^◌, inc64,
  arith,
}
use mathlib.Core.Path.{subst}
use coresight_trace.Hybrid.Bitmap.{classify, peek_new_bits}
use coresight_trace.Hybrid.Bitmap.Novelty.{novelty, has_new_bits-novelty, peek_new_bits-novelty}
use coresight_trace.Hybrid.Checksum.{checksum}
use coresight_trace.Hybrid.State.{
  discarded, Hybrid, remember_input, known_input, known_path, discard_with, discard,
}
use coresight_trace.Hybrid.Passes.{
  next_interval, purge, purge_check, filtered, start_path, hybrid_after_path, judge_edges,
  keep_edges, hybrid_after_confirm, hybrid_after_sample,
}
use coresight_trace.Hybrid.Passes.Stale.{Pass, path_pass, edge_pass, sample_pass, run}
use coresight_trace.Hybrid.Passes.Cases.{found_cksum, as_filtered, as_old, after_path-cases}

module _ (rescale : ℕ → ℕ → ℕ → ℕ) where
  abbrev Rejected : ℕ → Hybrid → Type 0
  Rejected cksum s =
      (s.atom_check_up (cksum / 2 ^ 16) ≡ true) × (s.atom_check_down (cksum % 2 ^ 16) ≡ true)

  abbrev SameFilter : Hybrid → Hybrid → Type 0
  SameFilter s t =
      (t.atom_check_up ≡ s.atom_check_up)
      × (t.atom_check_down ≡ s.atom_check_down)
      × (t.map_size ≡ s.map_size)

  purge_check-SameFilter : (s : Hybrid) → SameFilter s (purge_check rescale s)
  unfolding purge_check purge next_interval
  purge_check-SameFilter s = ground arith

  remember_input-SameFilter :
      (key : ℕ) (m : List ℕ) (s : Hybrid) → SameFilter s (remember_input key m s)
  unfolding remember_input
  remember_input-SameFilter key m s = ground arith

  discard_with-SameFilter :
      (key : ℕ) (input path : Option (List ℕ)) (s : Hybrid)
      → SameFilter s (discard_with key input path s).1
  unfolding discard_with
  discard_with-SameFilter key (some m) path s = (refl, refl, refl)
  discard_with-SameFilter key none (some m) s = remember_input-SameFilter key m s
  discard_with-SameFilter key none none s = (refl, refl, refl)

  discard-SameFilter : (cksum key : ℕ) (s : Hybrid) → SameFilter s (discard cksum key s).1
  unfolding discard
  discard-SameFilter cksum key s =
      discard_with-SameFilter key (known_input key s) (known_path cksum s) s

  discard-after :
      (cksum key : ℕ) (s t : Hybrid) → SameFilter s t → SameFilter s (discard cksum key t).1
  discard-after cksum key s t same =
      let d = discard-SameFilter cksum key t in (d.0 ∙ same.0, d.1 ∙ same.1, d.2 ∙ same.2)

  after_path-SameFilter :
      (map : List ℕ) (overflowed : Bool) (key : ℕ) (s : Hybrid)
      → SameFilter s (hybrid_after_path rescale map overflowed key s).2
  after_path-SameFilter map overflowed key s =
      let begun = purge_check-SameFilter (record s { path_execs = inc64 s.path_execs }) in
      after_path-cases rescale (λ r. SameFilter s r.2) map overflowed key s
        (λ hit. discard-after (found_cksum rescale map s) key s (as_filtered rescale s) begun)
        (λ fresh seen. discard-after (found_cksum rescale map s) key s (as_old rescale map s) begun)
        (λ fresh new. begun)

  judge_edges-Rejected :
      (map : List ℕ) (s : Hybrid)
      → novelty s.virgin_edge (classify map) ≡ 0
      → Rejected s.path_kept_cksum (judge_edges rescale map s)
        × ((judge_edges rescale map s).map_size ≡ s.map_size)
  unfolding judge_edges
  judge_edges-Rejected map s h = ground (arith, has_new_bits-novelty s.virgin_edge (classify map))

  judge_edges-keeps :
      (cksum : ℕ) (map : List ℕ) (s : Hybrid)
      → Rejected cksum s
      → Rejected cksum (judge_edges rescale map s)
        × ((judge_edges rescale map s).map_size ≡ s.map_size)
  unfolding judge_edges
  judge_edges-keeps cksum map s h =
      ground (arith, has_new_bits-novelty s.virgin_edge (classify map))

  keep_edges-SameFilter :
      (map : List ℕ) (overflowed : Bool) (s : Hybrid)
      → SameFilter s (keep_edges rescale map overflowed s)
  unfolding keep_edges remember_input
  keep_edges-SameFilter map overflowed s = ground arith

  after_confirm-keeps :
      (cksum : ℕ) (map : List ℕ) (overflowed : Bool) (s : Hybrid)
      → Rejected cksum s
      → Rejected cksum (hybrid_after_confirm rescale map overflowed s)
        × ((hybrid_after_confirm rescale map overflowed s).map_size ≡ s.map_size)
  unfolding hybrid_after_confirm
  after_confirm-keeps cksum map overflowed s h =
      let a = purge_check-SameFilter s in
      let t = purge_check rescale s in
      let b = judge_edges-keeps cksum map t (rw (a.0, a.1) h) in
      let c = keep_edges-SameFilter map overflowed (judge_edges rescale map t) in
      (rw (c.0, c.1) b.0, c.2 ∙ b.1 ∙ a.2)

  purge_check-edges :
      (s : Hybrid)
      → ((purge_check rescale s).virgin_edge ≡ s.virgin_edge)
        × ((purge_check rescale s).path_kept_cksum ≡ s.path_kept_cksum)
  unfolding purge_check purge next_interval
  purge_check-edges s = ground arith

  after_confirm-Rejected :
      (map : List ℕ) (overflowed : Bool) (s : Hybrid)
      → peek_new_bits s.virgin_edge (classify map) ≡ 0
      → Rejected s.path_kept_cksum (hybrid_after_confirm rescale map overflowed s)
        × ((hybrid_after_confirm rescale map overflowed s).map_size ≡ s.map_size)
  unfolding hybrid_after_confirm
  after_confirm-Rejected map overflowed s h =
      let a = purge_check-SameFilter s in
      let (edges, kept) = purge_check-edges s in
      let t = purge_check rescale s in
      let none_new : novelty s.virgin_edge (classify map) ≡ 0 =
        sym (peek_new_bits-novelty s.virgin_edge (classify map)) ∙ h in
      let b = judge_edges-Rejected map t (rw edges none_new) in
      let c = keep_edges-SameFilter map overflowed (judge_edges rescale map t) in
      let rejected : Rejected s.path_kept_cksum (judge_edges rescale map t) =
        subst (λ c. Rejected c (judge_edges rescale map t)) kept b.0 in
      (rw (c.0, c.1) rejected, c.2 ∙ b.1 ∙ a.2)

  after_sample-SameFilter :
      (map : List ℕ) (overflowed : Bool) (s : Hybrid)
      → SameFilter s (hybrid_after_sample rescale map overflowed s)
  unfolding hybrid_after_sample
  after_sample-SameFilter map overflowed s = ground arith

  run-keeps :
      (cksum : ℕ) (ps : List Pass) (s : Hybrid)
      → Rejected cksum s
      → Rejected cksum (run rescale ps s) × ((run rescale ps s).map_size ≡ s.map_size)
  unfolding run
  run-keeps cksum [] s h = (h, refl)
  run-keeps cksum (path_pass map overflowed key ∷ ps) s h =
      let a = after_path-SameFilter map overflowed key s in
      let rest = run-keeps cksum ps _ (rw (a.0, a.1) h) in (rest.0, rest.1 ∙ a.2)
  run-keeps cksum (edge_pass map overflowed ∷ ps) s h =
      let a = after_confirm-keeps cksum map overflowed s h in
      let rest = run-keeps cksum ps _ a.0 in (rest.0, rest.1 ∙ a.1)
  run-keeps cksum (sample_pass map overflowed ∷ ps) s h =
      let a = after_sample-SameFilter map overflowed s in
      let rest = run-keeps cksum ps _ (rw (a.0, a.1) h) in (rest.0, rest.1 ∙ a.2)

  after_path-Rejected :
      (map : List ℕ) (overflowed : Bool) (key : ℕ) (s : Hybrid)
      → Rejected (checksum s.map_size map) s
      → (hybrid_after_path rescale map overflowed key s).0 ≡ discarded
  unfolding hybrid_after_path
  after_path-Rejected map overflowed key s h =
      let begun = purge_check-SameFilter (record s { path_execs = inc64 s.path_execs }) in
      let s' = start_path rescale s in
      let hit : filtered rescale (checksum s'.map_size map) s' ≡ true =
        rw (begun.2, begun.0, begun.1, h.0, h.1) refl in
      rw hit refl

  -- Once the edge pass of a path has led to nothing new, every later path with its checksum is
  -- discarded, whatever passes come between, purges among them.
  pub hybrid_after_confirm-discards :
      (edges : List ℕ) (overflowed : Bool) (s : Hybrid) (ps : List Pass) (map : List ℕ)
      (overflowed' : Bool) (key : ℕ)
      → peek_new_bits s.virgin_edge (classify edges) ≡ 0
      → checksum s.map_size map ≡ s.path_kept_cksum
      → (hybrid_after_path rescale map overflowed' key
          (run rescale ps (hybrid_after_confirm rescale edges overflowed s))).0
        ≡ discarded
  hybrid_after_confirm-discards edges overflowed s ps map overflowed' key none_new same =
      let t = hybrid_after_confirm rescale edges overflowed s in
      let a = after_confirm-Rejected edges overflowed s none_new in
      let b = run-keeps s.path_kept_cksum ps t a.0 in
      let cksum : checksum (run rescale ps t).map_size map ≡ s.path_kept_cksum =
        ap (λ n. checksum n map) (b.1 ∙ a.1) ∙ same in
      after_path-Rejected map overflowed' key (run rescale ps t) (rw cksum b.0)
