-- ===== src/Hybrid/Passes/Shown.antt =====
-- AFL++ is shown no edge for a discarded input: every map that the slots hold has been counted
-- against `virgin_edge`.
use coresight_trace.Base.{
  ℕ, ◌≡◌, refl, inl, inr, Bool, not, ◌&&◌, ◌||◌, Option, none, some, List, ◌==◌, Bool-cases, ◌%◌,
  arith,
}
use coresight_trace.Hybrid.Bitmap.{classify}
use coresight_trace.Hybrid.Bitmap.Novelty.{
  novelty, cleared, has_new_bits-novelty, novelty-cleared, novelty-cleared-classify, novelty-zeros,
}
use coresight_trace.Hybrid.State.{
  cache_slots, input_slots, discarded, Slot, Hybrid, update, held, is_some, remember_input,
  known_input, known_path, discard_with, discard,
}
use coresight_trace.Hybrid.Passes.{
  discard_as, next_interval, purge, purge_check, start_path, hybrid_after_path, judge_edges,
  keep_edges, hybrid_after_confirm, hybrid_after_sample,
}
use coresight_trace.Hybrid.Passes.Cases.{found_cksum, as_filtered, as_old, after_path-cases}

-- Nothing in the map is new to AFL++.
abbrev pub Stale : List ℕ → List ℕ → Type 0
Stale virgin m = novelty virgin (classify m) ≡ 0

abbrev pub AllStale : List ℕ → (ℕ → Slot) → Type 0
AllStale virgin slots = (i k : ℕ) (m : List ℕ) → slots i ≡ some (k, m) → Stale virgin m

pub record Shown (s : Hybrid) : Type 0 where
  pub cached : AllStale s.virgin_edge s.cache
  pub input : AllStale s.virgin_edge s.inputs

pub update-AllStale :
    (virgin : List ℕ) (slots : ℕ → Slot) (j key : ℕ) (m : List ℕ)
    → Stale virgin m
    → AllStale virgin slots
    → AllStale virgin (update slots j (some (key, m)))
update-AllStale virgin slots j key m h all i k m' e = elim (Bool-cases (j == i)) [
  | inl here ↦ ground arith
  | inr there ↦ all i k m' (rw there at e)
]

pub held-some : (slot : Slot) (key : ℕ) {m : List ℕ} → held slot key ≡ some m → slot ≡ some (key, m)
held-some none key e = cc
held-some (some (k, m)) key e = ground arith

known_input-inputs :
    (key : ℕ) (s : Hybrid) {m : List ℕ}
    → known_input key s ≡ some m
    → s.inputs (key % input_slots) ≡ some (key, m)
known_input-inputs key s e = held-some (s.inputs (key % input_slots)) key (ground arith)

remember_input-Shown :
    (key : ℕ) (m : List ℕ) {s : Hybrid}
    → Stale s.virgin_edge m
    → Shown s
    → Shown (remember_input key m s) × ((remember_input key m s).virgin_edge ≡ s.virgin_edge)
unfolding remember_input
remember_input-Shown key m {s} h v =
    elim (Bool-cases ((key == 0) || is_some (held (s.inputs (key % input_slots)) key))) [
      | inl kept ↦ rw kept (v, refl)
      | inr new ↦ rw new (
        record {
          cached = v.cached;
          input = update-AllStale s.virgin_edge s.inputs (key % input_slots) key m h v.input;
        },
        refl,
      )
    ]

abbrev Discarded : Hybrid → List ℕ × Hybrid → Type 0
Discarded s r = Stale s.virgin_edge r.0 × Shown r.1 × (r.1.virgin_edge ≡ s.virgin_edge)

discard_with-Shown :
    (key : ℕ) (input path : Option (List ℕ)) {s : Hybrid}
    → ((m : List ℕ) → input ≡ some m → Stale s.virgin_edge m)
    → ((m : List ℕ) → path ≡ some m → Stale s.virgin_edge m)
    → Shown s
    → Discarded s (discard_with key input path s)
unfolding discard_with
discard_with-Shown key (some m) path hi hp v =
    (hi m refl, record { cached = v.cached; input = v.input }, refl)
discard_with-Shown key none (some m) hi hp v =
    let (kept, edge) = remember_input-Shown key m (hp m refl) v in
    (hp m refl, record { cached = kept.cached; input = kept.input }, edge)
discard_with-Shown key none none {s} hi hp v =
    (novelty-zeros s.map_size s.virgin_edge, record { cached = v.cached; input = v.input }, refl)

-- What `discard` shows is stale, and the slots stay so.
discard-Shown : (cksum key : ℕ) {s : Hybrid} → Shown s → Discarded s (discard cksum key s)
unfolding discard
discard-Shown cksum key {s} v =
    discard_with-Shown key (known_input key s) (known_path cksum s)
      (λ m e. v.input (key % input_slots) key m (known_input-inputs key s e))
      (λ m e.
        v.cached (cksum % cache_slots) cksum m (held-some (s.cache (cksum % cache_slots)) cksum e))
      v

module _ (rescale : ℕ → ℕ → ℕ → ℕ) where
  pub purge_check_slots :
      (s : Hybrid)
      → ((purge_check rescale s).virgin_edge ≡ s.virgin_edge)
        × ((purge_check rescale s).cache ≡ s.cache)
        × ((purge_check rescale s).inputs ≡ s.inputs)
  unfolding purge_check purge next_interval
  purge_check_slots s = ground arith

  purge_check-Shown : {s : Hybrid} → Shown s → Shown (purge_check rescale s)
  purge_check-Shown {s} v =
      let (edge, cache, inputs) = purge_check_slots s in
      record { cached = rw (edge, cache) v.cached; input = rw (edge, inputs) v.input }

  start_path-Shown : {s : Hybrid} → Shown s → Shown (start_path rescale s)
  start_path-Shown v = purge_check-Shown (record { cached = v.cached; input = v.input })

  discard_as-Shown :
      (cksum key : ℕ) {s : Hybrid}
      → Shown s
      → let (verdict, map', s') = discard_as cksum key s in
        Shown s' × (verdict ≡ discarded → Stale s'.virgin_edge map')
  discard_as-Shown cksum key v = let d = discard-Shown cksum key v in (d.1, λ _. rw d.2 d.0)

  -- Whatever the verdict, the slots stay stale; a discarded input leaves a stale map.
  pub after_path-Shown :
      (map : List ℕ) (overflowed : Bool) (key : ℕ) {s : Hybrid}
      → Shown s
      → let (verdict, map', s') = hybrid_after_path rescale map overflowed key s in
        Shown s' × (verdict ≡ discarded → Stale s'.virgin_edge map')
  after_path-Shown map overflowed key {s} v =
      let w = start_path-Shown v in
      after_path-cases rescale
        (λ (verdict, map', s'). Shown s' × (verdict ≡ discarded → Stale s'.virgin_edge map')) map
        overflowed key s
        (λ hit.
          discard_as-Shown (found_cksum rescale map s) key {s = as_filtered rescale s}
            (record { cached = w.cached; input = w.input }))
        (λ fresh seen.
          discard_as-Shown (found_cksum rescale map s) key {s = as_old rescale map s}
            (record { cached = w.cached; input = w.input }))
        (λ fresh new. (record { cached = w.cached; input = w.input }, λ e. cc))

  pub judge_edges_slots :
      (map : List ℕ) (s : Hybrid)
      → ((judge_edges rescale map s).virgin_edge ≡ cleared s.virgin_edge (classify map))
        × ((judge_edges rescale map s).cache ≡ s.cache)
        × ((judge_edges rescale map s).inputs ≡ s.inputs)
  unfolding judge_edges
  judge_edges_slots map s = ground (arith, has_new_bits-novelty s.virgin_edge (classify map))

  judge_edges-Shown :
      (map : List ℕ) {s : Hybrid}
      → Shown s
      → Stale (judge_edges rescale map s).virgin_edge map × Shown (judge_edges rescale map s)
  judge_edges-Shown map {s} v =
      let (edge, cache, inputs) = judge_edges_slots map s in
      let part = novelty-cleared s.virgin_edge (classify map) in
      (
        rw edge (novelty-cleared-classify s.virgin_edge map),
        record {
          cached = rw (edge, cache) (λ i k m e. part (classify m) (v.cached i k m e));
          input = rw (edge, inputs) (λ i k m e. part (classify m) (v.input i k m e));
        },
      )

  keep_edges-Shown :
      (map : List ℕ) (overflowed : Bool) {s : Hybrid}
      → Stale s.virgin_edge map
      → Shown s
      → Shown (keep_edges rescale map overflowed s)
  unfolding keep_edges
  keep_edges-Shown map overflowed {s} h v =
      let slot = s.path_kept_cksum % cache_slots in
      let cache = update s.cache slot (some (s.path_kept_cksum, map)) in
      elim (Bool-cases (not overflowed && not s.path_kept_overflow)) [
        | inl clean ↦
            rw clean
              (remember_input-Shown s.path_kept_input map {s = record s { cache = cache }} h
                (record {
                  cached =
                      update-AllStale s.virgin_edge s.cache slot s.path_kept_cksum map h v.cached;
                  input = v.input;
                })).0
        | inr cut ↦ rw cut v
      ]

  pub after_confirm-Shown :
      (map : List ℕ) (overflowed : Bool) {s : Hybrid}
      → Shown s
      → Shown (hybrid_after_confirm rescale map overflowed s)
  unfolding hybrid_after_confirm
  after_confirm-Shown map overflowed {s} v =
      let judged = judge_edges-Shown map (purge_check-Shown v) in
      keep_edges-Shown map overflowed judged.0 judged.1

  pub sample_slots :
      (map : List ℕ) (overflowed : Bool) (s : Hybrid)
      → ((hybrid_after_sample rescale map overflowed s).virgin_edge ≡ s.virgin_edge)
        × ((hybrid_after_sample rescale map overflowed s).cache ≡ s.cache)
        × ((hybrid_after_sample rescale map overflowed s).inputs ≡ s.inputs)
  unfolding hybrid_after_sample
  sample_slots map overflowed s = ground arith
