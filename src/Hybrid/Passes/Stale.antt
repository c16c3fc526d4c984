-- ===== src/Hybrid/Passes/Stale.antt =====
-- Any sequence of passes from `hybrid_init`, and what a discarded input then shows.
use coresight_trace.Base.{ℕ, ◌≡◌, ◌∙◌, Bool, List, [], ◌∷◌}
use coresight_trace.Hybrid.Bitmap.{classify, peek_new_bits}
use coresight_trace.Hybrid.Bitmap.Novelty.{peek_new_bits-novelty}
use coresight_trace.Hybrid.State.{discarded, Hybrid, hybrid_init}
use coresight_trace.Hybrid.Passes.{hybrid_after_path, hybrid_after_confirm, hybrid_after_sample}
use coresight_trace.Hybrid.Passes.Shown.{Shown, after_path-Shown, after_confirm-Shown, sample_slots}

-- One call of the proxy after a pass.
pub data Pass : Type 0 where
  path_pass : List ℕ → Bool → ℕ → Pass
  edge_pass : List ℕ → Bool → Pass
  sample_pass : List ℕ → Bool → Pass

module _ (rescale : ℕ → ℕ → ℕ → ℕ) where
  unfoldable pub run : List Pass → Hybrid → Hybrid
  run [] s = s
  run (path_pass map overflowed key ∷ ps) s =
      run ps (hybrid_after_path rescale map overflowed key s).2
  run (edge_pass map overflowed ∷ ps) s = run ps (hybrid_after_confirm rescale map overflowed s)
  run (sample_pass map overflowed ∷ ps) s = run ps (hybrid_after_sample rescale map overflowed s)

  run-Shown : (ps : List Pass) {s : Hybrid} → Shown s → Shown (run ps s)
  unfolding run
  run-Shown [] v = v
  run-Shown (path_pass map overflowed key ∷ ps) v =
      run-Shown ps (after_path-Shown rescale map overflowed key v).0
  run-Shown (edge_pass map overflowed ∷ ps) v =
      run-Shown ps (after_confirm-Shown rescale map overflowed v)
  run-Shown (sample_pass map overflowed ∷ ps) {s} v =
      let (virgin, cache, inputs) = sample_slots rescale map overflowed s in
      run-Shown ps
        (record { cached = rw (virgin, cache) v.cached; input = rw (virgin, inputs) v.input })

  init-Shown : (size : ℕ) → Shown (hybrid_init size)
  unfolding hybrid_init
  init-Shown size = record { cached = λ i k m e. cc; input = λ i k m e. cc }

  -- After any sequence of passes from the start, an input that is discarded leaves a map that holds
  -- no edge and no hit count which has not been counted as shown to AFL++ before.
  pub hybrid_after_path-stale :
      (size : ℕ) (ps : List Pass) (map : List ℕ) (overflowed : Bool) (key : ℕ)
      → (hybrid_after_path rescale map overflowed key (run ps (hybrid_init size))).0 ≡ discarded
      → let (_, map', s') =
          hybrid_after_path rescale map overflowed key (run ps (hybrid_init size)) in
        peek_new_bits s'.virgin_edge (classify map') ≡ 0
  hybrid_after_path-stale size ps map overflowed key is_discarded =
      let s = run ps (hybrid_init size) in
      let r = hybrid_after_path rescale map overflowed key s in
      peek_new_bits-novelty r.2.virgin_edge (classify r.1)
      ∙ (after_path-Shown rescale map overflowed key (run-Shown ps (init-Shown size))).1
          is_discarded
