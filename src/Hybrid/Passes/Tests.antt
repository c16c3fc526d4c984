-- ===== src/Hybrid/Passes/Tests.antt =====
-- The hybrid passes at concrete maps of eight bytes.
use coresight_trace.Base.{
  ℕ, ◌*◌, ◌/◌, ◌%◌, ◌≤◌, ◌≡◌, ◌≢◌, refl, sym, ap, ◌∙◌, get_or, true, false, List, [], ◌∷◌,
  replicate, arith,
}
use coresight_trace.Hybrid.Bitmap.{classify, has_new_bits, peek_new_bits}
use coresight_trace.Hybrid.Bitmap.Novelty.{novelty, has_new_bits_lem}
use coresight_trace.Hybrid.Checksum.{checksum}
use coresight_trace.Hybrid.State.{
  discarded, confirm, Hybrid, hybrid_init, discard, purge_interval_level4,
}
use coresight_trace.Hybrid.Passes.{
  hybrid_after_path, hybrid_after_confirm, purge_check, judge_edges, keep_edges, since_purge,
}
use coresight_trace.Hybrid.Passes.Stale.{
  Pass, path_pass, edge_pass, sample_pass, run, hybrid_after_path-stale,
}
use coresight_trace.Hybrid.Passes.Sample.{hybrid_after_sample-no_effect}
use coresight_trace.Hybrid.Passes.Filter.{hybrid_after_confirm-discards}
use coresight_trace.Hybrid.Passes.Known.{Apart}
use coresight_trace.Hybrid.Passes.Rerun.{hybrid_after_path-rerun}
use coresight_trace.Hybrid.Passes.Purge.{purge_check-timely}

-- The product of the interval and the quotient, rounded down.
abbrev rescaled : ℕ → ℕ → ℕ → ℕ
rescaled interval attempt real = interval * attempt / real

abbrev path_map : List ℕ
path_map = 1 ∷ 0 ∷ 3 ∷ 0 ∷ 0 ∷ 0 ∷ 0 ∷ 9 ∷ []

abbrev edge_map : List ℕ
edge_map = 0 ∷ 5 ∷ 0 ∷ 0 ∷ 2 ∷ 0 ∷ 0 ∷ 0 ∷ []

-- An input under key 5 is confirmed and its edge pass run.
abbrev confirmed : List Pass
confirmed = path_pass path_map false 5 ∷ edge_pass edge_map false ∷ []

abbrev sampled : List Pass
sampled = path_pass path_map false 5 ∷ sample_pass edge_map false ∷ edge_pass edge_map false ∷ []

abbrev start : Hybrid
start = hybrid_init 8

has_new_bits_lem_example :
    let cls = classify path_map in
    let (verdict, virgin') = has_new_bits (replicate 8 255) cls in
    (verdict ≡ novelty (replicate 8 255) cls)
    × (peek_new_bits (replicate 8 255) cls ≡ verdict)
    × (has_new_bits virgin' cls ≡ (0, virgin'))
has_new_bits_lem_example = has_new_bits_lem (replicate 8 255) path_map

first_is_confirmed : (hybrid_after_path rescaled path_map false 5 start).0 ≡ confirm
unfolding hybrid_after_path hybrid_init purge_check checksum classify has_new_bits discard
first_is_confirmed = refl

again_is_discarded :
    (hybrid_after_path rescaled path_map false 6 (run rescaled confirmed start)).0 ≡ discarded
unfolding hybrid_after_path hybrid_after_confirm judge_edges keep_edges run hybrid_init purge_check
    checksum classify has_new_bits discard
again_is_discarded = refl

again_shows_edges :
    (hybrid_after_path rescaled path_map false 6 (run rescaled confirmed start)).1 ≡ edge_map
unfolding hybrid_after_path hybrid_after_confirm judge_edges keep_edges run hybrid_init purge_check
    checksum classify has_new_bits discard
again_shows_edges = refl

hybrid_after_path-stale_example :
    let (_, map', s') =
      hybrid_after_path rescaled path_map false 6 (run rescaled confirmed start) in
    peek_new_bits s'.virgin_edge (classify map') ≡ 0
hybrid_after_path-stale_example =
    hybrid_after_path-stale rescaled 8 confirmed path_map false 6 again_is_discarded

hybrid_after_sample-no_effect_example :
    let (verdict, map', _) =
      hybrid_after_path rescaled path_map false 6 (run rescaled sampled start) in
    let (verdict_without, map'_without, _) =
      hybrid_after_path rescaled path_map false 6 (run rescaled confirmed start) in
    (verdict ≡ verdict_without) × (map' ≡ map'_without)
hybrid_after_sample-no_effect_example =
    hybrid_after_sample-no_effect rescaled sampled start path_map false 6

-- The edge pass of a path that showed the edges before is repeated, with nothing new.
edges_are_known : peek_new_bits (run rescaled confirmed start).virgin_edge (classify edge_map) ≡ 0
unfolding hybrid_after_path hybrid_after_confirm judge_edges keep_edges run hybrid_init purge_check
    checksum classify has_new_bits discard peek_new_bits
edges_are_known = refl

same_checksum :
    checksum (run rescaled confirmed start).map_size path_map
    ≡ (run rescaled confirmed start).path_kept_cksum
unfolding hybrid_after_path hybrid_after_confirm judge_edges keep_edges run hybrid_init purge_check
    checksum classify has_new_bits discard
same_checksum = refl

hybrid_after_confirm-discards_example :
    (hybrid_after_path rescaled path_map false 7 (
      run rescaled sampled
        (hybrid_after_confirm rescaled edge_map false (run rescaled confirmed start)))).0
    ≡ discarded
hybrid_after_confirm-discards_example =
    hybrid_after_confirm-discards rescaled edge_map false (run rescaled confirmed start) sampled
      path_map false 7 edges_are_known same_checksum

-- The same input takes an empty path after two passes of another input.
abbrev between : List Pass
between = path_pass edge_map true 9 ∷ edge_pass path_map true ∷ []

kept_state :
    ((run rescaled confirmed start).path_kept_input ≡ 5)
    × ((run rescaled confirmed start).map_size ≡ 8)
unfolding hybrid_after_path hybrid_after_confirm judge_edges keep_edges run hybrid_init purge_check
    checksum classify has_new_bits discard
kept_state = (refl, refl)

shows_something :
    (hybrid_after_path rescaled path_map false 6 (run rescaled confirmed start)).1
    ≢ replicate (run rescaled confirmed start).map_size 0
shows_something h =
    let empty : edge_map ≡ replicate 8 0 =
      sym again_shows_edges ∙ h ∙ ap (λ n. replicate n 0) kept_state.1 in
    let second : get_or edge_map 1 0 ≡ get_or (replicate 8 0) 1 0 = ap (λ l. get_or l 1 0) empty in
    omega arith

other_slot : Apart 6 (run rescaled confirmed start).path_kept_input
other_slot e = let shared : 5 % 64 ≡ 6 % 64 = sym (ap (λ k. k % 64) kept_state.0) ∙ e in omega arith

rerun_is_discarded :
    (hybrid_after_path rescaled (replicate 8 0) false 6 (
      run rescaled between
        (hybrid_after_path rescaled path_map false 6 (run rescaled confirmed start)).2)).0
    ≡ discarded
unfolding hybrid_after_path hybrid_after_confirm judge_edges keep_edges run hybrid_init purge_check
    checksum classify has_new_bits discard
rerun_is_discarded = refl

hybrid_after_path-rerun_example :
    (hybrid_after_path rescaled (replicate 8 0) false 6 (
      run rescaled between
        (hybrid_after_path rescaled path_map false 6 (run rescaled confirmed start)).2)).1
    ≡ (hybrid_after_path rescaled path_map false 6 (run rescaled confirmed start)).1
hybrid_after_path-rerun_example =
    hybrid_after_path-rerun rescaled path_map false 6 (run rescaled confirmed start) between
      (replicate 8 0) false (omega arith) other_slot (omega arith) again_is_discarded
      shows_something rerun_is_discarded

purge_check-timely_example :
    let s = run rescaled confirmed (hybrid_init 8) in
    (s.purge_interval ≤ purge_interval_level4) × (since_purge s ≤ purge_interval_level4)
purge_check-timely_example = purge_check-timely rescaled 8 confirmed
