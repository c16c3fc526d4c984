-- ===== src/Hybrid/Passes.antt =====
-- The passes of src/hybrid.c over its state: the purge, and what follows the path pass, the edge
-- pass and a sampled edge pass. Comparisons with the doubles 1.01, 0.1, 0.25 and 0.5 are taken over
-- whole numbers, exact for counts below 2 ^ 40; the rescaling of the purge interval by a double
-- quotient is the parameter `rescale interval attempt real`.
pub mod Cases
pub mod Shown
pub mod Stale
pub mod Filter
pub mod Known
pub mod Rerun
pub mod Purge
pub mod Sample
mod Tests
use coresight_trace.Base.{
  ℕ, ◌+◌, ◌-◌, ◌*◌, ◌/◌, ◌%◌, ◌^◌, Bool, true, false, ◌&&◌, ◌||◌, not, none, some, List, ltb, leb,
  ◌==◌, if◌then◌else◌, inc64,
}
use coresight_trace.Hybrid.Bitmap.{classify, has_new_bits, peek_new_bits, count_non_255_bytes}
use coresight_trace.Hybrid.Checksum.{checksum}
use coresight_trace.Hybrid.State.{
  purge_interval_level1, purge_interval_level2, purge_interval_level3, purge_interval_level4,
  cache_slots, HybridVerdict, discarded, confirm, Hybrid, update, remember_input, discard,
}

-- The level by the share of the path passes that were queued.
abbrev pub purge_level : ℕ → ℕ → ℕ
purge_level queued execs =
    if ltb (queued * 10) execs
    then purge_interval_level1
    else if ltb (queued * 4) execs
    then purge_interval_level2
    else if ltb (queued * 2) execs
    then purge_interval_level3
    else purge_interval_level4

abbrev pub capped : ℕ → ℕ
capped interval = if ltb purge_interval_level4 interval then purge_interval_level4 else interval

-- `real_execs - pre_real_execs` wraps.
abbrev pub since_purge : Hybrid → ℕ
since_purge s = (s.real_execs + 2 ^ 64 - s.pre_real_execs) % 2 ^ 64

-- Edge coverage stalls, or most of `virgin_atom` is paths that led nowhere.
unfoldable pub purge_due : Hybrid → Bool
purge_due s =
    leb (count_non_255_bytes s.virgin_edge * 100) (101 * s.pre_virgin_bits)
    || ltb (count_non_255_bytes s.virgin_atom_real * 2) (count_non_255_bytes s.virgin_atom)

-- `discard(...); return HYBRID_DISCARD;`
abbrev pub discard_as : ℕ → ℕ → Hybrid → HybridVerdict × List ℕ × Hybrid
discard_as cksum key s = let (map, s') = discard cksum key s in (discarded, map, s')

module _ (rescale : ℕ → ℕ → ℕ → ℕ) where
  -- The interval after a purge, with `purge_real` already counted.
  unfoldable pub next_interval : Hybrid → ℕ
  next_interval s =
      if ltb 20 s.purge_real
      then capped
          (rescale (purge_level s.queued_atom_paths s.path_execs) s.purge_attempt s.purge_real)
      else s.purge_interval

  unfoldable pub purge : Hybrid → Hybrid
  unfolding next_interval
  purge s =
      let s' = record s { virgin_atom = s.virgin_atom_real; purge_real = inc64 s.purge_real } in
      record s' { purge_interval = next_interval s' }

  unfoldable pub purge_check : Hybrid → Hybrid
  purge_check s =
      let s' = record s { real_execs = inc64 s.real_execs } in
      if ltb (since_purge s') s'.purge_interval
      then s'
      else let s'' = if purge_due s' then purge s' else s' in
        record s'' {
          pre_virgin_bits = count_non_255_bytes s''.virgin_edge;
          pre_real_execs = s''.real_execs;
          purge_attempt = inc64 s''.purge_attempt;
        }

  -- `atom_check_up[cksum >> 16] && atom_check_down[cksum & 0xffff]`
  abbrev pub filtered : ℕ → Hybrid → Bool
  filtered cksum s = s.atom_check_up (cksum / 2 ^ 16) && s.atom_check_down (cksum % 2 ^ 16)

  abbrev pub start_path : Hybrid → Hybrid
  start_path s = purge_check (record s { path_execs = inc64 s.path_execs })

  -- The verdict, the shared map as it is left, and the state.
  unfoldable pub hybrid_after_path : List ℕ → Bool → ℕ → Hybrid → HybridVerdict × List ℕ × Hybrid
  hybrid_after_path map overflowed input_key s =
      let s' = start_path s in
      let cksum = checksum s'.map_size map in
      let path_cls = classify map in
      let (new, virgin) = has_new_bits s'.virgin_atom path_cls in
      if filtered cksum s'
      then discard_as cksum input_key
          (record s' { n_filtered = inc64 s'.n_filtered; last_filtered = true })
      else if new == 0
      then discard_as cksum input_key (record s' {
        virgin_atom = virgin;
        n_old_path = inc64 s'.n_old_path;
        last_filtered = false;
      })
      else (
        confirm,
        map,
        record s' {
          virgin_atom = virgin;
          last_filtered = false;
          queued_atom_paths = inc64 s'.queued_atom_paths;
          path_kept = path_cls;
          path_kept_cksum = cksum;
          path_kept_overflow = overflowed;
          path_kept_input = input_key;
          n_confirmed = inc64 s'.n_confirmed;
        },
      )

  -- The edge pass led to new edges, or not: then the path's checksum is filtered from now on.
  unfoldable pub judge_edges : List ℕ → Hybrid → Hybrid
  judge_edges map s =
      let (new_bits, virgin) = has_new_bits s.virgin_edge (classify map) in
      if new_bits == 0
      then record s {
        virgin_edge = virgin;
        atom_check_up = update s.atom_check_up (s.path_kept_cksum / 2 ^ 16) true;
        atom_check_down = update s.atom_check_down (s.path_kept_cksum % 2 ^ 16) true;
      }
      else record s {
        virgin_edge = virgin;
        virgin_atom_real = (has_new_bits s.virgin_atom_real s.path_kept).1;
        n_new_edges = inc64 s.n_new_edges;
        n_new_tuples = if new_bits == 2 then inc64 s.n_new_tuples else s.n_new_tuples;
      }

  -- A truncated trace on either pass would pin the wrong edges to the path.
  unfoldable pub keep_edges : List ℕ → Bool → Hybrid → Hybrid
  keep_edges map overflowed s =
      if not overflowed && not s.path_kept_overflow
      then remember_input s.path_kept_input map (record s {
        cache = update s.cache (s.path_kept_cksum % cache_slots) (some (s.path_kept_cksum, map));
      })
      else s

  unfoldable pub hybrid_after_confirm : List ℕ → Bool → Hybrid → Hybrid
  hybrid_after_confirm map overflowed s =
      keep_edges map overflowed (judge_edges map (purge_check s))

  unfoldable pub hybrid_after_sample : List ℕ → Bool → Hybrid → Hybrid
  hybrid_after_sample map overflowed s =
      if overflowed
      then record s { n_sample_overflow = inc64 s.n_sample_overflow }
      else let edge_cls = classify map in
        let new_bits = peek_new_bits s.virgin_edge edge_cls in
        let hit = not (new_bits == 0) in
        record s {
          n_sampled = inc64 s.n_sampled;
          n_sample_new = if hit then inc64 s.n_sample_new else s.n_sample_new;
          n_sample_new_tuples =
              if new_bits == 2 then inc64 s.n_sample_new_tuples else s.n_sample_new_tuples;
          n_sample_new_filtered =
              if hit && s.last_filtered
              then inc64 s.n_sample_new_filtered
              else s.n_sample_new_filtered;
          virgin_missed = (has_new_bits s.virgin_missed edge_cls).1;
        }
