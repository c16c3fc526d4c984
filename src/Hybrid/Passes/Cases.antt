-- ===== src/Hybrid/Passes/Cases.antt =====
-- The branches of `hybrid_after_path` as one case distinction.
use coresight_trace.Base.{ℕ, ◌≡◌, inl, inr, Bool, true, false, List, ◌==◌, Bool-cases, inc64}
use coresight_trace.Hybrid.Bitmap.{classify, has_new_bits}
use coresight_trace.Hybrid.Checksum.{checksum}
use coresight_trace.Hybrid.State.{HybridVerdict, confirm, Hybrid}
use coresight_trace.Hybrid.Passes.{discard_as, filtered, start_path, hybrid_after_path}

module _ (rescale : ℕ → ℕ → ℕ → ℕ) where
  -- What the path pass has found when it comes to its tests.
  abbrev pub found_cksum : List ℕ → Hybrid → ℕ
  found_cksum map s = checksum (start_path rescale s).map_size map

  abbrev pub looked : List ℕ → Hybrid → ℕ × List ℕ
  looked map s = has_new_bits (start_path rescale s).virgin_atom (classify map)

  -- The states that the three branches go on with.
  abbrev pub as_filtered : Hybrid → Hybrid
  as_filtered s =
      let s' = start_path rescale s in
      record s' { n_filtered = inc64 s'.n_filtered; last_filtered = true }

  abbrev pub as_old : List ℕ → Hybrid → Hybrid
  as_old map s =
      let s' = start_path rescale s in
      record s' {
        virgin_atom = (looked map s).1;
        n_old_path = inc64 s'.n_old_path;
        last_filtered = false;
      }

  abbrev pub as_confirmed : List ℕ → Bool → ℕ → Hybrid → Hybrid
  as_confirmed map overflowed key s =
      let s' = start_path rescale s in
      record s' {
        virgin_atom = (looked map s).1;
        last_filtered = false;
        queued_atom_paths = inc64 s'.queued_atom_paths;
        path_kept = classify map;
        path_kept_cksum = found_cksum map s;
        path_kept_overflow = overflowed;
        path_kept_input = key;
        n_confirmed = inc64 s'.n_confirmed;
      }

  pub after_path-cases {ℓ} :
      (P : HybridVerdict × List ℕ × Hybrid → Type ℓ) (map : List ℕ) (overflowed : Bool) (key : ℕ)
      (s : Hybrid)
      → (filtered rescale (found_cksum map s) (start_path rescale s) ≡ true
          → P (discard_as (found_cksum map s) key (as_filtered s)))
      → (filtered rescale (found_cksum map s) (start_path rescale s) ≡ false
          → ((looked map s).0 == 0) ≡ true
          → P (discard_as (found_cksum map s) key (as_old map s)))
      → (filtered rescale (found_cksum map s) (start_path rescale s) ≡ false
          → ((looked map s).0 == 0) ≡ false
          → P (confirm, map, as_confirmed map overflowed key s))
      → P (hybrid_after_path rescale map overflowed key s)
  unfolding hybrid_after_path
  after_path-cases P map overflowed key s on_filtered on_old on_new =
      elim (Bool-cases (filtered rescale (found_cksum map s) (start_path rescale s))) [
        | inl hit ↦ rw hit (on_filtered hit)
        | inr fresh ↦ rw fresh (elim (Bool-cases ((looked map s).0 == 0)) [
          | inl seen ↦ rw seen (on_old fresh seen)
          | inr new ↦ rw new (on_new fresh new)
        ])
      ]
