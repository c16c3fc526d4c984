-- ===== src/Hybrid/Passes/Purge.antt =====
-- The purge interval over any sequence of passes.
use coresight_trace.Base.{
  ℕ, ◌≤◌, ◌≡◌, refl, inl, inr, Bool, Option, none, some, List, [], ◌∷◌, Bool-cases, inc64, arith,
}
use coresight_trace.Hybrid.State.{
  purge_interval_level4, Hybrid, hybrid_init, remember_input, known_input, known_path, discard_with,
  discard,
}
use coresight_trace.Hybrid.Passes.{
  since_purge, next_interval, purge, purge_check, hybrid_after_path, judge_edges, keep_edges,
  hybrid_after_confirm, hybrid_after_sample,
}
use coresight_trace.Hybrid.Passes.Cases.{found_cksum, as_filtered, as_old, after_path-cases}
use coresight_trace.Hybrid.Passes.Stale.{Pass, path_pass, edge_pass, sample_pass, run}

module _ (rescale : ℕ → ℕ → ℕ → ℕ) where
  -- The interval is within its cap, and no more executions than the cap have passed since the last
  -- check of the coverage.
  abbrev pub Timely : Hybrid → Type 0
  Timely s = (s.purge_interval ≤ purge_interval_level4) × (since_purge s ≤ purge_interval_level4)

  next_interval-le :
      (s : Hybrid)
      → s.purge_interval ≤ purge_interval_level4
      → next_interval rescale s ≤ purge_interval_level4
  unfolding next_interval
  next_interval-le s h = ground arith

  purge_check-Timely : (s : Hybrid) → Timely s → Timely (purge_check rescale s)
  unfolding purge_check purge
  purge_check-Timely s h = ground (
    arith,
    next_interval-le (record s {
      real_execs = inc64 s.real_execs;
      virgin_atom = s.virgin_atom_real;
      purge_real = inc64 s.purge_real;
    }),
  )

  -- Two states whose purge counters agree.
  abbrev SameCounters : Hybrid → Hybrid → Type 0
  SameCounters s t =
      (t.purge_interval ≡ s.purge_interval)
      × (t.real_execs ≡ s.real_execs)
      × (t.pre_real_execs ≡ s.pre_real_execs)

  Timely-same : (s t : Hybrid) → SameCounters s t → Timely s → Timely t
  Timely-same s t e h = let (interval, real, pre) = e in rw (interval, real, pre) h

  remember_input-SameCounters :
      (key : ℕ) (m : List ℕ) (s : Hybrid) → SameCounters s (remember_input key m s)
  unfolding remember_input
  remember_input-SameCounters key m s = ground arith

  discard_with-SameCounters :
      (key : ℕ) (input known : Option (List ℕ)) (s : Hybrid)
      → SameCounters s (discard_with key input known s).1
  unfolding discard_with
  discard_with-SameCounters key (some m) known s = (refl, refl, refl)
  discard_with-SameCounters key none (some m) s = remember_input-SameCounters key m s
  discard_with-SameCounters key none none s = (refl, refl, refl)

  discard-Timely : (cksum key : ℕ) (s : Hybrid) → Timely s → Timely (discard cksum key s).1
  unfolding discard
  discard-Timely cksum key s =
      Timely-same s (discard_with key (known_input key s) (known_path cksum s) s).1
        (discard_with-SameCounters key (known_input key s) (known_path cksum s) s)

  after_path-Timely :
      (map : List ℕ) (overflowed : Bool) (key : ℕ) (s : Hybrid)
      → Timely s
      → Timely (hybrid_after_path rescale map overflowed key s).2
  after_path-Timely map overflowed key s h =
      let begun = purge_check-Timely (record s { path_execs = inc64 s.path_execs }) h in
      after_path-cases rescale (λ r. Timely r.2) map overflowed key s
        (λ hit. discard-Timely (found_cksum rescale map s) key (as_filtered rescale s) begun)
        (λ fresh seen. discard-Timely (found_cksum rescale map s) key (as_old rescale map s) begun)
        (λ fresh new. begun)

  judge_edges-SameCounters :
      (map : List ℕ) (s : Hybrid) → SameCounters s (judge_edges rescale map s)
  unfolding judge_edges
  judge_edges-SameCounters map s = ground arith

  keep_edges-SameCounters :
      (map : List ℕ) (overflowed : Bool) (s : Hybrid)
      → SameCounters s (keep_edges rescale map overflowed s)
  unfolding keep_edges remember_input
  keep_edges-SameCounters map overflowed s = ground arith

  after_confirm-Timely :
      (map : List ℕ) (overflowed : Bool) (s : Hybrid)
      → Timely s
      → Timely (hybrid_after_confirm rescale map overflowed s)
  unfolding hybrid_after_confirm
  after_confirm-Timely map overflowed s h =
      let t = purge_check rescale s in
      let u = judge_edges rescale map t in
      Timely-same u (keep_edges rescale map overflowed u) (keep_edges-SameCounters map overflowed u)
        (Timely-same t u (judge_edges-SameCounters map t) (purge_check-Timely s h))

  after_sample-Timely :
      (map : List ℕ) (overflowed : Bool) (s : Hybrid)
      → Timely s
      → Timely (hybrid_after_sample rescale map overflowed s)
  unfolding hybrid_after_sample
  after_sample-Timely map overflowed s h = elim (Bool-cases overflowed) [
    | inl cut ↦ rw cut h
    | inr whole ↦ rw whole h
  ]

  run-Timely : (ps : List Pass) (s : Hybrid) → Timely s → Timely (run rescale ps s)
  unfolding run
  run-Timely [] s h = h
  run-Timely (path_pass map overflowed key ∷ ps) s h =
      run-Timely ps _ (after_path-Timely map overflowed key s h)
  run-Timely (edge_pass map overflowed ∷ ps) s h =
      run-Timely ps _ (after_confirm-Timely map overflowed s h)
  run-Timely (sample_pass map overflowed ∷ ps) s h =
      run-Timely ps _ (after_sample-Timely map overflowed s h)

  -- After any sequence of passes from the start, and however a double rescales the interval, the
  -- purge interval is at most its cap of 30000, and so is the number of counted passes since the
  -- coverage was last checked.
  pub purge_check-timely :
      (size : ℕ) (ps : List Pass)
      → let s = run rescale ps (hybrid_init size) in
        (s.purge_interval ≤ purge_interval_level4) × (since_purge s ≤ purge_interval_level4)
  unfolding hybrid_init
  purge_check-timely size ps = run-Timely ps (hybrid_init size) (init-Timely size)
    where
      init-Timely : (size : ℕ) → Timely (hybrid_init size)
      init-Timely size = omega arith
