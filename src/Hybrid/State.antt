-- ===== src/Hybrid/State.antt =====
-- The state of src/hybrid.c and its entry points. The statics are the fields of a record; the
-- scratch maps `path_cls` and `edge_cls`, written before each use, are local. `malloc` is taken to
-- succeed (`xmalloc` exits otherwise), and what is printed under `diag` is left out.
use coresight_trace.Base.{
  ℕ, ◌%◌, Bool, true, false, ◌||◌, Option, none, some, List, replicate, ◌==◌, if◌then◌else◌, inc64,
}

abbrev pub purge_interval_level1 : ℕ
purge_interval_level1 = 3000

abbrev pub purge_interval_level2 : ℕ
purge_interval_level2 = 7500

abbrev pub purge_interval_level3 : ℕ
purge_interval_level3 = 15000

abbrev pub purge_interval_level4 : ℕ
purge_interval_level4 = 30000

abbrev pub cache_slots : ℕ
cache_slots = 256

abbrev pub input_slots : ℕ
input_slots = 64

pub data HybridVerdict : Type 0 where
  discarded confirm : HybridVerdict

-- A slot of `cache` (under a checksum) or of `inputs` (under a key); `none` is a null map.
abbrev pub Slot : Type 0
Slot = Option (ℕ × List ℕ)

pub record Hybrid : Type 0 where
  pub map_size : ℕ
  pub virgin_atom : List ℕ
  pub virgin_atom_real : List ℕ
  pub virgin_edge : List ℕ
  pub virgin_missed : List ℕ
  pub path_kept : List ℕ
  pub path_kept_cksum : ℕ
  pub path_kept_overflow : Bool
  pub path_kept_input : ℕ
  pub last_filtered : Bool
  pub atom_check_up : ℕ → Bool
  pub atom_check_down : ℕ → Bool
  pub cache : ℕ → Slot
  pub inputs : ℕ → Slot
  pub real_execs : ℕ
  pub path_execs : ℕ
  pub queued_atom_paths : ℕ
  pub pre_real_execs : ℕ
  pub pre_virgin_bits : ℕ
  pub purge_interval : ℕ
  pub purge_attempt : ℕ
  pub purge_real : ℕ
  pub n_filtered : ℕ
  pub n_old_path : ℕ
  pub n_confirmed : ℕ
  pub n_new_edges : ℕ
  pub n_new_tuples : ℕ
  pub n_cache_hits : ℕ
  pub n_input_hits : ℕ
  pub n_empty : ℕ
  pub n_sampled : ℕ
  pub n_sample_overflow : ℕ
  pub n_sample_new : ℕ
  pub n_sample_new_tuples : ℕ
  pub n_sample_new_filtered : ℕ

-- An array after a write at one index.
abbrev pub update {ℓ} : {A : Type ℓ} → (ℕ → A) → ℕ → A → ℕ → A
update f i a j = if i == j then a else f j

-- The bytes that `malloc` leaves in `path_kept` are read only after a confirm has written them: they
-- are 0 here.
unfoldable pub hybrid_init : ℕ → Hybrid
hybrid_init size = record {
  map_size = size;
  virgin_atom = replicate size 255;
  virgin_atom_real = replicate size 255;
  virgin_edge = replicate size 255;
  virgin_missed = replicate size 255;
  path_kept = replicate size 0;
  path_kept_cksum = 0;
  path_kept_overflow = false;
  path_kept_input = 0;
  last_filtered = false;
  atom_check_up = λ _. false;
  atom_check_down = λ _. false;
  cache = λ _. none;
  inputs = λ _. none;
  real_execs = 0;
  path_execs = 0;
  queued_atom_paths = 0;
  pre_real_execs = 0;
  pre_virgin_bits = 0;
  purge_interval = purge_interval_level1;
  purge_attempt = 0;
  purge_real = 0;
  n_filtered = 0;
  n_old_path = 0;
  n_confirmed = 0;
  n_new_edges = 0;
  n_new_tuples = 0;
  n_cache_hits = 0;
  n_input_hits = 0;
  n_empty = 0;
  n_sampled = 0;
  n_sample_overflow = 0;
  n_sample_new = 0;
  n_sample_new_tuples = 0;
  n_sample_new_filtered = 0;
}

-- Whether a slot holds a map under this key.
abbrev pub held : Slot → ℕ → Option (List ℕ)
held none key = none
held (some (k, m)) key = if k == key then some m else none

abbrev pub is_some {ℓ} : {A : Type ℓ} → Option A → Bool
is_some none = false
is_some (some _) = true

unfoldable pub remember_input : ℕ → List ℕ → Hybrid → Hybrid
remember_input key m s =
    let slot = key % input_slots in
    if (key == 0) || is_some (held (s.inputs slot) key)
    then s
    else record s { inputs = update s.inputs slot (some (key, m)) }

-- The map that is known for an input, if its key is.
abbrev pub known_input : ℕ → Hybrid → Option (List ℕ)
known_input key s = if key == 0 then none else held (s.inputs (key % input_slots)) key

abbrev pub known_path : ℕ → Hybrid → Option (List ℕ)
known_path cksum s = held (s.cache (cksum % cache_slots)) cksum

-- The branches of `discard`, on the map known for the input and the one known for the path.
unfoldable pub discard_with : ℕ → Option (List ℕ) → Option (List ℕ) → Hybrid → List ℕ × Hybrid
unfolding remember_input
discard_with key (some m) path s = (m, record s { n_input_hits = inc64 s.n_input_hits })
discard_with key none (some m) s =
    let s' = remember_input key m s in (m, record s' { n_cache_hits = inc64 s'.n_cache_hits })
discard_with key none none s = (replicate s.map_size 0, record s { n_empty = inc64 s.n_empty })

-- The map that replaces the discarded one, and the state.
unfoldable pub discard : ℕ → ℕ → Hybrid → List ℕ × Hybrid
unfolding discard_with
discard cksum key s = discard_with key (known_input key s) (known_path cksum s) s
