-- ===== src/Hybrid/Passes/Known.antt =====
-- What the slots of `inputs` remember for a key, across `remember_input` and `discard`.
use coresight_trace.Base.{
  ℕ, ◌≡◌, ◌≢◌, refl, inl, inr, true, ◌||◌, Option, none, some, List, replicate, ◌==◌, Bool-cases,
  ◌%◌, arith,
}
use coresight_trace.Hybrid.State.{
  input_slots, Hybrid, held, is_some, remember_input, known_input, known_path, discard_with,
  discard,
}

-- Two keys that share a slot of `inputs` are one.
abbrev pub Apart : ℕ → ℕ → Type 0
Apart key k = k % input_slots ≡ key % input_slots → k ≡ key

pub remember_input-keeps :
    (key k : ℕ) (m m' : List ℕ) (s : Hybrid)
    → Apart key k
    → known_input key s ≡ some m
    → known_input key (remember_input k m' s) ≡ some m
unfolding remember_input
remember_input-keeps key k m m' s apart h =
    elim (Bool-cases ((k == 0) || is_some (held (s.inputs (k % input_slots)) k))) [
      | inl kept ↦ rw kept h
      | inr new ↦ rw new (elim (Bool-cases ((k % input_slots) == (key % input_slots))) [
        | inl same ↦
            let one : k ≡ key = apart (ground arith) in
            let bad : ((k == 0) || is_some (held (s.inputs (k % input_slots)) k)) ≡ true =
              rw one (ground arith) in
            cc
        | inr other ↦ rw other h
      ])
    ]

remember_input-known :
    (key : ℕ) (m : List ℕ) (s : Hybrid)
    → key ≢ 0
    → known_input key s ≡ none
    → known_input key (remember_input key m s) ≡ some m
unfolding remember_input
remember_input-known key m s nonzero h = ground arith

-- Whatever is discarded, what is known for a key stays.
discard_with-keeps :
    (key k : ℕ) (m : List ℕ) (input path : Option (List ℕ)) (s : Hybrid)
    → Apart key k
    → known_input key s ≡ some m
    → known_input key (discard_with k input path s).1 ≡ some m
unfolding discard_with
discard_with-keeps key k m (some x) path s apart h = h
discard_with-keeps key k m none (some x) s apart h = remember_input-keeps key k m x s apart h
discard_with-keeps key k m none none s apart h = h

discard-keeps :
    (key k cksum : ℕ) (m : List ℕ) (s : Hybrid)
    → Apart key k
    → known_input key s ≡ some m
    → known_input key (discard cksum k s).1 ≡ some m
unfolding discard
discard-keeps key k cksum m s apart h =
    discard_with-keeps key k m (known_input k s) (known_path cksum s) s apart h

-- A map that is shown and not empty is known for the input afterwards.
discard_with-known :
    (key : ℕ) (input path : Option (List ℕ)) (s : Hybrid)
    → key ≢ 0
    → known_input key s ≡ input
    → (discard_with key input path s).0 ≢ replicate s.map_size 0
    → known_input key (discard_with key input path s).1 ≡ some (discard_with key input path s).0
unfolding discard_with
discard_with-known key (some m) path s nonzero e shown = e
discard_with-known key none (some m) s nonzero e shown = remember_input-known key m s nonzero e
discard_with-known key none none s nonzero e shown = absurd (shown refl)

abbrev pub Known : ℕ → List ℕ → Hybrid → Type 0
Known key m s = (known_input key s ≡ some m) × Apart key s.path_kept_input

pub remember_input-path_kept_input :
    (key : ℕ) (m : List ℕ) (s : Hybrid)
    → (remember_input key m s).path_kept_input ≡ s.path_kept_input
unfolding remember_input
remember_input-path_kept_input key m s = ground arith

discard_with-path_kept_input :
    (key : ℕ) (input path : Option (List ℕ)) (s : Hybrid)
    → (discard_with key input path s).1.path_kept_input ≡ s.path_kept_input
unfolding discard_with
discard_with-path_kept_input key (some m) path s = refl
discard_with-path_kept_input key none (some m) s = remember_input-path_kept_input key m s
discard_with-path_kept_input key none none s = refl

pub discard-Known :
    (key k cksum : ℕ) (m : List ℕ) (s : Hybrid)
    → Apart key k
    → Known key m s
    → Known key m (discard cksum k s).1
unfolding discard
discard-Known key k cksum m s apart v = (
  discard-keeps key k cksum m s apart v.0,
  rw (discard_with-path_kept_input k (known_input k s) (known_path cksum s) s) v.1,
)

pub discard-learns :
    (cksum key : ℕ) (s : Hybrid)
    → key ≢ 0
    → Apart key s.path_kept_input
    → (discard cksum key s).0 ≢ replicate s.map_size 0
    → Known key (discard cksum key s).0 (discard cksum key s).1
unfolding discard
discard-learns cksum key s nonzero apart shown = (
  discard_with-known key (known_input key s) (known_path cksum s) s nonzero refl shown,
  rw (discard_with-path_kept_input key (known_input key s) (known_path cksum s) s) apart,
)

pub discard-shows :
    (cksum key : ℕ) (m : List ℕ) (s : Hybrid)
    → known_input key s ≡ some m
    → (discard cksum key s).0 ≡ m
unfolding discard discard_with
discard-shows cksum key m s h = rw h refl
