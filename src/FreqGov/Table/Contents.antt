-- ===== src/FreqGov/Table/Contents.antt =====
-- What `read_available_frequencies` leaves in the table: which frequencies, and how many.
use coresight_trace.Base.{
  ℕ, zero, suc, ◌+◌, ◌≤◌, ◌<◌, ◌≡◌, refl, ap, ◌∙◌, inl, inr, ◌&&◌, Option, none, some, List, [],
  ◌∷◌, ◌++◌, length, take, length-append, length-take, ltb, leb, ◌==◌, if◌then◌else◌, All, count,
  Bool-cases, arith,
}
use mathlib.Core.List.{append-nil, append_assoc}
use coresight_trace.FreqGov.Table.{
  freq_table_max, collect, parse, or_bounds, sort, read_available_frequencies,
}
use coresight_trace.FreqGov.Table.Sorted.{
  onto, insert_down, insert_all, All-insert_down, sort-eq-insert_all, Ascending, sort-Ascending,
}

-- The frequencies of the file that lie within the hardware bounds, in the file's order.
abbrev pub accepted : ℕ → ℕ → List ℕ → List ℕ
accepted lo hi [] = []
accepted lo hi (f ∷ fs) = if leb lo f && leb f hi then f ∷ accepted lo hi fs else accepted lo hi fs

-- The first 64 of them, or the two bounds where there are none.
abbrev pub selection : ℕ → ℕ → Option (List ℕ) → List ℕ
selection lo hi none = lo ∷ hi ∷ []
selection lo hi (some file) = elim (take freq_table_max (accepted lo hi file)) [
  | [] ↦ lo ∷ hi ∷ []
  | f ∷ fs ↦ f ∷ fs
]

collect_full : (lo hi : ℕ) (fs t : List ℕ) → length t ≡ 64 → collect lo hi fs t ≡ t
unfolding collect
collect_full lo hi [] t h = refl
collect_full lo hi (f ∷ fs) t h = rw h

-- The parse loop appends what is accepted, up to the room that is left.
collect-accepted :
    (lo hi : ℕ) (fs t : List ℕ) (room : ℕ)
    → length t + room ≡ 64
    → collect lo hi fs t ≡ t ++ take room (accepted lo hi fs)
unfolding collect
collect-accepted lo hi fs t zero h = rw append-nil (collect_full lo hi fs t (omega arith))
collect-accepted lo hi [] t (suc room) h = rw append-nil
collect-accepted lo hi (f ∷ fs) t (suc room) h = ground (
  arith,
  collect-accepted lo hi fs t (suc room) h,
  collect-accepted lo hi fs (t ++ f ∷ []) room,
  length-append t (f ∷ []),
  append_assoc t (f ∷ []) (take room (accepted lo hi fs)),
)

parse-selection :
    (lo hi : ℕ) (file : Option (List ℕ)) → or_bounds lo hi (parse lo hi file) ≡ selection lo hi file
unfolding or_bounds parse
parse-selection lo hi none = refl
parse-selection lo hi (some file) =
    rw (collect-accepted lo hi file [] 64 (omega arith)) (bounds (take 64 (accepted lo hi file)))
  where
    bounds :
        (l : List ℕ)
        → (if length l == 0 then lo ∷ hi ∷ [] else l)
          ≡ elim l [ [] ↦ lo ∷ hi ∷ [] | f ∷ fs ↦ f ∷ fs ]
    bounds [] = refl
    bounds (f ∷ fs) = ground arith

count-onto : (a : ℕ) (q s : List ℕ) → count a (onto q s) ≡ count a q + count a s
count-onto a [] s = omega arith
count-onto a (x ∷ q) s = omega (arith, count-onto a q (x ∷ s))

count-insert_down : (a key : ℕ) (q : List ℕ) → count a (insert_down key q) ≡ count a (key ∷ q)
unfolding insert_down
count-insert_down a key [] = refl
count-insert_down a key (x ∷ q) = elim (Bool-cases (ltb key x)) [
  | inl less ↦ rw less (omega (arith, count-insert_down a key q))
  | inr more ↦ rw more
]

count-insert_all : (a : ℕ) (s q : List ℕ) → count a (insert_all s q) ≡ count a s + count a q
unfolding insert_all
count-insert_all a [] q = omega arith
count-insert_all a (x ∷ s) q =
    omega (arith, count-insert_all a s (insert_down x q), count-insert_down a x q)

count-sort : (a : ℕ) (t : List ℕ) → count a (sort t) ≡ count a t
count-sort a t =
    rw (sort-eq-insert_all t)
      (omega (arith, count-onto a (insert_all t []) [], count-insert_all a t []))

-- The table is the ascending arrangement of the selection: the frequencies of the file that lie
-- within the hardware bounds, the first 64 at most, or the two bounds if there are none; each
-- stands in it as often as in the selection.
pub read_available_frequencies-selection :
    (lo hi a : ℕ) (file : Option (List ℕ))
    → Ascending (read_available_frequencies lo hi file)
      × (count a (read_available_frequencies lo hi file) ≡ count a (selection lo hi file))
unfolding read_available_frequencies
read_available_frequencies-selection lo hi a file = (
  sort-Ascending (or_bounds lo hi (parse lo hi file)),
  count-sort a (or_bounds lo hi (parse lo hi file)) ∙ ap (count a) (parse-selection lo hi file),
)

module _ {κ} (P : ℕ → Type κ) where
  All-onto : (q s : List ℕ) → All P q → All P s → All P (onto q s)
  All-onto [] s hq hs = hs
  All-onto (x ∷ q) s hq hs = All-onto q (x ∷ s) hq.1 (hq.0, hs)

  All-insert_all : (s q : List ℕ) → All P s → All P q → All P (insert_all s q)
  unfolding insert_all
  All-insert_all [] q hs hq = hq
  All-insert_all (x ∷ s) q hs hq =
      All-insert_all s (insert_down x q) hs.1 (All-insert_down P x q hs.0 hq)

  All-sort : (t : List ℕ) → All P t → All P (sort t)
  All-sort t h =
      rw (sort-eq-insert_all t) (All-onto (insert_all t []) [] (All-insert_all t [] h tt) tt)

  All-take : (n : ℕ) (xs : List ℕ) → All P xs → All P (take n xs)
  All-take zero xs h = tt
  All-take (suc n) [] h = tt
  All-take (suc n) (x ∷ xs) h = (h.0, All-take n xs h.1)

length-onto : (q s : List ℕ) → length (onto q s) ≡ length q + length s
length-onto [] s = omega arith
length-onto (x ∷ q) s = omega (arith, length-onto q (x ∷ s))

length-insert_down : (key : ℕ) (q : List ℕ) → length (insert_down key q) ≡ length q + 1
unfolding insert_down
length-insert_down key [] = omega arith
length-insert_down key (x ∷ q) = ground (arith, length-insert_down key q)

length-insert_all : (s q : List ℕ) → length (insert_all s q) ≡ length s + length q
unfolding insert_all
length-insert_all [] q = omega arith
length-insert_all (x ∷ s) q =
    omega (arith, length-insert_all s (insert_down x q), length-insert_down x q)

length-sort : (t : List ℕ) → length (sort t) ≡ length t
length-sort t =
    rw (sort-eq-insert_all t)
      (omega (arith, length-onto (insert_all t []) [], length-insert_all t []))

selection-length :
    (lo hi : ℕ) (file : Option (List ℕ))
    → (0 < length (selection lo hi file)) × (length (selection lo hi file) ≤ 64)
selection-length lo hi none = omega arith
selection-length lo hi (some file) = ground (arith, length-take 64 (accepted lo hi file))

accepted-bounds : (lo hi : ℕ) (fs : List ℕ) → All (λ f. (lo ≤ f) × (f ≤ hi)) (accepted lo hi fs)
accepted-bounds lo hi [] = tt
accepted-bounds lo hi (f ∷ fs) = elim (Bool-cases (leb lo f && leb f hi)) [
  | inl inside ↦ rw inside (ground arith, accepted-bounds lo hi fs)
  | inr outside ↦ rw outside (accepted-bounds lo hi fs)
]

selection-bounds :
    (lo hi : ℕ) (file : Option (List ℕ))
    → lo ≤ hi
    → All (λ f. (lo ≤ f) × (f ≤ hi)) (selection lo hi file)
selection-bounds lo hi none h = omega arith
selection-bounds lo hi (some file) h =
    or_pair (take 64 (accepted lo hi file))
      (All-take (λ f. (lo ≤ f) × (f ≤ hi)) 64 (accepted lo hi file) (accepted-bounds lo hi file))
  where
    or_pair :
        (l : List ℕ)
        → All (λ f. (lo ≤ f) × (f ≤ hi)) l
        → All (λ f. (lo ≤ f) × (f ≤ hi)) (elim l [ [] ↦ lo ∷ hi ∷ [] | f ∷ fs ↦ f ∷ fs ])
    or_pair [] a = omega arith
    or_pair (f ∷ fs) a = a

-- The table is never empty, fits its 64 slots, and holds frequencies within the hardware bounds
-- only, if the lower bound is not above the upper one.
pub read_available_frequencies_bounds :
    (lo hi : ℕ) (file : Option (List ℕ))
    → lo ≤ hi
    → (0 < length (read_available_frequencies lo hi file))
      × (length (read_available_frequencies lo hi file) ≤ freq_table_max)
      × All (λ f. (lo ≤ f) × (f ≤ hi)) (read_available_frequencies lo hi file)
unfolding read_available_frequencies
read_available_frequencies_bounds lo hi file h =
    let same = parse-selection lo hi file in
    let size : length (sort (or_bounds lo hi (parse lo hi file))) ≡ length (selection lo hi file) =
      length-sort (or_bounds lo hi (parse lo hi file)) ∙ ap length same in
    let room = selection-length lo hi file in
    (
      omega arith,
      omega arith,
      All-sort (λ f. (lo ≤ f) × (f ≤ hi)) (or_bounds lo hi (parse lo hi file))
          (rw same (selection-bounds lo hi file h)),
    )
