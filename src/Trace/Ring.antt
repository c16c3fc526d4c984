-- ===== src/Trace/Ring.antt =====
-- What is pending in the ring, and that it is read in the order it was written.
use coresight_trace.Base.{
  ℕ, zero, suc, ◌+◌, ◌-◌, ◌≤◌, ◌<◌, min, ◌≡◌, refl, ap, ◌∙◌, List, [], ◌∷◌, ◌++◌, length,
  length-take, length-drop, length-append, get_or, get_or-append_left, take, drop, ltb,
  if◌then◌else◌, dec_lt, arith,
}
use coresight_trace.Trace.Buffer.{Etr, etr_ram_size, etr_pending, etr_direct_read}

pub same_index : (xs : List ℕ) (i j : ℕ) → i ≡ j → get_or xs i 0 ≡ get_or xs j 0
same_index xs i j e = ap (λ k. get_or xs k 0) e

pub get_or-take : (n i : ℕ) (xs : List ℕ) → i < n → get_or (take n xs) i 0 ≡ get_or xs i 0
get_or-take zero i xs h = absurd (omega arith)
get_or-take (suc n) i [] h = refl
get_or-take (suc n) zero (x ∷ xs) h = refl
get_or-take (suc n) (suc i) (x ∷ xs) h = get_or-take n i xs (omega arith)

pub get_or-drop : (n i : ℕ) (xs : List ℕ) → get_or (drop n xs) i 0 ≡ get_or xs (n + i) 0
get_or-drop zero i xs = same_index xs i (zero + i) (omega arith)
get_or-drop (suc n) i [] = refl
get_or-drop (suc n) i (x ∷ xs) =
    get_or-drop n i xs ∙ same_index (x ∷ xs) (suc (n + i)) (suc n + i) (omega arith)

pub get_or-append_right :
    (xs ys : List ℕ) (i : ℕ) → get_or (xs ++ ys) (length xs + i) 0 ≡ get_or ys i 0
get_or-append_right [] ys i = same_index ys (0 + i) i (omega arith)
get_or-append_right (x ∷ xs) ys i =
    same_index (x ∷ xs ++ ys) (suc (length xs) + i) (suc (length xs + i)) (omega arith)
    ∙ get_or-append_right xs ys i

-- The place in the ring that is `i` bytes after `start`.
abbrev pub ring_index : Etr → ℕ → ℕ → ℕ
ring_index e start i =
    if ltb (start + i) (etr_ram_size e) then start + i else start + i - etr_ram_size e

pub length-etr_direct_read :
    (e : Etr) (len start : ℕ)
    → len ≤ etr_ram_size e
    → start < etr_ram_size e
    → length (etr_direct_read e len start) ≡ len
unfolding etr_direct_read
length-etr_direct_read e len start h k =
    let first = min len (etr_ram_size e - start) in
    omega (
      arith,
      length-append (take first (drop start e.ram)) (take (len - first) e.ram),
      length-take first (drop start e.ram),
      length-drop start e.ram,
      length-take (len - first) e.ram,
    )

pub get_or-etr_direct_read :
    (e : Etr) (len start i : ℕ)
    → len ≤ etr_ram_size e
    → start < etr_ram_size e
    → i < len
    → get_or (etr_direct_read e len start) i 0 ≡ get_or e.ram (ring_index e start i) 0
unfolding etr_direct_read
get_or-etr_direct_read e len start i h k lt =
    let first = min len (etr_ram_size e - start) in
    let low = take first (drop start e.ram) in
    let high = take (len - first) e.ram in
    let size : length low ≡ first =
      omega (arith, length-take first (drop start e.ram), length-drop start e.ram) in
    elim (dec_lt i first) [
      | yes inside ↦
          get_or-append_left low high i 0 (omega arith)
          ∙ get_or-take first i (drop start e.ram) inside
          ∙ get_or-drop start i e.ram
          ∙ same_index e.ram (start + i) (ring_index e start i) (ground arith)
      | no beyond ↦
          same_index (low ++ high) i (length low + (i - first)) (omega arith)
          ∙ get_or-append_right low high (i - first)
          ∙ get_or-take (len - first) (i - first) e.ram (omega arith)
          ∙ same_index e.ram (i - first) (ring_index e start i) (ground arith)
    ]

-- Where the registers are inside the ring, `etr_pending` gives a span of the ring that ends where
-- the hardware writes next.
pub etr_pending-span :
    (e : Etr)
    → e.etr_ram_addr ≤ e.rwp
    → e.rwp < e.etr_ram_addr + etr_ram_size e
    → e.etr_ram_addr ≤ e.rrp
    → e.rrp < e.etr_ram_addr + etr_ram_size e
    → let (len, start) = etr_pending e in
      (len ≤ etr_ram_size e)
      × (start < etr_ram_size e)
      × (ring_index e start len ≡ e.rwp - e.etr_ram_addr)
unfolding etr_pending
etr_pending-span e a b c d = ground arith
