-- ===== src/Hybrid/Bitmap.antt =====
-- The coverage bitmaps of src/hybrid.c: hit-count classes, novelty against a virgin map. A bitmap
-- is the list of its `map_size` bytes; a loop over the index goes down both lists at once.
pub mod Novelty
use coresight_trace.Base.{
  ℕ, zero, suc, ◌+◌, ◌≡◌, Bool, ◌&&◌, not, List, [], ◌∷◌, map, ltb, leb, ◌==◌, if◌then◌else◌,
  bit_and,
}
use coresight_trace.Base.Bytes.{complement}

-- The table `count_class`.
unfoldable pub count_class : ℕ → ℕ
count_class n =
    if n == 0
    then 0
    else if n == 1
    then 1
    else if n == 2
    then 2
    else if n == 3
    then 4
    else if leb n 7
    then 8
    else if leb n 15
    then 16
    else if leb n 31
    then 32
    else if leb n 127
    then 64
    else 128

unfoldable pub classify : List ℕ → List ℕ
unfolding count_class
classify src = map count_class src

-- `cls[i] & virgin[i]`, as a test.
abbrev pub hits : ℕ → ℕ → Bool
hits v c = not (bit_and c v == 0)

-- What the loop of `has_new_bits` makes of `ret` and of one byte of the virgin map.
abbrev pub raise : ℕ → ℕ → ℕ → ℕ
raise ret v c = if hits v c then (if v == 255 then 2 else if ltb 1 ret then ret else 1) else ret

abbrev pub clear : ℕ → ℕ → ℕ
clear v c = if hits v c then bit_and v (complement c) else v

unfoldable pub has_new_bits_from : ℕ → List ℕ → List ℕ → ℕ × List ℕ
has_new_bits_from ret [] cls = (ret, [])
has_new_bits_from ret (v ∷ virgin) [] = (ret, v ∷ virgin)
has_new_bits_from ret (v ∷ virgin) (c ∷ cls) =
    let (ret', virgin') = has_new_bits_from (raise ret v c) virgin cls in
    (ret', clear v c ∷ virgin')

-- 2 for a new tuple, 1 for a new hit count, 0 else, and the virgin map left behind.
unfoldable pub has_new_bits : List ℕ → List ℕ → ℕ × List ℕ
unfolding has_new_bits_from
has_new_bits virgin cls = has_new_bits_from 0 virgin cls

unfoldable pub peek_new_bits_from : ℕ → List ℕ → List ℕ → ℕ
peek_new_bits_from ret [] cls = ret
peek_new_bits_from ret (v ∷ virgin) [] = ret
peek_new_bits_from ret (v ∷ virgin) (c ∷ cls) =
    let rest = peek_new_bits_from (if hits v c then 1 else ret) virgin cls in
    if hits v c && (v == 255) then 2 else rest

unfoldable pub peek_new_bits : List ℕ → List ℕ → ℕ
unfolding peek_new_bits_from
peek_new_bits virgin cls = peek_new_bits_from 0 virgin cls

unfoldable pub count_non_255_bytes : List ℕ → ℕ
count_non_255_bytes [] = 0
count_non_255_bytes (v ∷ virgin) = (if v == 255 then 0 else 1) + count_non_255_bytes virgin
