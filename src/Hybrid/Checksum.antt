-- ===== src/Hybrid/Checksum.antt =====
-- The checksum of src/hybrid.c: `hash32` in the 32-bit variant, which is the one that is compiled
-- for the boards (the other one stands under `__x86_64__`). Machine words are numbers below 2 ^ 32,
-- with the wrap-around written out; the target is little-endian.
use coresight_trace.Base.{
  ℕ, zero, suc, ◌+◌, ◌-◌, ◌*◌, ◌/◌, ◌%◌, ◌^◌, ◌<◌, List, ◌∷◌, bit_xor, arith,
}
use coresight_trace.Base.Bits.{bit_xor-lt}

abbrev pub u32 : ℕ → ℕ
u32 n = n % 2 ^ 32

-- `ROL32`: the two shifted parts share no bit, so `|` is a sum.
abbrev rol32 : ℕ → ℕ → ℕ
rol32 x r = u32 (x * 2 ^ r) + x / 2 ^ (32 - r)

abbrev word : ℕ → ℕ → ℕ → ℕ → ℕ
word a b c d = a + b * 2 ^ 8 + c * 2 ^ 16 + d * 2 ^ 24

-- The body of the loop.
pub mix : ℕ → ℕ → ℕ
mix h1 k1 =
    let k1 = u32 (k1 * 0xcc9e2d51) in
    let k1 = u32 (rol32 k1 15 * 0x1b873593) in
    let h1 = rol32 (bit_xor h1 k1) 13 in u32 (h1 * 5 + 0xe6546b64)

-- The loop over the words of the key, with the number that are left. The key is never shorter.
pub hash_words : ℕ → List ℕ → ℕ → ℕ
hash_words zero key h1 = h1
hash_words (suc n) (a ∷ b ∷ c ∷ d ∷ key) h1 = hash_words n key (mix h1 (word a b c d))
hash_words (suc n) key h1 = h1

abbrev fold_right : ℕ → ℕ → ℕ
fold_right h s = bit_xor h (h / 2 ^ s)

pub finish : ℕ → ℕ
finish h1 =
    let h1 = u32 (fold_right h1 16 * 0x85ebca6b) in
    let h1 = u32 (fold_right h1 13 * 0xc2b2ae35) in fold_right h1 16

pub hash32 : List ℕ → ℕ → ℕ → ℕ
unfolding finish hash_words mix
hash32 key len seed = finish (hash_words (len / 4) key (bit_xor seed len))

abbrev hash_const : ℕ
hash_const = 0xa5b35705

unfoldable pub checksum : ℕ → List ℕ → ℕ
unfolding hash32
checksum map_size map = hash32 map (u32 map_size) hash_const

finish-lt : (h : ℕ) → finish h < 2 ^ 32
unfolding finish
finish-lt h =
    let h1 = u32 (fold_right h 16 * 0x85ebca6b) in
    let h2 = u32 (fold_right h1 13 * 0xc2b2ae35) in
    bit_xor-lt 32 h2 (h2 / 2 ^ 16) (omega arith) (omega arith)

-- The checksum is a 32-bit word, so its halves index the two filter tables of 2 ^ 16 entries within
-- their bounds.
checksum_halves :
    (map_size : ℕ) (map : List ℕ)
    → (checksum map_size map / 2 ^ 16 < 2 ^ 16) × (checksum map_size map % 2 ^ 16 < 2 ^ 16)
unfolding checksum
checksum_halves map_size map =
    let whole = finish-lt (hash_words (u32 map_size / 4) map (bit_xor hash_const (u32 map_size))) in
    omega arith
