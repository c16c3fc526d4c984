-- ===== src/Proxy/Input.antt =====
-- `input_key` of src/cs-proxy.c: FNV-1a of the test case. The file is read in chunks of 65536 bytes
-- one after the other, which comes to its bytes in order.
use coresight_trace.Base.{
  ℕ, ◌*◌, ◌%◌, ◌^◌, ◌<◌, ◌≢◌, Option, none, some, List, [], ◌∷◌, length, bit_xor, ◌==◌,
  if◌then◌else◌, arith,
}
use coresight_trace.Base.Bits.{bit_xor-lt}

abbrev offset_basis : ℕ
offset_basis = 0xcbf29ce484222325

abbrev u64 : ℕ → ℕ
u64 n = n % 2 ^ 64

pub hash_bytes : ℕ → List ℕ → ℕ
hash_bytes h [] = h
hash_bytes h (b ∷ bs) = hash_bytes (u64 (bit_xor h b * 0x100000001b3)) bs

-- The bytes of the test case, or `none` when it cannot be found or read; `off` ends as their number.
unfoldable pub input_key : Option (List ℕ) → ℕ
unfolding hash_bytes
input_key none = 0
input_key (some bytes) =
    let h = bit_xor (hash_bytes offset_basis bytes) (length bytes) in if h == 0 then 1 else h

hash_bytes-lt : (h : ℕ) (bs : List ℕ) → h < 2 ^ 64 → hash_bytes h bs < 2 ^ 64
unfolding hash_bytes
hash_bytes-lt h [] p = p
hash_bytes-lt h (b ∷ bs) p = hash_bytes-lt (u64 (bit_xor h b * 0x100000001b3)) bs (omega arith)

-- The key of a test case that can be read is a 64-bit number other than 0, the key of one that
-- cannot, if the file's length fits its 64-bit offset.
input_key-nonzero :
    (bytes : List ℕ)
    → length bytes < 2 ^ 64
    → (input_key (some bytes) ≢ input_key none) × (input_key (some bytes) < 2 ^ 64)
unfolding input_key
input_key-nonzero bytes short =
    let hash = hash_bytes offset_basis bytes in
    let fits =
      bit_xor-lt 64 hash (length bytes) (hash_bytes-lt offset_basis bytes (omega arith)) short in
    ground (arith, fits)
