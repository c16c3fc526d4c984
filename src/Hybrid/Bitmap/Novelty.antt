-- ===== src/Hybrid/Bitmap/Novelty.antt =====
-- What `has_new_bits` and `peek_new_bits` compute: the novelty of a classified map.
use coresight_trace.Base.{
  ℕ, zero, suc, ◌≤◌, ◌<◌, max, ◌≡◌, refl, ap, ap₂, ◌∙◌, List, [], ◌∷◌, ◌==◌, if◌then◌else◌, bit_and,
  replicate, All, arith,
}
use coresight_trace.Base.Bits.{bit_and-part, zero-bit_and}
use coresight_trace.Base.Bytes.{complement, bit_and-cleared}
use coresight_trace.Hybrid.Bitmap.{
  count_class, classify, hits, raise, clear, has_new_bits_from, has_new_bits, peek_new_bits_from,
  peek_new_bits,
}

-- One byte: 2 if the tuple is new, 1 if only the hit count is, 0 if it has been seen.
abbrev pub novelty_byte : ℕ → ℕ → ℕ
novelty_byte v c = if hits v c then (if v == 255 then 2 else 1) else 0

-- A map: the highest of its bytes.
abbrev pub novelty : List ℕ → List ℕ → ℕ
novelty [] cls = 0
novelty (v ∷ virgin) [] = 0
novelty (v ∷ virgin) (c ∷ cls) = max (novelty_byte v c) (novelty virgin cls)

-- The virgin map without the bits of the classified map.
abbrev pub cleared : List ℕ → List ℕ → List ℕ
cleared [] cls = []
cleared (v ∷ virgin) [] = v ∷ virgin
cleared (v ∷ virgin) (c ∷ cls) = clear v c ∷ cleared virgin cls

has_new_bits_from-novelty :
    (ret : ℕ) (virgin cls : List ℕ)
    → ret ≤ 2
    → has_new_bits_from ret virgin cls ≡ (max ret (novelty virgin cls), cleared virgin cls)
unfolding has_new_bits_from
has_new_bits_from-novelty ret [] cls h = ground arith
has_new_bits_from-novelty ret (v ∷ virgin) [] h = ground arith
has_new_bits_from-novelty ret (v ∷ virgin) (c ∷ cls) h =
    ground (arith, has_new_bits_from-novelty (raise ret v c) virgin cls)

peek_new_bits_from-novelty :
    (ret : ℕ) (virgin cls : List ℕ)
    → ret ≤ 1
    → peek_new_bits_from ret virgin cls ≡ max ret (novelty virgin cls)
unfolding peek_new_bits_from
peek_new_bits_from-novelty ret [] cls h = ground arith
peek_new_bits_from-novelty ret (v ∷ virgin) [] h = ground arith
peek_new_bits_from-novelty ret (v ∷ virgin) (c ∷ cls) h = ground (
  arith,
  peek_new_bits_from-novelty (if hits v c then 1 else ret) virgin cls,
  novelty_le virgin cls,
)
  where
    novelty_le : (virgin cls : List ℕ) → novelty virgin cls ≤ 2
    novelty_le [] cls = omega arith
    novelty_le (v ∷ virgin) [] = omega arith
    novelty_le (v ∷ virgin) (c ∷ cls) = ground (arith, novelty_le virgin cls)

pub has_new_bits-novelty :
    (virgin cls : List ℕ) → has_new_bits virgin cls ≡ (novelty virgin cls, cleared virgin cls)
unfolding has_new_bits
has_new_bits-novelty virgin cls =
    let least : max 0 (novelty virgin cls) ≡ novelty virgin cls = omega arith in
    has_new_bits_from-novelty 0 virgin cls (omega arith) ∙ ap (λ n. (n, cleared virgin cls)) least

pub peek_new_bits-novelty : (virgin cls : List ℕ) → peek_new_bits virgin cls ≡ novelty virgin cls
unfolding peek_new_bits
peek_new_bits-novelty virgin cls =
    omega (arith, peek_new_bits_from-novelty 0 virgin cls (omega arith))

count_class-lt : (n : ℕ) → count_class n < 256
unfolding count_class
count_class-lt n = ground arith

classify-bytes : (src : List ℕ) → All (λ c. c < 256) (classify src)
unfolding classify
classify-bytes [] = tt
classify-bytes (n ∷ src) = (count_class-lt n, classify-bytes src)

-- A byte that is cleared is not hit again, and clearing makes no byte hit that was not.
not_hit_again : (v c : ℕ) → c < 256 → bit_and c (clear v c) ≡ 0
not_hit_again v c h = ground (arith, bit_and-cleared c v)

stays_unhit : (v c d : ℕ) → bit_and d v ≡ 0 → bit_and d (clear v c) ≡ 0
stays_unhit v c d h = ground (arith, bit_and-part d v (complement c))

novelty-cleared_self :
    (virgin cls : List ℕ) → All (λ c. c < 256) cls → novelty (cleared virgin cls) cls ≡ 0
novelty-cleared_self [] cls h = refl
novelty-cleared_self (v ∷ virgin) [] h = refl
novelty-cleared_self (v ∷ virgin) (c ∷ cls) h =
    let here = not_hit_again v c h.0 in
    let later = novelty-cleared_self virgin cls h.1 in rw (here, later) refl

pub novelty-cleared :
    (virgin cls d : List ℕ) → novelty virgin d ≡ 0 → novelty (cleared virgin cls) d ≡ 0
novelty-cleared [] cls d h = refl
novelty-cleared (v ∷ virgin) [] d h = h
novelty-cleared (v ∷ virgin) (c ∷ cls) [] h = refl
novelty-cleared (v ∷ virgin) (c ∷ cls) (x ∷ d) h =
    let unhit : bit_and x v ≡ 0 = ground arith in
    let later = novelty-cleared virgin cls d (ground arith) in
    rw (stays_unhit v c x unhit, later) refl

cleared_of_zero : (virgin cls : List ℕ) → novelty virgin cls ≡ 0 → cleared virgin cls ≡ virgin
cleared_of_zero [] cls h = refl
cleared_of_zero (v ∷ virgin) [] h = refl
cleared_of_zero (v ∷ virgin) (c ∷ cls) h = ground (arith, cleared_of_zero virgin cls)

-- The verdict on a map and what is left of the virgin map: the verdict is the map's novelty, the
-- look without a change gives the same, and the map has nothing new on a second look, which changes
-- nothing more.
pub has_new_bits_lem :
    (virgin src : List ℕ)
    → let cls = classify src in
      let (verdict, virgin') = has_new_bits virgin cls in
      (verdict ≡ novelty virgin cls)
      × (peek_new_bits virgin cls ≡ verdict)
      × (has_new_bits virgin' cls ≡ (0, virgin'))
has_new_bits_lem virgin src =
    let cls = classify src in
    let again = novelty-cleared_self virgin cls (classify-bytes src) in
    rw (has_new_bits-novelty virgin cls) (
      refl,
      peek_new_bits-novelty virgin cls,
      has_new_bits-novelty (cleared virgin cls) cls
          ∙ ap₂ (λ n l. (n, l)) again (cleared_of_zero (cleared virgin cls) cls again),
    )

pub novelty-cleared-classify :
    (virgin src : List ℕ) → novelty (cleared virgin (classify src)) (classify src) ≡ 0
novelty-cleared-classify virgin src =
    novelty-cleared_self virgin (classify src) (classify-bytes src)

-- An empty map has nothing new.
pub novelty-zeros : (n : ℕ) (virgin : List ℕ) → novelty virgin (classify (replicate n 0)) ≡ 0
unfolding classify count_class
novelty-zeros zero [] = refl
novelty-zeros zero (v ∷ virgin) = refl
novelty-zeros (suc n) [] = refl
novelty-zeros (suc n) (v ∷ virgin) = rw (zero-bit_and v, novelty-zeros n virgin) refl
