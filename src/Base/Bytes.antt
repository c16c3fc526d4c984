-- ===== src/Base/Bytes.antt =====
-- Bytes as numbers below 256, and the facts on `&` and `~` that coverage maps rest on.
use coresight_trace.Base.Tests.{◌==◌}
use Prim.Native.Nat.{ℕ, zero, suc, ◌-◌, ◌<◌, bit_and}
use mathlib.Core.Path.{◌≡◌, refl, sym, ap, ◌∙◌}
use coresight_trace.Base.Bits.{bit_and_comm, bit_and_assoc, zero-bit_and}
use mathlib.Core.Bool.{Bool, true, ◌&&◌}
use native.Mathlib.Omega.{arith}

-- `~c` on an unsigned char
abbrev pub complement : ℕ → ℕ
complement c = 255 - c

-- Whether a byte shares no bit with its complement, for all bytes under a bound.
disjoint_under : ℕ → Bool
disjoint_under zero = true
disjoint_under (suc c) = (bit_and c (complement c) == 0) && disjoint_under c

all_disjoint : disjoint_under 256 ≡ true
unfolding disjoint_under
all_disjoint = refl

disjoint_at : (bound c : ℕ) → disjoint_under bound ≡ true → c < bound → bit_and c (complement c) ≡ 0
unfolding disjoint_under
disjoint_at zero c _ inside = absurd (omega arith)
disjoint_at (suc bound) c holds inside = ground (arith, disjoint_at bound c)

bit_and-complement : (c : ℕ) → c < 256 → bit_and c (complement c) ≡ 0
bit_and-complement c = disjoint_at 256 c all_disjoint

-- Clearing the bits of `c` leaves none of them.
pub bit_and-cleared : (c v : ℕ) → c < 256 → bit_and c (bit_and v (complement c)) ≡ 0
bit_and-cleared c v h =
    ap (bit_and c) (bit_and_comm v (complement c))
    ∙ sym (bit_and_assoc c (complement c) v)
    ∙ ap (λ x. bit_and x v) (bit_and-complement c h)
    ∙ zero-bit_and v
