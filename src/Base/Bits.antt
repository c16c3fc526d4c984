-- ===== src/Base/Bits.antt =====
-- The laws of `&` and `^` on numbers of any width that the bitmaps and the checksum need, from the
-- recursion over binary digits that the native operations stand for.
use Prim.Native.Nat.{
  ℕ, zero, suc, ◌+◌, ◌*◌, ◌/◌, ◌%◌, ◌^◌, ◌≤◌, ◌<◌, min, bit_and, bit_xor, digits, differ,
  bit_and-bitwise, bit_xor-bitwise,
}
use mathlib.Core.Path.{◌≡◌, refl, sym, ap, ◌∙◌}
use native.Mathlib.Nat.{pow-suc}
use native.Mathlib.Omega.{arith}

-- A native operation `f` stands for the recursion over the digits of its first argument. What it
-- makes of the lowest digits and what it makes of the others come apart.
module _ (rest : ℕ → ℕ) (op f : ℕ → ℕ → ℕ) (reads : (a b : ℕ) → f a b ≡ digits rest op a a b)
    (splits : (b : ℕ) → rest b ≡ rest (b / 2) * 2 + op 0 (b % 2)) where
  spent : (fuel b : ℕ) → digits rest op fuel 0 b ≡ rest b
  spent zero b = refl
  spent (suc fuel) b = refl

  -- Once the count covers the first number, more of it changes nothing.
  covered : (k l x y : ℕ) → x ≤ k → x ≤ l → digits rest op k x y ≡ digits rest op l x y
  covered k l zero y _ _ = spent k y ∙ sym (spent l y)
  covered zero l (suc x) y low _ = absurd (omega arith)
  covered (suc k) zero (suc x) y _ low = absurd (omega arith)
  covered (suc k) (suc l) (suc x) y p q =
      ap (λ r. r * 2 + op (suc x % 2) (y % 2))
        (covered k l (suc x / 2) (y / 2) (omega arith) (omega arith))

  lowest : (x y : ℕ) → f x y ≡ f (x / 2) (y / 2) * 2 + op (x % 2) (y % 2)
  lowest zero y = reads 0 y ∙ splits y ∙ ap (λ r. r * 2 + op 0 (y % 2)) (sym (reads 0 (y / 2)))
  lowest (suc x) y =
      reads (suc x) y
      ∙ ap (λ r. r * 2 + op (suc x % 2) (y % 2))
          (covered x (suc x / 2) (suc x / 2) (y / 2) (omega arith) (omega arith)
            ∙ sym (reads (suc x / 2) (y / 2)))

and_none : (b : ℕ) → bit_and 0 b ≡ 0
and_none = bit_and-bitwise 0

-- The lowest digit of `a & b` and the digits above it.
and_low : (a b : ℕ) → bit_and a b ≡ bit_and (a / 2) (b / 2) * 2 + min (a % 2) (b % 2)
and_low = lowest (λ _. zero) min bit_and bit_and-bitwise (λ b. omega arith)

xor_low : (a b : ℕ) → bit_xor a b ≡ bit_xor (a / 2) (b / 2) * 2 + differ (a % 2) (b % 2)
xor_low = lowest (λ r. r) differ bit_xor bit_xor-bitwise (λ b. omega arith)

and_digits :
    (a b : ℕ)
    → (bit_and a b / 2 ≡ bit_and (a / 2) (b / 2)) × (bit_and a b % 2 ≡ min (a % 2) (b % 2))
and_digits a b = omega (arith, and_low a b)

and_comm_below : (n a b : ℕ) → a ≤ n → b ≤ n → bit_and a b ≡ bit_and b a
and_comm_below zero a b p q =
    let e : a ≡ 0 = omega arith in let f : b ≡ 0 = omega arith in rw (e, f)
and_comm_below (suc n) a b p q =
    omega (
      arith,
      and_low a b,
      and_low b a,
      and_comm_below n (a / 2) (b / 2) (omega arith) (omega arith),
    )

pub bit_and_comm : (a b : ℕ) → bit_and a b ≡ bit_and b a
bit_and_comm a b = and_comm_below (a + b) a b (omega arith) (omega arith)

and_assoc_below : (n a b c : ℕ) → a ≤ n → bit_and (bit_and a b) c ≡ bit_and a (bit_and b c)
and_assoc_below n zero b c p = rw (and_none b, and_none c, and_none (bit_and b c))
and_assoc_below zero (suc a) b c p = absurd (omega arith)
and_assoc_below (suc n) (suc a) b c p =
    let ab = and_digits (suc a) b in
    let bc = and_digits b c in
    let ih = and_assoc_below n (suc a / 2) (b / 2) (c / 2) (omega arith) in
    let left = ap (λ x. bit_and x (c / 2)) ab.0 in
    let right = ap (λ x. bit_and (suc a / 2) x) bc.0 in
    omega (arith, and_low (bit_and (suc a) b) c, and_low (suc a) (bit_and b c))

pub bit_and_assoc : (a b c : ℕ) → bit_and (bit_and a b) c ≡ bit_and a (bit_and b c)
bit_and_assoc a b c = and_assoc_below a a b c (omega arith)

pub bit_and-zero : (a : ℕ) → bit_and a 0 ≡ 0
bit_and-zero a = bit_and_comm a 0 ∙ and_none a

pub zero-bit_and : (b : ℕ) → bit_and 0 b ≡ 0
zero-bit_and = and_none

-- What shares no bit with `v` shares none with a part of `v`.
pub bit_and-part : (d v m : ℕ) → bit_and d v ≡ 0 → bit_and d (bit_and v m) ≡ 0
bit_and-part d v m h = sym (bit_and_assoc d v m) ∙ ap (λ x. bit_and x m) h ∙ and_none m

differ_digits : (x y : ℕ) → x < 2 → y < 2 → differ x y < 2
differ_digits zero y p q = q
differ_digits (suc zero) zero p q = p
differ_digits (suc zero) (suc y) p q = omega arith
differ_digits (suc (suc x)) y p q = absurd (omega arith)

-- Exclusive or stays within the width of its operands.
pub bit_xor-lt : (k a b : ℕ) → a < 2 ^ k → b < 2 ^ k → bit_xor a b < 2 ^ k
bit_xor-lt zero a b p q =
    let e : a ≡ 0 = omega arith in let f : b ≡ 0 = omega arith in rw (e, f) (omega arith)
bit_xor-lt (suc k) a b p q = omega (
  arith,
  pow-suc 2 k,
  xor_low a b,
  differ_digits (a % 2) (b % 2) (omega arith) (omega arith),
  bit_xor-lt k (a / 2) (b / 2) (omega (arith, pow-suc 2 k)) (omega (arith, pow-suc 2 k)),
)
