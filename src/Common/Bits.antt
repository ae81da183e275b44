-- ===== src/Common/Bits.antt =====
-- The bit operations of the source at variables: joining disjoint bit fields by `|` is addition,
-- and masking the lowest bits is a remainder.
use Prim.Native.Nat.{
  ℕ, zero, suc, ◌+◌, ◌*◌, ◌/◌, ◌%◌, ◌^◌, ◌≤◌, ◌<◌, min, max, bit_or, bit_and, digits,
  bit_or-bitwise, bit_and-bitwise,
}
use mathlib.Core.Path.{◌≡◌, refl, sym, ◌∙◌}
use native.Mathlib.Nat.{pow-suc}
use native.Mathlib.Omega.{arith}

-- The recursion behind the operations, with its rule `rest` for the numbers that have run out of
-- digits; the count of digits does not matter once it is large enough.
module _ (rest : ℕ → ℕ) (join : ℕ → ℕ → ℕ) where
  digits-none : (count b : ℕ) → digits rest join count 0 b ≡ rest b
  digits-none zero b = refl
  digits-none (suc count) b = refl

  digits-count : (a b count : ℕ) → a ≤ count → digits rest join count a b ≡ digits rest join a a b
  digits-count a b count h = two_counts count a a b h (omega arith)
    where
      two_counts : (k l x y : ℕ) → x ≤ k → x ≤ l → digits rest join k x y ≡ digits rest join l x y
      two_counts k l zero y p q = digits-none k y ∙ sym (digits-none l y)
      two_counts zero l (suc x) y p q = absurd (omega arith)
      two_counts (suc k) zero (suc x) y p q = absurd (omega arith)
      two_counts (suc k) (suc l) (suc x) y p q =
          omega (arith, two_counts k l (suc x / 2) (y / 2) (omega arith) (omega arith))

pub zero-bit_or : (b : ℕ) → bit_or 0 b ≡ b
zero-bit_or b = bit_or-bitwise 0 b

zero-bit_and : (b : ℕ) → bit_and 0 b ≡ 0
zero-bit_and b = bit_and-bitwise 0 b

-- Either operation on the lowest digits, and on the numbers without them.
bit_or-halves : (a b : ℕ) → bit_or a b ≡ bit_or (a / 2) (b / 2) * 2 + max (a % 2) (b % 2)
bit_or-halves zero b = omega (arith, zero-bit_or b, zero-bit_or (b / 2))
bit_or-halves (suc x) b =
    let half = digits-count (λ y. y) max (suc x / 2) (b / 2) x (omega arith) in
    omega (arith, bit_or-bitwise (suc x) b, bit_or-bitwise (suc x / 2) (b / 2), half)

bit_and-halves : (a b : ℕ) → bit_and a b ≡ bit_and (a / 2) (b / 2) * 2 + min (a % 2) (b % 2)
bit_and-halves zero b = omega (arith, zero-bit_and b, zero-bit_and (b / 2))
bit_and-halves (suc x) b =
    let half = digits-count (λ _. 0) min (suc x / 2) (b / 2) x (omega arith) in
    omega (arith, bit_and-bitwise (suc x) b, bit_and-bitwise (suc x / 2) (b / 2), half)

-- A number with zero, by the number of its digits at most.
with_zero : (k a : ℕ) → a ≤ k → (bit_or a 0 ≡ a) × (bit_and a 0 ≡ 0)
with_zero k zero h = (zero-bit_or 0, zero-bit_and 0)
with_zero zero (suc a) h = absurd (omega arith)
with_zero (suc k) (suc a) h =
    let (o, n) = with_zero k (suc a / 2) (omega arith) in
    (omega (arith, bit_or-halves (suc a) 0, o), omega (arith, bit_and-halves (suc a) 0, n))

pub bit_or-zero : (a : ℕ) → bit_or a 0 ≡ a
bit_or-zero a = let (o, _) = with_zero a a (omega arith) in o

bit_and-zero : (a : ℕ) → bit_and a 0 ≡ 0
bit_and-zero a = let (_, n) = with_zero a a (omega arith) in n

-- A field above the `k` lowest bits and one within them, in either order, add up.
disjoint_fields :
    (k high low : ℕ)
    → low < 2 ^ k
    → (bit_or (high * 2 ^ k) low ≡ high * 2 ^ k + low)
      × (bit_or low (high * 2 ^ k) ≡ high * 2 ^ k + low)
disjoint_fields zero high low h =
    let none_low : low ≡ 0 = omega arith in
    rw none_low (bit_or-zero (high * 2 ^ 0) ∙ omega arith, zero-bit_or (high * 2 ^ 0) ∙ omega arith)
disjoint_fields (suc k) high low h =
    let shifted : high * 2 ^ suc k ≡ high * 2 ^ k * 2 = rw (pow-suc 2 k) (omega arith) in
    let half : high * 2 ^ k * 2 / 2 ≡ high * 2 ^ k = omega arith in
    let fits : low / 2 < 2 ^ k = omega (arith, pow-suc 2 k) in
    let (above, below) = disjoint_fields k high (low / 2) fits in
    rw (shifted, bit_or-halves (high * 2 ^ k * 2) low, bit_or-halves low (high * 2 ^ k * 2), half)
      (omega (arith, above), omega (arith, below))

-- `(hi << k) | lo` is a sum where `lo` fits in the `k` bits below, and so is `lo | (hi << k)`, as a
-- chain of `|` from the lowest byte up has it.
pub bit_or-high_low : (k hi lo : ℕ) → lo < 2 ^ k → bit_or (hi * 2 ^ k) lo ≡ hi * 2 ^ k + lo
bit_or-high_low k hi lo h = let (above, _) = disjoint_fields k hi lo h in above

pub bit_or-low_high : (k hi lo : ℕ) → lo < 2 ^ k → bit_or lo (hi * 2 ^ k) ≡ hi * 2 ^ k + lo
bit_or-low_high k hi lo h = let (_, below) = disjoint_fields k hi lo h in below

bit_and-7 : (a : ℕ) → bit_and a 7 ≡ a % 8
bit_and-7 a = omega (
  arith,
  bit_and-halves a 7,
  bit_and-halves (a / 2) 3,
  bit_and-halves (a / 2 / 2) 1,
  bit_and-zero (a / 2 / 2 / 2),
)

bit_and-63 : (a : ℕ) → bit_and a 63 ≡ a % 64
bit_and-63 a = omega (
  arith,
  bit_and-halves a 63,
  bit_and-halves (a / 2) 31,
  bit_and-halves (a / 2 / 2) 15,
  bit_and-7 (a / 2 / 2 / 2),
)

bit_and-511 : (a : ℕ) → bit_and a 511 ≡ a % 512
bit_and-511 a = omega (
  arith,
  bit_and-halves a 511,
  bit_and-halves (a / 2) 255,
  bit_and-halves (a / 2 / 2) 127,
  bit_and-63 (a / 2 / 2 / 2),
)

-- The mask of the twelve lowest bits.
pub bit_and-4095 : (a : ℕ) → bit_and a 4095 ≡ a % 4096
bit_and-4095 a = omega (
  arith,
  bit_and-halves a 4095,
  bit_and-halves (a / 2) 2047,
  bit_and-halves (a / 2 / 2) 1023,
  bit_and-511 (a / 2 / 2 / 2),
)
