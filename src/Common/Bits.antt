-- ===== src/Common/Bits.antt =====
-- `|`, `&` of machine words as arithmetic, for the shapes that the decoder builds.
use Prim.Native.Nat.{
  ℕ, zero, suc, ◌+◌, ◌*◌, ◌/◌, ◌%◌, ◌^◌, ◌≤◌, ◌<◌, min, max, bit_and, bit_or, bit_xor, bitwise,
  bit_and-bitwise, bit_or-bitwise, bit_xor-bitwise, digits, differ, ◌-◌,
}
use mathlib.Core.Path.{◌≡◌, refl, ap}
use native.Mathlib.Nat.{pow-suc}
use native.Mathlib.Omega.{arith}

-- The fuel of `digits` does not matter once it covers the first number.
module _ (z : ℕ → ℕ) (op : ℕ → ℕ → ℕ) where
  same_digits : (n a b : ℕ) (m : ℕ) → a ≤ n → a ≤ m → digits z op m a b ≡ digits z op n a b
  same_digits zero zero b zero h k = refl
  same_digits zero zero b (suc m) h k = refl
  same_digits zero (suc a) b m h k = absurd (omega arith)
  same_digits (suc n) zero b zero h k = refl
  same_digits (suc n) zero b (suc m) h k = refl
  same_digits (suc n) (suc a) b zero h k = absurd (omega arith)
  same_digits (suc n) (suc a) b (suc m) h k =
      ap (λ (t : ℕ). t * 2 + op (suc a % 2) (b % 2))
        (same_digits n (suc a / 2) (b / 2) m (omega arith) (omega arith))

  -- One digit at a time, from the lowest.
  low_digit :
      (a b : ℕ)
      → bitwise z op (suc a) b ≡ bitwise z op (suc a / 2) (b / 2) * 2 + op (suc a % 2) (b % 2)
  low_digit a b =
      ap (λ (t : ℕ). t * 2 + op (suc a % 2) (b % 2))
        (same_digits (suc a / 2) (suc a / 2) (b / 2) a (omega arith) (omega arith))

bit_or-digit : (a b : ℕ) → bit_or a b ≡ bit_or (a / 2) (b / 2) * 2 + max (a % 2) (b % 2)
bit_or-digit zero b = simp bit_or-bitwise (omega arith)
bit_or-digit (suc a) b = simp bit_or-bitwise (low_digit (λ y. y) max a b)

bit_and-digit : (a b : ℕ) → bit_and a b ≡ bit_and (a / 2) (b / 2) * 2 + min (a % 2) (b % 2)
bit_and-digit zero b = simp bit_and-bitwise (omega arith)
bit_and-digit (suc a) b = simp bit_and-bitwise (low_digit (λ y. 0) min a b)

zero-bit_or : (b : ℕ) → bit_or 0 b ≡ b
zero-bit_or b = bit_or-bitwise 0 b

-- `lo | (g << k)` is a sum when `lo` has at most k bits.
pub bit_or-shifted : (k lo g : ℕ) → lo < 2 ^ k → bit_or lo (g * 2 ^ k) ≡ lo + g * 2 ^ k
bit_or-shifted zero lo g h = ground (arith, zero-bit_or (g * 1))
bit_or-shifted (suc k) lo g h =
    let doubled : g * 2 ^ suc k ≡ 2 * (g * 2 ^ k) =
      omega (arith, ap (λ (t : ℕ). g * t) (pow-suc 2 k)) in
    omega (
      arith,
      doubled,
      bit_or-digit lo (g * 2 ^ suc k),
      ap (λ (t : ℕ). bit_or (lo / 2) t) {x = g * 2 ^ suc k / 2} {y = g * 2 ^ k}
          (omega (arith, doubled)),
      bit_or-shifted k (lo / 2) g (omega (arith, pow-suc 2 k)),
    )

bit_or_within : (n a b : ℕ) → a ≤ n → b ≤ n → bit_or a b ≡ bit_or b a
bit_or_within zero zero zero h k = refl
bit_or_within zero (suc a) b h k = absurd (omega arith)
bit_or_within zero zero (suc b) h k = absurd (omega arith)
bit_or_within (suc n) a b h k = omega (
  arith,
  bit_or-digit a b,
  bit_or-digit b a,
  bit_or_within n (a / 2) (b / 2) (omega arith) (omega arith),
)

pub bit_or_comm : (a b : ℕ) → bit_or a b ≡ bit_or b a
bit_or_comm a b = bit_or_within (a + b) a b (omega arith) (omega arith)

bit_and-none : (n a : ℕ) → a ≤ n → bit_and a 0 ≡ 0
bit_and-none n zero h = bit_and-bitwise 0 0
bit_and-none zero (suc a) h = absurd (omega arith)
bit_and-none (suc n) (suc a) h =
    omega (arith, bit_and-digit (suc a) 0, bit_and-none n (suc a / 2) (omega arith))

-- A mask of ones, one digit at a time.
mask_digit : (m a r : ℕ) → bit_and (a / 2) m ≡ r → bit_and a (m * 2 + 1) ≡ r * 2 + a % 2
mask_digit m a r h = omega (
  arith,
  bit_and-digit a (m * 2 + 1),
  ap (λ (t : ℕ). bit_and (a / 2) t) {x = (m * 2 + 1) / 2} {y = m} (omega arith),
  h,
)

-- `a & 7` keeps three bits, and `a & 0x7f` seven.
pub bit_and-three_bits : (a : ℕ) → bit_and a 7 ≡ a % 8
bit_and-three_bits a =
    let one = mask_digit 0 (a / 2 / 2) 0 (bit_and-none (a / 2 / 2 / 2) _ (omega arith)) in
    let two = mask_digit 1 (a / 2) _ one in omega (arith, mask_digit 3 a _ two)

pub bit_and-seven_bits : (a : ℕ) → bit_and a 0x7f ≡ a % 128
bit_and-seven_bits a =
    let three = bit_and-three_bits (a / 2 / 2 / 2 / 2) in
    let four = mask_digit 7 (a / 2 / 2 / 2) _ three in
    let five = mask_digit 15 (a / 2 / 2) _ four in
    let six = mask_digit 31 (a / 2) _ five in omega (arith, mask_digit 63 a _ six)

differ-left : (x : ℕ) → differ 0 x ≡ x
differ-left x = refl

bit_xor-digit : (a b : ℕ) → bit_xor a b ≡ bit_xor (a / 2) (b / 2) * 2 + differ (a % 2) (b % 2)
bit_xor-digit zero b = simp bit_xor-bitwise (omega (arith, differ-left (b % 2)))
bit_xor-digit (suc a) b = simp bit_xor-bitwise (low_digit (λ y. y) differ a b)

differ-one : (x : ℕ) → x < 2 → differ x 1 ≡ 1 - x
differ-one zero h = refl
differ-one (suc zero) h = refl
differ-one (suc (suc x)) h = absurd (omega arith)

differ-none : (x : ℕ) → differ x 0 ≡ x
differ-none zero = refl
differ-none (suc x) = refl

-- With a word of ones, `^` is the complement.
pub bit_xor-ones : (k a : ℕ) → a < 2 ^ k → bit_xor a (2 ^ k - 1) ≡ 2 ^ k - 1 - a
bit_xor-ones zero zero h = bit_xor-bitwise 0 0
bit_xor-ones zero (suc a) h = absurd (omega arith)
bit_xor-ones (suc k) a h = omega (
  arith,
  pow-suc 2 k,
  bit_xor-digit a (2 ^ suc k - 1),
  ap (λ (t : ℕ). bit_xor (a / 2) t) {x = (2 ^ suc k - 1) / 2} {y = 2 ^ k - 1}
      (omega (arith, pow-suc 2 k)),
  ap (differ (a % 2)) {x = (2 ^ suc k - 1) % 2} {y = 1} (omega (arith, pow-suc 2 k)),
  differ-one (a % 2) (omega arith),
  bit_xor-ones k (a / 2) (omega (arith, pow-suc 2 k)),
)

xor_none_within : (n a : ℕ) → a ≤ n → bit_xor a 0 ≡ a
xor_none_within zero zero h = bit_xor-bitwise 0 0
xor_none_within zero (suc a) h = absurd (omega arith)
xor_none_within (suc n) a h =
    omega (arith, bit_xor-digit a 0, differ-none (a % 2), xor_none_within n (a / 2) (omega arith))

pub bit_xor-none : (a : ℕ) → bit_xor a 0 ≡ a
bit_xor-none a = xor_none_within a a (omega arith)

pub bit_and-one : (a : ℕ) → bit_and a 1 ≡ a % 2
bit_and-one a = omega (arith, bit_and-digit a 1, bit_and-none (a / 2) (a / 2) (omega arith))
