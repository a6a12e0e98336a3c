-- ===== src/Base/Bits.antt =====
-- `|` of disjoint fields and `&` with a mask of one byte, as arithmetic.
use Prim.Native.Nat.{
  ℕ, zero, suc, ◌+◌, ◌*◌, ◌/◌, ◌%◌, ◌^◌, ◌≤◌, ◌<◌, min, max, bit_and, bit_or, digits,
  bit_and-bitwise, bit_or-bitwise,
}
use mathlib.Core.Path.{◌≡◌, refl, ap, ◌∙◌}
use mathlib.Core.Bool.{Bool, true, ◌&&◌}
use native.Mathlib.Nat.{pow-suc}
use native.Mathlib.Omega.{arith}
use vectorcore_twag.Base.Tests.{◌==◌, ==_iff}

-- The native operations are a recursion on binary digits with fuel; more fuel changes nothing.
module _ (z : ℕ → ℕ) (f : ℕ → ℕ → ℕ) where
  enough_digits : (n m a b : ℕ) → a ≤ n → a ≤ m → digits z f n a b ≡ digits z f m a b
  enough_digits zero zero a b p q = refl
  enough_digits zero (suc m) zero b p q = refl
  enough_digits zero (suc m) (suc a) b p q = absurd (omega arith)
  enough_digits (suc n) zero zero b p q = refl
  enough_digits (suc n) zero (suc a) b p q = absurd (omega arith)
  enough_digits (suc n) (suc m) zero b p q = refl
  enough_digits (suc n) (suc m) (suc a) b p q =
      omega (arith, enough_digits n m (suc a / 2) (b / 2) (omega arith) (omega arith))

zero-bit_or : (b : ℕ) → bit_or 0 b ≡ b
zero-bit_or b = bit_or-bitwise 0 b

zero-bit_and : (b : ℕ) → bit_and 0 b ≡ 0
zero-bit_and b = bit_and-bitwise 0 b

-- The laws of the lowest digit.
bit_or_halves : (x y : ℕ) → 2 * bit_or (x / 2) (y / 2) + max (x % 2) (y % 2) ≡ bit_or x y
bit_or_halves zero y = omega (arith, zero-bit_or (y / 2), zero-bit_or y)
bit_or_halves (suc n) y =
    let h : ℕ = suc n / 2 in
    omega (
      arith,
      enough_digits (λ c. c) max n h h (y / 2) (omega arith) (omega arith),
      bit_or-bitwise h (y / 2),
      bit_or-bitwise (suc n) y,
    )

bit_and_halves : (x y : ℕ) → 2 * bit_and (x / 2) (y / 2) + min (x % 2) (y % 2) ≡ bit_and x y
bit_and_halves zero y = omega (arith, zero-bit_and (y / 2), zero-bit_and y)
bit_and_halves (suc n) y =
    let h : ℕ = suc n / 2 in
    omega (
      arith,
      enough_digits (λ c. 0) min n h h (y / 2) (omega arith) (omega arith),
      bit_and-bitwise h (y / 2),
      bit_and-bitwise (suc n) y,
    )

bit_or-zero_below : (n a : ℕ) → a ≤ n → bit_or a 0 ≡ a
bit_or-zero_below n zero h = refl
bit_or-zero_below zero (suc a) h = absurd (omega arith)
bit_or-zero_below (suc n) (suc a) h =
    omega (arith, bit_or_halves (suc a) 0, bit_or-zero_below n (suc a / 2) (omega arith))

bit_and-zero_below : (n a : ℕ) → a ≤ n → bit_and a 0 ≡ 0
bit_and-zero_below n zero h = refl
bit_and-zero_below zero (suc a) h = absurd (omega arith)
bit_and-zero_below (suc n) (suc a) h =
    omega (arith, bit_and_halves (suc a) 0, bit_and-zero_below n (suc a / 2) (omega arith))

shifted_twice : (q k : ℕ) → q * 2 ^ suc k ≡ 2 * (q * 2 ^ k)
shifted_twice q k = omega (arith, ap (λ (t : ℕ). q * t) (pow-suc 2 k))

-- `q << k | r` is a sum where `r` fits `k` bits.
pub bit_or_shifted : (k q r : ℕ) → r < 2 ^ k → bit_or (q * 2 ^ k) r ≡ q * 2 ^ k + r
bit_or_shifted zero q r h = ground (arith, bit_or-zero_below q q (omega arith))
bit_or_shifted (suc k) q r h =
    let halves : bit_or (q * 2 ^ k) (r / 2) ≡ q * 2 ^ k + r / 2 =
      bit_or_shifted k q (r / 2) (omega (arith, pow-suc 2 k)) in
    ground (arith, bit_or_halves (q * 2 ^ suc k) r, shifted_twice q k, halves)

-- A number that stands in `k` bits of ones.
low_ones : ℕ → ℕ
low_ones zero = 0
low_ones (suc k) = low_ones k * 2 + 1

low_ones_lem : (k : ℕ) → low_ones k + 1 ≡ 2 ^ k
unfolding low_ones
low_ones_lem zero = refl
low_ones_lem (suc k) = omega (arith, low_ones_lem k, pow-suc 2 k)

mod_digit : (a p : ℕ) → 0 < p → a % (2 * p) ≡ a / 2 % p * 2 + a % 2
mod_digit a p h = grind arith

bit_and-low_ones : (k a : ℕ) → bit_and a (low_ones k) ≡ a % 2 ^ k
unfolding low_ones
bit_and-low_ones zero a = ground (arith, bit_and-zero_below a a (omega arith))
bit_and-low_ones (suc k) a =
    let two : 2 ^ suc k ≡ 2 * 2 ^ k = omega (arith, pow-suc 2 k) in
    let half : (low_ones k * 2 + 1) / 2 ≡ low_ones k = omega arith in
    let rest : bit_and (a / 2) (low_ones k) ≡ a / 2 % 2 ^ k = bit_and-low_ones k (a / 2) in
    ground (
      arith,
      bit_and_halves a (low_ones k * 2 + 1),
      mod_digit a (2 ^ k) (omega (arith, low_ones_lem k)),
    )

-- `a & (2 ^ k - 1)` keeps the `k` low bits.
pub bit_and_mask : (k a m : ℕ) → m + 1 ≡ 2 ^ k → bit_and a m ≡ a % 2 ^ k
bit_and_mask k a m h = rw (← bit_and-low_ones k a) (ap (bit_and a) (omega (arith, low_ones_lem k)))

-- A law of one byte is checked at each of its values.
below_all : ℕ → (ℕ → Bool) → Bool
below_all zero p = true
below_all (suc n) p = p n && below_all n p

below_all_sound : (n : ℕ) (p : ℕ → Bool) (x : ℕ) → below_all n p ≡ true → x < n → p x ≡ true
unfolding below_all
below_all_sound zero p x h lt = absurd (omega arith)
below_all_sound (suc n) p x h lt = ground (arith, below_all_sound n p x)

byte_law : (f g : ℕ → ℕ) → below_all 256 (λ x. f x == g x) ≡ true → (x : ℕ) → x < 256 → f x ≡ g x
byte_law f g table x h = (==_iff _ _).0 (below_all_sound 256 _ x table h)

pub low_nibble : (b : ℕ) → b < 256 → bit_and b 0x0f ≡ b % 16
unfolding below_all
low_nibble = byte_law (λ b. bit_and b 0x0f) (λ b. b % 16) refl

pub low_six : (b : ℕ) → b < 256 → bit_and b 0x3f ≡ b % 64
unfolding below_all
low_six = byte_law (λ b. bit_and b 0x3f) (λ b. b % 64) refl

pub low_three : (b : ℕ) → b < 256 → bit_and b 0x07 ≡ b % 8
unfolding below_all
low_three = byte_law (λ b. bit_and b 0x07) (λ b. b % 8) refl

pub top_bit : (b : ℕ) → b < 256 → bit_and b 0x80 ≡ b / 128 * 128
unfolding below_all
top_bit = byte_law (λ b. bit_and b 0x80) (λ b. b / 128 * 128) refl

pub top_three : (b : ℕ) → b < 256 → bit_and b 0xe0 ≡ b / 32 * 32
unfolding below_all
top_three = byte_law (λ b. bit_and b 0xe0) (λ b. b / 32 * 32) refl

pub fourth_bit : (b : ℕ) → b < 256 → bit_and b 0x08 ≡ b / 8 % 2 * 8
unfolding below_all
fourth_bit = byte_law (λ b. bit_and b 0x08) (λ b. b / 8 % 2 * 8) refl

pub second_bit : (b : ℕ) → b < 256 → bit_and b 0x02 ≡ b / 2 % 2 * 2
unfolding below_all
second_bit = byte_law (λ b. bit_and b 0x02) (λ b. b / 2 % 2 * 2) refl

pub set_top_bit : (b : ℕ) → b < 256 → bit_or b 0x80 ≡ 128 + b % 128
unfolding below_all
set_top_bit = byte_law (λ b. bit_or b 0x80) (λ b. 128 + b % 128) refl

pub or_top_bit : (b : ℕ) → b < 256 → bit_or 0x80 b ≡ 128 + b % 128
unfolding below_all
or_top_bit = byte_law (λ b. bit_or 0x80 b) (λ b. 128 + b % 128) refl

-- Two nibbles put together, the low one first.
nibbles_table : (b : ℕ) → b < 256 → bit_or (b % 16) (b / 16 * 16) ≡ b
unfolding below_all
nibbles_table = byte_law (λ b. bit_or (b % 16) (b / 16 * 16)) (λ b. b) refl

pub or_nibbles : (lo hi : ℕ) → lo < 16 → hi < 16 → bit_or lo (hi * 16) ≡ lo + hi * 16
or_nibbles lo hi p q =
    let v : ℕ = lo + hi * 16 in
    let e : v % 16 ≡ lo = omega arith in
    let d : v / 16 ≡ hi = omega arith in
    let t : bit_or (v % 16) (v / 16 * 16) ≡ v = nibbles_table v (omega arith) in
    ground (arith, e, d, t)

halved : (a b : ℕ) → bit_and a b / 2 ≡ bit_and (a / 2) (b / 2)
halved a b = omega (arith, bit_and_halves a b)

-- The top bit of a byte under a mask that keeps it.
pub bit_and_high : (a m : ℕ) → a < 256 → m < 256 → 128 ≤ m → bit_and a m / 128 ≡ a / 128
bit_and_high a m h k l =
    let one : m / 2 / 2 / 2 / 2 / 2 / 2 / 2 ≡ 1 = omega arith in
    let top : bit_and (a / 2 / 2 / 2 / 2 / 2 / 2 / 2) (m / 2 / 2 / 2 / 2 / 2 / 2 / 2)
        ≡ a / 2 / 2 / 2 / 2 / 2 / 2 / 2 =
      rw one (bit_and_mask 1 (a / 2 / 2 / 2 / 2 / 2 / 2 / 2) 1 refl ∙ omega arith) in
    omega (
      arith,
      top,
      halved a m,
      halved (a / 2) (m / 2),
      halved (a / 2 / 2) (m / 2 / 2),
      halved (a / 2 / 2 / 2) (m / 2 / 2 / 2),
      halved (a / 2 / 2 / 2 / 2) (m / 2 / 2 / 2 / 2),
      halved (a / 2 / 2 / 2 / 2 / 2) (m / 2 / 2 / 2 / 2 / 2),
      halved (a / 2 / 2 / 2 / 2 / 2 / 2) (m / 2 / 2 / 2 / 2 / 2 / 2),
    )

pub bit_and-zero : (a : ℕ) → bit_and a 0 ≡ 0
bit_and-zero a = bit_and-zero_below a a (omega arith)
