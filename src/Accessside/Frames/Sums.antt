-- ===== src/Accessside/Frames/Sums.antt =====
-- The Internet checksum: a header that carries the checksum of the others' words adds up to zero.
use vectorcore_twag.Base.{ℕ, ◌+◌, ◌-◌, ◌*◌, ◌/◌, ◌%◌, ◌^◌, ◌<◌, ◌≤◌, ◌≡◌, refl, bit_and, arith}
use vectorcore_twag.Base.Bits.{bit_and_mask}
use vectorcore_twag.Accessside.Frames.{fold_carries}

-- The sum of a few words after the carries.
folded : ℕ → ℕ
folded sum = let once = sum % 65536 + sum / 65536 in once % 65536 + once / 65536

low_word : (a : ℕ) → bit_and a 0xffff ≡ a % 65536
low_word a = bit_and_mask 16 a 0xffff refl

fold_carries_lem : (sum : ℕ) → sum < 4294967296 → fold_carries 3 sum % 65536 ≡ folded sum
unfolding fold_carries folded
fold_carries_lem sum h = ground (arith, low_word sum, low_word (sum % 65536 + sum / 65536))

folded_mod :
    (s : ℕ)
    → 0 < s
    → s < 1048576
    → (k : ℕ) × (s ≡ k * 65535 + folded s) × (0 < folded s) × (folded s ≤ 65535)
unfolding folded
folded_mod s p h =
    let once = s % 65536 + s / 65536 in
    (s / 65536 + once / 65536, omega arith, omega arith, omega arith)

folded_full : (k : ℕ) → 0 < k → k < 32 → folded (k * 65535) ≡ 65535
unfolding folded
folded_full k p h = omega arith

-- The words of a header and the checksum of the other words add up to one whose checksum is 0.
pub checks :
    (s : ℕ)
    → 0 < s
    → s < 1048576
    → 65535
        - fold_carries 3 ((s + (65535 - fold_carries 3 (s % 2 ^ 32) % 2 ^ 16)) % 2 ^ 32) % 2 ^ 16
      ≡ 0
checks s p h =
    let (k, e, low, high) = folded_mod s p h in
    let c : fold_carries 3 (s % 2 ^ 32) % 2 ^ 16 ≡ folded s =
      rw (small s (omega arith)) (fold_carries_lem s (omega arith)) in
    let total : s + (65535 - folded s) ≡ (k + 1) * 65535 = omega (arith, e) in
    let full : folded ((k + 1) * 65535) ≡ 65535 = folded_full (k + 1) (omega arith) (omega arith) in
    rw
      (
        c,
        total,
        small ((k + 1) * 65535) (omega arith),
        fold_carries_lem ((k + 1) * 65535) (omega arith),
        full,
      )
      refl
  where
    small : (n : ℕ) → n < 4294967296 → n % 2 ^ 32 ≡ n
    small n h = omega arith
