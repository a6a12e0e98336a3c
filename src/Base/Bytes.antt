-- ===== src/Base/Bytes.antt =====
-- encoding/binary's big-endian integers, and the 24-bit ones that gtp and diameter define.
use mathlib.Core.Path.{◌≡◌, ◌∙◌}
use mathlib.Core.List.{List, [], ◌∷◌}
use native.Mathlib.Omega.{arith}
use Prim.Native.Nat.{ℕ, zero, suc, ◌+◌, ◌-◌, ◌*◌, ◌/◌, ◌%◌, ◌^◌, ◌<◌, bit_or}
use vectorcore_twag.Base.Lists.{get_or, take, drop, All}
use vectorcore_twag.Base.Bits.{bit_or_shifted}

abbrev pub Bytes : Type 0
Bytes = List ℕ

abbrev pub IsByte : ℕ → Type 0
IsByte b = b < 256

-- b[i], where the code has checked the length.
abbrev pub at : Bytes → ℕ → ℕ
at b i = get_or b i 0

-- b[i:j]
abbrev pub slice : Bytes → ℕ → ℕ → Bytes
slice b i j = take (j - i) (drop i b)

-- binary.BigEndian.PutUint16, PutUint32
abbrev pub put16 : ℕ → Bytes
put16 v = (v / 256 % 256) ∷ (v % 256) ∷ []

abbrev pub put32 : ℕ → Bytes
put32 v = (v / 16777216 % 256) ∷ (v / 65536 % 256) ∷ (v / 256 % 256) ∷ (v % 256) ∷ []

-- binary.BigEndian.Uint16(b[i:i+2]), Uint32(b[i:i+4])
abbrev pub read16 : Bytes → ℕ → ℕ
read16 b i = at b i * 256 + at b (i + 1)

abbrev pub read32 : Bytes → ℕ → ℕ
read32 b i = ((at b i * 256 + at b (i + 1)) * 256 + at b (i + 2)) * 256 + at b (i + 3)

-- put24 and read24, which gtp/gtpv2.go and diameter/message.go each have.
unfoldable pub put24 : ℕ → Bytes
put24 v = (v / 2 ^ 16 % 256) ∷ (v / 2 ^ 8 % 256) ∷ (v % 256) ∷ []

unfoldable pub read24 : Bytes → ℕ → ℕ
read24 b i = bit_or (bit_or (at b i * 2 ^ 16) (at b (i + 1) * 2 ^ 8)) (at b (i + 2))

-- Three bytes read as a number.
pub read24_lem :
    (b : Bytes) (i : ℕ)
    → IsByte (at b (i + 1))
    → IsByte (at b (i + 2))
    → read24 b i ≡ at b i * 65536 + at b (i + 1) * 256 + at b (i + 2)
unfolding read24
read24_lem b i h1 h2 =
    let high : bit_or (at b i * 2 ^ 16) (at b (i + 1) * 2 ^ 8)
        ≡ (at b i * 256 + at b (i + 1)) * 2 ^ 8 =
      bit_or_shifted 16 (at b i) (at b (i + 1) * 2 ^ 8) (omega arith) ∙ omega arith in
    rw high
      (bit_or_shifted 8 (at b i * 256 + at b (i + 1)) (at b (i + 2)) (omega arith) ∙ omega arith)

-- Every position of a byte slice reads a byte; past the end `at` reads 0.
pub at-IsByte : (b : Bytes) (i : ℕ) → All IsByte b → IsByte (at b i)
at-IsByte [] i h = omega arith
at-IsByte (x ∷ b) zero h = h.0
at-IsByte (x ∷ b) (suc i) h = at-IsByte b i h.1

pub read16-lt : (b : Bytes) (i : ℕ) → All IsByte b → read16 b i < 2 ^ 16
read16-lt b i h = omega (arith, at-IsByte b i h, at-IsByte b (i + 1) h)

pub read24-lt : (b : Bytes) (i : ℕ) → All IsByte b → read24 b i < 2 ^ 24
read24-lt b i h = omega (
  arith,
  at-IsByte b i h,
  at-IsByte b (i + 1) h,
  at-IsByte b (i + 2) h,
  read24_lem b i (at-IsByte b (i + 1) h) (at-IsByte b (i + 2) h),
)

pub read32-lt : (b : Bytes) (i : ℕ) → All IsByte b → read32 b i < 2 ^ 32
read32-lt b i h =
    omega
      (arith, at-IsByte b i h, at-IsByte b (i + 1) h, at-IsByte b (i + 2) h, at-IsByte b (i + 3) h)

-- A number below 2 ^ 24 that stands in three bytes is read back.
pub read24-at :
    (b : Bytes) (i s : ℕ)
    → s < 2 ^ 24
    → at b i ≡ s / 2 ^ 16 % 256
    → at b (i + 1) ≡ s / 2 ^ 8 % 256
    → at b (i + 2) ≡ s % 256
    → read24 b i ≡ s
read24-at b i s h e0 e1 e2 = omega (arith, read24_lem b i (omega arith) (omega arith))

-- The four bytes of a number below 2 ^ 32, read as a number.
pub read32_put32 :
    (v : ℕ)
    → v < 2 ^ 32
    → ((v / 16777216 % 256 * 256 + v / 65536 % 256) * 256 + v / 256 % 256) * 256 + v % 256 ≡ v
read32_put32 v h = omega arith
