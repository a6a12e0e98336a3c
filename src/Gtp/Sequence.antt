-- ===== src/Gtp/Sequence.antt =====
-- internal/gtp/gtpv2.go: the allocator of GTPv2 sequence numbers, an atomic counter that several
-- goroutines advance by compare-and-swap.
pub mod Order
use vectorcore_twag.Base.{
  ℕ, zero, suc, ◌+◌, ◌^◌, ◌%◌, List, [], ◌∷◌, Option, none, some, ◌||◌, ltb, ◌==◌, bit_and,
  if◌then◌else◌,
}
use vectorcore_twag.Base.Bytes.{Bytes, read32}
use vectorcore_twag.Gtp.Message.{min_gtpv2_sequence, max_gtpv2_sequence}

-- randomInitialGTPv2Sequence; `none` is a failing rand.Read, `some` the four bytes that it gives.
unfoldable pub initial_sequence : Option Bytes → ℕ
initial_sequence none = min_gtpv2_sequence
initial_sequence (some b) =
    let n = bit_and (read32 b 0) max_gtpv2_sequence in if n == 0 then min_gtpv2_sequence else n

-- One round of `next`: the value that follows `cur`, a uint32.
unfoldable pub next_sequence : ℕ → ℕ
next_sequence cur =
    let n = (cur + 1) % 2 ^ 32 in
    if n == 0 || ltb max_gtpv2_sequence n then min_gtpv2_sequence else n

-- The atomic steps of the loop in `next`, by the goroutine that makes them: `a.seq.Load()`, and
-- `a.seq.CompareAndSwap(cur, next)`, after which a goroutine that lost loads again.
pub data Action : Type 0 where
  load swap : ℕ → Action

pub record Allocator : Type 0 where
  pub seq : ℕ
  -- The `cur` of each goroutine.
  pub cur : ℕ → ℕ
  -- What `next` has returned so far, to any goroutine, the newest first.
  pub issued : List ℕ

unfoldable pub init : ℕ → Allocator
init s = record { seq = s; cur = λ _. 0; issued = [] }

unfoldable pub step : Allocator → Action → Allocator
step a (load g) = record a { cur = λ h. if h == g then a.seq else a.cur h }
step a (swap g) =
    let n = next_sequence (a.cur g) in
    if a.seq == a.cur g then record a { seq = n; issued = n ∷ a.issued } else a

unfoldable pub run : Allocator → List Action → Allocator
run a [] = a
run a (x ∷ xs) = run (step a x) xs
