-- ===== src/Gtp/Sequence/Order.antt =====
-- Whatever the interleaving, the allocator hands out the numbers 1 to 0x7fffff in a cycle.
use vectorcore_twag.Base.{
  ℕ, zero, suc, ◌+◌, ◌-◌, ◌%◌, ◌≤◌, ◌<◌, ◌≡◌, ◌≢◌, refl, List, [], ◌∷◌, Option, none, some, arith,
  length, All, Distinct, subst, sym,
}
use vectorcore_twag.Base.Bytes.{Bytes, read32}
use vectorcore_twag.Base.Bits.{bit_and_mask}
use vectorcore_twag.Gtp.Message.{max_gtpv2_sequence}
use vectorcore_twag.Gtp.Sequence.{
  initial_sequence, next_sequence, Action, load, swap, Allocator, init, step, run,
}

abbrev pub InRange : ℕ → Type 0
InRange s = (1 ≤ s) × (s ≤ max_gtpv2_sequence)

-- The counter starts in the range, whatever the random source gives.
pub initial_sequence-InRange : (r : Option Bytes) → InRange (initial_sequence r)
unfolding initial_sequence
initial_sequence-InRange none = omega arith
initial_sequence-InRange (some b) =
    ground (arith, bit_and_mask 23 (read32 b 0) max_gtpv2_sequence refl)

next_sequence-InRange : (s : ℕ) → InRange (next_sequence s)
unfolding next_sequence
next_sequence-InRange s = ground arith

-- The number that stands `n` places behind `s` on the cycle.
abbrev pub behind : ℕ → ℕ → ℕ
behind s n = (s - 1 + n) % max_gtpv2_sequence + 1

next_sequence-behind : (s n : ℕ) → 1 ≤ s → next_sequence (behind s n) ≡ behind s (n + 1)
unfolding next_sequence
next_sequence-behind s n h = ground arith

-- The `n` numbers behind `s`, the newest first.
pub cycle : ℕ → ℕ → List ℕ
cycle s zero = []
cycle s (suc n) = behind s (suc n) ∷ cycle s n

record Follows (s : ℕ) (a : Allocator) : Type 0 where
  at_seq : a.seq ≡ behind s (length a.issued)
  in_order : a.issued ≡ cycle s (length a.issued)

step-Follows : (s : ℕ) (a : Allocator) (x : Action) → 1 ≤ s → Follows s a → Follows s (step a x)
unfolding step cycle
step-Follows s a (load g) h f = record { at_seq = f.at_seq; in_order = f.in_order }
step-Follows s a (swap g) h f = ground (arith, next_sequence-behind s (length a.issued))

run-Follows :
    (s : ℕ) (a : Allocator) (xs : List Action) → 1 ≤ s → Follows s a → Follows s (run a xs)
unfolding run
run-Follows s a [] h f = f
run-Follows s a (x ∷ xs) h f = run-Follows s (step a x) xs h (step-Follows s a x h f)

init-Follows : (s : ℕ) → InRange s → Follows s (init s)
unfolding init cycle
init-Follows s h = record { at_seq = ground arith; in_order = refl }

cycle-Distinct_from :
    (s m n : ℕ) → n < m → m ≤ max_gtpv2_sequence → All (λ y. behind s m ≢ y) (cycle s n)
unfolding cycle
cycle-Distinct_from s m zero h k = tt
cycle-Distinct_from s m (suc n) h k = (omega arith, cycle-Distinct_from s m n (omega arith) k)

cycle-Distinct : (s n : ℕ) → n ≤ max_gtpv2_sequence → Distinct (cycle s n)
unfolding cycle
cycle-Distinct s zero h = tt
cycle-Distinct s (suc n) h =
    (cycle-Distinct_from s (suc n) n (omega arith) h, cycle-Distinct s n (omega arith))

cycle-InRange : (s n : ℕ) → All InRange (cycle s n)
unfolding cycle
cycle-InRange s zero = tt
cycle-InRange s (suc n) = (omega arith, cycle-InRange s n)

-- From a counter in the range, after any interleaving of loads and swaps by any number of
-- goroutines, what `next` has returned is a run of the cycle behind that counter, in order and
-- without a gap, and every number is in the range.
pub issued_run :
    (s : ℕ) (xs : List Action)
    → InRange s
    → let out = (run (init s) xs).issued in (out ≡ cycle s (length out)) × All InRange out
issued_run s xs h =
    let f = run-Follows s (init s) xs (omega arith) (init-Follows s h) in
    let n = length (run (init s) xs).issued in
    (f.in_order, subst (All InRange) (sym f.in_order) (cycle-InRange s n))

-- From a counter in the range, and whatever the goroutines interleave, the numbers that `next`
-- has returned are all different as long as they are no more than 0x7fffff.
pub issued-Distinct :
    (s : ℕ) (xs : List Action)
    → InRange s
    → length (run (init s) xs).issued ≤ max_gtpv2_sequence
    → Distinct (run (init s) xs).issued
issued-Distinct s xs h k = subst Distinct (sym (issued_run s xs h).0) (cycle-Distinct s _ k)
