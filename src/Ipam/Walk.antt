-- ===== src/Ipam/Walk.antt =====
-- The walk over the pool: it passes over nothing that it may give, and it ends.
use vectorcore_twag.Base.{
  ℕ, zero, suc, ◌+◌, ◌-◌, ◌*◌, ◌/◌, ◌%◌, ◌^◌, ◌≤◌, ◌<◌, ◌≡◌, ◌≢◌, ◌⊎◌, inl, inr, refl, none, [],
  ◌∷◌, err, arith, true, Bool-cases, Option-cases, Result-cases, if◌then◌else◌, ◌||◌, ◌==◌, length,
  All,
}
use vectorcore_twag.Base.Bytes.{Bytes, IsByte, at}
use vectorcore_twag.Base.Bits.{bit_and_high, bit_and-zero}
use vectorcore_twag.Base.Text.{Text}
use vectorcore_twag.Base.Map.{lookup, text_eq}
use vectorcore_twag.Ipam.{
  IpNet, MemoryIpam, contains, inc_ipv4, first_usable, is_reserved, is_assigned, usable_count_loop,
  usable_count, allocate_loop, allocate, walk_fuel, out_of_fuel, pool_exhausted,
}

-- The address `k` steps behind `ip`.
unfoldable pub advance : ℕ → Bytes → Bytes
advance zero ip = ip
advance (suc k) ip = advance k (inc_ipv4 ip)

-- The walk reaches the address: it and all before it are in the pool.
abbrev pub Reaches : IpNet → ℕ → Bytes → Type 0
Reaches pool k ip = (j : ℕ) → j ≤ k → contains pool (advance j ip) ≡ true

-- A walk that ends with nothing has seen every address that it reached reserved or assigned.
allocate_loop_exhausted :
    (fuel : ℕ) (m : MemoryIpam) (from : Bytes) (k : ℕ)
    → allocate_loop fuel m from ≡ err pool_exhausted
    → Reaches m.pool k from
    → (is_reserved m.pool m.gateway (advance k from) || is_assigned m (advance k from)) ≡ true
unfolding allocate_loop advance
allocate_loop_exhausted zero m from k e r = cc
allocate_loop_exhausted (suc fuel) m from zero e r = ground (arith, r 0 (omega arith))
allocate_loop_exhausted (suc fuel) m from (suc k) e r = ground (
  arith,
  r 0 (omega arith),
  allocate_loop_exhausted fuel m (inc_ipv4 from) k,
  λ (j : ℕ) (h : j ≤ k). r (suc j) (omega arith),
)

-- The number that the bytes of an address make.
pub value : Bytes → ℕ
value [] = 0
value (b ∷ ip) = b * 256 ^ length ip + value ip

-- incIPv4 adds one, and wraps around at the end of the address space.
inc_four :
    (a b c d : ℕ)
    → All IsByte (a ∷ b ∷ c ∷ d ∷ [])
    → value (inc_ipv4 (a ∷ b ∷ c ∷ d ∷ [])) ≡ (value (a ∷ b ∷ c ∷ d ∷ []) + 1) % 2 ^ 32
unfolding value inc_ipv4
inc_four a b c d h = ground arith

pub record IsAddress (ip : Bytes) : Type 0 where
  pub four : length ip ≡ 4
  pub in_bytes : All IsByte ip

inc_four-IsAddress :
    (a b c d : ℕ) → All IsByte (a ∷ b ∷ c ∷ d ∷ []) → IsAddress (inc_ipv4 (a ∷ b ∷ c ∷ d ∷ []))
unfolding inc_ipv4
inc_four-IsAddress a b c d h = record { four = ground arith; in_bytes = ground arith }

-- The steps that a property of all addresses takes to reach the four bytes.
by_bytes {ℓ} :
    (P : Bytes → Type ℓ)
    → ((a b c d : ℕ) → All IsByte (a ∷ b ∷ c ∷ d ∷ []) → P (a ∷ b ∷ c ∷ d ∷ []))
    → (ip : Bytes) → IsAddress ip
    → P ip
by_bytes P p [] w = absurd (omega arith)
by_bytes P p (a ∷ []) w = absurd (omega arith)
by_bytes P p (a ∷ b ∷ []) w = absurd (omega arith)
by_bytes P p (a ∷ b ∷ c ∷ []) w = absurd (omega arith)
by_bytes P p (a ∷ b ∷ c ∷ d ∷ []) w = p a b c d w.in_bytes
by_bytes P p (a ∷ b ∷ c ∷ d ∷ e ∷ r) w = absurd (omega arith)

-- incIPv4 adds one to the number of the address, wraps around at the end of the address space, and
-- leaves four bytes.
pub value-inc_ipv4 :
    (ip : Bytes)
    → IsAddress ip
    → (value (inc_ipv4 ip) ≡ (value ip + 1) % 2 ^ 32) × IsAddress (inc_ipv4 ip)
value-inc_ipv4 =
    by_bytes (λ ip. (value (inc_ipv4 ip) ≡ (value ip + 1) % 2 ^ 32) × IsAddress (inc_ipv4 ip))
      λ a b c d h. (inc_four a b c d h, inc_four-IsAddress a b c d h)

-- A pool with a prefix of one bit at least.
pub record IsProper (pool : IpNet) : Type 0 where
  pub network : IsAddress pool.ip
  pub mask_four : length pool.mask ≡ 4
  pub mask_byte : IsByte (at pool.mask 0)
  pub one_bit : 128 ≤ at pool.mask 0

contains_high :
    (n m : ℕ) (network mask : Bytes) (a b c d : ℕ)
    → n < 256
    → m < 256
    → 128 ≤ m
    → All IsByte (a ∷ b ∷ c ∷ d ∷ [])
    → contains (record { ip = n ∷ network; mask = m ∷ mask }) (a ∷ b ∷ c ∷ d ∷ []) ≡ true
    → value (a ∷ b ∷ c ∷ d ∷ []) / 2 ^ 31 ≡ n / 128
unfolding contains value
contains_high n m network mask a b c d hn hm high h e =
    ground (arith, bit_and_high n m hn hm high, bit_and_high a m (omega arith) hm high)

contains_half_of :
    (network mask : Bytes)
    → IsProper (record { ip = network; mask = mask })
    → (ip : Bytes) → IsAddress ip
    → contains (record { ip = network; mask = mask }) ip ≡ true
    → value ip / 2 ^ 31 ≡ at network 0 / 128
contains_half_of [] mask p = absurd (omega arith)
contains_half_of (n ∷ network) [] p = absurd (omega arith)
contains_half_of (n ∷ network) (m ∷ mask) p =
    by_bytes
      (λ ip.
        contains (record { ip = n ∷ network; mask = m ∷ mask }) ip ≡ true
        → value ip / 2 ^ 31 ≡ n / 128)
      λ a b c d h e.
        contains_high n m network mask a b c d p.network.in_bytes.0 p.mask_byte p.one_bit h e

-- Every address of the pool lies in the half of the address space that the network lies in.
contains_half :
    (pool : IpNet) (ip : Bytes)
    → IsProper pool
    → IsAddress ip
    → contains pool ip ≡ true
    → value ip / 2 ^ 31 ≡ at pool.ip 0 / 128
contains_half pool ip p w e = contains_half_of pool.ip pool.mask p ip w e

-- Enough fuel: the walk has left the network's half, or is that many steps from leaving it.
abbrev Enough : ℕ → IpNet → Bytes → Type 0
Enough fuel pool ip =
    (value ip / 2 ^ 31 ≢ at pool.ip 0 / 128) × (0 < fuel) ⊎ (2 ^ 31 < fuel + value ip % 2 ^ 31)

network_top : (pool : IpNet) → IsProper pool → at pool.ip 0 / 128 ≤ 1
network_top pool p = by_bytes (λ ip. at ip 0 / 128 ≤ 1) (λ a b c d h. omega arith) pool.ip p.network

Enough-next :
    (fuel : ℕ) (pool : IpNet) (ip : Bytes)
    → IsProper pool
    → IsAddress ip
    → contains pool ip ≡ true
    → Enough (suc fuel) pool ip
    → Enough fuel pool (inc_ipv4 ip)
Enough-next fuel pool ip p w inside enough =
    let half = contains_half pool ip p w inside in
    let next = (value-inc_ipv4 ip w).0 in
    let top : at pool.ip 0 / 128 ≤ 1 = network_top pool p in
    elim (Bool-cases (value ip % 2 ^ 31 == 2 ^ 31 - 1)) [
      | inl last ↦ inl (ground arith, ground arith)
      | inr more ↦ inr (ground arith)
    ]

Enough-pos : (fuel : ℕ) (pool : IpNet) (ip : Bytes) → Enough fuel pool ip → 0 < fuel
Enough-pos fuel pool ip (inl (away, spare)) = spare
Enough-pos fuel pool ip (inr near) = omega arith

count_ends :
    (fuel : ℕ) (pool : IpNet) (gateway ip : Bytes) (count : ℕ)
    → IsProper pool
    → IsAddress ip
    → Enough fuel pool ip
    → usable_count_loop fuel pool gateway ip count ≢ none
unfolding usable_count_loop
count_ends zero pool gateway ip count p w enough =
    absurd (omega (arith, Enough-pos 0 pool ip enough))
count_ends (suc fuel) pool gateway ip count p w enough = elim (Bool-cases (contains pool ip)) [
  | inl inside ↦
      rw (inside, usable_count_loop)
        (count_ends fuel pool gateway (inc_ipv4 ip)
          (if is_reserved pool gateway ip then count else count + 1) p (value-inc_ipv4 ip w).1
          (Enough-next fuel pool ip p w inside enough))
  | inr outside ↦ rw (outside, usable_count_loop) (λ e. cc)
]

allocate_ends :
    (fuel : ℕ) (m : MemoryIpam) (ip : Bytes)
    → IsProper m.pool
    → IsAddress ip
    → Enough fuel m.pool ip
    → allocate_loop fuel m ip ≢ err out_of_fuel
unfolding allocate_loop
allocate_ends zero m ip p w enough = absurd (omega (arith, Enough-pos 0 m.pool ip enough))
allocate_ends (suc fuel) m ip p w enough = elim (Bool-cases (contains m.pool ip)) [
  | inl inside ↦
      let later =
        allocate_ends fuel m (inc_ipv4 ip) p (value-inc_ipv4 ip w).1
          (Enough-next fuel m.pool ip p w inside enough) in
      elim (Bool-cases (is_reserved m.pool m.gateway ip || is_assigned m ip)) [
        | inl over ↦ rw (inside, over, allocate_loop) later
        | inr free ↦ rw (inside, free, allocate_loop) (λ e. cc)
      ]
  | inr outside ↦ rw (outside, allocate_loop) (λ e. cc)
]

start-Enough : (pool : IpNet) → Enough walk_fuel pool (first_usable pool)
start-Enough pool = inr (omega arith)

first-IsAddress : (pool : IpNet) → IsProper pool → IsAddress (first_usable pool)
unfolding first_usable
first-IsAddress pool p = (value-inc_ipv4 pool.ip p.network).1

-- On a pool of four-byte network and mask whose prefix has one bit at least, counting the usable
-- addresses and allocating one never run out of fuel.
pub walk_ends :
    (m : MemoryIpam) (id : Text)
    → IsProper m.pool
    → (usable_count m.pool m.gateway ≢ none) × (allocate m id ≢ err out_of_fuel)
unfolding usable_count allocate
walk_ends m id p =
    let first = first-IsAddress m.pool p in
    let walk = allocate_ends walk_fuel m (first_usable m.pool) p first (start-Enough m.pool) in
    (
      count_ends walk_fuel m.pool m.gateway (first_usable m.pool) 0 p first (start-Enough m.pool),
      λ e. elim (Option-cases (lookup id m.leases)) [
        | inl absent ↦ elim (Result-cases (allocate_loop walk_fuel m (first_usable m.pool))) [
          | inl (ip, found) ↦ ground arith
          | inr (x, failed) ↦ walk (ground arith)
        ]
        | inr (ip, held) ↦ ground arith
      ],
    )

-- Where Allocate reports an exhausted pool, every address that the walk reaches from the first
-- one without leaving the pool is the gateway, the broadcast address or assigned.
pub allocate_exhausted :
    (m : MemoryIpam) (id : Text) (k : ℕ)
    → allocate m id ≡ err pool_exhausted
    → Reaches m.pool k (first_usable m.pool)
    → let ip = advance k (first_usable m.pool) in
      (is_reserved m.pool m.gateway ip || is_assigned m ip) ≡ true
unfolding allocate
allocate_exhausted m id k e r =
    let failed : allocate_loop walk_fuel m (first_usable m.pool) ≡ err pool_exhausted =
      ground arith in
    allocate_loop_exhausted walk_fuel m (first_usable m.pool) k failed r

-- The pool 0.0.0.0/0 holds every address, so no fuel is enough to count it.
abbrev pub whole_space : IpNet
whole_space = record { ip = 0 ∷ 0 ∷ 0 ∷ 0 ∷ []; mask = 0 ∷ 0 ∷ 0 ∷ 0 ∷ [] }

whole_contains : (ip : Bytes) → IsAddress ip → contains whole_space ip ≡ true
unfolding contains
whole_contains =
    by_bytes (λ ip. contains whole_space ip ≡ true)
      λ a b c d h. ground (arith, bit_and-zero a, bit_and-zero b, bit_and-zero c, bit_and-zero d)

whole_count :
    (fuel : ℕ) (gateway ip : Bytes) (count : ℕ)
    → IsAddress ip
    → usable_count_loop fuel whole_space gateway ip count ≡ none
unfolding usable_count_loop
whole_count zero gateway ip count w = refl
whole_count (suc fuel) gateway ip count w =
    rw (whole_contains ip w, usable_count_loop)
      (whole_count fuel gateway (inc_ipv4 ip)
        (if is_reserved whole_space gateway ip then count else count + 1) (value-inc_ipv4 ip w).1)

-- For the pool 0.0.0.0/0, the loop of usableCount gives no count with any fuel, from any
-- four-byte address on.
pub whole_space_never_counted :
    (fuel : ℕ) (gateway ip : Bytes)
    → IsAddress ip
    → usable_count_loop fuel whole_space gateway ip 0 ≡ none
whole_space_never_counted fuel gateway ip w = whole_count fuel gateway ip 0 w
