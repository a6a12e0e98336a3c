-- ===== src/Ipam.antt =====
-- internal/ipam/ipam.go: the pool of subscriber addresses. The mutex makes each operation one step;
-- an address is a four-byte slice, and `fuel` bounds the walks over the pool.
pub mod History
pub mod Tables
pub mod Walk
pub mod Refinement
use vectorcore_twag.Base.{
  ℕ, zero, suc, ◌+◌, ◌-◌, ◌%◌, ◌^◌, Bool, true, false, ◌&&◌, ◌||◌, not, List, [], ◌∷◌, Option, none,
  some, Result, ok, err, ◌==◌, if◌then◌else◌, length, bit_and, bit_or,
}
use vectorcore_twag.Base.Bytes.{Bytes}
use vectorcore_twag.Base.Map.{Assoc, lookup, insert, delete, text_eq, text_beq}
use vectorcore_twag.Base.Net.{Ip, is_nil, ip_string, ip_equal}
use vectorcore_twag.Base.Text.{Text}

-- A net.IPNet with a network and a mask of four bytes.
pub record IpNet : Type 0 where
  pub ip : Bytes
  pub mask : Bytes

-- `^m` on a byte, and the slices that are built byte by byte.
abbrev masked : Bytes → Bytes → Bytes
masked [] m = []
masked (b ∷ ip) [] = []
masked (b ∷ ip) (m ∷ mask) = bit_and b m ∷ masked ip mask

abbrev highest : Bytes → Bytes → Bytes
highest [] m = []
highest (b ∷ ip) [] = []
highest (b ∷ ip) (m ∷ mask) = bit_or b (255 - m) ∷ highest ip mask

-- pool.Contains(ip), for slices of four bytes.
unfoldable pub contains : IpNet → Bytes → Bool
contains pool ip = text_beq (masked pool.ip pool.mask) (masked ip pool.mask)

-- The loop of incIPv4 from the last byte: whether it has not met its `break`, and the slice.
unfoldable pub inc_from : Bytes → Bool × Bytes
inc_from [] = (true, [])
inc_from (b ∷ ip) =
    let (carry, rest) = inc_from ip in
    let b' = (b + 1) % 256 in if carry then (b' == 0, b' ∷ rest) else (false, b ∷ rest)

-- incIPv4
unfoldable pub inc_ipv4 : Bytes → Bytes
unfolding inc_from
inc_ipv4 ip = (inc_from ip).1

-- firstUsable
unfoldable pub first_usable : IpNet → Bytes
unfolding inc_ipv4
first_usable pool = inc_ipv4 pool.ip

-- isBroadcast
unfoldable pub is_broadcast : IpNet → Bytes → Bool
is_broadcast pool ip = ip_equal ip (highest pool.ip pool.mask)

-- The test by which both walks pass an address over.
unfoldable pub is_reserved : IpNet → Bytes → Bytes → Bool
is_reserved pool gateway ip = ip_equal ip gateway || is_broadcast pool ip

-- The loop of usableCount; `none` means that the fuel ran out.
unfoldable pub usable_count_loop : ℕ → IpNet → Bytes → Bytes → ℕ → Option ℕ
usable_count_loop zero pool gateway ip count = none
usable_count_loop (suc fuel) pool gateway ip count = elim (contains pool ip) [
  | false ↦ some count
  | true ↦
      usable_count_loop fuel pool gateway (inc_ipv4 ip)
        (if is_reserved pool gateway ip then count else count + 1)
]

-- One more than the addresses of half of IPv4.
abbrev pub walk_fuel : ℕ
walk_fuel = 2 ^ 31 + 1

-- usableCount
unfoldable pub usable_count : IpNet → Bytes → Option ℕ
usable_count pool gateway = usable_count_loop walk_fuel pool gateway (first_usable pool) 0

pub data Error : Type 0 where
  gateway_outside_pool no_usable_addresses session_id_required pool_exhausted out_of_fuel : Error

pub record MemoryIpam : Type 0 where
  pub pool : IpNet
  pub gateway : Bytes
  pub total : ℕ
  pub leases : Assoc Text Ip
  pub assigned : Assoc Bytes Text

abbrev with_total : IpNet → Bytes → Option ℕ → Result Error MemoryIpam
with_total pool gateway none = err out_of_fuel
with_total pool gateway (some zero) = err no_usable_addresses
with_total pool gateway (some (suc n)) =
    ok (record { pool = pool; gateway = gateway; total = suc n; leases = []; assigned = [] })

-- NewMemory, for a parsed pool and an IPv4 gateway.
unfoldable pub new_memory : IpNet → Bytes → Result Error MemoryIpam
new_memory pool gateway =
    if contains pool gateway
    then with_total pool gateway (usable_count pool gateway)
    else err gateway_outside_pool

-- Whether m.assigned has the address.
abbrev pub is_assigned : MemoryIpam → Bytes → Bool
is_assigned m ip = elim (lookup (ip_string ip) m.assigned) [ none ↦ false | some id ↦ true ]

-- The loop of Allocate up to the address that it takes.
unfoldable pub allocate_loop : ℕ → MemoryIpam → Bytes → Result Error Bytes
allocate_loop zero m ip = err out_of_fuel
allocate_loop (suc fuel) m ip = elim (contains m.pool ip) [
  | false ↦ err pool_exhausted
  | true ↦ elim (is_reserved m.pool m.gateway ip || is_assigned m ip) [
    | true ↦ allocate_loop fuel m (inc_ipv4 ip)
    | false ↦ ok ip
  ]
]

unfoldable pub take_lease : MemoryIpam → Text → Bytes → MemoryIpam
take_lease m id ip = record m {
  leases = insert id ip m.leases;
  assigned = insert (ip_string ip) id m.assigned;
}

abbrev leased : MemoryIpam → Text → Result Error Bytes → Result Error (Ip × MemoryIpam)
leased m id (ok ip) = ok (ip, take_lease m id ip)
leased m id (err e) = err e

abbrev allocate_new : MemoryIpam → Text → Option Ip → Result Error (Ip × MemoryIpam)
allocate_new m id (some ip) = ok (ip, m)
allocate_new m id none = leased m id (allocate_loop walk_fuel m (first_usable m.pool))

-- Allocate
unfoldable pub allocate : MemoryIpam → Text → Result Error (Ip × MemoryIpam)
allocate m id =
    if length id == 0 then err session_id_required else allocate_new m id (lookup id m.leases)

abbrev released : MemoryIpam → Text → Option Ip → MemoryIpam
released m id none = m
released m id (some ip) = record m {
  leases = delete id m.leases;
  assigned = delete (ip_string ip) m.assigned;
}

-- Release
unfoldable pub release : MemoryIpam → Text → Result Error MemoryIpam
release m id =
    if length id == 0 then err session_id_required else ok (released m id (lookup id m.leases))

-- Lookup
unfoldable pub lookup_lease : MemoryIpam → Text → Option Ip
lookup_lease m id = if length id == 0 then none else lookup id m.leases
