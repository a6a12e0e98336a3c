-- ===== src/Ipam/Tables.antt =====
-- No address is ever leased to two sessions.
use vectorcore_twag.Base.{
  ℕ, zero, suc, ◌≡◌, ◌≢◌, ◌⊎◌, sym, subst, none, some, List, [], ok, arith, true, false, Bool-cases,
  Option-cases, Result-cases, inl, inr,
}
use vectorcore_twag.Base.Bytes.{Bytes}
use vectorcore_twag.Base.Map.{
  Assoc, lookup, delete, text_eq, text_beq, text_beq_iff, lookup-insert, lookup-delete,
  lookup-insert_self,
}
use vectorcore_twag.Base.Net.{Ip, ip_string}
use vectorcore_twag.Base.Text.{Text}
use vectorcore_twag.Ipam.{
  IpNet, MemoryIpam, contains, is_reserved, is_assigned, new_memory, allocate_loop, take_lease,
  allocate, release, inc_ipv4, first_usable, walk_fuel,
}

-- Both maps say the same, and every leased address is one that the pool may give.
pub record IsConsistent (m : MemoryIpam) : Type 0 where
  pub leased :
      (id : Text) (ip : Ip)
      → lookup id m.leases ≡ some ip
      → (lookup (ip_string ip) m.assigned ≡ some id)
        × (contains m.pool ip ≡ true)
        × (is_reserved m.pool m.gateway ip ≡ false)
  pub assigned :
      (k : Bytes) (id : Text)
      → lookup k m.assigned ≡ some id
      → (ip : Ip) × (lookup id m.leases ≡ some ip) × (ip_string ip ≡ k)

no_entry : {V : Type 0} (k : List ℕ) (v : V) (t : Assoc (List ℕ) V) → t ≡ [] → lookup k t ≢ some v
unfolding lookup
no_entry k v t e h = ground arith

pub new_memory-IsConsistent :
    (pool : IpNet) (gateway : Bytes) (m : MemoryIpam)
    → new_memory pool gateway ≡ ok m
    → IsConsistent m
unfolding new_memory
new_memory-IsConsistent pool gateway m e =
    let no_leases : m.leases ≡ [] = ground arith in
    let none_assigned : m.assigned ≡ [] = ground arith in
    record {
      leased = λ id ip h. absurd (no_entry id ip m.leases no_leases h);
      assigned = λ k id h. absurd (no_entry k id m.assigned none_assigned h);
    }

-- What the walk takes is in the pool, is neither the gateway nor the broadcast address, and is free.
pub allocate_loop_sound :
    (fuel : ℕ) (m : MemoryIpam) (from ip : Bytes)
    → allocate_loop fuel m from ≡ ok ip
    → (contains m.pool ip ≡ true)
      × (is_reserved m.pool m.gateway ip ≡ false)
      × (is_assigned m ip ≡ false)
unfolding allocate_loop
allocate_loop_sound zero m from ip e = cc
allocate_loop_sound (suc fuel) m from ip e =
    ground (arith, allocate_loop_sound fuel m (inc_ipv4 from) ip)

module _ (m : MemoryIpam) (id : Text) (ip : Bytes) (c : IsConsistent m) where
  take_leased :
      is_assigned m ip ≡ false
      → contains m.pool ip ≡ true
      → is_reserved m.pool m.gateway ip ≡ false
      → (id' : Text) (ip' : Ip) → lookup id' (take_lease m id ip).leases ≡ some ip'
      → (lookup (ip_string ip') (take_lease m id ip).assigned ≡ some id')
        × (contains m.pool ip' ≡ true)
        × (is_reserved m.pool m.gateway ip' ≡ false)
  unfolding take_lease
  take_leased free inside usable id' ip' e = ground (
    arith,
    lookup-insert id' id ip m.leases,
    lookup-insert (ip_string ip') (ip_string ip) id m.assigned,
    text_beq_iff id id',
    text_beq_iff (ip_string ip) (ip_string ip'),
    c.leased id' ip',
  )

  take_assigned :
      lookup id m.leases ≡ none
      → (k : Bytes) (id' : Text) → lookup k (take_lease m id ip).assigned ≡ some id'
      → (x : Ip) × (lookup id' (take_lease m id ip).leases ≡ some x) × (ip_string x ≡ k)
  unfolding take_lease
  take_assigned absent k id' e = elim (Bool-cases (text_beq (ip_string ip) k)) [
    | inl same ↦
        let own : id' ≡ id = ground (arith, lookup-insert k (ip_string ip) id m.assigned) in
        (ip, rw own (lookup-insert_self id ip m.leases), (text_beq_iff (ip_string ip) k).0 same)
    | inr other ↦
        let old : lookup k m.assigned ≡ some id' =
          ground (arith, lookup-insert k (ip_string ip) id m.assigned) in
        let (x, held, key) = c.assigned k id' old in
        (x, ground (arith, lookup-insert id' id ip m.leases, text_beq_iff id id'), key)
  ]

  drop_leased :
      lookup id m.leases ≡ some ip
      → (id' : Text) (ip' : Ip) → lookup id' (delete id m.leases) ≡ some ip'
      → (lookup (ip_string ip') (delete (ip_string ip) m.assigned) ≡ some id')
        × (contains m.pool ip' ≡ true)
        × (is_reserved m.pool m.gateway ip' ≡ false)
  drop_leased held id' ip' e = ground (
    arith,
    lookup-delete id' id m.leases,
    lookup-delete (ip_string ip') (ip_string ip) m.assigned,
    text_beq_iff id id',
    text_beq_iff (ip_string ip) (ip_string ip'),
    c.leased id' ip',
    c.leased id ip,
  )

  drop_assigned :
      lookup id m.leases ≡ some ip
      → (k : Bytes) (id' : Text) → lookup k (delete (ip_string ip) m.assigned) ≡ some id'
      → (x : Ip) × (lookup id' (delete id m.leases) ≡ some x) × (ip_string x ≡ k)
  drop_assigned held k id' e =
      let old : lookup k m.assigned ≡ some id' =
        ground (arith, lookup-delete k (ip_string ip) m.assigned) in
      let (x, found, key) = c.assigned k id' old in
      let other : text_beq id id' ≡ false = ground (
        arith,
        lookup-delete k (ip_string ip) m.assigned,
        text_beq_iff id id',
        text_beq_iff (ip_string ip) k,
      ) in
      (x, ground (arith, lookup-delete id' id m.leases), key)

-- A first allocation: the walk's address, on maps that did not have the session.
pub allocate_cases :
    (m m' : MemoryIpam) (id : Text) (ip : Ip)
    → allocate m id ≡ ok (ip, m')
    → ((lookup id m.leases ≡ some ip) × (m' ≡ m))
      ⊎ ((lookup id m.leases ≡ none)
          × (allocate_loop walk_fuel m (first_usable m.pool) ≡ ok ip)
          × (m' ≡ take_lease m id ip))
unfolding allocate
allocate_cases m m' id ip e = elim (Option-cases (lookup id m.leases)) [
  | inl absent ↦ elim (Result-cases (allocate_loop walk_fuel m (first_usable m.pool))) [
    | inl (x, found) ↦ inr (absent, ground arith, ground arith)
    | inr (x, full) ↦ absurd (ground arith)
  ]
  | inr (x, held) ↦ inl (ground arith, ground arith)
]

-- Allocating keeps the maps consistent, for a session that has an address and for one that has not.
pub allocate-IsConsistent :
    (m m' : MemoryIpam) (id : Text) (ip : Ip)
    → IsConsistent m
    → allocate m id ≡ ok (ip, m')
    → IsConsistent m'
allocate-IsConsistent m m' id ip c e = elim (allocate_cases m m' id ip e) [
  | inl (held, same) ↦ subst IsConsistent (sym same) c
  | inr (absent, found, same) ↦
      let (inside, usable, free) = allocate_loop_sound walk_fuel m (first_usable m.pool) ip found in
      subst IsConsistent (sym same) (record {
        leased = unfold take_lease in take_leased m id ip c free inside usable;
        assigned = take_assigned m id ip c absent;
      })
]

pub release_cases :
    (m m' : MemoryIpam) (id : Text)
    → release m id ≡ ok m'
    → ((lookup id m.leases ≡ none) × (m' ≡ m))
      ⊎ ((ip : Ip) × (lookup id m.leases ≡ some ip)
          × (m' ≡ record m {
            leases = delete id m.leases;
            assigned = delete (ip_string ip) m.assigned;
          }))
unfolding release
release_cases m m' id e = elim (Option-cases (lookup id m.leases)) [
  | inl absent ↦ inl (absent, ground arith)
  | inr (ip, held) ↦ inr (ip, held, ground arith)
]

-- Releasing keeps the maps consistent.
pub release-IsConsistent :
    (m m' : MemoryIpam) (id : Text) → IsConsistent m → release m id ≡ ok m' → IsConsistent m'
release-IsConsistent m m' id c e = elim (release_cases m m' id e) [
  | inl (absent, same) ↦ subst IsConsistent (sym same) c
  | inr (ip, held, same) ↦
      subst IsConsistent (sym same)
        (record { leased = drop_leased m id ip c held; assigned = drop_assigned m id ip c held })
]
