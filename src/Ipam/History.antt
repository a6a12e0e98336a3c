-- ===== src/Ipam/History.antt =====
-- The pool over any history of requests.
use vectorcore_twag.Base.{
  ◌≡◌, ◌≢◌, inl, inr, refl, sym, none, some, List, [], ◌∷◌, ok, err, arith, true, false, Result,
  Result-cases, length, ◌==◌,
}
use vectorcore_twag.Base.Bytes.{Bytes}
use vectorcore_twag.Base.Map.{
  lookup, delete, text_eq, lookup-insert_self, lookup-insert_ne, lookup-delete_self,
  lookup-delete_ne,
}
use vectorcore_twag.Base.Net.{Ip, ip_string}
use vectorcore_twag.Base.Text.{Text}
use vectorcore_twag.Ipam.{
  IpNet, MemoryIpam, Error, contains, is_reserved, new_memory, take_lease, allocate, release,
  lookup_lease,
}
use vectorcore_twag.Ipam.Tables.{
  IsConsistent, new_memory-IsConsistent, allocate-IsConsistent, allocate_cases,
  release-IsConsistent, release_cases,
}

pub data Request : Type 0 where
  allocates releases : Text → Request

abbrev after_allocate : MemoryIpam → Result Error (Ip × MemoryIpam) → MemoryIpam
after_allocate m (ok (ip, m')) = m'
after_allocate m (err e) = m

abbrev after_release : MemoryIpam → Result Error MemoryIpam → MemoryIpam
after_release m (ok m') = m'
after_release m (err e) = m

-- A request that fails leaves the pool as it was.
unfoldable pub step : MemoryIpam → Request → MemoryIpam
step m (allocates id) = after_allocate m (allocate m id)
step m (releases id) = after_release m (release m id)

unfoldable pub run : MemoryIpam → List Request → MemoryIpam
run m [] = m
run m (r ∷ rs) = run (step m r) rs

pub Step-IsConsistent : (m : MemoryIpam) (r : Request) → IsConsistent m → IsConsistent (step m r)
unfolding step
Step-IsConsistent m (allocates id) c = elim (Result-cases (allocate m id)) [
  | inl ((ip, m'), e) ↦ rw e (allocate-IsConsistent m m' id ip c e)
  | inr (x, e) ↦ rw e c
]
Step-IsConsistent m (releases id) c = elim (Result-cases (release m id)) [
  | inl (m', e) ↦ rw e (release-IsConsistent m m' id c e)
  | inr (x, e) ↦ rw e c
]

run-IsConsistent : (m : MemoryIpam) (rs : List Request) → IsConsistent m → IsConsistent (run m rs)
unfolding run
run-IsConsistent m [] c = c
run-IsConsistent m (r ∷ rs) c = run-IsConsistent (step m r) rs (Step-IsConsistent m r c)

-- After any sequence of allocations and releases on a new pool, two sessions that hold the same
-- address are one session, and a held address lies in the pool and is neither its gateway nor its
-- broadcast address.
pub leases_unique :
    (pool : IpNet) (gateway : Bytes) (m : MemoryIpam) (rs : List Request) (a b : Text) (x y : Ip)
    → new_memory pool gateway ≡ ok m
    → lookup_lease (run m rs) a ≡ some x
    → lookup_lease (run m rs) b ≡ some y
    → ip_string x ≡ ip_string y
    → (a ≡ b)
      × (contains (run m rs).pool x ≡ true)
      × (is_reserved (run m rs).pool (run m rs).gateway x ≡ false)
unfolding lookup_lease
leases_unique pool gateway m rs a b x y e ha hb same =
    let c = run-IsConsistent m rs (new_memory-IsConsistent pool gateway m e) in
    let la : lookup a (run m rs).leases ≡ some x = ground arith in
    let lb : lookup b (run m rs).leases ≡ some y = ground arith in
    let ka = c.leased a x la in let kb = c.leased b y lb in (ground arith, ka.1, ka.2)

allocate_named :
    (m m' : MemoryIpam) (id : Text) (ip : Ip)
    → allocate m id ≡ ok (ip, m')
    → (length id == 0) ≡ false
unfolding allocate
allocate_named m m' id ip e = ground arith

held_found :
    (m : MemoryIpam) (id : Text) (ip : Ip)
    → (length id == 0) ≡ false
    → lookup id m.leases ≡ some ip
    → lookup_lease m id ≡ some ip
unfolding lookup_lease
held_found m id ip named h = rw named h

kept :
    (m : MemoryIpam) (id : Text) (ip : Ip)
    → (length id == 0) ≡ false
    → lookup id m.leases ≡ some ip
    → allocate m id ≡ ok (ip, m)
unfolding allocate
kept m id ip named h = ground arith

others_taken :
    (m : MemoryIpam) (id : Text) (ip : Ip) (other : Text)
    → other ≢ id
    → lookup_lease (take_lease m id ip) other ≡ lookup_lease m other
unfolding lookup_lease take_lease
others_taken m id ip other ne = rw (lookup-insert_ne other id ip m.leases (λ e. ne (sym e)))

abbrev dropped : MemoryIpam → Text → Ip → MemoryIpam
dropped m id ip = record m {
  leases = delete id m.leases;
  assigned = delete (ip_string ip) m.assigned;
}

others_dropped :
    (m : MemoryIpam) (id : Text) (ip : Ip) (other : Text)
    → other ≢ id
    → lookup_lease (dropped m id ip) other ≡ lookup_lease m other
unfolding lookup_lease
others_dropped m id ip other ne = rw (lookup-delete_ne other id m.leases (λ e. ne (sym e)))

pub unheld : (m : MemoryIpam) (id : Text) → lookup id m.leases ≡ none → lookup_lease m id ≡ none
unfolding lookup_lease
unheld m id h = ground arith

held_absent :
    (m : MemoryIpam) (id : Text) (ip : Ip) → lookup id m.leases ≡ none → lookup_lease m id ≢ some ip
unfolding lookup_lease
held_absent m id ip h e = ground arith

freed :
    (m : MemoryIpam) (id : Text) (ip ip' : Ip)
    → lookup id m.leases ≡ some ip
    → lookup_lease m id ≡ some ip'
    → lookup (ip_string ip') (dropped m id ip).assigned ≡ none
unfolding lookup_lease
freed m id ip ip' held e =
    let same : ip' ≡ ip = ground arith in rw same (lookup-delete_self (ip_string ip) m.assigned)

pub allocate_lookups :
    (m m' : MemoryIpam) (id : Text) (ip : Ip)
    → allocate m id ≡ ok (ip, m')
    → (lookup_lease m' id ≡ some ip)
      × (allocate m' id ≡ ok (ip, m'))
      × ((other : Text) → other ≢ id → lookup_lease m' other ≡ lookup_lease m other)
allocate_lookups m m' id ip e = elim (allocate_cases m m' id ip e) [
  | inl (held, same) ↦
      rw same (held_found m id ip named held, kept m id ip named held, λ other ne. refl)
  | inr (absent, found, same) ↦
      let now : lookup id (take_lease m id ip).leases ≡ some ip =
        unfold take_lease in lookup-insert_self id ip m.leases in
      rw same (
        held_found (take_lease m id ip) id ip named now,
        kept (take_lease m id ip) id ip named now,
        λ other ne. others_taken m id ip other ne,
      )
]
  where
    named : (length id == 0) ≡ false
    named = allocate_named m m' id ip e

-- What Allocate returns is what Lookup finds from then on, asking again returns it again and
-- changes nothing, and the address of another session stays.
pub allocate-lookup_lease :
    (m m' : MemoryIpam) (id other : Text) (ip : Ip)
    → other ≢ id
    → allocate m id ≡ ok (ip, m')
    → (lookup_lease m' id ≡ some ip)
      × (allocate m' id ≡ ok (ip, m'))
      × (lookup_lease m' other ≡ lookup_lease m other)
allocate-lookup_lease m m' id other ip ne e =
    let (found, again, kept) = allocate_lookups m m' id ip e in (found, again, kept other ne)

pub release_lookups :
    (m m' : MemoryIpam) (id : Text)
    → release m id ≡ ok m'
    → (lookup_lease m' id ≡ none)
      × ((ip : Ip) → lookup_lease m id ≡ some ip → lookup (ip_string ip) m'.assigned ≡ none)
      × ((other : Text) → other ≢ id → lookup_lease m' other ≡ lookup_lease m other)
release_lookups m m' id e = elim (release_cases m m' id e) [
  | inl (absent, same) ↦
      rw same (unheld m id absent, λ ip h. absurd (held_absent m id ip absent h), λ other ne. refl)
  | inr (ip, held, same) ↦ rw same (
    unheld (dropped m id ip) id (lookup-delete_self id m.leases),
    λ ip' h. freed m id ip ip' held h,
    λ other ne. others_dropped m id ip other ne,
  )
]

-- Release takes the session's address away: Lookup finds none, the address is not assigned any
-- more, and the address of another session stays.
pub release-lookup_lease :
    (m m' : MemoryIpam) (id other : Text) (ip : Ip)
    → other ≢ id
    → lookup_lease m id ≡ some ip
    → release m id ≡ ok m'
    → (lookup_lease m' id ≡ none)
      × (lookup (ip_string ip) m'.assigned ≡ none)
      × (lookup_lease m' other ≡ lookup_lease m other)
release-lookup_lease m m' id other ip ne held e =
    let (gone, freed, kept) = release_lookups m m' id e in (gone, freed ip held, kept other ne)
