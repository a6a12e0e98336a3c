-- ===== src/Ipam/Refinement.antt =====
-- The pool against the least that a client of it relies on: an assignment of addresses to sessions,
-- which a request changes for its own session only.
use vectorcore_twag.Base.{
  ◌≡◌, ◌≢◌, inl, inr, refl, none, some, List, [], ◌∷◌, ok, err, arith, true, false, Result, Option,
  Result-cases, Option-cases, subst, ◌∙◌, ap,
}
use vectorcore_twag.Base.Bytes.{Bytes}
use vectorcore_twag.Base.Map.{lookup, text_eq}
use vectorcore_twag.Base.Net.{Ip, ip_string}
use vectorcore_twag.Base.Text.{Text}
use vectorcore_twag.Ipam.{
  IpNet, MemoryIpam, Error, contains, is_reserved, new_memory, take_lease, allocate, release,
  lookup_lease, is_assigned, walk_fuel, first_usable,
}
use vectorcore_twag.Ipam.Tables.{
  IsConsistent, new_memory-IsConsistent, allocate_cases, allocate_loop_sound, release_cases,
}
use vectorcore_twag.Ipam.History.{
  Request, allocates, releases, step, run, Step-IsConsistent, allocate_lookups, release_lookups,
  unheld,
}

-- Which address each session holds.
abbrev pub Assignment : Type 0
Assignment = Text → Option Ip

module _ (pool : IpNet) (gateway : Bytes) where
  -- What a request may do to the assignment, and answer.
  pub data Allowed (f f' : Assignment) : Request → Option Ip → Type 0 where
    -- A session that holds an address gets it again.
    kept :
        (id : Text) (ip : Ip)
        → f id ≡ some ip
        → ((k : Text) → f' k ≡ f k)
        → Allowed f f' (allocates id) (some ip)
    -- Another one gets an address of the pool that is neither the gateway's nor the broadcast one
    -- and that no session holds.
    granted :
        (id : Text) (ip : Ip)
        → f id ≡ none
        → contains pool ip ≡ true
        → is_reserved pool gateway ip ≡ false
        → ((k : Text) (x : Ip) → f k ≡ some x → ip_string x ≢ ip_string ip)
        → f' id ≡ some ip
        → ((k : Text) → k ≢ id → f' k ≡ f k)
        → Allowed f f' (allocates id) (some ip)
    -- Or it gets none, and nothing changes.
    refused :
        (id : Text) → f id ≡ none → ((k : Text) → f' k ≡ f k) → Allowed f f' (allocates id) none
    -- A session that gives its address back holds none.
    returned :
        (id : Text)
        → f' id ≡ none
        → ((k : Text) → k ≢ id → f' k ≡ f k)
        → Allowed f f' (releases id) none

  -- A sequence of requests with their answers.
  pub data Allows : Assignment → List (Request × Option Ip) → Assignment → Type 0 where
    stays : (f : Assignment) → Allows f [] f
    goes :
        (f f' f'' : Assignment) (r : Request) (answer : Option Ip)
        (rest : List (Request × Option Ip))
        → Allowed f f' r answer
        → Allows f' rest f''
        → Allows f ((r, answer) ∷ rest) f''

abbrev allocated : Result Error (Ip × MemoryIpam) → Option Ip
allocated (ok (ip, m)) = some ip
allocated (err e) = none

-- What the pool answers.
unfoldable pub answer : MemoryIpam → Request → Option Ip
answer m (allocates id) = allocated (allocate m id)
answer m (releases id) = none

unfoldable pub answers : MemoryIpam → List Request → List (Request × Option Ip)
answers m [] = []
answers m (r ∷ rs) = (r, answer m r) ∷ answers (step m r) rs

lookup_lease_found :
    (m : MemoryIpam) (k : Text) (x : Ip) → lookup_lease m k ≡ some x → lookup k m.leases ≡ some x
unfolding lookup_lease
lookup_lease_found m k x e = ground arith

allocate_failed :
    (m : MemoryIpam) (id : Text) (e : Error) → allocate m id ≡ err e → lookup_lease m id ≡ none
unfolding allocate lookup_lease
allocate_failed m id e h = elim (Option-cases (lookup id m.leases)) [
  | inl absent ↦ ground (arith, absent)
  | inr (ip, held) ↦ ground (arith, held)
]

release_failed :
    (m : MemoryIpam) (id : Text) (e : Error) → release m id ≡ err e → lookup_lease m id ≡ none
unfolding release lookup_lease
release_failed m id e h = ground arith

-- The address of a granted lease is free.
granted_free :
    (m : MemoryIpam) (ip : Ip)
    → IsConsistent m
    → is_assigned m ip ≡ false
    → (k : Text) (x : Ip) → lookup_lease m k ≡ some x
    → ip_string x ≢ ip_string ip
granted_free m ip c free k x e same =
    ground (arith, free, same, c.leased k x (lookup_lease_found m k x e))

allocate-Allowed :
    (m : MemoryIpam) (id : Text)
    → IsConsistent m
    → Allowed m.pool m.gateway
        (lookup_lease m)
        (lookup_lease (step m (allocates id)))
        (allocates id)
        (answer m (allocates id))
unfolding step answer
allocate-Allowed m id c = elim (Result-cases (allocate m id)) [
  | inr (x, failed) ↦ rw failed (refused id (allocate_failed m id x failed) (λ k. refl))
  | inl ((ip, m'), e) ↦
      let (now, again, others) = allocate_lookups m m' id ip e in
      elim (allocate_cases m m' id ip e) [
        | inl (held, same) ↦
            let before : lookup_lease m id ≡ some ip = rw (← same) now in
            rw e (kept id ip before (λ k. ap (λ n. lookup_lease n k) same))
        | inr (absent, found, same) ↦
            let (inside, usable, free) =
              allocate_loop_sound walk_fuel m (first_usable m.pool) ip found in
            rw e (
              granted id ip (unheld m id absent) inside usable (granted_free m ip c free) now
                others)
      ]
]

release-Allowed :
    (m : MemoryIpam) (id : Text)
    → Allowed m.pool m.gateway
        (lookup_lease m)
        (lookup_lease (step m (releases id)))
        (releases id)
        (answer m (releases id))
unfolding step answer
release-Allowed m id = elim (Result-cases (release m id)) [
  | inl (m', e) ↦
      let (gone, freed, others) = release_lookups m m' id e in rw e (returned id gone others)
  | inr (x, failed) ↦ rw failed (returned id (release_failed m id x failed) (λ k ne. refl))
]

step-Allowed :
    (m : MemoryIpam) (r : Request)
    → IsConsistent m
    → Allowed m.pool m.gateway (lookup_lease m) (lookup_lease (step m r)) r (answer m r)
step-Allowed m (allocates id) c = allocate-Allowed m id c
step-Allowed m (releases id) c = release-Allowed m id

-- No request changes the pool or its gateway.
step_pool :
    (m : MemoryIpam) (r : Request) → ((step m r).pool ≡ m.pool) × ((step m r).gateway ≡ m.gateway)
unfolding step take_lease
step_pool m (allocates id) = elim (Result-cases (allocate m id)) [
  | inr (x, failed) ↦ rw failed (refl, refl)
  | inl ((ip, m'), e) ↦ rw e (elim (allocate_cases m m' id ip e) [
    | inl (held, same) ↦ rw same (refl, refl)
    | inr (absent, found, same) ↦ rw same (refl, refl)
  ])
]
step_pool m (releases id) = elim (Result-cases (release m id)) [
  | inr (x, failed) ↦ rw failed (refl, refl)
  | inl (m', e) ↦ rw e (elim (release_cases m m' id e) [
    | inl (absent, same) ↦ rw same (refl, refl)
    | inr (ip, held, same) ↦ rw same (refl, refl)
  ])
]

run-Allows :
    (pool : IpNet) (gateway : Bytes) (m : MemoryIpam) (rs : List Request)
    → m.pool ≡ pool
    → m.gateway ≡ gateway
    → IsConsistent m
    → Allows pool gateway (lookup_lease m) (answers m rs) (lookup_lease (run m rs))
unfolding answers run
run-Allows pool gateway m [] p g c = stays (lookup_lease m)
run-Allows pool gateway m (r ∷ rs) p g c =
    let (same_pool, same_gateway) = step_pool m r in
    goes (lookup_lease m) (lookup_lease (step m r)) (lookup_lease (run (step m r) rs)) r
      (answer m r) (answers (step m r) rs)
      (subst (λ q. Allowed q gateway (lookup_lease m) (lookup_lease (step m r)) r (answer m r)) p
        (subst (λ w. Allowed m.pool w (lookup_lease m) (lookup_lease (step m r)) r (answer m r)) g
          (step-Allowed m r c)))
      (run-Allows pool gateway (step m r) rs (same_pool ∙ p) (same_gateway ∙ g)
        (Step-IsConsistent m r c))

new_memory_fields :
    (pool : IpNet) (gateway : Bytes) (m : MemoryIpam)
    → new_memory pool gateway ≡ ok m
    → (m.pool ≡ pool) × (m.gateway ≡ gateway) × (m.leases ≡ [])
unfolding new_memory
new_memory_fields pool gateway m e = ground arith

-- Seen through Lookup, a new pool assigns nothing, and whatever allocations and releases follow, its
-- answers and its assignments are among those that the specification allows: a session that holds an
-- address gets it again, another one gets an address of the pool that is neither the gateway's nor
-- the broadcast one and that no session holds, or it is refused and nothing changes, and a release
-- takes the session's own address away only.
pub run_refines :
    (pool : IpNet) (gateway : Bytes) (m : MemoryIpam) (rs : List Request)
    → new_memory pool gateway ≡ ok m
    → ((id : Text) → lookup_lease m id ≡ none)
      × Allows pool gateway (lookup_lease m) (answers m rs) (lookup_lease (run m rs))
unfolding lookup_lease lookup
run_refines pool gateway m rs e =
    let (same_pool, same_gateway, empty) = new_memory_fields pool gateway m e in
    (
      λ id. rw (ap (λ l. lookup_lease (record m { leases = l }) id) empty) (ground arith),
      run-Allows pool gateway m rs same_pool same_gateway
          (new_memory-IsConsistent pool gateway m e),
    )
