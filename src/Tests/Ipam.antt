-- ===== src/Tests/Ipam.antt =====
-- The address pool on a concrete network.
use vectorcore_twag.Base.{
  ◌≢◌, ◌||◌, err, true, false, ℕ, ◌≤◌, ◌≡◌, refl, none, [], ◌∷◌, zero, suc, arith,
}
use vectorcore_twag.Base.Bytes.{Bytes}
use vectorcore_twag.Base.Map.{lookup, insert, delete, text_eq}
use vectorcore_twag.Base.Net.{Ip, ip_string, ip_equal, to4}
use vectorcore_twag.Base.Text.{Text, text}
use vectorcore_twag.Ipam.{
  IpNet, MemoryIpam, new_memory, allocate, allocate_loop, release, lookup_lease, first_usable,
  contains, is_reserved, is_assigned, inc_ipv4, is_broadcast, usable_count, usable_count_loop,
  take_lease, out_of_fuel,
}
use vectorcore_twag.Ipam.History.{allocates, releases, run, step, leases_unique}
use vectorcore_twag.Ipam.Refinement.{Allows, answers, run_refines}
use vectorcore_twag.Ipam.Walk.{
  advance, walk_ends, allocate_exhausted, whole_space, whole_space_never_counted,
}

-- 10.0.0.0/30 behind 10.0.0.1: one address for subscribers.
abbrev small : IpNet
small = record { ip = 10 ∷ 0 ∷ 0 ∷ 0 ∷ []; mask = 255 ∷ 255 ∷ 255 ∷ 252 ∷ [] }

abbrev gateway : Bytes
gateway = 10 ∷ 0 ∷ 0 ∷ 1 ∷ []

abbrev only : Ip
only = 10 ∷ 0 ∷ 0 ∷ 2 ∷ []

abbrev fresh : MemoryIpam
fresh = record { pool = small; gateway = gateway; total = 1; leases = []; assigned = [] }

abbrev taken : MemoryIpam
taken = record {
  pool = small;
  gateway = gateway;
  total = 1;
  leases = (text "a", only) ∷ [];
  assigned = (only, text "a") ∷ [];
}

leases_unique_example :
    (text "b" ≡ text "b")
    × (contains
          (run fresh (allocates (text "a") ∷ releases (text "a") ∷ allocates (text "b") ∷ [])).pool
          only
        ≡ true)
    × (is_reserved
          (run fresh (allocates (text "a") ∷ releases (text "a") ∷ allocates (text "b") ∷ [])).pool
          (run fresh
            (allocates (text "a") ∷ releases (text "a") ∷ allocates (text "b") ∷ [])).gateway
          only
        ≡ false)
unfolding new_memory contains usable_count usable_count_loop first_usable is_reserved ip_equal
    is_broadcast lookup_lease lookup run step allocate allocate_loop release take_lease insert
    delete ip_string to4
leases_unique_example =
    leases_unique small gateway fresh
      (allocates (text "a") ∷ releases (text "a") ∷ allocates (text "b") ∷ []) (text "b") (text "b")
      only only refl refl refl refl

walk_ends_example :
    (usable_count small gateway ≢ none) × (allocate fresh (text "a") ≢ err out_of_fuel)
walk_ends_example = walk_ends fresh (text "a") (record {
  network = record { four = refl; in_bytes = ground arith };
  mask_four = refl;
  mask_byte = omega arith;
  one_bit = omega arith;
})

reached : (j : ℕ) → j ≤ 1 → contains small (advance j (first_usable small)) ≡ true
unfolding contains first_usable advance inc_ipv4
reached zero h = refl
reached (suc zero) h = refl
reached (suc (suc j)) h = absurd (omega arith)

allocate_exhausted_example :
    (is_reserved small gateway (advance 1 (first_usable small))
      || is_assigned taken (advance 1 (first_usable small)))
    ≡ true
unfolding allocate lookup allocate_loop contains first_usable is_reserved ip_equal is_broadcast
    ip_string to4
allocate_exhausted_example = allocate_exhausted taken (text "b") 1 refl (λ j h. reached j h)

whole_space_never_counted_example : usable_count_loop 5 whole_space gateway only 0 ≡ none
whole_space_never_counted_example =
    whole_space_never_counted 5 gateway only (record { four = refl; in_bytes = ground arith })

run_refines_example :
    ((id : Text) → lookup_lease fresh id ≡ none)
    × Allows small gateway
        (lookup_lease fresh)
        (answers fresh (allocates (text "a") ∷ releases (text "a") ∷ allocates (text "b") ∷ []))
        (lookup_lease
          (run fresh (allocates (text "a") ∷ releases (text "a") ∷ allocates (text "b") ∷ [])))
unfolding new_memory contains usable_count usable_count_loop first_usable is_reserved ip_equal
    is_broadcast
run_refines_example =
    run_refines small gateway fresh
      (allocates (text "a") ∷ releases (text "a") ∷ allocates (text "b") ∷ []) refl
