-- ===== src/Session/AuthCache/Lookups.antt =====
-- What the lookups of cached authorizations return.
use vectorcore_twag.Base.{
  ℕ, ◌<◌, ◌≡◌, ◌≢◌, ◌⊎◌, inl, inr, refl, sym, ap, ◌∙◌, true, false, Option, none, some, [], arith,
  Bool-cases, length, ◌==◌, ◌||◌,
}
use vectorcore_twag.Base.Map.{lookup, delete, text_eq, lookup-insert_self}
use vectorcore_twag.Base.Text.{Text}
use vectorcore_twag.Session.Types.{Time}
use vectorcore_twag.Session.Mac.{normalize_mac, same_apn}
use vectorcore_twag.Session.AuthCache.{
  AuthCacheEntry, AuthCacheUpdate, AuthCache, own_key, auth_cache_key, trim_space, has_ended,
  auth_cache_expired_locked, unindex_auth_cache_locked, index_auth_cache_locked, updated_entry,
  new_entry, upsert_at, upsert_auth_cache, key_place, auth_place, valid_entry,
  lookup_valid_auth_cache, apn_fits,
}
use vectorcore_twag.Session.AuthCache.Reach.{Reachable, Reachable-IsFiled}

-- A valid entry is the one at the place, has not ended, and fits the APN.
valid_entry_cases :
    (c : AuthCache) (apn : Text) (place : Option ℕ) (now : Time) (e : AuthCacheEntry)
    → (valid_entry apn place (auth_cache_expired_locked c place now)).0 ≡ some e
    → (p : ℕ) × (place ≡ some p)
      × (c.store p ≡ e)
      × (has_ended e now ≡ false)
      × (apn_fits e apn ≡ true)
unfolding auth_cache_expired_locked
valid_entry_cases c apn none now e h = absurd (ground arith)
valid_entry_cases c apn (some p) now e h = elim (Bool-cases (has_ended (c.store p) now)) [
  | inl late ↦ absurd (ground arith)
  | inr fresh ↦ (p, refl, ground arith, ground arith, ground arith)
]

-- Which of the subscriber's keys an entry has.
abbrev pub IsOf : AuthCacheEntry → Text → Text → Text → Type 0
IsOf e mac imsi apn =
    (own_key e ≡ auth_cache_key (normalize_mac mac) (trim_space imsi) (trim_space apn))
    ⊎ (own_key e ≡ auth_cache_key (normalize_mac mac) (trim_space imsi) (trim_space []))
    ⊎ (e.mac_address ≡ normalize_mac mac)
    ⊎ (e.imsi ≡ trim_space imsi)

auth_place_cases :
    (c : AuthCache) (mac imsi apn : Text) (p : ℕ)
    → auth_place c mac imsi apn ≡ some p
    → (key_place c mac imsi apn ≡ some p)
      ⊎ (key_place c mac imsi [] ≡ some p)
      ⊎ (lookup (normalize_mac mac) c.by_mac ≡ some p)
      ⊎ (lookup (trim_space imsi) c.by_imsi ≡ some p)
unfolding auth_place
auth_place_cases c mac imsi apn p e = ground arith

-- In every cache that calls lead to, the authorization that LookupValidAuthCache returns has not
-- ended at that time, has the subscriber's key with the APN or with none, or the hardware address or
-- the IMSI that was asked for, and its APN and the one asked for are the same up to case, where both
-- are given.
pub lookup_valid_auth_cache_agrees :
    (c : AuthCache) (mac imsi apn : Text) (now : Time) (e : AuthCacheEntry)
    → Reachable c
    → (lookup_valid_auth_cache c mac imsi apn now).0 ≡ some e
    → ((e.auth_expires_at ≡ 0) ⊎ (now < e.auth_expires_at))
      × IsOf e mac imsi apn
      × ((length apn ≡ 0) ⊎ ((length e.apn ≡ 0) ⊎ (same_apn e.apn apn ≡ true)))
unfolding lookup_valid_auth_cache
lookup_valid_auth_cache_agrees c mac imsi apn now e r h =
    let (p, place, same, fresh, fits) =
      valid_entry_cases c apn (auth_place c mac imsi apn) now e h in
    let files = Reachable-IsFiled c r in
    (
      ground (arith, fresh),
      (elim (auth_place_cases c mac imsi apn p place) [
        | inl key ↦ inl (rw (← same) (files.by_key _ p key).0)
        | inr (inl key) ↦ inr (inl (rw (← same) (files.by_key _ p key).0))
        | inr (inr (inl hw)) ↦ inr (inr (inl (rw (← same) (files.by_mac _ p hw).0)))
        | inr (inr (inr id)) ↦ inr (inr (inr (rw (← same) (files.by_imsi _ p id).0)))
      ]),
      ground (arith, fits),
    )

-- What UpsertAuthCache files is under its key.
upsert_at_found :
    (c : AuthCache) (u : AuthCacheUpdate) (blank : AuthCacheEntry) (now : Time) (place : Option ℕ)
    (key : Text)
    → own_key blank ≡ key
    → ((p : ℕ) → place ≡ some p → own_key (c.store p) ≡ key)
    → let x = upsert_at c u blank now place in
      (p : ℕ) × (lookup key x.1.by_key ≡ some p) × (x.0 ≡ some (x.1.store p))
unfolding index_auth_cache_locked unindex_auth_cache_locked updated_entry
upsert_at_found c u blank now none key named filed = (
  c.next,
  ground (arith, named, lookup-insert_self (own_key blank) c.next c.by_key),
  ground arith,
)
upsert_at_found c u blank now (some p) key named filed = (
  p,
  ground (
    arith,
    filed p refl,
    lookup-insert_self (own_key (c.store p)) p (delete (own_key (c.store p)) c.by_key),
  ),
  ground arith,
)

fresh_found :
    (c : AuthCache) (mac imsi apn : Text) (p : ℕ) (now : Time)
    → length mac ≢ 0
    → length imsi ≢ 0
    → key_place c mac imsi apn ≡ some p
    → has_ended (c.store p) now ≡ false
    → apn_fits (c.store p) apn ≡ true
    → lookup_valid_auth_cache c mac imsi apn now ≡ (some (c.store p), c)
unfolding lookup_valid_auth_cache auth_cache_expired_locked auth_place
fresh_found c mac imsi apn p now m i place fresh fits =
    let here : auth_place c mac imsi apn ≡ some p = ground (arith, place) in
    rw (here, fresh, fits) refl

-- What a result that is known says of the place under the key.
known_place :
    (x : Option AuthCacheEntry × AuthCache) (e : AuthCacheEntry) (c' : AuthCache) (key : Text)
    (p : ℕ)
    → x ≡ (some e, c')
    → lookup key x.1.by_key ≡ some p
    → x.0 ≡ some (x.1.store p)
    → (lookup key c'.by_key ≡ some p) × (c'.store p ≡ e)
known_place x e c' key p h there same =
    let after : x.1 ≡ c' = ap (λ y. y.1) h in
    let before : some e ≡ some (c'.store p) =
      sym (ap (λ y. y.0) h) ∙ (same ∙ ap (λ d. some (d.store p)) after) in
    (rw (← after) there, ground arith)

upsert_given :
    (c : AuthCache) (u : AuthCacheUpdate) (now : Time) (x : Option AuthCacheEntry × AuthCache)
    → (e : AuthCacheEntry) × (x.0 ≡ some e)
    → upsert_auth_cache c u now ≡ x
    → let mac = normalize_mac u.mac_address in
      let imsi = trim_space u.imsi in
      let apn = trim_space u.apn in
      upsert_at c u (new_entry mac imsi apn now) now (lookup (auth_cache_key mac imsi apn) c.by_key)
      ≡ x
unfolding upsert_auth_cache
upsert_given c u now x (e, some_e) h =
    elim (Bool-cases
      (length (normalize_mac u.mac_address) == 0 || length (trim_space u.imsi) == 0)) [
        | inl empty ↦ absurd (ground arith)
        | inr given ↦ ground arith
      ]

new_entry_key :
    (mac imsi apn : Text) (now : Time)
    → own_key (new_entry mac imsi apn now) ≡ auth_cache_key mac imsi apn
unfolding new_entry
new_entry_key mac imsi apn now = refl

-- In a cache that calls lead to, what UpsertAuthCache returns for an update is what
-- LookupValidAuthCache returns for the same hardware address, IMSI and APN, until it ends, where its
-- APN and the one asked for are the same up to case or one is not given; the lookup changes nothing.
pub upsert-lookup_valid_auth_cache :
    (c c' : AuthCache) (u : AuthCacheUpdate) (now later : Time) (e : AuthCacheEntry)
    → Reachable c
    → upsert_auth_cache c u now ≡ (some e, c')
    → length u.mac_address ≢ 0
    → length u.imsi ≢ 0
    → has_ended e later ≡ false
    → apn_fits e u.apn ≡ true
    → lookup_valid_auth_cache c' u.mac_address u.imsi u.apn later ≡ (some e, c')
upsert-lookup_valid_auth_cache c c' u now later e r h m i fresh fits =
    let mac = normalize_mac u.mac_address in
    let imsi = trim_space u.imsi in
    let apn = trim_space u.apn in
    let key = auth_cache_key mac imsi apn in
    let place = lookup key c.by_key in
    let blank = new_entry mac imsi apn now in
    let (p, there, same) =
      upsert_at_found c u blank now place key (new_entry_key mac imsi apn now)
        (λ p f. ((Reachable-IsFiled c r).by_key key p f).0) in
    let (found, stored) =
      known_place (upsert_at c u blank now place) e c' key p
        (upsert_given c u now (some e, c') (e, refl) h) there same in
    fresh_found c' u.mac_address u.imsi u.apn p later m i found
      (ap (λ d. has_ended d later) stored ∙ fresh) (ap (λ d. apn_fits d u.apn) stored ∙ fits)
    ∙ ap (λ d. (some d, c')) stored
