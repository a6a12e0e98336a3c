-- ===== src/Session/AuthCache/Reach.antt =====
-- The cached authorizations that calls lead to.
use vectorcore_twag.Base.{
  ℕ, ◌+◌, ◌<◌, ◌≡◌, inl, inr, refl, sym, subst, Bool, true, false, Option, none, some, List, [],
  ◌∷◌, arith, Bool-cases, if-both, length, ◌==◌, ◌||◌,
}
use vectorcore_twag.Base.Map.{lookup, text_eq}
use vectorcore_twag.Base.Text.{Text}
use vectorcore_twag.Session.Types.{Time}
use vectorcore_twag.Session.Mac.{normalize_mac}
use vectorcore_twag.Session.AuthCache.{
  AuthCacheEntry, AuthCacheUpdate, AuthCache, new_auth_cache, auth_cache_key, trim_space, has_ended,
  auth_cache_expired_locked, unindex_auth_cache_locked, updated_entry, new_entry, upsert_at,
  upsert_auth_cache, auth_place, valid_entry, lookup_valid_auth_cache, or_next, acct_loop,
  lookup_valid_auth_cache_by_acct, deleted_at, delete_auth_cache, apn_fits, auth_acct_key,
}
use vectorcore_twag.Session.AuthCache.Tables.{
  IsFiled, index_auth_cache_locked-IsFiled, unindex_auth_cache_locked-IsFiled,
  unindex_auth_cache_locked-IsDetached, next_place-IsFiled, next_place-IsDetached,
}

pub data Step (c c' : AuthCache) : Type 0 where
  upserted : (u : AuthCacheUpdate) (now : Time) → c' ≡ (upsert_auth_cache c u now).1 → Step c c'
  found :
      (mac imsi apn : Text) (now : Time)
      → c' ≡ (lookup_valid_auth_cache c mac imsi apn now).1
      → Step c c'
  found_by_acct :
      (acct_session_id nas_ip nas_identifier : Text) (now : Time)
      → c' ≡ (lookup_valid_auth_cache_by_acct c acct_session_id nas_ip nas_identifier now).1
      → Step c c'
  deleted : (mac imsi apn : Text) → c' ≡ (delete_auth_cache c mac imsi apn).1 → Step c c'

pub data Reachable : AuthCache → Type 0 where
  started : (blank : ℕ → AuthCacheEntry) → Reachable (new_auth_cache blank)
  stepped : (c c' : AuthCache) → Reachable c → Step c c' → Reachable c'

abbrev IsFiledAfter : Option AuthCacheEntry × AuthCache → Type 0
IsFiledAfter x = IsFiled (x.1)

upsert_at-IsFiled :
    (c : AuthCache) (u : AuthCacheUpdate) (blank : AuthCacheEntry) (now : Time) (place : Option ℕ)
    → IsFiled c
    → ((p : ℕ) → place ≡ some p → p < c.next)
    → IsFiled ((upsert_at c u blank now place).1)
unfolding unindex_auth_cache_locked
upsert_at-IsFiled c u blank now none h bound =
    index_auth_cache_locked-IsFiled (record c { next = c.next + 1 }) c.next
      (updated_entry u now blank) (next_place-IsFiled c h) (next_place-IsDetached c h) (omega arith)
upsert_at-IsFiled c u blank now (some p) h bound =
    index_auth_cache_locked-IsFiled (unindex_auth_cache_locked c p) p
      (updated_entry u now (c.store p)) (unindex_auth_cache_locked-IsFiled c p h)
      (unindex_auth_cache_locked-IsDetached c p h) (bound p refl)

upsert_auth_cache-IsFiled :
    (c : AuthCache) (u : AuthCacheUpdate) (now : Time)
    → IsFiled c
    → IsFiled ((upsert_auth_cache c u now).1)
unfolding upsert_auth_cache
upsert_auth_cache-IsFiled c u now h =
    let mac = normalize_mac u.mac_address in
    let imsi = trim_space u.imsi in
    let apn = trim_space u.apn in
    let key = auth_cache_key mac imsi apn in
    let blank = new_entry mac imsi apn now in
    if-both IsFiledAfter (length mac == 0 || length imsi == 0) (none, c)
      (upsert_at c u blank now (lookup key c.by_key)) h
      (upsert_at-IsFiled c u blank now (lookup key c.by_key) h (λ p e. (h.by_key key p e).1))

auth_cache_expired_locked-IsFiled :
    (c : AuthCache) (place : Option ℕ) (now : Time)
    → IsFiled c
    → IsFiled ((auth_cache_expired_locked c place now).1)
unfolding auth_cache_expired_locked
auth_cache_expired_locked-IsFiled c none now h = h
auth_cache_expired_locked-IsFiled c (some p) now h = elim (Bool-cases (has_ended (c.store p) now)) [
  | inl late ↦ rw late (unindex_auth_cache_locked-IsFiled c p h)
  | inr fresh ↦ rw fresh h
]

valid_entry-IsFiled :
    (apn : Text) (place : Option ℕ) (x : Bool × AuthCache)
    → IsFiled (x.1)
    → IsFiled ((valid_entry apn place x).1)
valid_entry-IsFiled apn place (true, c) h = h
valid_entry-IsFiled apn none (false, c) h = h
valid_entry-IsFiled apn (some p) (false, c) h =
    if-both IsFiledAfter (apn_fits (c.store p) apn) (some (c.store p), c) (none, c) h h

or_next-IsFiled :
    (next : AuthCache → Option AuthCacheEntry × AuthCache) (place : Option ℕ) (x : Bool × AuthCache)
    → ((c : AuthCache) → IsFiled c → IsFiled ((next c).1))
    → IsFiled (x.1)
    → IsFiled ((or_next next place x).1)
or_next-IsFiled next place (true, c) ih h = ih c h
or_next-IsFiled next none (false, c) ih h = ih c h
or_next-IsFiled next (some p) (false, c) ih h = h

acct_loop-IsFiled :
    (ks : List Text) (now : Time) (c : AuthCache) → IsFiled c → IsFiled ((acct_loop ks now c).1)
unfolding acct_loop
acct_loop-IsFiled [] now c h = h
acct_loop-IsFiled (k ∷ ks) now c h =
    let place = lookup k c.by_acct_nas in
    or_next-IsFiled (acct_loop ks now) place (auth_cache_expired_locked c place now)
      (acct_loop-IsFiled ks now) (auth_cache_expired_locked-IsFiled c place now h)

deleted_at-IsFiled :
    (c : AuthCache) (place : Option ℕ) → IsFiled c → IsFiled ((deleted_at c place).1)
deleted_at-IsFiled c none h = h
deleted_at-IsFiled c (some p) h = unindex_auth_cache_locked-IsFiled c p h

Step-IsFiled : (c c' : AuthCache) → IsFiled c → Step c c' → IsFiled c'
unfolding lookup_valid_auth_cache lookup_valid_auth_cache_by_acct delete_auth_cache
Step-IsFiled c c' h (upserted u now e) = subst IsFiled (sym e) (upsert_auth_cache-IsFiled c u now h)
Step-IsFiled c c' h (found mac imsi apn now e) =
    let place = auth_place c mac imsi apn in
    subst IsFiled (sym e) (
      valid_entry-IsFiled apn place (auth_cache_expired_locked c place now)
        (auth_cache_expired_locked-IsFiled c place now h))
Step-IsFiled c c' h (found_by_acct id nas_ip nas_identifier now e) =
    let keys =
      auth_acct_key id nas_ip nas_identifier
      ∷ auth_acct_key id nas_ip []
      ∷ auth_acct_key id [] nas_identifier
      ∷ auth_acct_key id [] []
      ∷ [] in
    subst IsFiled (sym e) (
      if-both IsFiledAfter (length id == 0) (none, c) (acct_loop keys now c) h
        (acct_loop-IsFiled keys now c h))
Step-IsFiled c c' h (deleted mac imsi apn e) = subst IsFiled (sym e) (deleted_at-IsFiled c _ h)

-- In every cache that calls lead to, each entry of the four tables is filed under a key of the
-- authorization that it leads to.
pub Reachable-IsFiled : (c : AuthCache) → Reachable c → IsFiled c
unfolding new_auth_cache lookup
Reachable-IsFiled _ (started blank) = record {
  by_key = λ k p e. absurd (ground arith);
  by_mac = λ k p e. absurd (ground arith);
  by_imsi = λ k p e. absurd (ground arith);
  by_acct_nas = λ k p e. absurd (ground arith);
}
Reachable-IsFiled _ (stepped c c' r s) = Step-IsFiled c c' (Reachable-IsFiled c r) s
