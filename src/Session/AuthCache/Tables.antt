-- ===== src/Session/AuthCache/Tables.antt =====
-- The four tables of cached authorizations agree with the entries that they lead to.
use vectorcore_twag.Base.{
  ℕ, ◌+◌, ◌<◌, ◌≡◌, ◌≢◌, some, none, arith, true, false, ◌==◌, ◌||◌, Bool, List, [], ◌∷◌, length,
  if◌then◌else◌, refl,
}
use vectorcore_twag.Base.Map.{
  Assoc, lookup, insert, delete, text_eq, text_beq, text_beq_iff, lookup-insert, lookup-delete,
}
use vectorcore_twag.Base.Text.{Text}
use vectorcore_twag.Session.AuthCache.{
  AuthCacheEntry, AuthCache, own_key, acct_keys, insert_all, delete_all, write_entry,
  index_auth_cache_locked, unindex_auth_cache_locked,
}

unfoldable pub among : Text → List Text → Bool
among k [] = false
among k (j ∷ ks) = text_beq j k || among k ks

lookup-insert_all :
    (k : Text) (ks : List Text) (p : ℕ) (m : Assoc Text ℕ)
    → lookup k (insert_all ks p m) ≡ (if among k ks then some p else lookup k m)
unfolding among insert_all
lookup-insert_all k [] p m = refl
lookup-insert_all k (j ∷ ks) p m =
    ground (arith, lookup-insert_all k ks p (insert j p m), lookup-insert k j p m)

lookup-delete_all :
    (k : Text) (ks : List Text) (m : Assoc Text ℕ)
    → lookup k (delete_all ks m) ≡ (if among k ks then none else lookup k m)
unfolding among delete_all
lookup-delete_all k [] m = refl
lookup-delete_all k (j ∷ ks) m =
    ground (arith, lookup-delete_all k ks (delete j m), lookup-delete k j m)

-- Every entry of a table is filed under a key of the authorization that it leads to.
pub record IsFiled (c : AuthCache) : Type 0 where
  pub by_key :
      (k : Text) (p : ℕ) → lookup k c.by_key ≡ some p → (own_key (c.store p) ≡ k) × (p < c.next)
  pub by_mac :
      (k : Text) (p : ℕ) → lookup k c.by_mac ≡ some p → ((c.store p).mac_address ≡ k) × (p < c.next)
  pub by_imsi :
      (k : Text) (p : ℕ) → lookup k c.by_imsi ≡ some p → ((c.store p).imsi ≡ k) × (p < c.next)
  pub by_acct_nas :
      (k : Text) (p : ℕ)
      → lookup k c.by_acct_nas ≡ some p
      → (among k (acct_keys (c.store p)) ≡ true)
        × ((length (c.store p).acct_session_id == 0) ≡ false)
        × (p < c.next)

-- No table leads to the place.
pub record IsDetached (c : AuthCache) (p : ℕ) : Type 0 where
  pub by_key : (k : Text) → lookup k c.by_key ≢ some p
  pub by_mac : (k : Text) → lookup k c.by_mac ≢ some p
  pub by_imsi : (k : Text) → lookup k c.by_imsi ≢ some p
  pub by_acct_nas : (k : Text) → lookup k c.by_acct_nas ≢ some p

module _ (c : AuthCache) (p : ℕ) (e : AuthCacheEntry) (h : IsFiled c) (absent : IsDetached c p)
    (bound : p < c.next) where
  pub index_auth_cache_locked-IsFiled : IsFiled (index_auth_cache_locked (write_entry c p e) p)
  unfolding index_auth_cache_locked
  index_auth_cache_locked-IsFiled = record {
    by_key = λ k q f. ground (
      arith,
      lookup-insert k (own_key e) p c.by_key,
      text_beq_iff (own_key e) k,
      h.by_key k q,
      absent.by_key k,
    );
    by_mac = λ k q f. ground (
      arith,
      lookup-insert k e.mac_address p c.by_mac,
      text_beq_iff e.mac_address k,
      h.by_mac k q,
      absent.by_mac k,
    );
    by_imsi = λ k q f. ground (
      arith,
      lookup-insert k e.imsi p c.by_imsi,
      text_beq_iff e.imsi k,
      h.by_imsi k q,
      absent.by_imsi k,
    );
    by_acct_nas = λ k q f. ground (
      arith,
      lookup-insert_all k (acct_keys e) p c.by_acct_nas,
      h.by_acct_nas k q,
      absent.by_acct_nas k,
    );
  }

module _ (c : AuthCache) (p : ℕ) (h : IsFiled c) where
  pub unindex_auth_cache_locked-IsFiled : IsFiled (unindex_auth_cache_locked c p)
  unfolding unindex_auth_cache_locked
  unindex_auth_cache_locked-IsFiled = record {
    by_key = λ k q f. ground (arith, lookup-delete k (own_key (c.store p)) c.by_key, h.by_key k q);
    by_mac =
        λ k q f. ground (arith, lookup-delete k (c.store p).mac_address c.by_mac, h.by_mac k q);
    by_imsi = λ k q f. ground (arith, lookup-delete k (c.store p).imsi c.by_imsi, h.by_imsi k q);
    by_acct_nas = λ k q f.
        ground
          (arith, lookup-delete_all k (acct_keys (c.store p)) c.by_acct_nas, h.by_acct_nas k q);
  }

  pub unindex_auth_cache_locked-IsDetached : IsDetached (unindex_auth_cache_locked c p) p
  unfolding unindex_auth_cache_locked
  unindex_auth_cache_locked-IsDetached = record {
    by_key = λ k f. ground (
      arith,
      lookup-delete k (own_key (c.store p)) c.by_key,
      text_beq_iff (own_key (c.store p)) k,
      h.by_key k p,
    );
    by_mac = λ k f. ground (
      arith,
      lookup-delete k (c.store p).mac_address c.by_mac,
      text_beq_iff (c.store p).mac_address k,
      h.by_mac k p,
    );
    by_imsi = λ k f. ground (
      arith,
      lookup-delete k (c.store p).imsi c.by_imsi,
      text_beq_iff (c.store p).imsi k,
      h.by_imsi k p,
    );
    by_acct_nas = λ k f.
        ground
          (arith, lookup-delete_all k (acct_keys (c.store p)) c.by_acct_nas, h.by_acct_nas k p);
  }

pub next_place-IsFiled : (c : AuthCache) → IsFiled c → IsFiled (record c { next = c.next + 1 })
next_place-IsFiled c h = record {
  by_key = λ k q f. ground (arith, h.by_key k q);
  by_mac = λ k q f. ground (arith, h.by_mac k q);
  by_imsi = λ k q f. ground (arith, h.by_imsi k q);
  by_acct_nas = λ k q f. ground (arith, h.by_acct_nas k q);
}

pub next_place-IsDetached :
    (c : AuthCache) → IsFiled c → IsDetached (record c { next = c.next + 1 }) c.next
next_place-IsDetached c h = record {
  by_key = λ k f. ground (arith, h.by_key k c.next);
  by_mac = λ k f. ground (arith, h.by_mac k c.next);
  by_imsi = λ k f. ground (arith, h.by_imsi k c.next);
  by_acct_nas = λ k f. ground (arith, h.by_acct_nas k c.next);
}
