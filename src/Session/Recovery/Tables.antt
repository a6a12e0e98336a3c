-- ===== src/Session/Recovery/Tables.antt =====
-- The four tables of tombstones agree with the tombstones that they lead to.
use vectorcore_twag.Base.{
  ℕ, ◌+◌, ◌<◌, ◌≡◌, ◌≢◌, some, arith, false, ◌==◌, All, All-map, if-both, length,
}
use vectorcore_twag.Base.Bytes.{Bytes}
use vectorcore_twag.Base.Map.{
  lookup, nat_eq, text_eq, text_beq_iff, lookup-insert, lookup-delete, All-insert, All-delete,
}
use vectorcore_twag.Base.Net.{is_nil, ip_string}
use vectorcore_twag.Base.Text.{Text}
use vectorcore_twag.Session.Mac.{mac_string}
use vectorcore_twag.Session.Recovery.{
  RecoveryTombstone, Recovery, write_tombstone, index_recovery_locked, unindex_recovery_locked,
}

abbrev pub IsPlace {ℓ} : {K : Type ℓ} → ℕ → K × ℕ → Type 0
IsPlace n e = e.1 < n

-- Every entry is filed under the tombstone's own key, which is present.
pub record IsFiled (r : Recovery) : Type 0 where
  pub by_mac :
      (k : Text) (p : ℕ)
      → lookup k r.by_mac ≡ some p
      → (mac_string (r.store p).mac ≡ k) × (is_nil (r.store p).mac ≡ false) × (p < r.next)
  pub by_imsi :
      (k : Text) (p : ℕ)
      → lookup k r.by_imsi ≡ some p
      → ((r.store p).imsi ≡ k) × (is_nil k ≡ false) × (p < r.next)
  pub by_ip :
      (k : Bytes) (p : ℕ)
      → lookup k r.by_ip ≡ some p
      → (ip_string (r.store p).old_subscriber_ip ≡ k)
        × (is_nil (r.store p).old_subscriber_ip ≡ false)
        × (p < r.next)
  pub by_remote_teid :
      (k p : ℕ)
      → lookup k r.by_remote_teid ≡ some p
      → ((r.store p).old_remote_teid ≡ k) × (k ≢ 0) × (p < r.next)
  pub mac_places : All (IsPlace r.next) r.by_mac
  pub imsi_places : All (IsPlace r.next) r.by_imsi

-- No table leads to the place.
pub record IsDetached (r : Recovery) (p : ℕ) : Type 0 where
  pub by_mac : (k : Text) → lookup k r.by_mac ≢ some p
  pub by_imsi : (k : Text) → lookup k r.by_imsi ≢ some p
  pub by_ip : (k : Bytes) → lookup k r.by_ip ≢ some p
  pub by_remote_teid : (k : ℕ) → lookup k r.by_remote_teid ≢ some p

-- A place that no table leads to may be written and indexed.
module _ (r : Recovery) (p : ℕ) (t : RecoveryTombstone) (c : IsFiled r) (absent : IsDetached r p)
    (bound : p < r.next) where
  pub index_recovery_locked-IsFiled : IsFiled (index_recovery_locked (write_tombstone r p t) p)
  unfolding index_recovery_locked
  index_recovery_locked-IsFiled = record {
    by_mac = λ k q e. ground (
      arith,
      lookup-insert k (mac_string t.mac) p r.by_mac,
      text_beq_iff (mac_string t.mac) k,
      c.by_mac k q,
      absent.by_mac k,
    );
    by_imsi = λ k q e. ground (
      arith,
      lookup-insert k t.imsi p r.by_imsi,
      text_beq_iff t.imsi k,
      c.by_imsi k q,
      absent.by_imsi k,
    );
    by_ip = λ k q e. ground (
      arith,
      lookup-insert k (ip_string t.old_subscriber_ip) p r.by_ip,
      text_beq_iff (ip_string t.old_subscriber_ip) k,
      c.by_ip k q,
      absent.by_ip k,
    );
    by_remote_teid = λ k q e. ground (
      arith,
      lookup-insert k t.old_remote_teid p r.by_remote_teid,
      c.by_remote_teid k q,
      absent.by_remote_teid k,
    );
    mac_places =
        let t' = (write_tombstone r p t).store p in
        if-both (All (IsPlace r.next)) (is_nil t'.mac) r.by_mac _ c.mac_places
          (All-insert (IsPlace r.next) (mac_string t'.mac) p r.by_mac bound c.mac_places);
    imsi_places =
        let t' = (write_tombstone r p t).store p in
        if-both (All (IsPlace r.next)) (length t'.imsi == 0) r.by_imsi _ c.imsi_places
          (All-insert (IsPlace r.next) t'.imsi p r.by_imsi bound c.imsi_places);
  }

module _ (r : Recovery) (p : ℕ) (c : IsFiled r) where
  pub unindex_recovery_locked-IsFiled : IsFiled (unindex_recovery_locked r p)
  unfolding unindex_recovery_locked
  unindex_recovery_locked-IsFiled = record {
    by_mac = λ k q e.
        ground (arith, lookup-delete k (mac_string (r.store p).mac) r.by_mac, c.by_mac k q);
    by_imsi = λ k q e. ground (arith, lookup-delete k (r.store p).imsi r.by_imsi, c.by_imsi k q);
    by_ip = λ k q e.
        ground
          (arith, lookup-delete k (ip_string (r.store p).old_subscriber_ip) r.by_ip, c.by_ip k q);
    by_remote_teid = λ k q e.
        ground (
          arith,
          lookup-delete k (r.store p).old_remote_teid r.by_remote_teid,
          c.by_remote_teid k q,
        );
    mac_places =
        if-both (All (IsPlace r.next)) (is_nil (r.store p).mac) r.by_mac _ c.mac_places
          (All-delete (IsPlace r.next) (mac_string (r.store p).mac) r.by_mac c.mac_places);
    imsi_places =
        if-both (All (IsPlace r.next)) (length (r.store p).imsi == 0) r.by_imsi _ c.imsi_places
          (All-delete (IsPlace r.next) (r.store p).imsi r.by_imsi c.imsi_places);
  }

  pub unindex_recovery_locked-IsDetached : IsDetached (unindex_recovery_locked r p) p
  unfolding unindex_recovery_locked
  unindex_recovery_locked-IsDetached = record {
    by_mac = λ k e. ground (
      arith,
      lookup-delete k (mac_string (r.store p).mac) r.by_mac,
      text_beq_iff (mac_string (r.store p).mac) k,
      c.by_mac k p,
    );
    by_imsi = λ k e. ground (
      arith,
      lookup-delete k (r.store p).imsi r.by_imsi,
      text_beq_iff (r.store p).imsi k,
      c.by_imsi k p,
    );
    by_ip = λ k e. ground (
      arith,
      lookup-delete k (ip_string (r.store p).old_subscriber_ip) r.by_ip,
      text_beq_iff (ip_string (r.store p).old_subscriber_ip) k,
      c.by_ip k p,
    );
    by_remote_teid = λ k e.
        ground (
          arith,
          lookup-delete k (r.store p).old_remote_teid r.by_remote_teid,
          c.by_remote_teid k p,
        );
  }

-- A new place has room for a tombstone.
pub next_place-IsFiled : (r : Recovery) → IsFiled r → IsFiled (record r { next = r.next + 1 })
next_place-IsFiled r c = record {
  by_mac = λ k q e. ground (arith, c.by_mac k q);
  by_imsi = λ k q e. ground (arith, c.by_imsi k q);
  by_ip = λ k q e. ground (arith, c.by_ip k q);
  by_remote_teid = λ k q e. ground (arith, c.by_remote_teid k q);
  mac_places = All-map (IsPlace r.next) _ r.by_mac (λ e h. omega arith) c.mac_places;
  imsi_places = All-map (IsPlace r.next) _ r.by_imsi (λ e h. omega arith) c.imsi_places;
}

pub next_place-IsDetached :
    (r : Recovery) → IsFiled r → IsDetached (record r { next = r.next + 1 }) r.next
next_place-IsDetached r c = record {
  by_mac = λ k e. ground (arith, c.by_mac k r.next);
  by_imsi = λ k e. ground (arith, c.by_imsi k r.next);
  by_ip = λ k e. ground (arith, c.by_ip k r.next);
  by_remote_teid = λ k e. ground (arith, c.by_remote_teid k r.next);
}
