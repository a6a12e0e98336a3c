-- ===== src/Session/Manager/Changes.antt =====
-- What the session manager's changes of a session do to its tables.
use vectorcore_twag.Base.{ℕ, ◌≡◌, some, arith, false}
use vectorcore_twag.Base.Map.{
  lookup, delete, nat_eq, text_eq, text_beq_iff, lookup-insert, lookup-delete,
}
use vectorcore_twag.Base.Net.{Ip, is_nil, ip_string}
use vectorcore_twag.Base.Text.{Text}
use vectorcore_twag.Session.Types.{Session}
use vectorcore_twag.Session.Manager.{Manager, edit, unindex_locked, auth_change}
use vectorcore_twag.Session.Operations.{drop_ip, set_ip_change, update_ip_change, teid_change}
use vectorcore_twag.Session.Manager.Tables.{IsConsistent, IsAbsent, index_locked-IsConsistent}
use vectorcore_twag.Session.Manager.Removal.{unindex_locked-IsAbsent, unindex_locked-IsConsistent}

-- The keys under which a session is filed.
abbrev pub Keys : Type 0
Keys = Text × Text × Text × Ip × ℕ

abbrev pub keys : Session → Keys
keys s = (s.id, s.imsi, s.mac_address, s.subscriber_ip, s.gtpc_teid)

-- A change of a session that keeps its keys keeps the tables consistent.
pub edit-IsConsistent :
    (f : Session → Session) (m : Manager) (p : ℕ)
    → ((s : Session) → keys (f s) ≡ keys s)
    → IsConsistent m
    → IsConsistent (edit f m p)
edit-IsConsistent f m p h c = record {
  by_id = λ k q e. ground (arith, h (m.store p), c.by_id k q);
  by_imsi = λ k q e. ground (arith, h (m.store p), c.by_imsi k q);
  by_mac = λ k q e. ground (arith, h (m.store p), c.by_mac k q);
  by_ip = λ k q e. ground (arith, h (m.store p), c.by_ip k q);
  by_teid = λ k q e. ground (arith, h (m.store p), c.by_teid k q);
}

-- So does any change of a session that no name leads to.
pub absent-IsConsistent :
    (f : Session → Session) (m : Manager) (p : ℕ)
    → IsAbsent m p
    → IsConsistent m
    → IsConsistent (edit f m p)
absent-IsConsistent f m p h c = record {
  by_id = λ k q e. ground (arith, h k, c.by_id k q);
  by_imsi = λ k q e. ground (arith, h (m.store q).id, c.by_imsi k q);
  by_mac = λ k q e. ground (arith, h (m.store q).id, c.by_mac k q);
  by_ip = λ k q e. ground (arith, h (m.store q).id, c.by_ip k q);
  by_teid = λ k q e. ground (arith, h (m.store q).id, c.by_teid k q);
}

module _ (m : Manager) (p : ℕ) (c : IsConsistent m) (k : Text)
    (named : lookup k m.by_id ≡ some p) where
  pub own_name : lookup (m.store p).id m.by_id ≡ some p
  own_name = ground (arith, c.by_id k p)

  pub auth_change-IsConsistent :
      (imsi msisdn apn reason : Text) → IsConsistent (auth_change imsi msisdn apn reason m p)
  unfolding auth_change unindex_locked
  auth_change-IsConsistent imsi msisdn apn reason =
      let m' = unindex_locked m p in
      index_locked-IsConsistent m' p _ (unindex_locked-IsConsistent m p c own_name)
        (unindex_locked-IsAbsent m p c own_name) (ground (arith, c.by_id k p))
        (ground (arith, c.by_id k p))

  -- The address is not nil: SetSubscriberIP files a nil one too.
  pub set_ip_change-IsConsistent :
      (ip : Ip) → is_nil ip ≡ false → IsConsistent (set_ip_change ip m p)
  unfolding set_ip_change drop_ip
  set_ip_change-IsConsistent ip filled = record {
    by_id = λ k q e. ground (arith, c.by_id k q);
    by_imsi = λ k q e. ground (arith, c.by_imsi k q);
    by_mac = λ k q e. ground (arith, c.by_mac k q);
    by_ip = λ k q e. ground (
      arith,
      own_name,
      lookup-insert k (ip_string ip) p (drop_ip m p).by_ip,
      lookup-delete k (ip_string (m.store p).subscriber_ip) m.by_ip,
      text_beq_iff (ip_string (m.store p).subscriber_ip) k,
      text_beq_iff (ip_string ip) k,
      c.by_ip k q,
    );
    by_teid = λ k q e. ground (arith, c.by_teid k q);
  }

  pub update_ip_change-IsConsistent : (ip : Ip) → IsConsistent (update_ip_change ip m p)
  unfolding update_ip_change drop_ip
  update_ip_change-IsConsistent ip = record {
    by_id = λ k q e. ground (arith, c.by_id k q);
    by_imsi = λ k q e. ground (arith, c.by_imsi k q);
    by_mac = λ k q e. ground (arith, c.by_mac k q);
    by_ip = λ k q e. ground (
      arith,
      own_name,
      lookup-insert k (ip_string ip) p (drop_ip m p).by_ip,
      lookup-delete k (ip_string (m.store p).subscriber_ip) m.by_ip,
      text_beq_iff (ip_string (m.store p).subscriber_ip) k,
      text_beq_iff (ip_string ip) k,
      c.by_ip k q,
    );
    by_teid = λ k q e. ground (arith, c.by_teid k q);
  }

  -- The function changes no key but the control TEID.
  pub teid_change-IsConsistent :
      (f : Session → Session)
      → ((s : Session) → keys (record (f s) { gtpc_teid = s.gtpc_teid }) ≡ keys s)
      → IsConsistent (teid_change f m p)
  unfolding teid_change
  teid_change-IsConsistent f h = record {
    by_id = λ k q e. ground (arith, h (m.store p), c.by_id k q);
    by_imsi = λ k q e. ground (arith, h (m.store p), c.by_imsi k q);
    by_mac = λ k q e. ground (arith, h (m.store p), c.by_mac k q);
    by_ip = λ k q e. ground (arith, h (m.store p), c.by_ip k q);
    by_teid = λ k q e. ground (
      arith,
      own_name,
      h (m.store p),
      lookup-insert k (f (m.store p)).gtpc_teid p m.by_teid,
      lookup-insert k (f (m.store p)).gtpc_teid p (delete (m.store p).gtpc_teid m.by_teid),
      lookup-delete k (m.store p).gtpc_teid m.by_teid,
      c.by_teid k q,
    );
  }
