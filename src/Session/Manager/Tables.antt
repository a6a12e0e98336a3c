-- ===== src/Session/Manager/Tables.antt =====
-- The tables of the session manager agree with the sessions that they lead to.
use vectorcore_twag.Base.{ℕ, ◌≤◌, ◌≡◌, ◌≢◌, some, arith, false, ◌==◌}
use vectorcore_twag.Base.Bytes.{Bytes}
use vectorcore_twag.Base.Map.{lookup, insert, nat_eq, text_eq, text_beq_iff, lookup-insert}
use vectorcore_twag.Base.Net.{is_nil, ip_string}
use vectorcore_twag.Base.Text.{Text}
use vectorcore_twag.Session.Types.{Session}
use vectorcore_twag.Session.Manager.{Manager, write, index_locked}
use vectorcore_twag.Session.Manager.Numbers.{last_number}

-- Every entry is filed under its session's own key, and leads to a session that is in `byID`;
-- the number at the end of a name is the session's place.
pub record IsConsistent (m : Manager) : Type 0 where
  pub by_id :
      (k : Text) (p : ℕ)
      → lookup k m.by_id ≡ some p
      → ((m.store p).id ≡ k) × (last_number k ≡ p) × (p ≤ m.next)
  pub by_imsi :
      (k : Text) (p : ℕ)
      → lookup k m.by_imsi ≡ some p
      → ((m.store p).imsi ≡ k) × (lookup (m.store p).id m.by_id ≡ some p)
  pub by_mac :
      (k : Text) (p : ℕ)
      → lookup k m.by_mac ≡ some p
      → ((m.store p).mac_address ≡ k) × (lookup (m.store p).id m.by_id ≡ some p)
  pub by_ip :
      (k : Bytes) (p : ℕ)
      → lookup k m.by_ip ≡ some p
      → (ip_string (m.store p).subscriber_ip ≡ k)
        × (is_nil (m.store p).subscriber_ip ≡ false)
        × (lookup (m.store p).id m.by_id ≡ some p)
  pub by_teid :
      (k p : ℕ)
      → lookup k m.by_teid ≡ some p
      → ((m.store p).gtpc_teid ≡ k) × (k ≢ 0) × (lookup (m.store p).id m.by_id ≡ some p)

-- No name leads to the place.
abbrev pub IsAbsent : Manager → ℕ → Type 0
IsAbsent m p = (k : Text) → lookup k m.by_id ≢ some p

-- A session that no name leads to may be written and indexed, under a name that ends in its place.
module _ (m : Manager) (p : ℕ) (s : Session) (c : IsConsistent m) (absent : IsAbsent m p)
    (numbered : last_number s.id ≡ p) (bound : p ≤ m.next) where
  abbrev pub indexed : Manager
  indexed = index_locked (write m p s) p

  indexed_id :
      (k : Text) (q : ℕ)
      → lookup k indexed.by_id ≡ some q
      → ((indexed.store q).id ≡ k) × (last_number k ≡ q) × (q ≤ m.next)
  unfolding index_locked
  indexed_id k q e =
      ground (arith, lookup-insert k s.id p m.by_id, text_beq_iff s.id k, c.by_id k q, absent k)

  -- An old entry stays right: its session is another one, under another name.
  kept :
      (q : ℕ)
      → lookup (m.store q).id m.by_id ≡ some q
      → ((p == q) ≡ false) × (lookup (m.store q).id (insert s.id p m.by_id) ≡ some q)
  kept q e = ground (
    arith,
    lookup-insert (m.store q).id s.id p m.by_id,
    text_beq_iff s.id (m.store q).id,
    c.by_id (m.store q).id q,
    absent (m.store q).id,
  )

  own : lookup s.id (insert s.id p m.by_id) ≡ some p
  own = ground (arith, lookup-insert s.id s.id p m.by_id, text_beq_iff s.id s.id)

  indexed_imsi :
      (k : Text) (q : ℕ)
      → lookup k indexed.by_imsi ≡ some q
      → ((indexed.store q).imsi ≡ k) × (lookup (indexed.store q).id indexed.by_id ≡ some q)
  unfolding index_locked
  indexed_imsi k q e =
      ground (
        arith,
        own,
        lookup-insert k s.imsi p m.by_imsi,
        text_beq_iff s.imsi k,
        c.by_imsi k q,
        kept q,
      )

  indexed_mac :
      (k : Text) (q : ℕ)
      → lookup k indexed.by_mac ≡ some q
      → ((indexed.store q).mac_address ≡ k) × (lookup (indexed.store q).id indexed.by_id ≡ some q)
  unfolding index_locked
  indexed_mac k q e = ground (
    arith,
    own,
    lookup-insert k s.mac_address p m.by_mac,
    text_beq_iff s.mac_address k,
    c.by_mac k q,
    kept q,
  )

  indexed_ip :
      (k : Bytes) (q : ℕ)
      → lookup k indexed.by_ip ≡ some q
      → (ip_string (indexed.store q).subscriber_ip ≡ k)
        × (is_nil (indexed.store q).subscriber_ip ≡ false)
        × (lookup (indexed.store q).id indexed.by_id ≡ some q)
  unfolding index_locked
  indexed_ip k q e = ground (
    arith,
    own,
    lookup-insert k (ip_string s.subscriber_ip) p m.by_ip,
    text_beq_iff (ip_string s.subscriber_ip) k,
    c.by_ip k q,
    kept q,
  )

  indexed_teid :
      (k q : ℕ)
      → lookup k indexed.by_teid ≡ some q
      → ((indexed.store q).gtpc_teid ≡ k)
        × (k ≢ 0)
        × (lookup (indexed.store q).id indexed.by_id ≡ some q)
  unfolding index_locked
  indexed_teid k q e =
      ground (arith, own, lookup-insert k s.gtpc_teid p m.by_teid, c.by_teid k q, kept q)

  pub index_locked-IsConsistent : IsConsistent indexed
  unfolding index_locked
  index_locked-IsConsistent = record {
    by_id = indexed_id;
    by_imsi = indexed_imsi;
    by_mac = indexed_mac;
    by_ip = indexed_ip;
    by_teid = indexed_teid;
  }
