-- ===== src/Session/Manager/Removal.antt =====
-- What Create, Delete and ApplyAuthResult do to the tables of the session manager.
use vectorcore_twag.Base.{ℕ, ◌+◌, ◌%◌, ◌^◌, ◌≤◌, ◌<◌, ◌≡◌, none, some, arith, false, ◌==◌}
use vectorcore_twag.Base.Map.{lookup, delete, nat_eq, text_eq, text_beq_iff, lookup-delete}
use vectorcore_twag.Base.Net.{ip_string}
use vectorcore_twag.Base.Text.{Text}
use vectorcore_twag.Session.Types.{Time}
use vectorcore_twag.Session.Manager.{Manager, CreateInput, unindex_locked, new_session, create}
use vectorcore_twag.Session.Manager.Numbers.{last_number-session_id}
use vectorcore_twag.Session.Manager.Tables.{IsConsistent, IsAbsent, index_locked-IsConsistent}

-- A manager may have handed out more numbers than its tables show.
raise_next :
    (m : Manager) (n : ℕ) → m.next ≤ n → IsConsistent m → IsConsistent (record m { next = n })
raise_next m n h c = record {
  by_id = λ k p e. ground (arith, c.by_id k p);
  by_imsi = c.by_imsi;
  by_mac = c.by_mac;
  by_ip = c.by_ip;
  by_teid = c.by_teid;
}

numbered_above : (m : Manager) (n : ℕ) → m.next < n → IsConsistent m → IsAbsent m n
numbered_above m n h c k e = ground (arith, c.by_id k n)

-- Create keeps the tables consistent, as long as the 64-bit counter of names does not wrap.
pub create-IsConsistent :
    (m : Manager) (input : CreateInput) (now : Time)
    → IsConsistent m
    → m.next + 1 < 2 ^ 64
    → IsConsistent (create m input now).1
unfolding create new_session
create-IsConsistent m input now c h =
    let n = (m.next + 1) % 2 ^ 64 in
    let larger : m.next < n = omega arith in
    index_locked-IsConsistent (record m { next = n }) n (new_session input now n)
      (raise_next m n (omega arith) c) (numbered_above m n larger c) (last_number-session_id now n)
      (omega arith)

-- A session that a name leads to is taken out of every table.
module _ (m : Manager) (p : ℕ) (c : IsConsistent m)
    (named : lookup (m.store p).id m.by_id ≡ some p) where
  pub unindex_locked-IsAbsent : IsAbsent (unindex_locked m p) p
  unfolding unindex_locked
  unindex_locked-IsAbsent k e =
      ground
        (arith, lookup-delete k (m.store p).id m.by_id, text_beq_iff (m.store p).id k, c.by_id k p)

  -- An entry for another session stays right.
  kept :
      (q : ℕ)
      → lookup (m.store q).id m.by_id ≡ some q
      → ((p == q) ≡ false)
      → lookup (m.store q).id (delete (m.store p).id m.by_id) ≡ some q
  kept q e h = ground (
    arith,
    lookup-delete (m.store q).id (m.store p).id m.by_id,
    text_beq_iff (m.store p).id (m.store q).id,
  )

  pub unindex_locked-IsConsistent : IsConsistent (unindex_locked m p)
  unfolding unindex_locked
  unindex_locked-IsConsistent = record {
    by_id = λ k q e. ground (arith, lookup-delete k (m.store p).id m.by_id, c.by_id k q);
    by_imsi = λ k q e. ground (
      arith,
      lookup-delete k (m.store p).imsi m.by_imsi,
      text_beq_iff (m.store p).imsi k,
      c.by_imsi k q,
      kept q,
    );
    by_mac = λ k q e. ground (
      arith,
      lookup-delete k (m.store p).mac_address m.by_mac,
      text_beq_iff (m.store p).mac_address k,
      c.by_mac k q,
      kept q,
    );
    by_ip = λ k q e. ground (
      arith,
      lookup-delete k (ip_string (m.store p).subscriber_ip) m.by_ip,
      text_beq_iff (ip_string (m.store p).subscriber_ip) k,
      c.by_ip k q,
      kept q,
    );
    by_teid = λ k q e.
        ground (arith, lookup-delete k (m.store p).gtpc_teid m.by_teid, c.by_teid k q, kept q);
  }

-- A name that led to a session leads nowhere once the session is taken out.
pub removed :
    (m : Manager) (p : ℕ) (id : Text)
    → IsConsistent m
    → lookup id m.by_id ≡ some p
    → lookup id (unindex_locked m p).by_id ≡ none
unfolding unindex_locked
removed m p id c found =
    ground
      (arith, lookup-delete id (m.store p).id m.by_id, text_beq_iff (m.store p).id id, c.by_id id p)
