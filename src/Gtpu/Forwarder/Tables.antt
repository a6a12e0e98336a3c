-- ===== src/Gtpu/Forwarder/Tables.antt =====
-- The three tables of the forwarder agree, whatever sessions are added and removed.
use vectorcore_twag.Base.{ℕ, ◌≡◌, ◌≢◌, ◌⊎◌, refl, sym, Option, none, some, ok, arith, subst, false}
use vectorcore_twag.Base.Map.{
  lookup, delete, nat_eq, text_eq, text_beq_iff, lookup-insert, lookup-delete,
}
use vectorcore_twag.Base.Net.{UdpAddr, is_nil, ip_string}
use vectorcore_twag.Base.Text.{Text}
use vectorcore_twag.Session.Types.{Session}
use vectorcore_twag.Gtpu.Forwarder.{
  Forwarder, new_forwarder, drop_old, bind, add_session, unbind, remove_session,
}

-- Every entry of a table is filed under the session's own key, and names a session that is bound.
pub record IsConsistent (f : Forwarder) : Type 0 where
  pub by_id : (k : Text) (s : Session) → lookup k f.by_session_id ≡ some s → s.id ≡ k
  pub by_teid :
      (k : ℕ) (s : Session)
      → lookup k f.by_local_teid ≡ some s
      → (s.local_gtpu_teid ≡ k) × (lookup s.id f.by_session_id ≡ some s)
  pub by_address :
      (k : Text) (s : Session)
      → lookup k f.by_ip ≡ some s
      → (ip_string s.subscriber_ip ≡ k)
        × (is_nil s.subscriber_ip ≡ false)
        × (lookup s.id f.by_session_id ≡ some s)

pub new_forwarder-IsConsistent : (remote : UdpAddr) → IsConsistent (new_forwarder remote)
unfolding new_forwarder lookup
new_forwarder-IsConsistent remote = record {
  by_id = λ k s e. cc;
  by_teid = λ k s e. cc;
  by_address = λ k s e. cc;
}

module _ (f : Forwarder) (s : Session) (c : IsConsistent f) where
  bind_teid :
      (o : Option Session)
      → lookup s.id f.by_session_id ≡ o
      → (k : ℕ) (t : Session) → lookup k (bind (drop_old f o) s).by_local_teid ≡ some t
      → (t.local_gtpu_teid ≡ k) × (lookup t.id (bind (drop_old f o) s).by_session_id ≡ some t)
  unfolding bind drop_old
  bind_teid none same k t e = ground (
    arith,
    lookup-insert k s.local_gtpu_teid s f.by_local_teid,
    lookup-insert t.id s.id s f.by_session_id,
    text_beq_iff s.id t.id,
    text_beq_iff s.id s.id,
    c.by_teid k t,
  )
  bind_teid (some old) same k t e = ground (
    arith,
    lookup-insert k s.local_gtpu_teid s (delete old.local_gtpu_teid f.by_local_teid),
    lookup-delete k old.local_gtpu_teid f.by_local_teid,
    lookup-insert t.id s.id s f.by_session_id,
    text_beq_iff s.id t.id,
    text_beq_iff s.id s.id,
    c.by_teid k t,
  )

  bind_address :
      (o : Option Session)
      → lookup s.id f.by_session_id ≡ o
      → is_nil s.subscriber_ip ≡ false
      → (k : Text) (t : Session) → lookup k (bind (drop_old f o) s).by_ip ≡ some t
      → (ip_string t.subscriber_ip ≡ k)
        × (is_nil t.subscriber_ip ≡ false)
        × (lookup t.id (bind (drop_old f o) s).by_session_id ≡ some t)
  unfolding bind drop_old
  bind_address none same ip k t e = ground (
    arith,
    lookup-insert k (ip_string s.subscriber_ip) s f.by_ip,
    lookup-insert t.id s.id s f.by_session_id,
    text_beq_iff (ip_string s.subscriber_ip) k,
    text_beq_iff s.id t.id,
    text_beq_iff s.id s.id,
    c.by_address k t,
  )
  bind_address (some old) same ip k t e = ground (
    arith,
    lookup-insert k (ip_string s.subscriber_ip) s f.by_ip,
    lookup-insert k (ip_string s.subscriber_ip) s (delete (ip_string old.subscriber_ip) f.by_ip),
    lookup-delete k (ip_string old.subscriber_ip) f.by_ip,
    lookup-insert t.id s.id s f.by_session_id,
    text_beq_iff (ip_string s.subscriber_ip) k,
    text_beq_iff (ip_string old.subscriber_ip) k,
    text_beq_iff s.id t.id,
    text_beq_iff s.id s.id,
    c.by_address k t,
  )

  bind_id :
      (o : Option Session) (k : Text) (t : Session)
      → lookup k (bind (drop_old f o) s).by_session_id ≡ some t
      → t.id ≡ k
  unfolding bind drop_old
  bind_id none k t e =
      ground (arith, lookup-insert k s.id s f.by_session_id, text_beq_iff s.id k, c.by_id k t)
  bind_id (some old) k t e =
      ground (arith, lookup-insert k s.id s f.by_session_id, text_beq_iff s.id k, c.by_id k t)

pub added :
    (f g : Forwarder) (s : Session)
    → add_session f s ≡ ok g
    → (g ≡ bind (drop_old f (lookup s.id f.by_session_id)) s) × (is_nil s.subscriber_ip ≡ false)
unfolding add_session
added f g s e = ground arith

-- Where the forwarder's three tables are consistent and AddSession takes a session, new or with
-- new bindings, the tables that it leaves are consistent.
pub add_session-IsConsistent :
    (f g : Forwarder) (s : Session) → IsConsistent f → add_session f s ≡ ok g → IsConsistent g
add_session-IsConsistent f g s c e =
    let old = lookup s.id f.by_session_id in
    let (bound, ip) = added f g s e in
    subst IsConsistent (sym bound) (record {
      by_id = bind_id f s c old;
      by_teid = bind_teid f s c old refl;
      by_address = bind_address f s c old refl ip;
    })

module _ (f : Forwarder) (id : Text) (c : IsConsistent f) where
  unbind_id :
      (o : Option Session) (k : Text) (t : Session)
      → lookup k (unbind f id o).by_session_id ≡ some t
      → (t.id ≡ k) × ((k ≢ id) ⊎ (o ≡ none))
  unfolding unbind
  unbind_id none k t e = ground (arith, c.by_id k t)
  unbind_id (some old) k t e =
      ground (arith, lookup-delete k id f.by_session_id, text_beq_iff id k, c.by_id k t)

  unbind_teid :
      (o : Option Session)
      → lookup id f.by_session_id ≡ o
      → (k : ℕ) (t : Session) → lookup k (unbind f id o).by_local_teid ≡ some t
      → (t.local_gtpu_teid ≡ k) × (lookup t.id (unbind f id o).by_session_id ≡ some t)
  unfolding unbind
  unbind_teid none same k t e = ground (arith, c.by_teid k t)
  unbind_teid (some old) same k t e = ground (
    arith,
    lookup-delete k old.local_gtpu_teid f.by_local_teid,
    lookup-delete t.id id f.by_session_id,
    text_beq_iff id t.id,
    c.by_teid k t,
  )

  unbind_address :
      (o : Option Session)
      → lookup id f.by_session_id ≡ o
      → (k : Text) (t : Session) → lookup k (unbind f id o).by_ip ≡ some t
      → (ip_string t.subscriber_ip ≡ k)
        × (is_nil t.subscriber_ip ≡ false)
        × (lookup t.id (unbind f id o).by_session_id ≡ some t)
  unfolding unbind
  unbind_address none same k t e = ground (arith, c.by_address k t)
  unbind_address (some old) same k t e = ground (
    arith,
    lookup-delete k (ip_string old.subscriber_ip) f.by_ip,
    lookup-delete t.id id f.by_session_id,
    text_beq_iff (ip_string old.subscriber_ip) k,
    text_beq_iff id t.id,
    c.by_address k t,
  )

-- RemoveSession leaves consistent tables consistent, for any name.
pub remove_session-IsConsistent :
    (f : Forwarder) (id : Text) → IsConsistent f → IsConsistent (remove_session f id)
unfolding remove_session
remove_session-IsConsistent f id c =
    let old = lookup id f.by_session_id in
    record {
      by_id = λ k t e. (unbind_id f id c old k t e).0;
      by_teid = unbind_teid f id c old refl;
      by_address = unbind_address f id c old refl;
    }
