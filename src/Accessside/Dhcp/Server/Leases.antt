-- ===== src/Accessside/Dhcp/Server/Leases.antt =====
-- What HandleFrame does to the leases, and how often it starts a recovery.
use vectorcore_twag.Base.{
  ℕ, ◌+◌, ◌*◌, ◌<◌, ◌≤◌, ◌≡◌, ◌⊎◌, ◌||◌, inl, inr, refl, Bool, true, false, not, List, [], ◌∷◌,
  Option, none, some, All, arith, ◌==◌, if◌then◌else◌, Bool-cases, Option-cases, if-both, length,
  ◌++◌, ==_iff, ◌&&◌,
}
use vectorcore_twag.Base.Bytes.{Bytes}
use vectorcore_twag.Base.Map.{lookup, insert, text_eq, text_beq, lookup-insert, lookup-insert_self}
use vectorcore_twag.Base.Net.{Ip, is_nil, ip_equal}
use vectorcore_twag.Base.Text.{Text, text}
use vectorcore_twag.Session.Types.{Session, Time, active}
use vectorcore_twag.Session.States.{same, same→eq}
use vectorcore_twag.Session.Mac.{mac_string}
use vectorcore_twag.Session.Manager.{Manager}
use vectorcore_twag.Session.Operations.{lookup_by_mac_addr}
use vectorcore_twag.Session.Recovery.{Recovery, lookup_recovery_by_mac_addr, RecoveryTombstone}
use vectorcore_twag.Accessside.Frames.{first_ip}
use vectorcore_twag.Accessside.Dhcp.{
  DhcpConfig, DhcpPacket, Lease, dhcp_discover, dhcp_request, parse_dhcp_frame,
}
use vectorcore_twag.Accessside.Dhcp.Server.{
  DhcpServer, Effect, started, Outcome, reattach, recover_from_auth_cache, replied, stale_discover,
  stale_request, answer_packet, Subscriber, subscriber_of, attempt, authorized_session,
  grant_request, handle_frame, second, trigger_recovery_attach, trigger_auth_cache_recovery,
}
use vectorcore_twag.Accessside.Dhcp.Server.Contents.{parse_dhcp_frame_asks}

-- An attempt of the list: its key, its pause and its time.
abbrev pub Attempt : Type 0
Attempt = Text × ℕ × Time

-- The server after the attempts of a list, the first one first.
unfoldable pub attempts : List Attempt → DhcpServer → DhcpServer
attempts [] s = s
attempts ((key, pause, now) ∷ rest) s = attempts rest ((attempt s key pause now).1)

-- The key has a time that is not before `t`.
abbrev HasTime : Text → Time → DhcpServer → Type 0
HasTime key t s = (last : Time) × (lookup key s.recovery_attempts ≡ some last) × (t ≤ last)

noted-HasTime :
    (s : DhcpServer) (key other : Text) (t now : ℕ)
    → t ≤ now
    → HasTime key t s
    → HasTime key t (record s { recovery_attempts = insert other now s.recovery_attempts })
noted-HasTime s key other t now h (last, e, le) =
    let written = lookup-insert key other now s.recovery_attempts in
    elim (Bool-cases (text_beq other key)) [
      | inl same ↦ (now, ground (arith, written), h)
      | inr differs ↦ (last, ground (arith, written), le)
    ]

attempt-HasTime :
    (s : DhcpServer) (key other : Text) (t pause now : ℕ)
    → t ≤ now
    → HasTime key t s
    → HasTime key t ((attempt s other pause now).1)
unfolding attempt
attempt-HasTime s key other t pause now h has =
    if-both {A = Bool × DhcpServer} (λ x. HasTime key t (x.1)) _ (false, s) _ has
      (noted-HasTime s key other t now h has)

attempts-HasTime :
    (list : List Attempt) (s : DhcpServer) (key : Text) (t : Time)
    → All (λ a. t ≤ a.2) list
    → HasTime key t s
    → HasTime key t (attempts list s)
unfolding attempts
attempts-HasTime [] s key t h has = has
attempts-HasTime ((other, pause, now) ∷ rest) s key t h has =
    attempts-HasTime rest ((attempt s other pause now).1) key t h.1
      (attempt-HasTime s key other t pause now h.0 has)

-- An attempt that may start is noted.
attempt_noted :
    (s : DhcpServer) (key : Text) (pause now : ℕ)
    → (attempt s key pause now).0 ≡ true
    → HasTime key now ((attempt s key pause now).1)
unfolding attempt
attempt_noted s key pause now h =
    (now, ground (arith, lookup-insert_self key now s.recovery_attempts), omega arith)

-- Once an attempt for a key has started, at a time after 0, and whatever attempts follow it, none of
-- them before it, a later one for the same key starts only when its pause has passed since.
pub attempt_paced :
    (s : DhcpServer) (key : Text) (pause earlier now : ℕ) (list : List Attempt) (wait : ℕ)
    → (attempt s key pause earlier).0 ≡ true
    → 0 < earlier
    → All (λ a. earlier ≤ a.2) list
    → earlier ≤ now
    → (attempt (attempts list ((attempt s key pause earlier).1)) key wait now).0 ≡ true
    → earlier + wait ≤ now
unfolding attempt
attempt_paced s key pause earlier now list wait first positive later after again =
    let (last, e, le) =
      attempts-HasTime list ((attempt s key pause earlier).1) key earlier later
        (attempt_noted s key pause earlier first) in
    ground (arith, e)

-- The lease of an Ack.
abbrev pub lease_of : DhcpConfig → Time → Session → Lease
lease_of cfg now sess = record {
  session_id = sess.id;
  imsi = sess.imsi;
  subscriber_ip = sess.subscriber_ip;
  expires_at = now + cfg.lease_time_seconds * second;
}

-- A frame that asks for a lease: a Request of a client with an active session that has an address,
-- for that address.
pub record MayLease (sessions : Manager) (p : DhcpPacket) (sess : Session) : Type 0 where
  pub request : p.message_type ≡ dhcp_request
  pub found : lookup_by_mac_addr sessions p.client_mac ≡ some sess
  pub in_use : sess.state ≡ active
  pub addressed : is_nil sess.subscriber_ip ≡ false
  pub asked : ip_equal (first_ip p.requested_ip p.client_ip) sess.subscriber_ip ≡ true

-- A client is a subscriber exactly through an active session with an address.
pub subscriber_of_cases :
    (found : Option Session)
    → (subscriber_of found ≡ none)
      ⊎ ((sess : Session) × (found ≡ some sess)
          × (sess.state ≡ active)
          × (is_nil sess.subscriber_ip ≡ false)
          × (subscriber_of found
              ≡ some record {
                session_id = sess.id;
                imsi = sess.imsi;
                subscriber_ip = sess.subscriber_ip;
              }))
subscriber_of_cases none = inl refl
subscriber_of_cases (some sess) =
    elim (Bool-cases (not (same sess.state active) || is_nil sess.subscriber_ip)) [
      | inl unfit ↦ inl (rw unfit refl)
      | inr fit ↦
          inr (sess, refl, same→eq sess.state active (ground arith), ground arith, rw fit refl)
    ]

started_leases :
    (e : Effect) (s : DhcpServer) (key : Text) (pause now : ℕ)
    → (started e (attempt s key pause now)).0.leases ≡ s.leases
unfolding attempt
started_leases e s key pause now = ground arith

abbrev KeepsLeases : DhcpServer → DhcpServer × List Effect → Type 0
KeepsLeases s x = x.0.leases ≡ s.leases

trigger_recovery_attach_leases :
    (s : DhcpServer) (t : RecoveryTombstone) (now : Time)
    → KeepsLeases s (trigger_recovery_attach s t now)
unfolding trigger_recovery_attach
trigger_recovery_attach_leases s t now =
    let key =
      if length t.old_session_id == 0 && not (is_nil t.mac)
      then mac_string t.mac
      else t.old_session_id in
    let go = started (reattach t) (attempt s key (5 * second) now) in
    if-both (KeepsLeases s) (not s.has_recovery_handler) (s, [])
      (if length key == 0 then (s, []) else go) refl
      (if-both (KeepsLeases s) (length key == 0) (s, []) go refl
        (started_leases (reattach t) s key (5 * second) now))

trigger_auth_cache_recovery_leases :
    (cfg : DhcpConfig) (s : DhcpServer) (mac : Bytes) (now : Time)
    → KeepsLeases s (trigger_auth_cache_recovery cfg s mac now)
unfolding trigger_auth_cache_recovery
trigger_auth_cache_recovery_leases cfg s mac now =
    let key = text "auth-cache|" ++ mac_string mac in
    let e = recover_from_auth_cache (mac_string mac) in
    if-both (KeepsLeases s)
      (not cfg.recover_from_auth_cache || (not s.has_auth_cache_handler || is_nil mac)) (s, [])
      (started e (attempt s key (2 * second) now)) refl (started_leases e s key (2 * second) now)

module _ (parse_ip : Text → Ip) (cfg : DhcpConfig) (s : DhcpServer) (p : DhcpPacket)
    (now : Time) where
  abbrev Keeps : Outcome → Type 0
  Keeps o = o.server.leases ≡ s.leases

  stale_discover_leases :
      (found : Option RecoveryTombstone × Recovery) → Keeps (stale_discover cfg s p now found)
  stale_discover_leases (some t, r) = trigger_recovery_attach_leases s t now
  stale_discover_leases (none, r) = trigger_auth_cache_recovery_leases cfg s p.client_mac now

  stale_request_leases :
      (found : Option RecoveryTombstone × Recovery)
      → Keeps (stale_request parse_ip cfg s p now found)
  stale_request_leases (some t, r) = if-both Keeps _ (replied r s _) (replied r s []) refl refl
  stale_request_leases (none, r) = trigger_auth_cache_recovery_leases cfg s p.client_mac now

  -- Without a session there is no lease.
  stranger_leases : (r : Recovery) → Keeps (answer_packet parse_ip cfg s r now p none)
  stranger_leases r =
      let found = lookup_recovery_by_mac_addr r p.client_mac now in
      let discover = stale_discover cfg s p now found in
      let request = stale_request parse_ip cfg s p now found in
      if-both Keeps (p.message_type == dhcp_discover) discover
        (if p.message_type == dhcp_request then request else replied r s [])
        (stale_discover_leases found)
        (if-both Keeps (p.message_type == dhcp_request) request (replied r s [])
          (stale_request_leases found) refl)

  -- With one, there is a lease exactly for a Request that the session's address answers.
  subscriber_leases :
      (r : Recovery) (sub : Subscriber)
      → let requested = first_ip p.requested_ip p.client_ip in
        let after = (answer_packet parse_ip cfg s r now p (some sub)).server.leases in
        (after ≡ s.leases)
        ⊎ ((p.message_type ≡ dhcp_request)
            × ((is_nil requested ≡ true) ⊎ (ip_equal requested sub.subscriber_ip ≡ true))
            × (after
                ≡ insert
                    (mac_string p.client_mac)
                    record {
                      session_id = sub.session_id;
                      imsi = sub.imsi;
                      subscriber_ip = sub.subscriber_ip;
                      expires_at = now + cfg.lease_time_seconds * second;
                    }
                    s.leases))
  unfolding grant_request
  subscriber_leases r sub =
      let requested = first_ip p.requested_ip p.client_ip in
      elim (Bool-cases (p.message_type == dhcp_discover)) [
        | inl discover ↦ inl (rw discover refl)
        | inr other ↦ elim (Bool-cases (p.message_type == dhcp_request)) [
          | inr neither ↦ inl (rw (other, neither) refl)
          | inl request ↦
              elim (Bool-cases
                (not (is_nil requested) && not (ip_equal requested sub.subscriber_ip))) [
                  | inl wrong ↦ inl (rw (other, request, wrong) refl)
                  | inr right ↦
                      inr ((==_iff _ _).0 request, ground arith, rw (other, request, right) refl)
                ]
        ]
      ]

pub authorized_session_required :
    (cfg : DhcpConfig) (sessions : Manager) (mac : Bytes)
    → cfg.require_authorized_session ≡ true
    → authorized_session cfg sessions mac ≡ subscriber_of (lookup_by_mac_addr sessions mac)
unfolding authorized_session
authorized_session_required cfg sessions mac h = ground arith

-- Where a session is required, HandleFrame either leaves the leases as they were, or it has got a
-- Request of a client with an active session that has an address, for that address, and the client's
-- lease is that session's, to expire after the configured time, while the others stay.
pub handle_frame-leases :
    (parse_ip : Text → Ip) (cfg : DhcpConfig) (s : DhcpServer) (sessions : Manager)
    (recovery : Recovery) (now : Time) (frame : Bytes)
    → cfg.require_authorized_session ≡ true
    → let after = (handle_frame parse_ip cfg s sessions recovery now frame).server.leases in
      (after ≡ s.leases)
      ⊎ ((p : DhcpPacket) × (sess : Session) × (parse_dhcp_frame frame ≡ some p)
          × MayLease sessions p sess
          × (after ≡ insert (mac_string p.client_mac) (lease_of cfg now sess) s.leases))
unfolding handle_frame
handle_frame-leases parse_ip cfg s sessions recovery now frame required =
    elim (Option-cases (parse_dhcp_frame frame)) [
      | inl other ↦ inl (ground arith)
      | inr (p, parsed) ↦
          let needed = authorized_session_required cfg sessions p.client_mac required in
          elim (subscriber_of_cases (lookup_by_mac_addr sessions p.client_mac)) [
            | inl absent ↦
                inl (rw (parsed, needed, absent) (stranger_leases parse_ip cfg s p now recovery))
            | inr (sess, found, in_use, addressed, present) ↦
                elim (subscriber_leases parse_ip cfg s p now recovery _) [
                  | inl same_leases ↦ inl (rw (parsed, needed, present) same_leases)
                  | inr (request, asked, leased) ↦ inr (
                    p,
                    sess,
                    parsed,
                    record {
                      request = request;
                      found = found;
                      in_use = in_use;
                      addressed = addressed;
                      asked = ground (arith, parse_dhcp_frame_asks frame p parsed);
                    },
                    rw (parsed, needed, present) leased,
                  )
                ]
          ]
    ]
