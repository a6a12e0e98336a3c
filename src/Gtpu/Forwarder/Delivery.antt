-- ===== src/Gtpu/Forwarder/Delivery.antt =====
-- Which packets reach which session, and what the forwarder answers.
use vectorcore_twag.Base.{
  ℕ, ◌^◌, ◌<◌, ◌≡◌, ◌≢◌, ◌⊎◌, subst, Option, some, [], ok, arith, true, false, inl, inr, append-nil,
  Option-cases, Result-cases, Bool-cases,
}
use vectorcore_twag.Base.Bytes.{Bytes}
use vectorcore_twag.Base.Map.{
  lookup, nat_eq, text_eq, lookup-delete, text_beq_iff, lookup-insert_self,
}
use vectorcore_twag.Base.Net.{UdpAddr, is_nil, ip_equal}
use vectorcore_twag.Base.Text.{Text}
use vectorcore_twag.Session.Types.{Session}
use vectorcore_twag.Gtpu.Packet.{encode_packet, decode_packet}
use vectorcore_twag.Gtpu.Packet.RoundTrip.{decode-encode_packet}
use vectorcore_twag.Gtpu.Control.{decode_control_packet, encode_echo_request, encode_echo_response}
use vectorcore_twag.Gtpu.Control.Laws.{echo_round_trip}
use vectorcore_twag.Gtpu.Forwarder.{
  Forwarder, Error, bad_packet, unexpected_peer, DecapsulatedPacket, ignored, answered, handled,
  dropped, is_unexpected, drop_old, bind, add_session, unbind, remove_session, send_uplink_packet,
  decapsulate, handle_control_packet, receive,
}
use vectorcore_twag.Gtpu.Forwarder.Tables.{IsConsistent, added, remove_session-IsConsistent}

bound_teid :
    (f g : Forwarder) (s : Session)
    → add_session f s ≡ ok g
    → lookup s.local_gtpu_teid g.by_local_teid ≡ some s
unfolding bind
bound_teid f g s e =
    let g' = drop_old f (lookup s.id f.by_session_id) in
    rw (added f g s e).0 (lookup-insert_self s.local_gtpu_teid s g'.by_local_teid)

whole_packet :
    (teid : ℕ) (payload packet : Bytes)
    → teid < 2 ^ 32
    → encode_packet teid payload ≡ ok packet
    → decode_packet packet ≡ ok (teid, payload)
whole_packet teid payload packet h e =
    subst (λ (b : Bytes). decode_packet b ≡ ok (teid, payload)) (append-nil packet)
      (decode-encode_packet teid payload packet [] h e)

-- After AddSession took a session with a 32-bit local TEID, a packet that EncodePacket made for
-- that TEID, from a peer that is expected or unknown, is delivered: its payload, with that
-- session.
pub decapsulate-add_session :
    (f g : Forwarder) (s : Session) (payload packet : Bytes) (peer : Option UdpAddr)
    → add_session f s ≡ ok g
    → s.local_gtpu_teid < 2 ^ 32
    → encode_packet s.local_gtpu_teid payload ≡ ok packet
    → is_unexpected g peer ≡ false
    → decapsulate g packet peer ≡ ok (record { session = s; payload = payload; peer = peer })
unfolding decapsulate
decapsulate-add_session f g s payload packet peer e h sent expected =
    let whole = whole_packet s.local_gtpu_teid payload packet h sent in
    let found : lookup s.local_gtpu_teid g.by_local_teid ≡ some s = bound_teid f g s e in
    ground (arith, whole, found)

delivery_steps :
    (f : Forwarder) (packet : Bytes) (peer : Option UdpAddr) (p : DecapsulatedPacket)
    → decapsulate f packet peer ≡ ok p
    → (teid : ℕ) × (decode_packet packet ≡ ok (teid, p.payload))
      × (is_unexpected f peer ≡ false)
      × (lookup teid f.by_local_teid ≡ some p.session)
unfolding decapsulate
delivery_steps f packet peer p e = elim (Result-cases (decode_packet packet)) [
  | inl ((teid, payload), q) ↦ elim (Option-cases (lookup teid f.by_local_teid)) [
    | inl absent ↦ absurd (ground arith)
    | inr (s, found) ↦ (teid, ground arith, ground arith, ground arith)
  ]
  | inr (x, q) ↦ absurd (ground arith)
]

-- On consistent tables, a packet is delivered only to the session of its own TEID, which is the
-- one bound under its name, and only from a peer that is expected or unknown.
pub decapsulate_sound :
    (f : Forwarder) (packet : Bytes) (peer : Option UdpAddr) (p : DecapsulatedPacket)
    → IsConsistent f
    → decapsulate f packet peer ≡ ok p
    → (decode_packet packet ≡ ok (p.session.local_gtpu_teid, p.payload))
      × (lookup p.session.id f.by_session_id ≡ some p.session)
      × (is_unexpected f peer ≡ false)
decapsulate_sound f packet peer p c e =
    let (teid, decoded, expected, found) = delivery_steps f packet peer p e in
    let (own, bound) = c.by_teid teid p.session found in (rw own decoded, bound, expected)

removed_unbound :
    (f : Forwarder) (id : Text) (s : Session)
    → lookup s.id (remove_session f id).by_session_id ≡ some s
    → s.id ≢ id
unfolding remove_session unbind
removed_unbound f id s e same = elim (Option-cases (lookup id f.by_session_id)) [
  | inl absent ↦ ground arith
  | inr (old, found) ↦ ground (arith, lookup-delete s.id id f.by_session_id, text_beq_iff id s.id)
]

-- On consistent tables, after RemoveSession no packet is delivered to a session of that name.
pub decapsulate-remove_session :
    (f : Forwarder) (id : Text) (packet : Bytes) (peer : Option UdpAddr) (p : DecapsulatedPacket)
    → IsConsistent f
    → decapsulate (remove_session f id) packet peer ≡ ok p
    → p.session.id ≢ id
decapsulate-remove_session f id packet peer p c e =
    let sound =
      decapsulate_sound (remove_session f id) packet peer p (remove_session-IsConsistent f id c)
        e in
    removed_unbound f id p.session sound.1

-- A datagram from an address other than the gateway's is ignored or dropped: never delivered,
-- answered or reported.
pub receive_unexpected :
    (f : Forwarder) (packet : Bytes) (peer : UdpAddr)
    → ip_equal peer.ip f.remote.ip ≡ false
    → (receive f packet peer ≡ handled ignored)
      ⊎ ((e : Error) × (receive f packet peer ≡ dropped e))
unfolding receive handle_control_packet decapsulate
receive_unexpected f packet peer h = elim (Result-cases (decode_control_packet packet)) [
  | inl (m, control) ↦ inl (ground arith)
  | inr (x, no_control) ↦ elim (Result-cases (decode_packet packet)) [
    | inl ((teid, payload), user) ↦ inr (unexpected_peer, ground arith)
    | inr (x', bad) ↦ inr (bad_packet x', ground arith)
  ]
]

-- An echo request with a 16-bit sequence number from the gateway's address is answered to its
-- sender with the same number.
pub receive_echo :
    (f : Forwarder) (sequence : ℕ) (peer : UdpAddr)
    → sequence < 2 ^ 16
    → ip_equal peer.ip f.remote.ip ≡ true
    → receive f (encode_echo_request sequence) peer
      ≡ handled (answered (encode_echo_response sequence) peer)
unfolding receive handle_control_packet
receive_echo f sequence peer h e = ground (arith, (echo_round_trip sequence h).0)

-- A packet that is sent for a session with a 32-bit remote TEID decodes to that TEID and the
-- payload, and goes to the forwarder's port, at the session's own gateway address where it has one
-- and at the forwarder's exactly where it has none.
pub send_uplink_packet_sound :
    (f : Forwarder) (s : Session) (payload packet : Bytes) (to : UdpAddr)
    → s.remote_gtpu_teid < 2 ^ 32
    → send_uplink_packet f s payload ≡ ok (packet, to)
    → (decode_packet packet ≡ ok (s.remote_gtpu_teid, payload))
      × (to.port ≡ f.remote.port)
      × (((is_nil s.pgw_user_ip ≡ false) × (to.ip ≡ s.pgw_user_ip))
          ⊎ (is_nil s.pgw_user_ip ≡ true) × (to.ip ≡ f.remote.ip))
unfolding send_uplink_packet
send_uplink_packet_sound f s payload packet to h e =
    elim (Result-cases (encode_packet s.remote_gtpu_teid payload)) [
      | inl (b, sent) ↦ elim (Bool-cases (is_nil s.pgw_user_ip)) [
        | inl none_own ↦ (
          ground (arith, whole_packet s.remote_gtpu_teid payload b h sent),
          ground arith,
          inr (ground arith),
        )
        | inr own ↦ (
          ground (arith, whole_packet s.remote_gtpu_teid payload b h sent),
          ground arith,
          inl (own, ground arith),
        )
      ]
      | inr (x, bad) ↦ absurd (ground arith)
    ]
