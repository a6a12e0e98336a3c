-- ===== src/Tests/Gtpu.antt =====
-- The GTP-U forwarder on concrete packets.
use vectorcore_twag.Base.{
  take, drop, ◌≢◌, ◌⊎◌, true, false, ◌≤◌, ◌<◌, ◌≡◌, ◌+◌, refl, none, some, [], ◌∷◌, ◌++◌, ok, arith,
  length, All, ◌^◌,
}
use vectorcore_twag.Base.Bytes.{Bytes, IsByte, put32, read16, read32}
use vectorcore_twag.Base.Map.{lookup, insert, text_eq, nat_eq}
use vectorcore_twag.Base.Net.{UdpAddr, is_nil, ip_equal}
use vectorcore_twag.Base.Text.{Text, text}
use vectorcore_twag.Session.Types.{Session}
use vectorcore_twag.Tests.Session.{blank_session}
use vectorcore_twag.Gtpu.Packet.{encode_packet, decode_packet}
use vectorcore_twag.Gtpu.Packet.RoundTrip.{decode_packet_sound}
use vectorcore_twag.Gtpu.Control.{ie_tunnel_endpoint_id_data_i}
use vectorcore_twag.Gtpu.Control.Laws.{recoveries}
use vectorcore_twag.Gtpu.Forwarder.{
  Forwarder, new_forwarder, add_session, remove_session, bind, drop_old, unbind, decapsulate,
  receive, is_unexpected, handled, ignored, dropped, Error, send_uplink_packet, remote_for_session,
}
use vectorcore_twag.Gtpu.Forwarder.Tables.{
  IsConsistent, new_forwarder-IsConsistent, add_session-IsConsistent,
}
use vectorcore_twag.Gtpu.Forwarder.Delivery.{
  decapsulate-add_session, decapsulate_sound, decapsulate-remove_session, receive_unexpected,
  send_uplink_packet_sound,
}

abbrev gateway : UdpAddr
gateway = record { ip = 192 ∷ 0 ∷ 2 ∷ 1 ∷ []; port = 2152 }

abbrev stranger : UdpAddr
stranger = record { ip = 192 ∷ 0 ∷ 2 ∷ 9 ∷ []; port = 2152 }

abbrev empty : Forwarder
empty = new_forwarder gateway

abbrev phone : Session
phone = record blank_session {
  id = text "a";
  subscriber_ip = 10 ∷ 0 ∷ 0 ∷ 2 ∷ [];
  local_gtpu_teid = 7;
  remote_gtpu_teid = 9;
}

-- The phone's later binding, under another tunnel.
abbrev moved : Session
moved = record phone { local_gtpu_teid = 8 }

abbrev one : Forwarder
one = bind (drop_old empty none) phone

abbrev two : Forwarder
two = bind (drop_old one (some phone)) moved

one-IsConsistent : IsConsistent one
unfolding add_session new_forwarder lookup
one-IsConsistent =
    add_session-IsConsistent empty one phone (new_forwarder-IsConsistent gateway) refl

abbrev packet : Bytes
packet = 0x30 ∷ 255 ∷ 0 ∷ 2 ∷ 0 ∷ 0 ∷ 0 ∷ 7 ∷ 0x45 ∷ 1 ∷ []

abbrev payload : Bytes
payload = 0x45 ∷ 1 ∷ []

decapsulate-add_session_example :
    decapsulate one packet (some gateway)
    ≡ ok (record { session = phone; payload = payload; peer = some gateway })
unfolding add_session new_forwarder lookup encode_packet ip_equal bind drop_old
decapsulate-add_session_example =
    decapsulate-add_session empty one phone payload packet (some gateway) refl (omega arith) refl
      refl

decapsulate_sound_example :
    (decode_packet packet ≡ ok (7, payload))
    × (lookup (text "a") one.by_session_id ≡ some phone)
    × (is_unexpected one (some gateway) ≡ false)
unfolding decapsulate decode_packet lookup bind insert ip_equal new_forwarder drop_old
decapsulate_sound_example =
    decapsulate_sound one packet (some gateway)
      (record { session = phone; payload = payload; peer = some gateway }) one-IsConsistent refl

decapsulate-remove_session_example : ◌≢◌ {A = Text} (text "a") (text "b")
unfolding remove_session decapsulate decode_packet lookup bind insert ip_equal new_forwarder unbind
    drop_old
decapsulate-remove_session_example =
    decapsulate-remove_session one (text "b") packet (some gateway)
      (record { session = phone; payload = payload; peer = some gateway }) one-IsConsistent refl

receive_unexpected_example :
    (receive one packet stranger ≡ handled ignored)
    ⊎ ((e : Error) × (receive one packet stranger ≡ dropped e))
unfolding ip_equal bind new_forwarder drop_old
receive_unexpected_example = receive_unexpected one packet stranger refl

send_uplink_packet_sound_example :
    (decode_packet (0x30 ∷ 255 ∷ 0 ∷ 2 ∷ 0 ∷ 0 ∷ 0 ∷ 9 ∷ 0x45 ∷ 1 ∷ []) ≡ ok (9, payload))
    × (gateway.port ≡ one.remote.port)
    × (((is_nil phone.pgw_user_ip ≡ false) × (gateway.ip ≡ phone.pgw_user_ip))
        ⊎ (is_nil phone.pgw_user_ip ≡ true) × (gateway.ip ≡ one.remote.ip))
unfolding send_uplink_packet encode_packet remote_for_session bind new_forwarder drop_old
send_uplink_packet_sound_example =
    send_uplink_packet_sound one phone payload (0x30 ∷ 255 ∷ 0 ∷ 2 ∷ 0 ∷ 0 ∷ 0 ∷ 9 ∷ 0x45 ∷ 1 ∷ [])
      gateway (omega arith) refl

decode_packet_sound_example :
    (packet ≡ take 8 packet ++ (payload ++ drop (length payload) (drop 8 packet)))
    × (length payload ≡ read16 packet 2)
    × (7 ≡ read32 packet 4)
    × (1 ≤ 7)
    × (7 < 2 ^ 32)
    × (length payload + 8 ≤ length packet)
    × (length payload < 2 ^ 16)
    × All IsByte payload
unfolding decode_packet
decode_packet_sound_example = decode_packet_sound packet payload 7 (ground arith) refl

abbrev indication : Bytes
indication = recoveries (3 ∷ []) ++ (ie_tunnel_endpoint_id_data_i ∷ (put32 9 ++ []))
