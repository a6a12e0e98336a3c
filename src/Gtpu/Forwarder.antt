-- ===== src/Gtpu/Forwarder.antt =====
-- internal/gtpu/forwarder.go: the forwarder's tables, and what it does with a packet. Sockets are
-- outside: a packet to send is a result. The sessions are the copies that cloneSession makes.
pub mod Delivery
pub mod Tables
use vectorcore_twag.Base.{
  ℕ, Bool, true, false, ◌&&◌, not, Option, none, some, [], Result, ok, err, ◌>>=◌, ◌==◌,
  if◌then◌else◌, length,
}
use vectorcore_twag.Base.Bytes.{Bytes}
use vectorcore_twag.Base.Map.{Assoc, lookup, insert, delete, nat_eq, text_eq}
use vectorcore_twag.Base.Net.{UdpAddr, Ip, is_nil, ip_string, ip_equal}
use vectorcore_twag.Base.Text.{Text}
use vectorcore_twag.Session.Types.{Session}
use vectorcore_twag.Gtpu.Packet.{encode_packet, decode_packet}
use vectorcore_twag.Gtpu.Packet as Packets
use vectorcore_twag.Gtpu.Control.{
  ControlMessage, decode_control_packet, encode_echo_response, msg_type_echo_request,
  msg_type_error_indication,
}

pub record Forwarder : Type 0 where
  pub remote : UdpAddr
  pub by_session_id : Assoc Text Session
  pub by_local_teid : Assoc ℕ Session
  pub by_ip : Assoc Text Session
  -- Whether an error handler is set.
  pub has_error_handler : Bool

pub data Error : Type 0 where
  session_id_required no_local_teid no_remote_teid no_subscriber_ip unexpected_peer : Error
  unknown_local_teid : ℕ → Error
  bad_packet : Packets.Error → Error

-- newForwarder, behind the checks of the addresses and the socket.
unfoldable pub new_forwarder : UdpAddr → Forwarder
new_forwarder remote = record {
  remote = remote;
  by_session_id = [];
  by_local_teid = [];
  by_ip = [];
  has_error_handler = false;
}

-- The maps without the TEID and the address of an older binding of the session.
unfoldable pub drop_bindings : Forwarder → Session → Forwarder
drop_bindings f old = record f {
  by_local_teid = delete old.local_gtpu_teid f.by_local_teid;
  by_ip =
      if is_nil old.subscriber_ip then f.by_ip else delete (ip_string old.subscriber_ip) f.by_ip;
}

unfoldable pub drop_old : Forwarder → Option Session → Forwarder
unfolding drop_bindings
drop_old f none = f
drop_old f (some old) = drop_bindings f old

unfoldable pub bind : Forwarder → Session → Forwarder
bind f cp = record f {
  by_session_id = insert cp.id cp f.by_session_id;
  by_local_teid = insert cp.local_gtpu_teid cp f.by_local_teid;
  by_ip = insert (ip_string cp.subscriber_ip) cp f.by_ip;
}

-- AddSession
unfoldable pub add_session : Forwarder → Session → Result Error Forwarder
add_session f sess =
    if length sess.id == 0
    then err session_id_required
    else if sess.local_gtpu_teid == 0
    then err no_local_teid
    else if sess.remote_gtpu_teid == 0
    then err no_remote_teid
    else if is_nil sess.subscriber_ip
    then err no_subscriber_ip
    else ok (bind (drop_old f (lookup sess.id f.by_session_id)) sess)

unfoldable pub unbind : Forwarder → Text → Option Session → Forwarder
unfolding drop_bindings
unbind f id none = f
unbind f id (some sess) =
    drop_bindings (record f { by_session_id = delete id f.by_session_id }) sess

-- RemoveSession
unfoldable pub remove_session : Forwarder → Text → Forwarder
remove_session f id = unbind f id (lookup id f.by_session_id)

-- remoteForSession
unfoldable pub remote_for_session : Forwarder → Session → UdpAddr
remote_for_session f sess =
    if is_nil sess.pgw_user_ip
    then f.remote
    else record { ip = sess.pgw_user_ip; port = f.remote.port }

abbrev from_packet {ℓ} : {A : Type ℓ} → Result Packets.Error A → Result Error A
from_packet (ok a) = ok a
from_packet (err e) = err (bad_packet e)

-- SendUplinkPacket, up to the write: the datagram and where it goes.
unfoldable pub send_uplink_packet : Forwarder → Session → Bytes → Result Error (Bytes × UdpAddr)
unfolding remote_for_session
send_uplink_packet f sess payload =
    if sess.remote_gtpu_teid == 0
    then err no_remote_teid
    else (from_packet (encode_packet sess.remote_gtpu_teid payload) >>= λ packet.
        ok (packet, remote_for_session f sess))

pub record DecapsulatedPacket : Type 0 where
  pub session : Session
  pub payload : Bytes
  pub peer : Option UdpAddr

-- `peer != nil && !peer.IP.Equal(f.remote.IP)`
abbrev pub is_unexpected : Forwarder → Option UdpAddr → Bool
is_unexpected f none = false
is_unexpected f (some p) = not (ip_equal p.ip f.remote.ip)

abbrev deliver : Bytes → Option UdpAddr → ℕ → Option Session → Result Error DecapsulatedPacket
deliver payload peer teid none = err (unknown_local_teid teid)
deliver payload peer teid (some sess) =
    ok (record { session = sess; payload = payload; peer = peer })

-- Decapsulate
unfoldable pub decapsulate : Forwarder → Bytes → Option UdpAddr → Result Error DecapsulatedPacket
decapsulate f packet peer = from_packet (decode_packet packet) >>= λ (teid, payload).
    if is_unexpected f peer
    then err unexpected_peer
    else deliver payload peer teid (lookup teid f.by_local_teid)

-- What handleControlPacket does: nothing, where it returns false; otherwise it ignores the packet,
-- sends an answer to the peer, or hands an indication to the handler, if one is set.
pub data Handled : Type 0 where
  not_handled ignored : Handled
  answered : Bytes → UdpAddr → Handled
  reported : ControlMessage → UdpAddr → Handled

unfoldable pub dispatch_control : Forwarder → ControlMessage → UdpAddr → Handled
dispatch_control f msg peer =
    if not (ip_equal peer.ip f.remote.ip)
    then ignored
    else if msg.type == msg_type_echo_request
    then answered (encode_echo_response msg.sequence) peer
    else if msg.type == msg_type_error_indication
    then (if f.has_error_handler then reported msg peer else ignored)
    else not_handled

-- handleControlPacket, for a peer that the socket gave.
unfoldable pub handle_control_packet : Forwarder → Bytes → UdpAddr → Handled
unfolding dispatch_control
handle_control_packet f packet peer = elim (decode_control_packet packet) [
  | ok msg ↦ dispatch_control f msg peer
  | err e ↦ not_handled
]

pub data Received : Type 0 where
  handled : Handled → Received
  delivered : DecapsulatedPacket → Received
  dropped : Error → Received

abbrev received : Result Error DecapsulatedPacket → Received
received (ok p) = delivered p
received (err e) = dropped e

abbrev after_control : Forwarder → Bytes → UdpAddr → Handled → Received
after_control f packet peer not_handled = received (decapsulate f packet (some peer))
after_control f packet peer ignored = handled ignored
after_control f packet peer (answered b p) = handled (answered b p)
after_control f packet peer (reported m p) = handled (reported m p)

-- The body of readLoop for one datagram.
unfoldable pub receive : Forwarder → Bytes → UdpAddr → Received
receive f packet peer = after_control f packet peer (handle_control_packet f packet peer)
