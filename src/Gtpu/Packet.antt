-- ===== src/Gtpu/Packet.antt =====
-- internal/gtpu/forwarder.go: user packets in a GTP-U tunnel.
pub mod RoundTrip
use vectorcore_twag.Base.{
  ℕ, ◌+◌, ◌-◌, ◌/◌, [], ◌∷◌, ◌++◌, Result, ok, err, ltb, ◌==◌, ◌!=◌, if◌then◌else◌, length,
}
use vectorcore_twag.Base.Bytes.{Bytes, at, put16, put32, read16, read32, slice}

abbrev pub msg_type_gtpu : ℕ
msg_type_gtpu = 255

abbrev pub header_len_gtpu : ℕ
header_len_gtpu = 8

abbrev pub max_udp_packet : ℕ
max_udp_packet = 65535

pub data Error : Type 0 where
  teid_required truncated : Error
  payload_too_large unsupported_version unsupported_type : ℕ → Error
  length_exceeds : ℕ → ℕ → Error

-- EncodePacket
unfoldable pub encode_packet : ℕ → Bytes → Result Error Bytes
encode_packet teid payload =
    if teid == 0
    then err teid_required
    else if ltb (max_udp_packet - header_len_gtpu) (length payload)
    then err (payload_too_large (length payload))
    else ok ((0x30 ∷ msg_type_gtpu ∷ []) ++ (put16 (length payload) ++ (put32 teid ++ payload)))

-- DecodePacket: the TEID and the payload.
unfoldable pub decode_packet : Bytes → Result Error (ℕ × Bytes)
decode_packet packet =
    let len = read16 packet 2 in
    let teid = read32 packet 4 in
    if ltb (length packet) header_len_gtpu
    then err truncated
    else if at packet 0 / 32 != 1
    then err (unsupported_version (at packet 0 / 32))
    else if at packet 1 != msg_type_gtpu
    then err (unsupported_type (at packet 1))
    else if ltb (length packet - header_len_gtpu) len
    then err (length_exceeds len (length packet - header_len_gtpu))
    else if teid == 0
    then err teid_required
    else ok (teid, slice packet 8 (8 + len))
