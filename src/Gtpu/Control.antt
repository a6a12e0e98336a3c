-- ===== src/Gtpu/Control.antt =====
-- internal/gtpu/forwarder.go: echo messages and error indications.
pub mod Laws
use vectorcore_twag.Base.{
  ℕ, ◌+◌, ◌-◌, ◌/◌, Bool, ◌&&◌, ◌||◌, [], ◌∷◌, ◌++◌, Result, ok, err, ltb, ◌==◌, ◌!=◌,
  if◌then◌else◌, length, bit_and,
}
use vectorcore_twag.Base.Bytes.{Bytes, at, put16, put32, read16, read32, slice}

abbrev pub msg_type_echo_request : ℕ
msg_type_echo_request = 1

abbrev pub msg_type_echo_response : ℕ
msg_type_echo_response = 2

abbrev pub msg_type_error_indication : ℕ
msg_type_error_indication = 26

abbrev pub ie_recovery : ℕ
ie_recovery = 14

abbrev pub ie_tunnel_endpoint_id_data_i : ℕ
ie_tunnel_endpoint_id_data_i = 16

pub record ControlMessage : Type 0 where
  pub type : ℕ
  pub teid : ℕ
  pub sequence : ℕ
  pub payload : Bytes
  pub offending_teid : ℕ

pub data Error : Type 0 where
  truncated sequence_truncated offset_exceeds_length : Error
  unsupported_version not_control : ℕ → Error
  length_exceeds : ℕ → ℕ → Error

-- parseOffendingTEID, on what `i` has not passed. The source's test of the default branch repeats
-- the condition of the loop.
unfoldable pub parse_offending_teid : Bytes → ℕ
parse_offending_teid [] = 0
parse_offending_teid (typ ∷ []) = 0
parse_offending_teid (typ ∷ x ∷ rest) =
    let behind_recovery = parse_offending_teid rest in
    let next_byte = parse_offending_teid (x ∷ rest) in
    if typ == ie_tunnel_endpoint_id_data_i
    then (if ltb (length (x ∷ rest)) 4 then 0 else read32 (x ∷ rest) 0)
    else if typ == ie_recovery
    then behind_recovery
    else next_byte

-- EncodeEchoResponse
unfoldable pub encode_echo_response : ℕ → Bytes
encode_echo_response sequence =
    (0x32 ∷ msg_type_echo_response ∷ [])
    ++ (put16 7 ++ (put32 0 ++ (put16 sequence ++ (0 ∷ 0 ∷ ie_recovery ∷ 1 ∷ 0 ∷ []))))

-- EncodeEchoRequest
unfoldable pub encode_echo_request : ℕ → Bytes
encode_echo_request sequence =
    (0x32 ∷ msg_type_echo_request ∷ [])
    ++ (put16 4 ++ (put32 0 ++ (put16 sequence ++ (0 ∷ 0 ∷ []))))

-- The message behind the checks, whose payload is `packet[offset:end]`.
abbrev control_message : Bytes → ℕ → ℕ → ℕ → ControlMessage
control_message packet sequence offset end =
    let payload = slice packet offset end in
    record {
      type = at packet 1;
      teid = read32 packet 4;
      sequence = sequence;
      payload = payload;
      offending_teid = parse_offending_teid payload;
    }

-- DecodeControlPacket
unfoldable pub decode_control_packet : Bytes → Result Error ControlMessage
decode_control_packet packet =
    let len = read16 packet 2 in
    let type = at packet 1 in
    if ltb (length packet) 8
    then err truncated
    else if at packet 0 / 32 != 1
    then err (unsupported_version (at packet 0 / 32))
    else if type != msg_type_echo_request
        && type != msg_type_echo_response
        && type != msg_type_error_indication
    then err (not_control type)
    else if ltb (length packet - 8) len
    then err (length_exceeds len (length packet - 8))
    else if bit_and (at packet 0) 0x02 != 0
    then (if ltb (length packet) 12 || ltb len 4
        then err sequence_truncated
        else if ltb (8 + len) 12
        then err offset_exceeds_length
        else ok (control_message packet (read16 packet 8) 12 (8 + len)))
    else ok (control_message packet 0 8 (8 + len))
