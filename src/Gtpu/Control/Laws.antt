-- ===== src/Gtpu/Control/Laws.antt =====
-- Echo messages and error indications are read as they are meant.
use vectorcore_twag.Base.{
  ℕ, ◌+◌, ◌-◌, ◌*◌, ◌/◌, ◌%◌, ◌^◌, ◌<◌, ◌≡◌, ◌≢◌, refl, ap, ◌∙◌, List, [], ◌∷◌, ◌++◌, ok, err,
  arith, length, take, take_all,
}
use vectorcore_twag.Base.Bytes.{Bytes, put16, put32, read32_put32}
use vectorcore_twag.Gtpu.Control.{
  ControlMessage, offset_exceeds_length, parse_offending_teid, encode_echo_response,
  encode_echo_request, decode_control_packet, msg_type_echo_request, msg_type_echo_response,
  ie_recovery, ie_tunnel_endpoint_id_data_i, msg_type_error_indication,
}

-- An answer carries the sequence number of the request that it answers, and neither an answer nor a
-- request names a tunnel.
pub echo_round_trip :
    (sequence : ℕ)
    → sequence < 2 ^ 16
    → (decode_control_packet (encode_echo_request sequence)
        ≡ ok (record {
          type = msg_type_echo_request;
          teid = 0;
          sequence = sequence;
          payload = [];
          offending_teid = 0;
        }))
      × (decode_control_packet (encode_echo_response sequence)
          ≡ ok (record {
            type = msg_type_echo_response;
            teid = 0;
            sequence = sequence;
            payload = ie_recovery ∷ 1 ∷ 0 ∷ [];
            offending_teid = 0;
          }))
unfolding decode_control_packet encode_echo_request encode_echo_response parse_offending_teid
echo_round_trip sequence h = ground arith

-- Recovery elements, each with its restart counter.
unfoldable pub recoveries : List ℕ → Bytes
recoveries [] = []
recoveries (r ∷ rs) = ie_recovery ∷ r ∷ recoveries rs

-- The offending tunnel is found behind any recovery elements, whatever their counters are (16 too).
pub parse_offending_teid-recoveries :
    (rs : List ℕ) (teid : ℕ) (more : Bytes)
    → teid < 2 ^ 32
    → parse_offending_teid (recoveries rs ++ (ie_tunnel_endpoint_id_data_i ∷ (put32 teid ++ more)))
      ≡ teid
unfolding parse_offending_teid recoveries
parse_offending_teid-recoveries [] teid more h = ground (arith, read32_put32 teid)
parse_offending_teid-recoveries (r ∷ rs) teid more h =
    parse_offending_teid-recoveries rs teid more h

abbrev indication : Bytes → ℕ → ℕ → ControlMessage
indication p sequence teid = record {
  type = msg_type_error_indication;
  teid = 0;
  sequence = sequence;
  payload = p;
  offending_teid = teid;
}

whole_slice : (n i : ℕ) (p : Bytes) → n ≡ i + length p → take (n - i) p ≡ p
whole_slice n i p e = take_all (n - i) p (omega arith)

decode_without_sequence :
    (p : Bytes)
    → length p < 65000
    → decode_control_packet
        ((0x30 ∷ msg_type_error_indication ∷ []) ++ (put16 (length p) ++ (put32 0 ++ p)))
      ≡ ok (indication p 0 (parse_offending_teid p))
unfolding decode_control_packet
decode_without_sequence p h =
    let n = length p in
    let len : n / 256 % 256 * 256 + n % 256 ≡ n = omega arith in
    rw (len, whole_slice (8 + n) 8 p refl) (ground arith)

decode_with_sequence :
    (p : Bytes) (sequence : ℕ)
    → sequence < 2 ^ 16
    → length p < 65000
    → decode_control_packet (
        (0x32 ∷ msg_type_error_indication ∷ [])
        ++ (put16 (length p + 4) ++ (put32 0 ++ (put16 sequence ++ (0 ∷ 0 ∷ p)))))
      ≡ ok (indication p sequence (parse_offending_teid p))
unfolding decode_control_packet
decode_with_sequence p sequence k h =
    let n = length p in
    let len : (n + 4) / 256 % 256 * 256 + (n + 4) % 256 ≡ n + 4 = omega arith in
    let seq : sequence / 256 % 256 * 256 + sequence % 256 ≡ sequence = omega arith in
    rw (len, seq, whole_slice (8 + (n + 4)) 12 p (omega arith)) (ground arith)

-- An error indication for a 32-bit TEID, behind any number of recovery elements and with a
-- payload of fewer than 65,000 bytes, is read with that TEID, both without and with a sequence
-- number.
pub error_indication_read :
    (rs : List ℕ) (teid : ℕ) (more p : Bytes) (sequence : ℕ)
    → teid < 2 ^ 32
    → sequence < 2 ^ 16
    → p ≡ recoveries rs ++ (ie_tunnel_endpoint_id_data_i ∷ (put32 teid ++ more))
    → length p < 65000
    → (decode_control_packet
          ((0x30 ∷ msg_type_error_indication ∷ []) ++ (put16 (length p) ++ (put32 0 ++ p)))
        ≡ ok (record {
          type = msg_type_error_indication;
          teid = 0;
          sequence = 0;
          payload = p;
          offending_teid = teid;
        }))
      × (decode_control_packet (
            (0x32 ∷ msg_type_error_indication ∷ [])
            ++ (put16 (length p + 4) ++ (put32 0 ++ (put16 sequence ++ (0 ∷ 0 ∷ p)))))
          ≡ ok (record {
            type = msg_type_error_indication;
            teid = 0;
            sequence = sequence;
            payload = p;
            offending_teid = teid;
          }))
error_indication_read rs teid more p sequence h k e l =
    let found : parse_offending_teid p ≡ teid =
      ap parse_offending_teid e ∙ parse_offending_teid-recoveries rs teid more h in
    (
      decode_without_sequence p l ∙ ap (λ (t : ℕ). ok (indication p 0 t)) found,
      decode_with_sequence p sequence k l ∙ ap (λ (t : ℕ). ok (indication p sequence t)) found,
    )

-- The last check of DecodeControlPacket never fails: the checks before it imply it.
pub offset_never_exceeds :
    (packet : Bytes) → decode_control_packet packet ≢ err offset_exceeds_length
unfolding decode_control_packet
offset_never_exceeds packet e = ground arith
