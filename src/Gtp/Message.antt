-- ===== src/Gtp/Message.antt =====
-- internal/gtp/gtpv2.go: the GTPv2-C message and its encoding.
pub mod RoundTrip
use vectorcore_twag.Base.{
  ℕ, ◌+◌, ◌-◌, Bool, ◌||◌, [], ◌∷◌, ◌++◌, Result, ok, err, ltb, ◌==◌, ◌!=◌, if◌then◌else◌, length,
  drop, bit_and, bit_or,
}
use vectorcore_twag.Base.Bytes.{Bytes, at, put16, put32, put24, read16, read32, read24}

abbrev pub gtpv2_version_flag : ℕ
gtpv2_version_flag = 0x40

abbrev pub gtpv2_teid_flag : ℕ
gtpv2_teid_flag = 0x08

abbrev pub min_gtpv2_sequence : ℕ
min_gtpv2_sequence = 0x000001

abbrev pub max_gtpv2_sequence : ℕ
max_gtpv2_sequence = 0x7fffff

pub record Gtpv2Message : Type 0 where
  pub type : ℕ
  pub teid : ℕ
  pub has_teid : Bool
  pub sequence : ℕ
  pub payload : Bytes

-- The errors of `encode` and `decodeGTPv2Message`, with the numbers that their texts show.
pub data Error : Type 0 where
  sequence_out_of_range message_too_large too_short teid_too_short unsupported_version : ℕ → Error
  length_mismatch : ℕ → ℕ → Error

-- `m.encode()`; the buffer of the source is written out from left to right.
unfoldable pub encode : Gtpv2Message → Result Error Bytes
encode m =
    if ltb m.sequence min_gtpv2_sequence || ltb max_gtpv2_sequence m.sequence
    then err (sequence_out_of_range m.sequence)
    else let flags =
        if m.has_teid then bit_or gtpv2_version_flag gtpv2_teid_flag else gtpv2_version_flag in
      let header_len : ℕ = if m.has_teid then 12 else 8 in
      let total = header_len - 4 + length m.payload in
      if ltb 0xffff total
      then err (message_too_large total)
      else ok (
          (flags ∷ m.type ∷ [])
          ++ (put16 total
              ++ ((if m.has_teid then put32 m.teid else [])
                  ++ (put24 m.sequence ++ (0 ∷ m.payload)))))

-- The message behind the checks of `decodeGTPv2Message`, with or without a TEID.
decode_body : Bytes → Bool → Result Error Gtpv2Message
decode_body b has_teid =
    if has_teid
    then if ltb (length b) 12
      then err (teid_too_short (length b))
      else ok (record {
        type = at b 1;
        teid = read32 b 4;
        has_teid = has_teid;
        sequence = read24 b 8;
        payload = drop 12 b;
      })
    else ok (record {
      type = at b 1;
      teid = 0;
      has_teid = has_teid;
      sequence = read24 b 4;
      payload = drop 8 b;
    })

-- decodeGTPv2Message
unfoldable pub decode : Bytes → Result Error Gtpv2Message
unfolding decode_body
decode b =
    if ltb (length b) 8
    then err (too_short (length b))
    else if bit_and (at b 0) 0xe0 != gtpv2_version_flag
    then err (unsupported_version (at b 0))
    else if read16 b 2 != length b - 4
    then err (length_mismatch (read16 b 2) (length b - 4))
    else decode_body b (bit_and (at b 0) gtpv2_teid_flag != 0)
