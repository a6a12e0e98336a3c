-- ===== src/Gtp/Ie.antt =====
-- internal/gtp/gtpv2_ie.go: the information elements of GTPv2-C, and lists of them.
pub mod Fields
pub mod RoundTrip
pub mod Sound
pub mod Text
use vectorcore_twag.Base.{
  ℕ, zero, suc, ◌+◌, ◌-◌, Bool, ◌&&◌, List, [], ◌∷◌, ◌++◌, Option, none, some, Result, ok, err, ltb,
  ◌==◌, if◌then◌else◌, length, drop, bit_and,
}
use vectorcore_twag.Base.Bytes.{Bytes, at, put16, read16, slice}

pub record Gtpv2Ie : Type 0 where
  pub type : ℕ
  pub instance_no : ℕ
  pub payload : Bytes

-- `out_of_fuel` is no error of the source: the loop of `decode_ies` ended early.
pub data Error : Type 0 where
  header_truncated out_of_fuel : Error
  length_exceeds : ℕ → ℕ → ℕ → Error

-- ie.encode(); `uint16(len(ie.Payload))` keeps the low 16 bits, as `put16` does.
unfoldable pub encode_ie : Gtpv2Ie → Bytes
encode_ie ie =
    (ie.type ∷ []) ++ (put16 (length ie.payload) ++ (bit_and ie.instance_no 0x0f ∷ ie.payload))

-- encodeIEs
unfoldable pub encode_ies : List Gtpv2Ie → Bytes
unfolding encode_ie
encode_ies [] = []
encode_ies (ie ∷ ies) = encode_ie ie ++ encode_ies ies

-- The loop of decodeIEs: what is left of the payload, and the elements that it has appended.
unfoldable pub decode_ies_loop : ℕ → Bytes → List Gtpv2Ie → Result Error (List Gtpv2Ie)
decode_ies_loop fuel [] ies = ok ies
decode_ies_loop zero (x ∷ rest) ies = err out_of_fuel
decode_ies_loop (suc fuel) (x ∷ rest) ies =
    let b = x ∷ rest in
    let l = read16 b 1 in
    let ie : Gtpv2Ie = record {
      type = at b 0;
      instance_no = bit_and (at b 3) 0x0f;
      payload = slice b 4 (4 + l);
    } in
    let more = decode_ies_loop fuel (drop (4 + l) b) (ies ++ (ie ∷ [])) in
    if ltb (length b) 4
    then err header_truncated
    else if ltb (length b) (4 + l)
    then err (length_exceeds (at b 0) l (length b - 4))
    else more

-- decodeIEs. Each round takes four bytes at least.
unfoldable pub decode_ies : Bytes → Result Error (List Gtpv2Ie)
decode_ies payload = decode_ies_loop (length payload) payload []

-- findIE
unfoldable pub find_ie : List Gtpv2Ie → ℕ → ℕ → Option Gtpv2Ie
find_ie [] type instance_no = none
find_ie (ie ∷ ies) type instance_no =
    if ie.type == type && ie.instance_no == instance_no
    then some ie
    else find_ie ies type instance_no
