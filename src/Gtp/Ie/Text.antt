-- ===== src/Gtp/Ie/Text.antt =====
-- internal/gtp/gtpv2_ie.go: the elements that carry text: digits two to a byte, access point
-- names, networks and charging characteristics.
pub mod Digits
use vectorcore_twag.Base.{
  ℕ, ◌+◌, ◌-◌, ◌*◌, ◌%◌, Bool, ◌&&◌, ◌||◌, List, [], ◌∷◌, ◌++◌, Option, none, some, leb, ◌==◌, ◌!=◌,
  if◌then◌else◌, length, drop, bit_or,
}
use vectorcore_twag.Base.Bytes.{Bytes, at}
use vectorcore_twag.Base.Text.{Text, text, is_digit, has_prefix, split}
use vectorcore_twag.Gtp.Ie.{Gtpv2Ie}

abbrev pub ie_imsi : ℕ
ie_imsi = 1

abbrev pub ie_apn : ℕ
ie_apn = 71

abbrev pub ie_serving_network : ℕ
ie_serving_network = 83

-- The first loop of encodeTBCD: other runes than digits are left out.
unfoldable pub digits_of : Text → List ℕ
digits_of [] = []
digits_of (r ∷ value) = if is_digit r then (r - b'0') ∷ digits_of value else digits_of value

-- The second loop: two digits to a byte, the first one low; 0xf fills up an odd number.
unfoldable pub pack_digits : List ℕ → Bytes
pack_digits [] = []
pack_digits (lo ∷ []) = bit_or lo (0x0f * 16 % 256) ∷ []
pack_digits (lo ∷ hi ∷ digits) = bit_or lo (hi * 16 % 256) ∷ pack_digits digits

-- encodeTBCD
unfoldable pub encode_tbcd : Text → Bytes
unfolding digits_of pack_digits
encode_tbcd value = pack_digits (digits_of value)

-- bcdIE
unfoldable pub bcd_ie : ℕ → Text → Gtpv2Ie
unfolding encode_tbcd
bcd_ie type value = record { type = type; instance_no = 0; payload = encode_tbcd value }

-- The loop of apnIE; `byte(len(label))` keeps the low eight bits.
unfoldable pub apn_payload : List Text → Bytes
apn_payload [] = []
apn_payload (label ∷ labels) =
    if length label == 0
    then apn_payload labels
    else (length label % 256) ∷ (label ++ apn_payload labels)

-- apnIE
unfoldable pub apn_ie : Text → Gtpv2Ie
unfolding apn_payload
apn_ie apn = record { type = ie_apn; instance_no = 0; payload = apn_payload (split b'.' apn) }

-- The loop of plmnFromRealm: the last part of each kind counts.
unfoldable pub plmn_loop : List Text → Text → Text → Text × Text
plmn_loop [] mcc mnc = (mcc, mnc)
plmn_loop (part ∷ parts) mcc mnc =
    plmn_loop parts (if has_prefix part (text "mcc") && length part == 6 then drop 3 part else mcc)
      (if has_prefix part (text "mnc") && (length part == 5 || length part == 6)
        then drop 3 part
        else mnc)

-- plmnFromRealm
unfoldable pub plmn_from_realm : Text → Option (Text × Text)
unfolding plmn_loop
plmn_from_realm realm =
    let (mcc, mnc) = plmn_loop (split b'.' realm) [] [] in
    if length mcc != 3 || (length mnc != 2 && length mnc != 3) then none else some (mcc, mnc)

-- digitNibble
unfoldable pub digit_nibble : ℕ → ℕ
digit_nibble b = if is_digit b then b - b'0' else 0x0f

-- encodePLMN
unfoldable pub encode_plmn : Text → Text → Bytes
unfolding digit_nibble
encode_plmn mcc mnc =
    let mnc3 = if length mnc == 3 then digit_nibble (at mnc 2) else 0x0f in
    bit_or (digit_nibble (at mcc 0)) (digit_nibble (at mcc 1) * 16 % 256)
    ∷ bit_or (digit_nibble (at mcc 2)) (mnc3 * 16 % 256)
    ∷ bit_or (digit_nibble (at mnc 0)) (digit_nibble (at mnc 1) * 16 % 256)
    ∷ []

-- servingNetworkIE
unfoldable pub serving_network_ie : Text → Option Gtpv2Ie
unfolding plmn_from_realm encode_plmn
serving_network_ie realm = elim (plmn_from_realm realm) [
  | none ↦ none
  | some (mcc, mnc) ↦
      some (record { type = ie_serving_network; instance_no = 0; payload = encode_plmn mcc mnc })
]
