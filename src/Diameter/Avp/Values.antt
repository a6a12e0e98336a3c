-- ===== src/Diameter/Avp/Values.antt =====
-- internal/diameter/message.go: values in attribute-value pairs, put in and read out.
pub mod Laws
use vectorcore_twag.Base.{
  ℕ, List, [], ◌∷◌, ◌++◌, Option, none, some, ok, err, ltb, if◌then◌else◌, length,
}
use vectorcore_twag.Base.Bytes.{Bytes, put32, read32}
use vectorcore_twag.Base.Text.{Text}
use vectorcore_twag.Diameter.Avp.{Avp, flag_mandatory, encode_avps, decode_avps, find_avp}

abbrev pub avp_experimental_result : ℕ
avp_experimental_result = 297

abbrev pub avp_experimental_result_code : ℕ
avp_experimental_result_code = 298

-- utf8AVPFlags and utf8AVP
unfoldable pub utf8_avp_flags : ℕ → ℕ → ℕ → Text → Avp
utf8_avp_flags code vendor flags value = record {
  code = code;
  vendor_id = vendor;
  flags = flags;
  payload = value;
}

unfoldable pub utf8_avp : ℕ → ℕ → Text → Avp
unfolding utf8_avp_flags
utf8_avp code vendor value = utf8_avp_flags code vendor flag_mandatory value

-- uint32AVPFlags and uint32AVP
unfoldable pub uint32_avp_flags : ℕ → ℕ → ℕ → ℕ → Avp
uint32_avp_flags code vendor flags value = record {
  code = code;
  vendor_id = vendor;
  flags = flags;
  payload = put32 value;
}

unfoldable pub uint32_avp : ℕ → ℕ → ℕ → Avp
unfolding uint32_avp_flags
uint32_avp code vendor value = uint32_avp_flags code vendor flag_mandatory value

-- groupedAVP
unfoldable pub grouped_avp : ℕ → ℕ → List Avp → Avp
grouped_avp code vendor children = record {
  code = code;
  vendor_id = vendor;
  flags = flag_mandatory;
  payload = encode_avps children;
}

-- addressAVP, with the four bytes of the address.
unfoldable pub address_avp : ℕ → ℕ → ℕ → ℕ → ℕ → Avp
address_avp code a b c d = record {
  code = code;
  vendor_id = 0;
  flags = flag_mandatory;
  payload = 0x00 ∷ 0x01 ∷ a ∷ b ∷ c ∷ d ∷ [];
}

-- avpString
unfoldable pub avp_string : List Avp → ℕ → ℕ → Text
avp_string avps code vendor = elim (find_avp avps code vendor) [ none ↦ [] | some a ↦ a.payload ]

-- What avpUint32 reads from the data of a pair.
unfoldable pub uint32_of_payload : Bytes → Option ℕ
uint32_of_payload b = if ltb (length b) 4 then none else some (read32 b 0)

-- avpUint32
unfoldable pub avp_uint32 : List Avp → ℕ → ℕ → Option ℕ
unfolding uint32_of_payload
avp_uint32 avps code vendor = elim (find_avp avps code vendor) [
  | none ↦ none
  | some a ↦ uint32_of_payload a.payload
]

-- What experimentalResultCode reads from the data of the group.
unfoldable pub code_of_group : Bytes → Option ℕ
unfolding avp_uint32
code_of_group b = elim (decode_avps b) [
  | ok children ↦ avp_uint32 children avp_experimental_result_code 0
  | err e ↦ none
]

-- experimentalResultCode
unfoldable pub experimental_result_code : List Avp → Option ℕ
unfolding code_of_group
experimental_result_code avps = elim (find_avp avps avp_experimental_result 0) [
  | none ↦ none
  | some a ↦ code_of_group a.payload
]
