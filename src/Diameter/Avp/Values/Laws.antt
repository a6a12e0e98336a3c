-- ===== src/Diameter/Avp/Values/Laws.antt =====
-- A value that one end puts into a pair, by itself or in a group, is what the other end reads.
use vectorcore_twag.Base.{
  ℕ, ◌^◌, ◌<◌, ◌≡◌, refl, ◌∙◌, ap, List, [], ◌∷◌, ◌++◌, none, some, arith, All,
}
use vectorcore_twag.Base.Bytes.{put32}
use vectorcore_twag.Diameter.Avp.{Avp, encode_avps, find_avp}
use vectorcore_twag.Diameter.Avp.RoundTrip.{IsWellFormed, decode_avps-encode_avps}
use vectorcore_twag.Diameter.Avp.Values.{
  uint32_avp_flags, grouped_avp, uint32_of_payload, avp_uint32, code_of_group,
  experimental_result_code, avp_experimental_result, avp_experimental_result_code,
}

find_avp-append :
    (before behind : List Avp) (a : Avp) (code vendor : ℕ)
    → find_avp before code vendor ≡ none
    → a.code ≡ code
    → a.vendor_id ≡ vendor
    → find_avp (before ++ (a ∷ behind)) code vendor ≡ some a
unfolding find_avp
find_avp-append [] behind a code vendor h p q = ground arith
find_avp-append (x ∷ before) behind a code vendor h p q =
    ground (arith, find_avp-append before behind a code vendor)

uint32_of_put32 : (v : ℕ) → v < 2 ^ 32 → uint32_of_payload (put32 v) ≡ some v
unfolding uint32_of_payload
uint32_of_put32 v h = ap some (omega arith)

avp_uint32_found :
    (avps : List Avp) (a : Avp) (code vendor : ℕ)
    → find_avp avps code vendor ≡ some a
    → avp_uint32 avps code vendor ≡ uint32_of_payload a.payload
unfolding avp_uint32
avp_uint32_found avps a code vendor e = rw (e, avp_uint32)

-- A 32-bit value, found by its code and vendor behind any pairs that have another code or vendor.
avp_uint32-append :
    (before behind : List Avp) (code vendor flags v : ℕ)
    → v < 2 ^ 32
    → find_avp before code vendor ≡ none
    → avp_uint32 (before ++ (uint32_avp_flags code vendor flags v ∷ behind)) code vendor ≡ some v
unfolding uint32_avp_flags
avp_uint32-append before behind code vendor flags v h absent =
    let a = uint32_avp_flags code vendor flags v in
    avp_uint32_found _ a code vendor (find_avp-append before behind a code vendor absent refl refl)
    ∙ uint32_of_put32 v h

code_of_decoded :
    (avps : List Avp)
    → All IsWellFormed avps
    → code_of_group (encode_avps avps) ≡ avp_uint32 avps avp_experimental_result_code 0
unfolding code_of_group
code_of_decoded avps w = rw (decode_avps-encode_avps avps w, code_of_group)

experimental_result_found :
    (avps : List Avp) (a : Avp)
    → find_avp avps avp_experimental_result 0 ≡ some a
    → experimental_result_code avps ≡ code_of_group a.payload
unfolding experimental_result_code
experimental_result_found avps a e = rw (e, experimental_result_code)

-- A 32-bit result code in an Experimental-Result group is the code that the client reads, where
-- it is the first of its kind among the group's well-formed pairs and the group is the first of
-- its kind in the message.
pub experimental_result_code-grouped :
    (before behind inner_before inner_behind : List Avp) (flags v : ℕ)
    → v < 2 ^ 32
    → find_avp before avp_experimental_result 0 ≡ none
    → find_avp inner_before avp_experimental_result_code 0 ≡ none
    → All IsWellFormed
        (inner_before ++ (uint32_avp_flags avp_experimental_result_code 0 flags v ∷ inner_behind))
    → experimental_result_code (
        before
        ++ (grouped_avp avp_experimental_result 0 (
              inner_before
              ++ (uint32_avp_flags avp_experimental_result_code 0 flags v ∷ inner_behind))
            ∷ behind))
      ≡ some v
unfolding grouped_avp
experimental_result_code-grouped before behind inner_before inner_behind flags v h absent none_inner
      w =
    let inner =
      inner_before ++ (uint32_avp_flags avp_experimental_result_code 0 flags v ∷ inner_behind) in
    let g = grouped_avp avp_experimental_result 0 inner in
    experimental_result_found _ g
      (find_avp-append before behind g avp_experimental_result 0 absent refl refl)
    ∙ code_of_decoded inner w
    ∙ avp_uint32-append inner_before inner_behind avp_experimental_result_code 0 flags v h
        none_inner
