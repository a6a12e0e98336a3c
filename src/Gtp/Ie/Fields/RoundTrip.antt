-- ===== src/Gtp/Ie/Fields/RoundTrip.antt =====
-- Tunnel endpoints, addresses and causes come out of an element as they were put in.
use vectorcore_twag.Base.{
  ap, ℕ, ◌+◌, ◌^◌, ◌≤◌, ◌<◌, ◌≡◌, refl, ◌∙◌, List, [], ◌∷◌, ◌++◌, none, some, arith, length, All,
  All-append, ok, ◌>>=◌, bit_and, bit_or,
}
use vectorcore_twag.Base.Bytes.{Bytes, put16}
use vectorcore_twag.Base.Bits.{low_nibble, or_top_bit, low_six, top_bit}
use vectorcore_twag.Base.Net.{Ip, to4, to16, four_bytes}
use vectorcore_twag.Gtp.Ie.{Gtpv2Ie, find_ie, encode_ies, decode_ies}
use vectorcore_twag.Gtp.Ie.RoundTrip.{IsWellFormed, decode_ies-encode_ies}
use vectorcore_twag.Gtp.Ie.Fields.{
  fteid_ie, parse_fteid, paa_ie, parse_paa, ie_paa, paa_of_payload, cause_of_payload,
}

-- The head of an F-TEID with the address flag: the flag and the interface come apart again.
iface_bits :
    (iface : ℕ)
    → iface ≤ 0x3f
    → (bit_and (bit_or 0x80 iface) 0x3f ≡ iface) × (bit_and (bit_or 0x80 iface) 0x80 ≡ 128)
iface_bits iface h =
    let e : bit_or 0x80 iface ≡ 128 + iface = or_top_bit iface (omega arith) ∙ omega arith in
    rw e (
      low_six (128 + iface) (omega arith) ∙ omega arith,
      top_bit (128 + iface) (omega arith) ∙ omega arith,
    )

-- A tunnel endpoint element with an interface of at most 0x3f, a TEID of 32 bits and an IPv4
-- address gives back the interface, the TEID and the address, the address in Go's 16-byte form.
pub parse_fteid-fteid_ie :
    (n iface teid : ℕ) (ip : Ip)
    → iface ≤ 0x3f
    → teid < 2 ^ 32
    → length (to4 ip) ≡ 4
    → parse_fteid (fteid_ie n iface teid ip) ≡ some (iface, teid, to16 ip)
unfolding fteid_ie parse_fteid
parse_fteid-fteid_ie n iface teid ip hi ht h =
    rw (four_bytes (to4 ip) h) (ground (arith, iface_bits iface hi))

-- An address that is not IPv4 is left out, and the reader then reports none.
pub parse_fteid_none :
    (n iface teid : ℕ) (ip : Ip)
    → iface ≤ 0x3f
    → teid < 2 ^ 32
    → to4 ip ≡ []
    → parse_fteid (fteid_ie n iface teid ip) ≡ some (iface, teid, [])
unfolding fteid_ie parse_fteid
parse_fteid_none n iface teid ip hi ht h = rw h (ground (arith, iface_bits iface hi))

pub paa_of_paa_ie : (ip : Ip) → length (to4 ip) ≡ 4 → paa_of_payload (paa_ie ip).payload ≡ to16 ip
unfolding paa_of_payload paa_ie
paa_of_paa_ie ip h = rw (four_bytes (to4 ip) h)

pub paa_ie-IsWellFormed : (ip : Ip) → length (to4 ip) ≡ 4 → IsWellFormed (paa_ie ip)
unfolding paa_ie
paa_ie-IsWellFormed ip h = omega arith

find_ie-append :
    (ies more : List Gtpv2Ie) (ie : Gtpv2Ie) (t n : ℕ)
    → find_ie ies t n ≡ none
    → ie.type ≡ t
    → ie.instance_no ≡ n
    → find_ie (ies ++ (ie ∷ more)) t n ≡ some ie
unfolding find_ie
find_ie-append [] more ie t n h p q = ground arith
find_ie-append (x ∷ ies) more ie t n h p q = ground (arith, find_ie-append ies more ie t n)

pub parse_paa_found :
    (ies : List Gtpv2Ie) (ie : Gtpv2Ie)
    → find_ie ies ie_paa 0 ≡ some ie
    → parse_paa ies ≡ paa_of_payload ie.payload
unfolding parse_paa
parse_paa_found ies ie e = rw (e, parse_paa)

-- An IPv4 address in a PAA element, among well-formed elements with no PAA of instance 0 before
-- it, is the address that is read from the encoded list.
pub parse_paa-encode_ies :
    (before behind : List Gtpv2Ie) (ip : Ip)
    → All IsWellFormed before
    → All IsWellFormed behind
    → find_ie before ie_paa 0 ≡ none
    → length (to4 ip) ≡ 4
    → (decode_ies (encode_ies (before ++ (paa_ie ip ∷ behind))) >>= λ ies. ok (parse_paa ies))
      ≡ ok (to16 ip)
parse_paa-encode_ies before behind ip wb wa absent h =
    let ies = before ++ (paa_ie ip ∷ behind) in
    let wells : All IsWellFormed ies =
      All-append IsWellFormed before (paa_ie ip ∷ behind) wb (paa_ie-IsWellFormed ip h, wa) in
    let found : find_ie ies ie_paa 0 ≡ some (paa_ie ip) =
      find_ie-append before behind (paa_ie ip) ie_paa 0 absent (unfold paa_ie in refl)
        (unfold paa_ie in refl) in
    rw (decode_ies-encode_ies ies wells)
      (ap ok (parse_paa_found ies (paa_ie ip) found ∙ paa_of_paa_ie ip h))

-- The causes that a response carries: the code, and with six bytes or more the offending element.
pub cause_of_payload-full :
    (cause flags type len inst : ℕ) (more : Bytes)
    → len < 2 ^ 16
    → inst < 16
    → cause_of_payload ((cause ∷ flags ∷ type ∷ []) ++ (put16 len ++ (inst ∷ more))) ≡ record {
      cause = cause;
      offending_ie_type = type;
      offending_ie_length = len;
      offending_ie_instance = inst;
    }
unfolding cause_of_payload
cause_of_payload-full cause flags type len inst more hl hi = ground (arith, low_nibble inst)
