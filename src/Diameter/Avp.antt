-- ===== src/Diameter/Avp.antt =====
-- internal/diameter/message.go: attribute-value pairs and lists of them.
pub mod RoundTrip
pub mod Sound
pub mod Values
use vectorcore_twag.Base.{
  ℕ, zero, suc, ◌+◌, ◌-◌, ◌%◌, Bool, ◌&&◌, ◌||◌, List, [], ◌∷◌, ◌++◌, Option, none, some, Result,
  ok, err, ltb, ◌==◌, ◌!=◌, if◌then◌else◌, length, drop, replicate, bit_and, bit_or,
}
use vectorcore_twag.Base.Bytes.{Bytes, at, put32, put24, read24, read32, slice}

abbrev pub flag_vendor_avp : ℕ
flag_vendor_avp = 0x80

abbrev pub flag_mandatory : ℕ
flag_mandatory = 0x40

pub record Avp : Type 0 where
  pub code : ℕ
  pub vendor_id : ℕ
  pub flags : ℕ
  pub payload : Bytes

-- `out_of_fuel` is no error of the source: the loop of `decode_avps` ended early.
pub data Error : Type 0 where
  header_truncated vendor_header_truncated length_invalid padding_truncated out_of_fuel : Error

-- pad4
unfoldable pub pad4 : ℕ → ℕ
pad4 n = if n % 4 != 0 then n + 4 - n % 4 else n

abbrev pub header_size : Avp → ℕ
header_size a = if a.vendor_id == 0 then 8 else 12

-- a.encode(); what `make` leaves behind the data is the zero padding.
unfoldable pub encode_avp : Avp → Bytes
encode_avp a =
    let flags = if a.vendor_id == 0 then a.flags else bit_or a.flags flag_vendor_avp in
    let len = header_size a + length a.payload in
    put32 a.code
    ++ ((flags ∷ [])
        ++ (put24 len
            ++ ((if a.vendor_id == 0 then [] else put32 a.vendor_id)
                ++ (a.payload ++ replicate (pad4 len - len) 0))))

-- The loops over `m.AVPs` in message.encode and over `children` in groupedAVP.
unfoldable pub encode_avps : List Avp → Bytes
encode_avps [] = []
encode_avps (a ∷ avps) = encode_avp a ++ encode_avps avps

-- The pair at the front of `b`, behind the checks of decodeAVPs.
unfoldable pub front_avp : Bytes → ℕ → Avp
front_avp b header = record {
  code = read32 b 0;
  vendor_id = if header == 12 then read32 b 8 else 0;
  flags = at b 4;
  payload = slice b header (read24 b 5);
}

-- The loop of decodeAVPs: what is left of `data`, and the pairs that it has appended.
unfoldable pub decode_avps_loop : ℕ → Bytes → List Avp → Result Error (List Avp)
unfolding pad4
decode_avps_loop fuel [] out = ok out
decode_avps_loop zero (x ∷ rest) out = err out_of_fuel
decode_avps_loop (suc fuel) (x ∷ rest) out =
    let b = x ∷ rest in
    let len = read24 b 5 in
    let vendor = bit_and (at b 4) flag_vendor_avp != 0 in
    let header : ℕ = if vendor then 12 else 8 in
    let more = decode_avps_loop fuel (drop (pad4 len) b) (out ++ (front_avp b header ∷ [])) in
    if ltb (length b) 8
    then err header_truncated
    else if vendor && ltb (length b) 12
    then err vendor_header_truncated
    else if ltb len header || ltb (length b) len
    then err length_invalid
    else if ltb (length b) (pad4 len)
    then err padding_truncated
    else more

-- decodeAVPs. Each round takes eight bytes at least.
unfoldable pub decode_avps : Bytes → Result Error (List Avp)
decode_avps payload = decode_avps_loop (length payload) payload []

-- findAVP
unfoldable pub find_avp : List Avp → ℕ → ℕ → Option Avp
find_avp [] code vendor = none
find_avp (a ∷ avps) code vendor =
    if a.code == code && a.vendor_id == vendor then some a else find_avp avps code vendor
