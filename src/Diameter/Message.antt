-- ===== src/Diameter/Message.antt =====
-- internal/diameter/message.go: the Diameter message, written to and read from a stream.
pub mod RoundTrip
use vectorcore_twag.Base.{
  ℕ, ◌+◌, ◌-◌, Bool, List, [], ◌∷◌, ◌++◌, Result, ok, err, ltb, ◌==◌, ◌!=◌, ◌>>=◌, if◌then◌else◌,
  length, take, drop, bit_and,
}
use vectorcore_twag.Base.Bytes.{Bytes, at, put32, put24, read24, read32}
use vectorcore_twag.Diameter.Avp.{Avp, encode_avps, decode_avps}
use vectorcore_twag.Diameter.Avp as Avps

abbrev pub flag_request : ℕ
flag_request = 0x80

abbrev pub diameter_ver : ℕ
diameter_ver = 1

abbrev pub header_len : ℕ
header_len = 20

pub record Message : Type 0 where
  pub flags : ℕ
  pub command_code : ℕ
  pub app_id : ℕ
  pub hop_by_hop : ℕ
  pub end_to_end : ℕ
  pub avps : List Avp

-- `io.EOF` and `io.ErrUnexpectedEOF` are those of io.ReadFull.
pub data Error : Type 0 where
  end_of_file unexpected_end_of_file : Error
  unsupported_version message_too_short : ℕ → Error
  bad_avps : Avps.Error → Error

-- m.isRequest()
unfoldable pub is_request : Message → Bool
is_request m = bit_and m.flags flag_request != 0

-- m.encode()
unfoldable pub encode : Message → Bytes
encode m =
    let payload = encode_avps m.avps in
    let total_len = header_len + length payload in
    (diameter_ver ∷ [])
    ++ (put24 total_len
        ++ ((m.flags ∷ [])
            ++ (put24 m.command_code
                ++ (put32 m.app_id ++ (put32 m.hop_by_hop ++ (put32 m.end_to_end ++ payload))))))

-- io.ReadFull into a buffer of `n` bytes, on a stream that ends behind `r`: the bytes and the rest.
unfoldable pub read_full : ℕ → Bytes → Result Error (Bytes × Bytes)
read_full n r =
    if n == 0
    then ok ([], r)
    else if length r == 0
    then err end_of_file
    else if ltb (length r) n
    then err unexpected_end_of_file
    else ok (take n r, drop n r)

abbrev from_avps : Result Avps.Error (List Avp) → Result Error (List Avp)
from_avps (ok avps) = ok avps
from_avps (err e) = err (bad_avps e)

-- What decodeMessage makes of a whole message.
unfoldable pub decode_full : Bytes → Result Error Message
decode_full full = from_avps (decode_avps (drop header_len full)) >>= λ avps. ok (record {
  flags = at full 4;
  command_code = read24 full 5;
  app_id = read32 full 8;
  hop_by_hop = read32 full 12;
  end_to_end = read32 full 16;
  avps = avps;
})

-- What decodeMessage does behind the first four bytes, which are `prefix`.
unfoldable pub decode_rest : Bytes → Bytes → Result Error (Message × Bytes)
decode_rest prefix r =
    let len = read24 prefix 1 in
    if at prefix 0 != diameter_ver
    then err (unsupported_version (at prefix 0))
    else if ltb len header_len
    then err (message_too_short len)
    else (read_full (len - 4) r >>= λ (rest, r'). decode_full (prefix ++ rest) >>= λ m. ok (m, r'))

-- decodeMessage, on a stream: the message, and what the next call will read.
unfoldable pub decode_message : Bytes → Result Error (Message × Bytes)
decode_message r = read_full 4 r >>= λ (prefix, r'). decode_rest prefix r'
