-- ===== src/Diameter/Message/RoundTrip.antt =====
-- Messages on a stream: each call of decodeMessage takes one encoded message off its front.
use vectorcore_twag.Base.{
  ℕ, zero, suc, ◌+◌, ◌-◌, ◌^◌, ◌<◌, ◌≡◌, refl, List, [], ◌∷◌, ◌++◌, Result, ok, false, ltb, le→ltb,
  ◌>>=◌, arith, length, All, length-append, append_assoc, take-append, drop-append,
}
use vectorcore_twag.Base.Bytes.{Bytes, IsByte, put32, put24, read24, read24-at, read32_put32}
use vectorcore_twag.Diameter.Avp.{encode_avps}
use vectorcore_twag.Diameter.Avp.RoundTrip as Avps
use vectorcore_twag.Diameter.Message.{
  Message, Error, diameter_ver, encode, read_full, decode_full, decode_rest, decode_message,
}

-- The ranges of Go's types, pairs that can be read back, and a length that fits 24 bits.
pub record IsWellFormed (m : Message) : Type 0 where
  pub flags_byte : IsByte m.flags
  pub command_range : m.command_code < 2 ^ 24
  pub app_range : m.app_id < 2 ^ 32
  pub hop_range : m.hop_by_hop < 2 ^ 32
  pub end_range : m.end_to_end < 2 ^ 32
  pub avps_well : All Avps.IsWellFormed m.avps
  pub length_fits : 20 + length (encode_avps m.avps) < 2 ^ 24

read_full-append :
    (n : ℕ) (xs rest : Bytes) → n ≡ length xs → read_full n (xs ++ rest) ≡ ok (xs, rest)
unfolding read_full
read_full-append n [] rest e = ground arith
read_full-append n (x ∷ xs) rest e =
    rw e
      (ground (arith, length-append xs rest, take-append (x ∷ xs) rest, drop-append (x ∷ xs) rest))

-- The 16 bytes of the header behind the length, and the payload.
abbrev body : Message → Bytes
body m =
    (m.flags ∷ [])
    ++ (put24 m.command_code
        ++ (put32 m.app_id ++ (put32 m.hop_by_hop ++ (put32 m.end_to_end ++ encode_avps m.avps))))

abbrev front : Message → Bytes
front m = diameter_ver ∷ put24 (20 + length (encode_avps m.avps))

decode_body : (m : Message) → IsWellFormed m → decode_full (front m ++ body m) ≡ ok m
unfolding decode_full put24
decode_body m w =
    let command : read24 (front m ++ body m) 5 ≡ m.command_code =
      read24-at (front m ++ body m) 5 m.command_code (omega arith) refl refl refl in
    rw (Avps.decode_avps-encode_avps m.avps w.avps_well) (
      ground (
        arith,
        command,
        read32_put32 m.app_id,
        read32_put32 m.hop_by_hop,
        read32_put32 m.end_to_end,
      ))

decode_behind :
    (m : Message) (rest : Bytes)
    → IsWellFormed m
    → decode_rest (front m) (body m ++ rest) ≡ ok (m, rest)
unfolding decode_rest put24
decode_behind m rest w =
    let t = 20 + length (encode_avps m.avps) in
    let len : read24 (front m) 1 ≡ t = read24-at (front m) 1 t (omega arith) refl refl refl in
    let got : read_full (t - 4) (body m ++ rest) ≡ ok (body m, rest) =
      read_full-append (t - 4) (body m) rest (omega arith) in
    let long : ltb t 20 ≡ false = le→ltb t 20 (omega arith) in
    rw len (rw (long, got, decode_body m w))

-- A well-formed message is read back from its encoding whole, whatever follows it on the stream,
-- and the next read starts at the byte behind it.
pub decode_message-encode :
    (m : Message) (rest : Bytes) → IsWellFormed m → decode_message (encode m ++ rest) ≡ ok (m, rest)
unfolding decode_message encode put24
decode_message-encode m rest w =
    let start : read_full 4 (front m ++ (body m ++ rest)) ≡ ok (front m, body m ++ rest) =
      read_full-append 4 (front m) (body m ++ rest) refl in
    rw start (decode_behind m rest w)

-- A sequence of messages on one stream.
pub encode_all : List Message → Bytes
encode_all [] = []
encode_all (m ∷ ms) = encode m ++ encode_all ms

pub decode_all : ℕ → Bytes → Result Error (List Message × Bytes)
decode_all zero r = ok ([], r)
decode_all (suc n) r =
    decode_message r >>= λ (m, r'). decode_all n r' >>= λ (ms, r''). ok (m ∷ ms, r'')

-- As many calls as messages were written read them all, in order, up to what follows them.
pub decode_all-encode_all :
    (ms : List Message) (rest : Bytes)
    → All IsWellFormed ms
    → decode_all (length ms) (encode_all ms ++ rest) ≡ ok (ms, rest)
unfolding decode_all encode_all
decode_all-encode_all [] rest w = refl
decode_all-encode_all (m ∷ ms) rest w = rw (append_assoc (encode m) (encode_all ms) rest) (
    rw (decode_message-encode m (encode_all ms ++ rest) w.0)
      (rw (decode_all-encode_all ms rest w.1)))
