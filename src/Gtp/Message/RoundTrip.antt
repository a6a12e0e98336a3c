-- ===== src/Gtp/Message/RoundTrip.antt =====
-- Encoding and decoding of a GTPv2-C message are inverse to one another.
use vectorcore_twag.Base.{
  ℕ, ◌+◌, ◌*◌, ◌/◌, ◌%◌, ◌^◌, ◌≤◌, ◌<◌, ◌≡◌, true, false, ok, arith, length, [], ◌∷◌, ◌++◌, ◌↔◌,
  All, if◌then◌else◌, inl, inr, Result-cases, length-drop,
}
use vectorcore_twag.Base.Bytes.{
  Bytes, IsByte, put24, read24-at, put16, put32, at-IsByte, read24-lt, read32-lt,
}
use vectorcore_twag.Gtp.Message.{Gtpv2Message, encode, decode, max_gtpv2_sequence}

-- The ranges of Go's types, and a TEID only where the header has the field.
pub record IsWellFormed (m : Gtpv2Message) : Type 0 where
  pub type_byte : IsByte m.type
  pub teid_range : m.teid < 2 ^ 32
  pub teid_absent : m.has_teid ≡ false → m.teid ≡ 0

read_total : (n : ℕ) → n ≤ 0xffff → n / 256 % 256 * 256 + n % 256 ≡ n
read_total n h = omega arith

module _ (type teid seq : ℕ) (p : Bytes) (seq_range : seq < 2 ^ 24) where
  decode_with_teid :
      teid < 2 ^ 32
      → 8 + length p ≤ 0xffff
      → decode
          ((0x48 ∷ type ∷ []) ++ (put16 (8 + length p) ++ (put32 teid ++ (put24 seq ++ (0 ∷ p)))))
        ≡ ok (record { type = type; teid = teid; has_teid = true; sequence = seq; payload = p })
  unfolding decode put24
  decode_with_teid ht hl = ground (
    arith,
    read_total (8 + length p),
    read24-at
        ((0x48 ∷ type ∷ []) ++ (put16 (8 + length p) ++ (put32 teid ++ (put24 seq ++ (0 ∷ p))))) 8
        seq,
  )

  decode_without_teid :
      4 + length p ≤ 0xffff
      → decode ((0x40 ∷ type ∷ []) ++ (put16 (4 + length p) ++ ([] ++ (put24 seq ++ (0 ∷ p)))))
        ≡ ok (record { type = type; teid = 0; has_teid = false; sequence = seq; payload = p })
  unfolding decode put24
  decode_without_teid hl = ground (
    arith,
    read_total (4 + length p),
    read24-at ((0x40 ∷ type ∷ []) ++ (put16 (4 + length p) ++ (put24 seq ++ (0 ∷ p)))) 4 seq,
  )

-- The bytes that `encode` makes of a message whose type is a byte, whose TEID fits 32 bits and is
-- 0 where it has none are decoded to that message: every field, and the payload to its end.
pub decode-encode :
    (m : Gtpv2Message) (b : Bytes) → IsWellFormed m → encode m ≡ ok b → decode b ≡ ok m
unfolding encode
decode-encode m b w h = ground (
  arith,
  decode_with_teid m.type m.teid m.sequence m.payload,
  decode_without_teid m.type m.teid m.sequence m.payload,
)

-- `encode` accepts exactly the messages whose sequence number lies in the range that StarOS takes
-- and whose length fits 16 bits.
pub encode_accepts :
    (m : Gtpv2Message)
    → ((b : Bytes) × (encode m ≡ ok b)) ↔ (
        (1 ≤ m.sequence)
        × (m.sequence ≤ max_gtpv2_sequence)
        × ((if m.has_teid then 8 else 4) + length m.payload ≤ 0xffff))
unfolding encode
encode_accepts m = (
  λ (b, e). ground arith,
  λ h. elim (Result-cases (encode m)) [ inl r ↦ r | inr (e, q) ↦ absurd (ground arith) ],
)

-- A packet that `decode` accepts has the length that its header states, and the message without
-- its header is as long as the packet without its own.
pub decode_sound :
    (b : Bytes) (m : Gtpv2Message)
    → All IsByte b
    → decode b ≡ ok m
    → IsWellFormed m
      × (length b ≡ (if m.has_teid then 12 else 8) + length m.payload)
      × (m.sequence < 2 ^ 24)
unfolding decode
decode_sound b m bs h =
    let t = at-IsByte b 1 bs in
    let u = read32-lt b 4 bs in
    let s4 = read24-lt b 4 bs in
    let s8 = read24-lt b 8 bs in ground (arith, t, u, s4, s8, length-drop 8 b, length-drop 12 b)
