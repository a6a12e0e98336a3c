-- ===== src/Gtpu/Packet/RoundTrip.antt =====
-- What goes into a tunnel comes out of it.
use vectorcore_twag.Base.{
  ℕ, ◌+◌, ◌-◌, ◌*◌, ◌/◌, ◌%◌, ◌^◌, ◌≤◌, ◌<◌, ◌≡◌, ◌↔◌, ap, subst, sym, suc, false, ltb, le→ltb, inl,
  inr, [], ◌∷◌, ◌++◌, ok, arith, Result-cases, length, drop, All, All-drop, All-take, length-append,
  length-drop, length-take, take-append, take, take-append-drop, ◌∙◌,
}
use vectorcore_twag.Base.Bytes.{
  Bytes, IsByte, put16, put32, read32_put32, read32-lt, read16-lt, read16, read32, slice,
}
use vectorcore_twag.Gtpu.Packet.{encode_packet, decode_packet}

decode_wire :
    (teid : ℕ) (payload more : Bytes)
    → 1 ≤ teid
    → teid < 2 ^ 32
    → length payload ≤ 65527
    → decode_packet
        ((0x30 ∷ 255 ∷ []) ++ (put16 (length payload) ++ (put32 teid ++ (payload ++ more))))
      ≡ ok (teid, payload)
unfolding decode_packet
decode_wire teid payload more h k l =
    let n = length payload in
    let len : n / 256 % 256 * 256 + n % 256 ≡ n = omega arith in
    let size : 8 + n - 8 ≡ n = omega arith in
    let fits : ltb (length (payload ++ more)) n ≡ false =
      le→ltb _ n (omega (arith, length-append payload more)) in
    let rest : suc (suc (suc (suc (suc (suc (suc (suc (length (payload ++ more))))))))) - 8
        ≡ length (payload ++ more) =
      omega arith in
    rw (len, read32_put32 teid k, size, take-append payload more, rest, fits) (ground arith)

wire_of_encode :
    (teid : ℕ) (payload packet : Bytes)
    → encode_packet teid payload ≡ ok packet
    → (1 ≤ teid)
      × (length payload ≤ 65527)
      × (packet ≡ (0x30 ∷ 255 ∷ []) ++ (put16 (length payload) ++ (put32 teid ++ payload)))
unfolding encode_packet
wire_of_encode teid payload packet e = ground arith

-- A packet that EncodePacket made for a 32-bit TEID is decoded to that TEID and the payload, also
-- with other bytes behind it.
pub decode-encode_packet :
    (teid : ℕ) (payload packet more : Bytes)
    → teid < 2 ^ 32
    → encode_packet teid payload ≡ ok packet
    → decode_packet (packet ++ more) ≡ ok (teid, payload)
decode-encode_packet teid payload packet more h e =
    let (pos, small, same) = wire_of_encode teid payload packet e in
    rw same (decode_wire teid payload more pos h small)

-- The packets that cannot be sent: those without a tunnel and those above the size of a datagram.
pub encode_packet_accepts :
    (teid : ℕ) (payload : Bytes)
    → ((packet : Bytes) × (encode_packet teid payload ≡ ok packet))
      ↔ ((1 ≤ teid) × (length payload + 8 ≤ 65535))
unfolding encode_packet
encode_packet_accepts teid payload = (
  λ (p, e). ground arith,
  λ h. elim (Result-cases (encode_packet teid payload)) [
    | inl r ↦ r
    | inr (x, q) ↦ absurd (ground arith)
  ],
)

-- What DecodePacket reads from bytes: the packet is 8 bytes of header, then the payload, then what
-- is left over; the header holds the length of the payload and the TEID, which is not 0 and fits 32
-- bits; the payload is made of bytes and fits 16 bits of length.
pub decode_packet_sound :
    (packet payload : Bytes) (teid : ℕ)
    → All IsByte packet
    → decode_packet packet ≡ ok (teid, payload)
    → (packet ≡ take 8 packet ++ (payload ++ drop (length payload) (drop 8 packet)))
      × (length payload ≡ read16 packet 2)
      × (teid ≡ read32 packet 4)
      × (1 ≤ teid)
      × (teid < 2 ^ 32)
      × (length payload + 8 ≤ length packet)
      × (length payload < 2 ^ 16)
      × All IsByte payload
unfolding decode_packet
decode_packet_sound packet payload teid bs e =
    let len = read16 packet 2 in
    let t = read32-lt packet 4 bs in
    let l = read16-lt packet 2 bs in
    let inside = All-take IsByte (8 + len - 8) (drop 8 packet) (All-drop IsByte 8 packet bs) in
    let size = length-take (8 + len - 8) (drop 8 packet) in
    let same : (teid ≡ read32 packet 4)
        × (payload ≡ slice packet 8 (8 + len))
        × (1 ≤ read32 packet 4)
        × (len ≤ length packet - 8)
        × (8 ≤ length packet) =
      ground arith in
    let width : length payload ≡ len =
      omega (arith, same, size, ap length same.1, length-drop 8 packet) in
    let cut : payload ≡ take (length payload) (drop 8 packet) =
      same.1 ∙ ap (λ n. take n (drop 8 packet)) (omega (arith, width)) in
    (
      sym (
          ap (λ p. take 8 packet ++ (p ++ drop (length payload) (drop 8 packet))) cut
          ∙ ap (◌++◌ (take 8 packet)) (take-append-drop (length payload) (drop 8 packet))
          ∙ take-append-drop 8 packet),
      width,
      same.0,
      omega (arith, same),
      omega (arith, same, t),
      omega (arith, same, width),
      omega (arith, l, width),
      subst (All IsByte) (sym same.1) inside,
    )
