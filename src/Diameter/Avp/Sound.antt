-- ===== src/Diameter/Avp/Sound.antt =====
-- The loop of decodeAVPs ends on every input, and what it accepts is well formed.
use vectorcore_twag.Base.{
  ℕ, zero, suc, ◌+◌, ◌-◌, ◌^◌, ◌≤◌, ◌<◌, ◌≡◌, ◌≢◌, refl, ◌∙◌, List, [], ◌∷◌, ◌++◌, ok, err, arith,
  ltb, ◌!=◌, length, drop, All, All-drop, length-drop, length-take, append-nil, append_assoc,
  bit_and, if◌then◌else◌,
}
use vectorcore_twag.Base.Bytes.{Bytes, IsByte, at, at-IsByte, slice, read24, read24-lt, read32-lt}
use vectorcore_twag.Base.Bits.{top_bit}
use vectorcore_twag.Diameter.Avp.{
  Avp, out_of_fuel, pad4, flag_vendor_avp, front_avp, decode_avps_loop, decode_avps,
}
use vectorcore_twag.Diameter.Avp.RoundTrip.{pad4_bounds}

abbrev header_at : Bytes → ℕ
header_at b = if bit_and (at b 4) flag_vendor_avp != 0 then 12 else 8

-- Only a round that passes its checks can run out of fuel, and it has taken eight bytes.
round_starves :
    (fuel x : ℕ) (b : Bytes) (done : List Avp)
    → decode_avps_loop (suc fuel) (x ∷ b) done ≡ err out_of_fuel
    → (8 ≤ read24 (x ∷ b) 5)
      × (pad4 (read24 (x ∷ b) 5) ≤ length (x ∷ b))
      × (decode_avps_loop fuel
            (drop (pad4 (read24 (x ∷ b) 5)) (x ∷ b))
            (done ++ (front_avp (x ∷ b) (header_at (x ∷ b)) ∷ []))
          ≡ err out_of_fuel)
unfolding decode_avps_loop
round_starves fuel x b done e = ground arith

decode_loop-ends :
    (fuel : ℕ) (b : Bytes) (out : List Avp)
    → length b ≤ fuel
    → decode_avps_loop fuel b out ≢ err out_of_fuel
unfolding decode_avps_loop
decode_loop-ends fuel [] out h = λ e. cc
decode_loop-ends zero (x ∷ b) out h = absurd (omega arith)
decode_loop-ends (suc fuel) (x ∷ b) out h = λ e.
    let len = read24 (x ∷ b) 5 in
    let (some_bytes, fits, more) = round_starves fuel x b out e in
    decode_loop-ends fuel (drop (pad4 len) (x ∷ b))
      (out ++ (front_avp (x ∷ b) (header_at (x ∷ b)) ∷ []))
      (omega (arith, length-drop (pad4 len) (x ∷ b), pad4_bounds len)) more

-- decodeAVPs ends on every input: with the list, or with one of its four errors.
pub decode_avps-ends : (b : Bytes) → decode_avps b ≢ err out_of_fuel
unfolding decode_avps
decode_avps-ends b = decode_loop-ends (length b) b [] (omega arith)

-- The pair is inside the data, and its flags tell whether there is a vendor field. Unlike an
-- encoded pair it may have the vendor 0 under a set flag.
pub record IsReadable (a : Avp) : Type 0 where
  pub code_range : a.code < 2 ^ 32
  pub vendor_range : a.vendor_id < 2 ^ 32
  pub flags_byte : IsByte a.flags
  pub flag_set : 0 < a.vendor_id → 128 ≤ a.flags
  pub length_fits : 8 + length a.payload < 2 ^ 24

-- The size that the pair takes on the wire.
abbrev wire_size : Avp → ℕ
wire_size a = pad4 ((if ltb a.flags 128 then 8 else 12) + length a.payload)

abbrev pub wire_sizes : List Avp → ℕ
wire_sizes [] = 0
wire_sizes (a ∷ avps) = wire_size a + wire_sizes avps

round_sound :
    (fuel x : ℕ) (b : Bytes) (done out : List Avp)
    → decode_avps_loop (suc fuel) (x ∷ b) done ≡ ok out
    → (header_at (x ∷ b) ≤ read24 (x ∷ b) 5)
      × (pad4 (read24 (x ∷ b) 5) ≤ length (x ∷ b))
      × (decode_avps_loop fuel
            (drop (pad4 (read24 (x ∷ b) 5)) (x ∷ b))
            (done ++ (front_avp (x ∷ b) (header_at (x ∷ b)) ∷ []))
          ≡ ok out)
unfolding decode_avps_loop
round_sound fuel x b done out e = ground arith

front-IsReadable :
    (b : Bytes)
    → All IsByte b
    → header_at b ≤ read24 b 5
    → pad4 (read24 b 5) ≤ length b
    → IsReadable (front_avp b (header_at b))
      × (wire_size (front_avp b (header_at b)) ≡ pad4 (read24 b 5))
unfolding front_avp
front-IsReadable b bs h k =
    let size : length (slice b (header_at b) (read24 b 5)) ≡ read24 b 5 - header_at b =
      length-take (read24 b 5 - header_at b) (drop (header_at b) b)
      ∙ omega (arith, length-drop (header_at b) b, pad4_bounds (read24 b 5)) in
    let c = read32-lt b 0 bs in
    let v = read32-lt b 8 bs in
    let f = at-IsByte b 4 bs in
    let l = read24-lt b 5 bs in ground (arith, c, v, f, l, size, top_bit (at b 4))

-- What the loop adds to `done` for the rest `b`.
Adds : Bytes → List Avp → List Avp → Type 0
Adds b done out =
    (avps : List Avp) × (out ≡ done ++ avps) × All IsReadable avps × (wire_sizes avps ≡ length b)

decode_loop_sound :
    (fuel : ℕ) (b : Bytes) (done out : List Avp)
    → All IsByte b
    → decode_avps_loop fuel b done ≡ ok out
    → Adds b done out
unfolding Adds
decode_loop_sound fuel [] done out bs e =
    unfold decode_avps_loop in ([], cc (append-nil done), tt, refl)
decode_loop_sound zero (x ∷ b) done out bs e = unfold decode_avps_loop in cc
decode_loop_sound (suc fuel) (x ∷ b) done out bs e =
    let n = pad4 (read24 (x ∷ b) 5) in
    let a = front_avp (x ∷ b) (header_at (x ∷ b)) in
    let (long, padded, more) = round_sound fuel x b done out e in
    let (well, size) = front-IsReadable (x ∷ b) bs long padded in
    let (avps, split, wells, sizes) =
      decode_loop_sound fuel (drop n (x ∷ b)) (done ++ (a ∷ [])) out (All-drop IsByte n (x ∷ b) bs)
        more in
    (
      a ∷ avps,
      split ∙ append_assoc done (a ∷ []) avps,
      (well, wells),
      omega (arith, size, sizes, length-drop n (x ∷ b)),
    )

-- The pairs that decodeAVPs reads from bytes fill them to the last one, each padded to 32 bits;
-- their fields fit their widths, and a pair with a vendor has its vendor flag set.
pub decode_avps_sound :
    (b : Bytes) (avps : List Avp)
    → All IsByte b
    → decode_avps b ≡ ok avps
    → All IsReadable avps × (wire_sizes avps ≡ length b)
unfolding decode_avps
decode_avps_sound b avps bs e =
    unfold Adds in
    let (out, same, wells, size) = decode_loop_sound (length b) b [] avps bs e in
    rw same (wells, size)
