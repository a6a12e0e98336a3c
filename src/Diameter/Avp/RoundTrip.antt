-- ===== src/Diameter/Avp/RoundTrip.antt =====
-- Lists of attribute-value pairs: decoding reads back what encoding wrote, padding included.
use vectorcore_twag.Base.{
  ℕ, zero, suc, ◌+◌, ◌-◌, ◌/◌, ◌%◌, ◌^◌, ◌≤◌, ◌<◌, ◌≡◌, ◌⊎◌, inl, inr, refl, ap, subst, ◌∙◌, List,
  [], ◌∷◌, ◌++◌, ok, arith, ◌==◌, ◌!=◌, length, drop, replicate, All, length-append,
  length-replicate, append-nil, append_assoc, take-append, drop-append, drop-add, bit_and,
  Bool-cases, if◌then◌else◌,
}
use vectorcore_twag.Base.Bytes.{
  read32_put32, Bytes, IsByte, at, put24, put32, slice, read24, read24-at,
}
use vectorcore_twag.Base.Bits.{top_bit, set_top_bit}
use vectorcore_twag.Diameter.Avp.{
  Avp, pad4, header_size, flag_vendor_avp, encode_avp, encode_avps, front_avp, decode_avps_loop,
  decode_avps,
}

-- The vendor flag says whether there is a vendor, and the length fits 24 bits.
pub record IsWellFormed (a : Avp) : Type 0 where
  pub code_range : a.code < 2 ^ 32
  pub vendor_range : a.vendor_id < 2 ^ 32
  pub flags_byte : IsByte a.flags
  pub flag_set : 0 < a.vendor_id → 128 ≤ a.flags
  pub flag_clear : a.vendor_id ≡ 0 → a.flags < 128
  pub length_fits : header_size a + length a.payload < 2 ^ 24

pub pad4_bounds : (n : ℕ) → (n ≤ pad4 n) × (pad4 n < n + 4) × (pad4 n % 4 ≡ 0)
unfolding pad4
pad4_bounds n = ground arith

-- One round on data whose checks all pass.
round_passes :
    (fuel x header : ℕ) (rest : Bytes) (out : List Avp)
    → (if bit_and (at (x ∷ rest) 4) flag_vendor_avp != 0 then 12 else 8) ≡ header
    → header ≤ read24 (x ∷ rest) 5
    → pad4 (read24 (x ∷ rest) 5) ≤ length (x ∷ rest)
    → decode_avps_loop (suc fuel) (x ∷ rest) out
      ≡ decode_avps_loop fuel
          (drop (pad4 (read24 (x ∷ rest) 5)) (x ∷ rest))
          (out ++ (front_avp (x ∷ rest) header ∷ []))
unfolding decode_avps_loop
round_passes fuel x header rest out e h k = ground (arith, pad4_bounds (read24 (x ∷ rest) 5))

-- The padding that follows `n` bytes.
abbrev padding : ℕ → Bytes
padding n = replicate (pad4 n - n) 0

drop_padded :
    (p rest : Bytes) (h : ℕ)
    → drop (pad4 (h + length p) - h) (p ++ (padding (h + length p) ++ rest)) ≡ rest
drop_padded p rest h =
    let n = h + length p in
    let whole : pad4 n - h ≡ length (p ++ padding n) = omega (
      arith,
      length-append p (padding n),
      length-replicate {A = ℕ} (pad4 n - n) 0,
      pad4_bounds n,
    ) in
    rw (whole, ← append_assoc p (padding n) rest) (drop-append (p ++ padding n) rest)

-- A pair with the header `c3 … l0` and `vs` at the front of the data.
module _ (c3 c2 c1 c0 f l2 l1 l0 : ℕ) (vs p rest : Bytes) where
  abbrev framed : Bytes
  framed =
      c3
      ∷ c2
      ∷ c1
      ∷ c0
      ∷ f
      ∷ l2
      ∷ l1
      ∷ l0
      ∷ (vs ++ (p ++ (padding (8 + length vs + length p) ++ rest)))

  framed_payload :
      read24 framed 5 ≡ 8 + length vs + length p
      → slice framed (8 + length vs) (read24 framed 5) ≡ p
  framed_payload len =
      let n = length vs in
      let size : 8 + n + length p - (8 + n) ≡ length p = omega arith in
      rw
        (len, size, drop-add 8 n framed, drop-append vs (p ++ (padding (8 + n + length p) ++ rest)))
        (take-append p (padding (8 + n + length p) ++ rest))

  framed_rest :
      read24 framed 5 ≡ 8 + length vs + length p → drop (pad4 (read24 framed 5)) framed ≡ rest
  framed_rest len =
      let n = length vs in
      let k = pad4 (8 + n + length p) - (8 + n) in
      let whole : pad4 (8 + n + length p) ≡ 8 + n + k =
        omega (arith, pad4_bounds (8 + n + length p)) in
      let behind = p ++ (padding (8 + n + length p) ++ rest) in
      ap (λ (m : ℕ). drop m framed) (ap pad4 len ∙ whole)
      ∙ drop-add (8 + n) k framed
      ∙ ap (drop k) (drop-add 8 n framed ∙ drop-append vs behind)
      ∙ drop_padded p rest (8 + n)

  -- One round of the loop on such data.
  framed_round :
      (fuel : ℕ) (out : List Avp)
      → IsByte f
      → (length vs ≡ 0) × (f < 128) ⊎ (length vs ≡ 4) × (128 ≤ f)
      → read24 framed 5 ≡ 8 + length vs + length p
      → decode_avps_loop (suc fuel) framed out
        ≡ decode_avps_loop fuel rest (out ++ (front_avp framed (8 + length vs) ∷ []))
  framed_round fuel out fb split len =
      let total = 8 + length vs + length p in
      let long : pad4 (read24 framed 5) ≤ length framed = omega (
        arith,
        ap pad4 len,
        pad4_bounds total,
        length-append vs (p ++ (padding total ++ rest)),
        length-append p (padding total ++ rest),
        length-append (padding total) rest,
        length-replicate {A = ℕ} (pad4 total - total) 0,
      ) in
      let flag : (if bit_and f flag_vendor_avp != 0 then 12 else 8) ≡ 8 + length vs =
        ground (arith, top_bit f) in
      round_passes fuel c3 (8 + length vs) _ out flag (omega (arith, len)) long
      ∙ ap (λ (r : Bytes). decode_avps_loop fuel r (out ++ (front_avp framed (8 + length vs) ∷ [])))
          (framed_rest len)

-- A pair whose vendor part is `vs`, with the header that `encode` writes.
module _ (fuel : ℕ) (a : Avp) (vs rest : Bytes) (out : List Avp) where
  abbrev written : Bytes
  written =
      put32 a.code
      ++ ((a.flags ∷ [])
          ++ (put24 (8 + length vs + length a.payload)
              ++ (vs ++ (a.payload ++ (padding (8 + length vs + length a.payload) ++ rest)))))

  written-length :
      8 + length vs + length a.payload < 2 ^ 24
      → read24 written 5 ≡ 8 + length vs + length a.payload
  unfolding put24
  written-length h = read24-at written 5 (8 + length vs + length a.payload) h refl refl refl

  written_round :
      IsByte a.flags
      → (length vs ≡ 0) × (a.flags < 128) ⊎ (length vs ≡ 4) × (128 ≤ a.flags)
      → 8 + length vs + length a.payload < 2 ^ 24
      → front_avp written (8 + length vs) ≡ a
      → decode_avps_loop (suc fuel) written out ≡ decode_avps_loop fuel rest (out ++ (a ∷ []))
  unfolding put24
  written_round fb split h front =
      let v = a.code in
      let t = 8 + length vs + length a.payload in
      framed_round (v / 16777216 % 256) (v / 65536 % 256) (v / 256 % 256) (v % 256) a.flags
        (t / 2 ^ 16 % 256) (t / 2 ^ 8 % 256) (t % 256) vs a.payload rest fuel out fb split
        (written-length h)
      ∙ ap (λ (x : Avp). decode_avps_loop fuel rest (out ++ (x ∷ []))) front

  written_payload :
      8 + length vs + length a.payload < 2 ^ 24
      → slice written (8 + length vs) (read24 written 5) ≡ a.payload
  unfolding put24
  written_payload h =
      let v = a.code in
      let t = 8 + length vs + length a.payload in
      framed_payload (v / 16777216 % 256) (v / 65536 % 256) (v / 256 % 256) (v % 256) a.flags
        (t / 2 ^ 16 % 256) (t / 2 ^ 8 % 256) (t % 256) vs a.payload rest (written-length h)

decode_plain :
    (fuel : ℕ) (a : Avp) (rest : Bytes) (out : List Avp)
    → IsWellFormed a
    → a.vendor_id ≡ 0
    → decode_avps_loop (suc fuel) (encode_avp a ++ rest) out
      ≡ decode_avps_loop fuel rest (out ++ (a ∷ []))
unfolding encode_avp put24 front_avp
decode_plain fuel a rest out w none =
    let size : 8 + length a.payload < 2 ^ 24 = ground arith in
    let front : front_avp (written fuel a [] rest out) 8 ≡ a =
      ground (arith, read32_put32 a.code, written_payload fuel a [] rest out size) in
    subst
      (λ (b : Bytes).
        decode_avps_loop (suc fuel) b out ≡ decode_avps_loop fuel rest (out ++ (a ∷ [])))
      (ground (arith, append_assoc a.payload (padding (8 + length a.payload)) rest))
      (written_round fuel a [] rest out w.flags_byte (inl (refl, w.flag_clear none)) size front)

decode_vendor :
    (fuel : ℕ) (a : Avp) (rest : Bytes) (out : List Avp)
    → IsWellFormed a
    → 0 < a.vendor_id
    → decode_avps_loop (suc fuel) (encode_avp a ++ rest) out
      ≡ decode_avps_loop fuel rest (out ++ (a ∷ []))
unfolding encode_avp put24 front_avp
decode_vendor fuel a rest out w some_vendor =
    let size : 12 + length a.payload < 2 ^ 24 = ground arith in
    let vs = put32 a.vendor_id in
    let front : front_avp (written fuel a vs rest out) 12 ≡ a = ground (
      arith,
      read32_put32 a.code,
      read32_put32 a.vendor_id,
      written_payload fuel a vs rest out size,
    ) in
    subst
      (λ (b : Bytes).
        decode_avps_loop (suc fuel) b out ≡ decode_avps_loop fuel rest (out ++ (a ∷ [])))
      (ground
        (arith, set_top_bit a.flags, append_assoc a.payload (padding (12 + length a.payload)) rest))
      (written_round fuel a vs rest out w.flags_byte (inr (refl, w.flag_set some_vendor)) size
        front)

decode_one :
    (fuel : ℕ) (a : Avp) (rest : Bytes) (out : List Avp)
    → IsWellFormed a
    → decode_avps_loop (suc fuel) (encode_avp a ++ rest) out
      ≡ decode_avps_loop fuel rest (out ++ (a ∷ []))
decode_one fuel a rest out w = elim (Bool-cases (a.vendor_id == 0)) [
  | inl e ↦ decode_plain fuel a rest out w (ground arith)
  | inr e ↦ decode_vendor fuel a rest out w (ground arith)
]

decode_loop-encode :
    (fuel : ℕ) (avps out : List Avp)
    → All IsWellFormed avps
    → length avps ≤ fuel
    → decode_avps_loop fuel (encode_avps avps) out ≡ ok (out ++ avps)
unfolding encode_avps
decode_loop-encode fuel [] out w h = unfold decode_avps_loop in rw append-nil
decode_loop-encode zero (a ∷ avps) out w h = absurd (omega arith)
decode_loop-encode (suc fuel) (a ∷ avps) out w h =
    decode_one fuel a (encode_avps avps) out w.0
    ∙ decode_loop-encode fuel avps (out ++ (a ∷ [])) w.1 (omega arith)
    ∙ ap ok (append_assoc out (a ∷ []) avps)

encode_avp_pos : (a : Avp) → 0 < length (encode_avp a)
unfolding encode_avp
encode_avp_pos a = omega arith

length-encode_avps : (avps : List Avp) → length avps ≤ length (encode_avps avps)
unfolding encode_avps
length-encode_avps [] = omega arith
length-encode_avps (a ∷ avps) = omega (
  arith,
  length-append (encode_avp a) (encode_avps avps),
  encode_avp_pos a,
  length-encode_avps avps,
)

-- Any list of pairs whose fields fit their widths, whose vendor flag is set exactly where there
-- is a vendor, and whose lengths fit 24 bits is read back as it was, in order, without the
-- padding.
pub decode_avps-encode_avps :
    (avps : List Avp) → All IsWellFormed avps → decode_avps (encode_avps avps) ≡ ok avps
unfolding decode_avps
decode_avps-encode_avps avps w = decode_loop-encode _ avps [] w (length-encode_avps avps)

-- A pair takes a whole number of 32-bit words.
length-encode_avp : (a : Avp) → length (encode_avp a) ≡ pad4 (header_size a + length a.payload)
unfolding encode_avp put24
length-encode_avp a =
    let n = header_size a + length a.payload in
    ground (
      arith,
      pad4_bounds n,
      length-append a.payload (padding n),
      length-replicate {A = ℕ} (pad4 n - n) 0,
    )

-- Everything that is written to the wire is aligned to 32 bits.
pub encode_avps_aligned : (avps : List Avp) → length (encode_avps avps) % 4 ≡ 0
unfolding encode_avps
encode_avps_aligned [] = refl
encode_avps_aligned (a ∷ avps) = omega (
  arith,
  length-append (encode_avp a) (encode_avps avps),
  length-encode_avp a,
  pad4_bounds (header_size a + length a.payload),
  encode_avps_aligned avps,
)
