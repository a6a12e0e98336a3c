-- ===== src/Gtp/Ie/RoundTrip.antt =====
-- Lists of information elements: decoding reads back what encoding wrote, and always ends.
use vectorcore_twag.Base.{
  ℕ, zero, suc, ◌+◌, ◌-◌, ◌*◌, ◌/◌, ◌%◌, ◌^◌, ◌≤◌, ◌<◌, ◌≡◌, ◌≢◌, List, [], ◌∷◌, ◌++◌, ok, err,
  arith, length, drop, All, ◌∙◌, ap, bit_and, false, ltb, le→ltb, length-append, length-drop,
  append-nil, append_assoc, take-append, drop-append,
}
use vectorcore_twag.Base.Bytes.{Bytes, IsByte, at, slice, read16}
use vectorcore_twag.Base.Bits.{low_nibble}
use vectorcore_twag.Gtp.Ie.{
  Gtpv2Ie, out_of_fuel, encode_ie, encode_ies, decode_ies_loop, decode_ies,
}

pub record IsWellFormed (ie : Gtpv2Ie) : Type 0 where
  pub type_byte : IsByte ie.type
  pub instance_nibble : ie.instance_no < 16
  pub length_fits : length ie.payload < 2 ^ 16

-- One round of the loop on an element that stands at the front.
decode_round :
    (fuel t i l h : ℕ) (p rest : Bytes) (ies : List Gtpv2Ie)
    → i < 16
    → h * 256 + l ≡ length p
    → decode_ies_loop (suc fuel) ((t ∷ h ∷ l ∷ i ∷ p) ++ rest) ies
      ≡ decode_ies_loop fuel rest (ies ++ (record { type = t; instance_no = i; payload = p } ∷ []))
unfolding decode_ies_loop
decode_round fuel t i l h p rest ies hi hl =
    let four : 4 + length p ≡ suc (suc (suc (suc (length p)))) = omega arith in
    let back : suc (suc (suc (suc (length p)))) - 4 ≡ length p = omega arith in
    let b : Bytes = (t ∷ h ∷ l ∷ i ∷ p) ++ rest in
    let enough : ltb (length b) (4 + length p) ≡ false =
      le→ltb _ _ (omega (arith, length-append p rest)) in
    let header : ltb (length b) 4 ≡ false = le→ltb _ _ (omega arith) in
    let nibble : bit_and i 0x0f ≡ i = low_nibble i (omega arith) ∙ omega arith in
    rw (hl, header, enough, four, back, nibble, take-append p rest, drop-append p rest)

decode_one :
    (fuel : ℕ) (ie : Gtpv2Ie) (rest : Bytes) (ies : List Gtpv2Ie)
    → IsWellFormed ie
    → decode_ies_loop (suc fuel) (encode_ie ie ++ rest) ies
      ≡ decode_ies_loop fuel rest (ies ++ (ie ∷ []))
unfolding encode_ie
decode_one fuel ie rest ies w =
    let n = length ie.payload in
    let nibble : bit_and ie.instance_no 0x0f ≡ ie.instance_no =
      low_nibble ie.instance_no (omega arith) ∙ omega arith in
    rw nibble (
      decode_round fuel ie.type ie.instance_no (n % 256) (n / 256 % 256) ie.payload rest ies
        (omega arith) (omega arith))

decode_loop-encode :
    (fuel : ℕ) (ies done : List Gtpv2Ie)
    → All IsWellFormed ies
    → length ies ≤ fuel
    → decode_ies_loop fuel (encode_ies ies) done ≡ ok (done ++ ies)
unfolding encode_ies
decode_loop-encode fuel [] done w h = unfold decode_ies_loop in rw append-nil
decode_loop-encode zero (ie ∷ ies) done w h = absurd (omega arith)
decode_loop-encode (suc fuel) (ie ∷ ies) done w h =
    decode_one fuel ie (encode_ies ies) done w.0
    ∙ decode_loop-encode fuel ies (done ++ (ie ∷ [])) w.1 (omega arith)
    ∙ ap ok (append_assoc done (ie ∷ []) ies)

length-encode_ies : (ies : List Gtpv2Ie) → length ies ≤ length (encode_ies ies)
unfolding encode_ies encode_ie
length-encode_ies [] = omega arith
length-encode_ies (ie ∷ ies) =
    omega (arith, length-append ie.payload (encode_ies ies), length-encode_ies ies)

-- Any list of elements whose instances fit four bits and whose payloads fit 16 bits of length is
-- read back as it was, in order.
pub decode_ies-encode_ies :
    (ies : List Gtpv2Ie) → All IsWellFormed ies → decode_ies (encode_ies ies) ≡ ok ies
unfolding decode_ies
decode_ies-encode_ies ies w = decode_loop-encode _ ies [] w (length-encode_ies ies)

-- Enough fuel: a round leaves at least four bytes fewer.
decode_loop-ends :
    (fuel : ℕ) (b : Bytes) (done : List Gtpv2Ie)
    → length b ≤ fuel
    → decode_ies_loop fuel b done ≢ err out_of_fuel
unfolding decode_ies_loop
decode_loop-ends fuel [] done h = λ e. cc
decode_loop-ends zero (x ∷ b) done h = absurd (omega arith)
decode_loop-ends (suc fuel) (x ∷ b) done h =
    let l = read16 (x ∷ b) 1 in
    let n = length-drop (4 + l) (x ∷ b) in
    ground (
      arith,
      decode_loop-ends fuel (drop (4 + l) (x ∷ b)) (
          done
          ++ (record {
            type = x;
            instance_no = bit_and (at (x ∷ b) 3) 0x0f;
            payload = slice (x ∷ b) 4 (4 + l);
          }
              ∷ [])),
      n,
    )

-- decodeIEs ends on every input: with the list, or with one of its two errors.
pub decode_ies-ends : (b : Bytes) → decode_ies b ≢ err out_of_fuel
unfolding decode_ies
decode_ies-ends b = decode_loop-ends (length b) b [] (omega arith)
