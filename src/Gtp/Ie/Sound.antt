-- ===== src/Gtp/Ie/Sound.antt =====
-- What decodeIEs accepts is a list of well-formed elements that fills the payload exactly.
use vectorcore_twag.Base.{
  ℕ, zero, suc, ◌+◌, ◌-◌, ◌≤◌, ◌≡◌, refl, ◌∙◌, List, [], ◌∷◌, ◌++◌, ok, bit_and, arith, length,
  drop, All, length-append, length-drop, length-take, append-nil, append_assoc, All-drop,
}
use vectorcore_twag.Base.Bytes.{Bytes, IsByte, at, slice, read16, read16-lt, at-IsByte}
use vectorcore_twag.Base.Bits.{low_nibble}
use vectorcore_twag.Gtp.Ie.{Gtpv2Ie, encode_ie, encode_ies, decode_ies_loop, decode_ies}
use vectorcore_twag.Gtp.Ie.RoundTrip.{IsWellFormed}

-- The element at the front of `b`.
abbrev front : Bytes → Gtpv2Ie
front b = record {
  type = at b 0;
  instance_no = bit_and (at b 3) 0x0f;
  payload = slice b 4 (4 + read16 b 1);
}

round_sound :
    (fuel x : ℕ) (b : Bytes) (done out : List Gtpv2Ie)
    → decode_ies_loop (suc fuel) (x ∷ b) done ≡ ok out
    → (4 + read16 (x ∷ b) 1 ≤ length (x ∷ b))
      × (decode_ies_loop fuel (drop (4 + read16 (x ∷ b) 1) (x ∷ b)) (done ++ (front (x ∷ b) ∷ []))
          ≡ ok out)
unfolding decode_ies_loop
round_sound fuel x b done out e = ground arith

front-IsWellFormed :
    (b : Bytes)
    → All IsByte b
    → 4 + read16 b 1 ≤ length b
    → IsWellFormed (front b) × (length (encode_ie (front b)) ≡ 4 + read16 b 1)
unfolding encode_ie
front-IsWellFormed b bs h =
    let size : length (slice b 4 (4 + read16 b 1)) ≡ read16 b 1 =
      length-take (4 + read16 b 1 - 4) (drop 4 b) ∙ omega (arith, length-drop 4 b) in
    (
      record {
        type_byte = at-IsByte b 0 bs;
        instance_nibble = omega (arith, low_nibble (at b 3) (at-IsByte b 3 bs));
        length_fits = omega (arith, size, read16-lt b 1 bs);
      },
      omega (arith, size),
    )

length-encode_cons :
    (ie : Gtpv2Ie) (ies : List Gtpv2Ie)
    → length (encode_ies (ie ∷ ies)) ≡ length (encode_ie ie) + length (encode_ies ies)
unfolding encode_ies
length-encode_cons ie ies = length-append (encode_ie ie) (encode_ies ies)

-- What the loop adds to `done` for the rest `b`.
Adds : Bytes → List Gtpv2Ie → List Gtpv2Ie → Type 0
Adds b done out =
    (ies : List Gtpv2Ie) × (out ≡ done ++ ies)
    × All IsWellFormed ies
    × (length (encode_ies ies) ≡ length b)

decode_loop_sound :
    (fuel : ℕ) (b : Bytes) (done out : List Gtpv2Ie)
    → All IsByte b
    → decode_ies_loop fuel b done ≡ ok out
    → Adds b done out
unfolding Adds
decode_loop_sound fuel [] done out bs e =
    unfold decode_ies_loop encode_ies in ([], cc (append-nil done), tt, refl)
decode_loop_sound zero (x ∷ b) done out bs e = unfold decode_ies_loop in cc
decode_loop_sound (suc fuel) (x ∷ b) done out bs e =
    let l = read16 (x ∷ b) 1 in
    let (long, more) = round_sound fuel x b done out e in
    let (well, size) = front-IsWellFormed (x ∷ b) bs long in
    let (ies, split, wells, sizes) =
      decode_loop_sound fuel (drop (4 + l) (x ∷ b)) (done ++ (front (x ∷ b) ∷ [])) out
        (All-drop IsByte (4 + l) (x ∷ b) bs) more in
    (
      front (x ∷ b) ∷ ies,
      split ∙ append_assoc done (front (x ∷ b) ∷ []) ies,
      (well, wells),
      omega
          (arith, length-encode_cons (front (x ∷ b)) ies, size, sizes, length-drop (4 + l) (x ∷ b)),
    )

-- Every element that decodeIEs reads from bytes is well formed, and together the elements encode
-- to as many bytes as were read.
pub decode_ies_sound :
    (b : Bytes) (ies : List Gtpv2Ie)
    → All IsByte b
    → decode_ies b ≡ ok ies
    → All IsWellFormed ies × (length (encode_ies ies) ≡ length b)
unfolding decode_ies
decode_ies_sound b ies bs e =
    unfold Adds in
    let (out, same, wells, size) = decode_loop_sound (length b) b [] ies bs e in
    rw same (wells, size)
