-- ===== src/Gtp/Ie/Text/Digits.antt =====
-- Digits, labels and networks can be read back from the bytes that carry them.
use vectorcore_twag.Base.{
  ℕ, zero, suc, ◌+◌, ◌-◌, ◌/◌, ◌%◌, ◌≤◌, ◌<◌, ◌≡◌, ◌⊎◌, refl, ap, List, [], ◌∷◌, false, arith, leb,
  ◌==◌, if◌then◌else◌, length, take, drop, All, take-append, drop-append,
}
use vectorcore_twag.Base.Bytes.{Bytes, at}
use vectorcore_twag.Base.Bits.{or_nibbles}
use vectorcore_twag.Base.Text.{Text}
use vectorcore_twag.Gtp.Ie.Text.{digits_of, pack_digits, encode_tbcd, apn_payload, encode_plmn}

abbrev pub IsDigit : ℕ → Type 0
IsDigit d = d < 10

-- TBCD as 3GPP TS 29.002 reads it: the low half first, up to a filler.
pub unpack_digits : Bytes → List ℕ
unpack_digits [] = []
unpack_digits (b ∷ rest) =
    if leb 10 (b / 16) then (b % 16) ∷ [] else (b % 16) ∷ (b / 16) ∷ unpack_digits rest

digits_of-IsDigit : (value : Text) → All IsDigit (digits_of value)
unfolding digits_of
digits_of-IsDigit [] = tt
digits_of-IsDigit (r ∷ value) = ground (arith, digits_of-IsDigit value)

unpack-pack : (ds : List ℕ) → All IsDigit ds → unpack_digits (pack_digits ds) ≡ ds
unfolding unpack_digits pack_digits
unpack-pack [] h = refl
unpack-pack (lo ∷ []) h = ground (arith, or_nibbles lo 15)
unpack-pack (lo ∷ hi ∷ ds) h = ground (arith, or_nibbles lo hi, unpack-pack ds h.1.1)

length-pack : (ds : List ℕ) → length (pack_digits ds) ≡ (length ds + 1) / 2
unfolding pack_digits
length-pack [] = refl
length-pack (lo ∷ []) = refl
length-pack (lo ∷ hi ∷ ds) = omega (arith, length-pack ds)

-- The TBCD form of a text unpacks to the text's digits, anything else left out, and takes half a
-- byte for each digit, rounded up.
pub unpack-encode_tbcd :
    (value : Text)
    → (unpack_digits (encode_tbcd value) ≡ digits_of value)
      × (length (encode_tbcd value) ≡ (length (digits_of value) + 1) / 2)
unfolding encode_tbcd
unpack-encode_tbcd value =
    (unpack-pack (digits_of value) (digits_of-IsDigit value), length-pack (digits_of value))

-- The labels of an access point name as RFC 1035 reads them, with fuel for the number of labels.
pub read_labels : ℕ → Bytes → List Text
read_labels zero b = []
read_labels (suc fuel) [] = []
read_labels (suc fuel) (n ∷ b) = take n b ∷ read_labels fuel (drop n b)

pub non_empty : List Text → List Text
non_empty [] = []
non_empty (label ∷ labels) =
    if length label == 0 then non_empty labels else label ∷ non_empty labels

-- Labels of fewer than 256 bytes are read back from the payload of an APN element in order,
-- without the empty ones.
pub read-apn_payload :
    (labels : List Text) (fuel : ℕ)
    → All (λ label. length label < 256) labels
    → length labels ≤ fuel
    → read_labels fuel (apn_payload labels) ≡ non_empty labels
unfolding read_labels apn_payload non_empty
read-apn_payload [] zero h k = refl
read-apn_payload [] (suc fuel) h k = refl
read-apn_payload (label ∷ labels) zero h k = absurd (omega arith)
read-apn_payload ([] ∷ labels) (suc fuel) h k = read-apn_payload labels (suc fuel) h.1 (omega arith)
read-apn_payload ((c ∷ label) ∷ labels) (suc fuel) h k =
    let small : length (c ∷ label) % 256 ≡ length (c ∷ label) = omega arith in
    let some_label : (length (c ∷ label) == 0) ≡ false = ground arith in
    rw
      (
        some_label,
        small,
        take-append label (apn_payload labels),
        drop-append label (apn_payload labels),
      )
      (ap (◌∷◌ (c ∷ label)) (read-apn_payload labels fuel h.1 (omega arith)))

abbrev pub IsDigitText : Text → Type 0
IsDigitText = All (λ c. (b'0' ≤ c) × (c ≤ b'9'))

-- The digits of a network as 3GPP TS 24.008 lays them out; 0xf stands for no third MNC digit.
pub read_plmn : Bytes → List ℕ × List ℕ
read_plmn b = (
  (at b 0 % 16) ∷ (at b 0 / 16) ∷ (at b 1 % 16) ∷ [],
  (at b 2 % 16) ∷ (at b 2 / 16) ∷ (if at b 1 / 16 == 15 then [] else (at b 1 / 16) ∷ []),
)

plmn_two :
    (a b c d e : ℕ)
    → IsDigitText (a ∷ b ∷ c ∷ [])
    → IsDigitText (d ∷ e ∷ [])
    → read_plmn (encode_plmn (a ∷ b ∷ c ∷ []) (d ∷ e ∷ []))
      ≡ (digits_of (a ∷ b ∷ c ∷ []), digits_of (d ∷ e ∷ []))
unfolding read_plmn encode_plmn digits_of
plmn_two a b c d e h k = ground (
  arith,
  or_nibbles (a - b'0') (b - b'0'),
  or_nibbles (c - b'0') 15,
  or_nibbles (d - b'0') (e - b'0'),
)

plmn_three :
    (a b c d e f : ℕ)
    → IsDigitText (a ∷ b ∷ c ∷ [])
    → IsDigitText (d ∷ e ∷ f ∷ [])
    → read_plmn (encode_plmn (a ∷ b ∷ c ∷ []) (d ∷ e ∷ f ∷ []))
      ≡ (digits_of (a ∷ b ∷ c ∷ []), digits_of (d ∷ e ∷ f ∷ []))
unfolding read_plmn encode_plmn digits_of
plmn_three a b c d e f h k = ground (
  arith,
  or_nibbles (a - b'0') (b - b'0'),
  or_nibbles (c - b'0') (f - b'0'),
  or_nibbles (d - b'0') (e - b'0'),
)

-- A country code of three digits and a network code of two or three digits are read back from the
-- three bytes of encodePLMN, so that a code of two digits and one of three are told apart.
pub read-encode_plmn :
    (mcc mnc : Text)
    → IsDigitText mcc
    → IsDigitText mnc
    → length mcc ≡ 3
    → (length mnc ≡ 2) ⊎ (length mnc ≡ 3)
    → read_plmn (encode_plmn mcc mnc) ≡ (digits_of mcc, digits_of mnc)
read-encode_plmn (a ∷ b ∷ c ∷ []) (d ∷ e ∷ []) h k p q = plmn_two a b c d e h k
read-encode_plmn (a ∷ b ∷ c ∷ []) (d ∷ e ∷ f ∷ []) h k p q = plmn_three a b c d e f h k
read-encode_plmn (a ∷ b ∷ c ∷ []) [] h k p q = absurd (omega arith)
read-encode_plmn (a ∷ b ∷ c ∷ []) (d ∷ []) h k p q = absurd (omega arith)
read-encode_plmn (a ∷ b ∷ c ∷ []) (d ∷ e ∷ f ∷ g ∷ r) h k p q = absurd (omega arith)
read-encode_plmn [] mnc h k p q = absurd (omega arith)
read-encode_plmn (a ∷ []) mnc h k p q = absurd (omega arith)
read-encode_plmn (a ∷ b ∷ []) mnc h k p q = absurd (omega arith)
read-encode_plmn (a ∷ b ∷ c ∷ d ∷ r) mnc h k p q = absurd (omega arith)
