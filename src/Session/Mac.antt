-- ===== src/Session/Mac.antt =====
-- What internal/session/manager.go uses of hardware addresses: net.ParseMAC, HardwareAddr.String and
-- strings.ToLower, as Go documents them, and the comparisons built on them.
use vectorcore_twag.Base.{
  ℕ, zero, suc, ◌+◌, ◌-◌, ◌*◌, ◌/◌, ◌%◌, Bool, false, ◌&&◌, ◌||◌, [], ◌∷◌, Option, none, some, leb,
  ltb, ◌==◌, ◌!=◌, if◌then◌else◌, length, drop,
}
use vectorcore_twag.Base.Bytes.{Bytes, at}
use vectorcore_twag.Base.Map.{text_beq}
use vectorcore_twag.Base.Text.{Text, to_lower}

-- The value of a hexadecimal digit.
unfoldable pub hex_digit : ℕ → Option ℕ
hex_digit c =
    if leb b'0' c && leb c b'9'
    then some (c - b'0')
    else if leb b'a' c && leb c b'f'
    then some (c - b'a' + 10)
    else if leb b'A' c && leb c b'F'
    then some (c - b'A' + 10)
    else none

abbrev pair_value : Option ℕ → Option ℕ → Option ℕ
pair_value (some a) (some b) = some (a * 16 + b)
pair_value (some a) none = none
pair_value none b = none

-- Two digits at the front of `s`, of which a third byte, where there is one, must be `sep`.
unfoldable pub hex_pair : Text → ℕ → Option ℕ
unfolding hex_digit
hex_pair s sep =
    if ltb 2 (length s) && at s 2 != sep
    then none
    else if ltb (length s) 2
    then none
    else pair_value (hex_digit (at s 0)) (hex_digit (at s 1))

abbrev push_byte : Option ℕ → Option Bytes → Option Bytes
push_byte (some b) (some rest) = some (b ∷ rest)
push_byte (some b) none = none
push_byte none rest = none

-- The loop of ParseMAC over `n` bytes that one separator stands between.
unfoldable pub parse_pairs : ℕ → Text → ℕ → Option Bytes
unfolding hex_pair
parse_pairs zero s sep = some []
parse_pairs (suc n) s sep = push_byte (hex_pair s sep) (parse_pairs n (drop 3 s) sep)

-- The loop over `n` groups of two bytes that a dot ends.
unfoldable pub parse_dotted : ℕ → Text → Option Bytes
unfolding hex_pair
parse_dotted zero s = some []
parse_dotted (suc n) s =
    push_byte (pair_value (hex_digit (at s 0)) (hex_digit (at s 1)))
      (push_byte (hex_pair (drop 2 s) b'.') (parse_dotted n (drop 5 s)))

abbrev is_mac_length : ℕ → Bool
is_mac_length n = n == 6 || n == 8 || n == 20

-- net.ParseMAC; `none` is an error.
unfoldable pub parse_mac : Text → Option Bytes
unfolding parse_pairs parse_dotted
parse_mac s =
    let n = (length s + 1) / 3 in
    let groups = (length s + 1) / 5 in
    if ltb (length s) 14
    then none
    else if at s 2 == b':' || at s 2 == b'-'
    then (if (length s + 1) % 3 == 0 && is_mac_length n then parse_pairs n s (at s 2) else none)
    else if at s 4 == b'.'
    then (if (length s + 1) % 5 == 0 && is_mac_length (2 * groups)
        then parse_dotted groups s
        else none)
    else none

unfoldable pub hex_char : ℕ → ℕ
hex_char d = if ltb d 10 then b'0' + d else b'a' + (d - 10)

-- hw.String()
unfoldable pub mac_string : Bytes → Text
unfolding hex_char
mac_string [] = []
mac_string (b ∷ []) = hex_char (b / 16) ∷ hex_char (b % 16) ∷ []
mac_string (b ∷ c ∷ hw) = hex_char (b / 16) ∷ hex_char (b % 16) ∷ b':' ∷ mac_string (c ∷ hw)

abbrev or_text : Text → Option Bytes → Text
or_text mac (some hw) = to_lower (mac_string hw)
or_text mac none = to_lower mac

-- normalizeMAC
unfoldable pub normalize_mac : Text → Text
unfolding parse_mac mac_string
normalize_mac mac = or_text mac (parse_mac mac)

-- macMatches
unfoldable pub mac_matches : Text → Text → Bool
unfolding normalize_mac
mac_matches a b =
    if length a == 0 || length b == 0 then false else text_beq (normalize_mac a) (normalize_mac b)

-- sameAPN; strings.EqualFold on ASCII names.
unfoldable pub same_apn : Text → Text → Bool
same_apn a b = text_beq (to_lower a) (to_lower b)
