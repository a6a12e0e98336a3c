-- ===== src/Base/Net.antt =====
-- What the program uses of Go's net.IP: a slice of 4 or 16 bytes, the empty one for nil.
use mathlib.Core.Path.{◌≡◌, refl}
use mathlib.Core.Bool.{Bool, true, false, ◌&&◌}
use mathlib.Core.List.{[], ◌∷◌, ◌++◌}
use native.Mathlib.Omega.{arith}
use Prim.Native.Nat.{ℕ}
use vectorcore_twag.Base.Tests.{◌==◌, if◌then◌else◌}
use vectorcore_twag.Base.Lists.{length, take, drop, All}
use vectorcore_twag.Base.Bytes.{Bytes, IsByte, at}
use vectorcore_twag.Base.Map.{text_beq}

abbrev pub Ip : Type 0
Ip = Bytes

-- A net.UDPAddr.
pub record UdpAddr : Type 0 where
  pub ip : Ip
  pub port : ℕ

abbrev pub is_nil : Ip → Bool
is_nil [] = true
is_nil (x ∷ ip) = false

abbrev pub v4_in_v6_prefix : Bytes
v4_in_v6_prefix = 0 ∷ 0 ∷ 0 ∷ 0 ∷ 0 ∷ 0 ∷ 0 ∷ 0 ∷ 0 ∷ 0 ∷ 0xff ∷ 0xff ∷ []

-- ip.To4()
unfoldable pub to4 : Ip → Ip
to4 ip =
    if length ip == 4
    then ip
    else if length ip == 16 && text_beq (take 12 ip) v4_in_v6_prefix
    then drop 12 ip
    else []

-- net.IPv4(a, b, c, d)
abbrev pub ipv4 : ℕ → ℕ → ℕ → ℕ → Ip
ipv4 a b c d = v4_in_v6_prefix ++ (a ∷ b ∷ c ∷ d ∷ [])

-- The text of an address as a key. `String` writes an IPv4 address in either form alike, and
-- otherwise has one text for each slice: the canonical slice stands for its text.
unfoldable pub ip_string : Ip → Bytes
ip_string ip = let v4 = to4 ip in if is_nil v4 then ip else v4

-- ip.Equal(x)
unfoldable pub ip_equal : Ip → Ip → Bool
ip_equal ip x =
    if length ip == length x
    then text_beq ip x
    else if length ip == 4 && length x == 16
    then text_beq (take 12 x) v4_in_v6_prefix && text_beq ip (drop 12 x)
    else if length ip == 16 && length x == 4
    then text_beq (take 12 ip) v4_in_v6_prefix && text_beq (drop 12 ip) x
    else false

-- A slice that an IPv4 address takes in the program: four bytes.
pub record IsV4 (ip : Ip) : Type 0 where
  pub four : length ip ≡ 4
  pub in_bytes : All IsByte ip

pub to4-four : (ip : Ip) → length ip ≡ 4 → to4 ip ≡ ip
unfolding to4
to4-four ip h = ground arith

pub to4-ipv4 : (a b c d : ℕ) → to4 (ipv4 a b c d) ≡ a ∷ b ∷ c ∷ d ∷ []
unfolding to4
to4-ipv4 a b c d = refl

-- ip.To16() of an IPv4 address.
abbrev pub to16 : Ip → Ip
to16 ip = v4_in_v6_prefix ++ to4 ip

pub four_bytes : (b : Bytes) → length b ≡ 4 → b ≡ at b 0 ∷ at b 1 ∷ at b 2 ∷ at b 3 ∷ []
four_bytes [] h = absurd (omega arith)
four_bytes (a ∷ []) h = absurd (omega arith)
four_bytes (a ∷ b ∷ []) h = absurd (omega arith)
four_bytes (a ∷ b ∷ c ∷ []) h = absurd (omega arith)
four_bytes (a ∷ b ∷ c ∷ d ∷ []) h = refl
four_bytes (a ∷ b ∷ c ∷ d ∷ e ∷ r) h = absurd (omega arith)
