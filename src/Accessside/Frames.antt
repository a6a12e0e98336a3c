-- ===== src/Accessside/Frames.antt =====
-- internal/accessside/raw.go and manager.go: what the servers share on frames.
pub mod Sums
use vectorcore_twag.Base.{
  ℕ, zero, suc, ◌+◌, ◌-◌, ◌*◌, ◌/◌, ◌%◌, ◌^◌, ◌≡◌, ◌≤◌, ◌<◌, [], ◌∷◌, ◌++◌, ltb, leb, if◌then◌else◌,
  length, take, replicate, bit_and, length-append, length-take, length-replicate, arith, take_all,
  append-nil, refl, take-append, drop-append, drop, drop-add, ap, ◌∙◌,
}
use vectorcore_twag.Base.Bytes.{Bytes, at, slice}
use vectorcore_twag.Base.Net.{Ip, is_nil}

abbrev pub ether_type_ipv4 : ℕ
ether_type_ipv4 = 0x0800

abbrev pub ether_type_arp : ℕ
ether_type_arp = 0x0806

-- copy(b[i:i+n], src) where b[i:i+n] holds zeros: what the `n` bytes hold afterwards.
unfoldable pub fill : ℕ → Bytes → Bytes
fill n src = take n src ++ replicate (n - length src) 0

-- ethernetSrc
unfoldable pub ethernet_src : Bytes → Bytes
ethernet_src frame = if ltb (length frame) 12 then [] else slice frame 6 12

-- firstIP of two addresses.
abbrev pub first_ip : Ip → Ip → Ip
first_ip a b = if is_nil a then b else a

-- The words of checksum, added up; a last byte stands in the high half of its word.
unfoldable pub word_sum : Bytes → ℕ
word_sum [] = 0
word_sum (a ∷ []) = a * 2 ^ 8
word_sum (a ∷ b ∷ rest) = a * 256 + b + word_sum rest

-- The loop of checksum that adds the carries.
unfoldable pub fold_carries : ℕ → ℕ → ℕ
fold_carries zero sum = sum
fold_carries (suc fuel) sum =
    let on = fold_carries fuel (bit_and sum 0xffff + sum / 2 ^ 16) in
    if leb 1 (sum / 2 ^ 16) then on else sum

-- checksum; the sum is a uint32, and three rounds are enough for it.
unfoldable pub checksum : Bytes → ℕ
unfolding word_sum fold_carries
checksum b = 65535 - fold_carries 3 (word_sum b % 2 ^ 32) % 2 ^ 16

pub length-fill : (n : ℕ) (src : Bytes) → length (fill n src) ≡ n
unfolding fill
length-fill n src = omega (
  arith,
  length-append (take n src) (replicate (n - length src) 0),
  length-take n src,
  length-replicate {A = ℕ} (n - length src) 0,
)

pub fill_all : (n : ℕ) (src : Bytes) → length src ≡ n → fill n src ≡ src
unfolding fill
fill_all n src h =
    let whole : take n src ≡ src = take_all n src (omega arith) in
    let none_left : n - length src ≡ 0 = omega arith in rw (whole, none_left) (append-nil src)
