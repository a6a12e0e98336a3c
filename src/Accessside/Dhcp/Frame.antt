-- ===== src/Accessside/Dhcp/Frame.antt =====
-- The frames of the DHCP server, read as RFC 791, 768 and 2131 lay them out.
use vectorcore_twag.Base.{
  ℕ, ◌+◌, ◌*◌, ◌^◌, ◌<◌, ◌≡◌, refl, true, false, List, [], ◌∷◌, ◌++◌, length, drop, All, arith,
  ◌==◌, length-append, replicate, subst, ==_iff, ◌∙◌,
}
use vectorcore_twag.Base.Bytes.{
  Bytes, IsByte, at, slice, read16, read32, put16, put32, read32_put32,
}
use vectorcore_twag.Base.Map.{Assoc}
use vectorcore_twag.Base.Net.{Ip, IsV4, is_nil, to4, to4-four, four_bytes}
use vectorcore_twag.Accessside.Frames.{fill, length-fill, checksum, word_sum}
use vectorcore_twag.Accessside.Frames.Sums.{checks}
use vectorcore_twag.Accessside.Arp.Replies.{six_bytes}
use vectorcore_twag.Accessside.Dhcp.{
  DhcpPacket, DhcpOption, parse_options, encode_options, dhcp_payload, ip_header, wrap_payload,
  build_dhcp_frame, opt_end, magic_cookie,
}
use vectorcore_twag.Accessside.Dhcp.Options.{IsOption, collected, parse_options-encode_options}

-- A frame of a server, field by field; `header_sum` is the checksum over the whole IPv4 header,
-- which is 0 where the header is sound.
pub record Reply : Type 0 where
  pub destination : Bytes
  pub source : Bytes
  pub ether_type : ℕ
  pub version : ℕ
  pub total_length : ℕ
  pub protocol : ℕ
  pub header_sum : ℕ
  pub source_ip : Ip
  pub destination_ip : Ip
  pub source_port : ℕ
  pub destination_port : ℕ
  pub udp_length : ℕ
  pub operation : ℕ
  pub xid : ℕ
  pub your_ip : Ip
  pub client_mac : Bytes
  pub cookie : ℕ
  pub options : Assoc ℕ Bytes

unfoldable pub read_reply : Bytes → Reply
read_reply frame = record {
  destination = slice frame 0 6;
  source = slice frame 6 12;
  ether_type = read16 frame 12;
  version = at frame 14;
  total_length = read16 frame 16;
  protocol = at frame 23;
  header_sum = checksum (slice frame 14 34);
  source_ip = slice frame 26 30;
  destination_ip = slice frame 30 34;
  source_port = read16 frame 34;
  destination_port = read16 frame 36;
  udp_length = read16 frame 38;
  operation = at frame 42;
  xid = read32 frame 46;
  your_ip = slice frame 58 62;
  client_mac = slice frame 70 76;
  cookie = read32 frame 278;
  options = parse_options (drop 282 frame);
}

module _ (ip_len s0 s1 s2 s3 d0 d1 d2 d3 : ℕ) where
  abbrev header_of : ℕ → Bytes
  header_of sum = ip_header ip_len sum (s0 ∷ s1 ∷ s2 ∷ s3 ∷ []) (d0 ∷ d1 ∷ d2 ∷ d3 ∷ [])

  -- The words of a header but the checksum.
  other_words : ℕ
  other_words =
      17664 + ip_len + 16401 + (s0 * 256 + s1) + (s2 * 256 + s3) + (d0 * 256 + d1) + (d2 * 256 + d3)

  header_words :
      (sum : ℕ) → ip_len < 2 ^ 16 → sum < 2 ^ 16 → word_sum (header_of sum) ≡ other_words + sum
  unfolding ip_header fill to4 word_sum other_words
  header_words sum h k = omega arith

  header_checks :
      ip_len < 2 ^ 16
      → All IsByte (s0 ∷ s1 ∷ s2 ∷ s3 ∷ [])
      → All IsByte (d0 ∷ d1 ∷ d2 ∷ d3 ∷ [])
      → checksum (header_of (checksum (header_of 0))) ≡ 0
  unfolding checksum other_words
  header_checks h s d =
      let zero_sum : word_sum (header_of 0) ≡ other_words =
        header_words 0 h (omega arith) ∙ omega arith in
      let low : checksum (header_of 0) < 2 ^ 16 = omega arith in
      let all_words : word_sum (header_of (checksum (header_of 0)))
          ≡ other_words + checksum (header_of 0) =
        header_words (checksum (header_of 0)) h low in
      rw (all_words, zero_sum) (checks other_words (omega arith) (omega arith))

-- The reply that a frame should read as.
abbrev pub reply_to : DhcpPacket → Bytes → Ip → Ip → Ip → List DhcpOption → Reply
reply_to req src_mac src_ip yiaddr dst_ip opts =
    let size = 240 + length (encode_options opts ++ (opt_end ∷ [])) in
    record {
      destination = req.client_mac;
      source = src_mac;
      ether_type = 0x0800;
      version = 0x45;
      total_length = 28 + size;
      protocol = 17;
      header_sum = 0;
      source_ip = src_ip;
      destination_ip = dst_ip;
      source_port = 67;
      destination_port = 68;
      udp_length = 8 + size;
      operation = 2;
      xid = req.xid;
      your_ip = yiaddr;
      client_mac = req.client_mac;
      cookie = magic_cookie;
      options = collected opts [];
    }

module _ (req : DhcpPacket) (opts : List DhcpOption) (size : ℕ) where
  laid_out :
      (m0 m1 m2 m3 m4 m5 i0 i1 i2 i3 i4 i5 s0 s1 s2 s3 y0 y1 y2 y3 d0 d1 d2 d3 : ℕ)
      → let mac = m0 ∷ m1 ∷ m2 ∷ m3 ∷ m4 ∷ m5 ∷ [] in
        let iface = i0 ∷ i1 ∷ i2 ∷ i3 ∷ i4 ∷ i5 ∷ [] in
        let src = s0 ∷ s1 ∷ s2 ∷ s3 ∷ [] in
        let your = y0 ∷ y1 ∷ y2 ∷ y3 ∷ [] in
        let dst = d0 ∷ d1 ∷ d2 ∷ d3 ∷ [] in
        let sum = checksum (header_of (20 + (8 + size)) s0 s1 s2 s3 d0 d1 d2 d3 0) in
        let payload = dhcp_payload (record req { client_mac = mac }) your opts in
        read_reply (wrap_payload mac iface src dst size payload) ≡ record {
          destination = mac;
          source = iface;
          ether_type = 0x0800;
          version = 0x45;
          total_length = read16 (put16 (20 + (8 + size))) 0;
          protocol = 17;
          header_sum = checksum (header_of (20 + (8 + size)) s0 s1 s2 s3 d0 d1 d2 d3 sum);
          source_ip = src;
          destination_ip = dst;
          source_port = 67;
          destination_port = 68;
          udp_length = read16 (put16 (8 + size)) 0;
          operation = 2;
          xid = read32 (put32 req.xid) 0;
          your_ip = your;
          client_mac = mac;
          cookie = magic_cookie;
          options = parse_options (encode_options opts ++ (opt_end ∷ []));
        }
  unfolding read_reply wrap_payload dhcp_payload ip_header fill to4
  laid_out m0 m1 m2 m3 m4 m5 i0 i1 i2 i3 i4 i5 s0 s1 s2 s3 y0 y1 y2 y3 d0 d1 d2 d3 = refl

  -- The same for addresses that have their sizes.
  laid_out_sized :
      (mac src_mac src your dst : Bytes)
      → length mac ≡ 6
      → length src_mac ≡ 6
      → IsV4 src
      → IsV4 your
      → IsV4 dst
      → All IsOption opts
      → req.xid < 2 ^ 32
      → 28 + size < 2 ^ 16
      → size ≡ 240 + length (encode_options opts ++ (opt_end ∷ []))
      → read_reply (
          wrap_payload mac src_mac src dst size
            (dhcp_payload (record req { client_mac = mac }) your opts))
        ≡ reply_to (record req { client_mac = mac }) src_mac src your dst opts
  laid_out_sized mac src_mac src your dst m i s y d o x h e =
      let tail = encode_options opts ++ (opt_end ∷ []) in
      let total : read16 (put16 (20 + (8 + size))) 0 ≡ 28 + (240 + length tail) = omega arith in
      let udp : read16 (put16 (8 + size)) 0 ≡ 8 + (240 + length tail) = omega arith in
      let id : read32 (put32 req.xid) 0 ≡ req.xid = read32_put32 req.xid x in
      let back = parse_options-encode_options [] opts o in
      let sound =
        header_checks (20 + (8 + size)) (at src 0) (at src 1) (at src 2) (at src 3) (at dst 0)
          (at dst 1) (at dst 2) (at dst 3) (omega arith)
          (subst (All IsByte) (four_bytes src s.four) s.in_bytes)
          (subst (All IsByte) (four_bytes dst d.four) d.in_bytes) in
      let raw =
        laid_out (at mac 0) (at mac 1) (at mac 2) (at mac 3) (at mac 4) (at mac 5) (at src_mac 0)
          (at src_mac 1) (at src_mac 2) (at src_mac 3) (at src_mac 4) (at src_mac 5) (at src 0)
          (at src 1) (at src 2) (at src 3) (at your 0) (at your 1) (at your 2) (at your 3)
          (at dst 0) (at dst 1) (at dst 2) (at dst 3) in
      rw
        (
          six_bytes mac m,
          six_bytes src_mac i,
          four_bytes src s.four,
          four_bytes your y.four,
          four_bytes dst d.four,
        )
        (raw ∙ rw (total, sound, udp, id, back) refl)

-- Four bytes stand for themselves.
dhcp_payload-to4 :
    (req : DhcpPacket) (your : Ip) (opts : List DhcpOption)
    → IsV4 (to4 your)
    → dhcp_payload req your opts ≡ dhcp_payload req (to4 your) opts
unfolding dhcp_payload
dhcp_payload-to4 req your opts y = rw (to4-four (to4 your) y.four) refl

wrap_payload-to4 :
    (mac src_mac : Bytes) (src dst : Ip) (size : ℕ) (payload : Bytes)
    → IsV4 (to4 src)
    → IsV4 (to4 dst)
    → wrap_payload mac src_mac src dst size payload
      ≡ wrap_payload mac src_mac (to4 src) (to4 dst) size payload
unfolding wrap_payload ip_header
wrap_payload-to4 mac src_mac src dst size payload s d =
    rw (to4-four (to4 src) s.four, to4-four (to4 dst) d.four) refl

length-fill_append : (n : ℕ) (src rest : Bytes) → length (fill n src ++ rest) ≡ n + length rest
length-fill_append n src rest = omega (arith, length-append (fill n src) rest, length-fill n src)

length-dhcp_payload :
    (req : DhcpPacket) (your : Ip) (opts : List DhcpOption)
    → length (dhcp_payload req your opts) ≡ 240 + length (encode_options opts ++ (opt_end ∷ []))
unfolding dhcp_payload
length-dhcp_payload req your opts =
    let end = put32 magic_cookie ++ (encode_options opts ++ (opt_end ∷ [])) in
    let after = fill 6 req.client_mac ++ (replicate 202 0 ++ end) in
    omega (
      arith,
      length-fill_append 4 (to4 your) (replicate 8 0 ++ after),
      length-fill_append 6 req.client_mac (replicate 202 0 ++ end),
    )

not_nil : (b : Bytes) → length b ≡ 4 → is_nil b ≡ false
not_nil [] h = absurd (omega arith)
not_nil (a ∷ b) h = refl

-- A frame that buildDHCPFrame makes, for hardware addresses of six bytes, addresses that are IPv4
-- ones, options whose codes are neither the pad nor the end and whose data is shorter than 256
-- bytes, a 32-bit `xid` and a frame that the 16-bit lengths count, reads as a reply from port 67 to
-- port 68 with those addresses, that `xid`, the magic cookie and those options, the lengths are those
-- of the frame, and the checksum over its IPv4 header is 0, as a receiver checks it.
pub build_dhcp_frame_lem :
    (req : DhcpPacket) (src_mac : Bytes) (src_ip your dst_ip : Ip) (opts : List DhcpOption)
    → length req.client_mac ≡ 6
    → length src_mac ≡ 6
    → IsV4 (to4 src_ip)
    → IsV4 (to4 your)
    → IsV4 (to4 dst_ip)
    → All IsOption opts
    → req.xid < 2 ^ 32
    → length (encode_options opts) < 65000
    → read_reply (build_dhcp_frame req src_mac src_ip your dst_ip opts)
      ≡ reply_to req src_mac (to4 src_ip) (to4 your) (to4 dst_ip) opts
unfolding build_dhcp_frame
build_dhcp_frame_lem req src_mac src_ip your dst_ip opts m i s y d o x h =
    let size = 240 + length (encode_options opts ++ (opt_end ∷ [])) in
    let six : (length src_mac == 6) ≡ true = (==_iff _ _).1 i in
    let four : is_nil (to4 src_ip) ≡ false = not_nil (to4 src_ip) s.four in
    let whole : 28 + size < 2 ^ 16 =
      omega (arith, length-append (encode_options opts) (opt_end ∷ [])) in
    rw
      (
        six,
        four,
        length-dhcp_payload req your opts,
        dhcp_payload-to4 req your opts y,
        wrap_payload-to4 req.client_mac src_mac src_ip dst_ip size _ s d,
      )
      (laid_out_sized req opts size req.client_mac src_mac (to4 src_ip) (to4 your) (to4 dst_ip) m i
        s y d o x whole refl)
