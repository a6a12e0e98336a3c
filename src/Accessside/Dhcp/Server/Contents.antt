-- ===== src/Accessside/Dhcp/Server/Contents.antt =====
-- What is in the frames that the DHCP server builds, and the sizes of what it reads.
use vectorcore_twag.Base.{
  ℕ, ◌+◌, ◌*◌, ◌^◌, ◌<◌, ◌≤◌, ◌≡◌, ◌≢◌, ◌||◌, ◌!=◌, refl, Bool, false, List, [], ◌∷◌, none, some,
  All, arith, ltb, ◌==◌, if◌then◌else◌, length, length-append, length-drop, drop, bit_and, All-drop,
  subst, ltb→le, ◌∙◌, ap, sym,
}
use vectorcore_twag.Base.Bytes.{slice, Bytes, IsByte, at, read16, read32, read32-lt, put32}
use vectorcore_twag.Base.Map.{nat_eq, text_eq}
use vectorcore_twag.Base.Net.{is_nil, Ip, IsV4, to4, to4-four, ipv4}
use vectorcore_twag.Base.Text.{Text}
use vectorcore_twag.Session.States.{same}
use vectorcore_twag.Accessside.Frames.{first_ip, ether_type_ipv4}
use vectorcore_twag.Accessside.Arp.Replies.{length-slice}
use vectorcore_twag.Accessside.Dhcp.{
  DhcpConfig, DhcpPacket, DhcpOption, parse_dhcp_frame, parse_options, sized, opt_message_type,
  opt_subnet_mask, opt_router, opt_lease_time, opt_server_identifier, opt_renewal_time,
  opt_rebinding_time, encode_options, boot_request, magic_cookie,
}
use vectorcore_twag.Accessside.Dhcp.Options.{IsOption}
use vectorcore_twag.Accessside.Dhcp.Frame.{read_reply, reply_to, build_dhcp_frame_lem}
use vectorcore_twag.Accessside.Dhcp.Server.{
  DhcpServer, build_reply, build_nak, reply_options, nak_options, ip_list_bytes,
}

-- A value that comes out of guards has passed each of them.
guards_passed :
    (c1 c2 c3 c4 c5 c6 : Bool) (r p : DhcpPacket)
    → (if c1
        then none
        else if c2
        then none
        else if c3
        then none
        else if c4
        then none
        else if c5
        then none
        else if c6
        then none
        else some r)
      ≡ some p
    → (c4 ≡ false) × (r ≡ p)
guards_passed c1 c2 c3 c4 c5 c6 r p e = ground arith

-- The payload of the UDP packet in a frame.
abbrev payload_of : Bytes → Bytes
payload_of frame = let ip = drop 14 frame in drop 8 (drop (bit_and (at ip 0) 0x0f * 4) ip)

-- Where the client's fields come from.
parse_dhcp_frame_fields :
    (frame : Bytes) (p : DhcpPacket)
    → parse_dhcp_frame frame ≡ some p
    → let d = payload_of frame in
      (240 ≤ length d)
      × (slice d 28 34 ≡ p.client_mac)
      × (slice d 12 16 ≡ p.client_ip)
      × (read32 d 4 ≡ p.xid)
unfolding parse_dhcp_frame
parse_dhcp_frame_fields frame p e =
    let ip = drop 14 frame in
    let ihl = bit_and (at ip 0) 0x0f * 4 in
    let udp = drop ihl ip in
    let d = drop 8 udp in
    let opts = parse_options (drop 240 d) in
    let kind = at (sized opts opt_message_type 1) 0 in
    let (c4, same) =
      guards_passed (ltb (length frame) (14 + 20 + 8 + 240) || read16 frame 12 != ether_type_ipv4)
        (ltb (length ip) (ihl + 8 + 240) || at ip 9 != 17) (read16 udp 2 != 67)
        (ltb (length d) 240 || (at d 0 != boot_request || (at d 1 != 1 || at d 2 != 6)))
        (read32 d 236 != magic_cookie) (kind == 0) _ p e in
    (
      ltb→le (length d) 240 (ground arith),
      ap (λ (q : DhcpPacket). q.client_mac) same,
      ap (λ (q : DhcpPacket). q.client_ip) same,
      ap (λ (q : DhcpPacket). q.xid) same,
    )

-- The client's fields have their sizes; its own address is there, if only as zeros.
pub parse_dhcp_frame_sizes :
    (frame : Bytes) (p : DhcpPacket)
    → All IsByte frame
    → parse_dhcp_frame frame ≡ some p
    → (length p.client_mac ≡ 6) × (p.xid < 2 ^ 32)
parse_dhcp_frame_sizes frame p h e =
    let d = payload_of frame in
    let ip = drop 14 frame in
    let ihl = bit_and (at ip 0) 0x0f * 4 in
    let (long, mac, own, xid) = parse_dhcp_frame_fields frame p e in
    let whole : All IsByte d =
      All-drop IsByte 8 (drop ihl ip) (All-drop IsByte ihl ip (All-drop IsByte 14 frame h)) in
    (
      rw (← mac) (length-slice d 28 34 (omega arith) (omega (arith, long))),
      rw (← xid) (read32-lt d 4 whole),
    )

parse_dhcp_frame_client_ip :
    (frame : Bytes) (p : DhcpPacket) → parse_dhcp_frame frame ≡ some p → length p.client_ip ≡ 4
parse_dhcp_frame_client_ip frame p e =
    let (long, mac, own, xid) = parse_dhcp_frame_fields frame p e in
    rw (← own) (length-slice (payload_of frame) 12 16 (omega arith) (omega (arith, long)))

-- So the address that a frame asks for is never nil.
pub parse_dhcp_frame_asks :
    (frame : Bytes) (p : DhcpPacket)
    → parse_dhcp_frame frame ≡ some p
    → is_nil (first_ip p.requested_ip p.client_ip) ≡ false
parse_dhcp_frame_asks frame p e =
    never_nil p.requested_ip p.client_ip (parse_dhcp_frame_client_ip frame p e)
  where
    never_nil : (a b : Ip) → length b ≡ 4 → is_nil (first_ip a b) ≡ false
    never_nil [] [] h = absurd (omega (arith, h))
    never_nil [] (x ∷ b) h = refl
    never_nil (x ∷ a) b h = refl

length-encode_options :
    (opts : List DhcpOption) → All IsOption opts → length (encode_options opts) ≤ 257 * length opts
unfolding encode_options
length-encode_options [] h = omega arith
length-encode_options (opt ∷ opts) h = ground (
  arith,
  length-encode_options opts h.1,
  length-append opt.value (encode_options opts),
  h.0.short,
)

-- A configuration that can serve: the server's identifier is an IPv4 address, the others are where
-- they can be read, and the DNS servers fit one option.
pub record IsServing (parse_ip : Text → Ip) (cfg : DhcpConfig) : Type 0 where
  pub identifier : IsV4 (to4 (parse_ip cfg.server_identifier))
  pub dns_fits : length (ip_list_bytes parse_ip cfg.dns) < 256

length-to4 : (ip : Ip) → length (to4 ip) ≤ 4
unfolding to4
length-to4 ip = ground (arith, length-drop 12 ip)

module _ (parse_ip : Text → Ip) (cfg : DhcpConfig) (s : DhcpServer)
    (serving : IsServing parse_ip cfg) (six : length s.iface_mac ≡ 6) where
  reply_options-IsOption : (t : ℕ) → All IsOption (reply_options parse_ip cfg t)
  unfolding reply_options
  reply_options-IsOption t =
      let of_ip : (code : ℕ) (ip : Ip)
          → code ≢ 0
          → code ≢ 255
          → IsOption record { code = code; value = to4 ip } =
        λ code ip h k. record { not_pad = h; not_end = k; short = omega (arith, length-to4 ip) } in
      let of_number : (code n : ℕ)
          → code ≢ 0
          → code ≢ 255
          → IsOption record { code = code; value = put32 n } =
        λ code n h k. record { not_pad = h; not_end = k; short = omega arith } in
      (
        record { not_pad = omega arith; not_end = omega arith; short = omega arith },
        (
          of_ip opt_subnet_mask (parse_ip cfg.netmask) (omega arith) (omega arith),
          (
            of_ip opt_router (parse_ip cfg.router) (omega arith) (omega arith),
            (
              record { not_pad = omega arith; not_end = omega arith; short = serving.dns_fits },
              (
                of_number opt_lease_time cfg.lease_time_seconds (omega arith) (omega arith),
                (
                  of_ip opt_server_identifier (parse_ip cfg.server_identifier) (omega arith)
                      (omega arith),
                  (
                    of_number opt_renewal_time cfg.renewal_time_seconds (omega arith) (omega arith),
                    (
                      of_number opt_rebinding_time cfg.rebinding_time_seconds (omega arith)
                          (omega arith),
                      tt,
                    ),
                  ),
                ),
              ),
            ),
          ),
        ),
      )

  nak_options-IsOption : All IsOption (nak_options parse_ip cfg)
  unfolding nak_options
  nak_options-IsOption = (
    record { not_pad = omega arith; not_end = omega arith; short = omega arith },
    (
      record {
        not_pad = omega arith;
        not_end = omega arith;
        short = omega (arith, length-to4 (parse_ip cfg.server_identifier));
      },
      tt,
    ),
  )

  broadcast-IsV4 : IsV4 (to4 (ipv4 255 255 255 255))
  unfolding to4
  broadcast-IsV4 = record {
    four = refl;
    in_bytes = (omega arith, (omega arith, (omega arith, (omega arith, tt))));
  }

  zero-IsV4 : IsV4 (to4 (ipv4 0 0 0 0))
  unfolding to4
  zero-IsV4 = record {
    four = refl;
    in_bytes = (omega arith, (omega arith, (omega arith, (omega arith, tt))));
  }

  length-reply_options : (t : ℕ) → length (reply_options parse_ip cfg t) ≡ 8
  unfolding reply_options
  length-reply_options t = refl

  reply_options_short : (t : ℕ) → length (encode_options (reply_options parse_ip cfg t)) < 65000
  reply_options_short t = omega (
    arith,
    length-encode_options (reply_options parse_ip cfg t) (reply_options-IsOption t),
    length-reply_options t,
  )

  length-nak_options : length (nak_options parse_ip cfg) ≡ 2
  unfolding nak_options
  length-nak_options = refl

  nak_options_short : length (encode_options (nak_options parse_ip cfg)) < 65000
  nak_options_short = omega (
    arith,
    length-encode_options (nak_options parse_ip cfg) nak_options-IsOption,
    length-nak_options,
  )

  pub build_reply_lem :
      (p : DhcpPacket) (ip : Ip) (t : ℕ)
      → length p.client_mac ≡ 6
      → p.xid < 2 ^ 32
      → IsV4 (to4 ip)
      → read_reply (build_reply parse_ip cfg s p ip t)
        ≡ reply_to p s.iface_mac
            (to4 (parse_ip cfg.server_identifier))
            (to4 ip)
            (to4 (ipv4 255 255 255 255))
            (reply_options parse_ip cfg t)
  unfolding build_reply
  build_reply_lem p ip t m x v =
      let again : to4 (to4 ip) ≡ to4 ip = to4-four (to4 ip) v.four in
      build_dhcp_frame_lem p s.iface_mac (parse_ip cfg.server_identifier) (to4 ip)
        (ipv4 255 255 255 255) (reply_options parse_ip cfg t) m six serving.identifier
        (subst IsV4 (sym again) v) broadcast-IsV4 (reply_options-IsOption t) x
        (reply_options_short t)
      ∙ ap
          (λ your.
            reply_to p s.iface_mac (to4 (parse_ip cfg.server_identifier)) your
              (to4 (ipv4 255 255 255 255)) (reply_options parse_ip cfg t))
          again

  pub build_nak_lem :
      (p : DhcpPacket)
      → length p.client_mac ≡ 6
      → p.xid < 2 ^ 32
      → read_reply (build_nak parse_ip cfg s p)
        ≡ reply_to p s.iface_mac
            (to4 (parse_ip cfg.server_identifier))
            (to4 (ipv4 0 0 0 0))
            (to4 (ipv4 255 255 255 255))
            (nak_options parse_ip cfg)
  unfolding build_nak
  build_nak_lem p m x =
      build_dhcp_frame_lem p s.iface_mac (parse_ip cfg.server_identifier) (ipv4 0 0 0 0)
        (ipv4 255 255 255 255) (nak_options parse_ip cfg) m six serving.identifier zero-IsV4
        broadcast-IsV4 nak_options-IsOption x nak_options_short
