-- ===== src/Accessside/Arp/Replies.antt =====
-- The replies of the ARP proxy, read as RFC 826 lays a packet out.
use native.Mathlib.Decide.{dec_lt}
use vectorcore_twag.Base.{
  ℕ, ◌≡◌, ◌⊎◌, ◌-◌, drop, length-take, length-drop, ◌≤◌, inl, inr, refl, true, false, [], ◌∷◌, some,
  length, arith, Bool-cases, Option-cases,
}
use vectorcore_twag.Base.Bytes.{Bytes, at, slice, read16}
use vectorcore_twag.Base.Net.{Ip, is_nil, to4, ip_equal, ipv4, four_bytes}
use vectorcore_twag.Base.Text.{Text}
use vectorcore_twag.Session.Types.{Session, Time, active}
use vectorcore_twag.Session.States.{same→eq}
use vectorcore_twag.Session.Manager.{Manager}
use vectorcore_twag.Session.Operations.{lookup_by_mac_addr}
use vectorcore_twag.Session.Recovery.{Recovery}
use vectorcore_twag.Accessside.Frames.{fill}
use vectorcore_twag.Accessside.Arp.{
  ArpProxyConfig, ArpRequest, parse_arp_request, build_arp_reply, may_ask, authorized_session,
  handle_frame,
}

-- An Ethernet frame with an ARP packet for IPv4, field by field.
pub record Packet : Type 0 where
  pub destination : Bytes
  pub source : Bytes
  pub ether_type : ℕ
  pub hardware : ℕ
  pub protocol : ℕ
  pub operation : ℕ
  pub sender_mac : Bytes
  pub sender_ip : Ip
  pub target_mac : Bytes
  pub target_ip : Ip

unfoldable pub read_packet : Bytes → Packet
read_packet frame = record {
  destination = slice frame 0 6;
  source = slice frame 6 12;
  ether_type = read16 frame 12;
  hardware = read16 frame 14;
  protocol = read16 frame 16;
  operation = read16 frame 20;
  sender_mac = slice frame 22 28;
  sender_ip = slice frame 28 32;
  target_mac = slice frame 32 38;
  target_ip = slice frame 38 42;
}

pub six_bytes :
    (b : Bytes) → length b ≡ 6 → b ≡ at b 0 ∷ at b 1 ∷ at b 2 ∷ at b 3 ∷ at b 4 ∷ at b 5 ∷ []
six_bytes [] h = absurd (omega arith)
six_bytes (x0 ∷ []) h = absurd (omega arith)
six_bytes (x0 ∷ x1 ∷ []) h = absurd (omega arith)
six_bytes (x0 ∷ x1 ∷ x2 ∷ []) h = absurd (omega arith)
six_bytes (x0 ∷ x1 ∷ x2 ∷ x3 ∷ []) h = absurd (omega arith)
six_bytes (x0 ∷ x1 ∷ x2 ∷ x3 ∷ x4 ∷ []) h = absurd (omega arith)
six_bytes (x0 ∷ x1 ∷ x2 ∷ x3 ∷ x4 ∷ x5 ∷ []) h = refl
six_bytes (x0 ∷ x1 ∷ x2 ∷ x3 ∷ x4 ∷ x5 ∷ x6 ∷ r) h = absurd (omega arith)

-- The reply that says, to the sender of the request, that the gateway is at `iface_mac`.
abbrev pub answer_to : ArpRequest → Bytes → Ip → Packet
answer_to req iface_mac gateway = record {
  destination = req.sender_mac;
  source = iface_mac;
  ether_type = 0x0806;
  hardware = 1;
  protocol = 0x0800;
  operation = 2;
  sender_mac = iface_mac;
  sender_ip = gateway;
  target_mac = req.sender_mac;
  target_ip = req.sender_ip;
}

laid_out :
    (m0 m1 m2 m3 m4 m5 i0 i1 i2 i3 i4 i5 g0 g1 g2 g3 s0 s1 s2 s3 : ℕ) (target : Ip)
    → let sender = m0 ∷ m1 ∷ m2 ∷ m3 ∷ m4 ∷ m5 ∷ [] in
      let iface = i0 ∷ i1 ∷ i2 ∷ i3 ∷ i4 ∷ i5 ∷ [] in
      let gateway = g0 ∷ g1 ∷ g2 ∷ g3 ∷ [] in
      let req : ArpRequest = record {
        sender_mac = sender;
        sender_ip = s0 ∷ s1 ∷ s2 ∷ s3 ∷ [];
        target_ip = target;
      } in
      read_packet (build_arp_reply req iface gateway) ≡ answer_to req iface gateway
unfolding build_arp_reply read_packet fill to4
laid_out m0 m1 m2 m3 m4 m5 i0 i1 i2 i3 i4 i5 g0 g1 g2 g3 s0 s1 s2 s3 target = refl

-- The reply of a request whose addresses have their sizes says so.
build_arp_reply_lem :
    (req : ArpRequest) (iface_mac gateway : Bytes)
    → length req.sender_mac ≡ 6
    → length req.sender_ip ≡ 4
    → length iface_mac ≡ 6
    → length gateway ≡ 4
    → read_packet (build_arp_reply req iface_mac gateway) ≡ answer_to req iface_mac gateway
build_arp_reply_lem req iface_mac gateway h1 h2 h3 h4 =
    let m = req.sender_mac in
    let s = req.sender_ip in
    rw (six_bytes m h1, four_bytes s h2, six_bytes iface_mac h3, four_bytes gateway h4)
      (laid_out (at m 0) (at m 1) (at m 2) (at m 3) (at m 4) (at m 5) (at iface_mac 0)
        (at iface_mac 1) (at iface_mac 2) (at iface_mac 3) (at iface_mac 4) (at iface_mac 5)
        (at gateway 0) (at gateway 1) (at gateway 2) (at gateway 3) (at s 0) (at s 1) (at s 2)
        (at s 3) req.target_ip)

pub length-slice : (b : Bytes) (i j : ℕ) → i ≤ j → j ≤ length b → length (slice b i j) ≡ j - i
length-slice b i j h k = omega (arith, length-take (j - i) (drop i b), length-drop i b)

-- The addresses that a request carries have their sizes.
parse_arp_request_sizes :
    (frame : Bytes) (req : ArpRequest)
    → parse_arp_request frame ≡ some req
    → (length req.sender_mac ≡ 6) × (length req.sender_ip ≡ 4)
unfolding parse_arp_request
parse_arp_request_sizes frame req e =
    let arp = slice frame 14 42 in
    elim (dec_lt (length frame) 42) [
      | yes short ↦ absurd (ground arith)
      | no long ↦ ground (
        arith,
        length-slice arp 8 14 (omega arith) (omega (arith, length-slice frame 14 42)),
        length-slice arp 14 18 (omega arith) (omega (arith, length-slice frame 14 42)),
      )
    ]

pub to4_sizes : (ip : Ip) → is_nil (to4 ip) ≡ false → length (to4 ip) ≡ 4
unfolding to4
to4_sizes ip h = ground (arith, length-drop 12 ip)

-- Why the sender of a request gets an answer.
abbrev pub MayAsk : ArpProxyConfig → Manager → ArpRequest → Type 0
MayAsk cfg sessions req =
    (cfg.require_authorized_session ≡ false)
    ⊎ ((sess : Session) × (lookup_by_mac_addr sessions req.sender_mac ≡ some sess)
        × (sess.state ≡ active)
        × (is_nil sess.subscriber_ip ≡ false)
        × ((ip_equal req.sender_ip (ipv4 0 0 0 0) ≡ true)
            ⊎ (ip_equal req.sender_ip sess.subscriber_ip ≡ true)))

authorized_session_sound :
    (cfg : ArpProxyConfig) (sessions : Manager) (req : ArpRequest)
    → length req.sender_ip ≡ 4
    → authorized_session cfg sessions req.sender_mac req.sender_ip ≡ true
    → MayAsk cfg sessions req
unfolding authorized_session
authorized_session_sound cfg sessions req four e =
    elim (Bool-cases cfg.require_authorized_session) [
      | inl required ↦ elim (Option-cases (lookup_by_mac_addr sessions req.sender_mac)) [
        | inl absent ↦ absurd (ground arith)
        | inr (sess, found) ↦
            let asks : may_ask (some sess) req.sender_ip ≡ true = ground arith in
            inr (sess, found, same→eq sess.state active (ground arith), ground arith, ground arith)
      ]
      | inr free ↦ inl free
    ]

-- A reply of the ARP proxy, where the hardware address of the interface has six bytes, answers an ARP
-- request for the configured gateway: it goes to the sender of the request and says that the gateway
-- is at the interface's address. Where a session is required, the sender has an active session
-- with an address, and has asked from that address or from 0.0.0.0. The tombstones stay as they were.
pub handle_frame-answers :
    (parse_ip : Text → Ip) (cfg : ArpProxyConfig) (iface_mac : Bytes) (sessions : Manager)
    (recovery after : Recovery) (now : Time) (frame reply : Bytes)
    → length iface_mac ≡ 6
    → handle_frame parse_ip cfg iface_mac sessions recovery now frame ≡ (reply, after)
    → is_nil reply ≡ false
    → (req : ArpRequest) × (parse_arp_request frame ≡ some req)
      × (ip_equal req.target_ip (to4 (parse_ip cfg.gateway_ip)) ≡ true)
      × MayAsk cfg sessions req
      × (read_packet reply ≡ answer_to req iface_mac (to4 (parse_ip cfg.gateway_ip)))
      × (after ≡ recovery)
unfolding handle_frame
handle_frame-answers parse_ip cfg iface_mac sessions recovery after now frame reply six e
      some_reply =
    elim (Option-cases (parse_arp_request frame)) [
      | inl other ↦ absurd (ground arith)
      | inr (req, parsed) ↦
          let gateway = to4 (parse_ip cfg.gateway_ip) in
          let sizes = parse_arp_request_sizes frame req parsed in
          let four : is_nil gateway ≡ false = ground arith in
          let asks : authorized_session cfg sessions req.sender_mac req.sender_ip ≡ true =
            ground arith in
          let built : (build_arp_reply req iface_mac gateway ≡ reply) × (after ≡ recovery) =
            ground arith in
          (
            req,
            parsed,
            ground arith,
            authorized_session_sound cfg sessions req sizes.1 asks,
            rw (← built.0) (
                build_arp_reply_lem req iface_mac gateway sizes.0 sizes.1 six
                  (to4_sizes (parse_ip cfg.gateway_ip) four)),
            built.1,
          )
    ]
