-- ===== src/Accessside/Dhcp.antt =====
-- internal/accessside/dhcp.go: the DHCP server for sessions of subscribers. net.ParseIP is a
-- parameter, which gives the empty address where it reads none; a call of a recovery handler is an
-- effect; `now` is what time.Now gives, in nanoseconds.
pub mod Options
pub mod Frame
pub mod Server
use vectorcore_twag.Base.{
  ℕ, zero, suc, ◌+◌, ◌-◌, ◌*◌, ◌%◌, ◌^◌, Bool, true, false, not, ◌&&◌, ◌||◌, List, [], ◌∷◌, ◌++◌,
  Option, none, some, ltb, ◌==◌, ◌!=◌, if◌then◌else◌, length, replicate, drop, take, bit_and,
}
use vectorcore_twag.Base.Bytes.{Bytes, at, slice, read16, read32, put16, put32}
use vectorcore_twag.Base.Map.{Assoc, lookup, insert, delete, nat_eq, text_eq, text_beq}
use vectorcore_twag.Base.Net.{Ip, is_nil, to4, ip_equal, ipv4}
use vectorcore_twag.Base.Text.{Text, text}
use vectorcore_twag.Session.Types.{Session, Time, active}
use vectorcore_twag.Session.States.{same}
use vectorcore_twag.Session.Mac.{mac_string}
use vectorcore_twag.Session.Manager.{Manager}
use vectorcore_twag.Session.Operations.{lookup_by_mac_addr}
use vectorcore_twag.Session.Recovery.{Recovery, RecoveryTombstone, lookup_recovery_by_mac_addr}
use vectorcore_twag.Accessside.Frames.{ether_type_ipv4, fill, checksum, first_ip}

abbrev pub boot_request : ℕ
boot_request = 1

abbrev pub boot_reply : ℕ
boot_reply = 2

abbrev pub dhcp_discover : ℕ
dhcp_discover = 1

abbrev pub dhcp_offer : ℕ
dhcp_offer = 2

abbrev pub dhcp_request : ℕ
dhcp_request = 3

abbrev pub dhcp_ack : ℕ
dhcp_ack = 5

abbrev pub dhcp_nak : ℕ
dhcp_nak = 6

abbrev pub opt_subnet_mask : ℕ
opt_subnet_mask = 1

abbrev pub opt_router : ℕ
opt_router = 3

abbrev pub opt_dns_server : ℕ
opt_dns_server = 6

abbrev pub opt_requested_ip : ℕ
opt_requested_ip = 50

abbrev pub opt_lease_time : ℕ
opt_lease_time = 51

abbrev pub opt_message_type : ℕ
opt_message_type = 53

abbrev pub opt_server_identifier : ℕ
opt_server_identifier = 54

abbrev pub opt_renewal_time : ℕ
opt_renewal_time = 58

abbrev pub opt_rebinding_time : ℕ
opt_rebinding_time = 59

abbrev pub opt_end : ℕ
opt_end = 255

abbrev pub magic_cookie : ℕ
magic_cookie = 0x63825363

-- The settings of config.DHCPConfig that the server reads.
pub record DhcpConfig : Type 0 where
  pub require_authorized_session : Bool
  pub recover_from_auth_cache : Bool
  pub lease_time_seconds : ℕ
  pub renewal_time_seconds : ℕ
  pub rebinding_time_seconds : ℕ
  pub netmask : Text
  pub router : Text
  pub server_identifier : Text
  pub dns : List Text
  pub stale_request_action : Text

pub record Lease : Type 0 where
  pub session_id : Text
  pub imsi : Text
  pub subscriber_ip : Ip
  pub expires_at : Time

pub record DhcpPacket : Type 0 where
  pub xid : ℕ
  pub client_mac : Bytes
  pub client_ip : Ip
  pub requested_ip : Ip
  pub server_identifier : Ip
  pub message_type : ℕ

pub record DhcpOption : Type 0 where
  pub code : ℕ
  pub value : Bytes

-- parseOptions, with fuel for the bytes; `opts` is the map so far.
unfoldable pub options_loop : ℕ → Bytes → Assoc ℕ Bytes → Assoc ℕ Bytes
options_loop zero b opts = opts
options_loop (suc fuel) b opts =
    let code = at b 0 in
    let l = at b 1 in
    let past_pad = options_loop fuel (drop 1 b) opts in
    let past_option = options_loop fuel (drop (2 + l) b) (insert code (slice b 2 (2 + l)) opts) in
    if length b == 0 || code == opt_end
    then opts
    else if code == 0
    then past_pad
    else if ltb (length b) 2 || ltb (length b) (2 + l)
    then opts
    else past_option

unfoldable pub parse_options : Bytes → Assoc ℕ Bytes
unfolding options_loop
parse_options b = options_loop (length b) b []

abbrev or_empty : Option Bytes → Bytes
or_empty (some v) = v
or_empty none = []

-- opts[code], nil where it has not the length that is read.
abbrev pub sized : Assoc ℕ Bytes → ℕ → ℕ → Bytes
sized opts code n = let v = or_empty (lookup code opts) in if length v == n then v else []

-- parseDHCPFrame
unfoldable pub parse_dhcp_frame : Bytes → Option DhcpPacket
unfolding parse_options
parse_dhcp_frame frame =
    let ip = drop 14 frame in
    let ihl = bit_and (at ip 0) 0x0f * 4 in
    let udp = drop ihl ip in
    let d = drop 8 udp in
    let opts = parse_options (drop 240 d) in
    let message_type = at (sized opts opt_message_type 1) 0 in
    if ltb (length frame) (14 + 20 + 8 + 240) || read16 frame 12 != ether_type_ipv4
    then none
    else if ltb (length ip) (ihl + 8 + 240) || at ip 9 != 17
    then none
    else if read16 udp 2 != 67
    then none
    else if ltb (length d) 240 || (at d 0 != boot_request || (at d 1 != 1 || at d 2 != 6))
    then none
    else if read32 d 236 != magic_cookie
    then none
    else if message_type == 0
    then none
    else some record {
      xid = read32 d 4;
      client_mac = slice d 28 34;
      client_ip = slice d 12 16;
      requested_ip = sized opts opt_requested_ip 4;
      server_identifier = sized opts opt_server_identifier 4;
      message_type = message_type;
    }

-- The options of buildDHCPFrame; one without data is left out, and `byte(len)` wraps.
unfoldable pub encode_options : List DhcpOption → Bytes
encode_options [] = []
encode_options (opt ∷ opts) =
    let rest = encode_options opts in
    if length opt.value == 0
    then rest
    else (opt.code ∷ (length opt.value % 2 ^ 8) ∷ opt.value) ++ rest

-- The payload of buildDHCPFrame.
unfoldable pub dhcp_payload : DhcpPacket → Ip → List DhcpOption → Bytes
unfolding fill to4 encode_options
dhcp_payload req yiaddr opts =
    (boot_reply ∷ 1 ∷ 6 ∷ 0 ∷ [])
    ++ (put32 req.xid
        ++ (replicate 8 0
            ++ (fill 4 (to4 yiaddr)
                ++ (replicate 8 0
                    ++ (fill 6 req.client_mac
                        ++ (replicate 202 0
                            ++ (put32 magic_cookie ++ (encode_options opts ++ (opt_end ∷ [])))))))))

-- The IPv4 header of buildDHCPFrame around the sum that stands in it.
unfoldable pub ip_header : ℕ → ℕ → Ip → Ip → Bytes
unfolding fill to4
ip_header ip_len sum src_ip dst_ip =
    (0x45 ∷ 0 ∷ [])
    ++ (put16 ip_len
        ++ ((0 ∷ 0 ∷ 0 ∷ 0 ∷ 64 ∷ 17 ∷ [])
            ++ (put16 sum ++ (fill 4 (to4 src_ip) ++ fill 4 (to4 dst_ip)))))

-- The frame of buildDHCPFrame around a payload and its length.
unfoldable pub wrap_payload : Bytes → Bytes → Ip → Ip → ℕ → Bytes → Bytes
unfolding fill ip_header checksum
wrap_payload client_mac src_mac src_ip dst_ip payload_len payload =
    let udp_len = 8 + payload_len in
    let ip_len = 20 + udp_len in
    let sum = checksum (ip_header ip_len 0 src_ip dst_ip) in
    fill 6 client_mac
    ++ (src_mac
        ++ (put16 ether_type_ipv4
            ++ (ip_header ip_len sum src_ip dst_ip
                ++ (put16 67 ++ (put16 68 ++ (put16 udp_len ++ (put16 0 ++ payload)))))))

-- buildDHCPFrame
unfoldable pub build_dhcp_frame : DhcpPacket → Bytes → Ip → Ip → Ip → List DhcpOption → Bytes
unfolding dhcp_payload wrap_payload
build_dhcp_frame req src_mac src_ip yiaddr dst_ip opts =
    let src_mac = if length src_mac == 6 then src_mac else replicate 6 0 in
    let src_ip = if is_nil (to4 src_ip) then ipv4 0 0 0 0 else src_ip in
    let payload = dhcp_payload req yiaddr opts in
    wrap_payload req.client_mac src_mac src_ip dst_ip (length payload) payload
