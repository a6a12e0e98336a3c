-- ===== src/Tests/Accessside.antt =====
-- The DHCP server and the ARP proxy on concrete frames.
use vectorcore_twag.Session.States.{same}
use vectorcore_twag.Base.Map.{lookup}
use vectorcore_twag.Base.{
  ℕ, ◌+◌, ◌≤◌, ◌≡◌, ◌⊎◌, refl, Bool, true, some, List, [], ◌∷◌, ◌++◌, arith, replicate, ltb, ◌&&◌,
}
use vectorcore_twag.Base.Bytes.{Bytes}
use vectorcore_twag.Base.Map.{insert, text_eq}
use vectorcore_twag.Base.Net.{Ip, to4, ip_equal}
use vectorcore_twag.Base.Text.{Text, text}
use vectorcore_twag.Session.Types.{Session, active}
use vectorcore_twag.Session.Mac.{mac_string}
use vectorcore_twag.Session.Manager.{Manager}
use vectorcore_twag.Session.Recovery.{Recovery, new_recovery}
use vectorcore_twag.Tests.Session.{blank_session}
use vectorcore_twag.Tests.Recovery.{blank_tombstone}
use vectorcore_twag.Accessside.Arp.{ArpProxyConfig, ArpRequest, parse_arp_request}
use vectorcore_twag.Accessside.Arp as Arp
use vectorcore_twag.Accessside.Arp.Replies.{read_packet, answer_to, MayAsk, handle_frame-answers}
use vectorcore_twag.Accessside.Dhcp.{
  DhcpConfig, DhcpPacket, DhcpOption, parse_dhcp_frame, parse_options, encode_options, opt_end,
}
use vectorcore_twag.Accessside.Dhcp.Options.{collected, parse_options-encode_options}
use vectorcore_twag.Accessside.Dhcp.Server.{DhcpServer, handle_frame, attempt}
use vectorcore_twag.Accessside.Dhcp.Server.Leases.{
  MayLease, lease_of, handle_frame-leases, attempts, attempt_paced,
}

-- net.ParseIP on the texts of the configuration: the four bytes of the gateway, or nil.
abbrev parse_ip : Text → Ip
parse_ip [] = []
parse_ip (c ∷ s) = 100 ∷ 64 ∷ 0 ∷ 1 ∷ []

abbrev phone_mac : Bytes
phone_mac = 0xf0 ∷ 0x5c ∷ 0x77 ∷ 0xe8 ∷ 0x72 ∷ 0x9e ∷ []

abbrev iface : Bytes
iface = 2 ∷ 0 ∷ 0 ∷ 0 ∷ 0 ∷ 1 ∷ []

abbrev address : Ip
address = 100 ∷ 64 ∷ 0 ∷ 204 ∷ []

abbrev phone : Session
phone = record blank_session {
  id = text "twag-1-1";
  imsi = text "1";
  mac_address = text "f0:5c:77:e8:72:9e";
  subscriber_ip = address;
  state = active;
}

abbrev sessions : Manager
sessions = record {
  next = 1;
  store = λ p. phone;
  by_id = (text "twag-1-1", 0) ∷ [];
  by_imsi = (text "1", 0) ∷ [];
  by_mac = (text "f0:5c:77:e8:72:9e", 0) ∷ [];
  by_ip = (address, 0) ∷ [];
  by_teid = [];
}

abbrev recovery : Recovery
recovery = new_recovery (λ p. blank_tombstone)

-- Who has 100.64.0.1? Tell 100.64.0.204.
abbrev arp_frame : Bytes
arp_frame =
    (0xff ∷ 0xff ∷ 0xff ∷ 0xff ∷ 0xff ∷ 0xff ∷ [])
    ++ (phone_mac
        ++ ((8 ∷ 6 ∷ 0 ∷ 1 ∷ 8 ∷ 0 ∷ 6 ∷ 4 ∷ 0 ∷ 1 ∷ [])
            ++ (phone_mac
                ++ (address ++ ((0 ∷ 0 ∷ 0 ∷ 0 ∷ 0 ∷ 0 ∷ []) ++ (100 ∷ 64 ∷ 0 ∷ 1 ∷ []))))))

abbrev arp_config : ArpProxyConfig
arp_config = record { gateway_ip = text "100.64.0.1"; require_authorized_session = true }

abbrev arp_reply : Bytes
arp_reply =
    phone_mac
    ++ (iface
        ++ ((8 ∷ 6 ∷ 0 ∷ 1 ∷ 8 ∷ 0 ∷ 6 ∷ 4 ∷ 0 ∷ 2 ∷ [])
            ++ (iface ++ ((100 ∷ 64 ∷ 0 ∷ 1 ∷ []) ++ (phone_mac ++ address)))))

handle_frame-answers_example :
    (req : ArpRequest) × (parse_arp_request arp_frame ≡ some req)
    × (ip_equal req.target_ip (to4 (parse_ip arp_config.gateway_ip)) ≡ true)
    × MayAsk arp_config sessions req
    × (read_packet arp_reply ≡ answer_to req iface (to4 (parse_ip arp_config.gateway_ip)))
    × (recovery ≡ recovery)
unfolding Arp.handle_frame to4 ip_equal Arp.authorized_session lookup mac_string same
    Arp.build_arp_reply
handle_frame-answers_example =
    handle_frame-answers parse_ip arp_config iface sessions recovery recovery 1 arp_frame arp_reply
      refl refl refl

abbrev config : DhcpConfig
config = record {
  require_authorized_session = true;
  recover_from_auth_cache = true;
  lease_time_seconds = 600;
  renewal_time_seconds = 300;
  rebinding_time_seconds = 525;
  netmask = [];
  router = text "100.64.0.1";
  server_identifier = text "100.64.0.1";
  dns = text "100.64.0.1" ∷ [];
  stale_request_action = text "nak";
}

abbrev server : DhcpServer
server = record {
  iface_mac = iface;
  leases = [];
  recovery_attempts = [];
  has_recovery_handler = true;
  has_auth_cache_handler = true;
}

-- A message of a type that names an address that ends in `last`.
abbrev client_frame : ℕ → ℕ → Bytes
client_frame kind last =
    (0xff ∷ 0xff ∷ 0xff ∷ 0xff ∷ 0xff ∷ 0xff ∷ [])
    ++ (phone_mac
        ++ ((8 ∷ 0 ∷ 0x45 ∷ [])
            ++ (replicate 8 0
                ++ ((17 ∷ [])
                    ++ (replicate 12 0
                        ++ ((0 ∷ 67 ∷ 0 ∷ 0 ∷ 0 ∷ 0 ∷ 1 ∷ 1 ∷ 6 ∷ 0 ∷ 0 ∷ 0 ∷ 0x10 ∷ 3 ∷ [])
                            ++ (replicate 20 0
                                ++ (phone_mac
                                    ++ (replicate 202 0
                                        ++ (99 ∷ 130 ∷ 83 ∷ 99 ∷ 53 ∷ 1 ∷ kind ∷ 50 ∷ 4 ∷ 100 ∷ 64
                                            ∷ 0 ∷ last ∷ 255 ∷ []))))))))))

abbrev request_frame : ℕ → Bytes
request_frame = client_frame 3

abbrev client_packet : ℕ → ℕ → DhcpPacket
client_packet kind last = record {
  xid = 0x1003;
  client_mac = phone_mac;
  client_ip = 0 ∷ 0 ∷ 0 ∷ 0 ∷ [];
  requested_ip = 100 ∷ 64 ∷ 0 ∷ last ∷ [];
  server_identifier = [];
  message_type = kind;
}

abbrev request : ℕ → DhcpPacket
request = client_packet 3

abbrev below_256 : Bytes → Bool
below_256 [] = true
below_256 (x ∷ b) = ltb x 256 && below_256 b

handle_frame-leases_example :
    let after =
      (handle_frame parse_ip config server sessions recovery 1 (request_frame 204)).server.leases in
    (after ≡ server.leases)
    ⊎ ((p : DhcpPacket) × (sess : Session) × (parse_dhcp_frame (request_frame 204) ≡ some p)
        × MayLease sessions p sess
        × (after ≡ insert (mac_string p.client_mac) (lease_of config 1 sess) server.leases))
handle_frame-leases_example =
    handle_frame-leases parse_ip config server sessions recovery 1 (request_frame 204) refl

abbrev first_try : DhcpServer
first_try = (attempt server (text "a") 5 1).1

attempt_paced_example : 1 + 5 ≤ 7
unfolding attempt lookup attempts insert
attempt_paced_example =
    attempt_paced server (text "a") 5 1 7 ((text "b", 5, 2) ∷ (text "a", 5, 3) ∷ []) 5 refl
      (omega arith) (omega arith, (omega arith, tt)) (omega arith) refl

abbrev two_options : List DhcpOption
two_options =
    record { code = 53; value = 5 ∷ [] } ∷ record { code = 51; value = 0 ∷ 0 ∷ 2 ∷ 88 ∷ [] } ∷ []

parse_options-encode_options_example :
    parse_options (encode_options two_options ++ (opt_end ∷ 0 ∷ 0 ∷ [])) ≡ collected two_options []
parse_options-encode_options_example = parse_options-encode_options (0 ∷ 0 ∷ []) two_options (
  record { not_pad = omega arith; not_end = omega arith; short = omega arith },
  (record { not_pad = omega arith; not_end = omega arith; short = omega arith }, tt),
)
