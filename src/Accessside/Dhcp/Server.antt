-- ===== src/Accessside/Dhcp/Server.antt =====
-- internal/accessside/dhcp.go: what the DHCP server does with a frame.
pub mod Contents
pub mod Replies
pub mod Leases
use vectorcore_twag.Base.{
  ℕ, ◌+◌, ◌-◌, ◌*◌, Bool, true, false, not, ◌&&◌, ◌||◌, List, [], ◌∷◌, ◌++◌, Option, none, some,
  ltb, ◌==◌, if◌then◌else◌, length,
}
use vectorcore_twag.Base.Bytes.{Bytes, put32}
use vectorcore_twag.Base.Map.{Assoc, lookup, insert, delete, text_eq, text_beq}
use vectorcore_twag.Base.Net.{Ip, is_nil, to4, ip_equal, ipv4}
use vectorcore_twag.Base.Text.{Text, text}
use vectorcore_twag.Session.Types.{Session, Time, active}
use vectorcore_twag.Session.States.{same}
use vectorcore_twag.Session.Mac.{mac_string}
use vectorcore_twag.Session.Manager.{Manager}
use vectorcore_twag.Session.Operations.{lookup_by_mac_addr}
use vectorcore_twag.Session.Recovery.{Recovery, RecoveryTombstone, lookup_recovery_by_mac_addr}
use vectorcore_twag.Accessside.Frames.{first_ip}
use vectorcore_twag.Accessside.Dhcp.{
  DhcpConfig, DhcpPacket, DhcpOption, Lease, dhcp_discover, dhcp_offer, dhcp_request, dhcp_ack,
  dhcp_nak, opt_subnet_mask, opt_router, opt_dns_server, opt_lease_time, opt_message_type,
  opt_server_identifier, opt_renewal_time, opt_rebinding_time, build_dhcp_frame, parse_dhcp_frame,
}

-- DHCPServer's own state, and which handlers are set.
pub record DhcpServer : Type 0 where
  pub iface_mac : Bytes
  pub leases : Assoc Text Lease
  pub recovery_attempts : Assoc Text Time
  pub has_recovery_handler : Bool
  pub has_auth_cache_handler : Bool

-- The handlers that a frame starts.
pub data Effect : Type 0 where
  reattach : RecoveryTombstone → Effect
  recover_from_auth_cache : Text → Effect

-- RemoveSession of a session.
unfoldable pub remove_session : DhcpServer → Session → DhcpServer
remove_session s sess =
    if length sess.mac_address == 0
    then s
    else record s { leases = delete sess.mac_address s.leases }

abbrev pub second : ℕ
second = 1000000000

abbrev at_time : Option Time → Time
at_time (some t) = t
at_time none = 0

-- The test of recoveryAttempts under its mutex: whether an attempt may start, which it then notes.
unfoldable pub attempt : DhcpServer → Text → ℕ → Time → Bool × DhcpServer
attempt s key pause now =
    let last = at_time (lookup key s.recovery_attempts) in
    if not (last == 0) && ltb (now - last) pause
    then (false, s)
    else (true, record s { recovery_attempts = insert key now s.recovery_attempts })

abbrev pub started : Effect → Bool × DhcpServer → DhcpServer × List Effect
started e (true, s) = (s, e ∷ [])
started e (false, s) = (s, [])

-- triggerAuthCacheRecovery
unfoldable pub trigger_auth_cache_recovery :
    DhcpConfig → DhcpServer → Bytes → Time → DhcpServer × List Effect
unfolding attempt
trigger_auth_cache_recovery cfg s mac now =
    let key = text "auth-cache|" ++ mac_string mac in
    if not cfg.recover_from_auth_cache || (not s.has_auth_cache_handler || is_nil mac)
    then (s, [])
    else started (recover_from_auth_cache (mac_string mac)) (attempt s key (2 * second) now)

-- triggerRecoveryAttach
unfoldable pub trigger_recovery_attach :
    DhcpServer → RecoveryTombstone → Time → DhcpServer × List Effect
unfolding attempt
trigger_recovery_attach s tombstone now =
    let key =
      if length tombstone.old_session_id == 0 && not (is_nil tombstone.mac)
      then mac_string tombstone.mac
      else tombstone.old_session_id in
    if not s.has_recovery_handler
    then (s, [])
    else if length key == 0
    then (s, [])
    else started (reattach tombstone) (attempt s key (5 * second) now)

-- What the server reads of a session.
pub record Subscriber : Type 0 where
  pub session_id : Text
  pub imsi : Text
  pub subscriber_ip : Ip

abbrev pub subscriber_of : Option Session → Option Subscriber
subscriber_of none = none
subscriber_of (some sess) =
    if not (same sess.state active) || is_nil sess.subscriber_ip
    then none
    else some record { session_id = sess.id; imsi = sess.imsi; subscriber_ip = sess.subscriber_ip }

-- authorizedSession; the session of an unauthorized client goes to the log only.
unfoldable pub authorized_session : DhcpConfig → Manager → Bytes → Option Subscriber
unfolding lookup_by_mac_addr
authorized_session cfg sessions mac =
    if cfg.require_authorized_session
    then subscriber_of (lookup_by_mac_addr sessions mac)
    else some record { session_id = []; imsi = []; subscriber_ip = ipv4 0 0 0 0 }

-- What HandleFrame leaves behind.
pub record Outcome : Type 0 where
  -- Empty for no reply.
  pub reply : Bytes
  pub server : DhcpServer
  pub recovery : Recovery
  pub effects : List Effect

abbrev pub silent : Recovery → DhcpServer × List Effect → Outcome
silent recovery (s, effects) = record {
  reply = [];
  server = s;
  recovery = recovery;
  effects = effects;
}

abbrev pub replied : Recovery → DhcpServer → Bytes → Outcome
replied recovery s reply = record { reply = reply; server = s; recovery = recovery; effects = [] }

-- A Discover of a client without a session.
abbrev pub stale_discover :
    DhcpConfig → DhcpServer → DhcpPacket → Time → Option RecoveryTombstone × Recovery → Outcome
stale_discover cfg s p now (some tombstone, recovery) =
    silent recovery (trigger_recovery_attach s tombstone now)
stale_discover cfg s p now (none, recovery) =
    silent recovery (trigger_auth_cache_recovery cfg s p.client_mac now)

module _ (parse_ip : Text → Ip) where
  -- ipListBytes
  unfoldable pub ip_list_bytes : List Text → Bytes
  ip_list_bytes [] = []
  ip_list_bytes (value ∷ values) = to4 (parse_ip value) ++ ip_list_bytes values

  unfoldable pub reply_options : DhcpConfig → ℕ → List DhcpOption
  unfolding ip_list_bytes
  reply_options cfg msg_type =
      record { code = opt_message_type; value = msg_type ∷ [] }
      ∷ record { code = opt_subnet_mask; value = to4 (parse_ip cfg.netmask) }
      ∷ record { code = opt_router; value = to4 (parse_ip cfg.router) }
      ∷ record { code = opt_dns_server; value = ip_list_bytes cfg.dns }
      ∷ record { code = opt_lease_time; value = put32 cfg.lease_time_seconds }
      ∷ record { code = opt_server_identifier; value = to4 (parse_ip cfg.server_identifier) }
      ∷ record { code = opt_renewal_time; value = put32 cfg.renewal_time_seconds }
      ∷ record { code = opt_rebinding_time; value = put32 cfg.rebinding_time_seconds }
      ∷ []

  -- buildReply
  unfoldable pub build_reply : DhcpConfig → DhcpServer → DhcpPacket → Ip → ℕ → Bytes
  unfolding reply_options build_dhcp_frame
  build_reply cfg s req subscriber_ip msg_type =
      build_dhcp_frame req s.iface_mac (parse_ip cfg.server_identifier) (to4 subscriber_ip)
        (ipv4 255 255 255 255) (reply_options cfg msg_type)

  unfoldable pub nak_options : DhcpConfig → List DhcpOption
  nak_options cfg =
      record { code = opt_message_type; value = dhcp_nak ∷ [] }
      ∷ record { code = opt_server_identifier; value = to4 (parse_ip cfg.server_identifier) }
      ∷ []

  -- buildNAK
  unfoldable pub build_nak : DhcpConfig → DhcpServer → DhcpPacket → Bytes
  unfolding nak_options build_dhcp_frame
  build_nak cfg s req =
      build_dhcp_frame req s.iface_mac (parse_ip cfg.server_identifier) (ipv4 0 0 0 0)
        (ipv4 255 255 255 255) (nak_options cfg)

  -- A Request of a client without a session.
  abbrev pub stale_request :
      DhcpConfig → DhcpServer → DhcpPacket → Time → Option RecoveryTombstone × Recovery → Outcome
  stale_request cfg s p now (some tombstone, recovery) =
      if text_beq cfg.stale_request_action (text "nak")
      then replied recovery s (build_nak cfg s p)
      else replied recovery s []
  stale_request cfg s p now (none, recovery) =
      silent recovery (trigger_auth_cache_recovery cfg s p.client_mac now)

  -- A Request of a client with a session: a lease goes with the Ack.
  unfoldable pub grant_request :
      DhcpConfig → DhcpServer → Recovery → DhcpPacket → Time → Subscriber → Outcome
  unfolding build_reply build_nak
  grant_request cfg s recovery p now sub =
      let requested = first_ip p.requested_ip p.client_ip in
      let lease : Lease = record {
        session_id = sub.session_id;
        imsi = sub.imsi;
        subscriber_ip = sub.subscriber_ip;
        expires_at = now + cfg.lease_time_seconds * second;
      } in
      if not (is_nil requested) && not (ip_equal requested sub.subscriber_ip)
      then replied recovery s (build_nak cfg s p)
      else replied recovery (record s { leases = insert (mac_string p.client_mac) lease s.leases })
          (build_reply cfg s p sub.subscriber_ip dhcp_ack)

  abbrev pub answer_packet :
      DhcpConfig → DhcpServer → Recovery → Time → DhcpPacket → Option Subscriber → Outcome
  answer_packet cfg s recovery now p (some sub) =
      if p.message_type == dhcp_discover
      then replied recovery s (build_reply cfg s p sub.subscriber_ip dhcp_offer)
      else if p.message_type == dhcp_request
      then grant_request cfg s recovery p now sub
      else replied recovery s []
  answer_packet cfg s recovery now p none =
      let found = lookup_recovery_by_mac_addr recovery p.client_mac now in
      if p.message_type == dhcp_discover
      then stale_discover cfg s p now found
      else if p.message_type == dhcp_request
      then stale_request cfg s p now found
      else replied recovery s []

  abbrev pub answer_frame :
      DhcpConfig → DhcpServer → Manager → Recovery → Time → Option DhcpPacket → Outcome
  answer_frame cfg s sessions recovery now none = replied recovery s []
  answer_frame cfg s sessions recovery now (some p) =
      answer_packet cfg s recovery now p (authorized_session cfg sessions p.client_mac)

  -- HandleFrame
  unfoldable pub handle_frame :
      DhcpConfig → DhcpServer → Manager → Recovery → Time → Bytes → Outcome
  unfolding parse_dhcp_frame authorized_session
  handle_frame cfg s sessions recovery now frame =
      answer_frame cfg s sessions recovery now (parse_dhcp_frame frame)
