-- ===== src/Accessside/Arp.antt =====
-- internal/accessside/arp.go: the proxy that answers ARP requests for the gateway's address.
-- net.ParseIP is a parameter, which gives the empty address where it reads none.
pub mod Replies
use vectorcore_twag.Base.{
  ℕ, ◌+◌, Bool, true, false, not, ◌&&◌, ◌||◌, [], ◌∷◌, ◌++◌, Option, none, some, ltb, ◌==◌, ◌!=◌,
  if◌then◌else◌, length,
}
use vectorcore_twag.Base.Bytes.{Bytes, at, slice, read16, put16}
use vectorcore_twag.Base.Net.{Ip, is_nil, to4, ip_equal, ipv4}
use vectorcore_twag.Base.Text.{Text}
use vectorcore_twag.Session.Types.{Session, State, Time, active}
use vectorcore_twag.Session.States.{same}
use vectorcore_twag.Session.Manager.{Manager}
use vectorcore_twag.Session.Operations.{lookup_by_mac_addr}
use vectorcore_twag.Session.Recovery.{Recovery, lookup_recovery_by_mac_addr}
use vectorcore_twag.Accessside.Frames.{ether_type_ipv4, ether_type_arp, fill}

-- The settings of config.ARPProxyConfig that the proxy reads.
pub record ArpProxyConfig : Type 0 where
  pub gateway_ip : Text
  pub require_authorized_session : Bool

pub record ArpRequest : Type 0 where
  pub sender_mac : Bytes
  pub sender_ip : Ip
  pub target_ip : Ip

-- parseARPRequest
unfoldable pub parse_arp_request : Bytes → Option ArpRequest
parse_arp_request frame =
    let arp = slice frame 14 42 in
    if ltb (length frame) 42 || read16 frame 12 != ether_type_arp
    then none
    else if read16 arp 0 != 1
        || (read16 arp 2 != ether_type_ipv4
            || (at arp 4 != 6 || (at arp 5 != 4 || read16 arp 6 != 1)))
    then none
    else some record {
      sender_mac = slice arp 8 14;
      sender_ip = slice arp 14 18;
      target_ip = slice arp 24 28;
    }

-- buildARPReply
unfoldable pub build_arp_reply : ArpRequest → Bytes → Ip → Bytes
unfolding fill to4
build_arp_reply req src_mac gateway =
    fill 6 req.sender_mac
    ++ (fill 6 src_mac
        ++ (put16 ether_type_arp
            ++ (put16 1
                ++ (put16 ether_type_ipv4
                    ++ ((6 ∷ 4 ∷ [])
                        ++ (put16 2
                            ++ (fill 6 src_mac
                                ++ (fill 4 (to4 gateway)
                                    ++ (fill 6 req.sender_mac ++ fill 4 (to4 req.sender_ip))))))))))

-- The test of a session that a sender has, where there is one.
abbrev pub may_ask : Option Session → Ip → Bool
may_ask none sender_ip = false
may_ask (some sess) sender_ip =
    if not (same sess.state active) || is_nil sess.subscriber_ip
    then false
    else if not (is_nil sender_ip)
        && (not (ip_equal sender_ip (ipv4 0 0 0 0)) && not (ip_equal sender_ip sess.subscriber_ip))
    then false
    else true

-- authorizedSession: whether the sender is authorized; its session goes to the log only.
unfoldable pub authorized_session : ArpProxyConfig → Manager → Bytes → Ip → Bool
unfolding lookup_by_mac_addr
authorized_session cfg sessions mac sender_ip =
    if cfg.require_authorized_session
    then may_ask (lookup_by_mac_addr sessions mac) sender_ip
    else true

module _ (parse_ip : Text → Ip) where
  abbrev pub answer_request :
      ArpProxyConfig → Bytes → Manager → Recovery → Time → Option ArpRequest → Bytes × Recovery
  answer_request cfg iface_mac sessions recovery now none = ([], recovery)
  answer_request cfg iface_mac sessions recovery now (some req) =
      let gateway = to4 (parse_ip cfg.gateway_ip) in
      if is_nil gateway || not (ip_equal req.target_ip gateway)
      then ([], recovery)
      else if authorized_session cfg sessions req.sender_mac req.sender_ip
      then (build_arp_reply req iface_mac gateway, recovery)
      else ([], (lookup_recovery_by_mac_addr recovery req.sender_mac now).1)

  -- HandleFrame: the reply, empty for none, and the tombstones after a lookup among them.
  unfoldable pub handle_frame :
      ArpProxyConfig → Bytes → Manager → Recovery → Time → Bytes → Bytes × Recovery
  unfolding parse_arp_request
  handle_frame cfg iface_mac sessions recovery now frame =
      answer_request cfg iface_mac sessions recovery now (parse_arp_request frame)
