-- ===== src/Accessside/Dhcp/Server/Replies.antt =====
-- What the client reads in the DHCP server's replies.
use vectorcore_twag.Base.{◌≡◌, true, List, some, All, length}
use vectorcore_twag.Base.Bytes.{Bytes, IsByte}
use vectorcore_twag.Base.Map.{nat_eq, text_eq}
use vectorcore_twag.Base.Net.{Ip, IsV4, to4, ipv4}
use vectorcore_twag.Base.Text.{Text}
use vectorcore_twag.Session.Types.{Session, Time, active}
use vectorcore_twag.Session.Manager.{Manager}
use vectorcore_twag.Session.Operations.{lookup_by_mac_addr}
use vectorcore_twag.Session.Recovery.{Recovery}
use vectorcore_twag.Accessside.Dhcp.{DhcpConfig, DhcpPacket, DhcpOption, parse_dhcp_frame}
use vectorcore_twag.Accessside.Dhcp.Frame.{Reply, reply_to}
use vectorcore_twag.Accessside.Dhcp.Server.{DhcpServer, Subscriber}
use vectorcore_twag.Accessside.Dhcp.Server.Contents.{IsServing}

-- A client that the server knows: its frame, and the active session with an IPv4 address that its
-- hardware address leads to.
pub record IsKnown (sessions : Manager) (frame : Bytes) (p : DhcpPacket) (sess : Session)
    : Type 0 where
  pub in_bytes : All IsByte frame
  pub parsed : parse_dhcp_frame frame ≡ some p
  pub found : lookup_by_mac_addr sessions p.client_mac ≡ some sess
  pub in_use : sess.state ≡ active
  pub addressed : IsV4 (to4 sess.subscriber_ip)

module _ (parse_ip : Text → Ip) (cfg : DhcpConfig) (s : DhcpServer) (sessions : Manager)
    (recovery : Recovery) (now : Time) (frame : Bytes) (p : DhcpPacket) (sess : Session)
    (serving : IsServing parse_ip cfg) (six : length s.iface_mac ≡ 6)
    (required : cfg.require_authorized_session ≡ true) (known : IsKnown sessions frame p sess) where
  abbrev subscriber : Subscriber
  subscriber = record { session_id = sess.id; imsi = sess.imsi; subscriber_ip = sess.subscriber_ip }

  abbrev told : Ip → List DhcpOption → Reply
  told your opts =
      reply_to p s.iface_mac (to4 (parse_ip cfg.server_identifier)) your
        (to4 (ipv4 255 255 255 255)) opts
