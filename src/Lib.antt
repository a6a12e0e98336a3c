-- ===== src/Lib.antt =====
-- vectorcore-twag: a trusted WLAN access gateway.
--
-- The gateway takes a phone that a WLAN access point lets in, authenticates it over Diameter, opens
-- a tunnel to a packet gateway by GTPv2-C, gives it an address and carries its packets in GTP-U.
-- The session manager is the table that all of these share.
--
-- Base: numbers, tests and errors as values, byte strings and their big-endian numbers, maps as
--   lists of pairs, net.IP and strings.
-- Gtp: internal/gtp/gtpv2.go and gtpv2_ie.go. Gtp.Message has `encode` and `decode` of messages,
--   Gtp.Sequence the allocator of sequence numbers, Gtp.Ie the information elements, with their
--   contents in Gtp.Ie.Fields and Gtp.Ie.Text. Gtp.Client: internal/gtp/gtp.go and errors.go, the
--   requests of the client and what it reads from the answers; Gtp.Client.Transactions has the
--   transactions, with Gtp.Client.Transactions.Reach the goroutines as steps in any order, and
--   Gtp.Client.Health what the echo watchdog keeps.
-- Diameter: internal/diameter/message.go. Diameter.Avp has attribute-value pairs, and
--   Diameter.Avp.Values the values in them; Diameter.Message has messages on a stream.
-- Gtpu: internal/gtpu/forwarder.go. Gtpu.Packet has user packets, Gtpu.Control echoes and error
--   indications, Gtpu.Forwarder the tables of bound sessions and what becomes of a datagram.
-- Accessside: internal/accessside/arp.go and dhcp.go, with what they use of manager.go and raw.go in
--   Accessside.Frames. Accessside.Arp answers for the gateway's address; Accessside.Dhcp has the
--   frames, and Accessside.Dhcp.Server what becomes of one. Both look clients up in Session.Manager
--   and in Session.Recovery. net.ParseIP is their parameter.
-- Ipam: internal/ipam/ipam.go, the pool of subscriber addresses; Ipam.Refinement has the
--   specification of an assignment of addresses that it implements.
-- Session: internal/session/session.go and manager.go. Session.Types has the records,
--   Session.States validTransition, Session.Mac the comparison of hardware addresses,
--   Session.Manager and Session.Operations the manager's calls. A `*Session` is a place in a store,
--   so that all tables see a change; Session.Manager.Reach has the calls as steps. Session.Expiry has
--   ExpireInactive, the lists of sessions and RecordGTPUError; Session.Recovery the tombstones of
--   sessions in recovery, and Session.AuthCache the cache of authorizations, each with its Reach.
-- Radius: internal/radius/ap_registry.go, the access points that have sent a request, in
--   Radius.ApRegistry.
-- Tests: the theorems on concrete inputs.
--
-- A lock makes each operation one step, and the GTP-C client's Close, which holds none between its
-- parts, is two; the allocator of sequence numbers, which has no lock either, is interleaved load
-- by load. Functions that Go's `error` ends early return a `Result`. Machine integers are numbers
-- with their wrap-around written out. A decoding loop has the length of its input as fuel, and each
-- turn takes a byte at least; a walk over a pool has one more than 2^31 turns, which is all
-- addresses of a pool whose prefix has one bit. A session's time is 0 for Go's zero time and
-- otherwise its UnixNano. Go's net.IPNet, net.IP, net.ParseMAC and strings are written as Go
-- documents them.
--
-- Not modelled: sockets, timers and the goroutines' schedule, logging, the configuration, the RADIUS
-- server but for its registry of access points, the Diameter STa client and EAP-AKA, the lifecycle
-- service, the user plane, routing and the neighbour entries of the operating system.
-- strings.TrimSpace, ToLower, SplitN and EqualFold are those of
-- ASCII text. Where Go ranges over a map, the model takes the order of its list.
pub mod Base
pub mod Diameter
pub mod Gtp
pub mod Gtpu
pub mod Accessside
pub mod Ipam
pub mod Radius
pub mod Session
pub mod Tests
