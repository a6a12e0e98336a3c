-- ===== src/Session/Operations.antt =====
-- internal/session/manager.go: the manager's operations on addresses, tunnels and accounting, its
-- deletions and its lookups. A range over `byID` takes the order of the table.
use vectorcore_twag.Base.{
  ℕ, Bool, true, false, ◌&&◌, not, [], ◌∷◌, Option, none, some, Result, ◌==◌, ◌!=◌, if◌then◌else◌,
  length,
}
use vectorcore_twag.Base.Bytes.{Bytes}
use vectorcore_twag.Base.Map.{Assoc, lookup, insert, delete, nat_eq, text_eq, text_beq}
use vectorcore_twag.Base.Net.{Ip, is_nil, ip_string}
use vectorcore_twag.Base.Text.{Text}
use vectorcore_twag.Session.Types.{Session, Time, ip_allocated, active, terminated}
use vectorcore_twag.Session.States.{valid_transition, same}
use vectorcore_twag.Session.Mac.{parse_mac, mac_string, mac_matches, same_apn}
use vectorcore_twag.Session.Manager.{
  Manager, Error, Change, edit, update, transition, unindex_locked,
}

-- The changes of SetSubscriberIP and UpdateSubscriberIP.
unfoldable pub drop_ip : Manager → ℕ → Manager
drop_ip m p =
    let old = (m.store p).subscriber_ip in
    if is_nil old then m else record m { by_ip = delete (ip_string old) m.by_ip }

unfoldable pub set_ip_change : Ip → Change
unfolding drop_ip
set_ip_change ip m p =
    let m' = edit (λ s. record s { subscriber_ip = ip }) (drop_ip m p) p in
    record m' { by_ip = insert (ip_string ip) p m'.by_ip }

unfoldable pub update_ip_change : Ip → Change
unfolding drop_ip
update_ip_change ip m p =
    let m' = edit (λ s. record s { subscriber_ip = ip }) (drop_ip m p) p in
    if is_nil ip then m' else record m' { by_ip = insert (ip_string ip) p m'.by_ip }

-- SetSubscriberIP
unfoldable pub set_subscriber_ip : Manager → Text → Ip → Time → Result Error (Session × Manager)
set_subscriber_ip m id ip now = transition m id ip_allocated now (set_ip_change ip)

-- UpdateSubscriberIP
unfoldable pub update_subscriber_ip : Manager → Text → Ip → Time → Result Error (Session × Manager)
update_subscriber_ip m id ip now = update m id now (update_ip_change ip)

-- The change of BindTEIDs, and that of ApplyPGWResult: the old control TEID goes out of the table,
-- `f` sets the fields, and the new one goes in.
unfoldable pub teid_change : (Session → Session) → Change
teid_change f m p =
    let old = (m.store p).gtpc_teid in
    let dropped = if old == 0 then m else record m { by_teid = delete old m.by_teid } in
    let m' = edit f dropped p in
    let new = (m'.store p).gtpc_teid in
    if new == 0 then m' else record m' { by_teid = insert new p m'.by_teid }

-- BindTEIDs
unfoldable pub bind_teids : Manager → Text → ℕ → ℕ → ℕ → Time → Result Error (Session × Manager)
bind_teids m id gtpc local_gtpu remote_gtpu now = update m id now (
    teid_change λ s. record s {
      gtpc_teid = gtpc;
      local_gtpu_teid = local_gtpu;
      remote_gtpu_teid = remote_gtpu;
    })

-- ApplyPGWResult
unfoldable pub apply_pgw_result :
    Manager → Text → Ip → Ip → ℕ → ℕ → ℕ → Time → Result Error (Session × Manager)
apply_pgw_result m id control_ip user_ip gtpc local_gtpu remote_gtpu now = update m id now (
    teid_change λ s. record s {
      pgw_control_ip = control_ip;
      pgw_user_ip = user_ip;
      gtpc_teid = gtpc;
      local_gtpu_teid = local_gtpu;
      remote_gtpu_teid = remote_gtpu;
    })

abbrev delete_at : Manager → Time → Option ℕ → Option (Session × Manager)
delete_at m now none = none
delete_at m now (some p) =
    let m' = edit (λ s. record s { state = terminated; updated_at = now }) (unindex_locked m p) p in
    if valid_transition (m.store p).state terminated then some (m'.store p, m') else none

-- Delete; `none` where it returns false, and leaves the manager alone.
unfoldable pub delete_session : Manager → Text → Time → Option (Session × Manager)
delete_session m id now = delete_at m now (lookup id m.by_id)

-- clone(s), ok
abbrev found : Manager → Option ℕ → Option Session
found m none = none
found m (some p) = some (m.store p)

-- Get, LookupByIMSI, LookupByIP, LookupByTEID
unfoldable pub get_session : Manager → Text → Option Session
get_session m id = found m (lookup id m.by_id)

unfoldable pub lookup_by_imsi : Manager → Text → Option Session
lookup_by_imsi m imsi = found m (lookup imsi m.by_imsi)

unfoldable pub lookup_by_ip : Manager → Ip → Option Session
lookup_by_ip m ip = found m (lookup (ip_string ip) m.by_ip)

unfoldable pub lookup_by_teid : Manager → ℕ → Option Session
lookup_by_teid m teid = found m (lookup teid m.by_teid)

abbrev parsed_place : Manager → Option Bytes → Option ℕ
parsed_place m none = none
parsed_place m (some hw) = lookup (mac_string hw) m.by_mac

abbrev mac_place : Manager → Text → Option ℕ → Option ℕ
mac_place m mac (some p) = some p
mac_place m mac none = parsed_place m (parse_mac mac)

-- LookupByMAC
unfoldable pub lookup_by_mac : Manager → Text → Option Session
lookup_by_mac m mac = found m (mac_place m mac (lookup mac m.by_mac))

-- LookupByMACAddr; an empty address is nil.
unfoldable pub lookup_by_mac_addr : Manager → Bytes → Option Session
unfolding lookup_by_mac
lookup_by_mac_addr m mac = if is_nil mac then none else lookup_by_mac m (mac_string mac)

-- The first session of the table that passes a test.
unfoldable pub find_first : Manager → (Session → Bool) → Assoc Text ℕ → Option Session
find_first m test [] = none
find_first m test ((k, p) ∷ rest) =
    if test (m.store p) then some (m.store p) else find_first m test rest

-- subscriberMatches
unfoldable pub subscriber_matches : Session → Text → Text → Text → Bool
subscriber_matches s imsi mac apn =
    if length imsi != 0 && length s.imsi != 0 && not (text_beq s.imsi imsi)
    then false
    else if length mac != 0 && length s.mac_address != 0 && not (mac_matches s.mac_address mac)
    then false
    else if length apn != 0 && length s.apn != 0 && not (same_apn s.apn apn)
    then false
    else if length imsi != 0 && text_beq s.imsi imsi
    then true
    else length mac != 0 && mac_matches s.mac_address mac

-- findBySubscriber, as FindActiveBySubscriber and FindAnyBySubscriber call it.
unfoldable pub find_by_subscriber : Manager → Text → Text → Text → Bool → Option Session
find_by_subscriber m imsi mac apn active_only =
    find_first m
      (λ s. not (active_only && not (same s.state active)) && subscriber_matches s imsi mac apn)
      m.by_id

-- The test of the loop in LookupByAcctSession.
unfoldable pub acct_matches : Session → Text → Text → Text → Bool
acct_matches s acct_session_id nas_ip nas_identifier =
    text_beq s.acct_session_id acct_session_id
    && not (length nas_ip != 0 && length s.nas_ip != 0 && not (text_beq s.nas_ip nas_ip))
    && not (
        length nas_identifier != 0
        && length s.nas_identifier != 0
        && not (text_beq s.nas_identifier nas_identifier))

-- LookupByAcctSession
unfoldable pub lookup_by_acct_session : Manager → Text → Text → Text → Option Session
lookup_by_acct_session m acct_session_id nas_ip nas_identifier =
    if length acct_session_id == 0
    then none
    else find_first m (λ s. acct_matches s acct_session_id nas_ip nas_identifier) m.by_id

-- LookupByRemoteGTPUTEID and LookupByLocalGTPUTEID
unfoldable pub lookup_by_remote_gtpu_teid : Manager → ℕ → Option Session
lookup_by_remote_gtpu_teid m teid = find_first m (λ s. s.remote_gtpu_teid == teid) m.by_id

unfoldable pub lookup_by_local_gtpu_teid : Manager → ℕ → Option Session
lookup_by_local_gtpu_teid m teid = find_first m (λ s. s.local_gtpu_teid == teid) m.by_id

pub record AccountingUpdate : Type 0 where
  pub acct_session_id : Text
  pub acct_multi_session_id : Text
  pub active : Bool
  pub at_risk : Bool
  pub last_seen : Time
  pub input_octets : ℕ
  pub output_octets : ℕ
  pub input_packets : ℕ
  pub output_packets : ℕ
  pub terminate_cause : Text

abbrev or_old_text : Text → Text → Text
or_old_text new old = if length new == 0 then old else new

abbrev or_old_number : ℕ → ℕ → ℕ
or_old_number new old = if new == 0 then old else new

-- The change of ApplyAccounting on the session.
unfoldable pub account : AccountingUpdate → Session → Session
account u s = record s {
  acct_session_id = or_old_text u.acct_session_id s.acct_session_id;
  acct_multi_session_id = or_old_text u.acct_multi_session_id s.acct_multi_session_id;
  accounting_active = u.active;
  accounting_at_risk = u.at_risk;
  last_accounting_at = or_old_number u.last_seen s.last_accounting_at;
  acct_input_octets = or_old_number u.input_octets s.acct_input_octets;
  acct_output_octets = or_old_number u.output_octets s.acct_output_octets;
  acct_input_packets = or_old_number u.input_packets s.acct_input_packets;
  acct_output_packets = or_old_number u.output_packets s.acct_output_packets;
  acct_terminate_cause = or_old_text u.terminate_cause s.acct_terminate_cause;
}

-- ApplyAccounting
unfoldable pub apply_accounting :
    Manager → Text → AccountingUpdate → Time → Result Error (Session × Manager)
apply_accounting m id u now = update m id now (edit (account u))
