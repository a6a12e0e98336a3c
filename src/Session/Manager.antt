-- ===== src/Session/Manager.antt =====
-- internal/session/manager.go: the session manager. A `*Session` is a place in `store`, which the
-- tables share, so that a change through one table is seen through all; the mutex makes each
-- operation one step. `now` is what time.Now gives, in nanoseconds.
pub mod Numbers
pub mod Tables
pub mod Removal
pub mod Changes
pub mod Cases
pub mod Reach
pub mod Lookups
use vectorcore_twag.Base.{
  ℕ, zero, suc, ◌+◌, ◌/◌, ◌%◌, ◌^◌, Bool, true, false, ◌&&◌, ◌||◌, not, List, [], ◌∷◌, ◌++◌, Option,
  none, some, Result, ok, err, ltb, ◌==◌, ◌!=◌, if◌then◌else◌, length,
}
use vectorcore_twag.Base.Bytes.{Bytes}
use vectorcore_twag.Base.Map.{Assoc, lookup, insert, delete, nat_eq, text_eq, text_beq}
use vectorcore_twag.Base.Net.{Ip, is_nil, ip_string}
use vectorcore_twag.Base.Text.{Text, text}
use vectorcore_twag.Session.Types.{
  Session, State, Time, pending, auth_pending, authorized, ip_allocated, pgw_pending, active,
  recovering, terminating, terminated, failed,
}
use vectorcore_twag.Session.States.{valid_transition}

pub record Manager : Type 0 where
  pub next : ℕ
  pub store : ℕ → Session
  pub by_id : Assoc Text ℕ
  pub by_imsi : Assoc Text ℕ
  pub by_mac : Assoc Text ℕ
  pub by_ip : Assoc Bytes ℕ
  pub by_teid : Assoc ℕ ℕ

-- NewManager; `blank` is what the places hold that no session has yet.
unfoldable pub new_manager : (ℕ → Session) → Manager
new_manager blank = record {
  next = 0;
  store = blank;
  by_id = [];
  by_imsi = [];
  by_mac = [];
  by_ip = [];
  by_teid = [];
}

-- Writes `s` at the place `p`.
abbrev pub write : Manager → ℕ → Session → Manager
write m p s = record m { store = λ q. if p == q then s else m.store q }

-- The decimal text of a number, with fuel for its digits.
unfoldable pub decimal_digits : ℕ → ℕ → Text
decimal_digits zero n = (b'0' + n % 10) ∷ []
decimal_digits (suc fuel) n =
    let front = decimal_digits fuel (n / 10) in
    if ltb n 10 then (b'0' + n) ∷ [] else front ++ ((b'0' + n % 10) ∷ [])

unfoldable pub decimal : ℕ → Text
decimal n = decimal_digits n n

-- fmt.Sprintf("twag-%d-%d", now.UnixNano(), m.next)
unfoldable pub session_id : Time → ℕ → Text
session_id now next = text "twag-" ++ (decimal now ++ (b'-' ∷ decimal next))

-- indexLocked
unfoldable pub index_locked : Manager → ℕ → Manager
index_locked m p =
    let s = m.store p in
    record m {
      by_id = insert s.id p m.by_id;
      by_imsi = if length s.imsi == 0 then m.by_imsi else insert s.imsi p m.by_imsi;
      by_mac = if length s.mac_address == 0 then m.by_mac else insert s.mac_address p m.by_mac;
      by_ip =
          if is_nil s.subscriber_ip then m.by_ip else insert (ip_string s.subscriber_ip) p m.by_ip;
      by_teid = if s.gtpc_teid == 0 then m.by_teid else insert s.gtpc_teid p m.by_teid;
    }

-- unindexLocked
unfoldable pub unindex_locked : Manager → ℕ → Manager
unindex_locked m p =
    let s = m.store p in
    record m {
      by_id = delete s.id m.by_id;
      by_imsi = delete s.imsi m.by_imsi;
      by_mac = delete s.mac_address m.by_mac;
      by_ip =
          if is_nil s.subscriber_ip then m.by_ip else delete (ip_string s.subscriber_ip) m.by_ip;
      by_teid = if s.gtpc_teid == 0 then m.by_teid else delete s.gtpc_teid m.by_teid;
    }

pub record CreateInput : Type 0 where
  pub imsi : Text
  pub msisdn : Text
  pub mac_address : Text
  pub apn : Text
  pub realm : Text
  pub username : Text
  pub eap_identity : Text
  pub calling_station_id : Text
  pub called_station_id : Text
  pub nas_ip : Text
  pub nas_identifier : Text
  pub acct_session_id : Text
  pub radius_state : Text
  pub radius_class : Bytes
  pub connect_info : Text
  pub framed_mtu : ℕ
  pub access_type : Text
  pub access_interface : Text
  pub gateway_ip : Ip
  -- A duration that is not positive is 0.
  pub ttl : ℕ

-- The session that Create makes.
unfoldable pub new_session : CreateInput → Time → ℕ → Session
unfolding session_id
new_session input now next = record {
  id = session_id now next;
  imsi = input.imsi;
  msisdn = input.msisdn;
  mac_address = input.mac_address;
  apn = input.apn;
  realm = input.realm;
  username = input.username;
  eap_identity = input.eap_identity;
  calling_station_id = input.calling_station_id;
  called_station_id = input.called_station_id;
  nas_ip = input.nas_ip;
  nas_identifier = input.nas_identifier;
  acct_session_id = input.acct_session_id;
  acct_multi_session_id = [];
  accounting_active = false;
  accounting_at_risk = false;
  last_accounting_at = 0;
  acct_input_octets = 0;
  acct_output_octets = 0;
  acct_input_packets = 0;
  acct_output_packets = 0;
  acct_terminate_cause = [];
  radius_state = input.radius_state;
  radius_class = input.radius_class;
  connect_info = input.connect_info;
  framed_mtu = input.framed_mtu;
  subscriber_ip = [];
  gateway_ip = input.gateway_ip;
  access_type = input.access_type;
  access_interface = input.access_interface;
  pgw_control_ip = [];
  pgw_user_ip = [];
  gtpc_teid = 0;
  local_gtpu_teid = 0;
  remote_gtpu_teid = 0;
  gtpu_error_count = 0;
  last_gtpu_error_at = 0;
  last_gtpu_error_teid = 0;
  authenticated = false;
  is_authorized = false;
  state = pending;
  created_at = now;
  updated_at = now;
  expires_at = if ltb 0 input.ttl then now + input.ttl else 0;
  reason = [];
}

-- Create; the number of the session is also its place in the store.
unfoldable pub create : Manager → CreateInput → Time → Session × Manager
create m input now =
    let n = (m.next + 1) % 2 ^ 64 in
    let s = new_session input now n in (s, index_locked (write (record m { next = n }) n s) n)

pub data Error : Type 0 where
  not_found : Text → Error
  invalid_transition : State → State → Error

-- A change that an operation makes to the session at a place, and to the tables.
abbrev pub Change : Type 0
Change = Manager → ℕ → Manager

-- The change of a session alone.
abbrev pub edit : (Session → Session) → Change
edit f m p = write m p (f (m.store p))

abbrev update_at : Manager → Text → Time → Change → Option ℕ → Result Error (Session × Manager)
update_at m id now fn none = err (not_found id)
update_at m id now fn (some p) =
    let m' = edit (λ s. record s { updated_at = now }) (fn m p) p in ok (m'.store p, m')

-- m.update(id, fn)
unfoldable pub update : Manager → Text → Time → Change → Result Error (Session × Manager)
update m id now fn = update_at m id now fn (lookup id m.by_id)

abbrev transition_at :
    Manager → Text → State → Time → Change → Option ℕ → Result Error (Session × Manager)
transition_at m id next now fn none = err (not_found id)
transition_at m id next now fn (some p) =
    let m' = edit (λ s. record s { state = next; updated_at = now }) (fn m p) p in
    if valid_transition (m.store p).state next
    then ok (m'.store p, m')
    else err (invalid_transition (m.store p).state next)

-- m.transition(id, next, fn)
unfoldable pub transition :
    Manager → Text → State → Time → Change → Result Error (Session × Manager)
transition m id next now fn = transition_at m id next now fn (lookup id m.by_id)

abbrev pub no_change : Change
no_change m p = m

-- MarkAuthPending, MarkPGWPending, MarkActive and MarkTerminating.
unfoldable pub mark : Manager → Text → State → Time → Result Error (Session × Manager)
mark m id next now = transition m id next now no_change

-- MarkAuthorized
unfoldable pub mark_authorized : Manager → Text → Time → Result Error (Session × Manager)
mark_authorized m id now =
    transition m id authorized now
      (edit λ s. record s { authenticated = true; is_authorized = true })

-- MarkRecovering and MarkFailed, with the state that they set.
unfoldable pub mark_reason : Manager → Text → State → Text → Time → Result Error (Session × Manager)
mark_reason m id next reason now = transition m id next now (edit λ s. record s { reason = reason })

abbrev or_old : Text → Text → Text
or_old new old = if length new == 0 then old else new

-- The change of ApplyAuthResult.
unfoldable pub auth_change : Text → Text → Text → Text → Change
auth_change imsi msisdn apn reason m p =
    let m' =
      edit
        (λ s. record s {
          imsi = or_old imsi s.imsi;
          msisdn = or_old msisdn s.msisdn;
          apn = or_old apn s.apn;
          reason = reason;
          authenticated = true;
          is_authorized = true;
        })
        (unindex_locked m p) p in
    index_locked m' p

-- ApplyAuthResult
unfoldable pub apply_auth_result :
    Manager → Text → Text → Text → Text → Text → Time → Result Error (Session × Manager)
unfolding auth_change
apply_auth_result m id imsi msisdn apn reason now =
    transition m id authorized now (auth_change imsi msisdn apn reason)
