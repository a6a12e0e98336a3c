-- ===== src/Tests/Session.antt =====
-- The session manager on concrete calls.
use vectorcore_twag.Base.{
  ◌≤◌, ◌≢◌, ◌⊎◌, err, true, false, ◌<◌, ◌≡◌, refl, none, some, [], ◌∷◌, ok, arith,
}
use vectorcore_twag.Base.Map.{lookup, insert, text_eq, nat_eq}
use vectorcore_twag.Base.Net.{Ip}
use vectorcore_twag.Base.Text.{Text, text}
use vectorcore_twag.Session.Types.{Session, State, pending, active, terminating, failed}
use vectorcore_twag.Session.States.{
  valid_transition, valid_transition_forward, rank, same, from_switch,
}
use vectorcore_twag.Session.Expiry.{expire_inactive}
use vectorcore_twag.Session.Expiry.Laws.{expire_inactive-get_session}
use vectorcore_twag.Session.Manager.{
  Manager, CreateInput, new_manager, create, new_session, index_locked, mark, transition, update,
  invalid_transition, session_id, decimal, decimal_digits,
}
use vectorcore_twag.Session.Operations.{
  get_session, delete_session, update_subscriber_ip, bind_teids, update_ip_change, drop_ip,
  teid_change,
}
use vectorcore_twag.Session.Manager.Tables.{IsConsistent}
use vectorcore_twag.Session.Manager.Cases.{stamped}
use vectorcore_twag.Session.Manager.Reach.{
  Reachable, started, stepped, created, marked, updated_ip, bound_teids, Reachable-IsConsistent,
}
use vectorcore_twag.Session.Manager.Lookups.{mark_lem}

abbrev pub blank_session : Session
blank_session = record {
  id = [];
  imsi = [];
  msisdn = [];
  mac_address = [];
  apn = [];
  realm = [];
  username = [];
  eap_identity = [];
  calling_station_id = [];
  called_station_id = [];
  nas_ip = [];
  nas_identifier = [];
  acct_session_id = [];
  acct_multi_session_id = [];
  accounting_active = false;
  accounting_at_risk = false;
  last_accounting_at = 0;
  acct_input_octets = 0;
  acct_output_octets = 0;
  acct_input_packets = 0;
  acct_output_packets = 0;
  acct_terminate_cause = [];
  radius_state = [];
  radius_class = [];
  connect_info = [];
  framed_mtu = 0;
  subscriber_ip = [];
  gateway_ip = [];
  access_type = [];
  access_interface = [];
  pgw_control_ip = [];
  pgw_user_ip = [];
  gtpc_teid = 0;
  local_gtpu_teid = 0;
  remote_gtpu_teid = 0;
  gtpu_error_count = 0;
  last_gtpu_error_at = 0;
  last_gtpu_error_teid = 0;
  authenticated = false;
  is_authorized = false;
  state = pending;
  created_at = 0;
  updated_at = 0;
  expires_at = 0;
  reason = [];
}

abbrev input : CreateInput
input = record {
  imsi = text "00101";
  msisdn = [];
  mac_address = text "aa:bb";
  apn = text "ims";
  realm = [];
  username = [];
  eap_identity = [];
  calling_station_id = [];
  called_station_id = [];
  nas_ip = [];
  nas_identifier = [];
  acct_session_id = [];
  radius_state = [];
  radius_class = [];
  connect_info = [];
  framed_mtu = 0;
  access_type = [];
  access_interface = [];
  gateway_ip = [];
  ttl = 0;
}

abbrev empty : Manager
empty = new_manager (λ p. blank_session)

-- A session, then its address, then its tunnels.
abbrev first : Manager
first = (create empty input 7).1

abbrev name : Text
name = text "twag-7-1"

abbrev address : Ip
address = 10 ∷ 0 ∷ 0 ∷ 2 ∷ []

first-Reachable : Reachable first
unfolding new_manager
first-Reachable =
    stepped empty first (started (λ p. blank_session)) (created input 7 (omega arith) refl)

Reachable-IsConsistent_example : IsConsistent first
Reachable-IsConsistent_example = Reachable-IsConsistent first first-Reachable

abbrev attached : Session
attached = new_session input 7 1

-- The session with its address, then with its tunnels.
abbrev addressed_session : Session
addressed_session = record attached { subscriber_ip = address; updated_at = 8 }

abbrev bound_session : Session
bound_session = record addressed_session {
  gtpc_teid = 5;
  local_gtpu_teid = 6;
  remote_gtpu_teid = 9;
  updated_at = 9;
}

abbrev addressed : Manager
addressed = elim (update_subscriber_ip first name address 8) [ ok (s, m) ↦ m | err e ↦ first ]

abbrev bound : Manager
bound = elim (bind_teids addressed name 5 6 9 9) [ ok (s, m) ↦ m | err e ↦ first ]

addressed-Reachable : Reachable addressed
unfolding update_subscriber_ip update lookup create index_locked new_manager new_session insert
    session_id decimal decimal_digits update_ip_change drop_ip
addressed-Reachable =
    stepped first addressed first-Reachable (updated_ip name address 8 addressed_session refl)

bound-Reachable : Reachable bound
unfolding bind_teids update_subscriber_ip update lookup create index_locked new_manager new_session
    insert session_id decimal decimal_digits update_ip_change drop_ip teid_change
bound-Reachable =
    stepped addressed bound addressed-Reachable (bound_teids name 5 6 9 9 bound_session refl)

abbrev MarkOutcome : State → Type 0
MarkOutcome next =
    ((valid_transition pending next ≡ true)
      × (m' : Manager) × (mark first name next 8 ≡ ok (stamped next 8 attached, m'))
      × (get_session m' name ≡ some (stamped next 8 attached)))
    ⊎ ((valid_transition pending next ≡ false)
        × (mark first name next 8 ≡ err (invalid_transition pending next)))

mark_lem_example : MarkOutcome active
unfolding get_session lookup create index_locked new_manager new_session insert session_id decimal
    decimal_digits
mark_lem_example = mark_lem first name active 8 attached refl

valid_transition_forward_example :
    (active ≡ failed) ⊎ ((rank active < rank failed) × (rank active ≢ 8))
unfolding valid_transition same
valid_transition_forward_example = valid_transition_forward active failed refl

-- A session is deleted once it is terminating.
abbrev leaving : Manager
leaving = elim (mark first name terminating 8) [ ok (s, m) ↦ m | err e ↦ first ]

leaving-Reachable : Reachable leaving
unfolding mark transition valid_transition same from_switch lookup create index_locked new_manager
    new_session insert session_id decimal decimal_digits
leaving-Reachable =
    stepped first leaving first-Reachable
      (marked name terminating 8 (stamped terminating 8 attached) refl)

abbrev left : Manager
left = elim (delete_session leaving name 9) [ some (s, m) ↦ m | none ↦ first ]

-- A second session, which is due at 13.
abbrev second : Manager
second = (create first (record input { imsi = text "00102"; ttl = 5 }) 8).1

second-Reachable : Reachable second
unfolding create index_locked new_manager
second-Reachable =
    stepped first second first-Reachable
      (created (record input { imsi = text "00102"; ttl = 5 }) 8 (omega arith) refl)

abbrev ExpiryOutcome : Text → Type 0
ExpiryOutcome id =
    let after = (expire_inactive second 13).1 in
    ((get_session second id ≡ none) × (get_session after id ≡ none))
    ⊎ ((s : Session) × (get_session second id ≡ some s)
        × ((((s.expires_at ≡ 0) ⊎ (13 < s.expires_at)) × (get_session after id ≡ some s))
            ⊎ ((s.expires_at ≢ 0) × (s.expires_at ≤ 13) × (get_session after id ≡ none))))

expire_inactive-get_session_example : ExpiryOutcome name
expire_inactive-get_session_example =
    expire_inactive-get_session second 13 name (Reachable-IsConsistent second second-Reachable)
