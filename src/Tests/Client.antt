-- ===== src/Tests/Client.antt =====
-- The GTP-C client on concrete requests, answers and orders of steps.
use vectorcore_twag.Base.Text.{split}
use vectorcore_twag.Gtp.Client.Transactions.{fail_loop}
use vectorcore_twag.Base.Bytes.{read24}
use vectorcore_twag.Gtp.Client.Transactions.{dispatch}
use vectorcore_twag.Base.Map.{insert}
use vectorcore_twag.Base.Map.{lookup, nat_eq}
use vectorcore_twag.Gtp.Client.Transactions.{register_transaction}
use vectorcore_twag.Base.Net.{ip_equal}
use vectorcore_twag.Base.{
  ℕ, ◌+◌, ◌-◌, ◌%◌, ◌^◌, ◌≤◌, ◌≡◌, ◌≢◌, ◌⊎◌, refl, true, false, none, some, List, [], ◌∷◌, ok, err,
  arith,
}
use vectorcore_twag.Base.Bytes.{Bytes}
use vectorcore_twag.Base.Net.{UdpAddr, to4, to16}
use vectorcore_twag.Base.Text.{text}
use vectorcore_twag.Session.Types.{Session}
use vectorcore_twag.Tests.Session.{blank_session}
use vectorcore_twag.Gtp.Message.{Gtpv2Message, encode, decode}
use vectorcore_twag.Gtp.Ie.{Gtpv2Ie, encode_ies, decode_ies, find_ie}
use vectorcore_twag.Gtp.Ie.Fields.{recovery_ie, fteid_ie}
use vectorcore_twag.Gtp.Ie.Text.{apn_ie}
use vectorcore_twag.Gtp.Client.{
  PgwConfig, create_request, fteid_of_interface, create_outcome, cause_request_accepted,
  OffendingIe, rejected, first_non_empty, iface_s2a_twan_gtpc, iface_s2a_twan_gtpu,
  ie_bearer_context,
}
use vectorcore_twag.Gtp.Client.Requests.{IsEncodable, create_request_read}
use vectorcore_twag.Gtp.Client.Responses.{
  Grant, IsGrant, Extras, IsExtras, granted_ies, offended_ie, create_outcome-granted,
  create_outcome-rejected,
}
use vectorcore_twag.Gtp.Client.Transactions.{
  Transaction, Client, new_client, start_transaction, handle_incoming, finish, close_channel,
  fail_pending,
}
use vectorcore_twag.Gtp.Client.Transactions.Matching.{has_failure}
use vectorcore_twag.Gtp.Client.Transactions.Reach.{
  Reachable, opened, stepped, started, received, took_response, closed, failed, returned-Answers,
  closed_fails, handle_incoming-delivers,
}
use vectorcore_twag.Gtp.Client.Health.{
  EchoConfig, normalize_echo_config, Probe, answered, lost, watched,
}
use vectorcore_twag.Gtp.Client.Health.Watch.{IsShown, watched_lem}

abbrev gateway : UdpAddr
gateway = record { ip = 10 ∷ 0 ∷ 0 ∷ 9 ∷ []; port = 2123 }

abbrev blank_tx : Transaction
blank_tx = record {
  sequence = 0;
  expected_type = 0;
  response = none;
  failure = none;
  result = none;
}

abbrev echo : Gtpv2Message
echo = record {
  type = 1;
  teid = 0;
  has_teid = false;
  sequence = 0;
  payload = 3 ∷ 0 ∷ 1 ∷ 0 ∷ 0 ∷ [];
}

abbrev echo_answer : Gtpv2Message
echo_answer = record {
  type = 2;
  teid = 0;
  has_teid = false;
  sequence = 5;
  payload = 3 ∷ 0 ∷ 1 ∷ 0 ∷ 7 ∷ [];
}

abbrev echo_answer_bytes : Bytes
echo_answer_bytes = 0x40 ∷ 2 ∷ 0 ∷ 9 ∷ 0 ∷ 0 ∷ 5 ∷ 0 ∷ 3 ∷ 0 ∷ 1 ∷ 0 ∷ 7 ∷ []

-- Two callers wait; then the answer to the first comes in, and it returns.
abbrev fresh_client : Client
fresh_client = new_client gateway true (λ p. blank_tx)

abbrev one_waits : Client
one_waits = (start_transaction fresh_client echo 2 5).1

abbrev two_wait : Client
two_wait = (start_transaction one_waits echo 2 6).1

abbrev one_answered : Client
one_answered = (handle_incoming two_wait echo_answer_bytes gateway).1

abbrev one_returned : Client
one_returned = finish one_answered 0 (ok echo_answer)

abbrev shut : Client
shut = fail_pending (close_channel two_wait)

two_wait-Reachable : Reachable two_wait
two_wait-Reachable =
    stepped one_waits two_wait
      (stepped fresh_client one_waits (opened gateway true (λ p. blank_tx)) (started echo 2 5 refl))
      (started echo 2 6 refl)

one_returned-Reachable : Reachable one_returned
unfolding handle_incoming ip_equal start_transaction register_transaction new_client lookup encode
    insert decode dispatch read24
one_returned-Reachable =
    stepped one_answered one_returned
      (stepped two_wait one_answered two_wait-Reachable (received echo_answer_bytes gateway refl))
      (took_response 0 echo_answer (omega arith) refl refl refl)

returned-Answers_example :
    (echo_answer.type ≡ (one_returned.txs 0).expected_type)
    × (echo_answer.sequence ≡ (one_returned.txs 0).sequence)
unfolding finish handle_incoming ip_equal start_transaction register_transaction new_client lookup
    encode insert decode dispatch read24
returned-Answers_example =
    returned-Answers one_returned 0 echo_answer one_returned-Reachable (omega arith) refl

shut-Reachable : Reachable shut
unfolding close_channel start_transaction register_transaction new_client lookup encode insert
shut-Reachable =
    stepped (close_channel two_wait) shut
      (stepped two_wait (close_channel two_wait) two_wait-Reachable (closed refl refl))
      (failed refl refl refl)

closed_fails_example :
    (shut.closed ≡ true)
    × (lookup (shut.txs 1).sequence shut.pending ≡ none)
    × (has_failure (shut.txs 1) ≡ true)
unfolding close_channel fail_pending start_transaction register_transaction new_client lookup encode
    insert fail_loop
closed_fails_example = closed_fails shut 1 shut-Reachable refl (omega arith) refl

handle_incoming-delivers_example :
    ((one_answered.txs 0).response ≡ some echo_answer) × (one_answered.txs 1 ≡ two_wait.txs 1)
unfolding start_transaction register_transaction new_client lookup encode insert ip_equal decode
    read24
handle_incoming-delivers_example =
    handle_incoming-delivers two_wait echo_answer_bytes gateway 0 1 echo_answer two_wait-Reachable
      refl (omega arith) refl refl refl refl refl refl refl (omega arith) (omega arith)
      (omega arith)

abbrev settings : PgwConfig
settings = record {
  local_gtpc_ip = 10 ∷ 0 ∷ 0 ∷ 1 ∷ [];
  local_gtpu_ip = 10 ∷ 0 ∷ 0 ∷ 2 ∷ [];
  remote_gtpc_ip = 10 ∷ 0 ∷ 0 ∷ 9 ∷ [];
  remote_gtpu_ip = 10 ∷ 0 ∷ 0 ∷ 8 ∷ [];
  apn = text "ims";
  charging_characteristics = [];
}

abbrev caller : Session
caller = record blank_session { imsi = text "311435000070570"; msisdn = text "3342012832" }

settings-IsEncodable : IsEncodable settings caller
unfolding to4 apn_ie split first_non_empty
settings-IsEncodable = record {
  control_ip = refl;
  user_ip = refl;
  imsi = omega arith;
  msisdn = omega arith;
  apn = omega arith;
}

create_request_read_example :
    let r = (create_request settings caller 41).0 in
    (ies : List Gtpv2Ie) × (context : Gtpv2Ie) × (children : List Gtpv2Ie) × (decode_ies
        r.msg.payload
      ≡ ok ies)
    × (fteid_of_interface ies iface_s2a_twan_gtpc
        ≡ some (iface_s2a_twan_gtpc, r.local_gtpc, to16 settings.local_gtpc_ip))
    × (find_ie ies ie_bearer_context 0 ≡ some context)
    × (decode_ies context.payload ≡ ok children)
    × (fteid_of_interface children iface_s2a_twan_gtpu
        ≡ some (iface_s2a_twan_gtpu, r.local_gtpu, to16 settings.local_gtpu_ip))
    × (1 ≤ r.local_gtpc)
    × (1 ≤ r.local_gtpu)
    × (r.local_gtpu ≢ r.local_gtpc)
    × (r.local_gtpc ≡ 41 % (2 ^ 32 - 1) + 1)
    × (r.local_gtpu ≡ r.local_gtpc % (2 ^ 32 - 1) + 1)
    × ((create_request settings caller 41).1 ≡ r.local_gtpu)
    × (r.local_gtpc ≢ 41)
    × (r.local_gtpu ≢ 41)
create_request_read_example =
    create_request_read settings caller 41 settings-IsEncodable (omega arith)

abbrev grant : Grant
grant = record {
  subscriber_ip = 100 ∷ 64 ∷ 0 ∷ 204 ∷ [];
  control_teid = 0x1001;
  control_ip = 10 ∷ 0 ∷ 0 ∷ 9 ∷ [];
  user_teid = 0x2002;
  user_ip = 10 ∷ 0 ∷ 0 ∷ 8 ∷ [];
}

grant-IsGrant : IsGrant grant
unfolding to4
grant-IsGrant = record {
  subscriber_four = refl;
  control_four = refl;
  user_four = refl;
  control_range = omega arith;
  user_range = omega arith;
}

abbrev extras : Extras
extras = record {
  before_cause = recovery_ie 4 ∷ [];
  before_address = recovery_ie 3 ∷ [];
  before_control = [];
  before_context = recovery_ie 5 ∷ [];
  before_user = [];
}

extras-IsExtras : IsExtras extras
unfolding recovery_ie
extras-IsExtras = record {
  no_cause = (omega arith, tt);
  cause_extra = ((omega arith, omega arith, omega arith, omega arith), tt);
  address_extra = ((omega arith, omega arith, omega arith, omega arith), tt);
  control_extra = tt;
  context_extra = ((omega arith, omega arith, omega arith, omega arith), tt);
  user_extra = tt;
}

abbrev accepting : Gtpv2Message
accepting = record {
  type = 33;
  teid = 42;
  has_teid = true;
  sequence = 7;
  payload = encode_ies (granted_ies grant 0 extras);
}

create_outcome-granted_example :
    create_outcome settings accepting 43
    ≡ ok (
      record {
        subscriber_ip = to16 grant.subscriber_ip;
        gateway_ip = [];
        pgw_control_ip = to16 grant.control_ip;
        pgw_user_ip = to16 grant.user_ip;
        gtpc_teid = grant.control_teid;
        local_gtpu_teid = 43;
        remote_gtpu_teid = grant.user_teid;
      },
      cause_request_accepted,
    )
unfolding encode_ies recovery_ie fteid_ie to4
create_outcome-granted_example =
    create_outcome-granted settings grant accepting 0 43 extras grant-IsGrant extras-IsExtras
      (omega arith) refl refl

abbrev refusing : Gtpv2Message
refusing = record {
  type = 33;
  teid = 42;
  has_teid = true;
  sequence = 7;
  payload = encode_ies (recovery_ie 3 ∷ offended_ie 70 0 82 1 0 ∷ fteid_ie 1 36 9 gateway.ip ∷ []);
}

create_outcome-rejected_example :
    let kind : ℕ = 82 in
    let outcome = create_outcome settings refusing 43 in
    let named : OffendingIe = record { type = 82; instance_no = 0; length = 1 } in
    ((kind ≡ 0) × (outcome ≡ err (rejected 70 none)))
    ⊎ ((kind ≢ 0) × (outcome ≡ err (rejected 70 (some named))))
unfolding encode_ies recovery_ie fteid_ie to4
create_outcome-rejected_example =
    create_outcome-rejected settings refusing (recovery_ie 3 ∷ []) (fteid_ie 1 36 9 gateway.ip ∷ [])
      70 0 82 1 0 43 (omega arith, tt) (omega arith, tt) (omega arith, tt) (omega arith)
      (omega arith) (omega arith) refl refl

abbrev echo_config : EchoConfig
echo_config = record { interval_seconds = 0; timeout_seconds = 0; max_failures = 0 }

abbrev probes : List Probe
probes = lost 4 ∷ lost 3 ∷ lost 2 ∷ answered 1 20 ∷ []

watched_lem_example :
    IsShown
      (normalize_echo_config echo_config).max_failures
      probes
      (watched (normalize_echo_config echo_config).max_failures probes)
watched_lem_example = watched_lem echo_config probes
