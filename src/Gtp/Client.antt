-- ===== src/Gtp/Client.antt =====
-- internal/gtp/gtp.go and errors.go: the requests that the GTP-C client sends, and what it reads
-- from the answers. The addresses of the configuration stand as net.ParseIP reads them, nil where
-- it reads none.
pub mod Requests
pub mod Responses
pub mod Transactions
pub mod Health
use vectorcore_twag.Base.{
  ℕ, ◌+◌, ◌-◌, ◌*◌, ◌%◌, ◌^◌, Bool, true, false, ◌&&◌, ◌||◌, List, [], ◌∷◌, ◌++◌, Option, none,
  some, Result, ok, err, ◌>>=◌, ltb, leb, ◌==◌, ◌!=◌, if◌then◌else◌, length,
}
use vectorcore_twag.Base.Bytes.{Bytes}
use vectorcore_twag.Base.Net.{Ip, is_nil, ipv4}
use vectorcore_twag.Base.Text.{Text}
use vectorcore_twag.Session.Types.{Session}
use vectorcore_twag.Gtp.Message.{Gtpv2Message}
use vectorcore_twag.Gtp.Ie.{Gtpv2Ie, encode_ie, encode_ies, decode_ies, find_ie}
use vectorcore_twag.Gtp.Ie as Ies
use vectorcore_twag.Gtp.Ie.Fields.{
  uint8_ie, recovery_ie, charging_characteristics_ie, ambr_ie, bearer_qos_ie, fteid_ie, paa_ie,
  parse_fteid, parse_cause_info, parse_cause, parse_paa, CauseInfo, ie_fteid, pdn_type_ipv4,
}
use vectorcore_twag.Gtp.Ie.Text.{bcd_ie, apn_ie, serving_network_ie, ie_imsi}

abbrev pub gtpv2_echo_request : ℕ
gtpv2_echo_request = 1

abbrev pub gtpv2_echo_response : ℕ
gtpv2_echo_response = 2

abbrev pub gtpv2_create_session_req : ℕ
gtpv2_create_session_req = 32

abbrev pub gtpv2_create_session_resp : ℕ
gtpv2_create_session_resp = 33

abbrev pub gtpv2_delete_session_req : ℕ
gtpv2_delete_session_req = 36

abbrev pub gtpv2_delete_session_resp : ℕ
gtpv2_delete_session_resp = 37

abbrev pub ie_ebi : ℕ
ie_ebi = 73

abbrev pub ie_msisdn : ℕ
ie_msisdn = 76

abbrev pub ie_rat_type : ℕ
ie_rat_type = 82

abbrev pub ie_bearer_context : ℕ
ie_bearer_context = 93

abbrev pub ie_pdn_type : ℕ
ie_pdn_type = 99

abbrev pub ie_apn_restriction : ℕ
ie_apn_restriction = 127

abbrev pub ie_selection_mode : ℕ
ie_selection_mode = 128

abbrev pub cause_request_accepted : ℕ
cause_request_accepted = 16

abbrev pub rat_type_wlan : ℕ
rat_type_wlan = 3

abbrev pub iface_s2a_twan_gtpu : ℕ
iface_s2a_twan_gtpu = 34

abbrev pub iface_s2a_twan_gtpc : ℕ
iface_s2a_twan_gtpc = 35

abbrev pub iface_s2a_pgw_gtpc : ℕ
iface_s2a_pgw_gtpc = 36

abbrev pub iface_s2a_pgw_gtpu : ℕ
iface_s2a_pgw_gtpu = 37

abbrev pub default_charging_characteristics : ℕ
default_charging_characteristics = 0x0800

pub record PgwConfig : Type 0 where
  pub local_gtpc_ip : Ip
  pub local_gtpu_ip : Ip
  pub remote_gtpc_ip : Ip
  pub remote_gtpu_ip : Ip
  pub apn : Text
  pub charging_characteristics : Text

pub record CreateSessionResult : Type 0 where
  pub subscriber_ip : Ip
  pub gateway_ip : Ip
  pub pgw_control_ip : Ip
  pub pgw_user_ip : Ip
  pub gtpc_teid : ℕ
  pub local_gtpu_teid : ℕ
  pub remote_gtpu_teid : ℕ

-- What the Message of a GTPError says.
pub record OffendingIe : Type 0 where
  pub type : ℕ
  pub instance_no : ℕ
  pub length : ℕ

-- `rejected` is a GTPError: its cause, and what its Message says, nothing where that is empty.
pub data Error : Type 0 where
  no_control_teid : Error
  unexpected_type : ℕ → Error
  bad_ies : Ies.Error → Error
  rejected : ℕ → Option OffendingIe → Error

-- nextTEIDValue: the counter behind it, which is also the value.
unfoldable pub next_teid_value : ℕ → ℕ
next_teid_value counter =
    let teid = (counter + 1) % 2 ^ 32 in if teid == 0 then (teid + 1) % 2 ^ 32 else teid

-- firstNonEmpty
unfoldable pub first_non_empty : List Text → Text
first_non_empty [] = []
first_non_empty (v ∷ values) = if length v != 0 then v else first_non_empty values

-- A digit as strconv.ParseUint reads it in base 16.
abbrev hex_value : ℕ → Option ℕ
hex_value c =
    if leb b'0' c && leb c b'9'
    then some (c - b'0')
    else if leb b'a' c && leb c b'f'
    then some (c - b'a' + 10)
    else if leb b'A' c && leb c b'F'
    then some (c - b'A' + 10)
    else none

abbrev push_digit : ℕ → Option ℕ → Option ℕ
push_digit n none = none
push_digit n (some d) = some (n * 16 + d)

unfoldable pub parse_hex : Text → Option ℕ → Option ℕ
parse_hex [] acc = acc
parse_hex (c ∷ s) none = none
parse_hex (c ∷ s) (some n) = parse_hex s (push_digit n (hex_value c))

-- parseChargingCharacteristicsHex; `none` is an error. Four digits fit 16 bits.
unfoldable pub parse_charging_characteristics_hex : Text → Option ℕ
unfolding parse_hex
parse_charging_characteristics_hex s = if length s != 4 then none else parse_hex s (some 0)

-- chargingCharacteristicsValue
unfoldable pub charging_characteristics_value : Text → Option ℕ
charging_characteristics_value value =
    if length value == 0
    then some default_charging_characteristics
    else parse_charging_characteristics_hex value

abbrev pub charging_or_default : Option ℕ → ℕ
charging_or_default none = default_charging_characteristics
charging_or_default (some v) = v

abbrev pub optional_ie : Option Gtpv2Ie → List Gtpv2Ie
optional_ie none = []
optional_ie (some ie) = ie ∷ []

-- The elements of the bearer context, and the context.
unfoldable pub bearer_context_children : PgwConfig → ℕ → List Gtpv2Ie
bearer_context_children cfg local_gtpu =
    uint8_ie ie_ebi 5
    ∷ fteid_ie 6 iface_s2a_twan_gtpu local_gtpu cfg.local_gtpu_ip
    ∷ bearer_qos_ie 9
    ∷ []

unfoldable pub bearer_context_ie : List Gtpv2Ie → Gtpv2Ie
bearer_context_ie children = record {
  type = ie_bearer_context;
  instance_no = 0;
  payload = encode_ies children;
}

-- The elements of createSessionPayload in the order in which it appends them.
unfoldable pub create_session_ies : PgwConfig → Session → ℕ → ℕ → List Gtpv2Ie
unfolding bearer_context_children
create_session_ies cfg sess local_gtpc local_gtpu =
    (bcd_ie ie_imsi sess.imsi
      ∷ recovery_ie 0
      ∷ apn_ie (first_non_empty (cfg.apn ∷ sess.apn ∷ []))
      ∷ [])
    ++ (optional_ie (serving_network_ie sess.realm)
        ++ ((uint8_ie ie_rat_type rat_type_wlan
              ∷ fteid_ie 0 iface_s2a_twan_gtpc local_gtpc cfg.local_gtpc_ip
              ∷ uint8_ie ie_selection_mode 0
              ∷ uint8_ie ie_pdn_type pdn_type_ipv4
              ∷ paa_ie (ipv4 0 0 0 0)
              ∷ uint8_ie ie_apn_restriction 0
              ∷ ambr_ie 0 0
              ∷ charging_characteristics_ie 0 (
                  charging_or_default (charging_characteristics_value cfg.charging_characteristics))
              ∷ bearer_context_ie (bearer_context_children cfg local_gtpu)
              ∷ [])
            ++ (if length sess.msisdn != 0 then bcd_ie ie_msisdn sess.msisdn ∷ [] else [])))

-- createSessionPayload
unfoldable pub create_session_payload : PgwConfig → Session → ℕ → ℕ → Bytes
create_session_payload cfg sess local_gtpc local_gtpu =
    encode_ies (create_session_ies cfg sess local_gtpc local_gtpu)

-- The request of CreateSession before its sequence number is set, with the tunnels that it asks for,
-- and the counter of TEIDs behind it.
pub record CreateRequest : Type 0 where
  pub msg : Gtpv2Message
  pub local_gtpc : ℕ
  pub local_gtpu : ℕ

unfoldable pub create_request : PgwConfig → Session → ℕ → CreateRequest × ℕ
create_request cfg sess counter =
    let gtpc = next_teid_value counter in
    let gtpu = next_teid_value gtpc in
    (
      record {
        msg = record {
          type = gtpv2_create_session_req;
          teid = 0;
          has_teid = true;
          sequence = 0;
          payload = create_session_payload cfg sess gtpc gtpu;
        };
        local_gtpc = gtpc;
        local_gtpu = gtpu;
      },
      gtpu,
    )

abbrev from_ies {ℓ} : {A : Type ℓ} → Result Ies.Error A → Result Error A
from_ies (ok a) = ok a
from_ies (err e) = err (bad_ies e)

-- The first F-TEID of the interface.
unfoldable pub fteid_of_interface : List Gtpv2Ie → ℕ → Option (ℕ × ℕ × Ip)
fteid_of_interface [] want = none
fteid_of_interface (ie ∷ ies) want =
    let rest = fteid_of_interface ies want in
    if ie.type != ie_fteid then rest else elim (parse_fteid ie) [
      | none ↦ rest
      | some (iface, teid, ip) ↦ if iface == want then some (iface, teid, ip) else rest
    ]

-- The first instance that holds an F-TEID which parses.
unfoldable pub fteid_of_instances : List Gtpv2Ie → List ℕ → Option (ℕ × ℕ × Ip)
fteid_of_instances ies [] = none
fteid_of_instances ies (n ∷ instances) =
    let rest = fteid_of_instances ies instances in
    elim (find_ie ies ie_fteid n) [
      | none ↦ rest
      | some ie ↦ elim (parse_fteid ie) [ none ↦ rest | some found ↦ some found ]
    ]

-- findFTEIDByInterface
unfoldable pub find_fteid_by_interface : List Gtpv2Ie → ℕ → List ℕ → Option (ℕ × ℕ × Ip)
find_fteid_by_interface ies want fallback = elim (fteid_of_interface ies want) [
  | some found ↦ some found
  | none ↦ fteid_of_instances ies fallback
]

abbrev pub or_ip : Ip → Ip → Ip
or_ip [] old = old
or_ip (b ∷ ip) old = b ∷ ip

abbrev pub set_control : Option (ℕ × ℕ × Ip) → CreateSessionResult → CreateSessionResult
set_control none r = r
set_control (some (iface, teid, ip)) r = record r {
  gtpc_teid = teid;
  pgw_control_ip = or_ip ip r.pgw_control_ip;
}

abbrev pub set_user : Option (ℕ × ℕ × Ip) → CreateSessionResult → CreateSessionResult
set_user none r = r
set_user (some (iface, teid, ip)) r = record r {
  remote_gtpu_teid = teid;
  pgw_user_ip = or_ip ip r.pgw_user_ip;
}

-- What the loop does for one bearer context.
unfoldable pub read_bearer : Bytes → CreateSessionResult → CreateSessionResult
read_bearer payload r = elim (decode_ies payload) [
  | err e ↦ r
  | ok children ↦ set_user (find_fteid_by_interface children iface_s2a_pgw_gtpu (5 ∷ 2 ∷ [])) r
]

-- The loop over the bearer contexts.
unfoldable pub read_bearers : List Gtpv2Ie → CreateSessionResult → CreateSessionResult
read_bearers [] r = r
read_bearers (ie ∷ ies) r =
    read_bearers ies (if ie.type != ie_bearer_context then r else read_bearer ie.payload r)

-- The result of parseCreateSessionResponse behind its cause.
unfoldable pub accepted_result : PgwConfig → List Gtpv2Ie → ℕ → CreateSessionResult
accepted_result cfg ies local_gtpu = read_bearers ies (
    set_control (find_fteid_by_interface ies iface_s2a_pgw_gtpc (1 ∷ 0 ∷ [])) (record {
      subscriber_ip = parse_paa ies;
      gateway_ip = [];
      pgw_control_ip = cfg.remote_gtpc_ip;
      pgw_user_ip = cfg.remote_gtpu_ip;
      gtpc_teid = 0;
      local_gtpu_teid = local_gtpu;
      remote_gtpu_teid = 0;
    }))

-- The error for a cause other than acceptance: it names the element only where the type is not 0.
unfoldable pub cause_error : CauseInfo → Error
cause_error info =
    if info.offending_ie_type != 0
    then rejected info.cause (
        some record {
          type = info.offending_ie_type;
          instance_no = info.offending_ie_instance;
          length = info.offending_ie_length;
        })
    else rejected info.cause none

-- parseCreateSessionResponse
unfoldable pub parse_create_session_response :
    PgwConfig → Gtpv2Message → ℕ → Result Error (CreateSessionResult × ℕ)
parse_create_session_response cfg resp local_gtpu = from_ies (decode_ies resp.payload) >>= λ ies.
    let info = parse_cause_info ies in
    if info.cause != cause_request_accepted
    then err (cause_error info)
    else ok (accepted_result cfg ies local_gtpu, info.cause)

-- What CreateSession makes of the response to its request.
unfoldable pub create_outcome :
    PgwConfig → Gtpv2Message → ℕ → Result Error (CreateSessionResult × ℕ)
create_outcome cfg resp local_gtpu =
    if resp.type != gtpv2_create_session_resp
    then err (unexpected_type resp.type)
    else parse_create_session_response cfg resp local_gtpu

-- The request of DeleteSession before its sequence number is set.
unfoldable pub delete_request : Session → Result Error Gtpv2Message
delete_request sess =
    if sess.gtpc_teid == 0
    then err no_control_teid
    else ok (record {
      type = gtpv2_delete_session_req;
      teid = sess.gtpc_teid;
      has_teid = true;
      sequence = 0;
      payload = encode_ie (uint8_ie ie_ebi 5);
    })

-- What DeleteSession makes of the response; the cause is the one that it was accepted with.
unfoldable pub delete_outcome : Gtpv2Message → Result Error ℕ
delete_outcome resp =
    if resp.type != gtpv2_delete_session_resp
    then err (unexpected_type resp.type)
    else (from_ies (decode_ies resp.payload) >>= λ ies.
        let cause = parse_cause ies in
        if cause != cause_request_accepted then err (rejected cause none) else ok cause)

-- IsContextNotFound
unfoldable pub is_context_not_found : Error → Bool
is_context_not_found (rejected cause offending) = cause == 64
is_context_not_found _ = false
