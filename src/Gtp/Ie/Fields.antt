-- ===== src/Gtp/Ie/Fields.antt =====
-- internal/gtp/gtpv2_ie.go: the elements that carry addresses, tunnel endpoints, causes and rates,
-- and the functions that read them back.
pub mod RoundTrip
use vectorcore_twag.Base.{
  ℕ, ◌+◌, ◌*◌, ◌%◌, Bool, true, false, ◌||◌, List, [], ◌∷◌, ◌++◌, Option, none, some, ltb, ◌==◌,
  ◌!=◌, if◌then◌else◌, length, replicate, bit_and, bit_or,
}
use vectorcore_twag.Base.Bytes.{Bytes, at, put16, put32, read16, read32}
use vectorcore_twag.Base.Net.{Ip, to4, ipv4, is_nil}
use vectorcore_twag.Gtp.Ie.{Gtpv2Ie, find_ie}

abbrev pub ie_cause : ℕ
ie_cause = 2

abbrev pub ie_recovery : ℕ
ie_recovery = 3

abbrev pub ie_ambr : ℕ
ie_ambr = 72

abbrev pub ie_paa : ℕ
ie_paa = 79

abbrev pub ie_bearer_qos : ℕ
ie_bearer_qos = 80

abbrev pub ie_fteid : ℕ
ie_fteid = 87

abbrev pub ie_charging_chars : ℕ
ie_charging_chars = 95

abbrev pub pdn_type_ipv4 : ℕ
pdn_type_ipv4 = 1

-- uint8IEInstance, uint8IE, recoveryIE
unfoldable pub uint8_ie_instance : ℕ → ℕ → ℕ → Gtpv2Ie
uint8_ie_instance type instance_no v = record {
  type = type;
  instance_no = instance_no;
  payload = v ∷ [];
}

unfoldable pub uint8_ie : ℕ → ℕ → Gtpv2Ie
unfolding uint8_ie_instance
uint8_ie type v = uint8_ie_instance type 0 v

unfoldable pub recovery_ie : ℕ → Gtpv2Ie
unfolding uint8_ie
recovery_ie restart_counter = uint8_ie ie_recovery restart_counter

-- chargingCharacteristicsIE
unfoldable pub charging_characteristics_ie : ℕ → ℕ → Gtpv2Ie
charging_characteristics_ie instance_no value = record {
  type = ie_charging_chars;
  instance_no = instance_no;
  payload = put16 value;
}

-- ambrIE
unfoldable pub ambr_ie : ℕ → ℕ → Gtpv2Ie
ambr_ie uplink downlink = record {
  type = ie_ambr;
  instance_no = 0;
  payload = put32 uplink ++ put32 downlink;
}

-- bearerQoSIE
unfoldable pub bearer_qos_ie : ℕ → Gtpv2Ie
bearer_qos_ie qci = record {
  type = ie_bearer_qos;
  instance_no = 0;
  payload = 0 ∷ qci ∷ replicate 20 0;
}

-- fteidIE; an address that is not IPv4 is left out.
unfoldable pub fteid_ie : ℕ → ℕ → ℕ → Ip → Gtpv2Ie
fteid_ie instance_no iface teid ip =
    if ltb 0x3f iface
    then record { type = ie_fteid; instance_no = instance_no; payload = [] }
    else record {
      type = ie_fteid;
      instance_no = instance_no;
      payload = bit_or 0x80 iface ∷ (put32 teid ++ to4 ip);
    }

-- paaIE
unfoldable pub paa_ie : Ip → Gtpv2Ie
paa_ie ip = record { type = ie_paa; instance_no = 0; payload = pdn_type_ipv4 ∷ to4 ip }

pub record CauseInfo : Type 0 where
  pub cause : ℕ
  pub offending_ie_type : ℕ
  pub offending_ie_length : ℕ
  pub offending_ie_instance : ℕ

abbrev pub no_cause : CauseInfo
no_cause = record {
  cause = 0;
  offending_ie_type = 0;
  offending_ie_length = 0;
  offending_ie_instance = 0;
}

-- What parseCauseInfo reads from the payload of a cause element.
unfoldable pub cause_of_payload : Bytes → CauseInfo
cause_of_payload payload =
    if length payload == 0
    then no_cause
    else if ltb (length payload) 6
    then record no_cause { cause = at payload 0 }
    else record {
      cause = at payload 0;
      offending_ie_type = at payload 2;
      offending_ie_length = read16 payload 3;
      offending_ie_instance = bit_and (at payload 5) 0x0f;
    }

-- parseCauseInfo and parseCause
unfoldable pub parse_cause_info : List Gtpv2Ie → CauseInfo
unfolding cause_of_payload
parse_cause_info ies = elim (find_ie ies ie_cause 0) [
  | none ↦ no_cause
  | some ie ↦ cause_of_payload ie.payload
]

unfoldable pub parse_cause : List Gtpv2Ie → ℕ
unfolding parse_cause_info
parse_cause ies = (parse_cause_info ies).cause

-- What parsePAA reads from the payload of a PAA element.
unfoldable pub paa_of_payload : Bytes → Ip
paa_of_payload p =
    if ltb (length p) 5
    then []
    else if bit_and (at p 0) 0x07 != pdn_type_ipv4
    then []
    else ipv4 (at p 1) (at p 2) (at p 3) (at p 4)

-- parsePAA
unfoldable pub parse_paa : List Gtpv2Ie → Ip
unfolding paa_of_payload
parse_paa ies = elim (find_ie ies ie_paa 0) [ none ↦ [] | some ie ↦ paa_of_payload ie.payload ]

-- parseFTEID: the interface type, the TEID and the address, nil where the element has none.
unfoldable pub parse_fteid : Gtpv2Ie → Option (ℕ × ℕ × Ip)
parse_fteid ie =
    let p = ie.payload in
    let iface = bit_and (at p 0) 0x3f in
    let teid = read32 p 1 in
    if ltb (length p) 5
    then none
    else if bit_and (at p 0) 0x80 == 0 || ltb (length p) 9
    then some (iface, teid, [])
    else some (iface, teid, ipv4 (at p 5) (at p 6) (at p 7) (at p 8))
