-- ===== src/Gtp/Client/Requests.antt =====
-- What a gateway reads from a Create Session Request.
use vectorcore_twag.Base.{
  length-append, ℕ, ◌+◌, ◌-◌, ◌%◌, ◌^◌, ◌≤◌, ◌<◌, ◌≡◌, ◌≢◌, refl, ◌∙◌, List, [], ◌∷◌, ◌++◌, some,
  ok, arith, length, All, All-append, Bool-cases, Option-cases, inl, inr, ◌!=◌, if◌then◌else◌,
}
use vectorcore_twag.Base.Net.{Ip, to4, to16, ipv4}
use vectorcore_twag.Base.Text.{Text}
use vectorcore_twag.Session.Types.{Session}
use vectorcore_twag.Gtp.Ie.{encode_ie, Gtpv2Ie, encode_ies, decode_ies, find_ie}
use vectorcore_twag.Gtp.Ie.RoundTrip.{IsWellFormed, decode_ies-encode_ies}
use vectorcore_twag.Gtp.Ie.Fields.{
  pdn_type_ipv4, uint8_ie, recovery_ie, charging_characteristics_ie, ambr_ie, bearer_qos_ie,
  fteid_ie, paa_ie, ie_fteid,
}
use vectorcore_twag.Gtp.Ie.Fields.RoundTrip.{parse_fteid-fteid_ie}
use vectorcore_twag.Gtp.Ie.Text.{
  bcd_ie, apn_ie, serving_network_ie, digits_of, ie_serving_network, ie_imsi, plmn_from_realm,
  encode_plmn,
}
use vectorcore_twag.Gtp.Ie.Text.Digits.{unpack-encode_tbcd}
use vectorcore_twag.Gtp.Client.{
  ie_rat_type, rat_type_wlan, ie_msisdn, ie_selection_mode, ie_pdn_type, ie_apn_restriction,
  charging_or_default, charging_characteristics_value, PgwConfig, bearer_context_children,
  bearer_context_ie, create_session_ies, create_session_payload, create_request, next_teid_value,
  first_non_empty, fteid_of_interface, optional_ie, ie_bearer_context, iface_s2a_twan_gtpc,
  iface_s2a_twan_gtpu,
}

-- A TEID is a number of 32 bits that is not 0, and the next one is another.
pub next_teid_value_lem :
    (counter : ℕ)
    → (1 ≤ next_teid_value counter)
      × (next_teid_value counter < 2 ^ 32)
      × (next_teid_value (next_teid_value counter) ≢ next_teid_value counter)
unfolding next_teid_value
next_teid_value_lem counter = ground arith

-- The TEIDs go round the numbers from 1 to 2 ^ 32 - 1.
next_teid_value_cycle :
    (counter : ℕ) → counter < 2 ^ 32 → next_teid_value counter ≡ counter % (2 ^ 32 - 1) + 1
unfolding next_teid_value
next_teid_value_cycle counter h = ground arith

length-digits_of : (s : Text) → length (digits_of s) ≤ length s
unfolding digits_of
length-digits_of [] = omega arith
length-digits_of (c ∷ s) = ground (arith, length-digits_of s)

bcd_ie-IsWellFormed : (t : ℕ) (s : Text) → t < 256 → length s < 2 ^ 16 → IsWellFormed (bcd_ie t s)
unfolding bcd_ie
bcd_ie-IsWellFormed t s ht hs = ground (arith, unpack-encode_tbcd s, length-digits_of s)

serving_network-IsWellFormed :
    (realm : Text) → All IsWellFormed (optional_ie (serving_network_ie realm))
unfolding serving_network_ie encode_plmn
serving_network-IsWellFormed realm = elim (Option-cases (plmn_from_realm realm)) [
  | inl absent ↦ rw (absent, serving_network_ie) tt
  | inr (plmn, found) ↦ rw (found, serving_network_ie) (ground arith)
]

pub fteid_ie-IsWellFormed :
    (n iface teid : ℕ) (ip : Ip)
    → n < 16
    → length (to4 ip) ≡ 4
    → IsWellFormed (fteid_ie n iface teid ip)
unfolding fteid_ie
fteid_ie-IsWellFormed n iface teid ip h k = ground arith

-- Elements of other types are passed over.
abbrev pub IsOther : ℕ → Gtpv2Ie → Type 0
IsOther t ie = ie.type ≢ t

pub fteid_of_interface-append :
    (xs ys : List Gtpv2Ie) (want : ℕ)
    → All (IsOther ie_fteid) xs
    → fteid_of_interface (xs ++ ys) want ≡ fteid_of_interface ys want
unfolding fteid_of_interface
fteid_of_interface-append [] ys want h = refl
fteid_of_interface-append (x ∷ xs) ys want h = ground (arith, fteid_of_interface-append xs ys want)

pub find_ie-skip :
    (xs ys : List Gtpv2Ie) (t n : ℕ) → All (IsOther t) xs → find_ie (xs ++ ys) t n ≡ find_ie ys t n
unfolding find_ie
find_ie-skip [] ys t n h = refl
find_ie-skip (x ∷ xs) ys t n h = ground (arith, find_ie-skip xs ys t n)

network-IsOther :
    (realm : Text) (t : ℕ)
    → t ≢ ie_serving_network
    → All (IsOther t) (optional_ie (serving_network_ie realm))
unfolding serving_network_ie
network-IsOther realm t h = elim (Option-cases (plmn_from_realm realm)) [
  | inl absent ↦ rw (absent, serving_network_ie) tt
  | inr (plmn, found) ↦ rw (found, serving_network_ie) (ground arith)
]

pub fteid_ie-type : (n iface teid : ℕ) (ip : Ip) → (fteid_ie n iface teid ip).type ≡ ie_fteid
unfolding fteid_ie
fteid_ie-type n iface teid ip = ground arith

-- An F-TEID of the interface that is looked for, at the front.
pub fteid_of_interface-fteid_ie :
    (n iface teid : ℕ) (ip : Ip) (ies : List Gtpv2Ie)
    → iface ≤ 0x3f
    → teid < 2 ^ 32
    → length (to4 ip) ≡ 4
    → fteid_of_interface (fteid_ie n iface teid ip ∷ ies) iface ≡ some (iface, teid, to16 ip)
unfolding fteid_of_interface
fteid_of_interface-fteid_ie n iface teid ip ies hi ht h =
    ground (arith, fteid_ie-type n iface teid ip, parse_fteid-fteid_ie n iface teid ip hi ht h)

-- What the configuration and the session must be for a request that every reader can take apart.
pub record IsEncodable (cfg : PgwConfig) (sess : Session) : Type 0 where
  pub control_ip : length (to4 cfg.local_gtpc_ip) ≡ 4
  pub user_ip : length (to4 cfg.local_gtpu_ip) ≡ 4
  pub imsi : length sess.imsi < 2 ^ 16
  pub msisdn : length sess.msisdn < 2 ^ 16
  pub apn : length (apn_ie (first_non_empty (cfg.apn ∷ sess.apn ∷ []))).payload < 2 ^ 16

module _ (cfg : PgwConfig) (sess : Session) (e : IsEncodable cfg sess) (gtpc gtpu : ℕ) where
  children-IsWellFormed : All IsWellFormed (bearer_context_children cfg gtpu)
  unfolding bearer_context_children uint8_ie bearer_qos_ie
  children-IsWellFormed = (
    omega arith,
    (fteid_ie-IsWellFormed 6 34 gtpu cfg.local_gtpu_ip (omega arith) e.user_ip, (omega arith, tt)),
  )

  context-IsWellFormed : IsWellFormed (bearer_context_ie (bearer_context_children cfg gtpu))
  unfolding bearer_context_ie bearer_context_children encode_ies encode_ie uint8_ie bearer_qos_ie
      fteid_ie
  context-IsWellFormed =
      ground (
        arith,
        e.user_ip,
        length-append (to4 cfg.local_gtpu_ip) (encode_ie (bearer_qos_ie 9) ++ []),
      )

  abbrev head_ies : List Gtpv2Ie
  head_ies =
      bcd_ie ie_imsi sess.imsi
      ∷ recovery_ie 0
      ∷ apn_ie (first_non_empty (cfg.apn ∷ sess.apn ∷ []))
      ∷ []

  abbrev tail_ies : List Gtpv2Ie
  tail_ies = if length sess.msisdn != 0 then bcd_ie ie_msisdn sess.msisdn ∷ [] else []

  abbrev middle_ies : List Gtpv2Ie
  middle_ies =
      uint8_ie ie_selection_mode 0
      ∷ uint8_ie ie_pdn_type pdn_type_ipv4
      ∷ paa_ie (ipv4 0 0 0 0)
      ∷ uint8_ie ie_apn_restriction 0
      ∷ ambr_ie 0 0
      ∷ charging_characteristics_ie 0
          (charging_or_default (charging_characteristics_value cfg.charging_characteristics))
      ∷ []

  tail-IsWellFormed : All IsWellFormed tail_ies
  tail-IsWellFormed = elim (Bool-cases (length sess.msisdn != 0)) [
    | inl named ↦ rw named (bcd_ie-IsWellFormed ie_msisdn sess.msisdn (omega arith) e.msisdn, tt)
    | inr bare ↦ rw bare tt
  ]

  middle-IsWellFormed : All IsWellFormed middle_ies
  unfolding uint8_ie paa_ie to4 ambr_ie charging_characteristics_ie
  middle-IsWellFormed = omega arith

  abbrev context : Gtpv2Ie
  context = bearer_context_ie (bearer_context_children cfg gtpu)

  -- What follows the serving network.
  abbrev behind_network : List Gtpv2Ie
  behind_network =
      uint8_ie ie_rat_type rat_type_wlan
      ∷ fteid_ie 0 iface_s2a_twan_gtpc gtpc cfg.local_gtpc_ip
      ∷ (middle_ies ++ (context ∷ tail_ies))

  behind_network-IsWellFormed : All IsWellFormed behind_network
  unfolding uint8_ie
  behind_network-IsWellFormed =
      let end : All IsWellFormed (context ∷ tail_ies) = (context-IsWellFormed, tail-IsWellFormed) in
      let rest : All IsWellFormed (middle_ies ++ (context ∷ tail_ies)) =
        All-append IsWellFormed middle_ies (context ∷ tail_ies) middle-IsWellFormed end in
      (
        omega arith,
        (fteid_ie-IsWellFormed 0 35 gtpc cfg.local_gtpc_ip (omega arith) e.control_ip, rest),
      )

  head-IsWellFormed : All IsWellFormed head_ies
  unfolding recovery_ie uint8_ie apn_ie
  head-IsWellFormed = (
    bcd_ie-IsWellFormed ie_imsi sess.imsi (omega arith) e.imsi,
    (omega arith, (ground arith, tt)),
  )

  abbrev network : List Gtpv2Ie
  network = optional_ie (serving_network_ie sess.realm)

  ies-IsWellFormed : All IsWellFormed (create_session_ies cfg sess gtpc gtpu)
  unfolding create_session_ies
  ies-IsWellFormed =
      All-append IsWellFormed head_ies (network ++ behind_network) head-IsWellFormed (
        All-append IsWellFormed network behind_network (serving_network-IsWellFormed sess.realm)
          behind_network-IsWellFormed)

  found_control :
      gtpc < 2 ^ 32
      → fteid_of_interface (create_session_ies cfg sess gtpc gtpu) iface_s2a_twan_gtpc
        ≡ some (iface_s2a_twan_gtpc, gtpc, to16 cfg.local_gtpc_ip)
  unfolding create_session_ies bcd_ie recovery_ie uint8_ie apn_ie fteid_of_interface
  found_control h =
      fteid_of_interface-append network behind_network iface_s2a_twan_gtpc
        (network-IsOther sess.realm ie_fteid (omega arith))
      ∙ fteid_of_interface-fteid_ie 0 35 gtpc cfg.local_gtpc_ip (middle_ies ++ (context ∷ tail_ies))
          (omega arith) h e.control_ip

  found_context : find_ie (create_session_ies cfg sess gtpc gtpu) ie_bearer_context 0 ≡ some context
  unfolding create_session_ies bcd_ie recovery_ie uint8_ie apn_ie find_ie bearer_context_ie paa_ie
      ambr_ie charging_characteristics_ie
  found_context =
      find_ie-skip network behind_network ie_bearer_context 0
        (network-IsOther sess.realm ie_bearer_context (omega arith))
      ∙ ground (arith, fteid_ie-type 0 iface_s2a_twan_gtpc gtpc cfg.local_gtpc_ip)

  found_user :
      gtpu < 2 ^ 32
      → fteid_of_interface (bearer_context_children cfg gtpu) iface_s2a_twan_gtpu
        ≡ some (iface_s2a_twan_gtpu, gtpu, to16 cfg.local_gtpu_ip)
  unfolding bearer_context_children uint8_ie fteid_of_interface
  found_user h =
      fteid_of_interface-fteid_ie 6 34 gtpu cfg.local_gtpu_ip (bearer_qos_ie 9 ∷ []) (omega arith) h
        e.user_ip

-- A Create Session Request for an encodable session, with the counter of TEIDs at any number of 32
-- bits, is decoded by a gateway to elements among which it finds the control tunnel that the client
-- keeps, and in the bearer context the user tunnel that the client keeps, with the client's
-- addresses. The TEIDs of the two are the next ones of a round through the numbers from 1 to
-- 2 ^ 32 - 1, where the counter is left; they differ from each other and from the one before them.
pub create_request_read :
    (cfg : PgwConfig) (sess : Session) (counter : ℕ)
    → IsEncodable cfg sess
    → counter < 2 ^ 32
    → let r = (create_request cfg sess counter).0 in
      (ies : List Gtpv2Ie) × (context : Gtpv2Ie) × (children : List Gtpv2Ie) × (decode_ies
          r.msg.payload
        ≡ ok ies)
      × (fteid_of_interface ies iface_s2a_twan_gtpc
          ≡ some (iface_s2a_twan_gtpc, r.local_gtpc, to16 cfg.local_gtpc_ip))
      × (find_ie ies ie_bearer_context 0 ≡ some context)
      × (decode_ies context.payload ≡ ok children)
      × (fteid_of_interface children iface_s2a_twan_gtpu
          ≡ some (iface_s2a_twan_gtpu, r.local_gtpu, to16 cfg.local_gtpu_ip))
      × (1 ≤ r.local_gtpc)
      × (1 ≤ r.local_gtpu)
      × (r.local_gtpu ≢ r.local_gtpc)
      × (r.local_gtpc ≡ counter % (2 ^ 32 - 1) + 1)
      × (r.local_gtpu ≡ r.local_gtpc % (2 ^ 32 - 1) + 1)
      × ((create_request cfg sess counter).1 ≡ r.local_gtpu)
      × (r.local_gtpc ≢ counter)
      × (r.local_gtpu ≢ counter)
unfolding create_request create_session_payload bearer_context_ie
create_request_read cfg sess counter e small =
    let gtpc = next_teid_value counter in
    let gtpu = next_teid_value gtpc in
    let children = bearer_context_children cfg gtpu in
    let (positive, bound, other) = next_teid_value_lem counter in
    let (positive', bound', other') = next_teid_value_lem gtpc in
    let control : gtpc ≡ counter % (2 ^ 32 - 1) + 1 = next_teid_value_cycle counter small in
    let user : gtpu ≡ gtpc % (2 ^ 32 - 1) + 1 = next_teid_value_cycle gtpc bound in
    (
      create_session_ies cfg sess gtpc gtpu,
      bearer_context_ie children,
      children,
      decode_ies-encode_ies (create_session_ies cfg sess gtpc gtpu)
          (ies-IsWellFormed cfg sess e gtpc gtpu),
      found_control cfg sess e gtpc gtpu bound,
      found_context cfg sess e gtpc gtpu,
      decode_ies-encode_ies children (children-IsWellFormed cfg sess e gtpc gtpu),
      found_user cfg sess e gtpc gtpu bound',
      positive,
      positive',
      other,
      control,
      user,
      refl,
      omega (arith, control, small),
      omega (arith, control, user, small),
    )
