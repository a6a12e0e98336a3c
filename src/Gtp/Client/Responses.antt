-- ===== src/Gtp/Client/Responses.antt =====
-- What the client takes from a Create Session Response.
use vectorcore_twag.Base.{
  append_assoc, ◌⊎◌, inl, inr, none, Bool-cases, ◌==◌, All-map, ap, sym, ◌%◌, ◌/◌, ◌*◌, ◌+◌,
  bit_and, ℕ, ◌^◌, ◌<◌, ◌≡◌, ◌≢◌, refl, ◌∙◌, List, [], ◌∷◌, ◌++◌, some, ok, err, arith, length, All,
  All-append,
}
use vectorcore_twag.Base.Bits.{low_nibble}
use vectorcore_twag.Base.Bytes.{Bytes, put16}
use vectorcore_twag.Base.Net.{Ip, to4, to16}
use vectorcore_twag.Gtp.Message.{Gtpv2Message}
use vectorcore_twag.Gtp.Ie.{Gtpv2Ie, encode_ies, decode_ies, find_ie}
use vectorcore_twag.Gtp.Ie.RoundTrip.{IsWellFormed, decode_ies-encode_ies}
use vectorcore_twag.Gtp.Ie.Fields.{
  paa_ie, CauseInfo, parse_paa, parse_cause_info, cause_of_payload, fteid_ie, ie_cause, ie_paa,
  ie_fteid,
}
use vectorcore_twag.Gtp.Ie.Fields.RoundTrip.{parse_paa_found, paa_of_paa_ie, paa_ie-IsWellFormed}
use vectorcore_twag.Gtp.Client.{
  PgwConfig, CreateSessionResult, OffendingIe, cause_error, rejected, bearer_context_ie,
  ie_bearer_context, read_bearers, read_bearer, accepted_result, parse_create_session_response,
  create_outcome, gtpv2_create_session_resp, cause_request_accepted, find_fteid_by_interface,
  fteid_of_interface, iface_s2a_pgw_gtpc, iface_s2a_pgw_gtpu,
}
use vectorcore_twag.Gtp.Client.Requests.{
  IsOther, fteid_of_interface-append, fteid_of_interface-fteid_ie, find_ie-skip, fteid_ie-type,
  fteid_ie-IsWellFormed,
}

-- A cause element: the cause, the flags, and what may follow them.
abbrev pub cause_ie : ℕ → ℕ → Bytes → Gtpv2Ie
cause_ie cause flags more = record {
  type = ie_cause;
  instance_no = 0;
  payload = cause ∷ flags ∷ more;
}

-- A cause element that names the element behind the cause, as TS 29.274 has it.
abbrev pub offended_ie : ℕ → ℕ → ℕ → ℕ → ℕ → Gtpv2Ie
offended_ie cause flags kind len inst = cause_ie cause flags (kind ∷ put16 len ++ (inst ∷ []))

-- Elements that the client does not look for.
abbrev pub IsExtra : Gtpv2Ie → Type 0
IsExtra ie =
    IsWellFormed ie × IsOther ie_paa ie × IsOther ie_fteid ie × IsOther ie_bearer_context ie

pub read_bearers-append :
    (xs ys : List Gtpv2Ie) (r : CreateSessionResult)
    → All IsExtra xs
    → read_bearers (xs ++ ys) r ≡ read_bearers ys r
unfolding read_bearers
read_bearers-append [] ys r h = refl
read_bearers-append (x ∷ xs) ys r h = ground (arith, read_bearers-append xs ys r)

by_interface :
    (ies : List Gtpv2Ie) (want : ℕ) (fallback : List ℕ) (found : ℕ × ℕ × Ip)
    → fteid_of_interface ies want ≡ some found
    → find_fteid_by_interface ies want fallback ≡ some found
unfolding find_fteid_by_interface
by_interface ies want fallback found e = rw (e, find_fteid_by_interface)

-- What a gateway grants.
pub record Grant : Type 0 where
  pub subscriber_ip : Ip
  pub control_teid : ℕ
  pub control_ip : Ip
  pub user_teid : ℕ
  pub user_ip : Ip

pub record IsGrant (g : Grant) : Type 0 where
  pub subscriber_four : length (to4 g.subscriber_ip) ≡ 4
  pub control_four : length (to4 g.control_ip) ≡ 4
  pub user_four : length (to4 g.user_ip) ≡ 4
  pub control_range : g.control_teid < 2 ^ 32
  pub user_range : g.user_teid < 2 ^ 32

-- A gateway's answer: the cause, the address, the control tunnel, and a bearer context with the user
-- tunnel, with elements of other types before each.
abbrev pub granted_children : Grant → List Gtpv2Ie → List Gtpv2Ie
granted_children g inner = inner ++ (fteid_ie 2 iface_s2a_pgw_gtpu g.user_teid g.user_ip ∷ [])

pub record Extras : Type 0 where
  pub before_cause : List Gtpv2Ie
  pub before_address : List Gtpv2Ie
  pub before_control : List Gtpv2Ie
  pub before_context : List Gtpv2Ie
  pub before_user : List Gtpv2Ie

pub record IsExtras (x : Extras) : Type 0 where
  pub no_cause : All (IsOther ie_cause) x.before_cause
  pub cause_extra : All IsExtra x.before_cause
  pub address_extra : All IsExtra x.before_address
  pub control_extra : All IsExtra x.before_control
  pub context_extra : All IsExtra x.before_context
  pub user_extra : All IsExtra x.before_user

abbrev pub first_ies : ℕ → Extras → List Gtpv2Ie
first_ies flags x = x.before_cause ++ (cause_ie cause_request_accepted flags [] ∷ x.before_address)

abbrev pub context_ies : Grant → Extras → List Gtpv2Ie
context_ies g x = x.before_context ++ (bearer_context_ie (granted_children g x.before_user) ∷ [])

abbrev pub tunnel_ies : Grant → Extras → List Gtpv2Ie
tunnel_ies g x =
    x.before_control
    ++ (fteid_ie 1 iface_s2a_pgw_gtpc g.control_teid g.control_ip ∷ context_ies g x)

abbrev pub granted_ies : Grant → ℕ → Extras → List Gtpv2Ie
granted_ies g flags x = first_ies flags x ++ (paa_ie g.subscriber_ip ∷ tunnel_ies g x)

extra-IsWellFormed : (xs : List Gtpv2Ie) → All IsExtra xs → All IsWellFormed xs
extra-IsWellFormed xs h = All-map IsExtra IsWellFormed xs (λ ie x. x.0) h

module _ (g : Grant) (h : IsGrant g) (flags : ℕ) (x : Extras) (hx : IsExtras x)
    (fits : length (encode_ies (granted_children g x.before_user)) < 2 ^ 16) where
  abbrev ies : List Gtpv2Ie
  ies = granted_ies g flags x

  abbrev end_ies : List Gtpv2Ie
  end_ies = paa_ie g.subscriber_ip ∷ tunnel_ies g x

  children-IsWellFormed : All IsWellFormed (granted_children g x.before_user)
  children-IsWellFormed =
      All-append IsWellFormed x.before_user _ (extra-IsWellFormed x.before_user hx.user_extra)
        (fteid_ie-IsWellFormed 2 37 g.user_teid g.user_ip (omega arith) h.user_four, tt)

  context-IsWellFormed : IsWellFormed (bearer_context_ie (granted_children g x.before_user))
  unfolding bearer_context_ie
  context-IsWellFormed = omega (arith, fits)

  first-IsExtra : All IsExtra (first_ies flags x)
  first-IsExtra =
      All-append IsExtra x.before_cause _ hx.cause_extra
        ((omega arith, omega arith, omega arith, omega arith), hx.address_extra)

  tunnels-IsWellFormed : All IsWellFormed (tunnel_ies g x)
  tunnels-IsWellFormed =
      All-append IsWellFormed x.before_control _
        (extra-IsWellFormed x.before_control hx.control_extra)
        (
          fteid_ie-IsWellFormed 1 36 g.control_teid g.control_ip (omega arith) h.control_four,
          All-append IsWellFormed x.before_context _
              (extra-IsWellFormed x.before_context hx.context_extra) (context-IsWellFormed, tt),
        )

  ies-IsWellFormed : All IsWellFormed ies
  ies-IsWellFormed =
      All-append IsWellFormed (first_ies flags x) end_ies
        (extra-IsWellFormed (first_ies flags x) first-IsExtra)
        (paa_ie-IsWellFormed g.subscriber_ip h.subscriber_four, tunnels-IsWellFormed)

  address_at : find_ie ies ie_paa 0 ≡ some (paa_ie g.subscriber_ip)
  unfolding find_ie paa_ie
  address_at =
      find_ie-skip (first_ies flags x) end_ies ie_paa 0
        (All-map IsExtra (IsOther ie_paa) (first_ies flags x) (λ ie e. e.1) first-IsExtra)

  found_address : parse_paa ies ≡ to16 g.subscriber_ip
  found_address =
      parse_paa_found ies (paa_ie g.subscriber_ip) address_at
      ∙ paa_of_paa_ie g.subscriber_ip h.subscriber_four

  found_control :
      find_fteid_by_interface ies iface_s2a_pgw_gtpc (1 ∷ 0 ∷ [])
      ≡ some (iface_s2a_pgw_gtpc, g.control_teid, to16 g.control_ip)
  unfolding fteid_of_interface paa_ie
  found_control = by_interface ies iface_s2a_pgw_gtpc (1 ∷ 0 ∷ []) _ (
      fteid_of_interface-append (first_ies flags x) end_ies iface_s2a_pgw_gtpc
        (All-map IsExtra (IsOther ie_fteid) (first_ies flags x) (λ ie e. e.2) first-IsExtra)
      ∙ fteid_of_interface-append x.before_control _ iface_s2a_pgw_gtpc
          (All-map IsExtra (IsOther ie_fteid) x.before_control (λ ie e. e.2) hx.control_extra)
      ∙ fteid_of_interface-fteid_ie 1 36 g.control_teid g.control_ip (context_ies g x) (omega arith)
          h.control_range h.control_four)

  found_user :
      find_fteid_by_interface (granted_children g x.before_user) iface_s2a_pgw_gtpu (5 ∷ 2 ∷ [])
      ≡ some (iface_s2a_pgw_gtpu, g.user_teid, to16 g.user_ip)
  found_user = by_interface (granted_children g x.before_user) iface_s2a_pgw_gtpu (5 ∷ 2 ∷ []) _ (
      fteid_of_interface-append x.before_user _ iface_s2a_pgw_gtpu
        (All-map IsExtra (IsOther ie_fteid) x.before_user (λ ie e. e.2) hx.user_extra)
      ∙ fteid_of_interface-fteid_ie 2 37 g.user_teid g.user_ip [] (omega arith) h.user_range
          h.user_four)

  bearer_read :
      (r : CreateSessionResult)
      → read_bearer (encode_ies (granted_children g x.before_user)) r
        ≡ record r { remote_gtpu_teid = g.user_teid; pgw_user_ip = to16 g.user_ip }
  unfolding read_bearer
  bearer_read r =
      rw
        (
          decode_ies-encode_ies (granted_children g x.before_user) children-IsWellFormed,
          read_bearer,
        )
        (rw found_user refl)

  read_user :
      (r : CreateSessionResult)
      → read_bearers ies r
        ≡ record r { remote_gtpu_teid = g.user_teid; pgw_user_ip = to16 g.user_ip }
  unfolding read_bearers paa_ie bearer_context_ie
  read_user r =
      let control = fteid_ie 1 iface_s2a_pgw_gtpc g.control_teid g.control_ip in
      let passed : read_bearers (control ∷ context_ies g x) r ≡ read_bearers (context_ies g x) r =
        ground (arith, fteid_ie-type 1 iface_s2a_pgw_gtpc g.control_teid g.control_ip) in
      read_bearers-append (first_ies flags x) end_ies r first-IsExtra
      ∙ read_bearers-append x.before_control (control ∷ context_ies g x) r hx.control_extra
      ∙ passed
      ∙ read_bearers-append x.before_context _ r hx.context_extra
      ∙ bearer_read r

  accepted :
      (cfg : PgwConfig) (local_gtpu : ℕ)
      → accepted_result cfg ies local_gtpu ≡ record {
        subscriber_ip = to16 g.subscriber_ip;
        gateway_ip = [];
        pgw_control_ip = to16 g.control_ip;
        pgw_user_ip = to16 g.user_ip;
        gtpc_teid = g.control_teid;
        local_gtpu_teid = local_gtpu;
        remote_gtpu_teid = g.user_teid;
      }
  unfolding accepted_result
  accepted cfg local_gtpu = rw (found_address, found_control) (read_user _)

  caused : (parse_cause_info ies).cause ≡ cause_request_accepted
  unfolding parse_cause_info find_ie cause_of_payload
  caused =
      let rest = cause_ie cause_request_accepted flags [] ∷ (x.before_address ++ end_ies) in
      let found : find_ie (x.before_cause ++ rest) ie_cause 0
          ≡ some (cause_ie cause_request_accepted flags []) =
        find_ie-skip x.before_cause rest ie_cause 0 hx.no_cause in
      let shape : ies ≡ x.before_cause ++ rest =
        append_assoc x.before_cause (cause_ie cause_request_accepted flags [] ∷ x.before_address)
          end_ies in
      let told : (parse_cause_info (x.before_cause ++ rest)).cause ≡ cause_request_accepted =
        rw (found, parse_cause_info) refl in
      ap (λ l. (parse_cause_info l).cause) shape ∙ told

-- A Create Session Response that grants IPv4 addresses and TEIDs of 32 bits by the cause of
-- acceptance, the PAA, the control F-TEID and a bearer context of fewer than 2 ^ 16 bytes with the
-- user F-TEID, in this order, where before each of these five stand any well-formed elements that
-- are no PAA, F-TEID or bearer context, and before the cause no other cause. The client makes of it
-- exactly what was granted, with its own user tunnel.
pub create_outcome-granted :
    (cfg : PgwConfig) (g : Grant) (resp : Gtpv2Message) (flags local_gtpu : ℕ) (x : Extras)
    → IsGrant g
    → IsExtras x
    → length (encode_ies (granted_children g x.before_user)) < 2 ^ 16
    → resp.type ≡ gtpv2_create_session_resp
    → resp.payload ≡ encode_ies (granted_ies g flags x)
    → create_outcome cfg resp local_gtpu
      ≡ ok (
        record {
          subscriber_ip = to16 g.subscriber_ip;
          gateway_ip = [];
          pgw_control_ip = to16 g.control_ip;
          pgw_user_ip = to16 g.user_ip;
          gtpc_teid = g.control_teid;
          local_gtpu_teid = local_gtpu;
          remote_gtpu_teid = g.user_teid;
        },
        cause_request_accepted,
      )
unfolding create_outcome parse_create_session_response
create_outcome-granted cfg g resp flags local_gtpu x h hx fits typed sent = ground (
  arith,
  decode_ies-encode_ies (granted_ies g flags x) (ies-IsWellFormed g h flags x hx fits),
  caused g h flags x hx fits,
  accepted g h flags x hx fits cfg local_gtpu,
)

other_cause :
    (cfg : PgwConfig) (resp : Gtpv2Message) (ies : List Gtpv2Ie) (local_gtpu : ℕ)
    → resp.type ≡ gtpv2_create_session_resp
    → decode_ies resp.payload ≡ ok ies
    → (parse_cause_info ies).cause ≢ cause_request_accepted
    → create_outcome cfg resp local_gtpu ≡ err (cause_error (parse_cause_info ies))
unfolding create_outcome parse_create_session_response
other_cause cfg resp ies local_gtpu typed e h = ground arith

cause_told :
    (cause flags kind len inst : ℕ)
    → len < 2 ^ 16
    → inst < 16
    → cause_of_payload (cause ∷ flags ∷ kind ∷ put16 len ++ (inst ∷ [])) ≡ record {
      cause = cause;
      offending_ie_type = kind;
      offending_ie_length = len;
      offending_ie_instance = inst;
    }
unfolding cause_of_payload
cause_told cause flags kind len inst fits small =
    let length_told : len / 256 % 256 * 256 + len % 256 ≡ len = omega arith in
    let instance_told : bit_and inst 15 ≡ inst = low_nibble inst (omega arith) ∙ omega arith in
    rw (length_told, instance_told) refl

-- A Create Session Response that a gateway encodes with a cause other than acceptance and the
-- element that it takes offence at, whatever well-formed elements stand behind the cause and
-- whatever ones of other types before it, is an error that carries the cause, and that names the
-- element exactly when the type of the element is not 0.
pub create_outcome-rejected :
    (cfg : PgwConfig) (resp : Gtpv2Message) (before behind : List Gtpv2Ie)
    (cause flags kind len inst local_gtpu : ℕ)
    → All IsWellFormed before
    → All (IsOther ie_cause) before
    → All IsWellFormed behind
    → len < 2 ^ 16
    → inst < 16
    → cause ≢ cause_request_accepted
    → resp.type ≡ gtpv2_create_session_resp
    → resp.payload ≡ encode_ies (before ++ (offended_ie cause flags kind len inst ∷ behind))
    → let outcome = create_outcome cfg resp local_gtpu in
      let named : OffendingIe = record { type = kind; instance_no = inst; length = len } in
      ((kind ≡ 0) × (outcome ≡ err (rejected cause none)))
      ⊎ ((kind ≢ 0) × (outcome ≡ err (rejected cause (some named))))
unfolding parse_cause_info find_ie cause_error
create_outcome-rejected cfg resp before behind cause flags kind len inst local_gtpu hb others ha
      fits small other typed encoded =
    let ies : List Gtpv2Ie = before ++ (offended_ie cause flags kind len inst ∷ behind) in
    let read : decode_ies (encode_ies ies) ≡ ok ies =
      decode_ies-encode_ies ies (All-append IsWellFormed before _ hb (omega arith, ha)) in
    let at_cause : find_ie ies ie_cause 0 ≡ some (offended_ie cause flags kind len inst) =
      find_ie-skip before (offended_ie cause flags kind len inst ∷ behind) ie_cause 0 others in
    let info : parse_cause_info ies ≡ record {
      cause = cause;
      offending_ie_type = kind;
      offending_ie_length = len;
      offending_ie_instance = inst;
    } =
      rw (at_cause, parse_cause_info) (cause_told cause flags kind len inst fits small) in
    let outcome : create_outcome cfg resp local_gtpu ≡ err (cause_error (parse_cause_info ies)) =
      other_cause cfg resp ies local_gtpu typed (ap decode_ies encoded ∙ read)
        (λ e. other (sym (ap (λ (i : CauseInfo). i.cause) info) ∙ e)) in
    elim (Bool-cases (kind == 0)) [
      | inl nothing ↦
          inl (ground arith, outcome ∙ ap (λ i. err (cause_error i)) info ∙ ground arith)
      | inr one ↦ inr (ground arith, outcome ∙ ap (λ i. err (cause_error i)) info ∙ ground arith)
    ]
