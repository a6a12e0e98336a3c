-- ===== src/Session/Expiry.antt =====
-- internal/session/manager.go: the lists of sessions, the expiry of sessions, and the record of an
-- error that the packet gateway reports.
pub mod Laws
use vectorcore_twag.Base.{
  ℕ, ◌+◌, ◌-◌, ◌/◌, ◌%◌, ◌^◌, Bool, true, false, ◌&&◌, ◌||◌, not, List, [], ◌∷◌, ◌++◌, Option, none,
  some, Result, ltb, ◌==◌, if◌then◌else◌, length, zero, suc,
}
use vectorcore_twag.Base.Bytes.{Bytes}
use vectorcore_twag.Base.Map.{Assoc, lookup, delete, text_eq, text_beq}
use vectorcore_twag.Base.Text.{Text, text}
use vectorcore_twag.Session.Types.{Session, Time, terminated}
use vectorcore_twag.Session.Mac.{mac_matches, same_apn}
use vectorcore_twag.Session.Manager.{Manager, Error, edit, update, unindex_locked}
use vectorcore_twag.Session.Operations.{get_session}

-- The sessions of the table that pass a test, in its order.
unfoldable pub find_all : Manager → (Session → Bool) → Assoc Text ℕ → List Session
find_all m test [] = []
find_all m test ((k, p) ∷ rest) =
    if test (m.store p) then m.store p ∷ find_all m test rest else find_all m test rest

-- List
unfoldable pub list_sessions : Manager → List Session
list_sessions m = find_all m (λ s. true) m.by_id

-- FindByMAC
unfoldable pub find_by_mac : Manager → Text → List Session
find_by_mac m mac = find_all m (λ s. mac_matches s.mac_address mac) m.by_id

-- FindByIMSIAPN
unfoldable pub find_by_imsi_apn : Manager → Text → Text → List Session
find_by_imsi_apn m imsi apn = find_all m (λ s. text_beq s.imsi imsi && same_apn s.apn apn) m.by_id

-- LookupByClass
unfoldable pub lookup_by_class : Manager → Bytes → Option Session
lookup_by_class m class = if length class == 0 then none else get_session m class

-- The digit of a nibble in `%x`, and the eight of `%08x`.
abbrev hex_nibble : ℕ → ℕ
hex_nibble n = if ltb n 10 then b'0' + n else b'a' + n - 10

unfoldable pub hex_digits : ℕ → ℕ → Text
hex_digits zero n = []
hex_digits (suc width) n = hex_digits width (n / 16) ++ (hex_nibble (n % 16) ∷ [])

-- The change of RecordGTPUError, and RecordGTPUError.
unfoldable pub gtpu_error : ℕ → Time → Session → Session
unfolding hex_digits
gtpu_error teid at s = record s {
  gtpu_error_count = (s.gtpu_error_count + 1) % 2 ^ 64;
  last_gtpu_error_at = at;
  last_gtpu_error_teid = teid;
  reason = text "GTP-U Error Indication for TEID 0x" ++ hex_digits 8 teid;
}

unfoldable pub record_gtpu_error :
    Manager → Text → ℕ → Time → Time → Result Error (Session × Manager)
record_gtpu_error m id teid at now = update m id now (edit (gtpu_error teid at))

-- The test of the loop in ExpireInactive.
unfoldable pub is_due : Time → Session → Bool
is_due now s = not (s.expires_at == 0 || ltb now s.expires_at)

-- What the loop does to the session at a place, under its name.
unfoldable pub expire : Time → Text → Manager → ℕ → Manager
expire now id m p =
    let out = unindex_locked m p in
    edit (λ s. record s { state = terminated; updated_at = now })
      (record out { by_id = delete id out.by_id }) p

-- The loop over the names in `byID`; a range skips an entry that was deleted before it came to it.
unfoldable pub expire_loop : Time → Assoc Text ℕ → Manager → List Session × Manager
unfolding expire
expire_loop now [] m = ([], m)
expire_loop now ((id, old) ∷ rest) m = elim (lookup id m.by_id) [
  | none ↦ expire_loop now rest m
  | some p ↦ elim (is_due now (m.store p)) [
    | false ↦ expire_loop now rest m
    | true ↦
        let m' = expire now id m p in
        let (expired, after) = expire_loop now rest m' in (m'.store p ∷ expired, after)
  ]
]

-- ExpireInactive
unfoldable pub expire_inactive : Manager → Time → List Session × Manager
expire_inactive m now = expire_loop now m.by_id m
