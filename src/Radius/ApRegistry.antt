-- ===== src/Radius/ApRegistry.antt =====
-- internal/radius/ap_registry.go: the access points that have sent a request. The mutex makes Update
-- one step, and `now` is what time.Now gives it.
pub mod Counts
use vectorcore_twag.Base.{
  ℕ, ◌+◌, ◌%◌, ◌^◌, Bool, true, false, List, [], ◌∷◌, Option, none, some, ◌==◌, if◌then◌else◌,
  length,
}
use vectorcore_twag.Base.Map.{Assoc, lookup, insert, text_eq}
use vectorcore_twag.Base.Text.{Text, text, to_lower}
use vectorcore_twag.Session.Types.{Time}
use vectorcore_twag.Session.Mac.{parse_mac}
use vectorcore_twag.Session.AuthCache.{trim_space}

pub record ApObservation : Type 0 where
  pub source_ip : Text
  pub nas_ip : Text
  pub nas_identifier : Text
  pub called_station_id : Text
  pub accounting_packet : Bool

pub record ApRecord : Type 0 where
  pub source_ip : Text
  pub nas_ip : Text
  pub nas_identifier : Text
  pub called_station_id : Text
  pub bssid : Text
  pub ssid : Text
  pub first_seen : Time
  pub last_seen : Time
  pub auth_request_count : ℕ
  pub accounting_request_count : ℕ

-- The registry's map; a record in it is reached through the map only.
abbrev pub ApRegistry : Type 0
ApRegistry = Assoc Text ApRecord

-- coalesceString
unfoldable pub coalesce_string : List Text → Text
coalesce_string [] = []
coalesce_string (v ∷ values) = if length v == 0 then coalesce_string values else v

abbrev behind : ℕ → Option (Text × Text) → Option (Text × Text)
behind c none = none
behind c (some (field, rest)) = some (c ∷ field, rest)

-- strings.SplitN into two parts at one byte; `none` where it gives one part.
unfoldable pub cut : ℕ → Text → Option (Text × Text)
cut sep [] = none
cut sep (c ∷ s) = let rest = cut sep s in if c == sep then some ([], s) else behind c rest

-- The loop over the separators.
unfoldable pub try_separators : List ℕ → Text → Text × Text
unfolding cut
try_separators [] value = ([], [])
try_separators (sep ∷ seps) value =
    let rest = try_separators seps value in
    elim (cut sep value) [
      | none ↦ rest
      | some (mac, ssid) ↦ elim (parse_mac mac) [
        | none ↦ rest
        | some hw ↦ (to_lower mac, trim_space ssid)
      ]
    ]

-- parseCalledStationID: the BSSID and the SSID.
unfoldable pub parse_called_station_id : Text → Text × Text
unfolding try_separators
parse_called_station_id value =
    let trimmed = trim_space value in
    if length trimmed == 0 then ([], []) else try_separators (b':' ∷ b' ' ∷ []) trimmed

-- The key that Update files an observation under.
unfoldable pub registry_key : ApObservation → Text
registry_key obs =
    let key =
      coalesce_string
        (obs.source_ip ∷ obs.nas_ip ∷ obs.nas_identifier ∷ obs.called_station_id ∷ []) in
    if length key == 0 then text "unknown" else key

unfoldable pub new_record : ApObservation → Time → ApRecord
new_record obs now = record {
  source_ip = obs.source_ip;
  nas_ip = [];
  nas_identifier = [];
  called_station_id = [];
  bssid = [];
  ssid = [];
  first_seen = now;
  last_seen = 0;
  auth_request_count = 0;
  accounting_request_count = 0;
}

-- What Update writes over a record.
unfoldable pub observed : ApObservation → Time → ApRecord → ApRecord
observed obs now rec =
    let (bssid, ssid) = parse_called_station_id obs.called_station_id in
    let seen : ApRecord = record rec {
      last_seen = now;
      source_ip = coalesce_string (obs.source_ip ∷ rec.source_ip ∷ []);
      nas_ip = coalesce_string (obs.nas_ip ∷ rec.nas_ip ∷ []);
      nas_identifier = coalesce_string (obs.nas_identifier ∷ rec.nas_identifier ∷ []);
      called_station_id = coalesce_string (obs.called_station_id ∷ rec.called_station_id ∷ []);
      bssid = coalesce_string (bssid ∷ rec.bssid ∷ []);
      ssid = coalesce_string (ssid ∷ rec.ssid ∷ []);
    } in
    if obs.accounting_packet
    then record seen { accounting_request_count = (rec.accounting_request_count + 1) % 2 ^ 64 }
    else record seen { auth_request_count = (rec.auth_request_count + 1) % 2 ^ 64 }

abbrev pub or_new : ApObservation → Time → Option ApRecord → ApRecord
or_new obs now none = new_record obs now
or_new obs now (some rec) = rec

-- Update: the record, and the registry that holds it.
unfoldable pub update_registry : ApRegistry → ApObservation → Time → ApRecord × ApRegistry
unfolding registry_key new_record observed
update_registry r obs now =
    let key = registry_key obs in
    let rec = observed obs now (or_new obs now (lookup key r)) in (rec, insert key rec r)
