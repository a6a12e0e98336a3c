-- ===== src/Tests/Recovery.antt =====
-- Tombstones and cached authorizations on concrete calls.
use vectorcore_twag.Session.AuthCache.{index_auth_cache_locked}
use vectorcore_twag.Session.AuthCache.{auth_place}
use vectorcore_twag.Session.AuthCache.{auth_cache_expired_locked}
use vectorcore_twag.Session.AuthCache.{trim_space}
use vectorcore_twag.Base.Text.{to_lower}
use vectorcore_twag.Base.Map.{insert}
use vectorcore_twag.Base.Map.{lookup}
use vectorcore_twag.Session.Mac.{parse_mac}
use vectorcore_twag.Base.{◌≤◌, ◌<◌, ◌≡◌, ◌⊎◌, refl, true, false, none, some, [], ◌∷◌, arith, length}
use vectorcore_twag.Base.Bytes.{Bytes}
use vectorcore_twag.Base.Net.{is_nil}
use vectorcore_twag.Base.Text.{text}
use vectorcore_twag.Session.Types.{Session, recovery_none}
use vectorcore_twag.Session.Mac.{mac_string, normalize_mac, same_apn}
use vectorcore_twag.Tests.Session.{blank_session}
use vectorcore_twag.Session.Recovery.{
  Recovery, RecoveryTombstone, new_recovery, new_tombstone, add_recovery_tombstone,
  lookup_recovery_by_mac_addr, complete_recovery_for,
}
use vectorcore_twag.Session.Recovery.Reach as Tombstones
use vectorcore_twag.Session.Recovery.Lookups.{
  lookup_recovery_by_mac_addr_agrees, add_recovery_tombstone_lem,
}
use vectorcore_twag.Session.AuthCache.{
  AuthCache, AuthCacheEntry, AuthCacheUpdate, new_auth_cache, upsert_auth_cache,
  lookup_valid_auth_cache, updated_entry, new_entry,
}
use vectorcore_twag.Session.AuthCache.Reach as Entries
use vectorcore_twag.Session.AuthCache.Lookups.{
  IsOf, lookup_valid_auth_cache_agrees, upsert-lookup_valid_auth_cache,
}

abbrev pub blank_tombstone : RecoveryTombstone
blank_tombstone = record {
  mac = [];
  imsi = [];
  apn = [];
  old_subscriber_ip = [];
  old_session_id = [];
  old_remote_teid = 0;
  old_local_teid = 0;
  original_username = [];
  eap_identity = [];
  radius_state = [];
  nas_ip = [];
  nas_identifier = [];
  acct_session_id = [];
  calling_station_id = [];
  called_station_id = [];
  class = [];
  connect_info = [];
  framed_mtu = 0;
  reason = [];
  state = recovery_none;
  created_at = 0;
  expires_at = 0;
  last_action = [];
  last_error = [];
}

abbrev none_yet : Recovery
none_yet = new_recovery (λ p. blank_tombstone)

abbrev lost_session : Session
lost_session = record blank_session { id = text "twag-1-1"; mac_address = text "f0:5c:77:e8:72:9e" }

abbrev phone_mac : Bytes
phone_mac = 0xf0 ∷ 0x5c ∷ 0x77 ∷ 0xe8 ∷ 0x72 ∷ 0x9e ∷ []

abbrev buried : RecoveryTombstone
buried = new_tombstone lost_session [] 60 100

abbrev after_burial : Recovery
after_burial = (add_recovery_tombstone none_yet lost_session [] 60 100).1

add_recovery_tombstone_lem_example :
    ((add_recovery_tombstone none_yet lost_session [] 60 100).0 ≡ some buried)
    × (lookup_recovery_by_mac_addr after_burial phone_mac 130 ≡ (some buried, after_burial))
    × ((complete_recovery_for after_burial lost_session 130).0 ≡ some buried)
    × ((lookup_recovery_by_mac_addr
          ((complete_recovery_for after_burial lost_session 130).1)
          phone_mac
          140).0
        ≡ none)
unfolding parse_mac
add_recovery_tombstone_lem_example =
    add_recovery_tombstone_lem none_yet lost_session [] 60 100 130 0xf0
      (0x5c ∷ 0x77 ∷ 0xe8 ∷ 0x72 ∷ 0x9e ∷ []) (omega arith) (omega arith) (omega arith) refl 140

after_burial-Reachable : Tombstones.Reachable after_burial
after_burial-Reachable =
    Tombstones.stepped none_yet after_burial (Tombstones.started (λ p. blank_tombstone))
      (Tombstones.added lost_session [] 60 100 refl)

lookup_recovery_by_mac_addr_agrees_example :
    (mac_string buried.mac ≡ mac_string phone_mac)
    × (is_nil buried.mac ≡ false)
    × ((buried.expires_at ≡ 0) ⊎ (130 ≤ buried.expires_at))
unfolding lookup_recovery_by_mac_addr lookup add_recovery_tombstone new_recovery insert
lookup_recovery_by_mac_addr_agrees_example =
    lookup_recovery_by_mac_addr_agrees after_burial phone_mac 130 buried after_burial-Reachable refl

abbrev blank_entry : AuthCacheEntry
blank_entry = record {
  mac_address = [];
  imsi = [];
  user_name = [];
  apn = [];
  msisdn = [];
  nas_ip = [];
  nas_identifier = [];
  called_station_id = [];
  calling_station_id = [];
  ssid = [];
  bssid = [];
  acct_session_id = [];
  session_timeout_seconds = 0;
  auth_start_time = 0;
  auth_expires_at = 0;
  last_seen_time = 0;
  last_access_accept_session_id = [];
  last_accounting_stop_at = 0;
  last_accounting_stop_cause = [];
}

abbrev phone_update : AuthCacheUpdate
phone_update = record blank_entry {
  mac_address = text "F0:5C:77:E8:72:9E";
  imsi = text "311435000070570";
  apn = text "ims";
  auth_expires_at = 500;
}

abbrev phone_entry : AuthCacheEntry
phone_entry = record blank_entry {
  mac_address = text "f0:5c:77:e8:72:9e";
  imsi = text "311435000070570";
  apn = text "ims";
  auth_start_time = 100;
  auth_expires_at = 500;
  last_seen_time = 100;
}

abbrev empty_cache : AuthCache
empty_cache = new_auth_cache (λ p. blank_entry)

abbrev cached : AuthCache
cached = (upsert_auth_cache empty_cache phone_update 100).1

upsert-lookup_valid_auth_cache_example :
    lookup_valid_auth_cache cached phone_update.mac_address phone_update.imsi phone_update.apn 400
    ≡ (some phone_entry, cached)
unfolding upsert_auth_cache normalize_mac to_lower trim_space lookup new_auth_cache updated_entry
    new_entry same_apn
upsert-lookup_valid_auth_cache_example =
    upsert-lookup_valid_auth_cache empty_cache cached phone_update 100 400 phone_entry
      (Entries.started (λ p. blank_entry)) refl (omega arith) (omega arith) refl refl

cached-Reachable : Entries.Reachable cached
cached-Reachable =
    Entries.stepped empty_cache cached (Entries.started (λ p. blank_entry))
      (Entries.upserted phone_update 100 refl)

lookup_valid_auth_cache_agrees_example :
    ((phone_entry.auth_expires_at ≡ 0) ⊎ (400 < phone_entry.auth_expires_at))
    × IsOf phone_entry (text "F0-5C-77-E8-72-9E") [] (text "IMS")
    × ((length (text "IMS") ≡ 0)
        ⊎ ((length phone_entry.apn ≡ 0) ⊎ (same_apn phone_entry.apn (text "IMS") ≡ true)))
unfolding lookup_valid_auth_cache auth_cache_expired_locked auth_place lookup upsert_auth_cache
    normalize_mac to_lower trim_space new_auth_cache index_auth_cache_locked updated_entry new_entry
    insert same_apn
lookup_valid_auth_cache_agrees_example =
    lookup_valid_auth_cache_agrees cached (text "F0-5C-77-E8-72-9E") [] (text "IMS") 400 phone_entry
      cached-Reachable refl
