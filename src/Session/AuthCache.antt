-- ===== src/Session/AuthCache.antt =====
-- internal/session/manager.go: the cache of authorizations. An `*AuthCacheEntry` is a place in
-- `store`, which the four tables share; `now` is what time.Now gives where the caller gives no time.
pub mod Tables
pub mod Reach
pub mod Lookups
use vectorcore_twag.Base.{
  ℕ, zero, suc, ◌+◌, Bool, true, false, ◌&&◌, ◌||◌, not, List, [], ◌∷◌, ◌++◌, Option, none, some,
  ltb, leb, ◌==◌, if◌then◌else◌, length,
}
use vectorcore_twag.Base.Map.{Assoc, lookup, insert, delete, text_eq, text_beq}
use vectorcore_twag.Base.Text.{Text, to_lower}
use vectorcore_twag.Session.Types.{Time}
use vectorcore_twag.Session.Mac.{normalize_mac, same_apn}

pub record AuthCacheEntry : Type 0 where
  pub mac_address : Text
  pub imsi : Text
  pub user_name : Text
  pub apn : Text
  pub msisdn : Text
  pub nas_ip : Text
  pub nas_identifier : Text
  pub called_station_id : Text
  pub calling_station_id : Text
  pub ssid : Text
  pub bssid : Text
  pub acct_session_id : Text
  pub session_timeout_seconds : ℕ
  pub auth_start_time : Time
  pub auth_expires_at : Time
  pub last_seen_time : Time
  pub last_access_accept_session_id : Text
  pub last_accounting_stop_at : Time
  pub last_accounting_stop_cause : Text

-- An AuthCacheUpdate has the fields of an entry; a timeout that is not positive is 0.
abbrev pub AuthCacheUpdate : Type 0
AuthCacheUpdate = AuthCacheEntry

-- The manager's fields that hold entries.
pub record AuthCache : Type 0 where
  pub next : ℕ
  pub store : ℕ → AuthCacheEntry
  pub by_key : Assoc Text ℕ
  pub by_mac : Assoc Text ℕ
  pub by_imsi : Assoc Text ℕ
  pub by_acct_nas : Assoc Text ℕ

-- NewManager; `blank` is what the places hold that no entry has yet.
unfoldable pub new_auth_cache : (ℕ → AuthCacheEntry) → AuthCache
new_auth_cache blank = record {
  next = 0;
  store = blank;
  by_key = [];
  by_mac = [];
  by_imsi = [];
  by_acct_nas = [];
}

-- The white space of ASCII.
abbrev pub is_space : ℕ → Bool
is_space c = c == b' ' || (leb 9 c && leb c 13)

unfoldable pub trim_left : Text → Text
trim_left [] = []
trim_left (c ∷ s) = let rest = trim_left s in if is_space c then rest else c ∷ s

unfoldable pub trim_right : Text → Text
trim_right [] = []
trim_right (c ∷ s) =
    let rest = trim_right s in if is_space c && length rest == 0 then [] else c ∷ rest

-- strings.TrimSpace on ASCII text.
unfoldable pub trim_space : Text → Text
unfolding trim_left trim_right
trim_space s = trim_right (trim_left s)

-- authCacheKey
unfoldable pub auth_cache_key : Text → Text → Text → Text
auth_cache_key mac imsi apn =
    normalize_mac mac ++ (b'|' ∷ (trim_space imsi ++ (b'|' ∷ to_lower (trim_space apn))))

-- authAcctKey
unfoldable pub auth_acct_key : Text → Text → Text → Text
auth_acct_key acct_session_id nas_ip nas_identifier =
    trim_space acct_session_id ++ (b'|' ∷ (trim_space nas_ip ++ (b'|' ∷ trim_space nas_identifier)))

abbrev pub own_key : AuthCacheEntry → Text
own_key e = auth_cache_key e.mac_address e.imsi e.apn

-- The four keys of an entry's accounting session.
abbrev pub acct_keys : AuthCacheEntry → List Text
acct_keys e =
    auth_acct_key e.acct_session_id e.nas_ip e.nas_identifier
    ∷ auth_acct_key e.acct_session_id e.nas_ip []
    ∷ auth_acct_key e.acct_session_id [] e.nas_identifier
    ∷ auth_acct_key e.acct_session_id [] []
    ∷ []

unfoldable pub insert_all : List Text → ℕ → Assoc Text ℕ → Assoc Text ℕ
insert_all [] p m = m
insert_all (k ∷ ks) p m = insert_all ks p (insert k p m)

unfoldable pub delete_all : List Text → Assoc Text ℕ → Assoc Text ℕ
delete_all [] m = m
delete_all (k ∷ ks) m = delete_all ks (delete k m)

abbrev pub write_entry : AuthCache → ℕ → AuthCacheEntry → AuthCache
write_entry c p e = record c { store = λ q. if p == q then e else c.store q }

-- indexAuthCacheLocked
unfoldable pub index_auth_cache_locked : AuthCache → ℕ → AuthCache
unfolding insert_all
index_auth_cache_locked c p =
    let e = c.store p in
    record c {
      by_key = insert (own_key e) p c.by_key;
      by_mac = if length e.mac_address == 0 then c.by_mac else insert e.mac_address p c.by_mac;
      by_imsi = if length e.imsi == 0 then c.by_imsi else insert e.imsi p c.by_imsi;
      by_acct_nas =
          if length e.acct_session_id == 0
          then c.by_acct_nas
          else insert_all (acct_keys e) p c.by_acct_nas;
    }

-- unindexAuthCacheLocked
unfoldable pub unindex_auth_cache_locked : AuthCache → ℕ → AuthCache
unfolding delete_all
unindex_auth_cache_locked c p =
    let e = c.store p in
    record c {
      by_key = delete (own_key e) c.by_key;
      by_mac = delete e.mac_address c.by_mac;
      by_imsi = delete e.imsi c.by_imsi;
      by_acct_nas =
          if length e.acct_session_id == 0
          then c.by_acct_nas
          else delete_all (acct_keys e) c.by_acct_nas;
    }

abbrev pub has_ended : AuthCacheEntry → Time → Bool
has_ended e now = not (e.auth_expires_at == 0) && leb e.auth_expires_at now

-- authCacheExpiredLocked
unfoldable pub auth_cache_expired_locked : AuthCache → Option ℕ → Time → Bool × AuthCache
unfolding unindex_auth_cache_locked
auth_cache_expired_locked c none now = (true, c)
auth_cache_expired_locked c (some p) now =
    if has_ended (c.store p) now then (true, unindex_auth_cache_locked c p) else (false, c)

abbrev or_text : Text → Text → Text
or_text new old = if length new == 0 then old else new

abbrev or_number : ℕ → ℕ → ℕ
or_number new old = if new == 0 then old else new

-- The fields that UpsertAuthCache writes over an entry.
unfoldable pub updated_entry : AuthCacheUpdate → Time → AuthCacheEntry → AuthCacheEntry
updated_entry u now e = record e {
  user_name = or_text u.user_name e.user_name;
  msisdn = or_text u.msisdn e.msisdn;
  nas_ip = or_text u.nas_ip e.nas_ip;
  nas_identifier = or_text u.nas_identifier e.nas_identifier;
  called_station_id = or_text u.called_station_id e.called_station_id;
  calling_station_id = or_text u.calling_station_id e.calling_station_id;
  ssid = or_text u.ssid e.ssid;
  bssid = or_text u.bssid e.bssid;
  acct_session_id = or_text u.acct_session_id e.acct_session_id;
  session_timeout_seconds = or_number u.session_timeout_seconds e.session_timeout_seconds;
  auth_start_time = or_number u.auth_start_time e.auth_start_time;
  auth_expires_at = or_number u.auth_expires_at e.auth_expires_at;
  last_seen_time = or_number u.last_seen_time now;
  last_access_accept_session_id =
      or_text u.last_access_accept_session_id e.last_access_accept_session_id;
  last_accounting_stop_at = or_number u.last_accounting_stop_at e.last_accounting_stop_at;
  last_accounting_stop_cause = or_text u.last_accounting_stop_cause e.last_accounting_stop_cause;
}

unfoldable pub new_entry : Text → Text → Text → Time → AuthCacheEntry
new_entry mac imsi apn now = record {
  mac_address = mac;
  imsi = imsi;
  user_name = [];
  apn = apn;
  msisdn = [];
  nas_ip = [];
  nas_identifier = [];
  called_station_id = [];
  calling_station_id = [];
  ssid = [];
  bssid = [];
  acct_session_id = [];
  session_timeout_seconds = 0;
  auth_start_time = now;
  auth_expires_at = 0;
  last_seen_time = 0;
  last_access_accept_session_id = [];
  last_accounting_stop_at = 0;
  last_accounting_stop_cause = [];
}

-- The cache that has taken the update at a place, which no table leads to.
abbrev pub filed : AuthCache → ℕ → AuthCacheEntry → Option AuthCacheEntry × AuthCache
filed c p e = (some e, index_auth_cache_locked (write_entry c p e) p)

abbrev pub upsert_at :
    AuthCache
    → AuthCacheUpdate
    → AuthCacheEntry
    → Time
    → Option ℕ
    → Option AuthCacheEntry × AuthCache
upsert_at c u blank now (some p) =
    filed (unindex_auth_cache_locked c p) p (updated_entry u now (c.store p))
upsert_at c u blank now none =
    filed (record c { next = c.next + 1 }) c.next (updated_entry u now blank)

-- UpsertAuthCache
unfoldable pub upsert_auth_cache :
    AuthCache → AuthCacheUpdate → Time → Option AuthCacheEntry × AuthCache
upsert_auth_cache c u now =
    let mac = normalize_mac u.mac_address in
    let imsi = trim_space u.imsi in
    let apn = trim_space u.apn in
    if length mac == 0 || length imsi == 0
    then (none, c)
    else upsert_at c u (new_entry mac imsi apn now) now
        (lookup (auth_cache_key mac imsi apn) c.by_key)

abbrev pub or_place : Option ℕ → Option ℕ → Option ℕ
or_place (some p) q = some p
or_place none q = q

-- The place that LookupValidAuthCache and DeleteAuthCache start from.
abbrev pub key_place : AuthCache → Text → Text → Text → Option ℕ
key_place c mac imsi apn =
    lookup (auth_cache_key (normalize_mac mac) (trim_space imsi) (trim_space apn)) c.by_key

abbrev pub mac_place : AuthCache → Text → Option ℕ
mac_place c mac = if length mac == 0 then none else lookup (normalize_mac mac) c.by_mac

-- The place that LookupValidAuthCache finds.
unfoldable pub auth_place : AuthCache → Text → Text → Text → Option ℕ
auth_place c mac imsi apn =
    let without_apn = if length apn == 0 then none else key_place c mac imsi [] in
    let by_key =
      if length mac == 0 || length imsi == 0
      then none
      else or_place (key_place c mac imsi apn) without_apn in
    let by_imsi = if length imsi == 0 then none else lookup (trim_space imsi) c.by_imsi in
    or_place by_key (or_place (mac_place c mac) by_imsi)

abbrev pub apn_fits : AuthCacheEntry → Text → Bool
apn_fits e apn = length apn == 0 || (length e.apn == 0 || same_apn e.apn apn)

abbrev pub valid_entry : Text → Option ℕ → Bool × AuthCache → Option AuthCacheEntry × AuthCache
valid_entry apn place (true, c) = (none, c)
valid_entry apn none (false, c) = (none, c)
valid_entry apn (some p) (false, c) =
    if apn_fits (c.store p) apn then (some (c.store p), c) else (none, c)

-- LookupValidAuthCache
unfoldable pub lookup_valid_auth_cache :
    AuthCache → Text → Text → Text → Time → Option AuthCacheEntry × AuthCache
lookup_valid_auth_cache c mac imsi apn now =
    let place = auth_place c mac imsi apn in
    valid_entry apn place (auth_cache_expired_locked c place now)

abbrev pub or_next :
    (AuthCache → Option AuthCacheEntry × AuthCache)
    → Option ℕ
    → Bool × AuthCache
    → Option AuthCacheEntry × AuthCache
or_next next place (true, c) = next c
or_next next none (false, c) = next c
or_next next (some p) (false, c) = (some (c.store p), c)

-- The loop of LookupValidAuthCacheByAcct over the keys.
unfoldable pub acct_loop : List Text → Time → AuthCache → Option AuthCacheEntry × AuthCache
acct_loop [] now c = (none, c)
acct_loop (k ∷ ks) now c =
    let place = lookup k c.by_acct_nas in
    or_next (acct_loop ks now) place (auth_cache_expired_locked c place now)

-- LookupValidAuthCacheByAcct
unfoldable pub lookup_valid_auth_cache_by_acct :
    AuthCache → Text → Text → Text → Time → Option AuthCacheEntry × AuthCache
lookup_valid_auth_cache_by_acct c acct_session_id nas_ip nas_identifier now =
    let keys =
      auth_acct_key acct_session_id nas_ip nas_identifier
      ∷ auth_acct_key acct_session_id nas_ip []
      ∷ auth_acct_key acct_session_id [] nas_identifier
      ∷ auth_acct_key acct_session_id [] []
      ∷ [] in
    if length acct_session_id == 0 then (none, c) else acct_loop keys now c

abbrev pub deleted_at : AuthCache → Option ℕ → Bool × AuthCache
deleted_at c none = (false, c)
deleted_at c (some p) = (true, unindex_auth_cache_locked c p)

-- DeleteAuthCache
unfoldable pub delete_auth_cache : AuthCache → Text → Text → Text → Bool × AuthCache
delete_auth_cache c mac imsi apn =
    deleted_at c (or_place (key_place c mac imsi apn) (mac_place c mac))
