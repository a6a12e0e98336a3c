-- ===== src/Session/Recovery.antt =====
-- internal/session/manager.go: the tombstones of sessions in recovery. A `*RecoveryTombstone` is a
-- place in `store`, which the four tables share; `now` is what time.Now gives. The order in which Go
-- ranges over a map is not fixed: UpdateRecovery takes the first candidate of the table here.
pub mod Tables
pub mod Reach
pub mod Lookups
use vectorcore_twag.Base.{
  ℕ, zero, suc, ◌+◌, Bool, true, false, ◌&&◌, not, List, [], ◌∷◌, Option, none, some, ltb, ◌==◌,
  if◌then◌else◌, length,
}
use vectorcore_twag.Base.Bytes.{Bytes}
use vectorcore_twag.Base.Map.{Assoc, lookup, insert, delete, nat_eq, text_eq, text_beq}
use vectorcore_twag.Base.Net.{Ip, is_nil, ip_string}
use vectorcore_twag.Base.Text.{Text}
use vectorcore_twag.Session.Types.{Session, Time, RecoveryState, recovery_required}
use vectorcore_twag.Session.Mac.{parse_mac, mac_string}

pub record RecoveryTombstone : Type 0 where
  pub mac : Bytes
  pub imsi : Text
  pub apn : Text
  pub old_subscriber_ip : Ip
  pub old_session_id : Text
  pub old_remote_teid : ℕ
  pub old_local_teid : ℕ
  pub original_username : Text
  pub eap_identity : Text
  pub radius_state : Text
  pub nas_ip : Text
  pub nas_identifier : Text
  pub acct_session_id : Text
  pub calling_station_id : Text
  pub called_station_id : Text
  pub class : Bytes
  pub connect_info : Text
  pub framed_mtu : ℕ
  pub reason : Text
  pub state : RecoveryState
  pub created_at : Time
  pub expires_at : Time
  pub last_action : Text
  pub last_error : Text

-- The manager's fields that hold tombstones.
pub record Recovery : Type 0 where
  pub next : ℕ
  pub store : ℕ → RecoveryTombstone
  pub by_mac : Assoc Text ℕ
  pub by_imsi : Assoc Text ℕ
  pub by_ip : Assoc Bytes ℕ
  pub by_remote_teid : Assoc ℕ ℕ

-- NewManager; `blank` is what the places hold that no tombstone has yet.
unfoldable pub new_recovery : (ℕ → RecoveryTombstone) → Recovery
new_recovery blank = record {
  next = 0;
  store = blank;
  by_mac = [];
  by_imsi = [];
  by_ip = [];
  by_remote_teid = [];
}

abbrev pub write_tombstone : Recovery → ℕ → RecoveryTombstone → Recovery
write_tombstone r p t = record r { store = λ q. if p == q then t else r.store q }

-- indexRecoveryLocked
unfoldable pub index_recovery_locked : Recovery → ℕ → Recovery
index_recovery_locked r p =
    let t = r.store p in
    record r {
      by_mac = if is_nil t.mac then r.by_mac else insert (mac_string t.mac) p r.by_mac;
      by_imsi = if length t.imsi == 0 then r.by_imsi else insert t.imsi p r.by_imsi;
      by_ip =
          if is_nil t.old_subscriber_ip
          then r.by_ip
          else insert (ip_string t.old_subscriber_ip) p r.by_ip;
      by_remote_teid =
          if t.old_remote_teid == 0
          then r.by_remote_teid
          else insert t.old_remote_teid p r.by_remote_teid;
    }

-- unindexRecoveryLocked
unfoldable pub unindex_recovery_locked : Recovery → ℕ → Recovery
unindex_recovery_locked r p =
    let t = r.store p in
    record r {
      by_mac = if is_nil t.mac then r.by_mac else delete (mac_string t.mac) r.by_mac;
      by_imsi = if length t.imsi == 0 then r.by_imsi else delete t.imsi r.by_imsi;
      by_ip =
          if is_nil t.old_subscriber_ip
          then r.by_ip
          else delete (ip_string t.old_subscriber_ip) r.by_ip;
      by_remote_teid =
          if t.old_remote_teid == 0
          then r.by_remote_teid
          else delete t.old_remote_teid r.by_remote_teid;
    }

abbrev pub has_expired : RecoveryTombstone → Time → Bool
has_expired t now = not (t.expires_at == 0) && ltb t.expires_at now

-- recoveryExpiredLocked
unfoldable pub recovery_expired_locked : Recovery → Option ℕ → Time → Bool × Recovery
unfolding unindex_recovery_locked
recovery_expired_locked r none now = (false, r)
recovery_expired_locked r (some p) now =
    if has_expired (r.store p) now then (true, unindex_recovery_locked r p) else (false, r)

-- The hardware address that the text of the session gives, and the calling station with it.
abbrev with_mac : Option Bytes → RecoveryTombstone → RecoveryTombstone
with_mac (some hw) t = record t {
  mac = hw;
  calling_station_id =
      if length t.calling_station_id == 0 then mac_string hw else t.calling_station_id;
}
with_mac none t = t

-- The tombstone that AddRecoveryTombstone makes.
unfoldable pub new_tombstone : Session → Text → ℕ → Time → RecoveryTombstone
unfolding parse_mac mac_string
new_tombstone sess reason ttl now =
    let t : RecoveryTombstone = record {
      mac = [];
      imsi = sess.imsi;
      apn = sess.apn;
      old_subscriber_ip = sess.subscriber_ip;
      old_session_id = sess.id;
      old_remote_teid = sess.remote_gtpu_teid;
      old_local_teid = sess.local_gtpu_teid;
      original_username = sess.username;
      eap_identity = sess.eap_identity;
      radius_state = sess.radius_state;
      nas_ip = sess.nas_ip;
      nas_identifier = sess.nas_identifier;
      acct_session_id = sess.acct_session_id;
      calling_station_id = sess.calling_station_id;
      called_station_id = sess.called_station_id;
      class = sess.radius_class;
      connect_info = sess.connect_info;
      framed_mtu = sess.framed_mtu;
      reason = reason;
      state = recovery_required;
      created_at = now;
      expires_at = now + ttl;
      last_action = [];
      last_error = [];
    } in
    if length sess.mac_address == 0 then t else with_mac (parse_mac sess.mac_address) t

-- AddRecoveryTombstone of a session; a `ttl` that is not positive is 0.
unfoldable pub add_recovery_tombstone :
    Recovery → Session → Text → ℕ → Time → Option RecoveryTombstone × Recovery
unfolding new_tombstone index_recovery_locked
add_recovery_tombstone r sess reason ttl now =
    let t = new_tombstone sess reason ttl now in
    let q = record (write_tombstone r r.next t) { next = r.next + 1 } in
    if ttl == 0 then (none, r) else (some t, index_recovery_locked q r.next)

-- The first place of a table whose tombstone is of the session.
unfoldable pub candidate : Recovery → Text → List (Text × ℕ) → Option ℕ
candidate r id [] = none
candidate r id ((k, p) ∷ rest) =
    let on = candidate r id rest in if text_beq (r.store p).old_session_id id then some p else on

abbrev pub or_place : Option ℕ → Option ℕ → Option ℕ
or_place (some p) q = some p
or_place none q = q

abbrev pub finish_update :
    (RecoveryTombstone → RecoveryTombstone)
    → Option ℕ
    → Bool × Recovery
    → Option RecoveryTombstone × Recovery
finish_update fn place (true, r) = (none, r)
finish_update fn none (false, r) = (none, r)
finish_update fn (some p) (false, r) =
    let out = unindex_recovery_locked r p in
    let t = fn (r.store p) in (some t, index_recovery_locked (write_tombstone out p t) p)

-- UpdateRecovery
unfoldable pub update_recovery :
    Recovery
    → Text
    → (RecoveryTombstone → RecoveryTombstone)
    → Time
    → Option RecoveryTombstone × Recovery
unfolding candidate recovery_expired_locked
update_recovery r id fn now =
    let place = or_place (candidate r id r.by_mac) (candidate r id r.by_imsi) in
    if length id == 0
    then (none, r)
    else finish_update fn place (recovery_expired_locked r place now)

-- The tombstone that a lookup returns, once the expired one is gone.
abbrev pub looked_up : Option ℕ → Bool × Recovery → Option RecoveryTombstone × Recovery
looked_up place (true, r) = (none, r)
looked_up none (false, r) = (none, r)
looked_up (some p) (false, r) = (some (r.store p), r)

-- LookupRecoveryByMACAddr
unfoldable pub lookup_recovery_by_mac_addr :
    Recovery → Bytes → Time → Option RecoveryTombstone × Recovery
unfolding recovery_expired_locked
lookup_recovery_by_mac_addr r mac now =
    let place = lookup (mac_string mac) r.by_mac in
    if is_nil mac then (none, r) else looked_up place (recovery_expired_locked r place now)

-- LookupRecoveryByIP
unfoldable pub lookup_recovery_by_ip : Recovery → Ip → Time → Option RecoveryTombstone × Recovery
unfolding recovery_expired_locked
lookup_recovery_by_ip r ip now =
    let place = lookup (ip_string ip) r.by_ip in
    if is_nil ip then (none, r) else looked_up place (recovery_expired_locked r place now)

abbrev key_of : Text → Option Bytes → Text
key_of mac (some hw) = mac_string hw
key_of mac none = mac

-- FindRecovery
unfoldable pub find_recovery : Recovery → Text → Text → Time → Option RecoveryTombstone × Recovery
unfolding recovery_expired_locked
find_recovery r imsi mac now =
    let by_mac = if length mac == 0 then none else lookup (key_of mac (parse_mac mac)) r.by_mac in
    let by_imsi = if length imsi == 0 then none else lookup imsi r.by_imsi in
    let place = or_place by_mac by_imsi in looked_up place (recovery_expired_locked r place now)

abbrev parsed_place : Recovery → Option Bytes → Option ℕ
parsed_place r (some hw) = lookup (mac_string hw) r.by_mac
parsed_place r none = none

abbrev pub finish_complete : Option ℕ → Bool × Recovery → Option RecoveryTombstone × Recovery
finish_complete place (true, r) = (none, r)
finish_complete none (false, r) = (none, r)
finish_complete (some p) (false, r) = (some (r.store p), unindex_recovery_locked r p)

-- CompleteRecoveryFor
unfoldable pub complete_recovery_for :
    Recovery → Session → Time → Option RecoveryTombstone × Recovery
unfolding recovery_expired_locked
complete_recovery_for r sess now =
    let by_mac =
      if length sess.mac_address == 0 then none else parsed_place r (parse_mac sess.mac_address) in
    let by_imsi = if length sess.imsi == 0 then none else lookup sess.imsi r.by_imsi in
    let place = or_place by_mac by_imsi in
    finish_complete place (recovery_expired_locked r place now)
