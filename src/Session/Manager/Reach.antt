-- ===== src/Session/Manager/Reach.antt =====
-- The session manager's calls as steps, and what holds after any sequence of them.
use vectorcore_twag.Base.{ℕ, ◌+◌, ◌^◌, ◌<◌, ◌≡◌, refl, sym, subst, some, arith, true, false, ok}
use vectorcore_twag.Base.Map.{lookup, nat_eq, text_eq}
use vectorcore_twag.Base.Net.{Ip, is_nil}
use vectorcore_twag.Base.Text.{Text}
use vectorcore_twag.Session.Types.{Session, Time, State}
use vectorcore_twag.Session.Manager.{
  Manager, new_manager, CreateInput, edit, create, mark, mark_authorized, mark_reason,
  apply_auth_result, no_change,
}
use vectorcore_twag.Session.Operations.{
  account, AccountingUpdate, delete_session, set_subscriber_ip, update_subscriber_ip, bind_teids,
  apply_pgw_result, apply_accounting,
}
use vectorcore_twag.Session.Expiry.{gtpu_error, record_gtpu_error, expire_inactive}
use vectorcore_twag.Session.Expiry.Laws.{expire_inactive-IsConsistent}
use vectorcore_twag.Session.Manager.Tables.{IsConsistent}
use vectorcore_twag.Session.Manager.Removal.{create-IsConsistent}
use vectorcore_twag.Session.Manager.Cases.{
  transition-IsConsistent, update-IsConsistent, delete_session-IsConsistent,
}
use vectorcore_twag.Session.Manager.Changes.{
  edit-IsConsistent, auth_change-IsConsistent, set_ip_change-IsConsistent,
  update_ip_change-IsConsistent, teid_change-IsConsistent,
}

-- One successful call of the manager; a call that fails leaves it alone.
pub data Step (m m' : Manager) : Type 0 where
  created :
      (input : CreateInput) (now : Time)
      → m.next + 1 < 2 ^ 64
      → m' ≡ (create m input now).1
      → Step m m'
  marked :
      (id : Text) (next : State) (now : Time) (s : Session)
      → mark m id next now ≡ ok (s, m')
      → Step m m'
  marked_authorized :
      (id : Text) (now : Time) (s : Session) → mark_authorized m id now ≡ ok (s, m') → Step m m'
  marked_reason :
      (id : Text) (next : State) (reason : Text) (now : Time) (s : Session)
      → mark_reason m id next reason now ≡ ok (s, m')
      → Step m m'
  applied_auth :
      (id imsi msisdn apn reason : Text) (now : Time) (s : Session)
      → apply_auth_result m id imsi msisdn apn reason now ≡ ok (s, m')
      → Step m m'
  set_ip :
      (id : Text) (ip : Ip) (now : Time) (s : Session)
      → is_nil ip ≡ false
      → set_subscriber_ip m id ip now ≡ ok (s, m')
      → Step m m'
  updated_ip :
      (id : Text) (ip : Ip) (now : Time) (s : Session)
      → update_subscriber_ip m id ip now ≡ ok (s, m')
      → Step m m'
  bound_teids :
      (id : Text) (gtpc local_gtpu remote_gtpu : ℕ) (now : Time) (s : Session)
      → bind_teids m id gtpc local_gtpu remote_gtpu now ≡ ok (s, m')
      → Step m m'
  applied_pgw :
      (id : Text) (control_ip user_ip : Ip) (gtpc local_gtpu remote_gtpu : ℕ) (now : Time)
      (s : Session)
      → apply_pgw_result m id control_ip user_ip gtpc local_gtpu remote_gtpu now ≡ ok (s, m')
      → Step m m'
  accounted :
      (id : Text) (u : AccountingUpdate) (now : Time) (s : Session)
      → apply_accounting m id u now ≡ ok (s, m')
      → Step m m'
  deleted :
      (id : Text) (now : Time) (s : Session) → delete_session m id now ≡ some (s, m') → Step m m'
  recorded :
      (id : Text) (teid : ℕ) (at now : Time) (s : Session)
      → record_gtpu_error m id teid at now ≡ ok (s, m')
      → Step m m'
  expired : (now : Time) → m' ≡ (expire_inactive m now).1 → Step m m'

Step-IsConsistent : (m m' : Manager) → IsConsistent m → Step m m' → IsConsistent m'
unfolding mark mark_authorized mark_reason apply_auth_result set_subscriber_ip update_subscriber_ip
    bind_teids apply_pgw_result apply_accounting account record_gtpu_error gtpu_error
Step-IsConsistent m m' c (created input now h e) =
    subst IsConsistent (sym e) (create-IsConsistent m input now c h)
Step-IsConsistent m m' c (marked id next now s e) =
    transition-IsConsistent no_change m m' id next now s (λ m p c k h. c) c e
Step-IsConsistent m m' c (marked_authorized id now s e) =
    let f : Session → Session = λ s. record s { authenticated = true; is_authorized = true } in
    transition-IsConsistent (edit f) m m' id _ now s
      (λ m p c k h. edit-IsConsistent f m p (λ s. refl) c) c e
Step-IsConsistent m m' c (marked_reason id next reason now s e) =
    let f : Session → Session = λ s. record s { reason = reason } in
    transition-IsConsistent (edit f) m m' id next now s
      (λ m p c k h. edit-IsConsistent f m p (λ s. refl) c) c e
Step-IsConsistent m m' c (applied_auth id imsi msisdn apn reason now s e) =
    transition-IsConsistent _ m m' id _ now s
      (λ m p c k h. auth_change-IsConsistent m p c k h imsi msisdn apn reason) c e
Step-IsConsistent m m' c (set_ip id ip now s filled e) =
    transition-IsConsistent _ m m' id _ now s
      (λ m p c k h. set_ip_change-IsConsistent m p c k h ip filled) c e
Step-IsConsistent m m' c (updated_ip id ip now s e) =
    update-IsConsistent _ m m' id now s (λ m p c k h. update_ip_change-IsConsistent m p c k h ip) c
      e
Step-IsConsistent m m' c (bound_teids id gtpc local_gtpu remote_gtpu now s e) =
    update-IsConsistent _ m m' id now s
      (λ m p c k h. teid_change-IsConsistent m p c k h _ (λ s. refl)) c e
Step-IsConsistent m m' c (applied_pgw id control_ip user_ip gtpc local_gtpu remote_gtpu now s e) =
    update-IsConsistent _ m m' id now s
      (λ m p c k h. teid_change-IsConsistent m p c k h _ (λ s. refl)) c e
Step-IsConsistent m m' c (accounted id u now s e) =
    update-IsConsistent _ m m' id now s
      (λ m p c k h. edit-IsConsistent (account u) m p (λ s. refl) c) c e
Step-IsConsistent m m' c (deleted id now s e) = delete_session-IsConsistent m m' id now s c e
Step-IsConsistent m m' c (recorded id teid at now s e) =
    let f : Session → Session = gtpu_error teid at in
    update-IsConsistent (edit f) m m' id now s (λ m p c k h. edit-IsConsistent f m p (λ s. refl) c)
      c e
Step-IsConsistent m m' c (expired now e) =
    subst IsConsistent (sym e) (expire_inactive-IsConsistent m now c)

-- The managers that calls lead to from a new one.
pub data Reachable : Manager → Type 0 where
  started : (blank : ℕ → Session) → Reachable (new_manager blank)
  stepped : (m m' : Manager) → Reachable m → Step m m' → Reachable m'

-- In every manager that successful calls lead to from a new one, where the 64-bit counter does
-- not wrap and SetSubscriberIP gets no nil address, each entry of the five tables is filed under
-- its session's own key and leads to a session that `byID` holds.
pub Reachable-IsConsistent : (m : Manager) → Reachable m → IsConsistent m
unfolding new_manager lookup
Reachable-IsConsistent _ (started blank) = record {
  by_id = λ k p e. absurd (ground arith);
  by_imsi = λ k p e. absurd (ground arith);
  by_mac = λ k p e. absurd (ground arith);
  by_ip = λ k p e. absurd (ground arith);
  by_teid = λ k p e. absurd (ground arith);
}
Reachable-IsConsistent _ (stepped m m' r s) = Step-IsConsistent m m' (Reachable-IsConsistent m r) s
