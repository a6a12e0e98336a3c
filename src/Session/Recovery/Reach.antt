-- ===== src/Session/Recovery/Reach.antt =====
-- The tombstones that calls lead to, and what the lookups find among them.
use vectorcore_twag.Base.{
  ℕ, ◌+◌, ◌<◌, ◌≡◌, inl, inr, refl, sym, subst, Bool, true, false, Option, none, some, arith, List,
  [], ◌∷◌, All, Bool-cases, Option-cases, ◌==◌, length, if-both,
}
use vectorcore_twag.Base.Bytes.{Bytes}
use vectorcore_twag.Base.Map.{lookup, nat_eq, text_eq, text_beq}
use vectorcore_twag.Base.Net.{Ip, is_nil}
use vectorcore_twag.Base.Text.{Text}
use vectorcore_twag.Session.Types.{Session, Time}
use vectorcore_twag.Session.Recovery.{
  RecoveryTombstone, Recovery, new_recovery, unindex_recovery_locked, has_expired,
  recovery_expired_locked, new_tombstone, add_recovery_tombstone, finish_update, finish_complete,
  update_recovery, candidate, or_place, looked_up, lookup_recovery_by_mac_addr,
  lookup_recovery_by_ip, find_recovery, complete_recovery_for,
}
use vectorcore_twag.Session.Recovery.Tables.{
  IsFiled, IsPlace, index_recovery_locked-IsFiled, unindex_recovery_locked-IsFiled,
  unindex_recovery_locked-IsDetached, next_place-IsFiled, next_place-IsDetached,
}

-- A call that keeps tombstones, whatever it returns; the function of UpdateRecovery is any.
pub data Step (r r' : Recovery) : Type 0 where
  added :
      (sess : Session) (reason : Text) (ttl now : ℕ)
      → r' ≡ (add_recovery_tombstone r sess reason ttl now).1
      → Step r r'
  updated :
      (id : Text) (fn : RecoveryTombstone → RecoveryTombstone) (now : Time)
      → r' ≡ (update_recovery r id fn now).1
      → Step r r'
  found_by_mac :
      (mac : Bytes) (now : Time) → r' ≡ (lookup_recovery_by_mac_addr r mac now).1 → Step r r'
  found_by_ip : (ip : Ip) (now : Time) → r' ≡ (lookup_recovery_by_ip r ip now).1 → Step r r'
  found : (imsi mac : Text) (now : Time) → r' ≡ (find_recovery r imsi mac now).1 → Step r r'
  completed : (sess : Session) (now : Time) → r' ≡ (complete_recovery_for r sess now).1 → Step r r'

pub data Reachable : Recovery → Type 0 where
  started : (blank : ℕ → RecoveryTombstone) → Reachable (new_recovery blank)
  stepped : (r r' : Recovery) → Reachable r → Step r r' → Reachable r'

recovery_expired_locked-IsFiled :
    (r : Recovery) (place : Option ℕ) (now : Time)
    → IsFiled r
    → IsFiled ((recovery_expired_locked r place now).1)
unfolding recovery_expired_locked
recovery_expired_locked-IsFiled r none now c = c
recovery_expired_locked-IsFiled r (some p) now c = elim (Bool-cases (has_expired (r.store p) now)) [
  | inl late ↦ rw late (unindex_recovery_locked-IsFiled r p c)
  | inr fresh ↦ rw fresh c
]

-- A lookup's own part changes nothing.
looked_up_state : (place : Option ℕ) (x : Bool × Recovery) → (looked_up place x).1 ≡ x.1
looked_up_state place (true, r) = refl
looked_up_state none (false, r) = refl
looked_up_state (some p) (false, r) = refl

looked_up-IsFiled :
    (r : Recovery) (place : Option ℕ) (now : Time)
    → IsFiled r
    → IsFiled ((looked_up place (recovery_expired_locked r place now)).1)
looked_up-IsFiled r place now c =
    rw (looked_up_state place (recovery_expired_locked r place now))
      (recovery_expired_locked-IsFiled r place now c)

finish_update-IsFiled :
    (fn : RecoveryTombstone → RecoveryTombstone) (place : Option ℕ) (x : Bool × Recovery)
    → ((p : ℕ) → place ≡ some p → p < x.1.next)
    → IsFiled (x.1)
    → IsFiled ((finish_update fn place x).1)
unfolding unindex_recovery_locked
finish_update-IsFiled fn place (true, r) bound c = c
finish_update-IsFiled fn none (false, r) bound c = c
finish_update-IsFiled fn (some p) (false, r) bound c =
    index_recovery_locked-IsFiled (unindex_recovery_locked r p) p (fn (r.store p))
      (unindex_recovery_locked-IsFiled r p c) (unindex_recovery_locked-IsDetached r p c)
      (bound p refl)

finish_complete-IsFiled :
    (place : Option ℕ) (x : Bool × Recovery) → IsFiled (x.1) → IsFiled ((finish_complete place x).1)
finish_complete-IsFiled place (true, r) c = c
finish_complete-IsFiled none (false, r) c = c
finish_complete-IsFiled (some p) (false, r) c = unindex_recovery_locked-IsFiled r p c

-- A candidate is a place of the table.
candidate-IsPlace :
    (r : Recovery) (id : Text) (entries : List (Text × ℕ)) (p : ℕ)
    → All (IsPlace r.next) entries
    → candidate r id entries ≡ some p
    → p < r.next
unfolding candidate
candidate-IsPlace r id [] p h e = absurd (ground arith)
candidate-IsPlace r id ((k, q) ∷ rest) p h e =
    elim (Bool-cases (text_beq (r.store q).old_session_id id)) [
      | inl same ↦ ground (arith, h.0)
      | inr other ↦ ground (arith, candidate-IsPlace r id rest p h.1)
    ]

place_bound :
    (r : Recovery) (id : Text) (p : ℕ)
    → IsFiled r
    → or_place (candidate r id r.by_mac) (candidate r id r.by_imsi) ≡ some p
    → p < r.next
place_bound r id p c e = elim (Option-cases (candidate r id r.by_mac)) [
  | inl none_there ↦ ground (arith, candidate-IsPlace r id r.by_imsi p c.imsi_places)
  | inr (q, there) ↦ ground (arith, candidate-IsPlace r id r.by_mac q c.mac_places there)
]

-- The test for expiry keeps the number of places.
recovery_expired_locked_next :
    (r : Recovery) (place : Option ℕ) (now : Time)
    → (recovery_expired_locked r place now).1.next ≡ r.next
unfolding recovery_expired_locked unindex_recovery_locked
recovery_expired_locked_next r none now = refl
recovery_expired_locked_next r (some p) now = elim (Bool-cases (has_expired (r.store p) now)) [
  | inl late ↦ rw late refl
  | inr fresh ↦ rw fresh refl
]

abbrev IsFiledAfter : Option RecoveryTombstone × Recovery → Type 0
IsFiledAfter x = IsFiled (x.1)

update_recovery-IsFiled :
    (r : Recovery) (id : Text) (fn : RecoveryTombstone → RecoveryTombstone) (now : Time)
    → IsFiled r
    → IsFiled ((update_recovery r id fn now).1)
unfolding update_recovery
update_recovery-IsFiled r id fn now c =
    let place = or_place (candidate r id r.by_mac) (candidate r id r.by_imsi) in
    let x = recovery_expired_locked r place now in
    let bound : (p : ℕ) → place ≡ some p → p < x.1.next =
      λ p e. rw (recovery_expired_locked_next r place now) (place_bound r id p c e) in
    if-both IsFiledAfter (length id == 0) (none, r) (finish_update fn place x) c
      (finish_update-IsFiled fn place x bound (recovery_expired_locked-IsFiled r place now c))

add_recovery_tombstone-IsFiled :
    (r : Recovery) (sess : Session) (reason : Text) (ttl now : ℕ)
    → IsFiled r
    → IsFiled ((add_recovery_tombstone r sess reason ttl now).1)
unfolding add_recovery_tombstone
add_recovery_tombstone-IsFiled r sess reason ttl now c =
    let t = new_tombstone sess reason ttl now in
    let q = record r { next = r.next + 1 } in
    if-both IsFiledAfter (ttl == 0) (none, r) _ c
      (index_recovery_locked-IsFiled q r.next t (next_place-IsFiled r c) (next_place-IsDetached r c)
        (omega arith))

Step-IsFiled : (r r' : Recovery) → IsFiled r → Step r r' → IsFiled r'
unfolding lookup_recovery_by_mac_addr lookup_recovery_by_ip find_recovery complete_recovery_for
Step-IsFiled r r' c (added sess reason ttl now e) =
    rw e (add_recovery_tombstone-IsFiled r sess reason ttl now c)
Step-IsFiled r r' c (updated id fn now e) = rw e (update_recovery-IsFiled r id fn now c)
Step-IsFiled r r' c (found_by_mac mac now e) =
    subst IsFiled (sym e)
      (if-both IsFiledAfter (is_nil mac) (none, r) _ c (looked_up-IsFiled r _ now c))
Step-IsFiled r r' c (found_by_ip ip now e) =
    subst IsFiled (sym e)
      (if-both IsFiledAfter (is_nil ip) (none, r) _ c (looked_up-IsFiled r _ now c))
Step-IsFiled r r' c (found imsi mac now e) = subst IsFiled (sym e) (looked_up-IsFiled r _ now c)
Step-IsFiled r r' c (completed sess now e) =
    subst IsFiled (sym e) (finish_complete-IsFiled _ _ (recovery_expired_locked-IsFiled r _ now c))

-- In every set of tombstones that calls lead to, each entry of the four tables is filed under a key
-- that its tombstone has.
pub Reachable-IsFiled : (r : Recovery) → Reachable r → IsFiled r
unfolding new_recovery lookup
Reachable-IsFiled _ (started blank) = record {
  by_mac = λ k p e. absurd (ground arith);
  by_imsi = λ k p e. absurd (ground arith);
  by_ip = λ k p e. absurd (ground arith);
  by_remote_teid = λ k p e. absurd (ground arith);
  mac_places = tt;
  imsi_places = tt;
}
Reachable-IsFiled _ (stepped r r' h s) = Step-IsFiled r r' (Reachable-IsFiled r h) s
