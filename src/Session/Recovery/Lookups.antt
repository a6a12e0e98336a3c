-- ===== src/Session/Recovery/Lookups.antt =====
-- What the lookups of tombstones return.
use vectorcore_twag.Base.{
  ℕ, ◌+◌, ◌<◌, ◌≤◌, ◌≡◌, ◌≢◌, ◌⊎◌, inl, inr, refl, ap, false, Option, none, some, arith, Bool-cases,
  length, ◌∷◌,
}
use vectorcore_twag.Base.Bytes.{Bytes}
use vectorcore_twag.Base.Map.{lookup, nat_eq, text_eq, lookup-insert_self, lookup-delete_self}
use vectorcore_twag.Base.Net.{is_nil}
use vectorcore_twag.Base.Text.{Text}
use vectorcore_twag.Session.Types.{Session, Time}
use vectorcore_twag.Session.Mac.{mac_string, parse_mac}
use vectorcore_twag.Session.Recovery.{
  RecoveryTombstone, Recovery, index_recovery_locked, unindex_recovery_locked, has_expired,
  recovery_expired_locked, new_tombstone, add_recovery_tombstone, looked_up,
  lookup_recovery_by_mac_addr, complete_recovery_for,
}
use vectorcore_twag.Session.Recovery.Reach.{Reachable, Reachable-IsFiled}

-- What a lookup returns is the tombstone of the place, which has not expired.
pub looked_up_cases :
    (r : Recovery) (place : Option ℕ) (now : Time) (t : RecoveryTombstone)
    → (looked_up place (recovery_expired_locked r place now)).0 ≡ some t
    → (p : ℕ) × (place ≡ some p) × (r.store p ≡ t) × (has_expired t now ≡ false)
unfolding recovery_expired_locked
looked_up_cases r none now t e = absurd (ground arith)
looked_up_cases r (some p) now t e = elim (Bool-cases (has_expired (r.store p) now)) [
  | inl late ↦ absurd (ground arith)
  | inr fresh ↦ (p, refl, ground arith, ground arith)
]

-- In every set of tombstones that calls lead to, the tombstone that a lookup by a hardware address
-- returns has an address of the same text, and has no time of expiry or one that has not passed.
pub lookup_recovery_by_mac_addr_agrees :
    (r : Recovery) (mac : Bytes) (now : Time) (t : RecoveryTombstone)
    → Reachable r
    → (lookup_recovery_by_mac_addr r mac now).0 ≡ some t
    → (mac_string t.mac ≡ mac_string mac)
      × (is_nil t.mac ≡ false)
      × ((t.expires_at ≡ 0) ⊎ (now ≤ t.expires_at))
unfolding lookup_recovery_by_mac_addr
lookup_recovery_by_mac_addr_agrees r mac now t h e = elim (Bool-cases (is_nil mac)) [
  | inl empty ↦ absurd (ground arith)
  | inr there ↦
      let (p, place, same, fresh) =
        looked_up_cases r (lookup (mac_string mac) r.by_mac) now t (ground arith) in
      ground (arith, (Reachable-IsFiled r h).by_mac (mac_string mac) p place, fresh)
]

module _ (r : Recovery) (sess : Session) (reason : Text) (ttl now later : ℕ) (b : ℕ) (hw : Bytes)
    (positive : 0 < ttl) (in_time : later ≤ now + ttl) (named : length sess.mac_address ≢ 0)
    (parsed : parse_mac sess.mac_address ≡ some (b ∷ hw)) where
  abbrev tombstone : RecoveryTombstone
  tombstone = new_tombstone sess reason ttl now

  abbrev added : Recovery
  added = (add_recovery_tombstone r sess reason ttl now).1

  tombstone_fields : (tombstone.mac ≡ b ∷ hw) × (tombstone.expires_at ≡ now + ttl)
  unfolding new_tombstone
  tombstone_fields = ground (arith, parsed)

  tombstone_fresh : has_expired tombstone later ≡ false
  tombstone_fresh = ground (arith, tombstone_fields)

  filed_at :
      (lookup (mac_string (b ∷ hw)) added.by_mac ≡ some r.next) × (added.store r.next ≡ tombstone)
  unfolding add_recovery_tombstone index_recovery_locked
  filed_at =
      ground (arith, tombstone_fields, lookup-insert_self (mac_string (b ∷ hw)) r.next r.by_mac)

  fresh_at : recovery_expired_locked added (some r.next) later ≡ (false, added)
  unfolding recovery_expired_locked
  fresh_at = ground (arith, filed_at, tombstone_fresh)

  completed_lem :
      (complete_recovery_for added sess later)
      ≡ (some tombstone, unindex_recovery_locked added r.next)
  unfolding complete_recovery_for
  completed_lem = ground (arith, filed_at, fresh_at, parsed)

  unindexed_lem : lookup (mac_string (b ∷ hw)) (unindex_recovery_locked added r.next).by_mac ≡ none
  unfolding unindex_recovery_locked
  unindexed_lem =
      ground
        (arith, filed_at, tombstone_fields, lookup-delete_self (mac_string (b ∷ hw)) added.by_mac)

  -- A tombstone that AddRecoveryTombstone files for a session with a readable hardware address is
  -- found by that address until its time has passed, and changes nothing by being found;
  -- CompleteRecoveryFor of the same session returns it, and after that the address finds none, at
  -- any time.
  pub add_recovery_tombstone_lem :
      (at_last : Time)
      → ((add_recovery_tombstone r sess reason ttl now).0 ≡ some tombstone)
        × (lookup_recovery_by_mac_addr added (b ∷ hw) later ≡ (some tombstone, added))
        × ((complete_recovery_for added sess later).0 ≡ some tombstone)
        × ((lookup_recovery_by_mac_addr
              ((complete_recovery_for added sess later).1)
              (b ∷ hw)
              at_last).0
            ≡ none)
  unfolding add_recovery_tombstone lookup_recovery_by_mac_addr recovery_expired_locked
  add_recovery_tombstone_lem at_last = (
    ground arith,
    ground (arith, filed_at, fresh_at),
    ap (λ x. x.0) completed_lem,
    rw (completed_lem, unindexed_lem) refl,
  )
