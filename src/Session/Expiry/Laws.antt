-- ===== src/Session/Expiry/Laws.antt =====
-- What the expiry of sessions leaves of the manager's tables.
use vectorcore_twag.Base.{
  ℕ, ◌≡◌, ◌≢◌, ◌⊎◌, ◌<◌, ◌≤◌, true, sym, ◌∙◌, ap, refl, none, some, inl, inr, false, [], ◌∷◌, arith,
  Option-cases, Bool-cases,
}
use vectorcore_twag.Base.Map.{Assoc, lookup, delete, text_eq, text_beq_iff, lookup-delete}
use vectorcore_twag.Base.Text.{Text}
use vectorcore_twag.Session.Types.{Session, Time, terminated}
use vectorcore_twag.Session.Manager.{Manager, unindex_locked}
use vectorcore_twag.Session.Manager.Tables.{IsConsistent, IsAbsent}
use vectorcore_twag.Session.Manager.Removal.{
  removed, unindex_locked-IsAbsent, unindex_locked-IsConsistent,
}
use vectorcore_twag.Session.Manager.Changes.{absent-IsConsistent, own_name}
use vectorcore_twag.Session.Operations.{get_session}
use vectorcore_twag.Session.Expiry.{is_due, expire, expire_loop, expire_inactive}

-- A name that leads nowhere may be deleted once more.
delete_again-IsConsistent :
    (m : Manager) (id : Text)
    → IsConsistent m
    → lookup id m.by_id ≡ none
    → IsConsistent (record m { by_id = delete id m.by_id })
delete_again-IsConsistent m id c gone = record {
  by_id = λ k q e. ground (arith, lookup-delete k id m.by_id, c.by_id k q);
  by_imsi = λ k q e. (ground (arith, c.by_imsi k q), stays q (ground (arith, c.by_imsi k q)));
  by_mac = λ k q e. (ground (arith, c.by_mac k q), stays q (ground (arith, c.by_mac k q)));
  by_ip = λ k q e. (
    ground (arith, c.by_ip k q),
    ground (arith, c.by_ip k q),
    stays q (ground (arith, c.by_ip k q)),
  );
  by_teid = λ k q e. ((c.by_teid k q e).0, (c.by_teid k q e).1, stays q (c.by_teid k q e).2);
}
  where
    stays :
        (q : ℕ)
        → lookup (m.store q).id m.by_id ≡ some q
        → lookup (m.store q).id (delete id m.by_id) ≡ some q
    stays q h =
        ground
          (arith, gone, lookup-delete (m.store q).id id m.by_id, text_beq_iff id (m.store q).id)

expire-IsConsistent :
    (now : Time) (id : Text) (m : Manager) (p : ℕ)
    → IsConsistent m
    → lookup id m.by_id ≡ some p
    → IsConsistent (expire now id m p)
unfolding expire unindex_locked
expire-IsConsistent now id m p c found =
    let out = unindex_locked m p in
    let named : lookup (m.store p).id m.by_id ≡ some p = own_name m p c id found in
    let gone : lookup id out.by_id ≡ none = removed m p id c found in
    let absent : IsAbsent (record out { by_id = delete id out.by_id }) p =
      λ k e. ground (arith, unindex_locked-IsAbsent m p c named k, lookup-delete k id out.by_id) in
    absent-IsConsistent (λ s. record s { state = terminated; updated_at = now })
      (record out { by_id = delete id out.by_id }) p absent
      (delete_again-IsConsistent out id (unindex_locked-IsConsistent m p c named) gone)

expire_loop-IsConsistent :
    (now : Time) (names : Assoc Text ℕ) (m : Manager)
    → IsConsistent m
    → IsConsistent (expire_loop now names m).1
unfolding expire_loop
expire_loop-IsConsistent now [] m c = c
expire_loop-IsConsistent now ((id, old) ∷ rest) m c = elim (Option-cases (lookup id m.by_id)) [
  | inl absent ↦ rw (expire_loop, absent) (expire_loop-IsConsistent now rest m c)
  | inr (p, found) ↦ elim (Bool-cases (is_due now (m.store p))) [
    | inl due ↦
        rw (expire_loop, found, due)
          (expire_loop-IsConsistent now rest (expire now id m p)
            (expire-IsConsistent now id m p c found))
    | inr early ↦ rw (expire_loop, found, early) (expire_loop-IsConsistent now rest m c)
  ]
]

-- ExpireInactive keeps the manager's tables consistent.
pub expire_inactive-IsConsistent :
    (m : Manager) (now : Time) → IsConsistent m → IsConsistent (expire_inactive m now).1
unfolding expire_inactive
expire_inactive-IsConsistent m now c = expire_loop-IsConsistent now m.by_id m c

-- The sessions that the loop has yet to look at are under the names that are left.
abbrev Checked : Time → Assoc Text ℕ → Manager → Type 0
Checked now names m =
    (k : Text) (q : ℕ)
    → lookup k m.by_id ≡ some q
    → lookup k names ≡ none
    → is_due now (m.store q) ≡ false

skip-Checked :
    (now : Time) (id : Text) (old : ℕ) (rest : Assoc Text ℕ) (m : Manager)
    → lookup id m.by_id ≡ none
    → Checked now ((id, old) ∷ rest) m
    → Checked now rest m
unfolding lookup
skip-Checked now id old rest m absent h k q e gone = ground (arith, text_beq_iff id k, h k q)

early-Checked :
    (now : Time) (id : Text) (old p : ℕ) (rest : Assoc Text ℕ) (m : Manager)
    → lookup id m.by_id ≡ some p
    → is_due now (m.store p) ≡ false
    → Checked now ((id, old) ∷ rest) m
    → Checked now rest m
unfolding lookup
early-Checked now id old p rest m found early h k q e gone =
    ground (arith, text_beq_iff id k, h k q)

expire-Checked :
    (now : Time) (id : Text) (old p : ℕ) (rest : Assoc Text ℕ) (m : Manager)
    → IsConsistent m
    → lookup id m.by_id ≡ some p
    → Checked now ((id, old) ∷ rest) m
    → Checked now rest (expire now id m p)
unfolding lookup expire unindex_locked
expire-Checked now id old p rest m c found h k q e gone = ground (
  arith,
  text_beq_iff id k,
  text_beq_iff (m.store p).id k,
  lookup-delete k id (delete (m.store p).id m.by_id),
  lookup-delete k (m.store p).id m.by_id,
  c.by_id k q,
  c.by_id id p,
  h k q,
)

expire_loop-Checked :
    (now : Time) (names : Assoc Text ℕ) (m : Manager)
    → IsConsistent m
    → Checked now names m
    → Checked now [] (expire_loop now names m).1
unfolding expire_loop
expire_loop-Checked now [] m c h = h
expire_loop-Checked now ((id, old) ∷ rest) m c h = elim (Option-cases (lookup id m.by_id)) [
  | inl absent ↦
      rw (expire_loop, absent)
        (expire_loop-Checked now rest m c (skip-Checked now id old rest m absent h))
  | inr (p, found) ↦ elim (Bool-cases (is_due now (m.store p))) [
    | inl due ↦
        rw (expire_loop, found, due)
          (expire_loop-Checked now rest (expire now id m p) (expire-IsConsistent now id m p c found)
            (expire-Checked now id old p rest m c found h))
    | inr early ↦
        rw (expire_loop, found, early)
          (expire_loop-Checked now rest m c (early-Checked now id old p rest m found early h))
  ]
]

-- A session that is not due stays under its name, as it is.
expire-keeps :
    (now : Time) (id k : Text) (m : Manager) (p q : ℕ)
    → IsConsistent m
    → lookup id m.by_id ≡ some p
    → is_due now (m.store p) ≡ true
    → lookup k m.by_id ≡ some q
    → is_due now (m.store q) ≡ false
    → (lookup k (expire now id m p).by_id ≡ some q) × ((expire now id m p).store q ≡ m.store q)
unfolding expire unindex_locked
expire-keeps now id k m p q c found due held early =
    let other : p ≢ q = λ e. absurd (ground (arith, e)) in
    ground (
      arith,
      other,
      text_beq_iff id k,
      text_beq_iff (m.store p).id k,
      lookup-delete k id (delete (m.store p).id m.by_id),
      lookup-delete k (m.store p).id m.by_id,
      c.by_id id p,
      c.by_id k q,
    )

expire_loop-keeps :
    (now : Time) (names : Assoc Text ℕ) (m : Manager) (k : Text) (q : ℕ)
    → IsConsistent m
    → lookup k m.by_id ≡ some q
    → is_due now (m.store q) ≡ false
    → let after = (expire_loop now names m).1 in
      (lookup k after.by_id ≡ some q) × (after.store q ≡ m.store q)
unfolding expire_loop
expire_loop-keeps now [] m k q c held early = (held, refl)
expire_loop-keeps now ((id, old) ∷ rest) m k q c held early =
    elim (Option-cases (lookup id m.by_id)) [
      | inl absent ↦ rw (expire_loop, absent) (expire_loop-keeps now rest m k q c held early)
      | inr (p, found) ↦ elim (Bool-cases (is_due now (m.store p))) [
        | inl due ↦
            let (held', same) = expire-keeps now id k m p q c found due held early in
            let (stays, as_it_was) =
              expire_loop-keeps now rest (expire now id m p) k q
                (expire-IsConsistent now id m p c found) held' (ap (is_due now) same ∙ early) in
            rw (expire_loop, found, due) (stays, as_it_was ∙ same)
        | inr late ↦ rw (expire_loop, found, late) (expire_loop-keeps now rest m k q c held early)
      ]
    ]

-- A name leads where it led before, or nowhere.
expire-adds_none :
    (now : Time) (id k : Text) (m : Manager) (p q : ℕ)
    → IsConsistent m
    → lookup id m.by_id ≡ some p
    → lookup k (expire now id m p).by_id ≡ some q
    → (lookup k m.by_id ≡ some q) × ((expire now id m p).store q ≡ m.store q)
unfolding expire unindex_locked
expire-adds_none now id k m p q c found held = ground (
  arith,
  text_beq_iff id k,
  text_beq_iff (m.store p).id k,
  lookup-delete k id (delete (m.store p).id m.by_id),
  lookup-delete k (m.store p).id m.by_id,
  c.by_id k q,
)

expire_loop-adds_none :
    (now : Time) (names : Assoc Text ℕ) (m : Manager) (k : Text) (q : ℕ)
    → IsConsistent m
    → lookup k (expire_loop now names m).1.by_id ≡ some q
    → (lookup k m.by_id ≡ some q) × ((expire_loop now names m).1.store q ≡ m.store q)
unfolding expire_loop
expire_loop-adds_none now [] m k q c held = (held, refl)
expire_loop-adds_none now ((id, old) ∷ rest) m k q c held =
    elim (Option-cases (lookup id m.by_id)) [
      | inl absent ↦
          let step : expire_loop now ((id, old) ∷ rest) m ≡ expire_loop now rest m =
            rw (expire_loop, absent) refl in
          ground (arith, step, expire_loop-adds_none now rest m k q c)
      | inr (p, found) ↦ elim (Bool-cases (is_due now (m.store p))) [
        | inl due ↦
            let m' = expire now id m p in
            let step : (expire_loop now ((id, old) ∷ rest) m).1 ≡ (expire_loop now rest m').1 =
              rw (expire_loop, found, due) refl in
            let (before, same) =
              expire_loop-adds_none now rest m' k q (expire-IsConsistent now id m p c found)
                (sym (ap (λ (x : Manager). lookup k x.by_id) step) ∙ held) in
            let (first, as_it_was) = expire-adds_none now id k m p q c found before in
            (first, ap (λ (x : Manager). x.store q) step ∙ same ∙ as_it_was)
        | inr late ↦
            let step : expire_loop now ((id, old) ∷ rest) m ≡ expire_loop now rest m =
              rw (expire_loop, found, late) refl in
            ground (arith, step, expire_loop-adds_none now rest m k q c)
      ]
    ]

-- On consistent tables, ExpireInactive leaves every session under its name as it is that has no time
-- of expiry or one after `now`, and takes the names of the others away; it adds no name.
pub expire_inactive-get_session :
    (m : Manager) (now : Time) (id : Text)
    → IsConsistent m
    → let after = (expire_inactive m now).1 in
      ((get_session m id ≡ none) × (get_session after id ≡ none))
      ⊎ ((s : Session) × (get_session m id ≡ some s)
          × ((((s.expires_at ≡ 0) ⊎ (now < s.expires_at)) × (get_session after id ≡ some s))
              ⊎ ((s.expires_at ≢ 0) × (s.expires_at ≤ now) × (get_session after id ≡ none))))
unfolding expire_inactive get_session is_due lookup
expire_inactive-get_session m now id c =
    let after = (expire_loop now m.by_id m).1 in
    elim (Option-cases (lookup id m.by_id)) [
      | inl absent ↦ elim (Option-cases (lookup id after.by_id)) [
        | inl gone ↦ inl (ground arith, ground arith)
        | inr (q, held) ↦ absurd (ground (arith, expire_loop-adds_none now m.by_id m id q c held))
      ]
      | inr (p, found) ↦
          inr (m.store p, ground arith, outcome p found (Bool-cases (is_due now (m.store p))))
    ]
  where
    outcome :
        (p : ℕ)
        → lookup id m.by_id ≡ some p
        → (is_due now (m.store p) ≡ true) ⊎ (is_due now (m.store p) ≡ false)
        → let s = m.store p in
          let after = (expire_loop now m.by_id m).1 in
          (((s.expires_at ≡ 0) ⊎ (now < s.expires_at)) × (get_session after id ≡ some s))
          ⊎ ((s.expires_at ≢ 0) × (s.expires_at ≤ now) × (get_session after id ≡ none))
    outcome p found (inr early) =
        let kept = expire_loop-keeps now m.by_id m id p c found early in
        inl (ground arith, ground (arith, kept))
    outcome p found (inl due) =
        elim (Option-cases (lookup id (expire_loop now m.by_id m).1.by_id)) [
          | inl gone ↦ inr (ground arith, ground arith, ground arith)
          | inr (q, held) ↦ absurd (
              ground (
                arith,
                expire_loop-adds_none now m.by_id m id q c held,
                expire_loop-Checked now m.by_id m c (λ k q a b. absurd (ground arith)) id q held
                    refl,
              ))
        ]
