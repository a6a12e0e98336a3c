-- ===== src/Radius/ApRegistry/Counts.antt =====
-- What the registry holds after any observations.
use vectorcore_twag.Base.{
  ℕ, ◌+◌, ◌%◌, ◌^◌, ◌≡◌, refl, inl, inr, Bool, true, false, ◌&&◌, List, [], ◌∷◌, Option, none, some,
  if◌then◌else◌, arith, Bool-cases, not, sym, ◌∙◌, subst, ap,
}
use vectorcore_twag.Base.Map.{lookup, insert, lookup-insert, text_eq, text_beq}
use vectorcore_twag.Base.Text.{Text}
use vectorcore_twag.Session.Types.{Time}
use vectorcore_twag.Radius.ApRegistry.{
  ApObservation, ApRecord, ApRegistry, registry_key, new_record, observed, or_new, update_registry,
}

-- Observations with their times, the newest first.
abbrev pub History : Type 0
History = List (ApObservation × Time)

-- The registry that they leave behind.
unfoldable pub registry : History → ApRegistry
registry [] = []
registry ((obs, now) ∷ older) = (update_registry (registry older) obs now).1

abbrev pub is_from : Text → ApObservation → Bool
is_from key obs = text_beq (registry_key obs) key

abbrev same_kind : Bool → Bool → Bool
same_kind true b = b
same_kind false b = not b

-- How many accounting requests, or other ones, an access point has sent.
unfoldable pub requests : Bool → Text → History → ℕ
requests accounting key [] = 0
requests accounting key ((obs, now) ∷ older) =
    let n = requests accounting key older in
    if is_from key obs && same_kind accounting obs.accounting_packet then n + 1 else n

-- When it sent its newest request, and when its first one.
unfoldable pub newest : Text → History → Option Time
newest key [] = none
newest key ((obs, now) ∷ older) =
    let t = newest key older in if is_from key obs then some now else t

abbrev or_time : Option Time → Option Time → Option Time
or_time (some t) u = some t
or_time none u = u

unfoldable pub first : Text → History → Option Time
first key [] = none
first key ((obs, now) ∷ older) =
    let t = first key older in if is_from key obs then or_time t (some now) else t

-- What a lookup by a key gives, against the requests.
abbrev pub IsCounted : Text → History → Option ApRecord → Type 0
IsCounted key h none =
    (requests false key h ≡ 0)
    × (requests true key h ≡ 0)
    × (newest key h ≡ none)
    × (first key h ≡ none)
IsCounted key h (some rec) =
    (rec.auth_request_count ≡ requests false key h % 2 ^ 64)
    × (rec.accounting_request_count ≡ requests true key h % 2 ^ 64)
    × (newest key h ≡ some rec.last_seen)
    × (first key h ≡ some rec.first_seen)

-- Another access point's request changes nothing.
passed :
    (key : Text) (obs : ApObservation) (now : Time) (older : History) (found : Option ApRecord)
    → is_from key obs ≡ false
    → IsCounted key older found
    → IsCounted key ((obs, now) ∷ older) found
unfolding requests newest first
passed key obs now older none other h = rw (other, h.0, h.1, h.2, h.3) (refl, refl, refl, refl)
passed key obs now older (some rec) other h = rw other h

counted :
    (key : Text) (obs : ApObservation) (now : Time) (older : History) (found : Option ApRecord)
    → is_from key obs ≡ true
    → IsCounted key older found
    → IsCounted key ((obs, now) ∷ older) (some (observed obs now (or_new obs now found)))
unfolding requests newest first observed new_record
counted key obs now older none own h = elim (Bool-cases obs.accounting_packet) [
  | inl e ↦ rw (own, e, observed, h.0, h.1, h.3) (refl, refl, refl, refl)
  | inr e ↦ rw (own, e, observed, h.0, h.1, h.3) (refl, refl, refl, refl)
]
counted key obs now older (some rec) own h = elim (Bool-cases obs.accounting_packet) [
  | inl e ↦ rw (own, e, observed, h.3) (h.0, omega (arith, h.1), refl, refl)
  | inr e ↦ rw (own, e, observed, h.3) (omega (arith, h.0), h.1, refl, refl)
]

-- Whatever requests have come in, the registry has a record under a key exactly when an access point
-- with that key has sent one; the record counts its accounting requests and its others, modulo 2^64,
-- and holds the times of the first one and of the newest one.
pub registry_lem : (key : Text) (h : History) → IsCounted key h (lookup key (registry h))
unfolding registry requests newest first lookup update_registry
registry_lem key [] = (refl, refl, refl, refl)
registry_lem key ((obs, now) ∷ older) =
    let before = registry_lem key older in
    let r = registry older in
    let own = registry_key obs in
    let rec = observed obs now (or_new obs now (lookup own r)) in
    elim (Bool-cases (is_from key obs)) [
      | inl e ↦
          let same : own ≡ key = (text_eq.beq_iff own key).0 e in
          let found : lookup key (insert own rec r)
              ≡ some (observed obs now (or_new obs now (lookup key r))) =
            lookup-insert key own rec r
            ∙ rw e (ap (λ k. some (observed obs now (or_new obs now (lookup k r)))) same) in
          subst (IsCounted key ((obs, now) ∷ older)) (sym found)
            (counted key obs now older (lookup key r) e before)
      | inr e ↦
          subst (IsCounted key ((obs, now) ∷ older)) (sym (lookup-insert key own rec r ∙ rw e refl))
            (passed key obs now older (lookup key r) e before)
    ]
