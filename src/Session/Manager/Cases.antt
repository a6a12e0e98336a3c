-- ===== src/Session/Manager/Cases.antt =====
-- What a successful call of the session manager did, and that it keeps the tables consistent.
use vectorcore_twag.Base.{ℕ, ◌≡◌, inl, inr, refl, subst, some, arith, true, Option-cases, ok}
use vectorcore_twag.Base.Map.{lookup, nat_eq, text_eq}
use vectorcore_twag.Base.Text.{Text}
use vectorcore_twag.Session.Types.{Session, Time, State, terminated}
use vectorcore_twag.Session.States.{valid_transition}
use vectorcore_twag.Session.Manager.{Manager, Change, edit, unindex_locked, transition, update}
use vectorcore_twag.Session.Operations.{delete_session}
use vectorcore_twag.Session.Manager.Tables.{IsConsistent}
use vectorcore_twag.Session.Manager.Removal.{unindex_locked-IsAbsent, unindex_locked-IsConsistent}
use vectorcore_twag.Session.Manager.Changes.{edit-IsConsistent, absent-IsConsistent, own_name}

-- The state that an operation leaves: the changed session has its new state and time.
abbrev pub stamped : State → Time → Session → Session
stamped next now s = record s { state = next; updated_at = now }

-- What a successful transition did: the change was valid, and the session is marked.
pub transition_cases :
    (fn : Change) (m m' : Manager) (id : Text) (next : State) (now : Time) (s : Session)
    → transition m id next now fn ≡ ok (s, m')
    → (p : ℕ) × (lookup id m.by_id ≡ some p)
      × (valid_transition (m.store p).state next ≡ true)
      × (edit (stamped next now) (fn m p) p ≡ m')
      × (m'.store p ≡ s)
unfolding transition
transition_cases fn m m' id next now s e = elim (Option-cases (lookup id m.by_id)) [
  | inl absent ↦ absurd (ground arith)
  | inr (p, found) ↦ (p, found, ground arith, ground arith, ground arith)
]

pub update_cases :
    (fn : Change) (m m' : Manager) (id : Text) (now : Time) (s : Session)
    → update m id now fn ≡ ok (s, m')
    → (p : ℕ) × (lookup id m.by_id ≡ some p)
      × (edit (λ s. record s { updated_at = now }) (fn m p) p ≡ m')
      × (m'.store p ≡ s)
unfolding update
update_cases fn m m' id now s e = elim (Option-cases (lookup id m.by_id)) [
  | inl absent ↦ absurd (ground arith)
  | inr (p, found) ↦ (p, found, ground arith, ground arith)
]

-- A change that keeps the tables consistent where a name leads to its session.
abbrev pub Keeps : Change → Type 0
Keeps fn =
    (m : Manager) (p : ℕ)
    → IsConsistent m
    → (k : Text) → lookup k m.by_id ≡ some p
    → IsConsistent (fn m p)

-- Then so does the whole operation.
pub transition-IsConsistent :
    (fn : Change) (m m' : Manager) (id : Text) (next : State) (now : Time) (s : Session)
    → Keeps fn
    → IsConsistent m
    → transition m id next now fn ≡ ok (s, m')
    → IsConsistent m'
transition-IsConsistent fn m m' id next now s h c e =
    let (p, found, valid, left, here) = transition_cases fn m m' id next now s e in
    subst IsConsistent left
      (edit-IsConsistent (stamped next now) (fn m p) p (λ s. refl) (h m p c id found))

pub update-IsConsistent :
    (fn : Change) (m m' : Manager) (id : Text) (now : Time) (s : Session)
    → Keeps fn
    → IsConsistent m
    → update m id now fn ≡ ok (s, m')
    → IsConsistent m'
update-IsConsistent fn m m' id now s h c e =
    let (p, found, left, here) = update_cases fn m m' id now s e in
    subst IsConsistent left (
      edit-IsConsistent (λ s. record s { updated_at = now }) (fn m p) p (λ s. refl)
        (h m p c id found))

-- What a successful deletion did.
pub delete_cases :
    (m m' : Manager) (id : Text) (now : Time) (s : Session)
    → delete_session m id now ≡ some (s, m')
    → (p : ℕ) × (lookup id m.by_id ≡ some p)
      × (edit (stamped terminated now) (unindex_locked m p) p ≡ m')
unfolding delete_session
delete_cases m m' id now s e = elim (Option-cases (lookup id m.by_id)) [
  | inl absent ↦ absurd (ground arith)
  | inr (p, found) ↦ (p, found, ground arith)
]

pub delete_session-IsConsistent :
    (m m' : Manager) (id : Text) (now : Time) (s : Session)
    → IsConsistent m
    → delete_session m id now ≡ some (s, m')
    → IsConsistent m'
delete_session-IsConsistent m m' id now s c e =
    let (p, found, left) = delete_cases m m' id now s e in
    subst IsConsistent left (
      absent-IsConsistent (stamped terminated now) (unindex_locked m p) p
        (unindex_locked-IsAbsent m p c (own_name m p c id found))
        (unindex_locked-IsConsistent m p c (own_name m p c id found)))
