-- ===== src/Session/Manager/Lookups.antt =====
-- What the session manager's lookups find in a manager that calls lead to.
use vectorcore_twag.Base.{
  ℕ, ◌+◌, ◌^◌, ◌≡◌, ◌≢◌, ◌⊎◌, ◌%◌, inl, inr, subst, none, some, arith, true, false, Bool-cases,
  Option-cases, ok, err,
}
use vectorcore_twag.Base.Map.{lookup, lookup-insert, text_beq_iff, nat_eq, text_eq}
use vectorcore_twag.Base.Net.{Ip, is_nil, ip_string}
use vectorcore_twag.Base.Text.{Text}
use vectorcore_twag.Session.States.{valid_transition}
use vectorcore_twag.Session.Types.{Session, Time, State}
use vectorcore_twag.Session.States.{valid_transition}
use vectorcore_twag.Session.Manager.{
  index_locked, new_session, invalid_transition, Manager, CreateInput, edit, transition, create,
  mark,
}
use vectorcore_twag.Session.Operations.{
  delete_session, get_session, lookup_by_imsi, lookup_by_ip, lookup_by_teid,
}
use vectorcore_twag.Session.Manager.Cases.{delete_cases, stamped}
use vectorcore_twag.Session.Manager.Removal.{removed}
use vectorcore_twag.Session.Manager.Reach.{Reachable, Reachable-IsConsistent}

-- In every manager that calls lead to, the session found by an IMSI has it, and its own name leads
-- to it.
pub lookup_by_imsi_agrees :
    (m : Manager) (imsi : Text) (s : Session)
    → Reachable m
    → lookup_by_imsi m imsi ≡ some s
    → (s.imsi ≡ imsi) × (get_session m s.id ≡ some s)
unfolding lookup_by_imsi get_session
lookup_by_imsi_agrees m imsi s r e = elim (Option-cases (lookup imsi m.by_imsi)) [
  | inl absent ↦ absurd (ground arith)
  | inr (p, found) ↦ ground (arith, (Reachable-IsConsistent m r).by_imsi imsi p)
]

-- In every manager that calls lead to, the session found by an address has an address of the same
-- text, and its own name leads to it.
pub lookup_by_ip_agrees :
    (m : Manager) (ip : Ip) (s : Session)
    → Reachable m
    → lookup_by_ip m ip ≡ some s
    → (ip_string s.subscriber_ip ≡ ip_string ip)
      × (is_nil s.subscriber_ip ≡ false)
      × (get_session m s.id ≡ some s)
unfolding lookup_by_ip get_session
lookup_by_ip_agrees m ip s r e = elim (Option-cases (lookup (ip_string ip) m.by_ip)) [
  | inl absent ↦ absurd (ground arith)
  | inr (p, found) ↦ ground (arith, (Reachable-IsConsistent m r).by_ip (ip_string ip) p)
]

-- In every manager that calls lead to, the session found by a control TEID has it, it is not 0, and
-- the session's own name leads to it.
pub lookup_by_teid_agrees :
    (m : Manager) (teid : ℕ) (s : Session)
    → Reachable m
    → lookup_by_teid m teid ≡ some s
    → (s.gtpc_teid ≡ teid) × (teid ≢ 0) × (get_session m s.id ≡ some s)
unfolding lookup_by_teid get_session
lookup_by_teid_agrees m teid s r e = elim (Option-cases (lookup teid m.by_teid)) [
  | inl absent ↦ absurd (ground arith)
  | inr (p, found) ↦ ground (arith, (Reachable-IsConsistent m r).by_teid teid p)
]

-- A session that Create makes is found by its name.
pub create-get_session :
    (m : Manager) (input : CreateInput) (now : Time)
    → let r = create m input now in get_session r.1 r.0.id ≡ some r.0
unfolding create get_session index_locked
create-get_session m input now =
    let n = (m.next + 1) % 2 ^ 64 in
    let s = new_session input now n in
    ground (arith, lookup-insert s.id s.id n m.by_id, text_beq_iff s.id s.id)

-- After a deletion that succeeds, in a manager that calls lead to, the name leads to no session.
pub delete_session-get_session :
    (m m' : Manager) (id : Text) (now : Time) (s : Session)
    → delete_session m id now ≡ some (s, m')
    → Reachable m
    → get_session m' id ≡ none
unfolding get_session
delete_session-get_session m m' id now s e r =
    let (p, found, left) = delete_cases m m' id now s e in
    subst (λ n. get_session n id ≡ none) left
      (ground (arith, removed m p id (Reachable-IsConsistent m r) found))

-- The outcome of a change of state on a session that is there: where it is valid, the session
-- with its new state and time, which its name then leads to; where it is not, the error that
-- names both states.
pub mark_lem :
    (m : Manager) (id : Text) (next : State) (now : Time) (old : Session)
    → get_session m id ≡ some old
    → ((valid_transition old.state next ≡ true)
        × (m' : Manager) × (mark m id next now ≡ ok (stamped next now old, m'))
        × (get_session m' id ≡ some (stamped next now old)))
      ⊎ ((valid_transition old.state next ≡ false)
          × (mark m id next now ≡ err (invalid_transition old.state next)))
unfolding mark transition get_session
mark_lem m id next now old e = elim (Option-cases (lookup id m.by_id)) [
  | inl absent ↦ absurd (ground arith)
  | inr (p, found) ↦ elim (Bool-cases (valid_transition old.state next)) [
    | inl valid ↦ inl (valid, edit (stamped next now) m p, ground arith, ground arith)
    | inr invalid ↦ inr (invalid, ground arith)
  ]
]
