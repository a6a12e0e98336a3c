-- ===== src/Session/States.antt =====
-- internal/session/manager.go: which changes of state are valid.
use vectorcore_twag.Base.{
  ℕ, ◌<◌, ◌≡◌, ◌≢◌, ◌⊎◌, Bool, true, false, ◌||◌, not, arith, if◌then◌else◌, ◌==◌,
}
use vectorcore_twag.Session.Types.{
  State, pending, auth_pending, authorized, ip_allocated, pgw_pending, active, recovering,
  terminating, terminated, failed,
}

-- The position of a state in the order of session.go's constants.
abbrev pub index : State → ℕ
index pending = 0
index auth_pending = 1
index authorized = 2
index ip_allocated = 3
index pgw_pending = 4
index active = 5
index recovering = 6
index terminating = 7
index terminated = 8
index failed = 9

-- `==` on states.
unfoldable pub same : State → State → Bool
same a b = index a == index b

-- The switch of validTransition on `from`.
unfoldable pub from_switch : State → State → Bool
unfolding same
from_switch pending to = same to auth_pending || same to terminating
from_switch auth_pending to = same to authorized || same to terminating
from_switch authorized to = same to ip_allocated || same to pgw_pending || same to terminating
from_switch ip_allocated to = same to pgw_pending || same to terminating
from_switch pgw_pending to = same to active || same to terminating
from_switch active to = same to terminating || same to recovering
from_switch recovering to = same to terminating || same to failed
from_switch terminating to = same to terminated
from_switch terminated to = false
from_switch failed to = false

-- validTransition
unfoldable pub valid_transition : State → State → Bool
unfolding same from_switch
valid_transition from to =
    if same from to
    then true
    else if same to failed
    then not (same from terminated)
    else from_switch from to

pub same→eq : (a b : State) → same a b ≡ true → a ≡ b
unfolding same
same→eq a b h = ground arith

-- How far a session has come; both final states rank the same.
abbrev pub rank : State → ℕ
rank pending = 0
rank auth_pending = 1
rank authorized = 2
rank ip_allocated = 3
rank pgw_pending = 4
rank active = 5
rank recovering = 6
rank terminating = 7
rank terminated = 8
rank failed = 8

-- A valid change of state keeps the state or raises its rank, and never leaves a terminated or
-- failed session's state.
pub valid_transition_forward :
    (from to : State)
    → valid_transition from to ≡ true
    → (from ≡ to) ⊎ ((rank from < rank to) × (rank from ≢ 8))
unfolding valid_transition
valid_transition_forward pending to h = ground arith
valid_transition_forward _ to h = ground arith
