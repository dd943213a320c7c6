-- ===== src/Vm/State.antt =====
-- The table of transitions: src/core/domain/vm/state.go.
use spacetrek.Prelude.{
  Bool, true, false, ◌&&◌, ◌||◌, List, [], ◌∷◌, if◌then◌else◌, Option, none, some,
}
use spacetrek.Vm.{Vm, Status, provisioning, ready, running, idle, terminated, status_eq}

abbrev pub valid_transitions : List (Status × Status)
valid_transitions =
    (provisioning, ready)
    ∷ (provisioning, terminated)
    ∷ (ready, running)
    ∷ (ready, idle)
    ∷ (ready, terminated)
    ∷ (running, idle)
    ∷ (running, terminated)
    ∷ (idle, running)
    ∷ (idle, terminated)
    ∷ []

-- The loop over the table.
scan : List (Status × Status) → Status → Status → Bool
scan [] from to = false
scan ((f, t) ∷ rest) from to =
    if status_eq f from && status_eq t to then true else scan rest from to

unfoldable pub can_transition : Status → Status → Bool
unfolding scan
can_transition from to = scan valid_transitions from to

-- `none` is the `InvalidStateTransitionError`.
unfoldable pub transition : Status → Vm → Option Vm
unfolding can_transition
transition to v = if can_transition v.status to then some (record v { status = to }) else none

unfoldable pub is_terminal : Status → Bool
is_terminal s = status_eq s terminated

unfoldable pub is_active : Status → Bool
is_active s = status_eq s running || status_eq s ready

unfoldable pub is_idle : Status → Bool
is_idle s = status_eq s idle || status_eq s ready
