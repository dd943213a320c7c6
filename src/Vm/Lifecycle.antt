-- ===== src/Vm/Lifecycle.antt =====
-- What the entity's operations and its table of transitions keep: src/core/domain/vm/vm.go and
-- src/core/domain/vm/state.go.
use spacetrek.Prelude.{
  ℕ, ◌≡◌, refl, ◌≢◌, ◌↔◌, ◌⊎◌, true, false, List, [], ◌∷◌, none, some, arith, is_some, Text,
}
use spacetrek.Vm.{
  Vm, Status, provisioning, running, idle, terminated, new, is_available, assign_to, unassign,
  terminate, is_terminated, CreateParams,
}
use spacetrek.Vm.State.{can_transition, transition}

-- A caller that logs a refused transition and goes on.
abbrev pub attempt : Status → Vm → Vm
attempt to v = elim (transition to v) [ none ↦ v | some w ↦ w ]

unfoldable pub attempts : List Status → Vm → Vm
attempts [] v = v
attempts (to ∷ rest) v = attempts rest (attempt to v)

attempt_terminated : (to : Status) (v : Vm) → v.status ≡ terminated → attempt to v ≡ v
unfolding transition can_transition
attempt_terminated to v h = ground arith

-- Once a VM is terminated, no sequence of transition attempts changes it in any field.
pub attempts_terminated : (tos : List Status) (v : Vm) → v.status ≡ terminated → attempts tos v ≡ v
unfolding attempts
attempts_terminated [] v h = refl
attempts_terminated (to ∷ tos) v h =
    ground (arith, attempt_terminated to v, attempts_terminated tos v)

attempt_left :
    (to : Status) (v : Vm) → v.status ≢ provisioning → (attempt to v).status ≢ provisioning
unfolding transition can_transition
attempt_left to v h = ground arith

-- A VM that has left provisioning never comes back to it by transitions.
pub attempts_left :
    (tos : List Status) (v : Vm) → v.status ≢ provisioning → (attempts tos v).status ≢ provisioning
unfolding attempts
attempts_left [] v h = h
attempts_left (to ∷ tos) v h = attempts_left tos (attempt to v) (attempt_left to v h)

-- A transition is refused exactly when the table lacks it, and otherwise changes the status alone.
pub transition_cases :
    (to : Status) (v : Vm)
    → ((can_transition v.status to ≡ false) × (transition to v ≡ none))
      ⊎ ((can_transition v.status to ≡ true) × (transition to v ≡ some (record v { status = to })))
unfolding transition
transition_cases to v = ground arith

-- The entity's three writes of the status, against the table: binding an available VM follows the
-- table or stays in running, releasing does so exactly outside provisioning and terminated, and
-- terminating exactly outside terminated.
pub writes_follow_table :
    (v : Vm) (chat : Text) (now : ℕ)
    → (is_available v ≡ true
        → (v.status ≡ running) ⊎ (can_transition v.status (assign_to chat now v).status ≡ true))
      × (((v.status ≡ idle) ⊎ (can_transition v.status (unassign v).status ≡ true))
          ↔ ((v.status ≢ provisioning) × (v.status ≢ terminated)))
      × ((can_transition v.status (terminate now v).status ≡ true) ↔ (is_terminated v ≡ false))
unfolding is_available assign_to unassign terminate is_terminated can_transition
writes_follow_table v chat now = (ground arith, ground arith, ground arith)

-- A bound VM runs and has the time of its assignment; the time of termination is set exactly on a
-- terminated VM.
pub record IsConsistent (v : Vm) : Type 0 where
  pub bound : is_some v.chat_id ≡ true → (v.status ≡ running) × (is_some v.assigned_at ≡ true)
  pub ended : (v.status ≡ terminated) ↔ (is_some v.terminated_at ≡ true)

-- The operations, each where its callers make it.
pub data Move : Vm → Vm → Type 0 where
  assign : (chat : Text) (now : ℕ) (v : Vm) → is_available v ≡ true → Move v (assign_to chat now v)
  release : (v : Vm) → is_terminated v ≡ false → Move v (unassign v)
  end : (now : ℕ) (v : Vm) → Move v (terminate now v)
  become :
      (to : Status) (v w : Vm)
      → v.chat_id ≡ none
      → to ≢ terminated
      → transition to v ≡ some w
      → Move v w

new-IsConsistent :
    (p : CreateParams) (uuid name : Text) (now : ℕ) → IsConsistent (new p uuid name now)
unfolding new
new-IsConsistent p uuid name now = ground arith

Move-IsConsistent : {v w : Vm} → Move v w → IsConsistent v → IsConsistent w
unfolding is_available assign_to unassign terminate is_terminated transition can_transition
Move-IsConsistent (assign chat now v a) h = ground arith
Move-IsConsistent (release v a) h = ground arith
Move-IsConsistent (end now v) h = ground arith
Move-IsConsistent (become to v w c n e) h = ground arith

pub data Moves (v : Vm) : Vm → Type 0 where
  here : Moves v v
  next : {w x : Vm} → Moves v w → Move w x → Moves v x

Moves-IsConsistent : {v w : Vm} → IsConsistent v → Moves v w → IsConsistent w
Moves-IsConsistent h here = h
Moves-IsConsistent h (next r m) = Move-IsConsistent m (Moves-IsConsistent h r)

-- A VM that New created stays consistent under any history of assignments where it is available,
-- releases where it is not terminated, terminations, and transitions of an unbound VM to a status
-- other than terminated.
pub new-Moves-IsConsistent :
    (p : CreateParams) (uuid name : Text) (now : ℕ) {w : Vm}
    → Moves (new p uuid name now) w
    → IsConsistent w
new-Moves-IsConsistent p uuid name now r = Moves-IsConsistent (new-IsConsistent p uuid name now) r

-- Releasing a terminated VM revives it: it is idle, hence available again.
pub unassign_revives :
    (v : Vm)
    → v.status ≡ terminated
    → (can_transition v.status (unassign v).status ≡ false) × (is_available (unassign v) ≡ true)
unfolding unassign can_transition is_available
unassign_revives v h = ground arith
