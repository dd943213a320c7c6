-- ===== src/ChatService/Choices.antt =====
-- Each VM is offered once: src/service/chat/vm_resolver.go.
use spacetrek.Prelude.{
  ◌≡◌, ◌≢◌, ◌∙◌, refl, ap, subst, arith, Bool, Bool-cases, inl, inr, true, false, List, [], ◌∷◌,
  ◌++◌, map, Option, none, some, Text, text_eq, text_eq_iff, if◌then◌else◌, All, All-mono, Distinct,
}
use spacetrek.Exception.{Result, Result-cases, ok, err}
use spacetrek.Vm.{Vm, Status, provisioning, ready, running, idle, terminated}
use spacetrek.Vm.State.{is_active}
use spacetrek.Environments.{Environment}
use spacetrek.ChatService.Available.{
  AvailableVm, active_vms, previous_vms, is_seen, with_environment, describe, unseen,
  collect_available_vms,
}

-- The first entry that passes the test.
abbrev pub pick_first : {A : Type 0} → (A → Bool) → List A → Option A
pick_first p [] = none
pick_first p (x ∷ xs) = if p x then some x else pick_first p xs

abbrev pub has_id : Text → Vm → Bool
has_id id v = text_eq v.id id

abbrev pub offers_id : Text → AvailableVm → Bool
offers_id id a = text_eq a.vm_id id

-- The chat's own VM, where it is running or ready.
abbrev pub awake : Vm → Status → List Vm
awake v ready = v ∷ []
awake v running = v ∷ []
awake v _ = []

abbrev pub own_vm : Result Vm → List Vm
own_vm (err e) = []
own_vm (ok v) = awake v v.status

abbrev pub leased_before : Result (List Vm) → List Vm
leased_before (err e) = []
leased_before (ok vs) = vs

awake_active : (v : Vm) (s : Status) → (if is_active s then v ∷ [] else []) ≡ awake v s
unfolding is_active
awake_active v provisioning = refl
awake_active v ready = refl
awake_active v running = refl
awake_active v idle = refl
awake_active v terminated = refl

active_vms-own : (active : Result Vm) → active_vms active ≡ own_vm active
active_vms-own (err e) = refl
active_vms-own (ok v) = awake_active v v.status

previous_vms-leased : (previous : Result (List Vm)) → previous_vms previous ≡ leased_before previous
previous_vms-leased (err e) = refl
previous_vms-leased (ok vs) = refl

abbrev pub by_id : AvailableVm → Text × AvailableVm
by_id a = (a.vm_id, a)

module _ (env_of : Text → Result Environment) (has_snapshot : Text → Bool) where
  abbrev described : Option Vm → Option AvailableVm
  described none = none
  described (some v) = some (describe env_of has_snapshot v)

  -- What is said of a VM: its environment's type and description, where it is found.
  abbrev pub card : Vm → AvailableVm
  card v = record {
    vm_id = v.id;
    environment = elim (env_of v.environment_id) [ err e ↦ [] | ok env ↦ env.base ];
    env_description = elim (env_of v.environment_id) [ err e ↦ [] | ok env ↦ env.description ];
    status = v.status;
    has_snapshot = has_snapshot v.id;
  }

  abbrev pub carded : Option Vm → Option AvailableVm
  carded none = none
  carded (some v) = some (card v)

  describe-card : (v : Vm) → describe env_of has_snapshot v ≡ card v
  unfolding describe
  describe-card v = elim (Result-cases (env_of v.environment_id)) [
    | inl (env, q) ↦ rw q refl
    | inr (e, q) ↦ rw q refl
  ]

  described-carded : (o : Option Vm) → described o ≡ carded o
  described-carded none = refl
  described-carded (some v) = ap some (describe-card v)

  with_environment-id :
      (v : Vm) (r : Result Environment) → (with_environment env_of has_snapshot v r).vm_id ≡ v.id
  with_environment-id v (err e) = refl
  with_environment-id v (ok e) = refl

  describe-id : (v : Vm) → (describe env_of has_snapshot v).vm_id ≡ v.id
  unfolding describe
  describe-id v = with_environment-id v (env_of v.environment_id)

  unseen-first :
      (id : Text) (seen : List Text) (vs : List Vm)
      → pick_first (offers_id id) (unseen env_of has_snapshot seen vs)
        ≡ (if is_seen id seen then none else described (pick_first (has_id id) vs))
  unfolding unseen is_seen
  unseen-first id seen [] = elim (Bool-cases (is_seen id seen)) [
    | inl q ↦ rw q refl
    | inr q ↦ rw q refl
  ]
  unseen-first id seen (v ∷ vs) = elim (Bool-cases (is_seen v.id seen)) [
    | inl s ↦ elim (Bool-cases (text_eq v.id id)) [
      | inl q ↦
          let k : is_seen id seen ≡ true =
            subst (λ i. is_seen i seen ≡ true) ((text_eq_iff v.id id).0 q) s in
          rw s (unseen-first id seen vs ∙ rw (k) refl)
      | inr q ↦ rw (s, q) (unseen-first id seen vs)
    ]
    | inr s ↦ elim (Bool-cases (text_eq v.id id)) [
      | inl q ↦
          let k : is_seen id seen ≡ false =
            subst (λ i. is_seen i seen ≡ false) ((text_eq_iff v.id id).0 q) s in
          rw (s, describe-id v, q, k) refl
      | inr q ↦ rw (s, describe-id v, q) (unseen-first id (v.id ∷ seen) vs ∙ rw q refl)
    ]
  ]

  unseen-fresh :
      (seen : List Text) (vs : List Vm)
      → All (λ a. is_seen a.vm_id seen ≡ false) (unseen env_of has_snapshot seen vs)
  unfolding unseen is_seen
  unseen-fresh seen [] = tt
  unseen-fresh seen (v ∷ vs) = elim (Bool-cases (is_seen v.id seen)) [
    | inl s ↦ rw s (unseen-fresh seen vs)
    | inr s ↦ rw s (
      ap (λ i. is_seen i seen) (describe-id v) ∙ s,
      All-mono (λ a. is_seen a.vm_id (v.id ∷ seen) ≡ false) (λ a. is_seen a.vm_id seen ≡ false)
          (λ a h. ground arith) (unseen env_of has_snapshot (v.id ∷ seen) vs)
          (unseen-fresh (v.id ∷ seen) vs),
    )
  ]

  apart :
      (k : Text) (seen : List Text) (as' : List AvailableVm)
      → All (λ a. is_seen a.vm_id (k ∷ seen) ≡ false) as'
      → All (λ e. e.0 ≢ k) (map by_id as')
  unfolding is_seen
  apart k seen [] h = tt
  apart k seen (a ∷ as') (ha, h) = (ground (arith, text_eq_iff k a.vm_id), apart k seen as' h)

  unseen-Distinct :
      (seen : List Text) (vs : List Vm) → Distinct (map by_id (unseen env_of has_snapshot seen vs))
  unfolding unseen
  unseen-Distinct seen [] = tt
  unseen-Distinct seen (v ∷ vs) = elim (Bool-cases (is_seen v.id seen)) [
    | inl s ↦ rw s (unseen-Distinct seen vs)
    | inr s ↦
        rw (s, describe-id v)
          (
            apart v.id seen (unseen env_of has_snapshot (v.id ∷ seen) vs)
                (unseen-fresh (v.id ∷ seen) vs),
            unseen-Distinct (v.id ∷ seen) vs,
          )
  ]

  -- The VMs that a chat is offered have different ids. They are its own VM, where that is running or
  -- ready, and those of its previous leases: what is offered under an id is the first of them with it,
  -- its own before the others, with its status, whether it has a snapshot, and its environment's type
  -- and description, which are empty where the environment is not found.
  pub collect_available_vms_lem :
      (active : Result Vm) (previous : Result (List Vm))
      → Distinct (map by_id (collect_available_vms env_of has_snapshot active previous))
        × ((id : Text)
            → pick_first (offers_id id) (collect_available_vms env_of has_snapshot active previous)
              ≡ carded (pick_first (has_id id) (own_vm active ++ leased_before previous)))
  unfolding collect_available_vms is_seen
  collect_available_vms_lem active previous =
      let vms = active_vms active ++ previous_vms previous in
      (
        unseen-Distinct [] vms,
        λ id.
            unseen-first id [] vms
            ∙ described-carded (pick_first (has_id id) vms)
            ∙ ap (λ l. carded (pick_first (has_id id) (l ++ previous_vms previous)))
                (active_vms-own active)
            ∙ ap (λ l. carded (pick_first (has_id id) (own_vm active ++ l)))
                (previous_vms-leased previous),
      )
