-- ===== src/ChatService/Available.antt =====
-- The VMs that the orchestrator may choose from: src/service/chat/vm_resolver.go. The answers of the
-- VM service and of the environments' repository are arguments.
use spacetrek.Prelude.{◌||◌, Bool, false, List, [], ◌∷◌, ◌++◌, Text, text_eq, if◌then◌else◌}
use spacetrek.Exception.{Result, ok, err}
use spacetrek.Vm.{Vm, Status}
use spacetrek.Vm.State.{is_active}
use spacetrek.Environments.{Environment}

pub record AvailableVm : Type 0 where
  pub vm_id : Text
  pub environment : Text
  pub env_description : Text
  pub status : Status
  pub has_snapshot : Bool

-- The active VM of the chat stands first.
abbrev pub active_vms : Result Vm → List Vm
active_vms (err e) = []
active_vms (ok v) = if is_active v.status then v ∷ [] else []

abbrev pub previous_vms : Result (List Vm) → List Vm
previous_vms (err e) = []
previous_vms (ok vs) = vs

unfoldable pub is_seen : Text → List Text → Bool
is_seen id [] = false
is_seen id (s ∷ seen) = text_eq s id || is_seen id seen

module _ (env_of : Text → Result Environment) (has_snapshot : Text → Bool) where
  abbrev pub with_environment : Vm → Result Environment → AvailableVm
  with_environment v (err e) = record {
    vm_id = v.id;
    environment = [];
    env_description = [];
    status = v.status;
    has_snapshot = has_snapshot v.id;
  }
  with_environment v (ok env) = record {
    vm_id = v.id;
    environment = env.base;
    env_description = env.description;
    status = v.status;
    has_snapshot = has_snapshot v.id;
  }

  unfoldable pub describe : Vm → AvailableVm
  describe v = with_environment v (env_of v.environment_id)

  unfoldable pub unseen : List Text → List Vm → List AvailableVm
  unfolding is_seen describe
  unseen seen [] = []
  unseen seen (v ∷ vs) =
      let skipped = unseen seen vs in
      let taken = unseen (v.id ∷ seen) vs in
      if is_seen v.id seen then skipped else describe v ∷ taken

  unfoldable pub collect_available_vms : Result Vm → Result (List Vm) → List AvailableVm
  unfolding unseen
  collect_available_vms active previous = unseen [] (active_vms active ++ previous_vms previous)
