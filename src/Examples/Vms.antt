-- ===== src/Examples/Vms.antt =====
-- Runs of src/core/domain/vm/vm.go and state.go.
use spacetrek.Prelude.{◌≡◌, refl, true, false, [], none, some, codes, pos}
use spacetrek.Vm.{
  Vm, CreateParams, new, is_available, assign_to, unassign, terminate, is_terminated, public_url,
}
use spacetrek.Vm.Lifecycle.{IsConsistent, assign, release, here, next, new-Moves-IsConsistent}
use spacetrek.Vm.Name.{normalize_name}
use spacetrek.Vm.Name.Label.{IsLabel, normalize_name-IsLabel}
use spacetrek.Vm.Name.Fixpoint.{normalize_name_idem}

abbrev plain : CreateParams
plain = record {
  environment_id = codes "env-1";
  conversation_id = codes "conv-1";
  provider = [];
  workspace_size_gb = pos 0;
  name = none;
  vcpu = none;
  memory_mb = none;
  disk_mb = none;
  service_port = some (pos 8080);
}

fresh : Vm
fresh = new plain (codes "vm-1") (codes "calm-gauss") 10

url_of_fresh : public_url fresh ≡ codes "https://calm-gauss.box.spacetrek.xyz"
unfolding fresh new public_url
url_of_fresh = refl

abbrev ended : Vm
ended = terminate 30 (assign_to (codes "chat-1") 20 fresh)

abbrev stopped : Vm
stopped = unassign fresh

stopped_available : is_available stopped ≡ true
unfolding unassign is_available
stopped_available = refl

fresh_lives : is_terminated fresh ≡ false
unfolding fresh new is_terminated
fresh_lives = refl

new-Moves-IsConsistent_example :
    IsConsistent
      (assign_to (codes "chat-1") 20 (unassign (new plain (codes "vm-1") (codes "calm-gauss") 10)))
unfolding fresh
new-Moves-IsConsistent_example =
    new-Moves-IsConsistent plain (codes "vm-1") (codes "calm-gauss") 10 (
      next (next here (release fresh fresh_lives))
        (assign (codes "chat-1") 20 stopped stopped_available))

mixed_name : normalize_name (codes "  My__VM!! ") ≡ codes "my-vm"
unfolding normalize_name
mixed_name = refl

normalize_name-IsLabel_example : IsLabel (normalize_name (codes "--Dev Box--"))
normalize_name-IsLabel_example = normalize_name-IsLabel (codes "--Dev Box--")

normalize_name_idem_example :
    normalize_name (normalize_name (codes "A b")) ≡ normalize_name (codes "A b")
normalize_name_idem_example = normalize_name_idem (codes "A b")
