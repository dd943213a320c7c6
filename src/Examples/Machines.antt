-- ===== src/Examples/Machines.antt =====
-- Runs of the tools of src/service/tool that create and start VMs.
use spacetrek.Prelude.{
  ◌≡◌, ◌⊎◌, refl, false, List, [], ◌∷◌, some, Text, codes, text_eq, lookup, pos, trim_space,
}
use spacetrek.Exception.{AppError, Result, ok, err, not_found}
use spacetrek.Vm.{Vm}
use spacetrek.Tools.{Call, text, number, read_string_arg}
use spacetrek.Tools.Vms.{Manager}
use spacetrek.Tools.Create.{vm_create, provision, requested_port}
use spacetrek.Tools.Creation.{IsRefused, IsAllowed, IsAsked, vm_create_lem}
use spacetrek.Examples.Repos.{box}

abbrev say : AppError → Text
say e = codes "error"

abbrev absent : {A : Type 0} → Text → Result A
absent id = err (not_found (codes "vm") id)

-- A service that notes the calls that change it; it has one VM.
abbrev manager : Manager (List Text)
manager = record {
  get = λ id w. if_box id;
  active_leases = λ chat w. ok [];
  previous_leases = λ chat w. ok [];
  previous_vm = λ chat w. absent chat;
  by_environment = λ env chat w. absent env;
  has_snapshot = λ id w. false;
  environment_hint = λ id w. absent id;
  resolve_environment = λ env w. ok env;
  create_vm = λ env chat port w. (ok box, codes "create" ∷ w);
  assign = λ id chat w. (if_box id, codes "assign" ∷ w);
  resume = λ id chat w. (if_box id, codes "resume" ∷ w);
  stop_vm = λ id w. (if_box id, codes "stop" ∷ w);
  snapshot = λ id w. (absent id, codes "snapshot" ∷ w);
}
  where
    if_box : Text → Result Vm
    if_box id = ok box

abbrev create_call : Call
create_call = record {
  id = codes "t1";
  name = codes "vm.create";
  arguments =
      (codes "environment", text (codes "uv")) ∷ (codes "service_port", number (pos 8000)) ∷ [];
}

-- The VM is created first, then assigned.
is_created :
    (vm_create say manager (some (codes "c1")) create_call []).1
    ≡ codes "assign" ∷ codes "create" ∷ []
unfolding vm_create provision requested_port read_string_arg lookup text_eq trim_space
is_created = refl

vm_create_lem_example :
    (IsRefused say manager [] (vm_create say manager (some (codes "c1")) create_call [])
      × ¬ IsAllowed say manager (some (codes "c1")) create_call [])
    ⊎ ((a : IsAllowed say manager (some (codes "c1")) create_call []) × IsAsked say manager
          (some (codes "c1"))
          create_call
          []
          a
          (vm_create say manager (some (codes "c1")) create_call []))
vm_create_lem_example = vm_create_lem say manager (some (codes "c1")) create_call []
