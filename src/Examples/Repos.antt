-- ===== src/Examples/Repos.antt =====
-- Runs of src/repository/memory/vm.go.
use spacetrek.Prelude.{
  ◌≡◌, refl, ◌≢◌, false, List, [], ◌∷◌, none, some, codes, pos, text_eq, insert, lookup, All,
}
use spacetrek.Exception.{ok, err, bad_request}
use spacetrek.Vm.{Vm, running, idle, is_available, assign_to}
use spacetrek.VmRepo.{
  Repo, new_repo, assign_to_chat_if_available, release_active_lease_by_vm, new_lease,
}
use spacetrek.VmRepo.Laws.{IsWf, Call, creates, assigns, run, run-IsWf}
use spacetrek.VmRepo.Leasing.{ClaimOutcome, assign_cases, Claim, claims, IsBound, claim_exclusive}
use spacetrek.VmRepo.Queries.{list_previous_leases_for_chat, find_previous_lease_for_chat}
use spacetrek.VmRepo.Forgets.{release_forgets}

abbrev pub box : Vm
box = record {
  id = codes "vm-1";
  name = codes "calm-gauss";
  environment_id = codes "env-1";
  conversation_id = [];
  provider = codes "firecracker";
  status = idle;
  workspace_size_gb = pos 2;
  runtime_id = none;
  socket_path = none;
  vsock_path = none;
  guest_cid = none;
  pid = none;
  runtime_state = none;
  last_heartbeat_at = none;
  idle_deadline_at = none;
  vcpu = none;
  memory_mb = none;
  disk_mb = none;
  ip_address = none;
  service_port = pos 80;
  chat_id = none;
  assigned_at = none;
  last_resumed_at = none;
  diff_snapshots_enabled = false;
  terminated_at = none;
  created_at = 10;
}

abbrev calls : List Call
calls =
    creates box
    ∷ assigns (codes "vm-1") (codes "chat-1") (some 99) 20
        (record { time = 21; written = codes "t" })
    ∷ []

run-IsWf_example : IsWf (run new_repo calls)
run-IsWf_example = run-IsWf calls

abbrev pub one_box : Repo
one_box = record { vms = (codes "vm-1", box) ∷ []; leases = [] }

abbrev bound_box : Vm
bound_box = record box {
  status = running;
  chat_id = some (codes "chat-1");
  assigned_at = some 20;
  idle_deadline_at = some 99;
}

abbrev leased_box : Repo
leased_box = record {
  vms = (codes "vm-1", bound_box) ∷ [];
  leases =
      (
        codes "vm-1",
        new_lease (codes "vm-1") (codes "chat-1") (record { time = 21; written = codes "t" }),
      )
      ∷ [];
}

won :
    assign_to_chat_if_available
      (codes "vm-1")
      (codes "chat-1")
      (some 99)
      20
      (record { time = 21; written = codes "t" })
      one_box
    ≡ ok (bound_box, leased_box)
unfolding assign_to_chat_if_available lookup insert text_eq is_available assign_to
won = refl

assign_cases_example :
    ClaimOutcome
      (codes "vm-1")
      (codes "chat-1")
      (some 99)
      20
      (record { time = 21; written = codes "t" })
      one_box
assign_cases_example =
    assign_cases (codes "vm-1") (codes "chat-1") (some 99) 20
      (record { time = 21; written = codes "t" }) one_box

abbrev late : Claim
late = record {
  vm = codes "vm-1";
  chat = codes "chat-2";
  deadline = none;
  now = 30;
  stamp = record { time = 41; written = codes "u" };
}

claim_exclusive_example :
    IsBound (codes "vm-1") (codes "chat-1") (claims leased_box (late ∷ []))
    × (assign_to_chat_if_available
          (codes "vm-1")
          (codes "chat-2")
          none
          30
          (record { time = 41; written = codes "u" })
          (claims leased_box (late ∷ []))
        ≡ err (bad_request (codes "VM is not available")))
claim_exclusive_example =
    claim_exclusive (codes "vm-1") (codes "chat-1") (some 99) 20
      (record { time = 21; written = codes "t" }) one_box leased_box bound_box (late ∷ []) late won
      refl

one_box_leased : Repo
one_box_leased = run new_repo calls

release_forgets_example :
    let r = release_active_lease_by_vm (codes "vm-1") (run new_repo calls) in
    All (λ v. v.id ≢ codes "vm-1") (list_previous_leases_for_chat (codes "chat-1") r)
    × ((v : Vm) → find_previous_lease_for_chat (codes "chat-1") r ≡ ok v → v.id ≢ codes "vm-1")
release_forgets_example =
    release_forgets (codes "vm-1") (codes "chat-1") (run new_repo calls) (run-IsWf calls)
