-- ===== src/Examples/Services.antt =====
-- Runs of the VM service: src/service/vm/service.go.
use spacetrek.Prelude.{
  ◌≡◌, refl, ◌≢◌, ◌⊎◌, ◌++◌, ◌&&◌, true, false, List, [], ◌∷◌, none, some, codes, pos, lookup,
  text_eq, if◌then◌else◌, arith,
}
use spacetrek.Exception.{ok, err, internal}
use spacetrek.Vm.{Vm, running, idle, is_recently_resumed}
use spacetrek.VmRepo.{new_lease}
use spacetrek.Snapshots.Policy.{incremental_mode}
use spacetrek.Service.{Env, World, succeeded, reported, stop}
use spacetrek.Service.Holding.{IsHeld}
use spacetrek.Service.Passes.{is_due, reap_idle_vms}
use spacetrek.Service.Reaping.{is_gone, is_awake, is_over, reap_idle_vms_lem}
use spacetrek.Service.History.{Request, assigns, reaps, reconciles, serve_all, serve_all-IsHeld}
use spacetrek.Service.Outcomes.{IsPut, of_status, of_chat, stop_lem}
use spacetrek.Examples.Repos.{box}
use spacetrek.Snapshots.{Snapshot, full}

abbrev env : Env
env = record {
  now = 50;
  stamp = record { time = 41; written = codes "t" };
  idle_timeout = 30;
  resume_grace = 5;
  auto_snapshot = true;
  has_ip_allocator = true;
  object_store = false;
  uploads = λ id. true;
  disk_config = record {
    disk_mode = incremental_mode;
    max_chain_length = 3;
    max_chain_age_minutes = 60;
  };
  snapshot_id = λ id. codes "snap";
  has_environment = λ id. true;
  backend_snapshots = λ id. true;
  stop_preserving = λ id. succeeded;
  backend_destroy = λ id. succeeded;
  backend_status = λ id. reported (pos 7) (codes "running");
}

abbrev world : World
world = record {
  repo = record { vms = (codes "vm-1", box) ∷ []; leases = [] };
  snaps = record { rows = []; blobs = [] };
  events = [];
}

world-IsHeld : IsHeld world.repo
unfolding lookup
world-IsHeld = record {
  wf = record { keyed = (refl, tt); distinct = (tt, tt); open_leases = tt; one_lease = tt };
  held = λ k v c e q. absurd (ground arith);
}

abbrev requests : List (Env × Request)
requests =
    (env, assigns (codes "vm-1") (codes "chat-1"))
    ∷ (env, reconciles)
    ∷ (record env { now = 100 }, reaps)
    ∷ (env, assigns (codes "vm-1") (codes "chat-2"))
    ∷ []

serve_all-IsHeld_example : IsHeld (serve_all world requests).repo
serve_all-IsHeld_example = serve_all-IsHeld requests world world-IsHeld

abbrev bound : Vm
bound = record box { status = running; chat_id = some (codes "chat-1"); idle_deadline_at = some 90 }

abbrev bound_world : World
bound_world = record {
  repo = record {
    vms = (codes "vm-1", bound) ∷ [];
    leases =
        (
          codes "vm-1",
          new_lease (codes "vm-1") (codes "chat-1") (record { time = 40; written = codes "s" }),
        )
        ∷ [];
  };
  snaps = record { rows = []; blobs = [] };
  events = [];
}

stored : lookup bound.id bound_world.repo.vms ≡ some bound
unfolding lookup text_eq
stored = refl

stop_lem_example :
    let v' : Vm = record bound {
      chat_id = none;
      assigned_at = none;
      status = idle;
      idle_deadline_at = none;
    } in
    let w' = stop env bound.id bound_world in
    ((env.stop_preserving bound.id ≡ succeeded)
      × (w'.1 ≡ ok v')
      × IsPut bound.id (some v') bound_world.repo w'.0.repo
      × (w'.0.events
          ≡ bound_world.events ++ (of_status v' bound.status ++ of_chat v' bound.chat_id)))
    ⊎ ((env.stop_preserving bound.id ≢ succeeded)
        × (w'.1 ≡ err internal)
        × (w'.0.repo ≡ bound_world.repo)
        × (w'.0.events ≡ bound_world.events))
stop_lem_example = stop_lem env bound bound_world stored

abbrev row : Snapshot
row = record {
  id = codes "s1";
  vm_id = bound.id;
  parent_snapshot_id = none;
  kind = full;
  disk_chain_length = none;
  created_at = 3;
}

abbrev snapped_world : World
snapped_world = record bound_world { snaps = record { rows = row ∷ []; blobs = [] } }

-- At the deadline of the bound VM.
reap_idle_vms_lem_example :
    lookup (codes "vm-1") (reap_idle_vms (record env { now = 90 }) bound_world).repo.vms
    ≡ (elim (lookup (codes "vm-1") bound_world.repo.vms) [
      | none ↦ none
      | some v ↦
          if is_awake v.status
            && is_over (record env { now = 90 }) v
            && is_gone (env.stop_preserving v.id)
          then some (record v {
            status = idle;
            chat_id = none;
            assigned_at = none;
            runtime_state = some (codes "stopped");
            pid = none;
            idle_deadline_at = none;
            last_heartbeat_at = some 90;
          })
          else some v
    ])
reap_idle_vms_lem_example =
    reap_idle_vms_lem (record env { now = 90 }) bound_world (codes "vm-1")
      (record {
        keyed = (refl, tt);
        distinct = (tt, tt);
        open_leases = ((refl, refl), tt);
        one_lease = (tt, tt);
      })

-- That VM is stopped.
bound_due : is_due (record env { now = 90 }) bound ≡ true
unfolding is_due is_recently_resumed
bound_due = refl
