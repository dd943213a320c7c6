-- ===== src/Service.antt =====
-- The VM service over the in-memory repository: src/service/vm/service.go, with the events of
-- src/service/vm/event.go. What the clock, the configuration and the backend answer is an argument;
-- snapshot repository and hook are configured, and the hook's events stand in the order in which it
-- hears them.
pub mod Passes
pub mod Holding
pub mod Steps
pub mod History
pub mod Outcomes
pub mod Reaping
pub mod Ips
pub mod Naming
use spacetrek.Prelude.{
  ℕ, zero, suc, ◌+◌, Bool, true, false, not, ◌&&◌, ◌||◌, List, [], ◌∷◌, ◌++◌, Option, none, some,
  Text, codes, text_eq, is_empty, insert, lookup, length, ltb, if◌then◌else◌, ℤ,
}
use spacetrek.Exception.{AppError, not_found, bad_request, internal, Result, Outcome, ok, err}
use spacetrek.Vm.{Vm, Status, status_eq, unassign, terminate}
use spacetrek.Vm.State.{is_active}
use spacetrek.VmRepo.{
  Repo, Lease, get_by_id, update, delete, assign_to_chat_if_available, release_active_lease_by_vm,
}
use spacetrek.VmRepo.Queries.{get_available_pool}
use spacetrek.Snapshots.{Store, delete_all}
use spacetrek.Snapshots.Policy.{SnapshotDiskConfig, new_snapshot}
use spacetrek.VmRepo.{Stamp}

pub data Event : Type 0 where
  status_changed : Vm → Status → Event
  assigned unassigned : Vm → Text → Event
  created destroyed : Vm → Event

-- `lost` is an error whose message says "not found".
pub data Answer : Type 0 where
  succeeded lost broke : Answer

pub data StatusAnswer : Type 0 where
  reported : ℤ → Text → StatusAnswer
  status_lost status_broke : StatusAnswer

-- What one call reads: configuration, clock, uuids, and the answers of backend and database.
pub record Env : Type 0 where
  pub now : ℕ
  pub stamp : Stamp
  pub idle_timeout : ℕ
  pub resume_grace : ℕ
  pub auto_snapshot : Bool
  pub has_ip_allocator : Bool
  pub object_store : Bool
  pub uploads : Text → Bool
  pub disk_config : SnapshotDiskConfig
  pub snapshot_id : Text → Text
  pub has_environment : Text → Bool
  pub backend_snapshots : Text → Bool
  pub stop_preserving : Text → Answer
  pub backend_destroy : Text → Answer
  pub backend_status : Text → StatusAnswer

pub record World : Type 0 where
  pub repo : Repo
  pub snaps : Store
  pub events : List Event

abbrev pub with_repo : Repo → World → World
with_repo r w = record w { repo = r }

-- `notifyHook`, of several events.
abbrev pub notify : List Event → World → World
notify es w = record w { events = w.events ++ es }

unfoldable pub prior_chat : Vm → Text
prior_chat v = elim v.chat_id [ none ↦ [] | some c ↦ c ]

unfoldable pub refresh_idle_deadline : Env → Vm → Vm
refresh_idle_deadline env v = record v { idle_deadline_at = some (env.now + env.idle_timeout) }

unfoldable pub mark_active : Env → Text → World → World × Outcome
mark_active env id w = elim (get_by_id id w.repo) [
  | err e ↦ (w, err e)
  | ok vm ↦ elim (update (refresh_idle_deadline env vm) w.repo) [
    | err e ↦ (w, err e)
    | ok r ↦ (with_repo r w, ok tt)
  ]
]

unfoldable pub get_available : Text → World → Result Vm
get_available provider w = elim (get_available_pool provider 1 w.repo) [
  | [] ↦ err (not_found (codes "available VM") provider)
  | v ∷ vs ↦ ok v
]

unfoldable pub assign_to_chat : Env → Text → Text → World → World × Result Vm
assign_to_chat env id chat w =
    elim (assign_to_chat_if_available id chat (some (env.now + env.idle_timeout)) env.now env.stamp
      w.repo) [
        | err e ↦ (w, err e)
        | ok (vm, r) ↦ (notify (assigned vm chat ∷ []) (with_repo r w), ok vm)
      ]

unfoldable pub unassign_vm : Env → Text → World → World × Result Vm
unassign_vm env id w = elim (get_by_id id w.repo) [
  | err e ↦ (w, err e)
  | ok vm ↦
      let vm' = refresh_idle_deadline env (unassign vm) in
      let r1 = release_active_lease_by_vm id w.repo in
      elim (update vm' r1) [
        | err e ↦ (with_repo r1 w, err e)
        | ok r2 ↦ (notify (unassigned vm' (prior_chat vm) ∷ []) (with_repo r2 w), ok vm')
      ]
]

-- CreateSnapshot, as far as the rows go; a store that refuses an upload is only logged. The
-- collection that it starts is a call of its own.
unfoldable pub create_snapshot : Env → Text → World → World × Outcome
create_snapshot env id w = elim (get_by_id id w.repo) [
  | err e ↦ (w, err e)
  | ok vm ↦
      if not (is_active vm.status)
      then (w, err (bad_request (codes "VM is not active, cannot create snapshot")))
      else if not (env.has_environment vm.environment_id)
      then (w, err (not_found (codes "environment") vm.environment_id))
      else if not (env.backend_snapshots id)
      then (w, err internal)
      else (
        record w {
          snaps = record {
            rows =
                new_snapshot env.disk_config vm.diff_snapshots_enabled id (env.snapshot_id id)
                  env.now w.snaps.rows
                ∷ w.snaps.rows;
            blobs =
                if env.object_store && env.uploads id
                then (id, env.snapshot_id id) ∷ w.snaps.blobs
                else w.snaps.blobs;
          };
        },
        ok tt,
      )
]

-- What a stop tells: a change of the status, and the chat that the VM has left.
unfoldable pub stop_events : Vm → Vm → List Event
stop_events old vm =
    (if status_eq vm.status old.status then [] else status_changed vm old.status ∷ [])
    ++ (if is_empty (prior_chat old) then [] else unassigned vm (prior_chat old) ∷ [])

-- The snapshot before a stop; its failure is logged.
abbrev pub snapshot_first : Env → Bool → Text → World → World
snapshot_first env wanted id w =
    if env.auto_snapshot && wanted then (create_snapshot env id w).0 else w

-- The writes of a stop, once the backend has stopped the VM.
unfoldable pub stop_writes : Text → Vm → World → World × Result Vm
stop_writes id vm w =
    let vm' : Vm = (let u = unassign vm in record u { idle_deadline_at = none }) in
    let r1 = release_active_lease_by_vm id w.repo in
    elim (update vm' r1) [
      | err e ↦ (with_repo r1 w, err e)
      | ok r2 ↦ (notify (stop_events vm vm') (with_repo r2 w), ok vm')
    ]

-- The workspace's teardown is not modelled: its failure is logged.
unfoldable pub stop : Env → Text → World → World × Result Vm
stop env id w = elim (get_by_id id w.repo) [
  | err e ↦ (w, err e)
  | ok vm ↦
      let w1 = snapshot_first env (is_active vm.status) id w in
      elim (env.stop_preserving id) [ succeeded ↦ stop_writes id vm w1 | _ ↦ (w1, err internal) ]
]

-- `ReleaseIPAddress` of the repository: the row's address is cleared.
unfoldable pub release_ip_address : Text → Repo → Repo
release_ip_address id r = elim (lookup id r.vms) [
  | none ↦ r
  | some v ↦ record r { vms = insert id (record v { ip_address = none }) r.vms }
]

-- The purge has a round for each row and one more. That is always enough (Snapshots.Purge), so the
-- branch without an end is never taken.
abbrev pub purged : Env → Text → Store → Store
purged env id st = elim (delete_all (suc (length st.rows)) env.object_store id st) [
  | none ↦ st
  | some st' ↦ st'
]

-- The writes of a destruction, once the backend has destroyed the VM.
unfoldable pub destroy_writes : Env → Text → Vm → World → World × Outcome
destroy_writes env id vm w =
    let vm' : Vm = (let u = terminate env.now vm in record u { idle_deadline_at = none }) in
    let r1 = release_active_lease_by_vm id w.repo in
    let r2 = if env.has_ip_allocator then release_ip_address id r1 else r1 in
    elim (update vm' r2) [
      | err e ↦ (with_repo r2 w, err e)
      | ok r3 ↦ elim (delete id r3) [
        | err e ↦ (with_repo r3 w, err e)
        | ok r4 ↦ (notify (destroyed vm' ∷ []) (with_repo r4 w), ok tt)
      ]
    ]

unfoldable pub destroy : Env → Text → World → World × Outcome
destroy env id w = elim (get_by_id id w.repo) [
  | err e ↦ (w, err e)
  | ok vm ↦
      let w1 : World = record w { snaps = purged env id w.snaps } in
      elim (env.backend_destroy id) [
        | succeeded ↦ destroy_writes env id vm w1
        | _ ↦ (w1, err internal)
      ]
]
