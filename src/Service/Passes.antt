-- ===== src/Service/Passes.antt =====
-- The periodic passes of src/service/vm/service.go: the idle reaper and the runtime reconciler.
-- Both read the active VMs once, and write back the copies that they have read.
use spacetrek.Prelude.{
  Bool, true, false, not, ◌&&◌, ◌||◌, List, [], ◌∷◌, none, some, Text, codes, text_eq, is_empty,
  ltb, if◌then◌else◌, ℤ,
}
use spacetrek.Exception.{ok, err}
use spacetrek.Vm.{Vm, idle, status_eq, unassign, is_recently_resumed, set_runtime_metadata}
use spacetrek.VmRepo.{update, release_active_lease_by_vm}
use spacetrek.VmRepo.Queries.{get_active_vms}
use spacetrek.Service.{
  Env, World, with_repo, notify, stop_events, prior_chat, status_changed, unassigned,
  snapshot_first, succeeded, lost, broke, reported, status_lost, status_broke,
}

-- The idle deadline has come, and the VM was not resumed just now.
unfoldable pub is_due : Env → Vm → Bool
is_due env v = elim v.idle_deadline_at [
  | none ↦ false
  | some t ↦ not (ltb env.now t) && not (is_recently_resumed env.resume_grace env.now v)
]

-- The row of a VM whose runtime is gone.
unfoldable pub cold : Env → Text → Vm → Vm
cold env state v =
    let u = unassign v in
    record u {
      runtime_state = some state;
      pid = none;
      idle_deadline_at = none;
      last_heartbeat_at = some env.now;
    }

-- The reaper's writes, after a stop or for a VM that the backend no longer has.
unfoldable pub reap_stopped : Env → Vm → World → World
reap_stopped env v w =
    let v' = cold env (codes "stopped") v in
    let r1 = release_active_lease_by_vm v.id w.repo in
    elim (update v' r1) [
      | err e ↦ with_repo r1 w
      | ok r2 ↦ notify (stop_events v v') (with_repo r2 w)
    ]

unfoldable pub reap_one : Env → Vm → World → World
reap_one env v w =
    if not (is_due env v)
    then w
    else (let w1 = snapshot_first env true v.id w in
        elim (env.stop_preserving v.id) [
          | succeeded ↦ reap_stopped env v w1
          | lost ↦ reap_stopped env v w1
          | broke ↦ w1
        ])

unfoldable pub reap_all : Env → List Vm → World → World
reap_all env [] w = w
reap_all env (v ∷ vs) w = reap_all env vs (reap_one env v w)

unfoldable pub reap_idle_vms : Env → World → World
reap_idle_vms env w = reap_all env (get_active_vms w.repo) w

-- The lease stays.
unfoldable pub mark_cold_after_lost_runtime : Env → Text → Vm → World → World
mark_cold_after_lost_runtime env state v w =
    let v' = cold env state v in
    elim (update v' w.repo) [
      | err e ↦ w
      | ok r ↦
          notify
            (status_changed v' v.status
              ∷ (if is_empty (prior_chat v) then [] else unassigned v' (prior_chat v) ∷ []))
            (with_repo r w)
    ]

unfoldable pub runtime_id_of : Vm → Text
runtime_id_of v = elim v.runtime_id [ none ↦ v.id | some id ↦ if is_empty id then v.id else id ]

-- A failed write is logged.
unfoldable pub record_metadata : Env → ℤ → Text → Vm → World → World
record_metadata env pid state v w =
    elim (update (set_runtime_metadata (runtime_id_of v) [] pid state env.now v) w.repo) [
      | err e ↦ w
      | ok r ↦ with_repo r w
    ]

unfoldable pub reconcile_one : Env → Vm → World → World
reconcile_one env v w =
    if status_eq v.status idle then w else elim (env.backend_status (runtime_id_of v)) [
      | status_lost ↦ mark_cold_after_lost_runtime env (codes "stopped") v w
      | status_broke ↦ w
      | reported pid state ↦
          if text_eq state (codes "stopped") || text_eq state (codes "terminated")
          then mark_cold_after_lost_runtime env state v w
          else record_metadata env pid state v w
    ]

unfoldable pub reconcile_all : Env → List Vm → World → World
reconcile_all env [] w = w
reconcile_all env (v ∷ vs) w = reconcile_all env vs (reconcile_one env v w)

unfoldable pub reconcile_runtime_states : Env → World → World
reconcile_runtime_states env w = reconcile_all env (get_active_vms w.repo) w
