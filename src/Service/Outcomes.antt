-- ===== src/Service/Outcomes.antt =====
-- What a stop and a destruction of src/service/vm/service.go leave behind, on every branch.
use spacetrek.Prelude.{
  ◌≡◌, ◌∙◌, ap, List, refl, ◌⊎◌, ◌≢◌, inl, inr, Bool, [], ◌∷◌, ◌++◌, Option, none, some, Text,
  text_eq, text_eq_iff, lookup, insert, lookup-insert, lookup-remove, if◌then◌else◌, arith,
  is_empty,
}
use spacetrek.Exception.{ok, err, internal}
use spacetrek.Vm.{Vm, Status, provisioning, ready, running, idle, terminated, unassign, status_eq}
use spacetrek.Vm.State.{is_active}
use spacetrek.VmRepo.{Repo, get_by_id, update, release_active_lease_by_vm}
use spacetrek.Service.{
  Env, World, Event, succeeded, status_changed, unassigned, stop, stop_writes, stop_events,
  prior_chat, snapshot_first, create_snapshot, release_ip_address,
}
use spacetrek.Service.Steps.{Answer-cases, snapshot_first_repo}

-- The VM stands under the key, its lease is gone, and the rest is as before.
abbrev pub IsPut : Text → Option Vm → Repo → Repo → Type 0
IsPut id v r r' =
    ((k : Text) → lookup k r'.vms ≡ (if text_eq id k then v else lookup k r.vms))
    × ((k : Text) → lookup k r'.leases ≡ (if text_eq id k then none else lookup k r.leases))

pub release_lookups :
    (id k : Text) (r : Repo)
    → ((release_active_lease_by_vm id r).vms ≡ r.vms)
      × (lookup k (release_active_lease_by_vm id r).leases
          ≡ (if text_eq id k then none else lookup k r.leases))
unfolding release_active_lease_by_vm
release_lookups id k r = ground (arith, lookup-remove id k r.leases, text_eq_iff id k)

pub update_ok :
    (v old : Vm) (r : Repo)
    → lookup v.id r.vms ≡ some old
    → update v r ≡ ok (record r { vms = insert v.id v r.vms })
unfolding update
update_ok v old r e = ground arith

stop_writes_lem :
    (v : Vm) (w : World)
    → lookup v.id w.repo.vms ≡ some v
    → let v' : Vm = record v {
      chat_id = none;
      assigned_at = none;
      status = idle;
      idle_deadline_at = none;
    } in
      let w' = stop_writes v.id v w in
      (w'.1 ≡ ok v')
      × IsPut v.id (some v') w.repo w'.0.repo
      × (w'.0.events ≡ w.events ++ stop_events v v')
unfolding stop_writes unassign
stop_writes_lem v w at =
    let r1 = release_active_lease_by_vm v.id w.repo in
    let v' : Vm = record v {
      chat_id = none;
      assigned_at = none;
      status = idle;
      idle_deadline_at = none;
    } in
    let kept = λ (k : Text). release_lookups v.id k w.repo in
    let written = update_ok v' v r1 (rw (kept v.id).0 at) in
    rw (written, stop_writes)
      (refl, (λ k. ground (arith, lookup-insert v.id k v' r1.vms, kept k), λ k. (kept k).1), refl)

create_snapshot_events :
    (env : Env) (id : Text) (w : World) → (create_snapshot env id w).0.events ≡ w.events
unfolding create_snapshot
create_snapshot_events env id w = ground arith

snapshot_first_events :
    (env : Env) (wanted : Bool) (id : Text) (w : World)
    → (snapshot_first env wanted id w).events ≡ w.events
snapshot_first_events env wanted id w = ground (arith, create_snapshot_events env id w)

-- What the hook hears of a status that becomes idle, and of a chat that is left.
abbrev pub of_status : Vm → Status → List Event
of_status v idle = []
of_status v s = status_changed v s ∷ []

abbrev pub of_chat : Vm → Option Text → List Event
of_chat v none = []
of_chat v (some []) = []
of_chat v (some (c ∷ cs)) = unassigned v (c ∷ cs) ∷ []

told_status :
    (v : Vm) (s : Status)
    → (if status_eq idle s then [] else status_changed v s ∷ []) ≡ of_status v s
told_status v provisioning = refl
told_status v ready = refl
told_status v running = refl
told_status v idle = refl
told_status v terminated = refl

told_chat :
    (v : Vm) (o : Option Text)
    → (if is_empty (elim o [ none ↦ [] | some t ↦ t ])
        then []
        else unassigned v (elim o [ none ↦ [] | some t ↦ t ]) ∷ [])
      ≡ of_chat v o
told_chat v none = refl
told_chat v (some []) = refl
told_chat v (some (c ∷ cs)) = refl

-- Stop of a stored VM: if the backend stops it, the VM is afterwards idle, bound to no chat and without
-- a deadline, its lease is gone, no other VM or lease is touched, and the hook hears of a change of
-- the status, where it was not idle, and of the chat that the VM has left, where it had one; otherwise the call fails, and repository and
-- events are as they were.
pub stop_lem :
    (env : Env) (v : Vm) (w : World)
    → lookup v.id w.repo.vms ≡ some v
    → let v' : Vm = record v {
      chat_id = none;
      assigned_at = none;
      status = idle;
      idle_deadline_at = none;
    } in
      let w' = stop env v.id w in
      ((env.stop_preserving v.id ≡ succeeded)
        × (w'.1 ≡ ok v')
        × IsPut v.id (some v') w.repo w'.0.repo
        × (w'.0.events ≡ w.events ++ (of_status v' v.status ++ of_chat v' v.chat_id)))
      ⊎ ((env.stop_preserving v.id ≢ succeeded)
          × (w'.1 ≡ err internal)
          × (w'.0.repo ≡ w.repo)
          × (w'.0.events ≡ w.events))
unfolding stop get_by_id stop_events prior_chat
stop_lem env v w at =
    let v' : Vm = record v {
      chat_id = none;
      assigned_at = none;
      status = idle;
      idle_deadline_at = none;
    } in
    let w1 = snapshot_first env (is_active v.status) v.id w in
    let same = snapshot_first_repo env (is_active v.status) v.id w in
    let quiet = snapshot_first_events env (is_active v.status) v.id w in
    let (res, (vms, leases), events) = stop_writes_lem v w1 (rw same at) in
    elim (Answer-cases (env.stop_preserving v.id)) [
      | inl e ↦ inl (
        e,
        rw (at, e, stop) res,
        rw (at, e, stop)
            ((λ k. ground (arith, vms k, same)), (λ k. ground (arith, leases k, same))),
        rw (at, e, stop) (rw quiet at events)
            ∙ ap (λ es. w.events ++ es)
                (ap
                    (λ es.
                      es
                      ++ (if is_empty (prior_chat v)
                          then []
                          else unassigned v' (prior_chat v) ∷ []))
                    (told_status v' v.status)
                  ∙ ap (λ es. of_status v' v.status ++ es) (told_chat v' v.chat_id)),
      )
      | inr (inl e) ↦ rw (at, e, stop) (inr ((λ q. absurd (cc)), refl, same, quiet))
      | inr (inr e) ↦ rw (at, e, stop) (inr ((λ q. absurd (cc)), refl, same, quiet))
    ]

-- The repository of a destruction before its last two writes.
abbrev addressless : Env → Text → Repo → Repo
addressless env id r =
    if env.has_ip_allocator
    then release_ip_address id (release_active_lease_by_vm id r)
    else release_active_lease_by_vm id r
