-- ===== src/Service/Steps.antt =====
-- Each call of src/service/vm/service.go keeps every bound VM leased.
use spacetrek.Prelude.{
  ◌+◌, ◌≡◌, refl, sym, subst, ◌⊎◌, inl, inr, Bool, none, some, Text, lookup, if◌then◌else◌, arith,
  Option-cases, Bool-cases,
}
use spacetrek.Exception.{AppError, ok, err, Result-cases}
use spacetrek.Vm.{Vm, unassign, terminate}
use spacetrek.Vm.State.{is_active}
use spacetrek.VmRepo.{
  Repo, vm_missing, get_by_id, update, delete, release_active_lease_by_vm,
  assign_to_chat_if_available,
}
use spacetrek.VmRepo.Laws.{after, after_assign}
use spacetrek.Service.{
  Env, World, Answer, succeeded, lost, broke, stop_writes, destroy_writes, mark_active,
  assign_to_chat, unassign_vm, create_snapshot, stop, destroy, snapshot_first, purged,
  refresh_idle_deadline, release_ip_address,
}
use spacetrek.Service.Holding.{
  Leased, IsHeld, IsHeldBut, key_of, update-IsHeld, release-IsHeldBut, release_ip-IsHeldBut,
  unbind-IsHeld, delete-IsHeld, assign-IsHeld,
}

pub Answer-cases : (a : Answer) → (a ≡ succeeded) ⊎ ((a ≡ lost) ⊎ (a ≡ broke))
Answer-cases succeeded = inl refl
Answer-cases lost = inr (inl refl)
Answer-cases broke = inr (inr refl)

-- A lookup that GetByID answers.
found_by :
    (id : Text) (r : Repo)
    → ((e : AppError) × (get_by_id id r ≡ err e))
      ⊎ ((v : Vm) × (lookup id r.vms ≡ some v) × (get_by_id id r ≡ ok v))
unfolding get_by_id
found_by id r = elim (Option-cases (lookup id r.vms)) [
  | inl e ↦ inl (vm_missing id, ground arith)
  | inr (v, e) ↦ inr (v, e, ground arith)
]

pub create_snapshot_repo :
    (env : Env) (id : Text) (w : World) → (create_snapshot env id w).0.repo ≡ w.repo
unfolding create_snapshot
create_snapshot_repo env id w = ground arith

pub snapshot_first_repo :
    (env : Env) (wanted : Bool) (id : Text) (w : World)
    → (snapshot_first env wanted id w).repo ≡ w.repo
snapshot_first_repo env wanted id w = ground (arith, create_snapshot_repo env id w)

pub mark_active-IsHeld :
    (env : Env) (id : Text) (w : World) → IsHeld w.repo → IsHeld (mark_active env id w).0.repo
unfolding mark_active refresh_idle_deadline
mark_active-IsHeld env id w h = elim (found_by id w.repo) [
  | inl (e, missing) ↦ rw (missing, mark_active) h
  | inr (v, at, got) ↦
      let v' = refresh_idle_deadline env v in
      let kept = update-IsHeld v' w.repo h (λ c q.
        subst (λ j. Leased j c w.repo) (sym (key_of id v w.repo h at)) (h.held id v c at q)) in
      elim (Result-cases (update v' w.repo)) [
        | inl (r, done) ↦ rw (got, done, mark_active) (rw (done, after) at kept)
        | inr (e, failed) ↦ rw (got, failed, mark_active) h
      ]
]

-- A release of the VM's lease, and a write that unbinds it.
pub freed-IsHeld :
    (v : Vm) (r : Repo)
    → IsHeld r
    → v.chat_id ≡ none
    → IsHeld
        (after (release_active_lease_by_vm v.id r) (update v (release_active_lease_by_vm v.id r)))
freed-IsHeld v r h free =
    unbind-IsHeld v (release_active_lease_by_vm v.id r) (release-IsHeldBut v.id r h) free

freed_at :
    (id : Text) (v : Vm) (r : Repo)
    → IsHeld r
    → v.id ≡ id
    → v.chat_id ≡ none
    → IsHeld (after (release_active_lease_by_vm id r) (update v (release_active_lease_by_vm id r)))
freed_at id v r h same free =
    subst
      (λ j.
        IsHeld (after (release_active_lease_by_vm j r) (update v (release_active_lease_by_vm j r))))
      same (freed-IsHeld v r h free)

pub unassign_vm-IsHeld :
    (env : Env) (id : Text) (w : World) → IsHeld w.repo → IsHeld (unassign_vm env id w).0.repo
unfolding unassign_vm refresh_idle_deadline unassign
unassign_vm-IsHeld env id w h = elim (found_by id w.repo) [
  | inl (e, missing) ↦ rw (missing, unassign_vm) h
  | inr (v, at, got) ↦
      let v' = refresh_idle_deadline env (unassign v) in
      let freed = freed_at id v' w.repo h (key_of id v w.repo h at) refl in
      elim (Result-cases (update v' (release_active_lease_by_vm id w.repo))) [
        | inl (r, done) ↦ rw (got, done, unassign_vm) (rw (done, after) at freed)
        | inr (e, failed) ↦ rw (got, failed, unassign_vm) (rw (failed, after) at freed)
      ]
]

pub assign_to_chat-IsHeld :
    (env : Env) (id chat : Text) (w : World)
    → IsHeld w.repo
    → IsHeld (assign_to_chat env id chat w).0.repo
unfolding assign_to_chat
assign_to_chat-IsHeld env id chat w h =
    let deadline = some (env.now + env.idle_timeout) in
    let kept = assign-IsHeld id chat deadline env.now env.stamp w.repo h in
    elim (Result-cases (assign_to_chat_if_available id chat deadline env.now env.stamp w.repo)) [
      | inl (p, done) ↦ rw (done, assign_to_chat) (rw (done, after_assign) at kept)
      | inr (e, failed) ↦ rw (failed, assign_to_chat) h
    ]

-- A stop that gets through to the writes.
stopped-IsHeld :
    (env : Env) (id : Text) (v : Vm) (w1 : World)
    → IsHeld w1.repo
    → v.id ≡ id
    → IsHeld (stop_writes id v w1).0.repo
unfolding stop_writes unassign
stopped-IsHeld env id v w1 h same =
    let v' : Vm = (let u = unassign v in record u { idle_deadline_at = none }) in
    let freed = freed_at id v' w1.repo h same refl in
    elim (Result-cases (update v' (release_active_lease_by_vm id w1.repo))) [
      | inl (r, done) ↦ rw (done, stop_writes) (rw (done, after) at freed)
      | inr (e, failed) ↦ rw (failed, stop_writes) (rw (failed, after) at freed)
    ]

pub stop-IsHeld :
    (env : Env) (id : Text) (w : World) → IsHeld w.repo → IsHeld (stop env id w).0.repo
unfolding stop
stop-IsHeld env id w h = elim (found_by id w.repo) [
  | inl (e, missing) ↦ rw (missing, stop) h
  | inr (v, at, got) ↦
      let w1 = snapshot_first env (is_active v.status) id w in
      let h1 : IsHeld w1.repo =
        subst (λ r. IsHeld r) (sym (snapshot_first_repo env (is_active v.status) id w)) h in
      let done = stopped-IsHeld env id v w1 h1 (key_of id v w.repo h at) in
      elim (Answer-cases (env.stop_preserving id)) [
        | inl e ↦ rw (got, e, stop) done
        | inr (inl e) ↦ rw (got, e, stop) h1
        | inr (inr e) ↦ rw (got, e, stop) h1
      ]
]

destroyed-IsHeld :
    (env : Env) (id : Text) (v : Vm) (w : World)
    → IsHeld w.repo
    → v.id ≡ id
    → IsHeld (destroy_writes env id v w).0.repo
unfolding destroy_writes terminate
destroyed-IsHeld env id v w h same =
    let v' : Vm = (let u = terminate env.now v in record u { idle_deadline_at = none }) in
    let r1 = release_active_lease_by_vm id w.repo in
    let r2 = if env.has_ip_allocator then release_ip_address id r1 else r1 in
    let but1 = release-IsHeldBut id w.repo h in
    let but2 : IsHeldBut id r2 = elim (Bool-cases env.has_ip_allocator) [
      | inl e ↦ rw e (release_ip-IsHeldBut id r1 but1)
      | inr e ↦ rw e but1
    ] in
    let unbound = unbind-IsHeld v' r2 (subst (λ j. IsHeldBut j r2) (sym same) but2) refl in
    elim (Result-cases (update v' r2)) [
      | inr (e, failed) ↦ rw (failed, destroy_writes) (rw (failed, after) at unbound)
      | inl (r3, written) ↦
          let h3 : IsHeld r3 = rw (written, after) at unbound in
          let deleted = delete-IsHeld id r3 h3 in
          elim (Result-cases (delete id r3)) [
            | inl (r4, gone) ↦ rw (written, gone, destroy_writes) (rw (gone, after) at deleted)
            | inr (e, failed) ↦ rw (written, failed, destroy_writes) h3
          ]
    ]

pub destroy-IsHeld :
    (env : Env) (id : Text) (w : World) → IsHeld w.repo → IsHeld (destroy env id w).0.repo
unfolding destroy
destroy-IsHeld env id w h = elim (found_by id w.repo) [
  | inl (e, missing) ↦ rw (missing, destroy) h
  | inr (v, at, got) ↦
      let w1 : World = record w { snaps = purged env id w.snaps } in
      let done = destroyed-IsHeld env id v w1 h (key_of id v w.repo h at) in
      elim (Answer-cases (env.backend_destroy id)) [
        | inl e ↦ rw (got, e, destroy) done
        | inr (inl e) ↦ rw (got, e, destroy) h
        | inr (inr e) ↦ rw (got, e, destroy) h
      ]
]
