-- ===== src/Service/History.antt =====
-- Every bound VM is leased, after any history of calls and passes of src/service/vm/service.go.
use spacetrek.Prelude.{
  ◌≡◌, refl, sym, subst, inl, inr, true, false, ◌||◌, List, [], ◌∷◌, some, Text, codes, text_eq,
  arith, Bool-cases, All, All-mono, ℤ,
}
use spacetrek.Exception.{Result-cases}
use spacetrek.Vm.{Vm, unassign, set_runtime_metadata, status_eq, idle}
use spacetrek.Vm.State.{is_active}
use spacetrek.VmRepo.{Repo, update, release_active_lease_by_vm}
use spacetrek.VmRepo.Laws.{after}
use spacetrek.VmRepo.Queries.{get_active_vms}
use spacetrek.Service.{
  Env, World, StatusAnswer, reported, status_lost, status_broke, mark_active, assign_to_chat,
  unassign_vm, create_snapshot, stop, destroy, snapshot_first,
}
use spacetrek.Service.Passes.{
  is_due, cold, reap_stopped, reap_one, reap_all, reap_idle_vms, mark_cold_after_lost_runtime,
  runtime_id_of, record_metadata, reconcile_one, reconcile_all, reconcile_runtime_states,
}
use spacetrek.Service.Steps.{
  Answer-cases, create_snapshot_repo, snapshot_first_repo, freed-IsHeld, mark_active-IsHeld,
  unassign_vm-IsHeld, assign_to_chat-IsHeld, stop-IsHeld, destroy-IsHeld,
}
use spacetrek.Service.Holding.{Leased, IsHeld, update-IsHeld, copies-Leased}

-- The calls and the passes.
pub data Request : Type 0 where
  marks unassigns stops destroys snapshots : Text → Request
  assigns : Text → Text → Request
  reaps reconciles : Request

unfoldable pub serve : Env → World → Request → World
serve env w (marks id) = (mark_active env id w).0
serve env w (unassigns id) = (unassign_vm env id w).0
serve env w (stops id) = (stop env id w).0
serve env w (destroys id) = (destroy env id w).0
serve env w (snapshots id) = (create_snapshot env id w).0
serve env w (assigns id chat) = (assign_to_chat env id chat w).0
serve env w reaps = reap_idle_vms env w
serve env w reconciles = reconcile_runtime_states env w

unfoldable pub serve_all : World → List (Env × Request) → World
serve_all w [] = w
serve_all w ((env, q) ∷ qs) = serve_all (serve env w q) qs

reap_stopped-IsHeld :
    (env : Env) (v : Vm) (w : World) → IsHeld w.repo → IsHeld (reap_stopped env v w).repo
unfolding reap_stopped cold unassign
reap_stopped-IsHeld env v w h =
    let v' = cold env (codes "stopped") v in
    let freed = freed-IsHeld v' w.repo h refl in
    elim (Result-cases (update v' (release_active_lease_by_vm v.id w.repo))) [
      | inl (r, done) ↦ rw (done, reap_stopped) (rw (done, after) at freed)
      | inr (e, failed) ↦ rw (failed, reap_stopped) (rw (failed, after) at freed)
    ]

reap_one-IsHeld : (env : Env) (v : Vm) (w : World) → IsHeld w.repo → IsHeld (reap_one env v w).repo
unfolding reap_one
reap_one-IsHeld env v w h = elim (Bool-cases (is_due env v)) [
  | inr early ↦ rw (early, reap_one) h
  | inl due ↦
      let w1 = snapshot_first env true v.id w in
      let h1 : IsHeld w1.repo =
        subst (λ r. IsHeld r) (sym (snapshot_first_repo env true v.id w)) h in
      elim (Answer-cases (env.stop_preserving v.id)) [
        | inl e ↦ rw (due, e, reap_one) (reap_stopped-IsHeld env v w1 h1)
        | inr (inl e) ↦ rw (due, e, reap_one) (reap_stopped-IsHeld env v w1 h1)
        | inr (inr e) ↦ rw (due, e, reap_one) h1
      ]
]

reap_all-IsHeld :
    (env : Env) (vs : List Vm) (w : World) → IsHeld w.repo → IsHeld (reap_all env vs w).repo
unfolding reap_all
reap_all-IsHeld env [] w h = h
reap_all-IsHeld env (v ∷ vs) w h =
    reap_all-IsHeld env vs (reap_one env v w) (reap_one-IsHeld env v w h)

mark_cold-IsHeld :
    (env : Env) (state : Text) (v : Vm) (w : World)
    → IsHeld w.repo
    → IsHeld (mark_cold_after_lost_runtime env state v w).repo
unfolding mark_cold_after_lost_runtime cold unassign
mark_cold-IsHeld env state v w h =
    let v' = cold env state v in
    let kept = update-IsHeld v' w.repo h (λ c q. absurd (cc)) in
    elim (Result-cases (update v' w.repo)) [
      | inl (r, done) ↦ rw (done, mark_cold_after_lost_runtime) (rw (done, after) at kept)
      | inr (e, failed) ↦ rw (failed, mark_cold_after_lost_runtime) h
    ]

-- A bound copy is leased.
abbrev Bound : Repo → Vm → Type 0
Bound r v = (c : Text) → v.chat_id ≡ some c → Leased v.id c r

record_metadata-IsHeld :
    (env : Env) (pid : ℤ) (state : Text) (v : Vm) (w : World)
    → IsHeld w.repo
    → Bound w.repo v
    → IsHeld (record_metadata env pid state v w).repo
unfolding record_metadata set_runtime_metadata
record_metadata-IsHeld env pid state v w h bound =
    let v' = set_runtime_metadata (runtime_id_of v) [] pid state env.now v in
    let kept = update-IsHeld v' w.repo h bound in
    elim (Result-cases (update v' w.repo)) [
      | inl (r, done) ↦ rw (done, record_metadata) (rw (done, after) at kept)
      | inr (e, failed) ↦ rw (failed, record_metadata) h
    ]

reconcile_one-IsHeld :
    (env : Env) (v : Vm) (w : World)
    → IsHeld w.repo
    → Bound w.repo v
    → IsHeld (reconcile_one env v w).repo
unfolding reconcile_one
reconcile_one-IsHeld env v w h bound = elim (Bool-cases (status_eq v.status idle)) [
  | inl e ↦ rw (e, reconcile_one) h
  | inr e ↦ answered (env.backend_status (runtime_id_of v)) refl e
]
  where
    answered :
        (a : StatusAnswer)
        → env.backend_status (runtime_id_of v) ≡ a
        → status_eq v.status idle ≡ false
        → IsHeld (reconcile_one env v w).repo
    answered status_lost q e =
        rw (e, q, reconcile_one) (mark_cold-IsHeld env (codes "stopped") v w h)
    answered status_broke q e = rw (e, q, reconcile_one) h
    answered (reported pid state) q e =
        elim (Bool-cases (text_eq state (codes "stopped") || text_eq state (codes "terminated"))) [
          | inl gone ↦ rw (e, q, gone, reconcile_one) (mark_cold-IsHeld env state v w h)
          | inr alive ↦
              rw (e, q, alive, reconcile_one) (record_metadata-IsHeld env pid state v w h bound)
        ]

reconcile_leases :
    (env : Env) (v : Vm) (w : World) → (reconcile_one env v w).repo.leases ≡ w.repo.leases
unfolding reconcile_one mark_cold_after_lost_runtime record_metadata update
reconcile_leases env v w = ground arith

reconcile_all-IsHeld :
    (env : Env) (vs : List Vm) (w : World)
    → IsHeld w.repo
    → All (Bound w.repo) vs
    → IsHeld (reconcile_all env vs w).repo
unfolding reconcile_all
reconcile_all-IsHeld env [] w h a = h
reconcile_all-IsHeld env (v ∷ vs) w h (b, a) =
    reconcile_all-IsHeld env vs (reconcile_one env v w) (reconcile_one-IsHeld env v w h b) (
      All-mono (Bound w.repo) (Bound (reconcile_one env v w).repo)
        (λ u q c bound.
          let (l, at, chat) = q c bound in (l, rw (reconcile_leases env v w) at, chat))
        vs a)

serve-IsHeld : (env : Env) (w : World) (q : Request) → IsHeld w.repo → IsHeld (serve env w q).repo
unfolding serve reap_idle_vms reconcile_runtime_states get_active_vms
serve-IsHeld env w (marks id) h = mark_active-IsHeld env id w h
serve-IsHeld env w (unassigns id) h = unassign_vm-IsHeld env id w h
serve-IsHeld env w (stops id) h = stop-IsHeld env id w h
serve-IsHeld env w (destroys id) h = destroy-IsHeld env id w h
serve-IsHeld env w (snapshots id) h = subst (λ r. IsHeld r) (sym (create_snapshot_repo env id w)) h
serve-IsHeld env w (assigns id chat) h = assign_to_chat-IsHeld env id chat w h
serve-IsHeld env w reaps h = reap_all-IsHeld env (get_active_vms w.repo) w h
serve-IsHeld env w reconciles h =
    reconcile_all-IsHeld env (get_active_vms w.repo) w h
      (copies-Leased (λ v. is_active v.status) w.repo h)

-- If in a well-formed repository every VM that is bound to a chat has an active lease of that chat,
-- the same holds after any sequence of claims, releases, stops, destructions, touches, snapshots and
-- passes of the idle reaper and the reconciler, whatever the backend answers.
pub serve_all-IsHeld :
    (qs : List (Env × Request)) (w : World) → IsHeld w.repo → IsHeld (serve_all w qs).repo
unfolding serve_all
serve_all-IsHeld [] w h = h
serve_all-IsHeld ((env, q) ∷ qs) w h = serve_all-IsHeld qs (serve env w q) (serve-IsHeld env w q h)
