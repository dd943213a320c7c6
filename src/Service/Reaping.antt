-- ===== src/Service/Reaping.antt =====
-- What a pass of the idle reaper does to each VM: reapIdleVMs of src/service/vm/service.go.
use spacetrek.Prelude.{
  ◌≡◌, ◌≢◌, ◌∙◌, ap, ℕ, ◌-◌, leb, ltb, not, Option-cases, refl, sym, subst, inl, inr, Bool, true,
  false, ◌&&◌, List, [], ◌∷◌, Option, none, some, Text, codes, text_eq, text_eq_iff, Dict, lookup,
  values, lookup-insert, if◌then◌else◌, arith, Bool-cases, All, All-mono, All-both, All-select,
  All-values, Distinct, entries_found, select,
}
use spacetrek.Vm.{
  Vm, Status, provisioning, ready, running, idle, terminated, unassign, is_recently_resumed,
}
use spacetrek.Vm.State.{is_active}
use spacetrek.VmRepo.{Repo, release_active_lease_by_vm}
use spacetrek.VmRepo.Laws.{IsWf, IsKeyed}
use spacetrek.VmRepo.Queries.{get_active_vms}
use spacetrek.Service.{Env, World, Answer, succeeded, lost, broke, snapshot_first}
use spacetrek.Service.Passes.{is_due, cold, reap_stopped, reap_one, reap_all, reap_idle_vms}
use spacetrek.Service.Steps.{Answer-cases, snapshot_first_repo}
use spacetrek.Service.Outcomes.{update_ok, release_lookups}

-- The backend has stopped the VM, or no longer has it.
abbrev pub is_gone : Answer → Bool
is_gone succeeded = true
is_gone lost = true
is_gone broke = false

-- What becomes of a VM that the pass looks at.
abbrev pub reaped : Env → Vm → Vm
reaped env v =
    if is_due env v && is_gone (env.stop_preserving v.id) then cold env (codes "stopped") v else v

reap_stopped-lookup :
    (env : Env) (v : Vm) (w : World) (k : Text)
    → lookup v.id w.repo.vms ≡ some v
    → lookup k (reap_stopped env v w).repo.vms
      ≡ (if text_eq v.id k then some (cold env (codes "stopped") v) else lookup k w.repo.vms)
unfolding reap_stopped cold unassign
reap_stopped-lookup env v w k at =
    let v' = cold env (codes "stopped") v in
    let r1 = release_active_lease_by_vm v.id w.repo in
    let kept = (release_lookups v.id k w.repo).0 in
    let written = update_ok v' v r1 (rw kept at) in
    rw (written, reap_stopped) (ground (arith, lookup-insert v.id k v' r1.vms, kept))

reap_one-lookup :
    (env : Env) (v : Vm) (w : World) (k : Text)
    → lookup v.id w.repo.vms ≡ some v
    → lookup k (reap_one env v w).repo.vms
      ≡ (if text_eq v.id k then some (reaped env v) else lookup k w.repo.vms)
unfolding reap_one
reap_one-lookup env v w k at =
    let w1 = snapshot_first env true v.id w in
    let same = snapshot_first_repo env true v.id w in
    let stopped = reap_stopped-lookup env v w1 k (rw same at) in
    let unchanged : lookup k w.repo.vms ≡ (if text_eq v.id k then some v else lookup k w.repo.vms) =
      ground (arith, text_eq_iff v.id k) in
    elim (Bool-cases (is_due env v)) [
      | inr early ↦ rw (early, reap_one) unchanged
      | inl due ↦ elim (Answer-cases (env.stop_preserving v.id)) [
        | inl e ↦ rw (due, e, reap_one) (ground (arith, stopped, same))
        | inr (inl e) ↦ rw (due, e, reap_one) (ground (arith, stopped, same))
        | inr (inr e) ↦ rw (due, e, reap_one) (ground (arith, unchanged, same))
      ]
    ]

-- The VM of a list with the id.
abbrev by_id : Text → List Vm → Option Vm
by_id k [] = none
by_id k (v ∷ vs) = if text_eq v.id k then some v else by_id k vs

-- Each VM of the list is stored, and each id stands once.
abbrev Stored : Repo → Vm → Type 0
Stored r v = lookup v.id r.vms ≡ some v

abbrev Once : List Vm → Type 0
Once [] = Unit
Once (v ∷ vs) = All (λ u. u.id ≢ v.id) vs × Once vs

by_id-none : (k : Text) (vs : List Vm) → All (λ u. u.id ≢ k) vs → by_id k vs ≡ none
by_id-none k [] h = refl
by_id-none k (v ∷ vs) (a, h) = ground (arith, text_eq_iff v.id k, by_id-none k vs h)

still-Stored :
    (env : Env) (v : Vm) (w : World) (vs : List Vm)
    → Stored w.repo v
    → All (λ u. u.id ≢ v.id) vs
    → All (Stored w.repo) vs
    → All (Stored (reap_one env v w).repo) vs
still-Stored env v w vs at others stored =
    All-mono (λ u. (u.id ≢ v.id) × Stored w.repo u) (Stored (reap_one env v w).repo)
      (λ u q. ground (arith, reap_one-lookup env v w u.id at, text_eq_iff v.id u.id, q)) vs
      (All-both (λ u. u.id ≢ v.id) (Stored w.repo) vs others stored)

reap_all-lookup :
    (env : Env) (vs : List Vm) (w : World) (k : Text)
    → All (Stored w.repo) vs
    → Once vs
    → lookup k (reap_all env vs w).repo.vms
      ≡ (elim (by_id k vs) [ none ↦ lookup k w.repo.vms | some v ↦ some (reaped env v) ])
unfolding reap_all
reap_all-lookup env [] w k stored once = refl
reap_all-lookup env (v ∷ vs) w k (at, stored) (others, once) =
    let rest =
      reap_all-lookup env vs (reap_one env v w) k (still-Stored env v w vs at others stored) once in
    let here = reap_one-lookup env v w k at in
    elim (Bool-cases (text_eq v.id k)) [
      | inl hit ↦
          let gone =
            by_id-none k vs
              (subst (λ j. All (λ u. u.id ≢ j) vs) ((text_eq_iff v.id k).0 hit) others) in
          ground (arith, rest, here, gone)
      | inr miss ↦ ground (arith, rest, here)
    ]

All-ids :
    (k : Text) (p : Vm → Bool) (m : Dict Vm)
    → All IsKeyed m
    → All (λ e. e.0 ≢ k) m
    → All (λ u. u.id ≢ k) (select p (values m))
All-ids k p m keyed h =
    All-mono (λ u. (u.id ≢ k) × (p u ≡ true)) (λ u. u.id ≢ k) (λ u q. q.0) (select p (values m))
      (All-select (λ u. u.id ≢ k) p (values m)
        (All-values (λ u. u.id ≢ k) m
          (All-mono (λ e. (e.1.id ≡ e.0) × (e.0 ≢ k)) (λ e. e.1.id ≢ k) (λ e q. ground (arith, q)) m
            (All-both IsKeyed (λ e. e.0 ≢ k) m keyed h))))

Once-select :
    (p : Vm → Bool) (m : Dict Vm) → All IsKeyed m → Distinct m → Once (select p (values m))
Once-select p [] keyed d = tt
Once-select p ((j, w) ∷ m) (kw, keyed) (a, d) =
    let rest = Once-select p m keyed d in
    elim (Bool-cases (p w)) [
      | inl hit ↦ rw hit (
        subst (λ i. All (λ u. u.id ≢ i) (select p (values m))) (sym kw) (All-ids j p m keyed a),
        rest,
      )
      | inr miss ↦ rw miss rest
    ]

by_id-select :
    (k : Text) (p : Vm → Bool) (m : Dict Vm)
    → All IsKeyed m
    → Distinct m
    → by_id k (select p (values m))
      ≡ (elim (lookup k m) [ none ↦ none | some v ↦ if p v then some v else none ])
unfolding lookup
by_id-select k p [] keyed d = refl
by_id-select k p ((j, w) ∷ m) (kw, keyed) (a, d) =
    let rest = by_id-select k p m keyed d in
    elim (Bool-cases (text_eq j k)) [
      | inl hit ↦
          let gone =
            by_id-none k (select p (values m)) (
              All-ids k p m keyed
                (subst (λ i. All (λ e. e.0 ≢ i) m) ((text_eq_iff j k).0 hit) a)) in
          ground (arith, gone, kw)
      | inr miss ↦ ground (arith, rest, kw)
    ]

actives-Stored : (p : Vm → Bool) (r : Repo) → IsWf r → All (Stored r) (select p (values r.vms))
actives-Stored p r h =
    All-mono (λ u. Stored r u × (p u ≡ true)) (Stored r) (λ u q. q.0) (select p (values r.vms))
      (All-select (Stored r) p (values r.vms) (
        All-values (Stored r) r.vms (
          All-mono (λ e. (e.1.id ≡ e.0) × (lookup e.0 r.vms ≡ some e.1)) (λ e. Stored r e.1)
            (λ e q. subst (λ i. lookup i r.vms ≡ some e.1) (sym q.0) q.1) r.vms
            (All-both IsKeyed (λ e. lookup e.0 r.vms ≡ some e.1) r.vms h.keyed
              (entries_found r.vms h.distinct)))))

-- The deadline is set and not after now, and the last resumption is the grace period or longer ago.
abbrev pub is_over : Env → Vm → Bool
is_over env v = elim v.idle_deadline_at [
  | none ↦ false
  | some t ↦
      leb t env.now
      && elim v.last_resumed_at [ none ↦ true | some s ↦ leb env.resume_grace (env.now - s) ]
]

abbrev pub is_awake : Status → Bool
is_awake ready = true
is_awake running = true
is_awake _ = false

late :
    (now grace t : ℕ) (o : Option ℕ)
    → (not (ltb now t) && not (elim o [ none ↦ false | some s ↦ ltb (now - s) grace ]))
      ≡ (leb t now && elim o [ none ↦ true | some s ↦ leb grace (now - s) ])
late now grace t none = ground arith
late now grace t (some s) = ground arith

is_due-over : (env : Env) (v : Vm) → is_due env v ≡ is_over env v
unfolding is_due is_recently_resumed
is_due-over env v = elim (Option-cases v.idle_deadline_at) [
  | inl q ↦ rw q refl
  | inr (t, q) ↦ rw q (late env.now env.resume_grace t v.last_resumed_at)
]

is_active-awake : (s : Status) → is_active s ≡ is_awake s
unfolding is_active
is_active-awake provisioning = refl
is_active-awake ready = refl
is_active-awake running = refl
is_active-awake idle = refl
is_active-awake terminated = refl

reap_idle_vms-lookup :
    (env : Env) (w : World) (k : Text)
    → IsWf w.repo
    → lookup k (reap_idle_vms env w).repo.vms ≡ (elim (lookup k w.repo.vms) [
      | none ↦ none
      | some v ↦
          if is_active v.status && is_due env v && is_gone (env.stop_preserving v.id)
          then some (record v {
            status = idle;
            chat_id = none;
            assigned_at = none;
            runtime_state = some (codes "stopped");
            pid = none;
            idle_deadline_at = none;
            last_heartbeat_at = some env.now;
          })
          else some v
    ])
unfolding reap_idle_vms get_active_vms cold unassign
reap_idle_vms-lookup env w k h =
    let active = λ (v : Vm). is_active v.status in
    let all =
      reap_all-lookup env (select active (values w.repo.vms)) w k (actives-Stored active w.repo h)
        (Once-select active w.repo.vms h.keyed h.distinct) in
    let which = by_id-select k active w.repo.vms h.keyed h.distinct in ground (arith, all, which)

-- A pass of the reaper over a well-formed repository, VM by VM: one that is running or ready, past its
-- idle deadline, with its last resumption at least the grace period ago, and stopped by the backend or
-- unknown to it becomes idle, bound to no chat, with its runtime stopped; every other VM stays as it
-- was.
pub reap_idle_vms_lem :
    (env : Env) (w : World) (k : Text)
    → IsWf w.repo
    → lookup k (reap_idle_vms env w).repo.vms ≡ (elim (lookup k w.repo.vms) [
      | none ↦ none
      | some v ↦
          if is_awake v.status && is_over env v && is_gone (env.stop_preserving v.id)
          then some (record v {
            status = idle;
            chat_id = none;
            assigned_at = none;
            runtime_state = some (codes "stopped");
            pid = none;
            idle_deadline_at = none;
            last_heartbeat_at = some env.now;
          })
          else some v
    ])
reap_idle_vms_lem env w k h = reap_idle_vms-lookup env w k h ∙ same (lookup k w.repo.vms)
  where
    same :
        (o : Option Vm)
        → (elim o [
          | none ↦ none
          | some v ↦
              if is_active v.status && is_due env v && is_gone (env.stop_preserving v.id)
              then some (record v {
                status = idle;
                chat_id = none;
                assigned_at = none;
                runtime_state = some (codes "stopped");
                pid = none;
                idle_deadline_at = none;
                last_heartbeat_at = some env.now;
              })
              else some v
        ])
          ≡ (elim o [
            | none ↦ none
            | some v ↦
                if is_awake v.status && is_over env v && is_gone (env.stop_preserving v.id)
                then some (record v {
                  status = idle;
                  chat_id = none;
                  assigned_at = none;
                  runtime_state = some (codes "stopped");
                  pid = none;
                  idle_deadline_at = none;
                  last_heartbeat_at = some env.now;
                })
                else some v
          ])
    same none = refl
    same (some v) =
        ap
          (λ b.
            if b && is_due env v && is_gone (env.stop_preserving v.id)
            then some (record v {
              status = idle;
              chat_id = none;
              assigned_at = none;
              runtime_state = some (codes "stopped");
              pid = none;
              idle_deadline_at = none;
              last_heartbeat_at = some env.now;
            })
            else some v)
          (is_active-awake v.status)
        ∙ ap
            (λ b.
              if is_awake v.status && b && is_gone (env.stop_preserving v.id)
              then some (record v {
                status = idle;
                chat_id = none;
                assigned_at = none;
                runtime_state = some (codes "stopped");
                pid = none;
                idle_deadline_at = none;
                last_heartbeat_at = some env.now;
              })
              else some v)
            (is_due-over env v)
