-- ===== src/VmRepo/Laws.antt =====
-- The invariant of the in-memory VM repository under every history of calls.
use spacetrek.Prelude.{
  ℕ, ◌≡◌, refl, inl, inr, List, [], ◌∷◌, Option, none, some, Option-cases, Bool-cases, Text,
  text_eq, text_eq_iff, lookup, insert, if◌then◌else◌, All, All-insert, All-remove, All-lookup,
  Distinct, Distinct-insert, Distinct-remove, lookup-insert, lookup-remove, arith,
}
use spacetrek.Exception.{Result, ok, err}
use spacetrek.Vm.{Vm, is_available, assign_to}
use spacetrek.VmRepo.{
  Repo, Lease, new_repo, create, update, delete, assign_to_chat_if_available,
  release_active_lease_by_vm, new_lease,
}
use spacetrek.VmRepo.{Stamp}

abbrev pub IsKeyed : Text × Vm → Type 0
IsKeyed e = e.1.id ≡ e.0

abbrev pub IsOpenLease : Text × Lease → Type 0
IsOpenLease e = (e.1.vm_id ≡ e.0) × (e.1.released_at ≡ none)

-- Each VM once, under its id; each lease once, under its VM's id, and not released.
pub record IsWf (r : Repo) : Type 0 where
  pub keyed : All (λ e. e.1.id ≡ e.0) r.vms
  pub distinct : Distinct r.vms
  pub open_leases : All (λ e. (e.1.vm_id ≡ e.0) × (e.1.released_at ≡ none)) r.leases
  pub one_lease : Distinct r.leases

-- The calls that write, each with the time that it reads.
pub data Call : Type 0 where
  creates updates : Vm → Call
  deletes releases : Text → Call
  assigns : Text → Text → Option ℕ → ℕ → Stamp → Call

-- A call that fails leaves the repository as it was.
abbrev pub after : Repo → Result Repo → Repo
after r (ok r') = r'
after r (err e) = r

abbrev pub after_assign : Repo → Result (Vm × Repo) → Repo
after_assign r (ok (v, r')) = r'
after_assign r (err e) = r

unfoldable pub step : Repo → Call → Repo
step r (creates v) = create v r
step r (updates v) = after r (update v r)
step r (deletes id) = after r (delete id r)
step r (releases id) = release_active_lease_by_vm id r
step r (assigns id chat deadline now stamp) =
    after_assign r (assign_to_chat_if_available id chat deadline now stamp r)

unfoldable pub run : Repo → List Call → Repo
run r [] = r
run r (c ∷ cs) = run (step r c) cs

put-IsWf : (v : Vm) (r : Repo) → IsWf r → IsWf (record r { vms = insert v.id v r.vms })
put-IsWf v r h = record {
  keyed = All-insert IsKeyed v.id v r.vms refl h.keyed;
  distinct = Distinct-insert v.id v r.vms h.distinct;
  open_leases = h.open_leases;
  one_lease = h.one_lease;
}

create-IsWf : (v : Vm) (r : Repo) → IsWf r → IsWf (create v r)
unfolding create
create-IsWf v r h = put-IsWf v r h

pub update-IsWf : (v : Vm) (r : Repo) → IsWf r → IsWf (after r (update v r))
unfolding update
update-IsWf v r h = elim (Option-cases (lookup v.id r.vms)) [
  | inl e ↦ rw (e, update, after) h
  | inr (old, e) ↦ rw (e, update, after) (put-IsWf v r h)
]

pub delete-IsWf : (id : Text) (r : Repo) → IsWf r → IsWf (after r (delete id r))
unfolding delete
delete-IsWf id r h = elim (Option-cases (lookup id r.vms)) [
  | inl e ↦ rw (e, delete, after) h
  | inr (old, e) ↦
      rw (e, delete, after)
        (record {
          keyed = All-remove IsKeyed id r.vms h.keyed;
          distinct = Distinct-remove id r.vms h.distinct;
          open_leases = h.open_leases;
          one_lease = h.one_lease;
        })
]

pub release-IsWf : (id : Text) (r : Repo) → IsWf r → IsWf (release_active_lease_by_vm id r)
unfolding release_active_lease_by_vm
release-IsWf id r h = elim (Option-cases (lookup id r.leases)) [
  | inl e ↦ rw (e, release_active_lease_by_vm) h
  | inr (old, e) ↦
      rw (e, release_active_lease_by_vm)
        (record {
          keyed = h.keyed;
          distinct = h.distinct;
          open_leases = All-remove IsOpenLease id r.leases h.open_leases;
          one_lease = Distinct-remove id r.leases h.one_lease;
        })
]

pub assign-IsWf :
    (id chat : Text) (deadline : Option ℕ) (now : ℕ) (stamp : Stamp) (r : Repo)
    → IsWf r
    → IsWf (after_assign r (assign_to_chat_if_available id chat deadline now stamp r))
unfolding assign_to_chat_if_available assign_to
assign-IsWf id chat deadline now stamp r h = elim (Option-cases (lookup id r.vms)) [
  | inl e ↦ rw (e, assign_to_chat_if_available, after_assign) h
  | inr (v, e) ↦ elim (Bool-cases (is_available v)) [
    | inl free ↦
        rw (e, free, assign_to_chat_if_available, after_assign)
          (record {
            keyed = All-insert IsKeyed id _ r.vms (All-lookup IsKeyed id v r.vms h.keyed e) h.keyed;
            distinct = Distinct-insert id _ r.vms h.distinct;
            open_leases =
                All-insert IsOpenLease id (new_lease id chat stamp) r.leases (refl, refl)
                  h.open_leases;
            one_lease = Distinct-insert id (new_lease id chat stamp) r.leases h.one_lease;
          })
    | inr held ↦ rw (e, held, assign_to_chat_if_available, after_assign) h
  ]
]

step-IsWf : (r : Repo) (c : Call) → IsWf r → IsWf (step r c)
unfolding step
step-IsWf r (creates v) h = create-IsWf v r h
step-IsWf r (updates v) h = update-IsWf v r h
step-IsWf r (deletes id) h = delete-IsWf id r h
step-IsWf r (releases id) h = release-IsWf id r h
step-IsWf r (assigns id chat deadline now stamp) h = assign-IsWf id chat deadline now stamp r h

run_from-IsWf : (r : Repo) (cs : List Call) → IsWf r → IsWf (run r cs)
unfolding run
run_from-IsWf r [] h = h
run_from-IsWf r (c ∷ cs) h = run_from-IsWf (step r c) cs (step-IsWf r c h)

-- After any sequence of writing calls on a new repository, failed ones among them, every VM stands
-- once and under its id, and every lease stands once, under its VM's id, and is not released.
pub run-IsWf : (cs : List Call) → IsWf (run new_repo cs)
run-IsWf cs =
    run_from-IsWf new_repo cs
      (record { keyed = tt; distinct = tt; open_leases = tt; one_lease = tt })

-- What a reader of the repository sees of its VMs.
abbrev pub view : Repo → Text → Option Vm
view r id = lookup id r.vms

-- Create, Update and Delete as writes of a map from ids to VMs: Create always writes its VM, Update
-- and Delete exactly where the id is present, and no other id is touched.
pub writes-view :
    (v : Vm) (id k : Text) (r : Repo)
    → (view (create v r) k ≡ (if text_eq v.id k then some v else view r k))
      × (view (after r (update v r)) k ≡ (elim (view r v.id) [
        | none ↦ view r k
        | some old ↦ if text_eq v.id k then some v else view r k
      ]))
      × (view (after r (delete id r)) k ≡ (if text_eq id k then none else view r k))
unfolding create update delete
writes-view v id k r = (
  lookup-insert v.id k v r.vms,
  ground (arith, lookup-insert v.id k v r.vms),
  ground (arith, lookup-remove id k r.vms, text_eq_iff id k),
)
