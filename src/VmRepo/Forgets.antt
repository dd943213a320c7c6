-- ===== src/VmRepo/Forgets.antt =====
-- The leases that src/repository/memory/vm.go still has: the lookups of previous leases.
use spacetrek.Prelude.{
  ◌≡◌, ap, ◌∙◌, ◌≢◌, inl, inr, true, List, [], ◌∷◌, none, some, Option-cases, Bool-cases, Text,
  text_eq, text_eq_iff, text_eq_refl, lookup, values, arith, codes, All, All-values, All-lookup,
  All-select, All-sort_by, All-mono, All-both, entries_found, select, lookup-remove,
}
use spacetrek.Exception.{ok, not_found}
use spacetrek.Vm.{Vm}
use spacetrek.VmRepo.{Repo, Lease, release_active_lease_by_vm}
use spacetrek.VmRepo.Laws.{IsWf, release-IsWf}
use spacetrek.VmRepo.Queries.{
  later, leases_of, leased_vms, can_resume, head_or_err, list_previous_leases_for_chat,
  find_previous_lease_for_chat,
}

-- The repository has a lease of the VM `id` by the chat.
abbrev pub IsLeased : Text → Text → Repo → Type 0
IsLeased id chat r = (l : Lease) × (lookup id r.leases ≡ some l) × (l.chat_id ≡ chat)

-- A VM that a lookup of previous leases may return.
abbrev pub IsPrevious : Text → Repo → Vm → Type 0
IsPrevious chat r v = (can_resume v ≡ true) × (lookup v.id r.vms ≡ some v) × IsLeased v.id chat r

abbrev IsStored : Repo → Lease → Type 0
IsStored r l = lookup l.vm_id r.leases ≡ some l

stored : (r : Repo) → IsWf r → All (IsStored r) (values r.leases)
stored r h = All-values (IsStored r) r.leases (
    All-mono
      (λ e. ((e.1.vm_id ≡ e.0) × (e.1.released_at ≡ none)) × (lookup e.0 r.leases ≡ some e.1))
      (λ e. IsStored r e.1) (λ e q. ap (λ k. lookup k r.leases) q.0.0 ∙ q.1) r.leases
      (All-both (λ e. (e.1.vm_id ≡ e.0) × (e.1.released_at ≡ none))
        (λ e. lookup e.0 r.leases ≡ some e.1) r.leases h.open_leases
        (entries_found r.leases h.one_lease)))

chat_leases :
    (chat : Text) (r : Repo)
    → IsWf r
    → All (λ l. IsStored r l × (text_eq l.chat_id chat ≡ true)) (leases_of chat r)
unfolding leases_of
chat_leases chat r h =
    All-sort_by (λ l. IsStored r l × (text_eq l.chat_id chat ≡ true)) later
      (select (λ l. text_eq l.chat_id chat) (values r.leases))
      (All-select (IsStored r) (λ l. text_eq l.chat_id chat) (values r.leases) (stored r h))

leased_vms-IsPrevious :
    (chat : Text) (r : Repo) (ls : List Lease)
    → IsWf r
    → All (λ l. IsStored r l × (text_eq l.chat_id chat ≡ true)) ls
    → All (IsPrevious chat r) (leased_vms can_resume r ls)
unfolding leased_vms
leased_vms-IsPrevious chat r [] h a = tt
leased_vms-IsPrevious chat r (l ∷ ls) h ((st, ch), a) =
    let rest = leased_vms-IsPrevious chat r ls h a in
    elim (Option-cases (lookup l.vm_id r.vms)) [
      | inl e ↦ rw (e, leased_vms) rest
      | inr (v, e) ↦ elim (Bool-cases (can_resume v)) [
        | inl fit ↦
            let same = All-lookup (λ f. f.1.id ≡ f.0) l.vm_id v r.vms h.keyed e in
            rw (e, fit, leased_vms)
              (
                (
                  fit,
                  ap (λ k. lookup k r.vms) same ∙ e,
                  (l, ap (λ k. lookup k r.leases) same ∙ st, (text_eq_iff l.chat_id chat).0 ch),
                ),
                rest,
              )
        | inr other ↦ rw (e, other, leased_vms) rest
      ]
    ]

-- In a well-formed repository, each VM that ListPreviousLeasesForChat returns is stored, idle or
-- ready, bound to no chat, and has a lease by that chat.
pub list_previous_leases_for_chat_lem :
    (chat : Text) (r : Repo)
    → IsWf r
    → All (IsPrevious chat r) (list_previous_leases_for_chat chat r)
unfolding list_previous_leases_for_chat
list_previous_leases_for_chat_lem chat r h =
    leased_vms-IsPrevious chat r (leases_of chat r) h (chat_leases chat r h)

release-absent : (id : Text) (r : Repo) → lookup id (release_active_lease_by_vm id r).leases ≡ none
unfolding release_active_lease_by_vm
release-absent id r = ground (arith, lookup-remove id id r.leases, text_eq_refl id)

forgotten :
    (id chat : Text) (r : Repo) (v : Vm)
    → lookup id r.leases ≡ none
    → IsPrevious chat r v
    → v.id ≢ id
forgotten id chat r v gone (_, _, (l, found, _)) same = ground (arith)

-- After ReleaseActiveLeaseByVM of a VM in a well-formed repository, ListPreviousLeasesForChat and
-- FindPreviousLeaseForChat return that VM to no chat, whichever leased it before.
pub release_forgets :
    (id chat : Text) (r : Repo)
    → IsWf r
    → All (λ v. v.id ≢ id) (list_previous_leases_for_chat chat (release_active_lease_by_vm id r))
      × ((v : Vm)
          → find_previous_lease_for_chat chat (release_active_lease_by_vm id r) ≡ ok v
          → v.id ≢ id)
unfolding list_previous_leases_for_chat find_previous_lease_for_chat
release_forgets id chat r h =
    let r' = release_active_lease_by_vm id r in
    let wf = release-IsWf id r h in
    let others =
      All-mono (IsPrevious chat r') (λ v. v.id ≢ id)
        (λ v p. forgotten id chat r' v (release-absent id r) p)
        (leased_vms can_resume r' (leases_of chat r'))
        (leased_vms-IsPrevious chat r' (leases_of chat r') wf (chat_leases chat r' wf)) in
    (others, λ v e. head_of (leased_vms can_resume r' (leases_of chat r')) v others e)
  where
    head_of :
        (vs : List Vm) (v : Vm)
        → All (λ w. w.id ≢ id) vs
        → head_or_err vs (not_found (codes "previous vm for chat") chat) ≡ ok v
        → v.id ≢ id
    head_of [] v a e = absurd (cc)
    head_of (w ∷ ws) v (p, a) e = ground arith
