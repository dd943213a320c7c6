-- ===== src/Service/Holding.antt =====
-- Who holds which VM, under any history of the service's calls: src/service/vm/service.go.
use spacetrek.Prelude.{
  ℕ, ◌≡◌, sym, subst, inl, inr, Bool, true, false, Option, none, some, Text, text_eq, text_eq_iff,
  lookup, lookup-insert, lookup-remove, if◌then◌else◌, arith, Option-cases, Bool-cases, All,
  All-mono, All-both, All-select, All-values, All-lookup, All-insert, Distinct-insert,
  entries_found, values, select,
}
use spacetrek.Vm.{Vm}
use spacetrek.VmRepo.{
  Repo, Lease, update, delete, release_active_lease_by_vm, assign_to_chat_if_available, new_lease,
}
use spacetrek.VmRepo.Laws.{
  IsWf, IsKeyed, after, after_assign, update-IsWf, delete-IsWf, release-IsWf, assign-IsWf,
}
use spacetrek.VmRepo.Leasing.{assign_cases}
use spacetrek.Service.{release_ip_address}
use spacetrek.VmRepo.{Stamp}

-- The VM `k` has an active lease of the chat.
abbrev pub Leased : Text → Text → Repo → Type 0
Leased k c r = (l : Lease) × (lookup k r.leases ≡ some l) × (l.chat_id ≡ c)

-- Every VM that is bound to a chat has an active lease of that chat.
pub record IsHeld (r : Repo) : Type 0 where
  pub wf : IsWf r
  pub held :
      (k : Text) (v : Vm) (c : Text) → lookup k r.vms ≡ some v → v.chat_id ≡ some c → Leased k c r

pub key_of : (k : Text) (v : Vm) (r : Repo) → IsHeld r → lookup k r.vms ≡ some v → v.id ≡ k
key_of k v r h e = All-lookup IsKeyed k v r.vms h.wf.keyed e

-- Writing a VM whose chat, if it has one, leases it.
pub update-IsHeld :
    (v : Vm) (r : Repo)
    → IsHeld r
    → ((c : Text) → v.chat_id ≡ some c → Leased v.id c r)
    → IsHeld (after r (update v r))
unfolding update
update-IsHeld v r h bound = record { wf = update-IsWf v r h.wf; held = holds }
  where
    holds :
        (k : Text) (u : Vm) (c : Text)
        → lookup k (after r (update v r)).vms ≡ some u
        → u.chat_id ≡ some c
        → Leased k c (after r (update v r))
    holds k u c e q = elim (Option-cases (lookup v.id r.vms)) [
      | inl gone ↦ rw (gone, update, after) (h.held k u c (ground arith) q)
      | inr (old, at) ↦
          rw (at, update, after)
            (elim (Bool-cases (text_eq v.id k)) [
              | inl same ↦
                  let written : v ≡ u = ground (arith, lookup-insert v.id k v r.vms) in
                  subst (λ j. Leased j c r) ((text_eq_iff v.id k).0 same)
                    (bound c (subst (λ x. x.chat_id ≡ some c) (sym written) q))
              | inr other ↦ h.held k u c (ground (arith, lookup-insert v.id k v r.vms)) q
            ])
    ]

-- The same, but for the VM `id`.
pub record IsHeldBut (id : Text) (r : Repo) : Type 0 where
  pub wf : IsWf r
  pub held :
      (k : Text) (v : Vm) (c : Text)
      → text_eq id k ≡ false
      → lookup k r.vms ≡ some v
      → v.chat_id ≡ some c
      → Leased k c r

release_vms : (id : Text) (r : Repo) → (release_active_lease_by_vm id r).vms ≡ r.vms
unfolding release_active_lease_by_vm
release_vms id r = ground arith

release_other :
    (id k : Text) (r : Repo)
    → text_eq id k ≡ false
    → lookup k (release_active_lease_by_vm id r).leases ≡ lookup k r.leases
unfolding release_active_lease_by_vm
release_other id k r other = ground (arith, lookup-remove id k r.leases)

pub release-IsHeldBut :
    (id : Text) (r : Repo) → IsHeld r → IsHeldBut id (release_active_lease_by_vm id r)
release-IsHeldBut id r h = record {
  wf = release-IsWf id r h.wf;
  held = λ k v c other e q.
      let (l, at, chat) = h.held k v c (rw (sym (release_vms id r)) e) q in
      (l, rw (release_other id k r other) at, chat);
}

pub release_ip-IsHeldBut :
    (id : Text) (r : Repo) → IsHeldBut id r → IsHeldBut id (release_ip_address id r)
unfolding release_ip_address
release_ip-IsHeldBut id r h = elim (Option-cases (lookup id r.vms)) [
  | inl gone ↦ rw (gone, release_ip_address) h
  | inr (v, at) ↦
      let v' : Vm = record v { ip_address = none } in
      rw (at, release_ip_address)
        (record {
          wf = record {
            keyed =
                All-insert IsKeyed id v' r.vms (All-lookup IsKeyed id v r.vms h.wf.keyed at)
                  h.wf.keyed;
            distinct = Distinct-insert id v' r.vms h.wf.distinct;
            open_leases = h.wf.open_leases;
            one_lease = h.wf.one_lease;
          };
          held =
              λ k u c other e q. h.held k u c other (ground (arith, lookup-insert id k v' r.vms)) q;
        })
]

-- Writing the VM without a chat.
pub unbind-IsHeld :
    (v : Vm) (r : Repo) → IsHeldBut v.id r → v.chat_id ≡ none → IsHeld (after r (update v r))
unfolding update
unbind-IsHeld v r h free = record { wf = update-IsWf v r h.wf; held = holds }
  where
    holds :
        (k : Text) (u : Vm) (c : Text)
        → lookup k (after r (update v r)).vms ≡ some u
        → u.chat_id ≡ some c
        → Leased k c (after r (update v r))
    holds k u c e q = elim (Option-cases (lookup v.id r.vms)) [
      | inl gone ↦
          rw (gone, update, after)
            (elim (Bool-cases (text_eq v.id k)) [
              | inl same ↦ absurd (ground (arith, text_eq_iff v.id k))
              | inr other ↦ h.held k u c other (ground arith) q
            ])
      | inr (old, at) ↦
          rw (at, update, after)
            (elim (Bool-cases (text_eq v.id k)) [
              | inl same ↦ absurd (ground (arith, lookup-insert v.id k v r.vms))
              | inr other ↦ h.held k u c other (ground (arith, lookup-insert v.id k v r.vms)) q
            ])
    ]

pub delete-IsHeld : (id : Text) (r : Repo) → IsHeld r → IsHeld (after r (delete id r))
unfolding delete
delete-IsHeld id r h = elim (Option-cases (lookup id r.vms)) [
  | inl gone ↦ rw (gone, delete, after) h
  | inr (old, at) ↦ record {
    wf = delete-IsWf id r h.wf;
    held = λ k u c e q.
        rw (at, delete, after) (h.held k u c (ground (arith, lookup-remove id k r.vms)) q);
  }
]

pub assign-IsHeld :
    (id chat : Text) (deadline : Option ℕ) (now : ℕ) (stamp : Stamp) (r : Repo)
    → IsHeld r
    → IsHeld (after_assign r (assign_to_chat_if_available id chat deadline now stamp r))
assign-IsHeld id chat deadline now stamp r h = elim (assign_cases id chat deadline now stamp r) [
  | inl (_, refused) ↦ rw (refused, after_assign) h
  | inr (inl (_, _, _, refused)) ↦ rw (refused, after_assign) h
  | inr (inr (u, w, r', found, free, done, shape, vms, leases)) ↦ record {
    wf = assign-IsWf id chat deadline now stamp r h.wf;
    held = λ k v c e q.
        rw (done, after_assign)
          (step k v c r' w vms leases (rw (done, after_assign) at e) q (ground arith));
  }
]
  where
    step :
        (k : Text) (v : Vm) (c : Text) (r' : Repo) (w : Vm)
        → ((j : Text) → lookup j r'.vms ≡ (if text_eq id j then some w else lookup j r.vms))
        → ((j : Text)
            → lookup j r'.leases
              ≡ (if text_eq id j then some (new_lease id chat stamp) else lookup j r.leases))
        → lookup k r'.vms ≡ some v
        → v.chat_id ≡ some c
        → w.chat_id ≡ some chat
        → Leased k c r'
    step k v c r' w vms leases e q bound = elim (Bool-cases (text_eq id k)) [
      | inl same ↦ (new_lease id chat stamp, ground (arith, leases k), ground (arith, vms k))
      | inr other ↦
          let (l, at, chat') = h.held k v c (ground (arith, vms k)) q in
          (l, ground (arith, leases k), chat')
    ]

-- Of the copies that a pass has read, each bound one is leased.
pub copies-Leased :
    (p : Vm → Bool) (r : Repo)
    → IsHeld r
    → All (λ v. (c : Text) → v.chat_id ≡ some c → Leased v.id c r) (select p (values r.vms))
copies-Leased p r h =
    All-mono (λ v. ((c : Text) → v.chat_id ≡ some c → Leased v.id c r) × (p v ≡ true)) Bound
      (λ v q. q.0) (select p (values r.vms))
      (All-select Bound p (values r.vms) (
        All-values Bound r.vms (
          All-mono (λ e. (e.1.id ≡ e.0) × (lookup e.0 r.vms ≡ some e.1)) (λ e. Bound e.1)
            (λ e q c b. subst (λ j. Leased j c r) (sym q.0) (h.held e.0 e.1 c q.1 b)) r.vms
            (All-both IsKeyed (λ e. lookup e.0 r.vms ≡ some e.1) r.vms h.wf.keyed
              (entries_found r.vms h.wf.distinct)))))
  where
    Bound : Vm → Type 0
    Bound v = (c : Text) → v.chat_id ≡ some c → Leased v.id c r
