-- ===== src/VmRepo/Leasing.antt =====
-- The atomic claim of a VM by a chat: AssignToChatIfAvailable of src/repository/memory/vm.go.
use spacetrek.Prelude.{
  ℕ, ◌≡◌, refl, ◌⊎◌, inl, inr, true, false, List, [], ◌∷◌, Option, none, some, Option-cases,
  Bool-cases, Text, text_eq, text_eq_iff, text_eq_refl, lookup, insert, if◌then◌else◌,
  lookup-insert, arith, codes,
}
use spacetrek.Exception.{ok, err, bad_request}
use spacetrek.Vm.{Vm, running, is_available, assign_to}
use spacetrek.VmRepo.{Repo, vm_missing, assign_to_chat_if_available, new_lease}
use spacetrek.VmRepo.Laws.{after_assign}
use spacetrek.VmRepo.{Stamp}

module _ (id chat : Text) (deadline : Option ℕ) (now : ℕ) (stamp : Stamp) (r : Repo) where
  -- The outcomes of a claim: a missing VM, a VM that is not available, or the claim made.
  abbrev pub ClaimOutcome : Type 0
  ClaimOutcome =
      ((lookup id r.vms ≡ none)
        × (assign_to_chat_if_available id chat deadline now stamp r ≡ err (vm_missing id)))
      ⊎ ((v : Vm) × (lookup id r.vms ≡ some v)
          × (is_available v ≡ false)
          × (assign_to_chat_if_available id chat deadline now stamp r
              ≡ err (bad_request (codes "VM is not available"))))
      ⊎ ((v w : Vm) × (r' : Repo) × (lookup id r.vms ≡ some v)
          × (is_available v ≡ true)
          × (assign_to_chat_if_available id chat deadline now stamp r ≡ ok (w, r'))
          × (w ≡ record v {
            status = running;
            chat_id = some chat;
            assigned_at = some now;
            idle_deadline_at = deadline;
          })
          × ((k : Text) → lookup k r'.vms ≡ (if text_eq id k then some w else lookup k r.vms))
          × ((k : Text)
              → lookup k r'.leases
                ≡ (if text_eq id k then some (new_lease id chat stamp) else lookup k r.leases)))

  -- A claim succeeds exactly on an available VM: then the VM runs bound to the chat with the deadline
  -- given, its lease is the new one, and no other VM and no other lease is touched. A missing VM and
  -- a VM that is not available are told apart, and change nothing.
  pub assign_cases : ClaimOutcome
  unfolding assign_to_chat_if_available assign_to
  assign_cases = elim (Option-cases (lookup id r.vms)) [
    | inl e ↦ inl (e, ground arith)
    | inr (v, e) ↦ elim (Bool-cases (is_available v)) [
      | inl free ↦
          let bound = assign_to chat now v in
          let w : Vm = record bound { idle_deadline_at = deadline } in
          inr (
            inr (
              v,
              w,
              record {
                vms = insert id w r.vms;
                leases = insert id (new_lease id chat stamp) r.leases;
              },
              e,
              free,
              ground arith,
              refl,
              λ k. lookup-insert id k w r.vms,
              λ k. lookup-insert id k (new_lease id chat stamp) r.leases,
            ))
      | inr held ↦ inr (inl (v, e, held, ground arith))
    ]
  ]

-- The VM `id` is bound to the chat.
abbrev pub IsBound : Text → Text → Repo → Type 0
IsBound id chat r = (v : Vm) × (lookup id r.vms ≡ some v) × (v.chat_id ≡ some chat)

-- One claim, with the time at which it is made.
pub record Claim : Type 0 where
  pub vm : Text
  pub chat : Text
  pub deadline : Option ℕ
  pub now : ℕ
  pub stamp : Stamp

unfoldable pub claim : Repo → Claim → Repo
claim r c = after_assign r (assign_to_chat_if_available c.vm c.chat c.deadline c.now c.stamp r)

unfoldable pub claims : Repo → List Claim → Repo
claims r [] = r
claims r (c ∷ cs) = claims (claim r c) cs

bound_not_available : (v : Vm) (chat : Text) → v.chat_id ≡ some chat → is_available v ≡ false
unfolding is_available
bound_not_available v chat h = ground arith

claim-IsBound :
    (id chat : Text) (r : Repo) (c : Claim) → IsBound id chat r → IsBound id chat (claim r c)
unfolding claim
claim-IsBound id chat r c (v, e, b) = elim (assign_cases c.vm c.chat c.deadline c.now c.stamp r) [
  | inl (_, refused) ↦ (v, ground arith, b)
  | inr (inl (_, _, _, refused)) ↦ (v, ground arith, b)
  | inr (inr (u, w, r', found, free, done, _, vms, _)) ↦
      (v, ground (arith, vms id, text_eq_iff c.vm id, bound_not_available v chat b), b)
]

claims-IsBound :
    (id chat : Text) (r : Repo) (cs : List Claim)
    → IsBound id chat r
    → IsBound id chat (claims r cs)
unfolding claims
claims-IsBound id chat r [] h = h
claims-IsBound id chat r (c ∷ cs) h =
    claims-IsBound id chat (claim r c) cs (claim-IsBound id chat r c h)

-- Once a chat has claimed a VM, it keeps it through any sequence of claims by whichever chats, and
-- another claim of that VM is refused as one of a VM that is not available.
pub claim_exclusive :
    (id chat : Text) (deadline : Option ℕ) (now : ℕ) (stamp : Stamp) (r r' : Repo) (v : Vm)
    (cs : List Claim) (c : Claim)
    → assign_to_chat_if_available id chat deadline now stamp r ≡ ok (v, r')
    → c.vm ≡ id
    → IsBound id chat (claims r' cs)
      × (assign_to_chat_if_available c.vm c.chat c.deadline c.now c.stamp (claims r' cs)
          ≡ err (bad_request (codes "VM is not available")))
claim_exclusive id chat deadline now stamp r r' v cs c won same =
    let kept = claims-IsBound id chat r' cs first in (kept, refused kept)
  where
    first : IsBound id chat r'
    first = elim (assign_cases id chat deadline now stamp r) [
      | inl (_, denied) ↦ absurd (ground arith)
      | inr (inl (_, _, _, denied)) ↦ absurd (ground arith)
      | inr (inr (u, w, r'', _, _, done, shape, vms, _)) ↦
          (w, ground (arith, vms id, text_eq_refl id), ground arith)
    ]

    refused :
        IsBound id chat (claims r' cs)
        → assign_to_chat_if_available c.vm c.chat c.deadline c.now c.stamp (claims r' cs)
          ≡ err (bad_request (codes "VM is not available"))
    refused (u, e, b) = elim (assign_cases c.vm c.chat c.deadline c.now c.stamp (claims r' cs)) [
      | inl (gone, _) ↦ absurd (ground arith)
      | inr (inl (_, _, _, denied)) ↦ denied
      | inr (inr (u', _, _, found, free, _, _, _, _)) ↦
          absurd (ground (arith, bound_not_available u chat b))
    ]
