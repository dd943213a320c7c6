-- ===== src/Cid.antt =====
-- Guest CIDs: src/infrastructure/vm/firecracker/cid_allocator.go, and resolveGuestCID of provider.go
-- beside it. CIDs are 32-bit words with their wrap-around. What the callback answers is an
-- argument; `none` is its error.
pub mod Probe
pub mod Resolve
use spacetrek.Prelude.{
  ℕ, zero, suc, ◌+◌, ◌-◌, ◌%◌, ◌<◌, ◌≡◌, Bool, true, false, List, [], ◌∷◌, Option, none, some, Text,
  text_eq, Dict, lookup, is_empty, ltb, ◌==◌, if◌then◌else◌,
}
use spacetrek.Fnv.{fnv1a32, u32_mod}

pub data CidError : Type 0 where
  vm_id_required min_too_small max_below_min callback_required : CidError
  check_failed : ℕ → CidError
  none_available : ℕ → ℕ → CidError
  scan_failed : CidError
  requested_in_use : ℕ → CidError

pub data Result {ℓ} (A : Type ℓ) : Type ℓ where
  ok : A → Result A
  err : CidError → Result A

abbrev pub CidInUse : Type 0
CidInUse = ℕ → Option Bool

-- uint32 addition and subtraction.
abbrev pub add32 : ℕ → ℕ → ℕ
add32 a b = (a + b) % u32_mod

abbrev pub sub32 : ℕ → ℕ → ℕ
sub32 a b = (a + u32_mod - b) % u32_mod

unfoldable pub hash_vm_id : Text → ℕ
hash_vm_id s = fnv1a32 s

unfoldable pub range_size : ℕ → ℕ → ℕ
range_size lo hi = add32 (sub32 hi lo) 1

unfoldable pub candidate : ℕ → ℕ → ℕ → ℕ → ℕ
candidate lo size start i = add32 lo (add32 (sub32 start lo) i % size)

-- The loop, from round `i` with `n` rounds left.
unfoldable pub probe : CidInUse → ℕ → ℕ → ℕ → ℕ → ℕ → ℕ → Result ℕ
probe in_use lo hi size start zero i = err (none_available lo hi)
probe in_use lo hi size start (suc n) i =
    let rest = probe in_use lo hi size start n (i + 1) in
    let c = candidate lo size start i in
    elim (in_use c) [ none ↦ err (check_failed c) | some true ↦ rest | some false ↦ ok c ]

unfoldable pub allocate_cid : Text → ℕ → ℕ → Option CidInUse → Result ℕ
unfolding hash_vm_id range_size
allocate_cid vm_id lo hi callback =
    if is_empty vm_id
    then err vm_id_required
    else if ltb lo 3
    then err min_too_small
    else if ltb hi lo
    then err max_below_min
    else elim callback [
      | none ↦ err callback_required
      | some in_use ↦
          let size = range_size lo hi in
          probe in_use lo hi size (add32 lo (hash_vm_id vm_id % size)) size 0
    ]

-- The running VMs' CIDs by VM id, the asking VM's own left out.
unfoldable pub running_uses : Text → ℕ → Dict ℕ → Bool
running_uses vm_id c [] = false
running_uses vm_id c ((id, used) ∷ vms) =
    let rest = running_uses vm_id c vms in
    if text_eq id vm_id then rest else if used == c then true else rest

unfoldable pub set_contains : ℕ → List ℕ → Bool
set_contains c [] = false
set_contains c (x ∷ xs) = if x == c then true else set_contains c xs

-- `inUse` of resolveGuestCID: it never fails.
unfoldable pub guest_cid_in_use : Text → Dict ℕ → List ℕ → CidInUse
unfolding running_uses set_contains
guest_cid_in_use vm_id vms persisted c =
    some (if running_uses vm_id c vms then true else set_contains c persisted)

-- `persisted` is what the scan of the other VMs' directories found; `none` is its error.
unfoldable pub resolve_guest_cid : ℕ → ℕ → Dict ℕ → Option (List ℕ) → Text → ℕ → Result ℕ
unfolding guest_cid_in_use
resolve_guest_cid lo hi vms none vm_id requested = err scan_failed
resolve_guest_cid lo hi vms (some persisted) vm_id requested =
    let in_use = guest_cid_in_use vm_id vms persisted in
    if ltb 0 requested
    then elim (in_use requested) [
      | none ↦ err (check_failed requested)
      | some true ↦ err (requested_in_use requested)
      | some false ↦ ok requested
    ]
    else allocate_cid vm_id lo hi (some in_use)
