-- ===== src/Cid/Resolve.antt =====
-- What resolveGuestCID of provider.go promises, and what the allocator misses in very wide ranges.
use spacetrek.Prelude.{
  if◌then◌else◌, ◌==◌, ℕ, zero, suc, ◌+◌, ◌≤◌, ◌<◌, ◌≡◌, refl, ◌≢◌, ◌⊎◌, inl, inr, true, false,
  List, [], ◌∷◌, some, Text, is_empty, arith, ltb, All, Dict, text_eq_iff, Bool-cases,
}
use spacetrek.Fnv.{u32_mod}
use spacetrek.Cid.{
  ok, err, none_available, CidInUse, hash_vm_id, range_size, candidate, probe, allocate_cid,
  running_uses, set_contains, guest_cid_in_use, resolve_guest_cid,
}
use spacetrek.Cid.Probe.{allocate_cid-ok}

-- No other running VM has the CID `c`.
abbrev pub IsUnshared : Text → ℕ → Dict ℕ → Type 0
IsUnshared vm_id c vms = All (λ e. (e.0 ≡ vm_id) ⊎ (e.1 ≢ c)) vms

unshared :
    (vm_id : Text) (c : ℕ) (vms : Dict ℕ)
    → running_uses vm_id c vms ≡ false
    → IsUnshared vm_id c vms
unfolding running_uses
unshared vm_id c [] h = tt
unshared vm_id c ((id, used) ∷ vms) h = ground (arith, text_eq_iff id vm_id, unshared vm_id c vms)

absent : (c : ℕ) (xs : List ℕ) → set_contains c xs ≡ false → All (λ x. x ≢ c) xs
unfolding set_contains
absent c [] h = tt
absent c (x ∷ xs) h = ground (arith, absent c xs)

-- A guest CID that is resolved is no other running VM's and none that the scan of the other VMs'
-- directories found. Where a CID is requested, that is one above 0, it is the requested one; where none
-- is, it lies in the configured range.
pub resolve_guest_cid-ok :
    (lo hi : ℕ) (vms : Dict ℕ) (persisted : List ℕ) (vm_id : Text) (requested c : ℕ)
    → hi < u32_mod
    → resolve_guest_cid lo hi vms (some persisted) vm_id requested ≡ ok c
    → IsUnshared vm_id c vms
      × All (λ x. x ≢ c) persisted
      × (((0 < requested) × (c ≡ requested)) ⊎ ((requested ≡ 0) × (lo ≤ c) × (c ≤ hi)))
unfolding resolve_guest_cid guest_cid_in_use
resolve_guest_cid-ok lo hi vms persisted vm_id requested c b h =
    elim (Bool-cases (ltb 0 requested)) [
      | inl asked ↦ (
        ground (arith, unshared vm_id requested vms),
        ground (arith, absent requested persisted),
        ground arith,
      )
      | inr allocated ↦
          let (p, q, free) =
            allocate_cid-ok vm_id lo hi c (guest_cid_in_use vm_id vms persisted) b (ground arith) in
          (
            ground (arith, unshared vm_id c vms),
            ground (arith, absent c persisted),
            inr (ground arith, p, q),
          )
    ]

probe_none :
    (in_use : CidInUse) (lo hi size start n i : ℕ)
    → ((k : ℕ) → k < i + n → in_use (candidate lo size start k) ≡ some true)
    → probe in_use lo hi size start n i ≡ err (none_available lo hi)
unfolding probe
probe_none in_use lo hi size start zero i h = refl
probe_none in_use lo hi size start (suc n) i h = ground (
  arith,
  h i (omega arith),
  probe_none in_use lo hi size start n (i + 1) (λ k p. h k (omega arith)),
)

-- Only the CID 4294967294 is free.
abbrev pub all_but_one : CidInUse
all_but_one c = some (if c == 4294967294 then false else true)

missed : (k : ℕ) → k < 4294967293 → all_but_one (candidate 3 4294967293 4294967295 k) ≡ some true
unfolding candidate
missed k p = ground arith

-- In the widest range the sum of offsets wraps around 2^32: a VM whose hash leads to the last CID
-- never looks at the CID 4294967294, and the allocation fails although that CID is free.
pub wide_range_misses :
    (vm_id : Text)
    → is_empty vm_id ≡ false
    → hash_vm_id vm_id ≡ 4294967292
    → allocate_cid vm_id 3 4294967295 (some all_but_one) ≡ err (none_available 3 4294967295)
unfolding allocate_cid range_size
wide_range_misses vm_id named h =
    rw (named, h)
      (probe_none all_but_one 3 4294967295 4294967293 4294967295 4294967293 0
        (λ k p. missed k (omega arith)))
