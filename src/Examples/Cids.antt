-- ===== src/Examples/Cids.antt =====
-- Runs of src/infrastructure/vm/firecracker/cid_allocator.go.
use spacetrek.Prelude.{
  ℕ, ◌≡◌, refl, ◌≢◌, ◌≤◌, ◌<◌, ◌⊎◌, true, false, [], ◌∷◌, some, codes, arith, ◌==◌, if◌then◌else◌,
  All, text_eq,
}
use spacetrek.Fnv.{fnv1a32}
use spacetrek.Cid.{
  ok, err, none_available, CidInUse, hash_vm_id, candidate, probe, allocate_cid, resolve_guest_cid,
}
use spacetrek.Cid.Probe.{allocate_cid_finds}
use spacetrek.Cid.Resolve.{IsUnshared, resolve_guest_cid-ok, all_but_one, wide_range_misses}

hash_of_a : fnv1a32 (codes "a") ≡ 0xe40c292c
unfolding fnv1a32
hash_of_a = refl

-- All but the CID 5.
abbrev five_free : CidInUse
five_free c = some (if c == 5 then false else true)

allocated : allocate_cid (codes "vm-1") 3 6 (some five_free) ≡ ok 5
unfolding allocate_cid probe candidate fnv1a32
allocated = refl

allocate_cid_finds_example :
    (found : ℕ) × (allocate_cid (codes "vm-1") 3 6 (some five_free) ≡ ok found)
allocate_cid_finds_example =
    allocate_cid_finds (codes "vm-1") 3 6 5 five_free refl (omega arith) (omega arith) (omega arith)
      (λ c e. cc) (omega arith) (omega arith) refl

-- No CID is requested, and 4 and 6 are in use.
resolved : resolve_guest_cid 3 6 ((codes "vm-2", 4) ∷ []) (some (6 ∷ [])) (codes "vm-1") 0 ≡ ok 5
unfolding resolve_guest_cid allocate_cid probe candidate fnv1a32 text_eq
resolved = refl

resolve_guest_cid-ok_example :
    IsUnshared (codes "vm-1") 5 ((codes "vm-2", 4) ∷ [])
    × All {A = ℕ} (λ x. x ≢ 5) (6 ∷ [])
    × (((0 < 0) × (◌≡◌ {A = ℕ} 5 0)) ⊎ ((◌≡◌ {A = ℕ} 0 0) × (3 ≤ 5) × (5 ≤ 6)))
resolve_guest_cid-ok_example =
    resolve_guest_cid-ok 3 6 ((codes "vm-2", 4) ∷ []) (6 ∷ []) (codes "vm-1") 0 5 (omega arith)
      resolved

unlucky : hash_vm_id (codes "yqhabrl") ≡ 4294967292
unfolding hash_vm_id fnv1a32
unlucky = refl

wide_range_misses_example :
    allocate_cid (codes "yqhabrl") 3 4294967295 (some all_but_one)
    ≡ err (none_available 3 4294967295)
wide_range_misses_example = wide_range_misses (codes "yqhabrl") refl unlucky
