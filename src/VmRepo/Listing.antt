-- ===== src/VmRepo/Listing.antt =====
-- What the list queries of src/repository/memory/vm.go return.
use mathlib.Core.List.{Perm}
use spacetrek.Prelude.{
  ℕ, ◌+◌, ◌≤◌, ◌<◌, ◌≡◌, refl, true, false, ◌&&◌, List, [], ◌∷◌, Text, text_eq, text_eq_iff, values,
  length, arith, All, All-sort_by, sort_by-perm, length-sort_by, sort_by-IsSortedBy, IsSortedBy,
  select,
}
use spacetrek.Vm.{Vm, is_available}
use spacetrek.VmRepo.{Repo}
use spacetrek.VmRepo.Queries.{newer, older, list, take_available, get_available_pool}

newer_asym : (x y : Vm) → newer x y ≡ true → newer y x ≡ false
newer_asym x y h = ground arith

newer_trans : (x y z : Vm) → newer y x ≡ false → newer z y ≡ false → newer z x ≡ false
newer_trans x y z h k = ground arith

older_asym : (x y : Vm) → older x y ≡ true → older y x ≡ false
older_asym x y h = ground arith

older_trans : (x y z : Vm) → older y x ≡ false → older z y ≡ false → older z x ≡ false
older_trans x y z h k = ground arith

-- List returns every VM of the repository, as often as it stands there, the newest first.
pub list_lem : (r : Repo) → Perm (list r) (values r.vms) × IsSortedBy newer (list r)
unfolding list
list_lem r = (
  sort_by-perm newer (values r.vms),
  sort_by-IsSortedBy newer newer_asym newer_trans (values r.vms),
)

abbrev pub IsPooled : Text → Vm → Type 0
IsPooled provider v = (v.provider ≡ provider) × (is_available v ≡ true)

take_available-IsPooled :
    (provider : Text) (limit n : ℕ) (vs : List Vm)
    → All (IsPooled provider) (take_available provider limit n vs)
unfolding take_available
take_available-IsPooled provider limit n [] = tt
take_available-IsPooled provider limit n (v ∷ vs) = ground (
  arith,
  text_eq_iff v.provider provider,
  take_available-IsPooled provider limit (n + 1) vs,
  take_available-IsPooled provider limit n vs,
)

length-take_available :
    (provider : Text) (limit n : ℕ) (vs : List Vm)
    → n < limit
    → n + length (take_available provider limit n vs) ≤ limit
unfolding take_available
length-take_available provider limit n [] h = omega arith
length-take_available provider limit n (v ∷ vs) h = ground (
  arith,
  length-take_available provider limit (n + 1) vs,
  length-take_available provider limit n vs,
)

-- With no limit nothing is left out.
take_available_all :
    (provider : Text) (n : ℕ) (vs : List Vm)
    → take_available provider 0 n vs
      ≡ select (λ v. text_eq v.provider provider && is_available v) vs
unfolding take_available
take_available_all provider n [] = refl
take_available_all provider n (v ∷ vs) =
    ground (arith, take_available_all provider (n + 1) vs, take_available_all provider n vs)

take_available_some :
    (provider : Text) (limit n : ℕ) (vs : List Vm)
    → take_available provider limit n vs ≡ []
    → select (λ v. text_eq v.provider provider && is_available v) vs ≡ []
unfolding take_available
take_available_some provider limit n [] h = refl
take_available_some provider limit n (v ∷ vs) h =
    ground (arith, take_available_some provider limit n vs)

-- GetAvailablePool returns available VMs of the provider only, the oldest first, at most as many as a
-- positive limit says, and none only if the repository has none; with the limit 0 it returns them all.
pub get_available_pool_lem :
    (provider : Text) (limit : ℕ) (r : Repo)
    → let pool = get_available_pool provider limit r in
      let all = select (λ v. text_eq v.provider provider && is_available v) (values r.vms) in
      All (IsPooled provider) pool
      × IsSortedBy older pool
      × (0 < limit → length pool ≤ limit)
      × (length pool ≡ 0 → all ≡ [])
      × (limit ≡ 0 → Perm pool all)
unfolding get_available_pool
get_available_pool_lem provider limit r =
    let taken = take_available provider limit 0 (values r.vms) in
    let size = length-sort_by older taken in
    (
      All-sort_by (IsPooled provider) older taken
          (take_available-IsPooled provider limit 0 (values r.vms)),
      sort_by-IsSortedBy older older_asym older_trans taken,
      λ h. omega (arith, size, length-take_available provider limit 0 (values r.vms) h),
      λ h. take_available_some provider limit 0 (values r.vms) (empty taken (omega (arith, size))),
      λ h. rw h (
          rw (← take_available_all provider 0 (values r.vms))
            (sort_by-perm older (take_available provider 0 0 (values r.vms)))),
    )
  where
    empty : (xs : List Vm) → length xs ≡ 0 → xs ≡ []
    empty [] e = refl
    empty (x ∷ xs) e = absurd (omega arith)
