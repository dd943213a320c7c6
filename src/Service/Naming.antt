-- ===== src/Service/Naming.antt =====
-- Unique names: resolveUniqueName of src/service/vm/service.go, with the suffixed names of
-- src/core/domain/vm/naming/generator.go. What the n-th call of Generate draws is an argument.
use spacetrek.Prelude.{
  ℕ, zero, suc, ◌+◌, ◌/◌, ◌%◌, ◌≡◌, refl, ◌⊎◌, inl, inr, Bool, false, List, [], ◌∷◌, ◌++◌, none,
  some, Text, codes, get_elem?, if◌then◌else◌, arith, All, Bool-cases,
}
use spacetrek.Exception.{AppError, conflict, Result, ok, err, Result-cases}
use spacetrek.Fnv.{fnv1a32}
use spacetrek.Vm.{Vm}
use spacetrek.VmRepo.{Repo}
use spacetrek.VmRepo.Queries.{get_by_name}

-- The base-32 letter of the lowest five bits.
unfoldable pub letter : ℕ → ℕ
letter v = elim (get_elem? (codes "abcdefghijklmnopqrstuvwxyz234567") (v % 32)) [
  | none ↦ 0
  | some c ↦ c
]

unfoldable pub suffix : Text → Text
unfolding letter
suffix seed =
    let v = fnv1a32 seed in letter (v / 32768) ∷ letter (v / 1024) ∷ letter (v / 32) ∷ letter v ∷ []

unfoldable pub generate_with_suffix : Text → Text → Text
unfolding suffix
generate_with_suffix generated seed = generated ++ b'-' ∷ suffix seed

abbrev pub name_collision_retries : ℕ
name_collision_retries = 5

-- The rounds that are left, and the number of names drawn so far.
unfoldable pub retry_name : (ℕ → Text) → ℕ → ℕ → Vm → Repo → Vm
retry_name generated zero n vm r = record vm { name = generate_with_suffix (generated n) vm.id }
retry_name generated (suc left) n vm r = elim (get_by_name vm.name r) [
  | err e ↦ vm
  | ok existing ↦ retry_name generated left (n + 1) (record vm { name = generated n }) r
]

unfoldable pub resolve_unique_name : (ℕ → Text) → Bool → Vm → Repo → Result Vm
unfolding retry_name
resolve_unique_name generated explicit vm r =
    let generic = retry_name generated name_collision_retries 0 vm r in
    if explicit
    then elim (get_by_name vm.name r) [
      | ok existing ↦ err (conflict (codes "vm name already in use"))
      | err e ↦ ok vm
    ]
    else ok generic

-- No VM of the repository answers to the name, or one does.
abbrev pub IsFree : Text → Repo → Type 0
IsFree name r = (e : AppError) × (get_by_name name r ≡ err e)

abbrev pub IsTaken : Repo → Text → Type 0
IsTaken r name = (u : Vm) × (get_by_name name r ≡ ok u)

-- The names that the rounds try.
abbrev pub tried : (ℕ → Text) → ℕ → ℕ → Text → List Text
tried generated zero n name = []
tried generated (suc left) n name = name ∷ tried generated left (n + 1) (generated n)

retry_name_lem :
    (generated : ℕ → Text) (left n : ℕ) (vm : Vm) (r : Repo)
    → let v = retry_name generated left n vm r in
      (v ≡ record vm { name = v.name })
      × (IsFree v.name r
          ⊎ ((v.name ≡ generate_with_suffix (generated (n + left)) vm.id)
              × All (IsTaken r) (tried generated left n vm.name)))
unfolding retry_name
retry_name_lem generated zero n vm r = (refl, inr (ground arith, tt))
retry_name_lem generated (suc left) n vm r = elim (Result-cases (get_by_name vm.name r)) [
  | inr (e, free) ↦ rw (free, retry_name) (refl, inl (e, free))
  | inl (u, taken) ↦
      let (same, rest) =
        retry_name_lem generated left (n + 1) (record vm { name = generated n }) r in
      let count : (n + 1) + left ≡ n + suc left = omega arith in
      rw (taken, retry_name)
        (
          ground (arith, same),
          (elim rest [
            | inl free ↦ inl free
            | inr (fallback, all) ↦ inr (rw count at fallback, ((u, refl), all))
          ]),
        )
]

-- A name that resolveUniqueName settles on is the only field that it changes, and it is free in the
-- repository, or else five names were taken, the name was not asked for, and it is the sixth drawn
-- name with the suffix of the VM's id, whether that is free or not.
pub resolve_unique_name_lem :
    (generated : ℕ → Text) (explicit : Bool) (vm v : Vm) (r : Repo)
    → resolve_unique_name generated explicit vm r ≡ ok v
    → (v ≡ record vm { name = v.name })
      × (IsFree v.name r
          ⊎ ((explicit ≡ false)
              × (v.name ≡ generate_with_suffix (generated 5) vm.id)
              × All (IsTaken r) (tried generated 5 0 vm.name)))
unfolding resolve_unique_name
resolve_unique_name_lem generated explicit vm v r e = elim (Bool-cases explicit) [
  | inl asked ↦ elim (Result-cases (get_by_name vm.name r)) [
    | inl (u, taken) ↦ absurd (ground arith)
    | inr (x, free) ↦ let same : v ≡ vm = ground arith in rw same (refl, inl (x, free))
  ]
  | inr drawn ↦
      let same : v ≡ retry_name generated 5 0 vm r = ground arith in
      let (shape, rest) = retry_name_lem generated 5 0 vm r in
      rw same (
        shape,
        (elim rest [ inl free ↦ inl free | inr (fallback, all) ↦ inr (drawn, fallback, all) ]),
      )
]
