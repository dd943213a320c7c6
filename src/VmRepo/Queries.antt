-- ===== src/VmRepo/Queries.antt =====
-- The queries of src/repository/memory/vm.go.
use spacetrek.Prelude.{
  ℕ, ◌+◌, Bool, true, false, not, ◌&&◌, ◌||◌, List, [], ◌∷◌, Option, none, some, Text, codes,
  text_eq, lookup, values, select, sort_by, ltb, leb, ◌==◌, if◌then◌else◌, is_some,
}
use spacetrek.Exception.{AppError, not_found, Result, ok, err, or_err}
use spacetrek.Vm.{Vm, ready, idle, terminated, status_eq, is_available}
use spacetrek.Vm.Name.{lower_all}
use spacetrek.Vm.State.{is_active}
use spacetrek.VmRepo.{Repo, Lease}

-- Case folding as `strings.EqualFold` sees it on names of ASCII letters: U+212A and U+017F are the
-- only other runes that fold to one.
unfoldable pub fold_rune : ℕ → ℕ
fold_rune c =
    if leb b'A' c && leb c b'Z'
    then c + 32
    else if c == 0x212A
    then b'k'
    else if c == 0x17F
    then b's'
    else c

unfoldable pub equal_fold : Text → Text → Bool
unfolding fold_rune
equal_fold [] [] = true
equal_fold [] (b ∷ bs) = false
equal_fold (a ∷ as') [] = false
equal_fold (a ∷ as') (b ∷ bs) = if fold_rune a == fold_rune b then equal_fold as' bs else false

module _ {ℓ} {A : Type ℓ} where
  -- The first entry that a loop returns.
  unfoldable pub first : (A → Bool) → List A → Option A
  first p [] = none
  first p (x ∷ xs) = if p x then some x else first p xs

unfoldable pub get_by_name : Text → Repo → Result Vm
unfolding first equal_fold
get_by_name name r =
    or_err (first (λ v. equal_fold v.name (lower_all name)) (values r.vms))
      (not_found (codes "vm name") name)

abbrev pub newer : Vm → Vm → Bool
newer a b = ltb b.created_at a.created_at

abbrev pub older : Vm → Vm → Bool
older a b = ltb a.created_at b.created_at

unfoldable pub list : Repo → List Vm
list r = sort_by newer (values r.vms)

-- The loop with its `break`: `n` VMs are taken so far.
unfoldable pub take_available : Text → ℕ → ℕ → List Vm → List Vm
take_available provider limit n [] = []
take_available provider limit n (v ∷ vs) =
    let hit = text_eq v.provider provider && is_available v in
    let rest = take_available provider limit (if hit then n + 1 else n) vs in
    if hit then (if ltb 0 limit && leb limit (n + 1) then v ∷ [] else v ∷ rest) else rest

-- `limit` is not negative.
unfoldable pub get_available_pool : Text → ℕ → Repo → List Vm
unfolding take_available
get_available_pool provider limit r = sort_by older (take_available provider limit 0 (values r.vms))

unfoldable pub get_by_environment_id : Text → Repo → List Vm
get_by_environment_id env r = select (λ v. text_eq v.environment_id env) (values r.vms)

abbrev pub holds_chat : Text → Vm → Bool
holds_chat chat v = elim v.chat_id [ none ↦ false | some c ↦ text_eq c chat ]

unfoldable pub get_by_chat_id : Text → Repo → Result Vm
unfolding first
get_by_chat_id chat r =
    or_err (first (holds_chat chat) (values r.vms)) (not_found (codes "vm chat") chat)

unfoldable pub get_active_vms : Repo → List Vm
get_active_vms r = select (λ v. is_active v.status) (values r.vms)

unfoldable pub get_active_by_user_id : Text → Repo → List Vm
get_active_by_user_id user r = select (λ v. is_active v.status) (values r.vms)

unfoldable pub get_all_by_user_id : Text → Repo → List Vm
get_all_by_user_id user r = values r.vms

abbrev pub later : Lease → Lease → Bool
later a b = ltb b.leased_at a.leased_at

-- The chat's leases, the latest first.
unfoldable pub leases_of : Text → Repo → List Lease
leases_of chat r = sort_by later (select (λ l. text_eq l.chat_id chat) (values r.leases))

-- The VMs of leases that pass a test, in order.
unfoldable pub leased_vms : (Vm → Bool) → Repo → List Lease → List Vm
leased_vms p r [] = []
leased_vms p r (l ∷ ls) =
    let rest = leased_vms p r ls in
    elim (lookup l.vm_id r.vms) [ none ↦ rest | some v ↦ if p v then v ∷ rest else rest ]

module _ {ℓ} {A : Type ℓ} where
  unfoldable pub head_or_err : List A → AppError → Result A
  head_or_err [] e = err e
  head_or_err (x ∷ xs) e = ok x

unfoldable pub get_by_environment_and_chat_id : Text → Text → Repo → Result Vm
unfolding leases_of leased_vms head_or_err
get_by_environment_and_chat_id env chat r =
    head_or_err
      (leased_vms (λ v. text_eq v.environment_id env && not (status_eq v.status terminated)) r
        (leases_of chat r))
      (not_found (codes "vm by environment and chat") env)

unfoldable pub list_active_leases_by_chat : Text → Repo → List Lease
list_active_leases_by_chat chat r =
    sort_by later
      (select (λ l. text_eq l.chat_id chat && not (is_some l.released_at)) (values r.leases))

-- Idle or ready, and bound to no chat.
abbrev pub can_resume : Vm → Bool
can_resume v = (status_eq v.status idle || status_eq v.status ready) && not (is_some v.chat_id)

unfoldable pub list_previous_leases_for_chat : Text → Repo → List Vm
unfolding leases_of leased_vms
list_previous_leases_for_chat chat r = leased_vms can_resume r (leases_of chat r)

unfoldable pub find_previous_lease_for_chat : Text → Repo → Result Vm
unfolding leases_of leased_vms head_or_err
find_previous_lease_for_chat chat r =
    head_or_err (leased_vms can_resume r (leases_of chat r))
      (not_found (codes "previous vm for chat") chat)
