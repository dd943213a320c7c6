-- ===== src/VmRepo.antt =====
-- The in-memory VM repository: src/repository/memory/vm.go. A method runs under the lock, so it is
-- one step; reads and writes copy the entity. A map's entries stand in the order of a range.
pub mod Queries
pub mod Laws
pub mod Leasing
pub mod Listing
pub mod Forgets
use spacetrek.Prelude.{
  ℕ, zero, suc, ◌+◌, Bool, true, false, not, ◌&&◌, ◌||◌, List, [], ◌∷◌, ◌++◌, Option, none, some,
  Text, codes, text_eq, Dict, lookup, insert, remove, values, ltb, leb, ◌==◌, if◌then◌else◌,
  is_some,
}
use spacetrek.Exception.{AppError, not_found, bad_request, Result, ok, err, ◌>>=◌, or_err}
use spacetrek.Vm.{Vm, is_available, assign_to}

-- src/core/domain/vm/lease.go
pub record Lease : Type 0 where
  pub id : Text
  pub chat_id : Text
  pub vm_id : Text
  pub leased_at : ℕ
  pub released_at : Option ℕ

pub record Repo : Type 0 where
  pub vms : Dict Vm
  pub leases : Dict Lease

abbrev pub new_repo : Repo
new_repo = record { vms = []; leases = [] }

abbrev pub vm_missing : Text → AppError
vm_missing id = not_found (codes "vm") id

unfoldable pub create : Vm → Repo → Repo
create vm r = record r { vms = insert vm.id vm r.vms }

unfoldable pub get_by_id : Text → Repo → Result Vm
get_by_id id r = or_err (lookup id r.vms) (vm_missing id)

unfoldable pub update : Vm → Repo → Result Repo
update vm r = elim (lookup vm.id r.vms) [
  | none ↦ err (vm_missing vm.id)
  | some old ↦ ok (record r { vms = insert vm.id vm r.vms })
]

unfoldable pub delete : Text → Repo → Result Repo
delete id r = elim (lookup id r.vms) [
  | none ↦ err (vm_missing id)
  | some old ↦ ok (record r { vms = remove id r.vms })
]

-- A reading of the clock, with its text in the format RFC3339Nano.
pub record Stamp : Type 0 where
  pub time : ℕ
  pub written : Text

abbrev pub new_lease : Text → Text → Stamp → Lease
new_lease vm_id chat stamp = record {
  id = vm_id ++ b':' ∷ stamp.written;
  chat_id = chat;
  vm_id = vm_id;
  leased_at = stamp.time;
  released_at = none;
}

-- The clock is read twice: at `now` for the VM, and at `stamp` for the lease.
unfoldable pub assign_to_chat_if_available :
    Text → Text → Option ℕ → ℕ → Stamp → Repo → Result (Vm × Repo)
assign_to_chat_if_available vm_id chat deadline now stamp r = elim (lookup vm_id r.vms) [
  | none ↦ err (vm_missing vm_id)
  | some vm ↦
      if not (is_available vm)
      then err (bad_request (codes "VM is not available"))
      else (let bound = assign_to chat now vm in
          let vm' : Vm = record bound { idle_deadline_at = deadline } in
          ok (
            vm',
            record {
              vms = insert vm_id vm' r.vms;
              leases = insert vm_id (new_lease vm_id chat stamp) r.leases;
            },
          ))
]

-- The released lease is stamped and dropped in one step.
unfoldable pub release_active_lease_by_vm : Text → Repo → Repo
release_active_lease_by_vm vm_id r = elim (lookup vm_id r.leases) [
  | none ↦ r
  | some lease ↦ record r { leases = remove vm_id r.leases }
]
