-- ===== src/Service/Ips.antt =====
-- IP addresses: IPAllocator of src/service/vm/service.go, with the queries on addresses of
-- src/repository/postgres/vm.go over the repository in memory. An address is the list of its bytes;
-- `show` is its `String`.
pub mod Order
pub mod Free
pub mod Distinct
use spacetrek.Prelude.{
  ℕ, zero, suc, ◌+◌, ◌*◌, ◌%◌, Bool, true, false, not, ◌&&◌, List, [], ◌∷◌, Option, none, some,
  is_some, Text, text_eq, lookup, insert, values, ◌==◌, if◌then◌else◌,
}
use spacetrek.Exception.{AppError, internal, Result, ok, err, ◌>>=◌}
use spacetrek.Vm.{Vm, terminated, status_eq}
use spacetrek.VmRepo.{Repo, vm_missing}

abbrev pub Ip : Type 0
Ip = List ℕ

-- The bytes with one added, and whether the carry has run through all of them.
unfoldable pub carry : Ip → Ip × Bool
carry [] = ([], true)
carry (b ∷ bs) =
    let (rest, c) = carry bs in
    if c then (((b + 1) % 256) ∷ rest, b + 1 == 256) else (b ∷ rest, false)

-- `nextIP`
unfoldable pub next_ip : Ip → Ip
unfolding carry
next_ip ip = (carry ip).0

unfoldable pub ip_eq : Ip → Ip → Bool
ip_eq a b = text_eq a b

-- The addresses of the VMs that are not terminated.
abbrev pub is_live : Vm → Bool
is_live v = not (status_eq v.status terminated)

unfoldable pub addresses : List Vm → List Text
addresses [] = []
addresses (v ∷ vs) =
    let rest = addresses vs in
    elim v.ip_address [ none ↦ rest | some ip ↦ if is_live v then ip ∷ rest else rest ]

unfoldable pub get_allocated_ips : Repo → List Text
unfolding addresses
get_allocated_ips r = addresses (values r.vms)

unfoldable pub set_ip_address : Text → Text → Repo → Result Repo
set_ip_address id ip r = elim (lookup id r.vms) [
  | none ↦ err (vm_missing id)
  | some v ↦ ok (record r { vms = insert id (record v { ip_address = some ip }) r.vms })
]

unfoldable pub in_use : Text → List Text → Bool
in_use ip [] = false
in_use ip (x ∷ xs) = if text_eq x ip then true else in_use ip xs

-- The walk from an address to the last one: `none` when the fuel runs out, else a free address.
unfoldable pub find_free : ℕ → (Ip → Text) → List Text → Ip → Ip → Option (Option Ip)
find_free zero show used ip end = none
find_free (suc fuel) show used ip end =
    let rest = find_free fuel show used (next_ip ip) end in
    if ip_eq ip end
    then some (if in_use (show end) used then none else some end)
    else if in_use (show ip) used
    then rest
    else some (some ip)

unfoldable pub allocate : ℕ → (Ip → Text) → Ip → Ip → Text → Repo → Option (Result (Text × Repo))
allocate fuel show ip_start ip_end id r =
    elim (find_free fuel show (get_allocated_ips r) ip_start ip_end) [
      | none ↦ none
      | some none ↦ some (err internal)
      | some (some ip) ↦ some (set_ip_address id (show ip) r >>= λ r'. ok (show ip, r'))
    ]
