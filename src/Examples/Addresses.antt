-- ===== src/Examples/Addresses.antt =====
-- Runs of the IP allocator: src/service/vm/service.go.
use spacetrek.Prelude.{
  ◌≡◌, refl, ◌≤◌, false, [], ◌∷◌, some, Text, codes, insert, lookup, text_eq, arith,
}
use spacetrek.Exception.{ok}
use spacetrek.VmRepo.{Repo}
use spacetrek.Service.Ips.{
  Ip, in_use, find_free, allocate, set_ip_address, get_allocated_ips, ip_eq,
}
use spacetrek.Service.Ips.Order.{IsBytes, value}
use spacetrek.Service.Ips.Free.{find_free_lem}
use spacetrek.Service.Ips.Distinct.{IsApart, allocate-IsApart}
use spacetrek.Examples.Repos.{box, one_box}

abbrev first : Ip
first = 10 ∷ 0 ∷ 0 ∷ 255 ∷ []

abbrev last : Ip
last = 10 ∷ 0 ∷ 1 ∷ 2 ∷ []

-- An address by its bytes.
abbrev raw : Ip → Text
raw ip = ip

first-IsBytes : IsBytes first
first-IsBytes = (ground arith, (ground arith, (ground arith, (ground arith, tt))))

last-IsBytes : IsBytes last
last-IsBytes = (ground arith, (ground arith, (ground arith, (ground arith, tt))))

unused : in_use (raw last) (first ∷ []) ≡ false
unfolding in_use text_eq
unused = refl

find_free_lem_example :
    (found : Ip) × (find_free 9 raw (first ∷ []) first last ≡ some (some found))
    × (in_use (raw found) (first ∷ []) ≡ false)
    × (value first ≤ value found)
    × (value found ≤ value last)
find_free_lem_example =
    find_free_lem 9 raw (first ∷ []) first last last first-IsBytes last-IsBytes last-IsBytes refl
      refl (ground arith) (ground arith) (ground arith) unused

abbrev addressed : Repo
addressed = record {
  vms = (codes "vm-1", record box { ip_address = some first }) ∷ [];
  leases = [];
}

given : allocate 9 raw first last (codes "vm-1") one_box ≡ some (ok (first, addressed))
unfolding allocate find_free ip_eq text_eq in_use get_allocated_ips set_ip_address lookup insert
given = refl

alone : IsApart one_box
unfolding lookup
alone = record { apart = λ k j ip x y. absurd (ground arith) }

allocate-IsApart_example : IsApart addressed
allocate-IsApart_example =
    allocate-IsApart 9 raw first last (codes "vm-1") first one_box addressed given alone
