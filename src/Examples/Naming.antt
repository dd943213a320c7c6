-- ===== src/Examples/Naming.antt =====
-- Runs of the choice of a unique name: src/service/vm/service.go.
use spacetrek.Prelude.{ℕ, ◌≡◌, refl, false, Text, codes}
use spacetrek.Exception.{ok}
use spacetrek.Vm.{Vm}
use spacetrek.Vm.Name.{lower_all}
use spacetrek.VmRepo.Queries.{get_by_name}
use spacetrek.Service.Naming.{resolve_unique_name}
use spacetrek.Examples.Repos.{box, one_box}

-- Every draw is the same name.
abbrev draws : ℕ → Text
draws n = codes "bold-euler"

abbrev named : Vm
named = record box { name = codes "bold-euler" }

renamed : resolve_unique_name draws false box one_box ≡ ok named
unfolding resolve_unique_name get_by_name lower_all
renamed = refl
