-- ===== src/Writers/Hosts.antt =====
-- render and Refresh of src/service/vm/hostswriter/writer.go.
use spacetrek.Prelude.{
  Bool, not, ◌&&◌, List, [], ◌∷◌, ◌++◌, none, some, Text, codes, text_lt, is_empty, select, sort_by,
}
use spacetrek.Exception.{Result, Outcome, ok, err}
use spacetrek.Vm.{Vm, is_terminated}
use spacetrek.Writers.{Writer, rewrite}

-- The address, empty where there is none.
abbrev pub address_of : Vm → Text
address_of v = elim v.ip_address [ none ↦ [] | some ip ↦ ip ]

unfoldable pub is_eligible : Vm → Bool
is_eligible v = not (is_terminated v) && not (is_empty v.name) && not (is_empty (address_of v))

abbrev pub by_name : Vm → Vm → Bool
by_name a b = text_lt a.name b.name

-- The first line, whose dash is an em dash.
abbrev pub notice : Text
notice = codes "# managed by spacetrk orchestrator " ++ (226 ∷ 128 ∷ 148 ∷ codes " do not edit\n")

-- "%s   %s.vm.internal\t%s\n"
abbrev pub host_line : Text → Text → Text → Text
host_line ip name rest =
    ip ++ (codes "   " ++ (name ++ (codes ".vm.internal" ++ (b'\t' ∷ (name ++ (b'\n' ∷ rest))))))

unfoldable pub host_lines : List Vm → Text
host_lines [] = []
host_lines (v ∷ vs) = host_line (address_of v) v.name (host_lines vs)

unfoldable pub eligible : List Vm → List Vm
unfolding is_eligible
eligible vms = sort_by by_name (select is_eligible vms)

unfoldable pub render : List Vm → Text
unfolding host_lines eligible
render vms = notice ++ host_lines (eligible vms)

-- `listed` is what the repository's List answers.
unfoldable pub refresh : (Text → Text) → Result (List Vm) → Outcome → Writer → Outcome × Writer
unfolding render rewrite
refresh hash (err e) write w = (err e, w)
refresh hash (ok vms) write w = rewrite hash (render vms) write w
