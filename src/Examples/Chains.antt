-- ===== src/Examples/Chains.antt =====
-- Runs of the snapshot chains: src/service/vm/service.go.
use spacetrek.Prelude.{◌<◌, ◌≡◌, refl, true, List, [], ◌∷◌, some, codes, text_eq, sort_by, arith}
use mathlib.Core.List.{reverse}
use spacetrek.Exception.{ok}
use spacetrek.Snapshots.{
  delete_all, Snapshot, Store, find, get_by_vmid, get_latest_by_vmid, resolve_cow_chain,
  snapshot_gc,
}
use spacetrek.Snapshots.Policy.{SnapshotDiskConfig, incremental_mode, new_snapshot}
use spacetrek.Snapshots.Chains.{IsSound}
use spacetrek.Snapshots.History.{Step, Reach, Reach-IsSound}
use spacetrek.Snapshots.Purge.{delete_all_lem}
use spacetrek.Snapshots.Collect.{IsChain, resolve_cow_chain_lem, snapshot_gc_lem}

abbrev config : SnapshotDiskConfig
config = record { disk_mode = incremental_mode; max_chain_length = 3; max_chain_age_minutes = 60 }

abbrev first_rows : List Snapshot
first_rows = new_snapshot config true (codes "vm") (codes "a") 5 [] ∷ []

abbrev second : Snapshot
second = new_snapshot config true (codes "vm") (codes "b") 7 first_rows

abbrev two : Store
two = record {
  rows = second ∷ first_rows;
  blobs = (codes "vm", codes "b") ∷ (codes "vm", codes "a") ∷ [];
}

two-Reach : Reach two
unfolding find new_snapshot get_latest_by_vmid get_by_vmid text_eq
two-Reach =
    Reach.next
      (Reach.next Reach.start (Step.created config true (codes "vm") (codes "a") 5 refl tt))
      (Step.created config true (codes "vm") (codes "b") 7 refl (ground arith, tt))

Reach-IsSound_example : IsSound two.rows
Reach-IsSound_example = Reach-IsSound two-Reach

at_two : find second.id two.rows ≡ some second
unfolding find new_snapshot text_eq
at_two = refl

early : second.created_at < 10
unfolding new_snapshot
early = ground arith

resolve_cow_chain_lem_example :
    (tail : List Snapshot) × (resolve_cow_chain 10 two.rows second
      ≡ some (ok (reverse (second ∷ tail))))
    × IsChain two.rows (second ∷ tail)
resolve_cow_chain_lem_example =
    resolve_cow_chain_lem two.rows 10 second (Reach-IsSound two-Reach) at_two early

snapshot_gc_lem_example :
    (st' : Store) × (snapshot_gc 10 true second.vm_id second.id two ≡ some st')
    × (resolve_cow_chain 10 st'.rows second ≡ resolve_cow_chain 10 two.rows second)
snapshot_gc_lem_example = snapshot_gc_lem 10 true two second (Reach-IsSound two-Reach) at_two early

-- The second snapshot continues the chain of the first.
second_length : second.disk_chain_length ≡ some 1
unfolding new_snapshot get_latest_by_vmid sort_by text_eq
second_length = refl

delete_all_lem_example :
    (st' : Store) × (delete_all 3 true (codes "vm") two ≡ some st')
    × (get_by_vmid (codes "vm") st'.rows ≡ [])
delete_all_lem_example =
    delete_all_lem 3 true (codes "vm") two (Reach-IsSound two-Reach) (omega arith)
