-- ===== src/Snapshots.antt =====
-- Snapshot chains: the snapshot part of src/service/vm/service.go over the rows of
-- src/repository/postgres/snapshot.go, with the entity of src/core/domain/snapshot/snapshot.go. The
-- database answers every query; object storage is the list of the prefixes that it holds.
pub mod Policy
pub mod Chains
pub mod History
pub mod Collect
pub mod Purge
use spacetrek.Prelude.{
  ℕ, zero, suc, ◌+◌, ◌≤◌, Bool, true, false, not, ◌&&◌, List, [], ◌∷◌, Option, none, some, Text,
  codes, text_eq, ltb, leb, if◌then◌else◌, select, sort_by, length, Option-cases,
}
use mathlib.Core.Option
use mathlib.Core.List.{reverse}
use spacetrek.Exception.{AppError, not_found, bad_request, Result, ok, err, ◌>>=◌}

-- `Type`
pub data Kind : Type 0 where
  full incremental : Kind

-- The fields that the chain logic reads.
pub record Snapshot : Type 0 where
  pub id : Text
  pub vm_id : Text
  pub parent_snapshot_id : Option Text
  pub kind : Kind
  pub disk_chain_length : Option ℕ
  pub created_at : ℕ

pub record Store : Type 0 where
  pub rows : List Snapshot
  pub blobs : List (Text × Text)

abbrev pub has_id : Text → Snapshot → Bool
has_id id s = text_eq s.id id

abbrev pub of_vm : Text → Snapshot → Bool
of_vm vm s = text_eq s.vm_id vm

abbrev pub newest : Snapshot → Snapshot → Bool
newest a b = ltb b.created_at a.created_at

unfoldable pub find : Text → List Snapshot → Option Snapshot
find id [] = none
find id (s ∷ rows) = if has_id id s then some s else find id rows

unfoldable pub get_by_vmid : Text → List Snapshot → List Snapshot
get_by_vmid vm rows = sort_by newest (select (of_vm vm) rows)

abbrev pub head : List Snapshot → Option Snapshot
head [] = none
head (s ∷ rows) = some s

unfoldable pub get_latest_by_vmid : Text → List Snapshot → Option Snapshot
unfolding get_by_vmid
get_latest_by_vmid vm rows = head (get_by_vmid vm rows)

unfoldable pub delete_row : Text → List Snapshot → List Snapshot
delete_row id rows = select (λ s. not (has_id id s)) rows

abbrev pub is_child : Text → Snapshot → Bool
is_child id s = elim s.parent_snapshot_id [ none ↦ false | some p ↦ text_eq p id ]

unfoldable pub has_child : Text → List Snapshot → Bool
has_child id [] = false
has_child id (s ∷ snaps) = if is_child id s then true else has_child id snaps

abbrev pub other_prefix : Snapshot → Text × Text → Bool
other_prefix s b = not (text_eq b.0 s.vm_id && text_eq b.1 s.id)

-- `object_store` says whether one is configured.
unfoldable pub delete_snapshot : Bool → Text → Store → Result Store
delete_snapshot object_store id st = elim (find id st.rows) [
  | none ↦ err (not_found (codes "snapshot") id)
  | some snap ↦
      if has_child id (get_by_vmid snap.vm_id st.rows)
      then err (bad_request (codes "cannot delete snapshot because it has children"))
      else ok (record {
        rows = delete_row id st.rows;
        blobs = if object_store then select (other_prefix snap) st.blobs else st.blobs;
      })
]

abbrev pub after : Store → Result Store → Store
after st (ok st') = st'
after st (err e) = st

-- The walk up the parents; `none` means that the fuel ran out.
unfoldable pub collect_ancestors : ℕ → List Snapshot → Snapshot → Option (List Text)
collect_ancestors zero all current = none
collect_ancestors (suc fuel) all current = elim current.parent_snapshot_id [
  | none ↦ some []
  | some p ↦ elim (find p all) [
    | none ↦ some []
    | some parent ↦ Option.map (λ ids. parent.id ∷ ids) (collect_ancestors fuel all parent)
  ]
]

unfoldable pub contains : Text → List Text → Bool
contains id [] = false
contains id (x ∷ xs) = if text_eq x id then true else contains id xs

-- The loop that deletes what is not protected; a refused deletion is logged.
unfoldable pub sweep : Bool → List Text → List Snapshot → Store → Store
sweep object_store protected [] st = st
sweep object_store protected (s ∷ snaps) st =
    sweep object_store protected snaps
      (if contains s.id protected then st else after st (delete_snapshot object_store s.id st))

unfoldable pub snapshot_gc : ℕ → Bool → Text → Text → Store → Option Store
snapshot_gc fuel object_store vm latest_id st =
    let snaps = get_by_vmid vm st.rows in
    if leb (length snaps) 1 then some st else elim (find latest_id snaps) [
      | none ↦ some st
      | some latest ↦
          Option.map (λ ids. sweep object_store (latest.id ∷ ids) snaps st)
            (collect_ancestors fuel snaps latest)
    ]

-- One pass of deleteAllSnapshots over the snapshots, and whether it deleted one.
unfoldable pub delete_pass : Bool → List Snapshot → Store × Bool → Store × Bool
delete_pass object_store [] acc = acc
delete_pass object_store (s ∷ snaps) (st, deleted) =
    delete_pass object_store snaps
      (elim (delete_snapshot object_store s.id st) [ ok st' ↦ (st', true) | err e ↦ (st, deleted) ])

-- The loop until nothing is left or nothing is deleted.
unfoldable pub delete_all : ℕ → Bool → Text → Store → Option Store
delete_all zero object_store vm st = none
delete_all (suc fuel) object_store vm st = elim (get_by_vmid vm st.rows) [
  | [] ↦ some st
  | s ∷ snaps ↦
      let (st', deleted) = delete_pass object_store (reverse (s ∷ snaps)) (st, false) in
      elim deleted [ true ↦ delete_all fuel object_store vm st' | false ↦ some st' ]
]

-- The walk of resolveCowChain, leaf first.
unfoldable pub cow_walk : ℕ → List Snapshot → Snapshot → Option (Result (List Snapshot))
cow_walk zero rows current = none
cow_walk (suc fuel) rows current = elim current.parent_snapshot_id [
  | none ↦ some (ok (current ∷ []))
  | some p ↦ elim (find p rows) [
    | none ↦ some (err (not_found (codes "snapshot") p))
    | some parent ↦ elim parent.kind [
      | full ↦ some (ok (current ∷ parent ∷ []))
      | incremental ↦
          Option.map (λ r. r >>= λ chain. ok (current ∷ chain)) (cow_walk fuel rows parent)
    ]
  ]
]

-- Root first.
unfoldable pub resolve_cow_chain : ℕ → List Snapshot → Snapshot → Option (Result (List Snapshot))
unfolding cow_walk
resolve_cow_chain fuel rows leaf =
    Option.map (λ r. r >>= λ chain. ok (reverse chain)) (cow_walk fuel rows leaf)
