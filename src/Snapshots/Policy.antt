-- ===== src/Snapshots/Policy.antt =====
-- Which kind of snapshot CreateSnapshot of src/service/vm/service.go makes.
use spacetrek.Prelude.{
  ℕ, ◌+◌, ◌-◌, ◌*◌, ◌<◌, ◌≡◌, refl, ◌≢◌, ◌↔◌, ◌⊎◌, inl, inr, Bool, true, false, List, none, some,
  Text, ltb, leb, if◌then◌else◌, arith, Option-cases, Bool-cases,
}
use spacetrek.Snapshots.{Snapshot, full, incremental, get_latest_by_vmid}

-- `DiskMode`
pub data DiskMode : Type 0 where
  full_mode self_contained_mode incremental_mode unset_mode other_mode : DiskMode

pub record SnapshotDiskConfig : Type 0 where
  pub disk_mode : DiskMode
  pub max_chain_length : ℕ
  pub max_chain_age_minutes : ℕ

-- Minutes in nanoseconds.
abbrev pub minutes : ℕ → ℕ
minutes n = n * 60000000000

unfoldable pub chain_too_long : SnapshotDiskConfig → ℕ → Snapshot → Bool
chain_too_long cfg now previous = elim previous.disk_chain_length [
  | none ↦ true
  | some n ↦
      if leb cfg.max_chain_length (n + 1)
      then true
      else ltb (minutes cfg.max_chain_age_minutes) (now - previous.created_at)
]

unfoldable pub should_create_full_disk : SnapshotDiskConfig → ℕ → Text → List Snapshot → Bool
unfolding chain_too_long
should_create_full_disk cfg now vm rows = elim cfg.disk_mode [
  | incremental_mode ↦ elim (get_latest_by_vmid vm rows) [
    | none ↦ true
    | some previous ↦ chain_too_long cfg now previous
  ]
  | _ ↦ true
]

-- `diskType`: an incremental mode with a full disk is a compaction.
unfoldable pub disk_type : SnapshotDiskConfig → Bool → DiskMode
disk_type cfg full_disk = elim cfg.disk_mode [
  | incremental_mode ↦ if full_disk then full_mode else incremental_mode
  | m ↦ m
]

unfoldable pub resolve_chain_length : Text → DiskMode → List Snapshot → ℕ
resolve_chain_length vm kind rows = elim kind [
  | incremental_mode ↦ elim (get_latest_by_vmid vm rows) [
    | none ↦ 0
    | some previous ↦ elim previous.disk_chain_length [ none ↦ 0 | some n ↦ n + 1 ]
  ]
  | _ ↦ 0
]

-- The row that CreateSnapshot inserts, given the uuid and the time.
unfoldable pub new_snapshot : SnapshotDiskConfig → Bool → Text → Text → ℕ → List Snapshot → Snapshot
unfolding should_create_full_disk disk_type resolve_chain_length
new_snapshot cfg diff_enabled vm uuid now rows =
    let previous = if diff_enabled then get_latest_by_vmid vm rows else none in
    record {
      id = uuid;
      vm_id = vm;
      parent_snapshot_id = elim previous [ none ↦ none | some s ↦ some s.id ];
      kind = elim previous [ none ↦ full | some s ↦ incremental ];
      disk_chain_length =
          some (
            resolve_chain_length vm (disk_type cfg (should_create_full_disk cfg now vm rows)) rows);
      created_at = now;
    }

-- The length that the new snapshot gets.
abbrev next_length : SnapshotDiskConfig → Text → ℕ → List Snapshot → ℕ
next_length cfg vm now rows =
    resolve_chain_length vm (disk_type cfg (should_create_full_disk cfg now vm rows)) rows

-- It continues the chain of the latest snapshot, within the maximum.
abbrev Continues : SnapshotDiskConfig → Text → List Snapshot → ℕ → Type 0
Continues cfg vm rows length =
    (previous : Snapshot) × (n : ℕ) × (get_latest_by_vmid vm rows ≡ some previous)
    × (previous.disk_chain_length ≡ some n)
    × (length ≡ n + 1)
    × (n + 1 < cfg.max_chain_length)

is_incremental : DiskMode → Bool
is_incremental incremental_mode = true
is_incremental _ = false

next_length_lem :
    (cfg : SnapshotDiskConfig) (vm : Text) (now : ℕ) (rows : List Snapshot)
    → (next_length cfg vm now rows ≡ 0) ⊎ Continues cfg vm rows (next_length cfg vm now rows)
unfolding resolve_chain_length disk_type should_create_full_disk chain_too_long is_incremental
next_length_lem cfg vm now rows = elim (Option-cases (get_latest_by_vmid vm rows)) [
  | inl e ↦ inl (ground arith)
  | inr (previous, e) ↦ elim (Option-cases previous.disk_chain_length) [
    | inl f ↦ inl (ground arith)
    | inr (n, f) ↦ elim (Bool-cases (is_incremental cfg.disk_mode)) [
      | inr other ↦ inl (ground arith)
      | inl mode ↦ elim (Bool-cases (chain_too_long cfg now previous)) [
        | inl long ↦ inl (ground arith)
        | inr short ↦ inr (previous, n, e, f, ground arith, ground arith)
      ]
    ]
  ]
]

-- Whatever snapshots a VM has, the next one's disk chain stays within the configured maximum, or
-- a new chain starts: the length is 0, or one more than the latest snapshot's and below the maximum;
-- and it has a parent exactly when it is incremental.
pub new_snapshot_lem :
    (cfg : SnapshotDiskConfig) (diff : Bool) (vm uuid : Text) (now : ℕ) (rows : List Snapshot)
    → let s = new_snapshot cfg diff vm uuid now rows in
      ((length : ℕ) × (s.disk_chain_length ≡ some length)
        × ((length ≡ 0)
            ⊎ ((previous : Snapshot) × (n : ℕ) × (get_latest_by_vmid vm rows ≡ some previous)
                × (previous.disk_chain_length ≡ some n)
                × (length ≡ n + 1)
                × (n + 1 < cfg.max_chain_length))))
      × ((s.kind ≡ incremental) ↔ (s.parent_snapshot_id ≢ none))
unfolding new_snapshot
new_snapshot_lem cfg diff vm uuid now rows =
    ((next_length cfg vm now rows, refl, next_length_lem cfg vm now rows), ground arith)
