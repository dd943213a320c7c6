-- ===== src/Snapshots/History.antt =====
-- The snapshots under any history of src/service/vm/service.go: CreateSnapshot, DeleteSnapshot,
-- snapshotGC and deleteAllSnapshots.
use spacetrek.Prelude.{
  ℕ, ◌<◌, ◌≡◌, subst, inl, inr, Bool, true, List, [], ◌∷◌, none, some, Text, text_eq_iff,
  text_eq_refl, arith, Option-cases, Bool-cases, All, All-mono, All-both, All-select, All-sort_by,
  select,
}
use spacetrek.Snapshots.{
  Snapshot, Store, of_vm, newest, find, get_by_vmid, get_latest_by_vmid, head, delete_snapshot,
  after, snapshot_gc, delete_all,
}
use spacetrek.Snapshots.Policy.{SnapshotDiskConfig, new_snapshot}
use spacetrek.Snapshots.Chains.{
  HasParent, IsSound, delete_snapshot-IsSound, gc-IsSound, all-IsSound,
}

latest_of :
    (vm : Text) (now : ℕ) (rows : List Snapshot) (p : Snapshot)
    → All (λ s. s.created_at < now) rows
    → IsSound rows
    → get_latest_by_vmid vm rows ≡ some p
    → (find p.id rows ≡ some p) × (p.vm_id ≡ vm) × (p.created_at < now)
unfolding get_latest_by_vmid
latest_of vm now rows p late h e = pick (get_by_vmid vm rows) e (
    All-sort_by Good newest (select (of_vm vm) rows) (
      All-mono (λ s. ((find s.id rows ≡ some s) × (s.created_at < now)) × (of_vm vm s ≡ true)) Good
        (λ s q. (q.0.0, (text_eq_iff s.vm_id vm).0 q.1, q.0.1)) (select (of_vm vm) rows)
        (All-select (λ s. (find s.id rows ≡ some s) × (s.created_at < now)) (of_vm vm) rows
          (All-both (λ s. find s.id rows ≡ some s) (λ s. s.created_at < now) rows h.found late))))
  where
    Good : Snapshot → Type 0
    Good s = (find s.id rows ≡ some s) × (s.vm_id ≡ vm) × (s.created_at < now)

    pick : (l : List Snapshot) → head l ≡ some p → All Good l → Good p
    pick [] q a = absurd (cc)
    pick (s ∷ l) q (g, a) = let same : s ≡ p = ground arith in subst Good same g

-- A row under a new id hides no row.
find-cons :
    (new : Snapshot) (k : Text) (rows : List Snapshot) {s : Snapshot}
    → find new.id rows ≡ none
    → find k rows ≡ some s
    → find k (new ∷ rows) ≡ some s
unfolding find
find-cons new k rows fresh e = ground (arith, text_eq_iff new.id k)

keeps_parent :
    (new : Snapshot) (rows : List Snapshot) (s : Snapshot)
    → find new.id rows ≡ none
    → HasParent rows s
    → HasParent (new ∷ rows) s
keeps_parent new rows s fresh (inl root) = inl root
keeps_parent new rows s fresh (inr (p, names, at, same, older)) =
    inr (p, names, find-cons new p.id rows fresh at, same, older)

gets_parent :
    (cfg : SnapshotDiskConfig) (diff : Bool) (vm uuid : Text) (now : ℕ) (rows : List Snapshot)
    → find uuid rows ≡ none
    → All (λ s. s.created_at < now) rows
    → IsSound rows
    → HasParent
        (new_snapshot cfg diff vm uuid now rows ∷ rows)
        (new_snapshot cfg diff vm uuid now rows)
unfolding new_snapshot
gets_parent cfg diff vm uuid now rows fresh late h = elim (Bool-cases diff) [
  | inr plain ↦ inl (ground arith)
  | inl e ↦ elim (Option-cases (get_latest_by_vmid vm rows)) [
    | inl first ↦ inl (ground arith)
    | inr (p, at) ↦
        let (stored, same, older) = latest_of vm now rows p late h at in
        inr (
          p,
          ground arith,
          find-cons (new_snapshot cfg diff vm uuid now rows) p.id rows fresh stored,
          same,
          older,
        )
  ]
]

-- The row that CreateSnapshot adds, under a new id and at a later time than all rows.
new_snapshot-IsSound :
    (cfg : SnapshotDiskConfig) (diff : Bool) (vm uuid : Text) (now : ℕ) (rows : List Snapshot)
    → find uuid rows ≡ none
    → All (λ s. s.created_at < now) rows
    → IsSound rows
    → IsSound (new_snapshot cfg diff vm uuid now rows ∷ rows)
unfolding find new_snapshot
new_snapshot-IsSound cfg diff vm uuid now rows fresh late h =
    let new = new_snapshot cfg diff vm uuid now rows in
    record {
      found = (
        ground (arith, text_eq_refl uuid),
        All-mono (λ s. find s.id rows ≡ some s) (λ s. find s.id (new ∷ rows) ≡ some s)
            (λ s q. find-cons new s.id rows fresh q) rows h.found,
      );
      parents = (
        gets_parent cfg diff vm uuid now rows fresh late h,
        All-mono (HasParent rows) (HasParent (new ∷ rows)) (λ s q. keeps_parent new rows s fresh q)
            rows h.parents,
      );
    }

-- One call of the service, of whichever configuration, that ends.
pub data Step : Store → Store → Type 0 where
  created :
      (cfg : SnapshotDiskConfig) (diff : Bool) (vm uuid : Text) (now : ℕ) {st : Store}
      → find uuid st.rows ≡ none
      → All (λ s. s.created_at < now) st.rows
      → Step st (record {
        rows = new_snapshot cfg diff vm uuid now st.rows ∷ st.rows;
        blobs = (vm, uuid) ∷ st.blobs;
      })
  removed :
      (object_store : Bool) (id : Text) {st : Store}
      → Step st (after st (delete_snapshot object_store id st))
  collected :
      (fuel : ℕ) (object_store : Bool) (vm latest_id : Text) {st st' : Store}
      → snapshot_gc fuel object_store vm latest_id st ≡ some st'
      → Step st st'
  purged :
      (fuel : ℕ) (object_store : Bool) (vm : Text) {st st' : Store}
      → delete_all fuel object_store vm st ≡ some st'
      → Step st st'

pub data Reach : Store → Type 0 where
  start : Reach (record { rows = []; blobs = [] })
  next : {st st' : Store} → Reach st → Step st st' → Reach st'

Step-IsSound : {st st' : Store} → Step st st' → IsSound st.rows → IsSound st'.rows
Step-IsSound (created cfg diff vm uuid now {st} fresh late) h =
    new_snapshot-IsSound cfg diff vm uuid now st.rows fresh late h
Step-IsSound (removed object_store id {st}) h = delete_snapshot-IsSound object_store id st h
Step-IsSound (collected fuel object_store vm latest_id {st} {st'} e) h =
    gc-IsSound fuel object_store vm latest_id st st' e h
Step-IsSound (purged fuel object_store vm {st} {st'} e) h =
    all-IsSound fuel object_store vm st st' e h

-- Under any history of snapshots created (each under a new id, later than those that stand), deleted,
-- garbage-collected and purged, refused deletions among them, no chain is broken: every stored
-- snapshot is found under its id, and the parent that it names is stored, of its VM, and older.
pub Reach-IsSound : {st : Store} → Reach st → IsSound st.rows
Reach-IsSound start = record { found = tt; parents = tt }
Reach-IsSound (next h step) = Step-IsSound step (Reach-IsSound h)
