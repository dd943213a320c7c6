-- ===== src/Snapshots/Collect.antt =====
-- What snapshotGC of src/service/vm/service.go keeps, and the chain that resolveCowChain walks.
use spacetrek.Prelude.{
  ℕ, zero, suc, ◌<◌, ◌≡◌, refl, subst, ◌∙◌, ◌⊎◌, inl, inr, Bool, true, false, List, [], ◌∷◌, none,
  some, Text, text_eq, text_eq_iff, text_eq_refl, leb, arith, Option-cases, Bool-cases, All,
  All-mono, All-select, All-sort_by, select, sort_by, length, insert_sorted,
}
use mathlib.Core.List.{reverse}
use spacetrek.Exception.{ok}
use spacetrek.Snapshots.{
  Snapshot, Kind, full, incremental, Store, has_id, of_vm, newest, find, get_by_vmid, has_child,
  delete_snapshot, after, contains, sweep, snapshot_gc, collect_ancestors, cow_walk,
  resolve_cow_chain,
}
use spacetrek.Snapshots.Chains.{HasParent, IsSound, find-delete_row}

All-find {κ} :
    (P : Snapshot → Type κ) (k : Text) (rows : List Snapshot) (s : Snapshot)
    → All P rows
    → find k rows ≡ some s
    → P s
unfolding find
All-find P k [] s h e = absurd (cc)
All-find P k (t ∷ rows) s (pt, h) e = elim (Bool-cases (has_id k t)) [
  | inl hit ↦ let q : t ≡ s = ground arith in subst P q pt
  | inr miss ↦ All-find P k rows s h (ground arith)
]

find-select :
    (k vm : Text) (rows : List Snapshot) (p : Snapshot)
    → find k rows ≡ some p
    → p.vm_id ≡ vm
    → find k (select (of_vm vm) rows) ≡ some p
unfolding find
find-select k vm [] p e v = absurd (cc)
find-select k vm (s ∷ rows) p e v = ground (arith, text_eq_iff s.vm_id vm, find-select k vm rows p)

module _ (rows : List Snapshot) where
  abbrev Found : Snapshot → Type 0
  Found s = find s.id rows ≡ some s

  find-insert_sorted :
      (k : Text) (s : Snapshot) (l : List Snapshot)
      → Found s
      → All Found l
      → find k (insert_sorted newest s l) ≡ find k (s ∷ l)
  unfolding find insert_sorted
  find-insert_sorted k s [] f h = refl
  find-insert_sorted k s (t ∷ l) f (g, h) =
      ground (arith, text_eq_iff s.id k, text_eq_iff t.id k, find-insert_sorted k s l f h)

  find-sort_by : (k : Text) (l : List Snapshot) → All Found l → find k (sort_by newest l) ≡ find k l
  unfolding find sort_by
  find-sort_by k [] h = refl
  find-sort_by k (s ∷ l) (f, h) = ground (
    arith,
    find-insert_sorted k s (sort_by newest l) f (All-sort_by Found newest l h),
    find-sort_by k l h,
  )

  -- A row of the VM is found among its snapshots.
  find-get_by_vmid :
      (k vm : Text) (p : Snapshot)
      → All Found rows
      → find k rows ≡ some p
      → p.vm_id ≡ vm
      → find k (get_by_vmid vm rows) ≡ some p
  unfolding get_by_vmid
  find-get_by_vmid k vm p h e v =
      find-sort_by k (select (of_vm vm) rows) (
        All-mono (λ s. Found s × (of_vm vm s ≡ true)) Found (λ s q. q.0) (select (of_vm vm) rows)
          (All-select Found (of_vm vm) rows h))
      ∙ find-select k vm rows p e v

-- The walk up the parents ends: they get older.
ancestors_end :
    (rows : List Snapshot) (vm : Text) (fuel : ℕ) (s : Snapshot)
    → IsSound rows
    → HasParent rows s
    → s.vm_id ≡ vm
    → s.created_at < fuel
    → (ids : List Text) × (collect_ancestors fuel (get_by_vmid vm rows) s ≡ some ids)
unfolding collect_ancestors
ancestors_end rows vm zero s h q v late = absurd (omega arith)
ancestors_end rows vm (suc fuel) s h (inl root) v late = ([], ground arith)
ancestors_end rows vm (suc fuel) s h (inr (p, names, at, same, older)) v late =
    let (ids, e) =
      ancestors_end rows vm fuel p h (All-find (HasParent rows) p.id rows p h.parents at) (same ∙ v)
        (omega arith) in
    (p.id ∷ ids, ground (arith, find-get_by_vmid rows p.id vm p h.found at (same ∙ v)))

-- A deletion hides no other row.
find-delete_snapshot :
    (object_store : Bool) (id k : Text) (st : Store)
    → text_eq k id ≡ false
    → find k (after st (delete_snapshot object_store id st)).rows ≡ find k st.rows
unfolding delete_snapshot
find-delete_snapshot object_store id k st other = elim (Option-cases (find id st.rows)) [
  | inl e ↦ rw (e, delete_snapshot, after) refl
  | inr (snap, e) ↦ elim (Bool-cases (has_child id (get_by_vmid snap.vm_id st.rows))) [
    | inl held ↦ rw (e, held, delete_snapshot, after) refl
    | inr free ↦ rw (e, free, delete_snapshot, after) (find-delete_row id k st.rows ∙ rw other refl)
  ]
]

sweep_keeps :
    (object_store : Bool) (protected : List Text) (snaps : List Snapshot) (k : Text) (st : Store)
    → contains k protected ≡ true
    → find k (sweep object_store protected snaps st).rows ≡ find k st.rows
unfolding sweep
sweep_keeps object_store protected [] k st h = refl
sweep_keeps object_store protected (s ∷ snaps) k st h =
    elim (Bool-cases (contains s.id protected)) [
      | inl e ↦ rw (e, sweep) (sweep_keeps object_store protected snaps k st h)
      | inr e ↦
          rw (e, sweep)
            (sweep_keeps object_store protected snaps k
                (after st (delete_snapshot object_store s.id st)) h
              ∙ find-delete_snapshot object_store s.id k st (ground (arith, text_eq_iff k s.id)))
    ]

-- Leaf first: each is followed by its parent, and the last one has none or is full.
abbrev pub IsChain : List Snapshot → List Snapshot → Type 0
IsChain rows [] = ⊥
IsChain rows (s ∷ []) = (s.parent_snapshot_id ≡ none) ⊎ (s.kind ≡ full)
IsChain rows (s ∷ t ∷ l) =
    (s.parent_snapshot_id ≡ some t.id) × (find t.id rows ≡ some t) × IsChain rows (t ∷ l)

walk_ends :
    (rows : List Snapshot) (fuel : ℕ) (s : Snapshot)
    → IsSound rows
    → HasParent rows s
    → s.created_at < fuel
    → (tail : List Snapshot) × (cow_walk fuel rows s ≡ some (ok (s ∷ tail)))
      × IsChain rows (s ∷ tail)
unfolding cow_walk
walk_ends rows zero s h q late = absurd (omega arith)
walk_ends rows (suc fuel) s h (inl root) late = ([], ground arith, inl root)
walk_ends rows (suc fuel) s h (inr (p, names, at, same, older)) late =
    step
      (walk_ends rows fuel p h (All-find (HasParent rows) p.id rows p h.parents at) (omega arith))
      p.kind refl
  where
    step :
        ((tail : List Snapshot) × (cow_walk fuel rows p ≡ some (ok (p ∷ tail)))
          × IsChain rows (p ∷ tail))
        → (k : Kind) → p.kind ≡ k
        → (tail : List Snapshot) × (cow_walk (suc fuel) rows s ≡ some (ok (s ∷ tail)))
          × IsChain rows (s ∷ tail)
    step rest full e = (p ∷ [], ground arith, (names, at, inr e))
    step (tail, w, c) incremental e = (p ∷ tail, ground arith, (names, at, c))

-- In sound rows, with fuel beyond the leaf's time of creation, resolveCowChain returns a chain, root
-- first: read backwards, it starts at the leaf, each snapshot is followed by its stored parent, and
-- it ends at one that has no parent or is full.
pub resolve_cow_chain_lem :
    (rows : List Snapshot) (fuel : ℕ) (leaf : Snapshot)
    → IsSound rows
    → find leaf.id rows ≡ some leaf
    → leaf.created_at < fuel
    → (tail : List Snapshot) × (resolve_cow_chain fuel rows leaf
        ≡ some (ok (reverse (leaf ∷ tail))))
      × IsChain rows (leaf ∷ tail)
unfolding resolve_cow_chain
resolve_cow_chain_lem rows fuel leaf h at late =
    let (tail, w, c) =
      walk_ends rows fuel leaf h (All-find (HasParent rows) leaf.id rows leaf h.parents at) late in
    (tail, rw w refl, c)

-- The walk reads the ancestors' rows only.
walk_kept :
    (rows rows' : List Snapshot) (vm : Text) (fuel : ℕ) (s : Snapshot) (ids : List Text)
    → IsSound rows
    → HasParent rows s
    → s.vm_id ≡ vm
    → collect_ancestors fuel (get_by_vmid vm rows) s ≡ some ids
    → ((k : Text) → contains k ids ≡ true → find k rows' ≡ find k rows)
    → cow_walk fuel rows' s ≡ cow_walk fuel rows s
unfolding cow_walk collect_ancestors contains
walk_kept rows rows' vm zero s ids h q v e keep = refl
walk_kept rows rows' vm (suc fuel) s ids h (inl root) v e keep = ground arith
walk_kept rows rows' vm (suc fuel) s ids h (inr (p, names, at, same, older)) v e keep =
    let found = find-get_by_vmid rows p.id vm p h.found at (same ∙ v) in
    elim (Option-cases (collect_ancestors fuel (get_by_vmid vm rows) p)) [
      | inl out ↦ absurd (ground arith)
      | inr (rest, more) ↦
          let q : ids ≡ p.id ∷ rest = ground arith in
          let again =
            walk_kept rows rows' vm fuel p rest h
              (All-find (HasParent rows) p.id rows p h.parents at) (same ∙ v) more
              (λ k c. keep k (ground arith)) in
          let at' = keep p.id (ground (arith, text_eq_refl p.id)) in ground (arith, again, at')
    ]

-- In sound rows, with fuel beyond the latest snapshot's time of creation, the collection around it
-- ends, and the chain that resolveCowChain returns for it is afterwards the one it was before.
pub snapshot_gc_lem :
    (fuel : ℕ) (object_store : Bool) (st : Store) (latest : Snapshot)
    → IsSound st.rows
    → find latest.id st.rows ≡ some latest
    → latest.created_at < fuel
    → (st' : Store) × (snapshot_gc fuel object_store latest.vm_id latest.id st ≡ some st')
      × (resolve_cow_chain fuel st'.rows latest ≡ resolve_cow_chain fuel st.rows latest)
unfolding snapshot_gc resolve_cow_chain contains
snapshot_gc_lem fuel object_store st latest h at late =
    let vm = latest.vm_id in
    let snaps = get_by_vmid vm st.rows in
    let parented = All-find (HasParent st.rows) latest.id st.rows latest h.parents at in
    let (ids, walked) = ancestors_end st.rows vm fuel latest h parented refl late in
    let found = find-get_by_vmid st.rows latest.id vm latest h.found at refl in
    let swept = sweep object_store (latest.id ∷ ids) snaps st in
    let kept =
      walk_kept st.rows swept.rows vm fuel latest ids h parented refl walked
        (λ k c. sweep_keeps object_store (latest.id ∷ ids) snaps k st (ground arith)) in
    elim (Bool-cases (leb (length snaps) 1)) [
      | inl few ↦ (st, ground arith, refl)
      | inr many ↦ (swept, rw (many, found, walked) refl, rw kept refl)
    ]
