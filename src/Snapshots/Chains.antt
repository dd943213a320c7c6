-- ===== src/Snapshots/Chains.antt =====
-- No snapshot loses its parent: the deletions of src/service/vm/service.go.
use spacetrek.Prelude.{
  ℕ, zero, suc, ◌<◌, ◌≡◌, refl, sym, subst, ◌∙◌, ◌⊎◌, inl, inr, Bool, true, false, not, List, [],
  ◌∷◌, none, some, Text, text_eq, text_eq_iff, if◌then◌else◌, leb, arith, Option-cases, Bool-cases,
  All, All-mono, All-both, All-select, select, sort_by, length, insert_sorted,
}
use spacetrek.Exception.{Result-cases}
use spacetrek.Snapshots.{
  Snapshot, Store, has_id, of_vm, newest, find, get_by_vmid, delete_row, is_child, has_child,
  delete_snapshot, after, contains, sweep, snapshot_gc, delete_pass, delete_all, collect_ancestors,
}
use mathlib.Core.List.{reverse}

-- The row's parent, if it names one, is there, of the same VM, and older.
abbrev pub HasParent : List Snapshot → Snapshot → Type 0
HasParent rows s =
    (s.parent_snapshot_id ≡ none)
    ⊎ ((p : Snapshot) × (s.parent_snapshot_id ≡ some p.id)
        × (find p.id rows ≡ some p)
        × (p.vm_id ≡ s.vm_id)
        × (p.created_at < s.created_at))

-- Each row is found under its id, and has its parent.
pub record IsSound (rows : List Snapshot) : Type 0 where
  pub found : All (λ s. find s.id rows ≡ some s) rows
  pub parents : All (HasParent rows) rows

pub find-delete_row :
    (id k : Text) (rows : List Snapshot)
    → find k (delete_row id rows) ≡ (if text_eq k id then none else find k rows)
unfolding find delete_row
find-delete_row id k [] = ground arith
find-delete_row id k (s ∷ rows) =
    ground
      (arith, text_eq_iff s.id id, text_eq_iff s.id k, text_eq_iff k id, find-delete_row id k rows)

has_child-insert_sorted :
    (id : Text) (s : Snapshot) (rows : List Snapshot)
    → has_child id (insert_sorted newest s rows) ≡ has_child id (s ∷ rows)
unfolding has_child insert_sorted
has_child-insert_sorted id s [] = refl
has_child-insert_sorted id s (t ∷ rows) = ground (arith, has_child-insert_sorted id s rows)

has_child-sort_by :
    (id : Text) (rows : List Snapshot) → has_child id (sort_by newest rows) ≡ has_child id rows
unfolding has_child sort_by
has_child-sort_by id [] = refl
has_child-sort_by id (s ∷ rows) =
    ground (arith, has_child-insert_sorted id s (sort_by newest rows), has_child-sort_by id rows)

-- No row of the VM names the id as its parent.
no_children :
    (id vm : Text) (rows : List Snapshot)
    → has_child id (select (of_vm vm) rows) ≡ false
    → All (λ s. (s.vm_id ≡ vm) → is_child id s ≡ false) rows
unfolding has_child
no_children id vm [] h = tt
no_children id vm (s ∷ rows) h = elim (Bool-cases (of_vm vm s)) [
  | inl mine ↦ (λ e. ground arith, no_children id vm rows (ground arith))
  | inr other ↦
      (λ e. absurd (ground (arith, text_eq_iff s.vm_id vm)), no_children id vm rows (ground arith))
]

-- A row that stays keeps its parent when a row without children goes.
keeps_parent :
    (id : Text) (snap : Snapshot) (rows : List Snapshot) (s : Snapshot)
    → find id rows ≡ some snap
    → ((s.vm_id ≡ snap.vm_id) → is_child id s ≡ false)
    → HasParent rows s
    → HasParent (delete_row id rows) s
keeps_parent id snap rows s here free (inl root) = inl root
keeps_parent id snap rows s here free (inr (p, names, at, same, older)) =
    elim (Bool-cases (text_eq p.id id)) [
      | inl gone ↦
          absurd (ground (arith, text_eq_iff p.id id, free (ground (arith, text_eq_iff p.id id))))
      | inr stays ↦ inr (p, names, ground (arith, find-delete_row id p.id rows), same, older)
    ]

delete_row-IsSound :
    (id : Text) (snap : Snapshot) (rows : List Snapshot)
    → find id rows ≡ some snap
    → has_child id (get_by_vmid snap.vm_id rows) ≡ false
    → IsSound rows
    → IsSound (delete_row id rows)
unfolding get_by_vmid delete_row
delete_row-IsSound id snap rows here childless h =
    let kept = λ (s : Snapshot). not (has_id id s) in
    let alone =
      no_children id snap.vm_id rows
        (sym (has_child-sort_by id (select (of_vm snap.vm_id) rows)) ∙ childless) in
    record {
      found =
          All-mono (λ s. (find s.id rows ≡ some s) × (kept s ≡ true))
            (λ s. find s.id (delete_row id rows) ≡ some s)
            (λ s q. ground (arith, find-delete_row id s.id rows, q)) (delete_row id rows)
            (All-select (λ s. find s.id rows ≡ some s) kept rows h.found);
      parents =
          All-mono
            (λ s.
              (((s.vm_id ≡ snap.vm_id) → is_child id s ≡ false) × HasParent rows s)
              × (kept s ≡ true))
            (HasParent (delete_row id rows)) (λ s q. keeps_parent id snap rows s here q.0.0 q.0.1)
            (delete_row id rows)
            (All-select (λ s. ((s.vm_id ≡ snap.vm_id) → is_child id s ≡ false) × HasParent rows s)
              kept rows
              (All-both (λ s. (s.vm_id ≡ snap.vm_id) → is_child id s ≡ false) (HasParent rows) rows
                alone h.parents));
    }

pub delete_snapshot-IsSound :
    (object_store : Bool) (id : Text) (st : Store)
    → IsSound st.rows
    → IsSound (after st (delete_snapshot object_store id st)).rows
unfolding delete_snapshot
delete_snapshot-IsSound object_store id st h = elim (Option-cases (find id st.rows)) [
  | inl e ↦ rw (e, delete_snapshot, after) h
  | inr (snap, e) ↦ elim (Bool-cases (has_child id (get_by_vmid snap.vm_id st.rows))) [
    | inl held ↦ rw (e, held, delete_snapshot, after) h
    | inr free ↦ rw (e, free, delete_snapshot, after) (delete_row-IsSound id snap st.rows e free h)
  ]
]

sweep-IsSound :
    (object_store : Bool) (protected : List Text) (snaps : List Snapshot) (st : Store)
    → IsSound st.rows
    → IsSound (sweep object_store protected snaps st).rows
unfolding sweep
sweep-IsSound object_store protected [] st h = h
sweep-IsSound object_store protected (s ∷ snaps) st h =
    elim (Bool-cases (contains s.id protected)) [
      | inl e ↦ rw (e, sweep) (sweep-IsSound object_store protected snaps st h)
      | inr e ↦
          rw (e, sweep)
            (sweep-IsSound object_store protected snaps
              (after st (delete_snapshot object_store s.id st))
              (delete_snapshot-IsSound object_store s.id st h))
    ]

-- A collection that ends has changed nothing, or swept around the latest snapshot's ancestors.
abbrev pub Swept : ℕ → Bool → Text → Text → Store → Store → Type 0
Swept fuel object_store vm latest_id st st' =
    (latest : Snapshot) × (ids : List Text) × (find latest_id (get_by_vmid vm st.rows)
      ≡ some latest)
    × (collect_ancestors fuel (get_by_vmid vm st.rows) latest ≡ some ids)
    × (st' ≡ sweep object_store (latest.id ∷ ids) (get_by_vmid vm st.rows) st)

pub gc_cases :
    (fuel : ℕ) (object_store : Bool) (vm latest_id : Text) (st st' : Store)
    → snapshot_gc fuel object_store vm latest_id st ≡ some st'
    → (st' ≡ st) ⊎ Swept fuel object_store vm latest_id st st'
unfolding snapshot_gc
gc_cases fuel object_store vm latest_id st st' e =
    let snaps = get_by_vmid vm st.rows in
    elim (Bool-cases (leb (length snaps) 1)) [
      | inl few ↦ inl (ground arith)
      | inr many ↦ elim (Option-cases (find latest_id snaps)) [
        | inl gone ↦ inl (ground arith)
        | inr (latest, at) ↦ elim (Option-cases (collect_ancestors fuel snaps latest)) [
          | inl out ↦ absurd (ground arith)
          | inr (ids, walked) ↦ inr (latest, ids, at, walked, ground arith)
        ]
      ]
    ]

pub gc-IsSound :
    (fuel : ℕ) (object_store : Bool) (vm latest_id : Text) (st st' : Store)
    → snapshot_gc fuel object_store vm latest_id st ≡ some st'
    → IsSound st.rows
    → IsSound st'.rows
gc-IsSound fuel object_store vm latest_id st st' e h =
    elim (gc_cases fuel object_store vm latest_id st st' e) [
      | inl same ↦ subst (λ t. IsSound t.rows) (sym same) h
      | inr (latest, ids, _, _, swept) ↦
          subst (λ t. IsSound t.rows) (sym swept)
            (sweep-IsSound object_store (latest.id ∷ ids) (get_by_vmid vm st.rows) st h)
    ]

pub pass-IsSound :
    (object_store : Bool) (snaps : List Snapshot) (st : Store) (deleted : Bool)
    → IsSound st.rows
    → IsSound (delete_pass object_store snaps (st, deleted)).0.rows
unfolding delete_pass
pass-IsSound object_store [] st deleted h = h
pass-IsSound object_store (s ∷ snaps) st deleted h =
    elim (Result-cases (delete_snapshot object_store s.id st)) [
      | inl (st', e) ↦
          rw (e, delete_pass)
            (pass-IsSound object_store snaps st' true
              (rw (e, after) at (delete_snapshot-IsSound object_store s.id st h)))
      | inr (x, e) ↦ rw (e, delete_pass) (pass-IsSound object_store snaps st deleted h)
    ]

pub all-IsSound :
    (fuel : ℕ) (object_store : Bool) (vm : Text) (st st' : Store)
    → delete_all fuel object_store vm st ≡ some st'
    → IsSound st.rows
    → IsSound st'.rows
unfolding delete_all
all-IsSound zero object_store vm st st' e h = absurd (cc)
all-IsSound (suc fuel) object_store vm st st' e h =
    split (get_by_vmid vm st.rows) refl (λ t. all-IsSound fuel object_store vm t st')
  where
    split :
        (l : List Snapshot)
        → get_by_vmid vm st.rows ≡ l
        → ((t : Store)
            → delete_all fuel object_store vm t ≡ some st'
            → IsSound t.rows
            → IsSound st'.rows)
        → IsSound st'.rows
    split [] q again = let same : st ≡ st' = ground arith in subst (λ t. IsSound t.rows) same h
    split (s ∷ snaps) q again =
        let pass = delete_pass object_store (reverse (s ∷ snaps)) (st, false) in
        let kept = pass-IsSound object_store (reverse (s ∷ snaps)) st false h in
        elim (Bool-cases pass.1) [
          | inl more ↦ again pass.0 (ground arith) kept
          | inr last ↦
              let same : pass.0 ≡ st' = ground arith in subst (λ t. IsSound t.rows) same kept
        ]
