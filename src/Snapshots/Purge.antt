-- ===== src/Snapshots/Purge.antt =====
-- The purge of a VM's snapshots: deleteAllSnapshots of src/service/vm/service.go.
use spacetrek.Prelude.{
  ℕ, zero, suc, ◌<◌, ◌≤◌, ◌≡◌, refl, subst, sym, ◌⊎◌, inl, inr, Bool, true, false, not, List, [],
  ◌∷◌, ◌++◌, some, Text, text_eq, text_eq_iff, arith, Option-cases, Bool-cases, All, All-mono,
  All-select, All-sort_by, length-select, select, length, IsSortedBy, sort_by-IsSortedBy,
}
use mathlib.Core.List.{reverse, reverse-cons}
use spacetrek.Exception.{ok, err, Result-cases, AppError}
use spacetrek.Snapshots.{
  Snapshot, Store, has_id, of_vm, newest, find, get_by_vmid, delete_row, has_child, delete_snapshot,
  delete_pass, delete_all,
}
use spacetrek.Snapshots.Chains.{HasParent, IsSound, pass-IsSound}

length-delete_row :
    (id : Text) (rows : List Snapshot) (s : Snapshot)
    → find id rows ≡ some s
    → length (delete_row id rows) < length rows
unfolding find delete_row
length-delete_row id [] s e = absurd (cc)
length-delete_row id (t ∷ rows) s e = elim (Bool-cases (has_id id t)) [
  | inl hit ↦ ground (arith, length-select (λ u. not (has_id id u)) rows)
  | inr miss ↦ ground (arith, length-delete_row id rows s)
]

deletion_shrinks :
    (object_store : Bool) (id : Text) (st st' : Store)
    → delete_snapshot object_store id st ≡ ok st'
    → length st'.rows < length st.rows
unfolding delete_snapshot
deletion_shrinks object_store id st st' e = elim (Option-cases (find id st.rows)) [
  | inl gone ↦ absurd (ground arith)
  | inr (s, at) ↦
      let shorter = length-delete_row id st.rows s at in
      elim (Bool-cases (has_child id (get_by_vmid s.vm_id st.rows))) [
        | inl held ↦ absurd (ground arith)
        | inr free ↦
            let same : st'.rows ≡ delete_row id st.rows = ground arith in
            subst (λ rows. length rows < length st.rows) (sym same) shorter
      ]
]

refused_for_children :
    (object_store : Bool) (st : Store) (s : Snapshot) (e : AppError)
    → find s.id st.rows ≡ some s
    → delete_snapshot object_store s.id st ≡ err e
    → has_child s.id (get_by_vmid s.vm_id st.rows) ≡ true
unfolding delete_snapshot
refused_for_children object_store st s e at refusal =
    elim (Bool-cases (has_child s.id (get_by_vmid s.vm_id st.rows))) [
      | inl held ↦ held
      | inr free ↦ absurd (ground arith)
    ]

-- A pass leaves the flag, or has deleted a row.
pass_shrinks :
    (object_store : Bool) (snaps : List Snapshot) (st : Store) (deleted : Bool)
    → let p = delete_pass object_store snaps (st, deleted) in
      (length p.0.rows < length st.rows) ⊎ ((p.1 ≡ deleted) × (length p.0.rows ≤ length st.rows))
unfolding delete_pass
pass_shrinks object_store [] st deleted = inr (refl, omega arith)
pass_shrinks object_store (s ∷ snaps) st deleted =
    elim (Result-cases (delete_snapshot object_store s.id st)) [
      | inr (e, refusal) ↦ rw (refusal, delete_pass) (pass_shrinks object_store snaps st deleted)
      | inl (st', done) ↦
          let less = deletion_shrinks object_store s.id st st' done in
          rw (done, delete_pass)
            (inl (elim (pass_shrinks object_store snaps st' true) [
              | inl more ↦ omega (arith, less, more)
              | inr (_, rest) ↦ omega (arith, less, rest)
            ]))
    ]

pass_flag :
    (object_store : Bool) (snaps : List Snapshot) (st : Store)
    → (delete_pass object_store snaps (st, true)).1 ≡ true
unfolding delete_pass
pass_flag object_store [] st = refl
pass_flag object_store (s ∷ snaps) st = elim (Result-cases (delete_snapshot object_store s.id st)) [
  | inr (e, refusal) ↦ rw (refusal, delete_pass) (pass_flag object_store snaps st)
  | inl (st', done) ↦ rw (done, delete_pass) (pass_flag object_store snaps st')
]

abbrev IsRefused : Bool → Store → Snapshot → Type 0
IsRefused object_store st s = (e : AppError) × (delete_snapshot object_store s.id st ≡ err e)

-- A pass that deletes nothing was refused every snapshot.
pass-IsRefused :
    (object_store : Bool) (snaps : List Snapshot) (st : Store)
    → (delete_pass object_store snaps (st, false)).1 ≡ false
    → All (IsRefused object_store st) snaps
unfolding delete_pass
pass-IsRefused object_store [] st e = tt
pass-IsRefused object_store (s ∷ snaps) st e =
    elim (Result-cases (delete_snapshot object_store s.id st)) [
      | inr (x, refusal) ↦
          ((x, refusal), pass-IsRefused object_store snaps st (rw (refusal, delete_pass) at e))
      | inl (st', done) ↦ absurd (ground (arith, pass_flag object_store snaps st'))
    ]

All-last : (P : Snapshot → Type 0) (xs : List Snapshot) (s : Snapshot) → All P (xs ++ s ∷ []) → P s
All-last P [] s (p, h) = p
All-last P (x ∷ xs) s (p, h) = All-last P xs s h

-- The newest snapshot of a VM is nobody's parent.
newest_childless :
    (rows l : List Snapshot) (s : Snapshot)
    → find s.id rows ≡ some s
    → All (HasParent rows) l
    → All (λ c. newest c s ≡ false) l
    → has_child s.id l ≡ false
unfolding has_child
newest_childless rows [] s at parents order = refl
newest_childless rows (c ∷ l) s at (inl root, parents) (o, order) =
    ground (arith, newest_childless rows l s at parents order)
newest_childless rows (c ∷ l) s at (inr (p, names, found, same, older), parents) (o, order) =
    elim (Bool-cases (text_eq p.id s.id)) [
      | inr other ↦ ground (arith, newest_childless rows l s at parents order)
      | inl hit ↦
          let id : p.id ≡ s.id = (text_eq_iff p.id s.id).0 hit in
          let twin : p ≡ s = ground arith in
          absurd (ground (arith, subst (λ q. q.created_at < c.created_at) twin older))
    ]

sorted : (vm : Text) (rows : List Snapshot) → IsSortedBy newest (get_by_vmid vm rows)
unfolding get_by_vmid
sorted vm rows =
    sort_by-IsSortedBy newest (λ x y h. ground arith) (λ x y z h k. ground arith)
      (select (of_vm vm) rows)

-- What holds of the rows, of the VM's snapshots.
of_rows :
    (P : Snapshot → Type 0) (vm : Text) (rows : List Snapshot)
    → All P rows
    → All (λ s. P s × (s.vm_id ≡ vm)) (get_by_vmid vm rows)
unfolding get_by_vmid
of_rows P vm rows h =
    All-sort_by (λ s. P s × (s.vm_id ≡ vm)) newest (select (of_vm vm) rows)
      (All-mono (λ s. P s × (of_vm vm s ≡ true)) (λ s. P s × (s.vm_id ≡ vm))
        (λ s q. (q.0, (text_eq_iff s.vm_id vm).0 q.1)) (select (of_vm vm) rows)
        (All-select P (of_vm vm) rows h))

-- Each pass over a VM that has snapshots deletes one.
pass_progress :
    (object_store : Bool) (vm : Text) (st : Store) (s : Snapshot) (snaps : List Snapshot)
    → IsSound st.rows
    → get_by_vmid vm st.rows ≡ s ∷ snaps
    → (delete_pass object_store (reverse (s ∷ snaps)) (st, false)).1 ≡ true
pass_progress object_store vm st s snaps h e =
    elim (Bool-cases (delete_pass object_store (reverse (s ∷ snaps)) (st, false)).1) [
      | inl more ↦ more
      | inr stuck ↦
          let ((at, mine), _) =
            rw e at (of_rows (λ c. find c.id st.rows ≡ some c) vm st.rows h.found) in
          let parents =
            All-mono (λ c. HasParent st.rows c × (c.vm_id ≡ vm)) (HasParent st.rows) (λ c q. q.0)
              (s ∷ snaps) (rw e at (of_rows (HasParent st.rows) vm st.rows h.parents)) in
          let (order, _) = rw e at (sorted vm st.rows) in
          let free = newest_childless st.rows (s ∷ snaps) s at parents (ground arith, order) in
          let (x, refusal) = All-last (IsRefused object_store st) (reverse snaps) s (
            rw (reverse-cons s snaps) at
              (pass-IsRefused object_store (reverse (s ∷ snaps)) st stuck)) in
          let held = refused_for_children object_store st s x at refusal in
          let held' = rw (mine, e) at held in absurd (ground arith)
    ]

-- A round that deletes leaves fewer rows, so a round for each row and one more is enough, whatever the
-- rows are.
pub delete_all-ends :
    (fuel : ℕ) (object_store : Bool) (vm : Text) (st : Store)
    → length st.rows < fuel
    → (st' : Store) × (delete_all fuel object_store vm st ≡ some st')
unfolding delete_all
delete_all-ends zero object_store vm st short = absurd (omega arith)
delete_all-ends (suc fuel) object_store vm st short =
    split (get_by_vmid vm st.rows) refl (λ t. delete_all-ends fuel object_store vm t)
  where
    split :
        (l : List Snapshot)
        → get_by_vmid vm st.rows ≡ l
        → ((t : Store)
            → length t.rows < fuel
            → (st' : Store) × (delete_all fuel object_store vm t ≡ some st'))
        → (st' : Store) × (delete_all (suc fuel) object_store vm st ≡ some st')
    split [] q again = (st, ground arith)
    split (s ∷ snaps) q again =
        let list = reverse (s ∷ snaps) in
        let shrunk = pass_shrinks object_store list st false in
        let pass = delete_pass object_store list (st, false) in
        elim (Bool-cases pass.1) [
          | inl more ↦
              let (st', ended) = again pass.0 (ground (arith, shrunk, more)) in
              (st', ground (arith, q, more, ended))
          | inr done ↦ (pass.0, ground (arith, q, done))
        ]

-- From sound rows, the purge of a VM ends within a round for each row and one more, and leaves the
-- VM no snapshot.
pub delete_all_lem :
    (fuel : ℕ) (object_store : Bool) (vm : Text) (st : Store)
    → IsSound st.rows
    → length st.rows < fuel
    → (st' : Store) × (delete_all fuel object_store vm st ≡ some st')
      × (get_by_vmid vm st'.rows ≡ [])
unfolding delete_all
delete_all_lem zero object_store vm st h short = absurd (omega arith)
delete_all_lem (suc fuel) object_store vm st h short =
    split (get_by_vmid vm st.rows) refl (λ t. delete_all_lem fuel object_store vm t)
  where
    split :
        (l : List Snapshot)
        → get_by_vmid vm st.rows ≡ l
        → ((t : Store)
            → IsSound t.rows
            → length t.rows < fuel
            → (st' : Store) × (delete_all fuel object_store vm t ≡ some st')
              × (get_by_vmid vm st'.rows ≡ []))
        → (st' : Store) × (delete_all (suc fuel) object_store vm st ≡ some st')
          × (get_by_vmid vm st'.rows ≡ [])
    split [] q again = (st, ground arith, q)
    split (s ∷ snaps) q again =
        let list = reverse (s ∷ snaps) in
        let more = pass_progress object_store vm st s snaps h q in
        let shrunk = pass_shrinks object_store list st false in
        let (st', ended, empty) =
          again (delete_pass object_store list (st, false)).0
            (pass-IsSound object_store list st false h) (ground (arith, shrunk, more)) in
        (st', ground arith, empty)
