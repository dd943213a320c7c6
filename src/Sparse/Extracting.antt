-- ===== src/Sparse/Extracting.antt =====
-- The regions that ExtractSparseRegions of src/infrastructure/vm/firecracker/compress.go finds, and
-- what MergeDiffMemory makes of them.
use spacetrek.Prelude.{
  ◌≡◌, ◌∙◌, refl, sym, ap, subst, ℕ, zero, suc, ◌+◌, ◌-◌, ◌≤◌, ◌<◌, arith, Bool, Bool-cases,
  Option-cases, inl, inr, true, false, List, [], ◌∷◌, Option, none, some, Text, ltb, if◌then◌else◌,
  length, get_elem?, All, ltb→lt,
}
use spacetrek.Sparse.{SparseRegion, extract_from, extract_sparse_regions, merge_diff_memory}
use spacetrek.Sparse.Bytes.{in_range, covers, bytes_same}
use spacetrek.Sparse.Merging.{Within, merge_diff_memory_lem}

-- What lseek(2) documents, of a file of this size whose byte at `i` is data where `is_data i` is
-- true, and lies in a hole elsewhere: the next data at or after an offset, or an error if there is
-- none; the next hole after data, the end of the file counting as one.
pub record Seeks (seek_data seek_hole : ℕ → Option ℕ) (size : ℕ) (is_data : ℕ → Bool) : Type 0 where
  pub no_data : (o : ℕ) → seek_data o ≡ none → (i : ℕ) → o ≤ i → i < size → is_data i ≡ false
  pub at_data :
      (o d : ℕ)
      → seek_data o ≡ some d
      → (o ≤ d) × (d < size) × (is_data d ≡ true) × ((i : ℕ) → o ≤ i → i < d → is_data i ≡ false)
  pub at_hole :
      (d h : ℕ)
      → is_data d ≡ true
      → seek_hole d ≡ some h
      → (d < h) × (h ≤ size) × ((i : ℕ) → d ≤ i → i < h → is_data i ≡ true)
  pub always_hole : (d : ℕ) → d < size → (h : ℕ) × (seek_hole d ≡ some h)

beyond : (f : Text) (i : ℕ) → length f ≤ i → get_elem? f i ≡ none
beyond [] i h = refl
beyond (x ∷ f) zero h = absurd (omega arith)
beyond (x ∷ f) (suc i) h = beyond f i (omega arith)

module _ (seek_data seek_hole : ℕ → Option ℕ) (size : ℕ) (is_data : ℕ → Bool)
    (seeks : Seeks seek_data seek_hole size is_data) where
  -- From an offset on, the regions are within the file and cover its data and nothing else.
  abbrev Covered : ℕ → List SparseRegion → Type 0
  Covered o rs =
      All (Within size) rs
      × ((i : ℕ) → o ≤ i → i < size → covers rs i ≡ is_data i)
      × ((i : ℕ) → i < o → covers rs i ≡ false)

  extract_from_lem :
      (n o : ℕ)
      → o ≤ size
      → size < n + o
      → (rs : List SparseRegion) × (extract_from seek_data seek_hole size n o ≡ some rs)
        × Covered o rs
  unfolding extract_from covers
  extract_from_lem zero o k h = absurd (omega arith)
  extract_from_lem (suc n) o k h = elim (Bool-cases (ltb o size)) [
    | inr e ↦ ([], rw (e, extract_from) refl, (tt, (λ i l m. absurd (ground arith)), λ i l. refl))
    | inl e ↦ elim (Option-cases (seek_data o)) [
      | inl q ↦ (
        [],
        rw (e, q, extract_from) refl,
        (tt, (λ i l m. sym (seeks.no_data o q i l m)), λ i l. refl),
      )
      | inr (d, q) ↦
          let (od, ds, here, before) = seeks.at_data o d q in
          let (hole, p) = seeks.always_hole d ds in
          let (dh, hs, inside) = seeks.at_hole d hole here p in
          let (rs, r, (w, c, b)) = extract_from_lem n hole hs (omega arith) in
          (
            record { offset = d; len = hole - d } ∷ rs,
            rw (e, q, p, r, extract_from) refl,
            (
              (omega arith, w),
              (λ i l m. elim (Bool-cases (ltb i d)) [
                | inl x ↦
                    let below : i < d = ltb→lt i d x in
                    let out : in_range d (hole - d) i ≡ false = ground arith in
                    rw (out, b i (omega arith)) (sym (before i l below))
                | inr x ↦ elim (Bool-cases (ltb i hole)) [
                  | inl y ↦
                      let within : in_range d (hole - d) i ≡ true = ground arith in
                      rw within (sym (inside i (ground arith) (ltb→lt i hole y)))
                  | inr y ↦
                      let out : in_range d (hole - d) i ≡ false = ground arith in
                      rw out (c i (ground arith) m)
                ]
              ]),
              λ i l.
                  let out : in_range d (hole - d) i ≡ false = ground arith in
                  rw out (b i (omega arith)),
            ),
          )
    ]
  ]

  -- Where the seeks do what lseek(2) documents, ExtractSparseRegions ends, and its regions lie within
  -- the file and hold the bytes that are data and no other.
  pub extract_sparse_regions_lem :
      (rs : List SparseRegion) × (extract_sparse_regions seek_data seek_hole size ≡ some rs)
      × All (Within size) rs
      × ((i : ℕ) → i < size → covers rs i ≡ is_data i)
  unfolding extract_sparse_regions
  extract_sparse_regions_lem =
      let (rs, e, (w, c, b)) = extract_from_lem (suc size) 0 (omega arith) (omega arith) in
      (rs, e, w, λ i l. c i (omega arith) l)

  -- A diff snapshot is enough: where the diff file has the new memory's bytes in its data, and the
  -- bytes in its holes have not changed since the base, the regions that ExtractSparseRegions finds
  -- are those from which MergeDiffMemory restores the new memory, byte for byte.
  pub merge-extract :
      (base diff memory : Text)
      → length base ≡ size
      → length diff ≡ size
      → length memory ≡ size
      → ((i : ℕ)
          → i < size
          → get_elem? memory i ≡ (if is_data i then get_elem? diff i else get_elem? base i))
      → (rs : List SparseRegion) × (extract_sparse_regions seek_data seek_hole size ≡ some rs)
        × (merge_diff_memory base diff rs ≡ some memory)
  merge-extract base diff memory eb ed em bytes =
      let (rs, e, w, c) = extract_sparse_regions_lem in
      let (merged, q, l, at) =
        merge_diff_memory_lem base diff rs (eb ∙ sym ed)
          (subst (λ n. All (Within n) rs) (sym ed) w) in
      let same : merged ≡ memory = bytes_same merged memory (λ i. elim (Bool-cases (ltb i size)) [
        | inl x ↦ at i ∙ rw (c i (ltb→lt i size x)) (sym (bytes i (ltb→lt i size x)))
        | inr x ↦ beyond merged i (ground arith) ∙ sym (beyond memory i (ground arith))
      ]) in
      (rs, e, q ∙ ap some same)
