-- ===== src/Sparse/Merging.antt =====
-- MergeDiffMemory of src/infrastructure/vm/firecracker/compress.go, byte by byte.
use spacetrek.Prelude.{
  ◌≡◌, ◌∙◌, refl, ℕ, ◌+◌, ◌≤◌, arith, Bool, true, false, ◌||◌, List, [], ◌∷◌, Option, some, Text,
  leb, ◌==◌, if◌then◌else◌, length, take, drop, get_elem?, All,
}
use spacetrek.Sparse.{SparseRegion, read_at, write_at, merge_onto, merge_diff_memory}
use spacetrek.Sparse.Bytes.{in_range, covers, write_copied, length-write_copied}

-- The region lies within so many bytes.
abbrev pub Within : ℕ → SparseRegion → Type 0
Within n r = r.offset + r.len ≤ n

read_within :
    (off n : ℕ) (f : Text) → off + n ≤ length f → read_at off n f ≡ some (take n (drop off f))
unfolding read_at
read_within off n f h =
    let fits : (n == 0 || leb (off + n) (length f)) ≡ true = ground arith in rw fits refl

-- What a later write leaves of an earlier one.
overlay :
    (d o w : Option ℕ) (a b : Bool)
    → w ≡ (if a then d else o)
    → (if b then d else w) ≡ (if a || b then d else o)
overlay d o w true true h = refl
overlay d o w true false h = h
overlay d o w false true h = refl
overlay d o w false false h = h

merge_onto_lem :
    (out diff : Text) (rs : List SparseRegion)
    → length out ≡ length diff
    → All (Within (length diff)) rs
    → (merged : Text) × (merge_onto out diff rs ≡ some merged)
      × (length merged ≡ length diff)
      × ((i : ℕ) → get_elem? merged i ≡ (if covers rs i then get_elem? diff i else get_elem? out i))
unfolding merge_onto covers
merge_onto_lem out diff [] e h = (out, refl, e, λ i. refl)
merge_onto_lem out diff (r ∷ rs) e (hr, h) =
    let buf = take r.len (drop r.offset diff) in
    let written = write_at r.offset buf out in
    let kept : length written ≡ length diff =
      length-write_copied r.offset r.len out diff e hr ∙ e in
    let (merged, q, l, bytes) = merge_onto_lem written diff rs kept h in
    (
      merged,
      rw (read_within r.offset r.len diff hr, merge_onto) q,
      l,
      λ i.
          bytes i
          ∙ overlay (get_elem? diff i) (get_elem? out i) (get_elem? written i)
              (in_range r.offset r.len i) (covers rs i)
              (write_copied r.offset r.len out diff i e hr),
    )

-- Onto a base of the diff's size, with regions that lie within it, MergeDiffMemory succeeds, and
-- the merged file has that size: each byte in some region is the diff's, each other one the base's.
-- The regions may overlap and stand in any order.
pub merge_diff_memory_lem :
    (base diff : Text) (manifest : List SparseRegion)
    → length base ≡ length diff
    → All (Within (length diff)) manifest
    → (merged : Text) × (merge_diff_memory base diff manifest ≡ some merged)
      × (length merged ≡ length diff)
      × ((i : ℕ)
          → get_elem? merged i ≡ (if covers manifest i then get_elem? diff i else get_elem? base i))
unfolding merge_diff_memory
merge_diff_memory_lem base diff manifest e h = merge_onto_lem base diff manifest e h
