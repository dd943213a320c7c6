-- ===== src/Sparse.antt =====
-- Memory snapshots as sparse files: ExtractSparseRegions and MergeDiffMemory of
-- src/infrastructure/vm/firecracker/compress.go. A file is the list of its bytes. The kernel's seeks
-- are arguments: `seek_data` and `seek_hole` give none on an error.
pub mod Bytes
pub mod Merging
pub mod Extracting
use spacetrek.Prelude.{
  ℕ, zero, suc, ◌+◌, ◌-◌, ◌*◌, Bool, true, false, ◌&&◌, ◌||◌, List, [], ◌∷◌, ◌++◌, Option, none,
  some, Text, ltb, leb, ◌==◌, if◌then◌else◌, length, take, drop,
}

pub record SparseRegion : Type 0 where
  pub offset : ℕ
  pub len : ℕ

abbrev pub cons_region : SparseRegion → Option (List SparseRegion) → Option (List SparseRegion)
cons_region r none = none
cons_region r (some rs) = some (r ∷ rs)

-- Where data ends: the next hole, or the end of the file where the seek fails.
abbrev pub hole_or : ℕ → Option ℕ → ℕ
hole_or size none = size
hole_or size (some h) = h

module _ (seek_data seek_hole : ℕ → Option ℕ) (size : ℕ) where
  -- The loop from an offset on, for at most so many rounds.
  unfoldable pub extract_from : ℕ → ℕ → Option (List SparseRegion)
  extract_from zero offset = none
  extract_from (suc n) offset = elim (ltb offset size) [
    | false ↦ some []
    | true ↦ elim (seek_data offset) [
      | none ↦ some []
      | some d ↦
          cons_region (record { offset = d; len = hole_or size (seek_hole d) - d })
            (extract_from n (hole_or size (seek_hole d)))
    ]
  ]

  -- A round for each byte, and one more.
  unfoldable pub extract_sparse_regions : Option (List SparseRegion)
  unfolding extract_from
  extract_sparse_regions = extract_from (suc size) 0

-- `f.ReadAt(buf, off)`, none where there are too few bytes.
unfoldable pub read_at : ℕ → ℕ → Text → Option Text
read_at off n f = if n == 0 || leb (off + n) (length f) then some (take n (drop off f)) else none

-- `f.WriteAt(buf, off)`; what lies between the end of the file and the offset becomes zero.
unfoldable pub write_at : ℕ → Text → Text → Text
write_at zero [] f = f
write_at zero (b ∷ bs) [] = b ∷ write_at zero bs []
write_at zero (b ∷ bs) (x ∷ f) = b ∷ write_at zero bs f
write_at (suc off) [] f = f
write_at (suc off) (b ∷ bs) [] = 0 ∷ write_at off (b ∷ bs) []
write_at (suc off) (b ∷ bs) (x ∷ f) = x ∷ write_at off (b ∷ bs) f

-- The loop over the manifest, on the copy of the base; none on a read error.
unfoldable pub merge_onto : Text → Text → List SparseRegion → Option Text
unfolding read_at write_at
merge_onto out diff [] = some out
merge_onto out diff (r ∷ rs) = elim (read_at r.offset r.len diff) [
  | none ↦ none
  | some buf ↦ merge_onto (write_at r.offset buf out) diff rs
]

unfoldable pub merge_diff_memory : Text → Text → List SparseRegion → Option Text
unfolding merge_onto
merge_diff_memory base diff manifest = merge_onto base diff manifest
