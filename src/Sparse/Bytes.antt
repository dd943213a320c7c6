-- ===== src/Sparse/Bytes.antt =====
-- Reads and writes of a file at an offset, byte by byte: src/infrastructure/vm/firecracker/compress.go.
use spacetrek.Prelude.{
  ◌≡◌, ◌∙◌, refl, ap, ℕ, zero, suc, ◌+◌, ◌≤◌, arith, Bool, true, false, ◌&&◌, ◌||◌, List, [], ◌∷◌,
  Text, ltb, leb, if◌then◌else◌, length, take, drop, get_elem?,
}
use spacetrek.Sparse.{SparseRegion, write_at}

-- The offsets of a region.
abbrev pub in_range : ℕ → ℕ → ℕ → Bool
in_range off n i = leb off i && ltb i (off + n)

unfoldable pub covers : List SparseRegion → ℕ → Bool
covers [] i = false
covers (r ∷ rs) i = in_range r.offset r.len i || covers rs i

-- Two files with the same bytes are the same.
pub bytes_same : (f g : Text) → ((i : ℕ) → get_elem? f i ≡ get_elem? g i) → f ≡ g
bytes_same [] [] h = refl
bytes_same [] (y ∷ g) h = absurd (cc (h 0))
bytes_same (x ∷ f) [] h = absurd (cc (h 0))
bytes_same (x ∷ f) (y ∷ g) h =
    let first : x ≡ y = cc (h 0) in let rest : f ≡ g = bytes_same f g (λ i. h (suc i)) in cc

write_nothing : (off : ℕ) (f : Text) → write_at off [] f ≡ f
unfolding write_at
write_nothing zero f = refl
write_nothing (suc off) f = refl

write_later :
    (off : ℕ) (buf : Text) (x : ℕ) (f : Text)
    → write_at (suc off) buf (x ∷ f) ≡ x ∷ write_at off buf f
unfolding write_at
write_later zero [] x f = refl
write_later (suc off) [] x f = refl
write_later off (b ∷ bs) x f = refl

-- A copy of some bytes of `g` into a file of its length.
pub write_copied :
    (off n : ℕ) (f g : Text) (i : ℕ)
    → length f ≡ length g
    → off + n ≤ length g
    → get_elem? (write_at off (take n (drop off g)) f) i
      ≡ (if in_range off n i then get_elem? g i else get_elem? f i)
unfolding write_at
write_copied zero zero f g i e h = let out : in_range 0 0 i ≡ false = ground arith in rw out refl
write_copied zero (suc n) [] g i e h = absurd (omega arith)
write_copied zero (suc n) (x ∷ f) [] i e h = absurd (omega arith)
write_copied zero (suc n) (x ∷ f) (y ∷ g) zero e h =
    let inside : in_range 0 (suc n) 0 ≡ true = ground arith in rw inside refl
write_copied zero (suc n) (x ∷ f) (y ∷ g) (suc i) e h =
    let same : in_range 0 (suc n) (suc i) ≡ in_range 0 n i = ground arith in
    rw same (write_copied zero n f g i (omega arith) (omega arith))
write_copied (suc off) n [] g i e h = absurd (omega arith)
write_copied (suc off) n (x ∷ f) [] i e h = absurd (omega arith)
write_copied (suc off) n (x ∷ f) (y ∷ g) zero e h =
    let out : in_range (suc off) n 0 ≡ false = ground arith in
    ap (λ t. get_elem? t 0) (write_later off (take n (drop off g)) x f) ∙ rw out refl
write_copied (suc off) n (x ∷ f) (y ∷ g) (suc i) e h =
    let same : in_range (suc off) n (suc i) ≡ in_range off n i = ground arith in
    ap (λ t. get_elem? t (suc i)) (write_later off (take n (drop off g)) x f)
    ∙ rw same (write_copied off n f g i (omega arith) (omega arith))

-- Such a copy keeps the length.
pub length-write_copied :
    (off n : ℕ) (f g : Text)
    → length f ≡ length g
    → off + n ≤ length g
    → length (write_at off (take n (drop off g)) f) ≡ length f
unfolding write_at
length-write_copied zero zero f g e h = refl
length-write_copied zero (suc n) [] g e h = absurd (omega arith)
length-write_copied zero (suc n) (x ∷ f) [] e h = absurd (omega arith)
length-write_copied zero (suc n) (x ∷ f) (y ∷ g) e h =
    ap suc (length-write_copied zero n f g (omega arith) (omega arith))
length-write_copied (suc off) n [] g e h = absurd (omega arith)
length-write_copied (suc off) n (x ∷ f) [] e h = absurd (omega arith)
length-write_copied (suc off) n (x ∷ f) (y ∷ g) e h =
    ap length (write_later off (take n (drop off g)) x f)
    ∙ ap suc (length-write_copied off n f g (omega arith) (omega arith))
