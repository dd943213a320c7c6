-- ===== src/Prelude/Sort.antt =====
-- `sort.Slice` and `slices.SortFunc`, as an insertion sort by a Boolean order. (Go leaves the order
-- of entries that compare equal open.)
use mathlib.Core.Path.{◌≡◌, refl}
use Prim.Native.Nat.{suc}
use native.Mathlib.Omega.{arith}
use mathlib.Core.Bool.{Bool, true, false}
use mathlib.Core.List.{List, [], ◌∷◌, Perm}
use mathlib.Core.List.Perm
use spacetrek.Prelude.Tests.{if◌then◌else◌, Bool-cases}
use spacetrek.Prelude.Lists.{All, All-mono, length}
use mathlib.Core.Logic.{inl, inr}

module _ {ℓ} {A : Type ℓ} where
  -- `x` goes behind the entries that it does not come before.
  unfoldable pub insert_sorted : (A → A → Bool) → A → List A → List A
  insert_sorted before x [] = x ∷ []
  insert_sorted before x (y ∷ ys) = if before x y then x ∷ y ∷ ys else y ∷ insert_sorted before x ys

  unfoldable pub sort_by : (A → A → Bool) → List A → List A
  unfolding insert_sorted
  sort_by before [] = []
  sort_by before (x ∷ xs) = insert_sorted before x (sort_by before xs)

  pub insert_sorted-perm :
      (before : A → A → Bool) (x : A) (ys : List A) → Perm (insert_sorted before x ys) (x ∷ ys)
  unfolding insert_sorted
  insert_sorted-perm before x [] = Perm.refl _
  insert_sorted-perm before x (y ∷ ys) = elim (Bool-cases (before x y)) [
    | inl e ↦ rw e (Perm.refl _)
    | inr e ↦ rw e (Perm.trans (Perm.cons y (insert_sorted-perm before x ys)) (Perm.swap x y ys))
  ]

  pub sort_by-perm : (before : A → A → Bool) (xs : List A) → Perm (sort_by before xs) xs
  unfolding sort_by
  sort_by-perm before [] = Perm.refl []
  sort_by-perm before (x ∷ xs) =
      Perm.trans (insert_sorted-perm before x (sort_by before xs))
        (Perm.cons x (sort_by-perm before xs))

  -- No entry comes before one that stands ahead of it.
  abbrev pub IsSortedBy : (A → A → Bool) → List A → Type ℓ
  IsSortedBy before [] = Unit
  IsSortedBy before (x ∷ xs) = All (λ y. before y x ≡ false) xs × IsSortedBy before xs

  pub All-insert_sorted {κ} :
      (P : A → Type κ) (before : A → A → Bool) (x : A) (ys : List A)
      → P x
      → All P ys
      → All P (insert_sorted before x ys)
  unfolding insert_sorted
  All-insert_sorted P before x [] px h = (px, h)
  All-insert_sorted P before x (y ∷ ys) px (py, h) = elim (Bool-cases (before x y)) [
    | inl e ↦ rw e (px, (py, h))
    | inr e ↦ rw e (py, All-insert_sorted P before x ys px h)
  ]

  length-insert_sorted :
      (before : A → A → Bool) (x : A) (ys : List A)
      → length (insert_sorted before x ys) ≡ suc (length ys)
  unfolding insert_sorted
  length-insert_sorted before x [] = refl
  length-insert_sorted before x (y ∷ ys) = ground (arith, length-insert_sorted before x ys)

  pub length-sort_by :
      (before : A → A → Bool) (xs : List A) → length (sort_by before xs) ≡ length xs
  unfolding sort_by
  length-sort_by before [] = refl
  length-sort_by before (x ∷ xs) =
      omega (arith, length-insert_sorted before x (sort_by before xs), length-sort_by before xs)

  -- A property of all entries survives the sort.
  pub All-sort_by {κ} :
      (P : A → Type κ) (before : A → A → Bool) (xs : List A) → All P xs → All P (sort_by before xs)
  unfolding sort_by
  All-sort_by P before [] h = tt
  All-sort_by P before (x ∷ xs) (px, h) =
      All-insert_sorted P before x (sort_by before xs) px (All-sort_by P before xs h)

module _ {ℓ} {A : Type ℓ} (before : A → A → Bool)
    (asym : (x y : A) → before x y ≡ true → before y x ≡ false)
    (trans : (x y z : A) → before y x ≡ false → before z y ≡ false → before z x ≡ false) where
  insert_sorted-IsSortedBy :
      (x : A) (ys : List A) → IsSortedBy before ys → IsSortedBy before (insert_sorted before x ys)
  unfolding insert_sorted
  insert_sorted-IsSortedBy x [] h = (tt, tt)
  insert_sorted-IsSortedBy x (y ∷ ys) (a, h) = elim (Bool-cases (before x y)) [
    | inl e ↦ rw e (
      (
        asym x y e,
        All-mono (λ z. before z y ≡ false) (λ z. before z x ≡ false)
            (λ z q. trans x y z (asym x y e) q) ys a,
      ),
      (a, h),
    )
    | inr e ↦ rw e (
      All-insert_sorted (λ z. before z y ≡ false) before x ys e a,
      insert_sorted-IsSortedBy x ys h,
    )
  ]

  pub sort_by-IsSortedBy : (xs : List A) → IsSortedBy before (sort_by before xs)
  unfolding sort_by
  sort_by-IsSortedBy [] = tt
  sort_by-IsSortedBy (x ∷ xs) =
      insert_sorted-IsSortedBy x (sort_by before xs) (sort_by-IsSortedBy xs)
