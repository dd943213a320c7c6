-- ===== src/Prelude/Order.antt =====
-- Lists whose entries stand in a relation pairwise, texts that are all different, and the order of
-- texts.
use mathlib.Core.Path.{◌≡◌, refl}
use mathlib.Core.Logic.{◌≢◌, inl, inr}
use mathlib.Core.Bool.{Bool, true, false}
use mathlib.Core.List.{List, [], ◌∷◌}
use native.Mathlib.Omega.{arith}
use spacetrek.Prelude.Tests.{Bool-cases}
use spacetrek.Prelude.Lists.{All, All-mono, All-both, All-select, select}
use spacetrek.Prelude.Strings.{Text, text_lt}
use spacetrek.Prelude.Assoc.{Dict, values, Distinct}
use spacetrek.Prelude.Sort.{insert_sorted, sort_by, All-sort_by, All-insert_sorted}

module _ {ℓ} {A : Type ℓ} where
  -- Each entry stands in the relation to those behind it.
  abbrev pub Pairwise : (A → A → Type 0) → List A → Type ℓ
  Pairwise R [] = Unit
  Pairwise R (x ∷ xs) = All (R x) xs × Pairwise R xs

  pub Pairwise-mono :
      (R S : A → A → Type 0)
      → ((x y : A) → R x y → S x y)
      → (xs : List A) → Pairwise R xs
      → Pairwise S xs
  Pairwise-mono R S f [] h = tt
  Pairwise-mono R S f (x ∷ xs) (a, h) = (All-mono (R x) (S x) (f x) xs a, Pairwise-mono R S f xs h)

  pub Pairwise-both :
      (R S : A → A → Type 0) (xs : List A)
      → Pairwise R xs
      → Pairwise S xs
      → Pairwise (λ x y. R x y × S x y) xs
  Pairwise-both R S [] h k = tt
  Pairwise-both R S (x ∷ xs) (a, h) (b, k) = (All-both (R x) (S x) xs a b, Pairwise-both R S xs h k)

  All-selected : (P : A → Type 0) (p : A → Bool) (xs : List A) → All P xs → All P (select p xs)
  All-selected P p xs h =
      All-mono (λ x. P x × (p x ≡ true)) P (λ x q. q.0) (select p xs) (All-select P p xs h)

  pub Pairwise-select :
      (R : A → A → Type 0) (p : A → Bool) (xs : List A) → Pairwise R xs → Pairwise R (select p xs)
  Pairwise-select R p [] h = tt
  Pairwise-select R p (x ∷ xs) (a, h) = elim (Bool-cases (p x)) [
    | inl e ↦ rw e (All-selected (R x) p xs a, Pairwise-select R p xs h)
    | inr e ↦ rw e (Pairwise-select R p xs h)
  ]

  module _ (R : A → A → Type 0) (swap : (x y : A) → R x y → R y x) (before : A → A → Bool) where
    Pairwise-insert_sorted :
        (x : A) (ys : List A)
        → All (R x) ys
        → Pairwise R ys
        → Pairwise R (insert_sorted before x ys)
    unfolding insert_sorted
    Pairwise-insert_sorted x [] a h = (tt, tt)
    Pairwise-insert_sorted x (y ∷ ys) (xy, a) (b, h) = elim (Bool-cases (before x y)) [
      | inl e ↦ rw e ((xy, a), (b, h))
      | inr e ↦
          rw e
            (All-insert_sorted (R y) before x ys (swap x y xy) b, Pairwise-insert_sorted x ys a h)
    ]

    -- A sort keeps a relation that has no direction.
    pub Pairwise-sort_by : (xs : List A) → Pairwise R xs → Pairwise R (sort_by before xs)
    unfolding sort_by
    Pairwise-sort_by [] h = tt
    Pairwise-sort_by (x ∷ xs) (a, h) =
        Pairwise-insert_sorted x (sort_by before xs) (All-sort_by (R x) before xs a)
          (Pairwise-sort_by xs h)

module _ {V : Type 0} (name : V → Text) where
  abbrev pub Differ : V → V → Type 0
  Differ x y = name x ≢ name y

  names_differ :
      (k : Text) (m : Dict V)
      → All (λ e. name e.1 ≡ e.0) m
      → All (λ e. e.0 ≢ k) m
      → All (λ y. name y ≢ k) (values m)
  names_differ k [] h d = tt
  names_differ k ((j, v) ∷ m) (e, h) (n, d) = (λ q. n (cc), names_differ k m h d)

  -- The values of a map that are stored under their names are all different.
  pub values-Differ :
      (m : Dict V) → All (λ e. name e.1 ≡ e.0) m → Distinct m → Pairwise Differ (values m)
  values-Differ [] h d = tt
  values-Differ ((k, v) ∷ m) (e, h) (n, d) = (
    All-mono (λ y. name y ≢ k) (Differ v) (λ y q r. q (cc)) (values m) (names_differ k m h n),
    values-Differ m h d,
  )

pub text_lt_irrefl : (a : Text) → text_lt a a ≡ false
unfolding text_lt
text_lt_irrefl [] = refl
text_lt_irrefl (x ∷ a) = ground (arith, text_lt_irrefl a)

pub text_lt_asym : (a b : Text) → text_lt a b ≡ true → text_lt b a ≡ false
unfolding text_lt
text_lt_asym [] [] h = refl
text_lt_asym [] (y ∷ b) h = refl
text_lt_asym (x ∷ a) [] h = absurd (cc)
text_lt_asym (x ∷ a) (y ∷ b) h = ground (arith, text_lt_asym a b)

pub text_lt_total : (a b : Text) → text_lt a b ≡ false → text_lt b a ≡ false → a ≡ b
unfolding text_lt
text_lt_total [] [] h k = refl
text_lt_total [] (y ∷ b) h k = absurd (cc)
text_lt_total (x ∷ a) [] h k = absurd (cc)
text_lt_total (x ∷ a) (y ∷ b) h k = ground (arith, text_lt_total a b)

pub text_le_trans : (a b c : Text) → text_lt b a ≡ false → text_lt c b ≡ false → text_lt c a ≡ false
unfolding text_lt
text_le_trans [] b [] h k = refl
text_le_trans [] b (z ∷ c) h k = refl
text_le_trans (x ∷ a) [] c h k = absurd (cc)
text_le_trans (x ∷ a) (y ∷ b) [] h k = absurd (cc)
text_le_trans (x ∷ a) (y ∷ b) (z ∷ c) h k = ground (arith, text_le_trans a b c)
