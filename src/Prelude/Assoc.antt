-- ===== src/Prelude/Assoc.antt =====
-- Go maps with string keys, as association lists in the order of a `range` over them.
use mathlib.Core.Path.{◌≡◌, refl, sym, subst}
use mathlib.Core.Logic.{◌≢◌, inl, inr}
use mathlib.Core.List.{List, [], ◌∷◌}
use mathlib.Core.Option.{Option, none, some}
use native.Mathlib.Omega.{arith}
use spacetrek.Prelude.Tests.{if◌then◌else◌, Bool-cases}
use spacetrek.Prelude.Lists.{All, All-mono, All-both}
use spacetrek.Prelude.Strings.{Text, text_eq, text_eq_iff, text_eq_refl}

abbrev pub Dict {ℓ} : Type ℓ → Type ℓ
Dict V = List (Text × V)

module _ {ℓ} {V : Type ℓ} where
  -- `v, ok := m[k]`
  unfoldable pub lookup : Text → Dict V → Option V
  lookup k [] = none
  lookup k ((j, v) ∷ m) = if text_eq j k then some v else lookup k m

  -- `m[k] = v`
  unfoldable pub insert : Text → V → Dict V → Dict V
  insert k v [] = (k, v) ∷ []
  insert k v ((j, w) ∷ m) = if text_eq j k then (j, v) ∷ m else (j, w) ∷ insert k v m

  -- `delete(m, k)`
  unfoldable pub remove : Text → Dict V → Dict V
  remove k [] = []
  remove k ((j, w) ∷ m) = let rest = remove k m in if text_eq j k then rest else (j, w) ∷ rest

  abbrev pub values : Dict V → List V
  values [] = []
  values ((j, v) ∷ m) = v ∷ values m

  pub lookup-insert :
      (k j : Text) (v : V) (m : Dict V)
      → lookup j (insert k v m) ≡ (if text_eq k j then some v else lookup j m)
  unfolding lookup insert
  lookup-insert k j v [] = refl
  lookup-insert k j v ((i, w) ∷ m) =
      ground (arith, text_eq_iff k j, text_eq_iff i k, text_eq_iff i j, lookup-insert k j v m)

  pub lookup-remove :
      (k j : Text) (m : Dict V) → lookup j (remove k m) ≡ (if text_eq k j then none else lookup j m)
  unfolding lookup remove
  lookup-remove k j [] = ground arith
  lookup-remove k j ((i, w) ∷ m) =
      ground (arith, text_eq_iff k j, text_eq_iff i k, text_eq_iff i j, lookup-remove k j m)

  -- A property of every entry.
  pub All-insert {κ} :
      (P : Text × V → Type κ) (k : Text) (v : V) (m : Dict V)
      → P (k, v)
      → All P m
      → All P (insert k v m)
  unfolding insert
  All-insert P k v [] pk h = (pk, tt)
  All-insert P k v ((j, w) ∷ m) pk (pj, h) = elim (Bool-cases (text_eq j k)) [
    | inl e ↦ rw e (subst (λ i. P (i, v)) (sym ((text_eq_iff j k).0 e)) pk, h)
    | inr e ↦ rw e (pj, All-insert P k v m pk h)
  ]

  pub All-remove {κ} :
      (P : Text × V → Type κ) (k : Text) (m : Dict V) → All P m → All P (remove k m)
  unfolding remove
  All-remove P k [] h = tt
  All-remove P k ((j, w) ∷ m) (pj, h) = elim (Bool-cases (text_eq j k)) [
    | inl e ↦ rw e (All-remove P k m h)
    | inr e ↦ rw e (pj, All-remove P k m h)
  ]

  pub All-lookup {κ} :
      (P : Text × V → Type κ) (k : Text) (v : V) (m : Dict V)
      → All P m
      → lookup k m ≡ some v
      → P (k, v)
  unfolding lookup
  All-lookup P k v [] h e = absurd (cc)
  All-lookup P k v ((j, w) ∷ m) (pj, h) e = elim (Bool-cases (text_eq j k)) [
    | inl hit ↦
        let q : w ≡ v = ground arith in
        subst (λ i. P (i, v)) ((text_eq_iff j k).0 hit) (subst (λ x. P (j, x)) q pj)
    | inr miss ↦ All-lookup P k v m h (ground arith)
  ]

  -- Each key once.
  abbrev pub Distinct : Dict V → Type 0
  Distinct [] = Unit
  Distinct ((k, v) ∷ m) = All (λ e. e.0 ≢ k) m × Distinct m

  pub Distinct-insert : (k : Text) (v : V) (m : Dict V) → Distinct m → Distinct (insert k v m)
  unfolding insert
  Distinct-insert k v [] h = (tt, tt)
  Distinct-insert k v ((j, w) ∷ m) (a, h) = elim (Bool-cases (text_eq j k)) [
    | inl e ↦ rw e (a, h)
    | inr e ↦ rw e (
      All-insert (λ e. e.0 ≢ j) k v m (λ q. ground (arith, text_eq_iff j k)) a,
      Distinct-insert k v m h,
    )
  ]

  pub Distinct-remove : (k : Text) (m : Dict V) → Distinct m → Distinct (remove k m)
  unfolding remove
  Distinct-remove k [] h = tt
  Distinct-remove k ((j, w) ∷ m) (a, h) = elim (Bool-cases (text_eq j k)) [
    | inl e ↦ rw e (Distinct-remove k m h)
    | inr e ↦ rw e (All-remove (λ e. e.0 ≢ j) k m a, Distinct-remove k m h)
  ]

  -- The entries' property, of the values alone.
  pub All-values {κ} : (P : V → Type κ) (m : Dict V) → All (λ e. P e.1) m → All P (values m)
  All-values P [] h = tt
  All-values P ((j, w) ∷ m) (pj, h) = (pj, All-values P m h)

  -- In a map with each key once, every entry is found under its key.
  pub entries_found : (m : Dict V) → Distinct m → All (λ e. lookup e.0 m ≡ some e.1) m
  unfolding lookup
  entries_found [] h = tt
  entries_found ((k, v) ∷ m) (a, h) = (
    ground (arith, text_eq_refl k),
    All-mono (λ e. (e.0 ≢ k) × (lookup e.0 m ≡ some e.1)) (λ e. lookup e.0 ((k, v) ∷ m) ≡ some e.1)
        (λ e q. ground (arith, text_eq_iff k e.0)) m
        (All-both (λ e. e.0 ≢ k) (λ e. lookup e.0 m ≡ some e.1) m a (entries_found m h)),
  )
