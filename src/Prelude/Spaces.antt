-- ===== src/Prelude/Spaces.antt =====
-- `strings.TrimSpace`, on texts of runes, and the length in bytes of such a text.
use Prim.Native.Nat.{ℕ, ◌+◌}
use mathlib.Core.Path.{◌≡◌, refl, ap}
use mathlib.Core.Logic.{inl, inr}
use mathlib.Core.Bool.{Bool, false, ◌&&◌, ◌||◌}
use mathlib.Core.List.{[], ◌∷◌}
use spacetrek.Prelude.Tests.{ltb, leb, ◌==◌, if◌then◌else◌, Bool-cases}
use spacetrek.Prelude.Strings.{Text}

-- `unicode.IsSpace`
unfoldable pub is_space : ℕ → Bool
is_space c =
    (leb 9 c && leb c 13)
    || c == 32
    || c == 0x85
    || c == 0xA0
    || c == 0x1680
    || (leb 0x2000 c && leb c 0x200A)
    || c == 0x2028
    || c == 0x2029
    || c == 0x202F
    || c == 0x205F
    || c == 0x3000

unfoldable pub trim_front : Text → Text
unfolding is_space
trim_front [] = []
trim_front (c ∷ cs) = let rest = trim_front cs in if is_space c then rest else c ∷ cs

-- `c` stands in front of a text that is trimmed at its end.
unfoldable pub keep_front : ℕ → Text → Text
unfolding is_space
keep_front c [] = if is_space c then [] else c ∷ []
keep_front c (d ∷ ds) = c ∷ d ∷ ds

unfoldable pub trim_back : Text → Text
unfolding keep_front
trim_back [] = []
trim_back (c ∷ cs) = keep_front c (trim_back cs)

unfoldable pub trim_space : Text → Text
unfolding trim_front trim_back
trim_space t = trim_back (trim_front t)

-- The bytes of a rune in UTF-8.
abbrev pub rune_length : ℕ → ℕ
rune_length c = if ltb c 0x80 then 1 else if ltb c 0x800 then 2 else if ltb c 0x10000 then 3 else 4

-- `len(s)`
unfoldable pub byte_length : Text → ℕ
byte_length [] = 0
byte_length (c ∷ cs) = rune_length c + byte_length cs

-- The first rune is no space.
abbrev pub StartsInk : Text → Type 0
StartsInk [] = Unit
StartsInk (c ∷ cs) = is_space c ≡ false

abbrev pub EndsInk : Text → Type 0
EndsInk [] = Unit
EndsInk (c ∷ []) = is_space c ≡ false
EndsInk (c ∷ d ∷ ds) = EndsInk (d ∷ ds)

-- No space at either end.
abbrev pub IsTrimmed : Text → Type 0
IsTrimmed t = StartsInk t × EndsInk t

trim_front-StartsInk : (t : Text) → StartsInk (trim_front t)
unfolding trim_front
trim_front-StartsInk [] = tt
trim_front-StartsInk (c ∷ cs) = elim (Bool-cases (is_space c)) [
  | inl e ↦ rw e (trim_front-StartsInk cs)
  | inr e ↦ rw e e
]

keep_front-EndsInk : (c : ℕ) (t : Text) → EndsInk t → EndsInk (keep_front c t)
unfolding keep_front
keep_front-EndsInk c [] h = elim (Bool-cases (is_space c)) [ inl e ↦ rw e tt | inr e ↦ rw e e ]
keep_front-EndsInk c (d ∷ ds) h = h

trim_back-EndsInk : (t : Text) → EndsInk (trim_back t)
unfolding trim_back
trim_back-EndsInk [] = tt
trim_back-EndsInk (c ∷ cs) = keep_front-EndsInk c (trim_back cs) (trim_back-EndsInk cs)

keep_front-StartsInk : (c : ℕ) (t : Text) → is_space c ≡ false → StartsInk (keep_front c t)
unfolding keep_front
keep_front-StartsInk c [] h = rw h h
keep_front-StartsInk c (d ∷ ds) h = h

trim_back-StartsInk : (t : Text) → StartsInk t → StartsInk (trim_back t)
unfolding trim_back
trim_back-StartsInk [] h = tt
trim_back-StartsInk (c ∷ cs) h = keep_front-StartsInk c (trim_back cs) h

pub trim_space-IsTrimmed : (t : Text) → IsTrimmed (trim_space t)
unfolding trim_space
trim_space-IsTrimmed t =
    (trim_back-StartsInk (trim_front t) (trim_front-StartsInk t), trim_back-EndsInk (trim_front t))

trim_front_same : (t : Text) → StartsInk t → trim_front t ≡ t
unfolding trim_front
trim_front_same [] h = refl
trim_front_same (c ∷ cs) h = rw h refl

trim_back_same : (t : Text) → EndsInk t → trim_back t ≡ t
unfolding trim_back keep_front
trim_back_same [] h = refl
trim_back_same (c ∷ []) h = rw h refl
trim_back_same (c ∷ d ∷ ds) h = ap (keep_front c) (trim_back_same (d ∷ ds) h)

-- A trimmed text stays as it is.
pub trim_space_same : (t : Text) → IsTrimmed t → trim_space t ≡ t
unfolding trim_space
trim_space_same t (s, e) = rw (trim_front_same t s) (trim_back_same t e)
