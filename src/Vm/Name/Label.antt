-- ===== src/Vm/Name/Label.antt =====
-- `NormalizeName` against the rules of DNS labels.
use spacetrek.Prelude.{
  zero, suc, ℕ, ◌≤◌, ◌≡◌, refl, ◌⊎◌, inl, inr, Bool, true, false, ◌&&◌, List, [], ◌∷◌, arith, ltb,
  ◌==◌, Bool-cases, Text, length, take, All, length-take,
}
use spacetrek.Vm.Name.{
  max_len, lower_all, is_alnum, is_name_char, replace_runs, collapse, trim_left, cons_trimmed,
  trim_right, trim, truncate, normalize_name,
}

abbrev IsNameChar : ℕ → Type 0
IsNameChar c = is_name_char c ≡ true

-- No hyphen stands first, after a hyphen (`dash` tells of the byte in front), or last.
abbrev pub Spaced : Bool → List ℕ → Type 0
Spaced dash [] = dash ≡ false
Spaced dash (c ∷ s) = ((dash && c == b'-') ≡ false) × Spaced (c == b'-') s

-- Hyphens are single; the end may be one.
abbrev Single : Bool → List ℕ → Type 0
Single dash [] = Unit
Single dash (c ∷ s) = ((dash && c == b'-') ≡ false) × Single (c == b'-') s

-- A label or the empty text: name characters, single hyphens inside only, at most 63 bytes.
pub record IsLabel (s : Text) : Type 0 where
  pub chars : All (λ c. is_name_char c ≡ true) s
  pub first : (s ≡ []) ⊎ Spaced true s
  pub size : length s ≤ max_len

-- Replacing runs leaves name characters.
replace_runs-chars : (r : Bool) (s : List ℕ) → All IsNameChar (replace_runs r s)
unfolding replace_runs is_name_char is_alnum
replace_runs-chars r [] = tt
replace_runs-chars r (c ∷ s) = ground (arith, replace_runs-chars true s, replace_runs-chars false s)

collapse-chars : (d : Bool) (s : List ℕ) → All IsNameChar s → All IsNameChar (collapse d s)
unfolding collapse
collapse-chars d [] h = tt
collapse-chars d (c ∷ s) (hc, h) = ground (arith, collapse-chars (c == b'-') s h)

collapse-Single : (d : Bool) (s : List ℕ) → Single d (collapse d s)
unfolding collapse
collapse-Single d [] = tt
collapse-Single d (c ∷ s) = ground (arith, collapse-Single true s, collapse-Single false s)

trim_left-chars : (s : List ℕ) → All IsNameChar s → All IsNameChar (trim_left s)
unfolding trim_left
trim_left-chars [] h = tt
trim_left-chars (c ∷ s) (hc, h) = ground (arith, trim_left-chars s h)

-- After the left trim no hyphen stands first.
trim_left-Single : (d : Bool) (s : List ℕ) → Single d s → Single true (trim_left s)
unfolding trim_left
trim_left-Single d [] h = tt
trim_left-Single d (c ∷ s) (hc, h) = ground (arith, trim_left-Single (c == b'-') s h)

trim_right-chars : (s : List ℕ) → All IsNameChar s → All IsNameChar (trim_right s)
unfolding trim_right cons_trimmed
trim_right-chars [] h = tt
trim_right-chars (c ∷ s) (hc, h) = ground (arith, trim_right-chars s h)

-- After the right trim what is left ends in no hyphen.
trim_right-Spaced :
    (d : Bool) (s : List ℕ) → Single d s → (trim_right s ≡ []) ⊎ Spaced d (trim_right s)
unfolding trim_right cons_trimmed
trim_right-Spaced d [] h = inl refl
trim_right-Spaced d (c ∷ s) (hc, h) = ground (arith, trim_right-Spaced (c == b'-') s h)

Spaced→Single : (d : Bool) (s : List ℕ) → Spaced d s → Single d s
Spaced→Single d [] h = tt
Spaced→Single d (c ∷ s) (hc, h) = (hc, Spaced→Single (c == b'-') s h)

take-Single : (d : Bool) (n : ℕ) (s : List ℕ) → Single d s → Single d (take n s)
take-Single d zero s h = tt
take-Single d (suc n) [] h = tt
take-Single d (suc n) (c ∷ s) (hc, h) = (hc, take-Single (c == b'-') n s h)

length-trim_right : (s : List ℕ) → length (trim_right s) ≤ length s
unfolding trim_right cons_trimmed
length-trim_right [] = omega arith
length-trim_right (c ∷ s) = ground (arith, length-trim_right s)

take-chars : (n : ℕ) (s : List ℕ) → All IsNameChar s → All IsNameChar (take n s)
take-chars zero s h = tt
take-chars (suc n) [] h = tt
take-chars (suc n) (c ∷ s) (hc, h) = (hc, take-chars n s h)

-- The truncated text, for one that the trims left.
truncate-IsLabel : (s : List ℕ) → All IsNameChar s → (s ≡ []) ⊎ Spaced true s → IsLabel (truncate s)
unfolding truncate
truncate-IsLabel s c f = elim (Bool-cases (ltb max_len (length s))) [
  | inl long ↦ rw long (record {
    chars = trim_right-chars (take max_len s) (take-chars max_len s c);
    first = trim_right-Spaced true (take max_len s) (take-Single true max_len s (single s f));
    size = omega (arith, length-trim_right (take max_len s), length-take max_len s);
  })
  | inr short ↦ rw short (record { chars = c; first = f; size = ground arith })
]
  where
    single : (t : List ℕ) → (t ≡ []) ⊎ Spaced true t → Single true t
    single t (inl e) = rw e tt
    single t (inr h) = Spaced→Single true t h

-- The text before the truncation.
abbrev pub trimmed : List ℕ → List ℕ
trimmed s = trim (collapse false (replace_runs false (lower_all s)))

pub trimmed-chars : (s : List ℕ) → All (λ c. is_name_char c ≡ true) (trimmed s)
unfolding trim
trimmed-chars s =
    let text = collapse false (replace_runs false (lower_all s)) in
    let chars =
      collapse-chars false (replace_runs false (lower_all s))
        (replace_runs-chars false (lower_all s)) in
    trim_right-chars (trim_left text) (trim_left-chars text chars)

pub trimmed-Spaced : (s : List ℕ) → (trimmed s ≡ []) ⊎ Spaced true (trimmed s)
unfolding trim
trimmed-Spaced s =
    let text = collapse false (replace_runs false (lower_all s)) in
    let single = collapse-Single false (replace_runs false (lower_all s)) in
    trim_right-Spaced true (trim_left text) (trim_left-Single false text single)

-- Whatever the runes, NormalizeName returns the empty text or a DNS label: name characters only,
-- no hyphen first, last or doubled, and at most 63 bytes.
pub normalize_name-IsLabel : (s : List ℕ) → IsLabel (normalize_name s)
unfolding normalize_name
normalize_name-IsLabel s = truncate-IsLabel (trimmed s) (trimmed-chars s) (trimmed-Spaced s)
