-- ===== src/Vm/Name/Fixpoint.antt =====
-- What `NormalizeName` leaves alone, and when it leaves nothing.
use spacetrek.Prelude.{
  ℕ, ◌≤◌, ◌≡◌, refl, sym, ◌∙◌, ◌≢◌, ◌↔◌, ◌⊎◌, inl, inr, Bool, true, false, ◌||◌, List, [], ◌∷◌,
  arith, ltb, ◌==◌, Bool-cases, Text, length, take, All,
}
use spacetrek.Vm.Name.{
  max_len, to_lower, lower_all, is_alnum, is_name_char, replace_runs, collapse, trim_left,
  cons_trimmed, trim_right, trim, truncate, normalize_name,
}
use spacetrek.Vm.Name.Label.{
  IsLabel, Spaced, trimmed, trimmed-chars, trimmed-Spaced, normalize_name-IsLabel,
}

abbrev IsNameChar : ℕ → Type 0
IsNameChar c = is_name_char c ≡ true

to_lower_fix : (c : ℕ) → IsNameChar c → to_lower c ≡ c
unfolding to_lower is_name_char is_alnum
to_lower_fix c h = ground arith

lower_all_fix : (s : List ℕ) → All IsNameChar s → lower_all s ≡ s
unfolding lower_all
lower_all_fix [] h = refl
lower_all_fix (c ∷ s) (hc, h) = ground (arith, to_lower_fix c hc, lower_all_fix s h)

replace_runs_fix : (r : Bool) (s : List ℕ) → All IsNameChar s → replace_runs r s ≡ s
unfolding replace_runs
replace_runs_fix r [] h = refl
replace_runs_fix r (c ∷ s) (hc, h) = ground (arith, replace_runs_fix false s h)

collapse_fix : (d : Bool) (s : List ℕ) → Spaced d s → collapse d s ≡ s
unfolding collapse
collapse_fix d [] h = refl
collapse_fix d (c ∷ s) (hc, h) = ground (arith, collapse_fix (c == b'-') s h)

trim_left_fix : (s : List ℕ) → Spaced true s → trim_left s ≡ s
unfolding trim_left
trim_left_fix [] h = refl
trim_left_fix (c ∷ s) (hc, h) = ground arith

trim_right_fix : (d : Bool) (s : List ℕ) → Spaced d s → trim_right s ≡ s
unfolding trim_right cons_trimmed
trim_right_fix d [] h = refl
trim_right_fix d (c ∷ []) (hc, h) = ground arith
trim_right_fix d (c ∷ x ∷ s) (hc, h) = rw (trim_right_fix (c == b'-') (x ∷ s) h) refl

Spaced-weaken : (s : List ℕ) → Spaced true s → Spaced false s
Spaced-weaken [] h = refl
Spaced-weaken (c ∷ s) (hc, h) = (refl, h)

truncate_fix : (s : List ℕ) → length s ≤ max_len → truncate s ≡ s
unfolding truncate
truncate_fix s h = ground arith

label_fix :
    (s : Text) → All IsNameChar s → Spaced true s → length s ≤ max_len → normalize_name s ≡ s
unfolding normalize_name trim
label_fix s c f n =
    rw
      (
        lower_all_fix s c,
        replace_runs_fix false s c,
        collapse_fix false s (Spaced-weaken s f),
        trim_left_fix s f,
        trim_right_fix true s f,
      )
      (truncate_fix s n)

-- A label is its own normal form.
pub normalize_name_fix : (s : Text) → IsLabel s → normalize_name s ≡ s
unfolding normalize_name lower_all replace_runs collapse trim trim_left trim_right truncate
normalize_name_fix [] l = refl
normalize_name_fix (c ∷ s) l = elim l.first [
  | inl e ↦ absurd (ground arith)
  | inr f ↦ label_fix (c ∷ s) l.chars f l.size
]

-- NormalizeName is idempotent.
pub normalize_name_idem : (s : List ℕ) → normalize_name (normalize_name s) ≡ normalize_name s
normalize_name_idem s = normalize_name_fix (normalize_name s) (normalize_name-IsLabel s)

-- Some byte is a letter or a digit.
unfoldable pub has_alnum : List ℕ → Bool
has_alnum [] = false
has_alnum (c ∷ s) = is_alnum c || has_alnum s

has_alnum-replace_runs : (r : Bool) (s : List ℕ) → has_alnum (replace_runs r s) ≡ has_alnum s
unfolding has_alnum replace_runs is_name_char is_alnum
has_alnum-replace_runs r [] = refl
has_alnum-replace_runs r (c ∷ s) =
    ground (arith, has_alnum-replace_runs true s, has_alnum-replace_runs false s)

has_alnum-collapse : (d : Bool) (s : List ℕ) → has_alnum (collapse d s) ≡ has_alnum s
unfolding has_alnum collapse is_alnum
has_alnum-collapse d [] = refl
has_alnum-collapse d (c ∷ s) = ground (arith, has_alnum-collapse true s, has_alnum-collapse false s)

has_alnum-trim_left : (s : List ℕ) → has_alnum (trim_left s) ≡ has_alnum s
unfolding has_alnum trim_left is_alnum
has_alnum-trim_left [] = refl
has_alnum-trim_left (c ∷ s) = ground (arith, has_alnum-trim_left s)

has_alnum-trim_right : (s : List ℕ) → has_alnum (trim_right s) ≡ has_alnum s
unfolding has_alnum trim_right cons_trimmed is_alnum
has_alnum-trim_right [] = refl
has_alnum-trim_right (c ∷ s) = ground (arith, has_alnum-trim_right s)

has_alnum-trim : (s : List ℕ) → has_alnum (trim s) ≡ has_alnum s
unfolding trim
has_alnum-trim s = has_alnum-trim_right (trim_left s) ∙ has_alnum-trim_left s

-- A text that starts with a byte other than a hyphen is not trimmed away, nor cut to nothing.
truncate-cons : (c : ℕ) (s : List ℕ) → (c == b'-') ≡ false → truncate (c ∷ s) ≢ []
unfolding truncate trim_right
truncate-cons c s h = elim (Bool-cases (ltb max_len (length (c ∷ s)))) [
  | inl long ↦ rw long (kept (trim_right (take 62 s)))
  | inr short ↦ rw short (λ e. cc)
]
  where
    kept : (t : List ℕ) → cons_trimmed c t ≢ []
    kept t = ground arith

truncate-nil :
    (t : List ℕ)
    → All IsNameChar t
    → (t ≡ []) ⊎ Spaced true t
    → (truncate t ≡ []) ↔ (has_alnum t ≡ false)
unfolding has_alnum is_name_char
truncate-nil [] c f = (λ e. refl, λ e. truncate_fix [] (omega arith))
truncate-nil (x ∷ t) (hx, c) (inl e) = absurd (ground arith)
truncate-nil (x ∷ t) (hx, c) (inr (hs, f)) =
    (λ e. absurd (truncate-cons x t hs e), λ e. absurd (ground arith))

-- NormalizeName returns the empty text exactly when no rune has a lower case that is an ASCII
-- letter or digit.
pub normalize_name-nil : (s : List ℕ) → (normalize_name s ≡ []) ↔ (has_alnum (lower_all s) ≡ false)
unfolding normalize_name
normalize_name-nil s =
    let same : has_alnum (trimmed s) ≡ has_alnum (lower_all s) =
      has_alnum-trim (collapse false (replace_runs false (lower_all s)))
      ∙ has_alnum-collapse false (replace_runs false (lower_all s))
      ∙ has_alnum-replace_runs false (lower_all s) in
    let cases = truncate-nil (trimmed s) (trimmed-chars s) (trimmed-Spaced s) in
    (λ e. sym same ∙ cases.0 e, λ e. cases.1 (same ∙ e))
