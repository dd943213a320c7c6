-- ===== src/Vm/Name.antt =====
-- Names as DNS labels: `NormalizeName` of src/core/domain/vm/vm.go. The input is the string's runes.
-- The regular expressions are written as the scans that they stand for.
pub mod Label
pub mod Fixpoint
use spacetrek.Prelude.{
  ℕ, ◌+◌, Bool, true, false, not, ◌&&◌, ◌||◌, List, [], ◌∷◌, ltb, leb, ◌==◌, if◌then◌else◌, Text,
  length, take,
}

-- `naming.MaxLen`
abbrev pub max_len : ℕ
max_len = 63

-- `strings.ToLower`, as far as ASCII can tell: besides A-Z only U+0130 and U+212A have an ASCII
-- lower case, and no rune outside ASCII that stays outside is a name character.
unfoldable pub to_lower : ℕ → ℕ
to_lower c =
    if leb b'A' c && leb c b'Z'
    then c + 32
    else if c == 0x130
    then b'i'
    else if c == 0x212A
    then b'k'
    else c

unfoldable pub lower_all : List ℕ → List ℕ
unfolding to_lower
lower_all [] = []
lower_all (c ∷ s) = to_lower c ∷ lower_all s

-- `[a-z0-9]`
unfoldable pub is_alnum : ℕ → Bool
is_alnum c = (leb b'a' c && leb c b'z') || (leb b'0' c && leb c b'9')

-- `[a-z0-9-]`
unfoldable pub is_name_char : ℕ → Bool
unfolding is_alnum
is_name_char c = is_alnum c || c == b'-'

-- `[^a-z0-9-]+` by "-": the flag says that the scan is inside a run, whose hyphen is written.
unfoldable pub replace_runs : Bool → List ℕ → List ℕ
unfolding is_name_char
replace_runs in_run [] = []
replace_runs in_run (c ∷ s) =
    let keep = is_name_char c in
    let rest = replace_runs (not keep) s in
    if keep then c ∷ rest else if in_run then rest else b'-' ∷ rest

-- `-{2,}` by "-": the flag says that the last byte was a hyphen.
unfoldable pub collapse : Bool → List ℕ → List ℕ
collapse dash [] = []
collapse dash (c ∷ s) =
    let here = c == b'-' in let rest = collapse here s in if here && dash then rest else c ∷ rest

unfoldable pub trim_left : List ℕ → List ℕ
trim_left [] = []
trim_left (c ∷ s) = let rest = trim_left s in if c == b'-' then rest else c ∷ s

-- A byte in front of what is left when the right end is trimmed.
unfoldable pub cons_trimmed : ℕ → List ℕ → List ℕ
cons_trimmed c [] = if c == b'-' then [] else c ∷ []
cons_trimmed c (x ∷ xs) = c ∷ x ∷ xs

unfoldable pub trim_right : List ℕ → List ℕ
unfolding cons_trimmed
trim_right [] = []
trim_right (c ∷ s) = cons_trimmed c (trim_right s)

-- `strings.Trim(s, "-")`
unfoldable pub trim : List ℕ → List ℕ
unfolding trim_left trim_right
trim s = trim_right (trim_left s)

unfoldable pub truncate : List ℕ → List ℕ
unfolding trim_right
truncate s = if ltb max_len (length s) then trim_right (take max_len s) else s

unfoldable pub normalize_name : List ℕ → Text
unfolding lower_all replace_runs collapse trim truncate
normalize_name s = truncate (trim (collapse false (replace_runs false (lower_all s))))
