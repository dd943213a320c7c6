-- ===== src/Writers/Reading.antt =====
-- The hosts file of src/service/vm/hostswriter/writer.go as a resolver reads it: lines of words apart
-- by blanks, the first one the address, with comments from a word that starts with #.
use mathlib.Core.List.{Perm}
use spacetrek.Prelude.{
  ◌≡◌, ◌≢◌, ◌∙◌, none, some, refl, sym, ap, ℕ, Bool, arith, true, false, List, [], ◌∷◌, ◌++◌,
  append_assoc, append-nil, All-append, Text, codes, ◌==◌, ◌||◌, if◌then◌else◌, All, All-mono,
  All-select, All-sort_by, sort_by, sort_by-perm, select, is_empty, map,
}
use spacetrek.Vm.{
  Vm, Status, provisioning, ready, running, idle, terminated, status_eq, is_terminated,
}
use spacetrek.Writers.Hosts.{
  address_of, notice, host_line, host_lines, is_eligible, by_name, eligible, render,
}

-- The word joins those of its line, unless it is empty.
abbrev pub push : List Text → Text → List Text
push words [] = words
push words (c ∷ cs) = words ++ (c ∷ cs) ∷ []

-- A line that is read, unless it is empty or a comment.
abbrev pub take_line : List Text → List (List Text) → List (List Text)
take_line [] rest = rest
take_line ([] ∷ words) rest = rest
take_line ((c ∷ cs) ∷ words) rest = if c == b'#' then rest else ((c ∷ cs) ∷ words) ∷ rest

abbrev pub is_blank : ℕ → Bool
is_blank c = (c == b' ') || (c == b'\t')

-- `words` and `word` are read of the line.
unfoldable pub read : List Text → Text → Text → List (List Text)
read words word [] = take_line (push words word) []
read words word (c ∷ cs) =
    let next_line = read [] [] cs in
    let next_word = read (push words word) [] cs in
    let same_word = read words (word ++ c ∷ []) cs in
    if c == b'\n'
    then take_line (push words word) next_line
    else if is_blank c
    then next_word
    else same_word

-- Not a blank, not a line break, and not what starts a comment.
abbrev pub IsWordChar : ℕ → Type 0
IsWordChar c = (c ≢ 32) × (c ≢ 9) × (c ≢ 10) × (c ≢ 35)

abbrev pub IsWord : Text → Type 0
IsWord t = All IsWordChar t × (t ≢ [])

read-word :
    (words : List Text) (word t rest : Text)
    → All IsWordChar t
    → read words word (t ++ rest) ≡ read words (word ++ t) rest
unfolding read
read-word words word [] rest h = ap (λ w. read words w rest) (sym (append-nil word))
read-word words word (c ∷ cs) rest (hc, h) =
    let plain : (c == b'\n') ≡ false = ground arith in
    let inked : is_blank c ≡ false = ground arith in
    rw (plain, inked)
      (read-word words (word ++ c ∷ []) cs rest h
        ∙ ap (λ w. read words w rest) (append_assoc word (c ∷ []) cs))

push_word : (words : List Text) (w : Text) → w ≢ [] → push words w ≡ words ++ w ∷ []
push_word words [] n = absurd (n refl)
push_word words (c ∷ cs) n = refl

read-blank :
    (words : List Text) (w : Text) (c : ℕ) (rest : Text)
    → IsWord w
    → is_blank c ≡ true
    → read words [] (w ++ c ∷ rest) ≡ read (words ++ w ∷ []) [] rest
unfolding read
read-blank words w c rest (h, n) b =
    let plain : (c == b'\n') ≡ false = ground arith in
    read-word words [] w (c ∷ rest) h
    ∙ rw (plain, b) (ap (λ ws. read ws [] rest) (push_word words w n))

read-break :
    (words : List Text) (w rest : Text)
    → IsWord w
    → read words [] (w ++ b'\n' ∷ rest) ≡ take_line (words ++ w ∷ []) (read [] [] rest)
unfolding read
read-break words w rest (h, n) =
    read-word words [] w (b'\n' ∷ rest) h
    ∙ ap (λ ws. take_line ws (read [] [] rest)) (push_word words w n)

-- The line's words, where the first does not start a comment.
take_word :
    (w : Text) (words : List Text) (rest : List (List Text))
    → IsWord w
    → take_line (w ∷ words) rest ≡ (w ∷ words) ∷ rest
take_word [] words rest (h, n) = absurd (n refl)
take_word (c ∷ cs) words rest (h, n) =
    let plain : (c == b'#') ≡ false = ground (arith, h.0) in rw plain refl

suffix_word : All IsWordChar (codes ".vm.internal")
suffix_word = ground arith

full_name : (name : Text) → IsWord name → IsWord (name ++ codes ".vm.internal")
full_name [] (h, n) = absurd (n refl)
full_name (c ∷ cs) (h, n) =
    (All-append IsWordChar (c ∷ cs) (codes ".vm.internal") h suffix_word, λ q. absurd (cc q))

read-host_line :
    (ip name rest : Text)
    → IsWord ip
    → IsWord name
    → read [] [] (host_line ip name rest)
      ≡ (ip ∷ (name ++ codes ".vm.internal") ∷ name ∷ []) ∷ read [] [] rest
read-host_line ip name rest hi hn =
    let last = name ++ b'\n' ∷ rest in
    let middle = name ++ (codes ".vm.internal" ++ b'\t' ∷ last) in
    read-blank [] ip b' ' (b' ' ∷ b' ' ∷ middle) hi refl
    ∙ unfold read in
      (ap (λ t. read (ip ∷ []) [] t) (sym (append_assoc name (codes ".vm.internal") (b'\t' ∷ last)))
        ∙ read-blank (ip ∷ []) (name ++ codes ".vm.internal") b'\t' last (full_name name hn) refl
        ∙ read-break (ip ∷ (name ++ codes ".vm.internal") ∷ []) name rest hn
        ∙ take_word ip ((name ++ codes ".vm.internal") ∷ name ∷ []) (read [] [] rest) hi)

-- The VM's address, empty where there is none.
abbrev pub ip_text : Vm → Text
ip_text v = elim v.ip_address [ none ↦ [] | some ip ↦ ip ]

-- What a resolver should know of a VM.
abbrev pub host_words : Vm → List Text
host_words v = ip_text v ∷ (v.name ++ codes ".vm.internal") ∷ v.name ∷ []

-- A VM whose name and address a hosts file can hold, where they are not empty.
abbrev pub IsPlain : Vm → Type 0
IsPlain v = All IsWordChar v.name × All IsWordChar (ip_text v)

read-host_lines :
    (vs : List Vm)
    → All (λ v. IsWord v.name × IsWord (address_of v)) vs
    → read [] [] (host_lines vs) ≡ map host_words vs
unfolding host_lines read
read-host_lines [] h = refl
read-host_lines (v ∷ vs) ((n, a), h) =
    read-host_line (address_of v) v.name (host_lines vs) a n
    ∙ ap (◌∷◌ (host_words v)) (read-host_lines vs h)

-- What is written of: a VM that is not terminated and has a name and an address.
abbrev pub IsServed : Vm → Type 0
IsServed v = (v.status ≢ terminated) × (v.name ≢ []) × (ip_text v ≢ [])

nonempty_text : (t : Text) → is_empty t ≡ false → t ≢ []
nonempty_text [] h = absurd (cc)
nonempty_text (c ∷ cs) h = λ q. absurd (cc q)

alive : (s : Status) → status_eq s terminated ≡ false → s ≢ terminated
alive s h q = absurd (cc (rw q at h))

not_over : (s : Status) → s ≢ terminated → status_eq s terminated ≡ false
not_over provisioning h = refl
not_over ready h = refl
not_over running h = refl
not_over idle h = refl
not_over terminated h = absurd (h refl)

some_text : (t : Text) → t ≢ [] → is_empty t ≡ false
some_text [] h = absurd (h refl)
some_text (c ∷ cs) h = refl

eligible-IsServed : (v : Vm) → is_eligible v ≡ true → IsServed v
unfolding is_eligible is_terminated
eligible-IsServed v h = (
  alive v.status (ground arith),
  nonempty_text v.name (ground arith),
  nonempty_text (address_of v) (ground arith),
)

IsServed-eligible : (v : Vm) → IsServed v → is_eligible v ≡ true
unfolding is_eligible is_terminated
IsServed-eligible v (s, n, a) =
    rw (not_over v.status s, some_text v.name n, some_text (ip_text v) a) refl

selected_words :
    (vms : List Vm) → All IsPlain vms → All (λ v. IsServed v × IsPlain v) (select is_eligible vms)
selected_words vms h =
    All-mono (λ v. IsPlain v × (is_eligible v ≡ true)) (λ v. IsServed v × IsPlain v)
      (λ v q. (eligible-IsServed v q.1, q.0)) (select is_eligible vms)
      (All-select IsPlain is_eligible vms h)

read-notice : (t : Text) → read [] [] (notice ++ t) ≡ read [] [] t
unfolding read
read-notice t = refl

-- Where no name and no address has a blank, a line break or a #, a resolver reads from the rendered
-- file one line for each VM that is not terminated and has a name and an address, and no other: its
-- address, its name under vm.internal, and its name. Which VMs pass the test is said both ways.
pub read-render :
    (vms : List Vm)
    → All IsPlain vms
    → (served : List Vm) × (read [] [] (render vms) ≡ map host_words served)
      × Perm served (select is_eligible vms)
      × All IsServed served
      × ((v : Vm) → IsServed v → is_eligible v ≡ true)
unfolding render eligible
read-render vms h =
    let picked = select is_eligible vms in
    let served = All-sort_by (λ v. IsServed v × IsPlain v) by_name picked (selected_words vms h) in
    (
      sort_by by_name picked,
      read-notice (host_lines (sort_by by_name picked))
          ∙ read-host_lines (sort_by by_name picked) (
              All-mono (λ v. IsServed v × IsPlain v) (λ v. IsWord v.name × IsWord (address_of v))
                (λ v q. ((q.1.0, q.0.1), (q.1.1, q.0.2))) (sort_by by_name picked) served),
      sort_by-perm by_name picked,
      All-mono (λ v. IsServed v × IsPlain v) IsServed (λ v q. q.0) (sort_by by_name picked) served,
      IsServed-eligible,
    )
