-- ===== src/Paging.antt =====
-- Pages with a cursor, as src/repository/memory reads them from a slice: src/repository/memory/chat.go
-- and src/repository/memory/runtime_event.go. A page is one entry longer than the limit when more is
-- to come, and the cursor is the key of its last entry.
use spacetrek.Prelude.{
  ◌≡◌, refl, sym, ap, ◌∙◌, subst, ℕ, zero, suc, ◌≤◌, ◌<◌, inl, inr, arith, Bool, true, false, List,
  [], ◌∷◌, ◌++◌, append_assoc, map, Option, none, some, ltb, leb, if◌then◌else◌, Bool-cases, ltb→lt,
  All, length, take, drop, take-append-drop, length-take, length-drop, length-append, take_all, ℤ,
  pos, negsuc,
}

-- `if limit <= 0 || limit > most { limit = usual }`
unfoldable pub limit_or : ℕ → ℕ → ℤ → ℕ
limit_or usual most (pos n) = if ltb 0 n then (if leb n most then n else usual) else usual
limit_or usual most (negsuc n) = usual

pub limit_or-positive : (usual most : ℕ) (l : ℤ) → 0 < usual → 0 < limit_or usual most l
unfolding limit_or
limit_or-positive usual most (pos n) h = ground arith
limit_or-positive usual most (negsuc n) h = h

pub record Page (A : Type 0) (K : Type 0) : Type 0 where
  pub items : List A
  pub next : Option K

module _ {A B : Type 0} where
  map-append : (f : A → B) (xs ys : List A) → map f (xs ++ ys) ≡ map f xs ++ map f ys
  map-append f [] ys = refl
  map-append f (x ∷ xs) ys = ap (◌∷◌ (f x)) (map-append f xs ys)

module _ {A : Type 0} where
  abbrev pub last : List A → Option A
  last [] = none
  last (x ∷ []) = some x
  last (x ∷ y ∷ ys) = last (y ∷ ys)

  pub All-middle :
      (P : A → Type 0) (front : List A) (x : A) (rest : List A) → All P (front ++ x ∷ rest) → P x
  All-middle P [] x rest h = h.0
  All-middle P (y ∷ ys) x rest h = All-middle P ys x rest h.1

  pub last_splits :
      (x : A) (xs : List A)
      → (front : List A) × (z : A) × (x ∷ xs ≡ front ++ z ∷ []) × (last (x ∷ xs) ≡ some z)
  last_splits x [] = ([], x, refl, refl)
  last_splits x (y ∷ ys) =
      let (front, z, e, l) = last_splits y ys in (x ∷ front, z, ap (◌∷◌ x) e, l)

  pub drop-append : (xs ys : List A) → drop (length xs) (xs ++ ys) ≡ ys
  drop-append [] ys = refl
  drop-append (x ∷ xs) ys = drop-append xs ys

module _ {A B K : Type 0} where
  abbrev pub map_page : (A → B) → Page A K → Page B K
  map_page f p = record { items = map f p.items; next = p.next }

module _ {B K : Type 0} where
  -- What the page holds, and what comes behind its cursor.
  abbrev extend : Page B K → (K → Option (List B)) → Option (List B)
  extend p behind = elim p.next [
    | none ↦ some p.items
    | some k ↦ elim (behind k) [ none ↦ none | some more ↦ some (p.items ++ more) ]
  ]

  -- A client that follows the cursors of a list call, for at most so many pages.
  unfoldable pub follow : ℕ → (Option K → Page B K) → Option K → Option (List B)
  follow zero list cursor = none
  follow (suc n) list cursor = extend (list cursor) (λ k. follow n list (some k))

module _ {A : Type 0} {K : Type 0} (key : A → K) where
  -- `xs` is the slice, by an entry longer than the limit when there are more.
  unfoldable pub trim : ℕ → List A → Page A K
  trim limit xs =
      if ltb limit (length xs)
      then (let items = take limit xs in
          record {
            items = items;
            next = elim (last items) [ none ↦ none | some x ↦ some (key x) ];
          })
      else record { items = xs; next = none }

module _ {A B : Type 0} (f : A → B) where
  length-map : (xs : List A) → length (map f xs) ≡ length xs
  length-map [] = refl
  length-map (x ∷ xs) = ap suc (length-map xs)

  take-map : (n : ℕ) (xs : List A) → take n (map f xs) ≡ map f (take n xs)
  take-map zero xs = refl
  take-map (suc n) [] = refl
  take-map (suc n) (x ∷ xs) = ap (◌∷◌ (f x)) (take-map n xs)

  last-map :
      (x : A) (xs : List A)
      → last (map f (x ∷ xs)) ≡ elim (last (x ∷ xs)) [ none ↦ none | some z ↦ some (f z) ]
  last-map x [] = refl
  last-map x (y ∷ ys) = last-map y ys

  pub trim-map :
      {K : Type 0} (key : B → K) (limit : ℕ) (xs : List A)
      → trim key limit (map f xs) ≡ map_page f (trim (λ x. key (f x)) limit xs)
  unfolding trim
  trim-map key limit [] = ground arith
  trim-map key zero (x ∷ xs) = rw (length-map xs) (ground arith)
  trim-map key (suc l) (x ∷ xs) =
      let (front, z, e, q) = last_splits x (take l xs) in
      elim (Bool-cases (ltb (suc l) (suc (length xs)))) [
        | inl long ↦ rw (length-map xs, long, take-map l xs, last-map x (take l xs), q) refl
        | inr short ↦ rw (length-map xs, short) refl
      ]

-- `past k x`: the entry comes after the cursor `k`.
module _ {A : Type 0} {K : Type 0} (key : A → K) (past : K → A → Bool) where
  -- The index at which the loop over the slice stops.
  unfoldable pub seek : K → List A → ℕ
  seek k [] = 0
  seek k (x ∷ xs) = if past k x then 0 else suc (seek k xs)

  unfoldable pub start : Option K → List A → ℕ
  start none xs = 0
  start (some k) xs = seek k xs

  -- `xs` is the slice from the start on.
  unfoldable pub cut : ℕ → List A → Page A K
  unfolding trim
  cut limit xs = trim key limit (take (suc limit) xs)

  unfoldable pub page : Option K → ℕ → List A → Page A K
  page cursor limit xs = cut limit (drop (start cursor xs) xs)

  -- Each entry comes after the cursors of those ahead of it, and of no other.
  abbrev pub IsKeyed : List A → Type 0
  IsKeyed [] = Unit
  IsKeyed (x ∷ xs) =
      (past (key x) x ≡ false)
      × All (λ y. (past (key x) y ≡ true) × (past (key y) x ≡ false)) xs
      × IsKeyed xs

  seek_middle :
      (front : List A) (x : A) (rest : List A)
      → IsKeyed (front ++ x ∷ rest)
      → seek (key x) (front ++ x ∷ rest) ≡ suc (length front)
  unfolding seek
  seek_middle [] x [] h = rw h.0 refl
  seek_middle [] x (y ∷ ys) h = rw (h.0, h.1.0.0) refl
  seek_middle (y ∷ ys) x rest h =
      rw ((All-middle (λ z. (past (key y) z ≡ true) × (past (key z) y ≡ false)) ys x rest h.1).1)
        (ap suc (seek_middle ys x rest h.2))

  page-rest :
      (limit : ℕ) (cursor : Option K) (front rest : List A)
      → start cursor (front ++ rest) ≡ length front
      → page cursor limit (front ++ rest) ≡ cut limit rest
  unfolding page
  page-rest limit cursor front rest at = ap (cut limit) (rw at (drop-append front rest))

  cut_short :
      (limit : ℕ) (xs : List A)
      → length xs ≤ limit
      → cut limit xs ≡ record { items = xs; next = none }
  unfolding cut
  cut_short limit xs h =
      let whole : take (suc limit) xs ≡ xs = take_all (suc limit) xs (omega arith) in
      let fits : ltb limit (length xs) ≡ false = ground arith in rw (whole, fits) refl

  take_more : (n : ℕ) (xs : List A) → take n (take (suc n) xs) ≡ take n xs
  take_more zero xs = refl
  take_more (suc n) [] = refl
  take_more (suc n) (x ∷ xs) = ap (◌∷◌ x) (take_more n xs)

  -- A page that is not the last: what it holds, and the cursor behind it.
  cut_long :
      (limit : ℕ) (xs : List A)
      → 0 < limit
      → limit < length xs
      → (front : List A) × (z : A) × (take limit xs ≡ front ++ z ∷ [])
        × (cut limit xs ≡ record { items = take limit xs; next = some (key z) })
  unfolding cut
  cut_long zero xs h k = absurd (omega arith)
  cut_long (suc l) [] h k = absurd (omega arith)
  cut_long (suc l) (x ∷ xs) h k =
      let (front, z, e, q) = last_splits x (take l xs) in
      let more : ltb (suc l) (length (take (suc (suc l)) (x ∷ xs))) ≡ true =
        ground (arith, length-take (suc (suc l)) (x ∷ xs)) in
      (front, z, e, rw more (rw (take_more l xs, q) refl))

  module _ {B : Type 0} (f : A → B) (limit : ℕ) (pos_limit : 0 < limit) where
    -- Followed from the entries behind `front`, the pages hold the rest.
    follow-rest :
        (n : ℕ) (cursor : Option K) (front rest : List A)
        → IsKeyed (front ++ rest)
        → start cursor (front ++ rest) ≡ length front
        → length rest < n
        → follow n (λ k. map_page f (page k limit (front ++ rest))) cursor ≡ some (map f rest)
    unfolding follow
    follow-rest zero cursor front rest keyed at h = absurd (omega arith)
    follow-rest (suc n) cursor front rest keyed at h = elim (Bool-cases (ltb limit (length rest))) [
      | inr short ↦
          rw (page-rest limit cursor front rest at, cut_short limit rest (ground arith)) refl
      | inl long ↦
          let below = ltb→lt limit (length rest) long in
          let (g, z, e, c) = cut_long limit rest pos_limit below in
          let whole : (front ++ take limit rest) ++ drop limit rest ≡ front ++ rest =
            append_assoc front (take limit rest) (drop limit rest)
            ∙ ap (◌++◌ front) (take-append-drop limit rest) in
          let read : front ++ take limit rest ≡ (front ++ g) ++ z ∷ [] =
            ap (◌++◌ front) e ∙ sym (append_assoc front g (z ∷ [])) in
          let split : front ++ rest ≡ (front ++ g) ++ z ∷ drop limit rest =
            sym whole
            ∙ ap (λ t. t ++ drop limit rest) read
            ∙ append_assoc (front ++ g) (z ∷ []) (drop limit rest) in
          let sought : seek (key z) (front ++ rest) ≡ length (front ++ take limit rest) =
            rw (split, read, length-append (front ++ g) (z ∷ []))
              (omega (
                arith,
                seek_middle (front ++ g) z (drop limit rest) (subst IsKeyed split keyed),
              )) in
          let onwards =
            follow-rest n (some (key z)) (front ++ take limit rest) (drop limit rest)
              (subst IsKeyed (sym whole) keyed)
              (subst (λ t. start (some (key z)) t ≡ length (front ++ take limit rest)) (sym whole)
                (unfold start in sought))
              (omega (arith, length-drop limit rest, below)) in
          let joined : map f (take limit rest) ++ map f (drop limit rest) ≡ map f rest =
            sym (map-append f (take limit rest) (drop limit rest))
            ∙ ap (map f) (take-append-drop limit rest) in
          rw (page-rest limit cursor front rest at, c, rw whole at onwards) (ap some joined)
    ]

    -- Enough pages hold every entry once, in order.
    pub follow_all :
        (n : ℕ) (xs : List A)
        → IsKeyed xs
        → length xs < n
        → follow n (λ k. map_page f (page k limit xs)) none ≡ some (map f xs)
    follow_all n xs keyed h = follow-rest n none [] xs keyed (unfold start in refl) h
