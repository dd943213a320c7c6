-- ===== src/EventRepo/Recent.antt =====
-- The newest runtime events of all chats.
use mathlib.Core.List.{Perm}
use mathlib.Core.List.Perm
use spacetrek.Prelude.{
  ◌≡◌, ◌∙◌, refl, ap, ℕ, zero, suc, ◌≤◌, inl, inr, arith, min, List, [], ◌∷◌, ◌++◌, values,
  Bool-cases, ltb, length, drop, take-append-drop, length-take, ℤ, All, Pairwise,
}
use spacetrek.Paging.{limit_or}
use spacetrek.EventRepo.{PersistedRuntimeEvent, Repo, gather, sweep, exchange_sort, list_recent}

sweep-perm :
    (x : PersistedRuntimeEvent) (ys : List PersistedRuntimeEvent)
    → Perm ((sweep x ys).0 ∷ (sweep x ys).1) (x ∷ ys)
unfolding sweep
sweep-perm x [] = Perm.refl _
sweep-perm x (y ∷ ys) = elim (Bool-cases (ltb x.created_at y.created_at)) [
  | inl e ↦
      rw e (Perm.trans (Perm.swap x (sweep y ys).0 (sweep y ys).1) (Perm.cons x (sweep-perm y ys)))
  | inr e ↦ rw e (
      Perm.trans (Perm.swap y (sweep x ys).0 (sweep x ys).1)
        (Perm.trans (Perm.cons y (sweep-perm x ys)) (Perm.swap x y ys)))
]

length-sweep :
    (x : PersistedRuntimeEvent) (ys : List PersistedRuntimeEvent)
    → length (sweep x ys).1 ≡ length ys
unfolding sweep
length-sweep x [] = refl
length-sweep x (y ∷ ys) = ground (arith, length-sweep y ys, length-sweep x ys)

-- What the inner loop leaves at `i` is at least as late as the rest.
sweep-latest :
    (x : PersistedRuntimeEvent) (ys : List PersistedRuntimeEvent)
    → (x.created_at ≤ (sweep x ys).0.created_at)
      × All (λ z. z.created_at ≤ (sweep x ys).0.created_at) (sweep x ys).1
unfolding sweep
sweep-latest x [] = (omega arith, tt)
sweep-latest x (y ∷ ys) = elim (Bool-cases (ltb x.created_at y.created_at)) [
  | inl e ↦ rw e (
      let (hy, h) = sweep-latest y ys in
      let later : x.created_at ≤ (sweep y ys).0.created_at = ground arith in (later, (later, h)))
  | inr e ↦ rw e (let (hx, h) = sweep-latest x ys in (hx, (ground arith, h)))
]

All-sweep :
    (P : PersistedRuntimeEvent → Type 0) (x : PersistedRuntimeEvent)
    (ys : List PersistedRuntimeEvent)
    → P x
    → All P ys
    → P (sweep x ys).0 × All P (sweep x ys).1
unfolding sweep
All-sweep P x [] px h = (px, tt)
All-sweep P x (y ∷ ys) px (py, h) = elim (Bool-cases (ltb x.created_at y.created_at)) [
  | inl e ↦ rw e (let (m, rest) = All-sweep P y ys py h in (m, (px, rest)))
  | inr e ↦ rw e (let (m, rest) = All-sweep P x ys px h in (m, (py, rest)))
]

All-exchange_sort :
    (P : PersistedRuntimeEvent → Type 0) (n : ℕ) (es : List PersistedRuntimeEvent)
    → All P es
    → All P (exchange_sort n es)
unfolding exchange_sort
All-exchange_sort P zero es h = h
All-exchange_sort P (suc n) [] h = tt
All-exchange_sort P (suc n) (x ∷ xs) (px, h) =
    let (m, rest) = All-sweep P x xs px h in (m, All-exchange_sort P n (sweep x xs).1 rest)

exchange_sort-perm : (n : ℕ) (es : List PersistedRuntimeEvent) → Perm (exchange_sort n es) es
unfolding exchange_sort
exchange_sort-perm zero es = Perm.refl es
exchange_sort-perm (suc n) [] = Perm.refl []
exchange_sort-perm (suc n) (x ∷ xs) =
    Perm.trans (Perm.cons (sweep x xs).0 (exchange_sort-perm n (sweep x xs).1)) (sweep-perm x xs)

-- No event is later than those ahead of it.
abbrev pub NewestFirst : List PersistedRuntimeEvent → Type 0
NewestFirst = Pairwise (λ a b. b.created_at ≤ a.created_at)

exchange_sort-NewestFirst :
    (n : ℕ) (es : List PersistedRuntimeEvent) → length es ≤ n → NewestFirst (exchange_sort n es)
unfolding exchange_sort
exchange_sort-NewestFirst zero [] h = tt
exchange_sort-NewestFirst zero (x ∷ xs) h = absurd (omega arith)
exchange_sort-NewestFirst (suc n) [] h = tt
exchange_sort-NewestFirst (suc n) (x ∷ xs) h = (
  All-exchange_sort (λ z. z.created_at ≤ (sweep x xs).0.created_at) n (sweep x xs).1
      (sweep-latest x xs).1,
  exchange_sort-NewestFirst n (sweep x xs).1 (omega (arith, length-sweep x xs)),
)

length-exchange_sort :
    (n : ℕ) (es : List PersistedRuntimeEvent) → length (exchange_sort n es) ≡ length es
unfolding exchange_sort
length-exchange_sort zero es = refl
length-exchange_sort (suc n) [] = refl
length-exchange_sort (suc n) (x ∷ xs) =
    omega (arith, length-sweep x xs, length-exchange_sort n (sweep x xs).1)

-- ListRecent returns as many events as there are, up to the limit that it settles on, the newest
-- first; `rest` are the others, and none of these is later than one that it returns.
pub list_recent-newest :
    (limit : ℤ) (r : Repo)
    → (rest : List PersistedRuntimeEvent) × Perm
        (list_recent limit r ++ rest)
        (gather (values r.events))
      × NewestFirst (list_recent limit r ++ rest)
      × (length (list_recent limit r)
          ≡ min (limit_or 100 500 limit) (length (gather (values r.events))))
unfolding list_recent
list_recent-newest limit r =
    let all = gather (values r.events) in
    let sorted = exchange_sort (length all) all in
    let whole = take-append-drop (limit_or 100 500 limit) sorted in
    (
      drop (limit_or 100 500 limit) sorted,
      rw whole (exchange_sort-perm (length all) all),
      rw whole (exchange_sort-NewestFirst (length all) all (omega arith)),
      length-take (limit_or 100 500 limit) sorted
          ∙ ap (min (limit_or 100 500 limit)) (length-exchange_sort (length all) all),
    )
