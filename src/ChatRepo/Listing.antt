-- ===== src/ChatRepo/Listing.antt =====
-- The pages of a user's chats, after any calls to src/repository/memory/chat.go.
use mathlib.Core.List.{Perm}
use spacetrek.Prelude.{
  length-sort_by, sort_by-perm, ◌≡◌, ◌∙◌, ◌≢◌, refl, sym, ℕ, ◌<◌, inl, inr, arith, true, false,
  List, [], ◌∷◌, none, some, Text, text_eq, lookup, values, select, sort_by, map, length, ℤ, All,
  All-insert, All-remove, All-mono, All-both, All-lookup, Distinct, Distinct-insert,
  Distinct-remove, Option-cases, Pairwise, Pairwise-select, Pairwise-sort_by, Differ, values-Differ,
  text_lt_irrefl, text_lt_asym, text_lt_total, text_le_trans, sort_by-IsSortedBy, IsSortedBy,
}
use spacetrek.Exception.{Result, ok, err}
use spacetrek.Chats.{Chat}
use spacetrek.Paging.{follow, follow_all, IsKeyed, limit_or, limit_or-positive}
use spacetrek.ChatRepo.{
  Repo, new_repo, create, update, update_title, delete, summary, past_cursor, cursor_of, before,
  sorted_chats, list_by_user_id,
}

-- The calls that write, a title with the time at which it is set.
pub data Call : Type 0 where
  creates updates : Chat → Call
  titles : Text → Text → ℕ → Call
  deletes : Text → Call

-- A call that fails leaves the repository as it was.
abbrev after : Repo → Result Repo → Repo
after r (ok r') = r'
after r (err e) = r

unfoldable pub step : Repo → Call → Repo
step r (creates c) = create c r
step r (updates c) = after r (update c r)
step r (titles id title now) = after r (update_title id title now r)
step r (deletes id) = after r (delete id r)

unfoldable pub run : Repo → List Call → Repo
run r [] = r
run r (c ∷ cs) = run (step r c) cs

-- Each chat once, under its id.
record IsWf (r : Repo) : Type 0 where
  keyed : All (λ e. e.1.id ≡ e.0) r.chats
  distinct : Distinct r.chats

put-IsWf : (c : Chat) (r : Repo) → IsWf r → IsWf (create c r)
unfolding create
put-IsWf c r h = record {
  keyed = All-insert (λ e. e.1.id ≡ e.0) c.id c r.chats refl h.keyed;
  distinct = Distinct-insert c.id c r.chats h.distinct;
}

step-IsWf : (r : Repo) (c : Call) → IsWf r → IsWf (step r c)
unfolding step update update_title delete
step-IsWf r (creates c) h = put-IsWf c r h
step-IsWf r (updates c) h = elim (Option-cases (lookup c.id r.chats)) [
  | inl e ↦ rw e h
  | inr (old, e) ↦ rw e (unfold create in put-IsWf c r h)
]
step-IsWf r (titles id title now) h = elim (Option-cases (lookup id r.chats)) [
  | inl e ↦ rw e h
  | inr (c, e) ↦ rw e (record {
    keyed =
        All-insert (λ p. p.1.id ≡ p.0) id (record c { title = title; updated_at = now }) r.chats
          (All-lookup (λ p. p.1.id ≡ p.0) id c r.chats h.keyed e) h.keyed;
    distinct = Distinct-insert id (record c { title = title; updated_at = now }) r.chats h.distinct;
  })
]
step-IsWf r (deletes id) h = elim (Option-cases (lookup id r.chats)) [
  | inl e ↦ rw e h
  | inr (c, e) ↦ rw e (record {
    keyed = All-remove (λ p. p.1.id ≡ p.0) id r.chats h.keyed;
    distinct = Distinct-remove id r.chats h.distinct;
  })
]

run-IsWf : (r : Repo) (cs : List Call) → IsWf r → IsWf (run r cs)
unfolding run
run-IsWf r [] h = h
run-IsWf r (c ∷ cs) h = run-IsWf (step r c) cs (step-IsWf r c h)

before_asym : (x y : Chat) → before x y ≡ true → before y x ≡ false
unfolding before
before_asym x y h = ground (arith, text_lt_asym y.id x.id)

before_trans : (x y z : Chat) → before y x ≡ false → before z y ≡ false → before z x ≡ false
unfolding before
before_trans x y z h k = ground (arith, text_le_trans z.id y.id x.id)

before_total : (x y : Chat) → before y x ≡ false → x.id ≢ y.id → before x y ≡ true
unfolding before
before_total x y h n = ground (arith, text_lt_total x.id y.id)

past-before : (x y : Chat) → past_cursor (cursor_of x) y ≡ before x y
unfolding before past_cursor
past-before x y = ground arith

past_itself : (x : Chat) → past_cursor (cursor_of x) x ≡ false
unfolding past_cursor
past_itself x = ground (arith, text_lt_irrefl x.id)

-- Chats sorted so, with ids that differ, are read by their cursors.
sorted-IsKeyed :
    (xs : List Chat)
    → IsSortedBy before xs
    → Pairwise (Differ (λ c. c.id)) xs
    → IsKeyed cursor_of past_cursor xs
sorted-IsKeyed [] s d = tt
sorted-IsKeyed (x ∷ xs) (a, s) (b, d) = (
  past_itself x,
  All-mono (λ y. (before y x ≡ false) × (x.id ≢ y.id))
      (λ y. (past_cursor (cursor_of x) y ≡ true) × (past_cursor (cursor_of y) x ≡ false))
      (λ y q. (past-before x y ∙ before_total x y q.0 q.1, past-before y x ∙ q.0)) xs
      (All-both (λ y. before y x ≡ false) (λ y. x.id ≢ y.id) xs a b),
  sorted-IsKeyed xs s d,
)

sorted_chats-IsKeyed :
    (user : Text) (r : Repo) → IsWf r → IsKeyed cursor_of past_cursor (sorted_chats user r)
unfolding sorted_chats
sorted_chats-IsKeyed user r h =
    let mine = select (λ c. text_eq c.user_id user) (values r.chats) in
    sorted-IsKeyed (sort_by before mine) (sort_by-IsSortedBy before before_asym before_trans mine) (
      Pairwise-sort_by (Differ (λ c. c.id)) (λ x y n q. n (sym q)) before mine
        (Pairwise-select (Differ (λ c. c.id)) (λ c. text_eq c.user_id user) (values r.chats)
          (values-Differ (λ c. c.id) r.chats h.keyed h.distinct)))

-- The user's chats in the order of a range over the map.
abbrev pub chats_of : Text → Repo → List Chat
chats_of user r = select (λ c. text_eq c.user_id user) (values r.chats)

-- After any calls to the repository, a client that follows the cursors of ListByUserID, for one page
-- more than the user has chats and with whatever limit it asks for, gets the summaries of one list:
-- it holds each of the user's chats once, the newest first, and the greatest id first among chats of
-- one time.
pub list_by_user_id_complete :
    (calls : List Call) (user : Text) (limit : ℤ) (n : ℕ)
    → length (chats_of user (run new_repo calls)) < n
    → (follow n
          (λ cursor.
            list_by_user_id
              (record { user_id = user; cursor = cursor; limit = limit })
              (run new_repo calls))
          none
        ≡ some (map summary (sorted_chats user (run new_repo calls))))
      × Perm (sorted_chats user (run new_repo calls)) (chats_of user (run new_repo calls))
      × IsSortedBy before (sorted_chats user (run new_repo calls))
unfolding list_by_user_id sorted_chats
list_by_user_id_complete calls user limit n h =
    let r = run new_repo calls in
    let mine = chats_of user r in
    (
      follow_all cursor_of past_cursor summary (limit_or 20 100 limit)
          (limit_or-positive 20 100 limit (omega arith)) n (sorted_chats user r)
          (sorted_chats-IsKeyed user r
            (run-IsWf new_repo calls (record { keyed = tt; distinct = tt })))
          (omega (arith, length-sort_by before mine)),
      sort_by-perm before mine,
      sort_by-IsSortedBy before before_asym before_trans mine,
    )
