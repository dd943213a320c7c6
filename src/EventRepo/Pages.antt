-- ===== src/EventRepo/Pages.antt =====
-- The pages of a chat's runtime events.
use mathlib.Core.Path.{fun_ext}
use spacetrek.Prelude.{
  sym, ◌≡◌, ◌∙◌, refl, ap, ℕ, ◌<◌, arith, true, false, List, [], ◌∷◌, none, some, Text, map, length,
  ℤ, All-mono, Pairwise,
}
use spacetrek.Paging.{
  Page, map_page, page, follow, follow_all, IsKeyed, limit_or, limit_or-positive,
}
use spacetrek.EventRepo.{
  PersistedRuntimeEvent, Repo, events_of, time_of, after_cursor, list_by_chat_id,
}

abbrev pub Ascending : List PersistedRuntimeEvent → Type 0
Ascending = Pairwise (λ a b. a.created_at < b.created_at)

Ascending-IsKeyed :
    (es : List PersistedRuntimeEvent) → Ascending es → IsKeyed time_of after_cursor es
Ascending-IsKeyed [] h = tt
Ascending-IsKeyed (x ∷ xs) (a, h) = (
  ground arith,
  All-mono (λ y. x.created_at < y.created_at)
      (λ y. (after_cursor (time_of x) y ≡ true) × (after_cursor (time_of y) x ≡ false))
      (λ y q. (ground arith, ground arith)) xs a,
  Ascending-IsKeyed xs h,
)

map_same : (es : List PersistedRuntimeEvent) → map (λ e. e) es ≡ es
map_same [] = refl
map_same (e ∷ es) = ap (◌∷◌ e) (map_same es)

map_page_same : (p : Page PersistedRuntimeEvent ℕ) → p ≡ map_page (λ e. e) p
map_page_same p = ap (λ es. record { items = es; next = p.next }) (sym (map_same p.items))

-- Where the events of a chat were inserted at later and later times, a client that follows the
-- cursors of ListByChatID for one page more than there are events, with whatever limit, gets each
-- event once, in the order of insertion.
pub list_by_chat_id_complete :
    (r : Repo) (chat : Text) (limit : ℤ) (n : ℕ)
    → Ascending (events_of chat r)
    → length (events_of chat r) < n
    → follow n (λ cursor. list_by_chat_id chat cursor limit r) none ≡ some (events_of chat r)
unfolding list_by_chat_id
list_by_chat_id_complete r chat limit n a h =
    let es = events_of chat r in
    let whole : follow n
          (λ k. map_page (λ e. e) (page time_of after_cursor k (limit_or 100 200 limit) es)) none
        ≡ some (map (λ e. e) es) =
      follow_all time_of after_cursor (λ e. e) (limit_or 100 200 limit)
        (limit_or-positive 100 200 limit (omega arith)) n es (Ascending-IsKeyed es a) h in
    ap (λ list. follow n list none)
      (fun_ext (λ k. map_page_same (page time_of after_cursor k (limit_or 100 200 limit) es)))
    ∙ whole
    ∙ ap some (map_same es)
