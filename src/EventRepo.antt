-- ===== src/EventRepo.antt =====
-- The in-memory repository of runtime events: src/repository/memory/runtime_event.go, with
-- ToPersisted of src/core/domain/orchestrator/events.go. A method runs under the lock, so it is one
-- step. Reads copy the events.
pub mod Pages
pub mod Recent
use spacetrek.Prelude.{
  ◌≡◌, refl, ℕ, zero, suc, Bool, List, [], ◌∷◌, ◌++◌, Option, none, some, Text, Dict, lookup,
  insert, values, is_empty, ltb, if◌then◌else◌, length, take, ℤ,
}
use spacetrek.React.{RuntimeEvent}
use spacetrek.Paging.{Page, page, limit_or}

-- `payload` holds the fields that are copied from the event; its chat is not read.
pub record PersistedRuntimeEvent : Type 0 where
  pub id : Text
  pub chat_id : Text
  pub payload : RuntimeEvent
  pub created_at : ℕ

-- The event's own time is `at`.
unfoldable pub to_persisted : RuntimeEvent → ℕ → PersistedRuntimeEvent
to_persisted e at = record { id = []; chat_id = e.chat_id; payload = e; created_at = at }

pub record Repo : Type 0 where
  pub events : Dict (List PersistedRuntimeEvent)

abbrev pub new_repo : Repo
new_repo = record { events = [] }

-- `r.events[chatID]`
unfoldable pub events_of : Text → Repo → List PersistedRuntimeEvent
events_of chat r = elim (lookup chat r.events) [ none ↦ [] | some es ↦ es ]

unfoldable pub insert_event : PersistedRuntimeEvent → Repo → Repo
unfolding events_of
insert_event e r = record { events = insert e.chat_id (events_of e.chat_id r ++ e ∷ []) r.events }

abbrev pub time_of : PersistedRuntimeEvent → ℕ
time_of e = e.created_at

-- `e.CreatedAt.After(*params.Cursor)`
abbrev pub after_cursor : ℕ → PersistedRuntimeEvent → Bool
after_cursor k e = ltb k e.created_at

unfoldable pub list_by_chat_id : Text → Option ℕ → ℤ → Repo → Page PersistedRuntimeEvent ℕ
unfolding events_of
list_by_chat_id chat cursor limit r =
    page time_of after_cursor cursor (limit_or 100 200 limit) (events_of chat r)

-- All events, chat by chat.
unfoldable pub gather : List (List PersistedRuntimeEvent) → List PersistedRuntimeEvent
gather [] = []
gather (es ∷ rest) = es ++ gather rest

-- The inner loop: `x` stands at `i`, and is swapped for a later event.
unfoldable pub sweep :
    PersistedRuntimeEvent
    → List PersistedRuntimeEvent
    → PersistedRuntimeEvent × List PersistedRuntimeEvent
sweep x [] = (x, [])
sweep x (y ∷ ys) =
    let swapped = sweep y ys in
    let kept = sweep x ys in
    if ltb x.created_at y.created_at then (swapped.0, x ∷ swapped.1) else (kept.0, y ∷ kept.1)

-- The outer loop, for at most so many positions.
unfoldable pub exchange_sort : ℕ → List PersistedRuntimeEvent → List PersistedRuntimeEvent
unfolding sweep
exchange_sort zero es = es
exchange_sort (suc n) [] = []
exchange_sort (suc n) (x ∷ xs) = let swept = sweep x xs in swept.0 ∷ exchange_sort n swept.1

unfoldable pub list_recent : ℤ → Repo → List PersistedRuntimeEvent
unfolding gather exchange_sort
list_recent limit r =
    let all = gather (values r.events) in
    take (limit_or 100 500 limit) (exchange_sort (length all) all)
