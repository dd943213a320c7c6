-- ===== src/ChatRepo/Messages.antt =====
-- ListMessages of src/repository/memory/chat.go: the pages of a chat's messages, the newest first.
use mathlib.Core.Path.{fun_ext}
use spacetrek.Prelude.{
  ◌≡◌, ◌∙◌, refl, ap, ℕ, zero, suc, ◌+◌, ◌<◌, inl, inr, arith, not, true, false, Bool, Bool-cases,
  List, [], ◌∷◌, ◌++◌, Option, none, some, Text, codes, decimal, Dict, lookup, ltb, if◌then◌else◌,
  map, length, take, drop, ℤ, All, All-mono, All-both, Pairwise, ltb→lt, lt→ltb,
}
use spacetrek.Exception.{Result, ok, or_err, ◌>>=◌}
use spacetrek.Chats.{Role, ContentType, Message, Chat}
use spacetrek.Paging.{
  Page, map_page, follow, follow_all, seek, start, trim, trim-map, cut, page, IsKeyed, limit_or,
  limit_or-positive,
}
use spacetrek.ChatRepo.{Repo, chat_missing}

-- A message or a runtime event; the event's fields are zero in a message's entry.
pub record TimelineEntry : Type 0 where
  pub id : Text
  pub sequence_number : ℕ
  pub source : Text
  pub role : Role
  pub event_type : Text
  pub step : ℕ
  pub content : Text
  pub content_type : ContentType
  pub metadata : Dict Text
  pub at : ℕ

pub record ListMessagesParams : Type 0 where
  pub chat_id : Text
  pub cursor : Option ℕ
  pub limit : ℤ

-- A message with its number, from 1.
abbrev pub Numbered : Type 0
Numbered = ℕ × Message

-- The messages as the loop from `total - 1` down to 0 meets them; `i` of them are read.
unfoldable pub newest_first : ℕ → List Message → List Numbered → List Numbered
newest_first i [] met = met
newest_first i (m ∷ ms) met = newest_first (suc i) ms ((suc i, m) ∷ met)

unfoldable pub entry : Text → Numbered → TimelineEntry
entry chat x = record {
  id = chat ++ b'-' ∷ decimal x.0;
  sequence_number = x.0;
  source = codes "message";
  role = x.1.role;
  event_type = [];
  step = 0;
  content = x.1.content;
  content_type = x.1.content_type;
  metadata = x.1.metadata;
  at = x.1.at;
}

-- `params.Cursor != nil && !msg.At.Before(params.Cursor.Timestamp)`
unfoldable pub skips : Option ℕ → Message → Bool
skips none m = false
skips (some k) m = not (ltb m.at k)

-- The loop, with room for so many more entries.
unfoldable pub collect : Text → Option ℕ → ℕ → List Numbered → List TimelineEntry
unfolding skips entry
collect chat cursor zero xs = []
collect chat cursor (suc room) [] = []
collect chat cursor (suc room) (x ∷ xs) =
    let passed = collect chat cursor (suc room) xs in
    let more = collect chat cursor room xs in
    if skips cursor x.1 then passed else entry chat x ∷ more

unfoldable pub message_page : Text → Option ℕ → ℕ → List Message → Page TimelineEntry ℕ
unfolding collect newest_first trim
message_page chat cursor limit ms =
    trim (λ e. e.at) limit (collect chat cursor (suc limit) (newest_first 0 ms []))

unfoldable pub list_messages : ListMessagesParams → Repo → Result (Page TimelineEntry ℕ)
unfolding message_page
list_messages p r = or_err (lookup p.chat_id r.chats) (chat_missing p.chat_id) >>= λ c.
    ok (message_page p.chat_id p.cursor (limit_or 50 100 p.limit) c.messages)

abbrev time_of : Numbered → ℕ
time_of x = x.1.at

abbrev past_time : ℕ → Numbered → Bool
past_time k x = ltb x.1.at k

-- Each message later than those that it follows.
abbrev pub Ascending : List Message → Type 0
Ascending = Pairwise (λ a b. a.at < b.at)

abbrev Descending : List Numbered → Type 0
Descending = Pairwise (λ a b. b.1.at < a.1.at)

newest_first-Descending :
    (i : ℕ) (ms : List Message) (met : List Numbered)
    → Ascending ms
    → Descending met
    → All (λ m. All (λ x. x.1.at < m.at) met) ms
    → Descending (newest_first i ms met)
unfolding newest_first
newest_first-Descending i [] met a d h = d
newest_first-Descending i (m ∷ ms) met (am, a) d (hm, h) =
    newest_first-Descending (suc i) ms ((suc i, m) ∷ met) a (hm, d)
      (All-both (λ b. m.at < b.at) (λ b. All (λ x. x.1.at < b.at) met) ms am h)

nothing_met : (ms : List Message) → All (λ m. All (λ (x : Numbered). x.1.at < m.at) []) ms
nothing_met [] = tt
nothing_met (m ∷ ms) = (tt, nothing_met ms)

Descending-IsKeyed : (xs : List Numbered) → Descending xs → IsKeyed time_of past_time xs
Descending-IsKeyed [] d = tt
Descending-IsKeyed (x ∷ xs) (a, d) = (
  ground arith,
  All-mono (λ y. y.1.at < x.1.at)
      (λ y. (past_time (time_of x) y ≡ true) × (past_time (time_of y) x ≡ false))
      (λ y q. (ground arith, ground arith)) xs a,
  Descending-IsKeyed xs d,
)

-- With no cursor no message is skipped.
collect-none :
    (chat : Text) (room : ℕ) (xs : List Numbered)
    → collect chat none room xs ≡ map (entry chat) (take room xs)
unfolding collect skips
collect-none chat zero xs = refl
collect-none chat (suc room) [] = refl
collect-none chat (suc room) (x ∷ xs) = ap (◌∷◌ (entry chat x)) (collect-none chat room xs)

-- Behind the cursor no message is skipped.
collect-past :
    (chat : Text) (k room : ℕ) (xs : List Numbered)
    → All (λ x. x.1.at < k) xs
    → collect chat (some k) room xs ≡ map (entry chat) (take room xs)
unfolding collect skips
collect-past chat k zero xs h = refl
collect-past chat k (suc room) [] h = refl
collect-past chat k (suc room) (x ∷ xs) (hx, h) =
    rw (lt→ltb x.1.at k hx) (ap (◌∷◌ (entry chat x)) (collect-past chat k room xs h))

collect-seek :
    (chat : Text) (k room : ℕ) (xs : List Numbered)
    → Descending xs
    → collect chat (some k) (suc room) xs
      ≡ map (entry chat) (take (suc room) (drop (seek time_of past_time k xs) xs))
unfolding collect skips seek
collect-seek chat k room [] d = refl
collect-seek chat k room (x ∷ xs) (a, d) = elim (Bool-cases (ltb x.1.at k)) [
  | inl e ↦ rw e (
      ap (◌∷◌ (entry chat x)) (
        collect-past chat k room xs (
          All-mono (λ y. y.1.at < x.1.at) (λ y. y.1.at < k)
            (λ y q. omega (arith, ltb→lt x.1.at k e)) xs a)))
  | inr e ↦ rw e (collect-seek chat k room xs d)
]

-- The code's page is one of the generic pages.
message_page-page :
    (chat : Text) (cursor : Option ℕ) (limit : ℕ) (ms : List Message)
    → Ascending ms
    → message_page chat cursor limit ms
      ≡ map_page (entry chat) (page time_of past_time cursor limit (newest_first 0 ms []))
unfolding message_page page start cut entry
message_page-page chat none limit ms a =
    ap (trim (λ e. e.at) limit) (collect-none chat (suc limit) (newest_first 0 ms []))
    ∙ trim-map (entry chat) (λ e. e.at) limit (take (suc limit) (newest_first 0 ms []))
message_page-page chat (some k) limit ms a =
    let met = newest_first 0 ms [] in
    ap (trim (λ e. e.at) limit)
      (collect-seek chat k limit met (newest_first-Descending 0 ms [] a tt (nothing_met ms)))
    ∙ trim-map (entry chat) (λ e. e.at) limit
        (take (suc limit) (drop (seek time_of past_time k met) met))

length-newest_first :
    (i : ℕ) (ms : List Message) (met : List Numbered)
    → length (newest_first i ms met) ≡ length ms + length met
unfolding newest_first
length-newest_first i [] met = omega arith
length-newest_first i (m ∷ ms) met =
    omega (arith, length-newest_first (suc i) ms ((suc i, m) ∷ met))

-- Where each message of a chat is later than those ahead of it, a client that follows the cursors of
-- ListMessages for one page more than there are messages, with whatever limit, gets an entry for each
-- message, numbered from 1 in the order of the chat, the last one first.
pub list_messages_complete :
    (r : Repo) (c : Chat) (limit : ℤ) (n : ℕ)
    → lookup c.id r.chats ≡ some c
    → Ascending c.messages
    → length c.messages < n
    → ((cursor : Option ℕ)
        → list_messages (record { chat_id = c.id; cursor = cursor; limit = limit }) r
          ≡ ok (message_page c.id cursor (limit_or 50 100 limit) c.messages))
      × (follow n (λ cursor. message_page c.id cursor (limit_or 50 100 limit) c.messages) none
          ≡ some (map (entry c.id) (newest_first 0 c.messages [])))
unfolding list_messages
list_messages_complete r c limit n e a h =
    let met = newest_first 0 c.messages [] in
    (
      λ cursor. rw e refl,
      ap (λ list. follow n list none)
            (fun_ext (λ cursor. message_page-page c.id cursor (limit_or 50 100 limit) c.messages a))
          ∙ follow_all time_of past_time (entry c.id) (limit_or 50 100 limit)
              (limit_or-positive 50 100 limit (omega arith)) n met
              (Descending-IsKeyed met
                (newest_first-Descending 0 c.messages [] a tt (nothing_met c.messages)))
              (omega (arith, length-newest_first 0 c.messages [])),
    )
