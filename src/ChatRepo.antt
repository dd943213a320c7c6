-- ===== src/ChatRepo.antt =====
-- The in-memory chat repository: src/repository/memory/chat.go. A method runs under the lock, so it
-- is one step; reads and writes copy the chat, its messages and their metadata.
pub mod Listing
pub mod Messages
use spacetrek.Prelude.{
  ◌≡◌, refl, ℕ, ◌&&◌, ◌||◌, Bool, List, [], ◌∷◌, Option, none, some, Text, codes, text_eq, text_lt,
  Dict, lookup, insert, remove, values, select, sort_by, ltb, ◌==◌, ℤ, All, All-insert, All-remove,
  All-lookup, Distinct, Distinct-insert, Distinct-remove, Option-cases, inl, inr,
}
use spacetrek.Exception.{AppError, not_found, Result, ok, err, or_err, ◌>>=◌}
use spacetrek.Chats.{Status, Message, Chat}
use spacetrek.Paging.{Page, page, map_page, last, limit_or}

pub record Repo : Type 0 where
  pub chats : Dict Chat

abbrev pub new_repo : Repo
new_repo = record { chats = [] }

abbrev pub chat_missing : Text → AppError
chat_missing id = not_found (codes "chat") id

unfoldable pub create : Chat → Repo → Repo
create c r = record { chats = insert c.id c r.chats }

unfoldable pub get_by_id : Text → Repo → Result Chat
get_by_id id r = or_err (lookup id r.chats) (chat_missing id)

unfoldable pub update : Chat → Repo → Result Repo
update c r = or_err (lookup c.id r.chats) (chat_missing c.id) >>= λ old.
    ok (record { chats = insert c.id c r.chats })

unfoldable pub update_title : Text → Text → ℕ → Repo → Result Repo
update_title id title now r = or_err (lookup id r.chats) (chat_missing id) >>= λ c.
    ok (record { chats = insert id (record c { title = title; updated_at = now }) r.chats })

unfoldable pub delete : Text → Repo → Result Repo
delete id r =
    or_err (lookup id r.chats) (chat_missing id) >>= λ c. ok (record { chats = remove id r.chats })

pub record ListCursor : Type 0 where
  pub created_at : ℕ
  pub id : Text

pub record ListParams : Type 0 where
  pub user_id : Text
  pub cursor : Option ListCursor
  pub limit : ℤ

-- The last message's time is the zero time where there is none.
pub record ConversationSummary : Type 0 where
  pub id : Text
  pub agent_id : Text
  pub user_id : Text
  pub title : Text
  pub vm_id : Text
  pub status : Status
  pub last_message : Text
  pub last_message_at : Option ℕ
  pub created_at : ℕ
  pub updated_at : ℕ

unfoldable pub summary : Chat → ConversationSummary
summary c = record {
  id = c.id;
  agent_id = c.agent_id;
  user_id = c.user_id;
  title = c.title;
  vm_id = c.vm_id;
  status = c.status;
  last_message = elim (last c.messages) [ none ↦ [] | some m ↦ m.content ];
  last_message_at = elim (last c.messages) [ none ↦ none | some m ↦ some m.at ];
  created_at = c.created_at;
  updated_at = c.updated_at;
}

-- CreatedAt DESC, ID DESC
unfoldable pub past_cursor : ListCursor → Chat → Bool
past_cursor k c =
    ltb c.created_at k.created_at || (c.created_at == k.created_at && text_lt c.id k.id)

abbrev pub cursor_of : Chat → ListCursor
cursor_of c = record { created_at = c.created_at; id = c.id }

unfoldable pub before : Chat → Chat → Bool
before a b = ltb b.created_at a.created_at || (a.created_at == b.created_at && text_lt b.id a.id)

-- The chats of a user in the order of the list.
unfoldable pub sorted_chats : Text → Repo → List Chat
sorted_chats user r = sort_by before (select (λ c. text_eq c.user_id user) (values r.chats))

unfoldable pub list_by_user_id : ListParams → Repo → Page ConversationSummary ListCursor
unfolding sorted_chats
list_by_user_id p r =
    map_page summary
      (page cursor_of past_cursor p.cursor (limit_or 20 100 p.limit) (sorted_chats p.user_id r))
