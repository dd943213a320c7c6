-- ===== src/Examples/Chats.antt =====
-- Runs of the chat and event repositories of src/repository/memory.
use mathlib.Core.List.{Perm}
use spacetrek.Prelude.{
  ◌≡◌, refl, ◌<◌, arith, min, List, [], ◌∷◌, ◌++◌, none, some, codes, pos, map, length, IsSortedBy,
  values, lookup, insert, text_eq,
}
use spacetrek.Chats.{Chat, Message, active, user, assistant, text}
use spacetrek.Paging.{follow, limit_or}
use spacetrek.ChatRepo.{
  new_repo, create, update_title, summary, before, sorted_chats, list_by_user_id,
}
use spacetrek.ChatRepo.Listing.{
  Call, creates, titles, step, run, chats_of, list_by_user_id_complete,
}
use spacetrek.React.{text_event, thinking}
use spacetrek.EventRepo.{PersistedRuntimeEvent, events_of, list_by_chat_id, list_recent, gather}
use spacetrek.EventRepo
use spacetrek.EventRepo.Pages.{Ascending}
use spacetrek.ChatRepo
use spacetrek.EventRepo.Recent.{NewestFirst, list_recent-newest}

abbrev hello : Message
hello = record { role = user; content = codes "hello"; content_type = text; metadata = []; at = 5 }

abbrev answer : Message
answer = record {
  role = assistant;
  content = codes "hi";
  content_type = text;
  metadata = [];
  at = 8;
}

abbrev first_chat : Chat
first_chat = record {
  id = codes "c1";
  agent_id = codes "a";
  user_id = codes "u";
  title = [];
  vm_id = [];
  status = active;
  messages = hello ∷ answer ∷ [];
  created_at = 5;
  updated_at = 8;
}

abbrev second_chat : Chat
second_chat = record first_chat { id = codes "c2"; messages = [] }

abbrev calls : List Call
calls = creates first_chat ∷ creates second_chat ∷ titles (codes "c1") (codes "t") 9 ∷ []

two_chats : length (chats_of (codes "u") (run new_repo calls)) < 3
unfolding run step create update_title lookup insert text_eq
two_chats = omega arith

list_by_user_id_complete_example :
    (follow 3
        (λ cursor.
          list_by_user_id
            (record { user_id = codes "u"; cursor = cursor; limit = pos 1 })
            (run new_repo calls))
        none
      ≡ some (map summary (sorted_chats (codes "u") (run new_repo calls))))
    × Perm
        (sorted_chats (codes "u") (run new_repo calls))
        (chats_of (codes "u") (run new_repo calls))
    × IsSortedBy before (sorted_chats (codes "u") (run new_repo calls))
list_by_user_id_complete_example = list_by_user_id_complete calls (codes "u") (pos 1) 3 two_chats

abbrev chats : ChatRepo.Repo
chats = record { chats = (codes "c1", first_chat) ∷ [] }

stored : lookup (codes "c1") chats.chats ≡ some first_chat
unfolding lookup text_eq
stored = refl

abbrev started : PersistedRuntimeEvent
started = record {
  id = codes "e1";
  chat_id = codes "c1";
  payload = text_event thinking (codes "c1") 1 (codes "...");
  created_at = 6;
}

abbrev ended : PersistedRuntimeEvent
ended = record started { id = codes "e2"; created_at = 7 }

abbrev events : EventRepo.Repo
events = record { events = (codes "c1", started ∷ ended ∷ []) ∷ [] }

ascending : Ascending (events_of (codes "c1") events)
unfolding events_of lookup text_eq
ascending = ((omega arith, tt), (tt, tt))

few : length (events_of (codes "c1") events) < 3
unfolding events_of lookup text_eq
few = omega arith

list_recent-newest_example :
    (rest : List PersistedRuntimeEvent) × Perm
      (list_recent (pos 1) events ++ rest)
      (gather (values events.events))
    × NewestFirst (list_recent (pos 1) events ++ rest)
    × (length (list_recent (pos 1) events)
        ≡ min (limit_or 100 500 (pos 1)) (length (gather (values events.events))))
list_recent-newest_example = list_recent-newest (pos 1) events
