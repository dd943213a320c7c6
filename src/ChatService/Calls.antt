-- ===== src/ChatService/Calls.antt =====
-- The other calls of src/service/chat/service.go: creation, closing, titles and subscriptions.
use spacetrek.Prelude.{
  ◌||◌, false, ℕ, ◌+◌, Bool, List, [], ◌∷◌, ◌++◌, Option, none, some, Text, codes, Dict, lookup,
  insert, remove, ◌==◌, if◌then◌else◌, trim_space, length, pos,
}
use spacetrek.Exception.{AppError, Result, ok, err, Outcome}
use spacetrek.Chats.{Chat, CreateParams, closed, is_closed}
use spacetrek.Chats
use spacetrek.ChatRepo
use spacetrek.ChatRepo.Messages.{ListMessagesParams, TimelineEntry}
use spacetrek.ChatRepo.Messages
use spacetrek.Paging.{Page, limit_or}
use spacetrek.Agents
use spacetrek.React.{title_event, text_event}
use spacetrek.ChatService.{
  TimedEvent, Subscriber, World, entries_of, offer, publish_and_persist, fill, send_message, accept,
  Orchestrator,
}

abbrev or_text : Text → Text → Text
or_text [] usual = usual
or_text (c ∷ cs) usual = c ∷ cs

-- `id` is the agent's UUID.
unfoldable pub create_default_agent : CreateParams → Text → ℕ → World → World × Agents.Agent
create_default_agent p id now w =
    let agent = Agents.new id now (record {
      user_id = p.user_id;
      name = or_text p.agent_name (codes "Chat Assistant");
      description = codes "Auto-generated assistant for chat";
      model = or_text p.model (codes "gemini");
      system_prompt = p.system_prompt;
    }) in
    (record w { agents = Agents.create agent w.agents }, agent)

-- The UUIDs that a call may draw.
pub record Uuids : Type 0 where
  pub agent : Text
  pub user : Text
  pub chat : Text

abbrev pub trimmed_params : CreateParams → CreateParams
trimmed_params p = record p {
  agent_id = trim_space p.agent_id;
  user_id = trim_space p.user_id;
  agent_name = trim_space p.agent_name;
  model = trim_space p.model;
}

abbrev persisted : CreateParams → Uuids → ℕ → World → World × Result Chat
persisted p ids now w =
    let q : CreateParams = record p {
      user_id = or_text p.user_id (codes "anonymous-" ++ ids.user);
    } in
    let c = Chats.new ids.chat now q in (record w { chats = ChatRepo.create c w.chats }, ok c)

abbrev created : CreateParams → Uuids → ℕ → World → Text → World × Result Chat
created p ids now w [] =
    (let (w1, agent) = create_default_agent p ids.agent now w in
      persisted (record p { agent_id = agent.id }) ids now w1)
created p ids now w (a ∷ as') = elim (Agents.get_by_id (a ∷ as') w.agents) [
  | err e ↦ (w, err e)
  | ok agent ↦ persisted p ids now w
]

unfoldable pub create : CreateParams → Uuids → ℕ → World → World × Result Chat
unfolding create_default_agent
create params ids now w = (let p = trimmed_params params in created p ids now w p.agent_id)

-- An empty id asks for a new chat.
unfoldable pub send_or_create :
    Option Orchestrator
    → (Text → List Text)
    → (AppError → Text)
    → Text
    → Text
    → CreateParams
    → Uuids
    → ℕ
    → World
    → World × Result Chat
unfolding create send_message
send_or_create orchestrator vms say [] content p ids now w =
    (let (w1, made) = create p ids now w in
      elim made [
        | err e ↦ (w1, err e)
        | ok c ↦ send_message orchestrator vms say c.id content now w1
      ])
send_or_create orchestrator vms say (c ∷ cs) content p ids now w =
    send_message orchestrator vms say (c ∷ cs) content now w

abbrev id_of : Text → World × Result Chat → World × Result Text
id_of id (w, err e) = (w, err e)
id_of id (w, ok c) = (w, ok id)

-- The id of the chat that took the message.
unfoldable pub send_or_create_async :
    Option Orchestrator
    → (Text → List Text)
    → (AppError → Text)
    → Text
    → Text
    → CreateParams
    → Uuids
    → ℕ
    → World
    → World × Result Text
unfolding create accept
send_or_create_async orchestrator vms say [] content p ids now w =
    (let (w1, made) = create p ids now w in
      elim made [
        | err e ↦ (w1, err e)
        | ok c ↦ id_of c.id (accept orchestrator vms say c.id content now w1)
      ])
send_or_create_async orchestrator vms say (c ∷ cs) content p ids now w =
    id_of (c ∷ cs) (accept orchestrator vms say (c ∷ cs) content now w)

-- A title is asked for with the first message.
abbrev pub wants_title : Chat → Bool
wants_title c = length c.messages == 1

unfoldable pub get : Text → World → Result Chat
get id w = ChatRepo.get_by_id id w.chats

abbrev pub closed_chat : Chat → ℕ → World → World × Outcome
closed_chat c now w =
    elim (ChatRepo.update (record c { status = closed; updated_at = now }) w.chats) [
      | err e ↦ (w, err e)
      | ok r ↦ (record w { chats = r }, ok tt)
    ]

-- Closing a closed chat does nothing.
unfoldable pub close : Text → ℕ → World → World × Outcome
close id now w = elim (ChatRepo.get_by_id id w.chats) [
  | err e ↦ (w, err e)
  | ok c ↦ if is_closed c.status then (w, ok tt) else closed_chat c now w
]

abbrev titled : Text → Text → ℕ → World → Result ChatRepo.Repo → World
titled id title now w (err e) = w
titled id title now w (ok r) =
    publish_and_persist id
      (fill id now (record { event = text_event title_event id 0 title; at = some now }))
      (record w { chats = r })

-- `answer` is what the title generator gives for the first message.
unfoldable pub generate_title : Text → Result Text → ℕ → World → World
unfolding publish_and_persist fill
generate_title id (err e) now w = w
generate_title id (ok []) now w = w
generate_title id (ok (c ∷ cs)) now w =
    titled id (c ∷ cs) now w (ChatRepo.update_title id (c ∷ cs) now w.chats)

-- The subscriber's id, or an error where there is no such chat.
unfoldable pub subscribe : Text → World → World × Result ℕ
subscribe chat w = elim (ChatRepo.get_by_id chat w.chats) [
  | err e ↦ (w, err e)
  | ok c ↦
      let id = w.subscriber_n + 1 in
      (
        record w {
          subscriber_n = id;
          subscribers =
              insert chat (entries_of chat w.subscribers ++ record { id = id; queue = [] } ∷ [])
                w.subscribers;
        },
        ok id,
      )
]

unfoldable pub is_among : ℕ → List ℕ → Bool
is_among id [] = false
is_among id (i ∷ is) = i == id || is_among id is

unfoldable pub replay_to : ℕ → TimedEvent → List Subscriber → List Subscriber
unfolding offer
replay_to id e [] = []
replay_to id e (s ∷ ss) =
    let rest = replay_to id e ss in if s.id == id then offer e s ∷ ss else s ∷ rest

abbrev pub replayed : Text → ℕ → TimedEvent → Option (List Subscriber) → World → World
replayed chat id e none w = w
replayed chat id e (some ss) w = record w {
  subscribers = insert chat (replay_to id e ss) w.subscribers;
}

-- One round of the replay of the buffer that SubscribeRuntimeEvents took: none where the channel is
-- closed, since a send on it panics.
unfoldable pub replay : Text → ℕ → TimedEvent → World → Option World
unfolding is_among replay_to
replay chat id e w =
    if is_among id w.closed_channels
    then none
    else some (replayed chat id e (lookup chat w.subscribers) w)

unfoldable pub without : ℕ → List Subscriber → List Subscriber
without id [] = []
without id (s ∷ ss) = let rest = without id ss in if s.id == id then rest else s ∷ rest

unfoldable pub is_subscribed : ℕ → List Subscriber → Bool
is_subscribed id [] = false
is_subscribed id (s ∷ ss) = s.id == id || is_subscribed id ss

abbrev pub left : Text → List Subscriber → Dict (List Subscriber) → Dict (List Subscriber)
left chat [] subs = remove chat subs
left chat (s ∷ ss) subs = insert chat (s ∷ ss) subs

-- A subscriber that is there is removed, and its channel closed.
unfoldable pub unsubscribe : Text → ℕ → World → World
unfolding without is_subscribed
unsubscribe chat id w = elim (lookup chat w.subscribers) [
  | none ↦ w
  | some ss ↦ record w {
    subscribers = left chat (without id ss) w.subscribers;
    closed_channels = if is_subscribed id ss then id ∷ w.closed_channels else w.closed_channels;
  }
]

-- The service replaces a limit that is not in range, before the repository does.
unfoldable pub list_conversations :
    ChatRepo.ListParams → World → Page ChatRepo.ConversationSummary ChatRepo.ListCursor
list_conversations p w =
    ChatRepo.list_by_user_id (record p { limit = pos (limit_or 20 100 p.limit) }) w.chats

unfoldable pub list_messages : ListMessagesParams → World → Result (Page TimelineEntry ℕ)
list_messages p w =
    Messages.list_messages (record p { limit = pos (limit_or 50 100 p.limit) }) w.chats
