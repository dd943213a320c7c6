-- ===== src/ChatService.antt =====
-- The chat service: src/service/chat/service.go, over the repositories in memory. The orchestrator,
-- the title generator and the collector of VMs are arguments, and so are the clock's answers and the
-- UUIDs; one time stands for all readings of the clock in a call. The background part of an asynchronous message is a step of its own, as is the replay of
-- buffered events to a new subscriber.
pub mod Calls
pub mod Available
pub mod Choices
pub mod Turns
pub mod Queues
pub mod Streams
pub mod Goroutine
pub mod Background
pub mod Closing
pub mod Subscriptions
use spacetrek.Prelude.{
  ◌≡◌, ℕ, zero, suc, ◌+◌, Bool, true, false, not, List, [], ◌∷◌, ◌++◌, Option, none, some, Text,
  codes, Dict, lookup, insert, remove, is_empty, ltb, ◌==◌, if◌then◌else◌, length, trim_space,
}
use spacetrek.Exception.{AppError, bad_request, Result, ok, err, ◌>>=◌}
use spacetrek.Chats.{
  Chat, Message, CreateParams, new, user, assistant, closed, is_closed, add_message,
  add_message_with_metadata,
}
use spacetrek.Chats
use spacetrek.ChatRepo
use spacetrek.Agents
use spacetrek.EventRepo
use spacetrek.EventRepo.{to_persisted, insert_event}
use spacetrek.React.{
  RuntimeEvent, EventKind, token, thinking, answer, tool_call, plan, error_event, done_event,
  title_event, TokenUsage, is_zero_usage, text_event,
}

-- An event with its time, none where it is zero.
pub record TimedEvent : Type 0 where
  pub event : RuntimeEvent
  pub at : Option ℕ

-- A subscriber's channel of capacity 32.
pub record Subscriber : Type 0 where
  pub id : ℕ
  pub queue : List TimedEvent

-- A channel has its subscriber's id; `closed_channels` are those that were closed.
pub record World : Type 0 where
  pub chats : ChatRepo.Repo
  pub agents : Agents.Repo
  pub events : EventRepo.Repo
  pub event_bufs : Dict (List TimedEvent)
  pub subscribers : Dict (List Subscriber)
  pub subscriber_n : ℕ
  pub closed_channels : List ℕ

-- What the orchestrator is given and what it answers; a VM is its id.
pub record ProcessInput : Type 0 where
  pub chat_id : Text
  pub agent_id : Text
  pub user_id : Text
  pub message : Text
  pub available_vms : List Text
  pub history : List Message

-- `metadata` is what buildAssistantMetadata makes of the trace.
pub record Reply : Type 0 where
  pub assistant_message : Text
  pub metadata : Dict Text
  pub usage : Option TokenUsage

abbrev pub Orchestrator : Type 0
Orchestrator = ProcessInput → List TimedEvent × Result Reply

abbrev pub is_done : EventKind → Bool
is_done done_event = true
is_done _ = false

abbrev pub entries_of {ℓ} : {A : Type ℓ} → Text → Dict (List A) → List A
entries_of k m = elim (lookup k m) [ none ↦ [] | some xs ↦ xs ]

-- `select { case ch <- event: default: }`
unfoldable pub offer : TimedEvent → Subscriber → Subscriber
offer e s = if ltb (length s.queue) 32 then record s { queue = s.queue ++ e ∷ [] } else s

unfoldable pub offer_all : TimedEvent → List Subscriber → List Subscriber
unfolding offer
offer_all e [] = []
offer_all e (s ∷ ss) = offer e s ∷ offer_all e ss

-- The buffer of the event's chat; it is cleared on done.
unfoldable pub buffer_event : TimedEvent → Dict (List TimedEvent) → Dict (List TimedEvent)
buffer_event e bufs =
    let chat = e.event.chat_id in
    let more = insert chat (entries_of chat bufs ++ e ∷ []) bufs in
    if is_done e.event.kind then remove chat more else more

-- The listeners of a chat that has none are not stored.
abbrev pub deliver :
    TimedEvent → Option (List Subscriber) → Dict (List Subscriber) → Dict (List Subscriber)
deliver e none subs = subs
deliver e (some ss) subs = insert e.event.chat_id (offer_all e ss) subs

unfoldable pub publish : TimedEvent → World → World
unfolding buffer_event offer_all
publish e w = record w {
  event_bufs = buffer_event e w.event_bufs;
  subscribers = deliver e (lookup e.event.chat_id w.subscribers) w.subscribers;
}

abbrev pub time_or : Option ℕ → ℕ → ℕ
time_or none now = now
time_or (some t) now = t

-- The event's own chat, or the one that the call is about.
abbrev pub chat_or : Text → Text → Text
chat_or [] chat = chat
chat_or (c ∷ cs) chat = c ∷ cs

unfoldable pub persist_event : Text → TimedEvent → World → World
unfolding to_persisted insert_event
persist_event chat e w =
    let p = to_persisted e.event (time_or e.at 0) in
    record w { events = insert_event (record p { chat_id = chat_or p.chat_id chat }) w.events }

unfoldable pub publish_and_persist : Text → TimedEvent → World → World
unfolding publish persist_event
publish_and_persist chat e w = persist_event chat e (publish e w)

-- The callback `emit` that the orchestrator gets; `now` is the clock's answer.
unfoldable pub fill : Text → ℕ → TimedEvent → TimedEvent
fill chat now e = record {
  event = (let r = e.event in record r { chat_id = chat_or e.event.chat_id chat });
  at = some (time_or e.at now);
}

unfoldable pub emit_all : Text → ℕ → List TimedEvent → World → World
unfolding fill publish_and_persist
emit_all chat now [] w = w
emit_all chat now (e ∷ es) w = emit_all chat now es (publish_and_persist chat (fill chat now e) w)

-- The events that the service itself makes; an error's text is `say`.
abbrev pub failure_event : Text → Text → ℕ → TimedEvent
failure_event chat why now = record {
  event = (let e = text_event error_event chat 0 [] in record e { error = why });
  at = some now;
}

abbrev pub finished_event : Text → Text → Option TokenUsage → ℕ → TimedEvent
finished_event chat reply usage now = record {
  event = (let e = text_event done_event chat 0 reply in record e { token_usage = usage });
  at = some now;
}

abbrev pub or_placeholder : Text → Text
or_placeholder [] = codes "[orchestrator returned empty response]"
or_placeholder (c ∷ cs) = c ∷ cs

-- The chat, unless it is closed.
unfoldable pub open_chat : Text → World → Result Chat
open_chat id w = ChatRepo.get_by_id id w.chats >>= λ c.
    if is_closed c.status then err (bad_request (codes "chat is already closed")) else ok c

abbrev pub stored : World → Chat → Result ChatRepo.Repo → World × Result Chat
stored w c (err e) = (w, err e)
stored w c (ok r) = (record w { chats = r }, ok c)

unfoldable pub with_reply : Reply → ℕ → Chat → Chat
with_reply r now c =
    add_message_with_metadata assistant (or_placeholder r.assistant_message) r.metadata now now c

abbrev pub input_of : (Text → List Text) → Text → Text → Chat → ProcessInput
input_of available_vms id content c = record {
  chat_id = id;
  agent_id = c.agent_id;
  user_id = c.user_id;
  message = content;
  available_vms = available_vms id;
  history = c.messages;
}

module _ (orchestrator : Option Orchestrator) (available_vms : Text → List Text)
    (say : AppError → Text) where
  abbrev pub answered : Text → ℕ → Chat → World → Result Reply → World × Result Chat
  answered id now c w (err e) = (publish_and_persist id (failure_event id (say e) now) w, err e)
  answered id now c w (ok r) =
      (let c2 = with_reply r now c in stored w c2 (ChatRepo.update c2 w.chats))

  -- A synchronous message to an open chat, which has it already.
  abbrev pub turn : Text → Text → ℕ → Chat → World → World × Result Chat
  turn id content now c w = elim orchestrator [
    | none ↦
        let c2 = add_message assistant (codes "[orchestrator not configured]") now now c in
        stored w c2 (ChatRepo.update c2 w.chats)
    | some process ↦
        let (events, result) = process (input_of available_vms id content c) in
        answered id now c (emit_all id now events w) result
  ]

  unfoldable pub send_message : Text → Text → ℕ → World → World × Result Chat
  unfolding open_chat emit_all publish_and_persist with_reply
  send_message id content now w = elim (open_chat id w) [
    | err e ↦ (w, err e)
    | ok c ↦ turn id content now (add_message user content now now c) w
  ]

  -- What an asynchronous message does before it returns.
  unfoldable pub accept : Text → Text → ℕ → World → World × Result Chat
  unfolding open_chat
  accept id content now w = elim (open_chat id w) [
    | err e ↦ (w, err e)
    | ok c ↦ let c1 = add_message user content now now c in stored w c1 (ChatRepo.update c1 w.chats)
  ]

  abbrev pub finished : Text → ℕ → Reply → World × Result Chat → World
  finished id now r (w, err e) = w
  finished id now r (w, ok c) =
      publish_and_persist id (finished_event id (or_placeholder r.assistant_message) r.usage now) w

  abbrev pub reload : Text → ℕ → Reply → World → Result Chat → World
  reload id now r w (err e) = w
  reload id now r w (ok c) =
      (let c2 = with_reply r now c in finished id now r (stored w c2 (ChatRepo.update c2 w.chats)))

  abbrev pub background_answered : Text → ℕ → World → Result Reply → World
  background_answered id now w (err e) = publish_and_persist id (failure_event id (say e) now) w
  background_answered id now w (ok r) = reload id now r w (ChatRepo.get_by_id id w.chats)

  -- The goroutine of an asynchronous message; `c` is the chat that was accepted.
  unfoldable pub background : Text → Text → ℕ → Chat → World → World
  unfolding emit_all publish_and_persist with_reply
  background id content now c w = elim orchestrator [
    | none ↦ publish_and_persist id (failure_event id (codes "orchestrator not configured") now) w
    | some process ↦
        let (events, result) = process (input_of available_vms id content c) in
        background_answered id now (emit_all id now events w) result
  ]
