-- ===== src/ChatService/Background.antt =====
-- What the goroutine of an asynchronous message leaves: src/service/chat/service.go.
use spacetrek.Prelude.{
  ◌≡◌, ◌≢◌, ◌∙◌, ◌⊎◌, refl, subst, ap, ℕ, inl, inr, false, List, [], ◌∷◌, ◌++◌, map, Option, none,
  some, Text, text_eq, lookup, if◌then◌else◌, All, All-mono,
}
use spacetrek.Exception.{AppError, ok, err}
use spacetrek.Chats.{Chat}
use spacetrek.EventRepo.{PersistedRuntimeEvent, events_of, to_persisted}
use spacetrek.React.{
  EventKind, token, thinking, answer, tool_call, plan, error_event, done_event, title_event,
  no_metadata,
}
use spacetrek.ChatService.{
  TimedEvent, World, Reply, Orchestrator, ProcessInput, entries_of, is_done, fill, time_or, chat_or,
  background, input_of, finished_event, or_placeholder,
}
use spacetrek.ChatService.Queues.{fed, Fits}
use spacetrek.ChatService.Streams.{logged, noted, IsOwn, IsSent, chat_or_same}
use spacetrek.ChatService.Goroutine.{IsTold, background-IsTold}
use spacetrek.ChatService.Turns.{
  with_message, reply_of, reply_text, or_placeholder-reply, with_reply-message,
}

abbrev pub stamp : Option ℕ → ℕ → ℕ
stamp none now = now
stamp (some t) now = t

-- An event as the buffer and the subscribers get it: it names the chat, and has a time.
abbrev pub sent_as : Text → ℕ → TimedEvent → TimedEvent
sent_as chat now e = record {
  event = (let r = e.event in record r { chat_id = chat });
  at = some (stamp e.at now);
}

-- An event as the log keeps it.
abbrev pub kept_as : Text → ℕ → TimedEvent → PersistedRuntimeEvent
kept_as chat now e = record {
  id = [];
  chat_id = chat;
  payload = (let r = e.event in record r { chat_id = chat });
  created_at = stamp e.at now;
}

-- The event that says why a turn failed.
abbrev pub failure : Text → Text → ℕ → TimedEvent
failure chat why now = record {
  event = record {
    kind = error_event;
    chat_id = chat;
    step = 0;
    data_text = [];
    command = [];
    result = [];
    error = why;
    token_usage = none;
    metadata = no_metadata;
  };
  at = some now;
}

-- The event that says that a turn is done, with the reply.
abbrev pub completion : Text → Reply → ℕ → TimedEvent
completion chat r now = record {
  event = record {
    kind = done_event;
    chat_id = chat;
    step = 0;
    data_text = reply_text r.assistant_message;
    command = [];
    result = [];
    error = [];
    token_usage = r.usage;
    metadata = no_metadata;
  };
  at = some now;
}

-- The event names this chat or none, and is not a done event.
abbrev pub IsRunning : Text → TimedEvent → Type 0
IsRunning chat e = ((e.event.chat_id ≡ []) ⊎ (e.event.chat_id ≡ chat)) × (e.event.kind ≢ done_event)

-- The events `es` and behind them `last` are in the log and have been sent to the subscribers, each of
-- whom has the first 32; the buffer holds `buf`.
abbrev pub IsHeard :
    Text → ℕ → List TimedEvent → TimedEvent → List TimedEvent → World → World → Type 0
IsHeard id now es last buf before after =
    IsSent id ((events_of id before.events ++ map (kept_as id now) es) ++ kept_as id now last ∷ [])
      buf (map (fed (map (sent_as id now) es ++ last ∷ [])) (entries_of id before.subscribers))
      after

not_done : (k : EventKind) → k ≢ done_event → is_done k ≡ false
not_done token h = refl
not_done thinking h = refl
not_done answer h = refl
not_done tool_call h = refl
not_done plan h = refl
not_done error_event h = refl
not_done title_event h = refl
not_done done_event h = absurd (h refl)

own : (chat : Text) (e : TimedEvent) → IsRunning chat e → IsOwn chat e
own chat e (inl q, k) = ap (λ c. chat_or c chat) q
own chat e (inr q, k) = ap (λ c. chat_or c chat) q ∙ chat_or_same chat

time_or-stamp : (o : Option ℕ) (now : ℕ) → time_or o now ≡ stamp o now
time_or-stamp none now = refl
time_or-stamp (some t) now = refl

fill-sent_as :
    (chat : Text) (now : ℕ) (e : TimedEvent)
    → IsRunning chat e
    → fill chat now e ≡ sent_as chat now e
unfolding fill
fill-sent_as chat now e h =
    ap
      (λ c. record {
        event = (let r = e.event in record r { chat_id = c });
        at = some (time_or e.at now);
      })
      (own chat e h)
    ∙ ap (λ t. record { event = (let r = e.event in record r { chat_id = chat }); at = some t })
        (time_or-stamp e.at now)

logged-kept_as :
    (chat : Text) (now : ℕ) (e : TimedEvent)
    → IsRunning chat e
    → logged chat now e ≡ kept_as chat now e
logged-kept_as chat now e h =
    ap (λ f. record { id = []; chat_id = chat; payload = f.event; created_at = time_or e.at now })
      (fill-sent_as chat now e h)
    ∙ ap
        (λ t. record {
          id = [];
          chat_id = chat;
          payload = (let r = e.event in record r { chat_id = chat });
          created_at = t;
        })
        (time_or-stamp e.at now)

all_filled :
    (chat : Text) (now : ℕ) (es : List TimedEvent)
    → All (IsRunning chat) es
    → map (fill chat now) es ≡ map (sent_as chat now) es
all_filled chat now [] h = refl
all_filled chat now (e ∷ es) (he, h) =
    rw (fill-sent_as chat now e he, all_filled chat now es h) refl

all_logged :
    (chat : Text) (now : ℕ) (es : List TimedEvent)
    → All (IsRunning chat) es
    → map (logged chat now) es ≡ map (kept_as chat now) es
all_logged chat now [] h = refl
all_logged chat now (e ∷ es) (he, h) =
    rw (logged-kept_as chat now e he, all_logged chat now es h) refl

IsHeard-told :
    (chat : Text) (now : ℕ) (es : List TimedEvent) (last : TimedEvent) (buf buf' : List TimedEvent)
    (before after : World)
    → All (IsRunning chat) es
    → noted chat last ≡ kept_as chat now last
    → buf ≡ buf'
    → IsTold chat now es last buf before after
    → IsHeard chat now es last buf' before after
IsHeard-told chat now es last buf buf' before after h recorded same told = record {
  in_log =
      told.in_log
      ∙ ap (λ l. (events_of chat before.events ++ l) ++ noted chat last ∷ [])
          (all_logged chat now es h)
      ∙ ap (λ p. (events_of chat before.events ++ map (kept_as chat now) es) ++ p ∷ []) recorded;
  in_buf = told.in_buf ∙ same;
  in_subs =
      told.in_subs
      ∙ ap (λ l. map (fed (l ++ last ∷ [])) (entries_of chat before.subscribers))
          (all_filled chat now es h);
}

completion-finished :
    (chat : Text) (r : Reply) (now : ℕ)
    → finished_event chat (or_placeholder r.assistant_message) r.usage now ≡ completion chat r now
completion-finished chat r now =
    ap
      (λ t.
        let e = completion chat r now in
        record e { event = (let x = e.event in record x { data_text = t }) })
      (or_placeholder-reply r.assistant_message)

-- What the orchestrator is asked: the chat that was accepted has the user's message.
abbrev pub asked_for : (Text → List Text) → Text → Chat → Text → ProcessInput
asked_for vms id c content = record {
  chat_id = id;
  agent_id = c.agent_id;
  user_id = c.user_id;
  message = content;
  available_vms = vms id;
  history = c.messages;
}

-- What the goroutine of an asynchronous message leaves, where the orchestrator emits events of this
-- chat, none of which is a done event, and the subscribers' channels hold at most 32 events. Where the
-- orchestrator fails, no chat changes, an error event with the reason follows what was emitted, and the
-- buffer for late subscribers keeps all of it. Otherwise the reply stands behind the messages that the
-- chat has by then, no other chat changes, a done event with the reply follows, and the buffer is
-- empty. Each subscriber has the first 32 events, and the log all, with the chat's id and a time.
pub background_lem :
    (process : Orchestrator) (vms : Text → List Text) (say : AppError → Text) (c d : Chat)
    (content : Text) (now : ℕ) (w : World)
    → lookup d.id w.chats.chats ≡ some d
    → All Fits (entries_of d.id w.subscribers)
    → All (IsRunning d.id) (process (asked_for vms d.id c content)).0
    → ((e : AppError) × ((process (asked_for vms d.id c content)).1 ≡ err e)
        × ((background (some process) vms say d.id content now c w).chats ≡ w.chats)
        × IsHeard d.id now
            (process (asked_for vms d.id c content)).0
            (failure d.id (say e) now)
            ((entries_of d.id w.event_bufs
                ++ map (sent_as d.id now) (process (asked_for vms d.id c content)).0)
              ++ failure d.id (say e) now ∷ [])
            w
            (background (some process) vms say d.id content now c w))
      ⊎ ((r : Reply) × ((process (asked_for vms d.id c content)).1 ≡ ok r)
          × ((id : Text)
              → lookup id (background (some process) vms say d.id content now c w).chats.chats ≡ (
                  if text_eq d.id id
                  then some (with_message (reply_of r now) now d)
                  else lookup id w.chats.chats))
          × IsHeard d.id now
              (process (asked_for vms d.id c content)).0
              (completion d.id r now)
              []
              w
              (background (some process) vms say d.id content now c w))
unfolding to_persisted
background_lem process vms say c d content now w here fits running =
    let (events, result) = process (input_of vms d.id content c) in
    let after = background (some process) vms say d.id content now c w in
    elim (background-IsTold process vms say c d content now w here fits
      (All-mono (IsRunning d.id) (IsOwn d.id) (own d.id) events running)
      (All-mono (IsRunning d.id) (λ e. is_done e.event.kind ≡ false)
        (λ e h. not_done e.event.kind h.1) events running)) [
          | inl (e, q, chats, told) ↦
              let last = failure d.id (say e) now in
              inl (
                e,
                q,
                chats,
                IsHeard-told d.id now events last
                    ((entries_of d.id w.event_bufs ++ map (fill d.id now) events) ++ last ∷ [])
                    ((entries_of d.id w.event_bufs ++ map (sent_as d.id now) events) ++ last ∷ []) w
                    after running refl
                    (ap (λ l. (entries_of d.id w.event_bufs ++ l) ++ last ∷ [])
                      (all_filled d.id now events running))
                    told,
              )
          | inr (r, q, look, told) ↦ inr (
            r,
            q,
            λ id.
                look id
                ∙ ap (λ x. if text_eq d.id id then some x else lookup id w.chats.chats)
                    (with_reply-message r now d),
            IsHeard-told d.id now events (completion d.id r now) [] [] w after running refl refl (
                subst (λ l. IsTold d.id now events l [] w after) (completion-finished d.id r now)
                  told),
          )
        ]
