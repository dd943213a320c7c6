-- ===== src/ChatService/Streams.antt =====
-- What the runtime events of src/service/chat/service.go reach: the log, the buffer for late
-- subscribers and the subscribers' channels.
use spacetrek.Prelude.{
  ◌≡◌, ◌∙◌, refl, sym, ap, ℕ, Bool-cases, inl, inr, false, List, [], ◌∷◌, ◌++◌, append_assoc,
  append-nil, map, Option, none, some, Text, text_eq_refl, Dict, lookup, insert, remove,
  lookup-insert, lookup-remove, subst, if◌then◌else◌, All,
}
use spacetrek.EventRepo
use spacetrek.EventRepo.{PersistedRuntimeEvent, events_of, to_persisted, insert_event}
use spacetrek.ChatService.{
  TimedEvent, Subscriber, World, entries_of, is_done, offer_all, deliver, buffer_event, publish,
  time_or, chat_or, persist_event, publish_and_persist, fill, emit_all,
}
use spacetrek.ChatService.Queues.{fed, Fits, offer_all-fed, all_fed-Fits, all_fed-fed, all_fed_none}

pub entries_of-insert {ℓ} :
    {A : Type ℓ} (k : Text) (v : List A) (m : Dict (List A)) → entries_of k (insert k v m) ≡ v
entries_of-insert k v m =
    ap (λ o. elim o [ none ↦ [] | some xs ↦ xs ])
      (lookup-insert k k v m ∙ ap (λ b. if b then some v else lookup k m) (text_eq_refl k))

pub entries_of-remove {ℓ} :
    {A : Type ℓ} (k : Text) (m : Dict (List A)) → entries_of k (remove k m) ≡ []
entries_of-remove k m =
    ap (λ o. elim o [ none ↦ [] | some xs ↦ xs ])
      (lookup-remove k k m ∙ ap (λ b. if b then none else lookup k m) (text_eq_refl k))

-- An event as the log keeps it.
abbrev pub logged : Text → ℕ → TimedEvent → PersistedRuntimeEvent
logged chat now e = record {
  id = [];
  chat_id = chat;
  payload = (fill chat now e).event;
  created_at = time_or e.at now;
}

-- An event of the service itself, as the log keeps it.
abbrev pub noted : Text → TimedEvent → PersistedRuntimeEvent
noted chat e = record (to_persisted e.event (time_or e.at 0)) { chat_id = chat }

-- The event names no other chat than the one of the call.
abbrev pub IsOwn : Text → TimedEvent → Type 0
IsOwn chat e = chat_or e.event.chat_id chat ≡ chat

-- The three places where the events of a chat arrive.
pub record IsSent (chat : Text) (log : List PersistedRuntimeEvent) (buf : List TimedEvent)
    (subs : List Subscriber) (w : World) : Type 0 where
  pub in_log : events_of chat w.events ≡ log
  pub in_buf : entries_of chat w.event_bufs ≡ buf
  pub in_subs : entries_of chat w.subscribers ≡ subs

chat_or-chat_or : (x chat : Text) → chat_or (chat_or x chat) chat ≡ chat_or x chat
chat_or-chat_or [] [] = refl
chat_or-chat_or [] (c ∷ cs) = refl
chat_or-chat_or (x ∷ xs) chat = refl

pub chat_or_same : (chat : Text) → chat_or chat chat ≡ chat
chat_or_same [] = refl
chat_or_same (c ∷ cs) = refl

insert_event-own :
    (q : PersistedRuntimeEvent) (chat : Text) (r : EventRepo.Repo)
    → q.chat_id ≡ chat
    → events_of chat (insert_event q r) ≡ events_of chat r ++ q ∷ []
unfolding insert_event events_of
insert_event-own q chat r h =
    subst (λ c. events_of c (insert_event q r) ≡ events_of c r ++ q ∷ []) h
      (entries_of-insert q.chat_id (events_of q.chat_id r ++ q ∷ []) r.events)

persist_event-log :
    (chat : Text) (e : TimedEvent) (w : World)
    → e.event.chat_id ≡ chat
    → events_of chat (persist_event chat e w).events ≡ events_of chat w.events ++ noted chat e ∷ []
unfolding persist_event to_persisted
persist_event-log chat e w h =
    let own : chat_or e.event.chat_id chat ≡ chat =
      ap (λ c. chat_or c chat) h ∙ chat_or_same chat in
    insert_event-own _ chat w.events own
    ∙ ap
        (λ c.
          events_of chat w.events
          ++ record (to_persisted e.event (time_or e.at 0)) { chat_id = c } ∷ [])
        own

abbrev pub kept : TimedEvent → List TimedEvent → List TimedEvent
kept e es = if is_done e.event.kind then [] else es ++ e ∷ []

buffer_event-own :
    (chat : Text) (e : TimedEvent) (bufs : Dict (List TimedEvent))
    → e.event.chat_id ≡ chat
    → entries_of chat (buffer_event e bufs) ≡ kept e (entries_of chat bufs)
unfolding buffer_event
buffer_event-own chat e bufs h =
    subst (λ c. entries_of c (buffer_event e bufs) ≡ kept e (entries_of c bufs)) h
      (elim (Bool-cases (is_done e.event.kind)) [
        | inl q ↦ rw q (
            entries_of-remove _
              (insert e.event.chat_id (entries_of e.event.chat_id bufs ++ e ∷ []) bufs))
        | inr q ↦
            rw q
              (entries_of-insert e.event.chat_id (entries_of e.event.chat_id bufs ++ e ∷ []) bufs)
      ])

deliver-offer_all :
    (e : TimedEvent) (subs : Dict (List Subscriber)) (o : Option (List Subscriber))
    → lookup e.event.chat_id subs ≡ o
    → entries_of e.event.chat_id (deliver e o subs) ≡ offer_all e (entries_of e.event.chat_id subs)
unfolding offer_all
deliver-offer_all e subs none q =
    ap (λ o. elim o [ none ↦ [] | some xs ↦ xs ]) q
    ∙ sym (ap (λ o. offer_all e (elim o [ none ↦ [] | some xs ↦ xs ])) q)
deliver-offer_all e subs (some ss) q =
    entries_of-insert e.event.chat_id (offer_all e ss) subs
    ∙ sym (ap (λ o. offer_all e (elim o [ none ↦ [] | some xs ↦ xs ])) q)

deliver-own :
    (chat : Text) (e : TimedEvent) (subs : Dict (List Subscriber))
    → e.event.chat_id ≡ chat
    → entries_of chat (deliver e (lookup e.event.chat_id subs) subs)
      ≡ offer_all e (entries_of chat subs)
deliver-own chat e subs h =
    subst
      (λ c.
        entries_of c (deliver e (lookup e.event.chat_id subs) subs)
        ≡ offer_all e (entries_of c subs))
      h (deliver-offer_all e subs (lookup e.event.chat_id subs) refl)

-- One event of the chat at its three places.
pub publish_and_persist-IsSent :
    (chat : Text) (e : TimedEvent) (w : World)
    → All Fits (entries_of chat w.subscribers)
    → e.event.chat_id ≡ chat
    → IsSent chat
        (events_of chat w.events ++ noted chat e ∷ [])
        (kept e (entries_of chat w.event_bufs))
        (map (fed (e ∷ [])) (entries_of chat w.subscribers))
        (publish_and_persist chat e w)
unfolding publish_and_persist publish persist_event
publish_and_persist-IsSent chat e w fits h = record {
  in_log = persist_event-log chat e (publish e w) h;
  in_buf = buffer_event-own chat e w.event_bufs h;
  in_subs =
      deliver-own chat e w.subscribers h ∙ offer_all-fed e (entries_of chat w.subscribers) fits;
}

-- The events that an orchestrator emits, none of which is done.
pub emit_all-IsSent :
    (chat : Text) (now : ℕ) (es : List TimedEvent) (w : World)
    → All Fits (entries_of chat w.subscribers)
    → All (IsOwn chat) es
    → All (λ e. is_done e.event.kind ≡ false) es
    → IsSent chat
        (events_of chat w.events ++ map (logged chat now) es)
        (entries_of chat w.event_bufs ++ map (fill chat now) es)
        (map (fed (map (fill chat now) es)) (entries_of chat w.subscribers))
        (emit_all chat now es w)
unfolding emit_all fill to_persisted
emit_all-IsSent chat now [] w fits own running = record {
  in_log = sym (append-nil _);
  in_buf = sym (append-nil _);
  in_subs = sym (all_fed_none (entries_of chat w.subscribers) fits);
}
emit_all-IsSent chat now (e ∷ es) w fits (own_e, own) (running_e, running) =
    let now_e = fill chat now e in
    let one = publish_and_persist-IsSent chat now_e w fits own_e in
    let w1 = publish_and_persist chat now_e w in
    let fits1 : All Fits (entries_of chat w1.subscribers) =
      subst (λ ss. All Fits ss) (sym one.in_subs)
        (all_fed-Fits (now_e ∷ []) (entries_of chat w.subscribers)) in
    let rest = emit_all-IsSent chat now es w1 fits1 own running in
    let goes_on : kept now_e (entries_of chat w.event_bufs)
        ≡ entries_of chat w.event_bufs ++ now_e ∷ [] =
      ap (λ b. if b then [] else entries_of chat w.event_bufs ++ now_e ∷ []) running_e in
    record {
      in_log =
          rest.in_log
          ∙ ap (λ log. log ++ map (logged chat now) es) one.in_log
          ∙ append_assoc (events_of chat w.events) (logged chat now e ∷ [])
              (map (logged chat now) es);
      in_buf =
          rest.in_buf
          ∙ ap (λ buf. buf ++ map (fill chat now) es) (one.in_buf ∙ goes_on)
          ∙ append_assoc (entries_of chat w.event_bufs) (now_e ∷ []) (map (fill chat now) es);
      in_subs =
          rest.in_subs
          ∙ ap (map (fed (map (fill chat now) es))) one.in_subs
          ∙ all_fed-fed (now_e ∷ []) (map (fill chat now) es) (entries_of chat w.subscribers);
    }

-- One event more, behind those that were sent.
pub IsSent-publish :
    (chat : Text) (log : List PersistedRuntimeEvent) (buf es : List TimedEvent)
    (ss : List Subscriber) (e : TimedEvent) (w : World)
    → IsSent chat log buf (map (fed es) ss) w
    → e.event.chat_id ≡ chat
    → IsSent chat
        (log ++ noted chat e ∷ [])
        (kept e buf)
        (map (fed (es ++ e ∷ [])) ss)
        (publish_and_persist chat e w)
IsSent-publish chat log buf es ss e w h own =
    let fits : All Fits (entries_of chat w.subscribers) =
      subst (λ xs. All Fits xs) (sym h.in_subs) (all_fed-Fits es ss) in
    let last = publish_and_persist-IsSent chat e w fits own in
    record {
      in_log = last.in_log ∙ ap (λ l. l ++ noted chat e ∷ []) h.in_log;
      in_buf = last.in_buf ∙ ap (kept e) h.in_buf;
      in_subs = last.in_subs ∙ ap (map (fed (e ∷ []))) h.in_subs ∙ all_fed-fed es (e ∷ []) ss;
    }
