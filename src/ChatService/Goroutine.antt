-- ===== src/ChatService/Goroutine.antt =====
-- How the goroutine of an asynchronous message runs: src/service/chat/service.go.
use spacetrek.Prelude.{
  ◌≡◌, ◌∙◌, ◌⊎◌, refl, sym, ap, subst, ℕ, inl, inr, false, List, [], ◌∷◌, ◌++◌, map, some, Text,
  text_eq, lookup, insert, lookup-insert, if◌then◌else◌, All,
}
use spacetrek.Exception.{AppError, Result-cases, ok, err, or_err}
use spacetrek.Chats.{Chat, add_message_with_metadata}
use spacetrek.ChatRepo
use spacetrek.ChatRepo.{chat_missing}
use spacetrek.EventRepo.{events_of}
use spacetrek.ChatService.{
  TimedEvent, World, Reply, Orchestrator, entries_of, is_done, or_placeholder, fill, emit_all,
  publish_and_persist, failure_event, finished_event, with_reply, input_of, background,
  background_answered, reload, finished, stored,
}
use spacetrek.ChatService.Queues.{fed, Fits}
use spacetrek.ChatService.Streams.{logged, noted, IsOwn, IsSent, emit_all-IsSent, IsSent-publish}
use spacetrek.ChatService.Turns.{emit_all-chats, publish_and_persist-chats, update_found}

-- The events that an orchestrator emits, and one of the service behind them, have reached the log
-- and the subscribers; the buffer holds `buf`.
abbrev pub IsTold :
    Text → ℕ → List TimedEvent → TimedEvent → List TimedEvent → World → World → Type 0
IsTold id now es e buf before after =
    IsSent id ((events_of id before.events ++ map (logged id now) es) ++ noted id e ∷ []) buf
      (map (fed (map (fill id now) es ++ e ∷ [])) (entries_of id before.subscribers)) after

-- The world in which a chat has taken a reply.
abbrev replied : Reply → ℕ → Chat → World → World
replied r now d w = record w {
  chats = record { chats = insert d.id (with_reply r now d) w.chats.chats };
}

background_answered_ok :
    (process : Orchestrator) (vms : Text → List Text) (say : AppError → Text) (d : Chat) (now : ℕ)
    (w : World) (r : Reply)
    → lookup d.id w.chats.chats ≡ some d
    → background_answered (some process) vms say d.id now w (ok r)
      ≡ publish_and_persist d.id
          (finished_event d.id (or_placeholder r.assistant_message) r.usage now)
          (replied r now d w)
unfolding with_reply ChatRepo.get_by_id add_message_with_metadata
background_answered_ok process vms say d now w r found =
    ap (λ o. reload (some process) vms say d.id now r w (or_err o (chat_missing d.id))) found
    ∙ ap (λ u. finished (some process) vms say d.id now r (stored w (with_reply r now d) u))
        (update_found d (with_reply r now d) w.chats found)

pub background-IsTold :
    (process : Orchestrator) (vms : Text → List Text) (say : AppError → Text) (c d : Chat)
    (content : Text) (now : ℕ) (w : World)
    → lookup d.id w.chats.chats ≡ some d
    → All Fits (entries_of d.id w.subscribers)
    → All (IsOwn d.id) (process (input_of vms d.id content c)).0
    → All (λ e. is_done e.event.kind ≡ false) (process (input_of vms d.id content c)).0
    → ((e : AppError) × ((process (input_of vms d.id content c)).1 ≡ err e)
        × ((background (some process) vms say d.id content now c w).chats ≡ w.chats)
        × IsTold d.id now
            (process (input_of vms d.id content c)).0
            (failure_event d.id (say e) now)
            ((entries_of d.id w.event_bufs
                ++ map (fill d.id now) (process (input_of vms d.id content c)).0)
              ++ failure_event d.id (say e) now ∷ [])
            w
            (background (some process) vms say d.id content now c w))
      ⊎ ((r : Reply) × ((process (input_of vms d.id content c)).1 ≡ ok r)
          × ((id : Text)
              → lookup id (background (some process) vms say d.id content now c w).chats.chats
                ≡ (if text_eq d.id id then some (with_reply r now d) else lookup id w.chats.chats))
          × IsTold d.id now
              (process (input_of vms d.id content c)).0
              (finished_event d.id (or_placeholder r.assistant_message) r.usage now)
              []
              w
              (background (some process) vms say d.id content now c w))
unfolding background
background-IsTold process vms say c d content now w here fits own running =
    let (events, result) = process (input_of vms d.id content c) in
    let w1 = emit_all d.id now events w in
    let same = emit_all-chats d.id now events w in
    let sent = emit_all-IsSent d.id now events w fits own running in
    elim (Result-cases result) [
      | inr (e, q) ↦
          let run : background (some process) vms say d.id content now c w
              ≡ publish_and_persist d.id (failure_event d.id (say e) now) w1 =
            ap (background_answered (some process) vms say d.id now w1) q in
          inl (
            e,
            q,
            ap (λ x. x.chats) run
                ∙ publish_and_persist-chats d.id (failure_event d.id (say e) now) w1
                ∙ same,
            subst
                (λ x.
                  IsTold d.id now events (failure_event d.id (say e) now)
                    ((entries_of d.id w.event_bufs ++ map (fill d.id now) events)
                      ++ failure_event d.id (say e) now ∷ [])
                    w x)
                (sym run)
                (IsSent-publish d.id _ _ _ (entries_of d.id w.subscribers)
                  (failure_event d.id (say e) now) w1 sent refl),
          )
      | inl (r, q) ↦
          let found : lookup d.id w1.chats.chats ≡ some d =
            ap (λ x. lookup d.id x.chats) same ∙ here in
          let d2 = with_reply r now d in
          let w2 = replied r now d w1 in
          let last = finished_event d.id (or_placeholder r.assistant_message) r.usage now in
          let run : background (some process) vms say d.id content now c w
              ≡ publish_and_persist d.id last w2 =
            ap (background_answered (some process) vms say d.id now w1) q
            ∙ background_answered_ok process vms say d now w1 r found in
          inr (
            r,
            q,
            λ id.
                ap (λ x. lookup id x.chats.chats) run
                ∙ ap (λ x. lookup id x.chats) (publish_and_persist-chats d.id last w2)
                ∙ lookup-insert d.id id d2 w1.chats.chats
                ∙ ap (λ x. if text_eq d.id id then some d2 else lookup id x.chats) same,
            subst (λ x. IsTold d.id now events last [] w x) (sym run)
                (IsSent-publish d.id _ _ _ (entries_of d.id w.subscribers) last w2
                  (record { in_log = sent.in_log; in_buf = sent.in_buf; in_subs = sent.in_subs })
                  refl),
          )
    ]
