-- ===== src/ChatService/Turns.antt =====
-- What a message to a chat leaves in the chat: src/service/chat/service.go.
use spacetrek.Prelude.{
  ◌≢◌, ◌++◌, Dict, codes, ◌≡◌, ◌∙◌, ◌⊎◌, refl, ap, ℕ, inl, inr, false, List, [], ◌∷◌, some, Text,
  codes, text_eq, lookup, insert, lookup-insert, if◌then◌else◌,
}
use spacetrek.Exception.{AppError, Result-cases, ok, err, bad_request, or_err, ◌>>=◌}
use spacetrek.Chats.{
  Status, Role, Message, active, idle, closed, assistant, text, add_message_with_metadata,
  content_type_for_role, Chat, user, add_message, is_closed,
}
use spacetrek.ChatRepo
use spacetrek.ChatRepo.{chat_missing}
use spacetrek.ChatService.{
  ProcessInput, or_placeholder, TimedEvent, World, Reply, Orchestrator, publish, persist_event,
  publish_and_persist, fill, emit_all, open_chat, stored, with_reply, answered, input_of, turn,
  send_message, failure_event,
}

pub publish_and_persist-chats :
    (id : Text) (e : TimedEvent) (w : World) → (publish_and_persist id e w).chats ≡ w.chats
unfolding publish_and_persist publish persist_event
publish_and_persist-chats id e w = refl

pub emit_all-chats :
    (id : Text) (now : ℕ) (es : List TimedEvent) (w : World)
    → (emit_all id now es w).chats ≡ w.chats
unfolding emit_all
emit_all-chats id now [] w = refl
emit_all-chats id now (e ∷ es) w =
    emit_all-chats id now es (publish_and_persist id (fill id now e) w)
    ∙ publish_and_persist-chats id (fill id now e) w

-- The chat is stored under its id and takes messages.
pub record IsOpen (c : Chat) (w : World) : Type 0 where
  pub is_stored : lookup c.id w.chats.chats ≡ some c
  pub is_open : c.status ≢ closed

pub not_closed : (s : Status) → s ≢ closed → is_closed s ≡ false
not_closed active h = refl
not_closed idle h = refl
not_closed closed h = absurd (h refl)

pub open_chat-IsOpen : (c : Chat) (w : World) → IsOpen c w → open_chat c.id w ≡ ok c
unfolding open_chat ChatRepo.get_by_id
open_chat-IsOpen c w h =
    ap
      (λ o. or_err o (chat_missing c.id) >>= λ d.
        if is_closed d.status then err (bad_request (codes "chat is already closed")) else ok d)
      h.is_stored
    ∙ ap (λ b. if b then err (bad_request (codes "chat is already closed")) else ok c)
        (not_closed c.status h.is_open)

-- An update of a chat that is stored under its id.
pub update_found :
    (c d : Chat) (r : ChatRepo.Repo)
    → lookup d.id r.chats ≡ some c
    → ChatRepo.update d r ≡ ok (record { chats = insert d.id d r.chats })
unfolding ChatRepo.update
update_found c d r h =
    ap (λ o. or_err o (chat_missing d.id) >>= λ old. ok (record { chats = insert d.id d r.chats }))
      h

-- A message of the chat.
abbrev pub said : Role → Text → Dict Text → ℕ → Message
said role content metadata now = record {
  role = role;
  content = content;
  content_type = text;
  metadata = metadata;
  at = now;
}

abbrev pub reply_text : Text → Text
reply_text [] = codes "[orchestrator returned empty response]"
reply_text (c ∷ cs) = c ∷ cs

-- The chat with one message more.
abbrev pub with_message : Message → ℕ → Chat → Chat
with_message m now c = record c { messages = c.messages ++ m ∷ []; updated_at = now }

abbrev pub reply_of : Reply → ℕ → Message
reply_of r now = said assistant (reply_text r.assistant_message) r.metadata now

-- The chat with the user's message and the reply, in this order.
abbrev pub answered_chat : Chat → Text → Reply → ℕ → Chat
answered_chat c content r now = record c {
  messages = (c.messages ++ said user content [] now ∷ []) ++ reply_of r now ∷ [];
  updated_at = now;
}

-- What the orchestrator is asked: the history has the user's message.
abbrev pub asked : (Text → List Text) → Chat → Text → ℕ → ProcessInput
asked vms c content now = record {
  chat_id = c.id;
  agent_id = c.agent_id;
  user_id = c.user_id;
  message = content;
  available_vms = vms c.id;
  history = c.messages ++ said user content [] now ∷ [];
}

pub or_placeholder-reply : (t : Text) → or_placeholder t ≡ reply_text t
or_placeholder-reply [] = refl
or_placeholder-reply (c ∷ cs) = refl

pub with_reply-message :
    (r : Reply) (now : ℕ) (c : Chat) → with_reply r now c ≡ with_message (reply_of r now) now c
unfolding with_reply add_message_with_metadata content_type_for_role
with_reply-message r now c =
    ap (λ t. with_message (said assistant t r.metadata now) now c)
      (or_placeholder-reply r.assistant_message)

send_message-cases :
    (process : Orchestrator) (vms : Text → List Text) (say : AppError → Text) (c : Chat)
    (content : Text) (now : ℕ) (w : World)
    → IsOpen c w
    → ((e : AppError) × ((process
            (input_of vms c.id content (add_message user content now now c))).1
          ≡ err e)
        × ((send_message (some process) vms say c.id content now w).1 ≡ err e)
        × ((send_message (some process) vms say c.id content now w).0.chats ≡ w.chats))
      ⊎ ((r : Reply) × ((process (input_of vms c.id content (add_message user content now now c))).1
            ≡ ok r)
          × ((send_message (some process) vms say c.id content now w).1
              ≡ ok (with_reply r now (add_message user content now now c)))
          × ((id : Text)
              → lookup id (send_message (some process) vms say c.id content now w).0.chats.chats ≡ (
                  if text_eq c.id id
                  then some (with_reply r now (add_message user content now now c))
                  else lookup id w.chats.chats)))
unfolding send_message with_reply add_message
send_message-cases process vms say c content now w h =
    let c1 = add_message user content now now c in
    let (events, result) = process (input_of vms c.id content c1) in
    let w1 = emit_all c.id now events w in
    let same = emit_all-chats c.id now events w in
    let run : send_message (some process) vms say c.id content now w
        ≡ answered (some process) vms say c.id now c1 w1 result =
      ap
        (λ o. elim o [
          | err e ↦ (w, err e)
          | ok d ↦
              turn (some process) vms say c.id content now (add_message user content now now d) w
        ])
        (open_chat-IsOpen c w h) in
    let run_err : (e : AppError)
        → result ≡ err e
        → send_message (some process) vms say c.id content now w
          ≡ (publish_and_persist c.id (failure_event c.id (say e) now) w1, err e) =
      λ e q. run ∙ ap (answered (some process) vms say c.id now c1 w1) q in
    elim (Result-cases result) [
      | inr (e, q) ↦ inl (
        e,
        q,
        ap (λ p. p.1) (run_err e q),
        ap (λ p. p.0.chats) (run_err e q)
            ∙ publish_and_persist-chats c.id (failure_event c.id (say e) now) w1
            ∙ same,
      )
      | inl (r, q) ↦
          let c2 = with_reply r now c1 in
          let done : send_message (some process) vms say c.id content now w
              ≡ (record w1 { chats = record { chats = insert c.id c2 w1.chats.chats } }, ok c2) =
            run
            ∙ ap (answered (some process) vms say c.id now c1 w1) q
            ∙ ap (stored w1 c2)
                (update_found c c2 w1.chats (ap (λ r. lookup c.id r.chats) same ∙ h.is_stored)) in
          inr (
            r,
            q,
            ap (λ p. p.1) done,
            λ id.
                ap (λ p. lookup id p.0.chats.chats) done
                ∙ lookup-insert c.id id c2 w1.chats.chats
                ∙ ap (λ x. if text_eq c.id id then some c2 else lookup id x.chats) same,
          )
    ]

-- What a synchronous message to an open chat does, by the answer of the orchestrator, which is given
-- the chat's messages and the new one. Where it fails, so does the call, and no chat changes: also the
-- user's message is not kept. Otherwise the chat is stored and returned with the user's message and the
-- reply, in this order, and no other chat changes; an empty reply stands as a note that it was empty.
pub send_message_lem :
    (process : Orchestrator) (vms : Text → List Text) (say : AppError → Text) (c : Chat)
    (content : Text) (now : ℕ) (w : World)
    → IsOpen c w
    → ((e : AppError) × ((process (asked vms c content now)).1 ≡ err e)
        × ((send_message (some process) vms say c.id content now w).1 ≡ err e)
        × ((send_message (some process) vms say c.id content now w).0.chats ≡ w.chats))
      ⊎ ((r : Reply) × ((process (asked vms c content now)).1 ≡ ok r)
          × ((send_message (some process) vms say c.id content now w).1
              ≡ ok (answered_chat c content r now))
          × ((id : Text)
              → lookup id (send_message (some process) vms say c.id content now w).0.chats.chats ≡ (
                  if text_eq c.id id
                  then some (answered_chat c content r now)
                  else lookup id w.chats.chats)))
unfolding add_message add_message_with_metadata content_type_for_role
send_message_lem process vms say c content now w h =
    elim (send_message-cases process vms say c content now w h) [
      | inl failed ↦ inl failed
      | inr (r, q, res, look) ↦
          let same = with_reply-message r now (add_message user content now now c) in
          inr (
            r,
            q,
            res ∙ ap ok same,
            λ id.
                look id
                ∙ ap (λ d. if text_eq c.id id then some d else lookup id w.chats.chats) same,
          )
    ]
