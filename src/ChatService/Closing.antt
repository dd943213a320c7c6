-- ===== src/ChatService/Closing.antt =====
-- A chat that was closed takes no message: src/service/chat/service.go.
use spacetrek.Prelude.{
  ◌≢◌, ◌≡◌, ◌∙◌, refl, sym, ap, subst, ℕ, Bool, Bool-cases, inl, inr, true, List, Option, some,
  Text, codes, text_eq_refl, lookup, insert, lookup-insert, if◌then◌else◌,
}
use spacetrek.Exception.{AppError, ok, err, bad_request, or_err, Outcome, ◌>>=◌}
use spacetrek.Chats.{
  add_message_with_metadata, content_type_for_role, Chat, closed, is_closed, user, add_message,
}
use spacetrek.ChatRepo
use spacetrek.ChatRepo.{chat_missing}
use spacetrek.ChatService.{
  Reply, answered, emit_all, with_reply, World, Orchestrator, open_chat, turn, send_message, accept,
  stored,
}
use spacetrek.ChatService.Calls.{close, closed_chat}
use spacetrek.ChatService.Turns.{update_found, emit_all-chats, IsOpen, asked}

-- Both kinds of message are refused, and change nothing.
abbrev pub Refuses : Text → World → Type 0
Refuses id w =
    (orchestrator : Option Orchestrator) (vms : Text → List Text) (say : AppError → Text)
    (content : Text) (now : ℕ)
    → (send_message orchestrator vms say id content now w
        ≡ (w, err (bad_request (codes "chat is already closed"))))
      × (accept orchestrator vms say id content now w
          ≡ (w, err (bad_request (codes "chat is already closed"))))

Refuses-closed :
    (id : Text) (c : Chat) (w : World)
    → lookup id w.chats.chats ≡ some c
    → is_closed c.status ≡ true
    → Refuses id w
unfolding send_message accept open_chat ChatRepo.get_by_id
Refuses-closed id c w h q orchestrator vms say content now =
    let refused : open_chat id w ≡ err (bad_request (codes "chat is already closed")) =
      ap
        (λ o. or_err o (chat_missing id) >>= λ d.
          if is_closed d.status then err (bad_request (codes "chat is already closed")) else ok d)
        h
      ∙ ap (λ b. if b then err (bad_request (codes "chat is already closed")) else ok c) q in
    (
      ap
          (λ o. elim o [
            | err e ↦ (w, err e)
            | ok d ↦ turn orchestrator vms say id content now (add_message user content now now d) w
          ])
          refused,
      ap
          (λ o. elim o [
            | err e ↦ (w, err e)
            | ok d ↦
                let c1 = add_message user content now now d in
                stored w c1 (ChatRepo.update c1 w.chats)
          ])
          refused,
    )

-- The call succeeded, and in its world the chat is stored closed.
abbrev IsSettled : Text → World × Outcome → Type 0
IsSettled id p =
    (p.1 ≡ ok tt)
    × ((d : Chat) × (lookup id p.0.chats.chats ≡ some d) × (is_closed d.status ≡ true))

closed_chat-IsSettled :
    (c : Chat) (now : ℕ) (w : World)
    → lookup c.id w.chats.chats ≡ some c
    → IsSettled c.id (closed_chat c now w)
closed_chat-IsSettled c now w h =
    let d = record c { status = closed; updated_at = now } in
    let w2 : World = record w { chats = record { chats = insert d.id d w.chats.chats } } in
    let run : closed_chat c now w ≡ (w2, ok tt) =
      ap (λ u. elim u [ err e ↦ (w, err e) | ok r ↦ (record w { chats = r }, ok tt) ])
        (update_found c d w.chats h) in
    let found : lookup c.id w2.chats.chats ≡ some d =
      lookup-insert c.id c.id d w.chats.chats
      ∙ ap (λ b. if b then some d else lookup c.id w.chats.chats) (text_eq_refl c.id) in
    subst (λ p. IsSettled c.id p) (sym run) (refl, (d, found, refl))

close-IsSettled :
    (c : Chat) (now : ℕ) (w : World)
    → lookup c.id w.chats.chats ≡ some c
    → IsSettled c.id (close c.id now w)
unfolding close ChatRepo.get_by_id
close-IsSettled c now w h =
    let by_status : (b : Bool)
        → is_closed c.status ≡ b
        → IsSettled c.id (if b then (w, ok tt) else closed_chat c now w) =
      λ b q. elim (Bool-cases b) [
        | inl e ↦ rw e (refl, (c, h, q ∙ e))
        | inr e ↦ rw e (closed_chat-IsSettled c now w h)
      ] in
    let run : close c.id now w ≡ (if is_closed c.status then (w, ok tt) else closed_chat c now w) =
      ap
        (λ o. elim (or_err o (chat_missing c.id)) [
          | err e ↦ (w, err e)
          | ok d ↦ if is_closed d.status then (w, ok tt) else closed_chat d now w
        ])
        h in
    subst (λ p. IsSettled c.id p) (sym run) (by_status (is_closed c.status) refl)

-- The close of a chat that there is succeeds, whether it is closed or not. In every world that stores
-- the chat as the close has left it, both kinds of message are refused and change nothing.
pub close-Refuses :
    (c : Chat) (now : ℕ) (w v : World)
    → lookup c.id w.chats.chats ≡ some c
    → lookup c.id v.chats.chats ≡ lookup c.id (close c.id now w).0.chats.chats
    → ((close c.id now w).1 ≡ ok tt) × Refuses c.id v
close-Refuses c now w v h same =
    let (done, (d, found, q)) = close-IsSettled c now w h in
    (done, Refuses-closed c.id d v (same ∙ found) q)

-- A message that has read an open chat before the close, and whose orchestrator answers after it,
-- writes back what it has read: the chat is open again.
pub turn_reopens :
    (process : Orchestrator) (vms : Text → List Text) (say : AppError → Text) (c : Chat)
    (content : Text) (now later : ℕ) (w : World) (r : Reply)
    → IsOpen c w
    → (process (asked vms c content later)).1 ≡ ok r
    → (d : Chat) × (lookup c.id
          (turn
            (some process)
            vms
            say
            c.id
            content
            later
            (add_message user content later later c)
            (close c.id now w).0).0.chats.chats
        ≡ some d)
      × (d.status ≢ closed)
unfolding add_message add_message_with_metadata content_type_for_role with_reply
turn_reopens process vms say c content now later w r h answers =
    let w1 = (close c.id now w).0 in
    let c1 = add_message user content later later c in
    let c2 = with_reply r later c1 in
    let events = (process (asked vms c content later)).0 in
    let w2 = emit_all c.id later events w1 in
    let same = emit_all-chats c.id later events w1 in
    let (done, (d, found, q)) = close-IsSettled c now w h.is_stored in
    let run : turn (some process) vms say c.id content later c1 w1
        ≡ (record w2 { chats = record { chats = insert c.id c2 w2.chats.chats } }, ok c2) =
      ap (answered (some process) vms say c.id later c1 w2) answers
      ∙ ap (stored w2 c2)
          (update_found d c2 w2.chats (ap (λ x. lookup c.id x.chats) same ∙ found)) in
    (
      c2,
      ap (λ p. lookup c.id p.0.chats.chats) run
          ∙ lookup-insert c.id c.id c2 w2.chats.chats
          ∙ ap (λ b. if b then some c2 else lookup c.id w2.chats.chats) (text_eq_refl c.id),
      h.is_open,
    )
