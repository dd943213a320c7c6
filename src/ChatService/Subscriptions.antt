-- ===== src/ChatService/Subscriptions.antt =====
-- Subscriptions and the replay of buffered events: src/service/chat/service.go.
use spacetrek.Prelude.{
  ◌≡◌, ◌≤◌, ◌∙◌, refl, ap, ℕ, ◌+◌, arith, true, false, List, [], ◌∷◌, ◌++◌, none, some, Text,
  text_eq_refl, lookup, insert, lookup-insert, ◌==◌, if◌then◌else◌, All,
}
use spacetrek.Exception.{ok, err}
use spacetrek.Chats.{Chat}
use spacetrek.ChatRepo
use spacetrek.ChatService.{TimedEvent, Subscriber, World, entries_of, offer}
use spacetrek.ChatService.Calls.{
  subscribe, replay_to, replayed, replay, without, left, unsubscribe, is_among, is_subscribed,
}
use spacetrek.ChatService.Streams.{entries_of-insert}

abbrev pub new_subscriber : ℕ → Subscriber
new_subscriber id = record { id = id; queue = [] }

not_among : (n : ℕ) (is : List ℕ) → All (λ i. i ≤ n) is → is_among (n + 1) is ≡ false
unfolding is_among
not_among n [] h = refl
not_among n (i ∷ is) (hi, h) = ground (arith, not_among n is h)

replay_to_last :
    (n : ℕ) (e : TimedEvent) (ss : List Subscriber)
    → All (λ s. s.id ≤ n) ss
    → replay_to (n + 1) e (ss ++ new_subscriber (n + 1) ∷ [])
      ≡ ss ++ record { id = n + 1; queue = e ∷ [] } ∷ []
unfolding replay_to offer
replay_to_last n e [] h = ground arith
replay_to_last n e (s ∷ ss) (hs, h) =
    let other : (s.id == n + 1) ≡ false = ground arith in
    rw other (ap (◌∷◌ s) (replay_to_last n e ss h))

subscribed_last :
    (id : ℕ) (ss : List Subscriber) → is_subscribed id (ss ++ new_subscriber id ∷ []) ≡ true
unfolding is_subscribed
subscribed_last id [] = ground arith
subscribed_last id (s ∷ ss) = ground (arith, subscribed_last id ss)

replay-open :
    (chat : Text) (id : ℕ) (e : TimedEvent) (w : World) (ss : List Subscriber)
    → is_among id w.closed_channels ≡ false
    → lookup chat w.subscribers ≡ some ss
    → replay chat id e w ≡ some (replayed chat id e (some ss) w)
unfolding replay
replay-open chat id e w ss p q =
    ap (λ b. if b then none else some (replayed chat id e (lookup chat w.subscribers) w)) p
    ∙ ap (λ o. some (replayed chat id e o w)) q

replay-closed :
    (chat : Text) (id : ℕ) (e : TimedEvent) (w : World)
    → is_among id w.closed_channels ≡ true
    → replay chat id e w ≡ none
unfolding replay
replay-closed chat id e w p =
    ap (λ b. if b then none else some (replayed chat id e (lookup chat w.subscribers) w)) p

abbrev cut_off : Text → ℕ → List Subscriber → World → World
cut_off chat id ss w = record w {
  subscribers = left chat (without id ss) w.subscribers;
  closed_channels = if is_subscribed id ss then id ∷ w.closed_channels else w.closed_channels;
}

unsubscribe_found :
    (chat : Text) (id : ℕ) (w : World) (ss : List Subscriber)
    → lookup chat w.subscribers ≡ some ss
    → unsubscribe chat id w ≡ cut_off chat id ss w
unfolding unsubscribe
unsubscribe_found chat id w ss q = ap (λ o. elim o [ none ↦ w | some xs ↦ cut_off chat id xs w ]) q

unsubscribe-closes :
    (chat : Text) (id : ℕ) (w : World) (ss : List Subscriber)
    → lookup chat w.subscribers ≡ some ss
    → is_subscribed id ss ≡ true
    → is_among id (unsubscribe chat id w).closed_channels ≡ true
unfolding is_among
unsubscribe-closes chat id w ss q p =
    ap (λ x. is_among id x.closed_channels) (unsubscribe_found chat id w ss q)
    ∙ ap (λ b. is_among id (if b then id ∷ w.closed_channels else w.closed_channels)) p
    ∙ ground arith

-- The world after a subscription.
abbrev admitted : Text → World → World
admitted chat w =
    (let id = w.subscriber_n + 1 in
      record w {
        subscriber_n = id;
        subscribers =
            insert chat (entries_of chat w.subscribers ++ new_subscriber id ∷ []) w.subscribers;
      })

-- What a subscriber of a chat that there is meets in the replay of the buffer: right after the
-- subscription the event is put in its channel, behind nothing; but once its context has ended, and the
-- channel is closed, the replay panics. The ids that were given out before are at most the counter.
pub unsubscribe-replay :
    (chat : Text) (c : Chat) (e : TimedEvent) (w : World)
    → ChatRepo.get_by_id chat w.chats ≡ ok c
    → All (λ s. s.id ≤ w.subscriber_n) (entries_of chat w.subscribers)
    → All (λ i. i ≤ w.subscriber_n) w.closed_channels
    → ((subscribe chat w).1 ≡ ok (w.subscriber_n + 1))
      × ((v : World) × (replay chat (w.subscriber_n + 1) e (subscribe chat w).0 ≡ some v)
          × (entries_of chat v.subscribers
              ≡ entries_of chat w.subscribers
                ++ record { id = w.subscriber_n + 1; queue = e ∷ [] } ∷ []))
      × (replay chat
            (w.subscriber_n + 1)
            e
            (unsubscribe chat (w.subscriber_n + 1) (subscribe chat w).0)
          ≡ none)
unfolding subscribe
unsubscribe-replay chat c e w h ids closed =
    let n = w.subscriber_n in
    let old = entries_of chat w.subscribers in
    let w1 = admitted chat w in
    let run : subscribe chat w ≡ (w1, ok (n + 1)) =
      ap (λ o. elim o [ err x ↦ (w, err x) | ok d ↦ (w1, ok (n + 1)) ]) h in
    let new : List Subscriber = old ++ new_subscriber (n + 1) ∷ [] in
    let here : lookup chat w1.subscribers ≡ some new =
      lookup-insert chat chat new w.subscribers
      ∙ ap (λ b. if b then some new else lookup chat w.subscribers) (text_eq_refl chat) in
    let v = replayed chat (n + 1) e (some new) w1 in
    (
      ap (λ p. p.1) run,
      (
        v,
        ap (λ p. replay chat (n + 1) e p.0) run
            ∙ replay-open chat (n + 1) e w1 new (not_among n w.closed_channels closed) here,
        entries_of-insert chat (replay_to (n + 1) e new) w1.subscribers
            ∙ replay_to_last n e old ids,
      ),
      ap (λ p. replay chat (n + 1) e (unsubscribe chat (n + 1) p.0)) run
          ∙ replay-closed chat (n + 1) e (unsubscribe chat (n + 1) w1)
              (unsubscribe-closes chat (n + 1) w1 new here (subscribed_last (n + 1) old)),
    )
