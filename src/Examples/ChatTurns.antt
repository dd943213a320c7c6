-- ===== src/Examples/ChatTurns.antt =====
-- A turn of the chat of src/service/chat/service.go with one event, and a subscription.
use spacetrek.Prelude.{
  ◌≤◌, ◌+◌, inl, ◌≡◌, ◌⊎◌, refl, arith, List, [], ◌∷◌, ◌++◌, map, none, some, Text, codes, lookup,
  text_eq, if◌then◌else◌, All,
}
use spacetrek.Exception.{AppError, ok, err}
use spacetrek.Chats.{Chat, active}
use spacetrek.ChatRepo
use spacetrek.Agents
use spacetrek.EventRepo
use spacetrek.React.{text_event, thinking}
use spacetrek.ChatService.{
  TimedEvent, World, Reply, Orchestrator, send_message, background, entries_of,
}
use spacetrek.ChatService.Calls.{close, subscribe, unsubscribe, replay}
use spacetrek.ChatService.Turns.{
  IsOpen, asked, answered_chat, with_message, reply_of, send_message_lem,
}
use spacetrek.ChatService.Queues.{Fits}
use spacetrek.ChatService.Background.{
  asked_for, sent_as, failure, completion, IsHeard, background_lem,
}
use spacetrek.ChatService.Closing.{Refuses, close-Refuses}
use spacetrek.ChatService.Subscriptions.{unsubscribe-replay}
use spacetrek.Prelude.{Distinct, false}
use spacetrek.Exception.{not_found}
use spacetrek.Vm.{running, idle}
use spacetrek.Vm.State.{is_active}
use spacetrek.ChatService.Available.{AvailableVm, is_seen, describe, unseen, collect_available_vms}
use spacetrek.ChatService.Choices.{
  pick_first, has_id, offers_id, by_id, own_vm, leased_before, carded, collect_available_vms_lem,
}
use spacetrek.Examples.Repos.{box}

abbrev talk : Chat
talk = record {
  id = codes "c1";
  agent_id = codes "a";
  user_id = codes "u";
  title = [];
  vm_id = [];
  status = active;
  messages = [];
  created_at = 5;
  updated_at = 5;
}

abbrev world : World
world = record {
  chats = record { chats = (codes "c1", talk) ∷ [] };
  agents = Agents.new_repo;
  events = EventRepo.new_repo;
  event_bufs = [];
  subscribers = (codes "c1", record { id = 1; queue = [] } ∷ []) ∷ [];
  subscriber_n = 1;
  closed_channels = [];
}

-- It thinks aloud and answers what it was told.
abbrev echo : Orchestrator
echo i = (
  record { event = text_event thinking [] 1 (codes "..."); at = none } ∷ [],
  ok (record { assistant_message = i.message; metadata = []; usage = none }),
)

abbrev no_vms : Text → List Text
no_vms id = []

abbrev say : AppError → Text
say e = codes "error"

stored : lookup talk.id world.chats.chats ≡ some talk
unfolding lookup text_eq
stored = refl

is_open : IsOpen talk world
is_open = record { is_stored = stored; is_open = λ h. absurd (cc h) }

fits : All Fits (entries_of talk.id world.subscribers)
unfolding lookup text_eq
fits = (omega arith, tt)

send_message_lem_example :
    ((e : AppError) × ((echo (asked no_vms talk (codes "hi") 9)).1 ≡ err e)
      × ((send_message (some echo) no_vms say talk.id (codes "hi") 9 world).1 ≡ err e)
      × ((send_message (some echo) no_vms say talk.id (codes "hi") 9 world).0.chats ≡ world.chats))
    ⊎ ((r : Reply) × ((echo (asked no_vms talk (codes "hi") 9)).1 ≡ ok r)
        × ((send_message (some echo) no_vms say talk.id (codes "hi") 9 world).1
            ≡ ok (answered_chat talk (codes "hi") r 9))
        × ((id : Text)
            → lookup id
                (send_message (some echo) no_vms say talk.id (codes "hi") 9 world).0.chats.chats
              ≡ (if text_eq talk.id id
                  then some (answered_chat talk (codes "hi") r 9)
                  else lookup id world.chats.chats)))
send_message_lem_example = send_message_lem echo no_vms say talk (codes "hi") 9 world is_open

abbrev thought : List TimedEvent
thought = record { event = text_event thinking [] 1 (codes "..."); at = none } ∷ []

abbrev after : World
after = background (some echo) no_vms say talk.id (codes "hi") 9 talk world

background_lem_example :
    ((e : AppError) × ((echo (asked_for no_vms talk.id talk (codes "hi"))).1 ≡ err e)
      × (after.chats ≡ world.chats)
      × IsHeard talk.id 9 thought
          (failure talk.id (say e) 9)
          ((entries_of talk.id world.event_bufs ++ map (sent_as talk.id 9) thought)
            ++ failure talk.id (say e) 9 ∷ [])
          world
          after)
    ⊎ ((r : Reply) × ((echo (asked_for no_vms talk.id talk (codes "hi"))).1 ≡ ok r)
        × ((id : Text)
            → lookup id after.chats.chats ≡ (
                if text_eq talk.id id
                then some (with_message (reply_of r 9) 9 talk)
                else lookup id world.chats.chats))
        × IsHeard talk.id 9 thought (completion talk.id r 9) [] world after)
background_lem_example =
    background_lem echo no_vms say talk talk (codes "hi") 9 world stored fits
      ((inl refl, λ h. absurd (cc h)), tt)

close-Refuses_example :
    ((close talk.id 9 world).1 ≡ ok tt) × Refuses talk.id (close talk.id 9 world).0
close-Refuses_example = close-Refuses talk 9 world (close talk.id 9 world).0 stored refl

abbrev moment : TimedEvent
moment = record { event = text_event thinking talk.id 1 (codes "..."); at = some 9 }

found : ChatRepo.get_by_id talk.id world.chats ≡ ok talk
unfolding ChatRepo.get_by_id lookup text_eq
found = refl

known : All (λ s. s.id ≤ 1) (entries_of talk.id world.subscribers)
unfolding lookup text_eq
known = (omega arith, tt)

unsubscribe-replay_example :
    ((subscribe talk.id world).1 ≡ ok (1 + 1))
    × ((v : World) × (replay talk.id (1 + 1) moment (subscribe talk.id world).0 ≡ some v)
        × (entries_of talk.id v.subscribers
            ≡ entries_of talk.id world.subscribers
              ++ record { id = 1 + 1; queue = moment ∷ [] } ∷ []))
    × (replay talk.id (1 + 1) moment (unsubscribe talk.id (1 + 1) (subscribe talk.id world).0)
        ≡ none)
unsubscribe-replay_example = unsubscribe-replay talk.id talk moment world found known tt

-- The active VM is also one of the previous leases.
abbrev offered : List AvailableVm
offered =
    collect_available_vms (λ id. err (not_found (codes "environment") id)) (λ id. false)
      (ok (record box { status = running }))
      (ok (record box { status = running } ∷ record box { id = codes "vm-2" } ∷ []))

two_offered :
    map by_id offered
    ≡ map by_id (
        record {
          vm_id = codes "vm-1";
          environment = [];
          env_description = [];
          status = running;
          has_snapshot = false;
        }
        ∷ record {
          vm_id = codes "vm-2";
          environment = [];
          env_description = [];
          status = idle;
          has_snapshot = false;
        }
        ∷ [])
unfolding collect_available_vms unseen is_seen describe is_active text_eq
two_offered = refl

collect_available_vms_lem_example :
    Distinct (map by_id offered)
    × ((id : Text)
        → pick_first (offers_id id) offered
          ≡ carded
              (λ i. err (not_found (codes "environment") i))
              (λ i. false)
              (pick_first (has_id id) (
                own_vm (ok (record box { status = running }))
                ++ leased_before (
                    ok (record box { status = running } ∷ record box { id = codes "vm-2" } ∷ [])))))
collect_available_vms_lem_example =
    collect_available_vms_lem (λ id. err (not_found (codes "environment") id)) (λ id. false)
      (ok (record box { status = running }))
      (ok (record box { status = running } ∷ record box { id = codes "vm-2" } ∷ []))
