-- ===== src/Examples/Broadcasts.antt =====
-- Runs of the broadcasters.
use spacetrek.Prelude.{◌≡◌, refl, ℕ, ◌+◌, true, false, List, [], ◌∷◌, some, none}
use spacetrek.Broadcast.{
  State, Step, registers, greets, receives, stores, broadcasts, closes_all, new_state, step, run,
  broadcast, send,
}
use spacetrek.Broadcast.Delivery.{find, receives-broadcasts}
use spacetrek.Broadcast.Shutdown.{closes_all-greets}

-- The snapshots are numbers.
abbrev steps : List (Step ℕ)
steps = registers ∷ stores 5 ∷ broadcasts 5 ∷ []

abbrev one_subscriber : State ℕ
one_subscriber = record {
  next_id = 1;
  latest = some 5;
  channels = record { id = 1; buffer = some 5; is_closed = false; is_registered = true } ∷ [];
}

steps_run : run steps new_state ≡ some one_subscriber
unfolding run step broadcast send
steps_run = refl

found :
    find 1 one_subscriber.channels
    ≡ some (record { id = 1; buffer = some 5; is_closed = false; is_registered = true })
unfolding find
found = refl

receives-broadcasts_example :
    (t : State ℕ) × (run (receives 1 ∷ stores 6 ∷ broadcasts 6 ∷ []) one_subscriber ≡ some t)
    × (t.latest ≡ some 6)
    × (find 1 t.channels
        ≡ some (record { id = 1; buffer = some 6; is_closed = false; is_registered = true }))
receives-broadcasts_example =
    receives-broadcasts steps one_subscriber 1
      (record { id = 1; buffer = some 5; is_closed = false; is_registered = true }) 6 steps_run
      found refl

closes_all-greets_example : run (registers ∷ closes_all ∷ greets (1 + 1) ∷ []) one_subscriber ≡ none
closes_all-greets_example = closes_all-greets one_subscriber 5 refl
