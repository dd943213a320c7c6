-- ===== src/Broadcast.antt =====
-- The broadcasters of snapshots to subscribers: src/service/vm/fleetbroadcaster/broadcaster.go (of all
-- VMs) and src/service/vm/activitybroadcaster/broadcaster.go (of recent runtime events), which are the
-- same code for two types. What a lock spans is one step; Subscribe is two, the registration and the
-- first send, and a tick that has listed is two, the store and the broadcast.
pub mod Delivery
pub mod Shutdown
use spacetrek.Prelude.{
  ℕ, suc, ◌+◌, Bool, true, false, List, [], ◌∷◌, ◌++◌, Option, none, some, ◌==◌, if◌then◌else◌,
}

-- A channel of capacity 1, and whether the registry has it.
pub record Channel (A : Type 0) : Type 0 where
  pub id : ℕ
  pub buffer : Option A
  pub is_closed : Bool
  pub is_registered : Bool

-- The channels that were ever made, also those that the registry has dropped.
pub record State (A : Type 0) : Type 0 where
  pub next_id : ℕ
  pub latest : Option A
  pub channels : List (Channel A)

pub data Step (A : Type 0) : Type 0 where
  registers : Step A
  greets unsubscribes receives : ℕ → Step A
  stores broadcasts : A → Step A
  closes_all : Step A

module _ {A : Type 0} where
  abbrev pub new_state : State A
  new_state = record { next_id = 0; latest = none; channels = [] }

  -- `select { case ch <- x: default: }`, none where it panics.
  unfoldable pub send : A → Channel A → Option (Channel A)
  send x c =
      if c.is_closed
      then none
      else some (elim c.buffer [ none ↦ record c { buffer = some x } | some old ↦ c ])

  abbrev pub cons : Channel A → Option (List (Channel A)) → Option (List (Channel A))
  cons c none = none
  cons c (some cs) = some (c ∷ cs)

  abbrev send_on : Option (Channel A) → Option (List (Channel A)) → Option (List (Channel A))
  send_on none rest = none
  send_on (some c) rest = cons c rest

  unfoldable pub broadcast : A → List (Channel A) → Option (List (Channel A))
  unfolding send
  broadcast x [] = some []
  broadcast x (c ∷ cs) =
      let rest = broadcast x cs in if c.is_registered then send_on (send x c) rest else cons c rest

  -- `if c, ok := b.subscribers[id]; ok { delete(b.subscribers, id); close(c) }`
  abbrev pub drop_channel : Channel A → Channel A
  drop_channel c =
      if c.is_registered then record c { is_closed = true; is_registered = false } else c

  unfoldable pub close_all : List (Channel A) → List (Channel A)
  close_all [] = []
  close_all (c ∷ cs) = drop_channel c ∷ close_all cs

  -- The channel with the id, changed.
  unfoldable pub change : (Channel A → Channel A) → ℕ → List (Channel A) → List (Channel A)
  change f i [] = []
  change f i (c ∷ cs) = let rest = change f i cs in (if c.id == i then f c else c) ∷ rest

  abbrev pub drain : Channel A → Channel A
  drain c = record c { buffer = none }

  unfoldable pub greet : A → ℕ → List (Channel A) → Option (List (Channel A))
  unfolding send
  greet x i [] = some []
  greet x i (c ∷ cs) =
      let rest = greet x i cs in if c.id == i then send_on (send x c) rest else cons c rest

  abbrev pub with_channels : State A → Option (List (Channel A)) → Option (State A)
  with_channels s none = none
  with_channels s (some cs) = some (record s { channels = cs })

  abbrev pub greeted : State A → ℕ → Option A → Option (State A)
  greeted s i none = some s
  greeted s i (some x) = with_channels s (greet x i s.channels)

  -- None where the program panics.
  unfoldable pub step : Step A → State A → Option (State A)
  unfolding greet change broadcast close_all
  step registers s =
      let fresh : Channel A = record {
        id = s.next_id + 1;
        buffer = none;
        is_closed = false;
        is_registered = true;
      } in
      some (record s { next_id = s.next_id + 1; channels = s.channels ++ fresh ∷ [] })
  step (greets i) s = greeted s i s.latest
  step (unsubscribes i) s = some (record s { channels = change drop_channel i s.channels })
  step (receives i) s = some (record s { channels = change drain i s.channels })
  step (stores x) s = some (record s { latest = some x })
  step (broadcasts x) s = with_channels s (broadcast x s.channels)
  step closes_all s = some (record s { channels = close_all s.channels })

  unfoldable pub run : List (Step A) → State A → Option (State A)
  unfolding step
  run [] s = some s
  run (e ∷ es) s = elim (step e s) [ none ↦ none | some t ↦ run es t ]
