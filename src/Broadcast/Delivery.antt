-- ===== src/Broadcast/Delivery.antt =====
-- What the broadcasters deliver.
use spacetrek.Prelude.{
  ◌≡◌, ◌∙◌, refl, ap, ℕ, Bool-cases, inl, inr, arith, true, false, List, [], ◌∷◌, map, Option,
  Option-cases, none, some, ◌==◌, if◌then◌else◌, All, All-append,
}
use spacetrek.Broadcast.{
  Channel, State, Step, registers, greets, unsubscribes, receives, stores, broadcasts, closes_all,
  new_state, send, cons, broadcast, close_all, change, drop_channel, drain, greet, greeted,
  with_channels, step, run,
}

module _ {A : Type 0} where
  -- The registry has no closed channel.
  abbrev pub IsOpen : Channel A → Type 0
  IsOpen c = c.is_registered ≡ true → c.is_closed ≡ false

  -- A subscriber that has taken what it was sent gets the snapshot, another one keeps the older one.
  abbrev pub deliver : A → Channel A → Channel A
  deliver x c =
      if c.is_registered
      then elim c.buffer [ none ↦ record c { buffer = some x } | some old ↦ c ]
      else c

  send-IsOpen : (x : A) (c d : Channel A) → IsOpen c → send x c ≡ some d → IsOpen d
  unfolding send
  send-IsOpen x c d h e = ground arith

  change-IsOpen :
      (f : Channel A → Channel A) (i : ℕ) (cs : List (Channel A))
      → ((c : Channel A) → IsOpen c → IsOpen (f c))
      → All IsOpen cs
      → All IsOpen (change f i cs)
  unfolding change
  change-IsOpen f i [] k h = tt
  change-IsOpen f i (c ∷ cs) k (hc, h) = elim (Bool-cases (c.id == i)) [
    | inl e ↦ rw e (k c hc, change-IsOpen f i cs k h)
    | inr e ↦ rw e (hc, change-IsOpen f i cs k h)
  ]

  drop_channel-IsOpen : (c : Channel A) → IsOpen c → IsOpen (drop_channel c)
  drop_channel-IsOpen c h = elim (Bool-cases c.is_registered) [
    | inl e ↦ rw e (λ q. absurd (cc q))
    | inr e ↦ rw e (λ q. absurd (cc q))
  ]

  close_all-IsOpen : (cs : List (Channel A)) → All IsOpen cs → All IsOpen (close_all cs)
  unfolding close_all
  close_all-IsOpen [] h = tt
  close_all-IsOpen (c ∷ cs) (hc, h) = (drop_channel-IsOpen c hc, close_all-IsOpen cs h)

  broadcast-deliver :
      (x : A) (cs : List (Channel A)) → All IsOpen cs → broadcast x cs ≡ some (map (deliver x) cs)
  unfolding broadcast send
  broadcast-deliver x [] h = refl
  broadcast-deliver x (c ∷ cs) (hc, h) = elim (Bool-cases c.is_registered) [
    | inl e ↦ rw (e, hc e, broadcast-deliver x cs h) refl
    | inr e ↦ rw (e, broadcast-deliver x cs h) refl
  ]

  deliver-IsOpen : (x : A) (cs : List (Channel A)) → All IsOpen cs → All IsOpen (map (deliver x) cs)
  deliver-IsOpen x [] h = tt
  deliver-IsOpen x (c ∷ cs) (hc, h) = (ground arith, deliver-IsOpen x cs h)

  -- Of the channels or of a state, where there was no panic.
  abbrev Held : Option (List (Channel A)) → Type 0
  Held none = Unit
  Held (some cs) = All IsOpen cs

  abbrev pub IsSafe : Option (State A) → Type 0
  IsSafe none = Unit
  IsSafe (some s) = All IsOpen s.channels

  cons-Held : (c : Channel A) (o : Option (List (Channel A))) → IsOpen c → Held o → Held (cons c o)
  cons-Held c none hc h = tt
  cons-Held c (some cs) hc h = (hc, h)

  greet-Held : (x : A) (i : ℕ) (cs : List (Channel A)) → All IsOpen cs → Held (greet x i cs)
  unfolding greet
  greet-Held x i [] h = tt
  greet-Held x i (c ∷ cs) (hc, h) = elim (Bool-cases (c.id == i)) [
    | inr e ↦ rw e (cons-Held c (greet x i cs) hc (greet-Held x i cs h))
    | inl e ↦ elim (Option-cases (send x c)) [
      | inl q ↦ rw (e, q) tt
      | inr (d, q) ↦
          rw (e, q) (cons-Held d (greet x i cs) (send-IsOpen x c d hc q) (greet-Held x i cs h))
    ]
  ]

  with_channels-IsSafe :
      (s : State A) (o : Option (List (Channel A))) → Held o → IsSafe (with_channels s o)
  with_channels-IsSafe s none h = tt
  with_channels-IsSafe s (some cs) h = h

  greeted-IsSafe :
      (s : State A) (i : ℕ) (o : Option A) → All IsOpen s.channels → IsSafe (greeted s i o)
  greeted-IsSafe s i none h = h
  greeted-IsSafe s i (some x) h =
      with_channels-IsSafe s (greet x i s.channels) (greet-Held x i s.channels h)

  step-IsSafe : (e : Step A) (s : State A) → All IsOpen s.channels → IsSafe (step e s)
  unfolding step
  step-IsSafe registers s h = All-append IsOpen s.channels _ h ((λ q. refl), tt)
  step-IsSafe (greets i) s h = greeted-IsSafe s i s.latest h
  step-IsSafe (unsubscribes i) s h = change-IsOpen drop_channel i s.channels drop_channel-IsOpen h
  step-IsSafe (receives i) s h = change-IsOpen drain i s.channels (λ c k. k) h
  step-IsSafe (stores x) s h = h
  step-IsSafe (broadcasts x) s h =
      rw (broadcast-deliver x s.channels h) (deliver-IsOpen x s.channels h)
  step-IsSafe closes_all s h = close_all-IsOpen s.channels h

  run-IsSafe : (es : List (Step A)) (s : State A) → All IsOpen s.channels → IsSafe (run es s)
  unfolding run
  run-IsSafe [] s h = h
  run-IsSafe (e ∷ es) s h = elim (Option-cases (step e s)) [
    | inl q ↦ rw (q, IsSafe) tt
    | inr (t, q) ↦ rw (q, IsSafe) (run-IsSafe es t (rw q at (step-IsSafe e s h)))
  ]

  -- After any steps that did not panic, a broadcast does not either: each registered channel that is
  -- empty gets the snapshot, one that is not keeps what it holds, and all others stay as they are.
  pub broadcasts-deliver :
      (es : List (Step A)) (s : State A) (x : A)
      → run es new_state ≡ some s
      → step (broadcasts x) s ≡ some (record s { channels = map (deliver x) s.channels })
  unfolding step
  broadcasts-deliver es s x q =
      rw (broadcast-deliver x s.channels (rw q at (run-IsSafe es new_state tt))) refl

  -- The channel with an id.
  unfoldable pub find : ℕ → List (Channel A) → Option (Channel A)
  find i [] = none
  find i (c ∷ cs) = if c.id == i then some c else find i cs

  find-drain :
      (i : ℕ) (cs : List (Channel A)) (c : Channel A)
      → find i cs ≡ some c
      → find i (change drain i cs) ≡ some (drain c)
  unfolding find change
  find-drain i [] c q = absurd (cc q)
  find-drain i (d ∷ ds) c q = elim (Bool-cases (d.id == i)) [
    | inl e ↦ simp e (ap (λ o. elim o [ none ↦ none | some k ↦ some (drain k) ]) (simp e at q))
    | inr e ↦ simp e (find-drain i ds c (simp e at q))
  ]

  deliver-id : (x : A) (d : Channel A) → (deliver x d).id ≡ d.id
  deliver-id x d = ground arith

  find-deliver :
      (x : A) (i : ℕ) (cs : List (Channel A)) (c : Channel A)
      → find i cs ≡ some c
      → find i (map (deliver x) cs) ≡ some (deliver x c)
  unfolding find
  find-deliver x i [] c q = absurd (cc q)
  find-deliver x i (d ∷ ds) c q = elim (Bool-cases (d.id == i)) [
    | inl e ↦
        simp (deliver-id x d, e)
          (ap (λ o. elim o [ none ↦ none | some k ↦ some (deliver x k) ]) (simp e at q))
    | inr e ↦ simp (deliver-id x d, e) (find-deliver x i ds c (simp e at q))
  ]

  -- After any steps that did not panic, a subscriber of the registry that takes what its channel holds
  -- gets the snapshot of the next tick, whatever the other subscribers do with theirs.
  pub receives-broadcasts :
      (es : List (Step A)) (s : State A) (i : ℕ) (c : Channel A) (x : A)
      → run es new_state ≡ some s
      → find i s.channels ≡ some c
      → c.is_registered ≡ true
      → (t : State A) × (run (receives i ∷ stores x ∷ broadcasts x ∷ []) s ≡ some t)
        × (t.latest ≡ some x)
        × (find i t.channels ≡ some (record c { buffer = some x }))
  unfolding run step
  receives-broadcasts es s i c x q f r =
      let open_channels : All IsOpen s.channels = rw q at (run-IsSafe es new_state tt) in
      let drained = change-IsOpen drain i s.channels (λ d k. k) open_channels in
      (
        record s { latest = some x; channels = map (deliver x) (change drain i s.channels) },
        rw (broadcast-deliver x (change drain i s.channels) drained, run) refl,
        refl,
        find-deliver x i (change drain i s.channels) (drain c) (find-drain i s.channels c f)
            ∙ simp r refl,
      )
