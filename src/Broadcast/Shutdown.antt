-- ===== src/Broadcast/Shutdown.antt =====
-- A subscription that the shutdown of src/service/vm/fleetbroadcaster/broadcaster.go overtakes.
use spacetrek.Prelude.{
  ◌≡◌, ◌∙◌, refl, ap, ℕ, ◌+◌, Bool-cases, inl, inr, arith, true, false, List, [], ◌∷◌, ◌++◌,
  Option-cases, none, some, ◌==◌,
}
use spacetrek.Broadcast.{
  Channel, State, registers, greets, closes_all, send, close_all, drop_channel, greet, greeted,
  with_channels, step, run,
}

module _ {A : Type 0} where
  close_all-append :
      (cs ds : List (Channel A)) → close_all (cs ++ ds) ≡ close_all cs ++ close_all ds
  unfolding close_all
  close_all-append [] ds = refl
  close_all-append (c ∷ cs) ds = ap (◌∷◌ (drop_channel c)) (close_all-append cs ds)

  greet-closed :
      (x : A) (i : ℕ) (cs : List (Channel A)) (c : Channel A)
      → (c.id == i) ≡ true
      → c.is_closed ≡ true
      → greet x i (cs ++ c ∷ []) ≡ none
  unfolding greet
  greet-closed x i [] c e h = simp (e, h) refl
  greet-closed x i (d ∷ ds) c e h = elim (Bool-cases (d.id == i)) [
    | inr q ↦ simp (q, greet-closed x i ds c e h) refl
    | inl q ↦ elim (Option-cases (send x d)) [
      | inl p ↦ simp (q, p) refl
      | inr (b, p) ↦ simp (q, p, greet-closed x i ds c e h) refl
    ]
  ]

  greets_none :
      (s : State A) (i : ℕ) (x : A)
      → s.latest ≡ some x
      → greet x i s.channels ≡ none
      → run (greets i ∷ []) s ≡ none
  unfolding run step
  greets_none s i x l g =
      ap (λ o. elim o [ none ↦ none | some t ↦ run [] t ])
        (ap (greeted s i) l ∙ ap (with_channels s) g)

  -- Whenever a snapshot is stored, a Subscribe panics if the broadcaster is shut down between its
  -- registration and its first send: that send is on a closed channel.
  pub closes_all-greets :
      (s : State A) (x : A)
      → s.latest ≡ some x
      → run (registers ∷ closes_all ∷ greets (s.next_id + 1) ∷ []) s ≡ none
  unfolding run step
  closes_all-greets s x l =
      let i = s.next_id + 1 in
      let fresh : Channel A = record {
        id = i;
        buffer = none;
        is_closed = false;
        is_registered = true;
      } in
      let refused : greet x i (close_all (s.channels ++ fresh ∷ [])) ≡ none =
        rw (close_all-append s.channels (fresh ∷ []))
          (greet-closed x i (close_all s.channels) (drop_channel fresh) (ground arith) refl) in
      greets_none (record s { next_id = i; channels = close_all (s.channels ++ fresh ∷ []) }) i x l
        refused
