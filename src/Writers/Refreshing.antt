-- ===== src/Writers/Refreshing.antt =====
-- What Refresh of src/service/vm/hostswriter/writer.go keeps, call after call.
use spacetrek.Prelude.{
  ◌≡◌, ◌≢◌, ◌⊎◌, refl, sym, ap, ◌∙◌, inl, inr, Bool-cases, List, [], ◌∷◌, none, some, Text, text_eq,
  text_eq_iff, All,
}
use spacetrek.Exception.{Result, Result-cases, Outcome, ok, err}
use spacetrek.Vm.{Vm}
use spacetrek.Writers.{Writer, rewrite}
use spacetrek.Writers.Hosts.{render, refresh}

-- What a call of Refresh meets: what List answers, and what writing the file answers.
abbrev pub Call : Type 0
Call = Result (List Vm) × Outcome

abbrev pub new_writer : Writer
new_writer = record { last_hash = []; file = none; reloads = 0 }

module _ (hash : Text → Text) where
  unfoldable pub run : Writer → List Call → Writer
  run w [] = w
  run w (c ∷ cs) = run (refresh hash c.0 c.1 w).1 cs

  -- Content that does not collide with `target`.
  abbrev pub IsApart : Text → Text → Type 0
  IsApart target content = hash content ≡ hash target → content ≡ target

  -- What a call lists does not collide with `target`.
  abbrev pub IsApartCall : Text → Call → Type 0
  IsApartCall target (err e, write) = Unit
  IsApartCall target (ok vms, write) = IsApart target (render vms)

  -- The hash is that of the file, which does not collide with `target`, or there is none of either.
  abbrev pub IsTracked : Text → Writer → Type 0
  IsTracked target w =
      ((w.last_hash ≡ []) × (w.file ≡ none))
      ⊎ ((content : Text) × (w.file ≡ some content)
          × (w.last_hash ≡ hash content)
          × IsApart target content)

  rewrite-IsTracked :
      (target content : Text) (write : Outcome) (w : Writer)
      → IsTracked target w
      → IsApart target content
      → IsTracked target (rewrite hash content write w).1
  unfolding rewrite
  rewrite-IsTracked target content write w h apart =
      elim (Bool-cases (text_eq (hash content) w.last_hash)) [
        | inl e ↦ rw e h
        | inr e ↦ rw e (elim (Result-cases write) [
          | inl (u, q) ↦ rw q (inr (content, refl, refl, apart))
          | inr (why, q) ↦ rw q h
        ])
      ]

  refresh-IsTracked :
      (target : Text) (listed : Result (List Vm)) (write : Outcome) (w : Writer)
      → IsTracked target w
      → IsApartCall target (listed, write)
      → IsTracked target (refresh hash listed write w).1
  unfolding refresh
  refresh-IsTracked target (err e) write w h apart = h
  refresh-IsTracked target (ok vms) write w h apart =
      rewrite-IsTracked target (render vms) write w h apart

  run-IsTracked :
      (target : Text) (w : Writer) (cs : List Call)
      → IsTracked target w
      → All (IsApartCall target) cs
      → IsTracked target (run w cs)
  unfolding run
  run-IsTracked target w [] h apart = h
  run-IsTracked target w ((listed, write) ∷ cs) h (first, apart) =
      run-IsTracked target (refresh hash listed write w).1 cs
        (refresh-IsTracked target listed write w h first) apart

  rewrite_current :
      (content : Text) (write : Outcome) (w : Writer)
      → IsTracked content w
      → hash content ≢ []
      → (rewrite hash content write w).0 ≡ ok tt
      → (rewrite hash content write w).1.file ≡ some content
  unfolding rewrite
  rewrite_current content write w h nonempty done =
      elim (Bool-cases (text_eq (hash content) w.last_hash)) [
        | inl e ↦
            let same = (text_eq_iff (hash content) w.last_hash).0 e in
            rw e (elim h [
              | inl (empty, q) ↦ absurd (nonempty (same ∙ empty))
              | inr (c, f, q, apart) ↦ f ∙ ap some (apart (sym q ∙ sym same))
            ])
        | inr e ↦ elim (Result-cases write) [
          | inl (u, q) ↦ rw (e, q) refl
          | inr (why, q) ↦ absurd (cc (rw (e, q) at done))
        ]
      ]

  -- Whatever calls of Refresh came before, failed ones included: a call that lists VMs and reports no
  -- error leaves in the file what these are rendered to, be it written now or left from before. The
  -- hash of that content is not empty, and none of the contents of the calls before has the same hash
  -- and is another.
  pub refresh-current :
      (before : List Call) (vms : List Vm) (write : Outcome)
      → hash (render vms) ≢ []
      → All (IsApartCall (render vms)) before
      → (refresh hash (ok vms) write (run new_writer before)).0 ≡ ok tt
      → (refresh hash (ok vms) write (run new_writer before)).1.file ≡ some (render vms)
  unfolding refresh
  refresh-current before vms write nonempty apart done =
      rewrite_current (render vms) write (run new_writer before)
        (run-IsTracked (render vms) new_writer before (inl (refl, refl)) apart) nonempty done
