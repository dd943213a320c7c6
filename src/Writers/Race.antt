-- ===== src/Writers/Race.antt =====
-- Two calls of Refresh of src/service/vm/hostswriter/writer.go that run at the same time: the lock is
-- held for the test and for the update of the hash, and not while the file is written.
use mathlib.Core.Path.{◌≡◌, refl}
use spacetrek.Prelude.{
  ◌≢◌, suc, Bool-cases, some, Text, text_eq, text_eq_iff, text_eq_refl, inl, inr, if◌then◌else◌,
}
use spacetrek.Exception.{ok}
use spacetrek.Writers.{Writer, rewrite}

-- Where a call stands, with the content that it has rendered.
pub data Call : Type 0 where
  rendered : Text → Call
  writing : Text → Call
  wrote : Text → Call
  returned : Call

pub record State : Type 0 where
  pub writer : Writer
  pub first : Call
  pub second : Call

module _ (hash : Text → Text) where
  -- The lock's first section: `if hash == w.lastHash { return nil }`.
  abbrev test : Text → Writer → Call
  test c w = if text_eq (hash c) w.last_hash then returned else writing c

  -- A step of one call, and what it does to the writer.
  pub data Step (c : Call) (w : Writer) (d : Call) (v : Writer) : Type 0 where
    tests : (t : Text) → c ≡ rendered t → d ≡ test t w → v ≡ w → Step c w d v
    writes :
        (t : Text) → c ≡ writing t → d ≡ wrote t → v ≡ record w { file = some t } → Step c w d v
    updates :
        (t : Text)
        → c ≡ wrote t
        → d ≡ returned
        → v ≡ record w { last_hash = hash t; reloads = suc w.reloads }
        → Step c w d v

  pub data Move (s t : State) : Type 0 where
    one : t.second ≡ s.second → Step s.first s.writer t.first t.writer → Move s t
    two : t.first ≡ s.first → Step s.second s.writer t.second t.writer → Move s t

  pub data Reach (t : State) : State → Type 0 where
    done : Reach t t
    more : {s : State} (u : State) → Move s u → Reach t u → Reach t s

  test_open : (t : Text) (w : Writer) → hash t ≢ w.last_hash → writing t ≡ test t w
  test_open t w n = elim (Bool-cases (text_eq (hash t) w.last_hash)) [
    | inl e ↦ absurd (n ((text_eq_iff (hash t) w.last_hash).0 e))
    | inr e ↦ rw e refl
  ]

  -- Two overlapping calls can leave a stale file for good. From any writer, where one call has rendered
  -- `old`, another one `new`, and neither has the hash that the writer holds, they can run to their
  -- ends so that the file holds `old`, and every later call that renders `new` finds nothing to do.
  pub rewrite_stale :
      (w : Writer) (old new : Text)
      → hash old ≢ w.last_hash
      → hash new ≢ w.last_hash
      → (t : State) × Reach t (record { writer = w; first = rendered old; second = rendered new })
        × (t.first ≡ returned)
        × (t.second ≡ returned)
        × (t.writer.file ≡ some old)
        × (rewrite hash new (ok tt) t.writer ≡ (ok tt, t.writer))
  unfolding rewrite
  rewrite_stale w old new m n =
      let w1 : Writer = record w { file = some new } in
      let w2 : Writer = record w { file = some old } in
      let w3 : Writer = record w2 { last_hash = hash old; reloads = suc w.reloads } in
      let w4 : Writer = record w2 { last_hash = hash new; reloads = suc (suc w.reloads) } in
      let s1 : State = record { writer = w; first = writing old; second = rendered new } in
      let s2 : State = record { writer = w; first = writing old; second = writing new } in
      let s3 : State = record { writer = w1; first = writing old; second = wrote new } in
      let s4 : State = record { writer = w2; first = wrote old; second = wrote new } in
      let s5 : State = record { writer = w3; first = returned; second = wrote new } in
      let s6 : State = record { writer = w4; first = returned; second = returned } in
      (
        s6,
        more s1 (one refl (tests old refl (test_open old w m) refl)) (
            more s2 (two refl (tests new refl (test_open new w n) refl)) (
              more s3 (two refl (writes new refl refl refl)) (
                more s4 (one refl (writes old refl refl refl)) (
                  more s5 (one refl (updates old refl refl refl))
                    (more s6 (two refl (updates new refl refl refl)) done))))),
        refl,
        refl,
        refl,
        rw (text_eq_refl (hash new)) refl,
      )
