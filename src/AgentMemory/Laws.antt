-- ===== src/AgentMemory/Laws.antt =====
-- What the memory service of src/service/agent/memory.go promises to its callers.
use spacetrek.Prelude.{
  ◌≡◌, ◌∙◌, refl, ap, sym, arith, ℕ, inl, inr, not, ◌&&◌, Bool, true, false, Bool-cases,
  Option-cases, [], Option, none, some, Text, text_eq, remove, lookup, remove, insert,
  lookup-insert, lookup-remove, ltb, leb, if◌then◌else◌, ℤ, pos, negsuc, zero, suc, ◌+◌, ◌*◌,
}
use spacetrek.Exception.{Result, ok}
use spacetrek.AgentMemory.{
  MemoryEntry, Repo, memory_key, is_expired, set_entry, live, get_entry, delete_entry, expiry, set,
  get, delete, fresh,
}
use spacetrek.AgentMemory.Keys.{IsChatId, text_eq-memory_key}

-- Whether an entry with this expiry is still there at a time.
abbrev pub lives : Option ℕ → ℕ → Bool
lives none t = true
lives (some x) t = not (ltb x t)

set-ok :
    (chat key value : Text) (ttl : ℤ) (now later : ℕ) (r r' : Repo)
    → set chat key value ttl now later r ≡ ok r'
    → set_entry
        (record {
          chat_id = chat;
          key = key;
          value = value;
          expires_at = expiry ttl now;
          created_at = none;
          updated_at = none;
        })
        later
        r
      ≡ r'
unfolding set
set-ok chat key value ttl now later r r' h = ground arith

-- What is set at `now` with a time to live in seconds is there at a time `t` in nanoseconds: always
-- where the seconds are 0, and else up to the end of that many seconds.
abbrev pub keeps : ℤ → ℕ → ℕ → Bool
keeps (pos zero) now t = true
keeps (pos (suc n)) now t = leb t (now + suc n * 1000000000)
keeps (negsuc n) now t = true

lives-keeps : (ttl : ℤ) (now t : ℕ) → lives (expiry ttl now) t ≡ keeps ttl now t
lives-keeps (pos zero) now t = refl
lives-keeps (pos (suc n)) now t = ground arith
lives-keeps (negsuc n) now t = refl

abbrev answer : Option MemoryEntry → Result (Text × Bool)
answer none = ok ([], false)
answer (some e) = ok (e.value, true)

get-live : (chat key : Text) (t : ℕ) (r : Repo) → get chat key t r ≡ answer (live chat key t r)
unfolding get get_entry
get-live chat key t r = elim (Option-cases (live chat key t r)) [
  | inl e ↦ rw e refl
  | inr (x, e) ↦ rw e refl
]

-- What Get answers for an entry.
answer_stored :
    (x : Option ℕ) (t : ℕ) (e : MemoryEntry)
    → e.expires_at ≡ x
    → answer (if is_expired t e then none else some e)
      ≡ (if lives x t then ok (e.value, true) else ok ([], false))
unfolding is_expired
answer_stored none t e q = rw q refl
answer_stored (some x) t e q =
    rw q (elim (Bool-cases (ltb x t)) [ inl s ↦ rw s refl | inr s ↦ rw s refl ])

repo_is : {r r' : Repo} → ok r ≡ ok r' → r ≡ r'
repo_is e = cc

module _ (chat chat' key key' : Text) (h : IsChatId chat) (h' : IsChatId chat') where
  live-insert :
      (t : ℕ) (e : MemoryEntry) (r : Repo)
      → live chat' key' t (record { entries = insert (memory_key chat key) e r.entries }) ≡ (
          if text_eq chat chat' && text_eq key key'
          then (if is_expired t e then none else some e)
          else live chat' key' t r)
  unfolding live
  live-insert t e r =
      ap (fresh t) (
        lookup-insert (memory_key chat key) (memory_key chat' key') e r.entries
        ∙ ap (λ b. if b then some e else lookup (memory_key chat' key') r.entries)
            (text_eq-memory_key chat chat' key key' h h'))
      ∙ elim (Bool-cases (text_eq chat chat' && text_eq key key')) [
        | inl s ↦ rw s refl
        | inr s ↦ rw s refl
      ]

  live-remove :
      (t : ℕ) (r : Repo)
      → live chat' key' t (record { entries = remove (memory_key chat key) r.entries })
        ≡ (if text_eq chat chat' && text_eq key key' then none else live chat' key' t r)
  unfolding live
  live-remove t r =
      ap (fresh t) (
        lookup-remove (memory_key chat key) (memory_key chat' key') r.entries
        ∙ ap (λ b. if b then none else lookup (memory_key chat' key') r.entries)
            (text_eq-memory_key chat chat' key key' h h'))
      ∙ elim (Bool-cases (text_eq chat chat' && text_eq key key')) [
        | inl s ↦ rw s refl
        | inr s ↦ rw s refl
      ]

  -- After Set has stored a value, Get finds it under the same chat and key, for as many seconds as the
  -- time to live says and always where it is 0, and then does not find it. Under any other chat or key Get answers
  -- as before. The chats' ids have no NUL.
  pub set-get :
      (value : Text) (ttl : ℤ) (now later t : ℕ) (r r' : Repo)
      → set chat key value ttl now later r ≡ ok r'
      → get chat' key' t r' ≡ (
          if text_eq chat chat' && text_eq key key'
          then (if keeps ttl now t then ok (value, true) else ok ([], false))
          else get chat' key' t r)
  unfolding set_entry
  set-get value ttl now later t r r' e =
      let stored = set-ok chat key value ttl now later r r' e in
      rw (← stored) (
        get-live chat' key' t _
        ∙ ap answer (live-insert t _ r)
        ∙ elim (Bool-cases (text_eq chat chat' && text_eq key key')) [
          | inl s ↦ rw s (
              answer_stored (expiry ttl now) t _ refl
              ∙ ap (λ b. if b then ok (value, true) else ok ([], false)) (lives-keeps ttl now t))
          | inr s ↦ rw s (sym (get-live chat' key' t r))
        ])

  -- After Delete, Get does not find the key in that chat; under any other chat or key it answers as
  -- before. The chats' ids have no NUL.
  pub delete-get :
      (now t : ℕ) (r r' : Repo)
      → delete chat key now r ≡ ok r'
      → get chat' key' t r'
        ≡ (if text_eq chat chat' && text_eq key key' then ok ([], false) else get chat' key' t r)
  unfolding delete delete_entry
  delete-get now t r r' e = elim (Option-cases (live chat key now r)) [
    | inl q ↦ absurd (cc (rw q at e))
    | inr (x, q) ↦ rw (← repo_is (rw q at e)) (
        get-live chat' key' t _
        ∙ ap answer (live-remove t r)
        ∙ elim (Bool-cases (text_eq chat chat' && text_eq key key')) [
          | inl s ↦ rw s refl
          | inr s ↦ rw s (sym (get-live chat' key' t r))
        ])
  ]
