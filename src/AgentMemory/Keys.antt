-- ===== src/AgentMemory/Keys.antt =====
-- The keys of the repository of src/repository/memory/agent_memory.go tell chats apart.
use spacetrek.Prelude.{
  ◌≡◌, ◌≢◌, refl, [], ◌∷◌, Text, All, ◌&&◌, text_eq, text_eq_iff, text_eq_refl, Bool-cases, inl,
  inr,
}
use spacetrek.AgentMemory.{memory_key}

-- The chat's id has no NUL, as no UUID has.
abbrev pub IsChatId : Text → Type 0
IsChatId = All (λ c. c ≢ 0)

memory_key-inj :
    (chat chat' key key' : Text)
    → IsChatId chat
    → IsChatId chat'
    → memory_key chat key ≡ memory_key chat' key'
    → (chat ≡ chat') × (key ≡ key')
unfolding memory_key
memory_key-inj [] [] key key' h h' e = (refl, cc)
memory_key-inj [] (d ∷ ds) key key' h (n, h') e = absurd (n (cc))
memory_key-inj (c ∷ cs) [] key key' (n, h) h' e = absurd (n (cc))
memory_key-inj (c ∷ cs) (d ∷ ds) key key' (n, h) (m, h') e =
    let (p, q) = memory_key-inj cs ds key key' h h' (cc) in (cc, q)

pub text_eq-memory_key :
    (chat chat' key key' : Text)
    → IsChatId chat
    → IsChatId chat'
    → text_eq (memory_key chat key) (memory_key chat' key')
      ≡ (text_eq chat chat' && text_eq key key')
text_eq-memory_key chat chat' key key' h h' =
    elim (Bool-cases (text_eq (memory_key chat key) (memory_key chat' key'))) [
      | inl e ↦
          let same = memory_key-inj chat chat' key key' h h' ((text_eq_iff _ _).0 e) in
          rw (e, same.0, same.1, text_eq_refl chat', text_eq_refl key') refl
      | inr e ↦ elim (Bool-cases (text_eq chat chat')) [
        | inr d ↦ rw (e, d) refl
        | inl c ↦ elim (Bool-cases (text_eq key key')) [
          | inr d ↦ rw (e, c, d) refl
          | inl d ↦
              let both : memory_key chat key ≡ memory_key chat' key' =
                rw ((text_eq_iff chat chat').0 c, (text_eq_iff key key').0 d) refl in
              absurd (cc (e, (text_eq_iff _ _).1 both))
        ]
      ]
    ]
