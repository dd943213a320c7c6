-- ===== src/AgentMemory/Guards.antt =====
-- Which values the memory service of src/service/agent/memory.go accepts.
use spacetrek.Prelude.{
  ◌≡◌, ◌↔◌, ◌⊎◌, refl, arith, ℕ, ◌≤◌, inl, inr, true, Bool-cases, [], ◌∷◌, Text, codes, none, ltb,
  length, ℤ, pos, negsuc, byte_length, All,
}
use spacetrek.Exception.{ok, err, bad_request}
use spacetrek.AgentMemory.{
  Repo, is_key_char, all_key_chars, validate_memory_key, is_ttl, set, set_entry, expiry,
}

-- A lower-case letter, a digit, an underscore, a colon or a dash.
abbrev pub IsKeyChar : ℕ → Type 0
IsKeyChar c = ((97 ≤ c) × (c ≤ 122)) ⊎ ((48 ≤ c) × (c ≤ 57)) ⊎ (c ≡ 95) ⊎ (c ≡ 58) ⊎ (c ≡ 45)

abbrev pub IsKey : Text → Type 0
IsKey key = All IsKeyChar key × (1 ≤ length key) × (length key ≤ 64)

abbrev pub IsTtl : ℤ → Type 0
IsTtl (pos n) = n ≤ 86400
IsTtl (negsuc n) = ⊥

abbrev pub Accepts : Text → Text → ℤ → Type 0
Accepts key value ttl = IsKey key × (byte_length value ≤ 4096) × IsTtl ttl

is_key_char_iff : (c : ℕ) → (is_key_char c ≡ true) ↔ IsKeyChar c
unfolding is_key_char
is_key_char_iff c = ground arith

all_key_chars_iff : (key : Text) → (all_key_chars key ≡ true) ↔ All IsKeyChar key
unfolding all_key_chars
all_key_chars_iff [] = (λ h. tt, λ h. refl)
all_key_chars_iff (c ∷ cs) = elim (Bool-cases (is_key_char c)) [
  | inl e ↦ rw e (
    λ h. ((is_key_char_iff c).0 e, (all_key_chars_iff cs).0 h),
    λ h. (all_key_chars_iff cs).1 h.1,
  )
  | inr e ↦ rw e (λ h. absurd (cc), λ h. absurd (cc (e, (is_key_char_iff c).1 h.0)))
]

validate_memory_key_iff : (key : Text) → (validate_memory_key key ≡ true) ↔ IsKey key
unfolding validate_memory_key
validate_memory_key_iff key = ground (arith, all_key_chars_iff key)

is_ttl_iff : (ttl : ℤ) → (is_ttl ttl ≡ true) ↔ IsTtl ttl
is_ttl_iff (pos n) = ground arith
is_ttl_iff (negsuc n) = (λ h. cc, λ h. absurd h)

-- Set refuses what it does not accept with BadRequest, and accepts a key of 1 to 64 characters of
-- [a-z0-9_:-], a value of at most 4096 bytes and a time to live of 0 to 86400 seconds, whatever is
-- stored.
pub set-Accepts :
    (chat key value : Text) (ttl : ℤ) (now later : ℕ) (r : Repo)
    → ((r' : Repo) × (set chat key value ttl now later r ≡ ok r') × Accepts key value ttl)
      ⊎ ((why : Text) × (set chat key value ttl now later r ≡ err (bad_request why))
          × ¬ Accepts key value ttl)
unfolding set
set-Accepts chat key value ttl now later r = elim (Bool-cases (validate_memory_key key)) [
  | inr e ↦
      inr (codes "invalid memory key", rw e refl, λ a. cc (e, (validate_memory_key_iff key).1 a.0))
  | inl e ↦ elim (Bool-cases (ltb 4096 (byte_length value))) [
    | inl f ↦ inr (codes "memory value exceeds limit", rw (e, f) refl, λ a. ground (arith, a.1))
    | inr f ↦ elim (Bool-cases (is_ttl ttl)) [
      | inr g ↦ inr (
        codes "ttl_seconds must be between 0 and 86400",
        rw (e, f, g) refl,
        λ a. cc (g, (is_ttl_iff ttl).1 a.2),
      )
      | inl g ↦ inl (
        set_entry
            (record {
              chat_id = chat;
              key = key;
              value = value;
              expires_at = expiry ttl now;
              created_at = none;
              updated_at = none;
            })
            later r,
        rw (e, f, g) refl,
        ((validate_memory_key_iff key).0 e, ground arith, (is_ttl_iff ttl).0 g),
      )
    ]
  ]
]
