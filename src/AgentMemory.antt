-- ===== src/AgentMemory.antt =====
-- The memory of a chat's agent: src/core/domain/agent/memory.go, the in-memory repository
-- src/repository/memory/agent_memory.go and the service src/service/agent/memory.go over it. A zero
-- time is none. A text is the list of its runes; of an error's text the constant part is kept.
pub mod Keys
pub mod Laws
pub mod Guards
use spacetrek.Prelude.{
  ◌≡◌, refl, ℕ, ◌+◌, ◌*◌, ◌<◌, ◌&&◌, ◌||◌, not, Bool, true, false, List, [], ◌∷◌, ◌++◌, Option,
  none, some, Text, codes, text_eq, text_lt, Dict, lookup, insert, remove, values, select, sort_by,
  ltb, leb, ◌==◌, if◌then◌else◌, length, ℤ, pos, negsuc, byte_length,
}
use spacetrek.Exception.{AppError, not_found, bad_request, Result, ok, err, or_err, ◌>>=◌}

pub record MemoryEntry : Type 0 where
  pub chat_id : Text
  pub key : Text
  pub value : Text
  pub expires_at : Option ℕ
  pub created_at : Option ℕ
  pub updated_at : Option ℕ

pub record Repo : Type 0 where
  pub entries : Dict MemoryEntry

abbrev pub new_repo : Repo
new_repo = record { entries = [] }

-- `chatID + "\x00" + key`
unfoldable pub memory_key : Text → Text → Text
memory_key chat key = chat ++ 0 ∷ key

unfoldable pub is_expired : ℕ → MemoryEntry → Bool
is_expired now e = elim e.expires_at [ none ↦ false | some t ↦ ltb t now ]

abbrev or_now : Option ℕ → ℕ → ℕ
or_now none now = now
or_now (some t) now = t

unfoldable pub set_entry : MemoryEntry → ℕ → Repo → Repo
unfolding memory_key
set_entry e now r =
    let cp : MemoryEntry = record e {
      created_at = some (or_now e.created_at now);
      updated_at = some now;
    } in
    record { entries = insert (memory_key e.chat_id e.key) cp r.entries }

-- The entry, unless it has expired.
abbrev pub fresh : ℕ → Option MemoryEntry → Option MemoryEntry
fresh now none = none
fresh now (some e) = if is_expired now e then none else some e

-- The entry that is stored and has not expired.
unfoldable pub live : Text → Text → ℕ → Repo → Option MemoryEntry
unfolding memory_key
live chat key now r = fresh now (lookup (memory_key chat key) r.entries)

abbrev pub absent : Text → AppError
absent key = not_found (codes "agent_memory") key

unfoldable pub get_entry : Text → Text → ℕ → Repo → Result MemoryEntry
unfolding live
get_entry chat key now r = or_err (live chat key now r) (absent key)

unfoldable pub delete_entry : Text → Text → ℕ → Repo → Result Repo
unfolding live memory_key
delete_entry chat key now r = or_err (live chat key now r) (absent key) >>= λ e.
    ok (record { entries = remove (memory_key chat key) r.entries })

abbrev pub by_key : MemoryEntry → MemoryEntry → Bool
by_key a b = text_lt a.key b.key

abbrev pub is_listed : Text → ℕ → MemoryEntry → Bool
is_listed chat now e = text_eq e.chat_id chat && not (is_expired now e)

unfoldable pub list_entries : Text → ℕ → Repo → List MemoryEntry
unfolding is_expired
list_entries chat now r = sort_by by_key (select (is_listed chat now) (values r.entries))

abbrev pub memory_max_value_bytes : ℕ
memory_max_value_bytes = 4096

abbrev pub memory_max_ttl_seconds : ℕ
memory_max_ttl_seconds = 86400

-- `[a-z0-9_:-]`
unfoldable pub is_key_char : ℕ → Bool
is_key_char c =
    (leb b'a' c && leb c b'z') || (leb b'0' c && leb c b'9') || c == b'_' || c == b':' || c == b'-'

unfoldable pub all_key_chars : Text → Bool
unfolding is_key_char
all_key_chars [] = true
all_key_chars (c ∷ cs) = is_key_char c && all_key_chars cs

-- `^[a-z0-9_:-]{1,64}$`
unfoldable pub validate_memory_key : Text → Bool
unfolding all_key_chars
validate_memory_key key = all_key_chars key && ltb 0 (length key) && leb (length key) 64

-- `ttl < 0 || ttl > most`
abbrev pub is_ttl : ℤ → Bool
is_ttl (pos n) = leb n memory_max_ttl_seconds
is_ttl (negsuc n) = false

-- When an entry that is set at `now` expires, in nanoseconds.
abbrev pub expiry : ℤ → ℕ → Option ℕ
expiry (pos n) now = if ltb 0 n then some (now + n * 1000000000) else none
expiry (negsuc n) now = none

-- The clock is read at `now` for the expiry and at `later` in the repository.
unfoldable pub set : Text → Text → Text → ℤ → ℕ → ℕ → Repo → Result Repo
unfolding validate_memory_key set_entry
set chat key value ttl now later r =
    if not (validate_memory_key key)
    then err (bad_request (codes "invalid memory key"))
    else if ltb memory_max_value_bytes (byte_length value)
    then err (bad_request (codes "memory value exceeds limit"))
    else if not (is_ttl ttl)
    then err (bad_request (codes "ttl_seconds must be between 0 and 86400"))
    else ok (
        set_entry
          (record {
            chat_id = chat;
            key = key;
            value = value;
            expires_at = expiry ttl now;
            created_at = none;
            updated_at = none;
          })
          later r)

abbrev found : Result MemoryEntry → Result (Text × Bool)
found (ok e) = ok (e.value, true)
found (err (not_found resource id)) = ok ([], false)
found (err e) = err e

unfoldable pub get : Text → Text → ℕ → Repo → Result (Text × Bool)
unfolding get_entry
get chat key now r = found (get_entry chat key now r)

unfoldable pub delete : Text → Text → ℕ → Repo → Result Repo
unfolding delete_entry
delete chat key now r = delete_entry chat key now r

unfoldable pub list : Text → ℕ → Repo → List MemoryEntry
unfolding list_entries
list chat now r = list_entries chat now r
