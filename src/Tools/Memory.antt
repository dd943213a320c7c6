-- ===== src/Tools/Memory.antt =====
-- The memory tools: src/service/tool/memory.go, over the memory service. `chat` is the id that the
-- orchestrator puts in the context; `say` is the text of an error and `stamp` a time as text.
use spacetrek.Prelude.{
  ◌≡◌, refl, ℕ, Bool, true, false, Bool-cases, inl, inr, List, [], ◌∷◌, Option, none, some, Text,
  codes, text_eq_refl, pos, length, if◌then◌else◌,
}
use spacetrek.Exception.{AppError, Result, Result-cases, ok, err}
use spacetrek.AgentMemory.{MemoryEntry, Repo, set, get, delete, list}
use spacetrek.AgentMemory.Keys.{IsChatId}
use spacetrek.AgentMemory.Laws.{keeps, set-get}
use spacetrek.Tools.{
  text, number, boolean, array, Args, no_args, arg, object, Fields, no_fields, field, Call,
  ToolResult, failed, succeeded, read_string_arg, read_int_arg, missing,
}

module _ (say : AppError → Text) where
  abbrev no_chat : Call → Repo → ToolResult × Repo
  no_chat call r = (failed call (codes "chat_id not available in context"), r)

  abbrev pub was_set : Call → Text → Repo → Result Repo → ToolResult × Repo
  was_set call key r (err e) = (failed call (say e), r)
  was_set call key r (ok r') =
      (succeeded call ((codes "key", text key) ∷ (codes "stored", boolean true) ∷ []), r')

  abbrev set_value : Text → Call → ℕ → ℕ → Repo → Text → Option Text → ToolResult × Repo
  set_value chat call now later r key none = (failed call (missing (codes "value")), r)
  set_value chat call now later r key (some value) =
      was_set call key r
        (set chat key value (read_int_arg (codes "ttl_seconds") call.arguments) now later r)

  abbrev set_key : Text → Call → ℕ → ℕ → Repo → Option Text → ToolResult × Repo
  set_key chat call now later r none = (failed call (missing (codes "key")), r)
  set_key chat call now later r (some key) =
      set_value chat call now later r key (read_string_arg (codes "value") call.arguments)

  unfoldable pub memory_set : Option Text → Call → ℕ → ℕ → Repo → ToolResult × Repo
  memory_set none call now later r = no_chat call r
  memory_set (some chat) call now later r =
      set_key chat call now later r (read_string_arg (codes "key") call.arguments)

  abbrev pub was_got : Call → Text → Result (Text × Bool) → ToolResult
  was_got call key (err e) = failed call (say e)
  was_got call key (ok answer) = succeeded call (
      (codes "key", text key)
      ∷ (codes "value", text answer.0)
      ∷ (codes "found", boolean answer.1)
      ∷ [])

  abbrev get_key : Text → Call → ℕ → Repo → Option Text → ToolResult
  get_key chat call now r none = failed call (missing (codes "key"))
  get_key chat call now r (some key) = was_got call key (get chat key now r)

  unfoldable pub memory_get : Option Text → Call → ℕ → Repo → ToolResult
  memory_get none call now r = failed call (codes "chat_id not available in context")
  memory_get (some chat) call now r =
      get_key chat call now r (read_string_arg (codes "key") call.arguments)

  abbrev was_deleted : Call → Text → Repo → Result Repo → ToolResult × Repo
  was_deleted call key r (err e) = (failed call (say e), r)
  was_deleted call key r (ok r') =
      (succeeded call ((codes "key", text key) ∷ (codes "deleted", boolean true) ∷ []), r')

  abbrev delete_key : Text → Call → ℕ → Repo → Option Text → ToolResult × Repo
  delete_key chat call now r none = (failed call (missing (codes "key")), r)
  delete_key chat call now r (some key) = was_deleted call key r (delete chat key now r)

  unfoldable pub memory_delete : Option Text → Call → ℕ → Repo → ToolResult × Repo
  memory_delete none call now r = no_chat call r
  memory_delete (some chat) call now r =
      delete_key chat call now r (read_string_arg (codes "key") call.arguments)

module _ (stamp : ℕ → Text) where
  abbrev expires : Option ℕ → Fields
  expires none = no_fields
  expires (some t) = field (codes "expires_at") (text (stamp t)) no_fields

  unfoldable pub items : List MemoryEntry → Args
  items [] = no_args
  items (e ∷ es) =
      arg
        (object (
          field (codes "key") (text e.key)
            (field (codes "value") (text e.value) (expires e.expires_at))))
        (items es)

  unfoldable pub memory_list : Option Text → Call → ℕ → Repo → ToolResult
  unfolding items
  memory_list none call now r = failed call (codes "chat_id not available in context")
  memory_list (some chat) call now r =
      let entries = list chat now r in
      succeeded call (
        (codes "count", number (pos (length entries)))
        ∷ (codes "entries", array (items entries))
        ∷ [])

-- A value that memory.set reports as stored is what memory.get returns for that key in that chat, as
-- it was trimmed, while its time to live lasts; then, and not before, memory.get reports an empty
-- value that is not found. The chat's id has no NUL.
pub memory_set-memory_get :
    (say : AppError → Text) (chat key value : Text) (call ask : Call) (now later t : ℕ) (r : Repo)
    → IsChatId chat
    → read_string_arg (codes "key") call.arguments ≡ some key
    → read_string_arg (codes "value") call.arguments ≡ some value
    → read_string_arg (codes "key") ask.arguments ≡ some key
    → (memory_set say (some chat) call now later r).0.is_ok ≡ true
    → memory_get say (some chat) ask t (memory_set say (some chat) call now later r).1 ≡ (
        if keeps (read_int_arg (codes "ttl_seconds") call.arguments) now t
        then succeeded ask (
            (codes "key", text key)
            ∷ (codes "value", text value)
            ∷ (codes "found", boolean true)
            ∷ [])
        else succeeded ask (
            (codes "key", text key)
            ∷ (codes "value", text [])
            ∷ (codes "found", boolean false)
            ∷ []))
unfolding memory_set memory_get
memory_set-memory_get say chat key value call ask now later t r h k v a stored =
    let ttl = read_int_arg (codes "ttl_seconds") call.arguments in
    let kept : (was_set say call key r (set chat key value ttl now later r)).0.is_ok ≡ true =
      rw (k, v) at stored in
    rw (k, v, a)
      (elim (Result-cases (set chat key value ttl now later r)) [
        | inr (e, q) ↦ absurd (cc (rw q at kept))
        | inl (r', q) ↦
            let got = set-get chat chat key key h h value ttl now later t r r' q in
            rw (q, got, text_eq_refl chat, text_eq_refl key)
              (elim (Bool-cases (keeps ttl now t)) [
                | inl live ↦ rw live refl
                | inr over ↦ rw over refl
              ])
      ])
