-- ===== src/Examples/Memory.antt =====
-- Runs of the agent's memory and of its tools.
use spacetrek.Prelude.{
  ◌≡◌, ◌⊎◌, refl, arith, true, false, ◌&&◌, [], ◌∷◌, some, Text, codes, text_eq, pos, if◌then◌else◌,
  insert, lookup, remove, byte_length, trim_space, trim_front, trim_back, keep_front, is_space,
}
use spacetrek.Exception.{AppError, ok, err, bad_request}
use spacetrek.AgentMemory.{
  MemoryEntry, Repo, new_repo, set, get, delete, set_entry, memory_key, live, delete_entry,
  is_expired, validate_memory_key, all_key_chars, is_key_char,
}
use spacetrek.AgentMemory.Laws.{keeps, set-get}
use spacetrek.AgentMemory.Guards.{Accepts, set-Accepts}
use spacetrek.AgentMemory.Keys.{IsChatId}
use spacetrek.Tools.{Call, text, number, read_string_arg, read_int_arg}
use spacetrek.Tools.Memory.{memory_set}

abbrev step : MemoryEntry
step = record {
  chat_id = codes "c1";
  key = codes "step";
  value = codes "2";
  expires_at = some 60000000000;
  created_at = some 1;
  updated_at = some 1;
}

abbrev one_entry : Repo
one_entry = record { entries = (99 ∷ 49 ∷ 0 ∷ codes "step", step) ∷ [] }

is_id : IsChatId (codes "c1")
is_id = ground arith

is_other_id : IsChatId (codes "c2")
is_other_id = ground arith

is_set : set (codes "c1") (codes "step") (codes "2") (pos 60) 0 1 new_repo ≡ ok one_entry
unfolding set set_entry memory_key validate_memory_key all_key_chars is_key_char insert text_eq
    byte_length
is_set = refl

set-get_example : get (codes "c1") (codes "step") 60000000001 one_entry ≡ (
    if text_eq (codes "c1") (codes "c1") && text_eq (codes "step") (codes "step")
    then (if keeps (pos 60) 0 60000000001 then ok (codes "2", true) else ok ([], false))
    else get (codes "c1") (codes "step") 60000000001 new_repo)
set-get_example =
    set-get (codes "c1") (codes "c1") (codes "step") (codes "step") is_id is_id (codes "2") (pos 60)
      0 1 60000000001 new_repo one_entry is_set

is_deleted : delete (codes "c1") (codes "step") 2 one_entry ≡ ok new_repo
unfolding delete delete_entry live memory_key is_expired lookup remove text_eq
is_deleted = refl

set-Accepts_example :
    ((r' : Repo) × (set (codes "c1") (codes "Step") (codes "2") (pos 60) 0 1 new_repo ≡ ok r')
      × Accepts (codes "Step") (codes "2") (pos 60))
    ⊎ ((why : Text) × (set (codes "c1") (codes "Step") (codes "2") (pos 60) 0 1 new_repo
          ≡ err (bad_request why))
        × ¬ Accepts (codes "Step") (codes "2") (pos 60))
set-Accepts_example = set-Accepts (codes "c1") (codes "Step") (codes "2") (pos 60) 0 1 new_repo

abbrev say : AppError → Text
say e = codes "error"

abbrev store : Call
store = record {
  id = codes "1";
  name = codes "memory.set";
  arguments =
      (codes "key", text (codes "step"))
      ∷ (codes "value", text (codes "2"))
      ∷ (codes "ttl_seconds", number (pos 60))
      ∷ [];
}

abbrev ask : Call
ask = record {
  id = codes "2";
  name = codes "memory.get";
  arguments = (codes "key", text (codes "step")) ∷ [];
}

key_read : read_string_arg (codes "key") store.arguments ≡ some (codes "step")
unfolding read_string_arg lookup text_eq trim_space trim_front trim_back keep_front is_space
key_read = refl

value_read : read_string_arg (codes "value") store.arguments ≡ some (codes "2")
unfolding read_string_arg lookup text_eq trim_space trim_front trim_back keep_front is_space
value_read = refl

key_asked : read_string_arg (codes "key") ask.arguments ≡ some (codes "step")
unfolding read_string_arg lookup text_eq trim_space trim_front trim_back keep_front is_space
key_asked = refl

is_stored : (memory_set say (some (codes "c1")) store 0 1 new_repo).0.is_ok ≡ true
unfolding memory_set read_string_arg read_int_arg lookup text_eq trim_space trim_front trim_back
    keep_front is_space set validate_memory_key all_key_chars is_key_char byte_length
is_stored = refl
