-- ===== src/Chats.antt =====
-- The chat entity: src/core/domain/chat/chat.go. A value of type any in a message's metadata is
-- its JSON text; a nil map and an empty one are the same.
use spacetrek.Prelude.{ℕ, Bool, true, false, List, [], ◌∷◌, ◌++◌, Text, Dict}

pub data Status : Type 0 where
  active idle closed : Status

pub data Role : Type 0 where
  user assistant system : Role

pub data ContentType : Type 0 where
  text image : ContentType

unfoldable pub content_type_for_role : Role → ContentType
content_type_for_role r = text

pub record Message : Type 0 where
  pub role : Role
  pub content : Text
  pub content_type : ContentType
  pub metadata : Dict Text
  pub at : ℕ

pub record Chat : Type 0 where
  pub id : Text
  pub agent_id : Text
  pub user_id : Text
  pub title : Text
  pub vm_id : Text
  pub status : Status
  pub messages : List Message
  pub created_at : ℕ
  pub updated_at : ℕ

pub record CreateParams : Type 0 where
  pub agent_id : Text
  pub user_id : Text
  pub agent_name : Text
  pub model : Text
  pub system_prompt : Text
  pub title : Text

-- `id` is the generated UUID.
unfoldable pub new : Text → ℕ → CreateParams → Chat
new id now p = record {
  id = id;
  agent_id = p.agent_id;
  user_id = p.user_id;
  title = p.title;
  vm_id = [];
  status = active;
  messages = [];
  created_at = now;
  updated_at = now;
}

-- The clock is read twice, at `now` and at `later`.
unfoldable pub add_message_with_metadata : Role → Text → Dict Text → ℕ → ℕ → Chat → Chat
unfolding content_type_for_role
add_message_with_metadata role content metadata now later c = record c {
  messages =
      c.messages
      ++ record {
        role = role;
        content = content;
        content_type = content_type_for_role role;
        metadata = metadata;
        at = now;
      }
        ∷ [];
  updated_at = later;
}

unfoldable pub add_message : Role → Text → ℕ → ℕ → Chat → Chat
unfolding add_message_with_metadata
add_message role content now later c = add_message_with_metadata role content [] now later c

abbrev pub is_closed : Status → Bool
is_closed closed = true
is_closed _ = false
