-- ===== src/Tools.antt =====
-- The tools' calls and results, and how they read arguments: src/core/domain/tool/tool.go and the
-- readers of src/service/tool/vm_command.go. A text is the list of its runes.
pub mod Trimmed
pub mod Files
pub mod Memory
pub mod Vms
pub mod Plan
pub mod Create
pub mod Arguments
pub mod Creation
use spacetrek.Exception.{AppError}
use spacetrek.Prelude.{
  Bool, true, false, List, [], ◌∷◌, ◌++◌, pos, Option, none, some, Text, codes, is_empty, Dict,
  lookup, ℤ, if◌then◌else◌, trim_space,
}

-- A JSON value as an `any`. A number is a float64 by its integral part, as `int(v)` gives it.
mutual
  pub data Arg : Type 0 where
    null : Arg
    text : Text → Arg
    number : ℤ → Arg
    boolean : Bool → Arg
    array : Args → Arg
    object : Fields → Arg

  pub data Args : Type 0 where
    no_args : Args
    arg : Arg → Args → Args

  pub data Fields : Type 0 where
    no_fields : Fields
    field : Text → Arg → Fields → Fields

pub record Call : Type 0 where
  pub id : Text
  pub name : Text
  pub arguments : Dict Arg

-- The payload, where it is a map.
pub record ToolResult : Type 0 where
  pub tool_call_id : Text
  pub tool_name : Text
  pub is_ok : Bool
  pub payload : Option (Dict Arg)
  pub error : Text

abbrev pub failed : Call → Text → ToolResult
failed call why = record {
  tool_call_id = call.id;
  tool_name = call.name;
  is_ok = false;
  payload = none;
  error = why;
}

abbrev pub succeeded : Call → Dict Arg → ToolResult
succeeded call payload = record {
  tool_call_id = call.id;
  tool_name = call.name;
  is_ok = true;
  payload = some payload;
  error = [];
}

-- `value.(string)`
abbrev pub as_text : Option Arg → Option Text
as_text (some (text t)) = some t
as_text _ = none

-- The text, unless it is empty.
abbrev pub nonempty : Text → Option Text
nonempty [] = none
nonempty (c ∷ cs) = some (c ∷ cs)

abbrev pub trimmed : Option Text → Option Text
trimmed none = none
trimmed (some t) = nonempty (trim_space t)

unfoldable pub read_string_arg : Text → Dict Arg → Option Text
read_string_arg key args = trimmed (as_text (lookup key args))

abbrev pub as_int : Option Arg → ℤ
as_int (some (number n)) = n
as_int _ = pos 0

-- The first result of readIntArg, which is 0 where there is no number.
unfoldable pub read_int_arg : Text → Dict Arg → ℤ
read_int_arg key args = as_int (lookup key args)

abbrev pub as_bool : Option Arg → Bool
as_bool (some (boolean b)) = b
as_bool _ = false

-- The first result of readBoolArg, which is false where there is no Boolean.
unfoldable pub read_bool_arg : Text → Dict Arg → Bool
read_bool_arg key args = as_bool (lookup key args)

abbrev pub missing : Text → Text
missing name = codes "missing required argument " ++ name
