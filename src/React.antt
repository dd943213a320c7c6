-- ===== src/React.antt =====
-- The ReAct orchestrator: src/service/orchestrator/service.go, with its registry, its state store and
-- the types of src/core/ports/llm.go, src/core/domain/tool/tool.go and
-- src/core/domain/orchestrator. Times and the trace's id are left out, and so are thought signatures.
-- Planner, tools and JSON encoding are arguments: the planner is a function of the request (no two
-- requests of a loop are the same), a tool also of the step at which it runs.
pub mod Turn
pub mod Process
pub mod Steps
pub mod Policy
pub mod Rule
use spacetrek.Prelude.{
  ℕ, zero, suc, ◌+◌, Bool, true, false, not, ◌&&◌, List, [], ◌∷◌, ◌++◌, Option, none, some, Text,
  codes, is_empty, Dict, lookup, insert, ℤ, is_positive, if◌then◌else◌, ltb, ◌==◌,
}
use spacetrek.Exception.{Result, Outcome}

-- A value of type `any`: a string, or another one by its encoding.
pub data Value : Type 0 where
  text other : Text → Value

pub record ToolPlanStep : Type 0 where
  pub name : Text
  pub arguments : Dict Value

-- The payload, where it is a map.
pub record ToolResult : Type 0 where
  pub tool_call_id : Text
  pub tool_name : Text
  pub is_ok : Bool
  pub payload : Option (Dict Value)
  pub error : Text

pub record TokenUsage : Type 0 where
  pub prompt_tokens : ℕ
  pub completion_tokens : ℕ
  pub total_tokens : ℕ
  pub cached_tokens : ℕ
  pub thoughts_tokens : ℕ
  pub tool_use_prompt_tokens : ℕ

abbrev pub no_usage : TokenUsage
no_usage = record {
  prompt_tokens = 0;
  completion_tokens = 0;
  total_tokens = 0;
  cached_tokens = 0;
  thoughts_tokens = 0;
  tool_use_prompt_tokens = 0;
}

unfoldable pub add_usage : TokenUsage → TokenUsage → TokenUsage
add_usage u v = record {
  prompt_tokens = u.prompt_tokens + v.prompt_tokens;
  completion_tokens = u.completion_tokens + v.completion_tokens;
  total_tokens = u.total_tokens + v.total_tokens;
  cached_tokens = u.cached_tokens + v.cached_tokens;
  thoughts_tokens = u.thoughts_tokens + v.thoughts_tokens;
  tool_use_prompt_tokens = u.tool_use_prompt_tokens + v.tool_use_prompt_tokens;
}

unfoldable pub is_zero_usage : TokenUsage → Bool
is_zero_usage u =
    (u.prompt_tokens == 0)
    && (u.completion_tokens == 0)
    && (u.total_tokens == 0)
    && (u.cached_tokens == 0)
    && (u.thoughts_tokens == 0)
    && (u.tool_use_prompt_tokens == 0)

pub data EventKind : Type 0 where
  token thinking answer tool_call plan error_event done_event title_event : EventKind

pub data Metadata : Type 0 where
  no_metadata : Metadata
  of_tool : Text → Dict Value → Metadata
  of_plan : Option Value → Option Value → Metadata

pub record RuntimeEvent : Type 0 where
  pub kind : EventKind
  pub chat_id : Text
  pub step : ℕ
  pub data_text : Text
  pub command : Text
  pub result : Text
  pub error : Text
  pub token_usage : Option TokenUsage
  pub metadata : Metadata

-- An event with nothing but a text.
abbrev pub text_event : EventKind → Text → ℕ → Text → RuntimeEvent
text_event kind chat step s = record {
  kind = kind;
  chat_id = chat;
  step = step;
  data_text = s;
  command = [];
  result = [];
  error = [];
  token_usage = none;
  metadata = no_metadata;
}

-- The metadata of a planner without them is empty.
pub record PlanMetadata : Type 0 where
  pub reasoning : Text
  pub thinking_text : Text
  pub answer_text : Text
  pub usage : TokenUsage

pub record TraceStep : Type 0 where
  pub step : ℕ
  pub reasoning : Text
  pub tool_name : Text
  pub tool_arguments : Dict Value
  pub observation : Text
  pub tool_success : Bool
  pub tool_error : Text

-- The VMs by their ids; agent, user and history, which only a planner reads, are left out.
pub record ProcessInput : Type 0 where
  pub chat_id : Text
  pub message : Text
  pub available_vms : List Text
  pub environment_hint : Text

pub record PlanRequest : Type 0 where
  pub input : ProcessInput
  pub hint : Text
  pub prior_turns : List (ToolPlanStep × ToolResult)

pub record FinalResponseRequest : Type 0 where
  pub input : ProcessInput
  pub hint : Text
  pub steps : List ToolPlanStep
  pub tool_results : List ToolResult

-- A tool: its result, and the error that it returns beside it.
abbrev pub Tool : Type 0
Tool = ℕ → ToolPlanStep → ToolResult × Option Text

-- `map[string]struct{}`
abbrev pub Names : Type 0
Names = Dict {0} Unit

pub record Config : Type 0 where
  pub allowed_tools : Names
  pub tool_timeout : ℤ
  pub max_react_steps : ℤ

unfoldable pub allow : List Text → Names → Names
allow [] m = m
allow (name ∷ names) m = allow names (if is_empty name then m else insert name tt m)

unfoldable pub new_config : List Text → ℤ → ℤ → Config
unfolding allow
new_config names timeout steps = record {
  allowed_tools = allow names [];
  tool_timeout = timeout;
  max_react_steps = steps;
}

-- `Register`, of a tool whose definition has the name.
unfoldable pub register : Text → Tool → Dict Tool → Dict Tool
register name tool tools = if is_empty name then tools else insert name tool tools

-- `State`, and the store in memory.
pub record State : Type 0 where
  pub chat_id : Text
  pub step_count : ℕ

unfoldable pub load : Text → Dict State → State
load chat states = elim (lookup chat states) [
  | none ↦ record { chat_id = chat; step_count = 0 }
  | some s ↦ s
]

unfoldable pub save : State → Dict State → Dict State
save s states = insert s.chat_id s states

pub record Deps : Type 0 where
  pub tools : Dict Tool
  pub plan_tools : PlanRequest → Result (List ToolPlanStep × PlanMetadata)
  pub final_response : FinalResponseRequest → Result (Text × PlanMetadata)
  pub marshal : Dict Value → Option Text
  pub call_id : ℕ → Text
