-- ===== src/React/Turn.antt =====
-- One step of the ReAct loop: executeStep and the loop's body of
-- src/service/orchestrator/service.go.
use spacetrek.Prelude.{
  ℕ, Bool, true, false, not, ◌&&◌, ◌||◌, List, [], ◌∷◌, ◌++◌, Option, none, some, is_some, Text,
  codes, is_empty, text_eq, Dict, lookup, if◌then◌else◌,
}
use spacetrek.React.{
  Value, text, other, ToolPlanStep, ToolResult, thinking, answer, tool_call, plan, of_tool, of_plan,
  RuntimeEvent, text_event, PlanMetadata, TraceStep, Deps, Names,
}

-- The allowlist counts only when it names a tool.
unfoldable pub is_allowed : Names → Text → Bool
is_allowed [] name = true
is_allowed (e ∷ m) name = is_some (lookup name (e ∷ m))

-- %q of a name without characters to escape.
abbrev pub refused : Text → Text → ToolResult
refused name reason = record {
  tool_call_id = [];
  tool_name = name;
  is_ok = false;
  payload = none;
  error = codes "tool \"" ++ name ++ (codes "\"" ++ reason);
}

abbrev pub or_text : Text → Text → Text
or_text s d = if is_empty s then d else s

-- What a tool returned, with the blanks filled in and the error noted.
unfoldable pub settle : Text → ToolPlanStep → ToolResult × Option Text → ToolResult
settle call_id step (r, e) = record {
  tool_call_id = or_text r.tool_call_id call_id;
  tool_name = or_text r.tool_name step.name;
  is_ok = if is_some e then false else r.is_ok;
  payload = r.payload;
  error = elim e [ none ↦ r.error | some message ↦ or_text r.error message ];
}

unfoldable pub execute_step : Names → Deps → ℕ → ToolPlanStep → ToolResult
unfolding is_allowed settle
execute_step allowed deps n step =
    if not (is_allowed allowed step.name)
    then refused step.name (codes " is not allowed by policy")
    else elim (lookup step.name deps.tools) [
      | none ↦ refused step.name (codes " is not registered")
      | some tool ↦ settle (deps.call_id n) step (tool n step)
    ]

-- `asString`, of a field that may be missing.
unfoldable pub as_string : Option Value → Text
as_string none = []
as_string (some (text s)) = s
as_string (some (other s)) = []

abbrev pub field : Text → ToolResult → Option Value
field k r = elim r.payload [ none ↦ none | some m ↦ lookup k m ]

unfoldable pub next_hint : ToolPlanStep → ToolResult → Text → Text
unfolding as_string
next_hint step r hint =
    if r.is_ok && (text_eq step.name (codes "vm.start") || text_eq step.name (codes "vm.create"))
    then or_text (as_string (field (codes "environment") r)) hint
    else hint

-- A payload's output, else its encoding; without either, the error.
unfoldable pub observe : (Dict Value → Option Text) → ToolResult → Text
observe marshal r =
    let seen : Text = elim r.payload [
      | none ↦ []
      | some m ↦ elim (lookup (codes "output") m) [
        | some (text s) ↦ s
        | _ ↦ elim (marshal m) [ none ↦ [] | some s ↦ s ]
      ]
    ] in
    if is_empty seen && not (is_empty r.error) then codes "error: " ++ r.error else seen

unfoldable pub tool_event : Text → ℕ → ToolPlanStep → ToolResult → Text → RuntimeEvent
unfolding as_string
tool_event chat n step r observation = record {
  kind = tool_call;
  chat_id = chat;
  step = n;
  data_text = [];
  command =
      if text_eq step.name (codes "vm.execute_command")
      then as_string (lookup (codes "command") step.arguments)
      else [];
  result = observation;
  error = r.error;
  token_usage = none;
  metadata = of_tool step.name step.arguments;
}

unfoldable pub plan_events : Text → ℕ → ToolPlanStep → ToolResult → List RuntimeEvent
unfolding as_string
plan_events chat n step r =
    if text_eq step.name (codes "plan.announce") && r.is_ok && is_some r.payload
    then (let e = text_event plan chat n (as_string (field (codes "summary") r)) in
        record e { metadata = of_plan (field (codes "summary") r) (field (codes "steps") r) } ∷ [])
    else []

unfoldable pub thought_events : Text → ℕ → PlanMetadata → List RuntimeEvent
thought_events chat n meta =
    (if is_empty meta.thinking_text then [] else text_event thinking chat n meta.thinking_text ∷ [])
    ++ (if is_empty meta.answer_text then [] else text_event answer chat n meta.answer_text ∷ [])

-- The events of one step, in their order.
unfoldable pub step_events :
    Text → ℕ → PlanMetadata → ToolPlanStep → ToolResult → Text → List RuntimeEvent
unfolding tool_event plan_events thought_events
step_events chat n meta step r observation =
    thought_events chat n meta
    ++ (plan_events chat n step r ++ tool_event chat n step r observation ∷ [])

unfoldable pub trace_step : ℕ → PlanMetadata → ToolPlanStep → ToolResult → Text → TraceStep
trace_step n meta step r observation = record {
  step = n;
  reasoning = meta.reasoning;
  tool_name = step.name;
  tool_arguments = step.arguments;
  observation = observation;
  tool_success = r.is_ok;
  tool_error = r.error;
}
