-- ===== src/React/Process.antt =====
-- The loop and the call around it: processReactLoop and Process of
-- src/service/orchestrator/service.go.
use spacetrek.Prelude.{
  ℕ, zero, suc, ◌+◌, List, [], ◌∷◌, ◌++◌, none, some, Text, is_empty, Dict, ℤ, pos, negsuc,
  is_positive, length, if◌then◌else◌,
}
use spacetrek.Exception.{Result, Outcome, ok, err}
use spacetrek.React.{
  ToolPlanStep, ToolResult, TokenUsage, no_usage, add_usage, is_zero_usage, RuntimeEvent,
  text_event, thinking, token, PlanMetadata, TraceStep, ProcessInput, Config, State, load, save,
  Deps,
}
use spacetrek.React.Turn.{execute_step, next_hint, observe, step_events, trace_step, or_text}

-- `NewWithConfig`: what is not positive gets its default (30 seconds, 70 steps).
unfoldable pub new_with_config : Config → Config
new_with_config cfg = record cfg {
  tool_timeout = if is_positive cfg.tool_timeout then cfg.tool_timeout else pos 30000000000;
  max_react_steps = if is_positive cfg.max_react_steps then cfg.max_react_steps else pos 70;
}

-- The rounds of a loop from 1 to the bound.
abbrev pub rounds : ℤ → ℕ
rounds (pos n) = n
rounds (negsuc n) = 0

-- The loop's variables, and the events that it has emitted.
pub record Loop : Type 0 where
  pub executed_steps : List ToolPlanStep
  pub tool_results : List ToolResult
  pub prior_turns : List (ToolPlanStep × ToolResult)
  pub environment_hint : Text
  pub trace_steps : List TraceStep
  pub reasoning : Text
  pub usage : TokenUsage
  pub events : List RuntimeEvent

abbrev pub start : ProcessInput → Loop
start input = record {
  executed_steps = [];
  tool_results = [];
  prior_turns = [];
  environment_hint = input.environment_hint;
  trace_steps = [];
  reasoning = [];
  usage = no_usage;
  events = [];
}

-- The body of a round whose plan has a step.
unfoldable pub take_step :
    Config → Deps → ProcessInput → ℕ → PlanMetadata → ToolPlanStep → Loop → Loop
take_step cfg deps input n meta next l =
    let r = execute_step cfg.allowed_tools deps n next in
    let observation = observe deps.marshal r in
    record {
      executed_steps = l.executed_steps ++ next ∷ [];
      tool_results = l.tool_results ++ r ∷ [];
      prior_turns = l.prior_turns ++ (next, r) ∷ [];
      environment_hint = next_hint next r l.environment_hint;
      trace_steps = l.trace_steps ++ trace_step n meta next r observation ∷ [];
      reasoning = or_text meta.reasoning l.reasoning;
      usage = add_usage l.usage meta.usage;
      events = l.events ++ step_events input.chat_id n meta next r observation;
    }

-- The rounds that are left, and the number of the next one.
unfoldable pub react : Config → Deps → ProcessInput → ℕ → ℕ → Loop → Loop × Outcome
react cfg deps input zero n l = (l, ok tt)
react cfg deps input (suc left) n l =
    elim (deps.plan_tools
      (record { input = input; hint = l.environment_hint; prior_turns = l.prior_turns })) [
        | err e ↦ (l, err e)
        | ok ([], meta) ↦ (record l { usage = add_usage l.usage meta.usage }, ok tt)
        | ok (next ∷ rest, meta) ↦
            react cfg deps input left (n + 1) (take_step cfg deps input n meta next l)
      ]

-- What a turn returns.
pub record ProcessResult : Type 0 where
  pub tool_results : List ToolResult
  pub assistant_message : Text
  pub executed : List ToolPlanStep
  pub trace : List TraceStep
  pub trace_reasoning : Text
  pub trace_usage : TokenUsage

-- The last events: a thought, numbered after the steps, and the answer.
unfoldable pub final_events : Text → Text → PlanMetadata → TokenUsage → Loop → List RuntimeEvent
final_events chat assistant meta usage l =
    (if is_empty meta.thinking_text
      then []
      else text_event thinking chat (length l.trace_steps + 1) meta.thinking_text ∷ [])
    ++ ((let e = text_event token chat 0 assistant in
          record e { token_usage = if is_zero_usage usage then none else some usage })
        ∷ [])

-- What follows the loop: the states, the events and the result of the turn.
unfoldable pub finish :
    Deps → ProcessInput → Dict State → Loop → Dict State × List RuntimeEvent × Result ProcessResult
unfolding final_events
finish deps input states l =
    elim (deps.final_response (record {
      input = input;
      hint = l.environment_hint;
      steps = l.executed_steps;
      tool_results = l.tool_results;
    })) [
      | err e ↦ (states, l.events, err e)
      | ok (assistant, meta) ↦
          let usage = add_usage l.usage meta.usage in
          (
            save (record { chat_id = input.chat_id; step_count = length l.executed_steps }) states,
            l.events ++ final_events input.chat_id assistant meta usage l,
            ok (record {
              tool_results = l.tool_results;
              assistant_message = assistant;
              executed = l.executed_steps;
              trace = l.trace_steps;
              trace_reasoning = or_text meta.reasoning l.reasoning;
              trace_usage = usage;
            }),
          )
    ]

-- The state is loaded and saved before the loop.
unfoldable pub touch : Text → Dict State → Dict State
touch chat states = (let s = load chat states in save (record s { chat_id = chat }) states)

unfoldable pub process :
    Config
    → Deps
    → ProcessInput
    → Dict State
    → Dict State × List RuntimeEvent × Result ProcessResult
unfolding new_with_config react finish
process config deps input states =
    let cfg = new_with_config config in
    let touched = touch input.chat_id states in
    let (l, outcome) = react cfg deps input (rounds cfg.max_react_steps) 1 (start input) in
    elim outcome [ err e ↦ (touched, l.events, err e) | ok u ↦ finish deps input touched l ]
