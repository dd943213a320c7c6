-- ===== src/React/Rule.antt =====
-- The default planner: PlanTools of src/service/orchestrator/rule_planner.go, in a turn of
-- src/service/orchestrator/service.go. The message and the ids are lists of runes here.
use spacetrek.Prelude.{
  ℕ, zero, suc, ◌+◌, ◌≡◌, refl, sym, ◌∙◌, inl, inr, Bool, ◌&&◌, ◌||◌, List, [], ◌∷◌, ◌++◌,
  append_assoc, append-nil, Option, none, some, Text, codes, is_empty, Dict, leb, ◌==◌,
  if◌then◌else◌, arith, Option-cases,
}
use spacetrek.Exception.{Result, ok, Result-cases}
use spacetrek.React.{
  Config, Deps, ProcessInput, PlanMetadata, PlanRequest, ToolPlanStep, RuntimeEvent, State, text,
  no_usage,
}
use spacetrek.React.Process.{
  new_with_config, rounds, Loop, start, take_step, react, ProcessResult, touch, process,
}
use spacetrek.React.Steps.{finish_lem}

-- `unicode.IsSpace`
unfoldable pub is_space : ℕ → Bool
is_space c =
    (leb 9 c && leb c 13)
    || (c == 0x20)
    || (c == 0x85)
    || (c == 0xA0)
    || (c == 0x1680)
    || (leb 0x2000 c && leb c 0x200A)
    || (c == 0x2028)
    || (c == 0x2029)
    || (c == 0x202F)
    || (c == 0x205F)
    || (c == 0x3000)

unfoldable pub drop_space : Text → Text
drop_space [] = []
drop_space (c ∷ s) = let rest = drop_space s in if is_space c then rest else c ∷ s

unfoldable pub trim_end : Text → Text
trim_end [] = []
trim_end (c ∷ s) = let rest = trim_end s in if is_space c && is_empty rest then [] else c ∷ rest

-- `strings.TrimSpace`
unfoldable pub trim_space : Text → Text
unfolding drop_space trim_end
trim_space s = trim_end (drop_space s)

-- `strings.HasPrefix` and `strings.TrimPrefix`: what follows the prefix.
unfoldable pub cut_prefix : Text → Text → Option Text
cut_prefix [] s = some s
cut_prefix (p ∷ ps) [] = none
cut_prefix (p ∷ ps) (c ∷ s) = if p == c then cut_prefix ps s else none

abbrev pub first_vm : List Text → Text
first_vm [] = []
first_vm (v ∷ vs) = v

unfoldable pub rule_step : ProcessInput → Option ToolPlanStep
unfolding trim_space cut_prefix
rule_step input = elim (cut_prefix (codes "/exec ") (trim_space input.message)) [
  | none ↦ none
  | some rest ↦
      let command = trim_space rest in
      let vm_id = first_vm input.available_vms in
      if is_empty command || is_empty (trim_space vm_id)
      then none
      else some (record {
        name = codes "vm.execute_command";
        arguments = (codes "vm_id", text vm_id) ∷ (codes "command", text command) ∷ [];
      })
]

abbrev pub empty_metadata : PlanMetadata
empty_metadata = record { reasoning = []; thinking_text = []; answer_text = []; usage = no_usage }

unfoldable pub rule_plan_tools : PlanRequest → Result (List ToolPlanStep × PlanMetadata)
unfolding rule_step
rule_plan_tools q = elim (rule_step q.input) [
  | none ↦ ok ([], empty_metadata)
  | some step ↦ ok (
    step ∷ [],
    record empty_metadata {
      reasoning = codes "Matched /exec rule and generated vm.execute_command call.";
    },
  )
]

abbrev pub repeat : ℕ → ToolPlanStep → List ToolPlanStep
repeat zero s = []
repeat (suc n) s = s ∷ repeat n s

-- What the rule plans for a matching message.
abbrev matched : ToolPlanStep → Result (List ToolPlanStep × PlanMetadata)
matched step = ok (
  step ∷ [],
  record empty_metadata {
    reasoning = codes "Matched /exec rule and generated vm.execute_command call.";
  },
)

rule_matches :
    (q : PlanRequest) (step : ToolPlanStep)
    → rule_step q.input ≡ some step
    → rule_plan_tools q ≡ matched step
unfolding rule_plan_tools
rule_matches q step e = rw (e, rule_plan_tools) refl

-- With the default planner, each round that is left repeats the step.
react_repeats :
    (cfg : Config) (deps : Deps) (input : ProcessInput) (step : ToolPlanStep) (left n : ℕ)
    (l : Loop)
    → ((q : PlanRequest) → deps.plan_tools q ≡ rule_plan_tools q)
    → rule_step input ≡ some step
    → (react cfg deps input left n l).0.executed_steps ≡ l.executed_steps ++ repeat left step
unfolding react take_step
react_repeats cfg deps input step zero n l rule e = sym (append-nil l.executed_steps)
react_repeats cfg deps input step (suc left) n l rule e =
    let q : PlanRequest = record {
      input = input;
      hint = l.environment_hint;
      prior_turns = l.prior_turns;
    } in
    let planned = rule q ∙ rule_matches q step e in
    let meta : PlanMetadata = record empty_metadata {
      reasoning = codes "Matched /exec rule and generated vm.execute_command call.";
    } in
    rw (planned, react)
      (react_repeats cfg deps input step left (n + 1) (take_step cfg deps input n meta step l) rule
          e
        ∙ append_assoc l.executed_steps (step ∷ []) (repeat left step))

-- With the default planner, a turn of an /exec message that returns has run the same command in every
-- round that the configuration allows (70 by default): the planner does not look at what has been
-- done already.
pub rule_repeats :
    (config : Config) (deps : Deps) (input : ProcessInput) (step : ToolPlanStep)
    (states states' : Dict State) (events : List RuntimeEvent) (result : ProcessResult)
    → ((q : PlanRequest) → deps.plan_tools q ≡ rule_plan_tools q)
    → rule_step input ≡ some step
    → process config deps input states ≡ (states', events, ok result)
    → result.executed ≡ repeat (rounds (new_with_config config).max_react_steps) step
unfolding process
rule_repeats config deps input step states states' events result rule e done =
    let cfg = new_with_config config in
    let ran = react cfg deps input (rounds cfg.max_react_steps) 1 (start input) in
    let steps =
      react_repeats cfg deps input step (rounds cfg.max_react_steps) 1 (start input) rule e in
    elim (Result-cases ran.1) [
      | inr (x, failed) ↦ absurd (ground arith)
      | inl (u, fine) ↦
          let finished =
            finish_lem deps input (touch input.chat_id states) states' ran.0 events result
              (ground arith) in
          finished.0 ∙ steps
    ]

-- The default planner answers every request.
pub rule_answers :
    (q : PlanRequest) → (p : List ToolPlanStep × PlanMetadata) × (rule_plan_tools q ≡ ok p)
unfolding rule_plan_tools
rule_answers q = elim (Option-cases (rule_step q.input)) [
  | inl e ↦ (([], empty_metadata), rw (e, rule_plan_tools) refl)
  | inr (step, e) ↦ (_, rule_matches q step e)
]
