-- ===== src/React/Policy.antt =====
-- The allowlist of tools: executeStep of src/service/orchestrator/service.go.
use spacetrek.Prelude.{
  ℕ, zero, suc, ◌+◌, ◌≡◌, refl, subst, inl, inr, true, List, [], ◌∷◌, Text, Dict, lookup, arith,
  Bool-cases,
}
use spacetrek.Exception.{Result, ok, err, Result-cases}
use spacetrek.React.{
  Config, Names, Deps, Tool, ProcessInput, PlanMetadata, PlanRequest, FinalResponseRequest,
  ToolPlanStep, RuntimeEvent, State,
}
use spacetrek.React.Turn.{is_allowed, execute_step}
use spacetrek.React.Process.{
  new_with_config, rounds, Loop, start, take_step, react, ProcessResult, touch, finish, process,
}

-- The registries hold the same tools under every allowed name.
abbrev pub AgreeOnAllowed : Names → Dict Tool → Dict Tool → Type 0
AgreeOnAllowed allowed tools tools' =
    (name : Text) → is_allowed allowed name ≡ true → lookup name tools ≡ lookup name tools'

abbrev pub with_tools : Dict Tool → Deps → Deps
with_tools tools deps = record deps { tools = tools }

module _ (cfg : Config) (deps : Deps) (tools tools' : Dict Tool)
    (agree : AgreeOnAllowed cfg.allowed_tools tools tools') where
  execute_step_policy :
      (n : ℕ) (step : ToolPlanStep)
      → execute_step cfg.allowed_tools (with_tools tools deps) n step
        ≡ execute_step cfg.allowed_tools (with_tools tools' deps) n step
  unfolding execute_step
  execute_step_policy n step = elim (Bool-cases (is_allowed cfg.allowed_tools step.name)) [
    | inl e ↦ rw (e, execute_step, agree step.name e) refl
    | inr e ↦ rw (e, execute_step) refl
  ]

  take_step_policy :
      (input : ProcessInput) (n : ℕ) (meta : PlanMetadata) (next : ToolPlanStep) (l : Loop)
      → take_step cfg (with_tools tools deps) input n meta next l
        ≡ take_step cfg (with_tools tools' deps) input n meta next l
  unfolding take_step
  take_step_policy input n meta next l = rw (execute_step_policy n next) refl

  react_policy :
      (input : ProcessInput) (left n : ℕ) (l : Loop)
      → react cfg (with_tools tools deps) input left n l
        ≡ react cfg (with_tools tools' deps) input left n l
  unfolding react
  react_policy input zero n l = refl
  react_policy input (suc left) n l =
      planned
        (deps.plan_tools
          (record { input = input; hint = l.environment_hint; prior_turns = l.prior_turns }))
        refl (λ k. react_policy input left (n + 1) k)
    where
      planned :
          (a : Result (List ToolPlanStep × PlanMetadata))
          → deps.plan_tools
              (record { input = input; hint = l.environment_hint; prior_turns = l.prior_turns })
            ≡ a
          → ((k : Loop)
              → react cfg (with_tools tools deps) input left (n + 1) k
                ≡ react cfg (with_tools tools' deps) input left (n + 1) k)
          → react cfg (with_tools tools deps) input (suc left) n l
            ≡ react cfg (with_tools tools' deps) input (suc left) n l
      planned (err e) q again = rw (q, react) refl
      planned (ok ([], meta)) q again = rw (q, react) refl
      planned (ok (next ∷ rest, meta)) q again =
          rw (q, react, take_step_policy input n meta next l)
            (again (take_step cfg (with_tools tools' deps) input n meta next l))

-- A turn has the same events, result and saved states whichever tools are registered under names
-- that the configuration does not allow.
pub process_policy :
    (config : Config) (deps : Deps) (tools tools' : Dict Tool) (input : ProcessInput)
    (states : Dict State)
    → ((name : Text)
        → is_allowed config.allowed_tools name ≡ true
        → lookup name tools ≡ lookup name tools')
    → process config (with_tools tools deps) input states
      ≡ process config (with_tools tools' deps) input states
unfolding process new_with_config finish
process_policy config deps tools tools' input states agree =
    let cfg = new_with_config config in
    let touched = touch input.chat_id states in
    subst
      (λ ran.
        process config (with_tools tools deps) input states
        ≡ (elim ran.1 as (λ x. Dict State × List RuntimeEvent × Result ProcessResult) [
          | err e ↦ (touched, ran.0.events, err e)
          | ok u ↦ finish deps input touched ran.0
        ]))
      (react_policy cfg deps tools tools' agree input (rounds cfg.max_react_steps) 1 (start input))
      refl

-- Wherever the planner answers every request, the loop ends without an error.
react_total :
    (cfg : Config) (deps : Deps) (input : ProcessInput)
    → ((q : PlanRequest) → (p : List ToolPlanStep × PlanMetadata) × (deps.plan_tools q ≡ ok p))
    → (left n : ℕ) (l : Loop) → (react cfg deps input left n l).1 ≡ ok tt
unfolding react
react_total cfg deps input plans zero n l = refl
react_total cfg deps input plans (suc left) n l =
    planned
      (plans (record { input = input; hint = l.environment_hint; prior_turns = l.prior_turns }))
      (λ k. react_total cfg deps input plans left (n + 1) k)
  where
    planned :
        ((p : List ToolPlanStep × PlanMetadata) × (deps.plan_tools
              (record { input = input; hint = l.environment_hint; prior_turns = l.prior_turns })
            ≡ ok p))
        → ((k : Loop) → (react cfg deps input left (n + 1) k).1 ≡ ok tt)
        → (react cfg deps input (suc left) n l).1 ≡ ok tt
    planned (([], meta), q) again = rw (q, react) refl
    planned ((next ∷ rest, meta), q) again =
        rw (q, react) (again (take_step cfg deps input n meta next l))

-- A turn whose planner answers every request returns a result, however its tools fail.
pub process_total :
    (config : Config) (deps : Deps) (input : ProcessInput) (states : Dict State)
    → ((q : PlanRequest) → (p : List ToolPlanStep × PlanMetadata) × (deps.plan_tools q ≡ ok p))
    → ((q : FinalResponseRequest) → (p : Text × PlanMetadata) × (deps.final_response q ≡ ok p))
    → (result : ProcessResult) × ((process config deps input states).2 ≡ ok result)
unfolding process finish
process_total config deps input states plans finals =
    let cfg = new_with_config config in
    let ran = react cfg deps input (rounds cfg.max_react_steps) 1 (start input) in
    let fine = react_total cfg deps input plans (rounds cfg.max_react_steps) 1 (start input) in
    let (p, done) = finals (record {
      input = input;
      hint = ran.0.environment_hint;
      steps = ran.0.executed_steps;
      tool_results = ran.0.tool_results;
    }) in
    elim (Result-cases (process config deps input states).2) [
      | inl returned ↦ returned
      | inr (e, failed) ↦ absurd (ground arith)
    ]
