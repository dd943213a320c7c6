-- ===== src/React/Steps.antt =====
-- What a turn has done when it returns: src/service/orchestrator/service.go.
use spacetrek.Prelude.{
  ℕ, zero, suc, ◌+◌, ◌≤◌, ◌≡◌, refl, sym, subst, ◌∙◌, inl, inr, List, [], ◌∷◌, ◌++◌, Text,
  text_eq_refl, Dict, length, length-append, append-nil, arith, lookup-insert,
}
use spacetrek.Exception.{Result, ok, err, Result-cases}
use spacetrek.React.{
  Config, Deps, ProcessInput, PlanMetadata, PlanRequest, ToolPlanStep, ToolResult, RuntimeEvent,
  tool_call, TraceStep, TokenUsage, State, load, save, add_usage,
}
use spacetrek.React.Turn.{
  execute_step, step_events, thought_events, plan_events, tool_event, trace_step, observe,
}
use spacetrek.React.Process.{
  new_with_config, rounds, Loop, start, take_step, react, ProcessResult, touch, final_events,
  finish, process,
}

-- `k` numbers from `n` on.
abbrev pub numbers : ℕ → ℕ → List ℕ
numbers n zero = []
numbers n (suc k) = n ∷ numbers (n + 1) k

-- The steps, executed one after the other.
abbrev pub executions : Config → Deps → ℕ → List ToolPlanStep → List ToolResult
executions cfg deps n [] = []
executions cfg deps n (s ∷ ss) =
    execute_step cfg.allowed_tools deps n s ∷ executions cfg deps (n + 1) ss

-- The numbers of the trace's steps, and of the tool calls among the events.
abbrev pub traced : List TraceStep → List ℕ
traced [] = []
traced (t ∷ ts) = t.step ∷ traced ts

abbrev pub called : List RuntimeEvent → List ℕ
called [] = []
called (e ∷ es) = elim e.kind [ tool_call ↦ e.step ∷ called es | _ ↦ called es ]

snoc-numbers : (n k : ℕ) → numbers n k ++ (n + k) ∷ [] ≡ numbers n (suc k)
snoc-numbers n zero = ground arith
snoc-numbers n (suc k) = ground (arith, snoc-numbers (n + 1) k)

snoc-executions :
    (cfg : Config) (deps : Deps) (n : ℕ) (ss : List ToolPlanStep) (s : ToolPlanStep)
    → executions cfg deps n (ss ++ s ∷ [])
      ≡ executions cfg deps n ss ++ execute_step cfg.allowed_tools deps (n + length ss) s ∷ []
snoc-executions cfg deps n [] s = ground arith
snoc-executions cfg deps n (t ∷ ss) s = ground (arith, snoc-executions cfg deps (n + 1) ss s)

snoc-traced :
    (ts : List TraceStep) (t : TraceStep) → traced (ts ++ t ∷ []) ≡ traced ts ++ t.step ∷ []
snoc-traced [] t = refl
snoc-traced (u ∷ ts) t = ground (arith, snoc-traced ts t)

called-append : (as' bs : List RuntimeEvent) → called (as' ++ bs) ≡ called as' ++ called bs
called-append [] bs = refl
called-append (e ∷ as') bs = ground (arith, called-append as' bs)

called-step_events :
    (chat : Text) (n : ℕ) (meta : PlanMetadata) (s : ToolPlanStep) (r : ToolResult) (o : Text)
    → called (step_events chat n meta s r o) ≡ n ∷ []
unfolding step_events thought_events plan_events tool_event
called-step_events chat n meta s r o = ground arith

called-final_events :
    (chat assistant : Text) (meta : PlanMetadata) (usage : TokenUsage) (l : Loop)
    → called (final_events chat assistant meta usage l) ≡ []
unfolding final_events
called-final_events chat assistant meta usage l = ground arith

-- The loop has executed `k` steps.
pub record IsAt (cfg : Config) (deps : Deps) (k : ℕ) (l : Loop) : Type 0 where
  pub counted : length l.executed_steps ≡ k
  pub results : l.tool_results ≡ executions cfg deps 1 l.executed_steps
  pub trace : traced l.trace_steps ≡ numbers 1 k
  pub calls : called l.events ≡ numbers 1 k

take_step-IsAt :
    (cfg : Config) (deps : Deps) (input : ProcessInput) (k : ℕ) (meta : PlanMetadata)
    (next : ToolPlanStep) (l : Loop)
    → IsAt cfg deps k l
    → IsAt cfg deps (suc k) (take_step cfg deps input (k + 1) meta next l)
unfolding take_step trace_step
take_step-IsAt cfg deps input k meta next l h =
    let r = execute_step cfg.allowed_tools deps (k + 1) next in
    let o = observe deps.marshal r in
    let number : 1 + k ≡ k + 1 = omega arith in
    record {
      counted = ground (arith, length-append l.executed_steps (next ∷ []), h.counted);
      results =
          ground
            (arith, snoc-executions cfg deps 1 l.executed_steps next, h.counted, h.results, number);
      trace = ground (
        arith,
        snoc-traced l.trace_steps (trace_step (k + 1) meta next r o),
        snoc-numbers 1 k,
        h.trace,
        number,
      );
      calls = ground (
        arith,
        called-append l.events (step_events input.chat_id (k + 1) meta next r o),
        called-step_events input.chat_id (k + 1) meta next r o,
        snoc-numbers 1 k,
        h.calls,
        number,
      );
    }

-- Wherever the loop stops, it is at some step, which the rounds bound.
react-IsAt :
    (cfg : Config) (deps : Deps) (input : ProcessInput) (left k : ℕ) (l : Loop)
    → IsAt cfg deps k l
    → (n : ℕ) × (n ≤ k + left) × IsAt cfg deps n (react cfg deps input left (k + 1) l).0
unfolding react
react-IsAt cfg deps input zero k l h = (k, omega arith, h)
react-IsAt cfg deps input (suc left) k l h = planned (deps.plan_tools request) refl (λ meta next.
    react-IsAt cfg deps input left (k + 1) (take_step cfg deps input (k + 1) meta next l) (
      subst (λ j. IsAt cfg deps j (take_step cfg deps input (k + 1) meta next l)) one_more
        (take_step-IsAt cfg deps input k meta next l h)))
  where
    one_more : suc k ≡ k + 1
    one_more = omega arith

    request : PlanRequest
    request = record { input = input; hint = l.environment_hint; prior_turns = l.prior_turns }

    Stopped : Type 0
    Stopped =
        (n : ℕ) × (n ≤ k + suc left) × IsAt cfg deps n (react cfg deps input (suc left) (k + 1) l).0

    planned :
        (a : Result (List ToolPlanStep × PlanMetadata))
        → deps.plan_tools request ≡ a
        → ((meta : PlanMetadata) (next : ToolPlanStep)
            → (n : ℕ) × (n ≤ (k + 1) + left)
              × IsAt cfg deps n
                  (react cfg deps input left
                    ((k + 1) + 1)
                    (take_step cfg deps input (k + 1) meta next l)).0)
        → Stopped
    planned (err e) q again = (k, omega arith, rw (q, react) h)
    planned (ok ([], meta)) q again = (
      k,
      omega arith,
      rw (q, react)
          (record { counted = h.counted; results = h.results; trace = h.trace; calls = h.calls }),
    )
    planned (ok (next ∷ rest, meta)) q again =
        let (n, bound, at) = again meta next in (n, omega (arith, bound), rw (q, react) at)

quiet_end : (es last : List RuntimeEvent) → called last ≡ [] → called (es ++ last) ≡ called es
quiet_end es last none_called = called-append es last ∙ rw none_called (append-nil (called es))

-- What follows the loop adds no tool call.
pub finish_lem :
    (deps : Deps) (input : ProcessInput) (states states' : Dict State) (l : Loop)
    (events : List RuntimeEvent) (result : ProcessResult)
    → finish deps input states l ≡ (states', events, ok result)
    → (result.executed ≡ l.executed_steps)
      × (result.tool_results ≡ l.tool_results)
      × (result.trace ≡ l.trace_steps)
      × (called events ≡ called l.events)
      × (load input.chat_id states'
          ≡ record { chat_id = input.chat_id; step_count = length l.executed_steps })
unfolding finish final_events load save
finish_lem deps input states states' l events result e =
    elim (Result-cases (
      deps.final_response (record {
        input = input;
        hint = l.environment_hint;
        steps = l.executed_steps;
        tool_results = l.tool_results;
      }))) [
        | inr (x, failed) ↦ absurd (ground arith)
        | inl ((assistant, meta), done) ↦
            let usage = add_usage l.usage meta.usage in
            let last = final_events input.chat_id assistant meta usage l in
            let nothing = called-final_events input.chat_id assistant meta usage l in
            let state : State = record {
              chat_id = input.chat_id;
              step_count = length l.executed_steps;
            } in
            (
              ground arith,
              ground arith,
              ground arith,
              (let shown : events ≡ l.events ++ last = ground arith in
                  subst (λ es. called es ≡ called l.events) (sym shown)
                    (quiet_end l.events last nothing)),
              ground (
                arith,
                lookup-insert input.chat_id input.chat_id state states,
                text_eq_refl input.chat_id,
              ),
            )
      ]

-- A turn that returns has executed at most the configured number of steps (70 if that is not
-- positive): one result for each, in order, of executing it; the trace's steps and the tool-call events
-- are numbered from 1 up to their number; and the state saved for the chat counts them.
pub process_lem :
    (config : Config) (deps : Deps) (input : ProcessInput) (states states' : Dict State)
    (events : List RuntimeEvent) (result : ProcessResult)
    → process config deps input states ≡ (states', events, ok result)
    → let cfg = new_with_config config in
      let n = length result.executed in
      (n ≤ rounds cfg.max_react_steps)
      × (result.tool_results ≡ executions cfg deps 1 result.executed)
      × (traced result.trace ≡ numbers 1 n)
      × (called events ≡ numbers 1 n)
      × (load input.chat_id states' ≡ record { chat_id = input.chat_id; step_count = n })
unfolding process finish load save
process_lem config deps input states states' events result e =
    let cfg = new_with_config config in
    let (n, bound, at) =
      react-IsAt cfg deps input (rounds cfg.max_react_steps) 0 (start input)
        (record { counted = refl; results = refl; trace = refl; calls = refl }) in
    let ran = react cfg deps input (rounds cfg.max_react_steps) 1 (start input) in
    elim (Result-cases ran.1) [
      | inr (x, failed) ↦ absurd (ground arith)
      | inl (u, fine) ↦
          let (steps, results, trace, calls, saved) =
            finish_lem deps input (touch input.chat_id states) states' ran.0 events result
              (ground arith) in
          (
            ground (arith, steps, at.counted, bound),
            rw steps (results ∙ at.results),
            rw (steps, trace, at.counted) at.trace,
            rw (steps, calls, at.counted) at.calls,
            rw steps saved,
          )
    ]
