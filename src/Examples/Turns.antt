-- ===== src/Examples/Turns.antt =====
-- Turns of the orchestrator: src/service/orchestrator/service.go.
use spacetrek.Prelude.{
  ◌≡◌, refl, ◌≤◌, true, List, [], ◌∷◌, none, some, Text, codes, pos, Dict, lookup, length, text_eq,
  arith, ap,
}
use spacetrek.Exception.{Result, ok}
use spacetrek.React.{
  Config, Deps, ProcessInput, PlanRequest, PlanMetadata, ToolPlanStep, RuntimeEvent, State, Tool,
  no_usage, add_usage, load, text,
}
use spacetrek.React.Turn.{is_allowed, execute_step, trace_step, observe}
use spacetrek.React.Process.{ProcessResult, new_with_config, rounds, take_step, process}
use spacetrek.React.Steps.{executions, traced, called, numbers, process_lem}
use spacetrek.React.Rule.{is_space, rule_step, rule_plan_tools, rule_answers, rule_repeats, repeat}
use spacetrek.React.Policy.{with_tools, process_policy, process_total}

abbrev input : ProcessInput
input = record {
  chat_id = codes "chat-1";
  message = codes "/exec ls";
  available_vms = codes "vm-1" ∷ [];
  environment_hint = [];
}

abbrev plain : PlanMetadata
plain = record { reasoning = []; thinking_text = []; answer_text = []; usage = no_usage }

abbrev ls : ToolPlanStep
ls = record {
  name = codes "vm.execute_command";
  arguments = (codes "command", text (codes "ls")) ∷ [];
}

abbrev shell : Tool
shell n step = (
  record {
    tool_call_id = [];
    tool_name = [];
    is_ok = true;
    payload = some ((codes "output", text (codes "a.txt")) ∷ []);
    error = [];
  },
  none,
)

-- One command, and then the answer.
abbrev two_plans : PlanRequest → List ToolPlanStep
two_plans q = elim q.prior_turns [ [] ↦ ls ∷ [] | t ∷ ts ↦ [] ]

abbrev deps : Deps
deps = record {
  tools = (codes "vm.execute_command", shell) ∷ [];
  plan_tools = λ q. ok (two_plans q, plain);
  final_response = λ q. ok (codes "done", plain);
  marshal = λ m. none;
  call_id = λ n. codes "call";
}

abbrev config : Config
config = record {
  allowed_tools = (codes "vm.execute_command", tt) ∷ [];
  tool_timeout = pos 5;
  max_react_steps = pos 3;
}

process_total_example : (result : ProcessResult) × ((process config deps input []).2 ≡ ok result)
process_total_example =
    process_total config deps input [] (λ q. ((two_plans q, plain), refl))
      (λ q. ((codes "done", plain), refl))

agreed :
    (name : Text)
    → is_allowed config.allowed_tools name ≡ true
    → lookup name deps.tools
      ≡ lookup name ((codes "vm.execute_command", shell) ∷ (codes "rm", shell) ∷ [])
unfolding is_allowed lookup
agreed name h = ground arith

process_policy_example :
    process config (with_tools deps.tools deps) input []
    ≡ process config
        (with_tools ((codes "vm.execute_command", shell) ∷ (codes "rm", shell) ∷ []) deps)
        input
        []
process_policy_example =
    process_policy config deps deps.tools
      ((codes "vm.execute_command", shell) ∷ (codes "rm", shell) ∷ []) input [] agreed

abbrev listed : ProcessResult
listed = record {
  tool_results =
      record {
        tool_call_id = codes "call";
        tool_name = codes "vm.execute_command";
        is_ok = true;
        payload = some ((codes "output", text (codes "a.txt")) ∷ []);
        error = [];
      }
      ∷ [];
  assistant_message = codes "done";
  executed = ls ∷ [];
  trace =
      record {
        step = 1;
        reasoning = [];
        tool_name = codes "vm.execute_command";
        tool_arguments = ls.arguments;
        observation = codes "a.txt";
        tool_success = true;
        tool_error = [];
      }
      ∷ [];
  trace_reasoning = [];
  trace_usage = no_usage;
}

abbrev ran : Dict State × List RuntimeEvent × Result ProcessResult
ran = process config deps input []

returned : ran ≡ (ran.0, ran.1, ok listed)
unfolding process take_step execute_step trace_step add_usage lookup observe text_eq
returned = refl

process_lem_example :
    let cfg = new_with_config config in
    let n = length listed.executed in
    (n ≤ rounds cfg.max_react_steps)
    × (listed.tool_results ≡ executions cfg deps 1 listed.executed)
    × (traced listed.trace ≡ numbers 1 n)
    × (called ran.1 ≡ numbers 1 n)
    × (load input.chat_id ran.0 ≡ record { chat_id = input.chat_id; step_count = n })
process_lem_example = process_lem config deps input [] ran.0 ran.1 listed returned

-- The same with the default planner.
abbrev rule_deps : Deps
rule_deps = record deps { plan_tools = rule_plan_tools }

abbrev exec_ls : ToolPlanStep
exec_ls = record {
  name = codes "vm.execute_command";
  arguments = (codes "vm_id", text (codes "vm-1")) ∷ (codes "command", text (codes "ls")) ∷ [];
}

planned_ls : rule_step input ≡ some exec_ls
unfolding rule_step is_space
planned_ls = refl

rule_returned : (result : ProcessResult) × ((process config rule_deps input []).2 ≡ ok result)
rule_returned =
    process_total config rule_deps input [] rule_answers (λ q. ((codes "done", plain), refl))

rule_repeats_example : rule_returned.0.executed ≡ repeat 3 exec_ls
unfolding new_with_config
rule_repeats_example =
    rule_repeats config rule_deps input exec_ls [] (process config rule_deps input []).0
      (process config rule_deps input []).1 rule_returned.0 (λ q. refl) planned_ls
      (ap (λ x. ((process config rule_deps input []).0, (process config rule_deps input []).1, x))
        rule_returned.1)
