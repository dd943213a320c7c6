-- ===== src/Tools/Plan.antt =====
-- The tool that announces a plan: src/service/tool/plan_announce.go.
use spacetrek.Prelude.{
  ◌||◌, ◌⊎◌, inl, inr, true, List, [], ◌∷◌, ◌++◌, Option, none, some, Text, codes, lookup, pos, ℕ,
  suc, ◌+◌, ltb, is_empty, trim_space, text_eq, length, decimal, if◌then◌else◌,
}
use spacetrek.Tools.{
  Arg, text, number, boolean, array, object, Args, no_args, arg, Fields, no_fields, field, Call,
  ToolResult, failed, succeeded, read_string_arg, missing, as_text,
}

abbrev pub plan_max_steps : ℕ
plan_max_steps = 10

abbrev pub plan_min_steps : ℕ
plan_min_steps = 1

unfoldable pub field_of : Text → Fields → Option Arg
field_of k no_fields = none
field_of k (field j a fs) = if text_eq j k then some a else field_of k fs

unfoldable pub args_length : Args → ℕ
args_length no_args = 0
args_length (arg a as') = suc (args_length as')

abbrev described : Text → ℕ → Option Text → Text ⊎ Text
described at i none = inl (at ++ codes "missing or empty 'description' string")
described at i (some d) =
    if is_empty (trim_space d)
    then inl (at ++ codes "missing or empty 'description' string")
    else inr d

-- The description of a step as it stands, or why the step is refused.
unfoldable pub step_description : ℕ → Arg → Text ⊎ Text
unfolding field_of
step_description i a = elim a [
  | object fs ↦
      described (codes "steps[" ++ decimal i ++ codes "]: ") i
        (as_text (field_of (codes "description") fs))
  | _ ↦ inl (codes "steps[" ++ decimal i ++ codes "]: expected object with a description field")
]

abbrev with_step : Text ⊎ Text → Text ⊎ List Text → Text ⊎ List Text
with_step (inl why) rest = inl why
with_step (inr d) (inl why) = inl why
with_step (inr d) (inr ds) = inr (d ∷ ds)

-- The descriptions, or why the first bad step is refused.
unfoldable pub read_steps : ℕ → Args → Text ⊎ List Text
unfolding step_description
read_steps i no_args = inr []
read_steps i (arg a as') = with_step (step_description i a) (read_steps (i + 1) as')

abbrev to_steps : List Text → Args
to_steps [] = no_args
to_steps (d ∷ ds) = arg (object (field (codes "description") (text d) no_fields)) (to_steps ds)

abbrev announced : Call → Text → Text ⊎ List Text → ToolResult
announced call summary (inl why) = failed call why
announced call summary (inr ds) = succeeded call (
    (codes "summary", text summary)
    ∷ (codes "steps", array (to_steps ds))
    ∷ (codes "announced", boolean true)
    ∷ (codes "step_count", number (pos (length ds)))
    ∷ [])

abbrev announce_steps : Call → Text → Option Arg → ToolResult
announce_steps call summary (some (array as')) =
    if ltb (args_length as') plan_min_steps || ltb plan_max_steps (args_length as')
    then failed call (codes "steps must contain 1-10 items, got " ++ decimal (args_length as'))
    else announced call summary (read_steps 0 as')
announce_steps call summary _ =
    failed call (codes "missing or invalid required argument steps (expected array)")

unfoldable pub plan_announce : Call → ToolResult
unfolding args_length read_steps
plan_announce call = elim (read_string_arg (codes "summary") call.arguments) [
  | none ↦ failed call (missing (codes "summary"))
  | some summary ↦ announce_steps call summary (lookup (codes "steps") call.arguments)
]
