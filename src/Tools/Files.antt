-- ===== src/Tools/Files.antt =====
-- The tools that run commands and read, write and edit files in a VM: src/service/tool/vm_command.go,
-- vm_read_file.go, vm_write_file.go and vm_edit_file.go beside it. The VM service behind them is an
-- argument, with its state `W`; `say` is the text of an error.
use spacetrek.Prelude.{
  Bool, true, [], ◌∷◌, Option, none, some, Text, codes, ℤ, pos, ℕ, ◌+◌, ◌==◌, if◌then◌else◌,
  trim_space, byte_length,
}
use spacetrek.Exception.{AppError, Outcome, ok, err}
use spacetrek.Tools.{
  text, number, boolean, Call, ToolResult, failed, succeeded, read_string_arg, read_int_arg,
  read_bool_arg, missing,
}

-- `len(strings.Split(content, "\n"))`
unfoldable pub line_count : Text → ℕ
line_count [] = 1
line_count (c ∷ cs) = (if c == b'\n' then 1 else 0) + line_count cs

-- A result whose payload has the output, where there is one.
abbrev pub failed_with : Call → Text → Text → ToolResult
failed_with call why [] = failed call why
failed_with call why (c ∷ cs) = record (failed call why) {
  payload = some ((codes "content", text (c ∷ cs)) ∷ []);
}

abbrev pub failed_after : Call → Text → Text → ToolResult
failed_after call why [] = failed call why
failed_after call why (c ∷ cs) = record (failed call why) {
  payload = some ((codes "output", text (trim_space (c ∷ cs))) ∷ []);
}

module _ {W : Type 0} (say : AppError → Text) where
  abbrev pub with_text : Text → Call → W → (Text → ToolResult × W) → ToolResult × W
  with_text name call w next = elim (read_string_arg name call.arguments) [
    | none ↦ (failed call (missing name), w)
    | some t ↦ next t
  ]

  abbrev pub ran : Call → Text × Outcome × W → ToolResult × W
  ran call (output, err e, w') = (failed_after call (say e) output, w')
  ran call (output, ok _, w') =
      (succeeded call ((codes "output", text (trim_space output)) ∷ []), w')

  abbrev pub was_read : Call → Text × Outcome × W → ToolResult × W
  was_read call (content, err e, w') = (failed_with call (say e) content, w')
  was_read call (content, ok _, w') = (succeeded call ((codes "content", text content) ∷ []), w')

  -- `exec` gives the output even with an error.
  unfoldable pub vm_command :
      Option (Text → Text → W → Text × Outcome × W) → Call → W → ToolResult × W
  vm_command none call w = (failed call (codes "vm command executor is not configured"), w)
  vm_command (some exec) call w =
      with_text (codes "vm_id") call w
        (λ vm. with_text (codes "command") call w (λ command. ran call (exec vm command w)))

  unfoldable pub vm_read_file :
      Option (Text → Text → ℤ → ℤ → W → Text × Outcome × W) → Call → W → ToolResult × W
  vm_read_file none call w = (failed call (codes "vm file reader is not configured"), w)
  vm_read_file (some read) call w = with_text (codes "vm_id") call w (λ vm.
      with_text (codes "path") call w (λ path. was_read call (
        read vm path (read_int_arg (codes "offset") call.arguments)
          (read_int_arg (codes "limit") call.arguments) w)))

  abbrev pub written : Call → Text → Text → Outcome × W → ToolResult × W
  written call path content (err e, w') = (failed call (say e), w')
  written call path content (ok _, w') = (
    succeeded call (
        (codes "path", text path)
        ∷ (codes "bytes_written", number (pos (byte_length content)))
        ∷ (codes "lines", number (pos (line_count content)))
        ∷ (codes "note", text (codes "file written; do not re-read to verify"))
        ∷ []),
    w',
  )

  unfoldable pub vm_write_file :
      Option (Text → Text → Text → ℤ → W → Outcome × W) → Call → W → ToolResult × W
  vm_write_file none call w = (failed call (codes "vm file writer is not configured"), w)
  vm_write_file (some write) call w = with_text (codes "vm_id") call w (λ vm.
      with_text (codes "path") call w (λ path. with_text (codes "content") call w (λ content.
        written call path content
          (write vm path content (read_int_arg (codes "mode") call.arguments) w))))

  abbrev pub edited : Call → Text → Text → Text → Bool → Outcome × W → ToolResult × W
  edited call path old new all (err e, w') = (failed call (say e), w')
  edited call path old new all (ok _, w') = (
    succeeded call (
        if all
        then (codes "path", text path)
          ∷ (codes "replace_all", boolean true)
          ∷ (codes "bytes_removed_per_match", number (pos (byte_length old)))
          ∷ (codes "bytes_added_per_match", number (pos (byte_length new)))
          ∷ (codes "note", text (codes "all occurrences replaced; do not re-read to verify"))
          ∷ []
        else (codes "path", text path)
          ∷ (codes "replacements", number (pos 1))
          ∷ (codes "bytes_removed", number (pos (byte_length old)))
          ∷ (codes "bytes_added", number (pos (byte_length new)))
          ∷ (codes "note", text (codes "substitution applied; do not re-read to verify"))
          ∷ []),
    w',
  )

  unfoldable pub vm_edit_file :
      Option (Text → Text → Text → Text → Bool → W → Outcome × W) → Call → W → ToolResult × W
  vm_edit_file none call w = (failed call (codes "vm file editor is not configured"), w)
  vm_edit_file (some edit) call w = with_text (codes "vm_id") call w (λ vm.
      with_text (codes "path") call w (λ path. with_text (codes "old_string") call w (λ old.
        with_text (codes "new_string") call w (λ new.
          let all = read_bool_arg (codes "replace_all") call.arguments in
          edited call path old new all (edit vm path old new all w)))))
