-- ===== src/Tools/Trimmed.antt =====
-- What the file tools of src/service/tool hand to the VM service.
use spacetrek.Prelude.{
  ◌≡◌, ◌≢◌, ◌⊎◌, inl, inr, refl, subst, Bool, false, [], ◌∷◌, some, Option-cases, Text, codes, ℤ,
  Dict, lookup, trim_space, IsTrimmed, trim_space-IsTrimmed,
}
use spacetrek.Exception.{AppError, Outcome}
use spacetrek.Tools.{
  Arg, Call, ToolResult, as_text, nonempty, read_string_arg, read_int_arg, read_bool_arg,
}
use spacetrek.Tools.Files.{with_text, vm_write_file, vm_edit_file, written, edited}

-- A text without spaces at its ends that is not empty.
abbrev pub IsInk : Text → Type 0
IsInk t = IsTrimmed t × (t ≢ [])

nonempty-IsInk : (t u : Text) → IsTrimmed t → nonempty t ≡ some u → IsInk u
nonempty-IsInk [] u h e = absurd (cc)
nonempty-IsInk (c ∷ cs) u h e =
    let same : c ∷ cs ≡ u = cc in (subst IsTrimmed same h, λ q. absurd (cc))

pub read_string_arg-IsInk :
    (key : Text) (args : Dict Arg) (t : Text) → read_string_arg key args ≡ some t → IsInk t
unfolding read_string_arg
read_string_arg-IsInk key args t e = elim (Option-cases (as_text (lookup key args))) [
  | inl q ↦ absurd (cc (rw q at e))
  | inr (u, q) ↦ nonempty-IsInk (trim_space u) t (trim_space-IsTrimmed u) (rw q at e)
]

module _ {W : Type 0} (say : AppError → Text) where
  -- The tool fails and leaves the service alone.
  abbrev pub IsRefusal : W → ToolResult × W → Type 0
  IsRefusal w r = (r.0.is_ok ≡ false) × (r.1 ≡ w)

  with_text-cases :
      (P : ToolResult × W → Type 0) (name : Text) (call : Call) (w : W)
      (next : Text → ToolResult × W)
      → ((r : ToolResult × W) → IsRefusal w r → P r)
      → ((t : Text) → IsInk t → P (next t))
      → P (with_text say name call w next)
  with_text-cases P name call w next refuse pass =
      elim (Option-cases (read_string_arg name call.arguments)) [
        | inl e ↦ rw (e, with_text) (refuse _ (refl, refl))
        | inr (t, e) ↦ rw (e, with_text) (pass t (read_string_arg-IsInk name call.arguments t e))
      ]

  -- The tool refuses, or hands texts to the VM service.
  abbrev pub Writes :
      (Text → Text → Text → ℤ → W → Outcome × W) → Call → W → ToolResult × W → Type 0
  Writes write call w r =
      IsRefusal w r
      ⊎ ((vm path content : Text) × IsInk path
          × IsInk content
          × (r
              ≡ written say call path content
                  (write vm path content (read_int_arg (codes "mode") call.arguments) w)))

  abbrev pub Edits :
      (Text → Text → Text → Text → Bool → W → Outcome × W) → Call → W → ToolResult × W → Type 0
  Edits edit call w r =
      IsRefusal w r
      ⊎ ((vm path old new : Text) × IsInk old
          × IsInk new
          × (r
              ≡ edited say call path old new (read_bool_arg (codes "replace_all") call.arguments)
                  (edit vm path old new (read_bool_arg (codes "replace_all") call.arguments) w)))

  -- The write tool refuses a call and does not reach the VM service, or it hands over a path and a
  -- content that are not empty and have no space at either end: no call of the tool writes an empty
  -- file, or one that ends in a line break.
  pub vm_write_file-IsInk :
      (write : Text → Text → Text → ℤ → W → Outcome × W) (call : Call) (w : W)
      → Writes write call w (vm_write_file say (some write) call w)
  unfolding vm_write_file
  vm_write_file-IsInk write call w =
      let P = Writes write call w in
      with_text-cases P (codes "vm_id") call w _ (λ r h. inl h)
        (λ vm a.
          with_text-cases P (codes "path") call w _ (λ r h. inl h)
            (λ path b.
              with_text-cases P (codes "content") call w _ (λ r h. inl h)
                (λ content c. inr (vm, path, content, b, c, refl))))

  -- The edit tool refuses a call and does not reach the VM service, or it hands over an old and a new
  -- text that are not empty and have no space at either end: no call of the tool deletes text,
  -- or sets the indentation of what it inserts.
  pub vm_edit_file-IsInk :
      (edit : Text → Text → Text → Text → Bool → W → Outcome × W) (call : Call) (w : W)
      → Edits edit call w (vm_edit_file say (some edit) call w)
  unfolding vm_edit_file
  vm_edit_file-IsInk edit call w =
      let P = Edits edit call w in
      with_text-cases P (codes "vm_id") call w _ (λ r h. inl h)
        (λ vm a.
          with_text-cases P (codes "path") call w _ (λ r h. inl h)
            (λ path b.
              with_text-cases P (codes "old_string") call w _ (λ r h. inl h)
                (λ old c.
                  with_text-cases P (codes "new_string") call w _ (λ r h. inl h)
                    (λ new d. inr (vm, path, old, new, c, d, refl)))))
