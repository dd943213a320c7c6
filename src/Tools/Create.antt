-- ===== src/Tools/Create.antt =====
-- The tool that creates VMs: src/service/tool/vm_create.go, over the VM service that the other tools
-- call.
use spacetrek.Prelude.{
  ◌&&◌, Bool, false, not, ◌∷◌, ◌++◌, Option, none, some, Text, codes, ℤ, pos, negsuc, ◌+◌, leb,
  if◌then◌else◌, Dict, insert, decimal, lookup,
}
use spacetrek.Exception.{AppError, Result, ok, err}
use spacetrek.Vm.{Vm}
use spacetrek.Vm.State.{is_active, is_terminal}
use spacetrek.Tools.{
  Arg, text, number, Call, ToolResult, failed, succeeded, read_string_arg, missing,
}
use spacetrek.Tools.Vms.{Manager, status_text, vm_base_fields, without_chat}

abbrev pub in_port_range : ℤ → Bool
in_port_range (pos n) = leb 1 n && leb n 65535
in_port_range (negsuc n) = false

abbrev pub int_text : ℤ → Text
int_text (pos n) = decimal n
int_text (negsuc n) = b'-' ∷ decimal (n + 1)

abbrev pub as_port : Option Arg → Option ℤ
as_port (some (number n)) = some n
as_port _ = none

-- The port that is asked for, where it is a number.
unfoldable pub requested_port : Dict Arg → Option ℤ
requested_port args = as_port (lookup (codes "service_port") args)

module _ {W : Type 0} (say : AppError → Text) (m : Manager W) where
  abbrev pub already_active : Vm → Text
  already_active v =
      codes "A VM with this environment is already active (id="
      ++ v.id
      ++ codes ", status="
      ++ status_text v.status
      ++ codes "). Use vm.execute_command with vm_id="
      ++ v.id
      ++ codes " directly."

  abbrev pub already_there : Vm → W → Text
  already_there v w =
      codes "A VM with this environment already exists for this chat (id="
      ++ v.id
      ++ codes ", status="
      ++ status_text v.status
      ++ codes "). "
      ++ (if m.has_snapshot v.id w
          then codes "Use vm.start with vm_id=" ++ v.id ++ codes " to restore its workspace"
          else codes "Use vm.start")
      ++ codes "."

  -- Why no VM is created where the chat has one of the environment.
  abbrev pub blocked_by : Result Vm → W → Option Text
  blocked_by (err e) w = none
  blocked_by (ok v) w =
      if is_active v.status
      then some (already_active v)
      else if not (is_terminal v.status)
      then some (already_there v w)
      else none

  abbrev pub created_vm : Call → Text → Result Vm × W → ToolResult × W
  created_vm call env_type (err e, w) = (failed call (say e), w)
  created_vm call env_type (ok v, w) =
      (succeeded call (insert (codes "environment") (text env_type) (vm_base_fields v)), w)

  abbrev pub assigned_new : Call → Text → Text → Result Vm × W → ToolResult × W
  assigned_new call env_type chat (err e, w) = (failed call (say e), w)
  assigned_new call env_type chat (ok v, w) = created_vm call env_type (m.assign v.id chat w)

  -- The VM is created and assigned.
  unfoldable pub provision : Call → Text → Text → Text → Option ℤ → W → ToolResult × W
  unfolding vm_base_fields
  provision call env_type env chat port w =
      assigned_new call env_type chat (m.create_vm env chat port w)

  abbrev pub at_port : Call → Text → Text → Text → Option ℤ → W → ToolResult × W
  at_port call env_type env chat none w = provision call env_type env chat none w
  at_port call env_type env chat (some port) w =
      if in_port_range port then provision call env_type env chat (some port) w else (
        failed call (codes "service_port must be between 1 and 65535, got " ++ int_text port),
        w,
      )

  abbrev pub unless_blocked : Call → Text → Text → Text → W → Option Text → ToolResult × W
  unless_blocked call env_type env chat w (some why) = (failed call why, w)
  unless_blocked call env_type env chat w none =
      at_port call env_type env chat (requested_port call.arguments) w

  abbrev pub in_environment : Call → Text → Text → W → Result Text → ToolResult × W
  in_environment call env_type chat w (err e) = (failed call (say e), w)
  in_environment call env_type chat w (ok env) =
      unless_blocked call env_type env chat w (blocked_by (m.by_environment env chat w) w)

  unfoldable pub vm_create : Option Text → Call → W → ToolResult × W
  unfolding provision requested_port
  vm_create none call w = (failed call without_chat, w)
  vm_create (some chat) call w = elim (read_string_arg (codes "environment") call.arguments) [
    | none ↦ (failed call (missing (codes "environment")), w)
    | some env_type ↦ in_environment call env_type chat w (m.resolve_environment env_type w)
  ]
