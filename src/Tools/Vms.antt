-- ===== src/Tools/Vms.antt =====
-- The tools that start, stop, list and snapshot VMs: src/service/tool/vm_start.go,
-- vm_stop.go, vm_list.go, vm_snapshot.go and payload.go beside them. The VM service behind them is an
-- argument, with its state `W`; the chat is none where the context has none, and `say` is the text of
-- an error.
use spacetrek.Prelude.{
  ◌&&◌, Bool, true, false, not, List, [], ◌∷◌, ◌++◌, Option, none, some, Text, codes, ℤ,
  if◌then◌else◌, Dict, insert,
}
use spacetrek.Exception.{AppError, Result, ok, err}
use spacetrek.Vm.{Vm, Status, provisioning, ready, running, idle, terminated, public_url}
use spacetrek.Vm.State.{is_active}
use spacetrek.VmRepo.{Lease}
use spacetrek.Tools.{
  Arg, text, number, boolean, array, object, Args, no_args, arg, Fields, no_fields, field, Call,
  ToolResult, failed, succeeded, read_string_arg, missing,
}

abbrev pub status_text : Status → Text
status_text provisioning = codes "provisioning"
status_text ready = codes "ready"
status_text running = codes "running"
status_text idle = codes "idle"
status_text terminated = codes "terminated"

abbrev pub with_address : Option Text → Dict Arg → Dict Arg
with_address none payload = payload
with_address (some []) payload = payload
with_address (some (c ∷ cs)) payload = insert (codes "ip_address") (text (c ∷ cs)) payload

unfoldable pub vm_base_fields : Vm → Dict Arg
vm_base_fields v = with_address v.ip_address (
    (codes "vm_id", text v.id)
    ∷ (codes "name", text v.name)
    ∷ (codes "status", text (status_text v.status))
    ∷ (codes "provider", text v.provider)
    ∷ (codes "service_port", number v.service_port)
    ∷ (codes "public_url", text (public_url v))
    ∷ [])

abbrev pub to_fields : Dict Arg → Fields
to_fields [] = no_fields
to_fields ((k, a) ∷ m) = field k a (to_fields m)

abbrev pub to_array : List (Dict Arg) → Args
to_array [] = no_args
to_array (m ∷ ms) = arg (object (to_fields m)) (to_array ms)

-- What the snapshot tool reads of a snapshot; the time is formatted.
pub record Taken : Type 0 where
  pub id : Text
  pub vm_id : Text
  pub size_bytes : ℤ
  pub created_at : Text

-- The VM service, as the tools call it.
pub record Manager (W : Type 0) : Type 0 where
  pub get : Text → W → Result Vm
  pub active_leases : Text → W → Result (List Lease)
  pub previous_leases : Text → W → Result (List Vm)
  pub previous_vm : Text → W → Result Vm
  pub by_environment : Text → Text → W → Result Vm
  pub has_snapshot : Text → W → Bool
  pub environment_hint : Text → W → Result Text
  pub resolve_environment : Text → W → Result Text
  pub create_vm : Text → Text → Option ℤ → W → Result Vm × W
  pub assign : Text → Text → W → Result Vm × W
  pub resume : Text → Text → W → Result Vm × W
  pub stop_vm : Text → W → Result Vm × W
  pub snapshot : Text → W → Result Taken × W

abbrev pub without_chat : Text
without_chat = codes "chat_id not available in context"

module _ {W : Type 0} (say : AppError → Text) (m : Manager W) where
  abbrev stopped : Call → Result Vm × W → ToolResult × W
  stopped call (err e, w) = (failed call (say e), w)
  stopped call (ok v, w) = (
    succeeded call
        ((codes "vm_id", text v.id) ∷ (codes "status", text (status_text v.status)) ∷ []),
    w,
  )

  unfoldable pub vm_stop : Call → W → ToolResult × W
  vm_stop call w = elim (read_string_arg (codes "vm_id") call.arguments) [
    | none ↦ (failed call (missing (codes "vm_id")), w)
    | some id ↦ stopped call (m.stop_vm id w)
  ]

  abbrev taken : Call → Result Taken × W → ToolResult × W
  taken call (err e, w) = (failed call (say e), w)
  taken call (ok s, w) = (
    succeeded call (
        (codes "snapshot_id", text s.id)
        ∷ (codes "vm_id", text s.vm_id)
        ∷ (codes "size_bytes", number s.size_bytes)
        ∷ (codes "created_at", text s.created_at)
        ∷ []),
    w,
  )

  unfoldable pub vm_snapshot : Call → W → ToolResult × W
  vm_snapshot call w = elim (read_string_arg (codes "vm_id") call.arguments) [
    | none ↦ (failed call (missing (codes "vm_id")), w)
    | some id ↦ taken call (m.snapshot id w)
  ]

  abbrev with_found : Result Vm → List (Dict Arg) → List (Dict Arg)
  with_found (err e) rest = rest
  with_found (ok v) rest = vm_base_fields v ∷ rest

  -- A lease whose VM is not found is left out.
  unfoldable pub leased_fields : List Lease → W → List (Dict Arg)
  leased_fields [] w = []
  leased_fields (l ∷ ls) w = with_found (m.get l.vm_id w) (leased_fields ls w)

  unfoldable pub previous_fields : List Vm → W → List (Dict Arg)
  unfolding vm_base_fields
  previous_fields [] w = []
  previous_fields (v ∷ vs) w =
      insert (codes "has_snapshot") (boolean (m.has_snapshot v.id w)) (vm_base_fields v)
      ∷ previous_fields vs w

  abbrev or_no_vms : Result (List Vm) → List Vm
  or_no_vms (err e) = []
  or_no_vms (ok vs) = vs

  abbrev listed : Call → Text → W → Result (List Lease) → ToolResult × W
  listed call chat w (err e) = (failed call (say e), w)
  listed call chat w (ok leases) = (
    succeeded call (
        (codes "active", array (to_array (leased_fields leases w)))
        ∷ (
          codes "previous",
          array (to_array (previous_fields (or_no_vms (m.previous_leases chat w)) w)),
        )
        ∷ []),
    w,
  )

  unfoldable pub vm_list : Option Text → Call → W → ToolResult × W
  unfolding leased_fields previous_fields
  vm_list none call w = (failed call without_chat, w)
  vm_list (some chat) call w = listed call chat w (m.active_leases chat w)

  abbrev with_hint : Result Text → Dict Arg → Dict Arg
  with_hint (err e) payload = payload
  with_hint (ok []) payload = payload
  with_hint (ok (c ∷ cs)) payload = insert (codes "environment") (text (c ∷ cs)) payload

  unfoldable pub enriched_payload : Vm → Bool → W → Dict Arg
  unfolding vm_base_fields
  enriched_payload v restored w =
      let fields = vm_base_fields v in
      with_hint (m.environment_hint v.id w)
        (if restored then insert (codes "restored") (boolean true) fields else fields)

  abbrev pub restored_vm : Call → Result Vm × W → ToolResult × W
  restored_vm call (err e, w) =
      (failed call (codes "Failed to restore VM from snapshot: " ++ say e), w)
  restored_vm call (ok v, w) = (succeeded call (enriched_payload v true w), w)

  abbrev pub reassigned : Call → Result Vm × W → ToolResult × W
  reassigned call (err e, w) = (failed call (say e), w)
  reassigned call (ok v, w) = (succeeded call (enriched_payload v false w), w)

  abbrev pub start : Call → Text → Vm → W → ToolResult × W
  start call chat v w =
      if m.has_snapshot v.id w && not (is_active v.status)
      then restored_vm call (m.resume v.id chat w)
      else reassigned call (m.assign v.id chat w)

  abbrev start_found : Call → Text → Text → W → Result Vm → ToolResult × W
  start_found call why chat w (err e) = (failed call why, w)
  start_found call why chat w (ok v) = start call chat v w

  unfoldable pub vm_start : Option Text → Call → W → ToolResult × W
  unfolding enriched_payload
  vm_start none call w = (failed call without_chat, w)
  vm_start (some chat) call w = elim (read_string_arg (codes "vm_id") call.arguments) [
    | some id ↦ start_found call (codes "VM not found: " ++ id) chat w (m.get id w)
    | none ↦
        start_found call
          (codes "No previous VM found for this chat. Use vm.create to create a new one.") chat w
          (m.previous_vm chat w)
  ]
