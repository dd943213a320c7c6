-- ===== src/Vm.antt =====
-- The VM entity and its state machine: src/core/domain/vm/vm.go and src/core/domain/vm/state.go.
-- Times are nanoseconds; the clock, the uuid and the random name are arguments. A pointer is an
-- `Option`: the code never writes through these pointers.
pub mod State
pub mod Name
pub mod Lifecycle
use spacetrek.Prelude.{
  ℕ, ◌+◌, ◌-◌, ◌<◌, ◌≡◌, Bool, true, false, not, ◌&&◌, ◌||◌, Option, none, some, List, [], ◌∷◌,
  ◌++◌, ltb, ◌==◌, leb, if◌then◌else◌, is_some, Text, codes, is_empty, ℤ, pos, is_positive, zero,
}

-- `Status`, declared with its constants.
pub data Status : Type 0 where
  provisioning ready running idle terminated : Status

abbrev pub status_eq : Status → Status → Bool
status_eq provisioning provisioning = true
status_eq ready ready = true
status_eq running running = true
status_eq idle idle = true
status_eq terminated terminated = true
status_eq _ _ = false

abbrev pub provider_firecracker : Text
provider_firecracker = codes "firecracker"

abbrev pub public_domain_suffix : Text
public_domain_suffix = codes ".box.spacetrek.xyz"

pub record Vm : Type 0 where
  pub id : Text
  pub name : Text
  pub environment_id : Text
  pub conversation_id : Text
  pub provider : Text
  pub status : Status
  pub workspace_size_gb : ℤ
  pub runtime_id : Option Text
  pub socket_path : Option Text
  pub vsock_path : Option Text
  pub guest_cid : Option ℕ
  pub pid : Option ℤ
  pub runtime_state : Option Text
  pub last_heartbeat_at : Option ℕ
  pub idle_deadline_at : Option ℕ
  pub vcpu : Option ℤ
  pub memory_mb : Option ℤ
  pub disk_mb : Option ℤ
  pub ip_address : Option Text
  pub service_port : ℤ
  pub chat_id : Option Text
  pub assigned_at : Option ℕ
  pub last_resumed_at : Option ℕ
  pub diff_snapshots_enabled : Bool
  pub terminated_at : Option ℕ
  pub created_at : ℕ

pub record CreateParams : Type 0 where
  pub environment_id : Text
  pub conversation_id : Text
  pub provider : Text
  pub workspace_size_gb : ℤ
  pub name : Option Text
  pub vcpu : Option ℤ
  pub memory_mb : Option ℤ
  pub disk_mb : Option ℤ
  pub service_port : Option ℤ

-- An optional override that counts only when it is positive.
unfoldable pub positive_or : Option ℤ → ℤ → ℤ
positive_or none d = d
positive_or (some n) d = if is_positive n then n else d

-- `New`, given the uuid, the name that `resolveName` returns and the time.
unfoldable pub new : CreateParams → Text → Text → ℕ → Vm
unfolding positive_or
new params uuid name now = record {
  id = uuid;
  name = name;
  environment_id = params.environment_id;
  conversation_id = params.conversation_id;
  provider = if is_empty params.provider then provider_firecracker else params.provider;
  status = provisioning;
  workspace_size_gb =
      if is_positive params.workspace_size_gb then params.workspace_size_gb else pos 2;
  runtime_id = none;
  socket_path = none;
  vsock_path = none;
  guest_cid = none;
  pid = none;
  runtime_state = none;
  last_heartbeat_at = none;
  idle_deadline_at = none;
  vcpu = params.vcpu;
  memory_mb = params.memory_mb;
  disk_mb = params.disk_mb;
  ip_address = none;
  service_port = positive_or params.service_port (pos 80);
  chat_id = none;
  assigned_at = none;
  last_resumed_at = none;
  diff_snapshots_enabled = false;
  terminated_at = none;
  created_at = now;
}

unfoldable pub has_custom_resources : Vm → Bool
has_custom_resources v = is_some v.vcpu || is_some v.memory_mb || is_some v.disk_mb

unfoldable pub get_vcpu : Vm → ℤ → ℤ
unfolding positive_or
get_vcpu v d = positive_or v.vcpu d

unfoldable pub get_memory_mb : Vm → ℤ → ℤ
unfolding positive_or
get_memory_mb v d = positive_or v.memory_mb d

unfoldable pub get_disk_mb : Vm → ℤ → ℤ
unfolding positive_or
get_disk_mb v d = positive_or v.disk_mb d

unfoldable pub is_available : Vm → Bool
is_available v =
    (status_eq v.status ready || status_eq v.status running || status_eq v.status idle)
    && not (is_some v.chat_id)

unfoldable pub assign_to : Text → ℕ → Vm → Vm
assign_to chat now v = record v { chat_id = some chat; assigned_at = some now; status = running }

unfoldable pub unassign : Vm → Vm
unassign v = record v { chat_id = none; assigned_at = none; status = idle }

unfoldable pub terminate : ℕ → Vm → Vm
terminate now v = record v { status = terminated; terminated_at = some now; chat_id = none }

unfoldable pub is_terminated : Vm → Bool
is_terminated v = status_eq v.status terminated

-- A non-empty text replaces the old value.
unfoldable pub text_or_keep : Text → Option Text → Option Text
text_or_keep s old = if is_empty s then old else some s

unfoldable pub set_runtime_metadata : Text → Text → ℤ → Text → ℕ → Vm → Vm
unfolding text_or_keep
set_runtime_metadata runtime socket p state now v = record v {
  runtime_id = text_or_keep runtime v.runtime_id;
  socket_path = text_or_keep socket v.socket_path;
  runtime_state = text_or_keep state v.runtime_state;
  last_heartbeat_at = some now;
  pid = if is_positive p then some p else v.pid;
}

unfoldable pub set_runtime_vsock_metadata : Text → ℕ → Vm → Vm
unfolding text_or_keep
set_runtime_vsock_metadata path cid v = record v {
  vsock_path = text_or_keep path v.vsock_path;
  guest_cid = if ltb 0 cid then some cid else v.guest_cid;
}

unfoldable pub clear_runtime_vsock_metadata : Vm → Vm
clear_runtime_vsock_metadata v = record v { vsock_path = none; guest_cid = none }

unfoldable pub mark_resumed : ℕ → Vm → Vm
mark_resumed now v = record v { last_resumed_at = some now }

-- `time.Since(t) < grace`, at a clock that has not passed below `t`.
unfoldable pub is_recently_resumed : ℕ → ℕ → Vm → Bool
is_recently_resumed grace now v = elim v.last_resumed_at [
  | none ↦ false
  | some t ↦ ltb (now - t) grace
]

unfoldable pub public_url : Vm → Text
public_url v =
    if is_empty v.name || not (is_positive v.service_port)
    then []
    else codes "https://" ++ v.name ++ public_domain_suffix
