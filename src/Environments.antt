-- ===== src/Environments.antt =====
-- Environments and their repository in memory: src/core/domain/environment/environment.go and
-- src/repository/memory/environment.go. The metadata is its JSON text.
use spacetrek.Prelude.{
  ℕ, Bool, List, [], Option, Text, codes, Dict, lookup, insert, remove, values, sort_by, ltb, ℤ,
}
use spacetrek.Exception.{AppError, not_found, Result, ok, or_err, ◌>>=◌}

pub record ResourceLimits : Type 0 where
  pub vcpu : ℤ
  pub memory_mb : ℤ
  pub disk_mb : ℤ

-- `base` is the type of the base image.
pub record Environment : Type 0 where
  pub id : Text
  pub base : Text
  pub image_path : Text
  pub resource_limits : ResourceLimits
  pub description : Text
  pub metadata : Option Text
  pub diff_snapshots : Bool
  pub created_at : ℕ
  pub updated_at : ℕ

pub record CreateParams : Type 0 where
  pub base : Text
  pub image_path : Text
  pub resource_limits : ResourceLimits
  pub description : Text
  pub metadata : Option Text
  pub diff_snapshots : Bool

-- `id` is the generated UUID.
unfoldable pub new : Text → ℕ → CreateParams → Environment
new id now p = record {
  id = id;
  base = p.base;
  image_path = p.image_path;
  resource_limits = p.resource_limits;
  description = p.description;
  metadata = p.metadata;
  diff_snapshots = p.diff_snapshots;
  created_at = now;
  updated_at = now;
}

unfoldable pub get_vcpu : Environment → ℤ
get_vcpu e = e.resource_limits.vcpu

unfoldable pub get_memory_mb : Environment → ℤ
get_memory_mb e = e.resource_limits.memory_mb

unfoldable pub get_disk_mb : Environment → ℤ
get_disk_mb e = e.resource_limits.disk_mb

pub record Repo : Type 0 where
  pub environments : Dict Environment

abbrev pub new_repo : Repo
new_repo = record { environments = [] }

abbrev pub environment_missing : Text → AppError
environment_missing id = not_found (codes "environment") id

unfoldable pub create : Environment → Repo → Repo
create e r = record { environments = insert e.id e r.environments }

unfoldable pub get_by_id : Text → Repo → Result Environment
get_by_id id r = or_err (lookup id r.environments) (environment_missing id)

abbrev pub newest_environment : Environment → Environment → Bool
newest_environment a b = ltb b.created_at a.created_at

unfoldable pub list : Repo → List Environment
list r = sort_by newest_environment (values r.environments)

unfoldable pub update : Environment → Repo → Result Repo
update e r = or_err (lookup e.id r.environments) (environment_missing e.id) >>= λ old.
    ok (record { environments = insert e.id e r.environments })

unfoldable pub delete : Text → Repo → Result Repo
delete id r = or_err (lookup id r.environments) (environment_missing id) >>= λ old.
    ok (record { environments = remove id r.environments })
