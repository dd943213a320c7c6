-- ===== src/Agents.antt =====
-- Agents and their repository in memory: src/core/domain/agent/agent.go and
-- src/repository/memory/agent.go.
pub mod Calls
use spacetrek.Prelude.{
  ℕ, Bool, List, [], Text, codes, Dict, lookup, insert, remove, values, sort_by, ltb, leb,
  if◌then◌else◌, length, take, drop,
}
use spacetrek.Exception.{AppError, not_found, Result, ok, or_err, ◌>>=◌}

pub data Status : Type 0 where
  created running suspended terminated : Status

pub record Agent : Type 0 where
  pub id : Text
  pub user_id : Text
  pub name : Text
  pub description : Text
  pub model : Text
  pub system_prompt : Text
  pub status : Status
  pub created_at : ℕ
  pub updated_at : ℕ

pub record CreateParams : Type 0 where
  pub user_id : Text
  pub name : Text
  pub description : Text
  pub model : Text
  pub system_prompt : Text

-- `id` is the generated UUID.
unfoldable pub new : Text → ℕ → CreateParams → Agent
new id now p = record {
  id = id;
  user_id = p.user_id;
  name = p.name;
  description = p.description;
  model = p.model;
  system_prompt = p.system_prompt;
  status = created;
  created_at = now;
  updated_at = now;
}

pub record Repo : Type 0 where
  pub agents : Dict Agent

abbrev pub new_repo : Repo
new_repo = record { agents = [] }

abbrev pub agent_missing : Text → AppError
agent_missing id = not_found (codes "agent") id

unfoldable pub create : Agent → Repo → Repo
create a r = record { agents = insert a.id a r.agents }

unfoldable pub get_by_id : Text → Repo → Result Agent
get_by_id id r = or_err (lookup id r.agents) (agent_missing id)

unfoldable pub update : Agent → Repo → Result Repo
update a r = or_err (lookup a.id r.agents) (agent_missing a.id) >>= λ old.
    ok (record { agents = insert a.id a r.agents })

unfoldable pub delete : Text → Repo → Result Repo
delete id r = or_err (lookup id r.agents) (agent_missing id) >>= λ old.
    ok (record { agents = remove id r.agents })

abbrev pub newest_agent : Agent → Agent → Bool
newest_agent a b = ltb b.created_at a.created_at

-- The agents from an offset on, at most `limit`, and how many there are; neither is negative.
unfoldable pub list : ℕ → ℕ → Repo → List Agent × ℕ
list offset limit r =
    let all = sort_by newest_agent (values r.agents) in
    if leb (length all) offset then ([], length all) else (take limit (drop offset all), length all)
