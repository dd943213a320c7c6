-- ===== src/Agents/Calls.antt =====
-- The calls of src/service/agent/service.go over the repository in memory.
use spacetrek.Prelude.{ℕ, List, Option, none, some, Text}
use spacetrek.Exception.{Result, ok, ◌>>=◌}
use spacetrek.Agents.{Agent, CreateParams, Repo, new}
use spacetrek.Agents

-- What is none stays as it is.
pub record UpdateParams : Type 0 where
  pub name : Option Text
  pub description : Option Text
  pub model : Option Text
  pub system_prompt : Option Text

abbrev pub or_keep : Option Text → Text → Text
or_keep none old = old
or_keep (some s) old = s

unfoldable pub patched : UpdateParams → ℕ → Agent → Agent
patched p now a = record a {
  name = or_keep p.name a.name;
  description = or_keep p.description a.description;
  model = or_keep p.model a.model;
  system_prompt = or_keep p.system_prompt a.system_prompt;
  updated_at = now;
}

unfoldable pub create : Text → ℕ → CreateParams → Repo → Repo × Agent
create id now p r = (let a = new id now p in (Agents.create a r, a))

unfoldable pub get : Text → Repo → Result Agent
get id r = Agents.get_by_id id r

unfoldable pub list : ℕ → ℕ → Repo → List Agent × ℕ
list offset limit r = Agents.list offset limit r

unfoldable pub update : Text → UpdateParams → ℕ → Repo → Result (Repo × Agent)
unfolding patched
update id p now r =
    Agents.get_by_id id r >>= λ a. let b = patched p now a in Agents.update b r >>= λ r2. ok (r2, b)

unfoldable pub delete : Text → Repo → Result Repo
delete id r = Agents.delete id r
