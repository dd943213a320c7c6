-- ===== src/Writers.antt =====
-- The writers of the dnsmasq hosts file and of the cloudflared ingress file:
-- src/service/vm/hostswriter/writer.go and src/service/vm/tunnelwriter/writer.go. Both keep the hash
-- of what they last wrote; SHA-256 and the file system's answer to a write are arguments.
pub mod Hosts
pub mod Tunnel
pub mod Lines
pub mod Refreshing
pub mod Race
pub mod Reading
use spacetrek.Prelude.{ℕ, suc, Bool, true, false, Option, none, some, Text, text_eq, if◌then◌else◌}
use spacetrek.Exception.{Result, Outcome, ok, err}

-- The writer's hash, the file that it writes, and how often the reader of the file was told to
-- reload it (an ingress file's reader watches it by itself).
pub record Writer : Type 0 where
  pub last_hash : Text
  pub file : Option Text
  pub reloads : ℕ

module _ (hash : Text → Text) where
  -- The part of Refresh from the hash on; `write` is what writing the file answers.
  unfoldable pub rewrite : Text → Outcome → Writer → Outcome × Writer
  rewrite content write w = if text_eq (hash content) w.last_hash then (ok tt, w) else elim write [
    | err e ↦ (err e, w)
    | ok _ ↦
        (ok tt, record { last_hash = hash content; file = some content; reloads = suc w.reloads })
  ]
