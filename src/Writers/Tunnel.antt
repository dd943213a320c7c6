-- ===== src/Writers/Tunnel.antt =====
-- render and Refresh of src/service/vm/tunnelwriter/writer.go.
use spacetrek.Prelude.{Bool, false, [], ◌∷◌, ◌++◌, Text, codes, ◌==◌, if◌then◌else◌}
use spacetrek.Exception.{AppError, Result, Outcome, ok, err}
use spacetrek.Writers.Hosts.{notice}
use spacetrek.Writers.{Writer, rewrite}

-- `strings.HasSuffix(t, "\n")`
unfoldable pub ends_line : Text → Bool
ends_line [] = false
ends_line (c ∷ []) = c == b'\n'
ends_line (c ∷ d ∷ ds) = ends_line (d ∷ ds)

-- The text with a line break at its end, unless it is empty.
unfoldable pub terminated_by_line : Text → Text
unfolding ends_line
terminated_by_line [] = []
terminated_by_line (c ∷ cs) = if ends_line (c ∷ cs) then c ∷ cs else (c ∷ cs) ++ b'\n' ∷ []

-- The rules that every file ends with.
abbrev pub wildcard : Text → Text
wildcard suffix = codes "  - hostname: \"*" ++ suffix ++ codes "\"\n"

abbrev pub target : Text → Text
target ip = codes "    service: http://" ++ ip ++ codes ":8090\n"

abbrev pub catch_all : Text
catch_all = codes "  - service: http_status:404\n"

unfoldable pub render : Text → Text → Text → Text → Text
unfolding terminated_by_line
render suffix ip header static =
    notice
    ++ (terminated_by_line header
        ++ (codes "ingress:\n"
            ++ (terminated_by_line static ++ (wildcard suffix ++ (target ip ++ catch_all)))))

-- The file of static rules: no path, a missing file, another error, or what it holds.
pub data StaticFile : Type 0 where
  no_path missing_file : StaticFile
  unreadable : AppError → StaticFile
  holds : Text → StaticFile

unfoldable pub read_static_rules : StaticFile → Result Text
read_static_rules no_path = ok []
read_static_rules missing_file = ok []
read_static_rules (unreadable e) = err e
read_static_rules (holds t) = ok t

pub record Config : Type 0 where
  pub domain_suffix : Text
  pub orchestrator_ip : Text
  pub header : Text

unfoldable pub refresh : (Text → Text) → Config → StaticFile → Outcome → Writer → Outcome × Writer
unfolding read_static_rules render rewrite
refresh hash cfg file write w = elim (read_static_rules file) [
  | err e ↦ (err e, w)
  | ok static ↦
      rewrite hash (render cfg.domain_suffix cfg.orchestrator_ip cfg.header static) write w
]
