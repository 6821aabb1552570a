-- ===== src/Examples/Logs.antt =====
-- The theorems on logs, applied to concrete values.
use kubectl_nvim.Prelude.{
  ◌+◌, ◌≡◌, ◌↔◌, refl, Text, txt, Option, none, some, [], ◌∷◌, Memᴰ, length, arith,
}
use kubectl_nvim.Logs.Json.{Serde, ToggleJsonResult, toggle_json}
use kubectl_nvim.Logs.Toggle.{around, level, toggle_json_finds}
use kubectl_nvim.Logs.Targets.{
  PodRef, PodSpec, ResolvedContainer, ResolvedTargets, Result, ok, resolve_log_targets,
}
use kubectl_nvim.Logs.Resolved.{Resolves, resolve_log_targets_total}

-- Every text is a value, and is written as it is.
abbrev raw : Serde
raw = record {
  Value = Text;
  from_str = λ s. some s;
  to_string = λ v. some v;
  to_string_pretty = λ v. some v;
}

level_empty : level [] 0 ≡ some 0
unfolding level
level_empty = refl

abbrev found : ToggleJsonResult
found = record {
  json = txt "{}";
  start_idx = length (txt "a ") + 1;
  end_idx = (length (txt "a ") + 1) + length (txt "") + 1;
}

toggle_json_finds_example : toggle_json raw (around (txt "a ") [] (txt " b")) ≡ some found
toggle_json_finds_example =
    toggle_json_finds raw (txt "a ") [] (txt " b") (txt "{}") (txt "{}") refl level_empty refl refl

abbrev spec : PodSpec
spec = record { containers = txt "main" ∷ []; init_containers = none }

abbrev first_pod : PodRef
first_pod = record { name = txt "p"; namespace = txt "d" }

-- A cluster that answers for every pod alike.
abbrev answer : PodRef → Result (Option PodSpec)
answer pod = ok (some spec)

resolve_log_targets_total_example :
    (ts : ResolvedTargets) × (resolve_log_targets answer (first_pod ∷ first_pod ∷ []) none none
      ≡ ok ts)
    × ((c : ResolvedContainer)
        → Memᴰ c ts.containers ↔ Resolves answer none (first_pod ∷ first_pod ∷ []) c)
resolve_log_targets_total_example =
    resolve_log_targets_total answer none (first_pod ∷ first_pod ∷ []) none (omega arith)
