-- ===== src/Examples/Orphans.antt =====
-- The theorems on orphans and on a pod's references, applied to concrete resources.
use mathlib.Core.List.Memᴰ
use kubectl_nvim.Prelude.{
  ◌≡◌, refl, Text, txt, text_eq, text_beq, to_lowercase, lower_byte, lookup, Option, none, some,
  List, [], ◌∷◌, true, false,
}
use kubectl_nvim.Lineage.Resource.{EdgeType, owns, references}
use kubectl_nvim.Lineage.Orphan.Condition.{
  OrphanContext, no_incoming_refs, evaluate, not_service_account_token, no_token_label, matches,
}
use kubectl_nvim.Lineage.Orphan.Patterns.{config_map_exception_pattern}
use kubectl_nvim.Lineage.Orphan.Antitone.{with_refs, evaluate_antitone}
use kubectl_nvim.Lineage.Registry.Rules.{pvc_orphan_rule}
use kubectl_nvim.Lineage.Registry.Table.{
  extract_pvc_relations, ResourceHandler, get_handler, normalize_kind, kind_names,
  resource_registry,
}
use kubectl_nvim.Lineage.Registry.Orphans.{is_exception, is_resource_orphan}
use kubectl_nvim.Lineage.Registry.Verdicts.{is_resource_orphan_antitone}
use kubectl_nvim.Lineage.Registry.Unreferenced.{unreferenced-orphan}
use kubectl_nvim.Lineage.Relations.Spec.{EnvVar, EnvVarSource, Container, PodSpec}

abbrev context : List (EdgeType × Text) → Option Text → OrphanContext
context refs kind = record {
  incoming_refs = refs;
  labels = none;
  resource_type = kind;
  missing_refs = none;
}

-- Owned, which does not count.
abbrev owned : List (EdgeType × Text)
owned = (owns, txt "Pod") ∷ []

abbrev used : List (EdgeType × Text)
used = (references, txt "Pod") ∷ []

abbrev config_map : Text
config_map = txt "ConfigMap"

owned_orphan : is_resource_orphan config_map (txt "m") none (context owned none) ≡ true
unfolding is_resource_orphan get_handler lookup resource_registry text_beq normalize_kind kind_names
    to_lowercase matches config_map_exception_pattern evaluate
owned_orphan = refl

is_resource_orphan_antitone_example :
    is_resource_orphan config_map (txt "m") none (with_refs (context owned none) []) ≡ true
is_resource_orphan_antitone_example =
    is_resource_orphan_antitone config_map (txt "m") none (context owned none) []
      (λ x m. absurd (Memᴰ.not-nil m)) owned_orphan

evaluate_antitone_example : evaluate no_incoming_refs (with_refs (context owned none) []) ≡ true
unfolding evaluate
evaluate_antitone_example =
    evaluate_antitone (context owned none) [] no_incoming_refs (λ x m. absurd (Memᴰ.not-nil m)) refl

lower_config_map : to_lowercase config_map ≡ txt "configmap"
unfolding to_lowercase lower_byte
lower_config_map = refl

lower_secret : to_lowercase (txt "Secret") ≡ txt "secret"
unfolding to_lowercase lower_byte
lower_secret = refl

abbrev volume_claim : Text
volume_claim = txt "PersistentVolumeClaim"

abbrev claim_handler : ResourceHandler
claim_handler = record {
  extract_relations = extract_pvc_relations;
  orphan_rule = some pvc_orphan_rule;
}

claim_handled : get_handler volume_claim ≡ some claim_handler
unfolding get_handler lookup resource_registry text_beq normalize_kind kind_names to_lowercase
claim_handled = refl

claim_plain :
    (is_exception pvc_orphan_rule.exception (txt "v") none ≡ false)
    × (not_service_account_token none none ≡ true)
unfolding is_exception not_service_account_token no_token_label
claim_plain = (refl, refl)

unreferenced-orphan_example :
    is_resource_orphan volume_claim (txt "v") none (context [] none) ≡ true
unreferenced-orphan_example =
    unreferenced-orphan volume_claim (txt "v") none (context [] none) claim_handler pvc_orphan_rule
      claim_handled refl claim_plain.0 claim_plain.1 refl

abbrev source : EnvVarSource
source = record { config_map_key_ref = some (txt "m"); secret_key_ref = none }

abbrev variable : EnvVar
variable = record { value_from = some source }

abbrev main : Container
main = record { env = some (variable ∷ []); env_from = none }

abbrev spec : PodSpec
spec = record {
  node_name = none;
  priority_class_name = none;
  runtime_class_name = none;
  service_account_name = none;
  volumes = none;
  containers = main ∷ [];
  init_containers = none;
  ephemeral_containers = none;
  image_pull_secrets = none;
}

abbrev here : Option Text
here = some (txt "d")
