-- ===== src/Examples/Manifests.antt =====
-- A small `Json`, and the manifests of a pod and of a config map that it takes a value from.
use kubectl_nvim.Prelude.{
  ◌≡◌, refl, inl, inr, Text, txt, text_eq, ◌==◌, ℕ, HashMap, lookup, text_beq_iff, Option, none,
  some, List, [], ◌∷◌, map, Memᴰ, if◌then◌else◌, Bool-cases, arith,
}
use kubectl_nvim.Lineage.Tree.Link.{◌>>=◌}
use kubectl_nvim.Lineage.Relations.Spec.{PodSpec, EnvVarSource, EnvVar, Container}
use kubectl_nvim.Lineage.Relations.Objects.{Pod, Json}
use kubectl_nvim.Lineage.Builder.Build.{Iteration}
use mathlib.Core.List.Memᴰ

-- A value, and the entries of an object or an array, which has no use for the keys.
mutual
  pub data Value : Type 0 where
    string : Text → Value
    object array : Entries → Value

  pub data Entries : Type 0 where
    empty : Entries
    entry : Text → Value → Entries → Entries

abbrev pub find : Text → Entries → Option Value
find key empty = none
find key (entry k v rest) = let later = find key rest in if k == key then some v else later

abbrev pub listed : Entries → List (Text × Value)
listed empty = []
listed (entry k v rest) = (k, v) ∷ listed rest

abbrev pub member : Value → Text → Option Value
member (string s) key = none
member (object entries) key = find key entries
member (array entries) key = none

abbrev pub as_str : Value → Option Text
as_str (string s) = some s
as_str other = none

abbrev pub as_array : Value → Option (List Value)
as_array (array entries) = some (map (λ (e : Text × Value). e.1) (listed entries))
as_array other = none

abbrev pub as_object : Value → Option (List (Text × Value))
as_object (object entries) = some (listed entries)
as_object other = none

abbrev field : Text → Value → Option Text
field key v = member v key >>= as_str

-- A variable from a config map.
abbrev pub source : Option Text → EnvVarSource
source config = record { config_map_key_ref = config; secret_key_ref = none }

abbrev pub variable : Option Text → EnvVar
variable config = record { value_from = some (source config) }

abbrev pub main : Option Text → Container
main config = record { env = some (variable config ∷ []); env_from = none }

abbrev pub main_spec : Option Text → PodSpec
main_spec config = record {
  node_name = none;
  priority_class_name = none;
  runtime_class_name = none;
  service_account_name = none;
  volumes = none;
  containers = main config ∷ [];
  init_containers = none;
  ephemeral_containers = none;
  image_pull_secrets = none;
}

abbrev pub as_pod : Value → Option Pod
as_pod v = do
  metadata ← member v (txt "metadata")
  spec ← member v (txt "spec")
  some (record {
    namespace = field (txt "namespace") metadata;
    spec = some (main_spec (field (txt "config") spec));
  })

abbrev pub J : Json
J = record {
  Value = Value;
  get = member;
  as_str = as_str;
  as_array = as_array;
  as_object = as_object;
  pod = as_pod;
  deployment = λ v. none;
  replica_set = λ v. none;
  stateful_set = λ v. none;
  daemon_set = λ v. none;
  job = λ v. none;
  cron_job = λ v. none;
  ingress = λ v. none;
  ingress_class = λ v. none;
  persistent_volume_claim = λ v. none;
  persistent_volume = λ v. none;
  service_account = λ v. none;
  role_binding = λ v. none;
  cluster_role_binding = λ v. none;
  validating_webhook = λ v. none;
  mutating_webhook = λ v. none;
  api_service = λ v. none;
  horizontal_pod_autoscaler = λ v. none;
  event = λ v. none;
}

abbrev metadata_of : Text → Value
metadata_of name =
    object (entry (txt "name") (string name) (entry (txt "namespace") (string (txt "d")) empty))

abbrev pub pod_manifest : Value
pod_manifest = object (
    entry (txt "kind") (string (txt "Pod")) (
      entry (txt "metadata") (metadata_of (txt "p"))
        (entry (txt "spec") (object (entry (txt "config") (string (txt "m")) empty)) empty)))

abbrev pub config_manifest : Value
config_manifest = object (
    entry (txt "kind") (string (txt "ConfigMap"))
      (entry (txt "metadata") (metadata_of (txt "m")) empty))

abbrev pub manifests : List Value
manifests = pod_manifest ∷ config_manifest ∷ []

abbrev first_of : HashMap Text ℕ → List Text
first_of m = map (λ (e : Text × ℕ). e.0) m

pub mem_first :
    (m : HashMap Text ℕ) (k : Text) → Memᴰ k (first_of m) → (i : ℕ) × (lookup k m ≡ some i)
unfolding lookup
mem_first [] k h = absurd (Memᴰ.not-nil h)
mem_first ((j, v) ∷ m) k (Memᴰ.head same) = (v, ground (arith, text_beq_iff j k))
mem_first ((j, v) ∷ m) k (Memᴰ.tail h) = elim (Bool-cases (j == k)) [
  | inl same ↦ (v, rw same refl)
  | inr other ↦ let (i, at) = mem_first m k h in (i, rw other at)
]

pub lookup_mem : (m : HashMap Text ℕ) (k : Text) (i : ℕ) → lookup k m ≡ some i → Memᴰ k (first_of m)
unfolding lookup
lookup_mem [] k i h = absurd (ground arith)
lookup_mem ((j, v) ∷ m) k i h = elim (Bool-cases (j == k)) [
  | inl same ↦ Memᴰ.head (ground (arith, text_beq_iff j k))
  | inr other ↦ Memᴰ.tail (lookup_mem m k i (rw other at h))
]

-- Keys in the order of the association list.
abbrev pub iter : Iteration
iter = record { keys = first_of; keys_iff = λ m k. (mem_first m k, λ h. lookup_mem m k h.0 h.1) }
