-- ===== src/Lineage/Relations/Spec.antt =====
-- The fields of a Kubernetes `PodSpec` that lineage/resource_behavior.rs and lineage/registry.rs
-- read. A reference to an object by its name alone is that name.
use kubectl_nvim.Prelude.{Text, Option, List}

pub record EnvVarSource : Type 0 where
  pub config_map_key_ref : Option Text
  pub secret_key_ref : Option Text

pub record EnvVar : Type 0 where
  pub value_from : Option EnvVarSource

pub record EnvFromSource : Type 0 where
  pub config_map_ref : Option Text
  pub secret_ref : Option Text

pub record Container : Type 0 where
  pub env : Option (List EnvVar)
  pub env_from : Option (List EnvFromSource)

pub record EphemeralContainer : Type 0 where
  pub env : Option (List EnvVar)
  pub env_from : Option (List EnvFromSource)

-- The trait `HasEnv`.
pub record HasEnv (C : Type 0) : Type 0 where
  pub env : C → Option (List EnvVar)
  pub env_from : C → Option (List EnvFromSource)

instance abbrev pub container_env : HasEnv Container
container_env = record { env = λ c. c.env; env_from = λ c. c.env_from }

instance abbrev pub ephemeral_env : HasEnv EphemeralContainer
ephemeral_env = record { env = λ c. c.env; env_from = λ c. c.env_from }

pub record Secret : Type 0 where
  pub secret_name : Option Text

pub record Csi : Type 0 where
  pub driver : Text
  pub node_publish_secret_ref : Option Text

pub record ProjectedSource : Type 0 where
  pub config_map : Option Text
  pub secret : Option Text

pub record Projected : Type 0 where
  pub sources : Option (List ProjectedSource)

pub record Volume : Type 0 where
  pub config_map : Option Text
  pub secret : Option Secret
  -- The claim's name.
  pub persistent_volume_claim : Option Text
  pub csi : Option Csi
  pub projected : Option Projected

pub record PodSpec : Type 0 where
  pub node_name : Option Text
  pub priority_class_name : Option Text
  pub runtime_class_name : Option Text
  pub service_account_name : Option Text
  pub volumes : Option (List Volume)
  pub containers : List Container
  pub init_containers : Option (List Container)
  pub ephemeral_containers : Option (List EphemeralContainer)
  pub image_pull_secrets : Option (List Text)
