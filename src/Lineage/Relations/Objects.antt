-- ===== src/Lineage/Relations/Objects.antt =====
-- The fields of the Kubernetes objects that lineage/registry.rs reads, and serde_json as far as
-- lineage/registry.rs and lineage/builder.rs call it. A reference by name alone is that name.
use kubectl_nvim.Prelude.{Text, Option, List}
use kubectl_nvim.Lineage.Relations.Spec.{PodSpec}

pub record ObjectReference : Type 0 where
  pub kind : Option Text
  pub name : Option Text
  pub namespace : Option Text
  pub api_version : Option Text
  pub uid : Option Text

pub record Pod : Type 0 where
  pub namespace : Option Text
  pub spec : Option PodSpec

pub record PodTemplateSpec : Type 0 where
  pub spec : Option PodSpec

-- The specification of a deployment, a daemon set or a job.
pub record TemplatedSpec : Type 0 where
  pub template : PodTemplateSpec

-- A deployment, a daemon set or a job.
pub record Templated : Type 0 where
  pub namespace : Option Text
  pub spec : Option TemplatedSpec

pub record ReplicaSetSpec : Type 0 where
  pub template : Option PodTemplateSpec

pub record ReplicaSet : Type 0 where
  pub namespace : Option Text
  pub spec : Option ReplicaSetSpec

pub record StatefulSetSpec : Type 0 where
  -- The names of the templates.
  pub volume_claim_templates : Option (List (Option Text))
  pub service_name : Option Text
  pub template : PodTemplateSpec

pub record StatefulSet : Type 0 where
  pub namespace : Option Text
  pub spec : Option StatefulSetSpec

pub record JobTemplateSpec : Type 0 where
  pub spec : Option TemplatedSpec

pub record CronJobSpec : Type 0 where
  pub job_template : JobTemplateSpec

pub record CronJob : Type 0 where
  pub namespace : Option Text
  pub spec : Option CronJobSpec

pub record TypedReference : Type 0 where
  pub kind : Text
  pub name : Text
  pub api_group : Option Text

pub record IngressBackend : Type 0 where
  pub service : Option Text
  pub resource : Option TypedReference

pub record IngressRule : Type 0 where
  -- The backends of the paths.
  pub http : Option (List IngressBackend)

pub record IngressSpec : Type 0 where
  pub ingress_class_name : Option Text
  pub default_backend : Option IngressBackend
  pub rules : Option (List IngressRule)
  -- The names of the secrets.
  pub tls : Option (List (Option Text))

pub record Ingress : Type 0 where
  pub namespace : Option Text
  pub spec : Option IngressSpec

pub record IngressClassParameters : Type 0 where
  pub kind : Text
  pub name : Text
  pub namespace : Option Text
  pub api_group : Option Text

pub record IngressClassSpec : Type 0 where
  pub parameters : Option IngressClassParameters

pub record IngressClass : Type 0 where
  pub spec : Option IngressClassSpec

pub record PersistentVolumeClaimSpec : Type 0 where
  pub volume_name : Option Text
  pub storage_class_name : Option Text

pub record PersistentVolumeClaim : Type 0 where
  pub spec : Option PersistentVolumeClaimSpec

pub record PersistentVolumeSpec : Type 0 where
  pub claim_ref : Option ObjectReference
  pub storage_class_name : Option Text

pub record PersistentVolume : Type 0 where
  pub spec : Option PersistentVolumeSpec

pub record ServiceAccount : Type 0 where
  pub namespace : Option Text
  pub secrets : Option (List ObjectReference)
  pub image_pull_secrets : Option (List Text)

pub record RoleRef : Type 0 where
  pub kind : Text
  pub name : Text
  pub api_group : Text

pub record Subject : Type 0 where
  pub kind : Text
  pub name : Text
  pub namespace : Option Text

-- A role binding or a cluster role binding.
pub record Binding : Type 0 where
  pub namespace : Option Text
  pub role_ref : RoleRef
  pub subjects : Option (List Subject)

pub record ServiceReference : Type 0 where
  pub name : Text
  pub namespace : Text

pub record Webhook : Type 0 where
  -- The field of `client_config`.
  pub service : Option ServiceReference

-- A validating or a mutating webhook configuration.
pub record WebhookConfiguration : Type 0 where
  pub webhooks : Option (List Webhook)

pub record ApiServiceReference : Type 0 where
  pub name : Option Text
  pub namespace : Option Text

pub record ApiServiceSpec : Type 0 where
  pub service : Option ApiServiceReference

pub record ApiService : Type 0 where
  pub spec : Option ApiServiceSpec

pub record CrossVersionObjectReference : Type 0 where
  pub kind : Text
  pub name : Text
  pub api_version : Option Text

pub record HorizontalPodAutoscalerSpec : Type 0 where
  pub scale_target_ref : CrossVersionObjectReference

pub record HorizontalPodAutoscaler : Type 0 where
  pub namespace : Option Text
  pub spec : Option HorizontalPodAutoscalerSpec

pub record Event : Type 0 where
  pub involved_object : ObjectReference
  pub related : Option ObjectReference

-- A parsed JSON text. The accessors are those of `Value`; each of the other fields is `from_value`
-- at one type, and `none` is its error.
pub record Json : Type 1 where
  pub Value : Type 0
  pub get : Value → Text → Option Value
  pub as_str : Value → Option Text
  pub as_array : Value → Option (List Value)
  pub as_object : Value → Option (List (Text × Value))
  pub pod : Value → Option Pod
  pub deployment : Value → Option Templated
  pub replica_set : Value → Option ReplicaSet
  pub stateful_set : Value → Option StatefulSet
  pub daemon_set : Value → Option Templated
  pub job : Value → Option Templated
  pub cron_job : Value → Option CronJob
  pub ingress : Value → Option Ingress
  pub ingress_class : Value → Option IngressClass
  pub persistent_volume_claim : Value → Option PersistentVolumeClaim
  pub persistent_volume : Value → Option PersistentVolume
  pub service_account : Value → Option ServiceAccount
  pub role_binding : Value → Option Binding
  pub cluster_role_binding : Value → Option Binding
  pub validating_webhook : Value → Option WebhookConfiguration
  pub mutating_webhook : Value → Option WebhookConfiguration
  pub api_service : Value → Option ApiService
  pub horizontal_pod_autoscaler : Value → Option HorizontalPodAutoscaler
  pub event : Value → Option Event
