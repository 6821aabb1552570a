-- ===== src/Lineage/Relations/Handlers.antt =====
-- lineage/registry.rs: the extraction functions that the table of handlers names, each by its
-- closure, and lineage/relationships.rs.
use kubectl_nvim.Prelude.{
  Text, txt, text_eq, ◌==◌, Option, none, some, List, [], ◌∷◌, ◌++◌, flat_map, unwrap_or,
  if◌then◌else◌,
}
use kubectl_nvim.Lineage.Resource.{RelationRef}
use kubectl_nvim.Lineage.Tree.Keys.{relation_ref}
use kubectl_nvim.Lineage.Relations.Extract.{when_some, named, extract_pod_spec_relations}
use kubectl_nvim.Lineage.Relations.Objects.{
  ObjectReference, Pod, PodTemplateSpec, Templated, ReplicaSet, StatefulSet, CronJob,
  TypedReference, IngressBackend, IngressRule, Ingress, IngressClass, PersistentVolumeClaim,
  PersistentVolume, ServiceAccount, Subject, Binding, Webhook, WebhookConfiguration, ApiService,
  HorizontalPodAutoscaler, Event, Json,
}
use kubectl_nvim.Lineage.Registry.Table

-- The method `api`.
abbrev pub api : Option Text → RelationRef → RelationRef
api version r = record r { api_version = version }

abbrev full_relation : ObjectReference → Text → Text → RelationRef
full_relation r kind name = record {
  kind = kind;
  name = name;
  namespace = r.namespace;
  api_version = r.api_version;
  uid = r.uid;
}

-- `object_ref_to_relation`, and the push of what it gives.
unfoldable pub object_ref_to_relation : ObjectReference → List RelationRef
object_ref_to_relation r =
    when_some r.kind (λ kind. when_some r.name (λ name. full_relation r kind name ∷ []))

unfoldable pub pod_relations : Pod → List RelationRef
pod_relations pod = when_some pod.spec (λ spec.
    named (txt "Node") none spec.node_name
    ++ (named (txt "PriorityClass") none spec.priority_class_name
        ++ (named (txt "RuntimeClass") none spec.runtime_class_name
            ++ extract_pod_spec_relations spec pod.namespace)))

abbrev pub template_relations : Option Text → PodTemplateSpec → List RelationRef
template_relations namespace template =
    when_some template.spec (λ pod_spec. extract_pod_spec_relations pod_spec namespace)

-- Deployments, daemon sets and jobs.
unfoldable pub templated_relations : Templated → List RelationRef
templated_relations owner =
    when_some owner.spec (λ spec. template_relations owner.namespace spec.template)

unfoldable pub replicaset_relations : ReplicaSet → List RelationRef
replicaset_relations rs =
    when_some rs.spec (λ spec. when_some spec.template (template_relations rs.namespace))

unfoldable pub statefulset_relations : StatefulSet → List RelationRef
statefulset_relations sts = when_some sts.spec (λ spec.
    flat_map (named (txt "PersistentVolumeClaim") sts.namespace)
      (unwrap_or [] spec.volume_claim_templates)
    ++ (named (txt "Service") sts.namespace spec.service_name
        ++ template_relations sts.namespace spec.template))

unfoldable pub cronjob_relations : CronJob → List RelationRef
cronjob_relations cronjob = when_some cronjob.spec (λ spec.
    when_some spec.job_template.spec
      (λ job_spec. template_relations cronjob.namespace job_spec.template))

abbrev pub typed_relation : Option Text → TypedReference → RelationRef
typed_relation namespace resource =
    api resource.api_group (relation_ref resource.kind resource.name namespace)

abbrev pub backend_relations : Option Text → IngressBackend → List RelationRef
backend_relations namespace backend =
    named (txt "Service") namespace backend.service
    ++ when_some backend.resource (λ resource. typed_relation namespace resource ∷ [])

abbrev pub rule_relations : Option Text → IngressRule → List RelationRef
rule_relations namespace rule = when_some rule.http (flat_map (backend_relations namespace))

unfoldable pub ingress_relations : Ingress → List RelationRef
ingress_relations ingress = when_some ingress.spec (λ spec.
    named (txt "IngressClass") none spec.ingress_class_name
    ++ (when_some spec.default_backend (backend_relations ingress.namespace)
        ++ (flat_map (rule_relations ingress.namespace) (unwrap_or [] spec.rules)
            ++ flat_map (named (txt "Secret") ingress.namespace) (unwrap_or [] spec.tls))))

unfoldable pub ingressclass_relations : IngressClass → List RelationRef
ingressclass_relations ingress_class = when_some ingress_class.spec (λ spec.
    when_some spec.parameters (λ p. api p.api_group (relation_ref p.kind p.name p.namespace) ∷ []))

unfoldable pub pvc_relations : PersistentVolumeClaim → List RelationRef
pvc_relations pvc = when_some pvc.spec (λ spec.
    named (txt "PersistentVolume") none spec.volume_name
    ++ named (txt "StorageClass") none spec.storage_class_name)

unfoldable pub pv_relations : PersistentVolume → List RelationRef
unfolding object_ref_to_relation
pv_relations pv = when_some pv.spec (λ spec.
    when_some spec.claim_ref object_ref_to_relation
    ++ named (txt "StorageClass") none spec.storage_class_name)

unfoldable pub serviceaccount_relations : ServiceAccount → List RelationRef
serviceaccount_relations sa =
    flat_map (λ (r : ObjectReference). named (txt "Secret") sa.namespace r.name)
      (unwrap_or [] sa.secrets)
    ++ flat_map (λ name. relation_ref (txt "Secret") name sa.namespace ∷ [])
        (unwrap_or [] sa.image_pull_secrets)

abbrev pub subject_relations : Subject → List RelationRef
subject_relations subject =
    if subject.kind == txt "ServiceAccount"
    then relation_ref (txt "ServiceAccount") subject.name subject.namespace ∷ []
    else []

abbrev pub role_relation : Binding → Option Text → RelationRef
role_relation b namespace =
    api (some b.role_ref.api_group) (relation_ref b.role_ref.kind b.role_ref.name namespace)

unfoldable pub rolebinding_relations : Binding → List RelationRef
rolebinding_relations rb =
    role_relation rb (if rb.role_ref.kind == txt "Role" then rb.namespace else none)
    ∷ flat_map subject_relations (unwrap_or [] rb.subjects)

unfoldable pub clusterrolebinding_relations : Binding → List RelationRef
clusterrolebinding_relations crb =
    (if crb.role_ref.kind == txt "ClusterRole" then role_relation crb none ∷ [] else [])
    ++ flat_map subject_relations (unwrap_or [] crb.subjects)

abbrev pub webhook_relations : Webhook → List RelationRef
webhook_relations w =
    when_some w.service (λ s. relation_ref (txt "Service") s.name (some s.namespace) ∷ [])

-- Validating and mutating configurations.
unfoldable pub webhooks_relations : WebhookConfiguration → List RelationRef
webhooks_relations wc = flat_map webhook_relations (unwrap_or [] wc.webhooks)

unfoldable pub apiservice_relations : ApiService → List RelationRef
apiservice_relations api_service = when_some api_service.spec (λ spec.
    when_some spec.service (λ service. named (txt "Service") service.namespace service.name))

unfoldable pub hpa_relations : HorizontalPodAutoscaler → List RelationRef
hpa_relations hpa = when_some hpa.spec (λ spec.
    let target = spec.scale_target_ref in
    api target.api_version (relation_ref target.kind target.name hpa.namespace) ∷ [])

unfoldable pub event_relations : Event → List RelationRef
unfolding object_ref_to_relation
event_relations event =
    object_ref_to_relation event.involved_object ++ when_some event.related object_ref_to_relation

module _ (J : Json) where
  -- `deserialize_and_extract`, for each entry of the table.
  unfoldable pub extract : Table.Extractor → J.Value → List RelationRef
  extract Table.extract_pod_relations item = when_some (J.pod item) pod_relations
  extract Table.extract_deployment_relations item =
      when_some (J.deployment item) templated_relations
  extract Table.extract_replicaset_relations item =
      when_some (J.replica_set item) replicaset_relations
  extract Table.extract_statefulset_relations item =
      when_some (J.stateful_set item) statefulset_relations
  extract Table.extract_daemonset_relations item = when_some (J.daemon_set item) templated_relations
  extract Table.extract_job_relations item = when_some (J.job item) templated_relations
  extract Table.extract_cronjob_relations item = when_some (J.cron_job item) cronjob_relations
  extract Table.empty_relations item = []
  extract Table.extract_ingress_relations item = when_some (J.ingress item) ingress_relations
  extract Table.extract_ingressclass_relations item =
      when_some (J.ingress_class item) ingressclass_relations
  extract Table.extract_pvc_relations item =
      when_some (J.persistent_volume_claim item) pvc_relations
  extract Table.extract_pv_relations item = when_some (J.persistent_volume item) pv_relations
  extract Table.extract_serviceaccount_relations item =
      when_some (J.service_account item) serviceaccount_relations
  extract Table.extract_rolebinding_relations item =
      when_some (J.role_binding item) rolebinding_relations
  extract Table.extract_clusterrolebinding_relations item =
      when_some (J.cluster_role_binding item) clusterrolebinding_relations
  extract Table.extract_validatingwebhook_relations item =
      when_some (J.validating_webhook item) webhooks_relations
  extract Table.extract_mutatingwebhook_relations item =
      when_some (J.mutating_webhook item) webhooks_relations
  extract Table.extract_apiservice_relations item =
      when_some (J.api_service item) apiservice_relations
  extract Table.extract_hpa_relations item =
      when_some (J.horizontal_pod_autoscaler item) hpa_relations
  extract Table.extract_event_relations item = when_some (J.event item) event_relations

  unfoldable pub extract_relationships : Text → J.Value → List RelationRef
  unfolding extract
  extract_relationships kind item =
      when_some (Table.get_handler kind) (λ handler. extract handler.extract_relations item)
