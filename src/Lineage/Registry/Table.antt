-- ===== src/Lineage/Registry/Table.antt =====
-- lineage/registry.rs: the table of resource handlers.
use kubectl_nvim.Prelude.{
  Option, none, some, [], ◌∷◌, Text, txt, text_eq, to_lowercase, lookup, HashMap,
}
use kubectl_nvim.Lineage.Orphan.Condition.{OrphanRule}
use kubectl_nvim.Lineage.Registry.Rules.{
  configmap_orphan_rule, secret_orphan_rule, service_orphan_rule, service_account_orphan_rule,
  pvc_orphan_rule, pv_orphan_rule, storage_class_orphan_rule, cluster_role_orphan_rule,
  role_orphan_rule, cluster_role_binding_orphan_rule, role_binding_orphan_rule, hpa_orphan_rule,
  network_policy_orphan_rule, pod_disruption_budget_orphan_rule, ingress_class_orphan_rule,
  ingress_orphan_rule, replica_set_orphan_rule,
}

-- The extraction functions, by name: the table holds pointers to them.
pub data Extractor : Type 0 where
  extract_pod_relations extract_deployment_relations extract_replicaset_relations
        extract_statefulset_relations extract_daemonset_relations extract_job_relations
        extract_cronjob_relations empty_relations extract_ingress_relations
        extract_ingressclass_relations extract_pvc_relations extract_pv_relations
        extract_serviceaccount_relations extract_rolebinding_relations
        extract_clusterrolebinding_relations extract_validatingwebhook_relations
        extract_mutatingwebhook_relations extract_apiservice_relations extract_hpa_relations
        extract_event_relations :
      Extractor

pub record ResourceHandler : Type 0 where
  pub extract_relations : Extractor
  pub orphan_rule : Option OrphanRule

-- The arms of `normalize_kind`.
unfoldable pub kind_names : HashMap Text Text
kind_names =
    (txt "configmap", txt "ConfigMap")
    ∷ (txt "secret", txt "Secret")
    ∷ (txt "service", txt "Service")
    ∷ (txt "serviceaccount", txt "ServiceAccount")
    ∷ (txt "persistentvolumeclaim", txt "PersistentVolumeClaim")
    ∷ (txt "persistentvolume", txt "PersistentVolume")
    ∷ (txt "storageclass", txt "StorageClass")
    ∷ (txt "role", txt "Role")
    ∷ (txt "rolebinding", txt "RoleBinding")
    ∷ (txt "clusterrole", txt "ClusterRole")
    ∷ (txt "clusterrolebinding", txt "ClusterRoleBinding")
    ∷ (txt "networkpolicy", txt "NetworkPolicy")
    ∷ (txt "poddisruptionbudget", txt "PodDisruptionBudget")
    ∷ (txt "ingressclass", txt "IngressClass")
    ∷ (txt "ingress", txt "Ingress")
    ∷ (txt "horizontalpodautoscaler", txt "HorizontalPodAutoscaler")
    ∷ (txt "replicaset", txt "ReplicaSet")
    ∷ (txt "pod", txt "Pod")
    ∷ (txt "deployment", txt "Deployment")
    ∷ (txt "statefulset", txt "StatefulSet")
    ∷ (txt "daemonset", txt "DaemonSet")
    ∷ (txt "job", txt "Job")
    ∷ (txt "cronjob", txt "CronJob")
    ∷ (txt "event", txt "Event")
    ∷ (txt "node", txt "Node")
    ∷ (txt "namespace", txt "Namespace")
    ∷ (txt "endpointslice", txt "EndpointSlice")
    ∷ (txt "validatingwebhookconfiguration", txt "ValidatingWebhookConfiguration")
    ∷ (txt "mutatingwebhookconfiguration", txt "MutatingWebhookConfiguration")
    ∷ (txt "apiservice", txt "APIService")
    ∷ []

abbrev pub or_else : Option Text → Text → Text
or_else none d = d
or_else (some a) d = a

unfoldable pub normalize_kind : Text → Text
normalize_kind kind = or_else (lookup (to_lowercase kind) kind_names) kind

abbrev handler : Extractor → Option OrphanRule → ResourceHandler
handler f r = record { extract_relations = f; orphan_rule = r }

unfoldable pub resource_registry : HashMap Text ResourceHandler
resource_registry =
    (txt "Pod", handler extract_pod_relations none)
    ∷ (txt "Deployment", handler extract_deployment_relations none)
    ∷ (txt "ReplicaSet", handler extract_replicaset_relations (some replica_set_orphan_rule))
    ∷ (txt "StatefulSet", handler extract_statefulset_relations none)
    ∷ (txt "DaemonSet", handler extract_daemonset_relations none)
    ∷ (txt "Job", handler extract_job_relations none)
    ∷ (txt "CronJob", handler extract_cronjob_relations none)
    ∷ (txt "Service", handler empty_relations (some service_orphan_rule))
    ∷ (txt "Ingress", handler extract_ingress_relations (some ingress_orphan_rule))
    ∷ (txt "IngressClass", handler extract_ingressclass_relations (some ingress_class_orphan_rule))
    ∷ (txt "NetworkPolicy", handler empty_relations (some network_policy_orphan_rule))
    ∷ (txt "EndpointSlice", handler empty_relations none)
    ∷ (txt "ConfigMap", handler empty_relations (some configmap_orphan_rule))
    ∷ (txt "Secret", handler empty_relations (some secret_orphan_rule))
    ∷ (txt "PersistentVolumeClaim", handler extract_pvc_relations (some pvc_orphan_rule))
    ∷ (txt "PersistentVolume", handler extract_pv_relations (some pv_orphan_rule))
    ∷ (txt "StorageClass", handler empty_relations (some storage_class_orphan_rule))
    ∷ (
      txt "ServiceAccount",
      handler extract_serviceaccount_relations (some service_account_orphan_rule),
    )
    ∷ (txt "Role", handler empty_relations (some role_orphan_rule))
    ∷ (txt "RoleBinding", handler extract_rolebinding_relations (some role_binding_orphan_rule))
    ∷ (txt "ClusterRole", handler empty_relations (some cluster_role_orphan_rule))
    ∷ (
      txt "ClusterRoleBinding",
      handler extract_clusterrolebinding_relations (some cluster_role_binding_orphan_rule),
    )
    ∷ (txt "ValidatingWebhookConfiguration", handler extract_validatingwebhook_relations none)
    ∷ (txt "MutatingWebhookConfiguration", handler extract_mutatingwebhook_relations none)
    ∷ (txt "APIService", handler extract_apiservice_relations none)
    ∷ (txt "HorizontalPodAutoscaler", handler extract_hpa_relations (some hpa_orphan_rule))
    ∷ (txt "PodDisruptionBudget", handler empty_relations (some pod_disruption_budget_orphan_rule))
    ∷ (txt "Namespace", handler empty_relations none)
    ∷ (txt "Node", handler empty_relations none)
    ∷ (txt "Event", handler extract_event_relations none)
    ∷ []

unfoldable pub get_handler : Text → Option ResourceHandler
get_handler kind = lookup (normalize_kind kind) resource_registry
