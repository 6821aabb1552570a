-- ===== src/Lineage/Registry/Rules.antt =====
-- lineage/registry.rs: the orphan rule of each kind of resource.
use kubectl_nvim.Prelude.{none, some, [], ◌∷◌, txt}
use kubectl_nvim.Lineage.Orphan.Condition.{
  OrphanRule, pattern_spec, function_spec, no_incoming_refs, no_incoming_from, has_missing_ref,
  no_owner, is_service_account_token, and_all, or_any, nil, cons, is_exception_role_binding,
}
use kubectl_nvim.Lineage.Orphan.Patterns.{
  cluster_role_binding_exception_pattern, cluster_role_exception_pattern,
  config_map_exception_pattern, secret_exception_pattern, service_account_exception_pattern,
  service_exception_pattern,
}

abbrev pub configmap_orphan_rule : OrphanRule
configmap_orphan_rule = record {
  exception = some (pattern_spec config_map_exception_pattern);
  condition = no_incoming_refs;
}

abbrev pub secret_orphan_rule : OrphanRule
secret_orphan_rule = record {
  exception = some (pattern_spec secret_exception_pattern);
  condition = and_all (cons is_service_account_token (cons no_incoming_refs nil));
}

abbrev pub service_orphan_rule : OrphanRule
service_orphan_rule = record {
  exception = some (pattern_spec service_exception_pattern);
  condition = no_incoming_from (
      txt "Pod"
      ∷ txt "Ingress"
      ∷ txt "ValidatingWebhookConfiguration"
      ∷ txt "MutatingWebhookConfiguration"
      ∷ txt "APIService"
      ∷ []);
}

abbrev pub service_account_orphan_rule : OrphanRule
service_account_orphan_rule = record {
  exception = some (pattern_spec service_account_exception_pattern);
  condition = no_incoming_from (
      txt "Pod"
      ∷ txt "Deployment"
      ∷ txt "StatefulSet"
      ∷ txt "DaemonSet"
      ∷ txt "Job"
      ∷ txt "CronJob"
      ∷ txt "ReplicaSet"
      ∷ txt "RoleBinding"
      ∷ txt "ClusterRoleBinding"
      ∷ []);
}

abbrev pub pvc_orphan_rule : OrphanRule
pvc_orphan_rule = record {
  exception = none;
  condition = no_incoming_from (txt "Pod" ∷ txt "StatefulSet" ∷ []);
}

abbrev pub pv_orphan_rule : OrphanRule
pv_orphan_rule = record {
  exception = none;
  condition = no_incoming_from (txt "PersistentVolumeClaim" ∷ []);
}

abbrev pub storage_class_orphan_rule : OrphanRule
storage_class_orphan_rule = record {
  exception = none;
  condition = no_incoming_from (txt "PersistentVolumeClaim" ∷ txt "PersistentVolume" ∷ []);
}

abbrev pub cluster_role_orphan_rule : OrphanRule
cluster_role_orphan_rule = record {
  exception = some (pattern_spec cluster_role_exception_pattern);
  condition = no_incoming_from (txt "RoleBinding" ∷ txt "ClusterRoleBinding" ∷ []);
}

abbrev pub role_orphan_rule : OrphanRule
role_orphan_rule = record {
  exception = none;
  condition = no_incoming_from (txt "RoleBinding" ∷ []);
}

abbrev pub cluster_role_binding_orphan_rule : OrphanRule
cluster_role_binding_orphan_rule = record {
  exception = some (pattern_spec cluster_role_binding_exception_pattern);
  condition = or_any (
      cons (no_incoming_from (txt "ClusterRole" ∷ []))
        (cons (has_missing_ref (txt "ServiceAccount")) nil));
}

abbrev pub role_binding_orphan_rule : OrphanRule
role_binding_orphan_rule = record {
  exception = some (function_spec is_exception_role_binding);
  condition = or_any (
      cons (no_incoming_from (txt "Role" ∷ txt "ClusterRole" ∷ []))
        (cons (has_missing_ref (txt "ServiceAccount")) nil));
}

abbrev pub hpa_orphan_rule : OrphanRule
hpa_orphan_rule = record {
  exception = none;
  condition = no_incoming_from (txt "Deployment" ∷ txt "StatefulSet" ∷ txt "ReplicaSet" ∷ []);
}

abbrev pub network_policy_orphan_rule : OrphanRule
network_policy_orphan_rule = record {
  exception = none;
  condition = no_incoming_from (txt "Pod" ∷ []);
}

abbrev pub pod_disruption_budget_orphan_rule : OrphanRule
pod_disruption_budget_orphan_rule = record {
  exception = none;
  condition = no_incoming_from (txt "Pod" ∷ []);
}

abbrev pub ingress_class_orphan_rule : OrphanRule
ingress_class_orphan_rule = record {
  exception = none;
  condition = no_incoming_from (txt "Ingress" ∷ []);
}

abbrev pub ingress_orphan_rule : OrphanRule
ingress_orphan_rule = record { exception = none; condition = no_incoming_from (txt "Service" ∷ []) }

abbrev pub replica_set_orphan_rule : OrphanRule
replica_set_orphan_rule = record {
  exception = none;
  condition = and_all (cons no_owner (cons (no_incoming_from (txt "Pod" ∷ [])) nil));
}
