-- ===== src/Examples/Sample.antt =====
-- A cluster with a deployment, a pod that it owns, and a config map to which the pod refers.
use kubectl_nvim.Prelude.{
  ℕ, ◌≡◌, refl, Text, txt, text_eq, Option, none, some, List, [], ◌∷◌, Bool, true, false, zero, suc,
  arith, get_elem?, Memᴰ, all, all_of_Memᴰ, ◌==◌, lookup, insert, contains_key, text_beq,
  lower_byte, to_lowercase, ◌≢◌, eq_ignore_ascii_case, starts_with, ends_with, is_some,
}
use kubectl_nvim.Lineage.Resource.{RelationRef, Resource, EdgeType, references}
use kubectl_nvim.Lineage.Graph.Interface.{Edge, DiGraph}
use kubectl_nvim.Lineage.Graph.Vectors.{vectors}
use kubectl_nvim.Lineage.Tree.Build.{Tree, new, add_node}
use kubectl_nvim.Lineage.Tree.WellFormed.{
  IsWellFormed, nodes, edges, add_node-IsWellFormed, new-IsWellFormed,
}
use kubectl_nvim.Lineage.Tree.Keys.{relation_ref, resource_key, relation_key, get_resource_key}
use kubectl_nvim.Lineage.Tree.Link.{
  link_nodes, for_each, selectors_match, owner_key, push_entry, owner_index, link_owner,
  build_ownership_edges, build_label_index, select_children, refer_both, link_selected,
  build_selector_edges, link_relation, link_explicit, build_explicit_relation_edges, set_missing,
  store_missing_refs, incoming_refs, mark_orphan, compute_orphan_status,
}
use kubectl_nvim.Lineage.Registry.Table.{get_handler, normalize_kind, kind_names, resource_registry}
use kubectl_nvim.Lineage.Registry.Orphans.{
  is_exception, rule_orphan, handler_orphan, is_resource_orphan,
}
use kubectl_nvim.Lineage.Orphan.Condition.{
  matches, matches_namespace, refers_from, not_service_account_token, no_token_label, evaluate,
  kube_system_binding, is_exception_role_binding,
}
use kubectl_nvim.Lineage.Orphan.Patterns.{config_map_exception_pattern}
use kubectl_nvim.Lineage.Tree.Referred.{target_of}
use kubectl_nvim.Lineage.Tree.Linked.{IsLinkable}

abbrev pub V : DiGraph Resource EdgeType
V = vectors Resource EdgeType

abbrev pub plain : Text → Text → Option Text → List RelationRef → List RelationRef → Resource
plain kind name namespace owners relations = record {
  kind = kind;
  name = name;
  namespace = namespace;
  api_version = none;
  uid = none;
  labels = none;
  selectors = none;
  owners = some owners;
  relations = some relations;
  is_orphan = false;
  resource_type = none;
  missing_refs = none;
}

abbrev here : Option Text
here = some (txt "d")

abbrev pub root : Resource
root = plain (txt "cluster") (txt "c") none [] []

abbrev pub deployment : Resource
deployment = plain (txt "Deployment") (txt "a") here [] []

abbrev pub pod : Resource
pod =
    plain (txt "Pod") (txt "p") here (relation_ref (txt "Deployment") (txt "a") here ∷ [])
      (relation_ref (txt "ConfigMap") (txt "m") here ∷ [])

abbrev pub config_map : Resource
config_map = plain (txt "ConfigMap") (txt "m") here [] []

abbrev pub sample : Tree V
sample = add_node V (add_node V (add_node V (new V root) deployment) pod) config_map

abbrev pub keys : List Text
keys = txt "deployment/d/a" ∷ txt "cluster/c" ∷ txt "pod/d/p" ∷ txt "configmap/d/m" ∷ []

pub sample-IsWellFormed : IsWellFormed V sample
sample-IsWellFormed =
    add_node-IsWellFormed V (add_node V (add_node V (new V root) deployment) pod) config_map (
      add_node-IsWellFormed V (add_node V (new V root) deployment) pod
        (add_node-IsWellFormed V (new V root) deployment (new-IsWellFormed V root)))

abbrev pub of_option : Option (Tree V) → Tree V
of_option none = sample
of_option (some t) = t

abbrev pub linked : Tree V
linked = of_option (link_nodes V sample keys)

pub linked_eq : link_nodes V sample keys ≡ some linked
unfolding link_nodes for_each selectors_match owner_key push_entry owner_index link_owner
    build_ownership_edges build_label_index select_children refer_both link_selected
    build_selector_edges link_relation link_explicit build_explicit_relation_edges set_missing
    store_missing_refs incoming_refs mark_orphan compute_orphan_status vectors new add_node
    relation_ref resource_key relation_key get_resource_key lookup insert contains_key text_beq
    lower_byte to_lowercase eq_ignore_ascii_case starts_with ends_with is_resource_orphan
    handler_orphan rule_orphan is_exception get_handler normalize_kind kind_names resource_registry
    matches matches_namespace refers_from not_service_account_token no_token_label evaluate
    kube_system_binding is_exception_role_binding config_map_exception_pattern
linked_eq = refl

pub mem_at : {A : Type 0} (xs : List A) (n : ℕ) (a : A) → get_elem? xs n ≡ some a → Memᴰ a xs
mem_at [] n a h = absurd (ground arith)
mem_at (x ∷ xs) zero a h = Memᴰ.head (cc h)
mem_at (x ∷ xs) (suc n) a h = Memᴰ.tail (mem_at xs n a h)

-- The edge from the pod to the config map.
abbrev pub mount : Edge EdgeType
mount = record { source = 2; target = 3; weight = references }

pub mount_linked : Memᴰ mount (edges V linked)
unfolding link_nodes for_each selectors_match owner_key push_entry owner_index link_owner
    build_ownership_edges build_label_index select_children refer_both link_selected
    build_selector_edges link_relation link_explicit build_explicit_relation_edges set_missing
    store_missing_refs incoming_refs mark_orphan compute_orphan_status vectors new add_node
    relation_ref resource_key relation_key get_resource_key lookup insert contains_key text_beq
    lower_byte to_lowercase eq_ignore_ascii_case starts_with ends_with is_resource_orphan
    handler_orphan rule_orphan is_exception get_handler normalize_kind kind_names resource_registry
    matches matches_namespace refers_from not_service_account_token no_token_label evaluate
    kube_system_binding is_exception_role_binding config_map_exception_pattern
mount_linked = mem_at (edges V linked) 3 mount refl

pub map_linked : get_elem? (nodes V linked) 3 ≡ some config_map
unfolding link_nodes for_each selectors_match owner_key push_entry owner_index link_owner
    build_ownership_edges build_label_index select_children refer_both link_selected
    build_selector_edges link_relation link_explicit build_explicit_relation_edges set_missing
    store_missing_refs incoming_refs mark_orphan compute_orphan_status vectors new add_node
    relation_ref resource_key relation_key get_resource_key lookup insert contains_key text_beq
    lower_byte to_lowercase eq_ignore_ascii_case starts_with ends_with is_resource_orphan
    handler_orphan rule_orphan is_exception get_handler normalize_kind kind_names resource_registry
    matches matches_namespace refers_from not_service_account_token no_token_label evaluate
    kube_system_binding is_exception_role_binding config_map_exception_pattern
map_linked = refl

pub map_key : lookup (txt "configmap/d/m") sample.key_to_index ≡ some 3
unfolding link_nodes for_each selectors_match owner_key push_entry owner_index link_owner
    build_ownership_edges build_label_index select_children refer_both link_selected
    build_selector_edges link_relation link_explicit build_explicit_relation_edges set_missing
    store_missing_refs incoming_refs mark_orphan compute_orphan_status vectors new add_node
    relation_ref resource_key relation_key get_resource_key lookup insert contains_key text_beq
    lower_byte to_lowercase eq_ignore_ascii_case starts_with ends_with is_resource_orphan
    handler_orphan rule_orphan is_exception get_handler normalize_kind kind_names resource_registry
    matches matches_namespace refers_from not_service_account_token no_token_label evaluate
    kube_system_binding is_exception_role_binding config_map_exception_pattern
map_key = refl

pub pod_key : lookup (txt "pod/d/p") sample.key_to_index ≡ some 2
unfolding link_nodes for_each selectors_match owner_key push_entry owner_index link_owner
    build_ownership_edges build_label_index select_children refer_both link_selected
    build_selector_edges link_relation link_explicit build_explicit_relation_edges set_missing
    store_missing_refs incoming_refs mark_orphan compute_orphan_status vectors new add_node
    relation_ref resource_key relation_key get_resource_key lookup insert contains_key text_beq
    lower_byte to_lowercase eq_ignore_ascii_case starts_with ends_with is_resource_orphan
    handler_orphan rule_orphan is_exception get_handler normalize_kind kind_names resource_registry
    matches matches_namespace refers_from not_service_account_token no_token_label evaluate
    kube_system_binding is_exception_role_binding config_map_exception_pattern
pod_key = refl

pub pod-sample : get_elem? (nodes V sample) 2 ≡ some pod
unfolding link_nodes for_each selectors_match owner_key push_entry owner_index link_owner
    build_ownership_edges build_label_index select_children refer_both link_selected
    build_selector_edges link_relation link_explicit build_explicit_relation_edges set_missing
    store_missing_refs incoming_refs mark_orphan compute_orphan_status vectors new add_node
    relation_ref resource_key relation_key get_resource_key lookup insert contains_key text_beq
    lower_byte to_lowercase eq_ignore_ascii_case starts_with ends_with is_resource_orphan
    handler_orphan rule_orphan is_exception get_handler normalize_kind kind_names resource_registry
    matches matches_namespace refers_from not_service_account_token no_token_label evaluate
    kube_system_binding is_exception_role_binding config_map_exception_pattern
pod-sample = refl

pub linked_pod_key : lookup (txt "pod/d/p") linked.key_to_index ≡ some 2
unfolding link_nodes for_each selectors_match owner_key push_entry owner_index link_owner
    build_ownership_edges build_label_index select_children refer_both link_selected
    build_selector_edges link_relation link_explicit build_explicit_relation_edges set_missing
    store_missing_refs incoming_refs mark_orphan compute_orphan_status vectors new add_node
    relation_ref resource_key relation_key get_resource_key lookup insert contains_key text_beq
    lower_byte to_lowercase eq_ignore_ascii_case starts_with ends_with is_resource_orphan
    handler_orphan rule_orphan is_exception get_handler normalize_kind kind_names resource_registry
    matches matches_namespace refers_from not_service_account_token no_token_label evaluate
    kube_system_binding is_exception_role_binding config_map_exception_pattern
linked_pod_key = refl

pub bare : edges V sample ≡ []
unfolding link_nodes for_each selectors_match owner_key push_entry owner_index link_owner
    build_ownership_edges build_label_index select_children refer_both link_selected
    build_selector_edges link_relation link_explicit build_explicit_relation_edges set_missing
    store_missing_refs incoming_refs mark_orphan compute_orphan_status vectors new add_node
    relation_ref resource_key relation_key get_resource_key lookup insert contains_key text_beq
    lower_byte to_lowercase eq_ignore_ascii_case starts_with ends_with is_resource_orphan
    handler_orphan rule_orphan is_exception get_handler normalize_kind kind_names resource_registry
    matches matches_namespace refers_from not_service_account_token no_token_label evaluate
    kube_system_binding is_exception_role_binding config_map_exception_pattern
bare = refl

pub off_root_pod : (txt "pod/d/p" == sample.root_key) ≡ false
unfolding link_nodes for_each selectors_match owner_key push_entry owner_index link_owner
    build_ownership_edges build_label_index select_children refer_both link_selected
    build_selector_edges link_relation link_explicit build_explicit_relation_edges set_missing
    store_missing_refs incoming_refs mark_orphan compute_orphan_status vectors new add_node
    relation_ref resource_key relation_key get_resource_key lookup insert contains_key text_beq
    lower_byte to_lowercase eq_ignore_ascii_case starts_with ends_with is_resource_orphan
    handler_orphan rule_orphan is_exception get_handler normalize_kind kind_names resource_registry
    matches matches_namespace refers_from not_service_account_token no_token_label evaluate
    kube_system_binding is_exception_role_binding config_map_exception_pattern
off_root_pod = refl

pub off_root_map : (txt "configmap/d/m" == sample.root_key) ≡ false
unfolding link_nodes for_each selectors_match owner_key push_entry owner_index link_owner
    build_ownership_edges build_label_index select_children refer_both link_selected
    build_selector_edges link_relation link_explicit build_explicit_relation_edges set_missing
    store_missing_refs incoming_refs mark_orphan compute_orphan_status vectors new add_node
    relation_ref resource_key relation_key get_resource_key lookup insert contains_key text_beq
    lower_byte to_lowercase eq_ignore_ascii_case starts_with ends_with is_resource_orphan
    handler_orphan rule_orphan is_exception get_handler normalize_kind kind_names resource_registry
    matches matches_namespace refers_from not_service_account_token no_token_label evaluate
    kube_system_binding is_exception_role_binding config_map_exception_pattern
off_root_map = refl

abbrev pub config_ref : RelationRef
config_ref = relation_ref (txt "ConfigMap") (txt "m") here

pub config_target : target_of V sample config_ref ≡ some 3
unfolding link_nodes for_each selectors_match owner_key push_entry owner_index link_owner
    build_ownership_edges build_label_index select_children refer_both link_selected
    build_selector_edges link_relation link_explicit build_explicit_relation_edges set_missing
    store_missing_refs incoming_refs mark_orphan compute_orphan_status vectors new add_node
    relation_ref resource_key relation_key get_resource_key lookup insert contains_key text_beq
    lower_byte to_lowercase eq_ignore_ascii_case starts_with ends_with is_resource_orphan
    handler_orphan rule_orphan is_exception get_handler normalize_kind kind_names resource_registry
    matches matches_namespace refers_from not_service_account_token no_token_label evaluate
    kube_system_binding is_exception_role_binding config_map_exception_pattern
config_target = refl

pub deployment_key : lookup (txt "deployment/d/a") sample.key_to_index ≡ some 1
unfolding link_nodes for_each selectors_match owner_key push_entry owner_index link_owner
    build_ownership_edges build_label_index select_children refer_both link_selected
    build_selector_edges link_relation link_explicit build_explicit_relation_edges set_missing
    store_missing_refs incoming_refs mark_orphan compute_orphan_status vectors new add_node
    relation_ref resource_key relation_key get_resource_key lookup insert contains_key text_beq
    lower_byte to_lowercase eq_ignore_ascii_case starts_with ends_with is_resource_orphan
    handler_orphan rule_orphan is_exception get_handler normalize_kind kind_names resource_registry
    matches matches_namespace refers_from not_service_account_token no_token_label evaluate
    kube_system_binding is_exception_role_binding config_map_exception_pattern
deployment_key = refl

pub off_root_linked : (txt "configmap/d/m" == linked.root_key) ≡ false
unfolding link_nodes for_each selectors_match owner_key push_entry owner_index link_owner
    build_ownership_edges build_label_index select_children refer_both link_selected
    build_selector_edges link_relation link_explicit build_explicit_relation_edges set_missing
    store_missing_refs incoming_refs mark_orphan compute_orphan_status vectors new add_node
    relation_ref resource_key relation_key get_resource_key lookup insert contains_key text_beq
    lower_byte to_lowercase eq_ignore_ascii_case starts_with ends_with is_resource_orphan
    handler_orphan rule_orphan is_exception get_handler normalize_kind kind_names resource_registry
    matches matches_namespace refers_from not_service_account_token no_token_label evaluate
    kube_system_binding is_exception_role_binding config_map_exception_pattern
off_root_linked = refl

abbrev key_known : Text → Bool
key_known k = is_some (lookup k sample.key_to_index)

all_known : all key_known keys ≡ true
unfolding link_nodes for_each selectors_match owner_key push_entry owner_index link_owner
    build_ownership_edges build_label_index select_children refer_both link_selected
    build_selector_edges link_relation link_explicit build_explicit_relation_edges set_missing
    store_missing_refs incoming_refs mark_orphan compute_orphan_status vectors new add_node
    relation_ref resource_key relation_key get_resource_key lookup insert contains_key text_beq
    lower_byte to_lowercase eq_ignore_ascii_case starts_with ends_with is_resource_orphan
    handler_orphan rule_orphan is_exception get_handler normalize_kind kind_names resource_registry
    matches matches_namespace refers_from not_service_account_token no_token_label evaluate
    kube_system_binding is_exception_role_binding config_map_exception_pattern
all_known = refl

from_some : {A : Type 0} (o : Option A) → is_some o ≡ true → (a : A) × (o ≡ some a)
from_some none h = absurd (ground arith)
from_some (some a) h = (a, refl)

pub sample-IsLinkable : IsLinkable V sample keys
sample-IsLinkable = record {
  formed = sample-IsWellFormed;
  bare = bare;
  known =
      λ k m. from_some (lookup k sample.key_to_index) (all_of_Memᴰ key_known k keys all_known m);
}

pub map_kind : to_lowercase config_map.kind ≡ txt "configmap"
unfolding link_nodes for_each selectors_match owner_key push_entry owner_index link_owner
    build_ownership_edges build_label_index select_children refer_both link_selected
    build_selector_edges link_relation link_explicit build_explicit_relation_edges set_missing
    store_missing_refs incoming_refs mark_orphan compute_orphan_status vectors new add_node
    relation_ref resource_key relation_key get_resource_key lookup insert contains_key text_beq
    lower_byte to_lowercase eq_ignore_ascii_case starts_with ends_with is_resource_orphan
    handler_orphan rule_orphan is_exception get_handler normalize_kind kind_names resource_registry
    matches matches_namespace refers_from not_service_account_token no_token_label evaluate
    kube_system_binding is_exception_role_binding config_map_exception_pattern
map_kind = refl

pub not_root : mount.source ≢ sample.root_index
unfolding link_nodes for_each selectors_match owner_key push_entry owner_index link_owner
    build_ownership_edges build_label_index select_children refer_both link_selected
    build_selector_edges link_relation link_explicit build_explicit_relation_edges set_missing
    store_missing_refs incoming_refs mark_orphan compute_orphan_status vectors new add_node
    relation_ref resource_key relation_key get_resource_key lookup insert contains_key text_beq
    lower_byte to_lowercase eq_ignore_ascii_case starts_with ends_with is_resource_orphan
    handler_orphan rule_orphan is_exception get_handler normalize_kind kind_names resource_registry
    matches matches_namespace refers_from not_service_account_token no_token_label evaluate
    kube_system_binding is_exception_role_binding config_map_exception_pattern
not_root h = omega arith
