-- ===== src/Examples/Keys.antt =====
-- The related items of a node of the sample.
use kubectl_nvim.Prelude.{
  ◌≡◌, refl, txt, text_eq, [], ◌∷◌, lookup, insert, contains_key, text_beq, lower_byte,
  to_lowercase, eq_ignore_ascii_case, starts_with, ends_with,
}
use kubectl_nvim.Lineage.Graph.Vectors.{vectors}
use kubectl_nvim.Lineage.Tree.Build.{new, add_node}
use kubectl_nvim.Lineage.Tree.Keys.{relation_ref, resource_key, relation_key, get_resource_key}
use kubectl_nvim.Lineage.Tree.Link.{
  link_nodes, for_each, selectors_match, owner_key, push_entry, owner_index, link_owner,
  build_ownership_edges, build_label_index, select_children, refer_both, link_selected,
  build_selector_edges, link_relation, link_explicit, build_explicit_relation_edges, set_missing,
  store_missing_refs, incoming_refs, mark_orphan, compute_orphan_status,
}
use kubectl_nvim.Lineage.Registry.Table.{get_handler, normalize_kind, kind_names, resource_registry}
use kubectl_nvim.Lineage.Registry.Orphans.{
  is_exception, rule_orphan, handler_orphan, is_resource_orphan,
}
use kubectl_nvim.Lineage.Orphan.Condition.{
  matches, matches_namespace, refers_from, not_service_account_token, no_token_label, evaluate,
  kube_system_binding, is_exception_role_binding,
}
use kubectl_nvim.Lineage.Orphan.Patterns.{config_map_exception_pattern}
use kubectl_nvim.Lineage.Query.Climb.{finished, ancestors, climb, climb_all}
use kubectl_nvim.Lineage.Query.Select.{
  descendants, select, owned_from, with_references, reference_targets,
}
use kubectl_nvim.Lineage.Query.Related.{subgraph_nodes}
use kubectl_nvim.Lineage.Tree.Views.{parent_of, get_key_for_index}
use kubectl_nvim.Lineage.Listing.Keys.{get_related_items, collect_keys}
use kubectl_nvim.Lineage.Listing.Collect.{collect}
use kubectl_nvim.Prelude.{extend, sort_by, text_cmp}
use kubectl_nvim.Examples.Sample.{V, linked}

-- The deployment of the pod, and what the pod refers to: each of them once.
three_items :
    get_related_items V linked 4 (txt "pod/d/p")
    ≡ finished (txt "configmap/d/m" ∷ txt "deployment/d/a" ∷ txt "pod/d/p" ∷ [])
unfolding link_nodes for_each selectors_match owner_key push_entry owner_index link_owner
    build_ownership_edges build_label_index select_children refer_both link_selected
    build_selector_edges link_relation link_explicit build_explicit_relation_edges set_missing
    store_missing_refs incoming_refs mark_orphan compute_orphan_status vectors new add_node
    relation_ref resource_key relation_key get_resource_key lookup insert contains_key text_beq
    lower_byte to_lowercase eq_ignore_ascii_case starts_with ends_with is_resource_orphan
    handler_orphan rule_orphan is_exception get_handler normalize_kind kind_names resource_registry
    matches matches_namespace refers_from not_service_account_token no_token_label evaluate
    kube_system_binding is_exception_role_binding config_map_exception_pattern get_related_items
    subgraph_nodes ancestors climb climb_all parent_of get_key_for_index descendants select
    owned_from with_references reference_targets extend collect_keys collect sort_by text_cmp
three_items = refl
