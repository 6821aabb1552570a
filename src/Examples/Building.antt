-- ===== src/Examples/Building.antt =====
-- The theorems on the builder and on extracted relations, applied to two manifests.
use mathlib.Core.List.Memᴰ
use kubectl_nvim.Prelude.{
  ◌≡◌, refl, Text, txt, text_eq, text_beq, ◌==◌, lower_byte, to_lowercase, lookup, insert,
  contains_key, eq_ignore_ascii_case, starts_with, ends_with, Option, none, some, List, [], ◌∷◌,
  Memᴰ, true, false, get_elem?, inl, inr, arith, ap, sym, text_beq_iff, ◌∙◌, sort_by, text_cmp,
}
use kubectl_nvim.Lineage.Resource.{Resource}
use kubectl_nvim.Lineage.Graph.Vectors.{vectors}
use kubectl_nvim.Lineage.Tree.Keys.{relation_ref, resource_key, relation_key, get_resource_key}
use kubectl_nvim.Lineage.Tree.Build.{Tree, new, add_node}
use kubectl_nvim.Lineage.Tree.WellFormed.{nodes}
use kubectl_nvim.Lineage.Registry.Table.{
  ResourceHandler, get_handler, normalize_kind, kind_names, resource_registry,
}
use kubectl_nvim.Lineage.Registry.Table
use kubectl_nvim.Lineage.Tree.Link.{
  link_nodes, for_each, selectors_match, owner_key, push_entry, owner_index, link_owner,
  build_ownership_edges, build_label_index, select_children, refer_both, link_selected,
  build_selector_edges, link_relation, link_explicit, build_explicit_relation_edges, set_missing,
  store_missing_refs, incoming_refs, mark_orphan, compute_orphan_status,
}
use kubectl_nvim.Lineage.Registry.Orphans.{
  is_exception, rule_orphan, handler_orphan, is_resource_orphan,
}
use kubectl_nvim.Lineage.Orphan.Condition.{
  matches, matches_namespace, refers_from, not_service_account_token, no_token_label, evaluate,
  kube_system_binding, is_exception_role_binding,
}
use kubectl_nvim.Lineage.Orphan.Patterns.{config_map_exception_pattern}
use kubectl_nvim.Lineage.Relations.Spec.{PodSpec}
use kubectl_nvim.Lineage.Relations.Extract.{
  extract_pod_spec_relations, extract_env_relations, extract_volume_relations,
}
use kubectl_nvim.Lineage.Relations.Uses.{PodUses, container, var_config_map}
use kubectl_nvim.Lineage.Relations.Handlers.{extract, pod_relations, extract_relationships}
use kubectl_nvim.Lineage.Relations.Templates.{pod_of, extract_uses_found}
use kubectl_nvim.Lineage.Relations.Scopes.{is_scoped, extract_scoped}
use kubectl_nvim.Lineage.Builder.Parse.{
  parse_resource_typed, parse_labels, parse_selectors, parse_owner, parse_owners,
}
use kubectl_nvim.Lineage.Builder.Build.{root_resource, tree_of, build_tree}
use kubectl_nvim.Lineage.Builder.Nodes.{SerializableNode}
use kubectl_nvim.Lineage.Builder.Reported.{Reports}
use kubectl_nvim.Lineage.Builder.Store.{Store, empty_store, answered, build_lineage_graph_worker}
use kubectl_nvim.Lineage.Builder.Calls.{
  Call, build, related, impact, orphans, after_all, last_built, after_all_last,
  build_lineage_graph_worker_total,
}
use kubectl_nvim.Lineage.Builder.Kept.{used_config_kept, parsed_all, Alone}
use kubectl_nvim.Examples.Sample.{V}
use kubectl_nvim.Examples.Manifests.{
  J, iter, pod_manifest, config_manifest, manifests, main_spec, main, variable, source,
}

abbrev pod_handler : Table.Extractor
pod_handler = Table.extract_pod_relations

abbrev named : Option Text
named = some (txt "m")

abbrev spec : PodSpec
spec = main_spec named

abbrev here : Option Text
here = some (txt "d")

-- The pod takes a variable from the config map.
uses : PodUses spec (txt "ConfigMap") (txt "m")
uses =
    container (main named) (Memᴰ.head refl)
      (var_config_map (variable named) (source named) (txt "m") (Memᴰ.head refl) refl refl)

extract_uses_found_example :
    Memᴰ (relation_ref (txt "ConfigMap") (txt "m") here) (extract J pod_handler pod_manifest)
unfolding text_beq
extract_uses_found_example =
    extract_uses_found J pod_handler pod_manifest here spec (txt "ConfigMap") (txt "m") refl uses

extract_scoped_example : is_scoped here (relation_ref (txt "ConfigMap") (txt "m") here) ≡ true
unfolding text_beq
extract_scoped_example =
    extract_scoped J pod_handler pod_manifest here (relation_ref (txt "ConfigMap") (txt "m") here)
      refl extract_uses_found_example

abbrev of_resource : Option Resource → Resource
of_resource none = root_resource (txt "c")
of_resource (some r) = r

abbrev pod : Resource
pod = of_resource (parse_resource_typed J pod_manifest)

abbrev config_map : Resource
config_map = of_resource (parse_resource_typed J config_manifest)

abbrev unbuilt : Tree V
unbuilt = new V (root_resource (txt "c"))

abbrev of_tree : Option (Tree V) → Tree V
of_tree none = unbuilt
of_tree (some t) = t

abbrev built : Tree V
built = of_tree (build_tree V iter J manifests (txt "c"))

abbrev flagged : Resource
flagged = of_resource (get_elem? (nodes V built) 2)

abbrev handler : ResourceHandler
handler = record { extract_relations = Table.extract_pod_relations; orphan_rule = none }

built_eq : build_tree V iter J manifests (txt "c") ≡ some built
unfolding link_nodes for_each selectors_match owner_key push_entry owner_index link_owner
    build_ownership_edges build_label_index select_children refer_both link_selected
    build_selector_edges link_relation link_explicit build_explicit_relation_edges set_missing
    store_missing_refs incoming_refs mark_orphan compute_orphan_status vectors new add_node
    relation_ref resource_key relation_key get_resource_key lookup insert contains_key text_beq
    lower_byte to_lowercase eq_ignore_ascii_case starts_with ends_with is_resource_orphan
    handler_orphan rule_orphan is_exception get_handler normalize_kind kind_names resource_registry
    matches matches_namespace refers_from not_service_account_token no_token_label evaluate
    kube_system_binding is_exception_role_binding config_map_exception_pattern build_tree tree_of
    root_resource parse_resource_typed parse_labels parse_selectors parse_owner parse_owners
    extract_relationships extract pod_relations extract_pod_spec_relations extract_env_relations
    extract_volume_relations
built_eq = refl

flagged_at : get_elem? (nodes V built) 2 ≡ some flagged
unfolding link_nodes for_each selectors_match owner_key push_entry owner_index link_owner
    build_ownership_edges build_label_index select_children refer_both link_selected
    build_selector_edges link_relation link_explicit build_explicit_relation_edges set_missing
    store_missing_refs incoming_refs mark_orphan compute_orphan_status vectors new add_node
    relation_ref resource_key relation_key get_resource_key lookup insert contains_key text_beq
    lower_byte to_lowercase eq_ignore_ascii_case starts_with ends_with is_resource_orphan
    handler_orphan rule_orphan is_exception get_handler normalize_kind kind_names resource_registry
    matches matches_namespace refers_from not_service_account_token no_token_label evaluate
    kube_system_binding is_exception_role_binding config_map_exception_pattern build_tree tree_of
    root_resource parse_resource_typed parse_labels parse_selectors parse_owner parse_owners
    extract_relationships extract pod_relations extract_pod_spec_relations extract_env_relations
    extract_volume_relations
flagged_at = refl

pod_parsed : parse_resource_typed J pod_manifest ≡ some pod
unfolding parse_resource_typed text_beq
pod_parsed = refl

handled : get_handler pod.kind ≡ some handler
unfolding get_handler lookup resource_registry text_beq normalize_kind kind_names to_lowercase
    parse_resource_typed
handled = refl

abbrev members : List Resource
members = parsed_all V iter J manifests (txt "c")

all_parsed : members ≡ pod ∷ config_map ∷ []
unfolding parse_resource_typed text_beq
all_parsed = refl

pod_listed : Memᴰ pod members
pod_listed = rw all_parsed (Memᴰ.head refl)

config_listed : Memᴰ config_map members
config_listed = rw all_parsed (Memᴰ.tail (Memᴰ.head refl))

apart : (get_resource_key config_map == get_resource_key pod) ≡ false
unfolding parse_resource_typed text_beq get_resource_key resource_key to_lowercase lower_byte
apart = refl

distinct : {A : Type 0} (k l : Text) → (k == l) ≡ false → k ≡ l → A
distinct k l h same = absurd (ground (arith, text_beq_iff k l))

pod-Alone : Alone members pod
pod-Alone x m same = elim (Memᴰ.cases_cons (rw all_parsed at m)) [
  | inl h ↦ h
  | inr h ↦
      let other = Memᴰ.eq_of_singleton h in
      distinct (get_resource_key config_map) (get_resource_key pod) apart
        (ap get_resource_key (sym other) ∙ same)
]

config-Alone : Alone members config_map
config-Alone x m same = elim (Memᴰ.cases_cons (rw all_parsed at m)) [
  | inl h ↦
      distinct (get_resource_key config_map) (get_resource_key pod) apart
        (sym same ∙ ap get_resource_key h)
  | inr h ↦ Memᴰ.eq_of_singleton h
]

abbrev root_key : Text
root_key = (tree_of V members (txt "c")).root_key

off_root :
    ((get_resource_key pod == root_key) ≡ false)
    × ((get_resource_key config_map == root_key) ≡ false)
unfolding link_nodes for_each selectors_match owner_key push_entry owner_index link_owner
    build_ownership_edges build_label_index select_children refer_both link_selected
    build_selector_edges link_relation link_explicit build_explicit_relation_edges set_missing
    store_missing_refs incoming_refs mark_orphan compute_orphan_status vectors new add_node
    relation_ref resource_key relation_key get_resource_key lookup insert contains_key text_beq
    lower_byte to_lowercase eq_ignore_ascii_case starts_with ends_with is_resource_orphan
    handler_orphan rule_orphan is_exception get_handler normalize_kind kind_names resource_registry
    matches matches_namespace refers_from not_service_account_token no_token_label evaluate
    kube_system_binding is_exception_role_binding config_map_exception_pattern build_tree tree_of
    root_resource parse_resource_typed parse_labels parse_selectors parse_owner parse_owners
    extract_relationships extract pod_relations extract_pod_spec_relations extract_env_relations
    extract_volume_relations
off_root = (refl, refl)

config_at : lookup (get_resource_key config_map) built.key_to_index ≡ some 2
unfolding link_nodes for_each selectors_match owner_key push_entry owner_index link_owner
    build_ownership_edges build_label_index select_children refer_both link_selected
    build_selector_edges link_relation link_explicit build_explicit_relation_edges set_missing
    store_missing_refs incoming_refs mark_orphan compute_orphan_status vectors new add_node
    relation_ref resource_key relation_key get_resource_key lookup insert contains_key text_beq
    lower_byte to_lowercase eq_ignore_ascii_case starts_with ends_with is_resource_orphan
    handler_orphan rule_orphan is_exception get_handler normalize_kind kind_names resource_registry
    matches matches_namespace refers_from not_service_account_token no_token_label evaluate
    kube_system_binding is_exception_role_binding config_map_exception_pattern build_tree tree_of
    root_resource parse_resource_typed parse_labels parse_selectors parse_owner parse_owners
    extract_relationships extract pod_relations extract_pod_spec_relations extract_env_relations
    extract_volume_relations
config_at = refl

pod_at : pod_of J handler.extract_relations pod_manifest ≡ some (config_map.namespace, spec)
unfolding parse_resource_typed text_beq
pod_at = refl

config_uses : PodUses spec config_map.kind config_map.name
unfolding parse_resource_typed text_beq
config_uses = uses

used_config_kept_example : flagged.is_orphan ≡ false
used_config_kept_example =
    used_config_kept V iter J manifests (txt "c") pod_manifest pod config_map flagged handler spec 2
      built pod_parsed handled pod_at config_uses pod_listed config_listed pod-Alone config-Alone
      off_root.0 off_root.1 built_eq config_at flagged_at

abbrev sound : Store V
sound = empty_store V

build_lineage_graph_worker_total_example :
    (u : Tree V) × (ns : List SerializableNode) × (build_tree V iter J manifests (txt "c") ≡ some u)
    × (build_lineage_graph_worker V iter J sound manifests (txt "c") ≡ (
      answered (record { tree_id = txt "c"; nodes = ns; root_key = u.root_key }),
      record sound { trees = insert (txt "c") u sound.trees },
    ))
    × Reports V u (sort_by text_cmp (iter.keys u.key_to_index)) ns
build_lineage_graph_worker_total_example =
    build_lineage_graph_worker_total V iter J sound manifests (txt "c") refl

-- A build of one tree, a query, and a build of another tree.
abbrev calls : List (Call V iter J)
calls =
    build manifests (txt "c")
    ∷ related 9 (txt "c") (txt "pod/d/p")
    ∷ impact (txt "c") (txt "x")
    ∷ orphans (txt "c")
    ∷ build [] (txt "e")
    ∷ []

after_all_last_example :
    (lookup (txt "c") (after_all V iter J calls sound).trees
      ≡ last_built V iter J (txt "c") calls none)
    × ((after_all V iter J calls sound).poisoned ≡ false)
after_all_last_example = after_all_last V iter J calls (txt "c")
