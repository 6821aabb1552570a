-- ===== src/Examples/Queries.antt =====
-- The theorems on queries, applied to the sample, and to a pod that claims to own itself.
use mathlib.Core.List.Memᴰ
use kubectl_nvim.Prelude.{
  Unique, ℕ, ◌<◌, ◌≡◌, ◌↔◌, ◌⊎◌, ◌||◌, ◌&&◌, not, refl, Text, txt, text_eq, ◌==◌, ltb, lookup, some,
  List, [], ◌∷◌, Memᴰ, all, all_of_Memᴰ, get_elem?, length, Bool, true, false, arith, insert,
  contains_key, text_beq, lower_byte, to_lowercase, eq_ignore_ascii_case, starts_with, ends_with,
}
use kubectl_nvim.Lineage.Orphan.Patterns.{config_map_exception_pattern}
use kubectl_nvim.Lineage.Orphan.Condition.{
  matches, matches_namespace, refers_from, not_service_account_token, no_token_label, evaluate,
  kube_system_binding, is_exception_role_binding,
}
use kubectl_nvim.Lineage.Registry.Table.{get_handler, normalize_kind, kind_names, resource_registry}
use kubectl_nvim.Lineage.Registry.Orphans.{
  is_resource_orphan, handler_orphan, rule_orphan, is_exception,
}
use kubectl_nvim.Lineage.Tree.Keys.{relation_ref, resource_key, relation_key, get_resource_key}
use kubectl_nvim.Lineage.Graph.Vectors.{vectors}
use kubectl_nvim.Lineage.Resource.{Resource, EdgeType}
use kubectl_nvim.Lineage.Graph.Interface.{Edge}
use kubectl_nvim.Lineage.Tree.Build.{Tree, new, add_node}
use kubectl_nvim.Lineage.Tree.WellFormed.{nodes, edges, add_node-IsWellFormed, new-IsWellFormed}
use kubectl_nvim.Lineage.Tree.Frame.{is_owner_edge}
use kubectl_nvim.Lineage.Tree.Link.{
  link_nodes, for_each, selectors_match, owner_key, push_entry, owner_index, link_owner,
  build_ownership_edges, build_label_index, select_children, refer_both, link_selected,
  build_selector_edges, link_relation, link_explicit, build_explicit_relation_edges, set_missing,
  store_missing_refs, incoming_refs, mark_orphan, compute_orphan_status,
}
use kubectl_nvim.Lineage.Tree.Linked.{IsLinkable}
use kubectl_nvim.Lineage.Query.Climb.{
  finished, out_of_fuel, climb, ancestors, Above, OffRoot, Ranked,
}
use kubectl_nvim.Lineage.Query.Ancestors.{ancestors_total}
use kubectl_nvim.Lineage.Query.Select.{InRange}
use kubectl_nvim.Lineage.Query.Related.{Related}
use kubectl_nvim.Lineage.Query.Loops.{climb_diverges}
use kubectl_nvim.Lineage.Export.Subgraph.{extract_subgraph, extract_subgraph_total}
use kubectl_nvim.Lineage.Export.Output.{
  export_dot, to_mermaid, export_subgraph_dot, export_subgraph_mermaid,
}
use kubectl_nvim.Lineage.Export.Total.{exports_total}
use kubectl_nvim.Lineage.Graph.Interface.{Edge}
use kubectl_nvim.Lineage.Resource.{EdgeType}
use kubectl_nvim.Lineage.Tree.WellFormed.{edges}
use kubectl_nvim.Prelude.{get_elem?}
use kubectl_nvim.Examples.Sample.{V, root, linked, linked_pod_key, plain, of_option}

abbrev pub rank : ℕ → ℕ
rank i = i

abbrev is_fine : Edge EdgeType → Bool
is_fine e = (not (is_owner_edge e) || ltb e.source e.target) && (ltb e.source 4 && ltb e.target 4)

all_fine : all is_fine (edges V linked) ≡ true
unfolding link_nodes for_each selectors_match owner_key push_entry owner_index link_owner
    build_ownership_edges build_label_index select_children refer_both link_selected
    build_selector_edges link_relation link_explicit build_explicit_relation_edges set_missing
    store_missing_refs incoming_refs mark_orphan compute_orphan_status vectors new add_node
    relation_ref resource_key relation_key get_resource_key lookup insert contains_key text_beq
    lower_byte to_lowercase eq_ignore_ascii_case starts_with ends_with is_resource_orphan
    handler_orphan rule_orphan is_exception get_handler normalize_kind kind_names resource_registry
    matches matches_namespace refers_from not_service_account_token no_token_label evaluate
    kube_system_binding is_exception_role_binding config_map_exception_pattern
all_fine = refl

pub size : length (nodes V linked) ≡ 4
unfolding link_nodes for_each selectors_match owner_key push_entry owner_index link_owner
    build_ownership_edges build_label_index select_children refer_both link_selected
    build_selector_edges link_relation link_explicit build_explicit_relation_edges set_missing
    store_missing_refs incoming_refs mark_orphan compute_orphan_status vectors new add_node
    relation_ref resource_key relation_key get_resource_key lookup insert contains_key text_beq
    lower_byte to_lowercase eq_ignore_ascii_case starts_with ends_with is_resource_orphan
    handler_orphan rule_orphan is_exception get_handler normalize_kind kind_names resource_registry
    matches matches_namespace refers_from not_service_account_token no_token_label evaluate
    kube_system_binding is_exception_role_binding config_map_exception_pattern
size = refl

pub linked-Ranked : Ranked V linked rank
linked-Ranked = record {
  falls = λ e m own. let fine = all_of_Memᴰ is_fine e (edges V linked) all_fine m in ground arith;
  bounded =
      λ e m. let fine = all_of_Memᴰ is_fine e (edges V linked) all_fine m in rw size (ground arith);
}

pub linked-InRange : InRange V linked
linked-InRange e m =
    let fine = all_of_Memᴰ is_fine e (edges V linked) all_fine m in rw size (ground arith)

only_pod : (i : ℕ) → Memᴰ i (2 ∷ []) → i < 4
only_pod i m = let same = Memᴰ.eq_of_singleton m in omega arith

ancestors_total_example :
    (xs : List ℕ) × (ancestors V linked 4 (2 ∷ []) ≡ finished xs)
    × ((x : ℕ)
        → Memᴰ x xs ↔ (
            Memᴰ x (2 ∷ [])
            ⊎ ((i : ℕ) × Memᴰ i (2 ∷ []) × Above V linked i x × OffRoot V linked x)))
ancestors_total_example = ancestors_total V linked rank linked-Ranked 4 (2 ∷ []) only_pod

extract_subgraph_total_example :
    (xs : List ℕ) × (es : List ℕ) × (extract_subgraph V linked 4 (txt "pod/d/p")
      ≡ finished (xs, es))
    × Unique xs
    × ((x : ℕ) → Memᴰ x xs ↔ Related V linked 2 x)
    × ((n : ℕ)
        → Memᴰ n es ↔ (
            (e : Edge EdgeType) × (get_elem? (edges V linked) n ≡ some e)
            × Memᴰ e.source xs
            × Memᴰ e.target xs))
extract_subgraph_total_example =
    extract_subgraph_total V linked rank linked-Ranked 4 2 (txt "pod/d/p") linked-InRange
      linked_pod_key (rw size (omega arith)) (omega arith)

exports_total_example :
    (dot : Text) × (mermaid : Text) × (sub_dot : Text) × (sub_mermaid : Text) × (export_dot V linked
      ≡ some dot)
    × (to_mermaid V linked ≡ some mermaid)
    × (export_subgraph_dot V linked 4 (txt "pod/d/p") ≡ finished sub_dot)
    × (export_subgraph_mermaid V linked 4 (txt "pod/d/p") ≡ finished sub_mermaid)
exports_total_example =
    exports_total V linked rank linked-Ranked 4 2 (txt "pod/d/p") linked-InRange linked_pod_key
      (rw size (omega arith)) (omega arith)

abbrev own_owner : Resource
own_owner =
    plain (txt "Pod") (txt "p") (some (txt "d"))
      (relation_ref (txt "Pod") (txt "p") (some (txt "d")) ∷ []) []

abbrev looped : Tree V
looped = add_node V (new V root) own_owner

abbrev loop_keys : List Text
loop_keys = txt "pod/d/p" ∷ []

abbrev loop_linked : Tree V
loop_linked = of_option (link_nodes V looped loop_keys)

loop_linked_eq : link_nodes V looped loop_keys ≡ some loop_linked
unfolding link_nodes for_each selectors_match owner_key push_entry owner_index link_owner
    build_ownership_edges build_label_index select_children refer_both link_selected
    build_selector_edges link_relation link_explicit build_explicit_relation_edges set_missing
    store_missing_refs incoming_refs mark_orphan compute_orphan_status vectors new add_node
    relation_ref resource_key relation_key get_resource_key lookup insert contains_key text_beq
    lower_byte to_lowercase eq_ignore_ascii_case starts_with ends_with is_resource_orphan
    handler_orphan rule_orphan is_exception get_handler normalize_kind kind_names resource_registry
    matches matches_namespace refers_from not_service_account_token no_token_label evaluate
    kube_system_binding is_exception_role_binding config_map_exception_pattern
loop_linked_eq = refl

loop_key : lookup (txt "pod/d/p") looped.key_to_index ≡ some 1
unfolding link_nodes for_each selectors_match owner_key push_entry owner_index link_owner
    build_ownership_edges build_label_index select_children refer_both link_selected
    build_selector_edges link_relation link_explicit build_explicit_relation_edges set_missing
    store_missing_refs incoming_refs mark_orphan compute_orphan_status vectors new add_node
    relation_ref resource_key relation_key get_resource_key lookup insert contains_key text_beq
    lower_byte to_lowercase eq_ignore_ascii_case starts_with ends_with is_resource_orphan
    handler_orphan rule_orphan is_exception get_handler normalize_kind kind_names resource_registry
    matches matches_namespace refers_from not_service_account_token no_token_label evaluate
    kube_system_binding is_exception_role_binding config_map_exception_pattern
loop_key = refl

looped-IsLinkable : IsLinkable V looped loop_keys
unfolding link_nodes for_each selectors_match owner_key push_entry owner_index link_owner
    build_ownership_edges build_label_index select_children refer_both link_selected
    build_selector_edges link_relation link_explicit build_explicit_relation_edges set_missing
    store_missing_refs incoming_refs mark_orphan compute_orphan_status vectors new add_node
    relation_ref resource_key relation_key get_resource_key lookup insert contains_key text_beq
    lower_byte to_lowercase eq_ignore_ascii_case starts_with ends_with is_resource_orphan
    handler_orphan rule_orphan is_exception get_handler normalize_kind kind_names resource_registry
    matches matches_namespace refers_from not_service_account_token no_token_label evaluate
    kube_system_binding is_exception_role_binding config_map_exception_pattern
looped-IsLinkable = record {
  formed = add_node-IsWellFormed V (new V root) own_owner (new-IsWellFormed V root);
  bare = refl;
  known = λ k m. (1, rw (Memᴰ.eq_of_singleton m) loop_key);
}

loop_facts :
    (((txt "pod/d/p") == looped.root_key) ≡ false)
    × (get_elem? (nodes V looped) 1 ≡ some own_owner)
    × (owner_index V looped own_owner ≡ 1)
unfolding link_nodes for_each selectors_match owner_key push_entry owner_index link_owner
    build_ownership_edges build_label_index select_children refer_both link_selected
    build_selector_edges link_relation link_explicit build_explicit_relation_edges set_missing
    store_missing_refs incoming_refs mark_orphan compute_orphan_status vectors new add_node
    relation_ref resource_key relation_key get_resource_key lookup insert contains_key text_beq
    lower_byte to_lowercase eq_ignore_ascii_case starts_with ends_with is_resource_orphan
    handler_orphan rule_orphan is_exception get_handler normalize_kind kind_names resource_registry
    matches matches_namespace refers_from not_service_account_token no_token_label evaluate
    kube_system_binding is_exception_role_binding config_map_exception_pattern
loop_facts = (refl, refl, refl)

climb_diverges_example : climb V loop_linked 100 1 ≡ out_of_fuel
climb_diverges_example =
    climb_diverges V looped loop_keys looped-IsLinkable loop_linked loop_linked_eq (txt "pod/d/p") 1
      own_owner (Memᴰ.head refl) loop_facts.0 loop_key loop_facts.1 loop_facts.2 100
