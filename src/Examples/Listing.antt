-- ===== src/Examples/Listing.antt =====
-- The theorems on lists of keys, applied to the sample.
use mathlib.Core.List.Memᴰ
use kubectl_nvim.Prelude.{
  ℕ, Unique, ◌≡◌, refl, ◌↔◌, ap, ◌∙◌, Text, txt, text_eq, lookup, some, List, [], ◌∷◌, Memᴰ,
  Ascending, text_cmp, arith, on,
}
use kubectl_nvim.Lineage.Query.Climb.{finished}
use kubectl_nvim.Lineage.Query.Related.{Related}
use kubectl_nvim.Lineage.Tree.Linked.{linked_unchanged}
use kubectl_nvim.Lineage.Listing.Keys.{
  get_related_items, get_related_items_total, KeysOf, OneKeyEach,
}
use kubectl_nvim.Lineage.Listing.Orphans.{find_orphans, find_orphans_total, Known, Flagged}
use kubectl_nvim.Lineage.Tree.WellFormed.{edges}
use kubectl_nvim.Lineage.Tree.Referred.{refers}
use kubectl_nvim.Lineage.Tree.Linked.{linked_relation_edge}
use kubectl_nvim.Lineage.Tree.Views.{get_parent_key}
use kubectl_nvim.Lineage.Listing.Keys.{get_children_keys}
use kubectl_nvim.Lineage.Listing.Family.{children_parents, linked_key_iff}
use kubectl_nvim.Lineage.Listing.Impact.{compute_impact, Impacted, entry_key, refers_to_it}
use kubectl_nvim.Lineage.Listing.Impacted.{compute_impact_total, impact_lists_relations}
use kubectl_nvim.Examples.Sample.{
  config_ref, config_target, deployment_key, mem_at, pod, pod_key, pod-sample, off_root_pod,
  off_root_linked, V, sample, keys, config_map, linked, linked_eq, linked_pod_key, map_key,
  map_linked, sample-IsLinkable,
}
use kubectl_nvim.Examples.Queries.{rank, size, linked-Ranked, linked-InRange}

linked-OneKeyEach : OneKeyEach V linked
linked-OneKeyEach x y k h g =
    let key_iff = λ (z : ℕ). linked_key_iff V sample keys sample-IsLinkable linked linked_eq z k in
    cc ((key_iff x).0 h, (key_iff y).0 g)

get_related_items_total_example :
    (found : List Text) × (get_related_items V linked 4 (txt "pod/d/p") ≡ finished found)
    × Ascending text_cmp found
    × Unique found
    × KeysOf V linked (Related V linked 2) found
get_related_items_total_example =
    get_related_items_total V linked rank linked-Ranked 4 2 (txt "pod/d/p") linked-InRange
      linked_pod_key (rw size (omega arith)) (omega arith) linked-OneKeyEach

abbrev map_keys : List Text
map_keys = txt "configmap/d/m" ∷ []

linked_map_key : lookup (txt "configmap/d/m") linked.key_to_index ≡ some 3
linked_map_key =
    ap (lookup (txt "configmap/d/m"))
      (linked_unchanged V sample keys sample-IsLinkable linked linked_eq).0
    ∙ map_key

map_keys-Known : Known V linked map_keys
map_keys-Known k m = (config_map, rw (Memᴰ.eq_of_singleton m) (3, linked_map_key, map_linked))

find_orphans_total_example :
    (found : List Text) × (find_orphans V linked map_keys ≡ some found)
    × Ascending text_cmp found
    × ((j : Text) → Memᴰ j found ↔ (Memᴰ j map_keys × Flagged V linked j))
find_orphans_total_example = find_orphans_total V linked map_keys map_keys-Known

in_keys_pod : Memᴰ (txt "pod/d/p") keys
in_keys_pod = mem_at keys 2 (txt "pod/d/p") refl

linked_relation_edge_example : Memᴰ (refers 2 3) (edges V linked)
linked_relation_edge_example =
    linked_relation_edge V sample keys sample-IsLinkable linked linked_eq (txt "pod/d/p") 2 3 pod
      config_ref in_keys_pod pod_key pod-sample (Memᴰ.head refl) config_target

children_parents_example :
    (cs : List Text) × (get_children_keys V linked 1 ≡ some cs)
    × (Memᴰ (txt "pod/d/p") cs ↔ (get_parent_key V linked 2 ≡ some (some (txt "deployment/d/a"))))
children_parents_example =
    children_parents V sample keys sample-IsLinkable linked linked_eq (txt "deployment/d/a")
      (txt "pod/d/p") 1 2 in_keys_pod off_root_pod deployment_key pod_key

compute_impact_total_example :
    (found : List (Text × Text)) × (compute_impact V linked (txt "pod/d/p") ≡ some found)
    × Ascending (on entry_key text_cmp) found
    × ((b : Text × Text) → Memᴰ b found ↔ Impacted V linked 2 b)
compute_impact_total_example =
    compute_impact_total V sample keys sample-IsLinkable linked linked_eq (txt "pod/d/p") 2 pod_key

impact_lists_relations_example :
    (found : List (Text × Text)) × (compute_impact V linked (txt "pod/d/p") ≡ some found)
    × Memᴰ (txt "configmap/d/m", refers_to_it) found
impact_lists_relations_example =
    impact_lists_relations V sample keys sample-IsLinkable linked linked_eq (txt "pod/d/p") 2 3 pod
      config_ref in_keys_pod pod_key pod-sample (Memᴰ.head refl) (txt "configmap/d/m") map_key
      config_target off_root_linked
