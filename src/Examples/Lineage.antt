-- ===== src/Examples/Lineage.antt =====
-- The theorems on trees and queries, applied to the sample.
use kubectl_nvim.Prelude.{
  ℕ, ◌⊎◌, none, ◌≡◌, refl, inl, Text, txt, text_eq, some, List, Memᴰ, keep, false,
}
use kubectl_nvim.Lineage.Resource.{EdgeType}
use kubectl_nvim.Lineage.Tree.Build.{Tree}
use kubectl_nvim.Lineage.Tree.WellFormed.{edges}
use kubectl_nvim.Lineage.Tree.Frame.{flip, is_owner_edge}
use kubectl_nvim.Lineage.Tree.Sources.{Describes}
use kubectl_nvim.Lineage.Tree.Link.{link_nodes, orphan_verdict}
use kubectl_nvim.Lineage.Tree.Linked.{linked_verdict, linked_config, linked_mirrored}
use kubectl_nvim.Lineage.Tree.Owned.{OwnedAs, Belongs, linked-OwnedAs, linked-Belongs}
use kubectl_nvim.Lineage.Tree.Cycles.{Cycle, by_search, link_nodes_debug, link_nodes_builds}
use kubectl_nvim.Lineage.Tree.Views.{parent_of}
use kubectl_nvim.Examples.Sample.{
  V, pod, config_map, sample, keys, linked, linked_eq, sample-IsLinkable, mount, mount_linked,
  map_linked, map_key, map_kind, not_root, pod_key, pod-sample, off_root_pod, off_root_map, mem_at,
}

in_keys_pod : Memᴰ (txt "pod/d/p") keys
in_keys_pod = mem_at keys 2 (txt "pod/d/p") refl

in_keys_map : Memᴰ (txt "configmap/d/m") keys
in_keys_map = mem_at keys 3 (txt "configmap/d/m") refl

link_nodes_builds_example :
    (u : Tree V) × (link_nodes V sample keys ≡ some u)
    × (((link_nodes_debug V (by_search V) sample keys ≡ some u) × ¬ Cycle (edges V u) is_owner_edge)
        ⊎ ((link_nodes_debug V (by_search V) sample keys ≡ none) × Cycle (edges V u) is_owner_edge))
link_nodes_builds_example = link_nodes_builds V (by_search V) sample keys sample-IsLinkable

linked_verdict_example :
    (refs : List (EdgeType × Text)) × Describes V sample (edges V linked) 3 refs
    × (config_map.is_orphan ≡ orphan_verdict config_map refs)
linked_verdict_example =
    linked_verdict V sample keys sample-IsLinkable linked linked_eq (txt "configmap/d/m") 3
      config_map in_keys_map off_root_map map_key map_linked

linked-OwnedAs_example : OwnedAs V sample keys (keep is_owner_edge (edges V linked))
linked-OwnedAs_example = linked-OwnedAs V sample keys sample-IsLinkable linked linked_eq

linked_config_example : config_map.is_orphan ≡ false
linked_config_example =
    linked_config V sample keys sample-IsLinkable linked linked_eq (txt "configmap/d/m") 3
      config_map mount in_keys_map off_root_map map_key map_linked (inl map_kind) mount_linked refl
      refl not_root

linked_mirrored_example : Memᴰ (flip mount) (edges V linked)
linked_mirrored_example =
    linked_mirrored V sample keys sample-IsLinkable linked linked_eq mount mount_linked refl

linked-Belongs_example : (j : ℕ) × (parent_of V linked 2 ≡ some j) × Belongs V sample pod j
linked-Belongs_example =
    linked-Belongs V sample keys sample-IsLinkable linked linked_eq (txt "pod/d/p") 2 pod
      in_keys_pod off_root_pod pod_key pod-sample
