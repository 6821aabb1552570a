-- ===== src/Lineage/Tree/Views.antt =====
-- lineage/tree.rs: what is read off a linked tree. `none` is a panic of `graph[…]`.
use kubectl_nvim.Prelude.{ℕ, Text, text_eq, Option, none, some, find}
use kubectl_nvim.Lineage.Resource.{Resource, EdgeType}
use kubectl_nvim.Lineage.Graph.Interface.{Edge, DiGraph, incoming}
use kubectl_nvim.Lineage.Tree.Keys.{get_resource_key}
use kubectl_nvim.Lineage.Tree.Build.{Tree}
use kubectl_nvim.Lineage.Tree.Frame.{is_owner_edge}
use kubectl_nvim.Lineage.Tree.Link.{◌>>=◌}

abbrev pub source_of : Option (Edge EdgeType) → Option ℕ
source_of none = none
source_of (some e) = some e.source

module _ (D : DiGraph Resource EdgeType) (t : Tree D) where
  unfoldable pub get_key_for_index : ℕ → Option Text
  get_key_for_index idx = D.node_weight t.graph idx >>= λ resource. some (get_resource_key resource)

  -- The source of the ownership edge that an upward step finds first.
  unfoldable pub parent_of : ℕ → Option ℕ
  parent_of idx = source_of (find is_owner_edge (D.edges_directed t.graph idx incoming))

  -- `None` is the inner `none`.
  abbrev pub key_of_parent : Option ℕ → Option (Option Text)
  key_of_parent none = some none
  key_of_parent (some p) = get_key_for_index p >>= λ key. some (some key)

  unfoldable pub get_parent_key : ℕ → Option (Option Text)
  get_parent_key idx = key_of_parent (parent_of idx)
