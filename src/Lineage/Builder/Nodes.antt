-- ===== src/Lineage/Builder/Nodes.antt =====
-- lineage/builder.rs: what is reported of each node of a linked tree.
use kubectl_nvim.Prelude.{Bool, Text, text_eq, lookup, Option, some, List, text_cmp, sort_by}
use kubectl_nvim.Lineage.Resource.{Resource, EdgeType}
use kubectl_nvim.Lineage.Graph.Interface.{DiGraph}
use kubectl_nvim.Lineage.Tree.Build.{Tree}
use kubectl_nvim.Lineage.Tree.Link.{◌>>=◌}
use kubectl_nvim.Lineage.Tree.Views.{get_parent_key}
use kubectl_nvim.Lineage.Listing.Collect.{collect}
use kubectl_nvim.Lineage.Listing.Keys.{get_children_keys, get_leaf_keys}

pub record SerializableResource : Type 0 where
  pub kind : Text
  pub name : Text
  pub ns : Option Text
  pub is_orphan : Bool

pub record SerializableNode : Type 0 where
  pub key : Text
  pub kind : Text
  pub name : Text
  pub ns : Option Text
  pub children_keys : List Text
  pub leaf_keys : List Text
  pub parent_key : Option Text
  pub is_orphan : Bool
  pub resource : SerializableResource

unfoldable pub from_resource_and_edges :
    Resource → Text → List Text → List Text → Option Text → SerializableNode
from_resource_and_edges resource key children_keys leaf_keys parent_key = record {
  key = key;
  kind = resource.kind;
  name = resource.name;
  ns = resource.namespace;
  children_keys = children_keys;
  leaf_keys = leaf_keys;
  parent_key = parent_key;
  is_orphan = resource.is_orphan;
  resource = record {
    kind = resource.kind;
    name = resource.name;
    ns = resource.namespace;
    is_orphan = resource.is_orphan;
  };
}

module _ (D : DiGraph Resource EdgeType) (t : Tree D) where
  -- One round of the loop over `node_data`.
  unfoldable pub node_of : Text → Option SerializableNode
  node_of key = do
    idx ← lookup key t.key_to_index
    resource ← D.node_weight t.graph idx
    children_keys ← get_children_keys D t idx
    leaf_keys ← get_leaf_keys D t idx
    parent_key ← get_parent_key D t idx
    some (from_resource_and_edges resource key children_keys leaf_keys parent_key)

  -- `node_data`, sorted, and the loop over it; `keys` are the keys of the map.
  unfoldable pub nodes_of : List Text → Option (List SerializableNode)
  nodes_of keys = collect node_of (sort_by text_cmp keys)
