-- ===== src/Lineage/Tree/Build.antt =====
-- lineage/tree.rs: the tree's state, `new` and `add_node`.
use kubectl_nvim.Prelude.{ℕ, Text, text_eq, HashMap, insert, contains_key, [], if◌then◌else◌}
use kubectl_nvim.Lineage.Resource.{Resource, EdgeType}
use kubectl_nvim.Lineage.Graph.Interface.{DiGraph}
use kubectl_nvim.Lineage.Tree.Keys.{get_resource_key}

module _ (D : DiGraph Resource EdgeType) where
  pub record Tree : Type 0 where
    pub graph : D.Graph
    pub root_index : ℕ
    pub key_to_index : HashMap Text ℕ
    pub root_key : Text

  unfoldable pub new : Resource → Tree
  new root_resource =
      let (graph, root_index) = D.add_node D.new root_resource in
      record {
        graph = graph;
        root_index = root_index;
        key_to_index = insert (get_resource_key root_resource) root_index [];
        root_key = get_resource_key root_resource;
      }

  unfoldable pub add_node : Tree → Resource → Tree
  add_node t resource =
      let key = get_resource_key resource in
      let (graph, node_index) = D.add_node t.graph resource in
      if contains_key key t.key_to_index
      then t
      else record t { graph = graph; key_to_index = insert key node_index t.key_to_index }
