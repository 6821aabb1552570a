-- ===== src/Lineage/Builder/Build.antt =====
-- lineage/builder.rs: the tree that `build_lineage_graph_worker` and `build_lineage_graph` build.
-- The order in which a hash map gives its keys is a parameter.
use kubectl_nvim.Prelude.{
  ℕ, ◌≡◌, ◌↔◌, ◌∙◌, inl, inr, Text, txt, text_eq, HashMap, lookup, contains_key, Option, none, some,
  List, [], ◌∷◌, Memᴰ, false, Bool-cases,
}
use kubectl_nvim.Lineage.Resource.{Resource, EdgeType}
use kubectl_nvim.Lineage.Graph.Interface.{DiGraph}
use kubectl_nvim.Lineage.Tree.Keys.{get_resource_key}
use kubectl_nvim.Lineage.Tree.Build.{Tree, new, add_node}
use kubectl_nvim.Lineage.Tree.WellFormed.{
  edges, IsWellFormed, new-IsWellFormed, add_node-IsWellFormed, new-edges,
}
use kubectl_nvim.Lineage.Tree.Link.{link_nodes}
use kubectl_nvim.Lineage.Tree.Linked.{IsLinkable, link_nodes_total}
use kubectl_nvim.Lineage.Relations.Objects.{Json}
use kubectl_nvim.Lineage.Builder.Parse.{filter_map, parse_resource_typed}

-- The keys of a map, as its iterator gives them.
pub record Iteration : Type 0 where
  pub keys : HashMap Text ℕ → List Text
  pub keys_iff :
      (m : HashMap Text ℕ) (k : Text) → Memᴰ k (keys m) ↔ ((i : ℕ) × (lookup k m ≡ some i))

unfoldable pub root_resource : Text → Resource
root_resource root_name = record {
  kind = txt "cluster";
  name = root_name;
  namespace = none;
  api_version = none;
  uid = none;
  labels = none;
  selectors = none;
  owners = none;
  relations = none;
  is_orphan = false;
  resource_type = none;
  missing_refs = none;
}

module _ (D : DiGraph Resource EdgeType) where
  abbrev pub add_nodes : Tree D → List Resource → Tree D
  add_nodes t [] = t
  add_nodes t (r ∷ rs) = add_nodes (add_node D t r) rs

  -- The tree before it is linked.
  unfoldable pub tree_of : List Resource → Text → Tree D
  tree_of resources root_name = add_nodes (new D (root_resource root_name)) resources

  add_node-bare : (t : Tree D) (r : Resource) → edges D t ≡ [] → edges D (add_node D t r) ≡ []
  unfolding add_node
  add_node-bare t r bare =
      let grown = D.add_node_edges t.graph r ∙ bare in
      elim (Bool-cases (contains_key (get_resource_key r) t.key_to_index)) [
        | inl taken ↦ rw taken bare
        | inr free ↦ rw free grown
      ]

  add_nodes-Linkable :
      (t : Tree D) (rs : List Resource)
      → IsWellFormed D t
      → edges D t ≡ []
      → IsWellFormed D (add_nodes t rs) × (edges D (add_nodes t rs) ≡ [])
  add_nodes-Linkable t [] w bare = (w, bare)
  add_nodes-Linkable t (r ∷ rs) w bare =
      add_nodes-Linkable (add_node D t r) rs (add_node-IsWellFormed D t r w)
        (add_node-bare t r bare)

  module _ (iter : Iteration) where
    abbrev pub keys_of : Tree D → List Text
    keys_of t = iter.keys t.key_to_index

    pub tree_of-IsLinkable :
        (rs : List Resource) (name : Text)
        → IsLinkable D (tree_of rs name) (keys_of (tree_of rs name))
    unfolding tree_of
    tree_of-IsLinkable rs name =
        let root = root_resource name in
        let (w, bare) =
          add_nodes-Linkable (new D root) rs (new-IsWellFormed D root) (new-edges D root) in
        record {
          formed = w;
          bare = bare;
          known = λ k m. (iter.keys_iff (add_nodes (new D root) rs).key_to_index k).0 m;
        }

    module _ (J : Json) where
      unfoldable pub build_tree : List J.Value → Text → Option (Tree D)
      build_tree resources root_name =
          let t = tree_of (filter_map (parse_resource_typed J) resources) root_name in
          link_nodes D t (keys_of t)

      -- Whatever the manifests are, also those that are skipped and those with one key, the tree is
      -- built without a panic.
      pub build_tree_total :
          (resources : List J.Value) (root_name : Text)
          → (u : Tree D) × (build_tree resources root_name ≡ some u)
      unfolding build_tree
      build_tree_total resources root_name =
          let rs = filter_map (parse_resource_typed J) resources in
          link_nodes_total D (tree_of rs root_name) (keys_of (tree_of rs root_name))
            (tree_of-IsLinkable rs root_name)
