-- ===== src/Lineage/Builder/Store.antt =====
-- lineage/builder.rs: the stored trees, and the calls that build and query them. The JSON texts at
-- the boundary are left out: a call takes what was read and gives what is written.
use kubectl_nvim.Prelude.{
  ℕ, Bool, true, false, Text, text_eq, HashMap, lookup, insert, Option, none, some, List, [],
}
use kubectl_nvim.Lineage.Resource.{Resource, EdgeType}
use kubectl_nvim.Lineage.Graph.Interface.{DiGraph}
use kubectl_nvim.Lineage.Tree.Build.{Tree}
use kubectl_nvim.Lineage.Query.Climb.{Run, finished, panicked, out_of_fuel}
use kubectl_nvim.Lineage.Listing.Keys.{get_related_items}
use kubectl_nvim.Lineage.Listing.Orphans.{find_orphans}
use kubectl_nvim.Lineage.Listing.Impact.{compute_impact}
use kubectl_nvim.Lineage.Export.Output.{
  export_dot, to_mermaid, export_subgraph_dot, export_subgraph_mermaid,
}
use kubectl_nvim.Lineage.Relations.Objects.{Json}
use kubectl_nvim.Lineage.Builder.Build.{Iteration, build_tree}
use kubectl_nvim.Lineage.Builder.Nodes.{SerializableNode, nodes_of}

pub data Failure : Type 0 where
  lock_failed : Failure
  tree_not_found : Text → Failure

-- How a call ends. One that does not end keeps the lock, and so does not let another begin.
pub data Answer (A : Type 0) : Type 0 where
  answered : A → Answer A
  failed : Failure → Answer A
  crashed hung : Answer A

pub record TreeResult : Type 0 where
  pub tree_id : Text
  pub nodes : List SerializableNode
  pub root_key : Text

abbrev pub run_of : {A : Type 0} → Option A → Run A
run_of none = panicked
run_of (some a) = finished a

module _ (D : DiGraph Resource EdgeType) where
  -- `LINEAGE_TREES`: the map and its lock, which a panic under it poisons.
  pub record Store : Type 0 where
    pub trees : HashMap Text (Tree D)
    pub poisoned : Bool

  abbrev pub empty_store : Store
  empty_store = record { trees = []; poisoned = false }

  abbrev pub end_query : {A : Type 0} → Store → Run A → Answer A × Store
  end_query s (finished a) = (answered a, s)
  end_query s panicked = (crashed, record s { poisoned = true })
  end_query s out_of_fuel = (hung, s)

  abbrev pub query_tree :
      {A : Type 0} → Store → Text → (Tree D → Run A) → Option (Tree D) → Answer A × Store
  query_tree s tree_id query none = (failed (tree_not_found tree_id), s)
  query_tree s tree_id query (some t) = end_query s (query t)

  abbrev pub under_lock : {A : Type 0} → Store → Answer A × Store → Bool → Answer A × Store
  under_lock s result true = (failed lock_failed, s)
  under_lock s result false = result

  -- The shape that the calls below share: take the lock, find the tree, ask it.
  unfoldable pub with_tree : {A : Type 0} → Store → Text → (Tree D → Run A) → Answer A × Store
  with_tree s tree_id query =
      under_lock s (query_tree s tree_id query (lookup tree_id s.trees)) s.poisoned

  unfoldable pub get_lineage_related_nodes : ℕ → Store → Text → Text → Answer (List Text) × Store
  get_lineage_related_nodes fuel s tree_id node_key =
      with_tree s tree_id (λ t. get_related_items D t fuel node_key)

  unfoldable pub compute_lineage_impact : Store → Text → Text → Answer (List (Text × Text)) × Store
  compute_lineage_impact s tree_id resource_key =
      with_tree s tree_id (λ t. run_of (compute_impact D t resource_key))

  unfoldable export_lineage_dot : Store → Text → Answer Text × Store
  export_lineage_dot s tree_id = with_tree s tree_id (λ t. run_of (export_dot D t))

  unfoldable export_lineage_mermaid : Store → Text → Answer Text × Store
  export_lineage_mermaid s tree_id = with_tree s tree_id (λ t. run_of (to_mermaid D t))

  unfoldable export_lineage_subgraph_dot : ℕ → Store → Text → Text → Answer Text × Store
  export_lineage_subgraph_dot fuel s tree_id resource_key =
      with_tree s tree_id (λ t. export_subgraph_dot D t fuel resource_key)

  unfoldable export_lineage_subgraph_mermaid : ℕ → Store → Text → Text → Answer Text × Store
  export_lineage_subgraph_mermaid fuel s tree_id resource_key =
      with_tree s tree_id (λ t. export_subgraph_mermaid D t fuel resource_key)

  module _ (iter : Iteration) where
    unfoldable pub find_lineage_orphans : Store → Text → Answer (List Text) × Store
    find_lineage_orphans s tree_id =
        with_tree s tree_id (λ t. run_of (find_orphans D t (iter.keys t.key_to_index)))

    abbrev pub store_tree :
        Store → Text → Tree D → List SerializableNode → Bool → Answer TreeResult × Store
    store_tree s tree_id t nodes true = (failed lock_failed, s)
    store_tree s tree_id t nodes false = (
      answered (record { tree_id = tree_id; nodes = nodes; root_key = t.root_key }),
      record s { trees = insert tree_id t s.trees },
    )

    abbrev pub store_nodes :
        Store → Text → Tree D → Option (List SerializableNode) → Answer TreeResult × Store
    store_nodes s tree_id t none = (crashed, s)
    store_nodes s tree_id t (some nodes) = store_tree s tree_id t nodes s.poisoned

    abbrev pub store_built : Store → Text → Option (Tree D) → Answer TreeResult × Store
    store_built s tree_id none = (crashed, s)
    store_built s tree_id (some t) =
        store_nodes s tree_id t (nodes_of D t (iter.keys t.key_to_index))

    -- The lock is taken only once the tree is built.
    unfoldable pub build_lineage_graph_worker :
        (J : Json) → Store → List J.Value → Text → Answer TreeResult × Store
    build_lineage_graph_worker J s resources root_name =
        store_built s root_name (build_tree D iter J resources root_name)
