-- ===== src/Lineage/Graph/Interface.antt =====
-- The part of petgraph that lineage/tree.rs and lineage/query.rs call.
use kubectl_nvim.Prelude.{
  ℕ, ◌<◌, ◌≡◌, ◌↔◌, Bool, true, Option, List, [], ◌∷◌, ◌++◌, Memᴰ, length, get_elem?, set,
}

pub record Edge (E : Type 0) : Type 0 where
  pub source : ℕ
  pub target : ℕ
  pub weight : E

pub data Direction : Type 0 where
  incoming outgoing : Direction

-- The end of an edge that lies at the node asked for.
abbrev pub end_at : {E : Type 0} → Direction → Edge E → ℕ
end_at incoming e = e.target
end_at outgoing e = e.source

-- The paths from `a` along the edges of `es` that pass the filter `p`.
pub data Walk {E : Type 0} (es : List (Edge E)) (p : Edge E → Bool) (a : ℕ) : ℕ → Type 0 where
  here : Walk es p a a
  step : (e : Edge E) → Walk es p a e.source → Memᴰ e es → p e ≡ true → Walk es p a e.target

pub record DiGraph (N E : Type 0) : Type 1 where
  pub Graph : Type 0
  pub new : Graph
  pub add_node : Graph → N → Graph × ℕ
  pub add_edge : Graph → ℕ → ℕ → E → Graph
  pub node_weight : Graph → ℕ → Option N
  -- An assignment through `node_weight_mut`.
  pub set_weight : Graph → ℕ → N → Graph
  pub raw_nodes : Graph → List N
  pub raw_edges : Graph → List (Edge E)
  pub edges_directed : Graph → ℕ → Direction → List (Edge E)
  -- The nodes that `Dfs::new(EdgeFiltered(g, p), a)` yields.
  pub dfs : Graph → (Edge E → Bool) → ℕ → List ℕ
  pub new_nodes : raw_nodes new ≡ []
  pub new_edges : raw_edges new ≡ []
  pub add_node_index : (g : Graph) (n : N) → (add_node g n).1 ≡ length (raw_nodes g)
  pub add_node_nodes : (g : Graph) (n : N) → raw_nodes (add_node g n).0 ≡ raw_nodes g ++ n ∷ []
  pub add_node_edges : (g : Graph) (n : N) → raw_edges (add_node g n).0 ≡ raw_edges g
  pub add_edge_nodes : (g : Graph) (a b : ℕ) (w : E) → raw_nodes (add_edge g a b w) ≡ raw_nodes g
  -- `add_edge` panics if an end is no node.
  pub add_edge_edges :
      (g : Graph) (a b : ℕ) (w : E)
      → a < length (raw_nodes g)
      → b < length (raw_nodes g)
      → raw_edges (add_edge g a b w)
        ≡ raw_edges g ++ record { source = a; target = b; weight = w } ∷ []
  pub node_weight_lem : (g : Graph) (i : ℕ) → node_weight g i ≡ get_elem? (raw_nodes g) i
  pub set_weight_nodes :
      (g : Graph) (i : ℕ) (n : N) → raw_nodes (set_weight g i n) ≡ set (raw_nodes g) i n
  pub set_weight_edges : (g : Graph) (i : ℕ) (n : N) → raw_edges (set_weight g i n) ≡ raw_edges g
  pub edges_directed_iff :
      (g : Graph) (i : ℕ) (d : Direction) (e : Edge E)
      → Memᴰ e (edges_directed g i d) ↔ (Memᴰ e (raw_edges g) × (end_at d e ≡ i))
  pub dfs_iff :
      (g : Graph) (p : Edge E → Bool) (a b : ℕ) → Memᴰ b (dfs g p a) ↔ Walk (raw_edges g) p a b
