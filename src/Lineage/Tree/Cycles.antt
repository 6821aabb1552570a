-- ===== src/Lineage/Tree/Cycles.antt =====
-- lineage/tree.rs: `validate_ownership_dag`, which a build with debug assertions runs at the end of
-- `link_nodes`.
use mathlib.Core.Bool.{false≢true}
use kubectl_nvim.Prelude.{
  ◌≡◌, ◌↔◌, ◌⊎◌, refl, sym, ◌∙◌, inl, inr, Bool, Bool-cases, true, ◌&&◌, &&_iff, any, any_iff,
  any_of_Memᴰ, contains_index, contains_index_iff, Text, Option, none, some, List, Memᴰ,
  if◌then◌else◌,
}
use kubectl_nvim.Lineage.Resource.{Resource, EdgeType}
use kubectl_nvim.Lineage.Graph.Interface.{Edge, DiGraph, Walk}
use kubectl_nvim.Lineage.Tree.Build.{Tree}
use kubectl_nvim.Lineage.Tree.WellFormed.{edges}
use kubectl_nvim.Lineage.Tree.Frame.{is_owner_edge}
use kubectl_nvim.Lineage.Tree.Link.{◌>>=◌, link_nodes}
use kubectl_nvim.Lineage.Tree.Linked.{IsLinkable, link_nodes_total}

-- An edge that passes the filter, and a way back from its end to its start.
abbrev pub Cycle : List (Edge EdgeType) → (Edge EdgeType → Bool) → Type 0
Cycle es p = (e : Edge EdgeType) × Memᴰ e es × (p e ≡ true) × Walk es p e.target e.source

-- petgraph's `is_cyclic_directed`, on a graph whose edges are filtered.
pub record CycleCheck (D : DiGraph Resource EdgeType) : Type 0 where
  pub is_cyclic_directed : D.Graph → (Edge EdgeType → Bool) → Bool
  pub is_cyclic_iff :
      (g : D.Graph) (p : Edge EdgeType → Bool)
      → (is_cyclic_directed g p ≡ true) ↔ Cycle (D.raw_edges g) p

module _ (D : DiGraph Resource EdgeType) (C : CycleCheck D) where
  -- `none` is the panic.
  unfoldable pub validate_ownership_dag : Tree D → Option (Tree D)
  validate_ownership_dag t = if C.is_cyclic_directed t.graph is_owner_edge then none else some t

  -- `link_nodes` in a build with debug assertions.
  unfoldable pub link_nodes_debug : Tree D → List Text → Option (Tree D)
  link_nodes_debug t ks = link_nodes D t ks >>= validate_ownership_dag

  -- Linking a well-formed tree without edges, along keys of its map, never panics in a build
  -- without debug assertions. In a build with them the same tree is returned if its ownership edges
  -- have no cycle, and otherwise the call panics.
  pub link_nodes_builds :
      (t : Tree D) (ks : List Text)
      → IsLinkable D t ks
      → (u : Tree D) × (link_nodes D t ks ≡ some u)
        × (((link_nodes_debug t ks ≡ some u) × ¬ Cycle (edges D u) is_owner_edge)
            ⊎ ((link_nodes_debug t ks ≡ none) × Cycle (edges D u) is_owner_edge))
  unfolding link_nodes_debug validate_ownership_dag
  link_nodes_builds t ks l =
      let (u, e) = link_nodes_total D t ks l in
      let iff = C.is_cyclic_iff u.graph is_owner_edge in
      (
        u,
        e,
        elim (Bool-cases (C.is_cyclic_directed u.graph is_owner_edge)) [
          | inl cyclic ↦ inr (rw (e, cyclic) refl, iff.0 cyclic)
          | inr acyclic ↦ inl (rw (e, acyclic) refl, λ c. false≢true (sym acyclic ∙ iff.1 c))
        ],
      )

-- A check by a search from the end of each edge.
module _ (D : DiGraph Resource EdgeType) (g : D.Graph) (p : Edge EdgeType → Bool) where
  abbrev closes_cycle : Edge EdgeType → Bool
  closes_cycle e = p e && contains_index (D.dfs g p e.target) e.source

  pub search_iff : (any closes_cycle (D.raw_edges g) ≡ true) ↔ Cycle (D.raw_edges g) p
  search_iff = (
    λ h.
        let (e, m, both) = any_iff closes_cycle (D.raw_edges g) h in
        let (pass, back) = (&&_iff _ _).0 both in
        (
          e,
          m,
          pass,
          (D.dfs_iff g p e.target e.source).0
              ((contains_index_iff (D.dfs g p e.target) e.source).0 back),
        ),
    λ (e, m, pass, way). any_of_Memᴰ closes_cycle e (D.raw_edges g) m (
        (&&_iff _ _).1 (
          pass,
          (contains_index_iff (D.dfs g p e.target) e.source).1
              ((D.dfs_iff g p e.target e.source).1 way),
        )),
  )

abbrev pub by_search : (D : DiGraph Resource EdgeType) → CycleCheck D
by_search D = record {
  is_cyclic_directed = λ g p. any (closes_cycle D g p) (D.raw_edges g);
  is_cyclic_iff = search_iff D;
}
