-- ===== src/Lineage/Tree/Linked.antt =====
-- lineage/tree.rs: what `link_nodes` returns.
use mathlib.Core.List.Memᴰ
use mathlib.Core.Path.{subst}
use kubectl_nvim.Prelude.{
  ℕ, ◌<◌, length, ◌≡◌, ◌≢◌, refl, sym, ◌∙◌, false, Text, text_eq, ◌==◌, lookup, some, List, [],
  Memᴰ, get_elem?, keep, get_elem?_of_lt,
}
use kubectl_nvim.Lineage.Resource.{Resource, RelationRef, EdgeType, references}
use kubectl_nvim.Lineage.Graph.Interface.{Edge, DiGraph}
use kubectl_nvim.Lineage.Tree.Build.{Tree}
use kubectl_nvim.Lineage.Tree.WellFormed.{nodes, edges, IsWellFormed}
use kubectl_nvim.Lineage.Tree.Frame.{core?, is_owner_edge, flip, Frame}
use kubectl_nvim.Lineage.Tree.Owners.{owner_edges, owners_built}
use kubectl_nvim.Lineage.Tree.Mirrors.{selector_edges_built, store_missing_refs-Framed}
use kubectl_nvim.Lineage.Tree.Referred.{
  Referred, refers, relations_of, target_of, relations_built, store_missing_refs_edges,
}
use kubectl_nvim.Lineage.Registry.Verdicts.{IsConfig, referenced_config}
use kubectl_nvim.Lineage.Tree.Marks.{Marking, orphans_marked}
use kubectl_nvim.Lineage.Tree.Sources.{Describes}
use kubectl_nvim.Lineage.Tree.Link.{orphan_verdict, link_nodes, store_missing_refs}

module _ (D : DiGraph Resource EdgeType) (t : Tree D) where
  -- The keys of the map.
  abbrev pub AreKeys : List Text → Type 0
  AreKeys ks = (k : Text) → Memᴰ k ks → (i : ℕ) × (lookup k t.key_to_index ≡ some i)

  unlinked-Frame : edges D t ≡ [] → Frame D t [] t
  unlinked-Frame bare = record {
    keys = refl;
    root = refl;
    root_key = refl;
    size = refl;
    alike = λ i. refl;
    owned = rw bare;
    bounded = λ e m. absurd (Memᴰ.not-nil (rw bare at m));
    mirrored = λ e m. absurd (Memᴰ.not-nil (rw bare at m));
  }

  linked-Marking :
      (ks : List Text) (w : IsWellFormed D t)
      → edges D t ≡ []
      → AreKeys ks
      → (u : Tree D) × (link_nodes D t ks ≡ some u)
        × (Marking D t w (owner_edges D t ks) (edges D u) ks u × Referred D t ks (edges D u))
  unfolding link_nodes
  linked-Marking ks w bare known =
      let own = owner_edges D t ks in
      let (owned, e1, f1) = owners_built D t w [] t ks (unlinked-Frame bare) known in
      let (entries, selected, e2, e3, f2) = selector_edges_built D t w own owned ks f1 known in
      let (linked, e4, (f3, all_in)) = relations_built D t w own selected ks f2 known in
      let stored = store_missing_refs D linked.tree linked.node_missing_refs in
      let f4 = store_missing_refs-Framed D t w own linked.tree linked.node_missing_refs f3 in
      let (u, e5, g) = orphans_marked D t w own stored ks f4 known in
      (
        u,
        simp (e1, e2, e3, e4) e5,
        (
          subst (λ (l : List (Edge EdgeType)). Marking D t w own l ks u) (sym g.same_edges) g,
          subst (λ (l : List (Edge EdgeType)). Referred D t ks l)
              (sym (store_missing_refs_edges D linked.tree linked.node_missing_refs)
                ∙ sym g.same_edges)
              all_in,
        ),
      )

  -- A well-formed tree with no edges yet, and keys of its map.
  pub record IsLinkable (ks : List Text) : Type 0 where
    pub formed : IsWellFormed D t
    pub bare : edges D t ≡ []
    pub known : AreKeys ks

  module _ (ks : List Text) (l : IsLinkable ks) where
    -- Linking a well-formed tree without edges, along keys of its map, never panics.
    pub link_nodes_total : (u : Tree D) × (link_nodes D t ks ≡ some u)
    link_nodes_total = let (u, e, _) = linked-Marking ks l.formed l.bare l.known in (u, e)

    module _ (u : Tree D) (linked : link_nodes D t ks ≡ some u) where
      told :
          Marking D t l.formed (owner_edges D t ks) (edges D u) ks u × Referred D t ks (edges D u)
      told =
          let (v, e, found) = linked-Marking ks l.formed l.bare l.known in
          let same : v ≡ u = cc (e, linked) in
          subst
            (λ x.
              Marking D t l.formed (owner_edges D t ks) (edges D x) ks x
              × Referred D t ks (edges D x))
            same found

      marking : Marking D t l.formed (owner_edges D t ks) (edges D u) ks u
      marking = told.0

      -- In what `link_nodes` returns for a well-formed tree without edges, along keys of its map, a
      -- reference edge leads from the resource under one of the keys to each resource of the tree
      -- that one of its relations names.
      pub linked_relation_edge :
          (k : Text) (i j : ℕ) (r : Resource) (relation : RelationRef)
          → Memᴰ k ks
          → lookup k t.key_to_index ≡ some i
          → get_elem? (nodes D t) i ≡ some r
          → Memᴰ relation (relations_of r)
          → target_of D t relation ≡ some j
          → Memᴰ (refers i j) (edges D u)
      linked_relation_edge = told.1

      -- In what `link_nodes` returns for a well-formed tree without edges, along keys of its map, the
      -- ownership edges are these: for each of the keys but the root's, in order, one edge to the
      -- node from the owner that it names first, or from the root if it names none or one that is
      -- not in the tree.
      pub linked-owner_edges : keep is_owner_edge (edges D u) ≡ owner_edges D t ks
      linked-owner_edges = marking.frame.owned

      pub linked_bounded : (e : Edge EdgeType) → Memᴰ e (edges D u) → e.source < length (nodes D t)
      linked_bounded = marking.frame.bounded

      pub linked_size : length (nodes D u) ≡ length (nodes D t)
      linked_size = marking.frame.size

      -- In what `link_nodes` returns for a well-formed tree without edges, along keys of its map,
      -- each reference edge has its opposite.
      pub linked_mirrored :
          (e : Edge EdgeType)
          → Memᴰ e (edges D u)
          → e.weight ≡ references
          → Memᴰ (flip e) (edges D u)
      linked_mirrored = marking.frame.mirrored

      -- Linking a well-formed tree without edges, along keys of its map, changes neither the map nor
      -- the root, and of no resource more than the flag and the missing references.
      pub linked_unchanged :
          (u.key_to_index ≡ t.key_to_index)
          × (u.root_index ≡ t.root_index)
          × ((i : ℕ) → core? (get_elem? (nodes D u) i) ≡ core? (get_elem? (nodes D t) i))
      linked_unchanged = (marking.frame.keys, marking.frame.root, marking.frame.alike)

      -- In what `link_nodes` returns for a well-formed tree without edges, along keys of its map, the
      -- flag of a node that one of the keys other than the root's leads to is the verdict of
      -- `is_resource_orphan` on the edges that lead to the node from others than the root.
      pub linked_verdict :
          (k : Text) (i : ℕ) (r : Resource)
          → Memᴰ k ks
          → (k == t.root_key) ≡ false
          → lookup k t.key_to_index ≡ some i
          → get_elem? (nodes D u) i ≡ some r
          → (refs : List (EdgeType × Text)) × Describes D t (edges D u) i refs
            × (r.is_orphan ≡ orphan_verdict r refs)
      linked_verdict k i r m off at here = marking.marks k i m off at r here

      -- In what `link_nodes` returns for a well-formed tree without edges, along keys of its map, a
      -- config map or secret that one of the keys other than the root's leads to, and to which a
      -- node other than the root has a reference edge, is not flagged as an orphan.
      pub linked_config :
          (k : Text) (i : ℕ) (r : Resource) (e : Edge EdgeType)
          → Memᴰ k ks
          → (k == t.root_key) ≡ false
          → lookup k t.key_to_index ≡ some i
          → get_elem? (nodes D u) i ≡ some r
          → IsConfig r.kind
          → Memᴰ e (edges D u)
          → e.weight ≡ references
          → e.target ≡ i
          → e.source ≢ t.root_index
          → r.is_orphan ≡ false
      linked_config k i r e m off at here config edge weight target other =
          let (refs, char, flag) = linked_verdict k i r m off at here in
          let (s, at_source) =
            get_elem?_of_lt (nodes D t) e.source (marking.frame.bounded e edge) in
          let used = (char (e.weight, s.kind)).1 (e, edge, target, (s, other, at_source, refl)) in
          flag
          ∙ referenced_config r.kind r.name s.kind r.namespace _ config
              (subst (λ (x : EdgeType). Memᴰ (x, s.kind) refs) weight used)
