-- ===== src/Lineage/Listing/Impacted.antt =====
-- lineage/tree.rs: what `compute_impact` lists for a linked tree.
use mathlib.Core.Path.{subst}
use kubectl_nvim.Prelude.{
  ℕ, ◌≡◌, ◌↔◌, refl, sym, ap, ◌∙◌, inl, false, Text, text_eq, ◌==◌, lookup, some, List, ◌++◌, map,
  Memᴰ, get_elem?, text_cmp, text_cmp-IsOrder, sort_by, on, on-IsOrder, Ascending, Memᴰ-sort_by,
  sort_by-Ascending, Memᴰ-map,
}
use kubectl_nvim.Lineage.Resource.{Resource, RelationRef, EdgeType}
use kubectl_nvim.Lineage.Graph.Interface.{Edge, DiGraph, incoming}
use kubectl_nvim.Lineage.Tree.Build.{Tree}
use kubectl_nvim.Lineage.Tree.WellFormed.{nodes}
use kubectl_nvim.Lineage.Tree.Link.{link_nodes}
use kubectl_nvim.Lineage.Tree.Views.{get_key_for_index}
use kubectl_nvim.Lineage.Tree.Referred.{refers, relations_of, target_of}
use kubectl_nvim.Lineage.Tree.Linked.{
  IsLinkable, linked_unchanged, linked_relation_edge, linked_mirrored,
}
use kubectl_nvim.Lineage.Listing.Family.{linked-InRange, linked_key_iff}
use kubectl_nvim.Lineage.Query.Select.{InRange}
use kubectl_nvim.Lineage.Query.Related.{chained}
use kubectl_nvim.Lineage.Listing.Gather.{gather_total}
use kubectl_nvim.Lineage.Listing.Impact.{
  OwnedBy, Impacted, refers_to_it, entry_key, with_reason, first, second, referencer, affected,
  impact_at, compute_impact,
}
use kubectl_nvim.Lineage.Listing.Affected.{
  Referencer, referencer_total, affected_total, direct_iff, listed_iff,
}

module _ (D : DiGraph Resource EdgeType) (t : Tree D) (range : InRange D t)
    (key_iff : (x : ℕ) (key : Text)
      → (get_key_for_index D t x ≡ some key) ↔ (lookup key t.key_to_index ≡ some x)) where
  pub impact_at_total :
      (idx : ℕ)
      → (found : List (Text × Text)) × (impact_at D t idx ≡ some found)
        × Ascending (on entry_key text_cmp) found
        × ((b : Text × Text) → Memᴰ b found ↔ Impacted D t idx b)
  unfolding impact_at
  impact_at_total idx =
      let into = D.edges_directed t.graph idx incoming in
      let in_graph = λ (e : Edge EdgeType). D.edges_directed_iff t.graph idx incoming e in
      let (found, e, told) =
        gather_total (referencer D t) (Referencer D t range key_iff) into
          (λ f m. referencer_total D t range key_iff f (range f ((in_graph f).0 m).0).0) in
      let direct =
        λ (x : ℕ) (k : Text). chained (told (x, k)) (direct_iff D t range key_iff idx x k) in
      let (more, e', told') = gather_total (affected D t) (OwnedBy D t) (map first found) (λ x m.
        let ((y, k), n, same) = (Memᴰ-map first found x).0 m in
        let (refers, _, _) = (direct y k).0 n in
        let (f, inside, _, from, _) = refers in
        affected_total D t range key_iff x (rw (same, ← from) (range f inside).0)) in
      let all_found = map (with_reason refers_to_it) (map second found) ++ more in
      let order = on-IsOrder entry_key text_cmp-IsOrder in
      (
        sort_by (on entry_key text_cmp) all_found,
        simp (e, e') refl,
        sort_by-Ascending (on entry_key text_cmp) order all_found,
        λ b.
            chained (Memᴰ-sort_by (on entry_key text_cmp) b all_found)
              (listed_iff D t range key_iff idx found more direct told' b),
      )

module _ (D : DiGraph Resource EdgeType) (t : Tree D) (ks : List Text) (l : IsLinkable D t ks)
    (u : Tree D) (linked : link_nodes D t ks ≡ some u) where
  -- In what `link_nodes` returns for a well-formed tree without edges, along keys of its map: the
  -- impact on a resource of the tree is found without a panic, in the order of the keys. It lists the
  -- resources other than the root that have a reference edge to it, with the reason "references",
  -- and what each of them owns, directly or not, but for the root and the owner itself, with the
  -- reason "owned by affected", and nothing else.
  pub compute_impact_total :
      (key : Text) (idx : ℕ)
      → lookup key t.key_to_index ≡ some idx
      → (found : List (Text × Text)) × (compute_impact D u key ≡ some found)
        × Ascending (on entry_key text_cmp) found
        × ((b : Text × Text) → Memᴰ b found ↔ Impacted D u idx b)
  unfolding compute_impact
  compute_impact_total key idx at =
      let (same, _, _) = linked_unchanged D t ks l u linked in
      let key_iff : (x : ℕ) (k : Text)
          → (get_key_for_index D u x ≡ some k) ↔ (lookup k u.key_to_index ≡ some x) =
        λ x k.
          subst (λ m. (get_key_for_index D u x ≡ some k) ↔ (lookup k m ≡ some x)) (sym same)
            (linked_key_iff D t ks l u linked x k) in
      let found = impact_at_total D u (linked-InRange D t ks l u linked) key_iff idx in
      let at_u : lookup key u.key_to_index ≡ some idx = ap (λ m. lookup key m) same ∙ at in
      rw at_u found

  -- In such a tree the impact on a resource also lists what this resource itself refers to: each
  -- resource of the tree, other than the root, that one of its relations names.
  pub impact_lists_relations :
      (k : Text) (i j : ℕ) (r : Resource) (relation : RelationRef)
      → Memᴰ k ks
      → lookup k t.key_to_index ≡ some i
      → get_elem? (nodes D t) i ≡ some r
      → Memᴰ relation (relations_of r)
      → (named : Text) → lookup named t.key_to_index ≡ some j
      → target_of D t relation ≡ some j
      → (named == u.root_key) ≡ false
      → (found : List (Text × Text)) × (compute_impact D u k ≡ some found)
        × Memᴰ (named, refers_to_it) found
  impact_lists_relations k i j r relation m at node rel named at_j to off =
      let (found, e, _, told) = compute_impact_total k i at in
      let edge = linked_relation_edge D t ks l u linked k i j r relation m at node rel to in
      let back = linked_mirrored D t ks l u linked (refers i j) edge refl in
      let key = (linked_key_iff D t ks l u linked j named).1 at_j in
      (
        found,
        e,
        (told (named, refers_to_it)).1
            (j, ((refers j i, back, refl, refl, refl), (named, key, off)), inl (key, refl)),
      )
