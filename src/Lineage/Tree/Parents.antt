-- ===== src/Lineage/Tree/Parents.antt =====
-- lineage/tree.rs: the parent of each node in a linked tree.
use mathlib.Core.List.Memᴰ
use mathlib.Core.Path.{subst}
use mathlib.Core.Option
use kubectl_nvim.Prelude.{
  ℕ, ◌≡◌, refl, sym, ap, ◌∙◌, inl, inr, true, false, Text, text_eq, ◌==◌, lookup, Option, none,
  some, List, [], ◌∷◌, Memᴰ, Memᴰ-append, get_elem?, find, find-some, find-none, Memᴰ-keep,
  Option-cases, Bool-cases,
}
use kubectl_nvim.Lineage.Resource.{Resource, EdgeType, owns}
use kubectl_nvim.Lineage.Graph.Interface.{Edge, DiGraph, incoming}
use kubectl_nvim.Lineage.Tree.Build.{Tree}
use kubectl_nvim.Lineage.Tree.WellFormed.{nodes, edges}
use kubectl_nvim.Lineage.Tree.Frame.{is_owner_edge}
use kubectl_nvim.Lineage.Tree.Owners.{owner_edge_of, owner_edge_at, owner_edge, owner_edges}
use kubectl_nvim.Lineage.Tree.Link.{owner_index, link_nodes}
use kubectl_nvim.Lineage.Tree.Linked.{IsLinkable, linked-owner_edges}
use kubectl_nvim.Lineage.Tree.Views.{parent_of}

module _ (D : DiGraph Resource EdgeType) (t : Tree D) where
  mem_owner_edges :
      (e : Edge EdgeType) (ks : List Text)
      → Memᴰ e (owner_edges D t ks)
      → (k : Text) × Memᴰ k ks × Memᴰ e (owner_edge D t k)
  mem_owner_edges e [] m = absurd (Memᴰ.not-nil m)
  mem_owner_edges e (k ∷ ks) m =
      elim ((Memᴰ-append e (owner_edge D t k) (owner_edges D t ks)).0 m) [
        | inl first ↦ (k, Memᴰ.head refl, first)
        | inr later ↦ let (j, n, h) = mem_owner_edges e ks later in (j, Memᴰ.tail n, h)
      ]

  owner_edges_mem :
      (e : Edge EdgeType) (k : Text) (ks : List Text)
      → Memᴰ k ks
      → Memᴰ e (owner_edge D t k)
      → Memᴰ e (owner_edges D t ks)
  owner_edges_mem e k [] m h = absurd (Memᴰ.not-nil m)
  owner_edges_mem e k (j ∷ ks) m h = elim (Memᴰ.cases_cons m) [
    | inl same ↦
        Memᴰ.append_left (owner_edges D t ks) (subst (λ x. Memᴰ e (owner_edge D t x)) same h)
    | inr later ↦ Memᴰ.append_right (owner_edge D t j) (owner_edges_mem e k ks later h)
  ]

  mem_owner_edge_of :
      (i : ℕ) (o : Option Resource) (e : Edge EdgeType)
      → Memᴰ e (owner_edge_of D t i o)
      → (r : Resource) × (o ≡ some r) × (e.source ≡ owner_index D t r) × (e.target ≡ i)
  mem_owner_edge_of i none e m = absurd (Memᴰ.not-nil m)
  mem_owner_edge_of i (some r) e m =
      let same = Memᴰ.eq_of_singleton m in
      (
        r,
        refl,
        ap (λ (x : Edge EdgeType). x.source) same,
        ap (λ (x : Edge EdgeType). x.target) same,
      )

  mem_owner_edge_at :
      (o : Option ℕ) (e : Edge EdgeType)
      → Memᴰ e (owner_edge_at D t o)
      → (r : Resource) × (get_elem? (nodes D t) e.target ≡ some r) × (e.source ≡ owner_index D t r)
  mem_owner_edge_at none e m = absurd (Memᴰ.not-nil m)
  mem_owner_edge_at (some i) e m =
      let (r, at, source, target) = mem_owner_edge_of i (get_elem? (nodes D t) i) e m in
      (r, rw target at, source)

  mem_owner_edge :
      (k : Text) (e : Edge EdgeType)
      → Memᴰ e (owner_edge D t k)
      → (r : Resource) × (get_elem? (nodes D t) e.target ≡ some r) × (e.source ≡ owner_index D t r)
  mem_owner_edge k e m = elim (Bool-cases (k == t.root_key)) [
    | inl root ↦ absurd (Memᴰ.not-nil (rw root at m))
    | inr other ↦ mem_owner_edge_at (lookup k t.key_to_index) e (rw other at m)
  ]

  module _ (ks : List Text) (l : IsLinkable D t ks) (u : Tree D)
      (linked : link_nodes D t ks ≡ some u) where
    pub owner_of_edge :
        (e : Edge EdgeType)
        → Memᴰ e (edges D u)
        → is_owner_edge e ≡ true
        → (r : Resource) × (get_elem? (nodes D t) e.target ≡ some r)
          × (e.source ≡ owner_index D t r)
    owner_of_edge e m own =
        let kept = (Memᴰ-keep is_owner_edge e (edges D u)).1 (m, own) in
        let (k, n, h) =
          mem_owner_edges e ks
            (subst (λ es. Memᴰ e es) (linked-owner_edges D t ks l u linked) kept) in
        mem_owner_edge k e h

    -- In what `link_nodes` returns for a well-formed tree without edges, along keys of its map, the
    -- parent of a node that one of the keys other than the root's leads to is the owner that the
    -- resource names first, if this is in the tree, and otherwise the root.
    pub linked-parent_of :
        (k : Text) (i : ℕ) (r : Resource)
        → Memᴰ k ks
        → (k == t.root_key) ≡ false
        → lookup k t.key_to_index ≡ some i
        → get_elem? (nodes D t) i ≡ some r
        → parent_of D u i ≡ some (owner_index D t r)
    unfolding parent_of
    linked-parent_of k i r m off at here =
        let e : Edge EdgeType = record { source = owner_index D t r; target = i; weight = owns } in
        let into = D.edges_directed u.graph i incoming in
        let iff = D.edges_directed_iff u.graph i incoming in
        let here_e : Memᴰ e (owner_edge D t k) = rw (off, at, here) (Memᴰ.head refl) in
        let all_e = owner_edges_mem e k ks m here_e in
        let kept = subst (λ es. Memᴰ e es) (sym (linked-owner_edges D t ks l u linked)) all_e in
        let in_u = (Memᴰ-keep is_owner_edge e (edges D u)).0 kept in
        elim (Option-cases (find is_owner_edge into)) [
          | inl missing ↦ cc (find-none is_owner_edge e into missing ((iff e).1 (in_u.0, refl)))
          | inr (f, found) ↦
              let (n, own) = find-some is_owner_edge into found in
              let (inside, target) = (iff f).0 n in
              let (s, at_s, source) = owner_of_edge f inside own in
              let same = sym at_s ∙ ap (λ (j : ℕ). get_elem? (nodes D t) j) target ∙ here in
              rw found (ap some source ∙ ap (Option.map (owner_index D t)) same)
        ]
