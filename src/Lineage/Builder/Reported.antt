-- ===== src/Lineage/Builder/Reported.antt =====
-- lineage/builder.rs: what the nodes that are reported say of a linked tree.
use kubectl_nvim.Prelude.{
  ℕ, ◌<◌, ◌≡◌, refl, ap, ◌∙◌, inl, inr, Bool, Text, text_eq, lookup, Option, none, some, List, [],
  ◌∷◌, Memᴰ, map, keep, Memᴰ-keep, length, text_cmp, sort_by, Memᴰ-sort_by, lt-length_of_get_elem?,
  get_elem?_of_lt, Option-cases, get_elem?,
}
use kubectl_nvim.Lineage.Resource.{Resource, EdgeType}
use kubectl_nvim.Lineage.Graph.Interface.{Edge, DiGraph, outgoing}
use kubectl_nvim.Lineage.Tree.Build.{Tree}
use kubectl_nvim.Lineage.Tree.WellFormed.{nodes}
use kubectl_nvim.Lineage.Tree.Frame.{is_owner_edge}
use kubectl_nvim.Lineage.Tree.Link.{link_nodes}
use kubectl_nvim.Lineage.Tree.Linked.{IsLinkable, linked_size, linked_unchanged}
use kubectl_nvim.Lineage.Tree.Views.{get_key_for_index, get_parent_key, parent_of, source_of}
use kubectl_nvim.Lineage.Query.Climb.{key_in, parent_edge}
use kubectl_nvim.Lineage.Query.Select.{InRange, target, is_reference}
use kubectl_nvim.Lineage.Query.Added.{mem_targets}
use kubectl_nvim.Lineage.Listing.Family.{linked-InRange}
use kubectl_nvim.Lineage.Listing.Collect.{collect, collect_total}
use kubectl_nvim.Lineage.Listing.Keys.{get_children_keys, get_leaf_keys}
use kubectl_nvim.Prelude.{
  ◌↔◌, ◌≢◌, true, sym, Ascending, sort_by-Ascending, text_cmp-IsOrder, find, find-none,
}
use kubectl_nvim.Lineage.Graph.Interface.{incoming}
use kubectl_nvim.Lineage.Tree.WellFormed.{edges}
use kubectl_nvim.Lineage.Query.Related.{chained}
use mathlib.Core.Bool.{false≢true}
use kubectl_nvim.Lineage.Builder.Nodes.{
  SerializableNode, from_resource_and_edges, node_of, nodes_of,
}

module _ (D : DiGraph Resource EdgeType) (t : Tree D) where
  -- The keys of the nodes to which edges of one kind lead from a node.
  abbrev pub KeysTo : (Edge EdgeType → Bool) → ℕ → List Text → Type 0
  KeysTo p i ks =
      (k : Text)
      → Memᴰ k ks ↔ (
          (e : Edge EdgeType) × Memᴰ e (edges D t)
          × (p e ≡ true)
          × (e.source ≡ i)
          × (get_key_for_index D t e.target ≡ some k))

  -- The key of an owner of a node, if it has one.
  pub data OwnerKey (i : ℕ) : Option Text → Type 0 where
    unowned :
        ((e : Edge EdgeType) → Memᴰ e (edges D t) → is_owner_edge e ≡ true → e.target ≢ i)
        → OwnerKey i none
    owned_by :
        (e : Edge EdgeType) {k : Text}
        → Memᴰ e (edges D t)
        → is_owner_edge e ≡ true
        → e.target ≡ i
        → get_key_for_index D t e.source ≡ some k
        → OwnerKey i (some k)

  -- What is said of the resource under a key.
  pub record Reported (key : Text) (n : SerializableNode) : Type 0 where
    pub index : ℕ
    pub resource : Resource
    pub key_of : n.key ≡ key
    pub at : lookup key t.key_to_index ≡ some index
    pub here : get_elem? (nodes D t) index ≡ some resource
    pub kind : (n.kind ≡ resource.kind) × (n.resource.kind ≡ resource.kind)
    pub name : (n.name ≡ resource.name) × (n.resource.name ≡ resource.name)
    pub ns : (n.ns ≡ resource.namespace) × (n.resource.ns ≡ resource.namespace)
    pub flag : (n.is_orphan ≡ resource.is_orphan) × (n.resource.is_orphan ≡ resource.is_orphan)
    pub ascending : Ascending text_cmp n.children_keys
    pub children : KeysTo is_owner_edge index n.children_keys
    pub leaves : KeysTo is_reference index n.leaf_keys
    pub parent : OwnerKey index n.parent_key

  -- One node for each of the keys, in order.
  pub data Reports : List Text → List SerializableNode → Type 0 where
    no_nodes : Reports [] []
    one_node :
        {k : Text} {ks : List Text} {n : SerializableNode} {ns : List SerializableNode}
        → Reported k n
        → Reports ks ns
        → Reports (k ∷ ks) (n ∷ ns)

  targets_in :
      (p : Edge EdgeType → Bool) (i : ℕ)
      → InRange D t
      → (x : ℕ) → Memᴰ x (map target (keep p (D.edges_directed t.graph i outgoing)))
      → x < length (nodes D t)
  targets_in p i r x m =
      let out = D.edges_directed t.graph i outgoing in
      let (e, n, to) = (mem_targets D t x (keep p out)).0 m in
      let (n', _) = (Memᴰ-keep p e out).0 n in
      rw (← to) (r e ((D.edges_directed_iff t.graph i outgoing e).0 n').0).1

  keyed :
      (p : Edge EdgeType → Bool) (i : ℕ)
      → InRange D t
      → (ks : List Text) × (collect
            (get_key_for_index D t)
            (map target (keep p (D.edges_directed t.graph i outgoing)))
          ≡ some ks)
        × KeysTo p i ks
  keyed p i r =
      let out = D.edges_directed t.graph i outgoing in
      let xs = map target (keep p out) in
      let (ks, e, told) =
        collect_total (get_key_for_index D t) xs (λ x m. key_in D t x (targets_in p i r x m)) in
      (
        ks,
        e,
        λ k. (
          λ m.
              let (x, n, at) = (told k).0 m in
              let (e, n', to) = (mem_targets D t x (keep p out)).0 n in
              let (n'', pass) = (Memᴰ-keep p e out).0 n' in
              let (inside, from) = (D.edges_directed_iff t.graph i outgoing e).0 n'' in
              (e, inside, pass, from, ap (λ j. get_key_for_index D t j) to ∙ at),
          λ (e, inside, pass, from, at).
              let n = (D.edges_directed_iff t.graph i outgoing e).1 (inside, from) in
              (told k).1 (
                e.target,
                (mem_targets D t e.target (keep p out)).1
                    (e, (Memᴰ-keep p e out).1 (n, pass), refl),
                at,
              ),
        ),
      )

  not_below :
      (i : ℕ)
      → parent_of D t i ≡ none
      → (e : Edge EdgeType) → Memᴰ e (edges D t)
      → is_owner_edge e ≡ true
      → e.target ≢ i
  unfolding parent_of
  not_below i lone e m own same =
      let into = D.edges_directed t.graph i incoming in
      let n = (D.edges_directed_iff t.graph i incoming e).1 (m, same) in
      elim (Option-cases (find is_owner_edge into)) [
        | inl missing ↦ false≢true (sym (find-none is_owner_edge e into missing n) ∙ own)
        | inr (f, found) ↦ cc (lone, ap source_of found)
      ]

  parent_total :
      (i : ℕ) → InRange D t → (p : Option Text) × (get_parent_key D t i ≡ some p) × OwnerKey i p
  unfolding get_parent_key
  parent_total i r = elim (Option-cases (parent_of D t i)) [
    | inl lone ↦ (none, rw lone refl, unowned (not_below i lone))
    | inr (q, up) ↦
        let (e, inside, own, to, from) = parent_edge D t i q up in
        let (key, at) = key_in D t q (rw (← from) (r e inside).0) in
        (
          some key,
          rw (up, at) refl,
          owned_by e inside own to (ap (λ j. get_key_for_index D t j) from ∙ at),
        )
  ]

  -- Where the edges stay inside the graph, every node of a key can be reported.
  node_of_total :
      (key : Text) (i : ℕ)
      → InRange D t
      → lookup key t.key_to_index ≡ some i
      → i < length (nodes D t)
      → (n : SerializableNode) × (node_of D t key ≡ some n) × Reported key n
  unfolding node_of from_resource_and_edges get_children_keys get_leaf_keys
  node_of_total key i r at h =
      let (resource, here) = get_elem?_of_lt (nodes D t) i h in
      let (cs, e1, owns_told) = keyed is_owner_edge i r in
      let (ls, e2, refs_told) = keyed is_reference i r in
      let (p, e3, owner_told) = parent_total i r in
      (
        from_resource_and_edges resource key (sort_by text_cmp cs) ls p,
        rw (at, D.node_weight_lem t.graph i, here, e1, e2, e3) refl,
        record {
          index = i;
          resource = resource;
          key_of = refl;
          at = at;
          here = here;
          kind = (refl, refl);
          name = (refl, refl);
          ns = (refl, refl);
          flag = (refl, refl);
          ascending = sort_by-Ascending text_cmp text_cmp-IsOrder cs;
          children = λ k. chained (Memᴰ-sort_by text_cmp k cs) (owns_told k);
          leaves = refs_told;
          parent = owner_told;
        },
      )

  -- What `nodes_of` finds, key by key.
  reported :
      (ks : List Text)
      → ((k : Text) → Memᴰ k ks → (n : SerializableNode) × (node_of D t k ≡ some n) × Reported k n)
      → (ns : List SerializableNode) × (collect (node_of D t) ks ≡ some ns) × Reports ks ns
  unfolding collect
  reported [] h = ([], refl, no_nodes)
  reported (k ∷ ks) h =
      let (n, e, told) = h k (Memᴰ.head refl) in
      let (ns, e', rest) = reported ks (λ j m. h j (Memᴰ.tail m)) in
      (n ∷ ns, rw (e, e') refl, one_node told rest)

module _ (D : DiGraph Resource EdgeType) (t : Tree D) (ks : List Text) (l : IsLinkable D t ks)
    (u : Tree D) (linked : link_nodes D t ks ≡ some u) where
  -- The nodes of what `link_nodes` returns for a well-formed tree without edges, along keys of its
  -- map, are reported without a panic: one for each of the keys, in order.
  pub nodes_of_total :
      (ns : List SerializableNode) × (nodes_of D u ks ≡ some ns)
      × Reports D u (sort_by text_cmp ks) ns
  unfolding nodes_of
  nodes_of_total =
      let (same, _, _) = linked_unchanged D t ks l u linked in
      reported D u (sort_by text_cmp ks) (λ k m.
        let (i, at) = l.known k ((Memᴰ-sort_by text_cmp k ks).0 m) in
        let (r, here, _) = l.formed.indexed k i at in
        node_of_total D u k i (linked-InRange D t ks l u linked) (ap (λ x. lookup k x) same ∙ at)
          (rw (linked_size D t ks l u linked) (lt-length_of_get_elem? (nodes D t) i here)))
