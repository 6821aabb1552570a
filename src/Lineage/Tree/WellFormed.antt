-- ===== src/Lineage/Tree/WellFormed.antt =====
-- lineage/tree.rs: the map of keys and the graph agree, whatever is added to the tree.
use mathlib.Core.List.Memᴰ
use kubectl_nvim.Prelude.{
  zero, ℕ, ◌<◌, ◌≡◌, inl, inr, Text, text_eq, ◌==◌, lookup, insert, contains_key, lookup-insert,
  none, some, List, [], ◌∷◌, Memᴰ, length, get_elem?, get_elem?-concat, get_elem?-append_left,
  get_elem?-concat_cases, Option-cases, Bool-cases, arith, if◌then◌else◌, false, text_beq_iff,
  ==_refl, length-append, is_some, suc,
}
use kubectl_nvim.Lineage.Resource.{Resource, EdgeType}
use kubectl_nvim.Lineage.Graph.Interface.{Edge, DiGraph}
use kubectl_nvim.Lineage.Tree.Keys.{get_resource_key}
use kubectl_nvim.Lineage.Tree.Build.{Tree, new, add_node}

module _ (D : DiGraph Resource EdgeType) where
  abbrev pub nodes : Tree D → List Resource
  nodes t = D.raw_nodes t.graph

  abbrev pub edges : Tree D → List (Edge EdgeType)
  edges t = D.raw_edges t.graph

  -- A node that holds a resource of this key.
  abbrev pub HasKey : Tree D → ℕ → Text → Type 0
  HasKey t i k = (r : Resource) × (get_elem? (nodes t) i ≡ some r) × (get_resource_key r ≡ k)

  pub record IsWellFormed (t : Tree D) : Type 0 where
    pub indexed : (k : Text) (i : ℕ) → lookup k t.key_to_index ≡ some i → HasKey t i k
    pub named :
        (i : ℕ) (r : Resource)
        → get_elem? (nodes t) i ≡ some r
        → lookup (get_resource_key r) t.key_to_index ≡ some i
    pub rooted : lookup t.root_key t.key_to_index ≡ some t.root_index
    pub edged :
        (e : Edge EdgeType)
        → Memᴰ e (edges t)
        → (e.source < length (nodes t)) × (e.target < length (nodes t))

  -- The tree after `add_node` of a resource whose key is new.
  abbrev grown : Tree D → Resource → Tree D
  grown t r = record t {
    graph = (D.add_node t.graph r).0;
    key_to_index = insert (get_resource_key r) (D.add_node t.graph r).1 t.key_to_index;
  }

  module _ (t : Tree D) (r : Resource) (w : IsWellFormed t)
      (free : lookup (get_resource_key r) t.key_to_index ≡ none) where
    abbrev key : Text
    key = get_resource_key r

    abbrev index : ℕ
    index = (D.add_node t.graph r).1

    grown-get :
        (i : ℕ) {x : Resource}
        → get_elem? (nodes t) i ≡ some x
        → get_elem? (nodes (grown t r)) i ≡ some x
    grown-get i h = rw (D.add_node_nodes t.graph r) (get_elem?-append_left (nodes t) (r ∷ []) i h)

    grown-get_new : get_elem? (nodes (grown t r)) index ≡ some r
    grown-get_new =
        rw (D.add_node_nodes t.graph r, D.add_node_index t.graph r) (get_elem?-concat (nodes t) r)

    grown-lookup :
        (k : Text)
        → lookup k (grown t r).key_to_index
          ≡ (if key == k then some index else lookup k t.key_to_index)
    grown-lookup k = lookup-insert key k index t.key_to_index

    -- An old key is not the new one.
    old_key : (k : Text) {i : ℕ} → lookup k t.key_to_index ≡ some i → (key == k) ≡ false
    old_key k h = ground (arith, text_beq_iff key k, free)

    grown-indexed :
        (k : Text) (i : ℕ) → lookup k (grown t r).key_to_index ≡ some i → HasKey (grown t r) i k
    grown-indexed k i h = elim (Bool-cases (key == k)) [
      | inl same ↦
          let e : index ≡ i = ground (arith, grown-lookup k) in
          (r, rw (← e) grown-get_new, (text_beq_iff key k).0 same)
      | inr other ↦
          let (x, at, named) = w.indexed k i (ground (arith, grown-lookup k)) in
          (x, grown-get i at, named)
    ]

    grown-named :
        (i : ℕ) (x : Resource)
        → get_elem? (nodes (grown t r)) i ≡ some x
        → lookup (get_resource_key x) (grown t r).key_to_index ≡ some i
    grown-named i x h =
        elim (get_elem?-concat_cases (nodes t) r i (rw (D.add_node_nodes t.graph r) at h)) [
          | inl old ↦
              let e = w.named i x old in
              rw (grown-lookup (get_resource_key x), old_key (get_resource_key x) e) e
          | inr (last, same) ↦
              rw (← same, grown-lookup key, ==_refl key, D.add_node_index t.graph r, last)
        ]

    grown-edged :
        (e : Edge EdgeType)
        → Memᴰ e (edges (grown t r))
        → (e.source < length (nodes (grown t r))) × (e.target < length (nodes (grown t r)))
    grown-edged e m =
        let m' = rw (D.add_node_edges t.graph r) at m in
        let (s, g) = w.edged e m' in
        rw (D.add_node_nodes t.graph r) (omega (arith, s, g, length-append (nodes t) (r ∷ [])))

    grown-IsWellFormed : IsWellFormed (grown t r)
    grown-IsWellFormed = record {
      indexed = grown-indexed;
      named = grown-named;
      rooted = rw (grown-lookup t.root_key, old_key t.root_key w.rooted) w.rooted;
      edged = grown-edged;
    }

  -- `add_node` keeps the tree well formed, whether or not the key was there.
  pub add_node-IsWellFormed :
      (t : Tree D) (r : Resource) → IsWellFormed t → IsWellFormed (add_node D t r)
  unfolding add_node contains_key
  add_node-IsWellFormed t r w = elim (Option-cases (lookup (get_resource_key r) t.key_to_index)) [
    | inl free ↦ rw (free, is_some) (grown-IsWellFormed t r w free)
    | inr (i, taken) ↦ rw (taken, is_some) w
  ]

  module _ (root : Resource) where
    pub new-nodes : nodes (new D root) ≡ root ∷ []
    unfolding new
    new-nodes = rw (D.add_node_nodes D.new root, D.new_nodes)

    new-index : (D.add_node D.new root).1 ≡ 0
    new-index = rw (D.add_node_index D.new root, D.new_nodes)

    new-lookup :
        (k : Text)
        → lookup k (new D root).key_to_index ≡ (if get_resource_key root == k then some 0 else none)
    unfolding new insert lookup
    new-lookup k = rw new-index

    pub new-edges : edges (new D root) ≡ []
    unfolding new
    new-edges = rw (D.add_node_edges D.new root, D.new_edges)

    new_found :
        (k : Text) (i : ℕ)
        → lookup k (new D root).key_to_index ≡ some i
        → (i ≡ 0) × (get_resource_key root ≡ k)
    new_found k i h = ground (arith, new-lookup k, text_beq_iff (get_resource_key root) k)

    pub only_root : (i : ℕ) {r : Resource} → get_elem? (root ∷ []) i ≡ some r → (i ≡ 0) × (root ≡ r)
    only_root zero h = ground arith
    only_root (suc i) h = ground arith

    root_found :
        lookup (new D root).root_key (new D root).key_to_index ≡ some (new D root).root_index
    unfolding new insert lookup
    root_found = rw (==_refl (get_resource_key root))

    -- A new tree, which holds the root alone, is well formed.
    pub new-IsWellFormed : IsWellFormed (new D root)
    new-IsWellFormed = record {
      indexed = λ k i h. let (at, same) = new_found k i h in (root, rw (new-nodes, at), same);
      named = λ i r h.
          let (at, same) = only_root i (rw new-nodes at h) in
          rw (new-lookup (get_resource_key r), ← same, ==_refl (get_resource_key root), at);
      rooted = root_found;
      edged = λ e m. absurd (Memᴰ.not-nil (rw new-edges at m));
    }
