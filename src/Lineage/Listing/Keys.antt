-- ===== src/Lineage/Listing/Keys.antt =====
-- lineage/query.rs: `collect_keys`, and lineage/tree.rs: `get_related_items`, `get_children_keys`
-- and `get_leaf_keys`.
use kubectl_nvim.Prelude.{
  ℕ, ◌<◌, ◌≡◌, ◌↔◌, inl, inr, ap, ◌∙◌, Text, text_eq, lookup, Option, none, some, List, map, keep,
  Memᴰ, length, text_cmp, text_cmp-IsOrder, sort_by, Ascending, Memᴰ-sort_by, sort_by-Ascending,
  Unique, sort_by-Unique, Option-cases,
}
use kubectl_nvim.Lineage.Resource.{Resource, EdgeType}
use kubectl_nvim.Lineage.Graph.Interface.{DiGraph, outgoing}
use kubectl_nvim.Lineage.Tree.Build.{Tree}
use kubectl_nvim.Lineage.Tree.Frame.{is_owner_edge}
use kubectl_nvim.Lineage.Tree.WellFormed.{nodes}
use kubectl_nvim.Lineage.Tree.Views.{get_key_for_index}
use kubectl_nvim.Lineage.Query.Climb.{Run, finished, panicked, out_of_fuel, Ranked, key_in}
use kubectl_nvim.Lineage.Query.Select.{is_reference, target, InRange}
use kubectl_nvim.Lineage.Query.Related.{subgraph_nodes, subgraph_nodes_total, Related, chained}
use kubectl_nvim.Lineage.Listing.Collect.{collect, collect_total, collect-Unique}
use kubectl_nvim.Lineage.Query.Sets.{subgraph_nodes-Unique}
use mathlib.Core.Path.{subst}

abbrev pub sorted : Option (List Text) → Option (List Text)
sorted none = none
sorted (some keys) = some (sort_by text_cmp keys)

module _ (D : DiGraph Resource EdgeType) (t : Tree D) where
  unfoldable pub collect_keys : List ℕ → Option (List Text)
  collect_keys xs = sorted (collect (get_key_for_index D t) xs)

  abbrev pub run_keys : Option (List Text) → Run (List Text)
  run_keys none = panicked
  run_keys (some keys) = finished keys

  abbrev pub keys_of : Run (List ℕ) → Run (List Text)
  keys_of (finished xs) = run_keys (collect_keys xs)
  keys_of panicked = panicked
  keys_of out_of_fuel = out_of_fuel

  -- An unknown key gives no nodes, and so no keys.
  unfoldable pub get_related_items : ℕ → Text → Run (List Text)
  get_related_items fuel node_key = keys_of (subgraph_nodes D t fuel node_key)

  unfoldable pub get_children_keys : ℕ → Option (List Text)
  get_children_keys idx = sorted (
      collect (get_key_for_index D t)
        (map target (keep is_owner_edge (D.edges_directed t.graph idx outgoing))))

  unfoldable pub get_leaf_keys : ℕ → Option (List Text)
  get_leaf_keys idx =
      collect (get_key_for_index D t)
        (map target (keep is_reference (D.edges_directed t.graph idx outgoing)))

  -- The keys of nodes, sorted.
  abbrev pub KeysOf : (ℕ → Type 0) → List Text → Type 0
  KeysOf P keys = (k : Text) → Memᴰ k keys ↔ ((x : ℕ) × P x × (get_key_for_index D t x ≡ some k))

  pub collect_keys_total :
      (xs : List ℕ)
      → ((x : ℕ) → Memᴰ x xs → (key : Text) × (get_key_for_index D t x ≡ some key))
      → (keys : List Text) × (collect_keys xs ≡ some keys)
        × Ascending text_cmp keys
        × KeysOf (λ x. Memᴰ x xs) keys
  unfolding collect_keys
  collect_keys_total xs h =
      let (ks, e, told) = collect_total (get_key_for_index D t) xs h in
      (
        sort_by text_cmp ks,
        ap sorted e,
        sort_by-Ascending text_cmp text_cmp-IsOrder ks,
        λ k. chained (Memᴰ-sort_by text_cmp k ks) (told k),
      )

  -- No two nodes have the same key.
  abbrev pub OneKeyEach : Type 0
  OneKeyEach =
      (x y : ℕ) (k : Text)
      → get_key_for_index D t x ≡ some k
      → get_key_for_index D t y ≡ some k
      → x ≡ y

  collect_keys-Unique :
      (xs : List ℕ) (keys : List Text)
      → OneKeyEach
      → Unique xs
      → collect_keys xs ≡ some keys
      → Unique keys
  unfolding collect_keys
  collect_keys-Unique xs keys apart u h = elim (Option-cases (collect (get_key_for_index D t) xs)) [
    | inl missing ↦ absurd (cc (h, ap sorted missing))
    | inr (ks, found) ↦
        let same : sort_by text_cmp ks ≡ keys = cc (h, ap sorted found) in
        subst Unique same
          (sort_by-Unique text_cmp ks (collect-Unique (get_key_for_index D t) apart xs ks u found))
  ]

  Related-key :
      (idx x : ℕ)
      → idx < length (nodes D t)
      → Related D t idx x
      → (key : Text) × (get_key_for_index D t x ≡ some key)
  Related-key idx x h (inl (inl (inl same))) = rw same (key_in D t idx h)
  Related-key idx x h (inl (inl (inr (above, off)))) = (off.0, off.1)
  Related-key idx x h (inl (inr (i, a, w, off))) = (off.0, off.1)
  Related-key idx x h (inr (i, f, w, off)) = (off.0, off.1)

  module _ (rank : ℕ → ℕ) (ranked : Ranked D t rank) where
    -- If ownership goes up in some rank, the edges stay inside the graph and no two nodes have the
    -- same key, then the related items of a node are found, without a panic: they are the keys of its
    -- subgraph, in order, each once.
    pub get_related_items_total :
        (fuel idx : ℕ) (key : Text)
        → InRange D t
        → lookup key t.key_to_index ≡ some idx
        → idx < length (nodes D t)
        → rank idx < fuel
        → OneKeyEach
        → (keys : List Text) × (get_related_items fuel key ≡ finished keys)
          × Ascending text_cmp keys
          × Unique keys
          × KeysOf (Related D t idx) keys
    unfolding get_related_items
    get_related_items_total fuel idx key r at inside low apart =
        let (xs, e, told) = subgraph_nodes_total D t rank ranked fuel idx key r at inside low in
        let (keys, g, up, all_keys) =
          collect_keys_total xs (λ x m. Related-key idx x inside ((told x).0 m)) in
        (
          keys,
          ap keys_of e ∙ ap run_keys g,
          up,
          collect_keys-Unique xs keys apart (subgraph_nodes-Unique D t fuel key xs e) g,
          λ k. (
            λ m. let (x, n, h) = (all_keys k).0 m in (x, (told x).0 n, h),
            λ (x, n, h). (all_keys k).1 (x, (told x).1 n, h),
          ),
        )
