-- ===== src/Lineage/Builder/Safe.antt =====
-- lineage/builder.rs: no query panics on a tree that was built.
use mathlib.Core.List.Memᴰ
use kubectl_nvim.Prelude.{
  ℕ, zero, suc, ◌<◌, ◌≡◌, ◌≢◌, refl, sym, ap, ◌∙◌, inl, inr, Text, text_eq, ◌==◌, lookup, Option,
  none, some, List, [], ◌∷◌, ◌++◌, Memᴰ, Memᴰ-append, Memᴰ-extend, extend, length, Option-cases,
  Bool-cases, lt-length_of_get_elem?, get_elem?_of_lt,
}
use kubectl_nvim.Lineage.Resource.{Resource, EdgeType}
use kubectl_nvim.Lineage.Graph.Interface.{DiGraph}
use kubectl_nvim.Lineage.Tree.Build.{Tree}
use kubectl_nvim.Lineage.Tree.WellFormed.{nodes}
use kubectl_nvim.Lineage.Tree.Link.{link_nodes}
use kubectl_nvim.Lineage.Tree.Linked.{IsLinkable, linked_unchanged, linked_size}
use kubectl_nvim.Lineage.Tree.Views.{parent_of}
use kubectl_nvim.Lineage.Query.Climb.{
  Run, finished, panicked, out_of_fuel, prepend, append_run, insert_all, climb, climb_all,
  ancestors, off_root, parent_edge, key_in,
}
use kubectl_nvim.Lineage.Query.Select.{InRange, descendants, with_references}
use kubectl_nvim.Lineage.Query.Added.{walk_in_range, descendants_total, with_references_total}
use kubectl_nvim.Lineage.Query.Related.{subgraph_from, subgraph_nodes, from_key, and_then}
use kubectl_nvim.Lineage.Listing.Keys.{get_related_items, keys_of, run_keys, collect_keys_total}
use kubectl_nvim.Lineage.Listing.Impact.{compute_impact}
use kubectl_nvim.Lineage.Listing.Impacted.{compute_impact_total}
use kubectl_nvim.Lineage.Listing.Orphans.{find_orphans, find_orphans_total}
use kubectl_nvim.Lineage.Listing.Family.{linked-InRange}

module _ (D : DiGraph Resource EdgeType) (t : Tree D) (range : InRange D t) where
  abbrev AllIn : List ℕ → Type 0
  AllIn xs = (x : ℕ) → Memᴰ x xs → x < length (nodes D t)

  -- A run that gives nodes of the graph, or has no end.
  data Ends : Run (List ℕ) → Type 0 where
    ends : (xs : List ℕ) → AllIn xs → Ends (finished xs)
    runs : Ends out_of_fuel

  AllIn-append : (xs ys : List ℕ) → AllIn xs → AllIn ys → AllIn (xs ++ ys)
  AllIn-append xs ys h k x m = elim ((Memᴰ-append x xs ys).0 m) [ inl n ↦ h x n | inr n ↦ k x n ]

  off_root-AllIn : (key : Text) (x : ℕ) → x < length (nodes D t) → AllIn (off_root D t key x)
  off_root-AllIn key x h = elim (Bool-cases (key == t.root_key)) [
    | inl root ↦ rw root (λ y m. absurd (Memᴰ.not-nil m))
    | inr off ↦ rw off (λ y m. rw (Memᴰ.eq_of_singleton m) h)
  ]

  prepend-Ends : (xs : List ℕ) (r : Run (List ℕ)) → AllIn xs → Ends r → Ends (prepend xs r)
  prepend-Ends xs _ h (ends ys k) = ends (xs ++ ys) (AllIn-append xs ys h k)
  prepend-Ends xs _ h runs = runs

  climb-Ends : (fuel i : ℕ) → Ends (climb D t fuel i)
  unfolding climb
  climb-Ends zero i = runs
  climb-Ends (suc fuel) i = elim (Option-cases (parent_of D t i)) [
    | inl top ↦ rw (climb, top) (ends [] (λ x m. absurd (Memᴰ.not-nil m)))
    | inr (p, up) ↦
        let (e, inside, _, _, from) = parent_edge D t i p up in
        let below : p < length (nodes D t) = rw (← from) (range e inside).0 in
        let (key, at) = key_in D t p below in
        rw (climb, up, at)
          (prepend-Ends (off_root D t key p) (climb D t fuel p) (off_root-AllIn key p below)
            (climb-Ends fuel p))
  ]

  append_run-Ends : (r s : Run (List ℕ)) → Ends r → Ends s → Ends (append_run D t r s)
  append_run-Ends _ s (ends xs h) k = prepend-Ends xs s h k
  append_run-Ends _ s runs k = runs

  insert_all-Ends : (is : List ℕ) (r : Run (List ℕ)) → AllIn is → Ends r → Ends (insert_all is r)
  insert_all-Ends is _ h (ends xs k) =
      ends (extend is xs)
        (λ x m. elim ((Memᴰ-extend x is xs).0 m) [ inl n ↦ h x n | inr n ↦ k x n ])
  insert_all-Ends is _ h runs = runs

  climb_all-Ends : (fuel : ℕ) (is : List ℕ) → Ends (climb_all D t fuel is)
  unfolding climb_all
  climb_all-Ends fuel [] = ends [] (λ x m. absurd (Memᴰ.not-nil m))
  climb_all-Ends fuel (i ∷ is) =
      append_run-Ends (climb D t fuel i) (climb_all D t fuel is) (climb-Ends fuel i)
        (climb_all-Ends fuel is)

  and_then-Ends :
      (r : Run (List ℕ)) (f : List ℕ → Option (List ℕ))
      → ((xs : List ℕ) → AllIn xs → (ys : List ℕ) × (f xs ≡ some ys) × AllIn ys)
      → Ends r
      → Ends (and_then r f)
  and_then-Ends _ f each runs = runs
  and_then-Ends _ f each (ends xs h) = let (ys, e, k) = each xs h in rw e (ends ys k)

  descendants-AllIn :
      (xs : List ℕ) → AllIn xs → (ys : List ℕ) × (descendants D t xs ≡ some ys) × AllIn ys
  descendants-AllIn xs h =
      let (ys, e, told) = descendants_total D t xs range h in
      (
        ys,
        e,
        λ x m. elim ((told x).0 m) [
          | inl n ↦ h x n
          | inr (i, n, walk, _) ↦ walk_in_range D t i x range (h i n) walk
        ],
      )

  with_references-AllIn :
      (xs : List ℕ) → AllIn xs → (ys : List ℕ) × (with_references D t xs ≡ some ys) × AllIn ys
  with_references-AllIn xs h =
      let (ys, e, told) = with_references_total D t xs range in
      (
        ys,
        e,
        λ x m. elim ((told x).0 m) [
          | inl n ↦ h x n
          | inr (i, n, refers, _) ↦
              let (edge, inside, _, _, to) = refers in rw (← to) (range edge inside).1
        ],
      )

  subgraph_from-Ends :
      (fuel : ℕ) (o : Option ℕ)
      → ((i : ℕ) → o ≡ some i → i < length (nodes D t))
      → Ends (subgraph_from D t fuel o)
  unfolding ancestors
  subgraph_from-Ends fuel none h = ends [] (λ x m. absurd (Memᴰ.not-nil m))
  subgraph_from-Ends fuel (some idx) h =
      let start : AllIn (idx ∷ []) = λ x m. rw (Memᴰ.eq_of_singleton m) (h idx refl) in
      and_then-Ends (and_then (ancestors D t fuel (idx ∷ [])) (descendants D t))
        (with_references D t) with_references-AllIn
        (and_then-Ends (ancestors D t fuel (idx ∷ [])) (descendants D t) descendants-AllIn (
          insert_all-Ends (idx ∷ []) (climb_all D t fuel (idx ∷ [])) start
            (climb_all-Ends fuel (idx ∷ []))))

  keys_of-Ends : (r : Run (List ℕ)) → Ends r → keys_of D t r ≢ panicked
  keys_of-Ends _ runs h = cc h
  keys_of-Ends _ (ends xs inside) h =
      let (keys, e, _, _) = collect_keys_total D t xs (λ x m. key_in D t x (inside x m)) in
      cc (h, ap (run_keys D t) e)

  pub get_related_items_safe :
      ((key : Text) (i : ℕ) → lookup key t.key_to_index ≡ some i → i < length (nodes D t))
      → (fuel : ℕ) (key : Text) → get_related_items D t fuel key ≢ panicked
  unfolding get_related_items subgraph_nodes
  get_related_items_safe known fuel key =
      keys_of-Ends (subgraph_from D t fuel (from_key D t key))
        (subgraph_from-Ends fuel (from_key D t key) (λ i at. known key i at))

module _ (D : DiGraph Resource EdgeType) (t : Tree D) (ks : List Text) (l : IsLinkable D t ks)
    (u : Tree D) (linked : link_nodes D t ks ≡ some u) where
  pub linked_known :
      (key : Text) (i : ℕ) → lookup key u.key_to_index ≡ some i → i < length (nodes D u)
  linked_known key i at =
      let (same, _, _) = linked_unchanged D t ks l u linked in
      let (r, node, _) = l.formed.indexed key i (ap (λ m. lookup key m) (sym same) ∙ at) in
      rw (linked_size D t ks l u linked) (lt-length_of_get_elem? (nodes D t) i node)

  pub linked_related_safe : (fuel : ℕ) (key : Text) → get_related_items D u fuel key ≢ panicked
  linked_related_safe = get_related_items_safe D u (linked-InRange D t ks l u linked) linked_known

  pub linked_impact_total :
      (key : Text) → (found : List (Text × Text)) × (compute_impact D u key ≡ some found)
  unfolding compute_impact
  linked_impact_total key =
      let (same, _, _) = linked_unchanged D t ks l u linked in
      elim (Option-cases (lookup key t.key_to_index)) [
        | inl missing ↦ ([], rw (same, missing) refl)
        | inr (i, at) ↦
            let (found, e, _, _) = compute_impact_total D t ks l u linked key i at in (found, e)
      ]

  pub linked_orphans_total :
      (keys : List Text)
      → ((k : Text) → Memᴰ k keys → (i : ℕ) × (lookup k u.key_to_index ≡ some i))
      → (found : List Text) × (find_orphans D u keys ≡ some found)
  linked_orphans_total keys known =
      let (found, e, _, _) = find_orphans_total D u keys (λ k m.
        let (i, at) = known k m in
        let (r, node) = get_elem?_of_lt (nodes D u) i (linked_known k i at) in
        (r, (i, at, node))) in
      (found, e)
