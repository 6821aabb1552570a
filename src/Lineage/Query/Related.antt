-- ===== src/Lineage/Query/Related.antt =====
-- lineage/query.rs and lineage/tree.rs: `from_key`, and the nodes of `extract_subgraph`.
use kubectl_nvim.Prelude.{
  ℕ, ◌<◌, ◌≡◌, ◌↔◌, ◌⊎◌, inl, inr, refl, sym, Text, text_eq, lookup, Option, none, some, List, [],
  ◌∷◌, Memᴰ, length,
}
use mathlib.Core.List.Memᴰ
use mathlib.Core.Path.{subst}
use kubectl_nvim.Lineage.Resource.{Resource, EdgeType}
use kubectl_nvim.Lineage.Graph.Interface.{DiGraph, Walk}
use kubectl_nvim.Lineage.Tree.Build.{Tree}
use kubectl_nvim.Lineage.Tree.WellFormed.{nodes, edges}
use kubectl_nvim.Lineage.Tree.Frame.{is_owner_edge}
use kubectl_nvim.Lineage.Query.Climb.{
  Run, finished, panicked, out_of_fuel, ancestors, Above, parent, further, parent_edge, OffRoot,
  Ranked,
}
use kubectl_nvim.Lineage.Query.Ancestors.{ancestors_total}
use kubectl_nvim.Lineage.Query.Added.{walk_in_range, descendants_total, with_references_total}
use kubectl_nvim.Lineage.Query.Select.{descendants, with_references, InRange, Refers}

abbrev pub run_option : Option (List ℕ) → Run (List ℕ)
run_option none = panicked
run_option (some xs) = finished xs

abbrev pub and_then : Run (List ℕ) → (List ℕ → Option (List ℕ)) → Run (List ℕ)
and_then (finished xs) f = run_option (f xs)
and_then panicked f = panicked
and_then out_of_fuel f = out_of_fuel

-- The nodes of a list may be told by a property.
widened :
    (xs : List ℕ) (P S : ℕ → Type 0) (R : ℕ → ℕ → Type 0)
    → ((x : ℕ) → Memᴰ x xs ↔ P x)
    → (x : ℕ)
    → (Memᴰ x xs ⊎ ((i : ℕ) × Memᴰ i xs × R i x × S x)) ↔ (P x ⊎ ((i : ℕ) × P i × R i x × S x))
widened xs P S R told x = (
  λ h. elim h [ inl m ↦ inl ((told x).0 m) | inr (i, m, r, s) ↦ inr (i, (told i).0 m, r, s) ],
  λ h. elim h [ inl m ↦ inl ((told x).1 m) | inr (i, m, r, s) ↦ inr (i, (told i).1 m, r, s) ],
)

-- Two steps of a description.
pub chained : {A B C : Type 0} → A ↔ B → B ↔ C → A ↔ C
chained (f, g) (h, k) = (λ a. h (f a), λ c. g (k c))

module _ (D : DiGraph Resource EdgeType) (t : Tree D) where
  abbrev pub from_key : Text → Option ℕ
  from_key key = lookup key t.key_to_index

  abbrev pub subgraph_from : ℕ → Option ℕ → Run (List ℕ)
  subgraph_from fuel none = finished []
  subgraph_from fuel (some idx) =
      and_then (and_then (ancestors D t fuel (idx ∷ [])) (descendants D t)) (with_references D t)

  -- `ancestors().descendants().with_references()`, from the node of a key.
  unfoldable pub subgraph_nodes : ℕ → Text → Run (List ℕ)
  subgraph_nodes fuel key = subgraph_from fuel (from_key key)

  -- The node itself, and those above it.
  abbrev pub Ancestor : ℕ → ℕ → Type 0
  Ancestor idx x = (x ≡ idx) ⊎ (Above D t idx x × OffRoot D t x)

  -- Those, and what they own, directly or not.
  abbrev pub Family : ℕ → ℕ → Type 0
  Family idx x =
      Ancestor idx x
      ⊎ ((i : ℕ) × Ancestor idx i × Walk (edges D t) is_owner_edge i x × OffRoot D t x)

  -- Those, and what they refer to.
  abbrev pub Related : ℕ → ℕ → Type 0
  Related idx x = Family idx x ⊎ ((i : ℕ) × Family idx i × Refers D t i x × OffRoot D t x)

  Above-in_range : (i x : ℕ) → InRange D t → Above D t i x → x < length (nodes D t)
  Above-in_range i x r (parent up) =
      let (e, inside, _, _, source) = parent_edge D t i x up in rw (sym source) (r e inside).0
  Above-in_range i x r (further {p = p} up above) = Above-in_range p x r above

  Ancestor-in_range :
      (idx x : ℕ) → InRange D t → idx < length (nodes D t) → Ancestor idx x → x < length (nodes D t)
  Ancestor-in_range idx x r h (inl same) = rw same h
  Ancestor-in_range idx x r h (inr (above, _)) = Above-in_range idx x r above

  Family-in_range :
      (idx x : ℕ) → InRange D t → idx < length (nodes D t) → Family idx x → x < length (nodes D t)
  Family-in_range idx x r h (inl a) = Ancestor-in_range idx x r h a
  Family-in_range idx x r h (inr (i, a, w, _)) =
      walk_in_range D t i x r (Ancestor-in_range idx i r h a) w

  pub Related-in_range :
      (idx x : ℕ) → InRange D t → idx < length (nodes D t) → Related idx x → x < length (nodes D t)
  Related-in_range idx x r h (inl f) = Family-in_range idx x r h f
  Related-in_range idx x r h (inr (i, f, (e, m, _, _, to), _)) = rw (← to) (r e m).1

  -- The form in which `ancestors` gives them.
  Ancestor-iff :
      (idx x : ℕ)
      → (Memᴰ x (idx ∷ []) ⊎ ((i : ℕ) × Memᴰ i (idx ∷ []) × Above D t i x × OffRoot D t x))
        ↔ Ancestor idx x
  Ancestor-iff idx x = (
    λ h. elim h [
      | inl m ↦ inl (Memᴰ.eq_of_singleton m)
      | inr (i, m, above, off) ↦
          inr (subst (λ j. Above D t j x) (Memᴰ.eq_of_singleton m) above, off)
    ],
    λ h. elim h [
      | inl same ↦ inl (Memᴰ.head same)
      | inr (above, off) ↦ inr (idx, Memᴰ.head refl, above, off)
    ],
  )

  module _ (rank : ℕ → ℕ) (ranked : Ranked D t rank) where
    -- If ownership goes up in some rank and the edges stay inside the graph, then the subgraph of a
    -- node ends, does not panic, and is the node with its ancestors, what these own, directly or
    -- not, and what all those refer to, the root left out.
    pub subgraph_nodes_total :
        (fuel idx : ℕ) (key : Text)
        → InRange D t
        → lookup key t.key_to_index ≡ some idx
        → idx < length (nodes D t)
        → rank idx < fuel
        → (xs : List ℕ) × (subgraph_nodes fuel key ≡ finished xs)
          × ((x : ℕ) → Memᴰ x xs ↔ Related idx x)
    unfolding subgraph_nodes
    subgraph_nodes_total fuel idx key r at inside low =
        let (as1, e1, f1) =
          ancestors_total D t rank ranked fuel (idx ∷ [])
            (λ i m. subst (λ j. rank j < fuel) (sym (Memᴰ.eq_of_singleton m)) low) in
        let up : (x : ℕ) → Memᴰ x as1 ↔ Ancestor idx x = λ x. chained (f1 x) (Ancestor-iff idx x) in
        let (as2, e2, f2) =
          descendants_total D t as1 r (λ i m. Ancestor-in_range idx i r inside ((up i).0 m)) in
        let family : (x : ℕ) → Memᴰ x as2 ↔ Family idx x = λ x.
          chained (f2 x)
            (widened as1 (Ancestor idx) (OffRoot D t) (Walk (edges D t) is_owner_edge) up x) in
        let (as3, e3, f3) = with_references_total D t as2 r in
        (
          as3,
          rw (at, e1, e2, e3) refl,
          λ x. chained (f3 x) (widened as2 (Family idx) (OffRoot D t) (Refers D t) family x),
        )
