-- ===== src/Lineage/Export/Subgraph.antt =====
-- lineage/tree.rs: `extract_subgraph`. An edge is told by its index.
use mathlib.Core.List.Memᴰ
use mathlib.Core.Path.{subst}
use kubectl_nvim.Prelude.{
  ℕ, zero, suc, ◌+◌, ◌<◌, ◌≡◌, ◌↔◌, ◌⊎◌, refl, ap, ◌∙◌, inl, inr, Text, text_eq, lookup, Bool,
  Bool-cases, true, ◌&&◌, contains_index, contains_index_iff, Unique, &&_iff, some, List, [], ◌∷◌,
  Memᴰ, length, get_elem?, arith, if◌then◌else◌,
}
use kubectl_nvim.Lineage.Resource.{Resource, EdgeType}
use kubectl_nvim.Lineage.Graph.Interface.{Edge, DiGraph}
use kubectl_nvim.Lineage.Tree.Build.{Tree}
use kubectl_nvim.Lineage.Tree.WellFormed.{nodes, edges}
use kubectl_nvim.Lineage.Query.Climb.{Run, finished, panicked, out_of_fuel, Ranked}
use kubectl_nvim.Lineage.Query.Select.{InRange}
use kubectl_nvim.Lineage.Query.Sets.{subgraph_nodes-Unique}
use kubectl_nvim.Lineage.Query.Related.{subgraph_nodes, Related, subgraph_nodes_total}

abbrev pub joins : List ℕ → Edge EdgeType → Bool
joins xs e = contains_index xs e.source && contains_index xs e.target

-- The indices of the edges between nodes of `xs`, where the first edge has the index `i`.
abbrev pub edges_between : List ℕ → ℕ → List (Edge EdgeType) → List ℕ
edges_between xs i [] = []
edges_between xs i (e ∷ es) =
    let rest = edges_between xs (i + 1) es in if joins xs e then i ∷ rest else rest

module _ (D : DiGraph Resource EdgeType) (t : Tree D) where
  abbrev pub with_edges : Run (List ℕ) → Run (List ℕ × List ℕ)
  with_edges (finished xs) = finished (xs, edges_between xs 0 (edges D t))
  with_edges panicked = panicked
  with_edges out_of_fuel = out_of_fuel

  unfoldable pub extract_subgraph : ℕ → Text → Run (List ℕ × List ℕ)
  extract_subgraph fuel key = with_edges (subgraph_nodes D t fuel key)

-- An edge of the graph, from its index on, both ends of which are in the list.
abbrev pub Between : List ℕ → ℕ → List (Edge EdgeType) → ℕ → Type 0
Between xs i es n =
    (k : ℕ) × (e : Edge EdgeType) × (n ≡ i + k)
    × (get_elem? es k ≡ some e)
    × Memᴰ e.source xs
    × Memᴰ e.target xs

joins_iff :
    (xs : List ℕ) (e : Edge EdgeType) → (joins xs e ≡ true) ↔ (Memᴰ e.source xs × Memᴰ e.target xs)
joins_iff xs e =
    let s = contains_index_iff xs e.source in
    let g = contains_index_iff xs e.target in
    (λ h. let (a, b) = (&&_iff _ _).0 h in (s.0 a, g.0 b), λ (a, b). (&&_iff _ _).1 (s.1 a, g.1 b))

-- It is the first edge, or a later one.
first_or_later :
    (xs : List ℕ) (i : ℕ) (e : Edge EdgeType) (es : List (Edge EdgeType)) (n k : ℕ)
    (f : Edge EdgeType)
    → n ≡ i + k
    → get_elem? (e ∷ es) k ≡ some f
    → Memᴰ f.source xs
    → Memᴰ f.target xs
    → ((n ≡ i) × (joins xs e ≡ true)) ⊎ Between xs (i + 1) es n
first_or_later xs i e es n zero f at h a b =
    let same : f ≡ e = cc h in
    inl (omega (arith, at), subst (λ x. joins xs x ≡ true) same ((joins_iff xs f).1 (a, b)))
first_or_later xs i e es n (suc k) f at h a b = inr (k, f, omega (arith, at), h, a, b)

pub edges_between_iff :
    (xs : List ℕ) (i : ℕ) (es : List (Edge EdgeType)) (n : ℕ)
    → Memᴰ n (edges_between xs i es) ↔ Between xs i es n
edges_between_iff xs i [] n =
    (λ m. absurd (Memᴰ.not-nil m), λ (k, e, _, h, _, _). absurd (ground arith))
edges_between_iff xs i (e ∷ es) n =
    let later = edges_between_iff xs (i + 1) es n in
    let deeper : Between xs (i + 1) es n → Between xs i (e ∷ es) n =
      λ (k, f, at, h, a, b). (suc k, f, omega (arith, at), h, a, b) in
    elim (Bool-cases (joins xs e)) [
      | inl both ↦ rw both (
        λ m. elim (Memᴰ.cases_cons m) [
          | inl same ↦
              let (a, b) = (joins_iff xs e).0 both in (zero, e, omega (arith, same), refl, a, b)
          | inr rest ↦ deeper (later.0 rest)
        ],
        λ (k, f, at, h, a, b). elim (first_or_later xs i e es n k f at h a b) [
          | inl (same, _) ↦ Memᴰ.head same
          | inr rest ↦ Memᴰ.tail (later.1 rest)
        ],
      )
      | inr apart ↦ rw apart (
        λ m. deeper (later.0 m),
        λ (k, f, at, h, a, b). elim (first_or_later xs i e es n k f at h a b) [
          | inl (_, both) ↦ absurd (ground arith)
          | inr rest ↦ later.1 rest
        ],
      )
    ]

module _ (D : DiGraph Resource EdgeType) (t : Tree D) (rank : ℕ → ℕ)
    (ranked : Ranked D t rank) where
  -- If ownership goes up in some rank and the edges stay inside the graph, then the subgraph of a
  -- node is found, without a panic. Its nodes are the node with its ancestors, what these own,
  -- directly or not, and what all those refer to, the root left out, each once; its edges are, by their
  -- indices, those of the graph with both ends among these nodes.
  pub extract_subgraph_total :
      (fuel idx : ℕ) (key : Text)
      → InRange D t
      → lookup key t.key_to_index ≡ some idx
      → idx < length (nodes D t)
      → rank idx < fuel
      → (xs : List ℕ) × (es : List ℕ) × (extract_subgraph D t fuel key ≡ finished (xs, es))
        × Unique xs
        × ((x : ℕ) → Memᴰ x xs ↔ Related D t idx x)
        × ((n : ℕ)
            → Memᴰ n es ↔ (
                (e : Edge EdgeType) × (get_elem? (edges D t) n ≡ some e)
                × Memᴰ e.source xs
                × Memᴰ e.target xs))
  unfolding extract_subgraph
  extract_subgraph_total fuel idx key r at inside low =
      let (xs, e, told) = subgraph_nodes_total D t rank ranked fuel idx key r at inside low in
      (
        xs,
        edges_between xs 0 (edges D t),
        ap (with_edges D t) e,
        subgraph_nodes-Unique D t fuel key xs e,
        told,
        λ n.
            let both = edges_between_iff xs 0 (edges D t) n in
            (
              λ m.
                  let (k, f, same, h, a, b) = both.0 m in
                  let index : n ≡ k = omega (arith, same) in
                  (f, ap (get_elem? (edges D t)) index ∙ h, a, b),
              λ (f, h, a, b). both.1 (n, f, omega arith, h, a, b),
            ),
      )
