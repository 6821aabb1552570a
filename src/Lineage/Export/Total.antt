-- ===== src/Lineage/Export/Total.antt =====
-- lineage/tree.rs: exports do not panic.
use mathlib.Core.List.Memᴰ
use kubectl_nvim.Prelude.{
  ℕ, ◌+◌, ◌<◌, ◌≤◌, ◌≡◌, ◌↔◌, refl, sym, ap, ◌∙◌, inl, inr, Text, text_eq, ℕ_eq, nat_eq, nat_eq_iff,
  Bool, Bool-cases, false, some, List, [], ◌∷◌, Memᴰ, lookup, lookup-insert, txt, flat_map, ◌++◌,
  length, get_elem?, get_elem?_of_lt, arith,
}
use kubectl_nvim.Lineage.Resource.{Resource, EdgeType}
use kubectl_nvim.Lineage.Graph.Interface.{Edge, DiGraph}
use kubectl_nvim.Lineage.Tree.Build.{Tree}
use kubectl_nvim.Lineage.Tree.WellFormed.{nodes, edges}
use kubectl_nvim.Lineage.Query.Climb.{finished, Ranked}
use kubectl_nvim.Lineage.Query.Select.{InRange}
use kubectl_nvim.Lineage.Query.Related.{Related-in_range}
use kubectl_nvim.Lineage.Listing.Collect.{collect_total}
use kubectl_nvim.Lineage.Export.Subgraph.{extract_subgraph_total}
use kubectl_nvim.Lineage.Export.Output.{
  text_run, line, arrow, concat, dot_text, mermaid_text, node_id, node_ids, indices, mermaid_edge,
  dot_node, dot_edge, mermaid_node, at_node, all_nodes, edge_lines, export_dot, to_mermaid,
  subgraph_dot, subgraph_mermaid, drawn, export_subgraph_dot, export_subgraph_mermaid,
}

node_ids_lem : (xs : List ℕ) (i : ℕ) → Memᴰ i xs → lookup i (node_ids xs) ≡ some (node_id i)
node_ids_lem [] i m = absurd (Memᴰ.not-nil m)
node_ids_lem (x ∷ xs) i m = elim (Bool-cases (nat_eq x i)) [
  | inl same ↦
      lookup-insert x i (node_id x) (node_ids xs)
      ∙ rw same (ap (λ j. some (node_id j)) ((nat_eq_iff x i).0 same))
  | inr other ↦ elim (Memᴰ.cases_cons m) [
    | inl first ↦ absurd (ground (arith, nat_eq_iff x i))
    | inr later ↦ lookup-insert x i (node_id x) (node_ids xs) ∙ rw other (node_ids_lem xs i later)
  ]
]

mermaid_edge_total :
    (xs : List ℕ) (e : Edge EdgeType)
    → Memᴰ e.source xs
    → Memᴰ e.target xs
    → (s : Text) × (mermaid_edge (node_ids xs) e ≡ some s)
mermaid_edge_total xs e a b = (
  line (node_id e.source ++ arrow e.weight ++ node_id e.target),
  rw (node_ids_lem xs e.source a, node_ids_lem xs e.target b) refl,
)

mem_indices :
    (i j : ℕ) (rs : List Resource) → Memᴰ j (indices i rs) ↔ ((i ≤ j) × (j < i + length rs))
mem_indices i j [] = (λ m. absurd (Memᴰ.not-nil m), λ (a, b). absurd (omega arith))
mem_indices i j (r ∷ rs) =
    let later = mem_indices (i + 1) j rs in
    (
      λ m. elim (Memᴰ.cases_cons m) [
        | inl same ↦ (omega arith, omega arith)
        | inr rest ↦ let (a, b) = later.0 rest in (omega arith, omega arith)
      ],
      λ (a, b). elim (Bool-cases (nat_eq i j)) [
        | inl same ↦ Memᴰ.head (sym ((nat_eq_iff i j).0 same))
        | inr other ↦ Memᴰ.tail (later.1 (ground arith, omega arith))
      ],
    )

module _ (D : DiGraph Resource EdgeType) (t : Tree D) where
  at_node_total :
      (draw : Bool → ℕ → Resource → Text) (is_root : Bool) (i : ℕ)
      → i < length (nodes D t)
      → (s : Text) × (at_node D t draw is_root i ≡ some s)
  at_node_total draw is_root i h =
      let (r, here) = get_elem?_of_lt (nodes D t) i h in
      (draw is_root i r, rw (D.node_weight_lem t.graph i, here) refl)

  listed : (i : ℕ) → Memᴰ i (indices 0 (nodes D t)) → i < length (nodes D t)
  listed i m = omega (arith, ((mem_indices 0 i (nodes D t)).0 m).1)

  all_nodes_total :
      (draw : Bool → ℕ → Resource → Text) → (ls : List Text) × (all_nodes D t draw ≡ some ls)
  all_nodes_total draw =
      let (ls, e, _) =
        collect_total (λ i. at_node D t draw (nat_eq i t.root_index) i) (indices 0 (nodes D t))
          (λ i m. at_node_total draw (nat_eq i t.root_index) i (listed i m)) in
      (ls, e)

  -- A graph is drawn, as DOT and, where its edges stay inside it, as Mermaid.
  whole_total :
      InRange D t
      → ((s : Text) × (export_dot D t ≡ some s)) × ((s : Text) × (to_mermaid D t ≡ some s))
  unfolding export_dot to_mermaid
  whole_total r =
      let (ns, e) = all_nodes_total dot_node in
      let (ms, f) = all_nodes_total mermaid_node in
      let ids = indices 0 (nodes D t) in
      let inside = λ (i : ℕ) (h : i < length (nodes D t)).
        (mem_indices 0 i (nodes D t)).1 (omega arith, omega (arith, h)) in
      let (es, g, _) =
        collect_total (mermaid_edge (node_ids ids)) (edges D t) (λ x m.
          mermaid_edge_total ids x (inside x.source (r x m).0) (inside x.target (r x m).1)) in
      (
        (dot_text (txt "lineage") (concat ns) (flat_map dot_edge (edges D t)), rw e refl),
        (mermaid_text (concat ms) (concat es), rw (f, g) refl),
      )

  sub_total :
      (xs es : List ℕ)
      → ((i : ℕ) → Memᴰ i xs → i < length (nodes D t))
      → ((n : ℕ)
          → Memᴰ n es
          → (e : Edge EdgeType) × (get_elem? (edges D t) n ≡ some e)
            × Memᴰ e.source xs
            × Memᴰ e.target xs)
      → ((s : Text) × (subgraph_dot D t xs es ≡ some s))
        × ((s : Text) × (subgraph_mermaid D t xs es ≡ some s))
  unfolding subgraph_dot subgraph_mermaid
  sub_total xs es inside joined =
      let (ns, e, _) =
        collect_total (at_node D t dot_node false) xs
          (λ i m. at_node_total dot_node false i (inside i m)) in
      let (ms, f, _) =
        collect_total (at_node D t mermaid_node false) xs
          (λ i m. at_node_total mermaid_node false i (inside i m)) in
      let (ls, g, _) =
        collect_total (λ n. edge_lines D t (λ x. some (dot_edge x)) (get_elem? (edges D t) n)) es
          (λ n m. let (x, at, _, _) = joined n m in (dot_edge x, rw at refl)) in
      let (ks, h, _) =
        collect_total (λ n. edge_lines D t (mermaid_edge (node_ids xs)) (get_elem? (edges D t) n))
          es
          (λ n m.
            let (x, at, a, b) = joined n m in
            let (s, drawn_edge) = mermaid_edge_total xs x a b in (s, rw at drawn_edge)) in
      (
        (dot_text (txt "lineage_subgraph") (concat ns) (concat ls), rw (e, g) refl),
        (mermaid_text (concat ms) (concat ks), rw (f, h) refl),
      )

  module _ (rank : ℕ → ℕ) (ranked : Ranked D t rank) where
    -- If ownership goes up in some rank and the edges stay inside the graph, then the graph and the
    -- subgraph of a node are drawn, as DOT and as Mermaid, without a panic.
    pub exports_total :
        (fuel idx : ℕ) (key : Text)
        → InRange D t
        → lookup key t.key_to_index ≡ some idx
        → idx < length (nodes D t)
        → rank idx < fuel
        → (dot : Text) × (mermaid : Text) × (sub_dot : Text) × (sub_mermaid : Text) × (export_dot D
              t
            ≡ some dot)
          × (to_mermaid D t ≡ some mermaid)
          × (export_subgraph_dot D t fuel key ≡ finished sub_dot)
          × (export_subgraph_mermaid D t fuel key ≡ finished sub_mermaid)
    unfolding export_subgraph_dot export_subgraph_mermaid
    exports_total fuel idx key r at inside low =
        let ((dot, d), (mermaid, m)) = whole_total r in
        let (xs, es, e, _, told, joined) =
          extract_subgraph_total D t rank ranked fuel idx key r at inside low in
        let ((sub_dot, f), (sub_mermaid, g)) =
          sub_total xs es (λ i n. Related-in_range D t idx i r inside ((told i).0 n))
            (λ n k. (joined n).0 k) in
        (
          dot,
          mermaid,
          sub_dot,
          sub_mermaid,
          d,
          m,
          ap (drawn D t (subgraph_dot D t)) e ∙ ap (text_run D t) f,
          ap (drawn D t (subgraph_mermaid D t)) e ∙ ap (text_run D t) g,
        )
