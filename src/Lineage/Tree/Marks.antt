-- ===== src/Lineage/Tree/Marks.antt =====
-- lineage/tree.rs: the flags that `compute_orphan_status` sets, against the edges of the tree.
use mathlib.Core.List.Memᴰ
use mathlib.Core.Bool.{false≢true}
use mathlib.Core.Path.{subst}
use kubectl_nvim.Prelude.{
  ℕ, ◌≡◌, ◌≢◌, inl, inr, refl, sym, ap, ◌∙◌, false, Text, text_eq, ℕ_eq, ◌==◌, lookup, some, List,
  [], ◌∷◌, ◌++◌, Memᴰ, get_elem?, Bool-cases, get_elem?-set_cases, Memᴰ-append,
}
use kubectl_nvim.Lineage.Resource.{Resource, EdgeType}
use kubectl_nvim.Lineage.Graph.Interface.{Edge, DiGraph, incoming}
use kubectl_nvim.Lineage.Tree.Build.{Tree}
use kubectl_nvim.Lineage.Tree.WellFormed.{nodes, edges, IsWellFormed}
use kubectl_nvim.Lineage.Tree.Frame.{core?, Frame, Frame-set_weight}
use kubectl_nvim.Lineage.Tree.Owners.{for_each_total, framed_node, Known}
use kubectl_nvim.Lineage.Tree.Sources.{Describes, incoming_described}
use kubectl_nvim.Lineage.Tree.Link.{
  incoming_refs, orphan_verdict, with_verdict, mark_orphan, compute_orphan_status,
}

module _ (D : DiGraph Resource EdgeType) (t0 : Tree D) (w : IsWellFormed D t0)
    (own : List (Edge EdgeType)) where
  -- What `mark_orphan` leaves at a node: the verdict on the edges `es`.
  abbrev pub Verdict : List (Edge EdgeType) → Tree D → ℕ → Type 0
  Verdict es t i =
      (r : Resource)
      → get_elem? (nodes D t) i ≡ some r
      → (refs : List (EdgeType × Text)) × Describes D t0 es i refs
        × (r.is_orphan ≡ orphan_verdict r refs)

  abbrev pub Marked : List (Edge EdgeType) → List Text → Tree D → Type 0
  Marked es done t =
      (k : Text) (i : ℕ)
      → Memᴰ k done
      → (k == t0.root_key) ≡ false
      → lookup k t0.key_to_index ≡ some i
      → Verdict es t i

  described_into :
      (t : Tree D) (i : ℕ)
      → Frame D t0 own t
      → (refs : List (EdgeType × Text)) × (incoming_refs D t (D.edges_directed t.graph i incoming)
          ≡ some refs)
        × Describes D t0 (edges D t) i refs
  described_into t i f =
      let iff = D.edges_directed_iff t.graph i incoming in
      let (refs, e, char) =
        incoming_described D t0 own t (D.edges_directed t.graph i incoming) f
          (λ y m. f.bounded y ((iff y).0 m).0) in
      (
        refs,
        e,
        λ x. (
          λ m. let (y, n, from) = (char x).0 m in let (a, b) = (iff y).0 n in (y, a, b, from),
          λ (y, n, b, from). (char x).1 (y, (iff y).1 (n, b), from),
        ),
      )

  Verdict-set :
      (es : List (Edge EdgeType)) (t : Tree D) (i j : ℕ) (r : Resource)
      (refs : List (EdgeType × Text))
      → Describes D t0 es i refs
      → (i ≢ j → Verdict es t j)
      → Verdict es (record t { graph = D.set_weight t.graph i (with_verdict r refs) }) j
  Verdict-set es t i j r refs char before x at =
      let x' = with_verdict r refs in
      let here =
        subst (λ (rs : List Resource). get_elem? rs j ≡ some x) (D.set_weight_nodes t.graph i x')
          at in
      elim (get_elem?-set_cases (nodes D t) i j x' x here) [
        | inl (e, same) ↦ (
          refs,
          subst (λ k. Describes D t0 es k refs) e char,
          subst (λ (y : Resource). y.is_orphan ≡ orphan_verdict y refs) same refl,
        )
        | inr (old, ne) ↦ before ne x old
      ]

  same_index :
      (k j : Text) (i n : ℕ)
      → lookup k t0.key_to_index ≡ some i
      → lookup j t0.key_to_index ≡ some n
      → j ≡ k
      → i ≡ n
  same_index k j i n at at' e = cc (at, at', ap (λ (y : Text). lookup y t0.key_to_index) e)

  -- The invariant of the last loop.
  pub record Marking (es : List (Edge EdgeType)) (done : List Text) (t : Tree D) : Type 0 where
    pub frame : Frame D t0 own t
    pub same_edges : edges D t ≡ es
    pub marks : Marked es done t

  mark_step :
      (es : List (Edge EdgeType)) (done : List Text) (t : Tree D) (k : Text)
      → Marking es done t
      → Known D t0 w k
      → (u : Tree D) × (mark_orphan D t k ≡ some u) × Marking es (done ++ k ∷ []) u
  unfolding mark_orphan
  mark_step es done t k g (i, at) =
      let f = g.frame in
      let (r, r0, weight, here, here0, same) = framed_node D t0 w own t f k i at in
      let (refs, e, char) = described_into t i f in
      elim (Bool-cases (k == t0.root_key)) [
        | inl root ↦ (
          t,
          simp (f.root_key, root),
          record {
            frame = f;
            same_edges = g.same_edges;
            marks = λ j n m other. elim ((Memᴰ-append j done (k ∷ [])).0 m) [
              | inl before ↦ g.marks j n before other
              | inr last ↦ absurd (
                  false≢true (
                    sym other
                    ∙ ap (λ (y : Text). y == t0.root_key) (Memᴰ.eq_of_singleton last)
                    ∙ root))
            ];
          },
        )
        | inr other ↦ (
          record t { graph = D.set_weight t.graph i (with_verdict r refs) },
          simp (f.root_key, other, f.keys, at, weight, e),
          record {
            frame = Frame-set_weight D t0 own t f i (with_verdict r refs) (ap core? (sym here));
            same_edges = D.set_weight_edges t.graph i (with_verdict r refs) ∙ g.same_edges;
            marks = λ j n m off at'.
                Verdict-set es t i n r refs
                  (subst (λ (l : List (Edge EdgeType)). Describes D t0 l i refs) g.same_edges char)
                  (λ ne. elim ((Memᴰ-append j done (k ∷ [])).0 m) [
                    | inl before ↦ g.marks j n before off at'
                    | inr last ↦ absurd (ne (same_index k j i n at at' (Memᴰ.eq_of_singleton last)))
                  ]);
          },
        )
      ]

  pub orphans_marked :
      (t : Tree D) (ks : List Text)
      → Frame D t0 own t
      → ((k : Text) → Memᴰ k ks → Known D t0 w k)
      → (u : Tree D) × (compute_orphan_status D t ks ≡ some u) × Marking (edges D t) ks u
  unfolding compute_orphan_status
  orphans_marked t ks f known =
      for_each_total (mark_orphan D) (Marking (edges D t)) ks
        (λ done k u m g. mark_step (edges D t) done u k g (known k m)) [] t
        (record { frame = f; same_edges = refl; marks = λ k i m. absurd (Memᴰ.not-nil m) })
