-- ===== src/Lineage/Tree/Referred.antt =====
-- lineage/tree.rs: the edges that `build_explicit_relation_edges` adds.
use mathlib.Core.List.Memᴰ
use mathlib.Core.Path.{subst}
use kubectl_nvim.Prelude.{
  ℕ, ◌≡◌, refl, sym, ap, ◌∙◌, inl, inr, Text, text_eq, HashMap, lookup, Option, none, some, List,
  [], ◌∷◌, ◌++◌, Memᴰ, Memᴰ-append, get_elem?, get_elem?_of_lt,
}
use kubectl_nvim.Lineage.Resource.{Resource, RelationRef, EdgeType, references}
use kubectl_nvim.Lineage.Graph.Interface.{Edge, DiGraph}
use kubectl_nvim.Lineage.Tree.Keys.{relation_key, relation_ref}
use kubectl_nvim.Lineage.Tree.Build.{Tree}
use kubectl_nvim.Lineage.Tree.WellFormed.{nodes, edges, IsWellFormed}
use kubectl_nvim.Lineage.Tree.Frame.{core, core?, both_edges}
use kubectl_nvim.Lineage.Tree.Owners.{for_each_total, lookup_lt, core_of}
use kubectl_nvim.Lineage.Tree.Mirrors.{InGraph, Framed, Knows, weight_in, link_relation-Framed}
use kubectl_nvim.Lineage.Tree.Link.{
  get_or, Linking, link_relation, link_relations, link_explicit, build_explicit_relation_edges,
  refer_both, link_target, set_missing_of, set_missing_at, set_missing, store_missing_refs,
}

abbrev pub refers : ℕ → ℕ → Edge EdgeType
refers i j = record { source = i; target = j; weight = references }

abbrev pub relations_of : Resource → List RelationRef
relations_of r = get_or r.relations []

-- No edge is lost.
abbrev Includes : List (Edge EdgeType) → List (Edge EdgeType) → Type 0
Includes es fs = (e : Edge EdgeType) → Memᴰ e es → Memᴰ e fs

module _ (D : DiGraph Resource EdgeType) (t0 : Tree D) where
  -- The node that a relation names, if it is in the tree.
  abbrev pub target_of : RelationRef → Option ℕ
  target_of r = lookup (relation_key (relation_ref r.kind r.name r.namespace)) t0.key_to_index

  -- Every relation of the resources under these keys which names a node has its edge.
  abbrev pub Referred : List Text → List (Edge EdgeType) → Type 0
  Referred ks es =
      (k : Text) (i j : ℕ) (r : Resource) (relation : RelationRef)
      → Memᴰ k ks
      → lookup k t0.key_to_index ≡ some i
      → get_elem? (nodes D t0) i ≡ some r
      → Memᴰ relation (relations_of r)
      → target_of relation ≡ some j
      → Memᴰ (refers i j) es

  module _ (w : IsWellFormed D t0) (own : List (Edge EdgeType)) where
    -- What linking the relations of node `i` adds to the edges.
    abbrev Added : ℕ → List RelationRef → Tree D → Tree D → Type 0
    Added i rs t u =
        Includes (edges D t) (edges D u)
        × ((relation : RelationRef) (j : ℕ)
            → Memᴰ relation rs
            → target_of relation ≡ some j
            → Memᴰ (refers i j) (edges D u))

    refer_both-Includes :
        (t : Tree D) (i j : ℕ)
        → Framed D t0 w own t
        → InGraph D t0 w own i
        → InGraph D t0 w own j
        → Includes (edges D t) (edges D (refer_both D i t j))
          × Memᴰ (refers i j) (edges D (refer_both D i t j))
    refer_both-Includes t i j f hi hj =
        let fst = refers i j ∷ [] in
        let snd = refers j i ∷ [] in
        rw (both_edges D t0 own t f i j hi hj) (
          λ e m. Memᴰ.append_left snd (Memᴰ.append_left fst m),
          Memᴰ.append_left snd (Memᴰ.append_right (edges D t) (Memᴰ.head refl)),
        )

    link_target-Includes :
        (i : ℕ) (k : Text) (s : Linking D) (r : RelationRef) (o : Option ℕ)
        → InGraph D t0 w own i
        → ((j : ℕ) → o ≡ some j → InGraph D t0 w own j)
        → Framed D t0 w own s.tree
        → Includes (edges D s.tree) (edges D (link_target D i k s r o).tree)
          × ((j : ℕ) → o ≡ some j → Memᴰ (refers i j) (edges D (link_target D i k s r o).tree))
    link_target-Includes i k s r none h hj f = (λ e m. m, λ j e. cc e)
    link_target-Includes i k s r (some b) h hj f =
        let (kept, new) = refer_both-Includes s.tree i b f h (hj b refl) in
        (
          kept,
          λ j e.
              subst (λ (n : ℕ). Memᴰ (refers i n) (edges D (refer_both D i s.tree b))) (cc e) new,
        )

    link_relation-Added :
        (i : ℕ) (k : Text) (s : Linking D) (r : RelationRef)
        → InGraph D t0 w own i
        → Framed D t0 w own s.tree
        → Includes (edges D s.tree) (edges D (link_relation D i k s r).tree)
          × ((j : ℕ)
              → target_of r ≡ some j
              → Memᴰ (refers i j) (edges D (link_relation D i k s r).tree))
    unfolding link_relation
    link_relation-Added i k s r h f =
        let key = relation_key (relation_ref r.kind r.name r.namespace) in
        let (kept, new) =
          link_target-Includes i k s r (lookup key s.tree.key_to_index) h
            (λ j e. lookup_lt D t0 w key (subst (λ m. lookup key m ≡ some j) f.keys e)) f in
        (kept, λ j e. new j (subst (λ m. lookup key m ≡ some j) (sym f.keys) e))

    link_relations-Added :
        (i : ℕ) (k : Text) (s : Linking D) (rs : List RelationRef)
        → InGraph D t0 w own i
        → Framed D t0 w own s.tree
        → Framed D t0 w own (link_relations D i k s rs).tree
          × Added i rs s.tree (link_relations D i k s rs).tree
    link_relations-Added i k s [] h f = (f, (λ e m. m, λ relation j m. absurd (Memᴰ.not-nil m)))
    link_relations-Added i k s (r ∷ rs) h f =
        let one = link_relation D i k s r in
        let (g, added) =
          link_relations-Added i k one rs h (link_relation-Framed D t0 w own i k s r h f) in
        let (kept, new) = link_relation-Added i k s r h f in
        (
          g,
          (
            λ e m. added.0 e (kept e m),
            λ relation j m to. elim (Memᴰ.cases_cons m) [
              | inl same ↦ added.0 (refers i j) (new j (ap target_of (sym same) ∙ to))
              | inr later ↦ added.1 relation j later to
            ],
          ),
        )

    Referred-add :
        (ks : List Text) (k : Text) (i : ℕ) (r r0 : Resource) (t u : Tree D)
        → lookup k t0.key_to_index ≡ some i
        → get_elem? (nodes D t0) i ≡ some r0
        → core r ≡ core r0
        → Added i (relations_of r) t u
        → Referred ks (edges D t)
        → Referred (ks ++ k ∷ []) (edges D u)
    Referred-add ks k i r r0 t u at here alike added old k' i' j r' relation m at' here' rel to =
        elim ((Memᴰ-append k' ks (k ∷ [])).0 m) [
          | inl before ↦ added.0 (refers i' j) (old k' i' j r' relation before at' here' rel to)
          | inr last ↦
              let same = Memᴰ.eq_of_singleton last in
              let i_same : i ≡ i' = cc (at, at', ap (λ x. lookup x t0.key_to_index) same) in
              let r_same : r0 ≡ r' = cc (here, here', ap (λ x. get_elem? (nodes D t0) x) i_same) in
              let lists : relations_of r' ≡ relations_of r =
                ap relations_of (sym r_same) ∙ ap relations_of (sym alike) in
              subst (λ x. Memᴰ (refers x j) (edges D u)) i_same
                (added.1 relation j (subst (λ l. Memᴰ relation l) lists rel) to)
        ]

    pub relations_built :
        (t : Tree D) (ks : List Text)
        → Framed D t0 w own t
        → Knows D t0 w own ks
        → (s : Linking D) × (build_explicit_relation_edges D t ks ≡ some s)
          × (Framed D t0 w own s.tree × Referred ks (edges D s.tree))
    unfolding build_explicit_relation_edges link_explicit
    relations_built t ks f known =
        for_each_total (link_explicit D)
          (λ done s. Framed D t0 w own s.tree × Referred done (edges D s.tree)) ks
          (λ done k s m (g, old).
            let (i, at) = known k m in
            let h = lookup_lt D t0 w k at in
            let (r, weight) = weight_in D t0 w own s.tree i g h in
            let (r0, here) = get_elem?_of_lt (nodes D t0) i h in
            let (g', added) = link_relations-Added i k s (relations_of r) h g in
            let alike : core r ≡ core r0 = core_of r r0 (
              ap core? (sym weight ∙ D.node_weight_lem s.tree.graph i)
              ∙ g.alike i
              ∙ ap core? here) in
            (
              link_relations D i k s (relations_of r),
              rw (g.keys, at, weight),
              (
                g',
                Referred-add done k i r r0 s.tree (link_relations D i k s (relations_of r)).tree at
                    here alike added old,
              ),
            ))
          [] (record { tree = t; missing_targets = []; node_missing_refs = [] })
          (f, λ k i j r relation m. absurd (Memᴰ.not-nil m))

module _ (D : DiGraph Resource EdgeType) where
  set_missing_of_edges :
      (t : Tree D) (m : HashMap Text (List Text)) (i : ℕ) (o : Option Resource)
      → edges D (set_missing_of D t m i o) ≡ edges D t
  set_missing_of_edges t m i none = refl
  set_missing_of_edges t m i (some r) =
      D.set_weight_edges t.graph i (record r { missing_refs = some m })

  set_missing_at_edges :
      (t : Tree D) (m : HashMap Text (List Text)) (o : Option ℕ)
      → edges D (set_missing_at D t m o) ≡ edges D t
  set_missing_at_edges t m none = refl
  set_missing_at_edges t m (some i) = set_missing_of_edges t m i (D.node_weight t.graph i)

  pub store_missing_refs_edges :
      (t : Tree D) (m : HashMap Text (HashMap Text (List Text)))
      → edges D (store_missing_refs D t m) ≡ edges D t
  unfolding store_missing_refs set_missing
  store_missing_refs_edges t [] = refl
  store_missing_refs_edges t ((k, missing) ∷ rest) =
      store_missing_refs_edges (set_missing D t k missing) rest
      ∙ set_missing_at_edges t missing (lookup k t.key_to_index)
