-- ===== src/Lineage/Tree/Mirrors.antt =====
-- lineage/tree.rs: selector edges and explicit relations, both as pairs of opposite references.
use mathlib.Core.Path.{subst}
use kubectl_nvim.Prelude.{
  ℕ, ◌<◌, ◌≡◌, refl, sym, ap, ◌∙◌, not, ◌&&◌, Text, text_eq, ◌==◌, HashMap, lookup, Option, none,
  some, List, [], ◌∷◌, Memᴰ, length, Bool-cases, get_elem?_of_lt, inl, inr,
}
use kubectl_nvim.Lineage.Resource.{Resource, RelationRef, EdgeType}
use kubectl_nvim.Lineage.Graph.Interface.{Edge, DiGraph}
use kubectl_nvim.Lineage.Tree.Keys.{relation_key, relation_ref}
use kubectl_nvim.Lineage.Tree.Build.{Tree}
use kubectl_nvim.Lineage.Tree.WellFormed.{nodes, IsWellFormed}
use kubectl_nvim.Lineage.Tree.Frame.{core?, Frame, Frame-refer_both, Frame-set_weight}
use kubectl_nvim.Lineage.Tree.Owners.{for_each_total, lookup_lt, Known}
use kubectl_nvim.Lineage.Tree.Link.{
  Labelled, label_entry, build_label_index, select_children, refer_all, link_selected,
  build_selector_edges, Linking, link_relation, set_missing, store_missing_refs, selectors_match,
  is_config_kind, refer_both, refer_selected, set_missing_of, set_missing_at, link_target,
}

module _ (D : DiGraph Resource EdgeType) (t0 : Tree D) (w : IsWellFormed D t0)
    (own : List (Edge EdgeType)) where
  abbrev pub Framed : Tree D → Type 0
  Framed t = Frame D t0 own t

  abbrev pub InGraph : ℕ → Type 0
  InGraph i = i < length (nodes D t0)

  abbrev pub AllIn : List ℕ → Type 0
  AllIn [] = Unit {0}
  AllIn (i ∷ is) = InGraph i × AllIn is

  abbrev pub LabelsIn : List Labelled → Type 0
  LabelsIn [] = Unit {0}
  LabelsIn (entry ∷ entries) = InGraph entry.index × LabelsIn entries

  abbrev pub Knows : List Text → Type 0
  Knows ks = (k : Text) → Memᴰ k ks → Known D t0 w k

  -- Every node of the graph has a weight, in a tree on the way.
  pub weight_in :
      (t : Tree D) (i : ℕ)
      → Framed t
      → InGraph i
      → (r : Resource) × (D.node_weight t.graph i ≡ some r)
  weight_in t i f h =
      let (r, at) = get_elem?_of_lt (nodes D t) i (rw f.size h) in
      (r, rw (D.node_weight_lem t.graph i) at)

  label_entry-LabelsIn :
      (k : Text) (i : ℕ) (labels : Option (HashMap Text Text)) (rest : List Labelled)
      → InGraph i
      → LabelsIn rest
      → LabelsIn (label_entry k i labels rest)
  label_entry-LabelsIn k i none rest h hs = hs
  label_entry-LabelsIn k i (some labels) rest h hs = (h, hs)

  labels_built :
      (t : Tree D) (ks : List Text)
      → Framed t
      → Knows ks
      → (entries : List Labelled) × (build_label_index D t ks ≡ some entries) × LabelsIn entries
  unfolding build_label_index
  labels_built t [] f known = ([], refl, tt)
  labels_built t (k ∷ ks) f known =
      let (i, at) = known k (Memᴰ.head refl) in
      let (r, weight) = weight_in t i f (lookup_lt D t0 w k at) in
      let (rest, e, hs) = labels_built t ks f (λ j m. known j (Memᴰ.tail m)) in
      (
        label_entry k i r.labels rest,
        simp (f.keys, at, weight, e),
        label_entry-LabelsIn k i r.labels rest (lookup_lt D t0 w k at) hs,
      )

  children_selected :
      (t : Tree D) (k : Text) (selectors : HashMap Text Text) (entries : List Labelled)
      → Framed t
      → LabelsIn entries
      → (is : List ℕ) × (select_children D t k selectors entries ≡ some is) × AllIn is
  unfolding select_children
  children_selected t k selectors [] f h = ([], refl, tt)
  children_selected t k selectors (entry ∷ entries) f h =
      let (rest, e, hs) = children_selected t k selectors entries f h.1 in
      let (r, weight) = weight_in t entry.index f h.0 in
      elim (Bool-cases (entry.key == k)) [
        | inl same ↦ (rest, rw (same, e), hs)
        | inr other ↦
            elim (Bool-cases
              (not (is_config_kind r.kind) && selectors_match selectors entry.labels)) [
                | inl picked ↦ (entry.index ∷ rest, rw (other, weight, e, picked), (h.0, hs))
                | inr passed ↦ (rest, rw (other, weight, e, passed), hs)
              ]
      ]

  refer_all-Framed :
      (a : ℕ) (t : Tree D) (bs : List ℕ)
      → InGraph a
      → AllIn bs
      → Framed t
      → Framed (refer_all D a t bs)
  refer_all-Framed a t [] ha hs f = f
  refer_all-Framed a t (b ∷ bs) ha hs f =
      refer_all-Framed a (refer_both D a t b) bs ha hs.1 (Frame-refer_both D t0 own t f a b ha hs.0)

  selected_referred :
      (t : Tree D) (k : Text) (i : ℕ) (entries : List Labelled)
      (selectors : Option (HashMap Text Text))
      → Framed t
      → InGraph i
      → LabelsIn entries
      → (u : Tree D) × (refer_selected D t k i entries selectors ≡ some u) × Framed u
  selected_referred t k i entries none f h hs = (t, refl, f)
  selected_referred t k i entries (some selectors) f h hs =
      let (is, e, his) = children_selected t k selectors entries f hs in
      (refer_all D i t is, rw e, refer_all-Framed i t is h his f)

  selectors_linked :
      (entries : List Labelled) (t : Tree D) (k : Text)
      → LabelsIn entries
      → Known D t0 w k
      → Framed t
      → (u : Tree D) × (link_selected D entries t k ≡ some u) × Framed u
  unfolding link_selected
  selectors_linked entries t k hs (i, at) f =
      let h = lookup_lt D t0 w k at in
      let (r, weight) = weight_in t i f h in
      let (u, e, g) = selected_referred t k i entries r.selectors f h hs in
      (u, simp (f.keys, at, weight) e, g)

  pub selector_edges_built :
      (t : Tree D) (ks : List Text)
      → Framed t
      → Knows ks
      → (entries : List Labelled) × (u : Tree D) × (build_label_index D t ks ≡ some entries)
        × (build_selector_edges D t ks entries ≡ some u)
        × Framed u
  unfolding build_selector_edges
  selector_edges_built t ks f known =
      let (entries, e, hs) = labels_built t ks f known in
      let (u, e', g) =
        for_each_total (link_selected D entries) (λ _ v. Framed v) ks
          (λ done k v m g. selectors_linked entries v k hs (known k m) g) [] t f in
      (entries, u, e, e', g)

  link_target-Framed :
      (i : ℕ) (k : Text) (s : Linking D) (r : RelationRef) (o : Option ℕ)
      → InGraph i
      → ((j : ℕ) → o ≡ some j → InGraph j)
      → Framed s.tree
      → Framed (link_target D i k s r o).tree
  link_target-Framed i k s r none h hj f = f
  link_target-Framed i k s r (some j) h hj f = Frame-refer_both D t0 own s.tree f i j h (hj j refl)

  pub link_relation-Framed :
      (i : ℕ) (k : Text) (s : Linking D) (r : RelationRef)
      → InGraph i
      → Framed s.tree
      → Framed (link_relation D i k s r).tree
  unfolding link_relation
  link_relation-Framed i k s r h f =
      let key = relation_key (relation_ref r.kind r.name r.namespace) in
      link_target-Framed i k s r (lookup key s.tree.key_to_index) h
        (λ j e. lookup_lt D t0 w key (subst (λ m. lookup key m ≡ some j) f.keys e)) f

  set_missing_of-Framed :
      (t : Tree D) (m : HashMap Text (List Text)) (i : ℕ) (o : Option Resource)
      → D.node_weight t.graph i ≡ o
      → Framed t
      → Framed (set_missing_of D t m i o)
  set_missing_of-Framed t m i none e f = f
  set_missing_of-Framed t m i (some r) e f =
      Frame-set_weight D t0 own t f i (record r { missing_refs = some m })
        (ap core? (sym e ∙ D.node_weight_lem t.graph i))

  set_missing_at-Framed :
      (t : Tree D) (m : HashMap Text (List Text)) (o : Option ℕ)
      → Framed t
      → Framed (set_missing_at D t m o)
  set_missing_at-Framed t m none f = f
  set_missing_at-Framed t m (some i) f =
      set_missing_of-Framed t m i (D.node_weight t.graph i) refl f

  set_missing-Framed :
      (t : Tree D) (k : Text) (m : HashMap Text (List Text))
      → Framed t
      → Framed (set_missing D t k m)
  unfolding set_missing
  set_missing-Framed t k m f = set_missing_at-Framed t m (lookup k t.key_to_index) f

  pub store_missing_refs-Framed :
      (t : Tree D) (m : HashMap Text (HashMap Text (List Text)))
      → Framed t
      → Framed (store_missing_refs D t m)
  unfolding store_missing_refs
  store_missing_refs-Framed t [] f = f
  store_missing_refs-Framed t ((k, missing) ∷ rest) f =
      store_missing_refs-Framed (set_missing D t k missing) rest (set_missing-Framed t k missing f)
