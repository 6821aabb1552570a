-- ===== src/Lineage/Query/Climb.antt =====
-- lineage/query.rs: `ancestors`. Its loop has no bound of its own: it takes fuel here.
use mathlib.Core.Path.{subst}
use kubectl_nvim.Lineage.Tree.Keys.{get_resource_key}
use kubectl_nvim.Prelude.{
  ℕ, zero, suc, ◌<◌, ◌≡◌, ◌⊎◌, inl, inr, refl, ap, true, false, Text, text_eq, ◌==◌, none, some,
  List, [], ◌∷◌, ◌++◌, Memᴰ, length, extend, find-some, Option-cases, if◌then◌else◌,
  get_elem?_of_lt, find,
}
use kubectl_nvim.Lineage.Resource.{Resource, EdgeType}
use kubectl_nvim.Lineage.Graph.Interface.{Edge, DiGraph, incoming}
use kubectl_nvim.Lineage.Tree.Build.{Tree}
use kubectl_nvim.Lineage.Tree.WellFormed.{nodes, edges}
use kubectl_nvim.Lineage.Tree.Frame.{is_owner_edge}
use kubectl_nvim.Lineage.Tree.Views.{get_key_for_index, parent_of, source_of}

-- What a run comes to: a value, a panic of `graph[…]`, or no end within the fuel.
pub data Run (A : Type 0) : Type 0 where
  finished : A → Run A
  panicked out_of_fuel : Run A

abbrev pub prepend : List ℕ → Run (List ℕ) → Run (List ℕ)
prepend xs (finished ys) = finished (xs ++ ys)
prepend xs panicked = panicked
prepend xs out_of_fuel = out_of_fuel

abbrev pub insert_all : List ℕ → Run (List ℕ) → Run (List ℕ)
insert_all xs (finished ys) = finished (extend xs ys)
insert_all xs panicked = panicked
insert_all xs out_of_fuel = out_of_fuel

module _ (D : DiGraph Resource EdgeType) (t : Tree D) where
  -- A node that the query may take: all but the root.
  abbrev pub off_root : Text → ℕ → List ℕ
  off_root key idx = if key == t.root_key then [] else idx ∷ []

  -- The `loop` of `ancestors`, from `current_idx`: the nodes that it inserts.
  unfoldable pub climb : ℕ → ℕ → Run (List ℕ)
  climb zero current_idx = out_of_fuel
  climb (suc fuel) current_idx = elim (parent_of D t current_idx) [
    | none ↦ finished []
    | some parent_idx ↦ elim (get_key_for_index D t parent_idx) [
      | none ↦ panicked
      | some parent_key ↦ prepend (off_root parent_key parent_idx) (climb fuel parent_idx)
    ]
  ]

  abbrev pub append_run : Run (List ℕ) → Run (List ℕ) → Run (List ℕ)
  append_run (finished xs) r = prepend xs r
  append_run panicked r = panicked
  append_run out_of_fuel r = out_of_fuel

  unfoldable pub climb_all : ℕ → List ℕ → Run (List ℕ)
  climb_all fuel [] = finished []
  climb_all fuel (i ∷ is) = append_run (climb fuel i) (climb_all fuel is)

  -- `ancestors`: the nodes there were, and what the climbs insert.
  unfoldable pub ancestors : ℕ → List ℕ → Run (List ℕ)
  ancestors fuel is = insert_all is (climb_all fuel is)

  -- `Above i x`: upward steps lead from `i` to `x`.
  pub data Above : ℕ → ℕ → Type 0 where
    parent : {i p : ℕ} → parent_of D t i ≡ some p → Above i p
    further : {i p x : ℕ} → parent_of D t i ≡ some p → Above p x → Above i x

  -- A node whose key is not that of the root.
  abbrev pub OffRoot : ℕ → Type 0
  OffRoot x = (key : Text) × (get_key_for_index D t x ≡ some key) × ((key == t.root_key) ≡ false)

  pub parent_edge :
      (i p : ℕ)
      → parent_of D t i ≡ some p
      → (e : Edge EdgeType) × Memᴰ e (edges D t)
        × (is_owner_edge e ≡ true)
        × (e.target ≡ i)
        × (e.source ≡ p)
  unfolding parent_of
  parent_edge i p h =
      let into = D.edges_directed t.graph i incoming in
      elim (Option-cases (find is_owner_edge into)) [
        | inl missing ↦ cc (h, ap source_of missing)
        | inr (e, found) ↦
            let (m, own) = find-some is_owner_edge into found in
            let (inside, target) = (D.edges_directed_iff t.graph i incoming e).0 m in
            (e, inside, own, target, cc (h, ap source_of found))
      ]

  pub key_in :
      (x : ℕ) → x < length (nodes D t) → (key : Text) × (get_key_for_index D t x ≡ some key)
  unfolding get_key_for_index
  key_in x h =
      let (r, at) = get_elem?_of_lt (nodes D t) x h in
      (get_resource_key r, rw (D.node_weight_lem t.graph x, at) refl)

  pub Above-cases : {i x p : ℕ} → Above i x → parent_of D t i ≡ some p → (x ≡ p) ⊎ Above p x
  Above-cases (parent e) h = inl (cc (e, h))
  Above-cases {x = x} (further {p = q} e a) h = inr (subst (λ y. Above y x) (cc (e, h)) a)

  -- Every ownership edge goes up in `rank`, and ends at nodes.
  pub record Ranked (rank : ℕ → ℕ) : Type 0 where
    pub falls :
        (e : Edge EdgeType)
        → Memᴰ e (edges D t)
        → is_owner_edge e ≡ true
        → rank e.source < rank e.target
    pub bounded : (e : Edge EdgeType) → Memᴰ e (edges D t) → e.source < length (nodes D t)
