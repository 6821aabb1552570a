-- ===== src/Lineage/Query/Select.antt =====
-- lineage/query.rs: `descendants` and `with_references`. `none` is a panic of `graph[…]`.
use mathlib.Core.List.Memᴰ
use mathlib.Core.Path.{subst}
use mathlib.Core.Bool.{false≢true}
use kubectl_nvim.Prelude.{
  ℕ, ◌<◌, ◌≡◌, ◌↔◌, inl, inr, refl, sym, Bool, true, false, Text, text_eq, ◌==◌, Option, some, List,
  [], ◌∷◌, ◌++◌, Memᴰ, Memᴰ-append, extend, flat_map, map, ap, ◌∙◌, length, keep, Bool-cases,
}
use kubectl_nvim.Lineage.Resource.{Resource, EdgeType, owns, references}
use kubectl_nvim.Lineage.Graph.Interface.{Edge, DiGraph, outgoing}
use kubectl_nvim.Lineage.Tree.Build.{Tree}
use kubectl_nvim.Lineage.Tree.WellFormed.{nodes, edges}
use kubectl_nvim.Lineage.Tree.Frame.{is_owner_edge}
use kubectl_nvim.Lineage.Tree.Link.{◌>>=◌}
use kubectl_nvim.Lineage.Tree.Views.{get_key_for_index}
use kubectl_nvim.Lineage.Query.Climb.{off_root, OffRoot, key_in}

abbrev pub is_reference : Edge EdgeType → Bool
is_reference e = elim e.weight [ owns ↦ false | references ↦ true ]

abbrev pub target : Edge EdgeType → ℕ
target e = e.target

module _ (D : DiGraph Resource EdgeType) (t : Tree D) where
  -- The nodes among `xs` that a query may take.
  unfoldable pub select : List ℕ → Option (List ℕ)
  select [] = some []
  select (x ∷ xs) =
      get_key_for_index D t x >>= λ key. select xs >>= λ rest. some (off_root D t key x ++ rest)

  unfoldable pub owned_from : ℕ → List ℕ
  owned_from idx = D.dfs t.graph is_owner_edge idx

  unfoldable pub descendants : List ℕ → Option (List ℕ)
  descendants is = select (flat_map owned_from is) >>= λ found. some (extend is found)

  unfoldable pub reference_targets : ℕ → List ℕ
  reference_targets idx = map target (keep is_reference (D.edges_directed t.graph idx outgoing))

  unfoldable pub with_references : List ℕ → Option (List ℕ)
  with_references is = select (flat_map reference_targets is) >>= λ found. some (extend is found)

  off_root_iff :
      (x y : ℕ) (key : Text)
      → get_key_for_index D t y ≡ some key
      → Memᴰ x (off_root D t key y) ↔ ((x ≡ y) × OffRoot D t x)
  off_root_iff x y key at = elim (Bool-cases (key == t.root_key)) [
    | inl root ↦ (
      λ m. absurd (Memᴰ.not-nil (rw root at m)),
      λ (same, h).
          let (other, at_x, off) = h in
          let keys : other ≡ key = cc (at, at_x, ap (λ z. get_key_for_index D t z) same) in
          absurd (false≢true (sym off ∙ ap (λ k. k == t.root_key) keys ∙ root)),
    )
    | inr off ↦ (
      λ m. elim (Memᴰ.cases_cons (rw off at m)) [
        | inl same ↦ subst (λ z. (z ≡ y) × OffRoot D t z) (sym same) (refl, (key, at, off))
        | inr none_left ↦ absurd (Memᴰ.not-nil none_left)
      ],
      λ (same, _). rw off (Memᴰ.head same),
    )
  ]

  -- What selecting from `xs` has to give.
  abbrev Selected : List ℕ → List ℕ → Type 0
  Selected xs ys = (x : ℕ) → Memᴰ x ys ↔ (Memᴰ x xs × OffRoot D t x)

  Selected-cons :
      (y : ℕ) (xs ys : List ℕ) (key : Text)
      → get_key_for_index D t y ≡ some key
      → Selected xs ys
      → Selected (y ∷ xs) (off_root D t key y ++ ys)
  Selected-cons y xs ys key at rest x = (
    λ m. elim ((Memᴰ-append x (off_root D t key y) ys).0 m) [
      | inl n ↦ let (same, off) = (off_root_iff x y key at).0 n in (Memᴰ.head same, off)
      | inr n ↦ let (later, off) = (rest x).0 n in (Memᴰ.tail later, off)
    ],
    λ (m, off). elim (Memᴰ.cases_cons m) [
      | inl same ↦ Memᴰ.append_left ys ((off_root_iff x y key at).1 (same, off))
      | inr later ↦ Memᴰ.append_right (off_root D t key y) ((rest x).1 (later, off))
    ],
  )

  pub select_total :
      (xs : List ℕ)
      → ((x : ℕ) → Memᴰ x xs → x < length (nodes D t))
      → (ys : List ℕ) × (select xs ≡ some ys) × Selected xs ys
  unfolding select
  select_total [] h =
      ([], refl, λ x. (λ m. absurd (Memᴰ.not-nil m), λ (m, _). absurd (Memᴰ.not-nil m)))
  select_total (y ∷ xs) h =
      let (key, at) = key_in D t y (h y (Memᴰ.head refl)) in
      let (ys, e, iff) = select_total xs (λ x m. h x (Memᴰ.tail m)) in
      (off_root D t key y ++ ys, simp (at, e) refl, Selected-cons y xs ys key at iff)

  -- No edge ends outside the graph.
  abbrev pub InRange : Type 0
  InRange =
      (e : Edge EdgeType)
      → Memᴰ e (edges D t)
      → (e.source < length (nodes D t)) × (e.target < length (nodes D t))

  -- A reference edge from `i` to `x`.
  abbrev pub Refers : ℕ → ℕ → Type 0
  Refers i x =
      (e : Edge EdgeType) × Memᴰ e (edges D t)
      × (is_reference e ≡ true)
      × (e.source ≡ i)
      × (e.target ≡ x)
