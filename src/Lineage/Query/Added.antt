-- ===== src/Lineage/Query/Added.antt =====
-- lineage/query.rs: the nodes that `descendants` and `with_references` add.
use mathlib.Core.List.Memᴰ
use kubectl_nvim.Prelude.{
  ℕ, ◌<◌, ◌≡◌, ◌↔◌, ◌⊎◌, inl, inr, refl, sym, text_eq, some, List, [], ◌∷◌, Memᴰ, Memᴰ-extend,
  extend, Memᴰ-keep, flat_map, Memᴰ-flat_map, map, ap, ◌∙◌, length, keep,
}
use kubectl_nvim.Lineage.Resource.{Resource, EdgeType}
use kubectl_nvim.Lineage.Graph.Interface.{Edge, DiGraph, Walk, here, step, outgoing}
use kubectl_nvim.Lineage.Tree.Build.{Tree}
use kubectl_nvim.Lineage.Tree.WellFormed.{nodes, edges}
use kubectl_nvim.Lineage.Tree.Frame.{is_owner_edge}
use kubectl_nvim.Lineage.Query.Climb.{OffRoot}
use kubectl_nvim.Lineage.Query.Select.{
  is_reference, owned_from, descendants, target, reference_targets, with_references, select_total,
  InRange, Refers,
}

module _ (D : DiGraph Resource EdgeType) (t : Tree D) where
  pub walk_in_range :
      (i x : ℕ)
      → InRange D t
      → i < length (nodes D t)
      → Walk (edges D t) is_owner_edge i x
      → x < length (nodes D t)
  walk_in_range i x r h here = h
  walk_in_range i x r h (step e w m p) = (r e m).1

  -- On nodes of a graph whose edges stay inside it, `descendants` does not panic, and it adds the
  -- nodes other than the root that ownership edges lead to, and no others.
  pub descendants_total :
      (is : List ℕ)
      → InRange D t
      → ((i : ℕ) → Memᴰ i is → i < length (nodes D t))
      → (xs : List ℕ) × (descendants D t is ≡ some xs)
        × ((x : ℕ)
            → Memᴰ x xs ↔ (
                Memᴰ x is
                ⊎ ((i : ℕ) × Memᴰ i is × Walk (edges D t) is_owner_edge i x × OffRoot D t x)))
  unfolding descendants owned_from
  descendants_total is r h =
      let found = flat_map (owned_from D t) is in
      let found_iff = Memᴰ-flat_map (owned_from D t) is in
      let walks = λ (i : ℕ) (x : ℕ). D.dfs_iff t.graph is_owner_edge i x in
      let (ys, e, iff) = select_total D t found (λ x m.
        let (i, at, n) = (found_iff x).0 m in walk_in_range i x r (h i at) ((walks i x).0 n)) in
      (
        extend is ys,
        rw e refl,
        λ x. (
          λ m. elim ((Memᴰ-extend x is ys).0 m) [
            | inl n ↦ inl n
            | inr n ↦
                let (f, off) = (iff x).0 n in
                let (i, at, w) = (found_iff x).0 f in inr (i, at, (walks i x).0 w, off)
          ],
          λ m. (Memᴰ-extend x is ys).1 (elim m [
            | inl n ↦ inl n
            | inr (i, at, w, off) ↦ inr ((iff x).1 ((found_iff x).1 (i, at, (walks i x).1 w), off))
          ]),
        ),
      )

  pub mem_targets :
      (x : ℕ) (es : List (Edge EdgeType))
      → Memᴰ x (map target es) ↔ ((e : Edge EdgeType) × Memᴰ e es × (e.target ≡ x))
  mem_targets x [] = (λ m. absurd (Memᴰ.not-nil m), λ (e, m, _). absurd (Memᴰ.not-nil m))
  mem_targets x (e ∷ es) = (
    λ m. elim (Memᴰ.cases_cons m) [
      | inl same ↦ (e, Memᴰ.head refl, sym same)
      | inr later ↦ let (f, at, h) = (mem_targets x es).0 later in (f, Memᴰ.tail at, h)
    ],
    λ (f, at, h). elim (Memᴰ.cases_cons at) [
      | inl same ↦ Memᴰ.head (sym h ∙ ap target same)
      | inr later ↦ Memᴰ.tail ((mem_targets x es).1 (f, later, h))
    ],
  )

  reference_targets_iff : (i x : ℕ) → Memᴰ x (reference_targets D t i) ↔ Refers D t i x
  unfolding reference_targets
  reference_targets_iff i x =
      let out = D.edges_directed t.graph i outgoing in
      let directed = D.edges_directed_iff t.graph i outgoing in
      let targets = mem_targets x (keep is_reference out) in
      (
        λ m.
            let (e, kept, to) = targets.0 m in
            let (n, refers) = (Memᴰ-keep is_reference e out).0 kept in
            let (inside, from) = (directed e).0 n in (e, inside, refers, from, to),
        λ (e, inside, refers, from, to).
            targets.1
              (e, (Memᴰ-keep is_reference e out).1 ((directed e).1 (inside, from), refers), to),
      )

  -- On a graph whose edges stay inside it, `with_references` does not panic, and it adds the nodes
  -- other than the root to which a reference edge leads from one of the nodes, and no others.
  pub with_references_total :
      (is : List ℕ)
      → InRange D t
      → (xs : List ℕ) × (with_references D t is ≡ some xs)
        × ((x : ℕ)
            → Memᴰ x xs ↔ (Memᴰ x is ⊎ ((i : ℕ) × Memᴰ i is × Refers D t i x × OffRoot D t x)))
  unfolding with_references
  with_references_total is r =
      let found = flat_map (reference_targets D t) is in
      let found_iff = Memᴰ-flat_map (reference_targets D t) is in
      let (ys, e, iff) = select_total D t found (λ x m.
        let (i, at, n) = (found_iff x).0 m in
        let (f, inside, _, _, to) = (reference_targets_iff i x).0 n in
        rw (sym to) (r f inside).1) in
      (
        extend is ys,
        rw e refl,
        λ x. (
          λ m. elim ((Memᴰ-extend x is ys).0 m) [
            | inl n ↦ inl n
            | inr n ↦
                let (f, off) = (iff x).0 n in
                let (i, at, w) = (found_iff x).0 f in
                inr (i, at, (reference_targets_iff i x).0 w, off)
          ],
          λ m. (Memᴰ-extend x is ys).1 (elim m [
            | inl n ↦ inl n
            | inr (i, at, w, off) ↦
                inr ((iff x).1 ((found_iff x).1 (i, at, (reference_targets_iff i x).1 w), off))
          ]),
        ),
      )
