-- ===== src/Lineage/Listing/Orphans.antt =====
-- lineage/tree.rs: `find_orphans`. The map is iterated in the order of the list of its keys.
use mathlib.Core.List.Memᴰ
use mathlib.Core.Path.{subst}
use mathlib.Core.Bool.{false≢true}
use kubectl_nvim.Prelude.{
  ℕ, ◌≡◌, ◌↔◌, refl, sym, ap, ◌∙◌, inl, inr, Text, text_eq, ◌==◌, lookup, Option, none, some, List,
  [], ◌∷◌, Memᴰ, flat_map, Memᴰ-flat_map, Bool, true, false, Bool-cases, if◌then◌else◌, get_elem?,
  text_cmp, text_cmp-IsOrder, sort_by, Ascending, Memᴰ-sort_by, sort_by-Ascending,
}
use kubectl_nvim.Lineage.Resource.{Resource, EdgeType}
use kubectl_nvim.Lineage.Graph.Interface.{DiGraph}
use kubectl_nvim.Lineage.Tree.Build.{Tree}
use kubectl_nvim.Lineage.Tree.WellFormed.{nodes}
use kubectl_nvim.Lineage.Tree.Link.{◌>>=◌}
use kubectl_nvim.Lineage.Listing.Collect.{collect, collect_total}

-- What a key pushes to the list.
abbrev pub pushed : Text → Resource → List Text
pushed key resource = if resource.is_orphan then key ∷ [] else []

abbrev pub gathered : Option (List (List Text)) → Option (List Text)
gathered none = none
gathered (some pieces) = some (sort_by text_cmp (flat_map (λ piece. piece) pieces))

pushed_iff : (b : Bool) (j k : Text) → Memᴰ j (if b then k ∷ [] else []) ↔ ((j ≡ k) × (b ≡ true))
pushed_iff true j k = (λ m. (Memᴰ.eq_of_singleton m, refl), λ (same, _). Memᴰ.head same)
pushed_iff false j k = (λ m. absurd (Memᴰ.not-nil m), λ (_, h). absurd (false≢true h))

module _ (D : DiGraph Resource EdgeType) (t : Tree D) where
  unfoldable pub orphan_key : Text → Option (List Text)
  orphan_key key = if key == t.root_key then some [] else do
    idx ← lookup key t.key_to_index
    resource ← D.node_weight t.graph idx
    some (pushed key resource)

  unfoldable pub find_orphans : List Text → Option (List Text)
  find_orphans keys = gathered (collect orphan_key keys)

  -- The node of a key.
  abbrev pub At : Text → Resource → Type 0
  At k r = (i : ℕ) × (lookup k t.key_to_index ≡ some i) × (get_elem? (nodes D t) i ≡ some r)

  -- A key of a flagged node other than the root.
  abbrev pub Flagged : Text → Type 0
  Flagged k = (r : Resource) × ((k == t.root_key) ≡ false) × (r.is_orphan ≡ true) × At k r

  orphan_key-At :
      (k : Text) (r : Resource)
      → (k == t.root_key) ≡ false
      → At k r
      → orphan_key k ≡ some (pushed k r)
  unfolding orphan_key
  orphan_key-At k r off (i, at, node) = rw (off, at, D.node_weight_lem t.graph i, node) refl

  orphan_key_total :
      (k : Text) (r : Resource) → At k r → (ks : List Text) × (orphan_key k ≡ some ks)
  unfolding orphan_key
  orphan_key_total k r a = elim (Bool-cases (k == t.root_key)) [
    | inl root ↦ ([], rw root refl)
    | inr off ↦ (pushed k r, orphan_key-At k r off a)
  ]

  orphan_key_root : (k : Text) → (k == t.root_key) ≡ true → orphan_key k ≡ some []
  unfolding orphan_key
  orphan_key_root k root = rw root refl

  orphan_key_iff :
      (k j : Text) (r : Resource) (ks : List Text)
      → At k r
      → orphan_key k ≡ some ks
      → Memᴰ j ks ↔ ((j ≡ k) × ((k == t.root_key) ≡ false) × (r.is_orphan ≡ true))
  orphan_key_iff k j r ks a h = elim (Bool-cases (k == t.root_key)) [
    | inl root ↦
        let empty : ks ≡ [] = cc (h, orphan_key_root k root) in
        rw empty (λ m. absurd (Memᴰ.not-nil m), λ (_, off, _). absurd (false≢true (sym off ∙ root)))
    | inr off ↦
        let one : ks ≡ pushed k r = cc (h, orphan_key-At k r off a) in
        let told = pushed_iff r.is_orphan j k in
        rw one (
          λ m. let (same, flag) = told.0 m in (same, off, flag),
          λ (same, _, flag). told.1 (same, flag),
        )
  ]

  abbrev pub Known : List Text → Type 0
  Known ks = (k : Text) → Memᴰ k ks → (r : Resource) × At k r

  found_iff :
      (ks : List Text)
      → Known ks
      → (j : Text)
      → ((piece : List Text) × ((k : Text) × Memᴰ k ks × (orphan_key k ≡ some piece))
          × Memᴰ j piece)
        ↔ (Memᴰ j ks × Flagged j)
  found_iff ks known j = (
    λ (piece, from, m).
        let (k, at, h) = from in
        let (r, a) = known k at in
        let (same, off, flag) = (orphan_key_iff k j r piece a h).0 m in
        subst (λ x. Memᴰ x ks × Flagged x) (sym same) (at, (r, off, flag, a)),
    λ (at, flagged).
        let (r, off, flag, a) = flagged in
        let (piece, h) = orphan_key_total j r a in
        (piece, (j, at, h), (orphan_key_iff j j r piece a h).1 (refl, off, flag)),
  )

  -- Where each key leads to a node, the orphans are found without a panic: they are the keys of the
  -- flagged nodes other than the root, in order.
  pub find_orphans_total :
      (ks : List Text)
      → Known ks
      → (found : List Text) × (find_orphans ks ≡ some found)
        × Ascending text_cmp found
        × ((j : Text) → Memᴰ j found ↔ (Memᴰ j ks × Flagged j))
  unfolding find_orphans
  find_orphans_total ks known =
      let (pieces, e, told) =
        collect_total orphan_key ks (λ k m. let (r, a) = known k m in orphan_key_total k r a) in
      let flat = flat_map (λ (piece : List Text). piece) pieces in
      (
        sort_by text_cmp flat,
        ap gathered e,
        sort_by-Ascending text_cmp text_cmp-IsOrder flat,
        λ j.
            let within = Memᴰ-flat_map (λ (piece : List Text). piece) pieces j in
            let sorted_iff = Memᴰ-sort_by text_cmp j flat in
            (
              λ m.
                  let (piece, at, n) = within.0 (sorted_iff.0 m) in
                  (found_iff ks known j).0 (piece, (told piece).0 at, n),
              λ h.
                  let (piece, from, n) = (found_iff ks known j).1 h in
                  sorted_iff.1 (within.1 (piece, (told piece).1 from, n)),
            ),
      )
