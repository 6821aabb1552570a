-- ===== src/Lineage/Listing/Affected.antt =====
-- lineage/tree.rs: what each node of a linked tree adds to the list of `compute_impact`.
use mathlib.Core.List.Memᴰ
use mathlib.Core.Path.{subst}
use mathlib.Core.Bool.{false≢true}
use kubectl_nvim.Prelude.{
  ℕ, ◌<◌, ◌≡◌, ◌↔◌, ◌⊎◌, refl, sym, ap, ◌∙◌, inl, inr, Bool, true, false, not, Bool-cases, Text,
  text_eq, ◌==◌, lookup, some, List, [], ◌∷◌, ◌++◌, map, Memᴰ, Memᴰ-keep, Memᴰ-append, length,
  arith, ==_refl, Memᴰ-map,
}
use kubectl_nvim.Lineage.Resource.{Resource, EdgeType}
use kubectl_nvim.Lineage.Graph.Interface.{Edge, DiGraph, incoming, Walk}
use kubectl_nvim.Lineage.Tree.Build.{Tree}
use kubectl_nvim.Lineage.Tree.WellFormed.{nodes, edges}
use kubectl_nvim.Lineage.Tree.Frame.{is_owner_edge}
use kubectl_nvim.Lineage.Tree.Views.{get_key_for_index}
use kubectl_nvim.Lineage.Tree.Referred.{refers}
use kubectl_nvim.Lineage.Query.Climb.{OffRoot, key_in}
use kubectl_nvim.Lineage.Query.Select.{is_reference, InRange, Refers}
use kubectl_nvim.Lineage.Query.Added.{descendants_total, walk_in_range}
use kubectl_nvim.Lineage.Listing.Gather.{Pushes}
use kubectl_nvim.Lineage.Listing.Keys.{collect_keys_total}
use kubectl_nvim.Lineage.Listing.Impact.{
  OwnedBy, Impacted, refers_to_it, owned_by_affected, entry_key, with_reason, first, second,
  off_root_source, referencer, others, affected,
}

abbrev reason_of : Text × Text → Text
reason_of (key, reason) = reason

off_of_differs : {b : Bool} → not b ≡ true → b ≡ false
off_of_differs {b} h = ground arith

module _ (D : DiGraph Resource EdgeType) (t : Tree D) (range : InRange D t)
    (key_iff : (x : ℕ) (key : Text)
      → (get_key_for_index D t x ≡ some key) ↔ (lookup key t.key_to_index ≡ some x)) where
  -- The source of a reference edge, other than the root, with its key.
  abbrev pub Referencer : Edge EdgeType → ℕ × Text → Type 0
  Referencer e (x, key) =
      (is_reference e ≡ true)
      × (e.source ≡ x)
      × (get_key_for_index D t x ≡ some key)
      × ((key == t.root_key) ≡ false)

  off_root_iff :
      (idx : ℕ) (own : Text) (x : ℕ) (key : Text)
      → Memᴰ (x, key) (off_root_source D t idx own)
        ↔ ((idx ≡ x) × (own ≡ key) × ((key == t.root_key) ≡ false))
  off_root_iff idx own x key = elim (Bool-cases (own == t.root_key)) [
    | inl root ↦ rw root (
      λ m. absurd (Memᴰ.not-nil m),
      λ (e, same, off). absurd (false≢true (sym off ∙ ap (λ k. k == t.root_key) (sym same) ∙ root)),
    )
    | inr off ↦ rw off (
      λ m.
          let pair = Memᴰ.eq_of_singleton m in
          (
            sym (ap first pair),
            sym (ap second pair),
            ap (λ k. k == t.root_key) (ap second pair) ∙ off,
          ),
      λ (e, same, _). Memᴰ.head (cc (e, same)),
    )
  ]

  pub referencer_total :
      (e : Edge EdgeType) → e.source < length (nodes D t) → Pushes (referencer D t) Referencer e
  unfolding referencer
  referencer_total e h =
      let (own, at) = key_in D t e.source h in
      elim (Bool-cases (is_reference e)) [
        | inl ref ↦ (
          off_root_source D t e.source own,
          rw (ref, at) refl,
          λ (x, key). (
            λ m.
                let (from, same, off) = (off_root_iff e.source own x key).0 m in
                let at_x : get_key_for_index D t x ≡ some key =
                  ap (λ y. get_key_for_index D t y) (sym from) ∙ at ∙ ap some same in
                (ref, from, at_x, off),
            λ (_, from, at_x, off).
                let same : own ≡ key = cc (at, at_x, ap (λ y. get_key_for_index D t y) from) in
                (off_root_iff e.source own x key).1 (from, same, off),
          ),
        )
        | inr owner ↦ (
          [],
          rw owner refl,
          λ b. (
            λ m. absurd (Memᴰ.not-nil m),
            λ (ref, _, _, _). absurd (false≢true (sym owner ∙ ref)),
          ),
        )
      ]

  -- The nodes of which `keys` are the keys, and what of them is pushed.
  owned_iff :
      (x : ℕ) (own : Text) (xs : List ℕ) (keys : List Text)
      → get_key_for_index D t x ≡ some own
      → ((y : ℕ)
          → Memᴰ y xs ↔ (
              Memᴰ y (x ∷ [])
              ⊎ ((i : ℕ) × Memᴰ i (x ∷ []) × Walk (edges D t) is_owner_edge i y × OffRoot D t y)))
      → ((k : Text) → Memᴰ k keys ↔ ((y : ℕ) × Memᴰ y xs × (get_key_for_index D t y ≡ some k)))
      → (b : Text × Text)
      → Memᴰ b (map (with_reason owned_by_affected) (others D t own keys)) ↔ OwnedBy D t x b
  owned_iff x own xs keys at told named (key, reason) =
      let pushed = Memᴰ-map (with_reason owned_by_affected) (others D t own keys) (key, reason) in
      let kept = λ (k : Text). Memᴰ-keep (λ j. not (j == own)) k keys in
      (
        λ m.
            let (k, n, pair) = pushed.0 m in
            let same = ap entry_key pair in
            let (n', ne) = (kept k).0 n in
            let (y, n'', at_y) = (named k).0 n' in
            let at_key = at_y ∙ ap some (sym same) in
            let off : (key == own) ≡ false = ap (λ j. j == own) same ∙ off_of_differs ne in
            elim ((told y).0 n'') [
              | inl self ↦
                  let both : own ≡ key =
                    cc
                      (at, at_key, ap (λ j. get_key_for_index D t j) (Memᴰ.eq_of_singleton self)) in
                  absurd (false≢true (sym off ∙ ap (λ j. j == own) (sym both) ∙ ==_refl own))
              | inr (i, self, walk, outside) ↦ (
                own,
                y,
                at,
                subst (λ j. Walk (edges D t) is_owner_edge j y) (Memᴰ.eq_of_singleton self) walk,
                outside,
                at_key,
                off,
                ap reason_of pair,
              )
            ],
        λ (own', y, at', walk, outside, at_y, off, why).
            let same : own' ≡ own = cc (at, at') in
            let n = (told y).1 (inr (x, Memᴰ.head refl, walk, outside)) in
            let n' = (named key).1 (y, n, at_y) in
            let ne : not (key == own) ≡ true = ap (λ j. not (key == j)) (sym same) ∙ ap not off in
            pushed.1 (key, (kept key).1 (n', ne), ap (λ r. with_reason r key) why),
      )

  pub affected_total : (x : ℕ) → x < length (nodes D t) → Pushes (affected D t) (OwnedBy D t) x
  unfolding affected
  affected_total x h =
      let (own, at) = key_in D t x h in
      let (xs, e, told) =
        descendants_total D t (x ∷ []) range (λ i m. rw (Memᴰ.eq_of_singleton m) h) in
      let (keys, e', _, named) = collect_keys_total D t xs (λ y m.
        key_in D t y (elim ((told y).0 m) [
          | inl self ↦ rw (Memᴰ.eq_of_singleton self) h
          | inr (i, self, walk, _) ↦
              walk_in_range D t i y range (rw (Memᴰ.eq_of_singleton self) h) walk
        ])) in
      (
        map (with_reason owned_by_affected) (others D t own keys),
        rw (at, (key_iff x own).0 at, e, e') refl,
        owned_iff x own xs keys at told named,
      )

  pub direct_iff :
      (idx x : ℕ) (key : Text)
      → ((e : Edge EdgeType) × Memᴰ e (D.edges_directed t.graph idx incoming)
          × Referencer e (x, key))
        ↔ (Refers D t x idx × (get_key_for_index D t x ≡ some key) × ((key == t.root_key) ≡ false))
  direct_iff idx x key = (
    λ (e, m, told).
        let (ref, from, at, off) = told in
        let (inside, to) = (D.edges_directed_iff t.graph idx incoming e).0 m in
        ((e, inside, ref, from, to), at, off),
    λ (refers, at, off).
        let (e, inside, ref, from, to) = refers in
        (e, (D.edges_directed_iff t.graph idx incoming e).1 (inside, to), (ref, from, at, off)),
  )

  -- The pairs that the first loop finds, and all that is listed.
  pub listed_iff :
      (idx : ℕ) (found : List (ℕ × Text)) (more : List (Text × Text))
      → ((x : ℕ) (k : Text)
          → Memᴰ (x, k) found
            ↔ (Refers D t x idx × (get_key_for_index D t x ≡ some k) × ((k == t.root_key) ≡ false)))
      → ((b : Text × Text) → Memᴰ b more ↔ ((x : ℕ) × Memᴰ x (map first found) × OwnedBy D t x b))
      → (b : Text × Text)
      → Memᴰ b (map (with_reason refers_to_it) (map second found) ++ more) ↔ Impacted D t idx b
  listed_iff idx found more direct owned (key, reason) =
      let listed = map (with_reason refers_to_it) (map second found) in
      let pushed = Memᴰ-map (with_reason refers_to_it) (map second found) (key, reason) in
      (
        λ m. elim ((Memᴰ-append (key, reason) listed more).0 m) [
          | inl n ↦
              let (k, n', pair) = pushed.0 n in
              let ((x, k'), n'', same) = (Memᴰ-map second found k).0 n' in
              let (refers, at, off) = (direct x k').0 n'' in
              (
                x,
                (refers, (k', at, off)),
                inl (at ∙ ap some (sym same ∙ sym (ap entry_key pair)), ap reason_of pair),
              )
          | inr n ↦
              let (x, n', more_of) = (owned (key, reason)).0 n in
              let ((y, k), n'', same) = (Memᴰ-map first found x).0 n' in
              let (refers, at, off) = (direct y k).0 n'' in
              (
                y,
                (refers, (k, at, off)),
                inr (subst (λ z. OwnedBy D t z (key, reason)) same more_of),
              )
        ],
        λ (x, told, why).
            let (refers, off) = told in
            let (k, at, out) = off in
            let inside = (direct x k).1 (refers, at, out) in
            elim why [
              | inl (at_key, ref) ↦
                  let same : key ≡ k = cc (at, at_key) in
                  Memᴰ.append_left more (
                    pushed.1
                      (k, (Memᴰ-map second found k).1 ((x, k), inside, refl), cc (same, ref)))
              | inr more_of ↦ Memᴰ.append_right listed (
                  (owned (key, reason)).1
                    (x, (Memᴰ-map first found x).1 ((x, k), inside, refl), more_of))
            ],
      )
