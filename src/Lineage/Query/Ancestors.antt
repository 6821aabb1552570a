-- ===== src/Lineage/Query/Ancestors.antt =====
-- lineage/query.rs: what `ancestors` returns where ownership has no cycle.
use mathlib.Core.List.Memᴰ
use mathlib.Core.Path.{subst}
use mathlib.Core.Bool.{false≢true}
use kubectl_nvim.Prelude.{
  ℕ, zero, suc, ◌<◌, ◌≡◌, ◌↔◌, ◌⊎◌, inl, inr, refl, ap, true, false, Text, text_eq, ◌==◌, none,
  some, List, [], ◌∷◌, ◌++◌, Memᴰ, Memᴰ-append, Memᴰ-extend, extend, ◌∙◌, length, Option-cases,
  Bool-cases, arith, sym, ◌≢◌,
}
use kubectl_nvim.Lineage.Resource.{Resource, EdgeType}
use kubectl_nvim.Lineage.Graph.Interface.{DiGraph}
use kubectl_nvim.Lineage.Tree.Build.{Tree}
use kubectl_nvim.Lineage.Tree.WellFormed.{nodes}
use kubectl_nvim.Lineage.Tree.Views.{get_key_for_index, parent_of}
use kubectl_nvim.Lineage.Query.Climb.{
  finished, off_root, climb, climb_all, ancestors, Above, parent, further, OffRoot, Ranked,
  parent_edge, key_in, Above-cases,
}

module _ (D : DiGraph Resource EdgeType) (t : Tree D) where
  module _ (rank : ℕ → ℕ) (ranked : Ranked D t rank) where
    -- What a climb from `i` has to find.
    abbrev pub Climbed : ℕ → List ℕ → Type 0
    Climbed i xs = (x : ℕ) → Memᴰ x xs ↔ (Above D t i x × OffRoot D t x)

    parent_bounds :
        (i p : ℕ) → parent_of D t i ≡ some p → (rank p < rank i) × (p < length (nodes D t))
    parent_bounds i p h =
        let (e, inside, own, target, source) = parent_edge D t i p h in
        let low = ranked.falls e inside own in
        (rw (sym source, sym target) low, rw (sym source) (ranked.bounded e inside))

    none_above : (i : ℕ) → parent_of D t i ≡ none → Climbed i []
    none_above i h x = (
      λ m. absurd (Memᴰ.not-nil m),
      λ (a, _). elim a [ parent e ↦ cc (e, h) | further e b ↦ cc (e, h) ],
    )

    root_not_above :
        (p x : ℕ) (key : Text)
        → get_key_for_index D t p ≡ some key
        → (key == t.root_key) ≡ true
        → OffRoot D t x
        → x ≢ p
    root_not_above p x key at root (other, at_x, off) same =
        let keys : other ≡ key = cc (at, at_x, ap (λ y. get_key_for_index D t y) same) in
        absurd (false≢true (sym off ∙ ap (λ k. k == t.root_key) keys ∙ root))

    Climbed-root :
        (i p : ℕ) (key : Text) (xs : List ℕ)
        → parent_of D t i ≡ some p
        → get_key_for_index D t p ≡ some key
        → (key == t.root_key) ≡ true
        → Climbed p xs
        → Climbed i xs
    Climbed-root i p key xs h at root rest x = (
      λ m. let (a, off) = (rest x).0 m in (further h a, off),
      λ (a, off). elim (Above-cases D t a h) [
        | inl same ↦ absurd (root_not_above p x key at root off same)
        | inr above ↦ (rest x).1 (above, off)
      ],
    )

    Climbed-cons :
        (i p : ℕ) (key : Text) (xs : List ℕ)
        → parent_of D t i ≡ some p
        → get_key_for_index D t p ≡ some key
        → (key == t.root_key) ≡ false
        → Climbed p xs
        → Climbed i (p ∷ xs)
    Climbed-cons i p key xs h at other rest x = (
      λ m. elim (Memᴰ.cases_cons m) [
        | inl same ↦
            subst (λ y. Above D t i y × OffRoot D t y) (sym same) (parent h, (key, at, other))
        | inr later ↦ let (a, off) = (rest x).0 later in (further h a, off)
      ],
      λ (a, off). elim (Above-cases D t a h) [
        | inl same ↦ Memᴰ.head same
        | inr above ↦ Memᴰ.tail ((rest x).1 (above, off))
      ],
    )

    Climbed-off_root :
        (i p : ℕ) (key : Text) (xs : List ℕ)
        → parent_of D t i ≡ some p
        → get_key_for_index D t p ≡ some key
        → Climbed p xs
        → Climbed i (off_root D t key p ++ xs)
    Climbed-off_root i p key xs h at rest = elim (Bool-cases (key == t.root_key)) [
      | inl root ↦ rw root (Climbed-root i p key xs h at root rest)
      | inr other ↦ rw other (Climbed-cons i p key xs h at other rest)
    ]

    -- With as much fuel as the rank of the node and one more, the climb ends, and it inserts the
    -- nodes above `i` other than the root.
    pub climb_total :
        (fuel i : ℕ)
        → rank i < fuel
        → (xs : List ℕ) × (climb D t fuel i ≡ finished xs) × Climbed i xs
    unfolding climb
    climb_total zero i h = absurd (omega arith)
    climb_total (suc fuel) i h = elim (Option-cases (parent_of D t i)) [
      | inl top ↦ ([], rw (climb, top) refl, none_above i top)
      | inr (p, up) ↦
          let (lower, inside) = parent_bounds i p up in
          let (key, at) = key_in D t p inside in
          let (xs, e, iff) = climb_total fuel p (omega arith) in
          (
            off_root D t key p ++ xs,
            rw (climb, up, at, e) refl,
            Climbed-off_root i p key xs up at iff,
          )
    ]

    -- What the climbs from the nodes `is` have to find.
    abbrev pub ClimbedAll : List ℕ → List ℕ → Type 0
    ClimbedAll is xs = (x : ℕ) → Memᴰ x xs ↔ ((i : ℕ) × Memᴰ i is × Above D t i x × OffRoot D t x)

    ClimbedAll-cons :
        (i : ℕ) (is xs ys : List ℕ)
        → Climbed i xs
        → ClimbedAll is ys
        → ClimbedAll (i ∷ is) (xs ++ ys)
    ClimbedAll-cons i is xs ys first later x = (
      λ m. elim ((Memᴰ-append x xs ys).0 m) [
        | inl n ↦ let (a, off) = (first x).0 n in (i, Memᴰ.head refl, a, off)
        | inr n ↦ let (j, at, a, off) = (later x).0 n in (j, Memᴰ.tail at, a, off)
      ],
      λ (j, at, a, off). elim (Memᴰ.cases_cons at) [
        | inl same ↦ Memᴰ.append_left ys ((first x).1 (subst (λ k. Above D t k x) same a, off))
        | inr other ↦ Memᴰ.append_right xs ((later x).1 (j, other, a, off))
      ],
    )

    climb_all_total :
        (fuel : ℕ) (is : List ℕ)
        → ((i : ℕ) → Memᴰ i is → rank i < fuel)
        → (xs : List ℕ) × (climb_all D t fuel is ≡ finished xs) × ClimbedAll is xs
    unfolding climb_all
    climb_all_total fuel [] h =
        ([], refl, λ x. (λ m. absurd (Memᴰ.not-nil m), λ (i, m, _, _). absurd (Memᴰ.not-nil m)))
    climb_all_total fuel (i ∷ is) h =
        let (xs, e, first) = climb_total fuel i (h i (Memᴰ.head refl)) in
        let (ys, f, later) = climb_all_total fuel is (λ j m. h j (Memᴰ.tail m)) in
        (xs ++ ys, simp (e, f) refl, ClimbedAll-cons i is xs ys first later)

    -- If every ownership edge goes up in some rank, then `ancestors` ends, and it adds to the nodes
    -- the ones above them other than the root, and no others.
    pub ancestors_total :
        (fuel : ℕ) (is : List ℕ)
        → ((i : ℕ) → Memᴰ i is → rank i < fuel)
        → (xs : List ℕ) × (ancestors D t fuel is ≡ finished xs)
          × ((x : ℕ)
              → Memᴰ x xs ↔ (Memᴰ x is ⊎ ((i : ℕ) × Memᴰ i is × Above D t i x × OffRoot D t x)))
    unfolding ancestors
    ancestors_total fuel is h =
        let (xs, e, iff) = climb_all_total fuel is h in
        (
          extend is xs,
          rw e refl,
          λ x. (
            λ m. elim ((Memᴰ-extend x is xs).0 m) [ inl n ↦ inl n | inr n ↦ inr ((iff x).0 n) ],
            λ m. (Memᴰ-extend x is xs).1 (elim m [ inl n ↦ inl n | inr n ↦ inr ((iff x).1 n) ]),
          ),
        )
