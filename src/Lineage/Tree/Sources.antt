-- ===== src/Lineage/Tree/Sources.antt =====
-- lineage/tree.rs: the references that `compute_orphan_status` reads off the edges into a node.
use mathlib.Core.List.Memᴰ
use mathlib.Core.Bool.{false≢true}
use kubectl_nvim.Prelude.{
  ℕ, ◌<◌, ◌≡◌, ◌≢◌, ◌↔◌, inl, inr, refl, sym, ap, ◌∙◌, true, false, Text, text_eq, ℕ_eq, ◌==◌,
  Option, none, some, List, [], ◌∷◌, Memᴰ, length, get_elem?, Bool-cases, nat_eq_iff,
  get_elem?_of_lt,
}
use kubectl_nvim.Lineage.Resource.{Resource, EdgeType}
use kubectl_nvim.Lineage.Graph.Interface.{Edge, DiGraph}
use kubectl_nvim.Lineage.Tree.Build.{Tree}
use kubectl_nvim.Lineage.Tree.WellFormed.{nodes}
use kubectl_nvim.Lineage.Tree.Frame.{core?, Frame}
use kubectl_nvim.Lineage.Tree.Owners.{core_of}
use kubectl_nvim.Lineage.Tree.Link.{incoming_refs}

abbrev get_kind : Option Resource → Text
get_kind none = []
get_kind (some r) = r.kind

module _ (D : DiGraph Resource EdgeType) (t0 : Tree D) where
  -- `x` is the kind of the edge `e` with the kind of its source, which is not the root.
  abbrev pub FromSource : Edge EdgeType → EdgeType × Text → Type 0
  FromSource e x =
      (s : Resource) × (e.source ≢ t0.root_index)
      × (get_elem? (nodes D t0) e.source ≡ some s)
      × (x ≡ (e.weight, s.kind))

  abbrev pub Sourced : List (Edge EdgeType) → EdgeType × Text → Type 0
  Sourced es x = (e : Edge EdgeType) × Memᴰ e es × FromSource e x

  -- `refs` lists the edges of `es` into node `i`, but for those from the root.
  abbrev pub Describes : List (Edge EdgeType) → ℕ → List (EdgeType × Text) → Type 0
  Describes es i refs =
      (x : EdgeType × Text)
      → Memᴰ x refs ↔ ((e : Edge EdgeType) × Memᴰ e es × (e.target ≡ i) × FromSource e x)

  Sourced-skip :
      (e : Edge EdgeType) (es : List (Edge EdgeType)) (x : EdgeType × Text)
      → e.source ≡ t0.root_index
      → Sourced es x ↔ Sourced (e ∷ es) x
  Sourced-skip e es x root = (
    λ (f, m, from). (f, Memᴰ.tail m, from),
    λ (f, m, from). elim (Memᴰ.cases_cons m) [
      | inl same ↦ absurd (from.1 (ap (λ (y : Edge EdgeType). y.source) same ∙ root))
      | inr later ↦ (f, later, from)
    ],
  )

  Sourced-cons :
      (e : Edge EdgeType) (es : List (Edge EdgeType)) (s : Resource) (refs : List (EdgeType × Text))
      → e.source ≢ t0.root_index
      → get_elem? (nodes D t0) e.source ≡ some s
      → (x : EdgeType × Text) → (Memᴰ x refs ↔ Sourced es x)
      → Memᴰ x ((e.weight, s.kind) ∷ refs) ↔ Sourced (e ∷ es) x
  Sourced-cons e es s refs other at x char = (
    λ m. elim (Memᴰ.cases_cons m) [
      | inl same ↦ (e, Memᴰ.head refl, (s, other, at, same))
      | inr later ↦ let (f, n, from) = char.0 later in (f, Memᴰ.tail n, from)
    ],
    λ (f, n, from). elim (Memᴰ.cases_cons n) [
      | inl same ↦
          let src = ap (λ (y : Edge EdgeType). get_elem? (nodes D t0) y.source) same in
          let kinds = ap (λ (o : Option Resource). get_kind o) (sym from.2 ∙ src ∙ at) in
          Memᴰ.head (from.3 ∙ λ i. ((same i).weight, kinds i))
      | inr later ↦ Memᴰ.tail (char.1 (f, later, from))
    ],
  )

  module _ (own : List (Edge EdgeType)) where
    abbrev InGraph : ℕ → Type 0
    InGraph i = i < length (nodes D t0)

    source_in :
        (t : Tree D) (i : ℕ)
        → Frame D t0 own t
        → InGraph i
        → (r : Resource) × (r0 : Resource) × (D.node_weight t.graph i ≡ some r)
          × (get_elem? (nodes D t0) i ≡ some r0)
          × (r.kind ≡ r0.kind)
    source_in t i f h =
        let (r, at) = get_elem?_of_lt (nodes D t) i (rw f.size h) in
        let (r0, at0) = get_elem?_of_lt (nodes D t0) i h in
        (
          r,
          r0,
          rw (D.node_weight_lem t.graph i) at,
          at0,
          ap (λ (x : Resource). x.kind)
              (core_of r r0 (ap core? (sym at) ∙ f.alike i ∙ ap core? at0)),
        )

    at_root :
        (t : Tree D) (e : Edge EdgeType)
        → Frame D t0 own t
        → (e.source == t.root_index) ≡ true
        → e.source ≡ t0.root_index
    at_root t e f h = (nat_eq_iff e.source t.root_index).0 h ∙ f.root

    off_root :
        (t : Tree D) (e : Edge EdgeType)
        → Frame D t0 own t
        → (e.source == t.root_index) ≡ false
        → e.source ≢ t0.root_index
    off_root t e f h p = false≢true (sym h ∙ (nat_eq_iff e.source t.root_index).1 (p ∙ sym f.root))

    pub incoming_described :
        (t : Tree D) (es : List (Edge EdgeType))
        → Frame D t0 own t
        → ((e : Edge EdgeType) → Memᴰ e es → InGraph e.source)
        → (refs : List (EdgeType × Text)) × (incoming_refs D t es ≡ some refs)
          × ((x : EdgeType × Text) → Memᴰ x refs ↔ Sourced es x)
    unfolding incoming_refs
    incoming_described t [] f h =
        ([], refl, λ x. (λ m. absurd (Memᴰ.not-nil m), λ (e, m, _). absurd (Memᴰ.not-nil m)))
    incoming_described t (e ∷ es) f h =
        let (refs, eq, char) = incoming_described t es f (λ y m. h y (Memᴰ.tail m)) in
        let (r, r0, weight, at0, kinds) = source_in t e.source f (h e (Memᴰ.head refl)) in
        elim (Bool-cases (e.source == t.root_index)) [
          | inl root ↦ (
            refs,
            rw root eq,
            λ x.
                let skip = Sourced-skip e es x (at_root t e f root) in
                (λ m. skip.0 ((char x).0 m), λ from. (char x).1 (skip.1 from)),
          )
          | inr other ↦ (
            (e.weight, r0.kind) ∷ refs,
            rw (other, weight, eq, kinds),
            λ x. Sourced-cons e es r0 refs (off_root t e f other) at0 x (char x),
          )
        ]
