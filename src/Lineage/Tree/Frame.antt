-- ===== src/Lineage/Tree/Frame.antt =====
-- lineage/tree.rs: what the loops of `link_nodes` leave alone, and what each step adds.
use mathlib.Core.List.Memᴰ
use mathlib.Core.List.{append-nil}
use kubectl_nvim.Prelude.{
  zero, suc, ℕ, ◌<◌, ◌≡◌, refl, inl, inr, ap, Bool, true, false, text_eq, Option, none, some, List,
  [], ◌∷◌, ◌++◌, Memᴰ, keep, length, get_elem?, set, Memᴰ-append, keep-append, length-set, ◌∙◌,
}
use kubectl_nvim.Lineage.Resource.{Resource, EdgeType, owns, references}
use kubectl_nvim.Lineage.Graph.Interface.{Edge, DiGraph}
use kubectl_nvim.Lineage.Tree.Build.{Tree}
use kubectl_nvim.Lineage.Tree.WellFormed.{nodes, edges}
use kubectl_nvim.Lineage.Tree.Link.{refer_both}

-- A resource without the two fields that linking fills in.
abbrev pub core : Resource → Resource
core r = record r { is_orphan = false; missing_refs = none }

abbrev pub core? : Option Resource → Option Resource
core? none = none
core? (some r) = some (core r)

abbrev pub is_owner_edge : Edge EdgeType → Bool
is_owner_edge e = elim e.weight [ owns ↦ true | references ↦ false ]

abbrev pub flip : Edge EdgeType → Edge EdgeType
flip e = record e { source = e.target; target = e.source }

core?-set :
    (rs : List Resource) (i j : ℕ) (r : Resource)
    → core? (some r) ≡ core? (get_elem? rs i)
    → core? (get_elem? (set rs i r) j) ≡ core? (get_elem? rs j)
core?-set [] i j r h = refl
core?-set (x ∷ rs) zero zero r h = h
core?-set (x ∷ rs) zero (suc j) r h = refl
core?-set (x ∷ rs) (suc i) zero r h = refl
core?-set (x ∷ rs) (suc i) (suc j) r h = core?-set rs i j r h

-- Membership in a list that grew by a pair of opposite edges.
mirrored-append :
    (es : List (Edge EdgeType)) (e x : Edge EdgeType)
    → ((y : Edge EdgeType) → Memᴰ y es → y.weight ≡ references → Memᴰ (flip y) es)
    → x.weight ≡ references
    → Memᴰ x ((es ++ e ∷ []) ++ flip e ∷ [])
    → Memᴰ (flip x) ((es ++ e ∷ []) ++ flip e ∷ [])
mirrored-append es e x m w h = elim ((Memᴰ-append x (es ++ e ∷ []) (flip e ∷ [])).0 h) [
  | inr last ↦
      Memᴰ.append_left (flip e ∷ [])
        (Memᴰ.append_right es (Memᴰ.head (ap flip (Memᴰ.eq_of_singleton last))))
  | inl before ↦ elim ((Memᴰ-append x es (e ∷ [])).0 before) [
    | inr one ↦ Memᴰ.append_right (es ++ e ∷ []) (Memᴰ.head (ap flip (Memᴰ.eq_of_singleton one)))
    | inl old ↦ Memᴰ.append_left (flip e ∷ []) (Memᴰ.append_left (e ∷ []) (m x old w))
  ]
]

bounded-append :
    (n : ℕ) (es : List (Edge EdgeType)) (e x : Edge EdgeType)
    → ((y : Edge EdgeType) → Memᴰ y es → y.source < n)
    → e.source < n
    → Memᴰ x (es ++ e ∷ [])
    → x.source < n
bounded-append n es e x old new m = elim ((Memᴰ-append x es (e ∷ [])).0 m) [
  | inl before ↦ old x before
  | inr last ↦ rw (Memᴰ.eq_of_singleton last) new
]

module _ (D : DiGraph Resource EdgeType) where
  pub record Frame (t0 : Tree D) (own : List (Edge EdgeType)) (t : Tree D) : Type 0 where
    pub keys : t.key_to_index ≡ t0.key_to_index
    pub root : t.root_index ≡ t0.root_index
    pub root_key : t.root_key ≡ t0.root_key
    pub size : length (nodes D t) ≡ length (nodes D t0)
    pub alike : (i : ℕ) → core? (get_elem? (nodes D t) i) ≡ core? (get_elem? (nodes D t0) i)
    pub owned : keep is_owner_edge (edges D t) ≡ own
    pub bounded : (e : Edge EdgeType) → Memᴰ e (edges D t) → e.source < length (nodes D t0)
    pub mirrored :
        (e : Edge EdgeType) → Memᴰ e (edges D t) → e.weight ≡ references → Memᴰ (flip e) (edges D t)

  module _ (t0 : Tree D) (own : List (Edge EdgeType)) (t : Tree D) (f : Frame t0 own t) where
    in_graph : {a : ℕ} → a < length (nodes D t0) → a < length (nodes D t)
    in_graph h = rw f.size h

    owner_edge_added :
        (a b : ℕ)
        → a < length (nodes D t0)
        → b < length (nodes D t0)
        → D.raw_edges (D.add_edge t.graph a b owns)
          ≡ edges D t ++ record { source = a; target = b; weight = owns } ∷ []
    owner_edge_added a b ha hb = D.add_edge_edges t.graph a b owns (in_graph ha) (in_graph hb)

    mirrored_owner :
        (e x : Edge EdgeType)
        → e.weight ≡ owns
        → x.weight ≡ references
        → Memᴰ x (edges D t ++ e ∷ [])
        → Memᴰ (flip x) (edges D t ++ e ∷ [])
    mirrored_owner e x he hx m = elim ((Memᴰ-append x (edges D t) (e ∷ [])).0 m) [
      | inl old ↦ Memᴰ.append_left (e ∷ []) (f.mirrored x old hx)
      | inr new ↦ cc (ap (λ (y : Edge EdgeType). y.weight) (Memᴰ.eq_of_singleton new), he, hx)
    ]

    -- Adding an edge to an owner.
    pub Frame-add_owner :
        (a b : ℕ)
        → a < length (nodes D t0)
        → b < length (nodes D t0)
        → Frame t0
            (own ++ record { source = a; target = b; weight = owns } ∷ [])
            (record t { graph = D.add_edge t.graph a b owns })
    Frame-add_owner a b ha hb =
        let e : Edge EdgeType = record { source = a; target = b; weight = owns } in
        let same = D.add_edge_nodes t.graph a b owns in
        record {
          keys = f.keys;
          root = f.root;
          root_key = f.root_key;
          size = rw same f.size;
          alike = λ i. rw same (f.alike i);
          owned =
              rw (
                owner_edge_added a b ha hb,
                keep-append is_owner_edge (edges D t) (e ∷ []),
                f.owned,
              );
          bounded = λ x m.
              bounded-append (length (nodes D t0)) (edges D t) e x f.bounded ha
                (rw (owner_edge_added a b ha hb) at m);
          mirrored = λ x m w.
              rw (owner_edge_added a b ha hb)
                (mirrored_owner e x refl w (rw (owner_edge_added a b ha hb) at m));
        }

    pub both_edges :
        (a b : ℕ)
        → a < length (nodes D t0)
        → b < length (nodes D t0)
        → edges D (refer_both D a t b)
          ≡ (edges D t ++ record { source = a; target = b; weight = references } ∷ [])
            ++ record { source = b; target = a; weight = references } ∷ []
    unfolding refer_both
    both_edges a b ha hb =
        rw
          (D.add_edge_edges (D.add_edge t.graph a b references) b a references
            (rw (D.add_edge_nodes t.graph a b references) (in_graph hb))
            (rw (D.add_edge_nodes t.graph a b references) (in_graph ha)))
          (rw (D.add_edge_edges t.graph a b references (in_graph ha) (in_graph hb)))

    both_nodes : (a b : ℕ) → nodes D (refer_both D a t b) ≡ nodes D t
    unfolding refer_both
    both_nodes a b = rw (
      D.add_edge_nodes (D.add_edge t.graph a b references) b a references,
      D.add_edge_nodes t.graph a b references,
    )

    -- Adding a pair of references.
    pub Frame-refer_both :
        (a b : ℕ)
        → a < length (nodes D t0)
        → b < length (nodes D t0)
        → Frame t0 own (refer_both D a t b)
    unfolding refer_both
    Frame-refer_both a b ha hb =
        let e : Edge EdgeType = record { source = a; target = b; weight = references } in
        record {
          keys = f.keys;
          root = f.root;
          root_key = f.root_key;
          size = rw (both_nodes a b) f.size;
          alike = λ i. rw (both_nodes a b) (f.alike i);
          owned = rw (both_edges a b ha hb) (simp (keep-append, append-nil) f.owned);
          bounded = λ x m.
              bounded-append (length (nodes D t0)) (edges D t ++ e ∷ []) (flip e) x
                (λ y. bounded-append (length (nodes D t0)) (edges D t) e y f.bounded ha) hb
                (rw (both_edges a b ha hb) at m);
          mirrored = λ x m w.
              rw (both_edges a b ha hb)
                (mirrored-append (edges D t) e x f.mirrored w (rw (both_edges a b ha hb) at m));
        }

    -- Filling in a field that linking computes.
    pub Frame-set_weight :
        (i : ℕ) (r : Resource)
        → core? (some r) ≡ core? (get_elem? (nodes D t) i)
        → Frame t0 own (record t { graph = D.set_weight t.graph i r })
    Frame-set_weight i r h =
        let set_nodes = D.set_weight_nodes t.graph i r in
        let set_edges = D.set_weight_edges t.graph i r in
        record {
          keys = f.keys;
          root = f.root;
          root_key = f.root_key;
          size = rw (set_nodes, length-set (nodes D t) i r) f.size;
          alike = λ j. rw set_nodes (core?-set (nodes D t) i j r h ∙ f.alike j);
          owned = rw set_edges f.owned;
          bounded = λ e m. f.bounded e (rw set_edges at m);
          mirrored = λ e m w. rw set_edges (f.mirrored e (rw set_edges at m) w);
        }
