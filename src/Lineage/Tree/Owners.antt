-- ===== src/Lineage/Tree/Owners.antt =====
-- lineage/tree.rs: `build_ownership_edges` never panics, and which edges it adds.
use mathlib.Core.Path.{subst}
use mathlib.Core.List.{append-nil, append_assoc}
use kubectl_nvim.Prelude.{
  ℕ, ◌<◌, ◌≡◌, refl, sym, ap, ◌∙◌, Text, text_eq, ◌==◌, lookup, Option, none, some, List, [], ◌∷◌,
  ◌++◌, Memᴰ, length, get_elem?, Option-cases, Bool-cases, if◌then◌else◌, lt-length_of_get_elem?,
  get_elem?_of_lt, inl, inr,
}
use kubectl_nvim.Lineage.Resource.{Resource, EdgeType, owns}
use kubectl_nvim.Lineage.Graph.Interface.{Edge, DiGraph}
use kubectl_nvim.Lineage.Tree.Build.{Tree}
use kubectl_nvim.Lineage.Tree.WellFormed.{nodes, IsWellFormed}
use kubectl_nvim.Lineage.Tree.Frame.{core, core?, Frame, Frame-add_owner}
use kubectl_nvim.Lineage.Tree.Link.{
  ◌>>=◌, for_each, get_or, owner_key, owner_index, link_owner, build_ownership_edges,
}

-- A loop does not panic if its body does not, and keeps an invariant over what is done.
pub for_each_total {ℓ κ μ} :
    {A : Type ℓ} {S : Type κ} (body : S → A → Option S) (P : List A → S → Type μ) (xs : List A)
    → ((done : List A) (a : A) (s : S)
        → Memᴰ a xs
        → P done s
        → (t : S) × (body s a ≡ some t) × P (done ++ a ∷ []) t)
    → (done : List A) (s : S) → P done s
    → (t : S) × (for_each body s xs ≡ some t) × P (done ++ xs) t
unfolding for_each
for_each_total body P [] step done s p = (s, refl, rw append-nil p)
for_each_total body P (a ∷ xs) step done s p =
    let (t, e, q) = step done a s (Memᴰ.head refl) p in
    let (u, e', q') =
      for_each_total body P xs (λ d b r m. step d b r (Memᴰ.tail m)) (done ++ a ∷ []) t q in
    (u, rw e e', rw append_assoc at q')

pub core_of : (a b : Resource) → core? (some a) ≡ core? (some b) → core a ≡ core b
core_of a b h = ap (λ (o : Option Resource). get_or o (core a)) h

module _ (D : DiGraph Resource EdgeType) (t0 : Tree D) where
  -- The edge from the owner that a node names first, or from the root, to the node.
  abbrev pub owner_edge_of : ℕ → Option Resource → List (Edge EdgeType)
  owner_edge_of i none = []
  owner_edge_of i (some r) = record { source = owner_index D t0 r; target = i; weight = owns } ∷ []

  abbrev pub owner_edge_at : Option ℕ → List (Edge EdgeType)
  owner_edge_at none = []
  owner_edge_at (some i) = owner_edge_of i (get_elem? (nodes D t0) i)

  abbrev pub owner_edge : Text → List (Edge EdgeType)
  owner_edge k = if k == t0.root_key then [] else owner_edge_at (lookup k t0.key_to_index)

  abbrev pub owner_edges : List Text → List (Edge EdgeType)
  owner_edges [] = []
  owner_edges (k ∷ ks) = owner_edge k ++ owner_edges ks

  owner_edges-append :
      (ks js : List Text) → owner_edges (ks ++ js) ≡ owner_edges ks ++ owner_edges js
  owner_edges-append [] js = refl
  owner_edges-append (k ∷ ks) js =
      rw (owner_edges-append ks js)
        (sym (append_assoc (owner_edge k) (owner_edges ks) (owner_edges js)))

  owner_edges-concat :
      (own : List (Edge EdgeType)) (ks : List Text) (k : Text)
      → (own ++ owner_edges ks) ++ owner_edge k ≡ own ++ owner_edges (ks ++ k ∷ [])
  owner_edges-concat own ks k = simp (owner_edges-append, append_assoc, append-nil)

  module _ (w : IsWellFormed D t0) where
    pub lookup_lt : (k : Text) {i : ℕ} → lookup k t0.key_to_index ≡ some i → i < length (nodes D t0)
    lookup_lt k {i} h =
        let (r, at, named) = w.indexed k i h in lt-length_of_get_elem? (nodes D t0) i at

    -- The node that a key of the map leads to, in a tree on the way.
    pub framed_node :
        (own : List (Edge EdgeType)) (t : Tree D)
        → Frame D t0 own t
        → (k : Text) (i : ℕ) → lookup k t0.key_to_index ≡ some i
        → (r : Resource) × (r0 : Resource) × (D.node_weight t.graph i ≡ some r)
          × (get_elem? (nodes D t) i ≡ some r)
          × (get_elem? (nodes D t0) i ≡ some r0)
          × (core r ≡ core r0)
    framed_node own t f k i h =
        let (r, at) = get_elem?_of_lt (nodes D t) i (rw f.size (lookup_lt k h)) in
        let (r0, at0, named) = w.indexed k i h in
        (
          r,
          r0,
          rw (D.node_weight_lem t.graph i, at),
          at,
          at0,
          core_of r r0 (ap core? (sym at) ∙ f.alike i ∙ ap core? at0),
        )

    parent_lt :
        (o : Option Text)
        → get_or (o >>= λ key. lookup key t0.key_to_index) t0.root_index < length (nodes D t0)
    parent_lt none = lookup_lt t0.root_key w.rooted
    parent_lt (some key) = elim (Option-cases (lookup key t0.key_to_index)) [
      | inl e ↦ rw e (lookup_lt t0.root_key w.rooted)
      | inr (i, e) ↦ rw e (lookup_lt key e)
    ]

    owner_index_lt : (r : Resource) → owner_index D t0 r < length (nodes D t0)
    unfolding owner_index
    owner_index_lt r = parent_lt (owner_key r)

    owner_index_framed :
        (own : List (Edge EdgeType)) (t : Tree D)
        → Frame D t0 own t
        → (r r0 : Resource) → core r ≡ core r0
        → owner_index D t r ≡ owner_index D t0 r0
    unfolding owner_index owner_key
    owner_index_framed own t f r r0 same =
        let e : owner_key r ≡ owner_key r0 = ap owner_key same in
        λ i. get_or (e i >>= λ key. lookup key (f.keys i)) (f.root i)

    -- A key of the map.
    abbrev pub Known : Text → Type 0
    Known k = (i : ℕ) × (lookup k t0.key_to_index ≡ some i)

    owner_step :
        (own : List (Edge EdgeType)) (t : Tree D) (k : Text)
        → Frame D t0 own t
        → Known k
        → (u : Tree D) × (link_owner D t k ≡ some u) × Frame D t0 (own ++ owner_edge k) u
    unfolding link_owner
    owner_step own t k f (i, at) =
        let (r, r0, weight, here, here0, same) = framed_node own t f k i at in
        elim (Bool-cases (k == t0.root_key)) [
          | inl root ↦ (t, rw (f.root_key, root), rw (root, append-nil) f)
          | inr other ↦
              let e = owner_index_framed own t f r r0 same in
              (
                record t { graph = D.add_edge t.graph (owner_index D t r) i owns },
                rw (f.root_key, other, f.keys, at, weight),
                rw (other, at, here0, e)
                    (Frame-add_owner D t0 own t f (owner_index D t0 r0) i (owner_index_lt r0)
                      (lookup_lt k at)),
              )
        ]

    -- `build_ownership_edges` adds one edge for each key but the root's.
    pub owners_built :
        (own : List (Edge EdgeType)) (t : Tree D) (ks : List Text)
        → Frame D t0 own t
        → ((k : Text) → Memᴰ k ks → Known k)
        → (u : Tree D) × (build_ownership_edges D t ks ≡ some u)
          × Frame D t0 (own ++ owner_edges ks) u
    unfolding build_ownership_edges
    owners_built own t ks f known =
        for_each_total (link_owner D) (λ done u. Frame D t0 (own ++ owner_edges done) u) ks
          (λ done k u m g.
            let (v, e, h) = owner_step (own ++ owner_edges done) u k g (known k m) in
            (v, e, subst (λ o. Frame D t0 o v) (owner_edges-concat own done k) h))
          [] t (rw append-nil f)
