-- ===== src/Lineage/Tree/Owned.antt =====
-- lineage/tree.rs: the ownership edges of a linked tree, told by the owners that the resources name.
use mathlib.Core.Path.{subst}
use kubectl_nvim.Prelude.{
  ℕ, ◌≡◌, ◌⊎◌, refl, sym, ap, ◌∙◌, inl, inr, true, false, Text, text_eq, ◌==◌, lookup, Option, none,
  some, List, [], ◌∷◌, Memᴰ, keep, get_elem?, Option-cases, Bool-cases,
}
use kubectl_nvim.Lineage.Resource.{Resource, RelationRef, EdgeType, owns}
use kubectl_nvim.Lineage.Graph.Interface.{Edge, DiGraph}
use kubectl_nvim.Lineage.Tree.Keys.{relation_ref, relation_key}
use kubectl_nvim.Lineage.Tree.Build.{Tree}
use kubectl_nvim.Lineage.Tree.WellFormed.{nodes, edges}
use kubectl_nvim.Lineage.Tree.Frame.{is_owner_edge}
use kubectl_nvim.Lineage.Tree.Link.{get_or, ◌>>=◌, owner_key, owner_index, link_nodes}
use kubectl_nvim.Lineage.Tree.Owners.{owner_edges}
use kubectl_nvim.Lineage.Tree.Linked.{IsLinkable, linked-owner_edges}
use kubectl_nvim.Lineage.Tree.Parents.{linked-parent_of}
use kubectl_nvim.Lineage.Tree.Views.{parent_of}

module _ (D : DiGraph Resource EdgeType) (t : Tree D) where
  -- The node at which a resource belongs: that of the owner it names first, or the root if this is
  -- not in the tree, or if it names none.
  pub data Belongs (r : Resource) : ℕ → Type 0 where
    to_owner :
        (o : RelationRef) (others : List RelationRef) {j : ℕ}
        → r.owners ≡ some (o ∷ others)
        → lookup (relation_key o) t.key_to_index ≡ some j
        → Belongs r j
    to_root_unknown :
        (o : RelationRef) (others : List RelationRef)
        → r.owners ≡ some (o ∷ others)
        → lookup (relation_key o) t.key_to_index ≡ none
        → Belongs r t.root_index
    to_root_unowned : (r.owners ≡ none) ⊎ (r.owners ≡ some []) → Belongs r t.root_index

  -- The ownership edges for keys, in order.
  pub data OwnedAs : List Text → List (Edge EdgeType) → Type 0 where
    no_keys : OwnedAs [] []
    the_root :
        {k : Text} {ks : List Text} {es : List (Edge EdgeType)}
        → (k == t.root_key) ≡ true
        → OwnedAs ks es
        → OwnedAs (k ∷ ks) es
    one_edge :
        {k : Text} {ks : List Text} {es : List (Edge EdgeType)} {i j : ℕ} {r : Resource}
        → (k == t.root_key) ≡ false
        → lookup k t.key_to_index ≡ some i
        → get_elem? (nodes D t) i ≡ some r
        → Belongs r j
        → OwnedAs ks es
        → OwnedAs (k ∷ ks) (record { source = j; target = i; weight = owns } ∷ es)

  owners-cases :
      (r : Resource)
      → ((r.owners ≡ none) ⊎ (r.owners ≡ some []))
        ⊎ ((o : RelationRef) × (others : List RelationRef) × (r.owners ≡ some (o ∷ others)))
  owners-cases r = elim (Option-cases r.owners) [
    | inl missing ↦ inl (inl missing)
    | inr ([], e) ↦ inl (inr e)
    | inr (o ∷ others, e) ↦ inr (o, others, e)
  ]

  key_missing : (r : Resource) → (r.owners ≡ none) ⊎ (r.owners ≡ some []) → owner_key r ≡ none
  unfolding owner_key
  key_missing r (inl e) = rw e refl
  key_missing r (inr e) = rw e refl

  key_named :
      (r : Resource) (o : RelationRef) (others : List RelationRef)
      → r.owners ≡ some (o ∷ others)
      → owner_key r ≡ some (relation_key o)
  unfolding owner_key relation_key relation_ref
  key_named r o others e = rw e refl

  found_at : Option Text → ℕ
  found_at k = get_or (k >>= λ key. lookup key t.key_to_index) t.root_index

  owner_index_from :
      (r : Resource) {k : Option Text} → owner_key r ≡ k → found_at k ≡ owner_index D t r
  unfolding owner_index found_at
  owner_index_from r e = sym (ap found_at e)

  unknown_at : (key : Text) → lookup key t.key_to_index ≡ none → t.root_index ≡ found_at (some key)
  unfolding found_at
  unknown_at key e = rw e refl

  known_at : (key : Text) {j : ℕ} → lookup key t.key_to_index ≡ some j → j ≡ found_at (some key)
  unfolding found_at
  known_at key e = rw e refl

  owner_index-Belongs : (r : Resource) → Belongs r (owner_index D t r)
  unfolding found_at
  owner_index-Belongs r = elim (owners-cases r) [
    | inl unowned ↦
        subst (Belongs r) (owner_index_from r (key_missing r unowned)) (to_root_unowned unowned)
    | inr (o, others, e) ↦
        let at = owner_index_from r (key_named r o others e) in
        elim (Option-cases (lookup (relation_key o) t.key_to_index)) [
          | inl unknown ↦
              subst (Belongs r) (unknown_at (relation_key o) unknown ∙ at)
                (to_root_unknown o others e unknown)
          | inr (j, known) ↦
              subst (Belongs r) (known_at (relation_key o) known ∙ at) (to_owner o others e known)
        ]
  ]

  owner_edges-OwnedAs :
      (ks : List Text)
      → ((k : Text)
          → Memᴰ k ks
          → (i : ℕ) × (r : Resource) × (lookup k t.key_to_index ≡ some i)
            × (get_elem? (nodes D t) i ≡ some r))
      → OwnedAs ks (owner_edges D t ks)
  owner_edges-OwnedAs [] known = no_keys
  owner_edges-OwnedAs (k ∷ ks) known =
      let rest = owner_edges-OwnedAs ks (λ j m. known j (Memᴰ.tail m)) in
      elim (Bool-cases (k == t.root_key)) [
        | inl root ↦ rw root (the_root root rest)
        | inr other ↦
            let (i, r, at, here) = known k (Memᴰ.head refl) in
            rw (other, at, here) (one_edge other at here (owner_index-Belongs r) rest)
      ]

  module _ (ks : List Text) (l : IsLinkable D t ks) (u : Tree D)
      (linked : link_nodes D t ks ≡ some u) where
    -- In what `link_nodes` returns for a well-formed tree without edges, along keys of its map, the
    -- ownership edges are these: for each of the keys but the root's, in order, one edge to the
    -- node, from the owner that the resource names first, or from the root if this owner is not in
    -- the tree or none is named.
    pub linked-OwnedAs : OwnedAs ks (keep is_owner_edge (edges D u))
    linked-OwnedAs = subst (OwnedAs ks) (sym (linked-owner_edges D t ks l u linked)) (
        owner_edges-OwnedAs ks (λ k m.
          let (i, at) = l.known k m in
          let (r, here, _) = l.formed.indexed k i at in (i, r, at, here)))

    -- In what `link_nodes` returns for a well-formed tree without edges, along keys of its map, the
    -- parent of a node that one of the keys other than the root's leads to is the owner that the
    -- resource names first, or the root if this owner is not in the tree or none is named.
    pub linked-Belongs :
        (k : Text) (i : ℕ) (r : Resource)
        → Memᴰ k ks
        → (k == t.root_key) ≡ false
        → lookup k t.key_to_index ≡ some i
        → get_elem? (nodes D t) i ≡ some r
        → (j : ℕ) × (parent_of D u i ≡ some j) × Belongs r j
    linked-Belongs k i r m off at here = (
      owner_index D t r,
      linked-parent_of D t ks l u linked k i r m off at here,
      owner_index-Belongs r,
    )
