-- ===== src/Lineage/Listing/Family.antt =====
-- lineage/tree.rs: children and parents, as `get_children_keys` and `get_parent_key` give them for a
-- linked tree.
use mathlib.Core.Path.{subst}
use kubectl_nvim.Prelude.{
  ℕ, ◌≡◌, ◌↔◌, ◌⊎◌, refl, sym, ap, ◌∙◌, inl, inr, true, false, Text, text_eq, ◌==◌, lookup, Option,
  none, some, List, Memᴰ, map, keep, Memᴰ-keep, get_elem?, text_cmp, Memᴰ-sort_by, sort_by,
  lt-length_of_get_elem?, arith,
}
use kubectl_nvim.Lineage.Resource.{Resource, EdgeType, owns, references}
use kubectl_nvim.Lineage.Graph.Interface.{Edge, DiGraph, outgoing}
use kubectl_nvim.Lineage.Tree.Keys.{get_resource_key}
use kubectl_nvim.Lineage.Tree.Build.{Tree}
use kubectl_nvim.Lineage.Tree.WellFormed.{nodes, edges}
use kubectl_nvim.Lineage.Tree.Frame.{core, core?, is_owner_edge, flip}
use kubectl_nvim.Lineage.Tree.Owners.{core_of}
use kubectl_nvim.Lineage.Tree.Link.{>>=-eq-some, link_nodes}
use kubectl_nvim.Lineage.Tree.Linked.{
  IsLinkable, linked_mirrored, linked_bounded, linked_size, linked_unchanged,
}
use kubectl_nvim.Lineage.Tree.Parents.{owner_of_edge, linked-parent_of}
use kubectl_nvim.Lineage.Tree.Views.{get_key_for_index, parent_of, key_of_parent, get_parent_key}
use kubectl_nvim.Lineage.Query.Climb.{key_in, parent_edge}
use kubectl_nvim.Lineage.Query.Loops.{core?-some}
use kubectl_nvim.Lineage.Query.Select.{InRange, target}
use kubectl_nvim.Lineage.Query.Added.{mem_targets}
use kubectl_nvim.Lineage.Query.Related.{chained}
use kubectl_nvim.Lineage.Listing.Collect.{collect_total}
use kubectl_nvim.Lineage.Listing.Keys.{sorted, get_children_keys}

weight_cases : (w : EdgeType) → (w ≡ owns) ⊎ (w ≡ references)
weight_cases owns = inl refl
weight_cases references = inr refl

some-inj : {a b : ℕ} → some a ≡ some b → a ≡ b
some-inj h = cc h

get_resource_key-core : (a b : Resource) → core a ≡ core b → get_resource_key a ≡ get_resource_key b
unfolding get_resource_key
get_resource_key-core a b h = ap get_resource_key h

module _ (D : DiGraph Resource EdgeType) where
  key_of_node :
      (t : Tree D) (x : ℕ) (key : Text)
      → get_key_for_index D t x ≡ some key
      → (r : Resource) × (get_elem? (nodes D t) x ≡ some r) × (get_resource_key r ≡ key)
  unfolding get_key_for_index
  key_of_node t x key h =
      let (r, weight, named) = >>=-eq-some (D.node_weight t.graph x) _ h in
      (r, sym (D.node_weight_lem t.graph x) ∙ weight, cc named)

  module _ (t : Tree D) (ks : List Text) (l : IsLinkable D t ks) (u : Tree D)
      (linked : link_nodes D t ks ≡ some u) where
    -- No edge of a linked tree ends outside its graph.
    pub linked-InRange : InRange D u
    linked-InRange e m =
        let size = linked_size D t ks l u linked in
        let below = linked_bounded D t ks l u linked in
        (
          rw size (below e m),
          elim (weight_cases e.weight) [
            | inl own ↦
                let is_own : is_owner_edge e ≡ true =
                  ap (λ (w : EdgeType). elim w [ owns ↦ true | references ↦ false ]) own in
                let (r, at, _) = owner_of_edge D t ks l u linked e m is_own in
                rw size (lt-length_of_get_elem? (nodes D t) e.target at)
            | inr refer ↦ rw size (below (flip e) (linked_mirrored D t ks l u linked e m refer))
          ],
        )

    -- The keys of a linked tree are those of the map.
    pub linked_key_iff :
        (x : ℕ) (key : Text)
        → (get_key_for_index D u x ≡ some key) ↔ (lookup key t.key_to_index ≡ some x)
    unfolding get_key_for_index
    linked_key_iff x key =
        let (_, _, alike) = linked_unchanged D t ks l u linked in
        (
          λ h.
              let (r, at, named) = key_of_node u x key h in
              let (s, there) =
                core?-some (get_elem? (nodes D t) x) r (sym (alike x) ∙ ap core? at) in
              let same = core_of s r (ap core? (sym there) ∙ sym (alike x) ∙ ap core? at) in
              let k_same : get_resource_key s ≡ key = get_resource_key-core s r same ∙ named in
              ap (λ k. lookup k t.key_to_index) (sym k_same) ∙ l.formed.named x s there,
          λ h.
              let (s, there, named) = l.formed.indexed key x h in
              let (r, at) = core?-some (get_elem? (nodes D u) x) s (alike x ∙ ap core? there) in
              let same = core_of r s (ap core? (sym at) ∙ alike x ∙ ap core? there) in
              rw (D.node_weight_lem u.graph x, at)
                (ap some (get_resource_key-core r s same ∙ named)),
        )

    -- An ownership edge from `i` to `x`.
    abbrev Owns : ℕ → ℕ → Type 0
    Owns i x =
        (e : Edge EdgeType) × Memᴰ e (edges D u)
        × (is_owner_edge e ≡ true)
        × (e.source ≡ i)
        × (e.target ≡ x)

    abbrev children : ℕ → List ℕ
    children i = map target (keep is_owner_edge (D.edges_directed u.graph i outgoing))

    children_iff : (i x : ℕ) → Memᴰ x (children i) ↔ Owns i x
    children_iff i x =
        let out = D.edges_directed u.graph i outgoing in
        let told = mem_targets D u x (keep is_owner_edge out) in
        (
          λ m.
              let (e, n, to) = told.0 m in
              let (n', own) = (Memᴰ-keep is_owner_edge e out).0 n in
              let (inside, from) = (D.edges_directed_iff u.graph i outgoing e).0 n' in
              (e, inside, own, from, to),
          λ (e, inside, own, from, to). told.1 (
            e,
            (Memᴰ-keep is_owner_edge e out).1
                ((D.edges_directed_iff u.graph i outgoing e).1 (inside, from), own),
            to,
          ),
        )

    parent_iff :
        (c : Text) (i j : ℕ)
        → Memᴰ c ks
        → (c == t.root_key) ≡ false
        → lookup c t.key_to_index ≡ some j
        → Owns i j ↔ (parent_of D u j ≡ some i)
    parent_iff c i j m off at = (
      λ (e, inside, own, from, to).
          let (r, here, up) = owner_of_edge D t ks l u linked e inside own in
          let at_j = ap (λ x. get_elem? (nodes D t) x) (sym to) ∙ here in
          linked-parent_of D t ks l u linked c j r m off at at_j ∙ ap some (sym up ∙ from),
      λ h. let (e, inside, own, to, from) = parent_edge D u j i h in (e, inside, own, from, to),
    )

    parent_key_iff :
        (k : Text) (i : ℕ) (o : Option ℕ)
        → lookup k t.key_to_index ≡ some i
        → (o ≡ some i) ↔ (key_of_parent D u o ≡ some (some k))
    parent_key_iff k i none at = (λ h. cc h, λ h. ground arith)
    parent_key_iff k i (some p) at = (
      λ h.
          let same : i ≡ p = cc h in
          let e = (linked_key_iff p k).1 (at ∙ ap some same) in rw e refl,
      λ h.
          let (key, e, named) = >>=-eq-some (get_key_for_index D u p) _ h in
          let same : key ≡ k = cc named in
          let at_p = (linked_key_iff p k).0 (e ∙ ap some same) in sym at_p ∙ at,
    )

    -- In what `link_nodes` returns for a well-formed tree without edges, along keys of its map: a
    -- resource other than the root that one of the keys leads to is listed among the children of
    -- another just if that one is given as its parent.
    pub children_parents :
        (k c : Text) (i j : ℕ)
        → Memᴰ c ks
        → (c == t.root_key) ≡ false
        → lookup k t.key_to_index ≡ some i
        → lookup c t.key_to_index ≡ some j
        → (cs : List Text) × (get_children_keys D u i ≡ some cs)
          × (Memᴰ c cs ↔ (get_parent_key D u j ≡ some (some k)))
    unfolding get_children_keys get_parent_key
    children_parents k c i j m off at_k at_c =
        let inside : (x : ℕ)
            → Memᴰ x (children i)
            → (key : Text) × (get_key_for_index D u x ≡ some key) =
          λ x n.
            let (e, f, _, _, to) = (children_iff i x).0 n in
            key_in D u x (rw (← to) (linked-InRange e f).1) in
        let (cs, e, told) = collect_total (get_key_for_index D u) (children i) inside in
        let parent =
          chained (parent_iff c i j m off at_c) (parent_key_iff k i (parent_of D u j) at_k) in
        let child = λ (x : ℕ). children_iff i x in
        (
          sort_by text_cmp cs,
          ap sorted e,
          chained (Memᴰ-sort_by text_cmp c cs) (
            λ n.
                let (x, at, key) = (told c).0 n in
                let same : x ≡ j = some-inj (sym ((linked_key_iff x c).0 key) ∙ at_c) in
                parent.0 (subst (λ y. Owns i y) same ((child x).0 at)),
            λ h. (told c).1 (j, (child j).1 (parent.1 h), (linked_key_iff j c).1 at_c),
          ),
        )
