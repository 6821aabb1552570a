-- ===== src/Lineage/Builder/Added.antt =====
-- lineage/builder.rs: the resources that the loop over `add_node` leaves in the tree.
use kubectl_nvim.Prelude.{
  ℕ, ◌≡◌, ◌⊎◌, refl, sym, ap, ◌∙◌, inl, inr, Bool-cases, Text, text_eq, ◌==◌, lookup, contains_key,
  lookup-insert, is_some, some, List, [], ◌∷◌, Memᴰ, false, get_elem?, get_elem?-concat_cases,
  Option-cases, ==_refl, arith, text_beq_iff,
}
use mathlib.Core.List.Memᴰ
use mathlib.Core.Path.{subst}
use kubectl_nvim.Lineage.Resource.{Resource, EdgeType}
use kubectl_nvim.Lineage.Graph.Interface.{DiGraph}
use kubectl_nvim.Lineage.Tree.Keys.{get_resource_key}
use kubectl_nvim.Lineage.Tree.Build.{Tree, new, add_node}
use kubectl_nvim.Lineage.Tree.WellFormed.{nodes, IsWellFormed, new-nodes, only_root}
use kubectl_nvim.Lineage.Builder.Build.{add_nodes, tree_of, root_resource}

module _ (D : DiGraph Resource EdgeType) where
  abbrev HasNode : Tree D → Text → Type 0
  HasNode t k = (i : ℕ) × (lookup k t.key_to_index ≡ some i)

  abbrev AllNodes : (Resource → Type 0) → Tree D → Type 0
  AllNodes P t = (i : ℕ) (x : Resource) → get_elem? (nodes D t) i ≡ some x → P x

  -- `add_node` keeps the keys, adds its own, and no other resource than its own.
  add_node_keeps : (t : Tree D) (r : Resource) (k : Text) → HasNode t k → HasNode (add_node D t r) k
  unfolding add_node
  add_node_keeps t r k (i, at) =
      let key = get_resource_key r in
      let index = (D.add_node t.graph r).1 in
      elim (Bool-cases (contains_key key t.key_to_index)) [
        | inl taken ↦ rw taken (i, at)
        | inr free ↦
            rw (free, lookup-insert key k index t.key_to_index)
              (elim (Bool-cases (key == k)) [
                | inl same ↦ rw same (index, refl)
                | inr other ↦ rw other (i, at)
              ])
      ]

  add_node_adds : (t : Tree D) (r : Resource) → HasNode (add_node D t r) (get_resource_key r)
  unfolding add_node contains_key
  add_node_adds t r =
      let key = get_resource_key r in
      let index = (D.add_node t.graph r).1 in
      elim (Option-cases (lookup key t.key_to_index)) [
        | inl free ↦
            rw (free, is_some, lookup-insert key key index t.key_to_index, ==_refl key)
              (index, refl)
        | inr (i, taken) ↦ rw (taken, is_some) (i, taken)
      ]

  add_node-AllNodes :
      (P : Resource → Type 0) (t : Tree D) (r : Resource)
      → AllNodes P t
      → P r
      → AllNodes P (add_node D t r)
  unfolding add_node
  add_node-AllNodes P t r all new_one i x here =
      elim (Bool-cases (contains_key (get_resource_key r) t.key_to_index)) [
        | inl taken ↦ all i x (rw taken at here)
        | inr free ↦
            let grown = rw (free, D.add_node_nodes t.graph r) at here in
            elim (get_elem?-concat_cases (nodes D t) r i grown) [
              | inl old ↦ all i x old
              | inr (_, same) ↦ subst P same new_one
            ]
      ]

  add_node_root : (t : Tree D) (r : Resource) → (add_node D t r).root_key ≡ t.root_key
  unfolding add_node
  add_node_root t r = ground arith

  add_nodes_keep :
      (t : Tree D) (rs : List Resource) (k : Text) → HasNode t k → HasNode (add_nodes D t rs) k
  add_nodes_keep t [] k h = h
  add_nodes_keep t (r ∷ rs) k h = add_nodes_keep (add_node D t r) rs k (add_node_keeps t r k h)

  add_nodes_add :
      (t : Tree D) (rs : List Resource) (r : Resource)
      → Memᴰ r rs
      → HasNode (add_nodes D t rs) (get_resource_key r)
  add_nodes_add t [] r m = absurd (Memᴰ.not-nil m)
  add_nodes_add t (s ∷ rs) r m = elim (Memᴰ.cases_cons m) [
    | inl same ↦
        rw same (add_nodes_keep (add_node D t s) rs (get_resource_key s) (add_node_adds t s))
    | inr later ↦ add_nodes_add (add_node D t s) rs r later
  ]

  add_nodes-AllNodes :
      (P : Resource → Type 0) (t : Tree D) (rs : List Resource)
      → AllNodes P t
      → ((r : Resource) → Memᴰ r rs → P r)
      → AllNodes P (add_nodes D t rs)
  add_nodes-AllNodes P t [] all h = all
  add_nodes-AllNodes P t (r ∷ rs) all h =
      add_nodes-AllNodes P (add_node D t r) rs (add_node-AllNodes P t r all (h r (Memᴰ.head refl)))
        (λ s m. h s (Memᴰ.tail m))

  add_nodes_root : (t : Tree D) (rs : List Resource) → (add_nodes D t rs).root_key ≡ t.root_key
  add_nodes_root t [] = refl
  add_nodes_root t (r ∷ rs) = add_nodes_root (add_node D t r) rs ∙ add_node_root t r

  module _ (rs : List Resource) (root_name : Text) where
    abbrev tree : Tree D
    tree = tree_of D rs root_name

    pub tree_of_root : tree.root_key ≡ get_resource_key (root_resource root_name)
    unfolding tree_of new
    tree_of_root = add_nodes_root (new D (root_resource root_name)) rs

    tree_of_nodes : AllNodes (λ x. (root_resource root_name ≡ x) ⊎ Memᴰ x rs) tree
    unfolding tree_of
    tree_of_nodes =
        let root = root_resource root_name in
        add_nodes-AllNodes (λ x. (root ≡ x) ⊎ Memᴰ x rs) (new D root) rs
          (λ i x at. inl (only_root D root i (rw new-nodes at at)).1) (λ r m. inr m)

    -- A resource that shares its key with no other, nor with the root, has a node of its own.
    pub tree_of_node :
        (r : Resource)
        → IsWellFormed D tree
        → Memᴰ r rs
        → ((x : Resource) → Memᴰ x rs → get_resource_key x ≡ get_resource_key r → x ≡ r)
        → (get_resource_key r == tree.root_key) ≡ false
        → (i : ℕ) × (lookup (get_resource_key r) tree.key_to_index ≡ some i)
          × (get_elem? (nodes D tree) i ≡ some r)
    unfolding tree_of
    tree_of_node r w m alone off =
        let key = get_resource_key r in
        let (i, at) = add_nodes_add (new D (root_resource root_name)) rs r m in
        let (x, here, named) = w.indexed key i at in
        elim (tree_of_nodes i x here) [
          | inl root ↦
              let same : key ≡ tree.root_key =
                sym named ∙ ap get_resource_key (sym root) ∙ sym tree_of_root in
              absurd (ground (arith, text_beq_iff key tree.root_key))
          | inr inside ↦ (i, at, here ∙ ap some (alone x inside named))
        ]
