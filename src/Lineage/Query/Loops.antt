-- ===== src/Lineage/Query/Loops.antt =====
-- lineage/query.rs: the loop of `ancestors` where the ownership edges form a cycle.
use kubectl_nvim.Prelude.{
  ℕ, zero, suc, ◌≡◌, refl, Text, text_eq, ◌==◌, lookup, Option, none, some, List, ◌∙◌, ap, Memᴰ,
  get_elem?, false, ◌∙◌, ap, lt-length_of_get_elem?,
}
use kubectl_nvim.Lineage.Resource.{Resource, EdgeType}
use kubectl_nvim.Lineage.Graph.Interface.{DiGraph}
use kubectl_nvim.Lineage.Tree.Build.{Tree}
use kubectl_nvim.Lineage.Tree.WellFormed.{nodes}
use kubectl_nvim.Lineage.Tree.Views.{parent_of, get_key_for_index}
use kubectl_nvim.Lineage.Tree.Link.{owner_index, link_nodes}
use kubectl_nvim.Lineage.Tree.Frame.{core?}
use kubectl_nvim.Lineage.Tree.Linked.{IsLinkable, linked_unchanged}
use kubectl_nvim.Lineage.Tree.Parents.{linked-parent_of}
use kubectl_nvim.Lineage.Query.Climb.{out_of_fuel, climb, key_in}

pub core?-some :
    (o : Option Resource) (r : Resource) → core? o ≡ core? (some r) → (s : Resource) × (o ≡ some s)
core?-some none r h = cc h
core?-some (some s) r h = (s, refl)

module _ (D : DiGraph Resource EdgeType) where
  climb_self :
      (t : Tree D) (fuel i : ℕ) (key : Text)
      → parent_of D t i ≡ some i
      → get_key_for_index D t i ≡ some key
      → climb D t fuel i ≡ out_of_fuel
  unfolding climb
  climb_self t zero i key up at = refl
  climb_self t (suc fuel) i key up at = rw (climb, up, at, climb_self t fuel i key up at) refl

  -- In a linked tree a node other than the root which is found as its own owner has a climb that
  -- ends with no amount of fuel: the loop of `ancestors` does not end on it.
  pub climb_diverges :
      (t : Tree D) (ks : List Text) (l : IsLinkable D t ks) (u : Tree D)
      → link_nodes D t ks ≡ some u
      → (k : Text) (i : ℕ) (r : Resource) → Memᴰ k ks
      → (k == t.root_key) ≡ false
      → lookup k t.key_to_index ≡ some i
      → get_elem? (nodes D t) i ≡ some r
      → owner_index D t r ≡ i
      → (fuel : ℕ) → climb D u fuel i ≡ out_of_fuel
  climb_diverges t ks l u linked k i r m off at here own fuel =
      let (_, _, alike) = linked_unchanged D t ks l u linked in
      let up = linked-parent_of D t ks l u linked k i r m off at here ∙ ap some own in
      let (s, there) = core?-some (get_elem? (nodes D u) i) r (alike i ∙ ap core? here) in
      let (key, at_u) = key_in D u i (lt-length_of_get_elem? (nodes D u) i there) in
      climb_self u fuel i key up at_u
