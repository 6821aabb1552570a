-- ===== src/Lineage/Query/Sets.antt =====
-- lineage/query.rs: `self.nodes` is a set. No node is in it twice.
use kubectl_nvim.Prelude.{
  ℕ, ◌≡◌, refl, sym, ap, ◌∙◌, inl, inr, Text, text_eq, Option, none, some, Option-cases, List, [],
  ◌∷◌, Unique, no_elements, new_element, extend-Unique, flat_map, arith,
}
use mathlib.Core.List.Memᴰ
use mathlib.Core.Path.{subst}
use kubectl_nvim.Lineage.Resource.{Resource, EdgeType}
use kubectl_nvim.Lineage.Graph.Interface.{DiGraph}
use kubectl_nvim.Lineage.Tree.Build.{Tree}
use kubectl_nvim.Lineage.Tree.Link.{>>=-eq-some}
use kubectl_nvim.Lineage.Query.Climb.{
  Run, finished, panicked, out_of_fuel, insert_all, climb_all, ancestors,
}
use kubectl_nvim.Lineage.Query.Select.{
  descendants, with_references, select, owned_from, reference_targets,
}
use kubectl_nvim.Lineage.Query.Related.{
  run_option, and_then, from_key, subgraph_from, subgraph_nodes,
}

abbrev pub UniqueRun : Run (List ℕ) → Type 0
UniqueRun r = (xs : List ℕ) → r ≡ finished xs → Unique xs

pub one_node : (i : ℕ) → Unique (i ∷ [])
one_node i = new_element (λ m. Memᴰ.not-nil m) no_elements

finished-inj : {xs ys : List ℕ} → finished xs ≡ finished ys → xs ≡ ys
finished-inj h = cc h

and_then-Unique :
    (r : Run (List ℕ)) (f : List ℕ → Option (List ℕ))
    → UniqueRun r
    → ((xs ys : List ℕ) → Unique xs → f xs ≡ some ys → Unique ys)
    → UniqueRun (and_then r f)
and_then-Unique (finished xs) f u g ys h = elim (Option-cases (f xs)) [
  | inl missing ↦ absurd (cc (h, ap run_option missing))
  | inr (zs, found) ↦
      let same : zs ≡ ys = finished-inj (sym (ap run_option found) ∙ h) in
      subst Unique same (g xs zs (u xs refl) found)
]
and_then-Unique panicked f u g ys h = absurd (ground arith)
and_then-Unique out_of_fuel f u g ys h = absurd (ground arith)

insert_all-Unique :
    (is : List ℕ) (r : Run (List ℕ)) (xs : List ℕ)
    → Unique is
    → insert_all is r ≡ finished xs
    → Unique xs
insert_all-Unique is (finished ys) xs u h = subst Unique (finished-inj h) (extend-Unique is ys u)
insert_all-Unique is panicked xs u h = absurd (ground arith)
insert_all-Unique is out_of_fuel xs u h = absurd (ground arith)

some-inj : {xs ys : List ℕ} → some xs ≡ some ys → xs ≡ ys
some-inj h = cc h

module _ (D : DiGraph Resource EdgeType) (t : Tree D) where
  pub descendants-Unique : (is xs : List ℕ) → Unique is → descendants D t is ≡ some xs → Unique xs
  unfolding descendants
  descendants-Unique is xs u h =
      let (found, e, g) = >>=-eq-some (select D t (flat_map (owned_from D t) is)) _ h in
      subst Unique (some-inj g) (extend-Unique is found u)

  pub with_references-Unique :
      (is xs : List ℕ) → Unique is → with_references D t is ≡ some xs → Unique xs
  unfolding with_references
  with_references-Unique is xs u h =
      let (found, e, g) = >>=-eq-some (select D t (flat_map (reference_targets D t) is)) _ h in
      subst Unique (some-inj g) (extend-Unique is found u)

  ancestors-Unique : (fuel : ℕ) (is : List ℕ) → Unique is → UniqueRun (ancestors D t fuel is)
  unfolding ancestors
  ancestors-Unique fuel is u xs h = insert_all-Unique is (climb_all D t fuel is) xs u h

  subgraph_from-Unique : (fuel : ℕ) (o : Option ℕ) → UniqueRun (subgraph_from D t fuel o)
  subgraph_from-Unique fuel none = λ xs h. subst Unique (finished-inj h) no_elements
  subgraph_from-Unique fuel (some i) =
      let up = ancestors-Unique fuel (i ∷ []) (one_node i) in
      let family =
        and_then-Unique (ancestors D t fuel (i ∷ [])) (descendants D t) up
          (λ ys zs. descendants-Unique ys zs) in
      and_then-Unique (and_then (ancestors D t fuel (i ∷ [])) (descendants D t))
        (with_references D t) family (λ ys zs. with_references-Unique ys zs)

  pub subgraph_nodes-Unique : (fuel : ℕ) (key : Text) → UniqueRun (subgraph_nodes D t fuel key)
  unfolding subgraph_nodes
  subgraph_nodes-Unique fuel key = subgraph_from-Unique fuel (from_key D t key)
