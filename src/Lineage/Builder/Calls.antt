-- ===== src/Lineage/Builder/Calls.antt =====
-- lineage/builder.rs: any sequence of calls, against the last tree built under each name.
use mathlib.Core.Path.{subst}
use kubectl_nvim.Prelude.{
  ℕ, ◌≡◌, ◌≢◌, refl, sym, ap, ◌∙◌, inl, inr, Text, text_eq, ◌==◌, lookup, insert, lookup-insert,
  Option, none, some, List, [], ◌∷◌, text_cmp, sort_by, Bool, true, false, Bool-cases,
  if◌then◌else◌, arith,
}
use kubectl_nvim.Lineage.Resource.{Resource, EdgeType}
use kubectl_nvim.Lineage.Graph.Interface.{DiGraph}
use kubectl_nvim.Lineage.Tree.Build.{Tree}
use kubectl_nvim.Lineage.Tree.Linked.{IsLinkable, linked_unchanged}
use kubectl_nvim.Lineage.Query.Climb.{Run, finished, panicked, out_of_fuel}
use kubectl_nvim.Lineage.Listing.Keys.{get_related_items}
use kubectl_nvim.Lineage.Listing.Orphans.{find_orphans}
use kubectl_nvim.Lineage.Listing.Impact.{compute_impact}
use kubectl_nvim.Lineage.Relations.Objects.{Json}
use kubectl_nvim.Lineage.Builder.Parse.{filter_map, parse_resource_typed}
use kubectl_nvim.Lineage.Builder.Build.{
  Iteration, keys_of, tree_of, tree_of-IsLinkable, build_tree, build_tree_total,
}
use kubectl_nvim.Lineage.Builder.Nodes.{SerializableNode, nodes_of}
use kubectl_nvim.Lineage.Builder.Reported.{Reports, nodes_of_total}
use kubectl_nvim.Lineage.Builder.Safe.{
  linked_related_safe, linked_impact_total, linked_orphans_total,
}
use kubectl_nvim.Lineage.Builder.Store.{
  Answer, answered, TreeResult, run_of, Store, end_query, query_tree, under_lock, with_tree,
  get_lineage_related_nodes, compute_lineage_impact, find_lineage_orphans,
  build_lineage_graph_worker, empty_store,
}

module _ (D : DiGraph Resource EdgeType) (iter : Iteration) (J : Json) where
  -- What is built is reported key by key.
  built_nodes :
      (resources : List J.Value) (root_name : Text) (u : Tree D)
      → build_tree D iter J resources root_name ≡ some u
      → (ns : List SerializableNode) × (nodes_of D u (iter.keys u.key_to_index) ≡ some ns)
        × Reports D u (sort_by text_cmp (iter.keys u.key_to_index)) ns
  unfolding build_tree
  built_nodes resources root_name u built =
      let rs = filter_map (parse_resource_typed J) resources in
      let t = tree_of D rs root_name in
      let l = tree_of-IsLinkable D iter rs root_name in
      let (same, _, _) = linked_unchanged D t (keys_of D iter t) l u built in
      let (ns, e, keys) = nodes_of_total D t (keys_of D iter t) l u built in
      let order = ap (λ m. iter.keys m) (sym same) in
      (
        ns,
        ap (nodes_of D u) (sym order) ∙ e,
        subst (λ ks. Reports D u (sort_by text_cmp ks) ns) order keys,
      )

  -- While the lock is sound, a build without debug assertions succeeds whatever the manifests are.
  -- It answers with one node for each key of the tree, in the order of the keys: the kind, name,
  -- namespace and flag of the resource, the keys of what it owns, in order, and of what it refers
  -- to, and the key of an owner, if it has one. The tree is stored under the name of the root, in
  -- place of an earlier one, and no other tree changes.
  pub build_lineage_graph_worker_total :
      (s : Store D) (resources : List J.Value) (root_name : Text)
      → s.poisoned ≡ false
      → (u : Tree D) × (ns : List SerializableNode) × (build_tree D iter J resources root_name
          ≡ some u)
        × (build_lineage_graph_worker D iter J s resources root_name ≡ (
          answered (record { tree_id = root_name; nodes = ns; root_key = u.root_key }),
          record s { trees = insert root_name u s.trees },
        ))
        × Reports D u (sort_by text_cmp (iter.keys u.key_to_index)) ns
  unfolding build_lineage_graph_worker
  build_lineage_graph_worker_total s resources root_name sound =
      let (u, built) = build_tree_total D iter J resources root_name in
      let (ns, e, keys) = built_nodes resources root_name u built in
      (u, ns, built, simp (built, e, sound) refl, keys)

  pub data Call : Type 0 where
    build : List J.Value → Text → Call
    related : ℕ → Text → Text → Call
    impact : Text → Text → Call
    orphans : Text → Call

  -- The state after a call.
  abbrev pub after : Call → Store D → Store D
  after (build resources root_name) s =
      (build_lineage_graph_worker D iter J s resources root_name).1
  after (related fuel tree_id key) s = (get_lineage_related_nodes D fuel s tree_id key).1
  after (impact tree_id key) s = (compute_lineage_impact D s tree_id key).1
  after (orphans tree_id) s = (find_lineage_orphans D iter s tree_id).1

  abbrev pub after_all : List Call → Store D → Store D
  after_all [] s = s
  after_all (c ∷ cs) s = after_all cs (after c s)

  -- The tree that the last build under a name gave, if there was one.
  abbrev pub last_built : Text → List Call → Option (Tree D) → Option (Tree D)
  last_built id [] o = o
  last_built id (build resources root_name ∷ cs) o =
      last_built id cs (if root_name == id then build_tree D iter J resources root_name else o)
  last_built id (other ∷ cs) o = last_built id cs o

  -- Every stored tree was built, and the lock is sound.
  record IsServed (s : Store D) : Type 0 where
    sound : s.poisoned ≡ false
    built :
        (id : Text) (u : Tree D)
        → lookup id s.trees ≡ some u
        → (resources : List J.Value) × (root_name : Text) × (build_tree D iter J resources root_name
            ≡ some u)

  -- A query that does not panic changes nothing.
  end_query_same : {A : Type 0} (s : Store D) (r : Run A) → r ≢ panicked → (end_query D s r).1 ≡ s
  end_query_same s (finished a) safe = refl
  end_query_same s panicked safe = absurd (safe refl)
  end_query_same s out_of_fuel safe = refl

  query_tree_same :
      {A : Type 0} (s : Store D) (id : Text) (query : Tree D → Run A) (o : Option (Tree D))
      → ((u : Tree D) → o ≡ some u → query u ≢ panicked)
      → (query_tree D s id query o).1 ≡ s
  query_tree_same s id query none safe = refl
  query_tree_same s id query (some u) safe = end_query_same s (query u) (safe u refl)

  under_lock_same :
      {A : Type 0} (s : Store D) (r : Answer A × Store D) (b : Bool)
      → r.1 ≡ s
      → (under_lock D s r b).1 ≡ s
  under_lock_same s r true h = refl
  under_lock_same s r false h = h

  with_tree_same :
      {A : Type 0} (s : Store D) (id : Text) (query : Tree D → Run A)
      → ((u : Tree D) → lookup id s.trees ≡ some u → query u ≢ panicked)
      → (with_tree D s id query).1 ≡ s
  unfolding with_tree
  with_tree_same s id query safe =
      under_lock_same s (query_tree D s id query (lookup id s.trees)) s.poisoned
        (query_tree_same s id query (lookup id s.trees) safe)

  -- No query panics on a tree that was built.
  module _ (resources : List J.Value) (root_name : Text) (u : Tree D)
      (from : build_tree D iter J resources root_name ≡ some u) where
    abbrev unlinked : Tree D
    unlinked = tree_of D (filter_map (parse_resource_typed J) resources) root_name

    abbrev linkable : IsLinkable D unlinked (keys_of D iter unlinked)
    linkable = tree_of-IsLinkable D iter (filter_map (parse_resource_typed J) resources) root_name

    related_safe : (fuel : ℕ) (key : Text) → get_related_items D u fuel key ≢ panicked
    unfolding build_tree
    related_safe = linked_related_safe D unlinked (keys_of D iter unlinked) linkable u from

    impact_safe : (key : Text) → run_of (compute_impact D u key) ≢ panicked
    unfolding build_tree
    impact_safe key h =
        let (found, e) =
          linked_impact_total D unlinked (keys_of D iter unlinked) linkable u from key in
        cc (h, ap run_of e)

    orphans_safe : run_of (find_orphans D u (iter.keys u.key_to_index)) ≢ panicked
    unfolding build_tree
    orphans_safe h =
        let (found, e) =
          linked_orphans_total D unlinked (keys_of D iter unlinked) linkable u from
            (iter.keys u.key_to_index) (λ k m. (iter.keys_iff u.key_to_index k).0 m) in
        cc (h, ap run_of e)

  module _ (s : Store D) (served : IsServed s) where
    after_related : (fuel : ℕ) (id key : Text) → after (related fuel id key) s ≡ s
    unfolding get_lineage_related_nodes
    after_related fuel id key =
        with_tree_same s id (λ u. get_related_items D u fuel key)
          (λ u at.
            let (rs, name, from) = served.built id u at in related_safe rs name u from fuel key)

    after_impact : (id key : Text) → after (impact id key) s ≡ s
    unfolding compute_lineage_impact
    after_impact id key =
        with_tree_same s id (λ u. run_of (compute_impact D u key))
          (λ u at. let (rs, name, from) = served.built id u at in impact_safe rs name u from key)

    after_orphans : (id : Text) → after (orphans id) s ≡ s
    unfolding find_lineage_orphans
    after_orphans id =
        with_tree_same s id (λ u. run_of (find_orphans D u (iter.keys u.key_to_index)))
          (λ u at. let (rs, name, from) = served.built id u at in orphans_safe rs name u from)

    after-build :
        (resources : List J.Value) (root_name : Text)
        → IsServed (after (build resources root_name) s)
          × ((id : Text)
              → lookup id (after (build resources root_name) s).trees ≡ (
                  if root_name == id
                  then build_tree D iter J resources root_name
                  else lookup id s.trees))
    after-build resources root_name =
        let (u, ns, from, e, _) =
          build_lineage_graph_worker_total s resources root_name served.sound in
        let stored = λ (id : Text). lookup-insert root_name id u s.trees in
        subst
          (λ (p : Answer TreeResult × Store D).
            IsServed p.1
            × ((id : Text)
                → lookup id p.1.trees ≡ (
                    if root_name == id
                    then build_tree D iter J resources root_name
                    else lookup id s.trees)))
          (sym e)
          (
            record {
              sound = served.sound;
              built = λ id v at.
                  let found = sym (stored id) ∙ at in
                  elim (Bool-cases (root_name == id)) [
                    | inl same ↦ (resources, root_name, from ∙ rw same at found)
                    | inr other ↦ served.built id v (rw other at found)
                  ];
            },
            λ id. rw from (stored id),
          )

  -- What the calls leave is the same when the first of them changed nothing.
  unmoved :
      (cs : List Call) (s r : Store D)
      → r ≡ s
      → (id : Text)
      → (lookup id (after_all cs s).trees ≡ last_built id cs (lookup id s.trees))
        × ((after_all cs s).poisoned ≡ false)
      → (lookup id (after_all cs r).trees ≡ last_built id cs (lookup id s.trees))
        × ((after_all cs r).poisoned ≡ false)
  unmoved cs s r same id =
      subst
        (λ x.
          (lookup id (after_all cs x).trees ≡ last_built id cs (lookup id s.trees))
          × ((after_all cs x).poisoned ≡ false))
        (sym same)

  after_all_from :
      (cs : List Call) (s : Store D)
      → IsServed s
      → (id : Text)
      → (lookup id (after_all cs s).trees ≡ last_built id cs (lookup id s.trees))
        × ((after_all cs s).poisoned ≡ false)
  after_all_from [] s served id = (refl, served.sound)
  after_all_from (build resources root_name ∷ cs) s served id =
      let (next, stored) = after-build s served resources root_name in
      let (found, sound) = after_all_from cs (after (build resources root_name) s) next id in
      (found ∙ ap (last_built id cs) (stored id), sound)
  after_all_from (related fuel tree_id key ∷ cs) s served id =
      unmoved cs s (after (related fuel tree_id key) s) (after_related s served fuel tree_id key) id
        (after_all_from cs s served id)
  after_all_from (impact tree_id key ∷ cs) s served id =
      unmoved cs s (after (impact tree_id key) s) (after_impact s served tree_id key) id
        (after_all_from cs s served id)
  after_all_from (orphans tree_id ∷ cs) s served id =
      unmoved cs s (after (orphans tree_id) s) (after_orphans s served tree_id) id
        (after_all_from cs s served id)

  -- After any sequence of builds and of queries for related nodes, impact and orphans, each to its
  -- end, starting from no trees: under each name lies the tree that the last build under this name
  -- gave, and nothing if there was none, whatever was asked in between, and the lock is not poisoned.
  pub after_all_last :
      (cs : List Call) (id : Text)
      → (lookup id (after_all cs (empty_store D)).trees ≡ last_built id cs none)
        × ((after_all cs (empty_store D)).poisoned ≡ false)
  unfolding lookup
  after_all_last cs id =
      after_all_from cs (empty_store D) (record { sound = refl; built = λ j u at. ground arith }) id
