-- ===== src/Lineage/Tree/Link.antt =====
-- lineage/tree.rs: `link_nodes` and the loops that it runs. `none` is a panic: a missing key in
-- `key_to_index[…]`, or a node index out of range in `graph[…]`.
-- The iteration order of the map `key_to_index` is an argument.
use kubectl_nvim.Prelude.{
  ℕ, ◌≡◌, refl, Bool, true, false, not, ◌&&◌, Text, txt, text_eq, option_eq, ℕ_eq, ◌==◌, HashMap,
  lookup, insert, Option, none, some, List, [], ◌∷◌, ◌++◌, all, if◌then◌else◌,
}
use kubectl_nvim.Lineage.Resource.{Resource, RelationRef, EdgeType, owns, references}
use kubectl_nvim.Lineage.Graph.Interface.{Edge, DiGraph, incoming}
use kubectl_nvim.Lineage.Registry.Orphans.{is_resource_orphan}
use kubectl_nvim.Lineage.Tree.Keys.{relation_ref, relation_key}
use kubectl_nvim.Lineage.Tree.Build.{Tree}

infixl 5 ◌>>=◌
abbrev pub ◌>>=◌ {ℓ κ} : {A : Type ℓ} {B : Type κ} → Option A → (A → Option B) → Option B
none >>= f = none
some a >>= f = f a

pub >>=-eq-some {ℓ κ} :
    {A : Type ℓ} {B : Type κ} (o : Option A) (f : A → Option B) {b : B}
    → (o >>= f) ≡ some b
    → (a : A) × (o ≡ some a) × (f a ≡ some b)
>>=-eq-some none f h = cc h
>>=-eq-some (some a) f h = (a, refl, h)

-- A `for` loop whose body may panic.
unfoldable pub for_each {ℓ κ} :
    {A : Type ℓ} {S : Type κ} → (S → A → Option S) → S → List A → Option S
for_each body s [] = some s
for_each body s (a ∷ rest) = body s a >>= λ t. for_each body t rest

unfoldable pub selectors_match : HashMap Text Text → HashMap Text Text → Bool
selectors_match selectors labels = all (λ entry. lookup entry.0 labels == some entry.1) selectors

abbrev pub first_owner : Option (List RelationRef) → Option RelationRef
first_owner none = none
first_owner (some []) = none
first_owner (some (owner ∷ rest)) = some owner

unfoldable pub owner_key : Resource → Option Text
owner_key resource = elim (first_owner resource.owners) [
  | none ↦ none
  | some owner ↦ some (relation_key (relation_ref owner.kind owner.name owner.namespace))
]

abbrev pub get_or {ℓ} : {A : Type ℓ} → Option A → A → A
get_or none d = d
get_or (some a) d = a

-- An entry of the label index: key, node, labels.
pub record Labelled : Type 0 where
  pub key : Text
  pub index : ℕ
  pub labels : HashMap Text Text

abbrev pub is_config_kind : Text → Bool
is_config_kind kind = if kind == txt "ConfigMap" then true else kind == txt "Secret"

-- `map.entry(k).or_default().push(v)`.
unfoldable pub push_entry {ℓ} :
    {V : Type ℓ} → Text → V → HashMap Text (List V) → HashMap Text (List V)
push_entry k v m = insert k (get_or (lookup k m) [] ++ v ∷ []) m

abbrev pub label_entry : Text → ℕ → Option (HashMap Text Text) → List Labelled → List Labelled
label_entry key idx none rest = rest
label_entry key idx (some labels) rest = record { key = key; index = idx; labels = labels } ∷ rest

-- The resource with the flag that `compute_orphan_status` computes.
abbrev pub orphan_verdict : Resource → List (EdgeType × Text) → Bool
orphan_verdict resource refs =
    is_resource_orphan resource.kind resource.name resource.namespace (record {
      incoming_refs = refs;
      labels = resource.labels;
      resource_type = resource.resource_type;
      missing_refs = resource.missing_refs;
    })

abbrev pub with_verdict : Resource → List (EdgeType × Text) → Resource
with_verdict resource refs = record resource { is_orphan = orphan_verdict resource refs }

abbrev pub add_source :
    Bool
    → Option Resource
    → EdgeType
    → Option (List (EdgeType × Text))
    → Option (List (EdgeType × Text))
add_source true source weight rest = rest
add_source false source weight rest = do
  resource ← source
  refs ← rest
  some ((weight, resource.kind) ∷ refs)

module _ (D : DiGraph Resource EdgeType) where
  unfoldable pub owner_index : Tree D → Resource → ℕ
  unfolding owner_key
  owner_index t resource =
      get_or (owner_key resource >>= λ key. lookup key t.key_to_index) t.root_index

  -- The body of the loop in `build_ownership_edges`.
  unfoldable pub link_owner : Tree D → Text → Option (Tree D)
  link_owner t node_key = if node_key == t.root_key then some t else do
    node_idx ← lookup node_key t.key_to_index
    resource ← D.node_weight t.graph node_idx
    some (record t { graph = D.add_edge t.graph (owner_index t resource) node_idx owns })

  unfoldable pub build_ownership_edges : Tree D → List Text → Option (Tree D)
  build_ownership_edges = for_each link_owner

  abbrev pub index_label :
      Tree D → Text → Option ℕ → Option (List Labelled) → Option (List Labelled)
  index_label t key none rest = rest
  index_label t key (some idx) rest = do
    resource ← D.node_weight t.graph idx
    entries ← rest
    some (label_entry key idx resource.labels entries)

  unfoldable pub build_label_index : Tree D → List Text → Option (List Labelled)
  build_label_index t [] = some []
  build_label_index t (key ∷ keys) =
      index_label t key (lookup key t.key_to_index) (build_label_index t keys)

  -- The nodes that a selector picks, in the order of the label index.
  unfoldable pub select_children :
      Tree D → Text → HashMap Text Text → List Labelled → Option (List ℕ)
  select_children t node_key selectors [] = some []
  select_children t node_key selectors (entry ∷ entries) =
      let rest = select_children t node_key selectors entries in
      if entry.key == node_key then rest else do
        child ← D.node_weight t.graph entry.index
        matches ← rest
        some (
            if not (is_config_kind child.kind) && selectors_match selectors entry.labels
            then entry.index ∷ matches
            else matches)

  -- Two edges, one in each direction.
  unfoldable pub refer_both : ℕ → Tree D → ℕ → Tree D
  refer_both a t b = record t {
    graph = D.add_edge (D.add_edge t.graph a b references) b a references;
  }

  abbrev pub refer_all : ℕ → Tree D → List ℕ → Tree D
  refer_all a t [] = t
  refer_all a t (b ∷ bs) = refer_all a (refer_both a t b) bs

  -- The edges of one node, if it has selectors.
  abbrev pub refer_selected :
      Tree D → Text → ℕ → List Labelled → Option (HashMap Text Text) → Option (Tree D)
  refer_selected t node_key node_idx nodes_with_labels none = some t
  refer_selected t node_key node_idx nodes_with_labels (some selectors) =
      select_children t node_key selectors nodes_with_labels >>= λ matches.
      some (refer_all node_idx t matches)

  unfoldable pub link_selected : List Labelled → Tree D → Text → Option (Tree D)
  link_selected nodes_with_labels t node_key = do
    node_idx ← lookup node_key t.key_to_index
    resource ← D.node_weight t.graph node_idx
    refer_selected t node_key node_idx nodes_with_labels resource.selectors

  unfoldable pub build_selector_edges : Tree D → List Text → List Labelled → Option (Tree D)
  build_selector_edges t keys nodes_with_labels = for_each (link_selected nodes_with_labels) t keys

  -- The tree and the two maps of what was not found.
  pub record Linking : Type 0 where
    pub tree : Tree D
    pub missing_targets : HashMap Text (List (Text × Text))
    pub node_missing_refs : HashMap Text (HashMap Text (List Text))

  abbrev pub link_target : ℕ → Text → Linking → RelationRef → Option ℕ → Linking
  link_target node_idx node_key s relation (some relation_idx) = record s {
    tree = refer_both node_idx s.tree relation_idx;
  }
  link_target node_idx node_key s relation none = record s {
    missing_targets = push_entry relation.kind (node_key, relation.name) s.missing_targets;
    node_missing_refs =
        insert node_key
          (push_entry relation.kind relation.name (get_or (lookup node_key s.node_missing_refs) []))
          s.node_missing_refs;
  }

  unfoldable pub link_relation : ℕ → Text → Linking → RelationRef → Linking
  link_relation node_idx node_key s relation =
      let key = relation_key (relation_ref relation.kind relation.name relation.namespace) in
      link_target node_idx node_key s relation (lookup key s.tree.key_to_index)

  abbrev pub link_relations : ℕ → Text → Linking → List RelationRef → Linking
  link_relations node_idx node_key s [] = s
  link_relations node_idx node_key s (r ∷ rs) =
      link_relations node_idx node_key (link_relation node_idx node_key s r) rs

  unfoldable pub link_explicit : Linking → Text → Option Linking
  link_explicit s node_key = do
    node_idx ← lookup node_key s.tree.key_to_index
    resource ← D.node_weight s.tree.graph node_idx
    some (link_relations node_idx node_key s (get_or resource.relations []))

  unfoldable pub build_explicit_relation_edges : Tree D → List Text → Option Linking
  build_explicit_relation_edges t keys =
      for_each link_explicit (record { tree = t; missing_targets = []; node_missing_refs = [] })
        keys

  abbrev pub set_missing_of : Tree D → HashMap Text (List Text) → ℕ → Option Resource → Tree D
  set_missing_of t missing idx none = t
  set_missing_of t missing idx (some resource) = record t {
    graph = D.set_weight t.graph idx (record resource { missing_refs = some missing });
  }

  abbrev pub set_missing_at : Tree D → HashMap Text (List Text) → Option ℕ → Tree D
  set_missing_at t missing none = t
  set_missing_at t missing (some idx) = set_missing_of t missing idx (D.node_weight t.graph idx)

  unfoldable pub set_missing : Tree D → Text → HashMap Text (List Text) → Tree D
  set_missing t node_key missing = set_missing_at t missing (lookup node_key t.key_to_index)

  unfoldable pub store_missing_refs : Tree D → HashMap Text (HashMap Text (List Text)) → Tree D
  store_missing_refs t [] = t
  store_missing_refs t ((key, missing) ∷ rest) = store_missing_refs (set_missing t key missing) rest

  -- The edges into a node, with the kinds of their sources; those from the root are left out.
  unfoldable pub incoming_refs : Tree D → List (Edge EdgeType) → Option (List (EdgeType × Text))
  incoming_refs t [] = some []
  incoming_refs t (edge ∷ edges) =
      add_source (edge.source == t.root_index) (D.node_weight t.graph edge.source) edge.weight
        (incoming_refs t edges)

  -- The body of the loop in `compute_orphan_status`.
  unfoldable pub mark_orphan : Tree D → Text → Option (Tree D)
  mark_orphan t key = if key == t.root_key then some t else do
    idx ← lookup key t.key_to_index
    resource ← D.node_weight t.graph idx
    refs ← incoming_refs t (D.edges_directed t.graph idx incoming)
    some (record t { graph = D.set_weight t.graph idx (with_verdict resource refs) })

  unfoldable pub compute_orphan_status : Tree D → List Text → Option (Tree D)
  compute_orphan_status = for_each mark_orphan

  -- `link_nodes`; `node_keys` are the keys of `key_to_index` in the order of its iterator.
  unfoldable pub link_nodes : Tree D → List Text → Option (Tree D)
  link_nodes t node_keys = do
    owned ← build_ownership_edges t node_keys
    nodes_with_labels ← build_label_index owned node_keys
    selected ← build_selector_edges owned node_keys nodes_with_labels
    linked ← build_explicit_relation_edges selected node_keys
    compute_orphan_status (store_missing_refs linked.tree linked.node_missing_refs) node_keys
