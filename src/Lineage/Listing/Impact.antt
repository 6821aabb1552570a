-- ===== src/Lineage/Listing/Impact.antt =====
-- lineage/tree.rs: `compute_impact`. `none` is a panic of `graph[…]`.
use kubectl_nvim.Prelude.{
  ℕ, not, Text, txt, text_eq, ◌==◌, lookup, Option, none, some, List, [], ◌∷◌, ◌++◌, map, keep,
  text_cmp, sort_by, on, if◌then◌else◌, ◌≡◌, false, ◌⊎◌,
}
use kubectl_nvim.Lineage.Resource.{Resource, EdgeType}
use kubectl_nvim.Lineage.Graph.Interface.{Edge, DiGraph, incoming, Walk}
use kubectl_nvim.Lineage.Tree.Build.{Tree}
use kubectl_nvim.Lineage.Tree.WellFormed.{edges}
use kubectl_nvim.Lineage.Tree.Frame.{is_owner_edge}
use kubectl_nvim.Lineage.Query.Climb.{OffRoot}
use kubectl_nvim.Lineage.Tree.Link.{◌>>=◌}
use kubectl_nvim.Lineage.Tree.Views.{get_key_for_index}
use kubectl_nvim.Lineage.Query.Select.{is_reference, descendants, Refers}
use kubectl_nvim.Lineage.Query.Related.{from_key}
use kubectl_nvim.Lineage.Listing.Gather.{gather}
use kubectl_nvim.Lineage.Listing.Keys.{collect_keys}

abbrev pub refers_to_it : Text
refers_to_it = txt "references"

abbrev pub owned_by_affected : Text
owned_by_affected = txt "owned by affected"

abbrev pub entry_key : Text × Text → Text
entry_key (key, reason) = key

abbrev pub with_reason : Text → Text → Text × Text
with_reason reason key = (key, reason)

abbrev pub first : ℕ × Text → ℕ
first (idx, key) = idx

abbrev pub second : ℕ × Text → Text
second (idx, key) = key

module _ (D : DiGraph Resource EdgeType) (t : Tree D) where
  abbrev pub off_root_source : ℕ → Text → List (ℕ × Text)
  off_root_source idx key = if key == t.root_key then [] else (idx, key) ∷ []

  -- One round of the first loop: the source of a reference, with its key.
  unfoldable pub referencer : Edge EdgeType → Option (List (ℕ × Text))
  referencer edge =
      if is_reference edge
      then (get_key_for_index D t edge.source >>= λ key. some (off_root_source edge.source key))
      else some []

  abbrev pub others : Text → List Text → List Text
  others own keys = keep (λ key. not (key == own)) keys

  abbrev pub affected_from : Text → Option ℕ → Option (List (Text × Text))
  affected_from own none = some []
  affected_from own (some i) = do
    found ← descendants D t (i ∷ [])
    keys ← collect_keys D t found
    some (map (with_reason owned_by_affected) (others own keys))

  -- One round of the second loop.
  unfoldable pub affected : ℕ → Option (List (Text × Text))
  affected idx = get_key_for_index D t idx >>= λ own. affected_from own (from_key D t own)

  unfoldable pub impact_at : ℕ → Option (List (Text × Text))
  impact_at idx = do
    found ← gather referencer (D.edges_directed t.graph idx incoming)
    more ← gather affected (map first found)
    some (
        sort_by (on entry_key text_cmp) (map (with_reason refers_to_it) (map second found) ++ more))

  abbrev pub impact_from : Option ℕ → Option (List (Text × Text))
  impact_from none = some []
  impact_from (some idx) = impact_at idx

  unfoldable pub compute_impact : Text → Option (List (Text × Text))
  compute_impact resource_key = impact_from (lookup resource_key t.key_to_index)

  -- A node other than the root that node `x` owns, directly or not, under another key than its own.
  abbrev pub OwnedBy : ℕ → Text × Text → Type 0
  OwnedBy x (key, reason) =
      (own : Text) × (y : ℕ) × (get_key_for_index D t x ≡ some own)
      × Walk (edges D t) is_owner_edge x y
      × OffRoot D t y
      × (get_key_for_index D t y ≡ some key)
      × ((key == own) ≡ false)
      × (reason ≡ owned_by_affected)

  -- A resource that refers to the node.
  abbrev pub Direct : ℕ → ℕ → Type 0
  Direct idx x = Refers D t x idx × OffRoot D t x

  -- What the impact on the node lists.
  abbrev pub Impacted : ℕ → Text × Text → Type 0
  Impacted idx (key, reason) =
      (x : ℕ) × Direct idx x
      × (((get_key_for_index D t x ≡ some key) × (reason ≡ refers_to_it)) ⊎ OwnedBy x (key, reason))
