-- ===== src/Processors/Items.antt =====
-- processors/processor.rs: objects and the filters on them.
use kubectl_nvim.Prelude.{
  ℕ, zero, suc, Text, txt, text_eq, ◌==◌, Bool, false, Option, none, some, unwrap_or, or, List, [],
  ◌∷◌, all, flat_map, HashMap, lookup, is_empty, starts_with, split, nat_eq, length, if◌then◌else◌,
}
use kubectl_nvim.Lineage.Tree.Link.{◌>>=◌}

pub record OwnerReference : Type 0 where
  pub kind : Text
  pub name : Text
  pub uid : Text
  pub api_version : Text

pub record ObjectMeta : Type 0 where
  pub name : Option Text
  pub namespace : Option Text
  pub labels : Option (HashMap Text Text)
  pub owner_references : Option (List OwnerReference)
  pub resource_version : Option Text

-- What is called of a JSON value.
pub record Values : Type 1 where
  pub Value : Type 0
  pub get : Value → Text → Option Value
  pub as_str : Value → Option Text

-- Before the first separator, and after it.
abbrev pub prepend : ℕ → Option (Text × Text) → Option (Text × Text)
prepend c none = none
prepend c (some (s, t)) = some (c ∷ s, t)

unfoldable pub split_once : ℕ → Text → Option (Text × Text)
split_once sep [] = none
split_once sep (c ∷ s) =
    let rest = split_once sep s in if nat_eq c sep then some ([], s) else prepend c rest

abbrev pub drop : ℕ → Text → Text
drop zero s = s
drop (suc n) [] = []
drop (suc n) (c ∷ s) = drop n s

unfoldable pub strip_prefix : Text → Text → Option Text
strip_prefix prefix s = if starts_with prefix s then some (drop (length prefix) s) else none

abbrev pub pair_list : Option (Text × Text) → List (Text × Text)
pair_list none = []
pair_list (some p) = p ∷ []

pub record FilterParams : Type 0 where
  pub sort_by : Option Text
  pub sort_order : Option Text
  pub filter : Option Text
  pub filter_label : Option (List Text)
  pub filter_key : Option Text

-- Entries without a sign of equality are left out.
unfoldable pub parse_label_filters : FilterParams → List (Text × Text)
unfolding split_once
parse_label_filters p = flat_map (λ s. pair_list (split_once b'=' s)) (unwrap_or [] p.filter_label)

-- At commas and blanks.
abbrev pub split_key : Text → List Text
split_key s = flat_map (split b' ') (split b',' s)

unfoldable pub parse_key_filters : FilterParams → List (Text × Text)
unfolding split_once
parse_key_filters p = elim p.filter_key [
  | none ↦ []
  | some s ↦ flat_map (λ kv. pair_list (split_once b'=' kv)) (split_key s)
]

abbrev pub owner_field : Text → OwnerReference → Option Text
owner_field field r =
    if field == txt "kind"
    then some r.kind
    else if field == txt "name"
    then some r.name
    else if field == txt "uid"
    then some r.uid
    else if field == txt "apiVersion"
    then some r.api_version
    else none

-- `iter().find_map(…)`.
abbrev pub find_owner : Text → List OwnerReference → Option Text
find_owner field [] = none
find_owner field (r ∷ rs) = or (owner_field field r) (find_owner field rs)

module _ (J : Values) where
  pub record DynamicObject : Type 0 where
    pub metadata : ObjectMeta
    pub value : J.Value

  unfoldable pub labels_match : List (Text × Text) → DynamicObject → Bool
  labels_match wanted obj = elim obj.metadata.labels [
    | some labels ↦ all (λ w. elim (lookup w.0 labels) [ none ↦ false | some v ↦ v == w.1 ]) wanted
    | none ↦ is_empty wanted
  ]

  abbrev pub walk : List Text → J.Value → Option J.Value
  walk [] cur = some cur
  walk (s ∷ segs) cur = J.get cur s >>= walk segs

  -- The segments of a path are never none at all.
  abbrev pub data_at : DynamicObject → Text → Option Text
  data_at obj path = walk (split b'.' path) obj.value >>= J.as_str

  abbrev pub owner_at : DynamicObject → Text → Option Text → Option Text
  owner_at obj path none = data_at obj path
  owner_at obj path (some field) = obj.metadata.owner_references >>= find_owner field

  abbrev pub label_at : DynamicObject → Text → Option Text → Option Text
  label_at obj path none =
      if path == txt "metadata.name"
      then obj.metadata.name
      else if path == txt "metadata.namespace"
      then obj.metadata.namespace
      else owner_at obj path (strip_prefix (txt "metadata.ownerReferences.") path)
  label_at obj path (some key) = obj.metadata.labels >>= lookup key

  unfoldable pub json_value_at : DynamicObject → Text → Option Text
  json_value_at obj path = label_at obj path (strip_prefix (txt "metadata.labels.") path)

  unfoldable pub key_filters_match : List (Text × Text) → DynamicObject → Bool
  key_filters_match filters obj =
      all (λ f. elim (json_value_at obj f.0) [ none ↦ false | some v ↦ v == f.1 ]) filters
