-- ===== src/Lineage/Builder/Parse.antt =====
-- lineage/builder.rs: `parse_resource_typed`. Its log line has no effect on the result.
use kubectl_nvim.Prelude.{
  Text, txt, text_eq, ◌==◌, HashMap, insert, Option, none, some, List, [], ◌∷◌, false, is_empty,
  unwrap_or, or, if◌then◌else◌,
}
use kubectl_nvim.Lineage.Resource.{RelationRef, Resource}
use kubectl_nvim.Lineage.Tree.Link.{◌>>=◌}
use kubectl_nvim.Lineage.Relations.Objects.{Json}
use kubectl_nvim.Lineage.Relations.Handlers.{extract_relationships}

abbrev pub option_map {ℓ κ} : {A : Type ℓ} {B : Type κ} → (A → B) → Option A → Option B
option_map f none = none
option_map f (some a) = some (f a)

abbrev pub push_some {ℓ} : {A : Type ℓ} → Option A → List A → List A
push_some none xs = xs
push_some (some a) xs = a ∷ xs

-- `iter().filter_map(f).collect()`.
abbrev pub filter_map {ℓ κ} : {A : Type ℓ} {B : Type κ} → (A → Option B) → List A → List B
filter_map f [] = []
filter_map f (x ∷ xs) = push_some (f x) (filter_map f xs)

-- `collect()` into a map, on top of `m`: of two entries with one key the later counts.
abbrev pub collect_map : HashMap Text Text → List (Text × Text) → HashMap Text Text
collect_map m [] = m
collect_map m ((k, v) ∷ entries) = collect_map (insert k v m) entries

-- `if xs.is_empty() { None } else { Some(xs) }`.
abbrev pub nonempty {ℓ} : {A : Type ℓ} → List A → Option (List A)
nonempty xs = if is_empty xs then none else some xs

module _ (J : Json) where
  -- `v.get(key).and_then(|v| v.as_str())`.
  abbrev pub str_field : J.Value → Text → Option Text
  str_field v key = J.get v key >>= J.as_str

  abbrev pub text_entry : Text × J.Value → Option (Text × Text)
  text_entry (k, v) = option_map (λ s. (k, s)) (J.as_str v)

  -- The entries of an object that are texts.
  abbrev pub text_map : List (Text × J.Value) → HashMap Text Text
  text_map entries = collect_map [] (filter_map text_entry entries)

  unfoldable pub parse_labels : J.Value → Option (HashMap Text Text)
  parse_labels metadata = J.get metadata (txt "labels") >>= λ v. option_map text_map (J.as_object v)

  unfoldable pub parse_selectors : J.Value → Option (HashMap Text Text)
  parse_selectors input = J.get input (txt "spec") >>= λ spec.
      J.get spec (txt "selector") >>= λ sel.
      option_map text_map (or (J.get sel (txt "matchLabels")) (some sel) >>= J.as_object)

  unfoldable pub parse_owner : Option Text → J.Value → Option RelationRef
  parse_owner namespace owner = do
    owner_kind ← str_field owner (txt "kind")
    owner_name ← str_field owner (txt "name")
    some (record {
      kind = owner_kind;
      name = owner_name;
      namespace = or (str_field owner (txt "namespace")) namespace;
      api_version = str_field owner (txt "apiVersion");
      uid = str_field owner (txt "uid");
    })

  unfoldable pub parse_owners : Option Text → J.Value → List RelationRef
  parse_owners namespace metadata = unwrap_or [] (
      option_map (filter_map (parse_owner namespace))
        (J.get metadata (txt "ownerReferences") >>= J.as_array))

  abbrev pub parsed : J.Value → Text → Text → J.Value → Resource
  parsed input kind name metadata = record {
    kind = kind;
    name = name;
    namespace = str_field metadata (txt "namespace");
    api_version = str_field input (txt "apiVersion");
    uid = str_field metadata (txt "uid");
    labels = parse_labels metadata;
    selectors = parse_selectors input;
    owners = nonempty (parse_owners (str_field metadata (txt "namespace")) metadata);
    relations = nonempty (extract_relationships J kind input);
    is_orphan = false;
    resource_type = if kind == txt "Secret" then str_field input (txt "type") else none;
    missing_refs = none;
  }

  unfoldable pub parse_resource_typed : J.Value → Option Resource
  parse_resource_typed input = do
    kind ← str_field input (txt "kind")
    metadata ← J.get input (txt "metadata")
    name ← str_field metadata (txt "name")
    some (parsed input kind name metadata)
