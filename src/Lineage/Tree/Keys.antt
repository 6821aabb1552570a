-- ===== src/Lineage/Tree/Keys.antt =====
-- lineage/tree.rs: the key under which a resource is known.
use kubectl_nvim.Prelude.{Text, txt, to_lowercase, Option, none, some, ◌++◌}
use kubectl_nvim.Lineage.Resource.{RelationRef, Resource}

-- `RelationRef::new(kind, name).ns(namespace)`.
unfoldable pub relation_ref : Text → Text → Option Text → RelationRef
relation_ref kind name namespace = record {
  kind = kind;
  name = name;
  namespace = namespace;
  api_version = none;
  uid = none;
}

abbrev slash : Text
slash = txt "/"

-- The text of both methods named `get_resource_key`.
unfoldable pub resource_key : Text → Option Text → Text → Text
resource_key kind none name = to_lowercase (kind ++ (slash ++ name))
resource_key kind (some ns) name = to_lowercase (kind ++ (slash ++ (ns ++ (slash ++ name))))

unfoldable pub relation_key : RelationRef → Text
relation_key r = resource_key r.kind r.namespace r.name

unfoldable pub get_resource_key : Resource → Text
get_resource_key r = resource_key r.kind r.namespace r.name
