-- ===== src/Lineage/Resource.antt =====
-- lineage/tree.rs: resources, references to resources, and the keys that identify both.
use kubectl_nvim.Prelude.{Text, HashMap, Bool, Option, List}

pub record RelationRef : Type 0 where
  pub kind : Text
  pub name : Text
  pub namespace : Option Text
  pub api_version : Option Text
  pub uid : Option Text

pub record Resource : Type 0 where
  pub kind : Text
  pub name : Text
  pub namespace : Option Text
  pub api_version : Option Text
  pub uid : Option Text
  pub labels : Option (HashMap Text Text)
  pub selectors : Option (HashMap Text Text)
  pub owners : Option (List RelationRef)
  pub relations : Option (List RelationRef)
  pub is_orphan : Bool
  pub resource_type : Option Text
  pub missing_refs : Option (HashMap Text (List Text))

pub data EdgeType : Type 0 where
  owns references : EdgeType
