-- ===== src/Lineage/Registry/CaseInsensitive.antt =====
-- lineage/registry.rs: handlers are found whatever the case in which a kind is written.
use kubectl_nvim.Prelude.{
  ◌≡◌, refl, inl, inr, true, none, Text, to_lowercase, to_lowercase_idem, text_eq, text_beq, lookup,
  contains_key, mem_of_lookup, all, all_of_Memᴰ, Option-cases, arith,
}
use kubectl_nvim.Lineage.Registry.Table.{
  ResourceHandler, kind_names, normalize_kind, resource_registry, get_handler,
}

-- Every key of the registry is, in lower case, a key of `normalize_kind`.
registry_covered :
    all
      (λ (entry : Text × ResourceHandler). contains_key (to_lowercase entry.0) kind_names)
      resource_registry
    ≡ true
unfolding resource_registry kind_names contains_key to_lowercase text_beq
registry_covered = refl

unnamed_kind :
    (k : Text) → lookup (to_lowercase k) kind_names ≡ none → lookup k resource_registry ≡ none
unfolding contains_key
unnamed_kind k h = elim (Option-cases (lookup k resource_registry)) [
  | inl e ↦ e
  | inr (handler, e) ↦
      let m = mem_of_lookup k resource_registry e in
      let c = all_of_Memᴰ _ (k, handler) resource_registry registry_covered m in ground arith
]

-- The handler of a kind does not depend on the case of its letters.
pub get_handler-to_lowercase : (kind : Text) → get_handler (to_lowercase kind) ≡ get_handler kind
unfolding get_handler normalize_kind
get_handler-to_lowercase kind = elim (Option-cases (lookup (to_lowercase kind) kind_names)) [
  | inl e ↦
      rw (to_lowercase_idem kind, e, unnamed_kind kind e)
        (unnamed_kind (to_lowercase kind) (rw (to_lowercase_idem kind) e))
  | inr (name, e) ↦ rw (to_lowercase_idem kind, e)
]
