-- ===== src/Lineage/Registry/Verdicts.antt =====
-- lineage/registry.rs and lineage/orphan_rules.rs: which resources are, and are not, orphans.
use kubectl_nvim.Prelude.{
  ◌≡◌, refl, inl, inr, true, false, Option, none, some, List, [], ◌∷◌, ◌++◌, Memᴰ, Text, txt,
  to_lowercase, text_eq, text_beq, starts_with-append, lookup, any_of_Memᴰ, arith, ◌⊎◌,
}
use kubectl_nvim.Lineage.Resource.{EdgeType, references}
use kubectl_nvim.Lineage.Orphan.Condition.{
  OrphanRule, OrphanContext, evaluate, matches, ExceptionPattern, not_service_account_token,
  is_references, token_type,
}
use kubectl_nvim.Lineage.Orphan.Patterns.{secret_exception_pattern, config_map_exception_pattern}
use kubectl_nvim.Lineage.Orphan.Antitone.{Extends, with_refs, evaluate_antitone}
use kubectl_nvim.Lineage.Registry.Rules.{secret_orphan_rule, configmap_orphan_rule}
use kubectl_nvim.Lineage.Registry.Table.{
  ResourceHandler, kind_names, normalize_kind, resource_registry, get_handler, empty_relations,
}
use kubectl_nvim.Lineage.Registry.CaseInsensitive.{get_handler-to_lowercase}
use kubectl_nvim.Lineage.Registry.Orphans.{
  is_exception, rule_orphan, handler_orphan, is_resource_orphan,
}

-- A resource that is an orphan with some incoming edges is one with any part of them: no resource
-- becomes an orphan by more edges.
pub is_resource_orphan_antitone :
    (kind name : Text) (ns : Option Text) (ctx : OrphanContext) (few : List (EdgeType × Text))
    → Extends ctx few
    → is_resource_orphan kind name ns ctx ≡ true
    → is_resource_orphan kind name ns (with_refs ctx few) ≡ true
unfolding is_resource_orphan
is_resource_orphan_antitone kind name ns ctx few sub h = by_handler (get_handler kind) h
  where
    by_rule :
        (r : Option OrphanRule)
        → rule_orphan r name ns ctx ≡ true
        → rule_orphan r name ns (with_refs ctx few) ≡ true
    by_rule none e = e
    by_rule (some r) e = ground (arith, evaluate_antitone ctx few r.condition sub)

    by_handler :
        (r : Option ResourceHandler)
        → handler_orphan r name ns ctx ≡ true
        → handler_orphan r name ns (with_refs ctx few) ≡ true
    by_handler none e = e
    by_handler (some r) e = by_rule r.orphan_rule e

secret_handler :
    get_handler (txt "secret")
    ≡ some (record { extract_relations = empty_relations; orphan_rule = some secret_orphan_rule })
unfolding get_handler normalize_kind kind_names resource_registry lookup text_beq to_lowercase
secret_handler = refl

config_map_handler :
    get_handler (txt "configmap")
    ≡ some
        (record { extract_relations = empty_relations; orphan_rule = some configmap_orphan_rule })
unfolding get_handler normalize_kind kind_names resource_registry lookup text_beq to_lowercase
config_map_handler = refl

-- Config maps and secrets, in any case.
abbrev pub IsConfig : Text → Type 0
IsConfig kind = (to_lowercase kind ≡ txt "configmap") ⊎ (to_lowercase kind ≡ txt "secret")

module _ (kind name : Text) (ns : Option Text) (ctx : OrphanContext) where
  config_map_verdict :
      to_lowercase kind ≡ txt "configmap"
      → is_resource_orphan kind name ns ctx ≡ rule_orphan (some configmap_orphan_rule) name ns ctx
  unfolding is_resource_orphan
  config_map_verdict e = rw (← get_handler-to_lowercase kind, e, config_map_handler, handler_orphan)

  secret_verdict :
      to_lowercase kind ≡ txt "secret"
      → is_resource_orphan kind name ns ctx ≡ rule_orphan (some secret_orphan_rule) name ns ctx
  unfolding is_resource_orphan
  secret_verdict e = rw (← get_handler-to_lowercase kind, e, secret_handler, handler_orphan)

  -- A rule whose condition fails, or whose exception applies, spares the resource.
  spared :
      (r : OrphanRule)
      → (is_exception r.exception name ns ≡ true) ⊎ (evaluate r.condition ctx ≡ false)
      → rule_orphan (some r) name ns ctx ≡ false
  unfolding rule_orphan
  spared r h = ground arith

-- A config map or secret that a resource refers to is no orphan.
pub referenced_config :
    (kind name source : Text) (ns : Option Text) (ctx : OrphanContext)
    → IsConfig kind
    → Memᴰ (references, source) ctx.incoming_refs
    → is_resource_orphan kind name ns ctx ≡ false
unfolding evaluate
referenced_config kind name source ns ctx config m =
    let used =
      any_of_Memᴰ (λ (edge : EdgeType × Text). is_references edge.0) (references, source)
        ctx.incoming_refs m refl in
    elim config [
      | inl e ↦
          rw (config_map_verdict kind name ns ctx e)
            (spared kind name ns ctx configmap_orphan_rule (inr (rw used)))
      | inr e ↦
          rw (secret_verdict kind name ns ctx e)
            (spared kind name ns ctx secret_orphan_rule (inr (ground arith)))
    ]

-- A secret of the service account token type is no orphan, whatever refers to it.
pub token_secret :
    (kind name : Text) (ns : Option Text) (ctx : OrphanContext)
    → to_lowercase kind ≡ txt "secret"
    → ctx.resource_type ≡ some token_type
    → is_resource_orphan kind name ns ctx ≡ false
unfolding evaluate not_service_account_token text_beq
token_secret kind name ns ctx e token =
    rw (secret_verdict kind name ns ctx e)
      (spared kind name ns ctx secret_orphan_rule (inr (rw token)))

openshift_exempt :
    (p : ExceptionPattern) (name rest : Text)
    → p.namespace_prefixes ≡ txt "openshift-" ∷ []
    → matches p name (some (txt "openshift-" ++ rest)) ≡ true
unfolding matches
openshift_exempt p name rest h = rw h (ground (arith, starts_with-append (txt "openshift-") rest))

-- Config maps and secrets in the namespaces whose name starts with "openshift-" are no orphans.
pub openshift_config :
    (kind name rest : Text) (ctx : OrphanContext)
    → IsConfig kind
    → is_resource_orphan kind name (some (txt "openshift-" ++ rest)) ctx ≡ false
unfolding is_exception secret_exception_pattern config_map_exception_pattern
openshift_config kind name rest ctx config =
    let ns : Option Text = some (txt "openshift-" ++ rest) in
    elim config [
      | inl e ↦ rw (config_map_verdict kind name ns ctx e) (
          spared kind name ns ctx configmap_orphan_rule
            (inl (openshift_exempt config_map_exception_pattern name rest refl)))
      | inr e ↦ rw (secret_verdict kind name ns ctx e) (
          spared kind name ns ctx secret_orphan_rule
            (inl (openshift_exempt secret_exception_pattern name rest refl)))
    ]
