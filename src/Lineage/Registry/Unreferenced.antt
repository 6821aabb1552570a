-- ===== src/Lineage/Registry/Unreferenced.antt =====
-- lineage/registry.rs and lineage/orphan_rules.rs: what nothing refers to is an orphan.
use mathlib.Core.Bool.{false≢true}
use kubectl_nvim.Prelude.{
  ◌≡◌, refl, Bool, true, false, ◌&&◌, ◌||◌, Option, none, some, [], Text, text_eq, mem_of_lookup,
  all, all_of_Memᴰ, arith,
}
use kubectl_nvim.Lineage.Orphan.Condition.{
  OrphanRule, OrphanContext, OrphanCondition, no_incoming_refs, no_incoming_from, has_missing_ref,
  no_owner, is_service_account_token, and_all, or_any, Conditions, nil, cons, evaluate,
  evaluate_all, evaluate_any, not_service_account_token,
}
use kubectl_nvim.Lineage.Registry.Table.{
  ResourceHandler, normalize_kind, resource_registry, get_handler,
}
use kubectl_nvim.Lineage.Registry.Orphans.{
  is_exception, rule_orphan, handler_orphan, is_resource_orphan,
}

-- Without edges into the resource these conditions hold whatever else is known of it.
abbrev mutual
  vacuous : OrphanCondition → Bool
  vacuous no_incoming_refs = true
  vacuous (no_incoming_from kinds) = true
  vacuous (has_missing_ref kind) = false
  vacuous no_owner = true
  vacuous is_service_account_token = true
  vacuous (and_all cs) = all_vacuous cs
  vacuous (or_any cs) = any_vacuous cs

  all_vacuous : Conditions → Bool
  all_vacuous nil = true
  all_vacuous (cons c cs) = vacuous c && all_vacuous cs

  any_vacuous : Conditions → Bool
  any_vacuous nil = false
  any_vacuous (cons c cs) = vacuous c || any_vacuous cs

module _ (ctx : OrphanContext) (alone : ctx.incoming_refs ≡ [])
    (plain : not_service_account_token ctx.resource_type ctx.labels ≡ true) where
  mutual
    unfolding evaluate

    evaluate-vacuous : (c : OrphanCondition) → vacuous c ≡ true → evaluate c ctx ≡ true
    evaluate-vacuous no_incoming_refs h = rw alone
    evaluate-vacuous (no_incoming_from kinds) h = rw alone
    evaluate-vacuous (has_missing_ref kind) h = absurd (false≢true h)
    evaluate-vacuous no_owner h = rw alone
    evaluate-vacuous is_service_account_token h = plain
    evaluate-vacuous (and_all cs) h = evaluate_all_vacuous cs h
    evaluate-vacuous (or_any cs) h = evaluate_any_vacuous cs h

    evaluate_all_vacuous : (cs : Conditions) → all_vacuous cs ≡ true → evaluate_all cs ctx ≡ true
    evaluate_all_vacuous nil h = refl
    evaluate_all_vacuous (cons c cs) h = ground (arith, evaluate-vacuous c, evaluate_all_vacuous cs)

    evaluate_any_vacuous : (cs : Conditions) → any_vacuous cs ≡ true → evaluate_any cs ctx ≡ true
    evaluate_any_vacuous nil h = absurd (false≢true h)
    evaluate_any_vacuous (cons c cs) h = ground (arith, evaluate-vacuous c, evaluate_any_vacuous cs)

abbrev vacuous_rule : Option OrphanRule → Bool
vacuous_rule none = true
vacuous_rule (some r) = vacuous r.condition

-- Every rule of the registry is of that kind.
registry_vacuous :
    all (λ (entry : Text × ResourceHandler). vacuous_rule entry.1.orphan_rule) resource_registry
    ≡ true
unfolding resource_registry
registry_vacuous = refl

-- A resource whose kind has an orphan rule, that is no exception of this rule and no service
-- account token, is an orphan if no edge leads to it.
pub unreferenced-orphan :
    (kind name : Text) (ns : Option Text) (ctx : OrphanContext) (h : ResourceHandler)
    (r : OrphanRule)
    → get_handler kind ≡ some h
    → h.orphan_rule ≡ some r
    → is_exception r.exception name ns ≡ false
    → not_service_account_token ctx.resource_type ctx.labels ≡ true
    → ctx.incoming_refs ≡ []
    → is_resource_orphan kind name ns ctx ≡ true
unfolding is_resource_orphan get_handler
unreferenced-orphan kind name ns ctx h r found rule fresh plain alone =
    let m = mem_of_lookup (normalize_kind kind) resource_registry found in
    let v = all_of_Memᴰ _ (normalize_kind kind, h) resource_registry registry_vacuous m in
    rw (found, handler_orphan, rule, rule_orphan, fresh)
      (evaluate-vacuous ctx alone plain r.condition (rw rule at v))
