-- ===== src/Lineage/Registry/Orphans.antt =====
-- lineage/registry.rs, `is_resource_orphan`.
use kubectl_nvim.Prelude.{Bool, false, Option, none, some, Text, if◌then◌else◌}
use kubectl_nvim.Lineage.Orphan.Condition.{
  ExceptionSpec, pattern_spec, function_spec, OrphanRule, OrphanContext, matches, evaluate,
}
use kubectl_nvim.Lineage.Registry.Table.{ResourceHandler, get_handler}

unfoldable pub is_exception : Option ExceptionSpec → Text → Option Text → Bool
is_exception none name namespace = false
is_exception (some (pattern_spec p)) name namespace = matches p name namespace
is_exception (some (function_spec func)) name namespace = func name namespace

unfoldable pub rule_orphan : Option OrphanRule → Text → Option Text → OrphanContext → Bool
unfolding is_exception
rule_orphan none name namespace ctx = false
rule_orphan (some rule) name namespace ctx =
    if is_exception rule.exception name namespace then false else evaluate rule.condition ctx

unfoldable pub handler_orphan : Option ResourceHandler → Text → Option Text → OrphanContext → Bool
unfolding rule_orphan
handler_orphan none name namespace ctx = false
handler_orphan (some handler) name namespace ctx =
    rule_orphan handler.orphan_rule name namespace ctx

unfoldable pub is_resource_orphan : Text → Text → Option Text → OrphanContext → Bool
unfolding handler_orphan
is_resource_orphan kind name namespace ctx = handler_orphan (get_handler kind) name namespace ctx
