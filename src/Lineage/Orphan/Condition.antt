-- ===== src/Lineage/Orphan/Condition.antt =====
-- lineage/orphan_rules.rs: exceptions, orphan conditions and their evaluation.
use kubectl_nvim.Prelude.{
  Bool, true, false, not, ◌&&◌, ◌||◌, Option, none, some, List, [], ◌∷◌, Text, txt, text_eq, ◌==◌,
  any, starts_with, ends_with, eq_ignore_ascii_case, HashMap, contains_key, if◌then◌else◌,
}
use kubectl_nvim.Lineage.Resource.{EdgeType, owns, references}

pub record ExceptionPattern : Type 0 where
  pub exact_names : List Text
  pub name_prefixes : List Text
  pub name_suffixes : List Text
  pub namespace_prefixes : List Text
  pub namespace_names : List (Text × List Text)

-- The two tests that need a namespace.
unfoldable pub matches_namespace : ExceptionPattern → Text → Option Text → Bool
matches_namespace p name none = false
matches_namespace p name (some ns) =
    any (λ prefix. starts_with prefix ns) p.namespace_prefixes
    || any (λ entry. ns == entry.0 && any (λ n. n == name) entry.1) p.namespace_names

-- `ExceptionPattern::matches`.
unfoldable pub matches : ExceptionPattern → Text → Option Text → Bool
unfolding matches_namespace
matches p name namespace =
    if any (λ n. n == name) p.exact_names
    then true
    else if any (λ prefix. starts_with prefix name) p.name_prefixes
    then true
    else if any (λ suffix. ends_with suffix name) p.name_suffixes
    then true
    else matches_namespace p name namespace

-- `Function` holds the function itself.
pub data ExceptionSpec : Type 0 where
  pattern_spec : ExceptionPattern → ExceptionSpec
  function_spec : (Text → Option Text → Bool) → ExceptionSpec

mutual
  pub data OrphanCondition : Type 0 where
    no_incoming_refs : OrphanCondition
    no_incoming_from : List Text → OrphanCondition
    has_missing_ref : Text → OrphanCondition
    no_owner : OrphanCondition
    is_service_account_token : OrphanCondition
    and_all : Conditions → OrphanCondition
    or_any : Conditions → OrphanCondition

  pub data Conditions : Type 0 where
    nil : Conditions
    cons : OrphanCondition → Conditions → Conditions

pub record OrphanContext : Type 0 where
  pub incoming_refs : List (EdgeType × Text)
  pub labels : Option (HashMap Text Text)
  pub resource_type : Option Text
  pub missing_refs : Option (HashMap Text (List Text))

pub record OrphanRule : Type 0 where
  pub exception : Option ExceptionSpec
  pub condition : OrphanCondition

abbrev pub is_references : EdgeType → Bool
is_references references = true
is_references owns = false

abbrev pub is_owns : EdgeType → Bool
is_owns owns = true
is_owns references = false

unfoldable pub refers_from : List Text → EdgeType × Text → Bool
refers_from kinds (edge, source_kind) =
    is_references edge && any (λ k. eq_ignore_ascii_case source_kind k) kinds

abbrev pub token_type : Text
token_type = txt "kubernetes.io/service-account-token"

abbrev pub token_label : Text
token_label = txt "kubernetes.io/service-account.name"

-- The arm `IsServiceAccountToken`: true where the resource is no such token.
unfoldable pub no_token_label : Option (HashMap Text Text) → Bool
no_token_label none = true
no_token_label (some label_map) = if contains_key token_label label_map then false else true

unfoldable pub not_service_account_token : Option Text → Option (HashMap Text Text) → Bool
unfolding no_token_label
not_service_account_token none labels = no_token_label labels
not_service_account_token (some secret_type) labels =
    if secret_type == token_type then false else no_token_label labels

abbrev pub missing_kind : Text → Option (HashMap Text (List Text)) → Bool
missing_kind kind none = false
missing_kind kind (some m) = contains_key kind m

unfoldable mutual
  pub evaluate : OrphanCondition → OrphanContext → Bool
  evaluate no_incoming_refs ctx = not (any (λ edge. is_references edge.0) ctx.incoming_refs)
  evaluate (no_incoming_from kinds) ctx = not (any (refers_from kinds) ctx.incoming_refs)
  evaluate (has_missing_ref kind) ctx = missing_kind kind ctx.missing_refs
  evaluate no_owner ctx = not (any (λ edge. is_owns edge.0) ctx.incoming_refs)
  evaluate is_service_account_token ctx = not_service_account_token ctx.resource_type ctx.labels
  evaluate (and_all cs) ctx = evaluate_all cs ctx
  evaluate (or_any cs) ctx = evaluate_any cs ctx

  pub evaluate_all : Conditions → OrphanContext → Bool
  evaluate_all nil ctx = true
  evaluate_all (cons c cs) ctx = evaluate c ctx && evaluate_all cs ctx

  pub evaluate_any : Conditions → OrphanContext → Bool
  evaluate_any nil ctx = false
  evaluate_any (cons c cs) ctx = evaluate c ctx || evaluate_any cs ctx

-- `is_exception_role_binding`, its arms by namespace.
unfoldable pub kube_system_binding : Text → Bool
kube_system_binding name =
    starts_with (txt "system::") name
    || starts_with (txt "system:controller:") name
    || any (λ n. n == name)
        (txt "kube-proxy"
          ∷ txt "kubeadm:kubelet-config"
          ∷ txt "kubeadm:nodes-kubeadm-config"
          ∷ txt "gce:podsecuritypolicy:pdcsi-node-sa"
          ∷ [])

unfoldable pub is_exception_role_binding : Text → Option Text → Bool
unfolding kube_system_binding
is_exception_role_binding name none = false
is_exception_role_binding name (some ns) =
    if ns == txt "kube-system"
    then kube_system_binding name
    else if ns == txt "kube-public"
    then any (λ n. n == name)
        (txt "kubeadm:bootstrap-signer-clusterinfo" ∷ txt "system:controller:bootstrap-signer" ∷ [])
    else if ns == txt "gmp-public"
    then name == txt "operator"
    else false
