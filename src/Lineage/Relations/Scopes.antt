-- ===== src/Lineage/Relations/Scopes.antt =====
-- lineage/registry.rs: the namespaces of the relations that the handlers extract.
use kubectl_nvim.Prelude.{
  ◌≡◌, refl, Text, txt, text_eq, option_eq, ◌==◌, Bool, true, ◌||◌, Option, none, some, List, [],
  ◌∷◌, ◌++◌, Memᴰ, all, all_of_Memᴰ, all_intro, flat_map, unwrap_or, arith, ==_refl,
}
use kubectl_nvim.Lineage.Resource.{RelationRef}
use kubectl_nvim.Lineage.Tree.Keys.{relation_ref}
use kubectl_nvim.Lineage.Tree.Link.{◌>>=◌}
use kubectl_nvim.Lineage.Registry.Table
use kubectl_nvim.Lineage.Relations.Spec.{PodSpec}
use kubectl_nvim.Lineage.Relations.Extract.{when_some, named, extract_pod_spec_relations}
use kubectl_nvim.Lineage.Relations.Namespaces.{
  pod_spec_placed, all-append, all-flat_map, all-when_some,
}
use kubectl_nvim.Lineage.Relations.Objects.{
  ObjectReference, Pod, PodTemplateSpec, Templated, TemplatedSpec, ReplicaSet, ReplicaSetSpec,
  StatefulSet, StatefulSetSpec, CronJob, IngressBackend, IngressRule, IngressSpec, Ingress,
  ServiceAccount, HorizontalPodAutoscaler, Json,
}
use kubectl_nvim.Lineage.Relations.Handlers.{
  pod_relations, template_relations, templated_relations, replicaset_relations,
  statefulset_relations, cronjob_relations, backend_relations, rule_relations, ingress_relations,
  serviceaccount_relations, hpa_relations, extract,
}

-- A relation to something in the namespace, or in none.
abbrev pub is_scoped : Option Text → RelationRef → Bool
is_scoped ns r = r.namespace == ns || r.namespace == none

module _ (ns : Option Text) where
  abbrev pub Scoped : List RelationRef → Type 0
  Scoped rs = all (is_scoped ns) rs ≡ true

  ref_scoped : (kind name : Text) → is_scoped ns (relation_ref kind name ns) ≡ true
  unfolding relation_ref
  ref_scoped kind name = ground (arith, ==_refl ns)

  named-Scoped : (kind : Text) (name : Option Text) → Scoped (named kind ns name)
  named-Scoped kind none = refl
  named-Scoped kind (some name) = ground (arith, ref_scoped kind name)

  global-Scoped : (kind : Text) (name : Option Text) → Scoped (named kind none name)
  unfolding relation_ref
  global-Scoped kind none = refl
  global-Scoped kind (some name) = ground arith

  Scoped-append : (rs ss : List RelationRef) → Scoped rs → Scoped ss → Scoped (rs ++ ss)
  Scoped-append rs ss h k = all-append (is_scoped ns) rs ss h k

  Scoped-flat_map :
      {A : Type 0} (f : A → List RelationRef) (xs : List A)
      → ((a : A) → Scoped (f a))
      → Scoped (flat_map f xs)
  Scoped-flat_map f xs h = all-flat_map (is_scoped ns) f xs h

  Scoped-when_some :
      {A : Type 0} (o : Option A) (f : A → List RelationRef)
      → ((a : A) → Scoped (f a))
      → Scoped (when_some o f)
  Scoped-when_some o f h = all-when_some (is_scoped ns) o f h

  pod_spec-Scoped : (spec : PodSpec) → Scoped (extract_pod_spec_relations spec ns)
  pod_spec-Scoped spec =
      all_intro (is_scoped ns) (extract_pod_spec_relations spec ns)
        (λ r m. ground (arith, pod_spec_placed ns spec r m))

  template-Scoped : (template : PodTemplateSpec) → Scoped (template_relations ns template)
  template-Scoped template = Scoped-when_some template.spec _ pod_spec-Scoped

  backend-Scoped : (backend : IngressBackend) → Scoped (backend_relations ns backend)
  unfolding relation_ref
  backend-Scoped backend =
      Scoped-append (named (txt "Service") ns backend.service) _
        (named-Scoped (txt "Service") backend.service)
        (Scoped-when_some backend.resource _ (λ resource. ground (arith, ==_refl ns)))

  rule-Scoped : (rule : IngressRule) → Scoped (rule_relations ns rule)
  rule-Scoped rule =
      Scoped-when_some rule.http _
        (λ paths. Scoped-flat_map (backend_relations ns) paths backend-Scoped)

pod-Scoped : (pod : Pod) → Scoped pod.namespace (pod_relations pod)
unfolding pod_relations
pod-Scoped pod =
    let ns = pod.namespace in
    Scoped-when_some ns pod.spec _ (λ (spec : PodSpec).
      Scoped-append ns (named (txt "Node") none spec.node_name) _
        (global-Scoped ns (txt "Node") spec.node_name)
        (Scoped-append ns (named (txt "PriorityClass") none spec.priority_class_name) _
          (global-Scoped ns (txt "PriorityClass") spec.priority_class_name)
          (Scoped-append ns (named (txt "RuntimeClass") none spec.runtime_class_name) _
            (global-Scoped ns (txt "RuntimeClass") spec.runtime_class_name)
            (pod_spec-Scoped ns spec))))

templated-Scoped : (owner : Templated) → Scoped owner.namespace (templated_relations owner)
unfolding templated_relations
templated-Scoped owner =
    Scoped-when_some owner.namespace owner.spec _
      (λ (spec : TemplatedSpec). template-Scoped owner.namespace spec.template)

replicaset-Scoped : (rs : ReplicaSet) → Scoped rs.namespace (replicaset_relations rs)
unfolding replicaset_relations
replicaset-Scoped rs = Scoped-when_some rs.namespace rs.spec _ (λ (spec : ReplicaSetSpec).
    Scoped-when_some rs.namespace spec.template _ (template-Scoped rs.namespace))

statefulset-Scoped : (sts : StatefulSet) → Scoped sts.namespace (statefulset_relations sts)
unfolding statefulset_relations
statefulset-Scoped sts =
    let ns = sts.namespace in
    let claims = named (txt "PersistentVolumeClaim") ns in
    Scoped-when_some ns sts.spec _ (λ (spec : StatefulSetSpec).
      Scoped-append ns (flat_map claims (unwrap_or [] spec.volume_claim_templates)) _
        (Scoped-flat_map ns claims (unwrap_or [] spec.volume_claim_templates)
          (named-Scoped ns (txt "PersistentVolumeClaim")))
        (Scoped-append ns (named (txt "Service") ns spec.service_name) _
          (named-Scoped ns (txt "Service") spec.service_name) (template-Scoped ns spec.template)))

cronjob-Scoped : (cronjob : CronJob) → Scoped cronjob.namespace (cronjob_relations cronjob)
unfolding cronjob_relations
cronjob-Scoped cronjob =
    let ns = cronjob.namespace in
    Scoped-when_some ns cronjob.spec _ (λ spec.
      Scoped-when_some ns spec.job_template.spec _
        (λ (job_spec : TemplatedSpec). template-Scoped ns job_spec.template))

ingress-Scoped : (ingress : Ingress) → Scoped ingress.namespace (ingress_relations ingress)
unfolding ingress_relations
ingress-Scoped ingress =
    let ns = ingress.namespace in
    Scoped-when_some ns ingress.spec _ (λ (spec : IngressSpec).
      Scoped-append ns (named (txt "IngressClass") none spec.ingress_class_name) _
        (global-Scoped ns (txt "IngressClass") spec.ingress_class_name)
        (Scoped-append ns (when_some spec.default_backend (backend_relations ns)) _
          (Scoped-when_some ns spec.default_backend _ (backend-Scoped ns))
          (Scoped-append ns (flat_map (rule_relations ns) (unwrap_or [] spec.rules)) _
            (Scoped-flat_map ns (rule_relations ns) (unwrap_or [] spec.rules) (rule-Scoped ns))
            (Scoped-flat_map ns (named (txt "Secret") ns) (unwrap_or [] spec.tls)
              (named-Scoped ns (txt "Secret"))))))

serviceaccount-Scoped : (sa : ServiceAccount) → Scoped sa.namespace (serviceaccount_relations sa)
unfolding serviceaccount_relations
serviceaccount-Scoped sa =
    let ns = sa.namespace in
    let of_ref = λ (r : ObjectReference). named (txt "Secret") ns r.name in
    Scoped-append ns (flat_map of_ref (unwrap_or [] sa.secrets)) _
      (Scoped-flat_map ns of_ref (unwrap_or [] sa.secrets)
        (λ r. named-Scoped ns (txt "Secret") r.name))
      (Scoped-flat_map ns (λ name. relation_ref (txt "Secret") name ns ∷ [])
        (unwrap_or [] sa.image_pull_secrets) (λ name. named-Scoped ns (txt "Secret") (some name)))

hpa-Scoped : (hpa : HorizontalPodAutoscaler) → Scoped hpa.namespace (hpa_relations hpa)
unfolding hpa_relations relation_ref
hpa-Scoped hpa =
    Scoped-when_some hpa.namespace hpa.spec _ (λ spec. ground (arith, ==_refl hpa.namespace))

module _ (J : Json) where
  -- The namespace of an object whose relations give no namespace of their own.
  abbrev pub home : Table.Extractor → J.Value → Option (Option Text)
  home Table.extract_pod_relations item = J.pod item >>= λ x. some x.namespace
  home Table.extract_deployment_relations item = J.deployment item >>= λ x. some x.namespace
  home Table.extract_replicaset_relations item = J.replica_set item >>= λ x. some x.namespace
  home Table.extract_statefulset_relations item = J.stateful_set item >>= λ x. some x.namespace
  home Table.extract_daemonset_relations item = J.daemon_set item >>= λ x. some x.namespace
  home Table.extract_job_relations item = J.job item >>= λ x. some x.namespace
  home Table.extract_cronjob_relations item = J.cron_job item >>= λ x. some x.namespace
  home Table.extract_ingress_relations item = J.ingress item >>= λ x. some x.namespace
  home Table.extract_serviceaccount_relations item =
      J.service_account item >>= λ x. some x.namespace
  home Table.extract_hpa_relations item = J.horizontal_pod_autoscaler item >>= λ x. some x.namespace
  home other item = none

  at_home :
      {A : Type 0} (o : Option A) (f : A → List RelationRef) (g : A → Option Text)
      (ns : Option Text)
      → ((a : A) → Scoped (g a) (f a))
      → (o >>= λ a. some (g a)) ≡ some ns
      → Scoped ns (when_some o f)
  at_home none f g ns each h = refl
  at_home (some a) f g ns each h = let same : g a ≡ ns = cc h in rw (← same) (each a)

  extract-Scoped :
      (e : Table.Extractor) (item : J.Value) (ns : Option Text)
      → home e item ≡ some ns
      → Scoped ns (extract J e item)
  unfolding extract
  extract-Scoped Table.extract_pod_relations item ns h =
      at_home (J.pod item) pod_relations (λ x. x.namespace) ns pod-Scoped h
  extract-Scoped Table.extract_deployment_relations item ns h =
      at_home (J.deployment item) templated_relations (λ x. x.namespace) ns templated-Scoped h
  extract-Scoped Table.extract_replicaset_relations item ns h =
      at_home (J.replica_set item) replicaset_relations (λ x. x.namespace) ns replicaset-Scoped h
  extract-Scoped Table.extract_statefulset_relations item ns h =
      at_home (J.stateful_set item) statefulset_relations (λ x. x.namespace) ns statefulset-Scoped h
  extract-Scoped Table.extract_daemonset_relations item ns h =
      at_home (J.daemon_set item) templated_relations (λ x. x.namespace) ns templated-Scoped h
  extract-Scoped Table.extract_job_relations item ns h =
      at_home (J.job item) templated_relations (λ x. x.namespace) ns templated-Scoped h
  extract-Scoped Table.extract_cronjob_relations item ns h =
      at_home (J.cron_job item) cronjob_relations (λ x. x.namespace) ns cronjob-Scoped h
  extract-Scoped Table.extract_ingress_relations item ns h =
      at_home (J.ingress item) ingress_relations (λ x. x.namespace) ns ingress-Scoped h
  extract-Scoped Table.extract_serviceaccount_relations item ns h =
      at_home (J.service_account item) serviceaccount_relations (λ x. x.namespace) ns
        serviceaccount-Scoped h
  extract-Scoped Table.extract_hpa_relations item ns h =
      at_home (J.horizontal_pod_autoscaler item) hpa_relations (λ x. x.namespace) ns hpa-Scoped h
  extract-Scoped other item ns h = absurd (ground arith)

  -- What is extracted from a pod, an owner of pods, an ingress, a service account or an autoscaler
  -- lies in the namespace of the object, or in none.
  pub extract_scoped :
      (e : Table.Extractor) (item : J.Value) (ns : Option Text) (r : RelationRef)
      → home e item ≡ some ns
      → Memᴰ r (extract J e item)
      → is_scoped ns r ≡ true
  extract_scoped e item ns r h m =
      all_of_Memᴰ (is_scoped ns) r (extract J e item) (extract-Scoped e item ns h) m
