-- ===== src/Lineage/Relations/Templates.antt =====
-- lineage/registry.rs: what the handlers of pods and of their owners extract.
use mathlib.Core.List.Memᴰ
use mathlib.Core.Path.{subst}
use kubectl_nvim.Prelude.{
  ◌≡◌, Text, txt, Option, none, some, List, [], Memᴰ, flat_map, unwrap_or, arith,
}
use kubectl_nvim.Lineage.Resource.{RelationRef}
use kubectl_nvim.Lineage.Tree.Keys.{relation_ref}
use kubectl_nvim.Lineage.Tree.Link.{◌>>=◌, >>=-eq-some}
use kubectl_nvim.Lineage.Registry.Table
use kubectl_nvim.Lineage.Relations.Spec.{PodSpec}
use kubectl_nvim.Lineage.Relations.Extract.{when_some, named, extract_pod_spec_relations}
use kubectl_nvim.Lineage.Relations.Uses.{PodUses, pod_uses_found}
use kubectl_nvim.Lineage.Relations.Objects.{
  Pod, PodTemplateSpec, Templated, ReplicaSet, StatefulSet, CronJob, Json,
}
use kubectl_nvim.Lineage.Relations.Handlers.{
  pod_relations, templated_relations, replicaset_relations, statefulset_relations,
  cronjob_relations, extract,
}

-- A pod's specification with its namespace.
abbrev pub Placed : Type 0
Placed = Option Text × PodSpec

abbrev pub pod_template : Pod → Option Placed
pod_template pod = pod.spec >>= λ spec. some (pod.namespace, spec)

abbrev pub template_pod : Option Text → PodTemplateSpec → Option Placed
template_pod namespace template = template.spec >>= λ spec. some (namespace, spec)

abbrev pub templated_pod : Templated → Option Placed
templated_pod owner = owner.spec >>= λ spec. template_pod owner.namespace spec.template

abbrev pub replicaset_pod : ReplicaSet → Option Placed
replicaset_pod rs = rs.spec >>= λ spec. spec.template >>= template_pod rs.namespace

abbrev pub statefulset_pod : StatefulSet → Option Placed
statefulset_pod sts = sts.spec >>= λ spec. template_pod sts.namespace spec.template

abbrev pub cronjob_pod : CronJob → Option Placed
cronjob_pod cronjob = cronjob.spec >>= λ spec.
    spec.job_template.spec >>= λ job_spec. template_pod cronjob.namespace job_spec.template

module _ (r : RelationRef) where
  mem_when_some :
      {A : Type 0} (o : Option A) (f : A → List RelationRef) (a : A)
      → o ≡ some a
      → Memᴰ r (f a)
      → Memᴰ r (when_some o f)
  mem_when_some none f a e m = cc e
  mem_when_some (some b) f a e m = let same : a ≡ b = cc e in subst (λ x. Memᴰ r (f x)) same m

  -- `r` is among the relations of a pod's specification.
  abbrev In : Placed → Type 0
  In p = Memᴰ r (extract_pod_spec_relations p.1 p.0)

  in_template :
      (ns : Option Text) (template : PodTemplateSpec) (p : Placed)
      → template_pod ns template ≡ some p
      → In p
      → Memᴰ r (when_some template.spec (λ spec. extract_pod_spec_relations spec ns))
  in_template ns template p h m =
      let (spec, e, g) = >>=-eq-some template.spec _ h in
      let same : p ≡ (ns, spec) = cc g in
      mem_when_some template.spec _ spec e (subst (λ x. In x) same m)

  in_pod : (pod : Pod) (p : Placed) → pod_template pod ≡ some p → In p → Memᴰ r (pod_relations pod)
  unfolding pod_relations
  in_pod pod p h m =
      let (spec, e, g) = >>=-eq-some pod.spec _ h in
      let same : p ≡ (pod.namespace, spec) = cc g in
      mem_when_some pod.spec _ spec e (
        Memᴰ.append_right (named (txt "Node") none spec.node_name) (
          Memᴰ.append_right (named (txt "PriorityClass") none spec.priority_class_name) (
            Memᴰ.append_right (named (txt "RuntimeClass") none spec.runtime_class_name)
              (subst (λ x. In x) same m))))

  in_templated :
      (owner : Templated) (p : Placed)
      → templated_pod owner ≡ some p
      → In p
      → Memᴰ r (templated_relations owner)
  unfolding templated_relations
  in_templated owner p h m =
      let (spec, e, g) = >>=-eq-some owner.spec _ h in
      mem_when_some owner.spec _ spec e (in_template owner.namespace spec.template p g m)

  in_replicaset :
      (rs : ReplicaSet) (p : Placed)
      → replicaset_pod rs ≡ some p
      → In p
      → Memᴰ r (replicaset_relations rs)
  unfolding replicaset_relations
  in_replicaset rs p h m =
      let (spec, e, g) = >>=-eq-some rs.spec _ h in
      let (template, e', g') = >>=-eq-some spec.template _ g in
      mem_when_some rs.spec _ spec e
        (mem_when_some spec.template _ template e' (in_template rs.namespace template p g' m))

  in_statefulset :
      (sts : StatefulSet) (p : Placed)
      → statefulset_pod sts ≡ some p
      → In p
      → Memᴰ r (statefulset_relations sts)
  unfolding statefulset_relations
  in_statefulset sts p h m =
      let (spec, e, g) = >>=-eq-some sts.spec _ h in
      mem_when_some sts.spec _ spec e (
        Memᴰ.append_right
          (flat_map (named (txt "PersistentVolumeClaim") sts.namespace)
            (unwrap_or [] spec.volume_claim_templates))
          (Memᴰ.append_right (named (txt "Service") sts.namespace spec.service_name)
            (in_template sts.namespace spec.template p g m)))

  in_cronjob :
      (cronjob : CronJob) (p : Placed)
      → cronjob_pod cronjob ≡ some p
      → In p
      → Memᴰ r (cronjob_relations cronjob)
  unfolding cronjob_relations
  in_cronjob cronjob p h m =
      let (spec, e, g) = >>=-eq-some cronjob.spec _ h in
      let (job_spec, e', g') = >>=-eq-some spec.job_template.spec _ g in
      mem_when_some cronjob.spec _ spec e (
        mem_when_some spec.job_template.spec _ job_spec e'
          (in_template cronjob.namespace job_spec.template p g' m))

module _ (J : Json) where
  -- The pod that an object of a kind is, or that it is a template of.
  abbrev pub pod_of : Table.Extractor → J.Value → Option Placed
  pod_of Table.extract_pod_relations item = J.pod item >>= pod_template
  pod_of Table.extract_deployment_relations item = J.deployment item >>= templated_pod
  pod_of Table.extract_replicaset_relations item = J.replica_set item >>= replicaset_pod
  pod_of Table.extract_statefulset_relations item = J.stateful_set item >>= statefulset_pod
  pod_of Table.extract_daemonset_relations item = J.daemon_set item >>= templated_pod
  pod_of Table.extract_job_relations item = J.job item >>= templated_pod
  pod_of Table.extract_cronjob_relations item = J.cron_job item >>= cronjob_pod
  pod_of other item = none

  through :
      {A : Type 0} (r : RelationRef) (o : Option A) (f : A → Option Placed)
      (g : A → List RelationRef) (p : Placed)
      → ((a : A) (q : Placed) → f a ≡ some q → In r q → Memᴰ r (g a))
      → (o >>= f) ≡ some p
      → In r p
      → Memᴰ r (when_some o g)
  through r o f g p each h m =
      let (a, e, k) = >>=-eq-some o f h in mem_when_some r o g a e (each a p k m)

  extract-In :
      (e : Table.Extractor) (item : J.Value) (p : Placed) (r : RelationRef)
      → pod_of e item ≡ some p
      → In r p
      → Memᴰ r (extract J e item)
  unfolding extract
  extract-In Table.extract_pod_relations item p r h m =
      through r (J.pod item) pod_template pod_relations p (in_pod r) h m
  extract-In Table.extract_deployment_relations item p r h m =
      through r (J.deployment item) templated_pod templated_relations p (in_templated r) h m
  extract-In Table.extract_replicaset_relations item p r h m =
      through r (J.replica_set item) replicaset_pod replicaset_relations p (in_replicaset r) h m
  extract-In Table.extract_statefulset_relations item p r h m =
      through r (J.stateful_set item) statefulset_pod statefulset_relations p (in_statefulset r) h m
  extract-In Table.extract_daemonset_relations item p r h m =
      through r (J.daemon_set item) templated_pod templated_relations p (in_templated r) h m
  extract-In Table.extract_job_relations item p r h m =
      through r (J.job item) templated_pod templated_relations p (in_templated r) h m
  extract-In Table.extract_cronjob_relations item p r h m =
      through r (J.cron_job item) cronjob_pod cronjob_relations p (in_cronjob r) h m
  extract-In other item p r h m = absurd (ground arith)

  -- Whatever config map or secret a container takes values from, be it of a pod, or of the template
  -- of a deployment, replica set, stateful set, daemon set, job or cron job: the relations extracted
  -- from the object name it, in the namespace of the object.
  pub extract_uses_found :
      (e : Table.Extractor) (item : J.Value) (ns : Option Text) (spec : PodSpec) (kind name : Text)
      → pod_of e item ≡ some (ns, spec)
      → PodUses spec kind name
      → Memᴰ (relation_ref kind name ns) (extract J e item)
  extract_uses_found e item ns spec kind name h u =
      extract-In e item (ns, spec) (relation_ref kind name ns) h
        (pod_uses_found ns spec kind name u)
