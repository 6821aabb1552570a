-- ===== src/Lineage/Relations/Namespaces.antt =====
-- lineage/resource_behavior.rs: the namespaces of the extracted references.
use kubectl_nvim.Prelude.{
  ◌≡◌, refl, Text, txt, text_eq, option_eq, ◌==◌, Bool, true, ◌&&◌, ◌||◌, Option, none, some, List,
  [], ◌∷◌, ◌++◌, Memᴰ, all, all_of_Memᴰ, flat_map, unwrap_or, arith, ==_refl, text_beq,
}
use kubectl_nvim.Lineage.Resource.{RelationRef}
use kubectl_nvim.Lineage.Tree.Keys.{relation_ref}
use kubectl_nvim.Lineage.Relations.Spec.{
  EnvVar, EnvFromSource, HasEnv, Csi, ProjectedSource, Volume, PodSpec, container_env,
  ephemeral_env,
}
use kubectl_nvim.Lineage.Relations.Extract.{
  when_some, named, env_var_relations, env_from_relations, extract_env_relations, csi_relations,
  projected_source, extract_volume_relations, extract_pod_spec_relations,
}

-- A driver has no namespace, and everything else has the pod's.
abbrev pub is_placed : Option Text → RelationRef → Bool
is_placed namespace r =
    r.namespace == namespace || (r.kind == txt "CSIDriver" && r.namespace == none)

pub all-append :
    {A : Type 0} (p : A → Bool) (xs ys : List A)
    → all p xs ≡ true
    → all p ys ≡ true
    → all p (xs ++ ys) ≡ true
all-append p [] ys h k = k
all-append p (x ∷ xs) ys h k = ground (arith, all-append p xs ys)

pub all-flat_map :
    {A B : Type 0} (p : B → Bool) (f : A → List B) (xs : List A)
    → ((a : A) → all p (f a) ≡ true)
    → all p (flat_map f xs) ≡ true
all-flat_map p f [] h = refl
all-flat_map p f (a ∷ xs) h = all-append p (f a) (flat_map f xs) (h a) (all-flat_map p f xs h)

pub all-when_some :
    {A : Type 0} (p : RelationRef → Bool) (o : Option A) (f : A → List RelationRef)
    → ((a : A) → all p (f a) ≡ true)
    → all p (when_some o f) ≡ true
all-when_some p none f h = refl
all-when_some p (some a) f h = h a

module _ (ns : Option Text) where
  ref_placed : (kind name : Text) → is_placed ns (relation_ref kind name ns) ≡ true
  unfolding relation_ref
  ref_placed kind name = ground (arith, ==_refl ns)

  named_placed : (kind : Text) (name : Option Text) → all (is_placed ns) (named kind ns name) ≡ true
  named_placed kind none = refl
  named_placed kind (some name) = ground (arith, ref_placed kind name)

  env_var_placed : (v : EnvVar) → all (is_placed ns) (env_var_relations ns v) ≡ true
  env_var_placed v = all-when_some (is_placed ns) v.value_from _ (λ from.
      all-append (is_placed ns) (named (txt "ConfigMap") ns from.config_map_key_ref) _
        (named_placed (txt "ConfigMap") from.config_map_key_ref)
        (named_placed (txt "Secret") from.secret_key_ref))

  env_from_placed : (from : EnvFromSource) → all (is_placed ns) (env_from_relations ns from) ≡ true
  env_from_placed from =
      all-append (is_placed ns) (named (txt "ConfigMap") ns from.config_map_ref) _
        (named_placed (txt "ConfigMap") from.config_map_ref)
        (named_placed (txt "Secret") from.secret_ref)

  env_placed :
      {C : Type 0} ⦃h : HasEnv C⦄ (c : C) → all (is_placed ns) (extract_env_relations ns c) ≡ true
  unfolding extract_env_relations
  env_placed ⦃h⦄ c =
      all-append (is_placed ns) (flat_map (env_var_relations ns) (unwrap_or [] (h.env c))) _
        (all-flat_map (is_placed ns) _ (unwrap_or [] (h.env c)) env_var_placed)
        (all-flat_map (is_placed ns) _ (unwrap_or [] (h.env_from c)) env_from_placed)

  csi_placed : (csi : Csi) → all (is_placed ns) (csi_relations ns csi) ≡ true
  unfolding relation_ref text_beq
  csi_placed csi = ground (arith, named_placed (txt "Secret") csi.node_publish_secret_ref)

  projected_placed :
      (source : ProjectedSource) → all (is_placed ns) (projected_source ns source) ≡ true
  projected_placed source =
      all-append (is_placed ns) (named (txt "ConfigMap") ns source.config_map) _
        (named_placed (txt "ConfigMap") source.config_map)
        (named_placed (txt "Secret") source.secret)

  volume_placed : (volume : Volume) → all (is_placed ns) (extract_volume_relations ns volume) ≡ true
  unfolding extract_volume_relations
  volume_placed volume =
      all-append (is_placed ns) (named (txt "ConfigMap") ns volume.config_map) _
        (named_placed (txt "ConfigMap") volume.config_map)
        (all-append (is_placed ns)
          (when_some volume.secret (λ s. named (txt "Secret") ns s.secret_name)) _
          (all-when_some (is_placed ns) volume.secret _
            (λ s. named_placed (txt "Secret") s.secret_name))
          (all-append (is_placed ns)
            (named (txt "PersistentVolumeClaim") ns volume.persistent_volume_claim) _
            (named_placed (txt "PersistentVolumeClaim") volume.persistent_volume_claim)
            (all-append (is_placed ns) (when_some volume.csi (csi_relations ns)) _
              (all-when_some (is_placed ns) volume.csi (csi_relations ns) csi_placed)
              (all-when_some (is_placed ns) volume.projected _ (λ p.
                all-flat_map (is_placed ns) (projected_source ns) (unwrap_or [] p.sources)
                  projected_placed)))))

  secrets_placed :
      (names : List Text)
      → all (is_placed ns) (flat_map (λ secret. relation_ref (txt "Secret") secret ns ∷ []) names)
        ≡ true
  secrets_placed names =
      all-flat_map (is_placed ns) (λ secret. relation_ref (txt "Secret") secret ns ∷ []) names
        (λ name. named_placed (txt "Secret") (some name))

  containers_placed :
      {C : Type 0} ⦃h : HasEnv C⦄ (cs : List C)
      → all (is_placed ns) (flat_map (extract_env_relations ns) cs) ≡ true
  containers_placed cs = all-flat_map (is_placed ns) (extract_env_relations ns) cs env_placed

  pub all_placed : (spec : PodSpec) → all (is_placed ns) (extract_pod_spec_relations spec ns) ≡ true
  unfolding extract_pod_spec_relations
  all_placed spec =
      all-append (is_placed ns) (named (txt "ServiceAccount") ns spec.service_account_name) _
        (named_placed (txt "ServiceAccount") spec.service_account_name)
        (all-append (is_placed ns)
          (flat_map (extract_volume_relations ns) (unwrap_or [] spec.volumes)) _
          (all-flat_map (is_placed ns) (extract_volume_relations ns) (unwrap_or [] spec.volumes)
            volume_placed)
          (all-append (is_placed ns) (flat_map (extract_env_relations ns) spec.containers) _
            (containers_placed spec.containers)
            (all-append (is_placed ns)
              (flat_map (extract_env_relations ns) (unwrap_or [] spec.init_containers)) _
              (containers_placed (unwrap_or [] spec.init_containers))
              (all-append (is_placed ns)
                (flat_map (extract_env_relations ns) (unwrap_or [] spec.ephemeral_containers)) _
                (containers_placed (unwrap_or [] spec.ephemeral_containers))
                (secrets_placed (unwrap_or [] spec.image_pull_secrets))))))

  -- Each reference that a pod's specification gives is in the pod's namespace, but for a driver,
  -- which is in none.
  pub pod_spec_placed :
      (spec : PodSpec) (r : RelationRef)
      → Memᴰ r (extract_pod_spec_relations spec ns)
      → is_placed ns r ≡ true
  pod_spec_placed spec r m =
      all_of_Memᴰ (is_placed ns) r (extract_pod_spec_relations spec ns) (all_placed spec) m
