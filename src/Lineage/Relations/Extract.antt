-- ===== src/Lineage/Relations/Extract.antt =====
-- lineage/resource_behavior.rs: the `extract_…_relations` functions.
use kubectl_nvim.Prelude.{Text, txt, Option, none, some, List, [], ◌∷◌, ◌++◌, flat_map, unwrap_or}
use kubectl_nvim.Lineage.Resource.{RelationRef}
use kubectl_nvim.Lineage.Tree.Keys.{relation_ref}
use kubectl_nvim.Lineage.Relations.Spec.{
  EnvVar, EnvFromSource, HasEnv, container_env, ephemeral_env, Csi, ProjectedSource, Volume,
  PodSpec,
}

-- The body of an `if let` that pushes.
abbrev pub when_some {ℓ} : {A : Type ℓ} → Option A → (A → List RelationRef) → List RelationRef
when_some none f = []
when_some (some a) f = f a

-- A push of one relation, if the name is there.
abbrev pub named : Text → Option Text → Option Text → List RelationRef
named kind namespace name = when_some name (λ n. relation_ref kind n namespace ∷ [])

abbrev pub env_var_relations : Option Text → EnvVar → List RelationRef
env_var_relations namespace v = when_some v.value_from (λ from.
    named (txt "ConfigMap") namespace from.config_map_key_ref
    ++ named (txt "Secret") namespace from.secret_key_ref)

abbrev pub env_from_relations : Option Text → EnvFromSource → List RelationRef
env_from_relations namespace from =
    named (txt "ConfigMap") namespace from.config_map_ref
    ++ named (txt "Secret") namespace from.secret_ref

unfoldable pub extract_env_relations :
    {C : Type 0} ⦃h : HasEnv C⦄ → Option Text → C → List RelationRef
extract_env_relations ⦃h⦄ namespace c =
    flat_map (env_var_relations namespace) (unwrap_or [] (h.env c))
    ++ flat_map (env_from_relations namespace) (unwrap_or [] (h.env_from c))

abbrev pub csi_relations : Option Text → Csi → List RelationRef
csi_relations namespace csi =
    relation_ref (txt "CSIDriver") csi.driver none
    ∷ named (txt "Secret") namespace csi.node_publish_secret_ref

abbrev pub projected_source : Option Text → ProjectedSource → List RelationRef
projected_source namespace source =
    named (txt "ConfigMap") namespace source.config_map
    ++ named (txt "Secret") namespace source.secret

unfoldable pub extract_volume_relations : Option Text → Volume → List RelationRef
extract_volume_relations namespace volume =
    named (txt "ConfigMap") namespace volume.config_map
    ++ (when_some volume.secret (λ secret. named (txt "Secret") namespace secret.secret_name)
        ++ (named (txt "PersistentVolumeClaim") namespace volume.persistent_volume_claim
            ++ (when_some volume.csi (csi_relations namespace)
                ++ when_some volume.projected (λ projected.
                  flat_map (projected_source namespace) (unwrap_or [] projected.sources)))))

unfoldable pub extract_pod_spec_relations : PodSpec → Option Text → List RelationRef
extract_pod_spec_relations spec namespace =
    named (txt "ServiceAccount") namespace spec.service_account_name
    ++ (flat_map (extract_volume_relations namespace) (unwrap_or [] spec.volumes)
        ++ (flat_map (extract_env_relations namespace) spec.containers
            ++ (flat_map (extract_env_relations namespace) (unwrap_or [] spec.init_containers)
                ++ (flat_map (extract_env_relations namespace)
                      (unwrap_or [] spec.ephemeral_containers)
                    ++ flat_map (λ secret. relation_ref (txt "Secret") secret namespace ∷ [])
                        (unwrap_or [] spec.image_pull_secrets)))))
