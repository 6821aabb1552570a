-- ===== src/Lineage/Relations/Uses.antt =====
-- lineage/resource_behavior.rs: the config maps and secrets that environment variables use.
use mathlib.Core.List.Memᴰ
use kubectl_nvim.Prelude.{
  ◌≡◌, refl, Text, txt, Option, some, List, [], ◌++◌, Memᴰ, flat_map, Memᴰ-flat_map, unwrap_or,
}
use kubectl_nvim.Lineage.Resource.{RelationRef}
use kubectl_nvim.Lineage.Tree.Keys.{relation_ref}
use kubectl_nvim.Lineage.Relations.Spec.{
  EnvVar, EnvVarSource, EnvFromSource, Container, EphemeralContainer, HasEnv, container_env,
  ephemeral_env, PodSpec,
}
use kubectl_nvim.Lineage.Relations.Extract.{
  named, env_var_relations, env_from_relations, extract_env_relations, extract_volume_relations,
  extract_pod_spec_relations,
}

-- What one environment takes values from: the kind of the object, and its name.
pub data EnvUse (vars : List EnvVar) (froms : List EnvFromSource) : Text → Text → Type 0 where
  var_config_map :
      (v : EnvVar) (s : EnvVarSource) (n : Text)
      → Memᴰ v vars
      → v.value_from ≡ some s
      → s.config_map_key_ref ≡ some n
      → EnvUse vars froms (txt "ConfigMap") n
  var_secret :
      (v : EnvVar) (s : EnvVarSource) (n : Text)
      → Memᴰ v vars
      → v.value_from ≡ some s
      → s.secret_key_ref ≡ some n
      → EnvUse vars froms (txt "Secret") n
  from_config_map :
      (f : EnvFromSource) (n : Text)
      → Memᴰ f froms
      → f.config_map_ref ≡ some n
      → EnvUse vars froms (txt "ConfigMap") n
  from_secret :
      (f : EnvFromSource) (n : Text)
      → Memᴰ f froms
      → f.secret_ref ≡ some n
      → EnvUse vars froms (txt "Secret") n

abbrev pub Uses : {C : Type 0} ⦃h : HasEnv C⦄ → C → Text → Text → Type 0
Uses ⦃h⦄ c = EnvUse (unwrap_or [] (h.env c)) (unwrap_or [] (h.env_from c))

-- Some container of the pod, of whichever sort, takes values from the object.
pub data PodUses (spec : PodSpec) (kind name : Text) : Type 0 where
  container : (c : Container) → Memᴰ c spec.containers → Uses c kind name → PodUses spec kind name
  init_container :
      (c : Container)
      → Memᴰ c (unwrap_or [] spec.init_containers)
      → Uses c kind name
      → PodUses spec kind name
  ephemeral_container :
      (c : EphemeralContainer)
      → Memᴰ c (unwrap_or [] spec.ephemeral_containers)
      → Uses c kind name
      → PodUses spec kind name

module _ (ns : Option Text) where
  mem_flat_map :
      {A : Type 0} (f : A → List RelationRef) (xs : List A) (a : A) (r : RelationRef)
      → Memᴰ a xs
      → Memᴰ r (f a)
      → Memᴰ r (flat_map f xs)
  mem_flat_map f xs a r m n = (Memᴰ-flat_map f xs r).1 (a, m, n)

  env_use_found :
      (vars : List EnvVar) (froms : List EnvFromSource) (kind name : Text)
      → EnvUse vars froms kind name
      → Memᴰ
          (relation_ref kind name ns)
          (flat_map (env_var_relations ns) vars ++ flat_map (env_from_relations ns) froms)
  env_use_found vars froms _ _ (var_config_map v s n m e f) =
      Memᴰ.append_left (flat_map (env_from_relations ns) froms)
        (mem_flat_map (env_var_relations ns) vars v _ m (rw (e, f) (Memᴰ.head refl)))
  env_use_found vars froms _ _ (var_secret v s n m e f) =
      Memᴰ.append_left (flat_map (env_from_relations ns) froms) (
        mem_flat_map (env_var_relations ns) vars v _ m (
          rw e (
            Memᴰ.append_right (named (txt "ConfigMap") ns s.config_map_key_ref)
              (rw f (Memᴰ.head refl)))))
  env_use_found vars froms _ _ (from_config_map f n m e) =
      Memᴰ.append_right (flat_map (env_var_relations ns) vars)
        (mem_flat_map (env_from_relations ns) froms f _ m (rw e (Memᴰ.head refl)))
  env_use_found vars froms _ _ (from_secret f n m e) =
      Memᴰ.append_right (flat_map (env_var_relations ns) vars) (
        mem_flat_map (env_from_relations ns) froms f _ m
          (Memᴰ.append_right (named (txt "ConfigMap") ns f.config_map_ref) (rw e (Memᴰ.head refl))))

  uses_found :
      {C : Type 0} ⦃h : HasEnv C⦄ (cs : List C) (c : C) (kind name : Text)
      → Memᴰ c cs
      → Uses c kind name
      → Memᴰ (relation_ref kind name ns) (flat_map (extract_env_relations ns) cs)
  unfolding extract_env_relations
  uses_found ⦃h⦄ cs c kind name m use_of =
      mem_flat_map (extract_env_relations ns) cs c _ m
        (env_use_found (unwrap_or [] (h.env c)) (unwrap_or [] (h.env_from c)) kind name use_of)

  -- The references before those of the containers, and those of each sort of containers.
  abbrev head_relations : PodSpec → List RelationRef
  head_relations spec = named (txt "ServiceAccount") ns spec.service_account_name

  abbrev volume_relations : PodSpec → List RelationRef
  volume_relations spec = flat_map (extract_volume_relations ns) (unwrap_or [] spec.volumes)

  after_volumes :
      (spec : PodSpec) (rs : List RelationRef) (r : RelationRef)
      → Memᴰ r rs
      → Memᴰ r (head_relations spec ++ (volume_relations spec ++ rs))
  after_volumes spec rs r m =
      Memᴰ.append_right (head_relations spec) (Memᴰ.append_right (volume_relations spec) m)

  -- Whatever config map or secret a container of the pod takes values from, the pod's references
  -- name it, in the pod's namespace.
  pub pod_uses_found :
      (spec : PodSpec) (kind name : Text)
      → PodUses spec kind name
      → Memᴰ (relation_ref kind name ns) (extract_pod_spec_relations spec ns)
  unfolding extract_pod_spec_relations
  pod_uses_found spec kind name (container c m u) =
      after_volumes spec _ _ (Memᴰ.append_left _ (uses_found spec.containers c kind name m u))
  pod_uses_found spec kind name (init_container c m u) = after_volumes spec _ _ (
      Memᴰ.append_right (flat_map (extract_env_relations ns) spec.containers)
        (Memᴰ.append_left _ (uses_found (unwrap_or [] spec.init_containers) c kind name m u)))
  pod_uses_found spec kind name (ephemeral_container c m u) = after_volumes spec _ _ (
      Memᴰ.append_right (flat_map (extract_env_relations ns) spec.containers) (
        Memᴰ.append_right (flat_map (extract_env_relations ns) (unwrap_or [] spec.init_containers))
          (Memᴰ.append_left _
            (uses_found (unwrap_or [] spec.ephemeral_containers) c kind name m u))))
