-- ===== src/Logs/Targets.antt =====
-- cmd/log_session.rs: `resolve_log_targets`, `get_container_names` and `format_log_line`. The
-- cluster's answer for a pod and the stripping of escape codes are parameters.
use kubectl_nvim.Prelude.{
  Text, txt, text_eq, ◌==◌, Option, none, some, unwrap_or, List, [], ◌∷◌, ◌++◌, map, length, keep,
  Bool, true, false, if◌then◌else◌, ltb, is_empty,
}

pub record PodRef : Type 0 where
  pub name : Text
  pub namespace : Text

-- The names of the containers of a pod's specification.
pub record PodSpec : Type 0 where
  pub containers : List Text
  pub init_containers : Option (List Text)

pub record ResolvedContainer : Type 0 where
  pub namespace : Text
  pub pod_name : Text
  pub container_name : Text

pub record ResolvedTargets : Type 0 where
  pub containers : List ResolvedContainer
  pub is_multi_container : Bool
  pub use_prefix : Bool

pub data Result (A : Type 0) : Type 0 where
  ok : A → Result A
  err : Text → Result A

abbrev pub retain : Option Text → List Text → List Text
retain none names = names
retain (some target) names = keep (λ name. name == target) names

unfoldable pub get_container_names : PodSpec → Option Text → List Text
get_container_names spec target =
    retain target (spec.containers ++ unwrap_or [] spec.init_containers)

abbrev pub resolved : PodRef → Text → ResolvedContainer
resolved pod name = record { namespace = pod.namespace; pod_name = pod.name; container_name = name }

abbrev pub resolved_spec : PodRef → Option Text → Option PodSpec → List ResolvedContainer
resolved_spec pod target none = []
resolved_spec pod target (some spec) = map (resolved pod) (get_container_names spec target)

abbrev pub failure : PodRef → Text → Text
failure pod e =
    txt "Failed to get pod " ++ (pod.name ++ (txt " in " ++ (pod.namespace ++ (txt ": " ++ e))))

abbrev pub append_result :
    List ResolvedContainer → Result (List ResolvedContainer) → Result (List ResolvedContainer)
append_result xs (ok ys) = ok (xs ++ ys)
append_result xs (err e) = err e

-- A pod that cannot be read is skipped if there are several, and ends the search if it is alone.
abbrev pub one_pod :
    Bool
    → PodRef
    → Option Text
    → Result (Option PodSpec)
    → Result (List ResolvedContainer)
    → Result (List ResolvedContainer)
one_pod is_multi_pod pod target (ok spec) later =
    append_result (resolved_spec pod target spec) later
one_pod true pod target (err e) later = later
one_pod false pod target (err e) later = err (failure pod e)

module _ (get : PodRef → Result (Option PodSpec)) where
  unfoldable pub resolve_pods : Bool → Option Text → List PodRef → Result (List ResolvedContainer)
  resolve_pods is_multi_pod target [] = ok []
  resolve_pods is_multi_pod target (pod ∷ pods) =
      one_pod is_multi_pod pod target (get pod) (resolve_pods is_multi_pod target pods)

  abbrev pub targets : Bool → Option Bool → Result (List ResolvedContainer) → Result ResolvedTargets
  targets is_multi_pod prefix_override (err e) = err e
  targets is_multi_pod prefix_override (ok containers) = ok (record {
    containers = containers;
    is_multi_container = ltb 1 (length containers);
    use_prefix = unwrap_or is_multi_pod prefix_override;
  })

  unfoldable pub resolve_log_targets :
      List PodRef → Option Text → Option Bool → Result ResolvedTargets
  resolve_log_targets pods target prefix_override =
      let is_multi_pod = ltb 1 (length pods) in
      if is_empty pods
      then err (txt "No pods specified")
      else targets is_multi_pod prefix_override (resolve_pods is_multi_pod target pods)

unfoldable pub format_log_line : (Text → Text) → Text → Text → Text → Bool → Bool → Text
format_log_line strip line pod_name container_name use_prefix is_multi_container =
    let clean_line = strip line in
    if use_prefix
    then (if is_multi_container
        then txt "[" ++ (pod_name ++ (txt "/" ++ (container_name ++ (txt "] " ++ clean_line))))
        else txt "[" ++ (pod_name ++ (txt "] " ++ clean_line)))
    else clean_line
