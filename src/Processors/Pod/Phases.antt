-- ===== src/Processors/Pod/Phases.antt =====
-- processors/pod.rs: the status that `get_pod_status` settles on.
use mathlib.Core.Bool.{false≢true}
use kubectl_nvim.Prelude.{
  unwrap_or, ℕ, ◌+◌, ◌≡◌, ◌≢◌, inl, inr, refl, sym, ap, ◌∙◌, Text, txt, text_eq, text_beq,
  text_beq_iff, ◌==◌, Option, none, some, Option-cases, Bool-cases, List, [], ◌∷◌, Bool, true,
  false, HashMap, any, starts_with, length, lookup, arith,
}
use kubectl_nvim.Processors.Fields.{FieldValue}
use kubectl_nvim.Processors.Pod.Types.{
  Terminated, ContainerState, Waiting, ContainerStatus, PodStatus, Pod,
}
use kubectl_nvim.Processors.Pod.Containers.{
  init_terminated, init_waiting, init_state, check_init_container_status, first_init_status,
  restart_policies, init_containers, init_statuses, progress, get_init_container_status,
  ContainerStatusResult,
}
use kubectl_nvim.Processors.Pod.Status.{
  get_pod_status, status_of, regular_status, is_lost, phase_of, coloured, containers_result,
  adjusted,
}
use kubectl_nvim.Processors.Pod.Reports.{counts_running, get_container_status_first}

-- No text but one that starts with "Init:".
abbrev is_init : Option Text → Bool
is_init none = true
is_init (some s) = starts_with (txt "Init:") s

terminated-is_init : (term : Terminated) → is_init (init_terminated term) ≡ true
unfolding starts_with
terminated-is_init term = ground arith

waiting-is_init :
    (o : Option Waiting) (i n : ℕ) → is_init (some (init_waiting o (progress i n))) ≡ true
unfolding starts_with
waiting-is_init none i n = refl
waiting-is_init (some wait) i n = ground arith

state-is_init :
    (o : Option ContainerState) (ready started restartable : Bool) (i n : ℕ)
    → is_init (init_state o ready started restartable (progress i n)) ≡ true
unfolding starts_with
state-is_init none ready started restartable i n = refl
state-is_init (some state) ready started restartable i n = elim (Option-cases state.terminated) [
  | inl e ↦ rw e (ground (arith, waiting-is_init state.waiting i n))
  | inr (term, e) ↦ rw e (terminated-is_init term)
]

first_init_status-is_init :
    (policies : HashMap Text Bool) (i count : ℕ) (statuses : List ContainerStatus)
    → is_init (first_init_status policies i count statuses) ≡ true
unfolding first_init_status check_init_container_status
first_init_status-is_init policies i count [] = refl
first_init_status-is_init policies i count (cs ∷ rest) =
    let restartable = unwrap_or false (lookup cs.name policies) in
    ground (
      arith,
      first_init_status-is_init policies (i + 1) count rest,
      state-is_init cs.state cs.ready (unwrap_or false cs.started) restartable (i + 1) count,
    )

-- A pod whose init containers are not done has a status that starts with "Init:".
pub init_status-is_init :
    (pod : Pod) (status : PodStatus) (s : Text)
    → get_init_container_status pod status ≡ some s
    → starts_with (txt "Init:") s ≡ true
unfolding get_init_container_status
init_status-is_init pod status s h = ground (
  arith,
  first_init_status-is_init (restart_policies (init_containers pod) []) 0
      (length (init_containers pod)) (init_statuses status),
)

get_pod_status_of :
    (pod : Pod) (status : PodStatus)
    → pod.status ≡ some status
    → get_pod_status pod ≡ status_of pod status
unfolding get_pod_status
get_pod_status_of pod status at =
    ap (λ o. elim o [ none ↦ coloured (txt "Unknown") none | some s ↦ status_of pod s ]) at

-- The text "Completed" does not start with "Init:".
not_init : (s : Text) → starts_with (txt "Init:") s ≡ true → s ≢ txt "Completed"
unfolding starts_with
not_init s h e = false≢true (sym (ap (starts_with (txt "Init:")) e) ∙ h)

adjusted_idle :
    (result : ContainerStatusResult) → adjusted result ≡ txt "Completed" → result.running ≡ false
unfolding text_beq
adjusted_idle result h = elim (Bool-cases result.running) [
  | inr idle ↦ idle
  | inl running ↦ elim (Bool-cases (result.status == txt "Completed")) [
    | inl same ↦
        absurd (
          false≢true ((text_beq_iff (txt "Running") (txt "Completed")).1 (rw (running, same) at h)))
    | inr other ↦
        let named = (text_beq_iff result.status (txt "Completed")).1 (rw (running, other) at h) in
        absurd (false≢true (sym other ∙ named))
  ]
]

regular_idle :
    (pod : Pod) (status : PodStatus)
    → (regular_status pod status).value ≡ txt "Completed"
    → (pod.is_deleted ≡ false) × ((containers_result status (phase_of status)).running ≡ false)
unfolding text_beq
regular_idle pod status h = elim (Bool-cases pod.is_deleted) [
  | inl deleted ↦
      absurd (false≢true ((text_beq_iff (txt "Terminating") (txt "Completed")).1 (rw deleted at h)))
  | inr live ↦ (live, adjusted_idle (containers_result status (phase_of status)) (rw live at h))
]

status_idle :
    (pod : Pod) (status : PodStatus)
    → (status_of pod status).value ≡ txt "Completed"
    → (pod.is_deleted ≡ false) × ((containers_result status (phase_of status)).running ≡ false)
unfolding text_beq
status_idle pod status h = elim (Bool-cases (is_lost pod status)) [
  | inl lost ↦
      absurd (false≢true ((text_beq_iff (txt "Unknown") (txt "Completed")).1 (rw lost at h)))
  | inr found ↦ elim (Option-cases (get_init_container_status pod status)) [
    | inl done ↦ regular_idle pod status (rw (found, done) at h)
    | inr (s, waiting) ↦
        absurd (not_init s (init_status-is_init pod status s waiting) (rw (found, waiting) at h))
  ]
]

-- A pod shown as "Completed" is not being deleted, and none of its containers counts as running.
pub completed_idle :
    (pod : Pod) (status : PodStatus) (statuses : List ContainerStatus)
    → pod.status ≡ some status
    → status.container_statuses ≡ some statuses
    → (get_pod_status pod).value ≡ txt "Completed"
    → (pod.is_deleted ≡ false) × (any counts_running statuses ≡ false)
completed_idle pod status statuses at listed shown =
    let (h, k) =
      status_idle pod status
        (sym (ap (λ (f : FieldValue). f.value) (get_pod_status_of pod status at)) ∙ shown) in
    (h, sym (get_container_status_first statuses (phase_of status)).1 ∙ rw listed at k)
