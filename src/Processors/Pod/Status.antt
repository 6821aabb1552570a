-- ===== src/Processors/Pod/Status.antt =====
-- processors/pod.rs: `get_pod_status`, `get_ready` and `color_usage`.
use kubectl_nvim.Prelude.{
  unwrap_or, ℕ, Text, txt, text_eq, option_eq, ◌==◌, Option, none, some, [], ◌∷◌, ◌++◌, Bool, false,
  ◌&&◌, if◌then◌else◌, length, leb, keep, nat_eq,
}
use kubectl_nvim.Events.Color.{color_status}
use kubectl_nvim.Events.Symbols
use kubectl_nvim.Processors.Fields.{FieldValue, decimal}
use kubectl_nvim.Processors.Pod.Types.{ContainerStatus, PodStatus, Pod}
use kubectl_nvim.Processors.Pod.Containers.{
  get_init_container_status, ContainerStatusResult, get_container_status,
}

-- A field with its colour.
abbrev pub coloured : Text → Option Text → FieldValue
coloured value hint = record {
  value = value;
  symbol = some (color_status value);
  sort_by = none;
  hint = hint;
}

abbrev pub phase_of : PodStatus → Text
phase_of status = unwrap_or (unwrap_or (txt "Unknown") status.phase) status.reason

abbrev pub is_lost : Pod → PodStatus → Bool
is_lost pod status = pod.is_deleted && (status.reason == some (txt "NodeLost"))

abbrev pub containers_result : PodStatus → Text → ContainerStatusResult
containers_result status phase = elim status.container_statuses [
  | none ↦ record { status = phase; running = false; hint = none }
  | some statuses ↦ get_container_status statuses phase
]

abbrev pub adjusted : ContainerStatusResult → Text
adjusted result =
    if result.running && (result.status == txt "Completed") then txt "Running" else result.status

abbrev pub regular_status : Pod → PodStatus → FieldValue
regular_status pod status =
    let result = containers_result status (phase_of status) in
    if pod.is_deleted
    then coloured (txt "Terminating") none
    else coloured (adjusted result) result.hint

abbrev pub status_of : Pod → PodStatus → FieldValue
status_of pod status =
    if is_lost pod status
    then coloured (txt "Unknown") none
    else elim (get_init_container_status pod status) [
      | some s ↦ coloured s none
      | none ↦ regular_status pod status
    ]

unfoldable pub get_pod_status : Pod → FieldValue
get_pod_status pod = elim pod.status [
  | none ↦ coloured (txt "Unknown") none
  | some status ↦ status_of pod status
]

abbrev pub container_count : Pod → ℕ
container_count pod = elim pod.spec [ none ↦ 0 | some spec ↦ length spec.containers ]

abbrev pub ready_count : Pod → ℕ
ready_count pod = elim pod.status [
  | none ↦ 0
  | some status ↦
      length (keep (λ (cs : ContainerStatus). cs.ready) (unwrap_or [] status.container_statuses))
]

unfoldable pub get_ready : Pod → FieldValue → FieldValue
get_ready pod pod_status =
    let ready = ready_count pod in
    let containers = container_count pod in
    let symbol = if nat_eq ready containers then Symbols.note else Symbols.deprecated in
    record {
      value = decimal ready ++ b'/' ∷ decimal containers;
      symbol = some (if pod_status.value == txt "Completed" then Symbols.note else symbol);
      sort_by = some ready;
      hint = none;
    }

unfoldable pub color_usage : ℕ → Text
color_usage p =
    if leb 90 p
    then color_status (txt "Red")
    else if leb 80 p
    then color_status (txt "Yellow")
    else color_status (txt "Green")
