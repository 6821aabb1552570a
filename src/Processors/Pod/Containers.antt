-- ===== src/Processors/Pod/Containers.antt =====
-- processors/pod.rs: what the containers of a pod report.
use kubectl_nvim.Prelude.{
  unwrap_or, ℕ, ◌+◌, Text, txt, text_eq, option_eq, ◌==◌, Option, none, some, List, [], ◌∷◌, ◌++◌,
  Bool, true, false, not, ◌&&◌, if◌then◌else◌, is_empty, HashMap, lookup, insert, length,
}
use kubectl_nvim.Processors.Fields.{pos, decimal, int_text, is_zero}
use kubectl_nvim.Processors.Pod.Types.{
  Waiting, Terminated, ContainerState, ContainerStatus, Container, PodStatus, Pod,
}

abbrev pub init_text : Text → Text
init_text s = txt "Init:" ++ s

abbrev pub progress : ℕ → ℕ → Text
progress count init_count = init_text (decimal count ++ b'/' ∷ decimal init_count)

-- `none` is the empty string, which is no status.
abbrev pub init_terminated : Terminated → Option Text
init_terminated term =
    let reason = unwrap_or [] term.reason in
    let signal = unwrap_or (pos 0) term.signal in
    if is_zero term.exit_code
    then none
    else if not (is_empty reason)
    then some (init_text reason)
    else if not (is_zero signal)
    then some (init_text (txt "Signal:" ++ int_text signal))
    else some (init_text (txt "ExitCode:" ++ int_text term.exit_code))

abbrev pub init_waiting : Option Waiting → Text → Text
init_waiting none fallback = fallback
init_waiting (some wait) fallback =
    let reason = unwrap_or [] wait.reason in
    if not (is_empty reason) && not (reason == txt "PodInitializing")
    then init_text reason
    else fallback

abbrev pub init_state : Option ContainerState → Bool → Bool → Bool → Text → Option Text
init_state none ready started restartable fallback = some fallback
init_state (some state) ready started restartable fallback = elim state.terminated [
  | some term ↦ init_terminated term
  | none ↦
      if restartable && started
      then (if ready then none else some fallback)
      else some (init_waiting state.waiting fallback)
]

unfoldable pub check_init_container_status : ContainerStatus → ℕ → ℕ → Bool → Option Text
check_init_container_status cs count init_count restartable =
    init_state cs.state cs.ready (unwrap_or false cs.started) restartable
      (progress count init_count)

abbrev pub restart_policies : List Container → HashMap Text Bool → HashMap Text Bool
restart_policies [] m = m
restart_policies (c ∷ cs) m =
    restart_policies cs (insert c.name (c.restart_policy == some (txt "Always")) m)

-- The first init container, from number `i` on, that is not done.
unfoldable pub first_init_status : HashMap Text Bool → ℕ → ℕ → List ContainerStatus → Option Text
first_init_status policies i count [] = none
first_init_status policies i count (cs ∷ rest) =
    let later = first_init_status policies (i + 1) count rest in
    elim (check_init_container_status cs (i + 1) count
      (unwrap_or false (lookup cs.name policies))) [ some s ↦ some s | none ↦ later ]

abbrev pub init_statuses : PodStatus → List ContainerStatus
init_statuses status = unwrap_or [] status.init_container_statuses

abbrev pub init_containers : Pod → List Container
init_containers pod = elim pod.spec [ none ↦ [] | some spec ↦ unwrap_or [] spec.init_containers ]

-- `none` is `(status, false)`, and `some s` is `(s, true)`.
unfoldable pub get_init_container_status : Pod → PodStatus → Option Text
get_init_container_status pod status =
    let containers = init_containers pod in
    if is_empty containers
    then none
    else first_init_status (restart_policies containers []) 0 (length containers)
        (init_statuses status)

pub record ContainerStatusResult : Type 0 where
  pub status : Text
  pub running : Bool
  pub hint : Option Text

abbrev pub report : ContainerStatusResult → Text → Option Text → ContainerStatusResult
report result status hint = record result { status = status; hint = hint }

-- A reason, unless it is missing or empty.
abbrev pub nonempty : Option Text → Option Text
nonempty none = none
nonempty (some reason) = if is_empty reason then none else some reason

-- A reason that is there but empty hides the signal.
abbrev pub terminated_text : Terminated → Text
terminated_text term =
    let exit = txt "ExitCode:" ++ int_text term.exit_code in
    elim term.reason [
      | some reason ↦ if is_empty reason then exit else reason
      | none ↦ elim term.signal [
        | some signal ↦ if is_zero signal then exit else txt "Signal:" ++ int_text signal
        | none ↦ exit
      ]
    ]

abbrev pub mark_running :
    ContainerStatus → ContainerState → ContainerStatusResult → ContainerStatusResult
mark_running cs state result =
    if cs.ready && state.is_running then record result { running = true } else result

abbrev pub read_state :
    ContainerStatus → ContainerState → ContainerStatusResult → ContainerStatusResult
read_state cs state result = elim state.waiting [
  | some waiting ↦ elim (nonempty waiting.reason) [
    | some reason ↦ report result reason waiting.message
    | none ↦ mark_running cs state result
  ]
  | none ↦ elim state.terminated [
    | some terminated ↦ report result (terminated_text terminated) terminated.message
    | none ↦ mark_running cs state result
  ]
]

abbrev pub read_status : ContainerStatus → ContainerStatusResult → ContainerStatusResult
read_status cs result = elim cs.state [ none ↦ result | some state ↦ read_state cs state result ]

-- The loop runs from the last container to the first.
unfoldable pub get_container_status : List ContainerStatus → Text → ContainerStatusResult
get_container_status [] default_status = record {
  status = default_status;
  running = false;
  hint = none;
}
get_container_status (cs ∷ rest) default_status =
    read_status cs (get_container_status rest default_status)
