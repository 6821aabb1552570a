-- ===== src/Processors/Pod/Reports.antt =====
-- processors/pod.rs: which container decides the status of a pod.
use kubectl_nvim.Prelude.{
  unwrap_or, ◌≡◌, refl, Text, Option, none, some, List, [], ◌∷◌, Bool, false, ◌&&◌, any, arith,
}
use kubectl_nvim.Processors.Pod.Types.{ContainerStatus}
use kubectl_nvim.Processors.Pod.Containers.{get_container_status, nonempty, terminated_text}

-- What one container reports.
abbrev pub reported : ContainerStatus → Option Text
reported cs = elim cs.state [
  | none ↦ none
  | some state ↦ elim state.waiting [
    | some waiting ↦ nonempty waiting.reason
    | none ↦ elim state.terminated [ some term ↦ some (terminated_text term) | none ↦ none ]
  ]
]

abbrev pub first_reported : List ContainerStatus → Text → Text
first_reported [] default_status = default_status
first_reported (cs ∷ rest) default_status =
    unwrap_or (first_reported rest default_status) (reported cs)

-- A container that counts as running: it reports nothing, is ready, and its state says so.
abbrev pub counts_running : ContainerStatus → Bool
counts_running cs = elim (reported cs) [
  | some s ↦ false
  | none ↦ elim cs.state [ none ↦ false | some state ↦ cs.ready && state.is_running ]
]

-- The status is what the first of the containers that report anything reports, or else the status
-- given, and the pod runs if any of its containers counts as running.
pub get_container_status_first :
    (statuses : List ContainerStatus) (default_status : Text)
    → ((get_container_status statuses default_status).status
        ≡ first_reported statuses default_status)
      × ((get_container_status statuses default_status).running ≡ any counts_running statuses)
unfolding get_container_status
get_container_status_first [] d = (refl, refl)
get_container_status_first (cs ∷ rest) d = ground (arith, get_container_status_first rest d)
