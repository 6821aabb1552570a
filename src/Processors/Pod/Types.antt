-- ===== src/Processors/Pod/Types.antt =====
-- The fields of a Kubernetes `Pod` that processors/pod.rs reads.
use kubectl_nvim.Prelude.{Text, Option, List, Bool}
use kubectl_nvim.Processors.Fields.{ℤ}

pub record Waiting : Type 0 where
  pub reason : Option Text
  pub message : Option Text

pub record Terminated : Type 0 where
  pub exit_code : ℤ
  pub signal : Option ℤ
  pub reason : Option Text
  pub message : Option Text

pub record ContainerState : Type 0 where
  pub waiting : Option Waiting
  pub terminated : Option Terminated
  -- Whether `running` is there.
  pub is_running : Bool

pub record ContainerStatus : Type 0 where
  pub name : Text
  pub ready : Bool
  pub started : Option Bool
  pub state : Option ContainerState

pub record Container : Type 0 where
  pub name : Text
  pub restart_policy : Option Text

pub record PodSpec : Type 0 where
  pub containers : List Container
  pub init_containers : Option (List Container)

pub record PodStatus : Type 0 where
  pub phase : Option Text
  pub reason : Option Text
  pub init_container_statuses : Option (List ContainerStatus)
  pub container_statuses : Option (List ContainerStatus)

pub record Pod : Type 0 where
  -- Whether `metadata.deletion_timestamp` is there.
  pub is_deleted : Bool
  pub spec : Option PodSpec
  pub status : Option PodStatus
