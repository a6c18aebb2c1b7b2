-- ===== src/State.antt =====
-- app/controller.py: the records that the controller keeps (`QueueEntry`, `OnDemandCandidate`,
-- `PendingStatus`, `GpuPod`, `PodRuntimeView`) and `ControllerState`, with the fields that the
-- modelled operations read or write. Sets are lists of their members.
use gpu_reservation_controll.Base.{
  Eq, Eq_of, Discrete_of, nat_eq, string_eq, ℕ, String, Option, none, Bool, List, [], Dict,
}
use gpu_reservation_controll.Schemas.{ReservationResponse}
use gpu_reservation_controll.Placement.{NodePlacement}

pub record QueueEntry : Type 0 where
  pub pod_uid : String
  pub pod_name : String
  pub pod_namespace : String
  pub gpu_class_label : String
  pub gpu_requested : ℕ
  pub reservation : ReservationResponse
  pub next_attempt_at : ℕ
  pub group_label : Option String
  pub ondemand_ineligibility : List String

pub record OnDemandCandidate : Type 0 where
  pub pod_uid : String
  pub pod_name : String
  pub pod_namespace : String
  pub gpu_class_label : String
  pub gpu_requested : ℕ
  pub min_runtime_seconds : ℕ
  pub pod_created_at : ℕ
  pub next_attempt_at : ℕ
  pub group_label : Option String
  pub usage_group : Option String
  pub usage_group_source : Option String
  pub awaiting_schedule_signal : Bool
  pub held_by_overcommit : Bool
  pub held_by_node_fit : Bool
  pub placement : Option NodePlacement
  pub awaiting_capacity : Bool
  pub best_effort : Bool
  pub lease_error_count : ℕ

pub record PendingStatus : Type 0 where
  pub key : String × String
  pub at : ℕ

pub record GpuPod : Type 0 where
  pub namespace : String
  pub name : String
  pub gpu_class : String
  pub gpu_count : ℕ
  pub node_name : Option String
  pub placement : Option NodePlacement
  pub reservation_id : Option ℕ

pub record PodRuntimeView : Type 0 where
  pub uid : String
  pub namespace : String
  pub name : String
  pub gpu_class : String
  pub gpu_count : ℕ
  pub reservation_id : Option ℕ
  pub node_resident : Bool
  pub terminating : Bool
  pub group_label : Option String
  pub node_name : Option String
  pub termination_warning_at : Option ℕ
  pub node_excluded : Bool

pub record ControllerState : Type 0 where
  pub reservations : List ReservationResponse
  pub gpu_class_labels : Dict ℕ String
  pub required_group_label : Option String
  pub task_queue : Dict String QueueEntry
  pub ondemand_candidates : Dict String OnDemandCandidate
  pub pending_status : Dict String (Dict String PendingStatus)
  pub occupancy : Dict ℕ (Dict String ℕ)
  pub holder_names : Dict String (String × String)
  pub noshow_deadlines : Dict ℕ ℕ
  pub noshow_reservation_ids : List ℕ
  pub pending_noshow_cancels : List ℕ
  pub claimed_reservation_ids : List ℕ
  pub preemption_fired : Dict ℕ (List String)
  pub overcommitted_gpu_classes : List String
  pub physical_gpu_capacity : Dict String ℕ

-- `ControllerState()`.
abbrev pub initial : ControllerState
initial = record {
  reservations = [];
  gpu_class_labels = [];
  required_group_label = none;
  task_queue = [];
  ondemand_candidates = [];
  pending_status = [];
  occupancy = [];
  holder_names = [];
  noshow_deadlines = [];
  noshow_reservation_ids = [];
  pending_noshow_cancels = [];
  claimed_reservation_ids = [];
  preemption_fired = [];
  overcommitted_gpu_classes = [];
  physical_gpu_capacity = [];
}

-- Python compares two records field by field.
pub GpuPod-discrete : Discrete GpuPod
GpuPod-discrete = hlevel (number_discrete, text_discrete)
  where
    number_discrete : Discrete ℕ
    number_discrete = Discrete_of

    text_discrete : Discrete String
    text_discrete = Discrete_of

instance abbrev pub pod_eq : Eq GpuPod
pod_eq = Eq_of GpuPod-discrete
