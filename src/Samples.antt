-- ===== src/Samples.antt =====
-- A small state of app/controller.py, with two bookings of one user back to back and a lease, and
-- runs of the theorems on it.
pub mod Examples
pub mod Plans
pub mod Records
pub mod Leases
pub mod OnDemand
pub mod Nodes
pub mod Admission
pub mod Forecast
use gpu_reservation_controll.Base.{
  ℕ, String, Option, none, some, Bool, true, false, List, [], ◌∷◌, Dict,
}
use gpu_reservation_controll.Schemas.{ReservationResponse, UserBrief, GpuClassBrief}
use gpu_reservation_controll.State.{ControllerState, PodRuntimeView, QueueEntry, initial}

abbrev pub alice : UserBrief
alice = record { id = 5; username = "alice" }

abbrev pub h100 : GpuClassBrief
h100 = record { id = 7; name = "H100"; label_value = some "h100" }

abbrev pub row : ℕ → ℕ → ℕ → ℕ → String → ReservationResponse
row rid start end gpus kind = record {
  id = rid;
  user_id = some 5;
  user = some alice;
  group_id = none;
  group = none;
  gpu_class_id = 7;
  gpu_class = h100;
  start_utc = start;
  end_utc = end;
  gpu_count = gpus;
  status = "active";
  kind = kind;
  cancelled_by_id = none;
  cancel_reason = none;
}

abbrev pub morning : ReservationResponse
morning = row 1 100 200 2 "booking"

abbrev pub noon : ReservationResponse
noon = row 2 200 300 2 "booking"

abbrev pub lease : ReservationResponse
lease = row 3 0 150 1 "on_demand"

abbrev pub view : String → Option ℕ → PodRuntimeView
view uid rid = record {
  uid = uid;
  namespace = "alice";
  name = uid;
  gpu_class = "h100";
  gpu_count = 1;
  reservation_id = rid;
  node_resident = true;
  terminating = false;
  group_label = none;
  node_name = some "node-1";
  termination_warning_at = some 110;
  node_excluded = false;
}

-- One pod on the lease, and one whose reservation is gone.
abbrev pub leased : PodRuntimeView
leased = view "pod-a" (some 3)

abbrev pub overdue : PodRuntimeView
overdue = view "pod-b" (some 9)

abbrev pub waiting : ℕ → QueueEntry
waiting rid = record {
  pod_uid = "pod-c";
  pod_name = "pod-c";
  pod_namespace = "alice";
  gpu_class_label = "h100";
  gpu_requested = 1;
  reservation = row rid 0 50 2 "booking";
  next_attempt_at = 0;
  group_label = none;
  ondemand_ineligibility = [];
}

abbrev pub state : ControllerState
state = record initial {
  reservations = morning ∷ noon ∷ lease ∷ [];
  gpu_class_labels = (7, "h100") ∷ [];
  occupancy = (3, ("pod-a", 1) ∷ []) ∷ [];
  noshow_deadlines = (1, 115) ∷ (2, 500) ∷ [];
  task_queue = ("pod-c", waiting 8) ∷ [];
}

abbrev pub pods : List PodRuntimeView
pods = leased ∷ overdue ∷ []

abbrev pub capacity : Dict String ℕ
capacity = ("h100", 2) ∷ []
