-- ===== src/Samples/Admission.antt =====
-- The theorems on admission at small states.
use gpu_reservation_controll.Base.{
  Distinct, String, [], arith, contains, false, get, get_or, if◌then◌else◌, keep, leb, nat_eq, none,
  option_eq, pos, refl, some, sort_by, string_eq, sum_by, true, union, ◌&&◌, ◌*◌, ◌+◌, ◌-ℤ◌, ◌<◌,
  ◌==◌, ◌∷◌, ◌≡◌, ◌≢◌, ◌≤◌, ◌⊎◌,
}
use gpu_reservation_controll.State.{ControllerState, OnDemandCandidate, QueueEntry, initial, pod_eq}
use gpu_reservation_controll.Matching.{available, effective_label, gpus_of}
use gpu_reservation_controll.Occupancy.{holding, record_placement, release_pod, relink_occupancy}
use gpu_reservation_controll.Occupancy.Placed.{IsValid, at, relink_occupancy-IsValid}
use gpu_reservation_controll.Occupancy.Budget.{occupants}
use gpu_reservation_controll.OnDemand.{committed_at}
use gpu_reservation_controll.OnDemand.Peak.{calendar}
use gpu_reservation_controll.Nodes.{NodeState, no_nodes}
use gpu_reservation_controll.Admission.{Shared, after_read_pod, hold_slot, try_apply_toleration}
use gpu_reservation_controll.Admission.Apply.{
  try_apply_toleration-budget, try_apply_toleration-rollback,
}
use gpu_reservation_controll.Admission.Ranking.{
  IsUnique, IsWithin, map_granted_uids, map_granted_uids-exact,
}
use gpu_reservation_controll.Admission.Retry.{
  LeaseAttempt, backoff, is_rested, schedule_after_denial, schedule_after_denial-exact,
}
use gpu_reservation_controll.Admission.Fit.{NodeFit, hold_on_fit, node_fit, opening}
use gpu_reservation_controll.Admission.Room.{hold_on_fit-room}
use gpu_reservation_controll.Samples.{state, waiting}
use gpu_reservation_controll.Samples.Records.{empty-IsValid}

map_granted_uids-exact_example :
    IsUnique (map_granted_uids ("a" ∷ "b" ∷ []) ("b" ∷ "x" ∷ "a" ∷ "b" ∷ []))
    × ((u : String)
        → contains u (map_granted_uids ("a" ∷ "b" ∷ []) ("b" ∷ "x" ∷ "a" ∷ "b" ∷ []))
          ≡ (contains u ("b" ∷ "x" ∷ "a" ∷ "b" ∷ []) && contains u ("a" ∷ "b" ∷ [])))
    × IsWithin
        (map_granted_uids ("a" ∷ "b" ∷ []) ("b" ∷ "x" ∷ "a" ∷ "b" ∷ []))
        ("b" ∷ "x" ∷ "a" ∷ "b" ∷ [])
map_granted_uids-exact_example =
    map_granted_uids-exact ("a" ∷ "b" ∷ []) ("b" ∷ "x" ∷ "a" ∷ "b" ∷ [])

abbrev asking : OnDemandCandidate
asking = record {
  pod_uid = "pod-d";
  pod_name = "pod-d";
  pod_namespace = "alice";
  gpu_class_label = "h100";
  gpu_requested = 2;
  min_runtime_seconds = 3600;
  pod_created_at = 90;
  next_attempt_at = 100;
  group_label = none;
  usage_group = none;
  usage_group_source = none;
  awaiting_schedule_signal = false;
  held_by_overcommit = false;
  held_by_node_fit = false;
  placement = none;
  awaiting_capacity = false;
  best_effort = false;
  lease_error_count = 2;
}

abbrev denied : LeaseAttempt
denied = record {
  reservation = none;
  status = some 409;
  detail = none;
  code = some "capacity_group";
  app_retryable = some true;
  not_before = some 500000000;
}

schedule_after_denial-exact_example :
    (100 + 1000000 * 200 ≤ (schedule_after_denial asking denied 200 100).next_attempt_at)
    × ((schedule_after_denial asking denied 200 100).next_attempt_at ≤ 100 + 1000000 * 1800)
    × (((denied.status ≡ some 409)
          × (denied.app_retryable ≡ some false)
          × ((schedule_after_denial asking denied 200 100).lease_error_count ≡ 3)
          × ((schedule_after_denial asking denied 200 100).awaiting_capacity ≡ false)
          × ((schedule_after_denial asking denied 200 100).next_attempt_at
              ≡ 100 + 1000000 * backoff 200 2))
        ⊎ (((denied.status ≢ some 409) ⊎ (denied.app_retryable ≢ some false))
            × ((schedule_after_denial asking denied 200 100).lease_error_count ≡ 0)
            × ((schedule_after_denial asking denied 200 100).awaiting_capacity ≡ true)
            × (leb (schedule_after_denial asking denied 200 100).next_attempt_at 500000000
                ≡ is_rested 200 100 (some 500000000) 500000000)))
schedule_after_denial-exact_example =
    schedule_after_denial-exact asking denied 200 100 500000000 (omega arith) (omega arith)

abbrev idle : Shared
idle = record { controller = initial; nodes = no_nodes }

abbrev entry : QueueEntry
entry = waiting 8

abbrev alone : Shared → Shared
alone w = w

nobody : Distinct (occupants initial 8)
unfolding get_or get
nobody = tt

try_apply_toleration-budget_example :
    ((available initial entry.reservation (some "pod-c") < 1)
      × ((try_apply_toleration idle "pod-c" entry 200 10 none false alone).0 ≡ idle)
      × ((try_apply_toleration idle "pod-c" entry 200 10 none false alone).2 ≡ false))
    ⊎ ((gpus_of none (occupants (hold_slot idle "pod-c" entry).controller 8) ≤ 2)
        × (try_apply_toleration idle "pod-c" entry 200 10 none false alone
            ≡ after_read_pod (hold_slot idle "pod-c" entry) "pod-c" entry 200 10 none false))
try_apply_toleration-budget_example =
    try_apply_toleration-budget idle "pod-c" entry 200 10 none false alone nobody (omega arith)

held_IsValid : IsValid (hold_slot idle "pod-c" entry).controller.occupancy
unfolding hold_slot relink_occupancy release_pod holding record_placement
held_IsValid = relink_occupancy-IsValid initial "pod-c" empty-IsValid 8 1

two_free : 1 ≤ available initial entry.reservation (some "pod-c")
unfolding available gpus_of get_or get keep sum_by
two_free = omega arith

unread : (try_apply_toleration idle "pod-c" entry 200 10 none false alone).2 ≡ false
unfolding try_apply_toleration available gpus_of get_or get keep sum_by after_read_pod
unread = refl

try_apply_toleration-rollback_example :
    (at 8 "pod-c"
        (try_apply_toleration idle "pod-c" entry 200 10 none false alone).0.controller.occupancy
      ≡ (if entry.pod_uid == "pod-c"
          then none
          else at 8 "pod-c" (hold_slot idle "pod-c" entry).controller.occupancy))
    × ((try_apply_toleration idle "pod-c" entry 200 10 none false alone).1.next_attempt_at
        ≡ 10 + 200 * 1000000)
try_apply_toleration-rollback_example =
    try_apply_toleration-rollback idle "pod-c" entry 200 10 none false alone held_IsValid two_free
      unread 8 "pod-c"

abbrev overcounted : ControllerState
overcounted = record state {
  overcommitted_gpu_classes = "h100" ∷ [];
  physical_gpu_capacity = ("h100", 8) ∷ [];
}

not_held : (hold_on_fit overcounted no_nodes true "pod-d" asking none 60 100).1 ≡ false
unfolding hold_on_fit contains get_or sort_by union keep effective_label committed_at sum_by get
not_held = refl

is_over : contains "h100" overcounted.overcommitted_gpu_classes ≡ true
unfolding contains
is_over = refl

hold_on_fit-room_example :
    calendar overcounted "h100" 120 + 2 ≤ get_or "h100" overcounted.physical_gpu_capacity 0
hold_on_fit-room_example =
    hold_on_fit-room overcounted no_nodes true "pod-d" asking none 60 100 not_held refl is_over 120
      (omega arith) (omega arith)

-- A class whose nodes are known, and an ask of two GPUs that fits on one of them.
abbrev one_node : NodeState
one_node = record no_nodes { node_free_by_class = ("h100", pos 4) ∷ [] }

abbrev roomy : NodeFit
roomy = record { largest_free = pos 4; claimed = 0; narrowing = none }

judged : node_fit one_node "pod-d" asking none ≡ some roomy
unfolding node_fit get opening keep sum_by
judged = refl

not_held_there : (hold_on_fit state one_node true "pod-d" asking none 60 100).1 ≡ false
unfolding hold_on_fit contains get_or sort_by union keep effective_label committed_at sum_by get
    node_fit opening ◌-ℤ◌
not_held_there = refl
