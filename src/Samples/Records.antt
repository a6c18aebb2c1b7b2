-- ===== src/Samples/Records.antt =====
-- The theorems on occupancy, on reservation lists and on the work queue, at the samples.
use gpu_reservation_controll.Base.{
  Distinct, In, String, [], arith, best, bind_at, collect, contains, erase, false, first, get,
  get_or, has_key, insert, insert_by, keep, max_by, min_by, nat_eq, none, option_eq, refl, some,
  sort_by, string_eq, sum_by, ℕ, ◌+◌, ◌<◌, ◌↔◌, ◌∷◌, ◌≡◌,
}
use gpu_reservation_controll.Schemas.{ReservationResponse, UserBrief, owned_by, slot_end}
use gpu_reservation_controll.State.{ControllerState, QueueEntry, initial, pod_eq}
use gpu_reservation_controll.Matching.{available, find_best_reservation}
use gpu_reservation_controll.Occupancy.{record_placement, relink_occupancy}
use gpu_reservation_controll.Occupancy.Placed.{
  IsValid, at, relink_occupancy-IsValid, relink_occupancy-exact,
}
use gpu_reservation_controll.Occupancy.Budget.{available-record_placement, occupants}
use gpu_reservation_controll.Push.{
  apply_push_to_active, detect_cancelled_in_window, index, owner_change,
  preserve_local_ondemand_leases, prior_owner,
}
use gpu_reservation_controll.Push.Upsert.{
  UniqueIds, apply_push_to_active-UniqueIds, apply_push_to_active-exact, last_listed, last_word,
}
use gpu_reservation_controll.Push.Detection.{
  detect_cancelled_in_window-once, preserve_local_ondemand_leases-exact,
}
use gpu_reservation_controll.NoShow.{reservation_ids, update_noshow_tracking}
use gpu_reservation_controll.Guarantee.{find_by_id}
use gpu_reservation_controll.Queue.{Ask, chosen, enqueue_pod, reconcile_queue}
use gpu_reservation_controll.Queue.Requeue.{reconcile_queue-exact, refreshed}
use gpu_reservation_controll.Queue.Enqueue.{enqueue_pod-exact}
use gpu_reservation_controll.NoShow.Arming.{armed, keeping, update_noshow_tracking-exact}
use gpu_reservation_controll.Samples.{lease, morning, state}

nowhere : (v : String) (q : ℕ) → at q v [] ≡ none
unfolding get_or get
nowhere v q = refl

pub empty-IsValid : IsValid []
empty-IsValid = record { distinct = tt; one_place = λ v q p h k. absurd (h (nowhere v q)) }

abbrev placed : ControllerState
placed = relink_occupancy initial "pod-a" 3 1

placed-IsValid : IsValid placed.occupancy
placed-IsValid = relink_occupancy-IsValid initial "pod-a" empty-IsValid 3 1

relink_occupancy-exact_example : at 3 "pod-a" (relink_occupancy placed "pod-a" 1 1).occupancy ≡ none
relink_occupancy-exact_example = relink_occupancy-exact placed "pod-a" placed-IsValid 1 1 3 "pod-a"

not_there : get "pod-b" (occupants state 1) ≡ none
unfolding keep first sort_by insert_by max_by min_by best contains get get_or insert erase has_key
    owned_by sum_by collect
not_there = refl

two_free : available state morning none ≡ 2
unfolding available keep first sort_by insert_by max_by min_by best contains get get_or insert erase
    has_key owned_by sum_by collect
two_free = refl

available-record_placement_example :
    available (record_placement state 1 "pod-b" 1) morning none + 1 ≡ available state morning none
available-record_placement_example =
    available-record_placement state morning "pod-b" 1 not_there (omega (arith, two_free))

abbrev cancelled : ReservationResponse
cancelled = record morning { status = "cancelled"; cancelled_by_id = some 1 }

abbrev bob : UserBrief
bob = record { id = 6; username = "bob" }

abbrev handed_over : ReservationResponse
handed_over = record morning { user_id = some 6; user = some bob }

apply_push_to_active-exact_example :
    find_by_id 1 (apply_push_to_active state.reservations (cancelled ∷ []))
    ≡ last_word 1 (cancelled ∷ []) (last_listed 1 state.reservations none)
apply_push_to_active-exact_example =
    apply_push_to_active-exact state.reservations (cancelled ∷ []) 1

apply_push_to_active-UniqueIds_example :
    UniqueIds (apply_push_to_active state.reservations (cancelled ∷ []))
apply_push_to_active-UniqueIds_example =
    apply_push_to_active-UniqueIds state.reservations (cancelled ∷ [])

gone : last_word 1 (cancelled ∷ []) (last_listed 1 state.reservations none) ≡ none
unfolding last_word last_listed keep first sort_by insert_by max_by min_by best contains get get_or
    insert erase has_key owned_by sum_by collect
gone = refl

detect_cancelled_in_window-once_example : ¬ In cancelled (
    detect_cancelled_in_window
      (record state { reservations = apply_push_to_active state.reservations (cancelled ∷ []) })
      120
      (cancelled ∷ []))
detect_cancelled_in_window-once_example =
    detect_cancelled_in_window-once state (cancelled ∷ []) (cancelled ∷ []) 120 cancelled gone

from_alice : owner_change state 120 handed_over ≡ some "alice"
unfolding owner_change prior_owner index keep first sort_by insert_by max_by min_by best contains
    get get_or insert erase has_key owned_by sum_by collect
from_alice = refl

preserve_local_ondemand_leases-exact_example :
    In lease (preserve_local_ondemand_leases state 120 (morning ∷ []))
    ↔ In lease state.reservations
      × ((lease.kind ≡ "on_demand")
          × (lease.status ≡ "active")
          × (contains 3 (reservation_ids (morning ∷ [])) ≡ false)
          × (120 < slot_end lease))
preserve_local_ondemand_leases-exact_example =
    preserve_local_ondemand_leases-exact state 120 (morning ∷ []) lease

queue-Distinct : Distinct state.task_queue
unfolding keep first sort_by insert_by max_by min_by best contains get get_or insert erase has_key
    owned_by sum_by collect
queue-Distinct = (refl, tt)

reconcile_queue-exact_example :
    get "pod-c" (reconcile_queue state 120).task_queue
    ≡ bind_at (get "pod-c" state.task_queue) (refreshed state 120 "pod-c")
reconcile_queue-exact_example = reconcile_queue-exact state 120 "pod-c" queue-Distinct

abbrev loaded : ControllerState
loaded = record initial { reservations = state.reservations }

abbrev ask : Ask
ask = record {
  pod_uid = "pod-d";
  pod_name = "pod-d";
  pod_namespace = "alice";
  gpu_class_label = "h100";
  gpu_requested = 1;
  group_label = none;
}

matched : chosen state ask none 120 ≡ some morning
unfolding chosen find_best_reservation keep min_by best contains get owned_by
matched = refl

enqueue_pod-exact_example :
    ((e : QueueEntry) × (get "pod-d" (enqueue_pod state ask none 120).task_queue ≡ some e)
      × (e.reservation.id ≡ 1))
    × (get "pod-c" (enqueue_pod state ask none 120).task_queue ≡ get "pod-c" state.task_queue)
    × (get 1 (enqueue_pod state ask none 120).noshow_deadlines ≡ none)
enqueue_pod-exact_example = enqueue_pod-exact state ask none 120 morning "pod-c" 1 matched refl

update_noshow_tracking-exact_example :
    get 2 (update_noshow_tracking loaded 90 10 5).noshow_deadlines
    ≡ keeping (get 2 loaded.noshow_deadlines) (armed loaded 90 10 5 2 loaded.reservations)
update_noshow_tracking-exact_example = update_noshow_tracking-exact loaded 90 10 5 2
