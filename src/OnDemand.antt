-- ===== src/OnDemand.antt =====
-- app/controller.py: the pods that wait for an on-demand lease, and how much of a class the
-- calendar commits over the window of a lease. `add_ondemand_candidate` reads the clock itself;
-- the instant is the argument `now` here.
pub mod Peak
use gpu_reservation_controll.Base.{
  ℕ, String, Option, none, some, Bool, true, false, ◌==◌, string_eq, nat_eq, option_eq, ◌&&◌, ◌||◌,
  not, List, [], ◌∷◌, map, Dict, get, has_key, insert, erase, values, any, keep, contains, sum_by,
  union, sort_by, ltb, leb, if◌then◌else◌,
}
use gpu_reservation_controll.Schemas.{ReservationResponse, slot_start, slot_end}
use gpu_reservation_controll.State.{ControllerState, OnDemandCandidate}
use gpu_reservation_controll.Matching.{effective_label}

-- `any(pod_uid in occupants for occupants in occupancy.values())`.
unfoldable pub is_placed : String → ControllerState → Bool
is_placed pod_uid s = any (has_key pod_uid) (values s.occupancy)

unfoldable pub add_ondemand_candidate :
    ControllerState
    → String
    → String
    → String
    → String
    → ℕ
    → ℕ
    → ℕ
    → Option String
    → Option String
    → Bool
    → Option String
    → ℕ
    → ControllerState
unfolding is_placed
add_ondemand_candidate s pod_uid pod_name pod_namespace gpu_class_label gpu_requested
      min_runtime_seconds pod_created_at group_label usage_group best_effort usage_group_source
      now =
    if is_placed pod_uid s || has_key pod_uid s.ondemand_candidates then s else record s {
      ondemand_candidates =
          insert pod_uid
            (record {
              pod_uid = pod_uid;
              pod_name = pod_name;
              pod_namespace = pod_namespace;
              gpu_class_label = gpu_class_label;
              gpu_requested = gpu_requested;
              min_runtime_seconds = min_runtime_seconds;
              pod_created_at = pod_created_at;
              next_attempt_at = now;
              group_label = group_label;
              usage_group = usage_group;
              usage_group_source = usage_group_source;
              awaiting_schedule_signal = false;
              held_by_overcommit = false;
              held_by_node_fit = false;
              placement = none;
              awaiting_capacity = false;
              best_effort = best_effort;
              lease_error_count = 0;
            })
            s.ondemand_candidates;
    }

unfoldable pub remove_ondemand_candidate : ControllerState → String → ControllerState
remove_ondemand_candidate s pod_uid = record s {
  ondemand_candidates = erase pod_uid s.ondemand_candidates;
}

-- The reservations that hold capacity of a class.
unfoldable pub commits : ControllerState → String → ReservationResponse → Bool
commits s label r =
    (r.kind == "booking" || r.kind == "on_demand")
    && (not (contains r.id s.noshow_reservation_ids) && (effective_label s r == some label))

-- The rows that a window meets.
unfoldable pub committed_rows : ControllerState → String → ℕ → ℕ → List ReservationResponse
unfolding commits
committed_rows s label start end =
    keep (λ r. commits s label r && (ltb (slot_start r) end && ltb start (slot_end r)))
      s.reservations

-- `slot_start(r) <= t < slot_end(r)`.
unfoldable pub runs_at : ℕ → ReservationResponse → Bool
runs_at t r = leb (slot_start r) t && ltb t (slot_end r)

unfoldable pub committed_at : List ReservationResponse → ℕ → ℕ
unfolding runs_at
committed_at rows t = sum_by (λ r. r.gpu_count) (keep (runs_at t) rows)

-- The start of the window and the starts inside it, in order.
unfoldable pub instants : List ReservationResponse → ℕ → List ℕ
instants rows start =
    sort_by (λ t. t)
      (union (start ∷ []) (map slot_start (keep (λ r. ltb start (slot_start r)) rows)))

-- `if committed > peak: peak, peak_at = committed, t`.
unfoldable pub higher : List ReservationResponse → ℕ × ℕ → ℕ → ℕ × ℕ
higher rows found t =
    let committed = committed_at rows t in if ltb found.0 committed then (committed, t) else found

unfoldable pub peak_loop : List ReservationResponse → ℕ × ℕ → List ℕ → ℕ × ℕ
unfolding higher
peak_loop rows found [] = found
peak_loop rows found (t ∷ ts) = peak_loop rows (higher rows found t) ts

unfoldable pub peak_committed_gpus : ControllerState → String → ℕ → ℕ → ℕ × ℕ
unfolding committed_rows instants peak_loop
peak_committed_gpus s label start end =
    let rows = committed_rows s label start end in peak_loop rows (0, start) (instants rows start)
