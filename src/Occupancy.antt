-- ===== src/Occupancy.antt =====
-- app/controller.py: the occupancy map, which records the GPUs of each admitted pod under the
-- reservation that it was admitted with.
pub mod Placed
pub mod Budget
use gpu_reservation_controll.Base.{
  ℕ, String, Option, none, some, Bool, true, false, ◌==◌, string_eq, nat_eq, option_eq, ◌&&◌, not,
  List, [], ◌∷◌, Dict, get, insert, erase, has_key, get_or, values, keys, keep, sum_by, first,
  if◌then◌else◌, ◌+◌, ◌-◌,
}
use gpu_reservation_controll.Schemas.{ReservationResponse}
use gpu_reservation_controll.State.{ControllerState}
use gpu_reservation_controll.Guarantee.{find_by_id}

-- `occupancy.setdefault(rid, {})[uid] = gpus`.
unfoldable pub place : ℕ → String → ℕ → Dict ℕ (Dict String ℕ) → Dict ℕ (Dict String ℕ)
place rid uid gpus occupancy = insert rid (insert uid gpus (get_or rid occupancy [])) occupancy

unfoldable pub record_placement : ControllerState → ℕ → String → ℕ → ControllerState
unfolding place
record_placement s rid uid gpus = record s { occupancy = place rid uid gpus s.occupancy }

-- The first reservation whose occupants include the pod.
unfoldable pub holding : String → Dict ℕ (Dict String ℕ) → Option ℕ
holding uid [] = none
holding uid ((rid, occupants) ∷ d) = if has_key uid occupants then some rid else holding uid d

abbrev is_empty : Dict String ℕ → Bool
is_empty [] = true
is_empty (p ∷ d) = false

-- The pod is popped, and a reservation with no pod left goes out of the map.
unfoldable pub vacate : ℕ → String → Dict ℕ (Dict String ℕ) → Dict ℕ (Dict String ℕ)
vacate rid uid occupancy =
    let rest = erase uid (get_or rid occupancy []) in
    if is_empty rest then erase rid occupancy else insert rid rest occupancy

unfoldable pub release_pod : ControllerState → String → ControllerState × Option ℕ
unfolding holding vacate
release_pod s uid = elim (holding uid s.occupancy) [
  | none ↦ (s, none)
  | some rid ↦ (record s { occupancy = vacate rid uid s.occupancy }, some rid)
]

unfoldable pub relink_occupancy : ControllerState → String → ℕ → ℕ → ControllerState
unfolding release_pod record_placement
relink_occupancy s uid rid gpus = record_placement (release_pod s uid).0 rid uid gpus

unfoldable pub rebuild : List (ℕ × String × ℕ) → Dict ℕ (Dict String ℕ) → Dict ℕ (Dict String ℕ)
unfolding place
rebuild [] occupancy = occupancy
rebuild ((rid, uid, gpus) ∷ ps) occupancy = rebuild ps (place rid uid gpus occupancy)

unfoldable pub reconcile_occupancy : ControllerState → List (ℕ × String × ℕ) → ControllerState
unfolding rebuild
reconcile_occupancy s placements = record s { occupancy = rebuild placements [] }

unfoldable pub reservation_gpu_count : ControllerState → ℕ → ℕ
unfolding find_by_id
reservation_gpu_count s rid = elim (find_by_id rid s.reservations) [
  | none ↦ 0
  | some r ↦ r.gpu_count
]

-- A count of 0 leaves 0 in the source's early return and in the subtraction alike.
unfoldable pub available_by_id : ControllerState → ℕ → ℕ
unfolding reservation_gpu_count
available_by_id s rid =
    let count = reservation_gpu_count s rid in
    if count == 0 then 0 else count - sum_by (λ g. g) (values (get_or rid s.occupancy []))
