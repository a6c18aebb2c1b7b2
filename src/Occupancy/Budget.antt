-- ===== src/Occupancy/Budget.antt =====
-- The GPUs of a reservation that app/controller.py counts as free.
use gpu_reservation_controll.Base.{
  ℕ, ◌≡◌, ◌≤◌, ◌+◌, ◌-◌, refl, ap, String, Option, none, string_eq, nat_eq, option_eq, [], ◌∷◌,
  Dict, get, insert, get_or, arith, keep, sum_by, get_or-insert_self,
}
use gpu_reservation_controll.Schemas.{ReservationResponse}
use gpu_reservation_controll.State.{ControllerState}
use gpu_reservation_controll.Matching.{gpus_of, available}
use gpu_reservation_controll.Occupancy.{record_placement}

-- An entry that is new adds its GPUs to the total.
pub gpus_of-insert :
    (uid : String) (gpus : ℕ) (occupants : Dict String ℕ)
    → get uid occupants ≡ none
    → gpus_of none (insert uid gpus occupants) ≡ gpus_of none occupants + gpus
unfolding gpus_of get insert keep sum_by
gpus_of-insert uid gpus [] h = omega arith
gpus_of-insert uid gpus ((v, g) ∷ d) h = ground (arith, gpus_of-insert uid gpus d)

-- What the map holds under a reservation.
abbrev pub occupants : ControllerState → ℕ → Dict String ℕ
occupants s rid = get_or rid s.occupancy []

available_eq :
    (s : ControllerState) (r : ReservationResponse) (exclude : Option String)
    → available s r exclude ≡ r.gpu_count - gpus_of exclude (occupants s r.id)
unfolding available
available_eq s r exclude = refl

occupants-record_placement :
    (s : ControllerState) (rid : ℕ) (uid : String) (gpus : ℕ)
    → occupants (record_placement s rid uid gpus) rid ≡ insert uid gpus (occupants s rid)
unfolding record_placement
occupants-record_placement s rid uid gpus = get_or-insert_self rid _ [] s.occupancy

-- Recording a pod that is not under the reservation yet, and that fits, takes exactly its GPUs from
-- those that are free.
pub available-record_placement :
    (s : ControllerState) (r : ReservationResponse) (uid : String) (gpus : ℕ)
    → get uid (occupants s r.id) ≡ none
    → gpus ≤ available s r none
    → available (record_placement s r.id uid gpus) r none + gpus ≡ available s r none
available-record_placement s r uid gpus h fits = omega (
  arith,
  available_eq s r none,
  available_eq (record_placement s r.id uid gpus) r none,
  ap (gpus_of none) (occupants-record_placement s r.id uid gpus),
  gpus_of-insert uid gpus (occupants s r.id) h,
)
