-- ===== src/Matching.antt =====
-- app/controller.py: which reservation a pod is matched to. `find_best_reservation` reads the
-- clock itself; the instant is the argument `now` here.
pub mod NearMiss
pub mod Selection
use gpu_reservation_controll.Base.{
  ℕ, String, Option, none, some, Bool, true, false, ◌==◌, string_eq, nat_eq, option_eq, ◌&&◌, not,
  List, [], ◌∷◌, Dict, get, get_or, keep, contains, sum_by, min_by, best_of, ltb, leb, is_none,
  if◌then◌else◌, ◌+◌, ◌-◌,
}
use gpu_reservation_controll.Schemas.{
  ReservationResponse, GroupBrief, slot_start, slot_end, owned_by, is_booking,
}
use gpu_reservation_controll.State.{ControllerState}

-- `sum(g for uid, g in occupants.items() if uid != exclude_uid)`.
unfoldable pub gpus_of : Option String → Dict String ℕ → ℕ
gpus_of exclude occupants = sum_by (λ kv. kv.1) (keep (λ kv. not (some kv.0 == exclude)) occupants)

module _ (s : ControllerState) where
  unfoldable pub available : ReservationResponse → Option String → ℕ
  unfolding gpus_of
  available r exclude = r.gpu_count - gpus_of exclude (get_or r.id s.occupancy [])

  -- The cached label, or else the one in the reservation itself.
  unfoldable pub effective_label : ReservationResponse → Option String
  effective_label r = elim (get r.gpu_class_id s.gpu_class_labels) [
    | none ↦ r.gpu_class.label_value
    | some label ↦ some label
  ]

  unfoldable pub group_ok : ReservationResponse → Option String → Bool
  group_ok r group_label = elim s.required_group_label [
    | none ↦ true
    | some _ ↦ elim r.group [ none ↦ false | some g ↦ some g.name == group_label ]
  ]

  -- The conditions that `find_best_reservation` and `find_admittable_reservation` share.
  unfoldable pub matches : String → String → Option String → ℕ → ReservationResponse → Bool
  unfolding group_ok
  matches namespace label group_label now r =
      is_booking r
      && (owned_by namespace r
          && ((get r.gpu_class_id s.gpu_class_labels == some label)
              && (group_ok r group_label
                  && (ltb now (slot_end r) && not (contains r.id s.noshow_reservation_ids)))))

  abbrev is_empty : List ReservationResponse → Bool
  is_empty [] = true
  is_empty (r ∷ rs) = false

  -- Those big enough for the pod, unless there are none.
  unfoldable pub preferring_big_enough :
      Option ℕ → List ReservationResponse → List ReservationResponse
  preferring_big_enough none rs = rs
  preferring_big_enough (some gpus) rs =
      let big_enough = keep (λ r. leb gpus r.gpu_count) rs in
      if is_empty big_enough then rs else big_enough

  unfoldable pub find_best_reservation :
      String → String → Option String → Option ℕ → ℕ → Option ReservationResponse
  unfolding matches preferring_big_enough
  find_best_reservation namespace label group_label gpu_requested now = min_by slot_start (
      preferring_big_enough gpu_requested
        (keep (matches namespace label group_label now) s.reservations))

  unfoldable pub admittable :
      String → String → ℕ → ℕ → ℕ → Option String → ReservationResponse → Bool
  unfolding matches available
  admittable namespace label gpus now horizon group_label r =
      matches namespace label group_label now r
      && (leb (slot_start r) (now + horizon) && leb gpus (available r none))

  unfoldable pub find_admittable_reservation :
      String → String → ℕ → ℕ → ℕ → Option String → Option ReservationResponse
  unfolding admittable
  find_admittable_reservation namespace label gpus now horizon group_label =
      min_by slot_start
        (keep (admittable namespace label gpus now horizon group_label) s.reservations)

  -- `_spare(r) >= gpus`, with the running tally on the other side of the order.
  unfoldable pub open_for :
      String → String → ℕ → ℕ → Dict ℕ ℕ → Option String → ReservationResponse → Bool
  unfolding available effective_label group_ok
  open_for namespace label now gpus extra_used group_label r =
      is_booking r
      && (owned_by namespace r
          && ((effective_label r == some label)
              && (group_ok r group_label
                  && (leb (slot_start r) now
                      && (ltb now (slot_end r)
                          && (not (contains r.id s.noshow_reservation_ids)
                              && leb (gpus + get_or r.id extra_used 0) (available r none)))))))

  -- `_spare(r)`, which is not negative where `open_for` holds.
  unfoldable pub spare : Dict ℕ ℕ → ReservationResponse → ℕ
  unfolding available
  spare extra_used r = available r none - get_or r.id extra_used 0

  -- The order of the keys `(slot_end(r), _spare(r), r.id)`.
  unfoldable pub outlasts : Dict ℕ ℕ → ReservationResponse → ReservationResponse → Bool
  unfolding spare
  outlasts extra_used b a =
      if ltb (slot_end a) (slot_end b)
      then true
      else (if ltb (slot_end b) (slot_end a)
          then false
          else (if ltb (spare extra_used a) (spare extra_used b)
              then true
              else (if ltb (spare extra_used b) (spare extra_used a)
                  then false
                  else ltb a.id b.id)))

  unfoldable pub find_open_booking_for :
      String → String → ℕ → ℕ → Dict ℕ ℕ → Option String → Option ReservationResponse
  unfolding open_for outlasts
  find_open_booking_for namespace label now gpus extra_used group_label =
      best_of (outlasts extra_used)
        (keep (open_for namespace label now gpus extra_used group_label) s.reservations)
