-- ===== src/Push.antt =====
-- app/controller.py: how a pushed or fetched reservation list changes the active one, and what is
-- detected while it does (cancellations, changes of owner, leases that a snapshot omits).
pub mod Upsert
pub mod Detection
use gpu_reservation_controll.Base.{
  ℕ, String, Option, none, some, Bool, true, false, ◌==◌, string_eq, nat_eq, option_eq, ◌&&◌, ◌||◌,
  not, List, [], ◌∷◌, Dict, get, insert, erase, values, keep, contains, ltb, leb, is_none,
  if◌then◌else◌,
}
use gpu_reservation_controll.Schemas.{
  ReservationResponse, UserBrief, slot_start, slot_end, is_booking,
}
use gpu_reservation_controll.State.{ControllerState}
use gpu_reservation_controll.NoShow.{reservation_ids}

-- `{r.id: r for r in rows}`, over what `by_id` holds already.
unfoldable pub index :
    List ReservationResponse → Dict ℕ ReservationResponse → Dict ℕ ReservationResponse
index [] by_id = by_id
index (r ∷ rs) by_id = index rs (insert r.id r by_id)

unfoldable pub upsert :
    ReservationResponse → Dict ℕ ReservationResponse → Dict ℕ ReservationResponse
upsert r by_id = if r.status == "active" then insert r.id r by_id else erase r.id by_id

unfoldable pub upsert_all :
    List ReservationResponse → Dict ℕ ReservationResponse → Dict ℕ ReservationResponse
unfolding upsert
upsert_all [] by_id = by_id
upsert_all (r ∷ rs) by_id = upsert_all rs (upsert r by_id)

unfoldable pub apply_push_to_active :
    List ReservationResponse → List ReservationResponse → List ReservationResponse
unfolding index upsert_all
apply_push_to_active current pushed = values (upsert_all pushed (index current []))

module _ (s : ControllerState) (now : ℕ) where
  unfoldable pub cancelled_in_window : ReservationResponse → Bool
  cancelled_in_window r =
      (r.status == "cancelled")
      && (ltb now (slot_end r)
          && (not (contains r.id s.noshow_reservation_ids)
              && contains r.id (reservation_ids s.reservations)))

  unfoldable pub detect_cancelled_in_window : List ReservationResponse → List ReservationResponse
  unfolding cancelled_in_window
  detect_cancelled_in_window = keep cancelled_in_window

  -- The owner of `prior`, if `r` is in progress and has another.
  unfoldable pub prior_owner : ReservationResponse → Option ReservationResponse → Option String
  prior_owner r none = none
  prior_owner r (some prior) = elim prior.user [
    | none ↦ none
    | some u ↦
        if is_none prior.user_id || (prior.user_id == r.user_id)
        then none
        else (if leb (slot_start r) now && ltb now (slot_end r) then some u.username else none)
  ]

  unfoldable pub owner_change : ReservationResponse → Option String
  unfolding prior_owner index
  owner_change r =
      if (r.status == "active") && (is_booking r && not (is_none r.user))
      then prior_owner r (get r.id (index s.reservations []))
      else none

  unfoldable pub detect_owner_changed_in_window :
      List ReservationResponse → List (ReservationResponse × String)
  unfolding owner_change
  detect_owner_changed_in_window [] = []
  detect_owner_changed_in_window (r ∷ rs) = elim (owner_change r) [
    | none ↦ detect_owner_changed_in_window rs
    | some name ↦ (r, name) ∷ detect_owner_changed_in_window rs
  ]

  unfoldable pub omitted_lease : List ReservationResponse → ReservationResponse → Bool
  omitted_lease fetched r =
      (r.kind == "on_demand")
      && ((r.status == "active")
          && (not (contains r.id (reservation_ids fetched)) && ltb now (slot_end r)))

  unfoldable pub preserve_local_ondemand_leases :
      List ReservationResponse → List ReservationResponse
  unfolding omitted_lease
  preserve_local_ondemand_leases fetched = keep (omitted_lease fetched) s.reservations
