-- ===== src/Adoption.antt =====
-- app/controller.py: re-linking pods to a booking that their user holds and that is open now.
-- `plan_pod_adoptions` does so for pods past their guarantee, `plan_ondemand_merges` for pods on a
-- just-in-time lease. Both run the same loop, with a tally of the GPUs that the pass has assigned.
pub mod Tally
pub mod Rescue
use gpu_reservation_controll.Base.{
  ℕ, String, Option, none, some, Bool, true, false, ◌==◌, string_eq, nat_eq, option_eq, ◌&&◌, not,
  List, [], ◌∷◌, Dict, insert, get_or, ltb, is_none, if◌then◌else◌, ◌+◌,
}
use gpu_reservation_controll.Schemas.{ReservationResponse}
use gpu_reservation_controll.State.{ControllerState, PodRuntimeView}
use gpu_reservation_controll.Matching.{find_open_booking_for}
use gpu_reservation_controll.Guarantee.{find_by_id, past_guarantee}

-- A pod that the controller admitted and that holds GPUs of a node.
unfoldable pub is_present : PodRuntimeView → Bool
is_present p =
    not (is_none p.reservation_id) && (p.node_resident && (not p.terminating && ltb 0 p.gpu_count))

module _ (s : ControllerState) (now : ℕ) where
  -- The open booking that can take the pod, unless the pod is on it already.
  unfoldable pub new_booking : PodRuntimeView → Dict ℕ ℕ → Option ReservationResponse
  new_booking p extra_used =
      elim (find_open_booking_for s p.namespace p.gpu_class now p.gpu_count extra_used
        p.group_label) [
          | none ↦ none
          | some r ↦ if some r.id == p.reservation_id then none else some r
        ]

  unfoldable pub adoption : PodRuntimeView → Dict ℕ ℕ → Option ReservationResponse
  unfolding is_present new_booking
  adoption p extra_used =
      if is_present p && past_guarantee s p.reservation_id now
      then new_booking p extra_used
      else none

  unfoldable pub on_lease : Option ℕ → Bool
  unfolding find_by_id
  on_lease none = false
  on_lease (some rid) = elim (find_by_id rid s.reservations) [
    | none ↦ false
    | some r ↦ r.kind == "on_demand"
  ]

  unfoldable pub merge : PodRuntimeView → Dict ℕ ℕ → Option ReservationResponse
  unfolding is_present on_lease new_booking
  merge p extra_used =
      if is_present p && on_lease p.reservation_id then new_booking p extra_used else none

-- The loop over the pods: what `choose` answers is assigned, and added to the tally.
unfoldable pub assign :
    (PodRuntimeView → Dict ℕ ℕ → Option ReservationResponse)
    → List PodRuntimeView
    → Dict ℕ ℕ
    → List (PodRuntimeView × ReservationResponse)
assign choose [] extra_used = []
assign choose (p ∷ ps) extra_used = elim (choose p extra_used) [
  | none ↦ assign choose ps extra_used
  | some r ↦
      (p, r) ∷ assign choose ps (insert r.id (get_or r.id extra_used 0 + p.gpu_count) extra_used)
]

unfoldable pub plan_pod_adoptions :
    ControllerState → List PodRuntimeView → ℕ → List (PodRuntimeView × ReservationResponse)
unfolding assign adoption
plan_pod_adoptions s pods now = assign (adoption s now) pods []

unfoldable pub plan_ondemand_merges :
    ControllerState → List PodRuntimeView → ℕ → List (PodRuntimeView × ReservationResponse)
unfolding assign merge
plan_ondemand_merges s pods now = assign (merge s now) pods []
