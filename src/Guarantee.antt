-- ===== src/Guarantee.antt =====
-- app/controller.py: the back-to-back chain of a reservation, the runtime guarantee that it gives,
-- and the reservations that a pod under it occupies. The `while True` loop of `_chain_for` visits
-- each candidate at most once, so the number of candidates is enough fuel.
pub mod Chain
pub mod Coverage
use gpu_reservation_controll.Base.{
  ℕ, zero, suc, String, Option, none, some, Bool, true, false, ◌==◌, string_eq, nat_eq, option_eq,
  ◌&&◌, not, List, [], ◌∷◌, map, keep, first, contains, union, max_by, sort_by, ltb, is_none,
  length, if◌then◌else◌,
}
use gpu_reservation_controll.Schemas.{
  ReservationResponse, UserBrief, slot_start, slot_end, owned_by, is_booking,
}
use gpu_reservation_controll.State.{ControllerState}
use gpu_reservation_controll.Matching.{effective_label}

-- `next((r for r in reservations if r.id == rid), None)`.
unfoldable pub find_by_id : ℕ → List ReservationResponse → Option ReservationResponse
find_by_id rid = first (λ r. r.id == rid)

-- The windows that open at `prev_end` and are not in the chain yet.
abbrev pub abutting : List ReservationResponse → List ℕ → ℕ → List ReservationResponse
abutting candidates visited prev_end =
    keep (λ r. not (contains r.id visited) && (slot_start r == prev_end)) candidates

unfoldable pub chain_loop : ℕ → List ReservationResponse → List ℕ → ℕ → List ReservationResponse
chain_loop zero candidates visited prev_end = []
chain_loop (suc fuel) candidates visited prev_end =
    elim (max_by slot_end (abutting candidates visited prev_end)) [
      | none ↦ []
      | some next ↦ next ∷ chain_loop fuel candidates (next.id ∷ visited) (slot_end next)
    ]

-- `slot_end(chain[-1]) if chain else end`.
unfoldable pub chain_end : ℕ → List ReservationResponse → ℕ
chain_end end [] = end
chain_end end (r ∷ rs) = chain_end (slot_end r) rs

module _ (s : ControllerState) where
  -- What makes `r` a link of the chain of `anchor`, apart from its start.
  unfoldable pub extends : ReservationResponse → String → String → ℕ → ReservationResponse → Bool
  unfolding effective_label
  extends anchor namespace label now r =
      not (r.id == anchor.id)
      && (is_booking r
          && (owned_by namespace r
              && ((effective_label s r == some label)
                  && ((r.gpu_count == anchor.gpu_count)
                      && ((if is_none s.required_group_label
                            then true
                            else r.group_id == anchor.group_id)
                          && (ltb now (slot_end r)
                              && not (contains r.id s.noshow_reservation_ids)))))))

  unfoldable pub chain_candidates :
      ReservationResponse → String → String → ℕ → List ReservationResponse
  unfolding extends
  chain_candidates anchor namespace label now =
      sort_by slot_start (keep (extends anchor namespace label now) s.reservations)

  abbrev chain_of :
      ReservationResponse → ℕ → Option UserBrief → Option String → List ReservationResponse
  chain_of anchor now none label = []
  chain_of anchor now (some u) none = []
  chain_of anchor now (some u) (some label) =
      let candidates = chain_candidates anchor u.username label now in
      chain_loop (length candidates) candidates [] (slot_end anchor)

  -- `_chain_for`.
  unfoldable pub chain_for : ReservationResponse → ℕ → List ReservationResponse
  unfolding chain_candidates chain_loop effective_label
  chain_for r now = chain_of r now r.user (effective_label s r)

  unfoldable pub compute_guaranteed_until : ℕ → ReservationResponse → ℕ
  unfolding chain_for chain_end
  compute_guaranteed_until now r = chain_end (slot_end r) (chain_for r now)

  unfoldable pub guarantee_end : Option ℕ → ℕ → Option ℕ
  unfolding compute_guaranteed_until find_by_id
  guarantee_end none now = none
  guarantee_end (some rid) now = elim (find_by_id rid s.reservations) [
    | none ↦ none
    | some r ↦ some (compute_guaranteed_until now r)
  ]

  unfoldable pub reservations_claimed_by : ℕ → ℕ → List ℕ
  unfolding chain_for find_by_id
  reservations_claimed_by rid now = elim (find_by_id rid s.reservations) [
    | none ↦ rid ∷ []
    | some r ↦
        if is_booking r && not (is_none r.user)
        then union (rid ∷ []) (map (λ q. q.id) (chain_for r now))
        else rid ∷ []
  ]

  -- `_past_guarantee`, of the reservation that a pod was admitted under.
  unfoldable pub past_guarantee : Option ℕ → ℕ → Bool
  unfolding guarantee_end
  past_guarantee rid now = elim (guarantee_end rid now) [
    | none ↦ true
    | some end ↦ not (ltb now end)
  ]
