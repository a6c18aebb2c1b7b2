-- ===== src/NoShow.antt =====
-- app/controller.py: the no-show tracking of `ControllerState`. Durations are in microseconds.
pub mod Arming
pub mod Deadlines
pub mod Invariant
use gpu_reservation_controll.Base.{
  ℕ, String, Option, none, some, Bool, true, false, ◌==◌, string_eq, nat_eq, option_eq, ◌&&◌, ◌||◌,
  not, List, [], ◌∷◌, Dict, keys, get, insert, erase, erase_all, has_key, keep, contains, add,
  union, min_by, ltb, leb, is_none, if◌then◌else◌, ◌+◌, ◌*◌, map,
}
use gpu_reservation_controll.Schemas.{
  ReservationResponse, slot_start, slot_end, owned_by, is_booking,
}
use gpu_reservation_controll.State.{ControllerState}
use gpu_reservation_controll.Matching.{group_ok}
use gpu_reservation_controll.Guarantee.{find_by_id, reservations_claimed_by}

-- `timedelta(minutes=n)`.
abbrev pub minutes : ℕ → ℕ
minutes n = n * 60_000_000

-- The conditions under which `update_noshow_tracking` passes a reservation by.
unfoldable pub untracked : ControllerState → ℕ → Dict ℕ ℕ → ReservationResponse → Bool
untracked s now deadlines r =
    is_booking r
    && (not (is_none r.user)
        && (not (has_key r.id deadlines)
            && (not (contains r.id s.noshow_reservation_ids)
                && (not (contains r.id s.claimed_reservation_ids) && ltb now (slot_end r)))))

-- A window that is open already, as after a start in its middle, gets the grace time from now.
unfoldable pub first_deadline : ℕ → ℕ → ℕ → ReservationResponse → ℕ
first_deadline now timeout_minutes grace_minutes r =
    if ltb now (slot_start r)
    then slot_start r + minutes timeout_minutes
    else now + minutes grace_minutes

unfoldable pub arm_all :
    ControllerState → ℕ → ℕ → ℕ → List ReservationResponse → Dict ℕ ℕ → Dict ℕ ℕ
unfolding untracked first_deadline
arm_all s now timeout grace [] deadlines = deadlines
arm_all s now timeout grace (r ∷ rs) deadlines = arm_all s now timeout grace rs (
    if untracked s now deadlines r
    then insert r.id (first_deadline now timeout grace r) deadlines
    else deadlines)

unfoldable pub update_noshow_tracking : ControllerState → ℕ → ℕ → ℕ → ControllerState
unfolding arm_all
update_noshow_tracking s now timeout_minutes grace_minutes = record s {
  noshow_deadlines = arm_all s now timeout_minutes grace_minutes s.reservations s.noshow_deadlines;
}

abbrev pub reservation_ids : List ReservationResponse → List ℕ
reservation_ids [] = []
reservation_ids (r ∷ rs) = r.id ∷ reservation_ids rs

unfoldable pub reconcile_noshow : ControllerState → ControllerState
reconcile_noshow s =
    let active_ids = reservation_ids s.reservations in
    let left = λ (rid : ℕ). not (contains rid active_ids) in
    record s {
      noshow_deadlines = erase_all (keep left (keys s.noshow_deadlines)) s.noshow_deadlines;
      noshow_reservation_ids = keep (λ rid. contains rid active_ids) s.noshow_reservation_ids;
      pending_noshow_cancels = keep (λ rid. contains rid active_ids) s.pending_noshow_cancels;
    }

unfoldable pub expired : ControllerState → ℕ → List ℕ
expired s now =
    keys (
      keep (λ kv. leb kv.1 now && not (contains kv.0 s.claimed_reservation_ids)) s.noshow_deadlines)

-- A window that has ended already is dropped, and not declared.
unfoldable pub ended : ControllerState → ℕ → ℕ → Bool
unfolding find_by_id
ended s now rid = elim (find_by_id rid s.reservations) [
  | none ↦ false
  | some r ↦ leb (slot_end r) now
]

unfoldable pub declare_noshow : ℕ → ControllerState → ℕ → ControllerState
unfolding ended
declare_noshow now s rid =
    let dropped = record s { noshow_deadlines = erase rid s.noshow_deadlines } in
    if ended s now rid then dropped else record dropped {
      noshow_reservation_ids = add rid s.noshow_reservation_ids;
      pending_noshow_cancels = add rid s.pending_noshow_cancels;
    }

unfoldable pub declare_all : ℕ → List ℕ → ControllerState → ControllerState
unfolding declare_noshow
declare_all now [] s = s
declare_all now (rid ∷ rids) s = declare_all now rids (declare_noshow now s rid)

unfoldable pub check_noshow_deadlines : ControllerState → ℕ → ControllerState
unfolding expired declare_all
check_noshow_deadlines s now = declare_all now (expired s now) s

-- `mark_pod_seen_for_noshow`, for a pod with a booking reference and for one without.
unfoldable pub mark_holder_seen : ControllerState → ℕ → ℕ → ControllerState
unfolding find_by_id reservations_claimed_by
mark_holder_seen s rid now = elim (find_by_id rid s.reservations) [
  | none ↦ s
  | some r ↦
      if is_booking r && not (is_none r.user)
      then record s {
        noshow_deadlines = erase_all (reservations_claimed_by s rid now) s.noshow_deadlines;
      }
      else s
]

unfoldable pub vouched :
    ControllerState → String → String → Option String → ReservationResponse → Bool
unfolding group_ok
vouched s namespace label group_label r =
    is_booking r
    && (owned_by namespace r
        && ((get r.gpu_class_id s.gpu_class_labels == some label)
            && (group_ok s r group_label && has_key r.id s.noshow_deadlines)))

unfoldable pub mark_pod_seen_for_noshow :
    ControllerState → String → String → Option ℕ → Option String → ℕ → ControllerState
unfolding mark_holder_seen vouched
mark_pod_seen_for_noshow s namespace label (some rid) group_label now = mark_holder_seen s rid now
mark_pod_seen_for_noshow s namespace label none group_label now =
    elim (min_by slot_start (keep (vouched s namespace label group_label) s.reservations)) [
      | none ↦ s
      | some r ↦ record s { noshow_deadlines = erase r.id s.noshow_deadlines }
    ]

unfoldable pub claimed_by_all : ControllerState → ℕ → List ℕ → List ℕ → List ℕ
unfolding reservations_claimed_by
claimed_by_all s now [] claimed = claimed
claimed_by_all s now (rid ∷ rids) claimed =
    claimed_by_all s now rids (union claimed (reservations_claimed_by s rid now))

unfoldable pub refresh_claimed_reservations : ControllerState → List ℕ → ℕ → ControllerState
unfolding claimed_by_all
refresh_claimed_reservations s holder_reservation_ids now =
    let claimed = claimed_by_all s now holder_reservation_ids [] in
    record s {
      claimed_reservation_ids = claimed;
      noshow_deadlines = erase_all claimed s.noshow_deadlines;
    }
