-- ===== src/NoShow/Arming.antt =====
-- Which no-show deadlines `update_noshow_tracking` of app/controller.py arms.
use gpu_reservation_controll.Base.{
  ℕ, ◌≡◌, Option, none, some, Bool, ◌==◌, nat_eq, nat_beq_iff, ◌&&◌, not, List, [], ◌∷◌, Dict, get,
  get-insert, insert, has_key-get, first, contains, ltb, is_none, arith,
}
use gpu_reservation_controll.Schemas.{ReservationResponse, slot_end, is_booking}
use gpu_reservation_controll.State.{ControllerState}
use gpu_reservation_controll.NoShow.{untracked, first_deadline, arm_all, update_noshow_tracking}

-- A booking that can still turn out a no-show: it has an owner, has not ended, is not declared yet
-- and not claimed.
unfoldable pub is_armable : ControllerState → ℕ → ReservationResponse → Bool
is_armable s now r =
    is_booking r
    && (not (is_none r.user)
        && (not (contains r.id s.noshow_reservation_ids)
            && (not (contains r.id s.claimed_reservation_ids) && ltb now (slot_end r))))

-- A deadline that is there stays.
abbrev pub keeping : Option ℕ → Option ℕ → Option ℕ
keeping none fresh = fresh
keeping (some old) fresh = some old

module _ (s : ControllerState) (now timeout grace : ℕ) where
  -- The deadline of an id that has none yet.
  unfoldable pub armed : ℕ → List ReservationResponse → Option ℕ
  armed rid rs = elim (first (λ r. (r.id == rid) && is_armable s now r) rs) [
    | none ↦ none
    | some r ↦ some (first_deadline now timeout grace r)
  ]

  arm_all-exact :
      (rid : ℕ) (rs : List ReservationResponse) (d : Dict ℕ ℕ)
      → get rid (arm_all s now timeout grace rs d) ≡ keeping (get rid d) (armed rid rs)
  unfolding arm_all armed first untracked is_armable
  arm_all-exact rid [] d = ground arith
  arm_all-exact rid (r ∷ rs) d = ground (
    arith,
    arm_all-exact rid rs d,
    arm_all-exact rid rs (insert r.id (first_deadline now timeout grace r) d),
    get-insert r.id rid (first_deadline now timeout grace r) d,
    has_key-get r.id d,
    nat_beq_iff r.id rid,
  )

  -- After an update a reservation id has the deadline that it had before; without one, that of the
  -- first stored row of the id which is a live owned booking, not declared and not claimed; and none
  -- without such a row.
  pub update_noshow_tracking-exact :
      (rid : ℕ)
      → get rid (update_noshow_tracking s now timeout grace).noshow_deadlines
        ≡ keeping (get rid s.noshow_deadlines) (armed rid s.reservations)
  unfolding update_noshow_tracking
  update_noshow_tracking-exact rid = arm_all-exact rid s.reservations s.noshow_deadlines
