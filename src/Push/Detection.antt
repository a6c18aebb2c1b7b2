-- ===== src/Push/Detection.antt =====
-- What app/controller.py detects while a new reservation list replaces the old one.
use gpu_reservation_controll.Base.{
  ℕ, ◌≡◌, ◌≢◌, ◌<◌, ◌≤◌, refl, sym, ◌∙◌, String, Option, none, some, false≢true, Bool, true, false,
  ◌==◌, nat_eq, string_eq, option_eq, option_beq_iff, List, [], ◌∷◌, get, Option-cases, contains,
  keep, In, In-keep, keep-In, inl, inr, arith, first, ◌↔◌,
}
use text.Mathlib.TextEquality.{eq_iff}
use gpu_reservation_controll.Schemas.{
  ReservationResponse, UserBrief, slot_start, slot_end, is_booking,
}
use gpu_reservation_controll.State.{ControllerState}
use gpu_reservation_controll.Guarantee.{find_by_id}
use gpu_reservation_controll.NoShow.{reservation_ids}
use gpu_reservation_controll.Push.{
  index, apply_push_to_active, cancelled_in_window, detect_cancelled_in_window, prior_owner,
  owner_change, omitted_lease, preserve_local_ondemand_leases,
}
use gpu_reservation_controll.Push.Upsert.{
  last_word, last_listed, get-index, apply_push_to_active-exact,
}

find_by_id-none :
    (rid : ℕ) (rs : List ReservationResponse)
    → find_by_id rid rs ≡ none
    → contains rid (reservation_ids rs) ≡ false
unfolding find_by_id first contains
find_by_id-none rid [] h = refl
find_by_id-none rid (r ∷ rs) h = ground (arith, find_by_id-none rid rs)

cancelled-stored :
    (s : ControllerState) (now : ℕ) (r : ReservationResponse)
    → cancelled_in_window s now r ≡ true
    → contains r.id (reservation_ids s.reservations) ≡ true
unfolding cancelled_in_window
cancelled-stored s now r ok = ground arith

-- A cancellation is handled once: in the state after a push whose last word on an id is not an
-- active row, no detection, at any time and over any rows, reports a row of that id.
pub detect_cancelled_in_window-once :
    (s : ControllerState) (pushed rows : List ReservationResponse) (now : ℕ)
    (r : ReservationResponse)
    → last_word r.id pushed (last_listed r.id s.reservations none) ≡ none
    → ¬ In r (
        detect_cancelled_in_window
          (record s { reservations = apply_push_to_active s.reservations pushed })
          now
          rows)
unfolding detect_cancelled_in_window
detect_cancelled_in_window-once s pushed rows now r gone m =
    let (listed, ok) = In-keep (cancelled_in_window after now) rows r m in
    let absent =
      find_by_id-none r.id _ (apply_push_to_active-exact s.reservations pushed r.id ∙ gone) in
    false≢true (sym absent ∙ cancelled-stored after now r ok)
  where
    after : ControllerState
    after = record s { reservations = apply_push_to_active s.reservations pushed }

-- The facts that make a change of owner.
pub record Changed (s : ControllerState) (now : ℕ) (r : ReservationResponse) (name : String)
    : Type 0 where
  pub prior : ReservationResponse
  pub owner : UserBrief
  pub stored : last_listed r.id s.reservations none ≡ some prior
  pub owned : prior.user ≡ some owner
  pub named : owner.username ≡ name
  pub other : prior.user_id ≢ r.user_id
  pub active : r.status ≡ "active"
  pub booking : r.kind ≡ "booking"
  pub opened : slot_start r ≤ now
  pub live : now < slot_end r

module _ (s : ControllerState) (now : ℕ) (r : ReservationResponse) (name : String) where
  abbrev prior_row : Option ReservationResponse
  prior_row = get r.id (index s.reservations [])

  owner_change_guard :
      owner_change s now r ≡ some name
      → (prior_owner s now r prior_row ≡ some name)
        × ((r.status == "active") ≡ true)
        × (is_booking r ≡ true)
  unfolding owner_change
  owner_change_guard h = (ground arith, ground arith, ground arith)

  -- The prior row and its owner, where `prior_owner` names one.
  Replaced : Option ReservationResponse → Type 0
  Replaced row =
      (prior : ReservationResponse) × (u : UserBrief) × (row ≡ some prior)
      × (prior.user ≡ some u)
      × (u.username ≡ name)
      × ((prior.user_id == r.user_id) ≡ false)
      × (slot_start r ≤ now)
      × (now < slot_end r)

  owner_guards :
      (prior : ReservationResponse) (u : UserBrief)
      → prior.user ≡ some u
      → prior_owner s now r (some prior) ≡ some name
      → (u.username ≡ name)
        × ((prior.user_id == r.user_id) ≡ false)
        × (slot_start r ≤ now)
        × (now < slot_end r)
  unfolding prior_owner
  owner_guards prior u e h = (ground arith, ground arith, ground arith, ground arith)

  prior_owner-Replaced :
      (row : Option ReservationResponse) → prior_owner s now r row ≡ some name → Replaced row
  unfolding Replaced
  prior_owner-Replaced none h = unfold prior_owner in cc
  prior_owner-Replaced (some prior) h = elim (Option-cases prior.user) [
    | inl e ↦ absurd (ownerless e h)
    | inr (u, e) ↦ let (n, o, a, b) = owner_guards prior u e h in (prior, u, refl, e, n, o, a, b)
  ]
    where
      ownerless : prior.user ≡ none → prior_owner s now r (some prior) ≡ some name → ⊥
      ownerless e k = unfold prior_owner in ground arith

  -- Each reported change of owner is of an active booking in progress that is stored with another
  -- owner, whose name is the reported one.
  pub owner_change-Changed : owner_change s now r ≡ some name → Changed s now r name
  unfolding Replaced
  owner_change-Changed h =
      let (found, status, kind) = owner_change_guard h in
      let (prior, u, row, owned, named, other, opened, live) =
        prior_owner-Replaced prior_row found in
      record {
        prior = prior;
        owner = u;
        stored = sym (get-index s.reservations r.id [] ∙ start) ∙ row;
        owned = owned;
        named = named;
        other = λ same. false≢true (sym other ∙ (option_beq_iff prior.user_id r.user_id).1 same);
        active = (eq_iff r.status "active").0 status;
        booking = (eq_iff r.kind "booking").0 kind;
        opened = opened;
        live = live;
      }
    where
      start : last_listed r.id s.reservations (get r.id []) ≡ last_listed r.id s.reservations none
      start = unfold get in refl

-- `preserve_local_ondemand_leases` answers with exactly the stored active leases that have not ended
-- and that the fetched rows do not mention.
pub preserve_local_ondemand_leases-exact :
    (s : ControllerState) (now : ℕ) (fetched : List ReservationResponse) (r : ReservationResponse)
    → In r (preserve_local_ondemand_leases s now fetched)
      ↔ In r s.reservations
        × ((r.kind ≡ "on_demand")
            × (r.status ≡ "active")
            × (contains r.id (reservation_ids fetched) ≡ false)
            × (now < slot_end r))
preserve_local_ondemand_leases-exact s now fetched r = (
  λ m.
      let (stored, ok) = In-keep (omitted_lease s now fetched) s.reservations r (listed m) in
      (stored, facts ok),
  λ h. kept (keep-In (omitted_lease s now fetched) s.reservations r h.0 (passes h.1)),
)
  where
    test : Bool
    test = omitted_lease s now fetched r

    Facts : Type 0
    Facts =
        (r.kind ≡ "on_demand")
        × (r.status ≡ "active")
        × (contains r.id (reservation_ids fetched) ≡ false)
        × (now < slot_end r)

    listed :
        In r (preserve_local_ondemand_leases s now fetched)
        → In r (keep (omitted_lease s now fetched) s.reservations)
    listed m = unfold preserve_local_ondemand_leases in m

    kept :
        In r (keep (omitted_lease s now fetched) s.reservations)
        → In r (preserve_local_ondemand_leases s now fetched)
    kept m = unfold preserve_local_ondemand_leases in m

    facts : test ≡ true → Facts
    facts ok =
        unfold omitted_lease in
        (
          (eq_iff r.kind "on_demand").0 (ground arith),
          (eq_iff r.status "active").0 (ground arith),
          ground arith,
          ground arith,
        )

    passes : Facts → test ≡ true
    passes f =
        unfold omitted_lease in
        ground (arith, (eq_iff r.kind "on_demand").1 f.0, (eq_iff r.status "active").1 f.1)
