-- ===== src/Adoption/Rescue.antt =====
-- What an adoption by app/controller.py does for the pod.
use gpu_reservation_controll.Base.{
  All, Dict, In, List, [], arith, contains, false, nat_eq, option_eq, some, string_eq, true, ℕ, ◌<◌,
  ◌∷◌, ◌≡◌, ◌≤◌,
}
use gpu_reservation_controll.Schemas.{ReservationResponse, slot_end, slot_start}
use gpu_reservation_controll.State.{ControllerState, PodRuntimeView, pod_eq}
use gpu_reservation_controll.Matching.Selection.{find_open_booking_for_sound}
use gpu_reservation_controll.Guarantee.{
  chain_end, chain_for, find_by_id, guarantee_end, past_guarantee,
}
use gpu_reservation_controll.Guarantee.Coverage.{IsLink, chain_for-links}
use gpu_reservation_controll.Push.Upsert.{UniqueIds}
use gpu_reservation_controll.Adoption.{
  adoption, assign, is_present, new_booking, plan_pod_adoptions,
}
use gpu_reservation_controll.Adoption.Tally.{assign-chosen, find_by_id-In, new_booking-found}

chain_end-live :
    (s : ControllerState) (anchor : ReservationResponse) (now end : ℕ)
    (rs : List ReservationResponse)
    → now < end
    → All (IsLink s anchor now) rs
    → now < chain_end end rs
unfolding chain_end
chain_end-live s anchor now end [] h a = h
chain_end-live s anchor now end (r ∷ rs) h a =
    chain_end-live s anchor now (slot_end r) rs a.0.live a.1

module _ (s : ControllerState) (now : ℕ) where
  guarantee_end-found :
      (r : ReservationResponse)
      → find_by_id r.id s.reservations ≡ some r
      → guarantee_end s (some r.id) now ≡ some (chain_end (slot_end r) (chain_for s r now))
  unfolding guarantee_end
  guarantee_end-found r found = ground (arith, found)

  past_guarantee-before :
      (r : ReservationResponse)
      → find_by_id r.id s.reservations ≡ some r
      → now < chain_end (slot_end r) (chain_for s r now)
      → past_guarantee s (some r.id) now ≡ false
  unfolding past_guarantee
  past_guarantee-before r found h = ground (arith, guarantee_end-found r found)

  -- A reservation whose window has not ended gives a guarantee that has not ended.
  pub past_guarantee-live :
      (r : ReservationResponse)
      → UniqueIds s.reservations
      → In r s.reservations
      → now < slot_end r
      → past_guarantee s (some r.id) now ≡ false
  past_guarantee-live r u m live =
      let found = find_by_id-In s.reservations r u m in
      let (l, f, a) = chain_for-links s r now in
      past_guarantee-before r found (chain_end-live s r now (slot_end r) _ live a)

  module _ (p : PodRuntimeView) (extra : Dict ℕ ℕ) (r : ReservationResponse) where
    adoption_guards :
        adoption s now p extra ≡ some r
        → (new_booking s now p extra ≡ some r)
          × (past_guarantee s p.reservation_id now ≡ true)
          × (is_present p ≡ true)
    unfolding adoption
    adoption_guards h = (ground arith, ground arith, ground arith)

  -- Where no two reservations share an id, each planned adoption takes a present pod that is past
  -- its guarantee to a stored reservation, open now and no declared no-show, under which the pod is
  -- not past its guarantee any more.
  pub plan_pod_adoptions-rescues :
      (pods : List PodRuntimeView) (p : PodRuntimeView) (r : ReservationResponse)
      → UniqueIds s.reservations
      → In (p, r) (plan_pod_adoptions s pods now)
      → In p pods
        × (is_present p ≡ true)
        × (past_guarantee s p.reservation_id now ≡ true)
        × In r s.reservations
        × (slot_start r ≤ now)
        × (now < slot_end r)
        × (contains r.id s.noshow_reservation_ids ≡ false)
        × (past_guarantee s (some r.id) now ≡ false)
  plan_pod_adoptions-rescues pods p r u m =
      let (listed, (tally, chosen)) = assign-chosen (adoption s now) pods [] p r (planned m) in
      let (booking, overstay, present) = adoption_guards p tally r chosen in
      let (stored, opened, live, declared, room) =
        find_open_booking_for_sound s p.namespace p.gpu_class now p.gpu_count tally p.group_label r
          (new_booking-found s now p tally r booking).0 in
      (
        listed,
        present,
        overstay,
        stored,
        opened,
        live,
        declared,
        past_guarantee-live r u stored live,
      )
    where
      planned :
          In (p, r) (plan_pod_adoptions s pods now) → In (p, r) (assign (adoption s now) pods [])
      planned h = unfold plan_pod_adoptions in h
