-- ===== src/Adoption/Tally.antt =====
-- No pass of app/controller.py over the pods over-books a reservation.
use gpu_reservation_controll.Base.{
  ◌⊎◌, ℕ, ◌≡◌, ◌≤◌, ◌+◌, refl, sym, subst, ap, ◌∙◌, Option, none, some, false≢true, true, false,
  ◌==◌, nat_eq, nat_beq_iff, string_eq, option_eq, List, [], ◌∷◌, Dict, get_or, get_or-insert,
  insert, contains, keep, In, Bool-cases, Option-cases, if◌then◌else◌, inl, inr, arith, sum_by,
  first,
}
use gpu_reservation_controll.Schemas.{ReservationResponse}
use gpu_reservation_controll.State.{ControllerState, PodRuntimeView}
use gpu_reservation_controll.Matching.{available, find_open_booking_for}
use gpu_reservation_controll.Matching.Selection.{find_open_booking_for_sound}
use gpu_reservation_controll.Guarantee.{find_by_id}
use gpu_reservation_controll.NoShow.{reservation_ids}
use gpu_reservation_controll.Push.Upsert.{UniqueIds}
use gpu_reservation_controll.Adoption.{
  new_booking, adoption, merge, assign, plan_pod_adoptions, plan_ondemand_merges,
}

-- The GPUs that a plan assigns to a reservation.
pub assigned_gpus : ℕ → List (PodRuntimeView × ReservationResponse) → ℕ
assigned_gpus rid plan = sum_by (λ a. a.0.gpu_count) (keep (λ a. a.1.id == rid) plan)

assigned_gpus-cons :
    (rid : ℕ) (p : PodRuntimeView) (r : ReservationResponse)
    (plan : List (PodRuntimeView × ReservationResponse))
    → assigned_gpus rid ((p, r) ∷ plan)
      ≡ (if r.id == rid then p.gpu_count else 0) + assigned_gpus rid plan
unfolding assigned_gpus keep sum_by
assigned_gpus-cons rid p r plan = ground arith

module _ (choose : PodRuntimeView → Dict ℕ ℕ → Option ReservationResponse) where
  assign_nil : (extra : Dict ℕ ℕ) → assign choose [] extra ≡ []
  unfolding assign
  assign_nil extra = refl

  assign-none :
      (p : PodRuntimeView) (ps : List PodRuntimeView) (extra : Dict ℕ ℕ)
      → choose p extra ≡ none
      → assign choose (p ∷ ps) extra ≡ assign choose ps extra
  unfolding assign
  assign-none p ps extra e = ground arith

  assign-some :
      (p : PodRuntimeView) (ps : List PodRuntimeView) (extra : Dict ℕ ℕ) (r : ReservationResponse)
      → choose p extra ≡ some r
      → assign choose (p ∷ ps) extra
        ≡ (p, r) ∷ assign choose ps (insert r.id (get_or r.id extra 0 + p.gpu_count) extra)
  unfolding assign
  assign-some p ps extra r e = ground arith

  -- Each assignment is an answer of `choose`, at the tally of its turn.
  pub assign-chosen :
      (ps : List PodRuntimeView) (extra : Dict ℕ ℕ) (p : PodRuntimeView) (r : ReservationResponse)
      → In (p, r) (assign choose ps extra)
      → In p ps × ((tally : Dict ℕ ℕ) × (choose p tally ≡ some r))
  assign-chosen [] extra p r m = absurd (subst (In (p, r)) (assign_nil extra) m).0
  assign-chosen (q ∷ ps) extra p r m = elim (Option-cases (choose q extra)) [
    | inl e ↦
        let (listed, found) =
          assign-chosen ps extra p r (subst (In (p, r)) (assign-none q ps extra e) m) in
        (inr listed, found)
    | inr (b, e) ↦
        at_head b e (assign-chosen ps _ p r) (subst (In (p, r)) (assign-some q ps extra b e) m)
  ]
    where
      at_head :
          (b : ReservationResponse)
          → choose q extra ≡ some b
          → (In (p, r) (assign choose ps (insert b.id (get_or b.id extra 0 + q.gpu_count) extra))
              → In p ps × ((tally : Dict ℕ ℕ) × (choose p tally ≡ some r)))
          → In
              (p, r)
              ((q, b) ∷ assign choose ps (insert b.id (get_or b.id extra 0 + q.gpu_count) extra))
          → In p (q ∷ ps) × ((tally : Dict ℕ ℕ) × (choose p tally ≡ some r))
      at_head b e later (inl same) =
          (inl (ap (λ a. a.0) same), (extra, subst (λ a. choose a.0 extra ≡ some a.1) same e))
      at_head b e later (inr m') = let (listed, found) = later m' in (inr listed, found)

  -- The tally stays within a bound that `choose` observes.
  module _ (bound : ℕ → ℕ)
      (fits : (p : PodRuntimeView) (extra : Dict ℕ ℕ) (r : ReservationResponse)
        → choose p extra ≡ some r
        → p.gpu_count + get_or r.id extra 0 ≤ bound r.id) where
    assigned-le :
        (ps : List PodRuntimeView) (extra : Dict ℕ ℕ) (rid : ℕ)
        → get_or rid extra 0 ≤ bound rid
        → assigned_gpus rid (assign choose ps extra) + get_or rid extra 0 ≤ bound rid
    assigned-le [] extra rid h = unfold assign assigned_gpus keep sum_by in omega arith
    assigned-le (p ∷ ps) extra rid h = elim (Option-cases (choose p extra)) [
      | inl e ↦ rw (assign-none p ps extra e) (assigned-le ps extra rid h)
      | inr (r, e) ↦ rw (assign-some p ps extra r e) (
          with_tally r (fits p extra r e)
            (get_or-insert r.id rid (get_or r.id extra 0 + p.gpu_count) 0 extra)
            (assigned-le ps _ rid))
    ]
      where
        with_tally :
            (r : ReservationResponse)
            → p.gpu_count + get_or r.id extra 0 ≤ bound r.id
            → get_or rid (insert r.id (get_or r.id extra 0 + p.gpu_count) extra) 0
              ≡ (if r.id == rid then get_or r.id extra 0 + p.gpu_count else get_or rid extra 0)
            → (get_or rid (insert r.id (get_or r.id extra 0 + p.gpu_count) extra) 0 ≤ bound rid
                → assigned_gpus rid
                      (assign choose ps (insert r.id (get_or r.id extra 0 + p.gpu_count) extra))
                    + get_or rid (insert r.id (get_or r.id extra 0 + p.gpu_count) extra) 0
                  ≤ bound rid)
            → assigned_gpus rid (
                  (p, r) ∷ assign choose ps (insert r.id (get_or r.id extra 0 + p.gpu_count) extra))
                + get_or rid extra 0
              ≤ bound rid
        with_tally r fit tally rest = elim (Bool-cases (r.id == rid)) [
          | inl same ↦ ground (
            arith,
            assigned_gpus-cons rid p r
                (assign choose ps (insert r.id (get_or r.id extra 0 + p.gpu_count) extra)),
            nat_beq_iff r.id rid,
            ap bound ((nat_beq_iff r.id rid).0 same),
            ap (λ z. get_or z extra 0) ((nat_beq_iff r.id rid).0 same),
          )
          | inr other ↦ ground (
            arith,
            assigned_gpus-cons rid p r
                (assign choose ps (insert r.id (get_or r.id extra 0 + p.gpu_count) extra)),
          )
        ]

In-ids :
    (rs : List ReservationResponse) (r : ReservationResponse)
    → In r rs
    → contains r.id (reservation_ids rs) ≡ true
unfolding contains
In-ids [] r m = absurd m.0
In-ids (q ∷ rs) r (inl e) = rw ((nat_beq_iff q.id r.id).1 (ap (λ z. z.id) e))
In-ids (q ∷ rs) r (inr m) = ground (arith, In-ids rs r m)

-- With unique ids, a stored row is the one that its id finds.
pub find_by_id-In :
    (rs : List ReservationResponse) (r : ReservationResponse)
    → UniqueIds rs
    → In r rs
    → find_by_id r.id rs ≡ some r
unfolding find_by_id first
find_by_id-In [] r u m = absurd m.0
find_by_id-In (q ∷ rs) r u (inl e) = rw ((nat_beq_iff q.id r.id).1 (ap (λ z. z.id) e)) (ap some e)
find_by_id-In (q ∷ rs) r u (inr m) = elim (Bool-cases (q.id == r.id)) [
  | inl same ↦ absurd (
      false≢true (
        sym u.0
        ∙ subst (λ z. contains z (reservation_ids rs) ≡ true) (sym ((nat_beq_iff q.id r.id).0 same))
            (In-ids rs r m)))
  | inr other ↦ rw other (find_by_id-In rs r u.1 m)
]

module _ (s : ControllerState) (now : ℕ) where
  -- What is free under a reservation id.
  cap : ℕ → ℕ
  cap rid = elim (find_by_id rid s.reservations) [ none ↦ 0 | some r ↦ available s r none ]

  cap_eq :
      (r : ReservationResponse)
      → UniqueIds s.reservations
      → In r s.reservations
      → cap r.id ≡ available s r none
  unfolding cap
  cap_eq r u m = ground (arith, find_by_id-In s.reservations r u m)

  module _ (p : PodRuntimeView) (extra : Dict ℕ ℕ) (r : ReservationResponse) where
    abbrev found_booking : Option ReservationResponse
    found_booking =
        find_open_booking_for s p.namespace p.gpu_class now p.gpu_count extra p.group_label

    pub new_booking-found :
        new_booking s now p extra ≡ some r
        → (found_booking ≡ some r) × ((some r.id == p.reservation_id) ≡ false)
    unfolding new_booking
    new_booking-found h = elim (Option-cases found_booking) [
      | inl e ↦ absurd (ground arith)
      | inr (q, e) ↦ at_row q e (Bool-cases (some q.id == p.reservation_id))
    ]
      where
        at_row :
            (q : ReservationResponse)
            → found_booking ≡ some q
            → ((some q.id == p.reservation_id) ≡ true) ⊎ ((some q.id == p.reservation_id) ≡ false)
            → (found_booking ≡ some r) × ((some r.id == p.reservation_id) ≡ false)
        at_row q e (inl same) = absurd (ground arith)
        at_row q e (inr other) =
            let same : q ≡ r = ground arith in
            (e ∙ ap some same, subst (λ z. (some z.id == p.reservation_id) ≡ false) same other)

    adoption-new : adoption s now p extra ≡ some r → new_booking s now p extra ≡ some r
    unfolding adoption
    adoption-new h = ground arith

    merge-new : merge s now p extra ≡ some r → new_booking s now p extra ≡ some r
    unfolding merge
    merge-new h = ground arith

    new_booking-fits :
        UniqueIds s.reservations
        → new_booking s now p extra ≡ some r
        → p.gpu_count + get_or r.id extra 0 ≤ cap r.id
    new_booking-fits u h =
        let (m, opened, live, declared, room) =
          find_open_booking_for_sound s p.namespace p.gpu_class now p.gpu_count extra p.group_label
            r (new_booking-found h).0 in
        omega (arith, cap_eq r u m)

  -- However many pods one pass adopts, no stored reservation is assigned more GPUs than it has
  -- free. No two reservations share an id.
  pub plan_pod_adoptions-le_available :
      (pods : List PodRuntimeView) (r : ReservationResponse)
      → UniqueIds s.reservations
      → In r s.reservations
      → assigned_gpus r.id (plan_pod_adoptions s pods now) ≤ available s r none
  plan_pod_adoptions-le_available pods r u m = omega (
    arith,
    cap_eq r u m,
    assigned-le (adoption s now) cap
        (λ p extra q h. new_booking-fits p extra q u (adoption-new p extra q h)) pods [] r.id
        (unfold get_or in omega arith),
    ap (assigned_gpus r.id) plan_eq,
  )
    where
      plan_eq : plan_pod_adoptions s pods now ≡ assign (adoption s now) pods []
      plan_eq = unfold plan_pod_adoptions in refl

  -- However many pods one pass merges, no stored reservation is assigned more GPUs than it has free.
  -- No two reservations share an id.
  pub plan_ondemand_merges-le_available :
      (pods : List PodRuntimeView) (r : ReservationResponse)
      → UniqueIds s.reservations
      → In r s.reservations
      → assigned_gpus r.id (plan_ondemand_merges s pods now) ≤ available s r none
  plan_ondemand_merges-le_available pods r u m = omega (
    arith,
    cap_eq r u m,
    assigned-le (merge s now) cap
        (λ p extra q h. new_booking-fits p extra q u (merge-new p extra q h)) pods [] r.id
        (unfold get_or in omega arith),
    ap (assigned_gpus r.id) plan_eq,
  )
    where
      plan_eq : plan_ondemand_merges s pods now ≡ assign (merge s now) pods []
      plan_eq = unfold plan_ondemand_merges in refl
