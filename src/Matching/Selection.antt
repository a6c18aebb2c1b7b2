-- ===== src/Matching/Selection.antt =====
-- What the matchers of app/controller.py choose.
use gpu_reservation_controll.Base.{
  ℕ, String, Option, none, some, Bool, true, false, nat_eq, ◌≡◌, ◌≤◌, ◌<◌, ◌+◌, refl, sym,
  if◌then◌else◌, List, [], ◌∷◌, Dict, get_or, keep, contains, leb, In, In-keep, keep-In, best_of-In,
  best_of-none, best_of_unbeaten, min_by, min_by-In, min_by-le, Bool-cases, inl, inr, ◌⊎◌, subst,
  arith,
}
use gpu_reservation_controll.Schemas.{ReservationResponse, slot_start, slot_end}
use gpu_reservation_controll.State.{ControllerState}
use gpu_reservation_controll.Matching.{
  available, matches, admittable, open_for, outlasts, preferring_big_enough, is_empty,
  find_best_reservation, find_admittable_reservation, find_open_booking_for,
}

module _ (s : ControllerState) where
  pub matches_facts :
      (namespace label : String) (group_label : Option String) (now : ℕ) (r : ReservationResponse)
      → matches s namespace label group_label now r ≡ true
      → (now < slot_end r) × (contains r.id s.noshow_reservation_ids ≡ false)
  unfolding matches
  matches_facts namespace label group_label now r h = (ground arith, ground arith)

  pub open_for_facts :
      (namespace label : String) (now gpus : ℕ) (extra_used : Dict ℕ ℕ)
      (group_label : Option String) (r : ReservationResponse)
      → open_for s namespace label now gpus extra_used group_label r ≡ true
      → (slot_start r ≤ now)
        × (now < slot_end r)
        × (contains r.id s.noshow_reservation_ids ≡ false)
        × (gpus + get_or r.id extra_used 0 ≤ available s r none)
  unfolding open_for
  open_for_facts namespace label now gpus extra_used group_label r h =
      (ground arith, ground arith, ground arith, ground arith)

  -- `outlasts` is a strict weak order, so the choice by it is of a greatest key.
  outlasts_irrefl :
      (extra_used : Dict ℕ ℕ) (a : ReservationResponse) → outlasts s extra_used a a ≡ false
  unfolding outlasts
  outlasts_irrefl extra_used a = ground arith

  outlasts_step :
      (extra_used : Dict ℕ ℕ) (a x y : ReservationResponse)
      → outlasts s extra_used a x ≡ false
      → outlasts s extra_used y x ≡ true
      → outlasts s extra_used a y ≡ false
  unfolding outlasts
  outlasts_step extra_used a x y p q = ground arith

  outlasts_keeps :
      (extra_used : Dict ℕ ℕ) (a x y : ReservationResponse)
      → outlasts s extra_used a x ≡ false
      → outlasts s extra_used x y ≡ false
      → outlasts s extra_used a y ≡ false
  unfolding outlasts
  outlasts_keeps extra_used a x y p q = ground arith

  outlasts-le :
      (extra_used : Dict ℕ ℕ) (a b : ReservationResponse)
      → outlasts s extra_used b a ≡ false
      → slot_end b ≤ slot_end a
  unfolding outlasts
  outlasts-le extra_used a b h = ground arith

  -- `find_open_booking_for` answers with a stored reservation, open at `now` and no declared
  -- no-show, whose free GPUs net of the tally cover the pod.
  pub find_open_booking_for_sound :
      (namespace label : String) (now gpus : ℕ) (extra_used : Dict ℕ ℕ)
      (group_label : Option String) (r : ReservationResponse)
      → find_open_booking_for s namespace label now gpus extra_used group_label ≡ some r
      → In r s.reservations
        × (slot_start r ≤ now)
        × (now < slot_end r)
        × (contains r.id s.noshow_reservation_ids ≡ false)
        × (gpus + get_or r.id extra_used 0 ≤ available s r none)
  unfolding find_open_booking_for
  find_open_booking_for_sound namespace label now gpus extra_used group_label r h =
      let (m, ok) = In-keep _ s.reservations r (best_of-In _ _ h) in
      let (opened, live, declared, room) =
        open_for_facts namespace label now gpus extra_used group_label r ok in
      (m, opened, live, declared, room)

  -- No other stored reservation that could take the pod ends later than the answer of
  -- `find_open_booking_for`, or beats it on the key of end, free GPUs and id.
  pub find_open_booking_for-latest :
      (namespace label : String) (now gpus : ℕ) (extra_used : Dict ℕ ℕ)
      (group_label : Option String) (r other : ReservationResponse)
      → find_open_booking_for s namespace label now gpus extra_used group_label ≡ some r
      → In other s.reservations
      → open_for s namespace label now gpus extra_used group_label other ≡ true
      → (slot_end other ≤ slot_end r) × (outlasts s extra_used other r ≡ false)
  unfolding find_open_booking_for
  find_open_booking_for-latest namespace label now gpus extra_used group_label r other h m o =
      (outlasts-le extra_used r other unbeaten, unbeaten)
    where
      unbeaten : outlasts s extra_used other r ≡ false
      unbeaten =
          best_of_unbeaten (outlasts s extra_used) (outlasts_irrefl extra_used)
            (outlasts_step extra_used) (outlasts_keeps extra_used) _ h other (keep-In _ _ other m o)

  pub find_open_booking_for-none :
      (namespace label : String) (now gpus : ℕ) (extra_used : Dict ℕ ℕ)
      (group_label : Option String) (r : ReservationResponse)
      → find_open_booking_for s namespace label now gpus extra_used group_label ≡ none
      → In r s.reservations
      → open_for s namespace label now gpus extra_used group_label r ≡ false
  unfolding find_open_booking_for
  find_open_booking_for-none namespace label now gpus extra_used group_label r h m =
      elim (Bool-cases (open_for s namespace label now gpus extra_used group_label r)) [
        | inl e ↦ absurd (best_of-none _ _ r h (keep-In _ _ r m e))
        | inr e ↦ e
      ]

  admittable_facts :
      (namespace label : String) (gpus now horizon : ℕ) (group_label : Option String)
      (r : ReservationResponse)
      → admittable s namespace label gpus now horizon group_label r ≡ true
      → (now < slot_end r)
        × (contains r.id s.noshow_reservation_ids ≡ false)
        × (slot_start r ≤ now + horizon)
        × (gpus ≤ available s r none)
  unfolding admittable
  admittable_facts namespace label gpus now horizon group_label r ok =
      (ground arith, ground arith, ground arith, ground arith)

  pub find_admittable_reservation_sound :
      (namespace label : String) (gpus now horizon : ℕ) (group_label : Option String)
      (r other : ReservationResponse)
      → find_admittable_reservation s namespace label gpus now horizon group_label ≡ some r
      → In other s.reservations
      → admittable s namespace label gpus now horizon group_label other ≡ true
      → In r s.reservations
        × (now < slot_end r)
        × (slot_start r ≤ now + horizon)
        × (gpus ≤ available s r none)
        × (contains r.id s.noshow_reservation_ids ≡ false)
        × (slot_start r ≤ slot_start other)
  unfolding find_admittable_reservation
  find_admittable_reservation_sound namespace label gpus now horizon group_label r other h n o =
      let (m, ok) =
        In-keep (admittable s namespace label gpus now horizon group_label) s.reservations r
          (min_by-In _ _ h) in
      let (live, declared, soon, room) =
        admittable_facts namespace label gpus now horizon group_label r ok in
      (m, live, soon, room, declared, min_by-le _ _ h other (keep-In _ _ other n o))

  -- What the choice among the matching reservations `rs` has to satisfy.
  record IsBest (gpus : ℕ) (rs : List ReservationResponse) (r : ReservationResponse) : Type 0 where
    listed : In r rs
    soonest_big :
        (other : ReservationResponse)
        → In other rs
        → gpus ≤ r.gpu_count
        → gpus ≤ other.gpu_count
        → slot_start r ≤ slot_start other
    small_only_if_none :
        (other : ReservationResponse)
        → In other rs
        → r.gpu_count < gpus
        → (other.gpu_count < gpus) × (slot_start r ≤ slot_start other)

  module _ (gpus : ℕ) (rs : List ReservationResponse) (r : ReservationResponse) where
    abbrev big : ReservationResponse → Bool
    big q = leb gpus q.gpu_count

    abbrev Chosen : List ReservationResponse → Type 0
    Chosen bigs = min_by slot_start (if is_empty s bigs then rs else bigs) ≡ some r

    big_of_le : (q : ReservationResponse) → gpus ≤ q.gpu_count → big q ≡ true
    big_of_le q h = ground arith

    le_of_big : (q : ReservationResponse) → big q ≡ true → gpus ≤ q.gpu_count
    le_of_big q h = ground arith

    none_big : keep big rs ≡ [] → (q : ReservationResponse) → In q rs → q.gpu_count < gpus
    none_big e q m = elim (Bool-cases (big q)) [
      | inl b ↦ absurd (subst (In q) e (keep-In big rs q m b)).0
      | inr b ↦ ground arith
    ]

    min_by-IsBest :
        (bigs : List ReservationResponse) → keep big rs ≡ bigs → Chosen bigs → IsBest gpus rs r
    min_by-IsBest [] e h = record {
      listed = min_by-In slot_start rs h;
      soonest_big = λ q m mine theirs. absurd (omega (arith, none_big e q m));
      small_only_if_none = λ q m small. (none_big e q m, min_by-le slot_start rs h q m);
    }
    min_by-IsBest (b ∷ bs) e h =
        let picked = In-keep big rs r (subst (In r) (sym e) (min_by-In slot_start (b ∷ bs) h)) in
        record {
          listed = picked.0;
          soonest_big = λ q m mine theirs.
              min_by-le slot_start (b ∷ bs) h q
                (subst (In q) e (keep-In big rs q m (big_of_le q theirs)));
          small_only_if_none = λ q m small. absurd (omega (arith, le_of_big r picked.1));
        }

  -- `find_best_reservation` answers with a stored reservation that has not ended and is no declared
  -- no-show. If another match is big enough for the pod, the answer is big enough, and the other
  -- starts no sooner; if the answer is too small, the other starts no sooner.
  pub find_best_reservation_sound :
      (namespace label : String) (group_label : Option String) (gpus now : ℕ)
      (r other : ReservationResponse)
      → find_best_reservation s namespace label group_label (some gpus) now ≡ some r
      → In other s.reservations
      → matches s namespace label group_label now other ≡ true
      → In r s.reservations
        × (now < slot_end r)
        × (contains r.id s.noshow_reservation_ids ≡ false)
        × ((other.gpu_count < gpus) ⊎ (gpus ≤ r.gpu_count) × (slot_start r ≤ slot_start other))
        × ((gpus ≤ r.gpu_count) ⊎ (slot_start r ≤ slot_start other))
  unfolding find_best_reservation preferring_big_enough
  find_best_reservation_sound namespace label group_label gpus now r other h n o =
      let test = matches s namespace label group_label now in
      let best = min_by-IsBest gpus (keep test s.reservations) r _ refl h in
      let (m, ok) = In-keep test s.reservations r best.listed in
      let (live, declared) = matches_facts namespace label group_label now r ok in
      let n' = keep-In test s.reservations other n o in
      (m, live, declared, size_order best n', start_order best n')
    where
      candidates : List ReservationResponse
      candidates = keep (matches s namespace label group_label now) s.reservations

      size_order :
          IsBest gpus candidates r
          → In other candidates
          → (other.gpu_count < gpus) ⊎ (gpus ≤ r.gpu_count) × (slot_start r ≤ slot_start other)
      size_order best n' = elim (Bool-cases (leb gpus r.gpu_count)) [
        | inl big ↦ elim (Bool-cases (leb gpus other.gpu_count)) [
          | inl other_big ↦
              inr (ground arith, best.soonest_big other n' (ground arith) (ground arith))
          | inr small ↦ inl (ground arith)
        ]
        | inr small ↦ inl (best.small_only_if_none other n' (ground arith)).0
      ]

      start_order :
          IsBest gpus candidates r
          → In other candidates
          → (gpus ≤ r.gpu_count) ⊎ (slot_start r ≤ slot_start other)
      start_order best n' = elim (Bool-cases (leb gpus r.gpu_count)) [
        | inl big ↦ inl (ground arith)
        | inr small ↦ inr (best.small_only_if_none other n' (ground arith)).1
      ]
