-- ===== src/NoShow/Invariant.antt =====
-- The invariant of the no-show tracking of app/controller.py, over any sequence of its operations.
use gpu_reservation_controll.Base.{
  ℕ, ◌≡◌, refl, sym, ◌∙◌, String, Option, none, some, Bool, true, false, nat_eq, ◌&&◌, ◌||◌, not,
  List, [], ◌∷◌, Dict, get, insert, erase, has_key, keys, keep, contains, contains-keep, Distinct,
  get-insert, erase-Distinct, insert-Distinct, erase_all, erase_all-Distinct, get-erase_all,
  has_key-get, Bool-cases, if◌then◌else◌, inl, inr, arith, min_by, is_none,
}
use gpu_reservation_controll.Schemas.{ReservationResponse, is_booking, slot_start}
use gpu_reservation_controll.State.{ControllerState, initial}
use gpu_reservation_controll.Guarantee.{find_by_id, reservations_claimed_by}
use gpu_reservation_controll.NoShow.{
  reservation_ids, untracked, first_deadline, arm_all, update_noshow_tracking, reconcile_noshow,
  expired, declare_all, ended, declare_noshow, check_noshow_deadlines, mark_holder_seen,
  mark_pod_seen_for_noshow, claimed_by_all, refresh_claimed_reservations, vouched,
}
use gpu_reservation_controll.NoShow.Deadlines.{
  check_noshow_deadlines-exact, declare_all_cons, declare_all_nil,
}

pub record Inv (s : ControllerState) : Type 0 where
  pub distinct : Distinct s.noshow_deadlines
  pub disjoint :
      (rid : ℕ) → contains rid s.noshow_reservation_ids ≡ true → get rid s.noshow_deadlines ≡ none
  pub queued :
      (rid : ℕ)
      → contains rid s.pending_noshow_cancels ≡ true
      → contains rid s.noshow_reservation_ids ≡ true
  pub unclaimed :
      (rid : ℕ) → contains rid s.claimed_reservation_ids ≡ true → get rid s.noshow_deadlines ≡ none

module _ (s : ControllerState) (now timeout grace : ℕ) where
  untracked-insert-Distinct :
      (r : ReservationResponse) (d : Dict ℕ ℕ)
      → Distinct d
      → Distinct
          (if untracked s now d r then insert r.id (first_deadline now timeout grace r) d else d)
  untracked-insert-Distinct r d h = elim (Bool-cases (untracked s now d r)) [
    | inl e ↦ rw e (insert-Distinct r.id _ d h)
    | inr e ↦ rw e h
  ]

  arm_all-Distinct :
      (rs : List ReservationResponse) (d : Dict ℕ ℕ)
      → Distinct d
      → Distinct (arm_all s now timeout grace rs d)
  unfolding arm_all
  arm_all-Distinct [] d h = h
  arm_all-Distinct (r ∷ rs) d h = arm_all-Distinct rs _ (untracked-insert-Distinct r d h)

  -- A step of the loop leaves the entry of a tracked, declared or claimed reservation alone.
  arm-get :
      (r : ReservationResponse) (d : Dict ℕ ℕ) (rid : ℕ)
      → (has_key rid d
          || (contains rid s.noshow_reservation_ids || contains rid s.claimed_reservation_ids))
        ≡ true
      → get rid
          (if untracked s now d r then insert r.id (first_deadline now timeout grace r) d else d)
        ≡ get rid d
  unfolding untracked
  arm-get r d rid h = ground (arith, get-insert r.id rid (first_deadline now timeout grace r) d)

  arm_all-get :
      (rs : List ReservationResponse) (d : Dict ℕ ℕ) (rid : ℕ)
      → (has_key rid d
          || (contains rid s.noshow_reservation_ids || contains rid s.claimed_reservation_ids))
        ≡ true
      → get rid (arm_all s now timeout grace rs d) ≡ get rid d
  unfolding arm_all
  arm_all-get [] d rid h = refl
  arm_all-get (r ∷ rs) d rid h =
      let step = arm-get r d rid h in arm_all-get rs _ rid (still step) ∙ step
    where
      next : Dict ℕ ℕ
      next = if untracked s now d r then insert r.id (first_deadline now timeout grace r) d else d

      still :
          get rid next ≡ get rid d
          → (has_key rid next
              || (contains rid s.noshow_reservation_ids || contains rid s.claimed_reservation_ids))
            ≡ true
      still e = rw (has_key-get rid next, e, sym (has_key-get rid d)) h

update-Inv :
    (s : ControllerState) (now timeout grace : ℕ)
    → Inv s
    → Inv (update_noshow_tracking s now timeout grace)
unfolding update_noshow_tracking
update-Inv s now timeout grace v = record {
  distinct = arm_all-Distinct s now timeout grace s.reservations s.noshow_deadlines v.distinct;
  disjoint = λ rid h.
      arm_all-get s now timeout grace s.reservations s.noshow_deadlines rid (ground (arith, h))
      ∙ v.disjoint rid h;
  queued = v.queued;
  unclaimed = λ rid h.
      arm_all-get s now timeout grace s.reservations s.noshow_deadlines rid (ground (arith, h))
      ∙ v.unclaimed rid h;
}

-- Dropping deadlines keeps the invariant.
erase_all-Inv :
    (s : ControllerState) (rids : List ℕ)
    → Inv s
    → Inv (record s { noshow_deadlines = erase_all rids s.noshow_deadlines })
erase_all-Inv s rids v = record {
  distinct = erase_all-Distinct rids s.noshow_deadlines v.distinct;
  disjoint = λ rid h. ground (arith, get-erase_all rids rid s.noshow_deadlines, v.disjoint rid h);
  queued = v.queued;
  unclaimed = λ rid h. ground (arith, get-erase_all rids rid s.noshow_deadlines, v.unclaimed rid h);
}

erase-Inv :
    (s : ControllerState) (rid : ℕ)
    → Inv s
    → Inv (record s { noshow_deadlines = erase rid s.noshow_deadlines })
unfolding erase_all
erase-Inv s rid v = erase_all-Inv s (rid ∷ []) v

reconcile-Inv : (s : ControllerState) → Inv s → Inv (reconcile_noshow s)
unfolding reconcile_noshow
reconcile-Inv s v = record {
  distinct = erase_all-Distinct stale s.noshow_deadlines v.distinct;
  disjoint = λ rid h. ground (
    arith,
    get-erase_all stale rid s.noshow_deadlines,
    contains-keep is_active rid s.noshow_reservation_ids,
    v.disjoint rid,
  );
  queued = λ rid h. ground (
    arith,
    contains-keep is_active rid s.noshow_reservation_ids,
    contains-keep is_active rid s.pending_noshow_cancels,
    v.queued rid,
  );
  unclaimed =
      λ rid h. ground (arith, get-erase_all stale rid s.noshow_deadlines, v.unclaimed rid h);
}
  where
    is_active : ℕ → Bool
    is_active rid = contains rid (reservation_ids s.reservations)

    stale : List ℕ
    stale = keep (λ rid. not (is_active rid)) (keys s.noshow_deadlines)

declare_noshow-Distinct :
    (now : ℕ) (s : ControllerState) (rid : ℕ)
    → Distinct s.noshow_deadlines
    → Distinct (declare_noshow now s rid).noshow_deadlines
      × ((declare_noshow now s rid).claimed_reservation_ids ≡ s.claimed_reservation_ids)
unfolding declare_noshow
declare_noshow-Distinct now s rid h = elim (Bool-cases (ended s now rid)) [
  | inl e ↦ rw e (erase-Distinct rid s.noshow_deadlines h, refl)
  | inr e ↦ rw e (erase-Distinct rid s.noshow_deadlines h, refl)
]

declare_all-Distinct :
    (now : ℕ) (rids : List ℕ) (s : ControllerState)
    → Distinct s.noshow_deadlines
    → Distinct (declare_all now rids s).noshow_deadlines
      × ((declare_all now rids s).claimed_reservation_ids ≡ s.claimed_reservation_ids)
declare_all-Distinct now [] s h = rw (declare_all_nil now s) (h, refl)
declare_all-Distinct now (rid ∷ rids) s h =
    let (d, c) = declare_noshow-Distinct now s rid h in
    let (ds, cs) = declare_all-Distinct now rids (declare_noshow now s rid) d in
    rw (declare_all_cons now rid rids s) (ds, cs ∙ c)

check-Inv : (s : ControllerState) (now : ℕ) → Inv s → Inv (check_noshow_deadlines s now)
check-Inv s now v = record {
  distinct = (kept v.distinct).0;
  disjoint = λ rid h.
      let (d, n, p) = check_noshow_deadlines-exact s now v.distinct rid in
      ground (arith, d, n, v.disjoint rid);
  queued = λ rid h.
      let (d, n, p) = check_noshow_deadlines-exact s now v.distinct rid in
      ground (arith, n, p, v.queued rid);
  unclaimed = λ rid h.
      let (d, n, p) = check_noshow_deadlines-exact s now v.distinct rid in
      ground (arith, d, v.unclaimed rid (rw (← (kept v.distinct).1) h));
}
  where
    kept :
        Distinct s.noshow_deadlines
        → Distinct (check_noshow_deadlines s now).noshow_deadlines
          × ((check_noshow_deadlines s now).claimed_reservation_ids ≡ s.claimed_reservation_ids)
    kept = unfold check_noshow_deadlines in declare_all-Distinct now (expired s now) s

mark_holder_seen-Inv :
    (s : ControllerState) (rid now : ℕ) → Inv s → Inv (mark_holder_seen s rid now)
unfolding mark_holder_seen
mark_holder_seen-Inv s rid now v = for_row (find_by_id rid s.reservations)
  where
    if_vouching :
        (b : Bool)
        → Inv (
            if b
            then record s {
              noshow_deadlines = erase_all (reservations_claimed_by s rid now) s.noshow_deadlines;
            }
            else s)
    if_vouching true = erase_all-Inv s _ v
    if_vouching false = v

    for_row :
        (o : Option ReservationResponse)
        → Inv (elim o [
          | none ↦ s
          | some r ↦
              if is_booking r && not (is_none r.user)
              then record s {
                noshow_deadlines = erase_all (reservations_claimed_by s rid now) s.noshow_deadlines;
              }
              else s
        ])
    for_row none = v
    for_row (some r) = if_vouching (is_booking r && not (is_none r.user))

mark-Inv :
    (s : ControllerState) (namespace label : String) (rid : Option ℕ) (group_label : Option String)
    (now : ℕ)
    → Inv s
    → Inv (mark_pod_seen_for_noshow s namespace label rid group_label now)
mark-Inv s namespace label (some rid) group_label now v =
    unfold mark_pod_seen_for_noshow in mark_holder_seen-Inv s rid now v
mark-Inv s namespace label none group_label now v =
    unfold mark_pod_seen_for_noshow in
    for_row (min_by slot_start (keep (vouched s namespace label group_label) s.reservations))
  where
    for_row :
        (o : Option ReservationResponse)
        → Inv (elim o [
          | none ↦ s
          | some r ↦ record s { noshow_deadlines = erase r.id s.noshow_deadlines }
        ])
    for_row none = v
    for_row (some r) = erase-Inv s r.id v

refresh-Inv :
    (s : ControllerState) (holders : List ℕ) (now : ℕ)
    → Inv s
    → Inv (refresh_claimed_reservations s holders now)
unfolding refresh_claimed_reservations
refresh-Inv s holders now v = record {
  distinct = erase_all-Distinct _ s.noshow_deadlines v.distinct;
  disjoint = λ rid h. ground (
    arith,
    get-erase_all (claimed_by_all s now holders []) rid s.noshow_deadlines,
    v.disjoint rid h,
  );
  queued = v.queued;
  unclaimed = λ rid h.
      ground (arith, get-erase_all (claimed_by_all s now holders []) rid s.noshow_deadlines, h);
}

-- One operation of the tracking, or a new reservation list from the app.
pub data Step (s : ControllerState) : ControllerState → Type 0 where
  reload : (rs : List ReservationResponse) → Step s (record s { reservations = rs })
  update : (now timeout grace : ℕ) → Step s (update_noshow_tracking s now timeout grace)
  reconcile : Step s (reconcile_noshow s)
  check : (now : ℕ) → Step s (check_noshow_deadlines s now)
  mark :
      (namespace label : String) (rid : Option ℕ) (group_label : Option String) (now : ℕ)
      → Step s (mark_pod_seen_for_noshow s namespace label rid group_label now)
  refresh : (holders : List ℕ) (now : ℕ) → Step s (refresh_claimed_reservations s holders now)

pub data Reach (s : ControllerState) : ControllerState → Type 0 where
  here : Reach s s
  next : {t u : ControllerState} → Reach s t → Step t u → Reach s u

Step-Inv : {s t : ControllerState} → Step s t → Inv s → Inv t
Step-Inv {s} (reload rs) v = record {
  distinct = v.distinct;
  disjoint = v.disjoint;
  queued = v.queued;
  unclaimed = v.unclaimed;
}
Step-Inv {s} (update now timeout grace) v = update-Inv s now timeout grace v
Step-Inv {s} reconcile v = reconcile-Inv s v
Step-Inv {s} (check now) v = check-Inv s now v
Step-Inv {s} (mark namespace label rid group_label now) v =
    mark-Inv s namespace label rid group_label now v
Step-Inv {s} (refresh holders now) v = refresh-Inv s holders now v

initial-Inv : Inv initial
unfolding contains
initial-Inv = record {
  distinct = tt;
  disjoint = λ rid h. cc;
  queued = λ rid h. cc;
  unclaimed = λ rid h. cc;
}

Reach-Inv : {s t : ControllerState} → Inv s → Reach s t → Inv t
Reach-Inv v here = v
Reach-Inv v (next r st) = Step-Inv st (Reach-Inv v r)

-- After any sequence of the tracking's operations and of new reservation lists, from the start of
-- the controller: no reservation has two deadlines, no declared no-show and no claimed reservation
-- has a deadline, and each cancel that is pending is of a declared no-show.
pub reachable-Inv : {s : ControllerState} → Reach initial s → Inv s
reachable-Inv r = Reach-Inv initial-Inv r
