-- ===== src/Queue/Enqueue.antt =====
-- What queueing a pod by app/controller.py does.
use gpu_reservation_controll.Base.{
  ℕ, ◌≡◌, ◌⊎◌, refl, sym, subst, nat_beq_iff, false, ◌∙◌, String, Option, none, some, ◌==◌,
  string_eq, nat_eq, List, [], get, erase, get-insert, get-erase, get-insert_self, if◌then◌else◌,
  arith, Option-cases, Bool-cases, inl, inr,
}
use gpu_reservation_controll.Schemas.{ReservationResponse}
use gpu_reservation_controll.State.{ControllerState, QueueEntry}
use gpu_reservation_controll.Queue.{Ask, enqueue_for, chosen, enqueue_pod, entry_for, put_entry}

enqueue_for-cases :
    (t : ControllerState) (a : Ask) (r : ReservationResponse) (now : ℕ)
    → ((reasons : List String) × (enqueue_for t a r now ≡ put_entry t (entry_for a r now reasons)))
      ⊎ ((e : QueueEntry) × (get a.pod_uid t.task_queue ≡ some e)
          × (e.reservation.id ≡ r.id)
          × (enqueue_for t a r now ≡ t))
unfolding enqueue_for
enqueue_for-cases t a r now = elim (Option-cases (get a.pod_uid t.task_queue)) [
  | inl q ↦ inl ([], ground (arith, q))
  | inr (e, q) ↦ elim (Bool-cases (e.reservation.id == r.id)) [
    | inl same ↦ inr (e, q, (nat_beq_iff e.reservation.id r.id).0 same, ground (arith, q, same))
    | inr moved ↦ inl (e.ondemand_ineligibility, ground (arith, q, moved))
  ]
]

module _ (s : ControllerState) (a : Ask) (given : Option ReservationResponse) (now : ℕ)
    (r : ReservationResponse) where
  abbrev dropped : ControllerState
  dropped = record s { noshow_deadlines = erase r.id s.noshow_deadlines }

  queued : chosen s a given now ≡ some r → enqueue_pod s a given now ≡ enqueue_for dropped a r now
  unfolding enqueue_pod
  queued h = ground (arith, h)

  -- Where a reservation is chosen for a pod, queueing leaves the pod under an entry for it, leaves
  -- the entry of any other pod as it was, and drops exactly the deadline of that reservation.
  pub enqueue_pod-exact :
      (v : String) (rid : ℕ)
      → chosen s a given now ≡ some r
      → (a.pod_uid == v) ≡ false
      → ((e : QueueEntry) × (get a.pod_uid (enqueue_pod s a given now).task_queue ≡ some e)
          × (e.reservation.id ≡ r.id))
        × (get v (enqueue_pod s a given now).task_queue ≡ get v s.task_queue)
        × (get rid (enqueue_pod s a given now).noshow_deadlines
            ≡ (if r.id == rid then none else get rid s.noshow_deadlines))
  enqueue_pod-exact v rid h other = elim (enqueue_for-cases dropped a r now) [
    | inl (reasons, put) ↦ subst Result (sym (queued h ∙ put)) (
      (entry_for a r now reasons, get-insert_self a.pod_uid _ s.task_queue, refl),
      ground (arith, get-insert a.pod_uid v (entry_for a r now reasons) s.task_queue, other),
      get-erase r.id rid s.noshow_deadlines,
    )
    | inr (e, found, same, kept) ↦
        subst Result (sym (queued h ∙ kept))
          ((e, found, same), refl, get-erase r.id rid s.noshow_deadlines)
  ]
    where
      Result : ControllerState → Type 0
      Result after =
          ((e : QueueEntry) × (get a.pod_uid after.task_queue ≡ some e) × (e.reservation.id ≡ r.id))
          × (get v after.task_queue ≡ get v s.task_queue)
          × (get rid after.noshow_deadlines
              ≡ (if r.id == rid then none else get rid s.noshow_deadlines))
