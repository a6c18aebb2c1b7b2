-- ===== src/Queue.antt =====
-- app/controller.py: the work queue of pods that wait for their reservation (`enqueue_pod`,
-- `dequeue_pod`, `reconcile_queue`), and what their owners were told last. The clock that the source
-- reads is the argument `now`.
pub mod Enqueue
pub mod Pending
pub mod Requeue
use gpu_reservation_controll.Base.{
  ℕ, String, Option, none, some, Bool, true, false, ◌==◌, string_eq, nat_eq, option_eq, ◌&&◌, ◌||◌,
  not, List, [], ◌∷◌, Dict, keys, values, get, get_or, insert, erase, has_key, collect, keep, all,
  is_none, ltb, leb, if◌then◌else◌, ◌+◌,
}
use gpu_reservation_controll.Schemas.{ReservationResponse}
use gpu_reservation_controll.State.{ControllerState, QueueEntry, PendingStatus}
use gpu_reservation_controll.Matching.{find_best_reservation}
use gpu_reservation_controll.Push.{index}

-- What a pod asks for when it is queued.
pub record Ask : Type 0 where
  pub pod_uid : String
  pub pod_name : String
  pub pod_namespace : String
  pub gpu_class_label : String
  pub gpu_requested : ℕ
  pub group_label : Option String

abbrev pub entry_for : Ask → ReservationResponse → ℕ → List String → QueueEntry
entry_for a r now reasons = record {
  pod_uid = a.pod_uid;
  pod_name = a.pod_name;
  pod_namespace = a.pod_namespace;
  gpu_class_label = a.gpu_class_label;
  gpu_requested = a.gpu_requested;
  reservation = r;
  next_attempt_at = now;
  group_label = a.group_label;
  ondemand_ineligibility = reasons;
}

module _ (s : ControllerState) where
  abbrev put_entry : QueueEntry → ControllerState
  put_entry e = record s { task_queue = insert e.pod_uid e s.task_queue }

  -- The pod is queued for `r`, unless it is already.
  unfoldable pub enqueue_for : Ask → ReservationResponse → ℕ → ControllerState
  enqueue_for a r now = elim (get a.pod_uid s.task_queue) [
    | none ↦ put_entry (entry_for a r now [])
    | some e ↦
        if e.reservation.id == r.id
        then s
        else put_entry (entry_for a r now e.ondemand_ineligibility)
  ]

  -- The reservation that routing chose, or else the best match.
  unfoldable pub chosen : Ask → Option ReservationResponse → ℕ → Option ReservationResponse
  chosen a none now =
      find_best_reservation s a.pod_namespace a.gpu_class_label a.group_label (some a.gpu_requested)
        now
  chosen a (some r) now = some r

unfoldable pub enqueue_pod :
    ControllerState → Ask → Option ReservationResponse → ℕ → ControllerState
unfolding enqueue_for chosen
enqueue_pod s a reservation now = elim (chosen s a reservation now) [
  | none ↦ s
  | some r ↦ enqueue_for (record s { noshow_deadlines = erase r.id s.noshow_deadlines }) a r now
]

unfoldable pub dequeue_pod : ControllerState → String → ControllerState
dequeue_pod s pod_uid = record s { task_queue = erase pod_uid s.task_queue }

-- A surviving entry is pointed at the fresh reservation of the same id.
unfoldable pub repoint : Dict ℕ ReservationResponse → QueueEntry → QueueEntry
repoint by_id e = elim (get e.reservation.id by_id) [
  | none ↦ e
  | some fresh ↦ record e { reservation = fresh }
]

unfoldable pub rematch : ControllerState → ℕ → QueueEntry → Option QueueEntry
rematch s now e =
    elim (find_best_reservation s e.pod_namespace e.gpu_class_label e.group_label
      (some e.gpu_requested) now) [
        | none ↦ none
        | some r ↦ some (record e { reservation = r; next_attempt_at = now })
      ]

-- The loop over the stale entries.
unfoldable pub requeue_all :
    ControllerState → ℕ → List String → Dict String QueueEntry → Dict String QueueEntry
unfolding rematch
requeue_all s now [] queue = queue
requeue_all s now (uid ∷ uids) queue = requeue_all s now uids (elim (get uid queue) [
  | none ↦ queue
  | some e ↦ elim (rematch s now e) [
    | none ↦ erase uid queue
    | some fresh ↦ insert uid (record fresh { pod_uid = uid }) (erase uid queue)
  ]
])

unfoldable pub stale_uids : Dict ℕ ReservationResponse → Dict String QueueEntry → List String
stale_uids by_id queue = keys (keep (λ kv. not (has_key kv.1.reservation.id by_id)) queue)

unfoldable pub reconcile_queue : ControllerState → ℕ → ControllerState
unfolding repoint requeue_all stale_uids
reconcile_queue s now =
    let by_id = index s.reservations [] in
    record s {
      task_queue =
          requeue_all s now (stale_uids by_id s.task_queue)
            (collect (λ uid e. some (repoint by_id e)) s.task_queue);
    }

-- `pending_status_due`, of the status recorded under a topic; `repeat` is in the units of `now`.
unfoldable pub pending_status_due :
    ControllerState → String → String → String × String → ℕ → ℕ → Bool
pending_status_due s pod_uid topic (reason, detail) now repeat =
    elim (get topic (get_or pod_uid s.pending_status [])) [
      | none ↦ true
      | some told ↦
          not ((told.key.0 == reason) && (told.key.1 == detail)) || leb (told.at + repeat) now
    ]

unfoldable pub record_pending_status :
    ControllerState → String → String → String × String → ℕ → ControllerState
record_pending_status s pod_uid topic key now = record s {
  pending_status =
      insert pod_uid
        (insert topic (record { key = key; at = now }) (get_or pod_uid s.pending_status []))
        s.pending_status;
}

unfoldable pub forget_pending_status : ControllerState → String → ControllerState
forget_pending_status s pod_uid = record s { pending_status = erase pod_uid s.pending_status }

-- The statuses that `prune_pending_status` drops.
unfoldable pub is_forgotten : ControllerState → ℕ → String → Dict String PendingStatus → Bool
is_forgotten s cutoff uid told =
    not (has_key uid s.ondemand_candidates || has_key uid s.task_queue)
    && all (λ t. ltb t.at cutoff) (values told)

unfoldable pub prune_pending_status : ControllerState → ℕ → ControllerState
unfolding is_forgotten
prune_pending_status s cutoff = record s {
  pending_status =
      collect (λ uid told. if is_forgotten s cutoff uid told then none else some told)
        s.pending_status;
}
