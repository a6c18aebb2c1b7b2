-- ===== src/Queue/Requeue.antt =====
-- What a refresh of the reservations by app/controller.py leaves in the work queue.
use gpu_reservation_controll.Base.{
  ℕ, ◌≡◌, refl, sym, ap, ◌∙◌, subst, String, Option, none, some, Bool, false, ◌==◌, string_eq,
  nat_eq, option_eq, not, List, [], ◌∷◌, Dict, keys, get, insert, erase, has_key, has_key-get,
  get-insert, get-erase, get-erase_self, get-insert_self, ◌⊎◌, collect, get-collect, bind_at,
  Distinct, contains, contains-keys-keep, keep, if◌then◌else◌, arith, Bool-cases, Option-cases, inl,
  inr,
}
use gpu_reservation_controll.Schemas.{ReservationResponse}
use gpu_reservation_controll.State.{ControllerState, QueueEntry}
use gpu_reservation_controll.Push.{index}
use gpu_reservation_controll.Queue.{repoint, rematch, requeue_all, stale_uids, reconcile_queue}

abbrev Unique : List String → Type 0
Unique [] = Unit
Unique (x ∷ xs) = (contains x xs ≡ false) × Unique xs

module _ (s : ControllerState) (now : ℕ) where
  abbrev requeued : String → QueueEntry → Option QueueEntry
  requeued uid e = elim (rematch s now e) [
    | none ↦ none
    | some fresh ↦ some (record fresh { pod_uid = uid })
  ]

  abbrev step : String → Dict String QueueEntry → Dict String QueueEntry
  step uid queue = elim (get uid queue) [
    | none ↦ queue
    | some e ↦ elim (rematch s now e) [
      | none ↦ erase uid queue
      | some fresh ↦ insert uid (record fresh { pod_uid = uid }) (erase uid queue)
    ]
  ]

  step-cases :
      (uid : String) (queue : Dict String QueueEntry)
      → (step uid queue ≡ queue) × (bind_at (get uid queue) (requeued uid) ≡ get uid queue)
        ⊎ ((step uid queue ≡ erase uid queue) × (bind_at (get uid queue) (requeued uid) ≡ none)
            ⊎ ((e : QueueEntry) × (step uid queue ≡ insert uid e (erase uid queue))
                × (bind_at (get uid queue) (requeued uid) ≡ some e)))
  step-cases uid queue = elim (Option-cases (get uid queue)) [
    | inl q ↦ inl (ground (arith, q), ground (arith, q))
    | inr (e, q) ↦ elim (Option-cases (rematch s now e)) [
      | inl m ↦ inr (inl (ground (arith, q, m), ground (arith, q, m)))
      | inr (fresh, m) ↦
          inr (inr (record fresh { pod_uid = uid }, ground (arith, q, m), ground (arith, q, m)))
    ]
  ]

  get-step_self :
      (uid : String) (queue : Dict String QueueEntry)
      → get uid (step uid queue) ≡ bind_at (get uid queue) (requeued uid)
  get-step_self uid queue = elim (step-cases uid queue) [
    | inl (a, b) ↦ ap (get uid) a ∙ sym b
    | inr (inl (a, b)) ↦ ap (get uid) a ∙ get-erase_self uid queue ∙ sym b
    | inr (inr (e, a, b)) ↦ ap (get uid) a ∙ get-insert_self uid e (erase uid queue) ∙ sym b
  ]

  get-step_other :
      (uid v : String) (queue : Dict String QueueEntry)
      → (uid == v) ≡ false
      → get v (step uid queue) ≡ get v queue
  get-step_other uid v queue h = elim (step-cases uid queue) [
    | inl (a, b) ↦ ap (get v) a
    | inr (inl (a, b)) ↦ ground (arith, ap (get v) a, get-erase uid v queue, h)
    | inr (inr (e, a, b)) ↦
        ground (arith, ap (get v) a, get-insert uid v e (erase uid queue), get-erase uid v queue, h)
  ]

  get-requeue_all :
      (uids : List String) (v : String) (queue : Dict String QueueEntry)
      → Unique uids
      → get v (requeue_all s now uids queue)
        ≡ (if contains v uids then bind_at (get v queue) (requeued v) else get v queue)
  unfolding requeue_all contains
  get-requeue_all [] v queue u = refl
  get-requeue_all (uid ∷ uids) v queue u = elim (Bool-cases (uid == v)) [
    | inl q ↦
        let same = (string_eq.beq_iff uid v).0 q in
        rw q (found same (get-requeue_all uids v (step uid queue) u.1))
    | inr q ↦ rw q (
        get-requeue_all uids v (step uid queue) u.1
        ∙ ap (λ o. if contains v uids then bind_at o (requeued v) else o)
            (get-step_other uid v queue q))
  ]
    where
      found :
          uid ≡ v
          → get v (requeue_all s now uids (step uid queue)) ≡ (
              if contains v uids
              then bind_at (get v (step uid queue)) (requeued v)
              else get v (step uid queue))
          → get v (requeue_all s now uids (step uid queue)) ≡ bind_at (get v queue) (requeued v)
      found same ih = ground (
        arith,
        ih,
        subst (λ z. contains z uids ≡ false) same u.0,
        subst (λ z. get z (step uid queue) ≡ bind_at (get z queue) (requeued z)) same
            (get-step_self uid queue),
      )

keys-keep-Unique :
    (p : String × QueueEntry → Bool) (queue : Dict String QueueEntry)
    → Distinct queue
    → Unique (keys (keep p queue))
unfolding keep
keys-keep-Unique p [] h = tt
keys-keep-Unique p ((k, v) ∷ d) h = elim (Bool-cases (p (k, v))) [
  | inl q ↦
      rw q (
        ground (arith, contains-keys-keep p k d h.1, has_key-get k d, h.0),
        keys-keep-Unique p d h.1,
      )
  | inr q ↦ rw q (keys-keep-Unique p d h.1)
]

module _ (s : ControllerState) (now : ℕ) where
  -- What becomes of an entry when the reservations are refreshed: while its reservation is listed,
  -- it keeps its place with the listed row; or else it is matched anew, or dropped.
  unfoldable pub refreshed : String → QueueEntry → Option QueueEntry
  unfolding rematch
  refreshed uid e = elim (get e.reservation.id (index s.reservations [])) [
    | none ↦ requeued s now uid e
    | some fresh ↦ some (record e { reservation = fresh })
  ]

  -- The queue after a refresh has exactly, under each pod, what becomes of the entry that it had
  -- there: an entry whose reservation is listed is pointed at the row listed last, any other is
  -- matched anew against the reservations or dropped. The queue is a dictionary.
  pub reconcile_queue-exact :
      (uid : String)
      → Distinct s.task_queue
      → get uid (reconcile_queue s now).task_queue ≡ bind_at (get uid s.task_queue) (refreshed uid)
  unfolding reconcile_queue refreshed
  reconcile_queue-exact uid unique =
      get-requeue_all s now stale uid pointed (keys-keep-Unique _ s.task_queue unique)
      ∙ elim (Option-cases (get uid s.task_queue)) [
        | inl q ↦ ground (arith, read, listed, q)
        | inr (e, q) ↦ elim (Option-cases (get e.reservation.id by_id)) [
          | inl m ↦ ground (arith, read, listed, q, m, has_key-get e.reservation.id by_id)
          | inr (fresh, m) ↦ ground (arith, read, listed, q, m, has_key-get e.reservation.id by_id)
        ]
      ]
    where
      by_id : Dict ℕ ReservationResponse
      by_id = index s.reservations []

      stale : List String
      stale = stale_uids by_id s.task_queue

      pointed : Dict String QueueEntry
      pointed = collect (λ u e. some (repoint by_id e)) s.task_queue

      read : get uid pointed ≡ bind_at (get uid s.task_queue) (λ e. some (repoint by_id e))
      read = get-collect (λ u e. some (repoint by_id e)) uid s.task_queue unique

      listed : contains uid stale ≡ elim (get uid s.task_queue) [
        | none ↦ false
        | some e ↦ not (has_key e.reservation.id by_id)
      ]
      listed =
          contains-keys-keep (λ kv. not (has_key kv.1.reservation.id by_id)) uid s.task_queue unique
