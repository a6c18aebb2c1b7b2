-- ===== src/Admission/Apply.antt =====
-- What app/main.py's `_try_apply_toleration` leaves behind.
use gpu_reservation_controll.Admission.{
  FreshPod, Shared, after_read_pod, hold_slot, is_terminal_phase, jittered_retry_at,
  pod_has_toleration, release_slot, toleration_key, try_apply_toleration,
}
use gpu_reservation_controll.Base.{
  Bool, Bool-cases, Dict, Distinct, Option, String, [], ap, arith, false, false≢true,
  get_or-insert_self, has_key, if◌then◌else◌, inl, inr, insert, keep, ltb, nat_eq, none, option_eq,
  refl, some, string_eq, subst, sum_by, sym, true, ℕ, ◌*◌, ◌+◌, ◌-◌, ◌<◌, ◌==◌, ◌||◌, ◌∷◌, ◌≡◌, ◌≤◌,
  ◌⊎◌,
}
use gpu_reservation_controll.State.{QueueEntry, pod_eq}
use gpu_reservation_controll.Matching.{available, gpus_of}
use gpu_reservation_controll.Occupancy.Budget.{occupants}
use gpu_reservation_controll.Occupancy.Placed.{IsValid, at, release_pod-exact}
use gpu_reservation_controll.Occupancy.{place, record_placement}

gpus_of-without :
    (uid : String) (d : Dict String ℕ)
    → has_key uid d ≡ false
    → gpus_of none d ≡ gpus_of (some uid) d
unfolding gpus_of has_key keep sum_by
gpus_of-without uid [] h = refl
gpus_of-without uid ((v, g) ∷ d) h = ground (arith, gpus_of-without uid d, string_eq.beq_iff v uid)

-- The total with a pod's own entry is the total of the others and that entry.
gpus_of-insert_any :
    (uid : String) (gpus : ℕ) (d : Dict String ℕ)
    → Distinct d
    → gpus_of none (insert uid gpus d) ≡ gpus_of (some uid) d + gpus
unfolding gpus_of insert keep sum_by
gpus_of-insert_any uid gpus [] unique = omega arith
gpus_of-insert_any uid gpus ((v, g) ∷ d) unique = elim (Bool-cases (v == uid)) [
  | inl e ↦
      let same = (string_eq.beq_iff v uid).0 e in
      let others = gpus_of-without uid d (subst (λ z. has_key z d ≡ false) same unique.0) in
      rw e (omega (arith, others))
  | inr e ↦ let others = gpus_of-insert_any uid gpus d unique.1 in rw e (omega (arith, others))
]

held_slot :
    (w : Shared) (uid : String) (entry : QueueEntry)
    → occupants (hold_slot w uid entry).controller entry.reservation.id
      ≡ insert uid entry.gpu_requested (occupants w.controller entry.reservation.id)
unfolding hold_slot record_placement place
held_slot w uid entry = get_or-insert_self entry.reservation.id _ [] w.controller.occupancy

-- An admission either is refused, which leaves the state as it was, where the reservation has fewer
-- GPUs free of other pods than are asked; or other tasks run, while its calls are awaited, in a
-- state where the reservation's pods, this one among them, hold no more than the reservation's
-- GPUs. The pod asks for a GPU, and no pod stands twice under the reservation.
pub try_apply_toleration-budget :
    (w : Shared) (uid : String) (entry : QueueEntry) (jitter now : ℕ) (fresh : Option FreshPod)
    (patched : Bool) (meanwhile : Shared → Shared)
    → Distinct (occupants w.controller entry.reservation.id)
    → 0 < entry.gpu_requested
    → ((available w.controller entry.reservation (some uid) < entry.gpu_requested)
        × ((try_apply_toleration w uid entry jitter now fresh patched meanwhile).0 ≡ w)
        × ((try_apply_toleration w uid entry jitter now fresh patched meanwhile).2 ≡ false))
      ⊎ ((gpus_of none (occupants (hold_slot w uid entry).controller entry.reservation.id)
            ≤ entry.reservation.gpu_count)
          × (try_apply_toleration w uid entry jitter now fresh patched meanwhile
              ≡ after_read_pod
                  (meanwhile (hold_slot w uid entry))
                  uid
                  entry
                  jitter
                  now
                  fresh
                  patched))
unfolding try_apply_toleration available
try_apply_toleration-budget w uid entry jitter now fresh patched meanwhile unique asks =
    elim (Bool-cases
      (ltb (available w.controller entry.reservation (some uid)) entry.gpu_requested)) [
        | inl e ↦ inl (ground arith, rw e refl, rw e refl)
        | inr e ↦ inr (
          within (ground arith) (ap (gpus_of none) (held_slot w uid entry)) (
              gpus_of-insert_any uid entry.gpu_requested
                (occupants w.controller entry.reservation.id) unique),
          rw e refl,
        )
      ]
  where
    within :
        entry.gpu_requested
          ≤ entry.reservation.gpu_count
            - gpus_of (some uid) (occupants w.controller entry.reservation.id)
        → gpus_of none (occupants (hold_slot w uid entry).controller entry.reservation.id)
          ≡ gpus_of none
              (insert uid entry.gpu_requested (occupants w.controller entry.reservation.id))
        → gpus_of none
            (insert uid entry.gpu_requested (occupants w.controller entry.reservation.id))
          ≡ gpus_of (some uid) (occupants w.controller entry.reservation.id) + entry.gpu_requested
        → gpus_of none (occupants (hold_slot w uid entry).controller entry.reservation.id)
          ≤ entry.reservation.gpu_count
    within fits held total = omega (arith, held, total)

release_slot-exact :
    (w : Shared) (uid : String)
    → IsValid w.controller.occupancy
    → (q : ℕ) (v : String)
    → at q v (release_slot w uid).controller.occupancy
      ≡ (if uid == v then none else at q v w.controller.occupancy)
unfolding release_slot
release_slot-exact w uid valid q v = (release_pod-exact w.controller uid valid q q v).0

-- An admission that was not refused for its budget and still fails, because the pod could not be
-- read or patched, is rolled back: the pod is under no reservation, every other pod is where the
-- other tasks left it, and the entry is tried again after the jittered delay. The other tasks leave
-- a valid map.
pub try_apply_toleration-rollback :
    (w : Shared) (uid : String) (entry : QueueEntry) (jitter now : ℕ) (fresh : Option FreshPod)
    (patched : Bool) (meanwhile : Shared → Shared)
    → IsValid (meanwhile (hold_slot w uid entry)).controller.occupancy
    → entry.gpu_requested ≤ available w.controller entry.reservation (some uid)
    → (try_apply_toleration w uid entry jitter now fresh patched meanwhile).2 ≡ false
    → (q : ℕ) (v : String)
    → (at q v
          (try_apply_toleration w uid entry jitter now fresh patched
            meanwhile).0.controller.occupancy
        ≡ (if uid == v
            then none
            else at q v (meanwhile (hold_slot w uid entry)).controller.occupancy))
      × ((try_apply_toleration w uid entry jitter now fresh patched meanwhile).1.next_attempt_at
          ≡ now + jitter * 1000000)
unfolding try_apply_toleration
try_apply_toleration-rollback w uid entry jitter now fresh patched meanwhile valid fits failed q v =
    elim (Bool-cases
      (ltb (available w.controller entry.reservation (some uid)) entry.gpu_requested)) [
        | inl e ↦ absurd (ground arith)
        | inr e ↦ rw e (read_back fresh (rw e at failed))
      ]
  where
    left : Shared
    left = meanwhile (hold_slot w uid entry)

    true≢false : true ≡ false → ⊥
    true≢false p = false≢true (sym p)

    read_back :
        (pod : Option FreshPod)
        → (after_read_pod left uid entry jitter now pod patched).2 ≡ false
        → (at q v (after_read_pod left uid entry jitter now pod patched).0.controller.occupancy
            ≡ (if uid == v then none else at q v left.controller.occupancy))
          × ((after_read_pod left uid entry jitter now pod patched).1.next_attempt_at
              ≡ now + jitter * 1000000)
    read_back none h =
        unfold after_read_pod jittered_retry_at in (release_slot-exact left uid valid q v, refl)
    read_back (some pod) h =
        unfold after_read_pod jittered_retry_at in
        (elim (Bool-cases (is_terminal_phase pod)) [
          | inl e ↦ absurd (true≢false (rw e at h))
          | inr e ↦
              elim (Bool-cases (
                pod_has_toleration pod toleration_key entry.gpu_class_label "NoSchedule"
                || patched)) [
                  | inl k ↦ absurd (true≢false (rw (e, k) at h))
                  | inr k ↦ rw (e, k) (release_slot-exact left uid valid q v, refl)
                ]
        ])
