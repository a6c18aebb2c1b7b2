-- ===== src/Queue/Pending.antt =====
-- What app/controller.py remembers of the statuses that it told the owners of pods.
use gpu_reservation_controll.Base.{
  ℕ, ◌≡◌, ◌+◌, refl, ap, ◌∙◌, String, Option, none, some, Bool, true, ◌==◌, string_eq, ◌&&◌, ◌||◌,
  not, [], get, get_or, insert, get-insert, get_or-insert, leb, if◌then◌else◌, arith, Bool-cases,
  inl, inr,
}
use gpu_reservation_controll.State.{ControllerState, PendingStatus}
use gpu_reservation_controll.Queue.{pending_status_due, record_pending_status}

-- Whether a status that was told at some time has to be told again.
abbrev pub is_news : PendingStatus → String × String → ℕ → ℕ → Bool
is_news told (reason, detail) now repeat =
    not ((told.key.0 == reason) && (told.key.1 == detail)) || leb (told.at + repeat) now

module _ (s : ControllerState) where
  abbrev told_to : String → String → Option PendingStatus
  told_to q t = get t (get_or q s.pending_status [])

  due-told :
      (q t : String) (key : String × String) (now repeat : ℕ)
      → pending_status_due s q t key now repeat
        ≡ elim (told_to q t) [ none ↦ true | some told ↦ is_news told key now repeat ]
  unfolding pending_status_due
  due-told q t (reason, detail) now repeat = refl

told-recorded :
    (s : ControllerState) (p topic q t : String) (key : String × String) (at : ℕ)
    → told_to (record_pending_status s p topic key at) q t
      ≡ (if (p == q) && (topic == t) then some (record { key = key; at = at }) else told_to s q t)
unfolding record_pending_status
told-recorded s p topic q t key at = ground (
  arith,
  get_or-insert p q (insert topic (record { key = key; at = at }) (get_or p s.pending_status [])) []
      s.pending_status,
  get-insert topic t (record { key = key; at = at }) (get_or p s.pending_status []),
  string_eq.beq_iff p q,
)

-- Once a status is recorded, the same pod is told on the same topic again only when the status
-- differs or the repeat time is over; every other pod and topic is as before.
pub record_pending_status-due :
    (s : ControllerState) (p topic q t : String) (key other : String × String) (at now repeat : ℕ)
    → pending_status_due (record_pending_status s p topic key at) q t other now repeat ≡ (
        if (p == q) && (topic == t)
        then is_news (record { key = key; at = at }) other now repeat
        else pending_status_due s q t other now repeat)
record_pending_status-due s p topic q t key other at now repeat =
    elim (Bool-cases ((p == q) && (topic == t))) [
      | inl e ↦ rw e (ground (arith, after, due-told s q t other now repeat, e))
      | inr e ↦ rw e (ground (arith, after, due-told s q t other now repeat, e))
    ]
  where
    fresh : PendingStatus
    fresh = record { key = key; at = at }

    after :
        pending_status_due (record_pending_status s p topic key at) q t other now repeat
        ≡ elim (if (p == q) && (topic == t) then some fresh else told_to s q t) [
          | none ↦ true
          | some told ↦ is_news told other now repeat
        ]
    after =
        due-told (record_pending_status s p topic key at) q t other now repeat
        ∙ ap (λ o. elim o [ none ↦ true | some told ↦ is_news told other now repeat ])
            (told-recorded s p topic q t key at)
