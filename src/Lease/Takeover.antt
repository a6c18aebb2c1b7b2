-- ===== src/Lease/Takeover.antt =====
-- A Lease that its holder of app/k8s_client.py no longer renews is taken over.
use gpu_reservation_controll.Lease.System.{
  ApiServer, Instance, Reads, Step, World, after_read, call_of, confirms, next_guard, settle,
  update,
}
use gpu_reservation_controll.Lease.{
  Decision, LeaseObject, LeaseOutcome, LeaseStatus, LeaseWrite, ReadReply, acquire_after_read,
  claim_found, claim_write, is_other, lease_age_seconds, lease_body, lease_expiry, past,
  renew_after_read, renew_found,
}
use gpu_reservation_controll.Base.{
  Bool, Bool-cases, String, ap, eq_self, false, false≢true, inl, inr, nat_eq, none, option_eq, refl,
  some, string_eq, subst, sym, true, ℕ, ◌==◌, ◌∙◌, ◌≡◌, ◌≤◌,
}
use gpu_reservation_controll.Lease.Guard.{lease_duration_seconds, lease_guard_turn}
use gpu_reservation_controll.Lease.Outcomes.{IsProper, call_of-IsProper}

-- The call writes a replacement of the Lease.
IsReplacement : Decision → Type 0
IsReplacement (Decision.answer o) = ⊥
IsReplacement (Decision.write w o) = (b : LeaseObject) × (w ≡ LeaseWrite.replace b)

call_of-IsReplacement :
    (held : Bool) (holder : String) (now : ℕ) (l : LeaseObject)
    → past (lease_age_seconds l now) (lease_expiry l lease_duration_seconds) ≡ true
    → IsReplacement (call_of held holder now (ReadReply.found l))
unfolding call_of IsReplacement acquire_after_read renew_after_read claim_found renew_found
    claim_write lease_body
call_of-IsReplacement true holder now l late =
    elim (Bool-cases (is_other holder l.spec.holder_identity)) [
      | inl e ↦ rw (e, late) (_, refl)
      | inr e ↦ rw e (_, refl)
    ]
call_of-IsReplacement false holder now l late =
    elim (Bool-cases (l.spec.holder_identity == some holder)) [
      | inl e ↦ rw e (_, refl)
      | inr e ↦ rw (e, late) (_, refl)
    ]

update_self : (f : ℕ → Instance) (i : ℕ) (p : Instance) → update f i p i ≡ p
update_self f i p = rw (eq_self i) refl

confirms-acquired : (status : LeaseStatus) → confirms status ≡ true → status ≡ LeaseStatus.acquired
confirms-acquired LeaseStatus.acquired h = refl
confirms-acquired LeaseStatus.held_by_other h = absurd (false≢true h)
confirms-acquired LeaseStatus.lost h = absurd (false≢true h)
confirms-acquired LeaseStatus.error h = absurd (false≢true h)

-- An instance that has started holds the Lease once it is told that it acquired it.
settled-holds :
    (p : Instance) (o : LeaseOutcome)
    → p.starting ≡ false
    → confirms o.status ≡ true
    → ((settle p o).guard.held ≡ true) × ((settle p o).confirmed ≡ some p.clock)
unfolding settle next_guard lease_guard_turn
settled-holds p o started sure = (rw (started, confirms-acquired o.status sure) refl, rw sure refl)

module _ (api : ApiServer) (name : ℕ → String) where
  -- Where a Lease is stored whose renewal is past its duration, and the API server accepts the
  -- replacement that the call writes, an instance that has started, still runs and waits for nothing
  -- holds the Lease after two steps, its read and its write, whether or not it held it before.
  pub Lease-takeover :
      (w : World api name) (i now : ℕ) (l : LeaseObject)
      → (w.instances i).guard.terminated ≡ false
      → (w.instances i).starting ≡ false
      → (w.instances i).pending ≡ none
      → (w.instances i).clock ≤ now
      → api.stored w.store ≡ some l
      → past (lease_age_seconds l now) (lease_expiry l lease_duration_seconds) ≡ true
      → ((b : LeaseObject) (o : LeaseOutcome)
          → call_of (w.instances i).guard.held (name i) now (ReadReply.found l)
            ≡ Decision.write (LeaseWrite.replace b) o
          → (t : api.Store) × api.Accepts w.store (LeaseWrite.replace b) t)
      → (u v : World api name) × Step api name w u
        × Step api name u v
        × ((v.instances i).guard.held ≡ true)
        × ((v.instances i).confirmed ≡ some now)
  unfolding IsReplacement IsProper after_read
  Lease-takeover w i now l runs started idle le here late accepts =
      written (call_of held (name i) now reply) refl
        (call_of-IsReplacement held (name i) now l late) (call_of-IsProper held (name i) now reply)
    where
      held : Bool
      held = (w.instances i).guard.held

      reply : ReadReply
      reply = ReadReply.found l

      reading : Decision → World api name
      reading d = record {
        store = w.store;
        instances = update w.instances i (after_read (w.instances i) now d);
      }

      written :
          (d : Decision)
          → call_of held (name i) now reply ≡ d
          → IsReplacement d
          → IsProper (name i) now reply d
          → (u v : World api name) × Step api name w u
            × Step api name u v
            × ((v.instances i).guard.held ≡ true)
            × ((v.instances i).confirmed ≡ some now)
      written (Decision.answer o) e replaces proper = absurd replaces
      written (Decision.write c o) e (b, same) proper =
          let (t, ok) = accepts b o (e ∙ ap (λ z. Decision.write z o) same) in
          let waiting =
            update_self w.instances i (after_read (w.instances i) now (Decision.write c o)) in
          let held_last =
            update_self (reading (Decision.write c o)).instances i
              (settle ((reading (Decision.write c o)).instances i) o) in
          let holds =
            settled-holds ((reading (Decision.write c o)).instances i) o
              (ap (λ z. z.starting) waiting ∙ started) proper.1 in
          (
            reading (Decision.write c o),
            record {
              store = t;
              instances =
                  update (reading (Decision.write c o)).instances i
                    (settle ((reading (Decision.write c o)).instances i) o);
            },
            subst (λ z. Step api name w (reading z)) e
                (Step.begin i now reply runs idle le (Reads.present here)),
            Step.accepted i c o t (ap (λ z. z.pending) waiting)
                (subst (λ z. api.Accepts w.store z t) (sym same) ok),
            ap (λ z. z.guard.held) held_last ∙ holds.0,
            ap (λ z. z.confirmed) held_last ∙ holds.1 ∙ ap (λ z. some z.clock) waiting,
          )
