-- ===== src/Lease/Outcomes.antt =====
-- What app/k8s_client.py's lease calls write and report.
use gpu_reservation_controll.Lease.System.{call_of, confirms}
use gpu_reservation_controll.Lease.{
  Decision, LeaseMode, LeaseObject, LeaseStatus, LeaseWrite, ReadReply, acquire_after_read, body_of,
  claim_found, claim_refused, claim_write, is_other, lease_acquired, lease_age_seconds, lease_body,
  lease_expiry, lease_resource_version, or_number, past, renew_after_read, renew_found,
  whole_seconds,
}
use gpu_reservation_controll.Base.{
  Bool, Bool-cases, Option, String, ap, arith, eq_self, false, false≢true, if◌then◌else◌, inl, inr,
  leb, ltb_ℤ, nat_eq, negsuc, none, option_beq_iff, option_eq, pos, refl, some, string_eq, subst,
  sym, true, ℕ, ℤ, ◌*◌, ◌+◌, ◌-◌, ◌/◌, ◌<◌, ◌==◌, ◌≡◌, ◌⊎◌,
}
use gpu_reservation_controll.Lease.Guard.{lease_duration_seconds}

-- A Lease may be replaced at `now` for `holder`: whoever else it names, with the duration that the
-- controller sets, has not renewed it for longer than that.
unfoldable pub MayReplace : String → ℕ → LeaseObject → Type 0
MayReplace holder now l =
    (h : String) (r : ℕ)
    → l.spec.holder_identity ≡ some h
    → l.spec.renew_time ≡ some r
    → l.spec.lease_duration_seconds ≡ some lease_duration_seconds
    → (h ≡ holder) ⊎ (r + 1000000 * lease_duration_seconds < now)

-- What a call writes: a Lease of its own, renewed now; a replacement stands on a Lease as it was read.
pub record IsClaim (holder : String) (now : ℕ) (reply : ReadReply) (w : LeaseWrite) : Type 0 where
  pub claims : (body_of w).spec.holder_identity ≡ some holder
  pub duration : (body_of w).spec.lease_duration_seconds ≡ some lease_duration_seconds
  pub renewal : (body_of w).spec.renew_time ≡ some now
  pub stands_on :
      (b : LeaseObject)
      → w ≡ LeaseWrite.replace b
      → (l : LeaseObject) × (reply ≡ ReadReply.found l)
        × (b.resource_version ≡ lease_resource_version l)
        × MayReplace holder now l

past-late :
    (r now : ℕ)
    → past (some (whole_seconds now r)) lease_duration_seconds ≡ true
    → r + 1000000 * lease_duration_seconds < now
unfolding past whole_seconds
past-late r now h = elim (Bool-cases (leb r now)) [
  | inl e ↦ ground (arith, e)
  | inr e ↦ absurd (not_late (rw e at h))
]
  where
    not_late :
        ltb_ℤ
            (pos lease_duration_seconds)
            (let back = (r - now) / 1000000 in if back == 0 then pos 0 else negsuc (back - 1))
          ≡ true
        → ⊥
    not_late k = ground arith

past-MayReplace :
    (holder : String) (now : ℕ) (l : LeaseObject)
    → past (lease_age_seconds l now) (lease_expiry l lease_duration_seconds) ≡ true
    → MayReplace holder now l
unfolding MayReplace lease_expiry or_number lease_age_seconds
past-MayReplace holder now l h k r p q d = inr (past-late r now (now_past q d))
  where
    now_past :
        l.spec.renew_time ≡ some r
        → l.spec.lease_duration_seconds ≡ some lease_duration_seconds
        → past (some (whole_seconds now r)) lease_duration_seconds ≡ true
    now_past q d = rw (q, d) at h

own-MayReplace :
    (holder : String) (now : ℕ) (l : LeaseObject)
    → is_other holder l.spec.holder_identity ≡ false
    → MayReplace holder now l
unfolding MayReplace is_other
own-MayReplace holder now l h k r p q d =
    inl ((string_eq.beq_iff k holder).0 (ground (arith, same)))
  where
    same : is_other holder (some k) ≡ false
    same = subst (λ o. is_other holder o ≡ false) p h

-- A call that returns at once does not say that the Lease is held; one that writes does, and
-- writes a claim.
unfoldable pub IsProper : String → ℕ → ReadReply → Decision → Type 0
IsProper holder now reply (Decision.answer o) = confirms o.status ≡ false
IsProper holder now reply (Decision.write w o) =
    IsClaim holder now reply w × (confirms o.status ≡ true)

claim_write-IsProper :
    (holder : String) (now : ℕ) (l : LeaseObject) (acquire : Bool) (transitions : ℕ)
    (mode : LeaseMode) (age : Option ℤ)
    → MayReplace holder now l
    → IsProper holder now (ReadReply.found l) (
        Decision.write
          (LeaseWrite.replace (
            lease_body holder lease_duration_seconds now acquire transitions
              (lease_resource_version l)))
          (lease_acquired holder mode age))
unfolding IsProper lease_body
claim_write-IsProper holder now l acquire transitions mode age may = (
  record {
    claims = refl;
    duration = refl;
    renewal = refl;
    stands_on = λ b e. (l, refl, ap (λ w. (body_of w).resource_version) (sym e), may);
  },
  refl,
)

claim_refused-IsProper :
    (holder : String) (now : ℕ) (reply : ReadReply) (status : LeaseStatus) (l : LeaseObject)
    (age : Option ℤ)
    → confirms status ≡ false
    → IsProper holder now reply (claim_refused status l age)
unfolding IsProper claim_refused
claim_refused-IsProper holder now reply status l none h = h
claim_refused-IsProper holder now reply status l (some age) h = h

acquire_after_read-IsProper :
    (holder : String) (now : ℕ) (reply : ReadReply)
    → IsProper holder now reply (acquire_after_read holder lease_duration_seconds now reply)
acquire_after_read-IsProper holder now (ReadReply.failed e) =
    unfold acquire_after_read IsProper in refl
acquire_after_read-IsProper holder now (ReadReply.not_found e) =
    unfold acquire_after_read IsProper lease_body in
    (
      record {
        claims = refl;
        duration = refl;
        renewal = refl;
        stands_on = λ b p. absurd (false≢true (ap is_replace p));
      },
      refl,
    )
  where
    is_replace : LeaseWrite → Bool
    is_replace (LeaseWrite.create b) = false
    is_replace (LeaseWrite.replace b) = true
acquire_after_read-IsProper holder now (ReadReply.found l) =
    unfold acquire_after_read claim_found claim_write in
    elim (Bool-cases (l.spec.holder_identity == some holder)) [
      | inl own ↦
          rw own (
            claim_write-IsProper holder now l true _ _ _
              (own-MayReplace holder now l (its_own own)))
      | inr other ↦
          rw other
            (elim (Bool-cases
              (past (lease_age_seconds l now) (lease_expiry l lease_duration_seconds))) [
                | inl late ↦ rw late (
                    claim_write-IsProper holder now l true _ _ _
                      (past-MayReplace holder now l late))
                | inr live ↦ rw live (claim_refused-IsProper holder now _ _ l _ refl)
              ])
    ]
  where
    its_own :
        (l.spec.holder_identity == some holder) ≡ true
        → is_other holder l.spec.holder_identity ≡ false
    its_own own =
        subst (λ o. is_other holder o ≡ false) (sym ((option_beq_iff _ _).0 own))
          (unfold is_other in ground (arith, eq_self holder))

renew_after_read-IsProper :
    (holder : String) (now : ℕ) (reply : ReadReply)
    → IsProper holder now reply (renew_after_read holder lease_duration_seconds now reply)
renew_after_read-IsProper holder now (ReadReply.failed e) = unfold renew_after_read IsProper in refl
renew_after_read-IsProper holder now (ReadReply.not_found e) =
    unfold renew_after_read IsProper in refl
renew_after_read-IsProper holder now (ReadReply.found l) =
    unfold renew_after_read renew_found in
    elim (Bool-cases (is_other holder l.spec.holder_identity)) [
      | inl other ↦
          elim (Bool-cases
            (past (lease_age_seconds l now) (lease_expiry l lease_duration_seconds))) [
              | inl late ↦
                  rw (other, late)
                    (claim_write-IsProper holder now l false _ _ _
                      (past-MayReplace holder now l late))
              | inr live ↦ rw (other, live) (claim_refused-IsProper holder now _ _ l _ refl)
            ]
      | inr own ↦
          rw own (claim_write-IsProper holder now l false _ _ _ (own-MayReplace holder now l own))
    ]

pub call_of-IsProper :
    (held : Bool) (holder : String) (now : ℕ) (reply : ReadReply)
    → IsProper holder now reply (call_of held holder now reply)
unfolding call_of
call_of-IsProper true holder now reply = renew_after_read-IsProper holder now reply
call_of-IsProper false holder now reply = acquire_after_read-IsProper holder now reply
