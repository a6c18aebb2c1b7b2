-- ===== src/Samples/Forecast.antt =====
-- The theorems on warnings and guarantee statuses at the sample state.
use gpu_reservation_controll.Base.{
  In, String, [], ap, collect, contains, false≢true, first, get, get_or, has_key, if◌then◌else◌,
  inl, inr, insert, keep, nat_eq, none, option_eq, refl, some, sort_by, string_eq, sum_by, sym, ℕ,
  ◌-ℤ◌, ◌-◌, ◌==◌, ◌∙◌, ◌∷◌, ◌≡◌, ◌≤◌, ◌⊎◌,
}
use gpu_reservation_controll.State.{PodRuntimeView, pod_eq}
use gpu_reservation_controll.Guarantee.{guarantee_end, past_guarantee, reservations_claimed_by}
use gpu_reservation_controll.Schemas.{owned_by}
use gpu_reservation_controll.Matching.{available}
use gpu_reservation_controll.Forecast.{
  GuaranteeStatus, TerminationWarning, by_uid, plan_guarantee_status, plan_termination_warnings,
}
use gpu_reservation_controll.Forecast.Status.{plan_guarantee_status-past}
use gpu_reservation_controll.Forecast.Warnings.{plan_termination_warnings-due}
use gpu_reservation_controll.Samples.{capacity, leased, overdue, pods, state}

abbrev overdue_status : GuaranteeStatus
overdue_status = record { view = overdue; status = "overstay"; guaranteed_until = none }

overdue_reported : get "pod-b" (plan_guarantee_status state pods 120) ≡ some overdue_status
unfolding plan_guarantee_status get by_uid insert first
overdue_reported = refl

plan_guarantee_status-past_example :
    In overdue pods
    × (overdue.uid ≡ "pod-b")
    × ((overdue_status.status == "overstay") ≡ past_guarantee state overdue.reservation_id 120)
    × (overdue_status.guaranteed_until ≡ (
        if past_guarantee state overdue.reservation_id 120
        then none
        else guarantee_end state overdue.reservation_id 120))
plan_guarantee_status-past_example =
    plan_guarantee_status-past state pods 120 "pod-b" overdue_status overdue_reported

abbrev leased_warning : TerminationWarning
leased_warning = record {
  view = leased;
  terminate_at = 150;
  risk = record { num = 2; den = 2 };
  boundary = some 200;
}

leased_warned :
    get "pod-a" (plan_termination_warnings state (200 ∷ []) capacity pods 120 60)
    ≡ some leased_warning
unfolding plan_termination_warnings get by_uid insert sort_by collect contains available sum_by keep
    get_or reservations_claimed_by first ◌-ℤ◌ has_key owned_by
leased_warned = refl

different_pods : (q r : PodRuntimeView) → In q pods → In r pods → q.uid ≡ r.uid → q ≡ r
different_pods q r (inl a) (inl b) h = sym a ∙ b
different_pods q r (inl a) (inr (inl b)) h =
    absurd (not_same (ap (λ z. z.uid) a ∙ h ∙ sym (ap (λ z. z.uid) b)))
  where
    not_same : ◌≡◌ {A = String} "pod-a" "pod-b" → ⊥
    not_same p = false≢true (ap (λ z. z == "pod-b") p)
different_pods q r (inl a) (inr (inr n)) h = absurd n.0
different_pods q r (inr (inl a)) (inl b) h =
    absurd (not_same (ap (λ z. z.uid) a ∙ h ∙ sym (ap (λ z. z.uid) b)))
  where
    not_same : ◌≡◌ {A = String} "pod-b" "pod-a" → ⊥
    not_same p = false≢true (ap (λ z. z == "pod-a") p)
different_pods q r (inr (inl a)) (inr (inl b)) h = sym a ∙ b
different_pods q r (inr (inl a)) (inr (inr n)) h = absurd n.0
different_pods q r (inr (inr n)) m h = absurd n.0

plan_termination_warnings-due_example :
    (b : ℕ) × In b (200 ∷ [])
    × (leased_warning.boundary ≡ some b)
    × In leased pods
    × (leased.uid ≡ "pod-a")
    × (b - 60 ≤ 150)
    × (150 ≤ b)
    × ((guarantee_end state leased.reservation_id 120 ≡ none)
        ⊎ ((end : ℕ) × (guarantee_end state leased.reservation_id 120 ≡ some end) × (end ≤ 150)))
plan_termination_warnings-due_example =
    plan_termination_warnings-due state (200 ∷ []) capacity pods 120 60 "pod-a" leased_warning
      different_pods leased_warned
