-- ===== src/Forecast/Status.antt =====
-- The status that app/controller.py reports for a pod's guarantee is the one that its preemption
-- goes by.
use gpu_reservation_controll.Forecast.ByUid.{IsOf, get-by_uid}
use gpu_reservation_controll.Forecast.{GuaranteeStatus, plan_guarantee_status, status_at, status_of}
use gpu_reservation_controll.Base.{
  Bool, Bool-cases, In, List, Option, String, ap, get, if◌then◌else◌, inl, inr, ltb, nat_eq, none,
  not, option_eq, refl, some, string_eq, subst, sym, true, ℕ, ◌==◌, ◌∙◌, ◌≡◌,
}
use gpu_reservation_controll.State.{ControllerState, PodRuntimeView, pod_eq}
use gpu_reservation_controll.Guarantee.{guarantee_end, past_guarantee}

abbrev is_over : ℕ → Option ℕ → Bool
is_over now none = true
is_over now (some end) = not (ltb now end)

status_at-over :
    (p : PodRuntimeView) (now : ℕ) (o : Option ℕ)
    → ((status_at p now o).view ≡ p)
      × (((status_at p now o).status == "overstay") ≡ is_over now o)
      × ((status_at p now o).guaranteed_until ≡ (if is_over now o then none else o))
unfolding status_at
status_at-over p now none = (refl, refl, refl)
status_at-over p now (some end) = elim (Bool-cases (ltb now end)) [
  | inl k ↦ rw k (refl, refl, refl)
  | inr k ↦ rw k (refl, refl, refl)
]

past_guarantee-over :
    (s : ControllerState) (rid : Option ℕ) (now : ℕ)
    → past_guarantee s rid now ≡ is_over now (guarantee_end s rid now)
unfolding past_guarantee
past_guarantee-over s rid now = by_end (guarantee_end s rid now)
  where
    by_end : (o : Option ℕ) → elim o [ none ↦ true | some end ↦ not (ltb now end) ] ≡ is_over now o
    by_end none = refl
    by_end (some end) = refl

status_of-past :
    (s : ControllerState) (now : ℕ) (p : PodRuntimeView)
    → ((status_of s now p).view ≡ p)
      × (((status_of s now p).status == "overstay") ≡ past_guarantee s p.reservation_id now)
      × ((status_of s now p).guaranteed_until ≡ (
          if past_guarantee s p.reservation_id now
          then none
          else guarantee_end s p.reservation_id now))
unfolding status_of
status_of-past s now p =
    let over = past_guarantee-over s p.reservation_id now in
    let end = guarantee_end s p.reservation_id now in
    let (view, status, until) = status_at-over p now end in
    (view, status ∙ sym over, until ∙ ap (λ b. if b then none else end) (sym over))

-- The status that is reported under a pod's uid is that of a listed pod, and it is `overstay`
-- exactly where preemption takes the pod's guarantee to be over; otherwise it carries the end of
-- the guarantee.
pub plan_guarantee_status-past :
    (s : ControllerState) (pods : List PodRuntimeView) (now : ℕ) (uid : String)
    (st : GuaranteeStatus)
    → get uid (plan_guarantee_status s pods now) ≡ some st
    → In st.view pods
      × (st.view.uid ≡ uid)
      × ((st.status == "overstay") ≡ past_guarantee s st.view.reservation_id now)
      × (st.guaranteed_until ≡ (
          if past_guarantee s st.view.reservation_id now
          then none
          else guarantee_end s st.view.reservation_id now))
unfolding plan_guarantee_status IsOf
plan_guarantee_status-past s pods now uid st h =
    let (p, m, same, eq) = get-by_uid (status_of s now) pods uid st h in
    let (view, status, until) = status_of-past s now p in
    let here = sym (ap (λ z. z.view) eq) ∙ view in
    (
      subst (λ z. In z pods) (sym here) m,
      ap (λ z. z.uid) here ∙ same,
      sym (ap (λ z. z.status == "overstay") eq)
          ∙ status
          ∙ ap (λ z. past_guarantee s z.reservation_id now) (sym here),
      sym (ap (λ z. z.guaranteed_until) eq)
          ∙ until
          ∙ ap
              (λ z.
                if past_guarantee s z.reservation_id now
                then none
                else guarantee_end s z.reservation_id now)
              (sym here),
    )
