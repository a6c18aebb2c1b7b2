-- ===== src/Admission/Retry.antt =====
-- app/main.py: when a candidate is tried again. `jitter` is the draw of `random.randint` over
-- `RETRY_JITTER_RANGE`, in seconds.
use native.Mathlib.Nat.{mul_left_comm}
use gpu_reservation_controll.Base.{
  Bool, Bool-cases, List, Option, String, [], ap, arith, contains, eq_swap, false, false≢true,
  if◌then◌else◌, inl, inr, is_none, leb, max, min, nat_eq, none, not, option_eq, refl, some,
  string_eq, suc, sym, true, zero, ℕ, ◌&&◌, ◌*◌, ◌+◌, ◌-◌, ◌==◌, ◌^◌, ◌||◌, ◌∙◌, ◌∷◌, ◌≡◌, ◌≢◌, ◌≤◌,
  ◌⊎◌,
}
use gpu_reservation_controll.State.{OnDemandCandidate, pod_eq}
use gpu_reservation_controll.Schemas.{ReservationResponse}
use gpu_reservation_controll.Admission.{jittered_retry_at}

-- `ERROR_RETRY_CAP_SECONDS` and `SHORT_RETRY_SECONDS`.
abbrev pub error_retry_cap_seconds : ℕ
error_retry_cap_seconds = 1800

abbrev pub short_retry_seconds : ℕ
short_retry_seconds = 30

unfoldable pub error_retry_at : ℕ → ℕ → ℕ → ℕ
error_retry_at jitter now failures =
    now + 1000000 * min (jitter * 2 ^ (failures - 1)) error_retry_cap_seconds

unfoldable pub denial_retry_at : ℕ → ℕ → Option ℕ → ℕ
unfolding jittered_retry_at
denial_retry_at jitter now not_before =
    let retry_at = jittered_retry_at jitter now in
    elim not_before [
      | none ↦ retry_at
      | some instant ↦ max retry_at (min instant (now + 1000000 * error_retry_cap_seconds))
    ]

unfoldable pub short_retry_at : ℕ → ℕ
short_retry_at now = now + 1000000 * short_retry_seconds

-- app/reservation_client.py: a response to a create, by its status and the envelope of a denial.
pub record LeaseAttempt : Type 0 where
  pub reservation : Option ReservationResponse
  pub status : Option ℕ
  pub detail : Option String
  pub code : Option String
  pub app_retryable : Option Bool
  pub not_before : Option ℕ

-- `LEASE_DENIED_STATUS`.
abbrev pub lease_denied_status : ℕ
lease_denied_status = 409

unfoldable pub is_structural : LeaseAttempt → Bool
is_structural a =
    (a.status == some lease_denied_status)
    && elim a.app_retryable [ none ↦ false | some retry ↦ not retry ]

unfoldable pub is_retryable : LeaseAttempt → Bool
unfolding is_structural
is_retryable a = elim a.status [
  | none ↦ true
  | some status ↦ not (is_structural a) && ((status == lease_denied_status) || leb 500 status)
]

-- `CAPACITY_DENIAL_CODES`.
abbrev pub capacity_denial_codes : List String
capacity_denial_codes = "capacity_physical" ∷ "capacity_cohort" ∷ "capacity_group" ∷ []

unfoldable pub schedule_after_denial : OnDemandCandidate → LeaseAttempt → ℕ → ℕ → OnDemandCandidate
unfolding error_retry_at denial_retry_at is_structural
schedule_after_denial c attempt jitter now =
    let failures = if is_structural attempt then suc c.lease_error_count else 0 in
    record c {
      lease_error_count = failures;
      next_attempt_at =
          if is_structural attempt
          then error_retry_at jitter now failures
          else denial_retry_at jitter now attempt.not_before;
      awaiting_capacity =
          not (is_structural attempt)
          && elim attempt.code [ none ↦ false | some code ↦ contains code capacity_denial_codes ];
    }

-- app/reservation_client.py: why a candidate was withheld from a batch.
pub record AdmissionWithheld : Type 0 where
  pub detail : Option String
  pub code : Option String
  pub app_retryable : Option Bool
  pub not_before : Option ℕ

-- `code == OUTRANKED_CODE`.
unfoldable pub is_outranked : AdmissionWithheld → Bool
is_outranked v = v.code == some "outranked"

unfoldable pub as_denial : AdmissionWithheld → LeaseAttempt
as_denial v = record {
  reservation = none;
  status = some lease_denied_status;
  detail = v.detail;
  code = v.code;
  app_retryable = v.app_retryable;
  not_before = v.not_before;
}

-- `_handle_withheld`, less the events that it posts.
unfoldable pub wait_for_capacity : OnDemandCandidate → ℕ → ℕ → OnDemandCandidate
unfolding jittered_retry_at
wait_for_capacity c jitter now = record c {
  lease_error_count = 0;
  awaiting_capacity = true;
  next_attempt_at = jittered_retry_at jitter now;
}

unfoldable pub handle_withheld :
    OnDemandCandidate → Option AdmissionWithheld → ℕ → ℕ → OnDemandCandidate
unfolding wait_for_capacity schedule_after_denial is_outranked as_denial
handle_withheld c none jitter now = wait_for_capacity c jitter now
handle_withheld c (some v) jitter now =
    if not (is_none v.code) && not (is_outranked v)
    then schedule_after_denial c (as_denial v) jitter now
    else wait_for_capacity c jitter now

-- The delay in seconds after a number of structural refusals in a row: the jittered delay, and twice
-- the delay before it for each that follows, up to half an hour.
unfoldable pub backoff : ℕ → ℕ → ℕ
backoff jitter zero = jitter
backoff jitter (suc k) = min (2 * backoff jitter k) 1800

power_suc : (k : ℕ) → 2 ^ suc k ≡ 2 * 2 ^ k
power_suc k = omega arith

backoff-closed :
    (jitter k : ℕ) → jitter ≤ 300 → min (jitter * 2 ^ k) error_retry_cap_seconds ≡ backoff jitter k
unfolding backoff
backoff-closed jitter zero high = omega arith
backoff-closed jitter (suc k) high = omega (arith, doubled, backoff-closed jitter k high)
  where
    doubled : jitter * 2 ^ suc k ≡ 2 * (jitter * 2 ^ k)
    doubled = rw (power_suc k) (omega (arith, mul_left_comm jitter 2 (2 ^ k)))

-- The jittered delay is over, and the instant at which the app says that the denial clears has
-- come, if it says one; or half an hour is over.
abbrev pub is_rested : ℕ → ℕ → Option ℕ → ℕ → Bool
is_rested jitter now none t = leb (now + 1000000 * jitter) t
is_rested jitter now (some clears) t =
    leb (now + 1000000 * jitter) t && (leb clears t || leb (now + 1000000 * 1800) t)

denial_retry_at-is_rested :
    (jitter now : ℕ) (clears : Option ℕ) (t : ℕ)
    → leb (denial_retry_at jitter now clears) t ≡ is_rested jitter now clears t
unfolding denial_retry_at jittered_retry_at
denial_retry_at-is_rested jitter now none t = ground arith
denial_retry_at-is_rested jitter now (some clears) t = ground arith

abbrev is_capacity_code : Option String → Bool
is_capacity_code code =
    (code == some "capacity_physical")
    || ((code == some "capacity_cohort") || (code == some "capacity_group"))

-- The delay of `error_retry_at` lies between the jittered one and the cap.
backoff_ge : (jitter k : ℕ) → jitter ≤ 300 → (jitter ≤ backoff jitter k) × (backoff jitter k ≤ 1800)
unfolding backoff
backoff_ge jitter zero high = (omega arith, omega arith)
backoff_ge jitter (suc k) high =
    let (low, capped) = backoff_ge jitter k high in (omega (arith, low), omega arith)

error_retry_at-backoff :
    (jitter now k : ℕ)
    → jitter ≤ 300
    → error_retry_at jitter now (suc k) ≡ now + 1000000 * backoff jitter k
unfolding error_retry_at
error_retry_at-backoff jitter now k high =
    rw (add-sub_one k) (ap (λ d. now + 1000000 * d) (backoff-closed jitter k high))
  where
    add-sub_one : (n : ℕ) → suc n - 1 ≡ n
    add-sub_one n = omega arith

denial_retry_at_between :
    (jitter now : ℕ) (clears : Option ℕ)
    → jitter ≤ 300
    → (now + 1000000 * jitter ≤ denial_retry_at jitter now clears)
      × (denial_retry_at jitter now clears ≤ now + 1000000 * 1800)
unfolding denial_retry_at jittered_retry_at
denial_retry_at_between jitter now none high = (omega arith, omega arith)
denial_retry_at_between jitter now (some clears) high = (omega arith, omega arith)

is_structural-true :
    (a : LeaseAttempt)
    → is_structural a ≡ true
    → (a.status ≡ some 409) × (a.app_retryable ≡ some false)
unfolding is_structural
is_structural-true a h = (
  (option_eq.beq_iff a.status (some 409)).0 (ground arith),
  says_no a.app_retryable (ground arith),
)
  where
    says_no :
        (o : Option Bool) → elim o [ none ↦ false | some retry ↦ not retry ] ≡ true → o ≡ some false
    says_no none h = cc
    says_no (some true) h = cc
    says_no (some false) h = refl

is_structural-false :
    (a : LeaseAttempt)
    → is_structural a ≡ false
    → (a.status ≢ some 409) ⊎ (a.app_retryable ≢ some false)
unfolding is_structural
is_structural-false a h = elim (Bool-cases (a.status == some 409)) [
  | inl e ↦ inr (λ q. false≢true (sym h ∙ rw (e, q) refl))
  | inr e ↦ inl (λ q. false≢true (sym e ∙ (option_eq.beq_iff a.status (some 409)).1 q))
]

is_capacity_code-contains :
    (code : Option String)
    → elim code [ none ↦ false | some c ↦ contains c capacity_denial_codes ] ≡ is_capacity_code code
unfolding contains
is_capacity_code-contains none = ground arith
is_capacity_code-contains (some c) =
    ground (
      arith,
      eq_swap "capacity_physical" c,
      eq_swap "capacity_cohort" c,
      eq_swap "capacity_group" c,
    )

-- Where the jitter is between 120 and 300 seconds: the cooldown that a refusal sets is at least
-- the jittered delay and at most half an hour. A structural refusal, a 409 that says that waiting
-- does not help, counts as one more in a row, ends any waiting for capacity, and sets the jittered
-- delay, doubled for each that came before it in the row, up to half an hour. Any other refusal
-- starts the count anew, sets the candidate to wait for capacity exactly where its code is one of
-- the three of capacity, and sets a cooldown that is over at `t` exactly where the jittered delay
-- is over, and either the instant at which the app says that the refusal clears has come, if it
-- says one, or half an hour is over.
pub schedule_after_denial-exact :
    (c : OnDemandCandidate) (attempt : LeaseAttempt) (jitter now t : ℕ)
    → 120 ≤ jitter
    → jitter ≤ 300
    → (now + 1000000 * jitter ≤ (schedule_after_denial c attempt jitter now).next_attempt_at)
      × ((schedule_after_denial c attempt jitter now).next_attempt_at ≤ now + 1000000 * 1800)
      × (((attempt.status ≡ some 409)
            × (attempt.app_retryable ≡ some false)
            × ((schedule_after_denial c attempt jitter now).lease_error_count
                ≡ suc c.lease_error_count)
            × ((schedule_after_denial c attempt jitter now).awaiting_capacity ≡ false)
            × ((schedule_after_denial c attempt jitter now).next_attempt_at
                ≡ now + 1000000 * backoff jitter c.lease_error_count))
          ⊎ (((attempt.status ≢ some 409) ⊎ (attempt.app_retryable ≢ some false))
              × ((schedule_after_denial c attempt jitter now).lease_error_count ≡ 0)
              × ((schedule_after_denial c attempt jitter now).awaiting_capacity
                  ≡ is_capacity_code attempt.code)
              × (leb (schedule_after_denial c attempt jitter now).next_attempt_at t
                  ≡ is_rested jitter now attempt.not_before t)))
unfolding schedule_after_denial
schedule_after_denial-exact c attempt jitter now t low high =
    elim (Bool-cases (is_structural attempt)) [
      | inl e ↦
          let (status, retryable) = is_structural-true attempt e in
          let (low, capped) = backoff_ge jitter c.lease_error_count high in
          let at = error_retry_at-backoff jitter now c.lease_error_count high in
          rw (e, at)
            (omega (arith, low), omega (arith, capped), inl (status, retryable, refl, refl, refl))
      | inr e ↦
          let (low, capped) = denial_retry_at_between jitter now attempt.not_before high in
          rw e (
            low,
            capped,
            inr (
              is_structural-false attempt e,
              refl,
              is_capacity_code-contains attempt.code,
              denial_retry_at-is_rested jitter now attempt.not_before t,
            ),
          )
    ]
