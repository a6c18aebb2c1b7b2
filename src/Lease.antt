-- ===== src/Lease.antt =====
-- app/k8s_client.py: claiming and renewing the Lease that keeps a second controller away. What the
-- API server answers is an argument: the reply to the read, and for a write an error or none. A
-- call is cut in two at the write, `Decision` being what it does next, so that the calls of
-- several instances can be interleaved. The instant that a call reads from the clock is `now`.
pub mod Guard
pub mod Outcomes
pub mod System
pub mod Exclusion
pub mod Takeover
use gpu_reservation_controll.Base.{
  Bool, Option, String, false, if◌then◌else◌, leb, ltb_ℤ, nat_eq, negsuc, none, not, option_eq, pos,
  some, string_eq, suc, true, ℕ, ℤ, ◌&&◌, ◌-◌, ◌/◌, ◌==◌,
}

pub data LeaseStatus : Type 0 where
  acquired held_by_other lost error : LeaseStatus

pub data LeaseMode : Type 0 where
  created reacquired takeover renewed : LeaseMode

pub record LeaseOutcome : Type 0 where
  pub status : LeaseStatus
  pub holder : Option String
  pub age_s : Option ℤ
  pub mode : Option LeaseMode
  pub err : Option String

pub record LeaseSpec : Type 0 where
  pub holder_identity : Option String
  pub lease_duration_seconds : Option ℕ
  pub acquire_time : Option ℕ
  pub renew_time : Option ℕ
  pub lease_transitions : Option ℕ

-- A Lease as the API server gives it, or as it is sent.
pub record LeaseObject : Type 0 where
  pub resource_version : Option String
  pub spec : LeaseSpec

-- `read_namespaced_lease`: the Lease, a 404, or any other exception by its text.
pub data ReadReply : Type 0 where
  found : LeaseObject → ReadReply
  not_found : String → ReadReply
  failed : String → ReadReply

-- `create_namespaced_lease` and `replace_namespaced_lease`.
pub data LeaseWrite : Type 0 where
  create replace : LeaseObject → LeaseWrite

abbrev pub body_of : LeaseWrite → LeaseObject
body_of (create b) = b
body_of (replace b) = b

-- What a call does after its read: it returns, or it writes and returns if the write succeeds.
pub data Decision : Type 0 where
  answer : LeaseOutcome → Decision
  write : LeaseWrite → LeaseOutcome → Decision

-- `x or d` for a number that may be absent.
unfoldable pub or_number : Option ℕ → ℕ → ℕ
or_number none d = d
or_number (some n) d = if n == 0 then d else n

-- `int(td.total_seconds())`, which drops the fraction towards 0.
unfoldable pub whole_seconds : ℕ → ℕ → ℤ
whole_seconds now renewal =
    if leb renewal now
    then pos ((now - renewal) / 1000000)
    else (let back = (renewal - now) / 1000000 in if back == 0 then pos 0 else negsuc (back - 1))

unfoldable pub lease_age_seconds : LeaseObject → ℕ → Option ℤ
unfolding whole_seconds
lease_age_seconds lease now = elim lease.spec.renew_time [
  | none ↦ none
  | some renewal ↦ some (whole_seconds now renewal)
]

-- `str(rv) if rv else None`.
unfoldable pub lease_resource_version : LeaseObject → Option String
lease_resource_version lease = elim lease.resource_version [
  | none ↦ none
  | some rv ↦ if rv == "" then none else some rv
]

unfoldable pub lease_body : String → ℕ → ℕ → Bool → ℕ → Option String → LeaseObject
lease_body holder duration_s now acquire transitions resource_version = record {
  resource_version = resource_version;
  spec = record {
    holder_identity = some holder;
    lease_duration_seconds = some duration_s;
    acquire_time = if acquire then some now else none;
    renew_time = some now;
    lease_transitions = some transitions;
  };
}

-- `LeaseOutcome(status="error", err=str(exc))`.
abbrev pub lease_error : String → LeaseOutcome
lease_error exc = record {
  status = LeaseStatus.error;
  holder = none;
  age_s = none;
  mode = none;
  err = some exc;
}

abbrev pub lease_acquired : String → LeaseMode → Option ℤ → LeaseOutcome
lease_acquired holder mode age = record {
  status = LeaseStatus.acquired;
  holder = some holder;
  age_s = age;
  mode = some mode;
  err = none;
}

-- Another identity's Lease: `held_by_other` or `lost`.
abbrev pub lease_taken : LeaseStatus → Option String → ℤ → LeaseOutcome
lease_taken status holder age = record {
  status = status;
  holder = holder;
  age_s = some age;
  mode = none;
  err = none;
}

unfoldable pub lease_expiry : LeaseObject → ℕ → ℕ
unfolding or_number
lease_expiry lease duration_s = or_number lease.spec.lease_duration_seconds duration_s

unfoldable pub claim_write : String → ℕ → ℕ → LeaseObject → LeaseMode → ℕ → Option ℤ → Decision
unfolding lease_body lease_resource_version
claim_write holder duration_s now lease mode transitions age =
    Decision.write
      (LeaseWrite.replace
        (lease_body holder duration_s now true transitions (lease_resource_version lease)))
      (lease_acquired holder mode age)

-- `age is None or age > expiry`.
unfoldable pub past : Option ℤ → ℕ → Bool
past none expiry = true
past (some age) expiry = ltb_ℤ (pos expiry) age

-- The answer where another identity holds an unexpired Lease: its age is known then, since an
-- unknown one counts as past.
unfoldable pub claim_refused : LeaseStatus → LeaseObject → Option ℤ → Decision
claim_refused status lease none =
    Decision.answer (lease_taken status lease.spec.holder_identity (pos 0))
claim_refused status lease (some age) =
    Decision.answer (lease_taken status lease.spec.holder_identity age)

unfoldable pub claim_found : String → ℕ → ℕ → LeaseObject → Decision
unfolding claim_write past claim_refused lease_age_seconds lease_expiry or_number
claim_found holder duration_s now lease =
    let age = lease_age_seconds lease now in
    let transitions = or_number lease.spec.lease_transitions 0 in
    if lease.spec.holder_identity == some holder
    then claim_write holder duration_s now lease LeaseMode.reacquired transitions none
    else if past age (lease_expiry lease duration_s)
    then claim_write holder duration_s now lease LeaseMode.takeover (suc transitions) age
    else claim_refused LeaseStatus.held_by_other lease age

-- `acquire_singleton_lease` up to its write.
unfoldable pub acquire_after_read : String → ℕ → ℕ → ReadReply → Decision
unfolding claim_found lease_body
acquire_after_read holder duration_s now (ReadReply.found lease) =
    claim_found holder duration_s now lease
acquire_after_read holder duration_s now (ReadReply.not_found exc) =
    Decision.write (LeaseWrite.create (lease_body holder duration_s now true 0 none))
      (lease_acquired holder LeaseMode.created none)
acquire_after_read holder duration_s now (ReadReply.failed exc) = Decision.answer (lease_error exc)

-- `current is not None and current != holder`.
unfoldable pub is_other : String → Option String → Bool
is_other holder none = false
is_other holder (some current) = not (current == holder)

unfoldable pub renew_found : String → ℕ → ℕ → LeaseObject → Decision
unfolding past claim_refused lease_age_seconds lease_expiry is_other lease_body
    lease_resource_version
renew_found holder duration_s now lease =
    let age = lease_age_seconds lease now in
    if is_other holder lease.spec.holder_identity && not (past age (lease_expiry lease duration_s))
    then claim_refused LeaseStatus.lost lease age
    else Decision.write
        (LeaseWrite.replace (
          lease_body holder duration_s now false (or_number lease.spec.lease_transitions 0)
            (lease_resource_version lease)))
        (lease_acquired holder LeaseMode.renewed none)

-- `renew_singleton_lease` up to its write: here a Lease that is not found is an error.
unfoldable pub renew_after_read : String → ℕ → ℕ → ReadReply → Decision
unfolding renew_found
renew_after_read holder duration_s now (ReadReply.found lease) =
    renew_found holder duration_s now lease
renew_after_read holder duration_s now (ReadReply.not_found exc) = Decision.answer (lease_error exc)
renew_after_read holder duration_s now (ReadReply.failed exc) = Decision.answer (lease_error exc)

-- The end of a call, from what the API server says to its write: an error's text, or none.
unfoldable pub complete : Decision → (LeaseWrite → Option String) → LeaseOutcome
complete (Decision.answer o) reply = o
complete (Decision.write w o) reply = elim (reply w) [ none ↦ o | some exc ↦ lease_error exc ]

unfoldable pub acquire_singleton_lease :
    String → ℕ → ℕ → ReadReply → (LeaseWrite → Option String) → LeaseOutcome
unfolding complete acquire_after_read
acquire_singleton_lease holder duration_s now read reply =
    complete (acquire_after_read holder duration_s now read) reply

unfoldable pub renew_singleton_lease :
    String → ℕ → ℕ → ReadReply → (LeaseWrite → Option String) → LeaseOutcome
unfolding complete renew_after_read
renew_singleton_lease holder duration_s now read reply =
    complete (renew_after_read holder duration_s now read) reply
