-- ===== src/Lease/Guard.antt =====
-- app/main.py: what an instance makes of the outcomes of its lease calls, at startup
-- (`_claim_singleton_lease`) and on each tick of `lease_guard_loop`.
use gpu_reservation_controll.Base.{
  Bool, Option, false, nat_eq, none, option_eq, some, string_eq, suc, true, ℕ,
}
use gpu_reservation_controll.Lease.{LeaseStatus}

-- `LEASE_DURATION_SECONDS`.
abbrev pub lease_duration_seconds : ℕ
lease_duration_seconds = 60

pub record Guard : Type 0 where
  pub held : Bool
  pub fails : ℕ
  pub terminated : Bool

-- Whether the Lease is held, or none where the instance does not start.
unfoldable pub claim_singleton_lease : LeaseStatus → Option Bool
claim_singleton_lease LeaseStatus.held_by_other = none
claim_singleton_lease LeaseStatus.error = some false
claim_singleton_lease LeaseStatus.acquired = some true
claim_singleton_lease LeaseStatus.lost = some true

-- One turn of the loop, from the outcome of its call.
unfoldable pub lease_guard_turn : Guard → LeaseStatus → Guard
lease_guard_turn g LeaseStatus.lost = record g { terminated = true }
lease_guard_turn g LeaseStatus.held_by_other = record g { terminated = true }
lease_guard_turn g LeaseStatus.error = record g { fails = suc g.fails }
lease_guard_turn g LeaseStatus.acquired = record g { held = true; fails = 0 }
