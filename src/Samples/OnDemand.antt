-- ===== src/Samples/OnDemand.antt =====
-- The theorems on on-demand leases at the sample state.
use gpu_reservation_controll.Base.{arith, nat_eq, option_eq, string_eq, ◌<◌, ◌≡◌, ◌≤◌, ◌⊎◌}
use gpu_reservation_controll.OnDemand.{peak_committed_gpus}
use gpu_reservation_controll.OnDemand.Peak.{calendar, peak_committed_gpus-exact}
use gpu_reservation_controll.Samples.{state}

peak_committed_gpus-exact_example :
    (100 ≤ (peak_committed_gpus state "h100" 100 400).1)
    × ((peak_committed_gpus state "h100" 100 400).1 < 400)
    × (calendar state "h100" (peak_committed_gpus state "h100" 100 400).1
        ≡ (peak_committed_gpus state "h100" 100 400).0)
    × (calendar state "h100" 120 ≤ (peak_committed_gpus state "h100" 100 400).0)
    × (((peak_committed_gpus state "h100" 100 400).1 ≤ 120)
        ⊎ (calendar state "h100" 120 < (peak_committed_gpus state "h100" 100 400).0))
peak_committed_gpus-exact_example =
    peak_committed_gpus-exact state "h100" 100 400 120 (omega arith) (omega arith)
