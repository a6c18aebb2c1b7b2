-- ===== src/Preemption.antt =====
-- app/controller.py: the planning of boundary preemption and of headroom. Per GPU class a shortfall
-- and a pool of pods that may be ended are computed, victims are selected from the pool, and a plan
-- is made of them. `random.shuffle` is a parameter, and `ceil(c * p / 100)` is written on integers.
pub mod Demand
pub mod Selection
pub mod Victims
pub mod Headroom
use gpu_reservation_controll.Base.{
  ℕ, String, Option, none, some, Bool, true, false, ◌==◌, string_eq, nat_eq, option_eq, ◌&&◌, not,
  List, [], ◌∷◌, ◌++◌, Dict, get, insert, get_or, collect, keep, contains, sum_by, ltb, leb,
  is_none, if◌then◌else◌, ◌+◌, ◌-◌, ◌*◌, ◌/◌, ℤ, pos, ◌-ℤ◌, clip,
}
use gpu_reservation_controll.Schemas.{ReservationResponse, slot_start, is_booking}
use gpu_reservation_controll.State.{ControllerState, PodRuntimeView}
use gpu_reservation_controll.Matching.{available, effective_label}
use gpu_reservation_controll.Guarantee.{reservations_claimed_by, past_guarantee}
use gpu_reservation_controll.Capacity.{free_capacity_by_class}

pub record BoundaryPreemptionNeed : Type 0 where
  pub boundary : ℕ
  pub phase : String
  pub demand_by_class : Dict String ℕ
  pub free_by_class : Dict String ℤ
  pub kills_needed_by_class : Dict String ℕ
  pub candidates_by_class : Dict String (List PodRuntimeView)

pub record PreemptionPlan : Type 0 where
  pub boundary : ℕ
  pub phase : String
  pub demand_by_class : Dict String ℕ
  pub free_by_class : Dict String ℤ
  pub victims : List PodRuntimeView
  pub unmet_by_class : Dict String ℕ

-- `chained_gpus[rid] = chained_gpus.get(rid, 0) + p.gpu_count`, for each id.
unfoldable pub credit : ℕ → List ℕ → Dict ℕ ℕ → Dict ℕ ℕ
credit gpus [] chained = chained
credit gpus (rid ∷ rids) chained =
    credit gpus rids (insert rid (get_or rid chained 0 + gpus) chained)

module _ (s : ControllerState) (now : ℕ) where
  -- The reservations that a live reserved pod covers.
  unfoldable pub covered_by : PodRuntimeView → List ℕ
  covered_by p =
      if p.node_resident && not p.terminating
      then elim p.reservation_id [ none ↦ [] | some rid ↦ reservations_claimed_by s rid now ]
      else []

  unfoldable pub chained_gpus : List PodRuntimeView → Dict ℕ ℕ → Dict ℕ ℕ
  unfolding credit covered_by
  chained_gpus [] chained = chained
  chained_gpus (p ∷ ps) chained = chained_gpus ps (credit p.gpu_count (covered_by p) chained)

  -- The guards of the loop over the reservations.
  unfoldable pub opens_at : ℕ → ReservationResponse → Bool
  opens_at boundary r =
      is_booking r
      && (not (is_none r.user)
          && ((slot_start r == boundary) && not (contains r.id s.noshow_reservation_ids)))

  unfoldable pub need_of : Dict ℕ ℕ → ReservationResponse → ℕ
  need_of chained r = available s r none - get_or r.id chained 0

  unfoldable pub add_demand : Dict ℕ ℕ → ReservationResponse → Dict String ℕ → Dict String ℕ
  unfolding need_of
  add_demand chained r demand = elim (effective_label s r) [
    | none ↦ demand
    | some label ↦
        if need_of chained r == 0
        then demand
        else insert label (get_or label demand 0 + need_of chained r) demand
  ]

  unfoldable pub demand_loop :
      ℕ → Dict ℕ ℕ → List ReservationResponse → Dict String ℕ → Dict String ℕ
  unfolding opens_at add_demand
  demand_loop boundary chained [] demand = demand
  demand_loop boundary chained (r ∷ rs) demand =
      demand_loop boundary chained rs
        (if opens_at boundary r then add_demand chained r demand else demand)

  unfoldable pub boundary_demand : ℕ → List PodRuntimeView → Dict String ℕ
  unfolding chained_gpus demand_loop
  boundary_demand boundary pods = demand_loop boundary (chained_gpus pods []) s.reservations []

  -- The test of `plan_boundary_candidates` on a pod, which `_headroom_pool` shares.
  unfoldable pub is_eligible : String → PodRuntimeView → Bool
  is_eligible gpu_class p =
      (p.gpu_class == gpu_class)
      && (not (is_none p.reservation_id)
          && (p.node_resident
              && (not p.node_excluded
                  && (not p.terminating
                      && (ltb 0 p.gpu_count && past_guarantee s p.reservation_id now)))))

  unfoldable pub headroom_pool : String → List PodRuntimeView → List PodRuntimeView
  unfolding is_eligible
  headroom_pool gpu_class pods = keep (is_eligible gpu_class) pods

  unfoldable pub overstay_gpus : String → List PodRuntimeView → ℕ
  unfolding headroom_pool
  overstay_gpus gpu_class pods = sum_by (λ p. p.gpu_count) (headroom_pool gpu_class pods)

-- `max(0, need - free.get(gpu_class, 0))`.
unfoldable pub shortfall_of : Dict String ℤ → String → ℕ → ℕ
shortfall_of free gpu_class need = clip (pos need -ℤ get_or gpu_class free (pos 0))

abbrev pub unless_zero : ℕ → Option ℕ
unless_zero n = if n == 0 then none else some n

module _ (s : ControllerState) where
  unfoldable pub plan_boundary_candidates :
      ℕ → Dict String ℕ → List PodRuntimeView → ℕ → BoundaryPreemptionNeed
  unfolding boundary_demand shortfall_of is_eligible
  plan_boundary_candidates boundary capacity_by_class pods now =
      let demand = boundary_demand s now boundary pods in
      let free = free_capacity_by_class capacity_by_class pods in
      record {
        boundary = boundary;
        phase = if leb boundary now then "B" else "A";
        demand_by_class = demand;
        free_by_class = free;
        kills_needed_by_class = collect (λ c need. unless_zero (shortfall_of free c need)) demand;
        candidates_by_class =
            collect
              (λ c need.
                if shortfall_of free c need == 0
                then none
                else some (keep (is_eligible s now c) pods))
              demand;
      }

-- The greedy loop over a shuffled pool.
unfoldable pub pick_until : ℕ → ℕ → List PodRuntimeView → List PodRuntimeView
pick_until kills_needed killed_gpus [] = []
pick_until kills_needed killed_gpus (p ∷ ps) =
    if leb kills_needed killed_gpus
    then []
    else p ∷ pick_until kills_needed (killed_gpus + p.gpu_count) ps

-- `shuffle` is what `rng.shuffle` makes of the pool of a class.
unfoldable pub select_victims_locally :
    (String → List PodRuntimeView → List PodRuntimeView)
    → BoundaryPreemptionNeed
    → Dict String (List PodRuntimeView)
unfolding pick_until
select_victims_locally shuffle need =
    collect (λ c k. some (pick_until k 0 (shuffle c (get_or c need.candidates_by_class []))))
      need.kills_needed_by_class

unfoldable pub all_picked : Dict String (List PodRuntimeView) → Dict String ℕ → List PodRuntimeView
all_picked selected [] = []
all_picked selected ((c, k) ∷ kills) = get_or c selected [] ++ all_picked selected kills

unfoldable pub unmet_of : Dict String (List PodRuntimeView) → String → ℕ → Option ℕ
unmet_of selected gpu_class kills_needed =
    let killed_gpus = sum_by (λ p. p.gpu_count) (get_or gpu_class selected []) in
    if ltb killed_gpus kills_needed then some (kills_needed - killed_gpus) else none

unfoldable pub build_preemption_plan :
    BoundaryPreemptionNeed → Dict String (List PodRuntimeView) → PreemptionPlan
unfolding all_picked unmet_of
build_preemption_plan need selected = record {
  boundary = need.boundary;
  phase = need.phase;
  demand_by_class = need.demand_by_class;
  free_by_class = need.free_by_class;
  victims = all_picked selected need.kills_needed_by_class;
  unmet_by_class = collect (unmet_of selected) need.kills_needed_by_class;
}

unfoldable pub plan_boundary_preemption :
    ControllerState
    → (String → List PodRuntimeView → List PodRuntimeView)
    → ℕ
    → Dict String ℕ
    → List PodRuntimeView
    → ℕ
    → PreemptionPlan
unfolding plan_boundary_candidates select_victims_locally build_preemption_plan
plan_boundary_preemption s shuffle boundary capacity_by_class pods now =
    let need = plan_boundary_candidates s boundary capacity_by_class pods now in
    build_preemption_plan need (select_victims_locally shuffle need)

-- `ceil(capacity * target_percent / 100)`.
unfoldable pub headroom_target : ℕ → ℕ → ℕ
headroom_target target_percent capacity = (capacity * target_percent + 99) / 100

pub record HeadroomShortfall : Type 0 where
  pub target : Dict String ℕ
  pub free : Dict String ℤ
  pub shortfall : Dict String ℕ

unfoldable pub headroom_shortfall_by_class :
    Dict String ℕ → List PodRuntimeView → ℕ → HeadroomShortfall
unfolding headroom_target shortfall_of
headroom_shortfall_by_class capacity_by_class pods target_percent =
    let free = free_capacity_by_class capacity_by_class pods in
    record {
      target = collect (λ c n. some (headroom_target target_percent n)) capacity_by_class;
      free = free;
      shortfall =
          collect (λ c n. unless_zero (shortfall_of free c (headroom_target target_percent n)))
            capacity_by_class;
    }

-- `p.termination_warning_at is not None and p.termination_warning_at <= now`.
unfoldable pub notice_elapsed : ℕ → PodRuntimeView → Bool
notice_elapsed now p = elim p.termination_warning_at [ none ↦ false | some at ↦ leb at now ]

unfoldable pub headroom_candidates :
    ControllerState → List PodRuntimeView → ℕ → Bool → String → List PodRuntimeView
unfolding headroom_pool notice_elapsed
headroom_candidates s pods now require_elapsed_notice gpu_class =
    let pool = headroom_pool s now gpu_class pods in
    if require_elapsed_notice then keep (notice_elapsed now) pool else pool

unfoldable pub plan_headroom_candidates :
    ControllerState → Dict String ℕ → List PodRuntimeView → ℕ → ℕ → Bool → BoundaryPreemptionNeed
unfolding headroom_shortfall_by_class headroom_candidates
plan_headroom_candidates s capacity_by_class pods now target_percent require_elapsed_notice =
    let goal = headroom_shortfall_by_class capacity_by_class pods target_percent in
    record {
      boundary = now;
      phase = "H";
      demand_by_class = collect (λ c k. some (get_or c goal.target 0)) goal.shortfall;
      free_by_class = goal.free;
      kills_needed_by_class = goal.shortfall;
      candidates_by_class =
          collect (λ c k. some (headroom_candidates s pods now require_elapsed_notice c))
            goal.shortfall;
    }
