-- ===== src/Forecast.antt =====
-- app/controller.py: what lies ahead of a pod. The booking boundaries in reach, the shortfall that
-- each brings, the warnings that follow for pods, and the live status of each guarantee. A risk,
-- `min(1.0, a / b)` in floating point, is the exact ratio here.
pub mod ByUid
pub mod Status
pub mod Warnings
use gpu_reservation_controll.Base.{
  Bool, Dict, List, Option, String, [], collect, contains, get, get_or, has_key, if◌then◌else◌,
  insert, is_none, keep, leb, ltb, map, min, nat_eq, none, not, option_eq, some, sort_by, string_eq,
  suc, sum_by, true, union, zero, ℕ, ℤ, ◌&&◌, ◌*◌, ◌++◌, ◌+◌, ◌-◌, ◌/◌, ◌==◌, ◌∷◌,
}
use gpu_reservation_controll.Schemas.{ReservationResponse, is_booking, slot_start}
use gpu_reservation_controll.State.{ControllerState, PodRuntimeView, pod_eq}
use gpu_reservation_controll.Guarantee.{guarantee_end}
use gpu_reservation_controll.Capacity.{free_capacity_by_class}
use gpu_reservation_controll.Preemption.{
  boundary_demand, headroom_pool, headroom_shortfall_by_class, shortfall_of, unless_zero,
}
use gpu_reservation_controll.Push.{index}

-- An hour, and `FORECAST_BUCKET_COUNT`.
abbrev pub hour : ℕ
hour = 3600000000

abbrev pub forecast_bucket_count : ℕ
forecast_bucket_count = 3

unfoldable pub later_buckets : ℕ → ℕ → List (ℕ × ℕ)
later_buckets zero start = []
later_buckets (suc n) start = (start, start + hour) ∷ later_buckets n (start + hour)

-- The first ends with the hour that `now` is in.
unfoldable pub forecast_buckets : ℕ → ℕ → List (ℕ × ℕ)
unfolding later_buckets
forecast_buckets now count =
    let first_end = now / hour * hour + hour in
    (now, first_end) ∷ later_buckets (count - 1) first_end

unfoldable pub bucket_indices : ℕ → ℕ → ℕ → List (ℕ × ℕ) → List ℕ
bucket_indices start end i [] = []
bucket_indices start end i ((s, e) ∷ buckets) =
    let rest = bucket_indices start end (suc i) buckets in
    if ltb start e && leb s end then i ∷ rest else rest

unfoldable pub overlapping_bucket_indices : ℕ → ℕ → List (ℕ × ℕ) → List ℕ
unfolding bucket_indices
overlapping_bucket_indices start end buckets = bucket_indices start end 0 buckets

-- `sorted({slot_start(r) for r in self.reservations if ...})`.
unfoldable pub starts_where : (ReservationResponse → Bool) → ControllerState → List ℕ
starts_where p s = sort_by (λ t. t) (union [] (map slot_start (keep p s.reservations)))

-- `now - lead < start <= now + lead`.
unfoldable pub upcoming_boundaries : ControllerState → ℕ → ℕ → List ℕ
unfolding starts_where
upcoming_boundaries s now lead =
    starts_where
      (λ r. is_booking r && (ltb now (slot_start r + lead) && leb (slot_start r) (now + lead))) s

unfoldable pub forecast_boundaries : ControllerState → ℕ → ℕ → List ℕ
unfolding starts_where
forecast_boundaries s now horizon_end =
    starts_where
      (λ r.
        is_booking r
        && (not (contains r.id s.noshow_reservation_ids)
            && (ltb now (slot_start r) && leb (slot_start r) horizon_end)))
      s

-- `b <= now - lead` marks a boundary that is over.
unfoldable pub prune_preemption_marks : ControllerState → ℕ → ℕ → ControllerState
prune_preemption_marks s now lead = record s {
  preemption_fired = keep (λ kv. not (leb (kv.0 + lead) now)) s.preemption_fired;
}

pub record ForecastBoundaryNeed : Type 0 where
  pub boundary : ℕ
  pub demand_by_class : Dict String ℕ
  pub kills_needed_by_class : Dict String ℕ
  pub eligible_by_class : Dict String (List PodRuntimeView)
  pub pool_gpus_by_class : Dict String ℕ

-- `guarantee_end is None or guarantee_end <= boundary`.
unfoldable pub lapsed : Option ℕ → ℕ → Bool
lapsed none boundary = true
lapsed (some end) boundary = leb end boundary

-- By what the map has for the pod.
unfoldable pub lapses_by : Dict String (Option ℕ) → ℕ → PodRuntimeView → Bool
unfolding lapsed
lapses_by ends boundary p = lapsed (get_or p.uid ends none) boundary

unfoldable pub is_at_risk : Dict String (Option ℕ) → ℕ → PodRuntimeView → Bool
unfolding lapses_by
is_at_risk ends boundary p =
    not (is_none p.reservation_id)
    && (p.node_resident
        && (not p.node_excluded
            && (not p.terminating && (ltb 0 p.gpu_count && lapses_by ends boundary p))))

-- `eligible.setdefault(p.gpu_class, []).append(p)`.
unfoldable pub by_class :
    List PodRuntimeView → Dict String (List PodRuntimeView) → Dict String (List PodRuntimeView)
by_class [] pools = pools
by_class (p ∷ ps) pools =
    by_class ps (insert p.gpu_class (get_or p.gpu_class pools [] ++ p ∷ []) pools)

unfoldable pub forecast_boundary_need :
    ControllerState
    → ℕ
    → Dict String ℤ
    → List PodRuntimeView
    → ℕ
    → Dict String (Option ℕ)
    → ForecastBoundaryNeed
unfolding boundary_demand shortfall_of is_at_risk by_class
forecast_boundary_need s boundary free pods now ends =
    let demand = boundary_demand s now boundary pods in
    let eligible = by_class (keep (is_at_risk ends boundary) pods) [] in
    record {
      boundary = boundary;
      demand_by_class = demand;
      kills_needed_by_class = collect (λ c need. unless_zero (shortfall_of free c need)) demand;
      eligible_by_class = eligible;
      pool_gpus_by_class = collect (λ c ps. some (sum_by (λ p. p.gpu_count) ps)) eligible;
    }

-- `{p.uid: f(p) for p in pods if p.reservation_id is not None}`, or the loop that does as much.
unfoldable pub by_uid :
    {V : Type 0} → (PodRuntimeView → V) → List PodRuntimeView → Dict String V → Dict String V
by_uid f [] out = out
by_uid f (p ∷ ps) out =
    by_uid f ps (if is_none p.reservation_id then out else insert p.uid (f p) out)

unfoldable pub guarantee_ends : ControllerState → ℕ → List PodRuntimeView → Dict String (Option ℕ)
unfolding guarantee_end by_uid
guarantee_ends s now pods = by_uid (λ p. guarantee_end s p.reservation_id now) pods []

pub record Ratio : Type 0 where
  pub num : ℕ
  pub den : ℕ

pub record TerminationWarning : Type 0 where
  pub view : PodRuntimeView
  pub terminate_at : ℕ
  pub risk : Ratio
  pub boundary : Option ℕ

-- `max(boundary - lead, guarantee_end)`. Instants are later than any lead.
unfoldable pub kill_instant : Option ℕ → ℕ → ℕ → ℕ
kill_instant none lead boundary = boundary - lead
kill_instant (some end) lead boundary = if ltb (boundary - lead) end then end else boundary - lead

unfoldable pub kill_start : Dict String (Option ℕ) → ℕ → ℕ → PodRuntimeView → ℕ
unfolding kill_instant
kill_start ends lead boundary p = kill_instant (get_or p.uid ends none) lead boundary

-- A pod that a sooner boundary warned keeps that warning.
unfoldable pub warn_pool :
    Dict String (Option ℕ)
    → ℕ
    → ℕ
    → Ratio
    → List PodRuntimeView
    → Dict String TerminationWarning
    → Dict String TerminationWarning
unfolding kill_start
warn_pool ends lead boundary risk [] warnings = warnings
warn_pool ends lead boundary risk (p ∷ ps) warnings = warn_pool ends lead boundary risk ps (
    if has_key p.uid warnings
    then warnings
    else insert p.uid
        (record {
          view = p;
          terminate_at = kill_start ends lead boundary p;
          risk = risk;
          boundary = some boundary;
        })
        warnings)

unfoldable pub warn_classes :
    Dict String (Option ℕ)
    → ℕ
    → ForecastBoundaryNeed
    → Dict String ℕ
    → Dict String TerminationWarning
    → Dict String TerminationWarning
unfolding warn_pool
warn_classes ends lead need [] warnings = warnings
warn_classes ends lead need ((c, shortfall) ∷ kills) warnings =
    let pool_gpus = get_or c need.pool_gpus_by_class 0 in
    warn_classes ends lead need kills (
      if pool_gpus == 0
      then warnings
      else warn_pool ends lead need.boundary
          (record { num = min shortfall pool_gpus; den = pool_gpus })
          (get_or c need.eligible_by_class []) warnings)

unfoldable pub warn_boundaries :
    ControllerState
    → Dict String ℤ
    → List PodRuntimeView
    → ℕ
    → ℕ
    → Dict String (Option ℕ)
    → List ℕ
    → Dict String TerminationWarning
    → Dict String TerminationWarning
unfolding warn_classes forecast_boundary_need
warn_boundaries s free pods now lead ends [] warnings = warnings
warn_boundaries s free pods now lead ends (b ∷ bs) warnings =
    let need = forecast_boundary_need s b free pods now ends in
    warn_boundaries s free pods now lead ends bs
      (warn_classes ends lead need need.kills_needed_by_class warnings)

unfoldable pub plan_termination_warnings :
    ControllerState
    → List ℕ
    → Dict String ℕ
    → List PodRuntimeView
    → ℕ
    → ℕ
    → Dict String TerminationWarning
unfolding warn_boundaries guarantee_ends free_capacity_by_class
plan_termination_warnings s boundaries capacity pods now lead =
    warn_boundaries s (free_capacity_by_class capacity pods) pods now lead
      (guarantee_ends s now pods) (sort_by (λ t. t) boundaries) []

-- A pod that carries a warning keeps its deadline.
unfoldable pub headroom_pool_warnings :
    ℕ
    → Ratio
    → List PodRuntimeView
    → Dict String TerminationWarning
    → Dict String TerminationWarning
headroom_pool_warnings deadline risk [] warnings = warnings
headroom_pool_warnings deadline risk (p ∷ ps) warnings = headroom_pool_warnings deadline risk ps (
    insert p.uid
      (record {
        view = p;
        terminate_at = elim p.termination_warning_at [ none ↦ deadline | some at ↦ at ];
        risk = risk;
        boundary = none;
      })
      warnings)

unfoldable pub headroom_class_warnings :
    ControllerState
    → List PodRuntimeView
    → ℕ
    → ℕ
    → Dict String ℕ
    → Dict String TerminationWarning
    → Dict String TerminationWarning
unfolding headroom_pool headroom_pool_warnings
headroom_class_warnings s pods now notice [] warnings = warnings
headroom_class_warnings s pods now notice ((c, short) ∷ shortfall) warnings =
    let pool = headroom_pool s now c pods in
    let pool_gpus = sum_by (λ p. p.gpu_count) pool in
    headroom_class_warnings s pods now notice shortfall (
      if pool_gpus == 0
      then warnings
      else headroom_pool_warnings (now + notice)
          (record { num = min short pool_gpus; den = pool_gpus }) pool warnings)

unfoldable pub plan_headroom_warnings :
    ControllerState
    → Dict String ℕ
    → List PodRuntimeView
    → ℕ
    → ℕ
    → ℕ
    → Dict String TerminationWarning
unfolding headroom_shortfall_by_class headroom_class_warnings
plan_headroom_warnings s capacity pods now target_percent notice =
    headroom_class_warnings s pods now notice
      (headroom_shortfall_by_class capacity pods target_percent).shortfall []

-- The reservation that each admitted pod is linked to, by its id.
unfoldable pub facts_loop :
    Dict ℕ ReservationResponse
    → List PodRuntimeView
    → Dict ℕ ReservationResponse
    → Dict ℕ ReservationResponse
facts_loop by_id [] out = out
facts_loop by_id (p ∷ ps) out = facts_loop by_id ps (elim p.reservation_id [
  | none ↦ out
  | some rid ↦
      if has_key rid out
      then out
      else elim (get rid by_id) [ none ↦ out | some r ↦ insert rid r out ]
])

unfoldable pub plan_reservation_facts :
    ControllerState → List PodRuntimeView → Dict ℕ ReservationResponse
unfolding facts_loop index
plan_reservation_facts s pods = facts_loop (index s.reservations []) pods []

pub record GuaranteeStatus : Type 0 where
  pub view : PodRuntimeView
  pub status : String
  pub guaranteed_until : Option ℕ

-- A guarantee that ends later than `now` is reported with its end.
unfoldable pub status_at : PodRuntimeView → ℕ → Option ℕ → GuaranteeStatus
status_at p now none = record { view = p; status = "overstay"; guaranteed_until = none }
status_at p now (some end) =
    if ltb now end
    then record { view = p; status = "guaranteed"; guaranteed_until = some end }
    else record { view = p; status = "overstay"; guaranteed_until = none }

unfoldable pub status_of : ControllerState → ℕ → PodRuntimeView → GuaranteeStatus
unfolding guarantee_end status_at
status_of s now p = status_at p now (guarantee_end s p.reservation_id now)

unfoldable pub plan_guarantee_status :
    ControllerState → List PodRuntimeView → ℕ → Dict String GuaranteeStatus
unfolding by_uid status_of
plan_guarantee_status s pods now = by_uid (status_of s now) pods []
