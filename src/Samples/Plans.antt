-- ===== src/Samples/Plans.antt =====
-- The theorems on the plans of adoption, preemption and headroom, and on capacity, at the samples.
use mathlib.Core.List.{Permᴰ}
use gpu_reservation_controll.Base.{
  Dict, Distinct, In, List, Permᴰ, String, [], any, best, bind_at, collect, contains, erase, false,
  first, get, get_or, has_key, if◌then◌else◌, inl, insert, insert_by, is_none, keep, ltb, max_by,
  min_by, nat_eq, none, option_eq, pos, refl, some, sort_by, string_eq, sub_ℕ, sum_by, true, ℕ, ℤ,
  ◌&&◌, ◌++◌, ◌-ℤ◌, ◌-◌, ◌<◌, ◌∷◌, ◌≡◌, ◌≤◌,
}
use gpu_reservation_controll.Schemas.{owned_by, slot_end, slot_start}
use gpu_reservation_controll.State.{PodRuntimeView, pod_eq}
use gpu_reservation_controll.Matching.{available, find_open_booking_for}
use gpu_reservation_controll.Guarantee.{past_guarantee, reservations_claimed_by}
use gpu_reservation_controll.Capacity.{
  free_capacity_by_class, placement_nodes, placement_stall_reason, reconcile_capacity,
}
use gpu_reservation_controll.Capacity.Free.{free_capacity_by_class-exact, taken}
use gpu_reservation_controll.Matching.NearMiss.{
  misses_class, misses_group, near_miss_bookings, near_miss_bookings-exact,
}
use gpu_reservation_controll.Capacity.Audit.{reconcile_capacity-over}
use gpu_reservation_controll.Preemption.{
  BoundaryPreemptionNeed, boundary_demand, plan_boundary_preemption, plan_headroom_candidates,
  select_victims_locally, shortfall_of,
}
use gpu_reservation_controll.Preemption.Demand.{boundary_demand-exact, owed}
use gpu_reservation_controll.Preemption.Selection.{gpus, select_victims_locally-tight}
use gpu_reservation_controll.Preemption.Victims.{
  can_end, plan_boundary_preemption-spares, plan_boundary_preemption-unmet,
}
use gpu_reservation_controll.Preemption.Headroom.{plan_headroom_candidates-gives_notice}
use gpu_reservation_controll.Adoption.{is_present, plan_ondemand_merges, plan_pod_adoptions}
use gpu_reservation_controll.Adoption.Tally.{
  assigned_gpus, plan_ondemand_merges-le_available, plan_pod_adoptions-le_available,
}
use gpu_reservation_controll.Adoption.Rescue.{plan_pod_adoptions-rescues}
use gpu_reservation_controll.Push.Upsert.{UniqueIds}
use gpu_reservation_controll.Placement.{NodePlacement, matching_nodes, placement_matches}
use gpu_reservation_controll.Samples.{capacity, leased, morning, overdue, pods, state}

Perm_refl {ℓ} : {A : Type ℓ} (xs : List A) → Permᴰ xs xs
Perm_refl [] = Permᴰ.nil
Perm_refl (x ∷ xs) = Permᴰ.cons refl (Perm_refl xs)

abbrev unshuffled : String → List PodRuntimeView → List PodRuntimeView
unshuffled c xs = xs

unshuffled-Perm : (c : String) (xs : List PodRuntimeView) → Permᴰ xs (unshuffled c xs)
unshuffled-Perm c xs = Perm_refl xs

abbrev unsorted : List String → List String
unsorted labels = labels

unsorted-Perm : (labels : List String) → Permᴰ labels (unsorted labels)
unsorted-Perm labels = Perm_refl labels

overdue_planned :
    In overdue (plan_boundary_preemption state unshuffled 200 capacity pods 120).victims
unfolding plan_boundary_preemption available reservations_claimed_by ◌-ℤ◌ free_capacity_by_class
    past_guarantee keep first sort_by insert_by max_by min_by best contains get get_or insert erase
    has_key owned_by sum_by collect
overdue_planned = inl refl

plan_boundary_preemption-spares_example :
    In overdue pods
    × (is_none overdue.reservation_id ≡ false)
    × (overdue.node_resident ≡ true)
    × (overdue.node_excluded ≡ false)
    × (overdue.terminating ≡ false)
    × (0 < overdue.gpu_count)
    × (past_guarantee state overdue.reservation_id 120 ≡ true)
plan_boundary_preemption-spares_example =
    plan_boundary_preemption-spares state unshuffled 200 capacity pods 120 unshuffled-Perm overdue
      overdue_planned

plan_boundary_preemption-unmet_example :
    get "h100" (plan_boundary_preemption state unshuffled 200 capacity pods 120).unmet_by_class
    ≡ bind_at (get "h100" (boundary_demand state 120 200 pods)) (λ n.
      let k = shortfall_of (free_capacity_by_class capacity pods) "h100" n in
      let ended = sum_by (λ p. p.gpu_count) (keep (can_end state 120 "h100") pods) in
      if ltb ended k then some (k - ended) else none)
plan_boundary_preemption-unmet_example =
    plan_boundary_preemption-unmet state unshuffled 200 capacity pods 120 unshuffled-Perm "h100"

boundary_demand-exact_example :
    get_or "h100" (boundary_demand state 120 200 pods) 0
    ≡ sum_by (owed state 120 200 pods "h100") state.reservations
boundary_demand-exact_example = boundary_demand-exact state 120 200 pods "h100"

abbrev asked : BoundaryPreemptionNeed
asked = record {
  boundary = 200;
  phase = "A";
  demand_by_class = ("h100", 2) ∷ [];
  free_by_class = [];
  kills_needed_by_class = ("h100", 2) ∷ [];
  candidates_by_class = ("h100", pods) ∷ [];
}

asked-Distinct : Distinct asked.kills_needed_by_class
unfolding keep first sort_by insert_by max_by min_by best contains get get_or insert erase has_key
    owned_by sum_by collect
asked-Distinct = (refl, tt)

asked_kills : get "h100" asked.kills_needed_by_class ≡ some 2
unfolding keep first sort_by insert_by max_by min_by best contains get get_or insert erase has_key
    owned_by sum_by collect
asked_kills = refl

asked_selected :
    get "h100" (select_victims_locally unshuffled asked) ≡ some ((leased ∷ []) ++ overdue ∷ [])
unfolding select_victims_locally keep first sort_by insert_by max_by min_by best contains get get_or
    insert erase has_key owned_by sum_by collect
asked_selected = refl

select_victims_locally-tight_example : gpus (leased ∷ []) < 2
select_victims_locally-tight_example =
    select_victims_locally-tight unshuffled asked "h100" 2 (leased ∷ []) overdue asked-Distinct
      asked_kills asked_selected

state-UniqueIds : UniqueIds state.reservations
unfolding keep first sort_by insert_by max_by min_by best contains get get_or insert erase has_key
    owned_by sum_by collect
state-UniqueIds = (refl, (refl, (refl, tt)))

overdue_adopted : In (overdue, morning) (plan_pod_adoptions state pods 120)
unfolding plan_pod_adoptions find_open_booking_for past_guarantee keep first sort_by insert_by
    max_by min_by best contains get get_or insert erase has_key owned_by sum_by collect
overdue_adopted = inl refl

plan_pod_adoptions-rescues_example :
    In overdue pods
    × (is_present overdue ≡ true)
    × (past_guarantee state overdue.reservation_id 120 ≡ true)
    × In morning state.reservations
    × (slot_start morning ≤ 120)
    × (120 < slot_end morning)
    × (contains 1 state.noshow_reservation_ids ≡ false)
    × (past_guarantee state (some 1) 120 ≡ false)
plan_pod_adoptions-rescues_example =
    plan_pod_adoptions-rescues state 120 pods overdue morning state-UniqueIds overdue_adopted

plan_pod_adoptions-le_available_example :
    assigned_gpus 1 (plan_pod_adoptions state pods 120) ≤ available state morning none
plan_pod_adoptions-le_available_example =
    plan_pod_adoptions-le_available state 120 pods morning state-UniqueIds (inl refl)

plan_ondemand_merges-le_available_example :
    assigned_gpus 1 (plan_ondemand_merges state pods 120) ≤ available state morning none
plan_ondemand_merges-le_available_example =
    plan_ondemand_merges-le_available state 120 pods morning state-UniqueIds (inl refl)

capacity-Distinct : Distinct capacity
unfolding keep first sort_by insert_by max_by min_by best contains get get_or insert erase has_key
    owned_by sum_by collect
capacity-Distinct = (refl, tt)

free_capacity_by_class-exact_example :
    get "h100" (free_capacity_by_class capacity pods)
    ≡ bind_at (get "h100" capacity) (λ n. some (sub_ℕ n (sum_by (taken "h100") pods)))
free_capacity_by_class-exact_example =
    free_capacity_by_class-exact capacity pods "h100" capacity-Distinct

abbrev promised : Dict String ℕ
promised = ("h100", 4) ∷ ("a100", 1) ∷ []

reconcile_capacity-over_example :
    contains "h100" (reconcile_capacity unsorted promised capacity).1
    ≡ (has_key "h100" promised && ltb (get_or "h100" capacity 0) (get_or "h100" promised 0))
reconcile_capacity-over_example =
    reconcile_capacity-over promised capacity unsorted unsorted-Perm "h100"

overdue_warned :
    get "h100" (plan_headroom_candidates state capacity pods 120 50 true).candidates_by_class
    ≡ some (overdue ∷ [])
unfolding plan_headroom_candidates ◌-ℤ◌ free_capacity_by_class past_guarantee keep first sort_by
    insert_by max_by min_by best contains get get_or insert erase has_key owned_by sum_by collect
overdue_warned = refl

plan_headroom_candidates-gives_notice_example :
    In overdue pods
    × (past_guarantee state overdue.reservation_id 120 ≡ true)
    × ((at : ℕ) × (overdue.termination_warning_at ≡ some at) × (at ≤ 120))
plan_headroom_candidates-gives_notice_example =
    plan_headroom_candidates-gives_notice state capacity pods 120 50 "h100" (overdue ∷ []) overdue
      capacity-Distinct overdue_warned (inl refl)

abbrev in_zone : NodePlacement
in_zone = record { node_selector = ("zone", "a") ∷ []; affinity_terms = none }

abbrev nodes : List String
nodes = "node-1" ∷ "node-2" ∷ []

abbrev labels : Dict String (Dict String String)
labels = ("node-1", ("zone", "a") ∷ []) ∷ ("node-2", ("zone", "b") ∷ []) ∷ []

first_only : placement_nodes (some in_zone) (some nodes) labels ≡ some ("node-1" ∷ [])
unfolding placement_nodes matching_nodes placement_matches keep any get get_or has_key
first_only = refl

abbrev openings : Dict String ℤ
openings = ("node-1", pos 1) ∷ ("node-2", pos 2) ∷ []

stalled : placement_stall_reason 2 openings (some ("node-1" ∷ [])) ≡ some "matching_nodes_full"
unfolding placement_stall_reason any get get_or contains
stalled = refl

near_miss_bookings-exact_example :
    (contains "h100" (near_miss_bookings state "alice" "a30" none 50 unsorted).other_classes
      ≡ any (misses_class state "alice" "a30" none 50 "h100") state.reservations)
    × (contains "h100" (near_miss_bookings state "alice" "a30" none 50 unsorted).other_groups
        ≡ any (misses_group state "alice" "a30" none 50 "h100") state.reservations)
near_miss_bookings-exact_example =
    near_miss_bookings-exact state "alice" "a30" none 50 unsorted unsorted-Perm "h100"
