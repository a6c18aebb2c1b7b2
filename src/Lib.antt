-- ===== src/Lib.antt =====
-- GPU reservation controller: a model of the decisions of `app/controller.py`, of admission and the
-- singleton Lease in `app/main.py` and `app/k8s_client.py`, with the theorems that make them correct.
--
-- The program keeps a reservation system and a Kubernetes cluster in agreement. The reservation app
-- owns the reservations (`app/schemas.py`); the controller fetches them, matches pods to them, admits
-- pods, tracks which pod occupies which reservation, declares bookings whose owner never came, moves
-- pods that outlive their booking to a later one of the same owner, and ends pods past their
-- guarantee when a booking or a headroom goal needs their GPUs. All of this reads and writes one
-- `ControllerState`, whose methods are pure apart from the state; the loops of `app/main.py` call
-- them and do the I/O. Of the instances that may run, the holder of a Lease in the cluster is the
-- one that acts.
--
-- Where the parts are:
--   Base         dictionaries, comprehensions, sets, integers and tests, as Python has them
--   Schemas      app/schemas.py: UserBrief, GroupBrief, GpuClassBrief, ReservationResponse,
--                GpuClassDetail, and slot_start and slot_end of app/controller.py
--   Placement    app/k8s_client.py: NodeRequirement, NodeSelectorTerm, NodePlacement
--   State        app/controller.py: ControllerState and the records it keeps
--   Matching     available, find_best_reservation, find_admittable_reservation, find_open_booking_for,
--                near_miss_bookings, reservation_holders
--   Guarantee    _chain_for, compute_guaranteed_until, guarantee_end, reservations_claimed_by,
--                _past_guarantee
--   NoShow       update_noshow_tracking, reconcile_noshow, check_noshow_deadlines,
--                mark_pod_seen_for_noshow, refresh_claimed_reservations
--   Occupancy    record_placement, release_pod, relink_occupancy, reconcile_occupancy, available_by_id
--   Push         apply_push_to_active, detect_cancelled_in_window, detect_owner_changed_in_window,
--                preserve_local_ondemand_leases
--   Adoption     plan_pod_adoptions, plan_ondemand_merges
--   Capacity     free_capacity_by_class, free_gpus_by_node_class, node_free_from_pods,
--                placement_stall_reason, placement_nodes, gpu_pod_record, reconcile_capacity,
--                capacity_frees_up
--   Preemption   boundary_demand, plan_boundary_candidates, select_victims_locally,
--                build_preemption_plan, plan_boundary_preemption, and the headroom planners
--   Queue        enqueue_pod, dequeue_pod, reconcile_queue and the pending statuses
--   OnDemand     add_ondemand_candidate, remove_ondemand_candidate, peak_committed_gpus
--   Nodes        install_node_inventory, rebuild_gpu_pods, set_gpu_pod, _derive_node_free, node_claims
--   Lease        app/k8s_client.py: acquire_singleton_lease, renew_singleton_lease
--   Lease/Guard  app/main.py: lease_guard_loop and _claim_singleton_lease
--   Lease/System the instances and the API server between them, as a step relation
--   Admission    app/main.py: _try_apply_toleration, _schedule_after_denial, _map_granted_uids,
--                _node_fit, _hold_on_fit, _retry_node_fit_holds; LeaseAttempt and AdmissionWithheld
--                of app/reservation_client.py
--   Forecast     forecast_buckets, upcoming_boundaries, forecast_boundary_need,
--                plan_termination_warnings, plan_headroom_warnings, plan_reservation_facts,
--                plan_guarantee_status
--   Samples      a small state, on which the theorems are applied
--
-- How the state corresponds: a method of `ControllerState` is a function of the state and its
-- arguments, which answers with the new state where the method writes. A dictionary is an association
-- list in insertion order, a set a list of its members. An instant is a count of microseconds; where
-- a method reads the clock, the instant is an argument. Python's integers are natural numbers where
-- the source clips them at 0, and integers where it does not. Log lines are left out.
--
-- The `while True` loop of `_chain_for` is on fuel, the number of candidates. Every round puts
-- a candidate that was not visited into the chain, so the fuel is enough, and the results on the
-- chain hold of the loop as the source runs it. All other loops go over a list.
--
-- `random.shuffle` and `sorted` on texts are parameters, with the hypothesis that they permute.
-- `ceil(c * p / 100)` is taken on integers, which agrees with the floating-point expression of the
-- source as long as c * p / 100 is far from the precision's end.
--
-- The API server is the interface `ApiServer`, with laws on what it stores and refuses. A call on the
-- Lease is cut at its write, so that calls of other instances come between its read and its write.
-- The clock of an instance does not go back. In `_try_apply_toleration`, what other tasks do to the
-- state while a call to the cluster is awaited is the function `meanwhile`.
--
-- A risk, `min(1.0, a / b)` in floating point, is the exact ratio.
--
-- Not modelled: the watch handlers, the periodic loops, the preflight, the grant of a lease and the
-- batch orchestrator of `app/main.py`; the cluster and HTTP clients, configuration, logging and
-- tracing, which are I/O; the reservation lock; and, of `app/controller.py`, the on-demand gates
-- and the risk per bucket (`forecast_preemption_risk`).
pub mod Base
pub mod Schemas
pub mod Placement
pub mod State
pub mod Matching
pub mod Guarantee
pub mod NoShow
pub mod OnDemand
pub mod Occupancy
pub mod Push
pub mod Adoption
pub mod Capacity
pub mod Preemption
pub mod Queue
pub mod Lease
pub mod Nodes
pub mod Admission
pub mod Forecast
pub mod Samples
