-- ===== src/Samples/Nodes.antt =====
-- The theorems on the node accounts at a class of two nodes, with one pod bound and then removed.
use gpu_reservation_controll.Base.{
  Dict, Distinct, String, [], bind_at, collect, contains, false, get, has_key, insert, keep, keys,
  ltb, max_or_zero, nat_eq, none, not, option_eq, refl, some, string_eq, true, values, ℕ, ◌∷◌, ◌≡◌,
}
use gpu_reservation_controll.State.{GpuPod, pod_eq}
use gpu_reservation_controll.Nodes.{
  NodeState, install_node_inventory, no_nodes, rebuild_gpu_pods, set_gpu_pod,
}
use gpu_reservation_controll.Nodes.Live.{derived}
use gpu_reservation_controll.Nodes.Refinement.{
  Reached, Reached-refines, after_change, rebuild_gpu_pods-exact,
}

abbrev two_nodes : Dict String (Dict String ℕ)
two_nodes = ("h100", ("node-1", 8) ∷ ("node-2", 4) ∷ []) ∷ []

abbrev bound_pod : GpuPod
bound_pod = record {
  namespace = "alice";
  name = "train";
  gpu_class = "h100";
  gpu_count = 2;
  node_name = some "node-1";
  placement = none;
  reservation_id = some 3;
}

two_nodes-Distinct : Distinct two_nodes
two_nodes-Distinct = (unfold has_key in refl, tt)

abbrev installed_state : NodeState
installed_state = install_node_inventory no_nodes two_nodes []

abbrev bound_state : NodeState
bound_state = (set_gpu_pod installed_state "pod-a" (some bound_pod) 10).0

bound_state-Reached : Reached bound_state
bound_state-Reached =
    Reached.set (Reached.installed Reached.start two_nodes [] two_nodes-Distinct) "pod-a"
      (some bound_pod) 10

knows_h100 : has_key "h100" bound_state.node_inventory ≡ true
unfolding has_key set_gpu_pod install_node_inventory get keep insert contains collect
knows_h100 = refl

Reached-refines_example :
    (get "h100" bound_state.node_free_by_node_class ≡ derived bound_state "h100")
    × (get "h100" bound_state.node_free_by_class
        ≡ bind_at (derived bound_state "h100") (λ nodes. some (max_or_zero (values nodes))))
Reached-refines_example = Reached-refines bound_state bound_state-Reached "h100" knows_h100

changes-Distinct : Distinct bound_state.gpu_pod_changes
unfolding has_key set_gpu_pod install_node_inventory get keep insert contains collect
changes-Distinct = (refl, tt)

rebuild_gpu_pods-exact_example :
    (get "pod-a" (rebuild_gpu_pods bound_state [] 5).gpu_pods
      ≡ after_change 5 (get "pod-a" bound_state.gpu_pod_changes) (get {K = String} "pod-a" []))
    × (contains "pod-a" (keys (rebuild_gpu_pods bound_state [] 5).gpu_pod_changes)
        ≡ elim (get "pod-a" bound_state.gpu_pod_changes) [
          | none ↦ false
          | some change ↦ not (ltb change.0 5)
        ])
rebuild_gpu_pods-exact_example = rebuild_gpu_pods-exact bound_state [] 5 "pod-a" changes-Distinct
