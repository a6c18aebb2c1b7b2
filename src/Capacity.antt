-- ===== src/Capacity.antt =====
-- app/controller.py: GPU capacity by class and by node, from a node inventory and the pods on it.
-- `PodRuntimeView`s come from a cluster snapshot, `GpuPod` records are kept current in between.
pub mod Free
pub mod Frees
pub mod Stall
pub mod Audit
use gpu_reservation_controll.Base.{
  ℕ, String, Option, none, some, Bool, true, false, ◌==◌, string_eq, nat_eq, option_eq, ◌&&◌, ◌||◌,
  not, List, [], ◌∷◌, ◌++◌, Dict, keys, values, get, insert, get_or, has_key, collect, keep, any,
  all, contains, union, add, length, sum_by, ltb, leb, is_none, if◌then◌else◌, ◌+◌, ℤ, pos, sub_ℕ,
  ◌-ℤ◌, ltb_ℤ, max_or_zero,
}
use gpu_reservation_controll.State.{PodRuntimeView, GpuPod, pod_eq}
use gpu_reservation_controll.Placement.{NodePlacement, matching_nodes}

-- The pods that `free_capacity_by_class` counts.
unfoldable pub occupies : PodRuntimeView → Bool
occupies p = p.node_resident && (not p.terminating && not p.node_excluded)

unfoldable pub used_by_class : Dict String ℕ → List PodRuntimeView → Dict String ℕ → Dict String ℕ
unfolding occupies
used_by_class capacity [] used = used
used_by_class capacity (p ∷ ps) used = used_by_class capacity ps (
    if occupies p && has_key p.gpu_class capacity
    then insert p.gpu_class (get_or p.gpu_class used 0 + p.gpu_count) used
    else used)

unfoldable pub free_capacity_by_class : Dict String ℕ → List PodRuntimeView → Dict String ℤ
unfolding used_by_class
free_capacity_by_class capacity pods =
    let used = used_by_class capacity pods [] in
    collect (λ c n. some (sub_ℕ n (get_or c used 0))) capacity

-- `per_node[node] -= gpus`, where the node is listed.
unfoldable pub take_from : String → ℕ → Dict String ℤ → Dict String ℤ
take_from node gpus per_node = elim (get node per_node) [
  | none ↦ per_node
  | some n ↦ insert node (n -ℤ pos gpus) per_node
]

unfoldable pub take_in_class :
    String → String → ℕ → Dict String (Dict String ℤ) → Dict String (Dict String ℤ)
unfolding take_from
take_in_class gpu_class node gpus free = elim (get gpu_class free) [
  | none ↦ free
  | some per_node ↦ insert gpu_class (take_from node gpus per_node) free
]

-- `{c: dict(nodes) for c, nodes in capacity.items()}`, as integers.
unfoldable pub as_free : Dict String (Dict String ℕ) → Dict String (Dict String ℤ)
as_free = collect (λ c nodes. some (collect (λ n gpus. some (pos gpus)) nodes))

unfoldable pub subtract_views :
    List PodRuntimeView → Dict String (Dict String ℤ) → Dict String (Dict String ℤ)
unfolding take_in_class
subtract_views [] free = free
subtract_views (p ∷ ps) free = subtract_views ps (elim p.node_name [
  | none ↦ free
  | some node ↦
      if not (node == "") && (p.node_resident && not p.terminating)
      then take_in_class p.gpu_class node p.gpu_count free
      else free
])

unfoldable pub free_gpus_by_node_class :
    Dict String (Dict String ℕ) → List PodRuntimeView → Dict String (Dict String ℤ)
unfolding as_free subtract_views
free_gpus_by_node_class capacity pods = subtract_views pods (as_free capacity)

unfoldable pub subtract_pods :
    List GpuPod → Dict String (Dict String ℤ) → Dict String (Dict String ℤ)
unfolding take_in_class
subtract_pods [] free = free
subtract_pods (p ∷ ps) free =
    subtract_pods ps (elim p.node_name [
      | none ↦ free
      | some node ↦ take_in_class p.gpu_class node p.gpu_count free
    ])

unfoldable pub node_free_from_pods :
    Dict String (Dict String ℕ) → List GpuPod → Dict String (Dict String ℤ)
unfolding as_free subtract_pods
node_free_from_pods capacity pods = subtract_pods pods (as_free capacity)

unfoldable pub largest_node_free_by_class : Dict String (Dict String ℤ) → Dict String ℤ
largest_node_free_by_class = collect (λ c nodes. some (max_or_zero (values nodes)))

unfoldable pub gpu_capacity_by_class : Dict String (Dict String ℕ) → Dict String ℕ
gpu_capacity_by_class = collect (λ c nodes. some (sum_by (λ n. n) (values nodes)))

-- `dict.fromkeys(known_classes, 0)`, then the counts of the inventory.
unfoldable pub zeros : List String → Dict String ℕ → Dict String ℕ
zeros [] counts = counts
zeros (c ∷ cs) counts = zeros cs (insert c 0 counts)

unfoldable pub count_nodes : Dict String (Dict String ℕ) → Dict String ℕ → Dict String ℕ
count_nodes [] counts = counts
count_nodes ((c, nodes) ∷ d) counts = count_nodes d (insert c (length nodes) counts)

unfoldable pub node_counts_by_class : Dict String (Dict String ℕ) → List String → Dict String ℕ
unfolding zeros count_nodes
node_counts_by_class capacity known_classes = count_nodes capacity (zeros known_classes [])

-- Why a pod's own placement keeps it Pending, if it does.
unfoldable pub placement_stall_reason : ℕ → Dict String ℤ → Option (List String) → Option String
placement_stall_reason gpus free none = none
placement_stall_reason gpus free (some []) = some "no_matching_node"
placement_stall_reason gpus free (some (n ∷ ns)) =
    if any (λ m. not (ltb_ℤ (get_or m free (pos 0)) (pos gpus))) (n ∷ ns)
    then none
    else (if any (λ kv. not (ltb_ℤ kv.1 (pos gpus)) && not (contains kv.0 (n ∷ ns))) free
        then some "matching_nodes_full"
        else none)

unfoldable pub placement_nodes :
    Option NodePlacement
    → Option (List String)
    → Dict String (Dict String String)
    → Option (List String)
placement_nodes none nodes labels = none
placement_nodes (some p) none labels = none
placement_nodes (some p) (some nodes) labels =
    if any (λ n. not (has_key n labels)) nodes
    then none
    else (let allowed = matching_nodes p nodes labels in
        if length allowed == length nodes then none else some allowed)

-- `gpu_pod_record`: what a tolerated pod holds, or none.
unfoldable pub gpu_pod_record :
    String
    → String
    → String
    → ℕ
    → String
    → Bool
    → Bool
    → Option String
    → Option NodePlacement
    → Option ℕ
    → Option GpuPod
gpu_pod_record namespace name gpu_class gpu_count phase scheduled_false terminating node_name
      placement rid =
    let node : Option String = elim node_name [
      | none ↦ none
      | some n ↦ if n == "" then none else some n
    ] in
    let counted : Bool = elim node [
      | none ↦ phase == "Pending"
      | some n ↦ (phase == "Running") || (phase == "Pending") && not scheduled_false
    ] in
    if terminating || (ltb gpu_count 1 || (gpu_class == ""))
    then none
    else (if counted
        then some (record {
          namespace = namespace;
          name = name;
          gpu_class = gpu_class;
          gpu_count = gpu_count;
          node_name = node;
          placement = placement;
          reservation_id = rid;
        })
        else none)

-- Classes where the app's count and the physical one differ.
pub record CapacityDiff : Type 0 where
  pub label : String
  pub app_side : ℕ
  pub physical : ℕ

unfoldable pub overcommitted : CapacityDiff → Bool
overcommitted d = ltb d.physical d.app_side

-- One round of the walk of `reconcile_capacity`.
unfoldable pub capacity_diff : Dict String ℕ → Dict String ℕ → String → Option CapacityDiff
capacity_diff app_side physical label =
    let a = get_or label app_side 0 in
    let p = get_or label physical 0 in
    if a == p then none else some (record { label = label; app_side = a; physical = p })

unfoldable pub walk_labels :
    Dict String ℕ
    → Dict String ℕ
    → List String
    → List CapacityDiff × List String
    → List CapacityDiff × List String
unfolding capacity_diff overcommitted
walk_labels app_side physical [] (diffs, over) = (diffs, over)
walk_labels app_side physical (label ∷ labels) (diffs, over) =
    walk_labels app_side physical labels (elim (capacity_diff app_side physical label) [
      | none ↦ (diffs, over)
      | some d ↦ (
        diffs ++ d ∷ [],
        (if has_key label app_side && overcommitted d then add label over else over),
      )
    ])

-- The labels are walked in the order of `sort`, which is Python's `sorted` on texts.
unfoldable pub reconcile_capacity :
    (List String → List String) → Dict String ℕ → Dict String ℕ → List CapacityDiff × List String
unfolding walk_labels
reconcile_capacity sort app_side physical =
    walk_labels app_side physical (sort (union (union [] (keys app_side)) (keys physical))) ([], [])

-- `previous == current` compares all fields.
unfoldable pub capacity_frees_up : Option GpuPod → Option GpuPod → Bool
capacity_frees_up none current = false
capacity_frees_up (some p) none = true
capacity_frees_up (some p) (some c) =
    not (p == c)
    && (if is_none p.node_name then not (is_none c.node_name) else not (c.node_name == p.node_name))
