-- ===== src/Nodes.antt =====
-- app/controller.py: the per-node accounts that are kept current between node snapshots. `NodeState`
-- is the part of `ControllerState` that they stand in.
pub mod ByClass
pub mod Live
pub mod Rebuild
pub mod Refinement
use gpu_reservation_controll.Base.{
  Bool, Dict, List, Option, String, [], add, any, bind_at, contains, erase, get, has_key,
  if◌then◌else◌, insert, is_none, keep, keys, length, ltb, max_or_zero, nat_eq, none, not,
  option_eq, some, string_eq, sum_by, true, values, ℕ, ℤ, ◌&&◌, ◌==◌, ◌∷◌,
}
use gpu_reservation_controll.State.{GpuPod, pod_eq}
use gpu_reservation_controll.Capacity.{
  largest_node_free_by_class, node_free_from_pods, placement_nodes,
}

pub record NodeState : Type 0 where
  pub node_inventory : Dict String (Dict String ℕ)
  pub node_labels : Dict String (Dict String String)
  pub node_free_by_node_class : Dict String (Dict String ℤ)
  pub node_free_by_class : Dict String ℤ
  pub gpu_pods : Dict String GpuPod
  pub gpu_pod_changes : Dict String (ℕ × Option GpuPod)

abbrev pub no_nodes : NodeState
no_nodes = record {
  node_inventory = [];
  node_labels = [];
  node_free_by_node_class = [];
  node_free_by_class = [];
  gpu_pods = [];
  gpu_pod_changes = [];
}

unfoldable pub install_node_inventory :
    NodeState → Dict String (Dict String ℕ) → Dict String (Dict String String) → NodeState
unfolding node_free_from_pods largest_node_free_by_class
install_node_inventory s inventory node_labels =
    let free = node_free_from_pods inventory (values s.gpu_pods) in
    record s {
      node_inventory = inventory;
      node_labels = node_labels;
      node_free_by_node_class = free;
      node_free_by_class = largest_node_free_by_class free;
    }

-- `{c: inventory[c] for c in targets}`, for targets that the inventory has.
unfoldable pub pick :
    Dict String (Dict String ℕ)
    → List String
    → Dict String (Dict String ℕ)
    → Dict String (Dict String ℕ)
pick inventory [] picked = picked
pick inventory (c ∷ cs) picked =
    pick inventory cs
      (elim (get c inventory) [ none ↦ picked | some nodes ↦ insert c nodes picked ])

-- `for gpu_class, per_node in free.items(): ...`.
unfoldable pub store_free : Dict String (Dict String ℤ) → NodeState → NodeState
store_free [] s = s
store_free ((c, per_node) ∷ free) s = store_free free (record s {
  node_free_by_node_class = insert c per_node s.node_free_by_node_class;
  node_free_by_class = insert c (max_or_zero (values per_node)) s.node_free_by_class;
})

-- The free GPUs of the nodes of some classes, from their pods alone.
unfoldable pub free_of_classes : NodeState → List String → Dict String (Dict String ℤ)
unfolding node_free_from_pods pick
free_of_classes s classes =
    let targets = keep (λ c. has_key c s.node_inventory) classes in
    node_free_from_pods (pick s.node_inventory targets [])
      (keep (λ p. contains p.gpu_class targets) (values s.gpu_pods))

-- With no targets the loop does nothing, as the source returns at once.
unfoldable pub derive_node_free : NodeState → List String → NodeState
unfolding free_of_classes store_free
derive_node_free s classes = store_free (free_of_classes s classes) s

-- The changes that are not older than the snapshot, re-applied over it, and those kept.
unfoldable pub merge_changes :
    ℕ → Dict String (ℕ × Option GpuPod) → Dict String GpuPod → Dict String GpuPod
merge_changes taken_at [] merged = merged
merge_changes taken_at ((uid, (at, change)) ∷ changes) merged = merge_changes taken_at changes (
    if ltb at taken_at
    then merged
    else elim change [ none ↦ erase uid merged | some p ↦ insert uid p merged ])

unfoldable pub rebuild_gpu_pods : NodeState → Dict String GpuPod → ℕ → NodeState
unfolding derive_node_free merge_changes
rebuild_gpu_pods s pods taken_at =
    derive_node_free
      (record s {
        gpu_pods = merge_changes taken_at s.gpu_pod_changes pods;
        gpu_pod_changes = keep (λ kv. not (ltb kv.1.0 taken_at)) s.gpu_pod_changes;
      })
      (keys s.node_inventory)

-- `{p.gpu_class for p in (previous, record) if p is not None}`.
unfoldable pub classes_of : Option GpuPod → Option GpuPod → List String
classes_of none none = []
classes_of none (some q) = q.gpu_class ∷ []
classes_of (some p) none = p.gpu_class ∷ []
classes_of (some p) (some q) = add q.gpu_class (p.gpu_class ∷ [])

-- `self.gpu_pods.pop(uid, None)` or `self.gpu_pods[uid] = record`.
unfoldable pub put_pod : String → Option GpuPod → Dict String GpuPod → Dict String GpuPod
put_pod uid none pods = erase uid pods
put_pod uid (some p) pods = insert uid p pods

unfoldable pub set_gpu_pod : NodeState → String → Option GpuPod → ℕ → NodeState × Option GpuPod
unfolding derive_node_free classes_of put_pod
set_gpu_pod s uid change now =
    let previous = get uid s.gpu_pods in
    let changed : NodeState = record s {
      gpu_pods = put_pod uid change s.gpu_pods;
      gpu_pod_changes = insert uid (now, change) s.gpu_pod_changes;
    } in
    (
      if previous == change then changed else derive_node_free changed (classes_of previous change),
      previous,
    )

-- Whether two sets of nodes, each possibly not limited, meet.
unfoldable pub overlaps : Option (List String) → Option (List String) → Bool
overlaps (some theirs) (some allowed) = any (λ n. contains n allowed) theirs
overlaps (some theirs) none = not (length theirs == 0)
overlaps none (some allowed) = not (length allowed == 0)
overlaps none none = true

unfoldable pub is_claim :
    NodeState → String → Option (List String) → Option String → String × GpuPod → Bool
unfolding overlaps placement_nodes
is_claim s gpu_class allowed exclude_uid (uid, p) =
    not (some uid == exclude_uid)
    && (is_none p.node_name && (p.gpu_class == gpu_class))
    && overlaps
        (placement_nodes p.placement
          (bind_at (get gpu_class s.node_free_by_node_class) (λ nodes. some (keys nodes)))
          s.node_labels)
        allowed

unfoldable pub node_claims : NodeState → String → Option (List String) → Option String → ℕ
unfolding is_claim
node_claims s gpu_class allowed exclude_uid =
    sum_by (λ kv. kv.1.gpu_count) (keep (is_claim s gpu_class allowed exclude_uid) s.gpu_pods)
