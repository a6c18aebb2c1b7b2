-- ===== src/Nodes/Refinement.antt =====
-- Every sequence of app/controller.py's changes to the node accounts, and what a rebuild keeps.
use gpu_reservation_controll.Base.{
  Bool, Bool-cases, Dict, Distinct, Option, String, [], ap, arith, bind_at, contains,
  contains-keys-keep, erase, false, get, get-erase, get-insert, has_key, has_key-none,
  if◌then◌else◌, inl, inr, insert, keys, ltb, max_or_zero, nat_eq, none, not, option_eq, refl, some,
  string_eq, subst, true, values, ℕ, ◌==◌, ◌∙◌, ◌∷◌, ◌≡◌,
}
use gpu_reservation_controll.State.{GpuPod, pod_eq}
use gpu_reservation_controll.Nodes.{
  NodeState, install_node_inventory, merge_changes, no_nodes, rebuild_gpu_pods, set_gpu_pod,
}
use gpu_reservation_controll.Nodes.Live.{
  IsLive, derived, install_node_inventory-IsLive, no_nodes-IsLive,
}
use gpu_reservation_controll.Nodes.Rebuild.{
  derive_node_free-same, rebuild_gpu_pods-IsLive, set_gpu_pod-IsLive,
}

-- The states that the three operations reach, from none; a dictionary has no key twice.
pub data Reached : NodeState → Type 0 where
  start : Reached no_nodes
  installed :
      {s : NodeState}
      → Reached s
      → (inventory : Dict String (Dict String ℕ)) (labels : Dict String (Dict String String))
      → Distinct inventory
      → Reached (install_node_inventory s inventory labels)
  rebuilt :
      {s : NodeState}
      → Reached s
      → (pods : Dict String GpuPod) (taken_at : ℕ) → Distinct pods
      → Reached (rebuild_gpu_pods s pods taken_at)
  set :
      {s : NodeState}
      → Reached s
      → (uid : String) (change : Option GpuPod) (now : ℕ)
      → Reached ((set_gpu_pod s uid change now).0)

Reached-IsLive : (s : NodeState) → Reached s → IsLive s
Reached-IsLive s Reached.start = no_nodes-IsLive
Reached-IsLive s (Reached.installed {s = t} r inventory labels unique) =
    install_node_inventory-IsLive t inventory labels (Reached-IsLive t r) unique
Reached-IsLive s (Reached.rebuilt {s = t} r pods taken_at unique) =
    rebuild_gpu_pods-IsLive t pods taken_at (Reached-IsLive t r) unique
Reached-IsLive s (Reached.set {s = t} r uid change now) =
    set_gpu_pod-IsLive t uid change now (Reached-IsLive t r)

-- After any sequence of inventories, rebuilds and changes of one pod, from the empty accounts, the
-- two maps have for every class of the inventory what a derivation from the whole inventory and
-- all recorded pods gives: the free GPUs by node, and the largest of them.
pub Reached-refines :
    (s : NodeState)
    → Reached s
    → (c : String) → has_key c s.node_inventory ≡ true
    → (get c s.node_free_by_node_class ≡ derived s c)
      × (get c s.node_free_by_class
          ≡ bind_at (derived s c) (λ nodes. some (max_or_zero (values nodes))))
Reached-refines s r c h =
    let live = Reached-IsLive s r in (live.live_nodes c h, live.live_class c h)

-- What a change that is not older than the snapshot left, or else what the snapshot has.
pub after_change : ℕ → Option (ℕ × Option GpuPod) → Option GpuPod → Option GpuPod
after_change taken_at none listed = listed
after_change taken_at (some (at, change)) listed = if ltb at taken_at then listed else change

get-merge_changes :
    (taken_at : ℕ) (changes : Dict String (ℕ × Option GpuPod)) (merged : Dict String GpuPod)
    (j : String)
    → Distinct changes
    → get j (merge_changes taken_at changes merged)
      ≡ after_change taken_at (get j changes) (get j merged)
unfolding merge_changes after_change get
get-merge_changes taken_at [] merged j h = refl
get-merge_changes taken_at ((uid, (at, change)) ∷ changes) merged j h =
    get-merge_changes taken_at changes _ j h.1
    ∙ ap (after_change taken_at (get j changes)) (put (ltb at taken_at) change)
    ∙ elim (Bool-cases (uid == j)) [
      | inl e ↦
          let gone =
            has_key-none j changes
              (subst (λ z. has_key z changes ≡ false) ((string_eq.beq_iff uid j).0 e) h.0) in
          rw (e, gone) refl
      | inr e ↦ rw e refl
    ]
  where
    put :
        (b : Bool) (o : Option GpuPod)
        → get j (
            if b then merged else elim o [ none ↦ erase uid merged | some p ↦ insert uid p merged ])
          ≡ (if uid == j then (if b then get j merged else o) else get j merged)
    put true o = ground arith
    put false none = get-erase uid j merged
    put false (some p) = get-insert uid j p merged

-- A rebuild from a snapshot: a pod that was changed at or after the snapshot's instant keeps what
-- the change left, a removal included, and every other pod is as the snapshot has it; the changes
-- from that instant on are kept and the older ones dropped. The changes are a dictionary.
pub rebuild_gpu_pods-exact :
    (s : NodeState) (pods : Dict String GpuPod) (taken_at : ℕ) (uid : String)
    → Distinct s.gpu_pod_changes
    → (get uid (rebuild_gpu_pods s pods taken_at).gpu_pods
        ≡ after_change taken_at (get uid s.gpu_pod_changes) (get uid pods))
      × (contains uid (keys (rebuild_gpu_pods s pods taken_at).gpu_pod_changes)
          ≡ elim (get uid s.gpu_pod_changes) [
            | none ↦ false
            | some change ↦ not (ltb change.0 taken_at)
          ])
unfolding rebuild_gpu_pods
rebuild_gpu_pods-exact s pods taken_at uid h = (
  ap (get uid) (derive_node_free-same _ (keys s.node_inventory)).1
      ∙ get-merge_changes taken_at s.gpu_pod_changes pods uid h,
  ap (λ d. contains uid (keys d)) (derive_node_free-same _ (keys s.node_inventory)).2
      ∙ contains-keys-keep _ uid s.gpu_pod_changes h,
)
