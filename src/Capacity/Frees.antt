-- ===== src/Capacity/Frees.antt =====
-- What `capacity_frees_up` of app/controller.py does not overlook.
use gpu_reservation_controll.Base.{
  Bool-cases, Option, String, ap, ◌⊎◌, false, inl, inr, nat_eq, none, not, option_eq, some,
  string_eq, sym, true, refl, ◌==◌, ◌∙◌, ◌≡◌,
}
use gpu_reservation_controll.State.{GpuPod, pod_eq}
use gpu_reservation_controll.Capacity.{capacity_frees_up}

-- Where a pod's record moves without freeing room, a pod that was bound is still bound to its node.
capacity_frees_up_bound :
    (p : GpuPod) (current : Option GpuPod) (node : String)
    → p.node_name ≡ some node
    → capacity_frees_up (some p) current ≡ false
    → (c : GpuPod) × (current ≡ some c) × (c.node_name ≡ some node)
unfolding capacity_frees_up
capacity_frees_up_bound p none node bound h = cc
capacity_frees_up_bound p (some c) node bound h = elim (Bool-cases (p == c)) [
  | inl same ↦ (c, refl, sym (ap (λ z. z.node_name) ((pod_eq.beq_iff p c).0 same)) ∙ bound)
  | inr other ↦ (c, refl, on_node (Bool-cases (c.node_name == some node)) (rw (other, bound) at h))
]
  where
    on_node :
        ((c.node_name == some node) ≡ true) ⊎ ((c.node_name == some node) ≡ false)
        → not (c.node_name == some node) ≡ false
        → c.node_name ≡ some node
    on_node (inl e) k = (option_eq.beq_iff c.node_name (some node)).0 e
    on_node (inr e) k = absurd (true≢false (rw e at k))
      where
        true≢false : true ≡ false → ⊥
        true≢false q = cc
