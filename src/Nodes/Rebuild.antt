-- ===== src/Nodes/Rebuild.antt =====
-- The two ways in which the pods of app/controller.py's node accounts change: one pod at a time,
-- and a rebuild from a snapshot.
use gpu_reservation_controll.Base.{
  Bool, Bool-cases, Dict, Distinct, List, Option, Option-cases, String, [], add, ap, ap₂, arith,
  bind_at, contains, contains-add, erase, erase-Distinct, false, false≢true, get, has_key,
  if◌then◌else◌, inl, inr, insert, insert-Distinct, keys, ltb, max_or_zero, nat_eq, none,
  option_beq_iff, option_eq, refl, some, some-injective, string_eq, subst, sym, true, values, ℕ,
  ◌==◌, ◌∙◌, ◌∷◌, ◌≡◌, ◌⊎◌,
}
use gpu_reservation_controll.State.{GpuPod, pod_eq}
use gpu_reservation_controll.Capacity.{node_free_from_pods}
use gpu_reservation_controll.Nodes.{
  NodeState, classes_of, derive_node_free, free_of_classes, merge_changes, put_pod,
  rebuild_gpu_pods, set_gpu_pod,
}
use gpu_reservation_controll.Nodes.ByClass.{
  all_free, class_free-ext, get-node_free_from_pods, of_class, of_class-erase, of_class-insert,
}
use gpu_reservation_controll.Nodes.Live.{IsLive, derived, get-derive_node_free, store_free-same}

contains-keys : {V : Type 0} (c : String) (d : Dict String V) → contains c (keys d) ≡ has_key c d
unfolding contains has_key
contains-keys c [] = refl
contains-keys c ((k, v) ∷ d) = ap (λ b. if k == c then true else b) (contains-keys c d)

pub derive_node_free-same :
    (s : NodeState) (cs : List String)
    → ((derive_node_free s cs).node_inventory ≡ s.node_inventory)
      × ((derive_node_free s cs).gpu_pods ≡ s.gpu_pods)
      × ((derive_node_free s cs).gpu_pod_changes ≡ s.gpu_pod_changes)
unfolding derive_node_free
derive_node_free-same s cs = store_free-same (free_of_classes s cs) s

-- After a derivation the maps are live, where they were for the classes that it leaves.
derive_node_free-IsLive :
    (s : NodeState) (cs : List String)
    → Distinct s.node_inventory
    → Distinct s.gpu_pods
    → ((c : String)
        → has_key c s.node_inventory ≡ true
        → contains c cs ≡ false
        → (get c s.node_free_by_node_class ≡ derived s c)
          × (get c s.node_free_by_class
              ≡ bind_at (derived s c) (λ nodes. some (max_or_zero (values nodes)))))
    → IsLive (derive_node_free s cs)
derive_node_free-IsLive s cs inventory pods rest = record {
  inventory_Distinct = subst Distinct (sym (derive_node_free-same s cs).0) inventory;
  pods_Distinct = subst Distinct (sym (derive_node_free-same s cs).1) pods;
  live_nodes = λ c h.
      let there = subst (λ d. has_key c d ≡ true) (derive_node_free-same s cs).0 h in
      (get-derive_node_free s cs c inventory there).0 ∙ nodes_at c there ∙ sym (derived_after c);
  live_class = λ c h.
      let there = subst (λ d. has_key c d ≡ true) (derive_node_free-same s cs).0 h in
      (get-derive_node_free s cs c inventory there).1
      ∙ class_at c there
      ∙ ap (λ o. bind_at o (λ nodes. some (max_or_zero (values nodes)))) (sym (derived_after c));
}
  where
    derived_after : (c : String) → derived (derive_node_free s cs) c ≡ derived s c
    derived_after c =
        ap₂ (λ inv ps. get c (node_free_from_pods inv (values ps))) (derive_node_free-same s cs).0
          (derive_node_free-same s cs).1

    nodes_at :
        (c : String)
        → has_key c s.node_inventory ≡ true
        → (if contains c cs then derived s c else get c s.node_free_by_node_class) ≡ derived s c
    nodes_at c h = elim (Bool-cases (contains c cs)) [
      | inl e ↦ rw e refl
      | inr e ↦ rw e ((rest c h e).0)
    ]

    class_at :
        (c : String)
        → has_key c s.node_inventory ≡ true
        → (if contains c cs
            then bind_at (derived s c) (λ nodes. some (max_or_zero (values nodes)))
            else get c s.node_free_by_class)
          ≡ bind_at (derived s c) (λ nodes. some (max_or_zero (values nodes)))
    class_at c h = elim (Bool-cases (contains c cs)) [
      | inl e ↦ rw e refl
      | inr e ↦ rw e ((rest c h e).1)
    ]

merge_changes-Distinct :
    (taken_at : ℕ) (changes : Dict String (ℕ × Option GpuPod)) (merged : Dict String GpuPod)
    → Distinct merged
    → Distinct (merge_changes taken_at changes merged)
unfolding merge_changes
merge_changes-Distinct taken_at [] merged h = h
merge_changes-Distinct taken_at ((uid, (at, change)) ∷ changes) merged h =
    merge_changes-Distinct taken_at changes _ (by_age (ltb at taken_at) change)
  where
    by_age :
        (b : Bool) (o : Option GpuPod)
        → Distinct (
            if b then merged else elim o [ none ↦ erase uid merged | some p ↦ insert uid p merged ])
    by_age true o = h
    by_age false none = erase-Distinct uid merged h
    by_age false (some p) = insert-Distinct uid p merged h

pub rebuild_gpu_pods-IsLive :
    (s : NodeState) (pods : Dict String GpuPod) (taken_at : ℕ)
    → IsLive s
    → Distinct pods
    → IsLive (rebuild_gpu_pods s pods taken_at)
unfolding rebuild_gpu_pods
rebuild_gpu_pods-IsLive s pods taken_at live unique =
    derive_node_free-IsLive _ (keys s.node_inventory) live.inventory_Distinct
      (merge_changes-Distinct taken_at s.gpu_pod_changes pods unique)
      (λ c h k. absurd (false≢true (sym k ∙ contains-keys c s.node_inventory ∙ h)))

put_pod-Distinct :
    (uid : String) (change : Option GpuPod) (pods : Dict String GpuPod)
    → Distinct pods
    → Distinct (put_pod uid change pods)
unfolding put_pod
put_pod-Distinct uid none pods h = erase-Distinct uid pods h
put_pod-Distinct uid (some p) pods h = insert-Distinct uid p pods h

-- A class that neither the record before nor the record after has keeps its pods.
of_class-put_pod :
    (c uid : String) (change : Option GpuPod) (pods : Dict String GpuPod)
    → Distinct pods
    → contains c (classes_of (get uid pods) change) ≡ false
    → of_class c (values (put_pod uid change pods)) ≡ of_class c (values pods)
unfolding put_pod classes_of contains add
of_class-put_pod c uid none pods unique h =
    of_class-erase c uid pods unique (λ q e. let k = (rw e at h) in ground (arith, k))
of_class-put_pod c uid (some p) pods unique h =
    of_class-insert c uid p pods (new_class (Option-cases (get uid pods)))
      (λ q e. old_class q (rw e at h))
  where
    old_class :
        (q : GpuPod)
        → contains c (add p.gpu_class (q.gpu_class ∷ [])) ≡ false
        → (q.gpu_class == c) ≡ false
    old_class q k = ground (arith, contains-add p.gpu_class c (q.gpu_class ∷ []), k)

    new_class :
        (get uid pods ≡ none) ⊎ ((q : GpuPod) × (get uid pods ≡ some q))
        → (p.gpu_class == c) ≡ false
    new_class (inl e) = let k = (rw e at h) in ground (arith, k)
    new_class (inr (q, e)) =
        let k = (rw e at h) in ground (arith, contains-add p.gpu_class c (q.gpu_class ∷ []), k)

erase-missing : (uid : String) (d : Dict String GpuPod) → get uid d ≡ none → erase uid d ≡ d
unfolding erase get
erase-missing uid [] h = refl
erase-missing uid ((i, q) ∷ d) h = elim (Bool-cases (i == uid)) [
  | inl e ↦ absurd (some≢none (rw e at h))
  | inr e ↦ rw e (ap (λ r. (i, q) ∷ r) (erase-missing uid d (rw e at h)))
]
  where
    some≢none : some q ≡ none → ⊥
    some≢none k = cc

insert-present :
    (uid : String) (p : GpuPod) (d : Dict String GpuPod) → get uid d ≡ some p → insert uid p d ≡ d
unfolding insert get
insert-present uid p [] h = cc
insert-present uid p ((i, q) ∷ d) h = elim (Bool-cases (i == uid)) [
  | inl e ↦
      let key = (string_eq.beq_iff i uid).0 e in
      rw e (ap₂ (λ k v. (k, v) ∷ d) (sym key) (sym (some-injective q p (rw e at h))))
  | inr e ↦ rw e (ap (λ r. (i, q) ∷ r) (insert-present uid p d (rw e at h)))
]

-- Storing what is there already changes nothing.
put_pod-same :
    (uid : String) (change : Option GpuPod) (pods : Dict String GpuPod)
    → get uid pods ≡ change
    → put_pod uid change pods ≡ pods
unfolding put_pod
put_pod-same uid none pods h = erase-missing uid pods h
put_pod-same uid (some p) pods h = insert-present uid p pods h

derived-ext :
    (s : NodeState) (pods : Dict String GpuPod) (c : String)
    → Distinct s.node_inventory
    → of_class c (values pods) ≡ of_class c (values s.gpu_pods)
    → get c (node_free_from_pods s.node_inventory (values pods)) ≡ derived s c
derived-ext s pods c unique same =
    get-node_free_from_pods s.node_inventory (values pods) c unique
    ∙ ap (bind_at (get c s.node_inventory)) (λ t nodes.
      some (class_free-ext c (values pods) (values s.gpu_pods) (all_free nodes) same t))
    ∙ sym (get-node_free_from_pods s.node_inventory (values s.gpu_pods) c unique)

pub set_gpu_pod-IsLive :
    (s : NodeState) (uid : String) (change : Option GpuPod) (now : ℕ)
    → IsLive s
    → IsLive ((set_gpu_pod s uid change now).0)
unfolding set_gpu_pod
set_gpu_pod-IsLive s uid change now live = elim (Bool-cases (get uid s.gpu_pods == change)) [
  | inl e ↦ rw e (unchanged ((option_beq_iff _ _).0 e))
  | inr e ↦ rw e (
      derive_node_free-IsLive changed (classes_of (get uid s.gpu_pods) change)
        live.inventory_Distinct (put_pod-Distinct uid change s.gpu_pods live.pods_Distinct)
        (λ c h k.
          let same =
            derived-ext s (put_pod uid change s.gpu_pods) c live.inventory_Distinct
              (of_class-put_pod c uid change s.gpu_pods live.pods_Distinct k) in
          (
            live.live_nodes c h ∙ sym same,
            live.live_class c h
                ∙ ap (λ o. bind_at o (λ nodes. some (max_or_zero (values nodes)))) (sym same),
          )))
]
  where
    changed : NodeState
    changed = record s {
      gpu_pods = put_pod uid change s.gpu_pods;
      gpu_pod_changes = insert uid (now, change) s.gpu_pod_changes;
    }

    unchanged : get uid s.gpu_pods ≡ change → IsLive changed
    unchanged e =
        let kept = put_pod-same uid change s.gpu_pods e in
        record {
          inventory_Distinct = live.inventory_Distinct;
          pods_Distinct = subst Distinct (sym kept) live.pods_Distinct;
          live_nodes = λ c h.
              live.live_nodes c h
              ∙ ap (λ ps. get c (node_free_from_pods s.node_inventory (values ps))) (sym kept);
          live_class = λ c h.
              live.live_class c h
              ∙ ap
                  (λ ps.
                    bind_at (get c (node_free_from_pods s.node_inventory (values ps)))
                      (λ nodes. some (max_or_zero (values nodes))))
                  (sym kept);
        }
