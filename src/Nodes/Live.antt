-- ===== src/Nodes/Live.antt =====
-- The node maps of app/controller.py that are kept current between snapshots agree with a
-- derivation from the whole inventory and all pods.
use gpu_reservation_controll.Base.{
  Bool-cases, Dict, Distinct, List, Option, Option-cases, String, [], ap, arith, bind_at,
  collect-Distinct, contains, contains-keep, false, false≢true, get, get-collect, get-insert,
  has_key, has_key-get, has_key-none, if◌then◌else◌, inl, inr, insert, insert-Distinct, keep,
  max_or_zero, nat_eq, none, option_eq, refl, some, string_eq, subst, sym, true, values, ℕ, ℤ, ◌==◌,
  ◌∙◌, ◌∷◌, ◌≡◌, ◌⊎◌,
}
use gpu_reservation_controll.State.{GpuPod}
use gpu_reservation_controll.Capacity.{
  as_free, largest_node_free_by_class, node_free_from_pods, subtract_pods, take_from, take_in_class,
}
use gpu_reservation_controll.Nodes.ByClass.{
  all_free, class_free, class_free-ext, get-node_free_from_pods, of_class,
}
use gpu_reservation_controll.Nodes.{
  NodeState, derive_node_free, free_of_classes, install_node_inventory, no_nodes, pick, store_free,
}

-- The free GPUs by node of a class, derived anew.
abbrev pub derived : NodeState → String → Option (Dict String ℤ)
derived s c = get c (node_free_from_pods s.node_inventory (values s.gpu_pods))

-- The maps have, for every class of the inventory, what is derived anew.
pub record IsLive (s : NodeState) : Type 0 where
  pub inventory_Distinct : Distinct s.node_inventory
  pub pods_Distinct : Distinct s.gpu_pods
  pub live_nodes :
      (c : String)
      → has_key c s.node_inventory ≡ true
      → get c s.node_free_by_node_class ≡ derived s c
  pub live_class :
      (c : String)
      → has_key c s.node_inventory ≡ true
      → get c s.node_free_by_class
        ≡ bind_at (derived s c) (λ nodes. some (max_or_zero (values nodes)))

pub no_nodes-IsLive : IsLive no_nodes
unfolding has_key
no_nodes-IsLive = record {
  inventory_Distinct = tt;
  pods_Distinct = tt;
  live_nodes = λ c h. absurd (false≢true h);
  live_class = λ c h. absurd (false≢true h);
}

subtract_pods-Distinct :
    (pods : List GpuPod) (free : Dict String (Dict String ℤ))
    → Distinct free
    → Distinct (subtract_pods pods free)
unfolding subtract_pods
subtract_pods-Distinct [] free h = h
subtract_pods-Distinct (p ∷ ps) free h = subtract_pods-Distinct ps _ (by_node p.node_name)
  where
    by_class :
        (n : String) (o : Option (Dict String ℤ))
        → Distinct
            (elim o [ none ↦ free | some d ↦ insert p.gpu_class (take_from n p.gpu_count d) free ])
    by_class n none = h
    by_class n (some d) = insert-Distinct _ _ free h

    by_node :
        (node : Option String)
        → Distinct
            (elim node [ none ↦ free | some n ↦ take_in_class p.gpu_class n p.gpu_count free ])
    by_node none = h
    by_node (some n) = unfold take_in_class in by_class n (get p.gpu_class free)

node_free_from_pods-Distinct :
    (inventory : Dict String (Dict String ℕ)) (pods : List GpuPod)
    → Distinct inventory
    → Distinct (node_free_from_pods inventory pods)
unfolding node_free_from_pods as_free
node_free_from_pods-Distinct inventory pods h =
    subtract_pods-Distinct pods _ (collect-Distinct _ inventory h)

pub install_node_inventory-IsLive :
    (s : NodeState) (inventory : Dict String (Dict String ℕ))
    (labels : Dict String (Dict String String))
    → IsLive s
    → Distinct inventory
    → IsLive (install_node_inventory s inventory labels)
unfolding install_node_inventory largest_node_free_by_class
install_node_inventory-IsLive s inventory labels live unique = record {
  inventory_Distinct = unique;
  pods_Distinct = live.pods_Distinct;
  live_nodes = λ c h. refl;
  live_class =
      λ c h. get-collect _ c _ (node_free_from_pods-Distinct inventory (values s.gpu_pods) unique);
}

get-pick :
    (inventory : Dict String (Dict String ℕ)) (cs : List String) (j : String)
    (picked : Dict String (Dict String ℕ))
    → has_key j inventory ≡ true
    → get j (pick inventory cs picked) ≡ (if contains j cs then get j inventory else get j picked)
unfolding pick contains
get-pick inventory [] j picked h = refl
get-pick inventory (c ∷ cs) j picked h =
    get-pick inventory cs j _ h ∙ by_first (Option-cases (get c inventory))
  where
    by_first :
        (get c inventory ≡ none) ⊎ ((nodes : Dict String ℕ) × (get c inventory ≡ some nodes))
        → (if contains j cs
            then get j inventory
            else get j
                (elim (get c inventory) [ none ↦ picked | some nodes ↦ insert c nodes picked ]))
          ≡ (if (if c == j then true else contains j cs) then get j inventory else get j picked)
    by_first (inl e) = rw e (
        ground
          (arith, string_eq.beq_iff c j, e, has_key-get j inventory, ap (λ z. get z inventory), h))
    by_first (inr (nodes, e)) =
        rw e (ground (arith, string_eq.beq_iff c j, e, get-insert c j nodes picked))

pick-Distinct :
    (inventory : Dict String (Dict String ℕ)) (cs : List String)
    (picked : Dict String (Dict String ℕ))
    → Distinct picked
    → Distinct (pick inventory cs picked)
unfolding pick
pick-Distinct inventory [] picked h = h
pick-Distinct inventory (c ∷ cs) picked h =
    pick-Distinct inventory cs _ (by_first (get c inventory))
  where
    by_first :
        (o : Option (Dict String ℕ))
        → Distinct (elim o [ none ↦ picked | some nodes ↦ insert c nodes picked ])
    by_first none = h
    by_first (some nodes) = insert-Distinct c nodes picked h

abbrev or_old : {V : Type 0} → Option V → Option V → Option V
or_old none old = old
or_old (some v) old = some v

pub store_free-same :
    (free : Dict String (Dict String ℤ)) (s : NodeState)
    → ((store_free free s).node_inventory ≡ s.node_inventory)
      × ((store_free free s).gpu_pods ≡ s.gpu_pods)
      × ((store_free free s).gpu_pod_changes ≡ s.gpu_pod_changes)
unfolding store_free
store_free-same [] s = (refl, refl, refl)
store_free-same ((c, d) ∷ free) s = store_free-same free _

get-store_free :
    (free : Dict String (Dict String ℤ)) (s : NodeState) (j : String)
    → Distinct free
    → (get j (store_free free s).node_free_by_node_class
        ≡ or_old (get j free) (get j s.node_free_by_node_class))
      × (get j (store_free free s).node_free_by_class
          ≡ or_old
              (bind_at (get j free) (λ d. some (max_or_zero (values d))))
              (get j s.node_free_by_class))
unfolding store_free get
get-store_free [] s j h = (refl, refl)
get-store_free ((c, d) ∷ free) s j h =
    let ih = get-store_free free _ j h.1 in
    elim (Bool-cases (c == j)) [
      | inl e ↦
          let gone =
            has_key-none j free
              (subst (λ z. has_key z free ≡ false) ((string_eq.beq_iff c j).0 e) h.0) in
          rw e (
            ih.0 ∙ rw (gone, get-insert c j d s.node_free_by_node_class, e) refl,
            ih.1 ∙ rw (gone, get-insert c j (max_or_zero (values d)) s.node_free_by_class, e) refl,
          )
      | inr e ↦ rw e (
        ih.0 ∙ rw (get-insert c j d s.node_free_by_node_class, e) refl,
        ih.1 ∙ rw (get-insert c j (max_or_zero (values d)) s.node_free_by_class, e) refl,
      )
    ]

contains-targets :
    (inventory : Dict String (Dict String ℕ)) (cs : List String) (c : String)
    → has_key c inventory ≡ true
    → contains c (keep (λ k. has_key k inventory) cs) ≡ contains c cs
contains-targets inventory cs c h = contains-keep _ c cs ∙ rw h refl

of_class-keep :
    (cs : List String) (c : String) (pods : List GpuPod)
    → contains c cs ≡ true
    → of_class c (keep (λ p. contains p.gpu_class cs) pods) ≡ of_class c pods
unfolding keep
of_class-keep cs c [] h = refl
of_class-keep cs c (p ∷ ps) h = elim (Bool-cases (p.gpu_class == c)) [
  | inl e ↦
      let there =
        subst (λ z. contains z cs ≡ true) (sym ((string_eq.beq_iff p.gpu_class c).0 e)) h in
      rw (there, e) (ap (λ rs. p ∷ rs) (of_class-keep cs c ps h))
  | inr e ↦ elim (Bool-cases (contains p.gpu_class cs)) [
    | inl k ↦ rw (k, e) (of_class-keep cs c ps h)
    | inr k ↦ rw (k, e) (of_class-keep cs c ps h)
  ]
]

-- Deriving some classes anew leaves the others as they were.
pub get-derive_node_free :
    (s : NodeState) (cs : List String) (c : String)
    → Distinct s.node_inventory
    → has_key c s.node_inventory ≡ true
    → (get c (derive_node_free s cs).node_free_by_node_class
        ≡ (if contains c cs then derived s c else get c s.node_free_by_node_class))
      × (get c (derive_node_free s cs).node_free_by_class ≡ (
          if contains c cs
          then bind_at (derived s c) (λ nodes. some (max_or_zero (values nodes)))
          else get c s.node_free_by_class))
unfolding derive_node_free free_of_classes
get-derive_node_free s cs c unique h = elim (Bool-cases (contains c cs)) [
  | inl e ↦
      let (d, q) = derived_some in
      rw e (stored.0 ∙ rw (free_in e, q) refl, stored.1 ∙ rw (free_in e, q) refl)
  | inr e ↦ rw e (stored.0 ∙ rw (free_out e) refl, stored.1 ∙ rw (free_out e) refl)
]
  where
    targets : List String
    targets = keep (λ k. has_key k s.node_inventory) cs

    inventory : Dict String (Dict String ℕ)
    inventory = pick s.node_inventory targets []

    pods : List GpuPod
    pods = keep (λ p. contains p.gpu_class targets) (values s.gpu_pods)

    free : Dict String (Dict String ℤ)
    free = node_free_from_pods inventory pods

    inventory_Distinct : Distinct inventory
    inventory_Distinct = pick-Distinct s.node_inventory targets [] tt

    free_in : contains c cs ≡ true → get c free ≡ derived s c
    free_in e =
        let there = contains-targets s.node_inventory cs c h ∙ e in
        get-node_free_from_pods inventory pods c inventory_Distinct
        ∙ ap (λ o. bind_at o (λ nodes. some (class_free c pods (all_free nodes))))
            (get-pick s.node_inventory targets c [] h ∙ rw there refl)
        ∙ ap (bind_at (get c s.node_inventory)) (λ t nodes. some (
            class_free-ext c pods (values s.gpu_pods) (all_free nodes)
              (of_class-keep targets c (values s.gpu_pods) there) t))
        ∙ sym (get-node_free_from_pods s.node_inventory (values s.gpu_pods) c unique)

    nothing : get {V = Dict String ℕ} c [] ≡ none
    nothing = unfold get in refl

    free_out : contains c cs ≡ false → get c free ≡ none
    free_out e =
        let there = contains-targets s.node_inventory cs c h ∙ e in
        let unlisted : get c inventory ≡ none =
          get-pick s.node_inventory targets c [] h ∙ rw there nothing in
        get-node_free_from_pods inventory pods c inventory_Distinct
        ∙ ap (λ o. bind_at o (λ nodes. some (class_free c pods (all_free nodes)))) unlisted

    known :
        has_key c s.node_inventory ≡ elim (get c s.node_inventory) [ none ↦ false | some n ↦ true ]
        → get c s.node_inventory ≡ none
        → ⊥
    known e q = ground (arith, e, q)

    derived_some : (d : Dict String ℤ) × (derived s c ≡ some d)
    derived_some = elim (Option-cases (get c s.node_inventory)) [
      | inl e ↦ absurd (known (has_key-get c s.node_inventory) e)
      | inr (nodes, e) ↦ (
        class_free c (values s.gpu_pods) (all_free nodes),
        get-node_free_from_pods s.node_inventory (values s.gpu_pods) c unique ∙ rw e refl,
      )
    ]

    stored :
        (get c (store_free free s).node_free_by_node_class
          ≡ or_old (get c free) (get c s.node_free_by_node_class))
        × (get c (store_free free s).node_free_by_class
            ≡ or_old
                (bind_at (get c free) (λ d. some (max_or_zero (values d))))
                (get c s.node_free_by_class))
    stored =
        get-store_free free s c (node_free_from_pods-Distinct inventory pods inventory_Distinct)
