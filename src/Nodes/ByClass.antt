-- ===== src/Nodes/ByClass.antt =====
-- The free GPUs that app/controller.py derives from an inventory and the pods, one class at a time.
use gpu_reservation_controll.Base.{
  Bool, Bool-cases, Dict, Distinct, List, Option, Option-cases, String, [], ap, bind_at, collect,
  erase, false, get, get-collect, get-insert, has_key, has_key-none, if◌then◌else◌, inl, inr,
  insert, keep, nat_eq, none, option_eq, pos, refl, some, string_eq, subst, sym, true, values, ℕ, ℤ,
  ◌==◌, ◌∙◌, ◌∷◌, ◌≡◌,
}
use gpu_reservation_controll.State.{GpuPod}
use gpu_reservation_controll.Capacity.{
  as_free, node_free_from_pods, subtract_pods, take_from, take_in_class,
}

-- The free GPUs of one class's nodes: those of the pods of the class are taken, in their order.
pub class_free : String → List GpuPod → Dict String ℤ → Dict String ℤ
class_free c [] nodes = nodes
class_free c (p ∷ ps) nodes = class_free c ps (
    if p.gpu_class == c
    then elim p.node_name [ none ↦ nodes | some n ↦ take_from n p.gpu_count nodes ]
    else nodes)

get-take_in_class :
    (k n c : String) (gpus : ℕ) (free : Dict String (Dict String ℤ))
    → get c (take_in_class k n gpus free)
      ≡ (if k == c then bind_at (get c free) (λ d. some (take_from n gpus d)) else get c free)
get-take_in_class k n c gpus free = elim (Option-cases (get k free)) [
  | inl e ↦ elim (Bool-cases (k == c)) [
    | inl q ↦
        let there = subst (λ z. get z free ≡ none) ((string_eq.beq_iff k c).0 q) e in
        ap (get c) (skipped e) ∙ there ∙ sym (rw (q, there) refl)
    | inr q ↦ rw (skipped e, q) refl
  ]
  | inr (d, e) ↦ elim (Bool-cases (k == c)) [
    | inl q ↦
        let there = subst (λ z. get z free ≡ some d) ((string_eq.beq_iff k c).0 q) e in
        rw (taken d e, get-insert k c (take_from n gpus d) free, q, there) refl
    | inr q ↦ rw (taken d e, get-insert k c (take_from n gpus d) free, q) refl
  ]
]
  where
    skipped : get k free ≡ none → take_in_class k n gpus free ≡ free
    skipped e =
        unfold take_in_class in
        ap (λ o. elim o [ none ↦ free | some d ↦ insert k (take_from n gpus d) free ]) e

    taken :
        (d : Dict String ℤ)
        → get k free ≡ some d
        → take_in_class k n gpus free ≡ insert k (take_from n gpus d) free
    taken d e =
        unfold take_in_class in
        ap (λ o. elim o [ none ↦ free | some x ↦ insert k (take_from n gpus x) free ]) e

bind_at_id : {V : Type 0} (o : Option V) → o ≡ bind_at o (λ d. some d)
bind_at_id none = refl
bind_at_id (some v) = refl

bind_at_if :
    {V W : Type 0} (o : Option V) (b : Bool) (f : V → V) (g : V → W)
    → bind_at (if b then bind_at o (λ d. some (f d)) else o) (λ d. some (g d))
      ≡ bind_at o (λ d. some (g (if b then f d else d)))
bind_at_if none true f g = refl
bind_at_if none false f g = refl
bind_at_if (some v) true f g = refl
bind_at_if (some v) false f g = refl

if_same : {V : Type 0} (b : Bool) (v : V) → (if b then v else v) ≡ v
if_same true v = refl
if_same false v = refl

get-subtract_pods :
    (pods : List GpuPod) (c : String) (free : Dict String (Dict String ℤ))
    → get c (subtract_pods pods free) ≡ bind_at (get c free) (λ d. some (class_free c pods d))
unfolding subtract_pods class_free
get-subtract_pods [] c free = bind_at_id (get c free)
get-subtract_pods (p ∷ ps) c free = get-subtract_pods ps c _ ∙ by_node p.node_name
  where
    by_node :
        (node : Option String)
        → bind_at
            (get c
              (elim node [ none ↦ free | some n ↦ take_in_class p.gpu_class n p.gpu_count free ]))
            (λ d. some (class_free c ps d))
          ≡ bind_at (get c free) (λ d. some (
              class_free c ps (
                if p.gpu_class == c
                then elim node [ none ↦ d | some n ↦ take_from n p.gpu_count d ]
                else d)))
    by_node none =
        ap (λ f. bind_at (get c free) f)
          (λ t d. some (class_free c ps (sym (if_same (p.gpu_class == c) d) t)))
    by_node (some n) =
        ap (λ o. bind_at o (λ d. some (class_free c ps d)))
          (get-take_in_class p.gpu_class n c p.gpu_count free)
        ∙ bind_at_if (get c free) (p.gpu_class == c) (take_from n p.gpu_count) (class_free c ps)

abbrev pub all_free : Dict String ℕ → Dict String ℤ
all_free nodes = collect (λ n gpus. some (pos gpus)) nodes

-- Every class of the inventory has an entry, by the pods of the class alone.
pub get-node_free_from_pods :
    (inventory : Dict String (Dict String ℕ)) (pods : List GpuPod) (c : String)
    → Distinct inventory
    → get c (node_free_from_pods inventory pods)
      ≡ bind_at (get c inventory) (λ nodes. some (class_free c pods (all_free nodes)))
unfolding node_free_from_pods as_free
get-node_free_from_pods inventory pods c unique =
    get-subtract_pods pods c (as_free inventory)
    ∙ ap (λ o. bind_at o (λ d. some (class_free c pods d))) (get-collect _ c inventory unique)
    ∙ nested (get c inventory)
  where
    nested :
        (o : Option (Dict String ℕ))
        → bind_at (bind_at o (λ nodes. some (all_free nodes))) (λ d. some (class_free c pods d))
          ≡ bind_at o (λ nodes. some (class_free c pods (all_free nodes)))
    nested none = refl
    nested (some nodes) = refl

abbrev pub of_class : String → List GpuPod → List GpuPod
of_class c pods = keep (λ p. p.gpu_class == c) pods

class_free-of_class :
    (c : String) (pods : List GpuPod) (d : Dict String ℤ)
    → class_free c (of_class c pods) d ≡ class_free c pods d
unfolding class_free keep
class_free-of_class c [] d = refl
class_free-of_class c (p ∷ ps) d = elim (Bool-cases (p.gpu_class == c)) [
  | inl e ↦ rw (e, class_free, e) (class_free-of_class c ps _)
  | inr e ↦ rw e (class_free-of_class c ps d)
]

pub class_free-ext :
    (c : String) (ps qs : List GpuPod) (d : Dict String ℤ)
    → of_class c ps ≡ of_class c qs
    → class_free c ps d ≡ class_free c qs d
class_free-ext c ps qs d same =
    sym (class_free-of_class c ps d)
    ∙ ap (λ rs. class_free c rs d) same
    ∙ class_free-of_class c qs d

of_class-cons :
    (c : String) (p : GpuPod) (ps : List GpuPod)
    → of_class c (p ∷ ps) ≡ (if p.gpu_class == c then p ∷ of_class c ps else of_class c ps)
unfolding keep
of_class-cons c p ps = refl

-- A pod of another class, before and after, does not change the pods of the class.
pub of_class-insert :
    (c uid : String) (p : GpuPod) (pods : Dict String GpuPod)
    → (p.gpu_class == c) ≡ false
    → ((q : GpuPod) → get uid pods ≡ some q → (q.gpu_class == c) ≡ false)
    → of_class c (values (insert uid p pods)) ≡ of_class c (values pods)
unfolding keep insert get
of_class-insert c uid p [] h k = rw h refl
of_class-insert c uid p ((i, q) ∷ pods) h k = elim (Bool-cases (i == uid)) [
  | inl e ↦ rw (e, h, k q (rw e refl)) refl
  | inr e ↦ rw e (
      ap (λ rs. if q.gpu_class == c then q ∷ rs else rs)
        (of_class-insert c uid p pods h (λ r m. k r (rw e m))))
]

pub of_class-erase :
    (c uid : String) (pods : Dict String GpuPod)
    → Distinct pods
    → ((q : GpuPod) → get uid pods ≡ some q → (q.gpu_class == c) ≡ false)
    → of_class c (values (erase uid pods)) ≡ of_class c (values pods)
unfolding keep erase get
of_class-erase c uid [] unique k = refl
of_class-erase c uid ((i, q) ∷ pods) unique k = elim (Bool-cases (i == uid)) [
  | inl e ↦ rw (e, k q (rw e refl)) (of_class-erase c uid pods unique.1 (λ r m. absurd (clash e m)))
  | inr e ↦ rw e (
      ap (λ rs. if q.gpu_class == c then q ∷ rs else rs)
        (of_class-erase c uid pods unique.1 (λ r m. k r (rw e m))))
]
  where
    missing : {o : Option GpuPod} {r : GpuPod} → o ≡ none → o ≡ some r → ⊥
    missing p q = cc

    clash : {r : GpuPod} → (i == uid) ≡ true → get uid pods ≡ some r → ⊥
    clash e m =
        missing
          (has_key-none uid pods
            (subst (λ z. has_key z pods ≡ false) ((string_eq.beq_iff i uid).0 e) unique.0))
          m
