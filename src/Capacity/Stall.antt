-- ===== src/Capacity/Stall.antt =====
-- Which nodes app/controller.py takes a placement to allow, and when a placement stalls a pod.
use gpu_reservation_controll.Base.{
  ℕ, ◌≡◌, subst, String, some, true, false, string_eq, nat_eq, ◌&&◌, not, List, [], ◌∷◌, Dict,
  get_or, any, any-false, any-true, In, contains, contains-keep, ℤ, pos, ltb_ℤ, arith,
}
use gpu_reservation_controll.Placement.{NodePlacement, matching_nodes, placement_matches}
use gpu_reservation_controll.Capacity.{placement_stall_reason, placement_nodes}

-- Where a placement narrows the nodes of a class, the allowed ones are exactly the nodes of the class
-- whose labels match it.
pub placement_nodes-exact :
    (p : NodePlacement) (nodes allowed : List String) (labels : Dict String (Dict String String))
    (n : String)
    → placement_nodes (some p) (some nodes) labels ≡ some allowed
    → contains n allowed ≡ (placement_matches p n (get_or n labels []) && contains n nodes)
unfolding placement_nodes matching_nodes
placement_nodes-exact p nodes allowed labels n h =
    subst (λ xs. contains n xs ≡ (placement_matches p n (get_or n labels []) && contains n nodes))
      (narrowed h) (contains-keep (λ m. placement_matches p m (get_or m labels [])) n nodes)
  where
    narrowed :
        placement_nodes (some p) (some nodes) labels ≡ some allowed
        → matching_nodes p nodes labels ≡ allowed
    narrowed k = unfold placement_nodes in ground arith

module _ (gpus : ℕ) (free : Dict String ℤ) (n : String) (ns : List String) where
  -- When the nodes that a placement allows are found full, none of them has room for the pod, and
  -- some other node has.
  pub placement_stall_reason-full :
      (m : String)
      → placement_stall_reason gpus free (some (n ∷ ns)) ≡ some "matching_nodes_full"
      → In m (n ∷ ns)
      → (ltb_ℤ (get_or m free (pos 0)) (pos gpus) ≡ true)
        × ((other : String × ℤ) × In other free
            × (ltb_ℤ other.1 (pos gpus) ≡ false)
            × (contains other.0 (n ∷ ns) ≡ false))
  placement_stall_reason-full m h i =
      let (full, room) = guards h in
      let (other, listed, fits) =
        any-true (λ kv. not (ltb_ℤ kv.1 (pos gpus)) && not (contains kv.0 (n ∷ ns))) free room in
      let tight =
        any-false (λ q. not (ltb_ℤ (get_or q free (pos 0)) (pos gpus))) (n ∷ ns) m full i in
      (ground arith, (other, listed, ground arith, ground arith))
    where
      guards :
          placement_stall_reason gpus free (some (n ∷ ns)) ≡ some "matching_nodes_full"
          → (any (λ q. not (ltb_ℤ (get_or q free (pos 0)) (pos gpus))) (n ∷ ns) ≡ false)
            × (any (λ kv. not (ltb_ℤ kv.1 (pos gpus)) && not (contains kv.0 (n ∷ ns))) free ≡ true)
      guards k = unfold placement_stall_reason in (ground arith, ground arith)
