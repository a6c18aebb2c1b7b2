-- ===== src/Capacity/Free.antt =====
-- The free GPUs of each class, from the pods of a snapshot.
use gpu_reservation_controll.Base.{
  ℕ, ◌≡◌, refl, String, some, true, ◌==◌, string_eq, ◌&&◌, List, [], ◌∷◌, Dict, get, insert, get_or,
  get_or-insert, has_key, has_key-get, get-collect, bind_at, Distinct, sum_by, if◌then◌else◌, ◌+◌,
  sub_ℕ, arith, Option-cases, inl, inr,
}
use gpu_reservation_controll.State.{PodRuntimeView}
use gpu_reservation_controll.Capacity.{occupies, used_by_class, free_capacity_by_class}

-- The GPUs that the pod takes of a class.
abbrev pub taken : String → PodRuntimeView → ℕ
taken c p = if occupies p && (p.gpu_class == c) then p.gpu_count else 0

used_by_class-exact :
    (capacity : Dict String ℕ) (c : String) (pods : List PodRuntimeView) (used : Dict String ℕ)
    → has_key c capacity ≡ true
    → get_or c (used_by_class capacity pods used) 0 ≡ get_or c used 0 + sum_by (taken c) pods
unfolding used_by_class sum_by
used_by_class-exact capacity c [] used h = ground arith
used_by_class-exact capacity c (p ∷ ps) used h = ground (
  arith,
  used_by_class-exact capacity c ps
      (if occupies p && has_key p.gpu_class capacity
        then insert p.gpu_class (get_or p.gpu_class used 0 + p.gpu_count) used
        else used)
      h,
  get_or-insert p.gpu_class c (get_or p.gpu_class used 0 + p.gpu_count) 0 used,
  string_eq.beq_iff p.gpu_class c,
)

-- Of a class with a capacity, what is free is the capacity less the GPUs of all the pods of the
-- class that are resident on a node that counts and not terminating, below 0 where they hold more;
-- other classes have no entry. The capacities are a dictionary.
pub free_capacity_by_class-exact :
    (capacity : Dict String ℕ) (pods : List PodRuntimeView) (c : String)
    → Distinct capacity
    → get c (free_capacity_by_class capacity pods)
      ≡ bind_at (get c capacity) (λ n. some (sub_ℕ n (sum_by (taken c) pods)))
free_capacity_by_class-exact capacity pods c unique = elim (Option-cases (get c capacity)) [
  | inl q ↦ ground (arith, collected, q)
  | inr (n, q) ↦ rw q (
      ground (arith, collected, q, used_by_class-exact capacity c pods [] (present n q), none_used))
]
  where
    collected :
        get c (free_capacity_by_class capacity pods)
        ≡ bind_at
            (get c capacity)
            (λ n. some (sub_ℕ n (get_or c (used_by_class capacity pods []) 0)))
    collected = unfold free_capacity_by_class in get-collect _ c capacity unique

    none_used : get_or {V = ℕ} c [] 0 ≡ 0
    none_used = unfold get_or get in refl

    present : (n : ℕ) → get c capacity ≡ some n → has_key c capacity ≡ true
    present n q = ground (arith, has_key-get c capacity, q)
