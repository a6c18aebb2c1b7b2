-- ===== src/Admission/Ranking.antt =====
-- app/main.py: the order in which the candidates of a batch are granted.
use mathlib.Core.List.{append-nil, append_assoc}
use gpu_reservation_controll.Base.{
  Bool-cases, List, String, [], arith, contains, contains-append, false, if◌then◌else◌, inl, inr,
  nat_eq, not, option_eq, refl, string_eq, subst, sym, ◌&&◌, ◌++◌, ◌||◌, ◌∙◌, ◌∷◌, ◌≡◌,
}

unfoldable pub grant_loop : List String → List String → List String → List String
grant_loop offered [] result = result
grant_loop offered (uid ∷ granted) result = grant_loop offered granted (
    if not (contains uid offered)
    then result
    else if not (contains uid result)
    then result ++ uid ∷ []
    else result)

-- `_map_granted_uids`, from the uids that were offered.
unfoldable pub map_granted_uids : List String → List String → List String
unfolding grant_loop
map_granted_uids offered granted = grant_loop offered granted []

-- Each entry at most once.
pub IsUnique : List String → Type 0
IsUnique [] = Unit
IsUnique (x ∷ xs) = (contains x xs ≡ false) × IsUnique xs

append-IsUnique :
    (xs : List String) (x : String) → IsUnique xs → contains x xs ≡ false → IsUnique (xs ++ x ∷ [])
unfolding IsUnique contains
append-IsUnique [] x h n = (refl, tt)
append-IsUnique (y ∷ ys) x h n = (
  contains-append y ys (x ∷ [])
      ∙ ground (arith, h.0, n, string_eq.beq_iff x y, string_eq.beq_iff y x),
  append-IsUnique ys x h.1 (ground arith),
)

grant_loop-IsUnique :
    (offered granted result : List String)
    → IsUnique result
    → IsUnique (grant_loop offered granted result)
unfolding grant_loop
grant_loop-IsUnique offered [] result h = h
grant_loop-IsUnique offered (uid ∷ granted) result h =
    grant_loop-IsUnique offered granted _ (elim (Bool-cases (contains uid offered)) [
      | inl e ↦ elim (Bool-cases (contains uid result)) [
        | inl k ↦ rw (e, k) h
        | inr k ↦ rw (e, k) (append-IsUnique result uid h k)
      ]
      | inr e ↦ rw e h
    ])

contains-grant_loop :
    (offered granted result : List String) (u : String)
    → contains u (grant_loop offered granted result)
      ≡ (contains u result || (contains u granted && contains u offered))
unfolding grant_loop contains
contains-grant_loop offered [] result u = ground arith
contains-grant_loop offered (uid ∷ granted) result u =
    contains-grant_loop offered granted _ u ∙ elim (Bool-cases (contains uid offered)) [
      | inl e ↦ elim (Bool-cases (contains uid result)) [
        | inl k ↦ rw (e, k) (ground (arith, string_eq.beq_iff uid u, e, k))
        | inr k ↦
            rw (e, k, contains-append u result (uid ∷ []))
              (ground (arith, string_eq.beq_iff uid u, e, k))
      ]
      | inr e ↦ rw e (ground (arith, string_eq.beq_iff uid u, e))
    ]

-- A list's entries, some left out, in their order.
pub data IsWithin : List String → List String → Type 0 where
  done : IsWithin [] []
  skip : {x : String} {xs ys : List String} → IsWithin xs ys → IsWithin xs (x ∷ ys)
  take : {x : String} {xs ys : List String} → IsWithin xs ys → IsWithin (x ∷ xs) (x ∷ ys)

grant_loop-IsWithin :
    (offered granted result : List String)
    → (picked : List String) × (grant_loop offered granted result ≡ result ++ picked)
      × IsWithin picked granted
unfolding grant_loop
grant_loop-IsWithin offered [] result = ([], sym (append-nil result), IsWithin.done)
grant_loop-IsWithin offered (uid ∷ granted) result = elim (Bool-cases (contains uid offered)) [
  | inl e ↦ elim (Bool-cases (contains uid result)) [
    | inl k ↦
        let (p, q, w) = grant_loop-IsWithin offered granted result in
        (p, rw (e, k) q, IsWithin.skip w)
    | inr k ↦
        let (p, q, w) = grant_loop-IsWithin offered granted (result ++ uid ∷ []) in
        (uid ∷ p, rw (e, k) (q ∙ append_assoc result (uid ∷ []) p), IsWithin.take w)
  ]
  | inr e ↦
      let (p, q, w) = grant_loop-IsWithin offered granted result in (p, rw e q, IsWithin.skip w)
]

-- The candidates that are granted are those of the app's answer that were offered, each once, in
-- the order of the answer.
pub map_granted_uids-exact :
    (offered granted : List String)
    → IsUnique (map_granted_uids offered granted)
      × ((u : String)
          → contains u (map_granted_uids offered granted)
            ≡ (contains u granted && contains u offered))
      × IsWithin (map_granted_uids offered granted) granted
unfolding map_granted_uids IsUnique contains
map_granted_uids-exact offered granted = (
  grant_loop-IsUnique offered granted [] tt,
  λ u. contains-grant_loop offered granted [] u,
  let (p, q, w) = grant_loop-IsWithin offered granted [] in
      subst (λ z. IsWithin z granted) (sym q) w,
)
