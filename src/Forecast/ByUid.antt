-- ===== src/Forecast/ByUid.antt =====
-- What app/controller.py's maps from the uids of admitted pods hold.
use gpu_reservation_controll.Base.{
  Bool-cases, Dict, In, List, String, [], arith, eq_self, false, get, get-insert, has_key,
  has_key-insert, if◌then◌else◌, inl, inr, insert, is_none, nat_eq, none, option_eq, refl, some,
  some-injective, string_eq, subst, sym, true, ◌==◌, ◌∙◌, ◌∷◌, ◌≡◌, ◌⊎◌,
}
use gpu_reservation_controll.State.{PodRuntimeView, pod_eq}
use gpu_reservation_controll.Forecast.{by_uid}

module _ {V : Type 0} (f : PodRuntimeView → V) where
  -- The entry of a pod with a uid.
  unfoldable pub IsOf : List PodRuntimeView → String → V → Type 0
  IsOf ps uid v = (p : PodRuntimeView) × In p ps × (p.uid ≡ uid) × (f p ≡ v)

  get-by_uid_from :
      (ps : List PodRuntimeView) (out : Dict String V) (uid : String) (v : V)
      → get uid (by_uid f ps out) ≡ some v
      → (get uid out ≡ some v) ⊎ IsOf ps uid v
  unfolding by_uid IsOf
  get-by_uid_from [] out uid v h = inl h
  get-by_uid_from (p ∷ ps) out uid v h = elim (get-by_uid_from ps _ uid v h) [
    | inl e ↦ elim (Bool-cases (is_none p.reservation_id)) [
      | inl k ↦ inl (rw k at e)
      | inr k ↦ elim (Bool-cases (p.uid == uid)) [
        | inl q ↦ inr (
          p,
          inl refl,
          (string_eq.beq_iff p.uid uid).0 q,
          some-injective _ _ (rw (k, get-insert p.uid uid (f p) out, q) at e),
        )
        | inr q ↦ inl (rw (k, get-insert p.uid uid (f p) out, q) at e)
      ]
    ]
    | inr (q, m, same, eq) ↦ inr (q, inr m, same, eq)
  ]

  pub get-by_uid :
      (ps : List PodRuntimeView) (uid : String) (v : V)
      → get uid (by_uid f ps []) ≡ some v
      → IsOf ps uid v
  get-by_uid ps uid v h = elim (get-by_uid_from ps [] uid v h) [
    | inl e ↦ absurd (nothing (unfold get in e))
    | inr found ↦ found
  ]
    where
      nothing : none ≡ some v → ⊥
      nothing e = cc

  has_key-by_uid_from :
      (ps : List PodRuntimeView) (out : Dict String V) (uid : String)
      → has_key uid out ≡ true
      → has_key uid (by_uid f ps out) ≡ true
  unfolding by_uid
  has_key-by_uid_from [] out uid h = h
  has_key-by_uid_from (p ∷ ps) out uid h =
      has_key-by_uid_from ps _ uid (elim (Bool-cases (is_none p.reservation_id)) [
        | inl k ↦ rw k h
        | inr k ↦ rw k (has_key-insert p.uid uid (f p) out ∙ ground (arith, h))
      ])

  -- Every pod with a reservation has an entry.
  pub has_key-by_uid :
      (ps : List PodRuntimeView) (out : Dict String V) (p : PodRuntimeView)
      → In p ps
      → is_none p.reservation_id ≡ false
      → has_key p.uid (by_uid f ps out) ≡ true
  unfolding by_uid
  has_key-by_uid [] out p m h = absurd m.0
  has_key-by_uid (q ∷ ps) out p (inl e) h = has_key-by_uid_from ps _ p.uid (
      subst
        (λ z.
          has_key p.uid (if is_none z.reservation_id then out else insert z.uid (f z) out) ≡ true)
        (sym e) (rw h (has_key-insert p.uid p.uid (f p) out ∙ ground (arith, eq_self p.uid))))
  has_key-by_uid (q ∷ ps) out p (inr m) h = has_key-by_uid ps _ p m h
