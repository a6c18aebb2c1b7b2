-- ===== src/Base/Collect.antt =====
-- Dictionary comprehensions over the items of a dictionary, and running totals by key.
use mathlib.Core.Path.{◌≡◌, refl, subst, sym, ap, ◌∙◌}
use mathlib.Core.Logic.{inl, inr}
use mathlib.Core.Bool.{true, false}
use mathlib.Core.Option.{Option, none, some}
use mathlib.Core.List.{[], ◌∷◌}
use native.Mathlib.Omega.{arith}
use gpu_reservation_controll.Base.Tests.{Eq, ◌==◌, if◌then◌else◌, Bool-cases, Option-cases}
use gpu_reservation_controll.Base.Dictionary.{Dict, get, has_key}
use gpu_reservation_controll.Base.UniqueKeys.{Distinct, has_key-none}

abbrev then_cons {ℓ κ} : {K : Type ℓ} {V : Type κ} → K → Option V → Dict K V → Dict K V
then_cons k none d = d
then_cons k (some v) d = (k, v) ∷ d

abbrev pub bind_at {ℓ κ} : {V : Type ℓ} {W : Type κ} → Option V → (V → Option W) → Option W
bind_at none f = none
bind_at (some v) f = f v

abbrev or_else {ℓ} : {V : Type ℓ} → Option V → Option V → Option V
or_else none o = o
or_else (some v) o = some v

get-then_cons {ℓ κ} :
    {K : Type ℓ} {W : Type κ} ⦃e : Eq K⦄ (k j : K) (o : Option W) (d : Dict K W)
    → get j (then_cons k o d) ≡ (if k == j then or_else o (get j d) else get j d)
unfolding get
get-then_cons k j none d = ground arith
get-then_cons k j (some w) d = ground arith

module _ {ℓ κ μ} {K : Type ℓ} {V : Type κ} {W : Type μ} ⦃e : Eq K⦄ where
  -- `{k: f(k, v) for k, v in d.items() if ...}`, where none leaves the key out.
  unfoldable pub collect : (K → V → Option W) → Dict K V → Dict K W
  collect f [] = []
  collect f ((k, v) ∷ d) = then_cons k (f k v) (collect f d)

  has_key-collect :
      (f : K → V → Option W) (j : K) (d : Dict K V)
      → has_key j d ≡ false
      → has_key j (collect f d) ≡ false
  unfolding collect has_key
  has_key-collect f j [] h = refl
  has_key-collect f j ((k, v) ∷ d) h = elim (Option-cases (f k v)) [
    | inl n ↦ rw n (ground (arith, has_key-collect f j d))
    | inr (w, s) ↦ rw s (ground (arith, has_key-collect f j d))
  ]

  pub collect-Distinct : (f : K → V → Option W) (d : Dict K V) → Distinct d → Distinct (collect f d)
  unfolding collect
  collect-Distinct f [] h = tt
  collect-Distinct f ((k, v) ∷ d) h = elim (Option-cases (f k v)) [
    | inl n ↦ rw n (collect-Distinct f d h.1)
    | inr (w, s) ↦ rw s (has_key-collect f k d h.0, collect-Distinct f d h.1)
  ]

  pub get-collect :
      (f : K → V → Option W) (j : K) (d : Dict K V)
      → Distinct d
      → get j (collect f d) ≡ bind_at (get j d) (f j)
  get-collect f j [] h = unfold collect get in refl
  get-collect f j ((k, v) ∷ d) h = elim (Bool-cases (k == j)) [
    | inl q ↦
        let same = (e.beq_iff k j).0 q in
        rw (collect_cons, get-then_cons k j (f k v) (collect f d), q)
          (found same (has_key-collect f k d h.0) ∙ ap (λ o. bind_at o (f j)) (sym (get_here q)))
    | inr q ↦
        rw (collect_cons, get-then_cons k j (f k v) (collect f d), q)
          (get-collect f j d h.1 ∙ ap (λ o. bind_at o (f j)) (sym (get_there q)))
  ]
    where
      collect_cons : collect f ((k, v) ∷ d) ≡ then_cons k (f k v) (collect f d)
      collect_cons = unfold collect in refl

      get_here : (k == j) ≡ true → get j ((k, v) ∷ d) ≡ some v
      get_here q = unfold get in ground arith

      get_there : (k == j) ≡ false → get j ((k, v) ∷ d) ≡ get j d
      get_there q = unfold get in ground arith

      found :
          k ≡ j → has_key k (collect f d) ≡ false → or_else (f k v) (get j (collect f d)) ≡ f j v
      found same gone = ground (
        arith,
        has_key-none j (collect f d) (subst (λ z. has_key z (collect f d) ≡ false) same gone),
        ap (λ z. f z v) same,
      )
