-- ===== src/Lease/Exclusion/Safe.antt =====
-- What holds at every moment of the instances that claim the Lease of app/k8s_client.py: what each
-- was told of its hold is respected by the stored Lease and by the holds of the others.
use gpu_reservation_controll.Base.{
  Bool-cases, Option-cases, String, ap, arith, false≢true, inl, inr, nat_eq, none, option_eq, refl,
  some, some-injective, string_eq, subst, sym, true, ℕ, ◌*◌, ◌+◌, ◌<◌, ◌==◌, ◌∙◌, ◌≡◌, ◌≢◌, ◌≤◌,
  ◌⊎◌,
}
use gpu_reservation_controll.Lease.{
  LeaseObject, LeaseOutcome, LeaseWrite, body_of, lease_resource_version,
}
use gpu_reservation_controll.Lease.Guard.{lease_duration_seconds}
use gpu_reservation_controll.Lease.System.{ApiServer, Instance, World, confirms, update}
use gpu_reservation_controll.Lease.Outcomes.{MayReplace}

lease_resource_version-some :
    (l : LeaseObject) (v : String) → lease_resource_version l ≡ some v → l.resource_version ≡ some v
unfolding lease_resource_version
lease_resource_version-some l v h = elim (Option-cases l.resource_version) [
  | inl e ↦ absurd (none≢some (rw e at h))
  | inr (rv, e) ↦ elim (Bool-cases (rv == "")) [
    | inl empty ↦ absurd (none≢some (rw (e, empty) at h))
    | inr full ↦ e ∙ (rw (e, full) at h)
  ]
]
  where
    none≢some : none ≡ some v → ⊥
    none≢some q = cc

module _ (api : ApiServer) (name : ℕ → String)
    (own_names : (i j : ℕ) → name i ≡ name j → i ≡ j) where
  -- A pending write is a claim made at the instant of the instance's latest call, from a Lease
  -- that was stored.
  pub record IsOwn (i now : ℕ) (w : LeaseWrite) : Type 0 where
    pub claims : (body_of w).spec.holder_identity ≡ some (name i)
    pub duration : (body_of w).spec.lease_duration_seconds ≡ some lease_duration_seconds
    pub renewal : (body_of w).spec.renew_time ≡ some now
    pub stands_on :
        (b : LeaseObject)
        → w ≡ LeaseWrite.replace b
        → (s : api.Store) × (l : LeaseObject) × (api.stored s ≡ some l)
          × (b.resource_version ≡ lease_resource_version l)
          × MayReplace (name i) now l

  -- What the stored Lease says to an instance `k` that was told at `at` that it holds the Lease:
  -- it is `k`'s still, or it was renewed after the term of `k`'s hold.
  pub record IsRespected (s : api.Store) (clock : ℕ → ℕ) (k at : ℕ) : Type 0 where
    pub lease : LeaseObject
    pub kept : api.stored s ≡ some lease
    pub owner : ℕ
    pub owned : lease.spec.holder_identity ≡ some (name owner)
    pub duration : lease.spec.lease_duration_seconds ≡ some lease_duration_seconds
    pub since : ℕ
    pub renewal : lease.spec.renew_time ≡ some since
    pub past_since : since ≤ clock owner
    pub apart : ((owner ≡ k) × (at ≤ since)) ⊎ (at + 1000000 * lease_duration_seconds < since)

  unfoldable pub clocks : (ℕ → Instance) → ℕ → ℕ
  clocks f i = (f i).clock

  -- An instant further than the term from every instant at which another instance was told so.
  unfoldable pub IsApart : (ℕ → Instance) → ℕ → ℕ → Type 0
  IsApart f i at =
      (j b : ℕ)
      → i ≢ j
      → (f j).confirmed ≡ some b
      → (at + 1000000 * lease_duration_seconds < b) ⊎ (b + 1000000 * lease_duration_seconds < at)

  pub record IsSafe (w : World api name) : Type 0 where
    pub pending_IsOwn :
        (i : ℕ) (b : LeaseWrite) (o : LeaseOutcome)
        → (w.instances i).pending ≡ some (b, o)
        → IsOwn i (w.instances i).clock b × (confirms o.status ≡ true)
    pub confirmed_le : (k at : ℕ) → (w.instances k).confirmed ≡ some at → at ≤ (w.instances k).clock
    pub confirmed_IsRespected :
        (k at : ℕ)
        → (w.instances k).confirmed ≡ some at
        → IsRespected w.store (clocks w.instances) k at
    pub confirmed_IsApart :
        (k at : ℕ) → (w.instances k).confirmed ≡ some at → IsApart w.instances k at

  -- The hold of another instance is over when its Lease is replaced.
  pub replaced-apart :
      (s t : api.Store) (clock : ℕ → ℕ) (i : ℕ) (w : LeaseWrite) (k at : ℕ)
      → IsOwn i (clock i) w
      → api.Accepts s w t
      → IsRespected s clock k at
      → (k ≢ i)
      → at + 1000000 * lease_duration_seconds < clock i
  replaced-apart s t clock i (LeaseWrite.create b) k at own ok was other =
      absurd (stored_twice (sym (api.create_absent s t b ok) ∙ was.kept))
    where
      stored_twice : none ≡ some was.lease → ⊥
      stored_twice q = cc
  replaced-apart s t clock i (LeaseWrite.replace b) k at own ok was other =
      let (l, v, here, l_version, b_version) = api.replace_current s t b ok in
      let (s₀, l₀, there, b_read, may) = own.stands_on b refl in
      let l₀_version = lease_resource_version-some l₀ v (sym b_read ∙ b_version) in
      let read = api.one_content s₀ s l₀ was.lease v there was.kept l₀_version (
        subst (λ z. z.resource_version ≡ some v) (some-injective _ _ (sym here ∙ was.kept))
          l_version) in
      over (
        unfold MayReplace in
        subst (MayReplace (name i) (clock i)) read may (name was.owner) was.since was.owned
          was.renewal was.duration)
    where
      over :
          (name was.owner ≡ name i) ⊎ (was.since + 1000000 * lease_duration_seconds < clock i)
          → at + 1000000 * lease_duration_seconds < clock i
      over (inl same) = elim was.apart [
        | inl (mine, le) ↦ absurd (other (sym mine ∙ own_names was.owner i same))
        | inr late ↦ ground (arith, was.past_since, ap clock (own_names was.owner i same))
      ]
      over (inr late) = elim was.apart [ inl (mine, le) ↦ omega arith | inr later ↦ omega arith ]

  -- After a write that is accepted, what an instance was told is still respected.
  pub accepted-IsRespected :
      (s t : api.Store) (clock : ℕ → ℕ) (i : ℕ) (w : LeaseWrite) (k at : ℕ)
      → IsOwn i (clock i) w
      → api.Accepts s w t
      → ((k ≡ i) × (at ≤ clock i)) ⊎ (at + 1000000 * lease_duration_seconds < clock i)
      → IsRespected t clock k at
  accepted-IsRespected s t clock i w k at own ok apart =
      let (m, kept, same) = api.written s t w ok in
      record {
        lease = m;
        kept = kept;
        owner = i;
        owned = ap (λ z. z.holder_identity) same ∙ own.claims;
        duration = ap (λ z. z.lease_duration_seconds) same ∙ own.duration;
        since = clock i;
        renewal = ap (λ z. z.renew_time) same ∙ own.renewal;
        past_since = omega arith;
        apart = elim apart [ inl (mine, le) ↦ inl (sym mine, le) | inr late ↦ inr late ];
      }

  pub accepted-apart :
      (s t : api.Store) (clock : ℕ → ℕ) (i : ℕ) (w : LeaseWrite) (k at : ℕ)
      → IsOwn i (clock i) w
      → api.Accepts s w t
      → IsRespected s clock k at
      → at ≤ clock k
      → ((k ≡ i) × (at ≤ clock i)) ⊎ (at + 1000000 * lease_duration_seconds < clock i)
  accepted-apart s t clock i w k at own ok was le = elim (Bool-cases (k == i)) [
    | inl e ↦ let same = (nat_eq.beq_iff k i).0 e in inl (same, subst (λ z. at ≤ clock z) same le)
    | inr e ↦ inr (
        replaced-apart s t clock i w k at own ok was
          (λ same. false≢true (sym e ∙ (nat_eq.beq_iff k i).1 same)))
  ]

  pub update-clock :
      (f : ℕ → Instance) (i : ℕ) (p : Instance) (k : ℕ)
      → (f i).clock ≤ p.clock
      → (f k).clock ≤ (update f i p k).clock
  update-clock f i p k h = elim (Bool-cases (i == k)) [
    | inl e ↦ rw e (ground (arith, ap (λ z. (f z).clock) ((nat_eq.beq_iff i k).0 e)))
    | inr e ↦ rw e (omega arith)
  ]

  pub later-IsRespected :
      (s : api.Store) (f : ℕ → Instance) (i : ℕ) (p : Instance) (k at : ℕ)
      → (f i).clock ≤ p.clock
      → IsRespected s (clocks f) k at
      → IsRespected s (clocks (update f i p)) k at
  unfolding clocks
  later-IsRespected s f i p k at h was = record {
    lease = was.lease;
    kept = was.kept;
    owner = was.owner;
    owned = was.owned;
    duration = was.duration;
    since = was.since;
    renewal = was.renewal;
    past_since = omega (arith, was.past_since, update-clock f i p was.owner h);
    apart = was.apart;
  }

  -- A step of one instance, by what it does to the stored Lease and to that instance.
  pub moved-IsSafe :
      (w : World api name) (t : api.Store) (i : ℕ) (p : Instance)
      → IsSafe w
      → (w.instances i).clock ≤ p.clock
      → ((b : LeaseWrite) (o : LeaseOutcome)
          → p.pending ≡ some (b, o)
          → IsOwn i p.clock b × (confirms o.status ≡ true))
      → ((at : ℕ)
          → p.confirmed ≡ some at
          → (at ≤ p.clock) × IsRespected t (clocks w.instances) i at × IsApart w.instances i at)
      → ((k at : ℕ) → (w.instances k).confirmed ≡ some at → IsRespected t (clocks w.instances) k at)
      → IsSafe (record { store = t; instances = update w.instances i p })
  unfolding IsApart
  moved-IsSafe w t i p safe grows waits told keeps = record {
    pending_IsOwn = λ k b o h. pending_at k b o h;
    confirmed_le = λ k at h. le_at k at h;
    confirmed_IsRespected =
        λ k at h. later-IsRespected t w.instances i p k at grows (respected_at k at h);
    confirmed_IsApart = λ k at h. apart_at k at h;
  }
    where
      pending_at :
          (k : ℕ) (b : LeaseWrite) (o : LeaseOutcome)
          → (update w.instances i p k).pending ≡ some (b, o)
          → IsOwn k (update w.instances i p k).clock b × (confirms o.status ≡ true)
      pending_at k b o h = elim (Bool-cases (i == k)) [
        | inl e ↦ rw e (
            subst (λ z. IsOwn z p.clock b × (confirms o.status ≡ true)) ((nat_eq.beq_iff i k).0 e)
              (waits b o (rw e at h)))
        | inr e ↦ rw e (safe.pending_IsOwn k b o (rw e at h))
      ]

      le_at :
          (k at : ℕ)
          → (update w.instances i p k).confirmed ≡ some at
          → at ≤ (update w.instances i p k).clock
      le_at k at h = elim (Bool-cases (i == k)) [
        | inl e ↦ rw e ((told at (rw e at h)).0)
        | inr e ↦ rw e (safe.confirmed_le k at (rw e at h))
      ]

      respected_at :
          (k at : ℕ)
          → (update w.instances i p k).confirmed ≡ some at
          → IsRespected t (clocks w.instances) k at
      respected_at k at h = elim (Bool-cases (i == k)) [
        | inl e ↦
            subst (λ z. IsRespected t (clocks w.instances) z at) ((nat_eq.beq_iff i k).0 e)
              ((told at (rw e at h)).1)
        | inr e ↦ keeps k at (rw e at h)
      ]

      told_apart :
          (at : ℕ)
          → p.confirmed ≡ some at
          → (j b : ℕ) → i ≢ j
          → (update w.instances i p j).confirmed ≡ some b
          → (at + 1000000 * lease_duration_seconds < b)
            ⊎ (b + 1000000 * lease_duration_seconds < at)
      told_apart at h j b other q = elim (Bool-cases (i == j)) [
        | inl e ↦ absurd (other ((nat_eq.beq_iff i j).0 e))
        | inr e ↦ (told at h).2 j b other (rw e at q)
      ]

      flip : {x y : Type 0} → x ⊎ y → y ⊎ x
      flip (inl a) = inr a
      flip (inr a) = inl a

      apart_at :
          (k at : ℕ)
          → (update w.instances i p k).confirmed ≡ some at
          → IsApart (update w.instances i p) k at
      apart_at k at h j b other q = elim (Bool-cases (i == k)) [
        | inl e ↦
            let same = (nat_eq.beq_iff i k).0 e in
            told_apart at (rw e at h) j b (λ f. other (sym same ∙ f)) q
        | inr e ↦ elim (Bool-cases (i == j)) [
          | inl f ↦
              let same = (nat_eq.beq_iff i j).0 f in
              flip ((told b (rw f at q)).2 k at (λ g. other (sym g ∙ same)) (rw e at h))
          | inr f ↦ safe.confirmed_IsApart k at (rw e at h) j b other (rw f at q)
        ]
      ]
