-- ===== src/Lease/Exclusion.antt =====
-- Two instances of the controller never hold the Lease of app/k8s_client.py over one instant.
pub mod Safe
use gpu_reservation_controll.Base.{
  Bool-cases, Option, String, ap, arith, false≢true, inl, inr, nat_eq, none, option_eq, refl, some,
  some-injective, string_eq, subst, sym, true, ℕ, ◌*◌, ◌+◌, ◌<◌, ◌∙◌, ◌≡◌, ◌≢◌, ◌≤◌, ◌⊎◌,
}
use gpu_reservation_controll.Lease.{
  Decision, LeaseObject, LeaseOutcome, LeaseWrite, ReadReply, lease_error,
}
use gpu_reservation_controll.Lease.Guard.{lease_duration_seconds}
use gpu_reservation_controll.Lease.System.{
  ApiServer, Instance, Reach, Reads, Step, World, after_read, confirms, settle, update,
}
use gpu_reservation_controll.Lease.Outcomes.{IsClaim, IsProper, call_of-IsProper}
use gpu_reservation_controll.Lease.Exclusion.Safe.{
  IsApart, IsOwn, IsRespected, IsSafe, accepted-IsRespected, accepted-apart, clocks, moved-IsSafe,
  replaced-apart,
}

module _ (api : ApiServer) (name : ℕ → String)
    (own_names : (i j : ℕ) → name i ≡ name j → i ≡ j) where
  Reads-found :
      (s : api.Store) (reply : ReadReply) (l : LeaseObject)
      → Reads api name s reply
      → reply ≡ ReadReply.found l
      → api.stored s ≡ some l
  Reads-found s reply l (Reads.present here) e = here ∙ ap lease_in e
    where
      lease_in : ReadReply → Option LeaseObject
      lease_in (ReadReply.found m) = some m
      lease_in (ReadReply.not_found x) = none
      lease_in (ReadReply.failed x) = none
  Reads-found s reply l (Reads.absent x gone) e = cc
  Reads-found s reply l (Reads.broken x) e = cc

  IsClaim-IsOwn :
      (s : api.Store) (i now : ℕ) (reply : ReadReply) (b : LeaseWrite)
      → Reads api name s reply
      → IsClaim (name i) now reply b
      → IsOwn api name own_names i now b
  IsClaim-IsOwn s i now reply b reads claim = record {
    claims = claim.claims;
    duration = claim.duration;
    renewal = claim.renewal;
    stands_on = λ c e.
        let (l, read, version, may) = claim.stands_on c e in
        (s, l, Reads-found s reply l reads read, version, may);
  }

  settle-confirmed :
      (p : Instance) (o : LeaseOutcome) (at : ℕ)
      → (settle p o).confirmed ≡ some at
      → ((confirms o.status ≡ true) × (p.clock ≡ at)) ⊎ (p.confirmed ≡ some at)
  unfolding settle
  settle-confirmed p o at h = elim (Bool-cases (confirms o.status)) [
    | inl e ↦ inl (e, some-injective _ _ (rw e at h))
    | inr e ↦ inr (rw e at h)
  ]

  begun-IsSafe :
      (w : World api name) (i now : ℕ) (reply : ReadReply) (d : Decision)
      → IsSafe api name own_names w
      → (w.instances i).clock ≤ now
      → Reads api name w.store reply
      → IsProper (name i) now reply d
      → IsSafe api name own_names (record {
        store = w.store;
        instances = update w.instances i (after_read (w.instances i) now d);
      })
  unfolding after_read IsProper settle
  begun-IsSafe w i now reply (Decision.answer o) safe le reads proper =
      moved-IsSafe api name own_names w w.store i _ safe le (λ b r h. cc)
        (λ at h. told at (rw proper at h)) (λ k at h. safe.confirmed_IsRespected k at h)
    where
      told :
          (at : ℕ)
          → (w.instances i).confirmed ≡ some at
          → (at ≤ now)
            × IsRespected api name own_names w.store (clocks api name own_names w.instances) i at
            × IsApart api name own_names w.instances i at
      told at h = (
        let l = safe.confirmed_le i at h in omega arith,
        safe.confirmed_IsRespected i at h,
        safe.confirmed_IsApart i at h,
      )
  begun-IsSafe w i now reply (Decision.write b o) safe le reads proper =
      moved-IsSafe api name own_names w w.store i _ safe le
        (λ c r h.
          subst (λ z. IsOwn api name own_names i now z.0 × (confirms z.1.status ≡ true))
            (some-injective _ _ h) (IsClaim-IsOwn w.store i now reply b reads proper.0, proper.1))
        (λ at h. (
          let l = safe.confirmed_le i at h in omega arith,
          safe.confirmed_IsRespected i at h,
          safe.confirmed_IsApart i at h,
        ))
        (λ k at h. safe.confirmed_IsRespected k at h)

  settled-IsSafe :
      (w : World api name) (t : api.Store) (i : ℕ) (o : LeaseOutcome)
      → IsSafe api name own_names w
      → (confirms o.status ≡ true
          → IsRespected api name own_names t
              (clocks api name own_names w.instances)
              i
              (w.instances i).clock
            × IsApart api name own_names w.instances i (w.instances i).clock)
      → ((k at : ℕ)
          → (w.instances k).confirmed ≡ some at
          → IsRespected api name own_names t (clocks api name own_names w.instances) k at)
      → IsSafe api name own_names
          (record { store = t; instances = update w.instances i (settle (w.instances i) o) })
  unfolding settle
  settled-IsSafe w t i o safe new keeps =
      moved-IsSafe api name own_names w t i (settle (w.instances i) o) safe (omega arith)
        (λ b r h. cc) (λ at h. told at h) keeps
    where
      told :
          (at : ℕ)
          → (settle (w.instances i) o).confirmed ≡ some at
          → (at ≤ (w.instances i).clock)
            × IsRespected api name own_names t (clocks api name own_names w.instances) i at
            × IsApart api name own_names w.instances i at
      told at h = elim (settle-confirmed (w.instances i) o at h) [
        | inl (sure, e) ↦ (
          omega arith,
          subst (IsRespected api name own_names t (clocks api name own_names w.instances) i) e
              ((new sure).0),
          subst (IsApart api name own_names w.instances i) e ((new sure).1),
        )
        | inr e ↦ (safe.confirmed_le i at e, keeps i at e, safe.confirmed_IsApart i at e)
      ]

  -- An accepted write, whatever its instance is told.
  written-IsSafe :
      (w : World api name) (t : api.Store) (i : ℕ) (b : LeaseWrite) (o told : LeaseOutcome)
      → IsSafe api name own_names w
      → (w.instances i).pending ≡ some (b, o)
      → api.Accepts w.store b t
      → IsSafe api name own_names
          (record { store = t; instances = update w.instances i (settle (w.instances i) told) })
  unfolding clocks
  written-IsSafe w t i b o told safe waits ok =
      let own = (safe.pending_IsOwn i b o waits).0 in
      settled-IsSafe w t i told safe
        (λ sure. (
          accepted-IsRespected api name own_names w.store t (clocks api name own_names w.instances)
              i b i _ own ok (inl (refl, omega arith)),
          unfold IsApart in
              (λ j c other q. inr (
                replaced-apart api name own_names w.store t (clocks api name own_names w.instances)
                  i b j c own ok (safe.confirmed_IsRespected j c q) (λ same. other (sym same)))),
        ))
        (λ k at h.
          accepted-IsRespected api name own_names w.store t (clocks api name own_names w.instances)
            i b k at own ok
            (accepted-apart api name own_names w.store t (clocks api name own_names w.instances) i b
              k at own ok (safe.confirmed_IsRespected k at h) (safe.confirmed_le k at h)))

  Step-IsSafe :
      (w u : World api name)
      → IsSafe api name own_names w
      → Step api name w u
      → IsSafe api name own_names u
  Step-IsSafe w u safe (Step.begin i now reply runs idle le reads) =
      begun-IsSafe w i now reply _ safe le reads (call_of-IsProper _ (name i) now reply)
  Step-IsSafe w u safe (Step.accepted i b o t waits ok) = written-IsSafe w t i b o o safe waits ok
  Step-IsSafe w u safe (Step.reply_lost i b o t e waits ok) =
      written-IsSafe w t i b o (lease_error e) safe waits ok
  Step-IsSafe w u safe (Step.refused i b o e waits) =
      settled-IsSafe w w.store i (lease_error e) safe (λ no. absurd (false≢true no))
        (λ k at h. safe.confirmed_IsRespected k at h)

  Reach-IsSafe : (w : World api name) → Reach api name w → IsSafe api name own_names w
  Reach-IsSafe w (Reach.start s clock) = record {
    pending_IsOwn = λ i b o h. cc;
    confirmed_le = λ k at h. cc;
    confirmed_IsRespected = λ k at h. cc;
    confirmed_IsApart = λ k at h. cc;
  }
  Reach-IsSafe u (Reach.later {w} before step) = Step-IsSafe w u (Reach-IsSafe w before) step

  -- Whatever the order of the calls of any number of instances with different names, and whatever
  -- Lease was stored at first: two instances that were each told at some instant that they hold
  -- the Lease were told so more than its duration apart.
  -- An instant is what the clock of the instance read when it began the call that told it so.
  pub Reach-exclusive :
      (w : World api name)
      → Reach api name w
      → (i j a b : ℕ) → i ≢ j
      → (w.instances i).confirmed ≡ some a
      → (w.instances j).confirmed ≡ some b
      → (a + 1000000 * lease_duration_seconds < b) ⊎ (b + 1000000 * lease_duration_seconds < a)
  unfolding IsApart
  Reach-exclusive w reach i j a b other p q =
      (Reach-IsSafe w reach).confirmed_IsApart i a p j b other q
