-- ===== src/Scheduler/Tick/Loop.antt =====
-- A proof rule for the second loop of `tick`.
use xlurm.Base.{
  ℕ, zero, suc, ◌<◌, ◌≡◌, refl, ap, ◌∙◌, ◌≢◌, inl, inr, true, false, none, some, List, [], ◌∷◌,
  ◌++◌, map, arith, leb, Bool-cases, Option-cases, nat_eq, option_eq, Text, text_eq, get_elem?, set,
  All, Pairwise, Result-cases, ok, err, int_eq,
}
use xlurm.Model.{kind_eq, key, state_eq, Device, Outcome, Job, pending, failed, Error}
use xlurm.Scheduler.Machine.{save, Host, Scheduler}
use xlurm.Scheduler.Allocate.{allocate}
use xlurm.Scheduler.Tick.{
  finish, started, replace_job, collect, launch, start_jobs, start_pending, tick,
}
use xlurm.Scheduler.Tick.Cases.{save-eq, launch-Launched, Launched, runs, fails}
use xlurm.Scheduler.Tick.Order.{IsPendingAt}

get_elem?-set_ne {ℓ} :
    {A : Type ℓ} (xs : List A) (i j : ℕ) (v : A) → i ≢ j → get_elem? (set xs i v) j ≡ get_elem? xs j
get_elem?-set_ne [] i j v h = refl
get_elem?-set_ne (x ∷ xs) zero zero v h = absurd (h refl)
get_elem?-set_ne (x ∷ xs) zero (suc j) v h = refl
get_elem?-set_ne (x ∷ xs) (suc i) zero v h = refl
get_elem?-set_ne (x ∷ xs) (suc i) (suc j) v h = get_elem?-set_ne xs i j v (λ e. h (ap suc e))

-- A change of one job leaves the other positions pending.
pub pending-set :
    (jobs : List Job) (i : ℕ) (k : Job) (is : List ℕ)
    → All (λ a. i ≢ a) is
    → All (IsPendingAt jobs) is
    → All (IsPendingAt (set jobs i k)) is
pending-set jobs i k [] h p = tt
pending-set jobs i k (a ∷ is) h ((j, at, wait), p) =
    ((j, get_elem?-set_ne jobs i a k h.0 ∙ at, wait), pending-set jobs i k is h.1 p)

module _ {W : Type 0} (host : Host W) (describe : Error → Text) where
  module _ (i : ℕ) (is : List ℕ) (reserved : List Text) (n : ℕ) (s : Scheduler W) where
    pub start_jobs-full :
        leb s.max_running n ≡ true → start_jobs host describe (i ∷ is) reserved n s ≡ (ok tt, s)
    unfolding start_jobs
    start_jobs-full h = rw (h, start_jobs) refl

    module _ (j : Job) (room : leb s.max_running n ≡ false)
        (at : get_elem? s.store.jobs i ≡ some j) where
      pub start_jobs-skip :
          allocate j.spec s.inventory.devices reserved ≡ none
          → start_jobs host describe (i ∷ is) reserved n s
            ≡ start_jobs host describe is reserved n s
      unfolding start_jobs
      start_jobs-skip e = ground arith

      module _ (devices : List Device)
          (e : allocate j.spec s.inventory.devices reserved ≡ some devices) where
        pub start_jobs-error :
            (x : Error)
            → (launch host describe i j devices s).0 ≡ err x
            → start_jobs host describe (i ∷ is) reserved n s
              ≡ (err x, (launch host describe i j devices s).1)
        unfolding start_jobs
        start_jobs-error x h = ground arith

        pub start_jobs-started :
            (launch host describe i j devices s).0 ≡ ok true
            → start_jobs host describe (i ∷ is) reserved n s
              ≡ start_jobs host describe is
                  (map key devices ++ reserved)
                  (suc n)
                  (launch host describe i j devices s).1
        unfolding start_jobs
        start_jobs-started h = ground arith

        pub start_jobs-failed :
            (launch host describe i j devices s).0 ≡ ok false
            → start_jobs host describe (i ∷ is) reserved n s
              ≡ start_jobs host describe is reserved n (launch host describe i j devices s).1
        unfolding start_jobs
        start_jobs-failed h = ground arith

  -- What to show of an invariant `P`, over the reserved keys and the number of running jobs.
  pub record Rule (P : List Text → ℕ → Scheduler W → Type 0) : Type 0 where
    pub ran :
        (i : ℕ) (j : Job) (devices : List Device) (reserved : List Text) (n : ℕ) (s : Scheduler W)
        → P reserved n s
        → n < s.max_running
        → get_elem? s.store.jobs i ≡ some j
        → j.state ≡ pending
        → allocate j.spec s.inventory.devices reserved ≡ some devices
        → (time : ℕ) (w : W)
        → P
            (map key devices ++ reserved)
            (suc n)
            (record (replace_job i (started devices time j) s) { world = w })
    pub failed_start :
        (i : ℕ) (j : Job) (devices : List Device) (reserved : List Text) (n : ℕ) (s : Scheduler W)
        → P reserved n s
        → get_elem? s.store.jobs i ≡ some j
        → j.state ≡ pending
        → allocate j.spec s.inventory.devices reserved ≡ some devices
        → (time : ℕ) (o : Outcome) (w : W) → o.state ≡ failed
        → P reserved n (record (replace_job i (finish o (started devices time j)) s) { world = w })

  abbrev Ends : (List Text → ℕ → Scheduler W → Type 0) → Scheduler W → Type 0
  Ends P s = (reserved : List Text) × (n : ℕ) × P reserved n s

  module _ (P : List Text → ℕ → Scheduler W → Type 0) (rule : Rule P) where
    one_job_ind :
        (i : ℕ) (is : List ℕ) (reserved : List Text) (n : ℕ) (s : Scheduler W) (j : Job)
        → leb s.max_running n ≡ false
        → get_elem? s.store.jobs i ≡ some j
        → j.state ≡ pending
        → All (IsPendingAt s.store.jobs) is
        → Pairwise (λ a b. a ≢ b) (i ∷ is)
        → P reserved n s
        → (devices : List Device) → allocate j.spec s.inventory.devices reserved ≡ some devices
        → Launched i j devices s
            (launch host describe i j devices s).0
            (launch host describe i j devices s).1
        → ((reserved' : List Text) (n' : ℕ)
            → All (IsPendingAt (launch host describe i j devices s).1.store.jobs) is
            → Pairwise (λ a b. a ≢ b) is
            → P reserved' n' (launch host describe i j devices s).1
            → Ends P
                (start_jobs host describe is reserved' n' (launch host describe i j devices s).1).1)
        → Ends P (start_jobs host describe (i ∷ is) reserved n s).1
    one_job_ind i is reserved n s j room at pend wait apart p devices e (runs time w not_false same)
          rest =
        let next : P (map key devices ++ reserved) (suc n) (launch host describe i j devices s).1 =
          rw same (rule.ran i j devices reserved n s p (ground arith) at pend e time w) in
        elim (Result-cases (launch host describe i j devices s).0) [
          | inr (x, h) ↦
              rw (start_jobs-error i is reserved n s j room at devices e x h)
                (map key devices ++ reserved, suc n, next)
          | inl (false, h) ↦ absurd (not_false h)
          | inl (true, h) ↦ rw (start_jobs-started i is reserved n s j room at devices e h) (
              rest (map key devices ++ reserved) (suc n)
                (rw same (pending-set s.store.jobs i (started devices time j) is apart.0 wait))
                apart.1 next)
        ]
    one_job_ind i is reserved n s j room at pend wait apart p devices e
          (fails time o w is_failed not_true same) rest =
        let next : P reserved n (launch host describe i j devices s).1 =
          rw same (rule.failed_start i j devices reserved n s p at pend e time o w is_failed) in
        elim (Result-cases (launch host describe i j devices s).0) [
          | inr (x, h) ↦
              rw (start_jobs-error i is reserved n s j room at devices e x h) (reserved, n, next)
          | inl (true, h) ↦ absurd (not_true h)
          | inl (false, h) ↦ rw (start_jobs-failed i is reserved n s j room at devices e h) (
              rest reserved n
                (rw same
                  (pending-set s.store.jobs i (finish o (started devices time j)) is apart.0 wait))
                apart.1 next)
        ]

    pub start_jobs_ind :
        (is : List ℕ) (reserved : List Text) (n : ℕ) (s : Scheduler W)
        → All (IsPendingAt s.store.jobs) is
        → Pairwise (λ a b. a ≢ b) is
        → P reserved n s
        → Ends P (start_jobs host describe is reserved n s).1
    start_jobs_ind [] reserved n s wait apart p = unfold start_jobs in (reserved, n, p)
    start_jobs_ind (i ∷ is) reserved n s ((j, at, pend), wait) apart p =
        elim (Bool-cases (leb s.max_running n)) [
          | inl full ↦ rw (start_jobs-full i is reserved n s full) (reserved, n, p)
          | inr room ↦ elim (Option-cases (allocate j.spec s.inventory.devices reserved)) [
            | inl e ↦
                rw (start_jobs-skip i is reserved n s j room at e)
                  (start_jobs_ind is reserved n s wait apart.1 p)
            | inr (devices, e) ↦
                one_job_ind i is reserved n s j room at pend wait apart p devices e
                  (launch-Launched host describe i j devices s)
                  (λ reserved' n'.
                    start_jobs_ind is reserved' n' (launch host describe i j devices s).1)
          ]
        ]

  module _ (s : Scheduler W) where
    abbrev gathered : Scheduler W
    gathered = (collect host s).1

    pub tick-stops :
        (e : Error) → (collect host s).0 ≡ err e → tick host describe s ≡ (err e, gathered)
    unfolding tick
    tick-stops e h = ground arith

    pub tick-unchanged :
        (collect host s).0 ≡ ok false → tick host describe s ≡ start_pending host describe gathered
    unfolding tick
    tick-unchanged h = ground arith

    module _ (changed : (collect host s).0 ≡ ok true) where
      pub tick-unsaved :
          (e : Error)
          → (save host gathered).0 ≡ err e
          → tick host describe s ≡ (err e, (save host gathered).1)
      unfolding tick
      tick-unsaved e g = ground arith

      pub tick-saved :
          (save host gathered).0 ≡ ok tt
          → tick host describe s ≡ start_pending host describe (save host gathered).1
      unfolding tick
      tick-saved g = ground arith

  -- `tick` collects, may save, and starts jobs, unless an error stops it.
  pub tick_ind {ℓ} :
      (P : Scheduler W → Type ℓ) (s : Scheduler W)
      → ((t : Scheduler W) (w : W) → P t → P (record t { world = w }))
      → P (collect host s).1
      → ((t : Scheduler W) → P t → P (start_pending host describe t).1)
      → P (tick host describe s).1
  tick_ind P s moved collected_P started_P = elim (Result-cases (collect host s).0) [
    | inr (e, h) ↦ rw (tick-stops s e h) collected_P
    | inl (false, h) ↦ rw (tick-unchanged s h) (started_P (collect host s).1 collected_P)
    | inl (true, h) ↦
        let saved : P (save host (collect host s).1).1 =
          rw (save-eq host (collect host s).1) (moved (collect host s).1 _ collected_P) in
        elim (Result-cases (save host (collect host s).1).0) [
          | inr (e, g) ↦ rw (tick-unsaved s h e g) saved
          | inl (_, g) ↦ rw (tick-saved s h g) (started_P (save host (collect host s).1).1 saved)
        ]
  ]
