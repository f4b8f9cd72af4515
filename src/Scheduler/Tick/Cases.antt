-- ===== src/Scheduler/Tick/Cases.antt =====
-- What the two loops of `tick` can do to the queue, one round at a time.
use xlurm.Base.{
  ℕ, zero, suc, ◌≡◌, refl, ap, ◌∙◌, ◌≢◌, inl, inr, Bool, true, false, none, some, List, [], ◌∷◌,
  arith, Bool-cases, nat_eq, option_eq, Text, text_eq, get_elem?, set, set-set, Result-cases, ◌>>◌,
  pure, Result, ok, err, int_eq,
}
use xlurm.Model.{kind_eq, state_beq_iff, state_eq, Device, Outcome, Job, running, failed, Error}
use xlurm.Scheduler.Machine.{outside, save, Host, Scheduler}
use xlurm.Scheduler.Tick.{
  failure, finish, is_running, started, or_changed, replace_job, poll_job, poll_jobs, launch,
}

-- A relation that holds place by place.
abbrev pub Each {ℓ} : {A : Type ℓ} → (A → A → Type 0) → List A → List A → Type 0
Each R [] [] = Unit
Each R (x ∷ xs) (y ∷ ys) = R x y × Each R xs ys
Each R _ _ = ⊥

pub Each-refl {ℓ} :
    {A : Type ℓ} (R : A → A → Type 0) → ((a : A) → R a a) → (xs : List A) → Each R xs xs
Each-refl R h [] = tt
Each-refl R h (x ∷ xs) = (h x, Each-refl R h xs)

pub Each-trans {ℓ} :
    {A : Type ℓ} (R : A → A → Type 0)
    → ((a b c : A) → R a b → R b c → R a c)
    → (xs ys zs : List A) → Each R xs ys
    → Each R ys zs
    → Each R xs zs
Each-trans R h [] [] [] p q = tt
Each-trans R h [] [] (z ∷ zs) p q = absurd q
Each-trans R h [] (y ∷ ys) zs p q = absurd p
Each-trans R h (x ∷ xs) [] zs p q = absurd p
Each-trans R h (x ∷ xs) (y ∷ ys) [] p q = absurd q
Each-trans R h (x ∷ xs) (y ∷ ys) (z ∷ zs) p q = (h x y z p.0 q.0, Each-trans R h xs ys zs p.1 q.1)

pub Each-set {ℓ} :
    {A : Type ℓ} (R : A → A → Type 0)
    → ((a : A) → R a a)
    → (xs : List A) (i : ℕ) (a b : A) → get_elem? xs i ≡ some a
    → R a b
    → Each R xs (set xs i b)
Each-set R h [] i a b e r = tt
Each-set R h (x ∷ xs) zero a b e r = let same : x ≡ a = cc in (rw same r, Each-refl R h xs)
Each-set R h (x ∷ xs) (suc i) a b e r = (h x, Each-set R h xs i a b e r)

-- A running job may have been given its result.
pub data Polled (j k : Job) : Type 0 where
  untouched : k ≡ j → Polled j k
  collected : (o : Outcome) → j.state ≡ running → k ≡ finish o j → Polled j k

module _ {W : Type 0} where
  -- A job that is launched runs on its devices, or has failed.
  pub data Launched (i : ℕ) (j : Job) (devices : List Device) (s : Scheduler W)
      (r : Result Error Bool) (s' : Scheduler W) : Type 0 where
    runs :
        (time : ℕ) (w : W)
        → r ≢ ok false
        → s' ≡ record (replace_job i (started devices time j) s) { world = w }
        → Launched i j devices s r s'
    fails :
        (time : ℕ) (o : Outcome) (w : W)
        → o.state ≡ failed
        → r ≢ ok true
        → s' ≡ record (replace_job i (finish o (started devices time j)) s) { world = w }
        → Launched i j devices s r s'

module _ {W : Type 0} (host : Host W) where
  poll_job-Polled :
      (j : Job) (w : W) (k : Job) (c : Bool) → (poll_job host j w).0 ≡ ok (k, c) → Polled j k
  unfolding poll_job
  poll_job-Polled j w k c e = elim (Bool-cases (is_running j)) [
    | inr n ↦ untouched (ground arith)
    | inl y ↦ elim (Result-cases (host.executor.poll j.id w).0) [
      | inr (x, p) ↦ absurd (ground arith)
      | inl (none, p) ↦ untouched (ground arith)
      | inl (some o, p) ↦ collected o (ground (arith, state_beq_iff j.state running)) (ground arith)
    ]
  ]

  poll_jobs-stops :
      (j : Job) (jobs : List Job) (w : W) (e : Error)
      → (poll_job host j w).0 ≡ err e
      → poll_jobs host (j ∷ jobs) w ≡ (err e, j ∷ jobs, (poll_job host j w).1)
  unfolding poll_jobs
  poll_jobs-stops j jobs w e h = rw (h, poll_jobs) refl

  poll_jobs-goes_on :
      (j : Job) (jobs : List Job) (w : W) (k : Job) (c : Bool)
      → (poll_job host j w).0 ≡ ok (k, c)
      → let rest = poll_jobs host jobs (poll_job host j w).1 in
        poll_jobs host (j ∷ jobs) w ≡ (or_changed c rest.0, k ∷ rest.1, rest.2)
  unfolding poll_jobs
  poll_jobs-goes_on j jobs w k c h = rw (h, poll_jobs) refl

  pub poll_jobs-Polled : (jobs : List Job) (w : W) → Each Polled jobs (poll_jobs host jobs w).1
  poll_jobs-Polled [] w = unfold poll_jobs in tt
  poll_jobs-Polled (j ∷ jobs) w = elim (Result-cases (poll_job host j w).0) [
    | inl ((k, c), e) ↦
        rw (poll_jobs-goes_on j jobs w k c e)
          (poll_job-Polled j w k c e, poll_jobs-Polled jobs (poll_job host j w).1)
    | inr (x, e) ↦
        rw (poll_jobs-stops j jobs w x e)
          (untouched refl, Each-refl Polled (λ _. untouched refl) jobs)
  ]

  -- Saving changes nothing but the outside world.
  pub save-eq : (s : Scheduler W) → (save host s).1 ≡ record s { world = (save host s).1.world }
  unfolding save
  save-eq s = refl

  -- The state in which `launch` saves its intent.
  abbrev marked : ℕ → Job → List Device → Scheduler W → Scheduler W
  marked i j devices s =
      let (time, w) = host.now s.world in
      record (replace_job i (started devices time j) s) { world = w }

  module _ (describe : Error → Text) (i : ℕ) (j : Job) (devices : List Device)
      (s : Scheduler W) where
    abbrev time_of_start : ℕ
    time_of_start = (host.now s.world).0

    abbrev intended : Scheduler W
    intended = (save host (marked i j devices s)).1

    abbrev attempt : Result Error (Unit {0}) × Scheduler W
    attempt = outside (host.executor.start (started devices time_of_start j)) intended

    abbrev given_up : Error → Scheduler W
    given_up e =
        let (later, w) = host.now attempt.1.world in
        record (replace_job i
          (finish (failure (describe e) later) (started devices time_of_start j)) attempt.1) {
            world = w;
          }

    launch-save_fails :
        (e : Error)
        → (save host (marked i j devices s)).0 ≡ err e
        → launch host describe i j devices s ≡ (err e, intended)
    unfolding launch
    launch-save_fails e h = rw (h, launch) refl

    launch-starts :
        (save host (marked i j devices s)).0 ≡ ok tt
        → attempt.0 ≡ ok tt
        → launch host describe i j devices s ≡ (ok true, attempt.1)
    unfolding launch
    launch-starts h g = ground arith

    launch-gives_up :
        (e : Error)
        → (save host (marked i j devices s)).0 ≡ ok tt
        → attempt.0 ≡ err e
        → launch host describe i j devices s ≡ (do save host; pure false) (given_up e)
    unfolding launch
    launch-gives_up e h g = ground arith

    intended-eq : intended ≡ record (marked i j devices s) { world = intended.world }
    intended-eq = save-eq (marked i j devices s)

    given_up-eq :
        (e : Error)
        → let k =
            finish
              (failure (describe e) (host.now attempt.1.world).0)
              (started devices time_of_start j) in
          (save host (given_up e)).1
          ≡ record (replace_job i k s) { world = (save host (given_up e)).1.world }
    given_up-eq e = ground (
      arith,
      intended-eq,
      save-eq (given_up e),
      set-set s.store.jobs i (started devices time_of_start j) (
          finish (failure (describe e) (host.now attempt.1.world).0)
            (started devices time_of_start j)),
    )

    give_up-result :
        (e : Error)
        → (((do save host; pure false) (given_up e)).0 ≢ ok true)
          × (((do save host; pure false) (given_up e)).1 ≡ (save host (given_up e)).1)
    give_up-result e = ground arith

    pub launch-Launched :
        Launched i j devices s
          (launch host describe i j devices s).0
          (launch host describe i j devices s).1
    launch-Launched = elim (Result-cases (save host (marked i j devices s)).0) [
      | inr (e, h) ↦
          rw (launch-save_fails e h) (runs time_of_start intended.world (λ p. cc) intended-eq)
      | inl (_, h) ↦ elim (Result-cases attempt.0) [
        | inl (_, g) ↦ rw (launch-starts h g) (
            runs time_of_start attempt.1.world (λ p. cc)
              (ap {A = Scheduler W} (λ x. record x { world = attempt.1.world }) intended-eq))
        | inr (e, g) ↦ rw (launch-gives_up e h g) (
            fails time_of_start _ _ refl (give_up-result e).0
              ((give_up-result e).1 ∙ given_up-eq e))
      ]
    ]
