-- ===== src/Scheduler/Exclusive/Steps.antt =====
-- Cancelling and excluding keep the invariant of the queue.
use xlurm.Scheduler.Exclusive.Ticks.{jobs-Inv, Inv-world}
use xlurm.Scheduler.Exclude.{check_ids, set_devices_excluded}
use xlurm.Scheduler.Exclusive.{Inv, Weaker}
use xlurm.Scheduler.Exclusive.Requests.{Each-imp, SameRequest}
use xlurm.Base.{
  ℕ, ◌≡◌, refl, ◌≢◌, inl, inr, Bool, Option, none, some, List, [], ◌∷◌, arith, Bool-cases,
  Option-cases, nat_eq, ◌==◌, option_eq, text_eq, find?, Keeps, err, int_eq,
}
use xlurm.Model.{kind_eq, state_beq_iff, state_eq, Job, pending}
use xlurm.Model.Errors.{job_not_found}
use xlurm.Scheduler.Machine.{with_jobs, save, clock, Host, Scheduler}
use xlurm.Scheduler.Tick.{cancelled_at, finish, is_pending, update_job, cancel}
use xlurm.Scheduler.Tick.Cases.{Each, Each-refl, save-eq}

-- What `cancel` makes of a job that has not started.
pub data Cancelled (j k : Job) : Type 0 where
  as_before : k ≡ j → Cancelled j k
  withdrawn : (time : ℕ) → j.state ≡ pending → k ≡ finish (cancelled_at time) j → Cancelled j k

pub update_job-Each :
    (id : ℕ) (time : ℕ) (jobs : List Job) (j : Job)
    → find? (λ (x : Job). x.id == id) jobs ≡ some j
    → j.state ≡ pending
    → Each Cancelled jobs (update_job id (finish (cancelled_at time)) jobs)
unfolding update_job
update_job-Each id time [] j e p = tt
update_job-Each id time (x ∷ jobs) j e p = elim (Bool-cases (x.id == id)) [
  | inl hit ↦
      let same : x ≡ j = ground arith in
      rw hit (withdrawn time (rw same p) refl, Each-refl Cancelled (λ _. as_before refl) jobs)
  | inr miss ↦ rw miss (as_before refl, update_job-Each id time jobs j (ground arith) p)
]

module _ {W : Type 0} (host : Host W) (id : ℕ) (s : Scheduler W) where
  abbrev sought : Option Job
  sought = find? (λ (x : Job). x.id == id) s.store.jobs

  cancel-missing : sought ≡ none → cancel host id s ≡ (err job_not_found, s)
  unfolding cancel
  cancel-missing e = rw (e, cancel) refl

  abbrev withdrawn_at : ℕ → Scheduler W
  withdrawn_at time =
      with_jobs (clock host s).1 (update_job id (finish (cancelled_at time)) s.store.jobs)

  cancel-pending :
      (j : Job)
      → sought ≡ some j
      → j.state ≡ pending
      → cancel host id s ≡ save host (withdrawn_at (host.now s.world).0)
  unfolding cancel
  cancel-pending j e p = rw (e, cancel) (rw (p, cancel) refl)

  cancel-other :
      (j : Job)
      → sought ≡ some j
      → j.state ≢ pending
      → (cancel host id s).1 ≡ record s { world = (cancel host id s).1.world }
  unfolding cancel
  cancel-other j e p = rw (e, cancel) (ground arith)

  -- `cancel` touches the queue only to withdraw the job, if it is pending.
  pub cancel_cases {ℓ} :
      (P : Scheduler W → Type ℓ)
      → ((w : W) → P (record s { world = w }))
      → ((j : Job) (time : ℕ) (w : W)
          → sought ≡ some j
          → j.state ≡ pending
          → P (record (withdrawn_at time) { world = w }))
      → P (cancel host id s).1
  cancel_cases P stays goes = elim (Option-cases sought) [
    | inl e ↦ rw (cancel-missing e) (stays s.world)
    | inr (j, e) ↦ elim (Bool-cases (is_pending j)) [
      | inl y ↦
          let p : j.state ≡ pending = (state_beq_iff j.state pending).0 y in
          rw (cancel-pending j e p) (
            rw (save-eq host (withdrawn_at (host.now s.world).0))
              (goes j (host.now s.world).0 _ e p))
      | inr n ↦
          rw (cancel-other j e (λ p. ground (arith, (state_beq_iff j.state pending).1 p))) (stays _)
    ]
  ]

Cancelled-Weaker : (j k : Job) → Cancelled j k → Weaker j k
Cancelled-Weaker j k (as_before e) = rw e (record { same_devices = refl; was_running = λ h. h })
Cancelled-Weaker j k (withdrawn time p e) =
    rw e (record { same_devices = refl; was_running = λ h. absurd (cc) })

Cancelled-SameRequest : (j k : Job) → Cancelled j k → SameRequest j k
Cancelled-SameRequest j k (as_before e) =
    rw e (record { same_id = refl; same_spec = refl; same_owner = refl })
Cancelled-SameRequest j k (withdrawn time p e) =
    rw e (record { same_id = refl; same_spec = refl; same_owner = refl })

module _ {W : Type 0} (host : Host W) where
  -- The invariant survives every cancellation.
  pub cancel-Inv : (id : ℕ) (s : Scheduler W) → Inv s → Inv (cancel host id s).1
  cancel-Inv id s v =
      cancel_cases host id s Inv (λ w. Inv-world s w v)
        λ j time w e p.
          let jobs = update_job id (finish (cancelled_at time)) s.store.jobs in
          let cancelled = update_job-Each id time s.store.jobs j e p in
          jobs-Inv s jobs w (Each-imp Cancelled Weaker s.store.jobs jobs Cancelled-Weaker cancelled)
            (Each-imp Cancelled SameRequest s.store.jobs jobs Cancelled-SameRequest cancelled) v

module _ {W : Type 0} where
  check_ids-Keeps : (ids : List ℕ) → Keeps (check_ids {W = W} ids)
  unfolding check_ids
  check_ids-Keeps [] s = refl
  check_ids-Keeps (id ∷ ids) s = ground (arith, check_ids-Keeps ids s)

  -- Only the set of disabled devices changes.
  pub set_devices_excluded-eq :
      (ids : List ℕ) (excluded : Bool) (s : Scheduler W)
      → (set_devices_excluded ids excluded s).1
        ≡ record s { excluded_devices = (set_devices_excluded ids excluded s).1.excluded_devices }
  unfolding set_devices_excluded
  set_devices_excluded-eq ids excluded s = ground (arith, check_ids-Keeps ids s)

  -- Excluding and including devices keeps the invariant, also where the IDs are refused.
  pub set_devices_excluded-Inv :
      (ids : List ℕ) (excluded : Bool) (s : Scheduler W)
      → Inv s
      → Inv (set_devices_excluded ids excluded s).1
  set_devices_excluded-Inv ids excluded s v = rw (set_devices_excluded-eq ids excluded s) (record {
    inventory_keyed = v.inventory_keyed;
    exclusive = v.exclusive;
    numbered = v.numbered;
    distinct_ids = v.distinct_ids;
  })
