-- ===== src/Scheduler/Tick.antt =====
-- src/scheduler.rs, `cancel` and `tick`: jobs that have ended are collected, then pending jobs start.
pub mod Cases
pub mod Order
pub mod Loop
pub mod Capacity
pub mod Conserving
pub mod Held
pub mod Served
pub mod Grants
use xlurm.Base.{
  ℕ, suc, Bool, true, false, not, ◌||◌, none, some, List, [], ◌∷◌, ◌++◌, map, leb, if◌then◌else◌,
  nat_eq, ◌==◌, option_eq, Text, text_eq, get_elem?, set, filter, find?, count_if, flat_map, ◌>>=◌,
  ◌>>◌, pure, context, gets, modify, Result, ok, err, int_eq,
}
use xlurm.Model.{
  kind_eq, key, state_eq, Device, Outcome, Job, pending, running, failed, cancelled, Status, idle,
}
use xlurm.Model.Errors.{Error, job_not_found, index_out_of_bounds}
use xlurm.Scheduler.Machine.{with_jobs, outside, save, clock, Host, Scheduler}
use xlurm.Scheduler.Allocate.{allocate}
use xlurm.Scheduler.Exclude.{lookup}

-- `failure(message)` of src/executor.rs.
abbrev pub failure : Text → ℕ → Outcome
failure message time = record {
  state = failed;
  exit_code = 1;
  finished_at = time;
  error = some message;
}

abbrev pub cancelled_at : ℕ → Outcome
cancelled_at time = record { state = cancelled; exit_code = 130; finished_at = time; error = none }

abbrev pub finish : Outcome → Job → Job
finish outcome j = record j { state = outcome.state; result = some outcome }

abbrev pub is_running : Job → Bool
is_running j = j.state == running

abbrev pub is_pending : Job → Bool
is_pending j = j.state == pending

-- A change of the first job with an ID, through `iter_mut().find(..)`.
unfoldable pub update_job : ℕ → (Job → Job) → List Job → List Job
update_job id f [] = []
update_job id f (j ∷ jobs) = if j.id == id then f j ∷ jobs else j ∷ update_job id f jobs

-- The positions of the pending jobs, from `n` on.
unfoldable pub pending_from : ℕ → List Job → List ℕ
pending_from n [] = []
pending_from n (j ∷ jobs) =
    if is_pending j then n ∷ pending_from (suc n) jobs else pending_from (suc n) jobs

-- A stable sort (`sort_by_key`): `before a b` if `a` may stand before `b`.
module _ {ℓ} {A : Type ℓ} (before : A → A → Bool) where
  unfoldable pub insert_sorted : A → List A → List A
  insert_sorted x [] = x ∷ []
  insert_sorted x (y ∷ ys) = if before x y then x ∷ y ∷ ys else y ∷ insert_sorted x ys

  unfoldable pub sort_by : List A → List A
  unfolding insert_sorted
  sort_by [] = []
  sort_by (x ∷ xs) = insert_sorted x (sort_by xs)

-- `jobs[i].spec.count`, for an index in range.
unfoldable pub count_at : List Job → ℕ → ℕ
count_at jobs i = elim (get_elem? jobs i) [ none ↦ 0 | some j ↦ j.spec.count ]

-- Descending by the number of devices (`Reverse`).
unfoldable pub larger_first : List Job → ℕ → ℕ → Bool
unfolding count_at
larger_first jobs i j = leb (count_at jobs j) (count_at jobs i)

unfoldable pub pending_order : List Job → List ℕ
unfolding pending_from sort_by larger_first
pending_order jobs = sort_by (larger_first jobs) (pending_from 0 jobs)

abbrev pub is_idle : List (Text × Status) → Device → Bool
is_idle status d = elim (lookup (key d) status) [ some idle ↦ true | _ ↦ false ]

abbrev pub started : List Device → ℕ → Job → Job
started devices time j = record j { devices = devices; state = running; started_at = some time }

abbrev pub or_changed : Bool → Result Error Bool → Result Error Bool
or_changed b (ok c) = ok (b || c)
or_changed b (err e) = err e

module _ {W : Type 0} where
  abbrev pub replace_job : ℕ → Job → Scheduler W → Scheduler W
  replace_job i j s = with_jobs s (set s.store.jobs i j)

  -- The keys that no new job may get.
  unfoldable pub reserved_keys : Scheduler W → List Text
  unfolding lookup
  reserved_keys s =
      map key (filter (λ d. not (is_idle s.inventory.status d)) s.inventory.devices)
      ++ s.excluded_devices
      ++ flat_map (λ (j : Job). map key j.devices) (filter is_running s.store.jobs)

  module _ (host : Host W) where
    open host use {executor}

    unfoldable pub cancel : ℕ → Scheduler W → Result Error (Unit {0}) × Scheduler W
    unfolding update_job
    cancel id = do
      jobs ← gets (λ s. s.store.jobs)
      found ← context (find? (λ (j : Job). j.id == id) jobs) job_not_found
      elim found.state [
        | pending ↦ do
          time ← clock host
          modify (λ s. with_jobs s (update_job id (finish (cancelled_at time)) s.store.jobs))
          save host
        | running ↦ outside (executor.cancel id)
        | _ ↦ pure tt
      ]

    -- One round of the first loop of `tick`: the job, and whether it changed.
    unfoldable pub poll_job : Job → W → Result Error (Job × Bool) × W
    poll_job j w =
        let (r, w') = executor.poll j.id w in
        if not (is_running j) then (ok (j, false), w) else elim r [
          | err e ↦ (err e, w')
          | ok none ↦ (ok (j, false), w')
          | ok (some outcome) ↦ (ok (finish outcome j, true), w')
        ]

    -- An error ends the loop and leaves the rest of the jobs as they are.
    unfoldable pub poll_jobs : List Job → W → Result Error Bool × List Job × W
    unfolding poll_job
    poll_jobs [] w = (ok false, [], w)
    poll_jobs (j ∷ jobs) w =
        let (r, w₁) = poll_job j w in
        elim r [
          | err e ↦ (err e, j ∷ jobs, w₁)
          | ok (j', c) ↦
              let (r', jobs', w₂) = poll_jobs jobs w₁ in (or_changed c r', j' ∷ jobs', w₂)
        ]

    unfoldable pub collect : Scheduler W → Result Error Bool × Scheduler W
    unfolding poll_jobs
    collect s =
        let (r, jobs, w) = poll_jobs s.store.jobs s.world in
        (r, record s { store = record { next_id = s.store.next_id; jobs = jobs }; world = w })

    -- The job at `i` is recorded as running, then started; `false` if it fails to start. `describe`
    -- is the text of an error, `{error:#}`.
    unfoldable pub launch :
        (Error → Text) → ℕ → Job → List Device → Scheduler W → Result Error Bool × Scheduler W
    launch describe i j devices = do
      time ← clock host
      modify (replace_job i (started devices time j))
      save host
      λ s.
          let (r, s') = outside (executor.start (started devices time j)) s in
          elim r [
            | ok _ ↦ (ok true, s')
            | err e ↦
                (do
                  later ← clock host
                  modify
                      (replace_job i (finish (failure (describe e) later) (started devices time j)))
                  save host
                  pure false)
                  s'
          ]

    -- The second loop of `tick`, over the positions of the pending jobs.
    unfoldable pub start_jobs :
        (Error → Text)
        → List ℕ
        → List Text
        → ℕ
        → Scheduler W
        → Result Error (Unit {0}) × Scheduler W
    unfolding launch
    start_jobs describe [] reserved running_count s = (ok tt, s)
    start_jobs describe (i ∷ is) reserved running_count s = elim (leb s.max_running running_count) [
      | true ↦ (ok tt, s)
      | false ↦ elim (get_elem? s.store.jobs i) [
        | none ↦ (err index_out_of_bounds, s)
        | some j ↦ elim (allocate j.spec s.inventory.devices reserved) [
          | none ↦ start_jobs describe is reserved running_count s
          | some devices ↦
              let (r, s') = launch describe i j devices s in
              elim r [
                | err e ↦ (err e, s')
                | ok true ↦
                    start_jobs describe is (map key devices ++ reserved) (suc running_count) s'
                | ok false ↦ start_jobs describe is reserved running_count s'
              ]
        ]
      ]
    ]

    unfoldable pub start_pending :
        (Error → Text) → Scheduler W → Result Error (Unit {0}) × Scheduler W
    unfolding reserved_keys pending_order start_jobs
    start_pending describe s =
        start_jobs describe (pending_order s.store.jobs) (reserved_keys s)
          (count_if is_running s.store.jobs) s

    unfoldable pub tick : (Error → Text) → Scheduler W → Result Error (Unit {0}) × Scheduler W
    unfolding collect start_pending
    tick describe = do
      changed ← collect
      if changed then save host else pure tt
      start_pending describe
