-- ===== src/Scheduler/Submit.antt =====
-- src/scheduler.rs, `submit`: the checks of a submission, and the new job.
pub mod Admit
pub mod Effect
use xlurm.Base.{
  ℕ, ◌+◌, ◌^◌, Bool, true, false, not, ◌||◌, Option, none, some, List, [], ◌∷◌, ◌++◌, ltb,
  if◌then◌else◌, nat_eq, ◌==◌, ◌!=◌, option_eq, Text, text_eq, length, is_empty, all, contains,
  distinct_len, ◌>>=◌, ◌>>◌, pure, throw, ensure, context, Result, ok, err, int_eq,
}
use xlurm.Model.{kind_eq, key, state_eq, Device, Submission, Owner, Job, Kind, pending}
use xlurm.Model.Errors.{
  Error, duplicate_excluded_ids, empty_command, no_working_directory, time_limit_zero,
  empty_device_ids, count_mismatch, duplicate_device_ids, exclusion_with_exact_ids,
  no_such_device_ids, ambiguous_device_ids, disabled_device_ids, job_id_exhausted,
  not_enough_devices,
}
use xlurm.Scheduler.Machine.{with_jobs, save, clock, Host, Scheduler}
use xlurm.Scheduler.Allocate.{matching_kinds, allocate}

abbrev pub is_some {ℓ} : {A : Type ℓ} → Option A → Bool
is_some none = false
is_some (some a) = true

-- `u64::checked_add`
unfoldable pub checked_add : ℕ → ℕ → Option ℕ
checked_add a b = if ltb (a + b) (2 ^ 64) then some (a + b) else none

-- `device.kind != kind || !ids.contains(&device.id) || !excluded.contains(&device.key())`
unfoldable pub is_enabled_or_other : Kind → List ℕ → List Text → Device → Bool
is_enabled_or_other kind ids excluded device =
    (device.kind != kind) || not (contains ids device.id) || not (contains excluded (key device))

abbrev pub new_job : ℕ → Owner → Submission → ℕ → Job
new_job id owner spec time = record {
  id = id;
  owner = owner;
  spec = spec;
  state = pending;
  devices = [];
  submitted_at = time;
  started_at = none;
  result = none;
}

-- `Vec::pop`
unfoldable pub pop {ℓ} : {A : Type ℓ} → List A → List A
pop [] = []
pop (x ∷ []) = []
pop (x ∷ y ∷ xs) = x ∷ pop (y ∷ xs)

module _ {W : Type 0} where
  unfoldable pub one_kind : List Kind → Scheduler W → Result Error Kind × Scheduler W
  one_kind [] = throw no_such_device_ids
  one_kind (kind ∷ []) = pure kind
  one_kind (kind ∷ other ∷ kinds) = throw ambiguous_device_ids

  -- The block under `if let Some(ids) = &spec.device_ids`, in four parts.
  unfoldable pub check_exact :
      List ℕ → Submission → Scheduler W → Result Error (Unit {0}) × Scheduler W
  check_exact ids spec = do
    ensure (not (is_empty ids)) empty_device_ids
    ensure (spec.count == length ids) count_mismatch
    ensure (distinct_len ids == length ids) duplicate_device_ids
    ensure (is_empty spec.exclude_device_ids) exclusion_with_exact_ids

  unfoldable pub find_kind : Submission → Scheduler W → Result Error Kind × Scheduler W
  unfolding one_kind
  find_kind spec s = one_kind (matching_kinds spec s.inventory.devices) s

  unfoldable pub check_enabled : Kind → List ℕ → Scheduler W → Result Error (Unit {0}) × Scheduler W
  check_enabled kind ids s =
      ensure (all (is_enabled_or_other kind ids s.excluded_devices) s.inventory.devices)
        disabled_device_ids s

  unfoldable pub resolve_exact :
      List ℕ → Submission → Scheduler W → Result Error Submission × Scheduler W
  resolve_exact ids spec = do
    check_exact ids spec
    kind ← find_kind spec
    check_enabled kind ids
    pure (record spec { kind = some kind })

  unfoldable pub resolve : Submission → Scheduler W → Result Error Submission × Scheduler W
  resolve spec = elim spec.device_ids [ none ↦ pure spec | some ids ↦ resolve_exact ids spec ]

  unfoldable pub check_possible : Submission → Scheduler W → Result Error (Unit {0}) × Scheduler W
  check_possible spec s =
      ensure (is_some (allocate spec s.inventory.devices s.excluded_devices))
        (not_enough_devices spec.count) s

  -- The number of the next job.
  unfoldable pub number : Scheduler W → Result Error ℕ × Scheduler W
  unfolding checked_add
  number s = context (checked_add s.store.next_id 1) job_id_exhausted s

  abbrev pub push_job : Job → Scheduler W → Scheduler W
  push_job job s = record s { store = record { next_id = job.id; jobs = s.store.jobs ++ job ∷ [] } }

  module _ (host : Host W) where
    -- The checks that do not look at devices.
    unfoldable pub check_request : Submission → Scheduler W → Result Error (Unit {0}) × Scheduler W
    check_request spec s =
        (do
          ensure (is_some spec.script || not (is_empty spec.command)) empty_command
          ensure (host.fs.is_dir spec.cwd s.world) no_working_directory
          ensure (spec.time_limit != some 0) time_limit_zero
          ensure (distinct_len spec.exclude_device_ids == length spec.exclude_device_ids)
              duplicate_excluded_ids)
          s

    -- All checks, up to the new job's number.
    unfoldable pub admit : Submission → Scheduler W → Result Error (Submission × ℕ) × Scheduler W
    admit given = do
      check_request given
      spec ← resolve given
      check_possible spec
      id ← number
      pure (spec, id)

    -- The job joins the queue, and leaves it again if the queue cannot be saved.
    unfoldable pub enqueue : Job → Scheduler W → Result Error Job × Scheduler W
    unfolding pop
    enqueue job s =
        let (r, s') = save host (push_job job s) in
        elim r [ ok _ ↦ (ok job, s') | err e ↦ (err e, with_jobs s' (pop s'.store.jobs)) ]

    unfoldable pub submit : Submission → Owner → Scheduler W → Result Error Job × Scheduler W
    submit given owner = do
      (spec, id) ← admit given
      time ← clock host
      enqueue (new_job id owner spec time)
