-- ===== src/Client/Agreement.antt =====
-- src/cli.rs, `submission`, and src/scheduler.rs, `submit`: the client and the daemon check alike.
use xlurm.Base.{
  ℕ, ◌≡◌, true, some, List, nat_eq, ◌==◌, ◌!=◌, option_eq, text_eq, length, distinct_len, ok,
  int_eq,
}
use xlurm.Model.{kind_eq, state_eq, Submission}
use xlurm.Model.Errors.{
  Error, empty_command, no_working_directory, no_such_device_ids, ambiguous_device_ids,
  disabled_device_ids, job_id_exhausted, not_enough_devices,
}
use xlurm.Scheduler.Machine.{Scheduler}
use xlurm.Scheduler.Submit.{check_exact}

-- The errors of a submission that the client cannot foresee: the command and the directory are not
-- in order, the devices are not there or are not enabled, or the numbers are used up.
unfoldable pub IsUnforeseen : Error → Type 0
IsUnforeseen empty_command = Unit
IsUnforeseen no_working_directory = Unit
IsUnforeseen no_such_device_ids = Unit
IsUnforeseen ambiguous_device_ids = Unit
IsUnforeseen disabled_device_ids = Unit
IsUnforeseen (not_enough_devices count) = Unit
IsUnforeseen job_id_exhausted = Unit
IsUnforeseen _ = ⊥

-- What the client has made sure of.
record Sound (W : Type 0) (spec : Submission) : Type 0 where
  limited : (spec.time_limit != some 0) ≡ true
  distinct : (distinct_len spec.exclude_device_ids == length spec.exclude_device_ids) ≡ true
  exact :
      (ids : List ℕ) (daemon : Scheduler W)
      → spec.device_ids ≡ some ids
      → check_exact ids spec daemon ≡ (ok tt, daemon)
