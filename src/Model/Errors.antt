-- ===== src/Model/Errors.antt =====
-- The messages of `ensure!`, `bail!` and `context` in src/, as values.
use xlurm.Base.{ℕ, List, nat_eq, option_eq, Text, text_eq, int_eq, ℤ}

pub data Error : Type 0 where
  -- src/scheduler.rs
  max_running_zero duplicate_excluded_ids empty_command no_working_directory : Error
  time_limit_zero empty_device_ids count_mismatch duplicate_device_ids : Error
  exclusion_with_exact_ids no_such_device_ids ambiguous_device_ids disabled_device_ids : Error
  job_id_exhausted job_not_found index_out_of_bounds : Error
  unknown_excluded_id : (id : ℕ) → Error
  not_enough_devices : (count : ℕ) → Error
  -- src/storage.rs and src/cli.rs
  untrusted_ancestor : (path : Text) → Error
  not_a_directory_of_the_daemon writable_by_other_users invalid_jobs_directory_owner : Error
  daemon_running : Error
  cannot_clean_while_running : (ids : List ℕ) → Error
  -- src/auth.rs and src/daemon.rs
  no_account : (uid : ℕ) → Error
  permission_denied : (owner : Text) (uid : ℕ) → Error
  only_root_runs_for_others only_administrator_devices only_administrator_stops no_device_ids :
      Error
  jobs_are_running : (ids : List ℕ) → Error
  connection_closed message_too_long malformed_message not_the_owner : Error
  unexpected_response : Error
  rejected : (message : Text) → Error
  -- src/executor.rs
  worker_running : Error
  -- src/device/mod.rs
  no_devices duplicate_devices invalid_inventory invalid_number : Error
  dcmi_unavailable hcu_smi_unavailable : Error
  -- src/device/ascend.rs, hcu.rs, metax.rs, mthreads.rs and ppu.rs
  nul_in_path empty_response unterminated_response invalid_utf8 : Error
  missing_symbol cannot_load : (message : Text) → Error
  driver_failed : (operation : Text) (code : ℤ) → Error
  null_handle invalid_unique_id device_changed : (id : ℕ) → Error
  null_library_handle invalid_uuid no_availability no_health invalid_chip_name : Error
  invalid_device_count invalid_process_count : (count : ℤ) → Error
  invalid_logical_id : (id : ℤ) → Error
  invalid_card_id invalid_chip_id : (id : ℕ) → Error
  invalid_process_id : Error
  invalid_index : (id : ℕ) → Error
  dcmi_apis_unavailable : (newer older : Text) → Error
  -- An error of the operating system or of a library.
  system : (message : Text) → Error
