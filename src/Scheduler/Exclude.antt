-- ===== src/Scheduler/Exclude.antt =====
-- src/scheduler.rs, `exclude_devices`, `set_devices_excluded` and `info`.
use xlurm.Base.{
  ℕ, Bool, true, false, ◌&&◌, Option, none, some, List, [], ◌∷◌, map, if◌then◌else◌, nat_eq, ◌==◌,
  ◌!=◌, option_eq, Text, text_eq, length, set, filter, find?, any, contains, distinct_len, ◌>>◌,
  ensure, modify, Result, ok, err, int_eq,
}
use xlurm.Model.{
  kind_eq, key, state_eq, Device, Job, DeviceView, running, Status, unknown, allocated, disabled,
}
use xlurm.Model.Errors.{Error, duplicate_excluded_ids, unknown_excluded_id}
use xlurm.Scheduler.Machine.{Scheduler}

-- `HashMap::get`
unfoldable pub lookup {ℓ} : {V : Type ℓ} → Text → List (Text × V) → Option V
lookup k [] = none
lookup k ((j, v) ∷ m) = if j == k then some v else lookup k m

-- `HashSet::insert` and `remove` of each key in turn.
unfoldable pub change_keys : Bool → List Text → List Text → List Text
change_keys excluded [] set = set
change_keys true (k ∷ ks) set = change_keys true ks (k ∷ set)
change_keys false (k ∷ ks) set = change_keys false ks (filter (λ j. j != k) set)

abbrev pub job_ids : Option Job → Option ℕ
job_ids none = none
job_ids (some j) = some j.id

-- The running job that has the device.
unfoldable pub holder : List Job → Device → Option Job
holder jobs device =
    find? (λ j. (j.state == running) && any (λ d. key d == key device) j.devices) jobs

module _ {W : Type 0} where
  -- The `for` loop that looks for an unknown ID.
  unfoldable pub check_ids : List ℕ → Scheduler W → Result Error (Unit {0}) × Scheduler W
  check_ids [] s = (ok tt, s)
  check_ids (id ∷ ids) s =
      if any (λ (device : Device). device.id == id) s.inventory.devices
      then check_ids ids s
      else (err (unknown_excluded_id id), s)

  abbrev pub keys_of_ids : List ℕ → Scheduler W → List Text
  keys_of_ids ids s = map key (filter (λ d. contains ids d.id) s.inventory.devices)

  unfoldable pub set_devices_excluded :
      List ℕ → Bool → Scheduler W → Result Error (Unit {0}) × Scheduler W
  unfolding check_ids change_keys
  set_devices_excluded ids excluded = do
    ensure (distinct_len ids == length ids) duplicate_excluded_ids
    check_ids ids
    modify λ s. record s {
      excluded_devices = change_keys excluded (keys_of_ids ids s) s.excluded_devices;
    }

  unfoldable pub exclude_devices : List ℕ → Scheduler W → Result Error (Unit {0}) × Scheduler W
  unfolding set_devices_excluded
  exclude_devices ids = set_devices_excluded ids true

  unfoldable pub status_of : Scheduler W → Option Job → Device → Status
  unfolding lookup
  status_of s held device =
      if contains s.excluded_devices (key device) then disabled else elim held [
        | some j ↦ allocated
        | none ↦ elim (lookup (key device) s.inventory.status) [ none ↦ unknown | some st ↦ st ]
      ]

  unfoldable pub view : Scheduler W → Device → DeviceView
  unfolding holder status_of lookup
  view s device =
      let held = holder s.store.jobs device in
      record {
        device = device;
        job = job_ids held;
        status = status_of s held device;
        monitoring_error = lookup (key device) s.inventory.monitoring_errors;
      }

  unfoldable pub info : Scheduler W → List DeviceView
  unfolding view
  info s = map (view s) s.inventory.devices
