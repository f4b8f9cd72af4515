-- ===== src/Driver/Hcu.antt =====
-- src/device/hcu.rs: discovery and the busy devices by the HCU monitoring library.
pub mod Busy
pub mod Listed
use xlurm.Driver.Loading.{Wanted}
use xlurm.Base.{
  ℕ, zero, suc, ◌+◌, ◌-◌, ◌/◌, ◌%◌, ◌^◌, false, ◌&&◌, none, List, [], ◌∷◌, ◌++◌, map, ltb, leb,
  if◌then◌else◌, nat_eq, ◌!=◌, option_eq, Text, text, text_eq, ◌>>=◌, ◌>>◌, pure, ensure, Result,
  int_eq, pos,
}
use xlurm.Model.{kind_eq, state_eq, Device, hcu}
use xlurm.Model.Errors.{
  Error, invalid_unique_id, invalid_device_count, invalid_process_count, invalid_process_id,
  invalid_index,
}
use xlurm.Driver.{Foreign, range, is_device_count, check, push_each}
use xlurm.Device.{validate}

-- The functions of the library. `processes` writes the number of processes and their ids, and
-- `process_gpus` the number of devices that a process uses and their indices.
pub record Smi (W : Type 0) : Type 0 where
  pub count : Foreign ℕ W
  pub unique_id : (id : ℕ) → Foreign ℕ W
  pub processes : (capacity : ℕ) → Foreign (ℕ × (ℕ → ℕ)) W
  pub process_gpus : (process capacity : ℕ) → Foreign (ℕ × (ℕ → ℕ)) W

unfoldable pub concat : List (List ℕ) → List ℕ
concat [] = []
concat (xs ∷ xss) = xs ++ concat xss

hex_digit : ℕ → ℕ
hex_digit n = if ltb n 10 then b'0' + n else b'a' + (n - 10)

-- The last digits of a number to the base 16.
hex_digits : ℕ → ℕ → Text
unfolding hex_digit
hex_digits zero n = []
hex_digits (suc width) n = hex_digits width (n / 16) ++ (hex_digit (n % 16) ∷ [])

-- `{:016x}` of a `u64`
unfoldable pub hex16 : ℕ → Text
unfolding hex_digits
hex16 n = hex_digits 16 n

module _ {W : Type 0} (driver : Smi W) where
  unfoldable pub device_count : W → Result Error ℕ × W
  device_count = do
    count ← check driver.count (text "rsmi_num_monitor_devices")
    ensure (is_device_count count) (invalid_device_count (pos count))
    pure count

  unfoldable pub found_device : ℕ → W → Result Error Device × W
  unfolding hex16
  found_device id = do
    uid ← check (driver.unique_id id) (text "rsmi_dev_unique_id_get")
    ensure ((uid != 0) && (uid != 2 ^ 64 - 1)) (invalid_unique_id id)
    pure (record {
      kind = hcu;
      id = id;
      name = text "HCU";
      visible = hex16 uid;
      npu = none;
      chip = none;
    })

  unfoldable pub discover : W → Result Error (List Device) × W
  unfolding device_count found_device range push_each validate
  discover = do
    count ← device_count
    devices ← push_each found_device (range 0 count)
    λ w. (validate devices, w)

  -- The innermost loop of `busy_devices`.
  unfoldable pub check_indices : ℕ → List ℕ → W → Result Error (Unit {0}) × W
  check_indices devices [] = pure tt
  check_indices devices (id ∷ ids) = do
    ensure (ltb id devices) (invalid_index id)
    check_indices devices ids

  -- The devices of one process.
  unfoldable pub process_devices : ℕ → ℕ → W → Result Error (List ℕ) × W
  unfolding check_indices range
  process_devices devices process = do
    ensure (ltb 0 process) invalid_process_id
    gpus ← check (driver.process_gpus process 64) (text "rsmi_compute_process_gpus_get")
    ensure (is_device_count gpus.0) (invalid_device_count (pos gpus.0))
    check_indices devices (map gpus.1 (range 0 gpus.0))
    pure (map gpus.1 (range 0 gpus.0))

  -- The set of busy devices is a list, where a device may occur more than once.
  unfoldable pub busy_devices : W → Result Error (List ℕ) × W
  unfolding device_count process_devices range push_each concat
  busy_devices = do
    devices ← device_count
    processes ← check (driver.processes 4096) (text "rsmi_compute_process_info_get")
    ensure (leb processes.0 4096) (invalid_process_count (pos processes.0))
    used ← push_each (process_devices devices) (map processes.1 (range 0 processes.0))
    pure (concat used)

abbrev pub wanted : Wanted
wanted = record {
  variable = text "XLURM_HCU_SMI_LIBRARY";
  path = text "/opt/hyhal/lib/librocm_smi64.so";
  paths = text "/opt/dtk/.hyhal/rocm_smi/lib/librocm_smi64.so" ∷ text "librocm_smi64.so" ∷ [];
  first = text "rsmi_init";
  functions =
      text "rsmi_init"
      ∷ text "rsmi_shut_down"
      ∷ text "rsmi_num_monitor_devices"
      ∷ text "rsmi_dev_unique_id_get"
      ∷ text "rsmi_compute_process_info_get"
      ∷ text "rsmi_compute_process_gpus_get"
      ∷ [];
  gives_handle = false;
}
