-- ===== src/Driver/Mthreads.antt =====
-- src/device/mthreads.rs: discovery and status by the Moore Threads driver's library.
pub mod Idle
pub mod Listed
use xlurm.Driver.Loading.{Wanted}
use xlurm.Base.{
  ℕ, true, Option, none, List, [], ◌∷◌, leb, if◌then◌else◌, nat_eq, ◌==◌, option_eq, Text, text,
  text_eq, ◌>>=◌, ◌>>◌, pure, ensure, context, Result, int_eq, pos,
}
use xlurm.Model.{kind_eq, state_eq, Device, mthreads, Status, idle, busy, unknown}
use xlurm.Model.Errors.{
  Error, null_handle, device_changed, invalid_device_count, invalid_process_count,
}
use xlurm.Driver.{Foreign, range, is_device_count, check, push_each, read_text, unwrap_or}
use xlurm.Device.{validate}

-- The functions of the library, at the handle of the library that `load` has got.
pub record Mtml (H W : Type 0) : Type 0 where
  pub count : Foreign ℕ W
  pub device : (id : ℕ) → Foreign (Option H) W
  pub uuid : H → Foreign (List ℕ) W
  pub name : H → Foreign (List ℕ) W
  pub process_count : H → Foreign ℕ W

module _ {H W : Type 0} (driver : Mtml H W) (utf8 : List ℕ → Option Text) where
  unfoldable pub device_handle : ℕ → W → Result Error H × W
  device_handle id = do
    handle ← check (driver.device id) (text "mtmlLibraryInitDeviceByIndex")
    context handle (null_handle id)

  unfoldable pub found_device : ℕ → W → Result Error Device × W
  unfolding device_handle read_text
  found_device id = do
    device ← device_handle id
    visible ← read_text utf8 driver.uuid (text "mtmlDeviceGetUUID") device
    name ← read_text utf8 driver.name (text "mtmlDeviceGetName") device
    pure (record {
      kind = mthreads;
      id = id;
      visible = visible;
      name = name;
      npu = none;
      chip = none;
    })

  unfoldable pub discover : W → Result Error (List Device) × W
  unfolding found_device range push_each validate
  discover = do
    count ← check driver.count (text "mtmlLibraryCountDevice")
    ensure (is_device_count count) (invalid_device_count (pos count))
    devices ← push_each found_device (range 0 count)
    λ w. (validate devices, w)

  unfoldable pub query_processes : H → W → Result Error Status × W
  query_processes device = do
    count ← check (driver.process_count device) (text "mtmlDeviceCountProcessMemoryUsages")
    ensure (leb count 4096) (invalid_process_count (pos count))
    pure (if count == 0 then idle else Status.busy)

  unfoldable pub query_status : Device → W → Result Error Status × W
  unfolding device_handle read_text query_processes
  query_status device = do
    open_device ← device_handle device.id
    now ← read_text utf8 driver.uuid (text "mtmlDeviceGetUUID") open_device
    ensure (now == device.visible) (device_changed device.id)
    query_processes open_device

  unfoldable pub status : Device → W → Status × W
  unfolding query_status
  status device w = unwrap_or unknown (query_status device w)

abbrev pub wanted : Wanted
wanted = record {
  variable = text "XLURM_MTML_LIBRARY";
  path = text "/usr/lib/libmtml.so";
  paths = text "libmtml.so" ∷ [];
  first = text "mtmlLibraryInit";
  functions =
      text "mtmlLibraryInit"
      ∷ text "mtmlLibraryShutDown"
      ∷ text "mtmlLibraryCountDevice"
      ∷ text "mtmlLibraryInitDeviceByIndex"
      ∷ text "mtmlDeviceGetName"
      ∷ text "mtmlDeviceGetUUID"
      ∷ text "mtmlDeviceCountProcessMemoryUsages"
      ∷ [];
  gives_handle = true;
}
