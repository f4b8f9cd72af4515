-- ===== src/Driver/Ppu.antt =====
-- src/device/ppu.rs: discovery and status by the library of PPU devices.
pub mod Idle
pub mod Listed
use xlurm.Driver.Loading.{Wanted}
use xlurm.Base.{
  ℕ, false, not, ◌&&◌, ◌||◌, Option, none, List, [], ◌∷◌, ltb, leb, if◌then◌else◌, nat_eq, ◌==◌,
  option_eq, Text, text, text_eq, all, ◌>>=◌, ◌>>◌, pure, ensure, context, Result, int_eq, pos,
}
use xlurm.Model.{kind_eq, state_eq, Device, ppu, Status, idle, busy, unknown}
use xlurm.Model.Errors.{
  Error, null_handle, device_changed, invalid_uuid, invalid_device_count, invalid_process_count,
  invalid_process_id,
}
use xlurm.Driver.{
  Foreign, range, is_device_count, has_space, check, push_each, read_text, unwrap_or,
}
use xlurm.Device.{starts_with, validate}

-- The functions of the library. A null handle is `none`. `processes` writes the number of
-- processes, and the buffer's process ids.
pub record Hgml (H W : Type 0) : Type 0 where
  pub count : Foreign ℕ W
  pub handle : (id : ℕ) → Foreign (Option H) W
  pub uuid : H → Foreign (List ℕ) W
  pub name : H → Foreign (List ℕ) W
  pub processes : H → (capacity : ℕ) → Foreign (ℕ × (ℕ → ℕ)) W

module _ {H W : Type 0} (driver : Hgml H W) (utf8 : List ℕ → Option Text) where
  unfoldable pub device_handle : ℕ → W → Result Error H × W
  device_handle id = do
    handle ← check (driver.handle id) (text "hgmlDeviceGetHandleByIndex_v2")
    context handle (null_handle id)

  unfoldable pub device_uuid : H → W → Result Error Text × W
  unfolding read_text
  device_uuid handle = do
    uuid ← read_text utf8 driver.uuid (text "hgmlDeviceGetUUID") handle
    ensure
        ((starts_with (text "GPU-") uuid || starts_with (text "PPU-") uuid) && not (has_space uuid))
        invalid_uuid
    pure uuid

  unfoldable pub found_device : ℕ → W → Result Error Device × W
  unfolding device_handle device_uuid read_text
  found_device id = do
    handle ← device_handle id
    visible ← device_uuid handle
    name ← read_text utf8 driver.name (text "hgmlDeviceGetName") handle
    pure (record { kind = ppu; id = id; visible = visible; name = name; npu = none; chip = none })

  unfoldable pub discover : W → Result Error (List Device) × W
  unfolding found_device range push_each validate
  discover = do
    count ← check driver.count (text "hgmlDeviceGetCount_v2")
    ensure (is_device_count count) (invalid_device_count (pos count))
    devices ← push_each found_device (range 0 count)
    λ w. (validate devices, w)

  -- The processes of a device, after its identity.
  unfoldable pub query_processes : H → W → Result Error Status × W
  unfolding range
  query_processes handle = do
    processes ←
        check (driver.processes handle 4096) (text "hgmlDeviceGetComputeRunningProcesses_v2")
    ensure (leb processes.0 4096) (invalid_process_count (pos processes.0))
    ensure (all (λ i. ltb 0 (processes.1 i)) (range 0 processes.0)) invalid_process_id
    pure (if processes.0 == 0 then idle else Status.busy)

  unfoldable pub query_status : Device → W → Result Error Status × W
  unfolding device_handle device_uuid query_processes
  query_status device = do
    handle ← device_handle device.id
    now ← device_uuid handle
    ensure (now == device.visible) (device_changed device.id)
    query_processes handle

  unfoldable pub status : Device → W → Status × W
  unfolding query_status
  status device w = unwrap_or unknown (query_status device w)

abbrev pub wanted : Wanted
wanted = record {
  variable = text "XLURM_HGML_LIBRARY";
  path = text "/usr/local/PPU_SDK/lib/libhgml.so";
  paths = text "/usr/local/PPU_SDK/targets/x86_64-linux/lib/libhgml.so" ∷ text "libhgml.so" ∷ [];
  first = text "hgmlInit_v2";
  functions =
      text "hgmlInit_v2"
      ∷ text "hgmlShutdown"
      ∷ text "hgmlDeviceGetCount_v2"
      ∷ text "hgmlDeviceGetHandleByIndex_v2"
      ∷ text "hgmlDeviceGetUUID"
      ∷ text "hgmlDeviceGetName"
      ∷ text "hgmlDeviceGetComputeRunningProcesses_v2"
      ∷ [];
  gives_handle = false;
}
