-- ===== src/Driver/Mthreads/Idle.antt =====
-- src/device/mthreads.rs, `status`: what has been seen of a device that is called idle.
use xlurm.Base.{
  ℕ, ◌≡◌, subst, Option, some, List, nat_eq, ◌==◌, list_beq_iff, option_eq, Text, text, text_eq,
  ensure-ok, >>=-ok, ok, int_eq, pos,
}
use xlurm.Model.{kind_eq, state_eq, Device, idle}
use xlurm.Model.Errors.{null_handle, device_changed}
use xlurm.Driver.{read_text}
use xlurm.Driver.Calls.{check-ok, opening-ok, opening-world, used-idle, unwrap_or-idle}
use xlurm.Driver.Reading.{Reads, ensure-pure, read_text-world, read_text-Reads}
use xlurm.Driver.Mthreads.{device_handle, query_processes, query_status, status, Mtml}

module _ {H W : Type 0} (driver : Mtml H W) (utf8 : List ℕ → Option Text) where
  -- The device has been opened by its index, has given the unique identifier that it was found with,
  -- and runs no process; each call has succeeded.
  pub record Confirmed (device : Device) (w : W) : Type 0 where
    pub handle : H
    pub opened : (driver.device device.id w).0 ≡ (pos 0, some handle)
    pub same : Reads utf8 (driver.uuid handle (driver.device device.id w).1).0 device.visible
    pub unused :
        (driver.process_count handle (driver.uuid handle (driver.device device.id w).1).1).0
        ≡ (pos 0, 0)

  query_processes-idle :
      (handle : H) (w : W)
      → (query_processes driver utf8 handle w).0 ≡ ok idle
      → (driver.process_count handle w).0 ≡ (pos 0, 0)
  unfolding query_processes
  query_processes-idle handle w e =
      let (n, called, e1) = check-ok (driver.process_count handle) _ _ w e in
      let (u, e2) = ensure-pure _ _ _ _ e1 in
      subst (λ k. (driver.process_count handle w).0 ≡ (pos 0, k)) (used-idle n e2) called

  device_handle-ok :
      (id : ℕ) (w : W) (device : H)
      → (device_handle driver utf8 id w).0 ≡ ok device
      → ((driver.device id w).0 ≡ (pos 0, some device))
        × ((device_handle driver utf8 id w).1 ≡ (driver.device id w).1)
  unfolding device_handle
  device_handle-ok id w device e = (
    opening-ok (driver.device id) _ (null_handle id) w device e,
    opening-world (driver.device id) _ (null_handle id) w,
  )

  query_status-idle :
      (device : Device) (w : W)
      → (query_status driver utf8 device w).0 ≡ ok idle
      → Confirmed device w
  unfolding query_status
  query_status-idle device w e =
      let operation = text "mtmlDeviceGetUUID" in
      let (opened_device, h, e1) = >>=-ok (device_handle driver utf8 device.id) _ w e in
      let (opened, w1) = device_handle-ok device.id w opened_device h in
      let (now, u, e2) =
        >>=-ok (read_text utf8 driver.uuid operation opened_device) _ _ (rw w1 at e1) in
      let w' = (driver.device device.id w).1 in
      let w2 = read_text-world utf8 driver.uuid operation opened_device w' in
      let (same, e3) =
        ensure-ok (now == device.visible) (device_changed device.id) _ _ (rw w2 at e2) in
      record {
        handle = opened_device;
        opened = opened;
        same =
            subst (λ x. Reads utf8 (driver.uuid opened_device w').0 x)
              ((list_beq_iff now device.visible).0 same)
              (read_text-Reads utf8 driver.uuid operation opened_device w' now u);
        unused = query_processes-idle opened_device _ e3;
      }

  pub status-Confirmed :
      (device : Device) (w : W) → (status driver utf8 device w).0 ≡ idle → Confirmed device w
  unfolding status
  status-Confirmed device w e =
      query_status-idle device w (unwrap_or-idle (query_status driver utf8 device w) e)
