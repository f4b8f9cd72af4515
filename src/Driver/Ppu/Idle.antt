-- ===== src/Driver/Ppu/Idle.antt =====
-- src/device/ppu.rs, `status`: what has been seen of a device that is called idle.
use xlurm.Base.{
  ℕ, ◌≡◌, subst, Option, some, List, leb, nat_eq, ◌==◌, list_beq_iff, option_eq, Text, text_eq,
  ensure-ok, >>=-ok, ok, int_eq, pos,
}
use xlurm.Model.{kind_eq, state_eq, Device, idle}
use xlurm.Model.Errors.{null_handle, device_changed, invalid_uuid, invalid_process_count}
use xlurm.Driver.Calls.{check-ok, opening-ok, opening-world, used-idle, unwrap_or-idle}
use xlurm.Driver.Reading.{Reads, ensure-pure, tested-Reads, tested-world}
use xlurm.Driver.Ppu.{device_handle, device_uuid, query_processes, query_status, status, Hgml}

module _ {H W : Type 0} (driver : Hgml H W) (utf8 : List ℕ → Option Text) where
  -- The device has been opened by its index, has given the unique identifier that it was found with,
  -- and runs no process; each call has succeeded.
  pub record Confirmed (device : Device) (w : W) : Type 0 where
    pub handle : H
    pub opened : (driver.handle device.id w).0 ≡ (pos 0, some handle)
    pub same : Reads utf8 (driver.uuid handle (driver.handle device.id w).1).0 device.visible
    pub pids : ℕ → ℕ
    pub unused :
        (driver.processes handle 4096 (driver.uuid handle (driver.handle device.id w).1).1).0
        ≡ (pos 0, (0, pids))

  device_handle-ok :
      (id : ℕ) (w : W) (handle : H)
      → (device_handle driver utf8 id w).0 ≡ ok handle
      → ((driver.handle id w).0 ≡ (pos 0, some handle))
        × ((device_handle driver utf8 id w).1 ≡ (driver.handle id w).1)
  unfolding device_handle
  device_handle-ok id w handle e = (
    opening-ok (driver.handle id) _ (null_handle id) w handle e,
    opening-world (driver.handle id) _ (null_handle id) w,
  )

  device_uuid-ok :
      (handle : H) (w : W) (t : Text)
      → (device_uuid driver utf8 handle w).0 ≡ ok t
      → Reads utf8 (driver.uuid handle w).0 t
        × ((device_uuid driver utf8 handle w).1 ≡ (driver.uuid handle w).1)
  unfolding device_uuid
  device_uuid-ok handle w t e = (
    tested-Reads utf8 driver.uuid _ handle _ invalid_uuid w t e,
    tested-world utf8 driver.uuid _ handle _ invalid_uuid w,
  )

  query_processes-idle :
      (handle : H) (w : W)
      → (query_processes driver utf8 handle w).0 ≡ ok idle
      → (pids : ℕ → ℕ) × ((driver.processes handle 4096 w).0 ≡ (pos 0, (0, pids)))
  unfolding query_processes
  query_processes-idle handle w e =
      let ((n, pids), called, e1) = check-ok (driver.processes handle 4096) _ _ w e in
      let (t, e2) = ensure-ok (leb n 4096) (invalid_process_count (pos n)) _ _ e1 in
      let (u, e3) = ensure-pure _ _ _ _ e2 in
      (
        pids,
        subst (λ k. (driver.processes handle 4096 w).0 ≡ (pos 0, (k, pids))) (used-idle n e3)
            called,
      )

  query_status-idle :
      (device : Device) (w : W)
      → (query_status driver utf8 device w).0 ≡ ok idle
      → Confirmed device w
  unfolding query_status
  query_status-idle device w e =
      let (handle, h, e1) = >>=-ok (device_handle driver utf8 device.id) _ w e in
      let (opened, w1) = device_handle-ok device.id w handle h in
      let (now, u, e2) = >>=-ok (device_uuid driver utf8 handle) _ _ (rw w1 at e1) in
      let (read, w2) = device_uuid-ok handle (driver.handle device.id w).1 now u in
      let (same, e3) =
        ensure-ok (now == device.visible) (device_changed device.id) _ _ (rw w2 at e2) in
      let (pids, unused) = query_processes-idle handle _ e3 in
      record {
        handle = handle;
        opened = opened;
        same =
            subst (λ x. Reads utf8 (driver.uuid handle (driver.handle device.id w).1).0 x)
              ((list_beq_iff now device.visible).0 same) read;
        pids = pids;
        unused = unused;
      }

  pub status-Confirmed :
      (device : Device) (w : W) → (status driver utf8 device w).0 ≡ idle → Confirmed device w
  unfolding status
  status-Confirmed device w e =
      query_status-idle device w (unwrap_or-idle (query_status driver utf8 device w) e)
