-- ===== src/Driver/Metax/Idle.antt =====
-- src/device/metax.rs, `status`: what has been seen of a device that is called idle.
use xlurm.Base.{
  ℕ, ◌≡◌, subst, inl, inr, Option, some, List, arith, leb, if◌then◌else◌, Bool-cases, nat_eq, ◌==◌,
  list_beq_iff, option_eq, Text, text_eq, pure, context, ensure-ok, >>=-ok, Keeps-ok, ok, int_eq,
  natural, ℤ, pos, negsuc,
}
use xlurm.Model.{kind_eq, state_eq, Device, idle, unhealthy}
use xlurm.Model.Errors.{
  null_handle, device_changed, invalid_uuid, no_availability, invalid_process_count,
}
use xlurm.Driver.Calls.{
  context-Keeps, context-ok, check-ok, opening-ok, opening-world, used-idle, unwrap_or-idle,
}
use xlurm.Driver.Reading.{Reads, ensure-pure, tested-Reads, tested-world}
use xlurm.Driver.Metax.{device_handle, device_uuid, query_processes, query_status, status, Mxsml}

module _ {H W : Type 0} (driver : Mxsml H W) (utf8 : List ℕ → Option Text) where
  -- The device has been opened by its index, has given the unique identifier that it was found with,
  -- is available, and runs no process; each call has succeeded.
  pub record Confirmed (device : Device) (w : W) : Type 0 where
    pub handle : H
    pub opened : (driver.handle device.id w).0 ≡ (pos 0, some handle)
    pub same : Reads utf8 (driver.uuid handle (driver.handle device.id w).1).0 device.visible
    pub available :
        (driver.availability device.id (driver.uuid handle (driver.handle device.id w).1).1).0
        ≡ (pos 0, pos 0)
    pub pids : ℕ → ℕ
    pub unused :
        (driver.processes handle 4096
          (driver.availability device.id (driver.uuid handle (driver.handle device.id w).1).1).1).0
        ≡ (pos 0, (0, pids))

  device_handle-ok :
      (id : ℕ) (w : W) (handle : H)
      → (device_handle driver utf8 id w).0 ≡ ok handle
      → ((driver.handle id w).0 ≡ (pos 0, some handle))
        × ((device_handle driver utf8 id w).1 ≡ (driver.handle id w).1)
  unfolding device_handle
  device_handle-ok id w handle e = (
    opening-ok (driver.handle id) _ (null_handle id) w handle e,
    opening-world (driver.handle id) _ (null_handle id) w,
  )

  device_uuid-ok :
      (handle : H) (w : W) (t : Text)
      → (device_uuid driver utf8 handle w).0 ≡ ok t
      → Reads utf8 (driver.uuid handle w).0 t
        × ((device_uuid driver utf8 handle w).1 ≡ (driver.uuid handle w).1)
  unfolding device_uuid
  device_uuid-ok handle w t e = (
    tested-Reads utf8 driver.uuid _ handle _ invalid_uuid w t e,
    tested-world utf8 driver.uuid _ handle _ invalid_uuid w,
  )

  query_processes-idle :
      (handle : H) (w : W)
      → (query_processes driver utf8 handle w).0 ≡ ok idle
      → (pids : ℕ → ℕ) × ((driver.processes handle 4096 w).0 ≡ (pos 0, (0, pids)))
  unfolding query_processes
  query_processes-idle handle w e =
      let ((n, pids), called, e1) = check-ok (driver.processes handle 4096) _ _ w e in
      let (t, e2) = ensure-ok (leb n 4096) (invalid_process_count (pos n)) _ _ e1 in
      let (u, e3) = ensure-pure _ _ _ _ e2 in
      (
        pids,
        subst (λ k. (driver.processes handle 4096 w).0 ≡ (pos 0, (k, pids))) (used-idle n e3)
            called,
      )

  available-ok :
      (code : ℤ) (n : ℕ) (handle : H) (w : W)
      → natural code ≡ some n
      → ((if n == 0 then query_processes driver utf8 handle else pure unhealthy) w).0 ≡ ok idle
      → (code ≡ pos 0) × ((query_processes driver utf8 handle w).0 ≡ ok idle)
  available-ok (negsuc m) n handle w c e = absurd (cc)
  available-ok (pos m) n handle w c e = elim (Bool-cases (n == 0)) [
    | inl y ↦ (ground (arith, c), rw y at e)
    | inr k ↦ absurd (ground (arith, rw k at e))
  ]

  query_status-idle :
      (device : Device) (w : W)
      → (query_status driver utf8 device w).0 ≡ ok idle
      → Confirmed device w
  unfolding query_status
  query_status-idle device w e =
      let (handle, h, e1) = >>=-ok (device_handle driver utf8 device.id) _ w e in
      let (opened, w1) = device_handle-ok device.id w handle h in
      let (now, u, e2) = >>=-ok (device_uuid driver utf8 handle) _ _ (rw w1 at e1) in
      let (read, w2) = device_uuid-ok handle (driver.handle device.id w).1 now u in
      let (same, e3) =
        ensure-ok (now == device.visible) (device_changed device.id) _ _ (rw w2 at e2) in
      let (code, called, e4) = check-ok (driver.availability device.id) _ _ _ e3 in
      let (n, c, e5) =
        Keeps-ok (context (natural code) no_availability) _ _
          (context-Keeps (natural code) no_availability) e4 in
      let (zeroed, e6) =
        available-ok code n handle _ (context-ok (natural code) no_availability _ c) e5 in
      let (pids, unused) = query_processes-idle handle _ e6 in
      record {
        handle = handle;
        opened = opened;
        same =
            subst (λ x. Reads utf8 (driver.uuid handle (driver.handle device.id w).1).0 x)
              ((list_beq_iff now device.visible).0 same) read;
        available =
            subst
              (λ x.
                (driver.availability device.id
                  (driver.uuid handle (driver.handle device.id w).1).1).0
                ≡ (pos 0, x))
              zeroed called;
        pids = pids;
        unused = unused;
      }

  pub status-Confirmed :
      (device : Device) (w : W) → (status driver utf8 device w).0 ≡ idle → Confirmed device w
  unfolding status
  status-Confirmed device w e =
      query_status-idle device w (unwrap_or-idle (query_status driver utf8 device w) e)
