-- ===== src/Driver/Hcu/Listed.antt =====
-- src/device/hcu.rs, `discover`: the devices that are found.
use xlurm.Base.{
  ℕ, ◌-◌, ◌^◌, ◌≡◌, refl, ◌&&◌, List, arith, nat_eq, ◌!=◌, option_eq, text_eq, ensure-ok, >>=-ok,
  ok, int_eq,
}
use xlurm.Model.{kind_eq, state_eq, Device, hcu}
use xlurm.Model.Errors.{invalid_unique_id}
use xlurm.Driver.{range}
use xlurm.Driver.Calls.{check-ok}
use xlurm.Driver.Found.{length-range, listing-Found, Found}
use xlurm.Driver.Hcu.Busy.{device_count-bounds}
use xlurm.Driver.Hcu.{device_count, found_device, discover, Smi}

module _ {W : Type 0} (driver : Smi W) where
  found_device-kind :
      (id : ℕ) (w : W) (d : Device) → (found_device driver id w).0 ≡ ok d → d.kind ≡ hcu
  unfolding found_device
  found_device-kind id w d e =
      let (uid, called, e1) = check-ok (driver.unique_id id) _ _ w e in
      let (t, e2) = ensure-ok ((uid != 0) && (uid != 2 ^ 64 - 1)) (invalid_unique_id id) _ _ e1 in
      ground (arith, e2)

  pub discover-Found :
      (w : W) (devices : List Device) → (discover driver w).0 ≡ ok devices → Found hcu devices
  unfolding discover
  discover-Found w devices e =
      let (count, counted, e1) = >>=-ok (device_count driver) _ w e in
      listing-Found hcu (found_device driver) found_device-kind (λ ds. ds) (λ ds. refl) (λ ds h. h)
        (range 0 count) _ devices
        (rw (length-range 0 count) (device_count-bounds driver w count counted).1) e1
